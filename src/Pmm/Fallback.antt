-- ===== src/Pmm/Fallback.antt =====
-- `pmm_alloc_page`: the order in which the zones are tried.
use spinix.Base.{ℕ, zero, suc, ◌<◌, ◌≡◌, refl, false, List, [], ◌∷◌, arith, ◌==◌, u64_mod}
use mathlib.Core.Path.{subst}
use spinix.Base.Int.{pos}
use spinix.Base.Memory.{update}
use spinix.Pmm.{Pmm, alloc_page_zone, alloc_page, or_else, out_of_frames}
use spinix.Pmm.Frames.{ZoneValid, IsValid}
use spinix.Pmm.Alloc.{Popped, alloc_page_zone-Popped, alloc_page_zone-empty, failed-IsValid}

module _ (off : ℕ) (off_small : off < u64_mod) where
  -- A chain of zones stops at the first zone with a frame, and passes an empty one.
  or_else-Popped :
      (s : Pmm) (free : ℕ → List ℕ) (z p : ℕ) (ps : List ℕ) (next : Pmm → ℕ × Pmm)
      → IsValid off s free
      → z < 3
      → free z ≡ p ∷ ps
      → Popped off off_small s free z p ps (or_else (alloc_page_zone off (pos z) s) next)
  unfolding or_else
  or_else-Popped s free z p ps next v lt e =
      let got = alloc_page_zone-Popped off off_small s free z p ps v lt e in
      let here = subst (ZoneValid off s.mem (s.zones z) z) e (v z lt) in
      let found : ((alloc_page_zone off (pos z) s).0 == 0) ≡ false =
        ground (arith, got.result, here.frames.0) in
      rw found got

  or_else-empty :
      (s : Pmm) (free : ℕ → List ℕ) (z : ℕ) (next : Pmm → ℕ × Pmm)
      → IsValid off s free
      → z < 3
      → free z ≡ []
      → or_else (alloc_page_zone off (pos z) s) next ≡ next (out_of_frames s z)
  unfolding or_else
  or_else-empty s free z next v lt e = rw (alloc_page_zone-empty off off_small s free z v lt e)

  abbrev Took : (ℕ → List ℕ) → ℕ → ℕ → List ℕ → ℕ × Pmm → Type 0
  Took free z p ps r = (r.0 ≡ p) × IsValid off r.1 (update free z ps)

  -- In a valid allocator in which a zone has a free frame and every zone above it has none,
  -- pmm_alloc_page returns that zone's top frame and takes it off, and the allocator stays valid.
  pub alloc_page-first :
      (s : Pmm) (free : ℕ → List ℕ) (z p : ℕ) (ps : List ℕ)
      → IsValid off s free
      → z < 3
      → free z ≡ p ∷ ps
      → ((w : ℕ) → z < w → w < 3 → free w ≡ [])
      → ((alloc_page off s).0 ≡ p) × IsValid off (alloc_page off s).1 (update free z ps)
  unfolding alloc_page
  alloc_page-first s free zero p ps v lt e above =
      let s1 = out_of_frames s 2 in
      let s2 = out_of_frames s1 1 in
      let v1 = failed-IsValid off off_small s free 2 v in
      let v2 = failed-IsValid off off_small s1 free 1 v1 in
      let got = alloc_page_zone-Popped off off_small s2 free 0 p ps v2 lt e in
      rw (or_else-empty s free 2 _ v (omega arith) (above 2 (omega arith) (omega arith))) (
        rw (or_else-empty s1 free 1 _ v1 (omega arith) (above 1 (omega arith) (omega arith)))
          (got.result, got.valid))
  alloc_page-first s free (suc zero) p ps v lt e above =
      let s1 = out_of_frames s 2 in
      let v1 = failed-IsValid off off_small s free 2 v in
      let got = or_else-Popped s1 free 1 p ps _ v1 lt e in
      rw (or_else-empty s free 2 _ v (omega arith) (above 2 (omega arith) (omega arith)))
        (got.result, got.valid)
  alloc_page-first s free (suc (suc zero)) p ps v lt e above =
      let got = or_else-Popped s free 2 p ps _ v lt e in (got.result, got.valid)
  alloc_page-first s free (suc (suc (suc z))) p ps v lt e above = absurd (omega arith)

  -- In a valid allocator in which no zone has a free frame, pmm_alloc_page returns 0 and the
  -- allocator stays valid with no free frame.
  pub alloc_page-empty :
      (s : Pmm) (free : ℕ → List ℕ)
      → IsValid off s free
      → ((w : ℕ) → w < 3 → free w ≡ [])
      → ((alloc_page off s).0 ≡ 0) × IsValid off (alloc_page off s).1 free
  unfolding alloc_page
  alloc_page-empty s free v none =
      let s1 = out_of_frames s 2 in
      let s2 = out_of_frames s1 1 in
      let v1 = failed-IsValid off off_small s free 2 v in
      let v2 = failed-IsValid off off_small s1 free 1 v1 in
      rw (or_else-empty s free 2 _ v (omega arith) (none 2 (omega arith))) (
        rw (or_else-empty s1 free 1 _ v1 (omega arith) (none 1 (omega arith))) (
          rw (alloc_page_zone-empty off off_small s2 free 0 v2 (omega arith) (none 0 (omega arith)))
            (refl, failed-IsValid off off_small s2 free 0 v2)))
