-- ===== src/Pmm/Alloc.antt =====
-- `pmm_alloc_page_zone` and `pmm_free_page` against the lists of free frames.
use spinix.Base.{
  ℕ, ◌<◌, ◌≡◌, refl, sym, ap, ◌∙◌, ◌≢◌, eq→==, false, List, [], ◌∷◌, arith, has, leb, ◌==◌, u64_mod,
}
use mathlib.Core.Path.{subst}
use spinix.Base.Int.{pos}
use spinix.Base.Memory.{update, update_self, update_both, update_one, update-update, update_same}
use spinix.Pmm.{
  Zone, Pmm, phys_to_virt, zero_page, popped, failed, freed, pop_frame, free_page, alloc_page_zone,
  out_of_frames,
}
use spinix.Pmm.Frames.{Chain, InZone, ZoneValid, IsValid, Chain-zero_page, Chain-update, has-other}

module _ (off : ℕ) (off_small : off < u64_mod) where
  popped-valid :
      (mem : ℕ → ℕ) (zone : Zone) (z p : ℕ) (ps : List ℕ)
      → ZoneValid off mem zone z (p ∷ ps)
      → ZoneValid off (zero_page mem zone.free_stack) (popped zone (mem zone.free_stack)) z ps
  popped-valid mem zone z p ps v = record {
    chain =
        subst (λ v'. Chain off (zero_page mem v') (mem zone.free_stack) ps) (sym v.chain.0)
          (Chain-zero_page off z z mem (mem zone.free_stack) p ps v.frames.0 v.frames.1 v.distinct.0
            v.chain.1);
    count = omega (arith, v.count);
    total = omega (arith, v.count, v.total);
    small = v.small;
    frames = v.frames.1;
    distinct = v.distinct.1;
  }

  freed-valid :
      (mem : ℕ → ℕ) (zone : Zone) (z p : ℕ) (ps : List ℕ)
      → ZoneValid off mem zone z ps
      → InZone off z p
      → has p ps ≡ false
      → zone.free_pages < zone.total_pages
      → ZoneValid off
          (update mem (phys_to_virt off p) zone.free_stack)
          (freed zone (phys_to_virt off p))
          z
          (p ∷ ps)
  freed-valid mem zone z p ps v hp out room = record {
    chain = (
      refl,
      subst (λ v'. Chain off (update mem (phys_to_virt off p) zone.free_stack) v' ps)
          (sym (update_self mem (phys_to_virt off p) zone.free_stack))
          (Chain-update off z z mem zone.free_stack p zone.free_stack ps hp v.frames out v.chain),
    );
    count = omega (arith, v.count, v.small);
    total = omega (arith, v.small);
    small = v.small;
    frames = (hp, v.frames);
    distinct = (out, v.distinct);
  }

  module _ (mem : ℕ → ℕ) (zone : Zone) (z w p : ℕ) (qs : List ℕ) (v : ZoneValid off mem zone w qs)
      (hp : InZone off z p) (ne : w ≢ z) where
    other_popped-valid : ZoneValid off (zero_page mem (phys_to_virt off p)) zone w qs
    other_popped-valid = record {
      chain =
          Chain-zero_page off w z mem zone.free_stack p qs hp v.frames
            (has-other off w z p qs hp v.frames ne) v.chain;
      count = v.count;
      total = v.total;
      small = v.small;
      frames = v.frames;
      distinct = v.distinct;
    }

    pub other_freed-valid : (x : ℕ) → ZoneValid off (update mem (phys_to_virt off p) x) zone w qs
    other_freed-valid x = record {
      chain =
          Chain-update off w z mem zone.free_stack p x qs hp v.frames
            (has-other off w z p qs hp v.frames ne) v.chain;
      count = v.count;
      total = v.total;
      small = v.small;
      frames = v.frames;
      distinct = v.distinct;
    }

  -- Taking the top frame of a zone's stack: the frame's page is cleared, nothing else is written.
  pub record Popped (s : Pmm) (free : ℕ → List ℕ) (z p : ℕ) (ps : List ℕ) (r : ℕ × Pmm)
      : Type 0 where
    pub result : r.0 ≡ p
    pub valid : IsValid off r.1 (update free z ps)
    pub cleared : r.1.mem ≡ zero_page s.mem (phys_to_virt off p)
    pub zones : r.1.zones ≡ update s.zones z (popped (s.zones z) (s.mem (s.zones z).free_stack))

  pop_frame-Popped :
      (s : Pmm) (free : ℕ → List ℕ) (z p : ℕ) (ps : List ℕ)
      → IsValid off s free
      → z < 3
      → free z ≡ p ∷ ps
      → Popped s free z p ps (pop_frame off z s)
  unfolding pop_frame
  pop_frame-Popped s free z p ps v lt e =
      let here : ZoneValid off s.mem (s.zones z) z (p ∷ ps) =
        subst (ZoneValid off s.mem (s.zones z) z) e (v z lt) in
      let top = (s.zones z).free_stack in
      let busy : ((s.zones z).free_stack == 0) ≡ false =
        ground (arith, here.chain.0, here.frames.0) in
      rw busy record {
        result = omega (arith, here.chain.0, here.frames.0);
        valid =
            update_both (λ w zone qs. w < 3 → ZoneValid off (zero_page s.mem top) zone w qs) s.zones
              free z (popped (s.zones z) (s.mem top)) ps
              (λ _. popped-valid s.mem (s.zones z) z p ps here)
              (λ w ne lt'.
                subst (λ v'. ZoneValid off (zero_page s.mem v') (s.zones w) w (free w))
                  (sym here.chain.0)
                  (other_popped-valid s.mem (s.zones w) z w p (free w) (v w lt') here.frames.0 ne));
        cleared = ap (zero_page s.mem) here.chain.0;
        zones = refl;
      }

  -- On an empty stack only the count of failures changes.
  pop_frame-empty :
      (s : Pmm) (free : ℕ → List ℕ) (z : ℕ)
      → IsValid off s free
      → z < 3
      → free z ≡ []
      → pop_frame off z s ≡ (0, out_of_frames s z)
  unfolding pop_frame
  pop_frame-empty s free z v lt e =
      let here : ZoneValid off s.mem (s.zones z) z [] =
        subst (ZoneValid off s.mem (s.zones z) z) e (v z lt) in
      rw (eq→== here.chain)

  -- In a valid allocator, pmm_free_page of a page that belongs to the zone, is not on its stack,
  -- and for which the zone counts fewer free pages than pages, puts the page on top of the zone's
  -- stack and keeps the allocator valid, the other zones' stacks included.
  pub free_page-IsValid :
      (s : Pmm) (free : ℕ → List ℕ) (z p : ℕ)
      → IsValid off s free
      → z < 3
      → InZone off z p
      → has p (free z) ≡ false
      → (s.zones z).free_pages < (s.zones z).total_pages
      → IsValid off (free_page off p s) (update free z (p ∷ free z))
  unfolding free_page
  free_page-IsValid s free z p v lt hp out room =
      let nonzero : (p == 0) ≡ false = ground arith in
      rw (nonzero, eq→== hp.0, hp.2)
        (update_both
          (λ w zone qs.
            w < 3
            → ZoneValid off (update s.mem (phys_to_virt off p) (s.zones z).free_stack) zone w qs)
          s.zones free z _ _ (λ _. freed-valid s.mem (s.zones z) z p (free z) (v z lt) hp out room)
          (λ w ne lt'.
            other_freed-valid s.mem (s.zones w) z w p (free w) (v w lt') hp ne
              (s.zones z).free_stack))

  -- In a valid allocator whose zone (below 3) has a free frame on top, pmm_alloc_page_zone returns
  -- the top frame, takes it off the zone's stack and keeps the allocator valid; the memory changes
  -- only in that frame's page, which is cleared, and of the zones only this one changes, in its
  -- stack, its count of free pages and its count of allocations.
  pub alloc_page_zone-Popped :
      (s : Pmm) (free : ℕ → List ℕ) (z p : ℕ) (ps : List ℕ)
      → IsValid off s free
      → z < 3
      → free z ≡ p ∷ ps
      → Popped s free z p ps (alloc_page_zone off (pos z) s)
  unfolding alloc_page_zone
  alloc_page_zone-Popped s free z p ps v lt e =
      let inside : leb 3 z ≡ false = ground arith in
      rw inside (pop_frame-Popped s free z p ps v lt e)

  -- With none it returns 0, and only the count of failures changes.
  pub alloc_page_zone-empty :
      (s : Pmm) (free : ℕ → List ℕ) (z : ℕ)
      → IsValid off s free
      → z < 3
      → free z ≡ []
      → alloc_page_zone off (pos z) s ≡ (0, out_of_frames s z)
  unfolding alloc_page_zone
  alloc_page_zone-empty s free z v lt e =
      let inside : leb 3 z ≡ false = ground arith in rw inside (pop_frame-empty s free z v lt e)

  failed-valid :
      (mem : ℕ → ℕ) (zone : Zone) (z : ℕ) (ps : List ℕ)
      → ZoneValid off mem zone z ps
      → ZoneValid off mem (failed zone) z ps
  failed-valid mem zone z ps v = record {
    chain = v.chain;
    count = v.count;
    total = v.total;
    small = v.small;
    frames = v.frames;
    distinct = v.distinct;
  }

  pub failed-IsValid :
      (s : Pmm) (free : ℕ → List ℕ) (z : ℕ)
      → IsValid off s free
      → IsValid off (out_of_frames s z) free
  failed-IsValid s free z v =
      update_one (λ w zone. w < 3 → ZoneValid off s.mem zone w (free w)) s.zones z
        (failed (s.zones z)) (λ lt. failed-valid s.mem (s.zones z) z (free z) (v z lt))
        (λ w ne. v w)

  -- Under the conditions of free_page-IsValid, a page that is given back is the next one that
  -- pmm_alloc_page_zone hands out of its zone, and after both calls every stack holds the frames
  -- that it held before.
  pub alloc-free :
      (s : Pmm) (free : ℕ → List ℕ) (z p : ℕ)
      → IsValid off s free
      → z < 3
      → InZone off z p
      → has p (free z) ≡ false
      → (s.zones z).free_pages < (s.zones z).total_pages
      → let (q, s') = alloc_page_zone off (pos z) (free_page off p s) in
        (q ≡ p) × IsValid off s' free
  alloc-free s free z p v lt hp out room =
      let s1 = free_page off p s in
      let v1 = free_page-IsValid s free z p v lt hp out room in
      let top : update free z (p ∷ free z) z ≡ p ∷ free z = update_self free z (p ∷ free z) in
      let got = alloc_page_zone-Popped s1 (update free z (p ∷ free z)) z p (free z) v1 lt top in
      let same : update (update free z (p ∷ free z)) z (free z) ≡ free =
        update-update free z (p ∷ free z) (free z) ∙ update_same free z in
      (got.result, subst (IsValid off (alloc_page_zone off (pos z) s1).1) same got.valid)
