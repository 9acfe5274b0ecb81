-- ===== src/Vmm/Gaps.antt =====
-- `vmm_find_free_area` and `vmm_alloc_region` of kernel/mm/vmm.c: room between the areas.
use spinix.Base.{
  ℕ, zero, suc, ◌+◌, ◌-◌, ◌%◌, ◌≤◌, ◌<◌, ◌≡◌, ◌⊎◌, refl, inl, inr, Bool, true, false, Bool-cases,
  some, List, [], ◌∷◌, arith, length, leb, ◌==◌, eq→==, ne→==, ==→eq, u64_mod, add64, sub64,
}
use mathlib.Core.Path.{subst}
use mathlib.Core.Bool.{false≢true}
use spinix.Base.Chain.{Chain}
use spinix.Pmm.{page_size, align_up}
use spinix.Vmm.{Area, Vmm, overlaps, gap_loop, search_start, search_end, find_free_area}
use spinix.Vmm.Areas.{Ordered, IsValid}
use spinix.Vmm.Insert.{Apart}

-- All areas end at or below `limit`.
abbrev pub EndBy : (ℕ → Area) → ℕ → List ℕ → Type 0
EndBy area limit [] = Unit
EndBy area limit (a ∷ ps) = ((area a).virt_end ≤ limit) × EndBy area limit ps

-- A range behind the bound of a list's areas, or before all of them, meets none of them.
Apart-before :
    (area : ℕ → Area) (low start end : ℕ) (ps : List ℕ)
    → Ordered area low ps
    → end ≤ low
    → Apart area start end ps
Apart-before area low start end [] o le q i = absurd (false≢true i)
Apart-before area low start end (a ∷ ps) (l, lt, top, sa, ea, o) le q i =
    elim (Bool-cases (a == q)) [
      | inl e ↦ subst (λ z. overlaps start end (area z) ≡ false) (==→eq a q e) (ground arith)
      | inr e ↦ Apart-before area ((area a).virt_end) start end ps o (omega arith) q (ground arith)
    ]

Apart-behind :
    (area : ℕ → Area) (start end a : ℕ) (ps : List ℕ)
    → (area a).virt_end ≤ start
    → Apart area start end ps
    → Apart area start end (a ∷ ps)
Apart-behind area start end a ps le apart q i = elim (Bool-cases (a == q)) [
  | inl e ↦ subst (λ z. overlaps start end (area z) ≡ false) (==→eq a q e) (ground arith)
  | inr e ↦ apart q (ground arith)
]

-- No place from `low` to `limit` has room for `size` bytes between the areas.
abbrev pub Full : (ℕ → Area) → ℕ → ℕ → ℕ → List ℕ → Type 0
Full area low limit size ps = (v : ℕ) → low ≤ v → v + size ≤ limit → Apart area v (v + size) ps → ⊥

-- A place from `low` to `limit` with room for `size` bytes.
abbrev pub Room : (ℕ → Area) → ℕ → ℕ → ℕ → List ℕ → ℕ → Type 0
Room area low limit size ps r =
    (low ≤ r) × (r + size ≤ limit) × (r % page_size ≡ 0) × Apart area r (r + size) ps

-- A place with room, or 0 if there is none.
abbrev pub Chooses : (ℕ → Area) → ℕ → ℕ → ℕ → List ℕ → ℕ → Type 0
Chooses area low limit size ps r =
    Room area low limit size ps r ⊎ ((r ≡ 0) × Full area low limit size ps)

Full-next :
    (area : ℕ → Area) (low limit size b : ℕ) (ps : List ℕ)
    → 0 < size
    → (area b).virt_start < low + size
    → (area b).virt_start < (area b).virt_end
    → Full area (area b).virt_end limit size ps
    → Full area low limit size (b ∷ ps)
Full-next area low limit size b ps some_size narrow filled full v le fits apart =
    let clear = apart b (ground arith) in full v (ground arith) fits (λ q i. apart q (ground arith))

gap_loop-Chooses :
    (fuel : ℕ) (area : ℕ → Area) (next : ℕ → ℕ) (limit size a : ℕ) (ps : List ℕ)
    → 0 < size
    → Chain next (next a) ps
    → Ordered area (area a).virt_end ps
    → (area a).virt_end % page_size ≡ 0
    → (area a).virt_end ≤ limit
    → limit < u64_mod
    → EndBy area limit ps
    → length ps < fuel
    → (r : ℕ) × (gap_loop fuel area next limit size a ≡ some r)
      × Chooses area (area a).virt_end limit size ps r
unfolding gap_loop
gap_loop-Chooses zero area next limit size a ps pos c o al by small ends lt = absurd (omega arith)
gap_loop-Chooses (suc fuel) area next limit size a [] pos c o al by small ends lt =
    elim (Bool-cases (leb size (sub64 limit ((area a).virt_end)))) [
      | inl e ↦ (
        (area a).virt_end,
        rw (eq→== c, e) refl,
        inl (omega arith, ground arith, al, λ q i. absurd (false≢true i)),
      )
      | inr e ↦ (0, rw (eq→== c, e) refl, inr (refl, λ v le fits apart. ground arith))
    ]
gap_loop-Chooses (suc fuel) area next limit size a (b ∷ ps) pos (e, nz, c) (l, lt', top, sb, eb, o)
      al by small (by_b, ends) lt =
    elim (Bool-cases (leb size (sub64 ((area b).virt_start) ((area a).virt_end)))) [
      | inl h ↦ (
        (area a).virt_end,
        rw e (rw (ne→== nz, h) refl),
        inl (
          omega arith,
          ground arith,
          al,
          Apart-before area ((area a).virt_end + size) ((area a).virt_end)
              ((area a).virt_end + size) (b ∷ ps) (ground arith, lt', top, sb, eb, o) (omega arith),
        ),
      )
      | inr h ↦
          let (r, eq, choice) =
            gap_loop-Chooses fuel area next limit size b ps pos c o eb by_b small ends
              (omega arith) in
          (
            r,
            rw e (rw (ne→== nz, h) eq),
            elim choice [
              | inl (behind, fits, ar, apart) ↦
                  inl (omega arith, fits, ar, Apart-behind area r (r + size) b ps behind apart)
              | inr (z, full) ↦ inr (
                z,
                Full-next area ((area a).virt_end) limit size b ps pos (ground arith) lt' full,
              )
            ],
          )
    ]

search_bounds :
    (user : Bool)
    → (search_start user % page_size ≡ 0)
      × (search_start user < search_end user)
      × (search_end user < u64_mod)
search_bounds true = omega arith
search_bounds false = omega arith

-- In a valid space whose areas lie within the bounds of the search, for a size other than 0 that fits
-- between them, and with fuel for more areas than the space has, vmm_find_free_area returns the
-- address of a page from which the range of that size lies within the bounds and meets no area; or 0,
-- and there is no such range.
pub find_free_area-Chooses :
    {W : Type 0} (s : Vmm W) (fuel sp size : ℕ) (user : Bool) (ps : List ℕ)
    → IsValid s sp ps
    → Ordered s.area (search_start user) ps
    → EndBy s.area (search_end user) ps
    → 0 < align_up size
    → align_up size ≤ search_end user - search_start user
    → length ps < fuel
    → (r : ℕ) × (find_free_area fuel sp size user s ≡ some r)
      × Chooses s.area (search_start user) (search_end user) (align_up size) ps r
unfolding find_free_area
find_free_area-Chooses s fuel sp size user [] v o ends pos fits lt =
    let (page, less, small) = search_bounds user in
    (
      search_start user,
      rw (eq→== v.chain) refl,
      inl (omega arith, omega arith, page, λ q i. absurd (false≢true i)),
    )
find_free_area-Chooses s fuel sp size user (a ∷ ps) v (l, lt', top, sa, ea, o) (by_a, ends) pos fits
      lt =
    let (page, less, small) = search_bounds user in
    let lo = search_start user in
    let n = align_up size in
    let (e, nz, c) = v.chain in
    elim (Bool-cases (leb (add64 lo n) ((s.area a).virt_start))) [
      | inl h ↦
          let before : lo + n ≤ (s.area a).virt_start = ground arith in
          (
            lo,
            rw e (rw (ne→== nz, h) refl),
            inl (
              omega arith,
              omega arith,
              page,
              Apart-before s.area (lo + n) lo (lo + n) (a ∷ ps) (before, lt', top, sa, ea, o)
                  (omega arith),
            ),
          )
      | inr h ↦
          let (r, eq, choice) =
            gap_loop-Chooses fuel s.area s.next (search_end user) n a ps pos c o ea by_a small ends
              (omega arith) in
          (
            r,
            rw e (rw (ne→== nz, h) eq),
            elim choice [
              | inl (behind, within, ar, apart) ↦
                  inl (omega arith, within, ar, Apart-behind s.area r (r + n) a ps behind apart)
              | inr (z, full) ↦
                  inr (z, Full-next s.area lo (search_end user) n a ps pos (ground arith) lt' full)
            ],
          )
    ]
