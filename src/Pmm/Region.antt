-- ===== src/Pmm/Region.antt =====
-- `pmm_add_page_to_zone` and `pmm_add_region` of kernel/mm/pmm.c: the whole pages of a memory
-- region become free frames.
pub mod Valid
use spinix.Base.{
  ℕ, zero, suc, ◌+◌, ◌-◌, ◌*◌, ◌/◌, ◌%◌, ◌^◌, ◌≤◌, ◌<◌, ◌≡◌, refl, sym, ap, ◌∙◌, ◌≢◌, ◌↔◌, ◌⊎◌, inl,
  inr, Bool, true, false, Bool-cases, ==→eq, List, [], ◌∷◌, arith, length, has, Distinct, All, ltb,
  leb, ◌==◌, if◌then◌else◌, add64, sub64, mul64, u64_mod,
}
use mathlib.Core.Path.{subst}
use spinix.Base.Memory.{update, update_self, update_both, update_one}
use spinix.Pmm.{page_size, Zone, Pmm, phys_to_virt, align_down, align_up, addr_to_zone}
use spinix.Pmm.Frames.{Chain, InZone, ZoneValid, IsValid, Chain-update, has-other}
use spinix.Pmm.Alloc.{other_freed-valid}

-- What `pmm_add_page_to_zone` makes of the zone.
abbrev pub added : Zone → ℕ → Zone
added zone frame = record zone {
  free_stack = frame;
  total_pages = add64 zone.total_pages 1;
  free_pages = add64 zone.free_pages 1;
}

-- The zone of the page is found, and the page put on its stack.
unfoldable pub add_page : ℕ → ℕ → Pmm → Pmm
add_page off addr s =
    let z = addr_to_zone addr in
    let zone = s.zones z in
    let frame = phys_to_virt off addr in
    record s {
      zones = update s.zones z (added zone frame);
      mem = update s.mem frame zone.free_stack;
    }

-- The loop over the pages: `n` rounds are left, and `i` is the counter.
unfoldable pub region_loop : ℕ → ℕ → ℕ → ℕ → Pmm → Pmm
region_loop off base zero i s = s
region_loop off base (suc n) i s =
    region_loop off base n (i + 1) (add_page off (add64 base (mul64 i page_size)) s)

unfoldable pub add_region : ℕ → ℕ → ℕ → Pmm → Pmm
unfolding region_loop
add_region off base length s =
    let aligned = align_up base in
    let lost = sub64 aligned base in
    let whole = align_down (sub64 length lost) in
    if leb length lost
    then s
    else if whole == 0
    then s
    else region_loop off aligned (whole / page_size) 0 s

-- The lists of free frames after the page at `p`, and after `n` pages from `p` on.
abbrev pub add_free : (ℕ → List ℕ) → ℕ → ℕ → List ℕ
add_free free p = update free (addr_to_zone p) (p ∷ free (addr_to_zone p))

unfoldable pub add_frees : ℕ → ℕ → (ℕ → List ℕ) → ℕ → List ℕ
add_frees p zero free = free
add_frees p (suc n) free = add_frees (p + page_size) n (add_free free p)

-- A whole page of zone `z` among those that begin in [lo, hi).
abbrev pub PageIn : ℕ → ℕ → ℕ → ℕ → Type 0
PageIn lo hi z p = (lo ≤ p) × (p < hi) × (p % page_size ≡ 0) × (addr_to_zone p ≡ z)

pub addr_to_zone-lt : (p : ℕ) → addr_to_zone p < 3
unfolding addr_to_zone
addr_to_zone-lt p = ground arith

pub has-add_free :
    (free : ℕ → List ℕ) (a z p : ℕ)
    → (has p (add_free free a z) ≡ true)
      ↔ ((has p (free z) ≡ true) ⊎ ((p ≡ a) × (addr_to_zone a ≡ z)))
has-add_free free a z p = elim (Bool-cases (z == addr_to_zone a)) [
  | inl e ↦
      rw (e, update)
        (let same : z ≡ addr_to_zone a = ==→eq z (addr_to_zone a) e in
          let lists : has p (free z) ≡ has p (free (addr_to_zone a)) =
            ap (λ w. has p (free w)) same in
          ((λ h. ground arith), (λ h. ground arith)))
  | inr e ↦ rw (e, update) ((λ h. inl h), (λ h. ground arith))
]

-- No listed frame begins in [lo, hi).
abbrev pub Fresh : ℕ → ℕ → (ℕ → List ℕ) → Type 0
Fresh lo hi free = (z p : ℕ) → has p (free z) ≡ true → (p < lo) ⊎ (hi ≤ p)

pub Fresh-add_free :
    (free : ℕ → List ℕ) (a hi : ℕ) → Fresh a hi free → Fresh (a + page_size) hi (add_free free a)
Fresh-add_free free a hi fresh z p h = elim ((has-add_free free a z p).0 h) [
  | inl old ↦ ground (arith, fresh z p old)
  | inr (e, _) ↦ inl (omega arith)
]

pub Fresh-out : (free : ℕ → List ℕ) (a hi z : ℕ) → Fresh a hi free → a < hi → has a (free z) ≡ false
Fresh-out free a hi z fresh lt = elim (Bool-cases (has a (free z))) [
  | inl e ↦ absurd (omega (arith, fresh z a e))
  | inr e ↦ e
]

-- What `add_frees` lists: the frames of before, and the pages of the region.
pub has-add_frees :
    (n a : ℕ) (free : ℕ → List ℕ) (z p : ℕ)
    → a % page_size ≡ 0
    → (has p (add_frees a n free z) ≡ true)
      ↔ ((has p (free z) ≡ true) ⊎ PageIn a (a + n * page_size) z p)
unfolding add_frees
has-add_frees zero a free z p al = (inl, elim [ inl h ↦ h | inr h ↦ absurd (omega arith) ])
has-add_frees (suc n) a free z p al =
    let (down, up) = has-add_frees n (a + page_size) (add_free free a) z p (omega arith) in
    let (split, join) = has-add_free free a z p in
    (
      (λ h. elim (down h) [
        | inl g ↦ elim (split g) [
          | inl old ↦ inl old
          | inr (e, ze) ↦ inr (omega arith, omega arith, omega arith, ap addr_to_zone e ∙ ze)
        ]
        | inr (lo, hi, whole, zone) ↦ inr (omega arith, omega arith, whole, zone)
      ]),
      (λ h. elim h [
        | inl old ↦ up (inl (join (inl old)))
        | inr (lo, hi, whole, zone) ↦ elim (Bool-cases (p == a)) [
          | inl e ↦
              let same = ==→eq p a e in
              up (inl (join (inr (same, sym (ap addr_to_zone same) ∙ zone))))
          | inr ne ↦ up (inr (ground arith, omega arith, whole, zone))
        ]
      ]),
    )

-- The whole pages of [base, base + length).
abbrev pub region_frees : ℕ → ℕ → (ℕ → List ℕ) → ℕ → List ℕ
region_frees base length free =
    add_frees (align_up base) ((base + length) / page_size - align_up base / page_size) free

module _ (off base length : ℕ) (free : ℕ → List ℕ) (nz : 0 < base)
    (fits : base + length + off + page_size ≤ u64_mod) where
  -- For a region above address 0 that the direct map holds, the frames that region_frees lists for
  -- a zone are the earlier ones and exactly the aligned pages of the zone that lie whole in the
  -- region.
  pub has-region_frees :
      (z p : ℕ)
      → (has p (region_frees base length free z) ≡ true) ↔ (
          (has p (free z) ≡ true)
          ⊎ ((base ≤ p)
              × (p + page_size ≤ base + length)
              × (p % page_size ≡ 0)
              × (addr_to_zone p ≡ z)))
  has-region_frees z p =
      let a = align_up base in
      let n = (base + length) / page_size - a / page_size in
      let (down, up) = has-add_frees n a free z p (omega arith) in
      (
        (λ h. elim (down h) [
          | inl old ↦ inl old
          | inr (lo, hi, whole, zone) ↦ inr (omega arith, omega arith, whole, zone)
        ]),
        (λ h. elim h [
          | inl old ↦ up (inl old)
          | inr (lo, hi, whole, zone) ↦ up (inr (omega arith, omega arith, whole, zone))
        ]),
      )
