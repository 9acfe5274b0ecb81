-- ===== src/Vmm/Halves.antt =====
-- Splitting an area of kernel/mm/vmm.c, on the list of its space.
pub mod Region
use spinix.Base.{
  ℕ, suc, ◌+◌, ◌-◌, ◌%◌, ◌≤◌, ◌<◌, ◌≡◌, ◌⊎◌, refl, sym, ap, ◌∙◌, ◌≢◌, inl, inr, ◌&&◌, ◌||◌, Bool,
  true, false, Bool-cases, Option, none, some, List, [], ◌∷◌, arith, has, has-ne, Distinct, length,
  leb, ltb, ◌==◌, eq→==, ne→==, ==→eq, ==→ne, if◌then◌else◌, ◌>>=◌, u64_mod, add64, sub64,
}
use mathlib.Core.Path.{subst}
use mathlib.Core.Bool.{false≢true}
use spinix.Base.Int.{ℤ, pos, negsuc}
use spinix.Base.Memory.{update, update_ne, update_self}
use spinix.Base.Chain.{Chain, Chain-nonzero, Chain-update}
use spinix.Pmm.{page_size, align_down, phys_to_virt}
use spinix.Vmm.{phys_mapping, Area, Space, Machine, Vmm, contains, space_of, find_area}
use spinix.Vmm.Split.{upper_part, split_at, split_region}
use spinix.Vmm.Areas.{
  Ordered, Ordered-keep, Ordered-filled, reserved, reserved-keep, reserved-lt, length-le-reserved,
  contains-low, IsValid, Finds, find_area_lem,
}
use spinix.Vmm.Insert.{linked, linked-here}
use spinix.Vmm.Map.{Provides}

-- How an address of an area is mapped: the flags, the type and the allocation flags, and the physical
-- address that it stands for in a physical mapping.
abbrev pub mapping : Area → ℕ → ℕ × ℕ × ℕ × ℕ
mapping a v = (
  a.flags,
  a.type,
  a.alloc_flags,
  if a.type == phys_mapping then add64 a.phys_base (sub64 v a.virt_start) else 0,
)

-- How an address of a space is mapped.
abbrev pub mapping_at : (ℕ → Area) → List ℕ → ℕ → Option (ℕ × ℕ × ℕ × ℕ)
mapping_at area [] v = none
mapping_at area (a ∷ ps) v =
    if contains (area a) v then some (mapping (area a) v) else mapping_at area ps v

pub mapping_at-keep :
    (area area' : ℕ → Area) (ps : List ℕ) (v : ℕ)
    → ((q : ℕ) → has q ps ≡ true → area' q ≡ area q)
    → mapping_at area' ps v ≡ mapping_at area ps v
mapping_at-keep area area' [] v same = refl
mapping_at-keep area area' (a ∷ ps) v same =
    rw (same a (ground arith), mapping_at-keep area area' ps v (λ q i. same q (ground arith))) refl

-- The list with `b` behind `a`.
abbrev pub behind : ℕ → ℕ → List ℕ → List ℕ
behind a b [] = []
behind a b (p ∷ ps) = if p == a then p ∷ b ∷ ps else p ∷ behind a b ps

pub has-behind :
    (a b q : ℕ) (ps : List ℕ) → has a ps ≡ true → has q (behind a b ps) ≡ ((q == b) || has q ps)
has-behind a b q [] i = absurd (false≢true i)
has-behind a b q (p ∷ ps) i = elim (Bool-cases (p == a)) [
  | inl e ↦ rw (e, behind) (ground arith)
  | inr e ↦ rw (e, behind) (ground (arith, has-behind a b q ps (ground arith)))
]

pub behind-Distinct :
    (a b : ℕ) (ps : List ℕ)
    → has a ps ≡ true
    → has b ps ≡ false
    → Distinct ps
    → Distinct (behind a b ps)
behind-Distinct a b [] i out d = tt
behind-Distinct a b (p ∷ ps) i out (out_p, d) = elim (Bool-cases (p == a)) [
  | inl e ↦ rw (e, behind) (ground arith, (ground arith, d))
  | inr e ↦
      rw (e, behind)
        (
          has-behind a b p ps (ground arith) ∙ ground arith,
          behind-Distinct a b ps (ground arith) (ground arith) d,
        )
]

pub length-behind :
    (a b : ℕ) (ps : List ℕ) → has a ps ≡ true → length (behind a b ps) ≡ suc (length ps)
length-behind a b [] i = absurd (false≢true i)
length-behind a b (p ∷ ps) i = elim (Bool-cases (p == a)) [
  | inl e ↦ rw (e, behind) refl
  | inr e ↦ rw (e, behind) (ap suc (length-behind a b ps (ground arith)))
]

module _ (next : ℕ → ℕ) (a b : ℕ) (nb : b ≢ 0) where
  pub Chain-behind :
      (v : ℕ) (ps : List ℕ)
      → Chain next v ps
      → Distinct ps
      → has a ps ≡ true
      → has b ps ≡ false
      → Chain (linked next b a) v (behind a b ps)
  Chain-behind v [] c d i out = absurd (false≢true i)
  Chain-behind v (p ∷ ps) (e, nz, c) (out_p, d) i out = elim (Bool-cases (p == a)) [
    | inl h ↦
        let same = ==→eq p a h in
        rw (h, behind)
          (
            e,
            nz,
            subst (λ z. Chain (linked next b z) (linked next b z p) (b ∷ ps)) same
                (linked-here next b nb p ps c out_p (ground arith) (ground arith)),
          )
    | inr h ↦
        rw (h, behind)
          (
            e,
            nz,
            subst (λ z. Chain (linked next b a) z (behind a b ps))
                (sym (
                  update_ne (update next b (next a)) a p b (==→ne p a h)
                  ∙ update_ne next b p (next a) (ground arith)))
                (Chain-behind (next p) ps c d (ground arith) (ground arith)),
          )
  ]

pub phys_halves :
    (base start at v : ℕ)
    → start < at
    → at ≤ v
    → v < u64_mod
    → add64 (add64 base (sub64 at start)) (sub64 v at) ≡ add64 base (sub64 v start)
phys_halves base start at v lt le small = omega arith

-- The areas after a split of `a` at the page `at`, with `b` for the upper part.
module _ (area : ℕ → Area) (a b at : ℕ) (ne : b ≢ a) (low_part : (area a).virt_start < at)
    (high_part : at < (area a).virt_end) (top : (area a).virt_end < u64_mod) where
  abbrev pub lower : Area
  lower = record (area a) { virt_end = at }

  abbrev pub halved : ℕ → Area
  halved = update (update area b (upper_part (area a) at)) a lower

  pub halved-lower : halved a ≡ lower
  halved-lower = update_self (update area b (upper_part (area a) at)) a lower

  pub halved-upper : halved b ≡ upper_part (area a) at
  halved-upper =
      update_ne (update area b (upper_part (area a) at)) a b lower ne
      ∙ update_self area b (upper_part (area a) at)

  halved-other : (q : ℕ) → q ≢ a → q ≢ b → halved q ≡ area q
  halved-other q na nb =
      update_ne (update area b (upper_part (area a) at)) a q lower na
      ∙ update_ne area b q (upper_part (area a) at) nb

  halved-rest :
      (ps : List ℕ)
      → has a ps ≡ false
      → has b ps ≡ false
      → (q : ℕ) → has q ps ≡ true
      → halved q ≡ area q
  halved-rest ps oa ob q i = halved-other q (has-ne ps q a i oa) (has-ne ps q b i ob)

  -- The two halves in place of the area.
  mapping-halves :
      (ps : List ℕ) (v : ℕ)
      → mapping_at halved ps v ≡ mapping_at area ps v
      → mapping_at halved (a ∷ b ∷ ps) v ≡ mapping_at area (a ∷ ps) v
  mapping-halves ps v rest =
      rw (halved-lower, halved-upper)
        (ground (arith, rest, phys_halves ((area a).phys_base) ((area a).virt_start) at v))

  pub mapping_at-behind :
      (ps : List ℕ) (v : ℕ)
      → Distinct ps
      → has a ps ≡ true
      → has b ps ≡ false
      → mapping_at halved (behind a b ps) v ≡ mapping_at area ps v
  mapping_at-behind [] v d i out = absurd (false≢true i)
  mapping_at-behind (p ∷ ps) v (out_p, d) i out = elim (Bool-cases (p == a)) [
    | inl h ↦
        let out_a = subst (λ z. has z ps ≡ false) (==→eq p a h) out_p in
        rw (h, behind)
          (subst (λ z. mapping_at halved (z ∷ b ∷ ps) v ≡ mapping_at area (z ∷ ps) v)
            (sym (==→eq p a h))
            (mapping-halves ps v
              (mapping_at-keep area halved ps v (halved-rest ps out_a (ground arith)))))
    | inr h ↦
        rw (h, behind)
          (rw
            (
              halved-other p (==→ne p a h) (ground arith),
              mapping_at-behind ps v d (ground arith) (ground arith),
            )
            refl)
  ]

  pub Ordered-behind :
      (low : ℕ) (ps : List ℕ)
      → at % page_size ≡ 0
      → Distinct ps
      → has a ps ≡ true
      → has b ps ≡ false
      → Ordered area low ps
      → Ordered halved low (behind a b ps)
  Ordered-behind low [] page d i out o = absurd (false≢true i)
  Ordered-behind low (p ∷ ps) page (out_p, d) i out (l, lt, t, sp, ep, o) =
      elim (Bool-cases (p == a)) [
        | inl h ↦
            let same = ==→eq p a h in
            let out_a = subst (λ z. has z ps ≡ false) same out_p in
            let rest =
              Ordered-keep area halved ((area a).virt_end) ps (halved-rest ps out_a (ground arith))
                (subst (λ z. Ordered area (area z).virt_end ps) same o) in
            let (l', sp', ep') =
              subst
                (λ z.
                  (low ≤ (area z).virt_start)
                  × ((area z).virt_start % page_size ≡ 0)
                  × ((area z).virt_end % page_size ≡ 0))
                same (l, sp, ep) in
            rw (h, behind)
              (subst (λ z. Ordered halved low (z ∷ b ∷ ps)) (sym same)
                (rw (halved-lower, halved-upper)
                  (
                    l',
                    low_part,
                    omega arith,
                    sp',
                    page,
                    (omega arith, high_part, top, page, ep', rest),
                  )))
        | inr h ↦
            rw (h, behind)
              (rw (halved-other p (==→ne p a h) (ground arith)) (
                l,
                lt,
                t,
                sp,
                ep,
                Ordered-behind ((area p).virt_end) ps page d (ground arith) (ground arith) o,
              ))
      ]

  pub reserved-behind :
      (ps : List ℕ)
      → Distinct ps
      → has a ps ≡ true
      → has b ps ≡ false
      → reserved halved (behind a b ps) ≡ reserved area ps
  reserved-behind [] d i out = absurd (false≢true i)
  reserved-behind (p ∷ ps) (out_p, d) i out = elim (Bool-cases (p == a)) [
    | inl h ↦
        let same = ==→eq p a h in
        let out_a = subst (λ z. has z ps ≡ false) same out_p in
        let rest = reserved-keep area halved ps (halved-rest ps out_a (ground arith)) in
        rw (h, behind)
          (subst (λ z. reserved halved (z ∷ b ∷ ps) ≡ reserved area (z ∷ ps)) (sym same)
            (rw (halved-lower, halved-upper) (omega (arith, rest))))
    | inr h ↦
        rw (h, behind)
          (rw (halved-other p (==→ne p a h) (ground arith))
            (omega (arith, reserved-behind ps d (ground arith) (ground arith))))
  ]
