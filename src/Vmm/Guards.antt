-- ===== src/Vmm/Guards.antt =====
-- `vmm_validate_range` of kernel/mm/vmm.c: the ranges that it accepts.
use Prim.Native.Nat.{bit_and}
use spinix.Base.{
  ℕ, ◌+◌, ◌-◌, ◌≤◌, ◌<◌, ◌≡◌, ◌↔◌, refl, sym, ap, ◌∙◌, ◌≢◌, inl, inr, ◌||◌, true, not, Bool-cases,
  some, List, arith, has, length, ne→==, if◌then◌else◌, ◌>>=◌, u64_mod, add64, sub64,
}
use mathlib.Core.Path.{subst}
use mathlib.Core.Bool.{false≢true}
use spinix.Base.Int.{ℤ, pos, negsuc}
use spinix.Base.Chain.{Chain-nonzero}
use spinix.Vmm.{
  Vmm, user_max, is_canonical, contains, range_ok, space_of, find_area, validate_range,
}
use spinix.Vmm.Areas.{Ordered-top, IsValid, find_area_lem}

-- Both ends of the range are canonical, and it lies in one area, whose flags include the required ones.
pub record Allowed {W : Type 0} (s : Vmm W) (ps : List ℕ) (virt_addr size required : ℕ)
    : Type 0 where
  pub area : ℕ
  pub listed : has area ps ≡ true
  pub first_in : contains (s.area area) virt_addr ≡ true
  pub last_in : virt_addr + size ≤ (s.area area).virt_end
  pub flags : bit_and (s.area area).flags required ≡ required
  pub low_canonical : is_canonical virt_addr ≡ true
  pub high_canonical : is_canonical (virt_addr + size - 1) ≡ true

module _ {W : Type 0} (s : Vmm W) (fuel sp virt_addr size required : ℕ) (ps : List ℕ) where
  validated :
      (a : ℕ)
      → find_area fuel sp virt_addr s ≡ some a
      → a ≢ 0
      → is_canonical virt_addr ≡ true
      → is_canonical (sub64 (add64 virt_addr size) 1) ≡ true
      → validate_range fuel sp virt_addr size required s
        ≡ some (if range_ok (s.area a) virt_addr size required then pos 0 else negsuc 0)
  unfolding validate_range
  validated a found nz low high = rw (low, high) (rw (found, ◌>>=◌) (rw (ne→== nz) refl))

  not_canonical :
      not (is_canonical virt_addr) || not (is_canonical (sub64 (add64 virt_addr size) 1)) ≡ true
      → validate_range fuel sp virt_addr size required s ≡ some (negsuc 0)
  unfolding validate_range
  not_canonical e = rw e refl

  not_found :
      find_area fuel sp virt_addr s ≡ some 0
      → validate_range fuel sp virt_addr size required s ≡ some (negsuc 0)
  unfolding validate_range
  not_found e =
      elim (Bool-cases
        (not (is_canonical virt_addr) || not (is_canonical (sub64 (add64 virt_addr size) 1)))) [
          | inl h ↦ rw h refl
          | inr h ↦ rw h (rw (e, ◌>>=◌) refl)
        ]

  -- The area that holds the first byte decides.
  decided :
      (a : ℕ)
      → find_area fuel sp virt_addr s ≡ some a
      → a ≢ 0
      → has a ps ≡ true
      → contains (s.area a) virt_addr ≡ true
      → ((q : ℕ) → has q ps ≡ true → contains (s.area q) virt_addr ≡ true → q ≡ a)
      → is_canonical virt_addr ≡ true
      → is_canonical (virt_addr + size - 1) ≡ true
      → virt_addr + size < u64_mod
      → sub64 (add64 virt_addr size) 1 ≡ virt_addr + size - 1
      → (r : ℤ) × (validate_range fuel sp virt_addr size required s ≡ some r)
        × ((r ≡ pos 0) ↔ Allowed s ps virt_addr size required)
  decided a found nz i h unique low high small last =
      let eq = validated a found nz low (ap is_canonical last ∙ high) in
      elim (Bool-cases (range_ok (s.area a) virt_addr size required)) [
        | inl e ↦ (
          pos 0,
          rw e at eq,
          (
            λ z. record {
              area = a;
              listed = i;
              first_in = h;
              last_in = ground arith;
              flags = ground arith;
              low_canonical = low;
              high_canonical = high;
            },
            λ al. refl,
          ),
        )
        | inr e ↦ (
          negsuc 0,
          rw e at eq,
          (
            λ z. cc,
            λ al.
                let same = unique al.area al.listed al.first_in in
                let last_in = subst (λ q. virt_addr + size ≤ (s.area q).virt_end) same al.last_in in
                let flags =
                  subst (λ q. bit_and (s.area q).flags required ≡ required) same al.flags in
                absurd (ground arith),
          ),
        )
      ]

  -- In a valid space, for a range of at least one byte that does not wrap round, and with fuel for
  -- more areas than the space has, vmm_validate_range returns 0 exactly where both ends of the
  -- range are canonical addresses, an area holds the whole range, and its flags include the
  -- required ones.
  pub validate_range_lem :
      IsValid s (space_of s sp) ps
      → 0 < size
      → virt_addr + size < u64_mod
      → length ps < fuel
      → (r : ℤ) × (validate_range fuel sp virt_addr size required s ≡ some r)
        × ((r ≡ pos 0) ↔ Allowed s ps virt_addr size required)
  validate_range_lem v some_size small lt =
      let last : sub64 (add64 virt_addr size) 1 ≡ virt_addr + size - 1 = omega arith in
      elim (Bool-cases
        (not (is_canonical virt_addr) || not (is_canonical (sub64 (add64 virt_addr size) 1)))) [
          | inl bad ↦ (
            negsuc 0,
            not_canonical bad,
            (
              λ z. cc,
              λ al.
                  let low = al.low_canonical in
                  let high = ap is_canonical last ∙ al.high_canonical in absurd (ground arith),
            ),
          )
          | inr good ↦
              let (a, found, finds) = find_area_lem s fuel sp virt_addr ps v lt in
              elim finds [
                | inr (z, apart) ↦ (
                  negsuc 0,
                  not_found (found ∙ ap some z),
                  (
                    λ e. cc,
                    λ al. absurd (false≢true (sym (apart al.area al.listed) ∙ al.first_in)),
                  ),
                )
                | inl (i, h, unique) ↦
                    decided a found
                      (Chain-nonzero s.next ((s.spaces (space_of s sp)).areas) a ps v.chain i) i h
                      unique (ground arith) (ap is_canonical (sym last) ∙ ground arith) small last
              ]
        ]

  -- In a valid space, with fuel for more areas than it has: for a user address, and a length with
  -- which the range wraps round 2 ^ 64 and its wrapped end is a user address, vmm_validate_range
  -- returns 0 if the area that holds the first byte has the required flags and ends at or behind
  -- the wrapped end, although the range has bytes behind the area.
  pub validate_range-wraps :
      (a : ℕ)
      → IsValid s (space_of s sp) ps
      → length ps < fuel
      → has a ps ≡ true
      → contains (s.area a) virt_addr ≡ true
      → bit_and (s.area a).flags required ≡ required
      → virt_addr ≤ user_max
      → size < u64_mod
      → u64_mod < virt_addr + size
      → virt_addr + size - u64_mod ≤ (s.area a).virt_end
      → virt_addr + size - u64_mod ≤ user_max
      → (validate_range fuel sp virt_addr size required s ≡ some (pos 0))
        × ((s.area a).virt_end < virt_addr + size)
  unfolding is_canonical
  validate_range-wraps a v lt i h flags low size_64 wraps end high =
      let (b, found, finds) = find_area_lem s fuel sp virt_addr ps v lt in
      elim finds [
        | inr (z, apart) ↦ absurd (false≢true (sym (apart a i) ∙ h))
        | inl (ib, hb, unique) ↦
            let same = unique a i h in
            let nz = Chain-nonzero s.next ((s.spaces (space_of s sp)).areas) a ps v.chain i in
            let ok : range_ok (s.area a) virt_addr size required ≡ true = ground arith in
            (
              validated a (found ∙ ap some (sym same)) nz (ground arith) (ground arith)
                  ∙ rw ok refl,
              (let top = Ordered-top s.area 0 ps a v.ordered i in omega arith),
            )
      ]
