-- ===== src/Vmm/Halves/Region.antt =====
-- `vmm_split_region` of kernel/mm/vmm.c: the space maps the same addresses in
-- the same way.
use spinix.Base.{
  ℕ, ◌%◌, ◌<◌, ◌≡◌, refl, sym, ap, ◌∙◌, ◌≢◌, inl, inr, ◌||◌, true, false, Bool-cases, some, List,
  arith, has, has-ne, length, leb, ◌==◌, eq→==, ne→==, ==→ne, ==→eq, ◌>>=◌, add64,
}
use mathlib.Core.Path.{subst}
use spinix.Base.Int.{ℤ, pos, negsuc}
use spinix.Base.Memory.{update_self}
use spinix.Base.Chain.{Chain, Chain-nonzero}
use spinix.Pmm.{page_size, align_down, phys_to_virt}
use spinix.Vmm.{Area, Space, Machine, Vmm, contains, space_of}
use spinix.Vmm.Split.{split_at, split_region}
use spinix.Vmm.Areas.{
  Ordered-top, reserved-lt, length-le-reserved, IsValid, find_area_lem, space_of_twice,
}
use spinix.Vmm.Insert.{linked}
use spinix.Vmm.Map.{Provides}
use spinix.Vmm.Halves.{
  mapping_at, behind, behind-Distinct, length-behind, Chain-behind, halved, halved-lower,
  halved-upper, mapping_at-behind, Ordered-behind, reserved-behind,
}

-- The area `a` is split: the space is valid with the new area `b` behind it, and maps every address
-- as before.
pub record Halved {W : Type 0} (s : Vmm W) (sp : ℕ) (ps : List ℕ) (a b at : ℕ) (s' : Vmm W)
    : Type 0 where
  pub valid : IsValid s' sp (behind a b ps)
  pub lower_end : (s'.area a).virt_end ≡ at
  pub upper_start : (s'.area b).virt_start ≡ at
  pub same : (v : ℕ) → mapping_at s'.area (behind a b ps) v ≡ mapping_at s.area ps v

-- What a call of vmm_split_region comes to, at the page `at`.
pub data SplitResult {W : Type 0} (M : Machine W) (s : Vmm W) (sp : ℕ) (ps : List ℕ) (at : ℕ)
    : ℤ × Vmm W → Type 0 where
  no_area :
      ((q : ℕ) → has q ps ≡ true → contains (s.area q) at ≡ false)
      → SplitResult M s sp ps at (negsuc 0, s)
  at_start :
      (a : ℕ)
      → has a ps ≡ true
      → (s.area a).virt_start ≡ at
      → SplitResult M s sp ps at (negsuc 0, s)
  no_memory :
      (M.alloc_page s.machine).0 ≡ 0
      → SplitResult M s sp ps at (negsuc 0, record s { machine = (M.alloc_page s.machine).1 })
  split :
      (a b : ℕ) (s' : Vmm W)
      → has a ps ≡ true
      → Halved s sp ps a b at s'
      → SplitResult M s sp ps at (pos 0, s')

module _ {W : Type 0} (s : Vmm W) (sp : ℕ) (ps : List ℕ) where
  split_at-Halved :
      (a b at : ℕ) (w : W)
      → IsValid s sp ps
      → has a ps ≡ true
      → b ≢ 0
      → has b ps ≡ false
      → at % page_size ≡ 0
      → (s.area a).virt_start < at
      → at < (s.area a).virt_end
      → Halved s sp ps a b at (split_at sp a b at (record s { machine = w }))
  split_at-Halved a b at w v i nb out page low high =
      let ne : b ≢ a = λ z. has-ne ps a b i out (sym z) in
      let top = Ordered-top s.area 0 ps a v.ordered i in
      let space = s.spaces sp in
      let home = update_self s.spaces sp (record space { area_count = add64 space.area_count 1 }) in
      let room = reserved-lt s.area 0 ps v.ordered (omega arith) in
      let o = Ordered-behind s.area a b at ne low high top 0 ps page v.distinct i out v.ordered in
      let spans = reserved-behind s.area a b at ne low high top ps v.distinct i out in
      let few = length-le-reserved (halved s.area a b at ne low high top) 0 (behind a b ps) o in
      let more = length-behind a b ps i in
      let was = v.count in
      record {
        valid = record {
          chain =
              subst (λ h. Chain (linked s.next b a) h (behind a b ps))
                (sym (ap (λ (x : Space). x.areas) home))
                (Chain-behind s.next a b nb ((s.spaces sp).areas) ps v.chain v.distinct i out);
          distinct = behind-Distinct a b ps i out v.distinct;
          ordered = o;
          count =
              ap (λ (x : Space). x.area_count) home ∙ omega (arith, more, was, few, room, spans);
          total = ap (λ (x : Space). x.total_size) home ∙ v.total ∙ sym spans;
        };
        lower_end = ap (λ (x : Area). x.virt_end) (halved-lower s.area a b at ne low high top);
        upper_start = ap (λ (x : Area). x.virt_start) (halved-upper s.area a b at ne low high top);
        same = λ v'. mapping_at-behind s.area a b at ne low high top ps v' v.distinct i out;
      }

-- In a valid space, with a spare structure for an area and fuel for more areas than the space has,
-- vmm_split_region returns: with 0, an area that holds the page of the address and does not begin
-- with it ends there now, a new area has the rest, the space is valid, and every address is mapped
-- as before - with the same flags, types and physical addresses; or with -1 and unchanged areas,
-- where no area holds the page, an area begins with it, or there is no frame for the new area.
pub split_region-Splits :
    {W : Type 0} (M : Machine W) (off fuel space split_addr : ℕ) (s : Vmm W) (ps : List ℕ)
    → IsValid s (space_of s space) ps
    → Provides M off s (space_of s space) ps
    → length ps < fuel
    → (r : ℤ × Vmm W) × (split_region M off fuel space split_addr s ≡ some r)
      × SplitResult M s (space_of s space) ps (align_down split_addr) r
unfolding split_region
split_region-Splits M off fuel space split_addr s ps v spare lt =
    let sp = space_of s space in
    let at = align_down split_addr in
    let (a, found, finds) =
      find_area_lem s fuel sp at ps (subst (λ z. IsValid s z ps) (sym (space_of_twice s space)) v)
        lt in
    rw (found, ◌>>=◌)
      (elim finds [
        | inr (z, apart) ↦ rw (eq→== z) ((negsuc 0, s), refl, no_area apart)
        | inl (i, h, _) ↦
            let nz = ne→== (Chain-nonzero s.next ((s.spaces sp).areas) a ps v.chain i) in
            rw nz
              (elim (Bool-cases ((at == (s.area a).virt_start) || leb ((s.area a).virt_end) at)) [
                | inl e ↦ ((negsuc 0, s), rw e refl, at_start a i (ground arith))
                | inr e ↦ rw e (elim (Bool-cases ((M.alloc_page s.machine).0 == 0)) [
                  | inl z ↦
                      let w = (M.alloc_page s.machine).1 in
                      ((negsuc 0, record s { machine = w }), rw z refl, no_memory (==→eq _ _ z))
                  | inr got ↦
                      let w = (M.alloc_page s.machine).1 in
                      let b = phys_to_virt off ((M.alloc_page s.machine).0) in
                      let (nb, out) = spare (==→ne _ _ got) in
                      (
                        (pos 0, split_at sp a b at (record s { machine = w })),
                        rw got refl,
                        split a b (split_at sp a b at (record s { machine = w })) i (
                            split_at-Halved s sp ps a b at w v i nb out (omega arith) (ground arith)
                              (ground arith)),
                      )
                ])
              ])
      ])
