-- ===== src/Vmm/Unmap.antt =====
-- `vmm_unmap_region` of kernel/mm/vmm.c: an area leaves the list of its space.
use spinix.Base.{
  ℕ, suc, ◌+◌, ◌-◌, ◌<◌, ◌≡◌, refl, sym, ap, ◌∙◌, ◌≢◌, inl, inr, ◌&&◌, true, Bool-cases, Option,
  some, List, [], ◌∷◌, arith, has, length, ◌==◌, eq→==, ne→==, ==→eq, ◌>>=◌, sub64,
}
use mathlib.Core.Path.{subst}
use mathlib.Core.Bool.{false≢true}
use spinix.Base.Int.{ℤ, pos, negsuc}
use spinix.Base.Memory.{update_self}
use spinix.Base.Chain.{
  Chain, Chain-nonzero, without, without-Distinct, Found, at_head, inside, absent, find_link,
  find_link-Found,
}
use spinix.Base.Chain.Search.{first, first-IsFirst, find_node-first}
use spinix.Pmm.{virt_to_phys}
use spinix.Vmm.{Area, Space, Machine, Vmm, overlaps, space_of, unlink_area, remove_area}
use spinix.Vmm.Regions.{
  first_page, past_pages, uncount_region, count_destroyed, release_area, drop_region, unmap_region,
}
use spinix.Vmm.Areas.{
  Ordered, Ordered-lower, Ordered-filled, reserved, reserved-lt, length-le-reserved, IsValid,
}
use spinix.Vmm.Insert.{Apart}

Ordered-without :
    (area : ℕ → Area) (low a : ℕ) (ps : List ℕ)
    → Ordered area low ps
    → Ordered area low (without a ps)
Ordered-without area low a [] o = tt
Ordered-without area low a (p ∷ ps) (l, lt, top, sp, ep, o) = elim (Bool-cases (p == a)) [
  | inl e ↦ rw (e, without) (Ordered-lower area ((area p).virt_end) low ps (omega arith) o)
  | inr e ↦ rw (e, without) (l, lt, top, sp, ep, Ordered-without area ((area p).virt_end) a ps o)
]

reserved-without :
    (area : ℕ → Area) (a : ℕ) (ps : List ℕ)
    → has a ps ≡ true
    → reserved area ps ≡ (area a).virt_end - (area a).virt_start + reserved area (without a ps)
reserved-without area a [] i = absurd (false≢true i)
reserved-without area a (p ∷ ps) i = elim (Bool-cases (p == a)) [
  | inl e ↦
      rw (e, without)
        (ap (λ z. (area z).virt_end - (area z).virt_start + reserved area ps) (==→eq p a e))
  | inr e ↦ rw (e, without) (omega (arith, reserved-without area a ps (ground arith)))
]

length-without : (a : ℕ) (ps : List ℕ) → has a ps ≡ true → length ps ≡ suc (length (without a ps))
length-without a [] i = absurd (false≢true i)
length-without a (p ∷ ps) i = ground (arith, length-without a ps)

module _ {W : Type 0} (s : Vmm W) (sp a : ℕ) (ps : List ℕ) where
  -- The state after the write that unlinks `a`.
  record Unlinked (link : Option ℕ) : Type 0 where
    chain :
        Chain
          (unlink_area sp a link s).next
          ((unlink_area sp a link s).spaces sp).areas
          (without a ps)
    area : (unlink_area sp a link s).area ≡ s.area
    total : ((unlink_area sp a link s).spaces sp).total_size ≡ (s.spaces sp).total_size
    count : ((unlink_area sp a link s).spaces sp).area_count ≡ (s.spaces sp).area_count

  link-Unlinked :
      (r : Option (Option ℕ))
      → Chain s.next (s.spaces sp).areas ps
      → has a ps ≡ true
      → Found s.next 0 (s.spaces sp).areas a ps r
      → (link : Option ℕ) × (r ≡ some link) × Unlinked link
  link-Unlinked r c i (at_head e _ c') =
      let at = update_self s.spaces sp (record (s.spaces sp) { areas = s.next a }) in
      (
        some 0,
        refl,
        record {
          chain =
              subst (λ h. Chain s.next h (without a ps)) (sym (ap (λ (x : Space). x.areas) at)) c';
          area = refl;
          total = ap (λ (x : Space). x.total_size) at;
          count = ap (λ (x : Space). x.area_count) at;
        },
      )
  link-Unlinked r c i (inside q iq _ c') =
      let nz = ne→== (Chain-nonzero s.next ((s.spaces sp).areas) q ps c iq) in
      (
        some q,
        refl,
        record { chain = rw nz c'; area = rw nz refl; total = rw nz refl; count = rw nz refl },
      )
  link-Unlinked r c i (absent out) = absurd (false≢true (sym out ∙ i))

-- The space has lost the area `a` and kept the others.
pub record Shrunk {W : Type 0} (s : Vmm W) (sp : ℕ) (ps : List ℕ) (a : ℕ) (s' : Vmm W)
    : Type 0 where
  pub valid : IsValid s' sp (without a ps)
  pub area : s'.area ≡ s.area

module _ {W : Type 0} (M : Machine W) (off : ℕ) (s : Vmm W) (sp : ℕ) (ps : List ℕ) where
  abbrev lost : ℕ → ℕ
  lost a = sub64 (s.area a).virt_end (s.area a).virt_start

  -- The space counts the loss of the area `a`.
  abbrev less_space : ℕ → Space
  less_space a = record (s.spaces sp) {
    total_size = sub64 (s.spaces sp).total_size (lost a);
    area_count = sub64 (s.spaces sp).area_count 1;
  }

  -- The state before the link changes.
  abbrev released : ℕ → Vmm W
  released a =
      uncount_region sp (lost a)
        (record s { machine = release_area M ((s.spaces sp).mmu_ctx) (s.area a) s.machine })

  released-Shrunk :
      (a : ℕ) (link : Option ℕ) (w : W)
      → IsValid s sp ps
      → has a ps ≡ true
      → Unlinked (released a) sp a ps link
      → Shrunk s sp ps a
          (count_destroyed (record (unlink_area sp a link (released a)) { machine = w }))
  released-Shrunk a link w v i u =
      let at = update_self s.spaces sp (less_space a) in
      let fewer = length-without a ps i in
      let less = reserved-without s.area a ps i in
      let room = reserved-lt s.area 0 ps v.ordered (omega arith) in
      let few = length-le-reserved s.area 0 ps v.ordered in
      let filled = Ordered-filled s.area 0 ps a v.ordered i in
      let was_count = v.count in
      let was_total = v.total in
      record {
        valid = record {
          chain = u.chain;
          distinct = without-Distinct a ps v.distinct;
          ordered =
              subst (λ f. Ordered f 0 (without a ps)) (sym u.area)
                (Ordered-without s.area 0 a ps v.ordered);
          count =
              u.count
              ∙ ap (λ (y : Space). y.area_count) at
              ∙ omega (arith, was_count, fewer, room, few);
          total =
              u.total
              ∙ ap (λ (y : Space). y.total_size) at
              ∙ omega (arith, was_total, less, room, filled)
              ∙ ap (λ f. reserved f (without a ps)) (sym u.area);
        };
        area = u.area;
      }

  drop_region-eq :
      (fuel a : ℕ) (link : Option ℕ)
      → find_link fuel s.next 0 ((released a).spaces sp).areas a ≡ some link
      → drop_region M off fuel sp a s
        ≡ some (
          pos 0,
          count_destroyed (record (unlink_area sp a link (released a)) {
            machine = M.free_page (virt_to_phys off a) (unlink_area sp a link (released a)).machine;
          }),
        )
  unfolding drop_region remove_area
  drop_region-eq fuel a link eq = rw (eq, ◌>>=◌) refl

  -- An area of a valid space leaves it.
  pub drop_region-Shrunk :
      (fuel a : ℕ)
      → IsValid s sp ps
      → has a ps ≡ true
      → length ps < fuel
      → (s' : Vmm W) × (drop_region M off fuel sp a s ≡ some (pos 0, s')) × Shrunk s sp ps a s'
  drop_region-Shrunk fuel a v i lt =
      let at = update_self s.spaces sp (less_space a) in
      let head = ((released a).spaces sp).areas in
      let c = subst (λ h. Chain s.next h ps) (sym (ap (λ (y : Space). y.areas) at)) v.chain in
      let (link, eq, u) =
        link-Unlinked (released a) sp a ps (find_link fuel s.next 0 head a) c i
          (find_link-Found fuel s.next 0 head a ps c v.distinct lt) in
      let w = M.free_page (virt_to_phys off a) (unlink_area sp a link (released a)).machine in
      (
        count_destroyed (record (unlink_area sp a link (released a)) { machine = w }),
        drop_region-eq fuel a link eq,
        released-Shrunk a link w v i u,
      )

-- What a call of vmm_unmap_region comes to, for the pages from `start` to `end`.
pub data Unmapped {W : Type 0} (s : Vmm W) (sp : ℕ) (ps : List ℕ) (start end : ℕ)
    : ℤ × Vmm W → Type 0 where
  nothing : Apart s.area start end ps → Unmapped s sp ps start end (negsuc 0, s)
  partial :
      (a : ℕ)
      → has a ps ≡ true
      → overlaps start end (s.area a) ≡ true
      → (start ≡ (s.area a).virt_start → end ≢ (s.area a).virt_end)
      → Unmapped s sp ps start end (negsuc 0, s)
  unmapped :
      (a : ℕ) (s' : Vmm W)
      → has a ps ≡ true
      → start ≡ (s.area a).virt_start
      → end ≡ (s.area a).virt_end
      → Shrunk s sp ps a s'
      → Unmapped s sp ps start end (pos 0, s')

-- In a valid space, with fuel for more areas than it has, vmm_unmap_region returns: with 0 where an
-- area has exactly the pages that the range touches, and the space is valid, has lost that area and
-- kept the others; or with -1, and nothing has changed, where the range meets no area, or meets one
-- that has other bounds.
pub unmap_region-Unmapped :
    {W : Type 0} (M : Machine W) (off fuel space virt_addr size : ℕ) (s : Vmm W) (ps : List ℕ)
    → IsValid s (space_of s space) ps
    → length ps < fuel
    → (r : ℤ × Vmm W) × (unmap_region M off fuel space virt_addr size s ≡ some r)
      × Unmapped s (space_of s space) ps (first_page virt_addr) (past_pages virt_addr size) r
unfolding unmap_region
unmap_region-Unmapped M off fuel space virt_addr size s ps v lt =
    let start = first_page virt_addr in
    let end = past_pages virt_addr size in
    let sp = space_of s space in
    let test = λ (a : ℕ). overlaps start end (s.area a) in
    let a = first test ps in
    rw (find_node-first fuel s.next test ((s.spaces sp).areas) ps v.chain lt, ◌>>=◌)
      (elim (first-IsFirst test ps) [
        | inl (i, h) ↦
            let nz = ne→== (Chain-nonzero s.next ((s.spaces sp).areas) a ps v.chain i) in
            rw nz
              (elim (Bool-cases
                ((start == (s.area a).virt_start) && (end == (s.area a).virt_end))) [
                  | inl e ↦
                      let (s', eq, k) = drop_region-Shrunk M off s sp ps fuel a v i lt in
                      ((pos 0, s'), rw e eq, unmapped a s' i (ground arith) (ground arith) k)
                  | inr e ↦ ((negsuc 0, s), rw e refl, partial a i h (λ x y. ground arith))
                ])
        | inr (z, apart) ↦ rw (eq→== z) ((negsuc 0, s), refl, nothing apart)
      ])
