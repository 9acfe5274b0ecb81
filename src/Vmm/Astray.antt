-- ===== src/Vmm/Astray.antt =====
-- Calls of kernel/mm/vmm.c that go astray: a change of protection that takes the whole area, and a
-- region whose end wraps round to 0.
use spinix.Base.{
  ℕ, ◌+◌, ◌≤◌, ◌<◌, ◌≡◌, refl, sym, ap, ◌∙◌, ◌≢◌, inl, inr, ◌||◌, true, false, not, Bool-cases,
  some, List, [], ◌∷◌, arith, has, length, ltb, ◌==◌, ne→==, ==→eq, ◌>>=◌, has_bit, u64_mod, sub64,
}
use mathlib.Core.Path.{subst}
use mathlib.Core.Bool.{false≢true}
use spinix.Base.Int.{ℤ, pos}
use spinix.Base.Memory.{update, update_self, update-field}
use spinix.Base.Chain.{Chain-nonzero}
use spinix.Base.Chain.Search.{first, first-IsFirst, find_node-first}
use spinix.Pmm.{page_size, phys_to_virt}
use spinix.Vmm.{anon, Area, Machine, Vmm, is_canonical, contains, overlaps, space_of, set_area}
use spinix.Vmm.Regions.{first_page, past_pages, new_area, count_region, add_area, map_region}
use spinix.Vmm.Faults.{change_flags, protect_region}
use spinix.Vmm.Areas.{Ordered, contains-low, IsValid, IsValid-keep, find_area_lem, space_of_twice}
use spinix.Vmm.Insert.{insert_area-returns}
use spinix.Vmm.Map.{Provides, Spare, fills, readied, readied-IsValid}
use spinix.Vmm.Halves.{mapping, mapping_at}

-- A listed area that holds the address says how it is mapped.
mapping_at-contains :
    (area : ℕ → Area) (low : ℕ) (ps : List ℕ) (a v : ℕ)
    → Ordered area low ps
    → has a ps ≡ true
    → contains (area a) v ≡ true
    → mapping_at area ps v ≡ some (mapping (area a) v)
mapping_at-contains area low [] a v o i h = absurd (false≢true i)
mapping_at-contains area low (p ∷ ps) a v (l, lt, top, sa, ea, o) i h = elim (Bool-cases (p == a)) [
  | inl e ↦
      subst (λ z. mapping_at area (z ∷ ps) v ≡ some (mapping (area a) v)) (sym (==→eq p a e))
        (rw h refl)
  | inr e ↦
      let later = contains-low area ((area p).virt_end) ps a v o (ground arith) h in
      let miss : contains (area p) v ≡ false = ground arith in
      rw miss (mapping_at-contains area ((area p).virt_end) ps a v o (ground arith) h)
]

reflagged-Ordered :
    (area : ℕ → Area) (low a flags : ℕ) (ps : List ℕ)
    → Ordered area low ps
    → Ordered (update area a (record (area a) { flags = flags })) low ps
reflagged-Ordered area low a flags [] o = tt
reflagged-Ordered area low a flags (p ∷ ps) (l, lt, top, sa, ea, o) =
    let rest = reflagged-Ordered area ((area p).virt_end) a flags ps o in
    let x = record (area a) { flags = flags } in
    let start = update-field (λ (y : Area). y.virt_start) area a x p refl in
    let end = update-field (λ (y : Area). y.virt_end) area a x p refl in
    rw (start, end) (l, lt, top, sa, ea, rest)

-- In a valid space, for a range whose pages lie in an area, and with fuel for more areas than the
-- space has, vmm_protect_region gives the new flags to every address of that area, those outside
-- the range included, whether it returns 0 or -1.
pub protect_region-whole :
    {W : Type 0} (M : Machine W) (fuel space virt_addr size new_flags : ℕ) (s : Vmm W) (ps : List ℕ)
    (a : ℕ)
    → IsValid s (space_of s space) ps
    → length ps < fuel
    → has a ps ≡ true
    → contains (s.area a) (first_page virt_addr) ≡ true
    → past_pages virt_addr size ≤ (s.area a).virt_end
    → (r : ℤ × Vmm W) × (protect_region M fuel space virt_addr size new_flags s ≡ some r)
      × ((v : ℕ)
          → contains (s.area a) v ≡ true
          → mapping_at r.1.area ps v ≡ some (mapping (record (s.area a) { flags = new_flags }) v))
unfolding protect_region
protect_region-whole M fuel space virt_addr size new_flags s ps a v lt i h end =
    let sp = space_of s space in
    let start = first_page virt_addr in
    let (b, found, finds) =
      find_area_lem s fuel sp start ps
        (subst (λ z. IsValid s z ps) (sym (space_of_twice s space)) v) lt in
    let x = record (s.area a) { flags = new_flags } in
    let own = update_self s.area a x in
    elim finds [
      | inr (z, apart) ↦ absurd (false≢true (sym (apart a i) ∙ h))
      | inl (ib, hb, unique) ↦
          let here = found ∙ ap some (sym (unique a i h)) in
          let nz = ne→== (Chain-nonzero s.next ((s.spaces sp).areas) a ps v.chain i) in
          let inside : (ltb start ((s.area a).virt_start)
                || ltb ((s.area a).virt_end) (past_pages virt_addr size))
              ≡ false =
            ground arith in
          (
            change_flags M ((s.spaces sp).mmu_ctx) start (past_pages virt_addr size) new_flags
                (set_area a x s),
            rw (here, ◌>>=◌) (rw (nz, inside) refl),
            λ w hw.
                mapping_at-contains (update s.area a x) 0 ps a w
                  (reflagged-Ordered s.area 0 a new_flags ps v.ordered) i (rw own hw)
                ∙ ap (λ y. some (mapping y w)) own,
          )
    ]

-- A lazy region is added whatever its bounds.
add_area-lazy :
    {W : Type 0} (M : Machine W) (off fuel sp phys : ℕ) (x : Area) (s : Vmm W) (ps : List ℕ)
    → IsValid s sp ps
    → Spare s sp ps (phys_to_virt off phys)
    → (x.type == anon) ≡ true
    → has_bit x.alloc_flags 0 ≡ true
    → length ps < fuel
    → (s' : Vmm W) × (add_area M off fuel sp phys x s ≡ some (pos 0, s'))
      × (s'.area (phys_to_virt off phys) ≡ x)
unfolding add_area
add_area-lazy M off fuel sp phys x s ps v (nt, out) type lazy lt =
    let t = phys_to_virt off phys in
    let s1 = readied M off s sp ps t x in
    let v1 = readied-IsValid M off s sp ps t x v out in
    let done : (fills M off s sp ps x).0 ≡ true = ground arith in
    let (s2, eq, same) = insert_area-returns s1 sp t ps fuel v1.chain v.distinct nt out lt in
    (
      count_region sp (sub64 x.virt_end x.virt_start) s2,
      rw done (rw (eq, ◌>>=◌) refl),
      ap (λ (f : ℕ → Area). f t) same ∙ update_self s.area t x,
    )

module _ {W : Type 0} (M : Machine W) (off : ℕ) (s : Vmm W) (space : ℕ) (ps : List ℕ) where
  -- In a valid space, with a spare structure for the area, memory for it, and fuel for more areas
  -- than the space has: for a canonical address behind the first page, a size with which the range
  -- reaches into the last page below 2 ^ 64, and a lazy anonymous region, vmm_map_region returns 0
  -- whatever areas the range overlaps, and the new area ends at 0, before its start.
  pub map_region-wraps :
      (fuel virt_addr size flags alloc_flags : ℕ)
      → IsValid s (space_of s space) ps
      → Provides M off s (space_of s space) ps
      → (M.alloc_page s.machine).0 ≢ 0
      → length ps < fuel
      → is_canonical virt_addr ≡ true
      → page_size ≤ virt_addr
      → u64_mod < virt_addr + size + page_size
      → virt_addr + size < u64_mod
      → has_bit alloc_flags 0 ≡ true
      → (s' : Vmm W) × (map_region M off fuel space virt_addr size flags anon alloc_flags 0 s
          ≡ some (pos 0, s'))
        × ((s'.area (phys_to_virt off (M.alloc_page s.machine).0)).virt_end ≡ 0)
        × (0 < (s'.area (phys_to_virt off (M.alloc_page s.machine).0)).virt_start)
  unfolding map_region
  map_region-wraps fuel virt_addr size flags alloc_flags v spare nz lt can low wraps small lazy =
      let start = first_page virt_addr in
      let end = past_pages virt_addr size in
      let past : end ≡ 0 = omega arith in
      let sp = space_of s space in
      let phys = (M.alloc_page s.machine).0 in
      let x = new_area start end flags anon alloc_flags 0 in
      let test = λ (a : ℕ). overlaps start end (s.area a) in
      let test_false : (a : ℕ) → test a ≡ false = (λ a. ground arith) in
      let given = record s { machine = (M.alloc_page s.machine).1 } in
      let v' = IsValid-keep s given sp ps (λ q i. refl) (λ q i. refl) refl refl refl v in
      let (s', eq, own) = add_area-lazy M off fuel sp phys x given ps v' (spare nz) refl lazy lt in
      let suitable : (not (is_canonical virt_addr) || (sub64 end start == 0)) ≡ false =
        ground arith in
      let missed : first test ps ≡ 0 = elim (first-IsFirst test ps) [
        | inl (i, h) ↦ absurd (false≢true (sym (test_false (first test ps)) ∙ h))
        | inr (z, apart) ↦ z
      ] in
      let found =
        find_node-first fuel s.next test ((s.spaces sp).areas) ps v.chain lt ∙ ap some missed in
      (
        s',
        rw suitable (rw (found, ◌>>=◌) (rw (ne→== nz) eq)),
        ap (λ (y : Area). y.virt_end) own ∙ past,
        subst (λ (y : Area). 0 < y.virt_start) (sym own) (omega arith),
      )
