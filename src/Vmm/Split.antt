-- ===== src/Vmm/Split.antt =====
-- Splitting and merging of areas in kernel/mm/vmm.c.
use spinix.Base.{
  ℕ, zero, suc, ◌+◌, ◌||◌, Option, none, some, leb, ◌==◌, if◌then◌else◌, ◌>>=◌, add64, sub64,
}
use spinix.Base.Int.{ℤ, pos, negsuc}
use spinix.Base.Memory.{update}
use spinix.Pmm.{align_down, phys_to_virt, virt_to_phys}
use spinix.Vmm.{phys_mapping, Area, Machine, Vmm, can_merge, space_of, find_area}

-- The upper part of an area that is split at `split_page`.
abbrev pub upper_part : Area → ℕ → Area
upper_part a split_page = record a {
  virt_start = split_page;
  phys_base =
      if a.type == phys_mapping then add64 a.phys_base (sub64 split_page a.virt_start) else 0;
}

module _ {W : Type 0} where
  -- The area `a` ends at `split_page` now, and the area `b` behind it takes the rest.
  abbrev pub split_at : ℕ → ℕ → ℕ → ℕ → Vmm W → Vmm W
  split_at sp a b split_page s =
      let x = s.area a in
      let space = s.spaces sp in
      let st = s.stats in
      record s {
        area =
            update (update s.area b (upper_part x split_page)) a
              (record x { virt_end = split_page });
        next = update (update s.next b (s.next a)) a b;
        spaces = update s.spaces sp (record space { area_count = add64 space.area_count 1 });
        stats = record st { regions_split = add64 st.regions_split 1 };
      }

module _ {W : Type 0} (M : Machine W) where
  unfoldable pub split_region : ℕ → ℕ → ℕ → ℕ → Vmm W → Option (ℤ × Vmm W)
  split_region off fuel space split_addr s =
      let sp = space_of s space in
      let split_page = align_down split_addr in
      let (phys, w) = M.alloc_page s.machine in
      find_area fuel sp split_page s >>= λ a.
      if a == 0
      then some (negsuc 0, s)
      else if (split_page == (s.area a).virt_start) || leb ((s.area a).virt_end) split_page
      then some (negsuc 0, s)
      else if phys == 0
      then some (negsuc 0, record s { machine = w })
      else some (pos 0, split_at sp a (phys_to_virt off phys) split_page (record s { machine = w }))

  -- The area `a` takes over the one behind it, whose structure is freed.
  abbrev pub merge_at : ℕ → ℕ → ℕ → Vmm W → Vmm W
  merge_at off sp a s =
      let b = s.next a in
      let space = s.spaces sp in
      let st = s.stats in
      record s {
        area = update s.area a (record (s.area a) { virt_end = (s.area b).virt_end });
        next = update s.next a (s.next b);
        machine = M.free_page (virt_to_phys off b) s.machine;
        spaces = update s.spaces sp (record space { area_count = sub64 space.area_count 1 });
        stats = record st { regions_merged = add64 st.regions_merged 1 };
      }

  -- The loop from the area `a` on; `count` areas have been merged.
  unfoldable pub merge_loop : ℕ → ℕ → ℕ → ℕ → ℕ → Vmm W → Option (ℕ × Vmm W)
  merge_loop off zero sp a count s = none
  merge_loop off (suc fuel) sp a count s =
      let onward = merge_loop off fuel sp (s.next a) count s in
      let merged = merge_loop off fuel sp a (count + 1) (merge_at off sp a s) in
      if (a == 0) || (s.next a == 0)
      then some (count, s)
      else if can_merge (s.area a) (s.area (s.next a))
      then merged
      else onward

  unfoldable pub merge_regions : ℕ → ℕ → ℕ → Vmm W → Option (ℕ × Vmm W)
  unfolding merge_loop
  merge_regions off fuel space s =
      let sp = space_of s space in merge_loop off fuel sp ((s.spaces sp).areas) 0 s
