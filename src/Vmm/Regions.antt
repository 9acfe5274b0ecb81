-- ===== src/Vmm/Regions.antt =====
-- Spaces and regions of kernel/mm/vmm.c: vmm_init to vmm_free_region. The rounds of a loop over pages
-- are counted.
use spinix.Base.{
  ℕ, zero, suc, ◌+◌, ◌-◌, ◌/◌, ◌&&◌, ◌||◌, not, Bool, true, false, Option, none, some, ◌==◌,
  if◌then◌else◌, ◌>>=◌, has_bit, add64, sub64,
}
use spinix.Base.Int.{ℤ, pos, negsuc, is_zero}
use spinix.Base.Memory.{update}
use spinix.Base.Chain.Search.{find_node}
use spinix.Pmm.{page_size, align_up, align_down, phys_to_virt, virt_to_phys}
use spinix.Vmm.{
  anon, phys_mapping, Area, Space, VmmStats, Machine, Vmm, is_canonical, flags_to_mmu, overlaps,
  set_area, set_space, space_of, find_area, find_free_area, insert_area, remove_area,
}

-- How often `for (v = start; v < end; v += PAGE_SIZE)` runs.
abbrev pub rounds : ℕ → ℕ → ℕ
rounds start end = (end - start + (page_size - 1)) / page_size

abbrev pub no_stats : VmmStats
no_stats = record {
  lazy_allocations = 0;
  eager_allocations = 0;
  page_faults_handled = 0;
  cow_faults_handled = 0;
  protection_faults = 0;
  regions_created = 0;
  regions_destroyed = 0;
  regions_split = 0;
  regions_merged = 0;
}

abbrev pub fresh_space : ℕ → Space
fresh_space ctx = record {
  mmu_ctx = ctx;
  areas = 0;
  total_size = 0;
  mapped_size = 0;
  area_count = 0;
}

-- The bounds of the pages that a range touches.
abbrev pub first_page : ℕ → ℕ
first_page virt_addr = align_down virt_addr

abbrev pub past_pages : ℕ → ℕ → ℕ
past_pages virt_addr size = align_up (add64 virt_addr size)

abbrev pub new_area : ℕ → ℕ → ℕ → ℕ → ℕ → ℕ → Area
new_area start end flags type alloc_flags phys_addr = record {
  virt_start = start;
  virt_end = end;
  flags = flags;
  type = type;
  alloc_flags = alloc_flags;
  phys_base = phys_addr;
}

-- Zeroed as requested, or where no other flag than VMM_ALLOC_ZERO (bit 1) is set.
abbrev pub zeroes : ℕ → Bool
zeroes alloc_flags = has_bit alloc_flags 1 || (alloc_flags == 0)

-- VMM_ALLOC_LAZY and VMM_ALLOC_COW are bits 0 and 2.
abbrev pub is_deferred : ℕ → Bool
is_deferred alloc_flags = has_bit alloc_flags 0 || has_bit alloc_flags 2

-- The pages of a new area are mapped now.
abbrev pub maps_now : Area → Bool
maps_now a = (a.type == phys_mapping) || ((a.type == anon) && not (is_deferred a.alloc_flags))

module _ {W : Type 0} where
  abbrev pub count_destroyed : Vmm W → Vmm W
  count_destroyed s =
      let st = s.stats in
      record s { stats = record st { regions_destroyed = add64 st.regions_destroyed 1 } }

  abbrev pub count_mapped : ℕ → Area → Vmm W → Vmm W
  count_mapped sp a s =
      let size = sub64 a.virt_end a.virt_start in
      let space = s.spaces sp in
      let st = s.stats in
      record s {
        spaces = update s.spaces sp (record space {
          mapped_size = if maps_now a then add64 space.mapped_size size else space.mapped_size;
        });
        stats = record st {
          eager_allocations =
              if maps_now a
              then add64 st.eager_allocations (size / page_size)
              else st.eager_allocations;
        };
      }

  abbrev pub count_region : ℕ → ℕ → Vmm W → Vmm W
  count_region sp size s =
      let space = s.spaces sp in
      let st = s.stats in
      record s {
        spaces = update s.spaces sp (record space {
          total_size = add64 space.total_size size;
          area_count = add64 space.area_count 1;
        });
        stats = record st { regions_created = add64 st.regions_created 1 };
      }

  abbrev pub uncount_region : ℕ → ℕ → Vmm W → Vmm W
  uncount_region sp size s =
      let space = s.spaces sp in
      set_space sp
        (record space {
          total_size = sub64 space.total_size size;
          area_count = sub64 space.area_count 1;
        })
        s

module _ {W : Type 0} (M : Machine W) where
  unfoldable pub init : Vmm W → Vmm W
  init s = record s {
    stats = no_stats;
    spaces = update s.spaces s.kernel (fresh_space (M.kernel_context s.machine));
    initialized = true;
  }

  unfoldable pub create_space : ℕ → Vmm W → ℕ × Vmm W
  create_space off s =
      let (phys, w) = M.alloc_page s.machine in
      let (ctx, w') = M.create_context w in
      if phys == 0
      then (0, record s { machine = w })
      else if ctx == 0
      then (0, record s { machine = M.free_page phys w' })
      else (
        phys_to_virt off phys,
        record (set_space (phys_to_virt off phys) (fresh_space ctx) s) { machine = w' },
      )

  -- The frames of the pages from `virt` on are freed and their mappings removed.
  unfoldable pub drop_pages : ℕ → ℕ → ℕ → W → W
  drop_pages zero ctx virt w = w
  drop_pages (suc n) ctx virt w =
      let phys = M.translate ctx virt w in
      let w1 = if phys == 0 then w else M.free_page phys w in
      let w2 = if M.is_mapped ctx virt w then M.unmap_page ctx virt w1 else w in
      drop_pages n ctx (add64 virt page_size) w2

  abbrev pub drop_area : ℕ → Area → W → W
  drop_area ctx a w =
      if a.type == anon then drop_pages (rounds a.virt_start a.virt_end) ctx a.virt_start w else w

  -- The loop of `vmm_destroy_space`; the link is read before the area is freed.
  unfoldable pub destroy_areas : ℕ → ℕ → ℕ → ℕ → Vmm W → Option (Vmm W)
  destroy_areas off zero ctx a s = none
  destroy_areas off (suc fuel) ctx a s =
      let w = M.free_page (virt_to_phys off a) (drop_area ctx (s.area a) s.machine) in
      let rest =
        destroy_areas off fuel ctx (s.next a) (count_destroyed (record s { machine = w })) in
      if a == 0 then some s else rest

  unfoldable pub destroy_space : ℕ → ℕ → ℕ → Vmm W → Option (Vmm W)
  unfolding destroy_areas
  destroy_space off fuel sp s =
      let ctx = (s.spaces sp).mmu_ctx in
      if (sp == 0) || (sp == s.kernel) then some s else (do
        s1 ← destroy_areas off fuel ctx ((s.spaces sp).areas) s
        some (record s1 {
          machine = M.free_page (virt_to_phys off sp) (M.destroy_context ctx s1.machine);
        }))

  unfoldable pub switch_space : ℕ → Vmm W → Vmm W
  switch_space sp s =
      if sp == 0
      then s
      else record s { machine = M.switch_context ((s.spaces sp).mmu_ctx) s.machine }

  -- The mappings of the pages from `virt` on are removed.
  unfoldable pub unmap_pages : ℕ → ℕ → ℕ → W → W
  unmap_pages zero ctx virt w = w
  unmap_pages (suc n) ctx virt w =
      unmap_pages n ctx (add64 virt page_size) (M.unmap_page ctx virt w)

  -- `n` pages from `virt` on are mapped to the frames from `phys` on; after a failure the pages from
  -- `start` to `virt` are unmapped and the result is false.
  unfoldable pub map_pages : ℕ → ℕ → ℕ → ℕ → ℕ → ℕ → W → Bool × W
  unfolding unmap_pages
  map_pages zero ctx start virt phys flags w = (true, w)
  map_pages (suc n) ctx start virt phys flags w =
      let (r, w1) = M.map_page ctx virt phys flags w in
      let rest = map_pages n ctx start (add64 virt page_size) (add64 phys page_size) flags w1 in
      if is_zero r then rest else (false, unmap_pages (rounds start virt) ctx start w1)

  -- The cleanup of an eager allocation.
  unfoldable pub undo_pages : ℕ → ℕ → ℕ → W → W
  undo_pages zero ctx virt w = w
  undo_pages (suc n) ctx virt w =
      let phys = M.translate ctx virt w in
      let w1 = if phys == 0 then w else M.free_page phys w in
      undo_pages n ctx (add64 virt page_size) (M.unmap_page ctx virt w1)

  -- `n` pages from `virt` on are allocated and mapped.
  unfoldable pub eager_pages : ℕ → ℕ → ℕ → ℕ → ℕ → ℕ → W → Bool × W
  unfolding undo_pages
  eager_pages zero ctx start virt flags alloc_flags w = (true, w)
  eager_pages (suc n) ctx start virt flags alloc_flags w =
      let (phys, w1) = M.alloc_page w in
      let w2 = if zeroes alloc_flags then M.clear_page phys w1 else w1 in
      let (r, w3) = M.map_page ctx virt phys flags w2 in
      let rest = eager_pages n ctx start (add64 virt page_size) flags alloc_flags w3 in
      if phys == 0
      then (false, undo_pages (rounds start virt) ctx start w1)
      else if is_zero r
      then rest
      else (false, undo_pages (rounds start virt) ctx start (M.free_page phys w3))

  abbrev pub fill_area : ℕ → Area → W → Bool × W
  fill_area ctx a w =
      let n = rounds a.virt_start a.virt_end in
      let flags = flags_to_mmu a.flags in
      if a.type == phys_mapping
      then map_pages n ctx a.virt_start a.virt_start a.phys_base flags w
      else if (a.type == anon) && not (is_deferred a.alloc_flags)
      then eager_pages n ctx a.virt_start a.virt_start flags a.alloc_flags w
      else (true, w)

  -- The new area's pages are mapped and the area is inserted; `phys` is the frame of its structure.
  unfoldable pub add_area : ℕ → ℕ → ℕ → ℕ → Area → Vmm W → Option (ℤ × Vmm W)
  unfolding map_pages eager_pages
  add_area off fuel sp phys x s =
      let a = phys_to_virt off phys in
      let s1 = set_area a x s in
      let (ok, w) = fill_area ((s.spaces sp).mmu_ctx) x s.machine in
      let s2 = record s1 { machine = w; next = update s.next a 0 } in
      if ok
      then (do
        s3 ← insert_area fuel sp a (count_mapped sp x s2)
        some (pos 0, count_region sp (sub64 x.virt_end x.virt_start) s3))
      else some (negsuc 0, record s2 { machine = M.free_page phys w })

  -- `vmm_map_region`, and the internal function behind it.
  unfoldable pub map_region : ℕ → ℕ → ℕ → ℕ → ℕ → ℕ → ℕ → ℕ → ℕ → Vmm W → Option (ℤ × Vmm W)
  unfolding add_area
  map_region off fuel space virt_addr size flags type alloc_flags phys_addr s =
      let sp = space_of s space in
      let start = first_page virt_addr in
      let end = past_pages virt_addr size in
      let (phys, w) = M.alloc_page s.machine in
      let x = new_area start end flags type alloc_flags phys_addr in
      if not (is_canonical virt_addr) || (sub64 end start == 0)
      then some (negsuc 0, s)
      else (find_node fuel s.next (λ a. overlaps start end (s.area a)) ((s.spaces sp).areas)
          >>= λ a.
              if not (a == 0)
              then some (negsuc 0, s)
              else if phys == 0
              then some (negsuc 0, record s { machine = w })
              else add_area off fuel sp phys x (record s { machine = w }))

  -- The frames of the mapped pages from `virt` on are freed.
  unfoldable pub free_frames : ℕ → ℕ → ℕ → W → W
  free_frames zero ctx virt w = w
  free_frames (suc n) ctx virt w =
      let phys = M.translate ctx virt w in
      let w1 = if M.is_mapped ctx virt w && not (phys == 0) then M.free_page phys w else w in
      free_frames n ctx (add64 virt page_size) w1

  abbrev pub release_area : ℕ → Area → W → W
  release_area ctx a w =
      let w1 =
        if a.type == anon
        then free_frames (rounds a.virt_start a.virt_end) ctx a.virt_start w
        else w in
      M.unmap_range ctx a.virt_start (sub64 a.virt_end a.virt_start) w1

  -- The area leaves the space.
  unfoldable pub drop_region : ℕ → ℕ → ℕ → ℕ → Vmm W → Option (ℤ × Vmm W)
  unfolding free_frames
  drop_region off fuel sp a s = do
    let x = s.area a
    let w = release_area ((s.spaces sp).mmu_ctx) x s.machine
    let s1 = uncount_region sp (sub64 x.virt_end x.virt_start) (record s { machine = w })
    s2 ← remove_area M off fuel sp a s1
    some (pos 0, count_destroyed s2)

  -- `vmm_unmap_region`, and the internal function behind it.
  unfoldable pub unmap_region : ℕ → ℕ → ℕ → ℕ → ℕ → Vmm W → Option (ℤ × Vmm W)
  unfolding drop_region
  unmap_region off fuel space virt_addr size s =
      let sp = space_of s space in
      let start = first_page virt_addr in
      let end = past_pages virt_addr size in
      find_node fuel s.next (λ a. overlaps start end (s.area a)) ((s.spaces sp).areas) >>= λ a.
      if a == 0
      then some (negsuc 0, s)
      else if (start == (s.area a).virt_start) && (end == (s.area a).virt_end)
      then drop_region off fuel sp a s
      else some (negsuc 0, s)

  -- 0 where there is no room.
  unfoldable pub alloc_region : ℕ → ℕ → ℕ → ℕ → ℕ → ℕ → Vmm W → Option (ℕ × Vmm W)
  unfolding map_region find_free_area
  alloc_region off fuel space size flags alloc_flags s =
      let sp = space_of s space in
      find_free_area fuel sp size (has_bit flags 3) s >>= λ virt_addr.
      if virt_addr == 0 then some (0, s) else (do
        r ← map_region off fuel sp virt_addr size flags anon alloc_flags 0 s
        some (if is_zero (r.0) then (virt_addr, r.1) else (0, r.1)))

  unfoldable pub free_region : ℕ → ℕ → ℕ → ℕ → Vmm W → Option (ℤ × Vmm W)
  unfolding unmap_region find_area
  free_region off fuel space virt_addr s =
      let sp = space_of s space in
      find_area fuel sp virt_addr s >>= λ a.
      if (a == 0) || not ((s.area a).virt_start == virt_addr)
      then some (negsuc 0, s)
      else unmap_region off fuel sp virt_addr (sub64 ((s.area a).virt_end) ((s.area a).virt_start))
          s
