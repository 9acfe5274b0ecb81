-- ===== src/Vmm/Fork.antt =====
-- `vmm_fork_space` of kernel/mm/vmm.c.
use spinix.Base.{
  ℕ, zero, suc, Bool, true, false, Option, none, some, ◌==◌, if◌then◌else◌, ◌>>=◌, add64, sub64,
}
use spinix.Base.Int.{is_zero}
use spinix.Base.Memory.{update}
use spinix.Pmm.{page_size, phys_to_virt}
use spinix.Vmm.{anon, phys_mapping, Area, Machine, Vmm, flags_to_mmu, set_space, insert_area}
use spinix.Vmm.Regions.{rounds, create_space, destroy_space}

module _ {W : Type 0} where
  abbrev pub count_copy : ℕ → Area → Vmm W → Vmm W
  count_copy sp a s =
      let space = s.spaces sp in
      set_space sp
        (record space {
          total_size = add64 space.total_size (sub64 a.virt_end a.virt_start);
          area_count = add64 space.area_count 1;
        })
        s

module _ {W : Type 0} (M : Machine W) where
  -- The frames from `phys` on are mapped too; the results of the calls are not looked at.
  unfoldable pub share_pages : ℕ → ℕ → ℕ → ℕ → ℕ → W → W
  share_pages zero ctx virt phys flags w = w
  share_pages (suc n) ctx virt phys flags w =
      share_pages n ctx (add64 virt page_size) (add64 phys page_size) flags
        ((M.map_page ctx virt phys flags w).1)

  -- The pages of an area for the child; false where the copy fails.
  abbrev pub copy_pages : ℕ → ℕ → Area → W → Bool × W
  copy_pages to from a w =
      let (r, w1) = M.copy_range to from a.virt_start (sub64 a.virt_end a.virt_start) w in
      if a.type == anon
      then (is_zero r, w1)
      else if a.type == phys_mapping
      then (
        true,
        share_pages (rounds a.virt_start a.virt_end) to a.virt_start a.phys_base
            (flags_to_mmu a.flags) w,
      )
      else (true, w)

  -- The parent's area `p` is copied to the structure at `c` and inserted; false where the copy of
  -- its pages fails.
  unfoldable pub copy_area : ℕ → ℕ → ℕ → ℕ → ℕ → Vmm W → Option (Bool × Vmm W)
  unfolding share_pages
  copy_area fuel child parent p c s =
      let s1 = record s { area = update s.area c (s.area p); next = update s.next c 0 } in
      insert_area fuel child c s1 >>= λ s2.
      let (ok, w) =
        copy_pages ((s2.spaces child).mmu_ctx) ((s2.spaces parent).mmu_ctx) (s.area p) s2.machine in
      let s3 = record s2 { machine = w } in
      some (if ok then (true, count_copy child (s.area p) s3) else (false, s3))

  -- The loop from the parent's area `p` on; false where it breaks off.
  unfoldable pub copy_areas : ℕ → ℕ → ℕ → ℕ → ℕ → Vmm W → Option (Bool × Vmm W)
  unfolding copy_area
  copy_areas off zero child parent p s = none
  copy_areas off (suc fuel) child parent p s =
      let (phys, w) = M.alloc_page s.machine in
      let s1 = record s { machine = w } in
      let body = copy_area fuel child parent p (phys_to_virt off phys) s1 in
      let rest = body >>= λ r.
      let more = copy_areas off fuel child parent ((r.1).next p) (r.1) in
      if r.0 then more else some (false, r.1) in
      if p == 0 then some (true, s) else if phys == 0 then some (false, s1) else rest

  unfoldable pub fork_space : ℕ → ℕ → ℕ → Vmm W → Option (ℕ × Vmm W)
  unfolding copy_areas create_space destroy_space
  fork_space off fuel parent s =
      let (child, s1) = create_space M off s in
      if parent == 0
      then some (0, s)
      else if child == 0
      then some (0, s1)
      else (copy_areas off fuel child parent ((s1.spaces parent).areas) s1 >>= λ r.
          if r.0
          then some (child, r.1)
          else (do s2 ← destroy_space M off fuel child (r.1); some (0, s2)))
