-- ===== src/Vmm/Faults.antt =====
-- Page faults, protection and copy on write of kernel/mm/vmm.c.
use spinix.Base.{
  ℕ, ◌&&◌, ◌||◌, not, Bool, Option, some, ltb, ◌==◌, if◌then◌else◌, ◌>>=◌, has_bit, add64, sub64,
}
use spinix.Base.Int.{ℤ, pos, negsuc, is_zero}
use spinix.Pmm.{page_size, align_down}
use spinix.Vmm.{anon, Area, Machine, Vmm, flags_to_mmu, set_area, set_space, space_of, find_area}
use spinix.Vmm.Regions.{first_page, past_pages}

-- A page of an anonymous area that is mapped when it is first used (VMM_ALLOC_LAZY is bit 0).
abbrev pub is_lazy : Area → Bool
is_lazy a = (a.type == anon) && has_bit a.alloc_flags 0

module _ {W : Type 0} where
  -- A counted outcome of a page fault.
  abbrev pub count_cow : Vmm W → Vmm W
  count_cow s =
      let st = s.stats in
      record s {
        stats = record st {
          cow_faults_handled = add64 st.cow_faults_handled 1;
          page_faults_handled = add64 st.page_faults_handled 1;
        };
      }

  abbrev pub count_protection : Vmm W → Vmm W
  count_protection s =
      let st = s.stats in
      record s { stats = record st { protection_faults = add64 st.protection_faults 1 } }

  abbrev pub count_lazy : ℕ → Vmm W → Vmm W
  count_lazy sp s =
      let st = s.stats in
      let space = s.spaces sp in
      record (set_space sp (record space { mapped_size = add64 space.mapped_size page_size }) s) {
        stats = record st {
          lazy_allocations = add64 st.lazy_allocations 1;
          page_faults_handled = add64 st.page_faults_handled 1;
        };
      }

module _ {W : Type 0} (M : Machine W) where
  -- A write to a page that is copied on write.
  unfoldable pub break_page : ℕ → ℕ → Vmm W → ℤ × Vmm W
  break_page ctx page s =
      let (r, w) = M.break_cow ctx page s.machine in
      let s1 = record s { machine = w } in
      if is_zero r then (pos 0, count_cow s1) else (negsuc 0, s1)

  -- The page is allocated, cleared and mapped now.
  unfoldable pub lazy_page : ℕ → ℕ → Area → Vmm W → ℤ × Vmm W
  lazy_page sp page a s =
      let ctx = (s.spaces sp).mmu_ctx in
      let (phys, w) = M.alloc_page s.machine in
      let (r, w') = M.map_page ctx page phys (flags_to_mmu a.flags) (M.clear_page phys w) in
      if phys == 0
      then (negsuc 0, record s { machine = w })
      else if is_zero r
      then (pos 0, count_lazy sp (record s { machine = w' }))
      else (negsuc 0, record s { machine = M.free_page phys w' })

  -- The last part of `vmm_handle_page_fault`.
  unfoldable pub settle : ℕ → ℕ → ℕ → Area → Vmm W → ℤ × Vmm W
  unfolding lazy_page
  settle sp page error_code a s =
      let mapped = M.is_mapped ((s.spaces sp).mmu_ctx) page s.machine in
      if not mapped && is_lazy a
      then lazy_page sp page a s
      else if has_bit error_code 0 || mapped
      then (negsuc 0, count_protection s)
      else (negsuc 0, s)

  -- The fault of a page in the area `a`: VMM_FAULT_PRESENT and VMM_FAULT_WRITE are bits 0 and 1 of
  -- the error code, VMM_WRITE is bit 1 of the area's flags.
  unfoldable pub fault_in : ℕ → ℕ → ℕ → Area → Vmm W → ℤ × Vmm W
  unfolding settle break_page
  fault_in sp page error_code a s =
      let ctx = (s.spaces sp).mmu_ctx in
      if has_bit error_code 0 && has_bit error_code 1 && M.is_mapped ctx page s.machine
      then (if M.is_cow_page ctx page s.machine
          then break_page ctx page s
          else if not (has_bit a.flags 1)
          then (negsuc 0, count_protection s)
          else settle sp page error_code a s)
      else settle sp page error_code a s

  unfoldable pub handle_page_fault : ℕ → ℕ → ℕ → ℕ → Vmm W → Option (ℤ × Vmm W)
  unfolding fault_in
  handle_page_fault fuel space virt_addr error_code s =
      let sp = space_of s space in
      find_area fuel sp virt_addr s >>= λ a.
      if a == 0
      then some (negsuc 0, s)
      else some (fault_in sp (align_down virt_addr) error_code (s.area a) s)

  -- The page tables follow the new flags of an area.
  abbrev pub change_flags : ℕ → ℕ → ℕ → ℕ → Vmm W → ℤ × Vmm W
  change_flags ctx start end flags s =
      let (r, w) =
        M.change_flags_range ctx start (sub64 end start) (flags_to_mmu flags) s.machine in
      (if is_zero r then pos 0 else negsuc 0, record s { machine = w })

  unfoldable pub protect_region : ℕ → ℕ → ℕ → ℕ → ℕ → Vmm W → Option (ℤ × Vmm W)
  protect_region fuel space virt_addr size new_flags s =
      let sp = space_of s space in
      let start = first_page virt_addr in
      let end = past_pages virt_addr size in
      find_area fuel sp start s >>= λ a.
      if a == 0
      then some (negsuc 0, s)
      else if ltb start ((s.area a).virt_start) || ltb ((s.area a).virt_end) end
      then some (negsuc 0, s)
      else some (
          change_flags ((s.spaces sp).mmu_ctx) start end new_flags
            (set_area a (record (s.area a) { flags = new_flags }) s))

  unfoldable pub mark_cow_region : ℕ → ℕ → ℕ → ℕ → Vmm W → Option (ℤ × Vmm W)
  mark_cow_region fuel space virt_addr size s =
      let sp = space_of s space in
      let start = first_page virt_addr in
      let end = past_pages virt_addr size in
      find_area fuel sp start s >>= λ a.
      let (r, w) = M.mark_cow ((s.spaces sp).mmu_ctx) start (sub64 end start) s.machine in
      if (a == 0) || ltb ((s.area a).virt_end) end
      then some (negsuc 0, s)
      else some (if is_zero r then pos 0 else negsuc 0, record s { machine = w })

  unfoldable pub is_mapped : ℕ → ℕ → Vmm W → Bool
  is_mapped space virt_addr s =
      M.is_mapped ((s.spaces (space_of s space)).mmu_ctx) virt_addr s.machine
