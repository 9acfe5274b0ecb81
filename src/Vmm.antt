-- ===== src/Vmm.antt =====
-- kernel/mm/vmm.c and include/mm/vmm.h: the areas of an address space. An area is the address of
-- its `vm_area_t`, a space that of its `vm_space_t`; NULL is 0. The links `next` are a function of
-- the address of the area. `vmm_lock` is held round each operation, so an operation is one step.
-- What the file calls of kernel/mm/pmm.c and kernel/mm/mmu.c is the record `Machine`, over the state
-- `W` of the frames and the page tables. `off` is `hhdm_offset`.
pub mod Regions
pub mod Faults
pub mod Split
pub mod Fork
pub mod Areas
pub mod Insert
pub mod Shortage
pub mod Gaps
pub mod Map
pub mod Alloc
pub mod Unmap
pub mod Halves
pub mod Joined
pub mod Guards
pub mod Astray
pub mod Resolve
pub mod Copies
mod Tests
use Prim.Native.Nat.{bit_and}
use spinix.Base.{
  ℕ, zero, suc, ◌+◌, ◌-◌, ◌/◌, ◌<◌, ◌&&◌, ◌||◌, not, Bool, true, false, Option, none, some, ltb,
  leb, ◌==◌, if◌then◌else◌, ◌>>=◌, has_bit, add64, sub64,
}
use spinix.Base.Int.{ℤ, pos, negsuc}
use spinix.Base.Memory.{update}
use spinix.Base.Chain.{find_link}
use spinix.Base.Chain.Search.{find_node}
use spinix.Pmm.{page_size, align_up, align_down, virt_to_phys}

abbrev pub anon : ℕ
anon = 0

abbrev pub phys_mapping : ℕ
phys_mapping = 1

-- `vm_area_t` without its link.
pub record Area : Type 0 where
  pub virt_start : ℕ
  pub virt_end : ℕ
  pub flags : ℕ
  pub type : ℕ
  pub alloc_flags : ℕ
  pub phys_base : ℕ

-- `vm_space_t`
pub record Space : Type 0 where
  pub mmu_ctx : ℕ
  pub areas : ℕ
  pub total_size : ℕ
  pub mapped_size : ℕ
  pub area_count : ℕ

-- `vmm_stats`
pub record VmmStats : Type 0 where
  pub lazy_allocations : ℕ
  pub eager_allocations : ℕ
  pub page_faults_handled : ℕ
  pub cow_faults_handled : ℕ
  pub protection_faults : ℕ
  pub regions_created : ℕ
  pub regions_destroyed : ℕ
  pub regions_split : ℕ
  pub regions_merged : ℕ

-- The frames and the page tables. A context is the address of its `mmu_context_t`; `clear_page` is
-- `memset(PHYS_TO_VIRT(phys), 0, PAGE_SIZE)`.
pub record Machine (W : Type 0) : Type 0 where
  pub alloc_page : W → ℕ × W
  pub free_page : ℕ → W → W
  pub clear_page : ℕ → W → W
  pub map_page : ℕ → ℕ → ℕ → ℕ → W → ℤ × W
  pub unmap_page : ℕ → ℕ → W → W
  pub unmap_range : ℕ → ℕ → ℕ → W → W
  pub translate : ℕ → ℕ → W → ℕ
  pub is_mapped : ℕ → ℕ → W → Bool
  pub is_cow_page : ℕ → ℕ → W → Bool
  pub break_cow : ℕ → ℕ → W → ℤ × W
  pub mark_cow : ℕ → ℕ → ℕ → W → ℤ × W
  pub change_flags_range : ℕ → ℕ → ℕ → ℕ → W → ℤ × W
  pub copy_range : ℕ → ℕ → ℕ → ℕ → W → ℤ × W
  pub create_context : W → ℕ × W
  pub destroy_context : ℕ → W → W
  pub switch_context : ℕ → W → W
  pub kernel_context : W → ℕ

-- The static variables, with `kernel` for the address of `kernel_space`, and the structures.
pub record Vmm (W : Type 0) : Type 0 where
  pub area : ℕ → Area
  pub next : ℕ → ℕ
  pub spaces : ℕ → Space
  pub kernel : ℕ
  pub initialized : Bool
  pub stats : VmmStats
  pub machine : W

-- CANONICAL_USER_MAX and CANONICAL_KERNEL_MIN
abbrev pub user_max : ℕ
user_max = 0x00007FFFFFFFFFFF

abbrev pub kernel_min : ℕ
kernel_min = 0xFFFF800000000000

unfoldable pub is_canonical : ℕ → Bool
is_canonical addr = leb addr user_max || leb kernel_min addr

-- The bounds of the search for a free area, of a user and of the kernel.
abbrev pub search_start : Bool → ℕ
search_start user = if user then 0x1000 else 0xFFFF900000000000

abbrev pub search_end : Bool → ℕ
search_end user = if user then 0x00007FFFFFFFF000 else 0xFFFFFFFF80000000

-- The value of `vmm_flags_to_mmu`: VMM_WRITE, VMM_USER, VMM_NOCACHE and VMM_EXEC are bits 1, 3, 4
-- and 2, MMU_MAP_WRITE, MMU_MAP_USER, MMU_MAP_NOCACHE and MMU_MAP_EXEC are bits 1, 2, 4 and 3.
unfoldable pub flags_to_mmu : ℕ → ℕ
flags_to_mmu flags =
    (if has_bit flags 1 then 2 else 0)
    + (if has_bit flags 3 then 4 else 0)
    + (if has_bit flags 4 then 16 else 0)
    + (if has_bit flags 2 then 0 else 8)

-- `virt_addr` lies in the area.
abbrev pub contains : Area → ℕ → Bool
contains a virt_addr = leb a.virt_start virt_addr && ltb virt_addr a.virt_end

-- The area and the range from `virt_start` to `virt_end` overlap.
abbrev pub overlaps : ℕ → ℕ → Area → Bool
overlaps virt_start virt_end a = not (leb virt_end a.virt_start || leb a.virt_end virt_start)

-- `vmm_can_merge_areas` of two areas.
unfoldable pub can_merge : Area → Area → Bool
can_merge a b =
    if not (a.virt_end == b.virt_start)
    then false
    else if not (a.flags == b.flags)
        || not (a.type == b.type)
        || not (a.alloc_flags == b.alloc_flags)
    then false
    else if a.type == phys_mapping
    then add64 a.phys_base (sub64 a.virt_end a.virt_start) == b.phys_base
    else true

-- The gaps behind the area `a`, to the last area.
unfoldable pub gap_loop : ℕ → (ℕ → Area) → (ℕ → ℕ) → ℕ → ℕ → ℕ → Option ℕ
gap_loop zero area next limit size a = none
gap_loop (suc fuel) area next limit size a =
    let b = next a in
    let rest = gap_loop fuel area next limit size b in
    if b == 0
    then some (if leb size (sub64 limit ((area a).virt_end)) then (area a).virt_end else 0)
    else if leb size (sub64 ((area b).virt_start) ((area a).virt_end))
    then some ((area a).virt_end)
    else rest

-- The walk of `vmm_insert_area` from the area `prev` on.
unfoldable pub insert_loop : ℕ → (ℕ → Area) → (ℕ → ℕ) → ℕ → ℕ → Option ℕ
insert_loop zero area next start prev = none
insert_loop (suc fuel) area next start prev =
    let b = next prev in
    let rest = insert_loop fuel area next start b in
    if not (b == 0) && ltb ((area b).virt_start) start then rest else some prev

-- What `vmm_validate_range` asks of the area that it has found.
abbrev pub range_ok : Area → ℕ → ℕ → ℕ → Bool
range_ok a virt_addr size required =
    leb (add64 virt_addr size) a.virt_end && (bit_and a.flags required == required)

module _ {W : Type 0} where
  abbrev pub set_area : ℕ → Area → Vmm W → Vmm W
  set_area a x s = record s { area = update s.area a x }

  abbrev pub set_space : ℕ → Space → Vmm W → Vmm W
  set_space sp x s = record s { spaces = update s.spaces sp x }

  -- `space`, or the kernel's where it is NULL.
  abbrev pub space_of : Vmm W → ℕ → ℕ
  space_of s sp = if sp == 0 then s.kernel else sp

  -- NULL where the result is 0.
  unfoldable pub find_area : ℕ → ℕ → ℕ → Vmm W → Option ℕ
  find_area fuel sp virt_addr s =
      find_node fuel s.next (λ a. contains (s.area a) virt_addr) ((s.spaces (space_of s sp)).areas)

  unfoldable pub validate_range : ℕ → ℕ → ℕ → ℕ → ℕ → Vmm W → Option ℤ
  unfolding is_canonical
  validate_range fuel sp virt_addr size required s =
      if not (is_canonical virt_addr) || not (is_canonical (sub64 (add64 virt_addr size) 1))
      then some (negsuc 0)
      else find_area fuel sp virt_addr s >>= λ a.
          if a == 0
          then some (negsuc 0)
          else some (if range_ok (s.area a) virt_addr size required then pos 0 else negsuc 0)

  -- 0 where no gap is large enough.
  unfoldable pub find_free_area : ℕ → ℕ → ℕ → Bool → Vmm W → Option ℕ
  find_free_area fuel sp size user s =
      let aligned = align_up size in
      let a = (s.spaces sp).areas in
      if a == 0
      then some (search_start user)
      else if leb (add64 (search_start user) aligned) ((s.area a).virt_start)
      then some (search_start user)
      else gap_loop fuel s.area s.next (search_end user) aligned a

  -- The new area goes to the front, or behind the area `prev`.
  abbrev pub insert_front : ℕ → ℕ → Vmm W → Vmm W
  insert_front sp a s =
      let space = s.spaces sp in
      set_space sp (record space { areas = a }) (record s { next = update s.next a space.areas })

  abbrev pub insert_behind : ℕ → ℕ → Vmm W → Vmm W
  insert_behind prev a s = record s { next = update (update s.next a (s.next prev)) prev a }

  unfoldable pub insert_area : ℕ → ℕ → ℕ → Vmm W → Option (Vmm W)
  insert_area fuel sp a s =
      let head = (s.spaces sp).areas in
      if (head == 0) || ltb ((s.area a).virt_start) ((s.area head).virt_start)
      then some (insert_front sp a s)
      else (do
        prev ← insert_loop fuel s.area s.next ((s.area a).virt_start) head
        some (insert_behind prev a s))

  -- The link that leads to the area skips it; `none` where no link does.
  abbrev pub unlink_area : ℕ → ℕ → Option ℕ → Vmm W → Vmm W
  unlink_area sp a none s = s
  unlink_area sp a (some prev) s =
      if prev == 0
      then set_space sp (record (s.spaces sp) { areas = s.next a }) s
      else record s { next = update s.next prev (s.next a) }

  unfoldable pub remove_area : Machine W → ℕ → ℕ → ℕ → ℕ → Vmm W → Option (Vmm W)
  remove_area M off fuel sp a s = do
    link ← find_link fuel s.next 0 ((s.spaces sp).areas) a
    let s1 = unlink_area sp a link s
    some (record s1 { machine = M.free_page (virt_to_phys off a) s1.machine })
