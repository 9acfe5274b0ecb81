-- ===== src/Pmm.antt =====
-- kernel/mm/pmm.c and include/mm/pmm.h: the physical page allocator. Each of three zones keeps a
-- stack of free page frames, linked through the first word of each free frame.
-- Memory is the function from the virtual address of an 8-byte word to that word. A zone's spinlock
-- is held round each access to the zone below, so an operation is one step; the page that an
-- allocation clears after the release is its own by then. `off` is `hhdm_offset`.
pub mod Frames
pub mod Alloc
pub mod Fallback
pub mod Region
pub mod Boot
pub mod Pages
pub mod Stats
mod Tests
use Prim.Native.String.{String}
use spinix.Base.{
  ℕ, ◌+◌, ◌-◌, ◌*◌, ◌/◌, ◌%◌, ◌^◌, ◌&&◌, Bool, ltb, leb, ◌==◌, if◌then◌else◌, has_bit, add64, sub64,
}
use spinix.Base.Int.{ℤ, pos, negsuc}
use spinix.Base.Memory.{update}

abbrev pub page_size : ℕ
page_size = 4096

-- PMM_ZONE_DMA, PMM_ZONE_DMA32, PMM_ZONE_NORMAL, PMM_ZONE_COUNT
abbrev pub zone_dma : ℕ
zone_dma = 0

abbrev pub zone_dma32 : ℕ
zone_dma32 = 1

abbrev pub zone_normal : ℕ
zone_normal = 2

abbrev pub zone_count : ℕ
zone_count = 3

abbrev pub dma_limit : ℕ
dma_limit = 0x1000000

abbrev pub dma32_limit : ℕ
dma32_limit = 0x100000000

-- `pmm_zone_stats_t`
pub record ZoneStats : Type 0 where
  pub alloc_count : ℕ
  pub free_count : ℕ
  pub alloc_failed : ℕ

-- `pmm_zone_t`
pub record Zone : Type 0 where
  pub name : String
  pub start_addr : ℕ
  pub end_addr : ℕ
  pub total_pages : ℕ
  pub free_pages : ℕ
  pub free_stack : ℕ
  pub watermark_min : ℕ
  pub watermark_low : ℕ
  pub watermark_high : ℕ
  pub stats : ZoneStats

-- The static variables of the file, and the memory.
pub record Pmm : Type 0 where
  pub zones : ℕ → Zone
  pub mem : ℕ → ℕ
  pub total_memory_bytes : ℕ
  pub usable_memory_bytes : ℕ

abbrev pub set_zone : Pmm → ℕ → Zone → Pmm
set_zone s z zone = record s { zones = update s.zones z zone }

-- PHYS_TO_VIRT and VIRT_TO_PHYS
abbrev pub phys_to_virt : ℕ → ℕ → ℕ
phys_to_virt off p = add64 p off

abbrev pub virt_to_phys : ℕ → ℕ → ℕ
virt_to_phys off v = sub64 v off

-- PAGE_ALIGN_DOWN, PAGE_ALIGN_UP and IS_PAGE_ALIGNED
abbrev pub align_down : ℕ → ℕ
align_down a = a / page_size * page_size

abbrev pub align_up : ℕ → ℕ
align_up a = align_down (add64 a (page_size - 1))

abbrev pub is_page_aligned : ℕ → Bool
is_page_aligned a = a % page_size == 0

-- `memset(v, 0, PAGE_SIZE)`, on the words of the page
abbrev pub zero_page : (ℕ → ℕ) → ℕ → ℕ → ℕ
zero_page mem v a = if leb v a && ltb a (v + page_size) then 0 else mem a

unfoldable pub addr_to_zone : ℕ → ℕ
addr_to_zone addr =
    if ltb addr dma_limit
    then zone_dma
    else if ltb addr dma32_limit
    then zone_dma32
    else zone_normal

-- What `pmm_free_page` makes of the zone of the frame.
abbrev pub freed : Zone → ℕ → Zone
freed zone frame = record zone {
  free_stack = frame;
  free_pages = add64 zone.free_pages 1;
  stats = record (zone.stats) { free_count = add64 zone.stats.free_count 1 };
}

unfoldable pub free_page : ℕ → ℕ → Pmm → Pmm
free_page off addr s =
    if addr == 0
    then s
    else if is_page_aligned addr
    then (let z = addr_to_zone addr in
        let zone = s.zones z in
        let frame = phys_to_virt off addr in
        record s {
          zones = update s.zones z (freed zone frame);
          mem = update s.mem frame zone.free_stack;
        })
    else s

-- What `pmm_alloc_page_zone` makes of a zone whose stack is empty, and of one whose top frame links
-- to `next`.
abbrev pub failed : Zone → Zone
failed zone = record zone {
  stats = record (zone.stats) { alloc_failed = add64 zone.stats.alloc_failed 1 };
}

abbrev pub out_of_frames : Pmm → ℕ → Pmm
out_of_frames s z = set_zone s z (failed (s.zones z))

abbrev pub popped : Zone → ℕ → Zone
popped zone next = record zone {
  free_stack = next;
  free_pages = sub64 zone.free_pages 1;
  stats = record (zone.stats) { alloc_count = add64 zone.stats.alloc_count 1 };
}

-- The body of `pmm_alloc_page_zone` for a zone index in range.
unfoldable pub pop_frame : ℕ → ℕ → Pmm → ℕ × Pmm
pop_frame off z s =
    let zone = s.zones z in
    let frame = zone.free_stack in
    if frame == 0 then (0, out_of_frames s z) else (
      virt_to_phys off frame,
      record s {
        zones = update s.zones z (popped zone (s.mem frame));
        mem = zero_page s.mem frame;
      },
    )

unfoldable pub alloc_page_zone : ℕ → ℤ → Pmm → ℕ × Pmm
alloc_page_zone off (negsuc n) s = (0, s)
alloc_page_zone off (pos z) s = if leb zone_count z then (0, s) else pop_frame off z s

-- The next zone is tried when the page is 0.
unfoldable pub or_else : ℕ × Pmm → (Pmm → ℕ × Pmm) → ℕ × Pmm
or_else (a, s) next = if a == 0 then next s else (a, s)

-- `pmm_alloc_page`: the normal zone first, then DMA32, then DMA.
unfoldable pub alloc_page : ℕ → Pmm → ℕ × Pmm
alloc_page off s =
    or_else (alloc_page_zone off (pos zone_normal) s)
      λ s1. or_else (alloc_page_zone off (pos zone_dma32) s1) (alloc_page_zone off (pos zone_dma))

-- PMM_ALLOC_ZERO, PMM_ALLOC_DMA and PMM_ALLOC_DMA32 are bits 0, 1 and 2.
unfoldable pub choose_page : ℕ → ℕ → Pmm → ℕ × Pmm
choose_page off flags s =
    if has_bit flags 1
    then alloc_page_zone off (pos zone_dma) s
    else if has_bit flags 2
    then or_else (alloc_page_zone off (pos zone_dma32) s) (alloc_page_zone off (pos zone_dma))
    else alloc_page off s

unfoldable pub alloc_page_flags : ℕ → ℕ → Pmm → ℕ × Pmm
unfolding choose_page
alloc_page_flags off flags s =
    let (a, s') = choose_page off flags s in
    if a == 0
    then (0, s')
    else if has_bit flags 0
    then (a, record s' { mem = zero_page s'.mem (phys_to_virt off a) })
    else (a, s')
