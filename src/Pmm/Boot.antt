-- ===== src/Pmm/Boot.antt =====
-- `pmm_init` and `pmm_calculate_watermarks` of kernel/mm/pmm.c: from the bootloader's memory map to
-- the three zones. The two Limine responses are arguments; `none` stands for a null response, on
-- which the kernel stops in `epanic`.
pub mod Map
pub mod Entries
pub mod Valid
use Prim.Native.String.{String}
use spinix.Base.{
  ℕ, zero, suc, ◌+◌, ◌-◌, ◌*◌, ◌/◌, ◌%◌, ◌^◌, ◌≤◌, ◌<◌, ◌≡◌, refl, sym, ap, ◌∙◌, ◌≢◌, ◌↔◌, ◌⊎◌, inl,
  inr, Bool, true, false, Bool-cases, ==→eq, Option, some, none, List, [], ◌∷◌, arith, length, has,
  Distinct, All, ltb, leb, ◌==◌, if◌then◌else◌, add64, u64_mod,
}
use spinix.Base.Memory.{update}
use spinix.Pmm.{page_size, dma_limit, dma32_limit, Zone, Pmm, set_zone, addr_to_zone}
use spinix.Pmm.Frames.{ZoneValid, IsValid}
use spinix.Pmm.Region.{add_region, region_frees, has-region_frees}
use spinix.Pmm.Region.Valid.{add_region-IsValid, add_region-room}

-- `struct limine_memmap_entry`
pub record Entry : Type 0 where
  pub base : ℕ
  pub length : ℕ
  pub kind : ℕ

-- LIMINE_MEMMAP_USABLE
abbrev pub usable : Entry → Bool
usable e = e.kind == 0

unfoldable pub calculate_watermarks : Zone → Zone
calculate_watermarks zone =
    let pages = zone.total_pages / 128 in
    let raised = if ltb pages 128 then 128 else pages in
    let low = if ltb 1024 raised then 1024 else raised in
    record zone { watermark_min = low; watermark_low = low * 2; watermark_high = low * 3 }

-- The fields that `pmm_init` sets; the others keep the zeros of static storage.
abbrev pub fresh_zone : Zone → String → ℕ → ℕ → Zone
fresh_zone zone name start end = record zone {
  name = name;
  start_addr = start;
  end_addr = end;
  total_pages = 0;
  free_pages = 0;
  free_stack = 0;
}

abbrev pub init_zones : (ℕ → Zone) → ℕ → Zone
init_zones zones =
    let dma = update zones 0 (fresh_zone (zones 0) "DMA" 0 dma_limit) in
    let dma32 = update dma 1 (fresh_zone (zones 1) "DMA32" dma_limit dma32_limit) in
    update dma32 2 (fresh_zone (zones 2) "normal" dma32_limit (2 ^ 64 - 1))

unfoldable pub add_entry : ℕ → Entry → Pmm → Pmm
add_entry off e s =
    let s1 = record s { total_memory_bytes = add64 s.total_memory_bytes e.length } in
    if usable e
    then add_region off e.base e.length
        (record s1 { usable_memory_bytes = add64 s.usable_memory_bytes e.length })
    else s1

unfoldable pub add_entries : ℕ → List Entry → Pmm → Pmm
add_entries off [] s = s
add_entries off (e ∷ es) s = add_entries off es (add_entry off e s)

unfoldable pub watermark_zones : Pmm → Pmm
watermark_zones s =
    let z0 = update s.zones 0 (calculate_watermarks (s.zones 0)) in
    let z1 = update z0 1 (calculate_watermarks (z0 1)) in
    record s { zones = update z1 2 (calculate_watermarks (z1 2)) }

-- The result is `hhdm_offset` beside the state; `none` means that the kernel has stopped.
unfoldable pub init : Option ℕ → Option (List Entry) → Pmm → Option (ℕ × Pmm)
unfolding add_entries watermark_zones
init none memmap s = none
init (some off) none s = none
init (some off) (some es) s =
    some (off, watermark_zones (add_entries off es (record s { zones = init_zones s.zones })))

-- pmm_calculate_watermarks sets the minimum watermark to the number of whole groups of 128 pages in
-- the zone, where this lies from 128 to 1023, to 128 where it is smaller and to 1024 where it is
-- larger, and the low and the high watermark to twice and three times the minimum.
pub calculate_watermarks_bounds :
    (zone : Zone)
    → let w = calculate_watermarks zone in
      (zone.total_pages < 128 * 128 → w.watermark_min ≡ 128)
      × (128 * 128 ≤ zone.total_pages
          → zone.total_pages < 1024 * 128
          → (w.watermark_min * 128 ≤ zone.total_pages)
            × (zone.total_pages < (w.watermark_min + 1) * 128))
      × (1024 * 128 ≤ zone.total_pages → w.watermark_min ≡ 1024)
      × (w.watermark_low ≡ 2 * w.watermark_min)
      × (w.watermark_high ≡ 3 * w.watermark_min)
unfolding calculate_watermarks
calculate_watermarks_bounds zone = ground arith
