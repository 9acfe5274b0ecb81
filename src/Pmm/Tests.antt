-- ===== src/Pmm/Tests.antt =====
-- The allocator of kernel/mm/pmm.c on a small memory: page 0x2000 free in the DMA zone, page
-- 0x5000000 in DMA32, none above 4 GB.
use spinix.Base.{
  ℕ, zero, suc, ◌+◌, ◌*◌, ◌%◌, ◌≤◌, ◌<◌, ◌≡◌, ◌↔◌, ◌⊎◌, refl, inl, true, some, List, [], ◌∷◌, arith,
  has, u64_mod,
}
use mathlib.Core.Bool.{false≢true}
use spinix.Base.Int.{pos}
use spinix.Base.Memory.{update}
use spinix.Pmm.{
  page_size, ZoneStats, Zone, Pmm, addr_to_zone, free_page, alloc_page, alloc_page_zone,
}
use spinix.Pmm.Frames.{InZone, IsValid}
use spinix.Pmm.Alloc.{Popped, alloc_page_zone-Popped, free_page-IsValid, alloc-free}
use spinix.Pmm.Fallback.{alloc_page-first}
use spinix.Pmm.Boot.{Entry, calculate_watermarks, calculate_watermarks_bounds, init}
use spinix.Pmm.Boot.Map.{MapOk, Usable}
use spinix.Pmm.Boot.Valid.{boot_frees, init-IsValid}
use spinix.Pmm.Pages.{fault, alloc_pages}
use spinix.Pmm.Pages.Fragmented.{alloc_pages-fault}

abbrev hhdm : ℕ
hhdm = 0xffff800000000000

abbrev no_stats : ZoneStats
no_stats = record { alloc_count = 0; free_count = 0; alloc_failed = 0 }

-- A zone of `n` free and `total` pages, with the stack at `top`.
abbrev zone_of : ℕ → ℕ → ℕ → Zone
zone_of total n top = record {
  name = "";
  start_addr = 0;
  end_addr = 0;
  total_pages = total;
  free_pages = n;
  free_stack = top;
  watermark_min = 0;
  watermark_low = 0;
  watermark_high = 0;
  stats = no_stats;
}

abbrev small_zones : ℕ → Zone
small_zones zero = zone_of 2 1 (hhdm + 0x2000)
small_zones (suc zero) = zone_of 1 1 (hhdm + 0x5000000)
small_zones (suc (suc z)) = zone_of 0 0 0

abbrev small_free : ℕ → List ℕ
small_free zero = 0x2000 ∷ []
small_free (suc zero) = 0x5000000 ∷ []
small_free (suc (suc z)) = []

abbrev small : Pmm
small = record {
  zones = small_zones;
  mem = λ a. 0;
  total_memory_bytes = 0;
  usable_memory_bytes = 0;
}

small-IsValid : IsValid hhdm small small_free
unfolding addr_to_zone
small-IsValid zero lt = record {
  chain = (refl, refl);
  count = refl;
  total = omega arith;
  small = omega arith;
  frames = ((refl, omega arith, refl, omega arith), tt);
  distinct = (refl, tt);
}
small-IsValid (suc zero) lt = record {
  chain = (refl, refl);
  count = refl;
  total = omega arith;
  small = omega arith;
  frames = ((refl, omega arith, refl, omega arith), tt);
  distinct = (refl, tt);
}
small-IsValid (suc (suc z)) lt = record {
  chain = refl;
  count = refl;
  total = omega arith;
  small = omega arith;
  frames = tt;
  distinct = tt;
}

page-InZone : InZone hhdm 0 0x3000
unfolding addr_to_zone
page-InZone = (refl, omega arith, refl, omega arith)

hhdm_small : hhdm < u64_mod
hhdm_small = omega arith

alloc_page_zone-Popped_example :
    Popped hhdm hhdm_small small small_free 0 0x2000 [] (alloc_page_zone hhdm (pos 0) small)
alloc_page_zone-Popped_example =
    alloc_page_zone-Popped hhdm hhdm_small small small_free 0 0x2000 [] small-IsValid (omega arith)
      refl

free_page-IsValid_example :
    IsValid hhdm (free_page hhdm 0x3000 small) (update small_free 0 (0x3000 ∷ 0x2000 ∷ []))
free_page-IsValid_example =
    free_page-IsValid hhdm hhdm_small small small_free 0 0x3000 small-IsValid (omega arith)
      page-InZone refl (omega arith)

alloc-free_example :
    let (q, s') = alloc_page_zone hhdm (pos 0) (free_page hhdm 0x3000 small) in
    (q ≡ 0x3000) × IsValid hhdm s' small_free
alloc-free_example =
    alloc-free hhdm hhdm_small small small_free 0 0x3000 small-IsValid (omega arith) page-InZone
      refl (omega arith)

above_dma32 : (w : ℕ) → 1 < w → w < 3 → small_free w ≡ []
above_dma32 zero lo hi = absurd (omega arith)
above_dma32 (suc zero) lo hi = absurd (omega arith)
above_dma32 (suc (suc w)) lo hi = refl

alloc_page-first_example :
    ((alloc_page hhdm small).0 ≡ 0x5000000)
    × IsValid hhdm (alloc_page hhdm small).1 (update small_free 1 [])
alloc_page-first_example =
    alloc_page-first hhdm hhdm_small small small_free 1 0x5000000 [] small-IsValid (omega arith)
      refl above_dma32

-- No page is free.
abbrev empty : Pmm
empty = record small { zones = λ z. zone_of 2 0 0 }

empty-IsValid : IsValid hhdm empty (λ _. [])
empty-IsValid z lt = record {
  chain = refl;
  count = refl;
  total = omega arith;
  small = omega arith;
  frames = tt;
  distinct = tt;
}

none_free : (z p : ℕ) → has p [] ≡ true → (p + page_size ≤ 0x1234) ⊎ (0x1234 + 0x3000 ≤ p)
none_free z p h = absurd (false≢true h)

-- Two usable entries round a reserved one.
abbrev memory_map : List Entry
memory_map =
    record { base = 0x1000; length = 0x3800; kind = 0 }
    ∷ record { base = 0x5000; length = 0x1000; kind = 1 }
    ∷ record { base = 0x1000000; length = 0x2000; kind = 0 }
    ∷ []

memory_map-MapOk : MapOk hhdm memory_map
memory_map-MapOk = (
  λ u. (
    record { nonzero = omega arith; fits = omega arith },
    ((λ r. inl (omega arith)), ((λ w. inl (omega arith)), tt)),
  ),
  (
    (λ r. absurd (false≢true r)),
    ((λ w. (record { nonzero = omega arith; fits = omega arith }, tt)), tt),
  ),
)

init-IsValid_example :
    (s' : Pmm) × (init (some hhdm) (some memory_map) empty ≡ some (hhdm, s'))
    × IsValid hhdm s' (boot_frees memory_map)
    × ((z p : ℕ)
        → (has p (boot_frees memory_map z) ≡ true)
          ↔ (Usable memory_map p × (p % page_size ≡ 0) × (addr_to_zone p ≡ z)))
init-IsValid_example = init-IsValid hhdm memory_map empty memory_map-MapOk (omega arith)

calculate_watermarks_bounds_example :
    let w = calculate_watermarks (zone_of 65536 0 0) in
    (65536 < 128 * 128 → w.watermark_min ≡ 128)
    × (128 * 128 ≤ 65536
        → 65536 < 1024 * 128
        → (w.watermark_min * 128 ≤ 65536) × (65536 < (w.watermark_min + 1) * 128))
    × (1024 * 128 ≤ 65536 → w.watermark_min ≡ 1024)
    × (w.watermark_low ≡ 2 * w.watermark_min)
    × (w.watermark_high ≡ 3 * w.watermark_min)
calculate_watermarks_bounds_example = calculate_watermarks_bounds (zone_of 65536 0 0)

-- Pages 0x3000 and 0x1000 are free, and do not follow one another.
abbrev apart_free : ℕ → List ℕ
apart_free zero = 0x3000 ∷ 0x1000 ∷ []
apart_free (suc z) = []

abbrev apart_zones : ℕ → Zone
apart_zones zero = zone_of 2 2 (hhdm + 0x3000)
apart_zones (suc z) = zone_of 0 0 0

abbrev apart : Pmm
apart = record small { zones = apart_zones; mem = update (λ a. 0) (hhdm + 0x3000) (hhdm + 0x1000) }

apart-IsValid : IsValid hhdm apart apart_free
unfolding addr_to_zone
apart-IsValid zero lt = record {
  chain = (refl, (refl, refl));
  count = refl;
  total = omega arith;
  small = omega arith;
  frames = ((refl, omega arith, refl, omega arith), ((refl, omega arith, refl, omega arith), tt));
  distinct = (refl, (refl, tt));
}
apart-IsValid (suc z) lt = record {
  chain = refl;
  count = refl;
  total = omega arith;
  small = omega arith;
  frames = tt;
  distinct = tt;
}

alloc_pages-fault_example : alloc_pages 5 hhdm 2 (pos 0) apart ≡ fault
alloc_pages-fault_example =
    alloc_pages-fault hhdm 0 hhdm_small 5 2 apart apart_free apart-IsValid (omega arith)
      (omega arith) (omega arith) refl (omega arith)
