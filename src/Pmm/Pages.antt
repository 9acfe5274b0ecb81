-- ===== src/Pmm/Pages.antt =====
-- `pmm_alloc_pages` and `pmm_free_pages` of kernel/mm/pmm.c: several contiguous pages at once.
-- A read through a NULL frame pointer is the outcome `fault`; the walk over the stack takes fuel.
pub mod Fragmented
use spinix.Base.{
  ℕ, zero, suc, ◌+◌, Bool, true, false, Option, none, some, ltb, leb, ◌==◌, if◌then◌else◌, add64,
  sub64, mul64,
}
use spinix.Base.Int.{ℤ, pos, negsuc}
use spinix.Base.Memory.{update}
use spinix.Pmm.{
  page_size, zone_count, Zone, Pmm, set_zone, phys_to_virt, virt_to_phys, zero_page, out_of_frames,
  alloc_page_zone, free_page,
}

pub data Outcome : Type 0 where
  done : ℕ → Pmm → Outcome
  fault : Outcome
  out_of_fuel : Outcome

-- The check for contiguity: `n` rounds are left, `i` is the counter.
unfoldable pub contiguous : (ℕ → ℕ) → ℕ → ℕ → ℕ → ℕ → ℕ → Bool
contiguous mem off start zero i check = true
contiguous mem off start (suc n) i check =
    let rest = contiguous mem off start n (i + 1) (mem check) in
    if check == 0
    then true
    else if virt_to_phys off check == add64 start (mul64 i page_size)
    then rest
    else false

-- `prev->next = next`, or the head of the stack if there is no `prev`; one page fewer is free.
unfoldable pub unlink : ℕ → ℕ → ℕ → Pmm → Pmm
unlink z prev next s =
    let zone = s.zones z in
    let fewer = sub64 zone.free_pages 1 in
    if prev == 0
    then set_zone s z (record zone { free_stack = next; free_pages = fewer })
    else record s {
      zones = update s.zones z (record zone { free_pages = fewer });
      mem = update s.mem prev next;
    }

-- The loop that takes `n` frames off the stack; `none` is the read of `to_remove->next` at NULL.
unfoldable pub remove_run : ℕ → ℕ → ℕ → ℕ → Pmm → Option Pmm
remove_run z prev zero to_remove s = some s
remove_run z prev (suc n) to_remove s =
    let next = s.mem to_remove in
    let rest = remove_run z prev n next (unlink z prev next s) in
    if to_remove == 0 then none else rest

-- The loop that clears the pages.
unfoldable pub zero_run : ℕ → ℕ → ℕ → ℕ → (ℕ → ℕ) → ℕ → ℕ
zero_run off start zero i mem = mem
zero_run off start (suc n) i mem =
    zero_run off start n (i + 1)
      (zero_page mem (phys_to_virt off (add64 start (mul64 i page_size))))

abbrev pub took_run : Zone → ℕ → Zone
took_run zone count = record zone {
  stats = record (zone.stats) { alloc_count = add64 zone.stats.alloc_count count };
}

-- What follows a check that found a run at `start`.
unfoldable pub finish : ℕ → ℕ → ℕ → ℕ → Option Pmm → Outcome
unfolding zero_run
finish off z count start none = fault
finish off z count start (some s) = done start (record s {
  zones = update s.zones z (took_run (s.zones z) count);
  mem = zero_run off start count 0 s.mem;
})

-- The walk over the stack of the zone.
unfoldable pub find_run : ℕ → ℕ → ℕ → ℕ → ℕ → ℕ → Pmm → Outcome
find_run off z count zero prev current s = out_of_fuel
find_run off z count (suc fuel) prev current s =
    let start = virt_to_phys off current in
    let rest = find_run off z count fuel current (s.mem current) s in
    if current == 0
    then done 0 (out_of_frames s z)
    else if contiguous s.mem off start count 0 current
    then finish off z count start (remove_run z prev count current s)
    else rest

-- A zone index in range, and at least two pages.
unfoldable pub alloc_run : ℕ → ℕ → ℕ → ℕ → Pmm → Outcome
alloc_run fuel off count z s =
    if ltb (s.zones z).free_pages count
    then done 0 (out_of_frames s z)
    else find_run off z count fuel 0 (s.zones z).free_stack s

abbrev of_page : ℕ × Pmm → Outcome
of_page (a, s) = done a s

unfoldable pub alloc_pages : ℕ → ℕ → ℕ → ℤ → Pmm → Outcome
alloc_pages fuel off count (negsuc n) s = done 0 s
alloc_pages fuel off count (pos z) s =
    if count == 0
    then done 0 s
    else if count == 1
    then of_page (alloc_page_zone off (pos z) s)
    else if leb zone_count z
    then done 0 s
    else alloc_run fuel off count z s

-- `pmm_free_pages`: `n` rounds are left, `i` is the counter.
unfoldable pub free_pages_loop : ℕ → ℕ → ℕ → ℕ → Pmm → Pmm
free_pages_loop off addr zero i s = s
free_pages_loop off addr (suc n) i s =
    free_pages_loop off addr n (i + 1) (free_page off (add64 addr (mul64 i page_size)) s)

unfoldable pub free_pages : ℕ → ℕ → ℕ → Pmm → Pmm
unfolding free_pages_loop
free_pages off addr count s = free_pages_loop off addr count 0 s
