-- ===== src/Vmm/Tests.antt =====
-- The areas of kernel/mm/vmm.c on a small address space. The machine hands out frames in ascending
-- order; its page table is a function from pages to frames, 0 for a page that is not mapped.
pub mod Forks
use spinix.Base.{
  ℕ, suc, inl, inr, Bool-cases, ==→eq, ◌+◌, ◌-◌, ◌*◌, ◌<◌, ◌≤◌, ◌≡◌, ◌↔◌, refl, ◌&&◌, not, true,
  false, some, List, [], ◌∷◌, arith, has, length, leb, ltb, ◌==◌, if◌then◌else◌, u64_mod,
}
use spinix.Base.Int.{ℤ, pos, negsuc}
use mathlib.Core.Option
use spinix.Base.Memory.{update}
use spinix.Base.Chain.Search.{find_node}
use spinix.Pmm.{page_size, phys_to_virt}
use spinix.Vmm.{
  Area, Machine, Vmm, is_canonical, can_merge, gap_loop, contains, find_area, validate_range,
  insert_area, insert_loop,
}
use spinix.Vmm.Regions.{no_stats, new_area, map_region, unmap_region, alloc_region}
use spinix.Vmm.Faults.{handle_page_fault, protect_region}
use spinix.Vmm.Fork.{fork_space}
use spinix.Vmm.Copies.Pages.{Ample}
use spinix.Vmm.Copies.Forks.{Forked, fork_space-Forked}
use spinix.Vmm.Split.{split_region, merge_regions}
use spinix.Vmm.Areas.{IsValid}
use spinix.Vmm.Map.{Mapped, map_region-Mapped}
use spinix.Vmm.Alloc.{Allocated, alloc_region-Allocated}
use spinix.Vmm.Unmap.{Unmapped, unmap_region-Unmapped}
use spinix.Vmm.Halves.{mapping, mapping_at}
use spinix.Vmm.Halves.Region.{SplitResult, split_region-Splits}
use spinix.Vmm.Joined.Regions.{AllSettled, merge_regions-Joins}
use spinix.Vmm.Guards.{Allowed, validate_range_lem, validate_range-wraps}
use spinix.Vmm.Astray.{protect_region-whole, map_region-wraps}
use spinix.Vmm.Resolve.{IsLawful, Cause, handle_page_fault-Settles}

pub record Frames : Type 0 where
  pub fresh : ℕ
  pub table : ℕ → ℕ

abbrev enter : ℕ → ℕ → Frames → Frames
enter virt phys w = record w { table = update w.table virt phys }

abbrev pub machine : Machine Frames
machine = record {
  alloc_page = λ w. (w.fresh, record w { fresh = w.fresh + page_size });
  free_page = λ phys w. w;
  clear_page = λ phys w. w;
  map_page = λ ctx virt phys flags w. (if phys == 0 then negsuc 0 else pos 0, enter virt phys w);
  unmap_page = λ ctx virt w. enter virt 0 w;
  unmap_range = λ ctx virt size w. record w {
    table = λ v. if leb virt v && ltb v (virt + size) then 0 else w.table v;
  };
  translate = λ ctx virt w. w.table virt;
  is_mapped = λ ctx virt w. not (w.table virt == 0);
  is_cow_page = λ ctx virt w. false;
  break_cow = λ ctx virt w. (negsuc 0, w);
  mark_cow = λ ctx virt size w. (pos 0, w);
  change_flags_range = λ ctx virt size flags w. (negsuc 0, w);
  copy_range = λ to from virt size w. (pos 0, w);
  create_context = λ w. (w.fresh, record w { fresh = w.fresh + page_size });
  destroy_context = λ ctx w. w;
  switch_context = λ ctx w. w;
  kernel_context = λ w. 1;
}

machine-IsLawful : IsLawful machine
machine-IsLawful = record {
  map_page-mapped = λ ctx virt phys flags w z. ground arith;
  break_cow-mapped = λ ctx virt w z. cc;
}

-- `hhdm_offset`
abbrev pub hhdm : ℕ
hhdm = 0xFFFF800000000000

-- The areas at 100 and 200: two lazy regions, the second from `start` on.
abbrev two_areas : ℕ → ℕ → Area
two_areas start a =
    if a == 100
    then new_area 0x1000 0x3000 3 0 1 0
    else if a == 200
    then new_area start (start + 0x1000) 3 0 1 0
    else new_area 0 0 0 0 0 0

-- The space at 50 has these areas.
abbrev demo : ℕ → Vmm Frames
demo start = record {
  area = two_areas start;
  next = λ a. if a == 100 then 200 else 0;
  spaces = λ q. record {
    mmu_ctx = 1;
    areas = if q == 50 then 100 else 0;
    total_size = if q == 50 then 0x3000 else 0;
    mapped_size = 0;
    area_count = if q == 50 then 2 else 0;
  };
  kernel = 60;
  initialized = true;
  stats = no_stats;
  machine = record { fresh = 0x100000; table = λ v. 0 };
}

abbrev pub both : List ℕ
both = 100 ∷ 200 ∷ []

abbrev pub gap : Vmm Frames
gap = demo 0x5000

abbrev adjacent : Vmm Frames
adjacent = demo 0x3000

pub gap-IsValid : IsValid gap 50 both
gap-IsValid = record {
  chain = omega arith;
  distinct = (refl, (refl, tt));
  ordered = omega arith;
  count = refl;
  total = refl;
}

adjacent-IsValid : IsValid adjacent 50 both
adjacent-IsValid = record {
  chain = omega arith;
  distinct = (refl, (refl, tt));
  ordered = omega arith;
  count = refl;
  total = refl;
}

-- A range that meets an area is refused, and one in the gap is added.
map_taken :
    Option.map (λ r. r.0) (map_region machine hhdm 9 50 0x2000 0x1000 3 0 1 0 gap) ≡ some (negsuc 0)
unfolding map_region is_canonical find_node
map_taken = refl

map_region-Mapped_example :
    (r : ℤ × Vmm Frames) × (map_region machine hhdm 9 50 0x3800 0x1000 3 0 1 0 gap ≡ some r)
    × Mapped machine gap 50 both 0x3800 (new_area 0x3000 0x5000 3 0 1 0) r
map_region-Mapped_example =
    map_region-Mapped machine hhdm gap 50 both 9 0x3800 0x1000 3 0 1 0 gap-IsValid
      (λ _. (omega arith, refl)) (omega arith) (omega arith)

alloc_region-Allocated_example :
    (r : ℕ × Vmm Frames) × (alloc_region machine hhdm 9 50 0x1800 11 1 gap ≡ some r)
    × Allocated machine gap 50 both 0x1800 11 1 r
alloc_region-Allocated_example =
    alloc_region-Allocated gap 50 both 0x1800 11 1 machine hhdm 9 50 refl gap-IsValid
      (λ _. (omega arith, refl)) (omega arith) (omega arith) (omega arith) (omega arith)
      (omega arith) (omega arith)

-- The gap between the areas is the first place with room.
alloc_in_gap : Option.map (λ r. r.0) (alloc_region machine hhdm 9 50 0x1800 11 1 gap) ≡ some 0x3000
unfolding alloc_region gap_loop is_canonical find_node insert_area insert_loop
alloc_in_gap = refl

unmap_region-Unmapped_example :
    (r : ℤ × Vmm Frames) × (unmap_region machine hhdm 9 50 0x5000 0x1000 gap ≡ some r)
    × Unmapped gap 50 both 0x5000 0x6000 r
unmap_region-Unmapped_example =
    unmap_region-Unmapped machine hhdm 9 50 0x5000 0x1000 gap both gap-IsValid (omega arith)

split_region-Splits_example :
    (r : ℤ × Vmm Frames) × (split_region machine hhdm 9 50 0x2010 gap ≡ some r)
    × SplitResult machine gap 50 both 0x2000 r
split_region-Splits_example =
    split_region-Splits machine hhdm 9 50 0x2010 gap both gap-IsValid (λ _. (omega arith, refl))
      (omega arith)

merge_regions-Joins_example :
    (n : ℕ) × (s' : Vmm Frames) × (ps' : List ℕ) × (merge_regions machine hhdm 9 50 adjacent
      ≡ some (n, s'))
    × IsValid s' 50 ps'
    × (2 ≡ n + length ps')
    × ((v : ℕ) → mapping_at s'.area ps' v ≡ mapping_at adjacent.area both v)
    × AllSettled s'.area ps'
merge_regions-Joins_example =
    merge_regions-Joins machine hhdm 9 50 adjacent both adjacent-IsValid (omega arith)

merged_once : Option.map (λ r. r.0) (merge_regions machine hhdm 9 50 adjacent) ≡ some 1
unfolding merge_regions can_merge
merged_once = refl

handle_page_fault-Settles_example :
    (r : ℤ × Vmm Frames) × (handle_page_fault machine 9 50 0x1234 2 gap ≡ some r)
    × (r.1.area ≡ gap.area)
    × (r.1.next ≡ gap.next)
    × (r.0 ≡ pos 0
        → (a : ℕ) × (has a both ≡ true)
          × (contains (gap.area a) 0x1234 ≡ true)
          × (machine.is_mapped 1 0x1000 r.1.machine ≡ true)
          × Cause machine gap 50 0x1000 2 (gap.area a))
handle_page_fault-Settles_example =
    handle_page_fault-Settles machine 9 50 0x1234 2 gap both machine-IsLawful gap-IsValid
      (omega arith)

lazy_fault : Option.map (λ r. r.0) (handle_page_fault machine 9 50 0x1234 2 gap) ≡ some (pos 0)
unfolding handle_page_fault find_area find_node
lazy_fault = refl

validate_range_lem_example :
    (r : ℤ) × (validate_range 9 50 0x1800 0x800 3 gap ≡ some r)
    × ((r ≡ pos 0) ↔ Allowed gap both 0x1800 0x800 3)
validate_range_lem_example =
    validate_range_lem gap 9 50 0x1800 0x800 3 both gap-IsValid (omega arith) (omega arith)
      (omega arith)

-- A range of nearly 2 ^ 64 bytes passes.
validate_range-wraps_example :
    (validate_range 9 50 0x1800 (u64_mod - 0x1000) 3 gap ≡ some (pos 0))
    × (0x3000 < 0x1800 + (u64_mod - 0x1000))
validate_range-wraps_example =
    validate_range-wraps gap 9 50 0x1800 (u64_mod - 0x1000) 3 both 100 gap-IsValid (omega arith)
      refl refl refl (omega arith) (omega arith) (omega arith) (omega arith) (omega arith)

protect_region-whole_example :
    (r : ℤ × Vmm Frames) × (protect_region machine 9 50 0x1000 0x1000 1 gap ≡ some r)
    × ((v : ℕ)
        → contains (gap.area 100) v ≡ true
        → mapping_at r.1.area both v ≡ some (mapping (new_area 0x1000 0x3000 1 0 1 0) v))
protect_region-whole_example =
    protect_region-whole machine 9 50 0x1000 0x1000 1 gap both 100 gap-IsValid (omega arith) refl
      refl (omega arith)

map_region-wraps_example :
    (s' : Vmm Frames) × (map_region machine hhdm 9 50 0x1000 (u64_mod - 0x1800) 3 0 1 0 gap
      ≡ some (pos 0, s'))
    × ((s'.area (hhdm + 0x100000)).virt_end ≡ 0)
    × (0 < (s'.area (hhdm + 0x100000)).virt_start)
unfolding is_canonical
map_region-wraps_example =
    map_region-wraps machine hhdm gap 50 both 9 0x1000 (u64_mod - 0x1800) 3 1 gap-IsValid
      (λ _. (omega arith, refl)) (omega arith) (omega arith) refl (omega arith) (omega arith)
      (omega arith) refl
