-- ===== src/Pmm/Stats.antt =====
-- The counters and queries of kernel/mm/pmm.c. A zone is a C `int`; the queries that fill a
-- structure return it in an option, `none` where the code leaves the caller's structure alone.
use spinix.Base.{
  ℕ, zero, suc, ◌+◌, ◌/◌, ◌≤◌, ◌<◌, ◌≡◌, ap, Bool, true, Option, none, some, List, ◌∷◌, arith,
  length, ltb, leb, if◌then◌else◌, add64, sub64, u64_mod,
}
use spinix.Base.Int.{ℤ, pos, negsuc}
use spinix.Pmm.{page_size, zone_count, ZoneStats, Zone, Pmm, align_down, align_up, alloc_page_zone}
use spinix.Pmm.Frames.{IsValid}
use spinix.Pmm.Alloc.{alloc_page_zone-Popped}

abbrev pub Watermarks : Type 0
Watermarks = ℕ × ℕ × ℕ

-- `f` of a zone in range, and `d` for any other.
abbrev pub in_zone {ℓ} : {A : Type ℓ} → A → (Zone → A) → ℤ → Pmm → A
in_zone d f (negsuc n) s = d
in_zone d f (pos z) s = if leb zone_count z then d else f (s.zones z)

pub get_watermarks : ℤ → Pmm → Option Watermarks
get_watermarks =
    in_zone none (λ zone. some (zone.watermark_min, zone.watermark_low, zone.watermark_high))

-- An invalid zone counts as low on memory.
unfoldable pub is_low_memory : ℤ → Pmm → Bool
is_low_memory = in_zone true (λ zone. ltb zone.free_pages zone.watermark_low)

pub get_stats : ℤ → Pmm → Option ZoneStats
get_stats = in_zone none (λ zone. some zone.stats)

pub get_zone_free_pages : ℤ → Pmm → ℕ
get_zone_free_pages = in_zone 0 (λ zone. zone.free_pages)

pub get_zone_total_pages : ℤ → Pmm → ℕ
get_zone_total_pages = in_zone 0 (λ zone. zone.total_pages)

-- The sum over the three zones, from `total = 0` on.
abbrev sum_zones : (Zone → ℕ) → Pmm → ℕ
sum_zones f s = add64 (add64 (add64 0 (f (s.zones 0))) (f (s.zones 1))) (f (s.zones 2))

unfoldable pub get_total_pages : Pmm → ℕ
get_total_pages = sum_zones (λ zone. zone.total_pages)

unfoldable pub get_free_pages : Pmm → ℕ
get_free_pages = sum_zones (λ zone. zone.free_pages)

unfoldable pub get_used_pages : Pmm → ℕ
unfolding get_total_pages get_free_pages
get_used_pages s = sub64 (get_total_pages s) (get_free_pages s)

-- `pmm_reserve_region` computes the range that it prints (its first page, its end and its number of
-- pages), and changes nothing.
unfoldable pub reserve_region : ℕ → ℕ → Pmm → (ℕ × ℕ × ℕ) × Pmm
reserve_region base length s =
    let first = align_down base in
    let end = align_up (add64 base length) in ((first, end, sub64 end first / page_size), s)

-- Fewer pages than 64 bits count.
abbrev pub Countable : Pmm → Type 0
Countable s = (s.zones 0).total_pages + (s.zones 1).total_pages + (s.zones 2).total_pages < u64_mod

module _ (off : ℕ) (off_small : off < u64_mod) (s : Pmm) (free : ℕ → List ℕ)
    (v : IsValid off s free) (small : Countable s) where
  -- In a valid allocator whose zones' pages together are fewer than 2 ^ 64, pmm_get_free_pages is
  -- the number of frames on the three stacks, and the free pages and the used pages sum to the
  -- total.
  pub get_free_pages-length :
      (get_free_pages s ≡ length (free 0) + length (free 1) + length (free 2))
      × (get_free_pages s + get_used_pages s ≡ get_total_pages s)
  unfolding get_used_pages
  get_free_pages-length =
      let v0 = v 0 (omega arith) in
      let v1 = v 1 (omega arith) in
      let v2 = v 2 (omega arith) in
      (
        omega (arith, v0.count, v1.count, v2.count, v0.total, v1.total, v2.total),
        omega (arith, v0.count, v1.count, v2.count, v0.total, v1.total, v2.total),
      )

  some_free : (z p : ℕ) (ps : List ℕ) → z < 3 → free z ≡ p ∷ ps → 0 < (s.zones z).free_pages
  some_free z p ps lt e = omega (arith, (v z lt).count, ap length e)

  few : (z : ℕ) → z < 3 → (s.zones z).free_pages ≤ (s.zones z).total_pages
  few z lt = (v z lt).total

  -- In a valid allocator whose zones' pages together are fewer than 2 ^ 64, a pmm_alloc_page_zone
  -- of a zone below 3 with a free frame raises pmm_get_used_pages by one, lowers pmm_get_free_pages
  -- by one, and leaves pmm_get_total_pages as it is.
  pub get_used_pages-alloc :
      (z p : ℕ) (ps : List ℕ)
      → z < 3
      → free z ≡ p ∷ ps
      → let s' = (alloc_page_zone off (pos z) s).1 in
        (get_used_pages s' ≡ get_used_pages s + 1)
        × (get_free_pages s' + 1 ≡ get_free_pages s)
        × (get_total_pages s' ≡ get_total_pages s)
  unfolding get_used_pages
  get_used_pages-alloc zero p ps lt e =
      let d = alloc_page_zone-Popped off off_small s free 0 p ps v lt e in
      rw d.zones (omega (arith, some_free 0 p ps lt e, few 0, few 1, few 2))
  get_used_pages-alloc (suc zero) p ps lt e =
      let d = alloc_page_zone-Popped off off_small s free 1 p ps v lt e in
      rw d.zones (omega (arith, some_free 1 p ps lt e, few 0, few 1, few 2))
  get_used_pages-alloc (suc (suc zero)) p ps lt e =
      let d = alloc_page_zone-Popped off off_small s free 2 p ps v lt e in
      rw d.zones (omega (arith, some_free 2 p ps lt e, few 0, few 1, few 2))
  get_used_pages-alloc (suc (suc (suc z))) p ps lt e = absurd (omega arith)
