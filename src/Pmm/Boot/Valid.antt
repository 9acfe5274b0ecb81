-- ===== src/Pmm/Boot/Valid.antt =====
-- After `pmm_init` the free frames are the whole pages of the usable entries.
use spinix.Base.{
  ℕ, zero, suc, ◌+◌, ◌%◌, ◌<◌, ◌≡◌, refl, ◌↔◌, inl, inr, true, some, List, [], arith, has, u64_mod,
}
use mathlib.Core.Bool.{false≢true}
use spinix.Base.Memory.{update, update_one}
use spinix.Pmm.{page_size, Zone, Pmm, addr_to_zone}
use spinix.Pmm.Frames.{ZoneValid, IsValid}
use spinix.Pmm.Boot.{Entry, calculate_watermarks, init_zones, add_entries, watermark_zones, init}
use spinix.Pmm.Boot.Map.{entries_frees, MapOk, total_length, Usable}
use spinix.Pmm.Boot.Entries.{add_entries-IsValid, has-entries_frees}

-- The frames that are free after `pmm_init`.
abbrev pub boot_frees : List Entry → ℕ → List ℕ
boot_frees es = entries_frees es (λ _. [])

module _ (off : ℕ) where
  watermark-valid :
      (mem : ℕ → ℕ) (zone : Zone) (z : ℕ) (ps : List ℕ)
      → ZoneValid off mem zone z ps
      → ZoneValid off mem (calculate_watermarks zone) z ps
  unfolding calculate_watermarks
  watermark-valid mem zone z ps v = record {
    chain = v.chain;
    count = v.count;
    total = v.total;
    small = v.small;
    frames = v.frames;
    distinct = v.distinct;
  }

  empty-valid :
      (mem : ℕ → ℕ) (zone : Zone) (z : ℕ)
      → zone.free_stack ≡ 0
      → zone.free_pages ≡ 0
      → zone.total_pages ≡ 0
      → ZoneValid off mem zone z []
  empty-valid mem zone z stack count total = record {
    chain = stack;
    count = count;
    total = omega arith;
    small = omega arith;
    frames = tt;
    distinct = tt;
  }

  fresh-room :
      (s : Pmm) (k : ℕ)
      → k < u64_mod
      → (z : ℕ) → z < 3
      → (init_zones s.zones z).total_pages + k < u64_mod
  fresh-room s k small zero lt = omega arith
  fresh-room s k small (suc zero) lt = omega arith
  fresh-room s k small (suc (suc zero)) lt = omega arith
  fresh-room s k small (suc (suc (suc z))) lt = absurd (omega arith)

  -- Storage that starts at zero, and the fields that `pmm_init` sets, make three empty zones.
  fresh-IsValid : (s : Pmm) → IsValid off (record s { zones = init_zones s.zones }) (λ _. [])
  fresh-IsValid s zero lt = empty-valid s.mem (init_zones s.zones 0) 0 refl refl refl
  fresh-IsValid s (suc zero) lt = empty-valid s.mem (init_zones s.zones 1) 1 refl refl refl
  fresh-IsValid s (suc (suc zero)) lt = empty-valid s.mem (init_zones s.zones 2) 2 refl refl refl
  fresh-IsValid s (suc (suc (suc z))) lt = absurd (omega arith)

  watermark-IsValid :
      (s : Pmm) (free : ℕ → List ℕ) (z : ℕ)
      → IsValid off s free
      → IsValid off (record s { zones = update s.zones z (calculate_watermarks (s.zones z)) }) free
  watermark-IsValid s free z v =
      update_one (λ w zone. w < 3 → ZoneValid off s.mem zone w (free w)) s.zones z
        (calculate_watermarks (s.zones z))
        (λ lt. watermark-valid s.mem (s.zones z) z (free z) (v z lt)) (λ w ne. v w)

  watermark_zones-IsValid :
      (s : Pmm) (free : ℕ → List ℕ) → IsValid off s free → IsValid off (watermark_zones s) free
  unfolding watermark_zones
  watermark_zones-IsValid s free v =
      let s0 = record s { zones = update s.zones 0 (calculate_watermarks (s.zones 0)) } in
      let s1 = record s0 { zones = update s0.zones 1 (calculate_watermarks (s0.zones 1)) } in
      watermark-IsValid s1 free 2 (watermark-IsValid s0 free 1 (watermark-IsValid s free 0 v))

  -- If the bootloader answers both requests, its usable entries do not overlap, lie above page 0
  -- and inside the direct map, and the lengths of all entries sum to less than 2 ^ 64, then
  -- pmm_init returns with a valid allocator, and the free frames of each zone are exactly the page-
  -- aligned pages of that zone that lie whole in a usable entry.
  pub init-IsValid :
      (es : List Entry) (s : Pmm)
      → MapOk off es
      → total_length es < u64_mod
      → (s' : Pmm) × (init (some off) (some es) s ≡ some (off, s'))
        × IsValid off s' (boot_frees es)
        × ((z p : ℕ)
            → (has p (boot_frees es z) ≡ true)
              ↔ (Usable es p × (p % page_size ≡ 0) × (addr_to_zone p ≡ z)))
  unfolding init
  init-IsValid es s ok small =
      let s0 = record s { zones = init_zones s.zones } in
      let s1 = add_entries off es s0 in
      (
        watermark_zones s1,
        refl,
        watermark_zones-IsValid s1 (boot_frees es) (
            add_entries-IsValid off es s0 (λ _. []) (fresh-IsValid s) ok
              (λ z p h. absurd (false≢true h)) (fresh-room s (total_length es) small)),
        λ z p.
            let (down, up) = has-entries_frees off es (λ _. []) z p ok in
            (
              (λ h. elim (down h) [ inl no_frame ↦ absurd (false≢true no_frame) | inr u ↦ u ]),
              (λ h. up (inr h)),
            ),
      )
