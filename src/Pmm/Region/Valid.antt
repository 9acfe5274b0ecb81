-- ===== src/Pmm/Region/Valid.antt =====
-- `pmm_add_region` keeps the allocator's invariant.
use spinix.Base.{
  ℕ, zero, suc, ◌+◌, ◌-◌, ◌*◌, ◌/◌, ◌%◌, ◌≤◌, ◌<◌, ◌≡◌, refl, sym, ◌⊎◌, inl, inr, true, false,
  Bool-cases, List, ◌∷◌, arith, has, leb, ◌==◌, add64, sub64, mul64, u64_mod,
}
use mathlib.Core.Path.{subst}
use spinix.Base.Memory.{update, update_self, update_both, update_one}
use spinix.Pmm.{page_size, Zone, Pmm, phys_to_virt, align_down, align_up, addr_to_zone}
use spinix.Pmm.Frames.{Chain, InZone, ZoneValid, IsValid, Chain-update}
use spinix.Pmm.Alloc.{other_freed-valid}
use spinix.Pmm.Region.{
  added, add_page, region_loop, add_region, add_free, add_frees, addr_to_zone-lt, Fresh,
  Fresh-add_free, Fresh-out, region_frees,
}

module _ (off : ℕ) (off_small : off < u64_mod) where
  added-valid :
      (mem : ℕ → ℕ) (zone : Zone) (z p : ℕ) (ps : List ℕ)
      → ZoneValid off mem zone z ps
      → InZone off z p
      → has p ps ≡ false
      → zone.total_pages + 1 < u64_mod
      → ZoneValid off
          (update mem (phys_to_virt off p) zone.free_stack)
          (added zone (phys_to_virt off p))
          z
          (p ∷ ps)
  added-valid mem zone z p ps v hp out room = record {
    chain = (
      refl,
      subst (λ v'. Chain off (update mem (phys_to_virt off p) zone.free_stack) v' ps)
          (sym (update_self mem (phys_to_virt off p) zone.free_stack))
          (Chain-update off z z mem zone.free_stack p zone.free_stack ps hp v.frames out v.chain),
    );
    count = omega (arith, v.count, v.total);
    total = omega (arith, v.total);
    small = omega arith;
    frames = (hp, v.frames);
    distinct = (out, v.distinct);
  }

  -- One page that is on no stack yet.
  add_page-IsValid :
      (s : Pmm) (free : ℕ → List ℕ) (p : ℕ)
      → IsValid off s free
      → InZone off (addr_to_zone p) p
      → has p (free (addr_to_zone p)) ≡ false
      → (s.zones (addr_to_zone p)).total_pages + 1 < u64_mod
      → IsValid off (add_page off p s) (add_free free p)
  unfolding add_page
  add_page-IsValid s free p v hp out room =
      let z = addr_to_zone p in
      let link = (s.zones z).free_stack in
      update_both
        (λ w zone qs. w < 3 → ZoneValid off (update s.mem (phys_to_virt off p) link) zone w qs)
        s.zones free z (added (s.zones z) (phys_to_virt off p)) (p ∷ free z)
        (λ lt. added-valid s.mem (s.zones z) z p (free z) (v z lt) hp out room)
        (λ w ne lt.
          other_freed-valid off off_small s.mem (s.zones w) z w p (free w) (v w lt) hp ne link)

  add_page-room :
      (s : Pmm) (p n : ℕ)
      → ((z : ℕ) → z < 3 → (s.zones z).total_pages + suc n < u64_mod)
      → (z : ℕ) → z < 3
      → ((add_page off p s).zones z).total_pages + n < u64_mod
  unfolding add_page
  add_page-room s p n room =
      let z = addr_to_zone p in
      update_one (λ w zone. w < 3 → zone.total_pages + n < u64_mod) s.zones z
        (added (s.zones z) (phys_to_virt off p)) (λ lt. omega (arith, room z lt))
        (λ w ne lt. omega (arith, room w lt))

  -- The loop over the pages that begin in [a, a + n * PAGE_SIZE).
  region_loop-IsValid :
      (n base i a : ℕ) (s : Pmm) (free : ℕ → List ℕ)
      → IsValid off s free
      → a ≡ base + i * page_size
      → a % page_size ≡ 0
      → 0 < a
      → a + n * page_size + off ≤ u64_mod
      → Fresh a (a + n * page_size) free
      → ((z : ℕ) → z < 3 → (s.zones z).total_pages + n < u64_mod)
      → IsValid off (region_loop off base n i s) (add_frees a n free)
  unfolding region_loop add_frees
  region_loop-IsValid zero base i a s free v ea al nz fits fresh room = v
  region_loop-IsValid (suc n) base i a s free v ea al nz fits fresh room =
      let e : add64 base (mul64 i page_size) ≡ a = omega arith in
      let hp : InZone off (addr_to_zone a) a = (al, nz, refl, omega arith) in
      let out = Fresh-out free a (a + suc n * page_size) (addr_to_zone a) fresh (omega arith) in
      let z = addr_to_zone a in
      let v1 : IsValid off (add_page off a s) (add_free free a) =
        add_page-IsValid s free a v hp out (omega (arith, room z (addr_to_zone-lt a))) in
      subst
        (λ x.
          IsValid off (region_loop off base n (i + 1) (add_page off x s))
            (add_frees a (suc n) free))
        (sym e)
        (region_loop-IsValid n base (i + 1) (a + page_size) (add_page off a s) (add_free free a) v1
          (omega arith) (omega arith) (omega arith) (omega arith)
          (λ w p h. omega (arith, Fresh-add_free free a (a + suc n * page_size) fresh w p h))
          (add_page-room s a n room))

  -- The pages counted grow by at most the pages of the region.
  region_loop-room :
      (n k base i : ℕ) (s : Pmm)
      → ((z : ℕ) → z < 3 → (s.zones z).total_pages + (n + k) < u64_mod)
      → (z : ℕ) → z < 3
      → ((region_loop off base n i s).zones z).total_pages + k < u64_mod
  unfolding region_loop
  region_loop-room zero k base i s room z lt = omega (arith, room z lt)
  region_loop-room (suc n) k base i s room z lt =
      let p = add64 base (mul64 i page_size) in
      region_loop-room n k base (i + 1) (add_page off p s)
        (add_page-room s p (n + k) (λ w lw. omega (arith, room w lw))) z lt

module _ (off base length : ℕ) (free : ℕ → List ℕ) (nz : 0 < base)
    (fits : base + length + off + page_size ≤ u64_mod) where
  -- For a region above address 0 that the direct map holds, that overlaps no free page, and whose
  -- pages the zones' counts have room for, pmm_add_region keeps the allocator valid and adds the
  -- frames that region_frees lists.
  pub add_region-IsValid :
      (s : Pmm)
      → IsValid off s free
      → ((z p : ℕ) → has p (free z) ≡ true → (p + page_size ≤ base) ⊎ (base + length ≤ p))
      → ((z : ℕ) → z < 3 → (s.zones z).total_pages + length / page_size < u64_mod)
      → IsValid off (add_region off base length s) (region_frees base length free)
  unfolding add_region add_frees
  add_region-IsValid s v apart room =
      let a = align_up base in
      let n = (base + length) / page_size - a / page_size in
      let lost = sub64 a base in
      let whole = align_down (sub64 length lost) in
      let nothing : n ≡ 0 → IsValid off s (region_frees base length free) =
        λ e. subst (λ k. IsValid off s (add_frees a k free)) (sym e) v in
      elim (Bool-cases (leb length lost)) [
        | inl small ↦ rw small (nothing (ground arith))
        | inr large ↦ rw large (elim (Bool-cases (whole == 0)) [
          | inl none ↦ rw none (nothing (ground arith))
          | inr some ↦ rw some (
              let size : n ≡ whole / page_size = ground arith in
              let inside : a + n * page_size ≤ base + length = ground arith in
              subst (λ k. IsValid off (region_loop off a k 0 s) (region_frees base length free))
                size
                (region_loop-IsValid off (omega arith) n a 0 a s free v (omega arith) (omega arith)
                  (omega arith) (omega arith) (λ z p h. omega (arith, apart z p h))
                  (λ z lt. omega (arith, room z lt))))
        ])
      ]

  pub add_region-room :
      (s : Pmm) (k : ℕ)
      → ((z : ℕ) → z < 3 → (s.zones z).total_pages + (length + k) < u64_mod)
      → (z : ℕ) → z < 3
      → ((add_region off base length s).zones z).total_pages + k < u64_mod
  unfolding add_region
  add_region-room s k room z lt =
      let a = align_up base in
      let lost = sub64 a base in
      let whole = align_down (sub64 length lost) in
      elim (Bool-cases (leb length lost)) [
        | inl small ↦ rw small (omega (arith, room z lt))
        | inr large ↦ rw large (elim (Bool-cases (whole == 0)) [
          | inl none ↦ rw none (omega (arith, room z lt))
          | inr some ↦ rw some (
              let few : whole / page_size ≤ length = ground arith in
              region_loop-room off (omega arith) (whole / page_size) k a 0 s
                (λ w lw. omega (arith, room w lw)) z lt)
        ])
      ]
