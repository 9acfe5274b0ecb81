-- ===== src/Vmm/Shortage.antt =====
-- Calls of kernel/mm/vmm.c for which memory does not suffice.
use spinix.Base.{
  ℕ, zero, suc, ◌≡◌, ◌≢◌, inl, inr, ◌&&◌, not, true, false, Bool-cases, arith, ◌==◌, ==→eq, ==→ne,
  if◌then◌else◌, add64, sym,
}
use mathlib.Core.Bool.{false≢true}
use spinix.Base.Int.{is_zero}
use spinix.Pmm.{page_size}
use spinix.Vmm.{anon, phys_mapping, Area, Machine, flags_to_mmu}
use spinix.Vmm.Regions.{rounds, zeroes, is_deferred, map_pages, eager_pages, fill_area}

module _ {W : Type 0} (M : Machine W) (ctx flags : ℕ) where
  -- One of the pages from `virt` on cannot be mapped, the ones before it can.
  pub data Unmappable : ℕ → ℕ → ℕ → W → Type 0 where
    no_table :
        (n virt phys : ℕ) (w : W)
        → is_zero (M.map_page ctx virt phys flags w).0 ≡ false
        → Unmappable (suc n) virt phys w
    later :
        (n virt phys : ℕ) (w : W)
        → is_zero (M.map_page ctx virt phys flags w).0 ≡ true
        → Unmappable n
            (add64 virt page_size)
            (add64 phys page_size)
            (M.map_page ctx virt phys flags w).1
        → Unmappable (suc n) virt phys w

  map_pages-Unmappable :
      (n start virt phys : ℕ) (w : W)
      → (map_pages M n ctx start virt phys flags w).0 ≡ false
      → Unmappable n virt phys w
  unfolding map_pages
  map_pages-Unmappable zero start virt phys w e = absurd (false≢true (sym e))
  map_pages-Unmappable (suc n) start virt phys w e =
      elim (Bool-cases (is_zero (M.map_page ctx virt phys flags w).0)) [
        | inl ok ↦ later n virt phys w ok (
            map_pages-Unmappable n start (add64 virt page_size) (add64 phys page_size)
              ((M.map_page ctx virt phys flags w).1) (rw ok at e))
        | inr bad ↦ no_table n virt phys w bad
      ]

module _ {W : Type 0} (M : Machine W) (ctx flags alloc_flags : ℕ) where
  -- The state before the new page is mapped.
  abbrev cleared : W → W
  cleared w =
      let (phys, w1) = M.alloc_page w in if zeroes alloc_flags then M.clear_page phys w1 else w1

  -- There is no frame for one of the `n` pages from `virt` on, or it cannot be mapped; the ones
  -- before it have frames and are mapped.
  pub data Unfilled : ℕ → ℕ → W → Type 0 where
    no_frame : (n virt : ℕ) (w : W) → (M.alloc_page w).0 ≡ 0 → Unfilled (suc n) virt w
    no_table :
        (n virt : ℕ) (w : W)
        → (M.alloc_page w).0 ≢ 0
        → is_zero (M.map_page ctx virt (M.alloc_page w).0 flags (cleared w)).0 ≡ false
        → Unfilled (suc n) virt w
    later :
        (n virt : ℕ) (w : W)
        → (M.alloc_page w).0 ≢ 0
        → is_zero (M.map_page ctx virt (M.alloc_page w).0 flags (cleared w)).0 ≡ true
        → Unfilled n
            (add64 virt page_size)
            (M.map_page ctx virt (M.alloc_page w).0 flags (cleared w)).1
        → Unfilled (suc n) virt w

  eager_pages-Unfilled :
      (n start virt : ℕ) (w : W)
      → (eager_pages M n ctx start virt flags alloc_flags w).0 ≡ false
      → Unfilled n virt w
  unfolding eager_pages
  eager_pages-Unfilled zero start virt w e = absurd (false≢true (sym e))
  eager_pages-Unfilled (suc n) start virt w e = elim (Bool-cases ((M.alloc_page w).0 == 0)) [
    | inl out ↦ no_frame n virt w (==→eq _ _ out)
    | inr got ↦
        let mapped = M.map_page ctx virt (M.alloc_page w).0 flags (cleared w) in
        elim (Bool-cases (is_zero mapped.0)) [
          | inl ok ↦
              later n virt w (==→ne _ _ got) ok
                (eager_pages-Unfilled n start (add64 virt page_size) (mapped.1) (rw (got, ok) at e))
          | inr bad ↦ no_table n virt w (==→ne _ _ got) bad
        ]
  ]

-- Memory does not suffice for the structure of the new area `x`, or for the pages that it has from
-- the start.
pub data Shortage {W : Type 0} (M : Machine W) (ctx : ℕ) (x : Area) (w : W) : Type 0 where
  no_structure : (M.alloc_page w).0 ≡ 0 → Shortage M ctx x w
  no_mapping :
      x.type ≡ phys_mapping
      → Unmappable M ctx
          (flags_to_mmu x.flags)
          (rounds x.virt_start x.virt_end)
          x.virt_start
          x.phys_base
          (M.alloc_page w).1
      → Shortage M ctx x w
  no_pages :
      x.type ≡ anon
      → is_deferred x.alloc_flags ≡ false
      → Unfilled M ctx
          (flags_to_mmu x.flags)
          x.alloc_flags
          (rounds x.virt_start x.virt_end)
          x.virt_start
          (M.alloc_page w).1
      → Shortage M ctx x w

pub fill_area-Shortage :
    {W : Type 0} (M : Machine W) (ctx : ℕ) (x : Area) (w : W)
    → (fill_area M ctx x (M.alloc_page w).1).0 ≡ false
    → Shortage M ctx x w
fill_area-Shortage M ctx x w e =
    let n = rounds x.virt_start x.virt_end in
    let flags = flags_to_mmu x.flags in
    let w1 = (M.alloc_page w).1 in
    elim (Bool-cases (x.type == phys_mapping)) [
      | inl p ↦
          no_mapping (==→eq _ _ p) (
            map_pages-Unmappable M ctx flags n x.virt_start x.virt_start x.phys_base w1 (rw p at e))
      | inr np ↦ elim (Bool-cases ((x.type == anon) && not (is_deferred x.alloc_flags))) [
        | inl now ↦ no_pages (==→eq _ _ (ground arith)) (ground arith) (
            eager_pages-Unfilled M ctx flags x.alloc_flags n x.virt_start x.virt_start w1
              (rw (np, now) at e))
        | inr lazy ↦ absurd (false≢true (sym (rw (np, lazy) at e)))
      ]
    ]
