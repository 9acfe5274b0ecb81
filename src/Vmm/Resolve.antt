-- ===== src/Vmm/Resolve.antt =====
-- `vmm_handle_page_fault` of kernel/mm/vmm.c: when a fault is resolved.
use spinix.Base.{
  ℕ, ◌≡◌, ◌⊎◌, ◌<◌, refl, sym, inl, inr, ◌&&◌, ◌||◌, true, false, not, Bool-cases, some, List,
  arith, has, length, ◌==◌, eq→==, ne→==, ◌>>=◌, has_bit,
}
use mathlib.Core.Path.{subst}
use spinix.Base.Int.{ℤ, pos, negsuc, is_zero}
use spinix.Base.Chain.{Chain-nonzero}
use spinix.Pmm.{align_down}
use spinix.Vmm.{Area, Machine, Vmm, contains, flags_to_mmu, space_of}
use spinix.Vmm.Faults.{
  is_lazy, break_page, lazy_page, settle, fault_in, handle_page_fault, count_protection,
}
use spinix.Vmm.Areas.{IsValid, find_area_lem, space_of_twice}

-- What the page tables promise: a page that is mapped, or whose copy is made, is mapped then.
pub record IsLawful {W : Type 0} (M : Machine W) : Type 0 where
  pub map_page-mapped :
      (ctx virt phys flags : ℕ) (w : W)
      → is_zero (M.map_page ctx virt phys flags w).0 ≡ true
      → M.is_mapped ctx virt (M.map_page ctx virt phys flags w).1 ≡ true
  pub break_cow-mapped :
      (ctx virt : ℕ) (w : W)
      → is_zero (M.break_cow ctx virt w).0 ≡ true
      → M.is_mapped ctx virt (M.break_cow ctx virt w).1 ≡ true

module _ {W : Type 0} (M : Machine W) (s : Vmm W) (sp page error_code : ℕ) where
  abbrev ctx : ℕ
  ctx = (s.spaces sp).mmu_ctx

  -- The page has not been mapped, of an area that is mapped when it is used; or it was copied on a
  -- write.
  abbrev pub Cause : Area → Type 0
  Cause a =
      ((is_lazy a ≡ true) × (M.is_mapped ctx page s.machine ≡ false))
      ⊎ ((has_bit error_code 1 ≡ true)
          × (M.is_mapped ctx page s.machine ≡ true)
          × (M.is_cow_page ctx page s.machine ≡ true))

  -- The outcome of a fault in the area `a`.
  pub record Settles (a : Area) (r : ℤ × Vmm W) : Type 0 where
    pub cause : r.0 ≡ pos 0 → Cause a
    pub mapped : r.0 ≡ pos 0 → M.is_mapped ctx page r.1.machine ≡ true
    pub area : r.1.area ≡ s.area
    pub next : r.1.next ≡ s.next

  refused : (a : Area) (s' : Vmm W) → s'.area ≡ s.area → s'.next ≡ s.next → Settles a (negsuc 0, s')
  refused a s' area next = record { cause = λ e. cc; mapped = λ e. cc; area = area; next = next }

module _ {W : Type 0} (M : Machine W) (law : IsLawful M) (s : Vmm W) (sp page error_code : ℕ) where
  abbrev tables : ℕ
  tables = (s.spaces sp).mmu_ctx

  lazy_page-Settles :
      (a : Area)
      → is_lazy a ≡ true
      → M.is_mapped tables page s.machine ≡ false
      → Settles M s sp page error_code a (lazy_page M sp page a s)
  unfolding lazy_page
  lazy_page-Settles a lazy unmapped =
      let phys = (M.alloc_page s.machine).0 in
      let w = M.clear_page phys ((M.alloc_page s.machine).1) in
      elim (Bool-cases (phys == 0)) [
        | inl e ↦ rw e (
            refused M s sp page error_code a (record s { machine = (M.alloc_page s.machine).1 })
              refl refl)
        | inr e ↦
            elim (Bool-cases (is_zero ((M.map_page tables page phys (flags_to_mmu a.flags) w).0))) [
              | inl z ↦
                  rw (e, z)
                    record {
                      cause = λ _. inl (lazy, unmapped);
                      mapped = λ _. law.map_page-mapped tables page phys (flags_to_mmu a.flags) w z;
                      area = refl;
                      next = refl;
                    }
              | inr z ↦
                  rw (e, z)
                    (refused M s sp page error_code a
                      (record s {
                        machine =
                            M.free_page phys
                              ((M.map_page tables page phys (flags_to_mmu a.flags) w).1);
                      })
                      refl refl)
            ]
      ]

  settle-Settles : (a : Area) → Settles M s sp page error_code a (settle M sp page error_code a s)
  unfolding settle
  settle-Settles a = elim (Bool-cases (not (M.is_mapped tables page s.machine) && is_lazy a)) [
    | inl e ↦ rw e (lazy_page-Settles a (ground arith) (ground arith))
    | inr e ↦ elim (Bool-cases (has_bit error_code 0 || M.is_mapped tables page s.machine)) [
      | inl h ↦ rw (e, h) (refused M s sp page error_code a (count_protection s) refl refl)
      | inr h ↦ rw (e, h) (refused M s sp page error_code a s refl refl)
    ]
  ]

  break_page-Settles :
      (a : Area)
      → has_bit error_code 1 ≡ true
      → M.is_mapped tables page s.machine ≡ true
      → M.is_cow_page tables page s.machine ≡ true
      → Settles M s sp page error_code a (break_page M tables page s)
  unfolding break_page
  break_page-Settles a write was cow =
      elim (Bool-cases (is_zero ((M.break_cow tables page s.machine).0))) [
        | inl z ↦ rw z record {
          cause = λ _. inr (write, was, cow);
          mapped = λ _. law.break_cow-mapped tables page s.machine z;
          area = refl;
          next = refl;
        }
        | inr z ↦ rw z (
            refused M s sp page error_code a
              (record s { machine = (M.break_cow tables page s.machine).1 }) refl refl)
      ]

  pub fault_in-Settles :
      (a : Area) → Settles M s sp page error_code a (fault_in M sp page error_code a s)
  unfolding fault_in
  fault_in-Settles a =
      elim (Bool-cases
        (has_bit error_code 0 && has_bit error_code 1 && M.is_mapped tables page s.machine)) [
          | inr e ↦ rw e (settle-Settles a)
          | inl e ↦ elim (Bool-cases (M.is_cow_page tables page s.machine)) [
            | inl cow ↦ rw (e, cow) (break_page-Settles a (ground arith) (ground arith) cow)
            | inr cow ↦ elim (Bool-cases (has_bit a.flags 1)) [
              | inl write ↦ rw (e, cow, write) (settle-Settles a)
              | inr write ↦
                  rw (e, cow, write)
                    (refused M s sp page error_code a (count_protection s) refl refl)
            ]
          ]
        ]

-- In a valid space, with page tables that keep their promises and fuel for more areas than the
-- space has, vmm_handle_page_fault returns and leaves the areas as they are. It returns 0 only
-- where an area holds the address and the page is mapped afterwards, and either the area is lazy
-- and the page was not mapped, or the access was a write and the page was marked to be copied.
pub handle_page_fault-Settles :
    {W : Type 0} (M : Machine W) (fuel space virt_addr error_code : ℕ) (s : Vmm W) (ps : List ℕ)
    → IsLawful M
    → IsValid s (space_of s space) ps
    → length ps < fuel
    → (r : ℤ × Vmm W) × (handle_page_fault M fuel space virt_addr error_code s ≡ some r)
      × (r.1.area ≡ s.area)
      × (r.1.next ≡ s.next)
      × (r.0 ≡ pos 0
          → (a : ℕ) × (has a ps ≡ true)
            × (contains (s.area a) virt_addr ≡ true)
            × (M.is_mapped (s.spaces (space_of s space)).mmu_ctx (align_down virt_addr) r.1.machine
                ≡ true)
            × Cause M s (space_of s space) (align_down virt_addr) error_code (s.area a))
unfolding handle_page_fault
handle_page_fault-Settles M fuel space virt_addr error_code s ps law v lt =
    let sp = space_of s space in
    let page = align_down virt_addr in
    let (a, found, finds) =
      find_area_lem s fuel sp virt_addr ps
        (subst (λ z. IsValid s z ps) (sym (space_of_twice s space)) v) lt in
    rw (found, ◌>>=◌)
      (elim finds [
        | inr (z, apart) ↦ rw (eq→== z) ((negsuc 0, s), refl, refl, refl, λ e. cc)
        | inl (i, h, unique) ↦
            let nz = ne→== (Chain-nonzero s.next ((s.spaces sp).areas) a ps v.chain i) in
            let r = fault_in-Settles M law s sp page error_code (s.area a) in
            rw nz (
              fault_in M sp page error_code (s.area a) s,
              refl,
              r.area,
              r.next,
              λ e. (a, i, h, r.mapped e, r.cause e),
            )
      ])
