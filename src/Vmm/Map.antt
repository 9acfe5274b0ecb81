-- ===== src/Vmm/Map.antt =====
-- `vmm_map_region` of kernel/mm/vmm.c: a new area, or an error that leaves the list alone.
use spinix.Base.{
  ℕ, ◌+◌, ◌≤◌, ◌<◌, ◌≡◌, refl, sym, ap, ◌∙◌, ◌≢◌, inl, inr, ◌||◌, Bool, true, false, not,
  Bool-cases, some, List, arith, has, has-ne, length, ◌==◌, eq→==, ne→==, ==→ne, ==→eq, ◌>>=◌,
  u64_mod, add64, sub64,
}
use mathlib.Core.Path.{subst}
use spinix.Base.Int.{ℤ, pos, negsuc}
use spinix.Base.Memory.{update, update_ne, update_self}
use spinix.Base.Chain.{Chain, Chain-nonzero}
use spinix.Base.Chain.Search.{first, first-IsFirst, find_node-first}
use spinix.Pmm.{page_size, phys_to_virt}
use spinix.Vmm.{Area, Space, Machine, Vmm, is_canonical, overlaps, space_of}
use spinix.Vmm.Regions.{
  first_page, past_pages, new_area, fill_area, count_mapped, count_region, add_area, map_region,
}
use spinix.Vmm.Shortage.{Shortage, no_structure, fill_area-Shortage}
use spinix.Vmm.Areas.{
  Ordered, Ordered-filled, reserved, reserved-lt, length-le-reserved, IsValid, IsValid-keep,
}
use spinix.Vmm.Insert.{
  place, has-place, length-place, reserved-place, place-Ordered, place-Distinct, Apart, IsFit,
  Inserted, insert_area-Inserted,
}

-- The insertion of `t` into the valid space of `s1`, and the counting.
pub counted-IsValid :
    {W : Type 0} (s1 s2 : Vmm W) (sp t : ℕ) (ps : List ℕ)
    → IsValid s1 sp ps
    → has t ps ≡ false
    → IsFit (s1.area t)
    → Apart s1.area (s1.area t).virt_start (s1.area t).virt_end ps
    → Inserted s1 sp t ps s2
    → IsValid
        (count_region sp (sub64 (s1.area t).virt_end (s1.area t).virt_start) s2)
        sp
        (place s1.area (s1.area t).virt_start t ps)
counted-IsValid s1 s2 sp t ps v out f apart i =
    let x = s1.area t in
    let size = sub64 x.virt_end x.virt_start in
    let space = s2.spaces sp in
    let at = update_self s2.spaces sp (record space {
      total_size = add64 space.total_size size;
      area_count = add64 space.area_count 1;
    }) in
    let longer = place s1.area x.virt_start t ps in
    let o = place-Ordered s1.area 0 t ps f (omega arith) apart v.ordered in
    let room = reserved-lt s1.area 0 longer o (omega arith) in
    let few = length-le-reserved s1.area 0 longer o in
    let filled = f.filled in
    let below = f.below in
    let spans = reserved-place s1.area x.virt_start t ps in
    let more = length-place s1.area x.virt_start t ps in
    let was_count = ap (λ (y : Space). y.area_count) i.space ∙ v.count in
    let was_total = ap (λ (y : Space). y.total_size) i.space ∙ v.total in
    record {
      chain = subst (λ h. Chain s2.next h longer) (sym (ap (λ (y : Space). y.areas) at)) i.chain;
      distinct = place-Distinct s1.area x.virt_start t ps out v.distinct;
      ordered = subst (λ f. Ordered f 0 longer) (sym i.area) o;
      count = ap (λ (y : Space). y.area_count) at ∙ omega (arith, more, was_count, few);
      total =
          ap (λ (y : Space). y.total_size) at
          ∙ omega (arith, spans, was_total, room)
          ∙ ap (λ f. reserved f longer) (sym i.area);
    }

module _ {W : Type 0} (s : Vmm W) (sp : ℕ) (ps : List ℕ) where
  -- The space has the list `ps'` now, of the old areas and `t`, which is `x`.
  pub record Grown (t : ℕ) (x : Area) (s' : Vmm W) : Type 0 where
    pub ps' : List ℕ
    pub valid : IsValid s' sp ps'
    pub members : (q : ℕ) → has q ps' ≡ ((q == t) || has q ps)
    pub new : s'.area t ≡ x
    pub old : (q : ℕ) → q ≢ t → s'.area q ≡ s.area q

  counted-Grown :
      (s1 s2 : Vmm W) (t : ℕ)
      → IsValid s1 sp ps
      → has t ps ≡ false
      → IsFit (s1.area t)
      → Apart s1.area (s1.area t).virt_start (s1.area t).virt_end ps
      → ((q : ℕ) → q ≢ t → s1.area q ≡ s.area q)
      → Inserted s1 sp t ps s2
      → Grown t (s1.area t) (count_region sp (sub64 (s1.area t).virt_end (s1.area t).virt_start) s2)
  counted-Grown s1 s2 t v out f apart old i = record {
    ps' = place s1.area (s1.area t).virt_start t ps;
    valid = counted-IsValid s1 s2 sp t ps v out f apart i;
    members = λ q. has-place s1.area (s1.area t).virt_start t q ps;
    new = ap (λ (f : ℕ → Area). f t) i.area;
    old = λ q ne. ap (λ (f : ℕ → Area). f q) i.area ∙ old q ne;
  }

  -- The space is valid with the same areas.
  abbrev pub Stays : Vmm W → Type 0
  Stays s' = IsValid s' sp ps × ((q : ℕ) → has q ps ≡ true → s'.area q ≡ s.area q)

  -- A structure for a new area: not NULL and not in use.
  abbrev pub Spare : ℕ → Type 0
  Spare t = (t ≢ 0) × (has t ps ≡ false)

module _ {W : Type 0} (M : Machine W) (off : ℕ) (s : Vmm W) (sp : ℕ) (ps : List ℕ) where
  -- The frame of a new structure is spare.
  abbrev pub Provides : Type 0
  Provides =
      (M.alloc_page s.machine).0 ≢ 0 → Spare s sp ps (phys_to_virt off (M.alloc_page s.machine).0)

  abbrev pub fills : Area → Bool × W
  fills x = fill_area M ((s.spaces sp).mmu_ctx) x s.machine

  -- The state before the insertion.
  abbrev pub readied : ℕ → Area → Vmm W
  readied t x =
      count_mapped sp x
        (record s { area = update s.area t x; next = update s.next t 0; machine = (fills x).1 })

  pub readied-IsValid :
      (t : ℕ) (x : Area) → IsValid s sp ps → has t ps ≡ false → IsValid (readied t x) sp ps
  readied-IsValid t x v out =
      let space = s.spaces sp in
      let at = update_self s.spaces sp ((readied t x).spaces sp) in
      IsValid-keep s (readied t x) sp ps (λ q i. update_ne s.next t q 0 (has-ne ps q t i out))
        (λ q i. update_ne s.area t q x (has-ne ps q t i out)) (ground arith) (ground arith)
        (ground arith) v

  add_area-Grown :
      (fuel phys : ℕ) (x : Area)
      → IsValid s sp ps
      → Spare s sp ps (phys_to_virt off phys)
      → IsFit x
      → Apart s.area x.virt_start x.virt_end ps
      → length ps < fuel
      → (fills x).0 ≡ true
      → (s' : Vmm W) × (add_area M off fuel sp phys x s ≡ some (pos 0, s'))
        × Grown s sp ps (phys_to_virt off phys) x s'
  unfolding add_area
  add_area-Grown fuel phys x v (nt, out) f apart lt e =
      let t = phys_to_virt off phys in
      let s1 = readied t x in
      let v1 = readied-IsValid t x v out in
      let own : s1.area t ≡ x = update_self s.area t x in
      let same : (q : ℕ) → has q ps ≡ true → s1.area q ≡ s.area q =
        (λ q i. update_ne s.area t q x (has-ne ps q t i out)) in
      let clear : Apart s1.area (s1.area t).virt_start (s1.area t).virt_end ps =
        (λ q i. rw own (rw (same q i) (apart q i))) in
      let (s2, eq, ins) =
        insert_area-Inserted s1 sp t ps fuel v1.chain v.distinct nt out
          (subst (λ (y : Area). y.virt_start < y.virt_end) (sym own) f.filled)
          (λ q i. Ordered-filled s1.area 0 ps q v1.ordered i) clear lt in
      (
        count_region sp (sub64 x.virt_end x.virt_start) s2,
        rw e (rw (eq, ◌>>=◌) refl),
        subst (λ (y : Area). Grown s sp ps t y (count_region sp (sub64 y.virt_end y.virt_start) s2))
            own
            (counted-Grown s sp ps s1 s2 t v1 out (subst IsFit (sym own) f) clear
              (λ q ne. update_ne s.area t q x ne) ins),
      )

  -- Where the pages cannot be mapped, the list stays and the result is -1.
  add_area-fails :
      (fuel phys : ℕ) (x : Area)
      → IsValid s sp ps
      → has (phys_to_virt off phys) ps ≡ false
      → (fills x).0 ≡ false
      → (s' : Vmm W) × (add_area M off fuel sp phys x s ≡ some (negsuc 0, s')) × Stays s sp ps s'
  unfolding add_area
  add_area-fails fuel phys x v out e =
      let t = phys_to_virt off phys in
      let s' = record s {
        area = update s.area t x;
        next = update s.next t 0;
        machine = M.free_page phys ((fills x).1);
      } in
      (
        s',
        rw e refl,
        (
          IsValid-keep s s' sp ps (λ q i. update_ne s.next t q 0 (has-ne ps q t i out))
              (λ q i. update_ne s.area t q x (has-ne ps q t i out)) refl refl refl v,
          λ q i. update_ne s.area t q x (has-ne ps q t i out),
        ),
      )

-- What a call of vmm_map_region comes to, from the state `s` whose space `sp` has the list `ps`.
pub data Mapped {W : Type 0} (M : Machine W) (s : Vmm W) (sp : ℕ) (ps : List ℕ) (virt_addr : ℕ)
    (x : Area) : ℤ × Vmm W → Type 0 where
  unsuitable :
      not (is_canonical virt_addr) || (sub64 x.virt_end x.virt_start == 0) ≡ true
      → Mapped M s sp ps virt_addr x (negsuc 0, s)
  taken :
      (q : ℕ)
      → has q ps ≡ true
      → overlaps x.virt_start x.virt_end (s.area q) ≡ true
      → Mapped M s sp ps virt_addr x (negsuc 0, s)
  out_of_memory :
      (s' : Vmm W)
      → Shortage M (s.spaces sp).mmu_ctx x s.machine
      → Stays s sp ps s'
      → Mapped M s sp ps virt_addr x (negsuc 0, s')
  mapped : (t : ℕ) (s' : Vmm W) → Grown s sp ps t x s' → Mapped M s sp ps virt_addr x (pos 0, s')

module _ {W : Type 0} (M : Machine W) (off : ℕ) (s : Vmm W) (space : ℕ) (ps : List ℕ) where
  abbrev home : ℕ
  home = space_of s space

  abbrev given : Vmm W
  given = record s { machine = (M.alloc_page s.machine).1 }

  add_area-Mapped :
      (fuel virt_addr : ℕ) (x : Area)
      → IsValid s home ps
      → Provides M off s home ps
      → (M.alloc_page s.machine).0 ≢ 0
      → IsFit x
      → Apart s.area x.virt_start x.virt_end ps
      → length ps < fuel
      → (r : ℤ × Vmm W) × (add_area M off fuel home (M.alloc_page s.machine).0 x given ≡ some r)
        × Mapped M s home ps virt_addr x r
  add_area-Mapped fuel virt_addr x v spare nz f apart lt =
      let phys = (M.alloc_page s.machine).0 in
      let w = (M.alloc_page s.machine).1 in
      let v' = IsValid-keep s given home ps (λ q i. refl) (λ q i. refl) refl refl refl v in
      elim (Bool-cases ((fills M off given home ps x).0)) [
        | inl e ↦
            let (s', eq, g) =
              add_area-Grown M off given home ps fuel phys x v' (spare nz) f apart lt e in
            (
              (pos 0, s'),
              eq,
              mapped (phys_to_virt off phys) s' (record {
                ps' = g.ps';
                valid = g.valid;
                members = g.members;
                new = g.new;
                old = g.old;
              }),
            )
        | inr e ↦
            let (s', eq, kept) =
              add_area-fails M off given home ps fuel phys x v' ((spare nz).1) e in
            (
              (negsuc 0, s'),
              eq,
              out_of_memory s' (fill_area-Shortage M ((s.spaces home).mmu_ctx) x s.machine e) kept,
            )
      ]

  pages-IsFit :
      (virt_addr size : ℕ) (x : Area)
      → x.virt_start ≡ first_page virt_addr
      → x.virt_end ≡ past_pages virt_addr size
      → virt_addr + size + page_size ≤ u64_mod
      → (sub64 x.virt_end x.virt_start == 0) ≡ false
      → IsFit x
  pages-IsFit virt_addr size x es ee small ne = record {
    filled = ground arith;
    below = ground arith;
    start_page = ground arith;
    end_page = ground arith;
  }

  -- In a valid space, for a range that does not wrap round, with a spare structure for the area and
  -- fuel for more areas than the space has, vmm_map_region returns: with 0, the space is valid and
  -- has one more area, of the pages that the range touches and with the given flags; or with -1.
  -- Then either nothing has changed, and the address is not canonical, the range is empty or an
  -- area overlaps it; or a frame or a table is missing, for the structure of the area or for the
  -- pages that are mapped at once, and the space is valid with the same areas.
  pub map_region-Mapped :
      (fuel virt_addr size flags type alloc_flags phys_addr : ℕ)
      → IsValid s (space_of s space) ps
      → Provides M off s (space_of s space) ps
      → virt_addr + size + page_size ≤ u64_mod
      → length ps < fuel
      → (r : ℤ × Vmm W) × (map_region M off fuel space virt_addr size flags type alloc_flags
            phys_addr s
          ≡ some r)
        × Mapped M s
            (space_of s space)
            ps
            virt_addr
            (new_area
              (first_page virt_addr)
              (past_pages virt_addr size)
              flags
              type
              alloc_flags
              phys_addr)
            r
  unfolding map_region
  map_region-Mapped fuel virt_addr size flags type alloc_flags phys_addr v spare small lt =
      let start = first_page virt_addr in
      let end = past_pages virt_addr size in
      let x = new_area start end flags type alloc_flags phys_addr in
      let test = λ (a : ℕ). overlaps start end (s.area a) in
      let found =
        find_node-first fuel s.next test ((s.spaces (space_of s space)).areas) ps v.chain lt in
      elim (Bool-cases (not (is_canonical virt_addr) || (sub64 end start == 0))) [
        | inl e ↦ ((negsuc 0, s), rw e refl, unsuitable e)
        | inr e ↦ rw e (
            rw (found, ◌>>=◌)
              (elim (first-IsFirst test ps) [
                | inl (i, h) ↦
                    let nz =
                      Chain-nonzero s.next ((s.spaces (space_of s space)).areas) (first test ps) ps
                        v.chain i in
                    ((negsuc 0, s), rw (ne→== nz) refl, taken (first test ps) i h)
                | inr (z, apart) ↦
                    rw (eq→== z) (elim (Bool-cases ((M.alloc_page s.machine).0 == 0)) [
                      | inl none_left ↦ (
                        (negsuc 0, given),
                        rw none_left refl,
                        out_of_memory given (no_structure (==→eq _ _ none_left)) (
                          IsValid-keep s given (space_of s space) ps (λ q i. refl) (λ q i. refl)
                              refl refl refl v,
                          λ q i. refl,
                        ),
                      )
                      | inr got ↦ rw got (
                          add_area-Mapped fuel virt_addr x v spare (==→ne _ _ got)
                            (pages-IsFit virt_addr size x refl refl small (ground arith)) apart lt)
                    ])
              ]))
      ]
