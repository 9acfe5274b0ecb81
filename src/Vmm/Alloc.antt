-- ===== src/Vmm/Alloc.antt =====
-- `vmm_alloc_region` of kernel/mm/vmm.c: a region where there is room.
use spinix.Base.{
  ℕ, ◌+◌, ◌-◌, ◌%◌, ◌≤◌, ◌<◌, ◌≡◌, refl, sym, ◌∙◌, inl, inr, ◌||◌, Bool, true, false, not,
  Bool-cases, some, List, arith, length, ◌==◌, eq→==, if◌then◌else◌, ◌>>=◌, has_bit, u64_mod, sub64,
}
use mathlib.Core.Path.{subst}
use mathlib.Core.Bool.{false≢true}
use spinix.Base.Int.{ℤ, is_zero}
use spinix.Pmm.{page_size, align_up}
use spinix.Vmm.{
  anon, Machine, Vmm, is_canonical, space_of, search_start, search_end, find_free_area,
}
use spinix.Vmm.Regions.{first_page, past_pages, new_area, map_region, alloc_region}
use spinix.Vmm.Areas.{Ordered, IsValid, space_of_twice}
use spinix.Vmm.Map.{
  Grown, Stays, Provides, Mapped, unsuitable, taken, out_of_memory, mapped, map_region-Mapped,
}
use spinix.Vmm.Shortage.{Shortage}
use spinix.Vmm.Gaps.{EndBy, Full, Room, Chooses, find_free_area-Chooses}

-- VMM_USER is bit 3.
abbrev pub is_user : ℕ → Bool
is_user flags = has_bit flags 3

-- What a call of vmm_alloc_region comes to.
pub data Allocated {W : Type 0} (M : Machine W) (s : Vmm W) (sp : ℕ) (ps : List ℕ)
    (size flags alloc_flags : ℕ) : ℕ × Vmm W → Type 0 where
  no_room :
      Full s.area (search_start (is_user flags)) (search_end (is_user flags)) (align_up size) ps
      → Allocated M s sp ps size flags alloc_flags (0, s)
  no_memory :
      (a : ℕ) (s' : Vmm W)
      → Room s.area (search_start (is_user flags)) (search_end (is_user flags)) (align_up size) ps a
      → Shortage M
          (s.spaces sp).mmu_ctx
          (new_area a (a + align_up size) flags anon alloc_flags 0)
          s.machine
      → Stays s sp ps s'
      → Allocated M s sp ps size flags alloc_flags (0, s')
  allocated :
      (a t : ℕ) (s' : Vmm W)
      → Room s.area (search_start (is_user flags)) (search_end (is_user flags)) (align_up size) ps a
      → Grown s sp ps t (new_area a (a + align_up size) flags anon alloc_flags 0) s'
      → Allocated M s sp ps size flags alloc_flags (a, s')

search_start_pos : (user : Bool) → 0 < search_start user
search_start_pos true = omega arith
search_start_pos false = omega arith

-- A place with room is a canonical address, and its pages are those of the size.
module _ (user : Bool) (a size : ℕ) (low : search_start user ≤ a)
    (high : a + align_up size ≤ search_end user) (whole : a % page_size ≡ 0)
    (some_size : 0 < align_up size) (size_64 : size < u64_mod) where
  place_pages :
      (first_page a ≡ a)
      × (past_pages a size ≡ a + align_up size)
      × (a + size + page_size ≤ u64_mod)
  place_pages = elim (Bool-cases user) [ inl e ↦ ground arith | inr e ↦ ground arith ]

  place_suitable : not (is_canonical a) || (sub64 (past_pages a size) (first_page a) == 0) ≡ false
  unfolding is_canonical
  place_suitable =
      let (first, past, small) = place_pages in
      rw (first, past) (elim (Bool-cases user) [ inl e ↦ ground arith | inr e ↦ ground arith ])

module _ {W : Type 0} (s : Vmm W) (sp : ℕ) (ps : List ℕ) (size flags alloc_flags : ℕ) where
  -- The result of vmm_map_region at a place with room.
  placed-Allocated :
      (M : Machine W) (a : ℕ) (r : ℤ × Vmm W)
      → IsValid s sp ps
      → Room s.area (search_start (is_user flags)) (search_end (is_user flags)) (align_up size) ps a
      → not (is_canonical a) || (sub64 (a + align_up size) a == 0) ≡ false
      → Mapped M s sp ps a (new_area a (a + align_up size) flags anon alloc_flags 0) r
      → Allocated M s sp ps size flags alloc_flags (if is_zero (r.0) then (a, r.1) else (0, r.1))
  placed-Allocated M a r v room good (unsuitable bad) = absurd (false≢true (sym good ∙ bad))
  placed-Allocated M a r v room good (taken q i h) = absurd (false≢true (sym (room.3 q i) ∙ h))
  placed-Allocated M a r v room good (out_of_memory s' lack v') = no_memory a s' room lack v'
  placed-Allocated M a r v room good (mapped t s' g) = allocated a t s' room g

  -- The call once the place is chosen.
  map_region-Allocated :
      (M : Machine W) (off fuel a : ℕ)
      → IsValid s sp ps
      → Provides M off s sp ps
      → size < u64_mod
      → 0 < align_up size
      → length ps < fuel
      → space_of s sp ≡ sp
      → Room s.area (search_start (is_user flags)) (search_end (is_user flags)) (align_up size) ps a
      → (r : ℕ × Vmm W) × ((map_region M off fuel sp a size flags anon alloc_flags 0 s >>= λ r.
            some (if is_zero (r.0) then (a, r.1) else (0, r.1)))
          ≡ some r)
        × Allocated M s sp ps size flags alloc_flags r
  map_region-Allocated M off fuel a v spare size_64 some_size lt home room =
      let (low, high, whole, apart) = room in
      let (first, past, small) =
        place_pages (is_user flags) a size low high whole some_size size_64 in
      let good = place_suitable (is_user flags) a size low high whole some_size size_64 in
      let (r, eq, m) =
        map_region-Mapped M off s sp ps fuel a size flags anon alloc_flags 0
          (subst (λ z. IsValid s z ps) (sym home) v)
          (subst (λ z. Provides M off s z ps) (sym home) spare) small lt in
      let m' =
        subst (λ z. Mapped M s z ps a (new_area a (a + align_up size) flags anon alloc_flags 0) r)
          home
          (subst
            (λ f.
              Mapped M s (space_of s sp) ps a
                (new_area f (a + align_up size) flags anon alloc_flags 0) r)
            first
            (subst
              (λ e.
                Mapped M s (space_of s sp) ps a (new_area (first_page a) e flags anon alloc_flags 0)
                  r)
              past m)) in
      (
        if is_zero (r.0) then (a, r.1) else (0, r.1),
        rw (eq, ◌>>=◌) refl,
        placed-Allocated M a r v room
            (subst (λ f. (not (is_canonical a) || (sub64 (a + align_up size) f == 0)) ≡ false) first
              (subst (λ e. (not (is_canonical a) || (sub64 e (first_page a) == 0)) ≡ false) past
                good))
            m',
      )

  chosen-Allocated :
      (M : Machine W) (off fuel space a : ℕ)
      → space_of s space ≡ sp
      → IsValid s sp ps
      → Provides M off s sp ps
      → size < u64_mod
      → 0 < align_up size
      → length ps < fuel
      → find_free_area fuel sp size (is_user flags) s ≡ some a
      → Chooses s.area
          (search_start (is_user flags))
          (search_end (is_user flags))
          (align_up size)
          ps
          a
      → (r : ℕ × Vmm W) × (alloc_region M off fuel space size flags alloc_flags s ≡ some r)
        × Allocated M s sp ps size flags alloc_flags r
  unfolding alloc_region
  chosen-Allocated M off fuel space a home v spare size_64 some_size lt found (inr (z, full)) =
      ((0, s), rw home (rw (found, ◌>>=◌) (rw (eq→== z) refl)), no_room full)
  chosen-Allocated M off fuel space a home v spare size_64 some_size lt found (inl room) =
      let low = room.0 in
      let start : 0 < search_start (is_user flags) = search_start_pos (is_user flags) in
      let (r, eq, out) =
        map_region-Allocated M off fuel a v spare size_64 some_size lt
          (subst (λ z. space_of s z ≡ z) home (space_of_twice s space)) room in
      let nz : (a == 0) ≡ false = ground arith in (r, rw home (rw (found, ◌>>=◌) (rw nz eq)), out)

  -- In a valid space whose areas lie within the bounds of the search, for a size other than 0 that
  -- fits between them, with a spare structure for the area, and with fuel for more areas than the
  -- space has, vmm_alloc_region returns: the address of a page from which the range of that size
  -- lies within the bounds and has met no area, and the space is valid with an area there; or 0,
  -- and nothing has changed and there is no such range, or there is one, but a frame or a table is
  -- missing, for the structure of the area or for the pages that are mapped at once, and the space
  -- is valid with the same areas.
  pub alloc_region-Allocated :
      (M : Machine W) (off fuel space : ℕ)
      → space_of s space ≡ sp
      → IsValid s sp ps
      → Provides M off s sp ps
      → Ordered s.area (search_start (is_user flags)) ps
      → EndBy s.area (search_end (is_user flags)) ps
      → 0 < align_up size
      → align_up size ≤ search_end (is_user flags) - search_start (is_user flags)
      → size < u64_mod
      → length ps < fuel
      → (r : ℕ × Vmm W) × (alloc_region M off fuel space size flags alloc_flags s ≡ some r)
        × Allocated M s sp ps size flags alloc_flags r
  alloc_region-Allocated M off fuel space home v spare o ends some_size fits size_64 lt =
      let (a, found, choice) =
        find_free_area-Chooses s fuel sp size (is_user flags) ps v o ends some_size fits lt in
      chosen-Allocated M off fuel space a home v spare size_64 some_size lt found choice
