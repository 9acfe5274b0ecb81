-- ===== src/Vmm/Tests/Forks.antt =====
-- `vmm_fork_space` of kernel/mm/vmm.c on the small address space. The machine hands out frames in
-- ascending order up to a limit; each context maps pages to frames, 0 for a page that is not mapped,
-- and an entry that is written takes a frame for its table.
use spinix.Base.{
  ℕ, zero, suc, inl, inr, Bool, true, false, Bool-cases, ==→eq, ◌+◌, ◌*◌, ◌/◌, ◌-◌, ◌<◌, ◌≤◌, ◌≡◌,
  refl, sym, ap, ◌∙◌, ◌≢◌, not, ◌||◌, ◌&&◌, some, List, [], ◌∷◌, arith, has, leb, ◌==◌,
  if◌then◌else◌, add64,
}
use mathlib.Core.Path.{subst}
use mathlib.Core.Bool.{false≢true}
use spinix.Base.Int.{ℤ, pos, negsuc, is_zero}
use mathlib.Core.Option
use spinix.Base.Memory.{update}
use spinix.Pmm.{page_size, phys_to_virt}
use spinix.Vmm.{Machine, Vmm, insert_area, insert_loop}
use spinix.Vmm.Fork.{fork_space}
use spinix.Vmm.Areas.{IsValid}
use spinix.Vmm.Copies.Pages.{Ample}
use spinix.Vmm.Copies.Forks.{Forked, fork_space-Forked}
use spinix.Vmm.Tests.{hhdm, both, gap, gap-IsValid}

record Tables : Type 0 where
  fresh : ℕ
  limit : ℕ
  entries : ℕ → ℕ → ℕ

-- `n` frames are taken.
abbrev take : ℕ → Tables → Tables
take n w = record w { fresh = w.fresh + n * page_size }

abbrev has_frames : ℕ → Tables → Bool
has_frames n w = leb (w.fresh + n * page_size) w.limit

abbrev enter : ℕ → ℕ → ℕ → Tables → Tables
enter ctx virt phys w = record w {
  entries = update w.entries ctx (update (w.entries ctx) virt phys);
}

-- An entry is written where there is a frame for its table.
abbrev map_in : ℕ → ℕ → ℕ → Tables → ℤ × Tables
map_in ctx virt phys w =
    if has_frames 1 w then (pos 0, enter ctx virt phys (take 1 w)) else (negsuc 0, w)

-- The entries of `k` pages from `virt` on are copied.
unfoldable copy_entries : ℕ → ℕ → ℕ → ℕ → Tables → ℤ × Tables
copy_entries zero to from virt w = (pos 0, w)
copy_entries (suc k) to from virt w =
    let phys = w.entries from virt in
    let (r, w1) = map_in to virt phys w in
    let skipped = copy_entries k to from (add64 virt page_size) w in
    let rest = copy_entries k to from (add64 virt page_size) w1 in
    if phys == 0 then skipped else if is_zero r then rest else (r, w1)

abbrev tables : Machine Tables
tables = record {
  alloc_page = λ w. if has_frames 1 w then (w.fresh, take 1 w) else (0, w);
  free_page = λ phys w. w;
  clear_page = λ phys w. w;
  map_page = λ ctx virt phys flags w. map_in ctx virt phys w;
  unmap_page = λ ctx virt w. enter ctx virt 0 w;
  unmap_range = λ ctx virt size w. w;
  translate = λ ctx virt w. w.entries ctx virt;
  is_mapped = λ ctx virt w. not (w.entries ctx virt == 0);
  is_cow_page = λ ctx virt w. false;
  break_cow = λ ctx virt w. (negsuc 0, w);
  mark_cow = λ ctx virt size w. (pos 0, w);
  change_flags_range = λ ctx virt size flags w. (negsuc 0, w);
  copy_range = λ to from virt size w.
      if (to == 0) || (from == 0)
      then (negsuc 0, w)
      else copy_entries ((size + (page_size - 1)) / page_size) to from virt w;
  create_context = λ w. if has_frames 2 w then (hhdm + w.fresh, take 2 w) else (0, w);
  destroy_context = λ ctx w. w;
  switch_context = λ ctx w. w;
  kernel_context = λ w. 1;
}

-- The contexts are not NULL, and the frames from `fresh` on are there, behind the structures in use.
record Stocked (w : Tables) (ctxs held : List ℕ) (n : ℕ) : Type 0 where
  some_used : 0 < w.fresh
  room : w.fresh + n * page_size ≤ w.limit
  top : w.limit ≤ 0x400000000000
  below : (q : ℕ) → has q held ≡ true → q < hhdm + w.fresh
  live : has 0 ctxs ≡ false

Stocked-take :
    (k : ℕ) (w : Tables) (ctxs held : List ℕ) (n : ℕ)
    → Stocked w ctxs held (k + n)
    → (has_frames k w ≡ true) × Stocked (take k w) ctxs held n
Stocked-take k w ctxs held n h =
    let room = h.room in
    (
      ground arith,
      record {
        some_used = omega (arith, h.some_used);
        room = omega (arith, room);
        top = h.top;
        below = λ q i. omega (arith, h.below q i);
        live = h.live;
      },
    )

Stocked-less :
    (k : ℕ) (w : Tables) (ctxs held : List ℕ) (n : ℕ)
    → Stocked w ctxs held (k + n)
    → Stocked w ctxs held n
Stocked-less k w ctxs held n h = record {
  some_used = h.some_used;
  room = omega (arith, h.room);
  top = h.top;
  below = h.below;
  live = h.live;
}

Stocked-map :
    (k ctx virt phys : ℕ) (w : Tables) (ctxs held : List ℕ) (n : ℕ)
    → Stocked w ctxs held (1 + k + n)
    → ((map_in ctx virt phys w).0 ≡ pos 0) × Stocked (map_in ctx virt phys w).1 ctxs held n
Stocked-map k ctx virt phys w ctxs held n h =
    let split : 1 + k + n ≡ 1 + (k + n) = omega arith in
    let (there, rest) = Stocked-take 1 w ctxs held (k + n) (subst (Stocked w ctxs held) split h) in
    let less = Stocked-less k (take 1 w) ctxs held n rest in
    rw there (
      refl,
      record {
        some_used = less.some_used;
        room = less.room;
        top = less.top;
        below = less.below;
        live = less.live;
      },
    )

Stocked-copy :
    (k to from virt : ℕ) (w : Tables) (ctxs held : List ℕ) (n : ℕ)
    → Stocked w ctxs held (3 * k + n)
    → (is_zero (copy_entries k to from virt w).0 ≡ true)
      × Stocked (copy_entries k to from virt w).1 ctxs held n
unfolding copy_entries
Stocked-copy zero to from virt w ctxs held n h = (refl, subst (Stocked w ctxs held) (omega arith) h)
Stocked-copy (suc k) to from virt w ctxs held n h =
    let phys = w.entries from virt in
    elim (Bool-cases (phys == 0)) [
      | inl e ↦
          let split : 3 * suc k + n ≡ 3 + (3 * k + n) = omega arith in
          rw e (
            Stocked-copy k to from (add64 virt page_size) w ctxs held n
              (Stocked-less 3 w ctxs held (3 * k + n) (subst (Stocked w ctxs held) split h)))
      | inr e ↦
          let split : 3 * suc k + n ≡ 1 + 2 + (3 * k + n) = omega arith in
          let (ok, left) =
            Stocked-map 2 to virt phys w ctxs held (3 * k + n)
              (subst (Stocked w ctxs held) split h) in
          rw e (
            rw (ap is_zero ok) (
              Stocked-copy k to from (add64 virt page_size) ((map_in to virt phys w).1) ctxs held n
                left))
    ]

Stocked-has :
    (w : Tables) (ctxs held : List ℕ) (n q : ℕ)
    → Stocked w ctxs held n
    → hhdm + w.fresh ≤ q
    → has q held ≡ false
Stocked-has w ctxs held n q h le = elim (Bool-cases (has q held)) [
  | inl i ↦ absurd (omega (arith, h.below q i))
  | inr out ↦ out
]

live-nonzero : (q : ℕ) (ctxs : List ℕ) → has 0 ctxs ≡ false → has q ctxs ≡ true → (q == 0) ≡ false
live-nonzero q ctxs live i = elim (Bool-cases (q == 0)) [
  | inl e ↦ absurd (false≢true (sym live ∙ ap (λ c. has c ctxs) (sym (==→eq q 0 e)) ∙ i))
  | inr ne ↦ ne
]

alloc-Stocked :
    (w : Tables) (ctxs held : List ℕ) (n : ℕ)
    → Stocked w ctxs held (1 + n)
    → (w.fresh ≢ 0)
      × (phys_to_virt hhdm w.fresh ≢ 0)
      × (has (phys_to_virt hhdm w.fresh) held ≡ false)
      × Stocked (take 1 w) ctxs (phys_to_virt hhdm w.fresh ∷ held) n
alloc-Stocked w ctxs held n h =
    let at : phys_to_virt hhdm w.fresh ≡ hhdm + w.fresh = omega (arith, h.room, h.top) in
    let (there, rest) = Stocked-take 1 w ctxs held n h in
    (
      λ z. absurd (omega (arith, z, h.some_used)),
      λ z. absurd (omega (arith, at, z, h.some_used)),
      Stocked-has w ctxs held (1 + n) (phys_to_virt hhdm w.fresh) h (omega (arith, at)),
      record {
        some_used = rest.some_used;
        room = rest.room;
        top = rest.top;
        below = λ q i. elim (Bool-cases (phys_to_virt hhdm w.fresh == q)) [
          | inl e ↦ let same = ==→eq (phys_to_virt hhdm w.fresh) q e in omega (arith, same, at)
          | inr e ↦ rest.below q (ground arith)
        ];
        live = rest.live;
      },
    )

tables-Ample : Ample tables hhdm Stocked
unfolding copy_entries
tables-Ample = record {
  alloc_page = λ w ctxs held n h.
      let (there, rest) = Stocked-take 1 w ctxs held n h in
      rw there (alloc-Stocked w ctxs held n h);
  create_context = λ w ctxs held n h.
      let (there, rest) = Stocked-take 2 w ctxs held n h in
      rw there (
        λ z. absurd (omega (arith, z, h.some_used)),
        record {
          some_used = rest.some_used;
          room = rest.room;
          top = rest.top;
          below = rest.below;
          live = let old = h.live in ground arith;
        },
      );
  copy_range = λ to from virt size w ctxs held n lt lf h.
      rw (live-nonzero to ctxs h.live lt, live-nonzero from ctxs h.live lf)
        (Stocked-copy ((size + (page_size - 1)) / page_size) to from virt w ctxs held n h);
  map_page =
      λ ctx virt phys flags w ctxs held n live h. (Stocked-map 2 ctx virt phys w ctxs held n h).1;
}

-- The space at 50, with two pages of its first area mapped in its context.
abbrev mapped_gap : Vmm Tables
mapped_gap = record {
  area = gap.area;
  next = gap.next;
  spaces = gap.spaces;
  kernel = gap.kernel;
  initialized = gap.initialized;
  stats = gap.stats;
  machine = record {
    fresh = 0x100000;
    limit = 0x200000;
    entries = λ ctx virt. if (ctx == 1) && (leb virt 0x2000) then 0x80000 + virt else 0;
  };
}

mapped_gap-IsValid : IsValid mapped_gap 50 both
mapped_gap-IsValid = record {
  chain = gap-IsValid.chain;
  distinct = gap-IsValid.distinct;
  ordered = gap-IsValid.ordered;
  count = gap-IsValid.count;
  total = gap-IsValid.total;
}

fork_space-Forked_example :
    (child : ℕ) × (cs : List ℕ) × (s' : Vmm Tables) × (fork_space tables hhdm 9 50 mapped_gap
      ≡ some (child, s'))
    × Forked mapped_gap 50 both (50 ∷ both) child cs s'
fork_space-Forked_example =
    fork_space-Forked tables hhdm Stocked tables-Ample 9 50 both (1 ∷ []) (50 ∷ both) mapped_gap
      (omega arith) refl (λ q i. ground arith) mapped_gap-IsValid (omega arith) refl
      (record {
        some_used = omega arith;
        room = omega arith;
        top = omega arith;
        below = λ q i. ground arith;
        live = refl;
      })

-- The child's context has the first page of the parent.
forked_page :
    Option.map
      (λ r. r.1.machine.entries (hhdm + 0x101000) 0x1000)
      (fork_space tables hhdm 9 50 mapped_gap)
    ≡ some 0x81000
unfolding fork_space copy_entries insert_area insert_loop
forked_page = refl
