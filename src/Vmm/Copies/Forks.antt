-- ===== src/Vmm/Copies/Forks.antt =====
-- `vmm_fork_space` of kernel/mm/vmm.c: the child maps each address as its parent does.
use spinix.Base.{
  ℕ, zero, suc, ◌+◌, ◌<◌, ◌≡◌, refl, sym, ap, ◌∙◌, ◌≢◌, inl, inr, true, false, Bool-cases, some,
  List, [], ◌∷◌, ◌++◌, arith, has, has-ne, length, length-append, eq→==, ne→==,
}
use mathlib.Core.Path.{subst}
use mathlib.Core.Bool.{false≢true}
use spinix.Base.Memory.{update_ne, update_self}
use spinix.Base.Chain.{Chain}
use spinix.Pmm.{phys_to_virt}
use spinix.Vmm.{Space, Machine, Vmm, set_space}
use spinix.Vmm.Regions.{create_space, fresh_space}
use spinix.Vmm.Fork.{copy_areas, fork_space}
use spinix.Vmm.Areas.{IsValid, IsValid-keep}
use spinix.Vmm.Insert.{IsFit}
use spinix.Vmm.Halves.{mapping_at}
use spinix.Vmm.Copies.{
  first_of-none, EndBy-keep, Copied, Pending, Continued, copied-Pending, copied-Continued,
}
use spinix.Vmm.Copies.Pages.{Ample, table_frames, copy_frames, copy_frames-keep, copy_area-Copied}

-- The fork's result: the child's space `child`, with the areas `cs`, is new and maps each address as
-- the parent's areas `qs` do; the parent's space and all else in `held` stays.
pub record Forked {W : Type 0} (s : Vmm W) (parent : ℕ) (qs held : List ℕ) (child : ℕ) (cs : List ℕ)
    (s' : Vmm W) : Type 0 where
  pub made : child ≢ 0
  pub new : has child held ≡ false
  pub valid : IsValid s' child cs
  pub maps : (v : ℕ) → mapping_at s'.area cs v ≡ mapping_at s.area qs v
  pub parent_valid : IsValid s' parent qs
  pub area : (q : ℕ) → has q held ≡ true → s'.area q ≡ s.area q
  pub links : (q : ℕ) → has q held ≡ true → s'.next q ≡ s.next q
  pub spaces : (q : ℕ) → q ≢ child → s'.spaces q ≡ s.spaces q

module _ {W : Type 0} (M : Machine W) (off : ℕ) (Holds : W → List ℕ → List ℕ → ℕ → Type 0)
    (ample : Ample M off Holds) where
  copy_areas-Continued :
      (fuel child parent p low : ℕ) (cs qs ctxs held : List ℕ) (s : Vmm W)
      → Pending s child p low cs qs held
      → length cs + (length qs + length qs) < fuel
      → parent ≢ child
      → has (s.spaces child).mmu_ctx ctxs ≡ true
      → has (s.spaces parent).mmu_ctx ctxs ≡ true
      → Holds s.machine ctxs held (copy_frames s.area qs)
      → (cs' : List ℕ) × (s' : Vmm W) × (copy_areas M off fuel child parent p s ≡ some (true, s'))
        × Continued s child cs qs held cs' s'
  unfolding copy_areas
  copy_areas-Continued zero child parent p low cs qs ctxs held s pending lt ne lc lp h =
      absurd (omega arith)
  copy_areas-Continued (suc fuel) child parent p low cs [] ctxs held s pending lt ne lc lp h = (
    cs,
    s,
    rw (eq→== pending.chain) refl,
    record {
      valid = pending.valid;
      maps = λ w. sym (first_of-none (mapping_at s.area cs w));
      area = λ q i. refl;
      links = λ q i n. refl;
      spaces = λ q n. refl;
    },
  )
  copy_areas-Continued (suc fuel) child parent p low cs (a ∷ qs) ctxs held s pending lt ne lc lp h =
      let (e, na, ch) = pending.chain in
      let (l, le, top, sa, ea, o) = pending.ordered in
      let after = copy_frames s.area qs in
      let (np, nc, out, h1) =
        ample.alloc_page s.machine ctxs held (table_frames (s.area a) + after) h in
      let c = phys_to_virt off (M.alloc_page s.machine).0 in
      let s1 = record s { machine = (M.alloc_page s.machine).1 } in
      let f : IsFit (s.area a) = record {
        filled = le;
        below = top;
        start_page = sa;
        end_page = ea;
      } in
      let unlisted : has c cs ≡ false = elim (Bool-cases (has c cs)) [
        | inl y ↦ absurd (false≢true (sym out ∙ pending.copies_held c y))
        | inr y ↦ y
      ] in
      let (s2, eq, made, h2) =
        copy_area-Copied M off Holds ample ctxs fuel child parent a c after cs (c ∷ held) s1
          (IsValid-keep s s1 child cs (λ q i. refl) (λ q i. refl) refl refl refl pending.valid) nc
          unlisted f
          (EndBy-keep s.area s.area low (s.area a).virt_start cs (λ q i. refl) l pending.ends)
          (omega arith) ne lc lp h1 in
      let copied : Copied s child a c cs s2 = record {
        valid = made.valid;
        new = made.new;
        old = made.old;
        links = made.links;
        ctx = made.ctx;
        spaces = made.spaces;
      } in
      let (cs', s', eq', more) =
        copy_areas-Continued fuel child parent (s2.next a) (s.area a).virt_end (cs ++ c ∷ []) qs
          ctxs (c ∷ held) s2 (copied-Pending s s2 child p low a c cs qs held pending copied out)
          (omega (arith, length-append cs (c ∷ []))) ne
          (subst (λ x. has x ctxs ≡ true) (sym copied.ctx) lc)
          (subst (λ (x : Space). has x.mmu_ctx ctxs ≡ true) (sym (copied.spaces parent ne)) lp)
          (subst (Holds s2.machine ctxs (c ∷ held))
            (sym (
              copy_frames-keep s.area s2.area qs
                (λ q i. copied.old q (has-ne held q c (pending.left_held q (ground arith)) out))))
            h2) in
      (
        cs',
        s',
        rw e (rw (ne→== na, ne→== np, eq) (rw eq' refl)),
        copied-Continued s s2 child p low a c cs qs held pending copied out cs' s' more,
      )

  -- In a valid space other than NULL that is in use with its areas and whose context is live, with
  -- three frames for the child's space and context, one for the structure of each area and three
  -- for each page of an anonymous or physical area, and with fuel for twice the areas,
  -- vmm_fork_space returns a new space. It is valid, it maps each address as the parent's does -
  -- with the same flags, type, allocation flags and physical address - and the parent's space stays
  -- valid: its areas, and all other spaces, are as they were.
  pub fork_space-Forked :
      (fuel parent : ℕ) (qs ctxs held : List ℕ) (s : Vmm W)
      → parent ≢ 0
      → has parent held ≡ true
      → ((q : ℕ) → has q qs ≡ true → has q held ≡ true)
      → IsValid s parent qs
      → length qs + length qs < fuel
      → has (s.spaces parent).mmu_ctx ctxs ≡ true
      → Holds s.machine ctxs held (3 + copy_frames s.area qs)
      → (child : ℕ) × (cs : List ℕ) × (s' : Vmm W) × (fork_space M off fuel parent s
          ≡ some (child, s'))
        × Forked s parent qs held child cs s'
  unfolding fork_space create_space
  fork_space-Forked fuel parent qs ctxs held s np i sub v lt live h =
      let (na, nc, out, h1) =
        ample.alloc_page s.machine ctxs held (2 + copy_frames s.area qs)
          (subst (Holds s.machine ctxs held) (omega arith) h) in
      let child = phys_to_virt off (M.alloc_page s.machine).0 in
      let w1 = (M.alloc_page s.machine).1 in
      let (nctx, h2) = ample.create_context w1 ctxs (child ∷ held) (copy_frames s.area qs) h1 in
      let ctx = (M.create_context w1).0 in
      let s1 = record (set_space child (fresh_space ctx) s) { machine = (M.create_context w1).1 } in
      let ne : parent ≢ child = has-ne held parent child i out in
      let own : s1.spaces child ≡ fresh_space ctx = update_self s.spaces child (fresh_space ctx) in
      let kept : s1.spaces parent ≡ s.spaces parent =
        update_ne s.spaces child parent (fresh_space ctx) ne in
      let pending : Pending s1 child (s1.spaces parent).areas 0 [] qs (child ∷ held) = record {
        valid = record {
          chain = ap (λ (x : Space). x.areas) own;
          distinct = tt;
          ordered = tt;
          count = ap (λ (x : Space). x.area_count) own;
          total = ap (λ (x : Space). x.total_size) own;
        };
        chain = subst (λ (x : Space). Chain s.next x.areas qs) (sym kept) v.chain;
        ordered = v.ordered;
        ends = tt;
        copies_held = λ q j. absurd (false≢true j);
        left_held = λ q j. let held_q = sub q j in ground arith;
        apart = λ q j. refl;
      } in
      let (cs, s', eq, more) =
        copy_areas-Continued fuel child parent (s1.spaces parent).areas 0 [] qs (ctx ∷ ctxs)
          (child ∷ held) s1 pending (omega arith) ne
          (subst (λ (x : Space). has x.mmu_ctx (ctx ∷ ctxs) ≡ true) (sym own) (ground arith))
          (subst (λ (x : Space). has x.mmu_ctx (ctx ∷ ctxs) ≡ true) (sym kept) (ground arith)) h2 in
      let more_held : (q : ℕ) → has q held ≡ true → has q (child ∷ held) ≡ true =
        (λ q j. ground arith) in
      let others : (q : ℕ) → q ≢ child → s'.spaces q ≡ s.spaces q =
        (λ q n. more.spaces q n ∙ update_ne s.spaces child q (fresh_space ctx) n) in
      let same = others parent ne in
      (
        child,
        cs,
        s',
        rw (ne→== np, ne→== na, ne→== nctx) (rw (ne→== nc) (rw eq refl)),
        record {
          made = nc;
          new = out;
          valid = more.valid;
          maps = more.maps;
          parent_valid =
              IsValid-keep s s' parent qs (λ q j. more.links q (more_held q (sub q j)) refl)
                (λ q j. more.area q (more_held q (sub q j))) (ap (λ (x : Space). x.areas) same)
                (ap (λ (x : Space). x.area_count) same) (ap (λ (x : Space). x.total_size) same) v;
          area = λ q j. more.area q (more_held q j);
          links = λ q j. more.links q (more_held q j) refl;
          spaces = others;
        },
      )
