-- ===== src/Pmm/Pages/Fragmented.antt =====
-- `pmm_alloc_pages` on a stack that holds no run of frames in ascending order.
use spinix.Base.{
  ℕ, zero, suc, ◌+◌, ◌≤◌, ◌<◌, ◌≡◌, refl, sym, ap, ◌∙◌, ◌≢◌, ◌&&◌, ◌||◌, inl, inr, Bool, true,
  false, Bool-cases, none, List, [], ◌∷◌, arith, length, has, all-has, has-ne, Distinct, All, ltb,
  leb, ◌==◌, eq→==, add64, mul64, u64_mod,
}
use mathlib.Core.Bool.{false≢true}
use spinix.Base.Int.{pos}
use spinix.Pmm.{page_size, Pmm, phys_to_virt, virt_to_phys}
use spinix.Pmm.Frames.{Chain, InZone, ZoneValid, IsValid, Chain-keep, virt-ne}
use spinix.Pmm.Pages.{
  fault, contiguous, unlink, remove_run, finish, find_run, alloc_run, alloc_pages,
}

-- The list begins with `n` pages that follow one another from `a` on.
abbrev pub is_run : ℕ → ℕ → List ℕ → Bool
is_run zero a ps = true
is_run (suc n) a [] = false
is_run (suc n) a (p ∷ ps) = (p == a) && is_run n (add64 a page_size) ps

-- Somewhere in the list `n` pages follow one another.
abbrev pub has_run : ℕ → List ℕ → Bool
has_run n [] = false
has_run n (p ∷ ps) = is_run n p (p ∷ ps) || has_run n ps

-- What the code tests: as `is_run`, but a list that ends early passes.
passes : ℕ → ℕ → List ℕ → Bool
passes zero a ps = true
passes (suc n) a [] = true
passes (suc n) a (p ∷ ps) = (p == a) && passes n (add64 a page_size) ps

short_of_passes :
    (n a : ℕ) (ps : List ℕ) → passes n a ps ≡ true → is_run n a ps ≡ false → length ps < n
unfolding passes
short_of_passes zero a ps h k = absurd (false≢true (sym k))
short_of_passes (suc n) a [] h k = omega arith
short_of_passes (suc n) a (p ∷ ps) h k = ground (arith, short_of_passes n (add64 a page_size) ps)

module _ (off z : ℕ) (off_small : off < u64_mod) where
  contiguous-passes :
      (mem : ℕ → ℕ) (start n i v : ℕ) (ps : List ℕ)
      → Chain off mem v ps
      → All (InZone off z) ps
      → contiguous mem off start n i v ≡ passes n (add64 start (mul64 i page_size)) ps
  unfolding contiguous passes
  contiguous-passes mem start zero i v ps c hs = refl
  contiguous-passes mem start (suc n) i v [] c hs = rw (eq→== c)
  contiguous-passes mem start (suc n) i v (p ∷ ps) (e, c) (hp, hs) =
      let next : add64 start (mul64 (i + 1) page_size)
          ≡ add64 (add64 start (mul64 i page_size)) page_size =
        omega arith in
      let back : virt_to_phys off v ≡ p = omega arith in
      let ih =
        contiguous-passes mem start n (i + 1) (mem v) ps c hs ∙ ap (λ a. passes n a ps) next in
      let busy : (v == 0) ≡ false = ground arith in rw (busy, back) (ground (arith, ih))

  unlink-mem : (prev next a : ℕ) (s : Pmm) → a ≢ prev → (unlink z prev next s).mem a ≡ s.mem a
  unfolding unlink
  unlink-mem prev next a s ne = ground arith

  -- Taking `n` frames off a shorter stack reads through NULL.
  remove_run-short :
      (n prev v : ℕ) (ps : List ℕ) (s : Pmm)
      → Chain off s.mem v ps
      → All (InZone off z) ps
      → ((q : ℕ) → has q ps ≡ true → phys_to_virt off q ≢ prev)
      → length ps < n
      → remove_run z prev n v s ≡ none
  unfolding remove_run
  remove_run-short zero prev v ps s c hs apart lt = absurd (omega arith)
  remove_run-short (suc n) prev v [] s c hs apart lt = rw (eq→== c)
  remove_run-short (suc n) prev v (p ∷ ps) s (e, c) (hp, hs) apart lt =
      let busy : (v == 0) ≡ false = ground arith in
      rw busy (
        remove_run-short n prev (s.mem v) ps (unlink z prev (s.mem v) s)
          (Chain-keep off s.mem (unlink z prev (s.mem v) s).mem (s.mem v) ps
            (λ q i. unlink-mem prev (s.mem v) (phys_to_virt off q) s (apart q (ground arith))) c)
          hs (λ q i. apart q (ground arith)) (omega arith))

  -- The stack from the frame at `v` on holds no run, while `prev` lies outside it.
  record Walk (count prev v p : ℕ) (ps : List ℕ) (s : Pmm) : Type 0 where
    chain : Chain off s.mem v (p ∷ ps)
    frames : All (InZone off z) (p ∷ ps)
    distinct : Distinct (p ∷ ps)
    apart : (q : ℕ) → has q (p ∷ ps) ≡ true → phys_to_virt off q ≢ prev
    no_run : has_run count (p ∷ ps) ≡ false

  Walk-next :
      {count prev v p q : ℕ} {qs : List ℕ} {s : Pmm}
      → Walk count prev v p (q ∷ qs) s
      → Walk count v (s.mem v) q qs s
  Walk-next {p} {q} {qs} w = record {
    chain = w.chain.1;
    frames = w.frames.1;
    distinct = w.distinct.1;
    apart = λ r i e.
        virt-ne off p r w.frames.0 (all-has (InZone off z) (q ∷ qs) r w.frames.1 i)
          (has-ne (q ∷ qs) r p i w.distinct.0) (e ∙ w.chain.0);
    no_run = ground (arith, w.no_run);
  }

  check-passes :
      {count prev v p : ℕ} {ps : List ℕ} {s : Pmm}
      → Walk count prev v p ps s
      → contiguous s.mem off (virt_to_phys off v) count 0 v ≡ passes count p (p ∷ ps)
  check-passes {count} {v} {p} {ps} {s} w =
      let back : virt_to_phys off v ≡ p = omega (arith, w.chain.0, w.frames.0) in
      let same : add64 p (mul64 0 page_size) ≡ p = omega (arith, w.frames.0) in
      rw back (
        contiguous-passes s.mem p count 0 v (p ∷ ps) w.chain w.frames
        ∙ ap (λ a. passes count a (p ∷ ps)) same)

  -- Where the check passes, the stack is too short, and the removal faults.
  find_run-passing :
      {count prev v p : ℕ} {ps : List ℕ} {s : Pmm} (fuel : ℕ)
      → Walk count prev v p ps s
      → passes count p (p ∷ ps) ≡ true
      → find_run off z count (suc fuel) prev v s ≡ fault
  unfolding find_run finish
  find_run-passing {count} {prev} {v} {p} {ps} {s} fuel w h =
      let busy : (v == 0) ≡ false = ground (arith, w.chain.0, w.frames.0) in
      let short = short_of_passes count p (p ∷ ps) h (ground (arith, w.no_run)) in
      rw (
        busy,
        check-passes w ∙ h,
        remove_run-short count prev v (p ∷ ps) s w.chain w.frames w.apart short,
      )

  passes_last : (count p : ℕ) → 0 < count → passes count p (p ∷ []) ≡ true
  unfolding passes
  passes_last zero p h = absurd (omega arith)
  passes_last (suc zero) p h = ground arith
  passes_last (suc (suc n)) p h = ground arith

  -- The walk meets the last frame of the stack at the latest, and there the check passes.
  find_run-fault :
      (count fuel prev v p : ℕ) (ps : List ℕ) (s : Pmm)
      → 0 < count
      → Walk count prev v p ps s
      → length (p ∷ ps) ≤ fuel
      → find_run off z count fuel prev v s ≡ fault
  unfolding find_run
  find_run-fault count zero prev v p ps s one w lt = absurd (omega arith)
  find_run-fault count (suc fuel) prev v p [] s one w lt =
      find_run-passing fuel w (passes_last count p one)
  find_run-fault count (suc fuel) prev v p (q ∷ qs) s one w lt =
      elim (Bool-cases (passes count p (p ∷ q ∷ qs))) [
        | inl h ↦ find_run-passing fuel w h
        | inr h ↦
            let busy : (v == 0) ≡ false = ground (arith, w.chain.0, w.frames.0) in
            rw (busy, check-passes w ∙ h)
              (find_run-fault count fuel v (s.mem v) q qs s one (Walk-next w) (omega arith))
      ]

  whole_stack-fault :
      (fuel count : ℕ) (s : Pmm) (ps : List ℕ)
      → ZoneValid off s.mem (s.zones z) z ps
      → 0 < count
      → 0 < length ps
      → has_run count ps ≡ false
      → length ps ≤ fuel
      → find_run off z count fuel 0 (s.zones z).free_stack s ≡ fault
  whole_stack-fault fuel count s [] v one some_frame no_run fueled = absurd (omega arith)
  whole_stack-fault fuel count s (p ∷ ps) v one some_frame no_run fueled =
      find_run-fault count fuel 0 (s.zones z).free_stack p ps s one
        (record {
          chain = v.chain;
          frames = v.frames;
          distinct = v.distinct;
          apart = λ q i e. absurd (omega (arith, all-has (InZone off z) (p ∷ ps) q v.frames i));
          no_run = no_run;
        })
        fueled

  -- For at least two pages, in a valid allocator whose zone has that many free pages but nowhere on
  -- its stack a run of them in ascending order, and with fuel for the stack's length,
  -- pmm_alloc_pages ends in a read through a NULL frame pointer.
  pub alloc_pages-fault :
      (fuel count : ℕ) (s : Pmm) (free : ℕ → List ℕ)
      → IsValid off s free
      → z < 3
      → 2 ≤ count
      → count ≤ length (free z)
      → has_run count (free z) ≡ false
      → length (free z) ≤ fuel
      → alloc_pages fuel off count (pos z) s ≡ fault
  unfolding alloc_pages alloc_run
  alloc_pages-fault fuel count s free v lt two enough no_run fueled =
      let here = v z lt in
      let some_pages : (count == 0) ≡ false = ground arith in
      let many : (count == 1) ≡ false = ground arith in
      let inside : leb 3 z ≡ false = ground arith in
      let full : ltb (s.zones z).free_pages count ≡ false = ground (arith, here.count) in
      rw (some_pages, many, inside, full)
        (whole_stack-fault fuel count s (free z) here (omega arith) (omega arith) no_run fueled)
