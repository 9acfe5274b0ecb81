-- ===== src/Sched/Queues/Remove.antt =====
-- `remove_from_ready_queue` of kernel/core/scheduler.c against the lists of tasks.
use spinix.Base.{
  ℕ, zero, suc, ◌≡◌, ◌<◌, ◌≤◌, refl, sym, ap, ◌∙◌, ◌⊎◌, inl, inr, not, Bool, true, false,
  Bool-cases, none, some, List, [], ◌∷◌, arith, ltb, ◌==◌, ==→eq,
}
use mathlib.Core.Path.{subst}
use mathlib.Core.Bool.{false≢true}
use spinix.Base.Memory.{update, update_self, update_one, update_both}
use spinix.Base.Chain.{Chain}
use spinix.Sched.{
  Sched, queue_count, emptied, dequeue, highest_below, find_highest, remove_from_ready_queue,
}
use spinix.Sched.Lists.{
  IsLists, last, is_empty, last-more, Lists-head, Lists-tail, Chain-is_empty, is_empty→eq,
}
use spinix.Sched.Queues.{all_heads, IsValid, heads-set, ready_head}

-- The highest bit below `n` that is set, if one is.
highest_cases :
    (n : ℕ) (bits : ℕ → Bool)
    → ((highest_below n bits ≡ none) × ((i : ℕ) → i < n → bits i ≡ false))
      ⊎ ((i : ℕ) × (highest_below n bits ≡ some i)
          × (i < n)
          × (bits i ≡ true)
          × ((j : ℕ) → i < j → j < n → bits j ≡ false))
unfolding highest_below
highest_cases zero bits = inl (refl, λ i lt. absurd (omega arith))
highest_cases (suc n) bits = elim (Bool-cases (bits n)) [
  | inl e ↦ inr (n, (rw e), omega arith, e, λ j lo hi. absurd (omega arith))
  | inr e ↦ elim (highest_cases n bits) [
    | inl (h, clear) ↦ inl ((rw e h), λ i lt. below 0 e (λ k lo hi. clear k hi) i (omega arith) lt)
    | inr (i, h, lt, bit, clear) ↦ inr (
      i,
      (rw e h),
      omega arith,
      bit,
      λ j lo hi. below (suc i) e (λ k lo' hi'. clear k (omega arith) hi') j (omega arith) hi,
    )
  ]
]
  where
    below :
        (low : ℕ)
        → bits n ≡ false
        → ((i : ℕ) → low ≤ i → i < n → bits i ≡ false)
        → (i : ℕ) → low ≤ i
        → i < suc n
        → bits i ≡ false
    below low e clear i lo hi = elim (Bool-cases (i == n)) [
      | inl f ↦ ap bits (==→eq i n f) ∙ e
      | inr f ↦ clear i lo (ground arith)
    ]

pub remove_some :
    (s : Sched) (i : ℕ) → find_highest s.bitmap ≡ some i → remove_from_ready_queue s ≡ dequeue i s
unfolding remove_from_ready_queue
remove_some s i h = rw (h, remove_from_ready_queue)

remove_none : (s : Sched) → find_highest s.bitmap ≡ none → remove_from_ready_queue s ≡ (0, s)
unfolding remove_from_ready_queue
remove_none s h = rw (h, remove_from_ready_queue)

-- What a removal leaves alone.
pub record SameTasks (s s' : Sched) : Type 0 where
  pub tasks : s'.tasks ≡ s.tasks
  pub current : s'.current ≡ s.current
  pub idle : s'.idle ≡ s.idle
  pub postpone : s'.postpone ≡ s.postpone

module _ (s : Sched) (ls : ℕ → List ℕ) (v : IsValid s ls) where
  dequeue-IsValid :
      (i t : ℕ) (ts : List ℕ)
      → i < queue_count
      → ls i ≡ t ∷ ts
      → ((dequeue i s).0 ≡ t)
        × IsValid ((dequeue i s).1) (update ls i ts)
        × SameTasks s ((dequeue i s).1)
  dequeue-IsValid i t ts lt e =
      let heads = all_heads s.heads s.sleeping s.terminated in
      let h = s.heads i in
      let c = subst (Chain s.next (heads i)) e (v.lists.chain i) in
      let first : h ≡ t = sym (ready_head s.heads s.sleeping s.terminated i lt) ∙ c.0 in
      let rest : is_empty ts ≡ (s.next h == 0) =
        Chain-is_empty s.next (s.next t) ts (c.2) ∙ ap (λ p. s.next p == 0) (sym first) in
      let new = update s.heads i (s.next h) in
      let test : (new i == 0) ≡ is_empty ts =
        ap (λ p. p == 0) (update_self s.heads i (s.next h)) ∙ sym rest in
      let lists =
        Lists-head (update s.next h 0) (update heads i (s.next h)) (update ls i ts)
          (subst (λ p. IsLists (update s.next p 0) (update heads i (s.next p)) (update ls i ts))
            (sym first) (Lists-tail s.next heads ls v.lists i t ts e))
          (all_heads new s.sleeping s.terminated)
          (λ j. heads-set s.heads s.sleeping s.terminated i (s.next h) j lt) in
      elim (Bool-cases (is_empty ts)) [
        | inl z ↦
            let hit : (new i == 0) ≡ true = test ∙ z in
            let none_left = is_empty→eq ts z in
            (
              first,
              rw (hit, emptied)
                  record {
                    lists = lists;
                    tail =
                        update_both (λ j a b. j < queue_count → a ≡ last b) s.tails ls i 0 ts
                          (λ _. sym (ap last none_left)) (λ j ne. v.tail j);
                    bit =
                        update_both (λ j a b. j < queue_count → a ≡ not (is_empty b)) s.bitmap ls i
                          false ts (λ _. sym (ap not z)) (λ j ne. v.bit j);
                  },
              rw (hit, emptied)
                  record { tasks = refl; current = refl; idle = refl; postpone = refl },
            )
        | inr z ↦
            let miss : (new i == 0) ≡ false = test ∙ z in
            (
              first,
              rw (miss, emptied)
                  record {
                    lists = lists;
                    tail =
                        update_one (λ j l. j < queue_count → s.tails j ≡ last l) ls i ts
                          (λ _. v.tail i lt ∙ ap last e ∙ last-more t ts z) (λ j ne. v.tail j);
                    bit =
                        update_one (λ j l. j < queue_count → s.bitmap j ≡ not (is_empty l)) ls i ts
                          (λ _. v.bit i lt ∙ ap (λ l. not (is_empty l)) e ∙ sym (ap not z))
                          (λ j ne. v.bit j);
                  },
              rw (miss, emptied)
                  record { tasks = refl; current = refl; idle = refl; postpone = refl },
            )
      ]

  empty_of : (i : ℕ) → i < queue_count → s.bitmap i ≡ false → ls i ≡ []
  empty_of i lt e =
      let b : not (is_empty (ls i)) ≡ false = sym (v.bit i lt) ∙ e in
      is_empty→eq (ls i) (ground arith)

  full_of :
      (i : ℕ) → i < queue_count → s.bitmap i ≡ true → (t : ℕ) × (ts : List ℕ) × (ls i ≡ t ∷ ts)
  full_of i lt e = split (ls i) (sym (v.bit i lt) ∙ e)
    where
      split : (l : List ℕ) → not (is_empty l) ≡ true → (t : ℕ) × (ts : List ℕ) × (l ≡ t ∷ ts)
      split [] h = absurd (false≢true h)
      split (t ∷ ts) h = (t, ts, refl)

  -- In valid queues, remove_from_ready_queue takes the first task of the highest queue with a task
  -- and changes no task, or returns NULL and changes nothing if all queues are empty.
  pub remove_lem :
      (((i : ℕ) → i < queue_count → ls i ≡ []) × (remove_from_ready_queue s ≡ (0, s)))
      ⊎ ((i : ℕ) × (t : ℕ) × (ts : List ℕ) × (i < queue_count)
          × (ls i ≡ t ∷ ts)
          × ((j : ℕ) → i < j → j < queue_count → ls j ≡ [])
          × ((remove_from_ready_queue s).0 ≡ t)
          × IsValid ((remove_from_ready_queue s).1) (update ls i ts)
          × SameTasks s ((remove_from_ready_queue s).1))
  unfolding find_highest
  remove_lem = elim (highest_cases queue_count s.bitmap) [
    | inl (h, clear) ↦ inl ((λ i lt. empty_of i lt (clear i lt)), remove_none s h)
    | inr (i, h, lt, bit, clear) ↦
        let (t, ts, e) = full_of i lt bit in
        let (first, w, same) =
          subst (λ (r : ℕ × Sched). (r.0 ≡ t) × IsValid (r.1) (update ls i ts) × SameTasks s (r.1))
            (sym (remove_some s i h)) (dequeue-IsValid i t ts lt e) in
        inr (i, t, ts, lt, e, (λ j lo hi. empty_of j hi (clear j lo hi)), first, w, same)
  ]

-- The bitmap shows the highest queue with a task.
pub find_highest-IsValid :
    (s : Sched) (ls : ℕ → List ℕ) (v : IsValid s ls) (i t : ℕ) (ts : List ℕ)
    → i < queue_count
    → ls i ≡ t ∷ ts
    → ((j : ℕ) → i < j → j < queue_count → ls j ≡ [])
    → find_highest s.bitmap ≡ some i
unfolding find_highest
find_highest-IsValid s ls v i t ts lt e higher =
    let set : s.bitmap i ≡ true = v.bit i lt ∙ ap (λ l. not (is_empty l)) e in
    elim (highest_cases queue_count s.bitmap) [
      | inl (_, clear) ↦ absurd (false≢true (sym (clear i lt) ∙ set))
      | inr (j, h, small, bit, clear) ↦
          h
          ∙ ap some (elim (Bool-cases (ltb i j)) [
            | inl f ↦
                let off : s.bitmap j ≡ false =
                  v.bit j small ∙ ap (λ l. not (is_empty l)) (higher j (ground arith) small) in
                absurd (false≢true (sym off ∙ bit))
            | inr f ↦ elim (Bool-cases (ltb j i)) [
              | inl g ↦ absurd (false≢true (sym (clear i (ground arith) lt) ∙ set))
              | inr g ↦ ground arith
            ]
          ])
    ]
