-- ===== src/Sched/Queues.antt =====
-- The ready queues of kernel/core/scheduler.c refine lists of tasks by priority.
pub mod Remove
use spinix.Base.{
  ℕ, zero, suc, ◌≡◌, ◌<◌, ◌≤◌, refl, sym, ap, ◌∙◌, ◌≢◌, ◌⊎◌, inl, inr, not, Bool, true, false,
  Bool-cases, none, some, List, [], ◌∷◌, ◌++◌, arith, ltb, ◌==◌, ==→eq, if◌then◌else◌,
}
use mathlib.Core.Path.{subst}
use mathlib.Core.Bool.{false≢true}
use spinix.Base.Memory.{update, update_self, update_one, update_both}
use spinix.Base.Chain.{Chain}
use spinix.Sched.{
  Sched, queue_count, priority_to_queue, made_ready, enqueue, add_to_ready_queue, emptied, dequeue,
  highest_below, find_highest, remove_from_ready_queue,
}
use spinix.Sched.Lists.{
  IsLists, Free, last, is_empty, last-append, last-more, is_empty-append, Lists-head, Lists-Free,
  Lists-single, Lists-snoc, Lists-tail, tail-Free, Chain-is_empty, is_empty→eq,
}

abbrev pub sleep_list : ℕ
sleep_list = 8

abbrev pub terminated_list : ℕ
terminated_list = 9

-- The heads of the ready queues, of the sleep list and of the list of terminated tasks.
abbrev pub all_heads : (ℕ → ℕ) → ℕ → ℕ → ℕ → ℕ
all_heads heads sleeping terminated i =
    if i == sleep_list then sleeping else if i == terminated_list then terminated else heads i

-- The links make up the lists `ls`, and the tails and bits of the ready queues belong to them.
pub record AreQueues (next heads tails : ℕ → ℕ) (bitmap : ℕ → Bool) (sleeping terminated : ℕ)
    (ls : ℕ → List ℕ) : Type 0 where
  pub lists : IsLists next (all_heads heads sleeping terminated) ls
  pub tail : (i : ℕ) → i < queue_count → tails i ≡ last (ls i)
  pub bit : (i : ℕ) → i < queue_count → bitmap i ≡ not (is_empty (ls i))

abbrev pub IsValid : Sched → (ℕ → List ℕ) → Type 0
IsValid s ls = AreQueues s.next s.heads s.tails s.bitmap s.sleeping s.terminated ls

-- The abstract scheduler: a task joins a list at the end.
abbrev pub append_to : (ℕ → List ℕ) → ℕ → ℕ → ℕ → List ℕ
append_to ls i t = update ls i (ls i ++ t ∷ [])

pub queue_small : (p : ℕ) → p < 256 → priority_to_queue p < queue_count
unfolding priority_to_queue
queue_small p lt = omega arith

module _ (heads : ℕ → ℕ) (sleeping terminated : ℕ) where
  pub heads-set :
      (i t j : ℕ)
      → i < queue_count
      → all_heads (update heads i t) sleeping terminated j
        ≡ update (all_heads heads sleeping terminated) i t j
  heads-set i t j lt = ground arith

  pub ready_head : (i : ℕ) → i < queue_count → all_heads heads sleeping terminated i ≡ heads i
  ready_head i lt = ground arith

module _ (s : Sched) (ls : ℕ → List ℕ) (v : IsValid s ls) where
  is_empty-head : (i : ℕ) → i < queue_count → is_empty (ls i) ≡ (s.heads i == 0)
  is_empty-head i lt = Chain-is_empty s.next (s.heads i) (ls i) (
      subst (λ h. Chain s.next h (ls i)) (ready_head s.heads s.sleeping s.terminated i lt)
        (v.lists.chain i))

  -- The tails and bits after a task has joined list `i`.
  tails-append :
      (i t : ℕ) (j : ℕ) → j < queue_count → update s.tails i t j ≡ last (append_to ls i t j)
  tails-append i t =
      update_both (λ j a b. j < queue_count → a ≡ last b) s.tails ls i t (ls i ++ t ∷ [])
        (λ _. sym (last-append (ls i) t)) (λ j ne. v.tail j)

  pub enqueue-IsValid :
      (i t : ℕ)
      → i < queue_count
      → Free ls t
      → t ≢ 0
      → s.next t ≡ 0
      → IsValid (enqueue i t s) (append_to ls i t)
  enqueue-IsValid i t lt free nt z =
      let heads = all_heads s.heads s.sleeping s.terminated in
      elim (Bool-cases (s.heads i == 0)) [
        | inl e ↦
            rw (e, enqueue)
              record {
                lists =
                    Lists-head s.next (update heads i t) (append_to ls i t)
                      (Lists-single s.next heads ls v.lists i t free nt
                        (is_empty→eq (ls i) (is_empty-head i lt ∙ e)) z)
                      (all_heads (update s.heads i t) s.sleeping s.terminated)
                      (λ j. heads-set s.heads s.sleeping s.terminated i t j lt);
                tail = tails-append i t;
                bit =
                    update_both (λ j a b. j < queue_count → a ≡ not (is_empty b)) s.bitmap ls i true
                      (ls i ++ t ∷ []) (λ _. sym (ap not (is_empty-append (ls i) t)))
                      (λ j ne. v.bit j);
              }
        | inr e ↦
            let full : is_empty (ls i) ≡ false = is_empty-head i lt ∙ e in
            rw (e, enqueue)
              record {
                lists =
                    subst (λ q. IsLists (update s.next q t) heads (append_to ls i t))
                      (sym (v.tail i lt)) (Lists-snoc s.next heads ls v.lists i t free nt full z);
                tail = tails-append i t;
                bit =
                    update_one (λ j l. j < queue_count → s.bitmap j ≡ not (is_empty l)) ls i
                      (ls i ++ t ∷ [])
                      (λ _. v.bit i lt ∙ ap not (full ∙ sym (is_empty-append (ls i) t)))
                      (λ j ne. v.bit j);
              }
      ]

-- In valid queues, add_to_ready_queue of a task on no list, with a priority below 256, puts it at
-- the end of the queue of its priority and keeps the queues valid.
pub add-IsValid :
    (s : Sched) (ls : ℕ → List ℕ) (t : ℕ)
    → IsValid s ls
    → (s.tasks t).priority < 256
    → Free ls t
    → t ≢ 0
    → IsValid (add_to_ready_queue t s) (append_to ls (priority_to_queue (s.tasks t).priority) t)
unfolding add_to_ready_queue
add-IsValid s ls t v lt free nt =
    let heads = all_heads s.heads s.sleeping s.terminated in
    enqueue-IsValid
      (record s { next = update s.next t 0; tasks = update s.tasks t (made_ready (s.tasks t)) }) ls
      record { lists = Lists-Free s.next heads ls v.lists t 0 free; tail = v.tail; bit = v.bit }
      (priority_to_queue (s.tasks t).priority) t (queue_small (s.tasks t).priority lt) free nt
      (update_self s.next t 0)

-- A listed task is not NULL.
pub head-nonzero :
    (s : Sched) (ls : ℕ → List ℕ) (v : IsValid s ls) (i t : ℕ) (ts : List ℕ)
    → i < queue_count
    → ls i ≡ t ∷ ts
    → t ≢ 0
head-nonzero s ls v i t ts lt e =
    (tail-Free s.next (all_heads s.heads s.sleeping s.terminated) ls v.lists i t ts e).1

-- A change of a list that is not a ready queue.
pub Queues-other :
    (s : Sched) (ls : ℕ → List ℕ) (v : IsValid s ls) (i : ℕ) (l : List ℕ) (next' : ℕ → ℕ)
    (sleeping' terminated' : ℕ)
    → queue_count ≤ i
    → IsLists next' (all_heads s.heads sleeping' terminated') (update ls i l)
    → AreQueues next' s.heads s.tails s.bitmap sleeping' terminated' (update ls i l)
Queues-other s ls v i l next' sleeping' terminated' le w = record {
  lists = w;
  tail =
      update_one (λ j l. j < queue_count → s.tails j ≡ last l) ls i l (λ lt. absurd (omega arith))
        (λ j ne. v.tail j);
  bit =
      update_one (λ j l. j < queue_count → s.bitmap j ≡ not (is_empty l)) ls i l
        (λ lt. absurd (omega arith)) (λ j ne. v.bit j);
}

pub heads-sleeping :
    (heads : ℕ → ℕ) (sleeping terminated x j : ℕ)
    → all_heads heads x terminated j ≡ update (all_heads heads sleeping terminated) sleep_list x j
heads-sleeping heads sleeping terminated x j = ground arith

pub heads-terminated :
    (heads : ℕ → ℕ) (sleeping terminated x j : ℕ)
    → all_heads heads sleeping x j
      ≡ update (all_heads heads sleeping terminated) terminated_list x j
heads-terminated heads sleeping terminated x j = ground arith
