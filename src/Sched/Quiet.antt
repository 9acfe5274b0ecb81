-- ===== src/Sched/Quiet.antt =====
-- What the accounting of kernel/core/scheduler.c leaves alone.
use spinix.Base.{ℕ, ◌≡◌, refl, ap, ◌∙◌, inl, inr, Bool-cases, List, ◌==◌, add64, sub64}
use spinix.Base.Memory.{update, update-field}
use spinix.Sched.{
  Tcb, Sched, SchedStats, calculate_time_slice, ran_for, charge, update_time_accounting,
}
use spinix.Sched.Queues.{IsValid}
use spinix.Sched.Queues.Remove.{SameTasks}
use spinix.Sched.Switch.{chosen}

-- What an accounting step leaves alone: the queues, and of the tasks all but their counters.
pub record Quiet (s s' : Sched) : Type 0 where
  pub next : s'.next ≡ s.next
  pub heads : s'.heads ≡ s.heads
  pub tails : s'.tails ≡ s.tails
  pub bitmap : s'.bitmap ≡ s.bitmap
  pub sleeping : s'.sleeping ≡ s.sleeping
  pub terminated : s'.terminated ≡ s.terminated
  pub current : s'.current ≡ s.current
  pub idle : s'.idle ≡ s.idle
  pub state : (t : ℕ) → (s'.tasks t).state ≡ (s.tasks t).state
  pub priority : (t : ℕ) → (s'.tasks t).priority ≡ (s.tasks t).priority
  pub base : (t : ℕ) → (s'.tasks t).base_priority ≡ (s.tasks t).base_priority
  pub expiry : (t : ℕ) → (s'.tasks t).sleep_expiry_ns ≡ (s.tasks t).sleep_expiry_ns

pub Quiet-IsValid : (s s' : Sched) (ls : ℕ → List ℕ) → Quiet s s' → IsValid s ls → IsValid s' ls
Quiet-IsValid s s' ls q v = rw (q.next, q.heads, q.tails, q.bitmap, q.sleeping, q.terminated) v

-- A task with the same state and priorities, and other counters.
pub touch-Quiet :
    (s : Sched) (t : ℕ) (tcb : Tcb) (stats : SchedStats) (slice : ℕ)
    → tcb.state ≡ (s.tasks t).state
    → tcb.priority ≡ (s.tasks t).priority
    → tcb.base_priority ≡ (s.tasks t).base_priority
    → tcb.sleep_expiry_ns ≡ (s.tasks t).sleep_expiry_ns
    → Quiet s (record s { tasks = update s.tasks t tcb; stats = stats; time_slice_ns = slice })
touch-Quiet s t tcb stats slice st pr ba ex = record {
  next = refl;
  heads = refl;
  tails = refl;
  bitmap = refl;
  sleeping = refl;
  terminated = refl;
  current = refl;
  idle = refl;
  state = λ p. update-field (λ (x : Tcb). x.state) s.tasks t tcb p st;
  priority = λ p. update-field (λ (x : Tcb). x.priority) s.tasks t tcb p pr;
  base = λ p. update-field (λ (x : Tcb). x.base_priority) s.tasks t tcb p ba;
  expiry = λ p. update-field (λ (x : Tcb). x.sleep_expiry_ns) s.tasks t tcb p ex;
}

Quiet-refl : (s : Sched) → Quiet s s
Quiet-refl s = record {
  next = refl;
  heads = refl;
  tails = refl;
  bitmap = refl;
  sleeping = refl;
  terminated = refl;
  current = refl;
  idle = refl;
  state = λ p. refl;
  priority = λ p. refl;
  base = λ p. refl;
  expiry = λ p. refl;
}

charge-Quiet : (ns : ℕ) (s : Sched) → Quiet s (charge ns s)
charge-Quiet ns s =
    let t = s.current in
    let tcb = ran_for ns s.time_since_boot_ns (s.tasks t) in
    let st = s.stats in
    let idler = record st { idle_time_ns = add64 st.idle_time_ns ns } in
    elim (Bool-cases (t == 0)) [
      | inl e ↦ rw (e, charge) (Quiet-refl s)
      | inr e ↦ elim (Bool-cases (t == s.idle)) [
        | inl f ↦ rw (e, f, charge) (touch-Quiet s t tcb idler s.time_slice_ns refl refl refl refl)
        | inr f ↦ rw (e, f, charge) (touch-Quiet s t tcb st s.time_slice_ns refl refl refl refl)
      ]
    ]

pub account-Quiet :
    (to_ns : ℕ → ℕ) (tsc : ℕ) (s : Sched) → Quiet s (update_time_accounting to_ns tsc s)
unfolding update_time_accounting
account-Quiet to_ns tsc s =
    let ns = to_ns (sub64 tsc s.last_tsc) in
    let q =
      charge-Quiet ns
        (record s { last_tsc = tsc; time_since_boot_ns = add64 s.time_since_boot_ns ns }) in
    record {
      next = q.next;
      heads = q.heads;
      tails = q.tails;
      bitmap = q.bitmap;
      sleeping = q.sleeping;
      terminated = q.terminated;
      current = q.current;
      idle = q.idle;
      state = q.state;
      priority = q.priority;
      base = q.base;
      expiry = q.expiry;
    }

pub chosen-Quiet : (t : ℕ) (s : Sched) → Quiet s (chosen t s)
chosen-Quiet t s =
    let tcb = s.tasks t in
    let st = s.stats in
    touch-Quiet s t (record tcb { switch_count = add64 tcb.switch_count 1 })
      (record st { total_switches = add64 st.total_switches 1 }) (calculate_time_slice tcb.priority)
      refl refl refl refl

-- What the choice of a task depends on, besides the queues.
pub record Like (s s' : Sched) : Type 0 where
  pub current : s'.current ≡ s.current
  pub idle : s'.idle ≡ s.idle
  pub state : (t : ℕ) → (s'.tasks t).state ≡ (s.tasks t).state
  pub priority : (t : ℕ) → (s'.tasks t).priority ≡ (s.tasks t).priority
  pub base : (t : ℕ) → (s'.tasks t).base_priority ≡ (s.tasks t).base_priority

pub Like-trans : (s s' s'' : Sched) → Like s s' → Like s' s'' → Like s s''
Like-trans s s' s'' l m = record {
  current = m.current ∙ l.current;
  idle = m.idle ∙ l.idle;
  state = λ t. m.state t ∙ l.state t;
  priority = λ t. m.priority t ∙ l.priority t;
  base = λ t. m.base t ∙ l.base t;
}

pub Like-Quiet : (s s' : Sched) → Quiet s s' → Like s s'
Like-Quiet s s' q = record {
  current = q.current;
  idle = q.idle;
  state = q.state;
  priority = q.priority;
  base = q.base;
}

pub Like-tasks :
    (s s' : Sched) → s'.current ≡ s.current → s'.idle ≡ s.idle → s'.tasks ≡ s.tasks → Like s s'
Like-tasks s s' c i e = record {
  current = c;
  idle = i;
  state = λ t. ap (λ (x : ℕ → Tcb). (x t).state) e;
  priority = λ t. ap (λ (x : ℕ → Tcb). (x t).priority) e;
  base = λ t. ap (λ (x : ℕ → Tcb). (x t).base_priority) e;
}

pub Like-same : (s s' : Sched) → SameTasks s s' → Like s s'
Like-same s s' q = Like-tasks s s' q.current q.idle q.tasks
