-- ===== src/Sched/Keeps.antt =====
-- What `schedule` of kernel/core/scheduler.c leaves alone: the idle task, the counter of postponed
-- switches, and the priority of every task without what aging has added.
use spinix.Base.{
  ℕ, ◌≡◌, refl, ap, ◌∙◌, inl, inr, ◌&&◌, not, Bool, Bool-cases, Option, none, some, arith, ◌==◌,
  add64, sub64,
}
use spinix.Base.Int.{is_zero}
use spinix.Base.Memory.{update, update-field}
use spinix.Sched.{
  running, made_ready, Tcb, Sched, set_task, priority_to_queue, enqueue, add_to_ready_queue,
  find_highest, emptied, dequeue, remove_from_ready_queue, ran_for, charge, update_time_accounting,
}
use spinix.Sched.Switch.{
  switch_to_task, preempted, requeue_current, set_state, chosen, run, go_idle, choose, schedule,
}

-- The priority with which a task goes back to a queue.
abbrev pub settled : Tcb → ℕ
settled tcb = (preempted tcb).priority

pub record Keeps (s s' : Sched) : Type 0 where
  pub idle : s'.idle ≡ s.idle
  pub postpone : s'.postpone ≡ s.postpone
  pub level : (q : ℕ) → settled (s'.tasks q) ≡ settled (s.tasks q)

Keeps-refl : (s : Sched) → Keeps s s
Keeps-refl s = record { idle = refl; postpone = refl; level = λ q. refl }

Keeps-trans : {s s' s'' : Sched} → Keeps s s' → Keeps s' s'' → Keeps s s''
Keeps-trans k l = record {
  idle = l.idle ∙ k.idle;
  postpone = l.postpone ∙ k.postpone;
  level = λ q. l.level q ∙ k.level q;
}

-- One task changes, but not its level.
Keeps-task :
    (s s' : Sched) (t : ℕ) (tcb : Tcb)
    → s'.idle ≡ s.idle
    → s'.postpone ≡ s.postpone
    → s'.tasks ≡ update s.tasks t tcb
    → settled tcb ≡ settled (s.tasks t)
    → Keeps s s'
Keeps-task s s' t tcb i p e l = record {
  idle = i;
  postpone = p;
  level = λ q. ap (λ (f : ℕ → Tcb). settled (f q)) e ∙ update-field settled s.tasks t tcb q l;
}

charge-Keeps : (ns : ℕ) (s : Sched) → Keeps s (charge ns s)
charge-Keeps ns s =
    let t = s.current in
    let tcb = ran_for ns s.time_since_boot_ns (s.tasks t) in
    elim (Bool-cases (t == 0)) [
      | inl e ↦ rw (e, charge) (Keeps-refl s)
      | inr e ↦ elim (Bool-cases (t == s.idle)) [
        | inl f ↦
            let st = s.stats in
            let s' = record s {
              tasks = update s.tasks t tcb;
              stats = record st { idle_time_ns = add64 st.idle_time_ns ns };
            } in
            rw (e, f, charge) (Keeps-task s s' t tcb refl refl refl refl)
        | inr f ↦ rw (e, f, charge) (Keeps-task s (set_task t tcb s) t tcb refl refl refl refl)
      ]
    ]

account-Keeps : (to_ns : ℕ → ℕ) (tsc : ℕ) (s : Sched) → Keeps s (update_time_accounting to_ns tsc s)
unfolding update_time_accounting
account-Keeps to_ns tsc s =
    let ns = to_ns (sub64 tsc s.last_tsc) in
    let k =
      charge-Keeps ns
        (record s { last_tsc = tsc; time_since_boot_ns = add64 s.time_since_boot_ns ns }) in
    record { idle = k.idle; postpone = k.postpone; level = k.level }

enqueue-Keeps : (i t : ℕ) (s : Sched) → Keeps s (enqueue i t s)
enqueue-Keeps i t s = elim (Bool-cases (s.heads i == 0)) [
  | inl e ↦ rw (e, enqueue) record { idle = refl; postpone = refl; level = λ q. refl }
  | inr e ↦ rw (e, enqueue) record { idle = refl; postpone = refl; level = λ q. refl }
]

add-Keeps : (t : ℕ) (s : Sched) → Keeps s (add_to_ready_queue t s)
unfolding add_to_ready_queue
add-Keeps t s =
    let tcb = made_ready (s.tasks t) in
    let s1 = record s { next = update s.next t 0; tasks = update s.tasks t tcb } in
    Keeps-trans (Keeps-task s s1 t tcb refl refl refl refl)
      (enqueue-Keeps (priority_to_queue (s.tasks t).priority) t s1)

emptied-Keeps : (i : ℕ) (s : Sched) → Keeps s (emptied i s)
emptied-Keeps i s = elim (Bool-cases (s.heads i == 0)) [
  | inl e ↦ rw (e, emptied) record { idle = refl; postpone = refl; level = λ q. refl }
  | inr e ↦ rw (e, emptied) (Keeps-refl s)
]

remove-Keeps : (s : Sched) → Keeps s ((remove_from_ready_queue s).1)
unfolding remove_from_ready_queue
remove-Keeps s = go (find_highest s.bitmap)
  where
    go :
        (o : Option ℕ)
        → Keeps s ((elim o as (λ _. ℕ × Sched) [ none ↦ (0, s) | some i ↦ dequeue i s ]).1)
    go none = Keeps-refl s
    go (some i) =
        let k = emptied-Keeps i (record s { heads = update s.heads i (s.next (s.heads i)) }) in
        record { idle = k.idle; postpone = k.postpone; level = k.level }

chosen-Keeps : (t : ℕ) (s : Sched) → Keeps s (chosen t s)
chosen-Keeps t s =
    let tcb = s.tasks t in
    Keeps-task s (chosen t s) t (record tcb { switch_count = add64 tcb.switch_count 1 }) refl refl
      refl refl

state-Keeps : (state t : ℕ) (s : Sched) → Keeps s (set_state state t s)
state-Keeps state t s =
    let tcb = s.tasks t in
    Keeps-task s (set_state state t s) t (record tcb { state = state }) refl refl refl refl

settled-preempted : (tcb : Tcb) → settled (preempted tcb) ≡ settled tcb
settled-preempted tcb = ground arith

requeue-Keeps : (s : Sched) → Keeps s (requeue_current s)
unfolding requeue_current
requeue-Keeps s =
    let t = s.current in
    let tcb = preempted (s.tasks t) in
    elim (Bool-cases (not (t == 0) && (s.tasks t).state == running && not (t == s.idle))) [
      | inl e ↦ rw e (
          Keeps-trans
            (Keeps-task s (set_task t tcb s) t tcb refl refl refl (settled-preempted (s.tasks t)))
            (add-Keeps t (set_task t tcb s)))
      | inr e ↦ rw e (Keeps-refl s)
    ]

switch-Keeps : (t : ℕ) (s : Sched) → Keeps s (switch_to_task t s)
unfolding switch_to_task
switch-Keeps t s = elim (Bool-cases (t == 0)) [
  | inl e ↦ rw e (Keeps-refl s)
  | inr e ↦ rw e record { idle = refl; postpone = refl; level = λ q. refl }
]

-- A result keeps what `Keeps` says, if there is one.
abbrev pub Kept : Sched → Option (Bool × Sched) → Type 0
Kept s none = Unit
Kept s (some (b, s')) = Keeps s s'

run-Kept : (s0 s : Sched) (t : ℕ) → Keeps s0 s → Kept s0 (run t s)
unfolding run
run-Kept s0 s t k =
    let all = Keeps-trans k (
      Keeps-trans (requeue-Keeps s) (
        Keeps-trans (state-Keeps running t (requeue_current s))
          (switch-Keeps t (set_state running t (requeue_current s))))) in
    elim (Bool-cases (t == 0)) [ inl e ↦ rw e tt | inr e ↦ rw e all ]

idle-Kept : (s0 s : Sched) → Keeps s0 s → Kept s0 (go_idle s)
unfolding go_idle
idle-Kept s0 s k =
    let s1 = record s { time_slice_ns = 0 } in
    let k1 : Keeps s0 s1 = record { idle = k.idle; postpone = k.postpone; level = k.level } in
    let rest = run-Kept s0 s1 s.idle k1 in
    elim (Bool-cases (s.current == s.idle)) [
      | inl e ↦ elim (Bool-cases (s.current == 0)) [
        | inl f ↦ rw (e, f) tt
        | inr f ↦ elim (Bool-cases ((s.tasks s.current).state == running)) [
          | inl g ↦ rw (e, f, g) k1
          | inr g ↦ rw (e, f, g) rest
        ]
      ]
      | inr e ↦ rw e rest
    ]

pub schedule-Kept : (to_ns : ℕ → ℕ) (tsc : ℕ) (s : Sched) → Kept s (schedule to_ns tsc s)
unfolding schedule choose
schedule-Kept to_ns tsc s =
    let s0 = update_time_accounting to_ns tsc s in
    let u = (remove_from_ready_queue s0).1 in
    let t = (remove_from_ready_queue s0).0 in
    let k = Keeps-trans (account-Keeps to_ns tsc s) (remove-Keeps s0) in
    elim (Bool-cases (is_zero s.postpone)) [
      | inl e ↦ elim (Bool-cases (t == 0)) [
        | inl f ↦ rw (e, f) (idle-Kept s u k)
        | inr f ↦ rw (e, f) (run-Kept s (chosen t u) t (Keeps-trans k (chosen-Keeps t u)))
      ]
      | inr e ↦ rw e record { idle = refl; postpone = refl; level = λ q. refl }
    ]
