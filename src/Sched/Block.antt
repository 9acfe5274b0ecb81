-- ===== src/Sched/Block.antt =====
-- `block_task`, `yield` and `nano_sleep_until` of kernel/core/scheduler.c. Outside a call
-- `postpone_task_switches` is 0 for a task that was switched away from in `unlock_scheduler`, and -1
-- for one that was switched away from under a lock, or has just been started.
use spinix.Base.{
  ℕ, ◌≡◌, refl, sym, ap, ◌∙◌, ◌≢◌, ◌⊎◌, inl, inr, Bool, true, false, Bool-cases, Option, some, List,
  ne→==, ◌>>=◌, add64,
}
use mathlib.Core.Path.{subst}
use spinix.Base.Int.{ℤ, pos, negsuc, ◌+ℤ◌, ◌-ℤ◌, is_zero}
use spinix.Base.Memory.{update-field, update_self}
use spinix.Sched.{running, Tcb, Sched, set_task}
use spinix.Sched.Switch.{
  set_state, lock_scheduler, schedule, unlock_scheduler, then_unlock, yield_task, block_task,
}
use spinix.Sched.Queues.{IsValid, append_to}
use spinix.Sched.Quiet.{Like-tasks, Like-Quiet, touch-Quiet}
use spinix.Sched.Requeue.{
  Runs, Stopped, home, Runs-Requeues, Stopped-Requeues, Requeues, Requeues-Like,
}
use spinix.Sched.Choice.{Switches, Switches-same, schedule-Switches}

-- The values of the counter outside a call.
abbrev pub AtRest : ℤ → Type 0
AtRest z = (z ≡ pos 0) ⊎ (z ≡ negsuc 0)

up_0 : {z : ℤ} → z ≡ pos 0 → is_zero (z +ℤ pos 1) ≡ false
unfolding ◌+ℤ◌
up_0 e = rw e refl

pub up_down_0 : {z : ℤ} → z ≡ pos 0 → is_zero ((z +ℤ pos 1) -ℤ pos 1) ≡ true
unfolding ◌+ℤ◌ ◌-ℤ◌
up_down_0 e = rw e refl

up_negative : {z : ℤ} → z ≡ negsuc 0 → is_zero (z +ℤ pos 1) ≡ true
unfolding ◌+ℤ◌
up_negative e = rw e refl

-- The state in which a locked call of `schedule` is made up for on the last unlock.
abbrev pub relocked : Sched → Sched
relocked s = record s {
  postpone = (s.postpone +ℤ pos 1) -ℤ pos 1;
  lock_count = (s.lock_count +ℤ pos 1) -ℤ pos 1;
  postponed = false;
}

module _ (to_ns : ℕ → ℕ) (tsc : ℕ) (s : Sched) where
  -- A `schedule` under a lock, taken at 0.
  pub locked_schedule_0 :
      s.postpone ≡ pos 0
      → schedule to_ns tsc (lock_scheduler s)
        ≡ some (false, record (lock_scheduler s) { postponed = true })
  unfolding schedule
  locked_schedule_0 p = rw (up_0 p) refl

  pub unlock_0 :
      s.postpone ≡ pos 0
      → unlock_scheduler to_ns tsc (record (lock_scheduler s) { postponed = true })
        ≡ schedule to_ns tsc (relocked s)
  unfolding unlock_scheduler
  unlock_0 p = rw (up_down_0 p) refl

  -- An unlock that has nothing to make up for.
  pub unlock_quiet :
      s.postponed ≡ false
      → unlock_scheduler to_ns tsc s
        ≡ some
            (false, record s { postpone = s.postpone -ℤ pos 1; lock_count = s.lock_count -ℤ pos 1 })
  unfolding unlock_scheduler
  unlock_quiet e = elim (Bool-cases (is_zero (s.postpone -ℤ pos 1))) [
    | inl z ↦ rw (z, e) refl
    | inr z ↦ rw z refl
  ]

-- `schedule` and `unlock_scheduler` after `lock_scheduler`.
abbrev pub locked_schedule : (ℕ → ℕ) → ℕ → Sched → Option (Bool × Sched)
locked_schedule to_ns tsc s = do r ← schedule to_ns tsc (lock_scheduler s); then_unlock to_ns tsc r

switched :
    (to_ns : ℕ → ℕ) (tsc : ℕ) (s : Sched) (after : (ℕ → List ℕ) → ℕ → List ℕ) (ls : ℕ → List ℕ)
    (out : Option (Bool × Sched))
    → Switches s after ls out
    → Switches s after ls (out >>= then_unlock to_ns tsc)
switched to_ns tsc s after ls out (inl (empty, (s', e, cur, sl, w))) =
    inl (empty, (s', (rw (e, ◌>>=◌) refl), cur, sl, w))
switched to_ns tsc s after ls out (inr (i, t, ts, lt, e, higher, (s', o, cur, st, sl, w))) =
    inr (i, t, ts, lt, e, higher, (s', (rw (o, ◌>>=◌) refl), cur, st, sl, w))

-- A locked call of `schedule` switches in the end.
pub locked_schedule-Switches :
    (to_ns : ℕ → ℕ) (tsc : ℕ) (s : Sched) (ls : ℕ → List ℕ) (after : (ℕ → List ℕ) → ℕ → List ℕ)
    → IsValid s ls
    → Requeues s ls after
    → s.current ≢ s.idle
    → s.idle ≢ 0
    → AtRest s.postpone
    → Switches s after ls (locked_schedule to_ns tsc s)
locked_schedule-Switches to_ns tsc s ls after v h busy ni (inl p) =
    subst (Switches s after ls)
      (sym (
        ap (λ o. o >>= then_unlock to_ns tsc) (locked_schedule_0 to_ns tsc s p)
        ∙ unlock_0 to_ns tsc s p))
      (schedule-Switches to_ns tsc (relocked s) ls after v
        (Requeues-Like s (relocked s) ls after (Like-tasks s (relocked s) refl refl refl) h) busy ni
        (up_down_0 p))
locked_schedule-Switches to_ns tsc s ls after v h busy ni (inr p) =
    switched to_ns tsc s after ls (schedule to_ns tsc (lock_scheduler s)) (
      schedule-Switches to_ns tsc (lock_scheduler s) ls after v
        (Requeues-Like s (lock_scheduler s) ls after
          (Like-tasks s (lock_scheduler s) refl refl refl) h)
        busy ni (up_negative p))

-- A new state of the task that runs.
abbrev pub halted : ℕ → Sched → Sched
halted reason s = set_state reason s.current s

halted-Stopped : (reason : ℕ) (s : Sched) → reason ≢ running → Stopped (halted reason s)
halted-Stopped reason s ne e =
    let tcb = s.tasks s.current in
    ne (
      sym
        (ap (λ (x : Tcb). x.state) (update_self s.tasks s.current (record tcb { state = reason })))
      ∙ e)

state-priority :
    (reason : ℕ) (s : Sched) (t : ℕ) → ((halted reason s).tasks t).priority ≡ (s.tasks t).priority
state-priority reason s t =
    let tcb = s.tasks s.current in
    update-field (λ (x : Tcb). x.priority) s.tasks s.current (record tcb { state = reason }) t refl

block_task-eq :
    (to_ns : ℕ → ℕ) (tsc reason : ℕ) (s : Sched)
    → s.current ≢ 0
    → block_task to_ns tsc reason s ≡ locked_schedule to_ns tsc (halted reason s)
unfolding block_task
block_task-eq to_ns tsc reason s nz = rw (ne→== nz) refl

-- If the queues are valid, the task that runs is not the idle task, and the counter of postponed
-- switches is 0 or -1, then block_task with a state other than running switches to the first task
-- of the highest queue with a task, or to the idle task if all are empty, and leaves the lists
-- otherwise.
pub block_task-Switches :
    (to_ns : ℕ → ℕ) (tsc reason : ℕ) (s : Sched) (ls : ℕ → List ℕ)
    → IsValid s ls
    → s.current ≢ 0
    → s.current ≢ s.idle
    → s.idle ≢ 0
    → AtRest s.postpone
    → reason ≢ running
    → Switches s (λ lu. lu) ls (block_task to_ns tsc reason s)
block_task-Switches to_ns tsc reason s ls v nz busy ni rest ne =
    let s1 = halted reason s in
    subst (Switches s (λ lu. lu) ls) (sym (block_task-eq to_ns tsc reason s nz)) (
      Switches-same s s1 (λ lu. lu) ls (locked_schedule to_ns tsc s1) refl (state-priority reason s)
        (locked_schedule-Switches to_ns tsc s1 ls (λ lu. lu) v
          (Stopped-Requeues s1 ls (halted-Stopped reason s ne)) busy ni rest))

abbrev pub yielded : Tcb → Tcb
yielded tcb = record tcb { yield_count = add64 tcb.yield_count 1 }

yield-eq :
    (to_ns : ℕ → ℕ) (tsc : ℕ) (s : Sched)
    → s.current ≢ 0
    → yield_task to_ns tsc s
      ≡ locked_schedule to_ns tsc (set_task s.current (yielded (s.tasks s.current)) s)
unfolding yield_task
yield-eq to_ns tsc s nz = rw (ne→== nz) refl

-- If the queues are valid, the counter of postponed switches is at rest, and the task that runs is
-- neither blocked nor the idle task, yield switches to the first task of the highest queue with a
-- task, or to the idle task if all are empty, and puts the task that ran at the end of the queue of
-- its own priority.
pub yield-Switches :
    (to_ns : ℕ → ℕ) (tsc : ℕ) (s : Sched) (ls : ℕ → List ℕ)
    → IsValid s ls
    → Runs s ls
    → s.idle ≢ 0
    → AtRest s.postpone
    → Switches s (λ lu. append_to lu (home s) s.current) ls (yield_task to_ns tsc s)
yield-Switches to_ns tsc s ls v r ni rest =
    let tcb = yielded (s.tasks s.current) in
    let s1 = set_task s.current tcb s in
    let q = touch-Quiet s s.current tcb s.stats s.time_slice_ns refl refl refl refl in
    subst (Switches s (λ lu. append_to lu (home s) s.current) ls)
      (sym (yield-eq to_ns tsc s r.nonzero))
      (Switches-same s s1 (λ lu. append_to lu (home s) s.current) ls (locked_schedule to_ns tsc s1)
        refl q.priority
        (locked_schedule-Switches to_ns tsc s1 ls (λ lu. append_to lu (home s) s.current) v
          (Requeues-Like s s1 ls (λ lu. append_to lu (home s) s.current) (Like-Quiet s s1 q)
            (Runs-Requeues s ls r))
          r.busy ni rest))

-- If the queues are valid, task switches are not postponed, and the task that runs is neither
-- blocked nor the idle task, then after the unlock_scheduler with which task_startup_wrapper starts
-- a task, a call of schedule under lock_scheduler switches at once: to the first task of the
-- highest queue with a task, or to the idle task if all are empty.
pub startup-Switches :
    (to_ns : ℕ → ℕ) (tsc tsc' : ℕ) (s : Sched) (ls : ℕ → List ℕ)
    → IsValid s ls
    → Runs s ls
    → s.idle ≢ 0
    → s.postpone ≡ pos 0
    → s.postponed ≡ false
    → (s1 : Sched) × (unlock_scheduler to_ns tsc s ≡ some (false, s1))
      × Switches s
          (λ lu. append_to lu (home s) s.current)
          ls
          (schedule to_ns tsc' (lock_scheduler s1))
unfolding ◌+ℤ◌ ◌-ℤ◌
startup-Switches to_ns tsc tsc' s ls v r ni p quiet =
    let s1 = record s { postpone = s.postpone -ℤ pos 1; lock_count = s.lock_count -ℤ pos 1 } in
    (
      s1,
      unlock_quiet to_ns tsc s quiet,
      schedule-Switches to_ns tsc' (lock_scheduler s1) ls (λ lu. append_to lu (home s) s.current) v
          (Requeues-Like s (lock_scheduler s1) ls (λ lu. append_to lu (home s) s.current)
            (Like-tasks s (lock_scheduler s1) refl refl refl) (Runs-Requeues s ls r))
          r.busy ni (rw p refl),
    )
