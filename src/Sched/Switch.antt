-- ===== src/Sched/Switch.antt =====
-- The switches of kernel/core/scheduler.c: `schedule` and the calls that lead to it. A result pairs
-- the state with whether the call has switched to another task: what follows in its caller then runs
-- only when the task is resumed. `none` is an access through NULL.
use spinix.Base.{
  ℕ, ◌&&◌, ◌||◌, not, Bool, true, false, Option, none, some, ltb, ◌==◌, if◌then◌else◌, ◌>>=◌, add64,
}
use spinix.Base.Int.{pos, ◌+ℤ◌, ◌-ℤ◌, is_zero}
use spinix.Base.Memory.{update}
use spinix.Sched.{
  running, terminated_state, Tcb, Sched, set_task, no_bits, queue_count, calculate_time_slice,
  update_time_accounting, add_to_ready_queue, remove_from_ready_queue,
}

-- `switch_to_task` of kernel/arch/x86_64/switch.c; the registers of a task are not in the model.
unfoldable pub switch_to_task : ℕ → Sched → Sched
switch_to_task t s =
    if t == 0
    then s
    else let tcb = s.tasks t in
      record s {
        current = t;
        cpu = record {
          kernel_stack = add64 tcb.kernel_stack_base tcb.kernel_stack_size;
          page_table = if tcb.cr3 == 0 then s.cpu.page_table else tcb.cr3;
        };
      }

abbrev pub lock_scheduler : Sched → Sched
lock_scheduler s = record s { lock_count = s.lock_count +ℤ pos 1; postpone = s.postpone +ℤ pos 1 }

-- A task that goes back to a ready queue after it has run.
abbrev pub preempted : Tcb → Tcb
preempted tcb = record tcb {
  preempt_count = add64 tcb.preempt_count 1;
  priority = if ltb tcb.base_priority tcb.priority then tcb.base_priority else tcb.priority;
}

-- The task that runs goes back to a ready queue, unless it is blocked or idle.
unfoldable pub requeue_current : Sched → Sched
requeue_current s =
    let t = s.current in
    if not (t == 0) && (s.tasks t).state == running && not (t == s.idle)
    then add_to_ready_queue t (set_task t (preempted (s.tasks t)) s)
    else s

abbrev pub set_state : ℕ → ℕ → Sched → Sched
set_state state t s = set_task t (record (s.tasks t) { state = state }) s

abbrev pub woken : ℕ → Sched → Sched
woken t s = set_task t (record (s.tasks t) { wakeup_count = add64 (s.tasks t).wakeup_count 1 }) s

-- The time slice and the counters of the task that `schedule` has chosen.
abbrev pub chosen : ℕ → Sched → Sched
chosen t s =
    let tcb = s.tasks t in
    let st = s.stats in
    record s {
      time_slice_ns = calculate_time_slice tcb.priority;
      tasks = update s.tasks t (record tcb { switch_count = add64 tcb.switch_count 1 });
      stats = record st { total_switches = add64 st.total_switches 1 };
    }

-- The end of `schedule`, which lets `t` run.
unfoldable pub run : ℕ → Sched → Option (Bool × Sched)
run t s =
    if t == 0 then none else some (true, switch_to_task t (set_state running t (requeue_current s)))

-- `schedule` where no task is ready.
unfoldable pub go_idle : Sched → Option (Bool × Sched)
go_idle s =
    let s1 = record s { time_slice_ns = 0 } in
    if s.current == s.idle
    then if s.current == 0
      then none
      else if (s.tasks s.current).state == running
      then some (false, s1)
      else run s.idle s1
    else run s.idle s1

-- `schedule` where task switches are not postponed.
unfoldable pub choose : Sched → Option (Bool × Sched)
choose s =
    let r = remove_from_ready_queue s in
    if r.0 == 0 then go_idle (r.1) else run (r.0) (chosen (r.0) (r.1))

module _ (to_ns : ℕ → ℕ) where
  unfoldable pub schedule : ℕ → Sched → Option (Bool × Sched)
  schedule tsc s =
      if is_zero s.postpone
      then choose (update_time_accounting to_ns tsc s)
      else some (false, record s { postponed = true })

  unfoldable pub unlock_scheduler : ℕ → Sched → Option (Bool × Sched)
  unlock_scheduler tsc s =
      let s1 = record s { postpone = s.postpone -ℤ pos 1; lock_count = s.lock_count -ℤ pos 1 } in
      if is_zero s1.postpone && s.postponed
      then schedule tsc (record s1 { postponed = false })
      else some (false, s1)

  -- `unlock_scheduler` after a step that may have switched.
  abbrev pub then_unlock : ℕ → Bool × Sched → Option (Bool × Sched)
  then_unlock tsc r = if r.0 then some r else unlock_scheduler tsc (r.1)

  unfoldable pub yield_task : ℕ → Sched → Option (Bool × Sched)
  yield_task tsc s = do
    let s1 = lock_scheduler s
    let tcb = s1.tasks s1.current
    let s2 =
        if s1.current == 0
        then s1
        else set_task s1.current (record tcb { yield_count = add64 tcb.yield_count 1 }) s1
    r ← schedule tsc s2
    then_unlock tsc r

  unfoldable pub block_task : ℕ → ℕ → Sched → Option (Bool × Sched)
  block_task tsc reason s = do
    let s1 = lock_scheduler s
    r ← schedule tsc (if s1.current == 0 then s1 else set_state reason s1.current s1)
    then_unlock tsc r

  unfoldable pub unblock_task : ℕ → ℕ → Sched → Option (Bool × Sched)
  unblock_task tsc t s =
      if t == 0
      then some (false, s)
      else let s1 = woken t (lock_scheduler s) in
        if no_bits queue_count s1.bitmap && s1.current == s1.idle
        then some (true, switch_to_task t (set_state running t s1))
        else unlock_scheduler tsc (add_to_ready_queue t s1)

  unfoldable pub terminate_task : ℕ → Sched → Option (Bool × Sched)
  terminate_task tsc s = do
    let s1 = lock_scheduler s
    let s2 =
        if s1.current == 0
        then s1
        else record s1 { next = update s1.next s1.current s1.terminated; terminated = s1.current }
    r ← block_task tsc terminated_state s2
    then_unlock tsc r

  unfoldable pub terminate_other_task : ℕ → ℕ → Sched → Option (Bool × Sched)
  terminate_other_task tsc t s =
      if t == 0 || t == s.current
      then some (false, s)
      else let s1 = set_state terminated_state t (lock_scheduler s) in
        unlock_scheduler tsc (record s1 { next = update s1.next t s1.terminated; terminated = t })

  unfoldable pub set_priority : ℕ → ℕ → ℕ → Sched → Option (Bool × Sched)
  set_priority tsc t priority s =
      if t == 0
      then some (false, s)
      else let s1 = lock_scheduler s in
        unlock_scheduler tsc
          (set_task t (record (s1.tasks t) { priority = priority; base_priority = priority }) s1)
