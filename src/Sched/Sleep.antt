-- ===== src/Sched/Sleep.antt =====
-- The sleep list and the timer tick of kernel/core/scheduler.c.
use spinix.Base.{
  ℕ, zero, suc, ◌-◌, ◌%◌, ◌||◌, Bool, false, Option, none, some, leb, ◌==◌, if◌then◌else◌, ◌>>=◌,
  add64, mul64,
}
use spinix.Base.Int.{ℤ, pos, neg}
use spinix.Base.Memory.{update}
use spinix.Base.Chain.{find_link}
use spinix.Sched.{
  ready, asleep, interruptible, Tcb, Sched, set_task, update_time_accounting, add_to_ready_queue,
  age_waiting_tasks,
}
use spinix.Sched.Switch.{
  set_state, woken, lock_scheduler, unlock_scheduler, then_unlock, block_task, unblock_task,
}

-- The task behind which a sleeper joins the list, 0 for the front.
unfoldable pub sleep_link : ℕ → (ℕ → ℕ) → (ℕ → ℕ) → ℕ → ℕ → ℕ → Option ℕ
sleep_link zero next expiry wake prev cur = none
sleep_link (suc fuel) next expiry wake prev cur =
    let rest = sleep_link fuel next expiry wake cur (next cur) in
    if cur == 0 then some prev else if leb (expiry cur) wake then rest else some prev

abbrev pub insert_at : ℕ → ℕ → Sched → Sched
insert_at t prev s =
    if prev == 0
    then record s { next = update s.next t s.sleeping; sleeping = t }
    else record s { next = update (update s.next t (s.next prev)) prev t }

abbrev pub expiry : Sched → ℕ → ℕ
expiry s t = (s.tasks t).sleep_expiry_ns

unfoldable pub join_sleepers : ℕ → ℕ → ℕ → Sched → Option Sched
unfolding sleep_link
join_sleepers fuel wake t s = do
  prev ← sleep_link fuel s.next (expiry s) wake 0 s.sleeping
  some (insert_at t prev s)

abbrev pub expires_at : ℕ → Tcb → Tcb
expires_at wake tcb = record tcb { sleep_expiry_ns = wake }

-- The writes of `task_wake_interruptible` where the walk to `t` has met it.
abbrev pub unlink_sleeper : ℕ → Option ℕ → Sched → Sched
unlink_sleeper t none s = s
unlink_sleeper t (some prev) s =
    if prev == 0
    then record s { sleeping = s.next t; next = update s.next t 0 }
    else record s { next = update (update s.next prev (s.next t)) t 0 }

abbrev pub leave_sleepers : ℕ → ℕ → Sched → Option Sched
leave_sleepers fuel t s = do
  link ← find_link fuel s.next 0 s.sleeping t
  some (unlink_sleeper t link s)

-- A sleeper whose time has come.
unfoldable pub wake_sleeper : ℕ → Sched → Sched
unfolding add_to_ready_queue
wake_sleeper t s =
    let s1 = record s { sleeping = s.next t; next = update s.next t 0 } in
    let state = (s1.tasks t).state in
    if state == asleep || state == interruptible
    then add_to_ready_queue t (set_state ready t s1)
    else s1

-- The loop of the timer tick, from the task `t` on.
unfoldable pub wake_sleepers : ℕ → ℕ → Sched → Option Sched
wake_sleepers zero t s = none
wake_sleepers (suc fuel) t s =
    let rest = wake_sleepers fuel (s.next t) (wake_sleeper t s) in
    if t == 0 then some s else if leb (expiry s t) s.time_since_boot_ns then rest else some s

abbrev pub tick_ns : ℕ
tick_ns = 10000000

abbrev pub use_slice : Sched → Sched
use_slice s = record s {
  time_slice_ns = if leb s.time_slice_ns tick_ns then 0 else s.time_slice_ns - tick_ns;
}

-- What the end of a sleep returns: -1 where a signal has come.
abbrev pub sleep_result : ℕ → Sched → ℤ
sleep_result t s = if (s.tasks t).pending_signals == 0 then pos 0 else neg 1

-- The result of a task that goes to sleep comes when it is resumed: it is `sleep_result` then.
abbrev pub slept : ℕ → Bool × Sched → Option (Option ℤ × Sched)
slept t r = some (if r.0 then none else some (sleep_result t (r.1)), r.1)

-- `age_waiting_tasks` in every tenth tick.
abbrev pub age_sometimes : ℕ → Sched → Option Sched
age_sometimes fuel s = if s.stats.total_ticks % 10 == 0 then age_waiting_tasks fuel s else some s

abbrev pub count_tick : Sched → Sched
count_tick s =
    let st = s.stats in record s { stats = record st { total_ticks = add64 st.total_ticks 1 } }

module _ (to_ns : ℕ → ℕ) where
  -- `fuel` bounds the walk over the sleepers; each unlock and each block reads the counter.
  unfoldable pub nano_sleep_until : ℕ → ℕ → ℕ → ℕ → Sched → Option (Bool × Sched)
  nano_sleep_until fuel tsc tsc' wake s =
      if leb wake s.time_since_boot_ns
      then some (false, s)
      else let t = s.current in
        if t == 0 then none else (do
          s1 ←
              join_sleepers fuel wake t
                (set_task t (expires_at wake (s.tasks t)) (lock_scheduler s))
          r ← unlock_scheduler to_ns tsc s1
          if r.0 then some r else block_task to_ns tsc' asleep (r.1))

  unfoldable pub nano_sleep : ℕ → ℕ → ℕ → ℕ → Sched → Option (Bool × Sched)
  nano_sleep fuel tsc tsc' ns s = nano_sleep_until fuel tsc tsc' (add64 s.time_since_boot_ns ns) s

  unfoldable pub sleep_ms : ℕ → ℕ → ℕ → ℕ → Sched → Option (Bool × Sched)
  sleep_ms fuel tsc tsc' ms s = nano_sleep fuel tsc tsc' (mul64 ms 1000000) s

  unfoldable pub get_time_since_boot : ℕ → Sched → ℕ × Sched
  unfolding update_time_accounting
  get_time_since_boot tsc s =
      let s1 = update_time_accounting to_ns tsc s in (s1.time_since_boot_ns, s1)

  -- The sleep itself, from the lock on.
  unfoldable pub sleep_interruptibly : ℕ → ℕ → ℕ → ℕ → Sched → Option (Option ℤ × Sched)
  sleep_interruptibly fuel tsc tsc' wake s = do
    let t = s.current
    let s1 = set_task t (expires_at wake (s.tasks t)) (lock_scheduler s)
    s2 ← join_sleepers fuel wake t (set_state interruptible t s1)
    r ← unlock_scheduler to_ns tsc s2
    if r.0
        then some (none, r.1)
        else (do r' ← block_task to_ns tsc' interruptible (r.1); slept t r')

  unfoldable pub nano_sleep_interruptible : ℕ → ℕ → ℕ → ℕ → ℕ → Sched → Option (Option ℤ × Sched)
  nano_sleep_interruptible fuel now tsc tsc' ns s =
      if ns == 0
      then some (some (pos 0), s)
      else if s.current == 0
      then some (some (neg 1), s)
      else let r = get_time_since_boot now s in
        if (s.tasks s.current).pending_signals == 0
        then sleep_interruptibly fuel tsc tsc' (add64 (r.0) ns) (r.1)
        else some (some (neg 1), s)

  -- The wake-up of an interruptible sleeper, under the lock.
  unfoldable pub wake_interrupted : ℕ → ℕ → ℕ → Sched → Option (Bool × Sched)
  wake_interrupted fuel tsc t s = do
    s1 ← leave_sleepers fuel t s
    unblock_task to_ns tsc t (woken t s1)

  unfoldable pub wake_interruptible : ℕ → ℕ → ℕ → ℕ → Sched → Option (Bool × Sched)
  wake_interruptible fuel tsc tsc' t s = if t == 0 then some (false, s) else (do
    let s1 = lock_scheduler s
    r ←
        if (s1.tasks t).state == interruptible
        then wake_interrupted fuel tsc t s1
        else some (false, s1)
    then_unlock to_ns tsc' r)

  unfoldable pub timer_tick : ℕ → ℕ → Sched → Option Sched
  timer_tick fuel tsc s =
      if s.initialized
      then (do
        let s1 = count_tick (update_time_accounting to_ns tsc s)
        s2 ← wake_sleepers fuel s1.sleeping s1
        s3 ← age_sometimes fuel s2
        some (use_slice s3))
      else some s
