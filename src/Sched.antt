-- ===== src/Sched.antt =====
-- kernel/core/scheduler.c: tasks, their queues by priority, and time. A task is the address of its
-- `tcb_t`, NULL is 0. The links `next` are a function of the address of the structure, and bit i of
-- `ready_queue_bitmap` is `bitmap i`. `scheduler_data_lock` is held round what an operation does to
-- the state. `to_ns` is `tsc_to_ns`, and a reading `tsc` of the time stamp counter is an argument of
-- the operations that take one.
pub mod Switch
pub mod Sleep
pub mod Create
pub mod Lists
pub mod Queues
pub mod Quiet
pub mod Requeue
pub mod Choice
pub mod Sleepers
pub mod Block
pub mod Nap
pub mod Wake
pub mod Tick
pub mod Keeps
pub mod Turns
pub mod Faults
mod Tests
use spinix.Base.{
  ℕ, zero, suc, ◌+◌, ◌-◌, ◌*◌, ◌/◌, ◌%◌, ◌^◌, ◌&&◌, ◌||◌, not, Bool, true, false, Option, none,
  some, ltb, leb, ◌==◌, if◌then◌else◌, ◌>>=◌, add64, sub64,
}
use spinix.Base.Int.{ℤ}
use spinix.Base.Memory.{update}
use spinix.Base.Chain.{find_link}

abbrev pub running : ℕ
running = 0

abbrev pub ready : ℕ
ready = 1

abbrev pub asleep : ℕ
asleep = 2

abbrev pub terminated_state : ℕ
terminated_state = 5

abbrev pub interruptible : ℕ
interruptible = 7

abbrev pub queue_count : ℕ
queue_count = 8

abbrev pub aging_threshold : ℕ
aging_threshold = 50

abbrev pub aging_boost : ℕ
aging_boost = 16

-- `offsetof(tcb_t, next)`
abbrev pub next_offset : ℕ
next_offset = 80

-- `tcb_t` without its link and its name.
pub record Tcb : Type 0 where
  pub rsp : ℕ
  pub tid : ℕ
  pub kernel_stack_base : ℕ
  pub kernel_stack_size : ℕ
  pub cr3 : ℕ
  pub state : ℕ
  pub priority : ℕ
  pub base_priority : ℕ
  pub time_used_ns : ℕ
  pub sleep_expiry_ns : ℕ
  pub wait_ticks : ℕ
  pub switch_count : ℕ
  pub last_run_time_ns : ℕ
  pub owner_proc : ℕ
  pub wait_queue : ℕ
  pub wait_reason : ℕ
  pub wait_data : ℕ
  pub pending_signals : ℕ
  pub signal_pending : Bool
  pub thread_errno : ℤ
  pub preempt_count : ℕ
  pub yield_count : ℕ
  pub wakeup_count : ℕ

pub record SchedStats : Type 0 where
  pub total_switches : ℕ
  pub total_ticks : ℕ
  pub idle_time_ns : ℕ
  pub aging_boosts : ℕ

-- What a switch loads into the processor: the stack for system calls and interrupts, and CR3.
pub record Cpu : Type 0 where
  pub kernel_stack : ℕ
  pub page_table : ℕ

-- The static variables, with the memory of bytes that holds the names and the memory of words that
-- holds the stacks.
pub record Sched : Type 0 where
  pub tasks : ℕ → Tcb
  pub next : ℕ → ℕ
  pub current : ℕ
  pub heads : ℕ → ℕ
  pub tails : ℕ → ℕ
  pub bitmap : ℕ → Bool
  pub sleeping : ℕ
  pub terminated : ℕ
  pub idle : ℕ
  pub next_tid : ℕ
  pub lock_count : ℤ
  pub postpone : ℤ
  pub postponed : Bool
  pub time_since_boot_ns : ℕ
  pub last_tsc : ℕ
  pub time_slice_ns : ℕ
  pub initialized : Bool
  pub stats : SchedStats
  pub cpu : Cpu
  pub bytes : ℕ → ℕ
  pub words : ℕ → ℕ

abbrev pub set_task : ℕ → Tcb → Sched → Sched
set_task t tcb s = record s { tasks = update s.tasks t tcb }

unfoldable pub priority_to_queue : ℕ → ℕ
priority_to_queue priority = priority / 32

-- The highest of the bits below `n` that is set.
unfoldable pub highest_below : ℕ → (ℕ → Bool) → Option ℕ
highest_below zero bits = none
highest_below (suc n) bits = let rest = highest_below n bits in if bits n then some n else rest

-- `none` is the result -1.
unfoldable pub find_highest : (ℕ → Bool) → Option ℕ
unfolding highest_below
find_highest bits = highest_below queue_count bits

-- `ready_queue_bitmap == 0`
unfoldable pub no_bits : ℕ → (ℕ → Bool) → Bool
no_bits zero bits = true
no_bits (suc n) bits = not (bits n) && no_bits n bits

-- The table of milliseconds.
abbrev pub time_slice_ms : ℕ → ℕ
time_slice_ms queue =
    if queue == 0
    then 5
    else if queue == 1
    then 7
    else if queue == 2
    then 10
    else if queue == 3
    then 12
    else if queue == 4
    then 15
    else if queue == 5
    then 20
    else if queue == 6
    then 25
    else 30

unfoldable pub calculate_time_slice : ℕ → ℕ
unfolding priority_to_queue
calculate_time_slice priority = time_slice_ms (priority_to_queue priority) * 1000000

-- The task has run for `ns` nanoseconds, up to the time `now`.
abbrev pub ran_for : ℕ → ℕ → Tcb → Tcb
ran_for ns now tcb = record tcb { time_used_ns = add64 tcb.time_used_ns ns; last_run_time_ns = now }

-- The part of `update_time_accounting` for the task that runs.
abbrev pub charge : ℕ → Sched → Sched
charge ns s =
    if s.current == 0
    then s
    else let s1 = set_task s.current (ran_for ns s.time_since_boot_ns (s.tasks s.current)) s in
      let st = s.stats in
      if s.current == s.idle
      then record s1 { stats = record st { idle_time_ns = add64 st.idle_time_ns ns } }
      else s1

unfoldable pub update_time_accounting : (ℕ → ℕ) → ℕ → Sched → Sched
update_time_accounting to_ns tsc s =
    let ns = to_ns (sub64 tsc s.last_tsc) in
    charge ns (record s { last_tsc = tsc; time_since_boot_ns = add64 s.time_since_boot_ns ns })

-- The fields of a task that enters a ready queue.
abbrev pub made_ready : Tcb → Tcb
made_ready tcb = record tcb { state = ready; wait_ticks = 0 }

-- The queue operations of `add_to_ready_queue`.
abbrev pub enqueue : ℕ → ℕ → Sched → Sched
enqueue queue t s =
    if s.heads queue == 0
    then record s {
      heads = update s.heads queue t;
      tails = update s.tails queue t;
      bitmap = update s.bitmap queue true;
    }
    else record s { next = update s.next (s.tails queue) t; tails = update s.tails queue t }

unfoldable pub add_to_ready_queue : ℕ → Sched → Sched
unfolding priority_to_queue
add_to_ready_queue t s =
    enqueue (priority_to_queue (s.tasks t).priority) t
      (record s { next = update s.next t 0; tasks = update s.tasks t (made_ready (s.tasks t)) })

-- The queue is empty now.
abbrev pub emptied : ℕ → Sched → Sched
emptied queue s =
    if s.heads queue == 0
    then record s { tails = update s.tails queue 0; bitmap = update s.bitmap queue false }
    else s

-- The head of the queue leaves it.
abbrev pub dequeue : ℕ → Sched → ℕ × Sched
dequeue queue s =
    let t = s.heads queue in
    let s1 = emptied queue (record s { heads = update s.heads queue (s.next t) }) in
    (t, record s1 { next = update s1.next t 0 })

-- `remove_from_ready_queue`; NULL where the result is 0.
unfoldable pub remove_from_ready_queue : Sched → ℕ × Sched
unfolding find_highest
remove_from_ready_queue s = elim (find_highest s.bitmap) [
  | none ↦ (0, s)
  | some queue ↦ dequeue queue s
]

-- The writes of `age_waiting_tasks` where the walk to `t` has met it: `prev` is 0 for the head of
-- the queue. The new tail is the address of the link that has led to `t`.
abbrev pub unqueue_at : ℕ → ℕ → Option ℕ → Sched → Sched
unqueue_at queue t none s = s
unqueue_at queue t (some prev) s =
    let s1 =
      if prev == 0
      then record s { heads = update s.heads queue (s.next t) }
      else record s { next = update s.next prev (s.next t) } in
    let s2 =
      if s1.tails queue == t
      then record s1 { tails = update s1.tails queue (if prev == 0 then 0 else prev + next_offset) }
      else s1 in
    if s2.heads queue == 0 then record s2 { bitmap = update s2.bitmap queue false } else s2

unfoldable pub unqueue : ℕ → ℕ → ℕ → Sched → Option Sched
unqueue fuel queue t s = do
  link ← find_link fuel s.next 0 (s.heads queue) t
  some (unqueue_at queue t link s)

abbrev pub waited : Tcb → Tcb
waited tcb = record tcb { wait_ticks = add64 tcb.wait_ticks 1 }

abbrev pub boosts : Tcb → Bool
boosts tcb = leb aging_threshold tcb.wait_ticks && ltb tcb.priority (255 - aging_boost)

abbrev pub boosted : Tcb → Tcb
boosted tcb = record tcb { priority = tcb.priority + aging_boost }

-- The task goes to the queue of its new priority.
unfoldable pub move_up : ℕ → ℕ → ℕ → Sched → Option Sched
unfolding unqueue add_to_ready_queue
move_up fuel queue t s = do
  s1 ← unqueue fuel queue t s
  let s2 = add_to_ready_queue t (set_task t (record (s1.tasks t) { wait_ticks = 0 }) s1)
  let st = s2.stats
  some (record s2 { stats = record st { aging_boosts = add64 st.aging_boosts 1 } })

-- The boost of a task of the queue; `true` where it changes queues.
unfoldable pub boost_task : ℕ → ℕ → ℕ → Sched → Option (Bool × Sched)
unfolding move_up
boost_task fuel queue t s =
    let s1 = set_task t (boosted (s.tasks t)) s in
    if priority_to_queue (s1.tasks t).priority == queue
    then some (false, s1)
    else (do s2 ← move_up fuel queue t s1; some (true, s2))

-- One round of the inner loop; `true` where it breaks off.
unfoldable pub age_task : ℕ → ℕ → ℕ → Sched → Option (Bool × Sched)
unfolding boost_task
age_task fuel queue t s =
    let s1 = set_task t (waited (s.tasks t)) s in
    if boosts (s1.tasks t) then boost_task fuel queue t s1 else some (false, s1)

-- The inner loop, from the task `t` on; `walk` bounds its rounds.
unfoldable pub age_queue : ℕ → ℕ → ℕ → ℕ → Sched → Option Sched
unfolding age_task
age_queue zero fuel queue t s = none
age_queue (suc walk) fuel queue t s = if t == 0 then some s else (do
  r ← age_task fuel queue t s
  let rest = age_queue walk fuel queue (r.1.next t) (r.1)
  if r.0 then some (r.1) else rest)

-- The queues from `queue` on, `n` of them.
unfoldable pub age_queues : ℕ → ℕ → ℕ → Sched → Option Sched
unfolding age_queue
age_queues zero fuel queue s = some s
age_queues (suc n) fuel queue s = do
  s1 ← age_queue fuel fuel queue (s.heads queue) s
  age_queues n fuel (suc queue) s1

unfoldable pub age_waiting_tasks : ℕ → Sched → Option Sched
unfolding age_queues
age_waiting_tasks fuel s = age_queues queue_count fuel 0 s
