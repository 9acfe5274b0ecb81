-- ===== src/Sched/Tests.antt =====
-- The scheduler of kernel/core/scheduler.c with the task 100 running and the tasks 200 and 300 in
-- ready queue 4; 900 is the idle task, and 500 sleeps in some tests. All priorities are 128.
use spinix.Base.{
  ℕ, ◌≡◌, ◌<◌, ◌≢◌, inl, refl, true, false, some, List, [], ◌∷◌, arith, has, All, if◌then◌else◌,
  ◌==◌, ◌||◌,
}
use mathlib.Core.Bool.{false≢true}
use spinix.Base.Int.{pos}
use spinix.Base.Memory.{update}
use spinix.Base.Chain.{Chain}
use spinix.Sched.{
  running, asleep, terminated_state, queue_count, Tcb, Sched, priority_to_queue, add_to_ready_queue,
  unqueue,
}
use spinix.Sched.Switch.{
  lock_scheduler, schedule, unlock_scheduler, block_task, terminate_other_task,
}
use spinix.Sched.Sleep.{expiry, join_sleepers, nano_sleep_until, timer_tick}
use spinix.Sched.Create.{blank_tcb}
use spinix.Sched.Lists.{Free, Lists-cons, Lists-head}
use spinix.Sched.Queues.{
  IsValid, all_heads, append_to, sleep_list, add-IsValid, Queues-other, heads-sleeping,
}
use spinix.Sched.Requeue.{Runs, home}
use spinix.Sched.Choice.{Switches, schedule-Runs}
use spinix.Sched.Sleepers.{insert_by, Sorted}
use spinix.Sched.Block.{block_task-Switches, startup-Switches}
use spinix.Sched.Nap.{with_expiry, nano_sleep-Switches, join_sleepers-Sorted}
use spinix.Sched.Wake.{Sleeps, woken_lists}
use spinix.Sched.Tick.{own_queue, timer_tick_lem, timer_tick-late}
use spinix.Sched.Turns.{Turn, turns, turns-reach, snoc-Free}
use spinix.Sched.Faults.{terminate_other-runs, unqueue-last}

abbrev tcb_of : ℕ → Tcb
tcb_of t = record blank_tcb {
  state = if t == 100 then 0 else if t == 500 then 2 else 1;
  priority = 128;
  base_priority = 128;
  sleep_expiry_ns = 40;
}

abbrev start : Sched
start = record {
  tasks = tcb_of;
  next = λ _. 0;
  current = 100;
  heads = λ _. 0;
  tails = λ _. 0;
  bitmap = λ _. false;
  sleeping = 0;
  terminated = 0;
  idle = 900;
  next_tid = 5;
  lock_count = pos 0;
  postpone = pos 0;
  postponed = false;
  time_since_boot_ns = 10;
  last_tsc = 10;
  time_slice_ns = 0;
  initialized = true;
  stats = record { total_switches = 0; total_ticks = 0; idle_time_ns = 0; aging_boosts = 0 };
  cpu = record { kernel_stack = 0; page_table = 0 };
  bytes = λ _. 0;
  words = λ _. 0;
}

abbrev no_lists : ℕ → List ℕ
no_lists i = []

-- A nanosecond for each count of the time stamp counter.
abbrev ns_of : ℕ → ℕ
ns_of n = n

start-IsValid : IsValid start no_lists
start-IsValid = record {
  lists = record {
    chain = λ i. ground arith;
    distinct = λ i. tt;
    apart = λ i j t h k. absurd (false≢true h);
  };
  tail = λ i lt. refl;
  bit = λ i lt. refl;
}

abbrev round : Sched
round = add_to_ready_queue 300 (add_to_ready_queue 200 start)

abbrev round_lists : ℕ → List ℕ
round_lists = append_to (append_to no_lists 4 200) 4 300

first_Free : (t : ℕ) → t ≢ 200 → Free (append_to no_lists 4 200) t
first_Free t ne = snoc-Free no_lists 4 200 t (λ i. refl) ne

round_Free : (t : ℕ) → t ≢ 200 → t ≢ 300 → Free round_lists t
round_Free t n2 n3 = snoc-Free (append_to no_lists 4 200) 4 300 t (first_Free t n2) n3

round-IsValid : IsValid round round_lists
unfolding add_to_ready_queue priority_to_queue
round-IsValid =
    add-IsValid (add_to_ready_queue 200 start) (append_to no_lists 4 200) 300
      (add-IsValid start no_lists 200 start-IsValid (omega arith) (λ i. refl) (omega arith))
      (omega arith) (first_Free 300 (omega arith)) (omega arith)

round-Runs : Runs round round_lists
unfolding add_to_ready_queue priority_to_queue
round-Runs = record {
  nonzero = omega arith;
  busy = omega arith;
  state = refl;
  free = round_Free 100 (omega arith) (omega arith);
  level = omega arith;
}

round_higher : (j : ℕ) → 4 < j → j < queue_count → round_lists j ≡ []
round_higher j lo hi = ground arith

schedule-Runs_example :
    Switches round (λ lu. append_to lu (home round) 100) round_lists (schedule ns_of 20 round)
unfolding add_to_ready_queue priority_to_queue
schedule-Runs_example =
    schedule-Runs ns_of 20 round round_lists round-IsValid round-Runs (omega arith) refl

round-Turn : Turn 4 (200 ∷ 300 ∷ []) round round_lists
unfolding add_to_ready_queue priority_to_queue
round-Turn = record {
  valid = round-IsValid;
  runs = round-Runs;
  own = refl;
  entries = refl;
  higher = round_higher;
  members = ((omega arith, omega arith, refl), ((omega arith, omega arith, refl), tt));
  small = omega arith;
  has_idle = omega arith;
  unlocked = refl;
}

turns-reach_example : (s : Sched) × (turns ns_of 20 2 round ≡ some s) × (s.current ≡ 300)
turns-reach_example = turns-reach ns_of 20 4 300 (200 ∷ []) [] round round_lists round-Turn

block_task-Switches_example :
    Switches round (λ lu. lu) round_lists (block_task ns_of 20 asleep round)
unfolding add_to_ready_queue priority_to_queue
block_task-Switches_example =
    block_task-Switches ns_of 20 asleep round round_lists round-IsValid (omega arith) (omega arith)
      (omega arith) (inl refl) (omega arith)

startup-Switches_example :
    (s1 : Sched) × (unlock_scheduler ns_of 20 round ≡ some (false, s1))
    × Switches round
        (λ lu. append_to lu (home round) 100)
        round_lists
        (schedule ns_of 30 (lock_scheduler s1))
unfolding add_to_ready_queue priority_to_queue
startup-Switches_example =
    startup-Switches ns_of 20 30 round round_lists round-IsValid round-Runs (omega arith) refl refl

terminate_other-runs_example :
    (s1 : Sched) × (s2 : Sched) × (terminate_other_task ns_of 20 200 round ≡ some (false, s1))
    × ((s1.tasks 200).state ≡ terminated_state)
    × (schedule ns_of 30 s1 ≡ some (true, s2))
    × (s2.current ≡ 200)
    × ((s2.tasks 200).state ≡ running)
unfolding add_to_ready_queue priority_to_queue
terminate_other-runs_example =
    terminate_other-runs ns_of 20 30 4 200 (300 ∷ []) round round_lists round-IsValid (omega arith)
      refl round_higher (omega arith) refl refl

unqueue-last_example :
    (s : Sched) × (unqueue 3 4 300 round ≡ some s)
    × (s.tails 4 ≡ 280)
    × Chain s.next (s.heads 4) (200 ∷ [])
unqueue-last_example =
    unqueue-last 3 4 300 (200 ∷ []) round round_lists round-IsValid (omega arith) refl refl
      (omega arith)

-- The task 500 sleeps until 40.
abbrev night : Sched
night = record start { sleeping = 500; next = update (λ _. 0) 500 0 }

abbrev night_lists : ℕ → List ℕ
night_lists = update no_lists sleep_list (500 ∷ [])

night-IsValid : IsValid night night_lists
night-IsValid =
    let links = update (λ _. 0) 500 0 in
    Queues-other start no_lists start-IsValid sleep_list (500 ∷ []) links 500 0 (omega arith) (
      Lists-head links (update (all_heads (λ _. 0) 0 0) sleep_list 500) night_lists
        (Lists-cons (λ _. 0) (all_heads (λ _. 0) 0 0) no_lists start-IsValid.lists sleep_list 500
          (λ i. refl) (omega arith))
        (all_heads (λ _. 0) 500 0) (heads-sleeping (λ _. 0) 0 0 500))

night_Free : Free night_lists 100
night_Free i = ground arith

nano_sleep-Switches_example :
    Switches night
      (λ lu. lu)
      (update night_lists sleep_list (insert_by (expiry (with_expiry 30 night)) 30 100 (500 ∷ [])))
      (nano_sleep_until ns_of 2 20 30 30 night)
nano_sleep-Switches_example =
    nano_sleep-Switches ns_of 2 20 30 30 night night_lists night-IsValid (omega arith) (omega arith)
      night_Free (omega arith) (inl refl) refl refl (omega arith)

join_sleepers-Sorted_example :
    (s : Sched) × (ts : List ℕ) × (join_sleepers 2 30 100 (with_expiry 30 night) ≡ some s)
    × IsValid s (update night_lists sleep_list ts)
    × Sorted (expiry s) ts
    × ((q : ℕ) → has q ts ≡ ((q == 100) || has q (500 ∷ [])))
join_sleepers-Sorted_example =
    join_sleepers-Sorted 2 30 night night_lists night-IsValid (omega arith) night_Free (omega arith)
      (tt, tt)

night-Sleeps : All (Sleeps night (expiry night) (own_queue night)) (500 ∷ [])
night-Sleeps = ((inl refl, omega arith, refl, refl), tt)

timer_tick_lem_example :
    (s : Sched) × (timer_tick ns_of 2 60 night ≡ some s)
    × IsValid s
        (woken_lists s.time_since_boot_ns (expiry night) (own_queue night) (500 ∷ []) night_lists)
timer_tick_lem_example =
    timer_tick_lem ns_of 2 60 night night_lists refl (omega arith) night-IsValid night-Sleeps
      (omega arith)

timer_tick-late_example :
    (s : Sched) × (ls : ℕ → List ℕ) × (timer_tick ns_of 2 20 night ≡ some s)
    × IsValid s ls
    × All (λ t. s.time_since_boot_ns < expiry night t) (ls sleep_list)
timer_tick-late_example =
    timer_tick-late ns_of 2 20 night night_lists refl (omega arith) night-IsValid night-Sleeps
      (omega arith) (tt, tt)
