-- ===== src/Sched/Create.antt =====
-- The creation of tasks, `scheduler_init` and the queries of kernel/core/scheduler.c. The answers of
-- `kmalloc`, the addresses of functions, the kernel's page table and the stack pointer are arguments.
use spinix.Base.{
  ℕ, ◌+◌, ◌-◌, ◌%◌, ◌^◌, Bool, true, false, Option, none, some, ◌||◌, ltb, ◌==◌, List, [], ◌∷◌,
  if◌then◌else◌, ◌>>=◌, add64,
}
use spinix.Base.Int.{ℤ, pos}
use spinix.Base.Memory.{update}
use spinix.Klibc.{memset, strncpy}
use spinix.Sched.{
  running, ready, Tcb, SchedStats, Sched, set_task, priority_to_queue, emptied, add_to_ready_queue,
}
use spinix.Sched.Switch.{lock_scheduler, unlock_scheduler}

abbrev pub stack_bytes : ℕ
stack_bytes = 16384

abbrev pub priority_idle : ℕ
priority_idle = 0

abbrev pub priority_normal : ℕ
priority_normal = 128

-- `offsetof(tcb_t, name)`
abbrev pub name_offset : ℕ
name_offset = 12

-- A structure of zeros.
abbrev pub blank_tcb : Tcb
blank_tcb = record {
  rsp = 0;
  tid = 0;
  kernel_stack_base = 0;
  kernel_stack_size = 0;
  cr3 = 0;
  state = 0;
  priority = 0;
  base_priority = 0;
  time_used_ns = 0;
  sleep_expiry_ns = 0;
  wait_ticks = 0;
  switch_count = 0;
  last_run_time_ns = 0;
  owner_proc = 0;
  wait_queue = 0;
  wait_reason = 0;
  wait_data = 0;
  pending_signals = 0;
  signal_pending = false;
  thread_errno = pos 0;
  preempt_count = 0;
  yield_count = 0;
  wakeup_count = 0;
}

-- `memset(task, 0, sizeof(tcb_t))`
abbrev pub clear : ℕ → Sched → Sched
clear t s = record s {
  tasks = update s.tasks t blank_tcb;
  next = update s.next t 0;
  bytes = memset (t + name_offset) 0 32 s.bytes;
}

-- `strncpy(task->name, name, 31); task->name[31] = '\0';`
abbrev pub set_name : ℕ → ℕ → Sched → Sched
set_name t name s = record s {
  bytes = update (strncpy (t + name_offset) name 31 s.bytes) (t + name_offset + 31) 0;
}

-- `*--stack_top = v` for each value; the result is the last address with the memory.
unfoldable pub push_words : List ℕ → ℕ → (ℕ → ℕ) → ℕ × (ℕ → ℕ)
push_words [] top words = (top, words)
push_words (v ∷ vs) top words = push_words vs (top - 8) (update words (top - 8) v)

-- The first frame of a task: its return addresses and six registers.
abbrev pub first_frame : ℕ → ℕ → ℕ → List ℕ
first_frame exit entry startup = exit ∷ entry ∷ startup ∷ 0 ∷ 0 ∷ 0 ∷ 0 ∷ 0 ∷ 0 ∷ []

-- The fields of a new task; `tid_t` has 32 bits.
abbrev pub fresh_tcb : ℕ → ℕ → ℕ → ℕ → ℕ → Tcb
fresh_tcb tid stack pml4 priority rsp = record blank_tcb {
  rsp = rsp;
  tid = tid % 2 ^ 32;
  kernel_stack_base = stack;
  kernel_stack_size = stack_bytes;
  cr3 = pml4;
  state = ready;
  priority = priority;
  base_priority = priority;
}

-- The addresses that a new task starts with.
pub record EntryPoints : Type 0 where
  pub exit_wrapper : ℕ
  pub startup_wrapper : ℕ
  pub entry_point : ℕ
  pub pml4 : ℕ

-- The task at `t`, before it is queued.
unfoldable pub build : EntryPoints → ℕ → ℕ → ℕ → ℕ → Sched → Sched
unfolding push_words
build entry t stack name priority s =
    let s1 = set_name t name (clear t s) in
    let frame = first_frame entry.exit_wrapper entry.entry_point entry.startup_wrapper in
    let r = push_words frame (stack + stack_bytes) s1.words in
    record s1 {
      next_tid = add64 s.next_tid 1;
      tasks = update s1.tasks t (fresh_tcb s.next_tid stack entry.pml4 priority (r.0));
      words = r.1;
    }

module _ (to_ns : ℕ → ℕ) where
  -- The result is the task, with whether `unlock_scheduler` has switched. `t` and `stack` are the
  -- answers of `kmalloc`.
  unfoldable pub create_kernel_task :
      EntryPoints → ℕ → ℕ → ℕ → ℕ → ℕ → Sched → Option (ℕ × (Bool × Sched))
  create_kernel_task entry tsc t stack name priority s =
      if t == 0
      then some (0, (false, s))
      else if stack == 0
      then some (0, (false, clear t s))
      else (do
        let s1 = lock_scheduler (build entry t stack name priority s)
        r ← unlock_scheduler to_ns tsc (add_to_ready_queue t s1)
        some (t, r))

  abbrev pub boot_tcb : ℕ → ℕ → Tcb
  boot_tcb pml4 rsp = record blank_tcb {
    cr3 = pml4;
    state = running;
    priority = priority_normal;
    base_priority = priority_normal;
    kernel_stack_base = rsp - rsp % stack_bytes;
    kernel_stack_size = stack_bytes;
  }

  -- The boot task becomes the one that runs.
  abbrev pub start_boot : ℕ → ℕ → ℕ → ℕ → ℕ → Sched → Sched
  start_boot tsc pml4 rsp boot name s =
      let s1 = set_name boot name (
        clear boot (record s {
          last_tsc = tsc;
          time_since_boot_ns = 0;
          stats = record {
            total_switches = 0;
            total_ticks = 0;
            idle_time_ns = 0;
            aging_boosts = 0;
          };
        })) in
      record s1 { tasks = update s1.tasks boot (boot_tcb pml4 rsp); current = boot }

  -- The idle task leaves the ready queue.
  abbrev pub unqueue_idle : Sched → Sched
  unqueue_idle s =
      let queue = priority_to_queue priority_idle in
      let s1 =
        if s.heads queue == s.idle
        then emptied queue (record s { heads = update s.heads queue (s.next s.idle) })
        else s in
      record s1 { next = update s1.next s1.idle 0 }

  -- `scheduler_init` from the creation of the idle task on; `none` is the panic without memory.
  unfoldable pub start_idle : EntryPoints → ℕ → ℕ → ℕ → ℕ → ℕ → Sched → Option (Bool × Sched)
  start_idle entry tsc tsc' idle stack name s = do
    r ← create_kernel_task entry tsc idle stack name priority_idle s
    if r.0 == 0 then none else if r.1.0 then some (r.1) else (do
      let s1 = unqueue_idle (lock_scheduler (record (r.1.1) { idle = r.0 }))
      r' ← unlock_scheduler to_ns tsc' s1
      if r'.0 then some r' else some (false, record (r'.1) { initialized = true }))

  unfoldable pub init :
      EntryPoints → ℕ → ℕ → ℕ → ℕ → ℕ → ℕ → ℕ → ℕ → ℕ → Sched → Option (Bool × Sched)
  init entry now tsc tsc' rsp boot boot_name idle stack idle_name s =
      if s.initialized
      then some (false, s)
      else if boot == 0
      then none
      else start_idle entry tsc tsc' idle stack idle_name
          (start_boot now entry.pml4 rsp boot boot_name s)

  -- A call with a task that may be NULL, under the scheduler's lock.
  unfoldable pub set_owner_proc : ℕ → ℕ → ℕ → Sched → Option (Bool × Sched)
  set_owner_proc tsc t proc s =
      if t == 0
      then some (false, s)
      else let s1 = lock_scheduler s in
        unlock_scheduler to_ns tsc (set_task t (record (s1.tasks t) { owner_proc = proc }) s1)

  unfoldable pub get_stats : ℕ → Sched → Option (SchedStats × (Bool × Sched))
  get_stats tsc s = do r ← unlock_scheduler to_ns tsc (lock_scheduler s); some (s.stats, r)

abbrev pub get_current_task : Sched → ℕ
get_current_task s = s.current

-- A signed 32-bit number as one of 64 bits.
abbrev pub extend32 : ℕ → ℕ
extend32 n = if ltb n (2 ^ 31) then n else n + (2 ^ 64 - 2 ^ 32)

unfoldable pub get_current_tid : Sched → ℕ
get_current_tid s = if s.current == 0 then 0 else extend32 (s.tasks s.current).tid

abbrev pub get_owner_proc : ℕ → Sched → ℕ
get_owner_proc t s = if t == 0 then 0 else (s.tasks t).owner_proc

abbrev pub set_errno : ℤ → Sched → Sched
set_errno err s =
    if s.current == 0
    then s
    else set_task s.current (record (s.tasks s.current) { thread_errno = err }) s

abbrev pub get_errno : Sched → ℤ
get_errno s = if s.current == 0 then pos 0 else (s.tasks s.current).thread_errno

-- `task_info_t` without its name.
pub record TaskInfo : Type 0 where
  pub tid : ℕ
  pub state : ℕ
  pub priority : ℕ
  pub time_used_ns : ℕ
  pub switch_count : ℕ
  pub preempt_count : ℕ
  pub yield_count : ℕ
  pub wakeup_count : ℕ
  pub owner_pid : ℕ

-- `offsetof(task_info_t, name)`
abbrev pub info_name_offset : ℕ
info_name_offset = 4

-- The fields of `task_info_t` but its name; `pid_of` is the field `pid` of a process.
abbrev pub info_of : (ℕ → ℕ) → Tcb → TaskInfo
info_of pid_of tcb = record {
  tid = tcb.tid;
  state = tcb.state;
  priority = tcb.priority;
  time_used_ns = tcb.time_used_ns;
  switch_count = tcb.switch_count;
  preempt_count = tcb.preempt_count;
  yield_count = tcb.yield_count;
  wakeup_count = tcb.wakeup_count;
  owner_pid = if tcb.owner_proc == 0 then 0 else pid_of tcb.owner_proc;
}

-- The result is the information, none for a NULL argument; the name is copied to the bytes at `info`.
unfoldable pub get_info :
    (ℕ → ℕ) → (ℕ → ℕ) → ℕ → ℕ → ℕ → Sched → Option (Option TaskInfo × (Bool × Sched))
get_info to_ns pid_of tsc t info s = if t == 0 || (info == 0) then some (none, (false, s)) else (do
  let s1 = lock_scheduler s
  let bytes = strncpy (info + info_name_offset) (t + name_offset) 32 s1.bytes
  r ← unlock_scheduler to_ns tsc (record s1 { bytes = bytes })
  some (some (info_of pid_of (s1.tasks t)), r))
