-- ===== src/Locks.antt =====
-- kernel/core/mutex.c: the mutex with tickets, for any number of threads whose steps interleave. A
-- step is one access to the shared counters, or what a thread does to the wait queue while it holds
-- `queue_lock`. Thread `i` runs the task `i + 1`. `block_task` may return at any time, and the caller
-- looks at `exits` again; so the wake-up at the end of `mutex_unlock` changes no state here.
pub mod Invariant
pub mod Moves
pub mod Safety
pub mod Spin
mod Tests
use spinix.Base.{
  ℕ, suc, ◌+◌, Bool, true, false, List, [], ◌∷◌, ◌++◌, ◌==◌, if◌then◌else◌, ◌&&◌, not, add64,
}
use spinix.Base.Memory.{update}
use spinix.Base.Chain.{without}

-- `mutex_t`; the wait queue is the list of the threads that `wait_data` links.
pub record Mutex : Type 0 where
  pub entries : ℕ
  pub exits : ℕ
  pub wait_queue : List ℕ
  pub owner : ℕ

-- Where a thread is: `try` tells `mutex_try_lock` from `mutex_lock`, `t` is its ticket.
pub data Pc : Type 0 where
  idle : Pc
  loaded : (try : Bool) → (exits : ℕ) → Pc
  compared : (try : Bool) → (exits : ℕ) → (entries : ℕ) → Pc
  taking : Pc
  checking : ℕ → Pc
  queueing : ℕ → Pc
  waiting : ℕ → Pc
  leaving : ℕ → Pc
  granted : ℕ → Pc
  critical : ℕ → Pc
  unlocking : ℕ → Pc
  storing : (t : ℕ) → (exits : ℕ) → Pc
  waking : (next_ticket : ℕ) → Pc

-- `mutex_init`
abbrev pub fresh : Mutex
fresh = record { entries = 0; exits = 0; wait_queue = []; owner = 0 }

-- What follows a failed fast path: `mutex_try_lock` returns, `mutex_lock` takes a ticket.
abbrev pub give_up : Bool → Pc
give_up try = if try then idle else taking

-- The compare and exchange of the fast path.
abbrev pub try_cas : Bool → ℕ → ℕ → Mutex → Mutex × Pc
try_cas try x e m =
    if x == e && (m.entries == e)
    then (record m { entries = add64 e 1 }, granted e)
    else (m, give_up try)

-- The next step of thread `i`. The choice is used by an idle thread only: it calls `mutex_try_lock` or
-- `mutex_lock`. A thread in the critical section calls `mutex_unlock`.
unfoldable pub move : Bool → ℕ → Mutex → Pc → Mutex × Pc
move try i m idle = (m, loaded try m.exits)
move try i m (loaded b x) = (m, compared b x m.entries)
move try i m (compared b x e) = try_cas b x e m
move try i m taking = (record m { entries = add64 m.entries 1 }, checking m.entries)
move try i m (checking t) = (m, if m.exits == t then granted t else queueing t)
move try i m (queueing t) = (record m { wait_queue = m.wait_queue ++ i ∷ [] }, waiting t)
move try i m (waiting t) = (m, if m.exits == t then leaving t else waiting t)
move try i m (leaving t) = (record m { wait_queue = without i m.wait_queue }, granted t)
move try i m (granted t) = (record m { owner = suc i }, critical t)
move try i m (critical t) = (record m { owner = 0 }, unlocking t)
move try i m (unlocking t) = (m, storing t m.exits)
move try i m (storing t x) = (record m { exits = add64 x 1 }, waking (add64 x 1))
move try i m (waking x) = (m, idle)

pub record System : Type 0 where
  pub mutex : Mutex
  pub pc : ℕ → Pc

unfoldable pub step : ℕ × Bool → System → System
step (i, try) s =
    let r = move try i s.mutex (s.pc i) in record { mutex = r.0; pc = update s.pc i (r.1) }

-- A sequence of steps, each of a thread with its choice.
unfoldable pub steps : List (ℕ × Bool) → System → System
steps [] s = s
steps (c ∷ cs) s = steps cs (step c s)

abbrev pub started : System
started = record { mutex = fresh; pc = λ i. idle }

-- `mutex_is_locked`
abbrev pub is_locked : Mutex → Bool
is_locked m = not (m.entries == m.exits)
