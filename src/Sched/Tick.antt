-- ===== src/Sched/Tick.antt =====
-- `scheduler_timer_tick` of kernel/core/scheduler.c as a whole, in the ticks without aging.
use spinix.Base.{
  ℕ, ◌≡◌, ◌<◌, ◌%◌, refl, sym, ap, ◌∙◌, ◌≢◌, inl, inr, true, false, Bool-cases, Option, some, List,
  [], ◌∷◌, ◌++◌, arith, All, length, leb, ◌==◌, ne→==, if◌then◌else◌, ◌>>=◌, add64,
}
use mathlib.Core.Path.{subst}
use spinix.Base.Memory.{update, update_ne, update_self}
use spinix.Sched.{queue_count, Sched, SchedStats, charge, update_time_accounting, priority_to_queue}
use spinix.Sched.Sleep.{expiry, wake_sleepers, count_tick, age_sometimes, use_slice, timer_tick}
use spinix.Sched.Queues.{IsValid, append_to, sleep_list, queue_small}
use spinix.Sched.Quiet.{Quiet, account-Quiet, Quiet-IsValid}
use spinix.Sched.Sleepers.{NotBefore, Sorted}
use spinix.Sched.Wake.{Sleeps, woken_lists, wake_sleepers_lem}

-- The queue of a task's priority.
abbrev pub own_queue : Sched → ℕ → ℕ
own_queue s t = priority_to_queue (s.tasks t).priority

account-ticks :
    (to_ns : ℕ → ℕ) (tsc : ℕ) (s : Sched)
    → (update_time_accounting to_ns tsc s).stats.total_ticks ≡ s.stats.total_ticks
unfolding update_time_accounting
account-ticks to_ns tsc s = elim (Bool-cases (s.current == 0)) [
  | inl e ↦ rw (e, charge) refl
  | inr e ↦ elim (Bool-cases (s.current == s.idle)) [
    | inl f ↦ rw (e, f, charge) refl
    | inr f ↦ rw (e, f, charge) refl
  ]
]

Sleeps-Quiet :
    (s s' : Sched) (ts : List ℕ)
    → Quiet s s'
    → All (Sleeps s (expiry s) (own_queue s)) ts
    → All (Sleeps s' (expiry s) (own_queue s)) ts
Sleeps-Quiet s s' [] q all = tt
Sleeps-Quiet s s' (t ∷ ts) q ((st, small, at, to), all) = (
  (rw (q.state t) st, rw (q.priority t) small, q.expiry t, ap priority_to_queue (q.priority t)),
  Sleeps-Quiet s s' ts q all,
)

counted : {s s' : Sched} → Quiet s s' → Quiet s (count_tick s')
counted q = record {
  next = q.next;
  heads = q.heads;
  tails = q.tails;
  bitmap = q.bitmap;
  sleeping = q.sleeping;
  terminated = q.terminated;
  current = q.current;
  idle = q.idle;
  state = q.state;
  priority = q.priority;
  base = q.base;
  expiry = q.expiry;
}

module _ (to_ns : ℕ → ℕ) (fuel tsc : ℕ) (s : Sched) (ls : ℕ → List ℕ) where
  -- The tick of an initialised scheduler.
  abbrev ticked : Option Sched
  ticked = do
    let s1 = count_tick (update_time_accounting to_ns tsc s)
    s2 ← wake_sleepers fuel s1.sleeping s1
    s3 ← age_sometimes fuel s2
    some (use_slice s3)

  tick-started : s.initialized ≡ true → timer_tick to_ns fuel tsc s ≡ ticked
  unfolding timer_tick
  tick-started init = ap (λ b. if b then ticked else some s) init

  -- In a tick of an initialised scheduler without aging, with valid queues, sleepers in a sleeping
  -- state, and fuel for more tasks than sleep, scheduler_timer_tick returns, and has moved the
  -- sleepers whose time has come, in their order, to the ends of the ready queues of their
  -- priority.
  pub timer_tick_lem :
      s.initialized ≡ true
      → add64 s.stats.total_ticks 1 % 10 ≢ 0
      → IsValid s ls
      → All (Sleeps s (expiry s) (own_queue s)) (ls sleep_list)
      → length (ls sleep_list) < fuel
      → (s' : Sched) × (timer_tick to_ns fuel tsc s ≡ some s')
        × IsValid s' (woken_lists s'.time_since_boot_ns (expiry s) (own_queue s) (ls sleep_list) ls)
  timer_tick_lem init tenth v all lt =
      let s0 = update_time_accounting to_ns tsc s in
      let s1 = count_tick s0 in
      let q = account-Quiet to_ns tsc s in
      let (s2, e, w, at, st) =
        wake_sleepers_lem fuel s1.time_since_boot_ns (expiry s) (own_queue s) (ls sleep_list) s1 ls
          (Quiet-IsValid s s0 ls q v) refl refl (Sleeps-Quiet s s1 (ls sleep_list) (counted q) all)
          lt in
      let no_aging : (s2.stats.total_ticks % 10 == 0) ≡ false =
        ap (λ (x : SchedStats). x.total_ticks % 10 == 0) st
        ∙ ap (λ n. add64 n 1 % 10 == 0) (account-ticks to_ns tsc s)
        ∙ ne→== tenth in
      (
        use_slice s2,
        tick-started init ∙ rw (e, ◌>>=◌) (rw (no_aging, ◌>>=◌) refl),
        subst (λ now. IsValid s2 (woken_lists now (expiry s) (own_queue s) (ls sleep_list) ls))
            (sym at) w,
      )

-- The tasks that sleep on after a wake-up at `now`.
abbrev pub late : ℕ → (ℕ → ℕ) → List ℕ → List ℕ
late now time [] = []
late now time (t ∷ ts) = if leb (time t) now then late now time ts else t ∷ ts

NotBefore-later :
    (time : ℕ → ℕ) (now low : ℕ) (ts : List ℕ)
    → now < low
    → NotBefore time low ts
    → All (λ t. now < time t) ts
NotBefore-later time now low [] lt n = tt
NotBefore-later time now low (t ∷ ts) lt (le, n) =
    (omega arith, NotBefore-later time now low ts lt n)

late-later :
    (now : ℕ) (time : ℕ → ℕ) (ts : List ℕ)
    → Sorted time ts
    → All (λ t. now < time t) (late now time ts)
late-later now time [] o = tt
late-later now time (t ∷ ts) (n, o) = elim (Bool-cases (leb (time t) now)) [
  | inl e ↦ rw (e, late) (late-later now time ts o)
  | inr e ↦
      let lt : now < time t = ground arith in
      rw (e, late) (lt, NotBefore-later time now (time t) ts lt n)
]

woken_lists-late :
    (now : ℕ) (time queue : ℕ → ℕ) (ts : List ℕ) (ls : ℕ → List ℕ)
    → ls sleep_list ≡ ts
    → All (λ t. queue t < queue_count) ts
    → woken_lists now time queue ts ls sleep_list ≡ late now time ts
woken_lists-late now time queue [] ls e small = e
woken_lists-late now time queue (t ∷ ts) ls e (lt, small) = elim (Bool-cases (leb (time t) now)) [
  | inl f ↦
      let ls1 = update ls sleep_list ts in
      rw (f, woken_lists, late)
        (woken_lists-late now time queue ts (append_to ls1 (queue t) t)
          (update_ne ls1 (queue t) sleep_list (ls1 (queue t) ++ t ∷ []) (omega arith)
            ∙ update_self ls sleep_list ts)
          small)
  | inr f ↦ rw (f, woken_lists, late) e
]

Sleeps-small :
    (s : Sched) (time : ℕ → ℕ) (ts : List ℕ)
    → All (Sleeps s time (own_queue s)) ts
    → All (λ t. own_queue s t < queue_count) ts
Sleeps-small s time [] all = tt
Sleeps-small s time (t ∷ ts) ((st, small, _, _), all) =
    (queue_small (s.tasks t).priority small, Sleeps-small s time ts all)

-- In such a tick, if the sleep list is ordered by the time to wake up, scheduler_timer_tick
-- returns, the queues are valid, and the tasks that are still on the sleep list all wake up after
-- the new time.
pub timer_tick-late :
    (to_ns : ℕ → ℕ) (fuel tsc : ℕ) (s : Sched) (ls : ℕ → List ℕ)
    → s.initialized ≡ true
    → add64 s.stats.total_ticks 1 % 10 ≢ 0
    → IsValid s ls
    → All (Sleeps s (expiry s) (own_queue s)) (ls sleep_list)
    → length (ls sleep_list) < fuel
    → Sorted (expiry s) (ls sleep_list)
    → (s' : Sched) × (ls' : ℕ → List ℕ) × (timer_tick to_ns fuel tsc s ≡ some s')
      × IsValid s' ls'
      × All (λ t. s'.time_since_boot_ns < expiry s t) (ls' sleep_list)
timer_tick-late to_ns fuel tsc s ls init tenth v all lt o =
    let (s', e, w) = timer_tick_lem to_ns fuel tsc s ls init tenth v all lt in
    let now = s'.time_since_boot_ns in
    let old = ls sleep_list in
    (
      s',
      woken_lists now (expiry s) (own_queue s) old ls,
      e,
      w,
      subst (All (λ t. now < expiry s t))
          (sym (
            woken_lists-late now (expiry s) (own_queue s) old ls refl
              (Sleeps-small s (expiry s) old all)))
          (late-later now (expiry s) old o),
    )
