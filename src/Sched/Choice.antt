-- ===== src/Sched/Choice.antt =====
-- `schedule` of kernel/core/scheduler.c against the lists of tasks: which task runs next, and where
-- the one that ran goes.
use spinix.Base.{
  ℕ, ◌≡◌, ◌<◌, refl, sym, ap, ◌∙◌, ◌≢◌, ◌⊎◌, inl, inr, Bool, true, false, Option, some, List, [],
  ◌∷◌, arith, has, ◌==◌, ne→==, if◌then◌else◌,
}
use mathlib.Core.Path.{subst, fun_ext}
use spinix.Base.Int.{pos, is_zero}
use spinix.Base.Memory.{update, update_self, update_one}
use spinix.Sched.{
  running, Tcb, Sched, queue_count, calculate_time_slice, update_time_accounting,
  remove_from_ready_queue,
}
use spinix.Sched.Lists.{Free}
use spinix.Sched.Quiet.{
  Quiet-IsValid, account-Quiet, chosen-Quiet, Like, Like-trans, Like-Quiet, Like-same,
}
use spinix.Sched.Queues.{IsValid, append_to, head-nonzero}
use spinix.Sched.Queues.Remove.{SameTasks, remove_lem}
use spinix.Sched.Switch.{
  go_idle, requeue_current, set_state, chosen, run, choose, switch_to_task, schedule,
}
use spinix.Sched.Requeue.{
  Runs, Stopped, home, Requeues, requeue-slice, Runs-Requeues, Stopped-Requeues, Requeues-Like,
}

-- Whatever the queues are, `t` runs.
pub run-runs :
    (s : Sched) (t : ℕ)
    → t ≢ 0
    → (s' : Sched) × (run t s ≡ some (true, s')) × (s'.current ≡ t) × ((s'.tasks t).state ≡ running)
unfolding run switch_to_task
run-runs s t nt =
    let old = (requeue_current s).tasks in
    let z = ne→== nt in
    (
      switch_to_task t (set_state running t (requeue_current s)),
      (rw z),
      (rw z),
      (rw z (ap (λ (x : Tcb). x.state) (update_self old t (record (old t) { state = running })))),
    )

pub run-IsValid :
    (s : Sched) (ls' : ℕ → List ℕ) (t : ℕ)
    → IsValid (requeue_current s) ls'
    → t ≢ 0
    → (s' : Sched) × (run t s ≡ some (true, s'))
      × (s'.current ≡ t)
      × ((s'.tasks t).state ≡ running)
      × (s'.time_slice_ns ≡ s.time_slice_ns)
      × IsValid s' ls'
unfolding run switch_to_task
run-IsValid s ls' t w nt =
    let s1 = set_state running t (requeue_current s) in
    let old = (requeue_current s).tasks in
    let z = ne→== nt in
    (
      switch_to_task t s1,
      (rw z),
      (rw z),
      (rw z (ap (λ (x : Tcb). x.state) (update_self old t (record (old t) { state = running })))),
      (rw z (requeue-slice s)),
      (rw z w),
    )

-- The outcome where no task is ready: the idle task runs.
abbrev pub Idles : ℕ → ((ℕ → List ℕ) → ℕ → List ℕ) → (ℕ → List ℕ) → Option (Bool × Sched) → Type 0
Idles idle after ls out =
    ((i : ℕ) → i < queue_count → ls i ≡ [])
    × ((s' : Sched) × (out ≡ some (true, s'))
        × (s'.current ≡ idle)
        × (s'.time_slice_ns ≡ 0)
        × IsValid s' (after ls))

-- The outcome where the first task of the highest queue runs, for the time slice of its priority.
abbrev pub Picks :
    (ℕ → ℕ) → ((ℕ → List ℕ) → ℕ → List ℕ) → (ℕ → List ℕ) → Option (Bool × Sched) → Type 0
Picks priority after ls out =
    (i : ℕ) × (t : ℕ) × (ts : List ℕ) × (i < queue_count)
    × (ls i ≡ t ∷ ts)
    × ((j : ℕ) → i < j → j < queue_count → ls j ≡ [])
    × ((s' : Sched) × (out ≡ some (true, s'))
        × (s'.current ≡ t)
        × ((s'.tasks t).state ≡ running)
        × (s'.time_slice_ns ≡ calculate_time_slice (priority t))
        × IsValid s' (after (update ls i ts)))

-- The two outcomes of a `schedule` that switches.
abbrev pub Switches :
    Sched → ((ℕ → List ℕ) → ℕ → List ℕ) → (ℕ → List ℕ) → Option (Bool × Sched) → Type 0
Switches s after ls out = Idles s.idle after ls out ⊎ Picks (λ t. (s.tasks t).priority) after ls out

-- The outcome depends on the idle task and on the priorities.
pub Switches-same :
    (s s' : Sched) (after : (ℕ → List ℕ) → ℕ → List ℕ) (ls : ℕ → List ℕ)
    (out : Option (Bool × Sched))
    → s'.idle ≡ s.idle
    → ((t : ℕ) → (s'.tasks t).priority ≡ (s.tasks t).priority)
    → Switches s' after ls out
    → Switches s after ls out
Switches-same s s' after ls out e p o =
    moved s'.idle s.idle (sym e) (λ t. (s'.tasks t).priority) (λ t. (s.tasks t).priority)
      (fun_ext (λ t. sym (p t))) o
  where
    moved :
        (i i' : ℕ)
        → i' ≡ i
        → (p p' : ℕ → ℕ) → p' ≡ p
        → Idles i after ls out ⊎ Picks p after ls out
        → Idles i' after ls out ⊎ Picks p' after ls out
    moved i i' ei p p' ep x = rw (ei, ep) x

choose-none : (s : Sched) → remove_from_ready_queue s ≡ (0, s) → choose s ≡ go_idle s
unfolding choose
choose-none s e =
    ap (λ (r : ℕ × Sched). if r.0 == 0 then go_idle (r.1) else run (r.0) (chosen (r.0) (r.1))) e

pub choose-some :
    (s : Sched) (t : ℕ)
    → (remove_from_ready_queue s).0 ≡ t
    → t ≢ 0
    → choose s ≡ run t (chosen t ((remove_from_ready_queue s).1))
unfolding choose
choose-some s t e nt =
    let u = (remove_from_ready_queue s).1 in
    ap (λ p. if p == 0 then go_idle u else run p (chosen p u)) e ∙ rw (ne→== nt) refl

idle-busy :
    (s : Sched) → s.current ≢ s.idle → go_idle s ≡ run s.idle (record s { time_slice_ns = 0 })
unfolding go_idle
idle-busy s ne = rw (ne→== ne) refl

module _ (s : Sched) (ls : ℕ → List ℕ) (v : IsValid s ls) (after : (ℕ → List ℕ) → ℕ → List ℕ)
    (h : Requeues s ls after) where
  -- Removal keeps the lists without the task that runs.
  still-Free :
      (i t : ℕ) (ts : List ℕ) → ls i ≡ t ∷ ts → Free ls s.current → Free (update ls i ts) s.current
  still-Free i t ts e free =
      update_one (λ j l. has s.current l ≡ false) ls i ts
        (let f : has s.current (t ∷ ts) ≡ false = subst (λ l. has s.current l ≡ false) e (free i) in
          ground arith)
        (λ j ne. free j)

  choose_idle :
      s.current ≢ s.idle
      → s.idle ≢ 0
      → ((i : ℕ) → i < queue_count → ls i ≡ [])
      → remove_from_ready_queue s ≡ (0, s)
      → Idles s.idle after ls (choose s)
  choose_idle busy ni empty e =
      let s1 = record s { time_slice_ns = 0 } in
      let like : Like s s1 = record {
        current = refl;
        idle = refl;
        state = λ t. refl;
        priority = λ t. refl;
        base = λ t. refl;
      } in
      let (s', out, cur, st, slice, w) =
        run-IsValid s1 (after ls) s.idle (h s1 ls like (λ free. free) v) ni in
      (empty, (s', choose-none s e ∙ idle-busy s busy ∙ out, cur, slice, w))

  choose_task :
      (i t : ℕ) (ts : List ℕ)
      → ls i ≡ t ∷ ts
      → t ≢ 0
      → (remove_from_ready_queue s).0 ≡ t
      → IsValid ((remove_from_ready_queue s).1) (update ls i ts)
      → SameTasks s ((remove_from_ready_queue s).1)
      → (s' : Sched) × (choose s ≡ some (true, s'))
        × (s'.current ≡ t)
        × ((s'.tasks t).state ≡ running)
        × (s'.time_slice_ns ≡ calculate_time_slice (s.tasks t).priority)
        × IsValid s' (after (update ls i ts))
  choose_task i t ts e nt first w same =
      let u = (remove_from_ready_queue s).1 in
      let q = chosen-Quiet t u in
      let like = Like-trans s u (chosen t u) (Like-same s u same) (Like-Quiet u (chosen t u) q) in
      let (s', out, cur, st, slice, w') =
        run-IsValid (chosen t u) (after (update ls i ts)) t
          (h (chosen t u) (update ls i ts) like (still-Free i t ts e)
            (Quiet-IsValid u (chosen t u) (update ls i ts) q w))
          nt in
      (
        s',
        choose-some s t first nt ∙ out,
        cur,
        st,
        slice ∙ ap (λ (x : ℕ → Tcb). calculate_time_slice (x t).priority) same.tasks,
        w',
      )

  pub choose_lem : s.current ≢ s.idle → s.idle ≢ 0 → Switches s after ls (choose s)
  choose_lem busy ni = elim (remove_lem s ls v) [
    | inl (empty, e) ↦ inl (choose_idle busy ni empty e)
    | inr (i, t, ts, lt, e, higher, first, w, same) ↦ inr (
      i,
      t,
      ts,
      lt,
      e,
      higher,
      choose_task i t ts e (head-nonzero s ls v i t ts lt e) first w same,
    )
  ]

-- A `schedule` that is not postponed.
pub schedule-Switches :
    (to_ns : ℕ → ℕ) (tsc : ℕ) (s : Sched) (ls : ℕ → List ℕ) (after : (ℕ → List ℕ) → ℕ → List ℕ)
    → IsValid s ls
    → Requeues s ls after
    → s.current ≢ s.idle
    → s.idle ≢ 0
    → is_zero s.postpone ≡ true
    → Switches s after ls (schedule to_ns tsc s)
unfolding schedule
schedule-Switches to_ns tsc s ls after v h busy ni now =
    let s0 = update_time_accounting to_ns tsc s in
    let q = account-Quiet to_ns tsc s in
    let l = Like-Quiet s s0 q in
    rw now (
      Switches-same s s0 after ls (choose s0) l.idle l.priority (
        choose_lem s0 ls (Quiet-IsValid s s0 ls q v) after (Requeues-Like s s0 ls after l h)
          (λ e. busy (sym l.current ∙ e ∙ l.idle)) (λ z. ni (sym l.idle ∙ z))))

-- If the queues are valid, task switches are not postponed, and the task that runs is neither
-- blocked nor the idle task, then schedule switches to the first task of the highest queue with a
-- task, or to the idle task if all are empty, and puts the task that ran at the end of the queue of
-- its own priority.
pub schedule-Runs :
    (to_ns : ℕ → ℕ) (tsc : ℕ) (s : Sched) (ls : ℕ → List ℕ)
    → IsValid s ls
    → Runs s ls
    → s.idle ≢ 0
    → s.postpone ≡ pos 0
    → Switches s (λ lu. append_to lu (home s) s.current) ls (schedule to_ns tsc s)
schedule-Runs to_ns tsc s ls v r ni p =
    schedule-Switches to_ns tsc s ls (λ lu. append_to lu (home s) s.current) v
      (Runs-Requeues s ls r) r.busy ni (ap is_zero p)

-- The same for a task that is blocked or has ended: it stays on the lists where it is.
pub schedule-Stopped :
    (to_ns : ℕ → ℕ) (tsc : ℕ) (s : Sched) (ls : ℕ → List ℕ)
    → IsValid s ls
    → Stopped s
    → s.current ≢ s.idle
    → s.idle ≢ 0
    → s.postpone ≡ pos 0
    → Switches s (λ lu. lu) ls (schedule to_ns tsc s)
schedule-Stopped to_ns tsc s ls v st busy ni p =
    schedule-Switches to_ns tsc s ls (λ lu. lu) v (Stopped-Requeues s ls st) busy ni (ap is_zero p)
