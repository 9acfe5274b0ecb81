-- ===== src/Sched/Requeue.antt =====
-- The first half of `schedule` in kernel/core/scheduler.c: what becomes of the task that has run.
use spinix.Base.{
  ℕ, ◌≡◌, ◌<◌, refl, sym, ap, ◌∙◌, ◌≢◌, inl, inr, ◌&&◌, not, false, Bool-cases, List, ◌==◌, eq→==,
  ne→==,
}
use mathlib.Core.Path.{subst}
use spinix.Base.Memory.{update_self}
use spinix.Sched.{running, enqueue, Tcb, Sched, priority_to_queue, set_task, add_to_ready_queue}
use spinix.Sched.Lists.{Free}
use spinix.Sched.Quiet.{Like, Like-trans}
use spinix.Sched.Queues.{IsValid, append_to, add-IsValid}
use spinix.Sched.Switch.{preempted, requeue_current}

-- A task that runs and may be preempted: it is not the idle task and on no list.
pub record Runs (s : Sched) (ls : ℕ → List ℕ) : Type 0 where
  pub nonzero : s.current ≢ 0
  pub busy : s.current ≢ s.idle
  pub state : (s.tasks s.current).state ≡ running
  pub free : Free ls s.current
  pub level : (preempted (s.tasks s.current)).priority < 256

-- A task that does not run any more: it is blocked or has ended.
abbrev pub Stopped : Sched → Type 0
Stopped s = (s.tasks s.current).state ≢ running

-- The queue to which the task that runs goes back: its priority without what aging has added.
abbrev pub home : Sched → ℕ
home s = priority_to_queue (preempted (s.tasks s.current)).priority

module _ (s : Sched) (ls : ℕ → List ℕ) (v : IsValid s ls) (r : Runs s ls) where
  pub requeue-IsValid : IsValid (requeue_current s) (append_to ls (home s) s.current)
  unfolding requeue_current
  requeue-IsValid =
      let t = s.current in
      let tcb = preempted (s.tasks t) in
      let nz = ne→== r.nonzero in
      let running_now = eq→== r.state in
      let not_idle = ne→== r.busy in
      let same = update_self s.tasks t tcb in
      rw (nz, running_now, not_idle)
        (subst
          (λ (x : Tcb).
            IsValid (add_to_ready_queue t (set_task t tcb s))
              (append_to ls (priority_to_queue x.priority) t))
          same
          (add-IsValid (set_task t tcb s) ls t v
            (subst (λ (x : Tcb). x.priority < 256) (sym same) r.level) r.free r.nonzero))

add-slice : (t : ℕ) (s : Sched) → (add_to_ready_queue t s).time_slice_ns ≡ s.time_slice_ns
unfolding add_to_ready_queue
add-slice t s = elim (Bool-cases (s.heads (priority_to_queue (s.tasks t).priority) == 0)) [
  | inl e ↦ rw (e, enqueue)
  | inr e ↦ rw (e, enqueue)
]

-- What becomes of the task that runs, for every state that agrees with `s` about it: the queues
-- `ls` become `after ls`.
abbrev pub Requeues : Sched → (ℕ → List ℕ) → ((ℕ → List ℕ) → ℕ → List ℕ) → Type 0
Requeues s ls after =
    (u : Sched) (lu : ℕ → List ℕ)
    → Like s u
    → (Free ls s.current → Free lu s.current)
    → IsValid u lu
    → IsValid (requeue_current u) (after lu)

pub requeue-slice : (s : Sched) → (requeue_current s).time_slice_ns ≡ s.time_slice_ns
unfolding requeue_current
requeue-slice s =
    let t = s.current in
    elim (Bool-cases (not (t == 0) && (s.tasks t).state == running && not (t == s.idle))) [
      | inl e ↦ rw e (add-slice t (set_task t (preempted (s.tasks t)) s))
      | inr e ↦ rw e refl
    ]

pub Runs-Requeues :
    (s : Sched) (ls : ℕ → List ℕ)
    → Runs s ls
    → Requeues s ls (λ lu. append_to lu (home s) s.current)
Runs-Requeues s ls r u lu l free w =
    let r' : Runs u lu = record {
      nonzero = rw l.current r.nonzero;
      busy = rw (l.current, l.idle) r.busy;
      state = l.state u.current ∙ rw l.current r.state;
      free = rw l.current (free r.free);
      level = rw (l.priority u.current, l.base u.current, l.current) r.level;
    } in
    let same : home u ≡ home s =
      ap priority_to_queue (rw (l.priority u.current, l.base u.current, l.current) refl) in
    subst (λ c. IsValid (requeue_current u) (append_to lu (home s) c)) l.current
      (subst (λ h. IsValid (requeue_current u) (append_to lu h u.current)) same
        (requeue-IsValid u lu w r'))

pub Stopped-Requeues : (s : Sched) (ls : ℕ → List ℕ) → Stopped s → Requeues s ls (λ lu. lu)
unfolding requeue_current
Stopped-Requeues s ls r u lu l free w =
    let test : ((u.tasks u.current).state == running) ≡ false =
      ne→== (λ e. r (sym (l.state s.current) ∙ ap (λ c. (u.tasks c).state) (sym l.current) ∙ e)) in
    elim (Bool-cases (u.current == 0)) [ inl e ↦ rw e w | inr e ↦ rw (e, test) w ]

pub Requeues-Like :
    (s s' : Sched) (ls : ℕ → List ℕ) (after : (ℕ → List ℕ) → ℕ → List ℕ)
    → Like s s'
    → Requeues s ls after
    → Requeues s' ls after
Requeues-Like s s' ls after l h u lu m free w =
    h u lu (Like-trans s s' u l m) (subst (λ c. Free ls c → Free lu c) l.current free) w
