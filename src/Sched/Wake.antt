-- ===== src/Sched/Wake.antt =====
-- The timer tick of kernel/core/scheduler.c wakes the sleepers whose time has come.
use spinix.Base.{
  ℕ, zero, suc, ◌≡◌, ◌<◌, refl, sym, ap, ◌∙◌, ◌≢◌, ◌⊎◌, inl, inr, false, Bool-cases, some, List, [],
  ◌∷◌, ◌++◌, arith, has, Distinct, All, length, leb, ◌==◌, eq→==, ne→==, if◌then◌else◌,
}
use mathlib.Core.Path.{subst, ap₂}
use spinix.Base.Memory.{update, update_ne, update_self}
use spinix.Base.Chain.{Chain}
use spinix.Sched.{
  ready, asleep, interruptible, queue_count, enqueue, made_ready, Tcb, Sched, priority_to_queue,
  add_to_ready_queue,
}
use spinix.Sched.Switch.{set_state}
use spinix.Sched.Sleep.{expiry, wake_sleeper, wake_sleepers}
use spinix.Sched.Lists.{tail-Free, Lists-tail, Lists-head}
use spinix.Sched.Queues.{
  IsValid, append_to, all_heads, sleep_list, add-IsValid, Queues-other, heads-sleeping, queue_small,
}

-- The lists after the wake-up at the time `now`: the sleepers `ts` go to the queues of their
-- priority, in their order, up to the first one that wakes up later.
abbrev pub woken_lists : ℕ → (ℕ → ℕ) → (ℕ → ℕ) → List ℕ → (ℕ → List ℕ) → ℕ → List ℕ
woken_lists now time queue [] ls = ls
woken_lists now time queue (t ∷ ts) ls =
    if leb (time t) now
    then woken_lists now time queue ts (append_to (update ls sleep_list ts) (queue t) t)
    else ls

-- A task that sleeps until `time t` and goes to the queue `queue t`.
abbrev pub Sleeps : Sched → (ℕ → ℕ) → (ℕ → ℕ) → ℕ → Type 0
Sleeps s time queue t =
    (((s.tasks t).state ≡ asleep) ⊎ ((s.tasks t).state ≡ interruptible))
    × ((s.tasks t).priority < 256)
    × (expiry s t ≡ time t)
    × (priority_to_queue (s.tasks t).priority ≡ queue t)

-- What an addition to a ready queue changes besides the queues.
record Adds (t : ℕ) (s s' : Sched) : Type 0 where
  tasks : s'.tasks ≡ update s.tasks t (made_ready (s.tasks t))
  sleeping : s'.sleeping ≡ s.sleeping
  now : s'.time_since_boot_ns ≡ s.time_since_boot_ns
  ticks : s'.stats ≡ s.stats

add-Adds : (t : ℕ) (s : Sched) → Adds t s (add_to_ready_queue t s)
unfolding add_to_ready_queue
add-Adds t s = elim (Bool-cases (s.heads (priority_to_queue (s.tasks t).priority) == 0)) [
  | inl e ↦ rw (e, enqueue) record { tasks = refl; sleeping = refl; now = refl; ticks = refl }
  | inr e ↦ rw (e, enqueue) record { tasks = refl; sleeping = refl; now = refl; ticks = refl }
]

-- A sleeper that wakes up.
abbrev roused : ℕ → Sched → Sched
roused t s = set_state ready t (record s { sleeping = s.next t; next = update s.next t 0 })

wake-eq :
    (t : ℕ) (s : Sched)
    → ((s.tasks t).state ≡ asleep) ⊎ ((s.tasks t).state ≡ interruptible)
    → wake_sleeper t s ≡ add_to_ready_queue t (roused t s)
unfolding wake_sleeper
wake-eq t s (inl e) = rw (eq→== e) refl
wake-eq t s (inr e) = elim (Bool-cases ((s.tasks t).state == asleep)) [
  | inl f ↦ rw f refl
  | inr f ↦ rw (f, eq→== e) refl
]

module _ (time queue : ℕ → ℕ) (s : Sched) (ls : ℕ → List ℕ) (v : IsValid s ls) where
  wake-IsValid :
      (t : ℕ) (ts : List ℕ)
      → ls sleep_list ≡ t ∷ ts
      → Sleeps s time queue t
      → IsValid (wake_sleeper t s) (append_to (update ls sleep_list ts) (queue t) t)
  wake-IsValid t ts e (st, small, at, to) =
      let heads = all_heads s.heads s.sleeping s.terminated in
      let ls' = update ls sleep_list ts in
      let s1 = roused t s in
      let w : IsValid s1 ls' =
        Queues-other s ls v sleep_list ts (update s.next t 0) (s.next t) s.terminated (omega arith)
          (Lists-head (update s.next t 0) (update heads sleep_list (s.next t)) ls'
            (Lists-tail s.next heads ls v.lists sleep_list t ts e)
            (all_heads s.heads (s.next t) s.terminated)
            (heads-sleeping s.heads s.sleeping s.terminated (s.next t))) in
      let left = tail-Free s.next heads ls v.lists sleep_list t ts e in
      let tcb = s.tasks t in
      let same : (s1.tasks t).priority ≡ tcb.priority =
        ap (λ (x : Tcb). x.priority) (update_self s.tasks t (record tcb { state = ready })) in
      subst (λ s'. IsValid s' (append_to ls' (queue t) t)) (sym (wake-eq t s st))
        (subst (λ q. IsValid (add_to_ready_queue t s1) (append_to ls' q t))
          (ap priority_to_queue same ∙ to)
          (add-IsValid s1 ls' t w (subst (λ p. p < 256) (sym same) small) (left.0) (left.1)))

  -- The tasks that have not been woken sleep on.
  wake-Sleeps :
      (t q : ℕ)
      → Sleeps s time queue t
      → q ≢ t
      → Sleeps s time queue q
      → Sleeps (wake_sleeper t s) time queue q
  wake-Sleeps t q (st, small, at, to) ne h =
      let s1 = roused t s in
      let old = s.tasks t in
      let same : (wake_sleeper t s).tasks q ≡ s.tasks q =
        ap (λ (x : Sched). x.tasks q) (wake-eq t s st)
        ∙ ap (λ (f : ℕ → Tcb). f q) ((add-Adds t s1).tasks)
        ∙ update_ne s1.tasks t q (made_ready (s1.tasks t)) ne
        ∙ update_ne s.tasks t q (record old { state = ready }) ne in
      subst
        (λ (x : Tcb).
          ((x.state ≡ asleep) ⊎ (x.state ≡ interruptible))
          × (x.priority < 256)
          × (x.sleep_expiry_ns ≡ time q)
          × (priority_to_queue x.priority ≡ queue q))
        (sym same) h

wake-frame :
    (t : ℕ) (s : Sched)
    → ((s.tasks t).state ≡ asleep) ⊎ ((s.tasks t).state ≡ interruptible)
    → ((wake_sleeper t s).sleeping ≡ s.next t)
      × ((wake_sleeper t s).time_since_boot_ns ≡ s.time_since_boot_ns)
      × ((wake_sleeper t s).stats ≡ s.stats)
wake-frame t s st =
    let e = wake-eq t s st in
    let a = add-Adds t (roused t s) in
    (
      ap (λ (x : Sched). x.sleeping) e ∙ a.sleeping,
      ap (λ (x : Sched). x.time_since_boot_ns) e ∙ a.now,
      ap (λ (x : Sched). x.stats) e ∙ a.ticks,
    )

All-kept :
    (time queue : ℕ → ℕ) (s : Sched) (ls : ℕ → List ℕ) (v : IsValid s ls) (t : ℕ) (us : List ℕ)
    → Sleeps s time queue t
    → has t us ≡ false
    → All (Sleeps s time queue) us
    → All (Sleeps (wake_sleeper t s) time queue) us
All-kept time queue s ls v t [] h out all = tt
All-kept time queue s ls v t (u ∷ us) h out (hu, all) = (
  wake-Sleeps time queue s ls v t u h (ground arith) hu,
  All-kept time queue s ls v t us h (ground arith) all,
)

-- In valid queues, with fuel for more tasks than sleep, the loop of the timer tick moves the sleepers
-- whose time has come to their ready queues.
pub wake_sleepers_lem :
    (fuel now : ℕ) (time queue : ℕ → ℕ) (ts : List ℕ) (s : Sched) (ls : ℕ → List ℕ)
    → IsValid s ls
    → ls sleep_list ≡ ts
    → s.time_since_boot_ns ≡ now
    → All (Sleeps s time queue) ts
    → length ts < fuel
    → (s' : Sched) × (wake_sleepers fuel s.sleeping s ≡ some s')
      × IsValid s' (woken_lists now time queue ts ls)
      × (s'.time_since_boot_ns ≡ now)
      × (s'.stats ≡ s.stats)
unfolding wake_sleepers
wake_sleepers_lem zero now time queue ts s ls v e at all lt = absurd (omega arith)
wake_sleepers_lem (suc fuel) now time queue [] s ls v e at all lt =
    let c : s.sleeping ≡ 0 = subst (Chain s.next s.sleeping) e (v.lists.chain sleep_list) in
    (s, (rw (eq→== c) refl), v, at, refl)
wake_sleepers_lem (suc fuel) now time queue (t ∷ ts) s ls v e at (h, all) lt =
    let c = subst (Chain s.next s.sleeping) e (v.lists.chain sleep_list) in
    let more = ne→== (c.1) in
    let due : leb (expiry s t) s.time_since_boot_ns ≡ leb (time t) now = ap₂ leb (h.2) at in
    elim (Bool-cases (leb (time t) now)) [
      | inl f ↦
          let s1 = wake_sleeper t s in
          let (slept, now_same, stats_same) = wake-frame t s (h.0) in
          let out = (subst Distinct e (v.lists.distinct sleep_list)).0 in
          let small : queue t < queue_count =
            subst (λ q. q < queue_count) (h.3) (queue_small (s.tasks t).priority (h.1)) in
          let left =
            update_ne (update ls sleep_list ts) (queue t) sleep_list
              (update ls sleep_list ts (queue t) ++ t ∷ []) (omega arith)
            ∙ update_self ls sleep_list ts in
          let (s', r, w, at', st) =
            wake_sleepers_lem fuel now time queue ts s1
              (append_to (update ls sleep_list ts) (queue t) t)
              (wake-IsValid time queue s ls v t ts e h) left (now_same ∙ at)
              (All-kept time queue s ls v t ts h out all) (omega arith) in
          (
            s',
            ap (λ p. wake_sleepers (suc fuel) p s) (c.0)
                ∙ rw (more, due ∙ f) (ap (λ p. wake_sleepers fuel p s1) (sym slept) ∙ r),
            (rw (f, woken_lists) w),
            at',
            st ∙ stats_same,
          )
      | inr f ↦ (
        s,
        ap (λ p. wake_sleepers (suc fuel) p s) (c.0) ∙ rw (more, due ∙ f) refl,
        (rw (f, woken_lists) v),
        at,
        refl,
      )
    ]
