-- ===== src/Sched/Nap.antt =====
-- `nano_sleep_until` of kernel/core/scheduler.c: the task that runs goes to sleep.
use spinix.Base.{
  ℕ, ◌≡◌, ◌<◌, refl, sym, ap, ◌∙◌, ◌≢◌, inl, inr, ◌||◌, false, Bool-cases, some, List, [], ◌∷◌,
  arith, has, length, leb, ◌==◌, ne→==, ◌>>=◌,
}
use mathlib.Core.Path.{subst}
use spinix.Base.Int.{ℤ, pos, ◌+ℤ◌, ◌-ℤ◌}
use spinix.Base.Memory.{update, update-field, update_self, update_ne}
use spinix.Sched.{asleep, Tcb, Sched, set_task}
use spinix.Sched.Switch.{lock_scheduler, block_task}
use spinix.Sched.Sleep.{insert_at, join_sleepers, expires_at, expiry, nano_sleep_until}
use spinix.Sched.Lists.{Free}
use spinix.Sched.Queues.{IsValid, sleep_list}
use spinix.Sched.Choice.{Switches, Switches-same}
use spinix.Sched.Sleepers.{
  insert_by, NotBefore, has-insert_by, Sorted, insert_by-Sorted, join_sleepers-IsValid,
}
use spinix.Sched.Block.{AtRest, unlock_quiet, block_task-Switches}

-- The task that runs has its time to wake up.
abbrev pub with_expiry : ℕ → Sched → Sched
with_expiry wake s = set_task s.current (expires_at wake (s.tasks s.current)) s

expiry-priority :
    (wake : ℕ) (s : Sched) (t : ℕ) → ((with_expiry wake s).tasks t).priority ≡ (s.tasks t).priority
expiry-priority wake s t =
    update-field (λ (x : Tcb). x.priority) s.tasks s.current (expires_at wake (s.tasks s.current)) t
      refl

up_down-AtRest : (z : ℤ) → AtRest z → AtRest ((z +ℤ pos 1) -ℤ pos 1)
unfolding ◌+ℤ◌ ◌-ℤ◌
up_down-AtRest z (inl e) = inl (rw e refl)
up_down-AtRest z (inr e) = inr (rw e refl)

-- What an insertion leaves alone.
record SameBut (s s' : Sched) : Type 0 where
  tasks : s'.tasks ≡ s.tasks
  current : s'.current ≡ s.current
  idle : s'.idle ≡ s.idle
  postpone : s'.postpone ≡ s.postpone
  postponed : s'.postponed ≡ s.postponed

insert_at-SameBut : (t prev : ℕ) (s : Sched) → SameBut s (insert_at t prev s)
insert_at-SameBut t prev s = elim (Bool-cases (prev == 0)) [
  | inl e ↦
      rw (e, insert_at)
        record { tasks = refl; current = refl; idle = refl; postpone = refl; postponed = refl }
  | inr e ↦
      rw (e, insert_at)
        record { tasks = refl; current = refl; idle = refl; postpone = refl; postponed = refl }
]

-- The state after the insertion and the unlock.
abbrev inserted : ℕ → ℕ → Sched → Sched
inserted prev wake s =
    let s1 = insert_at s.current prev (with_expiry wake (lock_scheduler s)) in
    record s1 { postpone = s1.postpone -ℤ pos 1; lock_count = s1.lock_count -ℤ pos 1 }

nano_sleep-eq :
    (to_ns : ℕ → ℕ) (fuel tsc tsc' wake prev : ℕ) (s : Sched)
    → leb wake s.time_since_boot_ns ≡ false
    → s.current ≢ 0
    → s.postponed ≡ false
    → join_sleepers fuel wake s.current (with_expiry wake (lock_scheduler s))
      ≡ some (insert_at s.current prev (with_expiry wake (lock_scheduler s)))
    → nano_sleep_until to_ns fuel tsc tsc' wake s
      ≡ block_task to_ns tsc' asleep (inserted prev wake s)
unfolding nano_sleep_until
nano_sleep-eq to_ns fuel tsc tsc' wake prev s later nz e join =
    let s1 = insert_at s.current prev (with_expiry wake (lock_scheduler s)) in
    let same = insert_at-SameBut s.current prev (with_expiry wake (lock_scheduler s)) in
    let quiet = unlock_quiet to_ns tsc s1 (same.postponed ∙ e) in
    rw (later, ne→== nz) (rw (join, ◌>>=◌) (rw (quiet, ◌>>=◌) refl))

module _ (to_ns : ℕ → ℕ) (fuel tsc tsc' wake : ℕ) (s : Sched) (ls : ℕ → List ℕ) where
  -- In valid queues, a task that is on no list and is not the idle task, and that calls
  -- nano_sleep_until with a time to come, joins the sleep list behind the tasks that wake up no
  -- later, and the first task of the highest queue runs, or the idle task if all are empty. The
  -- counter of postponed switches is 0 or -1 with no switch to make up for, there is an idle task,
  -- and there is fuel for more tasks than sleep.
  pub nano_sleep-Switches :
      IsValid s ls
      → s.current ≢ 0
      → s.current ≢ s.idle
      → Free ls s.current
      → s.idle ≢ 0
      → AtRest s.postpone
      → s.postponed ≡ false
      → leb wake s.time_since_boot_ns ≡ false
      → length (ls sleep_list) < fuel
      → Switches s
          (λ lu. lu)
          (update ls sleep_list
            (insert_by (expiry (with_expiry wake s)) wake s.current (ls sleep_list)))
          (nano_sleep_until to_ns fuel tsc tsc' wake s)
  nano_sleep-Switches v nz busy free ni rest e later lt =
      let s0 = with_expiry wake (lock_scheduler s) in
      let (prev, join, w) = join_sleepers-IsValid s0 ls v fuel wake s.current free nz lt in
      let s2 = inserted prev wake s in
      let same = insert_at-SameBut s.current prev s0 in
      let ls' =
        update ls sleep_list
          (insert_by (expiry (with_expiry wake s)) wake s.current (ls sleep_list)) in
      subst (Switches s (λ lu. lu) ls')
        (sym (nano_sleep-eq to_ns fuel tsc tsc' wake prev s later nz e join))
        (Switches-same s s2 (λ lu. lu) ls' (block_task to_ns tsc' asleep s2) same.idle
          (λ t. ap (λ (x : ℕ → Tcb). (x t).priority) same.tasks ∙ expiry-priority wake s t)
          (block_task-Switches to_ns tsc' asleep s2 ls' w (λ z. nz (sym same.current ∙ z))
            (λ i. busy (sym same.current ∙ i ∙ same.idle)) (λ z. ni (sym same.idle ∙ z))
            (subst (λ z. AtRest (z -ℤ pos 1)) (sym same.postpone) (up_down-AtRest s.postpone rest))
            (λ i. omega arith)))

Sorted-same :
    (time time' : ℕ → ℕ) (t : ℕ) (us : List ℕ)
    → ((q : ℕ) → q ≢ t → time' q ≡ time q)
    → has t us ≡ false
    → Sorted time us
    → Sorted time' us
Sorted-same time time' t [] same out o = tt
Sorted-same time time' t (u ∷ us) same out (n, o) = (
  subst (λ low. NotBefore time' low us) (sym (same u (ground arith)))
      (lower (time u) us (ground arith) n),
  Sorted-same time time' t us same (ground arith) o,
)
  where
    lower :
        (low : ℕ) (vs : List ℕ) → has t vs ≡ false → NotBefore time low vs → NotBefore time' low vs
    lower low [] out m = tt
    lower low (w ∷ ws) out (le, m) = (rw (same w (ground arith)) le, lower low ws (ground arith) m)

-- If the queues are valid, the sleep list is ordered by the time to wake up, the task that runs is
-- on no list, and fuel exceeds the number of the sleepers, then the insertion of nano_sleep_until
-- adds that task to the sleep list, and keeps the queues valid and the list ordered.
pub join_sleepers-Sorted :
    (fuel wake : ℕ) (s : Sched) (ls : ℕ → List ℕ)
    → IsValid s ls
    → s.current ≢ 0
    → Free ls s.current
    → length (ls sleep_list) < fuel
    → Sorted (expiry s) (ls sleep_list)
    → (s' : Sched) × (ts : List ℕ) × (join_sleepers fuel wake s.current (with_expiry wake s)
        ≡ some s')
      × IsValid s' (update ls sleep_list ts)
      × Sorted (expiry s') ts
      × ((q : ℕ) → has q ts ≡ ((q == s.current) || has q (ls sleep_list)))
join_sleepers-Sorted fuel wake s ls v nz free lt o =
    let c = s.current in
    let s0 = with_expiry wake s in
    let old = s.tasks in
    let own : expiry s0 c ≡ wake =
      ap (λ (x : Tcb). x.sleep_expiry_ns) (update_self old c (expires_at wake (old c))) in
    let (prev, join, w) = join_sleepers-IsValid s0 ls v fuel wake c free nz lt in
    let same = insert_at-SameBut c prev s0 in
    let ts = insert_by (expiry s0) wake c (ls sleep_list) in
    (
      insert_at c prev s0,
      ts,
      join,
      w,
      subst (λ (f : ℕ → Tcb). Sorted (λ q. (f q).sleep_expiry_ns) ts) (sym same.tasks)
          (subst (λ x. Sorted (expiry s0) (insert_by (expiry s0) x c (ls sleep_list))) own
            (insert_by-Sorted (expiry s0) c (ls sleep_list) (
              Sorted-same (expiry s) (expiry s0) c (ls sleep_list)
                (λ q ne.
                  ap (λ (x : Tcb). x.sleep_expiry_ns)
                    (update_ne old c q (expires_at wake (old c)) ne))
                (free sleep_list) o))),
      λ q. has-insert_by (expiry s0) wake c q (ls sleep_list),
    )
