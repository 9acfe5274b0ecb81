-- ===== src/Sched/Faults.antt =====
-- Two calls of kernel/core/scheduler.c that leave the queues of a task behind: the end of another
-- task, and the aging of the last task of a queue.
use spinix.Base.{
  ℕ, zero, suc, ◌+◌, ◌≡◌, ◌<◌, refl, sym, ap, ◌∙◌, ◌≢◌, true, false, some, List, [], ◌∷◌, ◌++◌,
  arith, has, has-ne, has-append, Distinct, length, ◌==◌, eq→==, ne→==, ◌>>=◌,
}
use mathlib.Core.Path.{subst}
use mathlib.Core.Bool.{false≢true}
use spinix.Base.Int.{pos, ◌-ℤ◌, is_zero}
use spinix.Base.Memory.{update, update_ne, update_self}
use spinix.Base.Chain.{Chain, Chain-nonzero, find_link}
use spinix.Sched.{
  running, terminated_state, queue_count, Tcb, Sched, update_time_accounting, find_highest,
  remove_from_ready_queue, unqueue, unqueue_at,
}
use spinix.Sched.Switch.{set_state, lock_scheduler, chosen, schedule, terminate_other_task}
use spinix.Sched.Lists.{last, last-append, has-last, is_empty, Chain-is_empty}
use spinix.Sched.Queues.{IsValid, head-nonzero, ready_head, all_heads}
use spinix.Sched.Queues.Remove.{find_highest-IsValid, remove_some}
use spinix.Sched.Quiet.{account-Quiet}
use spinix.Sched.Choice.{run-runs, choose-some}
use spinix.Sched.Block.{unlock_quiet, up_down_0}

-- Whatever is linked behind it, the head of the highest queue is what `schedule` lets run.
head-chosen :
    (to_ns : ℕ → ℕ) (tsc i t : ℕ) (s : Sched)
    → find_highest s.bitmap ≡ some i
    → s.heads i ≡ t
    → t ≢ 0
    → is_zero s.postpone ≡ true
    → (s' : Sched) × (schedule to_ns tsc s ≡ some (true, s'))
      × (s'.current ≡ t)
      × ((s'.tasks t).state ≡ running)
unfolding schedule
head-chosen to_ns tsc i t s h e nt now =
    let s0 = update_time_accounting to_ns tsc s in
    let q = account-Quiet to_ns tsc s in
    let h0 : find_highest s0.bitmap ≡ some i = ap find_highest q.bitmap ∙ h in
    let first : (remove_from_ready_queue s0).0 ≡ t =
      ap (λ (r : ℕ × Sched). r.0) (remove_some s0 i h0) ∙ ap (λ f. f i) q.heads ∙ e in
    let (s', out, cur, st) = run-runs (chosen t ((remove_from_ready_queue s0).1)) t nt in
    (s', rw now (choose-some s0 t first nt ∙ out), cur, st)

-- If the first task of the highest ready queue is not the one that runs, and task switches are not
-- postponed, then terminate_other_task marks it as terminated, and the next schedule lets it run.
pub terminate_other-runs :
    (to_ns : ℕ → ℕ) (tsc tsc' i t : ℕ) (ts : List ℕ) (s : Sched) (ls : ℕ → List ℕ)
    → IsValid s ls
    → i < queue_count
    → ls i ≡ t ∷ ts
    → ((j : ℕ) → i < j → j < queue_count → ls j ≡ [])
    → t ≢ s.current
    → s.postpone ≡ pos 0
    → s.postponed ≡ false
    → (s1 : Sched) × (s2 : Sched) × (terminate_other_task to_ns tsc t s ≡ some (false, s1))
      × ((s1.tasks t).state ≡ terminated_state)
      × (schedule to_ns tsc' s1 ≡ some (true, s2))
      × (s2.current ≡ t)
      × ((s2.tasks t).state ≡ running)
unfolding terminate_other_task
terminate_other-runs to_ns tsc tsc' i t ts s ls v lt e higher other p quiet =
    let nt = head-nonzero s ls v i t ts lt e in
    let linked = set_state terminated_state t (lock_scheduler s) in
    let s0 = record linked { next = update s.next t s.terminated; terminated = t } in
    let s1 = record s0 { postpone = s0.postpone -ℤ pos 1; lock_count = s0.lock_count -ℤ pos 1 } in
    let first : s.heads i ≡ t =
      sym (ready_head s.heads s.sleeping s.terminated i lt)
      ∙ (subst (Chain s.next (all_heads s.heads s.sleeping s.terminated i)) e
          (v.lists.chain i)).0 in
    let old = s.tasks t in
    let (s2, out, cur, st) =
      head-chosen to_ns tsc' i t s1 (find_highest-IsValid s ls v i t ts lt e higher) first nt
        (up_down_0 p) in
    (
      s1,
      s2,
      rw (ne→== nt, ne→== other) (unlock_quiet to_ns tsc s0 quiet),
      ap (λ (x : Tcb). x.state) (update_self s.tasks t (record old { state = terminated_state })),
      out,
      cur,
      st,
    )

-- The walk to the last node of a chain, and the write that unlinks it.
unlink_last :
    (fuel : ℕ) (next : ℕ → ℕ) (prev v t : ℕ) (xs : List ℕ)
    → Chain next v (xs ++ t ∷ [])
    → Distinct (xs ++ t ∷ [])
    → is_empty xs ≡ false
    → length xs + 1 < fuel
    → (find_link fuel next prev v t ≡ some (some (last xs)))
      × Chain (update next (last xs) (next t)) v xs
unfolding find_link
unlink_last fuel next prev v t [] c d ne lt = absurd (false≢true (sym ne))
unlink_last zero next prev v t (x ∷ xs) c d ne lt = absurd (omega arith)
unlink_last (suc zero) next prev v t (x ∷ xs) c d ne lt = absurd (omega arith)
unlink_last (suc (suc fuel)) next prev v t (x ∷ []) (e, nz, (f, nt, z)) (out, _) ne lt =
    let at : next v ≡ t = ap next e ∙ f in
    let more : (v == 0) ≡ false = ground arith in
    let differ : (v == t) ≡ false = ground arith in
    let hit : (t == t) ≡ true = eq→== refl in
    (
      rw (more, differ, at) (rw (ne→== nt, hit) (ap (λ q. some (some q)) e)),
      (e, nz, update_self next x (next t) ∙ z),
    )
unlink_last (suc fuel) next prev v t (x ∷ y ∷ xs) (e, nz, c) (out, d) ne lt =
    let more : (v == 0) ≡ false = ground arith in
    let far : has t (y ∷ xs ++ t ∷ []) ≡ true = has-append t (y ∷ xs) (t ∷ []) ∙ ground arith in
    let differ : (v == t) ≡ false =
      ne→== (λ z. has-ne (y ∷ xs ++ t ∷ []) t x far out (sym z ∙ e)) in
    let q = last (y ∷ xs) in
    let listed : has q (y ∷ xs ++ t ∷ []) ≡ true =
      has-append q (y ∷ xs) (t ∷ []) ∙ (let h = has-last (y ∷ xs) refl in ground arith) in
    let (found, rest) = unlink_last fuel next v (next x) t (y ∷ xs) c d refl (omega arith) in
    (
      rw (more, differ) (ap (λ p. find_link fuel next v p t) (ap next e) ∙ found),
      (
        e,
        nz,
        subst (λ p. Chain (update next q (next t)) p (y ∷ xs))
            (sym
              (update_ne next q x (next t) (λ z. has-ne (y ∷ xs ++ t ∷ []) q x listed out (sym z))))
            rest,
      ),
    )

-- If the task that age_waiting_tasks takes out of a ready queue is the last of several, and the
-- fuel exceeds their number, then the tail of the queue becomes the address 80 bytes behind the
-- task that is the last one now, while the links from the head still lead through the others alone.
pub unqueue-last :
    (fuel i t : ℕ) (xs : List ℕ) (s : Sched) (ls : ℕ → List ℕ)
    → IsValid s ls
    → i < queue_count
    → ls i ≡ xs ++ t ∷ []
    → is_empty xs ≡ false
    → length xs + 1 < fuel
    → (s' : Sched) × (unqueue fuel i t s ≡ some s')
      × (s'.tails i ≡ last xs + 80)
      × Chain s'.next (s'.heads i) xs
unfolding unqueue
unqueue-last fuel i t xs s ls v lt e ne enough =
    let h : all_heads s.heads s.sleeping s.terminated i ≡ s.heads i =
      ready_head s.heads s.sleeping s.terminated i lt in
    let c =
      subst (λ p. Chain s.next p (xs ++ t ∷ [])) h
        (subst (Chain s.next (all_heads s.heads s.sleeping s.terminated i)) e (v.lists.chain i)) in
    let (found, rest) =
      unlink_last fuel s.next 0 (s.heads i) t xs c (subst Distinct e (v.lists.distinct i)) ne
        enough in
    let new = update s.next (last xs) (s.next t) in
    let prev_nz : (last xs == 0) ≡ false =
      ne→== (Chain-nonzero new (s.heads i) (last xs) xs rest (has-last xs ne)) in
    let tail : (s.tails i == t) ≡ true = eq→== (v.tail i lt ∙ ap last e ∙ last-append xs t) in
    let head : (s.heads i == 0) ≡ false = sym (Chain-is_empty new (s.heads i) xs rest) ∙ ne in
    (
      unqueue_at i t (some (last xs)) s,
      (rw (found, ◌>>=◌) refl),
      (rw (prev_nz, tail, head) (update_self s.tails i (last xs + 80))),
      (rw (prev_nz, tail, head) rest),
    )
