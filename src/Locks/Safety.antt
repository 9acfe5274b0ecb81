-- ===== src/Locks/Safety.antt =====
-- The mutex of kernel/core/mutex.c keeps its threads apart.
use spinix.Base.{
  ℕ, suc, ◌+◌, ◌≡◌, ◌<◌, refl, sym, ap, Bool, true, List, [], ◌∷◌, arith, length, u64_mod,
}
use mathlib.Core.Path.{subst}
use mathlib.Core.Bool.{false≢true}
use spinix.Locks.{idle, critical, fresh, System, step, steps, started, is_locked}
use spinix.Locks.Invariant.{is_critical, Knows, critical-holds}
use spinix.Locks.Moves.{Holds, move-Inv}

started-Inv : Holds 0 fresh (λ i. idle)
started-Inv = record {
  bound = omega arith;
  order = omega arith;
  knows = λ i. tt;
  unique = λ i j t h k. absurd (false≢true h);
  owns = λ i h. absurd (false≢true h);
}

steps-Inv :
    (cs : List (ℕ × Bool)) (n : ℕ) (s : System)
    → n + length cs < u64_mod
    → Holds n s.mutex s.pc
    → Holds (n + length cs) (steps cs s).mutex (steps cs s).pc
unfolding steps step
steps-Inv [] n s lt v = subst (λ k. Holds k s.mutex s.pc) (omega arith) v
steps-Inv ((i, try) ∷ cs) n s lt v =
    let s1 = step (i, try) s in
    subst (λ k. Holds k (steps cs s1).mutex (steps cs s1).pc) (omega arith)
      (steps-Inv cs (suc n) s1 (omega arith)
        (move-Inv n s.mutex s.pc v i (omega arith) try (s.pc i) refl (v.knows i)))

-- After fewer than 2 ^ 64 steps of any threads, in any order, that lock, try to lock and unlock a
-- fresh mutex, at most one thread is in the critical section.
pub mutual_exclusion :
    (cs : List (ℕ × Bool)) (i j : ℕ)
    → length cs < u64_mod
    → is_critical ((steps cs started).pc i) ≡ true
    → is_critical ((steps cs started).pc j) ≡ true
    → i ≡ j
mutual_exclusion cs i j lt hi hj =
    let v = steps-Inv cs 0 started (omega arith) started-Inv in
    let s = steps cs started in
    let k = s.mutex.entries in
    v.unique i j s.mutex.exits (critical-holds s.mutex.exits k (s.pc i) (v.knows i) hi)
      (critical-holds s.mutex.exits k (s.pc j) (v.knows j) hj)

-- After fewer than 2 ^ 64 steps of any threads, in any order, a thread in the critical section has
-- the ticket that is served, mutex_is_locked says so, and the owner of the mutex is the task of
-- that thread.
pub critical_lem :
    (cs : List (ℕ × Bool)) (i t : ℕ)
    → length cs < u64_mod
    → (steps cs started).pc i ≡ critical t
    → ((steps cs started).mutex.exits ≡ t)
      × (is_locked (steps cs started).mutex ≡ true)
      × ((steps cs started).mutex.owner ≡ suc i)
critical_lem cs i t lt at =
    let v = steps-Inv cs 0 started (omega arith) started-Inv in
    let s = steps cs started in
    let k = subst (Knows s.mutex.exits s.mutex.entries) at (v.knows i) in
    (sym (k.0), (let a = k.0 in let b = k.1 in ground arith), v.owns i (ap is_critical at))
