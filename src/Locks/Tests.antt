-- ===== src/Locks/Tests.antt =====
-- Runs of the mutex of kernel/core/mutex.c with two threads: thread 0 locks it on the fast path, while
-- thread 1 takes a ticket and waits.
use spinix.Base.{ℕ, ◌≡◌, refl, Bool, true, false, List, [], ◌∷◌, arith}
use spinix.Locks.{waiting, move, step, steps, started, is_locked}
use spinix.Locks.Spin.{advance, advances, spin_exclusion, flags_restored}
use spinix.Locks.Safety.{mutual_exclusion, critical_lem}

-- Thread 0 enters; thread 1 starts its `mutex_lock` in between.
abbrev contended : List (ℕ × Bool)
contended =
    (0, false)
    ∷ (0, false)
    ∷ (1, false)
    ∷ (0, false)
    ∷ (1, false)
    ∷ (1, false)
    ∷ (0, false)
    ∷ (1, false)
    ∷ (1, false)
    ∷ (1, false)
    ∷ []

thread_1_waits : (steps contended started).pc 1 ≡ waiting 1
unfolding steps step move
thread_1_waits = refl

mutual_exclusion_example : ◌≡◌ {A = ℕ} 0 0
unfolding steps step move
mutual_exclusion_example = mutual_exclusion contended 0 0 (omega arith) refl refl

critical_lem_example :
    ((steps contended started).mutex.exits ≡ 0)
    × (is_locked (steps contended started).mutex ≡ true)
    × ((steps contended started).mutex.owner ≡ 1)
unfolding steps step move
critical_lem_example = critical_lem contended 0 0 (omega arith) refl

-- Processor 0 takes the lock with interrupts on, processor 1 spins.
abbrev spun : List (ℕ × Bool)
spun = (0, false) ∷ (1, false) ∷ (0, false) ∷ (1, false) ∷ (0, false) ∷ []

spin_exclusion_example : ◌≡◌ {A = ℕ} 0 0
unfolding advances advance
spin_exclusion_example = spin_exclusion true spun (λ i. true) 0 0 refl refl

flags_restored_example : ◌≡◌ {A = Bool} true true
unfolding advances advance
flags_restored_example =
    flags_restored true ((0, false) ∷ (0, false) ∷ (0, false) ∷ (0, false) ∷ (0, false) ∷ [])
      (λ i. true) 0 true true refl
