-- ===== src/Locks/Invariant.antt =====
-- What each thread of the mutex of kernel/core/mutex.c knows of the counters.
use spinix.Base.{ℕ, suc, ◌+◌, ◌≡◌, ◌≤◌, ◌<◌, Bool, true, false, arith, ◌==◌, eq→==}
use mathlib.Core.Bool.{false≢true}
use spinix.Locks.{
  Pc, idle, loaded, compared, taking, checking, queueing, waiting, leaving, granted, critical,
  unlocking, storing, waking,
}

-- The thread holds the ticket `t`, up to the store that gives it back.
abbrev pub holds : Pc → ℕ → Bool
holds (checking u) t = u == t
holds (queueing u) t = u == t
holds (waiting u) t = u == t
holds (leaving u) t = u == t
holds (granted u) t = u == t
holds (critical u) t = u == t
holds (unlocking u) t = u == t
holds (storing u x) t = u == t
holds idle t = false
holds (loaded b x) t = false
holds (compared b x e) t = false
holds taking t = false
holds (waking x) t = false

abbrev pub is_critical : Pc → Bool
is_critical (critical t) = true
is_critical idle = false
is_critical (loaded b x) = false
is_critical (compared b x e) = false
is_critical taking = false
is_critical (checking u) = false
is_critical (queueing u) = false
is_critical (waiting u) = false
is_critical (leaving u) = false
is_critical (granted u) = false
is_critical (unlocking u) = false
is_critical (storing u x) = false
is_critical (waking x) = false

-- What a thread at a place knows of the counters.
abbrev pub Knows : ℕ → ℕ → Pc → Type 0
Knows exits entries idle = Unit
Knows exits entries (loaded b x) = x ≤ exits
Knows exits entries (compared b x e) = x ≤ exits
Knows exits entries taking = Unit
Knows exits entries (checking t) = (exits ≤ t) × (t < entries)
Knows exits entries (queueing t) = (exits ≤ t) × (t < entries)
Knows exits entries (waiting t) = (exits ≤ t) × (t < entries)
Knows exits entries (leaving t) = (t ≡ exits) × (t < entries)
Knows exits entries (granted t) = (t ≡ exits) × (t < entries)
Knows exits entries (critical t) = (t ≡ exits) × (t < entries)
Knows exits entries (unlocking t) = (t ≡ exits) × (t < entries)
Knows exits entries (storing t x) = (t ≡ exits) × (x ≡ exits) × (t < entries)
Knows exits entries (waking x) = Unit

-- The invariant after `n` steps.
pub record Inv (n exits entries owner : ℕ) (pc : ℕ → Pc) : Type 0 where
  pub bound : entries ≤ n
  pub order : exits ≤ entries
  pub knows : (i : ℕ) → Knows exits entries (pc i)
  pub unique : (i j t : ℕ) → holds (pc i) t ≡ true → holds (pc j) t ≡ true → i ≡ j
  pub owns : (i : ℕ) → is_critical (pc i) ≡ true → owner ≡ suc i

-- The ticket of a thread is one that is given out.
pub holds-range :
    (exits entries t : ℕ) (p : Pc)
    → Knows exits entries p
    → holds p t ≡ true
    → (exits ≤ t) × (t < entries)
holds-range exits entries t (checking u) (a, b) h = (ground arith, ground arith)
holds-range exits entries t (queueing u) (a, b) h = (ground arith, ground arith)
holds-range exits entries t (waiting u) (a, b) h = (ground arith, ground arith)
holds-range exits entries t (leaving u) (a, b) h = (ground arith, ground arith)
holds-range exits entries t (granted u) (a, b) h = (ground arith, ground arith)
holds-range exits entries t (critical u) (a, b) h = (ground arith, ground arith)
holds-range exits entries t (unlocking u) (a, b) h = (ground arith, ground arith)
holds-range exits entries t (storing u x) (a, c, b) h = (ground arith, ground arith)
holds-range exits entries t idle k h = absurd (false≢true h)
holds-range exits entries t (loaded b x) k h = absurd (false≢true h)
holds-range exits entries t (compared b x e) k h = absurd (false≢true h)
holds-range exits entries t taking k h = absurd (false≢true h)
holds-range exits entries t (waking x) k h = absurd (false≢true h)

-- More tickets are given out.
pub Knows-entries :
    (exits entries entries' : ℕ) (p : Pc)
    → entries ≤ entries'
    → Knows exits entries p
    → Knows exits entries' p
Knows-entries exits entries entries' idle le k = tt
Knows-entries exits entries entries' (loaded b x) le k = k
Knows-entries exits entries entries' (compared b x e) le k = k
Knows-entries exits entries entries' taking le k = tt
Knows-entries exits entries entries' (checking t) le (a, b) = (a, omega arith)
Knows-entries exits entries entries' (queueing t) le (a, b) = (a, omega arith)
Knows-entries exits entries entries' (waiting t) le (a, b) = (a, omega arith)
Knows-entries exits entries entries' (leaving t) le (a, b) = (a, omega arith)
Knows-entries exits entries entries' (granted t) le (a, b) = (a, omega arith)
Knows-entries exits entries entries' (critical t) le (a, b) = (a, omega arith)
Knows-entries exits entries entries' (unlocking t) le (a, b) = (a, omega arith)
Knows-entries exits entries entries' (storing t x) le (a, c, b) = (a, c, omega arith)
Knows-entries exits entries entries' (waking x) le k = tt

-- The ticket `exits` is given back by another thread.
pub Knows-exits :
    (exits entries : ℕ) (p : Pc)
    → holds p exits ≡ false
    → Knows exits entries p
    → Knows (exits + 1) entries p
Knows-exits exits entries idle out k = tt
Knows-exits exits entries (loaded b x) out k = omega arith
Knows-exits exits entries (compared b x e) out k = omega arith
Knows-exits exits entries taking out k = tt
Knows-exits exits entries (checking t) out (a, b) = (ground arith, b)
Knows-exits exits entries (queueing t) out (a, b) = (ground arith, b)
Knows-exits exits entries (waiting t) out (a, b) = (ground arith, b)
Knows-exits exits entries (leaving t) out (a, b) = absurd (ground arith)
Knows-exits exits entries (granted t) out (a, b) = absurd (ground arith)
Knows-exits exits entries (critical t) out (a, b) = absurd (ground arith)
Knows-exits exits entries (unlocking t) out (a, b) = absurd (ground arith)
Knows-exits exits entries (storing t x) out (a, c, b) = absurd (ground arith)
Knows-exits exits entries (waking x) out k = tt

pub critical-holds :
    (exits entries : ℕ) (p : Pc)
    → Knows exits entries p
    → is_critical p ≡ true
    → holds p exits ≡ true
critical-holds exits entries (critical t) (a, b) h = eq→== a
critical-holds exits entries idle k h = absurd (false≢true h)
critical-holds exits entries (loaded b x) k h = absurd (false≢true h)
critical-holds exits entries (compared b x e) k h = absurd (false≢true h)
critical-holds exits entries taking k h = absurd (false≢true h)
critical-holds exits entries (checking u) k h = absurd (false≢true h)
critical-holds exits entries (queueing u) k h = absurd (false≢true h)
critical-holds exits entries (waiting u) k h = absurd (false≢true h)
critical-holds exits entries (leaving u) k h = absurd (false≢true h)
critical-holds exits entries (granted u) k h = absurd (false≢true h)
critical-holds exits entries (unlocking u) k h = absurd (false≢true h)
critical-holds exits entries (storing u x) k h = absurd (false≢true h)
critical-holds exits entries (waking x) k h = absurd (false≢true h)
