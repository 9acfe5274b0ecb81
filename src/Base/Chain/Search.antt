-- ===== src/Base/Chain/Search.antt =====
-- The walk along a chain to the first node that passes a test.
use Prim.Native.Nat.{ℕ, zero, suc, ◌<◌}
use mathlib.Core.Path.{◌≡◌, refl, sym, ap, ◌∙◌, subst}
use mathlib.Core.Logic.{◌⊎◌, inl, inr}
use mathlib.Core.Bool.{Bool, true, false, false≢true}
use mathlib.Core.Option.{Option, none, some}
use mathlib.Core.List.{List, [], ◌∷◌}
use native.Mathlib.Omega.{arith}
use spinix.Base.Test.{◌==◌, if◌then◌else◌, eq→==, ==→eq, Bool-cases}
use spinix.Base.Lists.{length, has}
use spinix.Base.Chain.{Chain}

-- The walk `while (p) { if (test(p)) return p; p = p->next; } return NULL;`.
unfoldable pub find_node : ℕ → (ℕ → ℕ) → (ℕ → Bool) → ℕ → Option ℕ
find_node zero next test cur = none
find_node (suc fuel) next test cur =
    let rest = find_node fuel next test (next cur) in
    if cur == 0 then some 0 else if test cur then some cur else rest

-- The first item that passes the test, 0 if there is none.
abbrev pub first : (ℕ → Bool) → List ℕ → ℕ
first test [] = 0
first test (p ∷ ps) = if test p then p else first test ps

pub find_node-first :
    (fuel : ℕ) (next : ℕ → ℕ) (test : ℕ → Bool) (cur : ℕ) (ps : List ℕ)
    → Chain next cur ps
    → length ps < fuel
    → find_node fuel next test cur ≡ some (first test ps)
unfolding find_node
find_node-first zero next test cur ps c lt = absurd (omega arith)
find_node-first (suc fuel) next test cur [] c lt = rw (eq→== c)
find_node-first (suc fuel) next test cur (p ∷ ps) (e, nz, c) lt =
    let more : (cur == 0) ≡ false = ground arith in
    let ih = find_node-first fuel next test (next p) ps c (omega arith) in
    rw more (rw e (ground (arith, ih)))

-- A value that passes the test and is listed, or 0 where nothing listed passes.
abbrev pub IsFirst : (ℕ → Bool) → List ℕ → ℕ → Type 0
IsFirst test ps v =
    ((has v ps ≡ true) × (test v ≡ true)) ⊎ ((v ≡ 0) × ((q : ℕ) → has q ps ≡ true → test q ≡ false))

first_hit : (test : ℕ → Bool) (p : ℕ) (ps : List ℕ) → test p ≡ true → first test (p ∷ ps) ≡ p
first_hit test p ps e = rw (e, first)

first_miss :
    (test : ℕ → Bool) (p : ℕ) (ps : List ℕ) → test p ≡ false → first test (p ∷ ps) ≡ first test ps
first_miss test p ps e = rw (e, first)

none_passes :
    (test : ℕ → Bool) (p : ℕ) (ps : List ℕ)
    → test p ≡ false
    → ((q : ℕ) → has q ps ≡ true → test q ≡ false)
    → (q : ℕ) → has q (p ∷ ps) ≡ true
    → test q ≡ false
none_passes test p ps e others q h = elim (Bool-cases (p == q)) [
  | inl same ↦ sym (ap test (==→eq p q same)) ∙ e
  | inr other ↦ others q (ground arith)
]

pub first-IsFirst : (test : ℕ → Bool) (ps : List ℕ) → IsFirst test ps (first test ps)
first-IsFirst test [] = inr (refl, λ q h. absurd (false≢true h))
first-IsFirst test (p ∷ ps) = elim (Bool-cases (test p)) [
  | inl e ↦ subst (IsFirst test (p ∷ ps)) (sym (first_hit test p ps e)) (inl (ground arith, e))
  | inr e ↦
      subst (IsFirst test (p ∷ ps)) (sym (first_miss test p ps e)) (elim (first-IsFirst test ps) [
        | inl (h, t) ↦ inl (ground arith, t)
        | inr (z, others) ↦ inr (z, none_passes test p ps e others)
      ])
]
