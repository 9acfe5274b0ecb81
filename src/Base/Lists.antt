-- ===== src/Base/Lists.antt =====
-- Lists measured and indexed by native numbers, and predicates on them by recursion.
use Prim.Native.Nat.{ℕ, suc, ◌+◌}
use mathlib.Core.Path.{◌≡◌, refl, ap, sym, ◌∙◌}
use mathlib.Core.Logic.{◌≢◌}
use mathlib.Core.Bool.{Bool, true, false, ◌||◌}
use mathlib.Core.List.{List, [], ◌∷◌, ◌++◌}
use native.Mathlib.Omega.{arith}
use spinix.Base.Test.{◌==◌, ==→eq, Bool-cases}
use mathlib.Core.Bool.{false≢true}
use mathlib.Core.Path.{subst}
use mathlib.Core.Logic.{inl, inr}

module _ {ℓ} {A : Type ℓ} where
  abbrev pub length : List A → ℕ
  length [] = 0
  length (_ ∷ xs) = suc (length xs)

  pub length-append : (xs ys : List A) → length (xs ++ ys) ≡ length xs + length ys
  length-append [] ys = omega arith
  length-append (x ∷ xs) ys = omega (arith, length-append xs ys)

-- `a` occurs among `xs`.
abbrev pub has : ℕ → List ℕ → Bool
has a [] = false
has a (x ∷ xs) = (a == x) || has a xs

-- No number occurs twice.
abbrev pub Distinct : List ℕ → Type 0
Distinct [] = Unit
Distinct (x ∷ xs) = (has x xs ≡ false) × Distinct xs

-- A predicate holds of every item.
abbrev pub All {ℓ κ} : {A : Type ℓ} → (A → Type κ) → List A → Type κ
All P [] = Unit
All P (x ∷ xs) = P x × All P xs

pub all-has {κ} : (P : ℕ → Type κ) (xs : List ℕ) (a : ℕ) → All P xs → has a xs ≡ true → P a
all-has P [] a h e = absurd (false≢true e)
all-has P (x ∷ xs) a (hx, hs) e = elim (Bool-cases (x == a)) [
  | inl same ↦ subst P (==→eq x a same) hx
  | inr other ↦ all-has P xs a hs (ground arith)
]

pub has-ne : (xs : List ℕ) (a b : ℕ) → has a xs ≡ true → has b xs ≡ false → a ≢ b
has-ne xs a b ha hb e = false≢true (sym hb ∙ ap (λ c. has c xs) (sym e) ∙ ha)

pub has-append : (a : ℕ) (xs ys : List ℕ) → has a (xs ++ ys) ≡ (has a xs || has a ys)
has-append a [] ys = refl
has-append a (x ∷ xs) ys = ground (arith, has-append a xs ys)

pub Distinct-append :
    (xs : List ℕ) (b : ℕ) → Distinct xs → has b xs ≡ false → Distinct (xs ++ b ∷ [])
Distinct-append [] b d out = (refl, tt)
Distinct-append (x ∷ xs) b (out_x, d) out =
    (ground (arith, has-append x xs (b ∷ [])), Distinct-append xs b d (ground arith))
