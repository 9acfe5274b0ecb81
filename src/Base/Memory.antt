-- ===== src/Base/Memory.antt =====
-- Memory as a function from addresses to the cells that they hold.
use Prim.Native.Nat.{ℕ}
use mathlib.Core.Path.{◌≡◌, refl, sym, subst, fun_ext}
use mathlib.Core.Logic.{◌≢◌, inl, inr}
use native.Mathlib.Omega.{arith}
use spinix.Base.Test.{◌==◌, ==→eq, ==→ne, Bool-cases, if◌then◌else◌}

-- `f` with the value `v` at `i`.
abbrev pub update {ℓ} : {A : Type ℓ} → (ℕ → A) → ℕ → A → ℕ → A
update f i v j = if j == i then v else f j

pub update_self {ℓ} : {A : Type ℓ} (f : ℕ → A) (i : ℕ) (v : A) → update f i v i ≡ v
update_self f i v = ground arith

pub update_ne {ℓ} : {A : Type ℓ} (f : ℕ → A) (i j : ℕ) (v : A) → j ≢ i → update f i v j ≡ f j
update_ne f i j v h = ground arith

-- What holds of the new values at `z`, and of the old values elsewhere, holds of two updated
-- functions everywhere.
pub update_both {ℓ κ μ} :
    {A : Type ℓ} {B : Type κ} (P : ℕ → A → B → Type μ) (f : ℕ → A) (g : ℕ → B) (z : ℕ) (a : A)
    (b : B)
    → P z a b
    → ((w : ℕ) → w ≢ z → P w (f w) (g w))
    → (w : ℕ) → P w (update f z a w) (update g z b w)
update_both P f g z a b here there w = elim (Bool-cases (w == z)) [
  | inl e ↦ rw (e, update) (subst (λ v. P v a b) (sym (==→eq w z e)) here)
  | inr e ↦ rw (e, update) (there w (==→ne w z e))
]

pub update_one {ℓ μ} :
    {A : Type ℓ} (P : ℕ → A → Type μ) (f : ℕ → A) (z : ℕ) (a : A)
    → P z a
    → ((w : ℕ) → w ≢ z → P w (f w))
    → (w : ℕ) → P w (update f z a w)
update_one P f z a here there = update_both (λ w x y. P w x) f f z a a here there

pub update-update {ℓ} :
    {A : Type ℓ} (f : ℕ → A) (i : ℕ) (u v : A) → update (update f i u) i v ≡ update f i v
update-update f i u v = fun_ext (λ j. ground arith)

pub update_same {ℓ} : {A : Type ℓ} (f : ℕ → A) (i : ℕ) → update f i (f i) ≡ f
update_same f i = fun_ext (update_one (λ j v. v ≡ f j) f i (f i) refl (λ j ne. refl))

-- A field that the new value shares with the old one is unchanged everywhere.
pub update-field {ℓ κ} :
    {A : Type ℓ} {B : Type κ} (field : A → B) (f : ℕ → A) (i : ℕ) (v : A) (p : ℕ)
    → field v ≡ field (f i)
    → field (update f i v p) ≡ field (f p)
update-field field f i v p e = update_one (λ q w. field w ≡ field (f q)) f i v e (λ q ne. refl) p

-- The field of an updated function is the updated field.
pub field-update {ℓ κ} :
    {A : Type ℓ} {B : Type κ} (field : A → B) (f : ℕ → A) (i : ℕ) (v : A) (p : ℕ)
    → field (update f i v p) ≡ update (λ q. field (f q)) i (field v) p
field-update field f i v p = elim (Bool-cases (p == i)) [
  | inl e ↦ rw (e, update)
  | inr e ↦ rw (e, update)
]
