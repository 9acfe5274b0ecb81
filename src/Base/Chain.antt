-- ===== src/Base/Chain.antt =====
-- Singly linked lists: from a pointer the links of `next` lead to NULL, which is 0.
pub mod Search
use Prim.Native.Nat.{ℕ, zero, suc, ◌+◌, ◌≤◌, ◌<◌}
use mathlib.Core.Path.{◌≡◌, refl, sym, ap, ◌∙◌, subst}
use mathlib.Core.Logic.{◌≢◌, ◌⊎◌, inl, inr}
use mathlib.Core.Bool.{Bool, true, false, ◌||◌, false≢true}
use mathlib.Core.Option.{Option, none, some}
use mathlib.Core.List.{List, [], ◌∷◌}
use native.Mathlib.Omega.{arith}
use spinix.Base.Test.{◌==◌, if◌then◌else◌, eq→==, ne→==, ==→eq, ==→ne, Bool-cases}
use spinix.Base.Lists.{length, has, has-ne, Distinct}
use spinix.Base.Memory.{update, update_ne, update_self}

abbrev pub Chain : (ℕ → ℕ) → ℕ → List ℕ → Type 0
Chain next v [] = v ≡ 0
Chain next v (p ∷ ps) = (v ≡ p) × (p ≢ 0) × Chain next (next p) ps

pub Chain-keep :
    (next next' : ℕ → ℕ) (v : ℕ) (ps : List ℕ)
    → ((q : ℕ) → has q ps ≡ true → next' q ≡ next q)
    → Chain next v ps
    → Chain next' v ps
Chain-keep next next' v [] same c = c
Chain-keep next next' v (p ∷ ps) same (e, ne, c) =
    let rest = Chain-keep next next' (next p) ps (λ q i. same q (ground arith)) c in
    (e, ne, subst (λ w. Chain next' w ps) (sym (same p (ground arith))) rest)

pub Chain-update :
    (next : ℕ → ℕ) (v a x : ℕ) (ps : List ℕ)
    → has a ps ≡ false
    → Chain next v ps
    → Chain (update next a x) v ps
Chain-update next v a x ps out c =
    Chain-keep next (update next a x) v ps (λ q i. update_ne next a q x (has-ne ps q a i out)) c

-- A chain holds no NULL.
pub Chain-nonzero :
    (next : ℕ → ℕ) (v q : ℕ) (ps : List ℕ) → Chain next v ps → has q ps ≡ true → q ≢ 0
Chain-nonzero next v q [] c h = absurd (false≢true h)
Chain-nonzero next v q (p ∷ ps) (e, ne, c) h = elim (Bool-cases (p == q)) [
  | inl same ↦ λ z. ne (==→eq p q same ∙ z)
  | inr other ↦ Chain-nonzero next (next p) q ps c (ground arith)
]

-- The walk `while (*pp) { if (*pp == t) ...; pp = &(*pp)->next; }` with the node that holds `*pp`
-- (0 for the head). The result is that node where `t` is found, `some none` where it is not, and
-- `none` without enough fuel.
unfoldable pub find_link : ℕ → (ℕ → ℕ) → ℕ → ℕ → ℕ → Option (Option ℕ)
find_link zero next prev cur t = none
find_link (suc fuel) next prev cur t =
    let rest = find_link fuel next cur (next cur) t in
    if cur == 0 then some none else if cur == t then some (some prev) else rest

-- The list without the first `t`.
abbrev pub without : ℕ → List ℕ → List ℕ
without t [] = []
without t (p ∷ ps) = if p == t then ps else p ∷ without t ps

pub has-without : (t a : ℕ) (ps : List ℕ) → has a ps ≡ false → has a (without t ps) ≡ false
has-without t a [] h = refl
has-without t a (p ∷ ps) h = ground (arith, has-without t a ps)

pub without-Distinct : (t : ℕ) (ps : List ℕ) → Distinct ps → Distinct (without t ps)
without-Distinct t [] d = tt
without-Distinct t (p ∷ ps) (out, d) = elim (Bool-cases (p == t)) [
  | inl e ↦ rw (e, without) d
  | inr e ↦ rw (e, without) (has-without t p ps out, without-Distinct t ps d)
]

pub has-without_self : (t : ℕ) (ps : List ℕ) → Distinct ps → has t (without t ps) ≡ false
has-without_self t [] d = refl
has-without_self t (p ∷ ps) (out, d) = elim (Bool-cases (p == t)) [
  | inl e ↦ rw (e, without) (subst (λ q. has q ps ≡ false) (==→eq p t e) out)
  | inr e ↦ ground (arith, has-without_self t ps d)
]

pub has-without_ne : (t a : ℕ) (ps : List ℕ) → a ≢ t → has a (without t ps) ≡ has a ps
has-without_ne t a [] ne = refl
has-without_ne t a (p ∷ ps) ne = ground (arith, has-without_ne t a ps ne)

pub has-of-without : (t a : ℕ) (ps : List ℕ) → has a (without t ps) ≡ true → has a ps ≡ true
has-of-without t a ps h = elim (Bool-cases (has a ps)) [
  | inl e ↦ e
  | inr e ↦ absurd (false≢true (sym (has-without t a ps e) ∙ h))
]

pub without-absent : (t : ℕ) (ps : List ℕ) → has t ps ≡ false → without t ps ≡ ps
without-absent t [] h = refl
without-absent t (p ∷ ps) h = ground (arith, without-absent t ps)

pub without-miss : (t p : ℕ) (ps : List ℕ) → p ≢ t → without t (p ∷ ps) ≡ p ∷ without t ps
without-miss t p ps ne = rw (ne→== ne, without)

pub without-hit : (t p : ℕ) (ps : List ℕ) → p ≡ t → without t (p ∷ ps) ≡ ps
without-hit t p ps e = rw (eq→== e, without)

-- What the walk finds on a chain, and what the unlinking write leaves.
pub data Found (next : ℕ → ℕ) (prev cur t : ℕ) (ps : List ℕ) : Option (Option ℕ) → Type 0 where
  at_head :
      cur ≡ t
      → has t ps ≡ true
      → Chain next (next t) (without t ps)
      → Found next prev cur t ps (some (some prev))
  inside :
      (q : ℕ)
      → has q ps ≡ true
      → has t ps ≡ true
      → Chain (update next q (next t)) cur (without t ps)
      → Found next prev cur t ps (some (some q))
  absent : has t ps ≡ false → Found next prev cur t ps (some none)

module _ (next : ℕ → ℕ) (prev cur t p : ℕ) (ps : List ℕ) (e : cur ≡ p) (nz : p ≢ 0) (ne : p ≢ t)
    (out : has p ps ≡ false) where
  -- The first node is kept, whatever the write behind it changes.
  keep_first :
      (q : ℕ)
      → Chain (update next q (next t)) (update next q (next t) p) (without t ps)
      → Chain (update next q (next t)) cur (without t (p ∷ ps))
  keep_first q c =
      subst (Chain (update next q (next t)) cur) (sym (without-miss t p ps ne)) (e, nz, c)

  Found-next :
      {r : Option (Option ℕ)} → Found next cur (next cur) t ps r → Found next prev cur t (p ∷ ps) r
  Found-next (at_head e' i c) = inside cur (ground arith) (ground arith) (
      keep_first cur (
        subst (λ w. Chain (update next cur (next t)) w (without t ps))
          (sym (update_self next cur (next t)) ∙ ap (update next cur (next t)) e)
          (Chain-update next (next t) cur (next t) (without t ps)
            (has-without t cur ps (subst (λ w. has w ps ≡ false) (sym e) out)) c)))
  Found-next (inside q iq i c) = inside q (ground arith) (ground arith) (
      keep_first q (
        subst (λ w. Chain (update next q (next t)) w (without t ps))
          (ap next e ∙ sym (update_ne next q p (next t) (λ z. has-ne ps q p iq out (sym z)))) c))
  Found-next (absent i) = absent (ground arith)

pub find_link-Found :
    (fuel : ℕ) (next : ℕ → ℕ) (prev cur t : ℕ) (ps : List ℕ)
    → Chain next cur ps
    → Distinct ps
    → length ps < fuel
    → Found next prev cur t ps (find_link fuel next prev cur t)
unfolding find_link
find_link-Found zero next prev cur t ps c d lt = absurd (omega arith)
find_link-Found (suc fuel) next prev cur t [] c d lt = rw (eq→== c) (absent refl)
find_link-Found (suc fuel) next prev cur t (p ∷ ps) (e, nz, c) (out, d) lt =
    let more : (cur == 0) ≡ false = ground arith in
    elim (Bool-cases (cur == t)) [
      | inl here ↦
          let same = ==→eq cur t here in
          let hit = sym e ∙ same in
          rw (more, here)
            (at_head same (ground arith) (
              subst (Chain next (next t)) (sym (without-hit t p ps hit))
                (subst (λ w. Chain next (next w) ps) hit c)))
      | inr other ↦
          let ne : p ≢ t = λ h. ==→ne cur t other (e ∙ h) in
          rw (more, other)
            (Found-next next prev cur t p ps e nz ne out (
              find_link-Found fuel next cur (next cur) t ps
                (subst (λ w. Chain next (next w) ps) (sym e) c) d (omega arith)))
    ]
