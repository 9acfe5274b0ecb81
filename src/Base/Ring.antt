-- ===== src/Base/Ring.antt =====
-- Doubly linked lists in memory: from a node the links of `prev` lead through a list to another
-- node, and the links of `next` lead back. A ring is such a list from its head to its head.
pub mod Insert
use Prim.Native.Nat.{ℕ, zero, suc, ◌+◌, ◌≤◌, ◌<◌}
use mathlib.Core.Path.{◌≡◌, refl, sym, ap, ◌∙◌, subst}
use mathlib.Core.Logic.{◌≢◌, ◌⊎◌, inl, inr}
use mathlib.Core.Bool.{Bool, true, false, ◌||◌, false≢true}
use mathlib.Core.List.{List, [], ◌∷◌, ◌++◌}
use native.Mathlib.Omega.{arith}
use spinix.Base.Test.{◌==◌, if◌then◌else◌, eq→==, ne→==, ==→eq, ==→ne, Bool-cases}
use spinix.Base.Lists.{has, has-ne, Distinct}
use spinix.Base.Memory.{update, update_ne, update_self}
use spinix.Base.Chain.{without, without-hit, without-miss}

abbrev pub Seg : (ℕ → ℕ) → (ℕ → ℕ) → ℕ → List ℕ → ℕ → Type 0
Seg next prev a [] z = (prev a ≡ z) × (next z ≡ a)
Seg next prev a (b ∷ bs) z = (prev a ≡ b) × (next b ≡ a) × Seg next prev b bs z

-- Only the `prev` of the nodes up to the last, and the `next` of those from the second on, count.
pub Seg-keep :
    (next next' prev prev' : ℕ → ℕ) (a : ℕ) (bs : List ℕ) (z : ℕ)
    → prev' a ≡ prev a
    → ((q : ℕ) → has q bs ≡ true → prev' q ≡ prev q)
    → ((q : ℕ) → has q bs ≡ true → next' q ≡ next q)
    → next' z ≡ next z
    → Seg next prev a bs z
    → Seg next' prev' a bs z
Seg-keep next next' prev prev' a [] z pa ps ns nz (p, n) = (pa ∙ p, nz ∙ n)
Seg-keep next next' prev prev' a (b ∷ bs) z pa ps ns nz (p, n, rest) = (
  pa ∙ p,
  ns b (ground arith) ∙ n,
  Seg-keep next next' prev prev' b bs z (ps b (ground arith)) (λ q i. ps q (ground arith))
      (λ q i. ns q (ground arith)) nz rest,
)

-- The neighbours of a node lie in the list or are its ends.
pub next-in :
    (next prev : ℕ → ℕ) (a : ℕ) (bs : List ℕ) (z b : ℕ)
    → Seg next prev a bs z
    → has b bs ≡ true
    → has (next b) (a ∷ bs) ≡ true
next-in next prev a [] z b s i = absurd (false≢true i)
next-in next prev a (c ∷ cs) z b (p, n, rest) i = elim (Bool-cases (c == b)) [
  | inl e ↦ let same : next b ≡ a = sym (ap next (==→eq c b e)) ∙ n in ground arith
  | inr e ↦ let ih = next-in next prev c cs z b rest (ground arith) in ground arith
]

pub prev-in :
    (next prev : ℕ → ℕ) (a : ℕ) (bs : List ℕ) (z b : ℕ)
    → Seg next prev a bs z
    → has b (a ∷ bs) ≡ true
    → (prev b ≡ z) ⊎ (has (prev b) bs ≡ true)
prev-in next prev a [] z b (p, n) i = inl (ap prev (ground arith) ∙ p)
prev-in next prev a (c ∷ cs) z b (p, n, rest) i = elim (Bool-cases (a == b)) [
  | inl e ↦ let same : prev b ≡ c = sym (ap prev (==→eq a b e)) ∙ p in inr (ground arith)
  | inr e ↦ elim (prev-in next prev c cs z b rest (ground arith)) [
    | inl last ↦ inl last
    | inr inside ↦ inr (ground arith)
  ]
]

-- `next z` is the last node, or `a`.
pub next_end-in :
    (next prev : ℕ → ℕ) (a : ℕ) (bs : List ℕ) (z : ℕ)
    → Seg next prev a bs z
    → has (next z) (a ∷ bs) ≡ true
next_end-in next prev a [] z (p, n) = ground arith
next_end-in next prev a (c ∷ cs) z (p, n, rest) =
    let ih = next_end-in next prev c cs z rest in ground arith

-- The two writes that take out the node `b`.
abbrev pub without_next : (ℕ → ℕ) → (ℕ → ℕ) → ℕ → ℕ → ℕ
without_next next prev b = update next (prev b) (next b)

abbrev pub without_prev : (ℕ → ℕ) → (ℕ → ℕ) → ℕ → ℕ → ℕ
without_prev next prev b = update prev (next b) (prev b)

unlink_first :
    (next prev : ℕ → ℕ) (a b : ℕ) (bs : List ℕ) (z : ℕ)
    → Seg next prev a (b ∷ bs) z
    → Distinct (b ∷ bs)
    → has a (b ∷ bs) ≡ false
    → has z (b ∷ bs) ≡ false
    → Seg (without_next next prev b) (without_prev next prev b) a bs z
unlink_first next prev a b [] z (p, n, (pz, nz)) d out_a out_z = (
  ap (without_prev next prev b) (sym n) ∙ update_self prev (next b) (prev b) ∙ pz,
  ap (without_next next prev b) (sym pz) ∙ update_self next (prev b) (next b) ∙ n,
)
unlink_first next prev a b (c ∷ cs) z (p, n, (pb, nc, rest)) (out_b, (out_c, d)) out_a out_z = (
  ap (without_prev next prev b) (sym n) ∙ update_self prev (next b) (prev b) ∙ pb,
  ap (without_next next prev b) (sym pb) ∙ update_self next (prev b) (next b) ∙ n,
  Seg-keep next (without_next next prev b) prev (without_prev next prev b) c cs z
      (update_ne prev (next b) c (prev b) (ground arith))
      (λ q i. update_ne prev (next b) q (prev b) (λ e. has-ne cs q a i (ground arith) (e ∙ n)))
      (λ q i. update_ne next (prev b) q (next b) (λ e. has-ne cs q c i out_c (e ∙ pb)))
      (update_ne next (prev b) z (next b) (ground arith)) rest,
)

pub unlink-Seg :
    (next prev : ℕ → ℕ) (a b : ℕ) (bs : List ℕ) (z : ℕ)
    → Seg next prev a bs z
    → Distinct bs
    → has a bs ≡ false
    → has z bs ≡ false
    → has b bs ≡ true
    → Seg (without_next next prev b) (without_prev next prev b) a (without b bs) z
unlink-Seg next prev a b [] z s d out_a out_z i = absurd (false≢true i)
unlink-Seg next prev a b (c ∷ cs) z (p, n, rest) (out_c, d) out_a out_z i =
    elim (Bool-cases (c == b)) [
      | inl e ↦
          let same = ==→eq c b e in
          subst (λ ys. Seg (without_next next prev b) (without_prev next prev b) a ys z)
            (sym (without-hit b c cs same))
            (subst (λ w. Seg (without_next next prev w) (without_prev next prev w) a cs z) same
              (unlink_first next prev a c cs z (p, n, rest) (out_c, d) out_a out_z))
      | inr e ↦
          let further : has b cs ≡ true = ground arith in
          let back = next-in next prev c cs z b rest further in
          let forth = prev-in next prev c cs z b rest (ground arith) in
          subst (λ ys. Seg (without_next next prev b) (without_prev next prev b) a ys z)
            (sym (without-miss b c cs (==→ne c b e)))
            (
              update_ne prev (next b) a (prev b)
                    (λ x. has-ne (c ∷ cs) (next b) a back out_a (sym x))
                  ∙ p,
              update_ne next (prev b) c (next b) (λ x. elim forth [
                | inl last ↦ absurd (ground arith)
                | inr inside ↦ has-ne cs (prev b) c inside out_c (sym x)
              ])
                  ∙ n,
              unlink-Seg next prev c b cs z rest d out_c (ground arith) further,
            )
    ]

-- A node's `prev` is another node.
pub prev-ne :
    (next prev : ℕ → ℕ) (a : ℕ) (bs : List ℕ) (z b : ℕ)
    → Seg next prev a bs z
    → Distinct bs
    → has z bs ≡ false
    → has b bs ≡ true
    → prev b ≢ b
prev-ne next prev a [] z b s d out_z i = absurd (false≢true i)
prev-ne next prev a (c ∷ cs) z b (p, n, rest) (out_c, d) out_z i = elim (Bool-cases (c == b)) [
  | inl e ↦
      let same = ==→eq c b e in
      elim (prev-in next prev c cs z b rest (ground arith)) [
        | inl last ↦ λ x. absurd (ground arith)
        | inr inside ↦ λ x. has-ne cs (prev b) c inside out_c (x ∙ sym same)
      ]
  | inr e ↦ prev-ne next prev c cs z b rest d (ground arith) (ground arith)
]
