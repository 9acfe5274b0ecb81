-- ===== src/Base/Ring/Insert.antt =====
-- Nodes put into a doubly linked list, at its two ends.
use Prim.Native.Nat.{ℕ}
use mathlib.Core.Path.{◌≡◌, sym, ap, ◌∙◌}
use mathlib.Core.Logic.{◌≢◌}
use mathlib.Core.Bool.{false}
use mathlib.Core.List.{List, [], ◌∷◌, ◌++◌}
use native.Mathlib.Omega.{arith}
use spinix.Base.Lists.{has, has-ne, Distinct}
use spinix.Base.Memory.{update, update_ne, update_self}
use spinix.Base.Ring.{Seg, Seg-keep, next_end-in}

-- The four writes that put the node `b` first after `a` in the order of `prev`, and those that put
-- it last before `z`.
abbrev pub back_prev : (ℕ → ℕ) → ℕ → ℕ → ℕ → ℕ
back_prev prev a b = update (update prev b (prev a)) a b

abbrev pub back_next : (ℕ → ℕ) → (ℕ → ℕ) → ℕ → ℕ → ℕ → ℕ
back_next next prev a b = update (update next b a) (update prev b (prev a) a) b

abbrev pub front_next : (ℕ → ℕ) → ℕ → ℕ → ℕ → ℕ
front_next next z b = update (update next b (next z)) z b

abbrev pub front_prev : (ℕ → ℕ) → (ℕ → ℕ) → ℕ → ℕ → ℕ → ℕ
front_prev next prev z b = update (update prev b z) (update next b (next z) z) b

update_twice_ne : (f : ℕ → ℕ) (i j u v q : ℕ) → q ≢ i → q ≢ j → update (update f i u) j v q ≡ f q
update_twice_ne f i j u v q ni nj = update_ne (update f i u) j q v nj ∙ update_ne f i q u ni

pub insert_back-Seg :
    (next prev : ℕ → ℕ) (a b : ℕ) (bs : List ℕ) (z : ℕ)
    → Seg next prev a bs z
    → Distinct bs
    → has a bs ≡ false
    → has z bs ≡ false
    → has b bs ≡ false
    → b ≢ a
    → b ≢ z
    → Seg (back_next next prev a b) (back_prev prev a b) a (b ∷ bs) z
insert_back-Seg next prev a b [] z (p, n) d out_a out_z out_b ba bz =
    let at_a : update prev b (prev a) a ≡ prev a = update_ne prev b a (prev a) (λ e. ba (sym e)) in
    (
      update_self (update prev b (prev a)) a b,
      update_ne (update next b a) (update prev b (prev a) a) b b (λ e. bz (e ∙ at_a ∙ p))
          ∙ update_self next b a,
      (
        update_ne (update prev b (prev a)) a b b ba ∙ update_self prev b (prev a) ∙ p,
        ap (back_next next prev a b) (sym (at_a ∙ p))
            ∙ update_self (update next b a) (update prev b (prev a) a) b,
      ),
    )
insert_back-Seg next prev a b (c ∷ cs) z (p, n, rest) (out_c, d) out_a out_z out_b ba bz =
    let at_a : update prev b (prev a) a ≡ c = update_ne prev b a (prev a) (λ e. ba (sym e)) ∙ p in
    let bc : b ≢ c = ground arith in
    (
      update_self (update prev b (prev a)) a b,
      update_ne (update next b a) (update prev b (prev a) a) b b (λ e. bc (e ∙ at_a))
          ∙ update_self next b a,
      (
        update_ne (update prev b (prev a)) a b b ba ∙ update_self prev b (prev a) ∙ p,
        ap (back_next next prev a b) (sym at_a)
            ∙ update_self (update next b a) (update prev b (prev a) a) b,
        Seg-keep next (back_next next prev a b) prev (back_prev prev a b) c cs z
            (update_twice_ne prev b a (prev a) b c (λ e. bc (sym e)) (ground arith))
            (λ q i.
              update_twice_ne prev b a (prev a) b q (has-ne cs q b i (ground arith))
                (has-ne cs q a i (ground arith)))
            (λ q i.
              update_twice_ne next b (update prev b (prev a) a) a b q
                (has-ne cs q b i (ground arith)) (λ e. has-ne cs q c i out_c (e ∙ at_a)))
            (update_twice_ne next b (update prev b (prev a) a) a b z (λ e. bz (sym e))
              (λ e. absurd (ground (arith, e ∙ at_a))))
            rest,
      ),
    )

pub insert_front-Seg :
    (next prev : ℕ → ℕ) (a b : ℕ) (bs : List ℕ) (z : ℕ)
    → Seg next prev a bs z
    → Distinct bs
    → has a bs ≡ false
    → has z bs ≡ false
    → has b bs ≡ false
    → b ≢ a
    → b ≢ z
    → Seg (front_next next z b) (front_prev next prev z b) a (bs ++ b ∷ []) z
insert_front-Seg next prev a b [] z (p, n) d out_a out_z out_b ba bz =
    let at_z : update next b (next z) z ≡ a = update_ne next b z (next z) (λ e. bz (sym e)) ∙ n in
    (
      ap (front_prev next prev z b) (sym at_z)
          ∙ update_self (update prev b z) (update next b (next z) z) b,
      update_ne (update next b (next z)) z b b bz ∙ update_self next b (next z) ∙ n,
      (
        update_ne (update prev b z) (update next b (next z) z) b b (λ e. ba (e ∙ at_z))
            ∙ update_self prev b z,
        update_self (update next b (next z)) z b,
      ),
    )
insert_front-Seg next prev a b (c ∷ cs) z (p, n, rest) (out_c, d) out_a out_z out_b ba bz =
    let last = next_end-in next prev c cs z rest in
    let at_z : update next b (next z) z ≡ next z = update_ne next b z (next z) (λ e. bz (sym e)) in
    (
      update_twice_ne prev b (update next b (next z) z) z b a (λ e. ba (sym e))
            (λ e. has-ne (c ∷ cs) (next z) a last out_a (sym (e ∙ at_z)))
          ∙ p,
      update_twice_ne next b z (next z) b c (ground arith) (ground arith) ∙ n,
      insert_front-Seg next prev c b cs z rest d out_c (ground arith) (ground arith) (ground arith)
          bz,
    )
