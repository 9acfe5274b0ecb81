-- ===== src/Cache/Index/Assign.antt =====
-- The index when a buffer without a block gets one: it is put in front of its hash chain.
use spinix.Base.{
  ℕ, ◌≡◌, ◌<◌, refl, sym, ap, ◌∙◌, ◌≢◌, ◌⊎◌, inl, inr, true, false, Bool-cases, List, ◌∷◌, arith,
  has, has-ne, Distinct, ◌==◌, ==→eq, ==→ne,
}
use mathlib.Core.Path.{subst}
use spinix.Base.Memory.{update, update_ne, update_self, update_both, update_one}
use spinix.Base.Chain.{Chain, Chain-update}
use spinix.Cache.{hash_size, Buf}
use spinix.Cache.Index.{IsIndex, hash_of, hash_small}

module _ (bufs : ℕ → Buf) (qnext hash : ℕ → ℕ) (bs : List ℕ) (hs : ℕ → List ℕ)
    (v : IsIndex bufs qnext hash bs hs) (b : ℕ) (buf : Buf) (nz : b ≢ 0) (ib : has b bs ≡ true)
    (blank : (bufs b).dev ≡ 0) (held : buf.dev ≢ 0)
    (new : (c : ℕ)
      → has c bs ≡ true
      → (bufs c).dev ≡ buf.dev
      → (bufs c).blockno ≡ buf.blockno
      → ⊥) where
  abbrev now_bufs : ℕ → Buf
  now_bufs = update bufs b buf

  abbrev pub joined : ℕ → List ℕ
  joined = update hs (hash_of buf) (b ∷ hs (hash_of buf))

  small : hash_of buf < hash_size
  small = hash_small buf.dev buf.blockno

  at_b : now_bufs b ≡ buf
  at_b = update_self bufs b buf

  kept : (c : ℕ) → c ≢ b → now_bufs c ≡ bufs c
  kept c ne = update_ne bufs b c buf ne

  unlisted : (h : ℕ) → h < hash_size → has b (hs h) ≡ false
  unlisted h lt = elim (Bool-cases (has b (hs h))) [
    | inl i ↦ absurd ((v.placed h b lt i).1 blank)
    | inr o ↦ o
  ]

  joined-has :
      (h c : ℕ)
      → h < hash_size
      → has c (joined h) ≡ true
      → ((c ≡ b) × (h ≡ hash_of buf)) ⊎ ((c ≢ b) × (has c (hs h) ≡ true))
  joined-has h c lt i =
      update_one
        (λ g ys.
          has c ys ≡ true
          → g < hash_size
          → ((c ≡ b) × (g ≡ hash_of buf)) ⊎ ((c ≢ b) × (has c (hs g) ≡ true)))
        hs (hash_of buf) (b ∷ hs (hash_of buf))
        (λ j lt'. elim (Bool-cases (b == c)) [
          | inl e ↦ inl (sym (==→eq b c e), refl)
          | inr e ↦ inr ((λ x. ==→ne b c e (sym x)), ground arith)
        ])
        (λ g ne j lt'. inr (has-ne (hs g) c b j (unlisted g lt'), j)) h i lt

  has-joined : (h c : ℕ) → has c (hs h) ≡ true → has c (joined h) ≡ true
  has-joined h c i =
      update_one (λ g ys. has c (hs g) ≡ true → has c ys ≡ true) hs (hash_of buf)
        (b ∷ hs (hash_of buf)) (λ j. ground arith) (λ g _ j. j) h i

  b-joined : has b (joined (hash_of buf)) ≡ true
  b-joined =
      subst (λ ys. has b ys ≡ true) (sym (update_self hs (hash_of buf) (b ∷ hs (hash_of buf))))
        (ground arith)

  pub assign-Index :
      IsIndex now_bufs (update qnext b (hash (hash_of buf))) (update hash (hash_of buf) b) bs joined
  assign-Index = record {
    chain =
        update_both (λ g w ys. g < hash_size → Chain (update qnext b (hash (hash_of buf))) w ys)
          hash hs (hash_of buf) b (b ∷ hs (hash_of buf))
          (λ lt. (
            refl,
            nz,
            subst (λ w. Chain (update qnext b (hash (hash_of buf))) w (hs (hash_of buf)))
                (sym (update_self qnext b (hash (hash_of buf))))
                (Chain-update qnext (hash (hash_of buf)) b (hash (hash_of buf)) (hs (hash_of buf))
                  (unlisted (hash_of buf) lt) (v.chain (hash_of buf) lt)),
          ))
          (λ g ne lt.
            Chain-update qnext (hash g) b (hash (hash_of buf)) (hs g) (unlisted g lt)
              (v.chain g lt));
    distinct = λ h lt.
        update_one (λ g ys. g < hash_size → Distinct ys) hs (hash_of buf) (b ∷ hs (hash_of buf))
          (λ lt'. (unlisted (hash_of buf) lt', v.distinct (hash_of buf) lt'))
          (λ g _ lt'. v.distinct g lt') h lt;
    placed = λ h c lt i. elim (joined-has h c lt i) [
      | inl (e, eh) ↦
          let same : now_bufs c ≡ buf = ap now_bufs e ∙ at_b in
          (
            ap (λ q. has q bs) e ∙ ib,
            (λ z. held (sym (ap (λ (x : Buf). x.dev) same) ∙ z)),
            ap hash_of same ∙ sym eh,
          )
      | inr (ne, j) ↦
          let (ic, nd, e) = v.placed h c lt j in
          let same = kept c ne in
          (ic, (λ z. nd (sym (ap (λ (x : Buf). x.dev) same) ∙ z)), ap hash_of same ∙ e)
    ];
    complete = λ c ic nd. elim (Bool-cases (c == b)) [
      | inl e ↦
          let same = ==→eq c b e in
          subst (λ q. has q (joined (hash_of (now_bufs q))) ≡ true) (sym same)
            (subst (λ (x : Buf). has b (joined (hash_of x)) ≡ true) (sym at_b) b-joined)
      | inr e ↦
          let same = kept c (==→ne c b e) in
          subst (λ (x : Buf). has c (joined (hash_of x)) ≡ true) (sym same)
            (has-joined (hash_of (bufs c)) c
              (v.complete c ic (λ z. nd (ap (λ (x : Buf). x.dev) same ∙ z))))
    ];
    unique = λ c d ic id nd de bl. elim (Bool-cases (c == b)) [
      | inl e ↦ elim (Bool-cases (d == b)) [
        | inl f ↦ ==→eq c b e ∙ sym (==→eq d b f)
        | inr f ↦
            let sc : now_bufs c ≡ buf = ap now_bufs (==→eq c b e) ∙ at_b in
            let sd = kept d (==→ne d b f) in
            absurd (
              new d id (sym (ap (λ (x : Buf). x.dev) sd) ∙ sym de ∙ ap (λ (x : Buf). x.dev) sc)
                (sym (ap (λ (x : Buf). x.blockno) sd) ∙ sym bl ∙ ap (λ (x : Buf). x.blockno) sc))
      ]
      | inr e ↦
          let sc = kept c (==→ne c b e) in
          elim (Bool-cases (d == b)) [
            | inl f ↦
                let sd : now_bufs d ≡ buf = ap now_bufs (==→eq d b f) ∙ at_b in
                absurd (
                  new c ic (sym (ap (λ (x : Buf). x.dev) sc) ∙ de ∙ ap (λ (x : Buf). x.dev) sd)
                    (sym (ap (λ (x : Buf). x.blockno) sc) ∙ bl ∙ ap (λ (x : Buf). x.blockno) sd))
            | inr f ↦
                let sd = kept d (==→ne d b f) in
                v.unique c d ic id (λ z. nd (ap (λ (x : Buf). x.dev) sc ∙ z))
                  (sym (ap (λ (x : Buf). x.dev) sc) ∙ de ∙ ap (λ (x : Buf). x.dev) sd)
                  (sym (ap (λ (x : Buf). x.blockno) sc) ∙ bl ∙ ap (λ (x : Buf). x.blockno) sd)
          ]
    ];
  }
