-- ===== src/Cache/Index/Change.antt =====
-- The index when a buffer loses its block, and when it gets one.
use spinix.Base.{
  ℕ, zero, suc, ◌≡◌, ◌<◌, refl, sym, ap, ◌∙◌, ◌≢◌, true, false, Option, none, some, List, has,
  has-ne, Distinct, length,
}
use mathlib.Core.Path.{subst}
use mathlib.Core.Bool.{false≢true}
use spinix.Base.Memory.{update, update_ne, update_self, update_one}
use spinix.Base.Chain.{
  Chain, Chain-nonzero, Chain-update, without, without-Distinct, has-without_self, has-without_ne,
  has-of-without, Found, at_head, inside, absent, find_link, find_link-Found,
}
use spinix.Cache.{hash_size, Buf, forgotten}
use spinix.Cache.Index.{IsIndex, hash_of, hash_small, one_chain}

module _ (bufs : ℕ → Buf) (qnext hash : ℕ → ℕ) (bs : List ℕ) (hs : ℕ → List ℕ)
    (v : IsIndex bufs qnext hash bs hs) (b : ℕ) (held : (bufs b).dev ≢ 0) where
  abbrev gone_bufs : ℕ → Buf
  gone_bufs = update bufs b (forgotten (bufs b))

  abbrev pub left : ℕ → List ℕ
  left = update hs (hash_of (bufs b)) (without b (hs (hash_of (bufs b))))

  small : hash_of (bufs b) < hash_size
  small = hash_small (bufs b).dev (bufs b).blockno

  left-has : (h c : ℕ) → h < hash_size → has c (left h) ≡ true → (has c (hs h) ≡ true) × (c ≢ b)
  left-has h c lt i =
      update_one (λ g ys. has c ys ≡ true → g < hash_size → (has c (hs g) ≡ true) × (c ≢ b)) hs
        (hash_of (bufs b)) (without b (hs (hash_of (bufs b))))
        (λ i lt'. (
          has-of-without b c (hs (hash_of (bufs b))) i,
          has-ne (without b (hs (hash_of (bufs b)))) c b i
              (has-without_self b (hs (hash_of (bufs b))) (v.distinct (hash_of (bufs b)) small)),
        ))
        (λ g ne i lt'. (i, λ e. ne (sym (v.placed g c lt' i).2 ∙ ap (λ q. hash_of (bufs q)) e))) h i
        lt

  other-has : (h c : ℕ) → c ≢ b → has c (hs h) ≡ true → has c (left h) ≡ true
  other-has h c ne i =
      update_one (λ g ys. has c (hs g) ≡ true → has c ys ≡ true) hs (hash_of (bufs b))
        (without b (hs (hash_of (bufs b)))) (λ j. has-without_ne b c (hs (hash_of (bufs b))) ne ∙ j)
        (λ g _ j. j) h i

  gone-other : (c : ℕ) → (gone_bufs c).dev ≢ 0 → c ≢ b
  gone-other c nd e = nd (
      ap (λ q. (gone_bufs q).dev) e
      ∙ ap (λ (x : Buf). x.dev) (update_self bufs b (forgotten (bufs b))))

  kept : (c : ℕ) → c ≢ b → gone_bufs c ≡ bufs c
  kept c ne = update_ne bufs b c (forgotten (bufs b)) ne

  remove-Index :
      (qnext' hash' : ℕ → ℕ)
      → ((h : ℕ) → h < hash_size → Chain qnext' (hash' h) (left h))
      → IsIndex gone_bufs qnext' hash' bs left
  remove-Index qnext' hash' chains = record {
    chain = chains;
    distinct = λ h lt.
        update_one (λ g ys. g < hash_size → Distinct ys) hs (hash_of (bufs b))
          (without b (hs (hash_of (bufs b))))
          (λ lt'. without-Distinct b (hs (hash_of (bufs b))) (v.distinct (hash_of (bufs b)) lt'))
          (λ g _ lt'. v.distinct g lt') h lt;
    placed = λ h c lt i.
        let (j, ne) = left-has h c lt i in
        let same = kept c ne in
        let (ic, nd, e) = v.placed h c lt j in
        (ic, (λ z. nd (sym (ap (λ (x : Buf). x.dev) same) ∙ z)), ap hash_of same ∙ e);
    complete = λ c ic nd.
        let ne = gone-other c nd in
        let same = kept c ne in
        subst (λ (x : Buf). has c (left (hash_of x)) ≡ true) (sym same)
          (other-has (hash_of (bufs c)) c ne
            (v.complete c ic (λ z. nd (ap (λ (x : Buf). x.dev) same ∙ z))));
    unique = λ c d ic id nd de bl.
        let nc = gone-other c nd in
        let nd' = gone-other d (λ z. nd (de ∙ z)) in
        let sc = kept c nc in
        let sd = kept d nd' in
        v.unique c d ic id (λ z. nd (ap (λ (x : Buf). x.dev) sc ∙ z))
          (sym (ap (λ (x : Buf). x.dev) sc) ∙ de ∙ ap (λ (x : Buf). x.dev) sd)
          (sym (ap (λ (x : Buf). x.blockno) sc) ∙ bl ∙ ap (λ (x : Buf). x.blockno) sd);
  }

  -- The chains after the two writes, where only the chain of `b` has changed.
  left-chains :
      (qnext' hash' : ℕ → ℕ)
      → Chain qnext' (hash' (hash_of (bufs b))) (without b (hs (hash_of (bufs b))))
      → ((h : ℕ) → h < hash_size → h ≢ hash_of (bufs b) → Chain qnext' (hash' h) (hs h))
      → (h : ℕ) → h < hash_size
      → Chain qnext' (hash' h) (left h)
  left-chains qnext' hash' here there h lt =
      update_one (λ g ys. g < hash_size → Chain qnext' (hash' g) ys) hs (hash_of (bufs b))
        (without b (hs (hash_of (bufs b)))) (λ _. here) (λ g ne lt'. there g lt' ne) h lt

  -- The walk over the chain of `b` and its write, and then `b->qnext = NULL`.
  abbrev pub Unhashed : Option (Option ℕ) → Type 0
  Unhashed link = elim link [
    | none ↦ ⊥
    | some none ↦ ⊥
    | some (some zero) ↦
        IsIndex gone_bufs (update qnext b 0) (update hash (hash_of (bufs b)) (qnext b)) bs left
    | some (some (suc q)) ↦
        IsIndex gone_bufs (update (update qnext (suc q) (qnext b)) b 0) hash bs left
  ]

  no_self : has b (without b (hs (hash_of (bufs b)))) ≡ false
  no_self = has-without_self b (hs (hash_of (bufs b))) (v.distinct (hash_of (bufs b)) small)

  elsewhere :
      (h q : ℕ)
      → h < hash_size
      → h ≢ hash_of (bufs b)
      → has q (hs (hash_of (bufs b))) ≡ true
      → has q (hs h) ≡ false
  elsewhere h q lt ne i = one_chain bufs qnext hash bs hs v h (hash_of (bufs b)) q lt small i ne

  unhash_head :
      has b (hs (hash_of (bufs b))) ≡ true
      → Chain qnext (qnext b) (without b (hs (hash_of (bufs b))))
      → Unhashed (some (some 0))
  unhash_head i c =
      let h = hash_of (bufs b) in
      remove-Index (update qnext b 0) (update hash h (qnext b)) (
        left-chains (update qnext b 0) (update hash h (qnext b))
          (subst (λ w. Chain (update qnext b 0) w (without b (hs h)))
            (sym (update_self hash h (qnext b)))
            (Chain-update qnext (qnext b) b 0 (without b (hs h)) no_self c))
          (λ g lt ne.
            subst (λ w. Chain (update qnext b 0) w (hs g)) (sym (update_ne hash h g (qnext b) ne))
              (Chain-update qnext (hash g) b 0 (hs g) (elsewhere g b lt ne i) (v.chain g lt))))

  unhash_inside :
      (q : ℕ)
      → has (suc q) (hs (hash_of (bufs b))) ≡ true
      → has b (hs (hash_of (bufs b))) ≡ true
      → Chain
          (update qnext (suc q) (qnext b))
          (hash (hash_of (bufs b)))
          (without b (hs (hash_of (bufs b))))
      → Unhashed (some (some (suc q)))
  unhash_inside q iq i c =
      let h = hash_of (bufs b) in
      let qnext1 = update qnext (suc q) (qnext b) in
      remove-Index (update qnext1 b 0) hash (
        left-chains (update qnext1 b 0) hash
          (Chain-update qnext1 (hash h) b 0 (without b (hs h)) no_self c)
          (λ g lt ne. Chain-update qnext1 (hash g) b 0 (hs g) (elsewhere g b lt ne i) (
            Chain-update qnext (hash g) (suc q) (qnext b) (hs g) (elsewhere g (suc q) lt ne iq)
              (v.chain g lt))))

  unhash-Found :
      (r : Option (Option ℕ))
      → has b bs ≡ true
      → Found qnext 0 (hash (hash_of (bufs b))) b (hs (hash_of (bufs b))) r
      → Unhashed r
  unhash-Found _ ib (at_head e i c) = unhash_head i c
  unhash-Found _ ib (inside zero iq i c) = absurd (
      Chain-nonzero qnext (hash (hash_of (bufs b))) 0 (hs (hash_of (bufs b)))
        (v.chain (hash_of (bufs b)) small) iq refl)
  unhash-Found _ ib (inside (suc q) iq i c) = unhash_inside q iq i c
  unhash-Found _ ib (absent i) = absurd (false≢true (sym i ∙ v.complete b ib held))

  pub find_link-Unhashed :
      (fuel : ℕ)
      → has b bs ≡ true
      → length (hs (hash_of (bufs b))) < fuel
      → Unhashed (find_link fuel qnext 0 (hash (hash_of (bufs b))) b)
  find_link-Unhashed fuel ib lt =
      unhash-Found (find_link fuel qnext 0 (hash (hash_of (bufs b))) b) ib (
        find_link-Found fuel qnext 0 (hash (hash_of (bufs b))) b (hs (hash_of (bufs b)))
          (v.chain (hash_of (bufs b)) small) (v.distinct (hash_of (bufs b)) small) lt)
