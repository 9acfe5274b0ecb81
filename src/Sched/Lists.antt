-- ===== src/Sched/Lists.antt =====
-- The lists that the links `next` of the tasks of kernel/core/scheduler.c make up: a family of lists
-- with a head for each, no task on two of them.
use spinix.Base.{
  ℕ, ◌≡◌, refl, sym, ◌∙◌, ◌≢◌, inl, inr, Bool, true, false, Bool-cases, List, [], ◌∷◌, ◌++◌, arith,
  has, has-ne, has-append, Distinct, Distinct-append, ◌==◌, eq→==, ne→==, ==→eq, ==→ne,
}
use mathlib.Core.Path.{subst, ap}
use mathlib.Core.Bool.{false≢true}
use spinix.Base.Memory.{update, update_ne, update_one, update_self}
use spinix.Base.Chain.{Chain, Chain-keep, Chain-update}

pub record IsLists (next head : ℕ → ℕ) (ls : ℕ → List ℕ) : Type 0 where
  pub chain : (i : ℕ) → Chain next (head i) (ls i)
  pub distinct : (i : ℕ) → Distinct (ls i)
  pub apart : (i j t : ℕ) → has t (ls i) ≡ true → has t (ls j) ≡ true → i ≡ j

-- The task is on no list.
abbrev pub Free : (ℕ → List ℕ) → ℕ → Type 0
Free ls t = (i : ℕ) → has t (ls i) ≡ false

-- The last of a list, 0 if there is none.
abbrev pub last : List ℕ → ℕ
last [] = 0
last (t ∷ []) = t
last (t ∷ u ∷ ts) = last (u ∷ ts)

abbrev pub is_empty : List ℕ → Bool
is_empty [] = true
is_empty (t ∷ ts) = false

-- Equal lists have equal first items and equal rests.
abbrev first_or : ℕ → List ℕ → ℕ
first_or d [] = d
first_or d (t ∷ ts) = t

abbrev rest_of : List ℕ → List ℕ
rest_of [] = []
rest_of (t ∷ ts) = ts

pub cons-eq : (t u : ℕ) (ts us : List ℕ) → t ∷ ts ≡ u ∷ us → (t ≡ u) × (ts ≡ us)
cons-eq t u ts us e = (ap (first_or 0) e, ap rest_of e)

pub nil-ne : {l : List ℕ} (t : ℕ) (ts : List ℕ) → l ≡ [] → l ≢ t ∷ ts
nil-ne t ts e f = false≢true (ap is_empty (sym f ∙ e))

pub append_assoc : (xs ys zs : List ℕ) → (xs ++ ys) ++ zs ≡ xs ++ (ys ++ zs)
append_assoc [] ys zs = refl
append_assoc (x ∷ xs) ys zs = ap (λ l. x ∷ l) (append_assoc xs ys zs)

pub last-append : (ts : List ℕ) (t : ℕ) → last (ts ++ t ∷ []) ≡ t
last-append [] t = refl
last-append (u ∷ []) t = refl
last-append (u ∷ v ∷ ts) t = last-append (v ∷ ts) t

pub last-more : (t : ℕ) (ts : List ℕ) → is_empty ts ≡ false → last (t ∷ ts) ≡ last ts
last-more t [] ne = absurd (false≢true (sym ne))
last-more t (u ∷ ts) ne = refl

pub is_empty-append : (ts : List ℕ) (t : ℕ) → is_empty (ts ++ t ∷ []) ≡ false
is_empty-append [] t = refl
is_empty-append (u ∷ ts) t = refl

pub has-last : (ts : List ℕ) → is_empty ts ≡ false → has (last ts) ts ≡ true
has-last [] ne = absurd (false≢true (sym ne))
has-last (t ∷ []) ne = ground arith
has-last (t ∷ u ∷ ts) ne = ground (arith, has-last (u ∷ ts) refl)

-- A new last link.
pub Chain-snoc :
    (next : ℕ → ℕ) (v t : ℕ) (ts : List ℕ)
    → Chain next v ts
    → Distinct ts
    → has t ts ≡ false
    → t ≢ 0
    → next t ≡ 0
    → is_empty ts ≡ false
    → Chain (update next (last ts) t) v (ts ++ t ∷ [])
Chain-snoc next v t [] c d out nt z ne = absurd (false≢true (sym ne))
Chain-snoc next v t (u ∷ []) (e, nz, c) d out nt z ne =
    (e, nz, (update_self next u t, nt, update_ne next u t t (ground arith) ∙ z))
Chain-snoc next v t (u ∷ w ∷ ts) (e, nz, c) (out_u, d) out nt z ne =
    let q = last (w ∷ ts) in
    let rest = Chain-snoc next (next u) t (w ∷ ts) c d (ground arith) nt z refl in
    let differ = has-ne (w ∷ ts) q u (has-last (w ∷ ts) refl) out_u in
    (
      e,
      nz,
      subst (λ p. Chain (update next q t) p (w ∷ ts ++ t ∷ []))
          (sym (update_ne next q u t (λ h. differ (sym h)))) rest,
    )

module _ (next head : ℕ → ℕ) (ls : ℕ → List ℕ) (v : IsLists next head ls) where
  -- List `i` becomes `l`, and the other lists keep their links.
  pub Lists-set :
      (next' : ℕ → ℕ) (i h : ℕ) (l : List ℕ)
      → Chain next' h l
      → Distinct l
      → ((j q : ℕ) → j ≢ i → has q (ls j) ≡ true → has q l ≡ false)
      → ((j q : ℕ) → j ≢ i → has q (ls j) ≡ true → next' q ≡ next q)
      → IsLists next' (update head i h) (update ls i l)
  Lists-set next' i h l c d out same = record {
    chain = λ j. elim (Bool-cases (j == i)) [
      | inl e ↦ rw (e, update) c
      | inr e ↦
          rw (e, update)
            (Chain-keep next next' (head j) (ls j) (λ q iq. same j q (==→ne j i e) iq) (v.chain j))
    ];
    distinct = λ j. elim (Bool-cases (j == i)) [
      | inl e ↦ rw (e, update) d
      | inr e ↦ rw (e, update) (v.distinct j)
    ];
    apart = λ j k q. elim (Bool-cases (j == i)) [
      | inl e ↦ elim (Bool-cases (k == i)) [
        | inl f ↦ λ _ _. ==→eq j i e ∙ sym (==→eq k i f)
        | inr f ↦
            rw (e, f, update) (λ iq ik. absurd (false≢true (sym (out k q (==→ne k i f) ik) ∙ iq)))
      ]
      | inr e ↦ elim (Bool-cases (k == i)) [
        | inl f ↦
            rw (e, f, update) (λ iq ik. absurd (false≢true (sym (out j q (==→ne j i e) iq) ∙ ik)))
        | inr f ↦ rw (e, f, update) (v.apart j k q)
      ]
    ];
  }

  -- Equal heads and lists.
  pub Lists-head : (head' : ℕ → ℕ) → ((i : ℕ) → head' i ≡ head i) → IsLists next head' ls
  Lists-head head' same = record {
    chain = λ i. subst (λ h. Chain next h (ls i)) (sym (same i)) (v.chain i);
    distinct = v.distinct;
    apart = v.apart;
  }

  -- The link of a task that is on no list is free.
  pub Lists-Free : (t x : ℕ) → Free ls t → IsLists (update next t x) head ls
  Lists-Free t x free = record {
    chain = λ i. Chain-update next (head i) t x (ls i) (free i) (v.chain i);
    distinct = v.distinct;
    apart = v.apart;
  }

  -- A task of one list is on no other.
  pub elsewhere : (i j q : ℕ) → j ≢ i → has q (ls j) ≡ true → has q (ls i) ≡ false
  elsewhere i j q ne iq = elim (Bool-cases (has q (ls i))) [
    | inl e ↦ absurd (ne (v.apart j i q iq e))
    | inr e ↦ e
  ]

  -- A free task joins list `i` at the front.
  pub Lists-cons :
      (i t : ℕ)
      → Free ls t
      → t ≢ 0
      → IsLists (update next t (head i)) (update head i t) (update ls i (t ∷ ls i))
  Lists-cons i t free nt =
      let w = Lists-Free t (head i) free in
      Lists-set (update next t (head i)) i t (t ∷ ls i)
        (
          refl,
          nt,
          subst (λ h. Chain (update next t (head i)) h (ls i)) (sym (update_self next t (head i)))
              (w.chain i),
        )
        (free i, v.distinct i)
        (λ j q ne iq.
          let other = elsewhere i j q ne iq in
          let differ = has-ne (ls j) q t iq (free j) in ground arith)
        (λ j q ne iq. update_ne next t q (head i) (has-ne (ls j) q t iq (free j)))

  -- It joins list `i` at the end.
  pub Lists-snoc :
      (i t : ℕ)
      → Free ls t
      → t ≢ 0
      → is_empty (ls i) ≡ false
      → next t ≡ 0
      → IsLists (update next (last (ls i)) t) head (update ls i (ls i ++ t ∷ []))
  Lists-snoc i t free nt ne z =
      let l = ls i ++ t ∷ [] in
      let q = last (ls i) in
      let last_in = has-last (ls i) ne in
      let w =
        Lists-set (update next q t) i (head i) l
          (Chain-snoc next (head i) t (ls i) (v.chain i) (v.distinct i) (free i) nt z ne)
          (Distinct-append (ls i) t (v.distinct i) (free i))
          (λ j p ne' ip.
            let other = elsewhere i j p ne' ip in
            let differ = has-ne (ls j) p t ip (free j) in
            has-append p (ls i) (t ∷ []) ∙ ground arith)
          (λ j p ne' ip.
            update_ne next q p t
              (λ h. has-ne (ls i) q p last_in (elsewhere i j p ne' ip) (sym h))) in
      record {
        chain = λ j.
            subst (λ h. Chain (update next q t) h (update ls i l j))
              (update_one (λ k x. x ≡ head k) head i (head i) refl (λ k _. refl) j) (w.chain j);
        distinct = w.distinct;
        apart = w.apart;
      }

  -- The head leaves list `i`.
  pub Lists-tail :
      (i t : ℕ) (ts : List ℕ)
      → ls i ≡ t ∷ ts
      → IsLists (update next t 0) (update head i (next t)) (update ls i ts)
  Lists-tail i t ts e =
      let (e', nt, c) = subst (Chain next (head i)) e (v.chain i) in
      let (out, d) = subst Distinct e (v.distinct i) in
      let listed : has t (ls i) ≡ true = subst (λ l. has t l ≡ true) (sym e) (ground arith) in
      Lists-set (update next t 0) i (next t) ts (Chain-update next (next t) t 0 ts out c) d
        (λ j q ne iq.
          let other = subst (λ l. has q l ≡ false) e (elsewhere i j q ne iq) in ground arith)
        (λ j q ne iq.
          update_ne next t q 0 (λ h. has-ne (ls i) t q listed (elsewhere i j q ne iq) (sym h)))

  -- A free task becomes the only one of list `i`.
  pub Lists-single :
      (i t : ℕ)
      → Free ls t
      → t ≢ 0
      → ls i ≡ []
      → next t ≡ 0
      → IsLists next (update head i t) (update ls i (ls i ++ t ∷ []))
  Lists-single i t free nt e z =
      subst (λ l. IsLists next (update head i t) (update ls i (l ++ t ∷ []))) (sym e)
        (Lists-set next i t (t ∷ []) (refl, nt, z) (refl, tt)
          (λ j q ne iq. let differ = has-ne (ls j) q t iq (free j) in ground arith)
          (λ j q ne iq. refl))

-- The head of a list is not NULL, and it is free once it has left.
pub tail-Free :
    (next head : ℕ → ℕ) (ls : ℕ → List ℕ) (v : IsLists next head ls) (i t : ℕ) (ts : List ℕ)
    → ls i ≡ t ∷ ts
    → Free (update ls i ts) t × (t ≢ 0)
tail-Free next head ls v i t ts e =
    let listed : has t (ls i) ≡ true = subst (λ l. has t l ≡ true) (sym e) (ground arith) in
    (
      update_one (λ j l. has t l ≡ false) ls i ts ((subst Distinct e (v.distinct i)).0)
          (λ j ne. elsewhere next head ls v j i t (λ z. ne (sym z)) listed),
      (subst (Chain next (head i)) e (v.chain i)).1,
    )

-- A list is empty exactly where its head is NULL.
pub Chain-is_empty : (next : ℕ → ℕ) (v : ℕ) (ts : List ℕ) → Chain next v ts → is_empty ts ≡ (v == 0)
Chain-is_empty next v [] c = sym (eq→== c)
Chain-is_empty next v (t ∷ ts) (e, nz, c) = sym (ne→== (λ z. nz (sym e ∙ z)))

pub is_empty→eq : (ts : List ℕ) → is_empty ts ≡ true → ts ≡ []
is_empty→eq [] e = refl
is_empty→eq (t ∷ ts) e = absurd (false≢true e)
