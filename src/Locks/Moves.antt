-- ===== src/Locks/Moves.antt =====
-- Every step of a thread of kernel/core/mutex.c keeps the invariant of the mutex.
use spinix.Base.{
  ℕ, suc, ◌+◌, ◌≡◌, ◌≤◌, ◌<◌, ◌≢◌, ◌⊎◌, inl, inr, refl, sym, ap, ◌∙◌, Bool, true, false, Bool-cases,
  arith, ◌==◌, eq→==, ==→eq, ==→ne, ◌&&◌, add64, u64_mod,
}
use mathlib.Core.Path.{subst}
use mathlib.Core.Bool.{false≢true}
use spinix.Base.Memory.{update, update_one}
use spinix.Locks.{
  Mutex, Pc, idle, loaded, compared, taking, checking, queueing, waiting, leaving, granted,
  critical, unlocking, storing, waking, give_up, try_cas, move,
}
use spinix.Locks.Invariant.{
  holds, is_critical, Knows, Inv, holds-range, Knows-entries, Knows-exits, critical-holds,
}

module _ (n exits entries owner : ℕ) (pc : ℕ → Pc) (v : Inv n exits entries owner pc) (i : ℕ) where
  -- No other thread is in the critical section while `i` holds the ticket that is served.
  alone :
      holds (pc i) exits ≡ true → (j : ℕ) → j ≢ i → is_critical (pc j) ≡ true → (w : ℕ) → w ≡ suc j
  alone h j ne c w =
      absurd (ne (v.unique j i exits (critical-holds exits entries (pc j) (v.knows j) c) h))

  -- Thread `i` moves to `p`; the tickets given out may grow, and with them its own.
  change-Inv :
      (p : Pc) (entries' owner' : ℕ)
      → entries ≤ entries'
      → entries' ≤ suc n
      → Knows exits entries' p
      → ((t : ℕ) → holds p t ≡ true → (holds (pc i) t ≡ true) ⊎ (entries ≤ t))
      → ((j : ℕ) → j ≢ i → is_critical (pc j) ≡ true → owner' ≡ suc j)
      → (is_critical p ≡ true → owner' ≡ suc i)
      → Inv (suc n) exits entries' owner' (update pc i p)
  change-Inv p entries' owner' le small k own others mine = record {
    bound = small;
    order = (let o = v.order in omega arith);
    knows =
        update_one (λ j q. Knows exits entries' q) pc i p k
          (λ j ne. Knows-entries exits entries entries' (pc j) le (v.knows j));
    unique = λ j l t. elim (Bool-cases (j == i)) [
      | inl e ↦ elim (Bool-cases (l == i)) [
        | inl f ↦ λ _ _. ==→eq j i e ∙ sym (==→eq l i f)
        | inr f ↦ rw (e, f, update) (λ hj hl. absurd (==→ne l i f (clash l t hl hj)))
      ]
      | inr e ↦ elim (Bool-cases (l == i)) [
        | inl f ↦ rw (e, f, update) (λ hj hl. absurd (==→ne j i e (clash j t hj hl)))
        | inr f ↦ rw (e, f, update) (v.unique j l t)
      ]
    ];
    owns = update_one (λ j q. is_critical q ≡ true → owner' ≡ suc j) pc i p mine others;
  }
    where
      clash : (j t : ℕ) → holds (pc j) t ≡ true → holds p t ≡ true → j ≡ i
      clash j t hj hi = elim (own t hi) [
        | inl old ↦ v.unique j i t hj old
        | inr new ↦
            let r = holds-range exits entries t (pc j) (v.knows j) hj in absurd (omega (arith, r.1))
      ]

  -- Thread `i` gives its ticket back.
  store-Inv :
      (p : Pc)
      → holds (pc i) exits ≡ true
      → Knows (exits + 1) entries p
      → ((t : ℕ) → holds p t ≡ false)
      → is_critical p ≡ false
      → Inv (suc n) (exits + 1) entries owner (update pc i p)
  store-Inv p h k none_held calm = record {
    bound = (let b = v.bound in omega arith);
    order = (let r = holds-range exits entries exits (pc i) (v.knows i) h in omega (arith, r.1));
    knows =
        update_one (λ j q. Knows (exits + 1) entries q) pc i p k
          (λ j ne. Knows-exits exits entries (pc j) (other j ne) (v.knows j));
    unique = λ j l t. elim (Bool-cases (j == i)) [
      | inl e ↦ rw (e, update) (λ hj _. absurd (false≢true (sym (none_held t) ∙ hj)))
      | inr e ↦ elim (Bool-cases (l == i)) [
        | inl f ↦ rw (e, f, update) (λ _ hl. absurd (false≢true (sym (none_held t) ∙ hl)))
        | inr f ↦ rw (e, f, update) (v.unique j l t)
      ]
    ];
    owns =
        update_one (λ j q. is_critical q ≡ true → owner ≡ suc j) pc i p
          (λ c. absurd (false≢true (sym calm ∙ c))) (λ j ne. v.owns j);
  }
    where
      other : (j : ℕ) → j ≢ i → holds (pc j) exits ≡ false
      other j ne = elim (Bool-cases (holds (pc j) exits)) [
        | inl e ↦ absurd (ne (v.unique j i exits e h))
        | inr e ↦ e
      ]

add64-small : (n : ℕ) → n + 1 < u64_mod → add64 n 1 ≡ n + 1
add64-small n lt = omega arith

-- The invariant of a mutex and its threads.
abbrev pub Holds : ℕ → Mutex → (ℕ → Pc) → Type 0
Holds n m pc = Inv n m.exits m.entries m.owner pc

module _ (n : ℕ) (m : Mutex) (pc : ℕ → Pc) (v : Holds n m pc) (i : ℕ) where
  -- A step to a place with no more tickets and no other owner.
  quiet-Inv :
      (p : Pc)
      → Knows m.exits m.entries p
      → ((t : ℕ) → holds p t ≡ true → holds (pc i) t ≡ true)
      → is_critical p ≡ false
      → Holds (suc n) m (update pc i p)
  quiet-Inv p k own calm =
      change-Inv n m.exits m.entries m.owner pc v i p m.entries m.owner (omega arith)
        (let b = v.bound in omega arith) k (λ t h. inl (own t h)) (λ j ne. v.owns j)
        (λ c. absurd (false≢true (sym calm ∙ c)))

  -- A step that takes the next ticket.
  ticket-Inv :
      (p : Pc)
      → n + 1 < u64_mod
      → Knows m.exits (m.entries + 1) p
      → ((t : ℕ) → holds p t ≡ true → m.entries ≤ t)
      → is_critical p ≡ false
      → Inv (suc n) m.exits (add64 m.entries 1) m.owner (update pc i p)
  ticket-Inv p lt k own calm =
      let b = v.bound in
      subst (λ e. Inv (suc n) m.exits e m.owner (update pc i p))
        (sym (add64-small m.entries (omega arith)))
        (change-Inv n m.exits m.entries m.owner pc v i p (m.entries + 1) m.owner (omega arith)
          (omega arith) k (λ t h. inr (own t h)) (λ j ne. v.owns j)
          (λ c. absurd (false≢true (sym calm ∙ c))))

  -- A step of the thread whose ticket is served to a place with the owner `w`.
  owner-Inv :
      (p : Pc) (w : ℕ)
      → holds (pc i) m.exits ≡ true
      → Knows m.exits m.entries p
      → ((t : ℕ) → holds p t ≡ true → holds (pc i) t ≡ true)
      → (is_critical p ≡ true → w ≡ suc i)
      → Inv (suc n) m.exits m.entries w (update pc i p)
  owner-Inv p w h k own mine =
      change-Inv n m.exits m.entries m.owner pc v i p m.entries w (omega arith)
        (let b = v.bound in omega arith) k (λ t ht. inl (own t ht))
        (λ j ne c. alone n m.exits m.entries m.owner pc v i h j ne c w) mine

  cas-Inv :
      (b : Bool) (x e : ℕ)
      → n + 1 < u64_mod
      → x ≤ m.exits
      → let r = try_cas b x e m in Holds (suc n) (r.0) (update pc i (r.1))
  cas-Inv b x e lt le = elim (Bool-cases (x == e && (m.entries == e))) [
    | inl f ↦
        let same : e ≡ m.entries = ground arith in
        let o = v.order in
        rw (f, try_cas)
          (subst (λ u. Inv (suc n) m.exits (add64 u 1) m.owner (update pc i (granted e))) (sym same)
            (ticket-Inv (granted e) lt (ground arith, ground arith) (λ t h. ground arith) refl))
    | inr f ↦ rw (f, try_cas) (failed b)
  ]
    where
      failed : (try : Bool) → Holds (suc n) m (update pc i (give_up try))
      failed true = quiet-Inv idle tt (λ t h. absurd (false≢true h)) refl
      failed false = quiet-Inv taking tt (λ t h. absurd (false≢true h)) refl

  module _ (lt : n + 1 < u64_mod) where
    -- Every step keeps the invariant.
    pub move-Inv :
        (try : Bool) (p : Pc)
        → pc i ≡ p
        → Knows m.exits m.entries p
        → let r = move try i m p in Holds (suc n) (r.0) (update pc i (r.1))
    unfolding move
    move-Inv try idle at k =
        quiet-Inv (loaded try m.exits) (omega arith) (λ t h. absurd (false≢true h)) refl
    move-Inv try (loaded b x) at k =
        quiet-Inv (compared b x m.entries) k (λ t h. absurd (false≢true h)) refl
    move-Inv try (compared b x e) at k = cas-Inv b x e lt k
    move-Inv try taking at k =
        let o = v.order in
        ticket-Inv (checking m.entries) lt (o, omega arith) (λ t h. ground arith) refl
    move-Inv try (checking t) at (a, b) = elim (Bool-cases (m.exits == t)) [
      | inl e ↦ rw e (quiet-Inv (granted t) (ground arith, b) (λ u h. rw at h) refl)
      | inr e ↦ rw e (quiet-Inv (queueing t) (a, b) (λ u h. rw at h) refl)
    ]
    move-Inv try (queueing t) at k = quiet-Inv (waiting t) k (λ u h. rw at h) refl
    move-Inv try (waiting t) at (a, b) = elim (Bool-cases (m.exits == t)) [
      | inl e ↦ rw e (quiet-Inv (leaving t) (ground arith, b) (λ u h. rw at h) refl)
      | inr e ↦ rw e (quiet-Inv (waiting t) (a, b) (λ u h. rw at h) refl)
    ]
    move-Inv try (leaving t) at k = quiet-Inv (granted t) k (λ u h. rw at h) refl
    move-Inv try (granted t) at (a, b) =
        owner-Inv (critical t) (suc i) (rw at (eq→== a)) (a, b) (λ u h. rw at h) (λ c. refl)
    move-Inv try (critical t) at (a, b) =
        owner-Inv (unlocking t) 0 (rw at (eq→== a)) (a, b) (λ u h. rw at h)
          (λ c. absurd (false≢true c))
    move-Inv try (unlocking t) at (a, b) =
        quiet-Inv (storing t m.exits) (a, refl, b) (λ u h. rw at h) refl
    move-Inv try (storing t x) at (a, c, b) =
        let o = v.order in
        let bound = v.bound in
        subst (λ e. Inv (suc n) e m.entries m.owner (update pc i (waking (add64 x 1))))
          (sym (ap (λ y. add64 y 1) c ∙ add64-small m.exits (omega arith)))
          (store-Inv n m.exits m.entries m.owner pc v i (waking (add64 x 1)) (rw at (eq→== a)) tt
            (λ u. refl) refl)
    move-Inv try (waking x) at k = quiet-Inv idle tt (λ t h. absurd (false≢true h)) refl
