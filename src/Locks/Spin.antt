-- ===== src/Locks/Spin.antt =====
-- kernel/core/spinlock.c: the spinlocks, plain or (`irq`) with interrupts disabled, for any number of
-- processors whose steps interleave. A step is one access to the lock, or to a processor's interrupt
-- flag, which is all that the model has of RFLAGS.
use spinix.Base.{
  ℕ, ◌≡◌, ◌≢◌, refl, sym, ap, ◌∙◌, inl, inr, not, ◌&&◌, Bool, true, false, Bool-cases, List, [],
  ◌∷◌, arith, ◌==◌, ==→eq, ==→ne, if◌then◌else◌,
}
use mathlib.Core.Path.{subst}
use mathlib.Core.Bool.{false≢true}
use spinix.Base.Memory.{update, update_one}

-- `spinlock_irq_t`; the lock word has one bit.
pub record SpinLock : Type 0 where
  pub lock : Bool
  pub flags : Bool

abbrev pub unlocked : SpinLock
unlocked = record { lock = false; flags = false }

-- Where a processor is; `saved` is the interrupt flag that it had before, `flags` the one read back.
pub data Place : Type 0 where
  outside : Place
  acquiring : (saved : Bool) → Place
  spinning : (saved : Bool) → Place
  saving : (saved : Bool) → Place
  inside : (saved : Bool) → Place
  releasing : (saved : Bool) → (flags : Bool) → Place
  restoring : (saved : Bool) → (flags : Bool) → Place

pub record Processor : Type 0 where
  pub place : Place
  pub rflags : Bool

abbrev pub at_place : Place → Bool → Processor
at_place p f = record { place = p; rflags = f }

-- `atomic_bit_test_and_set_32` of bit 0, and where its result leads.
abbrev pub attempt : SpinLock → Place → Place → Bool → SpinLock × Processor
attempt l won lost f = (record l { lock = true }, at_place (if l.lock then lost else won) f)

-- The next step of a processor at a place with the interrupt flag `f`. The choice `try` is used
-- outside only: it is `spinlock_try_acquire`, which the plain lock has.
unfoldable pub advance : Bool → Bool → Place → Bool → SpinLock → SpinLock × Processor
advance irq try outside f l =
    if try && not irq
    then attempt l (inside f) outside f
    else (l, at_place (acquiring f) (if irq then false else f))
advance irq try (acquiring s) f l = attempt l (if irq then saving s else inside s) (spinning s) f
advance irq try (spinning s) f l = (l, at_place (if l.lock then spinning s else acquiring s) f)
advance irq try (saving s) f l = (record l { flags = s }, at_place (inside s) f)
advance irq try (inside s) f l = (l, at_place (releasing s (if irq then l.flags else s)) f)
advance irq try (releasing s g) f l =
    (record l { lock = false }, at_place (if irq then restoring s g else outside) f)
advance irq try (restoring s g) f l = (l, at_place outside g)

pub record Machine : Type 0 where
  pub spin : SpinLock
  pub cpus : ℕ → Processor

unfoldable pub advances : Bool → List (ℕ × Bool) → Machine → Machine
advances irq [] m = m
advances irq ((i, try) ∷ cs) m =
    let r = advance irq try (m.cpus i).place (m.cpus i).rflags m.spin in
    advances irq cs (record { spin = r.0; cpus = update m.cpus i (r.1) })

-- The machine before, with the interrupt flags that the processors have.
abbrev pub idle_machine : (ℕ → Bool) → Machine
idle_machine flags = record { spin = unlocked; cpus = λ i. at_place outside (flags i) }

abbrev pub has_lock : Place → Bool
has_lock outside = false
has_lock (acquiring s) = false
has_lock (spinning s) = false
has_lock (saving s) = true
has_lock (inside s) = true
has_lock (releasing s g) = true
has_lock (restoring s g) = false

-- The saved flag is where it will be found.
abbrev pub IsSaved : Bool → Bool → Place → Type 0
IsSaved irq flags outside = Unit
IsSaved irq flags (acquiring s) = Unit
IsSaved irq flags (spinning s) = Unit
IsSaved irq flags (saving s) = Unit
IsSaved irq flags (inside s) = irq ≡ true → flags ≡ s
IsSaved irq flags (releasing s g) = g ≡ s
IsSaved irq flags (restoring s g) = g ≡ s

record Inv (irq : Bool) (l : SpinLock) (cpus : ℕ → Processor) : Type 0 where
  held : (i : ℕ) → has_lock (cpus i).place ≡ true → l.lock ≡ true
  unique : (i j : ℕ) → has_lock (cpus i).place ≡ true → has_lock (cpus j).place ≡ true → i ≡ j
  saved : (i : ℕ) → IsSaved irq l.flags (cpus i).place

-- Another flag matters only to the processor that has the lock.
IsSaved-flags :
    (irq flags flags' : Bool) (p : Place)
    → has_lock p ≡ false
    → IsSaved irq flags p
    → IsSaved irq flags' p
IsSaved-flags irq flags flags' outside h k = tt
IsSaved-flags irq flags flags' (acquiring s) h k = tt
IsSaved-flags irq flags flags' (spinning s) h k = tt
IsSaved-flags irq flags flags' (saving s) h k = tt
IsSaved-flags irq flags flags' (inside s) h k = absurd (false≢true (sym h))
IsSaved-flags irq flags flags' (releasing s g) h k = k
IsSaved-flags irq flags flags' (restoring s g) h k = k

-- The places around the two kinds of lock.
won-IsSaved : (flags s : Bool) (irq : Bool) → IsSaved irq flags (if irq then saving s else inside s)
won-IsSaved flags s true = tt
won-IsSaved flags s false = λ q. absurd (false≢true q)

read_back :
    (flags s : Bool) (irq : Bool) → (irq ≡ true → flags ≡ s) → (if irq then flags else s) ≡ s
read_back flags s true k = k refl
read_back flags s false k = refl

freed : (s g : Bool) (irq : Bool) → has_lock (if irq then restoring s g else outside) ≡ false
freed s g true = refl
freed s g false = refl

freed-IsSaved :
    (flags s g : Bool) (irq : Bool)
    → g ≡ s
    → IsSaved irq flags (if irq then restoring s g else outside)
freed-IsSaved flags s g true k = k
freed-IsSaved flags s g false k = tt

module _ (irq : Bool) (l : SpinLock) (cpus : ℕ → Processor) (v : Inv irq l cpus) (i : ℕ) where
  -- A step to a place `c`, with the lock `l'`.
  change-Inv :
      (c : Processor) (l' : SpinLock)
      → ((j : ℕ)
          → j ≢ i
          → has_lock (cpus j).place ≡ true
          → (l'.lock ≡ true) × (has_lock c.place ≡ false) × (l'.flags ≡ l.flags))
      → (has_lock c.place ≡ true → l'.lock ≡ true)
      → IsSaved irq l'.flags c.place
      → Inv irq l' (update cpus i c)
  change-Inv c l' others own k = record {
    held =
        update_one (λ j (x : Processor). has_lock x.place ≡ true → l'.lock ≡ true) cpus i c own
          (λ j ne h. (others j ne h).0);
    unique = λ j m. elim (Bool-cases (j == i)) [
      | inl e ↦ elim (Bool-cases (m == i)) [
        | inl f ↦ λ _ _. ==→eq j i e ∙ sym (==→eq m i f)
        | inr f ↦
            rw (e, f, update)
              (λ hj hm. absurd (false≢true (sym ((others m (==→ne m i f) hm).1) ∙ hj)))
      ]
      | inr e ↦ elim (Bool-cases (m == i)) [
        | inl f ↦
            rw (e, f, update)
              (λ hj hm. absurd (false≢true (sym ((others j (==→ne j i e) hj).1) ∙ hm)))
        | inr f ↦ rw (e, f, update) (v.unique j m)
      ]
    ];
    saved =
        update_one (λ j (x : Processor). IsSaved irq l'.flags x.place) cpus i c k
          (λ j ne. elim (Bool-cases (has_lock (cpus j).place)) [
            | inl h ↦
                subst (λ g. IsSaved irq g (cpus j).place) (sym ((others j ne h).2)) (v.saved j)
            | inr h ↦ IsSaved-flags irq l.flags l'.flags (cpus j).place h (v.saved j)
          ]);
  }

  -- A step to a place without the lock, which leaves the lock alone.
  quiet-Inv :
      (c : Processor)
      → has_lock c.place ≡ false
      → IsSaved irq l.flags c.place
      → Inv irq l (update cpus i c)
  quiet-Inv c out k =
      change-Inv c l (λ j ne h. (v.held j h, out, refl)) (λ h. absurd (false≢true (sym out ∙ h))) k

  -- A step of the processor that has the lock.
  holder-Inv :
      (c : Processor) (l' : SpinLock)
      → has_lock (cpus i).place ≡ true
      → (has_lock c.place ≡ true → l'.lock ≡ true)
      → IsSaved irq l'.flags c.place
      → Inv irq l' (update cpus i c)
  holder-Inv c l' mine own k = change-Inv c l' (λ j ne h. absurd (ne (v.unique j i h mine))) own k

  -- An attempt to take the lock.
  attempt-Inv :
      (won lost : Place) (f : Bool)
      → has_lock lost ≡ false
      → IsSaved irq l.flags won
      → IsSaved irq l.flags lost
      → let r = attempt l won lost f in Inv irq (r.0) (update cpus i (r.1))
  attempt-Inv won lost f out kw kl = elim (Bool-cases l.lock) [
    | inl e ↦
        let l' = record l { lock = true } in
        subst (λ b. Inv irq l' (update cpus i (at_place (if b then lost else won) f))) (sym e)
          (change-Inv (at_place lost f) l' (λ j ne h. (refl, out, refl)) (λ _. refl) kl)
    | inr e ↦
        let l' = record l { lock = true } in
        subst (λ b. Inv irq l' (update cpus i (at_place (if b then lost else won) f))) (sym e)
          (change-Inv (at_place won f) l' (λ j ne h. absurd (false≢true (sym e ∙ v.held j h)))
            (λ _. refl) kw)
  ]

  advance-Inv :
      (try : Bool) (p : Place) (f : Bool)
      → (cpus i).place ≡ p
      → IsSaved irq l.flags p
      → let r = advance irq try p f l in Inv irq (r.0) (update cpus i (r.1))
  unfolding advance
  advance-Inv try outside f at k = elim (Bool-cases (try && not irq)) [
    | inl e ↦
        let plain : irq ≡ false = ground arith in
        rw e (attempt-Inv (inside f) outside f refl (λ q. absurd (false≢true (sym plain ∙ q))) tt)
    | inr e ↦ rw e (quiet-Inv (at_place (acquiring f) (if irq then false else f)) refl tt)
  ]
  advance-Inv try (acquiring s) f at k =
      attempt-Inv (if irq then saving s else inside s) (spinning s) f refl
        (won-IsSaved l.flags s irq) tt
  advance-Inv try (spinning s) f at k = elim (Bool-cases l.lock) [
    | inl e ↦
        subst (λ b. Inv irq l (update cpus i (at_place (if b then spinning s else acquiring s) f)))
          (sym e) (quiet-Inv (at_place (spinning s) f) refl tt)
    | inr e ↦
        subst (λ b. Inv irq l (update cpus i (at_place (if b then spinning s else acquiring s) f)))
          (sym e) (quiet-Inv (at_place (acquiring s) f) refl tt)
  ]
  advance-Inv try (saving s) f at k =
      let mine = ap has_lock at in
      holder-Inv (at_place (inside s) f) (record l { flags = s }) mine (λ _. v.held i mine)
        (λ _. refl)
  advance-Inv try (inside s) f at k =
      let mine = ap has_lock at in
      holder-Inv (at_place (releasing s (if irq then l.flags else s)) f) l mine (λ _. v.held i mine)
        (read_back l.flags s irq k)
  advance-Inv try (releasing s g) f at k =
      holder-Inv (at_place (if irq then restoring s g else outside) f) (record l { lock = false })
        (ap has_lock at) (λ h. absurd (false≢true (sym (freed s g irq) ∙ h)))
        (freed-IsSaved l.flags s g irq k)
  advance-Inv try (restoring s g) f at k = quiet-Inv (at_place outside g) refl tt

advances-Inv :
    (irq : Bool) (cs : List (ℕ × Bool)) (m : Machine)
    → Inv irq m.spin m.cpus
    → let m' = advances irq cs m in Inv irq m'.spin m'.cpus
unfolding advances
advances-Inv irq [] m v = v
advances-Inv irq ((i, try) ∷ cs) m v =
    let r = advance irq try (m.cpus i).place (m.cpus i).rflags m.spin in
    advances-Inv irq cs (record { spin = r.0; cpus = update m.cpus i (r.1) })
      (advance-Inv irq m.spin m.cpus v i try (m.cpus i).place (m.cpus i).rflags refl (v.saved i))

idle-Inv : (irq : Bool) (flags : ℕ → Bool) → Inv irq unlocked (idle_machine flags).cpus
idle-Inv irq flags = record {
  held = λ i h. absurd (false≢true h);
  unique = λ i j h k. absurd (false≢true h);
  saved = λ i. tt;
}

-- After any steps of any processors, in any order, that acquire, try to acquire and release a
-- spinlock - plain, or with interrupts disabled - at most one processor has it.
pub spin_exclusion :
    (irq : Bool) (cs : List (ℕ × Bool)) (flags : ℕ → Bool) (i j : ℕ)
    → has_lock ((advances irq cs (idle_machine flags)).cpus i).place ≡ true
    → has_lock ((advances irq cs (idle_machine flags)).cpus j).place ≡ true
    → i ≡ j
spin_exclusion irq cs flags i j hi hj =
    (advances-Inv irq cs (idle_machine flags) (idle-Inv irq flags)).unique i j hi hj

-- After any steps of any processors, in any order, a processor that is about to restore its
-- interrupt flag after spinlock_irq_release restores the one that it had before
-- spinlock_irq_acquire.
pub flags_restored :
    (irq : Bool) (cs : List (ℕ × Bool)) (flags : ℕ → Bool) (i : ℕ) (s g : Bool)
    → ((advances irq cs (idle_machine flags)).cpus i).place ≡ restoring s g
    → g ≡ s
flags_restored irq cs flags i s g e =
    let m = advances irq cs (idle_machine flags) in
    let v = advances-Inv irq cs (idle_machine flags) (idle-Inv irq flags) in
    subst (IsSaved irq m.spin.flags) e (v.saved i)
