-- ===== src/Sched/Turns.antt =====
-- Tasks that call `schedule` in turn: each task of the highest queue runs.
use spinix.Base.{
  ℕ, zero, suc, ◌≡◌, ◌<◌, refl, sym, ap, ◌∙◌, ◌≢◌, inl, inr, true, false, Bool-cases, Option, some,
  List, [], ◌∷◌, ◌++◌, arith, has, has-ne, has-append, All, length, ltb, ◌>>=◌,
}
use mathlib.Core.Path.{subst}
use spinix.Base.Int.{pos}
use spinix.Base.Memory.{update, update_ne, update_self, update_one}
use spinix.Sched.{running, queue_count, priority_to_queue, Sched}
use spinix.Sched.Switch.{schedule}
use spinix.Sched.Lists.{Free, tail-Free, cons-eq, nil-ne, append_assoc}
use spinix.Sched.Queues.{IsValid, append_to, all_heads}
use spinix.Sched.Requeue.{Runs, home}
use spinix.Sched.Choice.{schedule-Runs}
use spinix.Sched.Keeps.{settled, Keeps, Kept, schedule-Kept}

-- `n` calls of `schedule`, the first by the task that runs and each by the one that it switches to.
abbrev pub turns : (ℕ → ℕ) → ℕ → ℕ → Sched → Option Sched
turns to_ns tsc zero s = some s
turns to_ns tsc (suc n) s = schedule to_ns tsc s >>= λ r. turns to_ns tsc n (r.1)

-- A task of the queue `i` that may run: it is not the idle task, and its own queue is `i`.
abbrev pub Belongs : Sched → ℕ → ℕ → Type 0
Belongs s i q =
    (q ≢ s.idle) × (settled (s.tasks q) < 256) × (priority_to_queue (settled (s.tasks q)) ≡ i)

-- A state in a round of queue `i`, the highest with a task: the queue is `l`.
pub record Turn (i : ℕ) (l : List ℕ) (s : Sched) (ls : ℕ → List ℕ) : Type 0 where
  pub valid : IsValid s ls
  pub runs : Runs s ls
  pub own : home s ≡ i
  pub entries : ls i ≡ l
  pub higher : (j : ℕ) → i < j → j < queue_count → ls j ≡ []
  pub members : All (Belongs s i) l
  pub small : i < queue_count
  pub has_idle : s.idle ≢ 0
  pub unlocked : s.postpone ≡ pos 0

-- A task stays free when another one is queued.
pub snoc-Free : (ls : ℕ → List ℕ) (i c t : ℕ) → Free ls t → t ≢ c → Free (append_to ls i c) t
snoc-Free ls i c t free ne =
    update_one (λ j l. has t l ≡ false) ls i (ls i ++ c ∷ [])
      (has-append t (ls i) (c ∷ []) ∙ (let f = free i in ground arith)) (λ j _. free j)

All-Belongs :
    (s s' : Sched) (i : ℕ) (us : List ℕ) → Keeps s s' → All (Belongs s i) us → All (Belongs s' i) us
All-Belongs s s' i [] k all = tt
All-Belongs s s' i (u ∷ us) k ((ne, lt, e), all) = (
  ((λ z. ne (z ∙ k.idle)), rw (k.level u) lt, ap priority_to_queue (k.level u) ∙ e),
  All-Belongs s s' i us k all,
)

All-snoc :
    (s : Sched) (i : ℕ) (us : List ℕ) (c : ℕ)
    → All (Belongs s i) us
    → Belongs s i c
    → All (Belongs s i) (us ++ c ∷ [])
All-snoc s i [] c all b = (b, tt)
All-snoc s i (u ∷ us) c (h, all) b = (h, All-snoc s i us c all b)

-- The highest queue with a task is unique.
same_queue :
    (ls : ℕ → List ℕ) (i j u v : ℕ) (us vs : List ℕ)
    → i < queue_count
    → j < queue_count
    → ls i ≡ u ∷ us
    → ls j ≡ v ∷ vs
    → ((k : ℕ) → i < k → k < queue_count → ls k ≡ [])
    → ((k : ℕ) → j < k → k < queue_count → ls k ≡ [])
    → j ≡ i
same_queue ls i j u v us vs li lj ei ej hi hj = elim (Bool-cases (ltb i j)) [
  | inl f ↦ absurd (nil-ne v vs (hi j (ground arith) lj) ej)
  | inr f ↦ elim (Bool-cases (ltb j i)) [
    | inl g ↦ absurd (nil-ne u us (hj i (ground arith) li) ei)
    | inr g ↦ ground arith
  ]
]

module _ (to_ns : ℕ → ℕ) (tsc i u : ℕ) (us : List ℕ) (s : Sched) (ls : ℕ → List ℕ)
    (t : Turn i (u ∷ us) s ls) where
  -- The lists after one call.
  abbrev turned : ℕ → List ℕ
  turned = append_to (update ls i us) i s.current

  -- `u` runs, and the task that ran is the last of the queue.
  turn_lem :
      (s' : Sched) × (schedule to_ns tsc s ≡ some (true, s'))
      × (s'.current ≡ u)
      × ((s'.tasks u).state ≡ running)
      × IsValid s' turned
  turn_lem = elim (schedule-Runs to_ns tsc s ls t.valid t.runs t.has_idle t.unlocked) [
    | inl (empty, _) ↦ absurd (nil-ne u us (empty i t.small) t.entries)
    | inr (j, v, vs, lt, e, higher, (s', out, cur, st, slice, w)) ↦
        let same = same_queue ls i j u v us vs t.small lt t.entries e t.higher higher in
        let (first, rest) = cons-eq v u vs us (sym e ∙ ap ls same ∙ t.entries) in
        (
          s',
          out,
          cur ∙ first,
          subst (λ x. (s'.tasks x).state ≡ running) first st,
          subst (λ l. IsValid s' (append_to (update ls i l) i s.current)) rest
              (subst (λ k. IsValid s' (append_to (update ls k vs) i s.current)) same
                (subst (λ h. IsValid s' (append_to (update ls j vs) h s.current)) t.own w)),
        )
  ]

  next-Turn :
      (s' : Sched)
      → Keeps s s'
      → s'.current ≡ u
      → (s'.tasks u).state ≡ running
      → IsValid s' turned
      → Turn i (us ++ s.current ∷ []) s' turned
  next-Turn s' k cur st w =
      let c = s.current in
      let heads = all_heads s.heads s.sleeping s.terminated in
      let left = tail-Free s.next heads ls t.valid.lists i u us t.entries in
      let listed : has u (ls i) ≡ true =
        subst (λ l. has u l ≡ true) (sym t.entries) (ground arith) in
      let (hu, hus) = All-Belongs s s' i (u ∷ us) k t.members in
      let (hc, _) = All-Belongs s s' i (c ∷ []) k ((t.runs.busy, t.runs.level, t.own), tt) in
      record {
        valid = w;
        runs = record {
          nonzero = λ z. left.1 (sym cur ∙ z);
          busy = λ z. hu.0 (sym cur ∙ z);
          state = ap (λ q. (s'.tasks q).state) cur ∙ st;
          free = subst (Free turned) (sym cur) (
              snoc-Free (update ls i us) i c u (left.0) (has-ne (ls i) u c listed (t.runs.free i)));
          level = subst (λ q. settled (s'.tasks q) < 256) (sym cur) (hu.1);
        };
        own = ap (λ q. priority_to_queue (settled (s'.tasks q))) cur ∙ hu.2;
        entries =
            update_self (update ls i us) i (update ls i us i ++ c ∷ [])
            ∙ ap (λ l. l ++ c ∷ []) (update_self ls i us);
        higher = λ j lo hi.
            update_ne (update ls i us) i j (update ls i us i ++ c ∷ []) (omega arith)
            ∙ update_ne ls i j us (omega arith)
            ∙ t.higher j lo hi;
        members = All-snoc s' i us c hus hc;
        small = t.small;
        has_idle = λ z. t.has_idle (sym k.idle ∙ z);
        unlocked = k.postpone ∙ t.unlocked;
      }

  turn_kept : (s' : Sched) → schedule to_ns tsc s ≡ some (true, s') → Keeps s s'
  turn_kept s' out = subst (Kept s) out (schedule-Kept to_ns tsc s)

-- In a round of a ready queue - the queues are valid, no higher queue has a task, every task of the
-- queue may run and belongs to it, as does the task that runs, and task switches are not postponed
-- - a task of the queue runs after as many calls of schedule as there are tasks ahead of it, and
-- one more.
pub turns-reach :
    (to_ns : ℕ → ℕ) (tsc i t : ℕ) (xs vs : List ℕ) (s : Sched) (ls : ℕ → List ℕ)
    → Turn i (xs ++ t ∷ vs) s ls
    → (s' : Sched) × (turns to_ns tsc (suc (length xs)) s ≡ some s') × (s'.current ≡ t)
turns-reach to_ns tsc i t [] vs s ls w =
    let (s', out, cur, _, _) = turn_lem to_ns tsc i t vs s ls w in (s', (rw (out, ◌>>=◌) refl), cur)
turns-reach to_ns tsc i t (x ∷ xs) vs s ls w =
    let (s1, out, cur, st, valid) = turn_lem to_ns tsc i x (xs ++ t ∷ vs) s ls w in
    let k = turn_kept to_ns tsc i x (xs ++ t ∷ vs) s ls w s1 out in
    let w1 = next-Turn to_ns tsc i x (xs ++ t ∷ vs) s ls w s1 k cur st valid in
    let ls1 = turned to_ns tsc i x (xs ++ t ∷ vs) s ls w in
    let (s', rest, last_cur) =
      turns-reach to_ns tsc i t xs (vs ++ s.current ∷ []) s1 ls1
        (subst (λ l. Turn i l s1 ls1) (append_assoc xs (t ∷ vs) (s.current ∷ [])) w1) in
    (s', (rw (out, ◌>>=◌) rest), last_cur)
