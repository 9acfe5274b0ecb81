-- ===== src/Sched/Sleepers.antt =====
-- The sleep list of kernel/core/scheduler.c: it is ordered by the time to wake up.
use spinix.Base.{
  ℕ, zero, suc, ◌≡◌, ◌<◌, ◌≤◌, refl, sym, ◌∙◌, ◌≢◌, inl, inr, ◌||◌, true, false, Bool-cases, Option,
  some, List, [], ◌∷◌, arith, has, has-ne, Distinct, length, leb, ◌==◌, eq→==, ne→==, if◌then◌else◌,
  ◌>>=◌,
}
use mathlib.Core.Path.{subst}
use spinix.Base.Memory.{update, update_ne, update_self}
use spinix.Base.Chain.{Chain, Chain-update, Chain-nonzero}
use spinix.Sched.{Sched}
use spinix.Sched.Lists.{IsLists, Free, Lists-set, Lists-head, Lists-cons, elsewhere}
use spinix.Sched.Queues.{IsValid, all_heads, sleep_list, Queues-other, heads-sleeping}
use spinix.Sched.Sleep.{sleep_link, insert_at, join_sleepers, expiry}

-- `t` joins behind the tasks that wake up no later than `wake`.
abbrev pub insert_by : (ℕ → ℕ) → ℕ → ℕ → List ℕ → List ℕ
insert_by time wake t [] = t ∷ []
insert_by time wake t (u ∷ us) =
    if leb (time u) wake then u ∷ insert_by time wake t us else t ∷ u ∷ us

-- No task of the list wakes up before `low`.
abbrev pub NotBefore : (ℕ → ℕ) → ℕ → List ℕ → Type 0
NotBefore time low [] = Unit
NotBefore time low (u ∷ us) = (low ≤ time u) × NotBefore time low us

abbrev pub Sorted : (ℕ → ℕ) → List ℕ → Type 0
Sorted time [] = Unit
Sorted time (u ∷ us) = NotBefore time (time u) us × Sorted time us

NotBefore-insert :
    (time : ℕ → ℕ) (low t : ℕ) (us : List ℕ)
    → low ≤ time t
    → NotBefore time low us
    → NotBefore time low (insert_by time (time t) t us)
NotBefore-insert time low t [] le n = (le, tt)
NotBefore-insert time low t (u ∷ us) le (le', n) = elim (Bool-cases (leb (time u) (time t))) [
  | inl e ↦ rw (e, insert_by) (le', NotBefore-insert time low t us le n)
  | inr e ↦ rw (e, insert_by) (le, (le', n))
]

NotBefore-lower :
    (time : ℕ → ℕ) (low low' : ℕ) (us : List ℕ)
    → low' ≤ low
    → NotBefore time low us
    → NotBefore time low' us
NotBefore-lower time low low' [] le n = tt
NotBefore-lower time low low' (u ∷ us) le (le', n) =
    (omega arith, NotBefore-lower time low low' us le n)

pub insert_by-Sorted :
    (time : ℕ → ℕ) (t : ℕ) (us : List ℕ)
    → Sorted time us
    → Sorted time (insert_by time (time t) t us)
insert_by-Sorted time t [] o = (tt, tt)
insert_by-Sorted time t (u ∷ us) (n, o) = elim (Bool-cases (leb (time u) (time t))) [
  | inl e ↦
      rw (e, insert_by)
        (NotBefore-insert time (time u) t us (ground arith) n, insert_by-Sorted time t us o)
  | inr e ↦
      let le : time t ≤ time u = ground arith in
      rw (e, insert_by) ((le, NotBefore-lower time (time u) (time t) us le n), (n, o))
]

pub has-insert_by :
    (time : ℕ → ℕ) (wake t q : ℕ) (us : List ℕ)
    → has q (insert_by time wake t us) ≡ ((q == t) || has q us)
has-insert_by time wake t q [] = refl
has-insert_by time wake t q (u ∷ us) = ground (arith, has-insert_by time wake t q us)

pub insert_by-Distinct :
    (time : ℕ → ℕ) (wake t : ℕ) (us : List ℕ)
    → has t us ≡ false
    → Distinct us
    → Distinct (insert_by time wake t us)
insert_by-Distinct time wake t [] out d = (refl, tt)
insert_by-Distinct time wake t (u ∷ us) out (out_u, d) = elim (Bool-cases (leb (time u) wake)) [
  | inl e ↦
      rw (e, insert_by)
        (
          has-insert_by time wake t u us ∙ ground arith,
          insert_by-Distinct time wake t us (ground arith) d,
        )
  | inr e ↦ rw (e, insert_by) (out, (out_u, d))
]

-- Where the walk stops, and what the two writes make of the chain.
pub data Gap (next : ℕ → ℕ) (prev cur t : ℕ) (ps ps' : List ℕ) : Option ℕ → Type 0 where
  front : ps' ≡ t ∷ ps → Gap next prev cur t ps ps' (some prev)
  behind :
      (q : ℕ)
      → has q ps ≡ true
      → Chain (update (update next t (next q)) q t) cur ps'
      → Gap next prev cur t ps ps' (some q)

Gap-next :
    (next : ℕ → ℕ) (prev cur t : ℕ) (ps ps' : List ℕ) (r : Option ℕ)
    → cur ≢ 0
    → t ≢ 0
    → has t (cur ∷ ps) ≡ false
    → has cur ps ≡ false
    → Chain next (next cur) ps
    → Gap next cur (next cur) t ps ps' r
    → Gap next prev cur t (cur ∷ ps) (cur ∷ ps') r
Gap-next next prev cur t ps ps' r nz nt out out_c c (front e) = behind cur (ground arith) (
  refl,
  nz,
  subst (λ l. Chain new (new cur) l) (sym e)
      (
        update_self next1 cur t,
        nt,
        subst (λ p. Chain new p ps) (sym at_t)
            (Chain-update next1 (next cur) cur t ps out_c
              (Chain-update next (next cur) t (next cur) ps (ground arith) c)),
      ),
)
  where
    next1 : ℕ → ℕ
    next1 = update next t (next cur)

    new : ℕ → ℕ
    new = update next1 cur t

    at_t : new t ≡ next cur
    at_t = update_ne next1 cur t t (ground arith) ∙ update_self next t (next cur)
Gap-next next prev cur t ps ps' r nz nt out out_c c (behind q iq c') =
    behind q (ground arith) (refl, nz, subst (λ p. Chain new p ps') (sym at_cur) c')
  where
    next1 : ℕ → ℕ
    next1 = update next t (next q)

    new : ℕ → ℕ
    new = update next1 q t

    at_cur : new cur ≡ next cur
    at_cur =
        update_ne next1 q cur t (λ e. has-ne ps q cur iq out_c (sym e))
        ∙ update_ne next t cur (next q) (ground arith)

sleep_link-Gap :
    (fuel : ℕ) (next time : ℕ → ℕ) (wake t prev cur : ℕ) (ps : List ℕ)
    → Chain next cur ps
    → Distinct ps
    → has t ps ≡ false
    → t ≢ 0
    → length ps < fuel
    → Gap next prev cur t ps (insert_by time wake t ps) (sleep_link fuel next time wake prev cur)
unfolding sleep_link
sleep_link-Gap zero next time wake t prev cur ps c d out nt lt = absurd (omega arith)
sleep_link-Gap (suc fuel) next time wake t prev cur [] c d out nt lt = rw (eq→== c) (front refl)
sleep_link-Gap (suc fuel) next time wake t prev cur (p ∷ ps) (e, nz, c) (out_p, d) out nt lt =
    let at : p ≡ cur = sym e in
    let more : (cur == 0) ≡ false = ground arith in
    let nz' : cur ≢ 0 = (λ z. nz (at ∙ z)) in
    let c' = subst (λ w. Chain next (next w) ps) at c in
    let out' = subst (λ w. has t (w ∷ ps) ≡ false) at out in
    let out_c = subst (λ w. has w ps ≡ false) at out_p in
    let rest =
      sleep_link-Gap fuel next time wake t cur (next cur) ps c' d (ground arith) nt (omega arith) in
    subst
      (λ p.
        Gap next prev cur t (p ∷ ps) (insert_by time wake t (p ∷ ps))
          (sleep_link (suc fuel) next time wake prev cur))
      e
      (elim (Bool-cases (leb (time cur) wake)) [
        | inl h ↦
            rw (more, h, insert_by)
              (Gap-next next prev cur t ps (insert_by time wake t ps)
                (sleep_link fuel next time wake cur (next cur)) nz' nt out' out_c c' rest)
        | inr h ↦ rw (more, h, insert_by) (front refl)
      ])

module _ (s : Sched) (ls : ℕ → List ℕ) (v : IsValid s ls) where
  -- The lists after the two writes.
  insert_at-IsValid :
      (t : ℕ) (ts : List ℕ) (r : Option ℕ)
      → Free ls t
      → t ≢ 0
      → Distinct ts
      → ((q : ℕ) → has q ts ≡ ((q == t) || has q (ls sleep_list)))
      → Gap s.next 0 s.sleeping t (ls sleep_list) ts r
      → (prev : ℕ) × (r ≡ some prev) × IsValid (insert_at t prev s) (update ls sleep_list ts)
  insert_at-IsValid t ts r free nt d members (front e) = (
    0,
    refl,
    Queues-other s ls v sleep_list ts (update s.next t s.sleeping) t s.terminated (omega arith) (
        subst
          (λ l.
            IsLists (update s.next t s.sleeping) (all_heads s.heads t s.terminated)
              (update ls sleep_list l))
          (sym e)
          (Lists-head (update s.next t s.sleeping) (update heads sleep_list t)
            (update ls sleep_list (t ∷ ls sleep_list))
            (Lists-cons s.next heads ls v.lists sleep_list t free nt)
            (all_heads s.heads t s.terminated) (heads-sleeping s.heads s.sleeping s.terminated t))),
  )
    where
      heads : ℕ → ℕ
      heads = all_heads s.heads s.sleeping s.terminated
  insert_at-IsValid t ts r free nt d members (behind q iq c) =
      let heads = all_heads s.heads s.sleeping s.terminated in
      let new = update (update s.next t (s.next q)) q t in
      let nq =
        ne→== (Chain-nonzero s.next s.sleeping q (ls sleep_list) (v.lists.chain sleep_list) iq) in
      let other = elsewhere s.next heads ls v.lists sleep_list in
      (
        q,
        refl,
        rw nq (
            Queues-other s ls v sleep_list ts new s.sleeping s.terminated (omega arith) (
              Lists-head new (update heads sleep_list s.sleeping) (update ls sleep_list ts)
                (Lists-set s.next heads ls v.lists new sleep_list s.sleeping ts c d
                  (λ j p ne ip.
                    let apart = other j p ne ip in
                    let differ = ne→== (has-ne (ls j) p t ip (free j)) in
                    members p ∙ rw differ apart)
                  (λ j p ne ip.
                    update_ne (update s.next t (s.next q)) q p t
                      (λ e. has-ne (ls sleep_list) q p iq (other j p ne ip) (sym e))
                    ∙ update_ne s.next t p (s.next q) (has-ne (ls j) p t ip (free j))))
                heads (heads-sleeping s.heads s.sleeping s.terminated s.sleeping))),
      )

  -- In valid queues, with fuel for more tasks than sleep, a task on no list joins the sleep list
  -- behind those that wake up no later.
  pub join_sleepers-IsValid :
      (fuel wake t : ℕ)
      → Free ls t
      → t ≢ 0
      → length (ls sleep_list) < fuel
      → (prev : ℕ) × (join_sleepers fuel wake t s ≡ some (insert_at t prev s))
        × IsValid
            (insert_at t prev s)
            (update ls sleep_list (insert_by (expiry s) wake t (ls sleep_list)))
  unfolding join_sleepers
  join_sleepers-IsValid fuel wake t free nt lt =
      let old = ls sleep_list in
      let (prev, e, w) =
        insert_at-IsValid t (insert_by (expiry s) wake t old)
          (sleep_link fuel s.next (expiry s) wake 0 s.sleeping) free nt
          (insert_by-Distinct (expiry s) wake t old (free sleep_list) (v.lists.distinct sleep_list))
          (λ q. has-insert_by (expiry s) wake t q old)
          (sleep_link-Gap fuel s.next (expiry s) wake t 0 s.sleeping old (v.lists.chain sleep_list)
            (v.lists.distinct sleep_list) (free sleep_list) nt lt) in
      (prev, rw (e, ◌>>=◌), w)
