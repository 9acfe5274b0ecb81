-- ===== src/Blk/Registry.antt =====
-- The list of registered block devices: no two with the same numbers.
use spinix.Base.{
  ℕ, ◌<◌, ◌≡◌, refl, sym, ap, ◌∙◌, ◌≢◌, ◌⊎◌, inl, inr, ◌||◌, not, true, false, Bool-cases, Option,
  none, some, List, ◌∷◌, arith, length, has, has-ne, Distinct, ltb, ◌==◌, eq→==, ne→==, ==→eq,
  ◌>>=◌,
}
use mathlib.Core.Path.{subst}
use mathlib.Core.Bool.{false≢true}
use spinix.Base.Int.{pos, neg}
use spinix.Base.Memory.{update, update_ne, update_self, update-field, field-update}
use spinix.Base.Chain.{
  Chain, Chain-keep, Chain-nonzero, find_link-Found, Found, at_head, inside, absent, without,
  without-Distinct, has-of-without, without-absent,
}
use spinix.Base.Chain.Search.{find_node-first, first, first-IsFirst}
use spinix.Blk.{
  eexist, Device, Blk, next_of, set_dev, has_numbers, can_request, find_device, push_device,
  register_device, unlink_device, unregister_device,
}

module _ {W : Type 0} where
  abbrev pub SameNumbers : Blk W → ℕ → ℕ → Type 0
  SameNumbers s p q = ((s.devs p).major ≡ (s.devs q).major) × ((s.devs p).minor ≡ (s.devs q).minor)

  pub record IsValid (s : Blk W) (ps : List ℕ) : Type 0 where
    pub chain : Chain (next_of s) s.device_list ps
    pub distinct : Distinct ps
    pub numbers : (p q : ℕ) → has p ps ≡ true → has q ps ≡ true → SameNumbers s p q → p ≡ q

  find_device-first :
      (fuel major minor : ℕ) (s : Blk W) (ps : List ℕ)
      → IsValid s ps
      → length ps < fuel
      → find_device fuel major minor s ≡ some (first (has_numbers s major minor) ps)
  unfolding find_device
  find_device-first fuel major minor s ps v lt =
      find_node-first fuel (next_of s) (has_numbers s major minor) s.device_list ps v.chain lt

  -- In a valid registry, and with fuel for more nodes than it has, blk_find_device returns the
  -- registered device with the given numbers, or NULL if none has them, and no other registered
  -- device has them.
  pub find_device_lem :
      (fuel major minor : ℕ) (s : Blk W) (ps : List ℕ)
      → IsValid s ps
      → length ps < fuel
      → (r : ℕ) × (find_device fuel major minor s ≡ some r)
        × (((has r ps ≡ true) × (has_numbers s major minor r ≡ true))
            ⊎ ((r ≡ 0) × ((q : ℕ) → has q ps ≡ true → has_numbers s major minor q ≡ false)))
        × ((q : ℕ) → has q ps ≡ true → has_numbers s major minor q ≡ true → q ≡ r)
  find_device_lem fuel major minor s ps v lt =
      let r = first (has_numbers s major minor) ps in
      (
        r,
        find_device-first fuel major minor s ps v lt,
        first-IsFirst (has_numbers s major minor) ps,
        λ q i h. elim (first-IsFirst (has_numbers s major minor) ps) [
          | inl (ir, hr) ↦ v.numbers q r i ir (ground arith)
          | inr (_, others) ↦ absurd (false≢true (sym (others q i) ∙ h))
        ],
      )

  push-SameNumbers :
      (dev : ℕ) (s : Blk W) (p q : ℕ) → SameNumbers (push_device dev s) p q → SameNumbers s p q
  push-SameNumbers dev s p q (a, b) =
      let d = record (s.devs dev) { open_count = 0; next = s.device_list } in
      (
        sym (update-field (λ (d : Device W). d.major) s.devs dev d p refl)
            ∙ a
            ∙ update-field (λ (d : Device W). d.major) s.devs dev d q refl,
        sym (update-field (λ (d : Device W). d.minor) s.devs dev d p refl)
            ∙ b
            ∙ update-field (λ (d : Device W). d.minor) s.devs dev d q refl,
      )

  link-SameNumbers :
      (r n : ℕ) (s : Blk W) (p q : ℕ)
      → SameNumbers (set_dev s r (record (s.devs r) { next = n })) p q
      → SameNumbers s p q
  link-SameNumbers r n s p q (a, b) =
      let d = record (s.devs r) { next = n } in
      (
        sym (update-field (λ (d : Device W). d.major) s.devs r d p refl)
            ∙ a
            ∙ update-field (λ (d : Device W). d.major) s.devs r d q refl,
        sym (update-field (λ (d : Device W). d.minor) s.devs r d p refl)
            ∙ b
            ∙ update-field (λ (d : Device W). d.minor) s.devs r d q refl,
      )

  -- The unlinking write, from what the walk has found.
  unlink_device-IsValid :
      (dev : ℕ) (s : Blk W) (ps : List ℕ) {r : Option (Option ℕ)}
      → IsValid s ps
      → Found (next_of s) 0 s.device_list dev ps r
      → (l : Option ℕ) × (r ≡ some l) × IsValid (unlink_device dev l s) (without dev ps)
  unlink_device-IsValid dev s ps v (at_head e i c) = (
    some 0,
    refl,
    record {
      chain = c;
      distinct = without-Distinct dev ps v.distinct;
      numbers =
          λ p q ip iq. v.numbers p q (has-of-without dev p ps ip) (has-of-without dev q ps iq);
    },
  )
  unlink_device-IsValid dev s ps v (inside r ir i c) =
      let nz : (r == 0) ≡ false = ne→== (Chain-nonzero (next_of s) s.device_list r ps v.chain ir) in
      (
        some r,
        refl,
        rw nz record {
          chain =
              Chain-keep (update (next_of s) r (next_of s dev)) _ s.device_list (without dev ps)
                (λ q _. field-update (λ (d : Device W). d.next) s.devs r _ q) c;
          distinct = without-Distinct dev ps v.distinct;
          numbers = λ p q ip iq same.
              v.numbers p q (has-of-without dev p ps ip) (has-of-without dev q ps iq)
                (link-SameNumbers r (next_of s dev) s p q same);
        },
      )
  unlink_device-IsValid dev s ps v (absent i) =
      (none, refl, subst (IsValid s) (sym (without-absent dev ps i)) v)

  module _ (fuel dev : ℕ) (s : Blk W) (ps : List ℕ) (v : IsValid s ps) (lt : length ps < fuel)
      (nz : dev ≢ 0) where
    guard :
        can_request (s.devs dev).ops ≡ true
        → (dev == 0 || not (can_request (s.devs dev).ops)) ≡ false
    guard ok = rw (ne→== nz, ok)

    push_device-IsValid :
        has dev ps ≡ false
        → ((p : ℕ) → has p ps ≡ true → ¬ (SameNumbers s p dev))
        → IsValid (push_device dev s) (dev ∷ ps)
    push_device-IsValid out new =
        let d = record (s.devs dev) { open_count = 0; next = s.device_list } in
        let s' = push_device dev s in
        record {
          chain = (
            refl,
            nz,
            subst (λ w. Chain (next_of s') w ps)
                (sym (ap (λ (d : Device W). d.next) (update_self s.devs dev d)))
                (Chain-keep (next_of s) (next_of s') s.device_list ps
                  (λ q i.
                    ap (λ (d : Device W). d.next)
                      (update_ne s.devs dev q d (has-ne ps q dev i out)))
                  v.chain),
          );
          distinct = (out, v.distinct);
          numbers = λ p q ip iq same'.
              let same = push-SameNumbers dev s p q same' in
              elim (Bool-cases (dev == p)) [
                | inl ep ↦ elim (Bool-cases (dev == q)) [
                  | inl eq ↦ omega (arith, ==→eq dev p ep, ==→eq dev q eq)
                  | inr nq ↦ absurd (
                      new q (ground arith)
                        (subst (SameNumbers s q) (sym (==→eq dev p ep)) (sym same.0, sym same.1)))
                ]
                | inr np ↦ elim (Bool-cases (dev == q)) [
                  | inl eq ↦
                      absurd
                        (new p (ground arith) (subst (SameNumbers s p) (sym (==→eq dev q eq)) same))
                  | inr nq ↦ v.numbers p q (ground arith) (ground arith) same
                ]
              ];
        }

    -- In a valid registry, and with fuel for more nodes than it has, blk_register_device of a
    -- device with a request callback whose numbers a registered device has returns -EEXIST and
    -- changes nothing.
    pub register_device-taken :
        (p : ℕ)
        → can_request (s.devs dev).ops ≡ true
        → has p ps ≡ true
        → SameNumbers s p dev
        → register_device fuel dev s ≡ some (neg eexist, s)
    unfolding register_device
    register_device-taken p ok i same =
        let test = has_numbers s (s.devs dev).major (s.devs dev).minor in
        let found : (first test ps == 0) ≡ false = elim (first-IsFirst test ps) [
          | inl (ir, _) ↦
              ne→== (Chain-nonzero (next_of s) s.device_list (first test ps) ps v.chain ir)
          | inr (_, others) ↦ absurd (false≢true (sym (others p i) ∙ ground arith))
        ] in
        rw (guard ok) (
          rw (find_device-first fuel (s.devs dev).major (s.devs dev).minor s ps v lt, ◌>>=◌)
            (rw found))

    -- In a valid registry, and with fuel for more nodes than it has, blk_register_device of a
    -- device with a request callback whose numbers no registered device has returns 0, puts the
    -- device in front with an open count of 0, and keeps the registry valid.
    pub register_device-new :
        can_request (s.devs dev).ops ≡ true
        → ((p : ℕ) → has p ps ≡ true → ¬ (SameNumbers s p dev))
        → (register_device fuel dev s ≡ some (pos 0, push_device dev s))
          × IsValid (push_device dev s) (dev ∷ ps)
          × (((push_device dev s).devs dev).open_count ≡ 0)
    unfolding register_device
    register_device-new ok new =
        let test = has_numbers s (s.devs dev).major (s.devs dev).minor in
        let out : has dev ps ≡ false = elim (Bool-cases (has dev ps)) [
          | inl i ↦ absurd (new dev i (refl, refl))
          | inr o ↦ o
        ] in
        let free : (first test ps == 0) ≡ true = elim (first-IsFirst test ps) [
          | inl (ir, hr) ↦ absurd (new (first test ps) ir (ground arith))
          | inr (z, _) ↦ eq→== z
        ] in
        (
          rw (guard ok) (
              rw (find_device-first fuel (s.devs dev).major (s.devs dev).minor s ps v lt, ◌>>=◌)
                (rw free)),
          push_device-IsValid out new,
          ap (λ (d : Device W). d.open_count) (update_self s.devs dev _),
        )

    -- In a valid registry, and with fuel for more nodes than it has, blk_unregister_device of a
    -- device with an open count of 0 returns, takes that device off the list if it is there and no
    -- other, and keeps the registry valid.
    pub unregister_device-IsValid :
        (s.devs dev).open_count ≡ 0
        → (s' : Blk W) × (unregister_device fuel dev s ≡ some s') × IsValid s' (without dev ps)
    unfolding unregister_device
    unregister_device-IsValid closed =
        let opened : ltb 0 (s.devs dev).open_count ≡ false = ground arith in
        let (l, e, v') =
          unlink_device-IsValid dev s ps v
            (find_link-Found fuel (next_of s) 0 s.device_list dev ps v.chain v.distinct lt) in
        (unlink_device dev l s, rw (ne→== nz, opened) (rw (e, ◌>>=◌)), v')
