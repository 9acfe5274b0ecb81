-- ===== src/Vmm/Joined/Regions.antt =====
-- `vmm_merge_regions` of kernel/mm/vmm.c: the whole list, from its head on.
use spinix.Base.{
  ℕ, zero, suc, ◌+◌, ◌<◌, ◌≡◌, refl, sym, ap, ◌∙◌, ◌≢◌, inl, inr, false, Bool-cases, some, List, [],
  ◌∷◌, arith, has, Distinct, length, ◌==◌, eq→==, ne→==, u64_mod, sub64,
}
use mathlib.Core.Path.{subst}
use spinix.Base.Memory.{update, update_ne, update_self}
use spinix.Base.Chain.{Chain, Chain-update}
use spinix.Vmm.{Area, Space, Machine, Vmm, can_merge, space_of}
use spinix.Vmm.Split.{merge_at, merge_loop, merge_regions}
use spinix.Vmm.Areas.{Ordered, reserved, reserved-lt, length-le-reserved, IsValid}
use spinix.Vmm.Halves.{mapping_at}
use spinix.Vmm.Joined.{
  Fits, can_merge-Fits, can_merge-end, joint, Settled, united-Ordered, united-reserved,
  united-mapping,
}

-- From the area `a` on, with `qs` behind it, `n` merges leave `qs'` behind it.
record Merged {W : Type 0} (s s' : Vmm W) (sp low a : ℕ) (qs qs' : List ℕ) (n : ℕ) : Type 0 where
  chain : Chain s'.next (s'.next a) qs'
  distinct : Distinct (a ∷ qs')
  ordered : Ordered s'.area low (a ∷ qs')
  spans : reserved s'.area (a ∷ qs') ≡ reserved s.area (a ∷ qs)
  same : (v : ℕ) → mapping_at s'.area (a ∷ qs') v ≡ mapping_at s.area (a ∷ qs) v
  settled : Settled s'.area a qs'
  number : length qs ≡ n + length qs'
  members : (q : ℕ) → has q qs ≡ false → has q qs' ≡ false
  next_out : (q : ℕ) → has q (a ∷ qs) ≡ false → s'.next q ≡ s.next q
  area_out : (q : ℕ) → has q (a ∷ qs) ≡ false → s'.area q ≡ s.area q
  kept : s'.area a ≡ record (s.area a) { virt_end = (s'.area a).virt_end }
  head : (s'.spaces sp).areas ≡ (s.spaces sp).areas
  total : (s'.spaces sp).total_size ≡ (s.spaces sp).total_size
  count :
      (m : ℕ)
      → (s.spaces sp).area_count ≡ m + length qs
      → m + length qs < u64_mod
      → (s'.spaces sp).area_count ≡ m + length qs'

module _ {W : Type 0} (M : Machine W) (off sp : ℕ) where
  nothing-Merged :
      (s : Vmm W) (low a : ℕ)
      → s.next a ≡ 0
      → Ordered s.area low (a ∷ [])
      → Merged s s sp low a [] [] 0
  nothing-Merged s low a e o = record {
    chain = e;
    distinct = (refl, tt);
    ordered = o;
    spans = refl;
    same = λ v. refl;
    settled = tt;
    number = refl;
    members = λ q i. i;
    next_out = λ q i. refl;
    area_out = λ q i. refl;
    kept = refl;
    head = refl;
    total = refl;
    count = λ m e lt. e;
  }

  -- The area stays, and the merges go on from the next one.
  onward-Merged :
      (s s' : Vmm W) (low a b : ℕ) (qs qs' : List ℕ) (n : ℕ)
      → s.next a ≡ b
      → b ≢ 0
      → has a (b ∷ qs) ≡ false
      → Ordered s.area low (a ∷ b ∷ qs)
      → can_merge (s.area a) (s.area b) ≡ false
      → Merged s s' sp (s.area a).virt_end b qs qs' n
      → Merged s s' sp low a (b ∷ qs) (b ∷ qs') n
  onward-Merged s s' low a b qs qs' n e nz out (l, lt, top, sa, ea, o) apart m =
      let here = m.area_out a out in
      let spans = m.spans in
      record {
        chain = (m.next_out a out ∙ e, nz, m.chain);
        distinct = (ground (arith, m.members a), m.distinct);
        ordered = rw here (l, lt, top, sa, ea, m.ordered);
        spans = rw here (omega (arith, spans));
        same = λ v. rw (here, m.same v) refl;
        settled = (
          rw (here, m.kept) (can_merge-end (s.area a) (s.area b) ((s'.area b).virt_end) ∙ apart),
          m.settled,
        );
        number = omega (arith, m.number);
        members = λ q i. ground (arith, m.members q);
        next_out = λ q i. m.next_out q (ground arith);
        area_out = λ q i. m.area_out q (ground arith);
        kept =
            here
            ∙ ap (λ z. record (s.area a) { virt_end = z })
                (sym (ap (λ (x : Area). x.virt_end) here));
        head = m.head;
        total = m.total;
        count = λ k e lt. m.count (suc k) (omega arith) (omega arith) ∙ omega arith;
      }

  -- The area takes over the next one, and the merges go on from it.
  take_over-Merged :
      (s s' : Vmm W) (low a : ℕ) (qs qs' : List ℕ) (n : ℕ)
      → has a (s.next a ∷ qs) ≡ false
      → Ordered s.area low (a ∷ s.next a ∷ qs)
      → Fits (s.area a) (s.area (s.next a))
      → Merged (merge_at M off sp a s) s' sp low a qs qs' n
      → Merged s s' sp low a (s.next a ∷ qs) qs' (suc n)
  take_over-Merged s s' low a qs qs' n out o f m =
      let b = s.next a in
      let space = s.spaces sp in
      let x = joint (s.area a) (s.area b) in
      let home = update_self s.spaces sp (record space { area_count = sub64 space.area_count 1 }) in
      let here = update_self s.area a x in
      let out_a : has a qs ≡ false = ground arith in
      record {
        chain = m.chain;
        distinct = m.distinct;
        ordered = m.ordered;
        spans = m.spans ∙ united-reserved s.area a b f low qs out_a o;
        same = λ v. m.same v ∙ united-mapping s.area a b f low qs v out_a o;
        settled = m.settled;
        number = omega (arith, m.number);
        members = λ q i. m.members q (ground arith);
        next_out =
            λ q i. m.next_out q (ground arith) ∙ update_ne s.next a q (s.next b) (ground arith);
        area_out = λ q i. m.area_out q (ground arith) ∙ update_ne s.area a q x (ground arith);
        kept = m.kept ∙ ap (λ (y : Area). record y { virt_end = (s'.area a).virt_end }) here;
        head = m.head ∙ ap (λ (y : Space). y.areas) home;
        total = m.total ∙ ap (λ (y : Space). y.total_size) home;
        count =
            λ k e lt. m.count k (ap (λ (y : Space). y.area_count) home ∙ omega arith) (omega arith);
      }

  merge_loop-Merged :
      (fuel a count low : ℕ) (qs : List ℕ) (s : Vmm W)
      → a ≢ 0
      → Chain s.next (s.next a) qs
      → Distinct (a ∷ qs)
      → Ordered s.area low (a ∷ qs)
      → length qs < fuel
      → (n : ℕ) × (s' : Vmm W) × (qs' : List ℕ) × (merge_loop M off fuel sp a count s
          ≡ some (count + n, s'))
        × Merged s s' sp low a qs qs' n
  unfolding merge_loop
  merge_loop-Merged zero a count low qs s na c d o lt = absurd (omega arith)
  merge_loop-Merged (suc fuel) a count low [] s na c d o lt = (
    0,
    s,
    [],
    rw (ne→== na, eq→== c) (ap (λ z. some (z, s)) (omega arith)),
    nothing-Merged s low a c o,
  )
  merge_loop-Merged (suc fuel) a count low (b ∷ qs) s na (e, nz, c) (out, (out_b, d)) o lt =
      let more : (s.next a == 0) ≡ false = ne→== (λ z. nz (sym e ∙ z)) in
      elim (Bool-cases (can_merge (s.area a) (s.area (s.next a)))) [
        | inl h ↦
            let out' = subst (λ z. has a (z ∷ qs) ≡ false) (sym e) out in
            let o' = subst (λ z. Ordered s.area low (a ∷ z ∷ qs)) (sym e) o in
            let f = can_merge-Fits (s.area a) (s.area (s.next a)) h in
            let out_a : has a qs ≡ false = ground arith in
            let after = s.next (s.next a) in
            let c' =
              subst (λ z. Chain (update s.next a after) z qs) (sym (update_self s.next a after))
                (Chain-update s.next after a after qs out_a
                  (subst (λ z. Chain s.next (s.next z) qs) (sym e) c)) in
            let (n, s', qs', eq, m) =
              merge_loop-Merged fuel a (count + 1) low qs (merge_at M off sp a s) na c' (out_a, d)
                (united-Ordered s.area a (s.next a) f low qs out_a o') (omega arith) in
            (
              suc n,
              s',
              qs',
              rw (ne→== na, more, h) (eq ∙ ap (λ z. some (z, s')) (omega arith)),
              subst (λ z. Merged s s' sp low a (z ∷ qs) qs' (suc n)) e
                  (take_over-Merged s s' low a qs qs' n out' o' f m),
            )
        | inr h ↦
            let (n, s', qs', eq, m) =
              merge_loop-Merged fuel b count ((s.area a).virt_end) qs s nz c (out_b, d) (o.5)
                (omega arith) in
            let apart = ap (λ z. can_merge (s.area a) (s.area z)) (sym e) ∙ h in
            (
              n,
              s',
              b ∷ qs',
              rw (ne→== na, more, h)
                  (subst (λ z. merge_loop M off fuel sp z count s ≡ some (count + n, s')) (sym e)
                    eq),
              onward-Merged s s' low a b qs qs' n e nz out o apart m,
            )
      ]

-- The list has no neighbours left that can be merged.
abbrev pub AllSettled : (ℕ → Area) → List ℕ → Type 0
AllSettled area [] = Unit
AllSettled area (a ∷ ps) = Settled area a ps

-- In a valid space, with fuel for more areas than it has, vmm_merge_regions returns the number of
-- areas by which the list is shorter; the space is valid, every address is mapped as before - with
-- the same flags, types and physical addresses - and no two neighbours are left that can be merged.
pub merge_regions-Joins :
    {W : Type 0} (M : Machine W) (off fuel space : ℕ) (s : Vmm W) (ps : List ℕ)
    → IsValid s (space_of s space) ps
    → length ps < fuel
    → (n : ℕ) × (s' : Vmm W) × (ps' : List ℕ) × (merge_regions M off fuel space s ≡ some (n, s'))
      × IsValid s' (space_of s space) ps'
      × (length ps ≡ n + length ps')
      × ((v : ℕ) → mapping_at s'.area ps' v ≡ mapping_at s.area ps v)
      × AllSettled s'.area ps'
unfolding merge_regions
merge_regions-Joins M off zero space s [] v lt = absurd (omega arith)
merge_regions-Joins M off (suc fuel) space s [] v lt =
    (0, s, [], rw (eq→== v.chain) refl, v, refl, λ w. refl, tt)
merge_regions-Joins M off fuel space s (a ∷ ps) v lt =
    let sp = space_of s space in
    let (e, na, c) = v.chain in
    let (n, s', qs', eq, m) =
      merge_loop-Merged M off sp fuel a 0 0 ps s na c v.distinct v.ordered (omega arith) in
    let room = reserved-lt s.area 0 (a ∷ ps) v.ordered (omega arith) in
    let few = length-le-reserved s.area 0 (a ∷ ps) v.ordered in
    (
      n,
      s',
      a ∷ qs',
      rw e (eq ∙ ap (λ z. some (z, s')) (omega arith)),
      record {
        chain = (m.head ∙ e, na, m.chain);
        distinct = m.distinct;
        ordered = m.ordered;
        count = m.count 1 (v.count ∙ omega arith) (omega arith) ∙ omega arith;
        total = m.total ∙ v.total ∙ sym m.spans;
      },
      omega (arith, m.number),
      m.same,
      m.settled,
    )
