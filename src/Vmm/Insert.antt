-- ===== src/Vmm/Insert.antt =====
-- `vmm_insert_area` of kernel/mm/vmm.c: a new area joins the list of a space in order.
use spinix.Base.{
  ℕ, zero, suc, ◌+◌, ◌-◌, ◌%◌, ◌≤◌, ◌<◌, ◌≡◌, refl, sym, ap, ◌∙◌, ◌≢◌, inl, inr, ◌||◌, true, false,
  Bool-cases, some, List, [], ◌∷◌, arith, has, has-ne, Distinct, length, ltb, ◌==◌, eq→==, ne→==,
  if◌then◌else◌, ◌>>=◌, u64_mod,
}
use mathlib.Core.Path.{subst}
use spinix.Base.Memory.{update, update_ne, update_self}
use spinix.Base.Chain.{Chain, Chain-update}
use spinix.Pmm.{page_size}
use spinix.Vmm.{Area, Space, Vmm, overlaps, insert_loop, insert_area, insert_front, insert_behind}
use spinix.Vmm.Areas.{Ordered, reserved}

-- The list with `t` before the first area that does not start below `start`.
abbrev pub place : (ℕ → Area) → ℕ → ℕ → List ℕ → List ℕ
place area start t [] = t ∷ []
place area start t (a ∷ ps) =
    if ltb ((area a).virt_start) start then a ∷ place area start t ps else t ∷ a ∷ ps

pub has-place :
    (area : ℕ → Area) (start t q : ℕ) (ps : List ℕ)
    → has q (place area start t ps) ≡ ((q == t) || has q ps)
has-place area start t q [] = refl
has-place area start t q (a ∷ ps) = ground (arith, has-place area start t q ps)

pub place-Distinct :
    (area : ℕ → Area) (start t : ℕ) (ps : List ℕ)
    → has t ps ≡ false
    → Distinct ps
    → Distinct (place area start t ps)
place-Distinct area start t [] out d = (refl, tt)
place-Distinct area start t (a ∷ ps) out (out_a, d) =
    elim (Bool-cases (ltb ((area a).virt_start) start)) [
      | inl e ↦
          rw (e, place)
            (
              has-place area start t a ps ∙ ground arith,
              place-Distinct area start t ps (ground arith) d,
            )
      | inr e ↦ rw (e, place) (out, (out_a, d))
    ]

pub length-place :
    (area : ℕ → Area) (start t : ℕ) (ps : List ℕ) → length (place area start t ps) ≡ suc (length ps)
length-place area start t [] = refl
length-place area start t (a ∷ ps) = ground (arith, length-place area start t ps)

-- The range from `start` to `end` meets none of the areas.
abbrev pub Apart : (ℕ → Area) → ℕ → ℕ → List ℕ → Type 0
Apart area start end ps = (q : ℕ) → has q ps ≡ true → overlaps start end (area q) ≡ false

pub reserved-place :
    (area : ℕ → Area) (start t : ℕ) (ps : List ℕ)
    → reserved area (place area start t ps)
      ≡ (area t).virt_end - (area t).virt_start + reserved area ps
reserved-place area start t [] = refl
reserved-place area start t (a ∷ ps) = elim (Bool-cases (ltb ((area a).virt_start) start)) [
  | inl e ↦ rw (e, place) (omega (arith, reserved-place area start t ps))
  | inr e ↦ rw (e, place) refl
]

-- The new area, of whole pages.
pub record IsFit (x : Area) : Type 0 where
  pub filled : x.virt_start < x.virt_end
  pub below : x.virt_end < u64_mod
  pub start_page : x.virt_start % page_size ≡ 0
  pub end_page : x.virt_end % page_size ≡ 0

pub place-Ordered :
    (area : ℕ → Area) (low t : ℕ) (ps : List ℕ)
    → IsFit (area t)
    → low ≤ (area t).virt_start
    → Apart area (area t).virt_start (area t).virt_end ps
    → Ordered area low ps
    → Ordered area low (place area (area t).virt_start t ps)
place-Ordered area low t [] f le apart o = (le, f.filled, f.below, f.start_page, f.end_page, tt)
place-Ordered area low t (a ∷ ps) f le apart (l, lt, top, sa, ea, o) =
    let clear = apart a (ground arith) in
    let filled = f.filled in
    elim (Bool-cases (ltb ((area a).virt_start) ((area t).virt_start))) [
      | inl e ↦
          rw (e, place)
            (
              l,
              lt,
              top,
              sa,
              ea,
              place-Ordered area ((area a).virt_end) t ps f (ground arith)
                  (λ q i. apart q (ground arith)) o,
            )
      | inr e ↦
          rw (e, place)
            (le, filled, f.below, f.start_page, f.end_page, (ground arith, lt, top, sa, ea, o))
    ]

-- The two writes that put `t` behind `q`.
abbrev pub linked : (ℕ → ℕ) → ℕ → ℕ → ℕ → ℕ
linked next t q = update (update next t (next q)) q t

module _ (next : ℕ → ℕ) (t : ℕ) (nt : t ≢ 0) where
  -- `t` directly behind `p`.
  pub linked-here :
      (p : ℕ) (ps : List ℕ)
      → Chain next (next p) ps
      → has p ps ≡ false
      → t ≢ p
      → has t ps ≡ false
      → Chain (linked next t p) (linked next t p p) (t ∷ ps)
  linked-here p ps c out ne out_t = (
    update_self (update next t (next p)) p t,
    nt,
    subst (λ v. Chain (linked next t p) v ps)
        (sym (update_ne (update next t (next p)) p t t ne ∙ update_self next t (next p)))
        (Chain-update (update next t (next p)) (next p) p t ps out
          (Chain-update next (next p) t (next p) ps out_t c)),
  )

module _ (area : ℕ → Area) (next : ℕ → ℕ) (start t : ℕ) (nt : t ≢ 0) where
  insert_loop-place :
      (fuel p : ℕ) (ps : List ℕ)
      → Chain next (next p) ps
      → Distinct ps
      → has p ps ≡ false
      → t ≢ p
      → has t ps ≡ false
      → length ps < fuel
      → (q : ℕ) × (insert_loop fuel area next start p ≡ some q)
        × (has q (p ∷ ps) ≡ true)
        × Chain (linked next t q) (linked next t q p) (place area start t ps)
  unfolding insert_loop
  insert_loop-place zero p ps c d out ne out_t lt = absurd (omega arith)
  insert_loop-place (suc fuel) p [] c d out ne out_t lt =
      (p, rw (eq→== c), ground arith, linked-here next t nt p [] c refl ne refl)
  insert_loop-place (suc fuel) p (a ∷ ps) (e, nz, c) (out_a, d) out ne out_t lt =
      elim (Bool-cases (ltb ((area a).virt_start) start)) [
        | inl h ↦
            let (q, found, i, c') =
              insert_loop-place fuel a ps c d out_a (ground arith) (ground arith) (omega arith) in
            let apart : p ≢ q = λ z. has-ne (a ∷ ps) q p i out (sym z) in
            (
              q,
              rw e (rw (ne→== nz, h) found),
              ground arith,
              rw (h, place)
                  (
                    update_ne (update next t (next q)) q p t apart
                        ∙ update_ne next t p (next q) (λ z. ne (sym z))
                        ∙ e,
                    nz,
                    c',
                  ),
            )
        | inr h ↦ (
          p,
          rw e (rw (ne→== nz, h) refl),
          ground arith,
          rw (h, place) (linked-here next t nt p (a ∷ ps) (e, nz, c) out ne out_t),
        )
      ]

module _ {W : Type 0} (s : Vmm W) (sp t : ℕ) (ps : List ℕ) where
  -- The list with the new area.
  abbrev pub joined : List ℕ
  joined = place s.area ((s.area t).virt_start) t ps

  -- The space links to the longer list, and nothing else has changed.
  pub record Inserted (s' : Vmm W) : Type 0 where
    pub chain : Chain s'.next (s'.spaces sp).areas joined
    pub area : s'.area ≡ s.area
    pub machine : s'.machine ≡ s.machine
    pub kernel : s'.kernel ≡ s.kernel
    pub stats : s'.stats ≡ s.stats
    pub space : s'.spaces sp ≡ record (s.spaces sp) { areas = (s'.spaces sp).areas }
    pub others : (q : ℕ) → q ≢ sp → s'.spaces q ≡ s.spaces q
    pub links : (q : ℕ) → has q (t ∷ ps) ≡ false → s'.next q ≡ s.next q

  front-Inserted :
      Chain s.next (s.spaces sp).areas ps
      → t ≢ 0
      → has t ps ≡ false
      → joined ≡ t ∷ ps
      → Inserted (insert_front sp t s)
  front-Inserted c nt out e =
      let head = (s.spaces sp).areas in
      let new = update s.next t head in
      let x = record (s.spaces sp) { areas = t } in
      let at = update_self s.spaces sp x in
      record {
        chain =
            subst (λ (y : Space). Chain new y.areas joined) (sym at)
              (subst (Chain new t) (sym e) (
                refl,
                nt,
                subst (λ v. Chain new v ps) (sym (update_self s.next t head))
                    (Chain-update s.next head t head ps out c),
              ));
        area = refl;
        machine = refl;
        kernel = refl;
        stats = refl;
        space =
            at
            ∙ ap (λ v. record (s.spaces sp) { areas = v }) (sym (ap (λ (y : Space). y.areas) at));
        others = λ q ne. update_ne s.spaces sp q x ne;
        links = λ q o. update_ne s.next t q head (ground arith);
      }

  behind-Inserted :
      (q : ℕ)
      → has q ps ≡ true
      → has t ps ≡ false
      → Chain (update (update s.next t (s.next q)) q t) (s.spaces sp).areas joined
      → Inserted (insert_behind q t s)
  behind-Inserted q i out c = record {
    chain = c;
    area = refl;
    machine = refl;
    kernel = refl;
    stats = refl;
    space = refl;
    others = λ r ne. refl;
    links = λ r o.
        update_ne (update s.next t (s.next q)) q r t (λ z. has-ne ps q r i (ground arith) (sym z))
        ∙ update_ne s.next t r (s.next q) (ground arith);
  }

-- With fuel for more areas than the space has, vmm_insert_area of an area that meets none of them
-- puts it in order.
pub insert_area-Inserted :
    {W : Type 0} (s : Vmm W) (sp t : ℕ) (ps : List ℕ) (fuel : ℕ)
    → Chain s.next (s.spaces sp).areas ps
    → Distinct ps
    → t ≢ 0
    → has t ps ≡ false
    → (s.area t).virt_start < (s.area t).virt_end
    → ((q : ℕ) → has q ps ≡ true → (s.area q).virt_start < (s.area q).virt_end)
    → Apart s.area (s.area t).virt_start (s.area t).virt_end ps
    → length ps < fuel
    → (s' : Vmm W) × (insert_area fuel sp t s ≡ some s') × Inserted s sp t ps s'
unfolding insert_area
insert_area-Inserted s sp t [] fuel c d nt out f fs apart lt =
    (insert_front sp t s, rw (eq→== c) refl, front-Inserted s sp t [] c nt out refl)
insert_area-Inserted s sp t (a ∷ ps) fuel (e, nz, c) (out_a, d) nt out f fs apart lt =
    let clear = apart a (ground arith) in
    let filled = fs a (ground arith) in
    elim (Bool-cases (ltb ((s.area t).virt_start) ((s.area a).virt_start))) [
      | inl h ↦
          let later : ltb ((s.area a).virt_start) ((s.area t).virt_start) ≡ false = ground arith in
          (
            insert_front sp t s,
            rw e (rw (ne→== nz, h) refl),
            front-Inserted s sp t (a ∷ ps) (e, nz, c) nt out (rw (later, place) refl),
          )
      | inr h ↦
          let earlier : ltb ((s.area a).virt_start) ((s.area t).virt_start) ≡ true = ground arith in
          let (q, found, i, c') =
            insert_loop-place s.area s.next ((s.area t).virt_start) t nt fuel a ps c d out_a
              (ground arith) (ground arith) (omega arith) in
          (
            insert_behind q t s,
            rw e (rw (ne→== nz, h) (rw (found, ◌>>=◌) refl)),
            behind-Inserted s sp t (a ∷ ps) q i out (rw (earlier, place) (e, nz, c')),
          )
    ]

-- The call returns for any new area that is on no list; the areas' fields are as before.
pub insert_area-returns :
    {W : Type 0} (s : Vmm W) (sp t : ℕ) (ps : List ℕ) (fuel : ℕ)
    → Chain s.next (s.spaces sp).areas ps
    → Distinct ps
    → t ≢ 0
    → has t ps ≡ false
    → length ps < fuel
    → (s' : Vmm W) × (insert_area fuel sp t s ≡ some s') × (s'.area ≡ s.area)
unfolding insert_area
insert_area-returns s sp t [] fuel c d nt out lt = (insert_front sp t s, rw (eq→== c) refl, refl)
insert_area-returns s sp t (a ∷ ps) fuel (e, nz, c) (out_a, d) nt out lt =
    elim (Bool-cases (ltb ((s.area t).virt_start) ((s.area a).virt_start))) [
      | inl h ↦ (insert_front sp t s, rw e (rw (ne→== nz, h) refl), refl)
      | inr h ↦
          let (q, found, i, c') =
            insert_loop-place s.area s.next ((s.area t).virt_start) t nt fuel a ps c d out_a
              (ground arith) (ground arith) (omega arith) in
          (insert_behind q t s, rw e (rw (ne→== nz, h) (rw (found, ◌>>=◌) refl)), refl)
    ]
