-- ===== src/Vmm/Areas.antt =====
-- The areas of a space of kernel/mm/vmm.c as a list: the invariant of the space, and the search for
-- the area of an address.
use spinix.Base.{
  ℕ, ◌+◌, ◌-◌, ◌%◌, ◌≤◌, ◌<◌, ◌≡◌, ◌⊎◌, refl, sym, ◌∙◌, inl, inr, true, false, Bool-cases, some,
  List, [], ◌∷◌, arith, has, Distinct, length, ◌==◌, ==→eq, u64_mod,
}
use mathlib.Core.Path.{subst}
use mathlib.Core.Bool.{false≢true}
use spinix.Base.Chain.{Chain, Chain-keep}
use spinix.Base.Chain.Search.{first, first-IsFirst, find_node-first}
use spinix.Pmm.{page_size}
use spinix.Vmm.{Area, Vmm, contains, space_of, find_area}

-- Areas of whole pages from `low` on, in ascending order and apart.
abbrev pub Ordered : (ℕ → Area) → ℕ → List ℕ → Type 0
Ordered area low [] = Unit
Ordered area low (a ∷ ps) =
    (low ≤ (area a).virt_start)
    × ((area a).virt_start < (area a).virt_end)
    × ((area a).virt_end < u64_mod)
    × ((area a).virt_start % page_size ≡ 0)
    × ((area a).virt_end % page_size ≡ 0)
    × Ordered area (area a).virt_end ps

-- The bytes that the areas span.
abbrev pub reserved : (ℕ → Area) → List ℕ → ℕ
reserved area [] = 0
reserved area (a ∷ ps) = (area a).virt_end - (area a).virt_start + reserved area ps

pub record IsValid {W : Type 0} (s : Vmm W) (sp : ℕ) (ps : List ℕ) : Type 0 where
  pub chain : Chain s.next (s.spaces sp).areas ps
  pub distinct : Distinct ps
  pub ordered : Ordered s.area 0 ps
  pub count : (s.spaces sp).area_count ≡ length ps
  pub total : (s.spaces sp).total_size ≡ reserved s.area ps

pub Ordered-lower :
    (area : ℕ → Area) (low low' : ℕ) (ps : List ℕ)
    → low' ≤ low
    → Ordered area low ps
    → Ordered area low' ps
Ordered-lower area low low' [] le o = tt
Ordered-lower area low low' (a ∷ ps) le (l, lt, top, sa, ea, o) = (omega arith, lt, top, sa, ea, o)

-- Only the listed areas count.
pub Ordered-keep :
    (area area' : ℕ → Area) (low : ℕ) (ps : List ℕ)
    → ((q : ℕ) → has q ps ≡ true → area' q ≡ area q)
    → Ordered area low ps
    → Ordered area' low ps
Ordered-keep area area' low [] same o = tt
Ordered-keep area area' low (a ∷ ps) same (l, lt, top, sa, ea, o) =
    let rest = Ordered-keep area area' (area a).virt_end ps (λ q i. same q (ground arith)) o in
    subst
      (λ x.
        (low ≤ x.virt_start)
        × (x.virt_start < x.virt_end)
        × (x.virt_end < u64_mod)
        × (x.virt_start % page_size ≡ 0)
        × (x.virt_end % page_size ≡ 0)
        × Ordered area' x.virt_end ps)
      (sym (same a (ground arith))) (l, lt, top, sa, ea, rest)

pub reserved-keep :
    (area area' : ℕ → Area) (ps : List ℕ)
    → ((q : ℕ) → has q ps ≡ true → area' q ≡ area q)
    → reserved area' ps ≡ reserved area ps
reserved-keep area area' [] same = refl
reserved-keep area area' (a ∷ ps) same =
    let rest = reserved-keep area area' ps (λ q i. same q (ground arith)) in
    rw (same a (ground arith)) (omega (arith, rest))

-- Areas that are apart span no more than there is.
pub reserved-lt :
    (area : ℕ → Area) (low : ℕ) (ps : List ℕ)
    → Ordered area low ps
    → low < u64_mod
    → low + reserved area ps < u64_mod
reserved-lt area low [] o lt = omega arith
reserved-lt area low (a ∷ ps) (l, lt', top, sa, ea, o) lt =
    omega (arith, reserved-lt area (area a).virt_end ps o top)

-- A list has no more areas than they span bytes.
pub length-le-reserved :
    (area : ℕ → Area) (low : ℕ) (ps : List ℕ) → Ordered area low ps → length ps ≤ reserved area ps
length-le-reserved area low [] o = omega arith
length-le-reserved area low (a ∷ ps) (l, lt, top, sa, ea, o) =
    omega (arith, length-le-reserved area (area a).virt_end ps o)

pub Ordered-filled :
    (area : ℕ → Area) (low : ℕ) (ps : List ℕ) (q : ℕ)
    → Ordered area low ps
    → has q ps ≡ true
    → (area q).virt_start < (area q).virt_end
Ordered-filled area low [] q o i = absurd (false≢true i)
Ordered-filled area low (a ∷ ps) q (l, lt, top, sa, ea, o) i = elim (Bool-cases (a == q)) [
  | inl e ↦ subst (λ z. (area z).virt_start < (area z).virt_end) (==→eq a q e) lt
  | inr e ↦ Ordered-filled area (area a).virt_end ps q o (ground arith)
]

pub Ordered-top :
    (area : ℕ → Area) (low : ℕ) (ps : List ℕ) (q : ℕ)
    → Ordered area low ps
    → has q ps ≡ true
    → (area q).virt_end < u64_mod
Ordered-top area low [] q o i = absurd (false≢true i)
Ordered-top area low (a ∷ ps) q (l, lt, top, sa, ea, o) i = elim (Bool-cases (a == q)) [
  | inl e ↦ subst (λ z. (area z).virt_end < u64_mod) (==→eq a q e) top
  | inr e ↦ Ordered-top area (area a).virt_end ps q o (ground arith)
]

pub space_of_twice : {W : Type 0} (s : Vmm W) (sp : ℕ) → space_of s (space_of s sp) ≡ space_of s sp
space_of_twice s sp = ground arith

-- What a change elsewhere leaves valid.
pub IsValid-keep :
    {W : Type 0} (s s' : Vmm W) (sp : ℕ) (ps : List ℕ)
    → ((q : ℕ) → has q ps ≡ true → s'.next q ≡ s.next q)
    → ((q : ℕ) → has q ps ≡ true → s'.area q ≡ s.area q)
    → (s'.spaces sp).areas ≡ (s.spaces sp).areas
    → (s'.spaces sp).area_count ≡ (s.spaces sp).area_count
    → (s'.spaces sp).total_size ≡ (s.spaces sp).total_size
    → IsValid s sp ps
    → IsValid s' sp ps
IsValid-keep s s' sp ps next area head count total v = record {
  chain =
      subst (λ h. Chain s'.next h ps) (sym head)
        (Chain-keep s.next s'.next ((s.spaces sp).areas) ps next v.chain);
  distinct = v.distinct;
  ordered = Ordered-keep s.area s'.area 0 ps area v.ordered;
  count = count ∙ v.count;
  total = total ∙ v.total ∙ sym (reserved-keep s.area s'.area ps area);
}

-- An address in a listed area lies behind the bound.
pub contains-low :
    (area : ℕ → Area) (low : ℕ) (ps : List ℕ) (q v : ℕ)
    → Ordered area low ps
    → has q ps ≡ true
    → contains (area q) v ≡ true
    → low ≤ v
contains-low area low [] q v o i h = absurd (false≢true i)
contains-low area low (a ∷ ps) q v (l, lt, top, sa, ea, o) i h = elim (Bool-cases (a == q)) [
  | inl e ↦ let h' = subst (λ z. contains (area z) v ≡ true) (sym (==→eq a q e)) h in ground arith
  | inr e ↦ let later = contains-low area (area a).virt_end ps q v o (ground arith) h in omega arith
]

-- No address lies in two areas.
contains_unique :
    (area : ℕ → Area) (low : ℕ) (ps : List ℕ) (p q v : ℕ)
    → Ordered area low ps
    → has p ps ≡ true
    → has q ps ≡ true
    → contains (area p) v ≡ true
    → contains (area q) v ≡ true
    → p ≡ q
contains_unique area low [] p q v o ip iq hp hq = absurd (false≢true ip)
contains_unique area low (a ∷ ps) p q v (l, lt, top, sa, ea, o) ip iq hp hq =
    elim (Bool-cases (a == p)) [
      | inl e ↦ elim (Bool-cases (a == q)) [
        | inl e' ↦ sym (==→eq a p e) ∙ ==→eq a q e'
        | inr e' ↦
            let later = contains-low area (area a).virt_end ps q v o (ground arith) hq in
            let hp' = subst (λ z. contains (area z) v ≡ true) (sym (==→eq a p e)) hp in
            absurd (ground arith)
      ]
      | inr e ↦ elim (Bool-cases (a == q)) [
        | inl e' ↦
            let later = contains-low area (area a).virt_end ps p v o (ground arith) hp in
            let hq' = subst (λ z. contains (area z) v ≡ true) (sym (==→eq a q e')) hq in
            absurd (ground arith)
        | inr e' ↦
            contains_unique area (area a).virt_end ps p q v o (ground arith) (ground arith) hp hq
      ]
    ]

module _ {W : Type 0} (s : Vmm W) where
  -- The only listed area that holds the address, or 0 where none does.
  abbrev pub Finds : List ℕ → ℕ → ℕ → Type 0
  Finds ps v a =
      ((has a ps ≡ true)
        × (contains (s.area a) v ≡ true)
        × ((q : ℕ) → has q ps ≡ true → contains (s.area q) v ≡ true → q ≡ a))
      ⊎ ((a ≡ 0) × ((q : ℕ) → has q ps ≡ true → contains (s.area q) v ≡ false))

  -- In a valid space, and with fuel for more areas than it has, vmm_find_area returns the area that
  -- holds the address, and no other does; or NULL, and no area of the space holds it.
  pub find_area_lem :
      (fuel sp v : ℕ) (ps : List ℕ)
      → IsValid s (space_of s sp) ps
      → length ps < fuel
      → (a : ℕ) × (find_area fuel sp v s ≡ some a) × Finds ps v a
  unfolding find_area
  find_area_lem fuel sp v ps ok lt =
      let test = λ (a : ℕ). contains (s.area a) v in
      (
        first test ps,
        find_node-first fuel s.next test ((s.spaces (space_of s sp)).areas) ps ok.chain lt,
        elim (first-IsFirst test ps) [
          | inl (i, h) ↦ inl (
            i,
            h,
            λ q iq hq. contains_unique s.area 0 ps q (first test ps) v ok.ordered iq i hq h,
          )
          | inr (z, apart) ↦ inr (z, apart)
        ],
      )
