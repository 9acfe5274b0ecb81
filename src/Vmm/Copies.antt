-- ===== src/Vmm/Copies.antt =====
-- The lists of a space and of its copy in `vmm_fork_space` of kernel/mm/vmm.c.
pub mod Pages
pub mod Forks
use spinix.Base.{
  ℕ, zero, suc, ◌+◌, ◌≤◌, ◌<◌, ◌≡◌, refl, sym, ap, ◌∙◌, ◌≢◌, inl, inr, ◌||◌, Bool, true, false,
  Bool-cases, Option, none, some, List, [], ◌∷◌, ◌++◌, arith, has, has-ne, has-append, Distinct,
  length, length-append, ltb, ◌==◌, eq→==, ne→==, ==→eq, if◌then◌else◌, ◌>>=◌, add64, sub64,
}
use mathlib.Core.Path.{subst}
use mathlib.Core.Bool.{false≢true}
use spinix.Base.Int.{ℤ, pos, is_zero}
use spinix.Base.Memory.{update, update_ne, update_self}
use spinix.Base.Chain.{Chain, Chain-keep, Chain-nonzero, Chain-update}
use spinix.Pmm.{page_size, phys_to_virt}
use spinix.Vmm.{
  anon, phys_mapping, Area, Space, Machine, Vmm, contains, overlaps, flags_to_mmu, insert_area,
  set_space,
}
use spinix.Vmm.Regions.{rounds, create_space, fresh_space, count_region}
use spinix.Vmm.Fork.{count_copy, share_pages, copy_pages, copy_area, copy_areas, fork_space}
use spinix.Vmm.Areas.{Ordered, Ordered-keep, Ordered-filled, IsValid, IsValid-keep}
use spinix.Vmm.Gaps.{EndBy}
use spinix.Vmm.Insert.{place, Apart, IsFit, Inserted, insert_area-Inserted}
use spinix.Vmm.Map.{counted-IsValid}
use spinix.Vmm.Halves.{mapping, mapping_at, mapping_at-keep}

abbrev pub first_of {ℓ} : {A : Type ℓ} → Option A → Option A → Option A
first_of none o = o
first_of (some a) o = some a

mapping_at-append :
    (area : ℕ → Area) (xs ys : List ℕ) (v : ℕ)
    → mapping_at area (xs ++ ys) v ≡ first_of (mapping_at area xs v) (mapping_at area ys v)
mapping_at-append area [] ys v = refl
mapping_at-append area (x ∷ xs) ys v = elim (Bool-cases (contains (area x) v)) [
  | inl e ↦ rw e refl
  | inr e ↦ rw e (mapping_at-append area xs ys v)
]

first_of_assoc {ℓ} :
    {A : Type ℓ} (x y z : Option A) → first_of (first_of x y) z ≡ first_of x (first_of y z)
first_of_assoc none y z = refl
first_of_assoc (some a) y z = refl

pub first_of-none {ℓ} : {A : Type ℓ} (x : Option A) → first_of x none ≡ x
first_of-none none = refl
first_of-none (some a) = refl

-- An area behind all others joins at the end.
pub place-last :
    (area : ℕ → Area) (low bound start t : ℕ) (ps : List ℕ)
    → Ordered area low ps
    → EndBy area bound ps
    → bound ≤ start
    → place area start t ps ≡ ps ++ t ∷ []
place-last area low bound start t [] o ends le = refl
place-last area low bound start t (a ∷ ps) (l, lt, top, sa, ea, o) (by_a, ends) le =
    let before : ltb ((area a).virt_start) start ≡ true = ground arith in
    rw (before, place)
      (ap (λ l. a ∷ l) (place-last area ((area a).virt_end) bound start t ps o ends le))

EndBy-last :
    (area area' : ℕ → Area) (bound bound' t : ℕ) (ps : List ℕ)
    → ((q : ℕ) → has q ps ≡ true → area' q ≡ area q)
    → bound ≤ bound'
    → (area' t).virt_end ≤ bound'
    → EndBy area bound ps
    → EndBy area' bound' (ps ++ t ∷ [])
EndBy-last area area' bound bound' t [] same le last ends = (last, tt)
EndBy-last area area' bound bound' t (a ∷ ps) same le last (by_a, ends) = (
  subst (λ (x : Area). x.virt_end ≤ bound') (sym (same a (ground arith))) (omega arith),
  EndBy-last area area' bound bound' t ps (λ q i. same q (ground arith)) le last ends,
)

pub EndBy-keep :
    (area area' : ℕ → Area) (bound bound' : ℕ) (ps : List ℕ)
    → ((q : ℕ) → has q ps ≡ true → area' q ≡ area q)
    → bound ≤ bound'
    → EndBy area bound ps
    → EndBy area' bound' ps
EndBy-keep area area' bound bound' [] same le ends = tt
EndBy-keep area area' bound bound' (a ∷ ps) same le (by_a, ends) = (
  subst (λ (x : Area). x.virt_end ≤ bound') (sym (same a (ground arith))) (omega arith),
  EndBy-keep area area' bound bound' ps (λ q i. same q (ground arith)) le ends,
)

pub EndBy-Apart :
    (area : ℕ → Area) (bound start end : ℕ) (ps : List ℕ)
    → EndBy area bound ps
    → bound ≤ start
    → Apart area start end ps
EndBy-Apart area bound start end [] ends le q i = absurd (false≢true i)
EndBy-Apart area bound start end (a ∷ ps) (by_a, ends) le q i = elim (Bool-cases (a == q)) [
  | inl e ↦ subst (λ z. overlaps start end (area z) ≡ false) (==→eq a q e) (ground arith)
  | inr e ↦ EndBy-Apart area bound start end ps ends le q (ground arith)
]

pub count_copy-others :
    {W : Type 0} (child : ℕ) (x : Area) (s : Vmm W) (q : ℕ)
    → q ≢ child
    → (count_copy child x s).spaces q ≡ s.spaces q
count_copy-others child x s q ne =
    update_ne s.spaces child q
      (record (s.spaces child) {
        total_size = add64 (s.spaces child).total_size (sub64 x.virt_end x.virt_start);
        area_count = add64 (s.spaces child).area_count 1;
      })
      ne

pub count_copy-ctx :
    {W : Type 0} (child : ℕ) (x : Area) (s : Vmm W)
    → ((count_copy child x s).spaces child).mmu_ctx ≡ (s.spaces child).mmu_ctx
count_copy-ctx child x s =
    ap (λ (y : Space). y.mmu_ctx)
      (update_self s.spaces child (record (s.spaces child) {
        total_size = add64 (s.spaces child).total_size (sub64 x.virt_end x.virt_start);
        area_count = add64 (s.spaces child).area_count 1;
      }))

has-other : (c q : ℕ) (cs : List ℕ) → q ≢ c → has q cs ≡ false → has q (c ∷ cs) ≡ false
has-other c q cs ne n = let other : (c == q) ≡ false = ne→== (λ e. ne (sym e)) in ground arith

-- The structure at `c` is a copy of the parent's area `p`, at the end of the child's list.
pub record Copied {W : Type 0} (s : Vmm W) (child p c : ℕ) (cs : List ℕ) (s' : Vmm W) : Type 0 where
  pub valid : IsValid s' child (cs ++ c ∷ [])
  pub new : s'.area c ≡ s.area p
  pub old : (q : ℕ) → q ≢ c → s'.area q ≡ s.area q
  pub links : (q : ℕ) → has q (c ∷ cs) ≡ false → s'.next q ≡ s.next q
  pub ctx : (s'.spaces child).mmu_ctx ≡ (s.spaces child).mmu_ctx
  pub spaces : (q : ℕ) → q ≢ child → s'.spaces q ≡ s.spaces q

-- The loop's result: the child maps the addresses of `cs` as before, and those of `qs` as the parent
-- does.
pub record Continued {W : Type 0} (s : Vmm W) (child : ℕ) (cs qs held : List ℕ) (cs' : List ℕ)
    (s' : Vmm W) : Type 0 where
  pub valid : IsValid s' child cs'
  pub maps :
      (v : ℕ)
      → mapping_at s'.area cs' v ≡ first_of (mapping_at s.area cs v) (mapping_at s.area qs v)
  pub area : (q : ℕ) → has q held ≡ true → s'.area q ≡ s.area q
  pub links : (q : ℕ) → has q held ≡ true → has q cs ≡ false → s'.next q ≡ s.next q
  pub spaces : (q : ℕ) → q ≢ child → s'.spaces q ≡ s.spaces q

-- The parent's areas `qs`, from `p` on, are left to copy behind the child's areas `cs`.
pub record Pending {W : Type 0} (s : Vmm W) (child p low : ℕ) (cs qs held : List ℕ) : Type 0 where
  pub valid : IsValid s child cs
  pub chain : Chain s.next p qs
  pub ordered : Ordered s.area low qs
  pub ends : EndBy s.area low cs
  pub copies_held : (q : ℕ) → has q cs ≡ true → has q held ≡ true
  pub left_held : (q : ℕ) → has q qs ≡ true → has q held ≡ true
  pub apart : (q : ℕ) → has q qs ≡ true → has q cs ≡ false

has-last :
    (c q : ℕ) (cs held : List ℕ)
    → ((q : ℕ) → has q cs ≡ true → has q held ≡ true)
    → has q (cs ++ c ∷ []) ≡ true
    → has q (c ∷ held) ≡ true
has-last c q cs held sub i =
    let split = has-append q cs (c ∷ []) in
    elim (Bool-cases (has q cs)) [
      | inl e ↦ let j = sub q e in ground arith
      | inr e ↦ ground (arith, split)
    ]

has-held :
    (c q : ℕ) (cs qs held : List ℕ)
    → has c held ≡ false
    → has q held ≡ true
    → has q cs ≡ false
    → has q (cs ++ c ∷ []) ≡ false
has-held c q cs qs held out i n =
    let other = has-other c q cs (has-ne held q c i out) n in
    has-append q cs (c ∷ []) ∙ ground arith

module _ {W : Type 0} (s s2 : Vmm W) (child p low a c : ℕ) (cs qs held : List ℕ)
    (pending : Pending s child p low cs (a ∷ qs) held) (copied : Copied s child a c cs s2)
    (out : has c held ≡ false) where
  copied-area : (q : ℕ) → has q held ≡ true → s2.area q ≡ s.area q
  copied-area q i = copied.old q (has-ne held q c i out)

  copied-next : (q : ℕ) → has q held ≡ true → has q cs ≡ false → s2.next q ≡ s.next q
  copied-next q i n = copied.links q (has-other c q cs (has-ne held q c i out) n)

  pub copied-Pending : Pending s2 child (s2.next a) (s.area a).virt_end (cs ++ c ∷ []) qs (c ∷ held)
  copied-Pending =
      let (e, na, ch) = pending.chain in
      let (l, le, top, sa, ea, o) = pending.ordered in
      let first_held : has a held ≡ true = pending.left_held a (ground arith) in
      let later : (q : ℕ) → has q qs ≡ true → has q (a ∷ qs) ≡ true = (λ q i. ground arith) in
      let left : (q : ℕ) → has q qs ≡ true → has q held ≡ true =
        (λ q i. pending.left_held q (later q i)) in
      record {
        valid = copied.valid;
        chain =
            subst (λ h. Chain s2.next h qs)
              (sym (copied-next a first_held (pending.apart a (ground arith))))
              (Chain-keep s.next s2.next (s.next a) qs
                (λ q i. copied-next q (left q i) (pending.apart q (later q i))) ch);
        ordered =
            Ordered-keep s.area s2.area ((s.area a).virt_end) qs (λ q i. copied-area q (left q i))
              o;
        ends =
            EndBy-last s.area s2.area low ((s.area a).virt_end) c cs
              (λ q i. copied-area q (pending.copies_held q i)) (omega arith)
              (subst (λ (x : Area). x.virt_end ≤ (s.area a).virt_end) (sym copied.new)
                (omega arith))
              pending.ends;
        copies_held = λ q i. has-last c q cs held pending.copies_held i;
        left_held = λ q i. let j = left q i in ground arith;
        apart = λ q i. has-held c q cs qs held out (left q i) (pending.apart q (later q i));
      }

  pub copied-Continued :
      (cs' : List ℕ) (s' : Vmm W)
      → Continued s2 child (cs ++ c ∷ []) qs (c ∷ held) cs' s'
      → Continued s child cs (a ∷ qs) held cs' s'
  copied-Continued cs' s' more =
      let held_more : (q : ℕ) → has q held ≡ true → has q (c ∷ held) ≡ true =
        (λ q i. ground arith) in
      let left : (q : ℕ) → has q qs ≡ true → has q held ≡ true =
        (λ q i. pending.left_held q (ground arith)) in
      record {
        valid = more.valid;
        maps = λ v.
            more.maps v
            ∙ ap (λ x. first_of x (mapping_at s2.area qs v))
                (mapping_at-append s2.area cs (c ∷ []) v)
            ∙ first_of_assoc (mapping_at s2.area cs v) (mapping_at s2.area (c ∷ []) v)
                (mapping_at s2.area qs v)
            ∙ rw
                (
                  mapping_at-keep s.area s2.area cs v
                      (λ q i. copied-area q (pending.copies_held q i)),
                  mapping_at-keep s.area s2.area qs v (λ q i. copied-area q (left q i)),
                  copied.new,
                )
                (ap (λ x. first_of (mapping_at s.area cs v) x)
                  (sym (mapping_at-append s.area (a ∷ []) qs v)));
        area = λ q i. more.area q (held_more q i) ∙ copied-area q i;
        links = λ q i n.
            more.links q (held_more q i) (has-held c q cs qs held out i n) ∙ copied-next q i n;
        spaces = λ q ne. more.spaces q ne ∙ copied.spaces q ne;
      }
