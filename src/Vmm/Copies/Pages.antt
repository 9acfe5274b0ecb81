-- ===== src/Vmm/Copies/Pages.antt =====
-- `vmm_fork_space` of kernel/mm/vmm.c: one area and its pages.
use spinix.Base.{
  ℕ, zero, suc, ◌<◌, ◌+◌, ◌-◌, ◌*◌, ◌/◌, ◌||◌, if◌then◌else◌, ◌≡◌, refl, sym, ap, ◌∙◌, ◌≢◌, inl,
  inr, true, false, Bool-cases, some, List, [], ◌∷◌, ◌++◌, arith, has, has-ne, length, ◌==◌, ◌>>=◌,
  add64, sub64,
}
use mathlib.Core.Path.{subst}
use spinix.Base.Int.{is_zero}
use spinix.Base.Memory.{update, update_ne, update_self}
use spinix.Pmm.{page_size, phys_to_virt}
use spinix.Vmm.{anon, phys_mapping, Area, Space, Machine, Vmm, flags_to_mmu}
use spinix.Vmm.Regions.{rounds, count_region}
use spinix.Vmm.Fork.{count_copy, share_pages, copy_pages, copy_area}
use spinix.Vmm.Areas.{Ordered-filled, IsValid, IsValid-keep}
use spinix.Vmm.Gaps.{EndBy}
use spinix.Vmm.Insert.{place, Apart, IsFit, insert_area-Inserted}
use spinix.Vmm.Map.{counted-IsValid}
use spinix.Vmm.Copies.{
  EndBy-keep, EndBy-Apart, place-last, count_copy-others, count_copy-ctx, Copied,
}

-- What the frames and the page tables promise where memory suffices: `Holds w ctxs held n` says that
-- `ctxs` are live contexts, that memory holds the structures `held`, and that `n` more frames are
-- there. A context takes two frames, and each page that is mapped at most three, for the tables
-- above its entry.
pub record Ample {W : Type 0} (M : Machine W) (off : ℕ) (Holds : W → List ℕ → List ℕ → ℕ → Type 0)
    : Type 0 where
  pub alloc_page :
      (w : W) (ctxs held : List ℕ) (n : ℕ)
      → Holds w ctxs held (1 + n)
      → ((M.alloc_page w).0 ≢ 0)
        × (phys_to_virt off (M.alloc_page w).0 ≢ 0)
        × (has (phys_to_virt off (M.alloc_page w).0) held ≡ false)
        × Holds (M.alloc_page w).1 ctxs (phys_to_virt off (M.alloc_page w).0 ∷ held) n
  pub create_context :
      (w : W) (ctxs held : List ℕ) (n : ℕ)
      → Holds w ctxs held (2 + n)
      → ((M.create_context w).0 ≢ 0)
        × Holds (M.create_context w).1 ((M.create_context w).0 ∷ ctxs) held n
  pub copy_range :
      (to from virt size : ℕ) (w : W) (ctxs held : List ℕ) (n : ℕ)
      → has to ctxs ≡ true
      → has from ctxs ≡ true
      → Holds w ctxs held (3 * ((size + (page_size - 1)) / page_size) + n)
      → (is_zero (M.copy_range to from virt size w).0 ≡ true)
        × Holds (M.copy_range to from virt size w).1 ctxs held n
  pub map_page :
      (ctx virt phys flags : ℕ) (w : W) (ctxs held : List ℕ) (n : ℕ)
      → has ctx ctxs ≡ true
      → Holds w ctxs held (3 + n)
      → Holds (M.map_page ctx virt phys flags w).1 ctxs held n

-- The frames that suffice for the tables of an area's pages.
abbrev pub table_frames : Area → ℕ
table_frames x =
    if (x.type == anon) || (x.type == phys_mapping) then 3 * rounds x.virt_start x.virt_end else 0

-- The frames for copies of the areas, each with its structure.
abbrev pub copy_frames : (ℕ → Area) → List ℕ → ℕ
copy_frames area [] = 0
copy_frames area (a ∷ ps) = 1 + (table_frames (area a) + copy_frames area ps)

pub copy_frames-keep :
    (area area' : ℕ → Area) (ps : List ℕ)
    → ((q : ℕ) → has q ps ≡ true → area' q ≡ area q)
    → copy_frames area' ps ≡ copy_frames area ps
copy_frames-keep area area' [] same = refl
copy_frames-keep area area' (a ∷ ps) same =
    rw (same a (ground arith), copy_frames-keep area area' ps (λ q i. same q (ground arith))) refl

module _ {W : Type 0} (M : Machine W) (off : ℕ) (Holds : W → List ℕ → List ℕ → ℕ → Type 0)
    (ample : Ample M off Holds) (ctxs : List ℕ) where
  share_pages-Holds :
      (k ctx virt phys flags : ℕ) (w : W) (held : List ℕ) (n : ℕ)
      → has ctx ctxs ≡ true
      → Holds w ctxs held (3 * k + n)
      → Holds (share_pages M k ctx virt phys flags w) ctxs held n
  unfolding share_pages
  share_pages-Holds zero ctx virt phys flags w held n live h =
      subst (Holds w ctxs held) (omega arith) h
  share_pages-Holds (suc k) ctx virt phys flags w held n live h =
      let split : 3 * suc k + n ≡ 3 + (3 * k + n) = omega arith in
      share_pages-Holds k ctx (add64 virt page_size) (add64 phys page_size) flags
        ((M.map_page ctx virt phys flags w).1) held n live
        (ample.map_page ctx virt phys flags w ctxs held (3 * k + n) live
          (subst (Holds w ctxs held) split h))

  copy_pages-Holds :
      (to from : ℕ) (x : Area) (w : W) (held : List ℕ) (n : ℕ)
      → has to ctxs ≡ true
      → has from ctxs ≡ true
      → IsFit x
      → Holds w ctxs held (table_frames x + n)
      → ((copy_pages M to from x w).0 ≡ true) × Holds (copy_pages M to from x w).1 ctxs held n
  copy_pages-Holds to from x w held n live_to live_from f h = elim (Bool-cases (x.type == anon)) [
    | inl e ↦
        let size = sub64 x.virt_end x.virt_start in
        let filled = f.filled in
        let below = f.below in
        let whole : size ≡ x.virt_end - x.virt_start = ground arith in
        let cost : table_frames x + n ≡ 3 * ((size + (page_size - 1)) / page_size) + n =
          rw (e, whole) refl in
        rw e (
          ample.copy_range to from x.virt_start size w ctxs held n live_to live_from
            (subst (Holds w ctxs held) cost h))
    | inr e ↦ elim (Bool-cases (x.type == phys_mapping)) [
      | inl e' ↦
          let cost : table_frames x + n ≡ 3 * rounds x.virt_start x.virt_end + n =
            rw (e, e') refl in
          rw (e, e')
            (
              refl,
              share_pages-Holds (rounds x.virt_start x.virt_end) to x.virt_start x.phys_base
                  (flags_to_mmu x.flags) w held n live_to (subst (Holds w ctxs held) cost h),
            )
      | inr e' ↦
          let cost : table_frames x + n ≡ n = rw (e, e') (omega arith) in
          rw (e, e') (refl, subst (Holds w ctxs held) cost h)
    ]
  ]

  pub copy_area-Copied :
      (fuel child parent p c n : ℕ) (cs held : List ℕ) (s : Vmm W)
      → IsValid s child cs
      → c ≢ 0
      → has c cs ≡ false
      → IsFit (s.area p)
      → EndBy s.area (s.area p).virt_start cs
      → length cs < fuel
      → parent ≢ child
      → has (s.spaces child).mmu_ctx ctxs ≡ true
      → has (s.spaces parent).mmu_ctx ctxs ≡ true
      → Holds s.machine ctxs held (table_frames (s.area p) + n)
      → (s' : Vmm W) × (copy_area M fuel child parent p c s ≡ some (true, s'))
        × Copied s child p c cs s'
        × Holds s'.machine ctxs held n
  unfolding copy_area
  copy_area-Copied fuel child parent p c n cs held s v nc out f ends lt ne live_child live_parent
        h =
      let x = s.area p in
      let s1 = record s { area = update s.area c x; next = update s.next c 0 } in
      let own : s1.area c ≡ x = update_self s.area c x in
      let same : (q : ℕ) → has q cs ≡ true → s1.area q ≡ s.area q =
        (λ q i. update_ne s.area c q x (has-ne cs q c i out)) in
      let v1 : IsValid s1 child cs =
        IsValid-keep s s1 child cs (λ q i. update_ne s.next c q 0 (has-ne cs q c i out)) same refl
          refl refl v in
      let ends1 = EndBy-keep s.area s1.area x.virt_start x.virt_start cs same (omega arith) ends in
      let clear : Apart s1.area (s1.area c).virt_start (s1.area c).virt_end cs =
        subst (λ (y : Area). Apart s1.area y.virt_start y.virt_end cs) (sym own)
          (EndBy-Apart s1.area x.virt_start x.virt_start x.virt_end cs ends1 (omega arith)) in
      let (s2, eq, ins) =
        insert_area-Inserted s1 child c cs fuel v1.chain v.distinct nc out
          (subst (λ (y : Area). y.virt_start < y.virt_end) (sym own) f.filled)
          (λ q i. Ordered-filled s1.area 0 cs q v1.ordered i) clear lt in
      let to = (s2.spaces child).mmu_ctx in
      let from = (s2.spaces parent).mmu_ctx in
      let to_same : to ≡ (s.spaces child).mmu_ctx = ap (λ (y : Space). y.mmu_ctx) ins.space in
      let from_same : from ≡ (s.spaces parent).mmu_ctx =
        ap (λ (y : Space). y.mmu_ctx) (ins.others parent ne) in
      let (ok, h') =
        copy_pages-Holds to from x s2.machine held n
          (subst (λ c. has c ctxs ≡ true) (sym to_same) live_child)
          (subst (λ c. has c ctxs ≡ true) (sym from_same) live_parent) f
          (subst (λ w. Holds w ctxs held (table_frames x + n)) (sym ins.machine) h) in
      let s' = count_copy child x (record s2 { machine = (copy_pages M to from x s2.machine).1 }) in
      let counted =
        subst
          (λ (y : Area).
            IsValid (count_region child (sub64 y.virt_end y.virt_start) s2) child
              (place s1.area y.virt_start c cs))
          own (counted-IsValid s1 s2 child c cs v1 out (subst IsFit (sym own) f) clear ins) in
      (
        s',
        rw (eq, ◌>>=◌) (rw ok refl),
        record {
          valid =
              IsValid-keep (count_region child (sub64 x.virt_end x.virt_start) s2) s' child
                (cs ++ c ∷ []) (λ q i. refl) (λ q i. refl) refl refl refl
                (subst (IsValid (count_region child (sub64 x.virt_end x.virt_start) s2) child)
                  (place-last s1.area 0 x.virt_start x.virt_start c cs v1.ordered ends1
                    (omega arith))
                  counted);
          new = ap (λ (g : ℕ → Area). g c) ins.area ∙ own;
          old = λ q ne. ap (λ (g : ℕ → Area). g q) ins.area ∙ update_ne s.area c q x ne;
          links = λ q o. ins.links q o ∙ update_ne s.next c q 0 (ground arith);
          ctx =
              count_copy-ctx child x (record s2 { machine = (copy_pages M to from x s2.machine).1 })
              ∙ to_same;
          spaces = λ q ne.
              count_copy-others child x
                (record s2 { machine = (copy_pages M to from x s2.machine).1 }) q ne
              ∙ ins.others q ne;
        },
        h',
      )
