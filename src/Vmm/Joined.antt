-- ===== src/Vmm/Joined.antt =====
-- `vmm_merge_regions` of kernel/mm/vmm.c: one merge, on the list of the space.
pub mod Regions
use spinix.Base.{
  ℕ, suc, ◌+◌, ◌-◌, ◌≤◌, ◌<◌, ◌≡◌, refl, sym, ap, ◌∙◌, ◌≢◌, inl, inr, ◌&&◌, ◌||◌, Bool, true, false,
  not, Bool-cases, Option, List, [], ◌∷◌, arith, has, has-ne, Distinct, length, leb, ltb, ◌==◌,
  if◌then◌else◌, u64_mod, add64, sub64,
}
use mathlib.Core.Path.{subst}
use spinix.Base.Memory.{update, update_ne, update_self}
use spinix.Base.Chain.{Chain, Chain-update}
use spinix.Vmm.{phys_mapping, Area, Space, Vmm, can_merge, contains}
use spinix.Vmm.Split.{merge_at}
use spinix.Vmm.Areas.{Ordered, Ordered-keep, reserved, reserved-keep}
use spinix.Vmm.Halves.{mapping_at, mapping_at-keep, phys_halves}

-- Two areas that `vmm_can_merge_areas` accepts.
pub record Fits (x y : Area) : Type 0 where
  pub meet : x.virt_end ≡ y.virt_start
  pub flags : x.flags ≡ y.flags
  pub type : x.type ≡ y.type
  pub alloc_flags : x.alloc_flags ≡ y.alloc_flags
  pub phys :
      (x.type == phys_mapping) ≡ true
      → add64 x.phys_base (sub64 x.virt_end x.virt_start) ≡ y.phys_base

pub can_merge-Fits : (x y : Area) → can_merge x y ≡ true → Fits x y
unfolding can_merge
can_merge-Fits x y h = record {
  meet = ground arith;
  flags = ground arith;
  type = ground arith;
  alloc_flags = ground arith;
  phys = λ e. ground arith;
}

-- The end of the second area plays no part.
pub can_merge-end :
    (x y : Area) (end : ℕ) → can_merge x (record y { virt_end = end }) ≡ can_merge x y
unfolding can_merge
can_merge-end x y end = refl

-- The area that takes over the next one.
abbrev pub joint : Area → Area → Area
joint x y = record x { virt_end = y.virt_end }

-- No two neighbours of the list, from `a` on, can be merged.
abbrev pub Settled : (ℕ → Area) → ℕ → List ℕ → Type 0
Settled area a [] = Unit
Settled area a (b ∷ ps) = (can_merge (area a) (area b) ≡ false) × Settled area b ps

module _ (area : ℕ → Area) (a b : ℕ) (f : Fits (area a) (area b)) where
  abbrev pub united : ℕ → Area
  united = update area a (joint (area a) (area b))

  pub united-keep : (ps : List ℕ) → has a ps ≡ false → (q : ℕ) → has q ps ≡ true → united q ≡ area q
  united-keep ps out q i = update_ne area a q (joint (area a) (area b)) (has-ne ps q a i out)

  united-here : united a ≡ joint (area a) (area b)
  united-here = update_self area a (joint (area a) (area b))

  pub united-Ordered :
      (low : ℕ) (ps : List ℕ)
      → has a ps ≡ false
      → Ordered area low (a ∷ b ∷ ps)
      → Ordered united low (a ∷ ps)
  united-Ordered low ps out (l, lt, top, sa, ea, (l', lt', top', sb, eb, o)) = rw united-here (
    l,
    omega (arith, f.meet),
    top',
    sa,
    eb,
    Ordered-keep area united ((area b).virt_end) ps (united-keep ps out) o,
  )

  pub united-reserved :
      (low : ℕ) (ps : List ℕ)
      → has a ps ≡ false
      → Ordered area low (a ∷ b ∷ ps)
      → reserved united (a ∷ ps) ≡ reserved area (a ∷ b ∷ ps)
  united-reserved low ps out (l, lt, top, sa, ea, (l', lt', top', sb, eb, o)) =
      rw united-here (omega (arith, f.meet, reserved-keep area united ps (united-keep ps out)))

  pub united-mapping :
      (low : ℕ) (ps : List ℕ) (v : ℕ)
      → has a ps ≡ false
      → Ordered area low (a ∷ b ∷ ps)
      → mapping_at united (a ∷ ps) v ≡ mapping_at area (a ∷ b ∷ ps) v
  united-mapping low ps v out (l, lt, top, sa, ea, (l', lt', top', sb, eb, o)) =
      let rest = mapping_at-keep area united ps v (united-keep ps out) in
      let meet = f.meet in
      let flags = f.flags in
      let type = f.type in
      let alloc_flags = f.alloc_flags in
      rw united-here (
        ground (
          arith,
          rest,
          f.phys,
          phys_halves ((area a).phys_base) ((area a).virt_start) ((area a).virt_end) v,
        ))
