-- ===== src/Pmm/Frames.antt =====
-- The free stacks of kernel/mm/pmm.c as lists of frames: the allocator's invariant.
use spinix.Base.{
  ℕ, ◌+◌, ◌%◌, ◌≤◌, ◌<◌, ◌≡◌, refl, sym, ap, ◌∙◌, ◌≢◌, true, false, List, [], ◌∷◌, arith, length,
  has, all-has, has-ne, Distinct, All, u64_mod,
}
use mathlib.Core.Path.{subst}
use spinix.Base.Memory.{update, update_ne}
use spinix.Pmm.{page_size, Zone, Pmm, phys_to_virt, zero_page, addr_to_zone}

module _ (off : ℕ) where
  -- From the frame pointer `v` the links lead through the frames at `ps` to NULL.
  abbrev pub Chain : (ℕ → ℕ) → ℕ → List ℕ → Type 0
  Chain mem v [] = v ≡ 0
  Chain mem v (p ∷ ps) = (v ≡ phys_to_virt off p) × Chain mem (mem v) ps

  -- A page that can be on the stack of zone `z`: aligned, not page 0, in the zone, and mapped by
  -- the direct map without wrapping round.
  abbrev pub InZone : ℕ → ℕ → Type 0
  InZone z p =
      (p % page_size ≡ 0) × (0 < p) × (addr_to_zone p ≡ z) × (p + off + page_size ≤ u64_mod)

  pub record ZoneValid (mem : ℕ → ℕ) (zone : Zone) (z : ℕ) (ps : List ℕ) : Type 0 where
    pub chain : Chain mem zone.free_stack ps
    pub count : zone.free_pages ≡ length ps
    pub total : zone.free_pages ≤ zone.total_pages
    pub small : zone.total_pages < u64_mod
    pub frames : All (InZone z) ps
    pub distinct : Distinct ps

  -- Each zone's stack holds the frames that `free` lists for it.
  abbrev pub IsValid : Pmm → (ℕ → List ℕ) → Type 0
  IsValid s free = (z : ℕ) → z < 3 → ZoneValid s.mem (s.zones z) z (free z)

  -- A chain survives a change of memory that spares its own frames.
  pub Chain-keep :
      (mem mem' : ℕ → ℕ) (v : ℕ) (ps : List ℕ)
      → ((q : ℕ) → has q ps ≡ true → mem' (phys_to_virt off q) ≡ mem (phys_to_virt off q))
      → Chain mem v ps
      → Chain mem' v ps
  Chain-keep mem mem' v [] same c = c
  Chain-keep mem mem' v (p ∷ ps) same (e, c) =
      let rest = Chain-keep mem mem' (mem v) ps (λ q i. same q (ground arith)) c in
      (e, subst (λ w. Chain mem' w ps) (sym (rw e (same p (ground arith)))) rest)

  -- Distinct frames are distinct words, and clearing one page spares the other.
  pub virt-ne :
      {z w : ℕ} (p q : ℕ)
      → InZone z p
      → InZone w q
      → q ≢ p
      → phys_to_virt off q ≢ phys_to_virt off p
  virt-ne p q hp hq ne = omega arith

  zero_page-keep :
      {z w : ℕ} (mem : ℕ → ℕ) (p q : ℕ)
      → InZone z p
      → InZone w q
      → q ≢ p
      → zero_page mem (phys_to_virt off p) (phys_to_virt off q) ≡ mem (phys_to_virt off q)
  zero_page-keep mem p q hp hq ne = ground arith

  -- Clearing a page that is off a stack, and linking a frame in front, leave the stack as it is.
  pub Chain-zero_page :
      (z w : ℕ) (mem : ℕ → ℕ) (v p : ℕ) (ps : List ℕ)
      → InZone w p
      → All (InZone z) ps
      → has p ps ≡ false
      → Chain mem v ps
      → Chain (zero_page mem (phys_to_virt off p)) v ps
  Chain-zero_page z w mem v p ps hp hs out c =
      Chain-keep mem (zero_page mem (phys_to_virt off p)) v ps
        (λ q i. zero_page-keep mem p q hp (all-has (InZone z) ps q hs i) (has-ne ps q p i out)) c

  pub Chain-update :
      (z w : ℕ) (mem : ℕ → ℕ) (v p x : ℕ) (ps : List ℕ)
      → InZone w p
      → All (InZone z) ps
      → has p ps ≡ false
      → Chain mem v ps
      → Chain (update mem (phys_to_virt off p) x) v ps
  Chain-update z w mem v p x ps hp hs out c =
      Chain-keep mem (update mem (phys_to_virt off p) x) v ps
        (λ q i.
          update_ne mem _ _ x (virt-ne p q hp (all-has (InZone z) ps q hs i) (has-ne ps q p i out)))
        c

  -- A frame of one zone is on no other zone's stack.
  pub has-other :
      (z w : ℕ) (p : ℕ) (ps : List ℕ) → InZone w p → All (InZone z) ps → z ≢ w → has p ps ≡ false
  has-other z w p [] hp hs ne = refl
  has-other z w p (q ∷ qs) hp (hq, hs) ne =
      let apart : q ≢ p = λ e. ne (sym hq.2 ∙ ap addr_to_zone e ∙ hp.2) in
      ground (arith, has-other z w p qs hp hs ne)
