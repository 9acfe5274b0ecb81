-- ===== src/Blk/Walk.antt =====
-- The other walks over the list of kernel/blk/blk.c, and the conversions of include/blk/blk.h.
use spinix.Base.{
  ℕ, zero, suc, ◌≡◌, ◌<◌, ◌/◌, refl, ap, ◌∙◌, inl, inr, ◌&&◌, Bool, true, false, Bool-cases, Option,
  none, some, List, [], ◌∷◌, arith, length, ◌==◌, ne→==, eq→==, if◌then◌else◌, mul64,
}
use spinix.Base.Int.{ℤ, pos, neg, is_zero}
use spinix.Base.Chain.{Chain, Chain-keep}
use spinix.Base.Chain.Search.{find_node}
use spinix.Blk.{einval, Blk, next_of}
use spinix.Blk.Registry.{IsValid}

-- `strcmp(a, b) == 0`, for the bytes of two strings.
abbrev pub same_name : List ℕ → List ℕ → Bool
same_name [] [] = true
same_name [] (b ∷ bs) = false
same_name (a ∷ rest) [] = false
same_name (a ∷ rest) (b ∷ bs) = (a == b) && same_name rest bs

module _ {W : Type 0} where
  -- A name that is NULL is `none`.
  unfoldable pub find_device_by_name : ℕ → Option (List ℕ) → Blk W → Option ℕ
  find_device_by_name fuel none s = some 0
  find_device_by_name fuel (some name) s =
      find_node fuel (next_of s) (λ p. same_name ((s.devs p).name) name) s.device_list

  -- The loop of `blk_for_each_device`, from the device `p` on; its link is read before the callback.
  unfoldable pub for_each_loop : ℕ → (ℕ → Blk W → ℤ × Blk W) → ℕ → Blk W → Option (ℤ × Blk W)
  for_each_loop zero fn p s = none
  for_each_loop (suc fuel) fn p s =
      let rest = for_each_loop fuel fn (next_of s p) ((fn p s).1) in
      if p == 0 then some (pos 0, s) else if is_zero ((fn p s).0) then rest else some (fn p s)

  -- A callback that is NULL is `none`.
  unfoldable pub for_each_device : ℕ → Option (ℕ → Blk W → ℤ × Blk W) → Blk W → Option (ℤ × Blk W)
  for_each_device fuel none s = some (neg einval, s)
  for_each_device fuel (some fn) s = for_each_loop fuel fn s.device_list s

  unfoldable pub sector_to_bytes : ℕ → ℕ → Blk W → ℕ
  sector_to_bytes dev sector s = mul64 sector (s.devs dev).block_size

  -- `none` is the division by 0.
  unfoldable pub bytes_to_sector : ℕ → ℕ → Blk W → Option ℕ
  bytes_to_sector dev bytes s =
      let size = (s.devs dev).block_size in if size == 0 then none else some (bytes / size)

  unfoldable pub get_capacity : ℕ → Blk W → ℕ
  get_capacity dev s = mul64 (s.devs dev).num_blocks (s.devs dev).block_size

  -- The callback on each device of a list in turn, up to the first result other than 0.
  abbrev pub visit : (ℕ → Blk W → ℤ × Blk W) → List ℕ → Blk W → ℤ × Blk W
  visit fn [] s = (pos 0, s)
  visit fn (p ∷ ps) s =
      let rest = visit fn ps ((fn p s).1) in if is_zero ((fn p s).0) then rest else fn p s

  for_each_loop-visit :
      (fuel p : ℕ) (ps : List ℕ) (fn : ℕ → Blk W → ℤ × Blk W) (s : Blk W)
      → ((q : ℕ) (u : Blk W) → ((fn q u).1).devs ≡ u.devs)
      → Chain (next_of s) p ps
      → length ps < fuel
      → for_each_loop fuel fn p s ≡ some (visit fn ps s)
  unfolding for_each_loop
  for_each_loop-visit zero p ps fn s keeps c lt = absurd (omega arith)
  for_each_loop-visit (suc fuel) p [] fn s keeps c lt = rw (eq→== c) refl
  for_each_loop-visit (suc fuel) p (q ∷ ps) fn s keeps (e, nz, c) lt =
      let more = ne→== nz in
      let s1 = (fn q s).1 in
      let same : (t : ℕ) → next_of s1 t ≡ next_of s t = (λ t. ap (λ f. (f t).next) (keeps q s)) in
      let rest =
        for_each_loop-visit fuel (next_of s q) ps fn s1 keeps
          (Chain-keep (next_of s) (next_of s1) (next_of s q) ps (λ t _. same t) c) (omega arith) in
      ap (λ t. for_each_loop (suc fuel) fn t s) e ∙ (elim (Bool-cases (is_zero ((fn q s).0))) [
        | inl z ↦ rw (more, z) rest
        | inr z ↦ rw (more, z) refl
      ])

  -- In a valid registry, for a callback that leaves the devices' fields alone, and with fuel for more
  -- nodes than the list has, blk_for_each_device returns what the callback makes of the devices in
  -- their order, up to its first result other than 0.
  pub for_each_device-visit :
      (fuel : ℕ) (ps : List ℕ) (fn : ℕ → Blk W → ℤ × Blk W) (s : Blk W)
      → IsValid s ps
      → ((q : ℕ) (u : Blk W) → ((fn q u).1).devs ≡ u.devs)
      → length ps < fuel
      → for_each_device fuel (some fn) s ≡ some (visit fn ps s)
  unfolding for_each_device
  for_each_device-visit fuel ps fn s v keeps lt =
      for_each_loop-visit fuel s.device_list ps fn s keeps v.chain lt
