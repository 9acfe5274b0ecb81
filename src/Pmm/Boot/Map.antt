-- ===== src/Pmm/Boot/Map.antt =====
-- What the bootloader documents of its memory map, and the free frames that a map leads to.
use spinix.Base.{ℕ, ◌+◌, ◌≤◌, ◌<◌, ◌≡◌, ◌⊎◌, true, List, [], ◌∷◌, All, if◌then◌else◌, u64_mod}
use spinix.Pmm.{page_size}
use spinix.Pmm.Region.{region_frees}
use spinix.Pmm.Boot.{Entry, usable}

-- The lists of free frames after the entries.
abbrev pub entry_frees : Entry → (ℕ → List ℕ) → ℕ → List ℕ
entry_frees e free = if usable e then region_frees e.base e.length free else free

unfoldable pub entries_frees : List Entry → (ℕ → List ℕ) → ℕ → List ℕ
entries_frees [] free = free
entries_frees (e ∷ es) free = entries_frees es (entry_frees e free)

-- What Limine documents of usable entries: they do not overlap. Further: page 0 is not usable, and
-- the direct map holds them.
pub record EntryOk (off : ℕ) (e : Entry) : Type 0 where
  pub nonzero : 0 < e.base
  pub fits : e.base + e.length + off + page_size ≤ u64_mod

abbrev pub Apart : Entry → Entry → Type 0
Apart e d = (e.base + e.length ≤ d.base) ⊎ (d.base + d.length ≤ e.base)

abbrev pub MapOk : ℕ → List Entry → Type 0
MapOk off [] = Unit
MapOk off (e ∷ es) =
    (usable e ≡ true → EntryOk off e × All (λ d. usable d ≡ true → Apart e d) es) × MapOk off es

abbrev pub total_length : List Entry → ℕ
total_length [] = 0
total_length (e ∷ es) = e.length + total_length es

-- The page at `p` lies whole in a usable entry of the map.
abbrev pub Usable : List Entry → ℕ → Type 0
Usable [] p = ⊥
Usable (e ∷ es) p =
    ((usable e ≡ true) × (e.base ≤ p) × (p + page_size ≤ e.base + e.length)) ⊎ Usable es p
