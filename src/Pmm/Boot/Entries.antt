-- ===== src/Pmm/Boot/Entries.antt =====
-- The entries of a memory map, one by one: the allocator stays valid, and lists their pages.
use spinix.Base.{
  ℕ, ◌+◌, ◌%◌, ◌≤◌, ◌<◌, ◌≡◌, refl, ◌↔◌, ◌⊎◌, inl, inr, true, false, Bool-cases, List, [], ◌∷◌,
  arith, has, All, add64, u64_mod,
}
use mathlib.Core.Path.{subst}
use mathlib.Core.Bool.{false≢true}
use spinix.Pmm.{page_size, Pmm, addr_to_zone}
use spinix.Pmm.Frames.{IsValid}
use spinix.Pmm.Region.{region_frees, has-region_frees}
use spinix.Pmm.Region.Valid.{add_region-IsValid, add_region-room}
use spinix.Pmm.Boot.{Entry, usable, add_entry, add_entries}
use spinix.Pmm.Boot.Map.{entry_frees, entries_frees, Apart, MapOk, total_length, Usable}

-- A listed frame is clear of the usable entries still to come.
abbrev pub Clear : List Entry → (ℕ → List ℕ) → Type 0
Clear es free =
    (z p : ℕ)
    → has p (free z) ≡ true
    → All (λ d. usable d ≡ true → (p + page_size ≤ d.base) ⊎ (d.base + d.length ≤ p)) es

clear_of_Apart :
    (e : Entry) (es : List Entry) (p : ℕ)
    → All (λ d. usable d ≡ true → Apart e d) es
    → e.base ≤ p
    → p + page_size ≤ e.base + e.length
    → All (λ d. usable d ≡ true → (p + page_size ≤ d.base) ⊎ (d.base + d.length ≤ p)) es
clear_of_Apart e [] p h lo hi = tt
clear_of_Apart e (d ∷ ds) p (h, hs) lo hi =
    ((λ u. omega (arith, h u)), clear_of_Apart e ds p hs lo hi)

used :
    (e : Entry) (free : ℕ → List ℕ)
    → usable e ≡ true
    → entry_frees e free ≡ region_frees e.base e.length free
used e free u = rw u

skipped : (e : Entry) (free : ℕ → List ℕ) → usable e ≡ false → entry_frees e free ≡ free
skipped e free u = rw u

module _ (off : ℕ) where
  entry-Clear :
      (e : Entry) (es : List Entry) (free : ℕ → List ℕ)
      → MapOk off (e ∷ es)
      → Clear (e ∷ es) free
      → Clear es (entry_frees e free)
  entry-Clear e es free (ok, oks) clear z p h = elim (Bool-cases (usable e)) [
    | inl u ↦
        let h' : has p (region_frees e.base e.length free z) ≡ true =
          subst (λ f. has p (f z) ≡ true) (used e free u) h in
        let o = (ok u).0 in
        elim ((has-region_frees off e.base e.length free o.nonzero o.fits z p).0 h') [
          | inl old ↦ (clear z p old).1
          | inr (lo, hi, _, _) ↦ clear_of_Apart e es p (ok u).1 lo hi
        ]
    | inr u ↦ (clear z p (subst (λ f. has p (f z) ≡ true) (skipped e free u) h)).1
  ]

  add_entry-IsValid :
      (e : Entry) (es : List Entry) (s : Pmm) (free : ℕ → List ℕ)
      → IsValid off s free
      → MapOk off (e ∷ es)
      → Clear (e ∷ es) free
      → ((z : ℕ) → z < 3 → (s.zones z).total_pages + (e.length + total_length es) < u64_mod)
      → IsValid off (add_entry off e s) (entry_frees e free)
        × ((z : ℕ) → z < 3 → ((add_entry off e s).zones z).total_pages + total_length es < u64_mod)
  unfolding add_entry
  add_entry-IsValid e es s free v (ok, oks) clear room = elim (Bool-cases (usable e)) [
    | inl u ↦
        let o = (ok u).0 in
        let s1 = record s {
          total_memory_bytes = add64 s.total_memory_bytes e.length;
          usable_memory_bytes = add64 s.usable_memory_bytes e.length;
        } in
        rw u (
          add_region-IsValid off e.base e.length free o.nonzero o.fits s1 v
              (λ z p h. (clear z p h).0 u) (λ z lt. omega (arith, room z lt)),
          add_region-room off e.base e.length free o.nonzero o.fits s1 (total_length es) room,
        )
    | inr u ↦ rw u (v, λ z lt. omega (arith, room z lt))
  ]

  pub add_entries-IsValid :
      (es : List Entry) (s : Pmm) (free : ℕ → List ℕ)
      → IsValid off s free
      → MapOk off es
      → Clear es free
      → ((z : ℕ) → z < 3 → (s.zones z).total_pages + total_length es < u64_mod)
      → IsValid off (add_entries off es s) (entries_frees es free)
  unfolding add_entries entries_frees
  add_entries-IsValid [] s free v ok clear room = v
  add_entries-IsValid (e ∷ es) s free v ok clear room =
      let (v1, room1) = add_entry-IsValid e es s free v ok clear room in
      add_entries-IsValid es (add_entry off e s) (entry_frees e free) v1 ok.1
        (entry-Clear e es free ok clear) room1

  -- What the lists hold after the entries.
  has-entry_frees :
      (e : Entry) (es : List Entry) (free : ℕ → List ℕ) (z p : ℕ)
      → MapOk off (e ∷ es)
      → (has p (entry_frees e free z) ≡ true) ↔ (
          (has p (free z) ≡ true)
          ⊎ ((usable e ≡ true)
              × (e.base ≤ p)
              × (p + page_size ≤ e.base + e.length)
              × (p % page_size ≡ 0)
              × (addr_to_zone p ≡ z)))
  has-entry_frees e es free z p (ok, oks) = elim (Bool-cases (usable e)) [
    | inl u ↦
        let o = (ok u).0 in
        let (down, up) = has-region_frees off e.base e.length free o.nonzero o.fits z p in
        rw u (
          (λ h. elim (down h) [ inl old ↦ inl old | inr (a, b, c, d) ↦ inr (refl, a, b, c, d) ]),
          (λ h. elim h [ inl old ↦ up (inl old) | inr (t, a, b, c, d) ↦ up (inr (a, b, c, d)) ]),
        )
    | inr u ↦
        rw u (inl, (λ h. elim h [ inl old ↦ old | inr (t, a, b, c, d) ↦ absurd (false≢true t) ]))
  ]

  pub has-entries_frees :
      (es : List Entry) (free : ℕ → List ℕ) (z p : ℕ)
      → MapOk off es
      → (has p (entries_frees es free z) ≡ true)
        ↔ ((has p (free z) ≡ true) ⊎ (Usable es p × (p % page_size ≡ 0) × (addr_to_zone p ≡ z)))
  unfolding entries_frees
  has-entries_frees [] free z p ok =
      (inl, (λ h. elim h [ inl old ↦ old | inr (u, c, d) ↦ absurd u ]))
  has-entries_frees (e ∷ es) free z p ok =
      let (down, up) = has-entries_frees es (entry_frees e free) z p ok.1 in
      let (split, join) = has-entry_frees e es free z p ok in
      (
        (λ h. elim (down h) [
          | inl old ↦ elim (split old) [
            | inl older ↦ inl older
            | inr (u, a, b, c, d) ↦ inr (inl (u, a, b), c, d)
          ]
          | inr (u, c, d) ↦ inr (inr u, c, d)
        ]),
        (λ h. elim h [
          | inl old ↦ up (inl (join (inl old)))
          | inr (u, c, d) ↦ elim u [
            | inl (t, a, b) ↦ up (inl (join (inr (t, a, b, c, d))))
            | inr later ↦ up (inr (later, c, d))
          ]
        ]),
      )
