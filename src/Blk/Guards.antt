-- ===== src/Blk/Guards.antt =====
-- When kernel/blk/blk.c's blk_read and blk_write reach the driver, and what the bounds check lets
-- through.
use spinix.Base.{
  ℕ, ◌+◌, ◌-◌, ◌^◌, ◌≤◌, ◌<◌, ◌≡◌, refl, ◌≢◌, ◌⊎◌, inl, inr, ◌||◌, true, false, Bool-cases, Option,
  some, arith, ◌==◌, ne→==, ==→ne, has_bit, add64, u64_mod,
}
use spinix.Base.Int.{ℤ, neg}
use spinix.Blk.{einval, enodev, erofs, op_read, op_write, Blk}
use spinix.Blk.Io.{submit, transfer, past_end, read, write}

module _ {W : Type 0} where
  -- The request is the driver's answer, for an open device and blocks inside it.
  abbrev pub Reaches : ℕ → ℕ → ℕ → ℕ → ℕ → Blk W → Option (ℤ × Blk W) → Type 0
  Reaches dev op sector count buffer s r =
      (0 < (s.devs dev).open_count)
      × (sector + count ≤ (s.devs dev).num_blocks)
      × (r ≡ submit (transfer dev op sector count buffer) s)

  past_end-false :
      (s : Blk W) (dev sector count : ℕ)
      → sector + count < u64_mod
      → past_end s dev sector count ≡ false
      → sector + count ≤ (s.devs dev).num_blocks
  past_end-false s dev sector count fits e = ground arith

  past_end-inside :
      (s : Blk W) (dev sector count : ℕ)
      → add64 sector count ≤ (s.devs dev).num_blocks
      → past_end s dev sector count ≡ false
  past_end-inside s dev sector count h = ground arith

  -- A refused transfer: EINVAL or ENODEV, and nothing has changed.
  abbrev pub Refused : Blk W → Option (ℤ × Blk W) → Type 0
  Refused s r = (e : ℕ) × (r ≡ some (neg e, s)) × ((e ≡ einval) ⊎ (e ≡ enodev))

  -- If sector + count is below 2 ^ 64, blk_read either refuses with EINVAL or ENODEV and changes
  -- nothing, or the device is open, the blocks lie inside it, and the result is the driver's answer
  -- to the read request.
  pub read_guarded :
      (dev sector count buffer : ℕ) (s : Blk W)
      → sector + count < u64_mod
      → Refused s (read dev sector count buffer s)
        ⊎ Reaches dev op_read sector count buffer s (read dev sector count buffer s)
  unfolding read
  read_guarded dev sector count buffer s fits = elim (Bool-cases (dev == 0 || (buffer == 0))) [
    | inl bad ↦ inl (einval, rw bad, inl refl)
    | inr good ↦ elim (Bool-cases ((s.devs dev).open_count == 0)) [
      | inl closed ↦ inl (enodev, rw (good, closed), inr refl)
      | inr opened ↦ elim (Bool-cases (past_end s dev sector count)) [
        | inl past ↦ inl (einval, rw (good, opened, past), inl refl)
        | inr inside ↦ inr (
          let ne = ==→ne (s.devs dev).open_count 0 opened in omega arith,
          past_end-false s dev sector count fits inside,
          rw (good, opened, inside),
        )
      ]
    ]
  ]

  -- For an open device and a buffer, a sector and a 32-bit count whose sum is 2 ^ 64 or more, and
  -- is at most the device's number of blocks once 2 ^ 64 is taken off, blk_read hands the request
  -- to the driver.
  pub read-wraps :
      (dev sector count buffer : ℕ) (s : Blk W)
      → dev ≢ 0
      → buffer ≢ 0
      → 0 < (s.devs dev).open_count
      → u64_mod ≤ sector + count
      → sector + count - u64_mod ≤ (s.devs dev).num_blocks
      → sector < u64_mod
      → count < 2 ^ 32
      → read dev sector count buffer s ≡ submit (transfer dev op_read sector count buffer) s
  unfolding read
  read-wraps dev sector count buffer s nd nb opened over low _ _ =
      let good : (dev == 0 || (buffer == 0)) ≡ false = rw (ne→== nd, ne→== nb) in
      let op : ((s.devs dev).open_count == 0) ≡ false = ground arith in
      let inside : past_end s dev sector count ≡ false = ground arith in rw (good, op, inside)

  -- A refused write, or one to a read-only device: EROFS.
  abbrev pub WriteRefused : ℕ → Blk W → Option (ℤ × Blk W) → Type 0
  WriteRefused dev s r =
      Refused s r ⊎ ((r ≡ some (neg erofs, s)) × (has_bit (s.devs dev).flags 1 ≡ true))

  -- If sector + count is below 2 ^ 64, blk_write either refuses with EINVAL or ENODEV and changes
  -- nothing, or refuses with EROFS and changes nothing because the device is read-only, or the
  -- device is open and writable, the blocks lie inside it, and the result is the driver's answer to
  -- the write request.
  pub write_guarded :
      (dev sector count buffer : ℕ) (s : Blk W)
      → sector + count < u64_mod
      → WriteRefused dev s (write dev sector count buffer s)
        ⊎ (Reaches dev op_write sector count buffer s (write dev sector count buffer s)
            × (has_bit (s.devs dev).flags 1 ≡ false))
  unfolding write
  write_guarded dev sector count buffer s fits = elim (Bool-cases (dev == 0 || (buffer == 0))) [
    | inl bad ↦ inl (inl (einval, rw bad, inl refl))
    | inr good ↦ elim (Bool-cases ((s.devs dev).open_count == 0)) [
      | inl closed ↦ inl (inl (enodev, rw (good, closed), inr refl))
      | inr opened ↦ elim (Bool-cases (has_bit (s.devs dev).flags 1)) [
        | inl ro ↦ inl (inr (rw (good, opened, ro), ro))
        | inr rw_ok ↦ elim (Bool-cases (past_end s dev sector count)) [
          | inl past ↦ inl (inl (einval, rw (good, opened, rw_ok, past), inl refl))
          | inr inside ↦ inr (
            (
              let ne = ==→ne (s.devs dev).open_count 0 opened in omega arith,
              past_end-false s dev sector count fits inside,
              rw (good, opened, rw_ok, inside),
            ),
            rw_ok,
          )
        ]
      ]
    ]
  ]
