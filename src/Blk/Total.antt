-- ===== src/Blk/Total.antt =====
-- A device whose driver takes requests always gets an answer, and the devices stay as they are.
use spinix.Base.{
  ℕ, ◌≡◌, refl, sym, ap, ◌∙◌, inl, inr, ◌||◌, true, false, Bool-cases, Option, some, Option-cases,
  ◌==◌, ◌>>=◌, has_bit,
}
use mathlib.Core.Bool.{false≢true}
use spinix.Base.Int.{ℤ, neg}
use spinix.Blk.{einval, enodev, erofs, op_read, op_write, Request, Blk, can_request}
use spinix.Blk.Io.{submit, transfer, past_end, read, write}

module _ {W : Type 0} where
  -- The call returns, and only the driver's state may have changed.
  abbrev pub Answers : Blk W → Option (ℤ × Blk W) → Type 0
  Answers s o = (r : ℤ × Blk W) × (o ≡ some r) × ((r.1).devs ≡ s.devs)

  submit-Answers :
      (req : Request) (s : Blk W)
      → can_request (s.devs req.dev).ops ≡ true
      → Answers s (submit req s)
  unfolding submit
  submit-Answers req s ok = elim (Option-cases (s.devs req.dev).ops) [
    | inl e ↦ absurd (false≢true (sym (ap can_request e) ∙ ok))
    | inr (ops, e) ↦ elim (Option-cases ops.request_fn) [
      | inl e' ↦
          let no_request : can_request (some ops) ≡ false = rw e' in
          absurd (false≢true (sym (ap can_request e ∙ no_request) ∙ ok))
      | inr (f, e') ↦
          let r = f req.dev req s.world in
          ((r.0, record s { world = r.1 }), rw (e, ◌>>=◌) (rw (e', ◌>>=◌)), refl)
    ]
  ]

  pub read-Answers :
      (dev sector count buffer : ℕ) (s : Blk W)
      → can_request (s.devs dev).ops ≡ true
      → Answers s (read dev sector count buffer s)
  unfolding read
  read-Answers dev sector count buffer s ok = elim (Bool-cases (dev == 0 || (buffer == 0))) [
    | inl bad ↦ ((neg einval, s), rw bad, refl)
    | inr good ↦ elim (Bool-cases ((s.devs dev).open_count == 0)) [
      | inl closed ↦ ((neg enodev, s), rw (good, closed), refl)
      | inr opened ↦ elim (Bool-cases (past_end s dev sector count)) [
        | inl past ↦ ((neg einval, s), rw (good, opened, past), refl)
        | inr inside ↦
            rw (good, opened, inside)
              (submit-Answers (transfer dev op_read sector count buffer) s ok)
      ]
    ]
  ]

  pub write-Answers :
      (dev sector count buffer : ℕ) (s : Blk W)
      → can_request (s.devs dev).ops ≡ true
      → Answers s (write dev sector count buffer s)
  unfolding write
  write-Answers dev sector count buffer s ok = elim (Bool-cases (dev == 0 || (buffer == 0))) [
    | inl bad ↦ ((neg einval, s), rw bad, refl)
    | inr good ↦ elim (Bool-cases ((s.devs dev).open_count == 0)) [
      | inl closed ↦ ((neg enodev, s), rw (good, closed), refl)
      | inr opened ↦ elim (Bool-cases (has_bit (s.devs dev).flags 1)) [
        | inl fixed ↦ ((neg erofs, s), rw (good, opened, fixed), refl)
        | inr writable ↦ elim (Bool-cases (past_end s dev sector count)) [
          | inl past ↦ ((neg einval, s), rw (good, opened, writable, past), refl)
          | inr inside ↦
              rw (good, opened, writable, inside)
                (submit-Answers (transfer dev op_write sector count buffer) s ok)
        ]
      ]
    ]
  ]
