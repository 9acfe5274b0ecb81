-- ===== src/Blk/Opens.antt =====
-- The open count of a block device, over blk_open and blk_close of kernel/blk/blk.c.
use spinix.Base.{
  ℕ, ◌+◌, ◌-◌, ◌%◌, ◌^◌, ◌<◌, ◌≡◌, ap, ◌∙◌, ◌≢◌, false, some, arith, ◌==◌, ne→==, if◌then◌else◌,
  ◌>>=◌,
}
use mathlib.Core.Path.{subst}
use spinix.Base.Int.{ℤ, pos, is_zero}
use spinix.Base.Memory.{update_self, update-update, update_same}
use spinix.Blk.{Ops, Device, Blk, set_dev}
use spinix.Blk.Io.{open_device, close_device, driver_open, driver_close}

module _ {W : Type 0} where
  -- The device with the open count `n`.
  abbrev counted : Blk W → ℕ → ℕ → Device W
  counted s dev n = record (s.devs dev) { open_count = n }

  -- `s` after the driver has run, with the open count `n`.
  abbrev opened : Blk W → ℕ → W → ℕ → Blk W
  opened s dev w n = set_dev (record s { world = w }) dev (counted s dev n)

  close-opened :
      (dev : ℕ) (s : Blk W) (w : W) (n : ℕ)
      → dev ≢ 0
      → close_device dev (opened s dev w (n + 1)) ≡ (
          if n == 0
          then (do ops ← (s.devs dev).ops; some (opened s dev (driver_close ops dev w) n))
          else some (opened s dev w n))
  unfolding close_device
  close-opened dev s w n nd = rw (
    update_self s.devs dev (counted s dev (n + 1)),
    ne→== nd,
    suc-test,
    suc-sub,
    update-update s.devs dev (counted s dev (n + 1)) (counted s dev n),
  )
    where
      suc-test : (n + 1 == 0) ≡ false
      suc-test = ground arith

      suc-sub : n + 1 - 1 ≡ n
      suc-sub = omega arith

  restored :
      (s : Blk W) (dev : ℕ) (w : W)
      → opened s dev w (s.devs dev).open_count ≡ record s { world = w }
  restored s dev w =
      let with_devs : (ℕ → Device W) → Blk W = (λ f. record s { devs = f; world = w }) in
      ap with_devs (update_same s.devs dev)

  restored_at :
      (s : Blk W) (dev : ℕ) (w : W) (n : ℕ)
      → (s.devs dev).open_count ≡ n
      → opened s dev w n ≡ record s { world = w }
  restored_at s dev w n e =
      subst (λ m. opened s dev w m ≡ record s { world = w }) e (restored s dev w)

  -- For a device that is open already, with an open count that can grow in 32 bits, blk_open and
  -- then blk_close restore the whole state and call no driver.
  pub open-close_shared :
      (dev : ℕ) (s : Blk W)
      → dev ≢ 0
      → 0 < (s.devs dev).open_count
      → (s.devs dev).open_count + 1 < 2 ^ 32
      → (do r ← open_device dev s; close_device dev (r.1)) ≡ some s
  unfolding open_device
  open-close_shared dev s nd busy small =
      let op : ((s.devs dev).open_count == 0) ≡ false = ground arith in
      let fits : ((s.devs dev).open_count + 1) % 2 ^ 32 ≡ (s.devs dev).open_count + 1 =
        omega arith in
      rw (ne→== nd, op, fits, ◌>>=◌, close-opened dev s s.world (s.devs dev).open_count nd, op)
        (ap some (restored s dev s.world))

  open_first :
      (dev : ℕ) (s : Blk W) (ops : Ops W) (w : W)
      → dev ≢ 0
      → (s.devs dev).open_count ≡ 0
      → (s.devs dev).ops ≡ some ops
      → driver_open ops dev s.world ≡ (pos 0, w)
      → open_device dev s ≡ some (pos 0, opened s dev w 1)
  unfolding open_device
  open_first dev s ops w nd closed has ok = rw (ne→== nd, closed, has, ◌>>=◌, ok)

  -- For a closed device whose driver's open callback returns 0 or is missing, blk_open and then
  -- blk_close leave every device as it was, and the driver's state is what its open and close
  -- callbacks make of it in turn.
  pub open-close_first :
      (dev : ℕ) (s : Blk W) (ops : Ops W) (w : W)
      → dev ≢ 0
      → (s.devs dev).open_count ≡ 0
      → (s.devs dev).ops ≡ some ops
      → driver_open ops dev s.world ≡ (pos 0, w)
      → (do r ← open_device dev s; close_device dev (r.1))
        ≡ some (record s { world = driver_close ops dev w })
  open-close_first dev s ops w nd closed has ok =
      rw (open_first dev s ops w nd closed has ok, ◌>>=◌)
        (close-opened dev s w 0 nd
          ∙ ap (λ o. o >>= (λ o'. some (opened s dev (driver_close o' dev w) 0))) has
          ∙ ap some (restored_at s dev (driver_close ops dev w) 0 closed))

  -- For a closed device whose driver's open callback returns a nonzero code, blk_open returns that
  -- code, and no device changes, its open count included.
  pub open-fails :
      (dev : ℕ) (s : Blk W) (ops : Ops W) (code : ℤ) (w : W)
      → dev ≢ 0
      → (s.devs dev).open_count ≡ 0
      → (s.devs dev).ops ≡ some ops
      → driver_open ops dev s.world ≡ (code, w)
      → is_zero code ≡ false
      → open_device dev s ≡ some (code, record s { world = w })
  unfolding open_device
  open-fails dev s ops code w nd closed has answer bad =
      rw (ne→== nd, closed, has, ◌>>=◌, answer, bad)
