-- ===== src/Blk/Io.antt =====
-- Opening and closing block devices, and the requests of kernel/blk/blk.c to their drivers. A call
-- through a NULL pointer, `dev->ops` or `ops->request`, is `none`.
use spinix.Base.{
  ℕ, ◌+◌, ◌-◌, ◌%◌, ◌^◌, ◌||◌, Bool, Option, none, some, ltb, ◌==◌, if◌then◌else◌, ◌>>=◌, has_bit,
  add64,
}
use spinix.Base.Int.{ℤ, pos, neg, is_zero}
use spinix.Blk.{
  einval, enodev, erofs, op_read, op_write, op_flush, req_sync, Request, Ops, Blk, set_dev,
}

abbrev pub transfer : ℕ → ℕ → ℕ → ℕ → ℕ → Request
transfer dev op sector count buffer = record {
  dev = dev;
  operation = op;
  flags = 0;
  sector = sector;
  count = count;
  buffer = buffer;
  status = pos 0;
}

abbrev pub flush_request : ℕ → Request
flush_request dev = record {
  dev = dev;
  operation = op_flush;
  flags = req_sync;
  sector = 0;
  count = 0;
  buffer = 0;
  status = pos 0;
}

module _ {W : Type 0} where
  -- uint32_t counters of openings
  abbrev count_open : Blk W → ℕ → Blk W
  count_open s dev =
      set_dev s dev (record (s.devs dev) { open_count = ((s.devs dev).open_count + 1) % 2 ^ 32 })

  -- The driver's `open`, if there is one.
  abbrev pub driver_open : Ops W → ℕ → W → ℤ × W
  driver_open ops dev w = elim ops.open_fn [ none ↦ (pos 0, w) | some f ↦ f dev w ]

  abbrev pub driver_close : Ops W → ℕ → W → W
  driver_close ops dev w = elim ops.close_fn [ none ↦ w | some f ↦ f dev w ]

  unfoldable pub open_device : ℕ → Blk W → Option (ℤ × Blk W)
  open_device dev s =
      if dev == 0
      then some (neg enodev, s)
      else if (s.devs dev).open_count == 0
      then (do
        ops ← (s.devs dev).ops
        let r = driver_open ops dev s.world
        let s1 = record s { world = r.1 }
        some (if is_zero r.0 then (pos 0, count_open s1 dev) else (r.0, s1)))
      else some (pos 0, count_open s dev)

  unfoldable pub close_device : ℕ → Blk W → Option (Blk W)
  close_device dev s =
      if dev == 0 || ((s.devs dev).open_count == 0)
      then some s
      else (let left = (s.devs dev).open_count - 1 in
          let s1 = set_dev s dev (record (s.devs dev) { open_count = left }) in
          if left == 0
          then (do
            ops ← (s.devs dev).ops
            some (record s1 { world = driver_close ops dev s.world }))
          else some s1)

  -- `dev->ops->request(dev, &req)`
  unfoldable pub submit : Request → Blk W → Option (ℤ × Blk W)
  submit req s = do
    ops ← (s.devs req.dev).ops
    f ← ops.request_fn
    let r = f req.dev req s.world
    some (r.0, record s { world = r.1 })

  -- The sum `sector + count` is a uint64_t.
  abbrev pub past_end : Blk W → ℕ → ℕ → ℕ → Bool
  past_end s dev sector count = ltb (s.devs dev).num_blocks (add64 sector count)

  unfoldable pub read : ℕ → ℕ → ℕ → ℕ → Blk W → Option (ℤ × Blk W)
  unfolding submit
  read dev sector count buffer s =
      if dev == 0 || (buffer == 0)
      then some (neg einval, s)
      else if (s.devs dev).open_count == 0
      then some (neg enodev, s)
      else if past_end s dev sector count
      then some (neg einval, s)
      else submit (transfer dev op_read sector count buffer) s

  -- BLK_FLAG_READ_ONLY is bit 1.
  unfoldable pub write : ℕ → ℕ → ℕ → ℕ → Blk W → Option (ℤ × Blk W)
  unfolding submit
  write dev sector count buffer s =
      if dev == 0 || (buffer == 0)
      then some (neg einval, s)
      else if (s.devs dev).open_count == 0
      then some (neg enodev, s)
      else if has_bit (s.devs dev).flags 1
      then some (neg erofs, s)
      else if past_end s dev sector count
      then some (neg einval, s)
      else submit (transfer dev op_write sector count buffer) s

  -- The driver's `flush`, or else a flush request.
  abbrev run_flush : Ops W → ℕ → Blk W → Option (ℤ × Blk W)
  run_flush ops dev s = elim ops.flush_fn [
    | none ↦ submit (flush_request dev) s
    | some f ↦ let r = f dev s.world in some (r.0, record s { world = r.1 })
  ]

  unfoldable pub flush : ℕ → Blk W → Option (ℤ × Blk W)
  unfolding submit
  flush dev s =
      if dev == 0
      then some (neg einval, s)
      else if (s.devs dev).open_count == 0
      then some (neg enodev, s)
      else (do ops ← (s.devs dev).ops; run_flush ops dev s)

  abbrev run_ioctl : Ops W → ℕ → ℕ → ℕ → Blk W → ℤ × Blk W
  run_ioctl ops dev cmd arg s = elim ops.ioctl_fn [
    | none ↦ (neg einval, s)
    | some f ↦ let r = f dev cmd arg s.world in (r.0, record s { world = r.1 })
  ]

  unfoldable pub ioctl : ℕ → ℕ → ℕ → Blk W → Option (ℤ × Blk W)
  ioctl dev cmd arg s =
      if dev == 0
      then some (neg einval, s)
      else if (s.devs dev).open_count == 0
      then some (neg enodev, s)
      else (do ops ← (s.devs dev).ops; some (run_ioctl ops dev cmd arg s))
