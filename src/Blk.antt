-- ===== src/Blk.antt =====
-- kernel/blk/blk.c and include/blk/blk.h: the registry of block devices and the requests to their
-- drivers. Devices live at addresses and are linked through `next`; 0 is NULL. The list's spinlock
-- is held round each walk, so an operation is one step.

pub mod Registry
pub mod Io
pub mod Opens
pub mod Total
pub mod Guards
pub mod Walk
mod Tests
use spinix.Base.{
  ℕ, zero, suc, ◌+◌, ◌-◌, ◌&&◌, ◌||◌, not, Bool, true, false, Option, none, some, List, ltb, ◌==◌,
  if◌then◌else◌, ◌>>=◌, has_bit, ◌%◌, ◌^◌, add64,
}
use spinix.Base.Int.{ℤ, pos, negsuc, neg, is_zero}
use spinix.Base.Memory.{update}
use spinix.Base.Chain.{find_link}
use spinix.Base.Chain.Search.{find_node}

-- klibc/errno.h
abbrev pub einval : ℕ
einval = 22

abbrev pub eexist : ℕ
eexist = 17

abbrev pub enodev : ℕ
enodev = 19

abbrev pub erofs : ℕ
erofs = 30

-- BLK_OP_READ, BLK_OP_WRITE, BLK_OP_FLUSH and BLK_REQ_SYNC
abbrev pub op_read : ℕ
op_read = 0

abbrev pub op_write : ℕ
op_write = 1

abbrev pub op_flush : ℕ
op_flush = 2

abbrev pub req_sync : ℕ
req_sync = 1

-- `struct blk_request`; `private_data` is always NULL here.
pub record Request : Type 0 where
  pub dev : ℕ
  pub operation : ℕ
  pub flags : ℕ
  pub sector : ℕ
  pub count : ℕ
  pub buffer : ℕ
  pub status : ℤ

-- `struct blk_ops`: a callback is NULL or a function of the driver, over the driver's state `W`.
pub record Ops (W : Type 0) : Type 0 where
  pub open_fn : Option (ℕ → W → ℤ × W)
  pub close_fn : Option (ℕ → W → W)
  pub request_fn : Option (ℕ → Request → W → ℤ × W)
  pub ioctl_fn : Option (ℕ → ℕ → ℕ → W → ℤ × W)
  pub flush_fn : Option (ℕ → W → ℤ × W)

-- `struct blk_device`; the name as its bytes, the private data with the driver.
pub record Device (W : Type 0) : Type 0 where
  pub name : List ℕ
  pub major : ℕ
  pub minor : ℕ
  pub flags : ℕ
  pub block_size : ℕ
  pub num_blocks : ℕ
  pub ops : Option (Ops W)
  pub open_count : ℕ
  pub next : ℕ

pub record Blk (W : Type 0) : Type 0 where
  pub device_list : ℕ
  pub devs : ℕ → Device W
  pub world : W

module _ {W : Type 0} where
  abbrev pub next_of : Blk W → ℕ → ℕ
  next_of s p = (s.devs p).next

  abbrev pub set_dev : Blk W → ℕ → Device W → Blk W
  set_dev s p d = record s { devs = update s.devs p d }

  pub init : Blk W → Blk W
  init s = record s { device_list = 0 }

  abbrev pub has_numbers : Blk W → ℕ → ℕ → ℕ → Bool
  has_numbers s major minor p = (s.devs p).major == major && (s.devs p).minor == minor

  unfoldable pub find_device : ℕ → ℕ → ℕ → Blk W → Option ℕ
  find_device fuel major minor s =
      find_node fuel (next_of s) (has_numbers s major minor) s.device_list

  abbrev pub can_request : Option (Ops W) → Bool
  can_request none = false
  can_request (some ops) = elim ops.request_fn [ none ↦ false | some f ↦ true ]

  -- The list write of `blk_register_device`.
  abbrev pub push_device : ℕ → Blk W → Blk W
  push_device dev s = record s {
    device_list = dev;
    devs = update s.devs dev (record (s.devs dev) { open_count = 0; next = s.device_list });
  }

  unfoldable pub register_device : ℕ → ℕ → Blk W → Option (ℤ × Blk W)
  register_device fuel dev s =
      if dev == 0 || not (can_request (s.devs dev).ops) then some (neg einval, s) else do
        existing ← find_device fuel (s.devs dev).major (s.devs dev).minor s
        some (if existing == 0 then (pos 0, push_device dev s) else (neg eexist, s))

  -- The write `*current = dev->next`.
  abbrev pub unlink_device : ℕ → Option ℕ → Blk W → Blk W
  unlink_device dev none s = s
  unlink_device dev (some q) s =
      if q == 0
      then record s { device_list = next_of s dev }
      else set_dev s q (record (s.devs q) { next = next_of s dev })

  unfoldable pub unregister_device : ℕ → ℕ → Blk W → Option (Blk W)
  unregister_device fuel dev s =
      if dev == 0
      then some s
      else if ltb 0 (s.devs dev).open_count
      then some s
      else do link ← find_link fuel (next_of s) 0 s.device_list dev; some (unlink_device dev link s)
