-- ===== src/Blk/Tests.antt =====
-- The block layer of kernel/blk/blk.c with two devices: (1, 0) at 100 is registered and closed,
-- (1, 1) at 200 is not registered. The driver counts its calls.
use spinix.Base.{
  ℕ, ◌+◌, ◌-◌, ◌≡◌, ◌⊎◌, refl, true, false, none, some, List, [], ◌∷◌, arith, has, has_bit, u64_mod,
  ◌==◌, if◌then◌else◌,
}
use spinix.Base.Int.{pos, neg}
use spinix.Base.Chain.{without}
use spinix.Blk.{op_read, op_write, Ops, Device, Blk, unregister_device}
use spinix.Blk.Registry.{IsValid, SameNumbers, unregister_device-IsValid}
use spinix.Blk.Io.{submit, transfer, read, write}
use spinix.Blk.Guards.{Reaches, WriteRefused, read-wraps, write_guarded}

abbrev driver : Ops ℕ
driver = record {
  open_fn = some (λ dev w. (pos 0, w + 1));
  close_fn = some (λ dev w. w + 10);
  request_fn = some (λ dev req w. (pos 0, w + 100));
  ioctl_fn = none;
  flush_fn = none;
}

abbrev broken : Ops ℕ
broken = record driver { open_fn = some (λ dev w. (neg 5, w)) }

abbrev device : ℕ → Ops ℕ → ℕ → Device ℕ
device minor ops opens = record {
  name = [];
  major = 1;
  minor = minor;
  flags = 0;
  block_size = 512;
  num_blocks = 64;
  ops = some ops;
  open_count = opens;
  next = 0;
}

abbrev disk_devs : ℕ → ℕ → Device ℕ
disk_devs opens p = if p == 100 then device 0 driver opens else device 1 broken 0

-- The device at 100 has been opened `opens` times.
abbrev disks : ℕ → Blk ℕ
disks opens = record { device_list = 100; devs = disk_devs opens; world = 7 }

abbrev registered : List ℕ
registered = 100 ∷ []

disks-IsValid : (n : ℕ) → IsValid (disks n) registered
disks-IsValid n = record {
  chain = (refl, omega arith, refl);
  distinct = (refl, tt);
  numbers = λ p q ip iq same. ground arith;
}

new_numbers : (p : ℕ) → has p registered ≡ true → ¬ (SameNumbers (disks 0) p 200)
new_numbers p i same = ground arith

unregister_device-IsValid_example :
    (s' : Blk ℕ) × (unregister_device 5 100 (disks 0) ≡ some s')
    × IsValid s' (without 100 registered)
unregister_device-IsValid_example =
    unregister_device-IsValid 5 100 (disks 0) registered (disks-IsValid 0) (omega arith)
      (omega arith) refl

write_guarded_example :
    WriteRefused 100 (disks 1) (write 100 8 8 4096 (disks 1))
    ⊎ (Reaches 100 op_write 8 8 4096 (disks 1) (write 100 8 8 4096 (disks 1))
        × (has_bit ((disks 1).devs 100).flags 1 ≡ false))
write_guarded_example = write_guarded 100 8 8 4096 (disks 1) (omega arith)

-- The last sector number and one block: the sum wraps to 0, and the driver is asked.
read-wraps_example :
    read 100 (u64_mod - 1) 1 4096 (disks 1)
    ≡ submit (transfer 100 op_read (u64_mod - 1) 1 4096) (disks 1)
read-wraps_example =
    read-wraps 100 (u64_mod - 1) 1 4096 (disks 1) (omega arith) (omega arith) (omega arith)
      (omega arith) (omega arith) (omega arith) (omega arith)
