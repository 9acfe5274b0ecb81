-- ===== src/Cache.antt =====
-- kernel/blk/bcache.c: the cache of disk blocks. The pointer to `bcache.buf[i]` is i + 1, the one to
-- `bcache.head` is 257, and NULL is 0. The links of the buffers, `prev` and `next` of the LRU ring and
-- `qnext` of the hash chains, are functions of the buffer. A block's data lies in the world of the
-- drivers, at the address `data_ptr`. The lock of a buffer is the field `locked`: bread takes it and
-- brelse gives it back. A call is one step. The source gives `bcache.lock` up while it calls the
-- driver, and what another thread does to the cache in that time is not in the model. `none` is a
-- call that gets stuck: a division by a block size of 0, a call through NULL, a wait for a buffer
-- that stays busy or for a buffer's lock that is held, or a loop without fuel.
pub mod Ring
pub mod Calls
pub mod Index
pub mod Valid
pub mod Evict
pub mod Miss
mod Tests
use spinix.Base.{
  ℕ, zero, suc, ◌+◌, ◌-◌, ◌*◌, ◌/◌, ◌%◌, ◌^◌, ◌&&◌, not, Bool, true, false, Option, none, some, ltb,
  ◌==◌, if◌then◌else◌, ◌>>=◌, add64, mul64,
}
use Prim.Native.Nat.{bit_xor}
use spinix.Base.Int.{ℤ, pos, neg, is_zero}
use spinix.Base.Memory.{update}
use spinix.Base.Chain.{find_link}
use spinix.Base.Chain.Search.{find_node}
use spinix.Blk.{einval, Blk}
use spinix.Blk.Io.{read, write}

abbrev pub block_bytes : ℕ
block_bytes = 4096

abbrev pub buffer_count : ℕ
buffer_count = 256

abbrev pub hash_size : ℕ
hash_size = 64

abbrev pub head : ℕ
head = 257

abbrev pub eio : ℕ
eio = 5

-- `struct buf` without its links; the three bits of `flags` are `valid`, `dirty` and
-- `busy`, and `locked` is the spinlock behind `lock_data`.
pub record Buf : Type 0 where
  pub dev : ℕ
  pub blockno : ℕ
  pub refcnt : ℕ
  pub pincount : ℕ
  pub data_ptr : ℕ
  pub valid : Bool
  pub dirty : Bool
  pub busy : Bool
  pub locked : Bool

-- The static `bcache`, beside the block layer.
pub record Cache (W : Type 0) : Type 0 where
  pub blk : Blk W
  pub bufs : ℕ → Buf
  pub next : ℕ → ℕ
  pub prev : ℕ → ℕ
  pub qnext : ℕ → ℕ
  pub hash : ℕ → ℕ
  pub hits : ℕ
  pub misses : ℕ
  pub evictions : ℕ
  pub writes : ℕ
  pub reads : ℕ

unfoldable pub hash_block : ℕ → ℕ → ℕ
hash_block dev blockno = bit_xor (dev / 16) blockno % hash_size

-- uint32_t counters
abbrev pub up32 : ℕ → ℕ
up32 n = (n + 1) % 2 ^ 32

abbrev pub down32 : ℕ → ℕ
down32 n = (n + 2 ^ 32 - 1) % 2 ^ 32

-- The scan from the back of the ring; 0 if no buffer can be evicted.
unfoldable pub scan : ℕ → (ℕ → ℕ) → (ℕ → Bool) → ℕ → Option ℕ
scan zero prev test cur = none
scan (suc fuel) prev test cur =
    let rest = scan fuel prev test (prev cur) in
    if cur == head then some 0 else if test cur then some cur else rest

-- The buffer holds no block any more.
abbrev pub forgotten : Buf → Buf
forgotten buf = record buf { dev = 0; blockno = 0; valid = false; dirty = false; busy = false }

module _ {W : Type 0} where
  abbrev pub set_buf : Cache W → ℕ → Buf → Cache W
  set_buf s b buf = record s { bufs = update s.bufs b buf }

  abbrev pub caches : Cache W → ℕ → ℕ → ℕ → Bool
  caches s dev blockno b = (s.bufs b).dev == dev && (s.bufs b).blockno == blockno

  unfoldable pub lookup : ℕ → ℕ → ℕ → Cache W → Option ℕ
  lookup fuel dev blockno s =
      find_node fuel s.qnext (caches s dev blockno) (s.hash (hash_block dev blockno))

  -- The two writes that take `b` out of the ring.
  abbrev pub unlinked_next : Cache W → ℕ → ℕ → ℕ
  unlinked_next s b = update s.next (s.prev b) (s.next b)

  abbrev pub unlinked_prev : Cache W → ℕ → ℕ → ℕ
  unlinked_prev s b = update s.prev (unlinked_next s b b) (s.prev b)

  -- `lru_move_front`
  unfoldable pub move_front : ℕ → Cache W → Cache W
  move_front b s =
      let n1 = unlinked_next s b in
      let p1 = unlinked_prev s b in
      let n2 = update n1 b (n1 head) in
      let p2 = update p1 b head in
      let p3 = update p2 (n2 head) b in
      let n3 = update n2 head b in record s { next = n3; prev = p3 }

  -- The same for the back of the list, in `brelse`.
  unfoldable pub move_back : ℕ → Cache W → Cache W
  move_back b s =
      let n1 = unlinked_next s b in
      let p1 = unlinked_prev s b in
      let p2 = update p1 b (p1 head) in
      let n2 = update n1 b head in
      let n3 = update n2 (p2 head) b in
      let p3 = update p2 head b in record s { next = n3; prev = p3 }

  unfoldable pub can_evict : Cache W → ℕ → Bool
  can_evict s b = (s.bufs b).refcnt == 0 && (s.bufs b).pincount == 0

  -- The first sector of a block of the device, and the number of its sectors.
  unfoldable pub sectors : Cache W → ℕ → ℕ → Option (ℕ × ℕ)
  sectors s dev blockno =
      let size = (s.blk.devs dev).block_size in
      if size == 0 then none else some (mul64 blockno block_bytes / size, block_bytes / size)

  -- `blk_write` of the buffer's block.
  unfoldable pub write_block : ℕ → Cache W → Option (ℤ × Cache W)
  unfolding sectors
  write_block b s = do
    let buf = s.bufs b
    at_sectors ← sectors s buf.dev buf.blockno
    r ← write buf.dev at_sectors.0 at_sectors.1 buf.data_ptr s.blk
    some (r.0, record s { blk = r.1 })

  abbrev pub set_dirty : Bool → ℕ → Cache W → Cache W
  set_dirty v b s = set_buf s b (record (s.bufs b) { dirty = v })

  abbrev pub count_write : Cache W → Cache W
  count_write s = record s { writes = add64 s.writes 1 }

  -- The write of a dirty buffer before it is evicted; its result is not looked at.
  unfoldable pub write_back : ℕ → Cache W → Option (Cache W)
  unfolding write_block
  write_back b s =
      if (s.bufs b).dev == 0
      then some (set_dirty false b s)
      else (do r ← write_block b s; some (set_dirty false b (count_write (r.1))))

  -- A dirty buffer is written back under its lock.
  unfoldable pub clean : ℕ → Cache W → Option (Cache W)
  clean b s =
      if (s.bufs b).dirty then if (s.bufs b).locked then none else write_back b s else some s

  -- The write `*pp = b->qnext` where the walk over chain `h` has met `b`.
  abbrev pub unhash_at : ℕ → ℕ → Option ℕ → Cache W → Cache W
  unhash_at h b none s = s
  unhash_at h b (some q) s =
      if q == 0
      then record s { hash = update s.hash h (s.qnext b) }
      else record s { qnext = update s.qnext q (s.qnext b) }

  unfoldable pub unhash : ℕ → ℕ → Cache W → Option (Cache W)
  unhash fuel b s = do
    let h = hash_block (s.bufs b).dev (s.bufs b).blockno
    link ← find_link fuel s.qnext 0 (s.hash h) b
    some (unhash_at h b link s)

  abbrev pub forget : ℕ → Cache W → Cache W
  forget b s = record s {
    bufs = update s.bufs b (forgotten (s.bufs b));
    qnext = update s.qnext b 0;
  }

  -- What follows the scan of `bcache_evict`, for the buffer that it has found.
  unfoldable pub evict_at : ℕ → ℕ → Cache W → Option (Cache W)
  unfolding clean write_back unhash
  evict_at fuel b s = do
    s1 ← clean b s
    s2 ← if (s1.bufs b).dev == 0 then some s1 else unhash fuel b s1
    some (record (forget b s2) { evictions = add64 s2.evictions 1 })

  unfoldable pub evict : ℕ → Cache W → Option (ℕ × Cache W)
  unfolding scan evict_at
  evict fuel s = do
    b ← scan fuel s.prev (can_evict s) (s.prev head)
    if b == 0 then some (0, s) else (do s1 ← evict_at fuel b s; some (b, s1))
