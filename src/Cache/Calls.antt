-- ===== src/Cache/Calls.antt =====
-- The calls of kernel/blk/bcache.c: bread, bwrite, brelse, bpin, bunpin, bsync, bcache_flush,
-- bcache_invalidate and bcache_init.
use spinix.Base.{
  ℕ, zero, suc, ◌+◌, ◌-◌, ◌&&◌, ◌||◌, not, Bool, true, false, Option, none, some, ltb, ◌==◌,
  if◌then◌else◌, ◌>>=◌, add64,
}
use spinix.Base.Int.{ℤ, pos, neg, is_zero}
use spinix.Base.Memory.{update}
use spinix.Blk.{einval}
use spinix.Blk.Io.{read}
use spinix.Cache.{
  head, eio, buffer_count, hash_block, up32, down32, Buf, Cache, set_buf, lookup, move_front,
  move_back, sectors, write_block, set_dirty, count_write, unhash, forget, forgotten, evict,
}

-- The evicted buffer gets the block, and is put in front of its hash chain; bread holds its lock.
abbrev pub assigned : Buf → ℕ → ℕ → Buf
assigned buf dev blockno = record buf {
  dev = dev;
  blockno = blockno;
  valid = false;
  dirty = false;
  busy = true;
  refcnt = 1;
  locked = true;
}

abbrev pub skips : ℕ → Buf → Bool
skips dev buf = not (buf.dirty) || (not (dev == 0) && not (buf.dev == dev)) || (buf.dev == 0)

abbrev pub keeps : ℕ → Buf → Bool
keeps dev buf = not (buf.dev == dev) || ltb 0 buf.refcnt || ltb 0 buf.pincount

module _ {W : Type 0} where
  -- A hit: one more reference, the buffer is moved to the front, and its lock is taken.
  abbrev pub hit : ℕ → Cache W → Cache W
  hit b s =
      let s1 = set_buf s b (record (s.bufs b) { refcnt = up32 (s.bufs b).refcnt; locked = true }) in
      let s2 = move_front b s1 in record s2 { hits = add64 s2.hits 1 }

  unfoldable pub assign : ℕ → ℕ → ℕ → Cache W → Cache W
  assign b dev blockno s =
      let h = hash_block dev blockno in
      record s {
        bufs = update s.bufs b (assigned (s.bufs b) dev blockno);
        qnext = update s.qnext b (s.hash h);
        hash = update s.hash h b;
      }

  unfoldable pub brelse : ℕ → Cache W → Cache W
  brelse b s =
      let refs = down32 (s.bufs b).refcnt in
      let s1 = set_buf s b (record (s.bufs b) { refcnt = refs; locked = false }) in
      if b == 0 then s else if refs == 0 then move_back b s1 else s1

  -- What `bread` makes of the driver's answer.
  abbrev pub loaded : ℕ → Cache W → Cache W
  loaded b s =
      let s1 = set_buf s b (record (s.bufs b) { valid = true; busy = false }) in
      record s1 { reads = add64 s1.reads 1 }

  abbrev pub not_loaded : ℕ → Cache W → Cache W
  not_loaded b s = brelse b (set_buf s b (record (s.bufs b) { busy = false; locked = false }))

  unfoldable pub answered : ℕ → ℤ → Cache W → ℕ × Cache W
  unfolding brelse
  answered b ret s = if is_zero ret then (b, loaded b s) else (0, not_loaded b s)

  -- The read of the block into the buffer.
  unfoldable pub load : ℕ → ℕ → ℕ → Cache W → Option (ℕ × Cache W)
  unfolding sectors answered
  load b dev blockno s = do
    at_sectors ← sectors s dev blockno
    r ← read dev at_sectors.0 at_sectors.1 (s.bufs b).data_ptr s.blk
    some (answered b (r.0) (record s { blk = r.1 }))

  abbrev pub count_miss : Cache W → Cache W
  count_miss s = record s { misses = add64 s.misses 1 }

  unfoldable pub bread_miss : ℕ → ℕ → ℕ → Cache W → Option (ℕ × Cache W)
  bread_miss fuel dev blockno s = do
    r ← evict fuel (count_miss s)
    if r.0 == 0
        then some (0, r.1)
        else if ((r.1).bufs (r.0)).locked
        then none
        else load (r.0) dev blockno (move_front (r.0) (assign (r.0) dev blockno (r.1)))

  unfoldable pub bread : ℕ → ℕ → ℕ → Cache W → Option (ℕ × Cache W)
  bread fuel dev blockno s = if dev == 0 then some (0, s) else (do
    b ← lookup fuel dev blockno s
    if b == 0
        then bread_miss fuel dev blockno s
        else if (s.bufs b).busy || (s.bufs b).locked
        then none
        else some (b, hit b s))

  unfoldable pub bwrite : ℕ → Bool → Cache W → Option (ℤ × Cache W)
  unfolding write_block
  bwrite b sync s =
      if b == 0 || ((s.bufs b).dev == 0)
      then some (neg einval, s)
      else if sync
      then (do
        r ← write_block b (set_dirty true b s)
        some (r.0, if is_zero (r.0) then count_write (set_dirty false b (r.1)) else r.1))
      else some (pos 0, set_dirty true b s)

  unfoldable pub bpin : ℕ → Cache W → Cache W
  bpin b s =
      if b == 0 then s else set_buf s b (record (s.bufs b) { pincount = up32 (s.bufs b).pincount })

  unfoldable pub bunpin : ℕ → Cache W → Cache W
  bunpin b s =
      if b == 0
      then s
      else if ltb 0 (s.bufs b).pincount
      then set_buf s b (record (s.bufs b) { pincount = (s.bufs b).pincount - 1 })
      else s

  -- One round of `bsync` for a dirty buffer, under the buffer's lock.
  unfoldable pub sync_buf : ℕ → Cache W → Option (Bool × Cache W)
  unfolding write_block
  sync_buf b s = if (s.bufs b).locked then none else (do
    r ← write_block b (set_buf s b (record (s.bufs b) { refcnt = up32 (s.bufs b).refcnt }))
    let s1 = if is_zero (r.0) then count_write (set_dirty false b (r.1)) else r.1
    some (is_zero (r.0), set_buf s1 b (record (s1.bufs b) { refcnt = down32 (s1.bufs b).refcnt })))

  unfoldable pub sync_round : ℕ → ℕ → ℕ → Cache W → Option (ℕ × Cache W)
  unfolding sync_buf
  sync_round dev b errors s =
      if skips dev (s.bufs b)
      then some (errors, s)
      else (do r ← sync_buf b s; some (if r.0 then errors else errors + 1, r.1))

  -- The loop of `bsync`: `n` rounds are left, `i` is the counter.
  unfoldable pub sync_loop : ℕ → ℕ → ℕ → ℕ → Cache W → Option (ℕ × Cache W)
  unfolding sync_round
  sync_loop dev zero i errors s = some (errors, s)
  sync_loop dev (suc n) i errors s = do
    r ← sync_round dev (i + 1) errors s
    sync_loop dev n (i + 1) (r.0) (r.1)

  unfoldable pub bsync : ℕ → Cache W → Option (ℤ × Cache W)
  unfolding sync_loop
  bsync dev s = do
    r ← sync_loop dev buffer_count 0 0 s
    some (if ltb 0 (r.0) then neg eio else pos 0, r.1)

  unfoldable pub flush : Cache W → Option (ℤ × Cache W)
  unfolding bsync
  flush s = bsync 0 s

  -- The write of a dirty buffer in `bcache_invalidate`, under the buffer's lock; its result is not
  -- looked at.
  unfoldable pub invalidate_buf : ℕ → ℕ → Cache W → Option (Cache W)
  unfolding unhash write_block
  invalidate_buf fuel b s = do
    r ←
        if (s.bufs b).dirty
        then if (s.bufs b).locked then none else write_block b s
        else some (pos 0, s)
    s1 ← unhash fuel b (r.1)
    some (forget b s1)

  unfoldable pub invalidate_loop : ℕ → ℕ → ℕ → ℕ → Cache W → Option (Cache W)
  unfolding invalidate_buf
  invalidate_loop fuel dev zero i s = some s
  invalidate_loop fuel dev (suc n) i s = do
    s1 ← if keeps dev (s.bufs (i + 1)) then some s else invalidate_buf fuel (i + 1) s
    invalidate_loop fuel dev n (i + 1) s1

  unfoldable pub invalidate : ℕ → ℕ → Cache W → Option (Cache W)
  unfolding invalidate_loop
  invalidate fuel dev s = if dev == 0 then some s else invalidate_loop fuel dev buffer_count 0 s

  -- The ring insertion of `bcache_init`.
  unfoldable pub insert_front : ℕ → Cache W → Cache W
  insert_front b s =
      let n1 = update s.next b (s.next head) in
      let p1 = update s.prev b head in
      let p2 = update p1 (n1 head) b in
      let n2 = update n1 head b in record s { next = n2; prev = p2 }

  -- Buffer `b`; `bytes` and `lock` are the answers of kmalloc, 0 when it fails.
  unfoldable pub init_buf : ℕ → ℕ → ℕ → Cache W → Cache W
  unfolding insert_front
  init_buf b bytes lock s =
      let s1 = set_buf s b (record (s.bufs b) { data_ptr = bytes }) in
      let fresh = record (forgotten (s1.bufs b)) { refcnt = 0; pincount = 0; locked = false } in
      if bytes == 0 || (lock == 0)
      then s1
      else insert_front b (record s1 { bufs = update s1.bufs b fresh; qnext = update s1.qnext b 0 })

  unfoldable pub init_loop : (ℕ → ℕ) → (ℕ → ℕ) → ℕ → ℕ → Cache W → Cache W
  unfolding init_buf
  init_loop bytes locks zero i s = s
  init_loop bytes locks (suc n) i s =
      init_loop bytes locks n (i + 1) (init_buf (i + 1) (bytes i) (locks i) s)

  unfoldable pub init : (ℕ → ℕ) → (ℕ → ℕ) → Cache W → Cache W
  unfolding init_loop
  init bytes locks s =
      let empty_ring = record s {
        next = update s.next head head;
        prev = update s.prev head head;
      } in
      record (init_loop bytes locks buffer_count 0 empty_ring) {
        hash = λ h. 0;
        hits = 0;
        misses = 0;
        evictions = 0;
        writes = 0;
        reads = 0;
      }

  -- `bcache_stats`: the hits, the misses and the evictions.
  pub stats : Cache W → ℕ × ℕ × ℕ
  stats s = (s.hits, s.misses, s.evictions)
