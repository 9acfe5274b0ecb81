-- ===== src/Cache/Valid.antt =====
-- The invariant of the cache of kernel/blk/bcache.c, and hits.
use spinix.Base.{
  ℕ, ◌≡◌, ◌<◌, refl, sym, ap, ◌∙◌, ◌≢◌, inl, inr, true, false, Bool-cases, some, List, [], ◌∷◌,
  ◌++◌, arith, has, has-append, length, ◌==◌, ne→==, ==→eq, ◌>>=◌, ◌+◌, ◌^◌, add64,
}
use mathlib.Core.Bool.{false≢true}
use spinix.Base.Memory.{update, update-field, update_one, update_self, update_ne}
use spinix.Base.Chain.{without, has-without_ne}
use spinix.Cache.{hash_block, Buf, Cache, caches, up32, move_front}
use spinix.Cache.Ring.{IsRing, move_front-IsRing}
use spinix.Cache.Index.{IsIndex, lookup_lem, caches_same, Index-same, Index-bufs}
use spinix.Cache.Calls.{hit, bread}

-- Moving an item changes no membership.
pub has-moved :
    (b : ℕ) (bs : List ℕ) → has b bs ≡ true → (q : ℕ) → has q (without b bs ++ b ∷ []) ≡ has q bs
has-moved b bs i q = has-append q (without b bs) (b ∷ []) ∙ elim (Bool-cases (b == q)) [
  | inl e ↦ let same = ap (λ c. has c bs) (==→eq b q e) in ground arith
  | inr e ↦ let ne : q ≢ b = ground arith in let old = has-without_ne b q bs ne in ground arith
]

-- The lock of a buffer without references is not held.
abbrev pub Idle : (ℕ → Buf) → Type 0
Idle bufs = (q : ℕ) → (bufs q).refcnt ≡ 0 → (bufs q).locked ≡ false

pub Idle-update :
    (bufs : ℕ → Buf) (b : ℕ) (buf : Buf)
    → Idle bufs
    → (buf.refcnt ≡ 0 → buf.locked ≡ false)
    → Idle (update bufs b buf)
Idle-update bufs b buf idle new =
    update_one (λ q (x : Buf). x.refcnt ≡ 0 → x.locked ≡ false) bufs b buf new (λ q _. idle q)

module _ {W : Type 0} where
  -- The ring holds the buffers `bs`, the chains `hs` index those that hold a block, and only buffers
  -- with references are locked.
  pub record IsValid (s : Cache W) (bs : List ℕ) (hs : ℕ → List ℕ) : Type 0 where
    pub ring : IsRing s bs
    pub index : IsIndex s.bufs s.qnext s.hash bs hs
    pub nonzero : has 0 bs ≡ false
    pub idle : Idle s.bufs

  hit-IsValid :
      (s : Cache W) (bs : List ℕ) (hs : ℕ → List ℕ) (b : ℕ)
      → IsValid s bs hs
      → has b bs ≡ true
      → (s.bufs b).refcnt + 1 < 2 ^ 32
      → IsValid (hit b s) (without b bs ++ b ∷ []) hs
  unfolding move_front
  hit-IsValid s bs hs b v i few =
      let buf = record (s.bufs b) { refcnt = up32 (s.bufs b).refcnt; locked = true } in
      let s1 = record s { bufs = update s.bufs b buf } in
      record {
        ring = move_front-IsRing s1 bs b v.ring i;
        index =
            Index-bufs s.bufs s.qnext s.hash (without b bs ++ b ∷ []) hs
              (Index-same s.bufs s.qnext s.hash bs hs v.index (without b bs ++ b ∷ [])
                (has-moved b bs i))
              (update s.bufs b buf) (λ q. update-field (λ (x : Buf). x.dev) s.bufs b buf q refl)
              (λ q. update-field (λ (x : Buf). x.blockno) s.bufs b buf q refl);
        nonzero = has-moved b bs i 0 ∙ v.nonzero;
        idle = Idle-update s.bufs b buf v.idle (λ z. absurd (omega (arith, z, few)));
      }

  -- The buffer `b` after a hit: one more reference, and its lock is held. The other buffers and the
  -- block layer are as before, and one more hit is counted.
  pub record Hits (s : Cache W) (b : ℕ) (s' : Cache W) : Type 0 where
    pub referenced : (s'.bufs b).refcnt ≡ (s.bufs b).refcnt + 1
    pub held : (s'.bufs b).locked ≡ true
    pub marked : (s'.bufs b).valid ≡ (s.bufs b).valid
    pub pins : (s'.bufs b).pincount ≡ (s.bufs b).pincount
    pub block : ((s'.bufs b).dev ≡ (s.bufs b).dev) × ((s'.bufs b).blockno ≡ (s.bufs b).blockno)
    pub others : (q : ℕ) → q ≢ b → s'.bufs q ≡ s.bufs q
    pub blk : s'.blk ≡ s.blk
    pub counted : (s'.hits ≡ add64 s.hits 1) × (s'.misses ≡ s.misses)

  -- In a valid cache, with fuel for more buffers than the hash chain of the block has, bread of a
  -- block that a buffer holds which is not busy, whose lock is free and whose count of references
  -- does not wrap returns that buffer with one more reference and its lock held, asks no driver,
  -- moves the buffer to the front of the ring, leaves the other buffers as they are and keeps the
  -- cache valid; whether the buffer is marked valid plays no part and does not change.
  pub bread-hit :
      (fuel dev blockno b : ℕ) (s : Cache W) (bs : List ℕ) (hs : ℕ → List ℕ)
      → IsValid s bs hs
      → dev ≢ 0
      → length (hs (hash_block dev blockno)) < fuel
      → has b bs ≡ true
      → caches s dev blockno b ≡ true
      → (s.bufs b).busy ≡ false
      → (s.bufs b).locked ≡ false
      → (s.bufs b).refcnt + 1 < 2 ^ 32
      → (s' : Cache W) × (bread fuel dev blockno s ≡ some (b, s'))
        × IsValid s' (without b bs ++ b ∷ []) hs
        × Hits s b s'
  unfolding bread move_front
  bread-hit fuel dev blockno b s bs hs v nd lt i t ready free few =
      let (r, e, found) = lookup_lem fuel dev blockno s bs hs v.index nd lt in
      let mine = caches_same s dev blockno b t in
      let same : r ≡ b = elim found [
        | inl (ir, tr, _) ↦
            let other = caches_same s dev blockno r tr in
            v.index.unique r b ir i (λ z. nd (sym other.0 ∙ z)) (other.0 ∙ sym mine.0)
              (other.1 ∙ sym mine.1)
        | inr (_, others) ↦ absurd (false≢true (sym (others b i) ∙ t))
      ] in
      let nb : b ≢ 0 = λ z. false≢true (sym v.nonzero ∙ ap (λ q. has q bs) (sym z) ∙ i) in
      let buf = record (s.bufs b) { refcnt = up32 (s.bufs b).refcnt; locked = true } in
      let at_b : update s.bufs b buf b ≡ buf = update_self s.bufs b buf in
      (
        hit b s,
        rw (ne→== nd) (rw (e ∙ ap some same, ◌>>=◌) (rw (ne→== nb, ready, free))),
        hit-IsValid s bs hs b v i few,
        record {
          referenced = ap (λ (x : Buf). x.refcnt) at_b ∙ omega (arith, few);
          held = ap (λ (x : Buf). x.locked) at_b;
          marked = ap (λ (x : Buf). x.valid) at_b;
          pins = ap (λ (x : Buf). x.pincount) at_b;
          block = (ap (λ (x : Buf). x.dev) at_b, ap (λ (x : Buf). x.blockno) at_b);
          others = λ q ne. update_ne s.bufs b q buf ne;
          blk = refl;
          counted = (refl, refl);
        },
      )
