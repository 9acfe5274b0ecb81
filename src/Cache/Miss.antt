-- ===== src/Cache/Miss.antt =====
-- `bread` of kernel/blk/bcache.c for a block that no buffer holds.
use spinix.Base.{
  ℕ, ◌≡◌, ◌<◌, ◌/◌, refl, sym, ap, ◌∙◌, ◌≢◌, ◌⊎◌, inl, inr, ◌&&◌, Bool, if◌then◌else◌, true, false,
  Bool-cases, some, List, [], ◌∷◌, ◌++◌, arith, has, length, ◌==◌, eq→==, ne→==, ==→eq, ◌>>=◌,
  mul64,
}
use mathlib.Core.Path.{subst}
use mathlib.Core.Bool.{false≢true}
use spinix.Base.Int.{ℤ, is_zero}
use spinix.Base.Memory.{update, update-field, update_self}
use spinix.Base.Chain.{without, has-without_ne}
use spinix.Blk.{Blk, can_request}
use spinix.Blk.Io.{read}
use spinix.Blk.Total.{read-Answers}
use spinix.Cache.{
  hash_size, hash_block, block_bytes, Buf, Cache, caches, sectors, move_front, move_back, can_evict,
  evict,
}
use spinix.Cache.Calls.{
  assign, assigned, loaded, not_loaded, answered, load, bread_miss, bread, count_miss, brelse,
}
use spinix.Cache.Ring.{move_front-IsRing, move_back-IsRing}
use spinix.Cache.Index.{hash_small, Index-same, Index-bufs, lookup_lem}
use spinix.Cache.Index.Assign.{assign-Index, joined}
use spinix.Cache.Valid.{IsValid, Idle-update, has-moved}
use spinix.Cache.Evict.{Ready, evict-IsValid}

has-first : (b : ℕ) (bs : List ℕ) → has b bs ≡ true → (q : ℕ) → has q (b ∷ without b bs) ≡ has q bs
has-first b bs i q = elim (Bool-cases (b == q)) [
  | inl e ↦ let same = ap (λ c. has c bs) (==→eq b q e) in ground arith
  | inr e ↦ let ne : q ≢ b = ground arith in let old = has-without_ne b q bs ne in ground arith
]

-- With the driver's 0 the buffer is returned, marked valid, with one reference and its lock held; with
-- another answer NULL is, and the buffer is not marked valid, has no reference and its lock is free.
abbrev pub Outcome : Bool → ℕ → ℕ → Buf → Type 0
Outcome success b r x =
    if success
    then (r ≡ b) × (x.valid ≡ true) × (x.refcnt ≡ 1) × (x.locked ≡ true)
    else (r ≡ 0) × (x.valid ≡ false) × (x.refcnt ≡ 0) × (x.locked ≡ false)

module _ {W : Type 0} where
  -- A buffer without a block gets one that no other buffer holds, and is moved to the front.
  assign-IsValid :
      (s : Cache W) (bs : List ℕ) (hs : ℕ → List ℕ) (b dev blockno : ℕ)
      → IsValid s bs hs
      → has b bs ≡ true
      → (s.bufs b).dev ≡ 0
      → dev ≢ 0
      → ((q : ℕ) → has q bs ≡ true → (s.bufs q).dev ≡ dev → (s.bufs q).blockno ≡ blockno → ⊥)
      → (hs' : ℕ → List ℕ) × IsValid
          (move_front b (assign b dev blockno s))
          (without b bs ++ b ∷ [])
          hs'
  unfolding assign move_front
  assign-IsValid s bs hs b dev blockno v i blank nd new =
      let buf = assigned (s.bufs b) dev blockno in
      let nb : b ≢ 0 = λ z. false≢true (sym v.nonzero ∙ ap (λ q. has q bs) (sym z) ∙ i) in
      let index = assign-Index s.bufs s.qnext s.hash bs hs v.index b buf nb i blank nd new in
      let s1 = assign b dev blockno s in
      (
        joined s.bufs s.qnext s.hash bs hs v.index b buf nb i blank nd new,
        record {
          ring = move_front-IsRing s1 bs b v.ring i;
          index =
              Index-same s1.bufs s1.qnext s1.hash bs _ index (without b bs ++ b ∷ [])
                (has-moved b bs i);
          nonzero = has-moved b bs i 0 ∙ v.nonzero;
          idle = Idle-update s.bufs b buf v.idle (λ z. absurd (omega (arith, z)));
        },
      )

  -- The buffer `b` after the answer `ret`: it holds the block and is not busy.
  abbrev pub Holds : ℕ → ℕ → ℕ → ℤ → ℕ × Cache W → Type 0
  Holds b dev blockno ret (r, s') =
      (caches s' dev blockno b ≡ true)
      × ((s'.bufs b).busy ≡ false)
      × Outcome (is_zero ret) b r (s'.bufs b)

  -- The driver is asked in the state `k` to read the block to the address `bytes`.
  abbrev pub Loaded : Blk W → ℕ → ℕ → ℕ → ℕ → ℕ × Cache W → Type 0
  Loaded k bytes b dev blockno o =
      let size = (k.devs dev).block_size in
      (a : ℤ × Blk W) × (read dev (mul64 blockno block_bytes / size) (block_bytes / size) bytes k
        ≡ some a)
      × (o.1.blk ≡ a.1)
      × Holds b dev blockno (a.0) o

  flags-IsValid :
      (s : Cache W) (bs : List ℕ) (hs : ℕ → List ℕ) (b : ℕ) (buf : Buf)
      → IsValid s bs hs
      → buf.dev ≡ (s.bufs b).dev
      → buf.blockno ≡ (s.bufs b).blockno
      → (buf.refcnt ≡ 0 → buf.locked ≡ false)
      → IsValid (record s { bufs = update s.bufs b buf }) bs hs
  flags-IsValid s bs hs b buf v de bl free = record {
    ring = v.ring;
    index =
        Index-bufs s.bufs s.qnext s.hash bs hs v.index (update s.bufs b buf)
          (λ q. update-field (λ (y : Buf). y.dev) s.bufs b buf q de)
          (λ q. update-field (λ (y : Buf). y.blockno) s.bufs b buf q bl);
    nonzero = v.nonzero;
    idle = Idle-update s.bufs b buf v.idle free;
  }

  -- The last reference is given back.
  brelse_last :
      (s : Cache W) (b : ℕ)
      → b ≢ 0
      → (s.bufs b).refcnt ≡ 1
      → brelse b s
        ≡ move_back b
            (record s { bufs = update s.bufs b (record (s.bufs b) { refcnt = 0; locked = false }) })
  unfolding brelse
  brelse_last s b nb one = rw (ne→== nb, one)

  module _ (s : Cache W) (bs : List ℕ) (hs : ℕ → List ℕ) (b dev blockno : ℕ) (v : IsValid s bs hs)
      (i : has b bs ≡ true) (nb : b ≢ 0) (mine : caches s dev blockno b ≡ true) where
    loaded-IsValid :
        (s.bufs b).refcnt ≡ 1
        → (s.bufs b).locked ≡ true
        → (ret : ℤ) → is_zero ret ≡ true
        → IsValid (loaded b s) bs hs × Holds b dev blockno ret (b, loaded b s)
    loaded-IsValid one held ret ok =
        let buf = record (s.bufs b) { valid = true; busy = false } in
        let w = flags-IsValid s bs hs b buf v refl refl (v.idle b) in
        let at_b : update s.bufs b buf b ≡ buf = update_self s.bufs b buf in
        (
          record { ring = w.ring; index = w.index; nonzero = w.nonzero; idle = w.idle },
          (
            ap (λ (x : Buf). x.dev == dev && x.blockno == blockno) at_b ∙ mine,
            ap (λ (x : Buf). x.busy) at_b,
            subst (λ (c : Bool). Outcome c b b (update s.bufs b buf b)) (sym ok)
                (
                  refl,
                  ap (λ (x : Buf). x.valid) at_b,
                  ap (λ (x : Buf). x.refcnt) at_b ∙ one,
                  ap (λ (x : Buf). x.locked) at_b ∙ held,
                ),
          ),
        )

    not_loaded-IsValid :
        (s.bufs b).refcnt ≡ 1
        → (s.bufs b).valid ≡ false
        → (ret : ℤ) → is_zero ret ≡ false
        → IsValid (not_loaded b s) (b ∷ without b bs) hs
          × Holds b dev blockno ret (0, not_loaded b s)
          × ((not_loaded b s).blk ≡ s.blk)
    unfolding move_back
    not_loaded-IsValid one invalid ret bad =
        let idle = record (s.bufs b) { busy = false; locked = false } in
        let s1 = record s { bufs = update s.bufs b idle } in
        let v1 = flags-IsValid s bs hs b idle v refl refl (λ z. refl) in
        let at_b : s1.bufs b ≡ idle = update_self s.bufs b idle in
        let free = record (s1.bufs b) { refcnt = 0; locked = false } in
        let s2 = record s1 { bufs = update s1.bufs b free } in
        let v2 = flags-IsValid s1 bs hs b free v1 refl refl (λ z. refl) in
        let at_b2 : s2.bufs b ≡ free = update_self s1.bufs b free in
        let last = brelse_last s1 b nb (ap (λ (x : Buf). x.refcnt) at_b ∙ one) in
        let out : Outcome (is_zero ret) b 0 (s2.bufs b) =
          subst (λ (c : Bool). Outcome c b 0 (s2.bufs b)) (sym bad)
            (
              refl,
              ap (λ (x : Buf). x.valid) at_b2 ∙ ap (λ (x : Buf). x.valid) at_b ∙ invalid,
              ap (λ (x : Buf). x.refcnt) at_b2,
              ap (λ (x : Buf). x.locked) at_b2,
            ) in
        rw last (
          record {
            ring = move_back-IsRing s2 bs b v2.ring i;
            index =
                Index-same s2.bufs s2.qnext s2.hash bs hs v2.index (b ∷ without b bs)
                  (has-first b bs i);
            nonzero = has-first b bs i 0 ∙ v.nonzero;
            idle = v2.idle;
          },
          (
            ap (λ (x : Buf). x.dev == dev && x.blockno == blockno) at_b2
                ∙ ap (λ (x : Buf). x.dev == dev && x.blockno == blockno) at_b
                ∙ mine,
            ap (λ (x : Buf). x.busy) at_b2 ∙ ap (λ (x : Buf). x.busy) at_b,
            out,
          ),
          refl,
        )

    answered-IsValid :
        (ret : ℤ)
        → (s.bufs b).refcnt ≡ 1
        → (s.bufs b).locked ≡ true
        → (s.bufs b).valid ≡ false
        → (bs' : List ℕ) × IsValid (answered b ret s).1 bs' hs
          × Holds b dev blockno ret (answered b ret s)
          × ((answered b ret s).1.blk ≡ s.blk)
    unfolding answered
    answered-IsValid ret one held invalid = elim (Bool-cases (is_zero ret)) [
      | inl e ↦
          let (w, l) = loaded-IsValid one held ret e in
          subst
            (λ (o : ℕ × Cache W).
              (bs' : List ℕ) × IsValid (o.1) bs' hs × Holds b dev blockno ret o × (o.1.blk ≡ s.blk))
            (sym (ap (λ (c : Bool). if c then (b, loaded b s) else (0, not_loaded b s)) e))
            (bs, w, l, refl)
      | inr e ↦
          let (w, l, k) = not_loaded-IsValid one invalid ret e in
          subst
            (λ (o : ℕ × Cache W).
              (bs' : List ℕ) × IsValid (o.1) bs' hs × Holds b dev blockno ret o × (o.1.blk ≡ s.blk))
            (sym (ap (λ (c : Bool). if c then (b, loaded b s) else (0, not_loaded b s)) e))
            (b ∷ without b bs, w, l, k)
    ]

  load-IsValid :
      (s : Cache W) (bs : List ℕ) (hs : ℕ → List ℕ) (b dev blockno : ℕ)
      → IsValid s bs hs
      → has b bs ≡ true
      → b ≢ 0
      → caches s dev blockno b ≡ true
      → Ready s dev
      → (s.bufs b).refcnt ≡ 1
      → (s.bufs b).locked ≡ true
      → (s.bufs b).valid ≡ false
      → (r : ℕ) × (s' : Cache W) × (bs' : List ℕ) × (load b dev blockno s ≡ some (r, s'))
        × IsValid s' bs' hs
        × Loaded s.blk (s.bufs b).data_ptr b dev blockno (r, s')
  unfolding load sectors
  load-IsValid s bs hs b dev blockno v i nb mine (sized, ok) one held invalid =
      let size = (s.blk.devs dev).block_size in
      let (r, e, same) =
        read-Answers dev (mul64 blockno block_bytes / size) (block_bytes / size) (s.bufs b).data_ptr
          s.blk ok in
      let s1 = record s { blk = r.1 } in
      let v1 : IsValid s1 bs hs = record {
        ring = v.ring;
        index = v.index;
        nonzero = v.nonzero;
        idle = v.idle;
      } in
      let (bs', w, l, k) =
        answered-IsValid s1 bs hs b dev blockno v1 i nb mine (r.0) one held invalid in
      (
        (answered b (r.0) s1).0,
        (answered b (r.0) s1).1,
        bs',
        rw (ne→== sized) (rw (e, ◌>>=◌)),
        w,
        (r, e, k, l),
      )

  fresh-load :
      (s : Cache W) (bs : List ℕ) (hs : ℕ → List ℕ) (b dev blockno : ℕ)
      → IsValid s bs hs
      → has b bs ≡ true
      → (s.bufs b).dev ≡ 0
      → dev ≢ 0
      → Ready s dev
      → ((q : ℕ) → has q bs ≡ true → (s.bufs q).dev ≡ dev → (s.bufs q).blockno ≡ blockno → ⊥)
      → (r : ℕ) × (s' : Cache W) × (bs' : List ℕ) × (hs' : ℕ → List ℕ) × (load b dev blockno
            (move_front b (assign b dev blockno s))
          ≡ some (r, s'))
        × IsValid s' bs' hs'
        × Loaded s.blk (s.bufs b).data_ptr b dev blockno (r, s')
  unfolding assign move_front
  fresh-load s bs hs b dev blockno v i blank nd ready new =
      let nb : b ≢ 0 = λ z. false≢true (sym v.nonzero ∙ ap (λ q. has q bs) (sym z) ∙ i) in
      let (hs', v') = assign-IsValid s bs hs b dev blockno v i blank nd new in
      let buf = assigned (s.bufs b) dev blockno in
      let at_b : update s.bufs b buf b ≡ buf = update_self s.bufs b buf in
      let self : (dev == dev && blockno == blockno) ≡ true = ground arith in
      let s2 = move_front b (assign b dev blockno s) in
      let (r, s', bs', e, w, l) =
        load-IsValid s2 (without b bs ++ b ∷ []) hs' b dev blockno v' (has-moved b bs i b ∙ i) nb
          (ap (λ (x : Buf). x.dev == dev && x.blockno == blockno) at_b ∙ self) ready
          (ap (λ (x : Buf). x.refcnt) at_b) (ap (λ (x : Buf). x.locked) at_b)
          (ap (λ (x : Buf). x.valid) at_b) in
      (
        r,
        s',
        bs',
        hs',
        e,
        w,
        subst (λ p. Loaded s.blk p b dev blockno (r, s')) (ap (λ (x : Buf). x.data_ptr) at_b) l,
      )

  -- No buffer is free, or a free one gets the block.
  abbrev pub Misses : ℕ → ℕ → ℕ → Cache W → List ℕ → ℕ × Cache W → Type 0
  Misses fuel dev blockno s bs o =
      ((o.0 ≡ 0) × ((q : ℕ) → has q bs ≡ true → can_evict s q ≡ false))
      ⊎ ((b : ℕ) × (s1 : Cache W) × (evict fuel (count_miss s) ≡ some (b, s1))
          × (has b bs ≡ true)
          × (can_evict s b ≡ true)
          × Loaded s1.blk (s1.bufs b).data_ptr b dev blockno o)

  -- In a valid cache, for a device other than NULL and a block that no buffer holds, with fuel for
  -- more buffers than the ring and each hash chain have, and where this device and every device
  -- that a buffer caches has a block size other than 0 and a driver with a request callback, bread
  -- returns and leaves a valid cache. Either it returns NULL, and every buffer had references or
  -- pins; or it has evicted a buffer that had neither, blk_read has been asked to read the block
  -- into this buffer, and the buffer holds the block and is not busy: where blk_read returns 0, the
  -- buffer is returned, marked valid, with one reference and its lock held, and where it fails,
  -- NULL is returned, and the buffer is not marked valid, has no reference and its lock is free.
  pub bread-miss :
      (fuel dev blockno : ℕ) (s : Cache W) (bs : List ℕ) (hs : ℕ → List ℕ)
      → IsValid s bs hs
      → dev ≢ 0
      → Ready s dev
      → ((b : ℕ) → has b bs ≡ true → (s.bufs b).dev ≢ 0 → Ready s (s.bufs b).dev)
      → length bs < fuel
      → ((h : ℕ) → h < hash_size → length (hs h) < fuel)
      → ((b : ℕ) → has b bs ≡ true → caches s dev blockno b ≡ false)
      → (r : ℕ) × (s' : Cache W) × (bs' : List ℕ) × (hs' : ℕ → List ℕ) × (bread fuel dev blockno s
          ≡ some (r, s'))
        × IsValid s' bs' hs'
        × Misses fuel dev blockno s bs (r, s')
  unfolding bread bread_miss can_evict
  bread-miss fuel dev blockno s bs hs v nd ready readies few chains new =
      let (r, e, found) =
        lookup_lem fuel dev blockno s bs hs v.index nd
          (chains (hash_block dev blockno) (hash_small dev blockno)) in
      let missing : r ≡ 0 = elim found [
        | inl (ir, tr, _) ↦ absurd (false≢true (sym (new r ir) ∙ tr))
        | inr (z, _) ↦ z
      ] in
      let s0 = count_miss s in
      let v0 : IsValid s0 bs hs = record {
        ring = v.ring;
        index = v.index;
        nonzero = v.nonzero;
        idle = v.idle;
      } in
      let (b, s1, hs1, e1, v1, blk1, took, kept) =
        evict-IsValid fuel s0 bs hs v0 readies few chains in
      elim took [
        | inl (z, same, all) ↦ (
          0,
          s1,
          bs,
          hs1,
          rw (ne→== nd) (rw (e ∙ ap some missing, ◌>>=◌) (rw (e1, ◌>>=◌) (rw (eq→== z)))),
          v1,
          inl (refl, all),
        )
        | inr (i, free, blank, unheld) ↦
            let nb : b ≢ 0 = λ z. false≢true (sym v.nonzero ∙ ap (λ q. has q bs) (sym z) ∙ i) in
            let (r', s', bs', hs', e', v', l) =
              fresh-load s1 bs hs1 b dev blockno v1 i blank nd
                (subst (λ f. ((f dev).block_size ≢ 0) × (can_request (f dev).ops ≡ true)) (sym blk1)
                  ready)
                (λ q iq de bl.
                  let (od, ob) = kept q (λ z. nd (sym de ∙ z)) in
                  let held : caches s dev blockno q ≡ true =
                    rw (eq→== (sym od ∙ de), eq→== (sym ob ∙ bl)) in
                  false≢true (sym (new q iq) ∙ held)) in
            (
              r',
              s',
              bs',
              hs',
              rw (ne→== nd)
                  (rw (e ∙ ap some missing, ◌>>=◌) (rw (e1, ◌>>=◌) (rw (ne→== nb) (rw unheld e')))),
              v',
              inr (b, s1, e1, i, free, l),
            )
      ]
