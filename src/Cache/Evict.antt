-- ===== src/Cache/Evict.antt =====
-- `bcache_evict` of kernel/blk/bcache.c: which buffer it takes, and that the cache stays valid.
use spinix.Base.{
  ℕ, zero, suc, ◌≡◌, ◌<◌, refl, sym, ap, ◌∙◌, ◌≢◌, ◌⊎◌, inl, inr, Bool, true, false, Bool-cases,
  Option, none, some, List, arith, has, length, ◌==◌, eq→==, ne→==, ==→eq, ==→ne, ◌>>=◌, add64,
  mul64, ◌/◌,
}
use mathlib.Core.Path.{subst}
use mathlib.Core.Bool.{false≢true}
use spinix.Base.Int.{ℤ}
use spinix.Base.Memory.{update, update-field, update_one, update_self, update_ne}
use spinix.Base.Chain.{find_link, Chain-update}
use spinix.Base.Chain.Search.{first, first-IsFirst}
use spinix.Blk.{Blk, can_request}
use spinix.Blk.Total.{write-Answers}
use spinix.Cache.{
  head, hash_size, block_bytes, Buf, Cache, set_dirty, write_block, sectors, write_back, clean,
  unhash, unhash_at, forget, forgotten, can_evict, evict_at, evict, count_write,
}
use spinix.Cache.Ring.{scan-first}
use spinix.Cache.Index.{IsIndex, hash_of, hash_small, Index-bufs}
use spinix.Cache.Index.Change.{Unhashed, find_link-Unhashed, left}
use spinix.Cache.Valid.{IsValid, Idle-update}

-- The index does not change when a buffer without a block is reset.
blank-Index :
    (bufs : ℕ → Buf) (qnext hash : ℕ → ℕ) (bs : List ℕ) (hs : ℕ → List ℕ) (b : ℕ)
    → IsIndex bufs qnext hash bs hs
    → (bufs b).dev ≡ 0
    → IsIndex (update bufs b (forgotten (bufs b))) (update qnext b 0) hash bs hs
blank-Index bufs qnext hash bs hs b v blank =
    let unlisted : (h : ℕ) → h < hash_size → has b (hs h) ≡ false = (λ h lt.
      elim (Bool-cases (has b (hs h))) [
        | inl i ↦ absurd ((v.placed h b lt i).1 blank)
        | inr o ↦ o
      ]) in
    let devs : (q : ℕ) → (update bufs b (forgotten (bufs b)) q).dev ≡ (bufs q).dev =
      (λ q. update-field (λ (x : Buf). x.dev) bufs b (forgotten (bufs b)) q (sym blank)) in
    let kept : (c : ℕ) → c ≢ b → update bufs b (forgotten (bufs b)) c ≡ bufs c =
      (λ c ne. update_ne bufs b c (forgotten (bufs b)) ne) in
    let other : (c : ℕ) → (bufs c).dev ≢ 0 → c ≢ b =
      (λ c nd e. nd (ap (λ q. (bufs q).dev) e ∙ blank)) in
    record {
      chain = λ h lt. Chain-update qnext (hash h) b 0 (hs h) (unlisted h lt) (v.chain h lt);
      distinct = v.distinct;
      placed = λ h c lt i.
          let (ic, nd, e) = v.placed h c lt i in
          (ic, (λ z. nd (sym (devs c) ∙ z)), ap hash_of (kept c (other c nd)) ∙ e);
      complete = λ c ic nd.
          let nd' : (bufs c).dev ≢ 0 = (λ z. nd (devs c ∙ z)) in
          subst (λ (x : Buf). has c (hs (hash_of x)) ≡ true) (sym (kept c (other c nd')))
            (v.complete c ic nd');
      unique = λ c d ic id nd de bl.
          let nc : (bufs c).dev ≢ 0 = (λ z. nd (devs c ∙ z)) in
          let same = sym (devs c) ∙ de ∙ devs d in
          let nd' : (bufs d).dev ≢ 0 = (λ z. nc (same ∙ z)) in
          v.unique c d ic id nc same (
            sym (ap (λ (x : Buf). x.blockno) (kept c (other c nc)))
            ∙ bl
            ∙ ap (λ (x : Buf). x.blockno) (kept d (other d nd')));
    }

module _ {W : Type 0} where
  -- The driver of the device answers, and its blocks have a size.
  abbrev pub Ready : Cache W → ℕ → Type 0
  Ready s dev = ((s.blk.devs dev).block_size ≢ 0) × (can_request (s.blk.devs dev).ops ≡ true)

  write_block-Answers :
      (b : ℕ) (s : Cache W)
      → Ready s (s.bufs b).dev
      → (r : ℤ) × (blk : Blk W) × (write_block b s ≡ some (r, record s { blk = blk }))
        × (blk.devs ≡ s.blk.devs)
  unfolding write_block sectors
  write_block-Answers b s (sized, ok) =
      let buf = s.bufs b in
      let size = (s.blk.devs buf.dev).block_size in
      let (r, e, same) =
        write-Answers buf.dev (mul64 buf.blockno block_bytes / size) (block_bytes / size)
          buf.data_ptr s.blk ok in
      (r.0, r.1, rw (ne→== sized) (rw (e, ◌>>=◌)), same)

  dirty-IsValid :
      (s : Cache W) (bs : List ℕ) (hs : ℕ → List ℕ) (b : ℕ) (x : Bool)
      → IsValid s bs hs
      → IsValid (set_dirty x b s) bs hs
  dirty-IsValid s bs hs b x v = record {
    ring = v.ring;
    index =
        Index-bufs s.bufs s.qnext s.hash bs hs v.index (set_dirty x b s).bufs
          (λ q. update-field (λ (y : Buf). y.dev) s.bufs b _ q refl)
          (λ q. update-field (λ (y : Buf). y.blockno) s.bufs b _ q refl);
    nonzero = v.nonzero;
    idle = Idle-update s.bufs b (record (s.bufs b) { dirty = x }) v.idle (v.idle b);
  }

  -- Every buffer holds the block that it held; or every buffer that holds one does.
  abbrev SameBlocks : Cache W → Cache W → Type 0
  SameBlocks s s1 =
      (q : ℕ) → ((s1.bufs q).dev ≡ (s.bufs q).dev) × ((s1.bufs q).blockno ≡ (s.bufs q).blockno)

  abbrev pub Kept : Cache W → Cache W → Type 0
  Kept s s' =
      (q : ℕ)
      → (s'.bufs q).dev ≢ 0
      → ((s'.bufs q).dev ≡ (s.bufs q).dev) × ((s'.bufs q).blockno ≡ (s.bufs q).blockno)

  forgotten-SameBlocks :
      (s s1 : Cache W) (b : ℕ)
      → SameBlocks s s1
      → (q : ℕ) → (update s1.bufs b (forgotten (s1.bufs b)) q).dev ≢ 0
      → ((update s1.bufs b (forgotten (s1.bufs b)) q).dev ≡ (s.bufs q).dev)
        × ((update s1.bufs b (forgotten (s1.bufs b)) q).blockno ≡ (s.bufs q).blockno)
  forgotten-SameBlocks s s1 b same q =
      update_one
        (λ p (x : Buf). x.dev ≢ 0 → (x.dev ≡ (s.bufs p).dev) × (x.blockno ≡ (s.bufs p).blockno))
        s1.bufs b (forgotten (s1.bufs b)) (λ nd. absurd (nd refl)) (λ p _ nd. same p) q

  dirty-SameBlocks : (s : Cache W) (b : ℕ) (x : Bool) → SameBlocks s (set_dirty x b s)
  dirty-SameBlocks s b x q = (
    update-field (λ (y : Buf). y.dev) s.bufs b _ q refl,
    update-field (λ (y : Buf). y.blockno) s.bufs b _ q refl,
  )

  -- The write of a dirty buffer.
  write_back-IsValid :
      (s : Cache W) (bs : List ℕ) (hs : ℕ → List ℕ) (b : ℕ)
      → IsValid s bs hs
      → ((s.bufs b).dev ≢ 0 → Ready s (s.bufs b).dev)
      → (s1 : Cache W) × (write_back b s ≡ some s1)
        × IsValid s1 bs hs
        × (s1.blk.devs ≡ s.blk.devs)
        × SameBlocks s s1
        × ((s1.bufs b).locked ≡ (s.bufs b).locked)
  unfolding write_back
  write_back-IsValid s bs hs b v ready = elim (Bool-cases ((s.bufs b).dev == 0)) [
    | inl blank ↦ (
      set_dirty false b s,
      rw blank,
      dirty-IsValid s bs hs b false v,
      refl,
      dirty-SameBlocks s b false,
      update-field (λ (y : Buf). y.locked) s.bufs b _ b refl,
    )
    | inr held ↦
        let (r, blk, e, same) = write_block-Answers b s (ready (==→ne (s.bufs b).dev 0 held)) in
        let s1 = count_write (record s { blk = blk }) in
        (
          set_dirty false b s1,
          rw held (rw (e, ◌>>=◌)),
          dirty-IsValid s1 bs hs b false
              (record { ring = v.ring; index = v.index; nonzero = v.nonzero; idle = v.idle }),
          same,
          dirty-SameBlocks s1 b false,
          update-field (λ (y : Buf). y.locked) s.bufs b _ b refl,
        )
  ]

  clean-IsValid :
      (s : Cache W) (bs : List ℕ) (hs : ℕ → List ℕ) (b : ℕ)
      → IsValid s bs hs
      → ((s.bufs b).dev ≢ 0 → Ready s (s.bufs b).dev)
      → (s.bufs b).locked ≡ false
      → (s1 : Cache W) × (clean b s ≡ some s1)
        × IsValid s1 bs hs
        × (s1.blk.devs ≡ s.blk.devs)
        × SameBlocks s s1
        × ((s1.bufs b).locked ≡ false)
  unfolding clean
  clean-IsValid s bs hs b v ready free = elim (Bool-cases (s.bufs b).dirty) [
    | inl d ↦
        let (s1, e, v1, blk, same, lock) = write_back-IsValid s bs hs b v ready in
        let through : clean b s ≡ write_back b s = rw (d, free) in
        (s1, through ∙ e, v1, blk, same, lock ∙ free)
    | inr c ↦ (s, rw c, v, refl, λ q. (refl, refl), free)
  ]

  unhash_from :
      (fuel b : ℕ) (s : Cache W) (bs : List ℕ) (hs : ℕ → List ℕ) (v : IsValid s bs hs)
      (held : (s.bufs b).dev ≢ 0) (l : Option (Option ℕ))
      → find_link fuel s.qnext 0 (s.hash (hash_of (s.bufs b))) b ≡ l
      → Unhashed s.bufs s.qnext s.hash bs hs v.index b held l
      → (s2 : Cache W) × (unhash fuel b s ≡ some s2)
        × IsValid (forget b s2) bs (left s.bufs s.qnext s.hash bs hs v.index b held)
        × (s2.blk ≡ s.blk)
        × (s2.bufs ≡ s.bufs)
  unfolding unhash
  unhash_from fuel b s bs hs v held none e u = absurd u
  unhash_from fuel b s bs hs v held (some none) e u = absurd u
  unhash_from fuel b s bs hs v held (some (some zero)) e u = (
    unhash_at (hash_of (s.bufs b)) b (some 0) s,
    rw (e, ◌>>=◌),
    record {
      ring = v.ring;
      index = u;
      nonzero = v.nonzero;
      idle = Idle-update s.bufs b (forgotten (s.bufs b)) v.idle (v.idle b);
    },
    refl,
    refl,
  )
  unhash_from fuel b s bs hs v held (some (some (suc q))) e u =
      let more : (suc q == 0) ≡ false = ground arith in
      (
        record s { qnext = update s.qnext (suc q) (s.qnext b) },
        rw (e, ◌>>=◌) (rw more),
        record {
          ring = v.ring;
          index = u;
          nonzero = v.nonzero;
          idle = Idle-update s.bufs b (forgotten (s.bufs b)) v.idle (v.idle b);
        },
        refl,
        refl,
      )

  -- What becomes of the buffer that is evicted.
  evict_at-IsValid :
      (fuel b : ℕ) (s : Cache W) (bs : List ℕ) (hs : ℕ → List ℕ)
      → IsValid s bs hs
      → has b bs ≡ true
      → ((s.bufs b).dev ≢ 0 → Ready s (s.bufs b).dev)
      → (s.bufs b).locked ≡ false
      → ((h : ℕ) → h < hash_size → length (hs h) < fuel)
      → (s' : Cache W) × (hs' : ℕ → List ℕ) × (evict_at fuel b s ≡ some s')
        × IsValid s' bs hs'
        × (s'.blk.devs ≡ s.blk.devs)
        × ((s'.bufs b).dev ≡ 0)
        × ((s'.bufs b).locked ≡ false)
        × Kept s s'
  unfolding evict_at
  evict_at-IsValid fuel b s bs hs v i ready free lt =
      let (s1, e1, v1, blk1, same1, free1) = clean-IsValid s bs hs b v ready free in
      elim (Bool-cases ((s1.bufs b).dev == 0)) [
        | inl blank ↦
            let s2 = forget b s1 in
            (
              record s2 { evictions = add64 s2.evictions 1 },
              hs,
              rw (e1, ◌>>=◌) (rw (blank, ◌>>=◌)),
              record {
                ring = v1.ring;
                index =
                    blank-Index s1.bufs s1.qnext s1.hash bs hs b v1.index
                      (==→eq (s1.bufs b).dev 0 blank);
                nonzero = v1.nonzero;
                idle = Idle-update s1.bufs b (forgotten (s1.bufs b)) v1.idle (v1.idle b);
              },
              blk1,
              ap (λ (x : Buf). x.dev) (update_self s1.bufs b (forgotten (s1.bufs b))),
              ap (λ (x : Buf). x.locked) (update_self s1.bufs b (forgotten (s1.bufs b))) ∙ free1,
              forgotten-SameBlocks s s1 b same1,
            )
        | inr held ↦
            let nz = ==→ne (s1.bufs b).dev 0 held in
            let (s2, e2, v2, blk2, bufs2) =
              unhash_from fuel b s1 bs hs v1 nz
                (find_link fuel s1.qnext 0 (s1.hash (hash_of (s1.bufs b))) b) refl
                (find_link-Unhashed s1.bufs s1.qnext s1.hash bs hs v1.index b nz fuel i
                  (lt (hash_of (s1.bufs b)) (hash_small (s1.bufs b).dev (s1.bufs b).blockno))) in
            let s3 = forget b s2 in
            (
              record s3 { evictions = add64 s3.evictions 1 },
              left s1.bufs s1.qnext s1.hash bs hs v1.index b nz,
              rw (e1, ◌>>=◌) (rw held (rw (e2, ◌>>=◌))),
              record { ring = v2.ring; index = v2.index; nonzero = v2.nonzero; idle = v2.idle },
              ap (λ (x : Blk W). x.devs) blk2 ∙ blk1,
              ap (λ (x : Buf). x.dev) (update_self s2.bufs b (forgotten (s2.bufs b))),
              ap (λ (x : Buf). x.locked) (update_self s2.bufs b (forgotten (s2.bufs b)))
                  ∙ ap (λ (f : ℕ → Buf). (f b).locked) bufs2
                  ∙ free1,
              forgotten-SameBlocks s s2 b (
                  subst
                    (λ f.
                      (q : ℕ) → ((f q).dev ≡ (s.bufs q).dev) × ((f q).blockno ≡ (s.bufs q).blockno))
                    (sym bufs2) same1),
            )
      ]

  -- Nothing can be evicted, or a buffer is that has no references and no pins, and whose lock is
  -- free.
  abbrev pub Evicts : Cache W → List ℕ → ℕ × Cache W → Type 0
  Evicts s bs (b, s') =
      ((b ≡ 0) × (s' ≡ s) × ((q : ℕ) → has q bs ≡ true → can_evict s q ≡ false))
      ⊎ ((has b bs ≡ true)
          × (can_evict s b ≡ true)
          × ((s'.bufs b).dev ≡ 0)
          × ((s'.bufs b).locked ≡ false))

  -- In a valid cache, with fuel for more buffers than the ring and each hash chain have, and where
  -- every device that a buffer caches has a block size other than 0 and a driver with a request
  -- callback, bcache_evict returns and leaves a valid cache with the same ring and the same
  -- devices: either NULL and an unchanged cache in which every buffer has references or pins, or a
  -- buffer of the ring that had neither, whose lock is free and that now holds no block; and a
  -- buffer that holds a block afterwards held the same one before.
  pub evict-IsValid :
      (fuel : ℕ) (s : Cache W) (bs : List ℕ) (hs : ℕ → List ℕ)
      → IsValid s bs hs
      → ((b : ℕ) → has b bs ≡ true → (s.bufs b).dev ≢ 0 → Ready s (s.bufs b).dev)
      → length bs < fuel
      → ((h : ℕ) → h < hash_size → length (hs h) < fuel)
      → (b : ℕ) × (s' : Cache W) × (hs' : ℕ → List ℕ) × (evict fuel s ≡ some (b, s'))
        × IsValid s' bs hs'
        × (s'.blk.devs ≡ s.blk.devs)
        × Evicts s bs (b, s')
        × Kept s s'
  unfolding evict can_evict
  evict-IsValid fuel s bs hs v ready few chains =
      let test = can_evict s in
      let b = first test bs in
      let found = scan-first fuel s.next s.prev test head bs v.ring.0 v.ring.2 few in
      elim (first-IsFirst test bs) [
        | inl (i, t) ↦
            let nz : b ≢ 0 = λ z. false≢true (sym v.nonzero ∙ ap (λ q. has q bs) (sym z) ∙ i) in
            let unused : (s.bufs b).refcnt ≡ 0 = ground arith in
            let (s', hs', e, v', blk', blank, free, kept) =
              evict_at-IsValid fuel b s bs hs v i (ready b i) (v.idle b unused) chains in
            (
              b,
              s',
              hs',
              rw (found, ◌>>=◌) (rw (ne→== nz) (rw (e, ◌>>=◌))),
              v',
              blk',
              inr (i, t, blank, free),
              kept,
            )
        | inr (z, others) ↦ (
          0,
          s,
          hs,
          rw (found, ◌>>=◌) (rw (eq→== z)),
          v,
          refl,
          inl (refl, refl, others),
          λ q nd. (refl, refl),
        )
      ]
