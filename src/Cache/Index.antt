-- ===== src/Cache/Index.antt =====
-- The hash chains of kernel/blk/bcache.c: an index of the buffers by the block that they hold.
pub mod Change
pub mod Assign
use spinix.Base.{
  ℕ, zero, suc, ◌≡◌, ◌<◌, ◌%◌, refl, sym, ap, ◌∙◌, ◌≢◌, ◌⊎◌, inl, inr, ◌||◌, ◌&&◌, Bool, true,
  false, Bool-cases, Option, none, some, List, [], ◌∷◌, ◌++◌, arith, has, has-ne, Distinct, length,
  ◌==◌, eq→==, ne→==, ==→eq, ==→ne, if◌then◌else◌,
}
use mathlib.Core.Path.{subst, ap₂}
use mathlib.Core.Bool.{false≢true}
use spinix.Base.Memory.{update, update_ne, update_self}
use spinix.Base.Chain.{
  Chain, Chain-nonzero, Chain-update, without, without-Distinct, has-without_self, has-without_ne,
  has-of-without,
}
use spinix.Base.Chain.Search.{first, find_node-first, first-IsFirst}
use spinix.Cache.{hash_block, hash_size, Buf, Cache, caches, lookup, forgotten}

abbrev pub hash_of : Buf → ℕ
hash_of buf = hash_block buf.dev buf.blockno

-- Chain `h` holds the buffers `hs h`: exactly those of `bs` with a block whose hash is `h`. No two
-- buffers hold the same block.
pub record IsIndex (bufs : ℕ → Buf) (qnext hash : ℕ → ℕ) (bs : List ℕ) (hs : ℕ → List ℕ)
    : Type 0 where
  pub chain : (h : ℕ) → h < hash_size → Chain qnext (hash h) (hs h)
  pub distinct : (h : ℕ) → h < hash_size → Distinct (hs h)
  pub placed :
      (h b : ℕ)
      → h < hash_size
      → has b (hs h) ≡ true
      → (has b bs ≡ true) × ((bufs b).dev ≢ 0) × (hash_of (bufs b) ≡ h)
  pub complete : (b : ℕ) → has b bs ≡ true → (bufs b).dev ≢ 0 → has b (hs (hash_of (bufs b))) ≡ true
  pub unique :
      (b c : ℕ)
      → has b bs ≡ true
      → has c bs ≡ true
      → (bufs b).dev ≢ 0
      → (bufs b).dev ≡ (bufs c).dev
      → (bufs b).blockno ≡ (bufs c).blockno
      → b ≡ c

pub hash_small : (dev blockno : ℕ) → hash_block dev blockno < hash_size
unfolding hash_block
hash_small dev blockno = omega arith

module _ (bufs : ℕ → Buf) (qnext hash : ℕ → ℕ) (bs : List ℕ) (hs : ℕ → List ℕ)
    (v : IsIndex bufs qnext hash bs hs) where
  -- A list with the same buffers has the same index.
  pub Index-same :
      (bs' : List ℕ) → ((q : ℕ) → has q bs' ≡ has q bs) → IsIndex bufs qnext hash bs' hs
  Index-same bs' same = record {
    chain = v.chain;
    distinct = v.distinct;
    placed = λ h b lt i. let (ib, nd, e) = v.placed h b lt i in (same b ∙ ib, nd, e);
    complete = λ b ib nd. v.complete b (sym (same b) ∙ ib) nd;
    unique = λ b c ib ic. v.unique b c (sym (same b) ∙ ib) (sym (same c) ∙ ic);
  }

  -- So have buffers with the same blocks.
  pub Index-bufs :
      (bufs' : ℕ → Buf)
      → ((q : ℕ) → (bufs' q).dev ≡ (bufs q).dev)
      → ((q : ℕ) → (bufs' q).blockno ≡ (bufs q).blockno)
      → IsIndex bufs' qnext hash bs hs
  Index-bufs bufs' devs blocks = record {
    chain = v.chain;
    distinct = v.distinct;
    placed = λ h b lt i.
        let (ib, nd, e) = v.placed h b lt i in
        (ib, (λ z. nd (sym (devs b) ∙ z)), ap₂ hash_block (devs b) (blocks b) ∙ e);
    complete = λ b ib nd.
        subst (λ h. has b (hs h) ≡ true) (sym (ap₂ hash_block (devs b) (blocks b)))
          (v.complete b ib (λ z. nd (devs b ∙ z)));
    unique = λ b c ib ic nd d n.
        v.unique b c ib ic (λ z. nd (devs b ∙ z)) (sym (devs b) ∙ d ∙ devs c)
          (sym (blocks b) ∙ n ∙ blocks c);
  }

  -- A buffer lies in one chain only.
  pub one_chain :
      (g h b : ℕ)
      → g < hash_size
      → h < hash_size
      → has b (hs h) ≡ true
      → g ≢ h
      → has b (hs g) ≡ false
  one_chain g h b lg lh i ne = elim (Bool-cases (has b (hs g))) [
    | inl j ↦ absurd (ne (sym (v.placed g b lg j).2 ∙ (v.placed h b lh i).2))
    | inr j ↦ j
  ]

module _ {W : Type 0} where
  pub caches_same :
      (s : Cache W) (dev blockno b : ℕ)
      → caches s dev blockno b ≡ true
      → ((s.bufs b).dev ≡ dev) × ((s.bufs b).blockno ≡ blockno)
  caches_same s dev blockno b t = (ground arith, ground arith)

  -- If the hash chains index the buffers, for a device other than NULL and with fuel for more
  -- buffers than the chain of the block has, bcache_lookup returns a buffer that holds the block,
  -- or NULL if no buffer holds it.
  pub lookup_lem :
      (fuel dev blockno : ℕ) (s : Cache W) (bs : List ℕ) (hs : ℕ → List ℕ)
      → IsIndex s.bufs s.qnext s.hash bs hs
      → dev ≢ 0
      → length (hs (hash_block dev blockno)) < fuel
      → (r : ℕ) × (lookup fuel dev blockno s ≡ some r)
        × (((has r bs ≡ true) × (caches s dev blockno r ≡ true) × (r ≢ 0))
            ⊎ ((r ≡ 0) × ((b : ℕ) → has b bs ≡ true → caches s dev blockno b ≡ false)))
  unfolding lookup
  lookup_lem fuel dev blockno s bs hs v nd lt =
      let h = hash_block dev blockno in
      let small = hash_small dev blockno in
      let test = caches s dev blockno in
      (
        first test (hs h),
        find_node-first fuel s.qnext test (s.hash h) (hs h) (v.chain h small) lt,
        elim (first-IsFirst test (hs h)) [
          | inl (i, t) ↦ inl (
            (v.placed h (first test (hs h)) small i).0,
            t,
            Chain-nonzero s.qnext (s.hash h) (first test (hs h)) (hs h) (v.chain h small) i,
          )
          | inr (z, others) ↦ inr (
            z,
            λ b ib. elim (Bool-cases (test b)) [
              | inl t ↦
                  let same = caches_same s dev blockno b t in
                  let listed : has b (hs h) ≡ true =
                    subst (λ g. has b (hs g) ≡ true) (ap₂ hash_block same.0 same.1)
                      (v.complete b ib (λ e. nd (sym same.0 ∙ e))) in
                  absurd (false≢true (sym (others b listed) ∙ t))
              | inr t ↦ t
            ],
          )
        ],
      )
