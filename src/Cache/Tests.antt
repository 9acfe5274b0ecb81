-- ===== src/Cache/Tests.antt =====
-- The buffer cache of kernel/blk/bcache.c with two buffers: buffer 1 holds block 5 of the device at
-- 100, in hash chain 3; buffer 2 holds none and is the least recently used.
use spinix.Base.{
  ℕ, ◌+◌, ◌≡◌, ◌<◌, ◌≢◌, refl, sym, ◌∙◌, true, false, none, some, List, [], ◌∷◌, arith, has,
  Distinct, length, ◌==◌, ◌&&◌,
}
use mathlib.Core.Path.{subst}
use mathlib.Core.Bool.{false≢true}
use spinix.Base.Int.{pos}
use spinix.Base.Memory.{update, update_both, update_one}
use spinix.Base.Chain.{Chain}
use spinix.Blk.{Ops, Device}
use spinix.Cache.{hash_block, hash_size, Buf, Cache, caches, evict}
use spinix.Cache.Calls.{bread}
use spinix.Cache.Ring.{IsRing}
use spinix.Cache.Index.{IsIndex, hash_of}
use spinix.Cache.Valid.{IsValid, Idle-update, Hits, bread-hit}
use spinix.Cache.Miss.{Misses, bread-miss}
use spinix.Cache.Evict.{Ready, Evicts, Kept, evict-IsValid}

abbrev driver : Ops ℕ
driver = record {
  open_fn = none;
  close_fn = none;
  request_fn = some (λ dev req w. (pos 0, w + 1));
  ioctl_fn = none;
  flush_fn = none;
}

abbrev disk : Device ℕ
disk = record {
  name = [];
  major = 1;
  minor = 0;
  flags = 0;
  block_size = 512;
  num_blocks = 1024;
  ops = some driver;
  open_count = 1;
  next = 0;
}

abbrev blank : Buf
blank = record {
  dev = 0;
  blockno = 0;
  refcnt = 0;
  pincount = 0;
  data_ptr = 8192;
  valid = false;
  dirty = false;
  busy = false;
  locked = false;
}

abbrev block_5 : Buf
block_5 = record blank { dev = 100; blockno = 5; data_ptr = 4096; valid = true }

abbrev next_links : ℕ → ℕ
next_links = update (update (λ q. 257) 257 1) 1 2

abbrev prev_links : ℕ → ℕ
prev_links = update (update (λ q. 257) 257 2) 2 1

abbrev two : Cache ℕ
two = record {
  blk = record { device_list = 100; devs = λ p. disk; world = 0 };
  bufs = update (λ q. blank) 1 block_5;
  next = next_links;
  prev = prev_links;
  qnext = λ q. 0;
  hash = update (λ h. 0) 3 1;
  hits = 0;
  misses = 0;
  evictions = 0;
  writes = 0;
  reads = 0;
}

abbrev ring : List ℕ
ring = 2 ∷ 1 ∷ []

abbrev chains : ℕ → List ℕ
chains = update (λ h. []) 3 (1 ∷ [])

two-IsRing : IsRing two ring
two-IsRing = ((refl, refl, (refl, refl, (refl, refl))), (refl, (refl, tt)), refl)

-- A buffer that holds a block is buffer 1.
holds : (b : ℕ) → (two.bufs b).dev ≢ 0 → b ≡ 1
holds b =
    update_one (λ q (x : Buf). x.dev ≢ 0 → q ≡ 1) (λ q. blank) 1 block_5 (λ _. refl)
      (λ q ne nd. absurd (nd refl)) b

two-IsIndex : IsIndex two.bufs two.qnext two.hash ring chains
unfolding hash_block
two-IsIndex = record {
  chain = λ h lt.
      update_both (λ g w ys. Chain two.qnext w ys) (λ h'. 0) (λ h'. []) 3 1 (1 ∷ [])
        (refl, omega arith, refl) (λ w ne. refl) h;
  distinct =
      λ h lt. update_one (λ g ys. Distinct ys) (λ h'. []) 3 (1 ∷ []) (refl, tt) (λ w ne. tt) h;
  placed = λ h b lt i.
      update_one
        (λ g ys.
          has b ys ≡ true
          → (has b ring ≡ true) × ((two.bufs b).dev ≢ 0) × (hash_of (two.bufs b) ≡ g))
        (λ h'. []) 3 (1 ∷ [])
        (λ j.
          let one : 1 ≡ b = ground arith in
          subst (λ q. (has q ring ≡ true) × ((two.bufs q).dev ≢ 0) × (hash_of (two.bufs q) ≡ 3)) one
            (refl, omega arith, refl))
        (λ g ne j. absurd (false≢true j)) h i;
  complete =
      λ b i nd. subst (λ q. has q (chains (hash_of (two.bufs q))) ≡ true) (sym (holds b nd)) refl;
  unique = λ b c ib ic nd de bl. holds b nd ∙ sym (holds c (λ z. nd (de ∙ z)));
}

two-IsValid : IsValid two ring chains
two-IsValid = record {
  ring = two-IsRing;
  index = two-IsIndex;
  nonzero = refl;
  idle = Idle-update (λ q. blank) 1 block_5 (λ q z. refl) (λ z. refl);
}

short_chains : (h : ℕ) → h < hash_size → length (chains h) < 9
short_chains h lt =
    update_one (λ g ys. length ys < 9) (λ h'. []) 3 (1 ∷ []) (omega arith) (λ g ne. omega arith) h

bread-hit_example :
    (s' : Cache ℕ) × (bread 9 100 5 two ≡ some (1, s'))
    × IsValid s' (2 ∷ 1 ∷ []) chains
    × Hits two 1 s'
unfolding hash_block
bread-hit_example =
    bread-hit 9 100 5 1 two ring chains two-IsValid (omega arith) (omega arith) refl refl refl refl
      (omega arith)

all-Ready : (b : ℕ) → has b ring ≡ true → (two.bufs b).dev ≢ 0 → Ready two (two.bufs b).dev
all-Ready b i nd = (omega arith, refl)

evict-IsValid_example :
    (b : ℕ) × (s' : Cache ℕ) × (hs' : ℕ → List ℕ) × (evict 9 two ≡ some (b, s'))
    × IsValid s' ring hs'
    × (s'.blk.devs ≡ two.blk.devs)
    × Evicts two ring (b, s')
    × Kept two s'
evict-IsValid_example =
    evict-IsValid 9 two ring chains two-IsValid all-Ready (omega arith) short_chains

none_holds : (b : ℕ) → has b ring ≡ true → caches two 100 6 b ≡ false
none_holds b i =
    update_one (λ q (x : Buf). (x.dev == 100 && x.blockno == 6) ≡ false) (λ q. blank) 1 block_5 refl
      (λ q ne. refl) b

bread-miss_example :
    (r : ℕ) × (s' : Cache ℕ) × (bs' : List ℕ) × (hs' : ℕ → List ℕ) × (bread 9 100 6 two
      ≡ some (r, s'))
    × IsValid s' bs' hs'
    × Misses 9 100 6 two ring (r, s')
bread-miss_example =
    bread-miss 9 100 6 two ring chains two-IsValid (omega arith) (omega arith, refl) all-Ready
      (omega arith) short_chains none_holds
