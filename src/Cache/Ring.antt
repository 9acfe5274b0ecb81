-- ===== src/Cache/Ring.antt =====
-- The LRU ring of kernel/blk/bcache.c as a list of buffers, the least recently used one first.
use spinix.Base.{
  ℕ, zero, suc, ◌≡◌, ◌<◌, sym, ◌∙◌, ◌≢◌, Bool, true, false, some, List, [], ◌∷◌, ◌++◌, arith, has,
  has-ne, Distinct, length, ◌==◌, eq→==, has-append, Distinct-append,
}
use mathlib.Core.Path.{subst}
use spinix.Base.Memory.{update, update_ne}
use spinix.Base.Chain.{without, without-Distinct, has-without, has-without_self}
use spinix.Base.Chain.Search.{first}
use spinix.Base.Ring.{Seg, unlink-Seg, prev-ne}
use spinix.Base.Ring.Insert.{insert_back-Seg, insert_front-Seg}
use spinix.Cache.{head, Cache, unlinked_next, unlinked_prev, move_front, move_back, scan}

-- The links run from the head through the buffers and back to it, in both directions.
abbrev pub IsRingOf : (ℕ → ℕ) → (ℕ → ℕ) → List ℕ → Type 0
IsRingOf next prev bs = Seg next prev head bs head × Distinct bs × (has head bs ≡ false)

module _ {W : Type 0} where
  abbrev pub IsRing : Cache W → List ℕ → Type 0
  IsRing s bs = IsRingOf s.next s.prev bs

  module _ (s : Cache W) (bs : List ℕ) (b : ℕ) (v : IsRing s bs) (i : has b bs ≡ true) where
    unlinked-Seg : Seg (unlinked_next s b) (unlinked_prev s b) head (without b bs) head
    unlinked-Seg =
        let (seg, d, out) = v in
        let apart = prev-ne s.next s.prev head bs head b seg d out i in
        let own : unlinked_next s b b ≡ s.next b =
          update_ne s.next (s.prev b) b (s.next b) (λ e. apart (sym e)) in
        subst (λ q. Seg (unlinked_next s b) (update s.prev q (s.prev b)) head (without b bs) head)
          (sym own) (unlink-Seg s.next s.prev head b bs head seg d out out i)

    gone : has b (without b bs) ≡ false
    gone = has-without_self b bs (v.1)

    no_head : has head (without b bs) ≡ false
    no_head = has-without b head bs (v.2)

    other : b ≢ head
    other e = has-ne bs b head i (v.2) e

    -- lru_move_front of a buffer of the ring leaves a ring in which that buffer is the most
    -- recently used one and the others keep their order.
    pub move_front-IsRing : IsRing (move_front b s) (without b bs ++ b ∷ [])
    unfolding move_front
    move_front-IsRing = (
      insert_front-Seg (unlinked_next s b) (unlinked_prev s b) head b (without b bs) head
          unlinked-Seg (without-Distinct b bs (v.1)) no_head no_head gone other other,
      Distinct-append (without b bs) b (without-Distinct b bs (v.1)) gone,
      has-append head (without b bs) (b ∷ []) ∙ ground (arith, no_head),
    )

    -- The list writes of brelse for a buffer of the ring leave a ring in which that buffer is the
    -- least recently used one and the others keep their order.
    pub move_back-IsRing : IsRing (move_back b s) (b ∷ without b bs)
    unfolding move_back
    move_back-IsRing = (
      insert_back-Seg (unlinked_next s b) (unlinked_prev s b) head b (without b bs) head
          unlinked-Seg (without-Distinct b bs (v.1)) no_head no_head gone other other,
      (gone, without-Distinct b bs (v.1)),
      ground (arith, no_head),
    )

-- The scan finds the least recently used buffer that passes the test.
pub scan-first :
    (fuel : ℕ) (next prev : ℕ → ℕ) (test : ℕ → Bool) (a : ℕ) (bs : List ℕ)
    → Seg next prev a bs head
    → has head bs ≡ false
    → length bs < fuel
    → scan fuel prev test (prev a) ≡ some (first test bs)
unfolding scan
scan-first zero next prev test a bs s out lt = absurd (omega arith)
scan-first (suc fuel) next prev test a [] (p, n) out lt = rw (eq→== p)
scan-first (suc fuel) next prev test a (b ∷ bs) (p, n, rest) out lt =
    let ih = scan-first fuel next prev test b bs rest (ground arith) (omega arith) in
    let more : (prev a == head) ≡ false = ground arith in rw more (rw p (ground (arith, ih)))
