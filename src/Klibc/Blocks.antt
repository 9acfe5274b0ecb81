-- ===== src/Klibc/Blocks.antt =====
-- `memcpy`, `memset`, `memmove` and `strncpy`: which bytes they write, and with what.
use spinix.Base.{
  ℕ, zero, suc, ◌+◌, ◌%◌, ◌≤◌, ◌<◌, ◌≡◌, refl, ap, ◌∙◌, ◌⊎◌, inl, inr, true, false, Bool-cases,
  List, [], ◌∷◌, arith, length, ltb, ◌==◌, eq→==, ==→eq,
}
use mathlib.Core.Path.{subst}
use spinix.Base.Memory.{update, update_ne, update_self}
use spinix.Klibc.{Bytes, memcpy, memset, memmove_down, memmove, strncpy_pad, strncpy_loop, strncpy}
use spinix.Klibc.Strings.{StringAt, SameOutside, StringAt-keep}

-- `n` bytes from `d` on in the new memory are those from `s` on in the old.
abbrev pub Copied : ℕ → ℕ → ℕ → Bytes → Bytes → Type 0
Copied d s n mem mem' = (i : ℕ) → i < n → mem' (d + i) ≡ mem (s + i)

memcpy_first :
    (c d s : ℕ) (mem mem' : Bytes)
    → (d ≤ s) ⊎ (s + suc c ≤ d)
    → Copied (d + 1) (s + 1) c (update mem d (mem s)) mem'
    → mem' d ≡ update mem d (mem s) d
    → Copied d s (suc c) mem mem'
memcpy_first c d s mem mem' apart copied first zero lt =
    ap mem' (omega arith) ∙ first ∙ update_self mem d (mem s) ∙ ap mem (omega arith)
memcpy_first c d s mem mem' apart copied first (suc i) lt =
    ap mem' (omega arith)
    ∙ copied i (omega arith)
    ∙ update_ne mem d (s + 1 + i) (mem s) (omega arith)
    ∙ ap mem (omega arith)

-- If the destination lies at or below the source, or at or beyond its end, memcpy leaves the
-- source's old bytes at the destination and writes nothing else.
pub memcpy_lem :
    (c d s : ℕ) (mem : Bytes)
    → (d ≤ s) ⊎ (s + c ≤ d)
    → Copied d s c mem (memcpy d s c mem) × SameOutside d c mem (memcpy d s c mem)
unfolding memcpy
memcpy_lem zero d s mem apart = ((λ i lt. absurd (omega arith)), (λ a out. refl))
memcpy_lem (suc c) d s mem apart =
    let mem1 : Bytes = update mem d (mem s) in
    let (copied, same) = memcpy_lem c (d + 1) (s + 1) mem1 (omega arith) in
    (
      memcpy_first c d s mem (memcpy (d + 1) (s + 1) c mem1) apart copied
          (same d (inl (omega arith))),
      λ a out. same a (omega arith) ∙ update_ne mem d a (mem s) (omega arith),
    )

memset_first :
    (n p value : ℕ) (mem' : Bytes)
    → mem' p ≡ value % 256
    → ((i : ℕ) → i < n → mem' (p + 1 + i) ≡ value % 256)
    → (i : ℕ) → i < suc n
    → mem' (p + i) ≡ value % 256
memset_first n p value mem' first filled zero lt = ap mem' (omega arith) ∙ first
memset_first n p value mem' first filled (suc i) lt = ap mem' (omega arith) ∙ filled i (omega arith)

-- memset sets every byte of the block to the low byte of the value and writes nothing else.
pub memset_lem :
    (n p value : ℕ) (mem : Bytes)
    → ((i : ℕ) → i < n → memset p value n mem (p + i) ≡ value % 256)
      × SameOutside p n mem (memset p value n mem)
unfolding memset
memset_lem zero p value mem = ((λ i lt. absurd (omega arith)), (λ a out. refl))
memset_lem (suc n) p value mem =
    let (filled, same) = memset_lem n (p + 1) value (update mem p (value % 256)) in
    (
      memset_first n p value (memset (p + 1) value n (update mem p (value % 256)))
          (same p (inl (omega arith)) ∙ update_self mem p (value % 256)) filled,
      λ a out. same a (omega arith) ∙ update_ne mem p a (value % 256) (omega arith),
    )

memmove_down_lem :
    (c d s : ℕ) (mem : Bytes)
    → s ≤ d
    → Copied (d + 1) (s + 1) c mem (memmove_down d s c mem)
      × SameOutside (d + 1) c mem (memmove_down d s c mem)
unfolding memmove_down
memmove_down_lem zero d s mem le = ((λ i lt. absurd (omega arith)), (λ a out. refl))
memmove_down_lem (suc c) d s mem le =
    let mem1 : Bytes = update mem (d + suc c) (mem (s + suc c)) in
    let mem' = memmove_down d s c mem1 in
    let (copied, same) = memmove_down_lem c d s mem1 le in
    (
      λ i lt. elim (Bool-cases (i == c)) [
        | inl e ↦
            let last : i ≡ c = ==→eq i c e in
            ap mem' (omega arith)
            ∙ same (d + suc c) (inr (omega arith))
            ∙ update_self mem (d + suc c) (mem (s + suc c))
            ∙ ap mem (omega arith)
        | inr ne ↦ copied i (ground arith) ∙ update_ne mem (d + suc c) (s + 1 + i) _ (ground arith)
      ],
      λ a out. same a (omega arith) ∙ update_ne mem (d + suc c) a _ (omega arith),
    )

-- To the same or a higher address memmove moves the block that begins one byte late: the bytes from
-- the source plus 1 on go to the destination plus 1 on, and nothing else is written, the byte at
-- the destination included.
pub memmove_late :
    (c d s : ℕ) (mem : Bytes)
    → s ≤ d
    → Copied (d + 1) (s + 1) c mem (memmove d s c mem)
      × SameOutside (d + 1) c mem (memmove d s c mem)
unfolding memmove
memmove_late c d s mem le =
    let down : ltb d s ≡ false = ground arith in rw down (memmove_down_lem c d s mem le)

-- To a lower address memmove leaves the source's old bytes at the destination, also where the two
-- overlap, and writes nothing else.
pub memmove_lower :
    (c d s : ℕ) (mem : Bytes)
    → d < s
    → Copied d s c mem (memmove d s c mem) × SameOutside d c mem (memmove d s c mem)
unfolding memmove
memmove_lower c d s mem lt =
    let up : ltb d s ≡ true = ground arith in rw up (memcpy_lem c d s mem (omega arith))

-- The second loop of `strncpy` writes zeros.
strncpy_pad_lem :
    (n dest i : ℕ) (mem : Bytes)
    → ((j : ℕ) → i ≤ j → j < i + n → strncpy_pad dest n i mem (dest + j) ≡ 0)
      × SameOutside (dest + i) n mem (strncpy_pad dest n i mem)
unfolding strncpy_pad
strncpy_pad_lem zero dest i mem = ((λ j lo hi. absurd (omega arith)), (λ a out. refl))
strncpy_pad_lem (suc n) dest i mem =
    let (zeros, same) = strncpy_pad_lem n dest (i + 1) (update mem (dest + i) 0) in
    (
      λ j lo hi. elim (Bool-cases (j == i)) [
        | inl e ↦
            let here = ==→eq j i e in
            same (dest + j) (inl (omega arith))
            ∙ ap (update mem (dest + i) 0) (omega arith)
            ∙ update_self mem (dest + i) 0
        | inr ne ↦ zeros j (ground arith) (omega arith)
      ],
      λ a out. same a (omega arith) ∙ update_ne mem (dest + i) a 0 (omega arith),
    )

abbrev pub get_or : List ℕ → ℕ → ℕ → ℕ
get_or [] i d = d
get_or (x ∷ xs) zero d = x
get_or (x ∷ xs) (suc i) d = get_or xs i d

get_or_first :
    (n k x : ℕ) (xs : List ℕ) (mem' : Bytes)
    → mem' k ≡ x
    → ((j : ℕ) → j < n → mem' (k + 1 + j) ≡ get_or xs j 0)
    → (j : ℕ) → j < suc n
    → mem' (k + j) ≡ get_or (x ∷ xs) j 0
get_or_first n k x xs mem' first rest zero lt = ap mem' (omega arith) ∙ first
get_or_first n k x xs mem' first rest (suc j) lt = ap mem' (omega arith) ∙ rest j (omega arith)

-- From the counter `i` on: the rest of the string, then zeros.
strncpy_loop_lem :
    (n dest src i : ℕ) (mem : Bytes) (xs : List ℕ)
    → StringAt mem (src + i) xs
    → (dest + i + n ≤ src + i) ⊎ (src + i + length xs < dest + i)
    → ((j : ℕ) → j < n → strncpy_loop dest src n i mem (dest + i + j) ≡ get_or xs j 0)
      × SameOutside (dest + i) n mem (strncpy_loop dest src n i mem)
unfolding strncpy_loop
strncpy_loop_lem zero dest src i mem xs h apart = ((λ j lt. absurd (omega arith)), (λ a out. refl))
strncpy_loop_lem (suc n) dest src i mem [] h apart =
    let (zeros, same) = strncpy_pad_lem (suc n) dest i mem in
    rw (eq→== h) (
      (λ j lt.
          ap (strncpy_pad dest (suc n) i mem) (omega arith)
          ∙ zeros (i + j) (omega arith) (omega arith)),
      same,
    )
strncpy_loop_lem (suc n) dest src i mem (x ∷ xs) (h, ne, t) apart =
    let mem1 : Bytes = update mem (dest + i) (mem (src + i)) in
    let more : (mem (src + i) == 0) ≡ false = ground arith in
    let t1 : StringAt mem1 (src + (i + 1)) xs =
      StringAt-keep mem mem1 (src + (i + 1)) xs
        (λ k lo hi. update_ne mem (dest + i) k (mem (src + i)) (omega arith))
        (subst (λ k. StringAt mem k xs) (omega arith) t) in
    let (copied, same) = strncpy_loop_lem n dest src (i + 1) mem1 xs t1 (omega arith) in
    let mem' = strncpy_loop dest src n (i + 1) mem1 in
    let first : mem' (dest + i) ≡ x =
      same (dest + i) (inl (omega arith)) ∙ update_self mem (dest + i) (mem (src + i)) ∙ h in
    rw more (
      get_or_first n (dest + i) x xs mem' first (λ j lt. ap mem' (omega arith) ∙ copied j lt),
      λ a out. same a (omega arith) ∙ update_ne mem (dest + i) a (mem (src + i)) (omega arith),
    )

-- For a string and a destination of `n` bytes that does not overlap it and its terminator, strncpy
-- fills exactly those `n` bytes: the bytes of the string as far as it goes, then zeros.
pub strncpy_lem :
    (n dest src : ℕ) (mem : Bytes) (xs : List ℕ)
    → StringAt mem src xs
    → (dest + n ≤ src) ⊎ (src + length xs < dest)
    → ((j : ℕ) → j < n → strncpy dest src n mem (dest + j) ≡ get_or xs j 0)
      × SameOutside dest n mem (strncpy dest src n mem)
unfolding strncpy
strncpy_lem n dest src mem xs h apart =
    let (copied, same) =
      strncpy_loop_lem n dest src 0 mem xs (subst (λ k. StringAt mem k xs) (omega arith) h)
        (omega arith) in
    (
      λ j lt. ap (strncpy_loop dest src n 0 mem) (omega arith) ∙ copied j lt,
      λ a out. same a (omega arith),
    )
