-- ===== src/Klibc/Compare.antt =====
-- `strcmp`, `strncmp` and `memcmp`, against comparisons of lists of bytes.
use spinix.Base.{
  ℕ, zero, suc, ◌+◌, ◌<◌, ◌≡◌, refl, ap, ◌∙◌, ◌≢◌, ◌↔◌, inl, inr, false, Bool-cases, some, List, [],
  ◌∷◌, ◌++◌, arith, length, ◌==◌, eq→==, ==→eq, ==→ne, if◌then◌else◌,
}
use mathlib.Core.Path.{ap₂}
use spinix.Base.Int.{ℤ, pos, sub_ℕ, ◌+ℤ◌, ◌-ℤ◌}
use spinix.Klibc.{Bytes, schar, strcmp, strncmp_loop, strncmp, memcmp_loop, memcmp}
use spinix.Klibc.Strings.{StringAt}

-- The sign of the comparison of two strings: the first difference decides, the end counts as 0.
pub compare_strings : List ℕ → List ℕ → ℤ
compare_strings [] [] = pos 0
compare_strings [] (y ∷ ys) = sub_ℕ 0 y
compare_strings (x ∷ xs) [] = pos x
compare_strings (x ∷ xs) (y ∷ ys) = if x == y then compare_strings xs ys else sub_ℕ x y

strcmp-compare :
    (fuel : ℕ) (mem : Bytes) (a b : ℕ) (xs ys : List ℕ)
    → StringAt mem a xs
    → StringAt mem b ys
    → length xs < fuel
    → strcmp fuel mem a b ≡ some (compare_strings xs ys)
unfolding strcmp compare_strings
strcmp-compare zero mem a b xs ys hx hy lt = absurd (omega arith)
strcmp-compare (suc fuel) mem a b [] [] hx hy lt = ground arith
strcmp-compare (suc fuel) mem a b [] (y ∷ ys) hx (hy, _, _) lt = ground arith
strcmp-compare (suc fuel) mem a b (x ∷ xs) [] (hx, ne, _) hy lt = ground arith
strcmp-compare (suc fuel) mem a b (x ∷ xs) (y ∷ ys) (hx, ne, tx) (hy, _, ty) lt =
    ground (arith, strcmp-compare fuel mem (a + 1) (b + 1) xs ys tx ty)

compare_strings-zero :
    (mem : Bytes) (a b : ℕ) (xs ys : List ℕ)
    → StringAt mem a xs
    → StringAt mem b ys
    → (compare_strings xs ys ≡ pos 0) ↔ (xs ≡ ys)
unfolding compare_strings
compare_strings-zero mem a b [] [] hx hy = ((λ _. refl), (λ _. refl))
compare_strings-zero mem a b [] (y ∷ ys) hx (hy, ne, _) = ((λ h. absurd (ground arith)), (λ e. cc))
compare_strings-zero mem a b (x ∷ xs) [] (hx, ne, _) hy = ((λ h. absurd (ground arith)), (λ e. cc))
compare_strings-zero mem a b (x ∷ xs) (y ∷ ys) (hx, ne, tx) (hy, _, ty) =
    let (down, up) = compare_strings-zero mem (a + 1) (b + 1) xs ys tx ty in
    (
      λ h. elim (Bool-cases (x == y)) [
        | inl e ↦
            let rest : compare_strings xs ys ≡ pos 0 = ground arith in
            ap₂ ◌∷◌ (==→eq x y e) (down rest)
        | inr e ↦ absurd (ground arith)
      ],
      λ e. let same : x ≡ y = cc in let rest : xs ≡ ys = cc in rw (eq→== same) (up rest),
    )

-- On two strings, with fuel for more bytes than the first has, strcmp returns, and returns 0
-- exactly when the strings are equal.
pub strcmp-zero :
    (fuel : ℕ) (mem : Bytes) (a b : ℕ) (xs ys : List ℕ)
    → StringAt mem a xs
    → StringAt mem b ys
    → length xs < fuel
    → (r : ℤ) × (strcmp fuel mem a b ≡ some r) × ((r ≡ pos 0) ↔ (xs ≡ ys))
strcmp-zero fuel mem a b xs ys hx hy lt = (
  compare_strings xs ys,
  strcmp-compare fuel mem a b xs ys hx hy lt,
  compare_strings-zero mem a b xs ys hx hy,
)

-- The bytes from `a` and from `b` on agree, `n` of them.
abbrev pub SameBytes : Bytes → ℕ → ℕ → ℕ → Type 0
SameBytes mem a b n = (i : ℕ) → i < n → mem (a + i) ≡ mem (b + i)

step_zero : (x y : ℕ) → x ≡ y → pos 0 +ℤ sub_ℕ x y ≡ pos 0
unfolding ◌+ℤ◌
step_zero x y e = ground arith

step_zero_iff : (x y : ℕ) → pos 0 +ℤ sub_ℕ x y ≡ pos 0 → x ≡ y
unfolding ◌+ℤ◌
step_zero_iff x y e = ground arith

-- Once a difference is found, the loop of `memcmp` keeps it.
memcmp_loop-keep :
    (mem : Bytes) (a b n : ℕ) (diff : ℤ) → diff ≢ pos 0 → memcmp_loop mem a b n diff ≡ diff
unfolding memcmp_loop
memcmp_loop-keep mem a b zero diff ne = refl
memcmp_loop-keep mem a b (suc n) diff ne = ground arith

SameBytes-suc :
    (mem : Bytes) (a b n : ℕ)
    → mem a ≡ mem b
    → SameBytes mem (a + 1) (b + 1) n
    → SameBytes mem a b (suc n)
SameBytes-suc mem a b n e same zero lt = ap mem (omega arith) ∙ e ∙ ap mem (omega arith)
SameBytes-suc mem a b n e same (suc i) lt =
    ap mem (omega arith) ∙ same i (omega arith) ∙ ap mem (omega arith)

SameBytes-first : (mem : Bytes) (a b n : ℕ) → SameBytes mem a b (suc n) → mem a ≡ mem b
SameBytes-first mem a b n same = ap mem (omega arith) ∙ same 0 (omega arith) ∙ ap mem (omega arith)

SameBytes-rest :
    (mem : Bytes) (a b n : ℕ) → SameBytes mem a b (suc n) → SameBytes mem (a + 1) (b + 1) n
SameBytes-rest mem a b n same i lt =
    ap mem (omega arith) ∙ same (suc i) (omega arith) ∙ ap mem (omega arith)

memcmp_loop-zero :
    (mem : Bytes) (a b n : ℕ) → (memcmp_loop mem a b n (pos 0) ≡ pos 0) ↔ SameBytes mem a b n
unfolding memcmp_loop
memcmp_loop-zero mem a b zero = ((λ _ i lt. absurd (omega arith)), (λ _. refl))
memcmp_loop-zero mem a b (suc n) = elim (Bool-cases (mem a == mem b)) [
  | inl e ↦
      let same = ==→eq (mem a) (mem b) e in
      let (down, up) = memcmp_loop-zero mem (a + 1) (b + 1) n in
      rw (step_zero (mem a) (mem b) same)
        ((λ h. SameBytes-suc mem a b n same (down h)), (λ h. up (SameBytes-rest mem a b n h)))
  | inr e ↦
      let differ : pos 0 +ℤ sub_ℕ (mem a) (mem b) ≢ pos 0 =
        λ z. ==→ne (mem a) (mem b) e (step_zero_iff (mem a) (mem b) z) in
      rw (memcmp_loop-keep mem (a + 1) (b + 1) n _ differ) (
        (λ h. absurd (differ h)),
        (λ h. absurd (==→ne (mem a) (mem b) e (SameBytes-first mem a b n h))),
      )
]

-- memcmp returns 0 exactly when the given number of bytes agree.
pub memcmp-zero : (mem : Bytes) (a b n : ℕ) → (memcmp mem a b n ≡ pos 0) ↔ SameBytes mem a b n
unfolding memcmp
memcmp-zero mem a b n = memcmp_loop-zero mem a b n

schar_cancel : (x : ℕ) → pos 0 +ℤ (schar x -ℤ schar x) ≡ pos 0
unfolding ◌+ℤ◌ ◌-ℤ◌
schar_cancel x = ground arith

strncmp_loop-prefix :
    (c : ℕ) (mem : Bytes) (a b : ℕ) (xs : List ℕ) (y : ℕ) (ys : List ℕ)
    → StringAt mem a xs
    → StringAt mem b (xs ++ y ∷ ys)
    → strncmp_loop mem a b c (pos 0) ≡ pos 0
unfolding strncmp_loop
strncmp_loop-prefix zero mem a b xs y ys hx hy = refl
strncmp_loop-prefix (suc c) mem a b [] y ys hx hy = rw (eq→== hx)
strncmp_loop-prefix (suc c) mem a b (x ∷ xs) y ys (hx, ne, tx) (hy, _, ty) =
    let more : (mem a == 0) ≡ false = ground arith in
    rw (more, hx, hy, schar_cancel x) (strncmp_loop-prefix c mem (a + 1) (b + 1) xs y ys tx ty)

-- If the second string is the first followed by at least one more byte, strncmp returns 0 for every
-- bound.
strncmp-prefix :
    (mem : Bytes) (a b c : ℕ) (xs : List ℕ) (y : ℕ) (ys : List ℕ)
    → StringAt mem a xs
    → StringAt mem b (xs ++ y ∷ ys)
    → strncmp mem a b c ≡ pos 0
unfolding strncmp
strncmp-prefix mem a b c xs y ys hx hy = strncmp_loop-prefix c mem a b xs y ys hx hy
