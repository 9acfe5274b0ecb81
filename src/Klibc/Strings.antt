-- ===== src/Klibc/Strings.antt =====
-- Strings in memory, and `strlen`, `strcpy` and `strcat` on them.
use spinix.Base.{
  ℕ, zero, suc, ◌+◌, ◌≤◌, ◌<◌, ◌≡◌, ap, ◌∙◌, ◌≢◌, ◌⊎◌, inl, false, some, List, [], ◌∷◌, ◌++◌, arith,
  length, ◌==◌, eq→==, ◌>>=◌,
}
use mathlib.Core.Path.{subst}
use spinix.Base.Memory.{update, update_ne, update_self}
use spinix.Klibc.{Bytes, strlen_loop, strlen, strcpy, strcat}

-- The bytes `xs`, none of them 0, stand from `a` on, and a 0 follows.
abbrev pub StringAt : Bytes → ℕ → List ℕ → Type 0
StringAt mem a [] = mem a ≡ 0
StringAt mem a (x ∷ xs) = (mem a ≡ x) × (x ≢ 0) × StringAt mem (a + 1) xs

-- The memories differ at most in [lo, lo + n).
abbrev pub SameOutside : ℕ → ℕ → Bytes → Bytes → Type 0
SameOutside lo n mem mem' = (a : ℕ) → (a < lo) ⊎ (lo + n ≤ a) → mem' a ≡ mem a

pub StringAt-keep :
    (mem mem' : Bytes) (a : ℕ) (xs : List ℕ)
    → ((i : ℕ) → a ≤ i → i ≤ a + length xs → mem' i ≡ mem i)
    → StringAt mem a xs
    → StringAt mem' a xs
StringAt-keep mem mem' a [] same h = same a (omega arith) (omega arith) ∙ h
StringAt-keep mem mem' a (x ∷ xs) same (h, ne, t) = (
  same a (omega arith) (omega arith) ∙ h,
  ne,
  StringAt-keep mem mem' (a + 1) xs (λ i lo hi. same i (omega arith) (omega arith)) t,
)

strlen_loop-length :
    (fuel : ℕ) (mem : Bytes) (a s : ℕ) (xs : List ℕ)
    → StringAt mem (a + s) xs
    → length xs < fuel
    → strlen_loop fuel mem a s ≡ some (s + length xs)
unfolding strlen_loop
strlen_loop-length zero mem a s xs h lt = absurd (omega arith)
strlen_loop-length (suc fuel) mem a s [] h lt = rw (eq→== h) (ap some (omega arith))
strlen_loop-length (suc fuel) mem a s (x ∷ xs) (h, ne, t) lt =
    let more : (mem (a + s) == 0) ≡ false = ground arith in
    let at_next : StringAt mem (a + (s + 1)) xs = subst (λ i. StringAt mem i xs) (omega arith) t in
    rw more (strlen_loop-length fuel mem a (s + 1) xs at_next (omega arith) ∙ ap some (omega arith))

-- For a string of bytes other than 0 with a terminator, and fuel for more bytes than it has, strlen
-- returns the number of its bytes.
pub strlen-length :
    (fuel : ℕ) (mem : Bytes) (a : ℕ) (xs : List ℕ)
    → StringAt mem a xs
    → length xs < fuel
    → strlen fuel mem a ≡ some (length xs)
unfolding strlen
strlen-length fuel mem a xs h lt =
    strlen_loop-length fuel mem a 0 xs (subst (λ i. StringAt mem i xs) (omega arith) h) lt
    ∙ ap some (omega arith)

-- For a string, a place that does not overlap it and fuel for more bytes than it has, strcpy
-- returns with the string and its terminator at the place, and has written nothing else.
pub strcpy_lem :
    (fuel p s : ℕ) (mem : Bytes) (xs : List ℕ)
    → StringAt mem s xs
    → (p + length xs < s) ⊎ (s + length xs < p)
    → length xs < fuel
    → (mem' : Bytes) × (strcpy fuel p s mem ≡ some mem')
      × StringAt mem' p xs
      × SameOutside p (length xs + 1) mem mem'
unfolding strcpy
strcpy_lem zero p s mem xs h apart lt = absurd (omega arith)
strcpy_lem (suc fuel) p s mem [] h apart lt =
    (update mem p 0, rw (eq→== h), update_self mem p 0, ground arith)
strcpy_lem (suc fuel) p s mem (x ∷ xs) (h, ne, t) apart lt =
    let more : (mem s == 0) ≡ false = ground arith in
    let mem1 : Bytes = update mem p (mem s) in
    let t1 : StringAt mem1 (s + 1) xs =
      StringAt-keep mem mem1 (s + 1) xs (λ i lo hi. update_ne mem p i (mem s) (omega arith)) t in
    let (mem', e, copy, same) =
      strcpy_lem fuel (p + 1) (s + 1) mem1 xs t1 (omega arith) (omega arith) in
    (
      mem',
      rw more e,
      (same p (inl (omega arith)) ∙ update_self mem p (mem s) ∙ h, ne, copy),
      λ a out. same a (omega arith) ∙ update_ne mem p a (mem s) (omega arith),
    )

-- A string whose terminator is overwritten by another string is their concatenation.
StringAt-append :
    (mem mem' : Bytes) (a : ℕ) (xs ys : List ℕ)
    → StringAt mem a xs
    → ((i : ℕ) → a ≤ i → i < a + length xs → mem' i ≡ mem i)
    → StringAt mem' (a + length xs) ys
    → StringAt mem' a (xs ++ ys)
StringAt-append mem mem' a [] ys h same t = subst (λ i. StringAt mem' i ys) (omega arith) t
StringAt-append mem mem' a (x ∷ xs) ys (h, ne, t) same u = (
  same a (omega arith) (omega arith) ∙ h,
  ne,
  StringAt-append mem mem' (a + 1) xs ys t (λ i lo hi. same i (omega arith) (omega arith))
      (subst (λ i. StringAt mem' i ys) (omega arith) u),
)

-- For two strings such that the second lies clear of the place where the concatenation ends up, and
-- fuel for more bytes than either has, strcat returns with the concatenation at `dest`, has written
-- nothing outside it, and returns the address of the end of the first string.
pub strcat-append :
    (fuel dest src : ℕ) (mem : Bytes) (xs ys : List ℕ)
    → StringAt mem dest xs
    → StringAt mem src ys
    → (dest + length xs + length ys < src) ⊎ (src + length ys < dest)
    → length xs < fuel
    → length ys < fuel
    → (mem' : Bytes) × (strcat fuel dest src mem ≡ some (dest + length xs, mem'))
      × StringAt mem' dest (xs ++ ys)
      × SameOutside dest (length xs + length ys + 1) mem mem'
unfolding strcat
strcat-append fuel dest src mem xs ys hx hy apart fx fy =
    let (mem', e, copy, same) = strcpy_lem fuel (dest + length xs) src mem ys hy (omega arith) fy in
    (
      mem',
      rw (strlen-length fuel mem dest xs hx fx, ◌>>=◌) (rw (e, ◌>>=◌)),
      StringAt-append mem mem' dest xs ys hx (λ i lo hi. same i (inl hi)) copy,
      λ a out. same a (omega arith),
    )
