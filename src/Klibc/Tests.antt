-- ===== src/Klibc/Tests.antt =====
-- The functions of kernel/klibc/string.c on a small memory: "ab" at 10, "c" at 20 and "abc" at 30.
use spinix.Base.{ℕ, ◌+◌, ◌≡◌, refl, some, List, [], ◌∷◌, ◌++◌, arith}
use spinix.Base.Memory.{update}
use spinix.Klibc.{Bytes, memcpy, memmove, memmove_down, strcat}
use spinix.Klibc.Strings.{StringAt, SameOutside, strcat-append}
use spinix.Klibc.Blocks.{Copied, memmove_late}

abbrev write_at : ℕ → List ℕ → Bytes → Bytes
write_at a [] mem = mem
write_at a (x ∷ xs) mem = update (write_at (a + 1) xs mem) a x

abbrev ab : List ℕ
ab = 97 ∷ 98 ∷ []

abbrev c_only : List ℕ
c_only = 99 ∷ []

abbrev bytes : Bytes
bytes = write_at 10 ab (write_at 20 c_only (write_at 30 (ab ++ c_only) (λ a. 0)))

ab-StringAt : StringAt bytes 10 ab
ab-StringAt = (refl, omega arith, (refl, omega arith, refl))

c-StringAt : StringAt bytes 20 c_only
c-StringAt = (refl, omega arith, refl)

abc-StringAt : StringAt bytes 30 (ab ++ c_only)
abc-StringAt = (refl, omega arith, (refl, omega arith, (refl, omega arith, refl)))

strcat-append_example :
    (mem' : Bytes) × (strcat 5 10 20 bytes ≡ some (12, mem'))
    × StringAt mem' 10 (97 ∷ 98 ∷ 99 ∷ [])
    × SameOutside 10 4 bytes mem'
strcat-append_example =
    strcat-append 5 10 20 bytes ab c_only ab-StringAt c-StringAt (omega arith) (omega arith)
      (omega arith)

memmove_late_example :
    Copied 32 31 3 bytes (memmove 31 30 3 bytes) × SameOutside 32 3 bytes (memmove 31 30 3 bytes)
memmove_late_example = memmove_late 3 31 30 bytes (omega arith)

-- The move of "abc" up by one byte leaves "a" at 31 out, and writes the byte after the block.
memmove_up_test :
    (memmove 31 30 3 bytes 31 ≡ 98)
    × (memmove 31 30 3 bytes 32 ≡ 98)
    × (memmove 31 30 3 bytes 34 ≡ 0)
unfolding memmove memcpy memmove_down
memmove_up_test = (refl, refl, refl)
