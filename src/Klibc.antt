-- ===== src/Klibc.antt =====
-- kernel/klibc/string.c: the string and memory functions, over a memory of bytes. A pointer is an
-- address, a function that writes returns the new memory, and a loop that runs to a terminator
-- takes fuel (`none` when it runs out). `rep movsb` and `rep stosb` go upwards byte by byte.
pub mod Strings
pub mod Compare
pub mod Blocks
mod Tests
use spinix.Base.{
  ℕ, zero, suc, ◌+◌, ◌-◌, ◌*◌, ◌%◌, ◌&&◌, not, Bool, true, false, Option, none, some, ltb, leb,
  ◌==◌, if◌then◌else◌, ◌>>=◌,
}
use spinix.Base.Int.{ℤ, pos, negsuc, sub_ℕ, ◌+ℤ◌, ◌-ℤ◌, is_zero}
use spinix.Base.Memory.{update}

abbrev pub Bytes : Type 0
Bytes = ℕ → ℕ

-- A byte as a signed `char`.
abbrev pub schar : ℕ → ℤ
schar b = if ltb b 128 then pos b else negsuc (255 - b)

unfoldable pub memcpy : ℕ → ℕ → ℕ → Bytes → Bytes
memcpy d s zero mem = mem
memcpy d s (suc c) mem = memcpy (d + 1) (s + 1) c (update mem d (mem s))

unfoldable pub memset : ℕ → ℕ → ℕ → Bytes → Bytes
memset p value zero mem = mem
memset p value (suc n) mem = memset (p + 1) value n (update mem p (value % 256))

-- `s` is the counter of the loop.
unfoldable pub strlen_loop : ℕ → Bytes → ℕ → ℕ → Option ℕ
strlen_loop zero mem a s = none
strlen_loop (suc fuel) mem a s =
    let rest = strlen_loop fuel mem a (s + 1) in if mem (a + s) == 0 then some s else rest

unfoldable pub strlen : ℕ → Bytes → ℕ → Option ℕ
unfolding strlen_loop
strlen fuel mem a = strlen_loop fuel mem a 0

unfoldable pub strcpy : ℕ → ℕ → ℕ → Bytes → Option Bytes
strcpy zero p s mem = none
strcpy (suc fuel) p s mem =
    let rest = strcpy fuel (p + 1) (s + 1) (update mem p (mem s)) in
    if mem s == 0 then some (update mem p 0) else rest

-- The pointer returned is the moved `dest`.
unfoldable pub strcat : ℕ → ℕ → ℕ → Bytes → Option (ℕ × Bytes)
strcat fuel dest src mem = do
  n ← strlen fuel mem dest
  mem' ← strcpy fuel (dest + n) src mem
  some (dest + n, mem')

-- The second loop of `strncpy`: `n` rounds are left, `i` is the counter.
unfoldable pub strncpy_pad : ℕ → ℕ → ℕ → Bytes → Bytes
strncpy_pad dest zero i mem = mem
strncpy_pad dest (suc n) i mem = strncpy_pad dest n (i + 1) (update mem (dest + i) 0)

-- The first loop, and what follows when it stops.
unfoldable pub strncpy_loop : ℕ → ℕ → ℕ → ℕ → Bytes → Bytes
unfolding strncpy_pad
strncpy_loop dest src zero i mem = mem
strncpy_loop dest src (suc n) i mem =
    let rest = strncpy_loop dest src n (i + 1) (update mem (dest + i) (mem (src + i))) in
    if mem (src + i) == 0 then strncpy_pad dest (suc n) i mem else rest

unfoldable pub strncpy : ℕ → ℕ → ℕ → Bytes → Bytes
unfolding strncpy_loop
strncpy dest src n mem = strncpy_loop dest src n 0 mem

unfoldable pub strcmp : ℕ → Bytes → ℕ → ℕ → Option ℤ
strcmp zero mem a b = none
strcmp (suc fuel) mem a b =
    let rest = strcmp fuel mem (a + 1) (b + 1) in
    if not (mem a == 0) && (mem a == mem b) then rest else some (sub_ℕ (mem a) (mem b))

unfoldable pub strncmp_loop : Bytes → ℕ → ℕ → ℕ → ℤ → ℤ
strncmp_loop mem a b zero diff = diff
strncmp_loop mem a b (suc c) diff =
    let rest = strncmp_loop mem (a + 1) (b + 1) c (diff +ℤ (schar (mem a) -ℤ schar (mem b))) in
    if is_zero diff && not (mem a == 0) then rest else diff

unfoldable pub strncmp : Bytes → ℕ → ℕ → ℕ → ℤ
unfolding strncmp_loop
strncmp mem a b c = strncmp_loop mem a b c (pos 0)

unfoldable pub memcmp_loop : Bytes → ℕ → ℕ → ℕ → ℤ → ℤ
memcmp_loop mem a b zero diff = diff
memcmp_loop mem a b (suc s) diff =
    let rest = memcmp_loop mem (a + 1) (b + 1) s (diff +ℤ sub_ℕ (mem a) (mem b)) in
    if is_zero diff then rest else diff

unfoldable pub memcmp : Bytes → ℕ → ℕ → ℕ → ℤ
unfolding memcmp_loop
memcmp mem a b s = memcmp_loop mem a b s (pos 0)

-- The loop of `memmove`, with the indices of the source.
unfoldable pub memmove_down : ℕ → ℕ → ℕ → Bytes → Bytes
memmove_down d s zero mem = mem
memmove_down d s (suc c) mem = memmove_down d s c (update mem (d + suc c) (mem (s + suc c)))

unfoldable pub memmove : ℕ → ℕ → ℕ → Bytes → Bytes
unfolding memcpy memmove_down
memmove d s c mem = if ltb d s then memcpy d s c mem else memmove_down d s c mem

-- A result of 0 is NULL.
unfoldable pub strchr : ℕ → Bytes → ℕ → ℕ → Option ℕ
strchr zero mem s c = none
strchr (suc fuel) mem s c =
    let rest = strchr fuel mem (s + 1) c in
    if mem s == 0 then some (if c == 0 then s else 0) else if mem s == c % 256 then some s else rest
