-- ===== src/Strings.antt =====
-- lib/string.c: the functions on bytes of memory and on strings. Memory is a function from an address to
-- a byte, and an address does not wrap: no object lies across the end of memory. A `char` is unsigned,
-- as it is on the target. A loop that ends at a NUL byte runs on fuel, and `none` is too little of it.
pub mod Memory
pub mod Search
pub mod Chars
pub mod Last
pub mod Ends
pub mod Copy
pub mod Compare
pub mod Prefix
use epos_arm.Base.{
  ℕ, zero, suc, ◌+◌, ◌-◌, ◌*◌, ◌%◌, ◌^◌, Bool, true, false, not, Option, none, some, ltb, leb, ◌==◌,
  if◌then◌else◌, ◌>>=◌,
}
use mathlib.Core.Option
use epos_arm.Base.Word.{ℤ, pos, negsuc}
use epos_arm.Base.Word.{ℤ, pos, negsuc}
use epos_arm.PageTable.{update}

-- The loop, and the value of `len` where it ends.
unfoldable pub memcmp : (mem : ℕ → ℕ) → (b1 b2 len : ℕ) → ℕ
memcmp mem b1 b2 zero = 0
memcmp mem b1 b2 (suc n) =
    let rest = memcmp mem (b1 + 1) (b2 + 1) n in if not (mem b1 == mem b2) then suc n else rest

-- `*tmp++ = *s++`, `count` times.
pub copy_up : (mem : ℕ → ℕ) → (tmp s count : ℕ) → ℕ → ℕ
unfolding update
copy_up mem tmp s zero = mem
copy_up mem tmp s (suc count) = copy_up (update mem tmp (mem s)) (tmp + 1) (s + 1) count

-- `*--tmp = *--s`, `count` times.
pub copy_down : (mem : ℕ → ℕ) → (tmp s count : ℕ) → ℕ → ℕ
unfolding update
copy_down mem tmp s zero = mem
copy_down mem tmp s (suc count) =
    copy_down (update mem (tmp - 1) (mem (s - 1))) (tmp - 1) (s - 1) count

pub memmove : (mem : ℕ → ℕ) → (dest src count : ℕ) → ℕ → ℕ
unfolding copy_up copy_down
memmove mem dest src count =
    if leb dest src
    then copy_up mem dest src count
    else copy_down mem (dest + count) (src + count) count

-- The address of the first byte `c` among `n`; 0 is NULL.
unfoldable pub memchr : (mem : ℕ → ℕ) → (s c n : ℕ) → ℕ
memchr mem s c zero = 0
memchr mem s c (suc n) = let rest = memchr mem (s + 1) c n in if c % 2 ^ 8 == mem s then s else rest

-- `for(; *s; ++s)`: the address where it ends.
unfoldable pub end_loop : (mem : ℕ → ℕ) → (s fuel : ℕ) → Option ℕ
end_loop mem s zero = none
end_loop mem s (suc fuel) =
    let rest = end_loop mem (s + 1) fuel in if mem s == 0 then some s else rest

unfoldable pub strlen : (mem : ℕ → ℕ) → (str fuel : ℕ) → Option ℕ
unfolding end_loop
strlen mem str fuel = Option.map (λ s. s - str) (end_loop mem str fuel)

-- `while((*s++ = *append++) != 0)`, also the loop of `strcpy`.
pub copy_loop : (mem : ℕ → ℕ) → (to from fuel : ℕ) → Option (ℕ → ℕ)
unfolding update
copy_loop mem to from zero = none
copy_loop mem to from (suc fuel) =
    let mem' = update mem to (mem from) in
    let rest = copy_loop mem' (to + 1) (from + 1) fuel in if mem from == 0 then some mem' else rest

pub strcpy : (mem : ℕ → ℕ) → (to from fuel : ℕ) → Option (ℕ → ℕ)
unfolding copy_loop
strcpy mem to from fuel = copy_loop mem to from fuel

pub append_at : (mem : ℕ → ℕ) → (append fuel : ℕ) → Option ℕ → Option (ℕ → ℕ)
unfolding copy_loop
append_at mem append fuel none = none
append_at mem append fuel (some s) = copy_loop mem s append fuel

pub strcat : (mem : ℕ → ℕ) → (s append fuel : ℕ) → Option (ℕ → ℕ)
unfolding end_loop append_at
strcat mem s append fuel = append_at mem append fuel (end_loop mem s fuel)

-- `a - b` of two bytes, as an `int`.
unfoldable pub byte_difference : ℕ → ℕ → ℤ
byte_difference a b = if leb b a then pos (a - b) else negsuc (b - a - 1)

unfoldable pub strcmp : (mem : ℕ → ℕ) → (s1 s2 fuel : ℕ) → Option ℤ
unfolding byte_difference
strcmp mem s1 s2 zero = none
strcmp mem s1 s2 (suc fuel) =
    let rest = strcmp mem (s1 + 1) (s2 + 1) fuel in
    if mem s1 == mem s2
    then (if mem s1 == 0 then some (pos 0) else rest)
    else some (byte_difference (mem s1) (mem s2))

unfoldable pub strncmp : (mem : ℕ → ℕ) → (cs ct count : ℕ) → ℤ
strncmp mem cs ct zero = pos 0
strncmp mem cs ct (suc count) =
    let rest = strncmp mem (cs + 1) (ct + 1) count in
    if not (mem cs == mem ct)
    then (if ltb (mem cs) (mem ct) then negsuc 0 else pos 1)
    else (if mem cs == 0 then pos 0 else rest)

-- 0 is NULL, here and below.
unfoldable pub strchr : (mem : ℕ → ℕ) → (s c fuel : ℕ) → Option ℕ
strchr mem s c zero = none
strchr mem s c (suc fuel) =
    let rest = strchr mem (s + 1) c fuel in
    if not (mem s == c % 2 ^ 8) then (if mem s == 0 then some 0 else rest) else some s

pub strrchr_loop : (mem : ℕ → ℕ) → (s c last fuel : ℕ) → Option ℕ
strrchr_loop mem s c last zero = none
strrchr_loop mem s c last (suc fuel) =
    let last' = if mem s == c % 2 ^ 8 then s else last in
    let rest = strrchr_loop mem (s + 1) c last' fuel in if mem s == 0 then some last' else rest

unfoldable pub strrchr : (mem : ℕ → ℕ) → (s c fuel : ℕ) → Option ℕ
unfolding strrchr_loop
strrchr mem s c fuel = strrchr_loop mem s c 0 fuel

-- The loop of `strstr` with `l1` bytes left in the first string and `l2`, not 0, in the second.
pub strstr_loop : (mem : ℕ → ℕ) → (s1 s2 l2 l1 : ℕ) → ℕ
unfolding memcmp
strstr_loop mem s1 s2 l2 zero = 0
strstr_loop mem s1 s2 l2 (suc l1) =
    let rest = strstr_loop mem (s1 + 1) s2 l2 l1 in
    if leb l2 (suc l1) then (if memcmp mem s1 s2 l2 == 0 then s1 else rest) else 0

unfoldable pub strstr : (mem : ℕ → ℕ) → (s1 s2 fuel : ℕ) → Option ℕ
unfolding strstr_loop
strstr mem s1 s2 fuel = strlen mem s2 fuel >>= λ l2.
    if l2 == 0 then some s1 else Option.map (strstr_loop mem s1 s2 l2) (strlen mem s1 fuel)

-- `dest[i] = '\0'` up to the end.
pub pad : (mem : ℕ → ℕ) → (to left : ℕ) → ℕ → ℕ
unfolding update
pad mem to zero = mem
pad mem to (suc left) = pad (update mem to 0) (to + 1) left

-- The loops of `strncpy` at `i`, with `left` bytes to go.
pub strncpy_loop : (mem : ℕ → ℕ) → (dest src i left : ℕ) → ℕ → ℕ
unfolding update pad
strncpy_loop mem dest src i zero = mem
strncpy_loop mem dest src i (suc left) =
    let rest = strncpy_loop (update mem (dest + i) (mem (src + i))) dest src (i + 1) left in
    if not (mem (src + i) == 0) then rest else pad mem (dest + i) (suc left)

unfoldable pub strncpy : (mem : ℕ → ℕ) → (dest src n : ℕ) → ℕ → ℕ
unfolding strncpy_loop
strncpy mem dest src n = strncpy_loop mem dest src 0 n
