-- ===== src/Strings/Copy.antt =====
-- `strcpy` and `strcat` of lib/string.c.
use epos_arm.Base.{
  ℕ, zero, suc, ◌+◌, ◌-◌, ◌<◌, ◌≡◌, refl, ◌⊎◌, true, false, ◌&&◌, some, arith, leb, ◌==◌,
  if◌then◌else◌,
}
use epos_arm.PageTable.{update}
use epos_arm.Strings.{copy_loop, strcpy, strcat, append_at, strlen}
use epos_arm.Strings.Ends.{IsString, rest-IsString, end_loop_lem, strlen_lem}

-- The bytes at `to` are the `n` bytes at `from` and their NUL byte, and all others are as before.
pub IsCopy : (mem : ℕ → ℕ) (to from n : ℕ) (mem' : ℕ → ℕ) → Type 0
IsCopy mem to from n mem' =
    (i : ℕ) → mem' i ≡ (if leb to i && leb i (to + n) then mem (from + (i - to)) else mem i)

-- The copy does not meet the string.
abbrev pub IsApart : (to from n : ℕ) → Type 0
IsApart to from n = (to + n < from) ⊎ (from + n < to)

copy_loop-IsCopy :
    (mem : ℕ → ℕ) (to from n fuel : ℕ)
    → IsString mem from n
    → IsApart to from n
    → n < fuel
    → (mem' : ℕ → ℕ) × (copy_loop mem to from fuel ≡ some mem') × IsCopy mem to from n mem'
unfolding copy_loop update IsCopy
copy_loop-IsCopy mem to from n zero str apart h = absurd (omega arith)
copy_loop-IsCopy mem to from zero (suc fuel) str apart h =
    let e : (mem from == 0) ≡ true = ground (arith, str.nul) in
    rw e (update mem to (mem from), refl, λ i. ground arith)
copy_loop-IsCopy mem to from (suc n) (suc fuel) str apart h =
    let e : (mem from == 0) ≡ false = ground (arith, str.chars 0) in
    let rest = rest-IsString mem from n str in
    let (mem', done, copy) =
      copy_loop-IsCopy (update mem to (mem from)) (to + 1) (from + 1) n fuel
        (record { nul = ground (arith, rest.nul); chars = λ i b. ground (arith, rest.chars i) })
        (omega arith) (omega arith) in
    rw (e, done) (mem', refl, λ i. ground (arith, copy i))

-- `strcpy` of a string of `n` bytes to a place that does not meet it, with more fuel than that, writes the
-- string with its NUL byte and leaves all other bytes.
pub strcpy-IsCopy :
    (mem : ℕ → ℕ) (to from n fuel : ℕ)
    → IsString mem from n
    → IsApart to from n
    → n < fuel
    → (mem' : ℕ → ℕ) × (strcpy mem to from fuel ≡ some mem') × IsCopy mem to from n mem'
unfolding strcpy
strcpy-IsCopy mem to from n fuel str apart h = copy_loop-IsCopy mem to from n fuel str apart h

-- `strcat` of a string of `k` bytes to one of `n`, with room behind that which does not meet the first and
-- fuel for both, copies it there, and leaves a string of `n + k` bytes.
strcat-IsCopy :
    (mem : ℕ → ℕ) (s append n k fuel : ℕ)
    → IsString mem s n
    → IsString mem append k
    → IsApart (s + n) append k
    → n + k < fuel
    → (mem' : ℕ → ℕ) × (strcat mem s append fuel ≡ some mem')
      × IsCopy mem (s + n) append k mem'
      × (strlen mem' s fuel ≡ some (n + k))
unfolding strcat append_at IsCopy
strcat-IsCopy mem s append n k fuel str str' apart h =
    let (mem', done, copy) = copy_loop-IsCopy mem (s + n) append k fuel str' apart (omega arith) in
    rw (end_loop_lem mem s n fuel str (omega arith), done)
      (
        mem',
        refl,
        copy,
        strlen_lem mem' s (n + k) fuel
            (record {
              nul = ground (arith, copy (s + (n + k)), str'.nul);
              chars = λ i b. ground (arith, copy (s + i), str.chars i, str'.chars (i - n));
            })
            h,
      )
