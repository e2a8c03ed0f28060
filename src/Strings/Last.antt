-- ===== src/Strings/Last.antt =====
-- What `strrchr` of lib/string.c finds, and what `strncpy` leaves.
use epos_arm.Base.{
  ℕ, zero, suc, ◌+◌, ◌-◌, ◌%◌, ◌^◌, ◌≤◌, ◌<◌, ◌≡◌, ◌≢◌, refl, ap, ◌∙◌, ◌⊎◌, inl, inr, some, true,
  false, ◌&&◌, arith, Bool-cases, ◌==◌, leb, ltb, if◌then◌else◌,
}
use epos_arm.PageTable.{update}
use epos_arm.Strings.{strrchr, strrchr_loop, strncpy, strncpy_loop, pad}
use epos_arm.Strings.Chars.{NoByte, later_none}
use epos_arm.Strings.Ends.{IsString, rest-IsString}

-- `r` is the last place from `s` on, at most `n` bytes behind it, that holds the byte `b`.
pub record IsLastByte (mem : ℕ → ℕ) (s n b r : ℕ) : Type 0 where
  pub k : ℕ
  pub place : r ≡ s + k
  pub within : k ≤ n
  pub here : mem (s + k) ≡ b
  pub last : (j : ℕ) → k < j → j ≤ n → mem (s + j) ≢ b

-- The byte at the first place, and nowhere behind it.
last_now :
    (mem : ℕ → ℕ) (s n b : ℕ)
    → mem s ≡ b
    → ((j : ℕ) → j < n → mem (s + 1 + j) ≢ b)
    → IsLastByte mem s n b s
last_now mem s n b here absent = record {
  k = 0;
  place = omega arith;
  within = omega arith;
  here = ap mem (omega arith) ∙ here;
  last = λ j h h' e. absent (j - 1) (omega arith) (ap mem (omega arith) ∙ e);
}

last_later :
    (mem : ℕ → ℕ) (s n b r : ℕ) → IsLastByte mem (s + 1) n b r → IsLastByte mem s (suc n) b r
last_later mem s n b r m = record {
  k = suc m.k;
  place = omega (arith, m.place);
  within = omega (arith, m.within);
  here = ap mem (omega arith) ∙ m.here;
  last = λ j h h' e. m.last (j - 1) (omega arith) (omega arith) (ap mem (omega arith) ∙ e);
}

strrchr_loop-IsLastByte :
    (mem : ℕ → ℕ) (s n c last fuel : ℕ)
    → IsString mem s n
    → n < fuel
    → (r : ℕ) × (strrchr_loop mem s c last fuel ≡ some r)
      × (IsLastByte mem s n (c % 2 ^ 8) r ⊎ ((r ≡ last) × NoByte mem s n (c % 2 ^ 8)))
unfolding strrchr_loop
strrchr_loop-IsLastByte mem s n c last zero str h = absurd (omega arith)
strrchr_loop-IsLastByte mem s zero c last (suc fuel) str h =
    let nul : (mem s == 0) ≡ true = ground (arith, str.nul) in
    elim (Bool-cases (mem s == c % 2 ^ 8)) [
      | inl found ↦
          rw (nul, found)
            (s, refl, inl (last_now mem s 0 _ (ground arith) (λ j b. absurd (omega arith))))
      | inr other ↦
          rw (nul, other)
            (
              last,
              refl,
              inr (refl, λ j b. later_none mem s j _ (ground arith) (λ i e. absurd (omega arith))),
            )
    ]
strrchr_loop-IsLastByte mem s (suc n) c last (suc fuel) str h =
    let more : (mem s == 0) ≡ false = ground (arith, str.chars 0) in
    let behind = strrchr_loop-IsLastByte mem (s + 1) n c in
    elim (Bool-cases (mem s == c % 2 ^ 8)) [
      | inl found ↦
          let (r, done, outcome) = behind s fuel (rest-IsString mem s n str) (omega arith) in
          rw (more, found, done)
            (
              r,
              refl,
              elim outcome [
                | inl m ↦ inl (last_later mem s n _ r m)
                | inr (at, none) ↦
                    rw at
                      (inl (last_now mem s (suc n) _ (ground arith) (λ j b. none j (omega arith))))
              ],
            )
      | inr other ↦
          let absent : mem s ≢ c % 2 ^ 8 = ground arith in
          let (r, done, outcome) = behind last fuel (rest-IsString mem s n str) (omega arith) in
          rw (more, other, done)
            (
              r,
              refl,
              elim outcome [
                | inl m ↦ inl (last_later mem s n _ r m)
                | inr (same, none) ↦
                    inr (same, λ j b. later_none mem s j _ absent (λ i e. none i (omega arith)))
              ],
            )
    ]

-- `strrchr` of a string, with more fuel than it has bytes, returns the last place that holds the character as a
-- byte, the end of the string included, or NULL if there is none.
strrchr-IsLastByte :
    (mem : ℕ → ℕ) (s n c fuel : ℕ)
    → IsString mem s n
    → n < fuel
    → (r : ℕ) × (strrchr mem s c fuel ≡ some r)
      × (IsLastByte mem s n (c % 2 ^ 8) r ⊎ ((r ≡ 0) × NoByte mem s n (c % 2 ^ 8)))
unfolding strrchr
strrchr-IsLastByte mem s n c fuel str h = strrchr_loop-IsLastByte mem s n c 0 fuel str h

pad_lem :
    (mem : ℕ → ℕ) (to left i : ℕ)
    → pad mem to left i ≡ (if leb to i && ltb i (to + left) then 0 else mem i)
unfolding pad update
pad_lem mem to zero i = ground arith
pad_lem mem to (suc left) i = ground (arith, pad_lem (update mem to 0) (to + 1) left i)

-- The byte at `a` once `left` bytes at `to` are the `m` bytes at `from`, with NUL bytes behind them.
abbrev padded : (mem : ℕ → ℕ) (to from left m a : ℕ) → ℕ
padded mem to from left m a =
    if leb to a && ltb a (to + left)
    then (if ltb (a - to) m then mem (from + (a - to)) else 0)
    else mem a

padded-suc :
    (mem : ℕ → ℕ) (to from left m a : ℕ)
    → (to + suc left ≤ from) ⊎ (from + suc m < to)
    → padded (update mem to (mem from)) (to + 1) (from + 1) left m a
      ≡ padded mem to from (suc left) (suc m) a
unfolding update
padded-suc mem to from left m a apart = elim (Bool-cases (a == to)) [
  | inl here ↦ let same : a ≡ to = ground (arith, here) in ground (arith, same)
  | inr other ↦ ground arith
]

strncpy_loop_lem :
    (mem : ℕ → ℕ) (dest src i left m a : ℕ)
    → IsString mem (src + i) m
    → (dest + i + left ≤ src + i) ⊎ (src + i + m < dest + i)
    → strncpy_loop mem dest src i left a ≡ padded mem (dest + i) (src + i) left m a
unfolding strncpy_loop update
strncpy_loop_lem mem dest src i zero m a str apart = ground arith
strncpy_loop_lem mem dest src i (suc left) zero a str apart =
    ground (arith, str.nul, pad_lem mem (dest + i) (suc left) a)
strncpy_loop_lem mem dest src i (suc left) (suc m) a str apart =
    let mem' = update mem (dest + i) (mem (src + i)) in
    let more : (mem (src + i) == 0) ≡ false = ground (arith, str.chars 0) in
    let str' = rest-IsString mem (src + i) m str in
    let to : dest + (i + 1) ≡ dest + i + 1 = omega arith in
    let from : src + (i + 1) ≡ src + i + 1 = omega arith in
    let rest : IsString mem' (src + (i + 1)) m =
      rw from
        (record { nul = ground (arith, str'.nul); chars = λ j b. ground (arith, str'.chars j) }) in
    rw more (
      strncpy_loop_lem mem' dest src (i + 1) left m a rest (omega arith)
      ∙ rw (to, from) (padded-suc mem (dest + i) (src + i) left m a apart))

-- `strncpy` of a string of `m` bytes to `n` bytes that do not meet it writes the string to these, cut off or with NUL
-- bytes behind it, and leaves all other bytes.
strncpy_lem :
    (mem : ℕ → ℕ) (dest src n m a : ℕ)
    → IsString mem src m
    → (dest + n ≤ src) ⊎ (src + m < dest)
    → strncpy mem dest src n a ≡ (
        if leb dest a && ltb a (dest + n)
        then (if ltb (a - dest) m then mem (src + (a - dest)) else 0)
        else mem a)
unfolding strncpy
strncpy_lem mem dest src n m a str apart =
    let to : dest + 0 ≡ dest = omega arith in
    let from : src + 0 ≡ src = omega arith in
    strncpy_loop_lem mem dest src 0 n m a (rw from str) (omega arith) ∙ rw (to, from) refl
