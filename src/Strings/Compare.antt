-- ===== src/Strings/Compare.antt =====
-- `strcmp` of lib/string.c.
use epos_arm.Base.{
  ℕ, zero, suc, ◌+◌, ◌-◌, ◌≤◌, ◌<◌, ◌≡◌, ◌≢◌, refl, ◌⊎◌, inl, inr, true, false, some, arith,
  Bool-cases, ◌==◌,
}
use epos_arm.Base.Word.{ℤ, pos}
use epos_arm.Strings.{byte_difference, strcmp}
use epos_arm.Strings.Ends.{IsString, rest-IsString}

-- The two strings are the same up to the NUL byte, `n` bytes behind.
abbrev pub AreSame : (mem : ℕ → ℕ) (s1 s2 n : ℕ) → Type 0
AreSame mem s1 s2 n = (i : ℕ) → i ≤ n → mem (s1 + i) ≡ mem (s2 + i)

-- The first byte in which the strings differ is `j` bytes behind, and its difference is `r`.
pub record IsDifference (mem : ℕ → ℕ) (s1 s2 n j : ℕ) (r : ℤ) : Type 0 where
  pub bound : j ≤ n
  pub before : (i : ℕ) → i < j → mem (s1 + i) ≡ mem (s2 + i)
  pub differ : mem (s1 + j) ≢ mem (s2 + j)
  pub value : r ≡ byte_difference (mem (s1 + j)) (mem (s2 + j))

first_byte :
    (mem : ℕ → ℕ) (s1 s2 n : ℕ)
    → (mem s1 == mem s2) ≡ false
    → IsDifference mem s1 s2 n 0 (byte_difference (mem s1) (mem s2))
first_byte mem s1 s2 n f =
    let here : s1 + 0 ≡ s1 = omega arith in
    let there : s2 + 0 ≡ s2 = omega arith in
    record {
      bound = omega arith;
      before = λ i b. absurd (omega arith);
      differ = ground arith;
      value = rw (here, there) refl;
    }

later_byte :
    (mem : ℕ → ℕ) (s1 s2 n j : ℕ) (r : ℤ)
    → (mem s1 == mem s2) ≡ true
    → IsDifference mem (s1 + 1) (s2 + 1) n j r
    → IsDifference mem s1 s2 (suc n) (suc j) r
later_byte mem s1 s2 n j r t d =
    let here : s1 + suc j ≡ s1 + 1 + j = omega arith in
    let there : s2 + suc j ≡ s2 + 1 + j = omega arith in
    record {
      bound = omega (arith, d.bound);
      before = λ i b. ground (arith, d.before (i - 1));
      differ = rw (here, there) d.differ;
      value = rw (here, there) d.value;
    }

-- With more fuel than the first string has bytes, `strcmp` returns 0 if the strings are the same, and
-- otherwise the difference of the first two bytes that differ.
strcmp-IsDifference :
    (mem : ℕ → ℕ) (s1 s2 n fuel : ℕ)
    → IsString mem s1 n
    → n < fuel
    → ((strcmp mem s1 s2 fuel ≡ some (pos 0)) × AreSame mem s1 s2 n)
      ⊎ ((j : ℕ) × (r : ℤ) × (strcmp mem s1 s2 fuel ≡ some r) × IsDifference mem s1 s2 n j r)
unfolding strcmp
strcmp-IsDifference mem s1 s2 n zero str h = absurd (omega arith)
strcmp-IsDifference mem s1 s2 zero (suc fuel) str h = elim (Bool-cases (mem s1 == mem s2)) [
  | inr f ↦ rw f (inr (0, _, refl, first_byte mem s1 s2 zero f))
  | inl t ↦
      let nul : (mem s1 == 0) ≡ true = ground (arith, str.nul) in
      rw (t, nul) (inl (refl, λ i b. ground arith))
]
strcmp-IsDifference mem s1 s2 (suc n) (suc fuel) str h = elim (Bool-cases (mem s1 == mem s2)) [
  | inr f ↦ rw f (inr (0, _, refl, first_byte mem s1 s2 (suc n) f))
  | inl t ↦
      let more : (mem s1 == 0) ≡ false = ground (arith, str.chars 0) in
      rw (t, more)
        (elim (strcmp-IsDifference mem (s1 + 1) (s2 + 1) n fuel (rest-IsString mem s1 n str)
          (omega arith)) [
            | inl (done, same) ↦ inl (done, λ i b. ground (arith, same (i - 1)))
            | inr (j, r, done, d) ↦ inr (suc j, r, done, later_byte mem s1 s2 n j r t d)
          ])
]
