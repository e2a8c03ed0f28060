-- ===== src/Strings/Prefix.antt =====
-- `strncmp` of lib/string.c beside `strcmp`.
use mathlib.Core.Option
use epos_arm.Base.{
  ℕ, zero, suc, ◌+◌, ◌-◌, ◌<◌, ◌≡◌, ◌≢◌, refl, ap, inl, inr, true, false, some, arith, Bool-cases,
  ◌==◌, ltb, if◌then◌else◌,
}
use epos_arm.Base.Word.{ℤ, pos, negsuc}
use epos_arm.Strings.{byte_difference, strcmp, strncmp}
use epos_arm.Strings.Ends.{IsString, rest-IsString}

-- 1, 0 or -1.
unfoldable pub sign : ℤ → ℤ
sign (pos zero) = pos 0
sign (pos (suc n)) = pos 1
sign (negsuc n) = negsuc 0

sign-byte_difference :
    (a b : ℕ) → a ≢ b → sign (byte_difference a b) ≡ (if ltb a b then negsuc 0 else pos 1)
unfolding byte_difference
sign-byte_difference a b ne = elim (Bool-cases (ltb a b)) [
  | inl less ↦ unfold sign in ground (arith, less)
  | inr more ↦
      let up : a - b ≡ suc (a - b - 1) = ground (arith, ne, more) in
      rw (more, up) (unfold sign in ground (arith, more))
]

-- For a string shorter than the count, and more fuel than it has bytes, `strncmp` returns the sign of what
-- `strcmp` returns.
pub strncmp-strcmp :
    (mem : ℕ → ℕ) (s1 s2 n count fuel : ℕ)
    → IsString mem s1 n
    → n < count
    → n < fuel
    → Option.map sign (strcmp mem s1 s2 fuel) ≡ some (strncmp mem s1 s2 count)
unfolding strcmp strncmp
strncmp-strcmp mem s1 s2 n zero fuel str h h' = absurd (omega arith)
strncmp-strcmp mem s1 s2 n (suc count) zero str h h' = absurd (omega arith)
strncmp-strcmp mem s1 s2 zero (suc count) (suc fuel) str h h' =
    elim (Bool-cases (mem s1 == mem s2)) [
      | inr f ↦ rw f (ap some (sign-byte_difference (mem s1) (mem s2) (ground arith)))
      | inl t ↦
          let nul : (mem s1 == 0) ≡ true = ground (arith, str.nul) in
          rw (t, nul) (unfold sign in refl)
    ]
strncmp-strcmp mem s1 s2 (suc n) (suc count) (suc fuel) str h h' =
    elim (Bool-cases (mem s1 == mem s2)) [
      | inr f ↦ rw f (ap some (sign-byte_difference (mem s1) (mem s2) (ground arith)))
      | inl t ↦
          let more : (mem s1 == 0) ≡ false = ground (arith, str.chars 0) in
          rw (t, more)
            (strncmp-strcmp mem (s1 + 1) (s2 + 1) n count fuel (rest-IsString mem s1 n str)
              (omega arith) (omega arith))
    ]
