-- ===== src/Strings/Chars.antt =====
-- What `strchr` of lib/string.c finds.
use epos_arm.Base.{
  ℕ, zero, suc, ◌+◌, ◌%◌, ◌^◌, ◌≤◌, ◌<◌, ◌≡◌, ◌≢◌, refl, ap, ◌∙◌, ◌⊎◌, inl, inr, some, true, false,
  arith, Bool-cases, ◌==◌,
}
use epos_arm.Strings.{strchr}
use epos_arm.Strings.Ends.{IsString, rest-IsString}

-- `r` is the first place from `s` on, at most `n` bytes behind it, that holds the byte `b`.
pub record IsFirstByte (mem : ℕ → ℕ) (s n b r : ℕ) : Type 0 where
  pub k : ℕ
  pub place : r ≡ s + k
  pub within : k ≤ n
  pub here : mem (s + k) ≡ b
  pub first : (j : ℕ) → j < k → mem (s + j) ≢ b

abbrev pub NoByte : (mem : ℕ → ℕ) → (s n b : ℕ) → Type 0
NoByte mem s n b = (j : ℕ) → j ≤ n → mem (s + j) ≢ b

-- The byte is not at the first place, and not at those behind it.
pub later_none :
    (mem : ℕ → ℕ) (s j b : ℕ)
    → mem s ≢ b
    → ((i : ℕ) → suc i ≡ j → mem (s + 1 + i) ≢ b)
    → mem (s + j) ≢ b
later_none mem s zero b absent later e = absent (ap mem (omega arith) ∙ e)
later_none mem s (suc j) b absent later e = later j refl (ap mem (omega arith) ∙ e)

found_now : (mem : ℕ → ℕ) (s n b : ℕ) → mem s ≡ b → IsFirstByte mem s n b s
found_now mem s n b here = record {
  k = 0;
  place = omega arith;
  within = omega arith;
  here = ap mem (omega arith) ∙ here;
  first = λ j h. absurd (omega arith);
}

found_later :
    (mem : ℕ → ℕ) (s n b r : ℕ)
    → mem s ≢ b
    → IsFirstByte mem (s + 1) n b r
    → IsFirstByte mem s (suc n) b r
found_later mem s n b r absent m = record {
  k = suc m.k;
  place = omega (arith, m.place);
  within = omega (arith, m.within);
  here = ap mem (omega arith) ∙ m.here;
  first = λ j h. later_none mem s j b absent (λ i e. m.first i (omega arith));
}

-- `strchr` of a string, with more fuel than it has bytes, returns the first place that holds the character as a
-- byte, the end of the string included, or NULL if there is none.
strchr-IsFirstByte :
    (mem : ℕ → ℕ) (s n c fuel : ℕ)
    → IsString mem s n
    → n < fuel
    → (r : ℕ) × (strchr mem s c fuel ≡ some r)
      × (IsFirstByte mem s n (c % 2 ^ 8) r ⊎ ((r ≡ 0) × NoByte mem s n (c % 2 ^ 8)))
unfolding strchr
strchr-IsFirstByte mem s n c zero str h = absurd (omega arith)
strchr-IsFirstByte mem s zero c (suc fuel) str h = elim (Bool-cases (mem s == c % 2 ^ 8)) [
  | inl found ↦ rw found (s, refl, inl (found_now mem s zero _ (ground arith)))
  | inr other ↦
      let nul : (mem s == 0) ≡ true = ground (arith, str.nul) in
      rw (other, nul)
        (
          0,
          refl,
          inr (refl, λ j b. later_none mem s j _ (ground arith) (λ i e. absurd (omega arith))),
        )
]
strchr-IsFirstByte mem s (suc n) c (suc fuel) str h = elim (Bool-cases (mem s == c % 2 ^ 8)) [
  | inl found ↦ rw found (s, refl, inl (found_now mem s (suc n) _ (ground arith)))
  | inr other ↦
      let absent : mem s ≢ c % 2 ^ 8 = ground arith in
      let more : (mem s == 0) ≡ false = ground (arith, str.chars 0) in
      let (r, done, outcome) =
        strchr-IsFirstByte mem (s + 1) n c fuel (rest-IsString mem s n str) (omega arith) in
      rw (other, more, done)
        (
          r,
          refl,
          elim outcome [
            | inl m ↦ inl (found_later mem s n _ r absent m)
            | inr (null, none) ↦
                inr (null, λ j b. later_none mem s j _ absent (λ i e. none i (omega arith)))
          ],
        )
]
