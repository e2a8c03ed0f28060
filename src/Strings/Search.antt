-- ===== src/Strings/Search.antt =====
-- What `strstr` of lib/string.c finds.
use epos_arm.Base.{
  ℕ, zero, suc, ◌+◌, ◌≤◌, ◌<◌, ◌≡◌, refl, ◌⊎◌, inl, inr, some, false, arith, Bool-cases, leb, ◌==◌,
}
use mathlib.Core.Path.{subst}
use epos_arm.Strings.{memcmp, strstr_loop, strstr}
use epos_arm.Strings.Memory.{memcmp_iff}
use epos_arm.Strings.Ends.{IsString, strlen_lem}

-- The `n` bytes at `a` are those at `b`.
abbrev pub Occurs : (mem : ℕ → ℕ) → (b n a : ℕ) → Type 0
Occurs mem b n a = (i : ℕ) → i < n → mem (a + i) ≡ mem (b + i)

-- `r` is the first place among the `l1` bytes at `s1` where the `l2` bytes at `s2` are.
pub record IsFirstMatch (mem : ℕ → ℕ) (s1 l1 s2 l2 r : ℕ) : Type 0 where
  pub k : ℕ
  pub place : r ≡ s1 + k
  pub fits : k + l2 ≤ l1
  pub here : Occurs mem s2 l2 r
  pub first : (j : ℕ) → j < k → ¬ Occurs mem s2 l2 (s1 + j)

-- There is no such place.
abbrev pub NoMatch : (mem : ℕ → ℕ) → (s1 l1 s2 l2 : ℕ) → Type 0
NoMatch mem s1 l1 s2 l2 = (j : ℕ) → j + l2 ≤ l1 → ¬ Occurs mem s2 l2 (s1 + j)

module _ (mem : ℕ → ℕ) (s2 l2 : ℕ) where
  Occurs-at : (a b : ℕ) → a ≡ b → Occurs mem s2 l2 a → Occurs mem s2 l2 b
  Occurs-at a b e m = subst (Occurs mem s2 l2) e m

  -- No match at the first place and none behind it.
  later_none :
      (s1 j : ℕ)
      → (¬ Occurs mem s2 l2 s1)
      → ((i : ℕ) → suc i ≡ j → ¬ Occurs mem s2 l2 (s1 + 1 + i))
      → ¬ Occurs mem s2 l2 (s1 + j)
  later_none s1 zero absent later m = absent (Occurs-at (s1 + 0) s1 (omega arith) m)
  later_none s1 (suc j) absent later m =
      later j refl (Occurs-at (s1 + suc j) (s1 + 1 + j) (omega arith) m)

  later_match :
      (s1 l1 r : ℕ)
      → (¬ Occurs mem s2 l2 s1)
      → IsFirstMatch mem (s1 + 1) l1 s2 l2 r
      → IsFirstMatch mem s1 (suc l1) s2 l2 r
  later_match s1 l1 r absent m = record {
    k = suc m.k;
    place = omega (arith, m.place);
    fits = omega (arith, m.fits);
    here = m.here;
    first = λ j h. later_none s1 j absent (λ i e. m.first i (omega arith));
  }

  strstr_loop-IsFirstMatch :
      (l1 s1 : ℕ)
      → 0 < l2
      → IsFirstMatch mem s1 l1 s2 l2 (strstr_loop mem s1 s2 l2 l1)
        ⊎ ((strstr_loop mem s1 s2 l2 l1 ≡ 0) × NoMatch mem s1 l1 s2 l2)
  unfolding strstr_loop
  strstr_loop-IsFirstMatch zero s1 some_bytes = inr (refl, λ j h. absurd (omega arith))
  strstr_loop-IsFirstMatch (suc l1) s1 some_bytes = elim (Bool-cases (leb l2 (suc l1))) [
    | inr short ↦ rw short (inr (refl, λ j h. absurd (ground arith)))
    | inl fits ↦ elim (Bool-cases (memcmp mem s1 s2 l2 == 0)) [
      | inl same ↦
          let equal : memcmp mem s1 s2 l2 ≡ 0 = ground arith in
          rw (fits, same)
            (inl (record {
              k = 0;
              place = omega arith;
              fits = ground arith;
              here = (memcmp_iff mem s1 s2 l2).0 equal;
              first = λ j h. absurd (omega arith);
            }))
      | inr differ ↦
          let absent : ¬ Occurs mem s2 l2 s1 =
            λ m. let equal = (memcmp_iff mem s1 s2 l2).1 m in ground arith in
          rw (fits, differ)
            (elim (strstr_loop-IsFirstMatch l1 (s1 + 1) some_bytes) [
              | inl m ↦ inl (later_match s1 l1 _ absent m)
              | inr (null, none) ↦
                  inr (null, λ j h. later_none s1 j absent (λ i e. none i (omega arith)))
            ])
    ]
  ]

-- `strstr` of two strings, with more fuel than either has bytes, returns the first place where the second occurs in
-- the first, or NULL if there is none.
pub strstr-IsFirstMatch :
    (mem : ℕ → ℕ) (s1 n1 s2 n2 fuel : ℕ)
    → IsString mem s1 n1
    → IsString mem s2 n2
    → n1 < fuel
    → n2 < fuel
    → (r : ℕ) × (strstr mem s1 s2 fuel ≡ some r)
      × (IsFirstMatch mem s1 n1 s2 n2 r ⊎ ((r ≡ 0) × NoMatch mem s1 n1 s2 n2))
unfolding strstr
strstr-IsFirstMatch mem s1 n1 s2 zero fuel a b h1 h2 = (
  s1,
  rw (strlen_lem mem s2 zero fuel b h2) refl,
  inl (record {
    k = 0;
    place = omega arith;
    fits = omega arith;
    here = λ i h. absurd (omega arith);
    first = λ j h. absurd (omega arith);
  }),
)
strstr-IsFirstMatch mem s1 n1 s2 (suc n2) fuel a b h1 h2 =
    let some_bytes : (suc n2 == 0) ≡ false = ground arith in
    (
      strstr_loop mem s1 s2 (suc n2) n1,
      rw (strlen_lem mem s2 (suc n2) fuel b h2, some_bytes, strlen_lem mem s1 n1 fuel a h1) refl,
      strstr_loop-IsFirstMatch mem s2 (suc n2) n1 s1 (omega arith),
    )
