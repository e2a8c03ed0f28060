-- ===== src/Bitmap/Scan.antt =====
-- `bitmap_scan` and `bitmap_scan_and_flip` of kernel/bitmap.c: the first group of free or used bits.
use epos_arm.Base.{
  ℕ, zero, suc, ◌+◌, ◌-◌, ◌≤◌, ◌<◌, ◌≡◌, refl, ◌⊎◌, inl, inr, Bool, not, arith, leb, Bool-cases,
}
use mathlib.Core.Path.{subst}
use mathlib.Core.Bool.{not-not}
use epos_arm.Bitmap.{Bitmap, bitmap_error, bitmap_contains, scan_loop, bitmap_scan}
use epos_arm.Bitmap.Groups.{IsGroup, Contains, bitmap_contains_iff}

-- `idx` is the start of the first group of `cnt` bits that are `value`, at or after `start`.
pub record IsFirst (b : Bitmap) (start cnt : ℕ) (value : Bool) (idx : ℕ) : Type 0 where
  pub after : start ≤ idx
  pub fits : idx + cnt ≤ b.bit_cnt
  pub group : IsGroup b idx cnt value
  pub first : (j : ℕ) → start ≤ j → j < idx → Contains b j cnt (not value)

-- No group of `cnt` bits that are `value` starts at or after `start`.
abbrev pub NoGroup : Bitmap → (start cnt : ℕ) → Bool → Type 0
NoGroup b start cnt value = (j : ℕ) → start ≤ j → j + cnt ≤ b.bit_cnt → Contains b j cnt (not value)

module _ (b : Bitmap) (cnt : ℕ) (value : Bool) where
  Blocked : (i j : ℕ) → Type 0
  Blocked i j = (k : ℕ) → i ≤ k → k < j → Contains b k cnt (not value)

  Blocked-step : (i j : ℕ) → Contains b i cnt (not value) → Blocked (i + 1) j → Blocked i j
  unfolding Blocked
  Blocked-step i j c f k p q = elim (here_or_after i k p) [
    | inl e ↦ rw e c
    | inr after ↦ f k after q
  ]
    where
      here_or_after : (i k : ℕ) → i ≤ k → (k ≡ i) ⊎ (i + 1 ≤ k)
      here_or_after i k p = omega arith

  -- The two outcomes of the loop from `i` on.
  Outcome : (i left r : ℕ) → Type 0
  Outcome i left r =
      ((i ≤ r) × (r < i + left) × IsGroup b r cnt value × Blocked i r)
      ⊎ ((r ≡ bitmap_error) × Blocked i (i + left))

  Outcome-step :
      (i left r : ℕ)
      → Contains b i cnt (not value)
      → Outcome (i + 1) left r
      → Outcome i (suc left) r
  unfolding Outcome
  Outcome-step i left r c (inl (p, q, g, f)) =
      inl (omega arith, omega arith, g, Blocked-step i r c f)
  Outcome-step i left r c (inr (e, f)) =
      inr (e, Blocked-step i (i + suc left) c (subst (Blocked (i + 1)) (omega arith) f))

  scan_loop-Outcome : (i left : ℕ) → Outcome i left (scan_loop b cnt value i left)
  unfolding scan_loop Outcome Blocked
  scan_loop-Outcome i zero = inr (refl, λ k p q. absurd (omega arith))
  scan_loop-Outcome i (suc left) = elim (Bool-cases (bitmap_contains b i cnt (not value))) [
    | inl t ↦ rw t (
        Outcome-step i left _ ((bitmap_contains_iff b i cnt (not value)).0.0 t)
          (scan_loop-Outcome (i + 1) left))
    | inr f ↦ rw f (
        inl (
          omega arith,
          omega arith,
          rw not-not at ((bitmap_contains_iff b i cnt (not value)).1.0 f),
          λ k p q. absurd (omega arith),
        ))
  ]

-- `bitmap_scan` returns the first index at or after `start` at which a group of `cnt` bits of the
-- value begins and fits the bitmap, or BITMAP_ERROR if there is none.
pub bitmap_scan-IsFirst :
    (b : Bitmap) (start cnt : ℕ) (value : Bool)
    → IsFirst b start cnt value (bitmap_scan b start cnt value)
      ⊎ ((bitmap_scan b start cnt value ≡ bitmap_error) × NoGroup b start cnt value)
unfolding bitmap_scan Outcome Blocked
bitmap_scan-IsFirst b start cnt value = elim (Bool-cases (leb cnt b.bit_cnt)) [
  | inl fits ↦ rw fits (elim (scan_loop-Outcome b cnt value start (b.bit_cnt - cnt + 1 - start)) [
    | inl (p, q, g, f) ↦ inl (record { after = p; fits = ground arith; group = g; first = f })
    | inr (e, f) ↦ inr (e, λ j p q. f j p (ground arith))
  ])
  | inr long ↦ rw long (inr (refl, λ j p q. absurd (ground arith)))
]
