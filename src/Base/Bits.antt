-- ===== src/Base/Bits.antt =====
-- Facts about `&` and `|` at variables: one equation for the lowest digit, then single bits, masks
-- and disjoint fields.
use Prim.Native.Nat.{ℕ, zero, suc, ◌+◌, ◌-◌, ◌*◌, ◌/◌, ◌%◌, ◌^◌, ◌≤◌, ◌<◌, min, max, digits}
use Prim.Native.Nat.{bitwise, bit_and, bit_or, bit_and-bitwise, bit_or-bitwise}
use mathlib.Core.Path.{◌≡◌, refl, ap, ◌∙◌}
use mathlib.Core.Logic.{◌⊎◌, inl, inr}
use native.Mathlib.Nat.{pow-suc, one-le-pow, div-div-eq-div-mul, div-one, mul-one}
use native.Mathlib.Omega.{arith}

module _ (rest : ℕ → ℕ) (op : ℕ → ℕ → ℕ) where
  -- One round more than the first number has digits changes nothing.
  digits_more :
      (rounds a b : ℕ) → a ≤ rounds → digits rest op (suc rounds) a b ≡ digits rest op rounds a b
  digits_more zero a b h = let nothing : a ≡ 0 = omega arith in rw nothing
  digits_more (suc rounds) zero b h = refl
  digits_more (suc rounds) (suc a) b h = rw (digits_more rounds (suc a / 2) (b / 2) (omega arith))

  digits_enough :
      (more rounds a b : ℕ)
      → a ≤ rounds
      → rounds ≤ more
      → digits rest op more a b ≡ digits rest op rounds a b
  digits_enough zero rounds a b h le = let nothing : rounds ≡ 0 = omega arith in rw nothing
  digits_enough (suc more) rounds a b h le = elim (last_or_before le) [
    | inl last ↦ rw last
    | inr before ↦ digits_more more a b (omega arith) ∙ digits_enough more rounds a b h before
  ]
    where
      last_or_before : rounds ≤ suc more → (rounds ≡ suc more) ⊎ (rounds ≤ more)
      last_or_before le = omega arith

  low_digit :
      (a b : ℕ)
      → 0 < a
      → bitwise rest op a b ≡ bitwise rest op (a / 2) (b / 2) * 2 + op (a % 2) (b % 2)
  low_digit zero b h = absurd (omega arith)
  low_digit (suc n) b h =
      let half = suc n / 2 in
      ap (λ (t : ℕ). t * 2 + op (suc n % 2) (b % 2))
        (digits_enough n half half (b / 2) (omega arith) (omega arith))

pub bit_or_step : (a b : ℕ) → bit_or a b ≡ bit_or (a / 2) (b / 2) * 2 + max (a % 2) (b % 2)
bit_or_step zero b = omega (arith, bit_or-bitwise 0 b, bit_or-bitwise 0 (b / 2))
bit_or_step (suc n) b =
    rw (bit_or-bitwise, bit_or-bitwise) (low_digit (λ y. y) max (suc n) b (omega arith))

pub bit_and_step : (a b : ℕ) → bit_and a b ≡ bit_and (a / 2) (b / 2) * 2 + min (a % 2) (b % 2)
bit_and_step zero b = omega (arith, bit_and-bitwise 0 b, bit_and-bitwise 0 (b / 2))
bit_and_step (suc n) b =
    rw (bit_and-bitwise, bit_and-bitwise) (low_digit (λ y. zero) min (suc n) b (omega arith))

bit_and-zero_below : (n a : ℕ) → a ≤ n → bit_and a 0 ≡ 0
bit_and-zero_below n zero h = refl
bit_and-zero_below zero (suc a) h = absurd (omega arith)
bit_and-zero_below (suc n) (suc a) h =
    omega (arith, bit_and_step (suc a) 0, bit_and-zero_below n (suc a / 2) (omega arith))

pub bit_and-zero : (a : ℕ) → bit_and a 0 ≡ 0
bit_and-zero a = bit_and-zero_below a a (omega arith)

bit_or-zero_below : (n a : ℕ) → a ≤ n → bit_or a 0 ≡ a
bit_or-zero_below n zero h = refl
bit_or-zero_below zero (suc a) h = absurd (omega arith)
bit_or-zero_below (suc n) (suc a) h =
    omega (arith, bit_or_step (suc a) 0, bit_or-zero_below n (suc a / 2) (omega arith))

pub bit_or-zero : (a : ℕ) → bit_or a 0 ≡ a
bit_or-zero a = bit_or-zero_below a a (omega arith)

-- A shift by one digit more.
pub double_shift : (q k : ℕ) → q * 2 ^ suc k ≡ 2 * (q * 2 ^ k)
double_shift q k = omega (arith, ap (λ (t : ℕ). q * t) (pow-suc 2 k))

pub div-two_pow-suc : (a k : ℕ) → a / 2 ^ suc k ≡ a / 2 / 2 ^ k
div-two_pow-suc a k = rw (div-div-eq-div-mul, two-mul-two_pow k)
  where
    two-mul-two_pow : (k : ℕ) → 2 * 2 ^ k ≡ 2 ^ suc k
    two-mul-two_pow k = omega (arith, pow-suc 2 k)

-- A mask whose `k` low digits are clear.
pub bit_and_shift : (k a m : ℕ) → bit_and a (m * 2 ^ k) ≡ bit_and (a / 2 ^ k) m * 2 ^ k
bit_and_shift zero a m = ground (arith, div-one a, mul-one m, mul-one (bit_and a m))
bit_and_shift (suc k) a m = ground (
  arith,
  bit_and_step a (m * 2 ^ suc k),
  double_shift m k,
  double_shift (bit_and (a / 2 ^ suc k) m) k,
  bit_and_shift k (a / 2) m,
  div-two_pow-suc a k,
)

bit_and-one : (a : ℕ) → bit_and a 1 ≡ a % 2
bit_and-one a = omega (arith, bit_and_step a 1, bit_and-zero (a / 2))

-- `a & (1 << k)` keeps the one digit.
pub bit_and-two_pow : (k a : ℕ) → bit_and a (2 ^ k) ≡ a / 2 ^ k % 2 * 2 ^ k
bit_and-two_pow k a =
    rw (← bit_and-one (a / 2 ^ k), ← bit_and_shift k a 1) (ap (bit_and a) (omega arith))

-- `(q << k) | r` is a sum when `r` fits `k` digits.
pub bit_or_fields : (k q r : ℕ) → r < 2 ^ k → bit_or (q * 2 ^ k) r ≡ q * 2 ^ k + r
bit_or_fields zero q r fits = let none : r ≡ 0 = omega arith in ground (arith, bit_or-zero q, none)
bit_or_fields (suc k) q r fits = ground (
  arith,
  bit_or_step (q * 2 ^ suc k) r,
  double_shift q k,
  bit_or_fields k q (r / 2) (omega (arith, pow-suc 2 k)),
)

bit_and_fields : (k q r : ℕ) → r < 2 ^ k → bit_and (q * 2 ^ k + r) (2 ^ k - 1) ≡ r
bit_and_fields zero q r fits = rw bit_and-zero (omega arith)
bit_and_fields (suc k) q r fits = ground (
  arith,
  bit_and_step (q * 2 ^ suc k + r) (2 ^ suc k - 1),
  double_shift q k,
  pow-suc 2 k,
  one-le-pow k 2,
  bit_and_fields k q (r / 2) (omega (arith, pow-suc 2 k)),
)

-- A mask of `k` low digits is the remainder by `2 ^ k`.
pub bit_and_mask : (k a : ℕ) → bit_and a (2 ^ k - 1) ≡ a % 2 ^ k
bit_and_mask k a = ground (arith, one-le-pow k 2, bit_and_fields k (a / 2 ^ k) (a % 2 ^ k))
