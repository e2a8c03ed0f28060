-- ===== src/Base/Fields.antt =====
-- A single bit cleared at a variable place, and a variable number of low bits.
use Prim.Native.Nat.{ℕ, zero, suc, ◌+◌, ◌-◌, ◌*◌, ◌/◌, ◌%◌, ◌^◌, ◌≤◌, ◌<◌, bit_and}
use mathlib.Core.Path.{◌≡◌, sym, ap, ◌∙◌}
use native.Mathlib.Nat.{
  pow-suc, mul-one, one-le-pow, mod-eq_of_lt, pow-le-pow_right, div-lt_iff_lt-mul,
}
use native.Mathlib.Omega.{arith}
use epos_arm.Base.Bits.{bit_and_step, bit_and_mask, bit_and_shift, double_shift}

pub two_pow_le : (i j : ℕ) → i ≤ j → 2 ^ i ≤ 2 ^ j
two_pow_le i j h = pow-le-pow_right (omega arith) h

pub lt_of_two_pow : (i j : ℕ) → 2 ^ i < 2 ^ j → i < j
lt_of_two_pow i j h = ground (arith, two_pow_le j i)

-- `& ~(1 << j)` clears a bit that is set, in words of `n` bits.
pub bit_and_clear :
    (j n q : ℕ)
    → j < n
    → q * 2 ^ suc j + 2 ^ j < 2 ^ n
    → bit_and (q * 2 ^ suc j + 2 ^ j) (2 ^ n - 1 - 2 ^ j) ≡ q * 2 ^ suc j
bit_and_clear j zero q less h = absurd (omega arith)
bit_and_clear zero (suc n) q less h = ground (
  arith,
  bit_and_step (q * 2 + 1) (2 ^ suc n - 1 - 1),
  bit_and_mask n q,
  low_part q (2 ^ n),
  pow-suc 2 n,
  one-le-pow n 2,
)
  where
    low_part : (q m : ℕ) → q < m → q % m ≡ q
    low_part q m h = mod-eq_of_lt h
bit_and_clear (suc j) (suc n) q less h = ground (
  arith,
  bit_and_step (q * 2 ^ suc (suc j) + 2 ^ suc j) (2 ^ suc n - 1 - 2 ^ suc j),
  double_shift q (suc j),
  double_shift q j,
  pow-suc 2 j,
  pow-suc 2 n,
  one-le-pow n 2,
  one-le-pow j 2,
  two_pow_le (suc j) n,
  bit_and_clear j n q,
)

two_pow_add : (j k : ℕ) → 2 ^ (j + k) ≡ 2 ^ j * 2 ^ k
two_pow_add j zero = ap (λ (i : ℕ). 2 ^ i) (omega arith) ∙ sym (mul-one (2 ^ j))
two_pow_add j (suc k) =
    ap (λ (i : ℕ). 2 ^ i) (omega arith)
    ∙ pow-suc 2 (j + k)
    ∙ omega (arith, two_pow_add j k)
    ∙ sym (double_shift (2 ^ j) k)

one_less : (a b : ℕ) → 1 ≤ a → (a - 1) * b + b ≡ a * b
one_less zero b h = absurd (omega arith)
one_less (suc a) b h = grind arith

round_mask : (k j : ℕ) → 2 ^ (j + k) - 2 ^ k ≡ (2 ^ j - 1) * 2 ^ k
round_mask k j =
    omega (arith, two_pow_add j k, one_less (2 ^ j) (2 ^ k) (one-le-pow j 2 (omega arith)))

-- `& ~((1 << k) - 1)` rounds a word of `j + k` bits down to a multiple.
pub bit_and_round :
    (k j a : ℕ) → a < 2 ^ (j + k) → bit_and a (2 ^ (j + k) - 2 ^ k) ≡ a / 2 ^ k * 2 ^ k
bit_and_round k j a small =
    ap (bit_and a) (round_mask k j)
    ∙ bit_and_shift k a (2 ^ j - 1)
    ∙ ap (λ (t : ℕ). t * 2 ^ k) (bit_and_mask j (a / 2 ^ k) ∙ mod-eq_of_lt fits)
  where
    fits : a / 2 ^ k < 2 ^ j
    fits = (div-lt_iff_lt-mul (one-le-pow k 2 (omega arith))).1 (rw (← two_pow_add j k) small)
