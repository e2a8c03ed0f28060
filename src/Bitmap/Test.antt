-- ===== src/Bitmap/Test.antt =====
-- What `bitmap_test` of kernel/bitmap.c reads.
use epos_arm.Base.{ℕ, zero, suc, ◌*◌, ◌/◌, ◌%◌, ◌^◌, ◌≤◌, ◌<◌, ◌≡◌, Bool, not, arith, ◌==◌}
use epos_arm.Base.Bits.{bit_and-two_pow}
use native.Mathlib.Nat.{pow-le-pow_right, one-le-pow}
use epos_arm.Bitmap.{Bitmap, bit_mask, bitmap_test}

-- Bit `idx` of the array: digit `idx % 32` of element `idx / 32`.
unfoldable pub bit_at : Bitmap → ℕ → Bool
bit_at b idx = b.bits (idx / 32) / 2 ^ (idx % 32) % 2 == 1

two_pow-le : (k : ℕ) → k ≤ 31 → 2 ^ k ≤ 2 ^ 31
two_pow-le k h = pow-le-pow_right (omega arith) h

bit_mask_lem : (idx : ℕ) → bit_mask idx ≡ 2 ^ (idx % 32)
unfolding bit_mask
bit_mask_lem idx = omega (arith, two_pow-le (idx % 32) (omega arith))

digit_test : (d p : ℕ) → d < 2 → 1 ≤ p → not (d * p == 0) ≡ (d == 1)
digit_test zero p h q = ground arith
digit_test (suc zero) p h q = ground arith
digit_test (suc (suc d)) p h q = absurd (omega arith)

-- `bitmap_test` reads digit `idx % 32` of element `idx / 32`.
pub bitmap_test-bit_at : (b : Bitmap) (idx : ℕ) → bitmap_test b idx ≡ bit_at b idx
unfolding bitmap_test bit_at
bitmap_test-bit_at b idx =
    rw (bit_mask_lem, bit_and-two_pow) (digit_test _ _ (omega arith) (one-le-pow _ _ (omega arith)))
