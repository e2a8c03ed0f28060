-- ===== src/Bitmap/Writes.antt =====
-- What the functions of kernel/bitmap.c that set, clear and flip bits leave in the bitmap.
use epos_arm.Base.{ℕ, zero, suc, ◌+◌, ◌*◌, ◌/◌, ◌%◌, ◌^◌, ◌≡◌, refl, Bool, true, false, not, arith}
use native.Mathlib.Nat.{zero-div}
use epos_arm.Bitmap.Test.{bit_at}
use epos_arm.Base.Word.{u32}
use epos_arm.Bitmap.{
  Bitmap, bitmap_mark, bitmap_reset, bitmap_set, set_multiple_loop, bitmap_set_multiple,
  bitmap_set_all, bitmap_scan, bitmap_scan_and_flip, bitmap_create_in_buf, bitmap_size,
}

set_lem : (b : Bitmap) (idx : ℕ) (value : Bool) → bitmap_set b idx value ≡ b
unfolding bitmap_set bitmap_mark bitmap_reset
set_lem b idx true = refl
set_lem b idx false = refl

set_multiple_loop_lem :
    (b : Bitmap) (start : ℕ) (value : Bool) (i left : ℕ)
    → set_multiple_loop b start value i left ≡ b
unfolding set_multiple_loop
set_multiple_loop_lem b start value i zero = refl
set_multiple_loop_lem b start value i (suc left) =
    rw set_lem (set_multiple_loop_lem b start value (i + 1) left)

-- `bitmap_set_multiple` leaves every bit as it is.
pub bitmap_set_multiple_lem :
    (b : Bitmap) (start cnt : ℕ) (value : Bool) → bitmap_set_multiple b start cnt value ≡ b
unfolding bitmap_set_multiple
bitmap_set_multiple_lem b start cnt value = set_multiple_loop_lem b start value 0 cnt

-- The elements of a bitmap created in a buffer are what memory held there.
pub bitmap_create_in_buf_lem :
    (mem : ℕ → ℕ) (bit_cnt block : ℕ)
    → bitmap_create_in_buf mem bit_cnt block
      ≡ record { bit_cnt = bit_cnt; bits = λ i. mem (u32 (block + 8 + 4 * i)) }
unfolding bitmap_create_in_buf bitmap_set_all bitmap_size
bitmap_create_in_buf_lem mem bit_cnt block = bitmap_set_multiple_lem _ 0 bit_cnt false

-- A bitmap created in a buffer of zeros has every bit clear.
pub bitmap_create_in_buf_clear :
    (mem : ℕ → ℕ) (bit_cnt block k : ℕ)
    → ((a : ℕ) → mem a ≡ 0)
    → bit_at (bitmap_create_in_buf mem bit_cnt block) k ≡ false
unfolding bit_at
bitmap_create_in_buf_clear mem bit_cnt block k zeros =
    rw bitmap_create_in_buf_lem
      (ground (arith, zeros (u32 (block + 8 + 4 * (k / 32))), zero-div (2 ^ (k % 32))))

-- Bits that `bitmap_scan_and_flip` has found and is to flip stay as they are: the same call made
-- again finds the same index and leaves the same bitmap.
pub bitmap_scan_and_flip_again :
    (b : Bitmap) (start cnt : ℕ) (value : Bool)
    → bitmap_scan_and_flip (bitmap_scan_and_flip b start cnt value).0 start cnt value
      ≡ bitmap_scan_and_flip b start cnt value
unfolding bitmap_scan_and_flip
bitmap_scan_and_flip_again b start cnt value =
    ground (arith, bitmap_set_multiple_lem b (bitmap_scan b start cnt value) cnt (not value))
