-- ===== src/Uart/Digits.antt =====
-- The characters that `IntToString` and `HexToString` of kernel/uart.c write.
use epos_arm.Base.{
  ℕ, zero, suc, ◌+◌, ◌-◌, ◌*◌, ◌/◌, ◌%◌, ◌^◌, ◌≤◌, ◌<◌, ◌≡◌, refl, ◌⊎◌, arith, leb, if◌then◌else◌,
  bit_and,
}
use native.Mathlib.Nat.{pow-suc}
use epos_arm.Base.Bits.{bit_and_mask}
use epos_arm.PageTable.{update}
use epos_arm.Uart.{int_loop, int_to_string, hex_digit, hex_loop, hex_to_string}

-- The number that `n` decimal digits at `a` read.
unfoldable pub decimal : (mem : ℕ → ℕ) → (a n : ℕ) → ℕ
decimal mem a zero = 0
decimal mem a (suc n) = decimal mem a n * 10 + (mem (a + n) - 0x30)

-- The value of a hexadecimal digit.
unfoldable pub digit_value : ℕ → ℕ
digit_value c = if leb c 0x39 then c - 0x30 else c - 0x41 + 10

-- The number that `n` hexadecimal digits at `a` read.
unfoldable pub hexadecimal : (mem : ℕ → ℕ) → (a n : ℕ) → ℕ
hexadecimal mem a zero = 0
hexadecimal mem a (suc n) = hexadecimal mem a n * 16 + digit_value (mem (a + n))

-- `IntToString` writes the last four decimal digits of the value, and nothing else.
pub decimal-int_to_string :
    (mem : ℕ → ℕ) (value a : ℕ)
    → (decimal (int_to_string mem value a) a 4 ≡ value % 10000)
      × ((i : ℕ) → (i < a) ⊎ (a + 4 ≤ i) → int_to_string mem value a i ≡ mem i)
unfolding decimal int_to_string int_loop update
decimal-int_to_string mem value a = (ground arith, λ i h. ground arith)

digit_value-hex_digit : (t : ℕ) → t < 16 → digit_value (hex_digit t) ≡ t
unfolding digit_value hex_digit
digit_value-hex_digit t h = ground arith

hex_loop-outside :
    (mem : ℕ → ℕ) (a value n i : ℕ)
    → (i < a + 2) ⊎ (a + 2 + n ≤ i)
    → hex_loop mem a value n i ≡ mem i
unfolding hex_loop update
hex_loop-outside mem a value zero i h = refl
hex_loop-outside mem a value (suc n) i h = ground (
  arith,
  hex_loop-outside (update mem (a + 2 + n) (hex_digit (bit_and value 0xf))) a (value / 2 ^ 4) n i,
)

hexadecimal-hex_loop :
    (mem : ℕ → ℕ) (a value n : ℕ)
    → value < 16 ^ n
    → hexadecimal (hex_loop mem a value n) (a + 2) n ≡ value
unfolding hexadecimal hex_loop update
hexadecimal-hex_loop mem a value zero h = omega arith
hexadecimal-hex_loop mem a value (suc n) h =
    let mem' = update mem (a + 2 + n) (hex_digit (bit_and value 0xf)) in
    ground (
      arith,
      pow-suc 16 n,
      hexadecimal-hex_loop mem' a (value / 2 ^ 4) n,
      hex_loop-outside mem' a (value / 2 ^ 4) n (a + 2 + n),
      bit_and_mask 4 value,
      digit_value-hex_digit (bit_and value 0xf),
    )

-- `HexToString` of a 32-bit value writes "0x" and eight digits that read as the value, and nothing else.
pub hexadecimal-hex_to_string :
    (mem : ℕ → ℕ) (value a : ℕ)
    → value < 2 ^ 32
    → let mem' = hex_to_string mem value a in
      (mem' a ≡ 0x30)
      × (mem' (a + 1) ≡ 0x78)
      × (hexadecimal mem' (a + 2) 8 ≡ value)
      × ((i : ℕ) → (i < a) ⊎ (a + 10 ≤ i) → mem' i ≡ mem i)
unfolding hex_to_string
hexadecimal-hex_to_string mem value a h =
    let prefix = update (update mem a 0x30) (a + 1) 0x78 in
    (
      ground (arith, hex_loop-outside prefix a value 8 a),
      ground (arith, hex_loop-outside prefix a value 8 (a + 1)),
      hexadecimal-hex_loop prefix a value 8 h,
      λ i o. ground (arith, hex_loop-outside prefix a value 8 i),
    )
