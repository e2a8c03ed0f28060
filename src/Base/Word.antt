-- ===== src/Base/Word.antt =====
-- Unsigned 32-bit words: `uint32_t`, `unsigned int`, `size_t` and pointers of the ARM target, and
-- the `int` arguments that the code turns into them.
use Prim.Native.Nat.{ℕ, ◌+◌, ◌-◌, ◌%◌, ◌^◌}

-- The value that a 32-bit unsigned variable holds after it is given `n`.
abbrev pub u32 : ℕ → ℕ
u32 n = n % 2 ^ 32

-- `SIZE_MAX`, and `(uint32_t)-1`.
abbrev pub size_max : ℕ
size_max = 0xffff_ffff

-- `a - b` in unsigned arithmetic, for words `a` and `b`.
abbrev pub sub32 : ℕ → ℕ → ℕ
sub32 a b = (a + 2 ^ 32 - b) % 2 ^ 32

-- An `int`; `negsuc n` is -(n + 1).
pub data ℤ : Type 0 where
  pos : ℕ → ℤ
  negsuc : ℕ → ℤ
