-- ===== src/Strings/Ends.antt =====
-- The end of a string, as the loops of lib/string.c find it.
use epos_arm.Base.{ℕ, zero, suc, ◌+◌, ◌<◌, ◌≡◌, ◌≢◌, ap, ◌∙◌, some, arith}
use epos_arm.Strings.{end_loop, strlen}

-- A string of `n` bytes at `s`, with its NUL byte behind them.
pub record IsString (mem : ℕ → ℕ) (s n : ℕ) : Type 0 where
  pub nul : mem (s + n) ≡ 0
  pub chars : (i : ℕ) → i < n → mem (s + i) ≢ 0

-- The string without its first byte.
pub rest-IsString : (mem : ℕ → ℕ) (s n : ℕ) → IsString mem s (suc n) → IsString mem (s + 1) n
rest-IsString mem s n str = record {
  nul = ap mem (omega arith) ∙ str.nul;
  chars = λ i h e. str.chars (suc i) (omega arith) (ap mem (omega arith) ∙ e);
}

pub end_loop_lem :
    (mem : ℕ → ℕ) (s n fuel : ℕ) → IsString mem s n → n < fuel → end_loop mem s fuel ≡ some (s + n)
unfolding end_loop
end_loop_lem mem s n zero str h = absurd (omega arith)
end_loop_lem mem s zero (suc fuel) str h = ground (arith, str.nul)
end_loop_lem mem s (suc n) (suc fuel) str h =
    ground (arith, str.chars 0, end_loop_lem mem (s + 1) n fuel (rest-IsString mem s n str))

-- With more fuel than the string has bytes, `strlen` returns their number.
pub strlen_lem :
    (mem : ℕ → ℕ) (s n fuel : ℕ) → IsString mem s n → n < fuel → strlen mem s fuel ≡ some n
unfolding strlen
strlen_lem mem s n fuel str h = rw (end_loop_lem mem s n fuel str h) (ap some (omega arith))
