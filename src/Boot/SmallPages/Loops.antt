-- ===== src/Boot/SmallPages/Loops.antt =====
-- What the loops over the tables in the other branch of `init_paging` in kernel/machdep.c leave in memory.
use epos_arm.Base.{ℕ, zero, suc, ◌+◌, ◌*◌, ◌^◌, ◌≤◌, ◌<◌, ◌≡◌, refl, ap, ◌∙◌, ◌⊎◌, inl, inr, arith}
use epos_arm.PageTable.{update}
use epos_arm.Boot.{Memset, IsMemset, Physical}
use epos_arm.Boot.SmallPages.{coarse_entry, window_round, window_loop}

pub here_or_later : (i j : ℕ) → i ≤ j → (j ≡ i) ⊎ (i + 1 ≤ j)
here_or_later i j h = omega arith

module _ (memset : Memset) (m : IsMemset memset) (pgdir : ℕ) where
  window_round-physfree :
      (i : ℕ) (s : Physical)
      → s.physfree + 2 ^ 10 < 2 ^ 32
      → (window_round memset pgdir i s).physfree ≡ s.physfree + 2 ^ 10
  unfolding window_round
  window_round-physfree i s fits = omega arith

  window_round-mem :
      (i a : ℕ) (s : Physical)
      → i < 4
      → pgdir + 2 ^ 14 ≤ s.physfree
      → s.physfree < 2 ^ 32
      → a + 4 ≤ s.physfree
      → (window_round memset pgdir i s).mem a
        ≡ update s.mem (pgdir + (0xBFC + i) * 4) (coarse_entry s.physfree) a
  unfolding window_round update
  window_round-mem i a s few fits small below =
      m.outside _ s.physfree 0x400 a (inl below) ∙ ground arith

  pub window_loop-physfree :
      (i left : ℕ) (s : Physical)
      → s.physfree + left * 2 ^ 10 < 2 ^ 32
      → (window_loop memset pgdir i left s).physfree ≡ s.physfree + left * 2 ^ 10
  unfolding window_loop
  window_loop-physfree i zero s fits = omega arith
  window_loop-physfree i (suc left) s fits =
      window_loop-physfree (i + 1) left (window_round memset pgdir i s)
        (omega (arith, fits, window_round-physfree i s))
      ∙ omega (arith, fits, window_round-physfree i s)

  pub window_loop-other :
      (i left a : ℕ) (s : Physical)
      → i + left ≤ 4
      → pgdir + 2 ^ 14 ≤ s.physfree
      → s.physfree + left * 2 ^ 10 < 2 ^ 32
      → a + 4 ≤ s.physfree
      → (a < pgdir + (0xBFC + i) * 4) ⊎ (pgdir + 0xC00 * 4 ≤ a)
      → (window_loop memset pgdir i left s).mem a ≡ s.mem a
  unfolding window_loop update
  window_loop-other i zero a s few behind fits below out = refl
  window_loop-other i (suc left) a s few behind fits below out =
      let free = window_round-physfree i s (omega (arith, fits)) in
      window_loop-other (i + 1) left a (window_round memset pgdir i s) (omega arith)
        (omega (arith, free, behind)) (omega (arith, free, fits)) (omega (arith, free, below))
        (omega arith)
      ∙ window_round-mem i a s (omega arith) behind (omega arith) below
      ∙ ground arith

  -- Round `j` writes the address of its table.
  pub window_loop-entry :
      (i left j table : ℕ) (s : Physical)
      → i + left ≤ 4
      → pgdir + 2 ^ 14 ≤ s.physfree
      → s.physfree + left * 2 ^ 10 < 2 ^ 32
      → i ≤ j
      → j < i + left
      → table + i * 2 ^ 10 ≡ s.physfree + j * 2 ^ 10
      → (window_loop memset pgdir i left s).mem (pgdir + (0xBFC + j) * 4) ≡ coarse_entry table
  unfolding window_loop update
  window_loop-entry i zero j table s few behind fits low high e = absurd (omega arith)
  window_loop-entry i (suc left) j table s few behind fits low high e =
      let free = window_round-physfree i s (omega (arith, fits)) in
      let s' = window_round memset pgdir i s in
      elim (here_or_later i j low) [
        | inl here ↦
            let same : s.physfree ≡ table = omega arith in
            window_loop-other (i + 1) left (pgdir + (0xBFC + j) * 4) s' (omega arith)
              (omega (arith, free, behind)) (omega (arith, free, fits))
              (omega (arith, free, behind)) (omega arith)
            ∙ window_round-mem i (pgdir + (0xBFC + j) * 4) s (omega arith) behind (omega arith)
                (omega arith)
            ∙ ground (arith, ap coarse_entry same)
        | inr later ↦
            window_loop-entry (i + 1) left j table s' (omega arith) (omega (arith, free, behind))
              (omega (arith, free, fits)) later (omega arith) (omega (arith, free))
      ]
