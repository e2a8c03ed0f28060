-- ===== src/Boot/Memory.antt =====
-- What the loops of `init_paging` in kernel/machdep.c leave in memory.
use epos_arm.Base.{
  ℕ, zero, suc, ◌+◌, ◌*◌, ◌^◌, ◌≤◌, ◌<◌, ◌≡◌, refl, ap, ◌∙◌, ◌⊎◌, inl, inr, arith, bit_or,
}
use epos_arm.Cpu.{pte_v}
use epos_arm.PageTable.{update}
use epos_arm.Boot.{Memset, IsMemset, Physical, element, table_loop, fill_loop}

here_or_later : (i j : ℕ) → i ≤ j → (j ≡ i) ⊎ (i + 1 ≤ j)
here_or_later i j h = omega arith

-- The loops leave the words before and behind their part of the array.
pub fill_loop-outside :
    (pte first : ℕ) (value : ℕ → ℕ) (i left : ℕ) (mem : ℕ → ℕ) (a : ℕ)
    → pte + (first + i + left) * 4 ≤ 2 ^ 32
    → (a < pte + (first + i) * 4) ⊎ (pte + (first + i + left) * 4 ≤ a)
    → fill_loop pte first value i left mem a ≡ mem a
unfolding fill_loop update
fill_loop-outside pte first value i zero mem a fits out = refl
fill_loop-outside pte first value i (suc left) mem a fits out = ground (
  arith,
  fill_loop-outside pte first value (i + 1) left (update mem (element pte (first + i)) (value i)) a,
)

pub fill_loop-inside :
    (pte first : ℕ) (value : ℕ → ℕ) (i left j a : ℕ) (mem : ℕ → ℕ)
    → pte + (first + i + left) * 4 ≤ 2 ^ 32
    → i ≤ j
    → j < i + left
    → a ≡ pte + (first + j) * 4
    → fill_loop pte first value i left mem a ≡ value j
unfolding fill_loop update
fill_loop-inside pte first value i zero j a mem fits low high e = absurd (omega arith)
fill_loop-inside pte first value i (suc left) j a mem fits low high e =
    elim (here_or_later i j low) [
      | inl here ↦
          fill_loop-outside pte first value (i + 1) left
            (update mem (element pte (first + i)) (value i)) a (omega arith) (omega arith)
          ∙ ground (arith, ap value here)
      | inr later ↦
          fill_loop-inside pte first value (i + 1) left j a
            (update mem (element pte (first + i)) (value i)) (omega arith) later (omega arith) e
    ]

module _ (memset : Memset) (m : IsMemset memset) (pgdir : ℕ) where
  pub table_loop-physfree :
      (i left : ℕ) (s : Physical)
      → s.physfree + left * 2 ^ 10 < 2 ^ 32
      → (table_loop memset pgdir i left s).physfree ≡ s.physfree + left * 2 ^ 10
  unfolding table_loop
  table_loop-physfree i zero s fits = omega arith
  table_loop-physfree i (suc left) s fits =
      table_loop-physfree (i + 1) left _ (omega arith) ∙ omega arith

  -- The rounds from `i` on leave the words of the directory that are not theirs.
  pub table_loop-other :
      (i left a : ℕ) (s : Physical)
      → i + left ≤ 20
      → s.physfree + left * 2 ^ 10 < 2 ^ 32
      → pgdir + 2 ^ 14 ≤ s.physfree
      → a + 4 ≤ s.physfree
      → (a < pgdir + i * 4) ⊎ (pgdir + 20 * 4 ≤ a)
      → (a < pgdir + (i + 0xC00) * 4) ⊎ (pgdir + (20 + 0xC00) * 4 ≤ a)
      → (table_loop memset pgdir i left s).mem a ≡ s.mem a
  unfolding table_loop update
  table_loop-other i zero a s few fits behind small low high = refl
  table_loop-other i (suc left) a s few fits behind small low high =
      table_loop-other (i + 1) left a _ (omega arith) (omega arith) (omega arith) (omega arith)
        (omega arith) (omega arith)
      ∙ m.outside _ s.physfree (1 * 2 ^ 10) a (inl small)
      ∙ ground arith

  -- Round `j` writes the address of its table to two entries.
  pub table_loop-entry :
      (i left j table : ℕ) (s : Physical)
      → i + left ≤ 20
      → s.physfree + left * 2 ^ 10 < 2 ^ 32
      → pgdir + 2 ^ 14 ≤ s.physfree
      → i ≤ j
      → j < i + left
      → table + i * 2 ^ 10 ≡ s.physfree + j * 2 ^ 10
      → let mem = (table_loop memset pgdir i left s).mem in
        (mem (pgdir + j * 4) ≡ bit_or table pte_v)
        × (mem (pgdir + (j + 0xC00) * 4) ≡ bit_or table pte_v)
  unfolding table_loop update
  table_loop-entry i zero j table s few fits behind low high e = absurd (omega arith)
  table_loop-entry i (suc left) j table s few fits behind low high e =
      elim (here_or_later i j low) [
        | inl here ↦
            let same : table ≡ s.physfree = omega arith in
            let written : (a : ℕ)
                → (a ≡ pgdir + j * 4) ⊎ (a ≡ pgdir + (j + 0xC00) * 4)
                → (table_loop memset pgdir i (suc left) s).mem a ≡ bit_or table pte_v =
              λ a at.
                table_loop-other (i + 1) left a _ (omega arith) (omega arith) (omega arith)
                  (omega arith) (omega arith) (omega arith)
                ∙ m.outside _ s.physfree (1 * 2 ^ 10) a (omega arith)
                ∙ ground (arith, ap (λ (t : ℕ). bit_or t pte_v) same) in
            (written (pgdir + j * 4) (inl refl), written (pgdir + (j + 0xC00) * 4) (inr refl))
        | inr later ↦
            table_loop-entry (i + 1) left j table _ (omega arith) (omega arith) (omega arith) later
              (omega arith) (omega arith)
      ]
