-- ===== src/Boot/SmallPages/KernelLoop.antt =====
-- What the loop over the tables of the kernel in the other branch of `init_paging` in kernel/machdep.c leaves
-- in memory.
use epos_arm.Base.{
  ℕ, zero, suc, ◌+◌, ◌*◌, ◌/◌, ◌%◌, ◌^◌, ◌≤◌, ◌<◌, ◌≡◌, ◌≢◌, refl, ap, ◌∙◌, ◌⊎◌, inl, inr, arith,
}
use epos_arm.Base.Bits.{bit_and_mask}
use epos_arm.PageTable.{update}
use epos_arm.Boot.{Memset, IsMemset, Physical}
use epos_arm.Boot.SmallPages.{coarse_entry, page_entry, kernel_round, kernel_loop}
use epos_arm.Boot.SmallPages.Loops.{here_or_later}

-- Room for `left` tables behind the directory and the four tables at `xxx`.
pub record HasRoom (pgdir xxx left physfree : ℕ) : Type 0 where
  pub directory : pgdir + 2 ^ 14 ≤ xxx
  pub window : xxx + 2 ^ 12 ≤ physfree
  pub end : physfree + left * 2 ^ 10 < 2 ^ 32

HasRoom-next :
    (pgdir xxx left physfree : ℕ)
    → HasRoom pgdir xxx (suc left) physfree
    → HasRoom pgdir xxx left (physfree + 2 ^ 10)
HasRoom-next pgdir xxx left physfree r = record {
  directory = r.directory;
  window = omega (arith, r.window);
  end = omega (arith, r.end);
}

module _ (memset : Memset) (m : IsMemset memset) (pgdir xxx : ℕ) where
  kernel_round-physfree :
      (i : ℕ) (s : Physical)
      → s.physfree + 2 ^ 10 < 2 ^ 32
      → (kernel_round memset pgdir xxx i s).physfree ≡ s.physfree + 2 ^ 10
  unfolding kernel_round
  kernel_round-physfree i s fits = omega arith

  -- The words that a round writes.
  abbrev Differs : (i a : ℕ) → Type 0
  Differs i a =
      (a ≢ pgdir + i * 4)
      × (a ≢ pgdir + (i + 0xC00) * 4)
      × ((i % 4 ≡ 0) → a ≢ xxx + (0x300 + i / 4) * 4)

  -- A round leaves the words below its table, save those that it writes.
  kernel_round-other :
      (i left a : ℕ) (s : Physical)
      → i < 20
      → HasRoom pgdir xxx (suc left) s.physfree
      → a + 4 ≤ s.physfree
      → Differs i a
      → (kernel_round memset pgdir xxx i s).mem a ≡ s.mem a
  unfolding kernel_round update
  kernel_round-other i left a s few room below (low, high, slot) =
      m.outside _ s.physfree 0x400 a (inl below)
      ∙ ground (arith, bit_and_mask 2 i, room.directory, room.window, room.end)

  kernel_round-entry :
      (i left a : ℕ) (s : Physical)
      → i < 20
      → HasRoom pgdir xxx (suc left) s.physfree
      → (a ≡ pgdir + i * 4) ⊎ (a ≡ pgdir + (i + 0xC00) * 4)
      → (kernel_round memset pgdir xxx i s).mem a ≡ coarse_entry s.physfree
  unfolding kernel_round update
  kernel_round-entry i left a s few room at =
      m.outside _ s.physfree 0x400 a (inl (omega (arith, room.directory, room.window)))
      ∙ ground (arith, room.directory, room.window, room.end)

  kernel_round-slot :
      (i left : ℕ) (s : Physical)
      → i < 20
      → i % 4 ≡ 0
      → HasRoom pgdir xxx (suc left) s.physfree
      → (kernel_round memset pgdir xxx i s).mem (xxx + (0x300 + i / 4) * 4) ≡ page_entry s.physfree
  unfolding kernel_round update
  kernel_round-slot i left s few fourth room =
      m.outside _ s.physfree 0x400 _ (inl (omega (arith, room.window)))
      ∙ ground (arith, bit_and_mask 2 i, room.directory, room.window, room.end)

  pub kernel_loop-physfree :
      (i left : ℕ) (s : Physical)
      → s.physfree + left * 2 ^ 10 < 2 ^ 32
      → (kernel_loop memset pgdir xxx i left s).physfree ≡ s.physfree + left * 2 ^ 10
  unfolding kernel_loop
  kernel_loop-physfree i zero s fits = omega arith
  kernel_loop-physfree i (suc left) s fits =
      kernel_loop-physfree (i + 1) left (kernel_round memset pgdir xxx i s)
        (omega (arith, fits, kernel_round-physfree i s))
      ∙ omega (arith, fits, kernel_round-physfree i s)

  next_room :
      (i left : ℕ) (s : Physical)
      → HasRoom pgdir xxx (suc left) s.physfree
      → HasRoom pgdir xxx left (kernel_round memset pgdir xxx i s).physfree
  next_room i left s room =
      let free = kernel_round-physfree i s (omega (arith, room.end)) in
      rw free (HasRoom-next pgdir xxx left s.physfree room)

  pub kernel_loop-other :
      (i left a : ℕ) (s : Physical)
      → i + left ≤ 20
      → HasRoom pgdir xxx left s.physfree
      → a + 4 ≤ s.physfree
      → ((j : ℕ) → i ≤ j → j < 20 → Differs j a)
      → (kernel_loop memset pgdir xxx i left s).mem a ≡ s.mem a
  unfolding kernel_loop
  kernel_loop-other i zero a s few room below other = refl
  kernel_loop-other i (suc left) a s few room below other =
      let free = kernel_round-physfree i s (omega (arith, room.end)) in
      kernel_loop-other (i + 1) left a (kernel_round memset pgdir xxx i s) (omega arith)
        (next_room i left s room) (omega (arith, free, below))
        (λ j low high. other j (omega arith) high)
      ∙ kernel_round-other i left a s (omega arith) room below (other i (omega arith) (omega arith))

  -- Round `j` writes the address of its table to two entries of the directory.
  pub kernel_loop-entry :
      (i left j table a : ℕ) (s : Physical)
      → i + left ≤ 20
      → HasRoom pgdir xxx left s.physfree
      → i ≤ j
      → j < i + left
      → table + i * 2 ^ 10 ≡ s.physfree + j * 2 ^ 10
      → (a ≡ pgdir + j * 4) ⊎ (a ≡ pgdir + (j + 0xC00) * 4)
      → (kernel_loop memset pgdir xxx i left s).mem a ≡ coarse_entry table
  unfolding kernel_loop
  kernel_loop-entry i zero j table a s few room low high e at = absurd (omega arith)
  kernel_loop-entry i (suc left) j table a s few room low high e at =
      let free = kernel_round-physfree i s (omega (arith, room.end)) in
      let s' = kernel_round memset pgdir xxx i s in
      elim (here_or_later i j low) [
        | inl here ↦
            kernel_loop-other (i + 1) left a s' (omega arith) (next_room i left s room)
              (omega (arith, free, room.directory, room.window))
              (λ k above below. (omega arith, omega arith, λ fourth. omega (arith, room.directory)))
            ∙ kernel_round-entry i left a s (omega arith) room (omega arith)
            ∙ ap coarse_entry (omega arith)
        | inr later ↦
            kernel_loop-entry (i + 1) left j table a s' (omega arith) (next_room i left s room)
              later (omega arith) (omega (arith, free)) at
      ]

  -- Round `4 * k` writes the address of its table to the last of the four tables.
  pub kernel_loop-slot :
      (i left k table : ℕ) (s : Physical)
      → i + left ≤ 20
      → HasRoom pgdir xxx left s.physfree
      → i ≤ 4 * k
      → 4 * k < i + left
      → table + i * 2 ^ 10 ≡ s.physfree + 4 * k * 2 ^ 10
      → (kernel_loop memset pgdir xxx i left s).mem (xxx + (0x300 + k) * 4) ≡ page_entry table
  unfolding kernel_loop
  kernel_loop-slot i zero k table s few room low high e = absurd (omega arith)
  kernel_loop-slot i (suc left) k table s few room low high e =
      let free = kernel_round-physfree i s (omega (arith, room.end)) in
      let s' = kernel_round memset pgdir xxx i s in
      elim (here_or_later i (4 * k) low) [
        | inl here ↦
            let at : xxx + (0x300 + k) * 4 ≡ xxx + (0x300 + i / 4) * 4 = omega arith in
            kernel_loop-other (i + 1) left (xxx + (0x300 + k) * 4) s' (omega arith)
              (next_room i left s room) (omega (arith, free, room.window))
              (λ j above below. (
                omega (arith, room.directory),
                omega (arith, room.directory),
                λ fourth. omega arith,
              ))
            ∙ ap s'.mem at
            ∙ kernel_round-slot i left s (omega arith) (omega arith) room
            ∙ ap page_entry (omega arith)
        | inr later ↦
            kernel_loop-slot (i + 1) left k table s' (omega arith) (next_room i left s room) later
              (omega arith) (omega (arith, free))
      ]
