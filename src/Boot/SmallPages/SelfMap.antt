-- ===== src/Boot/SmallPages/SelfMap.antt =====
-- The addresses that the processor reaches through the tables of the other branch of `init_paging` in
-- kernel/machdep.c.
use epos_arm.Base.{
  ℕ, ◌+◌, ◌-◌, ◌*◌, ◌/◌, ◌%◌, ◌^◌, ◌≤◌, ◌<◌, ◌≡◌, refl, ap, sym, ◌∙◌, ◌⊎◌, inl, inr, some, arith,
  bit_and,
}
use epos_arm.PageTable.{update}
use epos_arm.Boot.{Memset, IsMemset, kernbase}
use epos_arm.Boot.Tables.{IsStart}
use epos_arm.Boot.Walk.{translate, translate-some, translate-page_at, page_at, table_bits}
use epos_arm.Boot.Window.{pt, vtopte_address}
use epos_arm.Boot.SmallPages.{small_init_paging}
use epos_arm.Boot.SmallPages.Words.{directory, directory_window, slot, slot_own}

-- The physical address from which the processor reads the second entry for `va`.
abbrev pub entry_place : (mem : ℕ → ℕ) (ttbr va : ℕ) → ℕ
entry_place mem ttbr va = bit_and (mem (ttbr + va / 2 ^ 20 * 4)) 0xFFFF_FC00 + va / 2 ^ 12 % 256 * 4

module _ (memset : Memset) (m : IsMemset memset) (p : ℕ) (b : IsStart p) (mem : ℕ → ℕ) where
  after : ℕ → ℕ
  after = (small_init_paging memset p mem).mem

  place_lem :
      (va i table : ℕ)
      → va / 2 ^ 20 ≡ i
      → table % 2 ^ 10 ≡ 0
      → table + 2 ^ 10 ≤ 2 ^ 32
      → after (p + i * 4) ≡ table + 1
      → entry_place after p va ≡ table + va / 2 ^ 12 % 256 * 4
  place_lem va i table at multiple fits entry =
      let base : bit_and (table + 1) 0xFFFF_FC00 ≡ table =
        table_bits (table + 1) (omega arith) ∙ omega arith in
      rw (at, entry, base) refl

  -- The entries of the kernel's tables, and those of the four tables.
  kernel_place :
      (off : ℕ)
      → off < 20 * 2 ^ 20
      → entry_place after p (kernbase + off) ≡ p + 0x5000 + off / 2 ^ 12 * 4
  unfolding after
  kernel_place off h =
      place_lem (kernbase + off) (off / 2 ^ 20 + 0xC00) (p + 0x5000 + off / 2 ^ 20 * 2 ^ 10)
        (omega arith) (omega (arith, b.multiple)) (omega (arith, b.low))
        (directory memset m p b mem (off / 2 ^ 20) _ (omega arith) (inr refl))
      ∙ omega arith

  window_place :
      (off : ℕ) → off < 2 ^ 22 → entry_place after p (pt + off) ≡ p + 0x4000 + off / 2 ^ 12 * 4
  unfolding after
  window_place off h =
      place_lem (pt + off) (0xBFC + off / 2 ^ 20) (p + 0x4000 + off / 2 ^ 20 * 2 ^ 10) (omega arith)
        (omega (arith, b.multiple)) (omega (arith, b.low))
        (directory_window memset m p b mem (off / 2 ^ 20) (omega arith))
      ∙ omega arith

  kernel_window :
      (n : ℕ)
      → n < 20 * 256
      → translate after p (vtopte_address kernbase + n * 4) ≡ some (p + 0x5000 + n * 4)
  unfolding after
  kernel_window n h =
      let k = n / 2 ^ 10 in
      translate-some after p (vtopte_address kernbase + n * 4) (p + 0x4000 + 3 * 2 ^ 10)
        (p + 0x5000 + k * 2 ^ 12) 0x1E 0xBFF k (n % 2 ^ 10 * 4) (omega arith)
        (omega (arith, b.multiple, b.low)) (omega (arith, b.multiple, b.low)) (omega arith)
        (directory_window memset m p b mem 3 (omega arith))
        (ap after (omega arith) ∙ slot memset m p b mem k (omega arith))
      ∙ ap some (omega arith)

  own_window :
      (n : ℕ)
      → n < 4 * 256
      → translate after p (vtopte_address pt + n * 4) ≡ some (p + 0x4000 + n * 4)
  unfolding after
  own_window n h =
      translate-some after p (vtopte_address pt + n * 4) (p + 0x4000 + 2 * 2 ^ 10) (p + 0x4000) 0x1E
        0xBFE 0xFF (n * 4) (omega arith) (omega (arith, b.multiple, b.low))
        (omega (arith, b.multiple, b.low)) (omega arith)
        (directory_window memset m p b mem 2 (omega arith))
        (ap after (omega arith) ∙ slot_own memset m p b mem)

  -- Behind this branch of `init_paging`, from an address that is a multiple of 16 KiB and leaves 52 KiB below
  -- 16 MiB, for each `va` in the 4 MiB from `PT` on or in the 20 MiB of the kernel behind them, the address
  -- `vtopte(va)` is translated to the place from which the processor reads the second entry for `va`.
  pub vtopte-entry_place :
      (va : ℕ)
      → pt ≤ va
      → va < kernbase + 20 * 2 ^ 20
      → let mem' = (small_init_paging memset p mem).mem in
        translate mem' p (vtopte_address va) ≡ some (entry_place mem' p va)
  unfolding after
  vtopte-entry_place va low high = elim (below_or_kernel va) [
    | inl window ↦
        let n = (va - pt) / 2 ^ 12 in
        let sum : pt + (va - pt) ≡ va = omega arith in
        ap (translate after p) (omega arith)
        ∙ own_window n (omega arith)
        ∙ ap some (sym (window_place (va - pt) (omega arith)) ∙ ap (entry_place after p) sum)
    | inr kernel ↦
        let n = (va - kernbase) / 2 ^ 12 in
        let sum : kernbase + (va - kernbase) ≡ va = omega arith in
        ap (translate after p) (omega arith)
        ∙ kernel_window n (omega arith)
        ∙ ap some (sym (kernel_place (va - kernbase) (omega arith)) ∙ ap (entry_place after p) sum)
  ]
    where
      below_or_kernel : (x : ℕ) → (x < kernbase) ⊎ (kernbase ≤ x)
      below_or_kernel x = omega arith

  -- A word that is written at the place that `vtopte(va)` is translated to is the entry that the processor finds.
  pub translate-written :
      (va word : ℕ)
      → kernbase ≤ va
      → va < kernbase + 20 * 2 ^ 20
      → let mem' = (small_init_paging memset p mem).mem in
        (place : ℕ) × (translate mem' p (vtopte_address va) ≡ some place)
        × (translate (update mem' place word) p va ≡ page_at word va)
  unfolding after update
  translate-written va word low high =
      let off = va - kernbase in
      let sum : kernbase + off ≡ va = omega arith in
      let i = off / 2 ^ 20 in
      let place : entry_place after p va ≡ p + 0x5000 + off / 2 ^ 12 * 4 =
        ap (entry_place after p) (sym sum) ∙ kernel_place off (omega arith) in
      let first = directory memset m p b mem i (p + (i + 0xC00) * 4) (omega arith) (inr refl) in
      (
        p + 0x5000 + off / 2 ^ 12 * 4,
        vtopte-entry_place va (omega arith) high ∙ ap some place,
        translate-page_at _ p va (p + 0x5000 + i * 2 ^ 10) word (i + 0xC00) (va / 2 ^ 12 % 256)
            (omega arith) (omega (arith, b.multiple, b.low)) (ground (arith, first)) (ground arith),
      )
