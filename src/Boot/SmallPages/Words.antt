-- ===== src/Boot/SmallPages/Words.antt =====
-- The words that the other branch of `init_paging` in kernel/machdep.c leaves in its tables.
use epos_arm.Base.{
  ℕ, ◌+◌, ◌-◌, ◌*◌, ◌/◌, ◌%◌, ◌^◌, ◌≤◌, ◌<◌, ◌≡◌, ◌≢◌, refl, ap, ◌∙◌, ◌⊎◌, inl, inr, arith, bit_or,
  bit_and, ◌==◌, false,
}
use epos_arm.Base.Bits.{bit_or_fields, bit_or-zero, bit_and_mask}
use epos_arm.Base.Word.{u32, sub32}
use epos_arm.Cpu.Pages.{or_aligned}
use epos_arm.PageTable.{update}
use epos_arm.Boot.{Memset, IsMemset, Physical, element, fill_loop}
use epos_arm.Boot.Memory.{fill_loop-outside, fill_loop-inside}
use epos_arm.Boot.Tables.{IsStart}
use epos_arm.Boot.SmallPages.{
  coarse_entry, page_entry, same_page, directory_page, window_loop, kernel_loop, small_init_paging,
}
use epos_arm.Boot.SmallPages.Loops.{window_loop-physfree, window_loop-entry}
use epos_arm.Boot.SmallPages.KernelLoop.{
  HasRoom, kernel_loop-physfree, kernel_loop-other, kernel_loop-entry, kernel_loop-slot,
}

pub coarse_entry_lem : (a : ℕ) → a % 2 ^ 10 ≡ 0 → coarse_entry a ≡ a + 1
coarse_entry_lem a h = ground (arith, bit_or-zero a, bit_or_fields 10 (a / 2 ^ 10) 1)

pub page_entry_lem : (a : ℕ) → a % 2 ^ 12 ≡ 0 → page_entry a ≡ a + 0x1E
page_entry_lem a h =
    let zeros : bit_and 0 0x7 * 2 ^ 6 ≡ 0 = omega (arith, bit_and_mask 3 0) in
    let one : bit_and 1 0x3 * 2 ^ 4 ≡ 0x10 = omega (arith, bit_and_mask 2 1) in
    let access : bit_or a 0x10 ≡ a + 0x10 = or_aligned a 0x10 h (omega arith) in
    let cache : bit_or (a + 0x10) 8 ≡ a + 0x18 =
      ground (arith, bit_or_fields 4 (a / 2 ^ 4 + 1) 8) in
    let buffer : bit_or (a + 0x18) 4 ≡ a + 0x1C =
      ground (arith, bit_or_fields 3 (a / 2 ^ 3 + 3) 4) in
    let small : bit_or (a + 0x1C) 2 ≡ a + 0x1E =
      ground (arith, bit_or_fields 2 (a / 2 ^ 2 + 7) 2) in
    rw (zeros, one, bit_or-zero a, access, cache, buffer, small) refl

module _ (memset : Memset) (m : IsMemset memset) (p : ℕ) (b : IsStart p) (mem : ℕ → ℕ) where
  cleared : Physical
  cleared = record { mem = memset mem p 0 0x4000; physfree = p + 0x4000 }

  window : Physical
  window = window_loop memset p 0 4 cleared

  tables : Physical
  tables = kernel_loop memset p (p + 0x4000) 0 20 window

  -- The memory before the loops over the pages, and behind each of them.
  own : ℕ → ℕ
  unfolding update
  own = update tables.mem (p + 0x4000 + 0x2FF * 4) (page_entry (p + 0x4000))

  low : ℕ → ℕ
  low = fill_loop (p + 0x5000) 0 same_page 0 4 own

  directories : ℕ → ℕ
  directories = fill_loop (p + 0x5000) 0 (directory_page p) 4 4 low

  pages : ℕ
  pages = (p - 0x8000 + 0xFFF) / 2 ^ 12

  window-physfree : window.physfree ≡ p + 0x5000
  unfolding window cleared
  window-physfree = window_loop-physfree memset m p 0 4 cleared (omega (arith, b.low)) ∙ omega arith

  room : HasRoom p (p + 0x4000) 20 window.physfree
  room = record {
    directory = omega arith;
    window = omega (arith, window-physfree);
    end = omega (arith, window-physfree, b.low);
  }

  tables-physfree : tables.physfree ≡ p + 0xA000
  unfolding tables
  tables-physfree =
      kernel_loop-physfree memset m p (p + 0x4000) 0 20 window
        (omega (arith, window-physfree, b.low))
      ∙ omega (arith, window-physfree)

  small_init_paging_lem : small_init_paging memset p mem ≡ record {
    mem = fill_loop (p + 0x5000) 0 same_page 8 pages directories;
    physfree = p + 0xA000;
  }
  unfolding small_init_paging directories low own tables window cleared pages
  small_init_paging_lem =
      let xxx : u32 (p + 0x4000) ≡ p + 0x4000 = omega (arith, b.low) in
      let slot : element (p + 0x4000) 0x2FF ≡ p + 0x4000 + 0x2FF * 4 = omega (arith, b.low) in
      rw (xxx, slot, tables-physfree, window-physfree) refl

  -- The loops over the pages do not write the directory and the four tables.
  own_same : (a : ℕ) → a < p + 0x5000 → (small_init_paging memset p mem).mem a ≡ own a
  unfolding directories low pages
  own_same a h = rw small_init_paging_lem (
      fill_loop-outside (p + 0x5000) 0 same_page 8 pages directories a (omega (arith, b.low))
        (omega arith)
      ∙ fill_loop-outside (p + 0x5000) 0 (directory_page p) 4 4 low a (omega (arith, b.low))
          (omega arith)
      ∙ fill_loop-outside (p + 0x5000) 0 same_page 0 4 own a (omega (arith, b.low)) (omega arith))

  tables_same :
      (a : ℕ)
      → a < p + 0x5000
      → a ≢ p + 0x4000 + 0x2FF * 4
      → (small_init_paging memset p mem).mem a ≡ tables.mem a
  unfolding own update
  tables_same a h other =
      let apart : (a == p + 0x4000 + 0x2FF * 4) ≡ false = ground (arith, other) in
      own_same a h ∙ rw apart refl

  -- The entries of the directory for the first 20 MiB and for those from the base of the kernel on hold
  -- the addresses of the tables.
  pub directory :
      (i a : ℕ)
      → i < 20
      → (a ≡ p + i * 4) ⊎ (a ≡ p + (i + 0xC00) * 4)
      → (small_init_paging memset p mem).mem a ≡ p + 0x5000 + i * 2 ^ 10 + 1
  unfolding tables
  directory i a few at =
      tables_same a (omega arith) (λ e. omega arith)
      ∙ kernel_loop-entry memset m p (p + 0x4000) 0 20 i (p + 0x5000 + i * 2 ^ 10) a window
          (omega arith) room (omega arith) (omega arith) (omega (arith, window-physfree)) at
      ∙ coarse_entry_lem (p + 0x5000 + i * 2 ^ 10) (omega (arith, b.multiple))

  -- Those for the 4 MiB below hold the addresses of the four tables.
  pub directory_window :
      (i : ℕ)
      → i < 4
      → (small_init_paging memset p mem).mem (p + (0xBFC + i) * 4) ≡ p + 0x4000 + i * 2 ^ 10 + 1
  unfolding tables window cleared
  directory_window i few =
      tables_same (p + (0xBFC + i) * 4) (omega arith) (λ e. omega arith)
      ∙ kernel_loop-other memset m p (p + 0x4000) 0 20 (p + (0xBFC + i) * 4) window (omega arith)
          room (omega (arith, window-physfree))
          (λ j above below. (omega arith, omega arith, λ fourth. omega arith))
      ∙ window_loop-entry memset m p 0 4 i (p + 0x4000 + i * 2 ^ 10) cleared (omega arith)
          (omega arith) (omega (arith, b.low)) (omega arith) (omega arith) (omega arith)
      ∙ coarse_entry_lem (p + 0x4000 + i * 2 ^ 10) (omega (arith, b.multiple))

  -- The last of the four tables names the pages that hold the tables of the kernel.
  pub slot :
      (k : ℕ)
      → k < 5
      → (small_init_paging memset p mem).mem (p + 0x4000 + (0x300 + k) * 4)
        ≡ p + 0x5000 + k * 2 ^ 12 + 0x1E
  unfolding tables
  slot k few =
      tables_same (p + 0x4000 + (0x300 + k) * 4) (omega arith) (λ e. omega arith)
      ∙ kernel_loop-slot memset m p (p + 0x4000) 0 20 k (p + 0x5000 + k * 2 ^ 12) window
          (omega arith) room (omega arith) (omega arith) (omega (arith, window-physfree))
      ∙ page_entry_lem (p + 0x5000 + k * 2 ^ 12) (omega (arith, b.multiple))

  -- The third names the page that holds the four.
  pub slot_own : (small_init_paging memset p mem).mem (p + 0x4000 + 0x2FF * 4) ≡ p + 0x4000 + 0x1E
  unfolding own update
  slot_own =
      own_same (p + 0x4000 + 0x2FF * 4) (omega arith)
      ∙ ground arith
      ∙ page_entry_lem (p + 0x4000) (omega (arith, b.multiple))

  same_page_lem : (n : ℕ) → n < 2 ^ 20 → same_page n ≡ n * 2 ^ 12 + 0x1E
  same_page_lem n h = ap page_entry (omega arith) ∙ page_entry_lem (n * 2 ^ 12) (omega arith)

  directory_page_lem : (n : ℕ) → 4 ≤ n → n < 8 → directory_page p n ≡ p + (n - 4) * 2 ^ 12 + 0x1E
  directory_page_lem n low high =
      let start : sub32 (u32 (p + n * 2 ^ 12)) 0x4000 ≡ p + (n - 4) * 2 ^ 12 =
        omega (arith, b.low) in
      ap page_entry start ∙ page_entry_lem (p + (n - 4) * 2 ^ 12) (omega (arith, b.multiple))

  -- The first four pages, and those from 0x8000 to the directory, stand at their own addresses.
  pub identity :
      (n : ℕ)
      → n * 2 ^ 12 < p
      → (n < 4) ⊎ (8 ≤ n)
      → (small_init_paging memset p mem).mem (p + 0x5000 + n * 4) ≡ n * 2 ^ 12 + 0x1E
  unfolding directories low pages
  identity n below (inl first) = rw small_init_paging_lem (
      fill_loop-outside (p + 0x5000) 0 same_page 8 pages directories (p + 0x5000 + n * 4)
        (omega (arith, b.low)) (omega arith)
      ∙ fill_loop-outside (p + 0x5000) 0 (directory_page p) 4 4 low (p + 0x5000 + n * 4)
          (omega (arith, b.low)) (omega arith)
      ∙ fill_loop-inside (p + 0x5000) 0 same_page 0 4 n (p + 0x5000 + n * 4) own
          (omega (arith, b.low)) (omega arith) (omega arith) (omega arith)
      ∙ same_page_lem n (omega arith))
  identity n below (inr rest) = rw small_init_paging_lem (
      fill_loop-inside (p + 0x5000) 0 same_page 8 pages n (p + 0x5000 + n * 4) directories
        (omega (arith, b.low)) (omega arith) (omega arith) (omega arith)
      ∙ same_page_lem n (omega (arith, b.low)))

  -- The four pages between hold the directory.
  pub directory_pages :
      (n : ℕ)
      → 4 ≤ n
      → n < 8
      → (small_init_paging memset p mem).mem (p + 0x5000 + n * 4) ≡ p + (n - 4) * 2 ^ 12 + 0x1E
  unfolding directories pages
  directory_pages n first last = rw small_init_paging_lem (
      fill_loop-outside (p + 0x5000) 0 same_page 8 pages directories (p + 0x5000 + n * 4)
        (omega (arith, b.low)) (omega arith)
      ∙ fill_loop-inside (p + 0x5000) 0 (directory_page p) 4 4 n (p + 0x5000 + n * 4) low
          (omega (arith, b.low)) (omega arith) (omega arith) (omega arith)
      ∙ directory_page_lem n first last)
