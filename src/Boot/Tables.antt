-- ===== src/Boot/Tables.antt =====
-- The words that `init_paging` of kernel/machdep.c leaves in the page directory and in the page tables.
use epos_arm.Base.{
  ℕ, ◌+◌, ◌*◌, ◌/◌, ◌%◌, ◌^◌, ◌≤◌, ◌<◌, ◌≡◌, refl, ◌∙◌, ◌⊎◌, arith, bit_or, bit_and, ◌==◌, false,
}
use epos_arm.Base.Bits.{bit_or_fields, bit_or_step}
use epos_arm.Base.Word.{u32}
use epos_arm.Cpu.{page_roundup, pte_v, pte_w}
use epos_arm.Cpu.Pages.{page_roundup_bounds, or_aligned, frame_bits}
use epos_arm.PageTable.{update}
use epos_arm.Boot.{
  Memset, IsMemset, Physical, element, table_loop, fill_loop, identity_entry, io_entry, init_paging,
}
use epos_arm.Boot.Memory.{
  fill_loop-outside, fill_loop-inside, table_loop-physfree, table_loop-other, table_loop-entry,
}

writable : (a : ℕ) → a % 4096 ≡ 0 → bit_or (bit_or a pte_w) pte_v ≡ a + 3
writable a h = ground (arith, or_aligned a 2, bit_or_fields 1 (a / 2 + 1) 1)

valid : (a : ℕ) → a % 4096 ≡ 0 → bit_or (bit_or a pte_v) pte_w ≡ a + 3
valid a h = ground (arith, or_aligned a 1, bit_or_step (a + 1) 2, bit_or_fields 1 (a / 4) 1)

identity_entry_lem : (i : ℕ) → i < 2 ^ 20 → identity_entry i ≡ i * 2 ^ 12 + 3
identity_entry_lem i h = writable (u32 (i * 2 ^ 12)) (omega arith) ∙ omega arith

io_entry_lem : (i : ℕ) → i < 0x220 → io_entry i ≡ 0x2000_0000 + i * 2 ^ 12 + 3
io_entry_lem i h =
    let page : bit_and (u32 (0x2000_0000 + u32 (i * 2 ^ 12))) 0xFFFF_F000
        ≡ 0x2000_0000 + i * 2 ^ 12 =
      frame_bits _ (omega arith) ∙ omega arith in
    rw page (valid (0x2000_0000 + i * 2 ^ 12) (omega arith))

-- The address that the kernel starts at, a multiple of 16 KiB, leaves its first pages below 16 MiB.
pub record IsStart (physfree : ℕ) : Type 0 where
  pub multiple : physfree % 2 ^ 14 ≡ 0
  pub low : physfree + 0xD000 ≤ 2 ^ 24

-- The end of the identity map: PAGE_ROUNDUP of the address behind the tables.
abbrev pub mapped_end : ℕ → ℕ
mapped_end physfree = page_roundup (physfree + 0x9000)

module _ (memset : Memset) (m : IsMemset memset) (p : ℕ) (b : IsStart p) (mem : ℕ → ℕ) where
  -- The state before and behind the first loop.
  cleared : Physical
  cleared = record { mem = memset mem p 0 (1 * 2 ^ 14); physfree = p + 2 ^ 14 }

  tables : Physical
  tables = table_loop memset p 0 20 cleared

  identity_map : ℕ → ℕ
  identity_map = fill_loop (p + 2 ^ 14) 0 identity_entry 0 (mapped_end p / 2 ^ 12) tables.mem

  io_map : ℕ → ℕ
  io_map = fill_loop (p + 2 ^ 14) 0x1000 io_entry 0 0x220 identity_map

  tables-physfree : tables.physfree ≡ p + 0x9000
  unfolding tables cleared
  tables-physfree = table_loop-physfree memset m p 0 20 cleared (omega (arith, b.low)) ∙ omega arith

  init_paging_lem :
      init_paging memset p mem
      ≡ record { mem = update io_map (p + 0x9000 + 0x3C0) 3; physfree = p + 0x9000 }
  unfolding init_paging io_map identity_map tables cleared
  init_paging_lem =
      let pte : u32 (p + 1 * 2 ^ 14) ≡ p + 2 ^ 14 = omega (arith, b.low) in
      let vector : element (p + 2 ^ 14) (20 * 256 + 0xF0) ≡ p + 0x9000 + 0x3C0 =
        omega (arith, b.low) in
      rw (pte, vector, tables-physfree) refl

  pub init_paging-physfree : (init_paging memset p mem).physfree ≡ p + 0x9000
  init_paging-physfree = rw init_paging_lem refl

  pub mapped_end_bounds :
      (p + 0x9000 < mapped_end p) × (mapped_end p ≤ 2 ^ 24) × (mapped_end p % 2 ^ 14 ≡ 0)
  mapped_end_bounds = omega (arith, b.low, page_roundup_bounds (p + 0x9000))

  -- The loops over the tables do not write the directory.
  directory_same : (a : ℕ) → a < p + 2 ^ 14 → (init_paging memset p mem).mem a ≡ tables.mem a
  unfolding io_map identity_map update
  directory_same a h =
      let other : (a == p + 0x9000 + 0x3C0) ≡ false = ground arith in
      rw (init_paging_lem, other)
        (fill_loop-outside (p + 2 ^ 14) 0x1000 io_entry 0 0x220 identity_map a
            (omega (arith, b.low)) (omega arith)
          ∙ fill_loop-outside (p + 2 ^ 14) 0 identity_entry 0 (mapped_end p / 2 ^ 12) tables.mem a
              (omega (arith, b.low, mapped_end_bounds)) (omega arith))

  -- The entries of the directory for the first 20 MiB and for those from the base of the kernel on hold
  -- the addresses of the tables.
  pub directory :
      (i : ℕ)
      → i < 20
      → let entry = p + 2 ^ 14 + i * 2 ^ 10 + 1 in
        ((init_paging memset p mem).mem (p + i * 4) ≡ entry)
        × ((init_paging memset p mem).mem (p + (i + 0xC00) * 4) ≡ entry)
  unfolding tables cleared
  directory i h =
      let (low, high) =
        table_loop-entry memset m p 0 20 i (p + 2 ^ 14 + i * 2 ^ 10) cleared (omega arith)
          (omega (arith, b.low)) (omega arith) (omega arith) (omega arith) (omega arith) in
      let table : bit_or (p + 2 ^ 14 + i * 2 ^ 10) pte_v ≡ p + 2 ^ 14 + i * 2 ^ 10 + 1 =
        ground (arith, b.multiple, bit_or_fields 10 ((p + 2 ^ 14 + i * 2 ^ 10) / 2 ^ 10) 1) in
      (
        directory_same (p + i * 4) (omega arith) ∙ low ∙ table,
        directory_same (p + (i + 0xC00) * 4) (omega arith) ∙ high ∙ table,
      )

  -- The other entries of the directory are empty.
  pub directory_empty :
      (i : ℕ)
      → 20 ≤ i
      → i < 0x1000
      → (i < 0xC00) ⊎ (20 + 0xC00 ≤ i)
      → (init_paging memset p mem).mem (p + i * 4) ≡ 0
  unfolding tables cleared
  directory_empty i above small out =
      directory_same (p + i * 4) (omega arith)
      ∙ table_loop-other memset m p 0 20 (p + i * 4) cleared (omega arith) (omega (arith, b.low))
          (omega arith) (omega arith) (omega arith) (omega arith)
      ∙ m.inside mem p (1 * 2 ^ 14) (p + i * 4) (omega arith) (omega arith)

  pub identity :
      (n : ℕ)
      → n * 2 ^ 12 < mapped_end p
      → (init_paging memset p mem).mem (p + 2 ^ 14 + n * 4) ≡ n * 2 ^ 12 + 3
  unfolding io_map identity_map update
  identity n h =
      let other : (p + 2 ^ 14 + n * 4 == p + 0x9000 + 0x3C0) ≡ false =
        ground (arith, mapped_end_bounds) in
      rw (init_paging_lem, other)
        (fill_loop-outside (p + 2 ^ 14) 0x1000 io_entry 0 0x220 identity_map (p + 2 ^ 14 + n * 4)
            (omega (arith, b.low)) (omega (arith, mapped_end_bounds))
          ∙ fill_loop-inside (p + 2 ^ 14) 0 identity_entry 0 (mapped_end p / 2 ^ 12) n
              (p + 2 ^ 14 + n * 4) tables.mem (omega (arith, b.low, mapped_end_bounds))
              (omega arith) (omega (arith, mapped_end_bounds)) (omega arith)
          ∙ identity_entry_lem n (omega (arith, mapped_end_bounds)))

  pub io :
      (n : ℕ)
      → n < 0x220
      → (init_paging memset p mem).mem (p + 2 ^ 14 + (0x1000 + n) * 4)
        ≡ 0x2000_0000 + n * 2 ^ 12 + 3
  unfolding io_map update
  io n h =
      let other : (p + 2 ^ 14 + (0x1000 + n) * 4 == p + 0x9000 + 0x3C0) ≡ false = ground arith in
      rw (init_paging_lem, other)
        (fill_loop-inside (p + 2 ^ 14) 0x1000 io_entry 0 0x220 n (p + 2 ^ 14 + (0x1000 + n) * 4)
            identity_map (omega (arith, b.low)) (omega arith) (omega arith) refl
          ∙ io_entry_lem n h)

  -- The entry meant for the vectors lies behind the tables.
  pub stray : (init_paging memset p mem).mem ((init_paging memset p mem).physfree + 0x3C0) ≡ 3
  unfolding update
  stray = rw init_paging_lem (ground arith)
