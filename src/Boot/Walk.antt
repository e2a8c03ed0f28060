-- ===== src/Boot/Walk.antt =====
-- The addresses that the processor reaches through the tables of `init_paging` in kernel/machdep.c.
use epos_arm.Base.{
  ℕ, ◌+◌, ◌-◌, ◌*◌, ◌/◌, ◌%◌, ◌^◌, ◌≤◌, ◌<◌, ◌≡◌, refl, ap, ◌∙◌, ◌⊎◌, Option, none, some, arith,
  bit_and, leb, ◌==◌, if◌then◌else◌, true, false,
}
use epos_arm.Base.Bits.{bit_and_mask, bit_and_shift}
use epos_arm.Cpu.Pages.{frame_bits}
use epos_arm.PageTable.{update}
use epos_arm.Boot.{Memset, IsMemset, init_paging, init_ram, md_startup, kernbase}
use epos_arm.Boot.Tables.{
  IsStart, mapped_end, init_paging-physfree, mapped_end_bounds, directory, directory_empty,
  identity, io, stray,
}

-- What an entry of a table gives for `va`: one whose second bit is set a page of 4 KiB, and any other whose first
-- bit is set a large page of 64 KiB.
unfoldable pub page_at : (entry va : ℕ) → Option ℕ
page_at entry va =
    if leb 2 (entry % 4)
    then some (bit_and entry 0xFFFF_F000 + va % 2 ^ 12)
    else (if entry % 4 == 1 then some (bit_and entry 0xFFFF_0000 + va % 2 ^ 16) else none)

-- The physical address that an ARM processor finds for `va` with the page directory at `ttbr`: an entry of the
-- directory whose low two bits are 1 gives a table.
unfoldable pub translate : (mem : ℕ → ℕ) → (ttbr va : ℕ) → Option ℕ
translate mem ttbr va =
    let first = mem (ttbr + va / 2 ^ 20 * 4) in
    let second = mem (bit_and first 0xFFFF_FC00 + va / 2 ^ 12 % 256 * 4) in
    if first % 4 == 1 then page_at second va else none

pub table_bits : (a : ℕ) → a < 2 ^ 32 → bit_and a 0xFFFF_FC00 ≡ a / 1024 * 1024
table_bits a h =
    bit_and_shift 10 a (2 ^ 22 - 1)
    ∙ ap (λ (t : ℕ). t * 2 ^ 10) (bit_and_mask 22 (a / 2 ^ 10))
    ∙ omega arith

-- The entry that both levels lead to.
pub translate-page_at :
    (mem : ℕ → ℕ) (ttbr va table entry i j : ℕ)
    → (va / 2 ^ 20 ≡ i) × (va / 2 ^ 12 % 256 ≡ j)
    → (table % 2 ^ 10 ≡ 0) × (table + 2 ^ 10 ≤ 2 ^ 32)
    → mem (ttbr + i * 4) ≡ table + 1
    → mem (table + j * 4) ≡ entry
    → translate mem ttbr va ≡ page_at entry va
unfolding translate
translate-page_at mem ttbr va table entry i j (at_i, at_j) (multiple, fits) first second =
    let coarse : ((table + 1) % 4 == 1) ≡ true = ground arith in
    let base : bit_and (table + 1) 0xFFFF_FC00 ≡ table =
      table_bits (table + 1) (omega arith) ∙ omega arith in
    rw (at_i, at_j, first, coarse, base, second) refl

pub page_at-small :
    (frame flags va : ℕ)
    → (frame % 2 ^ 12 ≡ 0) × (frame + 2 ^ 12 ≤ 2 ^ 32)
    → (flags < 2 ^ 12) × (2 ≤ flags % 4)
    → page_at (frame + flags) va ≡ some (frame + va % 2 ^ 12)
unfolding page_at
page_at-small frame flags va (page, small) (offset, kind) =
    let valid : leb 2 ((frame + flags) % 4) ≡ true = ground arith in
    let bits : bit_and (frame + flags) 0xFFFF_F000 ≡ frame =
      frame_bits (frame + flags) (omega arith) ∙ omega arith in
    rw (valid, bits) refl

pub page_at-large :
    (frame flags va : ℕ)
    → (frame % 2 ^ 12 ≡ 0) × (frame + 2 ^ 12 ≤ 2 ^ 32)
    → (flags < 2 ^ 12) × (flags % 4 ≡ 1)
    → page_at (frame + flags) va ≡ some (frame / 2 ^ 16 * 2 ^ 16 + va % 2 ^ 16)
unfolding page_at
page_at-large frame flags va (page, small) (offset, kind) =
    let other : leb 2 ((frame + flags) % 4) ≡ false = ground arith in
    let large : ((frame + flags) % 4 == 1) ≡ true = ground arith in
    let bits : bit_and (frame + flags) 0xFFFF_0000 ≡ frame / 2 ^ 16 * 2 ^ 16 =
      bit_and_shift 16 (frame + flags) (2 ^ 16 - 1)
      ∙ ap (λ (t : ℕ). t * 2 ^ 16) (bit_and_mask 16 ((frame + flags) / 2 ^ 16))
      ∙ omega arith in
    rw (other, large, bits) refl

-- A page of 4 KiB at `frame` that both levels name.
pub translate-some :
    (mem : ℕ → ℕ) (ttbr va table frame flags i j off : ℕ)
    → (va / 2 ^ 20 ≡ i) × (va / 2 ^ 12 % 256 ≡ j) × (va % 2 ^ 12 ≡ off)
    → (table % 2 ^ 10 ≡ 0) × (table + 2 ^ 10 ≤ 2 ^ 32)
    → (frame % 2 ^ 12 ≡ 0) × (frame + 2 ^ 12 ≤ 2 ^ 32)
    → (flags < 2 ^ 12) × (2 ≤ flags % 4)
    → mem (ttbr + i * 4) ≡ table + 1
    → mem (table + j * 4) ≡ frame + flags
    → translate mem ttbr va ≡ some (frame + off)
translate-some mem ttbr va table frame flags i j off (at_i, at_j, at_off) fits page kind first
      second =
    translate-page_at mem ttbr va table (frame + flags) i j (at_i, at_j) fits first second
    ∙ page_at-small frame flags va page kind
    ∙ ap (λ (t : ℕ). some (frame + t)) at_off

module _ (memset : Memset) (m : IsMemset memset) (p : ℕ) (b : IsStart p) (mem : ℕ → ℕ) where
  -- An entry of the tables serves two addresses, `va` in the first 20 MiB and that above the base of the kernel.
  translate-twice :
      (va frame : ℕ)
      → va < 20 * 2 ^ 20
      → frame % 2 ^ 12 ≡ 0
      → frame + 2 ^ 12 ≤ 2 ^ 32
      → (init_paging memset p mem).mem (p + 2 ^ 14 + va / 2 ^ 12 * 4) ≡ frame + 3
      → (translate (init_paging memset p mem).mem p va ≡ some (frame + va % 2 ^ 12))
        × (translate (init_paging memset p mem).mem p (kernbase + va) ≡ some (frame + va % 2 ^ 12))
  translate-twice va frame low page fits entry =
      let after = (init_paging memset p mem).mem in
      let i = va / 2 ^ 20 in
      let table = p + 2 ^ 14 + i * 2 ^ 10 in
      let (here, above) = directory memset m p b mem i (omega arith) in
      let second : after (table + va / 2 ^ 12 % 256 * 4) ≡ frame + 3 =
        ap after (omega arith) ∙ entry in
      let find =
        λ (a k : ℕ). translate-some after p a table frame 3 k (va / 2 ^ 12 % 256) (va % 2 ^ 12) in
      let aligned : (table % 2 ^ 10 ≡ 0) × (table + 2 ^ 10 ≤ 2 ^ 32) =
        omega (arith, b.multiple, b.low) in
      (
        find va i (refl, refl, refl) aligned (page, fits) (omega arith) here second,
        find (kernbase + va) (i + 0xC00) (omega arith) aligned (page, fits) (omega arith) above
            second,
      )

  -- Behind `init_paging`, from an address that is a multiple of 16 KiB and leaves 52 KiB below 16 MiB, each address below
  -- the end of the kernel rounded up is translated to itself, and so is its copy above the base of the kernel.
  pub translate-identity :
      (va : ℕ)
      → va < mapped_end p
      → (translate (init_paging memset p mem).mem p va ≡ some va)
        × (translate (init_paging memset p mem).mem p (kernbase + va) ≡ some va)
  translate-identity va h =
      let (here, above) =
        translate-twice va (va / 2 ^ 12 * 2 ^ 12)
          (omega (arith, mapped_end_bounds memset m p b mem)) (omega arith)
          (omega (arith, mapped_end_bounds memset m p b mem))
          (identity memset m p b mem (va / 2 ^ 12) (omega arith)) in
      let sum : va / 2 ^ 12 * 2 ^ 12 + va % 2 ^ 12 ≡ va = omega arith in
      (here ∙ ap some sum, above ∙ ap some sum)

  -- From such an address, the addresses of the devices' registers, from 0xC1000000 on, are translated to those of the
  -- bus, from 0x20000000 on.
  pub translate-io :
      (off : ℕ)
      → off < 0x22_0000
      → translate (init_paging memset p mem).mem p (0xC100_0000 + off) ≡ some (0x2000_0000 + off)
  translate-io off h =
      let n = off / 2 ^ 12 in
      let slot : p + 2 ^ 14 + (0x100_0000 + off) / 2 ^ 12 * 4 ≡ p + 2 ^ 14 + (0x1000 + n) * 4 =
        omega arith in
      let (low, above) =
        translate-twice (0x100_0000 + off) (0x2000_0000 + n * 2 ^ 12) (omega arith) (omega arith)
          (omega arith)
          (ap (init_paging memset p mem).mem slot ∙ io memset m p b mem n (omega arith)) in
      ap (translate (init_paging memset p mem).mem p) (omega arith) ∙ above ∙ ap some (omega arith)

  pub translate-none :
      (va : ℕ)
      → va < 2 ^ 32
      → 20 * 2 ^ 20 ≤ va
      → (va < kernbase) ⊎ (kernbase + 20 * 2 ^ 20 ≤ va)
      → translate (init_paging memset p mem).mem p va ≡ none
  unfolding translate
  translate-none va small above out =
      let empty =
        directory_empty memset m p b mem (va / 2 ^ 20) (omega arith) (omega arith) (omega arith) in
      rw empty refl

  -- From such an address, `md_startup` leaves the high page of the exception vectors without a
  -- translation, and writes the entry meant for it behind the tables, into the range that `init_ram` gives out as free.
  pub md_startup_stray :
      (mbi : ℕ) (g_ram_zone : ℕ → ℕ) (va : ℕ)
      → va / 2 ^ 12 ≡ 0xFFFF0
      → let (after, ram) = md_startup memset mbi p mem g_ram_zone in
        (translate after p va ≡ none)
        × (after (ram 0 + 0x3C0) ≡ 3)
        × (ram 0 ≡ p + 0x9000)
        × (ram 0 + 0x3C0 < ram 1)
  unfolding md_startup init_ram update
  md_startup_stray mbi g_ram_zone va vectors =
      let free : (init_paging memset p mem).physfree ≡ p + 0x9000 =
        init_paging-physfree memset m p b mem in
      (
        translate-none va (omega arith) (omega arith) (omega arith),
        stray memset m p b mem,
        free,
        omega (arith, free, b.low),
      )
