-- ===== src/Boot.antt =====
-- kernel/machdep.c: the page directory and the page tables that the kernel starts with, and the range of
-- memory that it leaves free. `mem` gives the word at each address. `memset`, a copy of another
-- project's function, is a parameter.
pub mod Memory
pub mod Tables
pub mod Walk
pub mod Window
pub mod SmallPages
use epos_arm.Base.{ℕ, zero, suc, ◌+◌, ◌-◌, ◌*◌, ◌/◌, ◌%◌, ◌^◌, ◌≤◌, ◌<◌, ◌≡◌, ◌⊎◌, bit_and, bit_or}
use epos_arm.Base.Word.{u32, sub32}
use epos_arm.Cpu.{page_roundup, pte_v, pte_w, vaddr_of}
use epos_arm.PageTable.{update}

abbrev pub kernbase : ℕ
kernbase = vaddr_of 0xC00 0

-- `R(x)`
abbrev pub load_address : ℕ → ℕ
load_address x = sub32 x kernbase

abbrev pub nr_kern_pagetable : ℕ
nr_kern_pagetable = 20

-- The memory, the pointer, the byte and the number of bytes.
abbrev pub Memset : Type 0
Memset = (mem : ℕ → ℕ) → (s c n : ℕ) → ℕ → ℕ

-- `memset` clears the words in its range and leaves the others.
pub record IsMemset (memset : Memset) : Type 0 where
  pub inside : (mem : ℕ → ℕ) (s n a : ℕ) → s ≤ a → a + 4 ≤ s + n → memset mem s 0 n a ≡ 0
  pub outside : (mem : ℕ → ℕ) (s n a : ℕ) → (a + 4 ≤ s) ⊎ (s + n ≤ a) → memset mem s 0 n a ≡ mem a

-- The memory, and the first address behind what is in use.
pub record Physical : Type 0 where
  pub mem : ℕ → ℕ
  pub physfree : ℕ

-- `p[i]` of an array of words.
abbrev pub element : (p i : ℕ) → ℕ
element p i = u32 (p + i * 4)

-- The loop that fills the page directory, at `i` with `left` rounds to go.
pub table_loop : Memset → (pgdir i left : ℕ) → Physical → Physical
unfolding update
table_loop memset pgdir i zero s = s
table_loop memset pgdir i (suc left) s =
    let entry = bit_or s.physfree pte_v in
    let mem1 = update s.mem (element pgdir (i + kernbase / 2 ^ 20)) entry in
    let mem2 = update mem1 (element pgdir i) entry in
    table_loop memset pgdir (i + 1) left (record {
      mem = memset mem2 s.physfree 0 (1 * 2 ^ 10);
      physfree = u32 (s.physfree + 1 * 2 ^ 10);
    })

-- The loops `pte[first + i] = value(i)`, at `i` with `left` rounds to go.
pub fill_loop : (pte first : ℕ) → (value : ℕ → ℕ) → (i left : ℕ) → (mem : ℕ → ℕ) → ℕ → ℕ
unfolding update
fill_loop pte first value i zero mem = mem
fill_loop pte first value i (suc left) mem =
    fill_loop pte first value (i + 1) left (update mem (element pte (first + i)) (value i))

abbrev pub identity_entry : ℕ → ℕ
identity_entry i = bit_or (bit_or (u32 (i * 2 ^ 12)) pte_w) pte_v

abbrev pub io_entry : ℕ → ℕ
io_entry i =
    bit_or (bit_or (bit_and (u32 (0x2000_0000 + u32 (i * 2 ^ 12))) 0xFFFF_F000) pte_v) pte_w

-- `init_paging` up to the assembly that gives the processor `pgdir`, the argument `physfree`, and turns
-- the translation on. The function returns the field `physfree`.
unfoldable pub init_paging : Memset → (physfree : ℕ) → (mem : ℕ → ℕ) → Physical
init_paging memset physfree mem =
    let pgdir = physfree in
    let pte = u32 (physfree + 1 * 2 ^ 14) in
    let s =
      table_loop memset pgdir 0 nr_kern_pagetable
        (record { mem = memset mem pgdir 0 (1 * 2 ^ 14); physfree = pte }) in
    let mem1 = fill_loop pte 0 identity_entry 0 (page_roundup s.physfree / 2 ^ 12) s.mem in
    let mem2 = fill_loop pte 0x1000 io_entry 0 0x220 mem1 in
    record s { mem = update mem2 (element pte (20 * 256 + 0xF0)) (bit_or (bit_or 0 pte_v) pte_w) }

unfoldable pub init_ram : (physfree : ℕ) → (g_ram_zone : ℕ → ℕ) → ℕ → ℕ
unfolding update
init_ram physfree g_ram_zone =
    update (update (update (update g_ram_zone 0 physfree) 1 0x1FFF_FFFF) 2 0) 3 0

-- The memory and `g_ram_zone` afterwards.
unfoldable pub md_startup :
    Memset → (mbi physfree : ℕ) → (mem g_ram_zone : ℕ → ℕ) → (ℕ → ℕ) × (ℕ → ℕ)
md_startup memset mbi physfree mem g_ram_zone =
    let s = init_paging memset physfree mem in (s.mem, init_ram s.physfree g_ram_zone)
