-- ===== src/Boot/SmallPages.antt =====
-- kernel/machdep.c: the other branch of `init_paging`, behind `#else`, whose tables name pages of 4 KiB and
-- also themselves, so that the kernel reads and writes their entries through `PT` and `PTD`.
pub mod Loops
pub mod KernelLoop
pub mod Words
pub mod SelfMap
pub mod Reach
use epos_arm.Base.{ℕ, zero, suc, ◌+◌, ◌-◌, ◌*◌, ◌/◌, ◌%◌, ◌^◌, bit_and, bit_or, ◌==◌, if◌then◌else◌}
use epos_arm.Base.Word.{u32, sub32}
use epos_arm.PageTable.{update}
use epos_arm.Boot.{Memset, Physical, element, fill_loop, kernbase, nr_kern_pagetable}

abbrev pub l1_table_size : ℕ
l1_table_size = 0x4000

abbrev pub l2_table_size_real : ℕ
l2_table_size_real = 0x400

abbrev pub l2_pte_num_total : ℕ
l2_pte_num_total = l2_table_size_real / 4

abbrev pub l1_type_c : ℕ
l1_type_c = 0x01

abbrev pub l1_c_dom : ℕ → ℕ
l1_c_dom x = u32 (x * 2 ^ 5)

abbrev pub l2_type_s : ℕ
l2_type_s = 0x02

abbrev pub l2_b : ℕ
l2_b = 0x0000_0004

abbrev pub l2_c : ℕ
l2_c = 0x0000_0008

abbrev pub l2_ap0 : ℕ → ℕ
l2_ap0 x = bit_and x 0x3 * 2 ^ 4

abbrev pub l2_s_tex : ℕ → ℕ
l2_s_tex x = bit_and x 0x7 * 2 ^ 6

-- `address|L1_C_DOM(0)|L1_TYPE_C`
abbrev pub coarse_entry : ℕ → ℕ
coarse_entry address = bit_or (bit_or address (l1_c_dom 0)) l1_type_c

-- `address|L2_S_TEX(0)|L2_AP0(1)|L2_C|L2_B|L2_TYPE_S`
abbrev pub page_entry : ℕ → ℕ
page_entry address =
    bit_or (bit_or (bit_or (bit_or (bit_or address (l2_s_tex 0)) (l2_ap0 1)) l2_c) l2_b) l2_type_s

-- A round of the loop over the four tables of the entries themselves.
unfoldable pub window_round : Memset → (pgdir i : ℕ) → Physical → Physical
unfolding update
window_round memset pgdir i s =
    let mem1 = update s.mem (element pgdir (0xBFC + i)) (coarse_entry s.physfree) in
    record {
      mem = memset mem1 s.physfree 0 l2_table_size_real;
      physfree = u32 (s.physfree + l2_table_size_real);
    }

-- That loop at `i` with `left` rounds to go.
unfoldable pub window_loop : Memset → (pgdir i left : ℕ) → Physical → Physical
window_loop memset pgdir i zero s = s
window_loop memset pgdir i (suc left) s =
    window_loop memset pgdir (i + 1) left (window_round memset pgdir i s)

-- A round of the loop over the tables of the kernel. Every fourth one writes to the last of the four tables at
-- `xxx`.
unfoldable pub kernel_round : Memset → (pgdir xxx i : ℕ) → Physical → Physical
unfolding update
kernel_round memset pgdir xxx i s =
    let entry = coarse_entry s.physfree in
    let mem1 = update s.mem (element pgdir (i + kernbase / 2 ^ 20)) entry in
    let mem2 = update mem1 (element pgdir i) entry in
    let mem3 =
      if bit_and i 3 == 0
      then update mem2 (element xxx (3 * l2_pte_num_total + i / 2 ^ 2)) (page_entry s.physfree)
      else mem2 in
    record {
      mem = memset mem3 s.physfree 0 l2_table_size_real;
      physfree = u32 (s.physfree + l2_table_size_real);
    }

-- That loop at `i` with `left` rounds to go.
unfoldable pub kernel_loop : Memset → (pgdir xxx i left : ℕ) → Physical → Physical
kernel_loop memset pgdir xxx i zero s = s
kernel_loop memset pgdir xxx i (suc left) s =
    kernel_loop memset pgdir xxx (i + 1) left (kernel_round memset pgdir xxx i s)

-- The values of the three last loops for the page `n`, whose first address is the `i` of the code.
abbrev pub same_page : ℕ → ℕ
same_page n = page_entry (u32 (n * 2 ^ 12))

abbrev pub directory_page : (pgdir n : ℕ) → ℕ
directory_page pgdir n = page_entry (sub32 (u32 (pgdir + n * 2 ^ 12)) 0x4000)

-- `init_paging` of this branch up to the assembly. The last loop runs while `i < pgdir`, from 0x8000 in steps of
-- 4 KiB.
unfoldable pub small_init_paging : Memset → (physfree : ℕ) → (mem : ℕ → ℕ) → Physical
unfolding update
small_init_paging memset physfree mem =
    let pgdir = physfree in
    let xxx = u32 (physfree + l1_table_size) in
    let s1 =
      window_loop memset pgdir 0 4
        (record { mem = memset mem pgdir 0 l1_table_size; physfree = xxx }) in
    let pte = s1.physfree in
    let s2 = kernel_loop memset pgdir xxx 0 nr_kern_pagetable s1 in
    let mem3 = update s2.mem (element xxx (3 * l2_pte_num_total - 1)) (page_entry xxx) in
    let mem4 = fill_loop pte 0 same_page 0 4 mem3 in
    let mem5 = fill_loop pte 0 (directory_page pgdir) 4 4 mem4 in
    record s2 { mem = fill_loop pte 0 same_page 8 ((pgdir - 0x8000 + 0xFFF) / 2 ^ 12) mem5 }
