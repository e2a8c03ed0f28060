-- ===== src/Cpu.antt =====
-- Constants and macros of kernel/cpu.h and kernel/kernel.h for pages, page table entries and the
-- layout of the address space.
pub mod Pages
use epos_arm.Base.{ℕ, ◌+◌, ◌-◌, ◌*◌, ◌/◌, ◌^◌, bit_and, bit_or}
use epos_arm.Base.Word.{u32}

abbrev pub page_size : ℕ
page_size = 1 * 2 ^ 12

abbrev pub page_mask : ℕ
page_mask = page_size - 1

-- `x & ~PAGE_MASK`
unfoldable pub page_truncate : ℕ → ℕ
page_truncate x = bit_and x 0xffff_f000

unfoldable pub page_roundup : ℕ → ℕ
page_roundup x = bit_and (u32 (x + 1 * 2 ^ 14)) 0xffff_c000

abbrev pub pte_v : ℕ
pte_v = 0x001

abbrev pub pte_w : ℕ
pte_w = 0x002

abbrev pub pte_u : ℕ
pte_u = 0x004

abbrev pub vaddr_of : ℕ → ℕ → ℕ
vaddr_of pdi pti = pdi * 2 ^ 20 + pti * 2 ^ 12

abbrev pub kern_max_addr : ℕ
kern_max_addr = vaddr_of 0xfff 0

abbrev pub kern_min_addr : ℕ
kern_min_addr = vaddr_of 0xc00 4

abbrev pub user_max_addr : ℕ
user_max_addr = vaddr_of 0xbfc 0

abbrev pub user_min_addr : ℕ
user_min_addr = vaddr_of 4 0

abbrev pub vm_prot_none : ℕ
vm_prot_none = 0x00

abbrev pub vm_prot_read : ℕ
vm_prot_read = 0x01

abbrev pub vm_prot_write : ℕ
vm_prot_write = 0x02

abbrev pub vm_prot_exec : ℕ
vm_prot_exec = 0x04

abbrev pub vm_prot_all : ℕ
vm_prot_all = bit_or (bit_or vm_prot_read vm_prot_write) vm_prot_exec
