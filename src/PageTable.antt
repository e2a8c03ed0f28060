-- ===== src/PageTable.antt =====
-- The page table `PT` of kernel/kernel.h and the functions of kernel/page.c that write it. A table
-- gives the entry at an index.
pub mod Map
use epos_arm.Base.{ℕ, zero, suc, ◌+◌, ◌*◌, ◌/◌, ◌^◌, ◌==◌, if◌then◌else◌, bit_and, bit_or}
use epos_arm.Base.Word.{u32}
use epos_arm.Cpu.{page_size, page_mask}

-- `t[i] = v`
unfoldable pub update {ℓ} : {A : Type ℓ} → (ℕ → A) → ℕ → A → ℕ → A
update t i v j = if j == i then v else t j

-- The index of the entry for an address: `vtopte(va)` is `PT + (va >> PAGE_SHIFT)`.
abbrev pub vtopte : ℕ → ℕ
vtopte va = va / 2 ^ 12

-- The physical address that the table gives for a virtual one.
pub vtop : (pt : ℕ → ℕ) (va : ℕ) → ℕ
vtop pt va = bit_or (bit_and (pt (vtopte va)) 0xffff_f000) (bit_and va page_mask)

pub page_map : (pt : ℕ → ℕ) (vaddr paddr npages flags : ℕ) → ℕ → ℕ
unfolding update
page_map pt vaddr paddr zero flags = pt
page_map pt vaddr paddr (suc npages) flags =
    page_map (update pt (vtopte vaddr) (bit_or paddr flags)) (u32 (vaddr + page_size))
      (u32 (paddr + page_size)) npages flags

pub page_unmap : (pt : ℕ → ℕ) (vaddr npages : ℕ) → ℕ → ℕ
unfolding update
page_unmap pt vaddr zero = pt
page_unmap pt vaddr (suc npages) =
    page_unmap (update pt (vtopte vaddr) 0) (u32 (vaddr + page_size)) npages
