-- ===== src/Fault.antt =====
-- `do_page_fault` of kernel/page.c over the zones of virtual addresses, the physical frames and the
-- page table. Of the memory that `memset` fills, the words of the page table are part of the state; the
-- address that it is called with is a result.
pub mod Flags
pub mod Mapping
pub mod Outcomes
pub mod History
pub mod Stale
pub mod Processor
use epos_arm.Base.{
  ℕ, ◌+◌, ◌*◌, ◌/◌, ◌^◌, Bool, true, false, not, ◌&&◌, ◌||◌, Option, none, some, ltb, ◌==◌,
  if◌then◌else◌, bit_and, bit_or,
}
use epos_arm.Base.Word.{ℤ, pos, negsuc, size_max}
use epos_arm.Cpu.{
  kern_min_addr, user_max_addr, page_size, page_truncate, pte_v, pte_w, pte_u, vm_prot_none,
  vm_prot_write,
}
use epos_arm.PageTable.{update, vtopte}
use epos_arm.Frame.{PmZone, frame_alloc}
use epos_arm.Vmspace.{VmSpace, page_prot}

pub record Machine : Type 0 where
  pub space : VmSpace
  pub pmzone : ℕ → PmZone
  pub pt : ℕ → ℕ

pub record Outcome : Type 0 where
  pub machine : Machine
  pub cleared : Option ℕ
  pub ret : ℤ

-- What `frame_alloc(1)` returns.
abbrev pub new_frame : Machine → ℕ
new_frame m = (frame_alloc m.pmzone 1).1

-- The access code, with PTE_U for an address of the user's.
unfoldable pub access_code : (vaddr code : ℕ) → ℕ
access_code vaddr code = if ltb vaddr kern_min_addr then bit_or code pte_u else code

-- The flags of the new entry.
pub pte_flags : (prot code : ℕ) → ℕ
pte_flags prot code =
    let x = bit_or pte_v (bit_and code pte_u) in
    if not (bit_and prot vm_prot_write == 0) then bit_or x pte_w else x

-- The return of -1 with nothing changed.
abbrev refuse : Machine → Outcome
refuse m = record { machine = m; cleared = none; ret = negsuc 0 }

-- Whether the word of the table for the index `i`, which is at `USER_MAX_ADDR + 4 * i`, lies in the page of
-- `vaddr`.
unfoldable pub cleared_word : (vaddr i : ℕ) → Bool
cleared_word vaddr i = ltb i (2 ^ 20) && (user_max_addr + i * 4) / page_size == vaddr / page_size

-- The table after `memset(PAGE_TRUNCATE(vaddr), 0, PAGE_SIZE)`.
unfoldable pub clear_page : (pt : ℕ → ℕ) (vaddr : ℕ) → ℕ → ℕ
unfolding cleared_word
clear_page pt vaddr i = if cleared_word vaddr i then 0 else pt i

-- What follows the call of `frame_alloc`.
pub install : Machine → (vaddr prot code : ℕ) → (ℕ → PmZone) × ℕ → Outcome
unfolding update page_truncate clear_page
install m vaddr prot code (pmzone, paddr) =
    if not (paddr == size_max)
    then record {
      machine = record m {
        pmzone = pmzone;
        pt = clear_page (update m.pt (vtopte vaddr) (bit_or paddr (pte_flags prot code))) vaddr;
      };
      cleared = some (page_truncate vaddr);
      ret = pos 0;
    }
    else refuse (record m { pmzone = pmzone })

pub do_page_fault : Machine → (vaddr code : ℕ) → Outcome
unfolding install
do_page_fault m vaddr code =
    let prot = page_prot m.space vaddr in
    let code' = access_code vaddr code in
    if prot == size_max || prot == vm_prot_none
    then refuse m
    else (if bit_and code' pte_v == 0
        then install m vaddr prot code' (frame_alloc m.pmzone 1)
        else refuse m)
