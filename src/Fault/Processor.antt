-- ===== src/Fault/Processor.antt =====
-- The entries that `do_page_fault` of kernel/page.c writes, as the processor reads them.
use epos_arm.Base.{
  ℕ, ◌+◌, ◌*◌, ◌/◌, ◌%◌, ◌^◌, ◌≤◌, ◌<◌, ◌≡◌, ◌≢◌, ap, refl, ◌∙◌, inl, inr, some, arith, ◌==◌,
  if◌then◌else◌, Bool-cases,
}
use epos_arm.Base.Word.{size_max}
use epos_arm.Cpu.{page_size}
use epos_arm.PageTable.{update, vtopte}
use epos_arm.Frame.Aligned.{frame_alloc_aligned}
use epos_arm.Vmspace.{page_prot}
use epos_arm.Fault.{Machine, Outcome, access_code, new_frame, do_page_fault}
use epos_arm.Fault.Mapping.{IsMissing, outside_own, install-entry}
use epos_arm.Fault.Outcomes.{missing_lem}
use epos_arm.Boot.{Memset, IsMemset, kernbase}
use epos_arm.Boot.Tables.{IsStart}
use epos_arm.Boot.Walk.{translate, page_at, page_at-small, page_at-large}
use epos_arm.Boot.Window.{vtopte_address}
use epos_arm.Boot.SmallPages.{small_init_paging}
use epos_arm.Boot.SmallPages.SelfMap.{translate-written}

-- The word that `do_page_fault` writes to the table for a missing page.
abbrev pub fault_word : (m : Machine) (vaddr code : ℕ) → ℕ
fault_word m vaddr code = (do_page_fault m vaddr code).machine.pt (vtopte vaddr)

page_at-fault_word :
    (paddr prot code va : ℕ)
    → (paddr % 2 ^ 12 ≡ 0) × (paddr + 2 ^ 12 ≤ 2 ^ 32)
    → page_at (paddr + (1 + 2 * (prot / 2 % 2) + 4 * (code / 4 % 2))) va ≡ (
        if prot / 2 % 2 == 0
        then some (paddr / 2 ^ 16 * 2 ^ 16 + va % 2 ^ 16)
        else some (paddr + va % 2 ^ 12))
page_at-fault_word paddr prot code va page = elim (Bool-cases (prot / 2 % 2 == 0)) [
  | inl read_only ↦
      let none : prot / 2 % 2 ≡ 0 = ground (arith, read_only) in
      rw read_only
        (page_at-large paddr (1 + 2 * (prot / 2 % 2) + 4 * (code / 4 % 2)) va page (omega arith))
  | inr writable ↦
      let one : prot / 2 % 2 ≢ 0 = ground (arith, writable) in
      rw writable
        (page_at-small paddr (1 + 2 * (prot / 2 % 2) + 4 * (code / 4 % 2)) va page (omega arith))
]

-- With the tables of the branch of `init_paging` that is not compiled, made from an address that is a multiple of 16 KiB
-- and leaves 52 KiB below 16 MiB, with zones of memory that begin at pages, and at a fault on a missing page of
-- the kernel's 20 MiB with a frame left: the word that `do_page_fault` writes, at the place that
-- `vtopte(vaddr)` is translated to, makes the processor find the frame if the zone is writable, and otherwise the large
-- page of 64 KiB in which the frame lies, at the offset of `vaddr` in 64 KiB.
pub translate-do_page_fault :
    (memset : Memset)
    → IsMemset memset
    → (p : ℕ) → IsStart p
    → (mem : ℕ → ℕ) (m : Machine) (vaddr code : ℕ) → ((z : ℕ) → (m.pmzone z).base % page_size ≡ 0)
    → IsMissing m vaddr code
    → new_frame m ≢ size_max
    → kernbase ≤ vaddr
    → vaddr < kernbase + 20 * 2 ^ 20
    → let mem' = (small_init_paging memset p mem).mem in
      (place : ℕ) × (translate mem' p (vtopte_address vaddr) ≡ some place)
      × (translate (update mem' place (fault_word m vaddr code)) p vaddr ≡ (
          if page_prot m.space vaddr / 2 % 2 == 0
          then some (new_frame m / 2 ^ 16 * 2 ^ 16 + vaddr % 2 ^ 16)
          else some (new_frame m + vaddr % page_size)))
translate-do_page_fault memset ms p b mem m vaddr code aligned missing found low high =
    let address = frame_alloc_aligned m.pmzone aligned 1 found in
    let word : fault_word m vaddr code
        ≡ new_frame m
          + (1 + 2 * (page_prot m.space vaddr / 2 % 2) + 4 * (access_code vaddr code / 4 % 2)) =
      ap (λ (o : Outcome). o.machine.pt (vtopte vaddr)) (missing_lem m vaddr code missing)
      ∙ install-entry m vaddr code (record { word = address.0; aligned = address.1 })
      ∙ rw (outside_own vaddr (inr (omega arith))) refl in
    let (place, reached, read) =
      translate-written memset ms p b mem vaddr (fault_word m vaddr code) low high in
    (
      place,
      reached,
      read
          ∙ ap (λ (w : ℕ). page_at w vaddr) word
          ∙ page_at-fault_word (new_frame m) (page_prot m.space vaddr) (access_code vaddr code)
              vaddr (omega (arith, address)),
    )
