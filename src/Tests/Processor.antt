-- ===== src/Tests/Processor.antt =====
-- kernel/page.c: a page fault of the kernel in a zone that allows reading alone, as the processor sees it.
use epos_arm.Base.{ℕ, some, ◌+◌, ◌*◌, ◌/◌, ◌%◌, ◌^◌, ◌≡◌, refl, arith, if◌then◌else◌, ◌==◌, [], ◌∷◌}
use epos_arm.Cpu.{page_size}
use epos_arm.PageTable.{update}
use epos_arm.Vmspace.{page_prot, zones}
use epos_arm.Vmspace.Chain.{new_zone}
use epos_arm.Fault.{Machine, access_code, new_frame}
use epos_arm.Fault.Mapping.{IsMissing}
use epos_arm.Fault.Processor.{fault_word, translate-do_page_fault}
use epos_arm.Boot.Walk.{translate}
use epos_arm.Boot.Window.{vtopte_address}
use epos_arm.Boot.SmallPages.{small_init_paging}
use epos_arm.Tests.Boots.{fill, fill-IsMemset, loaded-IsStart}
use epos_arm.Tests.Faults.{machine, ram_aligned, frame_left}

abbrev kernel_page : Machine
kernel_page = record machine {
  space = record machine.space { kvmzone = new_zone 8 0xC010_0000 0x3000 1 ∷ [] };
}

kernel-IsMissing : IsMissing kernel_page 0xC010_1234 0
unfolding page_prot access_code zones
kernel-IsMissing = record { known = omega arith; allowed = omega arith; invalid = refl }

translate-do_page_fault_example :
    let mem' = (small_init_paging fill 0x1_0000 (λ a. 0xFFFF_FFFF)).mem in
    (place : ℕ) × (translate mem' 0x1_0000 (vtopte_address 0xC010_1234) ≡ some place)
    × (translate (update mem' place (fault_word kernel_page 0xC010_1234 0)) 0x1_0000 0xC010_1234 ≡ (
        if page_prot kernel_page.space 0xC010_1234 / 2 % 2 == 0
        then some (new_frame kernel_page / 2 ^ 16 * 2 ^ 16 + 0xC010_1234 % 2 ^ 16)
        else some (new_frame kernel_page + 0xC010_1234 % page_size)))
translate-do_page_fault_example =
    translate-do_page_fault fill fill-IsMemset 0x1_0000 loaded-IsStart (λ a. 0xFFFF_FFFF)
      kernel_page 0xC010_1234 0 ram_aligned kernel-IsMissing frame_left (omega arith) (omega arith)
