-- ===== src/Tests/Faults.antt =====
-- kernel/page.c: page faults of the user at three pages of its addresses.
use epos_arm.Base.{
  ℕ, List, some, true, ◌+◌, ◌*◌, ◌/◌, ◌%◌, ◌≡◌, ◌≢◌, ◌⊎◌, refl, arith, if◌then◌else◌, ◌==◌, [], ◌∷◌,
}
use epos_arm.Base.Word.{size_max, pos}
use epos_arm.Cpu.{page_size}
use epos_arm.PageTable.{vtop}
use epos_arm.Bitmap.{bitmap_scan, bitmap_contains, bitmap_test}
use epos_arm.Frame.{PmZone, frame_alloc}
use epos_arm.Vmspace.{page_prot, zones}
use epos_arm.Vmspace.Chain.{new_zone}
use epos_arm.Fault.{Machine, access_code, new_frame, cleared_word, do_page_fault}
use epos_arm.Fault.Mapping.{IsMissing, Installed}
use epos_arm.Vmspace.{VmSpace, page_free, size_of, not_positive, space_end}
use epos_arm.Vmspace.Valid.{IsValid}
use epos_arm.Vmspace.Spec.{alloc, free}
use epos_arm.Fault.History.{
  Event, zone_call, page_fault, events, OnlyClaim, IsCovered, events-IsCovered,
}
use epos_arm.Fault.Stale.{page_free_stale}
use epos_arm.Fault.Outcomes.{Refused, do_page_fault-Installed, do_page_fault_again}

abbrev pub ram_zones : ℕ → PmZone
ram_zones z =
    if z == 0
    then record {
      base = 0x10_4000;
      limit = 0xef_c000;
      bitmap = record { bit_cnt = 3; bits = λ i. 0 };
    }
    else record { base = 0; limit = 0; bitmap = record { bit_cnt = 0; bits = λ i. 0 } }

abbrev pub machine : Machine
machine = record {
  space = record { kvmzone = []; uvmzone = new_zone 16 0x40_0000 0x3000 7 ∷ [] };
  pmzone = ram_zones;
  pt = λ i. 0;
}

pub ram_aligned : (z : ℕ) → (ram_zones z).base % page_size ≡ 0
ram_aligned z = ground arith

do_page_fault-Installed_example :
    (IsMissing machine 0x40_1234 6
      × (new_frame machine ≢ size_max)
      × Installed machine 0x40_1234 6 (new_frame machine) (do_page_fault machine 0x40_1234 6))
    ⊎ ((¬ (IsMissing machine 0x40_1234 6 × (new_frame machine ≢ size_max)))
        × Refused machine (do_page_fault machine 0x40_1234 6))
do_page_fault-Installed_example = do_page_fault-Installed machine 0x40_1234 6 ram_aligned

first-IsMissing : IsMissing machine 0x40_1234 6
unfolding page_prot access_code zones
first-IsMissing = record { known = omega arith; allowed = omega arith; invalid = refl }

next-IsMissing : IsMissing machine 0x40_2008 4
unfolding page_prot access_code zones
next-IsMissing = record { known = omega arith; allowed = omega arith; invalid = refl }

pub frame_left : new_frame machine ≢ size_max
unfolding frame_alloc bitmap_scan bitmap_contains bitmap_test
frame_left = omega arith

do_page_fault_again_example :
    let pt = (do_page_fault (do_page_fault machine 0x40_1234 6).machine 0x40_2008 4).machine.pt in
    vtop pt (0x40_1234 / page_size * page_size + 8)
    ≡ vtop pt (0x40_2008 / page_size * page_size + 8)
do_page_fault_again_example =
    do_page_fault_again machine 0x40_1234 6 0x40_2008 4 8 ram_aligned first-IsMissing next-IsMissing
      frame_left (omega arith) (omega arith) (omega arith) (omega arith)

-- The word for 0x400000, in the second page of the table, and that for the page of its own word.
cleared_words : (cleared_word 0xBFC0_1000 0x400 ≡ true) × (cleared_word 0xBFEF_F123 0xB_FEFF ≡ true)
unfolding cleared_word
cleared_words = (refl, refl)

-- The same three pages, in a valid space with an empty table of pages.
abbrev kernel_too : Machine
kernel_too = record machine {
  space = record {
    kvmzone = new_zone 8 0xbfc0_0000 0x80_0000 7 ∷ [];
    uvmzone = new_zone 16 0x40_0000 0x3000 7 ∷ [];
  };
}

kernel_too-IsValid : IsValid kernel_too.space
kernel_too-IsValid = record { user = omega arith; kernel = omega arith; km0 = refl }

kernel_too-IsCovered : IsCovered kernel_too
kernel_too-IsCovered = record { valid = kernel_too-IsValid; entries = λ i used. absurd (used refl) }

-- Two pages more, and a fault in them.
abbrev grown : List Event
grown = zone_call (alloc 32 2 7 true) ∷ page_fault 0x40_4010 6 ∷ []

grown_allowed : OnlyClaim grown
unfolding space_end
grown_allowed = omega arith

events-IsCovered_example : (m' : Machine) × (events kernel_too grown ≡ some m') × IsCovered m'
events-IsCovered_example = events-IsCovered kernel_too grown kernel_too-IsCovered grown_allowed

abbrev emptied : VmSpace
emptied = record kernel_too.space { uvmzone = [] }

all_freed : page_free kernel_too.space 0x40_0000 (pos 3) ≡ some (emptied, 16)
unfolding page_free zones size_of not_positive
all_freed = refl

fourth-IsMissing : IsMissing kernel_too 0x40_1234 6
unfolding page_prot access_code zones
fourth-IsMissing = record { known = omega arith; allowed = omega arith; invalid = refl }

page_free_stale_example :
    (m' : Machine) × (events kernel_too (page_fault 0x40_1234 6 ∷ zone_call (free 0x40_0000 3) ∷ [])
      ≡ some m')
    × (page_prot m'.space 0x40_1234 ≡ size_max)
    × (vtop m'.pt (0x40_1234 / page_size * page_size + 8) ≡ new_frame kernel_too + 8)
page_free_stale_example =
    page_free_stale kernel_too 0x40_1234 6 0x40_0000 3 8 emptied 16 ram_aligned kernel_too-IsValid
      fourth-IsMissing (omega arith) frame_left (omega arith) all_freed refl (omega arith)
