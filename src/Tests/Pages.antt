-- ===== src/Tests/Pages.antt =====
-- kernel/cpu.h and the page table of kernel/page.c at eight pages from 0xc1000000 on.
use epos_arm.Base.{ℕ, ◌+◌, ◌≡◌, refl, arith}
use epos_arm.Cpu.{page_roundup}
use epos_arm.PageTable.{vtop, page_map}
use epos_arm.PageTable.Map.{vtop-page_map}

abbrev empty : ℕ → ℕ
empty i = 0

page_roundup_example : page_roundup 0x4000 ≡ 0x8000
unfolding page_roundup
page_roundup_example = refl

vtop-page_map_example :
    vtop (page_map empty 0xc100_0000 0x2000_0000 8 3) (0xc100_0000 + 0x2345) ≡ 0x2000_0000 + 0x2345
vtop-page_map_example =
    vtop-page_map empty 0xc100_0000 0x2000_0000 8 3 0x2345 refl refl (omega arith) (omega arith)
      (omega arith) (omega arith)
