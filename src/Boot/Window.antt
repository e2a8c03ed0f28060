-- ===== src/Boot/Window.antt =====
-- The pointers `PT` and `PTD` of kernel/startup.c, through which the kernel writes its tables, behind the
-- tables of `init_paging` in kernel/machdep.c.
use epos_arm.Base.{ℕ, ◌+◌, ◌*◌, ◌^◌, ◌<◌, ◌≡◌, ap, ◌∙◌, none, some, arith}
use epos_arm.Base.Word.{u32}
use epos_arm.Cpu.{kern_min_addr, user_max_addr}
use epos_arm.PageTable.{vtopte}
use epos_arm.Boot.{Memset, IsMemset, md_startup}
use epos_arm.Boot.Tables.{IsStart, mapped_end_bounds}
use epos_arm.Boot.Walk.{translate, translate-identity, translate-none}

abbrev pub ptd : ℕ
ptd = kern_min_addr

abbrev pub pt : ℕ
pt = user_max_addr

-- The address that the macro `vtopte` gives.
abbrev pub vtopte_address : ℕ → ℕ
vtopte_address va = u32 (pt + vtopte va * 4)

-- Behind `md_startup`, from an address that is a multiple of 16 KiB and leaves 52 KiB below 16 MiB, no
-- address `vtopte(va)` has a translation, so that none of the writes of `page_map` and `do_page_fault`
-- through it gets to memory, and `PTD[i]` is the word at 0x4000 + 4 * i, and not an entry of the directory.
pub md_startup-window :
    (memset : Memset)
    → IsMemset memset
    → (p : ℕ) → IsStart p
    → (mem g_ram_zone : ℕ → ℕ) (mbi va i : ℕ) → va < 2 ^ 32
    → i < 0x1000
    → let after = (md_startup memset mbi p mem g_ram_zone).0 in
      (translate after p (vtopte_address va) ≡ none)
      × (translate after p (ptd + i * 4) ≡ some (0x4000 + i * 4))
unfolding md_startup
md_startup-window memset m p b mem g_ram_zone mbi va i small few =
    let (here, above) =
      translate-identity memset m p b mem (0x4000 + i * 4)
        (omega (arith, mapped_end_bounds memset m p b mem)) in
    (
      translate-none memset m p b mem (vtopte_address va) (omega arith) (omega arith) (omega arith),
      ap (translate (md_startup memset mbi p mem g_ram_zone).0 p) (omega arith) ∙ above,
    )
