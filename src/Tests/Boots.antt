-- ===== src/Tests/Boots.antt =====
-- kernel/machdep.c: a kernel of 37 KiB that starts with the devices and the tables of the other tests.
use epos_arm.Base.{◌+◌, ◌*◌, ◌≤◌, ◌<◌, ◌≡◌, refl, ◌&&◌, leb, ltb, if◌then◌else◌, none, some, arith}
use epos_arm.Boot.{Memset, IsMemset, kernbase, load_address, md_startup}
use epos_arm.Boot.Tables.{IsStart}
use epos_arm.Boot.Walk.{translate, md_startup_stray}
use epos_arm.Boot.Window.{ptd, vtopte_address, md_startup-window}
use epos_arm.Boot.SmallPages.{small_init_paging}
use epos_arm.Boot.SmallPages.SelfMap.{entry_place, vtopte-entry_place}
use epos_arm.Startup.{Kernel, Entries, end_of, cstart}
use epos_arm.Startup.Ready.{IsBooted, cstart-IsBooted}
use epos_arm.Tests.TaskTables.{symbols, tables}
use epos_arm.Tests.Devices.{devices, quiet, stars, devices-IsAlive}

abbrev pub fill : Memset
fill mem s c n a = if leb s a && ltb a (s + n) then c else mem a

pub fill-IsMemset : IsMemset fill
fill-IsMemset = record {
  inside = λ mem s n a low high. ground arith;
  outside = λ mem s n a out. ground arith;
}

pub loaded-IsStart : IsStart 0x1_0000
loaded-IsStart = record { multiple = refl; low = omega arith }

md_startup_stray_example :
    let (after, ram) = md_startup fill 0 0x1_0000 (λ a. 0xFFFF_FFFF) (λ i. 0) in
    (translate after 0x1_0000 0xFFFF_0018 ≡ none)
    × (after (ram 0 + 0x3C0) ≡ 3)
    × (ram 0 ≡ 0x1_0000 + 0x9000)
    × (ram 0 + 0x3C0 < ram 1)
md_startup_stray_example =
    md_startup_stray fill fill-IsMemset 0x1_0000 loaded-IsStart (λ a. 0xFFFF_FFFF) 0 (λ i. 0)
      0xFFFF_0018 refl

md_startup-window_example :
    let after = (md_startup fill 0 0x1_0000 (λ a. 0xFFFF_FFFF) (λ i. 0)).0 in
    (translate after 0x1_0000 (vtopte_address 0x40_1234) ≡ none)
    × (translate after 0x1_0000 (ptd + 7 * 4) ≡ some (0x4000 + 7 * 4))
md_startup-window_example =
    md_startup-window fill fill-IsMemset 0x1_0000 loaded-IsStart (λ a. 0xFFFF_FFFF) (λ i. 0) 0
      0x40_1234 7 (omega arith) (omega arith)

vtopte-entry_place_example :
    let after = (small_init_paging fill 0x1_0000 (λ a. 0xFFFF_FFFF)).mem in
    translate after 0x1_0000 (vtopte_address 0xC012_3456)
    ≡ some (entry_place after 0x1_0000 0xC012_3456)
vtopte-entry_place_example =
    vtopte-entry_place fill fill-IsMemset 0x1_0000 loaded-IsStart (λ a. 0xFFFF_FFFF) 0xC012_3456
      (omega arith) (omega arith)

abbrev entries : Entries
entries = record { task_idle0 = 0xC000_8100; task_idle1 = 0xC000_8200; task_idle2 = 0xC000_8300 }

abbrev before : Kernel
before = record { mem = λ a. 0xFFFF_FFFF; g_ram_zone = λ i. 0; tasks = tables 2 1; world = quiet }

cstart-IsBooted_example :
    let p = load_address (end_of 0xC000_9234) in
    (0xC000_9234 ≤ kernbase + p)
    × (k' : Kernel) × (cstart devices 9 stars fill symbols entries (λ i. 7) 0xC000_9234 0 before
        ≡ some k')
    × IsBooted devices 9 stars devices-IsAlive symbols entries p before k'
cstart-IsBooted_example =
    cstart-IsBooted devices 9 stars devices-IsAlive fill fill-IsMemset symbols entries (λ i. 7)
      0xC000_9234 0 before (omega arith) (omega arith)

end_run : load_address (end_of 0xC000_9234) ≡ 0xC000
unfolding end_of
end_run = refl
