-- ===== src/Startup.antt =====
-- `cstart` of kernel/machdep.c, which the assembly entry calls, and `mi_startup` of kernel/startup.c.
-- `none` is too little fuel for the serial port.
pub mod Silent
pub mod Ready
pub mod Idle
use epos_arm.Base.{ℕ, zero, suc, ◌+◌, ◌-◌, ◌*◌, ◌^◌, Option, some, List, [], ◌∷◌, bit_and, ◌>>=◌}
use mathlib.Core.Option
use epos_arm.Base.Word.{u32}
use epos_arm.Device.{Answers, World}
use epos_arm.Uart.{uart_init, uart_puts}
use epos_arm.Printk.{literal, Formatter}
use epos_arm.Timer.{init_arm_timer}
use epos_arm.Interrupt.{print, pause}
use epos_arm.Task.{Tasks, Symbols, max_rank, task_init, task_create, task_run}
use epos_arm.Boot.{Memset, load_address, md_startup}

abbrev pub kernel_1hz : ℕ
kernel_1hz = 1000000

pub record Kernel : Type 0 where
  pub mem : ℕ → ℕ
  pub g_ram_zone : ℕ → ℕ
  pub tasks : Tasks
  pub world : World

-- The addresses of the three functions that `cstart` makes tasks of.
pub record Entries : Type 0 where
  pub task_idle0 : ℕ
  pub task_idle1 : ℕ
  pub task_idle2 : ℕ

-- The variable `end`, of the address of `_end`: a multiple of 16 KiB.
unfoldable pub end_of : (end : ℕ) → ℕ
end_of end = bit_and (u32 (end + (0x4000 - 1))) (2 ^ 32 - 1 - (0x4000 - 1))

-- `task_create` and `task_run` of a task of the rank MAX_rank.
unfoldable pub start_task : Symbols → (junk : ℕ) → Tasks → (task_func : ℕ) → Tasks
start_task y junk s task_func =
    let (s1, tid) = task_create y junk s max_rank task_func in (task_run s1 tid).0

-- `task_init` and the three tasks of `cstart`. `junk` is what each call of `task_create` finds in the
-- field that it does not set.
unfoldable pub start_tasks : Symbols → Entries → (junk : ℕ → ℕ) → Tasks → Tasks
start_tasks y e junk s =
    let s0 = task_init y (junk 0) s in
    let s1 = start_task y (junk 1) s0 e.task_idle0 in
    let s2 = start_task y (junk 2) s1 e.task_idle1 in start_task y (junk 3) s2 e.task_idle2

module _ (answers : Answers) (fuel : ℕ) (vsnprintf : Formatter) where
  -- The texts that `cstart` prints.
  unfoldable pub welcome : World → Option World
  welcome w =
      print answers fuel vsnprintf (literal "Welcome to ARM-EPOS\r\n" []) w
      >>= print answers fuel vsnprintf (literal "PF:0x%d(0x%d)" (800 ∷ 5 ∷ []))
      >>= print answers fuel vsnprintf
          (literal "Copyright (C) 2005-2015 MingJian Hong<hongmingjian@gmail.com>\r\n" [])
      >>= print answers fuel vsnprintf (literal "Author: fengzhimin \r\n" [])
      >>= print answers fuel vsnprintf (literal "All rights reserved.\r\n\r\n" [])

  -- `cstart` up to its endless loop, without the assembly that masks interrupts and moves the stack.
  unfoldable pub cstart :
      Memset → Symbols → Entries → (junk : ℕ → ℕ) → (end mbi : ℕ) → Kernel → Option Kernel
  cstart memset y e junk end mbi k =
      let (mem, ram) = md_startup memset mbi (load_address (end_of end)) k.mem k.g_ram_zone in
      Option.map
        (λ w. record {
          mem = mem;
          g_ram_zone = ram;
          tasks = start_tasks y e junk k.tasks;
          world = init_arm_timer kernel_1hz w;
        })
        (welcome (uart_init answers k.world))

  -- `mi_startup`, whose calls but those of `printk` are commented out.
  unfoldable pub mi_startup : World → Option World
  mi_startup w =
      print answers fuel vsnprintf (literal "Welcome to EPOS\r\n" []) w
      >>= print answers fuel vsnprintf
          (literal "Copyright (C) 2005-2015 MingJian Hong<hongmingjian@gmail.com>\r\n" [])
      >>= print answers fuel vsnprintf (literal "All rights reserved.\r\n\r\n" [])

  -- The three tasks of `cstart`, each up to its endless loop that does nothing.
  unfoldable pub task_idle0 : World → Option World
  task_idle0 w = print answers fuel vsnprintf (literal "first task create success!\r\n" []) w

  unfoldable pub task_idle1 : World → Option World
  task_idle1 w = print answers fuel vsnprintf (literal "second task create success!\r\n" []) w

  unfoldable pub task_idle2 : World → Option World
  task_idle2 w = print answers fuel vsnprintf (literal "third task create success!\r\n" []) w

  -- `n` rounds of the endless loop of `task_idle` of kernel/task.c, with its text at `str`.
  unfoldable pub task_idle : (mem : ℕ → ℕ) → (str n : ℕ) → World → Option World
  task_idle mem str zero w = some w
  task_idle mem str (suc n) w =
      uart_puts answers fuel mem str w >>= pause answers fuel vsnprintf 100 >>= λ v.
      task_idle mem str n v
