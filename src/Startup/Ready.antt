-- ===== src/Startup/Ready.antt =====
-- The state in which `cstart` of kernel/machdep.c begins its endless loop.
use epos_arm.Base.{
  ℕ, ◌+◌, ◌-◌, ◌*◌, ◌/◌, ◌^◌, ◌≤◌, ◌<◌, ◌≡◌, refl, ap, ◌∙◌, some, List, [], ◌∷◌, ◌++◌, arith,
  bit_and,
}
use epos_arm.Base.Bits.{bit_and_mask, bit_and_shift}
use epos_arm.Base.Word.{u32}
use epos_arm.Device.{Answers, World}
use epos_arm.Uart.{uart_init}
use epos_arm.Uart.Output.{output}
use epos_arm.Printk.{literal, Formatter}
use epos_arm.Timer.{init_arm_timer}
use epos_arm.Interrupt.Returns.{Says, Says-bind, IsAlive, text, print-Says}
use epos_arm.Task.{Global, Tasks, Symbols, max_rank, task_init, start_context}
use epos_arm.Task.Create.{Started}
use epos_arm.Task.Start.{task_init-IsIdle}
use epos_arm.Task.Fill.{IsFilled, Started-IsFilled, fill_one, IsIdle-IsFilled, IsFilled-IsRunning}
use epos_arm.Task.Schedule.{schedules}
use epos_arm.Task.Turns.{task_schedule-turns}
use epos_arm.Boot.{Memset, IsMemset, kernbase, load_address, md_startup}
use epos_arm.PageTable.{update}
use epos_arm.Frame.Init.{IsRam, bitmap_bytes_bounds}
use epos_arm.Boot.{init_paging, init_ram}
use epos_arm.Boot.Tables.{IsStart, init_paging-physfree, mapped_end_bounds}
use epos_arm.Boot.Walk.{translate, translate-identity, translate-io}
use epos_arm.Startup.Silent.{uart_init-silent, init_arm_timer-silent}
use epos_arm.Startup.{Kernel, Entries, kernel_1hz, end_of, start_task, start_tasks, welcome, cstart}

start_task-Started :
    (y : Symbols) (junk n : ℕ) (s : Tasks) (task_func : ℕ)
    → n < 256
    → IsFilled n s
    → Started y s max_rank task_func n (start_task y junk s task_func)
unfolding start_task
start_task-Started y junk n s task_func h f =
    fill_one y junk n s max_rank task_func (omega arith) h f

-- The tasks that `cstart` starts: four are ready, the idle task is the current one, each of the other
-- three has its function and the top of its own stack, and fewer than 8 calls of `task_schedule` lead to any
-- of the four.
pub record IsLoaded (y : Symbols) (e : Entries) (s : Tasks) : Type 0 where
  pub filled : IsFilled 4 s
  pub current : s.task_global.tid ≡ 0
  pub first : s.task_table 1 ≡ start_context y 1 e.task_idle0
  pub second : s.task_table 2 ≡ start_context y 2 e.task_idle1
  pub third : s.task_table 3 ≡ start_context y 3 e.task_idle2
  pub turns : (j : ℕ) → j < 4 → (k : ℕ) × (k < 8) × ((schedules y k s).task_global.tid ≡ j)

pub start_tasks-IsLoaded :
    (y : Symbols) (e : Entries) (junk : ℕ → ℕ) (s : Tasks) → IsLoaded y e (start_tasks y e junk s)
unfolding start_tasks
start_tasks-IsLoaded y e junk s =
    let s0 = task_init y (junk 0) s in
    let s1 = start_task y (junk 1) s0 e.task_idle0 in
    let s2 = start_task y (junk 2) s1 e.task_idle1 in
    let s3 = start_task y (junk 3) s2 e.task_idle2 in
    let idle = task_init-IsIdle y (junk 0) s in
    let f1 = IsIdle-IsFilled y s0 idle in
    let t1 = start_task-Started y (junk 1) 1 s0 e.task_idle0 (omega arith) f1 in
    let f2 = Started-IsFilled y 1 s0 s1 max_rank e.task_idle0 f1 t1 in
    let t2 = start_task-Started y (junk 2) 2 s1 e.task_idle1 (omega arith) f2 in
    let f3 = Started-IsFilled y 2 s1 s2 max_rank e.task_idle1 f2 t2 in
    let t3 = start_task-Started y (junk 3) 3 s2 e.task_idle2 (omega arith) f3 in
    let f4 = Started-IsFilled y 3 s2 s3 max_rank e.task_idle2 f3 t3 in
    record {
      filled = f4;
      current =
          ap (λ (g : Global). g.tid) (t3.global ∙ t2.global ∙ t1.global)
          ∙ omega (arith, idle.running.current);
      first = t3.other_context 1 (omega arith) ∙ t2.other_context 1 (omega arith) ∙ t1.context;
      second = t3.other_context 2 (omega arith) ∙ t2.context;
      third = t3.context;
      turns = λ j h. task_schedule-turns y 4 s3 j (IsFilled-IsRunning 4 s3 (omega arith) f4) h;
    }

-- The rounding of `cstart`: a multiple of 16 KiB, less than 16 KiB above the end of the kernel.
end_of-IsStart :
    (end : ℕ)
    → kernbase ≤ end
    → end + 0x1_1000 ≤ kernbase + 2 ^ 24
    → IsStart (load_address (end_of end)) × (end ≤ kernbase + load_address (end_of end))
unfolding end_of
end_of-IsStart end above below =
    let round : bit_and (u32 (end + (0x4000 - 1))) (2 ^ 32 - 1 - (0x4000 - 1))
        ≡ (end + 0x3FFF) / 2 ^ 14 * 2 ^ 14 =
      bit_and_shift 14 (u32 (end + 0x3FFF)) (2 ^ 18 - 1)
      ∙ ap (λ (t : ℕ). t * 2 ^ 14) (bit_and_mask 18 (u32 (end + 0x3FFF) / 2 ^ 14))
      ∙ omega arith in
    rw round (record { multiple = omega arith; low = omega arith }, omega arith)

module _ (answers : Answers) (fuel : ℕ) (vsnprintf : Formatter)
    (a : IsAlive answers fuel vsnprintf) where
  -- The text of `cstart`.
  abbrev pub welcome_text : List ℕ
  welcome_text =
      (((text answers fuel vsnprintf a (literal "Welcome to ARM-EPOS\r\n" [])
            ++ text answers fuel vsnprintf a (literal "PF:0x%d(0x%d)" (800 ∷ 5 ∷ [])))
          ++ text answers fuel vsnprintf a
              (literal "Copyright (C) 2005-2015 MingJian Hong<hongmingjian@gmail.com>\r\n" []))
        ++ text answers fuel vsnprintf a (literal "Author: fengzhimin \r\n" []))
      ++ text answers fuel vsnprintf a (literal "All rights reserved.\r\n\r\n" [])

  welcome-Says : (w : World) → Says welcome_text (welcome answers fuel vsnprintf w) w
  unfolding welcome
  welcome-Says w =
      let says = print-Says answers fuel vsnprintf a in
      Says-bind _ _ _ _ w
        (Says-bind _ _ _ _ w
          (Says-bind _ _ _ _ w
            (Says-bind _ _ _ _ w (says (literal "Welcome to ARM-EPOS\r\n" []) w)
              (says (literal "PF:0x%d(0x%d)" (800 ∷ 5 ∷ []))))
            (says (literal "Copyright (C) 2005-2015 MingJian Hong<hongmingjian@gmail.com>\r\n" [])))
          (says (literal "Author: fengzhimin \r\n" [])))
        (says (literal "All rights reserved.\r\n\r\n" []))

  -- The state behind `cstart`, for a kernel that ends below `kernbase + p`.
  pub record IsBooted (y : Symbols) (e : Entries) (p : ℕ) (k k' : Kernel) : Type 0 where
    pub tasks : IsLoaded y e k'.tasks
    pub sent : output k'.world.log ≡ output k.world.log ++ welcome_text
    pub ram : IsRam k'.g_ram_zone (p + 0x9000) 0x1FFF_FFFF
    pub kernel : (va : ℕ) → va ≤ p + 0x9000 → translate k'.mem p (kernbase + va) ≡ some va
    pub devices :
        (off : ℕ)
        → off < 0x22_0000
        → translate k'.mem p (0xC100_0000 + off) ≡ some (0x2000_0000 + off)

  module _ (memset : Memset) (m : IsMemset memset) (y : Symbols) (e : Entries) (junk : ℕ → ℕ)
      (end mbi : ℕ) (k : Kernel) (above : kernbase ≤ end)
      (below : end + 0x1_1000 ≤ kernbase + 2 ^ 24) where
    -- `cstart`, for a kernel that ends at least 68 KiB below the end of the 16 MiB from its base on, with
    -- devices that answer in time and with a `vsnprintf` and a `memset` that do what they promise, reaches its
    -- endless loop: four tasks are ready and each gets its turn, the text is sent, the memory behind
    -- the kernel and its tables is the one range that is free, and the kernel, its tables and the
    -- registers of the devices are mapped.
    pub cstart-IsBooted :
        let p = load_address (end_of end) in
        (end ≤ kernbase + p)
        × (k' : Kernel) × (cstart answers fuel vsnprintf memset y e junk end mbi k ≡ some k')
        × IsBooted y e p k k'
    unfolding cstart md_startup init_ram update
    cstart-IsBooted =
        let p = load_address (end_of end) in
        let (b, loaded) = end_of-IsStart end above below in
        let says = welcome-Says (uart_init answers k.world) in
        let free = init_paging-physfree memset m p b k.mem in
        let bounds = mapped_end_bounds memset m p b k.mem in
        (
          loaded,
          record {
            mem = (init_paging memset p k.mem).mem;
            g_ram_zone = init_ram (init_paging memset p k.mem).physfree k.g_ram_zone;
            tasks = start_tasks y e junk k.tasks;
            world = init_arm_timer kernel_1hz says.after;
          },
          rw says.done refl,
          record {
            tasks = start_tasks-IsLoaded y e junk k.tasks;
            sent =
                init_arm_timer-silent kernel_1hz says.after
                ∙ says.sent
                ∙ ap (λ (t : List ℕ). t ++ welcome_text) (uart_init-silent answers k.world);
            ram = record {
              start = free;
              end = refl;
              last = refl;
              word = omega arith;
              room = omega (
                arith,
                b.low,
                bitmap_bytes_bounds ((0x1FFF_FFFF - (p + 0x9000)) / 4096) (omega arith),
              );
            };
            kernel = λ va h. (translate-identity memset m p b k.mem va (omega (arith, bounds))).1;
            devices = λ off h. translate-io memset m p b k.mem off h;
          },
        )
