-- ===== src/Tests/Histories.antt =====
-- Sequences of system calls of kernel/task.c, from task 0 on.
use epos_arm.Base.{◌≡◌, refl, true, none, some, [], ◌∷◌, arith}
use epos_arm.Base.Word.{pos}
use epos_arm.Thread.{waiting, Threads}
use epos_arm.Thread.Calls.{
  new_tcb, add_task, get_task, find_tid, sys_task_create, Reaped, sys_task_wait, sys_task_yield,
  init_task,
}
use epos_arm.Thread.System.{IsSound, run_as_task0}
use epos_arm.Thread.Start.{init_task-IsSound}
use epos_arm.Thread.SelfWait.{sys_task_wait_self}
use epos_arm.Tests.ThreadRuns.{threads}

abbrev booted : Threads
booted = run_as_task0 (init_task threads 0x6000)

booted-IsSound : IsSound booted
booted-IsSound = init_task-IsSound threads 0x6000 (omega arith) (omega arith)

-- A second thread is made, and the running one ends.
abbrev two : Threads
two = (sys_task_create booted 0x8000 0 7).0

-- The running one waits for it, which takes it out at once.
abbrev alone : Threads
alone = record two {
  tasks = record (new_tcb 0x6000 3 0x6ff8) { state = waiting } ∷ [];
  resched = 0;
}

itself : get_task (pos 3) booted.tasks ≡ some (new_tcb 0x6000 3 0x6ff8)
unfolding run_as_task0 init_task sys_task_create add_task find_tid
itself = refl

running_address : booted.running ≡ 0x6000
unfolding run_as_task0 init_task sys_task_create
running_address = refl

sys_task_wait_self_example :
    (o : Reaped) × (sys_task_wait booted (pos 3) true 0x5_0000 ≡ some o)
    × (o.freed ≡ some booted.running)
    × (sys_task_yield o.threads ≡ none)
sys_task_wait_self_example =
    sys_task_wait_self booted 3 0x5_0000 true (new_tcb 0x6000 3 0x6ff8) booted-IsSound itself
      (omega (arith, running_address))
