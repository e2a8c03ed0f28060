-- ===== src/Tests/ThreadRuns.antt =====
-- The threads of kernel/task.c: task 0, and two more of which the first runs.
use epos_arm.Base.{ℕ, ◌≡◌, refl, true, some, [], ◌∷◌, arith, if◌then◌else◌, ◌==◌}
use mathlib.Core.Option
use epos_arm.Base.Word.{pos}
use epos_arm.Thread.{ready, waiting, Waiter, Tcb, Threads, place_of, tcb_at, schedule}
use epos_arm.Thread.Calls.{
  set_state, add_task, new_tcb, get_task, find_tid, sys_task_create, sys_task_exit, Reaped,
  sys_task_wait, init_task,
}
use epos_arm.Thread.Schedule.{Selected, schedule-Selected}
use epos_arm.Thread.Wait.{IsReaped, sys_task_wait-IsReaped}
use epos_arm.Thread.Exit.{waits, AreThreads, ended, sys_task_exit_lem}

abbrev pub waiter : Waiter
waiter = record { addr = 0x7_0000; tsk = 0x3000 }

abbrev pub tcb1 : Tcb
tcb1 = record (new_tcb 0x2000 1 0x3000) { wq_exit = waiter ∷ [] }

abbrev pub tcb2 : Tcb
tcb2 = record (new_tcb 0x3000 2 0x4000) { state = waiting }

abbrev pub threads : Threads
threads = record {
  tasks = new_tcb 0x1000 0 0x2000 ∷ tcb1 ∷ tcb2 ∷ [];
  running = 0x2000;
  task0 = 0x1000;
  own_fpu = 0x2000;
  resched = 1;
  next_tid = 3;
}

pub running_place : place_of threads.running threads.tasks ≡ some 1
unfolding place_of
running_place = refl

running_found : tcb_at threads.running threads.tasks ≡ some tcb1
unfolding tcb_at
running_found = refl

schedule-Selected_example :
    (t' : Threads) × (select : ℕ) × (schedule threads ≡ some (t', select))
    × Selected threads 1 t' select
schedule-Selected_example = schedule-Selected threads 1 running_place

other_found :
    (tcb_at 0x3000 threads.tasks ≡ some tcb2) × (get_task (pos 2) threads.tasks ≡ some tcb2)
unfolding tcb_at find_tid
other_found = (refl, refl)

sys_task_wait-IsReaped_example :
    (o : Reaped) × (sys_task_wait threads (pos 2) true 0x8_0000 ≡ some o)
    × IsReaped 0x3000 (pos 0) o
sys_task_wait-IsReaped_example =
    sys_task_wait-IsReaped threads (pos 2) 0x8_0000 tcb2 tcb1 (omega arith) running_found
      other_found.1 other_found.0 refl

waiters_found : AreThreads (waiter ∷ []) threads.tasks
unfolding waits tcb_at
waiters_found b h = let e : b ≡ 0x3000 = ground arith in rw e (tcb2, refl)

sys_task_exit_lem_example :
    (t' : Threads) × (sys_task_exit threads (pos 5) ≡ some t')
    × (t'.own_fpu ≡ (if 0x2000 == 0x2000 then 0 else 0x2000))
    × ((b : ℕ)
        → tcb_at b t'.tasks ≡ (
            if b == 0x2000
            then Option.map (ended (pos 5)) (tcb_at b threads.tasks)
            else (if waits b (waiter ∷ [])
                then Option.map (set_state ready) (tcb_at b threads.tasks)
                else tcb_at b threads.tasks)))
sys_task_exit_lem_example = sys_task_exit_lem threads (pos 5) tcb1 running_found waiters_found

init_runs : (init_task threads 0x6000).tasks ≡ new_tcb 0x6000 3 0x6ff8 ∷ []
unfolding init_task sys_task_create add_task
init_runs = refl
