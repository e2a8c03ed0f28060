-- ===== src/Thread/Start.antt =====
-- Task 0 of kernel/task.c, from its creation to its start.
use epos_arm.Base.{
  ℕ, ◌<◌, ◌^◌, ◌+◌, ◌≡◌, ◌≢◌, refl, none, some, [], ◌∷◌, arith, ◌==◌, if◌then◌else◌,
}
use epos_arm.Cpu.{page_size}
use epos_arm.Base.Word.{u32, sub32}
use epos_arm.Thread.{Tcb, Threads, tcb_at}
use epos_arm.Thread.Calls.{add_task, new_tcb, sys_task_create, init_task}
use epos_arm.Thread.Keys.{keys, has_addr, has_tid}
use epos_arm.Thread.System.{IsSound, run_as_task0}

pub init_value :
    (t : Threads) (new : ℕ)
    → new ≢ 0
    → run_as_task0 (init_task t new) ≡ record t {
      tasks = new_tcb new t.next_tid (sub32 (u32 (new + page_size)) 8) ∷ [];
      running = new;
      task0 = new;
      own_fpu = 0;
      resched = 0;
      next_tid = u32 (t.next_tid + 1);
    }
unfolding run_as_task0 init_task sys_task_create add_task
init_value t new memory = ground (arith, memory)

-- Task 0, made by `init_task` with memory left and an ID whose next does not wrap, and started, is a sound state.
pub init_task-IsSound :
    (t : Threads) (new : ℕ)
    → new ≢ 0
    → t.next_tid + 1 < 2 ^ 32
    → IsSound (run_as_task0 (init_task t new))
unfolding tcb_at keys has_addr has_tid
init_task-IsSound t new memory next = rw (init_value t new memory) (record {
  current = new_tcb new t.next_tid (sub32 (u32 (new + page_size)) 8);
  found = ground arith;
  live = memory;
  distinct = (record { addr = refl; tid = refl; below = omega arith }, tt);
  alone = λ a p e. only a new p _ refl e;
})
  where
    only :
        (a b : ℕ) (p q : Tcb)
        → q.wq_exit ≡ []
        → (if b == a then some q else none) ≡ some p
        → p.wq_exit ≡ []
    only a b p q h e = ground (arith, h, e)
