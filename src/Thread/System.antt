-- ===== src/Thread/System.antt =====
-- The system calls of kernel/task.c as the steps of one system, the running thread making each call.
use epos_arm.Base.{
  ℕ, ◌+◌, ◌^◌, ◌<◌, false, if◌then◌else◌, ◌≡◌, ◌≢◌, Bool, Option, none, some, List, [], ◌∷◌,
}
use mathlib.Core.Option
use epos_arm.Base.Word.{ℤ}
use epos_arm.Thread.{Tcb, Threads, tcb_at}
use epos_arm.Thread.Calls.{
  get_task, ruins, sys_task_create, sys_task_exit, sys_task_wait, sys_task_getid, sys_task_yield,
}
use epos_arm.Thread.Keys.{keys, AreDistinct}

-- The start of task 0 by the macro of machdep.h, of which the switch of the stacks is left out.
unfoldable pub run_as_task0 : Threads → Threads
run_as_task0 t = record t { running = t.task0 }

-- A system call of the running thread; `new` is what `kmalloc` returns in it, `wait` the address of the
-- local variable of `sleep_on`.
pub data Call : Type 0 where
  create : (new tos pv : ℕ) → Call
  exit : (code_exit : ℤ) → Call
  wait_for_thread : (tid : ℤ) (want : Bool) (wait : ℕ) → Call
  getid : Call
  yield : Call

-- The state after the call; `none` is an access through NULL or through a pointer to no thread of the list,
-- or a write to the page of a thread or to the kernel's code and variables.
unfoldable pub call : Threads → Call → Option Threads
call t (create new tos pv) =
    if ruins t.tasks new tos then none else some (sys_task_create t new tos pv).0
call t (exit code_exit) = sys_task_exit t code_exit
call t (wait_for_thread tid want wait) = Option.map (λ o. o.threads) (sys_task_wait t tid want wait)
call t getid = Option.map (λ r. t) (sys_task_getid t)
call t yield = sys_task_yield t

-- `kmalloc` returns NULL or memory that is no thread's, no stack at `tos` is at NULL, in the kernel's code and variables or in the page of a thread, the
-- next ID does not wrap, and no thread waits for itself.
abbrev pub IsAcceptable : Threads → Call → Type 0
IsAcceptable t (create new tos pv) =
    (tcb_at new t.tasks ≡ none) × (ruins t.tasks new tos ≡ false) × (t.next_tid + 1 < 2 ^ 32)
IsAcceptable t (exit code_exit) = Unit {0}
IsAcceptable t (wait_for_thread tid want wait) =
    (p : Tcb) → get_task tid t.tasks ≡ some p → p.addr ≢ t.running
IsAcceptable t getid = Unit {0}
IsAcceptable t yield = Unit {0}

-- The running thread is in the list, no two threads have the same address or ID, no ID is still to be
-- given, and nobody waits for a thread.
pub record IsSound (t : Threads) : Type 0 where
  pub current : Tcb
  pub found : tcb_at t.running t.tasks ≡ some current
  pub live : t.running ≢ 0
  pub distinct : AreDistinct t.next_tid (keys t.tasks)
  pub alone : (a : ℕ) (p : Tcb) → tcb_at a t.tasks ≡ some p → p.wq_exit ≡ []

-- The states that acceptable calls lead to, the last call first.
pub data Reaches (t : Threads) : List Call → Threads → Type 0 where
  start : Reaches t [] t
  after :
      {t1 t2 : Threads} {cs : List Call} (c : Call)
      → Reaches t cs t1
      → IsAcceptable t1 c
      → call t1 c ≡ some t2
      → Reaches t (c ∷ cs) t2
