-- ===== src/Thread.antt =====
-- The second half of kernel/task.c: the threads that the system calls create, end and wait for.
-- The list from `g_task_head` is a list here, in the order of the `next` pointers, and `addr` is the
-- address of a `struct tcb`. `none` is an access through a pointer to no thread of the list: NULL, or
-- one that was freed. Where the code calls `kmalloc`, `new` is the pointer that it returns.
pub mod Select
pub mod Schedule
pub mod Calls
pub mod Create
pub mod Store
pub mod Sleep
pub mod Wait
pub mod Exit
pub mod Keys
pub mod System
pub mod Sound
pub mod Directory
pub mod History
pub mod Start
pub mod SelfWait
pub mod Memory
use epos_arm.Base.{
  ◌>>=◌, ℕ, zero, suc, ◌+◌, ◌*◌, ◌%◌, Bool, true, false, not, ◌&&◌, Option, none, some, List, [],
  ◌∷◌, ltb, ◌==◌, if◌then◌else◌, bit_and,
}
use mathlib.Core.Option
use epos_arm.Base.Word.{u32, sub32, ℤ, pos, negsuc}
use epos_arm.Cpu.{page_size}

-- The values of `state` that the code uses: -1, 1 and 2.
pub data State : Type 0 where
  waiting : State
  ready : State
  zombie : State

unfoldable pub is_ready : State → Bool
is_ready waiting = false
is_ready ready = true
is_ready zombie = false

unfoldable pub is_zombie : State → Bool
is_zombie waiting = false
is_zombie ready = false
is_zombie zombie = true

-- `struct wait_queue`: the address of the node, and of the thread that waits.
pub record Waiter : Type 0 where
  pub addr : ℕ
  pub tsk : ℕ

pub record Tcb : Type 0 where
  pub addr : ℕ
  pub kstack : ℕ
  pub tid : ℕ
  pub state : State
  pub timeslice : ℤ
  pub code_exit : ℤ
  pub wq_exit : List Waiter
  pub signature : ℕ

pub record Threads : Type 0 where
  pub tasks : List Tcb
  pub running : ℕ
  pub task0 : ℕ
  pub own_fpu : ℕ
  pub resched : ℕ
  pub next_tid : ℕ

unfoldable pub length : List Tcb → ℕ
length [] = 0
length (p ∷ ps) = suc (length ps)

-- The place in the list of the thread at an address.
unfoldable pub place_of : ℕ → List Tcb → Option ℕ
place_of a [] = none
place_of a (p ∷ ps) = if p.addr == a then some 0 else Option.map suc (place_of a ps)

-- The thread at a place.
unfoldable pub at_place : List Tcb → ℕ → Option Tcb
at_place [] i = none
at_place (p ∷ ps) zero = some p
at_place (p ∷ ps) (suc i) = at_place ps i

-- `select->tid != 0 && select->state == TASK_STATE_READY`
unfoldable pub runnable : Option Tcb → Bool
runnable none = false
runnable (some p) = not (p.tid == 0) && is_ready p.state

-- `select->next`, or `g_task_head` where that is NULL, as places.
unfoldable pub next_place : List Tcb → ℕ → ℕ
next_place ps i = if i + 1 == length ps then 0 else i + 1

-- The loop of `schedule` on places, with a bound on its rounds.
unfoldable pub select_loop : List Tcb → (running select fuel : ℕ) → Option ℕ
select_loop ps running select zero = none
select_loop ps running select (suc fuel) =
    let next = next_place ps select in
    let rest = select_loop ps running next fuel in
    if next == running then some next else (if runnable (at_place ps next) then some next else rest)

-- The thread at an address.
unfoldable pub tcb_at : ℕ → List Tcb → Option Tcb
tcb_at a [] = none
tcb_at a (p ∷ ps) = let rest = tcb_at a ps in if p.addr == a then some p else rest

-- A write to the thread at an address.
unfoldable pub modify : ℕ → (Tcb → Tcb) → List Tcb → Option (List Tcb)
modify a f [] = none
modify a f (p ∷ ps) =
    let rest = Option.map (λ qs. p ∷ qs) (modify a f ps) in
    if p.addr == a then some (f p ∷ ps) else rest

-- What follows the loop, for the thread `p` at the place `k` where it ended. The results are the new
-- state and the value of `select` at the end, which the code gives to no other function.
unfoldable pub after_loop : Threads → (r k : ℕ) → Tcb → Threads × ℕ
after_loop t r k p =
    if k == r && is_ready p.state
    then (t, p.addr)
    else (record t { resched = 0 }, if k == r then t.task0 else p.addr)

unfoldable pub schedule : Threads → Option (Threads × ℕ)
schedule t = do
  r ← place_of t.running t.tasks
  k ← select_loop t.tasks r r (length t.tasks)
  p ← at_place t.tasks k
  some (after_loop t r k p)
