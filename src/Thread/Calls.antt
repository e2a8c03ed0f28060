-- ===== src/Thread/Calls.antt =====
-- The queues and the system calls of kernel/task.c. The writes to other memory are results: pairs of an
-- address and a word, in their order. `new` is the pointer that `kmalloc` returns, `wait` the address of
-- the local variable of `sleep_on`.
use epos_arm.Base.{
  ◌>>=◌, ℕ, zero, suc, ◌+◌, ◌-◌, ◌%◌, ◌^◌, ltb, Bool, true, false, not, ◌&&◌, ◌||◌, Option, none,
  some, List, [], ◌∷◌, ◌==◌, if◌then◌else◌, bit_and,
}
use mathlib.Core.Option
use epos_arm.Base.Word.{u32, sub32, ℤ, pos, negsuc}
use epos_arm.Cpu.{page_size}
use epos_arm.Thread.{
  State, waiting, ready, zombie, is_zombie, Waiter, Tcb, Threads, tcb_at, modify, schedule,
}

abbrev pub task_timeslice_default : ℤ
task_timeslice_default = pos 4

abbrev pub task_signature : ℕ
task_signature = 0x2016_0201

-- `tsk->state = state`
unfoldable pub set_state : State → Tcb → Tcb
set_state state p = record p { state = state }

-- `wake_up(head, n)` on the queue; a negative `n` does not come to 0.
unfoldable pub wake_up : List Waiter → ℤ → List Tcb → Option (List Tcb)
wake_up [] n ps = some ps
wake_up (w ∷ ws) (pos zero) ps = some ps
wake_up (w ∷ ws) (pos (suc n)) ps = modify w.tsk (set_state ready) ps >>= wake_up ws (pos n)
wake_up (w ∷ ws) (negsuc n) ps = modify w.tsk (set_state ready) ps >>= wake_up ws (negsuc (suc n))

-- The loop that looks for the node `wait` behind the first.
unfoldable pub unlink_loop : ℕ → List Waiter → List Waiter
unlink_loop wait [] = []
unlink_loop wait (w ∷ ws) = if w.addr == wait then ws else w ∷ unlink_loop wait ws

-- The queue when `sleep_on` returns; an empty one is read through NULL.
unfoldable pub unlink_wait : ℕ → List Waiter → Option (List Waiter)
unlink_wait wait [] = none
unlink_wait wait (w ∷ ws) = if w.addr == wait then some ws else some (w ∷ unlink_loop wait ws)

-- `sleep_on` for the queue of the thread at `a`.
unfoldable pub sleep_on : Threads → (a wait : ℕ) → Option Threads
sleep_on t a wait = do
  ps ←
      modify a (λ p. record p { wq_exit = record { addr = wait; tsk = t.running } ∷ p.wq_exit })
        t.tasks
  qs ← modify t.running (set_state waiting) ps
  (t', select) ← schedule (record t { tasks = qs })
  p ← tcb_at a t'.tasks
  ws ← unlink_wait wait p.wq_exit
  rs ← modify a (λ p. record p { wq_exit = ws }) t'.tasks
  some (record t' { tasks = rs })

unfoldable pub add_task : Tcb → List Tcb → List Tcb
add_task tsk [] = tsk ∷ []
add_task tsk (p ∷ ps) = p ∷ add_task tsk ps

-- The list without the thread at `a`.
unfoldable pub remove_task : ℕ → List Tcb → List Tcb
remove_task a [] = []
remove_task a (p ∷ ps) = if p.addr == a then ps else p ∷ remove_task a ps

-- An `int` as the word of its bits.
abbrev pub word_of : ℤ → ℕ
word_of (pos n) = n
word_of (negsuc n) = 2 ^ 32 - 1 - n % 2 ^ 31

-- The `int` with the bits of a word.
unfoldable pub int_of : ℕ → ℤ
int_of w = if ltb w (2 ^ 31) then pos w else negsuc (2 ^ 32 - 1 - w)

-- The loop of `get_task`; IDs are kept as words.
unfoldable pub find_tid : ℕ → List Tcb → Option Tcb
find_tid n [] = none
find_tid n (p ∷ ps) = let rest = find_tid n ps in if p.tid == n then some p else rest

abbrev pub get_task : ℤ → List Tcb → Option Tcb
get_task tid ps = find_tid (word_of tid) ps

-- The thread that `sys_task_create` makes.
abbrev pub new_tcb : (new tid kstack : ℕ) → Tcb
new_tcb new tid kstack = record {
  addr = new;
  kstack = kstack;
  tid = tid;
  state = ready;
  timeslice = task_timeslice_default;
  code_exit = pos 0;
  wq_exit = [];
  signature = task_signature;
}

-- STACK_PUSH of `pv` and of 0 on a stack at `sp`.
abbrev pub pushes : (sp pv : ℕ) → List (ℕ × ℕ)
pushes sp pv = (sub32 sp 4, pv) ∷ (sub32 sp 8, 0) ∷ []

-- Whether `sys_task_create` comes to the writes to a stack at `tos`.
unfoldable pub pushes_user : (new tos : ℕ) → Bool
pushes_user new tos = not (not (bit_and tos 3 == 0) || new == 0) && not (tos == 0)

-- Whether the word at `a` meets the page of the thread at `addr`.
unfoldable pub in_page : (addr a : ℕ) → Bool
in_page addr a = ltb addr (a + 4) && ltb a (addr + page_size)

unfoldable pub in_threads : ℕ → List Tcb → Bool
in_threads a [] = false
in_threads a (p ∷ ps) = in_page p.addr a || in_threads a ps

-- `_end` in kernel/kernel.list
abbrev image_end : ℕ
image_end = 0xC005_73E4

-- Whether the word at `a` meets the code and the variables of the kernel, from 0xC0008000 to `_end`, or their memory at
-- the address that is its physical one.
unfoldable pub in_image : (a : ℕ) → Bool
in_image a =
    let offset = a % 0xC000_0000 in ltb 0x8000 (offset + 4) && ltb offset (image_end % 0xC000_0000)

-- Whether a write of the word at `a` is one through NULL, one to the kernel's own code and variables, or one to the page
-- of the new thread or of one of the list.
unfoldable pub spoils : List Tcb → (new a : ℕ) → Bool
spoils ps new a = ltb a page_size || in_image a || in_page new a || in_threads a ps

-- Whether one of the writes to a stack at `tos` is such a write.
unfoldable pub ruins : List Tcb → (new tos : ℕ) → Bool
ruins ps new tos =
    pushes_user new tos && (spoils ps new (sub32 tos 4) || spoils ps new (sub32 tos 8))

-- The new state, the value returned and the writes. The state leaves out what
-- the writes change in it, which is nothing unless `ruins` says so.
unfoldable pub sys_task_create : Threads → (new tos pv : ℕ) → Threads × ℕ × List (ℕ × ℕ)
sys_task_create t new tos pv =
    let top = u32 (new + page_size) in
    let kstack = if not (tos == 0) then top else sub32 top 8 in
    if not (bit_and tos 3 == 0) || new == 0 then (t, 0, []) else (
      record t {
        tasks = add_task (new_tcb new t.next_tid kstack) t.tasks;
        next_tid = u32 (t.next_tid + 1);
      },
      new,
      pushes (if not (tos == 0) then tos else top) pv,
    )

unfoldable pub sys_task_exit : Threads → (code_exit : ℤ) → Option Threads
sys_task_exit t code_exit = do
  p ← tcb_at t.running t.tasks
  ps ← wake_up p.wq_exit (negsuc 0) t.tasks
  qs ← modify t.running (λ p. record p { code_exit = code_exit; state = zombie }) ps
  (t', select) ←
      schedule (record t { tasks = qs; own_fpu = if t.own_fpu == t.running then 0 else t.own_fpu })
  some t'

-- What `sys_task_wait` leaves: the state, the value returned, the exit code stored at `pcode_exit`, the
-- pointer given to `kfree`.
pub record Reaped : Type 0 where
  pub threads : Threads
  pub ret : ℤ
  pub stored : Option ℤ
  pub freed : Option ℕ

-- `wq_exit == NULL`
unfoldable pub no_waiter : List Waiter → Bool
no_waiter [] = true
no_waiter (w ∷ ws) = false

-- `sys_task_wait` from the test of `pcode_exit` on; `want` says that it is not NULL.
unfoldable pub reap : Threads → (want : Bool) → Tcb → Reaped
reap t want p =
    let stored = if want then some p.code_exit else none in
    if no_waiter p.wq_exit
    then record {
      threads = record t { tasks = remove_task p.addr t.tasks };
      ret = pos 0;
      stored = stored;
      freed = some p.addr;
    }
    else record { threads = t; ret = pos 0; stored = stored; freed = none }

-- `sys_task_wait` once it has found the thread.
unfoldable pub wait_for : Threads → (want : Bool) (wait : ℕ) → Tcb → Option Reaped
wait_for t want wait tsk =
    if is_zombie tsk.state
    then some (reap t want tsk)
    else (do t' ← sleep_on t tsk.addr wait; p ← tcb_at tsk.addr t'.tasks; some (reap t' want p))

-- The return of -1.
abbrev pub no_thread : Threads → Reaped
no_thread t = record { threads = t; ret = negsuc 0; stored = none; freed = none }

unfoldable pub sys_task_wait : Threads → (tid : ℤ) (want : Bool) (wait : ℕ) → Option Reaped
sys_task_wait t tid want wait =
    if t.running == 0 then some (no_thread t) else (elim (get_task tid t.tasks) [
      | none ↦ some (no_thread t)
      | some tsk ↦ wait_for t want wait tsk
    ])

-- `none` is a pointer that is neither NULL nor a thread of the list.
unfoldable pub sys_task_getid : Threads → Option ℤ
sys_task_getid t =
    if t.running == 0
    then some (negsuc 0)
    else Option.map (λ p. int_of p.tid) (tcb_at t.running t.tasks)

unfoldable pub sys_task_yield : Threads → Option Threads
sys_task_yield t = Option.map (λ r. r.0) (schedule t)

-- `init_task` with the pointer that `kmalloc` returns for task 0.
unfoldable pub init_task : Threads → (new : ℕ) → Threads
init_task t new =
    let created =
      sys_task_create (record t { resched = 0; running = 0; tasks = []; own_fpu = 0 }) new 0 0 in
    record created.0 { task0 = created.1 }
