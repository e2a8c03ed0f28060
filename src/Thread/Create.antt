-- ===== src/Thread/Create.antt =====
-- The list after `sys_task_create` of kernel/task.c.
use epos_arm.Base.{
  ℕ, ◌+◌, ◌≡◌, ◌≢◌, refl, inl, inr, Bool, false, ◌||◌, not, Option, none, some, List, [], ◌∷◌,
  arith, Bool-cases, ◌==◌, if◌then◌else◌, bit_and,
}
use epos_arm.Base.Word.{u32, sub32, ℤ}
use epos_arm.Cpu.{page_size}
use epos_arm.Thread.{Tcb, Threads}
use epos_arm.Thread.Calls.{word_of, add_task, get_task, find_tid, new_tcb, sys_task_create}

-- The first of two results.
abbrev pub or_else {ℓ} : {A : Type ℓ} → Option A → Option A → Option A
or_else (some a) b = some a
or_else none b = b

-- Whether `tid` is the ID with the word `n`.
unfoldable pub same_tid : ℤ → ℕ → Bool
same_tid tid n = n == word_of tid

get_task-add_task :
    (tid : ℤ) (tsk : Tcb) (ps : List Tcb)
    → get_task tid (add_task tsk ps)
      ≡ or_else (get_task tid ps) (if same_tid tid tsk.tid then some tsk else none)
unfolding find_tid add_task same_tid
get_task-add_task tid tsk [] = refl
get_task-add_task tid tsk (p ∷ ps) = elim (Bool-cases (p.tid == word_of tid)) [
  | inl t ↦ rw t refl
  | inr f ↦ rw f (get_task-add_task tid tsk ps)
]

-- The kernel stack of a new thread: the top of its page, less the two words pushed if it has no other
-- stack.
abbrev pub kstack_of : (new tos : ℕ) → ℕ
kstack_of new tos = if tos == 0 then sub32 (u32 (new + page_size)) 8 else u32 (new + page_size)

-- After `sys_task_create` with an aligned stack and memory left, each thread that `get_task` found is found
-- as before, and the new one is found by its ID, ready and without waiters; the next ID goes up by one, in 32 bits.
get_task-sys_task_create :
    (t : Threads) (new tos pv : ℕ) (tid : ℤ)
    → bit_and tos 3 ≡ 0
    → new ≢ 0
    → let created = sys_task_create t new tos pv in
      (created.1 ≡ new)
      × (created.0.next_tid ≡ u32 (t.next_tid + 1))
      × (get_task tid created.0.tasks
          ≡ or_else (get_task tid t.tasks) (
              if same_tid tid t.next_tid
              then some (new_tcb new t.next_tid (kstack_of new tos))
              else none))
unfolding sys_task_create
get_task-sys_task_create t new tos pv tid aligned memory =
    let accepted : (not (bit_and tos 3 == 0) || new == 0) ≡ false = ground arith in
    let stack : (if not (tos == 0) then u32 (new + page_size) else sub32 (u32 (new + page_size)) 8)
        ≡ kstack_of new tos =
      ground arith in
    rw (accepted, stack)
      (refl, refl, get_task-add_task tid (new_tcb new t.next_tid (kstack_of new tos)) t.tasks)
