-- ===== src/Thread/Memory.antt =====
-- The system calls of kernel/task.c together with the heap of kernel/kmalloc.c, which gives a thread's block
-- to `sys_task_create` and takes it back from `sys_task_wait`.
pub mod Waits
pub mod Owners
pub mod Runs
use epos_arm.Base.{
  ◌+◌, ◌^◌, ◌<◌, ◌≤◌, ℕ, Bool, true, false, not, Option, none, some, List, [], ◌∷◌, ◌≡◌, ◌≢◌,
  if◌then◌else◌, ◌==◌, bit_and,
}
use mathlib.Core.Option
use epos_arm.Base.Word.{ℤ, sub32}
use epos_arm.Cpu.{page_size}
use epos_arm.Heap.{Tlsf, kmalloc, kfree}
use epos_arm.Thread.{Tcb, Threads}
use epos_arm.Thread.Calls.{
  ruins, pushes_user, get_task, init_task, Reaped, sys_task_create, sys_task_exit, sys_task_wait,
  sys_task_getid, sys_task_yield,
}
use epos_arm.Thread.System.{run_as_task0}

pub record ThreadMachine (Heap : Type 0) : Type 0 where
  pub threads : Threads
  pub heap : Heap

-- A system call of the running thread.
pub data Request : Type 0 where
  task_create : (tos pv : ℕ) → Request
  task_exit : (code_exit : ℤ) → Request
  task_wait : (tid : ℤ) (want : Bool) (wait : ℕ) → Request
  task_getid : Request
  task_yield : Request

module _ {Heap : Type 0} (tlsf : Tlsf Heap) where
  -- The writes of words, in their order.
  unfoldable pub push_all : List (ℕ × ℕ) → Heap → Heap
  push_all [] heap = heap
  push_all ((addr, value) ∷ writes) heap = push_all writes (tlsf.store addr value heap)

  -- `sys_task_create` calls `kmalloc` once it has found the stack to be aligned. `none` is a write through NULL,
  -- to the kernel's code and variables or to the page of a thread.
  unfoldable pub create_thread : ThreadMachine Heap → (tos pv : ℕ) → Option (ThreadMachine Heap)
  create_thread s tos pv =
      let (heap, new) = kmalloc tlsf page_size s.heap in
      let (threads, r, writes) = sys_task_create s.threads new tos pv in
      let made =
        if ruins s.threads.tasks new tos
        then none
        else some (record { threads = threads; heap = push_all writes heap }) in
      if not (bit_and tos 3 == 0) then some s else made

  -- `kfree(tsk)`, where `sys_task_wait` comes to it.
  unfoldable pub release : Option ℕ → Heap → Heap
  release none heap = heap
  release (some tsk) heap = kfree tlsf tsk heap

  unfoldable pub collect : Heap → Reaped → ThreadMachine Heap
  collect heap o = record { threads = o.threads; heap = release o.freed heap }

  -- The state after the call; `none` is an access through a pointer to no thread of the list, or a write through
  -- NULL, to the kernel's code and variables or to the page of a thread.
  unfoldable pub serve : ThreadMachine Heap → Request → Option (ThreadMachine Heap)
  serve s (task_create tos pv) = create_thread s tos pv
  serve s (task_exit code_exit) =
      Option.map (λ t. record s { threads = t }) (sys_task_exit s.threads code_exit)
  serve s (task_wait tid want wait) =
      Option.map (collect s.heap) (sys_task_wait s.threads tid want wait)
  serve s task_getid = Option.map (λ r. s) (sys_task_getid s.threads)
  serve s task_yield = Option.map (λ t. record s { threads = t }) (sys_task_yield s.threads)

  -- `init_task` and the start of task 0.
  unfoldable pub init_machine : Threads → Heap → ThreadMachine Heap
  init_machine t heap =
      let (heap', new) = kmalloc tlsf page_size heap in
      record {
        threads = run_as_task0 (init_task t new);
        heap = push_all (sys_task_create t new 0 0).2 heap';
      }

  -- A stack at `tos` is not at NULL, in the kernel's code and variables, in the page of a thread or in memory that the allocator keeps for itself, the next
  -- ID does not wrap, and no thread waits for itself.
  abbrev pub IsAllowed : (writable : Heap → ℕ → Bool) → ThreadMachine Heap → Request → Type 0
  IsAllowed writable s (task_create tos pv) =
      let (heap, new) = kmalloc tlsf page_size s.heap in
      (ruins s.threads.tasks new tos ≡ false)
      × (s.threads.next_tid + 1 < 2 ^ 32)
      × (pushes_user new tos ≡ true
          → (writable heap (sub32 tos 4) ≡ true) × (writable heap (sub32 tos 8) ≡ true))
  IsAllowed writable s (task_wait tid want wait) =
      (p : Tcb) → get_task tid s.threads.tasks ≡ some p → p.addr ≢ s.threads.running
  IsAllowed writable s c = Unit {0}

  -- The states that allowed calls lead to, the last call first.
  pub data Serves (writable : Heap → ℕ → Bool) (s : ThreadMachine Heap)
      : List Request → ThreadMachine Heap → Type 0 where
    served_none : Serves writable s [] s
    served :
        {s1 s2 : ThreadMachine Heap} {cs : List Request} (c : Request)
        → Serves writable s cs s1
        → IsAllowed writable s1 c
        → serve s1 c ≡ some s2
        → Serves writable s (c ∷ cs) s2

  -- What the kernel relies on, with `used` the blocks that are given out, and `writable` the words that the allocator
  -- does not keep for itself: those of the blocks that are given out and of other memory. A block that is given out
  -- was not before, a block that is taken back was, and the writes to other words than the allocator's own change neither
  -- the blocks nor these words.
  pub record IsOwner (used writable : Heap → ℕ → Bool) : Type 0 where
    pub fits :
        (bytes : ℕ) (h : Heap)
        → (tlsf.tlsf_malloc bytes h).1 ≢ 0
        → (tlsf.tlsf_malloc bytes h).1 + bytes < 2 ^ 32
    pub in_block :
        (bytes off : ℕ) (h : Heap)
        → (tlsf.tlsf_malloc bytes h).1 ≢ 0
        → off + 4 ≤ bytes
        → writable (tlsf.tlsf_malloc bytes h).0 ((tlsf.tlsf_malloc bytes h).1 + off) ≡ true
    pub stored :
        (addr value : ℕ) (h : Heap) (a : ℕ)
        → writable h addr ≡ true
        → used (tlsf.store addr value h) a ≡ used h a
    pub still :
        (addr value : ℕ) (h : Heap) (a : ℕ)
        → writable h addr ≡ true
        → writable (tlsf.store addr value h) a ≡ writable h a
    pub unused :
        (bytes : ℕ) (h : Heap)
        → (tlsf.tlsf_malloc bytes h).1 ≢ 0
        → used h (tlsf.tlsf_malloc bytes h).1 ≡ false
    pub given :
        (bytes : ℕ) (h : Heap) (a : ℕ)
        → (tlsf.tlsf_malloc bytes h).1 ≢ 0
        → used (tlsf.tlsf_malloc bytes h).0 a
          ≡ (if a == (tlsf.tlsf_malloc bytes h).1 then true else used h a)
    pub refused :
        (bytes : ℕ) (h : Heap) (a : ℕ)
        → (tlsf.tlsf_malloc bytes h).1 ≡ 0
        → used (tlsf.tlsf_malloc bytes h).0 a ≡ used h a
    pub returned :
        (ptr : ℕ) (h : Heap) (a : ℕ)
        → used h ptr ≡ true
        → used (tlsf.tlsf_free ptr h) a ≡ (if a == ptr then false else used h a)
