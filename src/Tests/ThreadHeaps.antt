-- ===== src/Tests/ThreadHeaps.antt =====
-- Sequences of system calls of kernel/task.c over an allocator that does not give a block out again.
use epos_arm.Base.{
  ℕ, ◌+◌, ◌^◌, ◌≡◌, ◌≢◌, refl, Bool, true, false, ◌&&◌, ◌||◌, some, [], ◌∷◌, arith, ltb, ◌==◌,
  if◌then◌else◌,
}
use epos_arm.Cpu.{page_size}
use epos_arm.Heap.{Tlsf, kmalloc, kfree}
use epos_arm.Thread.{waiting}
use epos_arm.Thread.Calls.{
  ruins, pushes_user, spoils, in_image, in_page, in_threads, new_tcb, add_task, sys_task_create,
  init_task,
}
use epos_arm.Thread.System.{run_as_task0}
use epos_arm.Thread.Memory.{
  ThreadMachine, task_create, IsAllowed, push_all, create_thread, init_machine, serve, IsOwner,
}
use epos_arm.Tests.ThreadRuns.{threads}

pub record Blocks : Type 0 where
  pub next : ℕ
  pub live : ℕ → Bool

abbrev pub used : Blocks → ℕ → Bool
used h a = h.live a && ltb a h.next

abbrev pub take : (bytes : ℕ) → Blocks → Blocks × ℕ
take bytes h =
    if ltb 0 h.next && ltb (h.next + bytes) (2 ^ 32)
    then (record { next = h.next + bytes + 1; live = λ a. a == h.next || used h a }, h.next)
    else (h, 0)

abbrev pub allocator : Tlsf Blocks
allocator = record {
  tlsf_malloc = take;
  tlsf_realloc = λ oldptr bytes h. take bytes h;
  tlsf_free = λ ptr h. record h { live = λ a. if a == ptr then false else h.live a };
  init_memory_pool = λ bytes mem h. record { next = mem; live = λ a. false };
  load = λ h addr. 0;
  store = λ addr value h. h;
}

-- The allocator keeps nothing in the memory.
abbrev pub writable : Blocks → ℕ → Bool
writable h a = true

pub allocator-IsOwner : IsOwner allocator used writable
allocator-IsOwner = record {
  fits = λ bytes h memory. ground arith;
  in_block = λ bytes off h memory inside. refl;
  stored = λ addr value h a word. refl;
  still = λ addr value h a word. refl;
  unused = λ bytes h memory. ground arith;
  given = λ bytes h a memory. ground arith;
  refused = λ bytes h a empty. ground arith;
  returned = λ ptr h a block. ground arith;
}

-- A heap in which one block is given out, and task 0 made in it.
abbrev pub heap : Blocks
heap = record { next = 0x6000; live = λ a. a == 0x5000 }

abbrev pub booted : ThreadMachine Blocks
booted = init_machine allocator threads heap

pub memory_left : (kmalloc allocator page_size heap).1 ≢ 0
unfolding kmalloc
memory_left = omega arith

-- A second thread is made, the running one waits for it, which takes it out at once.
abbrev pub two : ThreadMachine Blocks
two = record {
  threads = (sys_task_create booted.threads 0x7001 0x50_0000 7).0;
  heap = (take page_size booted.heap).0;
}

pub two_made : serve allocator booted (task_create 0x50_0000 7) ≡ some two
unfolding serve create_thread init_machine kmalloc push_all run_as_task0 init_task sys_task_create
    ruins pushes_user spoils in_image in_page in_threads add_task
two_made = refl

abbrev alone : ThreadMachine Blocks
alone = record {
  threads = record two.threads {
    tasks = record (new_tcb 0x6000 3 0x6ff8) { state = waiting } ∷ [];
    resched = 0;
  };
  heap = kfree allocator 0x7001 two.heap;
}

pub first-IsAllowed : IsAllowed allocator writable booted (task_create 0x50_0000 7)
unfolding init_machine kmalloc run_as_task0 init_task sys_task_create ruins pushes_user push_all
    spoils in_image in_page in_threads add_task
first-IsAllowed = (refl, omega arith, λ e. (refl, refl))
