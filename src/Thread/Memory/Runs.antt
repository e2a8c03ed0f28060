-- ===== src/Thread/Memory/Runs.antt =====
-- Sequences of the system calls of kernel/task.c over the heap.
use epos_arm.Base.{ℕ, ◌+◌, ◌^◌, ◌<◌, false, ◌≡◌, ◌≢◌, refl, ap, ◌∙◌, Bool, arith, ◌==◌}
use epos_arm.Base.Word.{u32}
use epos_arm.Cpu.{page_size}
use epos_arm.Heap.{Tlsf, kmalloc}
use epos_arm.Thread.{Threads}
use epos_arm.Thread.Calls.{pushes, sys_task_create, init_task}
use epos_arm.Thread.Keys.{keys, has_addr}
use epos_arm.Thread.Start.{init_task-IsSound, init_value}
use epos_arm.Thread.Memory.{init_machine, IsOwner, push_all}
use epos_arm.Thread.System.{run_as_task0}
use epos_arm.Thread.Memory.Owners.{IsOwned, some_memory, top_words, push-used}
use epos_arm.Thread.Memory.Waits.{differ}

task0_listed :
    (t : Threads) (new a : ℕ)
    → new ≢ 0
    → has_addr a (keys (run_as_task0 (init_task t new)).tasks) ≡ (new == a)
unfolding has_addr keys
task0_listed t new a memory = rw (init_value t new memory) (ground arith)

module _ {Heap : Type 0} (tlsf : Tlsf Heap) (used writable : Heap → ℕ → Bool)
    (law : IsOwner tlsf used writable) where
  -- Task 0, made in a heap with memory left and with an ID whose next does not wrap, owns its block, and the blocks given out before are others'.
  pub init_machine-IsOwned :
      (t : Threads) (h : Heap)
      → (kmalloc tlsf page_size h).1 ≢ 0
      → t.next_tid + 1 < 2 ^ 32
      → IsOwned tlsf used writable (used h) (init_machine tlsf t h)
  unfolding init_machine kmalloc
  init_machine-IsOwned t h memory next =
      let h' = (tlsf.tlsf_malloc page_size h).0 in
      let new = (tlsf.tlsf_malloc page_size h).1 in
      let (first, second) = top_words tlsf used writable (used h) law h memory in
      let some_block : (new == 0) ≡ false = ground (arith, memory) in
      let writes : (sys_task_create t new 0 0).2 ≡ pushes (u32 (new + page_size)) 0 =
        some_memory t new 0 0 refl some_block in
      record {
        sound = init_task-IsSound t new memory next;
        blocks = λ a.
            ap (λ ws. used (push_all tlsf ws h') a) writes
            ∙ push-used tlsf used writable (used h) law h' (u32 (new + page_size)) 0 a first second
            ∙ rw (task0_listed t new a memory, law.given page_size h a memory) (ground arith);
        apart = λ a e.
            rw (task0_listed t new a memory)
              (differ (used h) a new e (law.unused page_size h memory));
      }
