-- ===== src/Shared/Runs.antt =====
-- Sequences of the system calls of kernel/task.c and of the calls of kernel/page.c over one heap.
use epos_arm.Base.{◌+◌, ◌^◌, ℕ, ◌≤◌, ◌<◌, ◌≡◌, ◌≢◌, refl, Bool, false, ◌&&◌, ◌||◌, some, arith}
use epos_arm.Cpu.{page_size, user_max_addr, kern_max_addr}
use epos_arm.Heap.{Tlsf, kmalloc}
use epos_arm.Thread.{Threads}
use epos_arm.Thread.Keys.{keys, has_addr}
use epos_arm.Thread.System.{IsSound}
use epos_arm.Thread.Memory.{IsOwner, init_machine}
use epos_arm.Thread.Memory.Runs.{init_machine-IsOwned}
use epos_arm.Vmspace.{init_vmspace}
use epos_arm.Vmspace.Valid.{IsValid, init_vmspace-IsValid}
use epos_arm.Vmspace.Nodes.{node_count, count, behind}
use epos_arm.Shared.{SharedMachine, SharedCall, share}
use epos_arm.Shared.Zones.{has_node}

module _ {Heap : Type 0} (tlsf : Tlsf Heap) (used writable : Heap → ℕ → Bool)
    (others : ℕ → Bool) where
  -- The threads are sound and the zones valid, and each block given out is of one owner: a thread, a node of a zone,
  -- or another.
  pub record IsShared (s : SharedMachine Heap) : Type 0 where
    pub sound : IsSound s.threads
    pub valid : IsValid s.space
    pub single : (a : ℕ) → node_count s.space a ≤ 1
    pub blocks :
        (a : ℕ)
        → used s.heap a ≡ (has_addr a (keys s.threads.tasks) || (has_node s.space a || others a))
    pub apart :
        (a : ℕ)
        → (has_addr a (keys s.threads.tasks) && (has_node s.space a || others a) ≡ false)
          × (has_node s.space a && others a ≡ false)

  module _ (law : IsOwner tlsf used writable) where
    abbrev Shared : SharedMachine Heap → SharedCall → Type 0
    Shared s c = (s' : SharedMachine Heap) × (share tlsf s c ≡ some s') × IsShared s'

  -- Behind `init_vmspace` with an end of the kernel's memory within its addresses, and `init_task` with memory
  -- left and an ID whose next does not wrap, task 0 owns its block, no zone lies in the heap, and the blocks given out before are others'.
  pub init-IsShared :
      (law : IsOwner tlsf used writable) (t : Threads) (h : Heap) (km0 brk : ℕ)
      → (kmalloc tlsf page_size h).1 ≢ 0
      → t.next_tid + 1 < 2 ^ 32
      → (user_max_addr < brk) × (brk ≤ kern_max_addr)
      → ((a : ℕ) → used h a ≡ others a)
      → IsShared (record {
        threads = (init_machine tlsf t h).threads;
        space = init_vmspace km0 brk;
        heap = (init_machine tlsf t h).heap;
      })
  unfolding has_node node_count count behind init_vmspace
  init-IsShared law t h km0 brk memory next (low, high) before =
      let o = init_machine-IsOwned tlsf used writable law t h memory next in
      record {
        sound = o.sound;
        valid = init_vmspace-IsValid km0 brk low high;
        single = λ a. omega arith;
        blocks = λ a. ground (arith, o.blocks a, before a);
        apart = λ a. (ground (arith, o.apart a, before a), refl);
      }
