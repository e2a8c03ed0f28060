-- ===== src/Shared.antt =====
-- The heap of kernel/kmalloc.c under its two users in the kernel: the threads of kernel/task.c, and the zones
-- of virtual addresses of kernel/page.c, whose nodes are blocks of the heap.
pub mod Zones
pub mod Runs
use epos_arm.Base.{
  ℕ, ◌+◌, ◌*◌, ◌^◌, ◌<◌, ◌≡◌, ◌≢◌, Bool, false, ◌&&◌, ◌||◌, ltb, Option, none, some, List, [], ◌∷◌,
  ◌==◌, if◌then◌else◌,
}
use mathlib.Core.Option
use epos_arm.Base.Word.{size_max, sub32, pos}
use epos_arm.Cpu.{page_size}
use epos_arm.Heap.{Tlsf, kmalloc, kfree}
use epos_arm.Thread.{Threads}
use epos_arm.Thread.Calls.{pushes_user}
use epos_arm.Thread.Memory.{
  ThreadMachine, Request, task_create, task_exit, task_wait, task_getid, task_yield, IsAllowed,
  serve,
}
use epos_arm.Vmspace.{VmZone, VmSpace, space_end, page_alloc, page_alloc_in_addr, page_free}

-- `sizeof(struct vmzone)`
abbrev pub zone_bytes : ℕ
zone_bytes = 16

pub record SharedMachine (Heap : Type 0) : Type 0 where
  pub threads : Threads
  pub space : VmSpace
  pub heap : Heap

-- A call of one of the functions for zones.
pub data ZoneCall : Type 0 where
  alloc : (n prot : ℕ) (user : Bool) → ZoneCall
  alloc_in_addr : (va n prot : ℕ) → ZoneCall
  free : (va n : ℕ) → ZoneCall

pub data SharedCall : Type 0 where
  thread_call : Request → SharedCall
  zone_call : ZoneCall → SharedCall

-- Whether the word at `a` meets a node of the list.
unfoldable pub in_nodes : ℕ → List VmZone → Bool
in_nodes a [] = false
in_nodes a (p ∷ ps) = ltb p.addr (a + 4) && ltb a (p.addr + zone_bytes) || in_nodes a ps

unfoldable pub in_zones : ℕ → VmSpace → Bool
in_zones a s = in_nodes a s.kvmzone || in_nodes a s.uvmzone

module _ {Heap : Type 0} (tlsf : Tlsf Heap) where
  -- An allocating function returns SIZE_MAX where it does not come to the call of `kmalloc`, and then leaves the heap;
  -- `heap'` is the one that the call leaves.
  unfoldable pub with_node : (heap heap' : Heap) → VmSpace × ℕ → VmSpace × Heap
  with_node heap heap' (space, r) = (space, if r == size_max then heap else heap')

  -- `page_free` gives the node that it takes out to `kfree`.
  unfoldable pub without_node : VmSpace → Heap → Option (VmSpace × ℕ) → VmSpace × Heap
  without_node space heap none = (space, heap)
  without_node space heap (some (space', node)) = (space', kfree tlsf node heap)

  -- The space and the heap after the call; `none` is a write through a NULL pointer.
  unfoldable pub serve_zones : VmSpace → Heap → ZoneCall → Option (VmSpace × Heap)
  serve_zones space heap (alloc n prot user) =
      let (heap', x) = kmalloc tlsf zone_bytes heap in
      Option.map (with_node heap heap') (page_alloc space x (pos n) prot user)
  serve_zones space heap (alloc_in_addr va n prot) =
      let (heap', x) = kmalloc tlsf zone_bytes heap in
      Option.map (with_node heap heap') (page_alloc_in_addr space x va (pos n) prot)
  serve_zones space heap (free va n) = some (without_node space heap (page_free space va (pos n)))

  unfoldable pub thread_part : SharedMachine Heap → ThreadMachine Heap
  thread_part s = record { threads = s.threads; heap = s.heap }

  -- Whether the call writes to a stack for a new thread over a node.
  unfoldable pub ruins_node : SharedMachine Heap → Request → Bool
  ruins_node s (task_create tos pv) =
      pushes_user (kmalloc tlsf page_size s.heap).1 tos
      && (in_zones (sub32 tos 4) s.space || in_zones (sub32 tos 8) s.space)
  ruins_node s (task_exit code_exit) = false
  ruins_node s (task_wait tid want wait) = false
  ruins_node s task_getid = false
  ruins_node s task_yield = false

  -- The state after the call; `none` is a write or an access that the parts have as one, or a write over a node.
  unfoldable pub share : SharedMachine Heap → SharedCall → Option (SharedMachine Heap)
  share s (thread_call c) =
      if ruins_node s c
      then none
      else (Option.map (λ (t : ThreadMachine Heap). record s { threads = t.threads; heap = t.heap })
          (serve tlsf (thread_part s) c))
  share s (zone_call c) =
      Option.map (λ (r : VmSpace × Heap). record s { space = r.0; heap = r.1 })
        (serve_zones s.space s.heap c)

  -- The call of the threads is allowed and writes over no node, there is memory for the node of a zone, and no sum of a
  -- request for pages wraps.
  abbrev pub IsFair : (writable : Heap → ℕ → Bool) → SharedMachine Heap → SharedCall → Type 0
  IsFair writable s (thread_call c) =
      IsAllowed tlsf writable (thread_part s) c × (ruins_node s c ≡ false)
  IsFair writable s (zone_call (alloc n prot user)) =
      ((kmalloc tlsf zone_bytes s.heap).1 ≢ 0) × (space_end user + n * page_size < 2 ^ 32)
  IsFair writable s (zone_call (alloc_in_addr va n prot)) =
      ((kmalloc tlsf zone_bytes s.heap).1 ≢ 0) × (va + n * page_size < 2 ^ 32)
  IsFair writable s (zone_call (free va n)) = n < 2 ^ 20

  -- The states that fair calls lead to, the last call first.
  pub data Shares (writable : Heap → ℕ → Bool) (s : SharedMachine Heap)
      : List SharedCall → SharedMachine Heap → Type 0 where
    shared_none : Shares writable s [] s
    shared :
        {s1 s2 : SharedMachine Heap} {cs : List SharedCall} (c : SharedCall)
        → Shares writable s cs s1
        → IsFair writable s1 c
        → share s1 c ≡ some s2
        → Shares writable s (c ∷ cs) s2
