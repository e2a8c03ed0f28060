-- ===== src/Heap.antt =====
-- kernel/kmalloc.c: the kernel's heap. The allocator in lib/tlsf is a copy of another project's code, so
-- its functions are parameters; `NULL` is 0. The disabling of interrupts is commented out in the source.
pub mod Aligned
use epos_arm.Base.{
  ℕ, ◌+◌, ◌-◌, ◌*◌, ◌/◌, ◌%◌, ◌^◌, ◌≤◌, ◌<◌, ◌≡◌, ◌≢◌, ◌==◌, if◌then◌else◌, bit_and,
}
use epos_arm.Base.Word.{u32, sub32}

-- The functions of lib/tlsf that the kernel calls, and the access to a pointer in memory, with `Heap`
-- the contents of the memory and the state of the allocator.
pub record Tlsf (Heap : Type 0) : Type 0 where
  pub tlsf_malloc : (bytes : ℕ) → Heap → Heap × ℕ
  pub tlsf_realloc : (oldptr bytes : ℕ) → Heap → Heap × ℕ
  pub tlsf_free : (ptr : ℕ) → Heap → Heap
  pub init_memory_pool : (bytes mem : ℕ) → Heap → Heap
  pub load : Heap → (addr : ℕ) → ℕ
  pub store : (addr value : ℕ) → Heap → Heap

-- What the callers rely on: a block that is handed out lies in the address space, and a pointer that is
-- written is read again.
pub record IsTlsf {Heap : Type 0} (tlsf : Tlsf Heap) : Type 0 where
  pub fits :
      (bytes : ℕ) (h : Heap)
      → (tlsf.tlsf_malloc bytes h).1 ≢ 0
      → (tlsf.tlsf_malloc bytes h).1 + bytes < 2 ^ 32
  pub load-store : (addr value : ℕ) (h : Heap) → tlsf.load (tlsf.store addr value h) addr ≡ value

module _ {Heap : Type 0} (tlsf : Tlsf Heap) where
  unfoldable pub kmalloc : (bytes : ℕ) → Heap → Heap × ℕ
  kmalloc bytes h = tlsf.tlsf_malloc bytes h

  unfoldable pub krealloc : (oldptr bytes : ℕ) → Heap → Heap × ℕ
  krealloc oldptr bytes h = tlsf.tlsf_realloc oldptr bytes h

  unfoldable pub kfree : (ptr : ℕ) → Heap → Heap
  kfree ptr h = tlsf.tlsf_free ptr h

  -- The heap afterwards and the pointer. A pointer has four bytes; `~ (align-1)` is `2^32 - 1 - (align - 1)`.
  unfoldable pub aligned_kmalloc : (bytes align : ℕ) → Heap → Heap × ℕ
  aligned_kmalloc bytes align h =
      let (h1, mem) = kmalloc (u32 (sub32 (bytes + align) 1 + 4)) h in
      let ptr = bit_and (sub32 (mem + 4 + align) 1) (2 ^ 32 - 1 - sub32 align 1) in
      if mem == 0 then (h1, mem) else (tlsf.store (sub32 ptr 4) mem h1, ptr)

  unfoldable pub aligned_kfree : (ptr : ℕ) → Heap → Heap
  aligned_kfree ptr h = kfree (tlsf.load h (sub32 ptr 4)) h

  unfoldable pub init_kmalloc : (mem bytes : ℕ) → Heap → Heap
  init_kmalloc mem bytes h = tlsf.init_memory_pool bytes mem h
