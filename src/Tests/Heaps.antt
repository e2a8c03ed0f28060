-- ===== src/Tests/Heaps.antt =====
-- kernel/kmalloc.c over an allocator that never takes a block back.
use epos_arm.Base.{ℕ, ◌+◌, ◌^◌, ◌≡◌, ◌≢◌, refl, ◌⊎◌, ltb, if◌then◌else◌, arith}
use epos_arm.PageTable.{update}
use epos_arm.Heap.{Tlsf, IsTlsf, kmalloc, aligned_kmalloc}
use epos_arm.Heap.Aligned.{IsInside, request, aligned_kmalloc-IsInside}

record Pool : Type 0 where
  next : ℕ
  freed : ℕ
  word : ℕ → ℕ

abbrev take : (bytes : ℕ) → Pool → Pool × ℕ
take bytes h =
    if ltb (h.next + bytes) (2 ^ 32) then (record h { next = h.next + bytes }, h.next) else (h, 0)

abbrev allocator : Tlsf Pool
allocator = record {
  tlsf_malloc = take;
  tlsf_realloc = λ oldptr bytes h. take bytes h;
  tlsf_free = λ ptr h. record h { freed = ptr };
  init_memory_pool = λ bytes mem h. record h { next = mem };
  load = λ h addr. h.word addr;
  store = λ addr value h. record h { word = update h.word addr value };
}

allocator-IsTlsf : IsTlsf allocator
unfolding update
allocator-IsTlsf = record {
  fits = λ bytes h some_block. ground arith;
  load-store = λ addr value h. ground arith;
}

abbrev pool : Pool
pool = record { next = 0x1_0004; freed = 0; word = λ i. 0 }

aligned_kmalloc-IsInside_example :
    let (h1, mem) = kmalloc allocator (request allocator 100 6) pool in
    let (h2, ptr) = aligned_kmalloc allocator 100 (2 ^ 6) pool in
    ((mem ≡ 0) × (h2 ≡ h1) × (ptr ≡ 0))
    ⊎ ((mem ≢ 0) × IsInside allocator mem (request allocator 100 6) 100 6 ptr h2)
aligned_kmalloc-IsInside_example =
    aligned_kmalloc-IsInside allocator allocator-IsTlsf 100 6 pool (omega arith)

aligned_run : (aligned_kmalloc allocator 100 (2 ^ 6) pool).1 ≡ 0x1_0040
unfolding aligned_kmalloc kmalloc
aligned_run = refl
