-- ===== src/Heap/Aligned.antt =====
-- The blocks of `aligned_kmalloc` and `aligned_kfree` in kernel/kmalloc.c.
use epos_arm.Base.{
  ℕ, ◌+◌, ◌-◌, ◌*◌, ◌/◌, ◌%◌, ◌^◌, ◌≤◌, ◌<◌, ◌≡◌, ◌≢◌, refl, ◌⊎◌, inl, inr, true, false, arith,
  ◌==◌, Bool-cases, bit_and,
}
use native.Mathlib.Nat.{mul-mod_left, div-mul-le_self, lt-div-mul-add, one-le-pow}
use epos_arm.Base.Word.{u32, sub32}
use epos_arm.Base.Fields.{bit_and_round, lt_of_two_pow}
use epos_arm.Heap.{Tlsf, IsTlsf, kmalloc, kfree, aligned_kmalloc, aligned_kfree}

-- The pointer that `aligned_kmalloc` makes of a block at `mem`.
abbrev aligned : (mem k : ℕ) → ℕ
aligned mem k = (mem + 4 + 2 ^ k - 1) / 2 ^ k * 2 ^ k

round_word :
    (mem k j : ℕ)
    → j + k ≡ 32
    → mem + 4 + 2 ^ k ≤ 2 ^ 32
    → bit_and (sub32 (mem + 4 + 2 ^ k) 1) (2 ^ 32 - 1 - sub32 (2 ^ k) 1) ≡ aligned mem k
round_word mem k j e small =
    let one = one-le-pow k 2 (omega arith) in
    let word : sub32 (mem + 4 + 2 ^ k) 1 ≡ mem + 4 + 2 ^ k - 1 = omega arith in
    let mask : 2 ^ 32 - 1 - sub32 (2 ^ k) 1 ≡ 2 ^ (j + k) - 2 ^ k = rw e (omega arith) in
    rw (word, mask) (bit_and_round k j (mem + 4 + 2 ^ k - 1) (rw e (omega arith)))

aligned_bounds :
    (mem k : ℕ)
    → (aligned mem k % 2 ^ k ≡ 0) × (mem + 4 ≤ aligned mem k) × (aligned mem k < mem + 4 + 2 ^ k)
aligned_bounds mem k =
    let one = one-le-pow k 2 (omega arith) in
    let n = mem + 4 + 2 ^ k - 1 in
    let above : n < n / 2 ^ k * 2 ^ k + 2 ^ k = lt-div-mul-add one in
    (
      mul-mod_left (n / 2 ^ k) (2 ^ k),
      omega (arith, above),
      omega (arith, div-mul-le_self n (2 ^ k)),
    )

module _ {Heap : Type 0} (tlsf : Tlsf Heap) where
  -- `ptr` is a multiple of `2 ^ k`, `bytes` bytes from it on and four before it lie in the block of `size`
  -- bytes at `mem`, and those four hold `mem`.
  pub record IsInside (mem size bytes k ptr : ℕ) (h : Heap) : Type 0 where
    pub multiple : ptr % 2 ^ k ≡ 0
    pub header : mem + 4 ≤ ptr
    pub end : ptr + bytes ≤ mem + size
    pub origin : tlsf.load h (ptr - 4) ≡ mem

  -- What `aligned_kmalloc` asks of `kmalloc`.
  abbrev pub request : (bytes k : ℕ) → ℕ
  request bytes k = bytes + 2 ^ k + 3

  module _ (i : IsTlsf tlsf) (bytes k : ℕ) (h : Heap) (small : request bytes k < 2 ^ 32) where
    aligned_kmalloc-store :
        (kmalloc tlsf (request bytes k) h).1 ≢ 0
        → aligned_kmalloc tlsf bytes (2 ^ k) h ≡ (
          tlsf.store
              (aligned (kmalloc tlsf (request bytes k) h).1 k - 4)
              (kmalloc tlsf (request bytes k) h).1
              (kmalloc tlsf (request bytes k) h).0,
          aligned (kmalloc tlsf (request bytes k) h).1 k,
        )
    unfolding aligned_kmalloc kmalloc
    aligned_kmalloc-store some_block =
        let mem = (kmalloc tlsf (request bytes k) h).1 in
        let fits = i.fits (request bytes k) h some_block in
        let asked : u32 (sub32 (bytes + 2 ^ k) 1 + 4) ≡ request bytes k =
          omega (arith, one-le-pow k 2 (omega arith)) in
        let found : (mem == 0) ≡ false = ground arith in
        let word = round_word mem k (32 - k) (omega (arith, lt_of_two_pow k 32)) (omega arith) in
        let back : sub32 (aligned mem k) 4 ≡ aligned mem k - 4 =
          omega (arith, aligned_bounds mem k) in
        rw (asked, found, word, back) refl

    -- If `kmalloc` yields nothing, so does `aligned_kmalloc`.
    aligned_kmalloc-null :
        (kmalloc tlsf (request bytes k) h).1 ≡ 0
        → aligned_kmalloc tlsf bytes (2 ^ k) h ≡ kmalloc tlsf (request bytes k) h
    unfolding aligned_kmalloc kmalloc
    aligned_kmalloc-null none =
        let asked : u32 (sub32 (bytes + 2 ^ k) 1 + 4) ≡ request bytes k =
          omega (arith, one-le-pow k 2 (omega arith)) in
        let null : ((kmalloc tlsf (request bytes k) h).1 == 0) ≡ true = ground arith in
        rw (asked, null) refl

    -- Over an allocator that does what it promises, for an alignment that is a power of two and a size that
    -- does not wrap with the alignment and three bytes: `aligned_kmalloc` fails exactly if `kmalloc` does,
    -- with its result, and else yields a multiple of the alignment such that the bytes asked for lie in the block,
    -- and the pointer to the block just before them.
    pub aligned_kmalloc-IsInside :
        let (h1, mem) = kmalloc tlsf (request bytes k) h in
        let (h2, ptr) = aligned_kmalloc tlsf bytes (2 ^ k) h in
        ((mem ≡ 0) × (h2 ≡ h1) × (ptr ≡ 0))
        ⊎ ((mem ≢ 0) × IsInside mem (request bytes k) bytes k ptr h2)
    aligned_kmalloc-IsInside =
        let mem = (kmalloc tlsf (request bytes k) h).1 in
        elim (Bool-cases (mem == 0)) [
          | inl null ↦
              let none : mem ≡ 0 = ground arith in
              rw (aligned_kmalloc-null none) (inl (none, refl, none))
          | inr found ↦
              let some_block : mem ≢ 0 = ground arith in
              let (multiple, header, end) = aligned_bounds mem k in
              rw (aligned_kmalloc-store some_block) (
                inr (
                  some_block,
                  record {
                    multiple = multiple;
                    header = header;
                    end = omega (arith, end);
                    origin =
                        i.load-store (aligned mem k - 4) mem (kmalloc tlsf (request bytes k) h).0;
                  },
                ))
        ]

    -- For the same requests, a block of `aligned_kmalloc` whose header no one has changed is freed by
    -- `aligned_kfree` as the block that `kmalloc` has handed out.
    aligned_kfree-aligned_kmalloc :
        (h3 : Heap)
        → (kmalloc tlsf (request bytes k) h).1 ≢ 0
        → tlsf.load h3 ((aligned_kmalloc tlsf bytes (2 ^ k) h).1 - 4)
          ≡ tlsf.load
              (aligned_kmalloc tlsf bytes (2 ^ k) h).0
              ((aligned_kmalloc tlsf bytes (2 ^ k) h).1 - 4)
        → aligned_kfree tlsf (aligned_kmalloc tlsf bytes (2 ^ k) h).1 h3
          ≡ kfree tlsf (kmalloc tlsf (request bytes k) h).1 h3
    unfolding aligned_kfree kmalloc
    aligned_kfree-aligned_kmalloc h3 some_block kept = elim aligned_kmalloc-IsInside [
      | inl (null, same_heap, none) ↦ absurd (some_block null)
      | inr (found, inside) ↦
          let ptr = (aligned_kmalloc tlsf bytes (2 ^ k) h).1 in
          let fits = i.fits (request bytes k) h some_block in
          let back : sub32 ptr 4 ≡ ptr - 4 = omega (arith, fits, inside.header, inside.end) in
          rw (back, kept, inside.origin) refl
    ]
