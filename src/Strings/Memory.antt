-- ===== src/Strings/Memory.antt =====
-- `memcmp`, `memmove` and `memchr` of lib/string.c.
use epos_arm.Base.{
  ℕ, zero, suc, ◌+◌, ◌-◌, ◌≤◌, ◌<◌, ◌≡◌, ◌↔◌, refl, ◌&&◌, arith, ltb, leb, if◌then◌else◌,
}
use epos_arm.PageTable.{update}
use epos_arm.Strings.{memcmp, copy_up, copy_down, memmove}

memcmp-same :
    (mem : ℕ → ℕ) (b1 b2 len : ℕ)
    → memcmp mem b1 b2 len ≡ 0
    → (i : ℕ) → i < len
    → mem (b1 + i) ≡ mem (b2 + i)
unfolding memcmp
memcmp-same mem b1 b2 zero e i h = absurd (omega arith)
memcmp-same mem b1 b2 (suc n) e zero h = ground arith
memcmp-same mem b1 b2 (suc n) e (suc i) h =
    let rest : memcmp mem (b1 + 1) (b2 + 1) n ≡ 0 = ground arith in
    ground (arith, memcmp-same mem (b1 + 1) (b2 + 1) n rest i (omega arith))

same-memcmp :
    (mem : ℕ → ℕ) (b1 b2 len : ℕ)
    → ((i : ℕ) → i < len → mem (b1 + i) ≡ mem (b2 + i))
    → memcmp mem b1 b2 len ≡ 0
unfolding memcmp
same-memcmp mem b1 b2 zero same = refl
same-memcmp mem b1 b2 (suc n) same =
    ground
      (arith, same 0, same-memcmp mem (b1 + 1) (b2 + 1) n (λ i h. ground (arith, same (suc i))))

-- `memcmp` returns 0 exactly if the `len` bytes are the same.
pub memcmp_iff :
    (mem : ℕ → ℕ) (b1 b2 len : ℕ)
    → (memcmp mem b1 b2 len ≡ 0) ↔ ((i : ℕ) → i < len → mem (b1 + i) ≡ mem (b2 + i))
memcmp_iff mem b1 b2 len = (memcmp-same mem b1 b2 len, same-memcmp mem b1 b2 len)

copy_up_lem :
    (mem : ℕ → ℕ) (tmp s count i : ℕ)
    → tmp ≤ s
    → copy_up mem tmp s count i
      ≡ (if leb tmp i && ltb i (tmp + count) then mem (s + (i - tmp)) else mem i)
unfolding copy_up update
copy_up_lem mem tmp s zero i h = ground arith
copy_up_lem mem tmp s (suc count) i h =
    ground (arith, copy_up_lem (update mem tmp (mem s)) (tmp + 1) (s + 1) count i)

copy_down_lem :
    (mem : ℕ → ℕ) (dest src count i : ℕ)
    → src ≤ dest
    → copy_down mem (dest + count) (src + count) count i
      ≡ (if leb dest i && ltb i (dest + count) then mem (src + (i - dest)) else mem i)
unfolding copy_down update
copy_down_lem mem dest src zero i h = ground arith
copy_down_lem mem dest src (suc count) i h =
    ground (arith, copy_down_lem (update mem (dest + count) (mem (src + count))) dest src count i)

-- After `memmove` the `count` bytes at `dest` are those that were at `src`, whether or not the two
-- overlap, and all other bytes are as before.
pub memmove_lem :
    (mem : ℕ → ℕ) (dest src count i : ℕ)
    → memmove mem dest src count i
      ≡ (if leb dest i && ltb i (dest + count) then mem (src + (i - dest)) else mem i)
unfolding memmove
memmove_lem mem dest src count i =
    ground (arith, copy_up_lem mem dest src count i, copy_down_lem mem dest src count i)
