-- ===== src/Bitmap.antt =====
-- kernel/bitmap.c: an array of bits kept in an array of 32-bit elements (`elem_type` is
-- `unsigned long`, four bytes on this target). `bits` reads the element at an index, also behind
-- the end of the array, since the ASSERTs of the code expand to nothing. A `bool` holds 0 or 1 at
-- every call in the repository and is a `Bool` here; indices are `size_t` and wrap. An operation
-- that may write returns the new bitmap; the instructions that would write the element stand in
-- comments of the source, so `bitmap_mark`, `bitmap_reset` and `bitmap_flip` write nothing.
pub mod Test
pub mod Groups
pub mod Scan
pub mod Writes
pub mod Files
use epos_arm.Base.{
  ℕ, zero, suc, ◌+◌, ◌-◌, ◌*◌, ◌/◌, ◌%◌, ◌^◌, Bool, true, false, not, bit_and, ltb, leb, ◌==◌,
  if◌then◌else◌, same,
}
use epos_arm.Base.Word.{u32, size_max}

pub record Bitmap : Type 0 where
  pub bit_cnt : ℕ
  pub bits : ℕ → ℕ

abbrev pub elem_bits : ℕ
elem_bits = 4 * 8

pub elem_idx : ℕ → ℕ
elem_idx bit_idx = bit_idx / elem_bits

pub bit_mask : ℕ → ℕ
bit_mask bit_idx = u32 (1 * 2 ^ (bit_idx % elem_bits))

unfoldable pub elem_cnt : ℕ → ℕ
elem_cnt bit_cnt = u32 (bit_cnt + elem_bits - 1) / elem_bits

unfoldable pub byte_cnt : ℕ → ℕ
unfolding elem_cnt
byte_cnt bit_cnt = u32 (4 * elem_cnt bit_cnt)

-- A `struct bitmap` takes eight bytes.
unfoldable pub bitmap_buf_size : ℕ → ℕ
unfolding byte_cnt
bitmap_buf_size bit_cnt = u32 (8 + byte_cnt bit_cnt)

-- BITMAP_ERROR
abbrev pub bitmap_error : ℕ
bitmap_error = size_max

pub bitmap_size : Bitmap → ℕ
bitmap_size b = b.bit_cnt

-- The element and the mask are computed, and the statement that would use them is a comment.
pub bitmap_mark : Bitmap → ℕ → Bitmap
bitmap_mark b bit_idx = let idx = elem_idx bit_idx in let mask = bit_mask bit_idx in b

pub bitmap_reset : Bitmap → ℕ → Bitmap
bitmap_reset b bit_idx = let idx = elem_idx bit_idx in let mask = bit_mask bit_idx in b

pub bitmap_flip : Bitmap → ℕ → Bitmap
bitmap_flip b bit_idx = let idx = elem_idx bit_idx in let mask = bit_mask bit_idx in b

pub bitmap_set : Bitmap → ℕ → Bool → Bitmap
unfolding bitmap_mark bitmap_reset
bitmap_set b idx value = if value then bitmap_mark b idx else bitmap_reset b idx

unfoldable pub bitmap_test : Bitmap → ℕ → Bool
unfolding elem_idx bit_mask
bitmap_test b idx = not (bit_and (b.bits (elem_idx idx)) (bit_mask idx) == 0)

-- The loop at index `i`, with `left` rounds to go.
set_multiple_loop : Bitmap → ℕ → Bool → (i left : ℕ) → Bitmap
set_multiple_loop b start value i zero = b
set_multiple_loop b start value i (suc left) =
    set_multiple_loop (bitmap_set b (u32 (start + i)) value) start value (i + 1) left

pub bitmap_set_multiple : Bitmap → (start cnt : ℕ) → Bool → Bitmap
unfolding set_multiple_loop bitmap_set
bitmap_set_multiple b start cnt value = set_multiple_loop b start value 0 cnt

pub bitmap_set_all : Bitmap → Bool → Bitmap
unfolding bitmap_set_multiple bitmap_size
bitmap_set_all b value = bitmap_set_multiple b 0 (bitmap_size b) value

-- `mem` reads the words of memory by their address: the new bitmap lies at `block` and its elements
-- behind it. The size of the block is not used.
pub bitmap_create_in_buf : (mem : ℕ → ℕ) (bit_cnt block : ℕ) → Bitmap
unfolding bitmap_set_all
bitmap_create_in_buf mem bit_cnt block =
    bitmap_set_all (record { bit_cnt = bit_cnt; bits = λ i. mem (u32 (block + 8 + 4 * i)) }) false

count_loop : Bitmap → ℕ → Bool → (i left value_cnt : ℕ) → ℕ
count_loop b start value i zero value_cnt = value_cnt
count_loop b start value i (suc left) value_cnt =
    count_loop b start value (i + 1) left
      (if same (bitmap_test b (u32 (start + i))) value then value_cnt + 1 else value_cnt)

unfoldable pub bitmap_count : Bitmap → (start cnt : ℕ) → Bool → ℕ
unfolding count_loop
bitmap_count b start cnt value = count_loop b start value 0 cnt 0

contains_loop : Bitmap → ℕ → Bool → (i left : ℕ) → Bool
contains_loop b start value i zero = false
contains_loop b start value i (suc left) =
    let rest = contains_loop b start value (i + 1) left in
    if same (bitmap_test b (u32 (start + i))) value then true else rest

unfoldable pub bitmap_contains : Bitmap → (start cnt : ℕ) → Bool → Bool
unfolding contains_loop
bitmap_contains b start cnt value = contains_loop b start value 0 cnt

pub bitmap_any : Bitmap → (start cnt : ℕ) → Bool
unfolding bitmap_contains
bitmap_any b start cnt = bitmap_contains b start cnt true

pub bitmap_none : Bitmap → (start cnt : ℕ) → Bool
unfolding bitmap_contains
bitmap_none b start cnt = not (bitmap_contains b start cnt true)

pub bitmap_all : Bitmap → (start cnt : ℕ) → Bool
unfolding bitmap_contains
bitmap_all b start cnt = not (bitmap_contains b start cnt false)

-- The loop at `i`, with `left` rounds until `i` passes `last`. With `cnt` 0 the first round returns;
-- otherwise `last` is below SIZE_MAX, so `i++` does not wrap.
scan_loop : Bitmap → ℕ → Bool → (i left : ℕ) → ℕ
scan_loop b cnt value i zero = bitmap_error
scan_loop b cnt value i (suc left) =
    let rest = scan_loop b cnt value (i + 1) left in
    if not (bitmap_contains b i cnt (not value)) then i else rest

unfoldable pub bitmap_scan : Bitmap → (start cnt : ℕ) → Bool → ℕ
unfolding scan_loop
bitmap_scan b start cnt value =
    if leb cnt b.bit_cnt
    then (let last = b.bit_cnt - cnt in scan_loop b cnt value start (last + 1 - start))
    else bitmap_error

-- The bitmap and the index.
pub bitmap_scan_and_flip : Bitmap → (start cnt : ℕ) → Bool → Bitmap × ℕ
bitmap_scan_and_flip b start cnt value =
    let idx = bitmap_scan b start cnt value in
    if not (idx == bitmap_error) then (bitmap_set_multiple b idx cnt (not value), idx) else (b, idx)
