-- ===== src/Bitmap/Files/RoundTrip.antt =====
-- A bitmap of kernel/bitmap.c that is written to a file and read from it.
use epos_arm.Base.{
  ℕ, zero, suc, ◌+◌, ◌-◌, ◌*◌, ◌/◌, ◌%◌, ◌^◌, ◌≤◌, ◌<◌, ◌≡◌, refl, ◌∙◌, inl, inr, true, false, ◌&&◌,
  arith, bit_and, ltb, ◌==◌, if◌then◌else◌, Bool-cases,
}
use native.Mathlib.Nat.{pow-suc, one-le-pow, zero-div, div-one, mod-one}
use epos_arm.Base.Bits.{bit_and_mask, bit_and_step, div-two_pow-suc}
use epos_arm.Base.Fields.{two_pow_le}
use epos_arm.Base.Word.{u32}
use epos_arm.PageTable.{update}
use epos_arm.Bitmap.{Bitmap, elem_cnt, byte_cnt, bitmap_test}
use epos_arm.Bitmap.Test.{bit_at, bitmap_test-bit_at}
use epos_arm.Bitmap.Files.{Files, IsFiles, last_mask, bitmap_read, bitmap_write}

mod_suc : (k x : ℕ) → x % 2 ^ suc k ≡ x / 2 % 2 ^ k * 2 + x % 2
mod_suc k x = ground (
  arith,
  bit_and_mask (suc k) x,
  bit_and_mask k (x / 2),
  bit_and_step x (2 ^ suc k - 1),
  pow-suc 2 k,
  one-le-pow k 2,
)

-- The digits of a remainder.
digit_mod : (j k x : ℕ) → x % 2 ^ k / 2 ^ j % 2 ≡ (if ltb j k then x / 2 ^ j % 2 else 0)
digit_mod j zero x = ground (arith, mod-one x, zero-div (2 ^ j))
digit_mod zero (suc k) x = ground (arith, mod_suc k x, div-one (x % 2 ^ suc k), div-one x)
digit_mod (suc j) (suc k) x =
    let half : x % 2 ^ suc k / 2 ≡ x / 2 % 2 ^ k = omega (arith, mod_suc k x) in
    rw (div-two_pow-suc (x % 2 ^ suc k) j, half, div-two_pow-suc x j, digit_mod j k (x / 2))
      (ground arith)

-- The digits that `last_mask` keeps.
digit_last :
    (b : Bitmap) (j x : ℕ)
    → j < 32
    → bit_and x (last_mask b) / 2 ^ j % 2 ≡ (
        if b.bit_cnt % 32 == 0
        then x / 2 ^ j % 2
        else (if ltb j (b.bit_cnt % 32) then x / 2 ^ j % 2 else 0))
unfolding last_mask
digit_last b j x h = elim (Bool-cases (b.bit_cnt % 32 == 0)) [
  | inl full ↦ rw (full, bit_and_mask 32 x) (ground (arith, digit_mod j 32 x))
  | inr part ↦
      let mask : u32 (1 * 2 ^ (b.bit_cnt % 32)) - 1 ≡ 2 ^ (b.bit_cnt % 32) - 1 =
        omega (arith, two_pow_le (b.bit_cnt % 32) 31) in
      rw (part, mask, bit_and_mask (b.bit_cnt % 32) x) (digit_mod j (b.bit_cnt % 32) x)
]

-- The bits of a bitmap whose last element is masked.
masked :
    (b : Bitmap) (bits : ℕ → ℕ) (i : ℕ)
    → 0 < b.bit_cnt
    → b.bit_cnt + 31 < 2 ^ 32
    → i < elem_cnt b.bit_cnt * 32
    → bit_at
        (record b {
          bits =
              update bits
                (elem_cnt b.bit_cnt - 1)
                (bit_and (bits (elem_cnt b.bit_cnt - 1)) (last_mask b));
        })
        i
      ≡ (ltb i b.bit_cnt && bits (i / 32) / 2 ^ (i % 32) % 2 == 1)
unfolding bit_at update elem_cnt
masked b bits i some_bits fits below =
    ground (arith, digit_last b (i % 32) (bits (i / 32)) (omega arith))

elem_cnt_positive : (n : ℕ) → 0 < n → n + 31 < 2 ^ 32 → 0 < elem_cnt n
unfolding elem_cnt
elem_cnt_positive n some_bits h = omega arith

no_elems : (n : ℕ) → n ≡ 0 → elem_cnt n ≡ 0
unfolding elem_cnt
no_elems n h = omega arith

byte_cnt_lem : (n : ℕ) → n + 31 < 2 ^ 32 → byte_cnt n ≡ 4 * elem_cnt n
unfolding byte_cnt elem_cnt
byte_cnt_lem n h = omega arith

-- The bits of `c` once its elements are `bits`, of which those of `b` come first, and the last of these
-- is masked.
after_read :
    (b c : Bitmap) (bits : ℕ → ℕ) (i : ℕ)
    → c.bit_cnt ≡ b.bit_cnt
    → 0 < c.bit_cnt
    → c.bit_cnt + 31 < 2 ^ 32
    → ((k : ℕ) → k < elem_cnt c.bit_cnt → bits k ≡ b.bits k)
    → ((k : ℕ) → elem_cnt c.bit_cnt ≤ k → bits k ≡ c.bits k)
    → let last = elem_cnt c.bit_cnt - 1 in
      bitmap_test (record c { bits = update bits last (bit_and (bits last) (last_mask c)) }) i ≡ (
        if ltb i (elem_cnt c.bit_cnt * 32)
        then ltb i c.bit_cnt && bitmap_test b i
        else bitmap_test c i)
unfolding bit_at update
after_read b c bits i same some_bits fits inside outside =
    rw bitmap_test-bit_at (elim (Bool-cases (ltb i (elem_cnt c.bit_cnt * 32))) [
      | inl below ↦
          let small : i < elem_cnt c.bit_cnt * 32 = ground (arith, below) in
          masked c bits i some_bits fits (omega arith)
          ∙ rw (below, inside (i / 32) (omega arith), bitmap_test-bit_at b i) refl
      | inr above ↦
          let large : elem_cnt c.bit_cnt * 32 ≤ i = ground (arith, above) in
          let count : 0 < elem_cnt c.bit_cnt = elem_cnt_positive c.bit_cnt some_bits fits in
          let other : (i / 32 == elem_cnt c.bit_cnt - 1) ≡ false = ground arith in
          rw (above, other, outside (i / 32) (omega arith), bitmap_test-bit_at c i) refl
    ])

module _ {File : Type 0} (files : Files File) (law : IsFiles files) where
  -- A bitmap of at most 2^32 - 32 bits that was written in full to a file is read from it in full into a bitmap of
  -- the same number of bits: its bits are then those of the one written; in the last element the bits behind
  -- the end are clear, and the elements behind that are as before.
  pub bitmap_read-bitmap_write :
      (b c : Bitmap) (file : File)
      → c.bit_cnt ≡ b.bit_cnt
      → b.bit_cnt + 31 < 2 ^ 32
      → (bitmap_write files b file).1 ≡ true
      → let (c', success) = bitmap_read files c (bitmap_write files b file).0 in
        (success ≡ true)
        × (c'.bit_cnt ≡ b.bit_cnt)
        × ((i : ℕ)
            → bitmap_test c' i ≡ (
                if ltb i (elem_cnt b.bit_cnt * 32)
                then ltb i b.bit_cnt && bitmap_test b i
                else bitmap_test c i))
  unfolding bitmap_read bitmap_write
  bitmap_read-bitmap_write b c file same fits written =
      let n = b.bit_cnt in
      let size = byte_cnt_lem n fits in
      let whole : (files.file_write_at file b.bits (byte_cnt n) 0).1 ≡ byte_cnt n =
        ground (arith, written) in
      let file' = (files.file_write_at file b.bits (byte_cnt n) 0).0 in
      let bits = (files.file_read_at file' c.bits (byte_cnt n) 0).0 in
      let full = law.count file b.bits c.bits (byte_cnt n) whole in
      elim (Bool-cases (ltb 0 n)) [
        | inl some_bits ↦
            let positive : 0 < n = ground (arith, some_bits) in
            rw (same, some_bits)
              (
                ground (arith, full),
                refl,
                λ i.
                    after_read b (record { bit_cnt = n; bits = c.bits }) bits i refl positive fits
                      (λ k h. law.inside file b.bits c.bits (byte_cnt n) k whole (omega arith))
                      (λ k h. law.outside file' c.bits (byte_cnt n) k (omega arith)),
              )
        | inr empty ↦
            let none_set : elem_cnt n ≡ 0 = no_elems n (ground (arith, empty)) in
            rw (same, empty) (refl, refl, λ i. rw none_set (ground arith))
      ]
