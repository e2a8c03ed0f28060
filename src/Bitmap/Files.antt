-- ===== src/Bitmap/Files.antt =====
-- kernel/bitmap.c: the functions that store a bitmap in a file and read it again, which a build with
-- FILESYS has. The functions on files are not in the repository and are parameters.
pub mod RoundTrip
use epos_arm.Base.{
  ℕ, ◌+◌, ◌-◌, ◌*◌, ◌/◌, ◌%◌, ◌^◌, ◌≤◌, ◌<◌, ◌≡◌, Bool, true, bit_and, ltb, ◌==◌, if◌then◌else◌,
}
use epos_arm.Base.Word.{u32}
use epos_arm.PageTable.{update}
use epos_arm.Bitmap.{Bitmap, elem_bits, elem_cnt, byte_cnt}

-- Reading gives the elements of the array at the buffer afterwards and the number of bytes read; writing
-- gives the file and the number of bytes written.
pub record Files (File : Type 0) : Type 0 where
  pub file_read_at : File → (bits : ℕ → ℕ) → (size ofs : ℕ) → (ℕ → ℕ) × ℕ
  pub file_write_at : File → (bits : ℕ → ℕ) → (size ofs : ℕ) → File × ℕ

-- What the callers rely on: elements that were written in full at the start are read again, each in its
-- place, and the elements behind the bytes asked for stay as they are.
pub record IsFiles {File : Type 0} (files : Files File) : Type 0 where
  pub count :
      (f : File) (bits buffer : ℕ → ℕ) (size : ℕ)
      → (files.file_write_at f bits size 0).1 ≡ size
      → (files.file_read_at (files.file_write_at f bits size 0).0 buffer size 0).1 ≡ size
  pub inside :
      (f : File) (bits buffer : ℕ → ℕ) (size i : ℕ)
      → (files.file_write_at f bits size 0).1 ≡ size
      → 4 * i + 4 ≤ size
      → (files.file_read_at (files.file_write_at f bits size 0).0 buffer size 0).0 i ≡ bits i
  pub outside :
      (f : File) (buffer : ℕ → ℕ) (size i : ℕ)
      → size ≤ 4 * i
      → (files.file_read_at f buffer size 0).0 i ≡ buffer i

unfoldable pub last_mask : Bitmap → ℕ
last_mask b =
    let last_bits = b.bit_cnt % elem_bits in
    if last_bits == 0 then 2 ^ 32 - 1 else u32 (1 * 2 ^ last_bits) - 1

unfoldable pub bitmap_file_size : Bitmap → ℕ
bitmap_file_size b = byte_cnt b.bit_cnt

module _ {File : Type 0} (files : Files File) where
  -- The bitmap afterwards, and whether it was read in full.
  unfoldable pub bitmap_read : Bitmap → File → Bitmap × Bool
  unfolding update
  bitmap_read b file =
      let size = byte_cnt b.bit_cnt in
      let (bits, n) = files.file_read_at file b.bits size 0 in
      let last = elem_cnt b.bit_cnt - 1 in
      if ltb 0 b.bit_cnt
      then (record b { bits = update bits last (bit_and (bits last) (last_mask b)) }, n == size)
      else (b, true)

  -- The file afterwards, and whether the bitmap was written in full.
  unfoldable pub bitmap_write : Bitmap → File → File × Bool
  bitmap_write b file =
      let size = byte_cnt b.bit_cnt in
      let (file', n) = files.file_write_at file b.bits size 0 in (file', n == size)
