-- ===== src/Tests/Bitmaps.antt =====
-- kernel/bitmap.c at a bitmap of 40 bits, of which 0, 1 and 33 are set.
use epos_arm.Base.{
  ℕ, ◌+◌, ◌-◌, ◌*◌, ◌^◌, ◌≡◌, ◌⊎◌, refl, arith, ◌&&◌, ltb, leb, true, false, if◌then◌else◌, ◌==◌,
}
use epos_arm.Bitmap.{
  elem_cnt, Bitmap, bitmap_error, bitmap_test, bitmap_contains, bitmap_count, bitmap_scan,
}
use epos_arm.Bitmap.Files.{Files, IsFiles, bitmap_read, bitmap_write}
use epos_arm.Bitmap.Files.RoundTrip.{bitmap_read-bitmap_write}
use epos_arm.Bitmap.Scan.{IsFirst, NoGroup, bitmap_scan-IsFirst}

abbrev forty : Bitmap
forty = record { bit_cnt = 40; bits = λ i. if i == 0 then 3 else (if i == 1 then 2 else 0) }

bitmap_scan-IsFirst_example :
    IsFirst forty 0 6 false (bitmap_scan forty 0 6 false)
    ⊎ ((bitmap_scan forty 0 6 false ≡ bitmap_error) × NoGroup forty 0 6 false)
bitmap_scan-IsFirst_example = bitmap_scan-IsFirst forty 0 6 false

scan_runs : (bitmap_scan forty 0 6 false ≡ 2) × (bitmap_scan forty 0 38 false ≡ bitmap_error)
unfolding bitmap_scan bitmap_contains bitmap_test
scan_runs = (refl, refl)

count_runs : bitmap_count forty 0 40 true ≡ 3
unfolding bitmap_count bitmap_test
count_runs = refl

-- A file as its words; `size` bytes are read and written from the start on.
abbrev store : Files (ℕ → ℕ)
store = record {
  file_read_at = λ f bits size ofs. (λ i. if leb (4 * i + 4) size then f i else bits i, size);
  file_write_at = λ f bits size ofs. (λ i. if leb (4 * i + 4) size then bits i else f i, size);
}

store-IsFiles : IsFiles store
store-IsFiles = record {
  count = λ f bits buffer size whole. refl;
  inside = λ f bits buffer size i whole below. ground arith;
  outside = λ f buffer size i above. ground arith;
}

-- All bits set.
abbrev ones : Bitmap
ones = record { bit_cnt = 40; bits = λ i. 2 ^ 32 - 1 }

written : (bitmap_write store forty (λ i. 0)).1 ≡ true
unfolding bitmap_write
written = ground arith

bitmap_read-bitmap_write_example :
    let (c', success) = bitmap_read store ones (bitmap_write store forty (λ i. 0)).0 in
    (success ≡ true)
    × (c'.bit_cnt ≡ 40)
    × ((i : ℕ)
        → bitmap_test c' i ≡ (
            if ltb i (elem_cnt 40 * 32)
            then ltb i 40 && bitmap_test forty i
            else bitmap_test ones i))
bitmap_read-bitmap_write_example =
    bitmap_read-bitmap_write store store-IsFiles forty ones (λ i. 0) refl (omega arith) written
