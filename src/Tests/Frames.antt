-- ===== src/Tests/Frames.antt =====
-- kernel/frame.c at one zone of memory, from 1 MiB to 16 MiB.
use epos_arm.Base.{ℕ, ◌<◌, ◌≡◌, ◌⊎◌, arith, if◌then◌else◌, ◌==◌}
use epos_arm.Bitmap.{Bitmap, bitmap_error}
use epos_arm.Frame.{PmZone, zone_cnt, frame_alloc, frame_alloc_in_addr}
use epos_arm.Frame.Alloc.{Served, Exhausted, Grants, frame_alloc-Served, frame_alloc_in_addr-Grants}

abbrev no_bits : Bitmap
no_bits = record { bit_cnt = 0; bits = λ i. 0 }

abbrev pmzone : ℕ → PmZone
pmzone z =
    if z == 0
    then record {
      base = 0x10_4000;
      limit = 0xef_c000;
      bitmap = record { bit_cnt = 3840; bits = λ i. 0 };
    }
    else record { base = 0; limit = 0; bitmap = no_bits }

pmzone_small : (y : ℕ) → (pmzone y).bitmap.bit_cnt < bitmap_error
pmzone_small y = ground arith

frame_alloc-Served_example :
    ((z : ℕ) × (idx : ℕ) × Served pmzone 4 (frame_alloc pmzone 4).1 z idx)
    ⊎ Exhausted pmzone 4 (frame_alloc pmzone 4).1
frame_alloc-Served_example = frame_alloc-Served pmzone 4 pmzone_small

frame_alloc_in_addr-Grants_example :
    (((frame_alloc_in_addr pmzone 0x20_0000 2).1 ≡ 0x20_0000)
      × ((z : ℕ) × (z < zone_cnt) × Grants pmzone 0x20_0000 2 z))
    ⊎ (((frame_alloc_in_addr pmzone 0x20_0000 2).1 ≡ bitmap_error)
        × ((z : ℕ) → z < zone_cnt → ¬ Grants pmzone 0x20_0000 2 z))
frame_alloc_in_addr-Grants_example = frame_alloc_in_addr-Grants pmzone 0x20_0000 2 (omega arith)
