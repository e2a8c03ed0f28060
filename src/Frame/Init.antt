-- ===== src/Frame/Init.antt =====
-- `init_frame` of kernel/frame.c at the first pair of `g_ram_zone`, and the frames that
-- `frame_alloc` then hands out.
use epos_arm.Base.{
  ℕ, ◌+◌, ◌-◌, ◌*◌, ◌/◌, ◌%◌, ◌^◌, ◌≤◌, ◌<◌, ◌≡◌, ◌≢◌, inl, inr, true, false, arith, ◌==◌, ap, ◌∙◌,
}
use epos_arm.Base.Word.{u32, sub32}
use epos_arm.Cpu.{page_size, page_roundup}
use epos_arm.Cpu.Pages.{page_roundup_bounds}
use epos_arm.Bitmap.{Bitmap, bitmap_buf_size, bitmap_create_in_buf, bitmap_scan}
use epos_arm.Bitmap.Test.{bit_at}
use epos_arm.Bitmap.Groups.{Contains}
use epos_arm.Bitmap.Scan.{bitmap_scan-IsFirst}
use epos_arm.Bitmap.Writes.{bitmap_create_in_buf_lem, bitmap_create_in_buf_clear}
use epos_arm.Frame.{PmZone, init_zone, init_frame, frame_alloc}

-- The bytes that `init_frame` takes from a zone for a bitmap of `bit_cnt` bits.
abbrev pub bitmap_bytes : ℕ → ℕ
bitmap_bytes bit_cnt = page_roundup (bitmap_buf_size bit_cnt)

pub bitmap_bytes_bounds :
    (bit_cnt : ℕ)
    → bit_cnt ≤ 2 ^ 20
    → (0 < bitmap_bytes bit_cnt)
      × (bitmap_bytes bit_cnt ≤ 2 ^ 18)
      × (bitmap_bytes bit_cnt % 2 ^ 14 ≡ 0)
unfolding bitmap_buf_size
bitmap_bytes_bounds bit_cnt h = omega (arith, page_roundup_bounds (bitmap_buf_size bit_cnt))

-- Memory from `lo` up to `hi` is the first zone, with room behind its bitmap.
pub record IsRam (ram : ℕ → ℕ) (lo hi : ℕ) : Type 0 where
  pub start : ram 0 ≡ lo
  pub end : ram 1 ≡ hi
  pub last : ram 2 ≡ ram 3
  pub word : hi < 2 ^ 32
  pub room : lo + bitmap_bytes ((hi - lo) / page_size) < hi

-- The zone that `init_frame` records for the range, with the bitmap at `brk`.
pub record IsZone (mem : ℕ → ℕ) (brk : ℕ) (zone : PmZone) (lo hi : ℕ) : Type 0 where
  pub base : zone.base ≡ lo + bitmap_bytes ((hi - lo) / page_size)
  pub end : zone.base + zone.limit ≡ hi
  pub bitmap : zone.bitmap ≡ bitmap_create_in_buf mem ((hi - lo) / page_size) brk

module _ (mem ram : ℕ → ℕ) (lo hi : ℕ) (r : IsRam ram lo hi) (pmzone : ℕ → PmZone) (pt : ℕ → ℕ)
    (brk : ℕ) where
  init_zone-IsZone :
      IsZone mem brk
        ((init_zone mem ram 0 (record { pmzone = pmzone; pt = pt; brk = brk; z = 0 })).pmzone 0)
        lo
        hi
  unfolding init_zone
  init_zone-IsZone =
      ground (arith, r.start, r.end, r.word, r.room, bitmap_bytes_bounds ((hi - lo) / page_size))

  init_frame-init_zone :
      init_frame mem ram pmzone pt brk
      ≡ init_zone mem ram 0 (record { pmzone = pmzone; pt = pt; brk = brk; z = 0 })
  unfolding init_frame
  init_frame-init_zone =
      let first : (sub32 (ram 1) (ram 0) == 0) ≡ false =
        ground (arith, r.start, r.end, r.word, r.room) in
      let second : (sub32 (ram 3) (ram 2) == 0) ≡ true = ground (arith, r.last) in
      rw (first, second)

  -- With one range of memory `init_frame` records one zone: it ends where the range does, begins
  -- behind the pages of its bitmap, and its bitmap has a bit for each page of the whole range.
  pub init_frame-IsZone : IsZone mem brk ((init_frame mem ram pmzone pt brk).pmzone 0) lo hi
  init_frame-IsZone = rw init_frame-init_zone init_zone-IsZone

-- The scan of a bitmap with no bit set for as many bits as there are finds the first.
scan_clear :
    (b : Bitmap) (n : ℕ)
    → b.bit_cnt ≡ n
    → ((k : ℕ) → bit_at b k ≡ false)
    → bitmap_scan b 0 n false ≡ 0
scan_clear b n size clear = elim (bitmap_scan-IsFirst b 0 n false) [
  | inl first ↦ omega (arith, first.fits)
  | inr (e, none) ↦ absurd (contradiction (none 0 (omega arith) (omega arith)))
]
  where
    contradiction : ¬ Contains b 0 n true
    contradiction (k, h, e) = ground (arith, clear (u32 (0 + k)))

-- A request that the scan of the first zone answers with index 0.
frame_alloc_first :
    (pmzone : ℕ → PmZone) (nframes : ℕ)
    → (pmzone 0).limit ≢ 0
    → bitmap_scan (pmzone 0).bitmap 0 nframes false ≡ 0
    → (frame_alloc pmzone nframes).1 ≡ u32 (pmzone 0).base
unfolding frame_alloc
frame_alloc_first pmzone nframes used found =
    let test : ((pmzone 0).limit == 0) ≡ false = ground arith in rw (test, found) (omega arith)

-- In zeroed memory a request for as many frames as the bitmap has bits is granted at the zone's base,
-- although the frames then reach past the end of memory.
frame_alloc_overruns :
    (mem ram : ℕ → ℕ) (lo hi : ℕ) (pmzone : ℕ → PmZone) (pt : ℕ → ℕ) (brk : ℕ)
    → IsRam ram lo hi
    → ((a : ℕ) → mem a ≡ 0)
    → let s = init_frame mem ram pmzone pt brk in
      let n = (hi - lo) / page_size in
      ((frame_alloc s.pmzone n).1 ≡ (s.pmzone 0).base) × (hi < (s.pmzone 0).base + n * page_size)
frame_alloc_overruns mem ram lo hi pmzone pt brk r zeros = (
  frame_alloc_first zones n (omega (arith, zone)) found ∙ omega (arith, zone),
  omega (arith, zone, bitmap_bytes_bounds n (omega arith)),
)
  where
    n : ℕ
    n = (hi - lo) / page_size

    zones : ℕ → PmZone
    zones = (init_frame mem ram pmzone pt brk).pmzone

    zone : IsZone mem brk (zones 0) lo hi
    zone = init_frame-IsZone mem ram lo hi r pmzone pt brk

    created : Bitmap
    created = bitmap_create_in_buf mem n brk

    size : created.bit_cnt ≡ n
    size = ap (λ (b : Bitmap). b.bit_cnt) (bitmap_create_in_buf_lem mem n brk)

    found : bitmap_scan (zones 0).bitmap 0 n false ≡ 0
    found =
        rw zone.bitmap
          (scan_clear created n size (λ k. bitmap_create_in_buf_clear mem n brk k zeros))
