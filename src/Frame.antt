-- ===== src/Frame.antt =====
-- kernel/frame.c: the allocator of physical frames. `pmzone` is the array of zones; a zone whose
-- limit is 0 has no bitmap, and no function reads the one that stands for it here. Each zone's
-- bitmap lies in pages of its own, so writes to one zone's bitmap leave the others alone.
pub mod Aligned
pub mod Alloc
pub mod Init
use epos_arm.Base.{
  ℕ, zero, suc, ◌+◌, ◌-◌, ◌*◌, ◌/◌, ◌^◌, Bool, true, false, not, ◌&&◌, ltb, leb, ◌==◌,
  if◌then◌else◌, bit_or,
}
use epos_arm.Base.Word.{u32, sub32}
use epos_arm.Cpu.{page_size, page_roundup, pte_v, pte_w}
use epos_arm.PageTable.{update, page_map}
use epos_arm.Bitmap.{
  Bitmap, bitmap_error, bitmap_buf_size, bitmap_create_in_buf, bitmap_none, bitmap_scan,
  bitmap_set_multiple,
}

pub record PmZone : Type 0 where
  pub base : ℕ
  pub limit : ℕ
  pub bitmap : Bitmap

-- `RAM_ZONE_LEN/2`
abbrev pub zone_cnt : ℕ
zone_cnt = 2 * 8 / 2

-- What `init_frame` has changed so far: the zones, the page table, the end of kernel memory.
pub record InitState : Type 0 where
  pub pmzone : ℕ → PmZone
  pub pt : ℕ → ℕ
  pub brk : ℕ
  pub z : ℕ

-- One round of `init_frame`, for the pair of `g_ram_zone` at `i` and `i + 1`, which is not empty.
init_zone : (mem ram : ℕ → ℕ) (i : ℕ) → InitState → InitState
unfolding update
init_zone mem ram i s =
    let limit = sub32 (ram (i + 1)) (ram i) in
    let bit_cnt = limit / page_size in
    let size = page_roundup (bitmap_buf_size bit_cnt) in
    let paddr = ram i in
    let old = s.pmzone s.z in
    let zone = record old { base = u32 (paddr + size); limit = sub32 limit size } in
    if zone.limit == 0 then record s { pmzone = update s.pmzone s.z zone } else record {
      pmzone =
          update s.pmzone s.z (record zone { bitmap = bitmap_create_in_buf mem bit_cnt s.brk });
      pt = page_map s.pt s.brk paddr (size / page_size) (bit_or pte_v pte_w);
      brk = u32 (s.brk + size);
      z = s.z + 1;
    }

-- The loop at the pair `i`, with `left` pairs to go.
init_frame_loop : (mem ram : ℕ → ℕ) (i left : ℕ) → InitState → InitState
init_frame_loop mem ram i zero s = s
init_frame_loop mem ram i (suc left) s =
    let rest = init_frame_loop mem ram (i + 2) left (init_zone mem ram i s) in
    if sub32 (ram (i + 1)) (ram i) == 0 then s else rest

-- `mem` reads the words of memory by virtual address, `ram` is `g_ram_zone`; `init_frame` returns
-- the field `brk`.
pub init_frame : (mem ram : ℕ → ℕ) (pmzone : ℕ → PmZone) (pt : ℕ → ℕ) (brk : ℕ) → InitState
unfolding init_frame_loop
init_frame mem ram pmzone pt brk =
    init_frame_loop mem ram 0 zone_cnt (record { pmzone = pmzone; pt = pt; brk = brk; z = 0 })

-- `pa >= base && pa < base + limit`
in_zone : ℕ → PmZone → Bool
in_zone pa zone = leb zone.base pa && ltb pa (u32 (zone.base + zone.limit))

-- The zone with `nframes` bits set from `idx` on.
take_frames : (ℕ → PmZone) → (z idx nframes : ℕ) → Bool → ℕ → PmZone
unfolding update
take_frames pmzone z idx nframes value =
    let zone = pmzone z in
    update pmzone z (record zone { bitmap = bitmap_set_multiple zone.bitmap idx nframes value })

-- The loops over the zones, at zone `z` with `left` to go. The results: the zones, and what the
-- function returns.
alloc_in_addr_loop : (ℕ → PmZone) → (pa nframes z left : ℕ) → (ℕ → PmZone) × ℕ
alloc_in_addr_loop pmzone pa nframes z zero = (pmzone, bitmap_error)
alloc_in_addr_loop pmzone pa nframes z (suc left) =
    let rest = alloc_in_addr_loop pmzone pa nframes (z + 1) left in
    let idx = sub32 pa (pmzone z).base / page_size in
    if in_zone pa (pmzone z)
    then (if bitmap_none (pmzone z).bitmap idx nframes
        then (take_frames pmzone z idx nframes true, pa)
        else rest)
    else rest

pub frame_alloc_in_addr : (ℕ → PmZone) → (pa nframes : ℕ) → (ℕ → PmZone) × ℕ
unfolding alloc_in_addr_loop in_zone take_frames
frame_alloc_in_addr pmzone pa nframes = alloc_in_addr_loop pmzone pa nframes 0 zone_cnt

frame_alloc_loop : (ℕ → PmZone) → (nframes z left : ℕ) → (ℕ → PmZone) × ℕ
frame_alloc_loop pmzone nframes z zero = (pmzone, bitmap_error)
frame_alloc_loop pmzone nframes z (suc left) =
    let rest = frame_alloc_loop pmzone nframes (z + 1) left in
    let idx = bitmap_scan (pmzone z).bitmap 0 nframes false in
    if (pmzone z).limit == 0
    then (pmzone, bitmap_error)
    else (if not (idx == bitmap_error)
        then (take_frames pmzone z idx nframes true, u32 ((pmzone z).base + idx * page_size))
        else rest)

unfoldable pub frame_alloc : (ℕ → PmZone) → (nframes : ℕ) → (ℕ → PmZone) × ℕ
unfolding frame_alloc_loop take_frames
frame_alloc pmzone nframes = frame_alloc_loop pmzone nframes 0 zone_cnt

frame_free_loop : (ℕ → PmZone) → (paddr nframes z left : ℕ) → ℕ → PmZone
frame_free_loop pmzone paddr nframes z zero = pmzone
frame_free_loop pmzone paddr nframes z (suc left) =
    let rest = frame_free_loop pmzone paddr nframes (z + 1) left in
    let idx = sub32 paddr (pmzone z).base / page_size in
    if (pmzone z).limit == 0
    then pmzone
    else (if in_zone paddr (pmzone z) then take_frames pmzone z idx nframes false else rest)

pub frame_free : (ℕ → PmZone) → (paddr nframes : ℕ) → ℕ → PmZone
unfolding frame_free_loop in_zone take_frames
frame_free pmzone paddr nframes = frame_free_loop pmzone paddr nframes 0 zone_cnt
