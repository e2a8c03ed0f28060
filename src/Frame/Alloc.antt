-- ===== src/Frame/Alloc.antt =====
-- `frame_alloc` and `frame_alloc_in_addr` of kernel/frame.c: which frames they return.
use epos_arm.Base.{
  ℕ, zero, suc, ◌+◌, ◌-◌, ◌*◌, ◌/◌, ◌^◌, ◌≤◌, ◌<◌, ◌≡◌, ◌≢◌, refl, sym, ◌⊎◌, inl, inr, Bool, true,
  false, arith, ◌==◌, Bool-cases, ap,
}
use mathlib.Core.Path.{fun_ext, subst}
use epos_arm.Base.Word.{u32, sub32}
use epos_arm.Cpu.{page_size}
use epos_arm.PageTable.{update}
use epos_arm.Bitmap.{Bitmap, bitmap_error, bitmap_none, bitmap_scan}
use epos_arm.Bitmap.Groups.{IsGroup, bitmap_all_iff}
use epos_arm.Bitmap.Scan.{IsFirst, NoGroup, bitmap_scan-IsFirst}
use epos_arm.Bitmap.Writes.{bitmap_set_multiple_lem}
use epos_arm.Frame.{
  PmZone, zone_cnt, in_zone, take_frames, alloc_in_addr_loop, frame_alloc_in_addr, frame_alloc_loop,
  frame_alloc,
}

-- Zone `z` has no `nframes` consecutive free bits.
abbrev pub IsFull : (ℕ → PmZone) → (nframes z : ℕ) → Type 0
IsFull pmzone nframes z = NoGroup (pmzone z).bitmap 0 nframes false

-- The frames returned begin at `idx` of zone `z`.
pub record Served (pmzone : ℕ → PmZone) (nframes r z idx : ℕ) : Type 0 where
  pub zone : z < zone_cnt
  pub used : (y : ℕ) → y ≤ z → (pmzone y).limit ≢ 0
  pub full : (y : ℕ) → y < z → IsFull pmzone nframes y
  pub free : IsFirst (pmzone z).bitmap 0 nframes false idx
  pub addr : r ≡ u32 ((pmzone z).base + idx * page_size)

-- Each zone up to the first unused one is full.
pub record Exhausted (pmzone : ℕ → PmZone) (nframes r : ℕ) : Type 0 where
  pub stop : ℕ
  pub end : (stop ≡ zone_cnt) ⊎ ((stop < zone_cnt) × ((pmzone stop).limit ≡ 0))
  pub full : (y : ℕ) → y < stop → IsFull pmzone nframes y
  pub error : r ≡ bitmap_error

take_frames_lem :
    (pmzone : ℕ → PmZone) (z idx nframes : ℕ) (value : Bool)
    → take_frames pmzone z idx nframes value ≡ pmzone
unfolding take_frames update
take_frames_lem pmzone z idx nframes value = fun_ext λ y. elim (Bool-cases (y == z)) [
  | inl e ↦ rw (e, bitmap_set_multiple_lem) (let eq : y ≡ z = ground arith in rw eq)
  | inr e ↦ rw e
]

module _ (pmzone : ℕ → PmZone) (nframes : ℕ) where
  frame_alloc_loop-fst : (z left : ℕ) → (frame_alloc_loop pmzone nframes z left).0 ≡ pmzone
  unfolding frame_alloc_loop
  frame_alloc_loop-fst z zero = refl
  frame_alloc_loop-fst z (suc left) = ground (
    arith,
    frame_alloc_loop-fst (z + 1) left,
    take_frames_lem pmzone z (bitmap_scan (pmzone z).bitmap 0 nframes false) nframes true,
  )

  Outcome : ℕ → Type 0
  Outcome r = ((z : ℕ) × (idx : ℕ) × Served pmzone nframes r z idx) ⊎ Exhausted pmzone nframes r

  -- `P` of all zones before `z` and of `z`.
  below_suc : {P : ℕ → Type 0} (z : ℕ) → ((y : ℕ) → y < z → P y) → P z → (y : ℕ) → y < z + 1 → P y
  below_suc {P} z f p y h = elim (before_or_at y z h) [
    | inl lt ↦ f y lt
    | inr e ↦ subst P (sym e) p
  ]
    where
      before_or_at : (y z : ℕ) → y < z + 1 → (y < z) ⊎ (y ≡ z)
      before_or_at y z h = omega arith

  frame_alloc_loop-Outcome :
      ((y : ℕ) → (pmzone y).bitmap.bit_cnt < bitmap_error)
      → (z left : ℕ) → z + left ≡ zone_cnt
      → ((y : ℕ) → y < z → (pmzone y).limit ≢ 0)
      → ((y : ℕ) → y < z → IsFull pmzone nframes y)
      → Outcome (frame_alloc_loop pmzone nframes z left).1
  unfolding frame_alloc_loop Outcome
  frame_alloc_loop-Outcome small z zero e used full =
      inr (record { stop = z; end = omega arith; full = full; error = refl })
  frame_alloc_loop-Outcome small z (suc left) e used full =
      elim (Bool-cases ((pmzone z).limit == 0)) [
        | inl t ↦ rw t (
            inr (record {
              stop = z;
              end = inr (omega arith, ground arith);
              full = full;
              error = refl;
            }))
        | inr f ↦
            let used' = below_suc z used (λ (h : (pmzone z).limit ≡ 0). ground arith) in
            elim (bitmap_scan-IsFirst (pmzone z).bitmap 0 nframes false) [
              | inl first ↦
                  let found : (bitmap_scan (pmzone z).bitmap 0 nframes false == bitmap_error)
                      ≡ false =
                    grind (arith, small z, first.fits) in
                  rw (f, found)
                    (inl (
                      z,
                      bitmap_scan (pmzone z).bitmap 0 nframes false,
                      record {
                        zone = omega arith;
                        used = λ y h. used' y (omega arith);
                        full = full;
                        free = first;
                        addr = refl;
                      },
                    ))
              | inr (none, full_z) ↦
                  rw (f, none)
                    (frame_alloc_loop-Outcome small (z + 1) left (omega arith) used'
                      (below_suc z full full_z))
            ]
      ]

-- With bitmaps of fewer bits than BITMAP_ERROR, `frame_alloc` serves the request from the first zone in use that has `nframes` consecutive free
-- bits, at the first such group, and fails only if every zone up to the first unused one is full.
pub frame_alloc-Served :
    (pmzone : ℕ → PmZone) (nframes : ℕ)
    → ((y : ℕ) → (pmzone y).bitmap.bit_cnt < bitmap_error)
    → ((z : ℕ) × (idx : ℕ) × Served pmzone nframes (frame_alloc pmzone nframes).1 z idx)
      ⊎ Exhausted pmzone nframes (frame_alloc pmzone nframes).1
unfolding frame_alloc Outcome
frame_alloc-Served pmzone nframes small =
    frame_alloc_loop-Outcome pmzone nframes small 0 zone_cnt refl (λ y h. absurd (omega arith))
      (λ y h. absurd (omega arith))

-- `frame_alloc` leaves the zones as they are.
pub frame_alloc-fst : (pmzone : ℕ → PmZone) (nframes : ℕ) → (frame_alloc pmzone nframes).0 ≡ pmzone
unfolding frame_alloc
frame_alloc-fst pmzone nframes = frame_alloc_loop-fst pmzone nframes 0 zone_cnt

-- Frames that `frame_alloc` has returned are not reserved: the next call with the same count returns
-- the same address.
frame_alloc_again :
    (pmzone : ℕ → PmZone) (nframes : ℕ)
    → (frame_alloc (frame_alloc pmzone nframes).0 nframes).1 ≡ (frame_alloc pmzone nframes).1
frame_alloc_again pmzone nframes =
    ap (λ (p : ℕ → PmZone). (frame_alloc p nframes).1) (frame_alloc-fst pmzone nframes)

-- The frames from `pa` on are free in zone `z`, which holds `pa`.
pub record Grants (pmzone : ℕ → PmZone) (pa nframes z : ℕ) : Type 0 where
  pub above : (pmzone z).base ≤ pa
  pub below : pa < u32 ((pmzone z).base + (pmzone z).limit)
  pub free : IsGroup (pmzone z).bitmap ((pa - (pmzone z).base) / page_size) nframes false

module _ (pmzone : ℕ → PmZone) (pa nframes : ℕ) (word : pa < 2 ^ 32) where
  InAddr : (z left r : ℕ) → Type 0
  InAddr z left r =
      ((r ≡ pa) × ((y : ℕ) × (y < z + left) × Grants pmzone pa nframes y))
      ⊎ ((r ≡ bitmap_error) × ((y : ℕ) → z ≤ y → y < z + left → ¬ Grants pmzone pa nframes y))

  InAddr-step :
      (z left r : ℕ) → ¬ Grants pmzone pa nframes z → InAddr (z + 1) left r → InAddr z (suc left) r
  unfolding InAddr
  InAddr-step z left r no_grant (inl (e, (y, h, g))) = inl (e, (y, omega arith, g))
  InAddr-step z left r no_grant (inr (e, f)) = inr (
    e,
    λ y p q g. elim (here_or_after y p) [
      | inl here ↦ no_grant (subst (Grants pmzone pa nframes) here g)
      | inr after ↦ f y after (omega arith) g
    ],
  )
    where
      here_or_after : (y : ℕ) → z ≤ y → (y ≡ z) ⊎ (z + 1 ≤ y)
      here_or_after y h = omega arith

  offset_lem : (base : ℕ) → base ≤ pa → sub32 pa base ≡ pa - base
  offset_lem base h = omega arith

  alloc_in_addr_loop-InAddr :
      (z left : ℕ) → InAddr z left (alloc_in_addr_loop pmzone pa nframes z left).1
  unfolding alloc_in_addr_loop in_zone
  alloc_in_addr_loop-InAddr z zero = unfold InAddr in inr (refl, λ y p q g. absurd (omega arith))
  alloc_in_addr_loop-InAddr z (suc left) = elim (Bool-cases (in_zone pa (pmzone z))) [
    | inr outside ↦ rw outside (
        InAddr-step z left _ (λ g. ground (arith, g.above, g.below))
          (alloc_in_addr_loop-InAddr (z + 1) left))
    | inl inside ↦
        let above : (pmzone z).base ≤ pa = ground arith in
        let below : pa < u32 ((pmzone z).base + (pmzone z).limit) = ground arith in
        let idx = (pa - (pmzone z).base) / page_size in
        rw (offset_lem (pmzone z).base above)
          (elim (Bool-cases (bitmap_none (pmzone z).bitmap idx nframes)) [
            | inl free ↦
                let group = (bitmap_all_iff (pmzone z).bitmap idx nframes).1.0 free in
                rw (inside, free)
                  (unfold InAddr in
                    inl (
                      refl,
                      (z, omega arith, record { above = above; below = below; free = group }),
                    ))
            | inr busy ↦
                rw (inside, busy)
                  (InAddr-step z left _
                    (λ g. absurd (busy_not_free (pmzone z).bitmap idx nframes busy g.free))
                    (alloc_in_addr_loop-InAddr (z + 1) left))
          ])
  ]
    where
      busy_not_free :
          (b : Bitmap) (idx cnt : ℕ) → bitmap_none b idx cnt ≡ false → ¬ IsGroup b idx cnt false
      busy_not_free b idx cnt busy g = let free = (bitmap_all_iff b idx cnt).1.1 g in cc

-- For a 32-bit address `frame_alloc_in_addr` returns `pa` exactly when some zone holds that address and its `nframes` bits
-- from there on are all clear, and returns BITMAP_ERROR otherwise.
pub frame_alloc_in_addr-Grants :
    (pmzone : ℕ → PmZone) (pa nframes : ℕ)
    → pa < 2 ^ 32
    → (((frame_alloc_in_addr pmzone pa nframes).1 ≡ pa)
        × ((z : ℕ) × (z < zone_cnt) × Grants pmzone pa nframes z))
      ⊎ (((frame_alloc_in_addr pmzone pa nframes).1 ≡ bitmap_error)
          × ((z : ℕ) → z < zone_cnt → ¬ Grants pmzone pa nframes z))
unfolding frame_alloc_in_addr InAddr
frame_alloc_in_addr-Grants pmzone pa nframes word =
    elim (alloc_in_addr_loop-InAddr pmzone pa nframes word 0 zone_cnt) [
      | inl (e, (z, h, g)) ↦ inl (e, (z, omega arith, g))
      | inr (e, f) ↦ inr (e, λ z h. f z (omega arith) (omega arith))
    ]
