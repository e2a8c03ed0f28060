-- ===== src/Frame/Aligned.antt =====
-- The addresses that `frame_alloc` of kernel/frame.c returns.
use epos_arm.Base.{ℕ, zero, suc, ◌+◌, ◌%◌, ◌<◌, ◌≡◌, ◌≢◌, arith}
use epos_arm.Base.Word.{size_max}
use epos_arm.Cpu.{page_size}
use epos_arm.Frame.{PmZone, zone_cnt, frame_alloc_loop, frame_alloc}

module _ (pmzone : ℕ → PmZone) (aligned : (z : ℕ) → (pmzone z).base % page_size ≡ 0) where
  frame_alloc_loop_aligned :
      (nframes z left : ℕ)
      → (frame_alloc_loop pmzone nframes z left).1 ≢ size_max
      → ((frame_alloc_loop pmzone nframes z left).1 < size_max)
        × ((frame_alloc_loop pmzone nframes z left).1 % page_size ≡ 0)
  unfolding frame_alloc_loop
  frame_alloc_loop_aligned nframes z zero found = ground arith
  frame_alloc_loop_aligned nframes z (suc left) found =
      ground (arith, aligned z, frame_alloc_loop_aligned nframes (z + 1) left)

  -- Where each zone begins at a page, what `frame_alloc` returns is an error or a page's address.
  pub frame_alloc_aligned :
      (nframes : ℕ)
      → (frame_alloc pmzone nframes).1 ≢ size_max
      → ((frame_alloc pmzone nframes).1 < size_max)
        × ((frame_alloc pmzone nframes).1 % page_size ≡ 0)
  unfolding frame_alloc
  frame_alloc_aligned nframes found = frame_alloc_loop_aligned nframes 0 zone_cnt found
