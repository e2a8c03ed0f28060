-- ===== src/Timer/Calibrate.antt =====
-- The waits of `calibrate_delay` of kernel/timer.c for the start of a tick. The interrupt handler that
-- would count `g_timer_ticks` is commented out in the source.
use epos_arm.Base.{[], ℕ, zero, suc, ◌+◌, ◌*◌, ◌≡◌, refl, true, false, none, arith, ◌==◌}
use epos_arm.Base.Word.{u32}
use epos_arm.Timer.Ticks.{bind-none}
use epos_arm.Timer.{wait_tick, timed_wait, coarse_loop, loops_of_tick, calibrate_delay}
use epos_arm.Device.{Answers, World}
use epos_arm.Printk.{literal, Formatter, printk}

wait_tick_stuck : (c at fuel : ℕ) → wait_tick (λ i. c) c at fuel ≡ none
unfolding wait_tick
wait_tick_stuck c at zero = refl
wait_tick_stuck c at (suc fuel) =
    let same : (c == c) ≡ true = ground arith in rw same (wait_tick_stuck c (at + 1) fuel)

timed_wait_stuck :
    (c : ℕ) (delay : ℕ → ℕ) (loops at fuel : ℕ) → timed_wait (λ i. c) delay loops at fuel ≡ none
unfolding timed_wait
timed_wait_stuck c delay loops at fuel = rw (wait_tick_stuck c (at + 1) fuel) refl

-- A round of the first loop that is entered does not end.
coarse_loop_stuck :
    (c : ℕ) (delay : ℕ → ℕ) (fuel loops at rounds : ℕ)
    → (u32 (loops * 2) == 0) ≡ false
    → coarse_loop (λ i. c) delay fuel loops at rounds ≡ none
unfolding coarse_loop
coarse_loop_stuck c delay fuel loops at zero entered = refl
coarse_loop_stuck c delay fuel loops at (suc rounds) entered =
    rw (entered, timed_wait_stuck c delay (u32 (loops * 2)) at fuel) refl

loops_of_tick_stuck :
    (c : ℕ) (delay : ℕ → ℕ) (fuel at : ℕ) → loops_of_tick (λ i. c) delay fuel at ≡ none
unfolding loops_of_tick
loops_of_tick_stuck c delay fuel at = rw (coarse_loop_stuck c delay fuel 4096 at fuel refl) refl

-- As long as the count of ticks stays what it is, `calibrate_delay` does not return, however long it runs.
pub calibrate_delay_stuck :
    (answers : Answers) (fuel : ℕ) (vsnprintf : Formatter) (c : ℕ) (delay : ℕ → ℕ) (at : ℕ)
    (w : World)
    → calibrate_delay answers fuel vsnprintf (λ i. c) delay at w ≡ none
unfolding calibrate_delay
calibrate_delay_stuck answers fuel vsnprintf c delay at w =
    bind-none (printk answers fuel vsnprintf (literal "Calibrating delay... " []) w) _
      (λ begun. rw (loops_of_tick_stuck c delay fuel at) refl)
