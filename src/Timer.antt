-- ===== src/Timer.antt =====
-- kernel/timer.c: the delays. `ticks n` is what the `n`-th read of `g_timer_ticks` gives.
pub mod Sleep
pub mod Calibrate
pub mod Ticks
use epos_arm.Base.{
  List, [], ◌∷◌, ℕ, zero, suc, ◌+◌, ◌-◌, ◌*◌, ◌/◌, ◌%◌, ◌^◌, Bool, not, Option, none, some, List,
  ltb, ◌==◌, if◌then◌else◌, bit_and, bit_or, ◌>>=◌,
}
use mathlib.Core.Option
use epos_arm.Base.Word.{u32, sub32, ℤ, pos, negsuc}
use epos_arm.Device.{Answers, World, after_read, mmio_read, mmio_write, poll_until}
use epos_arm.Printk.{literal, Formatter, printk}
use epos_arm.Thread.{Threads}
use epos_arm.Thread.Calls.{sys_task_yield}

abbrev pub timer_cl0 : ℕ
timer_cl0 = 0xC100_3004

abbrev pub armtimer_base : ℕ
armtimer_base = 0xC100_B400

abbrev pub interrupt_controller_base : ℕ
interrupt_controller_base = 0xC100_B200

abbrev pub basic_arm_timer_irq : ℕ
basic_arm_timer_irq = 1 * 2 ^ 0

abbrev pub armtimer_ctrl_23bit : ℕ
armtimer_ctrl_23bit = 1 * 2 ^ 1

abbrev pub armtimer_ctrl_prescale_1 : ℕ
armtimer_ctrl_prescale_1 = 0 * 2 ^ 2

abbrev pub armtimer_ctrl_int_enable : ℕ
armtimer_ctrl_int_enable = 1 * 2 ^ 5

abbrev pub armtimer_ctrl_enable : ℕ
armtimer_ctrl_enable = 1 * 2 ^ 7

abbrev pub hz : ℕ
hz = 100

-- `!((*TIMER_CL0_P - current_time) < us)`
unfoldable pub has_passed : (current_time us value : ℕ) → Bool
has_passed current_time us value = not (ltb (sub32 value current_time) us)

-- The world after `sleep`, and the value returned. The product is taken to wrap.
unfoldable pub sleep : Answers → (fuel : ℕ) → ℤ → World → Option (World × ℤ)
sleep answers fuel (negsuc n) w = some (w, negsuc 0)
sleep answers fuel (pos ms) w =
    let us = u32 (ms * 1000) in
    let (current_time, w1) = mmio_read answers timer_cl0 w in
    Option.map (λ w'. (w', pos 0))
      (poll_until answers timer_cl0 (has_passed current_time us) fuel w1)

-- The fields of `irq_controller_t` and `arm_timer_t` lie four bytes apart.
unfoldable pub init_arm_timer : (load : ℕ) → World → World
init_arm_timer load w =
    let w1 = mmio_write (interrupt_controller_base + 24) basic_arm_timer_irq w in
    let w2 = mmio_write (armtimer_base + 0) load w1 in
    let w3 = mmio_write (armtimer_base + 24) load w2 in
    let w4 = mmio_write (armtimer_base + 28) 0xF9 w3 in
    mmio_write (armtimer_base + 8)
      (bit_or
        (bit_or (bit_or armtimer_ctrl_23bit armtimer_ctrl_prescale_1) armtimer_ctrl_int_enable)
        armtimer_ctrl_enable)
      w4

-- `while (tmp == g_timer_ticks);` from the time `at` on. In `calibrate_delay`, `ticks at` is the count of
-- ticks at the time `at`, and each read takes one unit of time. The result is the time after the loop, and `none` is
-- too little fuel.
pub wait_tick : (ticks : ℕ → ℕ) → (tmp at fuel : ℕ) → Option ℕ
wait_tick ticks tmp at zero = none
wait_tick ticks tmp at (suc fuel) =
    let rest = wait_tick ticks tmp (at + 1) fuel in if tmp == ticks at then rest else some (at + 1)

-- The wait for the start of a tick and `busy_wait(loops)`, which takes the time `delay loops`: the count of ticks
-- before and after it, and the time.
unfoldable pub timed_wait :
    (ticks delay : ℕ → ℕ) → (loops at fuel : ℕ) → Option ((before : ℕ) × (after : ℕ) × ℕ)
unfolding wait_tick
timed_wait ticks delay loops at fuel = wait_tick ticks (ticks at) (at + 1) fuel >>= λ go.
    let finish = go + 1 + delay loops in some (ticks go, ticks finish, finish + 1)

-- The first loop of `calibrate_delay`: the value of `loops_per_tick` where it ends, and the time. The fuel is
-- that of each wait for a tick, and of the rounds.
pub coarse_loop : (ticks delay : ℕ → ℕ) → (fuel loops_per_tick at rounds : ℕ) → Option (ℕ × ℕ)
unfolding timed_wait
coarse_loop ticks delay fuel loops_per_tick at zero = none
coarse_loop ticks delay fuel loops_per_tick at (suc rounds) =
    let loops = u32 (loops_per_tick * 2) in
    let round = timed_wait ticks delay loops at fuel >>= λ (before, after, now).
    let rest = coarse_loop ticks delay fuel loops now rounds in
    if not (sub32 after before == 0) then some (loops, now) else rest in
    if loops == 0 then some (loops, at) else round

-- The second loop, with `lps_precision` rounds to go.
pub fine_loop :
    (ticks delay : ℕ → ℕ) → (fuel loops_per_tick loopbit at lps_precision : ℕ) → Option ℕ
unfolding timed_wait
fine_loop ticks delay fuel loops loopbit at zero = some loops
fine_loop ticks delay fuel loops loopbit at (suc lps_precision) =
    let bit = loopbit / 2 in
    let tried = bit_or loops bit in
    let round = timed_wait ticks delay tried at fuel >>= λ (before, after, now).
    let kept = if not (after == before) then bit_and tried (2 ^ 32 - 1 - bit) else tried in
    fine_loop ticks delay fuel kept bit now lps_precision in
    if bit == 0 then some loops else round

-- The value that `calibrate_delay` finds for `loops_per_tick`, begun at the time `at`.
unfoldable pub loops_of_tick : (ticks delay : ℕ → ℕ) → (fuel at : ℕ) → Option ℕ
unfolding coarse_loop fine_loop
loops_of_tick ticks delay fuel at =
    coarse_loop ticks delay fuel (1 * 2 ^ 12) at fuel >>= λ (loops, now).
    fine_loop ticks delay fuel (loops / 2) (loops / 2) now 8

-- The world after `calibrate_delay` and the value that it leaves in `loops_per_tick`. The first `printk` ends at
-- the time `at`.
unfoldable pub calibrate_delay :
    Answers → (fuel : ℕ) → Formatter → (ticks delay : ℕ → ℕ) → (at : ℕ) → World → Option (World × ℕ)
calibrate_delay answers fuel vsnprintf ticks delay at w =
    printk answers fuel vsnprintf (literal "Calibrating delay... " []) w >>= λ begun.
    loops_of_tick ticks delay fuel at >>= λ loops_per_tick.
    Option.map (λ done. (done.0, loops_per_tick))
      (printk answers fuel vsnprintf
        (literal "%u loops per second (%lu.%02lu BogoMIPS)\r\n" (
          u32 (loops_per_tick * hz)
          ∷ loops_per_tick / (500000 / hz)
          ∷ loops_per_tick / (5000 / hz) % 100
          ∷ []))
        begun.0)

-- The loop of `_sleep` from the `n`-th read of the ticks on. The results are the number of the next read
-- and the threads.
pub ticks_loop : (ticks : ℕ → ℕ) → (start wanted n fuel : ℕ) → Threads → Option (ℕ × Threads)
ticks_loop ticks start wanted n zero t = none
ticks_loop ticks start wanted n (suc fuel) t =
    let rest = sys_task_yield t >>= ticks_loop ticks start wanted (n + 1) fuel in
    if ltb (sub32 (ticks n) start) wanted then rest else some (n + 1, t)

-- `_sleep` from the `n`-th read on; it returns 0.
unfoldable pub sleep_ticks : (ticks : ℕ → ℕ) → (fuel wanted n : ℕ) → Threads → Option (ℕ × Threads)
unfolding ticks_loop
sleep_ticks ticks fuel wanted n t = ticks_loop ticks (ticks n) wanted (n + 1) fuel t

-- `do_sleep(num, denom)`: `_delay` does nothing, and the division by `denom` is commented out.
unfoldable pub do_sleep : (ticks : ℕ → ℕ) → (fuel num denom n : ℕ) → Threads → Option (ℕ × Threads)
do_sleep ticks fuel num denom n t =
    let wanted = u32 (num * hz) in
    if ltb 0 wanted then sleep_ticks ticks fuel wanted n t else some (n, t)

-- `sys_sleep`, which returns 0.
unfoldable pub sys_sleep : (ticks : ℕ → ℕ) → (fuel seconds n : ℕ) → Threads → Option (ℕ × Threads)
sys_sleep ticks fuel seconds n t = do_sleep ticks fuel seconds 1 n t

-- `do_sleep` of a time that is above 0.
unfoldable pub sleep_positive :
    (ticks : ℕ → ℕ) → (fuel : ℕ) → (time : ℤ) → (denom : ℕ) → ℕ × Threads → Option (ℕ × Threads)
sleep_positive ticks fuel (pos num) denom (n, t) =
    if ltb 0 num then do_sleep ticks fuel (u32 num) denom n t else some (n, t)
sleep_positive ticks fuel (negsuc num) denom (n, t) = some (n, t)

-- `sys_nanosleep` of the two fields of `rqtp`; it returns 0.
unfoldable pub sys_nanosleep :
    (ticks : ℕ → ℕ) → (fuel : ℕ) → (tv_sec tv_nsec : ℤ) → (n : ℕ) → Threads → Option (ℕ × Threads)
sys_nanosleep ticks fuel tv_sec tv_nsec n t =
    sleep_positive ticks fuel tv_sec 1 (n, t)
    >>= sleep_positive ticks fuel tv_nsec (1000 * 1000 * 1000)
