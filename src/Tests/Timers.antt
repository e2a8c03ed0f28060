-- ===== src/Tests/Timers.antt =====
-- kernel/timer.c: the calibration, and the sleeps over the count of ticks, of
-- the threads of the other tests.
use epos_arm.Base.{◌/◌, ◌≡◌, refl, some, none, [], ◌∷◌, arith}
use epos_arm.Device.{put, mmio_write}
use epos_arm.Timer.{loops_of_tick, calibrate_delay, init_arm_timer, sys_sleep}
use epos_arm.Timer.Calibrate.{calibrate_delay_stuck}
use epos_arm.Timer.Ticks.{sys_sleep_stuck}
use epos_arm.Tests.Devices.{devices, quiet, stars}
use epos_arm.Tests.ThreadRuns.{threads}

calibrate_delay_stuck_example :
    calibrate_delay devices 20 stars (λ i. 12) (λ loops. loops) 0 quiet ≡ none
calibrate_delay_stuck_example = calibrate_delay_stuck devices 20 stars 12 (λ loops. loops) 0 quiet

-- With a count that a handler counted up once in 5000 units of time.
loops_of_tick_run : loops_of_tick (λ at. at / 5000) (λ loops. loops) 6000 0 ≡ some 4992
unfolding loops_of_tick
loops_of_tick_run = refl

sys_sleep_stuck_example : sys_sleep (λ i. 12) 50 3 0 threads ≡ none
sys_sleep_stuck_example =
    sys_sleep_stuck 12 3 0 50 threads (omega arith) (omega arith) (omega arith)

init_arm_timer_run :
    (init_arm_timer 1000 (record { reads = 0; log = [] })).log
    ≡ put 0xC100_B218 1
      ∷ put 0xC100_B400 1000
      ∷ put 0xC100_B418 1000
      ∷ put 0xC100_B41C 0xF9
      ∷ put 0xC100_B408 0xA2
      ∷ []
unfolding init_arm_timer mmio_write
init_arm_timer_run = refl
