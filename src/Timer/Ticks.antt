-- ===== src/Timer/Ticks.antt =====
-- The sleeps of kernel/timer.c that count `g_timer_ticks`. The interrupt handler that would count it up
-- is commented out in the source.
use epos_arm.Base.{
  ℕ, zero, suc, ◌+◌, ◌*◌, ◌^◌, ◌≤◌, ◌<◌, ◌≡◌, refl, true, false, Option, none, some, arith, ltb,
  ◌>>=◌, inl, inr,
}
use mathlib.Core.Path.{subst}
use epos_arm.Base.Word.{u32, sub32, pos}
use epos_arm.Thread.{Threads, place_of}
use epos_arm.Thread.Calls.{sys_task_yield}
use epos_arm.Thread.Schedule.{schedule-resched}
use epos_arm.Timer.Sleep.{IsFirstLate, search_late}
use epos_arm.Timer.{hz, ticks_loop, sleep_ticks, do_sleep, sys_sleep, sleep_positive, sys_nanosleep}

-- A step that yields nothing leads to nothing.
pub bind-none {ℓ κ} :
    {A : Type ℓ} {B : Type κ} (o : Option A) (f : A → Option B)
    → ((a : A) → f a ≡ none)
    → (o >>= f) ≡ none
bind-none none f h = refl
bind-none (some a) f h = h a

ticks_loop_stuck :
    (c wanted n fuel : ℕ) (t : Threads)
    → 0 < wanted
    → c < 2 ^ 32
    → ticks_loop (λ i. c) c wanted n fuel t ≡ none
unfolding ticks_loop
ticks_loop_stuck c wanted n zero t h word = refl
ticks_loop_stuck c wanted n (suc fuel) t h word =
    let waits : ltb (sub32 c c) wanted ≡ true = ground arith in
    rw waits (
      bind-none (sys_task_yield t) (ticks_loop (λ i. c) c wanted (n + 1) fuel)
        (λ t'. ticks_loop_stuck c wanted (n + 1) fuel t' h word))

-- As long as the count of ticks stays what it is, `sys_sleep` of a second or more, whose ticks do not wrap,
-- does not return, however long it runs.
pub sys_sleep_stuck :
    (c seconds n fuel : ℕ) (t : Threads)
    → c < 2 ^ 32
    → 0 < seconds
    → seconds * hz < 2 ^ 32
    → sys_sleep (λ i. c) fuel seconds n t ≡ none
unfolding sys_sleep do_sleep sleep_ticks
sys_sleep_stuck c seconds n fuel t word some_seconds small =
    let ticks : u32 (seconds * hz) ≡ seconds * hz = omega arith in
    let waits : ltb 0 (seconds * hz) ≡ true = ground arith in
    rw (ticks, waits) (ticks_loop_stuck c (seconds * hz) (n + 1) fuel t (omega arith) word)

-- `sys_nanosleep` of no seconds and a positive number of nanoseconds that fits 32 bits does what
-- `sys_sleep` of as many seconds does.
pub sys_nanosleep-sys_sleep :
    (ticks : ℕ → ℕ) (fuel tv_nsec n : ℕ) (t : Threads)
    → 0 < tv_nsec
    → tv_nsec < 2 ^ 32
    → sys_nanosleep ticks fuel (pos 0) (pos tv_nsec) n t ≡ sys_sleep ticks fuel tv_nsec n t
unfolding sys_nanosleep sleep_positive sys_sleep do_sleep
sys_nanosleep-sys_sleep ticks fuel tv_nsec n t some_time word =
    let positive : ltb 0 tv_nsec ≡ true = ground arith in
    let same : u32 tv_nsec ≡ tv_nsec = omega arith in rw (positive, same) refl

sys_task_yield-resched :
    (t : Threads) (r : ℕ)
    → place_of t.running t.tasks ≡ some r
    → (x : ℕ) × (sys_task_yield t ≡ some (record t { resched = x }))
unfolding sys_task_yield
sys_task_yield-resched t r place =
    let (x, select, done) = schedule-resched t r place in (x, rw done refl)

-- What the loop returns: the number of the read after the one that is late enough, and the threads.
abbrev pub Returns : Option (ℕ × Threads) → (last : ℕ) → Threads → Type 0
Returns o last t = (x : ℕ) × (o ≡ some (last + 1, record t { resched = x }))

ticks_loop-Returns :
    (ticks : ℕ → ℕ) (start wanted n k fuel r : ℕ) (t : Threads)
    → place_of t.running t.tasks ≡ some r
    → wanted ≤ sub32 (ticks (n + k)) start
    → ((j : ℕ) → j < k → sub32 (ticks (n + j)) start < wanted)
    → k < fuel
    → Returns (ticks_loop ticks start wanted n fuel t) (n + k) t
unfolding ticks_loop
ticks_loop-Returns ticks start wanted n k zero r t place late early h = absurd (omega arith)
ticks_loop-Returns ticks start wanted n zero (suc fuel) r t place late early h =
    let e : n + 0 ≡ n = omega arith in
    let late' : wanted ≤ sub32 (ticks n) start =
      subst (λ (i : ℕ). wanted ≤ sub32 (ticks i) start) e late in
    let done : ltb (sub32 (ticks n) start) wanted ≡ false = ground arith in
    rw (done, e) (t.resched, refl)
ticks_loop-Returns ticks start wanted n (suc k) (suc fuel) r t place late early h =
    let e : n + 0 ≡ n = omega arith in
    let next : n + suc k ≡ n + 1 + k = omega arith in
    let early' : sub32 (ticks n) start < wanted =
      subst (λ (i : ℕ). sub32 (ticks i) start < wanted) e (early 0 (omega arith)) in
    let waits : ltb (sub32 (ticks n) start) wanted ≡ true = ground arith in
    let (x, yielded) = sys_task_yield-resched t r place in
    let shift : (j : ℕ) → n + suc j ≡ n + 1 + j = λ j. omega arith in
    let (y, done) =
      ticks_loop-Returns ticks start wanted (n + 1) k fuel r (record t { resched = x }) place
        (subst (λ (i : ℕ). wanted ≤ sub32 (ticks i) start) next late)
        (λ j b.
          subst (λ (i : ℕ). sub32 (ticks i) start < wanted) (shift j) (early (suc j) (omega arith)))
        (omega arith) in
    rw (waits, yielded, next) (y, done)

-- With the running thread in the list and a read of the ticks that is late enough within the fuel, `_sleep`
-- returns at the first such read, and has changed `g_resched` at most.
sleep_ticks-Returns :
    (ticks : ℕ → ℕ) (fuel wanted n m r : ℕ) (t : Threads)
    → place_of t.running t.tasks ≡ some r
    → wanted ≤ sub32 (ticks (n + 1 + m)) (ticks n)
    → m < fuel
    → (k : ℕ) × IsFirstLate (λ j. sub32 (ticks (n + 1 + j)) (ticks n)) wanted m k
      × Returns (sleep_ticks ticks fuel wanted n t) (n + 1 + k) t
unfolding sleep_ticks
sleep_ticks-Returns ticks fuel wanted n m r t place late h =
    elim (search_late (λ j. sub32 (ticks (n + 1 + j)) (ticks n)) wanted m) [
      | inr none_late ↦ absurd (omega (arith, none_late m (omega arith)))
      | inl (k, (le, at_last, early)) ↦ (
        k,
        (le, at_last, early),
        ticks_loop-Returns ticks (ticks n) wanted (n + 1) k fuel r t place at_last early
            (omega arith),
      )
    ]
