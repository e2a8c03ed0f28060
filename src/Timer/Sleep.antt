-- ===== src/Timer/Sleep.antt =====
-- How long `sleep` of kernel/timer.c waits.
use epos_arm.Base.{
  [], ◌∷◌, ◌++◌, ℕ, zero, suc, ◌+◌, ◌*◌, ◌%◌, ◌^◌, ◌≤◌, ◌<◌, ◌≡◌, refl, Bool, true, false, not,
  some, arith, ltb, ◌⊎◌, inl, inr,
}
use epos_arm.Base.Word.{u32, pos}
use epos_arm.Device.{get, Answers, World, poll_until, mmio_read, after_read}
use epos_arm.Device.Poll.{polls, IsWait, poll_until-IsWait}
use epos_arm.Timer.{timer_cl0, has_passed, sleep}

-- The timer's register shows microseconds in 32 bits: `time n` is the time of the `n`-th read. It does not
-- go back, and not on by more than `step` from one read to the next.
pub record IsClock (answers : Answers) (time : ℕ → ℕ) (step : ℕ) : Type 0 where
  pub shown : (n : ℕ) → answers n timer_cl0 ≡ time n % 2 ^ 32
  pub onward : (n : ℕ) → time n ≤ time (n + 1)
  pub slow : (n : ℕ) → time (n + 1) ≤ time n + step

-- The last read comes at least `us` after the first, and no other does: `k` reads lie between the two.
pub record IsSlept (time : ℕ → ℕ) (us : ℕ) (w : World) (k : ℕ) (w' : World) : Type 0 where
  pub reads : w'.reads ≡ w.reads + 1 + suc k
  pub log : w'.log ≡ (w.log ++ get timer_cl0 ∷ []) ++ polls timer_cl0 (suc k)
  pub late : time w.reads + us ≤ time (w.reads + 1 + k)
  pub early : (j : ℕ) → j < k → time (w.reads + 1 + j) < time w.reads + us

now_or_later : (a b : ℕ) → (a ≤ b) ⊎ (b < a)
now_or_later a b = omega arith

-- The first `k` up to `m` with `due ≤ f k`, or that there is none.
abbrev pub IsFirstLate : (f : ℕ → ℕ) (due m k : ℕ) → Type 0
IsFirstLate f due m k = (k ≤ m) × (due ≤ f k) × ((j : ℕ) → j < k → f j < due)

pub search_late :
    (f : ℕ → ℕ) (due m : ℕ) → ((k : ℕ) × IsFirstLate f due m k) ⊎ ((j : ℕ) → j ≤ m → f j < due)
search_late f due zero = elim (now_or_later due (f 0)) [
  | inl late ↦ inl (0, (omega arith, late, λ j h. absurd (omega arith)))
  | inr early ↦ inr λ j h. let e : j ≡ 0 = omega arith in rw e early
]
search_late f due (suc m) = elim (search_late f due m) [
  | inl (k, (le, late, early)) ↦ inl (k, (omega arith, late, early))
  | inr none ↦ elim (now_or_later due (f (suc m))) [
    | inl late ↦ inl (suc m, (omega arith, late, λ j h. none j (omega arith)))
    | inr early ↦ inr λ j h. elim (at_or_before j m h) [ inl e ↦ rw e early | inr b ↦ none j b ]
  ]
]
  where
    at_or_before : (j m : ℕ) → j ≤ suc m → (j ≡ suc m) ⊎ (j ≤ m)
    at_or_before j m h = omega arith

module _ (answers : Answers) (time : ℕ → ℕ) (step : ℕ) (clock : IsClock answers time step) where
  onward_by : (n k : ℕ) → time n ≤ time (n + k)
  onward_by n zero = let e : n + 0 ≡ n = omega arith in rw e (omega arith)
  onward_by n (suc k) =
      let e : n + suc k ≡ n + k + 1 = omega arith in
      rw e (omega (arith, onward_by n k, clock.onward (n + k)))

  -- Whether a read passes the test of the loop.
  passed_lem :
      (first us n : ℕ)
      → time first ≤ time n
      → time n < time first + 2 ^ 32
      → us < 2 ^ 32
      → has_passed (answers first timer_cl0) us (answers n timer_cl0)
        ≡ not (ltb (time n) (time first + us))
  unfolding has_passed
  passed_lem first us n onward near small = ground (arith, clock.shown first, clock.shown n)

  -- The reads up to the first that is late enough are near the first one.
  near :
      (s us k : ℕ)
      → us + step < 2 ^ 32
      → ((j : ℕ) → j < k → time (s + 1 + j) < time s + us)
      → time (s + 1 + k) < time s + 2 ^ 32
  near s us zero h early =
      let e : s + 1 + 0 ≡ s + 1 = omega arith in rw e (omega (arith, clock.slow s))
  near s us (suc k) h early =
      let e : s + 1 + suc k ≡ s + 1 + k + 1 = omega arith in
      rw e (omega (arith, clock.slow (s + 1 + k), early k))

  after_start : (s j : ℕ) → time s ≤ time (s + 1 + j)
  after_start s j = omega (arith, clock.onward s, onward_by (s + 1) j)

  module _ (us : ℕ) (w : World) (small : us + step < 2 ^ 32) where
    test : ℕ → Bool
    test = has_passed (answers w.reads timer_cl0) us

    test-time :
        (k : ℕ)
        → ((j : ℕ) → j < k → time (w.reads + 1 + j) < time w.reads + us)
        → test (answers (w.reads + 1 + k) timer_cl0)
          ≡ not (ltb (time (w.reads + 1 + k)) (time w.reads + us))
    unfolding test
    test-time k early =
        passed_lem w.reads us (w.reads + 1 + k) (after_start w.reads k)
          (near w.reads us k small early) (omega arith)

    early_before :
        (n : ℕ)
        → ((j : ℕ) → j < n → test (answers (w.reads + 1 + j) timer_cl0) ≡ false)
        → (j : ℕ) → j < n
        → time (w.reads + 1 + j) < time w.reads + us
    early_before zero fails j h = absurd (omega arith)
    early_before (suc n) fails j h =
        let before = early_before n (λ i b. fails i (omega arith)) in
        elim (last_or_before j n h) [
          | inl e ↦
              let f = fails n (omega arith) in let g = test-time n before in rw e (ground arith)
          | inr b ↦ before j b
        ]
      where
        last_or_before : (j n : ℕ) → j < suc n → (j ≡ n) ⊎ (j < n)
        last_or_before j n h = omega arith

    IsWait-IsSlept :
        (k : ℕ) (w' : World)
        → IsWait answers timer_cl0 test (after_read timer_cl0 w) k w'
        → IsSlept time us w k w'
    IsWait-IsSlept k w' i =
        let early = early_before k i.before in
        record {
          reads = i.reads;
          log = i.log;
          late = ground (arith, test-time k early, i.passed);
          early = early;
        }

    poll-IsSlept :
        (fuel m : ℕ)
        → time w.reads + us ≤ time (w.reads + 1 + m)
        → m < fuel
        → (k : ℕ) × (w' : World) × (poll_until answers timer_cl0 test fuel (after_read timer_cl0 w)
            ≡ some w')
          × IsSlept time us w k w'
    poll-IsSlept fuel m late h =
        elim (search_late (λ j. time (w.reads + 1 + j)) (time w.reads + us) m) [
          | inr none ↦ absurd (omega (arith, none m (omega arith)))
          | inl (n, (le, at_last, early)) ↦
              let passes : test (answers (w.reads + 1 + n) timer_cl0) ≡ true =
                ground (arith, test-time n early) in
              let (k, w', done, i) =
                poll_until-IsWait answers timer_cl0 test n fuel (after_read timer_cl0 w) passes
                  (omega arith) in
              (k, w', done, IsWait-IsSlept k w' i)
        ]

  -- On a clock of microseconds, `sleep` returns 0 at the first read that comes the time asked for, or more,
  -- after its first read, where that time is so far below 2^32 that no read steps over it, and a read
  -- within the fuel is late enough.
  pub sleep-IsSlept :
      (ms fuel m : ℕ) (w : World)
      → ms * 1000 + step < 2 ^ 32
      → time w.reads + ms * 1000 ≤ time (w.reads + 1 + m)
      → m < fuel
      → (k : ℕ) × (w' : World) × (sleep answers fuel (pos ms) w ≡ some (w', pos 0))
        × IsSlept time (ms * 1000) w k w'
  unfolding sleep mmio_read test
  sleep-IsSlept ms fuel m w small late h =
      let us : u32 (ms * 1000) ≡ ms * 1000 = omega arith in
      let (k, w', done, i) = poll-IsSlept (ms * 1000) w small fuel m late h in
      (k, w', rw (us, done) refl, i)
