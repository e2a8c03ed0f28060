-- ===== src/Task/Turns.antt =====
-- That `task_schedule` of kernel/task.c comes round to every task.
use epos_arm.Base.{ℕ, zero, suc, ◌+◌, ◌-◌, ◌≤◌, ◌<◌, ◌≡◌, ap, ◌∙◌, sym, ◌⊎◌, inl, inr, arith}
use epos_arm.Task.{Tasks, Symbols, task_schedule}
use epos_arm.Task.Schedule.{IsRunning, schedules, task_schedule_next}

module _ (y : Symbols) (n : ℕ) where
  task_schedule-IsRunning : (s : Tasks) → IsRunning n s → IsRunning n (task_schedule y s)
  unfolding task_schedule
  task_schedule-IsRunning s r =
      let next = task_schedule_next y n s r in
      let current = r.current in
      record { few = r.few; current = ground arith; listed = r.listed; end = r.end }

  schedules-IsRunning : (k : ℕ) (s : Tasks) → IsRunning n s → IsRunning n (schedules y k s)
  unfolding schedules
  schedules-IsRunning zero s r = r
  schedules-IsRunning (suc k) s r =
      task_schedule-IsRunning (schedules y k s) (schedules-IsRunning k s r)

  walk :
      (k : ℕ) (s : Tasks)
      → IsRunning n s
      → s.task_global.tid + k < n
      → (schedules y k s).task_global.tid ≡ s.task_global.tid + k
  unfolding schedules
  walk zero s r h = omega arith
  walk (suc k) s r h =
      let before = walk k s r (omega arith) in
      let next = task_schedule_next y n (schedules y k s) (schedules-IsRunning k s r) in
      ground arith

  schedules-schedules :
      (j k : ℕ) (s : Tasks) → schedules y j (schedules y k s) ≡ schedules y (j + k) s
  unfolding schedules
  schedules-schedules zero k s = ap (λ (m : ℕ). schedules y m s) (omega arith)
  schedules-schedules (suc j) k s =
      let e : suc (j + k) ≡ suc j + k = omega arith in
      ap (task_schedule y) (schedules-schedules j k s) ∙ ap (λ (m : ℕ). schedules y m s) e

  -- The call after the last task has its turn.
  first_again :
      (s : Tasks) (k : ℕ)
      → IsRunning n s
      → s.task_global.tid + k + 1 ≡ n
      → (schedules y (suc k) s).task_global.tid ≡ 0
  unfolding schedules
  first_again s k r e =
      let last = walk k s r (omega arith) in
      let next = task_schedule_next y n (schedules y k s) (schedules-IsRunning k s r) in
      ground arith

  -- Where the tasks are the first of the table and there are at most 17, fewer than twice their number of calls
  -- of `task_schedule` lead from any current task to any task.
  pub task_schedule-turns :
      (s : Tasks) (j : ℕ)
      → IsRunning n s
      → j < n
      → (k : ℕ) × (k < n + n) × ((schedules y k s).task_global.tid ≡ j)
  task_schedule-turns s j r h = elim (before_or_after s.task_global.tid j) [
    | inl le ↦ (
      j - s.task_global.tid,
      omega arith,
      walk (j - s.task_global.tid) s r (omega arith) ∙ omega arith,
    )
    | inr gt ↦
        let k = n - 1 - s.task_global.tid in
        let first = first_again s k r (omega (arith, r.current)) in
        (
          j + suc k,
          omega (arith, r.current),
          ap (λ (m : Tasks). m.task_global.tid) (sym (schedules-schedules j (suc k) s))
              ∙ walk j (schedules y (suc k) s) (schedules-IsRunning (suc k) s r) (omega arith)
              ∙ omega arith,
        )
  ]
    where
      before_or_after : (a b : ℕ) → (a ≤ b) ⊎ (b < a)
      before_or_after a b = omega arith
