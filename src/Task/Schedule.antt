-- ===== src/Task/Schedule.antt =====
-- The order in which `task_schedule` of kernel/task.c picks the tasks.
use epos_arm.Base.{
  ℕ, zero, suc, ◌+◌, ◌%◌, ◌≤◌, ◌<◌, ◌≡◌, ◌≢◌, refl, ap, ◌∙◌, ◌⊎◌, inl, inr, false, arith, ◌==◌,
  if◌then◌else◌,
}
use epos_arm.Task.{TaskInfo, Tasks, Symbols, u8, schedule_loop, task_schedule}

-- The tasks are the first `n` entries of the table, at most 17, and one of them is the current one.
pub record IsRunning (n : ℕ) (s : Tasks) : Type 0 where
  pub few : n ≤ 17
  pub current : s.task_global.tid < n
  pub listed : (i : ℕ) → i < n → (s.task_info i).trid ≡ i
  pub end : (s.task_info n).trid ≡ 256

-- `k` calls of `task_schedule`.
unfoldable pub schedules : Symbols → ℕ → Tasks → Tasks
schedules y zero s = s
schedules y (suc k) s = task_schedule y (schedules y k s)

-- `task_schedule` changes the current task alone.
pub task_schedule-task_info :
    (y : Symbols) (s : Tasks) → (task_schedule y s).task_info ≡ s.task_info
unfolding task_schedule
task_schedule-task_info y s = refl

pub schedule_first :
    (y : Symbols) (s : Tasks) (t next : ℕ)
    → (s.task_info s.task_global.tid).trid ≡ t
    → t < 256
    → (s.task_info ((t + 1) % 256)).trid ≡ next
    → next ≢ 17
    → (task_schedule y s).task_global.tid ≡ u8 next
unfolding task_schedule schedule_loop
schedule_first y s t next a small b ne =
    let byte : t % 256 ≡ t = omega arith in
    let here : (17 == next) ≡ false = ground arith in rw (a, byte) (ground (arith, b))

-- One call: the next task, and task 0 behind the last.
pub task_schedule_next :
    (y : Symbols) (n : ℕ) (s : Tasks)
    → IsRunning n s
    → (task_schedule y s).task_global.tid
      ≡ (if s.task_global.tid + 1 == n then 0 else s.task_global.tid + 1)
task_schedule_next y n s r = elim (last_or_not s.task_global.tid n r.current) [
  | inl last ↦
      schedule_first y s s.task_global.tid 256 (r.listed _ r.current)
        (omega (arith, r.few, r.current))
        (ap (λ (i : ℕ). (s.task_info i).trid) (omega (arith, r.few)) ∙ r.end) (omega arith)
      ∙ ground arith
  | inr more ↦
      schedule_first y s s.task_global.tid (s.task_global.tid + 1) (r.listed _ r.current)
        (omega (arith, r.few, r.current))
        (ap (λ (i : ℕ). (s.task_info i).trid) (omega (arith, r.few)) ∙ r.listed _ more)
        (omega (arith, r.few))
      ∙ ground (arith, r.few)
]
  where
    last_or_not : (t n : ℕ) → t < n → (t + 1 ≡ n) ⊎ (t + 1 < n)
    last_or_not t n h = omega arith

never_loop :
    (info : ℕ → TaskInfo) (current i left : ℕ)
    → ((j : ℕ) → (info j).trid ≤ 256)
    → current ≢ 17
    → schedule_loop info current i left ≢ 17
unfolding schedule_loop
never_loop info current i zero small other = other
never_loop info current i (suc left) small other =
    ground
      (arith, never_loop info current (i + 1) left small other, small ((current + i + 1) % 256))

-- Task 17 is never picked while another task runs.
task_schedule_never :
    (y : Symbols) (s : Tasks)
    → ((i : ℕ) → (s.task_info i).trid ≤ 256)
    → (s.task_info s.task_global.tid).trid ≢ 17
    → (task_schedule y s).task_global.tid ≢ 17
unfolding task_schedule
task_schedule_never y s small other =
    never_loop s.task_info (u8 (s.task_info s.task_global.tid).trid) 0 17 small
      (let t = small s.task_global.tid in omega arith)
