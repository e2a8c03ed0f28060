-- ===== src/Task/Delete.antt =====
-- What becomes of the tasks behind one that `task_delete` of kernel/task.c has taken out.
use epos_arm.Base.{
  ℕ, zero, suc, ◌+◌, ◌<◌, ◌≡◌, refl, ap, ◌∙◌, ◌⊎◌, inl, inr, false, arith, ◌==◌, if◌then◌else◌,
}
use epos_arm.PageTable.{update}
use epos_arm.Task.{Tasks, Symbols, u8, is_free, is_null, task_schedule, task_delete}
use epos_arm.Task.Schedule.{IsRunning, schedules, schedule_first}

-- `task_delete` frees no entry of the table: `task_get_id` never finds the entry of a task that was deleted.
task_delete-is_free :
    (s : Tasks) (i : ℕ)
    → is_free ((task_delete s).task_info i)
      ≡ (if i == u8 s.task_global.tid then false else is_free (s.task_info i))
unfolding task_delete update is_free is_null
task_delete-is_free s i = ground arith

-- Each entry before `t` names its own task, and the one at `t` names task 0.
record IsCut (t : ℕ) (s : Tasks) : Type 0 where
  pub some : 0 < t
  pub few : t < 17
  pub current : s.task_global.tid < t
  pub listed : (i : ℕ) → i < t → (s.task_info i).trid ≡ i
  pub cut : (s.task_info t).trid ≡ 0

last_or_not : (a b : ℕ) → a < b → (a + 1 ≡ b) ⊎ (a + 1 < b)
last_or_not a b h = omega arith

task_schedule-IsCut : (y : Symbols) (t : ℕ) (s : Tasks) → IsCut t s → IsCut t (task_schedule y s)
unfolding task_schedule
task_schedule-IsCut y t s c = record {
  some = c.some;
  few = c.few;
  current = elim (last_or_not s.task_global.tid t c.current) [
    | inl last ↦
        let e =
          schedule_first y s s.task_global.tid 0 (c.listed _ c.current)
            (omega (arith, c.few, c.current))
            (ap (λ (i : ℕ). (s.task_info i).trid) (omega (arith, c.few)) ∙ c.cut) (omega arith) in
        omega (arith, c.some)
    | inr more ↦
        let e =
          schedule_first y s s.task_global.tid (s.task_global.tid + 1) (c.listed _ c.current)
            (omega (arith, c.few, c.current))
            (ap (λ (i : ℕ). (s.task_info i).trid) (omega (arith, c.few)) ∙ c.listed _ more)
            (omega (arith, c.few)) in
        omega (arith, c.few)
  ];
  listed = c.listed;
  cut = c.cut;
}

-- Its own entry is cleared, the others are as before.
delete_entry :
    (s : Tasks) (i : ℕ)
    → s.task_global.tid < 256
    → ((task_delete s).task_info i).trid
      ≡ (if i == s.task_global.tid then 0 else (s.task_info i).trid)
unfolding task_delete update
delete_entry s i h = ground arith

delete_current : (s : Tasks) → (task_delete s).task_global.tid ≡ s.task_global.tid
unfolding task_delete
delete_current s = refl

delete_first :
    (y : Symbols) (n : ℕ) (s : Tasks)
    → IsRunning n s
    → 0 < s.task_global.tid
    → (task_schedule y (task_delete s)).task_global.tid < s.task_global.tid
delete_first y n s r some =
    let t = s.task_global.tid in
    let here = delete_entry s t (omega (arith, r.few, r.current)) in
    let cleared : ((task_delete s).task_info (task_delete s).task_global.tid).trid ≡ 0 =
      rw (delete_current s) (ground arith) in
    let one = delete_entry s 1 (omega (arith, r.few, r.current)) in
    elim (last_or_not 0 t some) [
      | inl e ↦
          let f =
            schedule_first y (task_delete s) 0 0 cleared (omega arith) (ground arith)
              (omega arith) in
          omega arith
      | inr m ↦
          let f =
            schedule_first y (task_delete s) 0 1 cleared (omega arith)
              (ground (arith, r.listed 1, r.current)) (omega arith) in
          omega arith
    ]

delete-IsCut :
    (y : Symbols) (n : ℕ) (s : Tasks)
    → IsRunning n s
    → 0 < s.task_global.tid
    → IsCut s.task_global.tid (task_schedule y (task_delete s))
unfolding task_schedule
delete-IsCut y n s r some = record {
  some = some;
  few = omega (arith, r.few, r.current);
  current = delete_first y n s r some;
  listed = λ i h. ground (arith, delete_entry s i, r.listed i, r.few, r.current);
  cut = ground (arith, delete_entry s s.task_global.tid, r.few, r.current);
}

-- Where the tasks are the first `n` of the table and one that is not task 0 is deleted, no call of
-- `task_schedule` after that picks its entry or one behind it.
pub task_delete_starves :
    (y : Symbols) (n k : ℕ) (s : Tasks)
    → IsRunning n s
    → 0 < s.task_global.tid
    → (schedules y (suc k) (task_delete s)).task_global.tid < s.task_global.tid
unfolding schedules
task_delete_starves y n k s r some = (cut k).current
  where
    cut : (k : ℕ) → IsCut s.task_global.tid (schedules y (suc k) (task_delete s))
    cut zero = delete-IsCut y n s r some
    cut (suc k) =
        task_schedule-IsCut y s.task_global.tid (schedules y (suc k) (task_delete s)) (cut k)
