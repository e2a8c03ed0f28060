-- ===== src/Task/Fill.antt =====
-- The tables of kernel/task.c while they fill up from the first entry on.
use epos_arm.Base.{
  ℕ, ◌+◌, ◌≤◌, ◌<◌, ◌≡◌, refl, ap, ◌∙◌, ◌⊎◌, inl, inr, false, arith, Bool-cases, ◌==◌,
}
use epos_arm.Task.{
  Global, ready, TaskInfo, Tasks, Symbols, max_rank, is_free, is_null, task_create, task_run,
}
use epos_arm.Task.GetId.{IsFirstFree}
use epos_arm.Task.Create.{Started, task_run-task_create}
use epos_arm.Task.Schedule.{IsRunning}
use epos_arm.Task.Start.{empty_info, IsIdle}

-- The first `n` entries hold tasks that are ready, one of them the current one, and the others are empty.
pub record IsFilled (n : ℕ) (s : Tasks) : Type 0 where
  pub current : s.task_global.tid < n
  pub listed : (i : ℕ) → i < n → (s.task_info i).trid ≡ i
  pub ready : (i : ℕ) → i < n → (s.task_info i).status ≡ ready
  pub empty : (i : ℕ) → n ≤ i → i < 256 → s.task_info i ≡ empty_info

is_free-ready : (t : TaskInfo) → t.status ≡ ready → is_free t ≡ false
unfolding is_free is_null
is_free-ready t h = elim (Bool-cases (t.rank == 0)) [
  | inl e ↦ rw (h, e) refl
  | inr e ↦ rw (h, e) refl
]

first_empty : (n : ℕ) (s : Tasks) → n < 256 → IsFilled n s → IsFirstFree s.task_info 0 256 n
unfolding is_free is_null
first_empty n s h f = record {
  start = omega arith;
  stop = h;
  free = ap is_free (f.empty n (omega arith) h);
  first = λ j a b. is_free-ready (s.task_info j) (f.ready j b);
}

before_or_last : (n i : ℕ) → i < n + 1 → (i < n) ⊎ (i ≡ n)
before_or_last n i h = omega arith

-- One task more, created and run.
pub Started-IsFilled :
    (y : Symbols) (n : ℕ) (s s' : Tasks) (rank task_func : ℕ)
    → IsFilled n s
    → Started y s rank task_func n s'
    → IsFilled (n + 1) s'
Started-IsFilled y n s s' rank task_func f t = record {
  current = omega (arith, f.current, ap (λ (g : Global). g.tid) t.global);
  listed = λ i h. elim (before_or_last n i h) [
    | inl b ↦ ap (λ (e : TaskInfo). e.trid) (t.other_info i (omega arith)) ∙ f.listed i b
    | inr e ↦ rw e (ap (λ (e : TaskInfo). e.trid) t.info)
  ];
  ready = λ i h. elim (before_or_last n i h) [
    | inl b ↦ ap (λ (e : TaskInfo). e.status) (t.other_info i (omega arith)) ∙ f.ready i b
    | inr e ↦ rw e (ap (λ (e : TaskInfo). e.status) t.info)
  ];
  empty = λ i a b. t.other_info i (omega arith) ∙ f.empty i (omega arith) b;
}

pub fill_one :
    (y : Symbols) (junk n : ℕ) (s : Tasks) (rank task_func : ℕ)
    → rank ≤ max_rank + 1
    → n < 256
    → IsFilled n s
    → let created = task_create y junk s rank task_func in
      Started y s rank task_func n (task_run created.0 created.1).0
fill_one y junk n s rank task_func small h f =
    let (e, e', started) =
      task_run-task_create y junk s rank task_func n small (first_empty n s h f) in
    started

-- The state that `task_init` leaves.
pub IsIdle-IsFilled : (y : Symbols) (s : Tasks) → IsIdle y s → IsFilled 1 s
IsIdle-IsFilled y s i = record {
  current = i.running.current;
  listed = i.running.listed;
  ready = λ j h. let z : j ≡ 0 = omega arith in rw z (ap (λ (e : TaskInfo). e.status) i.idle);
  empty = λ j a b. i.free j (omega arith) b;
}

-- Tables with at most 17 tasks.
pub IsFilled-IsRunning : (n : ℕ) (s : Tasks) → n ≤ 17 → IsFilled n s → IsRunning n s
IsFilled-IsRunning n s few f = record {
  few = few;
  current = f.current;
  listed = f.listed;
  end = ap (λ (e : TaskInfo). e.trid) (f.empty n (omega arith) (omega arith));
}
