-- ===== src/Task/Create.antt =====
-- What `task_create`, `task_run` and `task_init` of kernel/task.c leave in the tables.
use epos_arm.Base.{ℕ, ◌+◌, ◌≤◌, ◌<◌, ◌≡◌, ◌≢◌, refl, true, false, arith, ltb, ◌==◌}
use mathlib.Core.Path.{subst}
use epos_arm.PageTable.{update}
use epos_arm.Task.{
  ready, is_dead, Tasks, Symbols, max_rank, task_get_id, start_context, task_create, task_run,
}
use epos_arm.Task.GetId.{IsFirstFree, NoneFree, IsFirstFree-task_get_id, task_get_id-NoneFree}

-- The task at `id` is ready to run `task_func`, and the other entries are as in `s`.
pub record Started (y : Symbols) (s : Tasks) (rank task_func id : ℕ) (s' : Tasks) : Type 0 where
  pub info :
      s'.task_info id ≡ record { rank = rank; status = ready; task_func = task_func; trid = id }
  pub context : s'.task_table id ≡ start_context y id task_func
  pub other_info : (i : ℕ) → i ≢ id → s'.task_info i ≡ s.task_info i
  pub other_context : (i : ℕ) → i ≢ id → s'.task_table i ≡ s.task_table i
  pub global : s'.task_global ≡ s.task_global

create_run_at :
    (y : Symbols) (junk : ℕ) (s : Tasks) (rank task_func : ℕ)
    → rank ≤ max_rank + 1
    → task_get_id s < 256
    → let created = task_create y junk s rank task_func in
      let running = task_run created.0 created.1 in
      (created.1 ≡ task_get_id s)
      × (running.1 ≡ task_get_id s)
      × Started y s rank task_func (task_get_id s) running.0
unfolding task_create task_run update is_dead
create_run_at y junk s rank task_func small byte =
    let valid : ltb (max_rank + 1) rank ≡ false = ground arith in
    let here : (task_get_id s == task_get_id s) ≡ true = ground arith in
    rw (valid, here)
      (
        refl,
        omega arith,
        record {
          info = rw here refl;
          context = rw here refl;
          other_info = λ i ne. ground arith;
          other_context = λ i ne. ground arith;
          global = refl;
        },
      )

-- `task_create` and then `task_run`, with a rank that the first accepts and a free entry in the table:
-- both return the first free entry, which then holds a task that is ready to run the function with
-- the top of its own stack, and no other entry changes.
pub task_run-task_create :
    (y : Symbols) (junk : ℕ) (s : Tasks) (rank task_func id : ℕ)
    → rank ≤ max_rank + 1
    → IsFirstFree s.task_info 0 256 id
    → let created = task_create y junk s rank task_func in
      let running = task_run created.0 created.1 in
      (created.1 ≡ id) × (running.1 ≡ id) × Started y s rank task_func id running.0
task_run-task_create y junk s rank task_func id small first =
    let e = IsFirstFree-task_get_id s id first in
    subst
      (λ (t : ℕ).
        let created = task_create y junk s rank task_func in
        let running = task_run created.0 created.1 in
        (created.1 ≡ t) × (running.1 ≡ t) × Started y s rank task_func t running.0)
      e (create_run_at y junk s rank task_func small (rw e first.stop))

-- With no free entry in the table `task_create` still returns 0 for an accepted rank, and writes the new
-- task over the one that is there.
task_create_full :
    (y : Symbols) (junk : ℕ) (s : Tasks) (rank task_func : ℕ)
    → rank ≤ max_rank + 1
    → NoneFree s.task_info 0 256
    → let created = task_create y junk s rank task_func in
      (created.1 ≡ 0)
      × ((created.0.task_info 0).task_func ≡ task_func)
      × (created.0.task_table 0 ≡ start_context y 0 task_func)
unfolding task_create update
task_create_full y junk s rank task_func small full =
    let valid : ltb (max_rank + 1) rank ≡ false = ground arith in
    rw (task_get_id-NoneFree s full, valid) (refl, refl, refl)
