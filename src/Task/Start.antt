-- ===== src/Task/Start.antt =====
-- The state that `task_init` of kernel/task.c leaves.
use epos_arm.Base.{ℕ, zero, suc, ◌+◌, ◌≤◌, ◌<◌, ◌≡◌, refl, ap, ◌∙◌, ◌⊎◌, inl, inr, false, arith}
use epos_arm.PageTable.{update}
use epos_arm.Task.{
  status_null, ready, TaskInfo, Tasks, Symbols, max_rank, is_free, is_null, start_context,
  init_loop, start_idle, task_init,
}
use epos_arm.Task.GetId.{IsFirstFree}
use epos_arm.Task.Create.{task_run-task_create}
use epos_arm.Task.Schedule.{IsRunning}

abbrev pub empty_info : TaskInfo
empty_info = record { rank = 0; status = status_null; task_func = 0; trid = 256 }

init_loop-before : (info : ℕ → TaskInfo) (i left j : ℕ) → j < i → init_loop info i left j ≡ info j
unfolding init_loop update
init_loop-before info i zero j h = refl
init_loop-before info i (suc left) j h =
    init_loop-before (update info i empty_info) (i + 1) left j (omega arith) ∙ ground arith

init_loop_lem :
    (info : ℕ → TaskInfo) (i left j : ℕ)
    → i ≤ j
    → j < i + left
    → init_loop info i left j ≡ empty_info
unfolding init_loop update
init_loop_lem info i zero j a b = absurd (omega arith)
init_loop_lem info i (suc left) j a b = elim (here_or_after i j a) [
  | inl e ↦ init_loop-before (update info i empty_info) (i + 1) left j (omega arith) ∙ ground arith
  | inr h ↦ init_loop_lem (update info i empty_info) (i + 1) left j h (omega arith)
]
  where
    here_or_after : (i j : ℕ) → i ≤ j → (j ≡ i) ⊎ (i + 1 ≤ j)
    here_or_after i j h = omega arith

-- The idle task at entry 0 is ready and current, and all other entries are free.
pub record IsIdle (y : Symbols) (s : Tasks) : Type 0 where
  pub running : IsRunning 1 s
  pub idle :
      s.task_info 0 ≡ record { rank = max_rank; status = ready; task_func = y.task_idle; trid = 0 }
  pub context : s.task_table 0 ≡ start_context y 0 y.task_idle
  pub unlocked : s.task_global.schedule_lock ≡ false
  pub free : (i : ℕ) → 0 < i → i < 256 → s.task_info i ≡ empty_info

start_idle-IsIdle :
    (y : Symbols) (junk : ℕ) (s : Tasks)
    → ((i : ℕ) → i < 256 → s.task_info i ≡ empty_info)
    → IsIdle y (start_idle y junk s)
unfolding start_idle is_free is_null
start_idle-IsIdle y junk s empty =
    let first : IsFirstFree s.task_info 0 256 0 = record {
      start = omega arith;
      stop = omega arith;
      free = ap is_free (empty 0 (omega arith));
      first = λ j a b. absurd (omega arith);
    } in
    let (e, e', started) =
      task_run-task_create y junk s max_rank y.task_idle 0 (omega arith) first in
    record {
      running = record {
        few = omega arith;
        current = omega (arith, e);
        listed =
            λ i h. let z : i ≡ 0 = omega arith in rw z (ap (λ (t : TaskInfo). t.trid) started.info);
        end =
            ap (λ (t : TaskInfo). t.trid)
              (started.other_info 1 (omega arith) ∙ empty 1 (omega arith));
      };
      idle = started.info;
      context = started.context;
      unlocked = refl;
      free = λ i p h. started.other_info i (omega arith) ∙ empty i h;
    }

-- `task_init` leaves the idle task at entry 0, ready and current, and all other entries free.
pub task_init-IsIdle : (y : Symbols) (junk : ℕ) (s : Tasks) → IsIdle y (task_init y junk s)
unfolding task_init
task_init-IsIdle y junk s =
    start_idle-IsIdle y junk (record s { task_info = init_loop s.task_info 0 256 })
      (λ i h. init_loop_lem s.task_info 0 256 i (omega arith) (omega arith))
