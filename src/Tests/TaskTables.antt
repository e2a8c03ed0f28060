-- ===== src/Tests/TaskTables.antt =====
-- The tables of kernel/task.c after `task_init`, with two tasks more and with 17 in a row.
use epos_arm.Base.{ℕ, List, [], ◌∷◌, ◌≤◌, ◌<◌, ◌≡◌, refl, false, arith, if◌then◌else◌, ltb}
use epos_arm.Task.{
  status_null, ready, Context, Tasks, Symbols, is_free, is_null, start_context, task_delete,
  task_init,
}
use epos_arm.Task.RoundRobin.{
  Call, start, schedule, lock, calls, turn, turns, IsRobin, task_init-IsRobin,
}
use epos_arm.Task.GetId.{IsFirstFree}
use epos_arm.Task.Schedule.{IsRunning, schedules}
use epos_arm.Task.Delete.{task_delete_starves}

abbrev pub symbols : Symbols
symbols = record {
  task_idle = 0x1_0000;
  task_delete = 0x1_0100;
  task_table = 0x2_0000;
  task_stack = 0x3_0000;
}

abbrev pub no_registers : Context
no_registers = start_context symbols 0 0

-- Task `i` is the `i`-th of `n` that are ready; the current one is `tid`.
abbrev pub tables : (n tid : ℕ) → Tasks
tables n tid = record {
  task_info = λ i.
      if ltb i n
      then record { rank = 1; status = ready; task_func = 0x4_0000; trid = i }
      else record { rank = 0; status = status_null; task_func = 0; trid = 256 };
  task_table = λ i. no_registers;
  task_global = record { kstack = 0x2_0000; tid = tid; schedule_lock = false };
}

three_ready : IsRunning 3 (tables 3 1)
three_ready = record {
  few = omega arith;
  current = omega arith;
  listed = λ i h. ground arith;
  end = refl;
}

ready_busy : (n tid j : ℕ) → j < n → is_free ((tables n tid).task_info j) ≡ false
unfolding is_free is_null
ready_busy n tid j h = ground arith

third_free : IsFirstFree (tables 3 1).task_info 0 256 3
unfolding is_free is_null
third_free = record {
  start = omega arith;
  stop = omega arith;
  free = refl;
  first = λ j a b. ready_busy 3 1 j b;
}

task_delete_starves_example : (schedules symbols 5 (task_delete (tables 3 1))).task_global.tid < 1
task_delete_starves_example = task_delete_starves symbols 3 4 (tables 3 1) three_ready (omega arith)

-- Two tasks more, one refused for its rank, and three turns.
abbrev two_started : List Call
two_started =
    start 7 1 0x4_0000
    ∷ schedule
    ∷ start 7 9 0x4_0100
    ∷ lock
    ∷ start 7 2 0x4_0200
    ∷ schedule
    ∷ schedule
    ∷ []

few_started : (turns (record { tasks = 1; current = 0 }) two_started).tasks ≤ 17
unfolding turns turn
few_started = omega arith

task_init-IsRobin_example :
    IsRobin
      (turns (record { tasks = 1; current = 0 }) two_started)
      (calls symbols (task_init symbols 7 (tables 0 0)) two_started)
task_init-IsRobin_example = task_init-IsRobin symbols 7 (tables 0 0) two_started few_started

first_again :
    turns (record { tasks = 1; current = 0 }) two_started ≡ record { tasks = 3; current = 0 }
unfolding turns turn
first_again = refl
