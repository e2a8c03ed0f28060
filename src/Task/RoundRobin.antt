-- ===== src/Task/RoundRobin.antt =====
-- The tables of kernel/task.c as a round robin: how many tasks there are, and whose turn it is.
use epos_arm.Base.{
  ℕ, ◌+◌, ◌≤◌, ◌≡◌, refl, ap, ◌∙◌, inl, inr, true, false, List, [], ◌∷◌, arith, Bool-cases, leb,
  ◌==◌, if◌then◌else◌,
}
use epos_arm.Task.{
  Global, is_dead, Tasks, Symbols, max_rank, task_create, task_run, task_schedule, task_init,
  task_lock_schedule, task_unlock_schedule,
}
use epos_arm.Task.Schedule.{task_schedule_next}
use epos_arm.Task.Start.{task_init-IsIdle}
use epos_arm.Task.Fill.{IsFilled, Started-IsFilled, fill_one, IsIdle-IsFilled, IsFilled-IsRunning}

-- `start` is `task_create` and then `task_run` of the task; `junk` is what the first leaves in TRID.
pub data Call : Type 0 where
  start : (junk rank task_func : ℕ) → Call
  schedule : Call
  lock : Call
  unlock : Call

unfoldable pub call : Symbols → Tasks → Call → Tasks
unfolding task_lock_schedule task_unlock_schedule
call y s (start junk rank task_func) =
    let (s1, tid) = task_create y junk s rank task_func in (task_run s1 tid).0
call y s schedule = task_schedule y s
call y s lock = task_lock_schedule s
call y s unlock = task_unlock_schedule s

unfoldable pub calls : Symbols → Tasks → List Call → Tasks
calls y s [] = s
calls y s (c ∷ cs) = calls y (call y s c) cs

-- The number of tasks, and the one whose turn it is.
pub record Robin : Type 0 where
  pub tasks : ℕ
  pub current : ℕ

-- A task of a rank up to MAX_rank + 1 comes last in turn; `task_schedule` goes on to the next.
unfoldable pub turn : Robin → Call → Robin
turn r (start junk rank task_func) =
    if leb rank (max_rank + 1) then record r { tasks = r.tasks + 1 } else r
turn r schedule = record r { current = if r.current + 1 == r.tasks then 0 else r.current + 1 }
turn r lock = r
turn r unlock = r

unfoldable pub turns : Robin → List Call → Robin
turns r [] = r
turns r (c ∷ cs) = turns (turn r c) cs

-- The tables hold the tasks in order, all of them ready, with the current one.
pub record IsRobin (r : Robin) (s : Tasks) : Type 0 where
  pub filled : IsFilled r.tasks s
  pub current : s.task_global.tid ≡ r.current

turn-grows : (r : Robin) (c : Call) → r.tasks ≤ (turn r c).tasks
unfolding turn
turn-grows r (start junk rank task_func) = ground arith
turn-grows r schedule = omega arith
turn-grows r lock = omega arith
turn-grows r unlock = omega arith

turns-grow : (r : Robin) (cs : List Call) → r.tasks ≤ (turns r cs).tasks
unfolding turns
turns-grow r [] = omega arith
turns-grow r (c ∷ cs) = omega (arith, turn-grows r c, turns-grow (turn r c) cs)

-- A rank above MAX_rank + 1 is refused, and `task_run` of the 0 returned finds a task that is ready.
refused :
    (y : Symbols) (n junk rank task_func : ℕ) (s : Tasks)
    → IsFilled n s
    → leb rank (max_rank + 1) ≡ false
    → call y s (start junk rank task_func) ≡ s
unfolding call
refused y n junk rank task_func s f high =
    ap (λ (c : Tasks × ℕ). (task_run c.0 c.1).0) not_created ∙ ap (λ (c : Tasks × ℕ). c.0) not_run
  where
    not_created : task_create y junk s rank task_func ≡ (s, 0)
    not_created = unfold task_create in ground (arith, high)

    not_run : task_run s 0 ≡ (s, 0)
    not_run = unfold task_run is_dead in rw (f.ready 0 (omega (arith, f.current))) refl

accepted :
    (y : Symbols) (n junk rank task_func : ℕ) (s : Tasks)
    → IsFilled n s
    → n ≤ 17
    → leb rank (max_rank + 1) ≡ true
    → IsRobin
        (record { tasks = n + 1; current = s.task_global.tid })
        (call y s (start junk rank task_func))
unfolding call
accepted y n junk rank task_func s f few low =
    let started = fill_one y junk n s rank task_func (ground (arith, low)) (omega arith) f in
    record {
      filled = Started-IsFilled y n s _ rank task_func f started;
      current = ap (λ (g : Global). g.tid) started.global;
    }

start-IsRobin :
    (y : Symbols) (r : Robin) (s : Tasks) (junk rank task_func : ℕ)
    → IsRobin r s
    → r.tasks ≤ 17
    → IsRobin (turn r (start junk rank task_func)) (call y s (start junk rank task_func))
unfolding turn
start-IsRobin y r s junk rank task_func i few = elim (Bool-cases (leb rank (max_rank + 1))) [
  | inl t ↦
      let a = accepted y r.tasks junk rank task_func s i.filled few t in
      rw t (record { filled = a.filled; current = a.current ∙ i.current })
  | inr f ↦ rw (f, refused y r.tasks junk rank task_func s i.filled f) i
]

schedule-IsRobin :
    (y : Symbols) (r : Robin) (s : Tasks)
    → IsRobin r s
    → r.tasks ≤ 17
    → IsRobin (turn r schedule) (call y s schedule)
unfolding call turn task_schedule
schedule-IsRobin y r s i few =
    let next = task_schedule_next y r.tasks s (IsFilled-IsRunning r.tasks s few i.filled) in
    record {
      filled = record {
        current = ground (arith, i.filled.current);
        listed = i.filled.listed;
        ready = i.filled.ready;
        empty = i.filled.empty;
      };
      current = ground (arith, i.current);
    }

-- The lock and the saved stack are not part of the round robin.
global-IsRobin :
    (r : Robin) (s : Tasks) (g : Global)
    → IsRobin r s
    → g.tid ≡ s.task_global.tid
    → IsRobin r (record s { task_global = g })
global-IsRobin r s g i same = record {
  filled = record {
    current = omega (arith, i.filled.current);
    listed = i.filled.listed;
    ready = i.filled.ready;
    empty = i.filled.empty;
  };
  current = same ∙ i.current;
}

call-IsRobin :
    (y : Symbols) (r : Robin) (s : Tasks) (c : Call)
    → IsRobin r s
    → r.tasks ≤ 17
    → IsRobin (turn r c) (call y s c)
call-IsRobin y r s (start junk rank task_func) i few = start-IsRobin y r s junk rank task_func i few
call-IsRobin y r s schedule i few = schedule-IsRobin y r s i few
call-IsRobin y r s lock i few =
    unfold turn in unfold call in unfold task_lock_schedule in global-IsRobin r s _ i refl
call-IsRobin y r s unlock i few =
    unfold turn in unfold call in unfold task_unlock_schedule in global-IsRobin r s _ i refl

calls-IsRobin :
    (y : Symbols) (r : Robin) (s : Tasks) (cs : List Call)
    → IsRobin r s
    → (turns r cs).tasks ≤ 17
    → IsRobin (turns r cs) (calls y s cs)
unfolding turns calls
calls-IsRobin y r s [] i few = i
calls-IsRobin y r s (c ∷ cs) i few =
    calls-IsRobin y (turn r c) (call y s c) cs
      (call-IsRobin y r s c i (omega (arith, turn-grows r c, turns-grow (turn r c) cs))) few

-- After `task_init` and any sequence of starts, calls of `task_schedule` and locks that makes at most 17
-- tasks with the idle one, the tables hold those tasks in the order of their starts, all of them ready, with
-- the entries behind them empty, and the current task is the one whose turn it is.
pub task_init-IsRobin :
    (y : Symbols) (junk : ℕ) (s : Tasks) (cs : List Call)
    → let r = turns (record { tasks = 1; current = 0 }) cs in
      r.tasks ≤ 17 → IsRobin r (calls y (task_init y junk s) cs)
task_init-IsRobin y junk s cs few =
    let idle = task_init-IsIdle y junk s in
    calls-IsRobin y (record { tasks = 1; current = 0 }) (task_init y junk s) cs
      (record { filled = IsIdle-IsFilled y _ idle; current = omega (arith, idle.running.current) })
      few
