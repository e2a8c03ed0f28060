-- ===== src/Task.antt =====
-- The first half of kernel/task.c: the table of 256 tasks, their saved registers, and the choice of the
-- next task. Arrays are functions of the index. The code reaches an entry by an `unsigned char` or by
-- `task_global.tid`, which only those functions write.
pub mod GetId
pub mod Create
pub mod Schedule
pub mod Delete
pub mod Turns
pub mod Start
pub mod Fill
pub mod RoundRobin
use epos_arm.Base.{
  ℕ, zero, suc, ◌+◌, ◌*◌, ◌%◌, ◌^◌, Bool, true, false, not, ◌&&◌, ltb, ◌==◌, if◌then◌else◌,
}
use epos_arm.Base.Word.{u32}
use epos_arm.PageTable.{update}

pub data Status : Type 0 where
  status_null : Status
  ready : Status
  run : Status
  wait : Status
  suspend : Status
  dead : Status

-- `status == 0`
unfoldable pub is_null : Status → Bool
is_null status_null = true
is_null ready = false
is_null run = false
is_null wait = false
is_null suspend = false
is_null dead = false

-- `status == DEAD`
unfoldable pub is_dead : Status → Bool
is_dead status_null = false
is_dead ready = false
is_dead run = false
is_dead wait = false
is_dead suspend = false
is_dead dead = true

pub record TaskInfo : Type 0 where
  pub rank : ℕ
  pub status : Status
  pub task_func : ℕ
  pub trid : ℕ

pub record Context : Type 0 where
  pub r0 : ℕ
  pub r1 : ℕ
  pub r2 : ℕ
  pub r3 : ℕ
  pub r4 : ℕ
  pub r5 : ℕ
  pub r6 : ℕ
  pub r7 : ℕ
  pub r8 : ℕ
  pub r9 : ℕ
  pub r10 : ℕ
  pub r11 : ℕ
  pub r12 : ℕ
  pub sp : ℕ
  pub lr : ℕ
  pub pc : ℕ
  pub cpsr : ℕ
  pub spsr : ℕ

-- `struct tcb1`
pub record Global : Type 0 where
  pub kstack : ℕ
  pub tid : ℕ
  pub schedule_lock : Bool

pub record Tasks : Type 0 where
  pub task_info : ℕ → TaskInfo
  pub task_table : ℕ → Context
  pub task_global : Global

-- The addresses of the functions and arrays that the code names.
pub record Symbols : Type 0 where
  pub task_idle : ℕ
  pub task_delete : ℕ
  pub task_table : ℕ
  pub task_stack : ℕ

abbrev pub max_rank : ℕ
max_rank = 3

-- The cast to `unsigned char`.
abbrev pub u8 : ℕ → ℕ
u8 n = n % 2 ^ 8

-- `(unsigned int) &task_table[tid]`; a `struct context` has 72 bytes.
abbrev pub table_entry : Symbols → ℕ → ℕ
table_entry y tid = u32 (y.task_table + tid * 72)

unfoldable pub is_free : TaskInfo → Bool
is_free t = t.rank == 0 && is_null t.status && t.task_func == 0 && t.trid == 256

-- The loop at `id`, with `left` rounds to go.
pub get_id_loop : (ℕ → TaskInfo) → (id left : ℕ) → ℕ
get_id_loop info id zero = 0
get_id_loop info id (suc left) =
    let rest = get_id_loop info (id + 1) left in if is_free (info id) then id else rest

pub task_get_id : Tasks → ℕ
unfolding get_id_loop
task_get_id s = get_id_loop s.task_info 0 256

-- The registers that a new task starts with.
abbrev pub start_context : Symbols → (tid task_func : ℕ) → Context
start_context y tid task_func = record {
  r0 = 0;
  r1 = 0;
  r2 = 0;
  r3 = 0;
  r4 = 0;
  r5 = 0;
  r6 = 0;
  r7 = 0;
  r8 = 0;
  r9 = 0;
  r10 = 0;
  r11 = 0;
  r12 = 0;
  sp = u32 (y.task_stack + tid * 1024 + 1024);
  lr = y.task_delete;
  pc = task_func;
  cpsr = 0x53;
  spsr = 0x53;
}

-- The new state and the value returned. `junk` is what the variable `task_info_this` holds in the field
-- TRID, which the function does not set.
unfoldable pub task_create : Symbols → (junk : ℕ) → Tasks → (rank task_func : ℕ) → Tasks × ℕ
unfolding update
task_create y junk s rank task_func =
    let tid = task_get_id s in
    let this : TaskInfo = record {
      rank = rank;
      status = dead;
      task_func = task_func;
      trid = junk;
    } in
    if ltb (max_rank + 1) rank then (s, 0) else (
      record s {
        task_info = update s.task_info tid this;
        task_table = update s.task_table tid (start_context y tid task_func);
      },
      tid,
    )

-- The new state and the value returned.
unfoldable pub task_run : Tasks → (tid : ℕ) → Tasks × ℕ
unfolding update
task_run s tid = if not (is_dead (s.task_info tid).status) then (s, 0) else (
  record s {
    task_info = update s.task_info tid (record (s.task_info tid) { trid = tid; status = ready });
  },
  u8 tid,
)

-- The loop of `task_schedule` from round `i`, with `left` rounds to go.
pub schedule_loop : (ℕ → TaskInfo) → (current i left : ℕ) → ℕ
schedule_loop info current i zero = current
schedule_loop info current i (suc left) =
    let rest = schedule_loop info current (i + 1) left in
    let next = (info ((current + i + 1) % 256)).trid in if not (17 == next) then u8 next else rest

unfoldable pub task_schedule : Symbols → Tasks → Tasks
unfolding schedule_loop
task_schedule y s =
    let current = u8 (s.task_info s.task_global.tid).trid in
    let next = schedule_loop s.task_info current 0 17 in
    record s { task_global = record s.task_global { tid = next; kstack = table_entry y next } }

unfoldable pub task_delete : Tasks → Tasks
unfolding update
task_delete s =
    let tid = u8 s.task_global.tid in
    record s {
      task_info =
          update s.task_info tid
            (record { rank = 0; status = status_null; task_func = 0; trid = 0 });
      task_table = update s.task_table tid (record (s.task_table tid) {
        r0 = 0;
        r1 = 0;
        r2 = 0;
        r3 = 0;
        r4 = 0;
        r5 = 0;
        r6 = 0;
        r7 = 0;
        r8 = 0;
        r9 = 0;
        r10 = 0;
        r11 = 0;
        r12 = 0;
        sp = 0;
        lr = 0;
        pc = 0;
        spsr = 0;
      });
    }

pub task_lock_schedule : Tasks → Tasks
task_lock_schedule s = record s { task_global = record s.task_global { schedule_lock = true } }

pub task_unlock_schedule : Tasks → Tasks
task_unlock_schedule s = record s { task_global = record s.task_global { schedule_lock = false } }

-- The loop of `task_init` at `i`, with `left` rounds to go.
pub init_loop : (ℕ → TaskInfo) → (i left : ℕ) → ℕ → TaskInfo
unfolding update
init_loop info i zero = info
init_loop info i (suc left) =
    init_loop (update info i (record { rank = 0; status = status_null; task_func = 0; trid = 256 }))
      (i + 1) left

-- What `task_init` does after its loop.
unfoldable pub start_idle : Symbols → (junk : ℕ) → Tasks → Tasks
start_idle y junk s =
    let created = task_create y junk s max_rank y.task_idle in
    let running = (task_run created.0 created.1).0 in
    record running {
      task_global = record {
        schedule_lock = false;
        tid = created.1;
        kstack = table_entry y created.1;
      };
    }

unfoldable pub task_init : Symbols → (junk : ℕ) → Tasks → Tasks
unfolding init_loop
task_init y junk s = start_idle y junk (record s { task_info = init_loop s.task_info 0 256 })
