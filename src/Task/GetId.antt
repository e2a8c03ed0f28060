-- ===== src/Task/GetId.antt =====
-- Which entry `task_get_id` of kernel/task.c finds.
use epos_arm.Base.{
  ℕ, zero, suc, ◌+◌, ◌≤◌, ◌<◌, ◌≡◌, refl, ◌⊎◌, inl, inr, true, false, arith, Bool-cases,
}
use epos_arm.Task.{TaskInfo, Tasks, is_free, get_id_loop, task_get_id}

-- `id` is the first free entry from `start` on, before `stop`.
pub record IsFirstFree (info : ℕ → TaskInfo) (from to id : ℕ) : Type 0 where
  pub start : from ≤ id
  pub stop : id < to
  pub free : is_free (info id) ≡ true
  pub first : (j : ℕ) → from ≤ j → j < id → is_free (info j) ≡ false

-- No entry from `start` on is free before `stop`.
abbrev pub NoneFree : (ℕ → TaskInfo) → (start stop : ℕ) → Type 0
NoneFree info start stop = (j : ℕ) → start ≤ j → j < stop → is_free (info j) ≡ false

at_or_after : (a b : ℕ) → a ≤ b → (b ≡ a) ⊎ (a + 1 ≤ b)
at_or_after a b h = omega arith

get_id_loop-IsFirstFree :
    (info : ℕ → TaskInfo) (id left : ℕ)
    → IsFirstFree info id (id + left) (get_id_loop info id left)
      ⊎ ((get_id_loop info id left ≡ 0) × NoneFree info id (id + left))
unfolding get_id_loop
get_id_loop-IsFirstFree info id zero = inr (refl, λ j a b. absurd (omega arith))
get_id_loop-IsFirstFree info id (suc left) = elim (Bool-cases (is_free (info id))) [
  | inl t ↦ rw t (
      inl (record {
        start = omega arith;
        stop = omega arith;
        free = t;
        first = λ j a b. absurd (omega arith);
      }))
  | inr f ↦ rw f (elim (get_id_loop-IsFirstFree info (id + 1) left) [
    | inl r ↦ inl (record {
      start = omega (arith, r.start);
      stop = omega (arith, r.stop);
      free = r.free;
      first = λ j a b. elim (at_or_after id j a) [ inl e ↦ rw e f | inr h ↦ r.first j h b ];
    })
    | inr (e, none) ↦
        inr (
          e,
          λ j a b. elim (at_or_after id j a) [ inl h ↦ rw h f | inr h ↦ none j h (omega arith) ],
        )
  ])
]

-- `task_get_id` returns the first free entry of the table, or 0 if none is free.
pub task_get_id-IsFirstFree :
    (s : Tasks)
    → IsFirstFree s.task_info 0 256 (task_get_id s)
      ⊎ ((task_get_id s ≡ 0) × NoneFree s.task_info 0 256)
unfolding task_get_id
task_get_id-IsFirstFree s = get_id_loop-IsFirstFree s.task_info 0 256

three_ways : (a b : ℕ) → (a < b) ⊎ (a ≡ b) ⊎ (b < a)
three_ways a b = omega arith

-- A free entry that no free one precedes is the one found.
pub IsFirstFree-task_get_id :
    (s : Tasks) (id : ℕ) → IsFirstFree s.task_info 0 256 id → task_get_id s ≡ id
IsFirstFree-task_get_id s id f = elim (task_get_id-IsFirstFree s) [
  | inr (e, none) ↦ absurd (clash (s.task_info id) f.free (none id f.start f.stop))
  | inl g ↦ elim (three_ways (task_get_id s) id) [
    | inl lt ↦ absurd (clash (s.task_info (task_get_id s)) g.free (f.first _ g.start lt))
    | inr (inl e) ↦ e
    | inr (inr gt) ↦ absurd (clash (s.task_info id) f.free (g.first _ f.start gt))
  ]
]
  where
    clash : (t : TaskInfo) → is_free t ≡ true → is_free t ≡ false → ⊥
    clash t a b = cc

pub task_get_id-NoneFree : (s : Tasks) → NoneFree s.task_info 0 256 → task_get_id s ≡ 0
task_get_id-NoneFree s full = elim (task_get_id-IsFirstFree s) [
  | inr (e, none) ↦ e
  | inl g ↦ let busy = full (task_get_id s) g.start g.stop in let free = g.free in cc
]
