-- ===== src/Thread/Select.antt =====
-- Which thread the loop of `schedule` in kernel/task.c selects, and that it ends.
use epos_arm.Base.{
  ℕ, zero, suc, ◌-◌, ◌≤◌, ◌<◌, ◌≡◌, ◌≢◌, refl, ◌⊎◌, inl, inr, true, false, some, List, arith,
  Bool-cases, ◌==◌, leb, if◌then◌else◌,
}
use epos_arm.Thread.{Tcb, length, at_place, runnable, next_place, select_loop}

-- The places that a walk from `r` on passes before it comes to `k`, around the end of the list.
abbrev pub IsBetween : (r k j : ℕ) → Type 0
IsBetween r k j = ((r < k) × (r < j) × (j < k)) ⊎ ((k ≤ r) × ((r < j) ⊎ (j < k)))

-- `k` is the first place behind `r`, around the end of the list, whose thread may run, or `r` if there
-- is none.
pub record IsTurn (ps : List Tcb) (r k : ℕ) : Type 0 where
  pub bound : k < length ps
  pub picked : (k ≡ r) ⊎ (runnable (at_place ps k) ≡ true)
  pub passed : (j : ℕ) → j < length ps → IsBetween r k j → runnable (at_place ps j) ≡ false

module _ (ps : List Tcb) (r : ℕ) (r_bound : r < length ps) where
  -- The rounds that are left at `i`.
  left : ℕ → ℕ
  left i = if leb r i then length ps - (i - r) else r - i

  -- The places passed up to `i`, with `i`.
  IsPassed : (i j : ℕ) → Type 0
  IsPassed i j = ((r < j) × (j ≤ i)) ⊎ ((i < r) × ((r < j) ⊎ (j ≤ i)))

  extend :
      (i j : ℕ)
      → i < length ps
      → j < length ps
      → next_place ps i ≢ r
      → IsPassed (next_place ps i) j
      → IsPassed i j ⊎ (j ≡ next_place ps i)
  unfolding next_place IsPassed
  extend i j h h' ne p = ground arith

  before :
      (i j : ℕ) → i < length ps → j < length ps → IsBetween r (next_place ps i) j → IsPassed i j
  unfolding next_place IsPassed
  before i j h h' b = ground arith

  fewer :
      (i fuel : ℕ)
      → i < length ps
      → next_place ps i ≢ r
      → left i ≤ suc fuel
      → left (next_place ps i) ≤ fuel
  unfolding next_place left
  fewer i fuel h ne enough = ground arith

  next_bound : (i : ℕ) → i < length ps → next_place ps i < length ps
  unfolding next_place
  next_bound i h = ground arith

  some_left : (i : ℕ) → i < length ps → left i ≤ 0 → ⊥
  unfolding left
  some_left i h e = ground arith

  start : left r ≤ length ps
  unfolding left
  start = ground arith

  none_passed : (j : ℕ) → IsPassed r j → ⊥
  unfolding IsPassed
  none_passed j w = omega arith

  select_loop-IsTurn :
      (i fuel : ℕ)
      → i < length ps
      → left i ≤ fuel
      → ((j : ℕ) → j < length ps → IsPassed i j → runnable (at_place ps j) ≡ false)
      → (k : ℕ) × (select_loop ps r i fuel ≡ some k) × IsTurn ps r k
  unfolding select_loop
  select_loop-IsTurn i zero h enough passed = absurd (some_left i h enough)
  select_loop-IsTurn i (suc fuel) h enough passed = elim (Bool-cases (next_place ps i == r)) [
    | inl t ↦
        let here : next_place ps i ≡ r = ground arith in
        rw t (
          next_place ps i,
          refl,
          record {
            bound = next_bound i h;
            picked = inl here;
            passed = λ j b w. passed j b (before i j h b w);
          },
        )
    | inr f ↦
        let ne : next_place ps i ≢ r = ground arith in
        elim (Bool-cases (runnable (at_place ps (next_place ps i)))) [
          | inl t ↦
              rw (f, t)
                (
                  next_place ps i,
                  refl,
                  record {
                    bound = next_bound i h;
                    picked = inr t;
                    passed = λ j b w. passed j b (before i j h b w);
                  },
                )
          | inr g ↦
              rw (f, g)
                (select_loop-IsTurn (next_place ps i) fuel (next_bound i h)
                  (fewer i fuel h ne enough)
                  (λ j b w. elim (extend i j h b ne w) [
                    | inl old ↦ passed j b old
                    | inr new ↦ rw new g
                  ]))
        ]
  ]

-- With a thread of the list running, the loop of `schedule` ends within as many rounds as the list has
-- threads, at the next one in turn that may run.
pub select_loop_lem :
    (ps : List Tcb) (r : ℕ)
    → r < length ps
    → (k : ℕ) × (select_loop ps r r (length ps) ≡ some k) × IsTurn ps r k
select_loop_lem ps r h =
    select_loop-IsTurn ps r h r (length ps) h (start ps r h)
      (λ j b w. absurd (none_passed ps r h j w))
