-- ===== src/Thread/Schedule.antt =====
-- What `schedule` of kernel/task.c does with the thread that its loop ends at.
use epos_arm.Base.{
  ℕ, zero, suc, ◌<◌, ◌≡◌, ◌≢◌, refl, inl, inr, true, false, some, List, [], ◌∷◌, arith, Bool-cases,
  ◌==◌, ◌&&◌,
}
use epos_arm.Thread.{Tcb, Threads, is_ready, length, place_of, at_place, after_loop, schedule}
use epos_arm.Thread.Select.{IsTurn, select_loop_lem}

place_of-length : (a : ℕ) (ps : List Tcb) (r : ℕ) → place_of a ps ≡ some r → r < length ps
unfolding place_of length
place_of-length a [] r e = ground arith
place_of-length a (p ∷ ps) r e = elim (Bool-cases (p.addr == a)) [
  | inl t ↦ ground arith
  | inr f ↦ grind (arith, place_of-length a ps)
]

at_place-length : (ps : List Tcb) (k : ℕ) → k < length ps → (p : Tcb) × (at_place ps k ≡ some p)
unfolding at_place length
at_place-length [] k h = absurd (omega arith)
at_place-length (p ∷ ps) zero h = (p, refl)
at_place-length (p ∷ ps) (suc k) h = at_place-length ps k (omega arith)

-- The thread at `k`, the next in turn after the running one at `r`, decides: if it is the running thread
-- and still ready, nothing changes; otherwise the request to schedule is cleared, and the thread is
-- selected, or task 0 where the running one has come round and may not run.
pub record Selected (t : Threads) (r : ℕ) (t' : Threads) (select : ℕ) : Type 0 where
  pub k : ℕ
  pub p : Tcb
  pub turn : IsTurn t.tasks r k
  pub thread : at_place t.tasks k ≡ some p
  pub kept : k ≡ r → is_ready p.state ≡ true → (t' ≡ t) × (select ≡ p.addr)
  pub idle : k ≡ r → is_ready p.state ≡ false → (t' ≡ record t { resched = 0 }) × (select ≡ t.task0)
  pub other : k ≢ r → (t' ≡ record t { resched = 0 }) × (select ≡ p.addr)

after_loop-Selected :
    (t : Threads) (r k : ℕ) (p : Tcb)
    → IsTurn t.tasks r k
    → at_place t.tasks k ≡ some p
    → Selected t r (after_loop t r k p).0 (after_loop t r k p).1
unfolding after_loop
after_loop-Selected t r k p turn thread = record {
  k = k;
  p = p;
  turn = turn;
  thread = thread;
  kept = λ e f. ground arith;
  idle = λ e f. ground arith;
  other = λ ne. ground arith;
}

-- With the running thread in the list, `schedule` ends and selects the next thread in turn that may run;
-- it keeps the running thread if that is ready and no other may run, and takes task 0 if none may run.
pub schedule-Selected :
    (t : Threads) (r : ℕ)
    → place_of t.running t.tasks ≡ some r
    → (t' : Threads) × (select : ℕ) × (schedule t ≡ some (t', select)) × Selected t r t' select
unfolding schedule
schedule-Selected t r e =
    let (k, found, turn) = select_loop_lem t.tasks r (place_of-length t.running t.tasks r e) in
    let (p, thread) = at_place-length t.tasks k turn.bound in
    (
      (after_loop t r k p).0,
      (after_loop t r k p).1,
      rw (e, found, thread) refl,
      after_loop-Selected t r k p turn thread,
    )

after_loop-resched :
    (t : Threads) (r k : ℕ) (p : Tcb)
    → (x : ℕ) × (select : ℕ) × (after_loop t r k p ≡ (record t { resched = x }, select))
unfolding after_loop
after_loop-resched t r k p = elim (Bool-cases (k == r && is_ready p.state)) [
  | inl h ↦ rw h (t.resched, p.addr, refl)
  | inr h ↦ rw h (0, _, refl)
]

-- With the running thread in the list, `schedule` returns and changes `g_resched` at most.
pub schedule-resched :
    (t : Threads) (r : ℕ)
    → place_of t.running t.tasks ≡ some r
    → (x : ℕ) × (select : ℕ) × (schedule t ≡ some (record t { resched = x }, select))
unfolding schedule
schedule-resched t r e =
    let (k, found, turn) = select_loop_lem t.tasks r (place_of-length t.running t.tasks r e) in
    let (p, thread) = at_place-length t.tasks k turn.bound in
    let (x, select, h) = after_loop-resched t r k p in (x, select, rw (e, found, thread, h) refl)
