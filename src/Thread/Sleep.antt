-- ===== src/Thread/Sleep.antt =====
-- What `sleep_on` of kernel/task.c leaves.
use epos_arm.Base.{
  ℕ, ◌≡◌, Bool, refl, ap, ◌∙◌, true, false, Option, some, List, ◌∷◌, arith, ◌==◌, if◌then◌else◌,
}
use mathlib.Core.Option
use epos_arm.Thread.{Tcb, Threads, Waiter, waiting, tcb_at}
use epos_arm.Thread.Calls.{set_state, unlink_wait, sleep_on}
use epos_arm.Thread.Keys.{keys, keys-modify}
use epos_arm.Thread.Schedule.{schedule-resched}
use epos_arm.Thread.Store.{modify-IsWrite, place_of-tcb_at, IsWrite-tcb_at}

abbrev push_waiter : (wait running : ℕ) → Tcb → Tcb
push_waiter wait running p = record p {
  wq_exit = record { addr = wait; tsk = running } ∷ p.wq_exit;
}

abbrev put_waiters : List Waiter → Tcb → Tcb
put_waiters ws p = record p { wq_exit = ws }

unlink_first :
    (wait running : ℕ) (ws : List Waiter)
    → unlink_wait wait (record { addr = wait; tsk = running } ∷ ws) ≡ some ws
unfolding unlink_wait
unlink_first wait running ws = let e : (wait == wait) ≡ true = ground arith in rw e refl

-- The three writes together: the queue pushed, the thread marked, the queue put back.
restore :
    (wait running : ℕ) (here current : Bool) (o : Option Tcb) (p : Tcb)
    → (here ≡ true → o ≡ some p)
    → let pushed = if here then Option.map (push_waiter wait running) o else o in
      let marked = if current then Option.map (set_state waiting) pushed else pushed in
      (if here then Option.map (put_waiters p.wq_exit) marked else marked)
      ≡ (if current then Option.map (set_state waiting) o else o)
unfolding set_state
restore wait running true true o p h = rw (h refl) refl
restore wait running true false o p h = rw (h refl) refl
restore wait running false true o p h = refl
restore wait running false false o p h = refl

-- `sleep_on` returns at once, since nothing switches to the thread that `schedule` selects: the queue is as
-- before, and the running thread, still the running one, is marked as waiting; no thread is new or gone.
pub sleep_on_lem :
    (t : Threads) (a wait : ℕ) (p q : Tcb)
    → tcb_at a t.tasks ≡ some p
    → tcb_at t.running t.tasks ≡ some q
    → (t' : Threads) × (sleep_on t a wait ≡ some t')
      × (t'.running ≡ t.running)
      × (t'.next_tid ≡ t.next_tid)
      × (keys t'.tasks ≡ keys t.tasks)
      × ((b : ℕ)
          → tcb_at b t'.tasks ≡ (
              if b == t.running
              then Option.map (set_state waiting) (tcb_at b t.tasks)
              else tcb_at b t.tasks))
unfolding sleep_on set_state
sleep_on_lem t a wait p q e e' =
    let (ps, done1, w1) = modify-IsWrite a (push_waiter wait t.running) t.tasks p (λ q. refl) e in
    let (q1, f1) = IsWrite-tcb_at a (push_waiter wait t.running) t.tasks ps t.running q w1 e' in
    let (qs, done2, w2) = modify-IsWrite t.running (set_state waiting) ps q1 (λ q. refl) f1 in
    let (q2, f2) = IsWrite-tcb_at t.running (set_state waiting) ps qs t.running q1 w2 f1 in
    let (r, place) = place_of-tcb_at t.running qs q2 f2 in
    let (x, select, selected) = schedule-resched (record t { tasks = qs }) r place in
    let (p1, f3) = IsWrite-tcb_at a (push_waiter wait t.running) t.tasks ps a p w1 e in
    let (p2, f4) = IsWrite-tcb_at t.running (set_state waiting) ps qs a p1 w2 f3 in
    let queue : p2.wq_exit ≡ record { addr = wait; tsk = t.running } ∷ p.wq_exit =
      ground (arith, w1.read a, w2.read a) in
    let (rs, done3, w3) = modify-IsWrite a (put_waiters p.wq_exit) qs p2 (λ q. refl) f4 in
    (
      record t { resched = x; tasks = rs },
      rw (done1, done2, selected, f4, queue, unlink_first wait t.running p.wq_exit, done3) refl,
      refl,
      refl,
      keys-modify a (put_waiters p.wq_exit) qs rs (λ q. refl) (λ q. refl) done3
          ∙ keys-modify t.running (set_state waiting) ps qs (λ q. refl) (λ q. refl) done2
          ∙ keys-modify a (push_waiter wait t.running) t.tasks ps (λ q. refl) (λ q. refl) done1,
      λ b.
          rw (w3.read b, w2.read b, w1.read b)
            (restore wait t.running (b == a) (b == t.running) (tcb_at b t.tasks) p
              (λ h. ap (λ (c : ℕ). tcb_at c t.tasks) (same b a h) ∙ e)),
    )
  where
    same : (b a : ℕ) → (b == a) ≡ true → b ≡ a
    same b a h = ground arith
