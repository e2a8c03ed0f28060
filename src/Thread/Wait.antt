-- ===== src/Thread/Wait.antt =====
-- What `sys_task_wait` of kernel/task.c returns.
use epos_arm.Base.{
  ℕ, ◌≡◌, ◌≢◌, refl, ap, ◌∙◌, inl, inr, true, false, some, [], arith, Bool-cases, ◌==◌,
  if◌then◌else◌,
}
use mathlib.Core.Option
use epos_arm.Base.Word.{ℤ, pos}
use epos_arm.Thread.{Tcb, Threads, waiting, is_zombie, tcb_at}
use epos_arm.Thread.Calls.{set_state, get_task, no_waiter, Reaped, reap, wait_for, sys_task_wait}
use epos_arm.Thread.Sleep.{sleep_on_lem}

-- The thread at `a` is taken from the list and freed, and its exit code is stored.
pub record IsReaped (a : ℕ) (code_exit : ℤ) (o : Reaped) : Type 0 where
  pub ret : o.ret ≡ pos 0
  pub stored : o.stored ≡ some code_exit
  pub freed : o.freed ≡ some a

pub reap-IsReaped :
    (t : Threads) (p : Tcb) → p.wq_exit ≡ [] → IsReaped p.addr p.code_exit (reap t true p)
unfolding reap no_waiter
reap-IsReaped t p e = rw e (record { ret = refl; stored = refl; freed = refl })

-- Marked as waiting or not, the thread keeps what `reap` reads of it.
pub marked_lem :
    (t t' : Threads) (p : Tcb)
    → tcb_at p.addr t.tasks ≡ some p
    → tcb_at p.addr t'.tasks ≡ (
        if p.addr == t.running
        then Option.map (set_state waiting) (tcb_at p.addr t.tasks)
        else tcb_at p.addr t.tasks)
    → (q : Tcb) × (tcb_at p.addr t'.tasks ≡ some q)
      × (q.addr ≡ p.addr)
      × (q.code_exit ≡ p.code_exit)
      × (q.wq_exit ≡ p.wq_exit)
unfolding set_state
marked_lem t t' p e after = elim (Bool-cases (p.addr == t.running)) [
  | inl h ↦ (set_state waiting p, ground arith, refl, refl, refl)
  | inr h ↦ (p, ground arith, refl, refl, refl)
]

wait_for-IsReaped :
    (t : Threads) (wait : ℕ) (p q : Tcb)
    → tcb_at t.running t.tasks ≡ some q
    → tcb_at p.addr t.tasks ≡ some p
    → p.wq_exit ≡ []
    → (o : Reaped) × (wait_for t true wait p ≡ some o) × IsReaped p.addr p.code_exit o
unfolding wait_for
wait_for-IsReaped t wait p q e e' alone = elim (Bool-cases (is_zombie p.state)) [
  | inl h ↦ rw h (reap t true p, refl, reap-IsReaped t p alone)
  | inr h ↦
      let (t', slept, same, next, ids, reads) = sleep_on_lem t p.addr wait p q e' e in
      let (p', found, a, c, w) = marked_lem t t' p e' (reads p.addr) in
      let z = reap-IsReaped t' p' (w ∙ alone) in
      rw (h, slept, found)
        (
          reap t' true p',
          refl,
          record { ret = z.ret; stored = z.stored ∙ ap some c; freed = z.freed ∙ ap some a },
        )
]

-- `sys_task_wait` for a thread that no other waits for returns 0, stores the exit code that the thread has
-- at the time and frees it, whether or not the thread has ended.
pub sys_task_wait-IsReaped :
    (t : Threads) (tid : ℤ) (wait : ℕ) (p q : Tcb)
    → t.running ≢ 0
    → tcb_at t.running t.tasks ≡ some q
    → get_task tid t.tasks ≡ some p
    → tcb_at p.addr t.tasks ≡ some p
    → p.wq_exit ≡ []
    → (o : Reaped) × (sys_task_wait t tid true wait ≡ some o) × IsReaped p.addr p.code_exit o
unfolding sys_task_wait
sys_task_wait-IsReaped t tid wait p q some_running e found e' alone =
    let valid : (t.running == 0) ≡ false = ground arith in
    rw (valid, found) (wait_for-IsReaped t wait p q e e' alone)
