-- ===== src/Thread/SelfWait.antt =====
-- A thread of kernel/task.c that waits for itself.
use epos_arm.Base.{
  ℕ, ◌≡◌, refl, ap, sym, ◌∙◌, inl, inr, Bool, false, none, some, List, [], ◌∷◌, arith, Bool-cases,
  ◌==◌,
}
use epos_arm.Base.Word.{pos}
use epos_arm.Thread.{Tcb, Threads, tcb_at, place_of, schedule, is_zombie}
use epos_arm.Thread.Calls.{
  remove_task, get_task, Reaped, reap, no_waiter, wait_for, sys_task_wait, sys_task_yield,
}
use epos_arm.Thread.Keys.{tcb_at-remove_task, tcb_at-get_task}
use epos_arm.Thread.Sleep.{sleep_on_lem}
use epos_arm.Thread.Wait.{marked_lem}
use epos_arm.Thread.System.{IsSound}
use epos_arm.Thread.Sound.{sleep_on-IsSound}

tcb_at-place_of : (a : ℕ) (ps : List Tcb) → tcb_at a ps ≡ none → place_of a ps ≡ none
unfolding tcb_at place_of
tcb_at-place_of a [] e = refl
tcb_at-place_of a (p ∷ ps) e = ground (arith, e, tcb_at-place_of a ps)

removed_running :
    (t : Threads) (want : Bool) (p : Tcb)
    → IsSound t
    → p.wq_exit ≡ []
    → p.addr ≡ t.running
    → ((reap t want p).freed ≡ some t.running) × (sys_task_yield (reap t want p).threads ≡ none)
unfolding reap no_waiter sys_task_yield schedule
removed_running t want p s alone self =
    let gone : tcb_at t.running (remove_task t.running t.tasks) ≡ none =
      ground (arith, tcb_at-remove_task t.next_tid t.running t.running t.tasks s.distinct) in
    rw (alone, self, tcb_at-place_of t.running (remove_task t.running t.tasks) gone) (refl, refl)

-- In a sound state, a running thread that waits for itself is freed while it runs, and the `schedule` of its
-- next `sys_task_yield` reads the freed memory.
pub sys_task_wait_self :
    (t : Threads) (n wait : ℕ) (want : Bool) (p : Tcb)
    → IsSound t
    → get_task (pos n) t.tasks ≡ some p
    → p.addr ≡ t.running
    → (o : Reaped) × (sys_task_wait t (pos n) want wait ≡ some o)
      × (o.freed ≡ some t.running)
      × (sys_task_yield o.threads ≡ none)
unfolding sys_task_wait wait_for
sys_task_wait_self t n wait want p s found self =
    let live : (t.running == 0) ≡ false = ground (arith, s.live) in
    let here = (tcb_at-get_task t.next_tid n t.tasks p s.distinct found).0 in
    elim (Bool-cases (is_zombie p.state)) [
      | inl ended ↦
          let (freed, fault) = removed_running t want p s (s.alone p.addr p here) self in
          rw (live, found, ended) (_, refl, freed, fault)
      | inr alive ↦
          let (t', slept, running, next_id, ids, reads) =
            sleep_on_lem t p.addr wait p s.current here s.found in
          let s' = sleep_on-IsSound t t' s running next_id ids reads in
          let (p', found', same_addr, code, queue) = marked_lem t t' p here (reads p.addr) in
          let (freed, fault) =
            removed_running t' want p' s' (s'.alone p.addr p' found')
              (same_addr ∙ self ∙ sym running) in
          rw (live, found, alive, slept, found') (_, refl, freed ∙ ap some running, fault)
    ]
