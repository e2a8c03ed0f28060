-- ===== src/Thread/Sound.antt =====
-- What the parts of the system calls of kernel/task.c do to a sound state.
use epos_arm.Base.{
  ◌<◌, ◌^◌, ℕ, ◌+◌, ◌≡◌, ◌≢◌, refl, sym, ◌∙◌, inl, inr, Bool, Option, none, some, List, [], arith,
  Bool-cases, ◌==◌, if◌then◌else◌,
}
use mathlib.Core.Option
use mathlib.Core.Path.{subst}
use epos_arm.Base.Word.{u32}
use epos_arm.Thread.{Tcb, Threads, tcb_at, modify, waiting}
use epos_arm.Thread.Calls.{add_task, remove_task, reap, no_waiter, set_state}
use epos_arm.Thread.Keys.{
  AreDistinct, some_same, keys, keys-modify, AreDistinct-add_task, AreDistinct-remove_task,
  has_addr-tcb_at, tcb_at-remove_task, tcb_at-add_task,
}
use epos_arm.Thread.Store.{modify-IsWrite}
use epos_arm.Thread.System.{IsSound}

-- A write that keeps a thread's queue leaves no queue with a thread that waits.
alone_after :
    (b a : ℕ) (f : Tcb → Tcb) (o : Option Tcb) (p : Tcb)
    → ((q : Tcb) → (f q).wq_exit ≡ q.wq_exit)
    → ((q : Tcb) → o ≡ some q → q.wq_exit ≡ [])
    → (if b == a then Option.map f o else o) ≡ some p
    → p.wq_exit ≡ []
alone_after b a f none p keeps alone e = absurd (ground arith)
alone_after b a f (some q) p keeps alone e = ground (arith, alone q refl, keeps q)

-- A write to the running thread that keeps its address, ID and queue.
module _ (t : Threads) (f : Tcb → Tcb) (s : IsSound t) (same_addr : (q : Tcb) → (f q).addr ≡ q.addr)
    (same_tid : (q : Tcb) → (f q).tid ≡ q.tid)
    (same_wq : (q : Tcb) → (f q).wq_exit ≡ q.wq_exit) where
  pub write_running :
      (qs : List Tcb) × (modify t.running f t.tasks ≡ some qs)
      × (tcb_at t.running qs ≡ some (f s.current))
      × (keys qs ≡ keys t.tasks)
      × ((a : ℕ) (p : Tcb) → tcb_at a qs ≡ some p → p.wq_exit ≡ [])
  write_running =
      let (qs, done, w) = modify-IsWrite t.running f t.tasks s.current same_addr s.found in
      (
        qs,
        done,
        ground (arith, w.read t.running, s.found),
        keys-modify t.running f t.tasks qs same_addr same_tid done,
        λ a p e.
            alone_after a t.running f (tcb_at a t.tasks) p same_wq (s.alone a) (sym (w.read a) ∙ e),
      )

pub add_task-IsSound :
    (t : Threads) (tsk : Tcb)
    → IsSound t
    → tcb_at tsk.addr t.tasks ≡ none
    → tsk.tid ≡ t.next_tid
    → tsk.wq_exit ≡ []
    → t.next_tid + 1 < 2 ^ 32
    → IsSound (record t { tasks = add_task tsk t.tasks; next_tid = u32 (t.next_tid + 1) })
add_task-IsSound t tsk s fresh tid wq next = record {
  current = s.current;
  found = ground (arith, s.found, fresh, tcb_at-add_task t.running tsk t.tasks fresh);
  live = s.live;
  distinct =
      let no_wrap : u32 (t.next_tid + 1) ≡ t.next_tid + 1 = omega arith in
      subst (λ n. AreDistinct n (keys (add_task tsk t.tasks))) (sym no_wrap)
        (AreDistinct-add_task t.next_tid tsk t.tasks s.distinct tid
          (has_addr-tcb_at tsk.addr t.tasks fresh));
  alone = λ a p e. elim (Bool-cases (a == tsk.addr)) [
    | inl new ↦
        let at_new : tcb_at a (add_task tsk t.tasks) ≡ some tsk =
          ground (arith, tcb_at-add_task a tsk t.tasks fresh) in
        let same : tsk ≡ p = some_same tsk p (sym at_new ∙ e) in subst (λ q. q.wq_exit ≡ []) same wq
    | inr old ↦ s.alone a p (ground (arith, e, tcb_at-add_task a tsk t.tasks fresh))
  ];
}

remove_task-IsSound :
    (t : Threads) (a : ℕ)
    → IsSound t
    → a ≢ t.running
    → IsSound (record t { tasks = remove_task a t.tasks })
remove_task-IsSound t a s other = record {
  current = s.current;
  found = ground (arith, s.found, tcb_at-remove_task t.next_tid a t.running t.tasks s.distinct);
  live = s.live;
  distinct = AreDistinct-remove_task t.next_tid a t.tasks s.distinct;
  alone = λ b p e.
      s.alone b p (ground (arith, e, tcb_at-remove_task t.next_tid a b t.tasks s.distinct));
}

pub reap-IsSound :
    (t : Threads) (want : Bool) (p : Tcb)
    → IsSound t
    → p.wq_exit ≡ []
    → p.addr ≢ t.running
    → IsSound (reap t want p).threads
unfolding reap no_waiter
reap-IsSound t want p s alone other = rw alone (remove_task-IsSound t p.addr s other)

-- `sleep_on` for a thread of the list keeps the threads sound.
pub sleep_on-IsSound :
    (t t' : Threads)
    → IsSound t
    → t'.running ≡ t.running
    → t'.next_tid ≡ t.next_tid
    → keys t'.tasks ≡ keys t.tasks
    → ((b : ℕ)
        → tcb_at b t'.tasks ≡ (
            if b == t.running
            then Option.map (set_state waiting) (tcb_at b t.tasks)
            else tcb_at b t.tasks))
    → IsSound t'
unfolding set_state
sleep_on-IsSound t t' s running next_id ids reads = record {
  current = set_state waiting s.current;
  found = rw running (ground (arith, s.found, reads t.running));
  live = rw running s.live;
  distinct = rw (ids, next_id) s.distinct;
  alone = λ a p e.
      alone_after a t.running (set_state waiting) (tcb_at a t.tasks) p (λ q. refl) (s.alone a)
        (sym (reads a) ∙ e);
}
