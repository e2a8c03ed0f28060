-- ===== src/Thread/Directory.antt =====
-- What the system calls of kernel/task.c do to the addresses and IDs of the threads, without states,
-- queues and the scheduler.
use epos_arm.Base.{
  ℕ, ◌+◌, ◌≡◌, refl, ap, inl, inr, true, false, ◌||◌, not, none, some, List, [], ◌∷◌, ◌++◌, arith,
  Bool-cases, ◌==◌, if◌then◌else◌, bit_and,
}
use epos_arm.Base.Word.{u32, pos}
use epos_arm.Thread.{Tcb, Threads}
use epos_arm.Thread.Calls.{word_of, remove_task, get_task, find_tid}
use epos_arm.Thread.Keys.{Key, keys, AreDistinct, some_same, get_task-other}
use epos_arm.Thread.System.{Call, create, exit, wait_for_thread, getid, yield}

-- The threads in their order, and the next ID.
pub record Directory : Type 0 where
  pub keys : List Key
  pub next_tid : ℕ

abbrev pub directory : Threads → Directory
directory t = record { keys = keys t.tasks; next_tid = t.next_tid }

unfoldable pub without_tid : ℕ → List Key → List Key
without_tid n [] = []
without_tid n (k ∷ ks) = if k.tid == n then ks else k ∷ without_tid n ks

-- A thread is made by `sys_task_create` with an aligned stack and memory left; it goes when another has
-- waited for it.
unfoldable pub after_call : Directory → Call → Directory
after_call d (create new tos pv) = if not (bit_and tos 3 == 0) || new == 0 then d else (record {
  keys = d.keys ++ record { addr = new; tid = d.next_tid } ∷ [];
  next_tid = u32 (d.next_tid + 1);
})
after_call d (exit code_exit) = d
after_call d (wait_for_thread tid want wait) = record d { keys = without_tid (word_of tid) d.keys }
after_call d getid = d
after_call d yield = d

-- The calls in their order, the last one first.
unfoldable pub after_calls : Directory → List Call → Directory
after_calls d [] = d
after_calls d (c ∷ cs) = after_call (after_calls d cs) c

pub without_tid-get_task :
    (n : ℕ) (ps : List Tcb) → get_task (pos n) ps ≡ none → without_tid n (keys ps) ≡ keys ps
unfolding without_tid find_tid keys
without_tid-get_task n [] e = refl
without_tid-get_task n (p ∷ ps) e = ground (arith, e, without_tid-get_task n ps)

unfoldable pub without_addr : ℕ → List Key → List Key
without_addr a [] = []
without_addr a (k ∷ ks) = if k.addr == a then ks else k ∷ without_addr a ks

pub keys-remove_task : (a : ℕ) (ps : List Tcb) → keys (remove_task a ps) ≡ without_addr a (keys ps)
unfolding without_addr keys remove_task
keys-remove_task a [] = refl
keys-remove_task a (p ∷ ps) = elim (Bool-cases (p.addr == a)) [
  | inl t ↦ rw t refl
  | inr f ↦ rw (f, keys-remove_task a ps) refl
]

-- Taken out by its address or by its ID, it is the same thread.
pub without_addr-get_task :
    (m n : ℕ) (ps : List Tcb) (p : Tcb)
    → AreDistinct m (keys ps)
    → get_task (pos n) ps ≡ some p
    → without_addr p.addr (keys ps) ≡ without_tid n (keys ps)
unfolding without_tid without_addr find_tid keys
without_addr-get_task m n [] p d e = absurd (ground arith)
without_addr-get_task m n (q ∷ ps) p d e = elim (Bool-cases (q.tid == n)) [
  | inl t ↦
      let same : q ≡ p = some_same q p (ground arith) in
      let addr : (q.addr == p.addr) ≡ true = ground (arith, ap (λ (r : Tcb). r.addr) same) in
      rw (t, addr) refl
  | inr f ↦
      let apart = get_task-other n q.addr ps p (ground arith) d.0.addr in
      let other : (q.addr == p.addr) ≡ false = ground (arith, apart) in
      rw (f, other, without_addr-get_task m n ps p d.1 (ground arith)) refl
]
