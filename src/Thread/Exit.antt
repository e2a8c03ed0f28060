-- ===== src/Thread/Exit.antt =====
-- What `wake_up` and `sys_task_exit` of kernel/task.c leave.
use epos_arm.Base.{
  ℕ, suc, ◌≡◌, Bool, refl, ap, ◌∙◌, true, false, ◌||◌, Option, none, some, List, [], ◌∷◌, arith,
  ◌==◌, if◌then◌else◌,
}
use mathlib.Core.Option
use epos_arm.Base.Word.{ℤ, negsuc}
use epos_arm.Thread.{ready, zombie, Tcb, Threads, Waiter, tcb_at}
use epos_arm.Thread.Calls.{set_state, wake_up, sys_task_exit}
use epos_arm.Thread.Schedule.{schedule-resched}
use epos_arm.Thread.Store.{modify-IsWrite, place_of-tcb_at, IsWrite-tcb_at}

-- Whether a node of the queue names the thread at `b`.
unfoldable pub waits : ℕ → List Waiter → Bool
waits b [] = false
waits b (w ∷ ws) = b == w.tsk || waits b ws

-- Each node of the queue names a thread of the list.
abbrev pub AreThreads : List Waiter → List Tcb → Type 0
AreThreads ws ps = (b : ℕ) → waits b ws ≡ true → (p : Tcb) × (tcb_at b ps ≡ some p)

twice :
    (here later : Bool) (o : Option Tcb)
    → let woken = if here then Option.map (set_state ready) o else o in
      (if later then Option.map (set_state ready) woken else woken)
      ≡ (if here || later then Option.map (set_state ready) o else o)
unfolding set_state
twice true true none = refl
twice true true (some p) = refl
twice true false o = refl
twice false true o = refl
twice false false o = refl

wake_up_lem :
    (ws : List Waiter) (n : ℕ) (ps : List Tcb)
    → AreThreads ws ps
    → (qs : List Tcb) × (wake_up ws (negsuc n) ps ≡ some qs)
      × ((b : ℕ)
          → tcb_at b qs
            ≡ (if waits b ws then Option.map (set_state ready) (tcb_at b ps) else tcb_at b ps))
unfolding wake_up waits set_state
wake_up_lem [] n ps known = (ps, refl, λ b. refl)
wake_up_lem (w ∷ ws) n ps known =
    let here : waits w.tsk (w ∷ ws) ≡ true = ground arith in
    let (p, e) = known w.tsk here in
    let (ps', woken, write) = modify-IsWrite w.tsk (set_state ready) ps p (λ q. refl) e in
    let rest : AreThreads ws ps' = λ b h.
      let (q, f) = known b (ground arith) in
      IsWrite-tcb_at w.tsk (set_state ready) ps ps' b q write f in
    let (qs, done, reads) = wake_up_lem ws (suc n) ps' rest in
    rw (woken, done)
      (qs, refl, λ b. rw (reads b, write.read b) (twice (b == w.tsk) (waits b ws) (tcb_at b ps)))

-- The thread when it has ended.
unfoldable pub ended : ℤ → Tcb → Tcb
ended code_exit p = record p { code_exit = code_exit; state = zombie }

last_write :
    (current woken : Bool) (o : Option Tcb) (code_exit : ℤ)
    → let rest = if woken then Option.map (set_state ready) o else o in
      (if current then Option.map (ended code_exit) rest else rest)
      ≡ (if current then Option.map (ended code_exit) o else rest)
unfolding set_state ended
last_write true true none code_exit = refl
last_write true true (some p) code_exit = refl
last_write true false o code_exit = refl
last_write false woken o code_exit = refl

-- After `sys_task_exit`, with the running thread and those that wait for it in the list, the running thread
-- has ended with the code, each other thread that waits for it is ready, every other thread is as before,
-- and the thread no longer owns the FPU.
pub sys_task_exit_lem :
    (t : Threads) (code_exit : ℤ) (q : Tcb)
    → tcb_at t.running t.tasks ≡ some q
    → AreThreads q.wq_exit t.tasks
    → (t' : Threads) × (sys_task_exit t code_exit ≡ some t')
      × (t'.own_fpu ≡ (if t.own_fpu == t.running then 0 else t.own_fpu))
      × ((b : ℕ)
          → tcb_at b t'.tasks ≡ (
              if b == t.running
              then Option.map (ended code_exit) (tcb_at b t.tasks)
              else (if waits b q.wq_exit
                  then Option.map (set_state ready) (tcb_at b t.tasks)
                  else tcb_at b t.tasks)))
unfolding sys_task_exit ended
sys_task_exit_lem t code_exit q e known =
    let (ps, woken, reads) = wake_up_lem q.wq_exit 0 t.tasks known in
    let (q', f) = still_there t.running ps (waits t.running q.wq_exit) q (reads t.running) e in
    let (qs, done, write) = modify-IsWrite t.running (ended code_exit) ps q' (λ p. refl) f in
    let (q2, g) = IsWrite-tcb_at t.running (ended code_exit) ps qs t.running q' write f in
    let (r, place) = place_of-tcb_at t.running qs q2 g in
    let (x, select, selected) =
      schedule-resched
        (record t { tasks = qs; own_fpu = if t.own_fpu == t.running then 0 else t.own_fpu }) r
        place in
    (
      record t {
        tasks = qs;
        resched = x;
        own_fpu = if t.own_fpu == t.running then 0 else t.own_fpu;
      },
      rw (e, woken, done, selected) refl,
      refl,
      λ b.
          rw (write.read b, reads b)
            (last_write (b == t.running) (waits b q.wq_exit) (tcb_at b t.tasks) code_exit),
    )
  where
    still_there :
        (a : ℕ) (ps : List Tcb) (woken : Bool) (q : Tcb)
        → tcb_at a ps
          ≡ (if woken then Option.map (set_state ready) (tcb_at a t.tasks) else tcb_at a t.tasks)
        → tcb_at a t.tasks ≡ some q
        → (q' : Tcb) × (tcb_at a ps ≡ some q')
    still_there a ps true q h e = (set_state ready q, h ∙ ap (Option.map (set_state ready)) e)
    still_there a ps false q h e = (q, h ∙ e)
