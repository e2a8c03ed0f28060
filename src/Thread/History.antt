-- ===== src/Thread/History.antt =====
-- Sequences of the system calls of kernel/task.c.
use epos_arm.Base.{
  ℕ, ◌+◌, ◌≡◌, ◌≢◌, ◌⊎◌, refl, ap, sym, ◌∙◌, inl, inr, Bool, false, ◌||◌, not, Option, none, some,
  List, [], arith, Bool-cases, ◌==◌, if◌then◌else◌, bit_and,
}
use mathlib.Core.Path.{subst}
use epos_arm.Base.Word.{ℤ, u32}
use epos_arm.Thread.{Tcb, Threads, tcb_at, is_zombie, zombie}
use epos_arm.Thread.Calls.{
  word_of, get_task, Reaped, reap, no_waiter, wake_up, wait_for, sys_task_create, sys_task_exit,
  sys_task_wait, sys_task_getid, sys_task_yield,
}
use epos_arm.Thread.Keys.{Key, some_same, keys-add_task, keys, AreDistinct, tcb_at-get_task}
use epos_arm.Thread.Directory.{
  Directory, directory, after_call, after_calls, without_addr, keys-remove_task,
  without_addr-get_task, without_tid-get_task,
}
use epos_arm.Thread.Schedule.{schedule-resched}
use epos_arm.Thread.Store.{place_of-tcb_at}
use epos_arm.Thread.Sleep.{sleep_on_lem}
use epos_arm.Thread.Wait.{marked_lem}
use epos_arm.Thread.System.{
  Call, create, exit, wait_for_thread, getid, yield, call, IsAcceptable, IsSound, Reaches, start,
  after,
}
use epos_arm.Thread.Sound.{write_running, add_task-IsSound, reap-IsSound, sleep_on-IsSound}

pub Option-cases : {A : Type 0} (o : Option A) → (o ≡ none) ⊎ ((a : A) × (o ≡ some a))
Option-cases none = inl refl
Option-cases (some a) = inr (a, refl)

-- What one call leaves: it returns, the state is sound again, and its threads are those that are due.
abbrev pub Step : Threads → Call → Type 0
Step t c =
    (t' : Threads) × (call t c ≡ some t') × IsSound t' × (directory t' ≡ after_call (directory t) c)

yield-Step : (t : Threads) → IsSound t → Step t yield
unfolding call sys_task_yield after_call
yield-Step t s =
    let (r, place) = place_of-tcb_at t.running t.tasks s.current s.found in
    let (x, select, e) = schedule-resched t r place in
    (
      record t { resched = x },
      rw e refl,
      record {
        current = s.current;
        found = s.found;
        live = s.live;
        distinct = s.distinct;
        alone = s.alone;
      },
      refl,
    )

getid-Step : (t : Threads) → IsSound t → Step t getid
unfolding call sys_task_getid after_call
getid-Step t s =
    let live : (t.running == 0) ≡ false = ground (arith, s.live) in
    (t, rw (live, s.found) refl, s, refl)

exit-Step : (t : Threads) (code_exit : ℤ) → IsSound t → Step t (exit code_exit)
unfolding call sys_task_exit wake_up after_call
exit-Step t code_exit s =
    let (qs, done, found, ids, alone) =
      write_running t (λ p. record p { code_exit = code_exit; state = zombie }) s (λ q. refl)
        (λ q. refl) (λ q. refl) in
    let own = if t.own_fpu == t.running then 0 else t.own_fpu in
    let (r, place) = place_of-tcb_at t.running qs _ found in
    let (x, select, e) = schedule-resched (record t { tasks = qs; own_fpu = own }) r place in
    (
      record t { tasks = qs; own_fpu = own; resched = x },
      rw (s.found, s.alone t.running s.current s.found, done, e) refl,
      record {
        current = _;
        found = found;
        live = s.live;
        distinct = subst (AreDistinct t.next_tid) (sym ids) s.distinct;
        alone = alone;
      },
      ap (λ (ks : List Key). record { keys = ks; next_tid = t.next_tid }) ids,
    )

create-Step :
    (t : Threads) (new tos pv : ℕ)
    → IsSound t
    → IsAcceptable t (create new tos pv)
    → Step t (create new tos pv)
unfolding call sys_task_create after_call
create-Step t new tos pv s (fresh, harmless, next) =
    rw harmless (elim (Bool-cases (not (bit_and tos 3 == 0) || new == 0)) [
      | inl bad ↦ rw bad (t, refl, s, refl)
      | inr good ↦ rw good (
        _,
        refl,
        add_task-IsSound t _ s fresh refl refl next,
        ap (λ (ks : List Key). record { keys = ks; next_tid = u32 (t.next_tid + 1) })
            (keys-add_task _ t.tasks),
      )
    ])

-- The directory of the threads without the one at `a`.
abbrev pub removed : Threads → (a : ℕ) → Directory
removed t a = record { keys = without_addr a (keys t.tasks); next_tid = t.next_tid }

reap-directory :
    (t : Threads) (want : Bool) (p : Tcb)
    → p.wq_exit ≡ []
    → directory (reap t want p).threads ≡ removed t p.addr
unfolding reap no_waiter
reap-directory t want p alone = rw (alone, keys-remove_task p.addr t.tasks) refl

reap-freed :
    (t : Threads) (want : Bool) (p : Tcb) → p.wq_exit ≡ [] → (reap t want p).freed ≡ some p.addr
unfolding reap no_waiter
reap-freed t want p alone = rw alone refl

pub wait_for-Step :
    (t : Threads) (want : Bool) (wait : ℕ) (p : Tcb)
    → IsSound t
    → tcb_at p.addr t.tasks ≡ some p
    → p.addr ≢ t.running
    → (o : Reaped) × (wait_for t want wait p ≡ some o)
      × IsSound o.threads
      × (directory o.threads ≡ removed t p.addr)
      × (o.freed ≡ some p.addr)
unfolding wait_for
wait_for-Step t want wait p s here other = elim (Bool-cases (is_zombie p.state)) [
  | inl ended ↦
      let alone = s.alone p.addr p here in
      rw ended (
        _,
        refl,
        reap-IsSound t want p s alone other,
        reap-directory t want p alone,
        reap-freed t want p alone,
      )
  | inr alive ↦
      let (t', slept, running, next_id, ids, reads) =
        sleep_on_lem t p.addr wait p s.current here s.found in
      let s' = sleep_on-IsSound t t' s running next_id ids reads in
      let (p', found, same_addr, code, queue) = marked_lem t t' p here (reads p.addr) in
      let alone = s'.alone p.addr p' found in
      rw (alive, slept, found)
        (
          _,
          refl,
          reap-IsSound t' want p' s' alone (λ e. other (sym same_addr ∙ e ∙ running)),
          reap-directory t' want p' alone ∙ rw (ids, next_id, same_addr) refl,
          reap-freed t' want p' alone ∙ ap some same_addr,
        )
]

wait-Step :
    (t : Threads) (tid : ℤ) (want : Bool) (wait : ℕ)
    → IsSound t
    → IsAcceptable t (wait_for_thread tid want wait)
    → Step t (wait_for_thread tid want wait)
unfolding call sys_task_wait after_call
wait-Step t tid want wait s h =
    let n = word_of tid in
    let live : (t.running == 0) ≡ false = ground (arith, s.live) in
    elim (Option-cases (get_task tid t.tasks)) [
      | inl e ↦ rw (live, e) (t, refl, s, ap same_next (sym (without_tid-get_task n t.tasks e)))
      | inr (p, e) ↦
          let here = tcb_at-get_task t.next_tid n t.tasks p s.distinct e in
          let (o, done, sound, d, freed) = wait_for-Step t want wait p s here.0 (h p e) in
          rw (live, e, done)
            (
              o.threads,
              refl,
              sound,
              d ∙ ap same_next (without_addr-get_task t.next_tid n t.tasks p s.distinct e),
            )
    ]
  where
    same_next : List Key → Directory
    same_next ks = record { keys = ks; next_tid = t.next_tid }

pub call-Step : (t : Threads) (c : Call) → IsSound t → IsAcceptable t c → Step t c
call-Step t (create new tos pv) s h = create-Step t new tos pv s h
call-Step t (exit code_exit) s h = exit-Step t code_exit s
call-Step t (wait_for_thread tid want wait) s h = wait-Step t tid want wait s h
call-Step t getid s h = getid-Step t s
call-Step t yield s h = yield-Step t s

module _ (t : Threads) (s : IsSound t) where
  reached :
      {cs : List Call} {t' : Threads}
      → Reaches t cs t'
      → IsSound t' × (directory t' ≡ after_calls (directory t) cs)
  unfolding after_calls
  reached start = (s, refl)
  reached (after {t1} {t2} {cs} c way h e) =
      let (s1, d1) = reached way in
      let (t3, e3, s3, d3) = call-Step t1 c s1 h in
      let same : t3 ≡ t2 = some_same t3 t2 (sym e3 ∙ e) in
      (
        subst IsSound same s3,
        ap (λ (u : Threads). directory u) (sym same)
            ∙ d3
            ∙ ap (λ (d : Directory). after_call d c) d1,
      )

  -- After any sequence of acceptable calls from a sound state, the state is sound, and each acceptable call
  -- returns without an access through NULL or to a thread that was freed.
  Reaches-IsSound :
      (t' : Threads) (cs : List Call)
      → Reaches t cs t'
      → IsSound t' × ((c : Call) → IsAcceptable t' c → (t2 : Threads) × (call t' c ≡ some t2))
  Reaches-IsSound t' cs way =
      let s' = (reached way).0 in (s', λ c h. let (t2, e, s2, d) = call-Step t' c s' h in (t2, e))
