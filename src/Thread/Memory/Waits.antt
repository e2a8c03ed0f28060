-- ===== src/Thread/Memory/Waits.antt =====
-- What `sys_task_create` and `sys_task_wait` of kernel/task.c do to the list of threads, for the owners of
-- blocks.
use epos_arm.Base.{
  ◌+◌, ◌^◌, ◌<◌, ℕ, ◌≡◌, ◌≢◌, refl, ap, sym, ◌∙◌, ◌⊎◌, inl, inr, Bool, true, false, not, some, List,
  [], ◌∷◌, ◌++◌, arith, Bool-cases, ◌==◌, if◌then◌else◌, bit_and,
}
use mathlib.Core.Path.{subst}
use epos_arm.Base.Word.{ℤ}
use epos_arm.Thread.{Tcb, Threads}
use epos_arm.Thread.Calls.{
  ruins, word_of, get_task, Reaped, no_thread, sys_task_create, sys_task_wait,
}
use epos_arm.Thread.Keys.{
  Key, keys, has_addr, AreDistinct, some_same, get_task-has_addr, tcb_at-has_addr, tcb_at-get_task,
}
use epos_arm.Thread.Directory.{Directory, after_call, without_addr}
use epos_arm.Thread.System.{create, call, IsSound}
use epos_arm.Thread.History.{call-Step, wait_for-Step, Option-cases}

pub not_both : true ≡ false → ⊥
not_both e = ground (arith, e)

pub differ : (f : ℕ → Bool) (a b : ℕ) → f a ≡ true → f b ≡ false → (b == a) ≡ false
differ f a b t f' = elim (Bool-cases (b == a)) [
  | inl same ↦ absurd (not_both (sym t ∙ ap f (sym_nat same) ∙ f'))
  | inr other ↦ other
]
  where
    sym_nat : (b == a) ≡ true → a ≡ b
    sym_nat same = ground (arith, same)

pub has_addr-without_addr :
    (m a b : ℕ) (ks : List Key)
    → AreDistinct m ks
    → has_addr b (without_addr a ks) ≡ (if b == a then false else has_addr b ks)
unfolding has_addr without_addr
has_addr-without_addr m a b [] d = ground arith
has_addr-without_addr m a b (k ∷ ks) d =
    ground (arith, d.0.addr, has_addr-without_addr m a b ks d.1)

pub directory_keys : (d e : Directory) → d ≡ e → d.keys ≡ e.keys
directory_keys d e same = ap (λ (x : Directory). x.keys) same

-- What `sys_task_wait` leaves: it finds no thread, or it takes one out and gives its address to `kfree`.
abbrev pub Waited : Threads → Reaped → Type 0
Waited t o =
    (o ≡ no_thread t)
    ⊎ ((a : ℕ) × (has_addr a (keys t.tasks) ≡ true)
        × (o.freed ≡ some a)
        × (keys o.threads.tasks ≡ without_addr a (keys t.tasks)))

pub sys_task_wait-Waited :
    (t : Threads) (tid : ℤ) (want : Bool) (wait : ℕ)
    → IsSound t
    → ((p : Tcb) → get_task tid t.tasks ≡ some p → p.addr ≢ t.running)
    → (o : Reaped) × (sys_task_wait t tid want wait ≡ some o) × IsSound o.threads × Waited t o
unfolding sys_task_wait
sys_task_wait-Waited t tid want wait s h =
    let n = word_of tid in
    let live : (t.running == 0) ≡ false = ground (arith, s.live) in
    elim (Option-cases (get_task tid t.tasks)) [
      | inl e ↦ rw (live, e) (no_thread t, refl, s, inl refl)
      | inr (p, e) ↦
          let here = tcb_at-get_task t.next_tid n t.tasks p s.distinct e in
          let (o, done, sound, d, freed) = wait_for-Step t want wait p s here.0 (h p e) in
          rw (live, e, done)
            (
              o,
              refl,
              sound,
              inr (p.addr, (get_task-has_addr n t.tasks p e).0, freed, directory_keys _ _ d),
            )
    ]

-- A thread is made at an address of no other.
pub create-IsSound :
    (t : Threads) (new tos pv : ℕ)
    → IsSound t
    → has_addr new (keys t.tasks) ≡ false
    → not (bit_and tos 3 == 0) ≡ false
    → (new == 0) ≡ false
    → ruins t.tasks new tos ≡ false
    → t.next_tid + 1 < 2 ^ 32
    → IsSound (sys_task_create t new tos pv).0
      × (keys (sys_task_create t new tos pv).0.tasks
          ≡ keys t.tasks ++ record { addr = new; tid = t.next_tid } ∷ [])
unfolding call after_call
create-IsSound t new tos pv s fresh aligned memory harmless next =
    let (t', e, sound, d) =
      call-Step t (create new tos pv) s (tcb_at-has_addr new t.tasks fresh, harmless, next) in
    let made : call t (create new tos pv) ≡ some (sys_task_create t new tos pv).0 =
      rw harmless refl in
    let same : t' ≡ (sys_task_create t new tos pv).0 = some_same t' _ (sym e ∙ made) in
    (
      subst IsSound same sound,
      ap (λ (u : Threads). keys u.tasks) (sym same)
          ∙ directory_keys _ _ d
          ∙ rw (aligned, memory) refl,
    )
