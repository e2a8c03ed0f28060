-- ===== src/Thread/Memory/Owners.antt =====
-- The blocks of the heap that the threads of kernel/task.c own.
use epos_arm.Base.{
  ◌+◌, ℕ, ◌≡◌, ◌≢◌, refl, ap, sym, ◌∙◌, inl, inr, Bool, true, false, ◌||◌, not, some, [], ◌∷◌, ◌++◌,
  arith, Bool-cases, ◌==◌, if◌then◌else◌, bit_and,
}
use epos_arm.Base.Word.{ℤ, u32, sub32}
use epos_arm.Cpu.{page_size}
use epos_arm.Heap.{Tlsf, kmalloc, kfree}
use epos_arm.Thread.{Threads}
use epos_arm.Thread.Calls.{pushes, pushes_user, sys_task_create, sys_task_getid}
use epos_arm.Thread.Keys.{keys, has_addr, has_addr-append}
use epos_arm.Thread.Directory.{after_call, without_addr}
use epos_arm.Thread.System.{exit, yield, call, IsSound}
use epos_arm.Thread.History.{call-Step}
use epos_arm.Thread.Memory.{
  ThreadMachine, Request, task_create, task_exit, task_wait, task_getid, task_yield, IsAllowed,
  push_all, create_thread, release, collect, serve, IsOwner,
}
use epos_arm.Thread.Memory.Waits.{
  directory_keys, not_both, differ, has_addr-without_addr, sys_task_wait-Waited, create-IsSound,
}

no_memory :
    (t : Threads) (new tos pv : ℕ)
    → not (bit_and tos 3 == 0) ≡ false
    → (new == 0) ≡ true
    → ((sys_task_create t new tos pv).0 ≡ t) × ((sys_task_create t new tos pv).2 ≡ [])
unfolding sys_task_create
no_memory t new tos pv aligned empty = rw (aligned, empty) (refl, refl)

-- Where the words are pushed.
abbrev pub stack_of : (new tos : ℕ) → ℕ
stack_of new tos = if not (tos == 0) then tos else u32 (new + page_size)

pub some_memory :
    (t : Threads) (new tos pv : ℕ)
    → not (bit_and tos 3 == 0) ≡ false
    → (new == 0) ≡ false
    → (sys_task_create t new tos pv).2 ≡ pushes (stack_of new tos) pv
unfolding sys_task_create
some_memory t new tos pv aligned memory = rw (aligned, memory) refl

module _ {Heap : Type 0} (tlsf : Tlsf Heap) (used writable : Heap → ℕ → Bool)
    (others : ℕ → Bool) where
  -- The threads are sound, and the blocks given out are those at the addresses of the threads and those of
  -- the other owners, which are no threads'.
  pub record IsOwned (s : ThreadMachine Heap) : Type 0 where
    pub sound : IsSound s.threads
    pub blocks : (a : ℕ) → used s.heap a ≡ (has_addr a (keys s.threads.tasks) || others a)
    pub apart : (a : ℕ) → others a ≡ true → has_addr a (keys s.threads.tasks) ≡ false

  abbrev pub Served : ThreadMachine Heap → Request → Type 0
  Served s c = (s' : ThreadMachine Heap) × (serve tlsf s c ≡ some s') × IsOwned s'

  same_keys-IsOwned :
      (s : ThreadMachine Heap) (t' : Threads)
      → IsOwned s
      → IsSound t'
      → keys t'.tasks ≡ keys s.threads.tasks
      → IsOwned (record s { threads = t' })
  same_keys-IsOwned s t' o sound same = record {
    sound = sound;
    blocks = λ a. rw same (o.blocks a);
    apart = λ a h. rw same (o.apart a h);
  }

  task_exit-Served :
      (s : ThreadMachine Heap) (code_exit : ℤ) → IsOwned s → Served s (task_exit code_exit)
  unfolding serve call after_call
  task_exit-Served s code_exit o =
      let (t', e, sound, d) = call-Step s.threads (exit code_exit) o.sound tt in
      rw e (_, refl, same_keys-IsOwned s t' o sound (directory_keys _ _ d))

  task_yield-Served : (s : ThreadMachine Heap) → IsOwned s → Served s task_yield
  unfolding serve call after_call
  task_yield-Served s o =
      let (t', e, sound, d) = call-Step s.threads yield o.sound tt in
      rw e (_, refl, same_keys-IsOwned s t' o sound (directory_keys _ _ d))

  task_getid-Served : (s : ThreadMachine Heap) → IsOwned s → Served s task_getid
  unfolding serve sys_task_getid
  task_getid-Served s o =
      let live : (s.threads.running == 0) ≡ false = ground (arith, o.sound.live) in
      rw (live, o.sound.found) (s, refl, o)

  -- A block that is given out to a new thread.
  made-IsOwned :
      (s : ThreadMachine Heap) (t' : Threads) (h : Heap) (new tid : ℕ)
      → IsOwned s
      → IsSound t'
      → keys t'.tasks ≡ keys s.threads.tasks ++ record { addr = new; tid = tid } ∷ []
      → ((a : ℕ) → used h a ≡ (if a == new then true else used s.heap a))
      → others new ≡ false
      → IsOwned (record { threads = t'; heap = h })
  made-IsOwned s t' h new tid o sound listed given foreign =
      let has =
        λ (a : ℕ). has_addr-append a (keys s.threads.tasks) (record { addr = new; tid = tid }) in
      record {
        sound = sound;
        blocks = λ a. rw (listed, has a, given a) (ground (arith, o.blocks a));
        apart = λ a e.
            rw (listed, has a)
              (ground (arith, o.apart a e, foreign, differ others a new e foreign));
      }

  -- The block of a thread that is taken back.
  taken-IsOwned :
      (s : ThreadMachine Heap) (t' : Threads) (h : Heap) (a : ℕ)
      → IsOwned s
      → IsSound t'
      → keys t'.tasks ≡ without_addr a (keys s.threads.tasks)
      → has_addr a (keys s.threads.tasks) ≡ true
      → ((b : ℕ) → used h b ≡ (if b == a then false else used s.heap b))
      → IsOwned (record { threads = t'; heap = h })
  taken-IsOwned s t' h a o sound left listed returned =
      let has = λ (b : ℕ).
        has_addr-without_addr s.threads.next_tid a b (keys s.threads.tasks) o.sound.distinct in
      let own : others a ≡ false = elim (Bool-cases (others a)) [
        | inl t ↦ absurd (not_both (sym listed ∙ o.apart a t))
        | inr f ↦ f
      ] in
      record {
        sound = sound;
        blocks = λ b.
            rw (left, has b, returned b)
              (elim (Bool-cases (b == a)) [
                | inl t ↦ let same : b ≡ a = ground (arith, t) in rw t (sym (ap others same ∙ own))
                | inr f ↦ rw f (o.blocks b)
              ]);
        apart = λ b e. rw (left, has b) (ground (arith, o.apart b e));
      }

  module _ (law : IsOwner tlsf used writable) where
    -- The two words pushed change no block.
    pub push-used :
        (h : Heap) (sp pv a : ℕ)
        → writable h (sub32 sp 4) ≡ true
        → writable h (sub32 sp 8) ≡ true
        → used (push_all tlsf (pushes sp pv) h) a ≡ used h a
    unfolding push_all
    push-used h sp pv a first second =
        law.stored (sub32 sp 8) 0 (tlsf.store (sub32 sp 4) pv h) a
          (law.still (sub32 sp 4) pv h (sub32 sp 8) first ∙ second)
        ∙ law.stored (sub32 sp 4) pv h a first

    -- The words at the top of a new block.
    pub top_words :
        (h : Heap)
        → let (heap, new) = tlsf.tlsf_malloc page_size h in
          new ≢ 0
          → (writable heap (sub32 (u32 (new + page_size)) 4) ≡ true)
            × (writable heap (sub32 (u32 (new + page_size)) 8) ≡ true)
    top_words h memory =
        let (heap, new) = tlsf.tlsf_malloc page_size h in
        let fits = law.fits page_size h memory in
        let first : sub32 (u32 (new + page_size)) 4 ≡ new + 4092 = omega (arith, fits) in
        let second : sub32 (u32 (new + page_size)) 8 ≡ new + 4088 = omega (arith, fits) in
        (
          ap (λ x. writable heap x) first ∙ law.in_block page_size 4092 h memory (omega arith),
          ap (λ x. writable heap x) second ∙ law.in_block page_size 4088 h memory (omega arith),
        )

    stack_words :
        (s : ThreadMachine Heap) (tos pv : ℕ)
        → IsAllowed tlsf writable s (task_create tos pv)
        → let (heap, new) = tlsf.tlsf_malloc page_size s.heap in
          not (bit_and tos 3 == 0) ≡ false
          → (new == 0) ≡ false
          → (writable heap (sub32 (stack_of new tos) 4) ≡ true)
            × (writable heap (sub32 (stack_of new tos) 8) ≡ true)
    unfolding pushes_user kmalloc
    stack_words s tos pv (harmless, next, words) aligned memory = elim (Bool-cases (tos == 0)) [
      | inl t ↦ rw t (top_words s.heap (λ e. ground (arith, memory, e)))
      | inr f ↦ rw f (words (rw (aligned, memory, f) refl))
    ]

    task_create-Served :
        (s : ThreadMachine Heap) (tos pv : ℕ)
        → IsOwned s
        → IsAllowed tlsf writable s (task_create tos pv)
        → Served s (task_create tos pv)
    unfolding serve create_thread kmalloc push_all
    task_create-Served s tos pv o allowed =
        let (harmless, next, words) = allowed in
        let h = (tlsf.tlsf_malloc page_size s.heap).0 in
        let new = (tlsf.tlsf_malloc page_size s.heap).1 in
        elim (Bool-cases (not (bit_and tos 3 == 0))) [
          | inl unaligned ↦ rw (harmless, unaligned) (s, refl, o)
          | inr aligned ↦
              rw (harmless, aligned)
                (elim (Bool-cases (new == 0)) [
                  | inl empty ↦ (
                    _,
                    refl,
                    let (same, nothing) = no_memory s.threads new tos pv aligned empty in
                        rw (same, nothing)
                          (record {
                            sound = o.sound;
                            blocks = λ a.
                                law.refused page_size s.heap a (ground (arith, empty)) ∙ o.blocks a;
                            apart = o.apart;
                          }),
                  )
                  | inr memory ↦
                      let some_block : new ≢ 0 = λ e. ground (arith, memory, e) in
                      let unused = law.unused page_size s.heap some_block in
                      let fresh : has_addr new (keys s.threads.tasks) ≡ false =
                        ground (arith, o.blocks new, unused) in
                      let foreign : others new ≡ false = ground (arith, o.blocks new, unused) in
                      let (sound, listed) =
                        create-IsSound s.threads new tos pv o.sound fresh aligned memory harmless
                          next in
                      let (first, second) = stack_words s tos pv allowed aligned memory in
                      let writes = some_memory s.threads new tos pv aligned memory in
                      (
                        _,
                        refl,
                        made-IsOwned s _ _ new s.threads.next_tid o sound listed
                            (λ a.
                              ap (λ ws. used (push_all tlsf ws h) a) writes
                              ∙ push-used h (stack_of new tos) pv a first second
                              ∙ law.given page_size s.heap a some_block)
                            foreign,
                      )
                ])
        ]

    task_wait-Served :
        (s : ThreadMachine Heap) (tid : ℤ) (want : Bool) (wait : ℕ)
        → IsOwned s
        → IsAllowed tlsf writable s (task_wait tid want wait)
        → Served s (task_wait tid want wait)
    unfolding serve collect release kfree
    task_wait-Served s tid want wait o h =
        let (r, done, sound, outcome) = sys_task_wait-Waited s.threads tid want wait o.sound h in
        elim outcome [
          | inl nothing ↦ rw (done, nothing) (s, refl, o)
          | inr (a, listed, freed, left) ↦
              let given : used s.heap a ≡ true = rw (o.blocks a, listed) refl in
              rw (done, freed)
                (
                  _,
                  refl,
                  taken-IsOwned s r.threads (tlsf.tlsf_free a s.heap) a o sound left listed
                      (λ b. law.returned a s.heap b given),
                )
        ]

    pub serve-Served :
        (s : ThreadMachine Heap) (c : Request)
        → IsOwned s
        → IsAllowed tlsf writable s c
        → Served s c
    serve-Served s (task_create tos pv) o h = task_create-Served s tos pv o h
    serve-Served s (task_exit code_exit) o h = task_exit-Served s code_exit o
    serve-Served s (task_wait tid want wait) o h = task_wait-Served s tid want wait o h
    serve-Served s task_getid o h = task_getid-Served s o
    serve-Served s task_yield o h = task_yield-Served s o
