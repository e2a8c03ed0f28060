-- ===== src/Thread/Keys.antt =====
-- The addresses and IDs of the threads in the list of kernel/task.c, and what the functions that change
-- the list do to them.
use epos_arm.Base.{
  ℕ, ◌+◌, ◌<◌, ◌≡◌, ◌≢◌, refl, ap, sym, ◌∙◌, inl, inr, Bool, true, false, ◌||◌, Option, none, some,
  List, [], ◌∷◌, ◌++◌, arith, Bool-cases, ◌==◌, if◌then◌else◌,
}
use mathlib.Core.Option
use epos_arm.Base.Word.{pos}
use epos_arm.Thread.{Tcb, tcb_at, modify}
use epos_arm.Thread.Calls.{add_task, remove_task, get_task, find_tid}

-- The address and the ID of a thread.
pub record Key : Type 0 where
  pub addr : ℕ
  pub tid : ℕ

unfoldable pub keys : List Tcb → List Key
keys [] = []
keys (p ∷ ps) = record { addr = p.addr; tid = p.tid } ∷ keys ps

unfoldable pub has_addr : ℕ → List Key → Bool
has_addr a [] = false
has_addr a (k ∷ ks) = k.addr == a || has_addr a ks

unfoldable pub has_tid : ℕ → List Key → Bool
has_tid n [] = false
has_tid n (k ∷ ks) = k.tid == n || has_tid n ks

-- No two threads have the same address or the same ID, and all IDs are below `m`.
pub record IsFresh (m : ℕ) (k : Key) (ks : List Key) : Type 0 where
  pub addr : has_addr k.addr ks ≡ false
  pub tid : has_tid k.tid ks ≡ false
  pub below : k.tid < m

abbrev pub AreDistinct : ℕ → List Key → Type 0
AreDistinct m [] = Unit {0}
AreDistinct m (k ∷ ks) = IsFresh m k ks × AreDistinct m ks

pub some_same : {A : Type 0} (a b : A) → ◌≡◌ {A = Option A} (some a) (some b) → a ≡ b
some_same a b e = ground (arith, e)

keys-cons :
    (p : Tcb) (ps qs : List Tcb) (o : Option (List Tcb))
    → ((rs : List Tcb) → o ≡ some rs → keys rs ≡ keys ps)
    → Option.map (λ rs. p ∷ rs) o ≡ some qs
    → keys qs ≡ keys (p ∷ ps)
unfolding keys
keys-cons p ps qs none h e = absurd (ground arith)
keys-cons p ps qs (some rs) h e = rw (sym (some_same (p ∷ rs) qs e), h rs refl) refl

-- A write that keeps the thread's address and ID keeps all of them.
pub keys-modify :
    (a : ℕ) (f : Tcb → Tcb) (ps qs : List Tcb)
    → ((p : Tcb) → (f p).addr ≡ p.addr)
    → ((p : Tcb) → (f p).tid ≡ p.tid)
    → modify a f ps ≡ some qs
    → keys qs ≡ keys ps
unfolding keys modify
keys-modify a f [] qs h h' e = absurd (ground arith)
keys-modify a f (p ∷ ps) qs h h' e = elim (Bool-cases (p.addr == a)) [
  | inl t ↦ rw (sym (some_same (f p ∷ ps) qs (ground arith)), h p, h' p) refl
  | inr g ↦
      keys-cons p ps qs (modify a f ps) (λ rs e'. keys-modify a f ps rs h h' e') (ground arith)
]

pub keys-add_task :
    (tsk : Tcb) (ps : List Tcb)
    → keys (add_task tsk ps) ≡ keys ps ++ record { addr = tsk.addr; tid = tsk.tid } ∷ []
unfolding keys add_task
keys-add_task tsk [] = refl
keys-add_task tsk (p ∷ ps) = rw (keys-add_task tsk ps) refl

pub has_addr-append :
    (a : ℕ) (ks : List Key) (k : Key) → has_addr a (ks ++ k ∷ []) ≡ (has_addr a ks || k.addr == a)
unfolding has_addr
has_addr-append a [] k = ground arith
has_addr-append a (j ∷ ks) k = ground (arith, has_addr-append a ks k)

has_tid-append :
    (n : ℕ) (ks : List Key) (k : Key) → has_tid n (ks ++ k ∷ []) ≡ (has_tid n ks || k.tid == n)
unfolding has_tid
has_tid-append n [] k = ground arith
has_tid-append n (j ∷ ks) k = ground (arith, has_tid-append n ks k)

-- The next ID is not in use.
pub has_tid-next : (m : ℕ) (ks : List Key) → AreDistinct m ks → has_tid m ks ≡ false
unfolding has_tid
has_tid-next m [] d = refl
has_tid-next m (k ∷ ks) d = ground (arith, has_tid-next m ks d.1, d.0.below)

AreDistinct-append :
    (m a : ℕ) (ks : List Key)
    → AreDistinct m ks
    → has_addr a ks ≡ false
    → AreDistinct (m + 1) (ks ++ record { addr = a; tid = m } ∷ [])
unfolding has_addr has_tid
AreDistinct-append m a [] d h = (record { addr = refl; tid = refl; below = omega arith }, tt)
AreDistinct-append m a (k ∷ ks) d h = (
  record {
    addr = ground (arith, has_addr-append k.addr ks (record { addr = a; tid = m }), d.0.addr, h);
    tid =
        ground (arith, has_tid-append k.tid ks (record { addr = a; tid = m }), d.0.tid, d.0.below);
    below = omega (arith, d.0.below);
  },
  AreDistinct-append m a ks d.1 (ground (arith, h)),
)

-- A new thread with the next ID at an address of no other keeps the threads distinct.
pub AreDistinct-add_task :
    (m : ℕ) (tsk : Tcb) (ps : List Tcb)
    → AreDistinct m (keys ps)
    → tsk.tid ≡ m
    → has_addr tsk.addr (keys ps) ≡ false
    → AreDistinct (m + 1) (keys (add_task tsk ps))
AreDistinct-add_task m tsk ps d e h =
    rw (keys-add_task tsk ps, e) (AreDistinct-append m tsk.addr (keys ps) d h)

has_addr-remove_task :
    (a b : ℕ) (ps : List Tcb)
    → has_addr b (keys ps) ≡ false
    → has_addr b (keys (remove_task a ps)) ≡ false
unfolding keys has_addr remove_task
has_addr-remove_task a b [] h = refl
has_addr-remove_task a b (p ∷ ps) h = ground (arith, h, has_addr-remove_task a b ps)

has_tid-remove_task :
    (a n : ℕ) (ps : List Tcb)
    → has_tid n (keys ps) ≡ false
    → has_tid n (keys (remove_task a ps)) ≡ false
unfolding keys has_tid remove_task
has_tid-remove_task a n [] h = refl
has_tid-remove_task a n (p ∷ ps) h = ground (arith, h, has_tid-remove_task a n ps)

pub AreDistinct-remove_task :
    (m a : ℕ) (ps : List Tcb) → AreDistinct m (keys ps) → AreDistinct m (keys (remove_task a ps))
unfolding keys remove_task
AreDistinct-remove_task m a [] d = d
AreDistinct-remove_task m a (p ∷ ps) d = elim (Bool-cases (p.addr == a)) [
  | inl t ↦ rw t d.1
  | inr f ↦ rw f (
    record {
      addr = has_addr-remove_task a p.addr ps d.0.addr;
      tid = has_tid-remove_task a p.tid ps d.0.tid;
      below = d.0.below;
    },
    AreDistinct-remove_task m a ps d.1,
  )
]

-- An address is in the list exactly when a thread is read there.
pub tcb_at-has_addr : (a : ℕ) (ps : List Tcb) → has_addr a (keys ps) ≡ false → tcb_at a ps ≡ none
unfolding keys has_addr tcb_at
tcb_at-has_addr a [] h = refl
tcb_at-has_addr a (p ∷ ps) h = ground (arith, h, tcb_at-has_addr a ps)

pub has_addr-tcb_at : (a : ℕ) (ps : List Tcb) → tcb_at a ps ≡ none → has_addr a (keys ps) ≡ false
unfolding keys has_addr tcb_at
has_addr-tcb_at a [] h = refl
has_addr-tcb_at a (p ∷ ps) h = ground (arith, h, has_addr-tcb_at a ps)

pub tcb_at-remove_task :
    (m a b : ℕ) (ps : List Tcb)
    → AreDistinct m (keys ps)
    → tcb_at b (remove_task a ps) ≡ (if b == a then none else tcb_at b ps)
unfolding keys remove_task tcb_at
tcb_at-remove_task m a b [] d = ground arith
tcb_at-remove_task m a b (p ∷ ps) d =
    ground (arith, tcb_at-has_addr p.addr ps d.0.addr, tcb_at-remove_task m a b ps d.1)

pub tcb_at-add_task :
    (b : ℕ) (tsk : Tcb) (ps : List Tcb)
    → tcb_at tsk.addr ps ≡ none
    → tcb_at b (add_task tsk ps) ≡ (if b == tsk.addr then some tsk else tcb_at b ps)
unfolding tcb_at add_task
tcb_at-add_task b tsk [] h = ground arith
tcb_at-add_task b tsk (p ∷ ps) h = ground (arith, h, tcb_at-add_task b tsk ps)

pub get_task-has_addr :
    (n : ℕ) (ps : List Tcb) (p : Tcb)
    → get_task (pos n) ps ≡ some p
    → (has_addr p.addr (keys ps) ≡ true) × (p.tid ≡ n)
unfolding find_tid keys has_addr
get_task-has_addr n [] p e = absurd (ground arith)
get_task-has_addr n (q ∷ ps) p e = elim (Bool-cases (q.tid == n)) [
  | inl t ↦
      let same : q ≡ p = some_same q p (ground arith) in
      (ground (arith, ap (λ (t : Tcb). t.addr) same), ground (arith, ap (λ (t : Tcb). t.tid) same))
  | inr f ↦ let (h, h') = get_task-has_addr n ps p (ground arith) in (ground (arith, h), h')
]

not_both : true ≡ false → ⊥
not_both e = ground (arith, e)

-- A thread at no address of the list is not the one that `get_task` finds.
pub get_task-other :
    (n a : ℕ) (ps : List Tcb) (p : Tcb)
    → get_task (pos n) ps ≡ some p
    → has_addr a (keys ps) ≡ false
    → a ≢ p.addr
get_task-other n a ps p e h same =
    let listed = get_task-has_addr n ps p e in
    not_both (sym listed.0 ∙ ap (λ (b : ℕ). has_addr b (keys ps)) (sym same) ∙ h)

-- The thread that `get_task` finds is the one at its address.
pub tcb_at-get_task :
    (m n : ℕ) (ps : List Tcb) (p : Tcb)
    → AreDistinct m (keys ps)
    → get_task (pos n) ps ≡ some p
    → (tcb_at p.addr ps ≡ some p) × (p.tid ≡ n)
unfolding find_tid keys tcb_at
tcb_at-get_task m n [] p d e = absurd (ground arith)
tcb_at-get_task m n (q ∷ ps) p d e = elim (Bool-cases (q.tid == n)) [
  | inl t ↦
      let same : q ≡ p = some_same q p (ground arith) in
      (
        ground (arith, same, ap (λ (r : Tcb). r.addr) same),
        ground (arith, ap (λ (r : Tcb). r.tid) same),
      )
  | inr f ↦
      let (here, tid) = tcb_at-get_task m n ps p d.1 (ground arith) in
      let other = get_task-other n q.addr ps p (ground arith) d.0.addr in
      (ground (arith, here), tid)
]
