-- ===== src/Thread/Store.antt =====
-- Reads and writes of the threads of kernel/task.c by address.
use epos_arm.Base.{
  ℕ, suc, ◌≡◌, refl, inl, inr, some, List, [], ◌∷◌, arith, Bool-cases, ◌==◌, if◌then◌else◌,
}
use mathlib.Core.Option
use epos_arm.Thread.{Tcb, place_of, tcb_at, modify}

-- The list `qs` is `ps` with `f` applied to the thread at `a`.
pub record IsWrite (a : ℕ) (f : Tcb → Tcb) (ps qs : List Tcb) : Type 0 where
  pub read : (b : ℕ) → tcb_at b qs ≡ (if b == a then Option.map f (tcb_at b ps) else tcb_at b ps)
  pub places : (b : ℕ) → place_of b qs ≡ place_of b ps

-- A write to a thread of the list succeeds, if it keeps the thread's address.
pub modify-IsWrite :
    (a : ℕ) (f : Tcb → Tcb) (ps : List Tcb) (p : Tcb)
    → ((q : Tcb) → (f q).addr ≡ q.addr)
    → tcb_at a ps ≡ some p
    → (qs : List Tcb) × (modify a f ps ≡ some qs) × IsWrite a f ps qs
unfolding tcb_at modify place_of
modify-IsWrite a f [] p keeps e = absurd (ground arith)
modify-IsWrite a f (q ∷ ps) p keeps e = elim (Bool-cases (q.addr == a)) [
  | inl t ↦ rw t (
    f q ∷ ps,
    refl,
    record { read = λ b. ground (arith, keeps q); places = λ b. rw (keeps q) refl },
  )
  | inr g ↦
      let (qs, done, w) = modify-IsWrite a f ps p keeps (ground arith) in
      rw (g, done)
        (
          q ∷ qs,
          refl,
          record { read = λ b. ground (arith, w.read b); places = λ b. rw (w.places b) refl },
        )
]

-- A thread of the list has a place in it.
pub place_of-tcb_at :
    (a : ℕ) (ps : List Tcb) (p : Tcb) → tcb_at a ps ≡ some p → (r : ℕ) × (place_of a ps ≡ some r)
unfolding tcb_at place_of
place_of-tcb_at a [] p e = absurd (ground arith)
place_of-tcb_at a (q ∷ ps) p e = elim (Bool-cases (q.addr == a)) [
  | inl t ↦ (0, rw t refl)
  | inr f ↦ let (r, h) = place_of-tcb_at a ps p (ground arith) in (suc r, rw (f, h) refl)
]

-- A thread of the list is found after a write, by the same address.
pub IsWrite-tcb_at :
    (a : ℕ) (f : Tcb → Tcb) (ps qs : List Tcb) (b : ℕ) (p : Tcb)
    → IsWrite a f ps qs
    → tcb_at b ps ≡ some p
    → (q : Tcb) × (tcb_at b qs ≡ some q)
IsWrite-tcb_at a f ps qs b p w e = elim (Bool-cases (b == a)) [
  | inl t ↦ (f p, ground (arith, w.read b))
  | inr g ↦ (p, ground (arith, w.read b))
]
