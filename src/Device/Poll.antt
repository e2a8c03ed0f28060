-- ===== src/Device/Poll.antt =====
-- How a busy wait ends.
use epos_arm.Base.{
  ℕ, zero, suc, ◌+◌, ◌<◌, ◌≡◌, refl, ap, sym, ◌∙◌, inl, inr, Bool, true, false, some, List, [], ◌∷◌,
  ◌++◌, arith, Bool-cases,
}
use mathlib.Core.List.{append_assoc}
use epos_arm.Device.{Answers, Access, get, World, after_read, poll_until}

-- `n` reads of a register.
unfoldable pub polls : (reg n : ℕ) → List Access
polls reg zero = []
polls reg (suc n) = get reg ∷ polls reg n

-- The wait ends with the first read that passes the test, after `k` that do not.
pub record IsWait (answers : Answers) (reg : ℕ) (test : ℕ → Bool) (w : World) (k : ℕ) (w' : World)
    : Type 0 where
  pub passed : test (answers (w.reads + k) reg) ≡ true
  pub before : (j : ℕ) → j < k → test (answers (w.reads + j) reg) ≡ false
  pub reads : w'.reads ≡ w.reads + suc k
  pub log : w'.log ≡ w.log ++ polls reg (suc k)

module _ (answers : Answers) (reg : ℕ) (test : ℕ → Bool) where
  -- Whether the `j`-th read after `w` passes.
  passes : World → ℕ → Bool
  passes w j = test (answers (w.reads + j) reg)

  passes-suc : (w : World) (j : ℕ) → passes (after_read reg w) j ≡ passes w (suc j)
  unfolding passes
  passes-suc w j = ap (λ (t : ℕ). test (answers t reg)) (omega arith)

  passes-zero : (w : World) → passes w 0 ≡ test (answers w.reads reg)
  unfolding passes
  passes-zero w = ap (λ (t : ℕ). test (answers t reg)) (omega arith)

  one_more :
      (w w' : World) (k : ℕ)
      → test (answers w.reads reg) ≡ false
      → IsWait answers reg test (after_read reg w) k w'
      → IsWait answers reg test w (suc k) w'
  unfolding polls passes
  one_more w w' k fails i = record {
    passed = sym (passes-suc w k) ∙ i.passed;
    before = first_fails i.before;
    reads = omega (arith, i.reads);
    log = i.log ∙ append_assoc w.log (get reg ∷ []) (polls reg (suc k));
  }
    where
      first_fails :
          ((j : ℕ) → j < k → test (answers (w.reads + 1 + j) reg) ≡ false)
          → (j : ℕ) → j < suc k
          → test (answers (w.reads + j) reg) ≡ false
      first_fails f zero h = passes-zero w ∙ fails
      first_fails f (suc j) h = sym (passes-suc w j) ∙ f j (omega arith)

  at_once :
      (w : World)
      → test (answers w.reads reg) ≡ true
      → IsWait answers reg test w 0 (after_read reg w)
  unfolding polls passes
  at_once w t = record {
    passed = passes-zero w ∙ t;
    before = λ j b. absurd (omega arith);
    reads = refl;
    log = refl;
  }

  -- With more fuel than the reads before one that passes the test, the wait ends at the first of these.
  pub poll_until-IsWait :
      (n fuel : ℕ) (w : World)
      → test (answers (w.reads + n) reg) ≡ true
      → n < fuel
      → (k : ℕ) × (w' : World) × (poll_until answers reg test fuel w ≡ some w')
        × IsWait answers reg test w k w'
  unfolding poll_until polls passes
  poll_until-IsWait n zero w passed h = absurd (omega arith)
  poll_until-IsWait zero (suc fuel) w passed h =
      let t = sym (passes-zero w) ∙ passed in rw t (0, after_read reg w, refl, at_once w t)
  poll_until-IsWait (suc n) (suc fuel) w passed h = elim (Bool-cases (test (answers w.reads reg))) [
    | inl t ↦ rw t (0, after_read reg w, refl, at_once w t)
    | inr f ↦
        let (k, w', done, i) =
          poll_until-IsWait n fuel (after_read reg w) (passes-suc w n ∙ passed) (omega arith) in
        rw (f, done) (suc k, w', refl, one_more w w' k f i)
  ]
