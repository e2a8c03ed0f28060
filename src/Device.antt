-- ===== src/Device.antt =====
-- The registers of devices. The hardware answers a read with a value that the program cannot know:
-- `answers n reg` is what the `n`-th read since the start gives, if it is of the register at `reg`. The
-- log holds the accesses in their order.
pub mod Poll
use epos_arm.Base.{ℕ, zero, suc, ◌+◌, Bool, Option, none, some, List, [], ◌∷◌, ◌++◌, if◌then◌else◌}

abbrev pub Answers : Type 0
Answers = (n reg : ℕ) → ℕ

pub data Access : Type 0 where
  get : (reg : ℕ) → Access
  put : (reg value : ℕ) → Access

pub record World : Type 0 where
  pub reads : ℕ
  pub log : List Access

-- The world after a read.
abbrev pub after_read : (reg : ℕ) → World → World
after_read reg w = record { reads = w.reads + 1; log = w.log ++ get reg ∷ [] }

-- The value read and the world after the read.
unfoldable pub mmio_read : Answers → (reg : ℕ) → World → ℕ × World
mmio_read answers reg w = (answers w.reads reg, after_read reg w)

unfoldable pub mmio_write : (reg value : ℕ) → World → World
mmio_write reg value w = record w { log = w.log ++ put reg value ∷ [] }

-- A busy wait: reads of a register until one gives a value that passes the test. The fuel is the number
-- of reads it may take; `none` is too little of it.
pub poll_until : Answers → (reg : ℕ) → (test : ℕ → Bool) → (fuel : ℕ) → World → Option World
poll_until answers reg test zero w = none
poll_until answers reg test (suc fuel) w =
    let rest = poll_until answers reg test fuel (after_read reg w) in
    if test (answers w.reads reg) then some (after_read reg w) else rest
