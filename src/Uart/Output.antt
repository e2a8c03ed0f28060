-- ===== src/Uart/Output.antt =====
-- What the functions of kernel/uart.c send: the values written to the data register, in their order.
use epos_arm.Base.{
  ℕ, zero, suc, ◌+◌, ◌≤◌, ◌<◌, ◌≡◌, refl, ap, sym, ◌∙◌, Bool, true, some, List, [], ◌∷◌, ◌++◌,
  arith, ◌==◌, if◌then◌else◌,
}
use mathlib.Core.List.{append_assoc, append-nil}
use epos_arm.Device.{Answers, Access, get, put, World, mmio_write}
use epos_arm.Device.Poll.{polls, IsWait, poll_until-IsWait}
use epos_arm.Strings.Ends.{IsString, strlen_lem}
use epos_arm.Uart.{
  aux_mu_io_reg, aux_mu_lsr_reg, shows, uart_putc, write_loop, uart_write, uart_puts,
}

-- The `count` bytes of memory from an address on.
unfoldable pub bytes : (mem : ℕ → ℕ) → (a count : ℕ) → List ℕ
bytes mem a zero = []
bytes mem a (suc count) = mem a ∷ bytes mem (a + 1) count

-- What an access sends.
unfoldable pub sent_by : Access → List ℕ
sent_by (get reg) = []
sent_by (put reg value) = if reg == aux_mu_io_reg then value ∷ [] else []

-- What a log sends.
unfoldable pub output : List Access → List ℕ
output [] = []
output (a ∷ rest) = sent_by a ++ output rest

pub output-append : (xs ys : List Access) → output (xs ++ ys) ≡ output xs ++ output ys
unfolding output
output-append [] ys = refl
output-append (x ∷ xs) ys =
    ap (λ (t : List ℕ). sent_by x ++ t) (output-append xs ys)
    ∙ sym (append_assoc (sent_by x) (output xs) (output ys))

output-polls : (reg n : ℕ) → output (polls reg n) ≡ []
unfolding output polls sent_by
output-polls reg zero = refl
output-polls reg (suc n) = output-polls reg n

-- A log with reads behind it sends what it sent before.
output-append-polls : (l : List Access) (reg n : ℕ) → output (l ++ polls reg n) ≡ output l
output-append-polls l reg n =
    output-append l (polls reg n)
    ∙ ap (λ (t : List ℕ). output l ++ t) (output-polls reg n)
    ∙ append-nil (output l)

pub output-get-polls :
    (l : List Access) (reg n : ℕ) → output ((l ++ get reg ∷ []) ++ polls reg n) ≡ output l
unfolding output sent_by
output-get-polls l reg n =
    output-append-polls (l ++ get reg ∷ []) reg n
    ∙ output-append l (get reg ∷ [])
    ∙ append-nil (output l)

-- A busy wait sends nothing.
pub output-IsWait :
    (answers : Answers) (reg : ℕ) (test : ℕ → Bool) (w : World) (k : ℕ) (w' : World)
    → IsWait answers reg test w k w'
    → output w'.log ≡ output w.log
output-IsWait answers reg test w k w' i = ap output i.log ∙ output-append-polls w.log reg (suc k)

-- The device shows again within `n` reads at any time that it takes a character.
abbrev pub IsReady : Answers → (n : ℕ) → Type 0
IsReady answers n =
    (t : ℕ) → (k : ℕ) × (k ≤ n) × (shows 0x20 (answers (t + k) aux_mu_lsr_reg) ≡ true)

-- The character is written once, right after the first read that shows that the device takes one.
pub record IsSent (answers : Answers) (c : ℕ) (w w' : World) : Type 0 where
  pub k : ℕ
  pub ready : World
  pub waited : IsWait answers aux_mu_lsr_reg (shows 0x20) w k ready
  pub written : w' ≡ mmio_write aux_mu_io_reg c ready

module _ (answers : Answers) (n fuel : ℕ) (live : IsReady answers n) (enough : n < fuel) where
  -- With a device that takes characters, `uart_putc` returns, and has written the character once, after a
  -- read that shows that the device takes it.
  pub uart_putc-IsSent :
      (c : ℕ) (w : World)
      → (w' : World) × (uart_putc answers fuel c w ≡ some w') × IsSent answers c w w'
  unfolding uart_putc
  uart_putc-IsSent c w =
      let (m, le, shown) = live w.reads in
      let (k, ready, done, i) =
        poll_until-IsWait answers aux_mu_lsr_reg (shows 0x20) m fuel w shown (omega arith) in
      (
        mmio_write aux_mu_io_reg c ready,
        rw done refl,
        record { k = k; ready = ready; waited = i; written = refl },
      )

  IsSent-output :
      (c : ℕ) (w w' : World) → IsSent answers c w w' → output w'.log ≡ output w.log ++ c ∷ []
  unfolding mmio_write output sent_by
  IsSent-output c w w' s =
      ap (λ (v : World). output v.log) s.written
      ∙ output-append s.ready.log (put aux_mu_io_reg c ∷ [])
      ∙ ap (λ (t : List ℕ). t ++ c ∷ [])
          (output-IsWait answers aux_mu_lsr_reg (shows 0x20) w s.k s.ready s.waited)

  -- The loop of `uart_write` sends the bytes that it is given.
  pub write_loop-output :
      (mem : ℕ → ℕ) (a count : ℕ) (w : World)
      → (w' : World) × (write_loop answers fuel mem a count w ≡ some w')
        × (output w'.log ≡ output w.log ++ bytes mem a count)
  unfolding write_loop bytes
  write_loop-output mem a zero w = (w, refl, sym (append-nil (output w.log)))
  write_loop-output mem a (suc count) w =
      let (w1, done, s) = uart_putc-IsSent (mem a) w in
      let (w2, rest, out) = write_loop-output mem (a + 1) count w1 in
      (
        w2,
        rw done rest,
        out
            ∙ ap (λ (t : List ℕ). t ++ bytes mem (a + 1) count) (IsSent-output (mem a) w w1 s)
            ∙ append_assoc (output w.log) (mem a ∷ []) (bytes mem (a + 1) count),
      )

  -- With a device that takes characters, `uart_puts` returns, and has sent the bytes of the string, each
  -- once and in their order, with more fuel than the string has bytes and than the reads that the device may
  -- need.
  pub uart_puts-output :
      (mem : ℕ → ℕ) (str length : ℕ) (w : World)
      → IsString mem str length
      → length < fuel
      → (w' : World) × (uart_puts answers fuel mem str w ≡ some w')
        × (output w'.log ≡ output w.log ++ bytes mem str length)
  unfolding uart_puts uart_write
  uart_puts-output mem str length w s h =
      rw (strlen_lem mem str length fuel s h) (write_loop-output mem str length w)
