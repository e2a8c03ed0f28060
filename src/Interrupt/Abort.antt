-- ===== src/Interrupt/Abort.antt =====
-- What the handler of data aborts in kernel/interrupt.c does.
use epos_arm.Base.{ℕ, ◌≡◌, ◌≢◌, refl, some, List, [], ◌++◌, arith}
use epos_arm.Device.{Answers, World}
use epos_arm.Uart.{hex_to_string}
use epos_arm.Uart.Output.{output}
use epos_arm.Printk.{literal, buffer, Formatter}
use epos_arm.Fault.{Machine, Outcome, access_code, do_page_fault}
use epos_arm.Fault.Mapping.{IsMissing}
use epos_arm.Fault.Outcomes.{Refused, refused_lem}
use epos_arm.Interrupt.{print_fault, abort_code, common_dabt_handler}
use epos_arm.Interrupt.Returns.{Says, Says-bind, Says-nil, IsAlive, text, print-Says, pause-Says}

-- A code other than that of a write to a missing page is passed on as one whose low bit is set, which
-- `do_page_fault` takes for a fault of protection.
read_not-IsMissing :
    (m : Machine) (vaddr code : ℕ) → code ≢ 0x805 → ¬ IsMissing m vaddr (abort_code code)
unfolding abort_code access_code
read_not-IsMissing m vaddr code ne i = ground (arith, i.invalid)

module _ (answers : Answers) (fuel : ℕ) (vsnprintf : Formatter)
    (a : IsAlive answers fuel vsnprintf) where
  -- The text of `print_fault`.
  pub fault_text : (mem : ℕ → ℕ) → (temp vaddr code : ℕ) → List ℕ
  fault_text mem temp vaddr code =
      ((text answers fuel vsnprintf a (literal "page fault address:" [])
          ++ text answers fuel vsnprintf a (buffer (hex_to_string mem vaddr temp) temp))
        ++ text answers fuel vsnprintf a (literal "page fault code:" []))
      ++ text answers fuel vsnprintf a
          (buffer (hex_to_string (hex_to_string mem vaddr temp) code temp) temp)

  pub print_fault-Says :
      (mem : ℕ → ℕ) (temp vaddr code : ℕ) (w : World)
      → Says
          (fault_text mem temp vaddr code)
          (print_fault answers fuel vsnprintf mem temp vaddr code w)
          w
  unfolding print_fault fault_text
  print_fault-Says mem temp vaddr code w =
      let says = print-Says answers fuel vsnprintf a in
      Says-bind _ _ _ _ w
        (Says-bind _ _ _ _ w
          (Says-bind _ _ _ _ w (says (literal "page fault address:" []) w)
            (says (buffer (hex_to_string mem vaddr temp) temp)))
          (says (literal "page fault code:" [])))
        (says (buffer (hex_to_string (hex_to_string mem vaddr temp) code temp) temp))

  -- The text of the handler of data aborts.
  pub abort_text : (mem : ℕ → ℕ) → (temp vaddr code : ℕ) → List ℕ
  abort_text mem temp vaddr code =
      text answers fuel vsnprintf a (literal "data abort interrupts\r\n" [])
      ++ fault_text mem temp vaddr code

  -- The handler of data aborts returns, sends its text, and leaves the machine as `do_page_fault` does.
  pub dabt-Says :
      (mem : ℕ → ℕ) (temp vaddr code : ℕ) (m : Machine) (w : World)
      → (w' : World) × (common_dabt_handler answers fuel vsnprintf mem temp vaddr code m w
          ≡ some (w', do_page_fault m vaddr (abort_code code)))
        × (output w'.log ≡ output w.log ++ abort_text mem temp vaddr code)
  unfolding common_dabt_handler abort_text
  dabt-Says mem temp vaddr code m w =
      let says = Says-nil (abort_text mem temp vaddr code) _ w (
        Says-bind _ _ _ _ w
          (Says-bind _ _ _ _ w
            (print-Says answers fuel vsnprintf a (literal "data abort interrupts\r\n" []) w)
            (print_fault-Says mem temp vaddr code))
          (λ v. pause-Says answers fuel vsnprintf a 500 v (omega arith))) in
      (says.after, rw says.done refl, says.sent)

  -- With devices that answer in time and a `vsnprintf` that does what it promises, the handler of data
  -- aborts returns, has sent its text with the address and the code, and refuses each abort but that with
  -- the code of a write to a missing page: neither the zones nor the table change.
  pub dabt-Refused :
      (mem : ℕ → ℕ) (temp vaddr code : ℕ) (m : Machine) (w : World)
      → code ≢ 0x805
      → (w' : World) × (o : Outcome) × (common_dabt_handler answers fuel vsnprintf mem temp vaddr
            code m w
          ≡ some (w', o))
        × Refused m o
        × (output w'.log ≡ output w.log ++ abort_text mem temp vaddr code)
  dabt-Refused mem temp vaddr code m w ne =
      let (w', done, sent) = dabt-Says mem temp vaddr code m w in
      (
        w',
        do_page_fault m vaddr (abort_code code),
        done,
        refused_lem m vaddr (abort_code code) (read_not-IsMissing m vaddr code ne),
        sent,
      )
