-- ===== src/Interrupt.antt =====
-- kernel/interrupt.c: the handlers that the exception vectors call. `none` is too little fuel for a wait
-- or a string. `mem` is the memory that holds the literal at `temp`, which the handlers overwrite.
pub mod Returns
pub mod Abort
pub mod Handlers
use Prim.Native.String.{String}
use epos_arm.Base.{ℕ, ◌+◌, Option, some, List, [], ◌==◌, if◌then◌else◌, ◌>>=◌}
use mathlib.Core.Option
use epos_arm.Base.Word.{pos}
use epos_arm.Cpu.{vm_prot_read, vm_prot_write}
use epos_arm.Device.{Answers, World, mmio_write}
use epos_arm.Uart.{hex_to_string}
use epos_arm.Printk.{Format, literal, buffer, Formatter, printk}
use epos_arm.Timer.{armtimer_base, sleep}
use epos_arm.Fault.{Machine, Outcome, do_page_fault}

-- The access code that the handler of data aborts passes on.
unfoldable pub abort_code : (code : ℕ) → ℕ
abort_code code = if code == 0x805 then vm_prot_write else vm_prot_read

module _ (answers : Answers) (fuel : ℕ) (vsnprintf : Formatter) where
  -- `printk(fmt)`, its value dropped.
  unfoldable pub print : Format → World → Option World
  print fmt w = Option.map (λ r. r.0) (printk answers fuel vsnprintf fmt w)

  -- `sleep(ms)`, its value dropped.
  unfoldable pub pause : (ms : ℕ) → World → Option World
  pause ms w = Option.map (λ r. r.0) (sleep answers fuel (pos ms) w)

  unfoldable pub common_undef_handler : World → Option World
  common_undef_handler w = pause 500 w >>= print (literal "undefine interrupts\r\n" [])

  unfoldable pub common_swi_handler : World → Option World
  common_swi_handler w = pause 500 w >>= print (literal "swi interrupts\r\n" [])

  unfoldable pub common_res_handler : World → Option World
  common_res_handler w = pause 500 w >>= print (literal "reserved interrupts\r\n" [])

  unfoldable pub common_fiq_handler : World → Option World
  common_fiq_handler w = print (literal "fiq interrupts\r\n" []) w

  -- The write to `ArmTimer->IRQClear`, then the text.
  unfoldable pub common_irq_handler : World → Option World
  common_irq_handler w =
      print (literal "timer interrupts\r\n" []) (mmio_write (armtimer_base + 12) 0x0 w)

  -- What both handlers of aborts print of the address and the code of a fault.
  unfoldable pub print_fault : (mem : ℕ → ℕ) → (temp vaddr code : ℕ) → World → Option World
  print_fault mem temp vaddr code w =
      let mem1 = hex_to_string mem vaddr temp in
      let mem2 = hex_to_string mem1 code temp in
      print (literal "page fault address:" []) w
      >>= print (buffer mem1 temp)
      >>= print (literal "page fault code:" [])
      >>= print (buffer mem2 temp)

  unfoldable pub common_pref_handler : (mem : ℕ → ℕ) → (temp vaddr code : ℕ) → World → Option World
  common_pref_handler mem temp vaddr code w =
      print (literal "prefetch interrupts\r\n" []) w
      >>= print_fault mem temp vaddr code
      >>= pause 5000

  -- The handler of data aborts. The machine and the value of `do_page_fault`, which the code drops, do
  -- not depend on the output.
  unfoldable pub common_dabt_handler :
      (mem : ℕ → ℕ) → (temp vaddr code : ℕ) → Machine → World → Option (World × Outcome)
  common_dabt_handler mem temp vaddr code m w =
      let o = do_page_fault m vaddr (abort_code code) in
      Option.map (λ w'. (w', o))
        (print (literal "data abort interrupts\r\n" []) w
          >>= print_fault mem temp vaddr code
          >>= pause 500)
