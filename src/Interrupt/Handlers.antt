-- ===== src/Interrupt/Handlers.antt =====
-- That the handlers of kernel/interrupt.c return, and what they send.
use Prim.Native.String.{String}
use epos_arm.Base.{◌+◌, ℕ, ap, ◌∙◌, List, [], ◌∷◌, ◌++◌, arith, Option, ◌>>=◌}
use mathlib.Core.List.{append-nil}
use epos_arm.Device.{Answers, World, mmio_write, put}
use epos_arm.Uart.Output.{output, output-append, sent_by}
use epos_arm.Printk.{literal, Formatter}
use epos_arm.Timer.{armtimer_base}
use epos_arm.Interrupt.{
  print, pause, common_undef_handler, common_swi_handler, common_res_handler, common_fiq_handler,
  common_irq_handler, common_pref_handler,
}
use epos_arm.Interrupt.Returns.{Says, Says-bind, Says-nil, IsAlive, text, print-Says, pause-Says}
use epos_arm.Interrupt.Abort.{fault_text, print_fault-Says}

module _ (answers : Answers) (fuel : ℕ) (vsnprintf : Formatter)
    (a : IsAlive answers fuel vsnprintf) where
  -- A step returns, and sends what `printk` makes of a literal.
  abbrev pub Sends : String → Option World → World → Type 0
  Sends s = Says (text answers fuel vsnprintf a (literal s []))

  -- A pause of half a second and a text.
  pause-print-Sends :
      (s : String) (w : World)
      → Sends s
          (pause answers fuel vsnprintf 500 w >>= print answers fuel vsnprintf (literal s []))
          w
  pause-print-Sends s w =
      Says-bind [] _ _ _ w (pause-Says answers fuel vsnprintf a 500 w (omega arith))
        (print-Says answers fuel vsnprintf a (literal s []))

  irq-Sends :
      (w : World) → Sends "timer interrupts\r\n" (common_irq_handler answers fuel vsnprintf w) w
  unfolding common_irq_handler mmio_write output sent_by
  irq-Sends w =
      let fmt = literal "timer interrupts\r\n" [] in
      let says = print-Says answers fuel vsnprintf a fmt (mmio_write (armtimer_base + 12) 0x0 w) in
      record {
        after = says.after;
        done = says.done;
        sent =
            says.sent
            ∙ ap (λ (t : List ℕ). t ++ text answers fuel vsnprintf a fmt)
                (output-append w.log (put (armtimer_base + 12) 0x0 ∷ [])
                  ∙ append-nil (output w.log));
      }

  -- The text of the handler of prefetch aborts.
  pub prefetch_text : (mem : ℕ → ℕ) → (temp vaddr code : ℕ) → List ℕ
  prefetch_text mem temp vaddr code =
      text answers fuel vsnprintf a (literal "prefetch interrupts\r\n" [])
      ++ fault_text answers fuel vsnprintf a mem temp vaddr code

  pref-Says :
      (mem : ℕ → ℕ) (temp vaddr code : ℕ) (w : World)
      → Says
          (prefetch_text mem temp vaddr code)
          (common_pref_handler answers fuel vsnprintf mem temp vaddr code w)
          w
  unfolding common_pref_handler prefetch_text
  pref-Says mem temp vaddr code w = Says-nil _ _ w (
      Says-bind _ _ _ _ w
        (Says-bind _ _ _ _ w
          (print-Says answers fuel vsnprintf a (literal "prefetch interrupts\r\n" []) w)
          (print_fault-Says answers fuel vsnprintf a mem temp vaddr code))
        (λ v. pause-Says answers fuel vsnprintf a 5000 v (omega arith)))

  -- With devices that answer in time and a `vsnprintf` that does what it promises, each handler but that of data
  -- aborts returns, and has sent its text and nothing else; the text of that of prefetch aborts has the
  -- address and the code.
  pub handlers-Says :
      (mem : ℕ → ℕ) (temp vaddr code : ℕ) (w : World)
      → Sends "undefine interrupts\r\n" (common_undef_handler answers fuel vsnprintf w) w
        × Sends "swi interrupts\r\n" (common_swi_handler answers fuel vsnprintf w) w
        × Sends "reserved interrupts\r\n" (common_res_handler answers fuel vsnprintf w) w
        × Sends "fiq interrupts\r\n" (common_fiq_handler answers fuel vsnprintf w) w
        × Sends "timer interrupts\r\n" (common_irq_handler answers fuel vsnprintf w) w
        × Says
            (prefetch_text mem temp vaddr code)
            (common_pref_handler answers fuel vsnprintf mem temp vaddr code w)
            w
  unfolding common_undef_handler common_swi_handler common_res_handler common_fiq_handler
  handlers-Says mem temp vaddr code w = (
    pause-print-Sends "undefine interrupts\r\n" w,
    pause-print-Sends "swi interrupts\r\n" w,
    pause-print-Sends "reserved interrupts\r\n" w,
    print-Says answers fuel vsnprintf a (literal "fiq interrupts\r\n" []) w,
    irq-Sends w,
    pref-Says mem temp vaddr code w,
  )
