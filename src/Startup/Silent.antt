-- ===== src/Startup/Silent.antt =====
-- That the initialisation of the devices in kernel/uart.c and kernel/timer.c sends no characters.
use epos_arm.Base.{ℕ, ◌≡◌, refl, ◌∙◌, [], ◌∷◌, ◌*◌, ◌^◌, false, ◌==◌}
use mathlib.Core.List.{append-nil}
use epos_arm.Device.{Answers, World, after_read, get, put, mmio_write, mmio_read}
use epos_arm.Uart.{
  uart_init, set_up_line, aux_mu_io_reg, irq_enable1, irq_disable1, aux_enables, aux_mu_ier_reg,
  aux_mu_cntl_reg, aux_mu_lcr_reg, aux_mu_mcr_reg, aux_mu_iir_reg, aux_mu_baud_reg, gpfsel1, gppud,
  gppudclk0,
}
use epos_arm.Uart.Output.{output, output-append, sent_by}
use epos_arm.Timer.{init_arm_timer}

-- A write to another register than that of the data sends nothing.
silent :
    (reg : ℕ)
    → (reg == aux_mu_io_reg) ≡ false
    → (value : ℕ) (w : World) → output (mmio_write reg value w).log ≡ output w.log
unfolding mmio_write output sent_by
silent reg other value w =
    output-append w.log (put reg value ∷ []) ∙ rw other (append-nil (output w.log))

read-silent : (reg : ℕ) (w : World) → output (after_read reg w).log ≡ output w.log
unfolding output sent_by
read-silent reg w = output-append w.log (get reg ∷ []) ∙ append-nil (output w.log)

set_up_line-silent : (w : World) → output (set_up_line w).log ≡ output w.log
unfolding set_up_line
set_up_line-silent w =
    rw
      (
        silent aux_mu_baud_reg refl,
        silent aux_mu_iir_reg refl,
        silent aux_mu_ier_reg refl,
        silent aux_mu_mcr_reg refl,
        silent aux_mu_lcr_reg refl,
        silent aux_mu_cntl_reg refl,
        silent aux_mu_ier_reg refl,
        silent aux_enables refl,
      )
      (silent irq_disable1 refl (1 * 2 ^ 29) w)

pub uart_init-silent :
    (answers : Answers) (w : World) → output (uart_init answers w).log ≡ output w.log
unfolding uart_init mmio_read
uart_init-silent answers w =
    rw
      (
        silent irq_enable1 refl,
        silent aux_mu_cntl_reg refl,
        silent gppudclk0 refl,
        silent gppudclk0 refl,
        silent gppud refl,
        silent gpfsel1 refl,
        read-silent gpfsel1,
      )
      (set_up_line-silent w)

pub init_arm_timer-silent :
    (load : ℕ) (w : World) → output (init_arm_timer load w).log ≡ output w.log
unfolding init_arm_timer
init_arm_timer-silent load w =
    rw
      (
        silent 0xC100_B408 refl,
        silent 0xC100_B41C refl,
        silent 0xC100_B418 refl,
        silent 0xC100_B400 refl,
        silent 0xC100_B218 refl,
      )
      refl
