-- ===== src/Tests/Devices.antt =====
-- Devices that answer, for kernel/uart.c, kernel/printk.c, kernel/timer.c and kernel/interrupt.c: the
-- serial port is ready at once, and the timer shows a second more at each read.
use epos_arm.Base.{
  ℕ, ◌+◌, ◌*◌, ◌%◌, ◌^◌, ◌<◌, ◌≤◌, ◌≡◌, refl, ◌⊎◌, ◌&&◌, ltb, ◌==◌, if◌then◌else◌, some, [], ◌∷◌,
  ◌++◌, arith,
}
use epos_arm.Base.Word.{pos}
use epos_arm.Device.{Answers, World, mmio_read, mmio_write}
use epos_arm.Uart.{shows, select_alt5, set_up_line, uart_init, hex_to_string}
use epos_arm.Uart.Output.{output, IsReady}
use epos_arm.Uart.Digits.{hexadecimal, hexadecimal-hex_to_string}
use epos_arm.Printk.{literal, Formatter, IsFormatter, printk, text_of, printk-output}
use epos_arm.Timer.{timer_cl0, sleep}
use epos_arm.Timer.Sleep.{IsClock, IsSlept, sleep-IsSlept}
use epos_arm.Interrupt.{
  common_dabt_handler, common_undef_handler, common_swi_handler, common_res_handler,
  common_fiq_handler, common_irq_handler, common_pref_handler,
}
use epos_arm.Interrupt.Handlers.{Sends, prefetch_text, handlers-Says}
use epos_arm.Interrupt.Returns.{Says, IsAlive}
use epos_arm.Interrupt.Abort.{abort_text, dabt-Refused}
use epos_arm.Fault.{Outcome}
use epos_arm.Fault.Outcomes.{Refused}
use epos_arm.Tests.Faults.{machine}

abbrev pub devices : Answers
devices n reg = if reg == timer_cl0 then n * 1000000 % 2 ^ 32 else 0x20

abbrev pub quiet : World
quiet = record { reads = 7; log = [] }

-- A formatter that gives one star, if there is room.
abbrev pub stars : Formatter
stars count fmt =
    (λ i. if ltb 1 count && i == 0 then 0x2A else 0, pos (if ltb 1 count then 1 else 0))

pub stars-IsFormatter : IsFormatter stars
stars-IsFormatter = record {
  length = λ count fmt. if ltb 1 count then 1 else 0;
  ret = λ count fmt. refl;
  string = λ count fmt. record { nul = ground arith; chars = λ i h. ground arith };
  fits = λ count fmt h. ground arith;
}

pub devices-IsReady : IsReady devices 0
unfolding shows
devices-IsReady t = (0, omega arith, refl)

devices-IsClock : IsClock devices (λ n. n * 1000000) 1000000
devices-IsClock = record { shown = λ n. refl; onward = λ n. omega arith; slow = λ n. omega arith }

pub devices-IsAlive : IsAlive devices 9 stars
devices-IsAlive = record {
  n = 0;
  ready = devices-IsReady;
  enough = omega arith;
  formatter = stars-IsFormatter;
  time = λ n. n * 1000000;
  step = 1000000;
  clock = devices-IsClock;
  small = omega arith;
  last = 4;
  last_bound = omega arith;
  late = λ s. omega arith;
}

printk-output_example :
    let fmt = literal "Hi %d" (3 ∷ []) in
    let length = stars-IsFormatter.length 128 fmt in
    (w' : World) × (printk devices 9 stars fmt quiet ≡ some (w', pos length))
    × (output w'.log ≡ output quiet.log ++ text_of stars length fmt)
    × (length < 128)
printk-output_example =
    printk-output devices 0 9 stars (literal "Hi %d" (3 ∷ [])) quiet devices-IsReady (omega arith)
      stars-IsFormatter

hexadecimal-hex_to_string_example :
    let mem' = hex_to_string (λ i. 0) 0xC121_5040 0x200 in
    (mem' 0x200 ≡ 0x30)
    × (mem' (0x200 + 1) ≡ 0x78)
    × (hexadecimal mem' (0x200 + 2) 8 ≡ 0xC121_5040)
    × ((i : ℕ) → (i < 0x200) ⊎ (0x200 + 10 ≤ i) → mem' i ≡ 0)
hexadecimal-hex_to_string_example =
    hexadecimal-hex_to_string (λ i. 0) 0xC121_5040 0x200 (omega arith)

sleep-IsSlept_example :
    (k : ℕ) × (w' : World) × (sleep devices 9 (pos 2500) quiet ≡ some (w', pos 0))
    × IsSlept (λ n. n * 1000000) (2500 * 1000) quiet k w'
sleep-IsSlept_example =
    sleep-IsSlept devices (λ n. n * 1000000) 1000000 devices-IsClock 2500 9 2 quiet (omega arith)
      (omega arith) (omega arith)

dabt-Refused_example :
    (w' : World) × (o : Outcome) × (common_dabt_handler devices 9 stars
        (λ i. 0)
        0x300
        0x40_1234
        0x5
        machine
        quiet
      ≡ some (w', o))
    × Refused machine o
    × (output w'.log
        ≡ output quiet.log
          ++ abort_text devices 9 stars devices-IsAlive (λ i. 0) 0x300 0x40_1234 0x5)
dabt-Refused_example =
    dabt-Refused devices 9 stars devices-IsAlive (λ i. 0) 0x300 0x40_1234 0x5 machine quiet
      (omega arith)

handlers-Says_example :
    Sends devices 9 stars devices-IsAlive "undefine interrupts\r\n"
      (common_undef_handler devices 9 stars quiet)
      quiet
    × Sends devices 9 stars devices-IsAlive "swi interrupts\r\n"
        (common_swi_handler devices 9 stars quiet)
        quiet
    × Sends devices 9 stars devices-IsAlive "reserved interrupts\r\n"
        (common_res_handler devices 9 stars quiet)
        quiet
    × Sends devices 9 stars devices-IsAlive "fiq interrupts\r\n"
        (common_fiq_handler devices 9 stars quiet)
        quiet
    × Sends devices 9 stars devices-IsAlive "timer interrupts\r\n"
        (common_irq_handler devices 9 stars quiet)
        quiet
    × Says
        (prefetch_text devices 9 stars devices-IsAlive (λ i. 0) 0x300 0x40_1234 0x7)
        (common_pref_handler devices 9 stars (λ i. 0) 0x300 0x40_1234 0x7 quiet)
        quiet
handlers-Says_example =
    handlers-Says devices 9 stars devices-IsAlive (λ i. 0) 0x300 0x40_1234 0x7 quiet

-- The mode of the pins 14 and 15 is 2 whatever it was, and that of the others stays.
select_alt5_ones : select_alt5 0xFFFF_FFFF ≡ 0xFFFD_2FFF
unfolding select_alt5
select_alt5_ones = refl

uart_init_reads : (uart_init devices quiet).reads ≡ 8
unfolding uart_init set_up_line mmio_read mmio_write
uart_init_reads = refl
