-- ===== src/Uart.antt =====
-- kernel/uart.c: the serial port. A wait for the device runs on fuel, the number of reads it may take;
-- `none` is too little of it, or for a string fewer rounds than it has bytes.
pub mod Output
pub mod Digits
use epos_arm.Base.{
  ◌>>=◌, ℕ, zero, suc, ◌+◌, ◌-◌, ◌*◌, ◌/◌, ◌%◌, ◌^◌, Bool, not, Option, none, some, leb, ◌==◌,
  if◌then◌else◌, bit_and, bit_or,
}
use mathlib.Core.Option
use epos_arm.Base.Word.{ℤ, pos, negsuc}
use epos_arm.PageTable.{update}
use epos_arm.Strings.{strlen}
use epos_arm.Device.{Answers, World, after_read, poll_until, mmio_read, mmio_write}

abbrev pub aux_enables : ℕ
aux_enables = 0xC121_5004

abbrev pub aux_mu_io_reg : ℕ
aux_mu_io_reg = 0xC121_5040

abbrev pub aux_mu_ier_reg : ℕ
aux_mu_ier_reg = 0xC121_5044

abbrev pub aux_mu_iir_reg : ℕ
aux_mu_iir_reg = 0xC121_5048

abbrev pub aux_mu_lcr_reg : ℕ
aux_mu_lcr_reg = 0xC121_504C

abbrev pub aux_mu_mcr_reg : ℕ
aux_mu_mcr_reg = 0xC121_5050

abbrev pub aux_mu_lsr_reg : ℕ
aux_mu_lsr_reg = 0xC121_5054

abbrev pub aux_mu_cntl_reg : ℕ
aux_mu_cntl_reg = 0xC121_5060

abbrev pub aux_mu_baud_reg : ℕ
aux_mu_baud_reg = 0xC121_5068

abbrev pub gpfsel1 : ℕ
gpfsel1 = 0xC120_0004

abbrev pub gppud : ℕ
gppud = 0xC120_0094

abbrev pub gppudclk0 : ℕ
gppudclk0 = 0xC120_0098

abbrev pub irq_disable1 : ℕ
irq_disable1 = 0xC100_B21C

abbrev pub irq_enable1 : ℕ
irq_enable1 = 0xC100_B210

-- The value that `uart_init` writes back to GPFSEL1: pins 14 and 15 in mode alt5.
unfoldable pub select_alt5 : ℕ → ℕ
select_alt5 ra =
    let ra1 = bit_and ra (2 ^ 32 - 1 - 7 * 2 ^ 12) in
    let ra2 = bit_or ra1 (2 * 2 ^ 12) in
    let ra3 = bit_and ra2 (2 ^ 32 - 1 - 7 * 2 ^ 15) in bit_or ra3 (2 * 2 ^ 15)

-- The writes of `uart_init` up to the read of GPFSEL1.
unfoldable pub set_up_line : World → World
set_up_line w =
    let w1 = mmio_write irq_disable1 (1 * 2 ^ 29) w in
    let w2 = mmio_write aux_enables 1 w1 in
    let w3 = mmio_write aux_mu_ier_reg 0 w2 in
    let w4 = mmio_write aux_mu_cntl_reg 0 w3 in
    let w5 = mmio_write aux_mu_lcr_reg 3 w4 in
    let w6 = mmio_write aux_mu_mcr_reg 0 w5 in
    let w7 = mmio_write aux_mu_ier_reg 0x5 w6 in
    let w8 = mmio_write aux_mu_iir_reg 0xC6 w7 in mmio_write aux_mu_baud_reg 3254 w8

unfoldable pub uart_init : Answers → World → World
uart_init answers w =
    let (ra, w1) = mmio_read answers gpfsel1 (set_up_line w) in
    let w2 = mmio_write gpfsel1 (select_alt5 ra) w1 in
    let w3 = mmio_write gppud 0 w2 in
    let w4 = mmio_write gppudclk0 (bit_or (1 * 2 ^ 14) (1 * 2 ^ 15)) w3 in
    let w5 = mmio_write gppudclk0 0 w4 in
    let w6 = mmio_write aux_mu_cntl_reg 3 w5 in mmio_write irq_enable1 (1 * 2 ^ 29) w6

-- `mmio_read(reg) & mask`, as a test.
unfoldable pub shows : (mask value : ℕ) → Bool
shows mask value = not (bit_and value mask == 0)

unfoldable pub uart_putc : Answers → (fuel c : ℕ) → World → Option World
uart_putc answers fuel c w =
    Option.map (mmio_write aux_mu_io_reg c) (poll_until answers aux_mu_lsr_reg (shows 0x20) fuel w)

-- The character read, as an `unsigned char`, and the world after it.
unfoldable pub uart_getc : Answers → (fuel : ℕ) → World → Option (ℕ × World)
uart_getc answers fuel w =
    Option.map (λ w'. (answers w'.reads aux_mu_io_reg % 2 ^ 8, after_read aux_mu_io_reg w'))
      (poll_until answers aux_mu_lsr_reg (shows 0x1) fuel w)

-- The loop of `uart_write` at the address `a`, with `left` rounds to go.
pub write_loop : Answers → (fuel : ℕ) → (mem : ℕ → ℕ) → (a left : ℕ) → World → Option World
write_loop answers fuel mem a zero w = some w
write_loop answers fuel mem a (suc left) w =
    uart_putc answers fuel (mem a) w >>= write_loop answers fuel mem (a + 1) left

-- A negative size writes nothing.
unfoldable pub uart_write :
    Answers → (fuel : ℕ) → (mem : ℕ → ℕ) → (buffer : ℕ) → (size : ℤ) → World → Option World
unfolding write_loop
uart_write answers fuel mem buffer (pos n) w = write_loop answers fuel mem buffer n w
uart_write answers fuel mem buffer (negsuc n) w = some w

unfoldable pub uart_puts : Answers → (fuel : ℕ) → (mem : ℕ → ℕ) → (str : ℕ) → World → Option World
uart_puts answers fuel mem str w =
    strlen mem str fuel >>= λ n. uart_write answers fuel mem str (pos n) w

-- `sys_putchar` of kernel/machdep.c: the world after it, and the value returned.
unfoldable pub sys_putchar : Answers → (fuel c : ℕ) → World → Option (World × ℕ)
sys_putchar answers fuel c w = Option.map (λ w'. (w', c)) (uart_putc answers fuel c w)

-- The loop of `IntToString` with `left` rounds to go: the index `3 - i` is `left - 1`.
pub int_loop : (mem : ℕ → ℕ) → (a value left : ℕ) → ℕ → ℕ
unfolding update
int_loop mem a value zero = mem
int_loop mem a value (suc left) =
    int_loop (update mem (a + left) (value % 10 + 0x30)) a (value / 10) left

-- The memory after `IntToString` of a value to the address `a`.
unfoldable pub int_to_string : (mem : ℕ → ℕ) → (value a : ℕ) → ℕ → ℕ
unfolding int_loop
int_to_string mem value a = int_loop mem a value 4

-- The character of a hexadecimal digit.
unfoldable pub hex_digit : ℕ → ℕ
hex_digit temp = if leb temp 0x9 then 0x30 + temp else 0x41 + temp - 0xA

-- The loop of `HexToString` with `left` rounds to go: the index `i` is `left + 1`.
pub hex_loop : (mem : ℕ → ℕ) → (a value left : ℕ) → ℕ → ℕ
unfolding update
hex_loop mem a value zero = mem
hex_loop mem a value (suc left) =
    hex_loop (update mem (a + 2 + left) (hex_digit (bit_and value 0xf))) a (value / 2 ^ 4) left

-- The memory after `HexToString` of a value to the address `a`.
unfoldable pub hex_to_string : (mem : ℕ → ℕ) → (value a : ℕ) → ℕ → ℕ
unfolding update hex_loop
hex_to_string mem value a = hex_loop (update (update mem a 0x30) (a + 1) 0x78) a value 8
