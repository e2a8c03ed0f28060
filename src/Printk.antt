-- ===== src/Printk.antt =====
-- kernel/printk.c. `vsnprintf`, a copy of another project's function, is a parameter: given the size of
-- the buffer and the format with its arguments, it gives what the buffer then holds and the number it
-- returns.
use Prim.Native.String.{String}
use epos_arm.Base.{refl, ℕ, ◌≡◌, ◌<◌, Option, some, List, ◌++◌, arith}
use mathlib.Core.Option
use epos_arm.Base.Word.{ℤ, pos}
use epos_arm.Device.{Answers, World}
use epos_arm.Strings.Ends.{IsString}
use epos_arm.Uart.{uart_write}
use epos_arm.Uart.Output.{bytes, output, IsReady, write_loop-output}

-- The argument `fmt` with those behind it: a literal, or a string in memory.
pub data Format : Type 0 where
  literal : String → List ℕ → Format
  buffer : (mem : ℕ → ℕ) → (a : ℕ) → Format

abbrev pub Formatter : Type 0
Formatter = (count : ℕ) → Format → (ℕ → ℕ) × ℤ

-- The world after `printk`, and the value returned. The loop writes the buffer as `uart_write` does.
unfoldable pub printk : Answers → (fuel : ℕ) → Formatter → Format → World → Option (World × ℤ)
printk answers fuel vsnprintf fmt w =
    let (buf, i) = vsnprintf 128 fmt in
    Option.map (λ w'. (w', i)) (uart_write answers fuel buf 0 i w)

-- `vsnprintf` leaves a string that fits the buffer, and returns its length.
pub record IsFormatter (vsnprintf : Formatter) : Type 0 where
  pub length : ℕ → Format → ℕ
  pub ret : (count : ℕ) (fmt : Format) → (vsnprintf count fmt).1 ≡ pos (length count fmt)
  pub string : (count : ℕ) (fmt : Format) → IsString (vsnprintf count fmt).0 0 (length count fmt)
  pub fits : (count : ℕ) (fmt : Format) → 0 < count → length count fmt < count

-- The text that `printk` prints.
abbrev pub text_of : Formatter → (length : ℕ) → Format → List ℕ
text_of vsnprintf length fmt = bytes (vsnprintf 128 fmt).0 0 length

-- With a device that takes characters and a `vsnprintf` that does what it promises, and more fuel than
-- the reads that the device may need, `printk` returns the length of the formatted text, fewer than 128
-- bytes, and has sent that text, each byte once and in order.
pub printk-output :
    (answers : Answers) (n fuel : ℕ) (vsnprintf : Formatter) (fmt : Format) (w : World)
    → IsReady answers n
    → n < fuel
    → (f : IsFormatter vsnprintf)
    → (w' : World) × (printk answers fuel vsnprintf fmt w ≡ some (w', pos (f.length 128 fmt)))
      × (output w'.log ≡ output w.log ++ text_of vsnprintf (f.length 128 fmt) fmt)
      × (f.length 128 fmt < 128)
unfolding printk uart_write
printk-output answers n fuel vsnprintf fmt w live enough f =
    let (w', done, out) =
      write_loop-output answers n fuel live enough (vsnprintf 128 fmt).0 0 (f.length 128 fmt) w in
    (w', rw (f.ret 128 fmt, done) refl, out, f.fits 128 fmt (omega arith))
