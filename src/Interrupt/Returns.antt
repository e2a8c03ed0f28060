-- ===== src/Interrupt/Returns.antt =====
-- That the steps of the handlers of kernel/interrupt.c return, and what they send.
use epos_arm.Base.{
  ℕ, ◌+◌, ◌^◌, ◌≤◌, ◌<◌, ◌≡◌, refl, suc, sym, ap, ◌∙◌, Option, some, List, [], ◌++◌, arith, ◌>>=◌,
}
use mathlib.Core.List.{append_assoc, append-nil}
use epos_arm.Device.{Answers, World}
use epos_arm.Uart.Output.{output, output-get-polls, IsReady}
use epos_arm.Printk.{Format, Formatter, IsFormatter, text_of, printk-output}
use epos_arm.Timer.{timer_cl0}
use epos_arm.Timer.Sleep.{IsClock, sleep-IsSlept}
use epos_arm.Interrupt.{print, pause}

-- A step returns, and sends a text.
pub record Says (text : List ℕ) (o : Option World) (w : World) : Type 0 where
  pub after : World
  pub done : o ≡ some after
  pub sent : output after.log ≡ output w.log ++ text

-- One step after another sends the one text and then the other.
pub Says-bind :
    (s t : List ℕ) (o : Option World) (next : World → Option World) (w : World)
    → Says s o w
    → ((v : World) → Says t (next v) v)
    → Says (s ++ t) (o >>= next) w
Says-bind s t o next w a b =
    let c = b a.after in
    record {
      after = c.after;
      done = rw a.done c.done;
      sent = c.sent ∙ ap (λ (x : List ℕ). x ++ t) a.sent ∙ append_assoc (output w.log) s t;
    }

-- A pause behind a text sends nothing more.
pub Says-nil : (s : List ℕ) (o : Option World) (w : World) → Says (s ++ []) o w → Says s o w
Says-nil s o w a = record {
  after = a.after;
  done = a.done;
  sent = a.sent ∙ ap (λ (x : List ℕ). output w.log ++ x) (append-nil s);
}

-- The serial port takes a character again within `n` reads, the timer shows microseconds that advance by
-- `step` at most, and pass five seconds within the fuel, and `vsnprintf` does what it promises.
pub record IsAlive (answers : Answers) (fuel : ℕ) (vsnprintf : Formatter) : Type 0 where
  pub n : ℕ
  pub ready : IsReady answers n
  pub enough : n < fuel
  pub formatter : IsFormatter vsnprintf
  pub time : ℕ → ℕ
  pub step : ℕ
  pub clock : IsClock answers time step
  pub small : 5000000 + step < 2 ^ 32
  pub last : ℕ
  pub last_bound : last < fuel
  pub late : (s : ℕ) → time s + 5000000 ≤ time (s + 1 + last)

module _ (answers : Answers) (fuel : ℕ) (vsnprintf : Formatter)
    (a : IsAlive answers fuel vsnprintf) where
  -- The text of a format.
  abbrev pub text : Format → List ℕ
  text fmt = text_of vsnprintf (a.formatter.length 128 fmt) fmt

  pub print-Says :
      (fmt : Format) (w : World) → Says (text fmt) (print answers fuel vsnprintf fmt w) w
  unfolding print
  print-Says fmt w =
      let (w', done, out, short) =
        printk-output answers a.n fuel vsnprintf fmt w a.ready a.enough a.formatter in
      record { after = w'; done = rw done refl; sent = out }

  pub pause-Says : (ms : ℕ) (w : World) → ms ≤ 5000 → Says [] (pause answers fuel vsnprintf ms w) w
  unfolding pause
  pause-Says ms w h =
      let (k, w', done, slept) =
        sleep-IsSlept answers a.time a.step a.clock ms fuel a.last w (omega (arith, a.small))
          (omega (arith, a.late w.reads)) a.last_bound in
      record {
        after = w';
        done = rw done refl;
        sent =
            ap output slept.log
            ∙ output-get-polls w.log timer_cl0 (suc k)
            ∙ sym (append-nil (output w.log));
      }
