-- ===== src/Startup/Idle.antt =====
-- The rounds of the idle task of kernel/task.c.
use epos_arm.Base.{ℕ, zero, suc, ◌<◌, refl, sym, List, [], ◌++◌, arith}
use mathlib.Core.List.{append-nil}
use epos_arm.Device.{Answers, World}
use epos_arm.Uart.{uart_puts}
use epos_arm.Uart.Output.{output, bytes, uart_puts-output}
use epos_arm.Printk.{Formatter}
use epos_arm.Strings.Ends.{IsString}
use epos_arm.Interrupt.Returns.{Says, Says-bind, Says-nil, IsAlive, pause-Says}
use epos_arm.Startup.{task_idle}

-- A text `n` times.
unfoldable pub repeated : (n : ℕ) → List ℕ → List ℕ
repeated zero text = []
repeated (suc n) text = text ++ repeated n text

module _ (answers : Answers) (fuel : ℕ) (vsnprintf : Formatter)
    (a : IsAlive answers fuel vsnprintf) where
  puts-Says :
      (mem : ℕ → ℕ) (str length : ℕ) (w : World)
      → IsString mem str length
      → length < fuel
      → Says (bytes mem str length) (uart_puts answers fuel mem str w) w
  puts-Says mem str length w s h =
      let (w', done, sent) =
        uart_puts-output answers a.n fuel a.ready a.enough mem str length w s h in
      record { after = w'; done = done; sent = sent }

  -- With devices that answer in time, and more fuel than the text has bytes, any number of rounds of
  -- `task_idle` returns, and each sends the text once and nothing else.
  task_idle-Says :
      (mem : ℕ → ℕ) (str length n : ℕ) (w : World)
      → IsString mem str length
      → length < fuel
      → Says (repeated n (bytes mem str length)) (task_idle answers fuel vsnprintf mem str n w) w
  unfolding task_idle repeated
  task_idle-Says mem str length zero w s h = record {
    after = w;
    done = refl;
    sent = sym (append-nil (output w.log));
  }
  task_idle-Says mem str length (suc n) w s h =
      Says-bind _ _ _ _ w
        (Says-nil _ _ w (
          Says-bind _ _ _ _ w (puts-Says mem str length w s h)
            (λ v. pause-Says answers fuel vsnprintf a 100 v (omega arith))))
        (λ v. task_idle-Says mem str length n v s h)
