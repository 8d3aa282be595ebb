-- ===== src/Tests/Console.antt =====
-- Concrete inputs for the theorems on printing.
use flurry.Prelude.{ℕ, ◌+◌, ◌<◌, ◌≡◌, arith}
use flurry.Prelude.Memory.{Mem}
use flurry.Prelude.Outcome.{ok}
use flurry.Tty.{itoa}
use flurry.Tty.Digits.{IsDigit, spelled, itoa-spelled}
use flurry.Prelude.{◌+◌, ◌*◌, ◌≤◌}
use flurry.Tty.Cursor.{tty_init, tty_kputchar, kputs}
use flurry.Tty.Lines.{full_lines, DrawsFrom, kputs-outside}

abbrev blank_buffer : Mem
blank_buffer a = 0

itoa-spelled_example :
    (len : ℕ) × (m' : Mem) × (itoa 256 0xaf 100 16 blank_buffer ≡ ok m')
    × (0 < len)
    × ((j : ℕ) → j < len → IsDigit 16 (m' (100 + j)))
    × (spelled 16 m' 100 len ≡ 0xaf)
    × (m' (100 + len) ≡ 0)
itoa-spelled_example =
    itoa-spelled 256 0xaf 100 16 blank_buffer (omega arith) (omega arith) (omega arith)

-- A console of two characters and two rows, and three lines of text.
kputs-outside_example :
    DrawsFrom
      (kputs (λ c j. 0) (full_lines 3 18 65) (tty_init 18 34))
      (tty_kputchar (λ c j. 0) 65 (kputs (λ c j. 0) (full_lines 3 18 65) (tty_init 18 34)))
      (3 * 17 * 18)
    × (34 * 18 ≤ 3 * 17 * 18)
kputs-outside_example =
    kputs-outside (λ c j. 0) 65 18 34 3 (omega arith) (omega arith) (omega arith) (omega arith)
      (omega arith) (omega arith) (omega arith) (omega arith)
