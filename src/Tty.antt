-- ===== src/Tty.antt =====
-- The printing of numbers, log/tty.c, over memory as bytes at addresses.
pub mod Cursor
pub mod Lines
pub mod Reverse
pub mod Digits
use flurry.Prelude.{ℕ, zero, suc, ◌+◌, ◌-◌, ◌/◌, ◌%◌, ◌==◌, ltb, ◌||◌, if◌then◌else◌}
use flurry.Prelude.Memory.{Mem, write}
use flurry.Prelude.Outcome.{Outcome, ok, out_of_fuel, ◌>>=◌}

-- The loop of `reverse` with `start` and `end`; `end` is below 0 at no time, as a string has a digit.
unfoldable pub swap_ends : ℕ → ℕ → ℕ → ℕ → Mem → Outcome Mem
swap_ends zero start end str m = out_of_fuel
swap_ends (suc rounds) start end str m =
    let rest =
      swap_ends rounds (start + 1) (end - 1) str
        (write (write m (str + start) (m (str + end))) (str + end) (m (str + start))) in
    if ltb start end then rest else ok m

unfoldable pub reverse : ℕ → ℕ → ℕ → Mem → Outcome Mem
unfolding swap_ends
reverse rounds str len m = swap_ends rounds 0 (len - 1) str m

unfoldable pub digit : ℕ → ℕ
digit remainder = if ltb 9 remainder then remainder - 10 + 97 else remainder + 48

-- The loop of `itoa`: the digits from index `i` on, the lowest first, and the index behind them.
unfoldable pub put_digits : ℕ → ℕ → ℕ → ℕ → ℕ → Mem → Outcome (ℕ × Mem)
unfolding digit
put_digits zero value str base i m = out_of_fuel
put_digits (suc rounds) value str base i m =
    let m1 = write m (str + i) (digit (value % base)) in
    let rest = put_digits rounds (value / base) str base (i + 1) m1 in
    if value / base == 0 then ok (i + 1, m1) else rest

unfoldable pub itoa : ℕ → ℕ → ℕ → ℕ → Mem → Outcome Mem
unfolding put_digits reverse
itoa rounds value str base m = if ltb base 2 || ltb 36 base then ok (write m str 0) else do
  (i, m1) ← put_digits rounds value str base 0 m
  m2 ← reverse rounds str i m1
  ok (write m2 (str + i) 0)
