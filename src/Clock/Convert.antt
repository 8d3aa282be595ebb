-- ===== src/Clock/Convert.antt =====
-- The conversion from ticks is exact.
use native.Mathlib.Nat.{div-add-mod', mod-lt, div-mul-le_self, lt-div-mul-add, div-lt_iff_lt-mul}
use flurry.Prelude.{ℕ, ◌+◌, ◌*◌, ◌/◌, ◌%◌, ◌^◌, ◌<◌, ◌≤◌, ◌≡◌, arith}
use flurry.Clock.{tsc_ticks_to_ns}

module _ (f ticks : ℕ) (pos : 0 < f) (small : f * 10 ^ 9 < 2 ^ 64)
    (fits : ticks / f * 10 ^ 9 + 10 ^ 9 < 2 ^ 64) where
  part_small : ticks % f * 10 ^ 9 / f < 10 ^ 9
  part_small = (div-lt_iff_lt-mul pos).1 (omega (arith, mod-lt ticks pos))

  no_wrap : tsc_ticks_to_ns f ticks ≡ ticks / f * 10 ^ 9 + ticks % f * 10 ^ 9 / f
  unfolding tsc_ticks_to_ns
  no_wrap = ground (arith, part_small, mod-lt ticks pos)

  -- At a frequency for which a second of nanoseconds fits, and up to the time that 64 bits hold,
  -- `tsc_ticks_to_ns` is the number of nanoseconds that the ticks take, rounded down.
  pub tsc_ticks_to_ns-exact :
      (tsc_ticks_to_ns f ticks * f ≤ ticks * 10 ^ 9)
      × (ticks * 10 ^ 9 < tsc_ticks_to_ns f ticks * f + f)
  tsc_ticks_to_ns-exact =
      let whole = div-add-mod' ticks f in
      let low = div-mul-le_self (ticks % f * 10 ^ 9) f in
      let high : ticks % f * 10 ^ 9 < ticks % f * 10 ^ 9 / f * f + f = lt-div-mul-add pos in
      rw no_wrap (omega arith, omega arith)
