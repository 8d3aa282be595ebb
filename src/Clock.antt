-- ===== src/Clock.antt =====
-- Time: the conversions of kernel/hardware/tsc.c, the busy wait of kernel/time/timer.c, the reading of
-- kernel/acpi/hpet.c and `clamp` of kernel/common.c. A clock is read by its `i`-th reading `clock i`.
pub mod Convert
pub mod Wait
use flurry.Prelude.{ℕ, zero, suc, ◌+◌, ◌/◌, ◌%◌, ◌^◌, ltb, if◌then◌else◌}
use flurry.Prelude.Words.{add64, sub64, mul64}
use flurry.Prelude.Outcome.{Outcome, ok, out_of_fuel}

abbrev pub one_second : ℕ
one_second = 1_000_000_000

unfoldable pub clamp : ℕ → ℕ → ℕ → ℕ
clamp value min max = if ltb value min then min else if ltb max value then max else value

unfoldable pub from_ms : ℕ → ℕ
from_ms ms = mul64 ms 1_000_000

unfoldable pub tsc_ns_to_ticks : ℕ → ℕ → ℕ
tsc_ns_to_ticks tsc_freq time = mul64 tsc_freq time / one_second

unfoldable pub tsc_ticks_to_ns : ℕ → ℕ → ℕ
tsc_ticks_to_ns tsc_freq ticks =
    let quot = ticks / tsc_freq in
    let rem = ticks % tsc_freq in add64 (mul64 quot one_second) (mul64 rem one_second / tsc_freq)

-- The frequency that `tsc_init` measures over ten milliseconds.
unfoldable pub tsc_measure : ℕ → ℕ → ℕ
tsc_measure tsc_start tsc_end = mul64 (sub64 tsc_end tsc_start) 100

unfoldable pub hpet_get_elapsed_ns : ℕ → ℕ → ℕ
hpet_get_elapsed_ns main_counter period = mul64 main_counter (period / 1_000_000)

unfoldable pub hpet_period : ℕ → ℕ
hpet_period capabilities = capabilities / 2 ^ 32

-- The loop of `timer_wait_ns` from reading `i` on: the number of the reading that ends it.
unfoldable pub wait_until : ℕ → (ℕ → ℕ) → ℕ → ℕ → Outcome ℕ
wait_until zero clock i time = out_of_fuel
wait_until (suc rounds) clock i time =
    let rest = wait_until rounds clock (i + 1) time in if ltb (clock i) time then rest else ok i

unfoldable pub timer_wait_ns : ℕ → (ℕ → ℕ) → ℕ → Outcome ℕ
unfolding wait_until
timer_wait_ns rounds clock value = wait_until rounds clock 1 (add64 (clock 0) value)
