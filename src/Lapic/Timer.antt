-- ===== src/Lapic/Timer.antt =====
-- What the timer is programmed with.
use flurry.Prelude.{
  ℕ, ◌+◌, ◌-◌, ◌*◌, ◌/◌, ◌^◌, ◌<◌, ◌≡◌, refl, bit_or, List, [], ◌∷◌, arith, min, max,
}
use flurry.Prelude.Bits.{zero-bit_or, bit_or_join}
use flurry.Prelude.Words.{u32, add64}
use flurry.Clock.{clamp}
use flurry.Lapic.{
  uint32_max, write_reg, ns_to_lapic_ticks, lapic_timer_one_shot, lapic_timer_periodic,
  calibrate_timer, total_ticks,
}

count_lem :
    (calibration ns : ℕ)
    → ns * calibration < 2 ^ 64
    → u32 (clamp (ns_to_lapic_ticks calibration ns) 1 uint32_max)
      ≡ max 1 (min (ns * calibration / 10 ^ 8) uint32_max)
unfolding clamp ns_to_lapic_ticks
count_lem calibration ns small = ground arith

one_shot-eq :
    (base calibration ns vec : ℕ)
    → lapic_timer_one_shot base calibration ns vec
      ≡ (add64 base 0x320, u32 (bit_or 0 vec))
        ∷ (add64 base 0x380, u32 (u32 (clamp (ns_to_lapic_ticks calibration ns) 1 uint32_max)))
        ∷ []
unfolding lapic_timer_one_shot write_reg
one_shot-eq base calibration ns vec = refl

periodic-eq :
    (base calibration ns vec : ℕ)
    → lapic_timer_periodic base calibration ns vec
      ≡ (add64 base 0x320, u32 (bit_or 0x2_0000 vec))
        ∷ (add64 base 0x380, u32 (u32 (clamp (ns_to_lapic_ticks calibration ns) 1 uint32_max)))
        ∷ []
unfolding lapic_timer_periodic write_reg
periodic-eq base calibration ns vec = refl

module _ (base calibration ns vec : ℕ) (small : ns * calibration < 2 ^ 64)
    (vec_small : vec < 2 ^ 8) where
  -- The writes that arm the timer in a mode with the count of `ns`.
  abbrev pub armed : ℕ → List (ℕ × ℕ)
  armed mode =
      (add64 base 0x320, mode + vec)
      ∷ (add64 base 0x380, max 1 (min (ns * calibration / 10 ^ 8) (2 ^ 32 - 1)))
      ∷ []

  -- With a product that does not wrap, both modes of the timer write the vector with the mode's bits,
  -- and as count the ticks of `ns` at the calibrated rate, but at least one and at most what the 32-bit
  -- register holds.
  pub lapic_timer-armed :
      (lapic_timer_one_shot base calibration ns vec ≡ armed 0)
      × (lapic_timer_periodic base calibration ns vec ≡ armed (2 ^ 17))
  lapic_timer-armed =
      let once : u32 (bit_or 0 vec) ≡ 0 + vec = rw (zero-bit_or vec) (omega arith) in
      let again : u32 (bit_or 0x2_0000 vec) ≡ 2 ^ 17 + vec =
        rw (bit_or_join 17 1 vec (omega arith)) (omega arith) in
      let count : u32 (max 1 (min (ns * calibration / 10 ^ 8) (2 ^ 32 - 1)))
          ≡ max 1 (min (ns * calibration / 10 ^ 8) (2 ^ 32 - 1)) =
        ground arith in
      (
        rw (one_shot-eq base calibration ns vec, once, count_lem calibration ns small, count) refl,
        rw (periodic-eq base calibration ns vec, again, count_lem calibration ns small, count) refl,
      )

-- The calibration is the average of the ticks that the five rounds counted down, for 32-bit readings,
-- and fits in 32 bits.
pub calibrate_timer-average :
    (c1 c2 c3 c4 c5 : ℕ)
    → c1 < 2 ^ 32
    → c2 < 2 ^ 32
    → c3 < 2 ^ 32
    → c4 < 2 ^ 32
    → c5 < 2 ^ 32
    → (calibrate_timer c1 c2 c3 c4 c5 ≡ (5 * (2 ^ 32 - 1) - (c1 + c2 + c3 + c4 + c5)) / 5)
      × (calibrate_timer c1 c2 c3 c4 c5 < 2 ^ 32)
unfolding calibrate_timer total_ticks
calibrate_timer-average c1 c2 c3 c4 c5 h1 h2 h3 h4 h5 = (omega arith, omega arith)
