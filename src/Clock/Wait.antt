-- ===== src/Clock/Wait.antt =====
-- The busy wait ends, and not before its time.
use flurry.Prelude.{
  ℕ, zero, suc, ◌+◌, ◌^◌, ◌<◌, ◌≤◌, ◌≡◌, refl, ltb, Bool-cases, inl, inr, arith, ◌==◌, ==_iff, ◌≢◌,
  sym, ap, ltb→lt,
}
use mathlib.Core.Path.{subst}
use flurry.Prelude.Words.{add64}
use flurry.Prelude.Outcome.{ok}
use flurry.Clock.{wait_until, timer_wait_ns}

-- The reading that ends a wait for `time` that looks from reading `i` on: the first that reaches it.
pub record IsFirst (clock : ℕ → ℕ) (i time j : ℕ) : Type 0 where
  pub from : i ≤ j
  pub reached : time ≤ clock j
  pub before : (k : ℕ) → i ≤ k → k < j → clock k < time

wait_until_lem :
    (rounds : ℕ) (clock : ℕ → ℕ) (i time last : ℕ)
    → i ≤ last
    → last < i + rounds
    → time ≤ clock last
    → (j : ℕ) × (wait_until rounds clock i time ≡ ok j) × IsFirst clock i time j
unfolding wait_until
wait_until_lem zero clock i time last low high due = absurd (omega arith)
wait_until_lem (suc rounds) clock i time last low high due =
    elim (Bool-cases (ltb (clock i) time)) [
      | inl e ↦
          let early = ltb→lt (clock i) time e in
          let later : i ≢ last = λ same. ground (arith, ap clock same) in
          let rest =
            wait_until_lem rounds clock (i + 1) time last (omega arith) (omega arith) due in
          rw e (
            rest.0,
            rest.1,
            record {
              from = omega (arith, rest.2.from);
              reached = rest.2.reached;
              before = λ k low' high'. elim (Bool-cases (k == i)) [
                | inl same ↦ subst (λ (m : ℕ). clock m < time) (sym ((==_iff k i).0 same)) early
                | inr apart ↦ rest.2.before k (ground arith) high'
              ];
            },
          )
      | inr e ↦ rw e (
        i,
        refl,
        record {
          from = omega arith;
          reached = ground arith;
          before = λ k low' high'. absurd (omega arith);
        },
      )
    ]

-- With rounds up to a reading that lies `value` nanoseconds behind the first, the wait ends, at the first
-- reading that does, for times that do not wrap.
pub timer_wait_ns-IsFirst :
    (rounds : ℕ) (clock : ℕ → ℕ) (value last : ℕ)
    → clock 0 + value < 2 ^ 64
    → 1 ≤ last
    → last ≤ rounds
    → clock 0 + value ≤ clock last
    → (j : ℕ) × (timer_wait_ns rounds clock value ≡ ok j) × IsFirst clock 1 (clock 0 + value) j
unfolding timer_wait_ns
timer_wait_ns-IsFirst rounds clock value last small low high due =
    let e : add64 (clock 0) value ≡ clock 0 + value = omega arith in
    rw e (wait_until_lem rounds clock 1 (clock 0 + value) last low (omega arith) due)
