-- ===== src/Prelude/Outcome.antt =====
-- What a call comes to: it returns, it stops the machine (`kpanic` halts for ever), or the rounds
-- that the model allots to a loop are used up.
pub data Outcome {ℓ} (A : Type ℓ) : Type ℓ where
  ok : A → Outcome A
  panic : Outcome A
  out_of_fuel : Outcome A

infixl 5 ◌>>=◌
abbrev pub ◌>>=◌ {ℓ κ} : {A : Type ℓ} {B : Type κ} → Outcome A → (A → Outcome B) → Outcome B
ok a >>= k = k a
panic >>= k = panic
out_of_fuel >>= k = out_of_fuel
