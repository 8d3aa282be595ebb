-- ===== src/Prelude/Bits.antt =====
-- The bit operations of C as arithmetic, for masks and flags at variables.
use Prim.Native.Nat.{
  ℕ, zero, suc, ◌+◌, ◌-◌, ◌*◌, ◌/◌, ◌%◌, ◌^◌, ◌≤◌, ◌<◌, min, max, bit_and, bit_or, digits, bitwise,
  bit_and-bitwise, bit_or-bitwise,
}
use mathlib.Core.Path.{◌≡◌, refl, ap, ◌∙◌}
use native.Mathlib.Nat.{pow-suc, one-le-pow, le_refl}
use native.Mathlib.Omega.{arith}

module _ (z : ℕ → ℕ) (f : ℕ → ℕ → ℕ) where
  -- Any two amounts of fuel that reach the number give the same digits.
  digits_enough : (j k x y : ℕ) → x ≤ j → x ≤ k → digits z f j x y ≡ digits z f k x y
  digits_enough zero zero x y hj hk = refl
  digits_enough zero (suc k) zero y hj hk = refl
  digits_enough zero (suc k) (suc x) y hj hk = absurd (omega arith)
  digits_enough (suc j) zero zero y hj hk = refl
  digits_enough (suc j) zero (suc x) y hj hk = absurd (omega arith)
  digits_enough (suc j) (suc k) zero y hj hk = refl
  digits_enough (suc j) (suc k) (suc x) y hj hk =
      rw (digits_enough j k (suc x / 2) (y / 2) (omega arith) (omega arith))

  bitwise_low :
      (x y : ℕ)
      → bitwise z f (suc x) y ≡ bitwise z f (suc x / 2) (y / 2) * 2 + f (suc x % 2) (y % 2)
  bitwise_low x y =
      omega (arith, digits_enough x (suc x / 2) (suc x / 2) (y / 2) (omega arith) (le_refl _))

-- The lowest digit of `|` and of `&`.
pub bit_or_low : (x y : ℕ) → bit_or x y ≡ bit_or (x / 2) (y / 2) * 2 + max (x % 2) (y % 2)
bit_or_low zero y = simp bit_or-bitwise (omega arith)
bit_or_low (suc x) y = simp bit_or-bitwise (bitwise_low (λ b. b) max x y)

pub bit_and_low : (x y : ℕ) → bit_and x y ≡ bit_and (x / 2) (y / 2) * 2 + min (x % 2) (y % 2)
bit_and_low zero y = simp bit_and-bitwise (omega arith)
bit_and_low (suc x) y = simp bit_and-bitwise (bitwise_low (λ b. 0) min x y)

bit_or-zero_below : (n x : ℕ) → x ≤ n → bit_or x 0 ≡ x
bit_or-zero_below n zero h = refl
bit_or-zero_below zero (suc x) h = absurd (omega arith)
bit_or-zero_below (suc n) (suc x) h =
    omega (arith, bit_or_low (suc x) 0, bit_or-zero_below n (suc x / 2) (omega arith))

pub bit_or-zero : (x : ℕ) → bit_or x 0 ≡ x
bit_or-zero x = bit_or-zero_below x x (le_refl x)

pub zero-bit_or : (x : ℕ) → bit_or 0 x ≡ x
zero-bit_or x = bit_or-bitwise 0 x

bit_and-zero_below : (n x : ℕ) → x ≤ n → bit_and x 0 ≡ 0
bit_and-zero_below n zero h = refl
bit_and-zero_below zero (suc x) h = absurd (omega arith)
bit_and-zero_below (suc n) (suc x) h =
    omega (arith, bit_and_low (suc x) 0, bit_and-zero_below n (suc x / 2) (omega arith))

pub bit_and-zero : (x : ℕ) → bit_and x 0 ≡ 0
bit_and-zero x = bit_and-zero_below x x (le_refl x)

double-pow : (q k : ℕ) → q * 2 ^ suc k ≡ 2 * (q * 2 ^ k)
double-pow q k = omega (arith, ap (λ (t : ℕ). q * t) (pow-suc 2 k))

-- `|` of a value that ends in k zeros with one of k bits.
pub bit_or_join : (k q r : ℕ) → r < 2 ^ k → bit_or (q * 2 ^ k) r ≡ q * 2 ^ k + r
bit_or_join zero q r h = let e : r ≡ 0 = omega arith in rw e (bit_or-zero (q * 2 ^ 0) ∙ omega arith)
bit_or_join (suc k) q r h = ground (
  arith,
  bit_or_low (q * 2 ^ suc k) r,
  double-pow q k,
  bit_or_join k q (r / 2) (omega (arith, pow-suc 2 k)),
  pow-suc 2 k,
)

pub bit_or_join_low : (k q r : ℕ) → r < 2 ^ k → bit_or r (q * 2 ^ k) ≡ q * 2 ^ k + r
bit_or_join_low zero q r h = let e : r ≡ 0 = omega arith in rw e (bit_or-bitwise 0 _ ∙ omega arith)
bit_or_join_low (suc k) q r h = ground (
  arith,
  bit_or_low r (q * 2 ^ suc k),
  double-pow q k,
  bit_or_join_low k q (r / 2) (omega (arith, pow-suc 2 k)),
  pow-suc 2 k,
)

-- `&` of a value split at bit k: with k ones, and with a mask that ends in k zeros.
bit_and_ones_split : (k q r : ℕ) → r < 2 ^ k → bit_and (q * 2 ^ k + r) (2 ^ k - 1) ≡ r
bit_and_ones_split zero q r h = rw bit_and-zero (omega arith)
bit_and_ones_split (suc k) q r h = ground (
  arith,
  bit_and_low (q * 2 ^ suc k + r) (2 ^ suc k - 1),
  double-pow q k,
  pow-suc 2 k,
  bit_and_ones_split k q (r / 2) (omega (arith, pow-suc 2 k)),
)

bit_and_high_split :
    (k q r m : ℕ) → r < 2 ^ k → bit_and (q * 2 ^ k + r) (m * 2 ^ k) ≡ bit_and q m * 2 ^ k
bit_and_high_split zero q r m h =
    let e : q * 2 ^ 0 + r ≡ q = omega arith in
    let e' : m * 2 ^ 0 ≡ m = omega arith in rw (e, e') (omega arith)
bit_and_high_split (suc k) q r m h = ground (
  arith,
  bit_and_low (q * 2 ^ suc k + r) (m * 2 ^ suc k),
  double-pow q k,
  double-pow m k,
  double-pow (bit_and q m) k,
  bit_and_high_split k q (r / 2) m (omega (arith, pow-suc 2 k)),
)

bit_or_high_zero :
    (q r m : ℕ) → r < 2 ^ 0 → bit_or (q * 2 ^ 0 + r) (m * 2 ^ 0) ≡ bit_or q m * 2 ^ 0 + r
bit_or_high_zero q r m h =
    let e : q * 2 ^ 0 + r ≡ q = omega arith in
    let e' : m * 2 ^ 0 ≡ m = omega arith in rw (e, e') (omega arith)

-- `|` of a value split at bit k with one that ends in k zeros.
pub bit_or_high :
    (k q r m : ℕ) → r < 2 ^ k → bit_or (q * 2 ^ k + r) (m * 2 ^ k) ≡ bit_or q m * 2 ^ k + r
bit_or_high zero q r m h = bit_or_high_zero q r m h
bit_or_high (suc k) q r m h = ground (
  arith,
  bit_or_low (q * 2 ^ suc k + r) (m * 2 ^ suc k),
  double-pow q k,
  double-pow m k,
  double-pow (bit_or q m) k,
  bit_or_high k q (r / 2) m (omega (arith, pow-suc 2 k)),
)

-- `|` of two values of k bits has k bits.
pub bit_or_lt : (k x y : ℕ) → x < 2 ^ k → y < 2 ^ k → bit_or x y < 2 ^ k
bit_or_lt zero x y hx hy =
    let e : x ≡ 0 = omega arith in let e' : y ≡ 0 = omega arith in rw (e, e') (omega arith)
bit_or_lt (suc k) x y hx hy = ground (
  arith,
  bit_or_low x y,
  pow-suc 2 k,
  bit_or_lt k (x / 2) (y / 2) (omega (arith, pow-suc 2 k)) (omega (arith, pow-suc 2 k)),
)

-- `&` with k ones is the remainder by `2 ^ k`.
pub bit_and_ones : (k x : ℕ) → bit_and x (2 ^ k - 1) ≡ x % 2 ^ k
bit_and_ones k x = ground (arith, one-le-pow k 2, bit_and_ones_split k (x / 2 ^ k) (x % 2 ^ k))

-- `&` with a mask that ends in k zeros clears the low bits and masks the rest.
pub bit_and_high : (k x m : ℕ) → bit_and x (m * 2 ^ k) ≡ bit_and (x / 2 ^ k) m * 2 ^ k
bit_and_high k x m = ground (arith, one-le-pow k 2, bit_and_high_split k (x / 2 ^ k) (x % 2 ^ k) m)
