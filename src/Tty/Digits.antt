-- ===== src/Tty/Digits.antt =====
-- The digits that `itoa` prints are those of the number.
use mathlib.Core.Path.{subst}
use flurry.Prelude.{
  ℕ, zero, suc, ◌+◌, ◌-◌, ◌*◌, ◌/◌, ◌%◌, ◌<◌, ◌≤◌, ◌≡◌, ◌∙◌, refl, ap, ◌==◌, ltb, ◌||◌,
  if◌then◌else◌, Bool-cases, ◌⊎◌, inl, inr, arith, sym, false, ==_iff,
}
use native.Mathlib.Nat.{div-add-mod', mod-lt, div-lt_self, zero-div}
use flurry.Prelude.Memory.{Mem, write, write_self, write_ne}
use flurry.Prelude.Outcome.{ok}
use flurry.Tty.{digit, put_digits, reverse, itoa}
use flurry.Tty.Reverse.{mirrored, swap_ends-mirrored}

-- The value of a character as a digit.
abbrev pub digit_value : ℕ → ℕ
digit_value c = if ltb c 58 then c - 48 else c - 87

digit_value-digit : (r : ℕ) → r < 36 → digit_value (digit r) ≡ r
unfolding digit
digit_value-digit r h = ground arith

-- A digit of the base: 0 to 9 or a to z, of a value below the base.
abbrev pub IsDigit : ℕ → ℕ → Type 0
IsDigit base c = (((48 ≤ c) × (c < 58)) ⊎ ((97 ≤ c) × (c < 123))) × (digit_value c < base)

digit-IsDigit : (base r : ℕ) → r < base → base ≤ 36 → IsDigit base (digit r)
unfolding digit
digit-IsDigit base r h most = ground arith

-- The number that `n` characters at `p` spell, the highest digit first.
abbrev pub spelled : ℕ → Mem → ℕ → ℕ → ℕ
spelled base m p zero = 0
spelled base m p (suc n) = spelled base m p n * base + digit_value (m (p + n))

-- The same with the lowest digit first.
abbrev pub counted : ℕ → Mem → ℕ → ℕ → ℕ
counted base m p zero = 0
counted base m p (suc n) = digit_value (m p) + counted base m (p + 1) n * base

spelled-counted :
    (base n : ℕ) (m' m : Mem) (q p : ℕ)
    → ((j : ℕ) → j < n → m' (q + j) ≡ m (p + (n - 1 - j)))
    → spelled base m' q n ≡ counted base m p n
spelled-counted base zero m' m q p same = refl
spelled-counted base (suc n) m' m q p same =
    let low : m' (q + n) ≡ m p = same n (omega arith) ∙ ap m (omega arith) in
    let high =
      spelled-counted base n m' m q (p + 1) (λ j h. same j (omega arith) ∙ ap m (omega arith)) in
    rw (low, high) (omega arith)

positive : (value base : ℕ) → 0 < value / base → 0 < value
positive zero base h = rw (zero-div base) at h
positive (suc value) base h = omega arith

-- The digits put from `i` on.
pub record IsWritten (rounds value str base i : ℕ) (m : Mem) : Type 0 where
  pub count : ℕ
  pub after : Mem
  pub puts : put_digits rounds value str base i m ≡ ok (i + suc count, after)
  pub counts : counted base after (str + i) (suc count) ≡ value
  pub bounded : suc count ≤ rounds
  pub below : (a : ℕ) → a < str + i → after a ≡ m a
  pub shown : (j : ℕ) → j < suc count → IsDigit base (after (str + i + j))

-- A digit, and digits behind it.
shown-suc :
    (base p n : ℕ) (m : Mem)
    → IsDigit base (m p)
    → ((j : ℕ) → j < suc n → IsDigit base (m (p + 1 + j)))
    → (j : ℕ) → j < suc (suc n)
    → IsDigit base (m (p + j))
shown-suc base p n m here behind zero h = subst (λ a. IsDigit base (m a)) (omega arith) here
shown-suc base p n m here behind (suc j) h =
    subst (λ a. IsDigit base (m a)) (omega arith) (behind j (omega arith))

last_digit : (value base : ℕ) → value / base ≡ 0 → value % base ≡ value
last_digit value base h =
    let whole : 0 * base + value % base ≡ value = rw h at (div-add-mod' value base) in omega arith

put_digits-IsWritten :
    (rounds value str base i : ℕ) (m : Mem)
    → 2 ≤ base
    → base ≤ 36
    → value < rounds
    → IsWritten rounds value str base i m
unfolding put_digits
put_digits-IsWritten zero value str base i m two most enough = absurd (omega arith)
put_digits-IsWritten (suc rounds) value str base i m two most enough =
    let r = value % base in
    let m1 = write m (str + i) (digit r) in
    let small : r < 36 = omega (arith, mod-lt value {m = base} (omega arith)) in
    let here : digit_value (m1 (str + i)) ≡ r =
      ap digit_value (write_self m (str + i) (digit r)) ∙ digit_value-digit r small in
    let char : IsDigit base (m1 (str + i)) =
      subst (IsDigit base) (sym (write_self m (str + i) (digit r)))
        (digit-IsDigit base r (mod-lt value {m = base} (omega arith)) most) in
    let kept : (a : ℕ) → a < str + i → m1 a ≡ m a =
      λ a h. write_ne m (str + i) (digit r) a (omega arith) in
    elim (Bool-cases (value / base == 0)) [
      | inl e ↦ record {
        count = 0;
        after = m1;
        puts = rw e refl;
        counts = omega (arith, here, last_digit value base ((==_iff (value / base) 0).0 e));
        bounded = omega arith;
        below = kept;
        shown = λ j h. subst (λ a. IsDigit base (m1 a)) (omega arith) char;
      }
      | inr e ↦
          let pos : 0 < value / base = ground arith in
          let smaller : value / base < value =
            div-lt_self (positive value base pos) (omega arith) in
          let rest =
            put_digits-IsWritten rounds (value / base) str base (i + 1) m1 two most (omega arith) in
          let index : i + 1 + suc rest.count ≡ i + suc (suc rest.count) = omega arith in
          let next : str + (i + 1) ≡ str + i + 1 = omega arith in
          let first : digit_value (rest.after (str + i)) ≡ r =
            ap digit_value (rest.below (str + i) (omega arith)) ∙ here in
          record {
            count = suc rest.count;
            after = rest.after;
            puts = rw e (rw index at rest.puts);
            counts = rw (first, rw next at rest.counts) (omega (arith, div-add-mod' value base));
            bounded = omega (arith, rest.bounded);
            below = λ a h. rest.below a (omega arith) ∙ kept a h;
            shown =
                shown-suc base (str + i) rest.count rest.after
                  (subst (IsDigit base) (sym (rest.below (str + i) (omega arith))) char)
                  (λ j h. subst (λ a. IsDigit base (rest.after a)) (omega arith) (rest.shown j h));
          }
    ]

mirrored_at :
    (m : Mem) (str count j : ℕ)
    → j < suc count
    → mirrored m (str + 0) (str + count) (str + j) ≡ m (str + 0 + (suc count - 1 - j))
mirrored_at m str count j h =
    let place : m (str + 0 + (str + count) - (str + j)) ≡ m (str + 0 + (suc count - 1 - j)) =
      ap m (omega arith) in
    ground arith

-- With more rounds than the number, and a base from 2 to 36, `itoa` returns with a string of at least
-- one character and its NUL: every character is a digit of the base (0 to 9, a to z, of a value below
-- the base), and the digits spell the number in the base, the highest first.
pub itoa-spelled :
    (rounds value str base : ℕ) (m : Mem)
    → 2 ≤ base
    → base ≤ 36
    → value < rounds
    → (len : ℕ) × (m' : Mem) × (itoa rounds value str base m ≡ ok m')
      × (0 < len)
      × ((j : ℕ) → j < len → IsDigit base (m' (str + j)))
      × (spelled base m' str len ≡ value)
      × (m' (str + len) ≡ 0)
unfolding itoa reverse
itoa-spelled zero value str base m two most enough = absurd (omega arith)
itoa-spelled (suc rounds) value str base m two most enough =
    let put = put_digits-IsWritten (suc rounds) value str base 0 m two most enough in
    let turned = swap_ends-mirrored rounds 0 put.count str put.after (omega (arith, put.bounded)) in
    let bad : (ltb base 2 || ltb 36 base) ≡ false = ground arith in
    let m' = write turned.0 (str + suc put.count) 0 in
    let last : suc put.count - 1 ≡ put.count = omega arith in
    let index : 0 + suc put.count ≡ suc put.count = omega arith in
    let puts : put_digits (suc rounds) value str base 0 m ≡ ok (suc put.count, put.after) =
      rw index at put.puts in
    let chars : (j : ℕ)
        → j < suc put.count
        → m' (str + j) ≡ put.after (str + 0 + (suc put.count - 1 - j)) =
      λ j h.
        write_ne turned.0 (str + suc put.count) 0 (str + j) (omega arith)
        ∙ turned.2 (str + j)
        ∙ mirrored_at put.after str put.count j h in
    (
      suc put.count,
      m',
      rw (bad, puts, last, turned.1) refl,
      omega arith,
      λ j h.
          subst (IsDigit base) (sym (chars j h)) (put.shown (suc put.count - 1 - j) (omega arith)),
      spelled-counted base (suc put.count) m' put.after str (str + 0) chars ∙ put.counts,
      write_self turned.0 (str + suc put.count) 0,
    )
