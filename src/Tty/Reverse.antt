-- ===== src/Tty/Reverse.antt =====
-- `reverse` mirrors the string.
use flurry.Prelude.{
  ℕ, zero, suc, ◌+◌, ◌-◌, ◌<◌, ◌≤◌, ◌≡◌, ◌∙◌, refl, ap, ◌&&◌, ltb, leb, if◌then◌else◌, Bool-cases,
  inl, inr, arith, false,
}
use flurry.Prelude.Memory.{Mem, write}
use flurry.Prelude.Outcome.{ok}
use flurry.Tty.{swap_ends}

-- The memory with the bytes from `low` to `high` in the opposite order.
abbrev pub mirrored : Mem → ℕ → ℕ → Mem
mirrored m low high a = if leb low a && leb a high then m (low + high - a) else m a

mirror-step :
    (m : Mem) (str start end a : ℕ)
    → start < end
    → mirrored
        (write (write m (str + start) (m (str + end))) (str + end) (m (str + start)))
        (str + (start + 1))
        (str + (end - 1))
        a
      ≡ mirrored m (str + start) (str + end) a
unfolding write
mirror-step m str start end a h =
    let first : a ≡ str + start → m (str + start + (str + end) - a) ≡ m (str + end) =
      λ e. ap m (omega arith) in
    let last : a ≡ str + end → m (str + start + (str + end) - a) ≡ m (str + start) =
      λ e. ap m (omega arith) in
    let between : m (str + (start + 1) + (str + (end - 1)) - a)
        ≡ m (str + start + (str + end) - a) =
      ap m (omega arith) in
    ground arith

mirror_one : (m : Mem) (low high a : ℕ) → high ≤ low → m a ≡ mirrored m low high a
mirror_one m low high a h =
    let same : a ≡ low → high ≡ low → m (low + high - a) ≡ m a = λ e e'. ap m (omega arith) in
    ground arith

pub swap_ends-mirrored :
    (rounds start end str : ℕ) (m : Mem)
    → end ≤ start + rounds
    → (m' : Mem) × (swap_ends (suc rounds) start end str m ≡ ok m')
      × ((a : ℕ) → m' a ≡ mirrored m (str + start) (str + end) a)
unfolding swap_ends
swap_ends-mirrored zero start end str m enough =
    let over : ltb start end ≡ false = ground arith in
    rw over (m, refl, λ a. mirror_one m (str + start) (str + end) a (omega arith))
swap_ends-mirrored (suc rounds) start end str m enough = elim (Bool-cases (ltb start end)) [
  | inl e ↦
      let rest =
        swap_ends-mirrored rounds (start + 1) (end - 1) str
          (write (write m (str + start) (m (str + end))) (str + end) (m (str + start)))
          (ground arith) in
      rw e (rest.0, rest.1, λ a. rest.2 a ∙ mirror-step m str start end a (ground arith))
  | inr e ↦ rw e (m, refl, λ a. mirror_one m (str + start) (str + end) a (ground arith))
]
