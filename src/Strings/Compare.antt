-- ===== src/Strings/Compare.antt =====
-- What `memcmp` says of two areas.
use flurry.Prelude.{
  ℕ, zero, suc, ◌+◌, ◌<◌, ◌≤◌, ◌≡◌, ◌≢◌, inl, inr, ◌==◌, ltb, Bool-cases, ==_iff, sym, arith,
}
use mathlib.Core.Path.{subst}
use flurry.Prelude.Memory.{Mem}
use flurry.Strings.{Sign, minus_one, equal, plus_one, compare_from, memcmp}

-- The first index from `i` on at which the areas differ.
pub record DiffersAt (s1 s2 i k : ℕ) (m : Mem) : Type 0 where
  pub from : i ≤ k
  pub differs : m (s1 + k) ≢ m (s2 + k)
  pub agree : (j : ℕ) → i ≤ j → j < k → m (s1 + j) ≡ m (s2 + j)

-- What each result says of the areas.
pub Says : ℕ → ℕ → ℕ → ℕ → Mem → Sign → Type 0
Says s1 s2 i end m equal = (j : ℕ) → i ≤ j → j < end → m (s1 + j) ≡ m (s2 + j)
Says s1 s2 i end m minus_one =
    (k : ℕ) × (k < end) × (m (s1 + k) < m (s2 + k)) × DiffersAt s1 s2 i k m
Says s1 s2 i end m plus_one =
    (k : ℕ) × (k < end) × (m (s2 + k) < m (s1 + k)) × DiffersAt s1 s2 i k m

agree_from :
    (s1 s2 i j : ℕ) (m : Mem)
    → m (s1 + i) ≡ m (s2 + i)
    → i ≤ j
    → (i + 1 ≤ j → m (s1 + j) ≡ m (s2 + j))
    → m (s1 + j) ≡ m (s2 + j)
agree_from s1 s2 i j m here low later = elim (Bool-cases (j == i)) [
  | inl e ↦ subst (λ (k : ℕ). m (s1 + k) ≡ m (s2 + k)) (sym ((==_iff j i).0 e)) here
  | inr e ↦ later (ground arith)
]

differs_from :
    (s1 s2 i k : ℕ) (m : Mem)
    → m (s1 + i) ≡ m (s2 + i)
    → DiffersAt s1 s2 (i + 1) k m
    → DiffersAt s1 s2 i k m
differs_from s1 s2 i k m here d = record {
  from = omega (arith, d.from);
  differs = d.differs;
  agree = λ j low high. agree_from s1 s2 i j m here low (λ low'. d.agree j low' high);
}

Says-extend :
    (s1 s2 i end : ℕ) (m : Mem) (r : Sign)
    → m (s1 + i) ≡ m (s2 + i)
    → Says s1 s2 (i + 1) end m r
    → Says s1 s2 i end m r
unfolding Says
Says-extend s1 s2 i end m equal here says =
    λ j low high. agree_from s1 s2 i j m here low (λ low'. says j low' high)
Says-extend s1 s2 i end m minus_one here says =
    (says.0, says.1, says.2, differs_from s1 s2 i says.0 m here says.3)
Says-extend s1 s2 i end m plus_one here says =
    (says.0, says.1, says.2, differs_from s1 s2 i says.0 m here says.3)

differs_here : (s1 s2 i : ℕ) (m : Mem) → m (s1 + i) ≢ m (s2 + i) → DiffersAt s1 s2 i i m
differs_here s1 s2 i m ne = record {
  from = omega arith;
  differs = ne;
  agree = λ j low high. absurd (omega arith);
}

compare_from_lem : (n i s1 s2 : ℕ) (m : Mem) → Says s1 s2 i (i + n) m (compare_from n i s1 s2 m)
unfolding compare_from Says
compare_from_lem zero i s1 s2 m = λ j low high. absurd (omega arith)
compare_from_lem (suc n) i s1 s2 m = elim (Bool-cases (m (s1 + i) == m (s2 + i))) [
  | inl e ↦
      let end : i + 1 + n ≡ i + suc n = omega arith in
      rw e (
        Says-extend s1 s2 i (i + suc n) m (compare_from n (i + 1) s1 s2 m)
          ((==_iff (m (s1 + i)) (m (s2 + i))).0 e) (rw end at (compare_from_lem n (i + 1) s1 s2 m)))
  | inr e ↦ elim (Bool-cases (ltb (m (s1 + i)) (m (s2 + i)))) [
    | inl lt ↦ rw (e, lt) (i, omega arith, ground arith, differs_here s1 s2 i m (ground arith))
    | inr lt ↦ rw (e, lt) (i, omega arith, ground arith, differs_here s1 s2 i m (ground arith))
  ]
]

-- `memcmp` answers 0 for areas that agree in all `n` bytes, and else -1 or 1 by the order of the bytes
-- at the first index at which they differ.
pub memcmp-Says : (s1 s2 n : ℕ) (m : Mem) → Says s1 s2 0 n m (memcmp s1 s2 n m)
unfolding memcmp
memcmp-Says s1 s2 n m =
    let end : 0 + n ≡ n = omega arith in rw end at (compare_from_lem n 0 s1 s2 m)
