-- ===== src/Kmalloc/Search.antt =====
-- The search of `kmalloc` along the freelist: it ends within the length of the list, at the first
-- chunk that fits.
use flurry.Prelude.{
  ℕ, zero, suc, ◌+◌, ◌^◌, ◌<◌, ◌≤◌, ◌≡◌, ◌≢◌, refl, ◌⊎◌, inl, inr, true, false, List, [], ◌∷◌,
  arith, ne→==, if◌then◌else◌, Bool-cases, length, All,
}
use flurry.Prelude.Memory.{Mem}
use flurry.Prelude.Outcome.{ok}
use flurry.Kmalloc.{null, get_sz, fits, find_free, next_of}
use flurry.Kmalloc.Freelist.{Linked, Spread, has}
use flurry.Kmalloc.Size.{min_sz}

-- The first chunk of the list that fits, or NULL.
abbrev pub first_fit : Mem → ℕ → List ℕ → ℕ
first_fit m alloc_sz [] = null
first_fit m alloc_sz (x ∷ xs) = if fits alloc_sz (get_sz m x) then x else first_fit m alloc_sz xs

-- On a linked, well-spaced list and with more rounds than it has chunks, the search of `kmalloc`
-- returns the first chunk of the list that fits, or NULL if none does.
pub find_free-first_fit :
    (rounds : ℕ) (m : Mem) (alloc_sz before p : ℕ) (xs : List ℕ)
    → Linked m before p xs
    → Spread xs
    → length xs < rounds
    → find_free rounds m alloc_sz p ≡ ok (first_fit m alloc_sz xs)
unfolding find_free
find_free-first_fit zero m alloc_sz before p xs l s enough = absurd (omega arith)
find_free-first_fit (suc k) m alloc_sz before p [] l s enough = rw l
find_free-first_fit (suc k) m alloc_sz before p (x ∷ rest) l s enough =
    rw (l.0, ne→== x null (omega arith))
      (elim (Bool-cases (fits alloc_sz (get_sz m x))) [
        | inl e ↦ rw e
        | inr e ↦
            rw e (find_free-first_fit k m alloc_sz x (m (next_of x)) rest l.2 s.2 (omega arith))
      ])

-- A listed chunk that fits.
pub record Hit (m : Mem) (alloc_sz : ℕ) (xs : List ℕ) (x : ℕ) : Type 0 where
  pub real : x ≢ null
  pub listed : has x xs ≡ true
  pub fit : fits alloc_sz (get_sz m x) ≡ true

-- Either no chunk fits and the search comes to NULL, or it finds one of the list that fits.
pub first_fit-cases :
    (m : Mem) (alloc_sz : ℕ) (xs : List ℕ)
    → Spread xs
    → ((first_fit m alloc_sz xs ≡ null) × All (λ x. fits alloc_sz (get_sz m x) ≡ false) xs)
      ⊎ Hit m alloc_sz xs (first_fit m alloc_sz xs)
first_fit-cases m alloc_sz [] s = inl (refl, tt)
first_fit-cases m alloc_sz (x ∷ rest) s = elim (Bool-cases (fits alloc_sz (get_sz m x))) [
  | inl e ↦ inr (rw e (record { real = omega arith; listed = ground arith; fit = e }))
  | inr e ↦ elim (first_fit-cases m alloc_sz rest s.2) [
    | inl none_fits ↦ inl (rw e none_fits.0, (e, none_fits.1))
    | inr hit ↦
        inr (rw e (record { real = hit.real; listed = ground (arith, hit.listed); fit = hit.fit }))
  ]
]

-- A chunk that fits is of the size wanted or can be split.
pub fits_lem :
    (alloc_sz sz : ℕ)
    → alloc_sz + 32 < 2 ^ 64
    → fits alloc_sz sz ≡ true
    → (sz ≡ alloc_sz) ⊎ (alloc_sz + 32 ≤ sz)
unfolding fits
fits_lem alloc_sz sz h e = ground (arith, min_sz)
