-- ===== src/Kmalloc/Layout/Suffix.antt =====
-- The part of a row that starts at one chunk, and rows changed from there on.
use flurry.Prelude.{
  ℕ, ◌+◌, ◌<◌, ◌≤◌, ◌≡◌, sym, ◌∙◌, ◌⊎◌, inl, inr, Bool, true, false, ◌||◌, List, [], ◌∷◌, arith,
  ◌==◌, ==_iff, if◌then◌else◌, Bool-cases, All,
}
use mathlib.Core.Path.{subst}
use flurry.Prelude.Memory.{Mem}
use flurry.Kmalloc.{heap_end}
use flurry.Kmalloc.Meta.{IsMeta-frame}
use flurry.Kmalloc.Freelist.{has}
use flurry.Kmalloc.Layout.{
  Chunk, used, unused, size_of, footer_of, Footed, Footed-any, Tiles, free_at, words,
  free_at-within,
}
use flurry.Kmalloc.Layout.Bags.{count}

-- The chunk that starts at `b`, with those behind it; none if no chunk starts there.
abbrev pub chunks_from : ℕ → ℕ → List Chunk → List Chunk
chunks_from b a [] = []
chunks_from b a (c ∷ cs) = if b == a then c ∷ cs else chunks_from b (a + size_of c) cs

-- The row with that part changed.
abbrev pub replace : ℕ → (List Chunk → List Chunk) → ℕ → List Chunk → List Chunk
replace b new a [] = []
replace b new a (c ∷ cs) = if b == a then new (c ∷ cs) else c ∷ replace b new (a + size_of c) cs

-- Whether a chunk starts at `b`.
abbrev pub starts : ℕ → ℕ → List Chunk → Bool
starts b a [] = false
starts b a (c ∷ cs) = (b == a) || starts b (a + size_of c) cs

pub starts-free_at :
    (b a : ℕ) (cs : List Chunk) → has b (free_at a cs) ≡ true → starts b a cs ≡ true
starts-free_at b a [] h = h
starts-free_at b a (used sz ∷ cs) h = ground (arith, starts-free_at b (a + sz) cs)
starts-free_at b a (unused sz ∷ cs) h = ground (arith, starts-free_at b (a + sz) cs)

-- Whether a free chunk ends at `b`.
abbrev pub prev_at : ℕ → ℕ → Bool → List Chunk → Bool
prev_at b a prev [] = prev
prev_at b a prev (used sz ∷ cs) = if b == a then prev else prev_at b (a + sz) false cs
prev_at b a prev (unused sz ∷ cs) = if b == a then prev else prev_at b (a + sz) true cs

module _ (m : Mem) (b : ℕ) where
  pub starts-le :
      (a : ℕ) (prev : Bool) (cs : List Chunk) → Tiles m a prev cs → starts b a cs ≡ true → a ≤ b
  starts-le a prev [] t s = cc
  starts-le a prev (used sz ∷ cs) t s = ground (arith, starts-le (a + sz) false cs t.2)
  starts-le a prev (unused sz ∷ cs) t s = ground (arith, starts-le (a + sz) true cs t.2)

  pub chunks_from-Tiles :
      (a : ℕ) (prev : Bool) (cs : List Chunk)
      → Tiles m a prev cs
      → starts b a cs ≡ true
      → Tiles m b (prev_at b a prev cs) (chunks_from b a cs)
  chunks_from-Tiles a prev [] t s = cc
  chunks_from-Tiles a prev (used sz ∷ cs) t s = elim (Bool-cases (b == a)) [
    | inl e ↦ rw e (subst (λ x. Tiles m x prev (used sz ∷ cs)) (sym ((==_iff b a).0 e)) t)
    | inr e ↦ rw e (chunks_from-Tiles (a + sz) false cs t.2 (rw e at s))
  ]
  chunks_from-Tiles a prev (unused sz ∷ cs) t s = elim (Bool-cases (b == a)) [
    | inl e ↦ rw e (subst (λ x. Tiles m x prev (unused sz ∷ cs)) (sym ((==_iff b a).0 e)) t)
    | inr e ↦ rw e (chunks_from-Tiles (a + sz) true cs t.2 (rw e at s))
  ]

  -- A footer before the change stays.
  Footed-replace :
      (m' : Mem) (p sz : ℕ) (new : List Chunk → List Chunk) (a : ℕ) (cs : List Chunk)
      → starts b a cs ≡ true
      → m' (footer_of p sz) ≡ m (footer_of p sz)
      → Footed m p sz cs
      → Footed m' p sz (replace b new a cs)
  Footed-replace m' p sz new a [] s same f = cc
  Footed-replace m' p sz new a (c ∷ cs) s same f = Footed-any m' p sz _ (same ∙ f)

  -- A change from `b` on that leaves the words before it is a change of the row from `b` on.
  pub replace-Tiles :
      (m' : Mem) (new : List Chunk → List Chunk) (a : ℕ) (prev : Bool) (cs : List Chunk)
      → Tiles m a prev cs
      → starts b a cs ≡ true
      → All (λ w. w < b → m' w ≡ m w) (words a cs)
      → Tiles m' b (prev_at b a prev cs) (new (chunks_from b a cs))
      → Tiles m' a prev (replace b new a cs)
  replace-Tiles m' new a prev [] t s same l = cc
  replace-Tiles m' new a prev (used sz ∷ cs) t s same l = elim (Bool-cases (b == a)) [
    | inl e ↦
        rw e (subst (λ x. Tiles m' x prev (new (used sz ∷ cs))) ((==_iff b a).0 e) (rw e at l))
    | inr e ↦
        let s' : starts b (a + sz) cs ≡ true = rw e at s in
        let le = starts-le (a + sz) false cs t.2 s' in
        rw e (
          IsMeta-frame m m' (same.0 (omega arith)) t.0,
          t.1,
          replace-Tiles m' new (a + sz) false cs t.2 s' same.1 (rw e at l),
        )
  ]
  replace-Tiles m' new a prev (unused sz ∷ cs) t s same l = elim (Bool-cases (b == a)) [
    | inl e ↦
        rw e (subst (λ x. Tiles m' x prev (new (unused sz ∷ cs))) ((==_iff b a).0 e) (rw e at l))
    | inr e ↦
        let s' : starts b (a + sz) cs ≡ true = rw e at s in
        let le = starts-le (a + sz) true cs t.2 s' in
        rw e (
          IsMeta-frame m m' (same.0 (omega arith)) t.0,
          t.1,
          replace-Tiles m' new (a + sz) true cs t.2 s' same.1.1 (rw e at l),
          Footed-replace m' a sz new (a + sz) cs s' (same.1.0 (omega arith)) t.3,
          t.4,
        )
  ]

module _ {ℓ} (P : ℕ → Type ℓ) where
  pub chunks_from-words :
      (b a : ℕ) (cs : List Chunk)
      → starts b a cs ≡ true
      → All P (words a cs)
      → All P (words b (chunks_from b a cs))
  chunks_from-words b a [] s all = cc
  chunks_from-words b a (used sz ∷ cs) s all = elim (Bool-cases (b == a)) [
    | inl e ↦ rw e (subst (λ x. All P (words x (used sz ∷ cs))) (sym ((==_iff b a).0 e)) all)
    | inr e ↦ rw e (chunks_from-words b (a + sz) cs (rw e at s) all.1)
  ]
  chunks_from-words b a (unused sz ∷ cs) s all = elim (Bool-cases (b == a)) [
    | inl e ↦ rw e (subst (λ x. All P (words x (unused sz ∷ cs))) (sym ((==_iff b a).0 e)) all)
    | inr e ↦ rw e (chunks_from-words b (a + sz) cs (rw e at s) all.1.1)
  ]

-- The free chunks of a changed row.
pub count-replace :
    (x b : ℕ) (new : List Chunk → List Chunk) (a : ℕ) (cs : List Chunk)
    → starts b a cs ≡ true
    → count x (free_at a (replace b new a cs)) + count x (free_at b (chunks_from b a cs))
      ≡ count x (free_at a cs) + count x (free_at b (new (chunks_from b a cs)))
count-replace x b new a [] s = cc
count-replace x b new a (used sz ∷ cs) s = elim (Bool-cases (b == a)) [
  | inl e ↦ rw (e, (==_iff b a).0 e) (omega arith)
  | inr e ↦ rw e (count-replace x b new (a + sz) cs (rw e at s))
]
count-replace x b new a (unused sz ∷ cs) s = elim (Bool-cases (b == a)) [
  | inl e ↦ rw (e, (==_iff b a).0 e) (omega arith)
  | inr e ↦ rw e (omega (arith, count-replace x b new (a + sz) cs (rw e at s)))
]

-- At a free chunk's address the part starts with it.
pub chunks_from-free :
    (b a : ℕ) (cs : List Chunk)
    → starts b a cs ≡ true
    → (m : Mem) (prev : Bool) → Tiles m a prev cs
    → has b (free_at a cs) ≡ true
    → (sz : ℕ) × (rest : List Chunk) × (chunks_from b a cs ≡ unused sz ∷ rest)
chunks_from-free b a [] s m prev t h = cc
chunks_from-free b a (used sz ∷ cs) s m prev t h =
    let le = starts-le m b (a + sz) false cs t.2 (starts-free_at b (a + sz) cs h) in
    let e : (b == a) ≡ false = ground arith in
    rw e (chunks_from-free b (a + sz) cs (rw e at s) m false t.2 h)
chunks_from-free b a (unused sz ∷ cs) s m prev t h = elim (Bool-cases (b == a)) [
  | inl e ↦ (sz, cs, rw e)
  | inr e ↦ rw e (chunks_from-free b (a + sz) cs (rw e at s) m true t.2 (rw e at h))
]

-- The size of the first chunk of a row.
abbrev pub head_size : List Chunk → ℕ
head_size [] = 0
head_size (c ∷ cs) = size_of c

-- Free chunks lie before the chunk at `b`, at it, or behind it.
abbrev pub Beside : ℕ → ℕ → ℕ → Type 0
Beside b sz x = (x + 32 ≤ b) ⊎ ((x ≡ b) ⊎ (b + sz ≤ x))

Beside-behind :
    (b sz lo : ℕ) (xs : List ℕ)
    → b + sz ≤ lo
    → All (λ x. (lo ≤ x) × (x + 32 ≤ heap_end)) xs
    → All (Beside b sz) xs
Beside-behind b sz lo [] h all = tt
Beside-behind b sz lo (x ∷ xs) h all = (inr (inr (omega arith)), Beside-behind b sz lo xs h all.1)

pub free_at-Beside :
    (m : Mem) (b a : ℕ) (prev : Bool) (cs : List Chunk)
    → Tiles m a prev cs
    → starts b a cs ≡ true
    → All (Beside b (head_size (chunks_from b a cs))) (free_at a cs)
free_at-Beside m b a prev [] t s = cc
free_at-Beside m b a prev (used sz ∷ cs) t s = elim (Bool-cases (b == a)) [
  | inl e ↦
      rw (e, (==_iff b a).0 e)
        (Beside-behind a sz (a + sz) _ (omega arith) (free_at-within m (a + sz) false cs t.2))
  | inr e ↦ rw e (free_at-Beside m b (a + sz) false cs t.2 (rw e at s))
]
free_at-Beside m b a prev (unused sz ∷ cs) t s = elim (Bool-cases (b == a)) [
  | inl e ↦
      let here : head_size (chunks_from b a (unused sz ∷ cs)) ≡ sz = rw e in
      let q : b ≡ a = (==_iff b a).0 e in
      subst (λ n. All (Beside b n) (free_at a (unused sz ∷ cs))) (sym here)
        (
          inr (inl (sym q)),
          Beside-behind b sz (a + sz) _ (omega arith) (free_at-within m (a + sz) true cs t.2),
        )
  | inr e ↦
      let s' : starts b (a + sz) cs ≡ true = rw e at s in
      let there : head_size (chunks_from b a (unused sz ∷ cs))
          ≡ head_size (chunks_from b (a + sz) cs) =
        rw e in
      subst (λ n. All (Beside b n) (free_at a (unused sz ∷ cs))) (sym there)
        (
          inl (omega (arith, starts-le m b (a + sz) true cs t.2 s')),
          free_at-Beside m b (a + sz) true cs t.2 s',
        )
]
