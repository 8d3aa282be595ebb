-- ===== src/Kmalloc/InUse.antt =====
-- The chunks in use: their addresses, and the words that belong to their owners.
use flurry.Prelude.{
  ℕ, ◌+◌, ◌<◌, ◌≤◌, ◌≡◌, ap, ◌⊎◌, inl, inr, Bool, true, false, List, [], ◌∷◌, arith, ◌==◌, ==_iff,
  Bool-cases,
}
use flurry.Prelude.Memory.{Mem}
use flurry.Kmalloc.{heap_start}
use flurry.Kmalloc.Freelist.{NotLink}
use flurry.Kmalloc.Layout.{Chunk, used, unused, Tiles, free_at, free_at-within, NotLink-below}
use flurry.Kmalloc.Layout.Bags.{count}
use flurry.Kmalloc.Layout.Suffix.{head_size, chunks_from, replace, starts, starts-le}

abbrev pub used_at : ℕ → List Chunk → List ℕ
used_at a [] = []
used_at a (used sz ∷ cs) = a ∷ used_at (a + sz) cs
used_at a (unused sz ∷ cs) = used_at (a + sz) cs

-- The word at `w` lies behind the header of a chunk in use.
abbrev pub InUse : ℕ → ℕ → List Chunk → Type 0
InUse w a [] = ⊥
InUse w a (used sz ∷ cs) = ((a + 8 ≤ w) × (w < a + sz)) ⊎ InUse w (a + sz) cs
InUse w a (unused sz ∷ cs) = InUse w (a + sz) cs

module _ (m : Mem) (w : ℕ) where
  pub InUse-above :
      (a : ℕ) (prev : Bool) (cs : List Chunk) → Tiles m a prev cs → InUse w a cs → a + 8 ≤ w
  InUse-above a prev [] t u = absurd u
  InUse-above a prev (used sz ∷ cs) t (inl within) = within.0
  InUse-above a prev (used sz ∷ cs) t (inr u) = omega (arith, InUse-above (a + sz) false cs t.2 u)
  InUse-above a prev (unused sz ∷ cs) t u = omega (arith, InUse-above (a + sz) true cs t.2 u)

  -- Memory in use is away from a free chunk and from the word behind it.
  pub InUse-beside :
      (b s : ℕ) (rest : List Chunk) (a : ℕ) (prev : Bool) (cs : List Chunk)
      → Tiles m a prev cs
      → starts b a cs ≡ true
      → chunks_from b a cs ≡ unused s ∷ rest
      → Tiles m (b + s) true rest
      → InUse w a cs
      → (w < b) ⊎ (b + s < w)
  InUse-beside b s rest a prev [] t st here behind u = absurd u
  InUse-beside b s rest a prev (used sz ∷ cs) t st here behind u = elim (Bool-cases (b == a)) [
    | inl e ↦ cc (rw e at here)
    | inr e ↦
        let st' : starts b (a + sz) cs ≡ true = rw e at st in
        elim u [
          | inl within ↦ inl (omega (arith, starts-le m b (a + sz) false cs t.2 st'))
          | inr u' ↦ InUse-beside b s rest (a + sz) false cs t.2 st' (rw e at here) behind u'
        ]
  ]
  InUse-beside b s rest a prev (unused sz ∷ cs) t st here behind u = elim (Bool-cases (b == a)) [
    | inl e ↦
        let q : b ≡ a = (==_iff b a).0 e in
        let r : sz ≡ s = ap head_size (rw e at here) in
        inr (omega (arith, InUse-above (a + sz) true cs t.2 u))
    | inr e ↦ InUse-beside b s rest (a + sz) true cs t.2 (rw e at st) (rw e at here) behind u
  ]

  -- Memory in use is no link of a free chunk.
  pub InUse-NotLink :
      (a : ℕ) (prev : Bool) (cs : List Chunk)
      → heap_start ≤ a
      → Tiles m a prev cs
      → InUse w a cs
      → NotLink w (free_at a cs)
  InUse-NotLink a prev [] lo t u = absurd u
  InUse-NotLink a prev (used sz ∷ cs) lo t (inl within) =
      NotLink-below m w (a + sz) _ (omega arith) (free_at-within m (a + sz) false cs t.2)
  InUse-NotLink a prev (used sz ∷ cs) lo t (inr u) =
      InUse-NotLink (a + sz) false cs (omega arith) t.2 u
  InUse-NotLink a prev (unused sz ∷ cs) lo t u =
      let above = InUse-above (a + sz) true cs t.2 u in
      ((omega arith, omega arith), InUse-NotLink (a + sz) true cs (omega arith) t.2 u)

-- The chunks in use of a changed row.
pub count_used-replace :
    (x b : ℕ) (new : List Chunk → List Chunk) (a : ℕ) (cs : List Chunk)
    → starts b a cs ≡ true
    → count x (used_at a (replace b new a cs)) + count x (used_at b (chunks_from b a cs))
      ≡ count x (used_at a cs) + count x (used_at b (new (chunks_from b a cs)))
count_used-replace x b new a [] s = cc
count_used-replace x b new a (used sz ∷ cs) s = elim (Bool-cases (b == a)) [
  | inl e ↦ rw (e, (==_iff b a).0 e) (omega arith)
  | inr e ↦ rw e (omega (arith, count_used-replace x b new (a + sz) cs (rw e at s)))
]
count_used-replace x b new a (unused sz ∷ cs) s = elim (Bool-cases (b == a)) [
  | inl e ↦ rw (e, (==_iff b a).0 e) (omega arith)
  | inr e ↦ rw e (count_used-replace x b new (a + sz) cs (rw e at s))
]
