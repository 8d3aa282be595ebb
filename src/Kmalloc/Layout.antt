-- ===== src/Kmalloc/Layout.antt =====
-- The heap of kmalloc.c as a row of chunks from `heap_start` to `heap_end`.
pub mod Bags
pub mod Suffix
use flurry.Prelude.{
  ℕ, ◌+◌, ◌-◌, ◌<◌, ◌≤◌, ◌≡◌, ◌≢◌, refl, sym, ◌∙◌, ◌⊎◌, inl, inr, Bool, true, false, ◌&&◌, ◌||◌,
  List, [], ◌∷◌, arith, ◌==◌, if◌then◌else◌, Bool-cases, All,
}
use flurry.Prelude.Memory.{Mem}
use flurry.Kmalloc.{Heap, heap_start, heap_end, prev_of, next_of}
use flurry.Kmalloc.Meta.{IsMeta, IsMeta-frame}
use flurry.Kmalloc.Freelist.{InHeap, Far, Spread, NotLink, has, IsFreelist}

pub data Chunk : Type 0 where
  used : ℕ → Chunk
  unused : ℕ → Chunk

abbrev pub size_of : Chunk → ℕ
size_of (used sz) = sz
size_of (unused sz) = sz

-- The last word of a free chunk.
abbrev pub footer_of : ℕ → ℕ → ℕ
footer_of a sz = a + sz - 8

-- A free chunk with another behind it has its size in its last word. (The last chunk of the heap
-- may go without: `kmalloc_init` writes no footer.)
abbrev pub Footed : Mem → ℕ → ℕ → List Chunk → Type 0
Footed m a sz [] = Unit
Footed m a sz (c ∷ cs) = m (footer_of a sz) ≡ sz

pub Footed-any : (m : Mem) (a sz : ℕ) (cs : List Chunk) → m (footer_of a sz) ≡ sz → Footed m a sz cs
Footed-any m a sz [] e = tt
Footed-any m a sz (c ∷ cs) e = e

pub Footed-frame :
    (m m' : Mem) (a sz : ℕ) (cs : List Chunk)
    → m' (footer_of a sz) ≡ m (footer_of a sz)
    → Footed m a sz cs
    → Footed m' a sz cs
Footed-frame m m' a sz [] e f = tt
Footed-frame m m' a sz (c ∷ cs) e f = e ∙ f

-- From `a` to the end of the heap the memory is this row of chunks: right tags and footers, and room
-- for the links of each. `prev` says whether a free chunk ends at `a`.
abbrev pub Tiles : Mem → ℕ → Bool → List Chunk → Type 0
Tiles m a prev [] = a ≡ heap_end
Tiles m a prev (used sz ∷ cs) = IsMeta m a sz prev false × (32 ≤ sz) × Tiles m (a + sz) false cs
Tiles m a prev (unused sz ∷ cs) =
    IsMeta m a sz prev true
    × (32 ≤ sz)
    × Tiles m (a + sz) true cs
    × Footed m a sz cs
    × (prev ≡ false)

-- The addresses of the free chunks of a row that starts at `a`.
abbrev pub free_at : ℕ → List Chunk → List ℕ
free_at a [] = []
free_at a (used sz ∷ cs) = free_at (a + sz) cs
free_at a (unused sz ∷ cs) = a ∷ free_at (a + sz) cs

-- The words that describe a row: each metadata word and each footer.
abbrev pub words : ℕ → List Chunk → List ℕ
words a [] = []
words a (used sz ∷ cs) = a ∷ words (a + sz) cs
words a (unused sz ∷ cs) = a ∷ footer_of a sz ∷ words (a + sz) cs

pub Tiles-le : (m : Mem) (a : ℕ) (prev : Bool) (cs : List Chunk) → Tiles m a prev cs → a ≤ heap_end
Tiles-le m a prev [] t = omega arith
Tiles-le m a prev (used sz ∷ cs) t = omega (arith, Tiles-le m (a + sz) false cs t.2)
Tiles-le m a prev (unused sz ∷ cs) t = omega (arith, Tiles-le m (a + sz) true cs t.2)

-- A bound on every item can be weakened.
All-above :
    (a b : ℕ) (xs : List ℕ)
    → a ≤ b
    → All (λ x. (b ≤ x) × (x + 8 ≤ heap_end)) xs
    → All (λ x. (a ≤ x) × (x + 8 ≤ heap_end)) xs
All-above a b [] h all = tt
All-above a b (x ∷ xs) h all = ((omega arith, all.0.1), All-above a b xs h all.1)

All-above_room :
    (a b : ℕ) (xs : List ℕ)
    → a ≤ b
    → All (λ x. (b ≤ x) × (x + 32 ≤ heap_end)) xs
    → All (λ x. (a ≤ x) × (x + 32 ≤ heap_end)) xs
All-above_room a b [] h all = tt
All-above_room a b (x ∷ xs) h all = ((omega arith, all.0.1), All-above_room a b xs h all.1)

module _ (m : Mem) where
  -- What a row holds lies in it.
  pub free_at-within :
      (a : ℕ) (prev : Bool) (cs : List Chunk)
      → Tiles m a prev cs
      → All (λ x. (a ≤ x) × (x + 32 ≤ heap_end)) (free_at a cs)
  free_at-within a prev [] t = tt
  free_at-within a prev (used sz ∷ cs) t =
      All-above_room a (a + sz) _ (omega arith) (free_at-within (a + sz) false cs t.2)
  free_at-within a prev (unused sz ∷ cs) t = (
    (omega arith, omega (arith, Tiles-le m (a + sz) true cs t.2)),
    All-above_room a (a + sz) _ (omega arith) (free_at-within (a + sz) true cs t.2),
  )

  pub words-within :
      (a : ℕ) (prev : Bool) (cs : List Chunk)
      → Tiles m a prev cs
      → All (λ x. (a ≤ x) × (x + 8 ≤ heap_end)) (words a cs)
  words-within a prev [] t = tt
  words-within a prev (used sz ∷ cs) t = (
    (omega arith, omega (arith, Tiles-le m (a + sz) false cs t.2)),
    All-above a (a + sz) _ (omega arith) (words-within (a + sz) false cs t.2),
  )
  words-within a prev (unused sz ∷ cs) t = (
    (omega arith, omega (arith, Tiles-le m (a + sz) true cs t.2)),
    (
      (omega arith, omega (arith, Tiles-le m (a + sz) true cs t.2)),
      All-above a (a + sz) _ (omega arith) (words-within (a + sz) true cs t.2),
    ),
  )

  All-Far :
      (a b : ℕ) (xs : List ℕ)
      → a + 32 ≤ b
      → All (λ x. (b ≤ x) × (x + 32 ≤ heap_end)) xs
      → All (Far a) xs
  All-Far a b [] h all = tt
  All-Far a b (x ∷ xs) h all = (inl (omega arith), All-Far a b xs h all.1)

  -- Free chunks do not overlap.
  pub free_at-Spread :
      (a : ℕ) (prev : Bool) (cs : List Chunk)
      → heap_start ≤ a
      → Tiles m a prev cs
      → Spread (free_at a cs)
  free_at-Spread a prev [] h t = tt
  free_at-Spread a prev (used sz ∷ cs) h t = free_at-Spread (a + sz) false cs (omega arith) t.2
  free_at-Spread a prev (unused sz ∷ cs) h t = (
    (h, omega (arith, Tiles-le m (a + sz) true cs t.2)),
    All-Far a (a + sz) _ (omega arith) (free_at-within (a + sz) true cs t.2),
    free_at-Spread (a + sz) true cs (omega arith) t.2,
  )

  pub NotLink-below :
      (w b : ℕ) (xs : List ℕ)
      → w < b + 8
      → All (λ x. (b ≤ x) × (x + 32 ≤ heap_end)) xs
      → NotLink w xs
  NotLink-below w b [] h all = tt
  NotLink-below w b (x ∷ xs) h all = ((omega arith, omega arith), NotLink-below w b xs h all.1)

  NotLink-above :
      (a b : ℕ) (xs ws : List ℕ)
      → a + 32 ≤ b
      → All (λ w. (b ≤ w) × (w + 8 ≤ heap_end)) ws
      → All (λ w. NotLink w xs) ws
      → All (λ w. NotLink w (a ∷ xs)) ws
  NotLink-above a b xs [] h all out = tt
  NotLink-above a b xs (w ∷ ws) h all out =
      (((omega arith, omega arith), out.0), NotLink-above a b xs ws h all.1 out.1)

  -- The words that describe a row are no links of its free chunks.
  pub words-NotLink :
      (a : ℕ) (prev : Bool) (cs : List Chunk)
      → Tiles m a prev cs
      → All (λ w. NotLink w (free_at a cs)) (words a cs)
  words-NotLink a prev [] t = tt
  words-NotLink a prev (used sz ∷ cs) t = (
    NotLink-below a (a + sz) _ (omega arith) (free_at-within (a + sz) false cs t.2),
    words-NotLink (a + sz) false cs t.2,
  )
  words-NotLink a prev (unused sz ∷ cs) t =
      let far = free_at-within (a + sz) true cs t.2 in
      let le = Tiles-le m (a + sz) true cs t.2 in
      (
        ((omega arith, omega arith), NotLink-below a (a + sz) _ (omega arith) far),
        (
          ((omega arith, omega arith), NotLink-below (footer_of a sz) (a + sz) _ (omega arith) far),
          NotLink-above a (a + sz) _ _ (omega arith) (words-within (a + sz) true cs t.2)
              (words-NotLink (a + sz) true cs t.2),
        ),
      )

-- A row stays under changes to other words.
pub Tiles-frame :
    (m m' : Mem) (a : ℕ) (prev : Bool) (cs : List Chunk)
    → Tiles m a prev cs
    → All (λ w. m' w ≡ m w) (words a cs)
    → Tiles m' a prev cs
Tiles-frame m m' a prev [] t same = t
Tiles-frame m m' a prev (used sz ∷ cs) t same =
    (IsMeta-frame m m' same.0 t.0, t.1, Tiles-frame m m' (a + sz) false cs t.2 same.1)
Tiles-frame m m' a prev (unused sz ∷ cs) t same = (
  IsMeta-frame m m' same.0 t.0,
  t.1,
  Tiles-frame m m' (a + sz) true cs t.2 same.1.1,
  Footed-frame m m' a sz cs same.1.0 t.3,
  t.4,
)
