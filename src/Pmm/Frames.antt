-- ===== src/Pmm/Frames.antt =====
-- The list of free frames, and writes that leave it alone.
use flurry.Prelude.{ℕ, ◌+◌, ◌^◌, ◌<◌, ◌≤◌, ◌≡◌, ◌∙◌, ◌⊎◌, List, [], ◌∷◌, arith, All}
use flurry.Prelude.Memory.{Mem}
use flurry.Pmm.{next_of}

-- The pages linked from `p` on are those of these frames.
abbrev pub FreeList : Mem → ℕ → ℕ → List ℕ → Type 0
FreeList m hhdm p [] = p ≡ 0
FreeList m hhdm p (a ∷ rest) = (p ≡ a + hhdm) × (m p ≡ a) × FreeList m hhdm (m (next_of p)) rest

abbrev pub InMap : ℕ → ℕ → Type 0
InMap hhdm a = (0 < a + hhdm) × (a + hhdm + 4096 < 2 ^ 64)

abbrev pub Apart : ℕ → ℕ → Type 0
Apart a b = (a + 4096 ≤ b) ⊎ (b + 4096 ≤ a)

-- Every frame is in the direct map, and no two of them overlap.
abbrev pub Frames : ℕ → List ℕ → Type 0
Frames hhdm [] = Unit
Frames hhdm (a ∷ rest) = InMap hhdm a × All (Apart a) rest × Frames hhdm rest

-- The page of a frame apart from `a` is read the same in two memories that differ in that page only.
pub FreeList-frame :
    (m m' : Mem) (hhdm a p : ℕ) (xs : List ℕ)
    → FreeList m hhdm p xs
    → Frames hhdm xs
    → All (Apart a) xs
    → ((w : ℕ) → (w < a + hhdm) ⊎ (a + hhdm + 4096 ≤ w) → m' w ≡ m w)
    → FreeList m' hhdm p xs
FreeList-frame m m' hhdm a p [] l s apart same = l
FreeList-frame m m' hhdm a p (b ∷ rest) l s apart same =
    let first : m' p ≡ m p = same p (ground (arith, l.0)) in
    let second : m' (next_of p) ≡ m (next_of p) = same (next_of p) (ground (arith, l.0)) in
    (
      l.0,
      first ∙ l.1,
      rw second (FreeList-frame m m' hhdm a (m (next_of p)) rest l.2 s.2 apart.1 same),
    )
