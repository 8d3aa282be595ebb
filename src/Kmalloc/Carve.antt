-- ===== src/Kmalloc/Carve.antt =====
-- The chunk found is carved up: the heap stays well formed, and what is in use is not touched.
use flurry.Prelude.{
  ℕ, ◌+◌, ◌-◌, ◌%◌, ◌<◌, ◌≤◌, ◌≡◌, ◌≢◌, refl, sym, ◌∙◌, ◌⊎◌, inl, inr, true, false, List, [], ◌∷◌,
  arith, ◌==◌, ==_refl, if◌then◌else◌, All,
}
use mathlib.Core.Path.{subst}
use flurry.Prelude.Words.{add64}
use flurry.Kmalloc.{
  Heap, heap_start, heap_end, null, prev_of, next_of, take_whole, split, carve, mark_allocated,
}
use flurry.Kmalloc.Meta.{mark_allocated_ne}
use flurry.Kmalloc.Freelist.{IsFreelist, Spread, Far, NotLink, Linked-touch, has, erase}
use flurry.Kmalloc.Freelist.Unlink.{Removed}
use flurry.Kmalloc.Layout.{Chunk, used, unused, Tiles, words, words-within, Tiles-frame}
use flurry.Kmalloc.Layout.Bags.{count-erase, All-map, All-map₂, All-erase, Far-erase, Spread-erase}
use flurry.Kmalloc.Layout.Suffix.{Beside}
use flurry.Kmalloc.Invariant.{IsHeap, IsHeap-Spread, words-clear, IsChange}
use flurry.Kmalloc.Site.{FreeSite}
use flurry.Kmalloc.Alloc.{
  alloc_here, taken_ne, take_whole_ne, take_whole-head, whole-Tiles, split-Tiles,
}
use flurry.Kmalloc.Alloc.Split.{Parted, split-Parted}

-- No link of another free chunk lies in the chunk at `b`, nor right behind it.
NotLink-inside :
    (b s y : ℕ) (xs : List ℕ)
    → b ≤ y
    → y ≤ b + s
    → All (Beside b s) xs
    → All (Far b) xs
    → Spread xs
    → NotLink y xs
NotLink-inside b s y [] lo hi beside far spread = tt
NotLink-inside b s y (x ∷ xs) lo hi beside far spread =
    ((ground arith, ground arith), NotLink-inside b s y xs lo hi beside.1 far.1 spread.2)

-- What a part of the carving has to leave alone: all but the chunk and the word behind it.
abbrev pub KeptBeside : Heap → List ℕ → ℕ → ℕ → Heap → Type 0
KeptBeside h xs b s h' = (w : ℕ) → (w < b) ⊎ (b + s < w) → NotLink w xs → h'.mem w ≡ h.mem w

module _ {h h1 : Heap} {cs rest : List Chunk} {xs : List ℕ} (b s : ℕ) (v : IsHeap h cs xs)
    (listed : has b xs ≡ true) (site : FreeSite h cs xs b s rest)
    (removed : Removed b h xs h1) where
  abbrev others : List ℕ
  others = erase b xs

  others-Spread : Spread others
  others-Spread = Spread-erase b xs (IsHeap-Spread v)

  others-Far : All (Far b) others
  others-Far = Far-erase b xs (IsHeap-Spread v) listed

  others-Beside : All (Beside b s) others
  others-Beside = All-erase (Beside b s) b xs site.beside

  inside : (y : ℕ) → b ≤ y → y ≤ b + s → NotLink y others
  inside y lo hi = NotLink-inside b s y others lo hi others-Beside others-Far others-Spread

  removed-row : Tiles h1.mem b false (unused s ∷ rest)
  removed-row = Tiles-frame h.mem h1.mem b false (unused s ∷ rest) site.row (
      All-map (λ w. NotLink w xs) (λ w. h1.mem w ≡ h.mem w) removed.same (words b (unused s ∷ rest))
        site.clear)

  abbrev whole : Heap
  whole = record (take_whole b s h1) { mem = mark_allocated (take_whole b s h1).mem b s }

  whole-IsFreelist : IsFreelist whole others
  whole-IsFreelist = record {
    links =
        Linked-touch (take_whole b s h1).mem whole.mem null whole.freelist_head b others
          (λ x ne. mark_allocated_ne (take_whole b s h1).mem b x ne s)
          (Linked-touch h1.mem (take_whole b s h1).mem null whole.freelist_head (b + s) others
            (λ x ne. take_whole_ne h1 b s x site.lo site.hi ne)
            (rw (take_whole-head h1 b s site.lo site.hi) removed.freelist.links)
            (inside (b + s) (omega arith) (omega arith)))
          (inside b (omega arith) (omega arith));
  }

  whole-kept : KeptBeside h xs b s whole
  whole-kept w out clear =
      taken_ne h1 b s w site.lo site.hi (ground arith) (ground arith) ∙ removed.same w clear

  whole-IsChange : IsChange h cs xs b (alloc_here s) whole others
  whole-IsChange = record {
    starts_at = site.starts_at;
    before =
        All-map (λ w. NotLink w xs) (λ w. w < b → whole.mem w ≡ h.mem w)
          (λ w clear lt. whole-kept w (inl lt) clear) _ (words-clear v);
    row = rw (site.alone, site.here, ==_refl s) (whole-Tiles h1 b s site.lo rest removed-row);
    freelist = whole-IsFreelist;
    items = λ x. rw (site.here, ==_refl s) (ground (arith, count-erase x b xs listed));
  }

  -- The chunk is larger than what is wanted.
  module _ (sz : ℕ) (big : 32 ≤ sz) (fit : sz + 32 ≤ s) (aligned : sz % 8 ≡ 0) where
    Far-remain : (ys : List ℕ) → All (Beside b s) ys → All (Far b) ys → All (Far (b + sz)) ys
    Far-remain [] beside far = tt
    Far-remain (y ∷ ys) beside far = (ground arith, Far-remain ys beside.1 far.1)

    remain-Spread : Spread ((b + sz) ∷ others)
    remain-Spread = (
      (omega (arith, site.lo), omega (arith, site.hi)),
      Far-remain others others-Beside others-Far,
      others-Spread,
    )

    aligned-site : s % 8 ≡ 0
    aligned-site = omega (arith, site.row.0.size)

    inside-remain :
        (y : ℕ)
        → b ≤ y
        → y ≤ b + s
        → y ≢ b + sz + 8
        → y ≢ b + sz + 16
        → NotLink y ((b + sz) ∷ others)
    inside-remain y lo hi ne ne' =
        ((ground (arith, site.lo, site.hi), ground (arith, site.lo, site.hi)), inside y lo hi)

    abbrev parts : Heap
    parts = record (split b s sz h1) { mem = mark_allocated (split b s sz h1).mem b sz }

    parted : Parted h1 b s sz others parts
    parted =
        split-Parted h1 b s sz others site.lo site.hi big fit aligned aligned-site removed.freelist
          remain-Spread (inside-remain b (omega arith) (omega arith) (omega arith) (omega arith))
          (inside-remain (b + s - 8) (omega arith) (omega arith) (omega arith) (omega arith))

    parts-same : (w : ℕ) → (w < b) ⊎ (b + s ≤ w) → NotLink w xs → parts.mem w ≡ h.mem w
    parts-same w out clear =
        parted.kept w (ground arith) (ground arith) (ground arith) (
          (ground (arith, site.lo, site.hi), ground (arith, site.lo, site.hi)),
          All-erase (λ a. (w ≢ prev_of a) × (w ≢ next_of a)) b xs clear,
        )
        ∙ removed.same w clear

    parts-kept : KeptBeside h xs b s parts
    parts-kept w out clear = parts-same w (ground arith) clear

    parts-row : Tiles parts.mem b false (used sz ∷ unused (s - sz) ∷ rest)
    parts-row =
        split-Tiles h1.mem parts.mem b s sz rest removed-row big fit (parted.here removed-row.0)
          parted.remain parted.footer
          (All-map₂ (λ w. (b + s ≤ w) × (w + 8 ≤ heap_end)) (λ w. NotLink w xs)
            (λ w. parts.mem w ≡ h1.mem w)
            (λ w within clear. parts-same w (inr within.0) clear ∙ sym (removed.same w clear))
            (words (b + s) rest) (words-within h1.mem (b + s) true rest removed-row.2)
            site.clear.1.1)

    parts-IsChange : IsChange h cs xs b (alloc_here sz) parts ((b + sz) ∷ others)
    parts-IsChange =
        let larger : (s == sz) ≡ false = ground arith in
        record {
          starts_at = site.starts_at;
          before =
              All-map (λ w. NotLink w xs) (λ w. w < b → parts.mem w ≡ h.mem w)
                (λ w clear lt. parts-kept w (inl lt) clear) (words heap_start cs) (words-clear v);
          row = rw (site.alone, site.here, larger) parts-row;
          freelist = parted.freelist;
          items = λ x. rw (site.here, larger) (ground (arith, count-erase x b xs listed));
        }

-- `carve` step by step.
carve-eq :
    (b s sz : ℕ) (h : Heap)
    → carve b s sz h ≡ (
        let h1 = if s == sz then take_whole b s h else split b s sz h in
        (add64 b 8, record h1 { mem = mark_allocated h1.mem b sz }))
unfolding carve
carve-eq b s sz h = refl

-- Whichever way it goes, the carving is a change of the row at the chunk, and returns the address
-- behind its header.
pub record Carved (h : Heap) (cs : List Chunk) (xs : List ℕ) (b s sz : ℕ) (h1 : Heap) : Type 0 where
  pub result : Heap
  pub listed : List ℕ
  pub returns : carve b s sz h1 ≡ (b + 8, result)
  pub change : IsChange h cs xs b (alloc_here sz) result listed
  pub kept : KeptBeside h xs b s result

module _ {h h1 : Heap} {cs rest : List Chunk} {xs : List ℕ} (b s sz : ℕ) (v : IsHeap h cs xs)
    (in_list : has b xs ≡ true) (site : FreeSite h cs xs b s rest)
    (removed : Removed b h xs h1) where
  behind_header : add64 b 8 ≡ b + 8
  behind_header = omega (arith, site.lo, site.hi, site.row.1)

  carve_whole : s ≡ sz → Carved h cs xs b s sz h1
  carve_whole e =
      subst (λ n. Carved h cs xs b s n h1) e
        (record {
          result = whole b s v in_list site removed;
          listed = erase b xs;
          returns = carve-eq b s s h1 ∙ rw (==_refl s, behind_header);
          change = whole-IsChange b s v in_list site removed;
          kept = whole-kept b s v in_list site removed;
        })

  carve_parts : 32 ≤ sz → sz + 32 ≤ s → sz % 8 ≡ 0 → Carved h cs xs b s sz h1
  carve_parts big fit aligned =
      let larger : (s == sz) ≡ false = ground arith in
      record {
        result = parts b s v in_list site removed sz big fit aligned;
        listed = (b + sz) ∷ erase b xs;
        returns = carve-eq b s sz h1 ∙ rw (larger, behind_header);
        change = parts-IsChange b s v in_list site removed sz big fit aligned;
        kept = parts-kept b s v in_list site removed sz big fit aligned;
      }

  pub carve_lem : 32 ≤ sz → sz % 8 ≡ 0 → (s ≡ sz) ⊎ (sz + 32 ≤ s) → Carved h cs xs b s sz h1
  carve_lem big aligned (inl e) = carve_whole e
  carve_lem big aligned (inr fit) = carve_parts big fit aligned
