-- ===== src/Kmalloc/Invariant.antt =====
-- The well-formed heap, and how an operation on the chunks from one address on keeps it so.
use flurry.Prelude.{ℕ, ◌+◌, ◌<◌, ◌≡◌, ◌≢◌, true, false, List, arith, All}
use flurry.Kmalloc.{Heap, heap_start, prev_of, next_of}
use flurry.Kmalloc.Freelist.{Spread, NotLink, IsFreelist, has}
use flurry.Kmalloc.Layout.{Chunk, Tiles, free_at, words, free_at-Spread, words-NotLink}
use flurry.Kmalloc.Layout.Bags.{
  count, SameItems, Spread-same, All-same, has-count, count-has, All-map,
}
use flurry.Kmalloc.Layout.Suffix.{
  chunks_from, replace, starts, prev_at, replace-Tiles, count-replace, starts-free_at,
}

-- The heap is the row of chunks `cs`, and its freelist runs through the free ones, in the order `xs`.
pub record IsHeap (h : Heap) (cs : List Chunk) (xs : List ℕ) : Type 0 where
  pub tiles : Tiles h.mem heap_start false cs
  pub freelist : IsFreelist h xs
  pub same_items : SameItems xs (free_at heap_start cs)

module _ {h : Heap} {cs : List Chunk} {xs : List ℕ} (v : IsHeap h cs xs) where
  pub IsHeap-Spread : Spread xs
  IsHeap-Spread =
      Spread-same xs _ v.same_items (free_at-Spread h.mem heap_start false cs (omega arith) v.tiles)

  pub IsHeap-starts : (b : ℕ) → has b xs ≡ true → starts b heap_start cs ≡ true
  IsHeap-starts b e =
      starts-free_at b heap_start cs
        (has-count b _ (omega (arith, count-has b xs e, v.same_items b)))

-- A word that the links of one list avoid, the links of the same items avoid.
pub words-clear :
    {h : Heap} {cs : List Chunk} {xs : List ℕ}
    → IsHeap h cs xs
    → All (λ w. NotLink w xs) (words heap_start cs)
words-clear {h} {cs} {xs} v =
    All-map (λ w. NotLink w (free_at heap_start cs)) (λ w. NotLink w xs)
      (λ w. All-same (λ a. (w ≢ prev_of a) × (w ≢ next_of a)) xs _ v.same_items)
      (words heap_start cs) (words-NotLink h.mem heap_start false cs v.tiles)

-- What an operation has to show: it works on the chunks from `b` on.
pub record IsChange (h : Heap) (cs : List Chunk) (xs : List ℕ) (b : ℕ)
    (new : List Chunk → List Chunk) (h' : Heap) (xs' : List ℕ) : Type 0 where
  pub starts_at : starts b heap_start cs ≡ true
  pub before : All (λ w. w < b → h'.mem w ≡ h.mem w) (words heap_start cs)
  pub row : Tiles h'.mem b (prev_at b heap_start false cs) (new (chunks_from b heap_start cs))
  pub freelist : IsFreelist h' xs'
  pub items :
      (x : ℕ)
      → count x xs' + count x (free_at b (chunks_from b heap_start cs))
        ≡ count x xs + count x (free_at b (new (chunks_from b heap_start cs)))

pub IsChange-IsHeap :
    {h h' : Heap} {cs : List Chunk} {xs xs' : List ℕ} {b : ℕ} {new : List Chunk → List Chunk}
    → IsHeap h cs xs
    → IsChange h cs xs b new h' xs'
    → IsHeap h' (replace b new heap_start cs) xs'
IsChange-IsHeap {h} {h'} {cs} {b} {new} v c = record {
  tiles = replace-Tiles h.mem b h'.mem new heap_start false cs v.tiles c.starts_at c.before c.row;
  freelist = c.freelist;
  same_items = λ x.
      omega (arith, v.same_items x, c.items x, count-replace x b new heap_start cs c.starts_at);
}
