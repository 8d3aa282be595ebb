-- ===== src/Kmalloc/Site.antt =====
-- Where a chunk of the freelist stands in the row of chunks.
use flurry.Prelude.{ℕ, ◌+◌, ◌≤◌, ◌≡◌, true, false, List, ◌∷◌, arith, All}
use mathlib.Core.Path.{subst}
use flurry.Kmalloc.{Heap, heap_start, heap_end}
use flurry.Kmalloc.Freelist.{NotLink, has, InHeap, InHeap-has}
use flurry.Kmalloc.Layout.{Chunk, unused, Tiles, free_at, words, Tiles-le}
use flurry.Kmalloc.Layout.Bags.{has-count, count-has, All-same}
use flurry.Kmalloc.Layout.Suffix.{
  chunks_from, starts, prev_at, head_size, Beside, chunks_from-free, chunks_from-Tiles,
  chunks_from-words, free_at-Beside,
}
use flurry.Kmalloc.Invariant.{IsHeap, IsHeap-Spread, IsHeap-starts, words-clear}

pub record FreeSite (h : Heap) (cs : List Chunk) (xs : List ℕ) (b s : ℕ) (rest : List Chunk)
    : Type 0 where
  pub starts_at : starts b heap_start cs ≡ true
  pub here : chunks_from b heap_start cs ≡ unused s ∷ rest
  pub alone : prev_at b heap_start false cs ≡ false
  pub row : Tiles h.mem b false (unused s ∷ rest)
  pub lo : heap_start ≤ b
  pub hi : b + s ≤ heap_end
  pub beside : All (Beside b s) xs
  pub clear : All (λ w. NotLink w xs) (words b (unused s ∷ rest))

module _ {h : Heap} {cs : List Chunk} {xs : List ℕ} (v : IsHeap h cs xs) (b : ℕ)
    (listed : has b xs ≡ true) where
  free_listed : has b (free_at heap_start cs) ≡ true
  free_listed = has-count b _ (omega (arith, count-has b xs listed, v.same_items b))

  site_of :
      (s : ℕ) (rest : List Chunk)
      → chunks_from b heap_start cs ≡ unused s ∷ rest
      → FreeSite h cs xs b s rest
  site_of s rest here =
      let st = IsHeap-starts v b listed in
      let row' : Tiles h.mem b (prev_at b heap_start false cs) (unused s ∷ rest) =
        rw here at (chunks_from-Tiles h.mem b heap_start false cs v.tiles st) in
      let alone : prev_at b heap_start false cs ≡ false = row'.4 in
      let size : head_size (chunks_from b heap_start cs) ≡ s = rw here in
      let i : InHeap b = InHeap-has b xs (IsHeap-Spread v) listed in
      record {
        starts_at = st;
        here = here;
        alone = alone;
        row = rw alone at row';
        lo = i.0;
        hi = Tiles-le h.mem (b + s) true rest row'.2;
        beside = All-same (Beside b s) xs _ v.same_items (
            subst (λ n. All (Beside b n) (free_at heap_start cs)) size
              (free_at-Beside h.mem b heap_start false cs v.tiles st));
        clear =
            subst (λ row. All (λ w. NotLink w xs) (words b row)) here
              (chunks_from-words (λ w. NotLink w xs) b heap_start cs st (words-clear v));
      }

  -- Every chunk of the freelist has its place in the row.
  pub free_site : (s : ℕ) × (rest : List Chunk) × FreeSite h cs xs b s rest
  free_site =
      let found =
        chunks_from-free b heap_start cs (IsHeap-starts v b listed) h.mem false v.tiles
          free_listed in
      (found.0, found.1, site_of found.0 found.1 found.2)
