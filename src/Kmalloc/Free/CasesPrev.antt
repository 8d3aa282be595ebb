-- ===== src/Kmalloc/Free/CasesPrev.antt =====
-- The ways of `kfree` with a free chunk before, each as a change of the row at that chunk.
use flurry.Prelude.{
  ℕ, ◌+◌, ◌≤◌, ◌≡◌, refl, sym, ◌∙◌, ap, inl, inr, true, false, List, ◌∷◌, arith, All,
}
use flurry.Prelude.Outcome.{ok}
use flurry.Kmalloc.{Heap, heap_start, heap_end}
use flurry.Kmalloc.Freelist.{has, erase}
use flurry.Kmalloc.Layout.{Chunk, used, unused, Tiles, Tiles-le, free_at, free_at-within}
use flurry.Kmalloc.Layout.Bags.{count-erase, All-map}
use flurry.Kmalloc.Layout.Suffix.{chunks_from, starts, prev_at}
use flurry.Kmalloc.Invariant.{IsHeap, IsHeap-Spread}
use flurry.Kmalloc.InUse.{InUse-above}
use flurry.Kmalloc.Free.{head_free}
use flurry.Kmalloc.Free.Frame.{Around}
use flurry.Kmalloc.Free.Steps.{free_chunk_lem, FreedChunk, FreedChunk-at, lo_of, listed_around}
use flurry.Kmalloc.Free.Prev
use flurry.Kmalloc.Free.Both
use flurry.Kmalloc.Free.Cases.{merge_next-alone, words-from, listed_from}

-- The chunk before is free.
module _ {h : Heap} {cs : List Chunk} {xs : List ℕ} (v : IsHeap h cs xs) (p k s : ℕ)
    (rest : List Chunk) (st : starts p heap_start cs ≡ true)
    (here : chunks_from p heap_start cs ≡ unused k ∷ (used s ∷ rest))
    (first : prev_at p heap_start false cs ≡ false)
    (row : Tiles h.mem p false (unused k ∷ (used s ∷ rest)))
    (none_free : head_free rest ≡ false) where
  others_prev : All (λ x. Around p (p + k + s) p p x × (x + 32 ≤ heap_end)) xs
  others_prev =
      let le = Tiles-le h.mem (p + k + s) false rest row.2.2 in
      listed_around v p st (λ x. Around p (p + k + s) p p x × (x + 32 ≤ heap_end))
        (unused k ∷ (used s ∷ rest)) here (λ x low. (inl low, omega (arith, le, row.1, row.2.1)))
        (
          (inr (inr (inl refl)), omega (arith, le, row.1)),
          All-map (λ x. (p + k + s ≤ x) × (x + 32 ≤ heap_end))
              (λ x. Around p (p + k + s) p p x × (x + 32 ≤ heap_end)) (λ x o. (inr (inl o.0), o.1))
              (free_at (p + k + s) rest) (free_at-within h.mem (p + k + s) false rest row.2.2),
        )

  pub prev-FreedChunk : FreedChunk h cs xs (p + k) s
  prev-FreedChunk =
      let lo = lo_of v p st in
      let behind : p + k + s ≡ p + (k + s) = omega arith in
      FreedChunk-at v (p + k) s p (k + s) (unused k ∷ (used s ∷ rest)) (unused (k + s) ∷ rest)
        (Prev.final h p k s rest xs lo row none_free v.freelist others_prev) xs st here
        (merge_next-alone (k + s) rest none_free) first
        (free_chunk_lem h (p + k) s true rest (omega (arith, lo)) row.2
          ∙ rw none_free (
              ap ok
                (Prev.free_with_prev-eq h p k s rest xs lo row none_free v.freelist others_prev)))
        (Prev.final-Kept h p k s rest xs lo row none_free v.freelist others_prev)
        (Prev.final-row h p k s rest xs lo row none_free v.freelist others_prev)
        (Prev.final-IsFreelist h p k s rest xs lo row none_free v.freelist others_prev)
        (λ x. rw (sym behind) (omega arith)) (λ x. rw (sym behind) (omega arith))
        (λ w u out. elim u [
          | inl within ↦ absurd (ground (arith, within))
          | inr u' ↦
              omega (arith, row.1, row.2.1, InUse-above h.mem w (p + k + s) false rest row.2.2 u')
        ])

-- Both neighbours are free.
module _ {h : Heap} {cs : List Chunk} {xs : List ℕ} (v : IsHeap h cs xs) (p k s n : ℕ)
    (rest : List Chunk) (st : starts p heap_start cs ≡ true)
    (here : chunks_from p heap_start cs ≡ unused k ∷ (used s ∷ (unused n ∷ rest)))
    (first : prev_at p heap_start false cs ≡ false)
    (row : Tiles h.mem p false (unused k ∷ (used s ∷ (unused n ∷ rest)))) where
  others_both : All (λ x. Around p (p + k + s + n) p (p + k + s) x × (x + 32 ≤ heap_end)) xs
  others_both =
      let le = Tiles-le h.mem (p + k + s + n) true rest row.2.2.2 in
      listed_around v p st (λ x. Around p (p + k + s + n) p (p + k + s) x × (x + 32 ≤ heap_end))
        (unused k ∷ (used s ∷ (unused n ∷ rest))) here
        (λ x low. (inl low, omega (arith, le, row.1, row.2.1)))
        (
          (inr (inr (inl refl)), omega (arith, le, row.1)),
          (
            (inr (inr (inr refl)), omega (arith, le, row.2.2.1)),
            All-map (λ x. (p + k + s + n ≤ x) × (x + 32 ≤ heap_end))
                (λ x. Around p (p + k + s + n) p (p + k + s) x × (x + 32 ≤ heap_end))
                (λ x o. (inr (inl o.0), o.1)) (free_at (p + k + s + n) rest)
                (free_at-within h.mem (p + k + s + n) true rest row.2.2.2),
          ),
        )

  between_listed : has (p + k + s) xs ≡ true
  between_listed =
      listed_from v p st (p + k + s) (unused k ∷ (used s ∷ (unused n ∷ rest))) here (ground arith)

  pub both-FreedChunk : FreedChunk h cs xs (p + k) s
  both-FreedChunk =
      let lo = lo_of v p st in
      let clear = (words-from v p st (unused k ∷ (used s ∷ (unused n ∷ rest))) here).1.1.1.1.1 in
      let spread = IsHeap-Spread v in
      let found =
        Both.removed h p k s n rest xs lo row v.freelist spread between_listed others_both clear in
      let behind : p + k + s + n ≡ p + (k + s + n) = omega arith in
      FreedChunk-at v (p + k) s p (k + s + n) (unused k ∷ (used s ∷ (unused n ∷ rest)))
        (unused (k + s + n) ∷ rest) found.0 (erase (p + k + s) xs) st here refl first
        (free_chunk_lem h (p + k) s true (unused n ∷ rest) (omega (arith, lo)) row.2 ∙ found.1)
        (Both.final-Kept h p k s n rest xs lo row v.freelist spread between_listed others_both clear
          found.0 found.2)
        (Both.final-row h p k s n rest xs lo row v.freelist spread between_listed others_both clear
          found.0 found.2)
        found.2.freelist
        (λ x. rw (sym behind) (omega (arith, count-erase x (p + k + s) xs between_listed)))
        (λ x. rw (sym behind) (omega arith))
        (λ w u out. elim u [
          | inl within ↦ absurd (ground (arith, within))
          | inr u' ↦ omega (
            arith,
            row.1,
            row.2.1,
            row.2.2.1,
            InUse-above h.mem w (p + k + s + n) true rest row.2.2.2 u',
          )
        ])
