-- ===== src/Kmalloc/Free/Cases.antt =====
-- The ways of `kfree` with no free chunk before, each as a change of the row at the chunk freed.
use flurry.Prelude.{
  ℕ, ◌+◌, ◌≤◌, ◌≡◌, refl, sym, ◌∙◌, ap, inl, inr, true, false, List, [], ◌∷◌, arith, ==_refl, All,
}
use mathlib.Core.Path.{subst}
use flurry.Prelude.Outcome.{ok}
use flurry.Kmalloc.{Heap, heap_start, heap_end}
use flurry.Kmalloc.Freelist.{NotLink, has, erase}
use flurry.Kmalloc.Layout.{Chunk, used, unused, Tiles, Tiles-le, free_at, words, free_at-within}
use flurry.Kmalloc.Layout.Bags.{count-erase, count-has, has-count, All-map}
use flurry.Kmalloc.Layout.Suffix.{chunks_from, starts, prev_at, chunks_from-words}
use flurry.Kmalloc.Invariant.{IsHeap, IsHeap-Spread, words-clear}
use flurry.Kmalloc.InUse.{InUse-above}
use flurry.Kmalloc.Free.{head_free, merge_next, has-chunks_from}
use flurry.Kmalloc.Free.Frame.{Around}
use flurry.Kmalloc.Free.Steps.{free_chunk_lem, FreedChunk, FreedChunk-at, lo_of, listed_around}
use flurry.Kmalloc.Free.Alone
use flurry.Kmalloc.Free.Next

pub merge_next-alone :
    (s : ℕ) (rest : List Chunk) → head_free rest ≡ false → merge_next s rest ≡ unused s ∷ rest
merge_next-alone s [] e = refl
merge_next-alone s (used n ∷ cs) e = refl
merge_next-alone s (unused n ∷ cs) e = cc

-- What the words behind a chunk of the row avoid.
module _ {h : Heap} {cs : List Chunk} {xs : List ℕ} (v : IsHeap h cs xs) (q : ℕ)
    (st : starts q heap_start cs ≡ true) where
  pub words-from :
      (here : List Chunk)
      → chunks_from q heap_start cs ≡ here
      → All (λ w. NotLink w xs) (words q here)
  words-from here e =
      subst (λ row. All (λ w. NotLink w xs) (words q row)) e
        (chunks_from-words (λ w. NotLink w xs) q heap_start cs st (words-clear v))

  pub listed_from :
      (x : ℕ) (here : List Chunk)
      → chunks_from q heap_start cs ≡ here
      → has x (free_at q here) ≡ true
      → has x xs ≡ true
  listed_from x here e in_row = has-count x xs (
      omega (
        arith,
        v.same_items x,
        count-has x (free_at heap_start cs) (has-chunks_from x q heap_start cs st (rw e in_row)),
      ))

module _ {h : Heap} {cs : List Chunk} {xs : List ℕ} (v : IsHeap h cs xs) (b s : ℕ)
    (rest : List Chunk) (st : starts b heap_start cs ≡ true)
    (here : chunks_from b heap_start cs ≡ used s ∷ rest)
    (first : prev_at b heap_start false cs ≡ false)
    (row : Tiles h.mem b false (used s ∷ rest)) where
  module _ (none_free : head_free rest ≡ false) where
    outside : All (λ x. Alone.Outside b s x × (x + 32 ≤ heap_end)) xs
    outside =
        let le = Tiles-le h.mem (b + s) false rest row.2 in
        listed_around v b st (λ x. Alone.Outside b s x × (x + 32 ≤ heap_end)) (used s ∷ rest) here
          (λ x low. (inl low, omega (arith, le)))
          (All-map (λ x. (b + s ≤ x) × (x + 32 ≤ heap_end))
            (λ x. Alone.Outside b s x × (x + 32 ≤ heap_end)) (λ x o. (inr o.0, o.1))
            (free_at (b + s) rest) (free_at-within h.mem (b + s) false rest row.2))

    pub alone-FreedChunk : FreedChunk h cs xs b s
    alone-FreedChunk =
        let lo = lo_of v b st in
        let clear = (words-from v b st (used s ∷ rest) here).1 in
        let spread = IsHeap-Spread v in
        FreedChunk-at v b s b s (used s ∷ rest) (unused s ∷ rest)
          (Alone.final h b s rest xs lo row none_free v.freelist spread outside clear) (b ∷ xs) st
          here (merge_next-alone s rest none_free) first
          (free_chunk_lem h b s false rest lo row
            ∙ rw none_free (
                ap ok (
                  Alone.free_alone-eq h b s rest xs lo row none_free v.freelist spread outside
                    clear)))
          (Alone.final-Kept h b s rest xs lo row none_free v.freelist spread outside clear)
          (Alone.final-row h b s rest xs lo row none_free v.freelist spread outside clear)
          (Alone.final-IsFreelist h b s rest xs lo row none_free v.freelist spread outside clear)
          (λ x. omega arith) (λ x. omega arith)
          (λ w u out. elim u [
            | inl within ↦ absurd (ground (arith, within))
            | inr u' ↦ omega (arith, row.1, InUse-above h.mem w (b + s) false rest row.2 u')
          ])

-- The chunk behind is free.
module _ {h : Heap} {cs : List Chunk} {xs : List ℕ} (v : IsHeap h cs xs) (b s n : ℕ)
    (rest : List Chunk) (st : starts b heap_start cs ≡ true)
    (here : chunks_from b heap_start cs ≡ used s ∷ (unused n ∷ rest))
    (first : prev_at b heap_start false cs ≡ false)
    (row : Tiles h.mem b false (used s ∷ (unused n ∷ rest))) where
  others_next : All (λ x. Around b (b + s + n) (b + s) (b + s) x × (x + 32 ≤ heap_end)) xs
  others_next =
      let le = Tiles-le h.mem (b + s + n) true rest row.2.2 in
      listed_around v b st (λ x. Around b (b + s + n) (b + s) (b + s) x × (x + 32 ≤ heap_end))
        (used s ∷ (unused n ∷ rest)) here (λ x low. (inl low, omega (arith, le, row.1, row.2.1)))
        (
          (inr (inr (inl refl)), omega (arith, le, row.2.1)),
          All-map (λ x. (b + s + n ≤ x) × (x + 32 ≤ heap_end))
              (λ x. Around b (b + s + n) (b + s) (b + s) x × (x + 32 ≤ heap_end))
              (λ x o. (inr (inl o.0), o.1)) (free_at (b + s + n) rest)
              (free_at-within h.mem (b + s + n) true rest row.2.2),
        )

  behind_listed : has (b + s) xs ≡ true
  behind_listed =
      listed_from v b st (b + s) (used s ∷ (unused n ∷ rest)) here (rw (==_refl (b + s)) refl)

  pub next-FreedChunk : FreedChunk h cs xs b s
  next-FreedChunk =
      let lo = lo_of v b st in
      let clear = (words-from v b st (used s ∷ (unused n ∷ rest)) here).1.1.1 in
      let spread = IsHeap-Spread v in
      let found =
        Next.removed h b s n rest xs lo row v.freelist spread behind_listed others_next clear in
      let behind : b + s + n ≡ b + (s + n) = omega arith in
      FreedChunk-at v b s b (s + n) (used s ∷ (unused n ∷ rest)) (unused (s + n) ∷ rest)
        (Next.finish h b s n rest xs lo row v.freelist spread behind_listed others_next clear
          found.0)
        (b ∷ erase (b + s) xs) st here refl first
        (free_chunk_lem h b s false (unused n ∷ rest) lo row ∙ found.1)
        (Next.final-Kept h b s n rest xs lo row v.freelist spread behind_listed others_next clear
          found.0 found.2)
        (Next.final-row h b s n rest xs lo row v.freelist spread behind_listed others_next clear
          found.0 found.2)
        (Next.final-IsFreelist h b s n rest xs lo row v.freelist spread behind_listed others_next
          clear found.0 found.2)
        (λ x. rw (sym behind) (omega (arith, count-erase x (b + s) xs behind_listed)))
        (λ x. rw (sym behind) (omega arith))
        (λ w u out. elim u [
          | inl within ↦ absurd (ground (arith, within))
          | inr u' ↦
              omega (arith, row.1, row.2.1, InUse-above h.mem w (b + s + n) true rest row.2.2 u')
        ])
