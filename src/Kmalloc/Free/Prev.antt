-- ===== src/Kmalloc/Free/Prev.antt =====
-- `kfree` of a chunk behind a free one, and before none.
use flurry.Prelude.{
  ℕ, ◌+◌, ◌-◌, ◌^◌, ◌<◌, ◌≤◌, ◌≡◌, ◌≢◌, refl, ◌∙◌, true, false, List, ◌∷◌, arith, if◌then◌else◌,
  All,
}
use mathlib.Core.Path.{subst}
use flurry.Prelude.Words.{add64, sub64}
use flurry.Prelude.Memory.{Mem, write}
use flurry.Kmalloc.{
  Heap, heap_start, heap_end, null, get_sz, set_sz, set_flag, is_in_heap_bounds, flag_is_prev_free,
  prev_chunk, free_with_prev,
}
use flurry.Kmalloc.Meta.{IsMeta-frame, get_sz-IsMeta}
use flurry.Kmalloc.Freelist.{NotLink, IsFreelist, Linked-touch}
use flurry.Kmalloc.Layout.{
  Chunk, used, unused, Tiles, Tiles-le, Tiles-frame, Footed-any, words, words-within,
}
use flurry.Kmalloc.Layout.Bags.{All-map}
use flurry.Kmalloc.Free.{head_free}
use flurry.Kmalloc.Free.Frame.{
  Around, NotLink-Around, flag_behind, flag_behind_ne, flag_behind-Tiles, Kept,
}
use flurry.Kmalloc.Free.Grow.{grown, grown_ne, grown-footer, grown-IsMeta, grown-IsFreelist}

free_with_prev-steps :
    (b : ℕ) (h : Heap)
    → free_with_prev b h ≡ (
        let next = add64 b (get_sz h.mem b) in
        let prev = prev_chunk h.mem b in
        let new_sz = add64 (get_sz h.mem prev) (get_sz h.mem b) in
        let m = write (set_sz h.mem prev new_sz) (sub64 (add64 prev new_sz) 8) new_sz in
        record h { mem = if is_in_heap_bounds next then set_flag m next flag_is_prev_free else m })
unfolding free_with_prev
free_with_prev-steps b h = refl

pub prev_chunk_lem :
    (m : Mem) (p k : ℕ)
    → p + k < 2 ^ 64
    → 32 ≤ k
    → heap_start ≤ p
    → m (p + k - 8) ≡ k
    → prev_chunk m (p + k) ≡ p
unfolding prev_chunk
prev_chunk_lem m p k small big lo footer =
    let at : sub64 (p + k) 8 ≡ p + k - 8 = omega arith in rw (at, footer) (omega arith)

module _ (h : Heap) (p k s : ℕ) (rest : List Chunk) (xs : List ℕ) (lo : heap_start ≤ p)
    (row : Tiles h.mem p false (unused k ∷ (used s ∷ rest))) (none_free : head_free rest ≡ false)
    (listed : IsFreelist h xs)
    (around : All (λ x. Around p (p + k + s) p p x × (x + 32 ≤ heap_end)) xs) where
  hi : p + k + s ≤ heap_end
  hi = Tiles-le h.mem (p + k + s) false rest row.2.2

  inside : (y : ℕ) → p ≤ y → y ≤ p + k + s → y ≢ p + 8 → y ≢ p + 16 → NotLink y xs
  inside y above below n1 n2 =
      NotLink-Around p (p + k + s) p p y xs above (omega arith) hi (omega (arith, hi, row.1))
        (omega (arith, hi, row.1)) n1 n2 n1 n2 around

  abbrev merged : Mem
  merged = grown h.mem p (k + s)

  abbrev pub final : Heap
  final = record h { mem = flag_behind (p + k + s) merged }

  pub free_with_prev-eq : free_with_prev (p + k) h ≡ final
  free_with_prev-eq =
      let size : get_sz h.mem (p + k) ≡ s = get_sz-IsMeta row.2.0 in
      let size_prev : get_sz h.mem p ≡ k = get_sz-IsMeta row.0 in
      let prev = prev_chunk_lem h.mem p k (omega (arith, hi)) row.1 lo row.3 in
      let next : add64 (p + k) s ≡ p + k + s = omega (arith, hi) in
      let sum : add64 k s ≡ k + s = omega (arith, hi) in
      let end : sub64 (add64 p (k + s)) 8 ≡ p + (k + s) - 8 = omega (arith, hi, lo) in
      free_with_prev-steps (p + k) h ∙ rw (size, prev, size_prev, next, sum, end) refl

  merged-IsFreelist : IsFreelist (record h { mem = merged }) xs
  merged-IsFreelist =
      grown-IsFreelist h.mem p (k + s) h.freelist_head xs (record { links = listed.links })
        (inside p (omega arith) (omega arith) (omega arith) (omega arith))
        (inside (p + (k + s) - 8) (omega (arith, row.1)) (omega arith)
          (omega (arith, row.1, row.2.1)) (omega (arith, row.1, row.2.1)))

  pub final-IsFreelist : IsFreelist final xs
  final-IsFreelist = record {
    links =
        Linked-touch merged final.mem null h.freelist_head (p + k + s) xs
          (λ x ne. flag_behind_ne (p + k + s) x merged ne) merged-IsFreelist.links
          (inside (p + k + s) (omega arith) (omega arith) (omega (arith, row.1))
            (omega (arith, row.1)));
  }

  pub final-Kept : Kept h xs p (k + s) final
  final-Kept w out clear =
      flag_behind_ne (p + k + s) w merged (ground arith)
      ∙ grown_ne h.mem p (k + s) w (ground arith) (ground (arith, row.1))

  pub final-row : Tiles final.mem p false (unused (k + s) ∷ rest)
  final-row =
      let behind : p + k + s ≡ p + (k + s) = omega arith in
      (
        IsMeta-frame merged final.mem (flag_behind_ne (p + k + s) p merged (omega (arith, row.1))) (
            grown-IsMeta h.mem p (k + s) row.0 (omega (arith, row.1)) (omega (arith, hi))
              (omega (arith, row.0.size, row.2.0.size))),
        omega (arith, row.1),
        subst (λ a. Tiles final.mem a true rest) behind
            (flag_behind-Tiles merged (p + k + s) rest (omega (arith, lo))
              (Tiles-frame h.mem merged (p + k + s) false rest row.2.2 (
                All-map (λ w. (p + k + s ≤ w) × (w + 8 ≤ heap_end)) (λ w. merged w ≡ h.mem w)
                  (λ w within.
                    grown_ne h.mem p (k + s) w (omega (arith, row.1)) (omega (arith, row.1)))
                  (words (p + k + s) rest) (words-within h.mem (p + k + s) false rest row.2.2)))
              none_free),
        Footed-any final.mem p (k + s) rest (
            flag_behind_ne (p + k + s) (p + (k + s) - 8) merged (omega (arith, row.1))
            ∙ grown-footer h.mem p (k + s)),
        refl,
      )
