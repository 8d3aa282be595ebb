-- ===== src/Kmalloc/Free/Both.antt =====
-- `kfree` of a chunk between two free ones.
use mathlib.Core.Path.{subst}
use flurry.Prelude.{ℕ, ◌+◌, ◌-◌, ◌≤◌, ◌≡◌, ◌≢◌, refl, ◌∙◌, true, false, List, ◌∷◌, arith, All}
use flurry.Prelude.Words.{add64, sub64}
use flurry.Prelude.Memory.{write}
use flurry.Prelude.Outcome.{ok}
use flurry.Kmalloc.{
  Heap, heap_start, heap_end, get_sz, set_sz, prev_chunk, freelist_remove_node, free_with_both,
}
use flurry.Kmalloc.Meta.{IsMeta-frame, get_sz-IsMeta}
use flurry.Kmalloc.Freelist.{NotLink, Spread, IsFreelist, has}
use flurry.Kmalloc.Freelist.Unlink.{Removed, freelist_remove_node-Removed}
use flurry.Kmalloc.Layout.{
  Chunk, used, unused, Tiles, Tiles-le, Tiles-frame, Footed-any, words, words-within,
}
use flurry.Kmalloc.Layout.Bags.{All-map₂}
use flurry.Kmalloc.Free.Frame.{Around, NotLink-Around, Kept}
use flurry.Kmalloc.Free.Grow.{grown, grown_ne, grown-footer, grown-IsMeta, grown-IsFreelist}
use flurry.Kmalloc.Free.Prev.{prev_chunk_lem}

free_with_both-steps :
    (b : ℕ) (h : Heap)
    → free_with_both b h ≡ (
        let next = add64 b (get_sz h.mem b) in
        let prev = prev_chunk h.mem b in
        let new_sz = add64 (add64 (get_sz h.mem prev) (get_sz h.mem b)) (get_sz h.mem next) in
        let m = write (set_sz h.mem prev new_sz) (sub64 (add64 prev new_sz) 8) new_sz in
        freelist_remove_node next (record h { mem = m }))
unfolding free_with_both
free_with_both-steps b h = refl

module _ (h : Heap) (p k s n : ℕ) (rest : List Chunk) (xs : List ℕ) (lo : heap_start ≤ p)
    (row : Tiles h.mem p false (unused k ∷ (used s ∷ (unused n ∷ rest)))) (listed : IsFreelist h xs)
    (spread : Spread xs) (in_list : has (p + k + s) xs ≡ true)
    (around : All (λ x. Around p (p + k + s + n) p (p + k + s) x × (x + 32 ≤ heap_end)) xs)
    (clear : All (λ w. NotLink w xs) (words (p + k + s + n) rest)) where
  hi : p + k + s + n ≤ heap_end
  hi = Tiles-le h.mem (p + k + s + n) true rest row.2.2.2

  inside :
      (y : ℕ)
      → p ≤ y
      → y ≤ p + k + s + n
      → y ≢ p + 8
      → y ≢ p + 16
      → y ≢ p + k + s + 8
      → y ≢ p + k + s + 16
      → NotLink y xs
  inside y above below n1 n2 n3 n4 =
      NotLink-Around p (p + k + s + n) p (p + k + s) y xs above (omega arith) hi
        (omega (arith, hi, row.1)) (omega (arith, hi, row.2.2.1)) n1 n2 n3 n4 around

  abbrev size : ℕ
  size = k + s + n

  abbrev pub merged : Heap
  merged = record h { mem = grown h.mem p (k + s + n) }

  free_with_both-eq : free_with_both (p + k) h ≡ freelist_remove_node (p + k + s) merged
  free_with_both-eq =
      let here : get_sz h.mem (p + k) ≡ s = get_sz-IsMeta row.2.0 in
      let size_prev : get_sz h.mem p ≡ k = get_sz-IsMeta row.0 in
      let size_next : get_sz h.mem (p + k + s) ≡ n = get_sz-IsMeta row.2.2.0 in
      let prev = prev_chunk_lem h.mem p k (omega (arith, hi)) row.1 lo row.3 in
      let next : add64 (p + k) s ≡ p + k + s = omega (arith, hi) in
      let first : add64 k s ≡ k + s = omega (arith, hi) in
      let sum : add64 (k + s) n ≡ k + s + n = omega (arith, hi) in
      let end : sub64 (add64 p (k + s + n)) 8 ≡ p + (k + s + n) - 8 = omega (arith, hi, lo) in
      free_with_both-steps (p + k) h
      ∙ rw (here, prev, size_prev, next, size_next, first, sum, end) refl

  at-p : NotLink p xs
  at-p =
      inside p (omega arith) (omega arith) (omega arith) (omega arith) (omega (arith, row.1))
        (omega (arith, row.1))

  at-end : NotLink (p + (k + s + n) - 8) xs
  at-end =
      inside (p + (k + s + n) - 8) (omega (arith, row.1)) (omega arith)
        (omega (arith, row.1, row.2.1)) (omega (arith, row.1, row.2.1)) (omega (arith, row.2.2.1))
        (omega (arith, row.2.2.1))

  merged-IsFreelist : IsFreelist merged xs
  merged-IsFreelist =
      grown-IsFreelist h.mem p (k + s + n) h.freelist_head xs (record { links = listed.links }) at-p
        at-end

  -- The chunk behind is off the list.
  pub removed : (h' : Heap) × (free_with_both (p + k) h ≡ ok h') × Removed (p + k + s) merged xs h'
  removed =
      let out =
        freelist_remove_node-Removed (p + k + s) merged xs merged-IsFreelist spread in_list in
      (out.0, free_with_both-eq ∙ out.1, out.2)

  module _ (h' : Heap) (out : Removed (p + k + s) merged xs h') where
    pub final-Kept : Kept h xs p (k + s + n) h'
    final-Kept w away clear =
        out.same w clear ∙ grown_ne h.mem p (k + s + n) w (ground arith) (ground (arith, row.1))

    pub final-row : Tiles h'.mem p false (unused (k + s + n) ∷ rest)
    final-row =
        let behind : p + k + s + n ≡ p + (k + s + n) = omega arith in
        (
          IsMeta-frame merged.mem h'.mem (out.same p at-p) (
              grown-IsMeta h.mem p (k + s + n) row.0 (omega (arith, row.1)) (omega (arith, hi))
                (omega (arith, row.0.size, row.2.0.size, row.2.2.0.size))),
          omega (arith, row.1),
          subst (λ a. Tiles h'.mem a true rest) behind
              (Tiles-frame h.mem h'.mem (p + k + s + n) true rest row.2.2.2 (
                All-map₂ (λ w. (p + k + s + n ≤ w) × (w + 8 ≤ heap_end)) (λ w. NotLink w xs)
                  (λ w. h'.mem w ≡ h.mem w)
                  (λ w within clear.
                    out.same w clear
                    ∙ grown_ne h.mem p (k + s + n) w (omega (arith, row.1)) (omega (arith, row.1)))
                  (words (p + k + s + n) rest)
                  (words-within h.mem (p + k + s + n) true rest row.2.2.2) clear)),
          Footed-any h'.mem p (k + s + n) rest
              (out.same (p + (k + s + n) - 8) at-end ∙ grown-footer h.mem p (k + s + n)),
          refl,
        )
