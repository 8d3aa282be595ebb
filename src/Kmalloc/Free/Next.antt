-- ===== src/Kmalloc/Free/Next.antt =====
-- `kfree` of a chunk before a free one, and behind none.
use mathlib.Core.Path.{subst}
use flurry.Prelude.{ℕ, ◌+◌, ◌-◌, ◌≤◌, ◌≡◌, ◌≢◌, refl, ◌∙◌, ap, true, false, List, ◌∷◌, arith, All}
use flurry.Prelude.Words.{add64, sub64}
use flurry.Prelude.Memory.{write}
use flurry.Prelude.Outcome.{ok, ◌>>=◌}
use flurry.Kmalloc.{
  Heap, heap_start, heap_end, null, prev_of, next_of, get_sz, set_sz, set_flag, flag_is_free,
  freelist_add_node, freelist_remove_node, free_with_next,
}
use flurry.Kmalloc.Meta.{IsMeta, IsMeta-frame, get_sz-IsMeta, set_free-IsMeta, set_flag_ne}
use flurry.Kmalloc.Freelist.{
  NotLink, Far, Spread, IsFreelist, Linked-touch, has, erase, freelist_add_node-IsFreelist,
  freelist_add_node_ne,
}
use flurry.Kmalloc.Freelist.Unlink.{Removed, freelist_remove_node-Removed}
use flurry.Kmalloc.Layout.{
  Chunk, used, unused, Tiles, Tiles-le, Tiles-frame, Footed-any, words, words-within,
}
use flurry.Kmalloc.Layout.Bags.{All-map₂, All-erase, Far-erase, Spread-erase}
use flurry.Kmalloc.Free.Frame.{Around, NotLink-Around, Kept}
use flurry.Kmalloc.Free.Grow.{grown, grown_ne, grown-footer, grown-IsMeta, grown-IsFreelist}

free_with_next-steps :
    (b : ℕ) (h : Heap)
    → free_with_next b h ≡ (
        let next = add64 b (get_sz h.mem b) in
        let new_sz = add64 (get_sz h.mem b) (get_sz h.mem next) in
        let m = write (set_sz h.mem b new_sz) (sub64 (add64 b new_sz) 8) new_sz in
        freelist_remove_node next (record h { mem = m })
        >>= (λ h1. ok (freelist_add_node b (record h1 { mem = set_flag h1.mem b flag_is_free }))))
unfolding free_with_next
free_with_next-steps b h = refl

module _ (h : Heap) (b s n : ℕ) (rest : List Chunk) (xs : List ℕ) (lo : heap_start ≤ b)
    (row : Tiles h.mem b false (used s ∷ (unused n ∷ rest))) (listed : IsFreelist h xs)
    (spread : Spread xs) (in_list : has (b + s) xs ≡ true)
    (around : All (λ x. Around b (b + s + n) (b + s) (b + s) x × (x + 32 ≤ heap_end)) xs)
    (clear : All (λ w. NotLink w xs) (words (b + s + n) rest)) where
  hi : b + s + n ≤ heap_end
  hi = Tiles-le h.mem (b + s + n) true rest row.2.2

  inside : (y : ℕ) → b ≤ y → y ≤ b + s + n → y ≢ b + s + 8 → y ≢ b + s + 16 → NotLink y xs
  inside y above below n1 n2 =
      NotLink-Around b (b + s + n) (b + s) (b + s) y xs above (omega arith) hi
        (omega (arith, hi, row.2.1)) (omega (arith, hi, row.2.1)) n1 n2 n1 n2 around

  abbrev pub merged : Heap
  merged = record h { mem = grown h.mem b (s + n) }

  abbrev pub finish : Heap → Heap
  finish h1 = freelist_add_node b (record h1 { mem = set_flag h1.mem b flag_is_free })

  free_with_next-eq :
      free_with_next b h ≡ (freelist_remove_node (b + s) merged >>= (λ h1. ok (finish h1)))
  free_with_next-eq =
      let here : get_sz h.mem b ≡ s = get_sz-IsMeta row.0 in
      let size_next : get_sz h.mem (b + s) ≡ n = get_sz-IsMeta row.2.0 in
      let next : add64 b s ≡ b + s = omega (arith, hi) in
      let sum : add64 s n ≡ s + n = omega (arith, hi) in
      let end : sub64 (add64 b (s + n)) 8 ≡ b + (s + n) - 8 = omega (arith, hi, lo) in
      free_with_next-steps b h ∙ rw (here, next, size_next, sum, end) refl

  at-b : NotLink b xs
  at-b = inside b (omega arith) (omega arith) (omega (arith, row.1)) (omega (arith, row.1))

  at-end : NotLink (b + (s + n) - 8) xs
  at-end =
      inside (b + (s + n) - 8) (omega (arith, row.1)) (omega arith) (omega (arith, row.2.1))
        (omega (arith, row.2.1))

  merged-IsFreelist : IsFreelist merged xs
  merged-IsFreelist =
      grown-IsFreelist h.mem b (s + n) h.freelist_head xs (record { links = listed.links }) at-b
        at-end

  others-Far : All (Far b) (erase (b + s) xs)
  others-Far =
      All-map₂ (λ x. Around b (b + s + n) (b + s) (b + s) x × (x + 32 ≤ heap_end)) (Far (b + s))
        (Far b) (λ x o far. ground (arith, row.1)) (erase (b + s) xs)
        (All-erase (λ x. Around b (b + s + n) (b + s) (b + s) x × (x + 32 ≤ heap_end)) (b + s) xs
          around)
        (Far-erase (b + s) xs spread in_list)

  new-Spread : Spread (b ∷ erase (b + s) xs)
  new-Spread = ((lo, omega (arith, row.1, hi)), others-Far, Spread-erase (b + s) xs spread)

  fewer : (w : ℕ) → NotLink w xs → NotLink w (erase (b + s) xs)
  fewer w out = All-erase (λ a. (w ≢ prev_of a) × (w ≢ next_of a)) (b + s) xs out

  -- The chunk behind is off the list.
  pub removed : (h1 : Heap) × (free_with_next b h ≡ ok (finish h1)) × Removed (b + s) merged xs h1
  removed =
      let out = freelist_remove_node-Removed (b + s) merged xs merged-IsFreelist spread in_list in
      (out.0, free_with_next-eq ∙ ap (λ o. o >>= (λ h1. ok (finish h1))) out.1, out.2)

  module _ (h1 : Heap) (out : Removed (b + s) merged xs h1) where
    abbrev marked : Heap
    marked = record h1 { mem = set_flag h1.mem b flag_is_free }

    marked-IsFreelist : IsFreelist marked (erase (b + s) xs)
    marked-IsFreelist = record {
      links =
          Linked-touch h1.mem marked.mem null h1.freelist_head b (erase (b + s) xs)
            (λ x ne. set_flag_ne h1.mem b x ne flag_is_free) out.freelist.links (fewer b at-b);
    }

    pub final-IsFreelist : IsFreelist (finish h1) (b ∷ erase (b + s) xs)
    final-IsFreelist =
        freelist_add_node-IsFreelist b marked (erase (b + s) xs) marked-IsFreelist new-Spread

    final_ne :
        (w : ℕ)
        → w ≢ b
        → w ≢ b + 8
        → w ≢ b + 16
        → w ≢ b + (s + n) - 8
        → NotLink w xs
        → (finish h1).mem w ≡ h.mem w
    final_ne w ne ne1 ne2 ne3 clear =
        freelist_add_node_ne b marked (erase (b + s) xs) w marked-IsFreelist
          ((omega (arith, lo, hi), omega (arith, lo, hi)), fewer w clear)
        ∙ set_flag_ne h1.mem b w ne flag_is_free
        ∙ out.same w clear
        ∙ grown_ne h.mem b (s + n) w ne ne3

    pub final-Kept : Kept h xs b (s + n) (finish h1)
    final-Kept w away clear =
        final_ne w (ground arith) (ground (arith, row.1)) (ground (arith, row.1))
          (ground (arith, row.1)) clear

    final-IsMeta : IsMeta (finish h1).mem b (s + n) false true
    final-IsMeta =
        IsMeta-frame marked.mem (finish h1).mem
          (freelist_add_node_ne b marked (erase (b + s) xs) b marked-IsFreelist
            ((omega (arith, lo, hi), omega (arith, lo, hi)), fewer b at-b))
          (set_free-IsMeta (
            IsMeta-frame merged.mem h1.mem (out.same b at-b) (
              grown-IsMeta h.mem b (s + n) row.0 (omega (arith, row.1)) (omega (arith, hi))
                (omega (arith, row.0.size, row.2.0.size)))))

    final-footer : (finish h1).mem (b + (s + n) - 8) ≡ s + n
    final-footer =
        freelist_add_node_ne b marked (erase (b + s) xs) (b + (s + n) - 8) marked-IsFreelist (
          (omega (arith, lo, hi, row.1, row.2.1), omega (arith, lo, hi, row.1, row.2.1)),
          fewer (b + (s + n) - 8) at-end,
        )
        ∙ set_flag_ne h1.mem b (b + (s + n) - 8) (omega (arith, row.1)) flag_is_free
        ∙ out.same (b + (s + n) - 8) at-end
        ∙ grown-footer h.mem b (s + n)

    pub final-row : Tiles (finish h1).mem b false (unused (s + n) ∷ rest)
    final-row =
        let behind : b + s + n ≡ b + (s + n) = omega arith in
        (
          final-IsMeta,
          omega (arith, row.1),
          subst (λ a. Tiles (finish h1).mem a true rest) behind
              (Tiles-frame h.mem (finish h1).mem (b + s + n) true rest row.2.2 (
                All-map₂ (λ w. (b + s + n ≤ w) × (w + 8 ≤ heap_end)) (λ w. NotLink w xs)
                  (λ w. (finish h1).mem w ≡ h.mem w)
                  (λ w within clear.
                    final_ne w (omega (arith, row.1)) (omega (arith, row.1)) (omega (arith, row.1))
                      (omega (arith, row.1)) clear)
                  (words (b + s + n) rest) (words-within h.mem (b + s + n) true rest row.2.2)
                  clear)),
          Footed-any (finish h1).mem b (s + n) rest final-footer,
          refl,
        )
