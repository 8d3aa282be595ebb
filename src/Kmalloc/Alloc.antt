-- ===== src/Kmalloc/Alloc.antt =====
-- `kmalloc` on a well-formed heap.
pub mod Split
use flurry.Prelude.{
  ℕ, ◌+◌, ◌-◌, ◌%◌, ◌^◌, ◌<◌, ◌≤◌, ◌≡◌, ◌≢◌, refl, sym, ◌∙◌, ap, ◌⊎◌, inl, inr, Bool, true, false,
  List, [], ◌∷◌, arith, ◌==◌, ==_iff, ==_refl, ne→==, if◌then◌else◌, Bool-cases, length, All,
}
use flurry.Prelude.Words.{add64, sub64}
use flurry.Prelude.Memory.{Mem, write, write_ne, write_self}
use flurry.Prelude.Outcome.{Outcome, ok, panic}
use flurry.Kmalloc.{
  Heap, heap_start, heap_end, null, prev_of, next_of, alloc_size, get_sz, is_in_heap_bounds,
  take_whole, split, carve, mark_remain, mark_allocated, place_footer, kmalloc, freelist_add_node,
  unset_flag, flag_is_prev_free,
}
use flurry.Kmalloc.Meta.{
  IsMeta, IsMeta-frame, get_sz-IsMeta, unset_prev_free-IsMeta, unset_flag_ne, mark_allocated-IsMeta,
  mark_allocated_ne, mark_remain-IsMeta, mark_remain_ne,
}
use flurry.Kmalloc.Layout.{
  Chunk, used, unused, footer_of, Tiles, words, words-within, Tiles-frame, Tiles-le, Footed-any,
}

-- The row from the chunk taken on: the chunk whole, or its two parts.
abbrev pub alloc_here : ℕ → List Chunk → List Chunk
alloc_here sz (unused s ∷ cs) = if s == sz then used sz ∷ cs else used sz ∷ unused (s - sz) ∷ cs
alloc_here sz cs = cs

pub in_bounds : (a : ℕ) → heap_start ≤ a → a < heap_end → is_in_heap_bounds a ≡ true
unfolding is_in_heap_bounds
in_bounds a lo hi = ground arith

pub out_of_bounds : (a : ℕ) → heap_end ≤ a → is_in_heap_bounds a ≡ false
unfolding is_in_heap_bounds
out_of_bounds a hi = ground arith

-- `take_whole` as one equation: it clears one flag of the chunk behind, if there is one.
module _ (b s : ℕ) (h : Heap) where
  take_whole-eq : take_whole b s h ≡ (
      if is_in_heap_bounds (add64 b s)
      then record h { mem = unset_flag h.mem (add64 b s) flag_is_prev_free }
      else h)
  unfolding take_whole
  take_whole-eq = refl

  take_whole-inner :
      heap_start ≤ b
      → b + s < heap_end
      → take_whole b s h ≡ record h { mem = unset_flag h.mem (b + s) flag_is_prev_free }
  take_whole-inner lo hi =
      let e : add64 b s ≡ b + s = omega arith in
      take_whole-eq ∙ rw (e, in_bounds (b + s) (omega arith) hi)

  take_whole-last : b + s ≡ heap_end → take_whole b s h ≡ h
  take_whole-last last =
      let e : add64 b s ≡ heap_end = omega arith in
      take_whole-eq ∙ rw (e, out_of_bounds heap_end (omega arith))

-- The chunk taken whole, and the row behind it.
module _ (h : Heap) (b s : ℕ) (lo : heap_start ≤ b) where
  abbrev pub taken : Mem
  taken = mark_allocated (take_whole b s h).mem b s

  taken-same :
      (lo' : ℕ) (ws : List ℕ)
      → b + s < lo'
      → b + s < heap_end
      → All (λ w. (lo' ≤ w) × (w + 8 ≤ heap_end)) ws
      → All (λ w. taken w ≡ h.mem w) ws
  taken-same lo' [] lt hi within = tt
  taken-same lo' (w ∷ ws) lt hi within = (
    mark_allocated_ne _ b w (omega arith) s
        ∙ rw (take_whole-inner b s h lo hi) (unset_flag_ne h.mem (b + s) w (omega arith) _),
    taken-same lo' ws lt hi within.1,
  )

  pub whole-Tiles :
      (cs : List Chunk) → Tiles h.mem b false (unused s ∷ cs) → Tiles taken b false (used s ∷ cs)
  whole-Tiles [] t =
      rw (take_whole-last b s h t.2)
        (mark_allocated-IsMeta t.0 s (omega arith) (omega (arith, t.0.size)), t.1, t.2)
  whole-Tiles (used n ∷ cs) t =
      let hi : b + s < heap_end = omega (arith, Tiles-le h.mem (b + s + n) false cs t.2.2) in
      let cleared = unset_flag h.mem (b + s) flag_is_prev_free in
      let e = take_whole-inner b s h lo hi in
      (
        rw e (
            mark_allocated-IsMeta
              (IsMeta-frame h.mem cleared (unset_flag_ne h.mem (b + s) b (omega arith) _) t.0) s
              (omega arith) (omega (arith, t.0.size))),
        t.1,
        (
          rw e (
              IsMeta-frame cleared (mark_allocated cleared b s)
                (mark_allocated_ne cleared b (b + s) (omega arith) s)
                (unset_prev_free-IsMeta t.2.0)),
          t.2.1,
          Tiles-frame h.mem taken (b + s + n) false cs t.2.2 (
              taken-same (b + s + n) _ (omega arith) hi
                (words-within h.mem (b + s + n) false cs t.2.2)),
        ),
      )
  whole-Tiles (unused n ∷ cs) t = cc (t.2.4)

pub take_whole_ne :
    (h : Heap) (b s w : ℕ)
    → heap_start ≤ b
    → b + s ≤ heap_end
    → w ≢ b + s
    → (take_whole b s h).mem w ≡ h.mem w
take_whole_ne h b s w lo hi ne = elim (Bool-cases (b + s == heap_end)) [
  | inl e ↦ rw (take_whole-last b s h ((==_iff _ _).0 e))
  | inr e ↦ rw (take_whole-inner b s h lo (ground arith)) (unset_flag_ne h.mem (b + s) w ne _)
]

pub take_whole-head :
    (h : Heap) (b s : ℕ)
    → heap_start ≤ b
    → b + s ≤ heap_end
    → (take_whole b s h).freelist_head ≡ h.freelist_head
take_whole-head h b s lo hi = elim (Bool-cases (b + s == heap_end)) [
  | inl e ↦ rw (take_whole-last b s h ((==_iff _ _).0 e))
  | inr e ↦ rw (take_whole-inner b s h lo (ground arith))
]

-- A word of the row elsewhere, and a link word, are left alone.
pub taken_ne :
    (h : Heap) (b s w : ℕ)
    → heap_start ≤ b
    → b + s ≤ heap_end
    → w ≢ b
    → w ≢ b + s
    → mark_allocated (take_whole b s h).mem b s w ≡ h.mem w
taken_ne h b s w lo hi ne ne' = mark_allocated_ne _ b w ne s ∙ take_whole_ne h b s w lo hi ne'

-- What a split needs of the memory behind it.
pub split-Tiles :
    (m m' : Mem) (b s sz : ℕ) (cs : List Chunk)
    → Tiles m b false (unused s ∷ cs)
    → 32 ≤ sz
    → sz + 32 ≤ s
    → IsMeta m' b sz false false
    → IsMeta m' (b + sz) (s - sz) false true
    → m' (b + s - 8) ≡ s - sz
    → All (λ w. m' w ≡ m w) (words (b + s) cs)
    → Tiles m' b false (used sz ∷ unused (s - sz) ∷ cs)
split-Tiles m m' b s sz cs t big fit here remain footer same =
    let e : b + sz + (s - sz) ≡ b + s = omega arith in
    (
      here,
      big,
      (
        remain,
        omega arith,
        rw e (Tiles-frame m m' (b + s) true cs t.2 same),
        Footed-any m' (b + sz) (s - sz) cs (rw e footer),
        refl,
      ),
    )
