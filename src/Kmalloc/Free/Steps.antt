-- ===== src/Kmalloc/Free/Steps.antt =====
-- Which of its four ways `kfree` takes, and what each has to show of the row of chunks.
use flurry.Prelude.{
  ℕ, ◌+◌, ◌<◌, ◌≤◌, ◌≡◌, ◌≢◌, refl, ◌∙◌, ◌⊎◌, inl, inr, Bool, true, false, ◌&&◌, List, [], ◌∷◌,
  arith, ◌==◌, if◌then◌else◌, All,
}
use flurry.Prelude.Words.{add64, sub64}
use flurry.Prelude.Memory.{Mem}
use flurry.Prelude.Outcome.{ok, panic}
use flurry.Kmalloc.{
  Heap, heap_start, prev_of, next_of, is_in_heap_bounds, get_flag, get_sz, flag_is_free,
  flag_is_prev_free, free_alone, free_with_prev, free_with_next, free_with_both, free_chunk, kfree,
}
use flurry.Kmalloc.Meta.{get_sz-IsMeta, get_flag-free, get_flag-prev_free}
use flurry.Kmalloc.Freelist.{NotLink, IsFreelist}
use flurry.Kmalloc.Layout.{Chunk, used, unused, Tiles, Tiles-le, free_at, words}
use flurry.Kmalloc.Layout.Bags.{count, All-map, All-same}
use flurry.Kmalloc.Layout.Suffix.{chunks_from, starts, prev_at, starts-le}
use flurry.Kmalloc.Invariant.{IsHeap, words-clear, IsChange}
use flurry.Kmalloc.InUse.{InUse, InUse-NotLink, used_at}
use flurry.Kmalloc.Alloc.{in_bounds, out_of_bounds}
use flurry.Kmalloc.Free.{head_free, free_here, All-split, InUse-split}
use flurry.Kmalloc.Free.Frame.{Kept}

kfree-eq :
    (ptr : ℕ) (h : Heap)
    → kfree ptr h ≡ (
        let to_free = sub64 ptr 8 in
        if is_in_heap_bounds ptr
        then (if get_flag h.mem to_free flag_is_free then panic else free_chunk to_free h)
        else panic)
unfolding kfree
kfree-eq ptr h = refl

free_chunk-eq :
    (b : ℕ) (h : Heap)
    → free_chunk b h ≡ (
        let next = add64 b (get_sz h.mem b) in
        let coalesce_with_prev = get_flag h.mem b flag_is_prev_free in
        let coalesce_with_next = is_in_heap_bounds next && get_flag h.mem next flag_is_free in
        if coalesce_with_prev
        then (if coalesce_with_next then free_with_both b h else ok (free_with_prev b h))
        else (if coalesce_with_next then free_with_next b h else ok (free_alone b h)))
unfolding free_chunk
free_chunk-eq b h = refl

-- The test for a free chunk behind says whether there is one.
coalesce_with_next_lem :
    (m : Mem) (a : ℕ) (rest : List Chunk)
    → heap_start ≤ a
    → Tiles m a false rest
    → (is_in_heap_bounds a && get_flag m a flag_is_free) ≡ head_free rest
coalesce_with_next_lem m a [] lo t = rw (out_of_bounds a (omega (arith, t)))
coalesce_with_next_lem m a (used n ∷ cs) lo t =
    rw (in_bounds a lo (omega (arith, t.1, Tiles-le m (a + n) false cs t.2)), get_flag-free t.0)
coalesce_with_next_lem m a (unused n ∷ cs) lo t =
    rw (in_bounds a lo (omega (arith, t.1, Tiles-le m (a + n) true cs t.2)), get_flag-free t.0)

-- On a chunk in use, `kfree` takes the way that its neighbours say.
pub free_chunk_lem :
    (h : Heap) (b s : ℕ) (prev : Bool) (rest : List Chunk)
    → heap_start ≤ b
    → Tiles h.mem b prev (used s ∷ rest)
    → free_chunk b h ≡ (
        if prev
        then (if head_free rest then free_with_both b h else ok (free_with_prev b h))
        else (if head_free rest then free_with_next b h else ok (free_alone b h)))
free_chunk_lem h b s prev rest lo row =
    let size : get_sz h.mem b ≡ s = get_sz-IsMeta row.0 in
    let next : add64 b s ≡ b + s = omega (arith, Tiles-le h.mem (b + s) false rest row.2) in
    let before : get_flag h.mem b flag_is_prev_free ≡ prev = get_flag-prev_free row.0 in
    free_chunk-eq b h
    ∙ rw (size, next, before, coalesce_with_next_lem h.mem (b + s) rest (omega (arith, lo)) row.2)
        refl

-- The tests at the start of `kfree`.
pub kfree-used :
    (h : Heap) (b s : ℕ) (prev : Bool) (rest : List Chunk)
    → heap_start ≤ b
    → Tiles h.mem b prev (used s ∷ rest)
    → kfree (b + 8) h ≡ free_chunk b h
kfree-used h b s prev rest lo row =
    let le = Tiles-le h.mem (b + s) false rest row.2 in
    let inside = in_bounds (b + 8) (omega (arith, lo)) (omega (arith, le, row.1)) in
    let back : sub64 (b + 8) 8 ≡ b = omega (arith, lo, le, row.1) in
    kfree-eq (b + 8) h ∙ rw (inside, back, get_flag-free row.0) refl

pub kfree-unused :
    (h : Heap) (b s : ℕ) (prev : Bool) (rest : List Chunk)
    → heap_start ≤ b
    → Tiles h.mem b prev (unused s ∷ rest)
    → kfree (b + 8) h ≡ panic
kfree-unused h b s prev rest lo row =
    let le = Tiles-le h.mem (b + s) true rest row.2 in
    let inside = in_bounds (b + 8) (omega (arith, lo)) (omega (arith, le, row.1)) in
    let back : sub64 (b + 8) 8 ≡ b = omega (arith, lo, le, row.1) in
    kfree-eq (b + 8) h ∙ rw (inside, back, get_flag-free row.0) refl

pub kfree-outside : (ptr : ℕ) (h : Heap) → is_in_heap_bounds ptr ≡ false → kfree ptr h ≡ panic
kfree-outside ptr h out = kfree-eq ptr h ∙ rw out refl

-- What one way of `kfree` has to show, for a chunk of size `s` at `b`.
pub record FreedChunk (h : Heap) (cs : List Chunk) (xs : List ℕ) (b s : ℕ) : Type 0 where
  pub h' : Heap
  pub xs' : List ℕ
  pub at_chunk : ℕ
  pub returns : free_chunk b h ≡ ok h'
  pub change : IsChange h cs xs at_chunk free_here h' xs'
  pub fewer :
      (x : ℕ)
      → count x (used_at at_chunk (free_here (chunks_from at_chunk heap_start cs)))
          + (if x == b then 1 else 0)
        ≡ count x (used_at at_chunk (chunks_from at_chunk heap_start cs))
  pub untouched : (w : ℕ) → InUse w heap_start cs → (w < b) ⊎ (b + s ≤ w) → h'.mem w ≡ h.mem w

module _ {h : Heap} {cs : List Chunk} {xs : List ℕ} (v : IsHeap h cs xs) (q : ℕ)
    (st : starts q heap_start cs ≡ true) where
  pub lo_of : heap_start ≤ q
  lo_of = starts-le h.mem q heap_start false cs v.tiles st

  -- The nodes of the freelist lie before the chunk or in the row from it on.
  pub listed_around {ℓ} :
      (P : ℕ → Type ℓ) (here : List Chunk)
      → chunks_from q heap_start cs ≡ here
      → ((x : ℕ) → x + 32 ≤ q → P x)
      → All P (free_at q here)
      → All P xs
  listed_around P here e low all =
      All-same P xs _ v.same_items
        (All-split P h.mem q heap_start false cs v.tiles st low (rw e all))

  module _ (size : ℕ) (h' : Heap) (kept : Kept h xs q size h') where
    pub before_of : All (λ w. w < q → h'.mem w ≡ h.mem w) (words heap_start cs)
    before_of =
        All-map (λ w. NotLink w xs) (λ w. w < q → h'.mem w ≡ h.mem w)
          (λ w clear lt. kept w (inl lt) clear) (words heap_start cs) (words-clear v)

    pub untouched_of :
        (w : ℕ) (here : List Chunk)
        → chunks_from q heap_start cs ≡ here
        → (InUse w q here → q + size < w)
        → InUse w heap_start cs
        → h'.mem w ≡ h.mem w
    untouched_of w here e away u =
        kept w
          (elim (InUse-split h.mem w q heap_start false cs v.tiles st u) [
            | inl lt ↦ inl lt
            | inr u' ↦ inr (away (rw e at u'))
          ])
          (All-same (λ a. (w ≢ prev_of a) × (w ≢ next_of a)) xs _ v.same_items
            (InUse-NotLink h.mem w heap_start false cs (omega arith) v.tiles u))

-- A way of `kfree` that works on the row from `q` on, which was `old` and is now `new`.
pub FreedChunk-at :
    {h : Heap} {cs : List Chunk} {xs : List ℕ}
    → IsHeap h cs xs
    → (b s q size : ℕ) (old new : List Chunk) (h' : Heap) (xs' : List ℕ)
    → starts q heap_start cs ≡ true
    → chunks_from q heap_start cs ≡ old
    → free_here old ≡ new
    → prev_at q heap_start false cs ≡ false
    → free_chunk b h ≡ ok h'
    → Kept h xs q size h'
    → Tiles h'.mem q false new
    → IsFreelist h' xs'
    → ((x : ℕ) → count x xs' + count x (free_at q old) ≡ count x xs + count x (free_at q new))
    → ((x : ℕ) → count x (used_at q new) + (if x == b then 1 else 0) ≡ count x (used_at q old))
    → ((w : ℕ) → InUse w q old → (w < b) ⊎ (b + s ≤ w) → q + size < w)
    → FreedChunk h cs xs b s
FreedChunk-at v b s q size old new h' xs' st here to first returns kept row listed items fewer
      away =
    record {
      h' = h';
      xs' = xs';
      at_chunk = q;
      returns = returns;
      change = record {
        starts_at = st;
        before = before_of v q st size h' kept;
        row = rw (first, here, to) row;
        freelist = listed;
        items = λ x. rw (here, to) (items x);
      };
      fewer = λ x. rw (here, to) (fewer x);
      untouched = λ w u out. untouched_of v q st size h' kept w old here (λ u'. away w u' out) u;
    }
