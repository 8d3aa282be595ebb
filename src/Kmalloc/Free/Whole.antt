-- ===== src/Kmalloc/Free/Whole.antt =====
-- `kfree` whole: a block in use is given back, and nothing else is taken for one.
use flurry.Prelude.{
  ℕ, ◌+◌, ◌<◌, ◌≤◌, ◌≡◌, refl, ◌∙◌, ◌⊎◌, inl, inr, Bool, true, false, List, [], ◌∷◌, arith, ◌==◌,
  if◌then◌else◌, Bool-cases,
}
use mathlib.Core.Path.{subst}
use flurry.Prelude.Words.{sub64}
use flurry.Prelude.Memory.{Mem}
use flurry.Prelude.Outcome.{ok, panic}
use flurry.Kmalloc.{Heap, heap_start, heap_end, is_in_heap_bounds, kfree}
use flurry.Kmalloc.Freelist.{has}
use flurry.Kmalloc.Layout.{Chunk, used, unused, Tiles}
use flurry.Kmalloc.Layout.Bags.{count}
use flurry.Kmalloc.Layout.Suffix.{
  chunks_from, replace, starts, prev_at, starts-le, chunks_from-Tiles,
}
use flurry.Kmalloc.Invariant.{IsHeap, IsChange-IsHeap}
use flurry.Kmalloc.Site.{free_site}
use flurry.Kmalloc.InUse.{InUse, used_at, count_used-replace}
use flurry.Kmalloc.Free.{before_lem, free_here}
use flurry.Kmalloc.Free.Steps.{kfree-used, kfree-unused, kfree-outside, FreedChunk}
use flurry.Kmalloc.Free.Cases.{alone-FreedChunk, next-FreedChunk}
use flurry.Kmalloc.Free.CasesPrev.{prev-FreedChunk, both-FreedChunk}

starts-used_at : (b a : ℕ) (cs : List Chunk) → has b (used_at a cs) ≡ true → starts b a cs ≡ true
starts-used_at b a [] e = e
starts-used_at b a (used sz ∷ cs) e = ground (arith, starts-used_at b (a + sz) cs)
starts-used_at b a (unused sz ∷ cs) e = ground (arith, starts-used_at b (a + sz) cs)

-- At the address of a chunk in use the row goes on with it.
chunks_from-used :
    (m : Mem) (b a : ℕ) (prev : Bool) (cs : List Chunk)
    → Tiles m a prev cs
    → has b (used_at a cs) ≡ true
    → (s : ℕ) × (rest : List Chunk) × (chunks_from b a cs ≡ used s ∷ rest)
chunks_from-used m b a prev [] t e = cc
chunks_from-used m b a prev (used sz ∷ cs) t e = elim (Bool-cases (b == a)) [
  | inl q ↦ (sz, cs, rw q)
  | inr q ↦ rw q (chunks_from-used m b (a + sz) false cs t.2 (rw q at e))
]
chunks_from-used m b a prev (unused sz ∷ cs) t e =
    let le = starts-le m b (a + sz) true cs t.2 (starts-used_at b (a + sz) cs e) in
    let q : (b == a) ≡ false = ground arith in rw q (chunks_from-used m b (a + sz) true cs t.2 e)

module _ {h : Heap} {cs : List Chunk} {xs : List ℕ} (v : IsHeap h cs xs) where
  -- No free chunk lies before the one to be freed.
  none_before :
      (b s : ℕ) (rest : List Chunk)
      → starts b heap_start cs ≡ true
      → chunks_from b heap_start cs ≡ used s ∷ rest
      → prev_at b heap_start false cs ≡ false
      → Tiles h.mem b false (used s ∷ rest)
      → FreedChunk h cs xs b s
  none_before b s [] st here first row = alone-FreedChunk v b s [] st here first row refl
  none_before b s (used n ∷ rest) st here first row =
      alone-FreedChunk v b s (used n ∷ rest) st here first row refl
  none_before b s (unused n ∷ rest) st here first row =
      next-FreedChunk v b s n rest st here first row

  -- One does.
  one_before :
      (p k s : ℕ) (rest : List Chunk)
      → starts p heap_start cs ≡ true
      → chunks_from p heap_start cs ≡ unused k ∷ (used s ∷ rest)
      → prev_at p heap_start false cs ≡ false
      → Tiles h.mem p false (unused k ∷ (used s ∷ rest))
      → FreedChunk h cs xs (p + k) s
  one_before p k s [] st here first row = prev-FreedChunk v p k s [] st here first row refl
  one_before p k s (used n ∷ rest) st here first row =
      prev-FreedChunk v p k s (used n ∷ rest) st here first row refl
  one_before p k s (unused n ∷ rest) st here first row =
      both-FreedChunk v p k s n rest st here first row

  free_chunk-FreedChunk :
      (b s : ℕ) (rest : List Chunk)
      → starts b heap_start cs ≡ true
      → chunks_from b heap_start cs ≡ used s ∷ rest
      → Tiles h.mem b (prev_at b heap_start false cs) (used s ∷ rest)
      → FreedChunk h cs xs b s
  free_chunk-FreedChunk b s rest st here row = elim (Bool-cases (prev_at b heap_start false cs)) [
    | inl e ↦ elim (before_lem h.mem b heap_start false cs v.tiles st e) [
      | inl first ↦ cc (first.1)
      | inr f ↦
          let there : chunks_from f.p heap_start cs ≡ unused f.k ∷ (used s ∷ rest) =
            f.here ∙ rw here refl in
          let row' : Tiles h.mem f.p (prev_at f.p heap_start false cs)
              (unused f.k ∷ (used s ∷ rest)) =
            rw there at (chunks_from-Tiles h.mem f.p heap_start false cs v.tiles f.starts_at) in
          let first : prev_at f.p heap_start false cs ≡ false = row'.4 in
          subst (λ x. FreedChunk h cs xs x s) f.ends
            (one_before f.p f.k s rest f.starts_at there first (rw first at row'))
    ]
    | inr e ↦ none_before b s rest st here e (rw e at row)
  ]

-- A block given back: the chunk at `b`, of size `size`, was in use and is now free, the heap is well
-- formed again, no other block came or went, and no word in use outside that chunk was written.
pub record Freed (h : Heap) (cs : List Chunk) (b : ℕ) : Type 0 where
  pub h' : Heap
  pub xs' : List ℕ
  pub at_chunk : ℕ
  pub size : ℕ
  pub returns : kfree (b + 8) h ≡ ok h'
  pub heap : IsHeap h' (replace at_chunk free_here heap_start cs) xs'
  pub one_less :
      (x : ℕ)
      → count x (used_at heap_start (replace at_chunk free_here heap_start cs))
          + (if x == b then 1 else 0)
        ≡ count x (used_at heap_start cs)
  pub was_used : (rest : List Chunk) × (chunks_from b heap_start cs ≡ used size ∷ rest)
  pub untouched : (w : ℕ) → InUse w heap_start cs → (w < b) ⊎ (b + size ≤ w) → h'.mem w ≡ h.mem w

bounds_of : (ptr : ℕ) → is_in_heap_bounds ptr ≡ true → (heap_start ≤ ptr) × (ptr < heap_end)
unfolding is_in_heap_bounds
bounds_of ptr e = ground (arith, e)

module _ {h : Heap} {cs : List Chunk} {xs : List ℕ} (v : IsHeap h cs xs) where
  -- On a well-formed heap, `kfree` of the address behind the header of a chunk in use returns, and
  -- gives back that chunk, merged with the free chunks beside it: the heap is well formed again,
  -- exactly that one chunk is no longer in use, and no word of another chunk in use was written.
  pub kfree-Freed : (b : ℕ) → has b (used_at heap_start cs) ≡ true → Freed h cs b
  kfree-Freed b in_use =
      let st = starts-used_at b heap_start cs in_use in
      let found = chunks_from-used h.mem b heap_start false cs v.tiles in_use in
      let row : Tiles h.mem b (prev_at b heap_start false cs) (used found.0 ∷ found.1) =
        rw found.2 at (chunks_from-Tiles h.mem b heap_start false cs v.tiles st) in
      let f = free_chunk-FreedChunk v b found.0 found.1 st found.2 row in
      record {
        h' = f.h';
        xs' = f.xs';
        at_chunk = f.at_chunk;
        size = found.0;
        returns =
            kfree-used h b found.0 _ found.1 (starts-le h.mem b heap_start false cs v.tiles st) row
            ∙ f.returns;
        heap = IsChange-IsHeap v f.change;
        one_less = λ x. omega (
          arith,
          f.fewer x,
          count_used-replace x f.at_chunk free_here heap_start cs f.change.starts_at,
        );
        was_used = (found.1, found.2);
        untouched = f.untouched;
      }

  kfree-free_block : (b : ℕ) → has b xs ≡ true → kfree (b + 8) h ≡ panic
  kfree-free_block b listed =
      let place = free_site v b listed in
      kfree-unused h b place.0 false place.1 place.2.lo place.2.row

  -- On a well-formed heap, `kfree` stops the machine when the address is out of the heap, or when a
  -- free chunk lies eight bytes before it.
  pub kfree-refuses :
      (ptr : ℕ)
      → (is_in_heap_bounds ptr ≡ false) ⊎ (has (sub64 ptr 8) xs ≡ true)
      → kfree ptr h ≡ panic
  kfree-refuses ptr (inl out) = kfree-outside ptr h out
  kfree-refuses ptr (inr listed) = elim (Bool-cases (is_in_heap_bounds ptr)) [
    | inl e ↦
        let within = bounds_of ptr e in
        let back : sub64 ptr 8 + 8 ≡ ptr = omega (arith, within) in
        subst (λ p. kfree p h ≡ panic) back (kfree-free_block (sub64 ptr 8) listed)
    | inr e ↦ kfree-outside ptr h e
  ]
