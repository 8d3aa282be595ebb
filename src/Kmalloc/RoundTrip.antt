-- ===== src/Kmalloc/RoundTrip.antt =====
-- A block served by `kmalloc` and given back to `kfree`.
use flurry.Prelude.{
  ℕ, ◌+◌, ◌-◌, ◌<◌, ◌≤◌, ◌≡◌, refl, sym, ◌∙◌, ap, ◌⊎◌, inl, inr, true, false, List, [], ◌∷◌, arith,
  ◌==◌, ==_iff, ==_refl, Bool-cases,
}
use flurry.Prelude.Outcome.{ok}
use flurry.Kmalloc.{Heap, heap_start, alloc_size, kfree}
use flurry.Kmalloc.Freelist.{has}
use flurry.Kmalloc.Layout.{Chunk, used, unused, size_of, Tiles}
use flurry.Kmalloc.Layout.Bags.{has-count, SameItems}
use flurry.Kmalloc.Layout.Suffix.{
  head_size, chunks_from, replace, starts, prev_at, chunks_from-Tiles,
}
use flurry.Kmalloc.Invariant.{IsHeap, IsHeap-starts}
use flurry.Kmalloc.InUse.{InUse, InUse-beside, used_at}
use flurry.Kmalloc.Alloc.{alloc_here}
use flurry.Kmalloc.Malloc.{Served}
use flurry.Kmalloc.Free.{chunks_from-here, free_here}
use flurry.Kmalloc.Free.Whole.{kfree-Freed}

chunks_from-replace :
    (b : ℕ) (new : List Chunk → List Chunk) (a : ℕ) (cs : List Chunk)
    → starts b a cs ≡ true
    → chunks_from b a (replace b new a cs) ≡ new (chunks_from b a cs)
chunks_from-replace b new a [] st = cc
chunks_from-replace b new a (c ∷ cs) st = elim (Bool-cases (b == a)) [
  | inl e ↦ rw e (chunks_from-here b a (new (c ∷ cs)) ((==_iff b a).0 e))
  | inr e ↦ rw e (rw e (chunks_from-replace b new (a + size_of c) cs (rw e at st)))
]

-- What is in use stays so when a free chunk is taken.
InUse-alloc_here :
    (w b s sz : ℕ) (rest : List Chunk)
    → (s ≡ sz) ⊎ (sz + 32 ≤ s)
    → InUse w (b + s) rest
    → InUse w b (alloc_here sz (unused s ∷ rest))
InUse-alloc_here w b s sz rest (inl e) u = rw (e, ==_refl sz) (inr (rw e at u))
InUse-alloc_here w b s sz rest (inr fit) u =
    let larger : (s == sz) ≡ false = ground arith in
    let e : b + sz + (s - sz) ≡ b + s = omega arith in rw (larger, e) (inr u)

InUse-replace :
    (w b s sz : ℕ) (rest : List Chunk) (a : ℕ) (cs : List Chunk)
    → (s ≡ sz) ⊎ (sz + 32 ≤ s)
    → chunks_from b a cs ≡ unused s ∷ rest
    → InUse w a cs
    → InUse w a (replace b (alloc_here sz) a cs)
InUse-replace w b s sz rest a [] room here u = absurd u
InUse-replace w b s sz rest a (used n ∷ cs) room here u = elim (Bool-cases (b == a)) [
  | inl e ↦ cc (rw e at here)
  | inr e ↦ rw e (elim u [
    | inl within ↦ inl within
    | inr u' ↦ inr (InUse-replace w b s sz rest (a + n) cs room (rw e at here) u')
  ])
]
InUse-replace w b s sz rest a (unused n ∷ cs) room here u = elim (Bool-cases (b == a)) [
  | inl e ↦
      let size : n ≡ s = ap head_size (rw e at here) in
      rw e (InUse-alloc_here w a n sz cs (rw size room) u)
  | inr e ↦ rw e (InUse-replace w b s sz rest (a + n) cs room (rw e at here) u)
]

head_size-alloc_here :
    (s sz : ℕ) (rest : List Chunk) → head_size (alloc_here sz (unused s ∷ rest)) ≡ sz
head_size-alloc_here s sz rest = elim (Bool-cases (s == sz)) [
  | inl e ↦ rw e refl
  | inr e ↦ rw e refl
]

-- A block given back that was just served: the same blocks are in use as before it was, and no word
-- of those was written.
pub record Restored (h : Heap) (cs : List Chunk) (b : ℕ) (h1 : Heap) : Type 0 where
  pub h2 : Heap
  pub cs2 : List Chunk
  pub xs2 : List ℕ
  pub returns : kfree (b + 8) h1 ≡ ok h2
  pub heap : IsHeap h2 cs2 xs2
  pub same_used : SameItems (used_at heap_start cs2) (used_at heap_start cs)
  pub untouched : (w : ℕ) → InUse w heap_start cs → h2.mem w ≡ h.mem w

module _ {h : Heap} {cs : List Chunk} {xs : List ℕ} (v : IsHeap h cs xs) (rounds sz : ℕ)
    (s : Served h cs xs rounds sz) where
  abbrev after : List Chunk
  after = replace s.b (alloc_here (alloc_size sz)) heap_start cs

  in_use : has s.b (used_at heap_start after) ≡ true
  in_use = has-count s.b (used_at heap_start after) (ground (arith, s.one_more s.b, ==_refl s.b))

  -- What was in use lies away from the block.
  apart :
      (size : ℕ) (rest : List Chunk)
      → chunks_from s.b heap_start after ≡ used size ∷ rest
      → (w : ℕ) → InUse w heap_start cs
      → (w < s.b) ⊎ (s.b + size ≤ w)
  apart size rest there w u =
      let st = IsHeap-starts v s.b s.was_free in
      let row : Tiles h.mem s.b (prev_at s.b heap_start false cs) (unused s.size ∷ s.rest) =
        rw s.here at (chunks_from-Tiles h.mem s.b heap_start false cs v.tiles st) in
      let taken : size ≡ head_size (alloc_here (alloc_size sz) (unused s.size ∷ s.rest)) =
        ap head_size (
          sym there
          ∙ chunks_from-replace s.b (alloc_here (alloc_size sz)) heap_start cs st
          ∙ ap (alloc_here (alloc_size sz)) s.here) in
      let same : size ≡ alloc_size sz =
        taken ∙ head_size-alloc_here s.size (alloc_size sz) s.rest in
      let side =
        InUse-beside h.mem w s.b s.size s.rest heap_start false cs v.tiles st s.here row.2 u in
      ground (arith, s.room, same, side)

  -- When `kmalloc` has served a block on a well-formed heap, `kfree` of the address it returned
  -- succeeds and leaves a well-formed heap, with exactly the chunks in use that were before, and no
  -- word of those chunks was written.
  pub kmalloc-kfree : Restored h cs s.b s.h'
  kmalloc-kfree =
      let f = kfree-Freed s.heap s.b in_use in
      record {
        h2 = f.h';
        cs2 = replace f.at_chunk free_here heap_start after;
        xs2 = f.xs';
        returns = f.returns;
        heap = f.heap;
        same_used = λ x. omega (arith, f.one_less x, s.one_more x);
        untouched = λ w u.
            f.untouched w
              (InUse-replace w s.b s.size (alloc_size sz) s.rest heap_start cs s.room s.here u)
              (apart f.size f.was_used.0 f.was_used.1 w u)
            ∙ s.untouched w u;
      }
