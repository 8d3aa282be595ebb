-- ===== src/Kmalloc/Malloc.antt =====
-- `kmalloc` whole: on a well-formed heap it either finds no chunk that fits and stops the machine,
-- or returns a fresh block.
use flurry.Prelude.{
  ℕ, ◌+◌, ◌-◌, ◌^◌, ◌<◌, ◌≤◌, ◌≡◌, ◌≢◌, refl, ◌∙◌, ap, ◌⊎◌, inl, inr, true, false, List, ◌∷◌, arith,
  ◌==◌, ==_refl, ne→==, if◌then◌else◌, length, All,
}
use flurry.Prelude.Outcome.{ok, panic, ◌>>=◌}
use flurry.Kmalloc.{
  Heap, heap_start, null, prev_of, next_of, alloc_size, find_free, fits, get_sz,
  freelist_remove_node, carve, kmalloc,
}
use flurry.Kmalloc.Meta.{get_sz-IsMeta}
use flurry.Kmalloc.Freelist.{has}
use flurry.Kmalloc.Freelist.Unlink.{Removed, freelist_remove_node-Removed}
use flurry.Kmalloc.Layout.{Chunk, unused}
use flurry.Kmalloc.Layout.Bags.{count, All-same}
use flurry.Kmalloc.Layout.Suffix.{chunks_from, replace}
use flurry.Kmalloc.Size.{alloc_size_shape, alloc_size_enough}
use flurry.Kmalloc.Search.{first_fit, first_fit-cases, find_free-first_fit, fits_lem, Hit}
use flurry.Kmalloc.Invariant.{IsHeap, IsHeap-Spread, IsChange-IsHeap}
use flurry.Kmalloc.Site.{FreeSite, free_site}
use flurry.Kmalloc.InUse.{InUse, InUse-beside, InUse-NotLink, used_at, count_used-replace}
use flurry.Kmalloc.Alloc.{alloc_here}
use flurry.Kmalloc.Carve.{carve_lem}

kmalloc-eq :
    (rounds sz : ℕ) (h : Heap)
    → kmalloc rounds sz h ≡ (do
      free ← find_free rounds h.mem (alloc_size sz) h.freelist_head
      if free == null then panic else do
        h1 ← freelist_remove_node free h
        ok (carve free (get_sz h.mem free) (alloc_size sz) h1))
unfolding kmalloc
kmalloc-eq rounds sz h = refl

-- A block served: the chunk at `b` was free, of the size wanted or at least 32 bytes larger, and is now
-- in use, the heap is well formed again, no other block came or went, and no word in use was written.
pub record Served (h : Heap) (cs : List Chunk) (xs : List ℕ) (rounds sz : ℕ) : Type 0 where
  pub b : ℕ
  pub h' : Heap
  pub xs' : List ℕ
  pub returns : kmalloc rounds sz h ≡ ok (b + 8, h')
  pub was_free : has b xs ≡ true
  pub size : ℕ
  pub rest : List Chunk
  pub here : chunks_from b heap_start cs ≡ unused size ∷ rest
  pub room : (size ≡ alloc_size sz) ⊎ (alloc_size sz + 32 ≤ size)
  pub heap : IsHeap h' (replace b (alloc_here (alloc_size sz)) heap_start cs) xs'
  pub one_more :
      (x : ℕ)
      → count x (used_at heap_start (replace b (alloc_here (alloc_size sz)) heap_start cs))
        ≡ count x (used_at heap_start cs) + (if x == b then 1 else 0)
  pub untouched : (w : ℕ) → InUse w heap_start cs → h'.mem w ≡ h.mem w

one_more_used :
    (x b s sz : ℕ) (rest : List Chunk)
    → (s ≡ sz) ⊎ (sz + 32 ≤ s)
    → count x (used_at b (alloc_here sz (unused s ∷ rest)))
      ≡ count x (used_at b (unused s ∷ rest)) + (if x == b then 1 else 0)
one_more_used x b s sz rest (inl e) = rw (e, ==_refl sz) (omega arith)
one_more_used x b s sz rest (inr fit) =
    let larger : (s == sz) ≡ false = ground arith in
    let e : b + sz + (s - sz) ≡ b + s = omega arith in rw (larger, e) (omega arith)

module _ {h : Heap} {cs : List Chunk} {xs : List ℕ} (v : IsHeap h cs xs) (rounds sz : ℕ)
    (small : sz + 80 ≤ 2 ^ 64) (enough : length xs < rounds) where
  search :
      find_free rounds h.mem (alloc_size sz) h.freelist_head
      ≡ ok (first_fit h.mem (alloc_size sz) xs)
  search =
      find_free-first_fit rounds h.mem (alloc_size sz) null h.freelist_head xs v.freelist.links
        (IsHeap-Spread v) enough

  exhausted : first_fit h.mem (alloc_size sz) xs ≡ null → kmalloc rounds sz h ≡ panic
  exhausted e = kmalloc-eq rounds sz h ∙ rw (search, e)

  module _ (b s : ℕ) (rest : List Chunk) (hit : Hit h.mem (alloc_size sz) xs b)
      (found : first_fit h.mem (alloc_size sz) xs ≡ b) (site : FreeSite h cs xs b s rest) where
    size : get_sz h.mem b ≡ s
    size = get_sz-IsMeta site.row.0

    room : (s ≡ alloc_size sz) ⊎ (alloc_size sz + 32 ≤ s)
    room =
        fits_lem (alloc_size sz) s (ground (arith, alloc_size_enough sz (omega arith)))
          (rw size at hit.fit)

    counted :
        (x : ℕ)
        → count x (used_at b (alloc_here (alloc_size sz) (chunks_from b heap_start cs)))
          ≡ count x (used_at b (chunks_from b heap_start cs)) + (if x == b then 1 else 0)
    counted x = rw site.here (one_more_used x b s (alloc_size sz) rest room)

    serve_from :
        (h1 : Heap)
        → freelist_remove_node b h ≡ ok h1
        → Removed b h xs h1
        → Served h cs xs rounds sz
    serve_from h1 out removed =
        let shape = alloc_size_shape sz in
        let carved = carve_lem b s (alloc_size sz) v hit.listed site removed shape.0 shape.1 room in
        record {
          b = b;
          h' = carved.result;
          xs' = carved.listed;
          returns =
              kmalloc-eq rounds sz h
              ∙ rw (search, found, ne→== b null hit.real, out, size) (ap ok carved.returns);
          was_free = hit.listed;
          size = s;
          rest = rest;
          here = site.here;
          room = room;
          heap = IsChange-IsHeap v carved.change;
          one_more = λ x. omega (
            arith,
            count_used-replace x b (alloc_here (alloc_size sz)) heap_start cs site.starts_at,
            counted x,
          );
          untouched = λ w u.
              carved.kept w
                (InUse-beside h.mem w b s rest heap_start false cs v.tiles site.starts_at site.here
                  site.row.2 u)
                (All-same (λ a. (w ≢ prev_of a) × (w ≢ next_of a)) xs _ v.same_items
                  (InUse-NotLink h.mem w heap_start false cs (omega arith) v.tiles u));
        }

  serve :
      (b : ℕ)
      → Hit h.mem (alloc_size sz) xs b
      → first_fit h.mem (alloc_size sz) xs ≡ b
      → Served h cs xs rounds sz
  serve b hit found =
      let place = free_site v b hit.listed in
      let out = freelist_remove_node-Removed b h xs v.freelist (IsHeap-Spread v) hit.listed in
      serve_from b place.0 place.1 hit found place.2 out.0 out.1 out.2

  -- On a well-formed heap, with rounds for the whole freelist and a request of at most 2 ^ 64 - 80
  -- bytes, so that no sum wraps, `kmalloc` either stops the machine, and then no free chunk fits, or
  -- serves a block: it returns the address eight bytes into a chunk that was free, of the size wanted
  -- or at least 32 bytes larger, the heap is well formed again, exactly that one block came into use,
  -- and no word of a block in use was written.
  pub kmalloc-Served :
      ((kmalloc rounds sz h ≡ panic) × All (λ x. fits (alloc_size sz) (get_sz h.mem x) ≡ false) xs)
      ⊎ Served h cs xs rounds sz
  kmalloc-Served = elim (first_fit-cases h.mem (alloc_size sz) xs (IsHeap-Spread v)) [
    | inl missed ↦ inl (exhausted missed.0, missed.1)
    | inr hit ↦ inr (serve _ hit refl)
  ]
