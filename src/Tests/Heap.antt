-- ===== src/Tests/Heap.antt =====
-- The heap from its first initialisation.
use flurry.Prelude.{
  inl, inr, ◌==◌, if◌then◌else◌, ◌+◌, ◌-◌, ◌≤◌, ◌≡◌, refl, ◌⊎◌, [], ◌∷◌, arith, All, true, false,
}
use flurry.Prelude.Outcome.{ok, panic}
use flurry.Kmalloc.{
  Heap, heap_start, heap_size, null, alloc_size, fits, get_sz, kmalloc, kfree, init_heap, find_free,
}
use flurry.Kmalloc.Meta.{get_sz-IsMeta}
use flurry.Kmalloc.Layout.{used, unused}
use flurry.Kmalloc.Search.{first_fit, find_free-first_fit}
use flurry.Kmalloc.Invariant.{IsHeap, IsHeap-Spread}
use flurry.Kmalloc.Init.{init_heap-IsHeap}
use flurry.Kmalloc.Malloc.{Served, kmalloc-Served}
use flurry.Kmalloc.Free.Whole.{Freed, kfree-Freed, kfree-refuses}
use flurry.Kmalloc.RoundTrip.{Restored, kmalloc-kfree}
use flurry.Kmalloc.Size.{alloc_size_enough}

abbrev blank : Heap
blank = record { mem = λ a. 0; freelist_head = null }

kmalloc-Served_example :
    ((kmalloc 2 100 (init_heap blank) ≡ panic)
      × All (λ x. fits (alloc_size 100) (get_sz (init_heap blank).mem x) ≡ false) (heap_start ∷ []))
    ⊎ Served (init_heap blank) (unused heap_size ∷ []) (heap_start ∷ []) 2 100
kmalloc-Served_example =
    kmalloc-Served (init_heap-IsHeap blank refl) 2 100 (omega arith) (omega arith)

alloc_size_enough_example :
    (100 + 8 ≤ alloc_size 100) × ((alloc_size 100 ≡ 32) ⊎ (alloc_size 100 ≤ 100 + 15))
alloc_size_enough_example = alloc_size_enough 100 (omega arith)

-- The initial heap's list as the one-node list of its chunk.
first : IsHeap (init_heap blank) (unused heap_size ∷ []) (heap_start ∷ [])
first = init_heap-IsHeap blank refl

find_free-first_fit_example :
    find_free 2 (init_heap blank).mem 112 (init_heap blank).freelist_head
    ≡ ok (first_fit (init_heap blank).mem 112 (heap_start ∷ []))
find_free-first_fit_example =
    find_free-first_fit 2 (init_heap blank).mem 112 null (init_heap blank).freelist_head
      (heap_start ∷ []) first.freelist.links (IsHeap-Spread first) (omega arith)

first_size : get_sz (init_heap blank).mem heap_start ≡ heap_size
first_size = get_sz-IsMeta first.tiles.0

heap_fits : fits (alloc_size 100) heap_size ≡ true
unfolding fits alloc_size
heap_fits = refl

served : Served (init_heap blank) (unused heap_size ∷ []) (heap_start ∷ []) 2 100
served = elim (kmalloc-Served first 2 100 (omega arith) (omega arith)) [
  | inl missed ↦ cc (missed.1.0, first_size, heap_fits)
  | inr s ↦ s
]

kmalloc-kfree_example : Restored (init_heap blank) (unused heap_size ∷ []) served.b served.h'
kmalloc-kfree_example = kmalloc-kfree first 2 100 served

-- A chunk in use of 32 bytes, and the rest of the heap free behind it.
abbrev one_used : Heap
one_used = record {
  mem = λ a. if a == heap_start then 32 else if a == heap_start + 32 then heap_size - 32 + 1 else 0;
  freelist_head = heap_start + 32;
}

one_used-IsHeap : IsHeap one_used (used 32 ∷ unused (heap_size - 32) ∷ []) ((heap_start + 32) ∷ [])
one_used-IsHeap = record {
  tiles = (
    record { fits = omega arith; size = refl; prev_bit = refl; free_bit = refl },
    omega arith,
    (
      record { fits = omega arith; size = refl; prev_bit = refl; free_bit = refl },
      omega arith,
      refl,
      tt,
      refl,
    ),
  );
  freelist = record { links = (refl, refl, refl) };
  same_items = λ x. refl;
}

kfree-Freed_example : Freed one_used (used 32 ∷ unused (heap_size - 32) ∷ []) heap_start
kfree-Freed_example = kfree-Freed one_used-IsHeap heap_start refl

kfree-refuses_example : kfree (heap_start + 40) one_used ≡ panic
kfree-refuses_example = kfree-refuses one_used-IsHeap (heap_start + 40) (inr refl)
