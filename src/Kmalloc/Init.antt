-- ===== src/Kmalloc/Init.antt =====
-- `kmalloc_init`: the heap that it leaves is well formed.
use flurry.Prelude.{◌≡◌, refl, [], ◌∷◌, arith}
use flurry.Kmalloc.{
  Heap, heap_start, heap_size, null, align_sz, mark_remain, freelist_add_node, init_heap,
}
use flurry.Kmalloc.Meta.{IsMeta-frame, mark_remain-IsMeta}
use flurry.Kmalloc.Freelist.{IsFreelist, Spread, freelist_add_node-IsFreelist, freelist_add_node_ne}
use flurry.Kmalloc.Layout.{unused}
use flurry.Kmalloc.Size.{align_sz_lem}
use flurry.Kmalloc.Invariant.{IsHeap}

init-eq :
    (h : Heap)
    → init_heap h
      ≡ freelist_add_node heap_start
          (record h { mem = mark_remain h.mem heap_start (align_sz heap_size) })
unfolding init_heap
init-eq h = refl

module _ (h : Heap) (fresh : h.freelist_head ≡ null) where
  abbrev marked : Heap
  marked = record h { mem = mark_remain h.mem heap_start heap_size }

  marked-empty : IsFreelist marked []
  marked-empty = record { links = fresh }

  one-Spread : Spread (heap_start ∷ [])
  one-Spread = omega arith

  added-IsHeap :
      IsHeap (freelist_add_node heap_start marked) (unused heap_size ∷ []) (heap_start ∷ [])
  added-IsHeap = record {
    tiles = (
      IsMeta-frame marked.mem (freelist_add_node heap_start marked).mem
          (freelist_add_node_ne heap_start marked [] heap_start marked-empty (omega arith))
          (mark_remain-IsMeta h.mem heap_start heap_size (omega arith) (omega arith)),
      omega arith,
      omega arith,
      tt,
      refl,
    );
    freelist = freelist_add_node-IsFreelist heap_start marked [] marked-empty one-Spread;
    same_items = λ x. refl;
  }

  -- From an empty freelist, `kmalloc_init` makes the whole heap one free chunk.
  pub init_heap-IsHeap : IsHeap (init_heap h) (unused heap_size ∷ []) (heap_start ∷ [])
  init_heap-IsHeap =
      let size : align_sz heap_size ≡ heap_size = align_sz_lem heap_size in
      rw (init-eq h, size) added-IsHeap
