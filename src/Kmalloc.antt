-- ===== src/Kmalloc.antt =====
-- The kernel heap, kernel/memory/kmalloc.c: chunks with boundary tags, free ones on a doubly linked
-- list. The heap is the words of `mem`; a chunk is named by its address and starts with its metadata
-- word. A free chunk has its links in the two words behind that and its size in its last word.
pub mod Meta
pub mod Freelist
pub mod Layout
pub mod Size
pub mod Search
pub mod Site
pub mod InUse
pub mod Carve
pub mod Malloc
pub mod Free
pub mod RoundTrip
pub mod Init
pub mod Alloc
pub mod Invariant
use flurry.Prelude.{
  ℕ, zero, suc, ◌+◌, ◌-◌, ◌^◌, bit_and, bit_or, Bool, not, ◌&&◌, ◌||◌, ◌==◌, ltb, leb,
  if◌then◌else◌,
}
use flurry.Prelude.Words.{add64, sub64}
use flurry.Prelude.Memory.{Mem, write}
use flurry.Prelude.Outcome.{Outcome, ok, panic, out_of_fuel, ◌>>=◌}

abbrev pub heap_start : ℕ
heap_start = 0xffff_8100_0000_0000

abbrev pub heap_size : ℕ
heap_size = 0x20_0000

abbrev pub heap_end : ℕ
heap_end = add64 heap_start heap_size

abbrev pub heap_alignment : ℕ
heap_alignment = 8

-- `~x` of a uint64_t.
abbrev pub complement : ℕ → ℕ
complement x = 2 ^ 64 - 1 - x

abbrev pub chunk_size_mask : ℕ
chunk_size_mask = complement (heap_alignment - 1)

abbrev pub flag_is_free : ℕ
flag_is_free = 1

abbrev pub flag_is_prev_free : ℕ
flag_is_prev_free = 2

abbrev pub null : ℕ
null = 0

-- Sizes and offsets of the structs free_node_t, free_footer_t and alloc_hdr_t.
abbrev pub node_size : ℕ
node_size = 24

abbrev pub prev_of : ℕ → ℕ
prev_of p = add64 p 8

abbrev pub next_of : ℕ → ℕ
next_of p = add64 p 16

abbrev pub footer_size : ℕ
footer_size = 8

abbrev pub alloc_hdr_size : ℕ
alloc_hdr_size = 8

pub record Heap : Type 0 where
  pub mem : Mem
  pub freelist_head : ℕ

unfoldable pub align_sz : ℕ → ℕ
align_sz sz = bit_and (add64 sz (heap_alignment - 1)) (complement (heap_alignment - 1))

unfoldable pub get_sz : Mem → ℕ → ℕ
get_sz m chunk = bit_and (m chunk) chunk_size_mask

unfoldable pub set_sz : Mem → ℕ → ℕ → Mem
set_sz m chunk sz =
    write m chunk
      (bit_or (bit_and (m chunk) (complement chunk_size_mask)) (bit_and sz chunk_size_mask))

unfoldable pub get_flag : Mem → ℕ → ℕ → Bool
get_flag m chunk flag = not (bit_and (m chunk) flag == 0)

unfoldable pub set_flag : Mem → ℕ → ℕ → Mem
set_flag m chunk flag = write m chunk (bit_or (m chunk) flag)

unfoldable pub unset_flag : Mem → ℕ → ℕ → Mem
unset_flag m chunk flag = write m chunk (bit_and (m chunk) (complement flag))

unfoldable pub is_in_heap_bounds : ℕ → Bool
is_in_heap_bounds addr = leb heap_start addr && ltb addr heap_end

unfoldable pub freelist_add_node : ℕ → Heap → Heap
freelist_add_node node h =
    if h.freelist_head == null
    then record {
      mem = write (write h.mem (prev_of node) null) (next_of node) null;
      freelist_head = node;
    }
    else record {
      mem =
          write (write (write h.mem (prev_of node) null) (next_of node) h.freelist_head)
            (prev_of h.freelist_head) node;
      freelist_head = node;
    }

-- The two relinking steps of `freelist_remove_node`, each under its test for NULL.
unfoldable pub unlink_prev : ℕ → Mem → Mem
unlink_prev node m =
    if m (prev_of node) == null then m else write m (next_of (m (prev_of node))) (m (next_of node))

unfoldable pub unlink_next : ℕ → Mem → Mem
unlink_next node m =
    if m (next_of node) == null then m else write m (prev_of (m (next_of node))) (m (prev_of node))

unfoldable pub freelist_remove_node : ℕ → Heap → Outcome Heap
unfolding unlink_prev unlink_next
freelist_remove_node node h =
    if node == null
    then panic
    else let m = unlink_next node (unlink_prev node h.mem) in
      ok (record {
        mem = m;
        freelist_head =
            if node == h.freelist_head then m (next_of h.freelist_head) else h.freelist_head;
      })

unfoldable pub free_chunk_min_sz : ℕ
unfolding align_sz
free_chunk_min_sz = align_sz (node_size + footer_size)

-- The size of the chunk that serves a request.
unfoldable pub alloc_size : ℕ → ℕ
unfolding align_sz free_chunk_min_sz
alloc_size sz =
    let alloc_sz = align_sz (add64 sz alloc_hdr_size) in
    if ltb alloc_sz free_chunk_min_sz then free_chunk_min_sz else alloc_sz

-- The test by which the search of `kmalloc` stops.
unfoldable pub fits : ℕ → ℕ → Bool
unfolding free_chunk_min_sz
fits alloc_sz free_sz = free_sz == alloc_sz || leb (add64 alloc_sz free_chunk_min_sz) free_sz

-- The search along the freelist; 0 is the NULL of an exhausted list.
unfoldable pub find_free : ℕ → Mem → ℕ → ℕ → Outcome ℕ
unfolding fits get_sz
find_free zero m alloc_sz free = out_of_fuel
find_free (suc k) m alloc_sz free =
    let rest = find_free k m alloc_sz (m (next_of free)) in
    if free == null then ok null else if fits alloc_sz (get_sz m free) then ok free else rest

-- The chunk is taken whole: the next one has no free chunk before it.
unfoldable pub take_whole : ℕ → ℕ → Heap → Heap
unfolding is_in_heap_bounds unset_flag
take_whole free free_sz h =
    let next = add64 free free_sz in
    if is_in_heap_bounds next then record h { mem = unset_flag h.mem next flag_is_prev_free } else h

-- The metadata of what a split leaves over.
unfoldable pub mark_remain : Mem → ℕ → ℕ → Mem
unfolding set_sz set_flag unset_flag
mark_remain m remain sz =
    unset_flag (set_flag (set_sz m remain sz) remain flag_is_free) remain flag_is_prev_free

unfoldable pub place_footer : Mem → ℕ → ℕ → Mem
place_footer m end sz = write m (sub64 end footer_size) sz

unfoldable pub split : ℕ → ℕ → ℕ → Heap → Heap
unfolding mark_remain freelist_add_node place_footer get_sz
split free free_sz alloc_sz h =
    let remain = add64 free alloc_sz in
    let h1 =
      freelist_add_node remain
        (record h { mem = mark_remain h.mem remain (sub64 free_sz alloc_sz) }) in
    record h1 {
      mem = place_footer h1.mem (add64 remain (get_sz h1.mem remain)) (get_sz h1.mem remain);
    }

unfoldable pub mark_allocated : Mem → ℕ → ℕ → Mem
unfolding set_sz unset_flag
mark_allocated m hdr sz = unset_flag (set_sz m hdr sz) hdr flag_is_free

-- What `kmalloc` does once the chunk is found and off the list.
unfoldable pub carve : ℕ → ℕ → ℕ → Heap → ℕ × Heap
unfolding take_whole split mark_allocated
carve free free_sz alloc_sz h =
    let h1 =
      if free_sz == alloc_sz then take_whole free free_sz h else split free free_sz alloc_sz h in
    (add64 free alloc_hdr_size, record h1 { mem = mark_allocated h1.mem free alloc_sz })

unfoldable pub kmalloc : ℕ → ℕ → Heap → Outcome (ℕ × Heap)
unfolding alloc_size find_free freelist_remove_node carve get_sz
kmalloc rounds sz h = do
  free ← find_free rounds h.mem (alloc_size sz) h.freelist_head
  if free == null then panic else do
    h1 ← freelist_remove_node free h
    ok (carve free (get_sz h.mem free) (alloc_size sz) h1)

-- The four ways of `kfree`, by the neighbours that are free.
unfoldable pub free_alone : ℕ → Heap → Heap
unfolding place_footer get_sz set_flag freelist_add_node is_in_heap_bounds
free_alone to_free h =
    let sz = get_sz h.mem to_free in
    let next = add64 to_free sz in
    let h1 =
      freelist_add_node to_free
        (record h { mem = set_flag (place_footer h.mem next sz) to_free flag_is_free }) in
    if is_in_heap_bounds next
    then record h1 { mem = set_flag h1.mem next flag_is_prev_free }
    else h1

-- The chunk before `to_free`, by its footer.
unfoldable pub prev_chunk : Mem → ℕ → ℕ
prev_chunk m to_free = sub64 to_free (m (sub64 to_free footer_size))

unfoldable pub free_with_prev : ℕ → Heap → Heap
unfolding place_footer get_sz set_sz set_flag prev_chunk is_in_heap_bounds
free_with_prev to_free h =
    let next = add64 to_free (get_sz h.mem to_free) in
    let prev = prev_chunk h.mem to_free in
    let new_sz = add64 (get_sz h.mem prev) (get_sz h.mem to_free) in
    let m = place_footer (set_sz h.mem prev new_sz) (add64 prev new_sz) new_sz in
    record h { mem = if is_in_heap_bounds next then set_flag m next flag_is_prev_free else m }

unfoldable pub free_with_next : ℕ → Heap → Outcome Heap
unfolding place_footer get_sz set_sz set_flag freelist_remove_node freelist_add_node
free_with_next to_free h =
    let next = add64 to_free (get_sz h.mem to_free) in
    let new_sz = add64 (get_sz h.mem to_free) (get_sz h.mem next) in
    let m = place_footer (set_sz h.mem to_free new_sz) (add64 to_free new_sz) new_sz in
    do
      h1 ← freelist_remove_node next (record h { mem = m })
      ok (freelist_add_node to_free (record h1 { mem = set_flag h1.mem to_free flag_is_free }))

unfoldable pub free_with_both : ℕ → Heap → Outcome Heap
unfolding place_footer get_sz set_sz prev_chunk freelist_remove_node
free_with_both to_free h =
    let next = add64 to_free (get_sz h.mem to_free) in
    let prev = prev_chunk h.mem to_free in
    let new_sz = add64 (add64 (get_sz h.mem prev) (get_sz h.mem to_free)) (get_sz h.mem next) in
    let m = place_footer (set_sz h.mem prev new_sz) (add64 prev new_sz) new_sz in
    freelist_remove_node next (record h { mem = m })

unfoldable pub free_chunk : ℕ → Heap → Outcome Heap
unfolding free_alone free_with_prev free_with_next free_with_both get_flag is_in_heap_bounds get_sz
free_chunk to_free h =
    let next = add64 to_free (get_sz h.mem to_free) in
    let coalesce_with_prev = get_flag h.mem to_free flag_is_prev_free in
    let coalesce_with_next = is_in_heap_bounds next && get_flag h.mem next flag_is_free in
    if coalesce_with_prev
    then (if coalesce_with_next then free_with_both to_free h else ok (free_with_prev to_free h))
    else (if coalesce_with_next then free_with_next to_free h else ok (free_alone to_free h))

-- The two assertions of `kfree` stop the machine.
unfoldable pub kfree : ℕ → Heap → Outcome Heap
unfolding free_chunk is_in_heap_bounds get_flag
kfree ptr h =
    let to_free = sub64 ptr alloc_hdr_size in
    if is_in_heap_bounds ptr
    then (if get_flag h.mem to_free flag_is_free then panic else free_chunk to_free h)
    else panic

-- `kmalloc_init` behind the loop that maps the heap's pages.
unfoldable pub init_heap : Heap → Heap
unfolding align_sz mark_remain freelist_add_node
init_heap h =
    freelist_add_node heap_start
      (record h { mem = mark_remain h.mem heap_start (align_sz heap_size) })
