-- ===== src/Kmalloc/Size.antt =====
-- How `kmalloc` turns a request into a chunk size.
use flurry.Prelude.{ℕ, ◌+◌, ◌*◌, ◌/◌, ◌%◌, ◌^◌, ◌<◌, ◌≤◌, ◌≡◌, ◌⊎◌, arith}
use flurry.Prelude.Words.{add64}
use flurry.Kmalloc.{align_sz, alloc_size, free_chunk_min_sz, alloc_hdr_size}
use flurry.Kmalloc.Meta.{size_bits}

pub align_sz_lem : (sz : ℕ) → align_sz sz ≡ (sz + 7) % 2 ^ 64 / 8 * 8
unfolding align_sz
align_sz_lem sz = size_bits ((sz + 7) % 2 ^ 64) (omega arith)

pub min_sz : free_chunk_min_sz ≡ 32
unfolding free_chunk_min_sz
min_sz = align_sz_lem 32

pub alloc_size_shape :
    (sz : ℕ) → (32 ≤ alloc_size sz) × (alloc_size sz % 8 ≡ 0) × (alloc_size sz < 2 ^ 64)
unfolding alloc_size
alloc_size_shape sz = ground (arith, align_sz_lem (add64 sz alloc_hdr_size), align_sz_lem 32)

-- A request that does not wrap gets a chunk with room for the header and the request, and at most
-- seven bytes more than those need, or the smallest chunk.
pub alloc_size_enough :
    (sz : ℕ)
    → sz + 16 ≤ 2 ^ 64
    → (sz + 8 ≤ alloc_size sz) × ((alloc_size sz ≡ 32) ⊎ (alloc_size sz ≤ sz + 15))
unfolding alloc_size
alloc_size_enough sz h = ground (arith, align_sz_lem (add64 sz alloc_hdr_size), align_sz_lem 32)

-- A request within eight bytes of 2 ^ 64 wraps round, and is taken for the smallest chunk.
pub alloc_size_wraps : (sz : ℕ) → 2 ^ 64 ≤ sz + 8 → sz < 2 ^ 64 → alloc_size sz ≡ 32
unfolding alloc_size
alloc_size_wraps sz h k = ground (arith, align_sz_lem (add64 sz alloc_hdr_size), align_sz_lem 32)
