-- ===== src/Kmalloc/Meta.antt =====
-- The metadata word of a chunk: what the masks and the flags of kmalloc.c read and write.
use flurry.Prelude.{
  ℕ, ◌+◌, ◌-◌, ◌*◌, ◌/◌, ◌%◌, ◌^◌, ◌<◌, bit_and, bit_or, ◌≡◌, ◌≢◌, ◌∙◌, ap, Bool, true, false,
  arith, ◌==◌, ==_refl,
}
use flurry.Prelude.Bits.{
  bit_and_ones, bit_and_high, bit_or_join_low, bit_or_low, bit_or-zero, bit_and_low,
}
use flurry.Prelude.Memory.{Mem, write, write_ne}
use flurry.Kmalloc.{
  complement, chunk_size_mask, flag_is_free, flag_is_prev_free, get_sz, set_sz, get_flag, set_flag,
  unset_flag, mark_remain, mark_allocated,
}

abbrev pub bit : Bool → ℕ
bit false = 0
bit true = 1

-- The word at `p` says: this size, a free chunk before it or not, free or not.
pub record IsMeta (m : Mem) (p sz : ℕ) (prev free : Bool) : Type 0 where
  pub fits : m p < 2 ^ 64
  pub size : m p / 8 * 8 ≡ sz
  pub prev_bit : m p / 2 % 2 ≡ bit prev
  pub free_bit : m p % 2 ≡ bit free

pub IsMeta-frame :
    (m m' : Mem) {p sz : ℕ} {prev free : Bool}
    → m' p ≡ m p
    → IsMeta m p sz prev free
    → IsMeta m' p sz prev free
IsMeta-frame m m' e meta = omega (arith, e, meta)

pub size_bits : (w : ℕ) → w < 2 ^ 64 → bit_and w chunk_size_mask ≡ w / 8 * 8
size_bits w h = omega (arith, bit_and_high 3 w (2 ^ 61 - 1), bit_and_ones 61 (w / 8))

-- The word that `set_sz` stores: the low bits of the old one, the size of the new.
sized :
    (w sz : ℕ)
    → sz < 2 ^ 64
    → bit_or (bit_and w (complement chunk_size_mask)) (bit_and sz chunk_size_mask)
      ≡ sz / 8 * 8 + w % 8
sized w sz h =
    ap (λ x. bit_or x (bit_and sz chunk_size_mask)) (bit_and_ones 3 w)
    ∙ ap (bit_or (w % 8)) (size_bits sz h)
    ∙ bit_or_join_low 3 (sz / 8) (w % 8) (omega arith)

or_one : (w : ℕ) → bit_or w flag_is_free ≡ w / 2 * 2 + 1
or_one w = omega (arith, bit_or_low w 1, bit_or-zero (w / 2))

or_two : (w : ℕ) → bit_or w flag_is_prev_free ≡ w / 4 * 4 + 2 + w % 2
or_two w = omega (arith, bit_or_low w 2, bit_or_low (w / 2) 1, bit_or-zero (w / 2 / 2))

clear_one : (w : ℕ) → w < 2 ^ 64 → bit_and w (complement flag_is_free) ≡ w / 2 * 2
clear_one w h = omega (arith, bit_and_high 1 w (2 ^ 63 - 1), bit_and_ones 63 (w / 2))

clear_two : (w : ℕ) → w < 2 ^ 64 → bit_and w (complement flag_is_prev_free) ≡ w / 4 * 4 + w % 2
clear_two w h = omega (
  arith,
  bit_and_low w (2 ^ 64 - 3),
  bit_and_high 1 (w / 2) (2 ^ 62 - 1),
  bit_and_ones 62 (w / 2 / 2),
)

-- What each reader sees in a chunk's metadata.
module _ {m : Mem} {p sz : ℕ} {prev free : Bool} (meta : IsMeta m p sz prev free) where
  pub get_sz-IsMeta : get_sz m p ≡ sz
  unfolding get_sz
  get_sz-IsMeta = size_bits (m p) meta.fits ∙ meta.size

  pub get_flag-free : get_flag m p flag_is_free ≡ free
  unfolding get_flag
  get_flag-free = ground (arith, bit_and_ones 1 (m p), meta.free_bit)

  pub get_flag-prev_free : get_flag m p flag_is_prev_free ≡ prev
  unfolding get_flag
  get_flag-prev_free =
      ground (arith, bit_and_high 1 (m p) 1, bit_and_ones 1 (m p / 2), meta.prev_bit)

  pub set_sz-IsMeta :
      (new : ℕ) → new < 2 ^ 64 → new % 8 ≡ 0 → IsMeta (set_sz m p new) p new prev free
  unfolding set_sz write
  set_sz-IsMeta new small aligned = ground (arith, sized (m p) new small, ==_refl p)

  pub set_free-IsMeta : IsMeta (set_flag m p flag_is_free) p sz prev true
  unfolding set_flag write
  set_free-IsMeta = ground (arith, or_one (m p), ==_refl p)

  pub set_prev_free-IsMeta : IsMeta (set_flag m p flag_is_prev_free) p sz true free
  unfolding set_flag write
  set_prev_free-IsMeta = ground (arith, or_two (m p), ==_refl p)

  pub unset_free-IsMeta : IsMeta (unset_flag m p flag_is_free) p sz prev false
  unfolding unset_flag write
  unset_free-IsMeta = ground (arith, clear_one (m p) meta.fits, ==_refl p)

  pub unset_prev_free-IsMeta : IsMeta (unset_flag m p flag_is_prev_free) p sz false free
  unfolding unset_flag write
  unset_prev_free-IsMeta = ground (arith, clear_two (m p) meta.fits, ==_refl p)

-- No writer of a metadata word touches another word.
module _ (m : Mem) (p a : ℕ) (ne : a ≢ p) where
  pub set_sz_ne : (sz : ℕ) → set_sz m p sz a ≡ m a
  unfolding set_sz
  set_sz_ne sz = write_ne m p _ a ne

  pub set_flag_ne : (flag : ℕ) → set_flag m p flag a ≡ m a
  unfolding set_flag
  set_flag_ne flag = write_ne m p _ a ne

  pub unset_flag_ne : (flag : ℕ) → unset_flag m p flag a ≡ m a
  unfolding unset_flag
  unset_flag_ne flag = write_ne m p _ a ne

module _ (m : Mem) (p a : ℕ) (ne : a ≢ p) where
  pub mark_remain_ne : (sz : ℕ) → mark_remain m p sz a ≡ m a
  unfolding mark_remain
  mark_remain_ne sz =
      unset_flag_ne _ p a ne flag_is_prev_free
      ∙ set_flag_ne _ p a ne flag_is_free
      ∙ set_sz_ne m p a ne sz

  pub mark_allocated_ne : (sz : ℕ) → mark_allocated m p sz a ≡ m a
  unfolding mark_allocated
  mark_allocated_ne sz = unset_flag_ne _ p a ne flag_is_free ∙ set_sz_ne m p a ne sz

-- Setting the size of any word leaves its two flag bits.
set_sz_any :
    (m : Mem) (p sz : ℕ)
    → sz < 2 ^ 64
    → sz % 8 ≡ 0
    → IsMeta (set_sz m p sz) p sz (m p / 2 % 2 == 1) (m p % 2 == 1)
unfolding set_sz write
set_sz_any m p sz small aligned = ground (arith, sized (m p) sz small, ==_refl p)

-- A word made the metadata of a free chunk by a split, whatever it held before.
pub mark_remain-IsMeta :
    (m : Mem) (p sz : ℕ) → sz < 2 ^ 64 → sz % 8 ≡ 0 → IsMeta (mark_remain m p sz) p sz false true
unfolding mark_remain
mark_remain-IsMeta m p sz small aligned =
    unset_prev_free-IsMeta (set_free-IsMeta (set_sz_any m p sz small aligned))

pub mark_allocated-IsMeta :
    {m : Mem} {p sz : ℕ} {prev free : Bool}
    → IsMeta m p sz prev free
    → (new : ℕ) → new < 2 ^ 64
    → new % 8 ≡ 0
    → IsMeta (mark_allocated m p new) p new prev false
unfolding mark_allocated
mark_allocated-IsMeta meta new small aligned =
    unset_free-IsMeta (set_sz-IsMeta meta new small aligned)
