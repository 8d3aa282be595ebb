-- ===== src/Kmalloc/Free/Grow.antt =====
-- A chunk gets a new size, in its metadata and its footer: what the merging cases of `kfree` share.
use flurry.Prelude.{ℕ, ◌+◌, ◌-◌, ◌%◌, ◌^◌, ◌<◌, ◌≤◌, ◌≡◌, ◌≢◌, ◌∙◌, Bool, List, arith}
use flurry.Prelude.Memory.{Mem, write, write_ne, write_self}
use flurry.Kmalloc.{null, set_sz}
use flurry.Kmalloc.Meta.{IsMeta, IsMeta-frame, set_sz-IsMeta, set_sz_ne}
use flurry.Kmalloc.Freelist.{NotLink, IsFreelist, Linked-touch, Linked-write}

abbrev pub grown : Mem → ℕ → ℕ → Mem
grown m p size = write (set_sz m p size) (p + size - 8) size

module _ (m : Mem) (p size : ℕ) where
  pub grown_ne : (w : ℕ) → w ≢ p → w ≢ p + size - 8 → grown m p size w ≡ m w
  grown_ne w ne ne' = write_ne (set_sz m p size) (p + size - 8) size w ne' ∙ set_sz_ne m p w ne size

  pub grown-footer : grown m p size (p + size - 8) ≡ size
  grown-footer = write_self (set_sz m p size) (p + size - 8) size

  pub grown-IsMeta :
      {old : ℕ} {prev free : Bool}
      → IsMeta m p old prev free
      → 32 ≤ size
      → size < 2 ^ 64
      → size % 8 ≡ 0
      → IsMeta (grown m p size) p size prev free
  grown-IsMeta meta big small aligned =
      IsMeta-frame (set_sz m p size) (grown m p size)
        (write_ne (set_sz m p size) (p + size - 8) size p (omega arith))
        (set_sz-IsMeta meta size small aligned)

  pub grown-IsFreelist :
      (head : ℕ) (xs : List ℕ)
      → IsFreelist (record { mem = m; freelist_head = head }) xs
      → NotLink p xs
      → NotLink (p + size - 8) xs
      → IsFreelist (record { mem = grown m p size; freelist_head = head }) xs
  grown-IsFreelist head xs listed out out' = record {
    links =
        Linked-write (set_sz m p size) null head (p + size - 8) size xs
          (Linked-touch m (set_sz m p size) null head p xs (λ x ne. set_sz_ne m p x ne size)
            listed.links out)
          out';
  }
