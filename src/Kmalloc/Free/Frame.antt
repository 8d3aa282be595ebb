-- ===== src/Kmalloc/Free/Frame.antt =====
-- What `kfree` may write: nodes round a chunk, the flag behind it, and what stays.
use flurry.Prelude.{
  ℕ, ◌+◌, ◌<◌, ◌≤◌, ◌≡◌, ◌≢◌, refl, ◌⊎◌, inl, inr, true, false, List, [], ◌∷◌, arith, if◌then◌else◌,
  Bool-cases, All,
}
use flurry.Prelude.Memory.{Mem}
use flurry.Kmalloc.{Heap, heap_start, heap_end, is_in_heap_bounds, set_flag, flag_is_prev_free}
use flurry.Kmalloc.Meta.{set_prev_free-IsMeta, set_flag_ne}
use flurry.Kmalloc.Freelist.{NotLink}
use flurry.Kmalloc.Layout.{Chunk, used, unused, Tiles, Tiles-le, Tiles-frame, words-within}
use flurry.Kmalloc.Layout.Bags.{All-map}
use flurry.Kmalloc.Alloc.{in_bounds}
use flurry.Kmalloc.Free.{head_free}

-- The nodes of a list lie before `lo`, at `p` or `q`, or from `hi` on.
abbrev pub Around : ℕ → ℕ → ℕ → ℕ → ℕ → Type 0
Around lo hi p q x = (x + 32 ≤ lo) ⊎ ((hi ≤ x) ⊎ ((x ≡ p) ⊎ (x ≡ q)))

-- A word between is no link, if it is none of those two nodes.
pub NotLink-Around :
    (lo hi p q y : ℕ) (xs : List ℕ)
    → lo ≤ y
    → y < hi + 8
    → hi ≤ heap_end
    → p + 32 ≤ heap_end
    → q + 32 ≤ heap_end
    → y ≢ p + 8
    → y ≢ p + 16
    → y ≢ q + 8
    → y ≢ q + 16
    → All (λ x. Around lo hi p q x × (x + 32 ≤ heap_end)) xs
    → NotLink y xs
NotLink-Around lo hi p q y [] above below end end_p end_q n1 n2 n3 n4 all = tt
NotLink-Around lo hi p q y (x ∷ xs) above below end end_p end_q n1 n2 n3 n4 all = (
  (ground (arith, all.0), ground (arith, all.0)),
  NotLink-Around lo hi p q y xs above below end end_p end_q n1 n2 n3 n4 all.1,
)

-- The flag FLAG_IS_PREV_FREE of the chunk behind, if there is one.
abbrev pub flag_behind : ℕ → Mem → Mem
flag_behind next m = if is_in_heap_bounds next then set_flag m next flag_is_prev_free else m

pub flag_behind_ne : (next w : ℕ) (m : Mem) → w ≢ next → flag_behind next m w ≡ m w
flag_behind_ne next w m ne = elim (Bool-cases (is_in_heap_bounds next)) [
  | inl e ↦ rw e (set_flag_ne m next w ne flag_is_prev_free)
  | inr e ↦ rw e refl
]

All-flagged :
    (m : Mem) (next lo : ℕ) (ws : List ℕ)
    → next < lo
    → All (λ w. (lo ≤ w) × (w + 8 ≤ heap_end)) ws
    → All (λ w. flag_behind next m w ≡ m w) ws
All-flagged m next lo ws lt =
    All-map (λ w. (lo ≤ w) × (w + 8 ≤ heap_end)) (λ w. flag_behind next m w ≡ m w)
      (λ w within. flag_behind_ne next w m (omega arith)) ws

pub flag_behind-Tiles :
    (m : Mem) (next : ℕ) (cs : List Chunk)
    → heap_start ≤ next
    → Tiles m next false cs
    → head_free cs ≡ false
    → Tiles (flag_behind next m) next true cs
flag_behind-Tiles m next [] lo t none_free = t
flag_behind-Tiles m next (used n ∷ cs) lo t none_free =
    let inside = in_bounds next lo (omega (arith, Tiles-le m (next + n) false cs t.2)) in
    (
      rw inside (set_prev_free-IsMeta t.0),
      t.1,
      Tiles-frame m (flag_behind next m) (next + n) false cs t.2
          (All-flagged m next (next + n) _ (omega arith) (words-within m (next + n) false cs t.2)),
    )
flag_behind-Tiles m next (unused n ∷ cs) lo t none_free = cc

-- What an operation leaves alone: all but the bytes from `p` on, the word behind them and the links.
abbrev pub Kept : Heap → List ℕ → ℕ → ℕ → Heap → Type 0
Kept h xs p size h' = (w : ℕ) → (w < p) ⊎ (p + size < w) → NotLink w xs → h'.mem w ≡ h.mem w
