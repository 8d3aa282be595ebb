-- ===== src/Vmm/HeapPages.antt =====
-- The pages of the heap, which the loop of `kmalloc_init` of kernel/memory/kmalloc.c maps: all lie below
-- one last table, and each gets a frame of its own.
use mathlib.Core.Path.{subst}
use flurry.Prelude.{
  ℕ, ◌+◌, ◌*◌, ◌/◌, ◌%◌, ◌^◌, ◌<◌, ◌≤◌, ◌≡◌, refl, sym, ◌∙◌, ap, ◌⊎◌, true, bit_and, bit_or, List,
  [], ◌∷◌, arith, All,
}
use flurry.Prelude.Bits.{bit_and_ones, bit_or_low, bit_or-zero}
use flurry.Prelude.Words.{u16}
use flurry.Prelude.Memory.{Mem}
use flurry.Pmm.Frames.{FreeList, Frames}
use flurry.Paging.{vm_flag_write, index_at, is_entry_present}
use flurry.Paging.Tables.{slot, Linked, next_of, Framed, OutOf, OutOf-Apart}
use flurry.Paging.Descend.{Walks, Sound}
use flurry.Paging.Walk.{upper_indices}
use flurry.Kmalloc.{heap_start}
use flurry.Vmm.{Vmm, vm_flag_nx}

-- Page `k` of the heap.
abbrev pub page_at : ℕ → ℕ
page_at k = heap_start + 4096 * k

index_same :
    (shift k : ℕ)
    → page_at k / 2 ^ shift ≡ heap_start / 2 ^ shift
    → index_at shift (page_at k) ≡ index_at shift heap_start
index_same shift k h = ap (λ x. u16 (bit_and x 0x1ff)) h

-- The pages of the heap have the same way down to the last table.
pub upper_indices-page_at : (k : ℕ) → k < 512 → upper_indices (page_at k) ≡ upper_indices heap_start
upper_indices-page_at k small =
    rw (index_same 39 k (omega arith), index_same 30 k (omega arith), index_same 21 k (omega arith))
      refl

pub index_at-page_at : (k : ℕ) → k < 512 → index_at 12 (page_at k) ≡ k
index_at-page_at k small = omega (arith, bit_and_ones 9 (page_at k / 2 ^ 12))

-- The entry of a page of the heap: the frame, present and writable.
pub heap_entry :
    (a : ℕ) → Framed a → bit_or (bit_or a 1) (bit_or vm_flag_write vm_flag_nx % 2 ^ 16) ≡ a + 3
heap_entry a f =
    let one : bit_or a 1 ≡ a + 1 = omega (arith, f.0, bit_or_low a 1, bit_or-zero (a / 2)) in
    let two : bit_or (a + 1) 2 ≡ a + 3 = omega (
      arith,
      f.0,
      bit_or_low (a + 1) 2,
      bit_or_low ((a + 1) / 2) 1,
      bit_or-zero ((a + 1) / 2 / 2),
    ) in
    rw one two

pub heap_entry_present : (a : ℕ) → Framed a → is_entry_present (a + 3) ≡ true
unfolding is_entry_present
heap_entry_present a f = ground (arith, f, bit_and_ones 1 (a + 3))

-- Free frames, and a way to the heap's pages that is sound.
pub record Ready (s : Vmm) (hhdm top : ℕ) (fs : List ℕ) : Type 0 where
  pub map : s.paging.pmm.hhdm_offset ≡ hhdm
  pub top_is : s.kernel_pml4 ≡ top
  pub list : FreeList s.paging.pmm.mem hhdm s.paging.pmm.free_list_head fs
  pub frames : Frames hhdm fs
  pub framed : All Framed fs
  pub sound : Sound s.paging.pmm.mem hhdm fs [] top (upper_indices heap_start)

-- The way is sound in a memory that differs in the page of the first free frame only.
pub Sound-taken :
    (m m' : Mem) (hhdm a : ℕ) (fs seen : List ℕ) (pml : ℕ) (is : List ℕ)
    → ((w : ℕ) → (w < a + hhdm) ⊎ (a + hhdm + 4096 ≤ w) → m' w ≡ m w)
    → All (λ i. i < 512) is
    → Sound m hhdm (a ∷ fs) seen pml is
    → Sound m' hhdm fs seen pml is
Sound-taken m m' hhdm a fs seen pml [] same small sound = ((sound.0.0, sound.0.1.1), sound.1)
Sound-taken m m' hhdm a fs seen pml (i ∷ is) same small sound =
    let e : m' (slot hhdm pml i) ≡ m (slot hhdm pml i) =
      same (slot hhdm pml i) (ground (arith, sound.0.1.0, small.0)) in
    rw e (
      (sound.0.0, sound.0.1.1),
      sound.1,
      λ linked.
          Sound-taken m m' hhdm a fs (pml ∷ seen) (next_of m (slot hhdm pml i)) is same small.1
            (sound.2 linked),
    )

pub Walks-taken :
    (m m' : Mem) (hhdm a : ℕ) (fs seen : List ℕ) (pml t : ℕ) (is : List ℕ)
    → ((w : ℕ) → (w < a + hhdm) ⊎ (a + hhdm + 4096 ≤ w) → m' w ≡ m w)
    → All (λ i. i < 512) is
    → Sound m hhdm (a ∷ fs) seen pml is
    → Walks m hhdm pml is t
    → Walks m' hhdm pml is t
Walks-taken m m' hhdm a fs seen pml t [] same small sound way = way
Walks-taken m m' hhdm a fs seen pml t (i ∷ is) same small sound way =
    let e : m' (slot hhdm pml i) ≡ m (slot hhdm pml i) =
      same (slot hhdm pml i) (ground (arith, sound.0.1.0, small.0)) in
    rw e (
      way.0,
      way.1,
      way.2,
      Walks-taken m m' hhdm a fs (pml ∷ seen) (next_of m (slot hhdm pml i)) t is same small.1
          (sound.2 way.1) way.3,
    )

-- Where only free frames, words that are no entries and the table at the end are written, the way leads
-- to the same table.
pub Walks-same :
    (m m' : Mem) (hhdm : ℕ) (fs seen : List ℕ) (pml t t' : ℕ) (is : List ℕ)
    → ((w : ℕ)
        → OutOf hhdm fs w
        → Linked m w
        → (w < t' + hhdm) ⊎ (t' + hhdm + 4096 ≤ w)
        → m' w ≡ m w)
    → All (λ i. i < 512) is
    → Sound m hhdm fs seen pml is
    → Walks m hhdm pml is t
    → Walks m' hhdm pml is t'
    → t ≡ t'
Walks-same m m' hhdm fs seen pml t t' [] same small sound way way' = sym way ∙ way'
Walks-same m m' hhdm fs seen pml t t' (i ∷ is) same small sound way way' =
    let e : m' (slot hhdm pml i) ≡ m (slot hhdm pml i) =
      same (slot hhdm pml i)
        (OutOf-Apart hhdm pml (slot hhdm pml i) fs sound.0.1 (omega arith) (omega (arith, small.0)))
        way.1 (ground (arith, way'.2, small.0)) in
    Walks-same m m' hhdm fs (pml ∷ seen) (next_of m (slot hhdm pml i)) t t' is same small.1
      (sound.2 way.1) way.3
      (subst (λ x. Walks m' hhdm x is t') (ap (λ x. bit_and x 0x000f_ffff_ffff_f000) e) way'.3)
