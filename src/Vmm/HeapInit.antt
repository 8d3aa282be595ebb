-- ===== src/Vmm/HeapInit.antt =====
-- `kmalloc_init` of kernel/memory/kmalloc.c: the heap's pages have frames, and the heap is one free chunk.
use mathlib.Core.Path.{subst}
use flurry.Prelude.{
  ℕ, suc, ◌+◌, ◌<◌, ◌≤◌, ◌≡◌, ◌≢◌, refl, sym, ◌∙◌, ap, ◌⊎◌, List, [], ◌∷◌, ◌++◌, length,
  length-append, get_elem?, some, arith,
}
use flurry.Prelude.Outcome.{ok}
use flurry.Pmm.Frames.{FreeList}
use flurry.Paging.{index_at}
use flurry.Paging.Tables.{slot, Linked, Framed, OutOf, OutOf-Apart}
use flurry.Paging.Descend.{Walks, All-behind}
use flurry.Paging.Walk.{upper_indices}
use flurry.Kmalloc.{Heap, heap_start, heap_size, heap_end, null, init_heap}
use flurry.Kmalloc.Layout.{unused}
use flurry.Kmalloc.Invariant.{IsHeap}
use flurry.Kmalloc.Init.{init_heap-IsHeap}
use flurry.Vmm.{Vmm, back_page, kmalloc_init}
use flurry.Vmm.Loops.{pages, run_all, for_pages-run_all}
use flurry.Vmm.HeapPages.{
  page_at, upper_indices-page_at, index_at-page_at, heap_entry_present, Ready,
}
use flurry.Vmm.Backing.{Stepped}
use flurry.Vmm.HeapRun.{Backed, stepped, entries-cons, run_all-Backed}

-- The heap's pages with their frames: `first` for the first page, the next frames `taken`, at most
-- three, for tables, and then `gs` for the other 511 pages, in order. The processor's walk for each of
-- them ends in one table, at an entry that is the frame, present and writable. Every other entry that
-- was present outside of the free frames is as it was, and the frames behind `gs` are a list again.
pub record HeapBacked (s : Vmm) (hhdm : ℕ) (fs : List ℕ) (s' : Vmm) : Type 0 where
  pub first : ℕ
  pub taken : List ℕ
  pub gs : List ℕ
  pub fs' : List ℕ
  pub split : fs ≡ first ∷ (taken ++ (gs ++ fs'))
  pub short : length taken ≤ 3
  pub count : length gs ≡ 511
  pub table : ℕ
  pub walks :
      (k : ℕ)
      → k < 512
      → Walks s'.paging.pmm.mem hhdm s.kernel_pml4 (upper_indices (page_at k)) table
  pub entries :
      (k g : ℕ)
      → k < 512
      → get_elem? (first ∷ gs) k ≡ some g
      → s'.paging.pmm.mem (slot hhdm table (index_at 12 (page_at k))) ≡ g + 3
  pub list : FreeList s'.paging.pmm.mem hhdm s'.paging.pmm.free_list_head fs'
  pub others :
      (w : ℕ)
      → OutOf hhdm fs w
      → Linked s.paging.pmm.mem w
      → ((k : ℕ) → k < 512 → w ≢ slot hhdm table k)
      → s'.paging.pmm.mem w ≡ s.paging.pmm.mem w

-- The first page, and the 511 others behind it.
HeapBacked-first :
    (s : Vmm) (hhdm a : ℕ) (fs : List ℕ) (s1 s' : Vmm)
    → Framed a
    → (st : Stepped s hhdm s.kernel_pml4 0 a fs s1)
    → Backed s1 hhdm s.kernel_pml4 st.table 1 511 st.fs' s'
    → HeapBacked s hhdm (a ∷ fs) s'
HeapBacked-first s hhdm a fs s1 s' framed st b =
    let m' = s'.paging.pmm.mem in
    let here : m' (slot hhdm st.table 0) ≡ a + 3 =
      b.others (slot hhdm st.table 0)
        (OutOf-Apart hhdm st.table (slot hhdm st.table 0) st.fs' st.page.1 (omega arith)
          (omega arith))
        (rw st.entry (heap_entry_present a framed)) (λ j h e. absurd (omega (arith, e)))
      ∙ st.entry in
    record {
      first = a;
      taken = st.taken;
      gs = b.gs;
      fs' = b.fs';
      split = ap (λ xs. a ∷ xs) (st.split ∙ ap (λ xs. st.taken ++ xs) b.split);
      short = st.short;
      count = b.count;
      table = st.table;
      walks = λ k small.
          subst (λ is. Walks m' hhdm s.kernel_pml4 is st.table)
            (sym (upper_indices-page_at k small)) b.walks;
      entries = λ k g small h.
          (let index : slot hhdm st.table (index_at 12 (page_at k)) ≡ slot hhdm st.table (0 + k) =
              omega (arith, index_at-page_at k small) in
            ap m' index ∙ entries-cons m' hhdm st.table 0 a b.gs here b.entries k g h);
      list = b.ready.list;
      others = λ w out linked ne.
          (let kept : s1.paging.pmm.mem w ≡ s.paging.pmm.mem w =
              st.others w out linked (ne 0 (omega arith)) in
            let behind : OutOf hhdm st.fs' w =
              All-behind (λ x. (w < x + hhdm) ⊎ (x + hhdm + 4096 ≤ w)) st.taken st.fs'
                (subst (λ xs. OutOf hhdm xs w) st.split out.1) in
            b.others w behind (rw kept linked)
              (λ j h e. ne (suc j) (omega (arith, h)) (omega (arith, e)))
            ∙ kept);
    }

pages-HeapBacked :
    (s : Vmm) (hhdm : ℕ) (fs : List ℕ)
    → Ready s hhdm s.kernel_pml4 fs
    → 518 ≤ length fs
    → HeapBacked s hhdm fs (run_all back_page (pages 512 heap_start) s)
pages-HeapBacked s hhdm [] r enough = absurd (omega arith)
pages-HeapBacked s hhdm (a ∷ fs) r enough =
    let top = s.kernel_pml4 in
    let s1 = back_page (page_at 0) s in
    let st = stepped s hhdm top 0 a fs r (omega arith) (omega arith) in
    let lengths : length fs ≡ length st.taken + length st.fs' =
      ap length st.split ∙ length-append st.taken st.fs' in
    let b =
      run_all-Backed 511 1 s1 hhdm top st.table st.fs' st.ready st.walks (omega arith)
        (omega (arith, lengths, st.short)) in
    HeapBacked-first s hhdm a fs s1 (run_all back_page (pages 511 (page_at 1)) s1) r.framed.0 st b

-- With more than 512 rounds, an empty freelist, at least 518 free frames that lie apart, are aligned and
-- below 2 ^ 52, and tables that are sound along the way of the heap's pages, `kmalloc_init` returns: the
-- processor's walk for each of the 512 pages of the heap ends at an entry that is a frame of its own,
-- the first free one and the next in order (but for at most three behind the first, which become
-- tables), present and writable; every other entry that was present outside of the free frames is as it
-- was, the frames behind are a list again, and the heap is well formed, one free chunk.
pub kmalloc_init-HeapBacked :
    (rounds : ℕ) (s : Vmm) (h : Heap) (fs : List ℕ)
    → 512 < rounds
    → h.freelist_head ≡ null
    → Ready s s.paging.pmm.hhdm_offset s.kernel_pml4 fs
    → 518 ≤ length fs
    → (s' : Vmm) × (h' : Heap) × (kmalloc_init rounds s h ≡ ok (s', h'))
      × HeapBacked s s.paging.pmm.hhdm_offset fs s'
      × IsHeap h' (unused heap_size ∷ []) (heap_start ∷ [])
unfolding kmalloc_init
kmalloc_init-HeapBacked rounds s h fs enough fresh r frames = (
  run_all back_page (pages 512 heap_start) s,
  init_heap h,
  rw
      (for_pages-run_all 512 rounds heap_start heap_end back_page s (omega arith) enough
        (omega arith))
      refl,
  pages-HeapBacked s s.paging.pmm.hhdm_offset fs r frames,
  init_heap-IsHeap h fresh,
)
