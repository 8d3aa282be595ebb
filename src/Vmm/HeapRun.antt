-- ===== src/Vmm/HeapRun.antt =====
-- The loop of `kmalloc_init` of kernel/memory/kmalloc.c over the pages of the heap.
use mathlib.Core.Path.{subst}
use flurry.Prelude.{
  ℕ, zero, suc, ◌+◌, ◌<◌, ◌≤◌, ◌≡◌, ◌≢◌, refl, sym, ◌∙◌, ap, List, [], ◌∷◌, ◌++◌, length, get_elem?,
  some, arith,
}
use flurry.Prelude.Memory.{Mem}
use flurry.Paging.Tables.{slot, Linked, Framed, Page, OutOf, OutOf-Apart}
use flurry.Paging.Descend.{Walks}
use flurry.Paging.Walk.{upper_indices, upper_indices_lt}
use flurry.Kmalloc.{heap_start}
use flurry.Vmm.{Vmm, back_page}
use flurry.Vmm.Loops.{pages, run_all}
use flurry.Vmm.HeapPages.{page_at, heap_entry_present, Ready, Walks-same}
use flurry.Vmm.Backing.{Stepped, back_page-Stepped}

-- `n` pages of the heap from page `k` on got the next `n` free frames, below one table.
pub record Backed (s : Vmm) (hhdm top table k n : ℕ) (fs : List ℕ) (s' : Vmm) : Type 0 where
  pub gs : List ℕ
  pub fs' : List ℕ
  pub split : fs ≡ gs ++ fs'
  pub count : length gs ≡ n
  pub ready : Ready s' hhdm top fs'
  pub walks : Walks s'.paging.pmm.mem hhdm top (upper_indices heap_start) table
  pub entries :
      (j g : ℕ) → get_elem? gs j ≡ some g → s'.paging.pmm.mem (slot hhdm table (k + j)) ≡ g + 3
  pub others :
      (w : ℕ)
      → OutOf hhdm fs w
      → Linked s.paging.pmm.mem w
      → ((j : ℕ) → j < n → w ≢ slot hhdm table (k + j))
      → s'.paging.pmm.mem w ≡ s.paging.pmm.mem w

pub stepped :
    (s : Vmm) (hhdm top k a : ℕ) (fs : List ℕ)
    → Ready s hhdm top (a ∷ fs)
    → k < 512
    → 3 ≤ length fs
    → Stepped s hhdm top k a fs (back_page (page_at k) s)
stepped s hhdm top k a fs r small enough =
    subst (λ x. Stepped s hhdm x k a fs (back_page (page_at k) s)) r.top_is
      (back_page-Stepped s hhdm k a fs (subst (λ x. Ready s hhdm x (a ∷ fs)) (sym r.top_is) r) small
        enough)

-- The table of a later page is that of the first.
Stepped-table :
    (s : Vmm) (hhdm top k a t : ℕ) (fs : List ℕ) (s' : Vmm)
    → k < 512
    → Ready s hhdm top (a ∷ fs)
    → Walks s.paging.pmm.mem hhdm top (upper_indices heap_start) t
    → (st : Stepped s hhdm top k a fs s') → t ≡ st.table
Stepped-table s hhdm top k a t fs s' small r way st =
    Walks-same s.paging.pmm.mem s'.paging.pmm.mem hhdm (a ∷ fs) [] top t st.table
      (upper_indices heap_start)
      (λ w out linked outside.
        st.others w out linked (λ e. absurd (omega (arith, outside, e, small))))
      (upper_indices_lt heap_start) r.sound way st.walks

pub entries-cons :
    (m : Mem) (hhdm t k a : ℕ) (gs : List ℕ)
    → m (slot hhdm t k) ≡ a + 3
    → ((j g : ℕ) → get_elem? gs j ≡ some g → m (slot hhdm t (suc k + j)) ≡ g + 3)
    → (j g : ℕ) → get_elem? (a ∷ gs) j ≡ some g
    → m (slot hhdm t (k + j)) ≡ g + 3
entries-cons m hhdm t k a gs here behind zero g h =
    let index : slot hhdm t (k + 0) ≡ slot hhdm t k = omega arith in
    let frame : a ≡ g = cc h in ap m index ∙ here ∙ ap (λ x. x + 3) frame
entries-cons m hhdm t k a gs here behind (suc j) g h =
    let index : slot hhdm t (k + suc j) ≡ slot hhdm t (suc k + j) = omega arith in
    ap m index ∙ behind j g h

-- One page, and `n` behind it.
Backed-suc :
    (s : Vmm) (hhdm top k a n t : ℕ) (fs : List ℕ) (s1 s' : Vmm)
    → (st : Stepped s hhdm top k a fs s1) → Framed a
    → k < 512
    → fs ≡ st.fs'
    → t ≡ st.table
    → Backed s1 hhdm top t (suc k) n st.fs' s'
    → Backed s hhdm top t k (suc n) (a ∷ fs) s'
Backed-suc s hhdm top k a n t fs s1 s' st framed small same table b =
    let entry : s1.paging.pmm.mem (slot hhdm t k) ≡ a + 3 =
      ap (λ x. s1.paging.pmm.mem (slot hhdm x k)) table ∙ st.entry in
    let page : Page hhdm st.fs' t = subst (Page hhdm st.fs') (sym table) st.page in
    let here : s'.paging.pmm.mem (slot hhdm t k) ≡ a + 3 =
      b.others (slot hhdm t k)
        (OutOf-Apart hhdm t (slot hhdm t k) st.fs' page.1 (omega arith) (omega arith))
        (rw entry (heap_entry_present a framed)) (λ j h e. absurd (omega (arith, e)))
      ∙ entry in
    record {
      gs = a ∷ b.gs;
      fs' = b.fs';
      split = ap (λ xs. a ∷ xs) (same ∙ b.split);
      count = ap suc b.count;
      ready = b.ready;
      walks = b.walks;
      entries = entries-cons s'.paging.pmm.mem hhdm t k a b.gs here b.entries;
      others = λ w out linked ne.
          let first : s1.paging.pmm.mem w ≡ s.paging.pmm.mem w =
            st.others w out linked (λ e. ne 0 (omega arith) (omega (arith, e, table))) in
          b.others w (subst (λ xs. OutOf hhdm xs w) same out.1) (rw first linked)
            (λ j h e. ne (suc j) (omega (arith, h)) (omega (arith, e)))
          ∙ first;
    }

no_pages :
    (s : Vmm) (hhdm top t k : ℕ) (fs : List ℕ)
    → Ready s hhdm top fs
    → Walks s.paging.pmm.mem hhdm top (upper_indices heap_start) t
    → Backed s hhdm top t k 0 fs s
no_pages s hhdm top t k fs r way = record {
  gs = [];
  fs' = fs;
  split = refl;
  count = refl;
  ready = r;
  walks = way;
  entries = λ j g h. absurd (cc h);
  others = λ w out linked ne. refl;
}

pub run_all-Backed :
    (n k : ℕ) (s : Vmm) (hhdm top t : ℕ) (fs : List ℕ)
    → Ready s hhdm top fs
    → Walks s.paging.pmm.mem hhdm top (upper_indices heap_start) t
    → k + n ≤ 512
    → n + 3 ≤ length fs
    → Backed s hhdm top t k n fs (run_all back_page (pages n (page_at k)) s)
run_all-Backed zero k s hhdm top t fs r way inside enough = no_pages s hhdm top t k fs r way
run_all-Backed (suc n) k s hhdm top t [] r way inside enough = absurd (omega arith)
run_all-Backed (suc n) k s hhdm top t (a ∷ fs) r way inside enough =
    let s1 = back_page (page_at k) s in
    let st = stepped s hhdm top k a fs r (omega arith) (omega arith) in
    let same : fs ≡ st.fs' = st.split ∙ ap (λ xs. xs ++ st.fs') (st.none_new t way) in
    let table = Stepped-table s hhdm top k a t fs s1 (omega arith) r way st in
    let next : page_at k + 4096 ≡ page_at (suc k) = omega arith in
    let count : length fs ≡ length st.fs' = ap length same in
    let rest =
      run_all-Backed n (suc k) s1 hhdm top t st.fs' st.ready
        (subst (Walks s1.paging.pmm.mem hhdm top (upper_indices heap_start)) (sym table) st.walks)
        (omega arith) (omega (arith, count)) in
    Backed-suc s hhdm top k a n t fs s1 (run_all back_page (pages n (page_at k + 4096)) s1) st
      r.framed.0 (omega arith) same table
      (subst (λ addr. Backed s1 hhdm top t (suc k) n st.fs' (run_all back_page (pages n addr) s1))
        (sym next) rest)
