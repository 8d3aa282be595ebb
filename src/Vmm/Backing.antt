-- ===== src/Vmm/Backing.antt =====
-- What the loop of `kmalloc_init` of kernel/memory/kmalloc.c does with the page tables and the frames.
use mathlib.Core.Path.{subst}
use flurry.Prelude.{
  ℕ, ◌+◌, ◌%◌, ◌^◌, ◌<◌, ◌≤◌, ◌≡◌, ◌≢◌, refl, sym, ◌∙◌, ap, ◌⊎◌, bit_or, List, [], ◌∷◌, ◌++◌,
  length, All,
}
use flurry.Pmm.{Pmm, pmm_alloc}
use flurry.Pmm.Frames.{FreeList, Frames}
use flurry.Pmm.Alloc.{Taken, pmm_alloc-Taken}
use flurry.Paging.{Paging, vm_flag_write, vmm_map}
use flurry.Paging.Tables.{slot, Linked, Framed, Page, OutOf}
use flurry.Paging.Descend.{Walks, Sound, All-behind}
use flurry.Paging.Walk.{upper_indices, upper_indices_lt, Mapped, vmm_map-Mapped}
use flurry.Kmalloc.{heap_start}
use flurry.Vmm.{Vmm, vm_flag_nx, vmm_kmap, back_page}
use flurry.Vmm.HeapPages.{
  page_at, upper_indices-page_at, index_at-page_at, heap_entry, Ready, Sound-taken, Walks-taken,
}

abbrev pub heap_flags : ℕ
heap_flags = bit_or vm_flag_write vm_flag_nx

back_page-eq :
    (virt : ℕ) (s : Vmm)
    → back_page virt s ≡ record s {
      paging =
          vmm_map s.kernel_pml4 virt
            ((pmm_alloc s.paging.pmm).0)
            heap_flags
            (record (s.paging) { pmm = (pmm_alloc s.paging.pmm).1 });
    }
unfolding back_page vmm_kmap vmm_map
back_page-eq virt s = refl

-- Page `k` of the heap got the frame `a`; the frames `taken` became tables that were missing.
pub record Stepped (s : Vmm) (hhdm top k a : ℕ) (fs : List ℕ) (s' : Vmm) : Type 0 where
  pub taken : List ℕ
  pub fs' : List ℕ
  pub split : fs ≡ taken ++ fs'
  pub short : length taken ≤ 3
  pub none_new : (t : ℕ) → Walks s.paging.pmm.mem hhdm top (upper_indices heap_start) t → taken ≡ []
  pub ready : Ready s' hhdm top fs'
  pub table : ℕ
  pub page : Page hhdm fs' table
  pub walks : Walks s'.paging.pmm.mem hhdm top (upper_indices heap_start) table
  pub entry : s'.paging.pmm.mem (slot hhdm table k) ≡ a + 3
  pub others :
      (w : ℕ)
      → OutOf hhdm (a ∷ fs) w
      → Linked s.paging.pmm.mem w
      → w ≢ slot hhdm table k
      → s'.paging.pmm.mem w ≡ s.paging.pmm.mem w

module _ (s : Vmm) (hhdm k a : ℕ) (fs : List ℕ) (r : Ready s hhdm s.kernel_pml4 (a ∷ fs))
    (small : k < 512) (enough : 3 ≤ length fs) where
  abbrev flags_word : ℕ
  flags_word = bit_or (bit_or a 1) (heap_flags % 2 ^ 16)

  taken_frame : (q : Pmm) × (pmm_alloc s.paging.pmm ≡ (a, q)) × Taken s.paging.pmm a fs q
  taken_frame =
      pmm_alloc-Taken s.paging.pmm a fs
        (subst (λ o. FreeList s.paging.pmm.mem o s.paging.pmm.free_list_head (a ∷ fs)) (sym r.map)
          r.list)
        (subst (λ o. Frames o (a ∷ fs)) (sym r.map) r.frames)

  abbrev with_frame : Paging
  with_frame = record (s.paging) { pmm = taken_frame.0 }

  same_offset : taken_frame.0.hhdm_offset ≡ hhdm
  same_offset = taken_frame.2.same_map ∙ r.map

  only_page :
      (w : ℕ) → (w < a + hhdm) ⊎ (a + hhdm + 4096 ≤ w) → taken_frame.0.mem w ≡ s.paging.pmm.mem w
  only_page w out =
      taken_frame.2.outside w (subst (λ o. (w < a + o) ⊎ (a + o + 4096 ≤ w)) (sym r.map) out)

  abbrev backed : Vmm
  backed = record s { paging = vmm_map s.kernel_pml4 (page_at k) a heap_flags with_frame }

  mapped : Mapped with_frame hhdm s.kernel_pml4 (page_at k) flags_word fs backed.paging
  mapped =
      subst (λ o. Mapped with_frame o s.kernel_pml4 (page_at k) flags_word fs backed.paging)
        same_offset
        ((vmm_map-Mapped with_frame s.kernel_pml4 (page_at k) a heap_flags fs r.framed.0.1
          taken_frame.2.remaining (subst (λ o. Frames o fs) (sym same_offset) r.frames.2) r.framed.1
          enough
          (subst (λ o. Sound with_frame.pmm.mem o fs [] s.kernel_pml4 (upper_indices (page_at k)))
            (sym same_offset)
            (subst (λ is. Sound with_frame.pmm.mem hhdm fs [] s.kernel_pml4 is)
              (sym (upper_indices-page_at k small))
              (Sound-taken s.paging.pmm.mem taken_frame.0.mem hhdm a fs [] s.kernel_pml4
                (upper_indices heap_start) only_page (upper_indices_lt heap_start) r.sound)))).0)

  backed-Stepped : Stepped s hhdm s.kernel_pml4 k a fs backed
  backed-Stepped =
      let same_way = upper_indices-page_at k small in
      let index = index_at-page_at k small in
      record {
        taken = mapped.taken;
        fs' = mapped.fs';
        split = mapped.split;
        short = mapped.short;
        none_new = λ t way. mapped.none_new t (
            subst (λ is. Walks taken_frame.0.mem hhdm s.kernel_pml4 is t) (sym same_way)
              (Walks-taken s.paging.pmm.mem taken_frame.0.mem hhdm a fs [] s.kernel_pml4 t
                (upper_indices heap_start) only_page (upper_indices_lt heap_start) r.sound way));
        ready = record {
          map = mapped.same_map;
          top_is = refl;
          list = mapped.list;
          frames = mapped.frames;
          framed =
              All-behind Framed mapped.taken mapped.fs'
                (subst (All Framed) mapped.split r.framed.1);
          sound =
              subst (λ is. Sound backed.paging.pmm.mem hhdm mapped.fs' [] s.kernel_pml4 is) same_way
                mapped.sound;
        };
        table = mapped.table;
        page = mapped.page;
        walks =
            subst (λ is. Walks backed.paging.pmm.mem hhdm s.kernel_pml4 is mapped.table) same_way
              mapped.walks;
        entry =
            ap (λ i. backed.paging.pmm.mem (slot hhdm mapped.table i)) (sym index)
            ∙ mapped.entry
            ∙ heap_entry a r.framed.0;
        others = λ w out linked ne.
            let kept : taken_frame.0.mem w ≡ s.paging.pmm.mem w = only_page w out.0 in
            mapped.others w out.1 (rw kept linked) (λ e. ne (e ∙ ap (slot hhdm mapped.table) index))
            ∙ kept;
      }

  pub back_page-Stepped : Stepped s hhdm s.kernel_pml4 k a fs (back_page (page_at k) s)
  back_page-Stepped =
      let backed_by : ℕ × Pmm → Vmm = λ f. record s {
        paging =
            vmm_map s.kernel_pml4 (page_at k) (f.0) heap_flags (record (s.paging) { pmm = f.1 });
      } in
      let e : back_page (page_at k) s ≡ backed =
        back_page-eq (page_at k) s ∙ ap backed_by taken_frame.1 in
      subst (Stepped s hhdm s.kernel_pml4 k a fs) (sym e) backed-Stepped
