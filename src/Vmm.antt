-- ===== src/Vmm.antt =====
-- The kernel's address space, kernel/memory/vmm.c, over the page tables of Paging, and the loop of
-- `kmalloc_init` of kernel/memory/kmalloc.c that maps the heap.
pub mod Loops
pub mod HeapPages
pub mod Backing
pub mod HeapRun
pub mod HeapInit
pub mod Mappings
pub mod Init
use flurry.Prelude.{ℕ, zero, suc, ◌+◌, ◌-◌, ◌^◌, bit_and, bit_or, ltb, if◌then◌else◌, List, [], ◌∷◌}
use flurry.Prelude.Words.{add64, sub64}
use flurry.Prelude.Outcome.{Outcome, ok, out_of_fuel, ◌>>=◌}
use flurry.Pmm.{PhysMemoryRegion, page_size, pmm_alloc}
use flurry.Boot.{KernelAddress}
use flurry.Paging.{
  Paging, vm_flag_write, paging_set_hhdm_offset, paging_load_pml4, paging_map_page,
  paging_unmap_page,
}
use flurry.Kmalloc.{Heap, heap_start, heap_end, complement, init_heap}

abbrev pub vm_flag_nx : ℕ
vm_flag_nx = 2 ^ 63

abbrev pub vm_flag_default : ℕ
vm_flag_default = 0

-- The symbols of the linker script.
pub record KernelImage : Type 0 where
  pub text_start : ℕ
  pub text_end : ℕ
  pub rodata_start : ℕ
  pub rodata_end : ℕ
  pub data_start : ℕ
  pub data_end : ℕ
  pub limine_req_start : ℕ
  pub limine_req_end : ℕ

pub record Vmm : Type 0 where
  pub paging : Paging
  pub hhdm_offset : ℕ
  pub kernel_pml4 : ℕ

unfoldable pub align_up : ℕ → ℕ → ℕ
align_up addr align = bit_and (sub64 (add64 addr align) 1) (complement (sub64 align 1))

unfoldable pub align_down : ℕ → ℕ → ℕ
align_down addr align = bit_and addr (complement (sub64 align 1))

unfoldable pub vmm_kmap : ℕ → ℕ → ℕ → Vmm → Vmm
unfolding paging_map_page
vmm_kmap virt phys flags s = record s {
  paging = paging_map_page s.kernel_pml4 virt phys flags s.paging;
}

unfoldable pub vmm_kunmap : ℕ → Vmm → Vmm
unfolding paging_unmap_page
vmm_kunmap virt s = record s { paging = paging_unmap_page s.kernel_pml4 virt s.paging }

unfoldable pub vmm_get_kernel_pml4 : Vmm → ℕ
vmm_get_kernel_pml4 s = s.kernel_pml4

unfoldable pub vmm_load_pml4 : ℕ → Vmm → Vmm
unfolding paging_load_pml4
vmm_load_pml4 pml4 s = record s { paging = paging_load_pml4 pml4 s.paging }

-- A loop from `addr` to `end` by pages, with its body.
unfoldable pub for_pages : ℕ → ℕ → ℕ → (ℕ → Vmm → Vmm) → Vmm → Outcome Vmm
for_pages zero addr end body s = out_of_fuel
for_pages (suc rounds) addr end body s =
    let rest = for_pages rounds (add64 addr page_size) end body (body addr s) in
    if ltb addr end then rest else ok s

-- The pages of a section of the kernel, mapped to where the boot loader has put it.
unfoldable pub map_section : ℕ → ℕ → ℕ → ℕ → ℕ → Vmm → Outcome Vmm
unfolding for_pages vmm_kmap
map_section rounds start end offset flags s =
    for_pages rounds start end (λ virt. vmm_kmap virt (sub64 virt offset) flags) s

-- The pages that a region of physical memory touches, in the direct map.
unfoldable pub map_region : ℕ → PhysMemoryRegion → Vmm → Outcome Vmm
unfolding for_pages vmm_kmap align_up align_down
map_region rounds entry s =
    for_pages rounds (align_down entry.base page_size)
      (align_up (add64 entry.base entry.len) page_size)
      (λ phys. vmm_kmap (add64 phys s.hhdm_offset) phys (bit_or vm_flag_write vm_flag_nx)) s

unfoldable pub map_regions : ℕ → List PhysMemoryRegion → Vmm → Outcome Vmm
unfolding map_region
map_regions rounds [] s = ok s
map_regions rounds (entry ∷ rest) s = map_region rounds entry s >>= map_regions rounds rest

-- The four sections of the kernel.
unfoldable pub map_kernel : ℕ → KernelImage → ℕ → Vmm → Outcome Vmm
unfolding map_section
map_kernel rounds image offset s = do
  s1 ← map_section rounds image.text_start image.text_end offset vm_flag_default s
  s2 ← map_section rounds image.rodata_start image.rodata_end offset vm_flag_nx s1
  s3 ←
      map_section rounds image.data_start image.data_end offset (bit_or vm_flag_write vm_flag_nx) s2
  map_section rounds image.limine_req_start image.limine_req_end offset vm_flag_nx s3

-- Each loop has the same number of rounds.
unfoldable pub vmm_init :
    ℕ → KernelImage → ℕ → List PhysMemoryRegion → KernelAddress → Paging → Outcome Vmm
unfolding paging_set_hhdm_offset pmm_alloc map_kernel map_regions vmm_load_pml4
vmm_init rounds image offset memmap kernel_address p =
    let p' = paging_set_hhdm_offset offset p in
    let top = pmm_alloc p'.pmm in
    do
      s1 ←
          map_kernel rounds image (sub64 kernel_address.virt kernel_address.phys) (record {
            paging = record p' { pmm = top.1 };
            hhdm_offset = offset;
            kernel_pml4 = top.0;
          })
      s2 ← map_regions rounds memmap s1
      ok (vmm_load_pml4 s2.kernel_pml4 s2)

-- The body of the loop of `kmalloc_init`: a frame for the page.
unfoldable pub back_page : ℕ → Vmm → Vmm
unfolding pmm_alloc vmm_kmap
back_page virt s =
    let frame = pmm_alloc s.paging.pmm in
    vmm_kmap virt (frame.0) (bit_or vm_flag_write vm_flag_nx)
      (record s { paging = record (s.paging) { pmm = frame.1 } })

-- `kmalloc_init`: the address space behind it, and the heap.
unfoldable pub kmalloc_init : ℕ → Vmm → Heap → Outcome (Vmm × Heap)
unfolding for_pages back_page init_heap
kmalloc_init rounds s h = do
  s' ← for_pages rounds heap_start heap_end back_page s
  ok (s', init_heap h)
