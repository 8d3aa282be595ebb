-- ===== src/Tests/AddressSpace.antt =====
-- Concrete inputs for the theorems on the kernel's address space.
use mathlib.Core.Path.{subst}
use flurry.Pmm.{next_of}
use flurry.Prelude.{
  sym, ℕ, zero, suc, ◌+◌, ◌-◌, ◌*◌, ◌%◌, ◌≤◌, ◌≡◌, refl, ◌==◌, leb, ltb, if◌then◌else◌, List, [],
  ◌∷◌, length, arith, All,
}
use flurry.Prelude.Memory.{Mem}
use flurry.Prelude.Outcome.{ok}
use flurry.Pmm.{PhysMemoryRegion, usable}
use flurry.Pmm.Frames.{FreeList, Frames, Apart}
use flurry.Boot.{KernelAddress}
use flurry.Paging.{Paging, is_entry_present}
use flurry.Paging.Tables.{Framed}
use flurry.Kmalloc.{Heap, heap_start, heap_size}
use flurry.Kmalloc.Layout.{unused}
use flurry.Kmalloc.Invariant.{IsHeap}
use flurry.Vmm.{Vmm, KernelImage, vmm_init, kmalloc_init}
use flurry.Vmm.Loops.{pages}
use flurry.Vmm.Mappings.{ImageInReach}
use flurry.Vmm.Init.{boot_mappings, Started, vmm_init-Started}
use flurry.Vmm.HeapPages.{Ready}
use flurry.Vmm.HeapInit.{HeapBacked, kmalloc_init-HeapBacked}

abbrev offset : ℕ
offset = 0xffff_8000_0000_0000

-- 600 free frames from 0x1000 on, linked in their order, and zeros elsewhere.
abbrev stock : Mem
stock w =
    if ltb w (offset + 4096)
    then 0
    else if leb (offset + 601 * 4096) w
    then 0
    else if w % 4096 == 0
    then w - offset
    else if w % 4096 == 8
    then if leb (offset + 600 * 4096) w then 0 else w - 8 + 4096
    else 0

stock_address : (a : ℕ) → a % 4096 ≡ 0 → 4096 ≤ a → a + 4096 ≤ 601 * 4096 → stock (a + offset) ≡ a
stock_address a aligned low end = ground arith

stock_link :
    (a : ℕ)
    → a % 4096 ≡ 0
    → 4096 ≤ a
    → a + 8192 ≤ 601 * 4096
    → stock (next_of (a + offset)) ≡ a + 4096 + offset
stock_link a aligned low end =
    let word : next_of (a + offset) ≡ a + offset + 8 = omega arith in rw word (ground arith)

stock_last : stock (next_of (600 * 4096 + offset)) ≡ 0
stock_last = refl

stock-FreeList :
    (n a : ℕ)
    → a % 4096 ≡ 0
    → 4096 ≤ a
    → a + suc n * 4096 ≡ 601 * 4096
    → FreeList stock offset (a + offset) (pages (suc n) a)
stock-FreeList zero a aligned low end =
    let here : a ≡ 600 * 4096 = omega arith in
    (
      refl,
      stock_address a aligned low (omega arith),
      subst (λ x. stock (next_of (x + offset)) ≡ 0) (sym here) stock_last,
    )
stock-FreeList (suc n) a aligned low end = (
  refl,
  stock_address a aligned low (omega arith),
  subst (λ p. FreeList stock offset p (pages (suc n) (a + 4096)))
      (sym (stock_link a aligned low (omega arith)))
      (stock-FreeList n (a + 4096) (omega arith) (omega arith) (omega arith)),
)

stock-Apart : (n a b : ℕ) → a + 4096 ≤ b → All (Apart a) (pages n b)
stock-Apart zero a b below = tt
stock-Apart (suc n) a b below = (omega arith, stock-Apart n a (b + 4096) (omega arith))

stock-Frames : (n a : ℕ) → a + n * 4096 ≤ 601 * 4096 → Frames offset (pages n a)
stock-Frames zero a end = tt
stock-Frames (suc n) a end =
    (omega arith, stock-Apart n a (a + 4096) (omega arith), stock-Frames n (a + 4096) (omega arith))

stock-Framed : (n a : ℕ) → a % 4096 ≡ 0 → a + n * 4096 ≤ 601 * 4096 → All Framed (pages n a)
stock-Framed zero a aligned end = tt
stock-Framed (suc n) a aligned end =
    (omega arith, stock-Framed n (a + 4096) (omega arith) (omega arith))

length-pages : (n a : ℕ) → length (pages n a) ≡ n
length-pages zero a = refl
length-pages (suc n) a = omega (arith, length-pages n (a + 4096))

abbrev stocked : Paging
stocked = record {
  pmm = record { mem = stock; hhdm_offset = offset; free_list_head = 4096 + offset };
  cr3 = 0;
  flushed = [];
}

-- A kernel of one page in each section, and a region of memory that touches two pages.
abbrev kernel : KernelImage
kernel = record {
  text_start = 0xffff_ffff_8000_0000;
  text_end = 0xffff_ffff_8000_0800;
  rodata_start = 0xffff_ffff_8000_1000;
  rodata_end = 0xffff_ffff_8000_1800;
  data_start = 0xffff_ffff_8000_2000;
  data_end = 0xffff_ffff_8000_2800;
  limine_req_start = 0xffff_ffff_8000_3000;
  limine_req_end = 0xffff_ffff_8000_3800;
}

abbrev memory : List PhysMemoryRegion
memory = record { base = 0x1800; len = 0x1000; kind = usable } ∷ []

abbrev loaded_at : KernelAddress
loaded_at = record { virt = 0xffff_ffff_8000_0000; phys = 0x20_0000 }

kernel-InReach : ImageInReach 4 kernel
kernel-InReach = record {
  text = omega arith;
  rodata = omega arith;
  data_part = omega arith;
  requests = omega arith;
}

vmm_init-Started_example :
    Started
      (vmm_init 4 kernel offset memory loaded_at stocked)
      offset
      stocked
      4096
      (pages 599 8192)
      (boot_mappings kernel offset memory loaded_at)
vmm_init-Started_example =
    vmm_init-Started 4 kernel offset memory loaded_at stocked 4096 (pages 599 8192)
      (stock-FreeList 599 4096 (omega arith) (omega arith) (omega arith))
      (stock-Frames 600 4096 (omega arith)) kernel-InReach (omega arith)

-- An empty top table below the free frames.
abbrev bare_space : Vmm
bare_space = record { paging = stocked; hhdm_offset = offset; kernel_pml4 = 0 }

abbrev no_heap : Heap
no_heap = record { mem = λ a. 0; freelist_head = 0 }

bare_space-Ready : Ready bare_space offset 0 (pages 600 4096)
unfolding is_entry_present
bare_space-Ready = record {
  map = refl;
  top_is = refl;
  list = stock-FreeList 599 4096 (omega arith) (omega arith) (omega arith);
  frames = stock-Frames 600 4096 (omega arith);
  framed = stock-Framed 600 4096 (omega arith) (omega arith);
  sound = ((omega arith, stock-Apart 600 0 4096 (omega arith)), tt, λ linked. cc linked);
}

kmalloc_init-HeapBacked_example :
    (s' : Vmm) × (h' : Heap) × (kmalloc_init 513 bare_space no_heap ≡ ok (s', h'))
    × HeapBacked bare_space offset (pages 600 4096) s'
    × IsHeap h' (unused heap_size ∷ []) (heap_start ∷ [])
kmalloc_init-HeapBacked_example =
    kmalloc_init-HeapBacked 513 bare_space no_heap (pages 600 4096) (omega arith) refl
      bare_space-Ready (omega (arith, length-pages 600 4096))
