-- ===== src/Vmm/Init.antt =====
-- `vmm_init` of kernel/memory/vmm.c with enough rounds for its loops.
use flurry.Prelude.{ℕ, ◌≡◌, refl, ◌∙◌, ap, List, [], ◌∷◌, ◌++◌, All}
use flurry.Prelude.Words.{sub64}
use flurry.Prelude.Outcome.{Outcome, ok, ◌>>=◌}
use flurry.Pmm.{Pmm, PhysMemoryRegion, pmm_alloc}
use flurry.Pmm.Frames.{FreeList, Frames}
use flurry.Pmm.Alloc.{Taken, pmm_alloc-Taken}
use flurry.Boot.{KernelAddress}
use flurry.Paging.{Paging, paging_set_hhdm_offset, paging_load_pml4, vmm_map}
use flurry.Vmm.{Vmm, KernelImage, vmm_load_pml4, vmm_kmap, map_regions, map_kernel, vmm_init}
use flurry.Vmm.Loops.{Mapping, kmap_all, kmap_all-append, kmap_all-kept}
use flurry.Vmm.Mappings.{
  kernel_mappings, all_mappings, ImageInReach, RegionInReach, map_kernel-kmap_all,
  map_regions-kmap_all,
}

-- The address space with an empty top table.
abbrev pub bare_vmm : ℕ → Paging → Vmm
bare_vmm offset p =
    let p' = paging_set_hhdm_offset offset p in
    record {
      paging = record p' { pmm = (pmm_alloc p'.pmm).1 };
      hhdm_offset = offset;
      kernel_pml4 = (pmm_alloc p'.pmm).0;
    }

vmm_init-eq :
    (rounds : ℕ) (image : KernelImage) (offset : ℕ) (memmap : List PhysMemoryRegion)
    (kernel_address : KernelAddress) (p : Paging)
    → vmm_init rounds image offset memmap kernel_address p ≡ (
        map_kernel rounds image (sub64 kernel_address.virt kernel_address.phys) (bare_vmm offset p)
        >>= (λ s1. map_regions rounds memmap s1 >>= (λ s2. ok (vmm_load_pml4 s2.kernel_pml4 s2))))
unfolding vmm_init
vmm_init-eq rounds image offset memmap kernel_address p = refl

-- All that `vmm_init` maps, in its order.
abbrev pub boot_mappings : KernelImage → ℕ → List PhysMemoryRegion → KernelAddress → List Mapping
boot_mappings image offset memmap kernel_address =
    kernel_mappings image (sub64 kernel_address.virt kernel_address.phys)
    ++ all_mappings offset memmap

then_regions :
    (rounds : ℕ) (memmap : List PhysMemoryRegion) (ks ms : List Mapping) (s : Vmm) (o : Outcome Vmm)
    → o ≡ ok (kmap_all ks s)
    → map_regions rounds memmap (kmap_all ks s) ≡ ok (kmap_all ms (kmap_all ks s))
    → (o >>= (λ s1. map_regions rounds memmap s1 >>= (λ s2. ok (vmm_load_pml4 s2.kernel_pml4 s2))))
      ≡ ok (vmm_load_pml4 s.kernel_pml4 (kmap_all (ks ++ ms) s))
then_regions rounds memmap ks ms s o kernel regions =
    rw
      (
        kernel,
        regions,
        (kmap_all-kept ms (kmap_all ks s)).1,
        (kmap_all-kept ks s).1,
        kmap_all-append ks ms s,
      )
      refl

-- The pages mapped by `vmm_map` in the tables below `top`, one after the other.
abbrev pub map_all : ℕ → List Mapping → Paging → Paging
map_all top [] p = p
map_all top (m ∷ ms) p = map_all top ms (vmm_map top m.virt m.phys m.flags p)

kmap_all-map_all :
    (ms : List Mapping) (s : Vmm)
    → kmap_all ms s ≡ record s { paging = map_all s.kernel_pml4 ms s.paging }
unfolding vmm_kmap vmm_map
kmap_all-map_all [] s = refl
kmap_all-map_all (m ∷ ms) s = kmap_all-map_all ms (vmm_kmap m.virt m.phys m.flags s)

load-active :
    (ms : List Mapping) (s : Vmm)
    → vmm_load_pml4 s.kernel_pml4 (kmap_all ms s)
      ≡ record s { paging = record (map_all s.kernel_pml4 ms s.paging) { cr3 = s.kernel_pml4 } }
unfolding vmm_load_pml4 paging_load_pml4
load-active ms s = rw (kmap_all-map_all ms s) refl

-- The state that `vmm_init` leaves: the first free frame, taken and cleared, is the top table of the
-- kernel, all is mapped below it, and it is the active one.
pub record Started (o : Outcome Vmm) (offset : ℕ) (p : Paging) (a : ℕ) (rest : List ℕ)
    (ms : List Mapping) : Type 0 where
  pub final : Vmm
  pub returns : o ≡ ok final
  pub q : Pmm
  pub taken : Taken (record (p.pmm) { hhdm_offset = offset }) a rest q
  pub offset_is : final.hhdm_offset ≡ offset
  pub top : final.kernel_pml4 ≡ a
  pub maps : final.paging ≡ record (map_all a ms (record p { pmm = q })) { cr3 = a }

-- With a free frame, with rounds for the pages of each section of the kernel and of each region of
-- memory, and where none of them ends in the last pages below 2 ^ 64, `vmm_init` returns: it takes the
-- first free frame, cleared, for the top table, maps by `vmm_map` in the tables below it the pages of the
-- sections to where the boot loader has put them, then every page that a region touches in the direct
-- map, in this order, and makes this top table the active one.
pub vmm_init-Started :
    (rounds : ℕ) (image : KernelImage) (offset : ℕ) (memmap : List PhysMemoryRegion)
    (kernel_address : KernelAddress) (p : Paging) (a : ℕ) (rest : List ℕ)
    → FreeList p.pmm.mem offset p.pmm.free_list_head (a ∷ rest)
    → Frames offset (a ∷ rest)
    → ImageInReach rounds image
    → All (RegionInReach rounds) memmap
    → Started
        (vmm_init rounds image offset memmap kernel_address p)
        offset
        p
        a
        rest
        (boot_mappings image offset memmap kernel_address)
unfolding paging_set_hhdm_offset
vmm_init-Started rounds image offset memmap kernel_address p a rest list frames fits fits_all =
    let back = sub64 kernel_address.virt kernel_address.phys in
    let ms = boot_mappings image offset memmap kernel_address in
    let pmm = record (p.pmm) { hhdm_offset = offset } in
    let t = pmm_alloc-Taken pmm a rest list frames in
    let s = bare_vmm offset p in
    let over : ℕ × Pmm → Outcome Vmm = λ r. ok (record {
      paging = record (map_all r.0 ms (record p { pmm = r.1 })) { cr3 = r.0 };
      hhdm_offset = offset;
      kernel_pml4 = r.0;
    }) in
    record {
      final = record {
        paging = record (map_all a ms (record p { pmm = t.0 })) { cr3 = a };
        hhdm_offset = offset;
        kernel_pml4 = a;
      };
      returns =
          vmm_init-eq rounds image offset memmap kernel_address p
          ∙ then_regions rounds memmap (kernel_mappings image back) (all_mappings offset memmap) s
              (map_kernel rounds image back s) (map_kernel-kmap_all rounds back image s fits)
              (map_regions-kmap_all rounds offset memmap (kmap_all (kernel_mappings image back) s)
                ((kmap_all-kept (kernel_mappings image back) s).0) fits_all)
          ∙ ap ok (load-active ms s)
          ∙ ap over t.1;
      q = t.0;
      taken = t.2;
      offset_is = refl;
      top = refl;
      maps = refl;
    }
