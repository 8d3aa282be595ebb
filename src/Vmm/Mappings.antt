-- ===== src/Vmm/Mappings.antt =====
-- What the loops of `vmm_init`, kernel/memory/vmm.c, map.
use flurry.Prelude.{
  ℕ, ◌+◌, ◌-◌, ◌*◌, ◌/◌, ◌^◌, ◌<◌, ◌≤◌, ◌≡◌, refl, sym, ◌∙◌, ap, bit_or, List, [], ◌∷◌, ◌++◌, map,
  arith, All,
}
use flurry.Prelude.Words.{add64, sub64}
use flurry.Prelude.Outcome.{ok, ◌>>=◌}
use flurry.Pmm.{PhysMemoryRegion}
use flurry.Paging.{vm_flag_write}
use flurry.Vmm.{
  Vmm, KernelImage, vm_flag_nx, vm_flag_default, map_section, map_region, map_regions, map_kernel,
}
use flurry.Vmm.Loops.{
  pages, page_count, for_pages-run_all, Mapping, kmap_all, kmap_all-append, kmap_all-kept,
  run_all-kmap_all, align_down_lem, align_up_lem,
}

-- The mappings of a section of the kernel, of a region of memory, and of all.
abbrev pub section_mappings : ℕ → ℕ → ℕ → ℕ → List Mapping
section_mappings start end offset flags =
    map (λ virt. record { virt = virt; phys = sub64 virt offset; flags = flags })
      (pages (page_count start end) start)

abbrev pub kernel_mappings : KernelImage → ℕ → List Mapping
kernel_mappings image offset =
    section_mappings image.text_start image.text_end offset vm_flag_default
    ++ section_mappings image.rodata_start image.rodata_end offset vm_flag_nx
    ++ section_mappings image.data_start image.data_end offset (bit_or vm_flag_write vm_flag_nx)
    ++ section_mappings image.limine_req_start image.limine_req_end offset vm_flag_nx

-- From the page of its first byte to that of its last.
abbrev pub region_mappings : ℕ → PhysMemoryRegion → List Mapping
region_mappings hhdm entry =
    let first = entry.base / 4096 in
    map
      (λ phys. record {
        virt = add64 phys hhdm;
        phys = phys;
        flags = bit_or vm_flag_write vm_flag_nx;
      })
      (pages ((entry.base + entry.len + 4095) / 4096 - first) (first * 4096))

abbrev pub all_mappings : ℕ → List PhysMemoryRegion → List Mapping
all_mappings hhdm [] = []
all_mappings hhdm (entry ∷ rest) = region_mappings hhdm entry ++ all_mappings hhdm rest

-- A range that ends a page before 2 ^ 64 at the latest, with rounds for its pages and one more.
abbrev pub InReach : ℕ → ℕ → ℕ → Type 0
InReach rounds start end = (end + 4096 ≤ 2 ^ 64) × (page_count start end < rounds)

pub record ImageInReach (rounds : ℕ) (image : KernelImage) : Type 0 where
  pub text : InReach rounds image.text_start image.text_end
  pub rodata : InReach rounds image.rodata_start image.rodata_end
  pub data_part : InReach rounds image.data_start image.data_end
  pub requests : InReach rounds image.limine_req_start image.limine_req_end

abbrev pub RegionInReach : ℕ → PhysMemoryRegion → Type 0
RegionInReach rounds entry =
    (entry.base + entry.len + 8192 ≤ 2 ^ 64) × (entry.len / 4096 + 2 < rounds)

map_section-kmap_all :
    (rounds start end offset flags : ℕ) (s : Vmm)
    → InReach rounds start end
    → map_section rounds start end offset flags s
      ≡ ok (kmap_all (section_mappings start end offset flags) s)
unfolding map_section
map_section-kmap_all rounds start end offset flags s fits =
    for_pages-run_all (page_count start end) rounds start end _ s refl fits.1 fits.0
    ∙ ap ok (
        run_all-kmap_all (λ x. x) (λ x. sub64 x offset) flags (pages (page_count start end) start)
          s)

map_kernel-eq :
    (rounds offset : ℕ) (image : KernelImage) (s : Vmm)
    → map_kernel rounds image offset s ≡ (
        map_section rounds image.text_start image.text_end offset vm_flag_default s >>= (λ s1.
          map_section rounds image.rodata_start image.rodata_end offset vm_flag_nx s1 >>= (λ s2.
            map_section rounds image.data_start image.data_end offset
              (bit_or vm_flag_write vm_flag_nx)
              s2
            >>= (λ s3.
                map_section rounds image.limine_req_start image.limine_req_end offset vm_flag_nx
                  s3))))
unfolding map_kernel
map_kernel-eq rounds offset image s = refl

kmap_all-four :
    (ks bs cs ds : List Mapping) (s : Vmm)
    → kmap_all (ks ++ bs ++ cs ++ ds) s ≡ kmap_all ds (kmap_all cs (kmap_all bs (kmap_all ks s)))
kmap_all-four ks bs cs ds s = simp kmap_all-append

pub map_kernel-kmap_all :
    (rounds offset : ℕ) (image : KernelImage) (s : Vmm)
    → ImageInReach rounds image
    → map_kernel rounds image offset s ≡ ok (kmap_all (kernel_mappings image offset) s)
map_kernel-kmap_all rounds offset image s fits =
    map_kernel-eq rounds offset image s
    ∙ rw
        (
          map_section-kmap_all rounds image.text_start image.text_end offset vm_flag_default s
              fits.text,
          map_section-kmap_all rounds image.rodata_start image.rodata_end offset vm_flag_nx
              (kmap_all (section_mappings image.text_start image.text_end offset vm_flag_default) s)
              fits.rodata,
          map_section-kmap_all rounds image.data_start image.data_end offset
              (bit_or vm_flag_write vm_flag_nx) _ fits.data_part,
          map_section-kmap_all rounds image.limine_req_start image.limine_req_end offset vm_flag_nx
              _ fits.requests,
          kmap_all-four (section_mappings image.text_start image.text_end offset vm_flag_default),
        )
        refl

map_region-kmap_all :
    (rounds : ℕ) (entry : PhysMemoryRegion) (s : Vmm)
    → RegionInReach rounds entry
    → map_region rounds entry s ≡ ok (kmap_all (region_mappings s.hhdm_offset entry) s)
unfolding map_region
map_region-kmap_all rounds entry s fits =
    let sum : add64 entry.base entry.len ≡ entry.base + entry.len = omega (arith, fits) in
    let down = align_down_lem entry.base (omega (arith, fits)) in
    let up = align_up_lem (entry.base + entry.len) (omega (arith, fits)) in
    let n = (entry.base + entry.len + 4095) / 4096 - entry.base / 4096 in
    rw (sum, down, up)
      (for_pages-run_all n rounds (entry.base / 4096 * 4096)
          ((entry.base + entry.len + 4095) / 4096 * 4096) _ s (omega arith) (omega (arith, fits))
          (omega (arith, fits))
        ∙ ap ok (
            run_all-kmap_all (λ x. add64 x s.hhdm_offset) (λ x. x) (bit_or vm_flag_write vm_flag_nx)
              (pages n (entry.base / 4096 * 4096)) s))

pub map_regions-kmap_all :
    (rounds hhdm : ℕ) (memmap : List PhysMemoryRegion) (s : Vmm)
    → s.hhdm_offset ≡ hhdm
    → All (RegionInReach rounds) memmap
    → map_regions rounds memmap s ≡ ok (kmap_all (all_mappings hhdm memmap) s)
unfolding map_regions
map_regions-kmap_all rounds hhdm [] s e fits = refl
map_regions-kmap_all rounds hhdm (entry ∷ rest) s e fits =
    let first = region_mappings s.hhdm_offset entry in
    let next =
      map_regions-kmap_all rounds hhdm rest (kmap_all first s) ((kmap_all-kept first s).0 ∙ e)
        fits.1 in
    ap (λ o. o >>= map_regions rounds rest) (map_region-kmap_all rounds entry s fits.0)
    ∙ next
    ∙ ap ok (
        sym (
          ap (λ o. kmap_all (region_mappings o entry ++ all_mappings hhdm rest) s) (sym e)
          ∙ kmap_all-append first (all_mappings hhdm rest) s))
