-- ===== src/Boot/Convert.antt =====
-- What `kinit` gets of the boot loader's answers.
use flurry.Prelude.{
  ℕ, zero, suc, ◌<◌, ◌≡◌, ◌∙◌, refl, ap, ◌⊎◌, inl, inr, arith, List, [], ◌∷◌, length, some,
}
use flurry.Pmm.{
  PhysMemoryRegionType, usable, reserved, acpi_reclaimable, acpi_nvs, bad_memory,
  bootloader_reclaimable, kernel_and_modules, framebuffer, PhysMemoryRegion,
}
use flurry.Boot.{
  MemmapEntry, LimineFramebuffer, LimineKernelAddress, LimineFile, Framebuffer, KernelAddress,
  Module, BootInfo, Responses, Handover, goes_on, stops, outside, ◌>>=◌, region_type,
  memory_regions, no_module, empty_slots, put_module, module_of, copy_modules, first_framebuffer,
  copy_framebuffer, copy_kernel_address, kentry,
}

-- The boot loader's number for a kind of memory.
abbrev pub type_number : PhysMemoryRegionType → ℕ
type_number usable = 0
type_number reserved = 1
type_number acpi_reclaimable = 2
type_number acpi_nvs = 3
type_number bad_memory = 4
type_number bootloader_reclaimable = 5
type_number kernel_and_modules = 6
type_number framebuffer = 7

-- A region read back as the boot loader's entry, and all of a map.
abbrev pub entry_of : PhysMemoryRegion → MemmapEntry
entry_of r = record { base = r.base; len = r.len; kind = type_number r.kind }

abbrev pub entries_of : List PhysMemoryRegion → List MemmapEntry
entries_of [] = []
entries_of (r ∷ rs) = entry_of r ∷ entries_of rs

-- The entries are of the eight kinds that there are.
abbrev pub Known : List MemmapEntry → Type 0
Known [] = Unit
Known (e ∷ es) = (e.kind < 8) × Known es

region_type-number :
    (held : PhysMemoryRegionType) (kind : ℕ) → kind < 8 → type_number (region_type held kind) ≡ kind
unfolding region_type
region_type-number held kind known = ground arith

memory_regions-entries :
    (held : PhysMemoryRegionType) (es : List MemmapEntry)
    → Known es
    → entries_of (memory_regions held es) ≡ es
unfolding memory_regions
memory_regions-entries held [] known = refl
memory_regions-entries held (e ∷ es) known =
    rw (region_type-number held e.kind known.0, memory_regions-entries held es known.1) refl

-- What `kentry` hands over read back as the boot loader's framebuffer, address of the kernel and file.
abbrev pub limine_framebuffer : Framebuffer → LimineFramebuffer
limine_framebuffer fb = record {
  address = fb.address;
  width = fb.width;
  height = fb.height;
  pitch = fb.pitch;
  bpp = fb.bpp;
  memory_model = fb.memory_model;
  red_mask_size = fb.red_mask_size;
  red_mask_shift = fb.red_mask_shift;
  green_mask_size = fb.green_mask_size;
  green_mask_shift = fb.green_mask_shift;
  blue_mask_size = fb.blue_mask_size;
  blue_mask_shift = fb.blue_mask_shift;
}

abbrev pub limine_address : KernelAddress → LimineKernelAddress
limine_address kernel = record { physical_base = kernel.phys; virtual_base = kernel.virt }

abbrev pub limine_file : Module → LimineFile
limine_file module_ = record {
  address = module_.address;
  size = module_.size;
  path = module_.path;
  cmdline = module_.cmdline;
}

-- The slots hold the files in their order, and each one behind them is empty.
abbrev pub Filled : List LimineFile → List Module → Type 0
Filled [] [] = Unit
Filled [] (x ∷ slots) = (x ≡ no_module) × Filled [] slots
Filled (file ∷ files) [] = ⊥
Filled (file ∷ files) (x ∷ slots) = (limine_file x ≡ file) × Filled files slots

empty_slots-Filled : (n : ℕ) → Filled [] (empty_slots n)
unfolding empty_slots
empty_slots-Filled zero = tt
empty_slots-Filled (suc n) = (refl, empty_slots-Filled n)

length-empty_slots : (n : ℕ) → length (empty_slots n) ≡ n
unfolding empty_slots
length-empty_slots zero = refl
length-empty_slots (suc n) = ap suc (length-empty_slots n)

copy_modules-after :
    (i : ℕ) (x : Module) (files : List LimineFile) (o : Handover (List Module))
    → ((slots : List Module)
        → copy_modules (suc i) files (x ∷ slots)
          ≡ (copy_modules i files slots >>= (λ rest. goes_on (x ∷ rest))))
    → (o >>= (λ rest. goes_on (x ∷ rest)) >>= copy_modules (suc i) files)
      ≡ (o >>= copy_modules i files >>= (λ rest. goes_on (x ∷ rest)))
copy_modules-after i x files (goes_on slots) next = next slots
copy_modules-after i x files stops next = refl
copy_modules-after i x files outside next = refl

-- The loop behind the first slot is the loop with indices less by one.
copy_modules-suc :
    (i : ℕ) (x : Module) (files : List LimineFile) (slots : List Module)
    → copy_modules (suc i) files (x ∷ slots)
      ≡ (copy_modules i files slots >>= (λ rest. goes_on (x ∷ rest)))
unfolding copy_modules
copy_modules-suc i x [] slots = refl
copy_modules-suc i x (file ∷ files) slots =
    copy_modules-after (suc i) x files (put_module i (module_of file) slots)
      (copy_modules-suc (suc i) x files)

-- The modules fit in the slots, or the loop is outside of them.
copy_modules-cases :
    (files : List LimineFile) (slots : List Module)
    → Filled [] slots
    → ((length slots < length files) × (copy_modules 0 files slots ≡ outside))
      ⊎ ((slots' : List Module) × (copy_modules 0 files slots ≡ goes_on slots')
          × Filled files slots'
          × (length slots' ≡ length slots))
unfolding copy_modules put_module module_of
copy_modules-cases [] slots empty = inr (slots, refl, empty, refl)
copy_modules-cases (file ∷ files) [] empty = inl (omega arith, refl)
copy_modules-cases (file ∷ files) (x ∷ slots) empty =
    let behind = copy_modules-suc 0 (module_of file) files slots in
    elim (copy_modules-cases files slots empty.1) [
      | inl over ↦ inl (
        omega (arith, over.0),
        behind ∙ ap (λ o. o >>= (λ rest. goes_on (module_of file ∷ rest))) over.1,
      )
      | inr r ↦ inr (
        module_of file ∷ r.0,
        behind ∙ ap (λ o. o >>= (λ rest. goes_on (module_of file ∷ rest))) r.1,
        (refl, r.2),
        ap suc r.3,
      )
    ]

-- All of the boot loader's answers are there, with a framebuffer, and the entries of the memory map of
-- known kinds.
pub record Answered (r : Responses) : Type 0 where
  pub entries : List MemmapEntry
  pub offset : ℕ
  pub screen : LimineFramebuffer
  pub screens : List LimineFramebuffer
  pub kernel : LimineKernelAddress
  pub rsdp : ℕ
  pub files : List LimineFile
  pub memmap : r.memmap_request ≡ some entries
  pub hhdm : r.hhdm_request ≡ some offset
  pub shown : r.framebuffer_request ≡ some (screen ∷ screens)
  pub placed : r.kernel_address_request ≡ some kernel
  pub tables : r.rsdp_request ≡ some rsdp
  pub modules : r.module_request ≡ some files
  pub known : Known entries

-- What `kentry` hands over: all reads back as the boot loader's answers, the first framebuffer among
-- them, and there are 64 slots, of which the first hold the modules and the others are empty.
pub record HandsOver (o : Handover BootInfo) (r : Responses) (a : Answered r) : Type 0 where
  pub info : BootInfo
  pub returns : o ≡ goes_on info
  pub map_same : entries_of info.memory_map ≡ a.entries
  pub offset_same : info.hhdm_offset ≡ a.offset
  pub fb_same : limine_framebuffer info.fb ≡ a.screen
  pub kernel_same : limine_address info.kernel_address ≡ a.kernel
  pub rsdp_same : info.rsdp_address ≡ a.rsdp
  pub slots : length info.modules ≡ 64
  pub modules_same : Filled a.files info.modules

-- What `kinit` is called with once the slots are filled.
abbrev info_of : PhysMemoryRegionType → (r : Responses) → Answered r → List Module → BootInfo
info_of held r a slots = record {
  memory_map = memory_regions held a.entries;
  hhdm_offset = a.offset;
  fb = copy_framebuffer a.screen;
  kernel_address = copy_kernel_address a.kernel;
  rsdp_address = a.rsdp;
  modules = slots;
}

kentry-eq :
    (held : PhysMemoryRegionType) (r : Responses) (a : Answered r)
    → kentry held r
      ≡ (copy_modules 0 a.files (empty_slots 64) >>= (λ slots. goes_on (info_of held r a slots)))
unfolding kentry first_framebuffer
kentry-eq held r a = rw (a.memmap, a.hhdm, a.shown, a.placed, a.tables, a.modules) refl

-- With all answers there, at least one framebuffer, and entries of the eight known kinds: if there are
-- more than 64 modules, `kentry` writes outside of the array of the modules; else it calls `kinit` with
-- a memory map that reads back as the boot loader's, whatever the stack held, with the first
-- framebuffer, field by field, and the other answers as they are, and with 64 slots, of which the first
-- hold the modules in their order and the others are empty.
pub kentry-HandsOver :
    (held : PhysMemoryRegionType) (r : Responses) (a : Answered r)
    → ((64 < length a.files) × (kentry held r ≡ outside)) ⊎ HandsOver (kentry held r) r a
unfolding copy_framebuffer copy_kernel_address
kentry-HandsOver held r a =
    elim (copy_modules-cases a.files (empty_slots 64) (empty_slots-Filled 64)) [
      | inl over ↦ inl (
        rw (length-empty_slots 64) at over.0,
        kentry-eq held r a ∙ ap (λ o. o >>= (λ slots. goes_on (info_of held r a slots))) over.1,
      )
      | inr filled ↦ inr (record {
        info = info_of held r a filled.0;
        returns =
            kentry-eq held r a
            ∙ ap (λ o. o >>= (λ slots. goes_on (info_of held r a slots))) filled.1;
        map_same = memory_regions-entries held a.entries a.known;
        offset_same = refl;
        fb_same = refl;
        kernel_same = refl;
        rsdp_same = refl;
        slots = filled.3 ∙ length-empty_slots 64;
        modules_same = filled.2;
      })
    ]
