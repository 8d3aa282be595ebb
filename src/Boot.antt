-- ===== src/Boot.antt =====
-- What the boot loader hands over, kernel/boot/entry.c: its answers, which are parameters, are put in a
-- BootInfo for `kinit`.
pub mod Convert
use flurry.Prelude.{ℕ, zero, suc, ◌==◌, if◌then◌else◌, List, [], ◌∷◌, Option, none, some}
use flurry.Pmm.{
  PhysMemoryRegionType, usable, reserved, acpi_reclaimable, acpi_nvs, bad_memory,
  bootloader_reclaimable, kernel_and_modules, framebuffer, PhysMemoryRegion,
}

-- The boot loader's entry of the memory map.
pub record MemmapEntry : Type 0 where
  pub base : ℕ
  pub len : ℕ
  pub kind : ℕ

-- What `kentry` reads of the boot loader's framebuffer, of its address of the kernel, and of a file.
pub record LimineFramebuffer : Type 0 where
  pub address : ℕ
  pub width : ℕ
  pub height : ℕ
  pub pitch : ℕ
  pub bpp : ℕ
  pub memory_model : ℕ
  pub red_mask_size : ℕ
  pub red_mask_shift : ℕ
  pub green_mask_size : ℕ
  pub green_mask_shift : ℕ
  pub blue_mask_size : ℕ
  pub blue_mask_shift : ℕ

pub record LimineKernelAddress : Type 0 where
  pub physical_base : ℕ
  pub virtual_base : ℕ

pub record LimineFile : Type 0 where
  pub address : ℕ
  pub size : ℕ
  pub path : ℕ
  pub cmdline : ℕ

pub record Framebuffer : Type 0 where
  pub address : ℕ
  pub width : ℕ
  pub height : ℕ
  pub pitch : ℕ
  pub bpp : ℕ
  pub memory_model : ℕ
  pub red_mask_size : ℕ
  pub red_mask_shift : ℕ
  pub green_mask_size : ℕ
  pub green_mask_shift : ℕ
  pub blue_mask_size : ℕ
  pub blue_mask_shift : ℕ

pub record KernelAddress : Type 0 where
  pub virt : ℕ
  pub phys : ℕ

pub record Module : Type 0 where
  pub address : ℕ
  pub size : ℕ
  pub path : ℕ
  pub cmdline : ℕ

-- The array of the modules is the list of its slots.
pub record BootInfo : Type 0 where
  pub memory_map : List PhysMemoryRegion
  pub hhdm_offset : ℕ
  pub fb : Framebuffer
  pub kernel_address : KernelAddress
  pub rsdp_address : ℕ
  pub modules : List Module

-- The boot loader's answers, each of which may be missing.
pub record Responses : Type 0 where
  pub memmap_request : Option (List MemmapEntry)
  pub hhdm_request : Option ℕ
  pub framebuffer_request : Option (List LimineFramebuffer)
  pub kernel_address_request : Option LimineKernelAddress
  pub rsdp_request : Option ℕ
  pub module_request : Option (List LimineFile)

-- The kind of an entry, by the boot loader's number; another number leaves what the stack held.
unfoldable pub region_type : PhysMemoryRegionType → ℕ → PhysMemoryRegionType
region_type held kind =
    if kind == 0
    then usable
    else if kind == 1
    then reserved
    else if kind == 2
    then acpi_reclaimable
    else if kind == 3
    then acpi_nvs
    else if kind == 5
    then bootloader_reclaimable
    else if kind == 7
    then framebuffer
    else if kind == 4
    then bad_memory
    else if kind == 6
    then kernel_and_modules
    else held

unfoldable pub memory_regions : PhysMemoryRegionType → List MemmapEntry → List PhysMemoryRegion
unfolding region_type
memory_regions held [] = []
memory_regions held (e ∷ es) =
    record { base = e.base; len = e.len; kind = region_type held e.kind } ∷ memory_regions held es

-- What a part of `kentry` comes to: it goes on with a result, an assertion fails and stops the machine,
-- or it is outside of an array, after which nothing is known.
pub data Handover {ℓ} (A : Type ℓ) : Type ℓ where
  goes_on : A → Handover A
  stops : Handover A
  outside : Handover A

infixl 5 ◌>>=◌
abbrev pub ◌>>=◌ {ℓ κ} : {A : Type ℓ} {B : Type κ} → Handover A → (A → Handover B) → Handover B
goes_on a >>= k = k a
stops >>= k = stops
outside >>= k = outside

-- The slots of `BootInfo boot_info = {}`.
abbrev pub no_module : Module
no_module = record { address = 0; size = 0; path = 0; cmdline = 0 }

unfoldable pub empty_slots : ℕ → List Module
empty_slots zero = []
empty_slots (suc n) = no_module ∷ empty_slots n

-- The write of a slot.
unfoldable pub put_module : ℕ → Module → List Module → Handover (List Module)
put_module i module_ [] = outside
put_module zero module_ (x ∷ slots) = goes_on (module_ ∷ slots)
put_module (suc i) module_ (x ∷ slots) = do rest ← put_module i module_ slots; goes_on (x ∷ rest)

unfoldable pub module_of : LimineFile → Module
module_of file = record {
  address = file.address;
  size = file.size;
  path = file.path;
  cmdline = file.cmdline;
}

-- The loop over the modules, from index `i` on.
unfoldable pub copy_modules : ℕ → List LimineFile → List Module → Handover (List Module)
unfolding put_module module_of
copy_modules i [] slots = goes_on slots
copy_modules i (file ∷ files) slots =
    put_module i (module_of file) slots >>= copy_modules (suc i) files

-- `framebuffers[0]`, of which `kentry` does not ask whether it is there.
unfoldable pub first_framebuffer : List LimineFramebuffer → Handover LimineFramebuffer
first_framebuffer [] = outside
first_framebuffer (screen ∷ screens) = goes_on screen

unfoldable pub copy_framebuffer : LimineFramebuffer → Framebuffer
copy_framebuffer screen = record {
  address = screen.address;
  width = screen.width;
  height = screen.height;
  pitch = screen.pitch;
  bpp = screen.bpp;
  memory_model = screen.memory_model;
  red_mask_size = screen.red_mask_size;
  red_mask_shift = screen.red_mask_shift;
  green_mask_size = screen.green_mask_size;
  green_mask_shift = screen.green_mask_shift;
  blue_mask_size = screen.blue_mask_size;
  blue_mask_shift = screen.blue_mask_shift;
}

unfoldable pub copy_kernel_address : LimineKernelAddress → KernelAddress
copy_kernel_address kernel = record { virt = kernel.virtual_base; phys = kernel.physical_base }

-- `kassert` of a response.
abbrev pub need {ℓ} : {A : Type ℓ} → Option A → Handover A
need none = stops
need (some a) = goes_on a

-- What `kentry` calls `kinit` with. The array has 64 slots.
unfoldable pub kentry : PhysMemoryRegionType → Responses → Handover BootInfo
unfolding memory_regions empty_slots copy_modules first_framebuffer copy_framebuffer
    copy_kernel_address
kentry held r = do
  entries ← need r.memmap_request
  offset ← need r.hhdm_request
  screens ← need r.framebuffer_request
  kernel ← need r.kernel_address_request
  rsdp ← need r.rsdp_request
  files ← need r.module_request
  screen ← first_framebuffer screens
  slots ← copy_modules 0 files (empty_slots 64)
  goes_on (record {
    memory_map = memory_regions held entries;
    hhdm_offset = offset;
    fb = copy_framebuffer screen;
    kernel_address = copy_kernel_address kernel;
    rsdp_address = rsdp;
    modules = slots;
  })
