-- ===== src/Tests/Firmware.antt =====
-- Concrete inputs for the theorems on the ACPI tables, the services for uACPI and the boot loader.
use flurry.Prelude.{◌<◌, ◌⊎◌, ◌≡◌, refl, ◌==◌, if◌then◌else◌, [], ◌∷◌, some, arith}
use flurry.Prelude.Memory.{Mem}
use flurry.Prelude.Outcome.{panic}
use flurry.Madt.{Madt, read_entries, madt_init}
use flurry.Madt.Entries.{Reads}
use flurry.Madt.Loop.{madt_init-Reads, read_entries-stuck}
use flurry.Pmm.{reserved}
use flurry.Boot.{LimineFramebuffer, LimineKernelAddress, Responses, outside, kentry}
use flurry.Boot.Convert.{Answered, HandsOver, kentry-HandsOver}

-- A table at 4096 with an entry of a local APIC and one of an I/O APIC.
abbrev two_entries : Mem
two_entries a =
    if a == 4100
    then 64
    else if a == 4141
    then 8
    else if a == 4148
    then 1
    else if a == 4149
    then 12
    else 0

abbrev no_entries : Madt
no_entries = record {
  lapics = [];
  lapic_nmis = [];
  ioapics = [];
  ioapic_isos = [];
  ioapic_nmis = [];
  room = 3;
}

madt_init-Reads_example :
    ((3 < 2) × (madt_init 3 (some 4096) two_entries no_entries ≡ panic))
    ⊎ Reads
        (madt_init 3 (some 4096) two_entries no_entries)
        two_entries
        (4140 ∷ 4148 ∷ [])
        no_entries
madt_init-Reads_example =
    madt_init-Reads 3 two_entries 4096 20 (4140 ∷ 4148 ∷ []) no_entries (omega arith) refl
      (refl, omega arith, omega arith, (refl, omega arith, omega arith, refl)) (omega arith)

-- An entry of type 0 and length 0, and a heap with room for three nodes.
read_entries-stuck_example : read_entries 100 two_entries 4140 40 20 no_entries ≡ panic
read_entries-stuck_example =
    read_entries-stuck 100 two_entries 4140 40 20 no_entries (omega arith) (omega arith) refl

abbrev screen : LimineFramebuffer
screen = record {
  address = 0xfd00_0000;
  width = 640;
  height = 480;
  pitch = 2560;
  bpp = 32;
  memory_model = 1;
  red_mask_size = 8;
  red_mask_shift = 16;
  green_mask_size = 8;
  green_mask_shift = 8;
  blue_mask_size = 8;
  blue_mask_shift = 0;
}

abbrev kernel : LimineKernelAddress
kernel = record { physical_base = 0x10_0000; virtual_base = 0xffff_ffff_8000_0000 }

abbrev responses : Responses
responses = record {
  memmap_request = some (
      record { base = 0; len = 4096; kind = 0 }
      ∷ record { base = 4096; len = 8192; kind = 6 }
      ∷ []);
  hhdm_request = some 0xffff_8000_0000_0000;
  framebuffer_request = some (screen ∷ []);
  kernel_address_request = some kernel;
  rsdp_request = some 0xe_0000;
  module_request = some (record { address = 0x20_0000; size = 512; path = 1; cmdline = 2 } ∷ []);
}

abbrev responses-Answered : Answered responses
responses-Answered = record {
  entries =
      record { base = 0; len = 4096; kind = 0 } ∷ record { base = 4096; len = 8192; kind = 6 } ∷ [];
  offset = 0xffff_8000_0000_0000;
  screen = screen;
  screens = [];
  kernel = kernel;
  rsdp = 0xe_0000;
  files = record { address = 0x20_0000; size = 512; path = 1; cmdline = 2 } ∷ [];
  memmap = refl;
  hhdm = refl;
  shown = refl;
  placed = refl;
  tables = refl;
  modules = refl;
  known = (omega arith, (omega arith, tt));
}

kentry-HandsOver_example :
    ((64 < 1) × (kentry reserved responses ≡ outside))
    ⊎ HandsOver (kentry reserved responses) responses responses-Answered
kentry-HandsOver_example = kentry-HandsOver reserved responses responses-Answered
