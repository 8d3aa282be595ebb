-- ===== src/Pmm.antt =====
-- The physical page frames, kernel/memory/pmm.c: the free ones are on a list that is kept in the
-- frames themselves, seen through the direct map at `hhdm_offset`. Memory is its 8-byte words.
pub mod Frames
pub mod Alloc
pub mod Boot
use flurry.Prelude.{
  ℕ, zero, suc, ◌+◌, ◌%◌, ◌^◌, ◌==◌, ltb, leb, ◌&&◌, Bool, true, false, if◌then◌else◌, List, [],
  ◌∷◌,
}
use flurry.Prelude.Words.{add64}
use flurry.Prelude.Memory.{Mem, write}
use flurry.Prelude.Outcome.{Outcome, ok, out_of_fuel, ◌>>=◌}

pub data PhysMemoryRegionType : Type 0 where
  usable : PhysMemoryRegionType
  reserved : PhysMemoryRegionType
  acpi_reclaimable : PhysMemoryRegionType
  acpi_nvs : PhysMemoryRegionType
  bad_memory : PhysMemoryRegionType
  bootloader_reclaimable : PhysMemoryRegionType
  kernel_and_modules : PhysMemoryRegionType
  framebuffer : PhysMemoryRegionType

pub record PhysMemoryRegion : Type 0 where
  pub base : ℕ
  pub len : ℕ
  pub kind : PhysMemoryRegionType

abbrev pub page_size : ℕ
page_size = 4096

pub record Pmm : Type 0 where
  pub mem : Mem
  pub hhdm_offset : ℕ
  pub free_list_head : ℕ

-- The field `next` of the FreePage at `page`; its `address` is the first word.
abbrev pub next_of : ℕ → ℕ
next_of page = add64 page 8

-- One round of `pmm_init`: the frame at `addr` goes on the list.
unfoldable pub push_page : ℕ → Pmm → Pmm
push_page addr s =
    let page = add64 addr s.hhdm_offset in
    record s {
      mem = write (write s.mem page addr) (next_of page) s.free_list_head;
      free_list_head = page;
    }

unfoldable pub push_pages : ℕ → ℕ → ℕ → Pmm → Outcome Pmm
unfolding push_page
push_pages zero addr end s = out_of_fuel
push_pages (suc rounds) addr end s =
    let rest = push_pages rounds (add64 addr page_size) end (push_page addr s) in
    if ltb addr end then rest else ok s

unfoldable pub is_usable : PhysMemoryRegionType → Bool
is_usable usable = true
is_usable reserved = false
is_usable acpi_reclaimable = false
is_usable acpi_nvs = false
is_usable bad_memory = false
is_usable bootloader_reclaimable = false
is_usable kernel_and_modules = false
is_usable framebuffer = false

-- The loop over the entries; each region gets `rounds` for its pages.
unfoldable pub add_regions : ℕ → List PhysMemoryRegion → Pmm → Outcome Pmm
unfolding push_pages is_usable
add_regions rounds [] s = ok s
add_regions rounds (entry ∷ rest) s =
    if is_usable entry.kind
    then (push_pages rounds entry.base (add64 entry.base entry.len) s >>= add_regions rounds rest)
    else add_regions rounds rest s

-- The loop starts at index 1: the first entry is passed over.
unfoldable pub behind_first : List PhysMemoryRegion → List PhysMemoryRegion
behind_first [] = []
behind_first (entry ∷ rest) = rest

unfoldable pub pmm_init : ℕ → ℕ → List PhysMemoryRegion → Pmm → Outcome Pmm
unfolding add_regions behind_first
pmm_init rounds offset entries s =
    add_regions rounds (behind_first entries) (record s { hhdm_offset = offset })

unfoldable pub zero_page : Mem → ℕ → Mem
zero_page m p a = if leb p a && ltb a (p + page_size) then 0 else m a

unfoldable pub pmm_alloc : Pmm → ℕ × Pmm
unfolding zero_page
pmm_alloc s = if s.free_list_head == 0 then (0, s) else (
  s.mem s.free_list_head,
  record s {
    mem = zero_page s.mem (add64 (s.mem s.free_list_head) s.hhdm_offset);
    free_list_head = s.mem (next_of s.free_list_head);
  },
)

-- The frame's address itself is taken for the FreePage.
unfoldable pub pmm_free : ℕ → Pmm → Pmm
pmm_free addr s = record s {
  mem = write s.mem (next_of addr) s.free_list_head;
  free_list_head = addr;
}
