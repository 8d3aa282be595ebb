-- ===== src/Madt.antt =====
-- The ACPI table of the interrupt controllers, kernel/acpi/madt.c: its entries, of five kinds, are read
-- into five lists. Memory is bytes at addresses; a list that the source links is the list of its
-- entries, the last one read first. The heap is the number of nodes for which it has room: a node is
-- of 24 bytes at most, so that `kmalloc` takes a chunk of 32 bytes for each, whatever its kind. What
-- uACPI finds is a parameter.
pub mod Entries
pub mod Loop
use flurry.Prelude.{
  ℕ, zero, suc, ◌+◌, ◌*◌, ◌%◌, ◌^◌, ◌==◌, ltb, if◌then◌else◌, List, [], ◌∷◌, Option, none, some,
}
use flurry.Prelude.Words.{u8, add64, sub64}
use flurry.Prelude.Memory.{Mem}
use flurry.Prelude.Outcome.{Outcome, ok, panic, out_of_fuel, ◌>>=◌}
use flurry.Lapic.{MadtLapicNmi}
use flurry.Ioapic.{MadtIoApicIso}

pub record MadtLapic : Type 0 where
  pub acpi_id : ℕ
  pub lapic_id : ℕ
  pub flags : ℕ

pub record MadtIoApic : Type 0 where
  pub ioapic_id : ℕ
  pub reserved : ℕ
  pub ioapic_addr : ℕ
  pub gsi_base : ℕ

pub record MadtIoApicNmi : Type 0 where
  pub flags : ℕ
  pub gsi : ℕ

-- The five lists, and for how many more nodes `kmalloc` has a chunk.
pub record Madt : Type 0 where
  pub lapics : List MadtLapic
  pub lapic_nmis : List MadtLapicNmi
  pub ioapics : List MadtIoApic
  pub ioapic_isos : List MadtIoApicIso
  pub ioapic_nmis : List MadtIoApicNmi
  pub room : ℕ

-- Unsigned numbers of two and four bytes, the lowest first.
abbrev pub read16 : Mem → ℕ → ℕ
read16 m a = m a + m (a + 1) * 2 ^ 8

abbrev pub read32 : Mem → ℕ → ℕ
read32 m a = read16 m a + read16 m (a + 2) * 2 ^ 16

abbrev pub entry_type : Mem → ℕ → ℕ
entry_type m entry = m entry

abbrev pub entry_length : Mem → ℕ → ℕ
entry_length m entry = m (entry + 1)

-- What is read of an entry of each kind. The 32 flag bits of a local APIC are put in one byte.
unfoldable pub lapic_entry : Mem → ℕ → MadtLapic
lapic_entry m entry = record {
  acpi_id = m (entry + 2);
  lapic_id = m (entry + 3);
  flags = u8 (read32 m (entry + 4));
}

unfoldable pub ioapic_entry : Mem → ℕ → MadtIoApic
ioapic_entry m entry = record {
  ioapic_id = m (entry + 2);
  reserved = m (entry + 3);
  ioapic_addr = read32 m (entry + 4);
  gsi_base = read32 m (entry + 8);
}

unfoldable pub lapic_nmi_entry : Mem → ℕ → MadtLapicNmi
lapic_nmi_entry m entry = record {
  uid = m (entry + 2);
  flags = read16 m (entry + 3);
  lint = m (entry + 5);
}

unfoldable pub ioapic_iso_entry : Mem → ℕ → MadtIoApicIso
ioapic_iso_entry m entry = record {
  bus = m (entry + 2);
  source = m (entry + 3);
  gsi = read32 m (entry + 4);
  flags = read16 m (entry + 8);
}

unfoldable pub ioapic_nmi_entry : Mem → ℕ → MadtIoApicNmi
ioapic_nmi_entry m entry = record { flags = read16 m (entry + 2); gsi = read32 m (entry + 4) }

-- `kmalloc` of a node: the room that is left, or its panic where no chunk is found.
unfoldable pub kmalloc_node : ℕ → Outcome ℕ
kmalloc_node zero = panic
kmalloc_node (suc left) = ok left

unfoldable pub get_lapic_entry : Mem → ℕ → Madt → Outcome Madt
unfolding kmalloc_node lapic_entry
get_lapic_entry m entry s = do
  left ← kmalloc_node s.room
  ok (record s { lapics = lapic_entry m entry ∷ s.lapics; room = left })

unfoldable pub get_ioapic_entry : Mem → ℕ → Madt → Outcome Madt
unfolding kmalloc_node ioapic_entry
get_ioapic_entry m entry s = do
  left ← kmalloc_node s.room
  ok (record s { ioapics = ioapic_entry m entry ∷ s.ioapics; room = left })

unfoldable pub get_lapic_nmi_entry : Mem → ℕ → Madt → Outcome Madt
unfolding kmalloc_node lapic_nmi_entry
get_lapic_nmi_entry m entry s = do
  left ← kmalloc_node s.room
  ok (record s { lapic_nmis = lapic_nmi_entry m entry ∷ s.lapic_nmis; room = left })

unfoldable pub get_ioapic_iso_entry : Mem → ℕ → Madt → Outcome Madt
unfolding kmalloc_node ioapic_iso_entry
get_ioapic_iso_entry m entry s = do
  left ← kmalloc_node s.room
  ok (record s { ioapic_isos = ioapic_iso_entry m entry ∷ s.ioapic_isos; room = left })

unfoldable pub get_ioapic_nmi_entry : Mem → ℕ → Madt → Outcome Madt
unfolding kmalloc_node ioapic_nmi_entry
get_ioapic_nmi_entry m entry s = do
  left ← kmalloc_node s.room
  ok (record s { ioapic_nmis = ioapic_nmi_entry m entry ∷ s.ioapic_nmis; room = left })

-- The switch on an entry's type.
unfoldable pub read_entry : Mem → ℕ → Madt → Outcome Madt
unfolding get_lapic_entry get_ioapic_entry get_lapic_nmi_entry get_ioapic_iso_entry
    get_ioapic_nmi_entry
read_entry m entry s =
    if entry_type m entry == 0
    then get_lapic_entry m entry s
    else if entry_type m entry == 4
    then get_lapic_nmi_entry m entry s
    else if entry_type m entry == 1
    then get_ioapic_entry m entry s
    else if entry_type m entry == 2
    then get_ioapic_iso_entry m entry s
    else if entry_type m entry == 3
    then get_ioapic_nmi_entry m entry s
    else ok s

-- The loop of `madt_init` over `size` bytes of entries.
unfoldable pub read_entries : ℕ → Mem → ℕ → ℕ → ℕ → Madt → Outcome Madt
unfolding read_entry
read_entries zero m entries size offset s = out_of_fuel
read_entries (suc rounds) m entries size offset s =
    let entry = add64 entries offset in
    let rest =
      read_entry m entry s
      >>= read_entries rounds m entries size (add64 offset (entry_length m entry)) in
    if ltb offset size then rest else ok s

abbrev pub madt_size : ℕ
madt_size = 44

-- `madt_init`, on what `uacpi_table_find_by_signature` answers: nothing, or the table's address.
unfoldable pub madt_init : ℕ → Option ℕ → Mem → Madt → Outcome Madt
unfolding read_entries
madt_init rounds none m s = panic
madt_init rounds (some madt) m s =
    read_entries rounds m (add64 madt madt_size) (sub64 (read32 m (add64 madt 4)) madt_size) 0 s
