-- ===== src/Ioapic.antt =====
-- The routing of the legacy interrupts, kernel/hardware/ioapic.c: an entry of the I/O APIC's
-- redirection table is composed from an interrupt source override of the ACPI tables, or made the
-- identity mapping, and written by the chip's window registers. A write is its address and value.
pub mod Redirect
use flurry.Prelude.{
  ℕ, ◌+◌, ◌-◌, ◌*◌, ◌/◌, ◌%◌, ◌^◌, bit_and, bit_or, ◌==◌, ltb, if◌then◌else◌, List, [], ◌∷◌, ◌++◌,
  Option, none, some,
}
use flurry.Prelude.Words.{u8, u32, add64, shl64}
use flurry.Prelude.Outcome.{Outcome, ok, panic}

pub record MadtIoApicIso : Type 0 where
  pub bus : ℕ
  pub source : ℕ
  pub gsi : ℕ
  pub flags : ℕ

pub record Ioapic : Type 0 where
  pub hhdm_offset : ℕ
  pub ioapic_addr : ℕ
  pub gsi_base : ℕ

abbrev pub isa_irq_count : ℕ
isa_irq_count = 16

abbrev pub ioregsel : ℕ
ioregsel = 0

abbrev pub iowin : ℕ
iowin = 0x10

abbrev pub ioredtbl : ℕ
ioredtbl = 0x10

abbrev pub madt_active_high : ℕ
madt_active_high = 1

abbrev pub madt_active_low : ℕ
madt_active_low = 3

abbrev pub madt_trigger_edge : ℕ
madt_trigger_edge = 4

abbrev pub madt_trigger_level : ℕ
madt_trigger_level = 0xc

abbrev pub ioapic_active_low : ℕ
ioapic_active_low = 0x2000

abbrev pub ioapic_trigger_level : ℕ
ioapic_trigger_level = 0x8000

unfoldable pub ioapic_dest : ℕ → ℕ
ioapic_dest lapic_id = shl64 lapic_id 56

-- The two writes by which a register is set: its number to the selector, the value to the window.
unfoldable pub write_reg : Ioapic → ℕ → ℕ → List (ℕ × ℕ)
write_reg c reg val =
    (add64 (add64 c.ioapic_addr ioregsel) c.hhdm_offset, u8 reg)
    ∷ (add64 (add64 c.ioapic_addr iowin) c.hhdm_offset, u32 val)
    ∷ []

unfoldable pub write_redtbl : Ioapic → ℕ → ℕ → List (ℕ × ℕ)
unfolding write_reg
write_redtbl c gsi val =
    let relative_gsi = (gsi + 2 ^ 32 - c.gsi_base) % 2 ^ 32 in
    write_reg c (u32 (ioredtbl + 2 * relative_gsi)) (bit_and val 0xffff_ffff)
    ++ write_reg c (u32 (ioredtbl + 2 * relative_gsi + 1)) (val / 2 ^ 32)

unfoldable pub find_iso_by_isa_irq : List MadtIoApicIso → ℕ → Option MadtIoApicIso
find_iso_by_isa_irq [] isa_irq = none
find_iso_by_isa_irq (iso ∷ rest) isa_irq =
    if iso.source == isa_irq then some iso else find_iso_by_isa_irq rest isa_irq

-- The bits for the pin's polarity and the trigger mode of an override.
unfoldable pub iso_polarity : ℕ → ℕ
iso_polarity flags =
    if bit_and flags madt_active_high == madt_active_high
    then 0
    else if bit_and flags madt_active_low == madt_active_low
    then ioapic_active_low
    else 0

unfoldable pub iso_trigger : ℕ → ℕ
iso_trigger flags =
    if bit_and flags madt_trigger_edge == madt_trigger_edge
    then 0
    else if bit_and flags madt_trigger_level == madt_trigger_level
    then ioapic_trigger_level
    else 0

-- `interrupts_get_isa_irq_vec`.
unfoldable pub isa_irq_vec : ℕ → ℕ
isa_irq_vec isa_irq = u8 (0x30 + isa_irq)

unfoldable pub iso_entry : ℕ → ℕ → ℕ → ℕ
unfolding iso_polarity iso_trigger ioapic_dest
iso_entry vec flags lapic_id =
    bit_or (bit_or (bit_or (bit_or 0 vec) (iso_polarity flags)) (iso_trigger flags))
      (ioapic_dest lapic_id)

-- Fixed delivery, physical destination, active high and edge triggered are all 0.
unfoldable pub identity_entry : ℕ → ℕ → ℕ
unfolding ioapic_dest
identity_entry vec lapic_id =
    bit_or (bit_or (bit_or (bit_or (bit_or (bit_or 0 vec) 0) 0) 0) 0) (ioapic_dest lapic_id)

-- The two ways of `ioapic_unmask_isa_irq`, by the override found for the interrupt.
unfoldable pub redirect : Ioapic → ℕ → ℕ → Option MadtIoApicIso → List (ℕ × ℕ)
unfolding isa_irq_vec iso_entry identity_entry write_redtbl
redirect c lapic_id isa_irq (some iso) =
    write_redtbl c iso.gsi (iso_entry (isa_irq_vec isa_irq) iso.flags lapic_id)
redirect c lapic_id isa_irq none =
    write_redtbl c isa_irq (identity_entry (isa_irq_vec isa_irq) lapic_id)

-- `lapic_id` is the id of the first local APIC of the ACPI tables, `isos` their overrides.
unfoldable pub ioapic_unmask_isa_irq : Ioapic → List MadtIoApicIso → ℕ → ℕ → Outcome (List (ℕ × ℕ))
unfolding find_iso_by_isa_irq redirect
ioapic_unmask_isa_irq c isos lapic_id isa_irq =
    if ltb isa_irq isa_irq_count
    then ok (redirect c lapic_id isa_irq (find_iso_by_isa_irq isos isa_irq))
    else panic
