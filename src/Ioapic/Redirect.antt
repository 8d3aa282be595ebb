-- ===== src/Ioapic/Redirect.antt =====
-- What the redirection entries come to.
use flurry.Prelude.{
  ℕ, ◌+◌, ◌*◌, ◌/◌, ◌%◌, ◌^◌, ◌<◌, ◌≤◌, ◌-◌, ◌≡◌, refl, ◌∙◌, ap, bit_and, bit_or, ◌==◌,
  if◌then◌else◌, List, [], ◌∷◌, none, some, arith, lt→ltb, Bool-cases, inl, inr,
}
use flurry.Prelude.Bits.{bit_and_ones, bit_and_high, bit_or-zero, zero-bit_or, bit_or_join_low}
use flurry.Prelude.Words.{add64, u8, u32}
use flurry.Prelude.Outcome.{ok}
use flurry.Ioapic.{
  MadtIoApicIso, Ioapic, ioapic_dest, write_reg, write_redtbl, find_iso_by_isa_irq, iso_polarity,
  iso_trigger, isa_irq_vec, iso_entry, identity_entry, redirect, ioapic_unmask_isa_irq,
}

iso_polarity-zero : (flags : ℕ) → iso_polarity flags ≡ 0
unfolding iso_polarity
iso_polarity-zero flags = ground (arith, bit_and_ones 1 flags, bit_and_ones 2 flags)

iso_trigger-zero : (flags : ℕ) → iso_trigger flags ≡ 0
unfolding iso_trigger
iso_trigger-zero flags = ground (
  arith,
  bit_and_high 2 flags 1,
  bit_and_high 2 flags 3,
  bit_and_ones 1 (flags / 4),
  bit_and_ones 2 (flags / 4),
)

iso_entry-eq :
    (vec flags lapic_id : ℕ)
    → iso_entry vec flags lapic_id
      ≡ bit_or
          (bit_or (bit_or (bit_or 0 vec) (iso_polarity flags)) (iso_trigger flags))
          (ioapic_dest lapic_id)
unfolding iso_entry
iso_entry-eq vec flags lapic_id = refl

ioapic_dest_lem : (lapic_id : ℕ) → lapic_id < 256 → ioapic_dest lapic_id ≡ lapic_id * 2 ^ 56
unfolding ioapic_dest
ioapic_dest_lem lapic_id small = omega arith

with_dest :
    (vec lapic_id : ℕ)
    → vec < 256
    → lapic_id < 256
    → bit_or vec (ioapic_dest lapic_id) ≡ lapic_id * 2 ^ 56 + vec
with_dest vec lapic_id small id_small =
    rw (ioapic_dest_lem lapic_id id_small) (bit_or_join_low 56 lapic_id vec (omega arith))

-- The entry for an override is the vector and the destination only, for all flags.
iso_entry_lem :
    (vec flags lapic_id : ℕ)
    → vec < 256
    → lapic_id < 256
    → iso_entry vec flags lapic_id ≡ lapic_id * 2 ^ 56 + vec
iso_entry_lem vec flags lapic_id small id_small =
    rw
      (
        iso_entry-eq vec flags lapic_id,
        iso_polarity-zero flags,
        iso_trigger-zero flags,
        zero-bit_or vec,
        bit_or-zero vec,
        bit_or-zero vec,
      )
      (with_dest vec lapic_id small id_small)

identity_entry-eq :
    (vec lapic_id : ℕ)
    → identity_entry vec lapic_id
      ≡ bit_or (bit_or (bit_or (bit_or (bit_or (bit_or 0 vec) 0) 0) 0) 0) (ioapic_dest lapic_id)
unfolding identity_entry
identity_entry-eq vec lapic_id = refl

identity_entry_lem :
    (vec lapic_id : ℕ)
    → vec < 256
    → lapic_id < 256
    → identity_entry vec lapic_id ≡ lapic_id * 2 ^ 56 + vec
identity_entry_lem vec lapic_id small id_small =
    rw
      (
        identity_entry-eq vec lapic_id,
        zero-bit_or vec,
        bit_or-zero vec,
        bit_or-zero vec,
        bit_or-zero vec,
        bit_or-zero vec,
      )
      (with_dest vec lapic_id small id_small)

-- The global interrupt that an ISA interrupt comes in by: its first override's, or its own number.
abbrev pub gsi_of : List MadtIoApicIso → ℕ → ℕ
gsi_of [] isa_irq = isa_irq
gsi_of (iso ∷ rest) isa_irq = if iso.source == isa_irq then iso.gsi else gsi_of rest isa_irq

-- The four writes that set table entry `entry` to a vector and a destination.
abbrev pub routed : Ioapic → ℕ → ℕ → ℕ → List (ℕ × ℕ)
routed c entry vec lapic_id =
    let sel = add64 c.ioapic_addr c.hhdm_offset in
    let win = add64 (c.ioapic_addr + 16) c.hhdm_offset in
    (sel, 16 + 2 * entry) ∷ (win, vec) ∷ (sel, 17 + 2 * entry) ∷ (win, lapic_id * 2 ^ 24) ∷ []

write_redtbl_lem :
    (c : Ioapic) (gsi vec lapic_id : ℕ)
    → c.gsi_base ≤ gsi
    → gsi < c.gsi_base + 120
    → gsi < 2 ^ 32
    → vec < 256
    → lapic_id < 256
    → c.ioapic_addr < 2 ^ 32
    → write_redtbl c gsi (lapic_id * 2 ^ 56 + vec) ≡ routed c (gsi - c.gsi_base) vec lapic_id
unfolding write_redtbl write_reg
write_redtbl_lem c gsi vec lapic_id above below small vec_small id_small addr_small =
    let entry : (gsi + 2 ^ 32 - c.gsi_base) % 2 ^ 32 ≡ gsi - c.gsi_base = omega arith in
    let low : bit_and (lapic_id * 2 ^ 56 + vec) 0xffff_ffff ≡ vec =
      bit_and_ones 32 (lapic_id * 2 ^ 56 + vec) ∙ omega arith in
    let high : (lapic_id * 2 ^ 56 + vec) / 2 ^ 32 ≡ lapic_id * 2 ^ 24 = omega arith in
    let sel : add64 (add64 c.ioapic_addr 0) c.hhdm_offset ≡ add64 c.ioapic_addr c.hhdm_offset =
      omega arith in
    let win : add64 (add64 c.ioapic_addr 16) c.hhdm_offset
        ≡ add64 (c.ioapic_addr + 16) c.hhdm_offset =
      omega arith in
    let lo : u8 (u32 (16 + 2 * (gsi - c.gsi_base))) ≡ 16 + 2 * (gsi - c.gsi_base) = omega arith in
    let hi : u8 (u32 (16 + 2 * (gsi - c.gsi_base) + 1)) ≡ 17 + 2 * (gsi - c.gsi_base) =
      omega arith in
    let v : u32 vec ≡ vec = omega arith in
    let d : u32 (lapic_id * 2 ^ 24) ≡ lapic_id * 2 ^ 24 = omega arith in
    rw (entry, low, high, sel, win, lo, hi, v, d) refl

module _ (c : Ioapic) (lapic_id isa_irq : ℕ) (id_small : lapic_id < 256)
    (irq_small : isa_irq < 16) where
  vec_lem : isa_irq_vec isa_irq ≡ 0x30 + isa_irq
  unfolding isa_irq_vec
  vec_lem = omega arith

  redirect-some :
      (iso : MadtIoApicIso)
      → redirect c lapic_id isa_irq (some iso)
        ≡ write_redtbl c iso.gsi (iso_entry (isa_irq_vec isa_irq) iso.flags lapic_id)
  unfolding redirect
  redirect-some iso = refl

  redirect-none :
      redirect c lapic_id isa_irq none
      ≡ write_redtbl c isa_irq (identity_entry (isa_irq_vec isa_irq) lapic_id)
  unfolding redirect
  redirect-none = refl

  redirect_lem :
      (isos : List MadtIoApicIso)
      → redirect c lapic_id isa_irq (find_iso_by_isa_irq isos isa_irq)
        ≡ write_redtbl c (gsi_of isos isa_irq) (lapic_id * 2 ^ 56 + (0x30 + isa_irq))
  unfolding find_iso_by_isa_irq
  redirect_lem [] =
      rw
        (
          redirect-none,
          vec_lem,
          identity_entry_lem (0x30 + isa_irq) lapic_id (omega arith) id_small,
        )
        refl
  redirect_lem (iso ∷ rest) = elim (Bool-cases (iso.source == isa_irq)) [
    | inl e ↦
        rw
          (
            e,
            redirect-some iso,
            vec_lem,
            iso_entry_lem (0x30 + isa_irq) iso.flags lapic_id (omega arith) id_small,
          )
          refl
    | inr e ↦ rw e (redirect_lem rest)
  ]

-- Unmasking an ISA interrupt routes the global interrupt of its first override, or its own number
-- if none is for it, to the vector 0x30 above it on the given local APIC, active high and edge
-- triggered, whatever the flags of the override say, when the chip serves that interrupt.
pub ioapic_unmask_isa_irq-routed :
    (c : Ioapic) (isos : List MadtIoApicIso) (lapic_id isa_irq : ℕ)
    → lapic_id < 256
    → isa_irq < 16
    → c.ioapic_addr < 2 ^ 32
    → c.gsi_base ≤ gsi_of isos isa_irq
    → gsi_of isos isa_irq < c.gsi_base + 120
    → gsi_of isos isa_irq < 2 ^ 32
    → ioapic_unmask_isa_irq c isos lapic_id isa_irq
      ≡ ok (routed c (gsi_of isos isa_irq - c.gsi_base) (0x30 + isa_irq) lapic_id)
unfolding ioapic_unmask_isa_irq
ioapic_unmask_isa_irq-routed c isos lapic_id isa_irq id_small irq_small addr above below small =
    rw (lt→ltb isa_irq 16 irq_small, redirect_lem c lapic_id isa_irq id_small irq_small isos)
      (ap ok (
        write_redtbl_lem c (gsi_of isos isa_irq) (0x30 + isa_irq) lapic_id above below small
          (omega arith) id_small addr))
