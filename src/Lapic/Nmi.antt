-- ===== src/Lapic/Nmi.antt =====
-- The local interrupt pins that the ACPI tables name for non-maskable interrupts.
use flurry.Prelude.{
  ℕ, ◌+◌, ◌*◌, ◌%◌, ◌≡◌, refl, bit_or, not, ◌&&◌, ◌||◌, Bool, true, false, ◌==◌, if◌then◌else◌,
  List, [], ◌∷◌, ◌++◌, arith, ltb, ◌⊎◌, inl, inr,
}
use flurry.Prelude.Bits.{bit_and_ones}
use flurry.Prelude.Words.{u32, add64}
use flurry.Lapic.{MadtLapicNmi, write_reg, nmi_lvt_flags, configure_nmi, configure_nmis}

nmi_lvt_flags_lem : (flags : ℕ) → nmi_lvt_flags flags ≡ flags % 2
unfolding nmi_lvt_flags
nmi_lvt_flags_lem flags = ground (arith, bit_and_ones 1 flags, bit_and_ones 2 flags)

odd_or_even : (n : ℕ) → (n % 2 ≡ 0) ⊎ (n % 2 ≡ 1)
odd_or_even n = ground arith

val_lem : (flags : ℕ) → u32 (bit_or (bit_or (nmi_lvt_flags flags) 0x400) 4) ≡ 0x404 + flags % 2
val_lem flags =
    rw (nmi_lvt_flags_lem flags)
      (elim (odd_or_even flags) [ inl e ↦ rw e refl | inr e ↦ rw e refl ])

-- The entry is for this processor: it is for all of them, or names its id.
abbrev pub is_ours : ℕ → MadtLapicNmi → Bool
is_ours acpi_id nmi = (nmi.uid == 0xff) || (nmi.uid == acpi_id)

-- The write that an entry asks for, if it names one of the two pins.
abbrev pub pin_write : ℕ → MadtLapicNmi → List (ℕ × ℕ)
pin_write lapic_base nmi =
    if ltb nmi.lint 2
    then (add64 lapic_base (0x350 + 16 * nmi.lint), 0x404 + nmi.flags % 2) ∷ []
    else []

abbrev pub pin_writes : ℕ → ℕ → List MadtLapicNmi → List (ℕ × ℕ)
pin_writes lapic_base acpi_id [] = []
pin_writes lapic_base acpi_id (nmi ∷ rest) =
    if is_ours acpi_id nmi
    then pin_write lapic_base nmi ++ pin_writes lapic_base acpi_id rest
    else pin_writes lapic_base acpi_id rest

configure_nmi-eq :
    (lapic_base : ℕ) (nmi : MadtLapicNmi)
    → configure_nmi lapic_base nmi ≡ (
        if nmi.lint == 0
        then (add64 lapic_base 0x350, u32 (bit_or (bit_or (nmi_lvt_flags nmi.flags) 0x400) 4)) ∷ []
        else if nmi.lint == 1
        then (add64 lapic_base 0x360, u32 (bit_or (bit_or (nmi_lvt_flags nmi.flags) 0x400) 4)) ∷ []
        else [])
unfolding configure_nmi write_reg
configure_nmi-eq lapic_base nmi = refl

configure_nmi_lem :
    (lapic_base : ℕ) (nmi : MadtLapicNmi) → configure_nmi lapic_base nmi ≡ pin_write lapic_base nmi
configure_nmi_lem lapic_base nmi =
    rw (configure_nmi-eq lapic_base nmi, val_lem nmi.flags) (ground arith)

swap_if :
    {A : Type 0} (a b : Bool) (x y : A)
    → (if not a && not b then x else y) ≡ (if a || b then y else x)
swap_if true b x y = refl
swap_if false true x y = refl
swap_if false false x y = refl

-- Of the entries that are for this processor, in their order, each that names pin 0 or 1 writes the
-- pin's register: delivery as NMI, bit 2, and bit 0 if the flags have it. The flags for an active-low
-- pin make no other value than those for an active-high one.
pub configure_nmis_lem :
    (lapic_base acpi_id : ℕ) (nmis : List MadtLapicNmi)
    → configure_nmis lapic_base acpi_id nmis ≡ pin_writes lapic_base acpi_id nmis
unfolding configure_nmis
configure_nmis_lem lapic_base acpi_id [] = refl
configure_nmis_lem lapic_base acpi_id (nmi ∷ rest) =
    rw (configure_nmi_lem lapic_base nmi, configure_nmis_lem lapic_base acpi_id rest)
      (swap_if (nmi.uid == 0xff) (nmi.uid == acpi_id) _ _)
