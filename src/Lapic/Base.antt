-- ===== src/Lapic/Base.antt =====
-- The address that is written back to the base register.
use flurry.Prelude.{ℕ, ◌+◌, ◌*◌, ◌/◌, ◌%◌, ◌^◌, ◌≡◌, bit_and, bit_or, arith, refl}
use flurry.Prelude.Bits.{bit_and_ones, bit_and_high, bit_or_join}
use flurry.Prelude.Words.{u32}
use flurry.Lapic.{cpu_set_apic_base}

base-eq :
    (apic : ℕ)
    → cpu_set_apic_base apic
      ≡ (bit_and (apic / 2 ^ 32) 15, u32 (bit_or (bit_and apic 0xf_ffff_0000) 0x800))
unfolding cpu_set_apic_base
base-eq apic = refl

-- The two halves hold the enabling bit and the bits 16 to 35 of the address: what is written is the
-- address that the chip has only if that is a multiple of 64 KiB, not of 4 KiB.
pub cpu_set_apic_base_lem :
    (apic : ℕ)
    → ((cpu_set_apic_base apic).0 * 2 ^ 32 + (cpu_set_apic_base apic).1
        ≡ apic / 2 ^ 16 % 2 ^ 20 * 2 ^ 16 + 0x800)
cpu_set_apic_base_lem apic =
    let masked : bit_and apic 0xf_ffff_0000 ≡ apic / 2 ^ 16 % 2 ^ 20 * 2 ^ 16 =
      ground (arith, bit_and_high 16 apic 0xf_ffff, bit_and_ones 20 (apic / 2 ^ 16)) in
    rw
      (
        base-eq apic,
        bit_and_ones 4 (apic / 2 ^ 32),
        masked,
        bit_or_join 16 (apic / 2 ^ 16 % 2 ^ 20) 0x800 (omega arith),
      )
      (omega arith)
