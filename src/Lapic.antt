-- ===== src/Lapic.antt =====
-- The local interrupt controller, kernel/hardware/lapic.c: its registers are written by address, so
-- what a function does to the chip is the sequence of its writes, each an address and a value.
pub mod Timer
pub mod Base
pub mod Nmi
use flurry.Prelude.{
  ℕ, ◌+◌, ◌-◌, ◌*◌, ◌/◌, ◌^◌, bit_and, bit_or, not, ◌&&◌, ◌==◌, if◌then◌else◌, List, [], ◌∷◌, ◌++◌,
}
use flurry.Prelude.Words.{u32, add64, sub64, mul64}
use flurry.Clock.{clamp}

abbrev pub reg_eoi : ℕ
reg_eoi = 0xb0

abbrev pub reg_spurious : ℕ
reg_spurious = 0xf0

abbrev pub reg_lvt_timer : ℕ
reg_lvt_timer = 0x320

abbrev pub reg_lvt_lint0 : ℕ
reg_lvt_lint0 = 0x350

abbrev pub reg_lvt_lint1 : ℕ
reg_lvt_lint1 = 0x360

abbrev pub reg_timer_init_count : ℕ
reg_timer_init_count = 0x380

abbrev pub lvt_timer_one_shot : ℕ
lvt_timer_one_shot = 0

abbrev pub lvt_timer_periodic : ℕ
lvt_timer_periodic = 0x2_0000

abbrev pub lapic_deliv_mode_nmi : ℕ
lapic_deliv_mode_nmi = 0x400

abbrev pub lapic_nmi_all_cpus : ℕ
lapic_nmi_all_cpus = 0xff

abbrev pub ia32_apic_base_msr_enable : ℕ
ia32_apic_base_msr_enable = 0x800

abbrev pub uint32_max : ℕ
uint32_max = 2 ^ 32 - 1

unfoldable pub write_reg : ℕ → ℕ → ℕ → List (ℕ × ℕ)
write_reg lapic_base reg val = (add64 lapic_base reg, u32 val) ∷ []

-- The two halves that `cpu_set_apic_base` writes to the MSR: edx and eax.
unfoldable pub cpu_set_apic_base : ℕ → ℕ × ℕ
cpu_set_apic_base apic = (
  bit_and (apic / 2 ^ 32) 0x0f,
  u32 (bit_or (bit_and apic 0xf_ffff_0000) ia32_apic_base_msr_enable),
)

unfoldable pub lapic_timer_stop : ℕ → List (ℕ × ℕ)
unfolding write_reg
lapic_timer_stop lapic_base = write_reg lapic_base reg_timer_init_count 0

unfoldable pub lapic_eoi : ℕ → List (ℕ × ℕ)
unfolding write_reg
lapic_eoi lapic_base = write_reg lapic_base reg_eoi 0

-- The ticks counted in the rounds of `calibrate_timer`, by what the count stood at after each, and
-- their average over the rounds.
unfoldable pub total_ticks : List ℕ → ℕ → ℕ
total_ticks [] total = total
total_ticks (current_count ∷ rest) total =
    total_ticks rest (add64 total (u32 (uint32_max + 2 ^ 32 - current_count)))

unfoldable pub calibrate_timer : ℕ → ℕ → ℕ → ℕ → ℕ → ℕ
unfolding total_ticks
calibrate_timer c1 c2 c3 c4 c5 = total_ticks (c1 ∷ c2 ∷ c3 ∷ c4 ∷ c5 ∷ []) 0 / 5

unfoldable pub ns_to_lapic_ticks : ℕ → ℕ → ℕ
ns_to_lapic_ticks lapic_calibration_ticks ns = mul64 ns lapic_calibration_ticks / 100_000_000

unfoldable pub lapic_timer_one_shot : ℕ → ℕ → ℕ → ℕ → List (ℕ × ℕ)
unfolding ns_to_lapic_ticks clamp write_reg
lapic_timer_one_shot lapic_base calibration ns vec =
    let ticks = u32 (clamp (ns_to_lapic_ticks calibration ns) 1 uint32_max) in
    write_reg lapic_base reg_lvt_timer (bit_or lvt_timer_one_shot vec)
    ++ write_reg lapic_base reg_timer_init_count ticks

unfoldable pub lapic_timer_periodic : ℕ → ℕ → ℕ → ℕ → List (ℕ × ℕ)
unfolding ns_to_lapic_ticks clamp write_reg
lapic_timer_periodic lapic_base calibration ns vec =
    let ticks = u32 (clamp (ns_to_lapic_ticks calibration ns) 1 uint32_max) in
    write_reg lapic_base reg_lvt_timer (bit_or lvt_timer_periodic vec)
    ++ write_reg lapic_base reg_timer_init_count ticks

-- `now` is the reading of the time stamp counter in nanoseconds.
unfoldable pub lapic_timer_tsc_deadline : ℕ → ℕ → ℕ → ℕ → ℕ → List (ℕ × ℕ)
unfolding lapic_timer_one_shot
lapic_timer_tsc_deadline lapic_base calibration now deadline vec =
    lapic_timer_one_shot lapic_base calibration (sub64 deadline now) vec

pub record MadtLapicNmi : Type 0 where
  pub uid : ℕ
  pub flags : ℕ
  pub lint : ℕ

-- The flags that one entry puts in the vector table.
unfoldable pub nmi_lvt_flags : ℕ → ℕ
nmi_lvt_flags flags = if bit_and flags 1 == 1 then 1 else if bit_and flags 3 == 3 then 3 else 0

unfoldable pub configure_nmi : ℕ → MadtLapicNmi → List (ℕ × ℕ)
unfolding nmi_lvt_flags write_reg
configure_nmi lapic_base nmi =
    let val = bit_or (bit_or (nmi_lvt_flags nmi.flags) lapic_deliv_mode_nmi) 4 in
    if nmi.lint == 0
    then write_reg lapic_base reg_lvt_lint0 val
    else if nmi.lint == 1
    then write_reg lapic_base reg_lvt_lint1 val
    else []

-- The loop over the entries; `acpi_id` is the id of the first local APIC.
unfoldable pub configure_nmis : ℕ → ℕ → List MadtLapicNmi → List (ℕ × ℕ)
unfolding configure_nmi
configure_nmis lapic_base acpi_id [] = []
configure_nmis lapic_base acpi_id (nmi ∷ rest) =
    if not (nmi.uid == lapic_nmi_all_cpus) && not (nmi.uid == acpi_id)
    then configure_nmis lapic_base acpi_id rest
    else configure_nmi lapic_base nmi ++ configure_nmis lapic_base acpi_id rest
