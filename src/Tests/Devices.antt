-- ===== src/Tests/Devices.antt =====
-- Concrete inputs for the theorems on devices and descriptors.
use flurry.Prelude.{
  ℕ, ◌+◌, ◌-◌, ◌*◌, ◌/◌, ◌%◌, ◌^◌, ◌<◌, ◌≤◌, ◌≡◌, ◌≢◌, refl, ◌⊎◌, [], ◌∷◌, arith, ltb,
  if◌then◌else◌,
}
use flurry.Prelude.Outcome.{ok, panic}
use flurry.Elf.{Ehdr, ElfFile, result_ok, elf_read}
use flurry.Elf.Accept.{IsProgram, elf_read-cases}
use flurry.Gdt.{gdt_encode_entry}
use flurry.Gdt.Encode.{
  limit_of, base_of, access_of, flags_of, gdt_encode_entry-fields, gdt_encode_entry-base_lost,
}
use flurry.Idt.{IdtDescriptor, idt_init}
use flurry.Idt.Gate.{IsGate, idt_init-IsGate}
use flurry.Interrupts.{
  Interrupts, unknown_int_handler, cpu_exception_handler, pic_irq_handler, other_handler,
  interrupts_init, interrupt_dispatch, interrupts_alloc_vector,
}
use flurry.Interrupts.Table.{interrupts_init-dispatch}
use flurry.Interrupts.Vectors.{boot, init, interrupts_alloc_vector-Reached}
use flurry.Ioapic.{Ioapic, MadtIoApicIso, ioapic_unmask_isa_irq}
use flurry.Ioapic.Redirect.{routed, gsi_of, ioapic_unmask_isa_irq-routed}
use flurry.Lapic.{MadtLapicNmi, cpu_set_apic_base, configure_nmis}
use flurry.Lapic.Base.{cpu_set_apic_base_lem}
use flurry.Lapic.Nmi.{configure_nmis_lem}
use flurry.Clock.{tsc_ticks_to_ns, timer_wait_ns}
use flurry.Clock.Convert.{tsc_ticks_to_ns-exact}
use flurry.Clock.Wait.{IsFirst, timer_wait_ns-IsFirst}

-- A header with the magic number, whose other bytes of identification are 70.
abbrev header : Ehdr
header = record {
  e_ident = λ i. if ltb i 1 then 0x7f else if ltb i 2 then 69 else if ltb i 3 then 76 else 70;
  e_type = 2;
  e_machine = 62;
  e_version = 1;
  e_entry = 0x40_1000;
  e_phoff = 64;
  e_shoff = 0;
  e_flags = 0;
  e_ehsize = 64;
  e_phentsize = 56;
  e_phnum = 2;
  e_shentsize = 0;
  e_shnum = 0;
  e_shstrndx = 0;
}

abbrev empty_file : ElfFile
empty_file = record { entry_point = 0; phdrs_size = 0; phdrs_offset = 0; phdrs_count = 0 }

elf_read-cases_example :
    (IsProgram header
      × (elf_read header empty_file ≡ (
        result_ok,
        record { entry_point = 0x40_1000; phdrs_size = 56; phdrs_offset = 64; phdrs_count = 2 },
      )))
    ⊎ (¬ IsProgram header
        × ((elf_read header empty_file).0 ≢ result_ok)
        × ((elf_read header empty_file).1 ≡ empty_file))
elf_read-cases_example = elf_read-cases header empty_file

gdt_encode_entry-fields_example :
    (limit_of (gdt_encode_entry 0xf_ffff 0xab00_1234 0x9a 0xa) ≡ 0xf_ffff)
    × (base_of (gdt_encode_entry 0xf_ffff 0xab00_1234 0x9a 0xa) ≡ 0xab00_1234)
    × (access_of (gdt_encode_entry 0xf_ffff 0xab00_1234 0x9a 0xa) ≡ 0x9a)
    × (flags_of (gdt_encode_entry 0xf_ffff 0xab00_1234 0x9a 0xa) ≡ 0xa)
gdt_encode_entry-fields_example =
    gdt_encode_entry-fields 0xf_ffff 0xab00_1234 0x9a 0xa (omega arith) (omega arith) (omega arith)
      (omega arith) refl

gdt_encode_entry-base_lost_example :
    base_of (gdt_encode_entry 104 0x12_3456 0x89 0x40) / 2 ^ 16 % 2 ^ 8 ≡ 0
gdt_encode_entry-base_lost_example = gdt_encode_entry-base_lost 104 0x12_3456 0x89 0x40

abbrev no_gate : IdtDescriptor
no_gate = record {
  isr_low = 0;
  kernel_cs = 0;
  ist = 0;
  attributes = 0;
  isr_mid = 0;
  isr_high = 0;
  reserved = 0;
}

idt_init-IsGate_example :
    IsGate
      ((idt_init 0x1000 (λ i. 0xffff_ffff_8000_0000) (λ i. no_gate)).1 14)
      0xffff_ffff_8000_0000
      0x8e
    × ((idt_init 0x1000 (λ i. 0xffff_ffff_8000_0000) (λ i. no_gate)).0.limit + 1 ≡ 16 * 256)
idt_init-IsGate_example =
    idt_init-IsGate 0x1000 (λ i. 0xffff_ffff_8000_0000) (λ i. no_gate) 14 (λ i. omega arith)
      (omega arith)

abbrev booted : Interrupts
booted = record { int_handlers = λ v. other_handler v; last_allocated_vector = 0x40 }

interrupts_init-dispatch_example : interrupt_dispatch (interrupts_init booted) 0x27 ≡ (
    if ltb 0x27 32
    then cpu_exception_handler
    else if ltb 0x27 48
    then pic_irq_handler
    else unknown_int_handler)
interrupts_init-dispatch_example = interrupts_init-dispatch booted 0x27 (omega arith)

interrupts_alloc_vector-Reached_example : interrupts_alloc_vector (interrupts_init booted) ≡ panic
interrupts_alloc_vector-Reached_example =
    interrupts_alloc_vector-Reached (interrupts_init booted)
      (init booted (boot (λ v. other_handler v)))

abbrev chip : Ioapic
chip = record { hhdm_offset = 0xffff_8000_0000_0000; ioapic_addr = 0xfec0_0000; gsi_base = 0 }

-- The timer's interrupt 0 comes in as global interrupt 2, active low and level triggered.
abbrev timer_iso : MadtIoApicIso
timer_iso = record { bus = 0; source = 0; gsi = 2; flags = 0xf }

ioapic_unmask_isa_irq-routed_example :
    ioapic_unmask_isa_irq chip (timer_iso ∷ []) 3 0
    ≡ ok (routed chip (gsi_of (timer_iso ∷ []) 0 - 0) (0x30 + 0) 3)
ioapic_unmask_isa_irq-routed_example =
    ioapic_unmask_isa_irq-routed chip (timer_iso ∷ []) 3 0 (omega arith) (omega arith) (omega arith)
      (omega arith) (omega arith) (omega arith)

cpu_set_apic_base_lem_example :
    ((cpu_set_apic_base 0xfee0_1000).0 * 2 ^ 32 + (cpu_set_apic_base 0xfee0_1000).1
      ≡ 0xfee0_1000 / 2 ^ 16 % 2 ^ 20 * 2 ^ 16 + 0x800)
cpu_set_apic_base_lem_example = cpu_set_apic_base_lem 0xfee0_1000

abbrev all_cpus : MadtLapicNmi
all_cpus = record { uid = 0xff; flags = 5; lint = 1 }

configure_nmis_lem_example : configure_nmis 0x1000 0 (all_cpus ∷ []) ≡ (0x1360, 0x405) ∷ []
configure_nmis_lem_example = configure_nmis_lem 0x1000 0 (all_cpus ∷ [])

tsc_ticks_to_ns-exact_example :
    (tsc_ticks_to_ns 3_000_000_000 10_000_000_000 * 3_000_000_000 ≤ 10_000_000_000 * 10 ^ 9)
    × (10_000_000_000 * 10 ^ 9
        < tsc_ticks_to_ns 3_000_000_000 10_000_000_000 * 3_000_000_000 + 3_000_000_000)
tsc_ticks_to_ns-exact_example =
    tsc_ticks_to_ns-exact 3_000_000_000 10_000_000_000 (omega arith) (omega arith) (omega arith)

timer_wait_ns-IsFirst_example :
    (j : ℕ) × (timer_wait_ns 10 (λ i. 100 * i) 250 ≡ ok j) × IsFirst (λ i. 100 * i) 1 250 j
timer_wait_ns-IsFirst_example =
    timer_wait_ns-IsFirst 10 (λ i. 100 * i) 250 3 (omega arith) (omega arith) (omega arith)
      (omega arith)
