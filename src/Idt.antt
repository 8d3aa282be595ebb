-- ===== src/Idt.antt =====
-- The interrupt descriptors, kernel/cpu/idt/idt.c.
pub mod Gate
use flurry.Prelude.{ℕ, zero, suc, ◌+◌, ◌-◌, ◌*◌, ◌/◌, ◌^◌, bit_and, ◌==◌, if◌then◌else◌}
use flurry.Prelude.Words.{u16}

pub record IdtDescriptor : Type 0 where
  pub isr_low : ℕ
  pub kernel_cs : ℕ
  pub ist : ℕ
  pub attributes : ℕ
  pub isr_mid : ℕ
  pub isr_high : ℕ
  pub reserved : ℕ

abbrev pub k_code_selector : ℕ
k_code_selector = 0x08

abbrev pub idt_max_descriptors : ℕ
idt_max_descriptors = 256

abbrev pub idt_descriptor_size : ℕ
idt_descriptor_size = 16

unfoldable pub idt_set_descriptor : ℕ → ℕ → ℕ → (ℕ → IdtDescriptor) → ℕ → IdtDescriptor
idt_set_descriptor vector isr flags idt v =
    if v == vector
    then record {
      isr_low = bit_and isr 0xffff;
      kernel_cs = k_code_selector;
      ist = 0;
      attributes = flags;
      isr_mid = bit_and (isr / 2 ^ 16) 0xffff;
      isr_high = bit_and (isr / 2 ^ 32) 0xffff_ffff;
      reserved = 0;
    }
    else idt v

-- The loop of `idt_init`, `count` rounds from `vector` on.
unfoldable pub set_descriptors : ℕ → ℕ → (ℕ → ℕ) → (ℕ → IdtDescriptor) → ℕ → IdtDescriptor
unfolding idt_set_descriptor
set_descriptors zero vector isr_array idt = idt
set_descriptors (suc count) vector isr_array idt =
    set_descriptors count (vector + 1) isr_array
      (idt_set_descriptor vector (isr_array vector) 0x8e idt)

pub record Idtr : Type 0 where
  pub limit : ℕ
  pub base : ℕ

-- The register that is loaded and the table that it names; the table lies at `address`.
unfoldable pub idt_init : ℕ → (ℕ → ℕ) → (ℕ → IdtDescriptor) → Idtr × (ℕ → IdtDescriptor)
unfolding set_descriptors
idt_init address isr_array idt = (
  record { limit = u16 (idt_descriptor_size * idt_max_descriptors - 1); base = address },
  set_descriptors idt_max_descriptors 0 isr_array idt,
)
