-- ===== src/Idt/Gate.antt =====
-- What the processor reads in the table.
use mathlib.Core.Path.{subst}
use flurry.Prelude.{
  ℕ, zero, suc, ◌+◌, ◌*◌, ◌/◌, ◌^◌, ◌<◌, ◌≤◌, ◌≡◌, refl, ◌≢◌, ◌==◌, arith, ==_refl, ne→==, inl, inr,
  Bool-cases, ==_iff,
}
use flurry.Prelude.Bits.{bit_and_ones}
use flurry.Idt.{IdtDescriptor, idt_set_descriptor, set_descriptors, idt_init}

-- The handler's address in a gate.
abbrev pub isr_of : IdtDescriptor → ℕ
isr_of d = d.isr_low + d.isr_mid * 2 ^ 16 + d.isr_high * 2 ^ 32

-- A gate of the kernel's code segment with these attributes and this handler.
pub record IsGate (d : IdtDescriptor) (isr flags : ℕ) : Type 0 where
  pub target : isr_of d ≡ isr
  pub selector : d.kernel_cs ≡ 8
  pub kind : d.attributes ≡ flags
  pub stack : d.ist ≡ 0

set_same :
    (vector isr flags : ℕ) (idt : ℕ → IdtDescriptor)
    → isr < 2 ^ 64
    → IsGate (idt_set_descriptor vector isr flags idt vector) isr flags
unfolding idt_set_descriptor
set_same vector isr flags idt small = rw (==_refl vector) (record {
  target =
      ground (
        arith,
        bit_and_ones 16 isr,
        bit_and_ones 16 (isr / 2 ^ 16),
        bit_and_ones 32 (isr / 2 ^ 32),
      );
  selector = refl;
  kind = refl;
  stack = refl;
})

set_other :
    (vector isr flags v : ℕ) (idt : ℕ → IdtDescriptor)
    → v ≢ vector
    → idt_set_descriptor vector isr flags idt v ≡ idt v
unfolding idt_set_descriptor
set_other vector isr flags v idt h = rw (ne→== v vector h) refl

set_descriptors_before :
    (count vector : ℕ) (isr_array : ℕ → ℕ) (idt : ℕ → IdtDescriptor) (v : ℕ)
    → v < vector
    → set_descriptors count vector isr_array idt v ≡ idt v
unfolding set_descriptors
set_descriptors_before zero vector isr_array idt v h = refl
set_descriptors_before (suc count) vector isr_array idt v h =
    rw
      (set_descriptors_before count (vector + 1) isr_array
        (idt_set_descriptor vector (isr_array vector) 0x8e idt) v (omega arith))
      (set_other vector (isr_array vector) 0x8e v idt (omega arith))

set_descriptors-IsGate :
    (count vector : ℕ) (isr_array : ℕ → ℕ) (idt : ℕ → IdtDescriptor) (v : ℕ)
    → ((i : ℕ) → isr_array i < 2 ^ 64)
    → vector ≤ v
    → v < vector + count
    → IsGate (set_descriptors count vector isr_array idt v) (isr_array v) 0x8e
unfolding set_descriptors
set_descriptors-IsGate zero vector isr_array idt v small low high = absurd (omega arith)
set_descriptors-IsGate (suc count) vector isr_array idt v small low high =
    elim (Bool-cases (v == vector)) [
      | inl e ↦
          subst
            (λ w.
              IsGate
                (set_descriptors count (w + 1) isr_array
                  (idt_set_descriptor w (isr_array w) 0x8e idt) v)
                (isr_array v) 0x8e)
            ((==_iff v vector).0 e)
            (rw
              (set_descriptors_before count (v + 1) isr_array
                (idt_set_descriptor v (isr_array v) 0x8e idt) v (omega arith))
              (set_same v (isr_array v) 0x8e idt (small v)))
      | inr e ↦
          set_descriptors-IsGate count (vector + 1) isr_array
            (idt_set_descriptor vector (isr_array vector) 0x8e idt) v small (ground arith)
            (omega arith)
    ]

-- `idt_init` makes every one of the 256 vectors an interrupt gate of the kernel's code segment that
-- leads to the vector's stub, and loads a register whose limit is the table's last byte, for stubs at
-- 64-bit addresses.
pub idt_init-IsGate :
    (address : ℕ) (isr_array : ℕ → ℕ) (idt : ℕ → IdtDescriptor) (v : ℕ)
    → ((i : ℕ) → isr_array i < 2 ^ 64)
    → v < 256
    → IsGate ((idt_init address isr_array idt).1 v) (isr_array v) 0x8e
      × ((idt_init address isr_array idt).0.limit + 1 ≡ 16 * 256)
unfolding idt_init
idt_init-IsGate address isr_array idt v small h =
    (set_descriptors-IsGate 256 0 isr_array idt v small (omega arith) h, refl)
