-- ===== src/Interrupts.antt =====
-- The table of interrupt handlers, kernel/interrupts/interrupts.c, by vector. A handler is named; the
-- table is a function, of which the 256 vectors of a uint8_t are in use.
pub mod Table
pub mod Vectors
use flurry.Prelude.{ℕ, zero, suc, ◌+◌, ◌==◌, if◌then◌else◌}
use flurry.Prelude.Words.{u8, u16}
use flurry.Prelude.Outcome.{Outcome, ok, panic}

pub data IntHandler : Type 0 where
  unknown_int_handler : IntHandler
  cpu_exception_handler : IntHandler
  pic_irq_handler : IntHandler
  other_handler : ℕ → IntHandler

abbrev pub idt_max_descriptors : ℕ
idt_max_descriptors = 256

abbrev pub isa_irq_base : ℕ
isa_irq_base = 0x30

abbrev pub pic_handled_irq_count : ℕ
pic_handled_irq_count = 8

abbrev pub pic1_irq_base : ℕ
pic1_irq_base = 0x20

abbrev pub pic2_irq_base : ℕ
pic2_irq_base = 0x28

abbrev pub first_usable_vector : ℕ
first_usable_vector = 0x40

abbrev pub last_usable_vector : ℕ
last_usable_vector = 0xef

pub record Interrupts : Type 0 where
  pub int_handlers : ℕ → IntHandler
  pub last_allocated_vector : ℕ

unfoldable pub interrupts_get_isa_irq_vec : ℕ → ℕ
interrupts_get_isa_irq_vec isa_irq = u8 (isa_irq_base + isa_irq)

unfoldable pub put : ℕ → IntHandler → (ℕ → IntHandler) → ℕ → IntHandler
put vec handler t v = if v == vec then handler else t v

unfoldable pub interrupts_set_handler : ℕ → IntHandler → Interrupts → Interrupts
unfolding put
interrupts_set_handler vec handler s = record s { int_handlers = put vec handler s.int_handlers }

-- The handler that `interrupt_dispatch` calls.
unfoldable pub interrupt_dispatch : Interrupts → ℕ → IntHandler
interrupt_dispatch s vector = s.int_handlers vector

unfoldable pub interrupts_alloc_vector : Interrupts → Outcome (ℕ × Interrupts)
interrupts_alloc_vector s =
    if s.last_allocated_vector == last_usable_vector
    then ok (
      u8 s.last_allocated_vector,
      record s { last_allocated_vector = u16 (s.last_allocated_vector + 1) },
    )
    else panic

-- The loops of `interrupts_init`: `count` rounds from index `i`, one entry each, or one for each PIC.
unfoldable pub fill : ℕ → ℕ → IntHandler → (ℕ → IntHandler) → ℕ → IntHandler
unfolding put
fill zero i handler t = t
fill (suc count) i handler t = fill count (i + 1) handler (put i handler t)

unfoldable pub fill_pics : ℕ → ℕ → (ℕ → IntHandler) → ℕ → IntHandler
unfolding put
fill_pics zero pic_irq t = t
fill_pics (suc count) pic_irq t = fill_pics count (pic_irq + 1) (
    put (pic_irq + pic2_irq_base) pic_irq_handler (put (pic_irq + pic1_irq_base) pic_irq_handler t))

unfoldable pub interrupts_init : Interrupts → Interrupts
unfolding fill fill_pics
interrupts_init s = record s {
  int_handlers = fill_pics pic_handled_irq_count 0 (
      fill 32 0 cpu_exception_handler
        (fill idt_max_descriptors 0 unknown_int_handler s.int_handlers));
}
