-- ===== src/Interrupts/Table.antt =====
-- What the table holds after its initialisation and after a handler is set.
use flurry.Prelude.{ℕ, zero, suc, ◌+◌, ◌<◌, ◌≤◌, ◌≡◌, refl, ◌&&◌, ltb, leb, if◌then◌else◌, arith}
use flurry.Interrupts.{
  IntHandler, unknown_int_handler, cpu_exception_handler, pic_irq_handler, Interrupts, put, fill,
  fill_pics, interrupts_init, interrupt_dispatch,
}

-- What an entry is after `fill`.
fill_lem :
    (count i : ℕ) (handler : IntHandler) (t : ℕ → IntHandler) (v : ℕ)
    → fill count i handler t v ≡ (if leb i v && ltb v (i + count) then handler else t v)
unfolding fill put
fill_lem zero i handler t v = ground arith
fill_lem (suc count) i handler t v =
    rw (fill_lem count (i + 1) handler (put i handler t) v) (ground arith)

fill_pics_lem :
    (count i : ℕ) (t : ℕ → IntHandler) (v : ℕ)
    → i + count ≤ 8
    → fill_pics count i t v ≡ (
        if leb (i + 32) v && ltb v (i + count + 32)
        then pic_irq_handler
        else if leb (i + 40) v && ltb v (i + count + 40)
        then pic_irq_handler
        else t v)
unfolding fill_pics put
fill_pics_lem zero i t v h = ground arith
fill_pics_lem (suc count) i t v h =
    rw
      (fill_pics_lem count (i + 1) (put (i + 40) pic_irq_handler (put (i + 32) pic_irq_handler t)) v
        (omega arith))
      (ground arith)

init-eq :
    (s : Interrupts) (v : ℕ)
    → interrupt_dispatch (interrupts_init s) v
      ≡ fill_pics 8 0
          (fill 32 0 cpu_exception_handler (fill 256 0 unknown_int_handler s.int_handlers))
          v
unfolding interrupt_dispatch interrupts_init
init-eq s v = refl

-- After `interrupts_init` the first 32 vectors are the processor's exceptions, the next 16 those of
-- the two PICs, and every other vector of the 256 is unknown, whatever the table held before.
pub interrupts_init-dispatch :
    (s : Interrupts) (v : ℕ)
    → v < 256
    → interrupt_dispatch (interrupts_init s) v ≡ (
        if ltb v 32
        then cpu_exception_handler
        else if ltb v 48
        then pic_irq_handler
        else unknown_int_handler)
interrupts_init-dispatch s v h =
    rw
      (
        init-eq s v,
        fill_pics_lem 8 0
            (fill 32 0 cpu_exception_handler (fill 256 0 unknown_int_handler s.int_handlers)) v
            (omega arith),
        fill_lem 32 0 cpu_exception_handler (fill 256 0 unknown_int_handler s.int_handlers) v,
        fill_lem 256 0 unknown_int_handler s.int_handlers v,
      )
      (ground arith)
