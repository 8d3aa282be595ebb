-- ===== src/Interrupts/Vectors.antt =====
-- The allocation of vectors over the life of the kernel.
use flurry.Prelude.{ℕ, ◌≡◌, refl}
use flurry.Prelude.Outcome.{ok, panic}
use flurry.Interrupts.{
  IntHandler, Interrupts, first_usable_vector, interrupts_init, interrupts_set_handler,
  interrupts_alloc_vector,
}

-- The states that calls lead to from the boot of the kernel, where the table holds anything.
pub data Reached : Interrupts → Type 0 where
  boot :
      (t : ℕ → IntHandler)
      → Reached (record { int_handlers = t; last_allocated_vector = first_usable_vector })
  init : (s : Interrupts) → Reached s → Reached (interrupts_init s)
  set :
      (vec : ℕ) (handler : IntHandler) (s : Interrupts)
      → Reached s
      → Reached (interrupts_set_handler vec handler s)
  alloc :
      (s s' : Interrupts) (vec : ℕ)
      → Reached s
      → interrupts_alloc_vector s ≡ ok (vec, s')
      → Reached s'

refused :
    (s : Interrupts)
    → s.last_allocated_vector ≡ first_usable_vector
    → interrupts_alloc_vector s ≡ panic
unfolding interrupts_alloc_vector
refused s h = rw h refl

at_first : (s : Interrupts) → Reached s → s.last_allocated_vector ≡ first_usable_vector
unfolding interrupts_init interrupts_set_handler
at_first _ (boot t) = refl
at_first _ (init s r) = at_first s r
at_first _ (set vec handler s r) = at_first s r
at_first _ (alloc s s' vec r e) = let refusal = refused s (at_first s r) in cc

-- In no state that the kernel comes to does `interrupts_alloc_vector` give out a vector: its assertion
-- fails every time.
pub interrupts_alloc_vector-Reached :
    (s : Interrupts) → Reached s → interrupts_alloc_vector s ≡ panic
interrupts_alloc_vector-Reached s r = refused s (at_first s r)
