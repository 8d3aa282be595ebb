-- ===== src/Syscall/Init.antt =====
-- The registers after `syscall_init`.
use flurry.Prelude.{◌≡◌, refl}
use flurry.Prelude.Memory.{Mem, write}
use flurry.Syscall.{msr_lstar, syscall_init}

-- `syscall_init` leaves the register of the handler's address as it was.
pub syscall_init-msr_lstar : (m : Mem) → syscall_init m msr_lstar ≡ m msr_lstar
unfolding syscall_init write
syscall_init-msr_lstar m = refl
