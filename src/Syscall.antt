-- ===== src/Syscall.antt =====
-- The set-up of system calls, kernel/syscalls/syscall.c, over the model specific registers by number,
-- include/flurry/cpu/msr.h.
pub mod Init
use flurry.Prelude.{ℕ, ◌+◌, ◌*◌, ◌/◌, ◌^◌, bit_or}
use flurry.Prelude.Words.{u32, u64, shl64}
use flurry.Prelude.Memory.{Mem, write}

abbrev pub msr_efer : ℕ
msr_efer = 0xc000_0080

abbrev pub msr_star : ℕ
msr_star = 0xc000_0081

abbrev pub msr_lstar : ℕ
msr_lstar = 0xc000_0082

abbrev pub msr_fmask : ℕ
msr_fmask = 0xc000_0084

-- The two halves of a register as one word.
unfoldable pub msr_read : Mem → ℕ → ℕ
msr_read m msr = bit_or (u32 (m msr)) (shl64 (m msr / 2 ^ 32) 32)

-- The register gets the value's two halves.
unfoldable pub msr_write : ℕ → ℕ → Mem → Mem
msr_write msr value m = write m msr (u32 value + u32 (value / 2 ^ 32) * 2 ^ 32)

unfoldable pub syscall_init : Mem → Mem
unfolding msr_read msr_write
syscall_init m =
    let m1 = msr_write msr_efer (bit_or (msr_read m msr_efer) 1) m in
    let m2 = msr_write msr_star 0x0013_0008_0000_0000 m1 in
    msr_write msr_fmask (bit_or (msr_read m2 msr_fmask) (2 ^ 9)) m2
