-- ===== src/Prelude/Memory.antt =====
-- Memory as 64-bit words at byte addresses. Every access that is modelled over it is of one aligned
-- 8-byte word, so two different addresses never overlap.
use Prim.Native.Nat.{ℕ}
use mathlib.Core.Path.{◌≡◌}
use mathlib.Core.Logic.{◌≢◌}
use native.Mathlib.Omega.{arith}
use flurry.Prelude.Tests.{◌==◌, if◌then◌else◌}

abbrev pub Mem : Type 0
Mem = ℕ → ℕ

unfoldable pub write : Mem → ℕ → ℕ → Mem
write m p v a = if a == p then v else m a

pub write_self : (m : Mem) (p v : ℕ) → write m p v p ≡ v
unfolding write
write_self m p v = ground arith

pub write_ne : (m : Mem) (p v a : ℕ) → a ≢ p → write m p v a ≡ m a
unfolding write
write_ne m p v a h = ground arith
