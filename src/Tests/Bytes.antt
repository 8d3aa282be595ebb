-- ===== src/Tests/Bytes.antt =====
-- Concrete inputs for the theorems on the byte functions.
use flurry.Prelude.{ℕ, ◌-◌, ◌≡◌, refl, ltb, leb, ◌&&◌, if◌then◌else◌, inr, arith}
use flurry.Prelude.Memory.{Mem}
use flurry.Prelude.Outcome.{ok}
use flurry.Strings.{memmove, memcmp, strcpy}
use flurry.Strings.Copy.{moved, memmove-moved, strcpy_lem}
use flurry.Strings.Compare.{Says, memcmp-Says}

-- The bytes 1 to 9 at the addresses 101 to 109, and 0 elsewhere.
abbrev bytes : Mem
bytes a = if leb 101 a && ltb a 110 then a - 100 else 0

memmove-moved_example : memmove 103 101 5 bytes 104 ≡ moved bytes 103 101 5 104
memmove-moved_example = memmove-moved 103 101 5 bytes 104

memcmp-Says_example : Says 101 104 0 3 bytes (memcmp 101 104 3 bytes)
memcmp-Says_example = memcmp-Says 101 104 3 bytes

-- The string of one byte, 9, at 109.
strcpy_lem_example :
    (m' : Mem) × (strcpy 5 300 109 bytes ≡ ok m') × ((a : ℕ) → m' a ≡ moved bytes 300 109 2 a)
strcpy_lem_example =
    strcpy_lem 5 300 109 1 bytes (λ i h. ground arith) refl (inr (omega arith)) (omega arith)
