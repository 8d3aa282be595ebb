-- ===== src/Strings.antt =====
-- The byte functions of kernel/string.c, over memory as bytes at addresses. The functions return
-- their first argument; what they do is the memory that they leave.
pub mod Copy
pub mod Compare
use flurry.Prelude.{ℕ, zero, suc, ◌+◌, ◌%◌, ◌^◌, ◌==◌, ltb, if◌then◌else◌}
use flurry.Prelude.Words.{u8}
use flurry.Prelude.Memory.{Mem, write}
use flurry.Prelude.Outcome.{Outcome, ok, out_of_fuel}

-- `n` rounds of the loop that copies upwards, from index `i` on.
unfoldable pub copy_up : ℕ → ℕ → ℕ → ℕ → Mem → Mem
copy_up zero i dest src m = m
copy_up (suc n) i dest src m = copy_up n (i + 1) dest src (write m (dest + i) (m (src + i)))

-- The loop that copies downwards, from index `i - 1` to 0.
unfoldable pub copy_down : ℕ → ℕ → ℕ → Mem → Mem
copy_down zero dest src m = m
copy_down (suc i) dest src m = copy_down i dest src (write m (dest + i) (m (src + i)))

unfoldable pub memcpy : ℕ → ℕ → ℕ → Mem → Mem
unfolding copy_up
memcpy dest src n m = copy_up n 0 dest src m

unfoldable pub memset : ℕ → ℕ → ℕ → Mem → Mem
memset ptr val zero m = m
memset ptr val (suc len) m = memset (ptr + 1) val len (write m ptr (u8 val))

unfoldable pub memmove : ℕ → ℕ → ℕ → Mem → Mem
unfolding copy_up copy_down
memmove dest src n m =
    if ltb dest src
    then copy_up n 0 dest src m
    else if ltb src dest
    then copy_down n dest src m
    else m

-- The results -1, 0 and 1 of `memcmp`.
pub data Sign : Type 0 where
  minus_one : Sign
  equal : Sign
  plus_one : Sign

-- `n` rounds of the comparison, from index `i` on.
unfoldable pub compare_from : ℕ → ℕ → ℕ → ℕ → Mem → Sign
compare_from zero i s1 s2 m = equal
compare_from (suc n) i s1 s2 m =
    let rest = compare_from n (i + 1) s1 s2 m in
    if m (s1 + i) == m (s2 + i)
    then rest
    else if ltb (m (s1 + i)) (m (s2 + i))
    then minus_one
    else plus_one

unfoldable pub memcmp : ℕ → ℕ → ℕ → Mem → Sign
unfolding compare_from
memcmp s1 s2 n m = compare_from n 0 s1 s2 m

-- Each round copies a byte, and the copy of a NUL ends the loop.
unfoldable pub strcpy : ℕ → ℕ → ℕ → Mem → Outcome Mem
strcpy zero dest src m = out_of_fuel
strcpy (suc rounds) dest src m =
    let rest = strcpy rounds (dest + 1) (src + 1) (write m dest (m src)) in
    if m src == 0 then ok (write m dest (m src)) else rest
