-- ===== src/Strings/Copy.antt =====
-- What the copying functions leave in memory.
use flurry.Prelude.{
  ℕ, zero, suc, ◌+◌, ◌-◌, ◌%◌, ◌^◌, ◌<◌, ◌≤◌, ◌≡◌, ◌≢◌, refl, ◌∙◌, ap, true, false, ◌&&◌, ◌==◌, ltb,
  leb, if◌then◌else◌, Bool-cases, ◌⊎◌, inl, inr, arith, sym, ==_iff, ne→==,
}
use flurry.Prelude.Words.{u8}
use flurry.Prelude.Memory.{Mem, write, write_ne}
use flurry.Prelude.Outcome.{ok}
use flurry.Strings.{copy_up, copy_down, memcpy, memset, memmove, strcpy}

-- The memory after `n` bytes from `src` were moved to `dest` at once.
abbrev pub moved : Mem → ℕ → ℕ → ℕ → Mem
moved m dest src n a = if leb dest a && ltb a (dest + n) then m (src + (a - dest)) else m a

copy_up_lem :
    (n i dest src : ℕ) (m : Mem) (a : ℕ)
    → (dest ≤ src) ⊎ (src + n ≤ dest)
    → copy_up n i dest src m a
      ≡ (if leb (dest + i) a && ltb a (dest + i + n) then m (src + (a - dest)) else m a)
unfolding copy_up write
copy_up_lem zero i dest src m a apart = ground arith
copy_up_lem (suc n) i dest src m a apart =
    let same : a ≡ dest + i → m (src + (a - dest)) ≡ m (src + i) = λ e. ap m (omega arith) in
    rw (copy_up_lem n (i + 1) dest src (write m (dest + i) (m (src + i))) a (ground arith))
      (ground arith)

copy_down_lem :
    (n dest src : ℕ) (m : Mem) (a : ℕ)
    → src ≤ dest
    → copy_down n dest src m a ≡ moved m dest src n a
unfolding copy_down write
copy_down_lem zero dest src m a h = ground arith
copy_down_lem (suc n) dest src m a h =
    let same : a ≡ dest + n → m (src + (a - dest)) ≡ m (src + n) = λ e. ap m (omega arith) in
    rw (copy_down_lem n dest src (write m (dest + n) (m (src + n))) a h) (ground arith)

copy_up-moved :
    (n dest src : ℕ) (m : Mem) (a : ℕ)
    → (dest ≤ src) ⊎ (src + n ≤ dest)
    → copy_up n 0 dest src m a ≡ moved m dest src n a
copy_up-moved n dest src m a apart =
    let start : dest + 0 ≡ dest = omega arith in rw start at (copy_up_lem n 0 dest src m a apart)

moved_itself : (m : Mem) (dest src n a : ℕ) → dest ≡ src → m a ≡ moved m dest src n a
moved_itself m dest src n a same =
    let here : dest ≤ a → m (src + (a - dest)) ≡ m a = λ h. ap m (omega arith) in ground arith

-- `memmove` leaves the destination with what the source held before the call, and nothing else
-- changed, however the two areas overlap.
pub memmove-moved :
    (dest src n : ℕ) (m : Mem) (a : ℕ) → memmove dest src n m a ≡ moved m dest src n a
unfolding memmove
memmove-moved dest src n m a = elim (Bool-cases (ltb dest src)) [
  | inl e ↦ rw e (copy_up-moved n dest src m a (inl (ground arith)))
  | inr e ↦ elim (Bool-cases (ltb src dest)) [
    | inl e' ↦ rw (e, e') (copy_down_lem n dest src m a (ground arith))
    | inr e' ↦ rw (e, e') (moved_itself m dest src n a (ground arith))
  ]
]

-- `memcpy` does the same as `memmove` where the destination starts at or below the source or behind
-- it.
pub memcpy-memmove :
    (dest src n : ℕ) (m : Mem) (a : ℕ)
    → (dest ≤ src) ⊎ (src + n ≤ dest)
    → memcpy dest src n m a ≡ memmove dest src n m a
unfolding memcpy
memcpy-memmove dest src n m a apart =
    copy_up-moved n dest src m a apart ∙ sym (memmove-moved dest src n m a)

-- `memset` fills the area with the low byte of the value, and changes nothing else.
pub memset_lem :
    (ptr val len : ℕ) (m : Mem) (a : ℕ)
    → memset ptr val len m a ≡ (if leb ptr a && ltb a (ptr + len) then val % 2 ^ 8 else m a)
unfolding memset write
memset_lem ptr val zero m a = ground arith
memset_lem ptr val (suc len) m a =
    rw (memset_lem (ptr + 1) val len (write m ptr (u8 val)) a) (ground arith)

moved-step :
    (m : Mem) (dest src len a : ℕ)
    → (dest ≤ src) ⊎ (src + suc len < dest)
    → moved (write m dest (m src)) (dest + 1) (src + 1) (len + 1) a
      ≡ moved m dest src (suc len + 1) a
unfolding write
moved-step m dest src len a apart =
    let first : a ≡ dest → m (src + (a - dest)) ≡ m src = λ e. ap m (omega arith) in
    let later : dest + 1 ≤ a → m (src + 1 + (a - (dest + 1))) ≡ m (src + (a - dest)) =
      λ h. ap m (omega arith) in
    ground arith

moved_one : (m : Mem) (dest src a : ℕ) → write m dest (m src) a ≡ moved m dest src 1 a
unfolding write
moved_one m dest src a =
    let first : a ≡ dest → m (src + (a - dest)) ≡ m src = λ e. ap m (omega arith) in ground arith

-- With rounds for a string of `len` bytes and its NUL, and a destination that starts at or below the
-- string or behind it, `strcpy` returns with the string and its NUL copied and nothing else changed.
pub strcpy_lem :
    (rounds dest src len : ℕ) (m : Mem)
    → ((i : ℕ) → i < len → m (src + i) ≢ 0)
    → m (src + len) ≡ 0
    → (dest ≤ src) ⊎ (src + len < dest)
    → len < rounds
    → (m' : Mem) × (strcpy rounds dest src m ≡ ok m')
      × ((a : ℕ) → m' a ≡ moved m dest src (len + 1) a)
unfolding strcpy
strcpy_lem zero dest src len m text nul apart enough = absurd (omega arith)
strcpy_lem (suc rounds) dest src zero m text nul apart enough =
    let here : src + 0 ≡ src = omega arith in
    let last : (m src == 0) ≡ true = (==_iff (m src) 0).1 (rw here at nul) in
    rw last (write m dest (m src), refl, λ a. moved_one m dest src a)
strcpy_lem (suc rounds) dest src (suc len) m text nul apart enough =
    let here : src + 0 ≡ src = omega arith in
    let more : (m src == 0) ≡ false = ne→== (m src) 0 (rw here at (text 0 (omega arith))) in
    let m1 = write m dest (m src) in
    let kept : (i : ℕ) → i ≤ len → m1 (src + 1 + i) ≡ m (src + suc i) =
      λ i h. write_ne m dest (m src) (src + 1 + i) (ground arith) ∙ ap m (omega arith) in
    let rest =
      strcpy_lem rounds (dest + 1) (src + 1) len m1
        (λ i h. rw (kept i (omega arith)) (text (suc i) (omega arith)))
        (kept len (omega arith) ∙ nul) (ground arith) (omega arith) in
    rw more (rest.0, rest.1, λ a. rest.2 a ∙ moved-step m dest src len a apart)
