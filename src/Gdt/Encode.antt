-- ===== src/Gdt/Encode.antt =====
-- The fields of a descriptor, read back the way the processor does.
use flurry.Prelude.{ℕ, ◌+◌, ◌*◌, ◌/◌, ◌%◌, ◌^◌, ◌<◌, ◌≡◌, refl, bit_and, bit_or, arith}
use flurry.Prelude.Bits.{
  bit_and_ones, bit_and_high, bit_or_join, bit_or_join_low, bit_or_high, zero-bit_or,
}
use flurry.Prelude.Words.{shl64}
use flurry.Gdt.{gdt_encode_entry}

-- Where the fields lie.
abbrev pub limit_of : ℕ → ℕ
limit_of entry = entry % 2 ^ 16 + entry / 2 ^ 48 % 2 ^ 4 * 2 ^ 16

abbrev pub base_of : ℕ → ℕ
base_of entry = entry / 2 ^ 16 % 2 ^ 24 + entry / 2 ^ 56 % 2 ^ 8 * 2 ^ 24

abbrev pub access_of : ℕ → ℕ
access_of entry = entry / 2 ^ 40 % 2 ^ 8

abbrev pub flags_of : ℕ → ℕ
flags_of entry = entry / 2 ^ 52 % 2 ^ 4

base_low : (x : ℕ) → shl64 (bit_and x 0xffff) 16 ≡ x % 2 ^ 16 * 2 ^ 16
base_low x = ground (arith, bit_and_ones 16 x)

base_mid : (x : ℕ) → shl64 (bit_and x 0xff_0000) 32 ≡ x / 2 ^ 16 % 2 ^ 8 * 2 ^ 48
base_mid x = ground (arith, bit_and_high 16 x 0xff, bit_and_ones 8 (x / 2 ^ 16))

access_part : (x : ℕ) → shl64 (bit_and x 0xff) 40 ≡ x % 2 ^ 8 * 2 ^ 40
access_part x = ground (arith, bit_and_ones 8 x)

limit_high : (x : ℕ) → shl64 (bit_and x 0xf_0000 / 2 ^ 16) 48 ≡ x / 2 ^ 16 % 2 ^ 4 * 2 ^ 48
limit_high x = ground (arith, bit_and_high 16 x 0xf, bit_and_ones 4 (x / 2 ^ 16))

flags_part : (x : ℕ) → shl64 (bit_and x 0xf) 52 ≡ x % 2 ^ 4 * 2 ^ 52
flags_part x = ground (arith, bit_and_ones 4 x)

base_high : (x : ℕ) → shl64 (bit_and x 0xff00_0000 / 2 ^ 24) 56 ≡ x / 2 ^ 24 % 2 ^ 8 * 2 ^ 56
base_high x = ground (arith, bit_and_high 24 x 0xff, bit_and_ones 8 (x / 2 ^ 24))

-- The bits 48 to 63: the middle byte of the base lies over the limit's high bits and the flags.
abbrev pub top_of : ℕ → ℕ → ℕ → ℕ
top_of limit base flags =
    bit_or
      (bit_or (bit_or (base / 2 ^ 16 % 2 ^ 8) (limit / 2 ^ 16 % 2 ^ 4)) (flags % 2 ^ 4 * 2 ^ 4))
      (base / 2 ^ 24 % 2 ^ 8 * 2 ^ 8)

join_low :
    (a b c d : ℕ)
    → a < 2 ^ 16
    → b < 2 ^ 16
    → d < 2 ^ 8
    → bit_or (bit_or (bit_or a (b * 2 ^ 16)) (c * 2 ^ 48)) (d * 2 ^ 40)
      ≡ c * 2 ^ 48 + (d * 2 ^ 40 + (b * 2 ^ 16 + a))
join_low a b c d ha hb hd =
    let x = b * 2 ^ 16 + a in
    let e : c * 2 ^ 48 + x ≡ c * 2 ^ 8 * 2 ^ 40 + x = omega arith in
    rw
      (
        bit_or_join_low 16 b a ha,
        bit_or_join_low 48 c x (omega arith),
        e,
        bit_or_high 40 (c * 2 ^ 8) x d (omega arith),
        bit_or_join 8 c d hd,
      )
      (omega arith)

join_high :
    (low c e f g : ℕ)
    → low < 2 ^ 48
    → bit_or (bit_or (bit_or (c * 2 ^ 48 + low) (e * 2 ^ 48)) (f * 2 ^ 52)) (g * 2 ^ 56)
      ≡ bit_or (bit_or (bit_or c e) (f * 2 ^ 4)) (g * 2 ^ 8) * 2 ^ 48 + low
join_high low c e f g h =
    let ef : f * 2 ^ 52 ≡ f * 2 ^ 4 * 2 ^ 48 = omega arith in
    let eg : g * 2 ^ 56 ≡ g * 2 ^ 8 * 2 ^ 48 = omega arith in
    rw (ef, eg, bit_or_high 48 c low e h, bit_or_high 48 (bit_or c e) low (f * 2 ^ 4) h)
      (bit_or_high 48 (bit_or (bit_or c e) (f * 2 ^ 4)) low (g * 2 ^ 8) h)

encode-eq :
    (limit base access flags : ℕ)
    → gdt_encode_entry limit base access flags
      ≡ bit_or
          (bit_or
            (bit_or
              (bit_or
                (bit_or
                  (bit_or (bit_and limit 0xffff) (shl64 (bit_and base 0xffff) 16))
                  (shl64 (bit_and base 0xff_0000) 32))
                (shl64 (bit_and access 0xff) 40))
              (shl64 (bit_and limit 0xf_0000 / 2 ^ 16) 48))
            (shl64 (bit_and flags 0xf) 52))
          (shl64 (bit_and base 0xff00_0000 / 2 ^ 24) 56)
unfolding gdt_encode_entry
encode-eq limit base access flags = refl

-- What a descriptor comes to: the low word of the limit, the low word of the base, nothing in the
-- byte from bit 32 on, the access byte, and above it the rest, the base's middle byte included.
gdt_encode_entry_lem :
    (limit base access flags : ℕ)
    → gdt_encode_entry limit base access flags
      ≡ top_of limit base flags * 2 ^ 48
        + (access % 2 ^ 8 * 2 ^ 40 + (base % 2 ^ 16 * 2 ^ 16 + limit % 2 ^ 16))
gdt_encode_entry_lem limit base access flags =
    rw
      (
        encode-eq limit base access flags,
        bit_and_ones 16 limit,
        base_low base,
        base_mid base,
        access_part access,
        limit_high limit,
        flags_part flags,
        base_high base,
        join_low (limit % 2 ^ 16) (base % 2 ^ 16) (base / 2 ^ 16 % 2 ^ 8) (access % 2 ^ 8)
            (omega arith) (omega arith) (omega arith),
      )
      (join_high _ (base / 2 ^ 16 % 2 ^ 8) (limit / 2 ^ 16 % 2 ^ 4) (flags % 2 ^ 4)
        (base / 2 ^ 24 % 2 ^ 8) (omega arith))

top-plain :
    (limit base flags : ℕ)
    → base / 2 ^ 16 % 2 ^ 8 ≡ 0
    → top_of limit base flags
      ≡ base / 2 ^ 24 % 2 ^ 8 * 2 ^ 8 + (flags % 2 ^ 4 * 2 ^ 4 + limit / 2 ^ 16 % 2 ^ 4)
top-plain limit base flags h =
    rw
      (
        h,
        zero-bit_or (limit / 2 ^ 16 % 2 ^ 4),
        bit_or_join_low 4 (flags % 2 ^ 4) (limit / 2 ^ 16 % 2 ^ 4) (omega arith),
      )
      (bit_or_join_low 8 (base / 2 ^ 24 % 2 ^ 8) _ (omega arith))

-- A descriptor whose base has a zero in its byte from bit 16 on, as the code and data segments at
-- 0 have, reads back as the limit, base, access byte and flags that it was made of, each of its
-- width.
pub gdt_encode_entry-fields :
    (limit base access flags : ℕ)
    → limit < 2 ^ 20
    → base < 2 ^ 32
    → access < 2 ^ 8
    → flags < 2 ^ 4
    → base / 2 ^ 16 % 2 ^ 8 ≡ 0
    → (limit_of (gdt_encode_entry limit base access flags) ≡ limit)
      × (base_of (gdt_encode_entry limit base access flags) ≡ base)
      × (access_of (gdt_encode_entry limit base access flags) ≡ access)
      × (flags_of (gdt_encode_entry limit base access flags) ≡ flags)
gdt_encode_entry-fields limit base access flags hl hb ha hf plain =
    rw (gdt_encode_entry_lem limit base access flags, top-plain limit base flags plain)
      (omega arith, omega arith, omega arith, omega arith)

-- Whatever a descriptor is made of, the byte in which the processor looks for bits 16 to 23 of the
-- base is 0, so that no base with a bit there reads back.
pub gdt_encode_entry-base_lost :
    (limit base access flags : ℕ)
    → base_of (gdt_encode_entry limit base access flags) / 2 ^ 16 % 2 ^ 8 ≡ 0
gdt_encode_entry-base_lost limit base access flags =
    rw (gdt_encode_entry_lem limit base access flags) (omega arith)
