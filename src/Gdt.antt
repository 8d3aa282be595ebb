-- ===== src/Gdt.antt =====
-- The segment descriptors, kernel/cpu/gdt/gdt.c.
pub mod Encode
use flurry.Prelude.{ℕ, ◌/◌, ◌^◌, bit_and, bit_or, List, [], ◌∷◌}
use flurry.Prelude.Words.{shl64}

unfoldable pub gdt_encode_entry : ℕ → ℕ → ℕ → ℕ → ℕ
gdt_encode_entry limit base access flags =
    bit_or
      (bit_or
        (bit_or
          (bit_or
            (bit_or (bit_or (bit_and limit 0xffff) (shl64 (bit_and base 0xffff) 16))
              (shl64 (bit_and base 0xff_0000) 32))
            (shl64 (bit_and access 0xff) 40))
          (shl64 (bit_and limit 0xf_0000 / 2 ^ 16) 48))
        (shl64 (bit_and flags 0xf) 52))
      (shl64 (bit_and base 0xff00_0000 / 2 ^ 24) 56)

-- The size of the packed TSS.
abbrev pub tss_size : ℕ
tss_size = 104

-- The seven words that `gdt_init` fills in, the TSS lying at `tss`.
unfoldable pub gdt_table : ℕ → List ℕ
unfolding gdt_encode_entry
gdt_table tss =
    0
    ∷ gdt_encode_entry 0xf_ffff 0 0x9a 0xa
    ∷ gdt_encode_entry 0xf_ffff 0 0x92 0xc
    ∷ gdt_encode_entry 0xf_ffff 0 0xfa 0xa
    ∷ gdt_encode_entry 0xf_ffff 0 0xf2 0xc
    ∷ gdt_encode_entry tss_size (bit_and tss 0xffff_ffff) 0x89 0x40
    ∷ bit_and (tss / 2 ^ 32) 0xffff_ffff
    ∷ []
