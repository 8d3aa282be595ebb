-- ===== src/Elf/Accept.antt =====
-- Which files `elf_read` takes, and what it says of the others.
use flurry.Prelude.{ℕ, ◌≡◌, refl, ◌⊎◌, inl, inr, ◌≢◌, false, ◌==◌, Bool-cases, arith, ==_iff}
use flurry.Elf.{
  Ehdr, ElfFile, result_ok, em_x86_64, ev_current, elfclass64, elfdata2lsb, has_magic, elf_file_of,
  elf_read,
}

-- An x86-64 program of the current version, 64-bit and little-endian.
pub record IsProgram (header : Ehdr) : Type 0 where
  pub magic_0 : header.e_ident 0 ≡ 0x7f
  pub magic_1 : header.e_ident 1 ≡ 69
  pub magic_2 : header.e_ident 2 ≡ 76
  pub magic_3 : header.e_ident 3 ≡ 70
  pub class_64 : header.e_ident 4 ≡ 2
  pub machine : header.e_machine ≡ 62
  pub little_endian : header.e_ident 5 ≡ 1
  pub version : header.e_version ≡ 1

no : {a b : ℕ} → (a == b) ≡ false → ¬ (a ≡ b)
no e same = ground arith

-- `elf_read` answers OK with the entry point and the program headers' place and number exactly for
-- an x86-64 program: it is either such a program, and that is the answer, or not one, and then the
-- answer is an error and the caller's ElfFile is as it was.
pub elf_read-cases :
    (header : Ehdr) (elf_file : ElfFile)
    → (IsProgram header
        × (elf_read header elf_file ≡ (
          result_ok,
          record {
            entry_point = header.e_entry;
            phdrs_size = header.e_phentsize;
            phdrs_offset = header.e_phoff;
            phdrs_count = header.e_phnum;
          },
        )))
      ⊎ (¬ IsProgram header
          × ((elf_read header elf_file).0 ≢ result_ok)
          × ((elf_read header elf_file).1 ≡ elf_file))
unfolding elf_read has_magic elf_file_of
elf_read-cases header elf_file = elim (Bool-cases (header.e_ident 0 == 0x7f)) [
  | inr e_magic_0 ↦ rw e_magic_0 (inr (λ p. no e_magic_0 p.magic_0, λ q. cc, refl))
  | inl e_magic_0 ↦ rw e_magic_0 (elim (Bool-cases (header.e_ident 1 == 69)) [
    | inr e_magic_1 ↦ rw e_magic_1 (inr (λ p. no e_magic_1 p.magic_1, λ q. cc, refl))
    | inl e_magic_1 ↦ rw e_magic_1 (elim (Bool-cases (header.e_ident 2 == 76)) [
      | inr e_magic_2 ↦ rw e_magic_2 (inr (λ p. no e_magic_2 p.magic_2, λ q. cc, refl))
      | inl e_magic_2 ↦ rw e_magic_2 (elim (Bool-cases (header.e_ident 3 == 70)) [
        | inr e_magic_3 ↦ rw e_magic_3 (inr (λ p. no e_magic_3 p.magic_3, λ q. cc, refl))
        | inl e_magic_3 ↦ rw e_magic_3 (elim (Bool-cases (header.e_ident 4 == elfclass64)) [
          | inr e_class_64 ↦ rw e_class_64 (inr (λ p. no e_class_64 p.class_64, λ q. cc, refl))
          | inl e_class_64 ↦ rw e_class_64 (elim (Bool-cases (header.e_machine == em_x86_64)) [
            | inr e_machine ↦ rw e_machine (inr (λ p. no e_machine p.machine, λ q. cc, refl))
            | inl e_machine ↦ rw e_machine (elim (Bool-cases (header.e_ident 5 == elfdata2lsb)) [
              | inr e_little_endian ↦
                  rw e_little_endian (inr (λ p. no e_little_endian p.little_endian, λ q. cc, refl))
              | inl e_little_endian ↦
                  rw e_little_endian (elim (Bool-cases (header.e_version == ev_current)) [
                    | inr e_version ↦
                        rw e_version (inr (λ p. no e_version p.version, λ q. cc, refl))
                    | inl e_version ↦ rw e_version (
                        inl (
                          record {
                            magic_0 = (==_iff (header.e_ident 0) 0x7f).0 e_magic_0;
                            magic_1 = (==_iff (header.e_ident 1) 69).0 e_magic_1;
                            magic_2 = (==_iff (header.e_ident 2) 76).0 e_magic_2;
                            magic_3 = (==_iff (header.e_ident 3) 70).0 e_magic_3;
                            class_64 = (==_iff (header.e_ident 4) elfclass64).0 e_class_64;
                            machine = (==_iff (header.e_machine) em_x86_64).0 e_machine;
                            little_endian =
                                (==_iff (header.e_ident 5) elfdata2lsb).0 e_little_endian;
                            version = (==_iff (header.e_version) ev_current).0 e_version;
                          },
                          refl,
                        ))
                  ])
            ])
          ])
        ])
      ])
    ])
  ])
]
