-- ===== src/Elf.antt =====
-- The reader of program files, kernel/abi/sysv/elf.c: the identification and the header of an ELF64
-- file are tested one field after another, and what the loader needs is taken from the header.
pub mod Accept
use flurry.Prelude.{ℕ, Bool, ◌&&◌, not, ◌==◌, if◌then◌else◌}

pub record Ehdr : Type 0 where
  pub e_ident : ℕ → ℕ
  pub e_type : ℕ
  pub e_machine : ℕ
  pub e_version : ℕ
  pub e_entry : ℕ
  pub e_phoff : ℕ
  pub e_shoff : ℕ
  pub e_flags : ℕ
  pub e_ehsize : ℕ
  pub e_phentsize : ℕ
  pub e_phnum : ℕ
  pub e_shentsize : ℕ
  pub e_shnum : ℕ
  pub e_shstrndx : ℕ

pub data ElfResult : Type 0 where
  result_ok : ElfResult
  err_not_elf : ElfResult
  err_invalid_machine : ElfResult
  err_invalid_class : ElfResult
  err_invalid_encoding : ElfResult
  err_invalid_version : ElfResult

pub record ElfFile : Type 0 where
  pub entry_point : ℕ
  pub phdrs_size : ℕ
  pub phdrs_offset : ℕ
  pub phdrs_count : ℕ

abbrev pub em_x86_64 : ℕ
em_x86_64 = 62

abbrev pub ev_current : ℕ
ev_current = 1

abbrev pub elfclass64 : ℕ
elfclass64 = 2

abbrev pub elfdata2lsb : ℕ
elfdata2lsb = 1

-- The four bytes 0x7f, 'E', 'L' and 'F'.
unfoldable pub has_magic : Ehdr → Bool
has_magic header =
    (header.e_ident 0 == 0x7f)
    && (header.e_ident 1 == 69)
    && (header.e_ident 2 == 76)
    && (header.e_ident 3 == 70)

unfoldable pub elf_file_of : Ehdr → ElfFile
elf_file_of header = record {
  entry_point = header.e_entry;
  phdrs_size = header.e_phentsize;
  phdrs_offset = header.e_phoff;
  phdrs_count = header.e_phnum;
}

-- The result, and what `*elf_file` holds then.
unfoldable pub elf_read : Ehdr → ElfFile → ElfResult × ElfFile
unfolding has_magic elf_file_of
elf_read header elf_file =
    if not (has_magic header)
    then (err_not_elf, elf_file)
    else if not (header.e_ident 4 == elfclass64)
    then (err_invalid_class, elf_file)
    else if not (header.e_machine == em_x86_64)
    then (err_invalid_machine, elf_file)
    else if not (header.e_ident 5 == elfdata2lsb)
    then (err_invalid_encoding, elf_file)
    else if not (header.e_version == ev_current)
    then (err_invalid_version, elf_file)
    else (result_ok, elf_file_of header)
