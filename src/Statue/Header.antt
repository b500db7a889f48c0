-- ===== src/Statue/Header.antt =====
-- crates/Statue/src/header.rs: the ELF identification, the header, and the file.
pub mod Safety
pub mod Tables
use prisma_os.Base.{
  ℕ, ◌+◌, ◌*◌, ◌^◌, ◌%◌, ◌≡◌, Bool, true, false, not, ◌&&◌, ◌||◌, List, [], ◌∷◌, ltb, leb, ◌==◌,
  if◌then◌else◌, length,
}
use prisma_os.Base.Bytes.{same_bytes}
use prisma_os.Statue.Error.{
  ElfError, buffer_too_small, invalid_magic, unsupported_class, unsupported_encoding,
  unsupported_version, unsupported_architecture, invalid_header, invalid_program_header,
  invalid_section_header, invalid_offset, arithmetic_overflow,
}
use prisma_os.Statue.Parse.{
  Parse, ok, err, panic, ◌>>=◌, ◌>>◌, require, byte_at, read_bytes, read_u16, read_u32, read_u64,
}

pub data ElfClass : Type 0 where
  elf32 elf64 : ElfClass

pub data ElfData : Type 0 where
  little_endian big_endian : ElfData

pub data ElfType : Type 0 where
  no_type relocatable executable shared_object core : ElfType

pub data ElfMachine : Type 0 where
  no_machine x86_64 aarch64 risc_v : ElfMachine

pub record ElfIdent : Type 0 where
  pub magic : List ℕ
  pub elf_class : ElfClass
  pub encoding : ElfData
  pub version : ℕ
  pub osabi : ℕ
  pub abiversion : ℕ
  pub padding : List ℕ

pub record ElfHeader : Type 0 where
  pub ident : ElfIdent
  pub file_type : ElfType
  pub machine : ElfMachine
  pub version : ℕ
  pub entry : ℕ
  pub phoff : ℕ
  pub shoff : ℕ
  pub flags : ℕ
  pub ehsize : ℕ
  pub phentsize : ℕ
  pub phnum : ℕ
  pub shentsize : ℕ
  pub shnum : ℕ
  pub shstrndx : ℕ

pub record ElfFile : Type 0 where
  pub input : List ℕ
  pub header : ElfHeader

abbrev pub elf_magic : List ℕ
elf_magic = 0x7f ∷ b'E' ∷ b'L' ∷ b'F' ∷ []

abbrev pub class_of : ℕ → Parse ElfClass
class_of n = if n == 1 then ok elf32 else if n == 2 then ok elf64 else err unsupported_class

abbrev pub encoding_of : ℕ → Parse ElfData
encoding_of n =
    if n == 1 then ok little_endian else if n == 2 then ok big_endian else err unsupported_encoding

abbrev pub file_type_of : ℕ → Parse ElfType
file_type_of n =
    if n == 0
    then ok no_type
    else if n == 1
    then ok relocatable
    else if n == 2
    then ok executable
    else if n == 3
    then ok shared_object
    else if n == 4
    then ok core
    else err invalid_header

abbrev pub machine_of : ℕ → Parse ElfMachine
machine_of n =
    if n == 0
    then ok no_machine
    else if n == 62
    then ok x86_64
    else if n == 183
    then ok aarch64
    else if n == 243
    then ok risc_v
    else err unsupported_architecture

abbrev pub is_little : ElfData → Bool
is_little little_endian = true
is_little big_endian = false

abbrev pub is_64bit : ElfClass → Bool
is_64bit elf32 = false
is_64bit elf64 = true

-- The sizes of the header and of a table entry, by class.
abbrev pub header_size : ElfClass → ℕ
header_size elf32 = 52
header_size elf64 = 64

abbrev pub flags_offset : ElfClass → ℕ
flags_offset elf32 = 36
flags_offset elf64 = 48

abbrev pub program_entry_size : ElfClass → ℕ
program_entry_size elf32 = 32
program_entry_size elf64 = 56

abbrev pub section_entry_size : ElfClass → ℕ
section_entry_size elf32 = 40
section_entry_size elf64 = 64

unfoldable pub parse_ident : List ℕ → Parse ElfIdent
parse_ident input = do
  require (leb 16 (length input)) buffer_too_small
  magic ← read_bytes input 0 4
  require (same_bytes magic elf_magic) invalid_magic
  class_byte ← byte_at input 4
  elf_class ← class_of class_byte
  encoding_byte ← byte_at input 5
  encoding ← encoding_of encoding_byte
  version ← byte_at input 6
  require (version == 1) unsupported_version
  osabi ← byte_at input 7
  abiversion ← byte_at input 8
  padding ← read_bytes input 9 7
  ok (record {
    magic = magic;
    elf_class = elf_class;
    encoding = encoding;
    version = version;
    osabi = osabi;
    abiversion = abiversion;
    padding = padding;
  })

-- The entry point and the offsets of the two tables, whose width depends on the class.
unfoldable pub parse_addresses : List ℕ → ElfClass → Bool → Parse (ℕ × ℕ × ℕ)
parse_addresses input elf32 le = do
  entry ← read_u32 input 24 le
  phoff ← read_u32 input 28 le
  shoff ← read_u32 input 32 le
  ok (entry, phoff, shoff)
parse_addresses input elf64 le = do
  entry ← read_u64 input 24 le
  phoff ← read_u64 input 32 le
  shoff ← read_u64 input 40 le
  ok (entry, phoff, shoff)

unfoldable pub parse_header : List ℕ → Parse ElfHeader
parse_header input = do
  ident ← parse_ident input
  let le = is_little ident.encoding
  let at = flags_offset ident.elf_class
  require (leb (header_size ident.elf_class) (length input)) buffer_too_small
  type_word ← read_u16 input 16 le
  file_type ← file_type_of type_word
  machine_word ← read_u16 input 18 le
  machine ← machine_of machine_word
  version ← read_u32 input 20 le
  require (version == 1) unsupported_version
  addresses ← parse_addresses input ident.elf_class le
  flags ← read_u32 input at le
  ehsize ← read_u16 input (at + 4) le
  phentsize ← read_u16 input (at + 6) le
  phnum ← read_u16 input (at + 8) le
  shentsize ← read_u16 input (at + 10) le
  shnum ← read_u16 input (at + 12) le
  shstrndx ← read_u16 input (at + 14) le
  ok (record {
    ident = ident;
    file_type = file_type;
    machine = machine;
    version = version;
    entry = addresses.0;
    phoff = addresses.1;
    shoff = addresses.2;
    flags = flags;
    ehsize = ehsize;
    phentsize = phentsize;
    phnum = phnum;
    shentsize = shentsize;
    shnum = shnum;
    shstrndx = shstrndx;
  })

-- A table of `count` entries at `start` ends in the file: `checked_add` and the comparison.
unfoldable pub check_table : ℕ → ℕ → ℕ → ℕ → Parse (Unit {0})
check_table start count size limit = do
  require (ltb (start + count * size) (2 ^ 64)) arithmetic_overflow
  require (leb (start + count * size) limit) invalid_offset

unfoldable pub check_programs : ElfHeader → ℕ → Parse (Unit {0})
unfolding check_table
check_programs h limit =
    if ltb 0 h.phnum
    then (require (h.phentsize == program_entry_size h.ident.elf_class) invalid_program_header
        >> check_table h.phoff h.phnum h.phentsize limit)
    else ok tt

unfoldable pub check_sections : ElfHeader → ℕ → Parse (Unit {0})
unfolding check_table
check_sections h limit =
    if ltb 0 h.shnum
    then (require (h.shentsize == section_entry_size h.ident.elf_class) invalid_section_header
        >> check_table h.shoff h.shnum h.shentsize limit
        >> require (not (leb h.shnum h.shstrndx && not (h.shstrndx == 0))) invalid_header)
    else ok tt

unfoldable pub parse_file : List ℕ → Parse ElfFile
unfolding check_programs check_sections
parse_file input = do
  h ← parse_header input
  require (h.ehsize == header_size h.ident.elf_class) invalid_header
  check_programs h (length input)
  check_sections h (length input)
  ok (record { input = input; header = h })
