-- ===== src/Statue/Program.antt =====
-- crates/Statue/src/program.rs: program headers and the iterator over them.
pub mod Entries
use prisma_os.Base.{
  ℕ, ◌+◌, ◌*◌, ◌-◌, ◌^◌, ◌%◌, ◌≡◌, Bool, true, false, not, ◌&&◌, ◌||◌, List, Option, none, some,
  ltb, leb, ◌==◌, if◌then◌else◌, length, bit_and,
}
use prisma_os.Base.Words.{add64, mul64}
use prisma_os.Statue.Error.{
  ElfError, buffer_too_small, invalid_program_header, invalid_offset, arithmetic_overflow,
  invalid_alignment, index_out_of_bounds,
}
use prisma_os.Statue.Parse.{Parse, ok, err, panic, ◌>>=◌, ◌>>◌, require, read_u32, read_u64}
use prisma_os.Statue.Header.{ElfClass, ElfFile, is_64bit, is_little}

pub data ProgramType : Type 0 where
  null load dynamic interp note shlib phdr tls gnu_eh_frame gnu_stack gnu_rel_ro : ProgramType

pub record ProgramHeader : Type 0 where
  pub segment_type : ProgramType
  pub flags : ℕ
  pub offset : ℕ
  pub vaddr : ℕ
  pub paddr : ℕ
  pub filesz : ℕ
  pub memsz : ℕ
  pub align : ℕ

-- `ProgramFlags`
unfoldable pub executable : ℕ → Bool
executable flags = not (bit_and flags 1 == 0)

unfoldable pub writable : ℕ → Bool
writable flags = not (bit_and flags 2 == 0)

unfoldable pub readable : ℕ → Bool
readable flags = not (bit_and flags 4 == 0)

unfoldable pub program_type_of : ℕ → Parse ProgramType
program_type_of n =
    if n == 0
    then ok null
    else if n == 1
    then ok load
    else if n == 2
    then ok dynamic
    else if n == 3
    then ok interp
    else if n == 4
    then ok note
    else if n == 5
    then ok shlib
    else if n == 6
    then ok phdr
    else if n == 7
    then ok tls
    else if n == 0x6474e550
    then ok gnu_eh_frame
    else if n == 0x6474e551
    then ok gnu_stack
    else if n == 0x6474e552
    then ok gnu_rel_ro
    else err invalid_program_header

unfoldable pub parse_fields64 : List ℕ → ℕ → Bool → ProgramType → Parse ProgramHeader
parse_fields64 input at le segment_type = do
  flags ← read_u32 input (at + 4) le
  offset ← read_u64 input (at + 8) le
  vaddr ← read_u64 input (at + 16) le
  paddr ← read_u64 input (at + 24) le
  filesz ← read_u64 input (at + 32) le
  memsz ← read_u64 input (at + 40) le
  align ← read_u64 input (at + 48) le
  ok (record {
    segment_type = segment_type;
    flags = flags;
    offset = offset;
    vaddr = vaddr;
    paddr = paddr;
    filesz = filesz;
    memsz = memsz;
    align = align;
  })

unfoldable pub parse_fields32 : List ℕ → ℕ → Bool → ProgramType → Parse ProgramHeader
parse_fields32 input at le segment_type = do
  offset ← read_u32 input (at + 4) le
  vaddr ← read_u32 input (at + 8) le
  paddr ← read_u32 input (at + 12) le
  filesz ← read_u32 input (at + 16) le
  memsz ← read_u32 input (at + 20) le
  flags ← read_u32 input (at + 24) le
  align ← read_u32 input (at + 28) le
  ok (record {
    segment_type = segment_type;
    flags = flags;
    offset = offset;
    vaddr = vaddr;
    paddr = paddr;
    filesz = filesz;
    memsz = memsz;
    align = align;
  })

abbrev pub entry_size_of : Bool → ℕ
entry_size_of true = 56
entry_size_of false = 32

unfoldable pub parse : List ℕ → ℕ → Bool → Bool → Parse ProgramHeader
unfolding parse_fields64 parse_fields32 program_type_of
parse input at wide le = do
  require (leb (add64 at (entry_size_of wide)) (length input)) buffer_too_small
  type_word ← read_u32 input at le
  segment_type ← program_type_of type_word
  if wide then parse_fields64 input at le segment_type else parse_fields32 input at le segment_type

unfoldable pub validate : ProgramHeader → ℕ → Parse (Unit {0})
validate h file_size = do
  require (not (ltb 0 h.filesz) || ltb (h.offset + h.filesz) (2 ^ 64)) arithmetic_overflow
  require (not (ltb 0 h.filesz) || leb (h.offset + h.filesz) file_size) invalid_offset
  require (leb h.filesz h.memsz) invalid_program_header
  require (not (ltb 0 h.align) || bit_and h.align (h.align - 1) == 0) invalid_alignment
  require (not (ltb 1 h.align) || h.vaddr % h.align == h.offset % h.align) invalid_alignment

abbrev is_load : ProgramType → Bool
is_load load = true
is_load _ = false

unfoldable pub is_loadable : ProgramHeader → Bool
is_loadable h = is_load h.segment_type

unfoldable pub has_data : ProgramHeader → Bool
has_data h = ltb 0 h.filesz

unfoldable pub virtual_range : ProgramHeader → ℕ × ℕ
virtual_range h = (h.vaddr, add64 h.vaddr h.memsz)

unfoldable pub file_range : ProgramHeader → ℕ × ℕ
file_range h = (h.offset, add64 h.offset h.filesz)

pub record ProgramHeaderIter : Type 0 where
  pub input : List ℕ
  pub offset : ℕ
  pub count : ℕ
  pub current : ℕ
  pub entry_size : ℕ
  pub wide : Bool
  pub little_endian : Bool

unfoldable pub new : ElfFile → Parse ProgramHeaderIter
new elf = ok (record {
  input = elf.input;
  offset = elf.header.phoff;
  count = elf.header.phnum;
  current = 0;
  entry_size = elf.header.phentsize;
  wide = is_64bit elf.header.ident.elf_class;
  little_endian = is_little elf.header.ident.encoding;
})

unfoldable pub parse_at : ProgramHeaderIter → ℕ → Parse ProgramHeader
unfolding parse
parse_at it index =
    parse it.input (add64 it.offset (mul64 index it.entry_size)) it.wide it.little_endian

unfoldable pub get : ProgramHeaderIter → ℕ → Parse ProgramHeader
unfolding parse_at
get it index = if leb it.count index then err index_out_of_bounds else parse_at it index

unfoldable pub next : ProgramHeaderIter → ProgramHeaderIter × Option (Parse ProgramHeader)
unfolding parse_at
next it =
    if leb it.count it.current
    then (it, none)
    else (record it { current = it.current + 1 }, some (parse_at it it.current))

unfoldable pub size_hint : ProgramHeaderIter → ℕ × Option ℕ
size_hint it = let remaining = it.count - it.current in (remaining, some remaining)
