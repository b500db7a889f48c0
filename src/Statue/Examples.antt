-- ===== src/Statue/Examples.antt =====
-- Theorems of the ELF parsers at concrete inputs.
use prisma_os.Base.{ℕ, ◌*◌, ◌≡◌, refl, true, List, [], ◌∷◌, ◌++◌, replicate, arith}
use prisma_os.Base.Bytes.{from_le_bytes}
use prisma_os.Statue.Parse.{ok, ◌>>=◌, Safe, read_u16, read_u32, read_u64}
use prisma_os.Statue.Header.{
  elf64, little_endian, executable, x86_64, ElfFile, ElfHeader, parse_ident, parse_addresses,
  parse_header, parse_file,
}
use prisma_os.Statue.Header.Safety.{parse_file-Safe}
use prisma_os.Statue.Header.Tables.{Parsed, parse_file-Parsed}
use prisma_os.Statue.Program.{ProgramHeader, load, get, new}
use prisma_os.Statue.Program.Entries.{Reads, get-new}
use prisma_os.Statue.Symbol.{SymbolIter}
use prisma_os.Statue.Symbol
use prisma_os.Statue.Symbol.Entries.{Decodes, get-new_symbols}

-- A file with one program header and no section.
abbrev elf_bytes : List ℕ
elf_bytes =
    (0x7f ∷ b'E' ∷ b'L' ∷ b'F' ∷ 2 ∷ 1 ∷ 1 ∷ [])
    ++ (replicate 9 0
        ++ ((2 ∷ 0 ∷ 62 ∷ 0 ∷ 1 ∷ 0 ∷ 0 ∷ 0 ∷ [])
            ++ (replicate 8 0
                ++ ((64 ∷ [])
                    ++ (replicate 19 0
                        ++ ((64 ∷ 0 ∷ 56 ∷ 0 ∷ 1 ∷ 0 ∷ 64 ∷ 0 ∷ 0 ∷ 0 ∷ 0 ∷ 0 ∷ 1 ∷ [])
                            ++ replicate 55 0))))))

abbrev elf_header : ElfHeader
elf_header = record {
  ident = record {
    magic = 0x7f ∷ b'E' ∷ b'L' ∷ b'F' ∷ [];
    elf_class = elf64;
    encoding = little_endian;
    version = 1;
    osabi = 0;
    abiversion = 0;
    padding = replicate 7 0;
  };
  file_type = executable;
  machine = x86_64;
  version = 1;
  entry = 0;
  phoff = 64;
  shoff = 0;
  flags = 0;
  ehsize = 64;
  phentsize = 56;
  phnum = 1;
  shentsize = 64;
  shnum = 0;
  shstrndx = 0;
}

abbrev elf_file : ElfFile
elf_file = record { input = elf_bytes; header = elf_header }

parse_file-Safe_example : Safe (parse_file elf_bytes)
parse_file-Safe_example = parse_file-Safe elf_bytes

elf_file_lem : parse_file elf_bytes ≡ ok elf_file
unfolding parse_file parse_header parse_ident parse_addresses read_u16 read_u32 read_u64
    from_le_bytes
elf_file_lem = refl

parse_file-Parsed_example : Parsed elf_bytes elf_file
parse_file-Parsed_example = parse_file-Parsed elf_bytes elf_file elf_file_lem

get-new_example : Reads (new elf_file >>= λ it. get it 0)
get-new_example = get-new elf_bytes elf_file 0 parse_file-Parsed_example (omega arith) (omega arith)

-- A segment of 100 bytes at the offset 4096 of a file of 8192 bytes.
abbrev segment : ProgramHeader
segment = record {
  segment_type = load;
  flags = 5;
  offset = 4096;
  vaddr = 0x401000;
  paddr = 0x401000;
  filesz = 100;
  memsz = 200;
  align = 4096;
}

-- A table of two symbols.
abbrev symbols : SymbolIter
symbols = record {
  input = replicate 48 0;
  count = 2;
  current = 0;
  entry_size = 24;
  wide = true;
  little_endian = true;
}

get-new_symbols_example : (2 * 24 ≡ 48) × Decodes (Symbol.get symbols 1)
unfolding Symbol.new
get-new_symbols_example =
    get-new_symbols (replicate 48 0) true true symbols 1 refl (omega arith) (omega arith)
