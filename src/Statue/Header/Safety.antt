-- ===== src/Statue/Header/Safety.antt =====
-- Parsing a header or a file never indexes the input out of range, whatever the bytes are.
use prisma_os.Base.{ℕ, ◌+◌, ◌≤◌, ◌≡◌, Bool, List, leb, ◌==◌, length, arith, leb→le}
use prisma_os.Base.Bytes.{same_bytes}
use prisma_os.Statue.Error.{buffer_too_small, invalid_magic, unsupported_version, invalid_header}
use prisma_os.Statue.Parse.{require, byte_at, read_bytes, read_u16, read_u32, read_u64, Safe}
use prisma_os.Statue.Parse.Safety.{
  Safe-bind, Safe-require, require-Safe, byte_at-Safe, read_bytes-Safe, read_u16-Safe,
  read_u32-Safe, read_u64-Safe,
}
use prisma_os.Statue.Header.{
  elf_magic, ElfClass, elf32, elf64, ElfHeader, class_of, encoding_of, file_type_of, machine_of,
  is_little, header_size, flags_offset, parse_ident, parse_addresses, parse_header, check_table,
  check_programs, check_sections, parse_file,
}

class_of-Safe : (n : ℕ) → Safe (class_of n)
class_of-Safe n = ground arith

encoding_of-Safe : (n : ℕ) → Safe (encoding_of n)
encoding_of-Safe n = ground arith

file_type_of-Safe : (n : ℕ) → Safe (file_type_of n)
file_type_of-Safe n = ground arith

machine_of-Safe : (n : ℕ) → Safe (machine_of n)
machine_of-Safe n = ground arith

parse_ident-Safe : (input : List ℕ) → Safe (parse_ident input)
unfolding parse_ident
parse_ident-Safe input = Safe-require (leb 16 (length input)) buffer_too_small _ λ long.
    let room = leb→le 16 (length input) long in
    Safe-bind (read_bytes input 0 4) _ (read_bytes-Safe input 0 4 (omega arith)) λ magic.
      Safe-bind (require (same_bytes magic elf_magic) invalid_magic) _ (require-Safe _ _) λ _.
        Safe-bind (byte_at input 4) _ (byte_at-Safe input 4 (omega arith)) λ class_byte.
          Safe-bind (class_of class_byte) _ (class_of-Safe class_byte) λ elf_class.
            Safe-bind (byte_at input 5) _ (byte_at-Safe input 5 (omega arith)) λ encoding_byte.
              Safe-bind (encoding_of encoding_byte) _ (encoding_of-Safe encoding_byte) λ encoding.
                Safe-bind (byte_at input 6) _ (byte_at-Safe input 6 (omega arith)) λ version.
                  Safe-bind (require (version == 1) unsupported_version) _ (require-Safe _ _) λ _.
                    Safe-bind (byte_at input 7) _ (byte_at-Safe input 7 (omega arith)) λ osabi.
                      Safe-bind (byte_at input 8) _ (byte_at-Safe input 8 (omega arith)) λ abi.
                        Safe-bind (read_bytes input 9 7) _ (read_bytes-Safe input 9 7 (omega arith))
                          λ padding. tt

parse_addresses-Safe :
    (input : List ℕ) (c : ElfClass) (le : Bool)
    → header_size c ≤ length input
    → Safe (parse_addresses input c le)
unfolding parse_addresses
parse_addresses-Safe input elf32 le h =
    Safe-bind (read_u32 input 24 le) _ (read_u32-Safe input 24 le (omega arith)) λ entry.
      Safe-bind (read_u32 input 28 le) _ (read_u32-Safe input 28 le (omega arith)) λ phoff.
        Safe-bind (read_u32 input 32 le) _ (read_u32-Safe input 32 le (omega arith)) λ shoff. tt
parse_addresses-Safe input elf64 le h =
    Safe-bind (read_u64 input 24 le) _ (read_u64-Safe input 24 le (omega arith)) λ entry.
      Safe-bind (read_u64 input 32 le) _ (read_u64-Safe input 32 le (omega arith)) λ phoff.
        Safe-bind (read_u64 input 40 le) _ (read_u64-Safe input 40 le (omega arith)) λ shoff. tt

header_room : (c : ElfClass) → (flags_offset c + 16 ≡ header_size c) × (52 ≤ header_size c)
header_room elf32 = omega arith
header_room elf64 = omega arith

parse_header-Safe : (input : List ℕ) → Safe (parse_header input)
unfolding parse_header
parse_header-Safe input = Safe-bind (parse_ident input) _ (parse_ident-Safe input) λ ident.
    let le = is_little ident.encoding in
    let at = flags_offset ident.elf_class in
    let fields = header_room ident.elf_class in
    Safe-require (leb (header_size ident.elf_class) (length input)) buffer_too_small _ λ long.
      let room = leb→le (header_size ident.elf_class) (length input) long in
      Safe-bind (read_u16 input 16 le) _ (read_u16-Safe input 16 le (omega arith)) λ type_word.
        Safe-bind (file_type_of type_word) _ (file_type_of-Safe type_word) λ file_type.
          Safe-bind (read_u16 input 18 le) _ (read_u16-Safe input 18 le (omega arith)) λ word.
            Safe-bind (machine_of word) _ (machine_of-Safe word) λ machine.
              Safe-bind (read_u32 input 20 le) _ (read_u32-Safe input 20 le (omega arith))
                λ version.
                  Safe-bind (require (version == 1) unsupported_version) _ (require-Safe _ _) λ _.
                    Safe-bind (parse_addresses input ident.elf_class le) _
                      (parse_addresses-Safe input ident.elf_class le room)
                      λ addresses.
                        Safe-bind (read_u32 input at le) _ (read_u32-Safe input at le (omega arith))
                          λ flags.
                            Safe-bind (read_u16 input (at + 4) le) _
                              (read_u16-Safe input (at + 4) le (omega arith))
                              λ ehsize.
                                Safe-bind (read_u16 input (at + 6) le) _
                                  (read_u16-Safe input (at + 6) le (omega arith))
                                  λ phentsize.
                                    Safe-bind (read_u16 input (at + 8) le) _
                                      (read_u16-Safe input (at + 8) le (omega arith))
                                      λ phnum.
                                        Safe-bind (read_u16 input (at + 10) le) _
                                          (read_u16-Safe input (at + 10) le (omega arith))
                                          λ shentsize.
                                            Safe-bind (read_u16 input (at + 12) le) _
                                              (read_u16-Safe input (at + 12) le (omega arith))
                                              λ shnum.
                                                Safe-bind (read_u16 input (at + 14) le) _
                                                  (read_u16-Safe input (at + 14) le (omega arith))
                                                  λ shstrndx. tt

check_table-Safe : (start count size limit : ℕ) → Safe (check_table start count size limit)
unfolding check_table
check_table-Safe start count size limit = ground arith

check_programs-Safe : (h : ElfHeader) (limit : ℕ) → Safe (check_programs h limit)
unfolding check_programs
check_programs-Safe h limit = ground arith

check_sections-Safe : (h : ElfHeader) (limit : ℕ) → Safe (check_sections h limit)
unfolding check_sections
check_sections-Safe h limit = ground arith

-- Parsing a file returns a file or an error for every list of bytes: no index is out of range.
pub parse_file-Safe : (input : List ℕ) → Safe (parse_file input)
unfolding parse_file
parse_file-Safe input = Safe-bind (parse_header input) _ (parse_header-Safe input) λ h.
    Safe-bind (require (h.ehsize == header_size h.ident.elf_class) invalid_header) _
      (require-Safe _ _)
      λ _. Safe-bind (check_programs h (length input)) _ (check_programs-Safe h (length input)) λ _.
        Safe-bind (check_sections h (length input)) _ (check_sections-Safe h (length input)) λ _. tt
