-- ===== src/Statue/Program/Entries.antt =====
-- The program headers of a parsed file can be read, and what `validate` guarantees.
use prisma_os.Base.{
  ℕ, zero, suc, ◌+◌, ◌*◌, ◌^◌, ◌%◌, ◌≤◌, ◌<◌, ◌≡◌, ◌⊎◌, inl, inr, Bool, true, false, List, leb,
  if◌then◌else◌, length, refl, arith, le→leb, sym,
}
use prisma_os.Base.Words.{add64, mul64, add64_lem}
use prisma_os.Statue.Error.{invalid_program_header}
use prisma_os.Statue.Parse.{Parse, ok, err, ◌>>=◌, read_u32, read_u64}
use prisma_os.Statue.Parse.Safety.{read_word-ok}
use prisma_os.Statue.Header.{
  ElfClass, elf32, elf64, ElfFile, is_64bit, program_entry_size, is_little,
}
use prisma_os.Statue.Header.Tables.{Parsed}
use prisma_os.Statue.Program.{
  ProgramType, ProgramHeader, program_type_of, parse_fields64, parse_fields32, entry_size_of, parse,
  validate, new, parse_at, get, has_data, file_range,
}

-- A value, or the error of an unknown segment type.
abbrev pub Reads {ℓ} : {A : Type ℓ} → Parse A → Type ℓ
Reads {A} p = ((a : A) × (p ≡ ok a)) ⊎ (p ≡ err invalid_program_header)

read_u32-ok :
    (input : List ℕ) (at : ℕ) (le : Bool)
    → at + 4 ≤ length input
    → (x : ℕ) × (read_u32 input at le ≡ ok x)
unfolding read_u32
read_u32-ok input at le h = read_word-ok 4 input at le h

read_u64-ok :
    (input : List ℕ) (at : ℕ) (le : Bool)
    → at + 8 ≤ length input
    → (x : ℕ) × (read_u64 input at le ≡ ok x)
unfolding read_u64
read_u64-ok input at le h = read_word-ok 8 input at le h

module _ (input : List ℕ) (at : ℕ) (le : Bool) (t : ProgramType) where
  parse_fields64-ok :
      at + 56 ≤ length input → (h : ProgramHeader) × (parse_fields64 input at le t ≡ ok h)
  unfolding parse_fields64
  parse_fields64-ok room =
      let (a, ea) = read_u32-ok input (at + 4) le (omega arith) in
      let (b, eb) = read_u64-ok input (at + 8) le (omega arith) in
      let (c, ec) = read_u64-ok input (at + 16) le (omega arith) in
      let (d, ed) = read_u64-ok input (at + 24) le (omega arith) in
      let (e, ee) = read_u64-ok input (at + 32) le (omega arith) in
      let (f, ef) = read_u64-ok input (at + 40) le (omega arith) in
      let (g, eg) = read_u64-ok input (at + 48) le (omega arith) in
      (
        record {
          segment_type = t;
          flags = a;
          offset = b;
          vaddr = c;
          paddr = d;
          filesz = e;
          memsz = f;
          align = g;
        },
        rw (ea, eb, ec, ed, ee, ef, eg),
      )

  parse_fields32-ok :
      at + 32 ≤ length input → (h : ProgramHeader) × (parse_fields32 input at le t ≡ ok h)
  unfolding parse_fields32
  parse_fields32-ok room =
      let (a, ea) = read_u32-ok input (at + 4) le (omega arith) in
      let (b, eb) = read_u32-ok input (at + 8) le (omega arith) in
      let (c, ec) = read_u32-ok input (at + 12) le (omega arith) in
      let (d, ed) = read_u32-ok input (at + 16) le (omega arith) in
      let (e, ee) = read_u32-ok input (at + 20) le (omega arith) in
      let (f, ef) = read_u32-ok input (at + 24) le (omega arith) in
      let (g, eg) = read_u32-ok input (at + 28) le (omega arith) in
      (
        record {
          segment_type = t;
          flags = f;
          offset = a;
          vaddr = b;
          paddr = c;
          filesz = d;
          memsz = e;
          align = g;
        },
        rw (ea, eb, ec, ed, ee, ef, eg),
      )

program_type_of-Reads : (n : ℕ) → Reads (program_type_of n)
unfolding program_type_of
program_type_of-Reads n = ground arith

fields_lem :
    (input : List ℕ) (at : ℕ) (le : Bool) (t : ProgramType) (wide : Bool)
    → at + entry_size_of wide ≤ length input
    → Reads (if wide then parse_fields64 input at le t else parse_fields32 input at le t)
fields_lem input at le t true room = inl (parse_fields64-ok input at le t room)
fields_lem input at le t false room = inl (parse_fields32-ok input at le t room)

type-room : (wide : Bool) (at limit : ℕ) → at + entry_size_of wide ≤ limit → at + 4 ≤ limit
type-room true at limit h = omega arith
type-room false at limit h = omega arith

parse_lem :
    (input : List ℕ) (at : ℕ) (wide le : Bool)
    → at + entry_size_of wide ≤ length input
    → length input < 2 ^ 64
    → Reads (parse input at wide le)
unfolding parse
parse_lem input at wide le room small =
    let fits : leb (add64 at (entry_size_of wide)) (length input) ≡ true =
      rw (add64_lem at (entry_size_of wide) (omega arith)) (le→leb _ _ room) in
    let (t, et) = read_u32-ok input at le (type-room wide at (length input) room) in
    elim (program_type_of-Reads t) [
      | inl (ty, ety) ↦ rw (fits, et, ety, ◌>>=◌) (fields_lem input at le ty wide room)
      | inr unknown ↦ inr (rw (fits, et, unknown, ◌>>=◌) refl)
    ]

entry_size_of-is_64bit : (c : ElfClass) → entry_size_of (is_64bit c) ≡ program_entry_size c
entry_size_of-is_64bit elf32 = refl
entry_size_of-is_64bit elf64 = refl

entry-inside : (i n size : ℕ) → i < n → i * size + size ≤ n * size
entry-inside zero zero size h = elim h [ ]
entry-inside (suc i) zero size h = elim h [ ]
entry-inside zero (suc n) size h = omega arith
entry-inside (suc i) (suc n) size h = omega (arith, entry-inside i n size (omega arith))

add_mul64_lem :
    (start i size : ℕ) → start + i * size < 2 ^ 64 → add64 start (mul64 i size) ≡ start + i * size
unfolding add64 mul64
add_mul64_lem start i size h = omega arith

-- In a parsed file every program header of the table can be read: it is a value, or its type is
-- unknown; no read leaves the input.
pub get-new :
    (input : List ℕ) (f : ElfFile) (index : ℕ)
    → Parsed input f
    → length input < 2 ^ 64
    → index < f.header.phnum
    → Reads (new f >>= λ it. get it index)
unfolding get new parse_at
get-new input f index parsed small h =
    let inside : leb f.header.phnum index ≡ false = ground arith in
    elim parsed.programs [
      | inl none_there ↦ let absurd : ⊥ = omega arith in elim absurd [ ]
      | inr (sized, fits) ↦
          let place = entry-inside index f.header.phnum f.header.phentsize h in
          let at = f.header.phoff + index * f.header.phentsize in
          let same = add_mul64_lem f.header.phoff index f.header.phentsize (omega arith) in
          rw (inside, parsed.same_input, same)
            (parse_lem input at (is_64bit f.header.ident.elf_class)
              (is_little f.header.ident.encoding)
              (rw (entry_size_of-is_64bit f.header.ident.elf_class, sym sized) (omega arith)) small)
    ]

-- A validated segment is no larger in the file than in memory, has its data inside the file, and
-- its address and its offset agree modulo its alignment.
pub validate-file_range :
    (h : ProgramHeader) (size : ℕ)
    → validate h size ≡ ok tt
    → (h.filesz ≤ h.memsz)
      × ((has_data h ≡ false) ⊎ (((file_range h).0 ≤ (file_range h).1) × ((file_range h).1 ≤ size)))
      × ((h.align ≤ 1) ⊎ (h.vaddr % h.align ≡ h.offset % h.align))
unfolding validate has_data file_range add64
validate-file_range h size e = ground arith
