-- ===== src/Statue/Header/Tables.antt =====
-- What a file that was parsed guarantees of its tables.
use prisma_os.Base.{
  ℕ, ◌+◌, ◌*◌, ◌≤◌, ◌<◌, ◌≡◌, ◌⊎◌, Bool, true, false, List, ◌==◌, length, arith, refl, subst,
}
use prisma_os.Statue.Error.{ElfError}
use prisma_os.Statue.Parse.{Parse, ok, err, panic, ◌>>=◌, require}
use prisma_os.Statue.Header.{
  ElfHeader, ElfFile, header_size, program_entry_size, section_entry_size, parse_header,
  check_programs, check_sections, parse_file,
}

-- A table of at least one entry has the class's entry size and lies in the input.
abbrev pub TableFits : ℕ → ℕ → ℕ → ℕ → ℕ → Type 0
TableFits start count size expected limit =
    (count ≡ 0) ⊎ ((size ≡ expected) × (start + count * size ≤ limit))

-- The header was read from the input, has the size of its class, both tables lie in the input, and
-- there are no sections or the string table's index is that of a section, or zero.
pub record Parsed (input : List ℕ) (f : ElfFile) : Type 0 where
  pub same_input : f.input ≡ input
  pub from_header : parse_header input ≡ ok f.header
  pub sized : f.header.ehsize ≡ header_size f.header.ident.elf_class
  pub programs :
      TableFits f.header.phoff f.header.phnum f.header.phentsize
        (program_entry_size f.header.ident.elf_class)
        (length input)
  pub sections :
      TableFits f.header.shoff f.header.shnum f.header.shentsize
        (section_entry_size f.header.ident.elf_class)
        (length input)
  pub strings :
      (f.header.shnum ≡ 0) ⊎ ((f.header.shstrndx ≡ 0) ⊎ (f.header.shstrndx < f.header.shnum))

bind-ok :
    {A B : Type 0} (m : Parse A) (f : A → Parse B) (b : B)
    → (m >>= f) ≡ ok b
    → (a : A) × (m ≡ ok a) × (f a ≡ ok b)
bind-ok (ok a) f b e = (a, refl, e)
bind-ok (err x) f b e = cc
bind-ok panic f b e = cc

require-ok :
    {B : Type 0} (t : Bool) (x : ElfError) (k : Parse B) (b : B)
    → (require t x >>= λ _. k) ≡ ok b
    → (t ≡ true) × (k ≡ ok b)
require-ok true x k b e = (refl, e)
require-ok false x k b e = cc

check_programs-ok :
    (h : ElfHeader) (limit : ℕ) (u : Unit {0})
    → check_programs h limit ≡ ok u
    → TableFits h.phoff h.phnum h.phentsize (program_entry_size h.ident.elf_class) limit
unfolding check_programs
check_programs-ok h limit u e = ground arith

check_sections-ok :
    (h : ElfHeader) (limit : ℕ) (u : Unit {0})
    → check_sections h limit ≡ ok u
    → TableFits h.shoff h.shnum h.shentsize (section_entry_size h.ident.elf_class) limit
      × ((h.shnum ≡ 0) ⊎ ((h.shstrndx ≡ 0) ⊎ (h.shstrndx < h.shnum)))
unfolding check_sections
check_sections-ok h limit u e = ground arith

-- A file that is parsed has the header of its class; its program header table and its section header
-- table have no entries, or have the entry size of the class and lie inside the input; and it has no
-- sections, or its string table index is zero or below the number of sections.
pub parse_file-Parsed : (input : List ℕ) (f : ElfFile) → parse_file input ≡ ok f → Parsed input f
unfolding parse_file
parse_file-Parsed input f e =
    let (h, from_header, e₁) = bind-ok (parse_header input) _ f e in
    let (sized, e₂) = require-ok (h.ehsize == header_size h.ident.elf_class) _ _ f e₁ in
    let (u, programs, e₃) = bind-ok (check_programs h (length input)) _ f e₂ in
    let (v, sections, e₄) = bind-ok (check_sections h (length input)) _ f e₃ in
    let same : record { input = input; header = h } ≡ f = ground arith in
    let (tables, strings) = check_sections-ok h (length input) v sections in
    subst (Parsed input) same (record {
      same_input = refl;
      from_header = from_header;
      sized = ground arith;
      programs = check_programs-ok h (length input) u programs;
      sections = tables;
      strings = strings;
    })
