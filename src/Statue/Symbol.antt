-- ===== src/Statue/Symbol.antt =====
-- crates/Statue/src/symbol.rs: the entries of a symbol table and the iterator over them. The fields
-- `info` and `other` are bytes, so shifts and masks are quotients and remainders.
pub mod Entries
use prisma_os.Base.{
  ℕ, ◌+◌, ◌*◌, ◌-◌, ◌/◌, ◌%◌, ◌≡◌, Bool, true, false, List, Option, none, some, ltb, leb, ◌==◌,
  if◌then◌else◌, length,
}
use prisma_os.Base.Words.{add64, mul64}
use prisma_os.Statue.Error.{ElfError, buffer_too_small, invalid_symbol, index_out_of_bounds}
use prisma_os.Statue.Parse.{
  Parse, ok, err, panic, ◌>>=◌, ◌>>◌, require, byte_at, read_u16, read_u32, read_u64,
}

pub data SymbolBinding : Type 0 where
  local global weak : SymbolBinding

pub data SymbolType : Type 0 where
  no_type object func section file common_data tls : SymbolType

pub data SymbolVisibility : Type 0 where
  default_visibility internal hidden protected : SymbolVisibility

pub data SymbolSection : Type 0 where
  undefined absolute common : SymbolSection
  index : ℕ → SymbolSection

unfoldable pub from_raw : ℕ → SymbolSection
from_raw n =
    if n == 0
    then undefined
    else if n == 0xfff1
    then absolute
    else if n == 0xfff2
    then common
    else index n

unfoldable pub raw : SymbolSection → ℕ
raw undefined = 0
raw absolute = 0xfff1
raw common = 0xfff2
raw (index n) = n

pub record Symbol : Type 0 where
  pub name : ℕ
  pub binding : SymbolBinding
  pub symbol_type : SymbolType
  pub visibility : SymbolVisibility
  pub value : ℕ
  pub size : ℕ
  pub section_index : SymbolSection

unfoldable pub binding_of : ℕ → Parse SymbolBinding
binding_of n =
    if n == 0
    then ok local
    else if n == 1
    then ok global
    else if n == 2
    then ok weak
    else err invalid_symbol

unfoldable pub symbol_type_of : ℕ → Parse SymbolType
symbol_type_of n =
    if n == 0
    then ok no_type
    else if n == 1
    then ok object
    else if n == 2
    then ok func
    else if n == 3
    then ok section
    else if n == 4
    then ok file
    else if n == 5
    then ok common_data
    else if n == 6
    then ok tls
    else err invalid_symbol

unfoldable pub visibility_of : ℕ → Parse SymbolVisibility
visibility_of n =
    if n == 0
    then ok default_visibility
    else if n == 1
    then ok internal
    else if n == 2
    then ok hidden
    else if n == 3
    then ok protected
    else err invalid_symbol

-- The end of both branches of `Symbol::parse`: the fields that were read, decoded.
unfoldable pub decode : ℕ → ℕ → ℕ → ℕ → ℕ → ℕ → Parse Symbol
unfolding binding_of symbol_type_of visibility_of
decode name info other shndx value size = do
  binding ← binding_of (info / 16)
  symbol_type ← symbol_type_of (info % 16)
  visibility ← visibility_of (other % 4)
  ok (record {
    name = name;
    binding = binding;
    symbol_type = symbol_type;
    visibility = visibility;
    value = value;
    size = size;
    section_index = from_raw shndx;
  })

abbrev pub symbol_size : Bool → ℕ
symbol_size true = 24
symbol_size false = 16

unfoldable pub parse_fields : List ℕ → ℕ → Bool → Bool → Parse Symbol
unfolding decode
parse_fields input at true le = do
  name ← read_u32 input at le
  info ← byte_at input (at + 4)
  other ← byte_at input (at + 5)
  shndx ← read_u16 input (at + 6) le
  value ← read_u64 input (at + 8) le
  size ← read_u64 input (at + 16) le
  decode name info other shndx value size
parse_fields input at false le = do
  name ← read_u32 input at le
  value ← read_u32 input (at + 4) le
  size ← read_u32 input (at + 8) le
  info ← byte_at input (at + 12)
  other ← byte_at input (at + 13)
  shndx ← read_u16 input (at + 14) le
  decode name info other shndx value size

unfoldable pub parse : List ℕ → ℕ → Bool → Bool → Parse Symbol
unfolding parse_fields
parse input at wide le = do
  require (leb (add64 at (symbol_size wide)) (length input)) buffer_too_small
  parse_fields input at wide le

abbrev pub is_undefined : Symbol → Bool
is_undefined s = elim s.section_index [
  | undefined ↦ true
  | absolute ↦ false
  | common ↦ false
  | index n ↦ false
]

abbrev pub is_global : Symbol → Bool
is_global s = elim s.binding [ local ↦ false | global ↦ true | weak ↦ false ]

abbrev pub is_weak : Symbol → Bool
is_weak s = elim s.binding [ local ↦ false | global ↦ false | weak ↦ true ]

pub record SymbolIter : Type 0 where
  pub input : List ℕ
  pub count : ℕ
  pub current : ℕ
  pub entry_size : ℕ
  pub wide : Bool
  pub little_endian : Bool

unfoldable pub new : List ℕ → Bool → Bool → Parse SymbolIter
new section_data wide le = do
  require (length section_data % symbol_size wide == 0) invalid_symbol
  ok (record {
    input = section_data;
    count = length section_data / symbol_size wide;
    current = 0;
    entry_size = symbol_size wide;
    wide = wide;
    little_endian = le;
  })

unfoldable pub parse_at : SymbolIter → ℕ → Parse Symbol
unfolding parse
parse_at it i = parse it.input (mul64 i it.entry_size) it.wide it.little_endian

unfoldable pub get : SymbolIter → ℕ → Parse Symbol
unfolding parse_at
get it i = if leb it.count i then err index_out_of_bounds else parse_at it i

unfoldable pub next : SymbolIter → SymbolIter × Option (Parse Symbol)
unfolding parse_at
next it =
    if leb it.count it.current
    then (it, none)
    else (record it { current = it.current + 1 }, some (parse_at it it.current))

unfoldable pub size_hint : SymbolIter → ℕ × Option ℕ
size_hint it = let remaining = it.count - it.current in (remaining, some remaining)
