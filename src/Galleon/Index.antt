-- ===== src/Galleon/Index.antt =====
-- crates/galleon2/src/btree.rs: the entries of the directory index, the header of a node, and their
-- bytes. A key is the list of its UTF-8 bytes.
pub mod Node
pub mod Reading
pub mod Bytes
pub mod Drive
pub mod Tree
mod Examples
use prisma_os.Base.{
  ℕ, zero, suc, ◌+◌, ◌-◌, ◌%◌, ◌^◌, Bool, true, false, not, ◌&&◌, List, [], ◌∷◌, ◌++◌, Option, none,
  some, ltb, leb, ◌==◌, if◌then◌else◌, length, get_or, take, drop, replicate,
}
use prisma_os.Base.Bytes.{le_bytes, from_le_bytes, same_bytes}
use prisma_os.Base.Fields.{slice_at}
use prisma_os.Galleon.Error.{FilesystemError, FilesystemResult, ok, err}
use prisma_os.Galleon.Journal.{pad}
use prisma_os.Galleon.FileName.{FileName, has_bit, or_if}
use prisma_os.Galleon.FileName as Name

abbrev pub index_node_size : ℕ
index_node_size = 4096

abbrev pub index_entry_header_size : ℕ
index_entry_header_size = 16

pub record IndexEntryFlags : Type 0 where
  pub has_sub_node : Bool
  pub is_last_entry : Bool

unfoldable pub flags_new : IndexEntryFlags
flags_new = record { has_sub_node = false; is_last_entry = false }

unfoldable pub to_u8 : IndexEntryFlags → ℕ
to_u8 f = or_if f.is_last_entry 2 (or_if f.has_sub_node 1 0)

unfoldable pub from_u8 : ℕ → IndexEntryFlags
from_u8 value = record { has_sub_node = has_bit value 1; is_last_entry = has_bit value 2 }

pub record IndexEntry : Type 0 where
  pub file_record_number : ℕ
  pub entry_length : ℕ
  pub key_length : ℕ
  pub flags : IndexEntryFlags
  pub file_name : Option FileName
  pub sub_node_vcn : Option ℕ
  pub key : List ℕ

-- Lengths are 16-bit numbers, and their sums wrap.
unfoldable pub entry_new_leaf : ℕ → FileName → IndexEntry
unfolding flags_new
entry_new_leaf file_record_number file_name =
    let key_length = length file_name.name % 2 ^ 16 in
    record {
      file_record_number = file_record_number;
      entry_length =
          (index_entry_header_size + key_length + length (Name.serialize file_name) % 2 ^ 16)
          % 2 ^ 16;
      key_length = key_length;
      flags = flags_new;
      file_name = some file_name;
      sub_node_vcn = none;
      key = file_name.name;
    }

unfoldable pub entry_new_internal : List ℕ → ℕ → IndexEntry
unfolding flags_new
entry_new_internal key sub_node_vcn =
    let key_length = length key % 2 ^ 16 in
    record {
      file_record_number = 0;
      entry_length = (index_entry_header_size + key_length + 8) % 2 ^ 16;
      key_length = key_length;
      flags = record flags_new { has_sub_node = true };
      file_name = none;
      sub_node_vcn = some sub_node_vcn;
      key = key;
    }

unfoldable pub new_end_marker : IndexEntry
unfolding flags_new
new_end_marker = record {
  file_record_number = 0;
  entry_length = index_entry_header_size;
  key_length = 0;
  flags = record flags_new { is_last_entry = true };
  file_name = none;
  sub_node_vcn = none;
  key = [];
}

-- The parts that only some entries have.
abbrev pub name_bytes : Option FileName → List ℕ
name_bytes none = []
name_bytes (some file_name) = Name.serialize file_name

abbrev pub vcn_bytes : Option ℕ → List ℕ
vcn_bytes none = []
vcn_bytes (some vcn) = le_bytes 8 vcn

abbrev pub entry_fields : IndexEntry → List ℕ → List ℕ
entry_fields e after =
    le_bytes 8 e.file_record_number
    ++ (le_bytes 2 e.entry_length
        ++ (le_bytes 2 e.key_length
            ++ (to_u8 e.flags
                ∷ 0
                ∷ (e.key ++ (name_bytes e.file_name ++ (vcn_bytes e.sub_node_vcn ++ after))))))

unfoldable pub entry_serialize : IndexEntry → List ℕ
unfolding pad
entry_serialize e = pad 8 (entry_fields e [])

-- What follows the key in an entry of the given length, at the given offset.
abbrev pub read_rest : List ℕ → IndexEntryFlags → ℕ → ℕ → Option FileName × Option ℕ
read_rest input flags offset entry_length =
    if flags.has_sub_node
    then (if leb (offset + 8) entry_length
        then (none, some (from_le_bytes (slice_at input offset 8)))
        else (none, none))
    else if not flags.is_last_entry && ltb offset entry_length
    then (elim (Name.deserialize (slice_at input offset (entry_length - offset))) [
      | ok file_name ↦ (some file_name, none)
      | err e ↦ (none, none)
    ])
    else (none, none)

-- The outcome of reading from bytes, where a slice out of bounds panics.
pub data Result {ℓ} (A : Type ℓ) : Type ℓ where
  read : A → Result A
  refused : FilesystemError → Result A
  panic : Result A

-- `lossy` is `String::from_utf8_lossy`.
module _ (lossy : List ℕ → List ℕ) where
  -- With the number of bytes that the entry takes.
  unfoldable pub entry_deserialize : List ℕ → Result (IndexEntry × ℕ)
  unfolding from_u8
  entry_deserialize input =
      let entry_length = from_le_bytes (slice_at input 8 2) in
      let key_length = from_le_bytes (slice_at input 10 2) in
      let flags = from_u8 (get_or input 12 0) in
      let offset = index_entry_header_size + key_length in
      if ltb (length input) index_entry_header_size
      then refused FilesystemError.invalid_parameter
      else if ltb (length input) entry_length
      then refused FilesystemError.invalid_parameter
      else if ltb (length input) offset
      then panic
      else let (file_name, sub_node_vcn) = read_rest input flags offset entry_length in
        read (
          record {
            file_record_number = from_le_bytes (slice_at input 0 8);
            entry_length = entry_length;
            key_length = key_length;
            flags = flags;
            file_name = file_name;
            sub_node_vcn = sub_node_vcn;
            key = lossy (slice_at input index_entry_header_size key_length);
          },
          entry_length,
        )

pub record IndexHeader : Type 0 where
  pub signature : List ℕ
  pub entries_offset : ℕ
  pub index_length : ℕ
  pub allocated_size : ℕ
  pub flags : ℕ
  pub sequence_number : ℕ

abbrev pub index_signature : List ℕ
index_signature = b'I' ∷ b'N' ∷ b'D' ∷ b'X' ∷ []

unfoldable pub header_new_leaf : IndexHeader
header_new_leaf = record {
  signature = index_signature;
  entries_offset = 32;
  index_length = 32;
  allocated_size = index_node_size;
  flags = 0;
  sequence_number = 1;
}

unfoldable pub header_new_internal : IndexHeader
unfolding header_new_leaf
header_new_internal = record header_new_leaf { flags = 1 }

-- The fields in their order, in a buffer of 32 zeros.
abbrev pub header_fields : IndexHeader → List ℕ → List ℕ
header_fields h after =
    h.signature
    ++ (le_bytes 4 h.entries_offset
        ++ (le_bytes 4 h.index_length
            ++ (le_bytes 4 h.allocated_size
                ++ (h.flags ∷ (le_bytes 2 h.sequence_number ++ after)))))

unfoldable pub header_serialize : IndexHeader → List ℕ
header_serialize h = header_fields h (replicate 13 0)

unfoldable pub header_deserialize : List ℕ → FilesystemResult IndexHeader
header_deserialize input =
    if ltb (length input) 32
    then err FilesystemError.invalid_parameter
    else if not (same_bytes (slice_at input 0 4) index_signature)
    then err FilesystemError.invalid_parameter
    else ok (record {
      signature = slice_at input 0 4;
      entries_offset = from_le_bytes (slice_at input 4 4);
      index_length = from_le_bytes (slice_at input 8 4);
      allocated_size = from_le_bytes (slice_at input 12 4);
      flags = get_or input 16 0;
      sequence_number = from_le_bytes (slice_at input 17 2);
    })

abbrev pub is_leaf : IndexHeader → Bool
is_leaf h = h.flags == 0
