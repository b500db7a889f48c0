-- ===== src/Galleon/Mft.antt =====
-- crates/galleon2/src/mft.rs: the records of the master file table and their attributes, in memory.
-- A string is the list of its UTF-8 bytes. Arithmetic wraps, as in a release build.
pub mod Bytes
pub mod Attributes
pub mod Writing
pub mod Reading
pub mod Records
pub mod Misread
pub mod Endless
pub mod Shrunk
pub mod Ending
pub mod Manager
use prisma_os.Base.{
  ℕ, ◌+◌, ◌*◌, ◌%◌, ◌^◌, Bool, true, false, ◌&&◌, List, [], ◌∷◌, ◌++◌, leb, ◌==◌, length,
}
use prisma_os.Base.Bytes.{same_bytes}
use prisma_os.Base.Words.{add64, mul64}
use prisma_os.Galleon.Run.{ClusterRun}
use prisma_os.Galleon.FileName.{or_if, has_bit}

abbrev pub mft_record_size : ℕ
mft_record_size = 1024

pub record RecordFlags : Type 0 where
  pub in_use : Bool
  pub is_directory : Bool
  pub has_view_index : Bool

unfoldable pub record_flags_new : RecordFlags
record_flags_new = record { in_use = false; is_directory = false; has_view_index = false }

unfoldable pub to_u16 : RecordFlags → ℕ
to_u16 f = or_if f.has_view_index 4 (or_if f.is_directory 2 (or_if f.in_use 1 0))

unfoldable pub from_u16 : ℕ → RecordFlags
from_u16 value = record {
  in_use = has_bit value 1;
  is_directory = has_bit value 2;
  has_view_index = has_bit value 4;
}

pub record MftRecordHeader : Type 0 where
  pub signature : List ℕ
  pub update_sequence_offset : ℕ
  pub update_sequence_size : ℕ
  pub log_file_sequence_number : ℕ
  pub sequence_number : ℕ
  pub hard_link_count : ℕ
  pub first_attribute_offset : ℕ
  pub flags : ℕ
  pub bytes_in_use : ℕ
  pub bytes_allocated : ℕ
  pub base_file_record : ℕ
  pub next_attribute_id : ℕ

abbrev pub file_signature : List ℕ
file_signature = b'F' ∷ b'I' ∷ b'L' ∷ b'E' ∷ []

unfoldable pub header_new : ℕ → MftRecordHeader
unfolding record_flags_new to_u16
header_new record_number = record {
  signature = file_signature;
  update_sequence_offset = 48;
  update_sequence_size = 3;
  log_file_sequence_number = 0;
  sequence_number = 1;
  hard_link_count = 1;
  first_attribute_offset = 56;
  flags = to_u16 record_flags_new;
  bytes_in_use = 56;
  bytes_allocated = mft_record_size;
  base_file_record = record_number;
  next_attribute_id = 0;
}

unfoldable pub header_is_valid : MftRecordHeader → Bool
header_is_valid h =
    same_bytes h.signature file_signature
    && leb h.bytes_in_use h.bytes_allocated
    && h.bytes_allocated == mft_record_size

unfoldable pub get_flags : MftRecordHeader → RecordFlags
unfolding from_u16
get_flags h = from_u16 h.flags

unfoldable pub set_flags : RecordFlags → MftRecordHeader → MftRecordHeader
unfolding to_u16
set_flags f h = record h { flags = to_u16 f }

pub data AttributeType : Type 0 where
  standard_information file_name plain_data index_root index_allocation bitmap : AttributeType

-- `attr_type as u32`
abbrev pub type_code : AttributeType → ℕ
type_code standard_information = 0x10
type_code file_name = 0x30
type_code plain_data = 0x80
type_code index_root = 0x90
type_code index_allocation = 0xa0
type_code bitmap = 0xb0

pub record AttributeHeader : Type 0 where
  pub attr_type : ℕ
  pub attr_length : ℕ
  pub is_non_resident : Bool
  pub name_length : ℕ
  pub name_offset : ℕ
  pub flags : ℕ
  pub attribute_id : ℕ

-- A non-resident attribute has its runs, and its allocated, real and initialized size.
pub data AttributeData : Type 0 where
  resident : List ℕ → AttributeData
  non_resident : List ClusterRun → ℕ → ℕ → ℕ → AttributeData

pub record Attribute : Type 0 where
  pub header : AttributeHeader
  pub name : List ℕ
  pub content : AttributeData

unfoldable pub new_resident : AttributeType → List ℕ → Attribute
new_resident attr_type bytes = record {
  header = record {
    attr_type = type_code attr_type;
    attr_length = (24 + length bytes % 2 ^ 32) % 2 ^ 32;
    is_non_resident = false;
    name_length = 0;
    name_offset = 24;
    flags = 0;
    attribute_id = 0;
  };
  name = [];
  content = resident bytes;
}

-- The bytes of the runs' clusters.
unfoldable pub run_sizes : List ClusterRun → ℕ
run_sizes [] = 0
run_sizes (r ∷ rs) = add64 (mul64 r.cluster_count 4096) (run_sizes rs)

unfoldable pub new_non_resident : AttributeType → List ClusterRun → ℕ → Attribute
unfolding run_sizes
new_non_resident attr_type runs real_size = record {
  header = record {
    attr_type = type_code attr_type;
    attr_length = 64;
    is_non_resident = true;
    name_length = 0;
    name_offset = 64;
    flags = 0;
    attribute_id = 0;
  };
  name = [];
  content = non_resident runs (run_sizes runs) real_size real_size;
}

unfoldable pub get_size : Attribute → ℕ
get_size a = a.header.attr_length

pub record MftRecord : Type 0 where
  pub header : MftRecordHeader
  pub attributes : List Attribute
  pub record_number : ℕ

unfoldable pub record_new : ℕ → MftRecord
unfolding header_new
record_new record_number = record {
  header = header_new record_number;
  attributes = [];
  record_number = record_number;
}

unfoldable pub total_size : ℕ → List Attribute → ℕ
unfolding get_size
total_size total [] = total
total_size total (a ∷ rest) = total_size ((total + get_size a) % 2 ^ 32) rest

unfoldable pub update_bytes_in_use : MftRecord → MftRecord
unfolding total_size
update_bytes_in_use r = record r {
  header = record r.header {
    bytes_in_use = (total_size r.header.first_attribute_offset r.attributes + 4) % 2 ^ 32;
  };
}

unfoldable pub add_attribute : Attribute → MftRecord → MftRecord
unfolding update_bytes_in_use
add_attribute a r = update_bytes_in_use (record r {
  attributes = r.attributes ++ (a ∷ []);
  header = record r.header { next_attribute_id = (r.header.next_attribute_id + 1) % 2 ^ 16 };
})
