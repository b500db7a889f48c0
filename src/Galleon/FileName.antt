-- ===== src/Galleon/FileName.antt =====
-- crates/galleon2/src/file_record.rs: the times and flags of a file, and the file name attribute.
-- A string is the list of its UTF-8 bytes.
pub mod Flags
pub mod Encoding
use prisma_os.Base.{
  ℕ, zero, suc, ◌+◌, ◌*◌, ◌/◌, ◌%◌, ◌^◌, Bool, true, false, not, List, [], ◌∷◌, ◌++◌, ltb, ◌==◌,
  if◌then◌else◌, length, get_or, bit_and, bit_or,
}
use prisma_os.Base.Bytes.{le_bytes, from_le_bytes}
use prisma_os.Base.Fields.{slice_at}
use prisma_os.Galleon.Error.{FilesystemError, FilesystemResult, ok, err}
use prisma_os.Galleon.Journal.{pad}

pub record FileTimes : Type 0 where
  pub creation_time : ℕ
  pub last_access_time : ℕ
  pub last_write_time : ℕ
  pub mft_change_time : ℕ

-- The time is the value that the source's clock gives.
unfoldable pub times_new : ℕ → FileTimes
times_new now = record {
  creation_time = now;
  last_access_time = now;
  last_write_time = now;
  mft_change_time = now;
}

unfoldable pub update_access : ℕ → FileTimes → FileTimes
update_access now t = record t { last_access_time = now }

unfoldable pub update_write : ℕ → FileTimes → FileTimes
update_write now t = record t { last_write_time = now; mft_change_time = now }

unfoldable pub update_metadata : ℕ → FileTimes → FileTimes
update_metadata now t = record t { mft_change_time = now }

pub record FileAttributes : Type 0 where
  pub readonly : Bool
  pub hidden : Bool
  pub system : Bool
  pub directory : Bool
  pub archive : Bool
  pub normal : Bool
  pub temporary : Bool
  pub sparse_file : Bool
  pub reparse_point : Bool
  pub compressed : Bool
  pub encrypted : Bool

unfoldable pub new_directory : FileAttributes
new_directory = record {
  readonly = false;
  hidden = false;
  system = false;
  directory = true;
  archive = false;
  normal = false;
  temporary = false;
  sparse_file = false;
  reparse_point = false;
  compressed = false;
  encrypted = false;
}

unfoldable pub new_file : FileAttributes
unfolding new_directory
new_file = record new_directory { directory = false; archive = true; normal = true }

-- `if flag { attrs |= bit; }`
abbrev pub or_if : Bool → ℕ → ℕ → ℕ
or_if flag bit attrs = if flag then bit_or attrs bit else attrs

unfoldable pub to_u32 : FileAttributes → ℕ
to_u32 a = or_if a.encrypted 0x4000 (
    or_if a.compressed 0x800 (
      or_if a.reparse_point 0x400 (
        or_if a.sparse_file 0x200 (
          or_if a.temporary 0x100 (
            or_if a.normal 0x80 (
              or_if a.archive 0x20 (
                or_if a.directory 0x10
                  (or_if a.system 0x4 (or_if a.hidden 0x2 (or_if a.readonly 0x1 0))))))))))

-- `(value & bit) != 0`
abbrev pub has_bit : ℕ → ℕ → Bool
has_bit value bit = not (bit_and value bit == 0)

unfoldable pub from_u32 : ℕ → FileAttributes
from_u32 value = record {
  readonly = has_bit value 0x1;
  hidden = has_bit value 0x2;
  system = has_bit value 0x4;
  directory = has_bit value 0x10;
  archive = has_bit value 0x20;
  normal = has_bit value 0x80;
  temporary = has_bit value 0x100;
  sparse_file = has_bit value 0x200;
  reparse_point = has_bit value 0x400;
  compressed = has_bit value 0x800;
  encrypted = has_bit value 0x4000;
}

pub record FileName : Type 0 where
  pub parent_directory : ℕ
  pub name : List ℕ
  pub namespace : ℕ
  pub file_size : ℕ
  pub allocated_size : ℕ
  pub times : FileTimes
  pub file_attributes : FileAttributes

unfoldable pub new : ℕ → ℕ → List ℕ → Bool → FileName
unfolding times_new new_directory new_file
new now parent name is_directory = record {
  parent_directory = parent;
  name = name;
  namespace = 1;
  file_size = 0;
  allocated_size = 0;
  times = times_new now;
  file_attributes = if is_directory then new_directory else new_file;
}

-- Each byte of the name is followed by a zero byte.
abbrev pub widen : List ℕ → List ℕ
widen [] = []
widen (b ∷ bs) = b ∷ 0 ∷ widen bs

-- The attribute's fields after the first, in their order, and the bytes after them.
abbrev pub after_parent : FileName → List ℕ → List ℕ
after_parent f after =
    le_bytes 8 f.times.creation_time
    ++ (le_bytes 8 f.times.last_access_time
        ++ (le_bytes 8 f.times.last_write_time
            ++ (le_bytes 8 f.times.mft_change_time
                ++ (le_bytes 8 f.allocated_size
                    ++ (le_bytes 8 f.file_size
                        ++ (le_bytes 4 (to_u32 f.file_attributes)
                            ++ ((length f.name % 2 ^ 8)
                                ∷ f.namespace
                                ∷ (widen f.name ++ after))))))))

abbrev pub fields : FileName → List ℕ → List ℕ
fields f after = le_bytes 8 f.parent_directory ++ after_parent f after

unfoldable pub serialize : FileName → List ℕ
unfolding pad
serialize f = pad 8 (fields f [])

-- `name.push(byte as char)`: a byte from 128 on is a character of two bytes.
abbrev pub push_char : List ℕ → ℕ → List ℕ
push_char name byte =
    if ltb byte 128
    then name ++ (byte ∷ [])
    else name ++ ((192 + byte / 64) ∷ (128 + byte % 64) ∷ [])

-- The loop over the name: `n` more characters from index `i` on.
unfoldable pub read_name : ℕ → ℕ → List ℕ → List ℕ → List ℕ
read_name zero i input name = name
read_name (suc n) i input name =
    read_name n (i + 1) input (
      if ltb (62 + i * 2) (length input)
      then push_char name (get_or input (62 + i * 2) 0)
      else name)

unfoldable pub deserialize : List ℕ → FilesystemResult FileName
unfolding from_u32 read_name
deserialize input =
    if ltb (length input) 66
    then err FilesystemError.invalid_parameter
    else ok (record {
      parent_directory = from_le_bytes (slice_at input 0 8);
      name = read_name (get_or input 60 0) 0 input [];
      namespace = get_or input 61 0;
      file_size = from_le_bytes (slice_at input 48 8);
      allocated_size = from_le_bytes (slice_at input 40 8);
      times = record {
        creation_time = from_le_bytes (slice_at input 8 8);
        last_access_time = from_le_bytes (slice_at input 16 8);
        last_write_time = from_le_bytes (slice_at input 24 8);
        mft_change_time = from_le_bytes (slice_at input 32 8);
      };
      file_attributes = from_u32 (from_le_bytes (slice_at input 56 4));
    })
