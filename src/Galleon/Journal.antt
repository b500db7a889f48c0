-- ===== src/Galleon/Journal.antt =====
-- crates/galleon2/src/journal.rs: the log record of the journal, its checksum and its bytes.
pub mod Padding
pub mod Encoding
use prisma_os.Base.{
  ℕ, zero, suc, ◌+◌, ◌*◌, ◌-◌, ◌/◌, ◌%◌, ◌<◌, ◌≤◌, ◌^◌, ◌≡◌, Bool, true, false, List, [], ◌∷◌, ◌++◌,
  Option, none, some, ltb, if◌then◌else◌, length, ◌==◌, not, bit_xor,
}
use prisma_os.Base.Bytes.{le_bytes, from_le_bytes, same_bytes}
use prisma_os.Base.Fields.{slice_at}
use prisma_os.Galleon.Error.{FilesystemError, FilesystemResult, ok, err}

pub data OperationType : Type 0 where
  create_file delete_file write_data update_metadata create_directory : OperationType
  delete_directory move_file set_attribute : OperationType

-- `operation_type as u32`
abbrev pub code_of : OperationType → ℕ
code_of create_file = 1
code_of delete_file = 2
code_of write_data = 3
code_of update_metadata = 4
code_of create_directory = 5
code_of delete_directory = 6
code_of move_file = 7
code_of set_attribute = 8

abbrev pub operation_of : ℕ → Option OperationType
operation_of n =
    if n == 1
    then some create_file
    else if n == 2
    then some delete_file
    else if n == 3
    then some write_data
    else if n == 4
    then some update_metadata
    else if n == 5
    then some create_directory
    else if n == 6
    then some delete_directory
    else if n == 7
    then some move_file
    else if n == 8
    then some set_attribute
    else none

pub record LogRecord : Type 0 where
  pub sequence_number : ℕ
  pub operation_type : OperationType
  pub target_file_record : ℕ
  pub undo_data : List ℕ
  pub redo_data : List ℕ
  pub checksum : ℕ
  pub timestamp : ℕ

abbrev pub xor_bytes : List ℕ → ℕ → ℕ
xor_bytes [] sum = sum
xor_bytes (b ∷ bs) sum = xor_bytes bs (bit_xor sum b)

-- Both halves of the two words, the operation, and every byte of the data.
unfoldable pub calculate_checksum : LogRecord → ℕ
calculate_checksum r =
    let a = bit_xor 0 (r.sequence_number % 2 ^ 32) in
    let b = bit_xor a (r.sequence_number / 2 ^ 32) in
    let c = bit_xor b (code_of r.operation_type) in
    let d = bit_xor c (r.target_file_record % 2 ^ 32) in
    let e = bit_xor d (r.target_file_record / 2 ^ 32) in
    xor_bytes r.redo_data (xor_bytes r.undo_data e)

-- The time is the value of the source's counter.
unfoldable pub new : ℕ → ℕ → OperationType → ℕ → List ℕ → List ℕ → LogRecord
unfolding calculate_checksum
new timestamp sequence_number operation_type target_file_record undo_data redo_data =
    let r : LogRecord = record {
      sequence_number = sequence_number;
      operation_type = operation_type;
      target_file_record = target_file_record;
      undo_data = undo_data;
      redo_data = redo_data;
      checksum = 0;
      timestamp = timestamp;
    } in
    record r { checksum = calculate_checksum r }

unfoldable pub verify_checksum : LogRecord → Bool
verify_checksum r = r.checksum == calculate_checksum r

abbrev pub signature : List ℕ
signature = b'J' ∷ b'R' ∷ b'N' ∷ b'L' ∷ []

-- The record's fields in their order, and the bytes after them.
abbrev pub fields : LogRecord → List ℕ → List ℕ
fields r after =
    signature
    ++ (le_bytes 8 r.sequence_number
        ++ (le_bytes 4 (code_of r.operation_type)
            ++ (le_bytes 8 r.target_file_record
                ++ (le_bytes 4 (length r.undo_data % 2 ^ 32)
                    ++ (le_bytes 4 (length r.redo_data % 2 ^ 32)
                        ++ (le_bytes 4 r.checksum
                            ++ (le_bytes 8 r.timestamp
                                ++ (r.undo_data ++ (r.redo_data ++ after)))))))))

-- The loop that pads to a multiple of eight bytes, for at most `n` rounds.
unfoldable pub pad : ℕ → List ℕ → List ℕ
pad zero input = input
pad (suc n) input =
    let longer = pad n (input ++ (0 ∷ [])) in if length input % 8 == 0 then input else longer

-- What `serialize` makes of the bytes that are in the buffer before it.
unfoldable pub serialize : LogRecord → List ℕ → List ℕ
unfolding pad
serialize r buffer = pad 8 (buffer ++ fields r [])

unfoldable pub deserialize : List ℕ → FilesystemResult LogRecord
unfolding verify_checksum
deserialize input =
    let undo_data_len = from_le_bytes (slice_at input 24 4) in
    let redo_data_len = from_le_bytes (slice_at input 28 4) in
    if ltb (length input) 48
    then err FilesystemError.invalid_parameter
    else if not (same_bytes (slice_at input 0 4) signature)
    then err FilesystemError.invalid_parameter
    else elim (operation_of (from_le_bytes (slice_at input 12 4))) [
      | none ↦ err FilesystemError.invalid_parameter
      | some operation_type ↦
          if ltb (length input) (44 + undo_data_len + redo_data_len)
          then err FilesystemError.invalid_parameter
          else let r : LogRecord = record {
            sequence_number = from_le_bytes (slice_at input 4 8);
            operation_type = operation_type;
            target_file_record = from_le_bytes (slice_at input 16 8);
            undo_data = slice_at input 44 undo_data_len;
            redo_data = slice_at input (44 + undo_data_len) redo_data_len;
            checksum = from_le_bytes (slice_at input 32 4);
            timestamp = from_le_bytes (slice_at input 36 8);
          } in
            if not (verify_checksum r) then err FilesystemError.invalid_parameter else ok r
    ]

-- Each number fits its field, and the checksum is the record's.
pub record IsLogRecord (r : LogRecord) : Type 0 where
  pub sequence_fits : r.sequence_number < 2 ^ 64
  pub target_fits : r.target_file_record < 2 ^ 64
  pub undo_fits : length r.undo_data < 2 ^ 32
  pub redo_fits : length r.redo_data < 2 ^ 32
  pub checksum_fits : r.checksum < 2 ^ 32
  pub timestamp_fits : r.timestamp < 2 ^ 64
  pub verified : r.checksum ≡ calculate_checksum r
