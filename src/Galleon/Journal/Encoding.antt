-- ===== src/Galleon/Journal/Encoding.antt =====
-- A log record is read back from its bytes.
use prisma_os.Base.{
  ℕ, ◌+◌, ◌%◌, ◌<◌, ◌≤◌, ◌^◌, ◌≡◌, refl, ◌∙◌, ap, true, List, [], ◌++◌, some, length, length-append,
  append_assoc, arith, le→ltb,
}
use prisma_os.Base.Bytes.{length-le_bytes}
use prisma_os.Base.Fields.{slice_at-field, drop-next, drop-next_number, read_number}
use prisma_os.Galleon.Error.{ok}
use prisma_os.Galleon.Journal.{
  OperationType, create_file, delete_file, write_data, update_metadata, create_directory,
  delete_directory, move_file, set_attribute, code_of, operation_of, LogRecord, calculate_checksum,
  verify_checksum, signature, fields, serialize, deserialize, IsLogRecord,
}
use prisma_os.Galleon.Journal.Padding.{pad_lem}

operation_of-code_of : (t : OperationType) → operation_of (code_of t) ≡ some t
operation_of-code_of create_file = refl
operation_of-code_of delete_file = refl
operation_of-code_of write_data = refl
operation_of-code_of update_metadata = refl
operation_of-code_of create_directory = refl
operation_of-code_of delete_directory = refl
operation_of-code_of move_file = refl
operation_of-code_of set_attribute = refl

code_of-lt : (t : OperationType) → code_of t < 256 ^ 4
code_of-lt create_file = omega arith
code_of-lt delete_file = omega arith
code_of-lt write_data = omega arith
code_of-lt update_metadata = omega arith
code_of-lt create_directory = omega arith
code_of-lt delete_directory = omega arith
code_of-lt move_file = omega arith
code_of-lt set_attribute = omega arith

-- Bytes after a record's fields.
append-fields : (r : LogRecord) (a b : List ℕ) → fields r a ++ b ≡ fields r (a ++ b)
append-fields r a b = simp append_assoc

checked : (r : LogRecord) → r.checksum ≡ calculate_checksum r → verify_checksum r ≡ true
unfolding verify_checksum
checked r e = ground arith

pub length-fields :
    (r : LogRecord) (a : List ℕ)
    → length (fields r a) ≡ 44 + length r.undo_data + length r.redo_data + length a
length-fields r a = simp (length-append, length-le_bytes) (omega arith)

module _ (r : LogRecord) (v : IsLogRecord r) (after : List ℕ) where
  abbrev bytes : List ℕ
  bytes = fields r after

  undo_length : length r.undo_data % 2 ^ 32 ≡ length r.undo_data
  undo_length = omega (arith, v.undo_fits)

  redo_length : length r.redo_data % 2 ^ 32 ≡ length r.redo_data
  redo_length = omega (arith, v.redo_fits)

  deserialize-fields :
      48 ≤ length bytes
      → 44 + length r.undo_data + length r.redo_data ≤ length bytes
      → deserialize bytes ≡ ok r
  unfolding deserialize
  deserialize-fields enough all_there =
      let u = length r.undo_data in
      let d4 = drop-next 0 4 bytes signature _ refl refl in
      let d12 = drop-next_number 4 8 r.sequence_number bytes _ d4 in
      let d16 = drop-next_number 12 4 (code_of r.operation_type) bytes _ d12 in
      let d24 = drop-next_number 16 8 r.target_file_record bytes _ d16 in
      let d28 = drop-next_number 24 4 (u % 2 ^ 32) bytes _ d24 in
      let d32 = drop-next_number 28 4 (length r.redo_data % 2 ^ 32) bytes _ d28 in
      let d36 = drop-next_number 32 4 r.checksum bytes _ d32 in
      let d44 = drop-next_number 36 8 r.timestamp bytes _ d36 in
      let redo_at = drop-next 44 u bytes r.undo_data _ d44 refl in
      let undo_len = read_number 24 4 (u % 2 ^ 32) bytes _ d24 (omega arith) ∙ undo_length in
      let redo_len =
        read_number 28 4 (length r.redo_data % 2 ^ 32) bytes _ d28 (omega arith) ∙ redo_length in
      rw (
        le→ltb (length bytes) 48 enough,
        read_number 12 4 (code_of r.operation_type) bytes _ d12 (code_of-lt r.operation_type),
        operation_of-code_of r.operation_type,
        undo_len,
        redo_len,
        read_number 4 8 r.sequence_number bytes _ d4 (omega (arith, v.sequence_fits)),
        read_number 16 8 r.target_file_record bytes _ d16 (omega (arith, v.target_fits)),
        read_number 32 4 r.checksum bytes _ d32 (omega (arith, v.checksum_fits)),
        read_number 36 8 r.timestamp bytes _ d36 (omega (arith, v.timestamp_fits)),
        slice_at-field 44 u bytes r.undo_data _ d44 refl,
        slice_at-field (44 + u) (length r.redo_data) bytes r.redo_data _ redo_at refl,
        le→ltb (length bytes) (44 + u + length r.redo_data) all_there,
        checked r v.verified,
      )

-- A well-formed log record is read back from its bytes, whatever bytes follow.
pub deserialize-serialize_append :
    (r : LogRecord) (rest : List ℕ) → IsLogRecord r → deserialize (serialize r [] ++ rest) ≡ ok r
unfolding serialize
deserialize-serialize_append r rest v =
    let (zeros, padded, filled) = pad_lem 8 (fields r []) (omega arith) in
    let more : serialize r [] ≡ fields r zeros = padded ∙ append-fields r [] zeros in
    let size : length (serialize r [])
        ≡ 44 + length r.undo_data + length r.redo_data + length zeros =
      ap length more ∙ length-fields r zeros in
    let whole : serialize r [] ++ rest ≡ fields r (zeros ++ rest) =
      ap (λ bs. bs ++ rest) more ∙ append-fields r zeros rest in
    let total = length-fields r (zeros ++ rest) in
    let tail = length-append zeros rest in
    rw whole (
      deserialize-fields r v (zeros ++ rest) (omega (arith, filled, size, total, tail))
        (omega arith))
