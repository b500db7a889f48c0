-- ===== src/Galleon/Mft/Bytes.antt =====
-- crates/galleon2/src/mft.rs: the bytes of an attribute and of a record, and reading them. A slice out
-- of bounds panics. The loop that reads the attributes has fuel, which the source has not.
use prisma_os.Base.{
  ℕ, zero, suc, ◌+◌, Bool, true, false, not, List, [], ◌∷◌, ◌++◌, ltb, leb, ◌==◌, if◌then◌else◌,
  length, get_or, take, drop, replicate,
}
use prisma_os.Base.Bytes.{le_bytes, from_le_bytes}
use prisma_os.Base.Fields.{slice_at}
use prisma_os.Galleon.Error.{FilesystemError}
use prisma_os.Galleon.Journal.{pad}
use prisma_os.Galleon.Run.{ClusterRun}
use prisma_os.Galleon.Mft.{
  mft_record_size, MftRecordHeader, header_is_valid, AttributeHeader, AttributeData, resident,
  non_resident, Attribute, get_size, MftRecord,
}

-- What the code ends with, unless its loop is still running when the fuel is used up.
pub data Ends {ℓ} (A : Type ℓ) : Type ℓ where
  value : A → Ends A
  refused : FilesystemError → Ends A
  panic : Ends A
  out_of_fuel : Ends A

infixl 5 ◌>>=◌
abbrev pub ◌>>=◌ {ℓ κ} : {A : Type ℓ} {B : Type κ} → Ends A → (A → Ends B) → Ends B
value a >>= f = f a
refused e >>= f = refused e
panic >>= f = panic
out_of_fuel >>= f = out_of_fuel

abbrev pub run_bytes : List ClusterRun → List ℕ → List ℕ
run_bytes [] after = after
run_bytes (r ∷ rs) after =
    le_bytes 8 r.cluster_count ++ (le_bytes 8 r.start_cluster ++ run_bytes rs after)

abbrev pub data_bytes : AttributeData → List ℕ → List ℕ
data_bytes (resident bytes) after =
    le_bytes 4 (length bytes) ++ (le_bytes 2 24 ++ (le_bytes 2 0 ++ (bytes ++ after)))
data_bytes (non_resident runs allocated_size real_size initialized_size) after =
    le_bytes 8 0
    ++ (le_bytes 8 0
        ++ (le_bytes 2 40
            ++ (le_bytes 2 0
                ++ (le_bytes 4 0
                    ++ (le_bytes 8 allocated_size
                        ++ (le_bytes 8 real_size
                            ++ (le_bytes 8 initialized_size ++ run_bytes runs (0 ∷ after))))))))

abbrev pub flag_byte : Bool → ℕ
flag_byte true = 1
flag_byte false = 0

-- The header after the type, and the bytes after it.
abbrev pub after_type : AttributeHeader → List ℕ → List ℕ
after_type h after =
    le_bytes 4 h.attr_length
    ++ (flag_byte h.is_non_resident
        ∷ h.name_length
        ∷ (le_bytes 2 h.name_offset
            ++ (le_bytes 2 h.flags ++ (le_bytes 2 h.attribute_id ++ after))))

abbrev pub attribute_fields : Attribute → List ℕ → List ℕ
attribute_fields a after =
    le_bytes 4 a.header.attr_type ++ after_type a.header (data_bytes a.content after)

unfoldable pub attribute_serialize : Attribute → List ℕ
unfolding pad
attribute_serialize a = pad 8 (attribute_fields a [])

unfoldable pub attribute_header : List ℕ → AttributeHeader
attribute_header input = record {
  attr_type = from_le_bytes (slice_at input 0 4);
  attr_length = from_le_bytes (slice_at input 4 4);
  is_non_resident = not (get_or input 8 0 == 0);
  name_length = get_or input 9 0;
  name_offset = from_le_bytes (slice_at input 10 2);
  flags = from_le_bytes (slice_at input 12 2);
  attribute_id = from_le_bytes (slice_at input 14 2);
}

-- The runs are not read.
unfoldable pub read_data : List ℕ → Bool → Ends AttributeData
read_data input true =
    if ltb (length input) 56
    then panic
    else value (
        non_resident [] (from_le_bytes (slice_at input 32 8)) (from_le_bytes (slice_at input 40 8))
          (from_le_bytes (slice_at input 48 8)))
read_data input false =
    let content_size = from_le_bytes (slice_at input 16 4) in
    let data_offset = from_le_bytes (slice_at input 20 2) in
    if ltb (length input) 22
    then panic
    else if ltb (length input) (data_offset + content_size)
    then panic
    else value (resident (slice_at input data_offset content_size))

unfoldable pub attribute_deserialize : List ℕ → Ends Attribute
unfolding attribute_header read_data
attribute_deserialize input =
    if ltb (length input) 16 then refused FilesystemError.invalid_parameter else do
      let header = attribute_header input
      content ← read_data input header.is_non_resident
      value (record { header = header; name = []; content = content })

-- `buf[offset..offset + bytes.len()].copy_from_slice(bytes)`
unfoldable pub write_into : ℕ → List ℕ → List ℕ → Ends (List ℕ)
write_into offset bytes buffer =
    if leb (offset + length bytes) (length buffer)
    then value (take offset buffer ++ (bytes ++ drop (offset + length bytes) buffer))
    else panic

abbrev pub end_marker : List ℕ
end_marker = 255 ∷ 255 ∷ 255 ∷ 255 ∷ []

unfoldable pub write_attributes : List Attribute → ℕ → List ℕ → Ends (List ℕ)
unfolding write_into
write_attributes [] offset buffer = write_into offset end_marker buffer
write_attributes (a ∷ rest) offset buffer = do
  let bytes = attribute_serialize a
  written ← write_into offset bytes buffer
  write_attributes rest (offset + length bytes) written

-- The header after the signature, and the bytes after it.
abbrev pub after_signature : MftRecordHeader → List ℕ → List ℕ
after_signature h after =
    le_bytes 2 h.update_sequence_offset
    ++ (le_bytes 2 h.update_sequence_size
        ++ (le_bytes 8 h.log_file_sequence_number
            ++ (le_bytes 2 h.sequence_number
                ++ (le_bytes 2 h.hard_link_count
                    ++ (le_bytes 2 h.first_attribute_offset
                        ++ (le_bytes 2 h.flags
                            ++ (le_bytes 4 h.bytes_in_use
                                ++ (le_bytes 4 h.bytes_allocated
                                    ++ (le_bytes 8 h.base_file_record
                                        ++ (le_bytes 2 h.next_attribute_id ++ after))))))))))

abbrev pub record_fields : MftRecordHeader → List ℕ → List ℕ
record_fields h after = h.signature ++ after_signature h after

-- The header takes 42 bytes of the zeros of a new buffer.
unfoldable pub record_serialize : MftRecord → Ends (List ℕ)
unfolding write_attributes
record_serialize r =
    write_attributes r.attributes r.header.first_attribute_offset
      (record_fields r.header (replicate 982 0))

unfoldable pub record_header : List ℕ → MftRecordHeader
record_header input = record {
  signature = slice_at input 0 4;
  update_sequence_offset = from_le_bytes (slice_at input 4 2);
  update_sequence_size = from_le_bytes (slice_at input 6 2);
  log_file_sequence_number = from_le_bytes (slice_at input 8 8);
  sequence_number = from_le_bytes (slice_at input 16 2);
  hard_link_count = from_le_bytes (slice_at input 18 2);
  first_attribute_offset = from_le_bytes (slice_at input 20 2);
  flags = from_le_bytes (slice_at input 22 2);
  bytes_in_use = from_le_bytes (slice_at input 24 4);
  bytes_allocated = from_le_bytes (slice_at input 28 4);
  base_file_record = from_le_bytes (slice_at input 32 8);
  next_attribute_id = from_le_bytes (slice_at input 40 2);
}

-- The loop of `deserialize`, with the attributes that it has found.
unfoldable pub read_attributes : ℕ → ℕ → ℕ → List ℕ → List Attribute → Ends (List Attribute)
read_attributes zero offset bytes_in_use input found = out_of_fuel
read_attributes (suc fuel) offset bytes_in_use input found =
    if not (ltb offset bytes_in_use)
    then value found
    else if ltb (length input) (offset + 4)
    then panic
    else if from_le_bytes (slice_at input offset 4) == 0xffffffff
    then value found
    else elim (attribute_deserialize (drop offset input)) [
      | value a ↦ read_attributes fuel (offset + get_size a) bytes_in_use input (found ++ (a ∷ []))
      | refused e ↦ refused e
      | panic ↦ panic
      | out_of_fuel ↦ out_of_fuel
    ]

unfoldable pub record_deserialize : ℕ → List ℕ → ℕ → Ends MftRecord
unfolding read_attributes
record_deserialize fuel input record_number =
    if ltb (length input) mft_record_size
    then refused FilesystemError.invalid_parameter
    else if not (header_is_valid (record_header input))
    then refused FilesystemError.invalid_parameter
    else do
      let header = record_header input
      found ← read_attributes fuel header.first_attribute_offset header.bytes_in_use input []
      value (record { header = header; attributes = found; record_number = record_number })
