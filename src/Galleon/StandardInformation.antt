-- ===== src/Galleon/StandardInformation.antt =====
-- crates/galleon2/src/file_record.rs: the standard information of a file.
use prisma_os.Base.{
  ℕ, ◌+◌, ◌<◌, ◌^◌, ◌≡◌, refl, List, [], ◌++◌, ltb, if◌then◌else◌, length, length-append,
  append_assoc, arith, le→ltb, drop,
}
use prisma_os.Base.Bytes.{le_bytes, from_le_bytes, length-le_bytes}
use prisma_os.Base.Fields.{slice_at, drop-next_number, read_number}
use prisma_os.Galleon.Error.{FilesystemError, FilesystemResult, ok, err}
use prisma_os.Galleon.FileName.{
  FileTimes, FileAttributes, times_new, new_file, new_directory, to_u32, from_u32,
}
use prisma_os.Galleon.FileName.Flags.{to_u32-lt, from_u32-to_u32}

pub record StandardInformation : Type 0 where
  pub times : FileTimes
  pub file_attributes : FileAttributes
  pub maximum_versions : ℕ
  pub version_number : ℕ
  pub class_id : ℕ
  pub owner_id : ℕ
  pub security_id : ℕ
  pub quota_charged : ℕ
  pub update_sequence_number : ℕ

-- The time is the value that the source's clock gives.
abbrev pub of_attributes : ℕ → FileAttributes → StandardInformation
of_attributes now file_attributes = record {
  times = times_new now;
  file_attributes = file_attributes;
  maximum_versions = 0;
  version_number = 0;
  class_id = 0;
  owner_id = 0;
  security_id = 0;
  quota_charged = 0;
  update_sequence_number = 0;
}

unfoldable pub information_new_file : ℕ → StandardInformation
unfolding times_new
information_new_file now = of_attributes now new_file

unfoldable pub information_new_directory : ℕ → StandardInformation
unfolding times_new
information_new_directory now = of_attributes now new_directory

-- The fields after the first, and the bytes after them.
abbrev pub after_creation : StandardInformation → List ℕ → List ℕ
after_creation s after =
    le_bytes 8 s.times.last_access_time
    ++ (le_bytes 8 s.times.last_write_time
        ++ (le_bytes 8 s.times.mft_change_time
            ++ (le_bytes 4 (to_u32 s.file_attributes)
                ++ (le_bytes 4 s.maximum_versions
                    ++ (le_bytes 4 s.version_number
                        ++ (le_bytes 4 s.class_id
                            ++ (le_bytes 4 s.owner_id
                                ++ (le_bytes 4 s.security_id
                                    ++ (le_bytes 8 s.quota_charged
                                        ++ (le_bytes 8 s.update_sequence_number ++ after))))))))))

abbrev pub information_fields : StandardInformation → List ℕ → List ℕ
information_fields s after = le_bytes 8 s.times.creation_time ++ after_creation s after

unfoldable pub information_serialize : StandardInformation → List ℕ
information_serialize s = information_fields s []

unfoldable pub information_deserialize : List ℕ → FilesystemResult StandardInformation
unfolding from_u32
information_deserialize input =
    if ltb (length input) 72
    then err FilesystemError.invalid_parameter
    else ok (record {
      times = record {
        creation_time = from_le_bytes (slice_at input 0 8);
        last_access_time = from_le_bytes (slice_at input 8 8);
        last_write_time = from_le_bytes (slice_at input 16 8);
        mft_change_time = from_le_bytes (slice_at input 24 8);
      };
      file_attributes = from_u32 (from_le_bytes (slice_at input 32 4));
      maximum_versions = from_le_bytes (slice_at input 36 4);
      version_number = from_le_bytes (slice_at input 40 4);
      class_id = from_le_bytes (slice_at input 44 4);
      owner_id = from_le_bytes (slice_at input 48 4);
      security_id = from_le_bytes (slice_at input 52 4);
      quota_charged = from_le_bytes (slice_at input 56 8);
      update_sequence_number = from_le_bytes (slice_at input 64 8);
    })

-- Each number fits its field.
pub record IsInformation (s : StandardInformation) : Type 0 where
  pub creation_fits : s.times.creation_time < 2 ^ 64
  pub access_fits : s.times.last_access_time < 2 ^ 64
  pub write_fits : s.times.last_write_time < 2 ^ 64
  pub change_fits : s.times.mft_change_time < 2 ^ 64
  pub versions_fit : s.maximum_versions < 2 ^ 32
  pub version_fits : s.version_number < 2 ^ 32
  pub class_fits : s.class_id < 2 ^ 32
  pub owner_fits : s.owner_id < 2 ^ 32
  pub security_fits : s.security_id < 2 ^ 32
  pub quota_fits : s.quota_charged < 2 ^ 64
  pub update_fits : s.update_sequence_number < 2 ^ 64

length-information_fields :
    (s : StandardInformation) (after : List ℕ)
    → length (information_fields s after) ≡ 72 + length after
length-information_fields s after = simp (length-append, length-le_bytes) (omega arith)

-- The standard information takes 72 bytes.
pub length-information_serialize : (s : StandardInformation) → length (information_serialize s) ≡ 72
unfolding information_serialize
length-information_serialize s = omega (arith, length-information_fields s [])

-- Standard information whose numbers fit is read back from its bytes as it was, whatever
-- bytes follow.
pub information_deserialize-information_serialize :
    (s : StandardInformation) (rest : List ℕ)
    → IsInformation s
    → information_deserialize (information_serialize s ++ rest) ≡ ok s
unfolding information_deserialize information_serialize
information_deserialize-information_serialize s rest v =
    let bytes = information_fields s rest in
    let whole : information_fields s [] ++ rest ≡ bytes = simp append_assoc in
    let size = length-information_fields s rest in
    let d0 : drop 0 bytes ≡ le_bytes 8 s.times.creation_time ++ after_creation s rest = refl in
    let d8 = drop-next_number 0 8 s.times.creation_time bytes (after_creation s rest) d0 in
    let d16 = drop-next_number 8 8 s.times.last_access_time bytes _ d8 in
    let d24 = drop-next_number 16 8 s.times.last_write_time bytes _ d16 in
    let d32 = drop-next_number 24 8 s.times.mft_change_time bytes _ d24 in
    let d36 = drop-next_number 32 4 (to_u32 s.file_attributes) bytes _ d32 in
    let d40 = drop-next_number 36 4 s.maximum_versions bytes _ d36 in
    let d44 = drop-next_number 40 4 s.version_number bytes _ d40 in
    let d48 = drop-next_number 44 4 s.class_id bytes _ d44 in
    let d52 = drop-next_number 48 4 s.owner_id bytes _ d48 in
    let d56 = drop-next_number 52 4 s.security_id bytes _ d52 in
    let d64 = drop-next_number 56 8 s.quota_charged bytes _ d56 in
    rw (
      whole,
      le→ltb (length bytes) 72 (omega arith),
      read_number 0 8 s.times.creation_time bytes (after_creation s rest) d0
          (omega (arith, v.creation_fits)),
      read_number 8 8 s.times.last_access_time bytes _ d8 (omega (arith, v.access_fits)),
      read_number 16 8 s.times.last_write_time bytes _ d16 (omega (arith, v.write_fits)),
      read_number 24 8 s.times.mft_change_time bytes _ d24 (omega (arith, v.change_fits)),
      read_number 32 4 (to_u32 s.file_attributes) bytes _ d32 (to_u32-lt s.file_attributes),
      from_u32-to_u32 s.file_attributes,
      read_number 36 4 s.maximum_versions bytes _ d36 (omega (arith, v.versions_fit)),
      read_number 40 4 s.version_number bytes _ d40 (omega (arith, v.version_fits)),
      read_number 44 4 s.class_id bytes _ d44 (omega (arith, v.class_fits)),
      read_number 48 4 s.owner_id bytes _ d48 (omega (arith, v.owner_fits)),
      read_number 52 4 s.security_id bytes _ d52 (omega (arith, v.security_fits)),
      read_number 56 8 s.quota_charged bytes _ d56 (omega (arith, v.quota_fits)),
      read_number 64 8 s.update_sequence_number bytes _ d64 (omega (arith, v.update_fits)),
    )
