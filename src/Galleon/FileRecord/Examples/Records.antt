-- ===== src/Galleon/FileRecord/Examples/Records.antt =====
-- The theorems on the bytes of a record at concrete records.
use prisma_os.Base.{
  ℕ, ◌+◌, ◌≤◌, ◌<◌, ◌≡◌, ◌≢◌, ◌⊎◌, refl, ◌∙◌, ap, sym, List, [], ◌∷◌, length, arith, All, replicate,
}
use prisma_os.Base.Bytes.{le_bytes}
use prisma_os.Galleon.Journal.{pad}
use prisma_os.Galleon.Mft.{
  standard_information, plain_data, Attribute, MftRecordHeader, MftRecord, header_new, get_size,
  new_resident, new_non_resident, run_sizes, to_u16, record_flags_new,
}
use prisma_os.Galleon.Mft.Bytes.{
  value, panic, out_of_fuel, ◌>>=◌, attribute_serialize, record_serialize, record_deserialize,
  record_header,
}
use prisma_os.Galleon.Mft.Attributes.{new_resident-IsResident}
use prisma_os.Galleon.Mft.Writing.{attributes_size, record_serialize_total}
use prisma_os.Galleon.Mft.Reading.{IsExact, IsRecordHeader, IsPlaced-header}
use prisma_os.Galleon.Mft.Records.{
  IsFilled, record_bytes, record_serialize-record_bytes, new_resident-IsExact,
  record_deserialize-record_serialize,
}
use prisma_os.Galleon.Mft.Misread.{IsPadded, record_deserialize-record_serialize_padded}
use prisma_os.Galleon.Mft.Endless.{large, record_deserialize-record_serialize_stuck}
use prisma_os.Galleon.Mft.Shrunk.{IsShrunk, record_deserialize-record_serialize_shrunk}
use prisma_os.Galleon.Mft.Ending.{record_deserialize_ends, Stuck}

abbrev header : MftRecordHeader
header = record (header_new 16) { bytes_in_use = 600 }

header-IsRecordHeader : IsRecordHeader header
unfolding header_new to_u16 record_flags_new
header-IsRecordHeader = record {
  signed = refl;
  offset_fits = omega arith;
  size_fits = omega arith;
  log_fits = omega arith;
  sequence_fits = omega arith;
  links_fit = omega arith;
  flags_fit = omega arith;
  base_fits = omega arith;
  id_fits = omega arith;
  behind_header = omega arith;
  inside = omega arith;
  in_use = omega arith;
  allocated = refl;
}

abbrev with_attributes : List Attribute → MftRecord
with_attributes entries = record { header = header; attributes = entries; record_number = 16 }

abbrev information : Attribute
information = new_resident standard_information (replicate 72 0)

information-IsExact : IsExact information
information-IsExact =
    new_resident-IsExact standard_information (replicate 72 0) (omega arith) (omega arith)

abbrev data_of : List ℕ → Attribute
data_of bytes = new_resident plain_data bytes

abbrev eight : List ℕ
eight = 1 ∷ 2 ∷ 3 ∷ 4 ∷ 5 ∷ 6 ∷ 7 ∷ 8 ∷ []

abbrev aligned : MftRecord
aligned = with_attributes (information ∷ data_of eight ∷ [])

aligned-IsFilled : IsFilled aligned
unfolding new_resident attribute_serialize pad le_bytes header_new
aligned-IsFilled = record { header = header-IsRecordHeader; room = omega arith }

aligned-IsExact : All IsExact aligned.attributes
aligned-IsExact =
    (information-IsExact, (new_resident-IsExact plain_data eight (omega arith) (omega arith), tt))

record_deserialize-record_serialize_example :
    (record_serialize aligned >>= λ bytes. record_deserialize 3 bytes 16) ≡ value aligned
unfolding new_resident attribute_serialize pad le_bytes header_new
record_deserialize-record_serialize_example =
    record_deserialize-record_serialize aligned 3 aligned-IsFilled aligned-IsExact (omega arith)
      (omega arith)

record_serialize_total_example :
    ((aligned.header.first_attribute_offset + attributes_size aligned.attributes + 4 ≤ 1024)
      × (bytes : List ℕ) × (record_serialize aligned ≡ value bytes)
      × (length bytes ≡ 1024))
    ⊎ ((1024 < aligned.header.first_attribute_offset + attributes_size aligned.attributes + 4)
        × (record_serialize aligned ≡ panic))
record_serialize_total_example =
    record_serialize_total aligned (IsPlaced-header header-IsRecordHeader)

abbrev three : List ℕ
three = 1 ∷ 2 ∷ 3 ∷ []

abbrev uneven : MftRecord
uneven = with_attributes (information ∷ data_of three ∷ [])

uneven-IsFilled : IsFilled uneven
unfolding new_resident attribute_serialize pad le_bytes header_new
uneven-IsFilled = record { header = header-IsRecordHeader; room = omega arith }

three-IsPadded : IsPadded (data_of three)
unfolding new_resident get_size
three-IsPadded = record {
  kept = new_resident-IsResident plain_data three (omega arith);
  bytes = three;
  content = refl;
  size = refl;
  uneven = omega arith;
}

record_deserialize-record_serialize_padded_example :
    (record_serialize uneven >>= λ bytes. record_deserialize 9 bytes 16) ≢ value uneven
unfolding new_resident attribute_serialize pad le_bytes header_new get_size
record_deserialize-record_serialize_padded_example =
    record_deserialize-record_serialize_padded uneven (information ∷ []) (data_of three) 9
      uneven-IsFilled refl (information-IsExact, tt) three-IsPadded (omega arith)

abbrev away : MftRecord
away = with_attributes (information ∷ large 800 ∷ [])

away-IsFilled : IsFilled away
unfolding new_resident new_non_resident run_sizes attribute_serialize pad le_bytes header_new
away-IsFilled = record { header = header-IsRecordHeader; room = omega arith }

record_deserialize-record_serialize_stuck_example :
    (record_serialize away >>= λ bytes. record_deserialize 1025 bytes 16) ≡ out_of_fuel
unfolding new_resident attribute_serialize pad le_bytes header_new
record_deserialize-record_serialize_stuck_example =
    record_deserialize-record_serialize_stuck away (information ∷ []) [] 800 1025 away-IsFilled refl
      (information-IsExact, tt) (omega arith)

away_stuck : record_deserialize 1025 (record_bytes away) 16 ≡ out_of_fuel
away_stuck =
    sym (
      ap (λ m. m >>= λ bytes. record_deserialize 1025 bytes 16)
        (record_serialize-record_bytes away away-IsFilled))
    ∙ record_deserialize-record_serialize_stuck_example

record_deserialize_ends_example :
    Stuck
      (record_header (record_bytes away)).bytes_in_use
      (record_bytes away)
      (record_header (record_bytes away)).first_attribute_offset
    × ((more : ℕ) → record_deserialize more (record_bytes away) 16 ≡ out_of_fuel)
record_deserialize_ends_example =
    record_deserialize_ends 1025 (record_bytes away) 16 (omega arith) away_stuck

-- What `write_file` makes of a data attribute of 64 bytes, when it writes eight.
abbrev short : Attribute
short = record (data_of (replicate 64 0)) { content = (data_of eight).content }

short-IsShrunk : IsShrunk short
unfolding new_resident get_size attribute_serialize pad le_bytes
short-IsShrunk = record {
  kept = record {
    bytes = eight;
    content = refl;
    header = record {
      type_fits = omega arith;
      length_fits = omega arith;
      offset_fits = omega arith;
      flags_fit = omega arith;
      id_fits = omega arith;
    };
    stays = refl;
    nameless = refl;
    size_fits = omega arith;
  };
  short = omega arith;
}

abbrev cut : MftRecord
cut = with_attributes (information ∷ short ∷ [])

cut-IsFilled : IsFilled cut
unfolding new_resident attribute_serialize pad le_bytes header_new
cut-IsFilled = record { header = header-IsRecordHeader; room = omega arith }

record_deserialize-record_serialize_shrunk_example :
    (record_serialize cut >>= λ bytes. record_deserialize 1025 bytes 16) ≡ out_of_fuel
unfolding new_resident attribute_serialize pad le_bytes header_new get_size
record_deserialize-record_serialize_shrunk_example =
    record_deserialize-record_serialize_shrunk cut (information ∷ []) short 1025 cut-IsFilled refl
      (information-IsExact, tt) short-IsShrunk (omega arith) (omega arith)
