-- ===== src/Galleon/FileRecord/Filled.antt =====
-- The record of a new file fits, and the length of each attribute is that of its bytes.
use prisma_os.Base.{
  ℕ, ◌+◌, ◌%◌, ◌≤◌, ◌<◌, ◌^◌, ◌≡◌, refl, ap, false, List, [], ◌∷◌, length, arith, All,
}
use prisma_os.Galleon.FileName as Name
use prisma_os.Galleon.FileName.Encoding.{serialize_lem}
use prisma_os.Galleon.StandardInformation.{
  information_new_file, information_serialize, length-information_serialize,
}
use prisma_os.Galleon.Mft.{
  standard_information, file_name, plain_data, Attribute, MftRecord, new_resident, add_attribute,
  update_bytes_in_use, total_size, get_size, header_new, record_new, set_flags, to_u16,
  record_flags_new,
}
use prisma_os.Galleon.Mft.Bytes.{attribute_serialize}
use prisma_os.Galleon.Mft.Writing.{attributes_size}
use prisma_os.Galleon.Mft.Reading.{IsExact, IsRecordHeader}
use prisma_os.Galleon.Mft.Records.{IsFilled, new_resident-IsExact}
use prisma_os.Galleon.FileRecord.{new_file_record, current_time}

-- A file with a name and its data, which go into a record and fill groups of eight bytes.
module _ (record_number parent_directory : ℕ) (name file_data : List ℕ) where
  abbrev pub file_name_bytes : List ℕ
  file_name_bytes = Name.serialize (Name.new current_time parent_directory name false)

  abbrev information_bytes : List ℕ
  information_bytes = information_serialize (information_new_file current_time)

  -- The record with its data.
  abbrev pub filled : MftRecord
  filled =
      add_attribute (new_resident plain_data file_data)
        (new_file_record record_number parent_directory name)

  -- The numbers and the attributes fit, and the data fills groups of eight bytes.
  pub record Fits : Type 0 where
    pub number_fits : record_number < 2 ^ 64
    pub stays : length file_data ≤ 700
    pub groups : length file_data % 8 ≡ 0
    pub room : 204 + length file_name_bytes + length file_data ≤ 1024

  name_groups : length file_name_bytes % 8 ≡ 0
  name_groups =
      let (zeros, e, whole) = serialize_lem (Name.new current_time parent_directory name false) in
      whole

  abbrev pub attributes : List Attribute
  attributes =
      new_resident standard_information information_bytes
      ∷ new_resident file_name file_name_bytes
      ∷ new_resident plain_data file_data
      ∷ []

  pub attributes_lem : filled.attributes ≡ attributes
  unfolding add_attribute update_bytes_in_use record_new
  attributes_lem = refl

  pub filled-number : filled.record_number ≡ record_number
  unfolding add_attribute update_bytes_in_use record_new
  filled-number = refl

  module _ (fits : Fits) where
    pub attributes-IsExact : All IsExact attributes
    attributes-IsExact =
        let size = length-information_serialize (information_new_file current_time) in
        (
          new_resident-IsExact standard_information information_bytes (omega arith) (omega arith),
          (
            new_resident-IsExact file_name file_name_bytes (omega (arith, fits.room)) name_groups,
            (new_resident-IsExact plain_data file_data (omega (arith, fits.room)) fits.groups, tt),
          ),
        )

    -- The sizes of the three attributes.
    abbrev size_of : Attribute → ℕ
    size_of a = length (attribute_serialize a)

    sizes :
        (size_of (new_resident standard_information information_bytes) ≡ 96)
        × (size_of (new_resident file_name file_name_bytes) ≡ 24 + length file_name_bytes)
        × (size_of (new_resident plain_data file_data) ≡ 24 + length file_data)
    unfolding new_resident get_size
    sizes =
        let (info, (named, (data_there, end))) = attributes-IsExact in
        let size = length-information_serialize (information_new_file current_time) in
        let room = fits.room in
        let (v, e) = info in
        let (v', e') = named in
        let (v'', e'') = data_there in (omega arith, omega arith, omega arith)

    attributes_size_lem :
        attributes_size attributes ≡ 144 + length file_name_bytes + length file_data
    attributes_size_lem = let (one, two, three) = sizes in omega (arith, one, two, three)

    -- The bytes in use are those of the header, of the attributes and of the end marker.
    bytes_in_use_lem : filled.header.bytes_in_use ≡ 204 + length file_name_bytes + length file_data
    unfolding add_attribute update_bytes_in_use total_size record_new header_new new_resident
        get_size set_flags
    bytes_in_use_lem =
        let size = length-information_serialize (information_new_file current_time) in
        omega (arith, fits.room)

    start_lem : filled.header.first_attribute_offset ≡ 56
    unfolding add_attribute update_bytes_in_use record_new header_new set_flags
    start_lem = refl

    header_lem : IsRecordHeader filled.header
    unfolding add_attribute update_bytes_in_use record_new header_new set_flags to_u16
        record_flags_new
    header_lem = record {
      signed = refl;
      offset_fits = omega arith;
      size_fits = omega arith;
      log_fits = omega arith;
      sequence_fits = omega arith;
      links_fit = omega arith;
      flags_fit = omega arith;
      base_fits = fits.number_fits;
      id_fits = omega arith;
      behind_header = omega arith;
      inside = omega arith;
      in_use = let e = bytes_in_use_lem in omega (arith, fits.room);
      allocated = refl;
    }

    pub filled-IsFilled : IsFilled filled
    filled-IsFilled = record {
      header = header_lem;
      room =
          let listed = ap attributes_size attributes_lem in
          omega (arith, attributes_size_lem, start_lem, fits.room);
    }

    pub filled_used :
        filled.header.first_attribute_offset + attributes_size filled.attributes
        < filled.header.bytes_in_use
    filled_used =
        let listed = ap attributes_size attributes_lem in
        omega (arith, attributes_size_lem, start_lem, bytes_in_use_lem)
