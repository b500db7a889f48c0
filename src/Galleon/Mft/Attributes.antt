-- ===== src/Galleon/Mft/Attributes.antt =====
-- A resident attribute is read back from its bytes.
use prisma_os.Base.{
  ℕ, ◌+◌, ◌-◌, ◌%◌, ◌<◌, ◌^◌, ◌≡◌, refl, ◌∙◌, ap, Bool, true, false, List, [], ◌∷◌, ◌++◌, length,
  length-append, append_assoc, arith, le→ltb, drop, not, ◌==◌,
}
use prisma_os.Base.Bytes.{length-le_bytes, le_bytes}
use prisma_os.Base.Fields.{drop-next_number, read_number, drop-drop, get_or-drop, slice_at-field}
use prisma_os.Galleon.Journal.Padding.{pad_lem, length-pad}
use prisma_os.Galleon.Mft.{
  AttributeType, type_code, standard_information, file_name, plain_data, index_root,
  index_allocation, bitmap, Attribute, AttributeHeader, resident, new_resident,
}
use prisma_os.Galleon.Mft.Bytes.{
  attribute_fields, attribute_serialize, attribute_header, attribute_deserialize, after_type,
  data_bytes, flag_byte, value, read_data,
}

-- The numbers of a header fit their fields.
pub record IsHeader (h : AttributeHeader) : Type 0 where
  pub type_fits : h.attr_type < 0xffffffff
  pub length_fits : h.attr_length < 2 ^ 32
  pub offset_fits : h.name_offset < 2 ^ 16
  pub flags_fit : h.flags < 2 ^ 16
  pub id_fits : h.attribute_id < 2 ^ 16

-- A resident attribute without a name.
pub record IsResident (a : Attribute) : Type 0 where
  pub bytes : List ℕ
  pub content : a.content ≡ resident bytes
  pub header : IsHeader a.header
  pub stays : a.header.is_non_resident ≡ false
  pub nameless : a.name ≡ []
  pub size_fits : length bytes < 2 ^ 32

not-flag_byte : (b : Bool) → not (flag_byte b == 0) ≡ b
not-flag_byte true = refl
not-flag_byte false = refl

-- The header of an attribute is read from the bytes where it stands.
module _ (h : AttributeHeader) (v : IsHeader h) (after : List ℕ) where
  abbrev header_bytes : List ℕ
  header_bytes = le_bytes 4 h.attr_type ++ after_type h after

  d4 : drop 4 header_bytes ≡ after_type h after
  d4 = drop-next_number 0 4 h.attr_type header_bytes (after_type h after) refl

  d8 :
      drop 8 header_bytes
      ≡ flag_byte h.is_non_resident
        ∷ h.name_length
        ∷ (le_bytes 2 h.name_offset ++ (le_bytes 2 h.flags ++ (le_bytes 2 h.attribute_id ++ after)))
  d8 = drop-next_number 4 4 h.attr_length header_bytes _ d4

  d10 :
      drop 10 header_bytes
      ≡ le_bytes 2 h.name_offset ++ (le_bytes 2 h.flags ++ (le_bytes 2 h.attribute_id ++ after))
  d10 = drop-drop 8 2 header_bytes ∙ ap (drop 2) d8

  pub drop-header : drop 16 header_bytes ≡ after
  drop-header =
      let d12 = drop-next_number 10 2 h.name_offset header_bytes _ d10 in
      let d14 = drop-next_number 12 2 h.flags header_bytes _ d12 in
      drop-next_number 14 2 h.attribute_id header_bytes _ d14

  pub attribute_header_lem : attribute_header header_bytes ≡ h
  unfolding attribute_header
  attribute_header_lem =
      let d12 = drop-next_number 10 2 h.name_offset header_bytes _ d10 in
      let d14 = drop-next_number 12 2 h.flags header_bytes _ d12 in
      let d9 = drop-drop 8 1 header_bytes ∙ ap (drop 1) d8 in
      rw (
        read_number 0 4 h.attr_type header_bytes (after_type h after) refl
            (omega (arith, v.type_fits)),
        read_number 4 4 h.attr_length header_bytes _ d4 (omega (arith, v.length_fits)),
        get_or-drop 8 header_bytes 0 _ _ d8,
        not-flag_byte h.is_non_resident,
        get_or-drop 9 header_bytes 0 _ _ d9,
        read_number 10 2 h.name_offset header_bytes _ d10 (omega (arith, v.offset_fits)),
        read_number 12 2 h.flags header_bytes _ d12 (omega (arith, v.flags_fit)),
        read_number 14 2 h.attribute_id header_bytes _ d14 (omega (arith, v.id_fits)),
      )

length-header :
    (h : AttributeHeader) (after : List ℕ)
    → length (le_bytes 4 h.attr_type ++ after_type h after) ≡ 16 + length after
length-header h after = simp (length-append, length-le_bytes) (omega arith)

pub length-attribute_fields :
    (a : Attribute) (bytes after : List ℕ)
    → a.content ≡ resident bytes
    → length (attribute_fields a after) ≡ 24 + (length bytes + length after)
length-attribute_fields a bytes after content =
    length-header a.header (data_bytes a.content after)
    ∙ rw content (simp (length-append, length-le_bytes) (omega arith))

-- The bytes of a resident attribute with some bytes after them.
module _ (h : AttributeHeader) (v : IsHeader h) (bytes after : List ℕ) where
  abbrev attribute_bytes : List ℕ
  attribute_bytes = le_bytes 4 h.attr_type ++ after_type h (data_bytes (resident bytes) after)

  length-attribute_bytes : length attribute_bytes ≡ 24 + (length bytes + length after)
  length-attribute_bytes =
      length-header h (data_bytes (resident bytes) after)
      ∙ simp (length-append, length-le_bytes) (omega arith)

  read_data-bytes : length bytes < 2 ^ 32 → read_data attribute_bytes false ≡ value (resident bytes)
  unfolding read_data
  read_data-bytes small =
      let d16 = drop-header h v (data_bytes (resident bytes) after) in
      let d20 = drop-next_number 16 4 (length bytes) attribute_bytes _ d16 in
      let d22 = drop-next_number 20 2 24 attribute_bytes _ d20 in
      let d24 = drop-next_number 22 2 0 attribute_bytes _ d22 in
      let size = length-attribute_bytes in
      rw (
        le→ltb (length attribute_bytes) 22 (omega arith),
        read_number 16 4 (length bytes) attribute_bytes _ d16 (omega arith),
        read_number 20 2 24 attribute_bytes _ d20 (omega arith),
        le→ltb (length attribute_bytes) (24 + length bytes) (omega arith),
        slice_at-field 24 (length bytes) attribute_bytes bytes after d24 refl,
      )

-- An attribute that stays in the record is what its header and its bytes say.
Attribute_lem :
    (a : Attribute) (v : IsResident a)
    → record { header = a.header; name = []; content = resident v.bytes } ≡ a
Attribute_lem a v = simp (← v.content, ← v.nameless) refl

pub attribute_deserialize-fields :
    (a : Attribute) (v : IsResident a) (after : List ℕ)
    → attribute_deserialize (attribute_fields a after) ≡ value a
unfolding attribute_deserialize
attribute_deserialize-fields a v after =
    let same : attribute_fields a after ≡ attribute_bytes a.header v.header v.bytes after =
      rw v.content refl in
    let size = length-attribute_bytes a.header v.header v.bytes after in
    let bytes = attribute_bytes a.header v.header v.bytes after in
    let header = attribute_header_lem a.header v.header (data_bytes (resident v.bytes) after) in
    let stays : (attribute_header bytes).is_non_resident ≡ false =
      ap (λ (h : AttributeHeader). h.is_non_resident) header ∙ v.stays in
    let content = read_data-bytes a.header v.header v.bytes after v.size_fits in
    rw (
      same,
      le→ltb (length bytes) 16 (omega arith),
      ap (read_data bytes) stays ∙ content,
      header,
      Attribute_lem a v,
    )

-- Every attribute's bytes are its fields and some zeros, and fill groups of eight.
pub attribute_serialize_lem :
    (a : Attribute)
    → (zeros : List ℕ) × (attribute_serialize a ≡ attribute_fields a [] ++ zeros)
      × (length (attribute_serialize a) % 8 ≡ 0)
unfolding attribute_serialize
attribute_serialize_lem a = pad_lem 8 (attribute_fields a []) (omega arith)

pub append-attribute_fields :
    (a : Attribute) (v : IsResident a) (after rest : List ℕ)
    → attribute_fields a after ++ rest ≡ attribute_fields a (after ++ rest)
append-attribute_fields a v after rest = rw v.content (simp append_assoc)

-- A resident attribute without a name, whose numbers fit, is read back from its bytes, whatever
-- bytes follow.
pub attribute_deserialize-attribute_serialize :
    (a : Attribute) (v : IsResident a) (rest : List ℕ)
    → attribute_deserialize (attribute_serialize a ++ rest) ≡ value a
attribute_deserialize-attribute_serialize a v rest =
    let (zeros, e, filled) = attribute_serialize_lem a in
    let whole : attribute_serialize a ++ rest ≡ attribute_fields a (zeros ++ rest) =
      ap (λ bs. bs ++ rest) e
      ∙ append_assoc (attribute_fields a []) zeros rest
      ∙ append-attribute_fields a v [] (zeros ++ rest) in
    rw whole (attribute_deserialize-fields a v (zeros ++ rest))

-- The bytes of a resident attribute are rounded up to a multiple of eight.
pub length-attribute_serialize :
    (a : Attribute) (bytes : List ℕ)
    → a.content ≡ resident bytes
    → let size = 24 + length bytes in length (attribute_serialize a) ≡ size + (8 - size % 8) % 8
unfolding attribute_serialize
length-attribute_serialize a bytes content =
    let total = length-attribute_fields a bytes [] content in
    let padded = length-pad 8 (attribute_fields a []) (omega arith) in omega arith

type_code-lt : (t : AttributeType) → type_code t < 256
type_code-lt standard_information = omega arith
type_code-lt file_name = omega arith
type_code-lt plain_data = omega arith
type_code-lt index_root = omega arith
type_code-lt index_allocation = omega arith
type_code-lt bitmap = omega arith

pub new_resident-IsResident :
    (t : AttributeType) (bytes : List ℕ)
    → 24 + length bytes < 2 ^ 32
    → IsResident (new_resident t bytes)
unfolding new_resident
new_resident-IsResident t bytes small = record {
  bytes = bytes;
  content = refl;
  header = record {
    type_fits = omega (arith, type_code-lt t);
    length_fits = omega arith;
    offset_fits = omega arith;
    flags_fit = omega arith;
    id_fits = omega arith;
  };
  stays = refl;
  nameless = refl;
  size_fits = omega arith;
}
