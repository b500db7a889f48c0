-- ===== src/Galleon/Mft/Reading.antt =====
-- A record is read back from its bytes, when the length of each attribute is that of its bytes.
use prisma_os.Base.{
  subst, ◌⊎◌, inl, inr, ℕ, zero, suc, ◌+◌, ◌-◌, ◌≤◌, ◌<◌, ◌^◌, ◌≡◌, refl, ◌∙◌, ap, sym, true, false,
  List, [], ◌∷◌, ◌++◌, length, append_assoc, append-nil, arith, le→ltb, lt→ltb, ◌==◌, drop,
  drop-append_at, replicate, length-replicate, All, le→leb,
}
use prisma_os.Base.Bytes.{from_le_bytes}
use prisma_os.Base.Fields.{drop-next, drop-next_number, read_number, slice_at-field, slice_at}
use prisma_os.Galleon.Mft.{
  Attribute, MftRecordHeader, mft_record_size, get_size, header_is_valid, file_signature,
}
use prisma_os.Galleon.Mft.Bytes.{
  out_of_fuel, attribute_fields, attribute_serialize, after_type, data_bytes, value, end_marker,
  record_fields, after_signature, record_header, read_attributes,
}
use prisma_os.Galleon.Mft.Attributes.{
  IsResident, attribute_serialize_lem, attribute_deserialize-attribute_serialize,
  append-attribute_fields,
}
use prisma_os.Galleon.Mft.Writing.{
  attributes_bytes, attributes_size, IsPlaced, length-record_fields, zero_byte,
}

-- The type of a resident attribute is read where the attribute stands.
type-attribute_serialize :
    (a : Attribute) (v : IsResident a) (offset : ℕ) (input rest : List ℕ)
    → drop offset input ≡ attribute_serialize a ++ rest
    → from_le_bytes (slice_at input offset 4) ≡ a.header.attr_type
type-attribute_serialize a v offset input rest at =
    let (zeros, e, filled) = attribute_serialize_lem a in
    let here =
      at
      ∙ ap (λ bs. bs ++ rest) e
      ∙ append_assoc (attribute_fields a []) zeros rest
      ∙ append-attribute_fields a v [] (zeros ++ rest) in
    read_number offset 4 a.header.attr_type input
      (after_type a.header (data_bytes a.content (zeros ++ rest))) here
      (omega (arith, v.header.type_fits))

-- Where an attribute begins the loop goes on behind it.
pub read_attributes_step :
    (fuel offset bytes_in_use : ℕ) (input rest : List ℕ) (found : List Attribute) (a : Attribute)
    (v : IsResident a)
    → offset < bytes_in_use
    → offset + 4 ≤ length input
    → drop offset input ≡ attribute_serialize a ++ rest
    → read_attributes (suc fuel) offset bytes_in_use input found
      ≡ read_attributes fuel (offset + get_size a) bytes_in_use input (found ++ (a ∷ []))
unfolding read_attributes
read_attributes_step fuel offset bytes_in_use input rest found a v inside room at =
    let other : (a.header.attr_type == 0xffffffff) ≡ false =
      let h = v.header.type_fits in ground arith in
    rw (
      lt→ltb offset bytes_in_use inside,
      le→ltb (length input) (offset + 4) room,
      type-attribute_serialize a v offset input rest at,
      other,
      at,
      attribute_deserialize-attribute_serialize a v rest,
    )

-- The length in the header is that of the attribute's bytes.
abbrev pub IsExact : Attribute → Type 0
IsExact a = IsResident a × (get_size a ≡ length (attribute_serialize a))

front-next :
    (offset : ℕ) (input : List ℕ) (a : Attribute)
    → IsExact a
    → (rest : List ℕ) → drop offset input ≡ attribute_serialize a ++ rest
    → drop (offset + get_size a) input ≡ rest
front-next offset input a exact rest at =
    drop-next offset (get_size a) input (attribute_serialize a) rest at (sym exact.1)

-- Behind attributes of the right length the loop goes on with what is left of the fuel, if it has a
-- round for each.
pub read_attributes-front :
    (front back : List Attribute) (fuel offset bytes_in_use : ℕ) (input after : List ℕ)
    (found : List Attribute)
    → All IsExact front
    → offset + attributes_size front < bytes_in_use
    → offset + attributes_size front + 4 ≤ length input
    → drop offset input ≡ attributes_bytes (front ++ back) after
    → (drop (offset + attributes_size front) input ≡ attributes_bytes back after)
      × (((fuel ≤ length front)
            × (read_attributes fuel offset bytes_in_use input found ≡ out_of_fuel))
          ⊎ (k : ℕ) × (fuel ≡ length front + suc k)
            × (read_attributes fuel offset bytes_in_use input found
                ≡ read_attributes
                    (suc k)
                    (offset + attributes_size front)
                    bytes_in_use
                    input
                    (found ++ front)))
read_attributes-front [] back zero offset bytes_in_use input after found exact inside room at =
    let same : offset + 0 ≡ offset = omega arith in
    (
      subst (λ x. drop x input ≡ attributes_bytes back after) (sym same) at,
      inl (omega arith, unfold read_attributes in refl),
    )
read_attributes-front [] back (suc k) offset bytes_in_use input after found exact inside room at =
    let same : offset + 0 ≡ offset = omega arith in
    (
      subst (λ x. drop x input ≡ attributes_bytes back after) (sym same) at,
      inr (k, omega arith, rw (same, append-nil found) refl),
    )
read_attributes-front (a ∷ front) back zero offset bytes_in_use input after found (exact, more)
      inside room at =
    let next = front-next offset input a exact (attributes_bytes (front ++ back) after) at in
    let (there, rest) =
      read_attributes-front front back zero (offset + get_size a) bytes_in_use input after found
        more (omega (arith, exact.1)) (omega (arith, exact.1)) next in
    let same : offset + get_size a + attributes_size front ≡ offset + attributes_size (a ∷ front) =
      omega (arith, exact.1) in
    (
      subst (λ x. drop x input ≡ attributes_bytes back after) same there,
      inl (omega arith, unfold read_attributes in refl),
    )
read_attributes-front (a ∷ front) back (suc fuel) offset bytes_in_use input after found
      (exact, more) inside room at =
    let tail = attributes_bytes (front ++ back) after in
    let step =
      read_attributes_step fuel offset bytes_in_use input tail found a exact.0 (omega arith)
        (omega arith) at in
    let (there, rest) =
      read_attributes-front front back fuel (offset + get_size a) bytes_in_use input after
        (found ++ (a ∷ [])) more (omega (arith, exact.1)) (omega (arith, exact.1))
        (front-next offset input a exact tail at) in
    let same : offset + get_size a + attributes_size front ≡ offset + attributes_size (a ∷ front) =
      omega (arith, exact.1) in
    (
      subst (λ x. drop x input ≡ attributes_bytes back after) same there,
      (elim rest [
        | inl (few, e) ↦ inl (omega arith, step ∙ e)
        | inr (k, enough, e) ↦
            inr (k, omega arith, step ∙ e ∙ rw (same, append_assoc found (a ∷ []) front) refl)
      ]),
    )

-- At the end marker the loop ends.
pub read_attributes-end_marker :
    (fuel offset bytes_in_use : ℕ) (input after : List ℕ) (found : List Attribute)
    → offset < bytes_in_use
    → offset + 4 ≤ length input
    → drop offset input ≡ end_marker ++ after
    → read_attributes (suc fuel) offset bytes_in_use input found ≡ value found
unfolding read_attributes from_le_bytes
read_attributes-end_marker fuel offset bytes_in_use input after found inside room at =
    rw
      (
        lt→ltb offset bytes_in_use inside,
        le→ltb (length input) (offset + 4) room,
        slice_at-field offset 4 input end_marker after at refl,
      )
      refl

-- The numbers of a record's header fit their fields, and the header is valid.
pub record IsRecordHeader (h : MftRecordHeader) : Type 0 where
  pub signed : h.signature ≡ file_signature
  pub offset_fits : h.update_sequence_offset < 2 ^ 16
  pub size_fits : h.update_sequence_size < 2 ^ 16
  pub log_fits : h.log_file_sequence_number < 2 ^ 64
  pub sequence_fits : h.sequence_number < 2 ^ 16
  pub links_fit : h.hard_link_count < 2 ^ 16
  pub flags_fit : h.flags < 2 ^ 16
  pub base_fits : h.base_file_record < 2 ^ 64
  pub id_fits : h.next_attribute_id < 2 ^ 16
  pub behind_header : 42 ≤ h.first_attribute_offset
  pub inside : h.first_attribute_offset ≤ 1024
  pub in_use : h.bytes_in_use ≤ 1024
  pub allocated : h.bytes_allocated ≡ 1024

pub IsPlaced-header : {h : MftRecordHeader} → IsRecordHeader h → IsPlaced h
IsPlaced-header v = record {
  signed = rw v.signed refl;
  behind_header = v.behind_header;
  inside = v.inside;
}

pub valid-header : (h : MftRecordHeader) → IsRecordHeader h → header_is_valid h ≡ true
unfolding header_is_valid
valid-header h v =
    let used = le→leb h.bytes_in_use h.bytes_allocated (omega (arith, v.in_use, v.allocated)) in
    let whole : (h.bytes_allocated == mft_record_size) ≡ true =
      let e = v.allocated in ground arith in
    rw (used, whole, v.signed)

module _ (h : MftRecordHeader) (v : IsRecordHeader h) (after : List ℕ) where
  abbrev bytes : List ℕ
  bytes = record_fields h after

  pub record_header_lem : record_header bytes ≡ h
  unfolding record_header
  record_header_lem =
      let four : length h.signature ≡ 4 = rw v.signed refl in
      let d4 = drop-next 0 4 bytes h.signature (after_signature h after) refl four in
      let d6 = drop-next_number 4 2 h.update_sequence_offset bytes _ d4 in
      let d8 = drop-next_number 6 2 h.update_sequence_size bytes _ d6 in
      let d16 = drop-next_number 8 8 h.log_file_sequence_number bytes _ d8 in
      let d18 = drop-next_number 16 2 h.sequence_number bytes _ d16 in
      let d20 = drop-next_number 18 2 h.hard_link_count bytes _ d18 in
      let d22 = drop-next_number 20 2 h.first_attribute_offset bytes _ d20 in
      let d24 = drop-next_number 22 2 h.flags bytes _ d22 in
      let d28 = drop-next_number 24 4 h.bytes_in_use bytes _ d24 in
      let d32 = drop-next_number 28 4 h.bytes_allocated bytes _ d28 in
      let d40 = drop-next_number 32 8 h.base_file_record bytes _ d32 in
      let used = v.in_use in
      let allocated = v.allocated in
      let start = v.inside in
      rw (
        slice_at-field 0 4 bytes h.signature (after_signature h after) refl four,
        read_number 4 2 h.update_sequence_offset bytes _ d4 (omega (arith, v.offset_fits)),
        read_number 6 2 h.update_sequence_size bytes _ d6 (omega (arith, v.size_fits)),
        read_number 8 8 h.log_file_sequence_number bytes _ d8 (omega (arith, v.log_fits)),
        read_number 16 2 h.sequence_number bytes _ d16 (omega (arith, v.sequence_fits)),
        read_number 18 2 h.hard_link_count bytes _ d18 (omega (arith, v.links_fit)),
        read_number 20 2 h.first_attribute_offset bytes _ d20 (omega arith),
        read_number 22 2 h.flags bytes _ d22 (omega (arith, v.flags_fit)),
        read_number 24 4 h.bytes_in_use bytes _ d24 (omega arith),
        read_number 28 4 h.bytes_allocated bytes _ d28 (omega arith),
        read_number 32 8 h.base_file_record bytes _ d32 (omega (arith, v.base_fits)),
        read_number 40 2 h.next_attribute_id bytes _ d40 (omega (arith, v.id_fits)),
      )

-- The first attribute, or the end marker, stands where the header says.
pub drop-record_fields :
    (h : MftRecordHeader) (after : List ℕ)
    → IsPlaced h
    → drop h.first_attribute_offset
        (record_fields h (replicate (h.first_attribute_offset - 42) 0 ++ after))
      ≡ after
drop-record_fields h after v =
    let n = h.first_attribute_offset - 42 in
    let zeros : List ℕ = replicate n 0 in
    let front = record_fields h zeros in
    let joined : record_fields h (zeros ++ after) ≡ front ++ after = simp append_assoc in
    let size : length front ≡ h.first_attribute_offset = omega (
      arith,
      length-record_fields h zeros,
      length-replicate n zero_byte,
      v.signed,
      v.behind_header,
    ) in
    rw joined (drop-append_at h.first_attribute_offset front after size)
