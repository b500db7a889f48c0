-- ===== src/Galleon/Mft/Records.antt =====
-- A record of resident attributes of whole groups of eight bytes is read back as it was written.
use prisma_os.Base.{
  drop, ◌⊎◌, inl, inr, append-nil, ℕ, ◌+◌, ◌-◌, ◌%◌, ◌≤◌, ◌<◌, ◌^◌, ◌≡◌, refl, List, [], ◌++◌,
  length, length-append, arith, le→ltb, replicate, length-replicate, All, sym, suc, ◌∙◌, ap,
}
use prisma_os.Galleon.Mft.{
  AttributeType, MftRecord, mft_record_size, get_size, new_resident, Attribute,
}
use prisma_os.Galleon.Mft.Bytes.{
  out_of_fuel, value, ◌>>=◌, record_fields, record_serialize, read_attributes, record_deserialize,
  Ends,
}
use prisma_os.Galleon.Mft.Attributes.{length-attribute_serialize, new_resident-IsResident}
use prisma_os.Galleon.Mft.Writing.{
  attributes_bytes, attributes_size, record_serialize_lem, length-attributes_bytes,
  length-record_fields, zero_byte,
}
use prisma_os.Galleon.Mft.Reading.{
  IsExact, IsRecordHeader, IsPlaced-header, valid-header, record_header_lem, drop-record_fields,
  read_attributes-front, read_attributes-end_marker,
}

-- What the bytes of the record are when its attributes fit.
abbrev pub record_bytes : MftRecord → List ℕ
record_bytes r =
    let left = 1024 - r.header.first_attribute_offset - (attributes_size r.attributes + 4) in
    record_fields r.header (
      replicate (r.header.first_attribute_offset - 42) 0
      ++ attributes_bytes r.attributes (replicate left 0))

-- The header is valid and the attributes fit, which end before the bytes in use.
pub record IsFilled (r : MftRecord) : Type 0 where
  pub header : IsRecordHeader r.header
  pub room : r.header.first_attribute_offset + attributes_size r.attributes + 4 ≤ 1024

module _ (r : MftRecord) (v : IsFilled r) where
  pub record_serialize-record_bytes : record_serialize r ≡ value (record_bytes r)
  record_serialize-record_bytes = record_serialize_lem r (IsPlaced-header v.header) v.room

  pub length-record_bytes : length (record_bytes r) ≡ 1024
  length-record_bytes =
      let left = 1024 - r.header.first_attribute_offset - (attributes_size r.attributes + 4) in
      let zeros : List ℕ = replicate (r.header.first_attribute_offset - 42) 0 in
      let after = attributes_bytes r.attributes (replicate left 0) in
      let placed = IsPlaced-header v.header in
      omega (
        arith,
        length-record_fields r.header (zeros ++ after),
        length-append zeros after,
        length-replicate (r.header.first_attribute_offset - 42) zero_byte,
        length-attributes_bytes r.attributes (replicate left 0),
        length-replicate left zero_byte,
        placed.signed,
        placed.behind_header,
        v.room,
      )

  -- Reading the record is reading its attributes.
  pub record_deserialize-record_bytes :
      (fuel : ℕ)
      → record_deserialize fuel (record_bytes r) r.record_number ≡ (
          read_attributes fuel r.header.first_attribute_offset r.header.bytes_in_use
            (record_bytes r)
            []
          >>= λ found.
              value
                (record { header = r.header; attributes = found; record_number = r.record_number }))
  unfolding record_deserialize
  record_deserialize-record_bytes fuel =
      let left = 1024 - r.header.first_attribute_offset - (attributes_size r.attributes + 4) in
      let zeros : List ℕ = replicate (r.header.first_attribute_offset - 42) 0 in
      let after = attributes_bytes r.attributes (replicate left 0) in
      let same = record_header_lem r.header v.header (zeros ++ after) in
      let size = length-record_bytes in
      rw
        (
          le→ltb (length (record_bytes r)) mft_record_size (omega arith),
          same,
          valid-header r.header v.header,
        )
        refl

-- Writing the record and reading it back.
abbrev pub reread : ℕ → MftRecord → Ends MftRecord
reread fuel r = record_serialize r >>= λ bytes. record_deserialize fuel bytes r.record_number

abbrev pub with_found : MftRecord → List Attribute → Ends MftRecord
with_found r found =
    value (record { header = r.header; attributes = found; record_number = r.record_number })

-- Where the attributes behind the first ones stand.
abbrev pub end_of : MftRecord → List Attribute → ℕ
end_of r front = r.header.first_attribute_offset + attributes_size front

-- The zeros at the end of the record.
abbrev pub left_of : MftRecord → ℕ
left_of r = 1024 - r.header.first_attribute_offset - (attributes_size r.attributes + 4)

-- Reading a record back goes through its first attributes, if they have the right length and the
-- fuel has a round for each and one more.
pub reread-front :
    (r : MftRecord) (front back : List Attribute) (fuel : ℕ)
    → IsFilled r
    → r.attributes ≡ front ++ back
    → All IsExact front
    → end_of r front < r.header.bytes_in_use
    → end_of r front + 4 ≤ 1024
    → (drop (end_of r front) (record_bytes r) ≡ attributes_bytes back (replicate (left_of r) 0))
      × (((fuel ≤ length front) × (reread fuel r ≡ out_of_fuel))
          ⊎ (k : ℕ) × (fuel ≡ length front + suc k)
            × (reread fuel r ≡ (
                read_attributes
                  (suc k)
                  (end_of r front)
                  r.header.bytes_in_use
                  (record_bytes r)
                  front
                >>= with_found r)))
reread-front r front back fuel v listed exact used room =
    let start = r.header.first_attribute_offset in
    let zeros : List ℕ = replicate (left_of r) 0 in
    let at =
      drop-record_fields r.header (attributes_bytes r.attributes zeros) (IsPlaced-header v.header)
      ∙ ap (λ entries. attributes_bytes entries zeros) listed in
    let size = length-record_bytes r v in
    let (there, rest) =
      read_attributes-front front back fuel start r.header.bytes_in_use (record_bytes r) zeros []
        exact used (omega arith) at in
    let opened : reread fuel r
        ≡ (read_attributes fuel start r.header.bytes_in_use (record_bytes r) [] >>= with_found r) =
      rw (record_serialize-record_bytes r v, ◌>>=◌) (record_deserialize-record_bytes r v fuel) in
    (
      there,
      (elim rest [
        | inl (few, e) ↦ inl (few, opened ∙ ap (λ m. m >>= with_found r) e)
        | inr (k, enough, e) ↦ inr (k, enough, opened ∙ ap (λ m. m >>= with_found r) e)
      ]),
    )

-- A record whose header is valid, whose attributes are resident and say the length of their bytes,
-- which end inside the record and before the last of the bytes in use, is written and
-- read back as it was, with more fuel than it has attributes.
pub record_deserialize-record_serialize :
    (r : MftRecord) (fuel : ℕ)
    → IsFilled r
    → All IsExact r.attributes
    → r.header.first_attribute_offset + attributes_size r.attributes < r.header.bytes_in_use
    → length r.attributes < fuel
    → (record_serialize r >>= λ bytes. record_deserialize fuel bytes r.record_number) ≡ value r
record_deserialize-record_serialize r fuel v exact used fuelled =
    let room : end_of r r.attributes + 4 ≤ 1024 = v.room in
    let (there, read) =
      reread-front r r.attributes [] fuel v (sym (append-nil r.attributes)) exact used room in
    elim read [
      | inl (few, e) ↦ absurd (omega arith)
      | inr (k, enough, e) ↦
          let size = length-record_bytes r v in
          let ended =
            read_attributes-end_marker k (end_of r r.attributes) r.header.bytes_in_use
              (record_bytes r) (replicate (left_of r) 0) r.attributes used (omega arith) there in
          e ∙ ap (λ m. m >>= with_found r) ended
    ]

-- The length of a resident attribute is that of its bytes when its data fills groups of eight.
pub new_resident-IsExact :
    (t : AttributeType) (bytes : List ℕ)
    → 24 + length bytes < 2 ^ 32
    → length bytes % 8 ≡ 0
    → IsExact (new_resident t bytes)
unfolding new_resident get_size
new_resident-IsExact t bytes small whole =
    let v = new_resident-IsResident t bytes small in
    let size = length-attribute_serialize (new_resident t bytes) bytes refl in (v, omega arith)
