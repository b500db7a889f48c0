-- ===== src/Galleon/Mft/Shrunk.antt =====
-- A record with an attribute that says more than the length of its bytes is never read to its end.
use prisma_os.Base.{
  ℕ, suc, ◌+◌, ◌-◌, ◌≤◌, ◌<◌, ◌≡◌, refl, ◌∙◌, ap, sym, false, List, [], ◌∷◌, ◌++◌, length,
  length-append, append_assoc, arith, le→ltb, ◌==◌, drop, drop-append_at, replicate, All, inl, inr,
}
use prisma_os.Base.Bytes.{from_le_bytes}
use prisma_os.Base.Fields.{drop-drop, slice_at}
use prisma_os.Galleon.Mft.{Attribute, resident, MftRecord, get_size}
use prisma_os.Galleon.Mft.Bytes.{
  attribute_serialize, attribute_deserialize, attribute_header, read_data, value, out_of_fuel,
  ◌>>=◌, record_serialize, read_attributes, record_deserialize, end_marker,
}
use prisma_os.Galleon.Mft.Endless.{read_attributes_stuck, attributes_size-append}
use prisma_os.Galleon.Mft.Attributes.{IsResident}
use prisma_os.Galleon.Mft.Writing.{
  attributes_bytes, attributes_size, zero_byte, replicate-add, drop-replicate,
}
use prisma_os.Galleon.Mft.Reading.{read_attributes_step, IsExact}
use prisma_os.Galleon.Mft.Records.{
  end_of, left_of, with_found, reread-front, record_bytes, IsFilled, length-record_bytes,
}

-- An attribute that says it is at least four bytes longer than its bytes are.
pub record IsShrunk (a : Attribute) : Type 0 where
  pub kept : IsResident a
  pub short : length (attribute_serialize a) + 4 ≤ get_size a

abbrev zero_attribute : Attribute
zero_attribute = record {
  header = record {
    attr_type = 0;
    attr_length = 0;
    is_non_resident = false;
    name_length = 0;
    name_offset = 0;
    flags = 0;
    attribute_id = 0;
  };
  name = [];
  content = resident [];
}

abbrev zeros_22 : List ℕ
zeros_22 = replicate 22 0

zero_attribute_lem :
    (rest : List ℕ) → attribute_deserialize (zeros_22 ++ rest) ≡ value zero_attribute
unfolding attribute_deserialize attribute_header read_data from_le_bytes
zero_attribute_lem rest =
    let size : length (zeros_22 ++ rest) ≡ 22 + length rest =
      omega (arith, length-append zeros_22 rest) in
    rw
      (
        le→ltb (length (zeros_22 ++ rest)) 16 (omega arith),
        le→ltb (length (zeros_22 ++ rest)) 22 (omega arith),
        le→ltb (length (zeros_22 ++ rest)) 0 (omega arith),
      )
      refl

-- Where 22 zeros stand before the end of the bytes in use the loop never ends.
at_zeros :
    (fuel offset bytes_in_use : ℕ) (input rest : List ℕ) (found : List Attribute)
    → offset < bytes_in_use
    → offset + 4 ≤ length input
    → drop offset input ≡ zeros_22 ++ rest
    → read_attributes fuel offset bytes_in_use input found ≡ out_of_fuel
unfolding from_le_bytes
at_zeros fuel offset bytes_in_use input rest found inside room at =
    let other : (from_le_bytes (slice_at input offset 4) == 0xffffffff) ≡ false = rw at refl in
    let here : attribute_deserialize (drop offset input) ≡ value zero_attribute =
      ap attribute_deserialize at ∙ zero_attribute_lem rest in
    read_attributes_stuck fuel offset bytes_in_use input zero_attribute found inside room other here
      (unfold get_size in refl)

-- Behind the attribute's bytes and the end marker stand zeros.
shrunk :
    (a : Attribute) (fuel offset bytes_in_use left : ℕ) (input : List ℕ) (found : List Attribute)
    → IsShrunk a
    → offset + get_size a < bytes_in_use
    → offset + get_size a + 22 ≤ length input
    → get_size a + 22 ≤ length (attribute_serialize a) + 4 + left
    → drop offset input ≡ attributes_bytes (a ∷ []) (replicate left 0)
    → read_attributes (suc fuel) offset bytes_in_use input found ≡ out_of_fuel
shrunk a fuel offset bytes_in_use left input found s inside room long at =
    let bytes = attribute_serialize a in
    let tail : List ℕ = replicate left 0 in
    let whole = bytes ++ (end_marker ++ tail) in
    let step =
      read_attributes_step fuel offset bytes_in_use input (end_marker ++ tail) found a s.kept
        (omega arith) (omega arith) at in
    let k = get_size a - (length bytes + 4) in
    let e : get_size a ≡ length bytes + 4 + k = omega (arith, s.short) in
    let n = left - k - 22 in
    let split : left - k ≡ 22 + n = omega (arith, s.short) in
    let next : drop (offset + get_size a) input ≡ zeros_22 ++ replicate n 0 =
      drop-drop offset (get_size a) input
      ∙ ap (drop (get_size a)) at
      ∙ ap (λ x. drop x whole) e
      ∙ drop-drop (length bytes + 4) k whole
      ∙ ap (drop k) (
          ap (drop (length bytes + 4)) (sym (append_assoc bytes end_marker tail))
          ∙ drop-append_at (length bytes + 4) (bytes ++ end_marker) tail
              (length-append bytes end_marker))
      ∙ drop-replicate k left
      ∙ ap (λ x. replicate x zero_byte) split
      ∙ replicate-add 22 n in
    step
    ∙ at_zeros fuel (offset + get_size a) bytes_in_use input (replicate n 0) (found ++ (a ∷ []))
        (omega arith) (omega arith) next

-- A record with a valid header whose attributes fit in its 1024 bytes, whose last attribute is resident
-- and unnamed and says it has at least four bytes more than its bytes are, ending by that before the
-- last of the bytes in use and 22 bytes before the end of the record, the others being of the right
-- length, is written, and reading what was written never ends: no fuel is enough.
pub record_deserialize-record_serialize_shrunk :
    (r : MftRecord) (front : List Attribute) (a : Attribute) (fuel : ℕ)
    → IsFilled r
    → r.attributes ≡ front ++ (a ∷ [])
    → All IsExact front
    → IsShrunk a
    → r.header.first_attribute_offset + attributes_size front + get_size a < r.header.bytes_in_use
    → r.header.first_attribute_offset + attributes_size front + get_size a + 22 ≤ 1024
    → (record_serialize r >>= λ bytes. record_deserialize fuel bytes r.record_number) ≡ out_of_fuel
record_deserialize-record_serialize_shrunk r front a fuel v listed exact s used room =
    let full = length-record_bytes r v in
    let held = ap attributes_size listed ∙ attributes_size-append front (a ∷ []) in
    let (there, read) =
      reread-front r front (a ∷ []) fuel v listed exact (omega arith) (omega arith) in
    elim read [
      | inl (few, e) ↦ e
      | inr (k, enough, e) ↦
          let never =
            shrunk a k (end_of r front) r.header.bytes_in_use (left_of r) (record_bytes r) front s
              used (omega arith) (omega (arith, v.room)) there in
          e ∙ ap (λ m. m >>= with_found r) never
    ]
