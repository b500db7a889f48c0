-- ===== src/Galleon/Mft/Endless.antt =====
-- Where the loop that reads the attributes of a record never ends.
use prisma_os.Base.{
  subst, ℕ, zero, suc, ◌+◌, ◌≤◌, ◌<◌, ◌≡◌, refl, ◌∙◌, ap, false, List, [], ◌∷◌, ◌++◌, length,
  length-append, append_assoc, arith, le→ltb, lt→ltb, ◌==◌, drop, drop-append_le, replicate, All,
  inl, inr,
}
use prisma_os.Base.Bytes.{le_bytes, from_le_bytes}
use prisma_os.Base.Fields.{drop-drop, slice_at}
use prisma_os.Galleon.Journal.{pad}
use prisma_os.Galleon.Run.{run}
use prisma_os.Galleon.Mft.{
  Attribute, plain_data, resident, non_resident, MftRecord, get_size, new_non_resident, run_sizes,
}
use prisma_os.Galleon.Mft.Bytes.{
  attribute_fields, attribute_serialize, attribute_deserialize, attribute_header, after_type,
  data_bytes, read_data, value, out_of_fuel, ◌>>=◌, record_serialize, read_attributes,
  record_deserialize,
}
use prisma_os.Galleon.Mft.Attributes.{IsHeader, attribute_header_lem, attribute_serialize_lem}
use prisma_os.Galleon.Mft.Writing.{attributes_bytes, attributes_size}
use prisma_os.Galleon.Mft.Reading.{IsExact}
use prisma_os.Galleon.Mft.Records.{
  end_of, left_of, with_found, reread-front, record_bytes, IsFilled, length-record_bytes,
}

-- From an attribute that says it has no length the loop never ends: no fuel is enough.
pub read_attributes_stuck :
    (fuel offset bytes_in_use : ℕ) (input : List ℕ) (a : Attribute) (found : List Attribute)
    → offset < bytes_in_use
    → offset + 4 ≤ length input
    → (from_le_bytes (slice_at input offset 4) == 0xffffffff) ≡ false
    → attribute_deserialize (drop offset input) ≡ value a
    → get_size a ≡ 0
    → read_attributes fuel offset bytes_in_use input found ≡ out_of_fuel
unfolding read_attributes
read_attributes_stuck zero offset bytes_in_use input a found inside room other here empty = refl
read_attributes_stuck (suc fuel) offset bytes_in_use input a found inside room other here empty =
    let same : offset + 0 ≡ offset = omega arith in
    rw
      (
        lt→ltb offset bytes_in_use inside,
        le→ltb (length input) (offset + 4) room,
        other,
        here,
        empty,
        same,
      )
      (read_attributes_stuck fuel offset bytes_in_use input a (found ++ (a ∷ [])) inside room other
        here empty)

-- The data attribute of a file of `size` bytes that is not resident, as the manager makes it.
abbrev pub large : ℕ → Attribute
large size = new_non_resident plain_data (run 0 1 ∷ []) size

-- What is read where the runs stand.
abbrev run_attribute : Attribute
run_attribute = record {
  header = record {
    attr_type = 1;
    attr_length = 0;
    is_non_resident = false;
    name_length = 0;
    name_offset = 0;
    flags = 0;
    attribute_id = 0;
  };
  name = [];
  content = resident [];
}

abbrev run_zeros : List ℕ
run_zeros = replicate 23 0

large_runs : (size : ℕ) → drop 64 (attribute_serialize (large size)) ≡ 1 ∷ run_zeros
unfolding attribute_serialize pad le_bytes new_non_resident run_sizes
large_runs size = refl

length-large : (size : ℕ) → length (attribute_serialize (large size)) ≡ 88
unfolding attribute_serialize pad le_bytes new_non_resident run_sizes
length-large size = refl

run_attribute_lem :
    (rest : List ℕ) → attribute_deserialize (1 ∷ (run_zeros ++ rest)) ≡ value run_attribute
unfolding attribute_deserialize attribute_header read_data from_le_bytes
run_attribute_lem rest =
    let input = 1 ∷ (run_zeros ++ rest) in
    let size : length input ≡ 24 + length rest = omega (arith, length-append run_zeros rest) in
    rw
      (
        le→ltb (length input) 16 (omega arith),
        le→ltb (length input) 22 (omega arith),
        le→ltb (length input) 0 (omega arith),
      )
      refl

large-IsHeader : (size : ℕ) → IsHeader (large size).header
unfolding new_non_resident
large-IsHeader size = record {
  type_fits = omega arith;
  length_fits = omega arith;
  offset_fits = omega arith;
  flags_fit = omega arith;
  id_fits = omega arith;
}

-- The header of the attribute is read, but not its runs.
large-read :
    (size : ℕ) (rest : List ℕ)
    → (a : Attribute) × (attribute_deserialize (attribute_serialize (large size) ++ rest) ≡ value a)
      × (get_size a ≡ 64)
unfolding attribute_deserialize read_data new_non_resident get_size le_bytes from_le_bytes
large-read size rest =
    let h = (large size).header in
    let (zeros, e, filled) = attribute_serialize_lem (large size) in
    let after = data_bytes (large size).content [] ++ (zeros ++ rest) in
    let bytes = le_bytes 4 h.attr_type ++ after_type h after in
    let same : attribute_serialize (large size) ++ rest ≡ bytes =
      ap (λ bs. bs ++ rest) e
      ∙ append_assoc (attribute_fields (large size) []) zeros rest
      ∙ simp (append_assoc) refl in
    let long : 56 ≤ length bytes =
      subst (λ bs. 56 ≤ length bs) same
        (omega (arith, length-append (attribute_serialize (large size)) rest, length-large size)) in
    (
      record {
        header = h;
        name = [];
        content =
            non_resident [] (from_le_bytes (slice_at bytes 32 8))
              (from_le_bytes (slice_at bytes 40 8)) (from_le_bytes (slice_at bytes 48 8));
      },
      rw (
        same,
        le→ltb (length bytes) 16 (omega arith),
        attribute_header_lem h (large-IsHeader size) after,
        le→ltb (length bytes) 56 long,
      ),
      refl,
    )

large-type :
    (size offset : ℕ) (input rest : List ℕ)
    → drop offset input ≡ attribute_serialize (large size) ++ rest
    → (from_le_bytes (slice_at input offset 4) == 0xffffffff) ≡ false
unfolding attribute_serialize pad le_bytes new_non_resident run_sizes from_le_bytes
large-type size offset input rest at = rw at refl

-- Behind the header of such an attribute the loop reads the runs, and never ends.
at_large :
    (size fuel offset bytes_in_use : ℕ) (input rest : List ℕ) (found : List Attribute)
    → offset + 64 < bytes_in_use
    → offset + 88 ≤ length input
    → drop offset input ≡ attribute_serialize (large size) ++ rest
    → read_attributes (suc fuel) offset bytes_in_use input found ≡ out_of_fuel
unfolding read_attributes from_le_bytes
at_large size fuel offset bytes_in_use input rest found inside room at =
    let (a, read, sized) = large-read size rest in
    let next : drop (offset + 64) input ≡ 1 ∷ (run_zeros ++ rest) =
      drop-drop offset 64 input
      ∙ ap (drop 64) at
      ∙ drop-append_le 64 (attribute_serialize (large size)) rest (omega (arith, length-large size))
      ∙ ap (λ bs. bs ++ rest) (large_runs size) in
    let other : (from_le_bytes (slice_at input (offset + 64) 4) == 0xffffffff) ≡ false =
      rw next refl in
    let here : attribute_deserialize (drop (offset + 64) input) ≡ value run_attribute =
      ap attribute_deserialize next ∙ run_attribute_lem rest in
    rw
      (
        lt→ltb offset bytes_in_use (omega arith),
        le→ltb (length input) (offset + 4) (omega arith),
        large-type size offset input rest at,
        at,
        read,
        sized,
      )
      (read_attributes_stuck fuel (offset + 64) bytes_in_use input run_attribute (found ++ (a ∷ []))
        inside (omega arith) other here (unfold get_size in refl))

pub attributes_size-append :
    (front back : List Attribute)
    → attributes_size (front ++ back) ≡ attributes_size front + attributes_size back
attributes_size-append [] back = omega arith
attributes_size-append (a ∷ front) back = omega (arith, attributes_size-append front back)

-- A record with a valid header whose attributes fit in its 1024 bytes, and which holds the data attribute
-- that the manager makes for a file of more than 700 bytes, behind attributes of the right length and
-- ending before the last of the bytes in use, is written, and reading what was written never ends: no
-- fuel is enough.
pub record_deserialize-record_serialize_stuck :
    (r : MftRecord) (front back : List Attribute) (size fuel : ℕ)
    → IsFilled r
    → r.attributes ≡ front ++ (large size ∷ back)
    → All IsExact front
    → r.header.first_attribute_offset + attributes_size front + 64 < r.header.bytes_in_use
    → (record_serialize r >>= λ bytes. record_deserialize fuel bytes r.record_number) ≡ out_of_fuel
record_deserialize-record_serialize_stuck r front back size fuel v listed exact used =
    let full = length-record_bytes r v in
    let held = ap attributes_size listed ∙ attributes_size-append front (large size ∷ back) in
    let room : end_of r front + 88 ≤ 1024 = omega (arith, v.room, length-large size) in
    let (there, read) =
      reread-front r front (large size ∷ back) fuel v listed exact (omega arith) (omega arith) in
    elim read [
      | inl (few, e) ↦ e
      | inr (k, enough, e) ↦
          let never =
            at_large size k (end_of r front) r.header.bytes_in_use (record_bytes r)
              (attributes_bytes back (replicate (left_of r) 0)) front used (omega arith) there in
          e ∙ ap (λ m. m >>= with_found r) never
    ]
