-- ===== src/Galleon/Mft/Writing.antt =====
-- The bytes of a record: where the attributes stand, and when they do not fit.
use prisma_os.Base.{
  ℕ, zero, suc, ◌-◌, ◌+◌, ◌≤◌, ◌<◌, ◌≡◌, refl, ◌⊎◌, inl, inr, ◌∙◌, ap, sym, List, [], ◌∷◌, ◌++◌,
  length, length-append, append_assoc, arith, drop, replicate, le→leb, leb, true, false,
  length-replicate, length-drop, take-append_at, drop-append_at,
}
use prisma_os.Base.Bytes.{length-le_bytes}
use prisma_os.Base.Fields.{drop-drop}
use prisma_os.Galleon.Mft.{Attribute, MftRecord, MftRecordHeader, mft_record_size}
use prisma_os.Galleon.Mft.Bytes.{
  value, panic, ◌>>=◌, write_into, write_attributes, attribute_serialize, end_marker, record_fields,
  record_serialize,
}

-- The attributes one after the other, the end marker, and the bytes after it.
abbrev pub attributes_bytes : List Attribute → List ℕ → List ℕ
attributes_bytes [] after = end_marker ++ after
attributes_bytes (a ∷ rest) after = attribute_serialize a ++ attributes_bytes rest after

-- The bytes of all attributes.
abbrev pub attributes_size : List Attribute → ℕ
attributes_size [] = 0
attributes_size (a ∷ rest) = length (attribute_serialize a) + attributes_size rest

write_into-append :
    (offset : ℕ) (front bytes back : List ℕ)
    → length front ≡ offset
    → length bytes ≤ length back
    → write_into offset bytes (front ++ back) ≡ value ((front ++ bytes) ++ drop (length bytes) back)
unfolding write_into
write_into-append offset front bytes back at room =
    let fits : leb (offset + length bytes) (length (front ++ back)) ≡ true =
      le→leb _ _ (omega (arith, length-append front back)) in
    let before = take-append_at offset front back at in
    let behind =
      drop-drop offset (length bytes) (front ++ back)
      ∙ ap (drop (length bytes)) (drop-append_at offset front back at) in
    rw (fits, before, behind) (ap value (sym (append_assoc front bytes (drop (length bytes) back))))

write_into-panic :
    (offset : ℕ) (bytes buffer : List ℕ)
    → length buffer < offset + length bytes
    → write_into offset bytes buffer ≡ panic
unfolding write_into
write_into-panic offset bytes buffer h =
    let over : leb (offset + length bytes) (length buffer) ≡ false = ground arith in rw over refl

pub write_attributes_lem :
    (entries : List Attribute) (offset : ℕ) (front back : List ℕ)
    → length front ≡ offset
    → attributes_size entries + 4 ≤ length back
    → write_attributes entries offset (front ++ back)
      ≡ value (front ++ attributes_bytes entries (drop (attributes_size entries + 4) back))
unfolding write_attributes
write_attributes_lem [] offset front back at room =
    write_into-append offset front end_marker back at room
    ∙ ap value (append_assoc front end_marker (drop 4 back))
write_attributes_lem (a ∷ rest) offset front back at room =
    let bytes = attribute_serialize a in
    let front' = front ++ bytes in
    let back' = drop (length bytes) back in
    let at' : length front' ≡ offset + length bytes = omega (arith, length-append front bytes) in
    let left : attributes_size rest + 4 ≤ length back' =
      omega (arith, length-drop (length bytes) back) in
    let more = write_attributes_lem rest (offset + length bytes) front' back' at' left in
    let sum : length bytes + attributes_size rest + 4 ≡ length bytes + (attributes_size rest + 4) =
      omega arith in
    let tail = drop-drop (length bytes) (attributes_size rest + 4) back in
    rw (write_into-append offset front bytes back at (omega arith), ◌>>=◌, more, sum, tail)
      (ap value
        (append_assoc front bytes (attributes_bytes rest (drop (attributes_size rest + 4) back'))))

le_or_lt : (a b : ℕ) → (a ≤ b) ⊎ (b < a)
le_or_lt a b = ground arith

write_attributes-panic :
    (entries : List Attribute) (offset : ℕ) (front back : List ℕ)
    → length front ≡ offset
    → length back < attributes_size entries + 4
    → write_attributes entries offset (front ++ back) ≡ panic
unfolding write_attributes
write_attributes-panic [] offset front back at h =
    write_into-panic offset end_marker (front ++ back) (omega (arith, length-append front back))
write_attributes-panic (a ∷ rest) offset front back at h =
    let bytes = attribute_serialize a in
    elim (le_or_lt (length bytes) (length back)) [
      | inl fits ↦
          let front' = front ++ bytes in
          let back' = drop (length bytes) back in
          let at' : length front' ≡ offset + length bytes =
            omega (arith, length-append front bytes) in
          let left : length back' < attributes_size rest + 4 =
            omega (arith, length-drop (length bytes) back) in
          rw (write_into-append offset front bytes back at fits, ◌>>=◌)
            (write_attributes-panic rest (offset + length bytes) front' back' at' left)
      | inr over ↦
          let past =
            write_into-panic offset bytes (front ++ back)
              (omega (arith, length-append front back)) in
          rw (past, ◌>>=◌) refl
    ]

pub length-record_fields :
    (h : MftRecordHeader) (after : List ℕ)
    → length (record_fields h after) ≡ length h.signature + 38 + length after
length-record_fields h after = simp (length-append, length-le_bytes) (omega arith)

append-record_fields :
    (h : MftRecordHeader) (a b : List ℕ) → record_fields h a ++ b ≡ record_fields h (a ++ b)
append-record_fields h a b = simp append_assoc

abbrev pub zero_byte : ℕ
zero_byte = 0

pub replicate-add : (m n : ℕ) → replicate (m + n) zero_byte ≡ replicate m 0 ++ replicate n 0
replicate-add zero n = let e : 0 + n ≡ n = omega arith in rw e refl
replicate-add (suc m) n =
    let e : suc m + n ≡ suc (m + n) = omega arith in rw e (ap (◌∷◌ zero_byte) (replicate-add m n))

pub drop-replicate : (k n : ℕ) → drop k (replicate n zero_byte) ≡ replicate (n - k) 0
drop-replicate zero n = let e : n - 0 ≡ n = omega arith in rw e refl
drop-replicate (suc k) zero = let e : 0 - suc k ≡ 0 = omega arith in rw e refl
drop-replicate (suc k) (suc n) =
    let e : suc n - suc k ≡ n - k = omega arith in rw e (drop-replicate k n)

-- The signature has four bytes, the header ends before the first attribute, and that is inside.
pub record IsPlaced (h : MftRecordHeader) : Type 0 where
  pub signed : length h.signature ≡ 4
  pub behind_header : 42 ≤ h.first_attribute_offset
  pub inside : h.first_attribute_offset ≤ mft_record_size

module _ (r : MftRecord) (v : IsPlaced r.header) where
  abbrev start : ℕ
  start = r.header.first_attribute_offset

  -- The bytes before the first attribute.
  abbrev pub header_zeros : List ℕ
  header_zeros = replicate (start - 42) 0

  length-front : length (record_fields r.header header_zeros) ≡ start
  length-front = omega (
    arith,
    length-record_fields r.header header_zeros,
    length-replicate (start - 42) zero_byte,
    v.signed,
    v.behind_header,
  )

  whole :
      record_fields r.header (replicate 982 0)
      ≡ record_fields r.header header_zeros ++ replicate (mft_record_size - start) 0
  whole =
      let e : 982 ≡ (start - 42) + (mft_record_size - start) =
        omega (arith, v.behind_header, v.inside) in
      ap (λ n. record_fields r.header (replicate n 0)) e
      ∙ ap (record_fields r.header) (replicate-add (start - 42) (mft_record_size - start))
      ∙ simp (append_assoc) refl

  -- The bytes of a record whose attributes fit, and that they are as many as a record has.
  pub record_serialize_lem :
      start + attributes_size r.attributes + 4 ≤ mft_record_size
      → record_serialize r
        ≡ value (
            record_fields r.header (
              header_zeros
              ++ attributes_bytes r.attributes
                  (replicate (mft_record_size - start - (attributes_size r.attributes + 4)) 0)))
  unfolding record_serialize
  record_serialize_lem room =
      let back : List ℕ = replicate (mft_record_size - start) 0 in
      let size : length back ≡ mft_record_size - start =
        length-replicate (mft_record_size - start) zero_byte in
      let front = record_fields r.header header_zeros in
      let tail = drop-replicate (attributes_size r.attributes + 4) (mft_record_size - start) in
      let after = attributes_bytes r.attributes (drop (attributes_size r.attributes + 4) back) in
      rw (whole, write_attributes_lem r.attributes start front back length-front (omega arith))
        (ap value (append-record_fields r.header header_zeros after)
          ∙ ap
              (λ z.
                value (record_fields r.header (header_zeros ++ attributes_bytes r.attributes z)))
              tail)

  -- A record is written exactly when its attributes and the end marker fit behind the header.
  pub record_serialize-panic :
      mft_record_size < start + attributes_size r.attributes + 4 → record_serialize r ≡ panic
  unfolding record_serialize
  record_serialize-panic over =
      let back : List ℕ = replicate (mft_record_size - start) 0 in
      let left : length back ≡ mft_record_size - start =
        length-replicate (mft_record_size - start) zero_byte in
      rw whole (
        write_attributes-panic r.attributes start (record_fields r.header header_zeros) back
          length-front (omega (arith, left, v.inside)))

pub length-attributes_bytes :
    (entries : List Attribute) (after : List ℕ)
    → length (attributes_bytes entries after) ≡ attributes_size entries + 4 + length after
length-attributes_bytes [] after = omega (arith, length-append end_marker after)
length-attributes_bytes (a ∷ rest) after = omega (
  arith,
  length-append (attribute_serialize a) (attributes_bytes rest after),
  length-attributes_bytes rest after,
)

-- A record whose signature has four bytes and whose first attribute stands behind the header is
-- written as 1024 bytes if its attributes and the end marker fit there; if not, writing panics.
pub record_serialize_total :
    (r : MftRecord)
    → IsPlaced r.header
    → let end = r.header.first_attribute_offset + attributes_size r.attributes + 4 in
      ((end ≤ 1024) × (bytes : List ℕ) × (record_serialize r ≡ value bytes) × (length bytes ≡ 1024))
      ⊎ ((1024 < end) × (record_serialize r ≡ panic))
record_serialize_total r v =
    let end = r.header.first_attribute_offset + attributes_size r.attributes + 4 in
    let left = 1024 - r.header.first_attribute_offset - (attributes_size r.attributes + 4) in
    let after = attributes_bytes r.attributes (replicate left 0) in
    let zeros = replicate (r.header.first_attribute_offset - 42) zero_byte in
    elim (le_or_lt end 1024) [
      | inl fits ↦ inl (
        fits,
        record_fields r.header (zeros ++ after),
        record_serialize_lem r v fits,
        omega (
          arith,
          length-record_fields r.header (zeros ++ after),
          length-append zeros after,
          length-replicate (r.header.first_attribute_offset - 42) zero_byte,
          length-attributes_bytes r.attributes (replicate left 0),
          length-replicate left zero_byte,
          v.signed,
          v.behind_header,
          v.inside,
        ),
      )
      | inr over ↦ inr (over, record_serialize-panic r v over)
    ]
