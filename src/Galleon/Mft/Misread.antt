-- ===== src/Galleon/Mft/Misread.antt =====
-- Records that are not read back: an attribute whose length is not that of its bytes.
use prisma_os.Base.{
  ℕ, zero, suc, ◌+◌, ◌-◌, ◌%◌, ◌≤◌, ◌<◌, ◌≡◌, ◌≢◌, refl, ◌∙◌, ap, sym, ◌⊎◌, inl, inr, false, List,
  [], ◌∷◌, ◌++◌, length, length-append, append_assoc, arith, ◌==◌, drop, drop-append_at,
  drop-append_le, All,
}
use prisma_os.Base.Bytes.{from_le_bytes}
use prisma_os.Base.Fields.{drop-drop, slice_at}
use prisma_os.Galleon.Error.{FilesystemError}
use prisma_os.Galleon.Journal.{pad}
use prisma_os.Galleon.Journal.Padding.{pad_lem}
use prisma_os.Galleon.Mft.{Attribute, resident, MftRecord, get_size}
use prisma_os.Galleon.Mft.Bytes.{
  attribute_fields, attribute_serialize, attribute_deserialize, Ends, value, refused, panic,
  out_of_fuel, ◌>>=◌, record_serialize, read_attributes, record_deserialize,
}
use prisma_os.Galleon.Mft.Attributes.{
  IsResident, length-attribute_fields, length-attribute_serialize,
}
use prisma_os.Galleon.Mft.Writing.{attributes_size}
use prisma_os.Galleon.Mft.Reading.{read_attributes_step, IsExact}
use prisma_os.Galleon.Mft.Records.{
  end_of, reread-front, record_bytes, IsFilled, length-record_bytes,
}

pub Ends-cases {ℓ} :
    {A : Type ℓ} (m : Ends A)
    → ((a : A) × (m ≡ value a))
      ⊎ (((e : FilesystemError) × (m ≡ refused e)) ⊎ ((m ≡ panic) ⊎ (m ≡ out_of_fuel)))
Ends-cases (value a) = inl (a, refl)
Ends-cases (refused e) = inr (inl (e, refl))
Ends-cases panic = inr (inr (inl refl))
Ends-cases out_of_fuel = inr (inr (inr refl))

-- The loop keeps what it has found.
longer :
    (fuel offset bytes_in_use : ℕ) (input : List ℕ) (found entries : List Attribute)
    → read_attributes fuel offset bytes_in_use input found ≡ value entries
    → length found ≤ length entries
unfolding read_attributes
longer zero offset bytes_in_use input found entries h = cc
longer (suc fuel) offset bytes_in_use input found entries h =
    elim (Ends-cases (attribute_deserialize (drop offset input))) [
      | inl (a, e) ↦
          let more : length (found ++ (a ∷ [])) ≡ length found + 1 = length-append found (a ∷ []) in
          ground (
            arith,
            longer fuel (offset + get_size a) bytes_in_use input (found ++ (a ∷ [])) entries,
          )
      | inr (inl (e, r)) ↦ ground arith
      | inr (inr (inl p)) ↦ ground arith
      | inr (inr (inr o)) ↦ ground arith
    ]

-- Four bytes of which the first is zero are no end marker.
no_marker :
    (offset : ℕ) (input more : List ℕ)
    → drop offset input ≡ 0 ∷ more
    → (from_le_bytes (slice_at input offset 4) == 0xffffffff) ≡ false
unfolding from_le_bytes
no_marker offset input more at = rw at (ground arith)

-- Where no end marker stands before the end of the bytes in use, the loop finds more, or
-- does not end well.
not_the_end :
    (fuel offset bytes_in_use : ℕ) (input : List ℕ) (found : List Attribute) (more : List ℕ)
    → offset < bytes_in_use
    → drop offset input ≡ 0 ∷ more
    → read_attributes fuel offset bytes_in_use input found ≢ value found
unfolding read_attributes
not_the_end zero offset bytes_in_use input found more inside at h = cc
not_the_end (suc fuel) offset bytes_in_use input found more inside at h =
    let other = no_marker offset input more at in
    elim (Ends-cases (attribute_deserialize (drop offset input))) [
      | inl (a, e) ↦
          let size : length (found ++ (a ∷ [])) ≡ length found + 1 = length-append found (a ∷ []) in
          ground
            (arith, longer fuel (offset + get_size a) bytes_in_use input (found ++ (a ∷ [])) found)
      | inr (inl (e, r)) ↦ ground arith
      | inr (inr (inl p)) ↦ ground arith
      | inr (inr (inr o)) ↦ ground arith
    ]

-- An attribute that says the length of its fields, while its bytes are padded.
pub record IsPadded (a : Attribute) : Type 0 where
  pub kept : IsResident a
  pub bytes : List ℕ
  pub content : a.content ≡ resident bytes
  pub size : get_size a ≡ 24 + length bytes
  pub uneven : length bytes % 8 ≢ 0

rounds : (n : ℕ) → (8 - n % 8) % 8 ≤ 7
rounds n = omega arith

-- Behind the fields of such an attribute stands a zero.
padding :
    (a : Attribute)
    → IsPadded a
    → (more : List ℕ) × (drop (get_size a) (attribute_serialize a) ≡ 0 ∷ more)
unfolding attribute_serialize pad
padding a v =
    let total : length (attribute_fields a []) ≡ get_size a =
      omega (arith, length-attribute_fields a v.bytes [] v.content, v.size) in
    let odd : (length (attribute_fields a []) % 8 == 0) ≡ false =
      let u = v.uneven in let s = v.size in ground arith in
    let (zeros, e, filled) =
      pad_lem 7 (attribute_fields a [] ++ (0 ∷ []))
        (rounds (length (attribute_fields a [] ++ (0 ∷ [])))) in
    (
      zeros,
      rw (odd, e, append_assoc (attribute_fields a []) (0 ∷ []) zeros)
          (drop-append_at (get_size a) (attribute_fields a []) (0 ∷ zeros) total),
    )

-- Reading an attribute that is padded, and what follows it.
misread :
    (a : Attribute) (fuel offset bytes_in_use : ℕ) (input rest : List ℕ) (found : List Attribute)
    → IsPadded a
    → offset + get_size a < bytes_in_use
    → offset + 4 ≤ length input
    → drop offset input ≡ attribute_serialize a ++ rest
    → read_attributes (suc fuel) offset bytes_in_use input found ≢ value (found ++ (a ∷ []))
misread a fuel offset bytes_in_use input rest found padded inside room at h =
    let (more, zero_there) = padding a padded in
    let long = length-attribute_serialize a padded.bytes padded.content in
    let step =
      read_attributes_step fuel offset bytes_in_use input rest found a padded.kept (omega arith)
        room at in
    let next : drop (offset + get_size a) input ≡ 0 ∷ (more ++ rest) =
      drop-drop offset (get_size a) input
      ∙ ap (drop (get_size a)) at
      ∙ drop-append_le (get_size a) (attribute_serialize a) rest (omega (arith, long, padded.size))
      ∙ ap (λ z. z ++ rest) zero_there in
    not_the_end fuel (offset + get_size a) bytes_in_use input (found ++ (a ∷ [])) (more ++ rest)
      inside next (sym step ∙ h)

attributes_of :
    (r : MftRecord) (m : Ends (List Attribute))
    → (m >>= λ found.
        value (record { header = r.header; attributes = found; record_number = r.record_number }))
      ≡ value r
    → m ≡ value r.attributes
attributes_of r (value found) h = ground arith
attributes_of r (refused e) h = cc
attributes_of r panic h = cc
attributes_of r out_of_fuel h = cc

-- A record with a valid header whose attributes fit in its 1024 bytes, whose last attribute is resident
-- and unnamed, says that it has 24 bytes and those of its data, which do not fill groups of eight, and
-- ends before the last of the bytes in use, the others being of the right length, is not read back as it
-- was written, with any fuel.
pub record_deserialize-record_serialize_padded :
    (r : MftRecord) (front : List Attribute) (a : Attribute) (fuel : ℕ)
    → IsFilled r
    → r.attributes ≡ front ++ (a ∷ [])
    → All IsExact front
    → IsPadded a
    → r.header.first_attribute_offset + attributes_size front + get_size a < r.header.bytes_in_use
    → (record_serialize r >>= λ bytes. record_deserialize fuel bytes r.record_number) ≢ value r
record_deserialize-record_serialize_padded r front a fuel v listed exact padded used h =
    let size = length-record_bytes r v in
    let room : end_of r front + 4 ≤ 1024 = omega (arith, v.header.in_use, padded.size) in
    let (there, read) = reread-front r front (a ∷ []) fuel v listed exact (omega arith) room in
    elim read [
      | inl (few, e) ↦ cc
      | inr (k, enough, e) ↦
          let last =
            read_attributes (suc k) (end_of r front) r.header.bytes_in_use (record_bytes r) front in
          misread a k (end_of r front) r.header.bytes_in_use (record_bytes r) _ front padded used
            (omega arith) there (attributes_of r last (sym e ∙ h) ∙ ap value listed)
    ]
