-- ===== src/Galleon/Mft/Ending.antt =====
-- When the loop that reads the attributes of a record ends.
use prisma_os.Base.{
  ℕ, zero, suc, ◌+◌, ◌≤◌, ◌<◌, ◌≡◌, ◌≢◌, ◌⊎◌, inl, inr, refl, true, false, List, [], ◌∷◌, ◌++◌,
  arith, drop, Bool-cases, length, ltb, ◌==◌, lt→ltb, le→ltb,
}
use prisma_os.Base.Bytes.{from_le_bytes}
use prisma_os.Base.Fields.{slice_at}
use prisma_os.Galleon.Mft.{Attribute, get_size, header_is_valid, mft_record_size}
use prisma_os.Galleon.Mft.Bytes.{
  attribute_deserialize, attribute_header, read_data, value, out_of_fuel, read_attributes,
  record_deserialize, record_header,
}
use prisma_os.Galleon.Mft.Misread.{Ends-cases}
use prisma_os.Galleon.Mft.Endless.{read_attributes_stuck}

-- At the offset the loop goes on, with an attribute.
pub record Passes (bytes_in_use : ℕ) (input : List ℕ) (offset : ℕ) (a : Attribute) : Type 0 where
  pub used : offset < bytes_in_use
  pub room : offset + 4 ≤ length input
  pub no_end : (from_le_bytes (slice_at input offset 4) == 0xffffffff) ≡ false
  pub found : attribute_deserialize (drop offset input) ≡ value a

-- From one offset the loop comes to another.
pub data Arrives (bytes_in_use : ℕ) (input : List ℕ) : ℕ → ℕ → Type 0 where
  here : {offset : ℕ} → Arrives bytes_in_use input offset offset
  next :
      {offset last : ℕ} {a : Attribute}
      → Passes bytes_in_use input offset a
      → Arrives bytes_in_use input (offset + get_size a) last
      → Arrives bytes_in_use input offset last

-- From the offset the loop comes to an attribute of no length.
abbrev pub Stuck : ℕ → List ℕ → ℕ → Type 0
Stuck bytes_in_use input offset =
    (last : ℕ) × (a : Attribute) × Arrives bytes_in_use input offset last
    × Passes bytes_in_use input last a
    × (get_size a ≡ 0)

-- There it never ends.
read_attributes-Stuck :
    (bytes_in_use : ℕ) (input : List ℕ) (a : Attribute) {offset last : ℕ} (fuel : ℕ)
    (found : List Attribute)
    → Arrives bytes_in_use input offset last
    → Passes bytes_in_use input last a
    → get_size a ≡ 0
    → read_attributes fuel offset bytes_in_use input found ≡ out_of_fuel
unfolding read_attributes
read_attributes-Stuck bytes_in_use input a {offset = offset} fuel found here p empty =
    read_attributes_stuck fuel offset bytes_in_use input a found p.used p.room p.no_end p.found
      empty
read_attributes-Stuck bytes_in_use input a zero found (next q more) p empty = refl
read_attributes-Stuck bytes_in_use input a {offset = offset} (suc fuel) found (next {a = b} q more)
      p empty =
    rw
      (
        lt→ltb offset bytes_in_use q.used,
        le→ltb (length input) (offset + 4) q.room,
        q.no_end,
        q.found,
      )
      (read_attributes-Stuck bytes_in_use input a fuel (found ++ (b ∷ [])) more p empty)

attribute_deserialize-fuel : (input : List ℕ) → attribute_deserialize input ≢ out_of_fuel
unfolding attribute_deserialize read_data
attribute_deserialize-fuel input h = elim (Bool-cases (attribute_header input).is_non_resident) [
  | inl away ↦ ground arith
  | inr inside ↦ ground arith
]

zero_or_more : (n : ℕ) → (n ≡ 0) ⊎ (0 < n)
zero_or_more n = ground arith

-- With a round for each byte in use, the fuel is used up only where it comes to such an attribute.
read_attributes_ends :
    (fuel offset bytes_in_use : ℕ) (input : List ℕ) (found : List Attribute)
    → 0 < fuel
    → bytes_in_use < fuel + offset
    → read_attributes fuel offset bytes_in_use input found ≡ out_of_fuel
    → Stuck bytes_in_use input offset
unfolding read_attributes
read_attributes_ends zero offset bytes_in_use input found some_fuel enough h = absurd (omega arith)
read_attributes_ends (suc fuel) offset bytes_in_use input found some_fuel enough h =
    elim (Ends-cases (attribute_deserialize (drop offset input))) [
      | inl (a, e) ↦
          let passes : Passes bytes_in_use input offset a = record {
            used = ground arith;
            room = ground arith;
            no_end = ground arith;
            found = e;
          } in
          elim (zero_or_more (get_size a)) [
            | inl empty ↦ (offset, a, here, passes, empty)
            | inr long ↦
                let on : read_attributes fuel (offset + get_size a) bytes_in_use input
                      (found ++ (a ∷ []))
                    ≡ out_of_fuel =
                  ground arith in
                let (last, b, more, there, empty) =
                  read_attributes_ends fuel (offset + get_size a) bytes_in_use input
                    (found ++ (a ∷ [])) (omega (arith, passes.used)) (omega arith) on in
                (last, b, next passes more, there, empty)
          ]
      | inr (inl (e, r)) ↦ ground arith
      | inr (inr (inl p)) ↦ ground arith
      | inr (inr (inr o)) ↦ absurd (attribute_deserialize-fuel (drop offset input) o)
    ]

-- When reading a record uses up more than one round for each of its 1024 bytes, the loop over the
-- attributes comes, from the first of them on, to one that is read and says it has no length; and then
-- reading the record never ends: no fuel is enough.
pub record_deserialize_ends :
    (fuel : ℕ) (input : List ℕ) (record_number : ℕ)
    → 1024 < fuel
    → record_deserialize fuel input record_number ≡ out_of_fuel
    → Stuck (record_header input).bytes_in_use input (record_header input).first_attribute_offset
      × ((more : ℕ) → record_deserialize more input record_number ≡ out_of_fuel)
unfolding record_deserialize header_is_valid
record_deserialize_ends fuel input record_number enough h =
    let header = record_header input in
    let start = header.first_attribute_offset in
    let loop = read_attributes fuel start header.bytes_in_use input [] in
    elim (Ends-cases loop) [
      | inl (found, e) ↦ ground arith
      | inr (inl (e, r)) ↦ ground arith
      | inr (inr (inl p)) ↦ ground arith
      | inr (inr (inr o)) ↦
          let valid : header.bytes_in_use ≤ 1024 = ground arith in
          let whole : ltb (length input) mft_record_size ≡ false = ground arith in
          let good : header_is_valid header ≡ true = ground arith in
          let (last, a, arrives, there, empty) =
            read_attributes_ends fuel start header.bytes_in_use input [] (omega arith) (omega arith)
              o in
          (
            (last, a, arrives, there, empty),
            λ more.
                rw
                  (
                    whole,
                    good,
                    read_attributes-Stuck header.bytes_in_use input a more [] arrives there empty,
                  )
                  refl,
          )
    ]
