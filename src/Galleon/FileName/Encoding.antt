-- ===== src/Galleon/FileName/Encoding.antt =====
-- A file name attribute is read back from its bytes.
use prisma_os.Base.{
  ℕ, zero, suc, ◌+◌, ◌*◌, ◌%◌, ◌<◌, ◌≤◌, ◌^◌, ◌≡◌, refl, ◌∙◌, ap, sym, List, [], ◌∷◌, ◌++◌, length,
  length-append, append_assoc, append-nil, arith, le→ltb, lt→ltb, All, drop,
}
use prisma_os.Base.Bytes.{length-le_bytes, le_bytes}
use prisma_os.Base.Fields.{drop-next_number, read_number, drop-drop, get_or-drop}
use prisma_os.Galleon.Error.{FilesystemError, ok, err}
use prisma_os.Galleon.Journal.{pad}
use prisma_os.Galleon.Journal.Padding.{pad_lem, length-pad}
use prisma_os.Galleon.FileName.{
  FileName, widen, fields, after_parent, serialize, deserialize, read_name, to_u32,
}
use prisma_os.Galleon.FileName.Flags.{to_u32-lt, from_u32-to_u32}

-- Each number fits its field, and the name is at most 255 bytes of ASCII.
pub record IsFileName (f : FileName) : Type 0 where
  pub parent_fits : f.parent_directory < 2 ^ 64
  pub creation_fits : f.times.creation_time < 2 ^ 64
  pub access_fits : f.times.last_access_time < 2 ^ 64
  pub write_fits : f.times.last_write_time < 2 ^ 64
  pub change_fits : f.times.mft_change_time < 2 ^ 64
  pub allocated_fits : f.allocated_size < 2 ^ 64
  pub size_fits : f.file_size < 2 ^ 64
  pub name_fits : length f.name < 256
  pub ascii : All (λ b. b < 128) f.name

drop-lt : (k : ℕ) (xs : List ℕ) (x : ℕ) (rest : List ℕ) → drop k xs ≡ x ∷ rest → k < length xs
drop-lt zero [] x rest h = cc
drop-lt zero (y ∷ ys) x rest h = omega arith
drop-lt (suc k) [] x rest h = cc
drop-lt (suc k) (y ∷ ys) x rest h = omega (arith, drop-lt k ys x rest h)

-- The loop reads the wide characters that stand at its index.
read_name-widen :
    (name : List ℕ) (i : ℕ) (input before after : List ℕ)
    → All (λ b. b < 128) name
    → drop (62 + i * 2) input ≡ widen name ++ after
    → read_name (length name) i input before ≡ before ++ name
unfolding read_name
read_name-widen [] i input before after a at = sym (append-nil before)
read_name-widen (b ∷ name) i input before after a at =
    let next : drop (62 + (i + 1) * 2) input ≡ widen name ++ after =
      let e : 62 + (i + 1) * 2 ≡ (62 + i * 2) + 2 = omega arith in
      rw (e, drop-drop (62 + i * 2) 2 input, at) refl in
    rw
      (
        read_name,
        lt→ltb (62 + i * 2) (length input) (drop-lt (62 + i * 2) input b _ at),
        get_or-drop (62 + i * 2) input 0 b _ at,
        lt→ltb b 128 a.0,
        read_name-widen name (i + 1) input (before ++ (b ∷ [])) after a.1 next,
      )
      (append_assoc before (b ∷ []) name)

module _ (f : FileName) (v : IsFileName f) (after : List ℕ) where
  abbrev bytes : List ℕ
  bytes = fields f after

  deserialize-fields : 66 ≤ length bytes → deserialize bytes ≡ ok f
  unfolding deserialize
  deserialize-fields enough =
      let d0 : drop 0 bytes ≡ le_bytes 8 f.parent_directory ++ after_parent f after = refl in
      let d8 = drop-next_number 0 8 f.parent_directory bytes (after_parent f after) d0 in
      let d16 = drop-next_number 8 8 f.times.creation_time bytes _ d8 in
      let d24 = drop-next_number 16 8 f.times.last_access_time bytes _ d16 in
      let d32 = drop-next_number 24 8 f.times.last_write_time bytes _ d24 in
      let d40 = drop-next_number 32 8 f.times.mft_change_time bytes _ d32 in
      let d48 = drop-next_number 40 8 f.allocated_size bytes _ d40 in
      let d56 = drop-next_number 48 8 f.file_size bytes _ d48 in
      let d60 = drop-next_number 56 4 (to_u32 f.file_attributes) bytes _ d56 in
      let d61 = drop-drop 60 1 bytes ∙ ap (drop 1) d60 in
      let d62 = drop-drop 60 2 bytes ∙ ap (drop 2) d60 in
      let small : length f.name % 2 ^ 8 ≡ length f.name = omega (arith, v.name_fits) in
      rw (
        le→ltb (length bytes) 66 enough,
        read_number 0 8 f.parent_directory bytes (after_parent f after) d0
            (omega (arith, v.parent_fits)),
        read_number 8 8 f.times.creation_time bytes _ d8 (omega (arith, v.creation_fits)),
        read_number 16 8 f.times.last_access_time bytes _ d16 (omega (arith, v.access_fits)),
        read_number 24 8 f.times.last_write_time bytes _ d24 (omega (arith, v.write_fits)),
        read_number 32 8 f.times.mft_change_time bytes _ d32 (omega (arith, v.change_fits)),
        read_number 40 8 f.allocated_size bytes _ d40 (omega (arith, v.allocated_fits)),
        read_number 48 8 f.file_size bytes _ d48 (omega (arith, v.size_fits)),
        read_number 56 4 (to_u32 f.file_attributes) bytes _ d56 (to_u32-lt f.file_attributes),
        from_u32-to_u32 f.file_attributes,
        get_or-drop 60 bytes 0 _ _ d60 ∙ small,
        get_or-drop 61 bytes 0 _ _ d61,
        read_name-widen f.name 0 bytes [] after v.ascii d62,
      )

append-fields : (f : FileName) (a b : List ℕ) → fields f a ++ b ≡ fields f (a ++ b)
append-fields f a b = simp append_assoc

length-widen : (name : List ℕ) → length (widen name) ≡ 2 * length name
length-widen [] = refl
length-widen (b ∷ bs) = omega (arith, length-widen bs)

length-fields :
    (f : FileName) (a : List ℕ) → length (fields f a) ≡ 62 + 2 * length f.name + length a
length-fields f a = simp (length-append, length-le_bytes, length-widen) (omega arith)

-- The bytes of the attribute are its fields and some zeros, and fill groups of eight.
pub serialize_lem :
    (f : FileName)
    → (zeros : List ℕ) × (serialize f ≡ fields f zeros) × (length (serialize f) % 8 ≡ 0)
unfolding serialize
serialize_lem f =
    let (zeros, padded, filled) = pad_lem 8 (fields f []) (omega arith) in
    (zeros, padded ∙ append-fields f [] zeros, filled)

-- A file name attribute whose numbers fit and whose name is ASCII, of two bytes to 255, is read
-- back from its bytes as it was, whatever bytes follow.
pub deserialize-serialize_long :
    (f : FileName) (rest : List ℕ)
    → IsFileName f
    → 2 ≤ length f.name
    → deserialize (serialize f ++ rest) ≡ ok f
deserialize-serialize_long f rest v long =
    let (zeros, e, filled) = serialize_lem f in
    let whole : serialize f ++ rest ≡ fields f (zeros ++ rest) =
      ap (λ bs. bs ++ rest) e ∙ append-fields f zeros rest in
    let total = length-fields f (zeros ++ rest) in
    rw whole (deserialize-fields f v (zeros ++ rest) (omega arith))

-- The bytes of a file name attribute whose name has at most one byte are refused.
pub deserialize-serialize_short :
    (f : FileName)
    → length f.name ≤ 1
    → deserialize (serialize f) ≡ err FilesystemError.invalid_parameter
unfolding serialize deserialize
deserialize-serialize_short f short =
    let size = length-fields f [] in
    let padded = length-pad 8 (fields f []) (omega arith) in
    let few : length (pad 8 (fields f [])) < 66 = omega arith in
    rw (lt→ltb (length (pad 8 (fields f []))) 66 few)
