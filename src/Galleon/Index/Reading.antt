-- ===== src/Galleon/Index/Reading.antt =====
-- What is read back from the bytes of a node's header and of an entry.
use prisma_os.Base.{
  ℕ, ◌+◌, ◌/◌, ◌%◌, ◌<◌, ◌≤◌, ◌^◌, ◌≡◌, refl, ◌∙◌, ap, sym, subst, List, [], ◌∷◌, ◌++◌, length,
  length-append, append_assoc, arith, le→ltb, get_or, drop, take, replicate,
}
use prisma_os.Base.Bytes.{length-le_bytes, le_bytes, from_le_bytes}
use prisma_os.Base.Fields.{
  slice_at, slice_at-field, drop-next, drop-next_number, read_number, drop-drop, get_or-drop,
}
use prisma_os.Galleon.Error.{ok}
use prisma_os.Galleon.Journal.Padding.{pad_lem}
use prisma_os.Galleon.FileName.{FileName, fields, after_parent}
use prisma_os.Galleon.FileName as Name
use prisma_os.Galleon.FileName.Encoding.{serialize_lem}
use prisma_os.Galleon.Index.{
  IndexEntry, IndexHeader, index_signature, header_fields, header_serialize, header_deserialize,
  entry_fields, entry_serialize, entry_deserialize, entry_new_leaf, read, name_bytes, vcn_bytes,
  to_u8, read_rest, from_u8,
}

-- Each number fits its field.
pub record IsHeader (h : IndexHeader) : Type 0 where
  pub signed : h.signature ≡ index_signature
  pub offset_fits : h.entries_offset < 2 ^ 32
  pub length_fits : h.index_length < 2 ^ 32
  pub size_fits : h.allocated_size < 2 ^ 32
  pub sequence_fits : h.sequence_number < 2 ^ 16

length-header_fields :
    (h : IndexHeader) (a : List ℕ) → length (header_fields h a) ≡ length h.signature + 15 + length a
length-header_fields h a = simp (length-append, length-le_bytes) (omega arith)

-- A header whose numbers fit is read back from its bytes as it was, whatever bytes follow.
pub header_deserialize-header_serialize :
    (h : IndexHeader) (rest : List ℕ)
    → IsHeader h
    → header_deserialize (header_serialize h ++ rest) ≡ ok h
unfolding header_deserialize header_serialize
header_deserialize-header_serialize h rest v =
    let after = replicate 13 0 ++ rest in
    let bytes = header_fields h after in
    let whole : header_fields h (replicate 13 0) ++ rest ≡ bytes = simp append_assoc in
    let four : length h.signature ≡ 4 = rw v.signed refl in
    let enough : 32 ≤ length bytes =
      omega (arith, length-header_fields h after, length-append (replicate 13 0) rest) in
    let d4 = drop-next 0 4 bytes h.signature _ refl four in
    let d8 = drop-next_number 4 4 h.entries_offset bytes _ d4 in
    let d12 = drop-next_number 8 4 h.index_length bytes _ d8 in
    let d16 = drop-next_number 12 4 h.allocated_size bytes _ d12 in
    let d17 = drop-drop 16 1 bytes ∙ ap (drop 1) d16 in
    rw (
      whole,
      le→ltb (length bytes) 32 enough,
      slice_at-field 0 4 bytes h.signature _ refl four,
      read_number 4 4 h.entries_offset bytes _ d4 (omega (arith, v.offset_fits)),
      read_number 8 4 h.index_length bytes _ d8 (omega (arith, v.length_fits)),
      read_number 12 4 h.allocated_size bytes _ d12 (omega (arith, v.size_fits)),
      get_or-drop 16 bytes 0 _ _ d16,
      read_number 17 2 h.sequence_number bytes _ d17 (omega (arith, v.sequence_fits)),
      v.signed,
    )

length-entry_fields :
    (e : IndexEntry) (a : List ℕ)
    → length (entry_fields e a)
      ≡ 14
        + length e.key
        + length (name_bytes e.file_name)
        + length (vcn_bytes e.sub_node_vcn)
        + length a
length-entry_fields e a = simp (length-append, length-le_bytes) (omega arith)

-- The bytes from the sixteenth on, of as many as the key has, are the key without its first two
-- bytes and the two bytes that follow it.
module _ (e : IndexEntry) (a b x y : ℕ) (keys more after : List ℕ) (named : e.key ≡ a ∷ b ∷ keys)
    (follow : name_bytes e.file_name ++ (vcn_bytes e.sub_node_vcn ++ after) ≡ x ∷ y ∷ more) where
  abbrev bytes : List ℕ
  bytes = entry_fields e after

  at_8 :
      drop 8 bytes
      ≡ le_bytes 2 e.entry_length
        ++ (le_bytes 2 e.key_length
            ++ (to_u8 e.flags
                ∷ 0
                ∷ (e.key ++ (name_bytes e.file_name ++ (vcn_bytes e.sub_node_vcn ++ after)))))
  at_8 = drop-next_number 0 8 e.file_record_number bytes _ refl

  key_at_16 : slice_at bytes 16 (length e.key) ≡ keys ++ (x ∷ y ∷ [])
  key_at_16 =
      let d10 = drop-next_number 8 2 e.entry_length bytes _ at_8 in
      let d12 = drop-next_number 10 2 e.key_length bytes _ d10 in
      let d16 = drop-drop 12 4 bytes ∙ ap (drop 4) d12 in
      let at_16 : drop 16 bytes ≡ keys ++ (x ∷ y ∷ more) =
        d16 ∙ ap (λ t. drop 2 (e.key ++ t)) follow ∙ ap (λ k. drop 2 (k ++ (x ∷ y ∷ more))) named in
      let grouped = at_16 ∙ sym (append_assoc keys (x ∷ y ∷ []) more) in
      slice_at-field 16 (length e.key) bytes (keys ++ (x ∷ y ∷ [])) more grouped
        (length-append keys (x ∷ y ∷ []) ∙ rw named (omega arith))

  number_at_8 : e.entry_length < 2 ^ 16 → from_le_bytes (slice_at bytes 8 2) ≡ e.entry_length
  number_at_8 h = read_number 8 2 e.entry_length bytes _ at_8 h

  number_at_10 : e.key_length < 2 ^ 16 → from_le_bytes (slice_at bytes 10 2) ≡ e.key_length
  number_at_10 h =
      read_number 10 2 e.key_length bytes _ (drop-next_number 8 2 e.entry_length bytes _ at_8) h

  -- What is read in place of the entry.
  abbrev misread : (List ℕ → List ℕ) → IndexEntry
  misread lossy =
      let flags = from_u8 (get_or bytes 12 0) in
      let rest = read_rest bytes flags (16 + e.key_length) e.entry_length in
      record {
        file_record_number = from_le_bytes (slice_at bytes 0 8);
        entry_length = e.entry_length;
        key_length = e.key_length;
        flags = flags;
        file_name = rest.0;
        sub_node_vcn = rest.1;
        key = lossy (keys ++ (x ∷ y ∷ []));
      }

  entry_deserialize-entry_fields :
      (lossy : List ℕ → List ℕ)
      → e.entry_length < 2 ^ 16
      → e.key_length ≡ length e.key
      → 16 + e.key_length ≤ e.entry_length
      → e.entry_length ≤ length bytes
      → entry_deserialize lossy bytes ≡ read (misread lossy, e.entry_length)
  unfolding entry_deserialize from_u8
  entry_deserialize-entry_fields lossy small measured room enough = rw (
    number_at_8 small,
    number_at_10 (omega arith),
    le→ltb (length bytes) 16 (omega arith),
    le→ltb (length bytes) e.entry_length enough,
    le→ltb (length bytes) (16 + e.key_length) (omega arith),
    ap (slice_at bytes 16) measured ∙ key_at_16,
  )

entry_serialize_lem :
    (e : IndexEntry) (rest : List ℕ)
    → (zeros : List ℕ) × (entry_serialize e ++ rest ≡ entry_fields e (zeros ++ rest))
unfolding entry_serialize
entry_serialize_lem e rest =
    let (zeros, padded, filled) = pad_lem 8 (entry_fields e []) (omega arith) in
    let joined : entry_fields e [] ++ (zeros ++ rest) ≡ entry_fields e (zeros ++ rest) =
      simp append_assoc in
    (zeros, ap (λ bs. bs ++ rest) padded ∙ append_assoc (entry_fields e []) zeros rest ∙ joined)

-- The attribute's bytes begin with the parent directory's.
first_bytes :
    (f : FileName) (after : List ℕ)
    → (more : List ℕ) × (Name.serialize f ++ after
        ≡ f.parent_directory % 256 ∷ f.parent_directory / 256 % 256 ∷ more)
unfolding le_bytes
first_bytes f after =
    let (zeros, e, filled) = serialize_lem f in
    (
      le_bytes 6 (f.parent_directory / 256 / 256) ++ (after_parent f zeros ++ after),
      ap (λ bs. bs ++ after) e
          ∙ append_assoc (le_bytes 8 f.parent_directory) (after_parent f zeros) after,
    )

first_two : (x : ℕ) → take 2 (le_bytes 8 x) ≡ x % 256 ∷ x / 256 % 256 ∷ []
unfolding le_bytes
first_two x = refl

module _ (file_record_number : ℕ) (f : FileName)
    (small : 16 + length f.name + length (Name.serialize f) < 2 ^ 16) where
  leaf_length :
      (entry_new_leaf file_record_number f).entry_length
      ≡ 16 + length f.name + length (Name.serialize f)
  unfolding entry_new_leaf
  leaf_length = omega (arith, small)

  leaf_key_length : (entry_new_leaf file_record_number f).key_length ≡ length f.name
  unfolding entry_new_leaf
  leaf_key_length = omega (arith, small)

leaf_key :
    (file_record_number : ℕ) (f : FileName) → (entry_new_leaf file_record_number f).key ≡ f.name
unfolding entry_new_leaf
leaf_key file_record_number f = refl

leaf_follow :
    (file_record_number : ℕ) (f : FileName) (after : List ℕ)
    → let e = entry_new_leaf file_record_number f in
      name_bytes e.file_name ++ (vcn_bytes e.sub_node_vcn ++ after) ≡ Name.serialize f ++ after
unfolding entry_new_leaf
leaf_follow file_record_number f after = refl

module _ (lossy : List ℕ → List ℕ) where
  -- An entry of a file, of a length below 2 ^ 16, written with a name of two bytes or more and read back
  -- from its bytes and those that follow, if they are as many as its length, has as its key what the
  -- decoding of UTF-8 makes of these bytes: the name without its first two, and the two low bytes of
  -- the number of the file's parent directory.
  pub entry_deserialize-entry_serialize :
      (file_record_number : ℕ) (f : FileName) (a b : ℕ) (name rest : List ℕ)
      → f.name ≡ a ∷ b ∷ name
      → 16 + length f.name + length (Name.serialize f) < 2 ^ 16
      → 16 + length f.name + length (Name.serialize f)
        ≤ length (entry_serialize (entry_new_leaf file_record_number f) ++ rest)
      → (e : IndexEntry) × (entry_deserialize lossy
            (entry_serialize (entry_new_leaf file_record_number f) ++ rest)
          ≡ read (e, 16 + length f.name + length (Name.serialize f)))
        × (e.key ≡ lossy (name ++ take 2 (le_bytes 8 f.parent_directory)))
  entry_deserialize-entry_serialize file_record_number f a b name rest named small enough =
      let e = entry_new_leaf file_record_number f in
      let (zeros, padded) = entry_serialize_lem e rest in
      let after = zeros ++ rest in
      let (more, starts) = first_bytes f after in
      let size = leaf_length file_record_number f small in
      let key_size = leaf_key_length file_record_number f small in
      let key = leaf_key file_record_number f in
      let x = f.parent_directory % 256 in
      let y = f.parent_directory / 256 % 256 in
      let follow = leaf_follow file_record_number f after ∙ starts in
      let result =
        entry_deserialize-entry_fields e a b x y name more after (key ∙ named) follow lossy
          (rw size small) (key_size ∙ ap length (sym key)) (rw (size, key_size) (omega arith))
          (subst (λ n. e.entry_length ≤ n) (ap length padded)
            (subst (λ n. n ≤ length (entry_serialize e ++ rest)) (sym size) enough)) in
      (
        misread e a b x y name more after (key ∙ named) follow lossy,
        ap (entry_deserialize lossy) padded
            ∙ result
            ∙ ap (λ n. read (misread e a b x y name more after (key ∙ named) follow lossy, n)) size,
        ap (λ two. lossy (name ++ two)) (sym (first_two f.parent_directory)),
      )
