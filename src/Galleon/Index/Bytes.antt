-- ===== src/Galleon/Index/Bytes.antt =====
-- The bytes of a node: `IndexNode::serialize` and `deserialize` of crates/galleon2/src/btree.rs. The
-- loop that reads the entries has fuel, which the source has not.
use prisma_os.Base.{
  ℕ, zero, suc, ◌+◌, ◌≤◌, ◌<◌, ◌≡◌, refl, false, not, ◌⊎◌, inl, inr, List, [], ◌∷◌, ◌++◌,
  if◌then◌else◌, ltb, leb, length, take, drop, replicate, arith, lt→ltb, le→ltb,
}
use prisma_os.Galleon.Error.{FilesystemError, ok, err}
use prisma_os.Galleon.Index.{
  IndexEntry, index_node_size, entry_serialize, entry_deserialize, header_serialize,
  header_deserialize, Result, read, refused, panic,
}
use prisma_os.Galleon.Index.Node.{IndexNode, is_last}

-- `data[offset..offset + bytes.len()].copy_from_slice(bytes)`
abbrev write_at : ℕ → List ℕ → List ℕ → List ℕ
write_at offset bytes buffer = take offset buffer ++ (bytes ++ drop (offset + length bytes) buffer)

-- An entry that does not fit is left out.
unfoldable pub write_entries : List IndexEntry → ℕ → List ℕ → List ℕ
write_entries [] offset buffer = buffer
write_entries (e ∷ es) offset buffer =
    let bytes = entry_serialize e in
    let fits = leb (offset + length bytes) index_node_size in
    write_entries es (if fits then offset + length bytes else offset)
      (if fits then write_at offset bytes buffer else buffer)

unfoldable pub node_serialize : IndexNode → List ℕ
unfolding write_entries
node_serialize n =
    write_entries n.entries n.header.entries_offset
      (write_at 0 (header_serialize n.header) (replicate index_node_size 0))

-- What the loop reads, unless it is still reading when the fuel is used up.
pub data Entries : Type 0 where
  entries : List IndexEntry → Entries
  bad : FilesystemError → Entries
  panicked out_of_fuel : Entries

module _ (lossy : List ℕ → List ℕ) where
  unfoldable pub read_entries : ℕ → ℕ → ℕ → List ℕ → List IndexEntry → Entries
  read_entries zero offset index_length input found = out_of_fuel
  read_entries (suc fuel) offset index_length input found =
      if not (ltb offset index_length)
      then entries found
      else if ltb (length input) offset
      then panicked
      else elim (entry_deserialize lossy (drop offset input)) [
        | refused e ↦ bad e
        | panic ↦ panicked
        | read p ↦
            let more = read_entries fuel (offset + p.1) index_length input (found ++ (p.0 ∷ [])) in
            if is_last p.0 then entries (found ++ (p.0 ∷ [])) else more
      ]

  unfoldable pub node_deserialize : ℕ → List ℕ → ℕ → Result IndexNode ⊎ Unit {0}
  unfolding read_entries
  node_deserialize fuel input vcn =
      if ltb (length input) index_node_size
      then inl (refused FilesystemError.invalid_parameter)
      else elim (header_deserialize input) [
        | err e ↦ inl (refused e)
        | ok header ↦ elim (read_entries fuel header.entries_offset header.index_length input []) [
          | entries es ↦ inl (read (record { header = header; entries = es; vcn = vcn }))
          | bad e ↦ inl (refused e)
          | panicked ↦ inl panic
          | out_of_fuel ↦ inr tt
        ]
      ]

  -- From an entry inside the node that says it has no length, and is not the last, the loop never
  -- ends: no fuel is enough.
  pub read_entries_stuck :
      (fuel offset index_length : ℕ) (input : List ℕ) (e : IndexEntry) (found : List IndexEntry)
      → offset < index_length
      → offset ≤ length input
      → entry_deserialize lossy (drop offset input) ≡ read (e, 0)
      → is_last e ≡ false
      → read_entries fuel offset index_length input found ≡ out_of_fuel
  unfolding read_entries
  read_entries_stuck zero offset index_length input e found inside there empty more = refl
  read_entries_stuck (suc fuel) offset index_length input e found inside there empty more =
      let same : offset + 0 ≡ offset = omega arith in
      rw (
        read_entries,
        lt→ltb offset index_length inside,
        le→ltb (length input) offset there,
        empty,
        same,
        read_entries_stuck fuel offset index_length input e (found ++ (e ∷ [])) inside there empty
            more,
        more,
      )
