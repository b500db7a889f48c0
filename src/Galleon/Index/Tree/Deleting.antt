-- ===== src/Galleon/Index/Tree/Deleting.antt =====
-- Deleting a key finds what a search for it finds.
use prisma_os.Base.{
  ℕ, zero, suc, ◌≡◌, ◌≢◌, refl, ◌∙◌, sym, Bool, true, false, not, ◌&&◌, List, [], ◌∷◌, Option, none,
  some, inl, inr, ◌⊎◌, Bool-cases, Option-cases,
}
use prisma_os.Base.Bytes.{same_bytes}
use prisma_os.Galleon.Error.{FilesystemError, FilesystemResult, ok, err}
use prisma_os.Galleon.Index.{IndexEntry, is_leaf}
use prisma_os.Galleon.Index.Node.{
  IndexNode, is_last, find_key, find_entry, remove_key, remove_entry,
}
use prisma_os.Galleon.Index.Node.Keys.{same_bytes→eq}
use prisma_os.Galleon.Index.Node.Sorted.{IsSorted, IsIndex}
use prisma_os.Galleon.Index.Tree.{
  NodeDisk, Outcome, done, failed, out_of_fuel, child_or, search_child, delete_child, search,
  delete_recursive, written, number_of,
}

child_or-none : (o : Option ℕ) → child_or o none ≡ o
child_or-none none = refl
child_or-none (some v) = refl

delete_child-IsSorted :
    (key bound : List ℕ) (es : List IndexEntry)
    → IsSorted bound es
    → delete_child key es ≡ search_child key es
unfolding delete_child search_child
delete_child-IsSorted key bound [] h = elim h [ ]
delete_child-IsSorted key bound (e ∷ es) (inl (last, end, unnamed)) =
    rw end (simp last (child_or-none e.sub_node_vcn))
delete_child-IsSorted key bound (e ∷ es) (inr (more, above, rest)) =
    simp (more, delete_child-IsSorted key e.key es rest) refl

abbrev first_of : Option (IndexEntry × List IndexEntry) → Option IndexEntry
first_of none = none
first_of (some p) = some p.0

first_of-cons :
    (o : Option (IndexEntry × List IndexEntry)) (e : IndexEntry)
    → first_of (elim o [ none ↦ none | some p ↦ some (p.0, e ∷ p.1) ]) ≡ first_of o
first_of-cons none e = refl
first_of-cons (some p) e = refl

-- In a sorted list the removal of a key that is not empty removes what the key finds.
remove_key-find_key :
    (key bound : List ℕ) (es : List IndexEntry)
    → key ≢ []
    → IsSorted bound es
    → first_of (remove_key key es) ≡ find_key key es
unfolding remove_key find_key
remove_key-find_key key bound [] named h = elim h [ ]
remove_key-find_key key bound (e ∷ es) named (inl (last, end, unnamed)) =
    elim (Bool-cases (same_bytes e.key key)) [
      | inl same ↦ absurd (named (sym (same_bytes→eq e.key key same) ∙ unnamed))
      | inr other ↦ rw (other, end) refl
    ]
remove_key-find_key key bound (e ∷ es) named (inr (more, above, rest)) =
    elim (Bool-cases (same_bytes e.key key)) [
      | inl same ↦
          let test : (same_bytes e.key key && not (is_last e)) ≡ true = simp (same, more) refl in
          rw (test, same) refl
      | inr other ↦
          let test : (same_bytes e.key key && not (is_last e)) ≡ false = simp (other, more) refl in
          rw (test, other)
            (first_of-cons (remove_key key es) e ∙ remove_key-find_key key e.key es named rest)
    ]

first_removed :
    (key : List ℕ) (n : IndexNode) → (remove_entry key n).1 ≡ first_of (remove_key key n.entries)
unfolding remove_entry
first_removed key n = elim (Option-cases (remove_key key n.entries)) [
  | inl missing ↦ rw (remove_entry, missing) refl
  | inr (p, found) ↦ rw (remove_entry, found) refl
]

pub remove_entry-find_entry :
    (key : List ℕ) (n : IndexNode)
    → key ≢ []
    → IsIndex n
    → (remove_entry key n).1 ≡ find_entry key n
unfolding remove_entry find_entry
remove_entry-find_entry key n named h =
    first_removed key n ∙ remove_key-find_key key [] n.entries named h

Result-cases :
    {A : Type 0} (r : FilesystemResult A)
    → ((e : FilesystemError) × (r ≡ err e)) ⊎ ((a : A) × (r ≡ ok a))
Result-cases (ok a) = inr (a, refl)
Result-cases (err e) = inl (e, refl)

module _ {D : Type 0} (disk : NodeDisk D) (key : List ℕ) (d : D) where
  -- A descent for the key leads from the node of a number to a leaf, in so many steps at most.
  pub data Leads : ℕ → ℕ → IndexNode → Type 0 where
    here :
        {fuel vcn : ℕ} {n : IndexNode}
        → disk.read_node d vcn ≡ ok n
        → is_leaf n.header ≡ true
        → Leads (suc fuel) vcn n
    below :
        {fuel vcn v : ℕ} {n leaf : IndexNode}
        → disk.read_node d vcn ≡ ok n
        → is_leaf n.header ≡ false
        → search_child key n.entries ≡ some v
        → Leads fuel v leaf
        → Leads (suc fuel) vcn leaf

  -- A deletion that finds nothing writes nothing; one that finds the key writes the leaf that the
  -- search came to, without the entry; and errors and the want of fuel are those of the search.
  abbrev pub Matches : ℕ → ℕ → Outcome D (Option ℕ) → Outcome D Bool → Type 0
  Matches fuel vcn (done d' none) o = o ≡ done d false
  Matches fuel vcn (done d' (some file_record_number)) o =
      (leaf : IndexNode) × Leads fuel vcn leaf
      × (number_of (find_entry key leaf) ≡ some file_record_number)
      × (o ≡ written true (disk.write_node d (remove_entry key leaf).0))
  Matches fuel vcn (failed d' e) o = o ≡ failed d' e
  Matches fuel vcn out_of_fuel o = o ≡ out_of_fuel

  Matches-below :
      (fuel vcn v : ℕ) (n : IndexNode) (s : Outcome D (Option ℕ)) (o : Outcome D Bool)
      → disk.read_node d vcn ≡ ok n
      → is_leaf n.header ≡ false
      → search_child key n.entries ≡ some v
      → Matches fuel v s o
      → Matches (suc fuel) vcn s o
  Matches-below fuel vcn v n (done d' none) o got internal found h = h
  Matches-below fuel vcn v n (done d' (some r)) o got internal found (leaf, leads, number, same) =
      (leaf, below got internal found leads, number, same)
  Matches-below fuel vcn v n (failed d' e) o got internal found h = h
  Matches-below fuel vcn v n out_of_fuel o got internal found h = h

  -- When the nodes that are read are well formed, deleting a key that is not empty matches searching
  -- for it: it finds something when the search does, and then removes the entry from the leaf that the
  -- search came to, and writes that; it writes nothing when the search finds nothing; and both fail
  -- with the same error, or use up the fuel.
  pub delete_recursive-search :
      (fuel vcn : ℕ)
      → key ≢ []
      → ((v : ℕ) (n : IndexNode) → disk.read_node d v ≡ ok n → IsIndex n)
      → Matches fuel vcn (search disk fuel key vcn d) (delete_recursive disk fuel vcn key d)
  unfolding search delete_recursive
  delete_recursive-search zero vcn named sound = refl
  delete_recursive-search (suc fuel) vcn named sound = elim (Result-cases (disk.read_node d vcn)) [
    | inl (e, bad) ↦ rw (search, delete_recursive, bad) refl
    | inr (n, read) ↦
        let same = delete_child-IsSorted key [] n.entries (sound vcn n read) in
        let removed = remove_entry-find_entry key n named (sound vcn n read) in
        elim (Bool-cases (is_leaf n.header)) [
          | inl at_leaf ↦ elim (Option-cases (find_entry key n)) [
            | inl missing ↦
                rw (search, delete_recursive, read, at_leaf, missing, removed ∙ missing) refl
            | inr (e, found) ↦
                rw (search, delete_recursive, read, at_leaf, found, removed ∙ found)
                  (n, here read at_leaf, rw found refl, refl)
          ]
          | inr internal ↦ elim (Option-cases (search_child key n.entries)) [
            | inl missing ↦
                rw (search, delete_recursive, read, internal, missing, same ∙ missing) refl
            | inr (v, found) ↦
                rw (search, delete_recursive, read, internal, found, same ∙ found)
                  (Matches-below fuel vcn v n (search disk fuel key v d)
                    (delete_recursive disk fuel v key d) read internal found
                    (delete_recursive-search fuel v named sound))
          ]
        ]
  ]
