-- ===== src/Galleon/Index/Tree.antt =====
-- The tree of index nodes: searching, inserting, deleting and listing in `BTreeManager` of
-- crates/galleon2/src/btree.rs, over the nodes that a disk gives. Each descent has fuel, which
-- the source has not.
pub mod Deleting
pub mod Root
pub mod Listing
use prisma_os.Base.{
  ℕ, zero, suc, ◌≡◌, Bool, true, false, not, List, [], ◌∷◌, ◌++◌, Option, none, some, if◌then◌else◌,
  ◌==◌,
}
use prisma_os.Base.Words.{add64}
use prisma_os.Galleon.Error.{FilesystemError, FilesystemResult, ok, err}
use prisma_os.Galleon.FileName.{FileName}
use prisma_os.Galleon.Index.{IndexEntry, entry_new_leaf, entry_new_internal, is_leaf}
use prisma_os.Galleon.Index.Node.{
  IndexNode, is_last, less, find_entry, split, new_internal, insert_entry, remove_entry, is_full,
}

-- `read_node` and `write_node` on a disk, where reading a node ends without a panic. Nothing is assumed
-- of them.
pub record NodeDisk (D : Type 0) : Type 0 where
  pub read_node : D → ℕ → FilesystemResult IndexNode
  pub write_node : D → IndexNode → D × Option FilesystemError

-- The disk after a call, with its result or its error.
pub data Outcome (D A : Type 0) : Type 0 where
  done : D → A → Outcome D A
  failed : D → FilesystemError → Outcome D A
  out_of_fuel : Outcome D A

pub data Place : Type 0 where
  leaf nowhere : Place
  child : ℕ → Place

-- The child of an entry, or else another.
abbrev pub child_or : Option ℕ → Option ℕ → Option ℕ
child_or none rest = rest
child_or (some v) rest = some v

-- The child in which `search` and `insert_recursive` go on.
unfoldable pub search_child : List ℕ → List IndexEntry → Option ℕ
search_child key [] = none
search_child key (e ∷ es) =
    let rest = search_child key es in
    if is_last e
    then e.sub_node_vcn
    else if not (less e.key key)
    then child_or e.sub_node_vcn rest
    else rest

-- The child in which `delete_recursive` goes on.
unfoldable pub delete_child : List ℕ → List IndexEntry → Option ℕ
delete_child key [] = none
delete_child key (e ∷ es) =
    let rest = delete_child key es in
    let here = child_or e.sub_node_vcn rest in
    if is_last e then here else if not (less e.key key) then here else rest

abbrev pub in_child : Option ℕ → Place
in_child none = nowhere
in_child (some v) = child v

-- Where a descent goes on from a node, with the child found in its entries.
abbrev pub place_of : IndexNode → Option ℕ → Place
place_of n found = if is_leaf n.header then leaf else in_child found

abbrev pub number_of : Option IndexEntry → Option ℕ
number_of none = none
number_of (some e) = some e.file_record_number

abbrev pub written : {D A : Type 0} → A → D × Option FilesystemError → Outcome D A
written a (d, none) = done d a
written a (d, some e) = failed d e

module _ {D : Type 0} (disk : NodeDisk D) where
  unfoldable pub search : ℕ → List ℕ → ℕ → D → Outcome D (Option ℕ)
  unfolding search_child
  search zero key vcn d = out_of_fuel
  search (suc fuel) key vcn d = elim (disk.read_node d vcn) [
    | err e ↦ failed d e
    | ok n ↦ elim (place_of n (search_child key n.entries)) [
      | leaf ↦ done d (number_of (find_entry key n))
      | nowhere ↦ done d none
      | child v ↦ search fuel key v d
    ]
  ]

  -- The read of the child after the insertion, whose fullness changes nothing.
  abbrev pub check_child : ℕ → Outcome D (Unit {0}) → Outcome D (Unit {0})
  check_child v (done d a) = elim (disk.read_node d v) [ err e ↦ failed d e | ok n ↦ done d tt ]
  check_child v (failed d e) = failed d e
  check_child v out_of_fuel = out_of_fuel

  unfoldable pub insert_recursive : ℕ → ℕ → List ℕ → ℕ → FileName → D → Outcome D (Unit {0})
  unfolding search_child
  insert_recursive zero vcn key file_record_number file_name d = out_of_fuel
  insert_recursive (suc fuel) vcn key file_record_number file_name d = elim (disk.read_node d vcn) [
    | err e ↦ failed d e
    | ok n ↦ elim (place_of n (search_child key n.entries)) [
      | leaf ↦
          written tt
            (disk.write_node d (insert_entry (entry_new_leaf file_record_number file_name) n))
      | nowhere ↦ done d tt
      | child v ↦ check_child v (insert_recursive fuel v key file_record_number file_name d)
    ]
  ]

  unfoldable pub delete_recursive : ℕ → ℕ → List ℕ → D → Outcome D Bool
  unfolding delete_child
  delete_recursive zero vcn key d = out_of_fuel
  delete_recursive (suc fuel) vcn key d = elim (disk.read_node d vcn) [
    | err e ↦ failed d e
    | ok n ↦ elim (place_of n (delete_child key n.entries)) [
      | leaf ↦
          let (n', removed) = remove_entry key n in
          elim removed [ none ↦ done d false | some e ↦ written true (disk.write_node d n') ]
      | nowhere ↦ done d false
      | child v ↦ delete_recursive fuel v key d
    ]
  ]

-- The outcome of splitting the root: the disk with the root's number, an error, or a panic.
pub data RootSplit (D : Type 0) : Type 0 where
  split_done : D → ℕ → RootSplit D
  split_failed : D → FilesystemError → RootSplit D
  split_panic : RootSplit D

-- `entries[0].key`
abbrev pub first_key : List IndexEntry → Option (List ℕ)
first_key [] = none
first_key (e ∷ es) = some e.key

abbrev pub then_write : {D : Type 0} → D × Option FilesystemError → (D → RootSplit D) → RootSplit D
then_write (d, none) next = next d
then_write (d, some e) next = split_failed d e

-- The new root of two nodes, by their first keys and their numbers.
unfoldable pub root_over : ℕ → List ℕ → ℕ → List ℕ → ℕ → IndexNode
root_over vcn left_key left_vcn right_key right_vcn =
    insert_entry (entry_new_internal right_key right_vcn)
      (insert_entry (entry_new_internal left_key left_vcn) (new_internal vcn))

module _ {D : Type 0} (disk : NodeDisk D) where
  -- `next_vcn` is the value of the source's counter, which goes up by two.
  unfoldable pub split_root : ℕ → ℕ → D → RootSplit D
  unfolding root_over
  split_root next_vcn root_vcn d = elim (disk.read_node d root_vcn) [
    | err e ↦ split_failed d e
    | ok old_root ↦ elim (split old_root) [
      | none ↦ split_panic
      | some halves ↦ elim (first_key halves.0.entries) [
        | none ↦ split_panic
        | some left_key ↦ elim (first_key halves.1.entries) [
          | none ↦ split_panic
          | some right_key ↦ then_write (disk.write_node d halves.0) (λ d1.
              then_write (disk.write_node d1 halves.1) (λ d2.
                then_write
                  (disk.write_node d2
                    (root_over next_vcn left_key halves.0.vcn right_key (add64 next_vcn 1)))
                  (λ d3. split_done d3 next_vcn)))
        ]
      ]
    ]
  ]

  -- The disk with the manager's root after the insertion; `none` is a panic.
  abbrev pub with_root : ℕ → Outcome D (Unit {0}) → Outcome (D × ℕ) (Unit {0})
  with_root root_vcn (done d a) = done (d, root_vcn) a
  with_root root_vcn (failed d e) = failed (d, root_vcn) e
  with_root root_vcn out_of_fuel = out_of_fuel

  unfoldable pub insert :
      ℕ → ℕ → ℕ → List ℕ → ℕ → FileName → D → Option (Outcome (D × ℕ) (Unit {0}))
  unfolding insert_recursive split_root
  insert fuel next_vcn root_vcn key file_record_number file_name d =
      elim (disk.read_node d root_vcn) [
        | err e ↦ some (failed (d, root_vcn) e)
        | ok root ↦
            if is_full root
            then (elim (split_root next_vcn root_vcn d) [
              | split_panic ↦ none
              | split_failed d1 e ↦ some (failed (d1, root_vcn) e)
              | split_done d1 new_vcn ↦ some (
                  with_root new_vcn
                    (insert_recursive disk fuel new_vcn key file_record_number file_name d1))
            ])
            else some (
                with_root root_vcn
                  (insert_recursive disk fuel root_vcn key file_record_number file_name d))
      ]
