-- ===== src/Galleon/Index/Tree/Listing.antt =====
-- Listing a directory: `list_directory` of crates/galleon2/src/btree.rs.
use prisma_os.Base.{ℕ, zero, suc, List, [], ◌∷◌, ◌++◌, Option, none, some, if◌then◌else◌}
use prisma_os.Galleon.Error.{ok, err}
use prisma_os.Galleon.Index.{IndexEntry, is_leaf}
use prisma_os.Galleon.Index.Node.{is_last}
use prisma_os.Galleon.Index.Tree.{NodeDisk, Outcome, done, failed, out_of_fuel}

abbrev pub Listed : Type 0
Listed = List (List ℕ × ℕ)

-- The loop over the entries of a leaf.
unfoldable pub list_entries : List IndexEntry → Listed → Listed
list_entries [] results = results
list_entries (e ∷ es) results =
    list_entries es (if is_last e then results else results ++ ((e.key, e.file_record_number) ∷ []))

-- The `?` after a visit.
abbrev then_list : {D : Type 0} → Outcome D Listed → (Listed → Outcome D Listed) → Outcome D Listed
then_list (done d results) next = next results
then_list (failed d e) next = failed d e
then_list out_of_fuel next = out_of_fuel

abbrev visit_child :
    {D : Type 0} → (ℕ → Listed → Outcome D Listed) → D → Option ℕ → Listed → Outcome D Listed
visit_child visit d none results = done d results
visit_child visit d (some v) results = visit v results

-- The loop over the children, with what is done for each.
unfoldable pub list_children :
    {D : Type 0} → (ℕ → Listed → Outcome D Listed) → D → List IndexEntry → Listed → Outcome D Listed
list_children visit d [] results = done d results
list_children visit d (e ∷ es) results =
    then_list (visit_child visit d e.sub_node_vcn results) (λ more. list_children visit d es more)

module _ {D : Type 0} (disk : NodeDisk D) where
  unfoldable pub list_recursive : ℕ → D → ℕ → Listed → Outcome D Listed
  unfolding list_entries list_children
  list_recursive zero d vcn results = out_of_fuel
  list_recursive (suc fuel) d vcn results = elim (disk.read_node d vcn) [
    | err e ↦ failed d e
    | ok n ↦
        let children = list_children (λ v more. list_recursive fuel d v more) d n.entries results in
        if is_leaf n.header then done d (list_entries n.entries results) else children
  ]

  unfoldable pub list_directory : ℕ → D → ℕ → Outcome D Listed
  unfolding list_recursive
  list_directory fuel d root_vcn = list_recursive fuel d root_vcn []
