-- ===== src/Galleon/Index/Examples.antt =====
-- A disk of nodes in memory, a tree on it, and the theorems on the index at them.
use prisma_os.Base.{
  ℕ, zero, suc, ◌+◌, ◌≡◌, refl, ap, List, [], ◌∷◌, ◌++◌, Option, none, some, if◌then◌else◌, ◌==◌,
  inl, inr, subst, arith, length, take, false,
}
use prisma_os.Base.Words.{add64}
use prisma_os.Base.Bytes.{le_bytes, same_bytes}
use prisma_os.Galleon.Error.{FilesystemError, FilesystemResult, ok, err}
use prisma_os.Galleon.FileName.{FileName}
use prisma_os.Galleon.FileName as Name
use prisma_os.Galleon.FileName.Encoding.{IsFileName}
use prisma_os.Galleon.Index.{
  IndexEntry, entry_new_leaf, entry_new_internal, new_end_marker, header_new_internal,
  entry_serialize, entry_deserialize, read, is_leaf,
}
use prisma_os.Galleon.Index.Node.{IndexNode, new_leaf, find_entry, insert_entry, split, less}
use prisma_os.Galleon.Index.Node.Sorted.{IsIndex}
use prisma_os.Galleon.Index.Node.Finding.{or_else, find_entry-insert_entry}
use prisma_os.Galleon.Index.Node.Splitting.{find_entry-split}
use prisma_os.Galleon.Index.Reading.{entry_deserialize-entry_serialize}
use prisma_os.Galleon.Index.Tree.{NodeDisk, search_child, search, delete_recursive, root_over}
use prisma_os.Galleon.Index.Tree.Deleting.{Matches, delete_recursive-search}
use prisma_os.Galleon.Index.Tree.Root.{search_child-root_over}

-- A disk that holds a node, or nothing, under each number.
abbrev Nodes : Type 0
Nodes = ℕ → Option IndexNode

abbrev node_at : ℕ → Option IndexNode → FilesystemResult IndexNode
node_at v none = err FilesystemError.invalid_parameter
node_at v (some n) = ok (record n { vcn = v })

abbrev with_node : Nodes → IndexNode → Nodes
with_node d n v = if n.vcn == v then some n else d v

unfoldable in_memory : NodeDisk Nodes
in_memory = record { read_node = λ d v. node_at v (d v); write_node = λ d n. (with_node d n, none) }

-- A file name attribute, and a tree of a root with one leaf.
abbrev a_name : List ℕ → FileName
a_name name = record {
  parent_directory = 5;
  name = name;
  namespace = 1;
  file_size = 0;
  allocated_size = 0;
  times = record {
    creation_time = 1;
    last_access_time = 2;
    last_write_time = 3;
    mft_change_time = 4;
  };
  file_attributes = Name.new_file;
}

abbrev abc : List ℕ
abc = b'a' ∷ b'b' ∷ b'c' ∷ []

abbrev abd : List ℕ
abd = b'a' ∷ b'b' ∷ b'd' ∷ []

unfoldable the_leaf : IndexNode
unfolding new_leaf insert_entry entry_new_leaf
the_leaf = insert_entry (entry_new_leaf 7 (a_name abc)) (new_leaf 1)

unfoldable the_root : IndexNode
unfolding header_new_internal entry_new_internal new_end_marker
the_root = record {
  header = header_new_internal;
  entries = entry_new_internal abd 1 ∷ new_end_marker ∷ [];
  vcn = 0;
}

unfoldable the_nodes : Nodes
unfolding the_leaf the_root
the_nodes zero = some the_root
the_nodes (suc zero) = some the_leaf
the_nodes (suc (suc v)) = none

the_leaf-IsIndex : IsIndex the_leaf
unfolding the_leaf less
the_leaf-IsIndex = inr (refl, refl, inl (refl, refl, refl))

the_root-IsIndex : IsIndex the_root
unfolding the_root less
the_root-IsIndex = inr (refl, refl, inl (refl, refl, refl))

find_entry-insert_entry_example :
    find_entry abd (insert_entry (entry_new_leaf 9 (a_name abd)) the_leaf) ≡ (
      if same_bytes (entry_new_leaf 9 (a_name abd)).key abd
      then or_else (find_entry abd the_leaf) (some (entry_new_leaf 9 (a_name abd)))
      else find_entry abd the_leaf)
unfolding entry_new_leaf
find_entry-insert_entry_example =
    find_entry-insert_entry abd (entry_new_leaf 9 (a_name abd)) the_leaf refl the_leaf-IsIndex

find_entry-split_example :
    (l : IndexNode) × (r : IndexNode) × (split the_leaf ≡ some (l, r))
    × IsIndex l
    × IsIndex r
    × (r.vcn ≡ add64 the_leaf.vcn 1)
    × (find_entry abc the_leaf ≡ or_else (find_entry abc l) (find_entry abc r))
find_entry-split_example = find_entry-split abc the_leaf the_leaf-IsIndex

abbrev node_or : IndexNode → FilesystemResult IndexNode → IndexNode
node_or m (ok n) = n
node_or m (err e) = m

the_nodes-IsIndex : (v : ℕ) (n : IndexNode) → in_memory.read_node the_nodes v ≡ ok n → IsIndex n
unfolding in_memory the_nodes
the_nodes-IsIndex zero n h = subst IsIndex (ap (node_or the_root) h) the_root-IsIndex
the_nodes-IsIndex (suc zero) n h = subst IsIndex (ap (node_or the_leaf) h) the_leaf-IsIndex
the_nodes-IsIndex (suc (suc v)) n h = cc

delete_recursive-search_example :
    Matches in_memory abc the_nodes 2 0
      (search in_memory 2 abc 0 the_nodes)
      (delete_recursive in_memory 2 0 abc the_nodes)
delete_recursive-search_example =
    delete_recursive-search in_memory abc the_nodes 2 0 (λ e. cc) the_nodes-IsIndex

search_child-root_over_example :
    (is_leaf (root_over 10 abc 1 abd 11).header ≡ false)
    × (search_child (b'b' ∷ []) (root_over 10 abc 1 abd 11).entries ≡ none)
unfolding less
search_child-root_over_example = search_child-root_over 10 abc 1 abd 11 (b'b' ∷ []) refl refl

abc-IsFileName : IsFileName (a_name abc)
abc-IsFileName = record {
  parent_fits = omega arith;
  creation_fits = omega arith;
  access_fits = omega arith;
  write_fits = omega arith;
  change_fits = omega arith;
  allocated_fits = omega arith;
  size_fits = omega arith;
  name_fits = omega arith;
  ascii = (omega arith, (omega arith, (omega arith, tt)));
}

name_size : length (Name.serialize (a_name abc)) ≡ 72
unfolding Name.serialize le_bytes
name_size = refl

entry_size : length (entry_serialize (entry_new_leaf 7 (a_name abc)) ++ []) ≡ 96
unfolding entry_serialize entry_new_leaf Name.serialize le_bytes
entry_size = refl

entry_deserialize-entry_serialize_example :
    (e : IndexEntry) × (entry_deserialize
        (λ bs. bs)
        (entry_serialize (entry_new_leaf 7 (a_name abc)) ++ [])
      ≡ read (e, 16 + length abc + length (Name.serialize (a_name abc))))
    × (e.key ≡ b'c' ∷ [] ++ take 2 (le_bytes 8 5))
entry_deserialize-entry_serialize_example =
    entry_deserialize-entry_serialize (λ bs. bs) 7 (a_name abc) b'a' b'b' (b'c' ∷ []) ([]) refl
      (rw name_size (omega arith)) (rw (name_size, entry_size) (omega arith))
