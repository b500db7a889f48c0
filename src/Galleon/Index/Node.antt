-- ===== src/Galleon/Index/Node.antt =====
-- The nodes of the index in memory: `IndexNode` of crates/galleon2/src/btree.rs.
pub mod Keys
pub mod Sorted
pub mod Finding
pub mod Splitting
use prisma_os.Base.{
  ℕ, zero, suc, ◌+◌, ◌-◌, ◌/◌, ◌%◌, ◌^◌, Bool, true, false, not, ◌&&◌, ◌||◌, List, [], ◌∷◌, ◌++◌,
  Option, none, some, ltb, ◌==◌, if◌then◌else◌, length, take, drop,
}
use prisma_os.Base.Words.{add64}
use prisma_os.Base.Bytes.{same_bytes}
use prisma_os.Galleon.Index.{
  IndexEntry, IndexHeader, new_end_marker, header_new_leaf, header_new_internal, is_leaf,
  index_node_size,
}

pub record IndexNode : Type 0 where
  pub header : IndexHeader
  pub entries : List IndexEntry
  pub vcn : ℕ

unfoldable pub new_leaf : ℕ → IndexNode
unfolding header_new_leaf new_end_marker
new_leaf vcn = record { header = header_new_leaf; entries = new_end_marker ∷ []; vcn = vcn }

unfoldable pub new_internal : ℕ → IndexNode
unfolding header_new_internal new_end_marker
new_internal vcn = record { header = header_new_internal; entries = new_end_marker ∷ []; vcn = vcn }

abbrev pub is_last : IndexEntry → Bool
is_last e = e.flags.is_last_entry

-- The order of strings, which is that of their bytes.
unfoldable pub less : List ℕ → List ℕ → Bool
less xs [] = false
less [] (y ∷ ys) = true
less (x ∷ xs) (y ∷ ys) = if x == y then less xs ys else ltb x y

abbrev total_length : List IndexEntry → ℕ → ℕ
total_length [] size = size
total_length (e ∷ es) size = total_length es (add64 size e.entry_length)

unfoldable pub calculate_size : IndexNode → ℕ
calculate_size n = total_length n.entries n.header.entries_offset

unfoldable pub update_header : IndexNode → IndexNode
unfolding calculate_size
update_header n = record n { header = record n.header { index_length = calculate_size n % 2 ^ 32 } }

-- The position of the first end marker or greater key, and the insertion there, in one pass.
unfoldable pub insert_sorted : IndexEntry → List IndexEntry → List IndexEntry
insert_sorted entry [] = entry ∷ []
insert_sorted entry (e ∷ es) =
    if is_last e || less entry.key e.key then entry ∷ e ∷ es else e ∷ insert_sorted entry es

unfoldable pub insert_entry : IndexEntry → IndexNode → IndexNode
unfolding insert_sorted update_header
insert_entry entry n = update_header (record n { entries = insert_sorted entry n.entries })

-- The position of the key and the removal there, in one pass.
unfoldable pub remove_key : List ℕ → List IndexEntry → Option (IndexEntry × List IndexEntry)
remove_key key [] = none
remove_key key (e ∷ es) =
    if same_bytes e.key key
    then some (e, es)
    else elim (remove_key key es) [ none ↦ none | some p ↦ some (p.0, e ∷ p.1) ]

unfoldable pub remove_entry : List ℕ → IndexNode → IndexNode × Option IndexEntry
unfolding remove_key update_header
remove_entry key n = elim (remove_key key n.entries) [
  | none ↦ (n, none)
  | some p ↦ (update_header (record n { entries = p.1 }), some p.0)
]

unfoldable pub find_key : List ℕ → List IndexEntry → Option IndexEntry
find_key key [] = none
find_key key (e ∷ es) = if same_bytes e.key key && not (is_last e) then some e else find_key key es

unfoldable pub find_entry : List ℕ → IndexNode → Option IndexEntry
unfolding find_key
find_entry key n = find_key key n.entries

unfoldable pub is_full : IndexNode → Bool
unfolding calculate_size
is_full n = ltb (index_node_size - 512) (calculate_size n)

unfoldable pub is_underflow : IndexNode → Bool
unfolding calculate_size
is_underflow n = ltb (calculate_size n) (index_node_size / 4)

-- `Vec::insert` at an index that is at most the length.
abbrev pub insert_at : ℕ → IndexEntry → List IndexEntry → List IndexEntry
insert_at i entry es = take i es ++ (entry ∷ drop i es)

-- The loop that moves entries to the new node, each before its last entry.
unfoldable pub move_all : List IndexEntry → List IndexEntry → List IndexEntry
move_all [] into = into
move_all (e ∷ es) into = move_all es (insert_at (length into - 1) e into)

-- The new node, with its end marker only.
abbrev pub new_half : IndexNode → IndexNode
new_half n = if is_leaf n.header then new_leaf (add64 n.vcn 1) else new_internal (add64 n.vcn 1)

-- The entries from the middle on, without the last.
abbrev pub moved : List IndexEntry → List IndexEntry
moved es = take (length es - 1 - length es / 2) (drop (length es / 2) es)

abbrev pub kept : List IndexEntry → List IndexEntry
kept es = take (length es / 2) es ++ drop (length es - 1) es

-- The node that keeps the first half, and the new node; with no entries the source panics.
unfoldable pub split : IndexNode → Option (IndexNode × IndexNode)
unfolding update_header move_all
split n =
    if length n.entries == 0
    then none
    else if ltb (length n.entries / 2) (length n.entries - 1)
    then some (
      update_header (record n { entries = kept n.entries }),
      update_header
          (record (new_half n) { entries = move_all (moved n.entries) (new_half n).entries }),
    )
    else some (update_header n, update_header (new_half n))
