-- ===== src/Galleon/Index/Node/Finding.antt =====
-- Which entry a key finds after an insertion and after a removal.
use prisma_os.Base.{
  ℕ, ◌≡◌, refl, Bool, true, false, ◌&&◌, not, List, [], ◌∷◌, Option, none, some, if◌then◌else◌,
  arith, inl, inr, Bool-cases, ◌∙◌, sym, subst, All, ◌≢◌,
}
use prisma_os.Base.Bytes.{same_bytes}
use prisma_os.Galleon.Index.{IndexEntry}
use prisma_os.Galleon.Index.Node.{
  IndexNode, less, is_last, insert_sorted, insert_entry, remove_key, remove_entry, find_key,
  find_entry,
}
use prisma_os.Galleon.Index.Node.Keys.{
  less_le_trans, less→same_bytes, same_bytes→eq, same_bytes_refl,
}
use prisma_os.Galleon.Index.Node.Sorted.{
  IsSorted, IsIndex, insert_here, insert_later, left_after, left_after-here, left_after-cons,
  entries_left,
}

abbrev pub or_else : Option IndexEntry → Option IndexEntry → Option IndexEntry
or_else none other = other
or_else (some e) other = some e

or_else_if :
    (a b : Bool) (found : Option IndexEntry) (e : IndexEntry) (other : Option IndexEntry)
    → (if a then some e else (if b then or_else found other else found))
      ≡ (if b then or_else (if a then some e else found) other else (if a then some e else found))
or_else_if true true found e other = refl
or_else_if true false found e other = refl
or_else_if false true found e other = refl
or_else_if false false found e other = refl

-- A key below all others is not found.
find_key-below :
    (key bound : List ℕ) (es : List IndexEntry)
    → IsSorted bound es
    → less key bound ≡ true
    → find_key key es ≡ none
unfolding find_key
find_key-below key bound [] h low = refl
find_key-below key bound (e ∷ es) (inl (last, end, unnamed)) low = rw end (ground arith)
find_key-below key bound (e ∷ es) (inr (more, le, rest)) low =
    let below = less_le_trans key bound e.key low le in
    rw (less→same_bytes key e.key below) (find_key-below key e.key es rest below)

find_key-insert_sorted :
    (key : List ℕ) (entry : IndexEntry) (bound : List ℕ) (es : List IndexEntry)
    → is_last entry ≡ false
    → IsSorted bound es
    → find_key key (insert_sorted entry es) ≡ (
        if same_bytes entry.key key
        then or_else (find_key key es) (some entry)
        else find_key key es)
unfolding find_key insert_sorted
find_key-insert_sorted key entry bound [] real h = elim h [ ]
find_key-insert_sorted key entry bound (e ∷ es) real (inl (last, end, unnamed)) =
    rw end (ground arith)
find_key-insert_sorted key entry bound (e ∷ es) real (inr (more, le, rest)) =
    elim (Bool-cases (less entry.key e.key)) [
      | inl here ↦ elim (Bool-cases (same_bytes entry.key key)) [
        | inl same ↦
            let low : less key e.key ≡ true = rw (← same_bytes→eq entry.key key same) here in
            let other = less→same_bytes key e.key low in
            let gone = find_key-below key e.key es rest low in
            simp (more, here, real, same, other, gone) refl
        | inr other ↦ simp (more, here, real, other) refl
      ]
      | inr later ↦
          simp (more, later, find_key-insert_sorted key entry e.key es real rest)
            (or_else_if (same_bytes e.key key && true) (same_bytes entry.key key) (find_key key es)
              e (some entry))
    ]

-- In a well-formed node, after the insertion of an entry that is not an end marker, its key finds
-- the entry that it found before, or else the new one, and every other key finds what it
-- found before.
pub find_entry-insert_entry :
    (key : List ℕ) (entry : IndexEntry) (n : IndexNode)
    → is_last entry ≡ false
    → IsIndex n
    → find_entry key (insert_entry entry n) ≡ (
        if same_bytes entry.key key
        then or_else (find_entry key n) (some entry)
        else find_entry key n)
unfolding find_entry insert_entry
find_entry-insert_entry key entry n real h = find_key-insert_sorted key entry [] n.entries real h

not_found :
    (e : IndexEntry) (key : List ℕ) (es : List IndexEntry)
    → is_last e ≡ false
    → find_key key (e ∷ es) ≡ none
    → (same_bytes e.key key ≡ false) × (find_key key es ≡ none)
unfolding find_key
not_found e key es more h = elim (Bool-cases (same_bytes e.key key)) [
  | inl same ↦
      let test : (same_bytes e.key key && not (is_last e)) ≡ true = simp (same, more) refl in
      let found : find_key key (e ∷ es) ≡ some e = rw test refl in cc
  | inr other ↦
      let test : (same_bytes e.key key && not (is_last e)) ≡ false = simp (other, more) refl in
      let step : find_key key (e ∷ es) ≡ find_key key es = rw test refl in (other, sym step ∙ h)
]

remove_key-insert_sorted :
    (entry : IndexEntry) (bound : List ℕ) (es : List IndexEntry)
    → entry.key ≢ []
    → is_last entry ≡ false
    → IsSorted bound es
    → find_key entry.key es ≡ none
    → remove_key entry.key (insert_sorted entry es) ≡ some (entry, es)
unfolding find_key remove_key
remove_key-insert_sorted entry bound [] named real h fresh = elim h [ ]
remove_key-insert_sorted entry bound (e ∷ es) named real (inl (last, end, unnamed)) fresh =
    rw (insert_here entry e es (simp last refl), same_bytes_refl entry.key) refl
remove_key-insert_sorted entry bound (e ∷ es) named real (inr (more, le, rest)) fresh =
    elim (Bool-cases (less entry.key e.key)) [
      | inl here ↦
          rw (insert_here entry e es (simp (more, here) refl), same_bytes_refl entry.key) refl
      | inr later ↦
          let (other, gone) = not_found e entry.key es more fresh in
          rw
            (
              insert_later entry e es (simp (more, later) refl),
              other,
              remove_key-insert_sorted entry e.key es named real rest gone,
            )
            refl
    ]

-- The entry of a fresh key that is not empty is taken out again by its key, and leaves the entries
-- that were there before it was inserted.
pub remove_entry-insert_entry :
    (entry : IndexEntry) (n : IndexNode)
    → entry.key ≢ []
    → is_last entry ≡ false
    → IsIndex n
    → find_entry entry.key n ≡ none
    → ((remove_entry entry.key (insert_entry entry n)).1 ≡ some entry)
      × ((remove_entry entry.key (insert_entry entry n)).0.entries ≡ n.entries)
unfolding find_entry insert_entry remove_entry
remove_entry-insert_entry entry n named real h fresh =
    let taken = remove_key-insert_sorted entry [] n.entries named real h fresh in
    (rw (remove_entry, taken) refl, rw (remove_entry, taken) refl)

remove_key-nil :
    (bound : List ℕ) (es : List IndexEntry)
    → IsSorted bound es
    → find_key [] es ≡ none
    → All (λ e. is_last e ≡ false) (left_after [] es)
unfolding remove_key
remove_key-nil bound [] h fresh = elim h [ ]
remove_key-nil bound (e ∷ es) (inl (last, end, unnamed)) fresh =
    let here : left_after [] (e ∷ es) ≡ [] = left_after-here [] e es (rw unnamed refl) ∙ end in
    rw here tt
remove_key-nil bound (e ∷ es) (inr (more, le, rest)) fresh =
    let (other, gone) = not_found e [] es more fresh in
    rw (left_after-cons [] e es other) (more, remove_key-nil e.key es rest gone)

-- In a well-formed node in which no entry has the empty key, removing the empty key removes the
-- end marker: no entry that is left is one.
pub remove_entry-end_marker :
    (n : IndexNode)
    → IsIndex n
    → find_entry [] n ≡ none
    → All (λ e. is_last e ≡ false) (remove_entry [] n).0.entries
unfolding find_entry
remove_entry-end_marker n h fresh =
    subst (All (λ e. is_last e ≡ false)) (entries_left [] n) (remove_key-nil [] n.entries h fresh)
