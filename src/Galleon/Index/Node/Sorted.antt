-- ===== src/Galleon/Index/Node/Sorted.antt =====
-- The entries of a node are sorted by key, with one end marker, which is last.
use prisma_os.Base.{
  ℕ, ◌≡◌, refl, true, false, ◌||◌, List, [], ◌∷◌, none, some, ◌⊎◌, inl, inr, Bool-cases,
  Option-cases, ◌≢◌, ◌∙◌, sym, subst,
}
use prisma_os.Base.Bytes.{same_bytes}
use prisma_os.Galleon.Index.{IndexEntry}
use prisma_os.Galleon.Index.Node.{
  IndexNode, less, is_last, insert_sorted, insert_entry, remove_key, remove_entry, new_leaf,
}
use prisma_os.Galleon.Index.Node.Keys.{less-nil, less-asym, le_trans, same_bytes→eq}

-- Every key is at least the bound.
abbrev pub IsSorted : List ℕ → List IndexEntry → Type 0
IsSorted bound [] = ⊥
IsSorted bound (e ∷ es) =
    ((is_last e ≡ true) × (es ≡ []) × (e.key ≡ []))
    ⊎ ((is_last e ≡ false) × (less e.key bound ≡ false) × IsSorted e.key es)

abbrev pub IsIndex : IndexNode → Type 0
IsIndex n = IsSorted [] n.entries

module _ (entry e : IndexEntry) (es : List IndexEntry) where
  pub insert_here :
      (is_last e || less entry.key e.key) ≡ true → insert_sorted entry (e ∷ es) ≡ entry ∷ e ∷ es
  unfolding insert_sorted
  insert_here h = rw h refl

  pub insert_later :
      (is_last e || less entry.key e.key) ≡ false
      → insert_sorted entry (e ∷ es) ≡ e ∷ insert_sorted entry es
  unfolding insert_sorted
  insert_later h = rw h refl

insert_sorted-IsSorted :
    (entry : IndexEntry) (bound : List ℕ) (es : List IndexEntry)
    → is_last entry ≡ false
    → less entry.key bound ≡ false
    → IsSorted bound es
    → IsSorted bound (insert_sorted entry es)
unfolding insert_sorted
insert_sorted-IsSorted entry bound [] real above h = elim h [ ]
insert_sorted-IsSorted entry bound (e ∷ es) real above (inl (last, end, unnamed)) =
    subst (IsSorted bound) (sym (insert_here entry e es (simp last refl)))
      (inr (real, above, inl (last, end, unnamed)))
insert_sorted-IsSorted entry bound (e ∷ es) real above (inr (more, le, rest)) =
    elim (Bool-cases (less entry.key e.key)) [
      | inl here ↦
          subst (IsSorted bound) (sym (insert_here entry e es (simp (more, here) refl)))
            (inr (real, above, inr (more, less-asym entry.key e.key here, rest)))
      | inr later ↦
          subst (IsSorted bound) (sym (insert_later entry e es (simp (more, later) refl)))
            (inr (more, le, insert_sorted-IsSorted entry e.key es real later rest))
    ]

-- A new node is well formed, and inserting an entry that is not an end marker keeps it so.
pub insert_entry-IsIndex :
    (entry : IndexEntry) (n : IndexNode)
    → is_last entry ≡ false
    → IsIndex n
    → IsIndex (insert_entry entry n)
unfolding insert_entry
insert_entry-IsIndex entry n real h =
    insert_sorted-IsSorted entry [] n.entries real (less-nil entry.key) h

pub new_leaf-IsIndex : (vcn : ℕ) → IsIndex (new_leaf vcn)
unfolding new_leaf
new_leaf-IsIndex vcn = inl (refl, refl, refl)

pub IsSorted-weaken :
    (low high : List ℕ) (es : List IndexEntry)
    → less high low ≡ false
    → IsSorted high es
    → IsSorted low es
IsSorted-weaken low high [] le h = h
IsSorted-weaken low high (e ∷ es) le (inl h) = inl h
IsSorted-weaken low high (e ∷ es) le (inr (more, above, rest)) =
    inr (more, le_trans e.key high low above le, rest)

-- The entries that are left when a key is removed.
abbrev pub left_after : List ℕ → List IndexEntry → List IndexEntry
left_after key es = elim (remove_key key es) [ none ↦ es | some p ↦ p.1 ]

pub left_after-cons :
    (key : List ℕ) (e : IndexEntry) (es : List IndexEntry)
    → same_bytes e.key key ≡ false
    → left_after key (e ∷ es) ≡ e ∷ left_after key es
unfolding remove_key
left_after-cons key e es h =
    rw (left_after, h)
      (elim (Option-cases (remove_key key es)) [
        | inl none_left ↦ rw (left_after, none_left) refl
        | inr (p, some_left) ↦ rw (left_after, some_left) refl
      ])

pub left_after-here :
    (key : List ℕ) (e : IndexEntry) (es : List IndexEntry)
    → same_bytes e.key key ≡ true
    → left_after key (e ∷ es) ≡ es
unfolding remove_key
left_after-here key e es h = rw (left_after, h) refl

left_after-IsSorted :
    (key bound : List ℕ) (es : List IndexEntry)
    → key ≢ []
    → IsSorted bound es
    → IsSorted bound (left_after key es)
unfolding remove_key
left_after-IsSorted key bound [] named h = h
left_after-IsSorted key bound (e ∷ es) named (inl (last, end, unnamed)) =
    elim (Bool-cases (same_bytes e.key key)) [
      | inl same ↦ absurd (named (sym (same_bytes→eq e.key key same) ∙ unnamed))
      | inr other ↦
          subst (IsSorted bound) (sym (left_after-cons key e es other))
            (inl (last, rw end refl, unnamed))
    ]
left_after-IsSorted key bound (e ∷ es) named (inr (more, above, rest)) =
    elim (Bool-cases (same_bytes e.key key)) [
      | inl same ↦
          subst (IsSorted bound) (sym (left_after-here key e es same))
            (IsSorted-weaken bound e.key es above rest)
      | inr other ↦
          subst (IsSorted bound) (sym (left_after-cons key e es other))
            (inr (more, above, left_after-IsSorted key e.key es named rest))
    ]

pub entries_left :
    (key : List ℕ) (n : IndexNode) → left_after key n.entries ≡ (remove_entry key n).0.entries
unfolding remove_entry
entries_left key n = elim (Option-cases (remove_key key n.entries)) [
  | inl missing ↦ rw (left_after, remove_entry, missing) refl
  | inr (p, found) ↦ rw (left_after, remove_entry, found) refl
]

-- Removing the entry of a key that is not empty keeps a node well formed.
pub remove_entry-IsIndex :
    (key : List ℕ) (n : IndexNode) → key ≢ [] → IsIndex n → IsIndex (remove_entry key n).0
unfolding remove_entry
remove_entry-IsIndex key n named h =
    subst (IsSorted []) (entries_left key n) (left_after-IsSorted key [] n.entries named h)
