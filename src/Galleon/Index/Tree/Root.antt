-- ===== src/Galleon/Index/Tree/Root.antt =====
-- The root that splitting the root makes.
use prisma_os.Base.{
  ℕ, ◌≡◌, refl, ◌∙◌, ap, true, false, ◌||◌, List, [], ◌∷◌, none, inl, inr, Bool-cases,
}
use prisma_os.Galleon.Index.{IndexEntry, is_leaf, entry_new_internal, new_end_marker}
use prisma_os.Galleon.Index.Node.{is_last, less, insert_sorted, insert_entry, new_internal}
use prisma_os.Galleon.Index.Node.Sorted.{insert_here, insert_later}
use prisma_os.Galleon.Index.Tree.{root_over, search_child}

-- A descent for a key passes the entries that are inserted with smaller keys.
search_child-insert_sorted :
    (key : List ℕ) (entry : IndexEntry) (es : List IndexEntry)
    → is_last entry ≡ false
    → less entry.key key ≡ true
    → search_child key (insert_sorted entry es) ≡ search_child key es
unfolding insert_sorted search_child
search_child-insert_sorted key entry [] more lower = simp (more, lower) refl
search_child-insert_sorted key entry (e ∷ es) more lower =
    elim (Bool-cases (is_last e || less entry.key e.key)) [
      | inl at ↦ simp (insert_here entry e es at, more, lower) refl
      | inr later ↦
          simp (insert_later entry e es later, search_child-insert_sorted key entry es more lower)
            refl
    ]

internal_last : (key : List ℕ) (v : ℕ) → is_last (entry_new_internal key v) ≡ false
unfolding entry_new_internal
internal_last key v = refl

internal_key : (key : List ℕ) (v : ℕ) → (entry_new_internal key v).key ≡ key
unfolding entry_new_internal
internal_key key v = refl

end_marker_nowhere : (key : List ℕ) → search_child key (new_end_marker ∷ []) ≡ none
unfolding search_child new_end_marker
end_marker_nowhere key = refl

-- In the root that `split_root` makes of two nodes, which is no leaf, a key greater than the first keys
-- of both nodes has no child in which a search or an insertion would go on.
pub search_child-root_over :
    (vcn : ℕ) (left_key : List ℕ) (left_vcn : ℕ) (right_key : List ℕ) (right_vcn : ℕ) (key : List ℕ)
    → less left_key key ≡ true
    → less right_key key ≡ true
    → (is_leaf (root_over vcn left_key left_vcn right_key right_vcn).header ≡ false)
      × (search_child key (root_over vcn left_key left_vcn right_key right_vcn).entries ≡ none)
unfolding root_over insert_entry new_internal search_child insert_sorted
search_child-root_over vcn left_key left_vcn right_key right_vcn key left_lower right_lower =
    let low_left : less (entry_new_internal left_key left_vcn).key key ≡ true =
      ap (λ k. less k key) (internal_key left_key left_vcn) ∙ left_lower in
    let low_right : less (entry_new_internal right_key right_vcn).key key ≡ true =
      ap (λ k. less k key) (internal_key right_key right_vcn) ∙ right_lower in
    (
      refl,
      search_child-insert_sorted key (entry_new_internal right_key right_vcn)
            (insert_sorted (entry_new_internal left_key left_vcn) (new_end_marker ∷ []))
            (internal_last right_key right_vcn) low_right
          ∙ search_child-insert_sorted key (entry_new_internal left_key left_vcn)
              (new_end_marker ∷ []) (internal_last left_key left_vcn) low_left
          ∙ end_marker_nowhere key,
    )
