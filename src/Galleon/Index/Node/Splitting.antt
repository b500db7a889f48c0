-- ===== src/Galleon/Index/Node/Splitting.antt =====
-- The two halves of a split node.
use prisma_os.Base.{
  ℕ, ◌+◌, ◌-◌, ◌/◌, ◌≡◌, refl, true, false, ◌&&◌, not, List, [], ◌∷◌, ◌++◌, Option, none, some,
  arith, inl, inr, Bool-cases, ◌∙◌, sym, ap, subst, length, length-append, take, drop,
  take-append_at, drop-append_at, append_assoc, ltb, ltb→ge, ◌==◌, take-append_le, drop-append_le,
  length-drop, take-drop, take_all, drop_all, ◌≢◌,
}
use prisma_os.Base.Words.{add64}
use prisma_os.Base.Bytes.{same_bytes}
use prisma_os.Galleon.Index.{IndexEntry, new_end_marker, is_leaf}
use prisma_os.Galleon.Index.Node.{
  IndexNode, new_half, moved, kept, update_header, is_last, find_key, find_entry, split, move_all,
  insert_at, new_leaf, new_internal,
}
use prisma_os.Galleon.Index.Node.Keys.{less-nil}
use prisma_os.Galleon.Index.Node.Sorted.{IsSorted, IsIndex, IsSorted-weaken}
use prisma_os.Galleon.Index.Node.Finding.{or_else}

move_all_lem :
    (es pre : List IndexEntry) (m : IndexEntry)
    → move_all es (pre ++ (m ∷ [])) ≡ pre ++ (es ++ (m ∷ []))
unfolding move_all
move_all_lem [] pre m = refl
move_all_lem (e ∷ es) pre m =
    let size : length (pre ++ (m ∷ [])) - 1 ≡ length pre =
      omega (arith, length-append pre (m ∷ [])) in
    let inserted : insert_at (length (pre ++ (m ∷ [])) - 1) e (pre ++ (m ∷ []))
        ≡ (pre ++ (e ∷ [])) ++ (m ∷ []) =
      rw
        (
          size,
          take-append_at (length pre) pre (m ∷ []) refl,
          drop-append_at (length pre) pre (m ∷ []) refl,
        )
        (sym (append_assoc pre (e ∷ []) (m ∷ []))) in
    ap (move_all es) inserted
    ∙ move_all_lem es (pre ++ (e ∷ [])) m
    ∙ append_assoc pre (e ∷ []) (es ++ (m ∷ []))

new_half_entries : (n : IndexNode) → (new_half n).entries ≡ new_end_marker ∷ []
unfolding new_leaf new_internal
new_half_entries n = elim (Bool-cases (is_leaf n.header)) [
  | inl leaf ↦ rw leaf refl
  | inr internal ↦ rw internal refl
]

new_half_vcn : (n : IndexNode) → (new_half n).vcn ≡ add64 n.vcn 1
unfolding new_leaf new_internal
new_half_vcn n = elim (Bool-cases (is_leaf n.header)) [
  | inl leaf ↦ rw leaf refl
  | inr internal ↦ rw internal refl
]

module _ (real : List IndexEntry) (m : IndexEntry) where
  abbrev middle : ℕ
  middle = (length real + 1) / 2

  kept_lem : kept (real ++ (m ∷ [])) ≡ take middle real ++ (m ∷ [])
  kept_lem =
      let last : length real + 1 - 1 ≡ length real = omega arith in
      rw (
        length-append real (m ∷ []),
        last,
        take-append_le middle real (m ∷ []) (omega arith),
        drop-append_at (length real) real (m ∷ []) refl,
      )

  moved_lem : moved (real ++ (m ∷ [])) ≡ drop middle real
  moved_lem = rw (
    length-append real (m ∷ []),
    drop-append_le middle real (m ∷ []) (omega arith),
    take-append_at (length real + 1 - 1 - middle) (drop middle real) (m ∷ [])
        (omega (arith, length-drop middle real)),
  )

module _ (n : IndexNode) (real : List IndexEntry) (m : IndexEntry)
    (parts : n.entries ≡ real ++ (m ∷ [])) where
  split_entries :
      (l : IndexNode) × (r : IndexNode) × (split n ≡ some (l, r))
      × (l.entries ≡ take (middle real m) real ++ (m ∷ []))
      × (r.entries ≡ drop (middle real m) real ++ (new_end_marker ∷ []))
      × (r.vcn ≡ add64 n.vcn 1)
  unfolding split update_header
  split_entries =
      let size : length n.entries ≡ length real + 1 =
        ap length parts ∙ length-append real (m ∷ []) in
      let some_entries : (length n.entries == 0) ≡ false = ground arith in
      elim (Bool-cases (ltb (length n.entries / 2) (length n.entries - 1))) [
        | inl more ↦ (
          update_header (record n { entries = kept n.entries }),
          update_header
              (record (new_half n) { entries = move_all (moved n.entries) (new_half n).entries }),
          rw (some_entries, more) refl,
          ap kept parts ∙ kept_lem real m,
          ap (λ es. move_all (moved es) (new_half n).entries) parts
              ∙ ap (move_all (moved (real ++ (m ∷ [])))) (new_half_entries n)
              ∙ move_all_lem (moved (real ++ (m ∷ []))) [] new_end_marker
              ∙ ap (λ es. es ++ (new_end_marker ∷ [])) (moved_lem real m),
          new_half_vcn n,
        )
        | inr few ↦
            let short = ltb→ge _ _ few in
            (
              update_header n,
              update_header (new_half n),
              rw (some_entries, few) refl,
              parts ∙ ap (λ es. es ++ (m ∷ [])) (sym (take_all (middle real m) real (omega arith))),
              new_half_entries n
                  ∙ ap (λ es. es ++ (new_end_marker ∷ []))
                      (sym (drop_all (middle real m) real (omega arith))),
              new_half_vcn n,
            )
      ]

abbrev IsMarker : IndexEntry → Type 0
IsMarker m = (is_last m ≡ true) × (m.key ≡ [])

not_nil : (xs : List IndexEntry) (z : IndexEntry) (zs : List IndexEntry) → xs ++ (z ∷ zs) ≢ []
not_nil [] z zs h = cc
not_nil (x ∷ xs) z zs h = cc

sorted_parts :
    (bound : List ℕ) (es : List IndexEntry)
    → IsSorted bound es
    → (real : List IndexEntry) × (m : IndexEntry) × (es ≡ real ++ (m ∷ [])) × IsMarker m
sorted_parts bound [] h = elim h [ ]
sorted_parts bound (e ∷ es) (inl (last, end, unnamed)) = ([], e, ap (◌∷◌ e) end, (last, unnamed))
sorted_parts bound (e ∷ es) (inr (more, above, rest)) =
    let (real, m, parts, marker) = sorted_parts e.key es rest in
    (e ∷ real, m, ap (◌∷◌ e) parts, marker)

IsSorted-prefix :
    (bound : List ℕ) (xs : List IndexEntry) (z : IndexEntry) (zs : List IndexEntry) (m : IndexEntry)
    → IsMarker m
    → IsSorted bound (xs ++ (z ∷ zs))
    → IsSorted bound (xs ++ (m ∷ []))
IsSorted-prefix bound [] z zs m marker h = inl (marker.0, refl, marker.1)
IsSorted-prefix bound (x ∷ xs) z zs m marker (inl (last, end, unnamed)) =
    absurd (not_nil xs z zs end)
IsSorted-prefix bound (x ∷ xs) z zs m marker (inr (more, above, rest)) =
    inr (more, above, IsSorted-prefix x.key xs z zs m marker rest)

IsSorted-suffix :
    (bound : List ℕ) (xs : List IndexEntry) (z : IndexEntry) (zs : List IndexEntry)
    → IsSorted bound (xs ++ (z ∷ zs))
    → IsSorted [] (z ∷ zs)
IsSorted-suffix bound [] z zs h = IsSorted-weaken [] bound (z ∷ zs) (less-nil bound) h
IsSorted-suffix bound (x ∷ xs) z zs (inl (last, end, unnamed)) = absurd (not_nil xs z zs end)
IsSorted-suffix bound (x ∷ xs) z zs (inr (more, above, rest)) = IsSorted-suffix x.key xs z zs rest

IsSorted-halves :
    (xs ys : List IndexEntry) (m m' : IndexEntry)
    → IsMarker m
    → IsMarker m'
    → IsSorted [] (xs ++ (ys ++ (m ∷ [])))
    → IsSorted [] (xs ++ (m ∷ [])) × IsSorted [] (ys ++ (m' ∷ []))
IsSorted-halves xs [] m m' marker marker' h = (h, inl (marker'.0, refl, marker'.1))
IsSorted-halves xs (y ∷ ys) m m' marker marker' h = (
  IsSorted-prefix [] xs y (ys ++ (m ∷ [])) m marker h,
  IsSorted-prefix [] (y ∷ ys) m [] m' marker' (IsSorted-suffix [] xs y (ys ++ (m ∷ [])) h),
)

or_else-none : (a : Option IndexEntry) → or_else a none ≡ a
or_else-none none = refl
or_else-none (some e) = refl

find_key-append :
    (key : List ℕ) (xs ys : List IndexEntry)
    → find_key key (xs ++ ys) ≡ or_else (find_key key xs) (find_key key ys)
unfolding find_key
find_key-append key [] ys = refl
find_key-append key (x ∷ xs) ys = elim (Bool-cases (same_bytes x.key key && not (is_last x))) [
  | inl here ↦ rw here refl
  | inr later ↦ rw later (find_key-append key xs ys)
]

find_key-marker :
    (key : List ℕ) (xs : List IndexEntry) (m : IndexEntry)
    → is_last m ≡ true
    → find_key key (xs ++ (m ∷ [])) ≡ find_key key xs
unfolding find_key
find_key-marker key xs m last =
    let none_here : find_key key (m ∷ []) ≡ none = ground arith in
    find_key-append key xs (m ∷ []) ∙ ap (or_else (find_key key xs)) none_here ∙ or_else-none _

IsMarker-new : IsMarker new_end_marker
unfolding new_end_marker
IsMarker-new = (refl, refl)

-- A well-formed node splits into two well-formed nodes, the second with the next number, and a key
-- finds in the node what it finds in the first of them, or else in the second.
pub find_entry-split :
    (key : List ℕ) (n : IndexNode)
    → IsIndex n
    → (l : IndexNode) × (r : IndexNode) × (split n ≡ some (l, r))
      × IsIndex l
      × IsIndex r
      × (r.vcn ≡ add64 n.vcn 1)
      × (find_entry key n ≡ or_else (find_entry key l) (find_entry key r))
unfolding find_entry
find_entry-split key n h =
    let (real, m, parts, marker) = sorted_parts [] n.entries h in
    let (l, r, e, left, right, vcn) = split_entries n real m parts in
    let xs = take (middle real m) real in
    let ys = drop (middle real m) real in
    let whole : real ≡ xs ++ ys = sym (take-drop (middle real m) real) in
    let sorted : IsSorted [] (xs ++ (ys ++ (m ∷ []))) =
      subst (IsSorted []) (parts ∙ ap (λ es. es ++ (m ∷ [])) whole ∙ append_assoc xs ys (m ∷ []))
        h in
    let (first, second) = IsSorted-halves xs ys m new_end_marker marker IsMarker-new sorted in
    let in_first = ap (find_key key) left ∙ find_key-marker key xs m marker.0 in
    let in_second =
      ap (find_key key) right ∙ find_key-marker key ys new_end_marker IsMarker-new.0 in
    let in_whole =
      ap (find_key key) parts
      ∙ find_key-marker key real m marker.0
      ∙ ap (find_key key) whole
      ∙ find_key-append key xs ys in
    (
      l,
      r,
      e,
      subst (IsSorted []) (sym left) first,
      subst (IsSorted []) (sym right) second,
      vcn,
      in_whole ∙ sym (rw (in_first, in_second) refl),
    )
