-- ===== src/Galleon/RunList/Order.antt =====
-- After `add_run` the runs stand in order and no two neighbours can be merged.
use prisma_os.Base.{
  ℕ, ◌≤◌, ◌≡◌, inl, inr, List, [], ◌∷◌, ◌++◌, none, leb, leb→le, leb→gt, arith, Option-cases,
  Bool-cases,
}
use prisma_os.Base.Words.{add64}
use prisma_os.Galleon.Run.{ClusterRun, merge, can_merge, IsRun}
use prisma_os.Galleon.Run.Laws.{merge_lem, end_cluster_lem}
use prisma_os.Galleon.RunList.{
  RunList, insert_by_start, sort_by_start, merge_from, merge_adjacent, sort_and_merge, add_run, All,
  IsRunList,
}
use prisma_os.Galleon.RunList.Merging.{sort-IsRun, All-snoc}

abbrev SortedFrom : ℕ → List ClusterRun → Type 0
SortedFrom n [] = Unit
SortedFrom n (r ∷ rs) = (n ≤ r.start_cluster) × SortedFrom r.start_cluster rs

SortedFrom-mono : (m n : ℕ) (rs : List ClusterRun) → m ≤ n → SortedFrom n rs → SortedFrom m rs
SortedFrom-mono m n [] h s = tt
SortedFrom-mono m n (r ∷ rs) h s = (omega arith, s.1)

insert-SortedFrom :
    (n : ℕ) (r : ClusterRun) (rs : List ClusterRun)
    → n ≤ r.start_cluster
    → SortedFrom n rs
    → SortedFrom n (insert_by_start r rs)
unfolding insert_by_start
insert-SortedFrom n r [] h s = (h, tt)
insert-SortedFrom n r (x ∷ rs) h s = elim (Bool-cases (leb r.start_cluster x.start_cluster)) [
  | inl e ↦ rw e (h, (leb→le _ _ e, s.1))
  | inr e ↦
      let above = leb→gt _ _ e in
      rw e (s.0, insert-SortedFrom x.start_cluster r rs (omega arith) s.1)
]

sort-SortedFrom : (rs : List ClusterRun) → SortedFrom 0 (sort_by_start rs)
unfolding sort_by_start
sort-SortedFrom [] = tt
sort-SortedFrom (r ∷ rs) =
    insert-SortedFrom 0 r (sort_by_start rs) (omega arith) (sort-SortedFrom rs)

-- The runs behind `p`: each starts no earlier than the one before, and cannot be merged with it.
abbrev pub SeparatedFrom : ClusterRun → List ClusterRun → Type 0
SeparatedFrom p [] = Unit
SeparatedFrom p (r ∷ rs) =
    (p.start_cluster ≤ r.start_cluster) × (merge p r ≡ none) × SeparatedFrom r rs

abbrev pub Separated : List ClusterRun → Type 0
Separated [] = Unit
Separated (r ∷ rs) = SeparatedFrom r rs

-- Whether a later run can be merged with `p` depends on its start only.
merge-none_of_start :
    (p r x : ClusterRun)
    → IsRun p
    → IsRun x
    → p.start_cluster ≤ r.start_cluster
    → x.start_cluster ≡ r.start_cluster
    → merge p r ≡ none
    → merge p x ≡ none
unfolding merge can_merge add64
merge-none_of_start p r x vp vx h e n = ground (arith, end_cluster_lem p vp, end_cluster_lem x vx)

merge_from-SeparatedFrom :
    (p last : ClusterRun) (rs : List ClusterRun)
    → IsRun p
    → IsRun last
    → All IsRun rs
    → p.start_cluster ≤ last.start_cluster
    → merge p last ≡ none
    → SortedFrom last.start_cluster rs
    → SeparatedFrom p (merge_from last rs)
unfolding merge_from
merge_from-SeparatedFrom p last [] vp v vs h n s = (h, n, tt)
merge_from-SeparatedFrom p last (r ∷ rs) vp v vs h n s = elim (Option-cases (merge last r)) [
  | inl e ↦ rw (e, merge_from) (h, n, merge_from-SeparatedFrom last r rs v vs.0 vs.1 s.0 e s.1)
  | inr (m, e) ↦
      let facts = merge_lem last r m v vs.0 e in
      rw (e, merge_from)
        (merge_from-SeparatedFrom p m rs vp facts.0 vs.1 (omega (arith, facts.2, s.0))
          (merge-none_of_start p last m vp facts.0 h (omega (arith, facts.2, s.0)) n)
          (SortedFrom-mono m.start_cluster r.start_cluster rs (omega (arith, facts.2)) s.1))
]

merge_from-Separated :
    (last : ClusterRun) (rs : List ClusterRun)
    → IsRun last
    → All IsRun rs
    → SortedFrom last.start_cluster rs
    → Separated (merge_from last rs)
unfolding merge_from
merge_from-Separated last [] v vs s = tt
merge_from-Separated last (r ∷ rs) v vs s = elim (Option-cases (merge last r)) [
  | inl e ↦ rw (e, merge_from) (merge_from-SeparatedFrom last r rs v vs.0 vs.1 s.0 e s.1)
  | inr (m, e) ↦
      let facts = merge_lem last r m v vs.0 e in
      rw (e, merge_from)
        (merge_from-Separated m rs facts.0 vs.1
          (SortedFrom-mono m.start_cluster r.start_cluster rs (omega (arith, facts.2)) s.1))
]

merge_adjacent-Separated :
    (rs : List ClusterRun) → All IsRun rs → SortedFrom 0 rs → Separated (merge_adjacent rs)
unfolding merge_adjacent
merge_adjacent-Separated [] vs s = tt
merge_adjacent-Separated (r ∷ rs) vs s = merge_from-Separated r rs vs.0 vs.1 s.1

-- Adding a proper run to proper runs leaves them in order of their starts, with no two neighbours
-- that could be merged.
pub add_run-Separated :
    (l : RunList) (r : ClusterRun) → IsRunList l → IsRun r → Separated (add_run l r).runs
unfolding add_run sort_and_merge
add_run-Separated l r v vr =
    let rs = l.runs ++ r ∷ [] in
    merge_adjacent-Separated (sort_by_start rs) (sort-IsRun rs (All-snoc l.runs r v.proper vr))
      (sort-SortedFrom rs)
