-- ===== src/Galleon/RunList/Merging.antt =====
-- `sort_and_merge`, `add_run` and `remove_run` keep the clusters of a run list.
use prisma_os.Base.{
  ℕ, ◌+◌, ◌<◌, ◌^◌, ◌≡◌, refl, inl, inr, List, [], ◌∷◌, ◌++◌, leb, arith, Option-cases, Bool-cases,
}
use prisma_os.Base.Words.{add64_lem}
use prisma_os.Galleon.Run.{ClusterRun, merge, IsRun, covers}
use prisma_os.Galleon.Run.Laws.{merge_lem, covers-merge}
use prisma_os.Galleon.RunList.{
  RunList, insert_by_start, sort_by_start, merge_from, merge_adjacent, sort_and_merge, add_run, All,
  covers_all, sum_counts, IsRunList,
}

covers_all-insert :
    (r : ClusterRun) (rs : List ClusterRun) (c : ℕ)
    → covers_all (insert_by_start r rs) c ≡ covers r c + covers_all rs c
unfolding insert_by_start
covers_all-insert r [] c = refl
covers_all-insert r (s ∷ rs) c = elim (Bool-cases (leb r.start_cluster s.start_cluster)) [
  | inl e ↦ rw e refl
  | inr e ↦ rw e (omega (arith, covers_all-insert r rs c))
]

sum_counts-insert :
    (r : ClusterRun) (rs : List ClusterRun)
    → sum_counts (insert_by_start r rs) ≡ r.cluster_count + sum_counts rs
unfolding insert_by_start
sum_counts-insert r [] = refl
sum_counts-insert r (s ∷ rs) = elim (Bool-cases (leb r.start_cluster s.start_cluster)) [
  | inl e ↦ rw e refl
  | inr e ↦ rw e (omega (arith, sum_counts-insert r rs))
]

insert-IsRun :
    (r : ClusterRun) (rs : List ClusterRun)
    → IsRun r
    → All IsRun rs
    → All IsRun (insert_by_start r rs)
unfolding insert_by_start
insert-IsRun r [] v vs = (v, tt)
insert-IsRun r (s ∷ rs) v vs = elim (Bool-cases (leb r.start_cluster s.start_cluster)) [
  | inl e ↦ rw e (v, vs)
  | inr e ↦ rw e (vs.0, insert-IsRun r rs v vs.1)
]

covers_all-sort : (rs : List ClusterRun) (c : ℕ) → covers_all (sort_by_start rs) c ≡ covers_all rs c
unfolding sort_by_start
covers_all-sort [] c = refl
covers_all-sort (r ∷ rs) c =
    omega (arith, covers_all-insert r (sort_by_start rs) c, covers_all-sort rs c)

sum_counts-sort : (rs : List ClusterRun) → sum_counts (sort_by_start rs) ≡ sum_counts rs
unfolding sort_by_start
sum_counts-sort [] = refl
sum_counts-sort (r ∷ rs) = omega (arith, sum_counts-insert r (sort_by_start rs), sum_counts-sort rs)

pub sort-IsRun : (rs : List ClusterRun) → All IsRun rs → All IsRun (sort_by_start rs)
unfolding sort_by_start
sort-IsRun [] vs = tt
sort-IsRun (r ∷ rs) vs = insert-IsRun r (sort_by_start rs) vs.0 (sort-IsRun rs vs.1)

-- The loop keeps each cluster's count, the number of clusters, and proper runs.
abbrev Merges : ClusterRun → List ClusterRun → Type 0
Merges last rs =
    All IsRun (merge_from last rs)
    × ((c : ℕ) → covers_all (merge_from last rs) c ≡ covers last c + covers_all rs c)
    × (sum_counts (merge_from last rs) ≡ last.cluster_count + sum_counts rs)

merge_from-Merges :
    (last : ClusterRun) (rs : List ClusterRun) → IsRun last → All IsRun rs → Merges last rs
unfolding merge_from
merge_from-Merges last [] v vs = ((v, tt), λ c. refl, refl)
merge_from-Merges last (r ∷ rs) v vs = elim (Option-cases (merge last r)) [
  | inl e ↦
      let ih = merge_from-Merges r rs vs.0 vs.1 in
      rw (e, merge_from) ((v, ih.0), λ c. omega (arith, ih.1 c), omega (arith, ih.2))
  | inr (m, e) ↦
      let facts = merge_lem last r m v vs.0 e in
      let ih = merge_from-Merges m rs facts.0 vs.1 in
      rw (e, merge_from)
        (
          ih.0,
          λ c. omega (arith, ih.1 c, covers-merge last r m c v vs.0 e),
          omega (arith, ih.2, facts.1),
        )
]

merge_adjacent-Merges :
    (rs : List ClusterRun)
    → All IsRun rs
    → All IsRun (merge_adjacent rs)
      × ((c : ℕ) → covers_all (merge_adjacent rs) c ≡ covers_all rs c)
      × (sum_counts (merge_adjacent rs) ≡ sum_counts rs)
unfolding merge_adjacent
merge_adjacent-Merges [] vs = (tt, λ c. refl, refl)
merge_adjacent-Merges (r ∷ rs) vs = merge_from-Merges r rs vs.0 vs.1

pub All-snoc :
    (rs : List ClusterRun) (r : ClusterRun) → All IsRun rs → IsRun r → All IsRun (rs ++ r ∷ [])
All-snoc [] r vs v = (v, tt)
All-snoc (s ∷ rs) r vs v = (vs.0, All-snoc rs r vs.1 v)

covers_all-snoc :
    (rs : List ClusterRun) (r : ClusterRun) (c : ℕ)
    → covers_all (rs ++ r ∷ []) c ≡ covers_all rs c + covers r c
covers_all-snoc [] r c = omega arith
covers_all-snoc (s ∷ rs) r c = omega (arith, covers_all-snoc rs r c)

sum_counts-snoc :
    (rs : List ClusterRun) (r : ClusterRun)
    → sum_counts (rs ++ r ∷ []) ≡ sum_counts rs + r.cluster_count
sum_counts-snoc [] r = omega arith
sum_counts-snoc (s ∷ rs) r = omega (arith, sum_counts-snoc rs r)

-- Adding a proper run to a list, with a total below `2 ^ 64`, keeps the runs proper and counted.
pub add_run-IsRunList :
    (l : RunList) (r : ClusterRun)
    → IsRunList l
    → IsRun r
    → l.total_clusters + r.cluster_count < 2 ^ 64
    → IsRunList (add_run l r)
unfolding add_run sort_and_merge
add_run-IsRunList l r v vr small =
    let rs = l.runs ++ r ∷ [] in
    let proper = sort-IsRun rs (All-snoc l.runs r v.proper vr) in
    let facts = merge_adjacent-Merges (sort_by_start rs) proper in
    record {
      proper = facts.0;
      counted = omega (
        arith,
        facts.2,
        sum_counts-sort rs,
        sum_counts-snoc l.runs r,
        v.counted,
        add64_lem l.total_clusters r.cluster_count small,
      );
    }

-- The new list holds each cluster as often as the old list and the run together.
pub covers_all-add_run :
    (l : RunList) (r : ClusterRun) (c : ℕ)
    → IsRunList l
    → IsRun r
    → covers_all (add_run l r).runs c ≡ covers_all l.runs c + covers r c
unfolding add_run sort_and_merge
covers_all-add_run l r c v vr =
    let rs = l.runs ++ r ∷ [] in
    let proper = sort-IsRun rs (All-snoc l.runs r v.proper vr) in
    omega (
      arith,
      (merge_adjacent-Merges (sort_by_start rs) proper).1 c,
      covers_all-sort rs c,
      covers_all-snoc l.runs r c,
    )
