-- ===== src/Galleon/Run/Laws.antt =====
-- What the operations of `ClusterRun` compute on runs that do not wrap.
use prisma_os.Base.{ℕ, ◌+◌, ◌-◌, ◌≤◌, ◌<◌, min, max, ◌≡◌, ◌↔◌, ◌⊎◌, true, some, arith}
use prisma_os.Base.Words.{add64, sub64}
use prisma_os.Galleon.Run.{
  ClusterRun, end_cluster, contains_cluster, overlaps, can_merge, merge, IsRun, covers,
}

pub end_cluster_lem :
    (r : ClusterRun) → IsRun r → end_cluster r ≡ r.start_cluster + r.cluster_count - 1
unfolding end_cluster add64 sub64
end_cluster_lem r v = omega arith

-- A run contains exactly the clusters from its start up to its end.
pub contains_cluster_iff :
    (r : ClusterRun) (c : ℕ)
    → IsRun r
    → (contains_cluster r c ≡ true)
      ↔ ((r.start_cluster ≤ c) × (c < r.start_cluster + r.cluster_count))
unfolding contains_cluster
contains_cluster_iff r c v =
    (λ h. ground (arith, end_cluster_lem r v), λ h. ground (arith, end_cluster_lem r v))

pub contains_cluster-covers :
    (r : ClusterRun) (c : ℕ) → IsRun r → (contains_cluster r c ≡ true) ↔ (covers r c ≡ 1)
unfolding contains_cluster
contains_cluster-covers r c v =
    (λ h. ground (arith, end_cluster_lem r v), λ h. ground (arith, end_cluster_lem r v))

-- Two runs overlap exactly when they contain a common cluster.
pub overlaps_iff :
    (a b : ClusterRun)
    → IsRun a
    → IsRun b
    → (overlaps a b ≡ true)
      ↔ ((c : ℕ) × (contains_cluster a c ≡ true) × (contains_cluster b c ≡ true))
unfolding overlaps contains_cluster
overlaps_iff a b va vb = (
  λ h. (
    max a.start_cluster b.start_cluster,
    ground (arith, end_cluster_lem a va, end_cluster_lem b vb),
    ground (arith, end_cluster_lem a va, end_cluster_lem b vb),
  ),
  λ (c, ha, hb). ground arith,
)

pub can_merge-cases :
    (a b : ClusterRun)
    → IsRun a
    → IsRun b
    → can_merge a b ≡ true
    → (a.start_cluster + a.cluster_count ≡ b.start_cluster)
      ⊎ (b.start_cluster + b.cluster_count ≡ a.start_cluster)
unfolding can_merge add64
can_merge-cases a b va vb h = ground (arith, end_cluster_lem a va, end_cluster_lem b vb)

-- Merging gives a run of the two lengths together, that starts at the earlier start.
pub merge_lem :
    (a b m : ClusterRun)
    → IsRun a
    → IsRun b
    → merge a b ≡ some m
    → IsRun m
      × (m.cluster_count ≡ a.cluster_count + b.cluster_count)
      × (m.start_cluster ≡ min a.start_cluster b.start_cluster)
unfolding merge add64 sub64
merge_lem a b m va vb h =
    ground (arith, can_merge-cases a b va vb, end_cluster_lem a va, end_cluster_lem b vb)

-- The merged run holds each cluster as often as the two runs together do.
pub covers-merge :
    (a b m : ClusterRun) (c : ℕ)
    → IsRun a
    → IsRun b
    → merge a b ≡ some m
    → covers m c ≡ covers a c + covers b c
unfolding merge
covers-merge a b m c va vb h = ground (arith, merge_lem a b m va vb h, can_merge-cases a b va vb)
