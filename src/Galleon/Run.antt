-- ===== src/Galleon/Run.antt =====
-- `ClusterRun` of crates/galleon2/src/allocation.rs: a contiguous range of clusters. Arithmetic is on
-- 64-bit words and wraps, as in a release build.
pub mod Laws
use prisma_os.Base.{
  ℕ, ◌+◌, ◌≤◌, ◌<◌, ◌^◌, min, max, Bool, not, ◌&&◌, ◌||◌, Option, none, some, ltb, leb, ◌==◌,
  if◌then◌else◌,
}
use prisma_os.Base.Words.{add64, sub64}

pub record ClusterRun : Type 0 where
  pub start_cluster : ℕ
  pub cluster_count : ℕ

abbrev pub run : ℕ → ℕ → ClusterRun
run start count = record { start_cluster = start; cluster_count = count }

unfoldable pub end_cluster : ClusterRun → ℕ
end_cluster r = sub64 (add64 r.start_cluster r.cluster_count) 1

unfoldable pub contains_cluster : ClusterRun → ℕ → Bool
contains_cluster r cluster = leb r.start_cluster cluster && leb cluster (end_cluster r)

unfoldable pub overlaps : ClusterRun → ClusterRun → Bool
overlaps a b = not (ltb (end_cluster a) b.start_cluster || ltb (end_cluster b) a.start_cluster)

unfoldable pub can_merge : ClusterRun → ClusterRun → Bool
can_merge a b =
    add64 (end_cluster a) 1 == b.start_cluster || add64 (end_cluster b) 1 == a.start_cluster

unfoldable pub merge : ClusterRun → ClusterRun → Option ClusterRun
merge a b =
    let start = min a.start_cluster b.start_cluster in
    let end = max (end_cluster a) (end_cluster b) in
    if can_merge a b then some (run start (add64 (sub64 end start) 1)) else none

-- A run that is not empty and whose end, and the cluster behind it, are words.
pub record IsRun (r : ClusterRun) : Type 0 where
  pub nonempty : 1 ≤ r.cluster_count
  pub fits : r.start_cluster + r.cluster_count < 2 ^ 64

-- How often a run holds a cluster: once or not at all.
abbrev pub covers : ClusterRun → ℕ → ℕ
covers r c = if leb r.start_cluster c && ltb c (r.start_cluster + r.cluster_count) then 1 else 0
