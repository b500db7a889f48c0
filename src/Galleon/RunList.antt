-- ===== src/Galleon/RunList.antt =====
-- `RunList` of crates/galleon2/src/allocation.rs: the runs of a file that is not resident.
-- `sort_by_key` of the standard library is a stable sort.
pub mod Merging
pub mod Order
pub mod Lookup
pub mod Encoding
use prisma_os.Base.{
  ℕ, zero, suc, ◌+◌, ◌*◌, ◌-◌, ◌<◌, ◌^◌, ◌%◌, Bool, true, false, ◌&&◌, List, [], ◌∷◌, ◌++◌, Option,
  none, some, ltb, leb, ◌==◌, if◌then◌else◌, length, take, drop, ◌≡◌,
}
use prisma_os.Base.Words.{add64, sub64, mul64}
use prisma_os.Base.Bytes.{le_bytes, from_le_bytes}
use prisma_os.Galleon.Run.{ClusterRun, run, merge, IsRun, covers}
use prisma_os.Galleon.Error.{FilesystemError, FilesystemResult, ok, err}

abbrev pub cluster_size : ℕ
cluster_size = 4096

pub record RunList : Type 0 where
  pub runs : List ClusterRun
  pub total_clusters : ℕ

unfoldable pub new : RunList
new = record { runs = []; total_clusters = 0 }

-- `runs.sort_by_key(|r| r.start_cluster)`
unfoldable pub insert_by_start : ClusterRun → List ClusterRun → List ClusterRun
insert_by_start r [] = r ∷ []
insert_by_start r (s ∷ rs) =
    if leb r.start_cluster s.start_cluster then r ∷ s ∷ rs else s ∷ insert_by_start r rs

unfoldable pub sort_by_start : List ClusterRun → List ClusterRun
sort_by_start [] = []
sort_by_start (r ∷ rs) = insert_by_start r (sort_by_start rs)

-- The loop of `sort_and_merge`, where `last` is the last run of `merged`.
unfoldable pub merge_from : ClusterRun → List ClusterRun → List ClusterRun
merge_from last [] = last ∷ []
merge_from last (r ∷ rs) = elim (merge last r) [
  | some merged_run ↦ merge_from merged_run rs
  | none ↦ last ∷ merge_from r rs
]

unfoldable pub merge_adjacent : List ClusterRun → List ClusterRun
merge_adjacent [] = []
merge_adjacent (r ∷ rs) = merge_from r rs

unfoldable pub sort_and_merge : RunList → RunList
sort_and_merge l = record l { runs = merge_adjacent (sort_by_start l.runs) }

unfoldable pub add_run : RunList → ClusterRun → RunList
add_run l r =
    sort_and_merge (record l {
      runs = l.runs ++ r ∷ [];
      total_clusters = add64 l.total_clusters r.cluster_count;
    })

unfoldable pub same_run : ClusterRun → ClusterRun → Bool
same_run r s = r.start_cluster == s.start_cluster && r.cluster_count == s.cluster_count

-- `runs.iter().position(|r| *r == run)` and `runs.remove(pos)`: `none` if there is no such run.
unfoldable pub remove_first : ClusterRun → List ClusterRun → Option (List ClusterRun)
remove_first r [] = none
remove_first r (s ∷ rs) =
    let rest = remove_first r rs in
    if same_run s r then some rs else elim rest [ none ↦ none | some rs' ↦ some (s ∷ rs') ]

unfoldable pub remove_run : RunList → ClusterRun → RunList × Bool
remove_run l r = elim (remove_first r l.runs) [
  | some rs ↦ (record { runs = rs; total_clusters = sub64 l.total_clusters r.cluster_count }, true)
  | none ↦ (l, false)
]

-- The loop of `find_cluster` from virtual cluster `vcn` on.
unfoldable pub find_from : List ClusterRun → ℕ → ℕ → Option ℕ
find_from [] virtual_cluster vcn = none
find_from (r ∷ rs) virtual_cluster vcn =
    let rest = find_from rs virtual_cluster (add64 vcn r.cluster_count) in
    if leb vcn virtual_cluster && ltb virtual_cluster (add64 vcn r.cluster_count)
    then some (add64 r.start_cluster (sub64 virtual_cluster vcn))
    else rest

unfoldable pub find_cluster : RunList → ℕ → Option ℕ
find_cluster l virtual_cluster = find_from l.runs virtual_cluster 0

unfoldable pub get_total_size : RunList → ℕ
get_total_size l = mul64 l.total_clusters cluster_size

unfoldable pub serialize_runs : List ClusterRun → List ℕ
serialize_runs [] = []
serialize_runs (r ∷ rs) =
    le_bytes 8 r.start_cluster ++ (le_bytes 8 r.cluster_count ++ serialize_runs rs)

unfoldable pub serialize : RunList → List ℕ
serialize l = le_bytes 4 (length l.runs % 2 ^ 32) ++ serialize_runs l.runs

-- `data[offset..offset + n]`
abbrev slice : List ℕ → ℕ → ℕ → List ℕ
slice data_bytes offset n = take n (drop offset data_bytes)

-- The loop of `deserialize` for `n` more runs from run `i` on, and the sum of their counts.
unfoldable pub deserialize_runs : List ℕ → ℕ → ℕ → ℕ → List ClusterRun × ℕ
deserialize_runs data_bytes zero i total = ([], total)
deserialize_runs data_bytes (suc n) i total =
    let offset = 4 + i * 16 in
    let start = from_le_bytes (slice data_bytes offset 8) in
    let count = from_le_bytes (slice data_bytes (offset + 8) 8) in
    let rest = deserialize_runs data_bytes n (i + 1) (add64 total count) in
    (run start count ∷ rest.0, rest.1)

unfoldable pub deserialize : List ℕ → FilesystemResult RunList
deserialize data_bytes =
    let run_count = from_le_bytes (slice data_bytes 0 4) in
    let body = deserialize_runs data_bytes run_count 0 0 in
    if ltb (length data_bytes) 4
    then err FilesystemError.invalid_parameter
    else if ltb (length data_bytes) (4 + run_count * 16)
    then err FilesystemError.invalid_parameter
    else ok (record { runs = body.0; total_clusters = body.1 })

abbrev pub All {ℓ} : {A : Type ℓ} → (A → Type 0) → List A → Type 0
All P [] = Unit
All P (x ∷ xs) = P x × All P xs

-- How often the runs of a list hold a cluster, and how many clusters they have together.
abbrev pub covers_all : List ClusterRun → ℕ → ℕ
covers_all [] c = 0
covers_all (r ∷ rs) c = covers r c + covers_all rs c

abbrev pub sum_counts : List ClusterRun → ℕ
sum_counts [] = 0
sum_counts (r ∷ rs) = r.cluster_count + sum_counts rs

-- Each run is a proper one, and the total is the sum of the counts.
pub record IsRunList (l : RunList) : Type 0 where
  pub proper : All IsRun l.runs
  pub counted : l.total_clusters ≡ sum_counts l.runs
