-- ===== src/Galleon/Scan.antt =====
-- The scans of the cluster bitmap in crates/galleon2/src/allocation.rs. A bit that is clear marks a
-- free cluster.
pub mod FirstFit
pub mod BestFit
use prisma_os.Base.{
  ℕ, zero, suc, ◌+◌, ◌-◌, ◌*◌, ◌/◌, ◌%◌, ◌^◌, ◌≤◌, ◌<◌, min, ◌≡◌, Bool, true, false, ◌&&◌, ◌||◌,
  List, [], ◌++◌, Option, none, some, ltb, leb, if◌then◌else◌, length, get_or, set, bit_or, bit_and,
}
use prisma_os.Base.Bits.{bit_clear}
use prisma_os.Galleon.Error.{FilesystemError, FilesystemResult, ok, err}
use prisma_os.Galleon.Run.{ClusterRun, run}
use prisma_os.Galleon.Volume.{ClusterBitmap}

-- `(bitmap[cluster / 8] & (1 << cluster % 8)) == 0`
abbrev pub free_at : List ℕ → ℕ → Bool
free_at bitmap cluster = bit_clear (get_or bitmap (cluster / 8) 0) (cluster % 8)

-- The state of the scan: the start and the length of the free clusters just before `cluster`.
abbrev pub start_or : Option ℕ → ℕ → ℕ
start_or none cluster = cluster
start_or (some start) cluster = start

abbrev pub next_count : Option ℕ → ℕ → ℕ
next_count none count = 1
next_count (some start) count = count + 1

-- The loop of `find_first_fit` over the `rounds` clusters from `cluster` on.
unfoldable pub first_fit_from : List ℕ → ℕ → ℕ → ℕ → Option ℕ → ℕ → Option ClusterRun
first_fit_from bitmap count zero cluster current_start current_count = none
first_fit_from bitmap count (suc rounds) cluster current_start current_count =
    let start = start_or current_start cluster in
    let found = next_count current_start current_count in
    let longer = first_fit_from bitmap count rounds (cluster + 1) (some start) found in
    let reset = first_fit_from bitmap count rounds (cluster + 1) none 0 in
    if leb (length bitmap) (cluster / 8)
    then none
    else if free_at bitmap cluster
    then (if leb count found then some (run start count) else longer)
    else reset

unfoldable pub find_first_fit : ClusterBitmap → ℕ → FilesystemResult (Option ClusterRun)
find_first_fit b count = elim b.cached_bitmap [
  | none ↦ err FilesystemError.invalid_parameter
  | some bitmap ↦ ok (first_fit_from bitmap count b.total_clusters 0 none 0)
]

-- The run that ends before `cluster` becomes the best one if it is long enough and shorter.
abbrev pub better : Option ClusterRun → ℕ → Bool
better none current_count = true
better (some best) current_count = ltb current_count best.cluster_count

unfoldable pub close_run : ℕ → Option ℕ → ℕ → Option ClusterRun → Option ClusterRun
close_run count none current_count best_run = best_run
close_run count (some start) current_count best_run =
    if leb count current_count
    then (if better best_run current_count then some (run start current_count) else best_run)
    else best_run

-- The loop of `find_best_fit`, and the check of the final run behind it.
unfoldable pub best_fit_from :
    List ℕ → ℕ → ℕ → ℕ → Option ℕ → ℕ → Option ClusterRun → Option ClusterRun
best_fit_from bitmap count zero cluster current_start current_count best_run =
    close_run count current_start current_count best_run
best_fit_from bitmap count (suc rounds) cluster current_start current_count best_run =
    let start = start_or current_start cluster in
    let found = next_count current_start current_count in
    let longer = best_fit_from bitmap count rounds (cluster + 1) (some start) found best_run in
    let closed = close_run count current_start current_count best_run in
    let reset = best_fit_from bitmap count rounds (cluster + 1) none 0 closed in
    if leb (length bitmap) (cluster / 8)
    then closed
    else if free_at bitmap cluster
    then longer
    else reset

unfoldable pub find_best_fit : ClusterBitmap → ℕ → FilesystemResult (Option ClusterRun)
find_best_fit b count = elim b.cached_bitmap [
  | none ↦ err FilesystemError.invalid_parameter
  | some bitmap ↦ ok (elim (best_fit_from bitmap count b.total_clusters 0 none 0 none) [
    | none ↦ none
    | some best ↦ some (run best.start_cluster count)
  ])
]

unfoldable pub find_next_fit : ClusterBitmap → ℕ → FilesystemResult (Option ClusterRun)
unfolding find_first_fit
find_next_fit b count = find_first_fit b count

-- The loop of `get_free_cluster_count`.
unfoldable pub count_free_from : List ℕ → ℕ → ℕ → ℕ
count_free_from bitmap zero cluster = 0
count_free_from bitmap (suc rounds) cluster =
    (if ltb (cluster / 8) (length bitmap) && free_at bitmap cluster then 1 else 0)
    + count_free_from bitmap rounds (cluster + 1)
