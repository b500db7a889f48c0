-- ===== src/Galleon/Allocator.antt =====
-- `ClusterAllocator` of crates/galleon2/src/allocation.rs. The state holds the bitmap with the disk
-- behind it (Galleon/Volume); `BTreeMap` of the standard library is an association list.
pub mod Counting
pub mod Ownership
pub mod Take
pub mod Allocate
pub mod Release
pub mod Partial
use prisma_os.Base.{
  ℕ, zero, suc, ◌+◌, ◌-◌, ◌*◌, ◌^◌, ◌%◌, Bool, true, false, List, [], ◌∷◌, Option, none, some, ltb,
  ◌==◌, if◌then◌else◌, length,
}
use prisma_os.Base.Words.{add64, mul64}
use prisma_os.Galleon.Error.{FilesystemError, insufficient_space, from_ide}
use prisma_os.Galleon.Run.{ClusterRun, run, end_cluster}
use prisma_os.Galleon.RunList.{RunList, add_run, remove_run, cluster_size}
use prisma_os.Galleon.RunList
use prisma_os.Galleon.Volume.{
  Ide, Read, bytes, failed, ClusterBitmap, Volume, Outcome, done, fail, ◌>>=◌, ◌>>◌,
}
use prisma_os.Galleon.Bitmap.{
  AllocationStrategy, first_fit, is_cluster_free, find_free_clusters, mark_run_used, mark_run_free,
  flush_bitmap, get_free_cluster_count,
}

abbrev pub RunMap : Type 0
RunMap = List (ℕ × RunList)

unfoldable pub lookup : ℕ → RunMap → Option RunList
lookup k [] = none
lookup k ((j, l) ∷ m) = if j == k then some l else lookup k m

unfoldable pub insert : ℕ → RunList → RunMap → RunMap
insert k l [] = (k, l) ∷ []
insert k l ((j, l') ∷ m) = if j == k then (k, l) ∷ m else (j, l') ∷ insert k l m

unfoldable pub remove : ℕ → RunMap → RunMap
remove k [] = []
remove k ((j, l) ∷ m) = if j == k then m else (j, l) ∷ remove k m

pub record ClusterAllocator (Disk : Type 0) : Type 0 where
  pub volume : Volume Disk
  pub strategy : AllocationStrategy
  pub allocated_runs : RunMap

abbrev pub or_new : Option RunList → RunList
or_new none = RunList.new
or_new (some l) = l

-- The last run of a file, if it has any.
unfoldable pub last_run : List ClusterRun → Option ClusterRun
last_run [] = none
last_run (r ∷ rs) = elim (last_run rs) [ none ↦ some r | some s ↦ some s ]

module _ {Disk : Type 0} (device : Ide Disk) where
  abbrev pub Op : Type 0 → Type 0
  Op A = ClusterAllocator Disk → Outcome (ClusterAllocator Disk) A

  -- An operation of the bitmap, on the allocator's bitmap.
  abbrev pub on_volume : {A : Type 0} → (Volume Disk → Outcome (Volume Disk) A) → Op A
  on_volume op a = elim (op a.volume) [
    | done v x ↦ done (record a { volume = v }) x
    | fail v e ↦ fail (record a { volume = v }) e
  ]

  abbrev pub set_runs : RunMap → Op (Unit {0})
  set_runs m a = done (record a { allocated_runs = m }) tt

  -- `entry(file).or_insert_with(RunList::new).add_run(run)`
  unfoldable pub track : ℕ → ClusterRun → Op (Unit {0})
  track file r a =
      set_runs (insert file (add_run (or_new (lookup file a.allocated_runs)) r) a.allocated_runs) a

  unfoldable pub take_run : ℕ → ClusterRun → Op ClusterRun
  unfolding track
  take_run file r = do
    on_volume (mark_run_used device r)
    track file r
    on_volume (flush_bitmap device)
    λ a. done a r

  allocate_found : ℕ → Option ClusterRun → Op ClusterRun
  unfolding take_run
  allocate_found file none = λ a. fail a insufficient_space
  allocate_found file (some r) = take_run file r

  unfoldable pub allocate_clusters : ℕ → ℕ → Op ClusterRun
  unfolding allocate_found
  allocate_clusters file cluster_count a =
      (on_volume (find_free_clusters device cluster_count a.strategy) >>= allocate_found file) a

  -- A list that is left with no run is dropped.
  store_rest : ℕ → RunList → RunMap → RunMap
  store_rest file l m = elim l.runs [ [] ↦ remove file m | _ ∷ _ ↦ insert file l m ]

  unfoldable pub untrack : ℕ → ClusterRun → Op (Unit {0})
  unfolding store_rest
  untrack file r a = elim (lookup file a.allocated_runs) [
    | none ↦ done a tt
    | some l ↦ set_runs (store_rest file (remove_run l r).0 a.allocated_runs) a
  ]

  unfoldable pub deallocate_clusters : ℕ → ClusterRun → Op (Unit {0})
  unfolding untrack
  deallocate_clusters file r = do
    on_volume (mark_run_free device r)
    untrack file r
    on_volume (flush_bitmap device)

  unfoldable pub mark_all_free : List ClusterRun → Op (Unit {0})
  mark_all_free [] = λ a. done a tt
  mark_all_free (r ∷ rs) = on_volume (mark_run_free device r) >> mark_all_free rs

  unfoldable pub deallocate_all_clusters : ℕ → Op (Unit {0})
  unfolding mark_all_free
  deallocate_all_clusters file a = elim (lookup file a.allocated_runs) [
    | none ↦ done a tt
    | some l ↦
        (set_runs (remove file a.allocated_runs)
            >> mark_all_free l.runs
            >> on_volume (flush_bitmap device))
          a
  ]

  -- The loop of `extend_allocation` that tests `n` clusters and stops at the first used one.
  unfoldable pub all_free_from : ℕ → ℕ → Op Bool
  all_free_from zero cluster = λ a. done a true
  all_free_from (suc n) cluster = on_volume (is_cluster_free device cluster) >>= λ free.
      if free then all_free_from n (cluster + 1) else (λ a. done a false)

  unfoldable pub extend_allocation : ℕ → ℕ → Op ClusterRun
  unfolding all_free_from take_run
  extend_allocation file additional_clusters a =
      elim (last_run (or_new (lookup file a.allocated_runs)).runs) [
        | none ↦ allocate_clusters file additional_clusters a
        | some last ↦
            let next_cluster = add64 (end_cluster last) 1 in
            let rounds = add64 next_cluster additional_clusters - next_cluster in
            (all_free_from rounds next_cluster >>= λ can_extend.
            if can_extend
            then take_run file (run next_cluster additional_clusters)
            else allocate_clusters file additional_clusters)
              a
      ]

  unfoldable pub move_to : ℕ → List ClusterRun → Option ClusterRun → Op (Unit {0})
  unfolding mark_all_free
  move_to file old none = λ a. done a tt
  move_to file old (some new_run) = do
    on_volume (mark_run_used device new_run)
    mark_all_free old
    λ a. set_runs (insert file (add_run RunList.new new_run) a.allocated_runs) a
    on_volume (flush_bitmap device)

  unfoldable pub defragment_file : ℕ → Op (Unit {0})
  unfolding move_to
  defragment_file file a = elim (lookup file a.allocated_runs) [
    | none ↦ done a tt
    | some current ↦
        (on_volume (find_free_clusters device current.total_clusters first_fit)
            >>= move_to file current.runs)
          a
  ]

  unfoldable pub get_total_allocated : ℕ → ClusterAllocator Disk → ℕ
  get_total_allocated file a = (or_new (lookup file a.allocated_runs)).total_clusters

  unfoldable pub get_free_space : Op ℕ
  get_free_space =
      on_volume (get_free_cluster_count device) >>= λ n a. done a (mul64 n cluster_size)

  -- The bytes that a buffer of `size` bytes receives.
  unfoldable pub read_cluster : ℕ → ℕ → Op (List ℕ)
  read_cluster cluster size a =
      let v = a.volume in
      if ltb size cluster_size
      then fail a FilesystemError.invalid_parameter
      else (elim (device.read_sectors v.disk v.bitmap.drive 8 (mul64 cluster 8 % 2 ^ 32)) [
        | bytes chunk ↦ done a chunk
        | failed e ↦ fail a (from_ide e)
      ])

  unfoldable pub write_cluster : ℕ → List ℕ → Op (Unit {0})
  write_cluster cluster buffer a =
      let v = a.volume in
      let write = device.write_sectors v.disk v.bitmap.drive 8 (mul64 cluster 8 % 2 ^ 32) buffer in
      let after = record a { volume = record v { disk = write.0 } } in
      if ltb (length buffer) cluster_size
      then fail a FilesystemError.invalid_parameter
      else (elim write.1 [ none ↦ done after tt | some e ↦ fail after (from_ide e) ])
