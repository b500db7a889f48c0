-- ===== src/Galleon/Bitmap.antt =====
-- `ClusterBitmap` of crates/galleon2/src/allocation.rs: the operations that load, change and write
-- the bitmap.
pub mod Marking
pub mod Loading
use prisma_os.Base.{
  ℕ, zero, suc, ◌+◌, ◌-◌, ◌*◌, ◌/◌, ◌%◌, ◌^◌, ◌≤◌, ◌<◌, min, ◌≡◌, Bool, true, false, ◌&&◌, ◌||◌,
  List, [], ◌++◌, Option, none, some, ltb, leb, if◌then◌else◌, length, get_or, set, bit_or, bit_and,
}
use prisma_os.Base.Bits.{bit_clear}
use prisma_os.Base.Words.{add64}
use prisma_os.Galleon.Error.{FilesystemError, FilesystemResult, ok, err, from_ide}
use prisma_os.Galleon.Run.{ClusterRun, run}
use prisma_os.Galleon.Scan.{free_at, find_first_fit, find_best_fit, find_next_fit, count_free_from}
use prisma_os.Galleon.Volume.{
  Ide, Read, bytes, failed, ClusterBitmap, Volume, Outcome, done, fail, ◌>>=◌, ◌>>◌,
}

pub data AllocationStrategy : Type 0 where
  first_fit best_fit next_fit : AllocationStrategy

abbrev pub returned : {Disk A : Type 0} → Volume Disk → FilesystemResult A → Outcome (Volume Disk) A
returned v (ok a) = done v a
returned v (err e) = fail v e

module _ {Disk : Type 0} (device : Ide Disk) where
  -- The loop of `load_bitmap`: chunks of two sectors, at most `fuel` of them.
  pub read_chunks : ℕ → Volume Disk → ℕ → List ℕ → FilesystemResult (List ℕ)
  read_chunks zero v sectors_read bitmap_data = ok bitmap_data
  read_chunks (suc fuel) v sectors_read bitmap_data =
      let sectors_to_read = min 2 (v.bitmap.bitmap_size_sectors - sectors_read) in
      let next = λ (chunk : List ℕ).
        read_chunks fuel v (sectors_read + sectors_to_read) (bitmap_data ++ chunk) in
      if ltb sectors_read v.bitmap.bitmap_size_sectors
      then (elim (device.read_sectors v.disk v.bitmap.drive (sectors_to_read % 2 ^ 8)
          (add64 v.bitmap.bitmap_start_sector sectors_read % 2 ^ 32)) [
            | bytes chunk ↦ next chunk
            | failed e ↦ err (from_ide e)
          ])
      else ok bitmap_data

  -- A bitmap that is cached already is kept.
  unfoldable pub load_bitmap : Volume Disk → Outcome (Volume Disk) (Unit {0})
  unfolding read_chunks
  load_bitmap v = elim v.bitmap.cached_bitmap [
    | some bitmap ↦ done v tt
    | none ↦ elim (read_chunks v.bitmap.bitmap_size_sectors v 0 []) [
      | err e ↦ fail v e
      | ok bitmap ↦
          done
            (record v { bitmap = record v.bitmap { cached_bitmap = some bitmap; dirty = false } })
            tt
    ]
  ]

  -- A failed write leaves the bitmap dirty.
  unfoldable pub flush_bitmap : Volume Disk → Outcome (Volume Disk) (Unit {0})
  flush_bitmap v =
      let b = v.bitmap in
      let write = λ (bitmap : List ℕ).
        device.write_sectors v.disk b.drive (b.bitmap_size_sectors % 2 ^ 8)
          (b.bitmap_start_sector % 2 ^ 32) bitmap in
      if b.dirty
      then (elim b.cached_bitmap [
        | none ↦ done v tt
        | some bitmap ↦ elim (write bitmap).1 [
          | none ↦
              done (record v { bitmap = record b { dirty = false }; disk = (write bitmap).0 }) tt
          | some e ↦ fail (record v { disk = (write bitmap).0 }) (from_ide e)
        ]
      ])
      else done v tt

  free_in_cache : ℕ → Volume Disk → Outcome (Volume Disk) Bool
  free_in_cache cluster v = elim v.bitmap.cached_bitmap [
    | none ↦ fail v FilesystemError.invalid_parameter
    | some bitmap ↦
        if ltb (cluster / 8) (length bitmap) then done v (free_at bitmap cluster) else done v false
  ]

  unfoldable pub is_cluster_free : ℕ → Volume Disk → Outcome (Volume Disk) Bool
  unfolding load_bitmap free_in_cache
  is_cluster_free cluster v =
      if leb v.bitmap.total_clusters cluster
      then done v false
      else (load_bitmap >> free_in_cache cluster) v

  -- `bitmap[cluster / 8] = change(bitmap[cluster / 8], cluster % 8)`
  change_in_cache : (ℕ → ℕ → ℕ) → ℕ → Volume Disk → Outcome (Volume Disk) (Unit {0})
  change_in_cache change cluster v = elim v.bitmap.cached_bitmap [
    | none ↦ fail v FilesystemError.invalid_parameter
    | some bitmap ↦
        let byte = get_or bitmap (cluster / 8) 0 in
        if ltb (cluster / 8) (length bitmap)
        then done
            (record v {
              bitmap = record v.bitmap {
                cached_bitmap = some (set bitmap (cluster / 8) (change byte (cluster % 8)));
                dirty = true;
              };
            })
            tt
        else fail v FilesystemError.invalid_parameter
  ]

  change_cluster : (ℕ → ℕ → ℕ) → ℕ → Volume Disk → Outcome (Volume Disk) (Unit {0})
  unfolding load_bitmap change_in_cache
  change_cluster change cluster v =
      if leb v.bitmap.total_clusters cluster
      then fail v FilesystemError.invalid_parameter
      else (load_bitmap >> change_in_cache change cluster) v

  unfoldable pub set_cluster_used : ℕ → Volume Disk → Outcome (Volume Disk) (Unit {0})
  unfolding change_cluster
  set_cluster_used cluster = change_cluster (λ byte bit. bit_or byte (2 ^ bit)) cluster

  unfoldable pub set_cluster_free : ℕ → Volume Disk → Outcome (Volume Disk) (Unit {0})
  unfolding change_cluster
  set_cluster_free cluster = change_cluster (λ byte bit. bit_and byte (255 - 2 ^ bit)) cluster

  choose : ℕ → AllocationStrategy → Volume Disk → Outcome (Volume Disk) (Option ClusterRun)
  choose count first_fit v = returned v (find_first_fit v.bitmap count)
  choose count best_fit v = returned v (find_best_fit v.bitmap count)
  choose count next_fit v = returned v (find_next_fit v.bitmap count)

  unfoldable pub find_free_clusters :
      ℕ → AllocationStrategy → Volume Disk → Outcome (Volume Disk) (Option ClusterRun)
  unfolding load_bitmap choose
  find_free_clusters count strategy = load_bitmap >> choose count strategy

  -- `for cluster in start..end`, with the `n` rounds that are left.
  for_clusters :
      (ℕ → Volume Disk → Outcome (Volume Disk) (Unit {0}))
      → ℕ
      → ℕ
      → Volume Disk
      → Outcome (Volume Disk) (Unit {0})
  for_clusters body zero cluster v = done v tt
  for_clusters body (suc n) cluster v = (body cluster >> for_clusters body n (cluster + 1)) v

  unfoldable pub mark_run_used : ClusterRun → Volume Disk → Outcome (Volume Disk) (Unit {0})
  unfolding for_clusters set_cluster_used
  mark_run_used r =
      for_clusters set_cluster_used (add64 r.start_cluster r.cluster_count - r.start_cluster)
        r.start_cluster

  unfoldable pub mark_run_free : ClusterRun → Volume Disk → Outcome (Volume Disk) (Unit {0})
  unfolding for_clusters set_cluster_free
  mark_run_free r =
      for_clusters set_cluster_free (add64 r.start_cluster r.cluster_count - r.start_cluster)
        r.start_cluster

  count_in_cache : Volume Disk → Outcome (Volume Disk) ℕ
  count_in_cache v = elim v.bitmap.cached_bitmap [
    | none ↦ fail v FilesystemError.invalid_parameter
    | some bitmap ↦ done v (count_free_from bitmap v.bitmap.total_clusters 0)
  ]

  unfoldable pub get_free_cluster_count : Volume Disk → Outcome (Volume Disk) ℕ
  unfolding load_bitmap count_in_cache
  get_free_cluster_count = load_bitmap >> count_in_cache
