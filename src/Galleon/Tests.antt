-- ===== src/Galleon/Tests.antt =====
-- Tests of the Galleon model, and its theorems at concrete inputs.
use prisma_os.Base.{
  ℕ, zero, suc, ◌+◌, ◌≤◌, ◌<◌, ◌≡◌, refl, List, [], ◌∷◌, get_or, get_elem?, if◌then◌else◌, arith,
  true, false, some, none, ◌↔◌, replicate, ◌*◌, leb, ltb, ◌&&◌,
}
use prisma_os.Base.Words.{add64, sub64}
use prisma_os.Galleon.Run.{run, IsRun, covers, merge, can_merge, contains_cluster, end_cluster}
use prisma_os.Galleon.Run.Laws.{contains_cluster_iff}
use prisma_os.Galleon.RunList.{
  RunList, IsRunList, add_run, remove_run, find_cluster, merge_from, merge_adjacent, sort_and_merge,
  sort_by_start, insert_by_start, same_run, remove_first,
}
use prisma_os.Galleon.RunList.Order.{Separated, add_run-Separated}
use prisma_os.Galleon.RunList.Lookup.{clusters, find_cluster_lem}
use prisma_os.Galleon.Scan.{free_at, first_fit_from, find_first_fit}
use prisma_os.Galleon.Volume.{Ide, bytes, Volume, done}
use prisma_os.Galleon.Bitmap.{first_fit, flush_bitmap, mark_run_used, find_free_clusters}
use prisma_os.Galleon.Bitmap.Marking.{Loaded}
use prisma_os.Galleon.Allocator.{
  ClusterAllocator, lookup, insert, take_run, track, allocate_clusters, deallocate_clusters,
  deallocate_all_clusters,
}
use prisma_os.Galleon.Allocator.Ownership.{IsConsistent, covers_files}
use prisma_os.Galleon.Allocator.Take.{Ends}
use prisma_os.Galleon.Allocator.Allocate.{Allocates, allocate_clusters_lem}
use prisma_os.Galleon.Allocator.Release.{Released, deallocate_all_clusters_lem}
use prisma_os.Galleon.Allocator.Partial.{deallocate_clusters_lem, deallocate_clusters_untracked}

-- A device whose sectors are zero and whose writes are counted.
abbrev counting : Ide ℕ
counting = record {
  read_sectors = λ disk drive n lba. bytes (replicate (n * 512) 0);
  write_sectors = λ disk drive n lba buffer. (disk + 1, none);
}

-- Sixteen clusters, of which file 7 has the first two, as one run.
abbrev two_used : List ℕ
two_used = 3 ∷ 0 ∷ []

abbrev volume : Volume ℕ
volume = record {
  bitmap = record {
    drive = 0;
    bitmap_start_sector = 1;
    bitmap_size_sectors = 1;
    total_clusters = 16;
    clusters_per_sector = 4096;
    cached_bitmap = some two_used;
    dirty = false;
  };
  disk = 0;
}

abbrev file_runs : RunList
file_runs = record { runs = run 0 2 ∷ []; total_clusters = 2 }

abbrev sample : ClusterAllocator ℕ
sample = record { volume = volume; strategy = first_fit; allocated_runs = (7, file_runs) ∷ [] }

two_used-bytes : (i : ℕ) → get_or two_used i 0 < 256
two_used-bytes zero = omega arith
two_used-bytes (suc zero) = omega arith
two_used-bytes (suc (suc i)) = omega arith

volume-Loaded : Loaded volume two_used
volume-Loaded = record { cached = refl; in_bytes = two_used-bytes; room = omega arith }

pair-IsRun : IsRun (run 0 2)
pair-IsRun = record { nonempty = omega arith; fits = omega arith }

file_runs-IsRunList : IsRunList file_runs
file_runs-IsRunList = record { proper = (pair-IsRun, tt); counted = refl }

sample-owned :
    (c : ℕ) → covers_files sample.allocated_runs c + (if free_at two_used c then 1 else 0) ≤ 1
sample-owned zero = omega arith
sample-owned (suc zero) = omega arith
sample-owned (suc (suc c)) = ground arith

sample-IsConsistent : IsConsistent sample two_used
sample-IsConsistent = record {
  loaded = volume-Loaded;
  small = omega arith;
  lists = (file_runs-IsRunList, tt);
  owned = sample-owned;
  inside = λ c h. ground arith;
}

-- Three clusters behind the two that are used.
allocate_three :
    allocate_clusters counting 7 3 sample
    ≡ done
        (record sample {
          volume = record volume {
            bitmap = record volume.bitmap { cached_bitmap = some (31 ∷ 0 ∷ []) };
            disk = 1;
          };
          allocated_runs = (7, record { runs = run 0 5 ∷ []; total_clusters = 5 }) ∷ [];
        })
        (run 2 3)
unfolding allocate_clusters find_free_clusters find_first_fit first_fit_from take_run mark_run_used
    flush_bitmap track add_run sort_and_merge sort_by_start insert_by_start merge_adjacent
    merge_from merge can_merge end_cluster add64 sub64 lookup insert
allocate_three = refl

allocate_clusters_example : Allocates sample two_used 7 3 (allocate_clusters counting 7 3 sample)
allocate_clusters_example =
    allocate_clusters_lem counting sample two_used 7 3 sample-IsConsistent (omega arith)

deallocate_all_clusters_example :
    (b : ClusterAllocator ℕ) × (marked : List ℕ) × Ends
      (deallocate_all_clusters counting 7 sample)
      b
      tt
    × Released sample b two_used marked 7
deallocate_all_clusters_example =
    deallocate_all_clusters_lem counting sample two_used 7 sample-IsConsistent

deallocate_clusters_example :
    (b : ClusterAllocator ℕ) × (marked : List ℕ) × Ends
      (deallocate_clusters counting 7 (run 0 2) sample)
      b
      tt
    × IsConsistent b marked
    × ((c : ℕ) → free_at marked c ≡ (if leb 0 c && ltb c (0 + 2) then true else free_at two_used c))
    × ((c : ℕ)
        → covers_files sample.allocated_runs c
          ≡ covers (run 0 2) c + covers_files b.allocated_runs c)
unfolding lookup remove_run remove_first same_run
deallocate_clusters_example =
    deallocate_clusters_lem counting sample two_used 7 file_runs (run 0 2) sample-IsConsistent refl
      (omega arith) refl

-- The second cluster alone: it is part of the file's run, which is not in the list as it stands.
deallocate_clusters_untracked_example :
    (b : ClusterAllocator ℕ) × (marked : List ℕ) × Ends
      (deallocate_clusters counting 7 (run 1 1) sample)
      b
      tt
    × Loaded b.volume marked
    × (free_at marked 1 ≡ true)
    × (1 ≤ covers_files b.allocated_runs 1)
    × ¬ IsConsistent b marked
unfolding lookup remove_run remove_first same_run
deallocate_clusters_untracked_example =
    deallocate_clusters_untracked counting sample two_used 7 file_runs (run 1 1) sample-IsConsistent
      refl (omega arith) 1 refl refl refl

contains_cluster_iff_example : (contains_cluster (run 0 2) 1 ≡ true) ↔ ((0 ≤ 1) × (1 < 2))
contains_cluster_iff_example = contains_cluster_iff (run 0 2) 1 pair-IsRun

next-IsRun : IsRun (run 2 3)
next-IsRun = record { nonempty = omega arith; fits = omega arith }

add_run-Separated_example : Separated (add_run file_runs (run 2 3)).runs
add_run-Separated_example = add_run-Separated file_runs (run 2 3) file_runs-IsRunList next-IsRun

find_cluster_example : find_cluster file_runs 1 ≡ get_elem? (clusters file_runs.runs) 1
find_cluster_example = find_cluster_lem file_runs 1 file_runs-IsRunList (omega arith) (omega arith)
