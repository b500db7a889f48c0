-- ===== src/Galleon/Allocator/Partial.antt =====
-- `deallocate_clusters`: freeing one run of a file. The run is looked for as it stands; a run that
-- was merged into another is not found, and its clusters are freed all the same.
use prisma_os.Base.{
  ℕ, ◌+◌, ◌≤◌, ◌<◌, ◌≡◌, ◌^◌, refl, ap, ◌∙◌, List, [], ◌∷◌, if◌then◌else◌, arith, true, false, ◌&&◌,
  ltb, leb, some, subst,
}
use prisma_os.Galleon.Run.{ClusterRun, covers}
use prisma_os.Galleon.RunList.{RunList, covers_all, IsRunList, remove_run}
use prisma_os.Galleon.RunList.Lookup.{remove_run_lem}
use prisma_os.Galleon.Scan.{free_at}
use prisma_os.Galleon.Volume.{Ide, Volume, ◌>>◌}
use prisma_os.Galleon.Bitmap.Marking.{Loaded, mark_run_free_lem}
use prisma_os.Galleon.Allocator.{
  RunMap, ClusterAllocator, lookup, insert, remove, or_new, store_rest, untrack,
  deallocate_clusters,
}
use prisma_os.Galleon.Allocator.Counting.{sum_counts-le}
use prisma_os.Galleon.Allocator.Ownership.{
  IsConsistent, AllLists, covers_files, covers_files-lookup, covers_files-insert, lookup-IsRunList,
  remove-AllLists, insert-AllLists,
}
use prisma_os.Galleon.Allocator.Take.{Ends, flush_bitmap_lem, Loaded-same}
use prisma_os.Galleon.Allocator.Release.{flush_end}

module _ {Disk : Type 0} (device : Ide Disk) where
  covers_files-store_rest :
      (file : ℕ) (l : RunList) (m : RunMap) (c : ℕ)
      → covers_files (store_rest device file l m) c
        ≡ covers_all l.runs c + covers_files (remove file m) c
  unfolding store_rest
  covers_files-store_rest file l m c = ground (arith, covers_files-insert file l m c)

  store_rest-AllLists :
      (file : ℕ) (l : RunList) (m : RunMap)
      → IsRunList l
      → AllLists m
      → AllLists (store_rest device file l m)
  unfolding store_rest
  store_rest-AllLists file l m v vs = go l.runs refl
    where
      go :
          (rs : List ClusterRun)
          → l.runs ≡ rs
          → AllLists (elim rs [ [] ↦ remove file m | _ ∷ _ ↦ insert file l m ])
      go [] e = remove-AllLists file m vs
      go (r ∷ rs) e = insert-AllLists file l m v vs

module _ {Disk : Type 0} (device : Ide Disk) (a : ClusterAllocator Disk) (bitmap : List ℕ)
    (file : ℕ) (l : RunList) (r : ClusterRun) (valid : IsConsistent a bitmap)
    (tracked : lookup file a.allocated_runs ≡ some l)
    (within : r.start_cluster + r.cluster_count ≤ a.volume.bitmap.total_clusters) where
  -- The clusters of the run become free, and the file's list loses the run if it has it.
  dropped :
      (w : Volume Disk) × (marked : List ℕ) × Ends
        (deallocate_clusters device file r a)
        (record a {
          volume = w;
          allocated_runs = store_rest device file (remove_run l r).0 a.allocated_runs;
        })
        tt
      × Loaded w marked
      × (w.bitmap.total_clusters ≡ a.volume.bitmap.total_clusters)
      × ((d : ℕ)
          → free_at marked d ≡ (
              if leb r.start_cluster d && ltb d (r.start_cluster + r.cluster_count)
              then true
              else free_at bitmap d))
  unfolding deallocate_clusters untrack
  dropped =
      let (v, marked, e, loaded, frame, bits) =
        mark_run_free_lem device a.volume bitmap r valid.loaded within valid.small in
      let (w, ends, same_cache, same_total) = flush_bitmap_lem device v in
      let rest = store_rest device file (remove_run l r).0 a.allocated_runs in
      (
        w,
        marked,
        rw (e, ◌>>◌, tracked, untrack)
            (flush_end device (record a { volume = v; allocated_runs = rest }) w ends),
        Loaded-same v w marked same_cache same_total loaded,
        same_total ∙ frame.same_total,
        bits,
      )

  list_valid : IsRunList l
  list_valid =
      subst IsRunList (ap or_new tracked) (lookup-IsRunList file a.allocated_runs valid.lists)

  covers_split :
      (c : ℕ)
      → covers_files a.allocated_runs c
        ≡ covers_all l.runs c + covers_files (remove file a.allocated_runs) c
  covers_split c =
      subst
        (λ o.
          covers_files a.allocated_runs c
          ≡ covers_all o.runs c + covers_files (remove file a.allocated_runs) c)
        (ap or_new tracked) (covers_files-lookup file a.allocated_runs c)

  total_small : l.total_clusters < 2 ^ 64
  total_small = omega (
    arith,
    valid.small,
    list_valid.counted,
    sum_counts-le a.volume.bitmap.total_clusters l.runs list_valid.proper
        (λ c h. omega (arith, covers_split c, valid.inside c h))
        (λ c. omega (arith, covers_split c, valid.owned c)),
  )

  -- On a consistent allocator, freeing a run inside the volume that the file has in its list, as it
  -- stands there, marks exactly its clusters free in the bitmap, takes exactly them from the clusters
  -- that files own, and keeps the allocator consistent, also when the flush fails.
  pub deallocate_clusters_lem :
      (remove_run l r).1 ≡ true
      → (b : ClusterAllocator Disk) × (marked : List ℕ) × Ends
          (deallocate_clusters device file r a)
          b
          tt
        × IsConsistent b marked
        × ((c : ℕ)
            → free_at marked c ≡ (
                if leb r.start_cluster c && ltb c (r.start_cluster + r.cluster_count)
                then true
                else free_at bitmap c))
        × ((c : ℕ) → covers_files a.allocated_runs c ≡ covers r c + covers_files b.allocated_runs c)
  deallocate_clusters_lem hit =
      let (w, marked, ends, loaded, same_total, bits) = dropped in
      let (rest_valid, rest_covers) = remove_run_lem l r list_valid total_small in
      let owns : (c : ℕ)
          → covers_files a.allocated_runs c
            ≡ covers r c
              + covers_files (store_rest device file (remove_run l r).0 a.allocated_runs) c =
        λ c. ground (
          arith,
          hit,
          rest_covers c,
          covers_split c,
          covers_files-store_rest device file (remove_run l r).0 a.allocated_runs c,
        ) in
      (
        record a {
          volume = w;
          allocated_runs = store_rest device file (remove_run l r).0 a.allocated_runs;
        },
        marked,
        ends,
        record {
          loaded = loaded;
          small = omega (arith, same_total, valid.small);
          lists =
              store_rest-AllLists device file (remove_run l r).0 a.allocated_runs rest_valid
                valid.lists;
          owned = λ c. ground (arith, owns c, bits c, valid.owned c);
          inside = λ c h. omega (arith, owns c, valid.inside c (omega (arith, same_total)));
        },
        bits,
        owns,
      )

  -- Freeing a run that the list does not have as it stands, such as one that was merged into its
  -- neighbour: a cluster of the run that the file owns is marked free and stays the file's. So the
  -- allocator is no longer consistent.
  pub deallocate_clusters_untracked :
      (c : ℕ)
      → (remove_run l r).1 ≡ false
      → covers r c ≡ 1
      → covers_all l.runs c ≡ 1
      → (b : ClusterAllocator Disk) × (marked : List ℕ) × Ends
          (deallocate_clusters device file r a)
          b
          tt
        × Loaded b.volume marked
        × (free_at marked c ≡ true)
        × (1 ≤ covers_files b.allocated_runs c)
        × ¬ IsConsistent b marked
  deallocate_clusters_untracked c miss in_run in_file =
      let (w, marked, ends, loaded, same_total, bits) = dropped in
      let (rest_valid, rest_covers) = remove_run_lem l r list_valid total_small in
      let b = record a {
        volume = w;
        allocated_runs = store_rest device file (remove_run l r).0 a.allocated_runs;
      } in
      let free : free_at marked c ≡ true = ground (arith, bits c) in
      let owned : 1 ≤ covers_files b.allocated_runs c = ground (
        arith,
        miss,
        rest_covers c,
        covers_split c,
        covers_files-store_rest device file (remove_run l r).0 a.allocated_runs c,
      ) in
      (b, marked, ends, loaded, free, owned, λ bad. ground (arith, bad.owned c))
