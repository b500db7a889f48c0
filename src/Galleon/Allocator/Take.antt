-- ===== src/Galleon/Allocator/Take.antt =====
-- `take_run`: marking a free run, giving it to a file and flushing keeps the allocator consistent.
use prisma_os.Base.{
  ℕ, ◌+◌, ◌≤◌, ◌≡◌, ◌^◌, ◌%◌, refl, sym, ◌∙◌, ◌⊎◌, inl, inr, List, ◌∷◌, if◌then◌else◌, arith, false,
  ◌&&◌, ltb, leb, Bool-cases, ◌≢◌, Option-cases, ne→==, ==_refl,
}
use prisma_os.Galleon.Error.{FilesystemError, from_ide}
use prisma_os.Galleon.Run.{ClusterRun, covers, IsRun}
use prisma_os.Galleon.RunList.{RunList, add_run, covers_all}
use prisma_os.Galleon.RunList.Merging.{add_run-IsRunList, covers_all-add_run}
use prisma_os.Galleon.Scan.{free_at}
use prisma_os.Galleon.Scan.FirstFit.{FreeWindow}
use prisma_os.Galleon.Volume.{Ide, Volume, Outcome, done, fail, ◌>>=◌, ◌>>◌}
use prisma_os.Galleon.Bitmap.{flush_bitmap}
use prisma_os.Galleon.Bitmap.Marking.{Loaded, mark_run_used_lem}
use prisma_os.Galleon.Allocator.{
  ClusterAllocator, lookup, insert, or_new, on_volume, track, take_run,
}
use prisma_os.Galleon.Allocator.Counting.{sum_counts-le}
use prisma_os.Galleon.Allocator.Ownership.{
  covers_files, IsConsistent, covers_files-lookup, covers_files-insert, lookup-insert,
  lookup-IsRunList, insert-AllLists,
}

-- The operation ends in `w`, with the value `a` or with an error.
abbrev pub Ends : {S A : Type 0} → Outcome S A → S → A → Type 0
Ends o w a = (o ≡ done w a) ⊎ ((e : FilesystemError) × (o ≡ fail w e))

-- A flush leaves the cached bitmap as it is, also when the write fails.
pub flush_bitmap_lem :
    {Disk : Type 0} (device : Ide Disk) (v : Volume Disk)
    → (w : Volume Disk) × Ends (flush_bitmap device v) w tt
      × (w.bitmap.cached_bitmap ≡ v.bitmap.cached_bitmap)
      × (w.bitmap.total_clusters ≡ v.bitmap.total_clusters)
unfolding flush_bitmap
flush_bitmap_lem device v = elim (Bool-cases v.bitmap.dirty) [
  | inr clean ↦ (v, inl (ground arith), refl, refl)
  | inl dirty ↦ elim (Option-cases v.bitmap.cached_bitmap) [
    | inl e ↦ (v, inl (ground arith), refl, refl)
    | inr (bitmap, e) ↦
        let write =
          device.write_sectors v.disk v.bitmap.drive (v.bitmap.bitmap_size_sectors % 2 ^ 8)
            (v.bitmap.bitmap_start_sector % 2 ^ 32) bitmap in
        elim (Option-cases write.1) [
          | inl fine ↦ (
            record v { bitmap = record v.bitmap { dirty = false }; disk = write.0 },
            inl (ground arith),
            refl,
            refl,
          )
          | inr (x, bad) ↦ (record v { disk = write.0 }, inr (from_ide x, ground arith), refl, refl)
        ]
  ]
]

pub Loaded-same :
    {Disk : Type 0} (v w : Volume Disk) (bitmap : List ℕ)
    → w.bitmap.cached_bitmap ≡ v.bitmap.cached_bitmap
    → w.bitmap.total_clusters ≡ v.bitmap.total_clusters
    → Loaded v bitmap
    → Loaded w bitmap
Loaded-same v w bitmap e f l = record {
  cached = e ∙ l.cached;
  in_bytes = l.in_bytes;
  room = omega (arith, l.room);
}

-- After taking a run the bitmap has exactly its clusters marked, the file owns exactly the run in
-- addition, and every other file is as it was.
pub record Taken {Disk : Type 0} (a b : ClusterAllocator Disk) (bitmap marked : List ℕ) (file : ℕ)
    (r : ClusterRun) : Type 0 where
  pub consistent : IsConsistent b marked
  pub bits :
      (d : ℕ)
      → free_at marked d ≡ (
          if leb r.start_cluster d && ltb d (r.start_cluster + r.cluster_count)
          then false
          else free_at bitmap d)
  pub owns :
      (c : ℕ)
      → covers_all (or_new (lookup file b.allocated_runs)).runs c
        ≡ covers_all (or_new (lookup file a.allocated_runs)).runs c + covers r c
  pub others : (k : ℕ) → k ≢ file → lookup k b.allocated_runs ≡ lookup k a.allocated_runs

module _ {Disk : Type 0} (device : Ide Disk) (a : ClusterAllocator Disk) (bitmap : List ℕ)
    (file : ℕ) (r : ClusterRun) (valid : IsConsistent a bitmap) (proper : IsRun r)
    (within : r.start_cluster + r.cluster_count ≤ a.volume.bitmap.total_clusters)
    (free : FreeWindow bitmap r.start_cluster r.cluster_count) where
  -- A cluster of the run is owned by nobody yet.
  not_owned : (c : ℕ) → covers_files a.allocated_runs c + covers r c ≤ 1
  not_owned c = ground (arith, valid.owned c, free c)

  private_room :
      (or_new (lookup file a.allocated_runs)).total_clusters + r.cluster_count
      ≤ a.volume.bitmap.total_clusters
  private_room =
      let l = or_new (lookup file a.allocated_runs) in
      let w = lookup-IsRunList file a.allocated_runs valid.lists in
      omega (
        arith,
        w.counted,
        sum_counts-le a.volume.bitmap.total_clusters (r ∷ l.runs) (proper, w.proper)
            (λ c h. ground (arith, covers_files-lookup file a.allocated_runs c, valid.inside c h))
            (λ c. omega (arith, not_owned c, covers_files-lookup file a.allocated_runs c)),
      )

  -- The runs of the file after the run was added.
  given : RunList
  given = add_run (or_new (lookup file a.allocated_runs)) r

  module _ (v : Volume Disk) (marked : List ℕ) (loaded : Loaded v marked)
      (same_total : v.bitmap.total_clusters ≡ a.volume.bitmap.total_clusters)
      (bits : (d : ℕ)
        → free_at marked d ≡ (
            if leb r.start_cluster d && ltb d (r.start_cluster + r.cluster_count)
            then false
            else free_at bitmap d)) where
    taken : ClusterAllocator Disk
    taken = record a { volume = v; allocated_runs = insert file given a.allocated_runs }

    taken-covers :
        (c : ℕ) → covers_files taken.allocated_runs c ≡ covers_files a.allocated_runs c + covers r c
    unfolding taken given
    taken-covers c =
        let l = or_new (lookup file a.allocated_runs) in
        omega (
          arith,
          covers_files-insert file given a.allocated_runs c,
          covers_files-lookup file a.allocated_runs c,
          covers_all-add_run l r c (lookup-IsRunList file a.allocated_runs valid.lists) proper,
        )

    taken-Taken : Taken a taken bitmap marked file r
    unfolding taken given
    taken-Taken =
        let l = or_new (lookup file a.allocated_runs) in
        let lv = lookup-IsRunList file a.allocated_runs valid.lists in
        record {
          consistent = record {
            loaded = loaded;
            small = omega (arith, valid.small);
            lists =
                insert-AllLists file given a.allocated_runs
                  (add_run-IsRunList l r lv proper (omega (arith, private_room, valid.small)))
                  valid.lists;
            owned = λ c. ground (arith, taken-covers c, not_owned c, valid.owned c, bits c);
            inside = λ c h. ground (arith, taken-covers c, valid.inside c (omega arith), within);
          };
          bits = bits;
          owns = λ c.
              rw (lookup-insert file file given a.allocated_runs, ==_refl file)
                (covers_all-add_run l r c lv proper);
          others = λ k h.
              rw (lookup-insert file k given a.allocated_runs, ne→== file k (λ e. h (sym e)));
        }

module _ {Disk : Type 0} (device : Ide Disk) where
  -- An operation of the volume that ends, followed by one that goes on from every end.
  pub on_volume-done :
      {A B : Type 0} (op : Volume Disk → Outcome (Volume Disk) A)
      (k : A → ClusterAllocator Disk → Outcome (ClusterAllocator Disk) B)
      (a : ClusterAllocator Disk) (w : Volume Disk) (x : A)
      → op a.volume ≡ done w x
      → (on_volume device op >>= k) a ≡ k x (record a { volume = w })
  on_volume-done op k a w x e = ground arith

  flush_last :
      {A : Type 0} (a : ClusterAllocator Disk) (w : Volume Disk) (x : A)
      → Ends (flush_bitmap device a.volume) w tt
      → Ends
          ((on_volume device (flush_bitmap device) >> λ b. done b x) a)
          (record a { volume = w })
          x
  flush_last a w x (inl e) = inl (ground arith)
  flush_last a w x (inr (err, e)) = inr (err, ground arith)

  -- Giving a free run of the volume to a file takes exactly that run, whether or not the flush at
  -- the end succeeds.
  pub take_run_lem :
      (a : ClusterAllocator Disk) (bitmap : List ℕ) (file : ℕ) (r : ClusterRun)
      → IsConsistent a bitmap
      → IsRun r
      → r.start_cluster + r.cluster_count ≤ a.volume.bitmap.total_clusters
      → FreeWindow bitmap r.start_cluster r.cluster_count
      → (b : ClusterAllocator Disk) × (marked : List ℕ) × Ends (take_run device file r a) b r
        × Taken a b bitmap marked file r
  unfolding take_run track taken given
  take_run_lem a bitmap file r valid proper within free =
      let (v, marked, e, loaded, frame, bits) =
        mark_run_used_lem device a.volume bitmap r valid.loaded within valid.small in
      let (w, ends, same_cache, same_total) = flush_bitmap_lem device v in
      let l = given device a bitmap file r valid proper within free in
      let b = record a { volume = v; allocated_runs = insert file l a.allocated_runs } in
      (
        record b { volume = w },
        marked,
        rw (e, ◌>>◌) (flush_last b w r ends),
        taken-Taken device a bitmap file r valid proper within free w marked
            (Loaded-same v w marked same_cache same_total loaded) (same_total ∙ frame.same_total)
            bits,
      )
