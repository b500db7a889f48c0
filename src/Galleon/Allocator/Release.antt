-- ===== src/Galleon/Allocator/Release.antt =====
-- Freeing: `deallocate_all_clusters` and `deallocate_clusters`.
use prisma_os.Base.{
  ℕ, ◌+◌, ◌≤◌, ◌<◌, ◌≡◌, ◌^◌, refl, ap, inl, inr, List, [], ◌∷◌, ◌==◌, if◌then◌else◌, arith, true,
  some, Option-cases, subst,
}
use prisma_os.Galleon.Run.{ClusterRun, IsRun}
use prisma_os.Galleon.RunList
use prisma_os.Galleon.RunList.{
  RunList, All, covers_all, sum_counts, IsRunList, remove_run, remove_first,
}
use prisma_os.Galleon.Scan.{free_at}
use prisma_os.Galleon.Volume.{Ide, Volume, done, ◌>>◌}
use prisma_os.Galleon.Bitmap.{flush_bitmap}
use prisma_os.Galleon.Bitmap.Marking.{Loaded, Frame, Frame-refl, Frame-trans, mark_run_free_lem}
use prisma_os.Galleon.Allocator.{
  ClusterAllocator, lookup, remove, or_new, on_volume, set_runs, mark_all_free,
  deallocate_all_clusters,
}
use prisma_os.Galleon.Allocator.Counting.{end_inside}
use prisma_os.Galleon.Allocator.Ownership.{
  IsConsistent, covers_files, covers_files-lookup, lookup-IsRunList, remove-AllLists,
}
use prisma_os.Galleon.Allocator.Take.{Ends, flush_bitmap_lem, Loaded-same}

-- All clusters of the runs become free, and the others stay as they were.
abbrev FreesAll :
    {Disk : Type 0} → Volume Disk → List ℕ → List ClusterRun → Volume Disk → List ℕ → Type 0
FreesAll v bitmap rs w marked =
    Loaded w marked
    × Frame v w
    × ((d : ℕ) → free_at marked d ≡ (if covers_all rs d == 0 then free_at bitmap d else true))

module _ {Disk : Type 0} (device : Ide Disk) where
  mark_all_free_lem :
      (rs : List ClusterRun) (a : ClusterAllocator Disk) (bitmap : List ℕ)
      → Loaded a.volume bitmap
      → a.volume.bitmap.total_clusters < 2 ^ 64
      → All IsRun rs
      → ((c : ℕ) → a.volume.bitmap.total_clusters ≤ c → covers_all rs c ≡ 0)
      → (w : Volume Disk) × (marked : List ℕ) × (mark_all_free device rs a
          ≡ done (record a { volume = w }) tt)
        × FreesAll a.volume bitmap rs w marked
  unfolding mark_all_free
  mark_all_free_lem [] a bitmap l small vs inside =
      (a.volume, bitmap, refl, (l, Frame-refl a.volume, λ d. refl))
  mark_all_free_lem (r ∷ rs) a bitmap l small vs inside =
      let within =
        end_inside r a.volume.bitmap.total_clusters vs.0 (λ c h. omega (arith, inside c h)) in
      let (v, marked, e, lv, fv, bits) =
        mark_run_free_lem device a.volume bitmap r l within small in
      let (w, marked', e', (lw, fw, bits')) =
        mark_all_free_lem rs (record a { volume = v }) marked lv
          (omega (arith, fv.same_total, small)) vs.1
          (λ c h. omega (arith, inside c (omega (arith, fv.same_total)))) in
      (w, marked', rw (e, ◌>>◌) e', (lw, Frame-trans fv fw, λ d. ground (arith, bits' d, bits d)))

  pub flush_end :
      (a : ClusterAllocator Disk) (w : Volume Disk)
      → Ends (flush_bitmap device a.volume) w tt
      → Ends (on_volume device (flush_bitmap device) a) (record a { volume = w }) tt
  flush_end a w (inl e) = inl (ground arith)
  flush_end a w (inr (err, e)) = inr (err, ground arith)

-- The clusters of the file are free again, the file has no runs, and nothing else changed.
pub record Released {Disk : Type 0} (a b : ClusterAllocator Disk) (bitmap marked : List ℕ)
    (file : ℕ) : Type 0 where
  pub consistent : IsConsistent b marked
  pub bits :
      (d : ℕ)
      → free_at marked d ≡ (
          if covers_all (or_new (lookup file a.allocated_runs)).runs d == 0
          then free_at bitmap d
          else true)
  pub owns :
      (c : ℕ)
      → covers_files a.allocated_runs c
        ≡ covers_all (or_new (lookup file a.allocated_runs)).runs c
          + covers_files b.allocated_runs c

module _ {Disk : Type 0} (device : Ide Disk) (a : ClusterAllocator Disk) (bitmap : List ℕ)
    (file : ℕ) (valid : IsConsistent a bitmap) where
  release :
      (l : RunList)
      → lookup file a.allocated_runs ≡ some l
      → (b : ClusterAllocator Disk) × (marked : List ℕ) × Ends
          ((set_runs device (remove file a.allocated_runs)
              >> mark_all_free device l.runs
              >> on_volume device (flush_bitmap device))
            a)
          b
          tt
        × Released a b bitmap marked file
  release l e =
      let a' = record a { allocated_runs = remove file a.allocated_runs } in
      let same = ap or_new e in
      let split = λ (c : ℕ).
        subst
          (λ o.
            covers_files a.allocated_runs c
            ≡ covers_all o.runs c + covers_files a'.allocated_runs c)
          same (covers_files-lookup file a.allocated_runs c) in
      let lv = subst IsRunList same (lookup-IsRunList file a.allocated_runs valid.lists) in
      let (v, marked, done_all, (loaded, frame, bits)) =
        mark_all_free_lem device l.runs a' bitmap valid.loaded valid.small lv.proper
          (λ c h. omega (arith, split c, valid.inside c h)) in
      let (w, ends, same_cache, same_total) = flush_bitmap_lem device v in
      (
        record a' { volume = w },
        marked,
        rw (done_all, ◌>>◌) (flush_end device (record a' { volume = v }) w ends),
        record {
          consistent = record {
            loaded = Loaded-same v w marked same_cache same_total loaded;
            small = omega (arith, same_total, frame.same_total, valid.small);
            lists = remove-AllLists file a.allocated_runs valid.lists;
            owned = λ c. ground (arith, valid.owned c, split c, bits c);
            inside = λ c h.
                omega
                  (arith, split c, valid.inside c (omega (arith, same_total, frame.same_total)));
          };
          bits = λ d. rw same (bits d);
          owns = λ c. rw same (split c);
        },
      )

  -- Dropping a file on a consistent allocator frees exactly its clusters and takes its runs away,
  -- and keeps the allocator consistent, also when the flush at the end fails.
  pub deallocate_all_clusters_lem :
      (b : ClusterAllocator Disk) × (marked : List ℕ) × Ends
        (deallocate_all_clusters device file a)
        b
        tt
      × Released a b bitmap marked file
  unfolding deallocate_all_clusters RunList.new
  deallocate_all_clusters_lem = elim (Option-cases (lookup file a.allocated_runs)) [
    | inr (l, e) ↦ rw (e, deallocate_all_clusters) (release l e)
    | inl e ↦
        let same = ap or_new e in
        (
          a,
          bitmap,
          inl (rw (e, deallocate_all_clusters)),
          record {
            consistent = valid;
            bits = λ d. rw same refl;
            owns = λ c. rw same (omega arith);
          },
        )
  ]
