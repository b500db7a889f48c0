-- ===== src/Galleon/Allocator/Allocate.antt =====
-- `allocate_clusters` and `extend_allocation` on a consistent allocator.
use prisma_os.Base.{
  ℕ, zero, suc, ◌+◌, ◌-◌, ◌≤◌, ◌<◌, ◌≡◌, ◌^◌, refl, sym, ◌∙◌, ◌⊎◌, inl, inr, List, [], ◌∷◌,
  if◌then◌else◌, arith, Bool, true, false, ◌&&◌, ltb, Bool-cases, some, Option-cases, subst,
}
use prisma_os.Base.Words.{add64, add64_lem}
use prisma_os.Galleon.Error.{insufficient_space}
use prisma_os.Galleon.Run.{ClusterRun, run, end_cluster, IsRun, covers}
use prisma_os.Galleon.Run.Laws.{end_cluster_lem}
use prisma_os.Galleon.RunList.{All, covers_all}
use prisma_os.Galleon.Scan.{free_at}
use prisma_os.Galleon.Scan.FirstFit.{FreeWindow, NoWindow, Found}
use prisma_os.Galleon.Volume.{Ide, Outcome, done, fail, ◌>>=◌}
use prisma_os.Galleon.Bitmap.{find_free_clusters, is_cluster_free}
use prisma_os.Galleon.Bitmap.Loading.{find_free_clusters_lem, is_cluster_free_lem}
use prisma_os.Galleon.Allocator.{
  ClusterAllocator, lookup, or_new, last_run, take_run, allocate_found, allocate_clusters,
  all_free_from, extend_allocation,
}
use prisma_os.Galleon.Allocator.Counting.{end_inside}
use prisma_os.Galleon.Allocator.Ownership.{IsConsistent, covers_files-lookup, lookup-IsRunList}
use prisma_os.Galleon.Allocator.Take.{Ends, Taken, take_run_lem, on_volume-done}

-- A run of `n` clusters was taken for the file, or the operation fails for want of space, with the
-- state unchanged and no `n` free clusters in a row.
abbrev pub Allocates :
    {Disk : Type 0}
    → ClusterAllocator Disk
    → List ℕ
    → ℕ
    → ℕ
    → Outcome (ClusterAllocator Disk) ClusterRun
    → Type 0
Allocates {Disk} a bitmap file n o =
    ((r : ClusterRun) × (b : ClusterAllocator Disk) × (marked : List ℕ) × Found bitmap n
        a.volume.bitmap.total_clusters r
      × Ends o b r
      × Taken a b bitmap marked file r)
    ⊎ ((o ≡ fail a insufficient_space) × NoWindow bitmap n a.volume.bitmap.total_clusters)

last_run-IsRun :
    (rs : List ClusterRun) (last : ClusterRun) → All IsRun rs → last_run rs ≡ some last → IsRun last
unfolding last_run
last_run-IsRun [] last vs e = cc
last_run-IsRun (r ∷ rs) last vs e = elim (Option-cases (last_run rs)) [
  | inl missing ↦ let same : r ≡ last = ground arith in subst IsRun same vs.0
  | inr (s, e') ↦ last_run-IsRun rs last vs.1 (ground arith)
]

last_run-covers :
    (rs : List ClusterRun) (last : ClusterRun) (c : ℕ)
    → last_run rs ≡ some last
    → covers last c ≤ covers_all rs c
unfolding last_run
last_run-covers [] last c e = cc
last_run-covers (r ∷ rs) last c e = elim (Option-cases (last_run rs)) [
  | inl missing ↦
      let same : r ≡ last = ground arith in
      subst (λ s. covers s c ≤ covers r c + covers_all rs c) same (omega arith)
  | inr (s, e') ↦ omega (arith, last_run-covers rs last c (ground arith))
]

module _ {Disk : Type 0} (device : Ide Disk) (a : ClusterAllocator Disk) (bitmap : List ℕ)
    (file n : ℕ) (valid : IsConsistent a bitmap) (positive : 1 ≤ n) where
  -- Allocating at least one cluster on a consistent allocator either takes a run that was free, of the wanted length, for
  -- the file and keeps the allocator consistent, also when the flush fails; or there was no such
  -- run, and nothing changes.
  pub allocate_clusters_lem : Allocates a bitmap file n (allocate_clusters device file n a)
  unfolding allocate_clusters allocate_found
  allocate_clusters_lem =
      elim (find_free_clusters_lem device a.volume bitmap valid.loaded n a.strategy positive) [
        | inr (e, missing) ↦ inr (ground arith, missing)
        | inl (r, e, found) ↦
            let proper : IsRun r = record {
              nonempty = omega (arith, found.sized);
              fits = omega (arith, found.within, valid.small);
            } in
            let (b, marked, ends, taken) =
              take_run_lem device a bitmap file r valid proper found.within found.free in
            inl (
              r,
              b,
              marked,
              found,
              subst (λ o. Ends o b r)
                  (sym (
                    on_volume-done device (find_free_clusters device n a.strategy)
                      (allocate_found device file) a a.volume (some r) e))
                  ends,
              taken,
            )
      ]

  all_free_from_lem :
      (rounds c : ℕ)
      → (free : Bool) × (all_free_from device rounds c a ≡ done a free)
        × (free ≡ true
            → FreeWindow bitmap c rounds
              × ((rounds ≡ 0) ⊎ (c + rounds ≤ a.volume.bitmap.total_clusters)))
  unfolding all_free_from
  all_free_from_lem zero c = (true, refl, λ e. (λ d h k. absurd (omega arith), inl refl))
  all_free_from_lem (suc rounds) c =
      let next = λ (free : Bool).
        if free then all_free_from device rounds (c + 1) else (λ b. done b false) in
      let here =
        on_volume-done device (is_cluster_free device c) next a a.volume _
          (is_cluster_free_lem device a.volume bitmap valid.loaded c) in
      elim (Bool-cases (ltb c a.volume.bitmap.total_clusters && free_at bitmap c)) [
        | inr used ↦ (false, here ∙ rw used refl, λ e. cc)
        | inl free ↦
            let (rest, e, means) = all_free_from_lem rounds (c + 1) in
            (
              rest,
              here ∙ rw free e,
              λ t. let m = means t in (λ d h k. ground (arith, m.0 d), inr (ground (arith, m.1))),
            )
      ]

  -- The cluster behind the last run of the file is the one that the source computes, and the volume
  -- reaches up to it.
  behind-last :
      (last : ClusterRun)
      → last_run (or_new (lookup file a.allocated_runs)).runs ≡ some last
      → (add64 (end_cluster last) 1 ≡ last.start_cluster + last.cluster_count)
        × (last.start_cluster + last.cluster_count ≤ a.volume.bitmap.total_clusters)
  unfolding add64
  behind-last last e =
      let lists = lookup-IsRunList file a.allocated_runs valid.lists in
      let proper =
        last_run-IsRun (or_new (lookup file a.allocated_runs)).runs last lists.proper e in
      let ends = end_inside last a.volume.bitmap.total_clusters proper λ c h. omega (
        arith,
        last_run-covers (or_new (lookup file a.allocated_runs)).runs last c e,
        covers_files-lookup file a.allocated_runs c,
        valid.inside c h,
      ) in
      (omega (arith, end_cluster_lem last proper, proper.nonempty, proper.fits), ends)

  extend_behind :
      (next : ℕ)
      → next ≤ a.volume.bitmap.total_clusters
      → a.volume.bitmap.total_clusters + n < 2 ^ 64
      → Allocates a bitmap file n (
          (all_free_from device (add64 next n - next) next >>= λ can_extend.
          if can_extend then take_run device file (run next n) else allocate_clusters device file n)
            a)
  extend_behind next below small =
      let (free, e, means) = all_free_from_lem (add64 next n - next) next in
      let rounds : add64 next n - next ≡ n = omega (arith, add64_lem next n (omega arith)) in
      elim (Bool-cases free) [
        | inr used ↦ rw (e, ◌>>=◌, used) allocate_clusters_lem
        | inl all ↦
            let m = means all in
            let inside : next + n ≤ a.volume.bitmap.total_clusters = omega (arith, m.1, rounds) in
            let (b, marked, ends, taken) =
              take_run_lem device a bitmap file (run next n) valid
                (record { nonempty = positive; fits = omega (arith, inside, valid.small) }) inside
                (λ d h k. m.0 d h (omega (arith, rounds))) in
            rw (e, ◌>>=◌, all)
              (inl (
                run next n,
                b,
                marked,
                record {
                  sized = refl;
                  within = inside;
                  free = λ d h k. m.0 d h (omega (arith, rounds));
                },
                ends,
                taken,
              ))
      ]

  -- Extending a file's allocation gives the same guarantee as allocating anew: the file gains a run
  -- of `n` clusters that were free, behind its last run or elsewhere, or there was no such run. The
  -- volume and the run together stay below `2 ^ 64` clusters.
  pub extend_allocation_lem :
      a.volume.bitmap.total_clusters + n < 2 ^ 64
      → Allocates a bitmap file n (extend_allocation device file n a)
  unfolding extend_allocation
  extend_allocation_lem small =
      elim (Option-cases (last_run (or_new (lookup file a.allocated_runs)).runs)) [
        | inl e ↦ rw (e, extend_allocation) allocate_clusters_lem
        | inr (last, e) ↦
            let (next, inside) = behind-last last e in
            rw (e, extend_allocation)
              (extend_behind (add64 (end_cluster last) 1) (omega (arith, next, inside)) small)
      ]
