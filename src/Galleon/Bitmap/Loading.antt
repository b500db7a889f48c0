-- ===== src/Galleon/Bitmap/Loading.antt =====
-- On a bitmap that is loaded the queries read it and change nothing; loading it from the disk gives
-- a bit for every cluster.
use prisma_os.Base.{
  ℕ, ◌+◌, ◌*◌, ◌/◌, ◌≤◌, ◌≡◌, ap, ◌∙◌, ◌⊎◌, inl, inr, List, arith, true, ◌&&◌, ltb, Bool-cases,
  some, none, Option, Option-cases, length, subst,
}
use prisma_os.Galleon.Run.{ClusterRun, run}
use prisma_os.Galleon.Scan.{
  free_at, first_fit_from, best_fit_from, find_first_fit, find_best_fit, find_next_fit,
}
use prisma_os.Galleon.Scan.FirstFit.{
  FreeWindow, NoWindow, Found, first_fit-Found, first_fit_complete,
}
use prisma_os.Galleon.Scan.BestFit.{best_fit-Found, best_fit_complete}
use prisma_os.Galleon.Volume.{Ide, Volume, done}
use prisma_os.Galleon.Bitmap.{
  load_bitmap, is_cluster_free, free_in_cache, find_free_clusters, choose, AllocationStrategy,
  first_fit, best_fit, next_fit,
}
use prisma_os.Galleon.Bitmap.Marking.{Loaded}

-- What a strategy chooses.
abbrev pick : List ℕ → ℕ → ℕ → AllocationStrategy → Option ClusterRun
pick bitmap total count first_fit = first_fit_from bitmap count total 0 none 0
pick bitmap total count best_fit = elim (best_fit_from bitmap count total 0 none 0 none) [
  | none ↦ none
  | some best ↦ some (run best.start_cluster count)
]
pick bitmap total count next_fit = first_fit_from bitmap count total 0 none 0

pick-Found :
    (bitmap : List ℕ) (total count : ℕ) (strategy : AllocationStrategy) (r : ClusterRun)
    → 1 ≤ count
    → pick bitmap total count strategy ≡ some r
    → Found bitmap count total r
pick-Found bitmap total count first_fit r h e = first_fit-Found bitmap count total r h e
pick-Found bitmap total count next_fit r h e = first_fit-Found bitmap count total r h e
pick-Found bitmap total count best_fit r h e =
    elim (Option-cases (best_fit_from bitmap count total 0 none 0 none)) [
      | inl missing ↦ absurd (ground arith)
      | inr (best, e') ↦
          let same : run best.start_cluster count ≡ r = ground arith in
          subst (Found bitmap count total) same (best_fit-Found bitmap count total best e')
    ]

pick_complete :
    (bitmap : List ℕ) (total count : ℕ) (strategy : AllocationStrategy) (a : ℕ)
    → 1 ≤ count
    → total ≤ 8 * length bitmap
    → pick bitmap total count strategy ≡ none
    → FreeWindow bitmap a count
    → a + count ≤ total
    → ⊥
pick_complete bitmap total count first_fit a h room e w k =
    let (r, e', _) = first_fit_complete bitmap count total a h room w k in ground arith
pick_complete bitmap total count next_fit a h room e w k =
    let (r, e', _) = first_fit_complete bitmap count total a h room w k in ground arith
pick_complete bitmap total count best_fit a h room e w k =
    best_fit_complete bitmap count total a h room w k
      (elim (Option-cases (best_fit_from bitmap count total 0 none 0 none)) [
        | inl missing ↦ missing
        | inr (best, e') ↦ absurd (ground arith)
      ])

module _ {Disk : Type 0} (device : Ide Disk) (v : Volume Disk) (bitmap : List ℕ)
    (l : Loaded v bitmap) where
  find_free_clusters-pick :
      (count : ℕ) (strategy : AllocationStrategy)
      → find_free_clusters device count strategy v
        ≡ done v (pick bitmap v.bitmap.total_clusters count strategy)
  unfolding find_free_clusters load_bitmap choose find_first_fit find_best_fit find_next_fit
  find_free_clusters-pick count first_fit = ground (arith, l.cached)
  find_free_clusters-pick count best_fit = ground (arith, l.cached)
  find_free_clusters-pick count next_fit = ground (arith, l.cached)

  -- The search changes nothing. It returns a free run of the wanted length inside the volume, or
  -- nothing, and then no such run exists.
  pub find_free_clusters_lem :
      (count : ℕ) (strategy : AllocationStrategy)
      → 1 ≤ count
      → ((r : ClusterRun) × (find_free_clusters device count strategy v ≡ done v (some r))
          × Found bitmap count v.bitmap.total_clusters r)
        ⊎ ((find_free_clusters device count strategy v ≡ done v none)
            × NoWindow bitmap count v.bitmap.total_clusters)
  find_free_clusters_lem count strategy h =
      let total = v.bitmap.total_clusters in
      elim (Option-cases (pick bitmap total count strategy)) [
        | inr (r, e) ↦ inl (
          r,
          find_free_clusters-pick count strategy ∙ ap (done v) e,
          pick-Found bitmap total count strategy r h e,
        )
        | inl e ↦ inr (
          find_free_clusters-pick count strategy ∙ ap (done v) e,
          λ (a, w, k). pick_complete bitmap total count strategy a h l.room e w k,
        )
      ]

  -- A cluster is reported free exactly if it lies in the volume and its bit is clear.
  pub is_cluster_free_lem :
      (c : ℕ)
      → is_cluster_free device c v ≡ done v (ltb c v.bitmap.total_clusters && free_at bitmap c)
  unfolding is_cluster_free load_bitmap free_in_cache
  is_cluster_free_lem c = elim (Bool-cases (ltb c v.bitmap.total_clusters)) [
    | inl below ↦
        let inside : ltb (c / 8) (length bitmap) ≡ true = ground (arith, l.room) in
        ground (arith, l.cached)
    | inr above ↦ ground arith
  ]
