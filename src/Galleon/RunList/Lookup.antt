-- ===== src/Galleon/RunList/Lookup.antt =====
-- `find_cluster` reads the list of a file's clusters in the order of its runs; `remove_run`.
use prisma_os.Base.{
  ℕ, zero, suc, ◌+◌, ◌-◌, ◌≤◌, ◌<◌, ◌^◌, ◌≡◌, refl, inl, inr, ap, true, List, [], ◌∷◌, ◌++◌, some,
  ltb, if◌then◌else◌, arith, Bool-cases, Option-cases, length, get_elem?, length-append, ◌∙◌,
  ltb→lt, ltb→ge, le→ltb, lt→ltb, le→leb,
}
use prisma_os.Base.Words.{add64_lem, sub64_lem}
use prisma_os.Galleon.Run.{ClusterRun, IsRun, covers}
use prisma_os.Galleon.RunList.{
  RunList, find_from, find_cluster, same_run, remove_first, remove_run, All, covers_all, sum_counts,
  IsRunList,
}

-- The clusters `start`, `start + 1`, … of a run.
abbrev pub clusters_from : ℕ → ℕ → List ℕ
clusters_from start zero = []
clusters_from start (suc n) = start ∷ clusters_from (start + 1) n

abbrev pub clusters : List ClusterRun → List ℕ
clusters [] = []
clusters (r ∷ rs) = clusters_from r.start_cluster r.cluster_count ++ clusters rs

get_elem?-clusters_from :
    (start n : ℕ) (ys : List ℕ) (i : ℕ)
    → get_elem? (clusters_from start n ++ ys) i
      ≡ (if ltb i n then some (start + i) else get_elem? ys (i - n))
get_elem?-clusters_from start zero ys i = ground arith
get_elem?-clusters_from start (suc n) ys zero = ground arith
get_elem?-clusters_from start (suc n) ys (suc i) =
    ground (arith, get_elem?-clusters_from (start + 1) n ys i)

find_from_lem :
    (rs : List ClusterRun) (v vcn : ℕ)
    → All IsRun rs
    → vcn + sum_counts rs < 2 ^ 64
    → vcn ≤ v
    → v < 2 ^ 64
    → find_from rs v vcn ≡ get_elem? (clusters rs) (v - vcn)
unfolding find_from
find_from_lem [] v vcn vs h k l = refl
find_from_lem (r ∷ rs) v vcn vs h k l =
    let room : vcn + r.cluster_count < 2 ^ 64 = omega arith in
    elim (Bool-cases (ltb v (vcn + r.cluster_count))) [
      | inl e ↦
          let inside = ltb→lt _ _ e in
          rw (
            get_elem?-clusters_from,
            add64_lem vcn r.cluster_count room,
            e,
            le→leb vcn v k,
            lt→ltb (v - vcn) r.cluster_count (omega arith),
            sub64_lem v vcn k l,
            add64_lem r.start_cluster (v - vcn) (omega (arith, vs.0.fits)),
          )
      | inr e ↦
          let beyond = ltb→ge _ _ e in
          rw
            (
              get_elem?-clusters_from,
              add64_lem vcn r.cluster_count room,
              e,
              le→leb vcn v k,
              le→ltb (v - vcn) r.cluster_count (omega arith),
            )
            (find_from_lem rs v (vcn + r.cluster_count) vs.1 (omega arith) (omega arith) l
              ∙ ap (get_elem? (clusters rs)) (omega arith))
    ]

-- `find_cluster` is indexing into the concatenation of the runs: it finds the cluster of every
-- virtual cluster below the total, and nothing from the total on.
pub find_cluster_lem :
    (l : RunList) (v : ℕ)
    → IsRunList l
    → l.total_clusters < 2 ^ 64
    → v < 2 ^ 64
    → find_cluster l v ≡ get_elem? (clusters l.runs) v
unfolding find_cluster
find_cluster_lem l v w h k =
    find_from_lem l.runs v 0 w.proper (omega (arith, w.counted)) (omega arith) k
    ∙ ap (get_elem? (clusters l.runs)) (omega arith)

pub length-clusters : (rs : List ClusterRun) → length (clusters rs) ≡ sum_counts rs
length-clusters [] = refl
length-clusters (r ∷ rs) = omega (
  arith,
  length-append (clusters_from r.start_cluster r.cluster_count) (clusters rs),
  length-clusters_from r.start_cluster r.cluster_count,
  length-clusters rs,
)
  where
    length-clusters_from : (s n : ℕ) → length (clusters_from s n) ≡ n
    length-clusters_from s zero = refl
    length-clusters_from s (suc n) = ap suc (length-clusters_from (s + 1) n)

same_run→≡ : (r s : ClusterRun) → same_run r s ≡ true → r ≡ s
unfolding same_run
same_run→≡ r s h = ground arith

remove_first_lem :
    (r : ClusterRun) (rs rest : List ClusterRun)
    → remove_first r rs ≡ some rest
    → All IsRun rs
    → All IsRun rest
      × ((c : ℕ) → covers_all rs c ≡ covers r c + covers_all rest c)
      × (sum_counts rs ≡ r.cluster_count + sum_counts rest)
unfolding remove_first
remove_first_lem r [] rest e vs = cc
remove_first_lem r (s ∷ rs) rest e vs = elim (Bool-cases (same_run s r)) [
  | inl hit ↦
      let found : rs ≡ rest = ground arith in
      let same = same_run→≡ s r hit in rw (← found, ← same) (vs.1, λ c. refl, refl)
  | inr miss ↦ elim (Option-cases (remove_first r rs)) [
    | inl gone ↦ absurd (ground arith)
    | inr (rs', e') ↦
        let found : s ∷ rs' ≡ rest = ground arith in
        let ih = remove_first_lem r rs rs' e' vs.1 in
        rw (← found) ((vs.0, ih.0), λ c. omega (arith, ih.1 c), omega (arith, ih.2))
  ]
]

-- Removing a run that the list has takes away exactly its clusters, and keeps the list counted; a
-- run that it has not leaves the list as it was.
pub remove_run_lem :
    (l : RunList) (r : ClusterRun)
    → IsRunList l
    → l.total_clusters < 2 ^ 64
    → IsRunList (remove_run l r).0
      × ((c : ℕ)
          → covers_all l.runs c
            ≡ (if (remove_run l r).1 then covers r c else 0) + covers_all (remove_run l r).0.runs c)
unfolding remove_run
remove_run_lem l r w h = elim (Option-cases (remove_first r l.runs)) [
  | inl e ↦ rw (e, remove_run) (w, λ c. omega arith)
  | inr (rest, e) ↦
      let facts = remove_first_lem r l.runs rest e w.proper in
      rw (e, remove_run)
        (
          record {
            proper = facts.0;
            counted = omega (
              arith,
              w.counted,
              facts.2,
              sub64_lem l.total_clusters r.cluster_count (omega (arith, w.counted, facts.2)) h,
            );
          },
          λ c. facts.1 c,
        )
]
