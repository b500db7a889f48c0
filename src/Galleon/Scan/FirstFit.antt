-- ===== src/Galleon/Scan/FirstFit.antt =====
-- The first-fit scan finds the first window of free clusters, if there is one.
use prisma_os.Base.{
  ℕ, zero, suc, ◌+◌, ◌-◌, ◌*◌, ◌/◌, ◌≤◌, ◌<◌, ◌≡◌, refl, inl, inr, true, false, List, Option, none,
  some, leb, length, arith, Bool-cases, leb→le, leb→gt, lt→leb,
}
use prisma_os.Galleon.Run.{ClusterRun, run}
use prisma_os.Galleon.Scan.{free_at, start_or, next_count, first_fit_from}

-- All of the `n` clusters from `start` on are free.
abbrev pub FreeWindow : List ℕ → ℕ → ℕ → Type 0
FreeWindow bitmap start n = (c : ℕ) → start ≤ c → c < start + n → free_at bitmap c ≡ true

-- No `n` free clusters in a row lie below `limit`.
abbrev pub NoWindow : List ℕ → ℕ → ℕ → Type 0
NoWindow bitmap n limit = ¬ ((start : ℕ) × FreeWindow bitmap start n × (start + n ≤ limit))

-- The state of the scan: `count` free clusters from the start up to here.
abbrev pub Tracks : Option ℕ → ℕ → ℕ → Type 0
Tracks none count cluster = count ≡ 0
Tracks (some start) count cluster = (start + count ≡ cluster) × (1 ≤ count)

pub start-next :
    (s : Option ℕ) (n cluster : ℕ)
    → Tracks s n cluster
    → (start_or s cluster + next_count s n ≡ cluster + 1)
      × (start_or s cluster ≡ cluster - n)
      × (next_count s n ≡ n + 1)
start-next none n cluster t = omega arith
start-next (some start) n cluster t = omega arith

pub window_grows :
    (bitmap : List ℕ) (s : Option ℕ) (n cluster : ℕ)
    → Tracks s n cluster
    → FreeWindow bitmap (cluster - n) n
    → free_at bitmap cluster ≡ true
    → FreeWindow bitmap (start_or s cluster) (next_count s n)
window_grows bitmap s n cluster t w free c h k =
    let (ends, starts, grows) = start-next s n cluster t in
    elim (Bool-cases (leb cluster c)) [
      | inl at ↦ let here : c ≡ cluster = omega (arith, leb→le _ _ at) in rw here free
      | inr below ↦ w c (omega arith) (omega (arith, leb→gt _ _ below))
    ]

-- What a returned run is: of the wanted length, free, and within the clusters scanned.
pub record Found (bitmap : List ℕ) (count limit : ℕ) (r : ClusterRun) : Type 0 where
  pub sized : r.cluster_count ≡ count
  pub within : r.start_cluster + r.cluster_count ≤ limit
  pub free : FreeWindow bitmap r.start_cluster r.cluster_count

module _ (bitmap : List ℕ) (count : ℕ) where
  first_fit_from-Found :
      (rounds cluster : ℕ) (s : Option ℕ) (n : ℕ) (r : ClusterRun)
      → Tracks s n cluster
      → n ≤ cluster
      → n < count
      → FreeWindow bitmap (cluster - n) n
      → first_fit_from bitmap count rounds cluster s n ≡ some r
      → Found bitmap count (cluster + rounds) r
  unfolding first_fit_from
  first_fit_from-Found zero cluster s n r t b small w e = cc
  first_fit_from-Found (suc rounds) cluster s n r t b small w e =
      let (ends, starts, grows) = start-next s n cluster t in
      elim (Bool-cases (leb (length bitmap) (cluster / 8))) [
        | inl out ↦ absurd (ground arith)
        | inr inside ↦ elim (Bool-cases (free_at bitmap cluster)) [
          | inr used ↦
              let ih =
                first_fit_from-Found rounds (cluster + 1) none 0 r refl (omega arith) (omega arith)
                  (λ c h k. absurd (omega arith)) (ground arith) in
              record { sized = ih.sized; within = omega (arith, ih.within); free = ih.free }
          | inl free ↦
              let wider = window_grows bitmap s n cluster t w free in
              elim (Bool-cases (leb count (next_count s n))) [
                | inl enough ↦
                    let full = leb→le _ _ enough in
                    let found : run (start_or s cluster) count ≡ r = ground arith in
                    rw (← found) (record {
                      sized = refl;
                      within = omega arith;
                      free = λ c h k. wider c h (omega arith);
                    })
                | inr short ↦
                    let ih =
                      first_fit_from-Found rounds (cluster + 1) (some (start_or s cluster))
                        (next_count s n) r (omega arith) (omega arith) (leb→gt _ _ short)
                        (λ c h k. wider c (omega arith) (omega arith)) (ground arith) in
                    record { sized = ih.sized; within = omega (arith, ih.within); free = ih.free }
              ]
        ]
      ]

  -- A window that the scan has not passed is found, or one before it.
  first_fit_from_complete :
      (rounds cluster : ℕ) (s : Option ℕ) (n a : ℕ)
      → Tracks s n cluster
      → n ≤ cluster
      → n < count
      → cluster + rounds ≤ 8 * length bitmap
      → FreeWindow bitmap a count
      → cluster ≤ a + n
      → a + count ≤ cluster + rounds
      → (r : ClusterRun) × (first_fit_from bitmap count rounds cluster s n ≡ some r)
        × (r.start_cluster ≤ a)
  unfolding first_fit_from
  first_fit_from_complete zero cluster s n a t b small room w h k = absurd (omega arith)
  first_fit_from_complete (suc rounds) cluster s n a t b small room w h k =
      let (ends, starts, grows) = start-next s n cluster t in
      let inside = lt→leb (length bitmap) (cluster / 8) (omega arith) in
      elim (Bool-cases (free_at bitmap cluster)) [
        | inl free ↦ elim (Bool-cases (leb count (next_count s n))) [
          | inl enough ↦ (run (start_or s cluster) count, rw (inside, free, enough), omega arith)
          | inr short ↦
              rw (inside, free, short)
                (first_fit_from_complete rounds (cluster + 1) (some (start_or s cluster))
                  (next_count s n) a (omega arith) (omega arith) (leb→gt _ _ short) (omega arith) w
                  (omega arith) (omega arith))
        ]
        | inr used ↦
            let passed : cluster < a = not_inside cluster a n h small used w in
            rw (inside, used)
              (first_fit_from_complete rounds (cluster + 1) none 0 a refl (omega arith)
                (omega arith) (omega arith) w (omega arith) (omega arith))
      ]
    where
      not_inside :
          (cluster a n : ℕ)
          → cluster ≤ a + n
          → n < count
          → free_at bitmap cluster ≡ false
          → FreeWindow bitmap a count
          → cluster < a
      not_inside cluster a n h small used w = elim (Bool-cases (leb a cluster)) [
        | inl below ↦ let free = w cluster (leb→le _ _ below) (omega arith) in absurd (ground arith)
        | inr above ↦ leb→gt _ _ above
      ]

  -- A run that first fit returns is free, has the wanted length and lies in the volume.
  pub first_fit-Found :
      (total : ℕ) (r : ClusterRun)
      → 1 ≤ count
      → first_fit_from bitmap count total 0 none 0 ≡ some r
      → Found bitmap count total r
  first_fit-Found total r h e =
      let f =
        first_fit_from-Found total 0 none 0 r refl (omega arith) h (λ c p q. absurd (omega arith))
          e in
      record { sized = f.sized; within = omega (arith, f.within); free = f.free }

  -- If some window of the wanted length is free, first fit returns a run that starts no later.
  pub first_fit_complete :
      (total a : ℕ)
      → 1 ≤ count
      → total ≤ 8 * length bitmap
      → FreeWindow bitmap a count
      → a + count ≤ total
      → (r : ClusterRun) × (first_fit_from bitmap count total 0 none 0 ≡ some r)
        × (r.start_cluster ≤ a)
  first_fit_complete total a h room w k =
      first_fit_from_complete total 0 none 0 a refl (omega arith) h (omega arith) w (omega arith)
        (omega arith)
