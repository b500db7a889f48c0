-- ===== src/Galleon/Scan/BestFit.antt =====
-- The best-fit scan returns a free run that is long enough, if there is one.
use prisma_os.Base.{
  ℕ, zero, suc, ◌+◌, ◌-◌, ◌*◌, ◌/◌, ◌≤◌, ◌≡◌, refl, ◌⊎◌, inl, inr, true, false, List, Option, none,
  some, leb, length, arith, Bool-cases, leb→le, leb→gt, lt→leb, ◌≢◌, subst,
}
use prisma_os.Galleon.Run.{ClusterRun, run}
use prisma_os.Galleon.Scan.{free_at, start_or, next_count, better, close_run, best_fit_from}
use prisma_os.Galleon.Scan.FirstFit.{FreeWindow, Tracks, start-next, window_grows, Found}

-- A best run so far is free, long enough, and lies below `limit`.
record Candidate (bitmap : List ℕ) (count limit : ℕ) (r : ClusterRun) : Type 0 where
  enough : count ≤ r.cluster_count
  within : r.start_cluster + r.cluster_count ≤ limit
  free : FreeWindow bitmap r.start_cluster r.cluster_count

abbrev Candidates : List ℕ → ℕ → ℕ → Option ClusterRun → Type 0
Candidates bitmap count limit none = Unit
Candidates bitmap count limit (some r) = Candidate bitmap count limit r

Candidates-mono :
    (bitmap : List ℕ) (count l m : ℕ) (best : Option ClusterRun)
    → l ≤ m
    → Candidates bitmap count l best
    → Candidates bitmap count m best
Candidates-mono bitmap count l m none h c = tt
Candidates-mono bitmap count l m (some r) h c = record {
  enough = c.enough;
  within = omega (arith, c.within);
  free = c.free;
}

module _ (bitmap : List ℕ) (count : ℕ) where
  close_run-Candidates :
      (s : Option ℕ) (n cluster : ℕ) (best : Option ClusterRun)
      → Tracks s n cluster
      → FreeWindow bitmap (cluster - n) n
      → Candidates bitmap count cluster best
      → Candidates bitmap count cluster (close_run count s n best)
  unfolding close_run
  close_run-Candidates none n cluster best t w c = c
  close_run-Candidates (some start) n cluster best t w c = elim (Bool-cases (leb count n)) [
    | inr short ↦ rw short c
    | inl enough ↦ elim (Bool-cases (better best n)) [
      | inr worse ↦ rw (enough, worse) c
      | inl new_best ↦
          rw (enough, new_best)
            (record {
              enough = leb→le _ _ enough;
              within = omega arith;
              free = λ d h k. w d (omega arith) (omega arith);
            })
    ]
  ]

  best_fit_from-Candidates :
      (rounds cluster : ℕ) (s : Option ℕ) (n : ℕ) (best : Option ClusterRun)
      → Tracks s n cluster
      → n ≤ cluster
      → FreeWindow bitmap (cluster - n) n
      → Candidates bitmap count cluster best
      → Candidates bitmap count
          (cluster + rounds)
          (best_fit_from bitmap count rounds cluster s n best)
  unfolding best_fit_from
  best_fit_from-Candidates zero cluster s n best t b w c =
      Candidates-mono bitmap count cluster (cluster + 0) (close_run count s n best) (omega arith)
        (close_run-Candidates s n cluster best t w c)
  best_fit_from-Candidates (suc rounds) cluster s n best t b w c =
      let (ends, starts, grows) = start-next s n cluster t in
      let closed = close_run-Candidates s n cluster best t w c in
      let next : cluster + 1 + rounds ≡ cluster + suc rounds = omega arith in
      elim (Bool-cases (leb (length bitmap) (cluster / 8))) [
        | inl out ↦ rw out (
            Candidates-mono bitmap count cluster (cluster + suc rounds) (close_run count s n best)
              (omega arith) closed)
        | inr inside ↦ elim (Bool-cases (free_at bitmap cluster)) [
          | inl free ↦
              let wider = window_grows bitmap s n cluster t w free in
              rw (inside, free, ← next)
                (best_fit_from-Candidates rounds (cluster + 1) (some (start_or s cluster))
                  (next_count s n) best (omega arith) (omega arith)
                  (λ d h k. wider d (omega arith) (omega arith))
                  (Candidates-mono bitmap count cluster (cluster + 1) best (omega arith) c))
          | inr used ↦
              rw (inside, used, ← next)
                (best_fit_from-Candidates rounds (cluster + 1) none 0 (close_run count s n best)
                  refl (omega arith) (λ d h k. absurd (omega arith))
                  (Candidates-mono bitmap count cluster (cluster + 1) (close_run count s n best)
                    (omega arith) closed))
        ]
      ]

  -- A best run that is there stays there, or gives way to another.
  close_run-some :
      (s : Option ℕ) (n cluster : ℕ) (best : Option ClusterRun)
      → Tracks s n cluster
      → 1 ≤ count
      → (best ≢ none) ⊎ (count ≤ n)
      → close_run count s n best ≢ none
  unfolding close_run
  close_run-some none n cluster best t h d = ground arith
  close_run-some (some start) n cluster best t h d = ground arith

  best_fit_from_complete :
      (rounds cluster : ℕ) (s : Option ℕ) (n : ℕ) (best : Option ClusterRun) (a : ℕ)
      → Tracks s n cluster
      → n ≤ cluster
      → 1 ≤ count
      → cluster + rounds ≤ 8 * length bitmap
      → FreeWindow bitmap a count
      → ((best ≢ none) ⊎ (count ≤ n)) ⊎ (cluster ≤ a + n)
      → a + count ≤ cluster + rounds
      → best_fit_from bitmap count rounds cluster s n best ≢ none
  unfolding best_fit_from
  best_fit_from_complete zero cluster s n best a t b one room w h k =
      close_run-some s n cluster best t one (at_end h)
    where
      at_end : ((best ≢ none) ⊎ (count ≤ n)) ⊎ (cluster ≤ a + n) → (best ≢ none) ⊎ (count ≤ n)
      at_end (inl d) = d
      at_end (inr e) = inr (omega arith)
  best_fit_from_complete (suc rounds) cluster s n best a t b one room w h k =
      let (ends, starts, grows) = start-next s n cluster t in
      let inside = lt→leb (length bitmap) (cluster / 8) (omega arith) in
      elim (Bool-cases (free_at bitmap cluster)) [
        | inl free ↦
            rw (inside, free)
              (best_fit_from_complete rounds (cluster + 1) (some (start_or s cluster))
                (next_count s n) best a (omega arith) (omega arith) one (omega arith) w
                (longer s h grows) (omega arith))
        | inr used ↦
            rw (inside, used)
              (best_fit_from_complete rounds (cluster + 1) none 0 (close_run count s n best) a refl
                (omega arith) one (omega arith) w (closed used h (Bool-cases (leb count n)))
                (omega arith))
      ]
    where
      longer :
          (s : Option ℕ)
          → ((best ≢ none) ⊎ (count ≤ n)) ⊎ (cluster ≤ a + n)
          → next_count s n ≡ n + 1
          → ((best ≢ none) ⊎ (count ≤ next_count s n)) ⊎ (cluster + 1 ≤ a + next_count s n)
      longer s (inl (inl d)) g = inl (inl d)
      longer s (inl (inr d)) g = inl (inr (omega arith))
      longer s (inr d) g = inr (omega arith)

      closed :
          free_at bitmap cluster ≡ false
          → ((best ≢ none) ⊎ (count ≤ n)) ⊎ (cluster ≤ a + n)
          → (leb count n ≡ true) ⊎ (leb count n ≡ false)
          → ((close_run count s n best ≢ none) ⊎ (count ≤ 0)) ⊎ (cluster + 1 ≤ a + 0)
      closed used (inl d) test = inl (inl (close_run-some s n cluster best t one d))
      closed used (inr d) (inl e) =
          inl (inl (close_run-some s n cluster best t one (inr (leb→le _ _ e))))
      closed used (inr d) (inr e) = elim (Bool-cases (leb a cluster)) [
        | inl below ↦
            let free = w cluster (leb→le _ _ below) (omega (arith, leb→gt _ _ e)) in
            absurd (ground arith)
        | inr above ↦ inr (omega (arith, leb→gt _ _ above))
      ]

  -- The first `count` clusters of the best run are free and lie in the volume.
  pub best_fit-Found :
      (total : ℕ) (r : ClusterRun)
      → best_fit_from bitmap count total 0 none 0 none ≡ some r
      → Found bitmap count total (run r.start_cluster count)
  best_fit-Found total r e =
      let c = subst (Candidates bitmap count (0 + total)) e (
        best_fit_from-Candidates total 0 none 0 none refl (omega arith)
          (λ d h k. absurd (omega arith)) tt) in
      record {
        sized = refl;
        within = omega (arith, c.within, c.enough);
        free = λ d h k. c.free d h (omega (arith, c.enough));
      }

  -- If some window of the wanted length is free, best fit finds a run.
  pub best_fit_complete :
      (total a : ℕ)
      → 1 ≤ count
      → total ≤ 8 * length bitmap
      → FreeWindow bitmap a count
      → a + count ≤ total
      → best_fit_from bitmap count total 0 none 0 none ≢ none
  best_fit_complete total a h room w k =
      best_fit_from_complete total 0 none 0 none a refl (omega arith) h (omega arith) w
        (inr (omega arith)) (omega arith)
