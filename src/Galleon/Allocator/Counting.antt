-- ===== src/Galleon/Allocator/Counting.antt =====
-- A list of runs that holds no cluster twice, and none from `limit` on, has at most `limit` clusters.
use prisma_os.Base.{ℕ, zero, suc, ◌+◌, ◌-◌, ◌≤◌, ◌≡◌, refl, min, List, [], ◌∷◌, arith}
use prisma_os.Galleon.Run.{ClusterRun, covers, IsRun}
use prisma_os.Galleon.RunList.{covers_all, sum_counts, All}

sum_below : ℕ → (ℕ → ℕ) → ℕ
sum_below zero f = 0
sum_below (suc n) f = f n + sum_below n f

sum_below-le : (n : ℕ) (f : ℕ → ℕ) → ((c : ℕ) → f c ≤ 1) → sum_below n f ≤ n
unfolding sum_below
sum_below-le zero f h = omega arith
sum_below-le (suc n) f h = omega (arith, h n, sum_below-le n f h)

sum_below-add : (n : ℕ) (f g : ℕ → ℕ) → sum_below n (λ c. f c + g c) ≡ sum_below n f + sum_below n g
unfolding sum_below
sum_below-add zero f g = omega arith
sum_below-add (suc n) f g = omega (arith, sum_below-add n f g)

sum_below-zero : (n : ℕ) → sum_below n (λ c. 0) ≡ 0
unfolding sum_below
sum_below-zero zero = refl
sum_below-zero (suc n) = omega (arith, sum_below-zero n)

sum_below-covers :
    (n : ℕ) (r : ClusterRun)
    → sum_below n (covers r) ≡ min n (r.start_cluster + r.cluster_count) - min n r.start_cluster
unfolding sum_below
sum_below-covers zero r = omega arith
sum_below-covers (suc n) r = ground (arith, sum_below-covers n r)

-- The last cluster of a proper run is covered, so the run ends at the limit at most.
pub end_inside :
    (r : ClusterRun) (limit : ℕ)
    → IsRun r
    → ((c : ℕ) → limit ≤ c → covers r c ≡ 0)
    → r.start_cluster + r.cluster_count ≤ limit
end_inside r limit v h = ground (arith, h (r.start_cluster + r.cluster_count - 1), v.nonempty)

sum_below-covers_all :
    (n : ℕ) (rs : List ClusterRun)
    → All IsRun rs
    → ((c : ℕ) → n ≤ c → covers_all rs c ≡ 0)
    → sum_below n (covers_all rs) ≡ sum_counts rs
sum_below-covers_all n [] vs h = sum_below-zero n
sum_below-covers_all n (r ∷ rs) vs h =
    let ends = end_inside r n vs.0 (λ c k. omega (arith, h c k)) in
    omega (
      arith,
      sum_below-add n (covers r) (covers_all rs),
      sum_below-covers n r,
      sum_below-covers_all n rs vs.1 (λ c k. omega (arith, h c k)),
    )

pub sum_counts-le :
    (limit : ℕ) (rs : List ClusterRun)
    → All IsRun rs
    → ((c : ℕ) → limit ≤ c → covers_all rs c ≡ 0)
    → ((c : ℕ) → covers_all rs c ≤ 1)
    → sum_counts rs ≤ limit
sum_counts-le limit rs vs h once =
    omega (arith, sum_below-covers_all limit rs vs h, sum_below-le limit (covers_all rs) once)
