-- ===== src/Galleon/RunList/Encoding.antt =====
-- `serialize` and `deserialize` of a run list.
use prisma_os.Base.{
  ℕ, ◌+◌, ◌*◌, ◌<◌, ◌^◌, ◌%◌, ◌≡◌, refl, ◌∙◌, List, [], ◌∷◌, ◌++◌, length, length-append,
  append_assoc, take-append_at, drop-append_at, arith, le→ltb,
}
use prisma_os.Base.Bytes.{le_bytes, from_le_bytes, length-le_bytes, from_le_bytes-le_bytes}
use prisma_os.Base.Words.{add64_lem}
use prisma_os.Galleon.Error.{ok}
use prisma_os.Galleon.Run.{ClusterRun, IsRun}
use prisma_os.Galleon.RunList.{
  RunList, serialize_runs, serialize, slice, deserialize_runs, deserialize, All, sum_counts,
  IsRunList,
}

-- A number written at the end of a prefix is read back at the prefix's length.
read_back :
    (n x offset : ℕ) (before after : List ℕ)
    → length before ≡ offset
    → x < 256 ^ n
    → from_le_bytes (slice (before ++ (le_bytes n x ++ after)) offset n) ≡ x
read_back n x offset before after h k =
    rw
      (
        drop-append_at offset before (le_bytes n x ++ after) h,
        take-append_at n (le_bytes n x) after (length-le_bytes n x),
      )
      (from_le_bytes-le_bytes n x k)

deserialize_runs-serialize_runs :
    (rs : List ClusterRun) (before : List ℕ) (i total : ℕ)
    → length before ≡ 4 + i * 16
    → All IsRun rs
    → total + sum_counts rs < 2 ^ 64
    → deserialize_runs (before ++ serialize_runs rs) (length rs) i total
      ≡ (rs, total + sum_counts rs)
unfolding deserialize_runs serialize_runs
deserialize_runs-serialize_runs [] before i total h vs k = λ j. ([], back j)
  where
    back : total ≡ total + 0
    back = omega arith
deserialize_runs-serialize_runs (r ∷ rs) before i total h vs k =
    let a = le_bytes 8 r.start_cluster in
    let b = le_bytes 8 r.cluster_count in
    let s = serialize_runs rs in
    let len_a : length (before ++ a) ≡ 4 + i * 16 + 8 =
      omega (arith, length-append before a, length-le_bytes 8 r.start_cluster, h) in
    let len_b : length ((before ++ a) ++ b) ≡ 4 + (i + 1) * 16 =
      omega (arith, length-append (before ++ a) b, length-le_bytes 8 r.cluster_count, len_a) in
    let start =
      read_back 8 r.start_cluster (4 + i * 16) before (b ++ s) h (omega (arith, vs.0.fits)) in
    let count : from_le_bytes (slice (before ++ (a ++ (b ++ s))) (4 + i * 16 + 8) 8)
        ≡ r.cluster_count =
      rw (← append_assoc before a (b ++ s)) (
        read_back 8 r.cluster_count (4 + i * 16 + 8) (before ++ a) s len_a
          (omega (arith, vs.0.fits))) in
    let rest : deserialize_runs (before ++ (a ++ (b ++ s))) (length rs) (i + 1)
          (total + r.cluster_count)
        ≡ (rs, total + r.cluster_count + sum_counts rs) =
      rw (← append_assoc before a (b ++ s), ← append_assoc (before ++ a) b s)
        (deserialize_runs-serialize_runs rs ((before ++ a) ++ b) (i + 1) (total + r.cluster_count)
          len_b vs.1 (omega arith)) in
    let assoc : total + r.cluster_count + sum_counts rs
        ≡ total + (r.cluster_count + sum_counts rs) =
      omega arith in
    rw (start, count, add64_lem total r.cluster_count (omega arith), rest, assoc)

length-serialize_runs : (rs : List ClusterRun) → length (serialize_runs rs) ≡ length rs * 16
unfolding serialize_runs
length-serialize_runs [] = refl
length-serialize_runs (r ∷ rs) = omega (
  arith,
  length-append (le_bytes 8 r.start_cluster) (le_bytes 8 r.cluster_count ++ serialize_runs rs),
  length-append (le_bytes 8 r.cluster_count) (serialize_runs rs),
  length-le_bytes 8 r.start_cluster,
  length-le_bytes 8 r.cluster_count,
  length-serialize_runs rs,
)

-- A well-formed run list of fewer than `2 ^ 32` runs, with a total below `2 ^ 64`, is read back
-- from its bytes as it was.
pub deserialize-serialize :
    (l : RunList)
    → IsRunList l
    → length l.runs < 2 ^ 32
    → l.total_clusters < 2 ^ 64
    → deserialize (serialize l) ≡ ok l
unfolding deserialize serialize
deserialize-serialize l v few small =
    let n = length l.runs in
    let head = le_bytes 4 (n % 2 ^ 32) in
    let same : n % 2 ^ 32 ≡ n = omega arith in
    let count : from_le_bytes (slice (head ++ serialize_runs l.runs) 0 4) ≡ n =
      read_back 4 (n % 2 ^ 32) 0 [] (serialize_runs l.runs) refl (omega arith) ∙ same in
    let size : length (head ++ serialize_runs l.runs) ≡ 4 + n * 16 = omega (
      arith,
      length-append head (serialize_runs l.runs),
      length-le_bytes 4 (n % 2 ^ 32),
      length-serialize_runs l.runs,
    ) in
    let body =
      deserialize_runs-serialize_runs l.runs head 0 0 (length-le_bytes 4 (n % 2 ^ 32)) v.proper
        (omega (arith, v.counted)) in
    let total : 0 + sum_counts l.runs ≡ l.total_clusters = omega (arith, v.counted) in
    rw (
      count,
      body,
      size,
      le→ltb (4 + n * 16) 4 (omega arith),
      le→ltb (4 + n * 16) (4 + n * 16) (omega arith),
      total,
    )
