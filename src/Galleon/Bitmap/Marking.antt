-- ===== src/Galleon/Bitmap/Marking.antt =====
-- Marking a run on a bitmap that is loaded changes the bits of the run and nothing else.
use prisma_os.Base.{
  ℕ, ◌-◌, ◌*◌, ◌/◌, ◌%◌, ◌^◌, ◌≤◌, ◌<◌, ◌≡◌, refl, ◌∙◌, inl, inr, Bool, true, false, List, some,
  ◌==◌, if◌then◌else◌, length, get_or, set, get_or-set, bit_or, bit_and, arith, Bool-cases, ==_iff,
  ◌+◌, zero, suc, ltb, leb, ◌&&◌, lt→ltb, lt→leb, length-set,
}
use prisma_os.Base.Bits.{bit_clear, bit_clear-bit_or, bit_clear-bit_and, bit_or-lt, bit_and-lt}
use prisma_os.Galleon.Scan.{free_at}
use prisma_os.Galleon.Volume.{Volume, Ide, Outcome, done, ◌>>◌}
use prisma_os.Base.Words.{add64, add64_lem}
use prisma_os.Galleon.Bitmap.{
  load_bitmap, change_in_cache, change_cluster, set_cluster_used, set_cluster_free, for_clusters,
  mark_run_used, mark_run_free,
}
use prisma_os.Galleon.Run.{ClusterRun}

-- The bitmap is in the cache, holds bytes, and has a bit for every cluster.
pub record Loaded {Disk : Type 0} (v : Volume Disk) (bitmap : List ℕ) : Type 0 where
  pub cached : v.bitmap.cached_bitmap ≡ some bitmap
  pub in_bytes : (i : ℕ) → get_or bitmap i 0 < 256
  pub room : v.bitmap.total_clusters ≤ 8 * length bitmap

-- What no marking changes.
pub record Frame {Disk : Type 0} (v w : Volume Disk) : Type 0 where
  pub same_disk : w.disk ≡ v.disk
  pub same_drive : w.bitmap.drive ≡ v.bitmap.drive
  pub same_start : w.bitmap.bitmap_start_sector ≡ v.bitmap.bitmap_start_sector
  pub same_size : w.bitmap.bitmap_size_sectors ≡ v.bitmap.bitmap_size_sectors
  pub same_total : w.bitmap.total_clusters ≡ v.bitmap.total_clusters

pub Frame-refl : {Disk : Type 0} (v : Volume Disk) → Frame v v
Frame-refl v = record {
  same_disk = refl;
  same_drive = refl;
  same_start = refl;
  same_size = refl;
  same_total = refl;
}

pub Frame-trans : {Disk : Type 0} {u v w : Volume Disk} → Frame u v → Frame v w → Frame u w
Frame-trans f g = record {
  same_disk = g.same_disk ∙ f.same_disk;
  same_drive = g.same_drive ∙ f.same_drive;
  same_start = g.same_start ∙ f.same_start;
  same_size = g.same_size ∙ f.same_size;
  same_total = g.same_total ∙ f.same_total;
}

-- A change of one bit of a byte: bit `i` becomes `value` in the test, the others stay.
record IsChange (change : ℕ → ℕ → ℕ) (value : Bool) : Type 0 where
  bound : (b i : ℕ) → b < 256 → i < 8 → change b i < 256
  effect :
      (b i j : ℕ)
      → b < 256
      → i < 8
      → j < 8
      → bit_clear (change b i) j ≡ (if i == j then value else bit_clear b j)

set-IsChange : IsChange (λ byte bit. bit_or byte (2 ^ bit)) false
set-IsChange = record { bound = bit_or-lt; effect = bit_clear-bit_or }

reset-IsChange : IsChange (λ byte bit. bit_and byte (255 - 2 ^ bit)) true
reset-IsChange = record { bound = bit_and-lt; effect = bit_clear-bit_and }

module _ (change : ℕ → ℕ → ℕ) (value : Bool) (law : IsChange change value) where
  changed : List ℕ → ℕ → List ℕ
  changed bitmap c = set bitmap (c / 8) (change (get_or bitmap (c / 8) 0) (c % 8))

  changed-in_bytes :
      (bitmap : List ℕ) (c i : ℕ)
      → ((i : ℕ) → get_or bitmap i 0 < 256)
      → c / 8 < length bitmap
      → get_or (changed bitmap c) i 0 < 256
  unfolding changed
  changed-in_bytes bitmap c i h k =
      rw (get_or-set bitmap (c / 8) i (change (get_or bitmap (c / 8) 0) (c % 8)) 0 k)
        (ground (arith, h i, law.bound (get_or bitmap (c / 8) 0) (c % 8) (h (c / 8)) (omega arith)))

  free_at-changed :
      (bitmap : List ℕ) (c d : ℕ)
      → ((i : ℕ) → get_or bitmap i 0 < 256)
      → c / 8 < length bitmap
      → free_at (changed bitmap c) d ≡ (if c == d then value else free_at bitmap d)
  unfolding changed
  free_at-changed bitmap c d h k =
      rw (get_or-set bitmap (c / 8) (d / 8) (change (get_or bitmap (c / 8) 0) (c % 8)) 0 k)
        (elim (Bool-cases (c / 8 == d / 8)) [
          | inl same ↦
              let e = (==_iff _ _).0 same in
              rw
                (
                  same,
                  law.effect (get_or bitmap (c / 8) 0) (c % 8) (d % 8) (h (c / 8)) (omega arith)
                      (omega arith),
                  e,
                )
                (ground arith)
          | inr other ↦ rw other (ground arith)
        ])

-- The operation succeeds, the bits from `start` on get the value, and all else stays.
abbrev pub Marks :
    {Disk : Type 0}
    → Volume Disk
    → List ℕ
    → Bool
    → ℕ
    → ℕ
    → Outcome (Volume Disk) (Unit {0})
    → Type 0
Marks {Disk} v bitmap value start n o =
    (w : Volume Disk) × (marked : List ℕ) × (o ≡ done w tt)
    × Loaded w marked
    × Frame v w
    × ((d : ℕ)
        → free_at marked d ≡ (if leb start d && ltb d (start + n) then value else free_at bitmap d))

module _ {Disk : Type 0} (device : Ide Disk) (change : ℕ → ℕ → ℕ) (value : Bool)
    (law : IsChange change value) where
  change_cluster-Marks :
      (v : Volume Disk) (bitmap : List ℕ) (c : ℕ)
      → Loaded v bitmap
      → c < v.bitmap.total_clusters
      → Marks v bitmap value c 1 (change_cluster device change c v)
  unfolding change_cluster load_bitmap change_in_cache changed
  change_cluster-Marks v bitmap c l h =
      let inside : c / 8 < length bitmap = omega (arith, l.room) in
      let marked = changed change value law bitmap c in
      let w = record v { bitmap = record v.bitmap { cached_bitmap = some marked; dirty = true } } in
      (
        w,
        marked,
        rw (lt→leb _ _ h, l.cached, lt→ltb _ _ inside),
        record {
          cached = refl;
          in_bytes = λ i. changed-in_bytes change value law bitmap c i l.in_bytes inside;
          room =
              omega (
                arith,
                l.room,
                length-set bitmap (c / 8) (change (get_or bitmap (c / 8) 0) (c % 8)),
              );
        },
        record {
          same_disk = refl;
          same_drive = refl;
          same_start = refl;
          same_size = refl;
          same_total = refl;
        },
        λ d. free_at-changed change value law bitmap c d l.in_bytes inside ∙ ground arith,
      )

  for_clusters-Marks :
      (n : ℕ) (v : Volume Disk) (bitmap : List ℕ) (c : ℕ)
      → Loaded v bitmap
      → c + n ≤ v.bitmap.total_clusters
      → Marks v bitmap value c n (for_clusters device (change_cluster device change) n c v)
  unfolding for_clusters
  for_clusters-Marks zero v bitmap c l h = (v, bitmap, refl, l, Frame-refl v, λ d. ground arith)
  for_clusters-Marks (suc n) v bitmap c l h =
      let (w, marked, e, lw, fw, bits) = change_cluster-Marks v bitmap c l (omega arith) in
      let (u, marked', e', lu, fu, bits') =
        for_clusters-Marks n w marked (c + 1) lw (omega (arith, fw.same_total)) in
      (u, marked', rw (e, ◌>>◌) e', lu, Frame-trans fw fu, λ d. bits' d ∙ ground (arith, bits d))

range_length : (s n : ℕ) → s + n < 2 ^ 64 → add64 s n - s ≡ n
range_length s n h = omega (arith, add64_lem s n h)

module _ {Disk : Type 0} (device : Ide Disk) (v : Volume Disk) (bitmap : List ℕ)
    (r : ClusterRun) where
  -- Marking a run inside a loaded volume succeeds. Afterwards the clusters of the run are used and
  -- every other cluster is as it was; the disk is not touched.
  pub mark_run_used_lem :
      Loaded v bitmap
      → r.start_cluster + r.cluster_count ≤ v.bitmap.total_clusters
      → v.bitmap.total_clusters < 2 ^ 64
      → Marks v bitmap false r.start_cluster r.cluster_count (mark_run_used device r v)
  unfolding mark_run_used set_cluster_used
  mark_run_used_lem l h k = rw (range_length r.start_cluster r.cluster_count (omega arith)) (
      for_clusters-Marks device (λ byte bit. bit_or byte (2 ^ bit)) false set-IsChange
        r.cluster_count v bitmap r.start_cluster l h)

  -- Likewise for freeing: exactly the clusters of the run become free.
  pub mark_run_free_lem :
      Loaded v bitmap
      → r.start_cluster + r.cluster_count ≤ v.bitmap.total_clusters
      → v.bitmap.total_clusters < 2 ^ 64
      → Marks v bitmap true r.start_cluster r.cluster_count (mark_run_free device r v)
  unfolding mark_run_free set_cluster_free
  mark_run_free_lem l h k = rw (range_length r.start_cluster r.cluster_count (omega arith)) (
      for_clusters-Marks device (λ byte bit. bit_and byte (255 - 2 ^ bit)) true reset-IsChange
        r.cluster_count v bitmap r.start_cluster l h)
