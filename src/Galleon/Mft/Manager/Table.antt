-- ===== src/Galleon/Mft/Manager/Table.antt =====
-- A record that is written to the table is read back, and the other records stay.
use prisma_os.Base.{
  ℕ, ◌+◌, ◌*◌, ◌/◌, ◌%◌, ◌^◌, ◌≤◌, ◌<◌, ◌≡◌, ◌≢◌, ◌⊎◌, inl, inr, refl, ◌∙◌, ap, sym, List, length,
  arith, All,
}
use prisma_os.Galleon.Volume.{Ide}
use prisma_os.Galleon.Mft.{MftRecord}
use prisma_os.Galleon.Mft.Bytes.{value, ◌>>=◌, record_serialize, record_deserialize}
use prisma_os.Galleon.Mft.Writing.{IsPlaced, attributes_size, record_serialize_total}
use prisma_os.Galleon.Mft.Reading.{IsExact, IsPlaced-header}
use prisma_os.Galleon.Mft.Records.{IsFilled, record_deserialize-record_serialize}
use prisma_os.Galleon.Mft.Manager.Storing.{IsDisk, IsTable, write_record-IsWritten}
use prisma_os.Galleon.Mft.Manager.Returning.{
  read_record_self, read_record_neighbour, read_record_distant,
}
use prisma_os.Base.Words.{add64, mul64}
use prisma_os.Galleon.Mft.Manager.{
  MftManager, done, records_per_cluster, sectors_per_cluster, cluster_sector, record_offset,
  read_record, write_record,
}

-- The cluster of the record ends inside a drive of so many sectors.
abbrev pub Reached : ℕ → MftManager → ℕ → Type 0
Reached capacity m n =
    (m.mft_start_cluster + n / records_per_cluster m + 1) * sectors_per_cluster m ≤ capacity

sector_lem :
    (capacity : ℕ) (m : MftManager) (n : ℕ)
    → capacity ≤ 2 ^ 28
    → Reached capacity m n
    → cluster_sector m n % 2 ^ 32
      ≡ (m.mft_start_cluster + n / records_per_cluster m) * sectors_per_cluster m
unfolding cluster_sector add64 mul64
sector_lem capacity m n small_drive h =
    let one : 1 ≤ sectors_per_cluster m = ground arith in
    let c = m.mft_start_cluster + n / records_per_cluster m in
    let small : c + 1 ≤ (c + 1) * sectors_per_cluster m = grind arith in
    let below : c * sectors_per_cluster m < 2 ^ 32 = grind arith in
    let e : c % 2 ^ 64 ≡ c = omega arith in rw e (omega arith)

same_cluster :
    (m : MftManager) (a b : ℕ)
    → a / records_per_cluster m ≡ b / records_per_cluster m
    → cluster_sector m a ≡ cluster_sector m b
unfolding cluster_sector
same_cluster m a b h = rw h refl

-- Two records of one cluster do not overlap.
record_offset_apart :
    (m : MftManager) (a b : ℕ)
    → IsTable m
    → a / records_per_cluster m ≡ b / records_per_cluster m
    → a ≢ b
    → (record_offset m a + 1024 ≤ record_offset m b)
      ⊎ (record_offset m b + 1024 ≤ record_offset m a)
unfolding record_offset
record_offset_apart m a b t same differ =
    let k = records_per_cluster m in
    let ea : a / k * k + a % k ≡ a = grind arith in
    let eb : b / k * k + b % k ≡ b = grind arith in
    let product : a / k * k ≡ b / k * k = rw same refl in
    let other : a % k ≢ b % k = λ e. differ (omega arith) in ground arith

-- Two clusters do not overlap.
clusters_apart :
    (capacity : ℕ) (m : MftManager) (a b : ℕ)
    → IsTable m
    → capacity ≤ 2 ^ 28
    → Reached capacity m a
    → Reached capacity m b
    → a / records_per_cluster m < b / records_per_cluster m
    → cluster_sector m a % 2 ^ 32 + sectors_per_cluster m % 2 ^ 8 ≤ cluster_sector m b % 2 ^ 32
clusters_apart capacity m a b t small ra rb less =
    let x = m.mft_start_cluster + a / records_per_cluster m in
    let y = m.mft_start_cluster + b / records_per_cluster m in
    let next : x * sectors_per_cluster m + sectors_per_cluster m ≤ y * sectors_per_cluster m =
      grind arith in
    rw (sector_lem capacity m a small ra, sector_lem capacity m b small rb) (omega arith)

-- The sectors of the cluster are inside the drive.
sectors_inside :
    (capacity : ℕ) (m : MftManager) (n : ℕ)
    → capacity ≤ 2 ^ 28
    → Reached capacity m n
    → cluster_sector m n % 2 ^ 32 + sectors_per_cluster m % 2 ^ 8 ≤ capacity
sectors_inside capacity m n small h =
    let c = m.mft_start_cluster + n / records_per_cluster m in
    let next : c * sectors_per_cluster m + sectors_per_cluster m ≤ capacity = grind arith in
    rw (sector_lem capacity m n small h) (omega arith)

order : (a b : ℕ) → (a ≡ b) ⊎ ((a < b) ⊎ (b < a))
order a b = ground arith

length-new :
    (r : MftRecord)
    → IsPlaced r.header
    → (new : List ℕ) → record_serialize r ≡ value new
    → length new ≡ 1024
length-new r v new h = elim (record_serialize_total r v) [
  | inl (fits, bs, e, size) ↦ let same : new ≡ bs = cc in rw same size
  | inr (over, e) ↦ cc
]

module _ {Disk : Type 0} (device : Ide Disk) (law : IsDisk device) (m : MftManager) (t : IsTable m)
    (r : MftRecord) (disk disk' : Disk)
    (written : write_record device m r disk ≡ done disk' tt) where
  -- A record whose header is valid and whose attributes say the length of their bytes, once it was
  -- written to a table of clusters of one record to four, inside a drive that keeps what
  -- is written, is read back as it was.
  pub read_record-write_record :
      (fuel : ℕ)
      → IsFilled r
      → All IsExact r.attributes
      → r.header.first_attribute_offset + attributes_size r.attributes < r.header.bytes_in_use
      → length r.attributes < fuel
      → Reached (law.capacity m.drive) m r.record_number
      → read_record device fuel m disk' r.record_number ≡ value r
  read_record-write_record fuel v exact used fuelled reached =
      let w = write_record-IsWritten device m r disk disk' written in
      let round = record_deserialize-record_serialize r fuel v exact used fuelled in
      let read : record_deserialize fuel w.new r.record_number ≡ value r =
        sym (ap (λ x. x >>= λ bs. record_deserialize fuel bs r.record_number) w.serialized)
        ∙ round in
      read_record_self device law m t r disk disk' w
        (length-new r (IsPlaced-header v.header) w.new w.serialized)
        (sectors_inside (law.capacity m.drive) m r.record_number (law.capacity_small m.drive)
          reached)
        fuel
      ∙ read

  -- On a drive that keeps what is written, with a table of clusters of one record to four, writing a
  -- record, when it succeeds, changes no other record of the table, of its own cluster or of another:
  -- reading that gives what it gave before, a record or an error. This is for records whose signature
  -- has four bytes and whose first attribute stands behind the header, when the clusters of both
  -- records end inside the drive, which has at most 2 ^ 28 sectors.
  pub read_record-write_record_other :
      (fuel n : ℕ)
      → IsPlaced r.header
      → n ≢ r.record_number
      → Reached (law.capacity m.drive) m n
      → Reached (law.capacity m.drive) m r.record_number
      → read_record device fuel m disk' n ≡ read_record device fuel m disk n
  read_record-write_record_other fuel n v differ reached reached_r =
      let w = write_record-IsWritten device m r disk disk' written in
      let whole = length-new r v w.new w.serialized in
      let k = records_per_cluster m in
      let capacity = law.capacity m.drive in
      let small = law.capacity_small m.drive in
      let inside = sectors_inside capacity m r.record_number small reached_r in
      let there = sectors_inside capacity m n small reached in
      elim (order (n / k) (r.record_number / k)) [
        | inl same ↦
            read_record_neighbour device law m t r disk disk' w whole inside fuel n
              (ap (λ s. s % 2 ^ 32) (same_cluster m n r.record_number same))
              (record_offset_apart m n r.record_number t same differ)
        | inr (inl less) ↦
            read_record_distant device law m t r disk disk' w whole inside fuel n there
              (inl (clusters_apart capacity m n r.record_number t small reached reached_r less))
        | inr (inr more) ↦
            read_record_distant device law m t r disk disk' w whole inside fuel n there
              (inr (clusters_apart capacity m r.record_number n t small reached_r reached more))
      ]
