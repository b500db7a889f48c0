-- ===== src/Galleon/Mft/Manager/Storing.antt =====
-- A record that is written is there, and the others stay.
use prisma_os.Base.{
  ℕ, ◌+◌, ◌*◌, ◌/◌, ◌%◌, ◌^◌, ◌≤◌, ◌<◌, ◌≡◌, ◌⊎◌, inl, inr, refl, false, List, none, Option-cases,
  length, arith, take, ltb, ◌==◌,
}
use prisma_os.Galleon.Error.{IdeError}
use prisma_os.Galleon.Volume.{Ide, Read, bytes, failed}
use prisma_os.Galleon.Mft.{MftRecord}
use prisma_os.Galleon.Mft.Bytes.{value, record_serialize}
use prisma_os.Galleon.Mft.Misread.{Ends-cases}
use prisma_os.Galleon.Mft.Manager.{
  MftManager, done, records_per_cluster, sectors_per_cluster, cluster_sector, record_offset, fill,
  overwrite, write_record,
}

-- Drives of so many sectors, at most as many as a number of 28 bits can name: from 2 ^ 28 on the driver
-- reads other sectors than it is asked for. There a drive whose driver answers keeps what was written
-- last: a read gives as many bytes as were asked for, those that were written there, and a write of
-- some sectors changes no other sector.
pub record IsDisk {Disk : Type 0} (device : Ide Disk) : Type 0 where
  pub capacity : ℕ → ℕ
  pub capacity_small : (drive : ℕ) → capacity drive ≤ 2 ^ 28
  pub read_length :
      (disk : Disk) (drive count sector : ℕ) (sectors : List ℕ)
      → device.read_sectors disk drive count sector ≡ bytes sectors
      → length sectors ≡ count * 512
  pub read_back :
      (disk : Disk) (drive count sector : ℕ) (buffer : List ℕ)
      → 0 < count
      → sector + count ≤ capacity drive
      → length buffer ≡ count * 512
      → (device.write_sectors disk drive count sector buffer).1 ≡ none
      → device.read_sectors
          (device.write_sectors disk drive count sector buffer).0
          drive
          count
          sector
        ≡ bytes buffer
  pub read_other :
      (disk : Disk) (drive count sector : ℕ) (buffer : List ℕ) (other_count other : ℕ)
      → 0 < count
      → sector + count ≤ capacity drive
      → other + other_count ≤ capacity drive
      → (other + other_count ≤ sector) ⊎ (sector + count ≤ other)
      → device.read_sectors
          (device.write_sectors disk drive count sector buffer).0
          drive
          other_count
          other
        ≡ device.read_sectors disk drive other_count other

-- The clusters have room for one record to four.
pub record IsTable (m : MftManager) : Type 0 where
  pub some_records : 1024 ≤ m.cluster_size
  pub fits_buffer : m.cluster_size ≤ 4096
  pub whole_records : m.cluster_size % 1024 ≡ 0

Read-cases :
    (x : Read) → ((sectors : List ℕ) × (x ≡ bytes sectors)) ⊎ ((e : IdeError) × (x ≡ failed e))
Read-cases (bytes sectors) = inl (sectors, refl)
Read-cases (failed e) = inr (e, refl)

module _ {Disk : Type 0} (device : Ide Disk) (m : MftManager) where
  abbrev pub count : ℕ
  count = sectors_per_cluster m % 2 ^ 8

  abbrev pub sector_of : ℕ → ℕ
  sector_of record_number = cluster_sector m record_number % 2 ^ 32

  -- What a write that succeeds wrote.
  pub record IsWritten (r : MftRecord) (disk disk' : Disk) : Type 0 where
    pub sectors : List ℕ
    pub new : List ℕ
    pub got : device.read_sectors disk m.drive count (sector_of r.record_number) ≡ bytes sectors
    pub serialized : record_serialize r ≡ value new
    pub succeeded :
        (device.write_sectors disk m.drive count
          (sector_of r.record_number)
          (take m.cluster_size (overwrite (record_offset m r.record_number) new (fill sectors)))).1
        ≡ none
    pub disk_after :
        (device.write_sectors disk m.drive count
          (sector_of r.record_number)
          (take m.cluster_size (overwrite (record_offset m r.record_number) new (fill sectors)))).0
        ≡ disk'

  pub write_record-IsWritten :
      (r : MftRecord) (disk disk' : Disk)
      → write_record device m r disk ≡ done disk' tt
      → IsWritten r disk disk'
  unfolding write_record
  write_record-IsWritten r disk disk' h =
      elim (Read-cases (device.read_sectors disk m.drive count (sector_of r.record_number))) [
        | inr (e, bad) ↦ ground arith
        | inl (sectors, got) ↦ elim (Ends-cases (record_serialize r)) [
          | inl (new, serialized) ↦
              let w = device.write_sectors disk m.drive count (sector_of r.record_number) (
                take m.cluster_size
                  (overwrite (record_offset m r.record_number) new (fill sectors))) in
              elim (Option-cases (w.1)) [
                | inl succeeded ↦
                    let same : w.0 ≡ disk' = ground arith in
                    record {
                      sectors = sectors;
                      new = new;
                      got = got;
                      serialized = serialized;
                      succeeded = succeeded;
                      disk_after = same;
                    }
                | inr (e, bad) ↦ ground arith
              ]
          | inr (inl (e, bad)) ↦ ground arith
          | inr (inr (inl bad)) ↦ ground arith
          | inr (inr (inr bad)) ↦ ground arith
        ]
      ]

-- The sectors of a cluster.
module _ (m : MftManager) (t : IsTable m) where
  pub count_lem : sectors_per_cluster m % 2 ^ 8 * 512 ≡ m.cluster_size
  count_lem =
      let a = t.some_records in let b = t.fits_buffer in let c = t.whole_records in ground arith

  pub some_sectors : 0 < sectors_per_cluster m % 2 ^ 8
  some_sectors = let e = count_lem in let a = t.some_records in omega arith

  pub some_record : (records_per_cluster m == 0) ≡ false
  some_record = let a = t.some_records in ground arith

  pub buffer_fits : ltb 4096 m.cluster_size ≡ false
  buffer_fits = let a = t.fits_buffer in ground arith

  pub record_offset-inside : (n : ℕ) → record_offset m n + 1024 ≤ m.cluster_size
  unfolding record_offset
  record_offset-inside n =
      let a = t.some_records in
      let c = t.whole_records in
      let below : n % (m.cluster_size / 1024) < m.cluster_size / 1024 = grind arith in omega arith
