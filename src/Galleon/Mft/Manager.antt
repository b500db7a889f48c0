-- ===== src/Galleon/Mft/Manager.antt =====
-- `MftManager` of crates/galleon2/src/mft.rs: records in the clusters of a disk. A read puts what the
-- driver gives at the start of a buffer of 4096 zeros.
pub mod Clusters
pub mod Storing
pub mod Returning
pub mod Table
use prisma_os.Base.{
  ℕ, ◌+◌, ◌*◌, ◌/◌, ◌%◌, ◌^◌, max, List, ◌++◌, none, some, ltb, ◌==◌, if◌then◌else◌, length, take,
  drop, replicate,
}
use prisma_os.Base.Words.{add64, mul64}
use prisma_os.Base.Fields.{slice_at}
use prisma_os.Galleon.Error.{FilesystemError, from_ide}
use prisma_os.Galleon.Volume.{Ide, bytes, failed}
use prisma_os.Galleon.Mft.{MftRecord, mft_record_size}
use prisma_os.Galleon.Mft.Bytes.{
  Ends, value, refused, panic, out_of_fuel, record_serialize, record_deserialize,
}

pub record MftManager : Type 0 where
  pub drive : ℕ
  pub mft_start_cluster : ℕ
  pub cluster_size : ℕ

unfoldable pub mft_manager_new : ℕ → ℕ → ℕ → MftManager
mft_manager_new drive mft_start_cluster cluster_size = record {
  drive = drive;
  mft_start_cluster = mft_start_cluster;
  cluster_size = cluster_size;
}

-- The state after an operation with its result or its error; or the operation panics, or its
-- loop is still running when the fuel is used up.
pub data Finish (S A : Type 0) : Type 0 where
  done : S → A → Finish S A
  fail : S → FilesystemError → Finish S A
  halted endless : Finish S A

abbrev pub records_per_cluster : MftManager → ℕ
records_per_cluster m = m.cluster_size / mft_record_size

abbrev pub sectors_per_cluster : MftManager → ℕ
sectors_per_cluster m = max (m.cluster_size / 512) 1

unfoldable pub cluster_sector : MftManager → ℕ → ℕ
cluster_sector m record_number =
    mul64 (add64 m.mft_start_cluster (record_number / records_per_cluster m))
      (sectors_per_cluster m)

unfoldable pub record_offset : MftManager → ℕ → ℕ
record_offset m record_number = record_number % records_per_cluster m * mft_record_size

abbrev pub fill : List ℕ → List ℕ
fill sectors = sectors ++ drop (length sectors) (replicate 4096 0)

-- `buf[offset..offset + new.len()].copy_from_slice(new)`
abbrev pub overwrite : ℕ → List ℕ → List ℕ → List ℕ
overwrite offset new buffer = take offset buffer ++ (new ++ drop (offset + length new) buffer)

module _ {Disk : Type 0} (device : Ide Disk) where
  unfoldable pub read_record : ℕ → MftManager → Disk → ℕ → Ends MftRecord
  unfolding cluster_sector record_offset
  read_record fuel m disk record_number =
      if records_per_cluster m == 0
      then refused FilesystemError.invalid_parameter
      else if ltb 4096 m.cluster_size
      then panic
      else (elim (device.read_sectors disk m.drive (sectors_per_cluster m % 2 ^ 8)
          (cluster_sector m record_number % 2 ^ 32)) [
            | failed e ↦ refused (from_ide e)
            | bytes sectors ↦
                record_deserialize fuel
                  (slice_at (fill sectors) (record_offset m record_number) mft_record_size)
                  record_number
          ])

  unfoldable pub write_record : MftManager → MftRecord → Disk → Finish Disk (Unit {0})
  unfolding cluster_sector record_offset
  write_record m r disk =
      let count = sectors_per_cluster m % 2 ^ 8 in
      let sector = cluster_sector m r.record_number % 2 ^ 32 in
      if records_per_cluster m == 0
      then fail disk FilesystemError.invalid_parameter
      else if ltb 4096 m.cluster_size
      then halted
      else (elim (device.read_sectors disk m.drive count sector) [
        | failed e ↦ fail disk (from_ide e)
        | bytes sectors ↦ elim (record_serialize r) [
          | value new ↦
              let buffer = overwrite (record_offset m r.record_number) new (fill sectors) in
              let written =
                device.write_sectors disk m.drive count sector (take m.cluster_size buffer) in
              elim (written.1) [
                | none ↦ done (written.0) tt
                | some e ↦ fail (written.0) (from_ide e)
              ]
          | refused e ↦ fail disk e
          | panic ↦ halted
          | out_of_fuel ↦ endless
        ]
      ])

-- `allocate_record` takes the next number from a counter, which starts at 16.
unfoldable pub allocate_record : ℕ → ℕ × ℕ
allocate_record next_record = (add64 next_record 1, next_record)
