-- ===== src/Galleon/Mft/Manager/Returning.antt =====
-- A record that is written is there, and the others stay.
use prisma_os.Base.{
  ℕ, ◌+◌, ◌*◌, ◌≤◌, ◌≡◌, ◌⊎◌, refl, ◌∙◌, ap, sym, List, length, arith, take, drop, replicate,
  take-append_at,
}
use prisma_os.Base.Fields.{slice_at}
use prisma_os.Galleon.Volume.{Ide, bytes}
use prisma_os.Galleon.Mft.{MftRecord}
use prisma_os.Galleon.Mft.Bytes.{record_deserialize}
use prisma_os.Galleon.Mft.Manager.Storing.{
  IsDisk, IsTable, IsWritten, count, sector_of, count_lem, some_record, buffer_fits,
  record_offset-inside, some_sectors,
}
use prisma_os.Galleon.Mft.Manager.{MftManager, record_offset, fill, overwrite, read_record}
use prisma_os.Galleon.Mft.Manager.Clusters.{
  slice_at-fill, length-overwrite, overwrite-append, slice_at-overwrite, slice_at-overwrite_other,
}

module _ {Disk : Type 0} (device : Ide Disk) (law : IsDisk device) (m : MftManager) (t : IsTable m)
    (r : MftRecord) (disk disk' : Disk) (w : IsWritten device m r disk disk')
    (whole : length w.new ≡ 1024)
    (inside : sector_of device m r.record_number + count device m ≤ law.capacity m.drive) where
  abbrev offset : ℕ
  offset = record_offset m r.record_number

  -- The cluster with the record in it.
  abbrev cluster : List ℕ
  cluster = overwrite offset w.new w.sectors

  length-sectors : length w.sectors ≡ m.cluster_size
  length-sectors =
      law.read_length disk m.drive (count device m) (sector_of device m r.record_number) w.sectors
        w.got
      ∙ count_lem m t

  room : offset + length w.new ≤ length w.sectors
  room = omega (arith, record_offset-inside m t r.record_number, length-sectors, whole)

  buffer_lem : take m.cluster_size (overwrite offset w.new (fill w.sectors)) ≡ cluster
  buffer_lem =
      let behind = drop (length w.sectors) (replicate 4096 0) in
      ap (take m.cluster_size) (overwrite-append offset w.new w.sectors room behind)
      ∙ take-append_at m.cluster_size cluster behind
          (length-overwrite offset w.new w.sectors room ∙ length-sectors)

  length-cluster : length cluster ≡ count device m * 512
  length-cluster =
      length-overwrite offset w.new w.sectors room ∙ length-sectors ∙ sym (count_lem m t)

  -- After the write the driver gives the cluster.
  read_back_lem :
      device.read_sectors disk' m.drive (count device m) (sector_of device m r.record_number)
      ≡ bytes cluster
  read_back_lem =
      let back =
        law.read_back disk m.drive (count device m) (sector_of device m r.record_number) cluster
          (some_sectors m t) inside length-cluster in
      let write =
        device.write_sectors disk m.drive (count device m) (sector_of device m r.record_number) in
      let succeeded = ap (λ b. (write b).1) (sym buffer_lem) ∙ w.succeeded in
      let disk_after = ap (λ b. (write b).0) (sym buffer_lem) ∙ w.disk_after in
      sym (
        ap
          (λ d. device.read_sectors d m.drive (count device m) (sector_of device m r.record_number))
          disk_after)
      ∙ back succeeded

  length-rest : (n : ℕ) → record_offset m n + 1024 ≤ length cluster
  length-rest n = omega (
    arith,
    record_offset-inside m t n,
    length-overwrite offset w.new w.sectors room,
    length-sectors,
  )

  -- Reading a record of the cluster after the write.
  read_record-cluster :
      (fuel n : ℕ)
      → sector_of device m n ≡ sector_of device m r.record_number
      → read_record device fuel m disk' n
        ≡ record_deserialize fuel (slice_at cluster (record_offset m n) 1024) n
  unfolding read_record
  read_record-cluster fuel n same =
      rw
        (
          some_record m t,
          buffer_fits m t,
          ap (device.read_sectors disk' m.drive (count device m)) same ∙ read_back_lem,
          slice_at-fill cluster (record_offset m n) 1024 (length-rest n),
        )
        refl

  pub read_record_self :
      (fuel : ℕ)
      → read_record device fuel m disk' r.record_number
        ≡ record_deserialize fuel w.new r.record_number
  read_record_self fuel =
      read_record-cluster fuel r.record_number refl
      ∙ ap (λ bs. record_deserialize fuel bs r.record_number)
          (ap (slice_at cluster offset) (sym whole)
            ∙ slice_at-overwrite offset w.new w.sectors room)

  -- Reading before the write what the cluster had.
  read_record_before :
      (fuel n : ℕ)
      → sector_of device m n ≡ sector_of device m r.record_number
      → read_record device fuel m disk n
        ≡ record_deserialize fuel (slice_at w.sectors (record_offset m n) 1024) n
  unfolding read_record
  read_record_before fuel n same =
      let inside : record_offset m n + 1024 ≤ length w.sectors =
        omega (arith, record_offset-inside m t n, length-sectors) in
      rw
        (
          some_record m t,
          buffer_fits m t,
          ap (device.read_sectors disk m.drive (count device m)) same ∙ w.got,
          slice_at-fill w.sectors (record_offset m n) 1024 inside,
        )
        refl

  -- A record in another place of the cluster.
  pub read_record_neighbour :
      (fuel n : ℕ)
      → sector_of device m n ≡ sector_of device m r.record_number
      → (record_offset m n + 1024 ≤ offset) ⊎ (offset + 1024 ≤ record_offset m n)
      → read_record device fuel m disk' n ≡ read_record device fuel m disk n
  read_record_neighbour fuel n same apart =
      let apart' : (record_offset m n + 1024 ≤ offset)
          ⊎ (offset + length w.new ≤ record_offset m n) =
        rw whole apart in
      read_record-cluster fuel n same
      ∙ ap (λ bs. record_deserialize fuel bs n)
          (slice_at-overwrite_other offset w.new w.sectors room (record_offset m n) 1024 apart')
      ∙ sym (read_record_before fuel n same)

  -- A record of another cluster.
  pub read_record_distant :
      (fuel n : ℕ)
      → sector_of device m n + count device m ≤ law.capacity m.drive
      → (sector_of device m n + count device m ≤ sector_of device m r.record_number)
        ⊎ (sector_of device m r.record_number + count device m ≤ sector_of device m n)
      → read_record device fuel m disk' n ≡ read_record device fuel m disk n
  unfolding read_record
  read_record_distant fuel n there apart =
      let write =
        device.write_sectors disk m.drive (count device m) (sector_of device m r.record_number) in
      let buffer = take m.cluster_size (overwrite offset w.new (fill w.sectors)) in
      let same : device.read_sectors disk' m.drive (count device m) (sector_of device m n)
          ≡ device.read_sectors disk m.drive (count device m) (sector_of device m n) =
        sym (
          ap (λ d. device.read_sectors d m.drive (count device m) (sector_of device m n))
            w.disk_after)
        ∙ law.read_other disk m.drive (count device m) (sector_of device m r.record_number) buffer
            (count device m) (sector_of device m n) (some_sectors m t) inside there apart in
      rw same refl
