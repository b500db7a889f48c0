-- ===== src/Galleon/FileRecord/Stored.antt =====
-- A file that was created is in the table.
use prisma_os.Base.{
  ℕ, ◌+◌, ◌≤◌, ◌<◌, ◌≡◌, refl, ◌∙◌, ap, sym, List, [], some, length, All, arith, subst,
}
use prisma_os.Galleon.Volume.{Ide}
use prisma_os.Galleon.Journal.{create_file}
use prisma_os.Galleon.Transactions.{JournalManager, Journal, begin_transaction}
use prisma_os.Galleon.Mft.{MftRecord}
use prisma_os.Galleon.Mft.Bytes.{value}
use prisma_os.Galleon.Mft.Records.{record_bytes, length-record_bytes}
use prisma_os.Galleon.Mft.Manager.{MftManager, done, read_record}
use prisma_os.Galleon.Mft.Manager.Storing.{IsDisk, IsTable, count, sector_of}
use prisma_os.Galleon.Mft.Manager.Table.{Reached, read_record-write_record}
use prisma_os.Galleon.FileRecord.{FileRecordManager, manager_create_file}
use prisma_os.Galleon.Mft.Reading.{IsExact}
use prisma_os.Galleon.FileRecord.Created.{IsCreated, manager_create_file-IsCreated}
use prisma_os.Galleon.FileRecord.Filled.{
  filled, filled-number, Fits, attributes_lem, attributes-IsExact, filled-IsFilled, filled_used,
}
use prisma_os.Galleon.FileRecord.Journaled.{
  EndsInside, Keeps, log_operation-Keeps, commit_transaction-Keeps,
}

-- The table and the journal lie on one drive, the clusters have room for one record to four, the
-- record's cluster ends before the journal and inside the drive, and the journal ends before the last
-- 256 sectors of the drive.
pub record IsLaidOut {Disk : Type 0} (device : Ide Disk) (law : IsDisk device) (m : MftManager)
    (j : JournalManager) (record_number : ℕ) : Type 0 where
  pub table : IsTable m
  pub one_drive : j.drive ≡ m.drive
  pub reached : Reached (law.capacity m.drive) m record_number
  pub ends : EndsInside (law.capacity m.drive) j
  pub apart : sector_of device m record_number + count device m ≤ j.journal_start_sector

module _ {Disk : Type 0} (device : Ide Disk) (m : MftManager) where
  -- What the journal does leaves the record.
  pub read_record-Keeps :
      (fuel n : ℕ) (j j' : Journal Disk)
      → Keeps device j j'
      → j.manager.drive ≡ m.drive
      → sector_of device m n + count device m ≤ j.manager.journal_start_sector
      → read_record device fuel m j'.disk n ≡ read_record device fuel m j.disk n
  unfolding read_record
  read_record-Keeps fuel n j j' kept same below =
      let reads = kept.reads (count device m) (sector_of device m n) below in
      let reads' : device.read_sectors j'.disk m.drive (count device m) (sector_of device m n)
          ≡ device.read_sectors j.disk m.drive (count device m) (sector_of device m n) =
        subst
          (λ d.
            device.read_sectors j'.disk d (count device m) (sector_of device m n)
            ≡ device.read_sectors j.disk d (count device m) (sector_of device m n))
          same reads in
      rw reads' refl

-- Beginning a transaction moves nothing.
begin-kept :
    (m : JournalManager)
    → ((begin_transaction m).0.drive ≡ m.drive)
      × ((begin_transaction m).0.journal_start_sector ≡ m.journal_start_sector)
      × ((begin_transaction m).0.journal_size_sectors ≡ m.journal_size_sectors)
unfolding begin_transaction
begin-kept m = (refl, refl, refl)

module _ {Disk : Type 0} (device : Ide Disk) (law : IsDisk device)
    (fuel parent_directory record_number : ℕ) (name file_data : List ℕ)
    (s s' : FileRecordManager Disk) (fits : Fits s.next_record parent_directory name file_data)
    (placed : IsLaidOut device law s.mft_manager s.journal.manager s.next_record) where
  abbrev made : MftRecord
  made = filled s.next_record parent_directory name file_data

  abbrev j1 : Journal Disk
  j1 = record s.journal { manager = (begin_transaction s.journal.manager).0 }

  module _ (c : IsCreated device parent_directory record_number name file_data s s') where
    -- After the log the journal lies where it lay.
    logged-Keeps : Keeps device j1 c.logged
    logged-Keeps =
        let (drive, start, size) = begin-kept s.journal.manager in
        let cap = ap law.capacity (drive ∙ placed.one_drive) in
        let bytes =
          length-record_bytes made
            (filled-IsFilled s.next_record parent_directory name file_data fits) in
        log_operation-Keeps device law (begin_transaction s.journal.manager).1 create_file
          s.next_record [] (record_bytes made) j1 c.logged (omega (arith, bytes))
          (omega (arith, placed.ends, cap, start, size)) c.log

    stored_lem :
        3 < fuel → read_record device fuel s.mft_manager c.stored s.next_record ≡ value made
    stored_lem enough =
        let listed = attributes_lem s.next_record parent_directory name file_data in
        let exact =
          subst (All IsExact) (sym listed)
            (attributes-IsExact s.next_record parent_directory name file_data fits) in
        let few : length made.attributes < fuel = rw listed (omega arith) in
        sym (
          ap (read_record device fuel s.mft_manager c.stored)
            (filled-number s.next_record parent_directory name file_data))
        ∙ read_record-write_record device law s.mft_manager placed.table made c.logged.disk c.stored
            c.put fuel (filled-IsFilled s.next_record parent_directory name file_data fits) exact
            (filled_used s.next_record parent_directory name file_data fits) few
            (subst (Reached (law.capacity s.mft_manager.drive) s.mft_manager)
              (sym (filled-number s.next_record parent_directory name file_data)) placed.reached)

    kept_lem :
        read_record device fuel s.mft_manager s'.journal.disk s.next_record
        ≡ read_record device fuel s.mft_manager c.stored s.next_record
    kept_lem =
        let (drive, start, size) = begin-kept s.journal.manager in
        let k = logged-Keeps in
        let cap = ap law.capacity (k.drive ∙ drive ∙ placed.one_drive) in
        let after : Journal Disk = record c.logged { disk = c.stored } in
        let kept =
          commit_transaction-Keeps device law (begin_transaction s.journal.manager).1 after
            s'.journal (omega (arith, placed.ends, k.start, k.size, start, size, cap)) c.close in
        read_record-Keeps device s.mft_manager fuel s.next_record after s'.journal kept
          (k.drive ∙ drive ∙ placed.one_drive) (omega (arith, placed.apart, k.start))

  -- When the creation of a file succeeds, with data of at most 700 bytes, in groups of eight, which
  -- fits in a record with its name, and with numbers that fit their fields, the file is found in the
  -- table by the number that the call gave, with more than three rounds of fuel: with its standard
  -- information, its name and its data. The table and the journal lie on one drive, of at most 2 ^ 28
  -- sectors, that keeps what is written; the clusters have room for one record to four; the record's
  -- cluster ends before the journal, and the journal before the last 256 sectors of the drive.
  pub read_record-manager_create_file :
      3 < fuel
      → manager_create_file device fuel parent_directory name (some file_data) s
        ≡ done s' record_number
      → read_record device fuel s'.mft_manager s'.journal.disk record_number ≡ value made
  read_record-manager_create_file enough h =
      let c =
        manager_create_file-IsCreated device fuel parent_directory record_number name file_data s s'
          fits h in
      ap (λ m. read_record device fuel m s'.journal.disk record_number) c.table
      ∙ ap (read_record device fuel s.mft_manager s'.journal.disk) c.number
      ∙ kept_lem c
      ∙ stored_lem c enough
