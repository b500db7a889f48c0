-- ===== src/Galleon/FileRecord/Examples/Files.antt =====
-- The theorems on the table and on a new file at a drive in memory.
use prisma_os.Base.{
  ℕ, ◌+◌, ◌%◌, ◌<◌, ◌≡◌, refl, false, List, [], ◌∷◌, ◌++◌, ◌*◌, ◌-◌, ◌/◌, ◌^◌, ◌==◌, some, length,
  arith, replicate, All, subst, sym,
}
use prisma_os.Base.Bytes.{le_bytes}
use prisma_os.Base.Words.{add64, mul64}
use prisma_os.Galleon.Journal as Journal
use prisma_os.Galleon.Journal.{pad, LogRecord, create_file, update_metadata}
use prisma_os.Galleon.Journal.Padding.{length-pad}
use prisma_os.Galleon.Journal.Encoding.{length-fields}
use prisma_os.Galleon.Volume as Volume
use prisma_os.Galleon.FileName as Name
use prisma_os.Galleon.FileName.{times_new}
use prisma_os.Galleon.Transactions.{
  JournalManager, Journal, Transaction, active, committed, begin_transaction, log_operation,
  record_sector, write_log_record, write_and_advance, commit_transaction,
}
use prisma_os.Galleon.Transactions as Transactions
use prisma_os.Galleon.Mft.{MftRecord}
use prisma_os.Galleon.Mft.Bytes.{value}
use prisma_os.Galleon.Mft.Records.{record_bytes, record_serialize-record_bytes}
use prisma_os.Galleon.Mft.Reading.{IsExact, IsPlaced-header}
use prisma_os.Galleon.Mft.Manager.{
  MftManager, Finish, done, fail, halted, endless, cluster_sector, read_record, write_record,
  allocate_record,
}
use prisma_os.Galleon.Mft.Manager.Storing.{IsTable}
use prisma_os.Galleon.Mft.Manager.Table.{read_record-write_record, read_record-write_record_other}
use prisma_os.Galleon.FileRecord.{
  FileRecordManager, manager_create_file, ◌>>=◌, ◌>>◌, journaled, write, return,
}
use prisma_os.Galleon.FileRecord.Filled.{
  filled, filled-number, Fits, attributes_lem, attributes-IsExact, filled-IsFilled, filled_used,
  file_name_bytes,
}
use prisma_os.Galleon.FileRecord.Stored.{IsLaidOut, read_record-manager_create_file}
use prisma_os.Galleon.FileRecord.Examples.Drive.{drive, drive-IsDisk}

abbrev state_of : {S A : Type 0} → Finish S A → S → S
state_of (done s a) other = s
state_of (fail s e) other = s
state_of halted other = other
state_of endless other = other

bind-run :
    {S A B : Type 0} (m : S → Finish S A) (f : A → S → Finish S B) (s t s' : S) (a : A) (b : B)
    → m s ≡ done t a
    → f a t ≡ done s' b
    → (m >>= f) s ≡ done s' b
bind-run m f s t s' a b first rest = rw (◌>>=◌, first) rest

abbrev table : MftManager
table = record { drive = 0; mft_start_cluster = 100; cluster_size = 4096 }

table-IsTable : IsTable table
table-IsTable = record {
  some_records = omega arith;
  fits_buffer = omega arith;
  whole_records = omega arith;
}

abbrev name : List ℕ
name = b'a' ∷ b'.' ∷ b't' ∷ []

abbrev file_data : List ℕ
file_data = 1 ∷ 2 ∷ 3 ∷ 4 ∷ 5 ∷ 6 ∷ 7 ∷ 8 ∷ []

name_size : length (file_name_bytes 16 5 name file_data) ≡ 72
unfolding Name.serialize Name.new le_bytes pad
name_size = refl

fits : Fits 16 5 name file_data
fits = record {
  number_fits = omega arith;
  stays = omega arith;
  groups = omega arith;
  room = omega (arith, name_size);
}

abbrev new_record : MftRecord
new_record = filled 16 5 name file_data

abbrev empty : ℕ → ℕ
empty a = 0

-- The disk after the record was written.
written : (ℕ → ℕ) → ℕ → ℕ
written disk = state_of (write_record drive table new_record disk) disk

write_there : (disk : ℕ → ℕ) → write_record drive table new_record disk ≡ done (written disk) tt
unfolding write_record written
write_there disk =
    let bytes =
      record_serialize-record_bytes new_record (filled-IsFilled 16 5 name file_data fits) in
    rw bytes refl

exact : All IsExact new_record.attributes
exact =
    subst (All IsExact) (sym (attributes_lem 16 5 name file_data))
      (attributes-IsExact 16 5 name file_data fits)

few : length new_record.attributes < 4
few = rw (attributes_lem 16 5 name file_data) (omega arith)

read_record-write_record_example :
    read_record drive 4 table (written empty) new_record.record_number ≡ value new_record
unfolding drive-IsDisk
read_record-write_record_example =
    read_record-write_record drive drive-IsDisk table table-IsTable new_record empty (written empty)
      (write_there empty) 4 (filled-IsFilled 16 5 name file_data fits) exact
      (filled_used 16 5 name file_data fits) few
      (rw (filled-number 16 5 name file_data) (omega arith))

read_record-write_record_other_example :
    read_record drive 4 table (written empty) 17 ≡ read_record drive 4 table empty 17
unfolding drive-IsDisk
read_record-write_record_other_example =
    read_record-write_record_other drive drive-IsDisk table table-IsTable new_record empty
      (written empty) (write_there empty) 4 17
      (IsPlaced-header (filled-IsFilled 16 5 name file_data fits).header)
      (let e = filled-number 16 5 name file_data in omega (arith, e)) (omega arith)
      (rw (filled-number 16 5 name file_data) (omega arith))

abbrev manager : FileRecordManager (ℕ → ℕ)
manager = record {
  mft_manager = table;
  journal = record { manager = Transactions.manager_new 0 2000 64; disk = empty; clock = 0 };
  next_record = 16;
}

-- A log record is not empty, so it can be written.
nonempty : (r : LogRecord) → (length (Journal.serialize r []) == 0) ≡ false
unfolding Journal.serialize
nonempty r =
    let size = length-pad 8 (Journal.fields r []) (omega arith) in
    let more = length-fields r [] in ground arith

abbrev log_disk : LogRecord → Journal (ℕ → ℕ) → ℕ → ℕ
log_disk r j =
    let serialized = Journal.serialize r [] in
    let size = length serialized in
    let count = (size + 511 + 511) / 512 in
    (drive.write_sectors j.disk j.manager.drive (count % 256)
      (record_sector j.manager size r.sequence_number % 2 ^ 32)
      (serialized ++ replicate (count * 512 - size) 0)).0

abbrev advanced : LogRecord → Journal (ℕ → ℕ) → Journal (ℕ → ℕ)
advanced r j = record j {
  disk = log_disk r j;
  manager = record j.manager { current_sequence = add64 j.manager.current_sequence 1 };
}

write_log_record_drive :
    (r : LogRecord) (j : Journal (ℕ → ℕ))
    → write_log_record drive r j ≡ Volume.done (record j { disk = log_disk r j }) tt
unfolding write_log_record
write_log_record_drive r j = rw (nonempty r) refl

write_and_advance_drive :
    (r : LogRecord) (j : Journal (ℕ → ℕ))
    → write_and_advance drive r j ≡ Volume.done (advanced r j) tt
write_and_advance_drive r j = rw (write_and_advance, write_log_record_drive r j) refl

abbrev begun : Journal (ℕ → ℕ)
begun = record manager.journal { manager = (begin_transaction manager.journal.manager).0 }

abbrev log_record : LogRecord
log_record = Journal.new 1 1 create_file 16 [] (record_bytes new_record)

abbrev active_there : List Transaction
active_there = record { id = 1; state = active; records = log_record ∷ []; start_sequence = 1 } ∷ []

abbrev logged : Journal (ℕ → ℕ)
logged = advanced log_record (record begun {
  clock = 1;
  manager = record begun.manager { active_transactions = active_there };
})

log_there :
    log_operation drive 1 create_file 16 [] (record_bytes new_record) begun ≡ Volume.done logged tt
unfolding log_operation begin_transaction Transactions.manager_new add64
log_there = write_and_advance_drive log_record (record begun {
  clock = 1;
  manager = record begun.manager { active_transactions = active_there };
})

abbrev stored : Journal (ℕ → ℕ)
stored = record logged { disk = written logged.disk }

abbrev commit_record : LogRecord
commit_record = Journal.new 2 2 update_metadata 1 [] (b'C' ∷ b'O' ∷ b'M' ∷ b'M' ∷ b'I' ∷ b'T' ∷ [])

abbrev committed_there : List Transaction
committed_there =
    record { id = 1; state = committed; records = log_record ∷ []; start_sequence = 1 } ∷ []

abbrev closed : Journal (ℕ → ℕ)
closed = advanced commit_record (record stored {
  clock = 2;
  manager = record stored.manager { active_transactions = committed_there };
})

commit_there : commit_transaction drive 1 stored ≡ Volume.done closed tt
unfolding commit_transaction begin_transaction Transactions.manager_new add64
commit_there = write_and_advance_drive commit_record (record stored {
  clock = 2;
  manager = record stored.manager { active_transactions = committed_there };
})

abbrev after : FileRecordManager (ℕ → ℕ)
after = record manager { journal = closed; next_record = 17 }

created : manager_create_file drive 4 5 name (some file_data) manager ≡ done after 16
unfolding manager_create_file begin_transaction allocate_record Transactions.manager_new add64
created =
    let bytes =
      record_serialize-record_bytes new_record (filled-IsFilled 16 5 name file_data fits) in
    let rest =
      bind-run (write drive 4 new_record)
        (λ _. journaled drive 4 (commit_transaction drive 1) >> return 16)
        (record manager { journal = logged; next_record = 17 })
        (record manager { journal = stored; next_record = 17 }) after tt 16
        (rw (write, write_there logged.disk) refl)
        (bind-run (journaled drive 4 (commit_transaction drive 1)) (λ _. return 16)
          (record manager { journal = stored; next_record = 17 }) after after tt 16
          (rw (journaled, commit_there) refl) refl) in
    rw bytes (
      bind-run
        (journaled drive 4 (log_operation drive 1 create_file 16 [] (record_bytes new_record))
          >> return new_record)
        (λ r. write drive 4 r >> (journaled drive 4 (commit_transaction drive 1) >> return 16))
        (record manager { journal = begun; next_record = 17 })
        (record manager { journal = logged; next_record = 17 }) after new_record 16
        (bind-run
          (journaled drive 4 (log_operation drive 1 create_file 16 [] (record_bytes new_record)))
          (λ _. return new_record) (record manager { journal = begun; next_record = 17 })
          (record manager { journal = logged; next_record = 17 })
          (record manager { journal = logged; next_record = 17 }) tt new_record
          (rw (journaled, log_there) refl) refl)
        rest)

placed : IsLaidOut drive drive-IsDisk table manager.journal.manager 16
unfolding drive-IsDisk Transactions.manager_new cluster_sector add64 mul64
placed = record {
  table = table-IsTable;
  one_drive = refl;
  reached = omega arith;
  ends = omega arith;
  apart = omega arith;
}

read_record-manager_create_file_example :
    read_record drive 4 after.mft_manager after.journal.disk 16 ≡ value new_record
read_record-manager_create_file_example =
    read_record-manager_create_file drive drive-IsDisk 4 5 16 name file_data manager after fits
      placed (omega arith) created
