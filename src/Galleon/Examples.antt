-- ===== src/Galleon/Examples.antt =====
-- Theorems of the superblock and the journal at concrete inputs.
use prisma_os.Base.{
  true, ℕ, ◌+◌, ◌≡◌, refl, [], ◌∷◌, ◌++◌, none, arith, List, length, replicate, ap, sym, ◌∙◌, some,
  ◌⊎◌, ◌<◌,
}
use prisma_os.Base.Words.{add64}
use prisma_os.Base.Bytes.{le_bytes}
use prisma_os.Galleon.Error.{FilesystemError, ok, IdeError, from_ide}
use prisma_os.Galleon.Volume.{Ide, bytes, fail, Read, failed, done}
use prisma_os.Galleon.SuperBlock
use prisma_os.Galleon.SuperBlock.{
  SuperBlock, IsSuperBlock, is_valid, as_sector, from_sector, allocate_blocks, deallocate_blocks,
  set_free_block_count,
}
use prisma_os.Galleon.SuperBlock.Laws.{new-IsSuperBlock}
use prisma_os.Galleon.Journal.{
  LogRecord, write_data, new, calculate_checksum, serialize, deserialize, IsLogRecord, pad,
}
use prisma_os.Galleon.Journal.Encoding.{deserialize-serialize_append}
use prisma_os.Galleon.Transactions.{
  Journal, manager_new, begin_transaction, log_operation, commit_transaction, record_sector,
}
use prisma_os.Galleon.Transactions.Order.{IsJournal, journal_after}
use prisma_os.Galleon.Transactions.Closed.{log_operation-commit_transaction}
use prisma_os.Galleon.Transactions.Places.{record_sector_shared}
use prisma_os.Galleon.Transactions.Recovery.{recover, read_journal_sector, recover_lem}

abbrev logged : LogRecord
logged = new 1 7 write_data 5 (1 ∷ 2 ∷ []) (3 ∷ [])

logged-IsLogRecord : IsLogRecord logged
unfolding new calculate_checksum
logged-IsLogRecord = record {
  sequence_fits = omega arith;
  target_fits = omega arith;
  undo_fits = omega arith;
  redo_fits = omega arith;
  checksum_fits = omega arith;
  timestamp_fits = omega arith;
  verified = refl;
}

deserialize-serialize_append_example : deserialize (serialize logged [] ++ (9 ∷ 9 ∷ [])) ≡ ok logged
deserialize-serialize_append_example =
    deserialize-serialize_append logged (9 ∷ 9 ∷ []) logged-IsLogRecord

-- A device that counts the writes.
abbrev device : Ide ℕ
device = record {
  read_sectors = λ disk drive count sector. bytes [];
  write_sectors = λ disk drive count sector sector_data. (disk + 1, none);
}

-- A journal of 64 sectors with one transaction.
abbrev begun : Journal ℕ
begun = record { manager = (begin_transaction (manager_new 0 1000 64)).0; disk = 0; clock = 0 }

begun-IsJournal : IsJournal begun
unfolding begin_transaction manager_new add64
begun-IsJournal = (omega arith, omega arith)

abbrev closed : Journal ℕ
closed = journal_after (commit_transaction device 1 begun)

log_operation-commit_transaction_example :
    log_operation device 1 write_data 5 [] (3 ∷ []) closed
    ≡ fail (record closed { clock = add64 closed.clock 1 }) FilesystemError.invalid_parameter
unfolding commit_transaction begin_transaction manager_new add64 serialize le_bytes new
log_operation-commit_transaction_example =
    log_operation-commit_transaction device 1 write_data 5 [] (3 ∷ []) begun closed begun-IsJournal
      refl

record_sector_shared_example :
    record_sector begun.manager 56 1 ≡ record_sector begun.manager 64 (1 + 1)
unfolding begin_transaction manager_new
record_sector_shared_example =
    record_sector_shared begun.manager 56 64 1 (omega arith) (omega arith) (omega arith)
      (omega arith) (omega arith)

-- A volume of a thousand blocks.
abbrev fresh_block : SuperBlock
fresh_block = SuperBlock.new 4096 1000 1

fresh_block-IsSuperBlock : IsSuperBlock fresh_block × (is_valid (as_sector fresh_block) ≡ true)
fresh_block-IsSuperBlock = new-IsSuperBlock 4096 1000 1 (omega arith) (omega arith) (omega arith)

-- A drive whose sectors all hold one log record, and zeros.
abbrev record_sector_data : List ℕ
record_sector_data = serialize logged [] ++ replicate 464 0

abbrev full_of_records : Ide ℕ
full_of_records = record {
  read_sectors = λ disk drive count sector. bytes record_sector_data;
  write_sectors = λ disk drive count sector sector_data. (disk + 1, none);
}

record_sector_data-length : length record_sector_data ≡ 512
unfolding serialize pad new le_bytes
record_sector_data-length = refl

bytes_of : Read → List ℕ
bytes_of (bytes sector_data) = sector_data
bytes_of (failed e) = []

read_there :
    (sector : ℕ) (sector_data : List ℕ)
    → read_journal_sector full_of_records begun sector ≡ bytes sector_data
    → length sector_data ≡ 512
unfolding read_journal_sector bytes_of
read_there sector sector_data h = ap length (sym (ap bytes_of h)) ∙ record_sector_data-length

recover_example :
    (recover full_of_records 11 begun ≡ some (done begun tt))
    ⊎ ((sector : ℕ) × (e : IdeError) × ((sector < begun.manager.journal_size_sectors)
          × (read_journal_sector full_of_records begun sector ≡ failed e)
          × (recover full_of_records 11 begun ≡ some (fail begun (from_ide e)))))
recover_example = recover_lem full_of_records 11 begun (omega arith) read_there
