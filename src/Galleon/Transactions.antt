-- ===== src/Galleon/Transactions.antt =====
-- crates/galleon2/src/journal.rs: transactions and the journal manager; Recovery has
-- `recover`.
pub mod Order
pub mod Closed
pub mod Places
pub mod Recovery
use prisma_os.Base.{
  ℕ, ◌+◌, ◌*◌, ◌-◌, ◌/◌, ◌%◌, ◌<◌, ◌≤◌, ◌^◌, ◌≡◌, Bool, true, false, List, [], ◌∷◌, ◌++◌, Option,
  none, some, ltb, if◌then◌else◌, length, ◌==◌, ◌&&◌, max, replicate,
}
use prisma_os.Base.Words.{add64, mul64}
use prisma_os.Galleon.Error.{FilesystemError, from_ide}
use prisma_os.Galleon.Volume.{Ide, Outcome, done, fail}
use prisma_os.Galleon.Journal.{LogRecord, OperationType, update_metadata, new, serialize}

pub data TransactionState : Type 0 where
  active committed aborted : TransactionState

pub record Transaction : Type 0 where
  pub id : ℕ
  pub state : TransactionState
  pub records : List LogRecord
  pub start_sequence : ℕ

abbrev pub is_active : TransactionState → Bool
is_active active = true
is_active committed = false
is_active aborted = false

abbrev pub add_record : LogRecord → Transaction → Transaction
add_record r t = if is_active t.state then record t { records = t.records ++ (r ∷ []) } else t

abbrev pub commit : Transaction → Transaction
commit t = record t { state = committed }

abbrev pub abort : Transaction → Transaction
abort t = record t { state = aborted }

pub record JournalManager : Type 0 where
  pub drive : ℕ
  pub journal_start_sector : ℕ
  pub journal_size_sectors : ℕ
  pub current_sequence : ℕ
  pub active_transactions : List Transaction
  pub next_transaction_id : ℕ

-- The manager, the disk behind the driver, and the counter that stands for the time.
pub record Journal (Disk : Type 0) : Type 0 where
  pub manager : JournalManager
  pub disk : Disk
  pub clock : ℕ

unfoldable pub manager_new : ℕ → ℕ → ℕ → JournalManager
manager_new drive journal_start_sector journal_size_sectors = record {
  drive = drive;
  journal_start_sector = journal_start_sector;
  journal_size_sectors = journal_size_sectors;
  current_sequence = 1;
  active_transactions = [];
  next_transaction_id = 1;
}

unfoldable pub begin_transaction : JournalManager → JournalManager × ℕ
begin_transaction m =
    let t : Transaction = record {
      id = m.next_transaction_id;
      state = active;
      records = [];
      start_sequence = m.current_sequence;
    } in
    (
      record m {
        next_transaction_id = add64 m.next_transaction_id 1;
        active_transactions = m.active_transactions ++ (t ∷ []);
      },
      m.next_transaction_id,
    )

-- `iter_mut().find(test)`, and the change of what it finds.
unfoldable pub update_first :
    (Transaction → Bool)
    → (Transaction → Transaction)
    → List Transaction
    → Option (List Transaction)
update_first test change [] = none
update_first test change (t ∷ ts) =
    let rest = update_first test change ts in
    if test t then some (change t ∷ ts) else elim rest [ none ↦ none | some us ↦ some (t ∷ us) ]

abbrev pub has_id : ℕ → Transaction → Bool
has_id n t = t.id == n

-- The sector of a record of `size` bytes with the sequence number.
unfoldable pub record_sector : JournalManager → ℕ → ℕ → ℕ
record_sector m size sequence_number =
    let record_size = max size 64 in
    let max_records = mul64 m.journal_size_sectors 512 / record_size in
    let journal_offset =
      if ltb 0 max_records then mul64 (sequence_number % max_records) record_size / 512 else 0 in
    add64 m.journal_start_sector journal_offset

-- `retain` of the active transactions.
unfoldable pub retain_active : List Transaction → List Transaction
retain_active [] = []
retain_active (t ∷ ts) = let rest = retain_active ts in if is_active t.state then t ∷ rest else rest

unfoldable pub cleanup_completed_transactions : JournalManager → JournalManager
unfolding retain_active
cleanup_completed_transactions m = record m {
  active_transactions = retain_active m.active_transactions;
}

module _ {Disk : Type 0} (device : Ide Disk) where
  unfoldable pub write_log_record : LogRecord → Journal Disk → Outcome (Journal Disk) (Unit {0})
  unfolding record_sector
  write_log_record r j =
      let serialized = serialize r [] in
      let size = length serialized in
      let sectors_needed = (size + 511 + 511) / 512 in
      let sector = record_sector j.manager size r.sequence_number in
      let sector_data = serialized ++ replicate (sectors_needed * 512 - size) 0 in
      let written =
        device.write_sectors j.disk j.manager.drive (sectors_needed % 256) (sector % 2 ^ 32)
          sector_data in
      if size == 0 then fail j FilesystemError.invalid_parameter else elim (written.1) [
        | none ↦ done (record j { disk = written.0 }) tt
        | some e ↦ fail (record j { disk = written.0 }) (from_ide e)
      ]

  -- The end of the operations that write: the record is written, and then the sequence advances.
  abbrev pub write_and_advance : LogRecord → Journal Disk → Outcome (Journal Disk) (Unit {0})
  write_and_advance r j = elim (write_log_record r j) [
    | done k u ↦
        done
          (record k {
            manager = record k.manager { current_sequence = add64 k.manager.current_sequence 1 };
          })
          u
    | fail k e ↦ fail k e
  ]

  unfoldable pub log_operation :
      ℕ → OperationType → ℕ → List ℕ → List ℕ → Journal Disk → Outcome (Journal Disk) (Unit {0})
  unfolding update_first write_log_record
  log_operation transaction_id operation_type target_file_record undo_data redo_data j =
      let now = add64 j.clock 1 in
      let r =
        new now j.manager.current_sequence operation_type target_file_record undo_data redo_data in
      let found =
        update_first (λ t. has_id transaction_id t && is_active t.state) (add_record r)
          j.manager.active_transactions in
      elim found [
        | none ↦ fail (record j { clock = now }) FilesystemError.invalid_parameter
        | some ts ↦
            write_and_advance r
              (record j { clock = now; manager = record j.manager { active_transactions = ts } })
      ]

  -- What `commit_transaction` and `abort_transaction` share: the change of the transaction's state
  -- and the marker that is written.
  abbrev pub close_transaction :
      (Transaction → Transaction) → List ℕ → ℕ → Journal Disk → Outcome (Journal Disk) (Unit {0})
  close_transaction change marker transaction_id j =
      let now = add64 j.clock 1 in
      let r = new now j.manager.current_sequence update_metadata transaction_id [] marker in
      elim (update_first (has_id transaction_id) change j.manager.active_transactions) [
        | none ↦ fail j FilesystemError.invalid_parameter
        | some ts ↦
            write_and_advance r
              (record j { clock = now; manager = record j.manager { active_transactions = ts } })
      ]

  unfoldable pub commit_transaction : ℕ → Journal Disk → Outcome (Journal Disk) (Unit {0})
  unfolding update_first write_log_record
  commit_transaction = close_transaction commit (b'C' ∷ b'O' ∷ b'M' ∷ b'M' ∷ b'I' ∷ b'T' ∷ [])

  -- `apply_undo` does nothing and succeeds, so undoing the records changes nothing.
  unfoldable pub abort_transaction : ℕ → Journal Disk → Outcome (Journal Disk) (Unit {0})
  unfolding update_first write_log_record
  abort_transaction = close_transaction abort (b'A' ∷ b'B' ∷ b'O' ∷ b'R' ∷ b'T' ∷ [])
