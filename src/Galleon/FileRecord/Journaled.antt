-- ===== src/Galleon/FileRecord/Journaled.antt =====
-- The journal writes nothing before its first sector.
use prisma_os.Base.{
  ℕ, ◌+◌, ◌*◌, ◌-◌, ◌/◌, ◌%◌, ◌^◌, ◌≤◌, ◌<◌, ◌≡◌, ◌⊎◌, inl, inr, refl, max, List, [], ◌∷◌, ◌++◌,
  ◌&&◌, Bool-cases, Option-cases, length, arith, replicate, ltb,
}
use prisma_os.Base.Words.{add64, mul64}
use prisma_os.Galleon.Error.{FilesystemError}
use prisma_os.Galleon.Volume.{Ide, Outcome, done, fail}
use prisma_os.Galleon.Journal.{LogRecord, OperationType, serialize, new, update_metadata, fields}
use prisma_os.Galleon.Transactions.{
  JournalManager, Journal, record_sector, write_log_record, log_operation, commit_transaction,
  update_first, Transaction, write_and_advance, has_id, is_active, add_record, commit,
  close_transaction,
}
use prisma_os.Galleon.Mft.Manager.Storing.{IsDisk}
use prisma_os.Galleon.Journal.Padding.{length-pad}
use prisma_os.Galleon.Journal.Encoding.{length-fields}

-- The journal ends inside a drive of so many sectors, before the last 256 of them: a record that is
-- written to its last sector goes beyond it.
abbrev pub EndsInside : ℕ → JournalManager → Type 0
EndsInside capacity m = m.journal_start_sector + m.journal_size_sectors + 256 ≤ capacity

slot_bound : (js rs q : ℕ) → 0 < js * 512 / rs → q % (js * 512 / rs) * rs ≤ js * 512
slot_bound js rs q h =
    let slots = js * 512 / rs in
    let below : q % slots < slots = grind arith in
    let all : slots * rs ≤ js * 512 = grind arith in
    let part : q % slots * rs ≤ slots * rs = grind arith in omega arith

record_sector_bounds :
    (m : JournalManager) (size sequence_number : ℕ)
    → EndsInside (2 ^ 28) m
    → (m.journal_start_sector ≤ record_sector m size sequence_number)
      × (record_sector m size sequence_number ≤ m.journal_start_sector + m.journal_size_sectors)
unfolding record_sector add64 mul64
record_sector_bounds m size sequence_number h =
    let js = m.journal_size_sectors in
    let rs = max size 64 in
    let slots = js * 512 / rs in
    let whole : js * 512 % 2 ^ 64 ≡ js * 512 = omega arith in
    elim (Bool-cases (ltb 0 slots)) [
      | inl some_slots ↦
          let bound = slot_bound js rs sequence_number (ground arith) in
          let e : sequence_number % slots * rs % 2 ^ 64 ≡ sequence_number % slots * rs =
            omega arith in
          rw (whole, some_slots, e) (omega arith, omega arith)
      | inr no_slot ↦ rw (whole, no_slot) (omega arith, omega arith)
    ]

serialize_bounds :
    (r : LogRecord)
    → (44 ≤ length (serialize r []))
      × (length (serialize r []) ≤ 51 + length r.undo_data + length r.redo_data)
unfolding serialize
serialize_bounds r =
    let size = length-fields r [] in
    let padded = length-pad 8 (fields r []) (omega arith) in (omega arith, omega arith)

-- What a step of the journal keeps: where it lies, and what is read before it.
pub record Keeps {Disk : Type 0} (device : Ide Disk) (j j' : Journal Disk) : Type 0 where
  pub drive : j'.manager.drive ≡ j.manager.drive
  pub start : j'.manager.journal_start_sector ≡ j.manager.journal_start_sector
  pub size : j'.manager.journal_size_sectors ≡ j.manager.journal_size_sectors
  pub reads :
      (count sector : ℕ)
      → sector + count ≤ j.manager.journal_start_sector
      → device.read_sectors j'.disk j.manager.drive count sector
        ≡ device.read_sectors j.disk j.manager.drive count sector

pub Outcome-cases :
    {S A : Type 0} (o : Outcome S A)
    → ((s : S) × (a : A) × (o ≡ done s a)) ⊎ ((s : S) × (e : FilesystemError) × (o ≡ fail s e))
Outcome-cases (done s a) = inl (s, a, refl)
Outcome-cases (fail s e) = inr (s, e, refl)

module _ {Disk : Type 0} (device : Ide Disk) (law : IsDisk device) where
  write_log_record-Keeps :
      (r : LogRecord) (j j' : Journal Disk)
      → length r.undo_data + length r.redo_data ≤ 65536
      → EndsInside (law.capacity j.manager.drive) j.manager
      → write_log_record device r j ≡ done j' tt
      → Keeps device j j'
  unfolding write_log_record
  write_log_record-Keeps r j j' few ends h =
      let serialized = serialize r [] in
      let size = length serialized in
      let sectors_needed = (size + 511 + 511) / 512 in
      let sector = record_sector j.manager size r.sequence_number in
      let sector_data = serialized ++ replicate (sectors_needed * 512 - size) 0 in
      let w =
        device.write_sectors j.disk j.manager.drive (sectors_needed % 256) (sector % 2 ^ 32)
          sector_data in
      elim (Option-cases (w.1)) [
        | inr (e, bad) ↦ ground arith
        | inl ok_there ↦
            let after : j' ≡ record j { disk = w.0 } = ground arith in
            let (low, high) =
              record_sector_bounds j.manager size r.sequence_number
                (omega (arith, ends, law.capacity_small j.manager.drive)) in
            let (some_bytes, few_bytes) = serialize_bounds r in
            rw after (record {
              drive = refl;
              start = refl;
              size = refl;
              reads = λ other_count other below.
                  law.read_other j.disk j.manager.drive (sectors_needed % 256) (sector % 2 ^ 32)
                    sector_data other_count other (omega arith) (omega arith) (omega arith)
                    (inl (omega arith));
            })
      ]

  write_and_advance-Keeps :
      (r : LogRecord) (j j' : Journal Disk)
      → length r.undo_data + length r.redo_data ≤ 65536
      → EndsInside (law.capacity j.manager.drive) j.manager
      → write_and_advance device r j ≡ done j' tt
      → Keeps device j j'
  write_and_advance-Keeps r j j' few ends h = elim (Outcome-cases (write_log_record device r j)) [
    | inl (k, tt, e) ↦
        let kept = write_log_record-Keeps r j k few ends e in
        let after : j' ≡ record k {
          manager = record k.manager { current_sequence = add64 k.manager.current_sequence 1 };
        } =
          ground arith in
        rw after
          (record { drive = kept.drive; start = kept.start; size = kept.size; reads = kept.reads })
    | inr (k, e, bad) ↦ ground arith
  ]

  changed-Keeps :
      (r : LogRecord) (ts : List Transaction) (now : ℕ) (j j' : Journal Disk)
      → length r.undo_data + length r.redo_data ≤ 65536
      → EndsInside (law.capacity j.manager.drive) j.manager
      → write_and_advance device r
          (record j { clock = now; manager = record j.manager { active_transactions = ts } })
        ≡ done j' tt
      → Keeps device j j'
  changed-Keeps r ts now j j' few ends h =
      let kept =
        write_and_advance-Keeps r
          (record j { clock = now; manager = record j.manager { active_transactions = ts } }) j' few
          ends h in
      record { drive = kept.drive; start = kept.start; size = kept.size; reads = kept.reads }

  -- A call of the journal that succeeds keeps what stands before it.
  pub log_operation-Keeps :
      (transaction_id : ℕ) (operation : OperationType) (target : ℕ) (undo redo : List ℕ)
      (j j' : Journal Disk)
      → length undo + length redo ≤ 65536
      → EndsInside (law.capacity j.manager.drive) j.manager
      → log_operation device transaction_id operation target undo redo j ≡ done j' tt
      → Keeps device j j'
  unfolding log_operation new
  log_operation-Keeps transaction_id operation target undo redo j j' few ends h =
      let now = add64 j.clock 1 in
      let r = new now j.manager.current_sequence operation target undo redo in
      let found =
        update_first (λ t. has_id transaction_id t && is_active t.state) (add_record r)
          j.manager.active_transactions in
      elim (Option-cases found) [
        | inl missing ↦ ground arith
        | inr (ts, e) ↦ changed-Keeps r ts now j j' few ends (rw (log_operation, e) at h)
      ]

  pub commit_transaction-Keeps :
      (transaction_id : ℕ) (j j' : Journal Disk)
      → EndsInside (law.capacity j.manager.drive) j.manager
      → commit_transaction device transaction_id j ≡ done j' tt
      → Keeps device j j'
  unfolding commit_transaction new
  commit_transaction-Keeps transaction_id j j' ends h =
      let now = add64 j.clock 1 in
      let marker : List ℕ = b'C' ∷ b'O' ∷ b'M' ∷ b'M' ∷ b'I' ∷ b'T' ∷ [] in
      let r = new now j.manager.current_sequence update_metadata transaction_id [] marker in
      let call : close_transaction device commit marker transaction_id j ≡ done j' tt = h in
      elim (Option-cases
        (update_first (has_id transaction_id) commit j.manager.active_transactions)) [
          | inl missing ↦ ground arith
          | inr (ts, e) ↦
              changed-Keeps r ts now j j' (omega arith) ends (rw (close_transaction, e) at call)
        ]
