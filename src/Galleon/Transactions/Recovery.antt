-- ===== src/Galleon/Transactions/Recovery.antt =====
-- crates/galleon2/src/journal.rs: `recover` and what it calls.
use prisma_os.Base.{
  ℕ, zero, suc, ◌+◌, ◌*◌, ◌%◌, ◌<◌, ◌≤◌, ◌^◌, ◌≡◌, refl, Bool, true, false, List, [], Option, none,
  some, drop, ltb, if◌then◌else◌, length, ◌⊎◌, inl, inr, arith,
}
use prisma_os.Base.Words.{add64}
use prisma_os.Base.Bytes.{same_bytes}
use prisma_os.Base.Fields.{slice_at}
use prisma_os.Galleon.Error.{IdeError, ok, err, from_ide}
use prisma_os.Galleon.Volume.{Ide, Read, bytes, failed, Outcome, done, fail}
use prisma_os.Galleon.Journal.{LogRecord, signature, serialize, deserialize, fields}
use prisma_os.Galleon.Journal.Padding.{length-pad}
use prisma_os.Galleon.Journal.Encoding.{length-fields}
use prisma_os.Galleon.Transactions.{Journal}

-- The source says that both wait to be written.
abbrev apply_undo : {Disk : Type 0} → LogRecord → Journal Disk → Outcome (Journal Disk) (Unit {0})
apply_undo r j = done j tt

abbrev is_transaction_committed : ℕ → Bool
is_transaction_committed transaction_id = true

-- The record that the loop over a sector finds at the offset, if it goes on.
unfoldable pub record_at : List ℕ → ℕ → Option LogRecord
record_at sector_data offset =
    if ltb (length sector_data) (offset + 48)
    then none
    else if same_bytes (slice_at sector_data offset 4) signature
    then (elim (deserialize (drop offset sector_data)) [ ok r ↦ some r | err e ↦ none ])
    else none

-- The records of one sector; `none` is the end of the fuel.
unfoldable recover_records :
    {Disk : Type 0} → ℕ → List ℕ → ℕ → Journal Disk → Option (Outcome (Journal Disk) (Unit {0}))
recover_records zero sector_data offset j = none
recover_records (suc n) sector_data offset j = elim (record_at sector_data offset) [
  | none ↦ some (done j tt)
  | some r ↦
      elim (if is_transaction_committed r.target_file_record then done j tt else apply_undo r j) [
        | done k u ↦ recover_records n sector_data (offset + length (serialize r [])) k
        | fail k e ↦ some (fail k e)
      ]
]

module _ {Disk : Type 0} (device : Ide Disk) where
  unfoldable pub read_journal_sector : Journal Disk → ℕ → Read
  read_journal_sector j sector_offset =
      device.read_sectors j.disk j.manager.drive 1
        (add64 j.manager.journal_start_sector sector_offset % 2 ^ 32)

  -- The sectors from the current one, of which `count` are left.
  unfoldable recover_sectors : ℕ → ℕ → ℕ → Journal Disk → Option (Outcome (Journal Disk) (Unit {0}))
  unfolding recover_records
  recover_sectors fuel zero current_sector j = some (done j tt)
  recover_sectors fuel (suc count) current_sector j = elim (read_journal_sector j current_sector) [
    | failed e ↦ some (fail j (from_ide e))
    | bytes sector_data ↦ elim (recover_records fuel sector_data 0 j) [
      | none ↦ none
      | some (fail k e) ↦ some (fail k e)
      | some (done k u) ↦ recover_sectors fuel count (current_sector + 1) k
    ]
  ]

  unfoldable pub recover : ℕ → Journal Disk → Option (Outcome (Journal Disk) (Unit {0}))
  unfolding recover_sectors
  recover fuel j = recover_sectors fuel j.manager.journal_size_sectors 0 j

-- The bytes of a record are more than its header, so the loop over a sector moves on.
serialize-length : (r : LogRecord) → 48 ≤ length (serialize r [])
unfolding serialize
serialize-length r =
    let size = length-fields r [] in
    let padded = length-pad 8 (fields r []) (omega arith) in omega arith

found_inside :
    (sector_data : List ℕ) (offset : ℕ)
    → (record_at sector_data offset ≡ none)
      ⊎ ((r : LogRecord) × (record_at sector_data offset ≡ some r)
          × (offset + 48 ≤ length sector_data))
unfolding record_at
found_inside sector_data offset =
    go (ltb (length sector_data) (offset + 48)) (record_at sector_data offset) refl refl
  where
    go :
        (short : Bool) (found : Option LogRecord)
        → ltb (length sector_data) (offset + 48) ≡ short
        → record_at sector_data offset ≡ found
        → (record_at sector_data offset ≡ none)
          ⊎ ((r : LogRecord) × (record_at sector_data offset ≡ some r)
              × (offset + 48 ≤ length sector_data))
    go true found e e' = inl (rw e refl)
    go false none e e' = inl e'
    go false (some r) e e' = inr (r, e', ground arith)

-- A round for every 48 bytes of the sector and one more are enough.
recover_records_ends :
    {Disk : Type 0}
    → (n : ℕ) (sector_data : List ℕ) (offset : ℕ) (j : Journal Disk)
    → length sector_data < offset + 48 * suc n
    → recover_records (suc n) sector_data offset j ≡ some (done j tt)
unfolding recover_records
recover_records_ends zero sector_data offset j h = elim (found_inside sector_data offset) [
  | inl e ↦ rw (e, recover_records) refl
  | inr (r, e, inside) ↦ absurd (omega arith)
]
recover_records_ends (suc m) sector_data offset j h = elim (found_inside sector_data offset) [
  | inl e ↦ rw (e, recover_records) refl
  | inr (r, e, inside) ↦
      let next = offset + length (serialize r []) in
      rw (e, recover_records)
        (recover_records_ends m sector_data next j (omega (arith, serialize-length r)))
]

module _ {Disk : Type 0} (device : Ide Disk) where
  -- What recovering from the sector comes to: it ends and leaves everything as it was, or one of
  -- the sectors cannot be read.
  abbrev Recovered : ℕ → ℕ → ℕ → Journal Disk → Type 0
  Recovered fuel count first j =
      (recover_sectors device fuel count first j ≡ some (done j tt))
      ⊎ ((sector : ℕ) × (e : IdeError) × ((first ≤ sector)
            × (sector < first + count)
            × (read_journal_sector device j sector ≡ failed e)
            × (recover_sectors device fuel count first j ≡ some (fail j (from_ide e)))))

  recover_sectors_lem :
      (fuel count first : ℕ) (j : Journal Disk)
      → 11 ≤ fuel
      → ((sector : ℕ) (sector_data : List ℕ)
          → read_journal_sector device j sector ≡ bytes sector_data
          → length sector_data ≡ 512)
      → Recovered fuel count first j
  unfolding recover_sectors
  recover_sectors_lem fuel zero first j enough whole = inl refl
  recover_sectors_lem (suc fuel) (suc count) first j enough whole =
      go (read_journal_sector device j first) refl
        (recover_sectors_lem (suc fuel) count (first + 1) j enough whole)
    where
      go :
          (found : Read)
          → read_journal_sector device j first ≡ found
          → Recovered (suc fuel) count (first + 1) j
          → Recovered (suc fuel) (suc count) first j
      go (failed e) read rest =
          inr (first, e, (omega arith, omega arith, read, rw (read, recover_sectors) refl))
      go (bytes sector_data) read rest =
          let size = whole first sector_data read in
          let ended = recover_records_ends fuel sector_data 0 j (omega arith) in
          elim rest [
            | inl e ↦ inl (rw (read, ended, recover_sectors) e)
            | inr (sector, e, (low, high, at, failed_there)) ↦ inr (
              sector,
              e,
              (omega arith, omega arith, at, rw (read, ended, recover_sectors) failed_there),
            )
          ]
  recover_sectors_lem zero (suc count) first j enough whole = absurd (omega arith)

  -- When a read of a sector gives 512 bytes, recovery with at least eleven rounds for each sector
  -- ends, whatever the journal holds: with the manager and the disk as they were, or with the error
  -- of a sector of the journal that cannot be read.
  pub recover_lem :
      (fuel : ℕ) (j : Journal Disk)
      → 11 ≤ fuel
      → ((sector : ℕ) (sector_data : List ℕ)
          → read_journal_sector device j sector ≡ bytes sector_data
          → length sector_data ≡ 512)
      → (recover device fuel j ≡ some (done j tt))
        ⊎ ((sector : ℕ) × (e : IdeError) × ((sector < j.manager.journal_size_sectors)
              × (read_journal_sector device j sector ≡ failed e)
              × (recover device fuel j ≡ some (fail j (from_ide e)))))
  unfolding recover
  recover_lem fuel j enough whole =
      elim (recover_sectors_lem fuel j.manager.journal_size_sectors 0 j enough whole) [
        | inl e ↦ inl e
        | inr (sector, e, (low, high, at, failed_there)) ↦
            inr (sector, e, (omega arith, at, failed_there))
      ]
