-- ===== src/Galleon/FileRecord.antt =====
-- crates/galleon2/src/file_record.rs: the manager of the file records. Its state is the table, the
-- journal with the disk and the counter that stands for the journal's time, and the counter of the
-- table; the files' time is the fixed value of the source. Console output is left out.
pub mod Filled
pub mod Journaled
pub mod Created
pub mod Stored
mod Examples
use prisma_os.Base.{
  ℕ, ◌+◌, ◌*◌, ◌/◌, Bool, true, false, List, [], ◌∷◌, ◌++◌, Option, none, some, leb, ◌==◌,
  if◌then◌else◌, length, replicate,
}
use prisma_os.Base.Bytes.{le_bytes}
use prisma_os.Galleon.Error.{FilesystemError, FilesystemResult, ok, err}
use prisma_os.Galleon.Run.{run}
use prisma_os.Galleon.Volume.{Ide}
use prisma_os.Galleon.Volume as Volume
use prisma_os.Galleon.Journal.{
  OperationType, create_file, create_directory, delete_file, write_data,
}
use prisma_os.Galleon.Transactions.{Journal, begin_transaction, log_operation, commit_transaction}
use prisma_os.Galleon.FileName as Name
use prisma_os.Galleon.FileName.{FileTimes, update_access, update_write}
use prisma_os.Galleon.StandardInformation.{
  StandardInformation, information_new_file, information_new_directory, information_serialize,
  information_deserialize,
}
use prisma_os.Galleon.Mft.{
  AttributeType, standard_information, file_name, plain_data, index_root, type_code, Attribute,
  AttributeData, resident, non_resident, MftRecord, record_new, record_flags_new, get_flags,
  set_flags, new_resident, new_non_resident, add_attribute,
}
use prisma_os.Galleon.Mft.Bytes.{Ends, value, refused, panic, out_of_fuel, record_serialize}
use prisma_os.Galleon.Mft.Manager.{
  MftManager, Finish, done, fail, halted, endless, allocate_record, read_record, write_record,
}

-- `get_current_time`
abbrev pub current_time : ℕ
current_time = 0x01d0000000000000

pub record FileRecordManager (Disk : Type 0) : Type 0 where
  pub mft_manager : MftManager
  pub journal : Journal Disk
  pub next_record : ℕ

-- The `?` operator.
infixl 5 ◌>>=◌ ◌>>◌
abbrev pub ◌>>=◌ : {S A B : Type 0} → (S → Finish S A) → (A → S → Finish S B) → S → Finish S B
◌>>=◌ m f s = elim (m s) [
  | done s' a ↦ f a s'
  | fail s' e ↦ fail s' e
  | halted ↦ halted
  | endless ↦ endless
]

abbrev pub ◌>>◌ : {S B : Type 0} → (S → Finish S (Unit {0})) → (S → Finish S B) → S → Finish S B
◌>>◌ m k = m >>= λ _. k

abbrev pub of_ends : {S A : Type 0} → Ends A → S → Finish S A
of_ends (value a) s = done s a
of_ends (refused e) s = fail s e
of_ends panic s = halted
of_ends out_of_fuel s = endless

abbrev pub return : {S A : Type 0} → A → S → Finish S A
return a s = done s a

-- The new record of a file, with its standard information and its name.
abbrev pub new_file_record : ℕ → ℕ → List ℕ → MftRecord
new_file_record record_number parent_directory name =
    let new = record_new record_number in
    let flags = record record_flags_new { in_use = true } in
    let information = information_serialize (information_new_file current_time) in
    let name_bytes = Name.serialize (Name.new current_time parent_directory name false) in
    add_attribute (new_resident file_name name_bytes) (
      add_attribute (new_resident standard_information information)
        (record new { header = set_flags flags new.header }))

-- The data attribute of a new file.
abbrev pub data_attribute : List ℕ → Attribute
data_attribute file_data =
    if leb (length file_data) 700
    then new_resident plain_data file_data
    else new_non_resident plain_data (run 0 1 ∷ []) (length file_data)

abbrev pub create_empty_index_root : List ℕ
create_empty_index_root =
    (b'I' ∷ b'N' ∷ b'D' ∷ b'X' ∷ []) ++ (le_bytes 4 0 ++ (le_bytes 4 16 ++ le_bytes 4 0))

-- The new record of a directory: its name is no part of it.
abbrev pub new_directory_record : ℕ → MftRecord
new_directory_record record_number =
    let new = record_new record_number in
    let flags = record record_flags_new { in_use = true; is_directory = true } in
    let information = information_serialize (information_new_directory current_time) in
    add_attribute (new_resident index_root create_empty_index_root) (
      add_attribute (new_resident standard_information information)
        (record new { header = set_flags flags new.header }))

-- The change of the times in the first standard information of the attributes.
unfoldable pub update_times :
    (FileTimes → FileTimes) → List Attribute → FilesystemResult (List Attribute)
update_times change [] = ok []
update_times change (a ∷ rest) =
    let others = update_times change rest in
    if a.header.attr_type == type_code standard_information
    then (elim (a.content) [
      | resident bytes ↦ elim (information_deserialize bytes) [
        | ok s ↦
            let changed = information_serialize (record s { times = change s.times }) in
            ok (record a { content = resident changed } ∷ rest)
        | err e ↦ err e
      ]
      | non_resident runs allocated_size real_size initialized_size ↦ ok (a ∷ rest)
    ])
    else (elim others [ ok others' ↦ ok (a ∷ others') | err e ↦ err e ])

-- The data that a write gives to an attribute.
abbrev pub written_data : List ℕ → AttributeData
written_data file_data =
    let size = length file_data in
    if leb size 700
    then resident file_data
    else non_resident (run 0 1 ∷ []) ((size + 4095) / 4096 * 4096) size size

-- The change of the first data attribute; its header stays.
unfoldable pub set_data : List ℕ → List Attribute → List Attribute
set_data file_data [] = []
set_data file_data (a ∷ rest) =
    let others = set_data file_data rest in
    if a.header.attr_type == type_code plain_data
    then record a { content = written_data file_data } ∷ rest
    else a ∷ others

-- The first data attribute.
unfoldable pub find_data : List Attribute → Option AttributeData
find_data [] = none
find_data (a ∷ rest) =
    let others = find_data rest in
    if a.header.attr_type == type_code plain_data then some a.content else others

-- What a file with such an attribute is read as: the runs are not followed.
abbrev pub file_bytes : AttributeData → List ℕ
file_bytes (resident bytes) = bytes
file_bytes (non_resident runs allocated_size real_size initialized_size) = replicate real_size 0

module _ {Disk : Type 0} (device : Ide Disk) (fuel : ℕ) where
  abbrev pub M : Type 0 → Type 0
  M A = FileRecordManager Disk → Finish (FileRecordManager Disk) A

  abbrev pub begin : M ℕ
  begin s =
      let (manager, transaction_id) = begin_transaction s.journal.manager in
      done (record s { journal = record s.journal { manager = manager } }) transaction_id

  abbrev pub allocate : M ℕ
  allocate s =
      let (next_record, record_number) = allocate_record s.next_record in
      done (record s { next_record = next_record }) record_number

  -- A call of the journal.
  abbrev pub journaled : (Journal Disk → Volume.Outcome (Journal Disk) (Unit {0})) → M (Unit {0})
  journaled call s = elim (call s.journal) [
    | Volume.done j u ↦ done (record s { journal = j }) u
    | Volume.fail j e ↦ fail (record s { journal = j }) e
  ]

  abbrev pub read : ℕ → M MftRecord
  read record_number s =
      of_ends (read_record device fuel s.mft_manager s.journal.disk record_number) s

  abbrev pub write : MftRecord → M (Unit {0})
  write r s =
      let with_disk = λ (disk : Disk). record s { journal = record s.journal { disk = disk } } in
      elim (write_record device s.mft_manager r s.journal.disk) [
        | done disk u ↦ done (with_disk disk) u
        | fail disk e ↦ fail (with_disk disk) e
        | halted ↦ halted
        | endless ↦ endless
      ]

  abbrev pub serialized : MftRecord → M (List ℕ)
  serialized r = of_ends (record_serialize r)

  -- Without data there is no data attribute, and nothing is logged.
  abbrev pub add_data : ℕ → ℕ → Option (List ℕ) → MftRecord → M MftRecord
  add_data transaction_id record_number none r = return r
  add_data transaction_id record_number (some file_data) r = do
    let filled = add_attribute (data_attribute file_data) r
    redo_data ← serialized filled
    journaled (log_operation device transaction_id create_file record_number [] redo_data)
    return filled

  unfoldable pub manager_create_file : ℕ → List ℕ → Option (List ℕ) → M ℕ
  manager_create_file parent_directory name file_data = do
    transaction_id ← begin
    record_number ← allocate
    r ←
        add_data transaction_id record_number file_data
          (new_file_record record_number parent_directory name)
    write r
    journaled (commit_transaction device transaction_id)
    return record_number

  unfoldable pub manager_create_directory : M ℕ
  manager_create_directory = do
    transaction_id ← begin
    record_number ← allocate
    let r = new_directory_record record_number
    redo_data ← serialized r
    journaled (log_operation device transaction_id create_directory record_number [] redo_data)
    write r
    journaled (commit_transaction device transaction_id)
    return record_number

  unfoldable pub update_access_time : ℕ → M (Unit {0})
  unfolding update_times
  update_access_time record_number = do
    r ← read record_number
    elim (update_times (update_access current_time) r.attributes) [
      | ok attributes ↦ write (record r { attributes = attributes })
      | err e ↦ λ s. fail s e
    ]

  unfoldable pub read_file : ℕ → M (List ℕ)
  unfolding find_data update_access_time
  read_file record_number = do
    r ← read record_number
    elim (find_data r.attributes) [
      | none ↦ λ s. fail s FilesystemError.invalid_parameter
      | some content ↦ update_access_time record_number >> return (file_bytes content)
    ]

  unfoldable pub write_file : ℕ → List ℕ → M (Unit {0})
  unfolding set_data update_times
  write_file record_number file_data = do
    transaction_id ← begin
    r ← read record_number
    old_record_data ← serialized r
    elim (update_times (update_write current_time) (set_data file_data r.attributes)) [
      | err e ↦ λ s. fail s e
      | ok attributes ↦ do
        let new = record r { attributes = attributes }
        redo_data ← serialized new
        journaled
            (log_operation device transaction_id write_data record_number old_record_data redo_data)
        write new
        journaled (commit_transaction device transaction_id)
    ]

  unfoldable pub manager_delete_file : ℕ → M (Unit {0})
  manager_delete_file record_number = do
    transaction_id ← begin
    r ← read record_number
    old_record_data ← serialized r
    let flags = record (get_flags r.header) { in_use = false }
    let new = record r { header = set_flags flags r.header }
    redo_data ← serialized new
    journaled
        (log_operation device transaction_id delete_file record_number old_record_data redo_data)
    write new
    journaled (commit_transaction device transaction_id)
