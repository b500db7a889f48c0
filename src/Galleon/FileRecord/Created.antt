-- ===== src/Galleon/FileRecord/Created.antt =====
-- The calls that make a file.
use prisma_os.Base.{
  ℕ, ◌≡◌, ◌⊎◌, inl, inr, refl, ◌∙◌, ap, sym, true, List, [], some, length, arith, le→leb, leb,
  subst,
}
use prisma_os.Galleon.Error.{FilesystemError}
use prisma_os.Galleon.Volume.{Ide}
use prisma_os.Galleon.Volume as Volume
use prisma_os.Galleon.Journal.{create_file}
use prisma_os.Galleon.Transactions.{Journal, begin_transaction, log_operation, commit_transaction}
use prisma_os.Galleon.Mft.{MftRecord, add_attribute}
use prisma_os.Galleon.Mft.Records.{record_bytes, record_serialize-record_bytes}
use prisma_os.Galleon.Mft.Manager.{
  Finish, done, fail, halted, endless, allocate_record, write_record,
}
use prisma_os.Galleon.FileRecord.{
  FileRecordManager, manager_create_file, data_attribute, ◌>>=◌, ◌>>◌, add_data, journaled, write,
  return, new_file_record,
}
use prisma_os.Galleon.FileRecord.Filled.{filled, Fits, filled-IsFilled}
use prisma_os.Galleon.FileRecord.Journaled.{Outcome-cases}

pub Finish-cases :
    {S A : Type 0} (o : Finish S A)
    → ((s : S) × (a : A) × (o ≡ done s a))
      ⊎ (((s : S) × (e : FilesystemError) × (o ≡ fail s e)) ⊎ ((o ≡ halted) ⊎ (o ≡ endless)))
Finish-cases (done s a) = inl (s, a, refl)
Finish-cases (fail s e) = inr (inl (s, e, refl))
Finish-cases halted = inr (inr (inl refl))
Finish-cases endless = inr (inr (inr refl))

pub bind-done :
    {S A B : Type 0} (m : S → Finish S A) (f : A → S → Finish S B) (s s' : S) (b : B)
    → (m >>= f) s ≡ done s' b
    → (t : S) × (a : A) × (m s ≡ done t a) × (f a t ≡ done s' b)
bind-done m f s s' b h = elim (Finish-cases (m s)) [
  | inl (t, a, e) ↦ (t, a, e, rw (◌>>=◌, e) at h)
  | inr (inl (t, e, bad)) ↦ ground arith
  | inr (inr (inl bad)) ↦ ground arith
  | inr (inr (inr bad)) ↦ ground arith
]

pub return-done : {S A : Type 0} (a b : A) (s s' : S) → return a s ≡ done s' b → (s ≡ s') × (a ≡ b)
return-done a b s s' h = (cc, cc)

module _ {Disk : Type 0} (device : Ide Disk) (fuel : ℕ) (s s' : FileRecordManager Disk)
    (u : Unit {0}) where
  pub journaled-done :
      (call : Journal Disk → Volume.Outcome (Journal Disk) (Unit {0}))
      → journaled device fuel call s ≡ done s' u
      → (call s.journal ≡ Volume.done s'.journal tt) × (s'.mft_manager ≡ s.mft_manager)
  journaled-done call h = elim (Outcome-cases (call s.journal)) [
    | inl (j, v, e) ↦
        let after : s' ≡ record s { journal = j } = ground arith in
        (e ∙ ap (λ t. Volume.done (t.journal) v) (sym after), ap (λ t. t.mft_manager) after)
    | inr (j, e, bad) ↦ ground arith
  ]

  pub write-done :
      (r : MftRecord)
      → write device fuel r s ≡ done s' u
      → (write_record device s.mft_manager r s.journal.disk ≡ done s'.journal.disk tt)
        × (s'.mft_manager ≡ s.mft_manager)
        × (s'.journal ≡ record s.journal { disk = s'.journal.disk })
  write-done r h = elim (Finish-cases (write_record device s.mft_manager r s.journal.disk)) [
    | inl (d, v, e) ↦
        let after : s' ≡ record s { journal = record s.journal { disk = d } } = ground arith in
        (
          e ∙ ap (λ t. done (t.journal.disk) v) (sym after),
          ap (λ t. t.mft_manager) after,
          ap (λ t. t.journal) after
              ∙ ap (λ t. record s.journal { disk = t.journal.disk }) (sym after),
        )
    | inr (inl (d, e, bad)) ↦ ground arith
    | inr (inr (inl bad)) ↦ ground arith
    | inr (inr (inr bad)) ↦ ground arith
  ]

-- The calls that make a file with data, when each succeeds.
pub record IsCreated {Disk : Type 0} (device : Ide Disk) (parent_directory record_number : ℕ)
    (name file_data : List ℕ) (s s' : FileRecordManager Disk) : Type 0 where
  pub logged : Journal Disk
  pub stored : Disk
  pub log :
      log_operation device
        (begin_transaction s.journal.manager).1
        create_file
        s.next_record
        []
        (record_bytes (filled s.next_record parent_directory name file_data))
        (record s.journal { manager = (begin_transaction s.journal.manager).0 })
      ≡ Volume.done logged tt
  pub put :
      write_record device s.mft_manager
        (filled s.next_record parent_directory name file_data)
        logged.disk
      ≡ done stored tt
  pub close :
      commit_transaction device
        (begin_transaction s.journal.manager).1
        (record logged { disk = stored })
      ≡ Volume.done s'.journal tt
  pub table : s'.mft_manager ≡ s.mft_manager
  pub number : record_number ≡ s.next_record

-- The state in which the calls of a transaction begin.
abbrev begun : {D : Type 0} → FileRecordManager D → FileRecordManager D
begun s = record s {
  journal = record s.journal { manager = (begin_transaction s.journal.manager).0 };
  next_record = (allocate_record s.next_record).0;
}

module _ {Disk : Type 0} (device : Ide Disk) (fuel parent_directory record_number : ℕ)
    (name file_data : List ℕ) (s s' : FileRecordManager Disk) where
  abbrev made : MftRecord
  made = filled s.next_record parent_directory name file_data

  abbrev tid : ℕ
  tid = (begin_transaction s.journal.manager).1

  abbrev log_call : Journal Disk → Volume.Outcome (Journal Disk) (Unit {0})
  log_call = log_operation device tid create_file s.next_record [] (record_bytes made)

  steps-IsCreated :
      (s3 s4 s5 : FileRecordManager Disk) (x u v : Unit {0})
      → journaled device fuel log_call (begun s) ≡ done s3 x
      → write device fuel made s3 ≡ done s4 u
      → journaled device fuel (commit_transaction device tid) s4 ≡ done s5 v
      → return s.next_record s5 ≡ done s' record_number
      → IsCreated device parent_directory record_number name file_data s s'
  steps-IsCreated s3 s4 s5 x u v logged stored closed returned =
      let (log, mft3) = journaled-done device fuel (begun s) s3 x log_call logged in
      let (put, mft4, after) = write-done device fuel s3 s4 u made stored in
      let (committed_there, mft5) =
        journaled-done device fuel s4 s5 v (commit_transaction device tid) closed in
      let (eq5, eqn) = return-done s.next_record record_number s5 s' returned in
      record {
        logged = s3.journal;
        stored = s4.journal.disk;
        log = log;
        put = ap (λ t. write_record device t made s3.journal.disk) (sym mft3) ∙ put;
        close =
            ap (commit_transaction device tid) (sym after)
            ∙ committed_there
            ∙ ap (λ t. Volume.done (t.journal) tt) eq5;
        table = sym (ap (λ t. t.mft_manager) eq5) ∙ mft5 ∙ mft4 ∙ mft3;
        number = sym eqn;
      }

  -- With data, the record is logged and written.
  added-steps :
      (s3 : FileRecordManager Disk) (r : MftRecord)
      → Fits s.next_record parent_directory name file_data
      → add_data device fuel tid s.next_record
          (some file_data)
          (new_file_record s.next_record parent_directory name)
          (begun s)
        ≡ done s3 r
      → (x : Unit {0}) × (journaled device fuel log_call (begun s) ≡ done s3 x) × (made ≡ r)
  added-steps s3 r fits added =
      let small : leb (length file_data) 700 ≡ true = le→leb _ _ fits.stays in
      let bytes =
        record_serialize-record_bytes made
          (filled-IsFilled s.next_record parent_directory name file_data fits) in
      let full =
        add_attribute (data_attribute file_data)
          (new_file_record s.next_record parent_directory name) in
      let same : full ≡ made = rw small refl in
      let added' = rw (same, bytes) at added in
      let (t, x, logged, rest) =
        bind-done (journaled device fuel log_call) (λ _. return made) (begun s) s3 r added' in
      let (eqt, eqr) = return-done made r t s3 rest in
      (x, subst (λ z. journaled device fuel log_call (begun s) ≡ done z x) eqt logged, eqr)

  pub manager_create_file-IsCreated :
      Fits s.next_record parent_directory name file_data
      → manager_create_file device fuel parent_directory name (some file_data) s
        ≡ done s' record_number
      → IsCreated device parent_directory record_number name file_data s s'
  unfolding manager_create_file allocate_record
  manager_create_file-IsCreated fits h =
      let n = s.next_record in
      let close = journaled device fuel (commit_transaction device tid) in
      let (s3, r, added, rest3) =
        bind-done
          (add_data device fuel tid n (some file_data) (new_file_record n parent_directory name))
          (λ r. write device fuel r >> (close >> return n)) (begun s) s' record_number h in
      let (x, logged, same) = added-steps s3 r fits added in
      let (s4, u, stored, rest4) =
        bind-done (write device fuel r) (λ _. close >> return n) s3 s' record_number rest3 in
      let (s5, v, closed, rest5) = bind-done close (λ _. return n) s4 s' record_number rest4 in
      steps-IsCreated s3 s4 s5 x u v logged (ap (λ q. write device fuel q s3) same ∙ stored) closed
        rest5
