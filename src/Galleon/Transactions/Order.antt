-- ===== src/Galleon/Transactions/Order.antt =====
-- Transactions keep their order and their numbers apart.
use prisma_os.Base.{
  ℕ, ◌+◌, ◌<◌, ◌≤◌, ◌^◌, ◌≡◌, refl, Bool, true, false, List, [], ◌∷◌, ◌++◌, Option, none, some,
  if◌then◌else◌, ◌&&◌, arith, subst,
}
use prisma_os.Base.Words.{add64, add64_lem}
use prisma_os.Galleon.Volume.{Ide, Outcome, done, fail}
use prisma_os.Galleon.Journal.{LogRecord, OperationType, new}
use prisma_os.Galleon.Transactions.{
  Transaction, is_active, add_record, commit, abort, Journal, begin_transaction, update_first,
  has_id, retain_active, cleanup_completed_transactions, write_log_record, write_and_advance,
  log_operation, commit_transaction, abort_transaction, close_transaction,
}

-- The numbers of the transactions grow from `low` on and stay below the next one.
abbrev pub Ascending : ℕ → List Transaction → ℕ → Type 0
Ascending low [] next = low ≤ next
Ascending low (t ∷ ts) next = (low ≤ t.id) × Ascending (t.id + 1) ts next

Ascending-append :
    (low next : ℕ) (ts : List Transaction) (t : Transaction)
    → t.id ≡ next
    → Ascending low ts next
    → Ascending low (ts ++ (t ∷ [])) (next + 1)
Ascending-append low next [] t e h = (omega arith, omega arith)
Ascending-append low next (s ∷ ts) t e h = (h.0, Ascending-append (s.id + 1) next ts t e h.1)

Ascending-weaken :
    (low high next : ℕ) (ts : List Transaction)
    → low ≤ high
    → Ascending high ts next
    → Ascending low ts next
Ascending-weaken low high next [] h a = omega arith
Ascending-weaken low high next (t ∷ ts) h a = (omega (arith, a.0), a.1)

Ascending-retain_active :
    (low next : ℕ) (ts : List Transaction)
    → Ascending low ts next
    → Ascending low (retain_active ts) next
unfolding retain_active
Ascending-retain_active low next [] a = a
Ascending-retain_active low next (t ∷ ts) a =
    let rest = Ascending-retain_active (t.id + 1) next ts a.1 in
    elim (is_active t.state)
      as (λ b. Ascending low (if b then t ∷ retain_active ts else retain_active ts) next) [
        | true ↦ (a.0, rest)
        | false ↦ Ascending-weaken low (t.id + 1) next (retain_active ts) (omega (arith, a.0)) rest
      ]

Ascending-update_first :
    (test : Transaction → Bool) (change : Transaction → Transaction) (low next : ℕ)
    (ts us : List Transaction)
    → ((t : Transaction) → (change t).id ≡ t.id)
    → update_first test change ts ≡ some us
    → Ascending low ts next
    → Ascending low us next
unfolding update_first
Ascending-update_first test change low next [] us same e a = cc
Ascending-update_first test change low next (t ∷ ts) us same e a =
    go (test t) (update_first test change ts)
      (λ vs h. Ascending-update_first test change (t.id + 1) next ts vs same h a.1) refl e
  where
    go :
        (b : Bool) (rest : Option (List Transaction))
        → ((vs : List Transaction)
            → update_first test change ts ≡ some vs
            → Ascending (t.id + 1) vs next)
        → update_first test change ts ≡ rest
        → (if b then some (change t ∷ ts) else elim rest [ none ↦ none | some vs ↦ some (t ∷ vs) ])
          ≡ some us
        → Ascending low us next
    go true rest tail h e' =
        let shape : change t ∷ ts ≡ us = cc in
        subst (λ vs. Ascending low vs next) shape (rw (same t) (a.0, a.1))
    go false none tail h e' = cc
    go false (some vs) tail h e' =
        let shape : t ∷ vs ≡ us = cc in subst (λ vs. Ascending low vs next) shape (a.0, tail vs h)

module _ {Disk : Type 0} where
  -- The transactions of a journal have growing numbers below the next one.
  abbrev pub IsJournal : Journal Disk → Type 0
  IsJournal j = Ascending 0 j.manager.active_transactions j.manager.next_transaction_id

  -- The journal after an operation, whether it succeeded or failed.
  abbrev pub journal_after : Outcome (Journal Disk) (Unit {0}) → Journal Disk
  journal_after (done k a) = k
  journal_after (fail k e) = k

module _ {Disk : Type 0} (device : Ide Disk) where
  write_and_advance-IsJournal :
      (r : LogRecord) (j : Journal Disk)
      → IsJournal j
      → IsJournal (journal_after (write_and_advance device r j))
  unfolding write_log_record
  write_and_advance-IsJournal r j a = ground arith

  close_transaction-IsJournal :
      (change : Transaction → Transaction) (marker : List ℕ) (n : ℕ) (j : Journal Disk)
      → ((t : Transaction) → (change t).id ≡ t.id)
      → IsJournal j
      → IsJournal (journal_after (close_transaction device change marker n j))
  close_transaction-IsJournal change marker n j same a =
      go (update_first (has_id n) change j.manager.active_transactions) refl
    where
      go :
          (found : Option (List Transaction))
          → update_first (has_id n) change j.manager.active_transactions ≡ found
          → IsJournal (journal_after (close_transaction device change marker n j))
      go none e = rw (e, journal_after) a
      go (some us) e =
          rw (e, journal_after)
            (write_and_advance-IsJournal _ _ (
              Ascending-update_first (has_id n) change 0 j.manager.next_transaction_id
                j.manager.active_transactions us same e a))

  add_record-id : (r : LogRecord) (t : Transaction) → (add_record r t).id ≡ t.id
  add_record-id r t = ground arith

  log_operation-IsJournal :
      (n : ℕ) (t : OperationType) (target : ℕ) (undo redo : List ℕ) (j : Journal Disk)
      → IsJournal j
      → IsJournal (journal_after (log_operation device n t target undo redo j))
  unfolding log_operation
  log_operation-IsJournal n t target undo redo j a =
      go
        (update_first (λ s. has_id n s && is_active s.state) (add_record made)
          j.manager.active_transactions)
        refl
    where
      made : LogRecord
      made = new (add64 j.clock 1) j.manager.current_sequence t target undo redo

      go :
          (found : Option (List Transaction))
          → update_first
              (λ s. has_id n s && is_active s.state)
              (add_record made)
              j.manager.active_transactions
            ≡ found
          → IsJournal (journal_after (log_operation device n t target undo redo j))
      go none e = rw (e, journal_after) a
      go (some us) e =
          rw (e, journal_after)
            (write_and_advance-IsJournal made _ (
              Ascending-update_first (λ s. has_id n s && is_active s.state) (add_record made) 0
                j.manager.next_transaction_id j.manager.active_transactions us (add_record-id made)
                e a))

  -- Beginning, logging, committing, aborting and dropping closed transactions keep the numbers of
  -- the transactions growing and below the next one, whatever the disk answers.
  pub transactions-IsJournal :
      (n : ℕ) (t : OperationType) (target : ℕ) (undo redo : List ℕ) (j : Journal Disk)
      → IsJournal j
      → j.manager.next_transaction_id + 1 < 2 ^ 64
      → IsJournal (record j { manager = (begin_transaction j.manager).0 })
        × IsJournal (journal_after (log_operation device n t target undo redo j))
        × IsJournal (journal_after (commit_transaction device n j))
        × IsJournal (journal_after (abort_transaction device n j))
        × IsJournal (record j { manager = cleanup_completed_transactions j.manager })
  unfolding begin_transaction commit_transaction abort_transaction cleanup_completed_transactions
  transactions-IsJournal n t target undo redo j a small =
      let next = j.manager.next_transaction_id in
      (
        rw (add64_lem next 1 small)
            (Ascending-append 0 next j.manager.active_transactions _ refl a),
        log_operation-IsJournal n t target undo redo j a,
        close_transaction-IsJournal commit _ n j (λ s. refl) a,
        close_transaction-IsJournal abort _ n j (λ s. refl) a,
        Ascending-retain_active 0 next j.manager.active_transactions a,
      )
