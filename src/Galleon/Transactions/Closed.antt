-- ===== src/Galleon/Transactions/Closed.antt =====
-- A closed transaction takes no more records.
use prisma_os.Base.{
  ℕ, ◌+◌, ◌<◌, ◌≡◌, refl, Bool, true, false, List, [], ◌∷◌, Option, none, some, if◌then◌else◌, ◌==◌,
  ◌&&◌, arith, subst, ap, sym,
}
use prisma_os.Base.Words.{add64}
use prisma_os.Galleon.Error.{FilesystemError}
use prisma_os.Galleon.Volume.{Ide, done, fail}
use prisma_os.Galleon.Journal.{LogRecord, OperationType, new}
use prisma_os.Galleon.Transactions.{
  Transaction, is_active, add_record, commit, Journal, update_first, has_id, write_log_record,
  write_and_advance, log_operation, commit_transaction,
}
use prisma_os.Galleon.Transactions.Order.{Ascending, IsJournal}

-- `log_operation`'s test of a transaction.
abbrev open_with : ℕ → Transaction → Bool
open_with n t = has_id n t && is_active t.state

absent :
    (n low next : ℕ) (f : Transaction → Transaction) (ts : List Transaction)
    → n < low
    → Ascending low ts next
    → update_first (open_with n) f ts ≡ none
unfolding update_first
absent n low next f [] h a = refl
absent n low next f (t ∷ ts) h a =
    let other : (t.id == n) ≡ false = ground arith in
    rw (other, absent n (t.id + 1) next f ts (omega (arith, a.0)) a.1)

closed :
    (n low next : ℕ) (f : Transaction → Transaction) (ts us : List Transaction)
    → Ascending low ts next
    → update_first (has_id n) commit ts ≡ some us
    → update_first (open_with n) f us ≡ none
unfolding update_first
closed n low next f [] us a e = cc
closed n low next f (t ∷ ts) us a e =
    go (t.id == n) (update_first (has_id n) commit ts) refl
      (λ vs h. closed n (t.id + 1) next f ts vs a.1 h) refl e
  where
    go :
        (b : Bool) (rest : Option (List Transaction))
        → (t.id == n) ≡ b
        → ((vs : List Transaction)
            → update_first (has_id n) commit ts ≡ some vs
            → update_first (open_with n) f vs ≡ none)
        → update_first (has_id n) commit ts ≡ rest
        → (if b then some (commit t ∷ ts) else elim rest [ none ↦ none | some vs ↦ some (t ∷ vs) ])
          ≡ some us
        → update_first (open_with n) f us ≡ none
    go true rest same tail h e' =
        let shape : commit t ∷ ts ≡ us = cc in
        let number : t.id ≡ n = ground arith in
        subst (λ vs. update_first (open_with n) f vs ≡ none) shape
          (rw (same, absent n (t.id + 1) next f ts (omega arith) a.1))
    go false none same tail h e' = cc
    go false (some vs) same tail h e' =
        let shape : t ∷ vs ≡ us = cc in
        subst (λ ws. update_first (open_with n) f ws ≡ none) shape (rw (same, tail vs h))

module _ {Disk : Type 0} (device : Ide Disk) where
  written :
      (r : LogRecord) (j k : Journal Disk)
      → write_and_advance device r j ≡ done k tt
      → k.manager.active_transactions ≡ j.manager.active_transactions
  unfolding write_log_record
  written r j k e = ground arith

  committed_branch :
      (r : LogRecord) (now : ℕ) (j k : Journal Disk) (found : Option (List Transaction))
      → elim found [
        | none ↦ fail j FilesystemError.invalid_parameter
        | some ts ↦
            write_and_advance device r
              (record j { clock = now; manager = record j.manager { active_transactions = ts } })
      ]
        ≡ done k tt
      → found ≡ some k.manager.active_transactions
  committed_branch r now j k none e = cc
  committed_branch r now j k (some us) e = ap some (sym (written r _ k e))

  committed_list :
      (n : ℕ) (j k : Journal Disk)
      → commit_transaction device n j ≡ done k tt
      → update_first (has_id n) commit j.manager.active_transactions
        ≡ some k.manager.active_transactions
  unfolding commit_transaction
  committed_list n j k e = committed_branch _ _ j k _ e

-- After a commit nothing can be logged in the transaction: the call fails, and only the clock moves.
pub log_operation-commit_transaction :
    {Disk : Type 0} (device : Ide Disk) (n : ℕ) (t : OperationType) (target : ℕ)
    (undo redo : List ℕ) (j k : Journal Disk)
    → IsJournal j
    → commit_transaction device n j ≡ done k tt
    → log_operation device n t target undo redo k
      ≡ fail (record k { clock = add64 k.clock 1 }) FilesystemError.invalid_parameter
unfolding commit_transaction log_operation
log_operation-commit_transaction device n t target undo redo j k a e =
    let list = committed_list device n j k e in
    let made = new (add64 k.clock 1) k.manager.current_sequence t target undo redo in
    let refused =
      closed n 0 j.manager.next_transaction_id (add_record made) j.manager.active_transactions
        k.manager.active_transactions a list in
    rw (refused, log_operation) refl
