-- ===== src/Galleon/Transactions/Places.antt =====
-- Where log records are written.
use prisma_os.Base.{ℕ, ◌+◌, ◌*◌, ◌/◌, ◌%◌, ◌<◌, ◌≤◌, ◌^◌, ◌≡◌, refl, max, arith}
use native.Mathlib.Nat.{mod-eq_of_lt}
use prisma_os.Base.Words.{mul64}
use prisma_os.Galleon.Transactions.{JournalManager, record_sector}

mod_small : (n m : ℕ) → n < m → n % m ≡ n
mod_small n m h = mod-eq_of_lt h

-- Two records of up to 64 bytes with consecutive sequence numbers, of which the first does not have
-- the last slot of a sector and the second has one of the journal's slots in its first round, are
-- written to the same sector.
pub record_sector_shared :
    (m : JournalManager) (size next_size n : ℕ)
    → size ≤ 64
    → next_size ≤ 64
    → m.journal_size_sectors < 2 ^ 32
    → n + 1 < m.journal_size_sectors * 8
    → n % 8 < 7
    → record_sector m size n ≡ record_sector m next_size (n + 1)
unfolding record_sector mul64
record_sector_shared m size next_size n s t small inside h =
    let slots : m.journal_size_sectors * 512 % 2 ^ 64 / 64 ≡ m.journal_size_sectors * 8 =
      omega arith in
    let a : max size 64 ≡ 64 = omega arith in
    let b : max next_size 64 ≡ 64 = omega arith in
    let same : n * 64 % 2 ^ 64 / 512 ≡ (n + 1) * 64 % 2 ^ 64 / 512 = omega arith in
    rw
      (
        a,
        b,
        slots,
        mod_small n (m.journal_size_sectors * 8) (omega arith),
        mod_small (n + 1) (m.journal_size_sectors * 8) inside,
      )
      (rw same refl)
