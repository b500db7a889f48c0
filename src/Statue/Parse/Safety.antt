-- ===== src/Statue/Parse/Safety.antt =====
-- Reads inside the input do not panic.
use prisma_os.Base.{
  ℕ, zero, suc, ◌+◌, ◌≤◌, ◌<◌, ◌≡◌, refl, Bool, true, false, List, [], ◌∷◌, some, if◌then◌else◌,
  get_elem?, length, arith,
}
use mathlib.Core.List.{reverse}
use prisma_os.Base.Bytes.{from_le_bytes}
use prisma_os.Statue.Error.{ElfError}
use prisma_os.Statue.Parse.{
  Parse, ok, err, panic, ◌>>=◌, require, byte_at, read_bytes, read_word, read_u16, read_u32,
  read_u64, Safe,
}

-- Inside the list there is an element.
get_elem?-some : (xs : List ℕ) (i : ℕ) → i < length xs → (x : ℕ) × (get_elem? xs i ≡ some x)
get_elem?-some [] i h = elim h [ ]
get_elem?-some (x ∷ xs) zero h = (x, refl)
get_elem?-some (x ∷ xs) (suc i) h = get_elem?-some xs i (omega arith)

pub byte_at-ok :
    (input : List ℕ) (offset : ℕ) → offset < length input → (b : ℕ) × (byte_at input offset ≡ ok b)
unfolding byte_at
byte_at-ok input offset h = let (b, e) = get_elem?-some input offset h in (b, ground arith)

pub read_bytes-ok :
    (input : List ℕ) (offset n : ℕ)
    → offset + n ≤ length input
    → (bs : List ℕ) × (read_bytes input offset n ≡ ok bs)
unfolding read_bytes
read_bytes-ok input offset zero h = ([], refl)
read_bytes-ok input offset (suc n) h =
    let (b, e) = byte_at-ok input offset (omega arith) in
    let (bs, e') = read_bytes-ok input (offset + 1) n (omega arith) in
    (b ∷ bs, rw (e, ◌>>=◌) (rw (e', ◌>>=◌) refl))

pub read_word-ok :
    (n : ℕ) (input : List ℕ) (offset : ℕ) (le : Bool)
    → offset + n ≤ length input
    → (x : ℕ) × (read_word n input offset le ≡ ok x)
unfolding read_word
read_word-ok n input offset le h =
    let (bs, e) = read_bytes-ok input offset n h in
    (if le then from_le_bytes bs else from_le_bytes (reverse bs), rw (e, ◌>>=◌) refl)

module _ {ℓ} {B : Type ℓ} where
  pub Safe-bind {κ} :
      {A : Type κ} (m : Parse A) (f : A → Parse B)
      → Safe m
      → ((a : A) → Safe (f a))
      → Safe (m >>= f)
  Safe-bind (ok a) f s k = k a
  Safe-bind (err e) f s k = tt
  Safe-bind panic f s k = s

  pub Safe-require :
      (b : Bool) (e : ElfError) (k : Parse B) → (b ≡ true → Safe k) → Safe (require b e >>= λ _. k)
  Safe-require true e k s = s refl
  Safe-require false e k s = tt

pub require-Safe : (b : Bool) (e : ElfError) → Safe (require b e)
require-Safe true e = tt
require-Safe false e = tt

module _ (input : List ℕ) (offset : ℕ) where
  pub byte_at-Safe : offset < length input → Safe (byte_at input offset)
  byte_at-Safe h = let (b, e) = byte_at-ok input offset h in rw e tt

  pub read_bytes-Safe : (n : ℕ) → offset + n ≤ length input → Safe (read_bytes input offset n)
  read_bytes-Safe n h = let (bs, e) = read_bytes-ok input offset n h in rw e tt

  read_word-Safe :
      (n : ℕ) (le : Bool) → offset + n ≤ length input → Safe (read_word n input offset le)
  unfolding read_word
  read_word-Safe n le h = let (bs, e) = read_bytes-ok input offset n h in rw (e, ◌>>=◌) tt

  pub read_u16-Safe : (le : Bool) → offset + 2 ≤ length input → Safe (read_u16 input offset le)
  unfolding read_u16
  read_u16-Safe le h = read_word-Safe 2 le h

  pub read_u32-Safe : (le : Bool) → offset + 4 ≤ length input → Safe (read_u32 input offset le)
  unfolding read_u32
  read_u32-Safe le h = read_word-Safe 4 le h

  pub read_u64-Safe : (le : Bool) → offset + 8 ≤ length input → Safe (read_u64 input offset le)
  unfolding read_u64
  read_u64-Safe le h = read_word-Safe 8 le h
