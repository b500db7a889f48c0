-- ===== src/Statue/Parse.antt =====
-- Parsing bytes in crates/Statue: a result, an error, or a panic where the source indexes a slice out
-- of range. The readers of header.rs and program.rs are the same functions.
pub mod Safety
use prisma_os.Base.{ℕ, zero, suc, ◌+◌, Bool, List, [], ◌∷◌, none, some, if◌then◌else◌, get_elem?}
use mathlib.Core.List.{reverse}
use prisma_os.Base.Bytes.{from_le_bytes}
use prisma_os.Statue.Error.{ElfError}

pub data Parse {ℓ} (A : Type ℓ) : Type ℓ where
  ok : A → Parse A
  err : ElfError → Parse A
  panic : Parse A

infixl 5 ◌>>=◌ ◌>>◌
abbrev pub ◌>>=◌ {ℓ κ} : {A : Type ℓ} {B : Type κ} → Parse A → (A → Parse B) → Parse B
ok a >>= f = f a
err e >>= f = err e
panic >>= f = panic

abbrev pub ◌>>◌ {ℓ} : {B : Type ℓ} → Parse (Unit {0}) → Parse B → Parse B
m >> k = m >>= λ _. k

-- `if !test { return Err(e) }`
abbrev pub require : Bool → ElfError → Parse (Unit {0})
require b e = if b then ok tt else err e

-- `data[offset]`
unfoldable pub byte_at : List ℕ → ℕ → Parse ℕ
byte_at input offset = elim (get_elem? input offset) [ none ↦ panic | some b ↦ ok b ]

-- `data[offset]`, …, `data[offset + n - 1]`
unfoldable pub read_bytes : List ℕ → ℕ → ℕ → Parse (List ℕ)
unfolding byte_at
read_bytes input offset zero = ok []
read_bytes input offset (suc n) = do
  b ← byte_at input offset
  rest ← read_bytes input (offset + 1) n
  ok (b ∷ rest)

-- An unsigned number of `n` bytes, in either byte order.
unfoldable pub read_word : ℕ → List ℕ → ℕ → Bool → Parse ℕ
unfolding read_bytes
read_word n input offset little_endian = do
  word ← read_bytes input offset n
  ok (if little_endian then from_le_bytes word else from_le_bytes (reverse word))

unfoldable pub read_u16 : List ℕ → ℕ → Bool → Parse ℕ
unfolding read_word
read_u16 = read_word 2

unfoldable pub read_u32 : List ℕ → ℕ → Bool → Parse ℕ
unfolding read_word
read_u32 = read_word 4

unfoldable pub read_u64 : List ℕ → ℕ → Bool → Parse ℕ
unfolding read_word
read_u64 = read_word 8

-- No panic.
abbrev pub Safe {ℓ} : {A : Type ℓ} → Parse A → Type 0
Safe (ok a) = Unit
Safe (err e) = Unit
Safe panic = ⊥
