-- ===== src/Base/Bits.antt =====
-- Single bits of a byte. The laws are checked for all bytes and positions by evaluation.
use Prim.Native.Nat.{ℕ, zero, suc, ◌-◌, ◌^◌, ◌<◌, bit_and, bit_or, bit_and-bitwise}
use mathlib.Core.Path.{◌≡◌, refl}
use mathlib.Core.Logic.{◌⊎◌, inl, inr}
use mathlib.Core.Bool.{Bool, true, false, not, ◌&&◌}
use native.Mathlib.Omega.{arith}
use prisma_os.Base.Tests.{ltb, ltb→lt, ◌==◌, if◌then◌else◌}

first : (a b : Bool) → (a && b) ≡ true → a ≡ true
first a b h = ground arith

second : (a b : Bool) → (a && b) ≡ true → b ≡ true
second a b h = ground arith

last_or_below : (i top : ℕ) → i < suc top → (i ≡ top) ⊎ (i < top)
last_or_below i top h = omega arith

holds_below : (ℕ → Bool) → ℕ → Bool
holds_below test zero = true
holds_below test (suc top) = holds_below test top && test top

from_below : (test : ℕ → Bool) (top i : ℕ) → i < top → holds_below test top ≡ true → test i ≡ true
unfolding holds_below
from_below test zero i h e = elim h [ ]
from_below test (suc top) i h e = elim (last_or_below i top h) [
  | inl last ↦ rw last (second (holds_below test top) (test top) e)
  | inr below ↦ from_below test top i below (first (holds_below test top) (test top) e)
]

-- `(byte & (1 << bit)) == 0`
abbrev pub bit_clear : ℕ → ℕ → Bool
bit_clear byte bit = bit_and byte (2 ^ bit) == 0

same : Bool → Bool → Bool
same true b = b
same false b = not b

same_sound : (a b : Bool) → same a b ≡ true → a ≡ b
unfolding same
same_sound a b h = ground arith

abbrev set_law : ℕ → ℕ → ℕ → Bool
unfolding same
set_law b i j =
    ltb (bit_or b (2 ^ i)) 256
    && same (bit_clear (bit_or b (2 ^ i)) j) (if i == j then false else bit_clear b j)

abbrev reset_law : ℕ → ℕ → ℕ → Bool
unfolding same
reset_law b i j =
    ltb (bit_and b (255 - 2 ^ i)) 256
    && same (bit_clear (bit_and b (255 - 2 ^ i)) j) (if i == j then true else bit_clear b j)

abbrev bits_hold : (ℕ → ℕ → ℕ → Bool) → ℕ → ℕ → Bool
unfolding holds_below
bits_hold law b i = holds_below (law b i) 8

abbrev table : (ℕ → ℕ → ℕ → Bool) → Bool
unfolding holds_below
table law = holds_below (λ b. holds_below (bits_hold law b) 8) 256

table_sound :
    (law : ℕ → ℕ → ℕ → Bool) (b i j : ℕ)
    → table law ≡ true
    → b < 256
    → i < 8
    → j < 8
    → law b i j ≡ true
unfolding holds_below
table_sound law b i j h hb hi hj =
    let byte = from_below (λ b. holds_below (bits_hold law b) 8) 256 b hb h in
    from_below (law b i) 8 j hj (from_below (bits_hold law b) 8 i hi byte)

set_table : table set_law ≡ true
unfolding holds_below same
set_table = refl

reset_table : table reset_law ≡ true
unfolding holds_below same
reset_table = refl

module _ (b i j : ℕ) (hb : b < 256) (hi : i < 8) (hj : j < 8) where
  -- `byte |= 1 << i` clears bit `i` of the test and leaves the others.
  pub bit_clear-bit_or : bit_clear (bit_or b (2 ^ i)) j ≡ (if i == j then false else bit_clear b j)
  unfolding same
  bit_clear-bit_or = same_sound _ _ (second _ _ (table_sound set_law b i j set_table hb hi hj))

  -- `byte &= !(1 << i)`
  pub bit_clear-bit_and :
      bit_clear (bit_and b (255 - 2 ^ i)) j ≡ (if i == j then true else bit_clear b j)
  unfolding same
  bit_clear-bit_and = same_sound _ _ (second _ _ (table_sound reset_law b i j reset_table hb hi hj))

module _ (b i : ℕ) (hb : b < 256) (hi : i < 8) where
  pub bit_or-lt : bit_or b (2 ^ i) < 256
  unfolding same
  bit_or-lt = ltb→lt _ _ (first _ _ (table_sound set_law b i 0 set_table hb hi (omega arith)))

  pub bit_and-lt : bit_and b (255 - 2 ^ i) < 256
  unfolding same
  bit_and-lt = ltb→lt _ _ (first _ _ (table_sound reset_law b i 0 reset_table hb hi (omega arith)))

pub bit_clear-zero : (i : ℕ) → bit_clear 0 i ≡ true
bit_clear-zero i = rw (bit_and-bitwise 0 (2 ^ i)) refl
