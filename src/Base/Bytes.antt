-- ===== src/Base/Bytes.antt =====
-- `to_le_bytes` and `from_le_bytes` of the standard library, on lists of bytes.
use Prim.Native.Nat.{ℕ, zero, suc, ◌+◌, ◌*◌, ◌/◌, ◌%◌, ◌^◌, ◌<◌}
use mathlib.Core.Path.{◌≡◌, refl, ap}
use mathlib.Core.List.{List, [], ◌∷◌}
use native.Mathlib.Nat.{pow-suc}
use native.Mathlib.Omega.{arith}
use prisma_os.Base.Lists.{length}
use prisma_os.Base.Tests.{◌==◌}
use mathlib.Core.Bool.{Bool, true, false, ◌&&◌}

unfoldable pub le_bytes : ℕ → ℕ → List ℕ
le_bytes zero x = []
le_bytes (suc n) x = (x % 256) ∷ le_bytes n (x / 256)

unfoldable pub from_le_bytes : List ℕ → ℕ
from_le_bytes [] = 0
from_le_bytes (b ∷ bs) = b + 256 * from_le_bytes bs

-- Equality of slices of bytes.
abbrev pub same_bytes : List ℕ → List ℕ → Bool
same_bytes [] [] = true
same_bytes [] (y ∷ ys) = false
same_bytes (x ∷ xs) [] = false
same_bytes (x ∷ xs) (y ∷ ys) = x == y && same_bytes xs ys

pub length-le_bytes : (n x : ℕ) → length (le_bytes n x) ≡ n
unfolding le_bytes
length-le_bytes zero x = refl
length-le_bytes (suc n) x = ap suc (length-le_bytes n (x / 256))

pub from_le_bytes-le_bytes : (n x : ℕ) → x < 256 ^ n → from_le_bytes (le_bytes n x) ≡ x
unfolding le_bytes from_le_bytes
from_le_bytes-le_bytes zero x h = omega arith
from_le_bytes-le_bytes (suc n) x h =
    omega (arith, pow-suc 256 n, from_le_bytes-le_bytes n (x / 256))
