-- ===== src/Base/Fields.antt =====
-- Fields read back from bytes in which they stand one after the other.
use prisma_os.Base.Lists.{take, drop, get_or, length, take-append_at, drop-append_at}
use prisma_os.Base.Bytes.{le_bytes, from_le_bytes, length-le_bytes, from_le_bytes-le_bytes}
use Prim.Native.Nat.{ℕ, zero, suc, ◌+◌, ◌^◌, ◌<◌}
use mathlib.Core.Path.{◌≡◌, refl, ◌∙◌}
use mathlib.Core.List.{List, [], ◌∷◌, ◌++◌}
use native.Mathlib.Omega.{arith}

-- `data[offset..offset + n]`
abbrev pub slice_at : List ℕ → ℕ → ℕ → List ℕ
slice_at input offset n = take n (drop offset input)

drop-nil : (n : ℕ) → [] ≡ drop {A = ℕ} n []
drop-nil zero = refl
drop-nil (suc n) = refl

pub drop-drop : (k n : ℕ) (xs : List ℕ) → drop (k + n) xs ≡ drop n (drop k xs)
drop-drop zero n xs = let e : 0 + n ≡ n = omega arith in rw e refl
drop-drop (suc k) n [] = let e : suc k + n ≡ suc (k + n) = omega arith in rw e (drop-nil n)
drop-drop (suc k) n (x ∷ xs) =
    let e : suc k + n ≡ suc (k + n) = omega arith in rw e (drop-drop k n xs)

module _ (k n : ℕ) (input field rest : List ℕ) (at : drop k input ≡ field ++ rest) where
  -- After a field the rest follows.
  pub drop-next : length field ≡ n → drop (k + n) input ≡ rest
  drop-next h = drop-drop k n input ∙ rw at (drop-append_at n field rest h)

  pub slice_at-field : length field ≡ n → slice_at input k n ≡ field
  slice_at-field h = rw at (take-append_at n field rest h)

module _ (k n x : ℕ) (input rest : List ℕ) (at : drop k input ≡ le_bytes n x ++ rest) where
  pub drop-next_number : drop (k + n) input ≡ rest
  drop-next_number = drop-next k n input (le_bytes n x) rest at (length-le_bytes n x)

  pub read_number : x < 256 ^ n → from_le_bytes (slice_at input k n) ≡ x
  read_number h =
      rw (slice_at-field k n input (le_bytes n x) rest at (length-le_bytes n x))
        (from_le_bytes-le_bytes n x h)

-- The byte after the dropped ones.
pub get_or-drop :
    (k : ℕ) (xs : List ℕ) (d x : ℕ) (rest : List ℕ) → drop k xs ≡ x ∷ rest → get_or xs k d ≡ x
get_or-drop zero [] d x rest h = cc
get_or-drop zero (y ∷ ys) d x rest h = cc
get_or-drop (suc k) [] d x rest h = cc
get_or-drop (suc k) (y ∷ ys) d x rest h = get_or-drop k ys d x rest h
