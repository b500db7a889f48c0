-- ===== src/Base/Maps.antt =====
-- Maps with numbers as keys, as association lists.
use Prim.Native.Nat.{ℕ}
use mathlib.Core.Path.{◌≡◌, refl}
use mathlib.Core.Option.{Option, none, some}
use mathlib.Core.List.{List, [], ◌∷◌}
use native.Mathlib.Omega.{arith}
use prisma_os.Base.Tests.{◌==◌, if◌then◌else◌}

module _ {ℓ} {Value : Type ℓ} where
  unfoldable pub lookup : ℕ → List (ℕ × Value) → Option Value
  lookup key [] = none
  lookup key (entry ∷ entries) = if entry.0 == key then some entry.1 else lookup key entries

  -- In place of the entry with the key, or at the end.
  unfoldable pub insert : ℕ → Value → List (ℕ × Value) → List (ℕ × Value)
  insert key value [] = (key, value) ∷ []
  insert key value (entry ∷ entries) =
      if entry.0 == key then (key, value) ∷ entries else entry ∷ insert key value entries

  pub lookup-insert :
      (inserted key : ℕ) (value : Value) (entries : List (ℕ × Value))
      → lookup key (insert inserted value entries)
        ≡ (if inserted == key then some value else lookup key entries)
  unfolding lookup insert
  lookup-insert inserted key value [] = refl
  lookup-insert inserted key value (entry ∷ entries) =
      ground (arith, lookup-insert inserted key value entries)
