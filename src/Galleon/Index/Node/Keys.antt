-- ===== src/Galleon/Index/Node/Keys.antt =====
-- The order of keys.
use prisma_os.Base.{ℕ, ◌≡◌, refl, true, false, List, [], ◌∷◌, arith, ==_refl}
use prisma_os.Base.Bytes.{same_bytes}
use prisma_os.Galleon.Index.Node.{less}

pub less-nil : (k : List ℕ) → less k [] ≡ false
unfolding less
less-nil [] = refl
less-nil (x ∷ xs) = refl

-- Nothing is between.
pub less-asym : (a b : List ℕ) → less a b ≡ true → less b a ≡ false
unfolding less
less-asym a [] h = cc
less-asym [] (y ∷ ys) h = refl
less-asym (x ∷ xs) (y ∷ ys) h = ground (arith, less-asym xs ys)

pub less_le_trans : (a b c : List ℕ) → less a b ≡ true → less c b ≡ false → less a c ≡ true
unfolding less
less_le_trans a [] c h k = cc
less_le_trans [] (y ∷ ys) [] h k = cc
less_le_trans [] (y ∷ ys) (z ∷ zs) h k = refl
less_le_trans (x ∷ xs) (y ∷ ys) [] h k = cc
less_le_trans (x ∷ xs) (y ∷ ys) (z ∷ zs) h k = ground (arith, less_le_trans xs ys zs)

pub same_bytes_refl : (a : List ℕ) → same_bytes a a ≡ true
same_bytes_refl [] = refl
same_bytes_refl (x ∷ xs) = ground (arith, ==_refl x, same_bytes_refl xs)

same_parts :
    (x y : ℕ) (xs ys : List ℕ)
    → same_bytes (x ∷ xs) (y ∷ ys) ≡ true
    → (x ≡ y) × (same_bytes xs ys ≡ true)
same_parts x y xs ys h = ground arith

pub same_bytes→eq : (a b : List ℕ) → same_bytes a b ≡ true → a ≡ b
same_bytes→eq [] [] h = refl
same_bytes→eq [] (y ∷ ys) h = cc
same_bytes→eq (x ∷ xs) [] h = cc
same_bytes→eq (x ∷ xs) (y ∷ ys) h =
    let (head, rest) = same_parts x y xs ys h in rw (head, same_bytes→eq xs ys rest)

-- A smaller key is another key.
pub less→same_bytes : (a b : List ℕ) → less a b ≡ true → same_bytes b a ≡ false
unfolding less
less→same_bytes a [] h = cc
less→same_bytes [] (y ∷ ys) h = refl
less→same_bytes (x ∷ xs) (y ∷ ys) h = ground (arith, less→same_bytes xs ys)

pub le_trans : (a b c : List ℕ) → less a b ≡ false → less b c ≡ false → less a c ≡ false
unfolding less
le_trans a b [] h k = refl
le_trans a [] (z ∷ zs) h k = cc
le_trans [] (y ∷ ys) (z ∷ zs) h k = cc
le_trans (x ∷ xs) (y ∷ ys) (z ∷ zs) h k = ground (arith, le_trans xs ys zs)
