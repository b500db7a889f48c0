-- ===== src/Statue/Memory/Slices.antt =====
-- Slices of a memory into which bytes were copied.
use prisma_os.Base.{
  ℕ, zero, suc, ◌+◌, ◌≤◌, ◌≡◌, refl, ap, List, [], ◌∷◌, ◌++◌, length, take, drop, arith,
  take-append_at, drop-append_at, length-append, append_assoc, subst, ◌-◌,
}
use prisma_os.Statue.Memory.{copy_into}

module _ {A : Type 0} where
  length-take_le : (n : ℕ) (xs : List A) → n ≤ length xs → length (take n xs) ≡ n
  length-take_le zero xs h = refl
  length-take_le (suc n) [] h = absurd (omega arith)
  length-take_le (suc n) (x ∷ xs) h = ap suc (length-take_le n xs (omega arith))

  length-drop_add : (n : ℕ) (xs : List A) → n ≤ length xs → length (drop n xs) + n ≡ length xs
  length-drop_add zero xs h = omega arith
  length-drop_add (suc n) [] h = absurd (omega arith)
  length-drop_add (suc n) (x ∷ xs) h = omega (arith, length-drop_add n xs (omega arith))

  take-take_append :
      (s o : ℕ) (xs ys : List A) → s ≤ o → o ≤ length xs → take s (take o xs ++ ys) ≡ take s xs
  take-take_append zero o xs ys h k = refl
  take-take_append (suc s) zero xs ys h k = absurd (omega arith)
  take-take_append (suc s) (suc o) [] ys h k = absurd (omega arith)
  take-take_append (suc s) (suc o) (x ∷ xs) ys h k =
      ap (◌∷◌ x) (take-take_append s o xs ys (omega arith) (omega arith))

  slice_before :
      (q s o : ℕ) (xs ys : List A)
      → q + s ≤ o
      → o ≤ length xs
      → take s (drop q (take o xs ++ ys)) ≡ take s (drop q xs)
  slice_before zero s o xs ys h k = take-take_append s o xs ys (omega arith) k
  slice_before (suc q) s zero xs ys h k = absurd (omega arith)
  slice_before (suc q) s (suc o) [] ys h k = absurd (omega arith)
  slice_before (suc q) s (suc o) (x ∷ xs) ys h k =
      slice_before q s o xs ys (omega arith) (omega arith)

  drop-beyond :
      (n k : ℕ) (xs ys zs : List A)
      → length xs ≡ n
      → n ≤ length zs
      → drop n zs ≡ ys
      → drop (n + k) (xs ++ ys) ≡ drop (n + k) zs
  drop-beyond zero k [] ys zs h l e = rw (← e) refl
  drop-beyond zero k (x ∷ xs) ys zs h l e = absurd (omega arith)
  drop-beyond (suc n) k [] ys zs h l e = absurd (omega arith)
  drop-beyond (suc n) k (x ∷ xs) ys [] h l e = absurd (omega arith)
  drop-beyond (suc n) k (x ∷ xs) ys (z ∷ zs) h l e =
      let next : suc n + k ≡ suc (n + k) = omega arith in
      rw next (drop-beyond n k xs ys zs (omega arith) (omega arith) e)

module _ (memory bytes : List ℕ) (offset : ℕ) (fits : offset + length bytes ≤ length memory) where
  head_length : length (take offset memory) ≡ offset
  head_length = length-take_le offset memory (omega arith)

  -- The copied bytes are read back.
  pub read_copied : take (length bytes) (drop offset (copy_into memory offset bytes)) ≡ bytes
  read_copied =
      rw
        (drop-append_at offset (take offset memory) (bytes ++ drop (offset + length bytes) memory)
          head_length)
        (take-append_at (length bytes) bytes (drop (offset + length bytes) memory) refl)

  pub length-copy_into : length (copy_into memory offset bytes) ≡ length memory
  length-copy_into = omega (
    arith,
    length-append (take offset memory) (bytes ++ drop (offset + length bytes) memory),
    length-append bytes (drop (offset + length bytes) memory),
    head_length,
    length-drop_add (offset + length bytes) memory fits,
  )

  -- A slice that the copied bytes do not touch is as before.
  pub slice_before_copied :
      (q s : ℕ)
      → q + s ≤ offset
      → take s (drop q (copy_into memory offset bytes)) ≡ take s (drop q memory)
  slice_before_copied q s h =
      slice_before q s offset memory (bytes ++ drop (offset + length bytes) memory) h (omega arith)

  pub slice_after_copied :
      (q s : ℕ)
      → offset + length bytes ≤ q
      → take s (drop q (copy_into memory offset bytes)) ≡ take s (drop q memory)
  slice_after_copied q s h =
      let n = offset + length bytes in
      let front : length (take offset memory ++ bytes) ≡ n =
        omega (arith, length-append (take offset memory) bytes, head_length) in
      let same =
        drop-beyond n (q - n) (take offset memory ++ bytes) (drop n memory) memory front fits
          refl in
      let here : n + (q - n) ≡ q = omega arith in
      ap (take s) (
        rw (← append_assoc (take offset memory) bytes (drop n memory)) (
          subst (λ i. drop i ((take offset memory ++ bytes) ++ drop n memory) ≡ drop i memory) here
            same))
