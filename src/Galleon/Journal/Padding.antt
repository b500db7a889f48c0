-- ===== src/Galleon/Journal/Padding.antt =====
-- The padding loop of a log record.
use prisma_os.Base.{
  ℕ, zero, suc, ◌+◌, ◌-◌, ◌%◌, ◌≤◌, ◌<◌, ◌≡◌, sym, ◌∙◌, false, List, [], ◌∷◌, ◌++◌, length,
  length-append, append_assoc, append-nil, arith, ◌==◌, ◌⊎◌, inl, inr,
}
use prisma_os.Galleon.Journal.{pad}

even_or_longer : (n : ℕ) → (n % 8 ≡ 0) ⊎ (((n % 8 == 0) ≡ false) × (0 < n % 8))
even_or_longer n = ground arith

-- With enough rounds the padded bytes are the bytes and some more, and fill groups of eight.
pub pad_lem :
    (n : ℕ) (input : List ℕ)
    → (8 - length input % 8) % 8 ≤ n
    → (zeros : List ℕ) × (pad n input ≡ input ++ zeros) × (length (pad n input) % 8 ≡ 0)
unfolding pad
pad_lem zero input h = ([], sym (append-nil input), omega arith)
pad_lem (suc n) input h = elim (even_or_longer (length input)) [
  | inl even ↦ ([], rw even (sym (append-nil input)), rw even even)
  | inr (odd, positive) ↦
      let longer : length (input ++ (0 ∷ [])) ≡ length input + 1 = length-append input (0 ∷ []) in
      let (zeros, e, filled) = pad_lem n (input ++ (0 ∷ [])) (rw longer (omega arith)) in
      (0 ∷ zeros, rw odd (e ∙ append_assoc input (0 ∷ []) zeros), rw odd filled)
]

-- With enough rounds the bytes are rounded up to a multiple of eight.
pub length-pad :
    (n : ℕ) (input : List ℕ)
    → (8 - length input % 8) % 8 ≤ n
    → length (pad n input) ≡ length input + (8 - length input % 8) % 8
unfolding pad
length-pad zero input h = omega arith
length-pad (suc n) input h = elim (even_or_longer (length input)) [
  | inl even ↦ rw even (omega arith)
  | inr (odd, positive) ↦
      let longer : length (input ++ (0 ∷ [])) ≡ length input + 1 = length-append input (0 ∷ []) in
      let rest = length-pad n (input ++ (0 ∷ [])) (rw longer (omega arith)) in
      rw odd (omega (arith, rest, longer))
]
