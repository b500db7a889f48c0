-- ===== src/Galleon/Mft/Manager/Clusters.antt =====
-- The buffer of a cluster, and where the records stand in it.
use prisma_os.Base.{
  ℕ, ◌+◌, ◌-◌, ◌≤◌, ◌≡◌, ◌⊎◌, inl, inr, refl, ◌∙◌, ap, sym, List, ◌++◌, length, length-append,
  append_assoc, arith, take, drop, take-append_le, drop-append_le, take-append_at, drop-append_at,
  length-drop, replicate, take-drop,
}
use prisma_os.Base.Fields.{slice_at, drop-drop}
use prisma_os.Galleon.Mft.Manager.{fill, overwrite}

length-take : (k : ℕ) (xs : List ℕ) → k ≤ length xs → length (take k xs) ≡ k
length-take k xs h =
    let whole = ap length (take-drop k xs) in
    omega (arith, length-append (take k xs) (drop k xs), length-drop k xs, whole)

slice_at-append :
    (front behind : List ℕ) (at n : ℕ)
    → at + n ≤ length front
    → slice_at (front ++ behind) at n ≡ slice_at front at n
slice_at-append front behind at n h =
    ap (take n) (drop-append_le at front behind (omega arith))
    ∙ take-append_le n (drop at front) behind (omega (arith, length-drop at front))

-- A slice of what the driver gave does not see the zeros behind it.
pub slice_at-fill :
    (sectors : List ℕ) (at n : ℕ)
    → at + n ≤ length sectors
    → slice_at (fill sectors) at n ≡ slice_at sectors at n
slice_at-fill sectors at n h =
    slice_at-append sectors (drop (length sectors) (replicate 4096 0)) at n h

module _ (offset : ℕ) (new buffer : List ℕ) (room : offset + length new ≤ length buffer) where
  pub length-overwrite : length (overwrite offset new buffer) ≡ length buffer
  length-overwrite = omega (
    arith,
    length-append (take offset buffer) (new ++ drop (offset + length new) buffer),
    length-append new (drop (offset + length new) buffer),
    length-take offset buffer,
    length-drop (offset + length new) buffer,
  )

  -- Writing does not see the bytes behind.
  pub overwrite-append :
      (behind : List ℕ)
      → overwrite offset new (buffer ++ behind) ≡ overwrite offset new buffer ++ behind
  overwrite-append behind =
      let front = take-append_le offset buffer behind (omega arith) in
      let back = drop-append_le (offset + length new) buffer behind room in
      rw (front, back) (simp append_assoc refl)

  -- What was written is there.
  pub slice_at-overwrite : slice_at (overwrite offset new buffer) offset (length new) ≡ new
  slice_at-overwrite =
      let rest = drop (offset + length new) buffer in
      ap (take (length new)) (
        drop-append_at offset (take offset buffer) (new ++ rest)
          (length-take offset buffer (omega arith)))
      ∙ take-append_at (length new) new rest refl

  -- What stood elsewhere stays.
  pub slice_at-overwrite_other :
      (at n : ℕ)
      → (at + n ≤ offset) ⊎ (offset + length new ≤ at)
      → slice_at (overwrite offset new buffer) at n ≡ slice_at buffer at n
  slice_at-overwrite_other at n (inl before) =
      let kept = take offset buffer in
      let size = length-take offset buffer (omega arith) in
      slice_at-append kept (new ++ drop (offset + length new) buffer) at n (omega arith)
      ∙ sym (slice_at-append kept (drop offset buffer) at n (omega arith))
      ∙ ap (λ xs. slice_at xs at n) (take-drop offset buffer)
  slice_at-overwrite_other at n (inr after) =
      let end = offset + length new in
      let k = at - end in
      let e : at ≡ end + k = omega arith in
      let front = take offset buffer ++ new in
      let size : length front ≡ end =
        omega (arith, length-append (take offset buffer) new, length-take offset buffer) in
      let whole = overwrite offset new buffer in
      let rest : drop end whole ≡ drop end buffer =
        ap (drop end) (sym (append_assoc (take offset buffer) new (drop end buffer)))
        ∙ drop-append_at end front (drop end buffer) size in
      rw (e, drop-drop end k whole, rest) (ap (take n) (sym (drop-drop end k buffer)))
