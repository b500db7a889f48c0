-- ===== src/Galleon/FileRecord/Examples/Drive.antt =====
-- A drive in memory: the byte at each address. It keeps what is written, and counts as one of 2 ^ 28
-- sectors.
use prisma_os.Base.{
  ℕ, zero, suc, ◌+◌, ◌*◌, ◌-◌, ◌≤◌, ◌<◌, ◌≡◌, refl, ◌∙◌, ap, sym, List, [], ◌∷◌, ◌&&◌, none, leb,
  ltb, if◌then◌else◌, length, get_or, arith, ◌^◌, ◌⊎◌,
}
use prisma_os.Galleon.Volume.{Ide, bytes}
use prisma_os.Galleon.Mft.Manager.Storing.{IsDisk}

-- The bytes from an address on.
unfoldable pub tabulate : ℕ → ℕ → (ℕ → ℕ) → List ℕ
tabulate zero at disk = []
tabulate (suc n) at disk = disk at ∷ tabulate n (at + 1) disk

unfoldable pub put : ℕ → ℕ → List ℕ → (ℕ → ℕ) → ℕ → ℕ
put first behind buffer disk a =
    if leb first a && ltb a behind then get_or buffer (a - first) 0 else disk a

abbrev pub drive : Ide (ℕ → ℕ)
drive = record {
  read_sectors =
      λ disk drive_number count sector. bytes (tabulate (count * 512) (sector * 512) disk);
  write_sectors = λ disk drive_number count sector buffer.
      (put (sector * 512) ((sector + count) * 512) buffer disk, none);
}

pub length-tabulate : (n at : ℕ) (disk : ℕ → ℕ) → length (tabulate n at disk) ≡ n
unfolding tabulate
length-tabulate zero at disk = refl
length-tabulate (suc n) at disk = ap suc (length-tabulate n (at + 1) disk)

tabulate_same :
    (n at : ℕ) (disk other : ℕ → ℕ)
    → ((a : ℕ) → at ≤ a → a < at + n → disk a ≡ other a)
    → tabulate n at disk ≡ tabulate n at other
unfolding tabulate
tabulate_same zero at disk other same = refl
tabulate_same (suc n) at disk other same =
    rw
      (
        same at (omega arith) (omega arith),
        tabulate_same n (at + 1) disk other (λ a low high. same a (omega arith) (omega arith)),
      )
      refl

tabulate_all :
    (buffer : List ℕ) (n at : ℕ) (disk : ℕ → ℕ)
    → length buffer ≡ n
    → ((i : ℕ) → i < n → disk (at + i) ≡ get_or buffer i 0)
    → tabulate n at disk ≡ buffer
unfolding tabulate
tabulate_all [] zero at disk size same = refl
tabulate_all [] (suc n) at disk size same = absurd (omega arith)
tabulate_all (b ∷ buffer) zero at disk size same = absurd (omega arith)
tabulate_all (b ∷ buffer) (suc n) at disk size same =
    let e : at + 0 ≡ at = omega arith in
    let first : disk at ≡ b = ap disk (sym e) ∙ same 0 (omega arith) in
    let rest = tabulate_all buffer n (at + 1) disk (omega arith) (λ i h.
      let e' : at + 1 + i ≡ at + suc i = omega arith in ap disk e' ∙ same (suc i) (omega arith)) in
    rw (first, rest) refl

pub tabulate-put :
    (count sector : ℕ) (buffer : List ℕ) (disk : ℕ → ℕ)
    → length buffer ≡ count * 512
    → tabulate
        (count * 512)
        (sector * 512)
        (put (sector * 512) ((sector + count) * 512) buffer disk)
      ≡ buffer
unfolding put
tabulate-put count sector buffer disk size =
    tabulate_all buffer (count * 512) (sector * 512) _ size
      (λ i h. let e : sector * 512 + i - sector * 512 ≡ i = omega arith in ground arith)

pub tabulate-put_other :
    (count sector other_count other : ℕ) (buffer : List ℕ) (disk : ℕ → ℕ)
    → (other + other_count ≤ sector) ⊎ (sector + count ≤ other)
    → tabulate
        (other_count * 512)
        (other * 512)
        (put (sector * 512) ((sector + count) * 512) buffer disk)
      ≡ tabulate (other_count * 512) (other * 512) disk
unfolding put
tabulate-put_other count sector other_count other buffer disk apart =
    tabulate_same (other_count * 512) (other * 512) _ disk (λ a low high. ground arith)

pub bytes-eq : {a b : List ℕ} → bytes a ≡ bytes b → a ≡ b
bytes-eq h = cc

unfoldable pub drive-IsDisk : IsDisk drive
drive-IsDisk = record {
  capacity = λ d. 2 ^ 28;
  capacity_small = λ d. omega arith;
  read_length = λ disk d count sector sectors h.
      ap length (sym (bytes-eq h)) ∙ length-tabulate (count * 512) (sector * 512) disk;
  read_back = λ disk d count sector buffer some_there inside size done.
      ap bytes (tabulate-put count sector buffer disk size);
  read_other = λ disk d count sector buffer other_count other some_there inside there apart.
      ap bytes (tabulate-put_other count sector other_count other buffer disk apart);
}
