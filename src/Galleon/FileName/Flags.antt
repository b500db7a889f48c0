-- ===== src/Galleon/FileName/Flags.antt =====
-- The flags of a file are read back from their word. The law is checked for all flags by evaluation.
use prisma_os.Base.{
  ℕ, zero, suc, ◌≡◌, ◌<◌, ◌^◌, refl, Bool, true, false, ◌&&◌, not, ltb, ltb→lt, arith,
}
use prisma_os.Galleon.FileName.{FileAttributes, to_u32, from_u32, has_bit}

same : Bool → Bool → Bool
same true b = b
same false b = not b

same_sound : (a b : Bool) → same a b ≡ true → a ≡ b
unfolding same
same_sound a b h = ground arith

first : (a b : Bool) → (a && b) ≡ true → a ≡ true
first a b h = ground arith

second : (a b : Bool) → (a && b) ≡ true → b ≡ true
second a b h = ground arith

-- A test of `n` truth values, whether all values pass it, and what it means that they do.
abbrev Test : ℕ → Type 0
Test zero = Bool
Test (suc n) = Bool → Test n

abbrev every : (n : ℕ) → Test n → Bool
every zero test = test
every (suc n) test = every n (test true) && every n (test false)

abbrev Passes : (n : ℕ) → Test n → Type 0
Passes zero test = test ≡ true
Passes (suc n) test = (b : Bool) → Passes n (test b)

every_sound : (n : ℕ) (test : Test n) → every n test ≡ true → Passes n test
every_sound zero test h = h
every_sound (suc n) test h = λ b. elim b as (λ c. Passes n (test c)) [
  | true ↦ every_sound n (test true) (first _ _ h)
  | false ↦ every_sound n (test false) (second _ _ h)
]

-- The test of all flags.
abbrev on_flags : (FileAttributes → Bool) → Test 11
on_flags test r h s d a n t p q c e = test (record {
  readonly = r;
  hidden = h;
  system = s;
  directory = d;
  archive = a;
  normal = n;
  temporary = t;
  sparse_file = p;
  reparse_point = q;
  compressed = c;
  encrypted = e;
})

flags_sound :
    (test : FileAttributes → Bool) (x : FileAttributes)
    → every 11 (on_flags test) ≡ true
    → test x ≡ true
flags_sound test x h =
    every_sound 11 (on_flags test) h x.readonly x.hidden x.system x.directory x.archive x.normal
      x.temporary x.sparse_file x.reparse_point x.compressed x.encrypted

abbrev keeps : (FileAttributes → Bool) → ℕ → FileAttributes → Bool
unfolding to_u32 same
keeps flag bit x = same (has_bit (to_u32 x) bit) (flag x)

abbrev IsKept : (FileAttributes → Bool) → ℕ → Type 0
IsKept flag bit = every 11 (on_flags (keeps flag bit)) ≡ true

has_bit-to_u32 :
    (flag : FileAttributes → Bool) (bit : ℕ)
    → IsKept flag bit
    → (x : FileAttributes) → has_bit (to_u32 x) bit ≡ flag x
unfolding to_u32 same
has_bit-to_u32 flag bit h x = same_sound _ _ (flags_sound (keeps flag bit) x h)

pub to_u32-lt : (x : FileAttributes) → to_u32 x < 256 ^ 4
unfolding to_u32
to_u32-lt x = ltb→lt _ _ (flags_sound (λ y. ltb (to_u32 y) (256 ^ 4)) x refl)

-- The flags are read back from their word as they were.
pub from_u32-to_u32 : (x : FileAttributes) → from_u32 (to_u32 x) ≡ x
unfolding from_u32 to_u32 same
from_u32-to_u32 x = rw (
  has_bit-to_u32 (λ y. y.readonly) 0x1 refl x,
  has_bit-to_u32 (λ y. y.hidden) 0x2 refl x,
  has_bit-to_u32 (λ y. y.system) 0x4 refl x,
  has_bit-to_u32 (λ y. y.directory) 0x10 refl x,
  has_bit-to_u32 (λ y. y.archive) 0x20 refl x,
  has_bit-to_u32 (λ y. y.normal) 0x80 refl x,
  has_bit-to_u32 (λ y. y.temporary) 0x100 refl x,
  has_bit-to_u32 (λ y. y.sparse_file) 0x200 refl x,
  has_bit-to_u32 (λ y. y.reparse_point) 0x400 refl x,
  has_bit-to_u32 (λ y. y.compressed) 0x800 refl x,
  has_bit-to_u32 (λ y. y.encrypted) 0x4000 refl x,
)
