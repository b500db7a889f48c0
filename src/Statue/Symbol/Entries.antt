-- ===== src/Statue/Symbol/Entries.antt =====
-- Every entry of a symbol table can be read.
use prisma_os.Base.{
  ℕ, ◌+◌, ◌*◌, ◌/◌, ◌%◌, ◌^◌, ◌≤◌, ◌<◌, ◌≡◌, ◌⊎◌, inl, inr, Bool, true, false, List, leb, length,
  refl, arith, le→leb,
}
use prisma_os.Base.Words.{add64, mul64, add64_lem}
use prisma_os.Statue.Error.{invalid_symbol}
use prisma_os.Statue.Parse.{Parse, ok, err, panic, ◌>>=◌, read_u16, read_u32, read_u64}
use prisma_os.Statue.Parse.Safety.{byte_at-ok, read_word-ok}
use prisma_os.Statue.Symbol.{
  binding_of, symbol_type_of, visibility_of, decode, symbol_size, parse_fields, parse, SymbolIter,
  new, parse_at, get,
}

-- A value, or the error of a malformed symbol.
abbrev pub Decodes {ℓ} : {A : Type ℓ} → Parse A → Type ℓ
Decodes {A} p = ((a : A) × (p ≡ ok a)) ⊎ (p ≡ err invalid_symbol)

Decodes-bind :
    {A B : Type 0} (m : Parse A) (f : A → Parse B)
    → Decodes m
    → ((a : A) → Decodes (f a))
    → Decodes (m >>= f)
Decodes-bind (ok a) f d k = k a
Decodes-bind (err e) f (inl (a, p)) k = cc
Decodes-bind (err e) f (inr p) k = inr cc
Decodes-bind panic f (inl (a, p)) k = cc
Decodes-bind panic f (inr p) k = cc

binding_of-Decodes : (n : ℕ) → Decodes (binding_of n)
unfolding binding_of
binding_of-Decodes n = ground arith

symbol_type_of-Decodes : (n : ℕ) → Decodes (symbol_type_of n)
unfolding symbol_type_of
symbol_type_of-Decodes n = ground arith

visibility_of-Decodes : (n : ℕ) → Decodes (visibility_of n)
unfolding visibility_of
visibility_of-Decodes n = ground arith

decode-Decodes :
    (name info other shndx value size : ℕ) → Decodes (decode name info other shndx value size)
unfolding decode
decode-Decodes name info other shndx value size =
    Decodes-bind (binding_of (info / 16)) _ (binding_of-Decodes (info / 16)) (λ b.
      Decodes-bind (symbol_type_of (info % 16)) _ (symbol_type_of-Decodes (info % 16)) (λ t.
        Decodes-bind (visibility_of (other % 4)) _ (visibility_of-Decodes (other % 4))
          (λ v. inl (_, refl))))

module _ (input : List ℕ) (at : ℕ) (le : Bool) where
  parse_fields-Decodes :
      (wide : Bool) → at + symbol_size wide ≤ length input → Decodes (parse_fields input at wide le)
  unfolding parse_fields read_u16 read_u32 read_u64
  parse_fields-Decodes true room =
      let (a, ea) = read_word-ok 4 input at le (omega arith) in
      let (b, eb) = byte_at-ok input (at + 4) (omega arith) in
      let (c, ec) = byte_at-ok input (at + 5) (omega arith) in
      let (d, ed) = read_word-ok 2 input (at + 6) le (omega arith) in
      let (e, ee) = read_word-ok 8 input (at + 8) le (omega arith) in
      let (f, ef) = read_word-ok 8 input (at + 16) le (omega arith) in
      rw (ea, eb, ec, ed, ee, ef) (decode-Decodes a b c d e f)
  parse_fields-Decodes false room =
      let (a, ea) = read_word-ok 4 input at le (omega arith) in
      let (b, eb) = read_word-ok 4 input (at + 4) le (omega arith) in
      let (c, ec) = read_word-ok 4 input (at + 8) le (omega arith) in
      let (d, ed) = byte_at-ok input (at + 12) (omega arith) in
      let (e, ee) = byte_at-ok input (at + 13) (omega arith) in
      let (f, ef) = read_word-ok 2 input (at + 14) le (omega arith) in
      rw (ea, eb, ec, ed, ee, ef) (decode-Decodes a d e f b c)

  parse-Decodes :
      (wide : Bool)
      → at + symbol_size wide ≤ length input
      → length input < 2 ^ 64
      → Decodes (parse input at wide le)
  unfolding parse
  parse-Decodes wide room small =
      let fits : leb (add64 at (symbol_size wide)) (length input) ≡ true =
        rw (add64_lem at (symbol_size wide) (omega arith)) (le→leb _ _ room) in
      rw fits (parse_fields-Decodes wide room)

-- What `new` returns.
new-fields :
    (input : List ℕ) (wide le : Bool) (it : SymbolIter)
    → new input wide le ≡ ok it
    → (length input % symbol_size wide ≡ 0)
      × (it.input ≡ input)
      × (it.count ≡ length input / symbol_size wide)
      × (it.entry_size ≡ symbol_size wide)
      × (it.wide ≡ wide)
      × (it.little_endian ≡ le)
unfolding new
new-fields input wide le it made = ground arith

whole :
    (wide : Bool) (n : ℕ) → n % symbol_size wide ≡ 0 → n / symbol_size wide * symbol_size wide ≡ n
whole true n h = omega arith
whole false n h = omega arith

inside :
    (wide : Bool) (i c n : ℕ)
    → c * symbol_size wide ≡ n
    → i < c
    → i * symbol_size wide + symbol_size wide ≤ n
inside true i c n e h = omega arith
inside false i c n e h = omega arith

mul64_lem : (a b : ℕ) → a * b < 2 ^ 64 → mul64 a b ≡ a * b
unfolding mul64
mul64_lem a b h = omega arith

-- The iterator made from a section has as many entries as fit, and every index below the count
-- can be read: it is a symbol, or a malformed one, but no read leaves the section.
pub get-new_symbols :
    (input : List ℕ) (wide le : Bool) (it : SymbolIter) (i : ℕ)
    → new input wide le ≡ ok it
    → length input < 2 ^ 64
    → i < it.count
    → (it.count * symbol_size wide ≡ length input) × Decodes (get it i)
unfolding get parse_at
get-new_symbols input wide le it i made small h =
    let (even, e, n, s, w, l) = new-fields input wide le it made in
    let filled : it.count * symbol_size wide ≡ length input =
      rw n (whole wide (length input) even) in
    let room = inside wide i it.count (length input) filled h in
    let there : leb it.count i ≡ false = ground arith in
    let place : mul64 i (symbol_size wide) ≡ i * symbol_size wide = mul64_lem i _ (omega arith) in
    (
      filled,
      rw (there, e, s, w, l, place) (parse-Decodes input (i * symbol_size wide) le wide room small),
    )
