-- ===== src/Statue/Memory/Frames.antt =====
-- Every physical page is free, or mapped by exactly one virtual page.
use prisma_os.Base.{
  ℕ, zero, suc, ◌+◌, ◌*◌, ◌/◌, ◌%◌, ◌≤◌, ◌≡◌, ◌≢◌, refl, inl, inr, false, ◌&&◌, List, [], ◌∷◌, none,
  some, ltb, ◌==◌, if◌then◌else◌, length, length-replicate, arith, Bool-cases, subst, sym, ◌∙◌, ap,
  ◌↔◌,
}
use prisma_os.Statue.Error.{ok}
use prisma_os.Statue.Memory.{
  VirtualPage, PageMap, lookup, insert, remove, RealMemoryManager, page_stack, new, fresh,
}

abbrev pub hit : ℕ → ℕ → ℕ
hit a p = if a == p then 1 else 0

-- How often a physical page stands in the free list, and how many virtual pages are mapped to it.
abbrev pub count_free : ℕ → List ℕ → ℕ
count_free p [] = 0
count_free p (a ∷ as') = hit a p + count_free p as'

abbrev pub count_mapped : ℕ → PageMap → ℕ
count_mapped p [] = 0
count_mapped p ((k, page) ∷ m) = hit page.paddr p + count_mapped p m

-- Whether `p` is the address of a page below `limit`.
abbrev pub frame : ℕ → ℕ → ℕ
frame limit p = if p % 4096 == 0 && ltb p limit then 1 else 0

pub record IsMemory (m : RealMemoryManager) : Type 0 where
  pub whole : length m.physical_memory % 4096 ≡ 0
  pub accounted :
      (p : ℕ)
      → count_free p m.free_pages + count_mapped p m.page_mappings
        ≡ frame (length m.physical_memory) p

pub count_mapped-lookup :
    (k p : ℕ) (m : PageMap) (page : VirtualPage)
    → lookup k m ≡ some page
    → count_mapped p m ≡ hit page.paddr p + count_mapped p (remove k m)
unfolding lookup remove
count_mapped-lookup k p [] page e = cc
count_mapped-lookup k p ((j, q) ∷ m) page e = elim (Bool-cases (j == k)) [
  | inl same ↦
      let found : q ≡ page = ground arith in
      rw same (
        subst (λ x. hit q.paddr p + count_mapped p m ≡ hit x.paddr p + count_mapped p m) found refl)
  | inr other ↦ rw other (omega (arith, count_mapped-lookup k p m page (ground arith)))
]

pub count_mapped-insert_new :
    (k p : ℕ) (m : PageMap) (page : VirtualPage)
    → lookup k m ≡ none
    → count_mapped p (insert k page m) ≡ hit page.paddr p + count_mapped p m
unfolding lookup insert
count_mapped-insert_new k p [] page e = refl
count_mapped-insert_new k p ((j, q) ∷ m) page e = elim (Bool-cases (j == k)) [
  | inl same ↦ absurd (ground arith)
  | inr other ↦ rw other (omega (arith, count_mapped-insert_new k p m page (ground arith)))
]

pub count_mapped-insert_old :
    (k p : ℕ) (m : PageMap) (page old : VirtualPage)
    → lookup k m ≡ some old
    → page.paddr ≡ old.paddr
    → count_mapped p (insert k page m) ≡ count_mapped p m
unfolding lookup insert
count_mapped-insert_old k p [] page old e same_paddr = cc
count_mapped-insert_old k p ((j, q) ∷ m) page old e same_paddr = elim (Bool-cases (j == k)) [
  | inl same ↦ let found : q.paddr ≡ page.paddr = ground arith in rw (same, found) refl
  | inr other ↦
      rw other (omega (arith, count_mapped-insert_old k p m page old (ground arith) same_paddr))
]

pub lookup-insert :
    (k j : ℕ) (page : VirtualPage) (m : PageMap)
    → lookup j (insert k page m) ≡ (if k == j then some page else lookup j m)
unfolding lookup insert
lookup-insert k j page [] = refl
lookup-insert k j page ((i, q) ∷ m) = ground (arith, lookup-insert k j page m)

pub lookup-remove_ne :
    (k j : ℕ) (m : PageMap) → (k == j) ≡ false → lookup j (remove k m) ≡ lookup j m
unfolding lookup remove
lookup-remove_ne k j [] h = refl
lookup-remove_ne k j ((i, q) ∷ m) h = ground (arith, lookup-remove_ne k j m)

-- Two virtual pages that are mapped to one physical page count twice.
pub mapped_twice :
    (j k : ℕ) (m : PageMap) (a b : VirtualPage)
    → lookup j m ≡ some a
    → lookup k m ≡ some b
    → j ≢ k
    → a.paddr ≡ b.paddr
    → 2 ≤ count_mapped a.paddr m
mapped_twice j k m a b ea eb apart same =
    let rest = lookup-remove_ne j k m (ground arith) in
    omega (
      arith,
      count_mapped-lookup j a.paddr m a ea,
      count_mapped-lookup k a.paddr (remove j m) b (rest ∙ eb),
      hit_self a.paddr a.paddr refl,
      hit_self b.paddr a.paddr (sym same),
    )
  where
    hit_self : (x y : ℕ) → x ≡ y → hit x y ≡ 1
    hit_self x y e = ground arith

count_free-page_stack : (n p : ℕ) → count_free p (page_stack n) ≡ frame (n * 4096) p
unfolding page_stack
count_free-page_stack zero p = ground arith
count_free-page_stack (suc n) p = ground (arith, count_free-page_stack n p)

-- A new memory accounts for every page: all of them are free, and none is mapped.
pub fresh-IsMemory : (size : ℕ) → size % 4096 ≡ 0 → IsMemory (fresh size)
unfolding fresh
fresh-IsMemory size h =
    let len = length-replicate {A = ℕ} size 0 in
    let pages : size / 4096 * 4096 ≡ size = omega arith in
    record {
      whole = omega (arith, len);
      accounted = λ p. rw len (count_free-page_stack_at (size / 4096) size p pages);
    }
  where
    count_free-page_stack_at :
        (n limit p : ℕ) → n * 4096 ≡ limit → count_free p (page_stack n) + 0 ≡ frame limit p
    count_free-page_stack_at n limit p e =
        omega (arith, count_free-page_stack n p, ap (λ l. frame l p) e)

-- A memory is made for every size that is a multiple of the page size, and for no other. It has that
-- many bytes, no page is mapped, and every page is accounted for as free.
pub new-IsMemory :
    (size : ℕ)
    → (size % 4096 ≡ 0) ↔ (
        (m : RealMemoryManager) × (new size ≡ ok m)
        × IsMemory m
        × (length m.physical_memory ≡ size)
        × (m.page_mappings ≡ []))
unfolding new
new-IsMemory size = (
  λ h. (fresh size, ground arith, fresh-IsMemory size h, length-replicate {A = ℕ} size 0, refl),
  λ (m, e, w, l, n). ground arith,
)
