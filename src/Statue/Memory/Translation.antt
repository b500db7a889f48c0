-- ===== src/Statue/Memory/Translation.antt =====
-- Address translation: what a mapping makes of an address, bounds, and isolation.
use prisma_os.Base.{
  ℕ, ◌+◌, ◌%◌, ◌<◌, ◌≤◌, ◌≡◌, ◌≢◌, inl, inr, none, some, ◌==◌, if◌then◌else◌, length, arith,
  Option-cases, Bool-cases, ltb, ltb→lt, ltb→ge, ◌⊎◌, [], ◌∷◌, ap, subst, sym, ◌∙◌,
}
use prisma_os.Statue.Error.{ok}
use prisma_os.Statue.Memory.{
  MemoryProtection, PageMap, VirtualPage, lookup, insert, remove, RealMemoryManager, page_of,
  offset_of, map_page, unmap_page, virtual_to_physical,
}
use prisma_os.Statue.Memory.Frames.{
  IsMemory, count_mapped, count_mapped-lookup, lookup-insert, mapped_twice,
}
use prisma_os.Statue.Memory.Mapping.{map_page-cases}

-- A mapped page has a physical page inside the memory.
pub mapped_frame :
    (m : RealMemoryManager) (k : ℕ) (page : VirtualPage)
    → IsMemory m
    → lookup k m.page_mappings ≡ some page
    → (page.paddr % 4096 ≡ 0) × (page.paddr < length m.physical_memory)
mapped_frame m k page w e =
    let twice = count_mapped-lookup k page.paddr m.page_mappings page e in
    let all = w.accounted page.paddr in (ground (arith, twice, all), ground (arith, twice, all))

-- A translated address lies in the physical memory, at the same offset in its page.
pub virtual_to_physical_bounds :
    (m : RealMemoryManager) (v p : ℕ)
    → IsMemory m
    → virtual_to_physical v m ≡ ok p
    → (p < length m.physical_memory) × (p % 4096 ≡ v % 4096)
unfolding virtual_to_physical
virtual_to_physical_bounds m v p w e = elim (Option-cases (lookup (page_of v) m.page_mappings)) [
  | inl gone ↦ absurd (ground arith)
  | inr (page, e') ↦
      let (aligned, inside) = mapped_frame m (page_of v) page w e' in
      let same : page.paddr + offset_of v ≡ p = ground arith in
      (omega (arith, w.whole), omega arith)
]

-- The physical pages of two mapped pages lie apart.
pub mapped_apart :
    (m : RealMemoryManager) (j k : ℕ) (a b : VirtualPage)
    → IsMemory m
    → lookup j m.page_mappings ≡ some a
    → lookup k m.page_mappings ≡ some b
    → j ≢ k
    → (a.paddr + 4096 ≤ b.paddr) ⊎ (b.paddr + 4096 ≤ a.paddr)
mapped_apart m j k a b w ea eb apart =
    let (aligned_a, inside_a) = mapped_frame m j a w ea in
    let (aligned_b, inside_b) = mapped_frame m k b w eb in
    let once : count_mapped a.paddr m.page_mappings ≤ 1 = ground (arith, w.accounted a.paddr) in
    elim (ℕ-cases a.paddr b.paddr) [
      | inl shared ↦
          absurd (omega (arith, mapped_twice j k m.page_mappings a b ea eb apart shared, once))
      | inr other ↦ separate other aligned_a aligned_b
    ]
  where
    ℕ-cases : (x y : ℕ) → (x ≡ y) ⊎ (x ≢ y)
    ℕ-cases x y = ground arith

    separate : {x y : ℕ} → x ≢ y → x % 4096 ≡ 0 → y % 4096 ≡ 0 → (x + 4096 ≤ y) ⊎ (y + 4096 ≤ x)
    separate {x} {y} h p q = elim (Bool-cases (ltb x y)) [
      | inl below ↦ let lt = ltb→lt x y below in inl (omega arith)
      | inr above ↦ let ge = ltb→ge x y above in inr (omega arith)
    ]

-- Addresses of different virtual pages never reach one physical page.
pub virtual_to_physical_isolated :
    (m : RealMemoryManager) (v u p q : ℕ)
    → IsMemory m
    → virtual_to_physical v m ≡ ok p
    → virtual_to_physical u m ≡ ok q
    → page_of v ≢ page_of u
    → page_of p ≢ page_of q
unfolding virtual_to_physical
virtual_to_physical_isolated m v u p q w ev eu apart clash =
    elim (Option-cases (lookup (page_of v) m.page_mappings)) [
      | inl gone ↦ absurd (ground arith)
      | inr (a, ea) ↦ elim (Option-cases (lookup (page_of u) m.page_mappings)) [
        | inl gone ↦ absurd (ground arith)
        | inr (b, eb) ↦
            let far = mapped_apart m (page_of v) (page_of u) a b w ea eb apart in
            let at_p : a.paddr + offset_of v ≡ p = ground arith in
            let at_q : b.paddr + offset_of u ≡ q = ground arith in
            let whole_a = (mapped_frame m (page_of v) a w ea).0 in
            let whole_b = (mapped_frame m (page_of u) b w eb).0 in
            omega (arith, far, whole_a, whole_b)
      ]
    ]

-- After a page is mapped every address of it translates into the returned physical page, and every
-- other address translates as before.
pub map_page-virtual_to_physical :
    (m n : RealMemoryManager) (v p u : ℕ) (prot : MemoryProtection)
    → map_page v prot m ≡ (n, ok p)
    → virtual_to_physical u n
      ≡ (if page_of v == page_of u then ok (p + offset_of u) else virtual_to_physical u m)
unfolding virtual_to_physical
map_page-virtual_to_physical m n v p u prot e = elim (map_page-cases v prot m) [
  | inl (x, failed) ↦ absurd (ground arith)
  | inr (p', rest, unmapped, free, moved) ↦ ground (
    arith,
    lookup-insert (page_of v) (page_of u)
        (record { vaddr = page_of v; paddr = p'; protection = prot; ref_count = 1 })
        m.page_mappings,
  )
]

remove-insert_new :
    (k : ℕ) (page : VirtualPage) (m : PageMap) → lookup k m ≡ none → remove k (insert k page m) ≡ m
unfolding lookup insert remove
remove-insert_new k page [] e = ground arith
remove-insert_new k page ((j, q) ∷ m) e = ground (arith, remove-insert_new k page m)

-- Unmapping the page that was just mapped succeeds and gives the memory back as it was.
pub unmap_page-map_page :
    (m n : RealMemoryManager) (v p : ℕ) (prot : MemoryProtection)
    → map_page v prot m ≡ (n, ok p)
    → unmap_page v n ≡ (m, ok tt)
unfolding unmap_page
unmap_page-map_page m n v p prot e = elim (map_page-cases v prot m) [
  | inl (x, failed) ↦ absurd (ground arith)
  | inr (p', rest, unmapped, free, moved) ↦
      let page : VirtualPage = record {
        vaddr = page_of v;
        paddr = p';
        protection = prot;
        ref_count = 1;
      } in
      let same = ap (λ x. x.0) (sym moved ∙ e) in
      subst (λ x. unmap_page v x ≡ (m, ok tt)) same
        (ground (
          arith,
          lookup-insert (page_of v) (page_of v) page m.page_mappings,
          remove-insert_new (page_of v) page m.page_mappings unmapped,
          free,
        ))
]
