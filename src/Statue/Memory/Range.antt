-- ===== src/Statue/Memory/Range.antt =====
-- `map_range` when the physical pages run out: its cleanup unmaps physical addresses.
use prisma_os.Base.{
  ℕ, suc, ◌+◌, ◌/◌, ◌<◌, ◌^◌, ◌≡◌, ◌≢◌, refl, inl, inr, List, [], ◌∷◌, ◌++◌, none, arith,
  Option-cases, ne→==, sym, ap, ◌∙◌,
}
use prisma_os.Base.Words.{add64, sub64, add64_lem, sub64_lem}
use prisma_os.Statue.Error.{ElfError, invalid_address, allocation_failed, Result, ok, err}
use prisma_os.Statue.Memory.{
  MemoryProtection, VirtualPage, lookup, insert, RealMemoryManager, page_of, map_page, unmap_page,
  unmap_all, map_pages, map_range, page_size, virtual_to_physical,
}
use prisma_os.Statue.Memory.Frames.{lookup-insert}

page_of-page_of : (v : ℕ) → page_of (page_of v) ≡ page_of v
page_of-page_of v = omega arith

abbrev page_entry : ℕ → ℕ → MemoryProtection → VirtualPage
page_entry page p prot = record { vaddr = page; paddr = p; protection = prot; ref_count = 1 }

map_last :
    (v p : ℕ) (prot : MemoryProtection) (m : RealMemoryManager)
    → lookup (page_of v) m.page_mappings ≡ none
    → m.free_pages ≡ p ∷ []
    → map_page v prot m ≡ (
      record m {
        free_pages = [];
        page_mappings = insert (page_of v) (page_entry (page_of v) p prot) m.page_mappings;
      },
      ok p,
    )
unfolding map_page
map_last v p prot m e f = ground arith

map_out :
    (v : ℕ) (prot : MemoryProtection) (m : RealMemoryManager)
    → m.free_pages ≡ []
    → (e : ElfError) × (map_page v prot m ≡ (m, err e))
unfolding map_page
map_out v prot m f = elim (Option-cases (lookup (page_of v) m.page_mappings)) [
  | inl e ↦ (allocation_failed, ground arith)
  | inr (q, e) ↦ (invalid_address, ground arith)
]

unmap_missing :
    (v : ℕ) (m : RealMemoryManager)
    → lookup (page_of v) m.page_mappings ≡ none
    → (unmap_page v m).0 ≡ m
unfolding unmap_page
unmap_missing v m e = ground arith

map_pages-ok :
    (k page p : ℕ) (prot : MemoryProtection) (mapped : List ℕ) (m n : RealMemoryManager)
    → map_page page prot m ≡ (n, ok p)
    → map_pages (suc k) page prot mapped m
      ≡ map_pages k (add64 page page_size) prot (mapped ++ p ∷ []) n
unfolding map_pages
map_pages-ok k page p prot mapped m n e =
    rw (e, map_pages) (ap (λ r. map_pages k (add64 page page_size) prot (mapped ++ p ∷ []) r.0) e)

map_pages-err :
    (k page : ℕ) (x : ElfError) (prot : MemoryProtection) (mapped : List ℕ)
    (m n : RealMemoryManager)
    → map_page page prot m ≡ (n, err x)
    → map_pages (suc k) page prot mapped m ≡ (unmap_all mapped n, err x)
unfolding map_pages
map_pages-err k page x prot mapped m n e =
    rw (e, map_pages) (ap (λ (r : RealMemoryManager × Result ℕ). (unmap_all mapped r.0, err x)) e)

module _ (page p : ℕ) (prot : MemoryProtection) (m : RealMemoryManager) where
  leaked : RealMemoryManager
  leaked = record m {
    free_pages = [];
    page_mappings = insert (page_of page) (page_entry (page_of page) p prot) m.page_mappings;
  }

  two_pages :
      lookup (page_of page) m.page_mappings ≡ none
      → m.free_pages ≡ p ∷ []
      → lookup (page_of p) m.page_mappings ≡ none
      → page_of p ≢ page_of page
      → (e : ElfError) × (map_pages 2 page prot [] m ≡ (leaked, err e))
  unfolding unmap_all leaked
  two_pages unmapped one not_virtual apart =
      let (e, out) = map_out (add64 page page_size) prot leaked refl in
      let kept : (unmap_page p leaked).0 ≡ leaked = unmap_missing p leaked (
        lookup-insert (page_of page) (page_of p) (page_entry (page_of page) p prot) m.page_mappings
        ∙ rw (ne→== (page_of page) (page_of p) (λ same. apart (sym same))) not_virtual) in
      (
        e,
        map_pages-ok 1 page p prot [] m leaked (map_last page p prot m unmapped one)
            ∙ map_pages-err 0 (add64 page page_size) e prot (p ∷ []) leaked leaked out
            ∙ ap (λ (x : RealMemoryManager). (x, err e)) kept,
      )

-- With one physical page left, mapping a range of two pages that does not wrap, whose first page is not
-- mapped, fails, but leaves its first page mapped to that physical page, which is free no more: the
-- cleanup unmaps the address of the physical page, `p`, as if it were virtual. This is when no page is
-- mapped at that virtual address and it does not lie in the first page of the range.
pub map_range_leaks :
    (v size p : ℕ) (prot : MemoryProtection) (m : RealMemoryManager)
    → v + size + 4095 < 2 ^ 64
    → page_of (v + size + 4095) ≡ page_of v + 8192
    → lookup (page_of v) m.page_mappings ≡ none
    → m.free_pages ≡ p ∷ []
    → lookup (page_of p) m.page_mappings ≡ none
    → page_of p ≢ page_of v
    → (e : ElfError) × (n : RealMemoryManager) × (map_range v size prot m ≡ (n, err e))
      × (n.free_pages ≡ [])
      × (virtual_to_physical (page_of v) n ≡ ok p)
unfolding map_range leaked virtual_to_physical
map_range_leaks v size p prot m small two unmapped one not_virtual apart =
    let start = page_of-page_of v in
    let (e, failed) =
      two_pages (page_of v) p prot m (rw start unmapped) one not_virtual
        (λ same. apart (same ∙ start)) in
    let rounds : sub64 (page_of (add64 (add64 v size) 4095)) (page_of v) / page_size ≡ 2 =
      rw (add64_lem v size (omega arith), add64_lem (v + size) 4095 small)
        (omega
          (arith, sub64_lem (page_of (v + size + 4095)) (page_of v) (omega arith) (omega arith))) in
    (
      e,
      leaked (page_of v) p prot m,
      rw rounds failed,
      refl,
      ground (
        arith,
        lookup-insert (page_of (page_of v)) (page_of (page_of v))
            (page_entry (page_of (page_of v)) p prot) m.page_mappings,
      ),
    )
