-- ===== src/Statue/Memory/Mapping.antt =====
-- Mapping, unmapping and protecting pages keep the account of the physical pages, on every branch.
use prisma_os.Base.{
  ℕ, zero, suc, ◌≡◌, refl, ◌/◌, ◌⊎◌, inl, inr, List, [], ◌∷◌, ◌++◌, none, arith, Option-cases, ap,
}
use prisma_os.Base.Words.{add64, sub64}
use prisma_os.Statue.Error.{ElfError, invalid_address, allocation_failed, ok, err}
use prisma_os.Statue.Memory.{
  MemoryProtection, lookup, insert, RealMemoryManager, page_of, map_page, unmap_page, protect_page,
  unmap_all, map_pages, map_range, page_size,
}
use prisma_os.Statue.Memory.Frames.{
  IsMemory, count_free, count_mapped-lookup, count_mapped-insert_new, count_mapped-insert_old,
}

-- The list of free pages is empty or has a head.
List-cases : (l : List ℕ) → (l ≡ []) ⊎ ((a : ℕ) × (rest : List ℕ) × (l ≡ a ∷ rest))
List-cases [] = inl refl
List-cases (a ∷ rest) = inr (a, rest, refl)

-- Mapping a page moves the top free page to the mapping, or fails and changes nothing.
pub map_page-cases :
    (v : ℕ) (prot : MemoryProtection) (m : RealMemoryManager)
    → ((e : ElfError) × (map_page v prot m ≡ (m, err e)))
      ⊎ ((p : ℕ) × (rest : List ℕ) × (lookup (page_of v) m.page_mappings ≡ none)
          × (m.free_pages ≡ p ∷ rest)
          × (map_page v prot m ≡ (
            record m {
              free_pages = rest;
              page_mappings =
                  insert
                    (page_of v)
                    (record { vaddr = page_of v; paddr = p; protection = prot; ref_count = 1 })
                    m.page_mappings;
            },
            ok p,
          )))
unfolding map_page
map_page-cases v prot m = elim (Option-cases (lookup (page_of v) m.page_mappings)) [
  | inr (q, e) ↦ inl (invalid_address, rw (e, map_page))
  | inl e ↦ elim (List-cases m.free_pages) [
    | inl out ↦ inl (allocation_failed, ground arith)
    | inr (p, rest, e') ↦ inr (p, rest, e, e', ground arith)
  ]
]

pub map_page-IsMemory :
    (v : ℕ) (prot : MemoryProtection) (m : RealMemoryManager)
    → IsMemory m
    → IsMemory (map_page v prot m).0
map_page-IsMemory v prot m w = elim (map_page-cases v prot m) [
  | inl (e, same) ↦ rw same w
  | inr (p, rest, unmapped, free, moved) ↦ rw moved (record {
    whole = w.whole;
    accounted = λ a. omega (
      arith,
      w.accounted a,
      ap (count_free a) free,
      count_mapped-insert_new (page_of v) a m.page_mappings
          (record { vaddr = page_of v; paddr = p; protection = prot; ref_count = 1 }) unmapped,
    );
  })
]

pub unmap_page-IsMemory : (v : ℕ) (m : RealMemoryManager) → IsMemory m → IsMemory (unmap_page v m).0
unfolding unmap_page
unmap_page-IsMemory v m w = elim (Option-cases (lookup (page_of v) m.page_mappings)) [
  | inl e ↦ rw (e, unmap_page) w
  | inr (page, e) ↦
      rw (e, unmap_page)
        (record {
          whole = w.whole;
          accounted = λ a.
              omega
                (arith, w.accounted a, count_mapped-lookup (page_of v) a m.page_mappings page e);
        })
]

pub protect_page-IsMemory :
    (v : ℕ) (prot : MemoryProtection) (m : RealMemoryManager)
    → IsMemory m
    → IsMemory (protect_page v prot m).0
unfolding protect_page
protect_page-IsMemory v prot m w = elim (Option-cases (lookup (page_of v) m.page_mappings)) [
  | inl e ↦ rw (e, protect_page) w
  | inr (page, e) ↦
      rw (e, protect_page)
        (record {
          whole = w.whole;
          accounted = λ a. omega (
            arith,
            w.accounted a,
            count_mapped-insert_old (page_of v) a m.page_mappings
                (record page { protection = prot }) page e refl,
          );
        })
]

unmap_all-IsMemory : (ps : List ℕ) (m : RealMemoryManager) → IsMemory m → IsMemory (unmap_all ps m)
unfolding unmap_all
unmap_all-IsMemory [] m w = w
unmap_all-IsMemory (p ∷ ps) m w =
    unmap_all-IsMemory ps (unmap_page p m).0 (unmap_page-IsMemory p m w)

map_pages-IsMemory :
    (n page : ℕ) (prot : MemoryProtection) (mapped : List ℕ) (m : RealMemoryManager)
    → IsMemory m
    → IsMemory (map_pages n page prot mapped m).0
unfolding map_pages
map_pages-IsMemory zero page prot mapped m w = w
map_pages-IsMemory (suc n) page prot mapped m w =
    let next = map_page-IsMemory page prot m w in
    elim (map_page-cases page prot m) [
      | inl (e, same) ↦
          rw (same, map_pages) (unmap_all-IsMemory mapped (map_page page prot m).0 next)
      | inr (p, rest, unmapped, free, moved) ↦
          rw (moved, map_pages)
            (map_pages-IsMemory n (add64 page page_size) prot (mapped ++ p ∷ [])
              (map_page page prot m).0 next)
    ]

-- Mapping a range keeps the account, whether it succeeds, or fails and cleans up.
pub map_range-IsMemory :
    (v size : ℕ) (prot : MemoryProtection) (m : RealMemoryManager)
    → IsMemory m
    → IsMemory (map_range v size prot m).0
unfolding map_range
map_range-IsMemory v size prot m w =
    map_pages-IsMemory (sub64 (page_of (add64 (add64 v size) 4095)) (page_of v) / page_size)
      (page_of v) prot [] m w
