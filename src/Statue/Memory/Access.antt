-- ===== src/Statue/Memory/Access.antt =====
-- Reads and writes through virtual addresses.
use prisma_os.Base.{
  ℕ, ◌+◌, ◌%◌, ◌≤◌, ◌≡◌, ◌≢◌, refl, inl, inr, true, false, List, none, some, length, take, drop,
  arith, Option-cases, subst, sym, ◌∙◌, le→ltb, lt→ltb, ◌<◌, ◌^◌,
}
use prisma_os.Statue.Error.{invalid_address, permission_denied, ok, err}
use prisma_os.Statue.Memory.{
  MemoryProtection, VirtualPage, lookup, RealMemoryManager, page_of, offset_of, protect_page,
  read_virtual, write_virtual, copy_into, returned, sliced,
}
use prisma_os.Statue.Memory.Frames.{IsMemory, lookup-insert}
use prisma_os.Statue.Memory.Slices.{
  read_copied, length-copy_into, slice_before_copied, slice_after_copied,
}
use prisma_os.Statue.Memory.Translation.{mapped_apart}

-- A successful write went to a writable page, stayed in the memory, and copied the bytes there.
write_virtual-ok :
    (v : ℕ) (bytes : List ℕ) (m n : RealMemoryManager)
    → write_virtual v bytes m ≡ (n, returned (ok tt))
    → (page : VirtualPage) × (lookup (page_of v) m.page_mappings ≡ some page)
      × (page.protection.write ≡ true)
      × (page.paddr + offset_of v + length bytes ≤ length m.physical_memory)
      × (page.paddr + offset_of v + length bytes < 2 ^ 64)
      × (record m { physical_memory = copy_into m.physical_memory (page.paddr + offset_of v) bytes }
          ≡ n)
unfolding write_virtual
write_virtual-ok v bytes m n e = elim (Option-cases (lookup (page_of v) m.page_mappings)) [
  | inl gone ↦ absurd (ground arith)
  | inr (page, found) ↦ (page, found, ground arith, ground arith, ground arith, ground arith)
]

read_at :
    (u s : ℕ) (m : RealMemoryManager) (page : VirtualPage)
    → lookup (page_of u) m.page_mappings ≡ some page
    → read_virtual u s m ≡ (
        sliced
          (page.paddr + offset_of u)
          s
          (length m.physical_memory)
          (take s (drop (page.paddr + offset_of u) m.physical_memory)))
unfolding read_virtual
read_at u s m page e = ground arith

read_none :
    (u s : ℕ) (m : RealMemoryManager)
    → lookup (page_of u) m.page_mappings ≡ none
    → read_virtual u s m ≡ returned (err invalid_address)
unfolding read_virtual
read_none u s m e = ground arith

-- What was written is read back from the same address.
pub read_virtual-write_virtual :
    (v : ℕ) (bytes : List ℕ) (m n : RealMemoryManager)
    → write_virtual v bytes m ≡ (n, returned (ok tt))
    → read_virtual v (length bytes) n ≡ returned (ok bytes)
read_virtual-write_virtual v bytes m n e =
    let (page, found, writable, fits, small, same) = write_virtual-ok v bytes m n e in
    let offset = page.paddr + offset_of v in
    let memory = copy_into m.physical_memory offset bytes in
    let back = read_copied m.physical_memory bytes offset fits in
    let size = length-copy_into m.physical_memory bytes offset fits in
    subst (λ x. read_virtual v (length bytes) x ≡ returned (ok bytes)) same
      (read_at v (length bytes) (record m { physical_memory = memory }) page found
        ∙ rw (size, lt→ltb _ _ small, le→ltb _ _ fits, back) refl)

-- A write inside one page does not change what is read inside another page.
pub read_virtual-write_virtual_ne :
    (v u s : ℕ) (bytes : List ℕ) (m n : RealMemoryManager)
    → IsMemory m
    → write_virtual v bytes m ≡ (n, returned (ok tt))
    → v % 4096 + length bytes ≤ 4096
    → u % 4096 + s ≤ 4096
    → page_of v ≢ page_of u
    → read_virtual u s n ≡ read_virtual u s m
read_virtual-write_virtual_ne v u s bytes m n w e small_v small_u apart =
    let (page, found, writable, fits, small, same) = write_virtual-ok v bytes m n e in
    let offset = page.paddr + offset_of v in
    let memory = copy_into m.physical_memory offset bytes in
    let size = length-copy_into m.physical_memory bytes offset fits in
    subst (λ x. read_virtual u s x ≡ read_virtual u s m) same
      (elim (Option-cases (lookup (page_of u) m.page_mappings)) [
        | inl gone ↦
            read_none u s (record m { physical_memory = memory }) gone ∙ sym (read_none u s m gone)
        | inr (other, there) ↦
            let at = other.paddr + offset_of u in
            let slice : take s (drop at memory) ≡ take s (drop at m.physical_memory) =
              elim (mapped_apart m (page_of v) (page_of u) page other w found there apart) [
                | inl after ↦
                    slice_after_copied m.physical_memory bytes offset fits at s (omega arith)
                | inr before ↦
                    slice_before_copied m.physical_memory bytes offset fits at s (omega arith)
              ] in
            read_at u s (record m { physical_memory = memory }) other there
            ∙ rw (size, slice) (sym (read_at u s m other there))
      ])

-- After a page is protected against writing, every write that starts in it is refused and changes
-- nothing.
pub write_virtual-protect_page :
    (v u : ℕ) (bytes : List ℕ) (prot : MemoryProtection) (m n : RealMemoryManager)
    → protect_page v prot m ≡ (n, ok tt)
    → prot.write ≡ false
    → page_of v ≡ page_of u
    → write_virtual u bytes n ≡ (n, returned (err permission_denied))
unfolding write_virtual protect_page
write_virtual-protect_page v u bytes prot m n e read_only same =
    elim (Option-cases (lookup (page_of v) m.page_mappings)) [
      | inl gone ↦ absurd (ground arith)
      | inr (page, found) ↦ ground (
        arith,
        lookup-insert (page_of v) (page_of u) (record page { protection = prot }) m.page_mappings,
      )
    ]
