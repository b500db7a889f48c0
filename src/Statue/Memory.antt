-- ===== src/Statue/Memory.antt =====
-- `RealMemoryManager` of crates/Statue/src/memory.rs: physical pages, and the virtual pages that are
-- mapped to them. A method gives the new state and its result. The head of `free_pages` is the end of
-- the source's vector, where `push` and `pop` work; the `BTreeMap` is an association list.
pub mod Frames
pub mod Mapping
pub mod Translation
pub mod Slices
pub mod Access
pub mod Range
use prisma_os.Base.{
  ℕ, zero, suc, ◌+◌, ◌-◌, ◌*◌, ◌/◌, ◌%◌, Bool, true, false, List, [], ◌∷◌, ◌++◌, Option, none, some,
  ltb, ◌==◌, if◌then◌else◌, length, take, drop, replicate, ◌^◌,
}
use prisma_os.Base.Words.{add64, sub64}
use prisma_os.Statue.Error.{
  ElfError, invalid_alignment, invalid_address, allocation_failed, permission_denied,
  invalid_offset, Result, ok, err,
}

abbrev pub page_size : ℕ
page_size = 4096

pub record MemoryProtection : Type 0 where
  pub read : Bool
  pub write : Bool
  pub execute : Bool
  pub present : Bool

abbrev pub protection : Bool → Bool → MemoryProtection
protection write execute = record { read = true; write = write; execute = execute; present = true }

unfoldable pub read_only : MemoryProtection
read_only = protection false false

unfoldable pub read_write : MemoryProtection
read_write = protection true false

unfoldable pub read_execute : MemoryProtection
read_execute = protection false true

unfoldable pub read_write_execute : MemoryProtection
read_write_execute = protection true true

pub record VirtualPage : Type 0 where
  pub vaddr : ℕ
  pub paddr : ℕ
  pub protection : MemoryProtection
  pub ref_count : ℕ

abbrev pub PageMap : Type 0
PageMap = List (ℕ × VirtualPage)

unfoldable pub lookup : ℕ → PageMap → Option VirtualPage
lookup k [] = none
lookup k ((j, p) ∷ m) = if j == k then some p else lookup k m

unfoldable pub insert : ℕ → VirtualPage → PageMap → PageMap
insert k p [] = (k, p) ∷ []
insert k p ((j, q) ∷ m) = if j == k then (k, p) ∷ m else (j, q) ∷ insert k p m

unfoldable pub remove : ℕ → PageMap → PageMap
remove k [] = []
remove k ((j, p) ∷ m) = if j == k then m else (j, p) ∷ remove k m

pub record RealMemoryManager : Type 0 where
  pub physical_memory : List ℕ
  pub page_mappings : PageMap
  pub free_pages : List ℕ
  pub next_vaddr : ℕ
  pub code_region : ℕ × ℕ
  pub data_region : ℕ × ℕ
  pub heap_region : ℕ × ℕ
  pub stack_region : ℕ × ℕ

-- `address & !PAGE_MASK` and `address & PAGE_MASK`
abbrev pub page_of : ℕ → ℕ
page_of address = address / 4096 * 4096

abbrev pub offset_of : ℕ → ℕ
offset_of address = address % 4096

-- The first `n` pages, the last of them on top.
unfoldable pub page_stack : ℕ → List ℕ
page_stack zero = []
page_stack (suc n) = (n * page_size) ∷ page_stack n

unfoldable pub fresh : ℕ → RealMemoryManager
fresh memory_size =
    let code_start : ℕ = 0x400000 in
    let data_start : ℕ = 0x600000 in
    let heap_start : ℕ = 0x800000 in
    let stack_start : ℕ = 0x7ffff000 in
    record {
      physical_memory = replicate memory_size 0;
      page_mappings = [];
      free_pages = page_stack (memory_size / page_size);
      next_vaddr = code_start;
      code_region = (code_start, code_start + 0x200000);
      data_region = (data_start, data_start + 0x200000);
      heap_region = (heap_start, heap_start + 0x10000000);
      stack_region = (stack_start - 0x100000, stack_start);
    }

unfoldable pub new : ℕ → Result RealMemoryManager
unfolding fresh
new memory_size =
    if memory_size % page_size == 0 then ok (fresh memory_size) else err invalid_alignment

unfoldable pub map_page : ℕ → MemoryProtection → RealMemoryManager → RealMemoryManager × Result ℕ
map_page vaddr protection m =
    let page_vaddr = page_of vaddr in
    elim (lookup page_vaddr m.page_mappings) [
      | some _ ↦ (m, err invalid_address)
      | none ↦ elim m.free_pages [
        | [] ↦ (m, err allocation_failed)
        | paddr ∷ rest ↦ (
          record m {
            free_pages = rest;
            page_mappings =
                insert page_vaddr
                  (record {
                    vaddr = page_vaddr;
                    paddr = paddr;
                    protection = protection;
                    ref_count = 1;
                  })
                  m.page_mappings;
          },
          ok paddr,
        )
      ]
    ]

unfoldable pub unmap_page : ℕ → RealMemoryManager → RealMemoryManager × Result (Unit {0})
unmap_page vaddr m =
    let page_vaddr = page_of vaddr in
    elim (lookup page_vaddr m.page_mappings) [
      | none ↦ (m, err invalid_address)
      | some page ↦ (
        record m {
          page_mappings = remove page_vaddr m.page_mappings;
          free_pages = page.paddr ∷ m.free_pages;
        },
        ok tt,
      )
    ]

unfoldable pub protect_page :
    ℕ → MemoryProtection → RealMemoryManager → RealMemoryManager × Result (Unit {0})
protect_page vaddr protection m =
    let page_vaddr = page_of vaddr in
    elim (lookup page_vaddr m.page_mappings) [
      | none ↦ (m, err invalid_address)
      | some page ↦ (
        record m {
          page_mappings =
              insert page_vaddr (record page { protection = protection }) m.page_mappings;
        },
        ok tt,
      )
    ]

unfoldable pub virtual_to_physical : ℕ → RealMemoryManager → Result ℕ
virtual_to_physical vaddr m = elim (lookup (page_of vaddr) m.page_mappings) [
  | none ↦ err invalid_address
  | some page ↦ ok (page.paddr + offset_of vaddr)
]

-- What an access to the memory comes to: a value, or the panic of a slice whose end lies before its
-- start.
pub data Slicing (A : Type 0) : Type 0 where
  returned : Result A → Slicing A
  panic : Slicing A

-- An access to `size` bytes from the offset on, with the test before it, in which the sum wraps.
abbrev pub sliced : {A : Type 0} → ℕ → ℕ → ℕ → A → Slicing A
sliced offset size limit a =
    if ltb (offset + size) (2 ^ 64)
    then (if ltb limit (offset + size) then returned (err invalid_offset) else returned (ok a))
    else if ltb limit ((offset + size) % 2 ^ 64)
    then returned (err invalid_offset)
    else panic

unfoldable pub read_virtual : ℕ → ℕ → RealMemoryManager → Slicing (List ℕ)
unfolding virtual_to_physical
read_virtual vaddr size m = elim (virtual_to_physical vaddr m) [
  | err e ↦ returned (err e)
  | ok offset ↦
      sliced offset size (length m.physical_memory) (take size (drop offset m.physical_memory))
]

-- `memory[offset..offset + data.len()].copy_from_slice(data)`
abbrev pub copy_into : List ℕ → ℕ → List ℕ → List ℕ
copy_into memory offset bytes = take offset memory ++ (bytes ++ drop (offset + length bytes) memory)

unfoldable pub write_virtual :
    ℕ → List ℕ → RealMemoryManager → RealMemoryManager × Slicing (Unit {0})
write_virtual vaddr bytes m = elim (lookup (page_of vaddr) m.page_mappings) [
  | none ↦ (m, returned (err invalid_address))
  | some page ↦
      let offset = page.paddr + offset_of vaddr in
      if page.protection.write
      then (elim (sliced offset (length bytes) (length m.physical_memory) tt) [
        | returned (ok u) ↦ (
          record m { physical_memory = copy_into m.physical_memory offset bytes },
          returned (ok u),
        )
        | returned (err e) ↦ (m, returned (err e))
        | panic ↦ (m, panic)
      ])
      else (m, returned (err permission_denied))
]

-- The cleanup of `map_range`: `unmap_page(paddr)` for each physical page mapped so far.
unfoldable pub unmap_all : List ℕ → RealMemoryManager → RealMemoryManager
unmap_all [] m = m
unmap_all (paddr ∷ rest) m = unmap_all rest (unmap_page paddr m).0

-- The loop of `map_range` over the `rounds` pages from `page` on.
unfoldable pub map_pages :
    ℕ → ℕ → MemoryProtection → List ℕ → RealMemoryManager → RealMemoryManager × Result (List ℕ)
unfolding unmap_all
map_pages zero page protection mapped m = (m, ok mapped)
map_pages (suc rounds) page protection mapped m =
    let (m', result) = map_page page protection m in
    elim result [
      | ok paddr ↦ map_pages rounds (add64 page page_size) protection (mapped ++ paddr ∷ []) m'
      | err e ↦ (unmap_all mapped m', err e)
    ]

unfoldable pub map_range :
    ℕ → ℕ → MemoryProtection → RealMemoryManager → RealMemoryManager × Result (List ℕ)
unfolding map_pages
map_range vaddr size protection m =
    let start_page = page_of vaddr in
    let end_page = page_of (add64 (add64 vaddr size) 4095) in
    map_pages (sub64 end_page start_page / page_size) start_page protection [] m

pub record MemoryStats : Type 0 where
  pub total_memory : ℕ
  pub used_memory : ℕ
  pub free_memory : ℕ
  pub mapped_pages : ℕ

unfoldable pub memory_stats : RealMemoryManager → MemoryStats
memory_stats m =
    let total_pages = length m.physical_memory / page_size in
    let free = length m.free_pages in
    record {
      total_memory = length m.physical_memory;
      used_memory = (total_pages - free) * page_size;
      free_memory = free * page_size;
      mapped_pages = length m.page_mappings;
    }
