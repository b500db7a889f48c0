-- ===== src/Statue/Tests.antt =====
-- Tests of the Statue models, and their theorems at concrete inputs.
use prisma_os.Base.{◌+◌, ◌≡◌, ◌≢◌, refl, [], ◌∷◌, ◌==◌, if◌then◌else◌, arith}
use prisma_os.Statue.Error.{ElfError, ok, err, permission_denied}
use prisma_os.Statue.Memory.{
  read_write, read_only, lookup, insert, RealMemoryManager, page_of, page_stack, fresh, map_page,
  protect_page, virtual_to_physical, read_virtual, write_virtual, map_range, returned,
}
use prisma_os.Statue.Memory.Frames.{IsMemory, fresh-IsMemory}
use prisma_os.Statue.Memory.Mapping.{map_page-IsMemory, map_range-IsMemory}
use prisma_os.Statue.Memory.Translation.{virtual_to_physical_isolated, map_page-virtual_to_physical}
use prisma_os.Statue.Memory.Access.{read_virtual-write_virtual, write_virtual-protect_page}
use prisma_os.Statue.Memory.Range.{map_range_leaks}

-- Two pages of memory, of which one, and then both, are mapped.
abbrev two_pages : RealMemoryManager
two_pages = fresh 8192

abbrev one_mapped : RealMemoryManager
one_mapped = (map_page 0x400000 read_write two_pages).0

abbrev both_mapped : RealMemoryManager
both_mapped = (map_page 0x600000 read_write one_mapped).0

one_mapped-IsMemory : IsMemory one_mapped
one_mapped-IsMemory =
    map_page-IsMemory 0x400000 read_write two_pages (fresh-IsMemory 8192 (omega arith))

both_mapped-IsMemory : IsMemory both_mapped
both_mapped-IsMemory = map_page-IsMemory 0x600000 read_write one_mapped one_mapped-IsMemory

map_range-IsMemory_example : IsMemory (map_range 0x500000 8192 read_write one_mapped).0
map_range-IsMemory_example =
    map_range-IsMemory 0x500000 8192 read_write one_mapped one_mapped-IsMemory

virtual_to_physical_isolated_example : page_of 4112 ≢ page_of 3
unfolding virtual_to_physical map_page fresh lookup insert page_stack
virtual_to_physical_isolated_example =
    virtual_to_physical_isolated both_mapped 0x400010 0x600003 4112 3 both_mapped-IsMemory refl refl
      (omega arith)

map_page-virtual_to_physical_example : virtual_to_physical 0x600003 both_mapped ≡ (
    if page_of 0x600000 == page_of 0x600003
    then ok (0 + 3)
    else virtual_to_physical 0x600003 one_mapped)
unfolding map_page fresh lookup insert page_stack
map_page-virtual_to_physical_example =
    map_page-virtual_to_physical one_mapped both_mapped 0x600000 0 0x600003 read_write refl

abbrev written : RealMemoryManager
written = (write_virtual 0x400010 (7 ∷ 8 ∷ []) both_mapped).0

read_virtual-write_virtual_example : read_virtual 0x400010 2 written ≡ returned (ok (7 ∷ 8 ∷ []))
unfolding write_virtual map_page fresh lookup insert page_stack read_write
read_virtual-write_virtual_example =
    read_virtual-write_virtual 0x400010 (7 ∷ 8 ∷ []) both_mapped written refl

abbrev protected : RealMemoryManager
protected = (protect_page 0x400000 read_only one_mapped).0

write_virtual-protect_page_example :
    write_virtual 0x400010 (7 ∷ []) protected ≡ (protected, returned (err permission_denied))
unfolding protect_page map_page fresh lookup insert page_stack read_only
write_virtual-protect_page_example =
    write_virtual-protect_page 0x400000 0x400010 (7 ∷ []) read_only one_mapped protected refl refl
      refl

map_range_leaks_example :
    (e : ElfError) × (n : RealMemoryManager) × (map_range 0x500000 8192 read_write one_mapped
      ≡ (n, err e))
    × (n.free_pages ≡ [])
    × (virtual_to_physical (page_of 0x500000) n ≡ ok 0)
unfolding map_page fresh lookup insert page_stack
map_range_leaks_example =
    map_range_leaks 0x500000 8192 0 read_write one_mapped (omega arith) refl refl refl refl
      (omega arith)
