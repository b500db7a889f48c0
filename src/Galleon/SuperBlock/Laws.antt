-- ===== src/Galleon/SuperBlock/Laws.antt =====
-- The superblock's sector, and the count of free blocks.
use prisma_os.Base.{ℕ, ◌<◌, ◌^◌, ◌≡◌, refl, true, arith}
use prisma_os.Base.Words.{add64}
use prisma_os.Base.Fields.{slice_at-field, drop-next, drop-next_number, read_number}
use prisma_os.Galleon.SuperBlock.{
  SuperBlock, new, as_sector, from_sector, is_valid, set_free_block_count, allocate_blocks,
  deallocate_blocks, IsSuperBlock,
}

-- A superblock is read back from its sector as it was.
pub from_sector-as_sector : (s : SuperBlock) → IsSuperBlock s → from_sector (as_sector s) ≡ s
unfolding from_sector as_sector
from_sector-as_sector s v =
    let bytes = as_sector s in
    let d64 = drop-next 0 64 bytes s.magic _ refl v.magic_length in
    let d68 = drop-next_number 64 4 s.version bytes _ d64 in
    let d72 = drop-next_number 68 4 s.block_size bytes _ d68 in
    let d80 = drop-next_number 72 8 s.total_blocks bytes _ d72 in
    let d88 = drop-next_number 80 8 s.root_dir_block bytes _ d80 in
    let d96 = drop-next_number 88 8 s.free_block_count bytes _ d88 in
    rw
      (
        slice_at-field 0 64 bytes s.magic _ refl v.magic_length,
        read_number 64 4 s.version bytes _ d64 (omega (arith, v.version_fits)),
        read_number 68 4 s.block_size bytes _ d68 (omega (arith, v.block_size_fits)),
        read_number 72 8 s.total_blocks bytes _ d72 (omega (arith, v.total_fits)),
        read_number 80 8 s.root_dir_block bytes _ d80 (omega (arith, v.root_fits)),
        read_number 88 8 s.free_block_count bytes _ d88
            (omega (arith, v.free_bounded, v.total_fits)),
        read_number 96 8 s.reserved_blocks bytes _ d96 (omega (arith, v.reserved_fits)),
      )
      refl

-- Blocks that were allocated and are given back leave the superblock as it was.
pub deallocate_blocks-allocate_blocks :
    (count : ℕ) (s s' : SuperBlock)
    → IsSuperBlock s
    → allocate_blocks count s ≡ (s', true)
    → deallocate_blocks count s' ≡ s
unfolding deallocate_blocks allocate_blocks add64
deallocate_blocks-allocate_blocks count s s' v e = ground arith

-- What the counting operations do to the free blocks keeps the superblock well formed.
pub counting-IsSuperBlock :
    (count : ℕ) (s : SuperBlock)
    → IsSuperBlock s
    → IsSuperBlock (allocate_blocks count s).0
      × IsSuperBlock (deallocate_blocks count s)
      × IsSuperBlock (set_free_block_count count s)
unfolding deallocate_blocks allocate_blocks set_free_block_count
counting-IsSuperBlock count s v = ground arith

-- A new superblock is well formed and its sector is recognised.
pub new-IsSuperBlock :
    (block_size total root : ℕ)
    → block_size < 2 ^ 32
    → total < 2 ^ 64
    → root < 2 ^ 64
    → IsSuperBlock (new block_size total root)
      × (is_valid (as_sector (new block_size total root)) ≡ true)
unfolding new is_valid as_sector
new-IsSuperBlock block_size total root b t r = (
  record {
    magic_length = refl;
    version_fits = omega arith;
    block_size_fits = b;
    total_fits = t;
    root_fits = r;
    reserved_fits = ground arith;
    free_bounded = omega arith;
  },
  refl,
)
