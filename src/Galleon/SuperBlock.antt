-- ===== src/Galleon/SuperBlock.antt =====
-- crates/galleon2/src/super_block.rs: the first sector of a volume. Its fields are written one after
-- the other, so the sector is their concatenation and zeros.
pub mod Laws
use prisma_os.Base.{
  ℕ, ◌+◌, ◌-◌, ◌<◌, ◌≤◌, ◌^◌, ◌≡◌, Bool, true, false, List, [], ◌∷◌, ◌++◌, leb, ltb, if◌then◌else◌,
  length, min, replicate, ◌==◌, ◌&&◌,
}
use prisma_os.Base.Bytes.{le_bytes, from_le_bytes, same_bytes}
use prisma_os.Base.Words.{add64}
use prisma_os.Base.Fields.{slice_at}

pub record SuperBlock : Type 0 where
  pub magic : List ℕ
  pub version : ℕ
  pub block_size : ℕ
  pub total_blocks : ℕ
  pub root_dir_block : ℕ
  pub free_block_count : ℕ
  pub reserved_blocks : ℕ

abbrev pub expected_magic : List ℕ
expected_magic =
    97 ∷ 119 ∷ 97 ∷ 114 ∷ 101 ∷ 110 ∷ 101 ∷ 115 ∷ 115 ∷ 32 ∷ 97 ∷ 99 ∷ 104 ∷ 105 ∷ 101 ∷ 118 ∷ 101
    ∷ 100 ∷ 46 ∷ 46 ∷ 46 ∷ 32 ∷ 119 ∷ 104 ∷ 97 ∷ 116 ∷ 32 ∷ 97 ∷ 109 ∷ 32 ∷ 73 ∷ 32 ∷ 97 ∷ 110 ∷ 100
    ∷ 32 ∷ 119 ∷ 104 ∷ 121 ∷ 32 ∷ 100 ∷ 111 ∷ 32 ∷ 73 ∷ 32 ∷ 101 ∷ 120 ∷ 105 ∷ 115 ∷ 116 ∷ 32 ∷ 105
    ∷ 110 ∷ 32 ∷ 115 ∷ 116 ∷ 111 ∷ 114 ∷ 97 ∷ 103 ∷ 101 ∷ 63 ∷ 0 ∷ 0 ∷ []

abbrev pub reserved_of : ℕ → ℕ
reserved_of total_blocks = if ltb 100 total_blocks then 100 else 1

-- The difference of naturals stops at zero, as `saturating_sub` does.
unfoldable pub new : ℕ → ℕ → ℕ → SuperBlock
new block_size total_blocks root_dir_block = record {
  magic = expected_magic;
  version = 1;
  block_size = block_size;
  total_blocks = total_blocks;
  root_dir_block = root_dir_block;
  free_block_count = total_blocks - reserved_of total_blocks;
  reserved_blocks = reserved_of total_blocks;
}

unfoldable pub as_sector : SuperBlock → List ℕ
as_sector s =
    s.magic
    ++ (le_bytes 4 s.version
        ++ (le_bytes 4 s.block_size
            ++ (le_bytes 8 s.total_blocks
                ++ (le_bytes 8 s.root_dir_block
                    ++ (le_bytes 8 s.free_block_count
                        ++ (le_bytes 8 s.reserved_blocks ++ replicate 408 0))))))

unfoldable pub from_sector : List ℕ → SuperBlock
from_sector sector = record {
  magic = slice_at sector 0 64;
  version = from_le_bytes (slice_at sector 64 4);
  block_size = from_le_bytes (slice_at sector 68 4);
  total_blocks = from_le_bytes (slice_at sector 72 8);
  root_dir_block = from_le_bytes (slice_at sector 80 8);
  free_block_count = from_le_bytes (slice_at sector 88 8);
  reserved_blocks = from_le_bytes (slice_at sector 96 8);
}

unfoldable pub is_valid : List ℕ → Bool
is_valid sector = same_bytes (slice_at sector 0 64) expected_magic

unfoldable pub set_free_block_count : ℕ → SuperBlock → SuperBlock
set_free_block_count new_count s = record s {
  free_block_count = min new_count (s.total_blocks - s.reserved_blocks);
}

unfoldable pub allocate_blocks : ℕ → SuperBlock → SuperBlock × Bool
allocate_blocks count s =
    if leb count s.free_block_count
    then (record s { free_block_count = s.free_block_count - count }, true)
    else (s, false)

unfoldable pub deallocate_blocks : ℕ → SuperBlock → SuperBlock
deallocate_blocks count s = record s {
  free_block_count = min (add64 s.free_block_count count) (s.total_blocks - s.reserved_blocks);
}

-- The magic has 64 bytes, every number fits its field, and no more blocks are free than are not
-- reserved.
pub record IsSuperBlock (s : SuperBlock) : Type 0 where
  pub magic_length : length s.magic ≡ 64
  pub version_fits : s.version < 2 ^ 32
  pub block_size_fits : s.block_size < 2 ^ 32
  pub total_fits : s.total_blocks < 2 ^ 64
  pub root_fits : s.root_dir_block < 2 ^ 64
  pub reserved_fits : s.reserved_blocks < 2 ^ 64
  pub free_bounded : s.free_block_count ≤ s.total_blocks - s.reserved_blocks
