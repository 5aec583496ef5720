-- ===== src/Layout.antt =====
-- The constants of include/macros.hpp and the disk layout of include/SuperBlock.hpp.
pub mod Regions
pub mod Codec
pub mod SuperBytes
pub mod Inode
use osep.Common.{ℕ, ◌+◌, ◌-◌, ◌*◌, ◌/◌, ◌^◌, Bool, ◌&&◌, ◌==◌, u64, u32, u16}

abbrev pub block_size_const : ℕ
block_size_const = 16 * 1024

abbrev pub magic_number_const : ℕ
magic_number_const = 0xEA6191

abbrev pub version_const : ℕ
version_const = 7

abbrev pub diritem_size_const : ℕ
diritem_size_const = 64

abbrev pub filename_size_const : ℕ
filename_size_const = 54

abbrev pub inode_size_const : ℕ
inode_size_const = 512

abbrev pub inode_data_size_const : ℕ
inode_data_size_const = inode_size_const - 38

-- The fields of `SuperBlock::data`.
pub record SuperBlock : Type 0 where
  pub magic_number : ℕ
  pub version : ℕ
  pub disk_size_gb : ℕ
  pub block_size : ℕ
  pub total_blocks : ℕ
  pub bits_per_block : ℕ
  pub super_block_start_lba : ℕ
  pub super_blocks_cnt : ℕ
  pub bitmap_block_start_lba : ℕ
  pub bitmap_blocks_cnt : ℕ
  pub last_alloc_bitmap_blk_idx : ℕ
  pub inode_size : ℕ
  pub inodes_per_block : ℕ
  pub inodes_cnt : ℕ
  pub free_inodes : ℕ
  pub inode_valid_block_start_lba : ℕ
  pub inode_valid_blocks_cnt : ℕ
  pub inode_block_start_lba : ℕ
  pub inode_blocks_cnt : ℕ
  pub inode_inline_data_size : ℕ
  pub basic_blocks_cnt : ℕ
  pub diritem_size : ℕ
  pub root_inode_id : ℕ
  pub free_blocks : ℕ
  pub bloom_bits : ℕ
  pub filename_size : ℕ

unfoldable pub valid : SuperBlock → Bool
valid sb = (sb.magic_number == magic_number_const) && (sb.version == version_const)

-- The counters that `create_superblock` computes, in the order of its statements. `gb` is the
-- argument, a uint32_t; the field `disk_size_gb` has 16 bits.
unfoldable pub total_blocks_of : ℕ → ℕ
total_blocks_of gb = u64 (gb * 2 ^ 30) / block_size_const

unfoldable pub bitmap_blocks_of : ℕ → ℕ
unfolding total_blocks_of
bitmap_blocks_of gb =
    u32 (u64 (block_size_const * 8 + total_blocks_of gb + (2 ^ 64 - 1)) / (block_size_const * 8))

unfoldable pub inode_blocks_of : ℕ → ℕ
inode_blocks_of gb = u64 (2 ^ 30 / block_size_const / 2 ^ 7 * u16 gb)

unfoldable pub inodes_of : ℕ → ℕ
unfolding inode_blocks_of
inodes_of gb = u64 (block_size_const / inode_size_const * inode_blocks_of gb)

unfoldable pub inode_valid_blocks_of : ℕ → ℕ
unfolding inodes_of
inode_valid_blocks_of gb =
    u64 (inodes_of gb + block_size_const * 8 + (2 ^ 64 - 1)) / (block_size_const * 8)

unfoldable pub basic_blocks_of : ℕ → ℕ
unfolding bitmap_blocks_of inode_valid_blocks_of inode_blocks_of
basic_blocks_of gb = u64 (1 + bitmap_blocks_of gb + inode_valid_blocks_of gb + inode_blocks_of gb)

unfoldable pub create_superblock : ℕ → SuperBlock
unfolding total_blocks_of bitmap_blocks_of inode_blocks_of inodes_of inode_valid_blocks_of
    basic_blocks_of
create_superblock gb = record {
  magic_number = magic_number_const;
  version = version_const;
  disk_size_gb = u16 gb;
  block_size = block_size_const;
  total_blocks = total_blocks_of gb;
  bits_per_block = block_size_const * 8;
  super_block_start_lba = 0;
  super_blocks_cnt = 1;
  bitmap_block_start_lba = 1;
  bitmap_blocks_cnt = bitmap_blocks_of gb;
  last_alloc_bitmap_blk_idx = 0;
  inode_size = inode_size_const;
  inodes_per_block = block_size_const / inode_size_const;
  inodes_cnt = inodes_of gb;
  free_inodes = inodes_of gb;
  inode_valid_block_start_lba = u64 (1 + bitmap_blocks_of gb);
  inode_valid_blocks_cnt = inode_valid_blocks_of gb;
  inode_block_start_lba = u64 (1 + bitmap_blocks_of gb + inode_valid_blocks_of gb);
  inode_blocks_cnt = inode_blocks_of gb;
  inode_inline_data_size = inode_data_size_const;
  basic_blocks_cnt = basic_blocks_of gb;
  diritem_size = diritem_size_const;
  root_inode_id = 0;
  free_blocks = u64 (total_blocks_of gb + 2 ^ 64 - basic_blocks_of gb);
  bloom_bits = 0;
  filename_size = filename_size_const;
}
