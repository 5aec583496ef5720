-- ===== src/Layout/Regions.antt =====
-- The regions of a fresh disk: super block, bitmap, inode bitmap, inode table, data.
use osep.Common.{ℕ, ◌+◌, ◌*◌, ◌≤◌, ◌<◌, ◌^◌, ◌≡◌, arith}
use osep.Layout.{SuperBlock, create_superblock}

-- The regions follow one another without a gap and fit on the disk, each bitmap has a bit for
-- every block and every inode, and the free counters are the totals less what the system uses.
pub record IsLayout (sb : SuperBlock) : Type 0 where
  pub bitmap_start : sb.bitmap_block_start_lba ≡ 1
  pub inode_bitmap_start :
      sb.inode_valid_block_start_lba ≡ sb.bitmap_block_start_lba + sb.bitmap_blocks_cnt
  pub inode_table_start :
      sb.inode_block_start_lba ≡ sb.inode_valid_block_start_lba + sb.inode_valid_blocks_cnt
  pub basic : sb.basic_blocks_cnt ≡ sb.inode_block_start_lba + sb.inode_blocks_cnt
  pub fits : sb.basic_blocks_cnt < sb.total_blocks
  pub bitmap_covers : sb.total_blocks ≤ sb.bitmap_blocks_cnt * sb.bits_per_block
  pub inode_bitmap_covers : sb.inodes_cnt ≤ sb.inode_valid_blocks_cnt * sb.bits_per_block
  pub inode_table_holds : sb.inodes_cnt ≡ sb.inodes_per_block * sb.inode_blocks_cnt
  pub inode_block_full : sb.inodes_per_block * sb.inode_size ≡ sb.block_size
  pub free_blocks : sb.free_blocks + sb.basic_blocks_cnt ≡ sb.total_blocks
  pub free_inodes : sb.free_inodes ≡ sb.inodes_cnt

-- For every disk size from 1 GB to 65535 GB, the range of the 16-bit size field,
-- `create_superblock` lays out the regions one behind the other and within the disk, with a bit
-- in the bitmaps for every block and every inode, and with the free counters that belong to it.
pub create_superblock-IsLayout : (gb : ℕ) → 0 < gb → gb < 2 ^ 16 → IsLayout (create_superblock gb)
unfolding create_superblock
create_superblock-IsLayout gb lo hi = omega arith
