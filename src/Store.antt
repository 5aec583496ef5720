-- ===== src/Store.antt =====
-- What the layers above include/IOContext.hpp see of it: the super block, and an array of blocks.
-- `read_block`, and `acquire_block` with a write through its pointer, are `fetch` and `put` here;
-- `Store.Refines` relates them to the cache and the disk. `none` is an exception or the use of
-- the null pointer of block 0.
pub mod Refines
use osep.Common.{ℕ, Option, none, some, leb, ◌==◌, ◌||◌, if◌then◌else◌, replicate}
use osep.Common.Bytes.{Buffer}
use osep.Layout.{SuperBlock}
use osep.Layout.SuperBytes.{encode_superblock, decode_superblock}
use osep.Disk.{Geometry}

pub record Store : Type 0 where
  pub sb : SuperBlock
  pub limit : ℕ
  pub blocks : ℕ → Buffer

unfoldable pub fetch : ℕ → Store → Option Buffer
fetch lba s = if (lba == 0) || leb s.limit lba then none else some (s.blocks lba)

abbrev pub update : (ℕ → Buffer) → ℕ → Buffer → ℕ → Buffer
update blocks lba b j = if lba == j then b else blocks j

unfoldable pub put : ℕ → Buffer → Store → Store
put lba b s = record s { blocks = update s.blocks lba b }

-- Block 0 of the array is the super block's block of the disk, which no call but these reaches.
unfoldable pub flush_super : Store → Store
flush_super s = record s { blocks = update s.blocks 0 (encode_superblock s.sb) }

unfoldable pub read_super : Store → Store
read_super s = record s { sb = decode_superblock (s.blocks 0) }

-- `IOContext::clear`: every block of the disk is zero.
unfoldable pub clear_blocks : Geometry → Store → Store
clear_blocks g s = record s { blocks = λ _. replicate g.block_size 0 }
