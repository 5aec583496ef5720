-- ===== src/Layout/SuperBytes.antt =====
-- The bytes of the super block, as `read_super_block` and `flush_super_block` of
-- include/IOContext.hpp move them: the union's members at their offsets, then its padding.
use osep.Common.{◌-◌, ◌^◌, ◌<◌, ◌≡◌, refl, ◌++◌, replicate, length}
use osep.Common.Bytes.{Buffer}
use osep.Layout.Codec.{le_bytes, word_at, value-bytes_eight, value-bytes_four, value-bytes_two}
use osep.Layout.{SuperBlock, block_size_const}

unfoldable pub encode_superblock : SuperBlock → Buffer
unfolding le_bytes
encode_superblock sb =
    le_bytes 8 sb.magic_number
    ++ (le_bytes 8 sb.version
        ++ (le_bytes 2 sb.disk_size_gb
            ++ (replicate 2 0
                ++ (le_bytes 4 sb.block_size
                    ++ (le_bytes 8 sb.total_blocks
                        ++ (le_bytes 8 sb.bits_per_block
                            ++ (le_bytes 8 sb.super_block_start_lba
                                ++ (le_bytes 2 sb.super_blocks_cnt
                                    ++ (replicate 6 0
                                        ++ (le_bytes 8 sb.bitmap_block_start_lba
                                            ++ (le_bytes 4 sb.bitmap_blocks_cnt
                                                ++ (replicate 4 0
                                                    ++ (le_bytes 8 sb.last_alloc_bitmap_blk_idx
                                                        ++ (le_bytes 8 sb.inode_size
                                                            ++ (le_bytes 4 sb.inodes_per_block
                                                            ++ (replicate 4 0
                                                            ++ (le_bytes 8 sb.inodes_cnt
                                                            ++ (le_bytes 8 sb.free_inodes
                                                            ++ (le_bytes 8
                                                            sb.inode_valid_block_start_lba
                                                            ++ (le_bytes 8 sb.inode_valid_blocks_cnt
                                                            ++ (le_bytes 8 sb.inode_block_start_lba
                                                            ++ (le_bytes 8 sb.inode_blocks_cnt
                                                            ++ (le_bytes 8 sb.inode_inline_data_size
                                                            ++ (le_bytes 8 sb.basic_blocks_cnt
                                                            ++ (le_bytes 8 sb.diritem_size
                                                            ++ (le_bytes 8 sb.root_inode_id
                                                            ++ (le_bytes 8 sb.free_blocks
                                                            ++ (le_bytes 4 sb.bloom_bits
                                                            ++ (le_bytes 2 sb.filename_size
                                                            ++ (replicate 2 0
                                                            ++ replicate (block_size_const - 192)
                                                            0))))))))))))))))))))))))))))))

unfoldable pub decode_superblock : Buffer → SuperBlock
unfolding word_at
decode_superblock buf = record {
  magic_number = word_at 0 8 buf;
  version = word_at 8 8 buf;
  disk_size_gb = word_at 16 2 buf;
  block_size = word_at 20 4 buf;
  total_blocks = word_at 24 8 buf;
  bits_per_block = word_at 32 8 buf;
  super_block_start_lba = word_at 40 8 buf;
  super_blocks_cnt = word_at 48 2 buf;
  bitmap_block_start_lba = word_at 56 8 buf;
  bitmap_blocks_cnt = word_at 64 4 buf;
  last_alloc_bitmap_blk_idx = word_at 72 8 buf;
  inode_size = word_at 80 8 buf;
  inodes_per_block = word_at 88 4 buf;
  inodes_cnt = word_at 96 8 buf;
  free_inodes = word_at 104 8 buf;
  inode_valid_block_start_lba = word_at 112 8 buf;
  inode_valid_blocks_cnt = word_at 120 8 buf;
  inode_block_start_lba = word_at 128 8 buf;
  inode_blocks_cnt = word_at 136 8 buf;
  inode_inline_data_size = word_at 144 8 buf;
  basic_blocks_cnt = word_at 152 8 buf;
  diritem_size = word_at 160 8 buf;
  root_inode_id = word_at 168 8 buf;
  free_blocks = word_at 176 8 buf;
  bloom_bits = word_at 184 4 buf;
  filename_size = word_at 188 2 buf;
}

-- The ranges of the members' types.
pub record InRange (sb : SuperBlock) : Type 0 where
  pub magic_number : sb.magic_number < 2 ^ 64
  pub version : sb.version < 2 ^ 64
  pub disk_size_gb : sb.disk_size_gb < 2 ^ 16
  pub block_size : sb.block_size < 2 ^ 32
  pub total_blocks : sb.total_blocks < 2 ^ 64
  pub bits_per_block : sb.bits_per_block < 2 ^ 64
  pub super_block_start_lba : sb.super_block_start_lba < 2 ^ 64
  pub super_blocks_cnt : sb.super_blocks_cnt < 2 ^ 16
  pub bitmap_block_start_lba : sb.bitmap_block_start_lba < 2 ^ 64
  pub bitmap_blocks_cnt : sb.bitmap_blocks_cnt < 2 ^ 32
  pub last_alloc_bitmap_blk_idx : sb.last_alloc_bitmap_blk_idx < 2 ^ 64
  pub inode_size : sb.inode_size < 2 ^ 64
  pub inodes_per_block : sb.inodes_per_block < 2 ^ 32
  pub inodes_cnt : sb.inodes_cnt < 2 ^ 64
  pub free_inodes : sb.free_inodes < 2 ^ 64
  pub inode_valid_block_start_lba : sb.inode_valid_block_start_lba < 2 ^ 64
  pub inode_valid_blocks_cnt : sb.inode_valid_blocks_cnt < 2 ^ 64
  pub inode_block_start_lba : sb.inode_block_start_lba < 2 ^ 64
  pub inode_blocks_cnt : sb.inode_blocks_cnt < 2 ^ 64
  pub inode_inline_data_size : sb.inode_inline_data_size < 2 ^ 64
  pub basic_blocks_cnt : sb.basic_blocks_cnt < 2 ^ 64
  pub diritem_size : sb.diritem_size < 2 ^ 64
  pub root_inode_id : sb.root_inode_id < 2 ^ 64
  pub free_blocks : sb.free_blocks < 2 ^ 64
  pub bloom_bits : sb.bloom_bits < 2 ^ 32
  pub filename_size : sb.filename_size < 2 ^ 16

module _ (sb : SuperBlock) (r : InRange sb) where
  -- A super block within its members' ranges is the one that its bytes decode to.
  pub decode-encode_superblock : decode_superblock (encode_superblock sb) ≡ sb
  unfolding decode_superblock encode_superblock
  decode-encode_superblock =
      let r31 = replicate (block_size_const - 192) 0 in
      let r30 = replicate 2 0 ++ r31 in
      let r29 = le_bytes 2 sb.filename_size ++ r30 in
      let r28 = le_bytes 4 sb.bloom_bits ++ r29 in
      let r27 = le_bytes 8 sb.free_blocks ++ r28 in
      let r26 = le_bytes 8 sb.root_inode_id ++ r27 in
      let r25 = le_bytes 8 sb.diritem_size ++ r26 in
      let r24 = le_bytes 8 sb.basic_blocks_cnt ++ r25 in
      let r23 = le_bytes 8 sb.inode_inline_data_size ++ r24 in
      let r22 = le_bytes 8 sb.inode_blocks_cnt ++ r23 in
      let r21 = le_bytes 8 sb.inode_block_start_lba ++ r22 in
      let r20 = le_bytes 8 sb.inode_valid_blocks_cnt ++ r21 in
      let r19 = le_bytes 8 sb.inode_valid_block_start_lba ++ r20 in
      let r18 = le_bytes 8 sb.free_inodes ++ r19 in
      let r17 = le_bytes 8 sb.inodes_cnt ++ r18 in
      let r16 = replicate 4 0 ++ r17 in
      let r15 = le_bytes 4 sb.inodes_per_block ++ r16 in
      let r14 = le_bytes 8 sb.inode_size ++ r15 in
      let r13 = le_bytes 8 sb.last_alloc_bitmap_blk_idx ++ r14 in
      let r12 = replicate 4 0 ++ r13 in
      let r11 = le_bytes 4 sb.bitmap_blocks_cnt ++ r12 in
      let r10 = le_bytes 8 sb.bitmap_block_start_lba ++ r11 in
      let r9 = replicate 6 0 ++ r10 in
      let r8 = le_bytes 2 sb.super_blocks_cnt ++ r9 in
      let r7 = le_bytes 8 sb.super_block_start_lba ++ r8 in
      let r6 = le_bytes 8 sb.bits_per_block ++ r7 in
      let r5 = le_bytes 8 sb.total_blocks ++ r6 in
      let r4 = le_bytes 4 sb.block_size ++ r5 in
      let r3 = replicate 2 0 ++ r4 in
      let r2 = le_bytes 2 sb.disk_size_gb ++ r3 in
      let r1 = le_bytes 8 sb.version ++ r2 in
      λ i. record {
        magic_number = value-bytes_eight sb.magic_number r1 r.magic_number i;
        version = value-bytes_eight sb.version r2 r.version i;
        disk_size_gb = value-bytes_two sb.disk_size_gb r3 r.disk_size_gb i;
        block_size = value-bytes_four sb.block_size r5 r.block_size i;
        total_blocks = value-bytes_eight sb.total_blocks r6 r.total_blocks i;
        bits_per_block = value-bytes_eight sb.bits_per_block r7 r.bits_per_block i;
        super_block_start_lba =
            value-bytes_eight sb.super_block_start_lba r8 r.super_block_start_lba i;
        super_blocks_cnt = value-bytes_two sb.super_blocks_cnt r9 r.super_blocks_cnt i;
        bitmap_block_start_lba =
            value-bytes_eight sb.bitmap_block_start_lba r11 r.bitmap_block_start_lba i;
        bitmap_blocks_cnt = value-bytes_four sb.bitmap_blocks_cnt r12 r.bitmap_blocks_cnt i;
        last_alloc_bitmap_blk_idx =
            value-bytes_eight sb.last_alloc_bitmap_blk_idx r14 r.last_alloc_bitmap_blk_idx i;
        inode_size = value-bytes_eight sb.inode_size r15 r.inode_size i;
        inodes_per_block = value-bytes_four sb.inodes_per_block r16 r.inodes_per_block i;
        inodes_cnt = value-bytes_eight sb.inodes_cnt r18 r.inodes_cnt i;
        free_inodes = value-bytes_eight sb.free_inodes r19 r.free_inodes i;
        inode_valid_block_start_lba =
            value-bytes_eight sb.inode_valid_block_start_lba r20 r.inode_valid_block_start_lba i;
        inode_valid_blocks_cnt =
            value-bytes_eight sb.inode_valid_blocks_cnt r21 r.inode_valid_blocks_cnt i;
        inode_block_start_lba =
            value-bytes_eight sb.inode_block_start_lba r22 r.inode_block_start_lba i;
        inode_blocks_cnt = value-bytes_eight sb.inode_blocks_cnt r23 r.inode_blocks_cnt i;
        inode_inline_data_size =
            value-bytes_eight sb.inode_inline_data_size r24 r.inode_inline_data_size i;
        basic_blocks_cnt = value-bytes_eight sb.basic_blocks_cnt r25 r.basic_blocks_cnt i;
        diritem_size = value-bytes_eight sb.diritem_size r26 r.diritem_size i;
        root_inode_id = value-bytes_eight sb.root_inode_id r27 r.root_inode_id i;
        free_blocks = value-bytes_eight sb.free_blocks r28 r.free_blocks i;
        bloom_bits = value-bytes_four sb.bloom_bits r29 r.bloom_bits i;
        filename_size = value-bytes_two sb.filename_size r30 r.filename_size i;
      }

-- The union is as large as a block.
pub length-encode_superblock : (sb : SuperBlock) → length (encode_superblock sb) ≡ 16384
unfolding encode_superblock
length-encode_superblock sb = refl
