-- ===== src/Inodes/Read.antt =====
-- `read_data` of include/INodeTable.hpp.
use osep.Common.{
  ℕ, zero, suc, ◌+◌, ◌-◌, ◌/◌, ◌^◌, ◌%◌, ◌==◌, Option, none, some, [], ◌++◌, if◌then◌else◌, ◌>>=◌,
  u64, sub64, min, length, replicate,
}
use osep.Common.Bytes.{Buffer, copy_to, copy_from}
use osep.Layout.Inode.{Inode, storage_inline, storage_direct, storage_index}
use osep.Store.{Store, fetch}
use osep.Indexer.{find_block}
use osep.Inodes.{Kernel, get, deref}

-- `value_or(0)`
abbrev pub value_or_zero : Option ℕ → ℕ
value_or_zero none = 0
value_or_zero (some v) = v

-- The bytes that a read asks for: the difference is one of 64-bit words, and wraps around when
-- the offset lies behind the end.
unfoldable pub read_size : Inode → ℕ → ℕ → ℕ
read_size node offset len = min len (sub64 node.size offset)

-- One round of the loop over the blocks of an indexed file.
unfoldable pub read_chunk : ℕ → ℕ → ℕ → ℕ → Store → Option Buffer
unfolding find_block
read_chunk root_lba i in_block_offset epoch_size s = do
  found ← find_block root_lba i s
  let cur_lba = value_or_zero found
  if cur_lba == 0
      then some (replicate epoch_size 0)
      else (do block ← fetch cur_lba s; copy_from block in_block_offset epoch_size)

-- The loop: `n` blocks from block `i` on, the first one from an offset in it on.
unfoldable pub read_indexed : ℕ → ℕ → ℕ → ℕ → ℕ → Store → Option Buffer
unfolding read_chunk
read_indexed zero i in_block_offset remain_size root_lba s = some []
read_indexed (suc n) i in_block_offset remain_size root_lba s = do
  let epoch_size = min remain_size (s.sb.block_size - in_block_offset)
  chunk ← read_chunk root_lba i in_block_offset epoch_size s
  rest ← read_indexed n (i + 1) 0 (remain_size - epoch_size) root_lba s
  some (chunk ++ rest)

-- The blocks from that of `offset` to that of the last byte, whose place is a 64-bit word too.
unfoldable pub rounds : ℕ → ℕ → ℕ → ℕ
rounds block_size offset size =
    suc (u64 (offset + size + (2 ^ 64 - 1)) / block_size) - offset / block_size

-- The bytes read, by the inode's way to store them. An inode of any other kind reads none.
unfoldable pub read_bytes : Inode → ℕ → ℕ → Store → Option Buffer
unfolding read_indexed rounds
read_bytes node offset size s =
    if node.storage_type == storage_inline
    then copy_from node.inline_data offset size
    else if node.storage_type == storage_direct
    then (do block ← fetch node.block_lba s; copy_from block offset size)
    else if node.storage_type == storage_index
    then read_indexed (rounds s.sb.block_size offset size) (offset / s.sb.block_size)
        (offset % s.sb.block_size) size node.block_lba s
    else some []

-- The number that is returned, and what the caller's buffer holds then.
unfoldable pub read_data : ℕ → ℕ → Buffer → Kernel → Option ((ℕ × Buffer) × Kernel)
unfolding read_size read_bytes
read_data id offset buf k = do
  k' ← get id k
  node ← deref id k'
  let size = read_size node offset (length buf)
  bytes ← read_bytes node offset size k'.store
  buf' ← copy_to buf 0 bytes
  some ((size, buf'), k')
