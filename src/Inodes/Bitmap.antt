-- ===== src/Inodes/Bitmap.antt =====
-- `reset_inode_bitmap`, `allocate_inode` and `free_inode` of include/INodeTable.hpp.
use osep.Common.{
  ℕ, zero, suc, ◌+◌, ◌/◌, ◌%◌, ◌==◌, Option, none, some, if◌then◌else◌, ◌>>=◌, u64, sub64, set,
  get_or,
}
use osep.Common.Bits.{set_bit, clear_bit, find_bit}
use osep.Layout.Inode.{Inode, decode_inode, storage_direct, storage_index}
use osep.Common.{replicate}
use osep.Store.{Store, fetch, put}
use osep.Alloc.{BitPos, find_byte, lba_of, fill_blocks}
use osep.Alloc
use osep.Indexer.{free_tree}
use osep.Inodes.{Kernel, get, deref, set_node, mark_dirty}

unfoldable pub reset_inode_bitmap : Store → Option Store
reset_inode_bitmap s =
    fill_blocks s.sb.inode_valid_blocks_cnt 0 s.sb.inode_valid_block_start_lba 0 s

-- The loop over `n` blocks of the inode bitmap from `idx` on, up to the first clear bit.
unfoldable pub find_clear_inode : ℕ → ℕ → Store → Option (Option BitPos)
find_clear_inode zero idx s = some none
find_clear_inode (suc n) idx s =
    let rest = find_clear_inode n (idx + 1) s in
    do
      buf ← fetch (u64 (idx + s.sb.inode_valid_block_start_lba)) s
      elim (find_byte s.sb.block_size 0 buf) [
        | none ↦ rest
        | some byte ↦
            some
              (some (record { block = idx; byte = byte; bit = find_bit 8 0 (get_or buf byte 0) }))
      ]

-- The bit of the new inode is set, and one inode less is free.
unfoldable pub take_inode_bit : BitPos → Store → Option Store
take_inode_bit p s = do
  let lba = u64 (p.block + s.sb.inode_valid_block_start_lba)
  buf ← fetch lba s
  let s' = put lba (set buf p.byte (set_bit (get_or buf p.byte 0) p.bit)) s
  some (record s' { sb = record s.sb { free_inodes = sub64 s.sb.free_inodes 1 } })

unfoldable pub allocate_inode : ℕ → Kernel → Option (Option ℕ × Kernel)
unfolding find_clear_inode take_inode_bit
allocate_inode type k = do
  found ← find_clear_inode k.store.sb.inode_valid_blocks_cnt 0 k.store
  elim found [
    | none ↦ some (none, k)
    | some p ↦ do
      store ← take_inode_bit p k.store
      let id = lba_of store.sb.bits_per_block p
      k1 ← get id (record k { store = store })
      node ← deref id k1
      some (some id, mark_dirty id (set_node id (record node { file_type = type }) k1))
  ]

-- What `free_inode` gives back of the inode's data.
unfoldable pub free_storage : Inode → Store → Option Store
free_storage node s =
    if node.storage_type == storage_direct
    then Alloc.free_block node.block_lba s
    else if node.storage_type == storage_index
    then free_tree node.block_lba s
    else some s

unfoldable pub free_inode : ℕ → Kernel → Option Kernel
unfolding free_storage
free_inode id k = do
  k1 ← get id k
  node ← deref id k1
  let sb = k1.store.sb
  let lba = u64 (id / sb.bits_per_block + sb.inode_valid_block_start_lba)
  let byte_idx = id % sb.bits_per_block / 8
  let bit_idx = id % 8
  store ← free_storage node k1.store
  k2 ← get id (record k1 { store = store })
  let k3 = set_node id (decode_inode (replicate sb.inode_size 0)) k2
  k4 ← get id k3
  let k5 = mark_dirty id k4
  buf ← fetch lba k5.store
  let s' = put lba (set buf byte_idx (clear_bit (get_or buf byte_idx 0) bit_idx)) k5.store
  some (record k5 {
    store = record s' {
      sb = record k5.store.sb { free_inodes = u64 (k5.store.sb.free_inodes + 1) };
    };
  })
