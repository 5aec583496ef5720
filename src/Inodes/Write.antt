-- ===== src/Inodes/Write.antt =====
-- `write_data` of include/INodeTable.hpp: an inode keeps its data in itself, then in one block,
-- then in blocks of a B+ tree.
use osep.Common.{
  ℕ, zero, suc, ◌+◌, ◌-◌, ◌/◌, ◌%◌, ◌==◌, leb, Option, none, some, Bool, true, false, if◌then◌else◌,
  ◌>>=◌, u64, min, max, length, take, drop, replicate,
}
use osep.Common.Bytes.{Buffer, copy_to, copy_from}
use osep.Layout.Inode.{Inode, storage_inline, storage_direct, storage_index}
use osep.Store.{Store, fetch, put}
use osep.Alloc.{allocate_block}
use osep.Indexer.{find_block, insert_block}
use osep.Inodes.{Kernel, get, deref, set_node, mark_dirty, write_inode_to_disk}
use osep.Inodes.Read.{value_or_zero}

-- How a stage ends: the call returns, or what is left of the data goes to the next stage. The
-- inode is what the pointer shows, and stays in the cache either way.
pub data Stage : Type 0 where
  returns : Bool → Inode → Store → Stage
  goes_on : ℕ → Buffer → Inode → Store → Stage

-- `memcpy` into a block that `acquire_block` hands out.
unfoldable pub write_block_bytes : ℕ → ℕ → Buffer → Store → Option Store
write_block_bytes lba offset bytes s = do
  block ← fetch lba s
  block' ← copy_to block offset bytes
  some (put lba block' s)

-- What fits into the inode's block of the data: the size, the offset and the data move on.
unfoldable pub fill_block : ℕ → Buffer → ℕ → Inode → Store → Option (ℕ × Buffer × Inode × Store)
unfolding write_block_bytes
fill_block offset bytes lba node s =
    if leb offset s.sb.block_size
    then (do
      let n = min (length bytes + offset) s.sb.block_size - offset
      s' ← write_block_bytes lba offset (take n bytes) s
      some (offset + n, drop n bytes, record node { size = max node.size (offset + n) }, s'))
    else some (offset, bytes, node, s)

-- The inode's own data go to a new block.
unfoldable pub leave_inline : ℕ → ℕ → Inode → Store → Option (Inode × Store)
unfolding write_block_bytes
leave_inline lba offset node s = do
  old ← copy_from node.inline_data 0 node.size
  s' ← write_block_bytes lba 0 old s
  inline' ← copy_to node.inline_data 0 (replicate node.size 0)
  some (record node { inline_data = inline' }, s')

unfoldable pub write_inline : ℕ → ℕ → Buffer → Inode → Store → Option Stage
unfolding fill_block leave_inline
write_inline id offset bytes node s =
    if leb (u64 (offset + length bytes)) s.sb.inode_inline_data_size
    then (do
      inline' ← copy_to node.inline_data offset bytes
      let node' : Inode = record node {
        inline_data = inline';
        size = max node.size (offset + length bytes);
      }
      s' ← write_inode_to_disk id node' s
      some (returns true node' s'))
    else (do
      (lba?, s1) ← allocate_block s
      elim lba? [
        | none ↦ some (returns false node s1)
        | some lba ↦ do
          (node1, s2) ← leave_inline lba offset node s1
          (offset', bytes', node2, s3) ← fill_block offset bytes lba node1 s2
          let node3 : Inode = record node2 { block_lba = lba; storage_type = storage_direct }
          if length bytes' == 0
              then (do s4 ← write_inode_to_disk id node3 s3; some (returns true node3 s4))
              else some (goes_on offset' bytes' node3 s3)
      ])

unfoldable pub write_direct : ℕ → ℕ → Buffer → Inode → Store → Option Stage
unfolding fill_block
write_direct id offset bytes node s =
    if leb (u64 (length bytes + offset)) s.sb.block_size
    then (do
      s1 ← write_block_bytes node.block_lba offset bytes s
      let node' : Inode = record node { size = max node.size (offset + length bytes) }
      s2 ← write_inode_to_disk id node' s1
      some (returns true node' s2))
    else (do
      (offset', bytes', node1, s1) ← fill_block offset bytes node.block_lba node s
      (root?, s2) ← insert_block 0 0 node1.block_lba s1
      elim root? [
        | none ↦ some (returns false node1 s2)
        | some root ↦ some (
            goes_on offset' bytes' (record node1 { block_lba = root; storage_type = storage_index })
              s2)
      ])

-- The block of the file that is written, allocated and entered in the tree if there was none.
-- The outer `none` is a fault, the inner one a full disk; the inode may have a new root.
unfoldable pub block_for_write : ℕ → Inode → Store → Option (Option ℕ × Inode × Store)
unfolding find_block insert_block
block_for_write cur_blk_idx node s = do
  found ← find_block node.block_lba cur_blk_idx s
  let blk_lba = value_or_zero found
  if blk_lba == 0
      then (do
        (lba?, s1) ← allocate_block s
        elim lba? [
          | none ↦ some (none, node, s1)
          | some lba ↦ do
            (root?, s2) ← insert_block node.block_lba cur_blk_idx lba s1
            elim root? [
              | none ↦ some (none, node, s2)
              | some root ↦ some (some lba, record node { block_lba = root }, s2)
            ]
        ])
      else some (some blk_lba, node, s)

-- The loop over the blocks of the data; each round takes one byte at least, so that as many
-- rounds as bytes are enough. The result tells whether the loop came to its end.
unfoldable pub write_indexed : ℕ → ℕ → Buffer → Inode → Store → Option (Bool × Inode × Store)
unfolding block_for_write write_block_bytes
write_indexed zero cur_pos bytes node s = if length bytes == 0 then some (true, node, s) else none
write_indexed (suc fuel) cur_pos bytes node s =
    let round = (do
      let in_blk_offset = cur_pos % s.sb.block_size
      let batch_size = min (length bytes) (s.sb.block_size - in_blk_offset)
      (lba?, node1, s1) ← block_for_write (cur_pos / s.sb.block_size) node s
      elim lba? [
        | none ↦ some (false, node1, s1)
        | some lba ↦ do
          s2 ← write_block_bytes lba in_blk_offset (take batch_size bytes) s1
          write_indexed fuel (u64 (cur_pos + batch_size)) (drop batch_size bytes) node1 s2
      ]) in
    if length bytes == 0 then some (true, node, s) else round

unfoldable pub write_index : ℕ → Buffer → Inode → Store → Option Stage
unfolding write_indexed
write_index offset bytes node s = do
  let end_pos = u64 (offset + length bytes)
  (done, node', s') ← write_indexed (length bytes) offset bytes node s
  some (returns done (if done then record node' { size = max end_pos node'.size } else node') s')

-- The stages in order; each is taken if the inode stores its data that way by then.
unfoldable pub stage_direct : ℕ → ℕ → Buffer → Inode → Store → Option Stage
unfolding write_direct write_index
stage_direct id offset bytes node s =
    if node.storage_type == storage_direct
    then (do
      out ← write_direct id offset bytes node s
      elim out [
        | returns r node' s' ↦ some (returns r node' s')
        | goes_on offset' bytes' node' s' ↦ write_index offset' bytes' node' s'
      ])
    else if node.storage_type == storage_index
    then write_index offset bytes node s
    else some (returns true node s)

unfoldable pub stages : ℕ → ℕ → Buffer → Inode → Store → Option Stage
unfolding write_inline stage_direct
stages id offset bytes node s =
    if node.storage_type == storage_inline
    then (do
      out ← write_inline id offset bytes node s
      elim out [
        | returns r node' s' ↦ some (returns r node' s')
        | goes_on offset' bytes' node' s' ↦ stage_direct id offset' bytes' node' s'
      ])
    else stage_direct id offset bytes node s

unfoldable pub finish : ℕ → Kernel → Stage → Option (Bool × Kernel)
finish id k (returns r node s) = some (r, set_node id node (record k { store = s }))
finish id k (goes_on offset bytes node s) = none

unfoldable pub write_data : ℕ → ℕ → Buffer → Kernel → Option (Bool × Kernel)
unfolding stages finish
write_data id offset bytes k = if length bytes == 0 then some (true, k) else (do
  k1 ← get id k
  node ← deref id k1
  out ← stages id offset bytes node k1.store
  finish id (mark_dirty id k1) out)
