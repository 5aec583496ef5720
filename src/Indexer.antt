-- ===== src/Indexer.antt =====
-- `BlockBTreeAdapter` and `BlockIndexer` of include/BlockIndexer.hpp: the blocks of a file in a B+
-- tree whose nodes are blocks of the disk.
pub mod Nodes
use osep.Common.{
  ℕ, zero, suc, ◌+◌, ◌-◌, ◌*◌, ◌/◌, ◌==◌, Option, some, List, [], ◌∷◌, ◌++◌, not, if◌then◌else◌,
  ◌>>=◌, drop, replicate,
}
use osep.Common.Bytes.{Buffer, copy_to, copy_from}
use osep.Layout.{block_size_const}
use osep.Layout.Codec.{le_bytes, le_value, word_at}
use osep.Store.{Store, fetch, put}
use osep.Alloc.{allocate_block, free_block}
use osep.Tree
use osep.Tree.{BpNode, BpStorage}

-- `Node::M` for blocks of BLOCK_SIZE bytes.
abbrev pub node_slots : ℕ
node_slots = (block_size_const - 24) / 16

-- An array of 64-bit words.
unfoldable pub words_at : ℕ → Buffer → List ℕ
unfolding le_value
words_at zero buf = []
words_at (suc n) buf = le_value 8 buf ∷ words_at n (drop 8 buf)

unfoldable pub words_bytes : List ℕ → Buffer
unfolding le_bytes
words_bytes [] = []
words_bytes (w ∷ ws) = le_bytes 8 w ++ words_bytes ws

unfoldable pub decode_node : Buffer → BpNode
unfolding word_at
decode_node buf = record {
  is_leaf = not (word_at 0 8 buf == 0);
  key_cnt = word_at 8 8 buf;
  nxt = word_at 16 8 buf;
  keys = words_at node_slots (drop 24 buf);
  vals = words_at node_slots (drop (24 + 8 * node_slots) buf);
}

unfoldable pub encode_node : BpNode → Buffer
unfolding le_bytes
encode_node n =
    le_bytes 8 (if n.is_leaf then 1 else 0)
    ++ (le_bytes 8 n.key_cnt
        ++ (le_bytes 8 n.nxt
            ++ (words_bytes n.keys
                ++ (words_bytes n.vals ++ replicate (block_size_const - 24 - 16 * node_slots) 0))))

unfoldable pub read_tree_node : ℕ → Store → Option BpNode
read_tree_node id s = do
  buf ← fetch id s
  bytes ← copy_from buf 0 block_size_const
  some (decode_node bytes)

unfoldable pub write_tree_node : ℕ → BpNode → Store → Option Store
write_tree_node id n s = do
  buf ← fetch id s
  buf' ← copy_to buf 0 (encode_node n)
  some (put id buf' s)

-- `BlockBTreeAdapter`: nodes and values are blocks of the allocator.
abbrev pub block_adapter : BpStorage Store
block_adapter = record {
  read_node = read_tree_node;
  write_node = write_tree_node;
  allocate_node = allocate_block;
  free_node = free_block;
  free_val = free_block;
}

-- The levels that a tree may have: with 511 children at least to an inner node below the root,
-- nine levels hold more than 2^64 blocks.
abbrev pub tree_fuel : ℕ
tree_fuel = 16

unfoldable pub find_block : ℕ → ℕ → Store → Option (Option ℕ)
find_block root_lba file_block_idx s =
    Tree.find node_slots block_adapter tree_fuel root_lba file_block_idx s

unfoldable pub insert_block : ℕ → ℕ → ℕ → Store → Option (Option ℕ × Store)
insert_block root_lba file_block_idx file_data_lba s =
    Tree.insert node_slots block_adapter tree_fuel root_lba file_block_idx file_data_lba s

-- `free_node`
unfoldable pub free_tree : ℕ → Store → Option Store
free_tree node_lba s =
    if node_lba == 0 then some s else Tree.clear node_slots block_adapter tree_fuel node_lba s
