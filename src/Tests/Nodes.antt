-- ===== src/Tests/Nodes.antt =====
-- A leaf in a block.
use osep.Common.{
  ℕ, zero, suc, ◌≡◌, ◌==◌, some, true, if◌then◌else◌, arith, refl, length-replicate, replicate, sym,
  ◌∙◌,
}
use osep.Layout.{create_superblock}
use osep.Store.{Store, fetch, put}
use osep.Tree.{BpNode}
use osep.Indexer.{read_tree_node, write_tree_node, encode_node, node_slots}
use osep.Indexer.Nodes.{AllWords, IsNode, write_goes, length-encode_node, read-write_tree_node}
use osep.Io.View.{copy_whole}

zero_words : (n : ℕ) → AllWords (replicate n 0)
zero_words zero = tt
zero_words (suc n) = (omega arith, zero_words n)

abbrev node : BpNode
node = record {
  is_leaf = true;
  key_cnt = 1;
  nxt = 9;
  keys = replicate node_slots 0;
  vals = replicate node_slots 0;
}

abbrev blocks : Store
blocks = record { sb = create_superblock 1; limit = 64; blocks = λ j. replicate 16384 0 }

node-IsNode : IsNode node
node-IsNode = record {
  key_cnt = omega arith;
  nxt = omega arith;
  keys = length-replicate node_slots (let z : ℕ = 0 in z);
  vals = length-replicate node_slots (let z : ℕ = 0 in z);
  key_words = zero_words node_slots;
  val_words = zero_words node_slots;
}

block_there : fetch 5 blocks ≡ some (replicate 16384 0)
unfolding fetch
block_there = refl

node_written : write_tree_node 5 node blocks ≡ some (put 5 (encode_node node) blocks)
node_written = write_goes 5 node blocks (replicate 16384 0) (encode_node node) block_there (
    copy_whole (replicate 16384 0) (encode_node node)
      (length-replicate 16384 (let z : ℕ = 0 in z) ∙ sym (length-encode_node node node-IsNode)))

read-write_tree_node_example :
    read_tree_node 5 (put 5 (encode_node node) blocks)
    ≡ (if 5 == 5 then some node else read_tree_node 5 blocks)
read-write_tree_node_example =
    read-write_tree_node 5 5 node blocks (put 5 (encode_node node) blocks) node-IsNode
      (length-replicate 16384 (let z : ℕ = 0 in z)) node_written
