-- ===== src/Indexer/Nodes.antt =====
-- The nodes of a tree in blocks: `BlockBTreeAdapter` of include/BlockIndexer.hpp.
use osep.Common.{
  ℕ, zero, suc, ◌*◌, ◌-◌, ◌^◌, ◌<◌, ◌==◌, ◌≡◌, refl, ◌∙◌, ap, sym, none, some, List, [], ◌∷◌, ◌++◌,
  Bool, true, false, not, if◌then◌else◌, length, take, drop, arith, length-append, Bool-cases,
  Option-cases, inl, inr, replicate, length-replicate,
}
use osep.Common.Bytes.{Buffer, drop_append, copy_to, copy_from}
use osep.Layout.{block_size_const}
use osep.Layout.Codec.{le_bytes, le_value, value-bytes_eight}
use osep.Io.View.{copy_whole}
use osep.Store.{Store, fetch, put}
use osep.Tree.{BpNode}
use osep.Indexer.{
  node_slots, words_at, words_bytes, decode_node, encode_node, read_tree_node, write_tree_node,
}

abbrev pub AllWords : List ℕ → Type 0
AllWords [] = Unit {0}
AllWords (w ∷ ws) = (w < 2 ^ 64) × AllWords ws

-- A node with full arrays of 64-bit words.
pub record IsNode (n : BpNode) : Type 0 where
  pub key_cnt : n.key_cnt < 2 ^ 64
  pub nxt : n.nxt < 2 ^ 64
  pub keys : length n.keys ≡ node_slots
  pub vals : length n.vals ≡ node_slots
  pub key_words : AllWords n.keys
  pub val_words : AllWords n.vals

words_at-words_bytes :
    (ws : List ℕ) (rest : Buffer) → AllWords ws → words_at (length ws) (words_bytes ws ++ rest) ≡ ws
unfolding words_at words_bytes
words_at-words_bytes [] rest ok = refl
words_at-words_bytes (w ∷ ws) rest (hw, ok) =
    λ i. value-bytes_eight w (words_bytes ws ++ rest) hw i ∷ words_at-words_bytes ws rest ok i

length-words_bytes : (ws : List ℕ) → length (words_bytes ws) ≡ 8 * length ws
unfolding words_bytes
length-words_bytes [] = refl
length-words_bytes (w ∷ ws) =
    omega (arith, length-append (le_bytes 8 w) (words_bytes ws), length-words_bytes ws)

words_back :
    (n : ℕ) (ws : List ℕ) (rest : Buffer)
    → length ws ≡ n
    → AllWords ws
    → words_at n (words_bytes ws ++ rest) ≡ ws
words_back n ws rest h ok =
    ap (λ k. words_at k (words_bytes ws ++ rest)) (sym h) ∙ words_at-words_bytes ws rest ok

drop_words :
    (ws : List ℕ) (rest : Buffer) → length ws ≡ 1022 → drop 8176 (words_bytes ws ++ rest) ≡ rest
drop_words ws rest h =
    let len : length (words_bytes ws) ≡ 8176 = omega (arith, length-words_bytes ws) in
    rw len at (drop_append (words_bytes ws) rest)

flag_word :
    (b : Bool) (rest : Buffer) → not (le_value 8 (le_bytes 8 (if b then 1 else 0) ++ rest) == 0) ≡ b
unfolding le_value le_bytes
flag_word true rest = refl
flag_word false rest = refl

-- A node with full arrays of words is the one that its bytes decode to.
decode-encode_node : (n : BpNode) → IsNode n → decode_node (encode_node n) ≡ n
unfolding decode_node encode_node
decode-encode_node n ok =
    let pad = replicate (block_size_const - 24 - 16 * node_slots) (let z : ℕ = 0 in z) in
    let r5 = words_bytes n.vals ++ pad in
    let r4 = words_bytes n.keys ++ r5 in
    let r3 = le_bytes 8 n.nxt ++ r4 in
    let r2 = le_bytes 8 n.key_cnt ++ r3 in
    λ i. record {
      is_leaf = flag_word n.is_leaf r2 i;
      key_cnt = value-bytes_eight n.key_cnt r3 ok.key_cnt i;
      nxt = value-bytes_eight n.nxt r4 ok.nxt i;
      keys = words_back node_slots n.keys r5 ok.keys ok.key_words i;
      vals =
          (ap (words_at node_slots) (drop_words n.keys r5 ok.keys)
              ∙ words_back node_slots n.vals pad ok.vals ok.val_words)
            i;
    }

pub length-encode_node : (n : BpNode) → IsNode n → length (encode_node n) ≡ 16384
unfolding encode_node
length-encode_node n ok =
    let pad = replicate (block_size_const - 24 - 16 * node_slots) (let z : ℕ = 0 in z) in
    omega (
      arith,
      length-append (words_bytes n.keys) (words_bytes n.vals ++ pad),
      length-append (words_bytes n.vals) pad,
      length-words_bytes n.keys,
      length-words_bytes n.vals,
      length-replicate (block_size_const - 24 - 16 * node_slots) (let z : ℕ = 0 in z),
      ok.keys,
      ok.vals,
    )

take_all : (n : ℕ) (xs : Buffer) → length xs ≡ n → take n xs ≡ xs
take_all zero [] h = refl
take_all zero (x ∷ xs) h = absurd (omega arith)
take_all (suc n) [] h = absurd (omega arith)
take_all (suc n) (x ∷ xs) h = ap (◌∷◌ x) (take_all n xs (omega arith))

read_whole : (n : ℕ) (b : Buffer) → length b ≡ n → copy_from b 0 n ≡ some b
unfolding copy_from
read_whole n b h = let e = take_all n b h in ground (arith, e)

write_fails : (id : ℕ) (n : BpNode) (s : Store) → fetch id s ≡ none → write_tree_node id n s ≡ none
unfolding write_tree_node
write_fails id n s e = rw e refl

pub write_goes :
    (id : ℕ) (n : BpNode) (s : Store) (b out : Buffer)
    → fetch id s ≡ some b
    → copy_to b 0 (encode_node n) ≡ some out
    → write_tree_node id n s ≡ some (put id out s)
unfolding write_tree_node
write_goes id n s b out e c = rw e (rw c refl)

fetch-some :
    (id : ℕ) (s : Store) (b : Buffer)
    → fetch id s ≡ some b
    → (b ≡ s.blocks id) × (0 < id) × (id < s.limit)
unfolding fetch
fetch-some id s b e = ground arith

fetch-put :
    (id j : ℕ) (bytes : Buffer) (s : Store)
    → 0 < id
    → id < s.limit
    → fetch j (put id bytes s) ≡ (if id == j then some bytes else fetch j s)
unfolding fetch put
fetch-put id j bytes s pos small = ground arith

read_run :
    (j : ℕ) (s : Store) (b : Buffer)
    → fetch j s ≡ some b
    → length b ≡ 16384
    → read_tree_node j s ≡ some (decode_node b)
unfolding read_tree_node
read_run j s b e h = rw e (rw (read_whole 16384 b h) refl)

read_other :
    (j : ℕ) (s s' : Store) → fetch j s' ≡ fetch j s → read_tree_node j s' ≡ read_tree_node j s
unfolding read_tree_node
read_other j s s' e = rw e refl

read_put :
    (id j : ℕ) (n : BpNode) (bytes : Buffer) (s : Store)
    → 0 < id
    → id < s.limit
    → length bytes ≡ 16384
    → decode_node bytes ≡ n
    → read_tree_node j (put id bytes s) ≡ (if id == j then some n else read_tree_node j s)
read_put id j n bytes s pos small size e = elim (Bool-cases (id == j)) [
  | inl same ↦
      let there : fetch j (put id bytes s) ≡ some bytes =
        ground (arith, fetch-put id j bytes s pos small) in
      rw same (read_run j (put id bytes s) bytes there size ∙ ap some e)
  | inr other ↦
      let there : fetch j (put id bytes s) ≡ fetch j s =
        ground (arith, fetch-put id j bytes s pos small) in
      rw other (read_other j s (put id bytes s) there)
]

-- If a node with full arrays of 64-bit words was written to a block of 16384 bytes, the block
-- reads as that node, and every other block as the node that it read as before.
pub read-write_tree_node :
    (id j : ℕ) (n : BpNode) (s s' : Store)
    → IsNode n
    → length (s.blocks id) ≡ 16384
    → write_tree_node id n s ≡ some s'
    → read_tree_node j s' ≡ (if id == j then some n else read_tree_node j s)
read-write_tree_node id j n s s' ok size run = elim (Option-cases (fetch id s)) [
  | inl e ↦ absurd (ground (arith, write_fails id n s e))
  | inr (b, e) ↦
      let (here, pos, small) = fetch-some id s b e in
      let whole : copy_to b 0 (encode_node n) ≡ some (encode_node n) =
        copy_whole b (encode_node n) (ap length here ∙ size ∙ sym (length-encode_node n ok)) in
      let e' : put id (encode_node n) s ≡ s' =
        ground (arith, write_goes id n s b (encode_node n) e whole) in
      ap (read_tree_node j) (sym e')
      ∙ read_put id j n (encode_node n) s pos small (length-encode_node n ok)
          (decode-encode_node n ok)
]
