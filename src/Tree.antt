-- ===== src/Tree.antt =====
-- `BPTree` of include/BPTree.hpp: a B+ tree whose nodes lie in a storage. A node has `slots` keys
-- and values (`Node::M`). Nodes are values here, where the source reads and writes their bytes; an
-- index past an array is not used. `none` is a fault of the storage, or fuel that ran out: the
-- descents have as much fuel as the tree may have levels.
pub mod Rep
pub mod Find
pub mod Leaves
pub mod Insert
use osep.Common.{
  ℕ, zero, suc, ◌+◌, ◌-◌, ◌/◌, ◌==◌, Option, none, some, List, [], ◌∷◌, ◌++◌, leb, ltb, not, Bool,
  true, false, ◌&&◌, if◌then◌else◌, ◌>>=◌, ◌>>◌, take, drop, set, get_or, replicate,
}

pub record BpNode : Type 0 where
  pub is_leaf : Bool
  pub key_cnt : ℕ
  pub nxt : ℕ
  pub keys : List ℕ
  pub vals : List ℕ

-- `BPTreeNode()`: all zero.
unfoldable pub new_node : ℕ → BpNode
new_node slots = record {
  is_leaf = false;
  key_cnt = 0;
  nxt = 0;
  keys = replicate slots 0;
  vals = replicate slots 0;
}

-- `IBPTreeStorage`, with its state passed on.
pub record BpStorage (S : Type 0) : Type 0 where
  pub read_node : ℕ → S → Option BpNode
  pub write_node : ℕ → BpNode → S → Option S
  pub allocate_node : S → Option (Option ℕ × S)
  pub free_node : ℕ → S → Option S
  pub free_val : ℕ → S → Option S

-- `std::upper_bound` and `std::lower_bound` on a sorted range: the number of keys before the first
-- that is greater, or not less.
unfoldable pub upper_bound : ℕ → List ℕ → ℕ
upper_bound key [] = 0
upper_bound key (k ∷ ks) = if ltb key k then 0 else suc (upper_bound key ks)

unfoldable pub lower_bound : ℕ → List ℕ → ℕ
lower_bound key [] = 0
lower_bound key (k ∷ ks) = if leb key k then 0 else suc (lower_bound key ks)

abbrev pub live_keys : BpNode → List ℕ
live_keys node = take node.key_cnt node.keys

-- `for (j = i; j > i - n; j--) xs[j] = xs[j - 1];`
unfoldable pub shift_right : ℕ → ℕ → List ℕ → List ℕ
shift_right zero i xs = xs
shift_right (suc n) i xs = shift_right n (i - 1) (set xs i (get_or xs (i - 1) 0))

-- `memcpy` of `n` array elements from `src + off` to the start of `dst`.
unfoldable pub copy_slots : List ℕ → List ℕ → ℕ → ℕ → List ℕ
copy_slots dst src off n = take n (drop off src) ++ drop n dst

-- A key and its value put into a leaf, behind the keys that are not greater.
unfoldable pub leaf_insert : ℕ → ℕ → BpNode → BpNode
unfolding upper_bound shift_right
leaf_insert key val node =
    let idx = upper_bound key (live_keys node) in
    record node {
      keys = set (shift_right (node.key_cnt - idx) node.key_cnt node.keys) idx key;
      vals = set (shift_right (node.key_cnt - idx) node.key_cnt node.vals) idx val;
      key_cnt = node.key_cnt + 1;
    }

-- The right half of a full node, and what stays of the node itself.
unfoldable pub split_right : ℕ → BpNode → BpNode
unfolding new_node copy_slots
split_right slots node =
    let mid = (slots - 1) / 2 in
    let fresh = new_node slots in
    if node.is_leaf
    then (record {
      is_leaf = true;
      key_cnt = slots - 1 - mid;
      nxt = node.nxt;
      keys = copy_slots fresh.keys node.keys mid (slots - 1 - mid);
      vals = copy_slots fresh.vals node.vals mid (slots - 1 - mid);
    })
    else (record {
      is_leaf = false;
      key_cnt = slots - 1 - mid - 1;
      nxt = 0;
      keys = copy_slots fresh.keys node.keys (mid + 1) (slots - 1 - mid - 1);
      vals = copy_slots fresh.vals node.vals (mid + 1) (slots - 1 - mid);
    })

unfoldable pub split_left : ℕ → ℕ → BpNode → BpNode
split_left slots new_id node = record node {
  key_cnt = (slots - 1) / 2;
  nxt = if node.is_leaf then new_id else node.nxt;
}

-- The father with the key that separates the halves, and the new child behind it.
unfoldable pub split_father : ℕ → ℕ → ℕ → BpNode → BpNode
unfolding shift_right
split_father child_idx key new_id father =
    let vals = shift_right (father.key_cnt - child_idx) (father.key_cnt + 1) father.vals in
    let cnt = father.key_cnt + 1 in
    record father {
      key_cnt = cnt;
      keys = set (shift_right (cnt - child_idx) cnt father.keys) child_idx key;
      vals = set vals (child_idx + 1) new_id;
    }

module _ {S : Type 0} (slots : ℕ) (st : BpStorage S) where
  unfoldable pub split_node : ℕ → ℕ → S → Option (Bool × S)
  unfolding split_right split_left split_father
  split_node father_id child_idx s = do
    (new_id?, s1) ← st.allocate_node s
    elim new_id? [
      | none ↦ some (false, s1)
      | some new_id ↦ do
        father ← st.read_node father_id s1
        let node_id = get_or father.vals child_idx 0
        node ← st.read_node node_id s1
        let key = get_or node.keys ((slots - 1) / 2) 0
        s2 ← st.write_node father_id (split_father child_idx key new_id father) s1
        s3 ← st.write_node node_id (split_left slots new_id node) s2
        s4 ← st.write_node new_id (split_right slots node) s3
        some (true, s4)
    ]

  -- The child of an inner node for a key, after a split if it was full.
  unfoldable pub insert_child : ℕ → ℕ → BpNode → S → Option (Option ℕ × S)
  unfolding split_node upper_bound
  insert_child id key node s = do
    let idx = upper_bound key (live_keys node)
    let child_id = get_or node.vals idx 0
    child ← st.read_node child_id s
    if child.key_cnt == slots - 1
        then (do
          (done, s') ← split_node id idx s
          if done
              then (do
                node' ← st.read_node id s'
                let idx' = if leb (get_or node'.keys idx 0) key then idx + 1 else idx
                some (some (get_or node'.vals idx' 0), s'))
              else some (none, s'))
        else some (some child_id, s)

  unfoldable pub node_insert : ℕ → ℕ → ℕ → ℕ → S → Option (Bool × S)
  unfolding leaf_insert insert_child
  node_insert zero id key val s = none
  node_insert (suc fuel) id key val s = do
    node ← st.read_node id s
    if node.is_leaf
        then (do s' ← st.write_node id (leaf_insert key val node) s; some (true, s'))
        else (do
          (child?, s') ← insert_child id key node s
          elim child? [
            | none ↦ some (false, s')
            | some child_id ↦ node_insert fuel child_id key val s'
          ])

  -- The root that `insert` works on: a new one above it, if it was full.
  unfoldable pub insert_root : ℕ → S → Option (Option ℕ × S)
  unfolding new_node split_node
  insert_root root_id s = do
    root ← st.read_node root_id s
    if root.key_cnt == slots - 1
        then (do
          (new_id?, s1) ← st.allocate_node s
          elim new_id? [
            | none ↦ some (none, s1)
            | some new_id ↦ do
              let fresh = new_node slots
              s2 ← st.write_node new_id (record fresh { vals = set fresh.vals 0 root_id }) s1
              (done, s3) ← split_node new_id 0 s2
              some (if done then some new_id else none, s3)
          ])
        else some (some root_id, s)

  -- A tree of one leaf.
  unfoldable pub insert_first : ℕ → ℕ → S → Option (Option ℕ × S)
  unfolding new_node
  insert_first key val s = do
    (new_id?, s1) ← st.allocate_node s
    elim new_id? [
      | none ↦ some (none, s1)
      | some new_id ↦ do
        let fresh = new_node slots
        s2 ←
            st.write_node new_id
              (record fresh {
                is_leaf = true;
                key_cnt = 1;
                keys = set fresh.keys 0 key;
                vals = set fresh.vals 0 val;
              })
              s1
        some (some new_id, s2)
    ]

  -- `insert`: what `node_insert` returns is not looked at.
  unfoldable pub insert : ℕ → ℕ → ℕ → ℕ → S → Option (Option ℕ × S)
  unfolding insert_first insert_root node_insert
  insert fuel root_id key val s = if root_id == 0 then insert_first key val s else (do
    (root?, s1) ← insert_root root_id s
    elim root? [
      | none ↦ some (none, s1)
      | some root ↦ do (_, s2) ← node_insert fuel root key val s1; some (some root, s2)
    ])

  -- The loop of `find` down to a leaf.
  unfoldable pub find_leaf : ℕ → ℕ → ℕ → S → Option BpNode
  unfolding upper_bound
  find_leaf zero key cur_id s = none
  find_leaf (suc fuel) key cur_id s = do
    node ← st.read_node cur_id s
    if node.is_leaf
        then some node
        else find_leaf fuel key (get_or node.vals (upper_bound key (live_keys node)) 0) s

  unfoldable pub find : ℕ → ℕ → ℕ → S → Option (Option ℕ)
  unfolding find_leaf lower_bound
  find fuel root_id key s = if root_id == 0 then some none else (do
    leaf ← find_leaf fuel key root_id s
    let idx = lower_bound key (live_keys leaf)
    some (
        if ltb idx leaf.key_cnt && (get_or leaf.keys idx 0 == key)
        then some (get_or leaf.vals idx 0)
        else none))

  -- A loop of calls over values.
  unfoldable pub each : (ℕ → S → Option S) → List ℕ → S → Option S
  each f [] s = some s
  each f (v ∷ vs) s = do s' ← f v s; each f vs s'

  unfoldable pub clear : ℕ → ℕ → S → Option S
  unfolding each
  clear zero id s = none
  clear (suc fuel) id s = if id == 0 then some s else (do
    node ← st.read_node id s
    s' ←
        if node.is_leaf
        then each st.free_val (take node.key_cnt node.vals) s
        else each (clear fuel) (take (node.key_cnt + 1) node.vals) s
    st.free_node id s')

  unfoldable pub get_min_key : ℕ → ℕ → S → Option (Option ℕ)
  get_min_key zero id s = none
  get_min_key (suc fuel) id s = do
    node ← st.read_node id s
    if node.key_cnt == 0
        then some none
        else (if node.is_leaf
            then some (some (get_or node.keys 0 0))
            else get_min_key fuel (get_or node.vals 0 0) s)
