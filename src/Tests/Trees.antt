-- ===== src/Tests/Trees.antt =====
-- A tree of a root over two leaves.
use osep.Common.{
  ℕ, ◌≡◌, ◌==◌, Option, none, some, List, [], ◌∷◌, true, false, if◌then◌else◌, arith, refl,
}
use osep.Tree.{BpNode, BpStorage, find, insert, leaf_insert, live_keys}
use osep.Tree.Rep.{Rep, leaf, inner, last, more, lookup_pair, zip_pairs, Ascending}
use osep.Tree.Insert.{insert-find}
use osep.Tree.Find.{find-lookup_pair}

abbrev root : BpNode
root = record {
  is_leaf = false;
  key_cnt = 1;
  nxt = 0;
  keys = 20 ∷ 0 ∷ 0 ∷ [];
  vals = 2 ∷ 3 ∷ 0 ∷ [];
}

abbrev left : BpNode
left = record {
  is_leaf = true;
  key_cnt = 2;
  nxt = 3;
  keys = 4 ∷ 8 ∷ 0 ∷ [];
  vals = 40 ∷ 80 ∷ 0 ∷ [];
}

abbrev right : BpNode
right = record {
  is_leaf = true;
  key_cnt = 1;
  nxt = 0;
  keys = 20 ∷ 0 ∷ 0 ∷ [];
  vals = 200 ∷ 0 ∷ 0 ∷ [];
}

abbrev nodes : ℕ → Option BpNode
nodes id =
    if id == 1
    then some root
    else if id == 2
    then some left
    else if id == 3
    then some right
    else none

abbrev storage : BpStorage Unit
storage = record {
  read_node = λ id s. nodes id;
  write_node = λ id n s. none;
  allocate_node = λ s. some (none, s);
  free_node = λ id s. none;
  free_val = λ v s. none;
}

abbrev pairs : List (ℕ × ℕ)
pairs = (4, 40) ∷ (8, 80) ∷ (20, 200) ∷ []

pairs-Rep : Rep nodes 1 1 0 none pairs
unfolding zip_pairs
pairs-Rep = inner root refl refl (
    more (omega arith)
      (leaf left refl refl (omega arith) (omega arith)
        ((omega arith, omega arith), ((omega arith, omega arith), tt)))
      (last (leaf right refl refl (omega arith) (omega arith) (omega arith, tt))))

find-lookup_pair_example : find 3 storage 16 1 8 tt ≡ some (lookup_pair 8 pairs)
find-lookup_pair_example =
    find-lookup_pair 3 storage tt 8 16 1 1 pairs pairs-Rep (omega arith) (omega arith)

-- Nodes that can be written.
abbrev written_nodes : BpStorage (ℕ → Option BpNode)
written_nodes = record {
  read_node = λ id s. s id;
  write_node = λ id n s. some (λ j. if id == j then some n else s j);
  allocate_node = λ s. some (none, s);
  free_node = λ id s. none;
  free_val = λ v s. none;
}

abbrev one_node : BpNode
one_node = record left { nxt = 0; keys = 4 ∷ 8 ∷ 0 ∷ 0 ∷ []; vals = 40 ∷ 80 ∷ 0 ∷ 0 ∷ [] }

abbrev one_leaf : ℕ → Option BpNode
one_leaf id = if id == 7 then some one_node else none

abbrev after_insert : ℕ → Option BpNode
after_insert j = if 7 == j then some (leaf_insert 6 60 one_node) else one_leaf j

one_node-Ascending : Ascending 0 none (zip_pairs (live_keys one_node) one_node.vals)
unfolding zip_pairs
one_node-Ascending = (omega arith, (omega arith, tt))

one_node_new : lookup_pair 6 (zip_pairs (live_keys one_node) one_node.vals) ≡ none
unfolding zip_pairs lookup_pair
one_node_new = refl

insert-find_example :
    (insert 4 written_nodes 3 7 6 60 one_leaf ≡ some (some 7, after_insert))
    × (find 4 written_nodes 3 7 8 after_insert
        ≡ some (
            if 6 == 8
            then some 60
            else lookup_pair 8 (zip_pairs (live_keys one_node) one_node.vals)))
insert-find_example =
    insert-find 4 written_nodes one_leaf after_insert 7 6 60 one_node refl refl (omega arith) refl
      (omega arith) (omega arith) one_node-Ascending one_node_new refl refl 2 8
