-- ===== src/Tree/Insert.antt =====
-- `insert` of include/BPTree.hpp into a tree that is one leaf, and `find` after it.
use osep.Common.{
  ℕ, suc, ◌+◌, ◌-◌, ◌<◌, ◌≤◌, ◌==◌, ltb, ◌≡◌, refl, ap, sym, ◌∙◌, inl, inr, ◌≢◌, Option, none, some,
  List, [], ◌∷◌, true, false, if◌then◌else◌, arith, Bool-cases, length,
}
use mathlib.Core.Path.{subst}
use osep.Tree.{BpNode, live_keys, leaf_insert, BpStorage, insert, insert_root, node_insert, find}
use osep.Tree.Find.{find-lookup_pair}
use osep.Tree.Rep.{zip_pairs, lookup_pair, InRange, Ascending, Rep, leaf}
use osep.Tree.Leaves.{
  insert_pair, leaf_insert-pairs, leaf_insert-leaf, leaf_insert-keys, leaf_insert-vals,
}

lookup-insert_pair :
    (key val j : ℕ) (ps : List (ℕ × ℕ))
    → lookup_pair key ps ≡ none
    → lookup_pair j (insert_pair key val ps) ≡ (if key == j then some val else lookup_pair j ps)
unfolding lookup_pair insert_pair
lookup-insert_pair key val j [] h = refl
lookup-insert_pair key val j ((k, v) ∷ ps) h = elim (Bool-cases (k == key)) [
  | inl e ↦ absurd (ground arith)
  | inr e ↦
      let below : lookup_pair key ps ≡ none = rw e at h in
      elim (Bool-cases (ltb key k)) [
        | inl less ↦ rw less refl
        | inr more ↦ ground (arith, lookup-insert_pair key val j ps below)
      ]
]

raised : (lo lo' k : ℕ) (hi : Option ℕ) → lo' ≤ k → InRange lo hi k → InRange lo' hi k
raised lo lo' k none h r = h
raised lo lo' k (some b) h (r, below) = (h, below)

insert_pair-Ascending :
    (key val lo : ℕ) (hi : Option ℕ) (ps : List (ℕ × ℕ))
    → Ascending lo hi ps
    → InRange lo hi key
    → lookup_pair key ps ≡ none
    → Ascending lo hi (insert_pair key val ps)
unfolding lookup_pair insert_pair
insert_pair-Ascending key val lo hi [] a r h = (r, tt)
insert_pair-Ascending key val lo hi ((k, v) ∷ ps) (rk, a) r h = elim (Bool-cases (ltb key k)) [
  | inl less ↦ rw less (r, (raised lo (key + 1) k hi (ground arith) rk, a))
  | inr more ↦ elim (Bool-cases (k == key)) [
    | inl e ↦ absurd (ground arith)
    | inr e ↦
        let below : lookup_pair key ps ≡ none = rw e at h in
        rw more (
          rk,
          insert_pair-Ascending key val (k + 1) hi ps a (raised lo (k + 1) key hi (ground arith) r)
              below,
        )
  ]
]

-- A tree that is one leaf with room.
module _ {S : Type 0} (slots : ℕ) (st : BpStorage S) (s s' : S) (root key val : ℕ) (node : BpNode)
    (at_root : st.read_node root s ≡ some node) (is_leaf : node.is_leaf ≡ true)
    (set_root : root ≢ 0) (room : (node.key_cnt == slots - 1) ≡ false)
    (keys : node.key_cnt < length node.keys) (vals : node.key_cnt < length node.vals)
    (sorted : Ascending 0 none (zip_pairs (live_keys node) node.vals))
    (new : lookup_pair key (zip_pairs (live_keys node) node.vals) ≡ none)
    (wrote : st.write_node root (leaf_insert key val node) s ≡ some s')
    (read_back : st.read_node root s' ≡ some (leaf_insert key val node)) where
  insert_run : (fuel : ℕ) → insert slots st (suc fuel) root key val s ≡ some (some root, s')
  unfolding insert insert_root node_insert
  insert_run fuel =
      let live : (root == 0) ≡ false = ground arith in
      rw live (rw at_root (rw room (rw at_root (rw wrote (rw is_leaf refl)))))

  inserted-Rep :
      Rep
        (λ id. st.read_node id s')
        0
        root
        0
        none
        (insert_pair key val (zip_pairs (live_keys node) node.vals))
  inserted-Rep =
      let inserted = leaf_insert key val node in
      let pairs = leaf_insert-pairs key val node keys vals in
      subst (λ ps. Rep (λ id. st.read_node id s') 0 root 0 none ps) pairs
        (leaf inserted read_back (leaf_insert-leaf key val node ∙ is_leaf)
          (leaf_insert-keys key val node keys) (leaf_insert-vals key val node vals)
          (subst (λ ps. Ascending 0 none ps) (sym pairs)
            (insert_pair-Ascending key val 0 none _ sorted (omega arith) new)))

  -- On a tree whose root is not 0 and is a leaf with room, with ascending keys that do not have
  -- the key, over a storage that writes the changed leaf and reads it back: `insert` returns the
  -- same root, and `find` then returns the new value for the key, and for every other key what
  -- the leaf had for it.
  pub insert-find :
      (fuel j : ℕ)
      → (insert slots st (suc fuel) root key val s ≡ some (some root, s'))
        × (find slots st (suc fuel) root j s'
            ≡ some (
                if key == j
                then some val
                else lookup_pair j (zip_pairs (live_keys node) node.vals)))
  insert-find fuel j = (
    insert_run fuel,
    find-lookup_pair slots st s' j (suc fuel) 0 root _ inserted-Rep set_root (omega arith)
        ∙ ap some (lookup-insert_pair key val j _ new),
  )
