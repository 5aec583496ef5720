-- ===== src/Tree/Rep.antt =====
-- What a tree in the storage stands for: its pairs of keys and values, in order.
use osep.Common.{
  ℕ, zero, suc, ◌+◌, ◌≤◌, ◌<◌, ◌≡◌, true, false, Option, none, some, List, [], ◌∷◌, ◌++◌, ◌==◌,
  if◌then◌else◌, length,
}
use osep.Tree.{BpNode, live_keys}

-- The values of an association list.
unfoldable pub lookup_pair : ℕ → List (ℕ × ℕ) → Option ℕ
lookup_pair key [] = none
lookup_pair key ((k, v) ∷ ps) = if k == key then some v else lookup_pair key ps

-- Keys from a bound on, and below a bound if there is one.
abbrev pub InRange : ℕ → Option ℕ → ℕ → Type 0
InRange lo none k = lo ≤ k
InRange lo (some hi) k = (lo ≤ k) × (k < hi)

-- Ascending keys, all from `lo` on and below `hi`.
abbrev pub Ascending : ℕ → Option ℕ → List (ℕ × ℕ) → Type 0
Ascending lo hi [] = Unit {0}
Ascending lo hi ((k, v) ∷ ps) = InRange lo hi k × Ascending (k + 1) hi ps

-- The pairs of two arrays.
unfoldable pub zip_pairs : List ℕ → List ℕ → List (ℕ × ℕ)
zip_pairs [] vs = []
zip_pairs (k ∷ ks) [] = []
zip_pairs (k ∷ ks) (v ∷ vs) = (k, v) ∷ zip_pairs ks vs

mutual
  -- The node `id` is the root of a tree of the given height, whose pairs have keys in the range.
  pub data Rep (read : ℕ → Option BpNode) : ℕ → ℕ → ℕ → Option ℕ → List (ℕ × ℕ) → Type 0 where
    leaf :
        {id lo : ℕ} {hi : Option ℕ} (node : BpNode)
        → read id ≡ some node
        → node.is_leaf ≡ true
        → node.key_cnt ≤ length node.keys
        → node.key_cnt ≤ length node.vals
        → Ascending lo hi (zip_pairs (live_keys node) node.vals)
        → Rep read zero id lo hi (zip_pairs (live_keys node) node.vals)
    inner :
        {d id lo : ℕ} {hi : Option ℕ} {ps : List (ℕ × ℕ)} (node : BpNode)
        → read id ≡ some node
        → node.is_leaf ≡ false
        → Kids read d (live_keys node) node.vals lo hi ps
        → Rep read (suc d) id lo hi ps

  -- The children of an inner node, each with the keys between its separators.
  pub data Kids (read : ℕ → Option BpNode)
      : ℕ → List ℕ → List ℕ → ℕ → Option ℕ → List (ℕ × ℕ) → Type 0 where
    last :
        {d v lo : ℕ} {vs : List ℕ} {hi : Option ℕ} {ps : List (ℕ × ℕ)}
        → Rep read d v lo hi ps
        → Kids read d [] (v ∷ vs) lo hi ps
    more :
        {d k v lo : ℕ} {ks vs : List ℕ} {hi : Option ℕ} {ps qs : List (ℕ × ℕ)}
        → InRange lo hi k
        → Rep read d v lo (some k) ps
        → Kids read d ks vs k hi qs
        → Kids read d (k ∷ ks) (v ∷ vs) lo hi (ps ++ qs)
