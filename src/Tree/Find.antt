-- ===== src/Tree/Find.antt =====
-- `find` on a tree that represents its pairs is a lookup among them.
use osep.Common.{
  ℕ, zero, suc, ◌+◌, ◌≤◌, ◌<◌, ◌≡◌, ◌≢◌, refl, ap, ◌∙◌, true, false, Option, none, some, List, [],
  ◌∷◌, ◌++◌, ◌==◌, leb, ltb, ◌&&◌, if◌then◌else◌, arith, length, take, get_or, ◌⊎◌, inl, inr,
  Bool-cases, length-take, ltb→lt,
}
use osep.Tree.{BpNode, BpStorage, live_keys, upper_bound, lower_bound, find_leaf, find}
use osep.Tree.Rep.{lookup_pair, InRange, Ascending, zip_pairs, Rep, leaf, inner, Kids, last, more}

-- Looked up in a list whose keys are all too great.
lookup-above :
    (key lo : ℕ) (hi : Option ℕ) (ps : List (ℕ × ℕ))
    → Ascending lo hi ps
    → key < lo
    → lookup_pair key ps ≡ none
unfolding lookup_pair
lookup-above key lo hi [] a h = refl
lookup-above key lo none ((k, v) ∷ ps) a h =
    ground (arith, lookup-above key (k + 1) none ps a.1 (omega arith))
lookup-above key lo (some b) ((k, v) ∷ ps) a h =
    ground (arith, lookup-above key (k + 1) (some b) ps a.1 (omega (arith, a.0)))

-- The search of `find` in a leaf, on ascending keys.
search_leaf :
    (key lo : ℕ) (hi : Option ℕ) (ks vs : List ℕ)
    → length ks ≤ length vs
    → Ascending lo hi (zip_pairs ks vs)
    → (let idx = lower_bound key ks in
        if ltb idx (length ks) && (get_or ks idx 0 == key) then some (get_or vs idx 0) else none)
      ≡ lookup_pair key (zip_pairs ks vs)
unfolding lower_bound lookup_pair zip_pairs
search_leaf key lo hi [] vs h a = ground arith
search_leaf key lo hi (k ∷ ks) [] h a = absurd (omega arith)
search_leaf key lo hi (k ∷ ks) (v ∷ vs) h a = elim (Bool-cases (leb key k)) [
  | inl le ↦ ground (arith, lookup-above key (k + 1) hi (zip_pairs ks vs) a.1)
  | inr gt ↦ ground (arith, search_leaf key (k + 1) hi ks vs (omega arith) a.1)
]

-- Keys out of a range.
abbrev OutRange : ℕ → Option ℕ → ℕ → Type 0
OutRange lo none key = key < lo
OutRange lo (some b) key = (key < lo) ⊎ (b ≤ key)

Ascending-OutRange :
    (key lo : ℕ) (hi : Option ℕ) (ps : List (ℕ × ℕ))
    → Ascending lo hi ps
    → OutRange lo hi key
    → lookup_pair key ps ≡ none
unfolding lookup_pair
Ascending-OutRange key lo hi [] a out = refl
Ascending-OutRange key lo none ((k, v) ∷ ps) a out =
    ground (arith, lookup-above key (k + 1) none ps a.1)
Ascending-OutRange key lo (some b) ((k, v) ∷ ps) a (inl out) =
    ground (arith, a.0, lookup-above key (k + 1) (some b) ps a.1)
Ascending-OutRange key lo (some b) ((k, v) ∷ ps) a (inr out) =
    ground (arith, a.0, Ascending-OutRange key (k + 1) (some b) ps a.1 (inr out))

lookup-append :
    (key : ℕ) (ps qs : List (ℕ × ℕ))
    → lookup_pair key (ps ++ qs)
      ≡ (elim (lookup_pair key ps) [ some v ↦ some v | none ↦ lookup_pair key qs ])
unfolding lookup_pair
lookup-append key [] qs = refl
lookup-append key ((k, v) ∷ ps) qs = ground (arith, lookup-append key ps qs)

left_out :
    (lo k key : ℕ) (hi : Option ℕ) → InRange lo hi k → OutRange lo hi key → OutRange lo (some k) key
left_out lo k key none r out = inl out
left_out lo k key (some b) r (inl out) = inl out
left_out lo k key (some b) r (inr out) = inr (omega (arith, r.1))

right_out :
    (lo k key : ℕ) (hi : Option ℕ) → InRange lo hi k → OutRange lo hi key → OutRange k hi key
right_out lo k key none r out = omega arith
right_out lo k key (some b) r (inl out) = inl (omega (arith, r.0))
right_out lo k key (some b) r (inr out) = inr out

right_in : (lo k key : ℕ) (hi : Option ℕ) → InRange lo hi key → k ≤ key → InRange k hi key
right_in lo k key none r h = h
right_in lo k key (some b) r h = (h, r.1)

low_of : (lo key : ℕ) (hi : Option ℕ) → InRange lo hi key → lo ≤ key
low_of lo key none r = r
low_of lo key (some b) r = r.0

out_below : (k key : ℕ) (hi : Option ℕ) → key < k → OutRange k hi key
out_below k key none h = h
out_below k key (some b) h = inl h

module _ (read : ℕ → Option BpNode) (key : ℕ) where
  mutual
    -- A tree has no key out of its range.
    Rep-OutRange :
        {d id lo : ℕ} {hi : Option ℕ} {ps : List (ℕ × ℕ)}
        → Rep read d id lo hi ps
        → OutRange lo hi key
        → lookup_pair key ps ≡ none
    Rep-OutRange {lo = lo} {hi = hi} (leaf node e l ck cv a) out =
        Ascending-OutRange key lo hi (zip_pairs (live_keys node) node.vals) a out
    Rep-OutRange (inner node e l kids) out = Kids-OutRange kids out

    Kids-OutRange :
        {d lo : ℕ} {ks vs : List ℕ} {hi : Option ℕ} {ps : List (ℕ × ℕ)}
        → Kids read d ks vs lo hi ps
        → OutRange lo hi key
        → lookup_pair key ps ≡ none
    Kids-OutRange (last r) out = Rep-OutRange r out
    Kids-OutRange {lo = lo} {hi = hi} (more {k = k} {ps = ps} {qs = qs} r rep kids) out = ground (
      arith,
      lookup-append key ps qs,
      Rep-OutRange rep (left_out lo k key hi r out),
      Kids-OutRange kids (right_out lo k key hi r out),
    )

-- What `find` makes of the leaf that it reaches.
unfoldable pub search_node : ℕ → BpNode → Option ℕ
search_node key node =
    let idx = lower_bound key (live_keys node) in
    if ltb idx node.key_cnt && (get_or node.keys idx 0 == key)
    then some (get_or node.vals idx 0)
    else none

get_or-take : (n i : ℕ) (xs : List ℕ) → i < n → get_or (take n xs) i 0 ≡ get_or xs i 0
get_or-take zero i xs h = elim h [ ]
get_or-take (suc n) i [] h = refl
get_or-take (suc n) zero (x ∷ xs) h = refl
get_or-take (suc n) (suc i) (x ∷ xs) h = get_or-take n i xs (omega arith)

child_of :
    (key k v : ℕ) (ks vs : List ℕ)
    → get_or (v ∷ vs) (upper_bound key (k ∷ ks)) 0
      ≡ (if ltb key k then v else get_or vs (upper_bound key ks) 0)
unfolding upper_bound
child_of key k v ks vs = ground arith

only_child : (key v : ℕ) (vs : List ℕ) → get_or (v ∷ vs) (upper_bound key []) 0 ≡ v
unfolding upper_bound
only_child key v vs = refl

module _ {S : Type 0} (slots : ℕ) (st : BpStorage S) (s : S) (key : ℕ) where
  abbrev read : ℕ → Option BpNode
  read id = st.read_node id s

  leaf_reached :
      (fuel id : ℕ) (node : BpNode)
      → read id ≡ some node
      → node.is_leaf ≡ true
      → find_leaf slots st (suc fuel) key id s ≡ some node
  unfolding find_leaf
  leaf_reached fuel id node e l = rw e (rw l refl)

  inner_passed :
      (fuel id : ℕ) (node : BpNode)
      → read id ≡ some node
      → node.is_leaf ≡ false
      → find_leaf slots st (suc fuel) key id s
        ≡ find_leaf slots st fuel key (get_or node.vals (upper_bound key (live_keys node)) 0) s
  unfolding find_leaf
  inner_passed fuel id node e l = rw e (rw l refl)

  abbrev Reached : ℕ → ℕ → List (ℕ × ℕ) → Type 0
  Reached fuel id ps =
      (node : BpNode) × (find_leaf slots st fuel key id s ≡ some node)
      × (search_node key node ≡ lookup_pair key ps)

  search_live :
      (node : BpNode) (lo : ℕ) (hi : Option ℕ)
      → node.key_cnt ≤ length node.keys
      → node.key_cnt ≤ length node.vals
      → Ascending lo hi (zip_pairs (live_keys node) node.vals)
      → search_node key node ≡ lookup_pair key (zip_pairs (live_keys node) node.vals)
  unfolding search_node
  search_live node lo hi ck cv a =
      let len : length (live_keys node) ≡ node.key_cnt =
        omega (arith, length-take node.key_cnt node.keys) in
      let idx = lower_bound key (live_keys node) in
      ground (
        arith,
        len,
        get_or-take node.key_cnt idx node.keys,
        search_leaf key lo hi (live_keys node) node.vals (omega (arith, len, cv)) a,
      )

  mutual
    Rep-Reached :
        {d id lo : ℕ} {hi : Option ℕ} {ps : List (ℕ × ℕ)}
        → Rep read d id lo hi ps
        → (fuel : ℕ) → d < fuel
        → InRange lo hi key
        → Reached fuel id ps
    Rep-Reached {d} {id} {lo} {hi} (leaf node e l ck cv a) zero h r = elim h [ ]
    Rep-Reached {d} {id} {lo} {hi} (leaf node e l ck cv a) (suc fuel) h r =
        (node, leaf_reached fuel id node e l, search_live node lo hi ck cv a)
    Rep-Reached {d} {id} {lo} {hi} (inner node e l kids) zero h r = elim h [ ]
    Rep-Reached {d} {id} {lo} {hi} (inner node e l kids) (suc fuel) h r =
        let (reached, run, found) = Kids-Reached kids fuel (omega arith) r in
        (reached, inner_passed fuel id node e l ∙ run, found)

    Kids-Reached :
        {d lo : ℕ} {ks vs : List ℕ} {hi : Option ℕ} {ps : List (ℕ × ℕ)}
        → Kids read d ks vs lo hi ps
        → (fuel : ℕ) → d < fuel
        → InRange lo hi key
        → Reached fuel (get_or vs (upper_bound key ks) 0) ps
    Kids-Reached (last {v = v} {vs = vs} {ps = ps} rep) fuel h r =
        rw (only_child key v vs) (Rep-Reached rep fuel h r)
    Kids-Reached {lo = lo} {hi = hi}
          (more {k = k} {v = v} {ks = ks} {vs = vs} {ps = ps} {qs = qs} rk rep kids) fuel h r =
        elim (Bool-cases (ltb key k)) [
          | inl less ↦
              let (node, run, found) =
                Rep-Reached rep fuel h (low_of lo key hi r, ltb→lt key k less) in
              let none_right =
                Kids-OutRange read key kids (out_below k key hi (ltb→lt key k less)) in
              (
                node,
                rw (child_of key k v ks vs) (rw less run),
                ground (arith, found, none_right, lookup-append key ps qs),
              )
          | inr more_or_eq ↦
              let high : k ≤ key = ground arith in
              let (node, run, found) = Kids-Reached kids fuel h (right_in lo k key hi r high) in
              let none_left = Rep-OutRange read key rep (inr high) in
              (
                node,
                rw (child_of key k v ks vs) (rw more_or_eq run),
                ground (arith, found, none_left, lookup-append key ps qs),
              )
        ]

  -- On a tree whose root is not 0 and that represents a list of pairs, with more fuel than it
  -- has levels above the leaves, `find` returns the value that the pairs have for the key, or
  -- nothing if they have none.
  pub find-lookup_pair :
      (fuel d root : ℕ) (ps : List (ℕ × ℕ))
      → Rep read d root 0 none ps
      → root ≢ 0
      → d < fuel
      → find slots st fuel root key s ≡ some (lookup_pair key ps)
  unfolding find search_node
  find-lookup_pair fuel d root ps rep ne h =
      let (node, run, found) = Rep-Reached rep fuel h (omega arith) in
      let live : (root == 0) ≡ false = ground arith in rw live (rw run (ap some found))
