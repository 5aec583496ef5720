-- ===== src/Tree/Leaves.antt =====
-- Insertion into a leaf, in include/BPTree.hpp.
use osep.Common.{
  ℕ, zero, suc, ◌+◌, ◌-◌, ◌<◌, ◌≤◌, ltb, ◌≡◌, refl, ap, sym, ◌∙◌, inl, inr, List, [], ◌∷◌, ◌++◌,
  if◌then◌else◌, arith, Bool-cases, length, length-take, length-set, take, drop, set, get_or,
}
use osep.Tree.{BpNode, live_keys, upper_bound, shift_right, leaf_insert}
use osep.Tree.Rep.{zip_pairs}

-- A pair put into a list of pairs, behind the keys that are not greater.
unfoldable pub insert_pair : ℕ → ℕ → List (ℕ × ℕ) → List (ℕ × ℕ)
insert_pair key val [] = (key, val) ∷ []
insert_pair key val ((k, v) ∷ ps) =
    if ltb key k then (key, val) ∷ ((k, v) ∷ ps) else (k, v) ∷ insert_pair key val ps

abbrev put_at : ℕ → ℕ → ℕ → List ℕ → List ℕ
put_at cnt idx v xs = set (shift_right (cnt - idx) cnt xs) idx v

take-set : (n : ℕ) (x y : ℕ) (xs : List ℕ) → take n (x ∷ set xs n y) ≡ take n (x ∷ xs)
take-set zero x y xs = refl
take-set (suc n) x y [] = refl
take-set (suc n) x y (z ∷ xs) = ap (λ l. x ∷ l) (take-set n z y xs)

drop-set : (n : ℕ) (y : ℕ) (xs : List ℕ) → n < length xs → drop n (set xs n y) ≡ y ∷ drop (suc n) xs
drop-set n y [] h = absurd (omega arith)
drop-set zero y (x ∷ xs) h = refl
drop-set (suc n) y (x ∷ xs) h = drop-set n y xs (omega arith)

take_last :
    (n : ℕ) (xs rest : List ℕ)
    → n < length xs
    → take n xs ++ (get_or xs n 0 ∷ rest) ≡ take (suc n) xs ++ rest
take_last n [] rest h = absurd (omega arith)
take_last zero (x ∷ xs) rest h = refl
take_last (suc n) (x ∷ xs) rest h = ap (λ l. x ∷ l) (take_last n xs rest (omega arith))

shift_step :
    (n i : ℕ) (xs : List ℕ)
    → shift_right (suc n) (suc i) xs ≡ shift_right n i (set xs (suc i) (get_or xs i 0))
unfolding shift_right
shift_step n i xs =
    let back : suc i - 1 ≡ i = omega arith in
    ap (λ j. shift_right n j (set xs (suc i) (get_or xs j 0))) back

shift_all :
    (n x : ℕ) (xs : List ℕ)
    → n ≤ length xs
    → shift_right n n (x ∷ xs) ≡ x ∷ (take n (x ∷ xs) ++ drop n xs)
unfolding shift_right
shift_all zero x xs h = refl
shift_all (suc n) x xs h =
    let y = get_or (x ∷ xs) n 0 in
    shift_step n n (x ∷ xs)
    ∙ shift_all n x (set xs n y) (omega (arith, length-set xs n y))
    ∙ ap (λ l. x ∷ (l ++ drop n (set xs n y))) (take-set n x y xs)
    ∙ ap (λ l. x ∷ (take n (x ∷ xs) ++ l)) (drop-set n y xs (omega arith))
    ∙ ap (λ l. x ∷ l) (take_last n (x ∷ xs) (drop (suc n) xs) (omega arith))

shift_behind :
    (n i x : ℕ) (xs : List ℕ) → n ≤ i → shift_right n (suc i) (x ∷ xs) ≡ x ∷ shift_right n i xs
unfolding shift_right
shift_behind zero i x xs h = refl
shift_behind (suc n) zero x xs h = absurd (omega arith)
shift_behind (suc n) (suc i) x xs h =
    shift_step n (suc i) (x ∷ xs)
    ∙ shift_behind n i x (set xs (suc i) (get_or xs i 0)) (omega arith)
    ∙ ap (λ l. x ∷ l) (sym (shift_step n i xs))

-- An element put before all others, and behind the first one.
put_first :
    (cnt v : ℕ) (xs : List ℕ)
    → cnt < length xs
    → put_at cnt 0 v xs ≡ v ∷ (take cnt xs ++ drop (suc cnt) xs)
put_first cnt v [] h = absurd (omega arith)
put_first cnt v (x ∷ xs) h =
    let all : cnt - 0 ≡ cnt = omega arith in
    ap (λ n. set (shift_right n cnt (x ∷ xs)) 0 v) all
    ∙ ap (λ l. set l 0 v) (shift_all cnt x xs (omega arith))

put_behind :
    (cnt idx v x : ℕ) (xs : List ℕ)
    → idx ≤ cnt
    → put_at (suc cnt) (suc idx) v (x ∷ xs) ≡ x ∷ put_at cnt idx v xs
put_behind cnt idx v x xs h =
    let same : suc cnt - suc idx ≡ cnt - idx = omega arith in
    ap (λ n. set (shift_right n (suc cnt) (x ∷ xs)) (suc idx) v) same
    ∙ ap (λ l. set l (suc idx) v) (shift_behind (cnt - idx) cnt x xs (omega arith))

upper_bound-le : (key : ℕ) (xs : List ℕ) → upper_bound key xs ≤ length xs
unfolding upper_bound
upper_bound-le key [] = omega arith
upper_bound-le key (x ∷ xs) = ground (arith, upper_bound-le key xs)

zip_within :
    (ks vs rest : List ℕ) (n : ℕ)
    → length ks ≤ n
    → n ≤ length vs
    → zip_pairs ks (take n vs ++ rest) ≡ zip_pairs ks vs
unfolding zip_pairs
zip_within [] vs rest n h l = refl
zip_within (k ∷ ks) vs rest zero h l = absurd (omega arith)
zip_within (k ∷ ks) [] rest (suc n) h l = absurd (omega arith)
zip_within (k ∷ ks) (v ∷ vs) rest (suc n) h l =
    ap (λ ps. (k, v) ∷ ps) (zip_within ks vs rest n (omega arith) (omega arith))

take_within : (n : ℕ) (xs rest : List ℕ) → n ≤ length xs → take n (take n xs ++ rest) ≡ take n xs
take_within zero xs rest h = refl
take_within (suc n) [] rest h = absurd (omega arith)
take_within (suc n) (x ∷ xs) rest h = ap (λ l. x ∷ l) (take_within n xs rest (omega arith))

-- Both arrays, with the key and the value before all others.
zip_first :
    (cnt key val : ℕ) (ks vs : List ℕ)
    → cnt < length ks
    → cnt < length vs
    → zip_pairs (take (suc cnt) (put_at cnt 0 key ks)) (put_at cnt 0 val vs)
      ≡ (key, val) ∷ zip_pairs (take cnt ks) vs
unfolding zip_pairs
zip_first cnt key val ks vs hk hv =
    ap (λ l. zip_pairs (take (suc cnt) l) (put_at cnt 0 val vs)) (put_first cnt key ks hk)
    ∙ ap (λ l. zip_pairs (key ∷ take cnt (take cnt ks ++ drop (suc cnt) ks)) l)
        (put_first cnt val vs hv)
    ∙ ap (λ l. zip_pairs (key ∷ l) (val ∷ (take cnt vs ++ drop (suc cnt) vs)))
        (take_within cnt ks (drop (suc cnt) ks) (omega arith))
    ∙ ap (λ ps. (key, val) ∷ ps)
        (zip_within (take cnt ks) vs (drop (suc cnt) vs) cnt (omega (arith, length-take cnt ks))
          (omega arith))

zip_inserted :
    (cnt key val : ℕ) (ks vs : List ℕ)
    → cnt < length ks
    → cnt < length vs
    → (let idx = upper_bound key (take cnt ks) in
        zip_pairs (take (suc cnt) (put_at cnt idx key ks)) (put_at cnt idx val vs))
      ≡ insert_pair key val (zip_pairs (take cnt ks) vs)
unfolding upper_bound insert_pair zip_pairs
zip_inserted cnt key val [] vs hk hv = absurd (omega arith)
zip_inserted cnt key val (k ∷ ks) [] hk hv = absurd (omega arith)
zip_inserted zero key val (k ∷ ks) (v ∷ vs) hk hv = zip_first zero key val (k ∷ ks) (v ∷ vs) hk hv
zip_inserted (suc cnt) key val (k ∷ ks) (v ∷ vs) hk hv = elim (Bool-cases (ltb key k)) [
  | inl less ↦ rw less (zip_first (suc cnt) key val (k ∷ ks) (v ∷ vs) hk hv)
  | inr more ↦
      let idx = upper_bound key (take cnt ks) in
      let fits : idx ≤ cnt = omega (arith, upper_bound-le key (take cnt ks), length-take cnt ks) in
      rw more (
        ap (λ l. zip_pairs (take (suc (suc cnt)) l) (put_at (suc cnt) (suc idx) val (v ∷ vs)))
          (put_behind cnt idx key k ks fits)
        ∙ ap (λ l. zip_pairs (k ∷ take (suc cnt) (put_at cnt idx key ks)) l)
            (put_behind cnt idx val v vs fits)
        ∙ ap (λ ps. (k, v) ∷ ps) (zip_inserted cnt key val ks vs (omega arith) (omega arith)))
]

-- The pairs of a leaf with room are those before, with the new one put in.
pub leaf_insert-pairs :
    (key val : ℕ) (node : BpNode)
    → node.key_cnt < length node.keys
    → node.key_cnt < length node.vals
    → zip_pairs (live_keys (leaf_insert key val node)) (leaf_insert key val node).vals
      ≡ insert_pair key val (zip_pairs (live_keys node) node.vals)
unfolding leaf_insert
leaf_insert-pairs key val node hk hv =
    let next : node.key_cnt + 1 ≡ suc node.key_cnt = omega arith in
    let idx = upper_bound key (live_keys node) in
    ap
      (λ n.
        zip_pairs (take n (put_at node.key_cnt idx key node.keys))
          (put_at node.key_cnt idx val node.vals))
      next
    ∙ zip_inserted node.key_cnt key val node.keys node.vals hk hv

length-shift_right : (n i : ℕ) (xs : List ℕ) → length (shift_right n i xs) ≡ length xs
unfolding shift_right
length-shift_right zero i xs = refl
length-shift_right (suc n) i xs =
    length-shift_right n (i - 1) (set xs i (get_or xs (i - 1) 0))
    ∙ length-set xs i (get_or xs (i - 1) 0)

length-put_at : (cnt idx v : ℕ) (xs : List ℕ) → length (put_at cnt idx v xs) ≡ length xs
length-put_at cnt idx v xs =
    length-set (shift_right (cnt - idx) cnt xs) idx v ∙ length-shift_right (cnt - idx) cnt xs

pub leaf_insert-leaf :
    (key val : ℕ) (node : BpNode) → (leaf_insert key val node).is_leaf ≡ node.is_leaf
unfolding leaf_insert
leaf_insert-leaf key val node = refl

pub leaf_insert-keys :
    (key val : ℕ) (node : BpNode)
    → node.key_cnt < length node.keys
    → (leaf_insert key val node).key_cnt ≤ length (leaf_insert key val node).keys
unfolding leaf_insert
leaf_insert-keys key val node h =
    omega (arith, length-put_at node.key_cnt (upper_bound key (live_keys node)) key node.keys)

pub leaf_insert-vals :
    (key val : ℕ) (node : BpNode)
    → node.key_cnt < length node.vals
    → (leaf_insert key val node).key_cnt ≤ length (leaf_insert key val node).vals
unfolding leaf_insert
leaf_insert-vals key val node h =
    omega (arith, length-put_at node.key_cnt (upper_bound key (live_keys node)) val node.vals)
