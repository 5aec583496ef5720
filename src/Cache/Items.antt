-- ===== src/Cache/Items.antt =====
-- The list of items behind the cache: lookups, removals, and the choice of a victim.
use osep.Common.{
  ℕ, ◌+◌, ◌≡◌, refl, ◌≢◌, inl, inr, none, some, List, [], ◌∷◌, ◌++◌, arith, ◌==◌, if◌then◌else◌,
  length, Option-cases,
}
use mathlib.Core.Path.{subst}
use osep.Cache.{Item, find_item, remove_item, update_item, pick_victim}

module _ {ℓ} {V : Type ℓ} where
  -- No key twice.
  abbrev pub Distinct : List (Item V) → Type ℓ
  Distinct [] = Unit
  Distinct (x ∷ xs) = (find_item x.key xs ≡ none) × Distinct xs

  pub find-key : (k : ℕ) (xs : List (Item V)) (x : Item V) → find_item k xs ≡ some x → x.key ≡ k
  unfolding find_item
  find-key k [] x h = cc
  find-key k (y ∷ ys) x h = ground (arith, find-key k ys x)

  pub find-remove :
      (k j : ℕ) (xs : List (Item V))
      → Distinct xs
      → find_item j (remove_item k xs) ≡ (if k == j then none else find_item j xs)
  unfolding find_item remove_item
  find-remove k j [] d = ground arith
  find-remove k j (x ∷ xs) d = ground (arith, find-remove k j xs)

  pub remove-Distinct : (k : ℕ) (xs : List (Item V)) → Distinct xs → Distinct (remove_item k xs)
  unfolding find_item remove_item
  remove-Distinct k [] d = tt
  remove-Distinct k (x ∷ xs) d = ground (arith, remove-Distinct k xs, find-remove k x.key xs)

  pub length-remove_item :
      (k : ℕ) (xs : List (Item V)) (x : Item V)
      → find_item k xs ≡ some x
      → length (remove_item k xs) + 1 ≡ length xs
  unfolding find_item remove_item
  length-remove_item k [] x h = cc
  length-remove_item k (y ∷ xs) x h = ground (arith, length-remove_item k xs x)

  -- The victim is in the list, no caller holds it, and every item behind it is held.
  abbrev pub AllHeld : List (Item V) → Type 0
  AllHeld [] = Unit {0}
  AllHeld (x ∷ xs) = (x.users ≢ 0) × AllHeld xs

  pub record Picked (xs : List (Item V)) (y : Item V) (rest : List (Item V)) : Type ℓ where
    pub before : List (Item V)
    pub after : List (Item V)
    pub split : xs ≡ before ++ (y ∷ after)
    pub left : rest ≡ before ++ after
    pub free : y.users ≡ 0
    pub older_held : AllHeld after

  pub pick_victim-none : (xs : List (Item V)) → pick_victim xs ≡ none → AllHeld xs
  unfolding pick_victim
  pick_victim-none [] h = tt
  pick_victim-none (x ∷ xs) h = ground (arith, pick_victim-none xs)

  pub pick_victim-Picked :
      (xs : List (Item V)) (y : Item V) (rest : List (Item V))
      → pick_victim xs ≡ some (y, rest)
      → Picked xs y rest
  unfolding pick_victim
  pick_victim-Picked [] y rest h = cc
  pick_victim-Picked (x ∷ xs) y rest h = elim (Option-cases (pick_victim xs)) [
    | inl e ↦ record {
      before = [];
      after = xs;
      split = ground arith;
      left = ground arith;
      free = ground arith;
      older_held = pick_victim-none xs e;
    }
    | inr ((y', rest'), e) ↦
        let p = pick_victim-Picked xs y' rest' e in
        record {
          before = x ∷ p.before;
          after = p.after;
          split = ground (arith, p.split);
          left = ground (arith, p.left);
          free = ground (arith, p.free);
          older_held = p.older_held;
        }
  ]

  pub find-pick_victim :
      (xs : List (Item V)) (y : Item V) (rest : List (Item V)) (j : ℕ)
      → Distinct xs
      → pick_victim xs ≡ some (y, rest)
      → (find_item j rest ≡ (if y.key == j then none else find_item j xs))
        × (find_item y.key xs ≡ some y)
  unfolding pick_victim find_item
  find-pick_victim [] y rest j d h = cc
  find-pick_victim (x ∷ xs) y rest j d h = elim (Option-cases (pick_victim xs)) [
    | inl e ↦ ground arith
    | inr ((y', rest'), e) ↦ ground (arith, find-pick_victim xs y' rest' j d.1 e)
  ]

  pub pick_victim-Distinct :
      (xs : List (Item V)) (y : Item V) (rest : List (Item V))
      → Distinct xs
      → pick_victim xs ≡ some (y, rest)
      → Distinct rest
  unfolding pick_victim find_item
  pick_victim-Distinct [] y rest d h = cc
  pick_victim-Distinct (x ∷ xs) y rest d h = elim (Option-cases (pick_victim xs)) [
    | inl e ↦ let p : xs ≡ rest = ground arith in subst Distinct p d.1
    | inr ((y', rest'), e) ↦
        let p : x ∷ rest' ≡ rest = ground arith in
        let q : Distinct (x ∷ rest') = (
          ground (arith, find-pick_victim xs y' rest' x.key d.1 e),
          pick_victim-Distinct xs y' rest' d.1 e,
        ) in
        subst Distinct p q
  ]

  pub find-update :
      (f : Item V → Item V) (k j : ℕ) (xs : List (Item V))
      → ((x : Item V) → (f x).key ≡ x.key)
      → find_item j (update_item f k xs) ≡ (
          if k == j
          then (elim (find_item j xs) [ none ↦ none | some x ↦ some (f x) ])
          else find_item j xs)
  unfolding find_item update_item
  find-update f k j [] keeps = ground arith
  find-update f k j (x ∷ xs) keeps = ground (arith, keeps x, find-update f k j xs keeps)

  pub update-Distinct :
      (f : Item V → Item V) (k : ℕ) (xs : List (Item V))
      → ((x : Item V) → (f x).key ≡ x.key)
      → Distinct xs
      → Distinct (update_item f k xs)
  unfolding find_item update_item
  update-Distinct f k [] keeps d = tt
  update-Distinct f k (x ∷ xs) keeps d =
      ground (arith, keeps x, update-Distinct f k xs keeps, find-update f k x.key xs keeps)

  pub length-update_item :
      (f : Item V → Item V) (k : ℕ) (xs : List (Item V)) → length (update_item f k xs) ≡ length xs
  unfolding update_item
  length-update_item f k [] = refl
  length-update_item f k (x ∷ xs) = ground (arith, length-update_item f k xs)

  pub length-pick_victim :
      (xs : List (Item V)) (y : Item V) (rest : List (Item V))
      → pick_victim xs ≡ some (y, rest)
      → length rest + 1 ≡ length xs
  unfolding pick_victim
  length-pick_victim [] y rest h = cc
  length-pick_victim (x ∷ xs) y rest h = elim (Option-cases (pick_victim xs)) [
    | inl e ↦ ground arith
    | inr ((y', rest'), e) ↦ ground (arith, length-pick_victim xs y' rest' e)
  ]
