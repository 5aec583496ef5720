-- ===== src/Cache/Calls.antt =====
-- The public calls `get`, `get_mut` and `remove` of the cache, against the value of each key.
use mathlib.Core.Path.{subst}
use osep.Common.{
  ℕ, ◌+◌, ◌≡◌, refl, ◌≢◌, inl, inr, true, false, none, some, arith, ◌==◌, if◌then◌else◌,
  Option-cases, Bool-cases, ==_iff, ◌∙◌,
}
use osep.Cache.{
  CacheBackend, Item, LruCache, find_item, update_item, get, get_mut, remove, write_value,
}
use osep.Cache.Items.{find-remove, remove-Distinct, find-update, update-Distinct}
use osep.Cache.Coherence.{IsBackend, view, IsCoherent}
use osep.Cache.Access.{access-Accessed}

module _ {ℓ κ} {V : Type ℓ} {S : Type κ} (b : CacheBackend V S) (Stored : ℕ → Type 0)
    (Fits : V → Type 0) where
  -- The value `v` of `k` was handed out, and no value has changed.
  pub record GotValue (k : ℕ) (c : LruCache V) (s : S) (v : V) (c' : LruCache V) (s' : S)
      : Type (ℓ ⊔ κ) where
    pub coherent : IsCoherent b Stored Fits c' s'
    pub same_view : (j : ℕ) → view b c' s' j ≡ view b c s j
    pub value : view b c s k ≡ some v

  -- The item of `k` is dirty, so that a write through the pointer reaches the backend later.
  pub record GotPointer (k : ℕ) (c : LruCache V) (s : S) (v : V) (c' : LruCache V) (s' : S)
      : Type (ℓ ⊔ κ) where
    pub got : GotValue k c s v c' s'
    pub item : Item V
    pub held : find_item k c'.items ≡ some item
    pub dirty : item.dirty ≡ true
    pub in_use : item.users ≢ 0

  module _ (k : ℕ) (c : LruCache V) (s : S) where
    -- A change of an item's `users`, and of `dirty` to true, changes no value.
    update-IsCoherent :
        (f : Item V → Item V)
        → ((x : Item V) → (f x).key ≡ x.key)
        → ((x : Item V) → (f x).val ≡ x.val)
        → ((x : Item V) → (f x).dirty ≡ false → x.dirty ≡ false)
        → IsCoherent b Stored Fits c s
        → IsCoherent b Stored Fits (record c { items = update_item f k c.items }) s
    update-IsCoherent f keeps same marks ok =
        let found = λ (j : ℕ). find-update f k j c.items keeps in
        record {
          distinct = update-Distinct f k c.items keeps ok.distinct;
          stored = λ j x h. elim (Option-cases (find_item j c.items)) [
            | inl e ↦ ground (arith, found j)
            | inr (y, e) ↦ ok.stored j y e
          ];
          fits = λ j x h. elim (Option-cases (find_item j c.items)) [
            | inl e ↦ ground (arith, found j)
            | inr (y, e) ↦
                let p : y.val ≡ x.val = ground (arith, found j, same y) in
                subst Fits p (ok.fits j y e)
          ];
          clean = λ j x h hd. elim (Option-cases (find_item j c.items)) [
            | inl e ↦ ground (arith, found j)
            | inr (y, e) ↦ ground (arith, found j, marks y, same y, ok.clean j y)
          ];
        }

    view-update :
        (f : Item V → Item V)
        → ((x : Item V) → (f x).key ≡ x.key)
        → ((x : Item V) → (f x).val ≡ x.val)
        → (j : ℕ) → view b (record c { items = update_item f k c.items }) s j ≡ view b c s j
    unfolding view
    view-update f keeps same j = elim (Option-cases (find_item j c.items)) [
      | inl e ↦ ground (arith, find-update f k j c.items keeps)
      | inr (y, e) ↦ ground (arith, find-update f k j c.items keeps, same y)
    ]

  module _ (k : ℕ) (c : LruCache V) (s : S) (laws : IsBackend b Stored Fits) (st : Stored k)
      (ok : IsCoherent b Stored Fits c s) where
    -- In a coherent cache over a backend with its laws, `get` at a stored key succeeds and
    -- returns the key's value, whether it was cached or not; no key's value changes and the
    -- cache stays coherent.
    pub get-GotValue :
        (v : V) × (c' : LruCache V) × (s' : S) × (get b k c s ≡ some (v, c', s'))
        × GotValue k c s v c' s'
    unfolding get
    get-GotValue =
        let (x, c', s', e, acc) = access-Accessed b Stored Fits k c s ok laws st in
        let hold = λ (y : Item V). record y { users = y.users + 1 } in
        (
          x.val,
          record c' { items = update_item hold k c'.items },
          s',
          rw e refl,
          record {
            coherent =
                update-IsCoherent k c' s' hold (λ y. refl) (λ y. refl) (λ y d. d) acc.coherent;
            same_view = λ j. view-update k c' s' hold (λ y. refl) (λ y. refl) j ∙ acc.same_view j;
            value = acc.value;
          },
        )

    -- In a coherent cache over a backend with its laws, `get_mut` at a stored key succeeds and
    -- returns the key's value; no key's value changes, the cache stays coherent, and the key's
    -- item is dirty and in use.
    pub get_mut-GotPointer :
        (v : V) × (c' : LruCache V) × (s' : S) × (get_mut b k c s ≡ some (v, c', s'))
        × GotPointer k c s v c' s'
    unfolding get_mut
    get_mut-GotPointer =
        let (x, c', s', e, acc) = access-Accessed b Stored Fits k c s ok laws st in
        let hold = λ (y : Item V). record y { dirty = true; users = y.users + 1 } in
        let got : find_item k (update_item hold k c'.items) ≡ some (hold x) =
          ground (arith, find-update hold k k c'.items (λ y. refl), acc.cached) in
        (
          x.val,
          record c' { items = update_item hold k c'.items },
          s',
          rw e refl,
          record {
            got = record {
              coherent =
                  update-IsCoherent k c' s' hold (λ y. refl) (λ y. refl) (λ y d. ground arith)
                    acc.coherent;
              same_view = λ j. view-update k c' s' hold (λ y. refl) (λ y. refl) j ∙ acc.same_view j;
              value = acc.value;
            };
            item = hold x;
            held = got;
            dirty = refl;
            in_use = omega arith;
          },
        )

  module _ (k : ℕ) (w : V) (c : LruCache V) (s : S) (ok : IsCoherent b Stored Fits c s) (x : Item V)
      (held : find_item k c.items ≡ some x) (marked : x.dirty ≡ true) (fw : Fits w) where
    -- In a coherent cache, a write through the pointer to a dirty item, of a value that fits,
    -- gives its key the new value, leaves every other value alone and keeps the cache coherent.
    pub write_value_lem :
        IsCoherent b Stored Fits (write_value k w c) s
        × ((j : ℕ) → view b (write_value k w c) s j ≡ (if k == j then some w else view b c s j))
    unfolding write_value view
    write_value_lem = (
      record {
        distinct = update-Distinct put k c.items (λ y. refl) ok.distinct;
        stored = λ j y h. elim (Option-cases (find_item j c.items)) [
          | inl e ↦ ground (arith, found j)
          | inr (z, e) ↦ ok.stored j z e
        ];
        fits = λ j y h. elim (Option-cases (find_item j c.items)) [
          | inl e ↦ ground (arith, found j)
          | inr (z, e) ↦ elim (Bool-cases (k == j)) [
            | inl here ↦ let p : w ≡ y.val = ground (arith, found j) in subst Fits p fw
            | inr other ↦ ok.fits j y (ground (arith, found j))
          ]
        ];
        clean = λ j y h hd. elim (Option-cases (find_item j c.items)) [
          | inl e ↦ ground (arith, found j)
          | inr (z, e) ↦ ground (arith, found j, held_at j, ok.clean j z)
        ];
      },
      λ j. elim (Option-cases (find_item j c.items)) [
        | inl e ↦ ground (arith, found j, held_at j)
        | inr (z, e) ↦ ground (arith, found j, held_at j)
      ],
    )
      where
        put : Item V → Item V
        put y = record y { val = w }

        found :
            (j : ℕ)
            → find_item j (update_item put k c.items) ≡ (
                if k == j
                then (elim (find_item j c.items) [ none ↦ none | some y ↦ some (put y) ])
                else find_item j c.items)
        found j = find-update put k j c.items (λ y. refl)

        held_at : (j : ℕ) → (k == j) ≡ true → find_item j c.items ≡ some x
        held_at j e = rw (← (==_iff k j).0 e) held

  -- In a coherent cache `remove` forgets what the cache has of the key, unsaved changes
  -- included: the key's value is then the backend's, every other value is what it was, and the
  -- cache stays coherent.
  pub view-remove :
      (k : ℕ) (c : LruCache V) (s : S)
      → IsCoherent b Stored Fits c s
      → IsCoherent b Stored Fits (remove k c) s
        × ((j : ℕ) → view b (remove k c) s j ≡ (if k == j then b.load j s else view b c s j))
  unfolding remove view
  view-remove k c s ok =
      let found = λ (j : ℕ). find-remove k j c.items ok.distinct in
      (
        record {
          distinct = remove-Distinct k c.items ok.distinct;
          stored = λ j y h. ground (arith, found j, ok.stored j y);
          fits = λ j y h. ground (arith, found j, ok.fits j y);
          clean = λ j y h hd. ground (arith, found j, ok.clean j y);
        },
        λ j. ground (arith, found j),
      )
