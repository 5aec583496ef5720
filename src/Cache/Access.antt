-- ===== src/Cache/Access.antt =====
-- `access`, `get`, `get_mut` and the writes through their pointers, against the value of each key.
use osep.Common.{
  ℕ, ◌≡◌, refl, inl, inr, false, none, some, ◌∷◌, arith, leb, ◌==◌, length, Option-cases,
  Bool-cases, ==_iff,
}
use mathlib.Core.Path.{subst}
use osep.Cache.{CacheBackend, Item, LruCache, find_item, remove_item, access}
use osep.Cache.Items.{find-key, find-remove, remove-Distinct}
use osep.Cache.Coherence.{IsBackend, view, IsCoherent, Evicted, evict-Evicted}

module _ {ℓ κ} {V : Type ℓ} {S : Type κ} (b : CacheBackend V S) (Stored : ℕ → Type 0)
    (Fits : V → Type 0) where
  -- The item stands at the front with the key's value, and no value has changed.
  pub record Accessed (k : ℕ) (c : LruCache V) (s : S) (x : Item V) (c' : LruCache V) (s' : S)
      : Type (ℓ ⊔ κ) where
    pub coherent : IsCoherent b Stored Fits c' s'
    pub same_view : (j : ℕ) → view b c' s' j ≡ view b c s j
    pub cached : find_item k c'.items ≡ some x
    pub value : view b c s k ≡ some x.val

  abbrev fresh_item : ℕ → V → Item V
  fresh_item k v = record { key = k; val = v; dirty = false; users = 0 }

  module _ (k : ℕ) (c : LruCache V) (s : S) (ok : IsCoherent b Stored Fits c s) where
    access_hit :
        (x : Item V)
        → find_item k c.items ≡ some x
        → Accessed k c s x (record c { items = x ∷ remove_item k c.items }) s
    unfolding view find_item
    access_hit x e =
        let found = λ (j : ℕ). find-remove k j c.items ok.distinct in
        let key = find-key k c.items x e in
        record {
          coherent = record {
            distinct = (ground (arith, found x.key, key), remove-Distinct k c.items ok.distinct);
            stored = λ j y h. ground (arith, found j, key, ok.stored j y);
            fits = λ j y h. ground (arith, found j, key, ok.fits j y);
            clean = λ j y h hd. ground (arith, found j, key, ok.clean j y);
          };
          same_view = λ j. ground (arith, found j, key);
          cached = ground (arith, key);
          value = ground arith;
        }

    access_miss :
        (c' : LruCache V) (s' : S) (v : V)
        → Stored k
        → find_item k c.items ≡ none
        → Evicted b Stored Fits c s c' s'
        → b.load k s' ≡ some v
        → Fits v
        → Accessed k c s (fresh_item k v) (record c' { items = fresh_item k v ∷ c'.items }) s'
    unfolding view find_item
    access_miss c' s' v st miss ev loaded fv =
        let gone = ev.fewer k miss in
        record {
          coherent = record {
            distinct = (gone, ev.coherent.distinct);
            stored = λ j y h. elim (Bool-cases (k == j)) [
              | inl e ↦ subst Stored ((==_iff k j).0 e) st
              | inr e ↦ ev.coherent.stored j y (ground arith)
            ];
            fits = λ j y h. elim (Bool-cases (k == j)) [
              | inl e ↦ let p : v ≡ y.val = ground arith in subst Fits p fv
              | inr e ↦ ev.coherent.fits j y (ground arith)
            ];
            clean = λ j y h hd. ground (arith, ev.coherent.clean j y);
          };
          same_view = λ j. ground (arith, ev.same_view j);
          cached = ground arith;
          value = ground (arith, ev.same_view k);
        }

    -- `access` succeeds at a stored key, evicting if it must.
    pub access-Accessed :
        IsBackend b Stored Fits
        → Stored k
        → (x : Item V) × (c' : LruCache V) × (s' : S) × (access b k c s ≡ some (x, c', s'))
          × Accessed k c s x c' s'
    unfolding access
    access-Accessed laws st = elim (Option-cases (find_item k c.items)) [
      | inr (x, e) ↦
          (x, record c { items = x ∷ remove_item k c.items }, s, rw (e, access), access_hit x e)
      | inl miss ↦ elim (Bool-cases (leb c.capacity (length c.items))) [
        | inl full ↦
            let (c', s', evicted, ev) = evict-Evicted b Stored Fits laws c s ok in
            let (v, loaded, fv) = laws.load_stored k s' st in
            (
              fresh_item k v,
              record c' { items = fresh_item k v ∷ c'.items },
              s',
              rw (miss, access) (rw full (rw evicted (rw loaded refl))),
              access_miss c' s' v st miss ev loaded fv,
            )
        | inr room ↦
            let (v, loaded, fv) = laws.load_stored k s st in
            (
              fresh_item k v,
              record c { items = fresh_item k v ∷ c.items },
              s,
              rw (miss, access) (rw room (rw loaded refl)),
              access_miss c s v st miss
                  (record { coherent = ok; same_view = λ j. refl; fewer = λ j h. h }) loaded fv,
            )
      ]
    ]
