-- ===== src/Cache/Coherence.antt =====
-- What a cache and its backend stand for: one value for each key. The calls of include/LRUCache.hpp
-- keep it, so that its clients see a plain map.
use osep.Common.{
  ℕ, ◌≡◌, refl, inl, inr, false, Option, none, some, List, [], arith, ◌==◌, if◌then◌else◌,
  Option-cases, Bool-cases,
}
use osep.Cache.{CacheBackend, Item, LruCache, find_item, pick_victim, evict}
use osep.Cache.Items.{Distinct, find-pick_victim, pick_victim-Distinct}

-- What the cache relies on: on the keys that the backend stores, a load succeeds, a save of a
-- value that fits succeeds, and a save changes the value of its key alone.
pub record IsBackend {ℓ κ} {V : Type ℓ} {S : Type κ} (b : CacheBackend V S) (Stored : ℕ → Type 0)
    (Fits : V → Type 0) : Type (ℓ ⊔ κ) where
  pub load_stored : (k : ℕ) (s : S) → Stored k → (v : V) × (b.load k s ≡ some v) × Fits v
  pub save_stored :
      (k : ℕ) (v : V) (s : S) → Stored k → Fits v → (s' : S) × (b.save k v s ≡ some s')
  pub load-save :
      (k j : ℕ) (v : V) (s s' : S)
      → Stored k
      → Fits v
      → b.save k v s ≡ some s'
      → b.load j s' ≡ (if k == j then some v else b.load j s)

module _ {ℓ κ} {V : Type ℓ} {S : Type κ} (b : CacheBackend V S) where
  -- The value of a key: the cached one, or else the backend's.
  unfoldable pub view : LruCache V → S → ℕ → Option V
  view c s k = elim (find_item k c.items) [ none ↦ b.load k s | some x ↦ some x.val ]

  module _ (Stored : ℕ → Type 0) (Fits : V → Type 0) where
    -- No key is cached twice, and a clean item has the backend's value.
    pub record IsCoherent (c : LruCache V) (s : S) : Type (ℓ ⊔ κ) where
      pub distinct : Distinct c.items
      pub stored : (k : ℕ) (x : Item V) → find_item k c.items ≡ some x → Stored k
      pub fits : (k : ℕ) (x : Item V) → find_item k c.items ≡ some x → Fits x.val
      pub clean :
          (k : ℕ) (x : Item V)
          → find_item k c.items ≡ some x
          → x.dirty ≡ false
          → b.load k s ≡ some x.val

    pub record Evicted (c : LruCache V) (s : S) (c' : LruCache V) (s' : S) : Type (ℓ ⊔ κ) where
      pub coherent : IsCoherent c' s'
      pub same_view : (j : ℕ) → view c' s' j ≡ view c s j
      pub fewer : (j : ℕ) → find_item j c.items ≡ none → find_item j c'.items ≡ none

    module _ (laws : IsBackend b Stored Fits) (c : LruCache V) (s : S) (ok : IsCoherent c s) where
      victim_clean :
          (y : Item V) (rest : List (Item V))
          → pick_victim c.items ≡ some (y, rest)
          → y.dirty ≡ false
          → Evicted c s (record c { items = rest }) s
      unfolding view
      victim_clean y rest e d =
          let found = λ (j : ℕ). find-pick_victim c.items y rest j ok.distinct e in
          record {
            coherent = record {
              distinct = pick_victim-Distinct c.items y rest ok.distinct e;
              stored = λ k x h. ground (arith, found k, ok.stored k x);
              fits = λ k x h. ground (arith, found k, ok.fits k x);
              clean = λ k x h hd. ground (arith, found k, ok.clean k x);
            };
            same_view = λ j. ground (arith, found j, ok.clean y.key y);
            fewer = λ j h. ground (arith, found j);
          }

      victim_saved :
          (y : Item V) (rest : List (Item V)) (s' : S)
          → pick_victim c.items ≡ some (y, rest)
          → b.save y.key y.val s ≡ some s'
          → Evicted c s (record c { items = rest }) s'
      unfolding view
      victim_saved y rest s' e saved =
          let found = λ (j : ℕ). find-pick_victim c.items y rest j ok.distinct e in
          let wrote = λ (j : ℕ).
            laws.load-save y.key j y.val s s' (ok.stored y.key y (found 0).1)
              (ok.fits y.key y (found 0).1) saved in
          record {
            coherent = record {
              distinct = pick_victim-Distinct c.items y rest ok.distinct e;
              stored = λ k x h. ground (arith, found k, ok.stored k x);
              fits = λ k x h. ground (arith, found k, ok.fits k x);
              clean = λ k x h hd. ground (arith, found k, ok.clean k x, wrote k);
            };
            same_view = λ j. ground (arith, found j, wrote j);
            fewer = λ j h. ground (arith, found j);
          }

      unevicted : Evicted c s c s
      unevicted = record { coherent = ok; same_view = λ j. refl; fewer = λ j h. h }

      -- `evict` succeeds and loses no value: what leaves the cache is clean or has been saved.
      pub evict-Evicted :
          (c' : LruCache V) × (s' : S) × (evict b c s ≡ some (c', s')) × Evicted c s c' s'
      unfolding evict
      evict-Evicted = elim (Option-cases (pick_victim c.items)) [
        | inl e ↦ (c, s, rw (e, evict), unevicted)
        | inr ((y, rest), e) ↦ elim (Bool-cases y.dirty) [
          | inr d ↦ (record c { items = rest }, s, rw (e, evict) (rw d), victim_clean y rest e d)
          | inl d ↦
              let found = find-pick_victim c.items y rest 0 ok.distinct e in
              let (s', saved) =
                laws.save_stored y.key y.val s (ok.stored y.key y found.1)
                  (ok.fits y.key y found.1) in
              (
                record c { items = rest },
                s',
                rw (e, evict) (rw (d, saved)),
                victim_saved y rest s' e saved,
              )
        ]
      ]

module _ {ℓ κ} {V : Type ℓ} {S : Type κ} (b : CacheBackend V S) where
  -- An empty cache is coherent with any backend.
  pub empty_IsCoherent :
      (Stored : ℕ → Type 0) (Fits : V → Type 0) (capacity : ℕ) (s : S)
      → IsCoherent b Stored Fits (record { capacity = capacity; items = [] }) s
  unfolding find_item
  empty_IsCoherent Stored Fits capacity s = record {
    distinct = tt;
    stored = λ k x h. cc;
    fits = λ k x h. cc;
    clean = λ k x h d. cc;
  }

  -- A cache over backends that load the same has the same values.
  pub view_of_load :
      (c : LruCache V) (s s' : S)
      → ((j : ℕ) → b.load j s ≡ b.load j s')
      → (j : ℕ) → view b c s j ≡ view b c s' j
  unfolding view
  view_of_load c s s' same j = ground (arith, same j)
