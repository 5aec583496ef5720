-- ===== src/Cache.antt =====
-- The cache of include/LRUCache.hpp over an abstract backend. The keys are the program's
-- uint64_t. `cache_map` is the index of `cache_list` by key, so it is `find_item` here; the shared
-- pointers that callers hold to a value are counted in `users`, `use_count()` less one.
pub mod Items
pub mod Coherence
pub mod Access
pub mod Calls
pub mod Flush
pub mod Kept
pub mod Eviction
use osep.Common.{
  ℕ, zero, suc, ◌+◌, ◌-◌, ◌≡◌, Bool, true, false, Option, none, some, List, [], ◌∷◌, leb, ◌==◌,
  if◌then◌else◌, length, ◌>>=◌, ◌>>◌,
}

-- `ICacheBackend`, with its state passed on. `none` is an exception.
pub record CacheBackend {ℓ κ} (V : Type ℓ) (S : Type κ) : Type (ℓ ⊔ κ) where
  pub load : ℕ → S → Option V
  pub save : ℕ → V → S → Option S

pub record Item {ℓ} (V : Type ℓ) : Type ℓ where
  pub key : ℕ
  pub val : V
  pub dirty : Bool
  pub users : ℕ

-- Most recently used first.
pub record LruCache {ℓ} (V : Type ℓ) : Type ℓ where
  pub capacity : ℕ
  pub items : List (Item V)

module _ {ℓ} {V : Type ℓ} where
  -- `cache_map.find(key)`
  unfoldable pub find_item : ℕ → List (Item V) → Option (Item V)
  find_item k [] = none
  find_item k (x ∷ xs) = if x.key == k then some x else find_item k xs

  -- `cache_list.erase(it)` at the item with the key
  unfoldable pub remove_item : ℕ → List (Item V) → List (Item V)
  remove_item k [] = []
  remove_item k (x ∷ xs) = if x.key == k then xs else x ∷ remove_item k xs

  -- Writes through a pointer to the item with the key.
  unfoldable pub update_item : (Item V → Item V) → ℕ → List (Item V) → List (Item V)
  update_item f k [] = []
  update_item f k (x ∷ xs) = if x.key == k then f x ∷ xs else x ∷ update_item f k xs

  -- The loop of `evict`, from the back: the last item that no caller holds, and the other items.
  unfoldable pub pick_victim : List (Item V) → Option (Item V × List (Item V))
  pick_victim [] = none
  pick_victim (x ∷ xs) = elim (pick_victim xs) [
    | some (y, rest) ↦ some (y, x ∷ rest)
    | none ↦ if x.users == 0 then some (x, xs) else none
  ]

module _ {ℓ κ} {V : Type ℓ} {S : Type κ} (b : CacheBackend V S) where
  unfoldable pub evict : LruCache V → S → Option (LruCache V × S)
  unfolding pick_victim
  evict c s = elim (pick_victim c.items) [
    | none ↦ some (c, s)
    | some (x, rest) ↦
        let c' : LruCache V = record c { items = rest } in
        if x.dirty then (do s' ← b.save x.key x.val s; some (c', s')) else some (c', s)
  ]

  -- `access`: the item with the key, at the front afterwards, and the other items.
  unfoldable pub access : ℕ → LruCache V → S → Option (Item V × LruCache V × S)
  unfolding find_item remove_item evict
  access k c s = elim (find_item k c.items) [
    | some x ↦ some (x, record c { items = x ∷ remove_item k c.items }, s)
    | none ↦ do
      (c', s') ← if leb c.capacity (length c.items) then evict c s else some (c, s)
      v ← b.load k s'
      let x : Item V = record { key = k; val = v; dirty = false; users = 0 }
      some (x, record c' { items = x ∷ c'.items }, s')
  ]

  -- `get`: the caller holds the value until `release`.
  unfoldable pub get : ℕ → LruCache V → S → Option (V × LruCache V × S)
  unfolding access update_item
  get k c s = do
    (x, c', s') ← access k c s
    let hold : Item V → Item V = λ y. record y { users = y.users + 1 }
    some (x.val, record c' { items = update_item hold k c'.items }, s')

  unfoldable pub get_mut : ℕ → LruCache V → S → Option (V × LruCache V × S)
  unfolding access update_item
  get_mut k c s = do
    (x, c', s') ← access k c s
    let hold : Item V → Item V = λ y. record y { dirty = true; users = y.users + 1 }
    some (x.val, record c' { items = update_item hold k c'.items }, s')

  -- The loop of `flush_all`.
  unfoldable pub flush_items : List (Item V) → S → Option (List (Item V) × S)
  flush_items [] s = some ([], s)
  flush_items (x ∷ xs) s = do
    s' ← if x.dirty then b.save x.key x.val s else some s
    (xs', s'') ← flush_items xs s'
    some (record x { dirty = false } ∷ xs', s'')

  unfoldable pub flush_all : LruCache V → S → Option (LruCache V × S)
  unfolding flush_items
  flush_all c s = do (xs, s') ← flush_items c.items s; some (record c { items = xs }, s')

  unfoldable pub clear : LruCache V → S → Option (LruCache V × S)
  unfolding flush_all
  clear c s = do (c', s') ← flush_all c s; some (record c' { items = [] }, s')

module _ {ℓ} {V : Type ℓ} where
  unfoldable pub remove : ℕ → LruCache V → LruCache V
  unfolding remove_item
  remove k c = record c { items = remove_item k c.items }

  -- A write through the pointer that `get_mut` returned.
  unfoldable pub write_value : ℕ → V → LruCache V → LruCache V
  unfolding update_item
  write_value k v c = record c {
    items = update_item (λ (y : Item V). record y { val = v }) k c.items;
  }

  -- The caller's pointer goes out of scope.
  unfoldable pub release : ℕ → LruCache V → LruCache V
  unfolding update_item
  release k c = record c {
    items = update_item (λ (y : Item V). record y { users = y.users - 1 }) k c.items;
  }
