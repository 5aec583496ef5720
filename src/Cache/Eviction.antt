-- ===== src/Cache/Eviction.antt =====
-- Which item `evict` takes out, and how large the cache grows.
use osep.Common.{
  ℕ, ◌+◌, ◌≤◌, ◌<◌, ◌≡◌, inl, inr, true, false, none, some, arith, length, Bool-cases, Option-cases,
  leb, ◌⊎◌,
}
use mathlib.Core.Path.{subst}
use osep.Cache.{CacheBackend, Item, LruCache, find_item, pick_victim, evict, access}
use osep.Cache.Items.{
  AllHeld, Picked, pick_victim-none, pick_victim-Picked, length-pick_victim, length-remove_item,
}

module _ {ℓ κ} {V : Type ℓ} {S : Type κ} (b : CacheBackend V S) where
  -- The victim `x` left for a dirty item's save, or without one.
  abbrev pub Saved : Item V → S → S → Type κ
  Saved x s s' =
      ((x.dirty ≡ true) × (b.save x.key x.val s ≡ some s')) ⊎ ((x.dirty ≡ false) × (s' ≡ s))

  -- When `evict` returns, either every item was held by a caller and nothing has changed, or one
  -- item has left: no caller held it, all items used less recently are held, the others stay in
  -- their order, and its value was saved if it was dirty.
  pub evict-Picked :
      (c c' : LruCache V) (s s' : S)
      → evict b c s ≡ some (c', s')
      → (AllHeld c.items × (c' ≡ c) × (s' ≡ s))
        ⊎ ((x : Item V) × Picked c.items x c'.items × (c'.capacity ≡ c.capacity) × Saved x s s')
  unfolding evict
  evict-Picked c c' s s' h = elim (Option-cases (pick_victim c.items)) [
    | inl e ↦ inl (pick_victim-none c.items e, ground arith, ground arith)
    | inr ((x, rest), e) ↦
        let q : rest ≡ c'.items = ground arith in
        let p = pick_victim-Picked c.items x rest e in
        inr (
          x,
          subst (Picked c.items x) q p,
          ground arith,
          elim (Bool-cases x.dirty) [
            | inl d ↦ inl (d, ground arith)
            | inr d ↦ inr (d, ground arith)
          ],
        )
  ]

  -- The size of a cache of a positive capacity after an access that returns, if it was within
  -- the capacity before: at most the capacity again, unless the key was missing and all items
  -- were held by callers, when it grows by one.
  pub access-length :
      (k : ℕ) (c c' : LruCache V) (s s' : S) (x : Item V)
      → 0 < c.capacity
      → length c.items ≤ c.capacity
      → access b k c s ≡ some (x, c', s')
      → (length c'.items ≤ c.capacity)
        ⊎ (AllHeld c.items × (find_item k c.items ≡ none) × (length c'.items ≡ length c.items + 1))
  unfolding access evict
  access-length k c c' s s' x pos fit h = elim (Option-cases (find_item k c.items)) [
    | inr (y, e) ↦ inl (ground (arith, length-remove_item k c.items y))
    | inl miss ↦ elim (Bool-cases (leb c.capacity (length c.items))) [
      | inr room ↦ inl (ground arith)
      | inl full ↦ elim (Option-cases (pick_victim c.items)) [
        | inl e ↦ inr (pick_victim-none c.items e, miss, ground arith)
        | inr ((y, rest), e) ↦ inl (ground (arith, length-pick_victim c.items y rest e))
      ]
    ]
  ]
