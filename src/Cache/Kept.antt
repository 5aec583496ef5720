-- ===== src/Cache/Kept.antt =====
-- What every save of the backend keeps, `flush_all` of include/LRUCache.hpp keeps.
use osep.Common.{
  ℕ, ◌≡◌, inl, inr, some, List, [], ◌∷◌, arith, Bool-cases, Option-cases, if◌then◌else◌,
}
use mathlib.Core.Path.{subst}
use osep.Cache.{CacheBackend, Item, LruCache, find_item, flush_items, flush_all}
use osep.Cache.Items.{Distinct}
use osep.Cache.Coherence.{IsCoherent}

module _ {ℓ κ} {V : Type ℓ} {S : Type κ} (b : CacheBackend V S) (Stored : ℕ → Type 0)
    (Fits : V → Type 0) (P : S → Type 0)
    (kept : (k : ℕ) (v : V) (s s' : S)
      → Stored k
      → Fits v
      → b.save k v s ≡ some s'
      → P s
      → P s') where
  -- One item, saved or passed over.
  saved_one :
      (x : Item V) (s s0 : S)
      → Stored x.key
      → Fits x.val
      → (if x.dirty then b.save x.key x.val s else some s) ≡ some s0
      → P s
      → P s0
  saved_one x s s0 st fit e p = elim (Bool-cases x.dirty) [
    | inl d ↦ kept x.key x.val s s0 st fit (ground arith) p
    | inr d ↦ subst P (ground arith) p
  ]

  flush_items-keeps :
      (xs xs' : List (Item V)) (s s' : S)
      → Distinct xs
      → ((k : ℕ) (x : Item V) → find_item k xs ≡ some x → Stored k)
      → ((k : ℕ) (x : Item V) → find_item k xs ≡ some x → Fits x.val)
      → flush_items b xs s ≡ some (xs', s')
      → P s
      → P s'
  unfolding flush_items find_item
  flush_items-keeps [] xs' s s' d st fit e p = subst P (ground arith) p
  flush_items-keeps (x ∷ xs) xs' s s' d st fit e p =
      elim (Option-cases (if x.dirty then b.save x.key x.val s else some s)) [
        | inl missing ↦ absurd (ground arith)
        | inr (s0, one) ↦ elim (Option-cases (flush_items b xs s0)) [
          | inl missing ↦ absurd (ground arith)
          | inr ((rest, s1), run) ↦
              let p0 =
                saved_one x s s0 (st x.key x (ground arith)) (fit x.key x (ground arith)) one p in
              let p1 =
                flush_items-keeps xs rest s0 s1 d.1 (λ k y h. st k y (ground (arith, d.0)))
                  (λ k y h. fit k y (ground (arith, d.0))) run p0 in
              subst P (ground arith) p1
        ]
      ]

  pub flush_all-keeps :
      (c c' : LruCache V) (s s' : S)
      → IsCoherent b Stored Fits c s
      → flush_all b c s ≡ some (c', s')
      → P s
      → P s'
  unfolding flush_all
  flush_all-keeps c c' s s' ok e p = elim (Option-cases (flush_items b c.items s)) [
    | inl missing ↦ absurd (ground arith)
    | inr ((xs, s1), run) ↦
        subst P (ground arith)
          (flush_items-keeps c.items xs s s1 ok.distinct ok.stored ok.fits run p)
  ]
