-- ===== src/Cache/Flush.antt =====
-- `flush_all` and `clear`: afterwards the backend holds every value.
use osep.Common.{
  ℕ, ◌≡◌, refl, inl, inr, true, false, Option, none, some, List, [], ◌∷◌, arith, ◌==◌,
  if◌then◌else◌, length, Bool-cases, ap, suc,
}
use mathlib.Core.Path.{subst}
use osep.Cache.{CacheBackend, Item, LruCache, find_item, flush_items, flush_all, clear}
use osep.Cache.Items.{Distinct}
use osep.Cache.Coherence.{IsBackend, view, IsCoherent}

module _ {ℓ κ} {V : Type ℓ} {S : Type κ} (b : CacheBackend V S) (Stored : ℕ → Type 0)
    (Fits : V → Type 0) (laws : IsBackend b Stored Fits) where
  -- The values of the items over the backend.
  seen : List (Item V) → S → ℕ → Option V
  seen xs s j = elim (find_item j xs) [ none ↦ b.load j s | some x ↦ some x.val ]

  record Flushed (xs : List (Item V)) (s : S) (xs' : List (Item V)) (s' : S) : Type (ℓ ⊔ κ) where
    stored : (j : ℕ) → b.load j s' ≡ seen xs s j
    same : (j : ℕ) → seen xs' s' j ≡ seen xs s j
    missing : (j : ℕ) → find_item j xs ≡ none → find_item j xs' ≡ none
    found :
        (j : ℕ) (y : Item V)
        → find_item j xs' ≡ some y
        → (x : Item V) × (find_item j xs ≡ some x) × (x.val ≡ y.val)
    all_clean : (j : ℕ) (x : Item V) → find_item j xs' ≡ some x → x.dirty ≡ false
    distinct : Distinct xs'
    same_length : length xs' ≡ length xs

  Flushed-cons :
      (x : Item V) (xs : List (Item V)) (s s0 : S) (xs' : List (Item V)) (s' : S)
      → find_item x.key xs ≡ none
      → ((j : ℕ) → b.load j s0 ≡ (if x.key == j then some x.val else b.load j s))
      → Flushed xs s0 xs' s'
      → Flushed (x ∷ xs) s (record x { dirty = false } ∷ xs') s'
  unfolding seen find_item
  Flushed-cons x xs s s0 xs' s' new wrote rest = record {
    stored = λ j. ground (arith, wrote j, rest.stored j);
    same = λ j. ground (arith, wrote j, rest.same j);
    missing = λ j h. ground (arith, rest.missing j);
    found = λ j y h. elim (Bool-cases (x.key == j)) [
      | inl e ↦ (x, ground arith, ground arith)
      | inr e ↦ let (z, hz, hv) = rest.found j y (ground arith) in (z, ground arith, hv)
    ];
    all_clean = λ j y h. ground (arith, rest.all_clean j y);
    distinct = (rest.missing x.key new, rest.distinct);
    same_length = ap suc rest.same_length;
  }

  flush_none : (s : S) → flush_items b [] s ≡ some ([], s)
  unfolding flush_items
  flush_none s = refl

  -- One round of the loop, on each branch.
  module _ (x : Item V) (xs : List (Item V)) (s s0 s' : S) (xs' : List (Item V))
      (run : flush_items b xs s0 ≡ some (xs', s')) where
    flush_dirty :
        x.dirty ≡ true
        → b.save x.key x.val s ≡ some s0
        → flush_items b (x ∷ xs) s ≡ some (record x { dirty = false } ∷ xs', s')
    unfolding flush_items
    flush_dirty e saved = ground arith

    flush_clean :
        x.dirty ≡ false
        → s0 ≡ s
        → flush_items b (x ∷ xs) s ≡ some (record x { dirty = false } ∷ xs', s')
    unfolding flush_items
    flush_clean e same = ground arith

  flush_items-Flushed :
      (xs : List (Item V)) (s : S)
      → Distinct xs
      → ((k : ℕ) (x : Item V) → find_item k xs ≡ some x → Stored k)
      → ((k : ℕ) (x : Item V) → find_item k xs ≡ some x → Fits x.val)
      → ((k : ℕ) (x : Item V) → find_item k xs ≡ some x → x.dirty ≡ false → b.load k s ≡ some x.val)
      → (xs' : List (Item V)) × (s' : S) × (flush_items b xs s ≡ some (xs', s'))
        × Flushed xs s xs' s'
  unfolding seen find_item
  flush_items-Flushed [] s d st fit cl = (
    [],
    s,
    flush_none s,
    record {
      stored = λ j. refl;
      same = λ j. refl;
      missing = λ j h. refl;
      found = λ j y h. cc;
      all_clean = λ j x h. cc;
      distinct = tt;
      same_length = refl;
    },
  )
  flush_items-Flushed (x ∷ xs) s d st fit cl = elim (Bool-cases x.dirty) [
    | inl e ↦
        let (s0, saved) =
          laws.save_stored x.key x.val s (st x.key x (ground arith)) (fit x.key x (ground arith)) in
        let wrote = λ (j : ℕ).
          laws.load-save x.key j x.val s s0 (st x.key x (ground arith)) (fit x.key x (ground arith))
            saved in
        let (xs', s', run, rest) =
          flush_items-Flushed xs s0 d.1 (λ k y h. st k y (ground (arith, d.0)))
            (λ k y h. fit k y (ground (arith, d.0)))
            (λ k y h hd. ground (arith, d.0, wrote k, cl k y)) in
        (
          record x { dirty = false } ∷ xs',
          s',
          flush_dirty x xs s s0 s' xs' run e saved,
          Flushed-cons x xs s s0 xs' s' d.0 wrote rest,
        )
    | inr e ↦
        let wrote : (j : ℕ) → b.load j s ≡ (if x.key == j then some x.val else b.load j s) =
          λ j. ground (arith, cl j x) in
        let (xs', s', run, rest) =
          flush_items-Flushed xs s d.1 (λ k y h. st k y (ground (arith, d.0)))
            (λ k y h. fit k y (ground (arith, d.0))) (λ k y h hd. ground (arith, d.0, cl k y)) in
        (
          record x { dirty = false } ∷ xs',
          s',
          flush_clean x xs s s s' xs' run e refl,
          Flushed-cons x xs s s xs' s' d.0 wrote rest,
        )
  ]

  module _ (c : LruCache V) (s : S) (ok : IsCoherent b Stored Fits c s) where
    -- In a coherent cache over a backend with its laws `flush_all` succeeds; then the backend
    -- holds the value of every key, no item is dirty, no value has changed, nothing has left the
    -- cache, and it is coherent.
    pub flush_all_lem :
        (c' : LruCache V) × (s' : S) × (flush_all b c s ≡ some (c', s'))
        × IsCoherent b Stored Fits c' s'
        × ((j : ℕ) → b.load j s' ≡ view b c s j)
        × ((j : ℕ) → view b c' s' j ≡ view b c s j)
        × ((j : ℕ) (x : Item V) → find_item j c'.items ≡ some x → x.dirty ≡ false)
        × (length c'.items ≡ length c.items)
    unfolding flush_all view seen
    flush_all_lem =
        let (xs', s', run, done) =
          flush_items-Flushed c.items s ok.distinct ok.stored ok.fits ok.clean in
        (
          record c { items = xs' },
          s',
          rw run refl,
          record {
            distinct = done.distinct;
            stored = λ j y h. let (x, e, v) = done.found j y h in ok.stored j x e;
            fits = λ j y h. let (x, e, v) = done.found j y h in subst Fits v (ok.fits j x e);
            clean = λ j y h hd. ground (arith, done.stored j, done.same j);
          },
          done.stored,
          done.same,
          done.all_clean,
          done.same_length,
        )

    -- In a coherent cache over a backend with its laws `clear` succeeds and empties the cache,
    -- and the backend then holds the value of every key.
    pub clear_lem :
        (s' : S) × (clear b c s ≡ some (record c { items = [] }, s'))
        × ((j : ℕ) → b.load j s' ≡ view b c s j)
    unfolding clear flush_all view seen
    clear_lem =
        let (xs', s', run, done) =
          flush_items-Flushed c.items s ok.distinct ok.stored ok.fits ok.clean in
        (s', rw run refl, done.stored)
