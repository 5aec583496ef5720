-- ===== src/Tests/Caching.antt =====
-- A cache of two items, of which one is dirty and one is held, over a store of numbers.
use osep.Common.{
  ℕ, ◌*◌, ◌+◌, ◌≡◌, ◌≤◌, ◌==◌, ◌⊎◌, none, some, [], ◌∷◌, true, false, if◌then◌else◌, arith, refl,
  length,
}
use osep.Cache.{
  CacheBackend, Item, LruCache, find_item, pick_victim, evict, access, get, get_mut, write_value,
  flush_all,
}
use osep.Cache.Coherence.{IsBackend, IsCoherent, view}
use osep.Cache.Calls.{GotValue, GotPointer, get-GotValue, get_mut-GotPointer, write_value_lem}
use osep.Cache.Flush.{flush_all_lem}
use osep.Cache.Items.{AllHeld, Picked}
use osep.Cache.Eviction.{Saved, evict-Picked, access-length}

abbrev Numbers : Type 0
Numbers = ℕ → ℕ

abbrev backend : CacheBackend ℕ Numbers
backend = record { load = λ k s. some (s k); save = λ k v s. some (λ j. if k == j then v else s j) }

abbrev Any : ℕ → Type 0
Any k = Unit {0}

backend-IsBackend : IsBackend backend Any Any
backend-IsBackend = record {
  load_stored = λ k s st. (s k, refl, tt);
  save_stored = λ k v s st fit. (_, refl);
  load-save = λ k j v s s' st fit h. ground arith;
}

abbrev held_item : Item ℕ
held_item = record { key = 3; val = 30; dirty = false; users = 1 }

abbrev dirty_item : Item ℕ
dirty_item = record { key = 5; val = 51; dirty = true; users = 0 }

abbrev full_cache : LruCache ℕ
full_cache = record { capacity = 2; items = held_item ∷ dirty_item ∷ [] }

abbrev numbers : Numbers
numbers k = k * 10

full_cache-IsCoherent : IsCoherent backend Any Any full_cache numbers
unfolding find_item
full_cache-IsCoherent = record {
  distinct = (refl, (refl, tt));
  stored = λ k x h. tt;
  fits = λ k x h. tt;
  clean = λ k x h d. ground arith;
}

get-GotValue_example :
    (v : ℕ) × (c' : LruCache ℕ) × (s' : Numbers) × (get backend 7 full_cache numbers
      ≡ some (v, c', s'))
    × GotValue backend Any Any 7 full_cache numbers v c' s'
get-GotValue_example =
    get-GotValue backend Any Any 7 full_cache numbers backend-IsBackend tt full_cache-IsCoherent

get_mut-GotPointer_example :
    (v : ℕ) × (c' : LruCache ℕ) × (s' : Numbers) × (get_mut backend 7 full_cache numbers
      ≡ some (v, c', s'))
    × GotPointer backend Any Any 7 full_cache numbers v c' s'
get_mut-GotPointer_example =
    get_mut-GotPointer backend Any Any 7 full_cache numbers backend-IsBackend tt
      full_cache-IsCoherent

write_value_lem_example :
    IsCoherent backend Any Any (write_value 5 52 full_cache) numbers
    × ((j : ℕ)
        → view backend (write_value 5 52 full_cache) numbers j
          ≡ (if 5 == j then some 52 else view backend full_cache numbers j))
unfolding find_item
write_value_lem_example =
    write_value_lem backend Any Any 5 52 full_cache numbers full_cache-IsCoherent dirty_item refl
      refl tt

flush_all_lem_example :
    (c' : LruCache ℕ) × (s' : Numbers) × (flush_all backend full_cache numbers ≡ some (c', s'))
    × IsCoherent backend Any Any c' s'
    × ((j : ℕ) → backend.load j s' ≡ view backend full_cache numbers j)
    × ((j : ℕ) → view backend c' s' j ≡ view backend full_cache numbers j)
    × ((j : ℕ) (x : Item ℕ) → find_item j c'.items ≡ some x → x.dirty ≡ false)
    × (length c'.items ≡ length full_cache.items)
flush_all_lem_example =
    flush_all_lem backend Any Any backend-IsBackend full_cache numbers full_cache-IsCoherent

abbrev after_evict : LruCache ℕ
after_evict = record { capacity = 2; items = held_item ∷ [] }

abbrev saved_numbers : Numbers
saved_numbers j = if 5 == j then 51 else numbers j

evicted : evict backend full_cache numbers ≡ some (after_evict, saved_numbers)
unfolding evict pick_victim
evicted = refl

evict-Picked_example :
    (AllHeld full_cache.items × (after_evict ≡ full_cache) × (saved_numbers ≡ numbers))
    ⊎ ((x : Item ℕ) × Picked full_cache.items x after_evict.items
        × (after_evict.capacity ≡ full_cache.capacity)
        × Saved backend x numbers saved_numbers)
evict-Picked_example = evict-Picked backend full_cache after_evict numbers saved_numbers evicted

abbrev loaded_item : Item ℕ
loaded_item = record { key = 7; val = 70; dirty = false; users = 0 }

abbrev after_access : LruCache ℕ
after_access = record { capacity = 2; items = loaded_item ∷ held_item ∷ [] }

accessed : access backend 7 full_cache numbers ≡ some (loaded_item, after_access, saved_numbers)
unfolding access evict pick_victim find_item
accessed = refl

access-length_example :
    (length after_access.items ≤ full_cache.capacity)
    ⊎ (AllHeld full_cache.items
        × (find_item 7 full_cache.items ≡ none)
        × (length after_access.items ≡ length full_cache.items + 1))
access-length_example =
    access-length backend 7 full_cache after_access numbers saved_numbers loaded_item (omega arith)
      (omega arith) accessed
