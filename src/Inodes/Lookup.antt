-- ===== src/Inodes/Lookup.antt =====
-- The cache of inodes in include/INodeTable.hpp: what `get` finds, and how long the list becomes.
use osep.Common.{
  ℕ, suc, ◌≤◌, ◌==◌, ◌≡◌, refl, ltb, none, some, List, [], ◌∷◌, true, false, length, arith,
  Bool-cases, Option-cases, inl, inr, ap, sym, ◌∙◌, ◌⊎◌,
}
use osep.Layout.Inode.{Inode}
use osep.Inodes.{
  InodeItem, Kernel, find_inode, remove_inode, split_back, get_inode_from_disk, load_front,
  evict_back, get, deref,
}

length-remove_inode :
    (id : ℕ) (xs : List InodeItem) (x : InodeItem)
    → find_inode id xs ≡ some x
    → suc (length (remove_inode id xs)) ≡ length xs
unfolding find_inode remove_inode
length-remove_inode id [] x h = absurd (ground arith)
length-remove_inode id (y ∷ ys) x h = elim (Bool-cases (y.id == id)) [
  | inl e ↦ ground arith
  | inr e ↦
      let found : find_inode id ys ≡ some x = ground arith in
      ground (arith, length-remove_inode id ys x found)
]

pub find_inode-id :
    (id : ℕ) (xs : List InodeItem) (x : InodeItem) → find_inode id xs ≡ some x → (x.id == id) ≡ true
unfolding find_inode
find_inode-id id [] x h = absurd (ground arith)
find_inode-id id (y ∷ ys) x h = elim (Bool-cases (y.id == id)) [
  | inl e ↦ ground arith
  | inr e ↦ find_inode-id id ys x (ground arith)
]

split_back-none : (xs : List InodeItem) → split_back xs ≡ none → length xs ≡ 0
unfolding split_back
split_back-none [] h = refl
split_back-none (x ∷ xs) h = elim (Option-cases (split_back xs)) [
  | inl e ↦ absurd (ground arith)
  | inr (y, e) ↦ absurd (ground arith)
]

split_back-length :
    (xs rest : List InodeItem) (old : InodeItem)
    → split_back xs ≡ some (old, rest)
    → suc (length rest) ≡ length xs
unfolding split_back
split_back-length [] rest old h = absurd (ground arith)
split_back-length (x ∷ xs) rest old h = elim (Option-cases (split_back xs)) [
  | inl e ↦ ground (arith, split_back-none xs e)
  | inr ((y, ys), e) ↦ ground (arith, split_back-length xs ys y e)
]

pub deref_front :
    (id : ℕ) (k : Kernel) (x : InodeItem) (rest : List InodeItem)
    → (x.id == id) ≡ true
    → k.items ≡ x ∷ rest
    → deref id k ≡ some x.node
unfolding deref find_inode
deref_front id k x rest e h = rw h (rw e refl)

get_hit :
    (id : ℕ) (k k' : Kernel) (x : InodeItem)
    → find_inode id k.items ≡ some x
    → get id k ≡ some k'
    → (k'.items ≡ x ∷ remove_inode id k.items) × (k'.store ≡ k.store)
unfolding get
get_hit id k k' x e h = ground arith

load_front_lem :
    (id : ℕ) (k k' : Kernel)
    → load_front id k ≡ some k'
    → (node : Inode) × (get_inode_from_disk id k.store ≡ some node)
      × (k'.store ≡ k.store)
      × (k'.items ≡ record { id = id; node = node; dirty = false } ∷ k.items)
unfolding load_front
load_front_lem id k k' h = elim (Option-cases (get_inode_from_disk id k.store)) [
  | inl e ↦ absurd (ground arith)
  | inr (node, e) ↦ (node, e, ground arith, ground arith)
]

evict_back_lem : (k k' : Kernel) → evict_back k ≡ some k' → suc (length k'.items) ≡ length k.items
unfolding evict_back
evict_back_lem k k' h = elim (Option-cases (split_back k.items)) [
  | inl e ↦ absurd (ground arith)
  | inr ((old, rest), e) ↦ ground (arith, split_back-length k.items rest old e)
]

get_miss :
    (id : ℕ) (k k' : Kernel)
    → find_inode id k.items ≡ none
    → get id k ≡ some k'
    → (k1 : Kernel) × (load_front id k1 ≡ some k')
      × (suc (length k1.items) ≤ k.max_cache_size ⊎ (suc (length k1.items) ≡ length k.items))
unfolding get
get_miss id k k' e h = elim (Bool-cases (ltb (length k.items) k.max_cache_size)) [
  | inl room ↦ (k, ground arith, inl (ground arith))
  | inr full ↦ elim (Option-cases (evict_back k)) [
    | inl e1 ↦ absurd (ground arith)
    | inr (k1, e1) ↦ (k1, ground arith, inr (evict_back_lem k k1 e1))
  ]
]

-- After `get`, if it returns, the inode is the first one in the cache: as it was cached before,
-- with nothing read or written below, or as the disk shows it. A cache within its bound stays
-- so.
pub get-Front :
    (id : ℕ) (k k' : Kernel)
    → get id k ≡ some k'
    → (x : InodeItem) × (rest : List InodeItem) × (k'.items ≡ x ∷ rest)
      × (deref id k' ≡ some x.node)
      × (((find_inode id k.items ≡ some x) × (k'.store ≡ k.store))
          ⊎ ((find_inode id k.items ≡ none) × (get_inode_from_disk id k'.store ≡ some x.node)))
      × (length k.items ≤ k.max_cache_size → length k'.items ≤ k.max_cache_size)
get-Front id k k' run = elim (Option-cases (find_inode id k.items)) [
  | inr (x, e) ↦
      let (front, same) = get_hit id k k' x e run in
      (
        x,
        remove_inode id k.items,
        front,
        deref_front id k' x _ (find_inode-id id k.items x e) front,
        inl (e, same),
        ground (arith, length-remove_inode id k.items x e),
      )
  | inl e ↦
      let (k1, loaded, bound) = get_miss id k k' e run in
      let (node, disk, same, front) = load_front_lem id k1 k' loaded in
      (
        record { id = id; node = node; dirty = false },
        k1.items,
        front,
        deref_front id k' _ _ (ground arith) front,
        inr (e, ap (get_inode_from_disk id) same ∙ disk),
        ground (arith, bound),
      )
]

remove_front :
    (id : ℕ) (x : InodeItem) (rest : List InodeItem)
    → (x.id == id) ≡ true
    → remove_inode id (x ∷ rest) ≡ rest
unfolding remove_inode
remove_front id x rest e = rw e refl

get_front :
    (id : ℕ) (k : Kernel) (x : InodeItem) (rest : List InodeItem)
    → (x.id == id) ≡ true
    → k.items ≡ x ∷ rest
    → get id k ≡ some k
unfolding get find_inode
get_front id k x rest e h =
    let found : find_inode id k.items ≡ some x = rw h (rw e refl) in
    let same : x ∷ remove_inode id k.items ≡ k.items =
      ap (λ l. x ∷ remove_inode id l) h ∙ ap (λ l. x ∷ l) (remove_front id x rest e) ∙ sym h in
    rw (found, get) (ap (λ (l : List InodeItem). some (record k { items = l })) same)

-- A second `get` of the same inode changes nothing.
pub get-get : (id : ℕ) (k k' : Kernel) → get id k ≡ some k' → get id k' ≡ some k'
get-get id k k' run = elim (Option-cases (find_inode id k.items)) [
  | inr (x, e) ↦
      let (front, same) = get_hit id k k' x e run in
      get_front id k' x _ (find_inode-id id k.items x e) front
  | inl e ↦
      let (k1, loaded, bound) = get_miss id k k' e run in
      let (node, disk, same, front) = load_front_lem id k1 k' loaded in
      get_front id k' _ _ (ground arith) front
]
