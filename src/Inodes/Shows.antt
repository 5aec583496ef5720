-- ===== src/Inodes/Shows.antt =====
-- `get` and `flush` of include/INodeTable.hpp, and what the cache of inodes and the table on the disk
-- show together.
use mathlib.Core.Path.{subst}
use osep.Common.{
  ℕ, ◌==◌, ◌≡◌, refl, ap, sym, ◌∙◌, inl, inr, ltb, length, none, some, List, [], ◌∷◌, false,
  if◌then◌else◌, arith, Bool-cases, Option-cases,
}
use osep.Store.{Store}
use osep.Inodes.{
  InodeItem, Kernel, find_inode, remove_inode, split_back, get_inode_from_disk, write_inode_to_disk,
  load_front, evict_back, get, flush_inodes, flush, clear_cache,
}
use osep.Inodes.Coherence.{
  Distinct, IsNumber, inode_at, IsCoherent, Parted, split_back-Parted, IsNumber-sb,
}
use osep.Inodes.Views.{
  at_disk, saves, evicted-at, evicted-IsCoherent, front-IsCoherent, front-at, loaded-IsCoherent,
  loaded-at,
}

-- The inode table goes on to show every inode as before.
pub record Shows (k k' : Kernel) : Type 0 where
  pub coherent : IsCoherent k'.items k'.store
  pub same_sb : k'.store.sb ≡ k.store.sb
  pub same :
      (j : ℕ) → IsNumber k.store j → inode_at j k'.items k'.store ≡ inode_at j k.items k.store

get_hit-Shows :
    (id : ℕ) (k k' : Kernel) (x : InodeItem)
    → IsCoherent k.items k.store
    → find_inode id k.items ≡ some x
    → get id k ≡ some k'
    → Shows k k'
unfolding get
get_hit-Shows id k k' x ok e run =
    let q : record k { items = x ∷ remove_inode id k.items } ≡ k' = ground arith in
    subst (Shows k) q (record {
      coherent = front-IsCoherent id k.items k.store x ok e;
      same_sb = refl;
      same = λ j w. front-at id k.items k.store x ok e j;
    })

load_front-Shows :
    (id : ℕ) (k k' : Kernel)
    → IsCoherent k.items k.store
    → find_inode id k.items ≡ none
    → IsNumber k.store id
    → load_front id k ≡ some k'
    → Shows k k'
unfolding load_front
load_front-Shows id k k' ok e number run = elim (Option-cases (get_inode_from_disk id k.store)) [
  | inl f ↦ absurd (ground arith)
  | inr (node, f) ↦
      let q : record k { items = record { id = id; node = node; dirty = false } ∷ k.items } ≡ k' =
        ground arith in
      subst (Shows k) q (record {
        coherent = loaded-IsCoherent id k.items k.store node ok e number f;
        same_sb = refl;
        same = λ j w. loaded-at id k.items k.store node ok e number f j;
      })
]

evict_back-Shows :
    (k k' : Kernel)
    → IsCoherent k.items k.store
    → evict_back k ≡ some k'
    → Shows k k' × ((id : ℕ) → find_inode id k.items ≡ none → find_inode id k'.items ≡ none)
unfolding evict_back
evict_back-Shows k k' ok run = elim (Option-cases (split_back k.items)) [
  | inl e ↦ absurd (ground arith)
  | inr ((old, rest), e) ↦
      elim (Option-cases
        (if old.dirty then write_inode_to_disk old.id old.node k.store else some k.store)) [
          | inl f ↦ absurd (ground arith)
          | inr (store, f) ↦
              let parted = split_back-Parted k.items (old, rest) e ok.distinct in
              let q : record k { store = store; items = rest } ≡ k' = ground arith in
              subst
                (λ n.
                  Shows k n
                  × ((id : ℕ) → find_inode id k.items ≡ none → find_inode id n.items ≡ none))
                q
                (
                  record {
                    coherent = evicted-IsCoherent k.items rest old k.store store ok parted f;
                    same_sb = (saves k.items rest old k.store store ok parted f).0;
                    same = evicted-at k.items rest old k.store store ok parted f;
                  },
                  λ id h. ground (arith, parted.1 id),
                )
        ]
]

Shows-trans : (k k1 k' : Kernel) → Shows k k1 → Shows k1 k' → Shows k k'
Shows-trans k k1 k' a b = record {
  coherent = b.coherent;
  same_sb = b.same_sb ∙ a.same_sb;
  same = λ j w. b.same j (IsNumber-sb k.store k1.store j a.same_sb w) ∙ a.same j w;
}

-- In a kernel whose cache of inodes is coherent with the table on the disk, a `get` that
-- returns, of an inode whose block has a 64-bit number, keeps it coherent, keeps the super
-- block, and changes no inode that the cache and the disk show together.
pub get-Shows :
    (id : ℕ) (k k' : Kernel)
    → IsCoherent k.items k.store
    → IsNumber k.store id
    → get id k ≡ some k'
    → Shows k k'
unfolding get
get-Shows id k k' ok number run = elim (Option-cases (find_inode id k.items)) [
  | inr (x, e) ↦ get_hit-Shows id k k' x ok e run
  | inl e ↦ elim (Bool-cases (ltb (length k.items) k.max_cache_size)) [
    | inl room ↦ load_front-Shows id k k' ok e number (rw room at (rw (e, get) at run))
    | inr full ↦ elim (Option-cases (evict_back k)) [
      | inl f ↦ absurd (ground arith)
      | inr (k1, f) ↦
          let (shows, missing) = evict_back-Shows k k1 ok f in
          let load : load_front id k1 ≡ some k' = ground arith in
          Shows-trans k k1 k' shows (
            load_front-Shows id k1 k' shows.coherent (missing id e)
              (IsNumber-sb k.store k1.store id shows.same_sb number) load)
    ]
  ]
]

first_item : (x : InodeItem) (xs : List InodeItem) → Distinct (x ∷ xs) → Parted (x ∷ xs) (x, xs)
unfolding find_inode
first_item x xs (new, h) = (
  ground arith,
  λ j. elim (Bool-cases (x.id == j)) [
    | inl e ↦ let q : x.id ≡ j = ground arith in rw e (ap (λ i. find_inode i xs) (sym q) ∙ new)
    | inr e ↦ rw e refl
  ],
  h,
)

flush_inodes_lem :
    (items : List InodeItem) (s s' : Store)
    → IsCoherent items s
    → flush_inodes items s ≡ some s'
    → (s'.sb ≡ s.sb) × ((j : ℕ) → IsNumber s j → get_inode_from_disk j s' ≡ inode_at j items s)
unfolding flush_inodes find_inode
flush_inodes_lem [] s s' ok run =
    let q : s ≡ s' = ground arith in
    (
      ap (λ (t : Store). t.sb) (sym q),
      λ j w. ap (get_inode_from_disk j) (sym q) ∙ sym (at_disk j [] s refl),
    )
flush_inodes_lem (x ∷ xs) s s' ok run =
    elim (Option-cases (if x.dirty then write_inode_to_disk x.id x.node s else some s)) [
      | inl f ↦ absurd (ground arith)
      | inr (s1, f) ↦
          let parted = first_item x xs ok.distinct in
          let next = evicted-IsCoherent (x ∷ xs) xs x s s1 ok parted f in
          let same_sb = (saves (x ∷ xs) xs x s s1 ok parted f).0 in
          let (below_sb, below) = flush_inodes_lem xs s1 s' next (rw f at run) in
          (
            below_sb ∙ same_sb,
            λ j w.
                below j (IsNumber-sb s s1 j same_sb w)
                ∙ evicted-at (x ∷ xs) xs x s s1 ok parted f j w,
          )
    ]

-- In a kernel whose cache of inodes is coherent with the table on the disk, a `flush` that
-- returns empties the cache, and the table on the disk then shows every inode whose block has a
-- 64-bit number as the cache and the disk did together before.
pub flush-durable :
    (k k' : Kernel)
    → IsCoherent k.items k.store
    → flush k ≡ some k'
    → (k'.items ≡ [])
      × ((j : ℕ) → IsNumber k.store j → get_inode_from_disk j k'.store ≡ inode_at j k.items k.store)
unfolding flush clear_cache
flush-durable k k' ok run = elim (Option-cases (flush_inodes k.items k.store)) [
  | inl e ↦ absurd (ground arith)
  | inr (s', e) ↦
      let q : record k { items = []; store = s' } ≡ k' = ground arith in
      (
        ap (λ (n : Kernel). n.items) (sym q),
        λ j w.
            ap (λ (n : Kernel). get_inode_from_disk j n.store) (sym q)
            ∙ (flush_inodes_lem k.items k.store s' ok e).1 j w,
      )
]
