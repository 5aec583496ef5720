-- ===== src/Inodes/Views.antt =====
-- What the cache of inodes in include/INodeTable.hpp and the table on the disk show together, across
-- `get` and `flush`.
use mathlib.Core.Path.{subst}
use osep.Common.{
  ℕ, ◌==◌, ◌≡◌, refl, ap, sym, ◌∙◌, inl, inr, Option, none, some, List, ◌∷◌, false, if◌then◌else◌,
  arith, Bool-cases, Option-cases,
}
use osep.Layout.Inode.{Inode}
use osep.Store.{Store}
use osep.Inodes.{InodeItem, find_inode, remove_inode, get_inode_from_disk, write_inode_to_disk}
use osep.Inodes.Lookup.{find_inode-id}
use osep.Inodes.Coherence.{
  IsNumber, inode_at, IsCoherent, find-remove, remove-Distinct, Parted, saved, IsTable-sb,
  IsNumber-sb,
}

pub at_cached :
    (j : ℕ) (items : List InodeItem) (s : Store) (x : InodeItem)
    → find_inode j items ≡ some x
    → inode_at j items s ≡ some x.node
unfolding inode_at
at_cached j items s x e = rw (e, inode_at) refl

pub at_disk :
    (j : ℕ) (items : List InodeItem) (s : Store)
    → find_inode j items ≡ none
    → inode_at j items s ≡ get_inode_from_disk j s
unfolding inode_at
at_disk j items s e = rw (e, inode_at) refl

-- The last inode is written back and leaves the cache.
module _ (items rest : List InodeItem) (old : InodeItem) (s s' : Store) (ok : IsCoherent items s)
    (parted : Parted items (old, rest))
    (run : (if old.dirty then write_inode_to_disk old.id old.node s else some s) ≡ some s') where
  pub saves :
      (s'.sb ≡ s.sb)
      × ((j : ℕ)
          → IsNumber s j
          → get_inode_from_disk j s'
            ≡ (if old.id == j then some old.node else get_inode_from_disk j s))
  saves =
      let at_old = parted.0 in
      saved old s s' ok.table (ok.numbers old.id old at_old) (ok.fits old.id old at_old)
        (ok.clean old.id old at_old) run

  kept :
      (j : ℕ) (x : InodeItem)
      → find_inode j rest ≡ some x
      → ((old.id == j) ≡ false) × (find_inode j items ≡ some x)
  kept j x e = let (at_old, others, distinct) = parted in ground (arith, others j)

  pub evicted-at : (j : ℕ) → IsNumber s j → inode_at j rest s' ≡ inode_at j items s
  evicted-at j w =
      let (at_old, others, distinct) = parted in
      elim (Bool-cases (old.id == j)) [
        | inl e ↦
            let q : old.id ≡ j = ground arith in
            at_disk j rest s' ((rw e at (others j)))
            ∙ (rw e at (saves.1 j w))
            ∙ sym (at_cached j items s old (ap (λ i. find_inode i items) (sym q) ∙ at_old))
        | inr e ↦ elim (Option-cases (find_inode j items)) [
          | inl f ↦
              at_disk j rest s' ((rw e at (others j)) ∙ f)
              ∙ (rw e at (saves.1 j w))
              ∙ sym (at_disk j items s f)
          | inr (x, f) ↦
              at_cached j rest s' x ((rw e at (others j)) ∙ f) ∙ sym (at_cached j items s x f)
        ]
      ]

  pub evicted-IsCoherent : IsCoherent rest s'
  evicted-IsCoherent =
      let (at_old, others, distinct) = parted in
      record {
        table = IsTable-sb s s' saves.0 ok.table;
        distinct = distinct;
        numbers = λ j x e. IsNumber-sb s s' j saves.0 (ok.numbers j x (kept j x e).1);
        fits = λ j x e. ok.fits j x (kept j x e).1;
        clean = λ j x e d.
            let (other, f) = kept j x e in
            (rw other at (saves.1 j (ok.numbers j x f))) ∙ ok.clean j x f d;
      }

-- The inode that was found is at the front.
module _ (id : ℕ) (items : List InodeItem) (s : Store) (x : InodeItem) (ok : IsCoherent items s)
    (found : find_inode id items ≡ some x) where
  front-find : (j : ℕ) → find_inode j (x ∷ remove_inode id items) ≡ find_inode j items
  unfolding find_inode
  front-find j =
      let same : x.id ≡ id = ground (arith, find_inode-id id items x found) in
      elim (Bool-cases (x.id == j)) [
        | inl e ↦ let q : id ≡ j = ground arith in rw e (sym found ∙ ap (λ i. find_inode i items) q)
        | inr e ↦
            let other : (id == j) ≡ false = ground arith in
            rw e (rw other at (find-remove id j items ok.distinct))
      ]

  pub front-IsCoherent : IsCoherent (x ∷ remove_inode id items) s
  front-IsCoherent =
      let at_id : find_inode x.id (remove_inode id items) ≡ none =
        ground (arith, find-remove id x.id items ok.distinct, find_inode-id id items x found) in
      record {
        table = ok.table;
        distinct = (at_id, remove-Distinct id items ok.distinct);
        numbers = λ j y e. ok.numbers j y (sym (front-find j) ∙ e);
        fits = λ j y e. ok.fits j y (sym (front-find j) ∙ e);
        clean = λ j y e. ok.clean j y (sym (front-find j) ∙ e);
      }

  pub front-at : (j : ℕ) → inode_at j (x ∷ remove_inode id items) s ≡ inode_at j items s
  unfolding inode_at
  front-at j =
      ap
        (λ (o : Option InodeItem). elim o [ some y ↦ some y.node | none ↦ get_inode_from_disk j s ])
        (front-find j)

-- The inode that was not found is read.
module _ (id : ℕ) (items : List InodeItem) (s : Store) (node : Inode) (ok : IsCoherent items s)
    (missing : find_inode id items ≡ none) (number : IsNumber s id)
    (on_disk : get_inode_from_disk id s ≡ some node) where
  abbrev loaded : InodeItem
  loaded = record { id = id; node = node; dirty = false }

  pub loaded-IsCoherent : IsCoherent (loaded ∷ items) s
  unfolding find_inode
  loaded-IsCoherent = record {
    table = ok.table;
    distinct = (missing, ok.distinct);
    numbers = λ j y e. elim (Bool-cases (id == j)) [
      | inl h ↦ subst (IsNumber s) (ground arith) number
      | inr h ↦ ok.numbers j y (ground arith)
    ];
    fits = λ j y e d. elim (Bool-cases (id == j)) [
      | inl h ↦ absurd (ground arith)
      | inr h ↦ ok.fits j y (ground arith) d
    ];
    clean = λ j y e d. elim (Bool-cases (id == j)) [
      | inl h ↦
          let q : id ≡ j = ground arith in
          let same : node ≡ y.node = ground arith in
          ap (λ i. get_inode_from_disk i s) (sym q) ∙ on_disk ∙ ap some same
      | inr h ↦ ok.clean j y (ground arith) d
    ];
  }

  pub loaded-at : (j : ℕ) → inode_at j (loaded ∷ items) s ≡ inode_at j items s
  unfolding find_inode
  loaded-at j = elim (Bool-cases (id == j)) [
    | inl h ↦
        let q : id ≡ j = ground arith in
        at_cached j (loaded ∷ items) s loaded (rw h refl)
        ∙ sym on_disk
        ∙ ap (λ i. get_inode_from_disk i s) q
        ∙ sym (at_disk j items s (ap (λ i. find_inode i items) (sym q) ∙ missing))
    | inr h ↦ elim (Option-cases (find_inode j items)) [
      | inl f ↦ at_disk j (loaded ∷ items) s (rw h f) ∙ sym (at_disk j items s f)
      | inr (y, f) ↦ at_cached j (loaded ∷ items) s y (rw h f) ∙ sym (at_cached j items s y f)
    ]
  ]
