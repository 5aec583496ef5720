-- ===== src/Inodes/Coherence.antt =====
-- The cache of inodes in include/INodeTable.hpp over the table on the disk: what both show of an
-- inode together.
use mathlib.Core.Path.{subst}
use osep.Common.{
  ℕ, ◌+◌, ◌/◌, ◌^◌, ◌<◌, ◌==◌, ◌≡◌, refl, ap, sym, ◌∙◌, inl, inr, Option, none, some, List, [], ◌∷◌,
  true, false, if◌then◌else◌, arith, Bool-cases, Option-cases,
}
use osep.Layout.Inode.{Inode}
use osep.Layout.Inode.Roundtrip.{InRange}
use osep.Layout.{SuperBlock}
use osep.Store.{Store}
use osep.Inodes.{
  InodeItem, find_inode, remove_inode, split_back, get_inode_from_disk, write_inode_to_disk,
}
use osep.Inodes.Table.{IsTable, get_inode_from_disk-write_inode_to_disk, write_inode_to_disk-sb}

-- No inode is cached twice.
abbrev pub Distinct : List InodeItem → Type 0
Distinct [] = Unit {0}
Distinct (x ∷ xs) = (find_inode x.id xs ≡ none) × Distinct xs

-- The block of the inode has a 64-bit number.
abbrev pub IsNumber : Store → ℕ → Type 0
IsNumber s j = j / s.sb.inodes_per_block + s.sb.inode_block_start_lba < 2 ^ 64

-- What an inode is: the cached one, or else the one on the disk.
unfoldable pub inode_at : ℕ → List InodeItem → Store → Option Inode
unfolding find_inode get_inode_from_disk
inode_at j items s = elim (find_inode j items) [
  | some x ↦ some x.node
  | none ↦ get_inode_from_disk j s
]

pub record IsCoherent (items : List InodeItem) (s : Store) : Type 0 where
  pub table : IsTable s
  pub distinct : Distinct items
  pub numbers : (j : ℕ) (x : InodeItem) → find_inode j items ≡ some x → IsNumber s j
  pub fits : (j : ℕ) (x : InodeItem) → find_inode j items ≡ some x → x.dirty ≡ true → InRange x.node
  pub clean :
      (j : ℕ) (x : InodeItem)
      → find_inode j items ≡ some x
      → x.dirty ≡ false
      → get_inode_from_disk j s ≡ some x.node

pub find-remove :
    (id j : ℕ) (xs : List InodeItem)
    → Distinct xs
    → find_inode j (remove_inode id xs) ≡ (if id == j then none else find_inode j xs)
unfolding find_inode remove_inode
find-remove id j [] h = ground arith
find-remove id j (y ∷ ys) (new, h) = elim (Bool-cases (y.id == id)) [
  | inl e ↦
      let q : y.id ≡ id = ground arith in
      let gone : find_inode id ys ≡ none = ap (λ i. find_inode i ys) (sym q) ∙ new in
      elim (Bool-cases (id == j)) [
        | inl f ↦
            let eq : id ≡ j = ground arith in
            rw e (rw f (ap (λ i. find_inode i ys) (sym eq) ∙ gone))
        | inr f ↦ let other : (y.id == j) ≡ false = ground arith in rw e (rw f (rw other refl))
      ]
  | inr e ↦ ground (arith, find-remove id j ys h)
]

pub remove-Distinct : (id : ℕ) (xs : List InodeItem) → Distinct xs → Distinct (remove_inode id xs)
unfolding remove_inode
remove-Distinct id [] h = tt
remove-Distinct id (y ∷ ys) (new, h) = elim (Bool-cases (y.id == id)) [
  | inl e ↦ rw e h
  | inr e ↦ rw e (ground (arith, find-remove id y.id ys h), remove-Distinct id ys h)
]

split_back-nil : (xs : List InodeItem) → split_back xs ≡ none → xs ≡ []
unfolding split_back
split_back-nil [] e = refl
split_back-nil (x ∷ xs) e = absurd (ground (arith, Option-cases (split_back xs)))

-- The last item is the one of its inode, and the others stay.
abbrev pub Parted : List InodeItem → InodeItem × List InodeItem → Type 0
Parted xs p =
    (find_inode p.0.id xs ≡ some p.0)
    × ((j : ℕ) → find_inode j p.1 ≡ (if p.0.id == j then none else find_inode j xs))
    × Distinct p.1

later_item :
    (y z : InodeItem) (ys zs : List InodeItem)
    → find_inode y.id ys ≡ none
    → Parted ys (z, zs)
    → Parted (y ∷ ys) (z, y ∷ zs)
unfolding find_inode
later_item y z ys zs new (at_old, others, ok) =
    let other : (y.id == z.id) ≡ false = elim (Bool-cases (y.id == z.id)) [
      | inl e ↦
          let q : y.id ≡ z.id = ground arith in
          let bad : some z ≡ none = sym at_old ∙ ap (λ i. find_inode i ys) (sym q) ∙ new in
          absurd (ground arith)
      | inr e ↦ e
    ] in
    (rw other at_old, λ j. ground (arith, others j), (ground (arith, others y.id), ok))

one_item : (y : InodeItem) → Parted (y ∷ []) (y, [])
unfolding find_inode
one_item y = (ground arith, λ j. ground arith, tt)

pub split_back-Parted :
    (xs : List InodeItem) (p : InodeItem × List InodeItem)
    → split_back xs ≡ some p
    → Distinct xs
    → Parted xs p
unfolding split_back find_inode
split_back-Parted [] p e h = absurd (ground arith)
split_back-Parted (y ∷ ys) p e (new, h) = elim (Option-cases (split_back ys)) [
  | inl e1 ↦
      let q : (y, []) ≡ p = ground arith in
      let one : ys ≡ [] = split_back-nil ys e1 in
      subst (λ o. Parted (y ∷ ys) o) q (subst (λ l. Parted (y ∷ l) (y, [])) (sym one) (one_item y))
  | inr ((z, zs), e1) ↦
      let q : (z, y ∷ zs) ≡ p = ground arith in
      subst (λ o. Parted (y ∷ ys) o) q
        (later_item y z ys zs new (split_back-Parted ys (z, zs) e1 h))
]

on_disk :
    (x : InodeItem) (j : ℕ) (s : Store)
    → get_inode_from_disk x.id s ≡ some x.node
    → get_inode_from_disk j s ≡ (if x.id == j then some x.node else get_inode_from_disk j s)
on_disk x j s e = elim (Bool-cases (x.id == j)) [
  | inl h ↦ let q : x.id ≡ j = ground arith in rw h (ap (λ i. get_inode_from_disk i s) (sym q) ∙ e)
  | inr h ↦ rw h refl
]

-- A cached inode is written, if it has to be.
pub saved :
    (x : InodeItem) (s s' : Store)
    → IsTable s
    → IsNumber s x.id
    → (x.dirty ≡ true → InRange x.node)
    → (x.dirty ≡ false → get_inode_from_disk x.id s ≡ some x.node)
    → (if x.dirty then write_inode_to_disk x.id x.node s else some s) ≡ some s'
    → (s'.sb ≡ s.sb)
      × ((j : ℕ)
          → IsNumber s j
          → get_inode_from_disk j s' ≡ (if x.id == j then some x.node else get_inode_from_disk j s))
saved x s s' table number fits clean run = elim (Bool-cases x.dirty) [
  | inl e ↦
      let run' : write_inode_to_disk x.id x.node s ≡ some s' = rw e at run in
      (
        write_inode_to_disk-sb x.id x.node s s' run',
        λ j w.
            get_inode_from_disk-write_inode_to_disk s s' x.id j x.node table (fits e) number w run',
      )
  | inr e ↦
      let same : s ≡ s' = ground arith in
      (
        ap (λ (t : Store). t.sb) (sym same),
        λ j w. ap (get_inode_from_disk j) (sym same) ∙ on_disk x j s (clean e),
      )
]

pub IsTable-sb : (s s' : Store) → s'.sb ≡ s.sb → IsTable s → IsTable s'
IsTable-sb s s' e t = record {
  some_per_block = ground (arith, t.some_per_block);
  inode_size = ap (λ (b : SuperBlock). b.inode_size) e ∙ t.inode_size;
}

pub IsNumber-sb : (s s' : Store) (j : ℕ) → s'.sb ≡ s.sb → IsNumber s j → IsNumber s' j
IsNumber-sb s s' j e =
    subst (λ (b : SuperBlock). j / b.inodes_per_block + b.inode_block_start_lba < 2 ^ 64) (sym e)
