-- ===== src/Inodes/Saved.antt =====
-- A write into a file of include/INodeTable.hpp that is kept in its inode, and the table on the disk
-- after `flush`.
use mathlib.Core.Path.{subst}
use osep.Common.{
  ℕ, ◌+◌, ◌<◌, ◌≤◌, ◌==◌, ◌≡◌, refl, ap, sym, ◌∙◌, inl, inr, length, Option, none, some, List, [],
  ◌∷◌, Bool, true, false, if◌then◌else◌, arith, Bool-cases, Option-cases,
}
use osep.Common.Bytes.{Buffer, copy_to, length-copy_to}
use osep.Layout.Inode.{Inode, storage_inline}
use osep.Layout.Inode.Roundtrip.{InRange}
use osep.Store.{Store}
use osep.Inodes.{
  InodeItem, Kernel, find_inode, update_inode, get_inode_from_disk, write_inode_to_disk, get, deref,
  set_node, mark_dirty, flush,
}
use osep.Inodes.Inline.{grown, write_data-written, deref_found}
use osep.Inodes.Write.{write_data}
use osep.Inodes.Table.{get_inode_from_disk-write_inode_to_disk, write_inode_to_disk-sb}
use osep.Inodes.Coherence.{Distinct, IsNumber, inode_at, IsCoherent, IsTable-sb, IsNumber-sb}
use osep.Inodes.Views.{at_cached, at_disk}
use osep.Inodes.Shows.{get-Shows, flush-durable}

-- The dirty item with a new inode.
abbrev changed : Inode → InodeItem → InodeItem
changed node x = record x { node = node; dirty = true }

find-update_inode :
    (f : InodeItem → InodeItem) (id j : ℕ) (xs : List InodeItem)
    → ((y : InodeItem) → (f y).id ≡ y.id)
    → find_inode j (update_inode f id xs) ≡ (
        if id == j
        then elim (find_inode j xs) [ none ↦ none | some x ↦ some (f x) ]
        else find_inode j xs)
unfolding find_inode update_inode
find-update_inode f id j [] same = ground arith
find-update_inode f id j (y ∷ ys) same = elim (Bool-cases (y.id == id)) [
  | inl e ↦
      let head = same y in
      elim (Bool-cases (id == j)) [
        | inl h ↦
            let at_y : (y.id == j) ≡ true = ground arith in
            let at_f : ((f y).id == j) ≡ true = ap (λ n. n == j) head ∙ at_y in
            rw e (rw h (rw at_y (rw at_f refl)))
        | inr h ↦
            let at_y : (y.id == j) ≡ false = ground arith in
            let at_f : ((f y).id == j) ≡ false = ap (λ n. n == j) head ∙ at_y in
            rw e (rw h (rw at_y (rw at_f refl)))
      ]
  | inr e ↦ ground (arith, find-update_inode f id j ys same)
]

update_inode-Distinct :
    (f : InodeItem → InodeItem) (id : ℕ) (xs : List InodeItem)
    → ((y : InodeItem) → (f y).id ≡ y.id)
    → Distinct xs
    → Distinct (update_inode f id xs)
unfolding update_inode
update_inode-Distinct f id [] same h = tt
update_inode-Distinct f id (y ∷ ys) same (new, h) = elim (Bool-cases (y.id == id)) [
  | inl e ↦ rw e (ap (λ i. find_inode i ys) (same y) ∙ new, h)
  | inr e ↦ rw e (
    ground (arith, find-update_inode f id y.id ys same, new),
    update_inode-Distinct f id ys same h,
  )
]

-- The cache and the disk once an inode is changed in both, and marked.
module _ (id : ℕ) (node : Inode) (k : Kernel) (s' : Store) (ok : IsCoherent k.items k.store)
    (number : IsNumber k.store id) (fits : InRange node) (x : InodeItem)
    (found : find_inode id k.items ≡ some x)
    (wrote : write_inode_to_disk id node k.store ≡ some s') where
  abbrev after : Kernel
  after = set_node id node (record (mark_dirty id k) { store = s' })

  find-after :
      (j : ℕ)
      → find_inode j after.items ≡ (if id == j then some (changed node x) else find_inode j k.items)
  unfolding set_node mark_dirty
  find-after j =
      let marked =
        λ (i : ℕ). find-update_inode (λ y. record y { dirty = true }) id i k.items (λ y. refl) in
      let set =
        find-update_inode (λ y. record y { node = node }) id j
          (update_inode (λ (y : InodeItem). record y { dirty = true }) id k.items) (λ y. refl) in
      elim (Bool-cases (id == j)) [
        | inl e ↦
            let q : id ≡ j = ground arith in
            let at_x : find_inode j k.items ≡ some x =
              ap (λ i. find_inode i k.items) (sym q) ∙ found in
            let at_marked =
              rw e at (marked j)
              ∙ ap
                  (λ (o : Option InodeItem). elim o [
                    | none ↦ none
                    | some y ↦ some (record y { dirty = true })
                  ])
                  at_x in
            rw e (
              rw e at set
              ∙ ap
                  (λ (o : Option InodeItem). elim o [
                    | none ↦ none
                    | some y ↦ some (record y { node = node })
                  ])
                  at_marked)
        | inr e ↦ rw e (rw e at set ∙ (rw e at (marked j)))
      ]

  disk-after :
      (j : ℕ)
      → IsNumber k.store j
      → get_inode_from_disk j s' ≡ (if id == j then some node else get_inode_from_disk j k.store)
  disk-after j w =
      get_inode_from_disk-write_inode_to_disk k.store s' id j node ok.table fits number w wrote

  at-after :
      (j : ℕ)
      → IsNumber k.store j
      → inode_at j after.items s' ≡ (if id == j then some node else inode_at j k.items k.store)
  at-after j w = elim (Bool-cases (id == j)) [
    | inl e ↦ rw e (at_cached j after.items s' (changed node x) (rw e at (find-after j)))
    | inr e ↦ elim (Option-cases (find_inode j k.items)) [
      | inl f ↦ rw e (
          at_disk j after.items s' (rw e at (find-after j) ∙ f)
          ∙ rw e at (disk-after j w)
          ∙ sym (at_disk j k.items k.store f))
      | inr (y, f) ↦ rw e (
          at_cached j after.items s' y (rw e at (find-after j) ∙ f)
          ∙ sym (at_cached j k.items k.store y f))
    ]
  ]

  -- Another item than the changed one is what it was.
  unchanged :
      (j : ℕ) (y : InodeItem)
      → (id == j) ≡ false
      → find_inode j after.items ≡ some y
      → find_inode j k.items ≡ some y
  unchanged j y h e = sym (rw h at (find-after j)) ∙ e

  changed-item :
      (j : ℕ) (y : InodeItem)
      → (id == j) ≡ true
      → find_inode j after.items ≡ some y
      → some (changed node x) ≡ some y
  changed-item j y h e = sym (rw h at (find-after j)) ∙ e

  after-Distinct : Distinct after.items
  unfolding set_node mark_dirty
  after-Distinct =
      update_inode-Distinct _ id _ (λ y. refl)
        (update_inode-Distinct _ id k.items (λ y. refl) ok.distinct)

  after-IsCoherent : IsCoherent after.items s'
  after-IsCoherent =
      let same_sb = write_inode_to_disk-sb id node k.store s' wrote in
      record {
        table = IsTable-sb k.store s' same_sb ok.table;
        distinct = after-Distinct;
        numbers = λ j y e. IsNumber-sb k.store s' j same_sb (elim (Bool-cases (id == j)) [
          | inl h ↦ subst (IsNumber k.store) (ground arith) number
          | inr h ↦ ok.numbers j y (unchanged j y h e)
        ]);
        fits = λ j y e d. elim (Bool-cases (id == j)) [
          | inl h ↦
              let item = changed-item j y h e in
              let same : node ≡ y.node = ground arith in subst InRange same fits
          | inr h ↦ ok.fits j y (unchanged j y h e) d
        ];
        clean = λ j y e d. elim (Bool-cases (id == j)) [
          | inl h ↦ let item = changed-item j y h e in absurd (ground arith)
          | inr h ↦
              let f = unchanged j y h e in
              rw h at (disk-after j (ok.numbers j y f)) ∙ ok.clean j y f d
        ];
      }

grown-InRange :
    (node : Inode) (offset : ℕ) (bytes field : Buffer)
    → InRange node
    → offset + length bytes ≤ 474
    → copy_to node.inline_data offset bytes ≡ some field
    → InRange (grown node offset bytes field)
grown-InRange node offset bytes field r fit copied = record {
  id = r.id;
  prev_inode_id = r.prev_inode_id;
  block_lba = r.block_lba;
  link_cnt = r.link_cnt;
  file_type = r.file_type;
  storage_type = r.storage_type;
  inline_data = length-copy_to node.inline_data offset bytes field copied ∙ r.inline_data;
  size = omega (arith, r.size);
}

module _ (id offset : ℕ) (bytes : Buffer) (k k1 k' k2 : Kernel) (node : Inode) (ok : Bool)
    (coherent : IsCoherent k.items k.store) (number : IsNumber k.store id)
    (got : get id k ≡ some k1) (at_node : deref id k1 ≡ some node)
    (inline : node.storage_type ≡ storage_inline) (in_range : InRange node) (pos : 0 < length bytes)
    (sizes : k1.store.sb.inode_inline_data_size ≡ 474) (fit : offset + length bytes ≤ 474)
    (run : write_data id offset bytes k ≡ some (ok, k')) (flushed : flush k' ≡ some k2) where
  -- In a kernel whose cache of inodes is coherent with the table on the disk: if a write of at
  -- least one byte into an inode that keeps its data in itself, of bytes that fit into its
  -- field, returns, and then `flush` returns, the table on the disk holds that inode with the
  -- bytes in their place and a size that reaches to their end at least, and every other inode as
  -- the cache and the disk showed it before.
  pub write_data-flush :
      (field : Buffer) × (copy_to node.inline_data offset bytes ≡ some field)
      × ((j : ℕ)
          → IsNumber k.store j
          → get_inode_from_disk j k2.store ≡ (
              if id == j then some (grown node offset bytes field) else inode_at j k.items k.store))
  unfolding flush set_node
  write_data-flush =
      let shows = get-Shows id k k1 coherent number got in
      let (x, found) = deref_found id k1 node at_node in
      let (field, s', copied, wrote, good, q) =
        write_data-written id offset bytes k k1 k' node ok got at_node inline in_range.inline_data
          in_range.size pos sizes fit run in
      let number1 = IsNumber-sb k.store k1.store id shows.same_sb number in
      let fits = grown-InRange node offset bytes field in_range fit copied in
      let new = grown node offset bytes field in
      let kept = after-IsCoherent id new k1 s' shows.coherent number1 fits x found wrote in
      let done : flush (after id new k1 s' shows.coherent number1 fits x found wrote) ≡ some k2 =
        ap flush (sym q) ∙ flushed in
      let (none_left, disk) = flush-durable _ k2 kept done in
      (
        field,
        copied,
        λ j w.
            let w1 = IsNumber-sb k.store k1.store j shows.same_sb w in
            let w2 =
              IsNumber-sb k1.store s' j (write_inode_to_disk-sb id new k1.store s' wrote) w1 in
            disk j w2
            ∙ at-after id new k1 s' shows.coherent number1 fits x found wrote j w1
            ∙ ap (λ o. if id == j then some new else o) (shows.same j w),
      )
