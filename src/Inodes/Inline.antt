-- ===== src/Inodes/Inline.antt =====
-- Files that are kept in their inode: `read_data` and `write_data` of include/INodeTable.hpp.
use osep.Common.{
  ℕ, ◌+◌, ◌-◌, ◌^◌, ◌<◌, ◌≤◌, ◌==◌, ◌≡◌, refl, leb, min, max, some, List, [], ◌∷◌, ◌++◌, Bool, true,
  if◌then◌else◌, length, take, drop, arith, Bool-cases, Option-cases, inl, inr, ap, ◌∙◌,
  length-take, length-drop,
}
use osep.Common.Bytes.{Buffer, copy_to, copy_from, length-copy_to, copy_from-copy_to}
use osep.Layout.Inode.{Inode, storage_inline}
use osep.Io.View.{copy_whole}
use osep.Store.{Store}
use osep.Inodes.{
  InodeItem, Kernel, find_inode, update_inode, get, deref, set_node, mark_dirty,
  write_inode_to_disk, remove_inode,
}
use osep.Inodes.Lookup.{deref_front, find_inode-id}
use osep.Inodes.Read.{read_size, read_bytes, read_data}
use osep.Inodes.Write.{Stage, returns, write_inline, stages, finish, write_data}

-- The number of bytes that a read of `len` bytes returns.
abbrev pub inline_count : Inode → ℕ → ℕ → ℕ
inline_count node offset len = if leb offset node.size then min len (node.size - offset) else len

pub copy_start :
    (buf bytes : Buffer)
    → length bytes ≤ length buf
    → copy_to buf 0 bytes ≡ some (bytes ++ drop (length bytes) buf)
unfolding copy_to
copy_start buf bytes h = ground arith

read_size-inline :
    (node : Inode) (offset len : ℕ)
    → node.size < 2 ^ 64
    → offset + len ≤ 474
    → read_size node offset len ≡ inline_count node offset len
unfolding read_size
read_size-inline node offset len hs ho = ground arith

pub read_bytes-inline :
    (node : Inode) (offset n : ℕ) (s : Store)
    → node.storage_type ≡ storage_inline
    → offset + n ≤ length node.inline_data
    → read_bytes node offset n s ≡ some (take n (drop offset node.inline_data))
unfolding read_bytes copy_from
read_bytes-inline node offset n s e fit = ground arith

pub read_data_run :
    (id offset n : ℕ) (buf bytes out : Buffer) (k k1 : Kernel) (node : Inode)
    → get id k ≡ some k1
    → deref id k1 ≡ some node
    → read_size node offset (length buf) ≡ n
    → read_bytes node offset n k1.store ≡ some bytes
    → copy_to buf 0 bytes ≡ some out
    → read_data id offset buf k ≡ some ((n, out), k1)
unfolding read_data
read_data_run id offset n buf bytes out k k1 node e1 e2 e e3 e4 =
    rw e1 (rw e2 (rw e (rw e3 (rw e4 refl))))

copied :
    (n offset : ℕ) (buf field : Buffer)
    → offset + n ≤ length field
    → n ≤ length buf
    → copy_to buf 0 (take n (drop offset field)) ≡ some (take n (drop offset field) ++ drop n buf)
copied n offset buf field h1 h2 =
    let len : length (take n (drop offset field)) ≡ n =
      omega (arith, length-take n (drop offset field), length-drop offset field) in
    rw len at (copy_start buf (take n (drop offset field)) (omega (arith, len)))

module _ (id offset : ℕ) (k k1 : Kernel) (node : Inode) (got : get id k ≡ some k1)
    (at_node : deref id k1 ≡ some node) (inline : node.storage_type ≡ storage_inline)
    (full : length node.inline_data ≡ 474) (in_range : node.size < 2 ^ 64) where
  -- A read that stays within the field for data of an inode that keeps its data in itself: if it
  -- does not start behind the end of the file, it returns the bytes up to that end and leaves
  -- the rest of the buffer alone. Behind the end it returns as many bytes of the field as the
  -- buffer holds, not zero bytes.
  pub read_data-inline :
      (buf : Buffer)
      → offset + length buf ≤ 474
      → read_data id offset buf k
        ≡ some (
          (
            inline_count node offset (length buf),
            take (inline_count node offset (length buf)) (drop offset node.inline_data)
                ++ drop (inline_count node offset (length buf)) buf,
          ),
          k1,
        )
  read_data-inline buf fit =
      let n = inline_count node offset (length buf) in
      let small : n ≤ length buf = ground arith in
      read_data_run id offset n buf _ _ k k1 node got at_node
        (read_size-inline node offset (length buf) in_range fit)
        (read_bytes-inline node offset n k1.store inline (omega arith))
        (copied n offset buf node.inline_data (omega arith) small)

find_head :
    (id : ℕ) (x : InodeItem) (xs : List InodeItem)
    → (x.id == id) ≡ true
    → find_inode id (x ∷ xs) ≡ some x
unfolding find_inode
find_head id x xs e = rw e refl

update_head :
    (f : InodeItem → InodeItem) (id : ℕ) (x : InodeItem) (xs : List InodeItem)
    → (x.id == id) ≡ true
    → update_inode f id (x ∷ xs) ≡ f x ∷ xs
unfolding update_inode
update_head f id x xs e = rw e refl

found_updated :
    (f : InodeItem → InodeItem) (id : ℕ) (xs : List InodeItem) (x : InodeItem)
    → ((y : InodeItem) → (f y).id ≡ y.id)
    → find_inode id xs ≡ some x
    → find_inode id (update_inode f id xs) ≡ some (f x)
unfolding find_inode update_inode
found_updated f id [] x same h = absurd (ground arith)
found_updated f id (y ∷ ys) x same h = elim (Bool-cases (y.id == id)) [
  | inl e ↦
      let q : y ≡ x = ground arith in
      ap (find_inode id) (update_head f id y ys e)
      ∙ find_head id (f y) ys (ap (λ n. n == id) (same y) ∙ e)
      ∙ ap (λ z. some (f z)) q
  | inr e ↦
      let found : find_inode id ys ≡ some x = ground arith in
      rw e (rw e (found_updated f id ys x same found))
]

-- The inode after a write into it.
abbrev pub grown : Inode → ℕ → Buffer → Buffer → Inode
grown node offset bytes field = record node {
  inline_data = field;
  size = max node.size (offset + length bytes);
}

-- A write that fits into the field, as far as it returns.
write_inline_run :
    (id offset : ℕ) (bytes : Buffer) (node : Inode) (s : Store) (out : Stage)
    → offset + length bytes ≤ s.sb.inode_inline_data_size
    → s.sb.inode_inline_data_size < 2 ^ 64
    → write_inline id offset bytes node s ≡ some out
    → (field : Buffer) × (s' : Store) × (copy_to node.inline_data offset bytes ≡ some field)
      × (write_inode_to_disk id (grown node offset bytes field) s ≡ some s')
      × (out ≡ returns true (grown node offset bytes field) s')
unfolding write_inline
write_inline_run id offset bytes node s out fit small run =
    elim (Option-cases (copy_to node.inline_data offset bytes)) [
      | inl e ↦ absurd (ground arith)
      | inr (field, e) ↦
          elim (Option-cases (write_inode_to_disk id (grown node offset bytes field) s)) [
            | inl e1 ↦ absurd (ground arith)
            | inr (s', e1) ↦ (field, s', e, e1, ground arith)
          ]
    ]

stages_run :
    (id offset : ℕ) (bytes : Buffer) (node node' : Inode) (s s' : Store) (ok : Bool)
    → node.storage_type ≡ storage_inline
    → write_inline id offset bytes node s ≡ some (returns ok node' s')
    → stages id offset bytes node s ≡ some (returns ok node' s')
unfolding stages
stages_run id offset bytes node node' s s' ok e run = ground arith

-- `get` on a cached inode.
get_cached :
    (id : ℕ) (k : Kernel) (x : InodeItem)
    → find_inode id k.items ≡ some x
    → (k' : Kernel) × (get id k ≡ some k') × (deref id k' ≡ some x.node)
unfolding get
get_cached id k x e =
    let k' : Kernel = record k { items = x ∷ remove_inode id k.items } in
    (k', ground arith, deref_front id k' x _ (find_inode-id id k.items x e) refl)

pub deref_found :
    (id : ℕ) (k : Kernel) (node : Inode)
    → deref id k ≡ some node
    → (x : InodeItem) × (find_inode id k.items ≡ some x)
unfolding deref
deref_found id k node h = elim (Option-cases (find_inode id k.items)) [
  | inl e ↦ absurd (ground arith)
  | inr (x, e) ↦ (x, e)
]

-- A write that returns came through its stages.
stages_total :
    (id offset : ℕ) (bytes : Buffer) (k k1 k' : Kernel) (node : Inode) (ok : Bool)
    → get id k ≡ some k1
    → deref id k1 ≡ some node
    → 0 < length bytes
    → node.storage_type ≡ storage_inline
    → write_data id offset bytes k ≡ some (ok, k')
    → (out : Stage) × (write_inline id offset bytes node k1.store ≡ some out)
unfolding write_data stages
stages_total id offset bytes k k1 k' node ok e1 e2 pos e run =
    elim (Option-cases (write_inline id offset bytes node k1.store)) [
      | inl q ↦ absurd (ground arith)
      | inr (out, q) ↦ (out, q)
    ]

-- The cache after the write: the inode is there, dirty, with its new contents.
write_data_run :
    (id offset : ℕ) (bytes : Buffer) (k k1 k' : Kernel) (node node' : Inode) (s' : Store)
    (ok ok' : Bool)
    → get id k ≡ some k1
    → deref id k1 ≡ some node
    → 0 < length bytes
    → stages id offset bytes node k1.store ≡ some (returns ok' node' s')
    → write_data id offset bytes k ≡ some (ok, k')
    → (ok ≡ ok') × (k' ≡ set_node id node' (record (mark_dirty id k1) { store = s' }))
unfolding write_data finish
write_data_run id offset bytes k k1 k' node node' s' ok ok' e1 e2 pos e3 run = ground arith

node_set :
    (id : ℕ) (node' : Inode) (s' : Store) (k1 : Kernel) (x : InodeItem)
    → find_inode id k1.items ≡ some x
    → find_inode id (set_node id node' (record (mark_dirty id k1) { store = s' })).items
      ≡ some (record x { node = node'; dirty = true })
unfolding set_node mark_dirty
node_set id node' s' k1 x e =
    found_updated (λ y. record y { node = node' }) id _ _ (λ y. refl)
      (found_updated (λ y. record y { dirty = true }) id k1.items x (λ y. refl) e)

read_size-grown :
    (node : Inode) (offset : ℕ) (bytes field : Buffer) (len : ℕ)
    → node.size < 2 ^ 64
    → offset + length bytes ≤ 474
    → len ≡ length bytes
    → read_size (grown node offset bytes field) offset len ≡ length bytes
unfolding read_size
read_size-grown node offset bytes field len h1 h2 h3 = ground arith

read_back :
    (id offset : ℕ) (bytes buf field : Buffer) (k k2 : Kernel) (node : Inode)
    → get id k ≡ some k2
    → deref id k2 ≡ some (grown node offset bytes field)
    → node.storage_type ≡ storage_inline
    → length node.inline_data ≡ 474
    → node.size < 2 ^ 64
    → offset + length bytes ≤ 474
    → length buf ≡ length bytes
    → copy_to node.inline_data offset bytes ≡ some field
    → read_data id offset buf k ≡ some ((length bytes, bytes), k2)
unfolding copy_from
read_back id offset bytes buf field k k2 node e1 e2 inline full small fit len copy =
    let count : read_size (grown node offset bytes field) offset (length buf) ≡ length bytes =
      read_size-grown node offset bytes field (length buf) small fit len in
    let size : length field ≡ 474 =
      length-copy_to node.inline_data offset bytes field copy ∙ full in
    let there : take (length bytes) (drop offset field) ≡ bytes =
      ground (arith, copy_from-copy_to node.inline_data offset bytes field copy) in
    read_data_run id offset (length bytes) buf bytes bytes k k2 _ e1 e2 count
      (read_bytes-inline (grown node offset bytes field) offset (length bytes) k2.store inline
          (omega arith)
        ∙ ap some there)
      (copy_whole buf bytes len)

module _ (id offset : ℕ) (bytes : Buffer) (k k1 k' : Kernel) (node : Inode) (ok : Bool)
    (got : get id k ≡ some k1) (at_node : deref id k1 ≡ some node)
    (inline : node.storage_type ≡ storage_inline) (full : length node.inline_data ≡ 474)
    (in_range : node.size < 2 ^ 64) (pos : 0 < length bytes)
    (sizes : k1.store.sb.inode_inline_data_size ≡ 474) (fit : offset + length bytes ≤ 474) where
  -- The kernel after the write.
  pub write_data-written :
      write_data id offset bytes k ≡ some (ok, k')
      → (field : Buffer) × (s' : Store) × (copy_to node.inline_data offset bytes ≡ some field)
        × (write_inode_to_disk id (grown node offset bytes field) k1.store ≡ some s')
        × (ok ≡ true)
        × (k'
            ≡ set_node id
                (grown node offset bytes field)
                (record (mark_dirty id k1) { store = s' }))
  write_data-written run =
      let (out, first) = stages_total id offset bytes k k1 k' node ok got at_node pos inline run in
      let (field, s', copy, wrote, e) =
        write_inline_run id offset bytes node k1.store out (omega (arith, sizes))
          (omega (arith, sizes)) first in
      let through = stages_run id offset bytes node _ k1.store s' true inline (first ∙ ap some e) in
      let (good, after) =
        write_data_run id offset bytes k k1 k' node _ s' ok true got at_node pos through run in
      (field, s', copy, wrote, good, after)

  -- A write of at least one byte into an inode that keeps its data in itself, of bytes that fit
  -- into its field: if it returns, it returns true, and the inode stays in the cache, dirty,
  -- with the bytes in their place and a size that reaches to their end at least.
  pub write_data-inline :
      write_data id offset bytes k ≡ some (ok, k')
      → (ok ≡ true)
        × (field : Buffer) × (copy_to node.inline_data offset bytes ≡ some field)
        × (x : InodeItem) × (find_inode id k'.items ≡ some x)
        × (x.node ≡ grown node offset bytes field)
        × (x.dirty ≡ true)
  write_data-inline run =
      let (field, s', copy, wrote, good, after) = write_data-written run in
      let (x, found) = deref_found id k1 node at_node in
      (
        good,
        field,
        copy,
        record x { node = grown node offset bytes field; dirty = true },
        ap (λ c. find_inode id c.items) after ∙ node_set id _ s' k1 x found,
        refl,
        refl,
      )

  -- If `write_data` of at least one byte into an inode that keeps its data in itself, of bytes
  -- that fit into its field, returns, then a read of as many bytes at the same place succeeds
  -- and returns the bytes that were written.
  pub read_data-write_data :
      (buf : Buffer)
      → length buf ≡ length bytes
      → write_data id offset bytes k ≡ some (ok, k')
      → (k2 : Kernel) × (read_data id offset buf k' ≡ some ((length bytes, bytes), k2))
  read_data-write_data buf len run =
      let (good, field, copy, x, found, at_x, dirty) = write_data-inline run in
      let (k2, again, at_k2) = get_cached id k' x found in
      (
        k2,
        read_back id offset bytes buf field k' k2 node again (at_k2 ∙ ap some at_x) inline full
            in_range fit len copy,
      )
