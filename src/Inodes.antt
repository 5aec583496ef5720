-- ===== src/Inodes.antt =====
-- `INodeTable` of include/INodeTable.hpp: its state, the cache of inodes and their place on the
-- disk. An `INode *` into the cache is the inode's number, read by `deref` as long as the inode
-- is cached. Log lines are left out.
pub mod Lookup
pub mod Inline
pub mod Entries
pub mod Bitmap
pub mod Read
pub mod Write
pub mod Dirs
pub mod Table
pub mod Coherence
pub mod Views
pub mod Shows
pub mod Saved
pub mod Search
use osep.Common.{
  ℕ, suc, ◌+◌, ◌-◌, ◌*◌, ◌/◌, ◌%◌, ◌==◌, ltb, Option, none, some, List, [], ◌∷◌, Bool, true, false,
  if◌then◌else◌, ◌>>=◌, u64, length,
}
use osep.Common.Bytes.{Buffer, copy_to, copy_from}
use osep.Layout.Inode.{Inode, encode_inode, decode_inode}
use osep.Store.{Store, fetch, put}

pub record InodeItem : Type 0 where
  pub id : ℕ
  pub node : Inode
  pub dirty : Bool

-- The blocks below, and the cache, most recently used first.
pub record Kernel : Type 0 where
  pub store : Store
  pub max_cache_size : ℕ
  pub items : List InodeItem

-- `cache_mp`, and the list operations at the item that it names.
unfoldable pub find_inode : ℕ → List InodeItem → Option InodeItem
find_inode id [] = none
find_inode id (x ∷ xs) = if x.id == id then some x else find_inode id xs

unfoldable pub remove_inode : ℕ → List InodeItem → List InodeItem
remove_inode id [] = []
remove_inode id (x ∷ xs) = if x.id == id then xs else x ∷ remove_inode id xs

unfoldable pub update_inode : (InodeItem → InodeItem) → ℕ → List InodeItem → List InodeItem
update_inode f id [] = []
update_inode f id (x ∷ xs) = if x.id == id then f x ∷ xs else x ∷ update_inode f id xs

-- `back()` and the list without it.
unfoldable pub split_back : List InodeItem → Option (InodeItem × List InodeItem)
split_back [] = none
split_back (x ∷ xs) = elim (split_back xs) [
  | none ↦ some (x, [])
  | some (y, rest) ↦ some (y, x ∷ rest)
]

unfoldable pub get_inode_from_disk : ℕ → Store → Option Inode
get_inode_from_disk id s = do
  buf ← fetch (u64 (id / s.sb.inodes_per_block + s.sb.inode_block_start_lba)) s
  bytes ← copy_from buf (id % s.sb.inodes_per_block * s.sb.inode_size) s.sb.inode_size
  some (decode_inode bytes)

unfoldable pub write_inode_to_disk : ℕ → Inode → Store → Option Store
write_inode_to_disk id node s = do
  let lba = u64 (id / s.sb.inodes_per_block + s.sb.inode_block_start_lba)
  buf ← fetch lba s
  buf' ← copy_to buf (id % s.sb.inodes_per_block * s.sb.inode_size) (encode_inode node)
  some (put lba buf' s)

-- The cache with an inode read from the disk at its front.
unfoldable pub load_front : ℕ → Kernel → Option Kernel
unfolding get_inode_from_disk
load_front id k = do
  node ← get_inode_from_disk id k.store
  some (record k { items = record { id = id; node = node; dirty = false } ∷ k.items })

-- The eviction in `get`.
unfoldable pub evict_back : Kernel → Option Kernel
unfolding split_back write_inode_to_disk
evict_back k = do
  (old, rest) ← split_back k.items
  store ← if old.dirty then write_inode_to_disk old.id old.node k.store else some k.store
  some (record k { store = store; items = rest })

-- `get`: the inode is at the front of the cache afterwards.
unfoldable pub get : ℕ → Kernel → Option Kernel
unfolding find_inode remove_inode load_front evict_back
get id k = elim (find_inode id k.items) [
  | some x ↦ some (record k { items = x ∷ remove_inode id k.items })
  | none ↦
      if ltb (length k.items) k.max_cache_size
      then load_front id k
      else (do k' ← evict_back k; load_front id k')
]

-- A read through a pointer to a cached inode, and writes through one.
unfoldable pub deref : ℕ → Kernel → Option Inode
unfolding find_inode
deref id k = do x ← find_inode id k.items; some x.node

unfoldable pub set_node : ℕ → Inode → Kernel → Kernel
unfolding update_inode
set_node id node k = record k {
  items = update_inode (λ (x : InodeItem). record x { node = node }) id k.items;
}

unfoldable pub mark_dirty : ℕ → Kernel → Kernel
unfolding update_inode
mark_dirty id k = record k {
  items = update_inode (λ (x : InodeItem). record x { dirty = true }) id k.items;
}

unfoldable pub get_inode_info : ℕ → Kernel → Option (Inode × Kernel)
unfolding get deref
get_inode_info id k = do k' ← get id k; node ← deref id k'; some (node, k')

unfoldable pub is_dir_empty : ℕ → Kernel → Option (Bool × Kernel)
unfolding get_inode_info
is_dir_empty id k = do
  (node, k') ← get_inode_info id k
  some (node.size == 2 * k'.store.sb.diritem_size, k')

-- The loop of `flush`.
unfoldable pub flush_inodes : List InodeItem → Store → Option Store
unfolding write_inode_to_disk
flush_inodes [] s = some s
flush_inodes (x ∷ xs) s = do
  s' ← if x.dirty then write_inode_to_disk x.id x.node s else some s
  flush_inodes xs s'

unfoldable pub clear_cache : Kernel → Kernel
clear_cache k = record k { items = [] }

unfoldable pub flush : Kernel → Option Kernel
unfolding flush_inodes clear_cache
flush k = do store ← flush_inodes k.items k.store; some (clear_cache (record k { store = store }))
