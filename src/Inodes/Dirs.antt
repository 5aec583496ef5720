-- ===== src/Inodes/Dirs.antt =====
-- The directories of include/INodeTable.hpp: an inode whose data are entries of 64 bytes.
use osep.Common.{
  ℕ, zero, suc, ◌+◌, ◌-◌, ◌*◌, ◌==◌, ltb, Option, none, some, [], ◌∷◌, ◌++◌, Bool, true, false,
  ◌||◌, if◌then◌else◌, ◌>>=◌, u32, u16, sub64, sub32, min, length, take, drop, replicate,
}
use osep.Common.Bytes.{Buffer}
use osep.Common.Text.{str_eq}
use osep.Layout.Inode.{DirItem, encode_diritem, decode_diritem, c_string, type_directory}
use osep.Inodes.{Kernel, get, deref, set_node, mark_dirty, is_dir_empty}
use osep.Inodes.Read.{read_data}
use osep.Inodes.Write.{write_data}
use osep.Inodes.Bitmap.{free_inode}

-- The loop over the entries in a buffer, for at most `n` entries.
unfoldable pub find_entry : ℕ → ℕ → Buffer → Buffer → Option ℕ
unfolding str_eq c_string decode_diritem
find_entry zero diritem_size name buf = none
find_entry (suc n) diritem_size name buf =
    let rest = find_entry n diritem_size name (drop diritem_size buf) in
    let item = decode_diritem buf in
    if length buf == 0
    then none
    else if str_eq (c_string item.name) name
    then some item.inode_id
    else rest

-- The loop over the directory's data, 1024 entries at a time; an epoch takes one byte at least,
-- so that as many rounds as bytes are enough.
unfoldable pub find_epochs : ℕ → ℕ → ℕ → Buffer → Kernel → Option (Option ℕ × Kernel)
unfolding find_entry
find_epochs zero cur_offset dir name k = some (none, k)
find_epochs (suc fuel) cur_offset dir name k = do
  node ← deref dir k
  let step = 1024 * k.store.sb.diritem_size
  let epoch = (do
    let epoch_size = min step (node.size - cur_offset)
    ((size, buf), k') ← read_data dir cur_offset (replicate epoch_size 0) k
    let items = take size buf
    elim (find_entry (length items) k.store.sb.diritem_size name items) [
      | some id ↦ some (some id, k')
      | none ↦ find_epochs fuel (cur_offset + step) dir name k'
    ])
  if ltb cur_offset node.size then epoch else some (none, k)

unfoldable pub find_inode_by_name : ℕ → Buffer → Kernel → Option (Option ℕ × Kernel)
unfolding find_epochs
find_inode_by_name dir name k = do
  k1 ← get dir k
  node ← deref dir k1
  find_epochs node.size 0 dir name k1

-- The entry that `add_diritem` writes: the name cut to the field, with a zero behind it.
unfoldable pub new_diritem : ℕ → Buffer → ℕ → DirItem
new_diritem filename_size name to =
    let name_size = u16 (min (sub64 filename_size 1) (length name)) in
    record { inode_id = to; name = take name_size name ++ replicate (54 - name_size) 0 }

unfoldable pub add_link : ℕ → ℕ → Kernel → Option Kernel
add_link id to k = if id == to then some k else (do
  k1 ← get to k
  node ← deref to k1
  some (set_node to (record node { link_cnt = u32 (node.link_cnt + 1) }) k1))

-- `add_diritem`: what `write_data` returns is not looked at.
unfoldable pub add_diritem : ℕ → Buffer → ℕ → Kernel → Option (Bool × Kernel)
unfolding find_inode_by_name new_diritem add_link
add_diritem id name to k = do
  k1 ← get id k
  node ← deref id k1
  let item = new_diritem k1.store.sb.filename_size name to
  let add = (do
    (found, k2) ← find_inode_by_name id (c_string item.name) k1
    elim found [
      | some _ ↦ some (false, k2)
      | none ↦ do
        node2 ← deref id k2
        (_, k3) ← write_data id node2.size (encode_diritem item) k2
        k4 ← get id k3
        k5 ← add_link id to (mark_dirty id k4)
        some (true, k5)
    ])
  if node.file_type == type_directory then add else some (false, k1)

-- The last entry takes the place of the one at offset `i`, and the directory is shorter.
unfoldable pub drop_entry : ℕ → ℕ → Buffer → Kernel → Option Kernel
drop_entry id i buf k = do
  node ← deref id k
  ((_, buf'), k1) ← read_data id (sub64 node.size k.store.sb.diritem_size) buf k
  (_, k2) ← write_data id i buf' k1
  node2 ← deref id k2
  k3 ← get id (set_node id (record node2 { size = sub64 node2.size k.store.sb.diritem_size }) k2)
  some (mark_dirty id k3)

-- The entry was found: a directory that is not empty stays; a link less, and without links the
-- inode is freed.
unfoldable pub remove_found : ℕ → ℕ → DirItem → Buffer → Kernel → Option (Bool × Kernel)
unfolding drop_entry
remove_found id i item buf k = do
  k1 ← get item.inode_id k
  node ← deref item.inode_id k1
  (empty, k2) ←
      if node.file_type == type_directory then is_dir_empty item.inode_id k1 else some (true, k1)
  let links = sub32 node.link_cnt 1
  let k3 = set_node item.inode_id (record node { link_cnt = links }) k2
  let finish = (do
    k4 ← if links == 0 then free_inode item.inode_id k3 else some k3
    k5 ← drop_entry id i buf k4
    some (true, k5))
  if empty then finish else some (false, k2)

-- The loop of `remove_diritem`, from offset `i` on.
unfoldable pub remove_loop : ℕ → ℕ → ℕ → Buffer → Buffer → Kernel → Option (Bool × Kernel)
unfolding remove_found
remove_loop zero i id name buf k = some (false, k)
remove_loop (suc fuel) i id name buf k = do
  node ← deref id k
  let round = (do
    ((_, buf'), k1) ← read_data id i buf k
    let item = decode_diritem buf'
    let rest = remove_loop fuel (i + k1.store.sb.diritem_size) id name buf' k1
    if str_eq (c_string item.name) name then remove_found id i item buf' k1 else rest)
  if ltb i node.size then round else some (false, k)

unfoldable pub remove_diritem : ℕ → Buffer → Kernel → Option (Bool × Kernel)
unfolding remove_loop
remove_diritem id name k =
    if str_eq name (b'.' ∷ []) || str_eq name (b'.' ∷ b'.' ∷ []) then some (false, k) else (do
      k1 ← get id k
      node ← deref id k1
      remove_loop node.size 0 id name (replicate k1.store.sb.diritem_size 0) k1)
