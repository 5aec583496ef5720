-- ===== src/FileSys/Names.antt =====
-- The calls of include/FileSys.hpp that create, remove and list files and directories.
use osep.Common.{
  ℕ, zero, suc, ◌+◌, ◌*◌, ◌==◌, ltb, ◌||◌, ◌&&◌, ◌>>=◌, Option, none, some, List, [], ◌∷◌, ◌++◌,
  Bool, false, if◌then◌else◌, length, take, drop, replicate,
}
use osep.Common.Bytes.{Buffer}
use osep.Common.Text.{str_eq}
use osep.Layout.Inode.{decode_diritem, c_string, type_file, type_directory}
use osep.Inodes.{Kernel, get_inode_info}
use osep.Inodes.Bitmap.{allocate_inode, free_inode}
use osep.Inodes.Read.{read_data}
use osep.Inodes.Dirs.{find_inode_by_name, add_diritem, remove_diritem}
use osep.FileSys.{FileSys, lookup_path, has_file}
use osep.FileSys.Paths.{is_empty, slash, dot, dot_dot, filename, parent_path, has_relative_path}

-- The name that a path to be created ends in, and the path of its directory.
unfoldable pub target_of : Buffer → Buffer × Buffer
unfolding filename parent_path has_relative_path is_empty
target_of path_str =
    let path =
      if has_relative_path path_str && is_empty (filename path_str)
      then parent_path path_str
      else path_str in
    (filename path, parent_path path)

-- The end of `create_dir` and `create_file`: the new inode's entry in its directory.
unfoldable pub enter_inode : ℕ → Buffer → ℕ → Kernel → Option (Bool × Kernel)
enter_inode parent_id name new_inode_id k = do
  (added, k1) ← add_diritem parent_id name new_inode_id k
  k2 ← if added then some k1 else free_inode new_inode_id k1
  some (added, k2)

-- `create_dir` from the allocation on.
unfoldable pub new_dir : ℕ → Buffer → Kernel → Option (Bool × Kernel)
unfolding enter_inode
new_dir parent_id name k = do
  (id?, k1) ← allocate_inode type_directory k
  elim id? [
    | none ↦ some (false, k1)
    | some new_inode_id ↦ do
      (_, k2) ← add_diritem new_inode_id dot new_inode_id k1
      (_, k3) ← add_diritem new_inode_id dot_dot parent_id k2
      enter_inode parent_id name new_inode_id k3
  ]

-- `create_file` from the allocation on.
unfoldable pub new_file : ℕ → Buffer → Kernel → Option (Bool × Kernel)
unfolding enter_inode
new_file parent_id name k = do
  (id?, k1) ← allocate_inode type_file k
  elim id? [
    | none ↦ some (false, k1)
    | some new_inode_id ↦ enter_inode parent_id name new_inode_id k1
  ]

-- What both do before it: the directory is looked up, and must not have the name.
unfoldable pub create_in :
    (ℕ → Buffer → Kernel → Option (Bool × Kernel))
    → Buffer
    → Buffer
    → Kernel
    → Option (Bool × Kernel)
create_in create parent name k = do
  (parent_id?, k1) ← lookup_path parent k
  elim parent_id? [
    | none ↦ some (false, k1)
    | some parent_id ↦ do
      (found, k2) ← find_inode_by_name parent_id name k1
      elim found [ some _ ↦ some (false, k2) | none ↦ create parent_id name k2 ]
  ]

unfoldable pub create_dir : Buffer → FileSys → Option (Bool × FileSys)
unfolding target_of create_in new_dir is_empty str_eq
create_dir path_str f =
    let (name, parent) = target_of path_str in
    if is_empty name || str_eq path_str (slash ∷ []) then some (false, f) else (do
      (done, k) ← create_in new_dir parent name f.kernel
      some (done, record f { kernel = k }))

unfoldable pub create_file : Buffer → FileSys → Option (Bool × FileSys)
unfolding target_of create_in new_file is_empty
create_file path_str f =
    let (name, parent) = target_of path_str in
    if is_empty name then some (false, f) else (do
      (done, k) ← create_in new_file parent name f.kernel
      some (done, record f { kernel = k }))

-- What `remove_file` and `remove_dir` end in.
unfoldable pub remove_at : Buffer → FileSys → Option (Bool × FileSys)
unfolding filename parent_path
remove_at path f = do
  (parent_id?, k) ← lookup_path (parent_path path) f.kernel
  elim parent_id? [
    | none ↦ some (false, record f { kernel = k })
    | some parent_id ↦ do
      (done, k') ← remove_diritem parent_id (filename path) k
      some (done, record f { kernel = k' })
  ]

unfoldable pub remove_file : Buffer → FileSys → Option (Bool × FileSys)
unfolding remove_at
remove_file path_str f = do
  (there, f') ← has_file path_str f
  if there then remove_at path_str f' else some (false, f')

-- A path without one separator at its end.
unfoldable pub chop_slash : Buffer → Buffer
chop_slash [] = []
chop_slash (c ∷ []) = if c == slash then [] else c ∷ []
chop_slash (c ∷ (d ∷ cs)) = c ∷ chop_slash (d ∷ cs)

unfoldable pub remove_dir : Buffer → FileSys → Option (Bool × FileSys)
unfolding remove_at chop_slash is_empty
remove_dir path_str f =
    if is_empty path_str then some (false, f) else remove_at (chop_slash path_str) f

-- What `list_directory` prints: a line for each entry, and a blank line behind each epoch.
pub data Listing : Type 0 where
  entry : ℕ → ℕ → Buffer → Listing
  blank : Listing

-- The loop over the entries in a buffer, for at most `n` of them.
unfoldable pub list_entries : ℕ → ℕ → Buffer → Kernel → Option (List Listing × Kernel)
unfolding decode_diritem c_string
list_entries zero diritem_size buf k = some (blank ∷ [], k)
list_entries (suc n) diritem_size buf k =
    let more = (do
      let item = decode_diritem buf
      (node, k1) ← get_inode_info item.inode_id k
      (rest, k2) ← list_entries n diritem_size (drop diritem_size buf) k1
      some (entry item.inode_id node.size (c_string item.name) ∷ rest, k2)) in
    if length buf == 0 then some (blank ∷ [], k) else more

-- The loop over the data, 1024 entries at a time; as many rounds as bytes are enough. The size is
-- that of the inode when the listing began.
unfoldable pub list_epochs : ℕ → ℕ → ℕ → ℕ → Kernel → Option (List Listing × Kernel)
unfolding list_entries
list_epochs zero offset size id k = some ([], k)
list_epochs (suc fuel) offset size id k =
    let epoch = (do
      let step = 1024 * k.store.sb.diritem_size
      ((got, buf), k1) ← read_data id offset (replicate step 0) k
      let items = take got buf
      (lines, k2) ← list_entries (length items) k1.store.sb.diritem_size items k1
      (rest, k3) ← list_epochs fuel (offset + step) size id k2
      some (lines ++ rest, k3)) in
    if ltb offset size then epoch else some ([], k)

unfoldable pub list_directory : Buffer → FileSys → Option (List Listing × FileSys)
unfolding list_epochs
list_directory path f = do
  (id?, k) ← lookup_path path f.kernel
  elim id? [
    | none ↦ some ([], record f { kernel = k })
    | some id ↦ do
      (node, k1) ← get_inode_info id k
      (lines, k2) ← list_epochs node.size 0 node.size id k1
      some (lines, record f { kernel = k2 })
  ]
