-- ===== src/FileSys.antt =====
-- `FileSys` of include/FileSys.hpp: paths, and the files that are open. `fd_table` is an
-- association list, latest entry first. Log lines are left out.
pub mod Handles
pub mod Paths
pub mod Walk
pub mod Names
pub mod Format
pub mod Mount
use osep.Common.{
  ℕ, zero, suc, ◌+◌, ◌==◌, ◌>>=◌, Option, none, some, List, [], ◌∷◌, Bool, true, false,
  if◌then◌else◌, u64, length,
}
use osep.Common.Bytes.{Buffer}
use osep.Disk.{Geometry}
use osep.Layout.Inode.{Inode, type_file, type_directory}
use osep.Inodes.{Kernel, get_inode_info}
use osep.Inodes.Read.{read_data}
use osep.Inodes.Write.{write_data}
use osep.Inodes.Dirs.{find_inode_by_name}

pub record FileHandle : Type 0 where
  pub inode_id : ℕ
  pub offset : ℕ

pub record FileSys : Type 0 where
  pub disk : Geometry
  pub kernel : Kernel
  pub cur_fd : ℕ
  pub fd_table : List (ℕ × FileHandle)

-- `fd_table.find(fd)`
unfoldable pub find_handle : ℕ → List (ℕ × FileHandle) → Option FileHandle
find_handle fd [] = none
find_handle fd ((fd', h) ∷ hs) = if fd' == fd then some h else find_handle fd hs

-- `fd_table.erase(fd)`
unfoldable pub erase_handle : ℕ → List (ℕ × FileHandle) → List (ℕ × FileHandle)
erase_handle fd [] = []
erase_handle fd ((fd', h) ∷ hs) =
    if fd' == fd then erase_handle fd hs else (fd', h) ∷ erase_handle fd hs

-- `fd_table[fd] = h`
unfoldable pub set_handle : ℕ → FileHandle → List (ℕ × FileHandle) → List (ℕ × FileHandle)
unfolding erase_handle
set_handle fd h hs = (fd, h) ∷ erase_handle fd hs

-- The name before the first `/` of a path, and the path behind it.
unfoldable pub split_path : Buffer → Buffer × Buffer
split_path [] = ([], [])
split_path (c ∷ cs) =
    let (name, rest) = split_path cs in if c == b'/' then ([], cs) else (c ∷ name, rest)

-- The loop of `lookup_path`; each round takes one byte at least off the path.
unfoldable pub walk : ℕ → Buffer → ℕ → Kernel → Option (Option ℕ × Kernel)
unfolding split_path
walk fuel [] cur_node_id k = some (some cur_node_id, k)
walk zero (c ∷ cs) cur_node_id k = none
walk (suc fuel) (c ∷ cs) cur_node_id k = do
  let (name, rest) = split_path (c ∷ cs)
  (optid, k') ← find_inode_by_name cur_node_id name k
  elim optid [ none ↦ some (none, k') | some id ↦ walk fuel rest id k' ]

-- `lookup_path`. The first byte of an empty path is the zero behind it.
unfoldable pub lookup_path : Buffer → Kernel → Option (Option ℕ × Kernel)
unfolding walk
lookup_path [] k = some (none, k)
lookup_path (c ∷ cs) k =
    if c == b'/' then walk (length cs) cs k.store.sb.root_inode_id k else some (none, k)

-- `has_dir` and `has_file`, which ask for a kind of inode.
unfoldable pub has_type : ℕ → Buffer → FileSys → Option (Bool × FileSys)
unfolding lookup_path
has_type type path f = do
  (id?, k) ← lookup_path path f.kernel
  elim id? [
    | none ↦ some (false, record f { kernel = k })
    | some id ↦ do
      (node, k') ← get_inode_info id k
      some (node.file_type == type, record f { kernel = k' })
  ]

unfoldable pub has_dir : Buffer → FileSys → Option (Bool × FileSys)
unfolding has_type
has_dir path f = has_type type_directory path f

unfoldable pub has_file : Buffer → FileSys → Option (Bool × FileSys)
unfolding has_type
has_file path f = has_type type_file path f

-- `open`, of an inode that the path leads to.
unfoldable pub open_inode : ℕ → ℕ → FileSys → Option (Option ℕ × FileSys)
unfolding set_handle
open_inode id offset f = do
  (node, k) ← get_inode_info id f.kernel
  let handle : FileHandle = record { inode_id = id; offset = offset }
  let opened : FileSys = record f {
    kernel = k;
    cur_fd = u64 (f.cur_fd + 1);
    fd_table = set_handle f.cur_fd handle f.fd_table;
  }
  some (
      if node.file_type == type_file
      then (some f.cur_fd, opened)
      else (none, record f { kernel = k }))

unfoldable pub open_file : Buffer → ℕ → FileSys → Option (Option ℕ × FileSys)
unfolding lookup_path open_inode
open_file path offset f = do
  (id?, k) ← lookup_path path f.kernel
  elim id? [
    | none ↦ some (none, record f { kernel = k })
    | some id ↦ open_inode id offset (record f { kernel = k })
  ]

unfoldable pub close : ℕ → FileSys → FileSys
unfolding erase_handle
close fd f = record f { fd_table = erase_handle fd f.fd_table }

-- `handle.offset += n`
unfoldable pub advance : ℕ → FileHandle → ℕ → FileSys → FileSys
unfolding set_handle
advance fd h n f = record f {
  fd_table = set_handle fd (record h { offset = u64 (h.offset + n) }) f.fd_table;
}

unfoldable pub write : ℕ → Buffer → FileSys → Option (Bool × FileSys)
unfolding find_handle advance
write fd bytes f = elim (find_handle fd f.fd_table) [
  | none ↦ some (false, f)
  | some h ↦ do
    (success, k) ← write_data h.inode_id h.offset bytes f.kernel
    let f' : FileSys = record f { kernel = k }
    some (success, if success then advance fd h (length bytes) f' else f')
]

-- The number of bytes that `read` returns, and what the caller's buffer holds then.
unfoldable pub read : ℕ → Buffer → FileSys → Option ((ℕ × Buffer) × FileSys)
unfolding find_handle advance
read fd buffer f = elim (find_handle fd f.fd_table) [
  | none ↦ some ((0, buffer), f)
  | some h ↦ do
    ((size, buffer'), k) ← read_data h.inode_id h.offset buffer f.kernel
    some ((size, buffer'), advance fd h size (record f { kernel = k }))
]

unfoldable pub seek : ℕ → ℕ → FileSys → FileSys
unfolding find_handle set_handle
seek fd offset f = elim (find_handle fd f.fd_table) [
  | none ↦ f
  | some h ↦ record f { fd_table = set_handle fd (record h { offset = offset }) f.fd_table }
]
