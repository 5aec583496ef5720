-- ===== src/FileSys/Format.antt =====
-- `format`, and the constructor, of `FileSys` in include/FileSys.hpp.
use osep.Common.{ℕ, [], ◌>>=◌, Option, some, if◌then◌else◌}
use osep.Layout.{create_superblock, valid}
use osep.Layout.Inode.{type_directory}
use osep.Store.{Store, flush_super, read_super, clear_blocks}
use osep.Alloc.{reset_bitmap}
use osep.Inodes.{Kernel, clear_cache, flush}
use osep.Inodes.Bitmap.{allocate_inode, reset_inode_bitmap}
use osep.Inodes.Dirs.{add_diritem}
use osep.Disk.{Geometry}
use osep.FileSys.{FileSys}
use osep.FileSys.Paths.{dot, dot_dot}

abbrev pub set_root : ℕ → Kernel → Kernel
set_root id k = record k {
  store = record k.store { sb = record k.store.sb { root_inode_id = id } };
}

-- `value()` of a missing inode is an exception.
unfoldable pub create_root_dir : Kernel → Option Kernel
create_root_dir k = do
  (id?, k1) ← allocate_inode type_directory k
  id ← id?
  (_, k2) ← add_diritem id dot id (set_root id k1)
  (_, k3) ← add_diritem id dot_dot id k2
  some k3

-- The disk after the first half of `format`: all but the root directory.
unfoldable pub blank_store : Geometry → Store → Option Store
unfolding flush_super clear_blocks
blank_store g s = do
  let cleared = clear_blocks g s
  let fresh : Store = record cleared { sb = create_superblock g.disk_size_gb }
  s1 ← reset_bitmap (flush_super fresh)
  reset_inode_bitmap s1

unfoldable pub format : FileSys → Option FileSys
unfolding blank_store create_root_dir flush_super
format f = do
  store ← blank_store f.disk f.kernel.store
  k1 ← create_root_dir (record (clear_cache f.kernel) { store = store })
  k2 ← flush (record k1 { store = flush_super k1.store })
  some (record f { kernel = k2 })

-- The constructor, on the parts it has made: a disk without a valid super block is formatted.
unfoldable pub mount : FileSys → Option FileSys
unfolding format read_super
mount f = do
  let read : FileSys = record f { kernel = record f.kernel { store = read_super f.kernel.store } }
  if valid read.kernel.store.sb then some read else (do
    f1 ← format read
    some (record f1 { kernel = record f1.kernel { store = read_super f1.kernel.store } }))

-- The parts that the constructor makes, before the super block is read: nothing is cached, and
-- nothing is open.
unfoldable pub new_filesys : Geometry → Store → FileSys
new_filesys disk store = record {
  disk = disk;
  kernel = record { store = store; max_cache_size = 16384; items = [] };
  cur_fd = 0;
  fd_table = [];
}

-- The end of a `FileSys`: `~INodeTable` flushes the inodes, and then `~IOContext` the super block.
-- The blocks, which `~IOContext` and `~LRUCache` flush, are those of the store already.
unfoldable pub close_down : FileSys → Option FileSys
unfolding flush_super
close_down f = do
  k ← flush f.kernel
  some (record f { kernel = record k { store = flush_super k.store } })
