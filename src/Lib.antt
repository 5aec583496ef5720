-- ===== src/Lib.antt =====
-- A file system on a virtual disk, in C++ (include/): a disk of fixed-size blocks in a host file, a
-- cache of blocks before it, a bitmap of used blocks, B+ trees of the blocks of a file, a table of
-- inodes with directories, calls on paths and descriptors, and a command line. Each part is modelled
-- by the file named after it, as functions from the source's statements, with the state passed on and
-- `none` for an exception or undefined behaviour (a null pointer, a copy past a buffer):
--
-- - Layout: include/macros.hpp, include/SuperBlock.hpp, include/INode.hpp and `DirItem` of
--   include/INodeTable.hpp: `create_superblock`, and the bytes of the records, little-endian as on
--   the machines that the program is for. Padding bytes are zero.
-- - Cache: `LRUCache` of include/LRUCache.hpp: `get`, `get_mut`, `access`, `evict`, `flush_all`,
--   `clear`, `remove` over a backend that is a parameter. A shared pointer that a caller holds is a
--   count of users of the item.
-- - Disk: include/IDisk.hpp and include/FileDisk.hpp: the constructor, `clear`, `read_block`,
--   `write_block` on the bytes of the host file. Operations of the file stream do not fail.
-- - Io: include/IOContext.hpp, the cache over the disk and the super block.
-- - Store: what the layers above see of it, an array of blocks. `Store.Refines` relates the two, so that
--   the layers above are modelled on `fetch` and `put`.
-- - Alloc: include/BlockAllocator.hpp: `allocate_block`, `free_block`, `reset_bitmap`.
-- - Tree: include/BPTree.hpp over a storage that is a parameter; Indexer: include/BlockIndexer.hpp, the
--   tree on blocks. A tree has at most 16 levels there: with 511 children at least to an inner node
--   below the root, nine levels hold more blocks than a 64-bit word numbers.
-- - Inodes: `INodeTable` of include/INodeTable.hpp: its cache, the inode bitmap, `read_data`,
--   `write_data` and the directories. A pointer to a cached inode is the inode's number. A round of
--   the loop of `write_data` writes a byte at least, and a round of the loops over a directory takes one
--   off it, so that as many rounds as bytes are enough.
-- - FileSys: include/FileSys.hpp: calls on descriptors and the resolution of paths, where a round takes a
--   byte off the path. FileSys.Paths: what the program uses of std::filesystem::path, for POSIX paths.
--   FileSys.Names: `create_dir`, `create_file`, `remove_dir`, `remove_file`, `list_directory`.
--   FileSys.Format: `format`, the constructor (`new_filesys` makes the parts, `mount` does the rest), and
--   what the destructors flush (`close_down`). FileSys.Paths.Places: the place that a path leads to, a
--   specification that is independent of `path_join`.
-- - Cli: `CLI` of include/CLI.hpp: `path_join`, `str2unum`, each command, and the loop `run` over the lines
--   of the input, for a number of rounds; and `main` of src/cli.cpp, with the flush at its end. What is printed is a list of
--   messages. The loop of `cat` has 2 ^ 64 rounds, since each but the last moves a 64-bit offset on.
-- - Common: lists, words, bits and bytes over the native numbers. Tests: the theorems at inputs.
--
-- Not modelled: log lines and the texts of messages; `get_disk_info`, which prints counters and
-- percentages of them; the closing and flushing of the host file; include/Fnv1aHash.hpp, which
-- no file uses. One thread uses the file system.
pub mod Common
pub mod Layout
pub mod Cache
pub mod Disk
pub mod Io
pub mod Store
pub mod Alloc
pub mod Tree
pub mod Indexer
pub mod Inodes
pub mod FileSys
pub mod Cli
pub mod Tests
