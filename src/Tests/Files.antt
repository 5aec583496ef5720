-- ===== src/Tests/Files.antt =====
-- Inodes with their data in themselves, and the descriptors of open files.
use osep.Common.{
  ℕ, ◌≡◌, ◌==◌, ◌&&◌, ◌++◌, none, some, [], ◌∷◌, true, false, if◌then◌else◌, arith, refl, replicate,
  take, drop,
}
use osep.Common.Bytes.{Buffer, copy_to, copy_from}
use osep.Layout.{SuperBlock, create_superblock}
use osep.Layout.Inode.{Inode, new_inode, encode_inode}
use osep.Store.{fetch}
use osep.Inodes.{InodeItem, Kernel, find_inode, get, deref, get_inode_info}
use osep.Inodes.Read.{read_data}
use osep.Inodes.Write.{write_data}
use osep.Inodes.Inline.{
  inline_count, grown, read_data-inline, write_data-inline, read_data-write_data,
}
use osep.FileSys.{FileSys, find_handle, open_inode, write, read}
use osep.FileSys.Handles.{
  IsFresh, new_handle, is_new, moved, open_inode-IsFresh, write-find_handle, read-find_handle,
}

abbrev super : SuperBlock
super = record (create_superblock 1) {
  inodes_per_block = 1;
  inode_block_start_lba = 2;
  inode_inline_data_size = 474;
  inode_size = 512;
}

-- A file of ten bytes.
abbrev file : Inode
file = record (new_inode 4 0) { inline_data = replicate 10 7 ++ replicate 464 0; size = 10 }

abbrev item : InodeItem
item = record { id = 4; node = file; dirty = false }

abbrev other : InodeItem
other = record { id = 3; node = new_inode 3 0; dirty = false }

abbrev kernel : Kernel
kernel = record {
  store = record { sb = super; limit = 64; blocks = λ j. replicate 512 0 };
  max_cache_size = 2;
  items = other ∷ item ∷ [];
}

abbrev got_kernel : Kernel
got_kernel = record kernel { items = item ∷ other ∷ [] }

got : get 4 kernel ≡ some got_kernel
unfolding get
got = refl

at_file : deref 4 got_kernel ≡ some file
unfolding deref
at_file = refl

abbrev buffer : Buffer
buffer = 0 ∷ 0 ∷ 0 ∷ []

read_data-inline_example :
    read_data 4 12 buffer kernel
    ≡ some (
      (
        inline_count file 12 3,
        take (inline_count file 12 3) (drop 12 file.inline_data)
            ++ drop (inline_count file 12 3) buffer,
      ),
      got_kernel,
    )
unfolding new_inode
read_data-inline_example =
    read_data-inline 4 12 kernel got_kernel file got at_file refl refl (omega arith) buffer
      (omega arith)

abbrev bytes : Buffer
bytes = 5 ∷ 6 ∷ 7 ∷ []

written : (k : Kernel) × (write_data 4 9 bytes kernel ≡ some (true, k))
unfolding write_data get deref new_inode copy_to fetch encode_inode
written = (_, refl)

write_data-inline_example :
    (true ≡ true)
    × (field : Buffer) × (copy_to file.inline_data 9 bytes ≡ some field)
    × (x : InodeItem) × (find_inode 4 written.0.items ≡ some x)
    × (x.node ≡ grown file 9 bytes field)
    × (x.dirty ≡ true)
unfolding new_inode create_superblock
write_data-inline_example =
    write_data-inline 4 9 bytes kernel got_kernel written.0 file true got at_file refl refl
      (omega arith) (omega arith) refl (omega arith) written.1

read_data-write_data_example :
    (k2 : Kernel) × (read_data 4 9 buffer written.0 ≡ some ((3, bytes), k2))
unfolding new_inode create_superblock
read_data-write_data_example =
    read_data-write_data 4 9 bytes kernel got_kernel written.0 file true got at_file refl refl
      (omega arith) (omega arith) refl (omega arith) buffer refl written.1

-- One open file, at its third byte.
abbrev files : FileSys
files = record {
  disk = record { disk_size_gb = 1; block_size = 16384 };
  kernel = kernel;
  cur_fd = 1;
  fd_table = (0, new_handle 4 2) ∷ [];
}

files-IsFresh : IsFresh files
unfolding IsFresh find_handle
files-IsFresh j h = ground arith

abbrev opened_files : FileSys
opened_files = record {
  disk = record { disk_size_gb = 1; block_size = 16384 };
  kernel = got_kernel;
  cur_fd = 2;
  fd_table = (1, new_handle 4 0) ∷ (0, new_handle 4 2) ∷ [];
}

opened : open_inode 4 0 files ≡ some (some 1, opened_files)
unfolding open_inode get_inode_info new_inode
opened = refl

open_inode-IsFresh_example :
    IsFresh opened_files
    × ((j : ℕ)
        → find_handle j opened_files.fd_table
          ≡ (if is_new (some 1) j then some (new_handle 4 0) else find_handle j files.fd_table))
    × ((j : ℕ) → is_new (some 1) j ≡ true → find_handle j files.fd_table ≡ none)
open_inode-IsFresh_example =
    open_inode-IsFresh 4 0 files (some 1) opened_files (omega arith) files-IsFresh opened

wrote : (f : FileSys) × (write 0 bytes files ≡ some (true, f))
unfolding write write_data get deref new_inode copy_to fetch encode_inode
wrote = (_, refl)

write-find_handle_example :
    (find_handle 0 wrote.0.fd_table ≡ (
      if (0 == 0) && true
      then moved 3 (find_handle 0 files.fd_table)
      else find_handle 0 files.fd_table))
    × (find_handle 0 files.fd_table ≡ none → (true ≡ false) × (wrote.0 ≡ files))
write-find_handle_example = write-find_handle 0 0 bytes files true wrote.0 wrote.1

abbrev bytes_read : ℕ
bytes_read = 3

was_read : (f : FileSys) × (read 0 buffer files ≡ some ((3, 7 ∷ 7 ∷ 7 ∷ []), f))
unfolding read read_data get deref new_inode copy_from copy_to
was_read = (_, refl)

read-find_handle_example :
    (find_handle 0 was_read.0.fd_table
      ≡ (if 0 == 0 then moved 3 (find_handle 0 files.fd_table) else find_handle 0 files.fd_table))
    × (find_handle 0 files.fd_table ≡ none
        → (bytes_read ≡ 0) × (7 ∷ 7 ∷ 7 ∷ [] ≡ buffer) × (was_read.0 ≡ files))
read-find_handle_example =
    read-find_handle 0 0 buffer files 3 (7 ∷ 7 ∷ 7 ∷ []) was_read.0 was_read.1
