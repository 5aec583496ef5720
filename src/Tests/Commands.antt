-- ===== src/Tests/Commands.antt =====
-- The command line, and paths.
use osep.Common.{
  ℕ, ◌≡◌, ◌++◌, none, some, List, [], ◌∷◌, true, if◌then◌else◌, arith, refl, map, take, replicate,
  u64,
}
use osep.Common.Bytes.{Buffer, copy_to, copy_from}
use osep.Common.Text.{codes, str_eq, to_string, words}
use osep.Layout.{SuperBlock, create_superblock, valid}
use osep.Layout.Inode.{Inode, new_inode, encode_diritem, type_directory, DirItem}
use osep.Inodes.{Kernel, get, deref, get_inode_info}
use osep.Inodes.Entries.{entries, AllEntries, lookup_entry}
use osep.Inodes.Search.{find_inode_by_name-lookup_entry}
use osep.Inodes.Dirs.{find_inode_by_name}
use osep.Inodes.Read.{read_data}
use osep.Store.{fetch, Store, flush_super}
use osep.FileSys.{FileSys, lookup_path, has_file, open_file, find_handle, close}
use osep.FileSys.Format.{mount, new_filesys}
use osep.FileSys.Mount.{with_super, mount-flush_super}
use osep.Layout.SuperBytes.{InRange}
use osep.FileSys.Paths.{slash, path_join, is_rooted}
use osep.FileSys.Paths.Normal.{AllPlain}
use osep.FileSys.Paths.Places.{place_of}
use osep.FileSys.Walk.{follow, lookup_path-path_join}
use osep.Cli.{Cli, Message, file_content, str2unum}
use osep.Cli.Numbers.{all_digits, decimal, str2unum_lem, str2unum-to_string}
use osep.Cli.Commands.{run_cat, run_close, dotted}
use osep.Cli.Run.{run, returned, running}
use osep.Cli.Session.{state_of, has_exit, run-is_rooted, run-returned}
use osep.Cli.Idle.{IsSpent, questions, run-idle}
use osep.Cli.Show.{inline-Readable, run_cat-dotted}

str2unum_lem_example :
    str2unum (codes "12x")
    ≡ (if all_digits (codes "12x") then some (u64 (decimal (codes "12x"))) else none)
str2unum_lem_example = str2unum_lem (codes "12x")

str2unum-to_string_example : str2unum (to_string 1234) ≡ some 1234
str2unum-to_string_example = str2unum-to_string 1234 (omega arith)

abbrev super : SuperBlock
super = record (create_superblock 1) {
  inodes_per_block = 2;
  inode_block_start_lba = 2;
  inode_inline_data_size = 474;
  inode_size = 512;
  diritem_size = 64;
  root_inode_id = 0;
}

-- The root directory, with one file in it.
abbrev root_data : Buffer
root_data =
    encode_diritem (record { inode_id = 0; name = b'.' ∷ replicate 53 0 })
    ++ encode_diritem (record { inode_id = 4; name = b'a' ∷ replicate 53 0 })

abbrev root : Inode
root = record (new_inode 0 0) {
  file_type = type_directory;
  inline_data = root_data ++ replicate 346 0;
  size = 128;
}

abbrev file : Inode
file = record (new_inode 4 0) { inline_data = replicate 10 7 ++ replicate 464 0; size = 10 }

abbrev kernel : Kernel
kernel = record {
  store = record { sb = super; limit = 64; blocks = λ j. replicate 1024 0 };
  max_cache_size = 4;
  items =
      record { id = 4; node = file; dirty = true }
      ∷ record { id = 0; node = root; dirty = true }
      ∷ [];
}

abbrev cli : Cli
cli = record {
  cur_path = slash ∷ [];
  filesys = record {
    disk = record { disk_size_gb = 1; block_size = 1024 };
    kernel = kernel;
    cur_fd = 0;
    fd_table = [];
  };
}

place_test : place_of (codes "/b/e/") (codes "../a//./c") ≡ codes "b" ∷ codes "a" ∷ codes "c" ∷ []
unfolding place_of
place_test = refl

lookup_path-path_join_example :
    AllPlain (place_of (codes "/b") (codes "../a/./c"))
    × (lookup_path (path_join (codes "/b") (codes "../a/./c")) kernel
        ≡ follow (place_of (codes "/b") (codes "../a/./c")) kernel.store.sb.root_inode_id kernel)
unfolding is_rooted
lookup_path-path_join_example = lookup_path-path_join (codes "/b") (codes "../a/./c") kernel refl

abbrev script : List Buffer
script = codes "close 3" ∷ codes "exit" ∷ []

ran : (c : Cli) × (run 2 script [] cli ≡ some (returned [] c))
unfolding run words str_eq run_close str2unum
ran = (_, refl)

run-returned_example : has_exit script ≡ true
run-returned_example = run-returned 2 script [] [] cli ran.0 ran.1

run-is_rooted_example : is_rooted (state_of (returned [] ran.0)).cur_path ≡ true
unfolding is_rooted
run-is_rooted_example = run-is_rooted 2 script [] cli (returned [] ran.0) refl ran.1

abbrev unanswered : List Buffer
unanswered = codes "close 3" ∷ codes "format now" ∷ codes " " ∷ []

waits :
    (out : List Message) × (c : Cli) × (run 3 unanswered [] cli
      ≡ some (running (codes "format now" ∷ []) out c))
unfolding run words str_eq run_close str2unum
waits = (_, _, refl)

run-idle_example :
    IsSpent (codes "format now" ∷ [])
    × ((m : ℕ)
        → run m (codes "format now" ∷ []) waits.0 waits.1
          ≡ some (
              running
                (codes "format now" ∷ [])
                (waits.0 ++ questions m (codes "format now" ∷ []))
                waits.1))
run-idle_example =
    run-idle 3 unanswered (codes "format now" ∷ []) [] waits.0 cli waits.1 (omega arith) waits.2

there : (f : FileSys) × (has_file (path_join cli.cur_path (codes "a")) cli.filesys ≡ some (true, f))
unfolding has_file path_join get deref fetch copy_from new_inode encode_diritem find_inode_by_name
    read_data copy_to get_inode_info
there = (_, refl)

opened :
    (f : FileSys) × (open_file (path_join cli.cur_path (codes "a")) 0 there.0 ≡ some (some 0, f))
unfolding open_file path_join get deref fetch copy_from new_inode encode_diritem find_inode_by_name
    read_data copy_to get_inode_info there
opened = (_, refl)

abbrev shown_kernel : Kernel
shown_kernel = record kernel {
  items =
      record { id = 4; node = file; dirty = true }
      ∷ record { id = 0; node = root; dirty = true }
      ∷ [];
}

opened_kernel : opened.0.kernel ≡ shown_kernel
unfolding opened new_inode encode_diritem
opened_kernel = refl

cached : get 4 shown_kernel ≡ some shown_kernel
unfolding get
cached = refl

at_file : deref 4 shown_kernel ≡ some file
unfolding deref
at_file = refl

opened_handle : find_handle 0 opened.0.fd_table ≡ some (record { inode_id = 4; offset = 0 })
unfolding opened find_handle
opened_handle = refl

run_cat-dotted_example :
    (f2 : FileSys) × (run_cat (codes "a" ∷ []) cli
      ≡ some (
        file_content (map dotted (take 10 file.inline_data)) ∷ [],
        record cli { filesys = close 0 f2 },
      ))
    × (f2.kernel ≡ shown_kernel)
unfolding new_inode
run_cat-dotted_example =
    run_cat-dotted 4 shown_kernel file cached at_file (omega arith) (take 10 file.inline_data) refl
      (inline-Readable file shown_kernel refl refl (omega arith)) 0 (codes "a") [] cli there.0
      opened.0 there.1 opened.1 opened_kernel opened_handle

-- A disk that was formatted with 4 GB.
abbrev formatted : Store
formatted = record { sb = create_superblock 4; limit = 64; blocks = λ j. [] }

formatted-InRange : InRange formatted.sb
unfolding create_superblock
formatted-InRange = omega arith

formatted_valid : valid formatted.sb ≡ true
unfolding create_superblock valid
formatted_valid = refl

abbrev found_disk : FileSys
unfolding new_filesys
found_disk =
    new_filesys (record { disk_size_gb = 4; block_size = 16384 })
      (record { sb = super; limit = 262144; blocks = (flush_super formatted).blocks })

mount-flush_super_example : mount found_disk ≡ some (with_super (create_superblock 4) found_disk)
unfolding flush_super found_disk
mount-flush_super_example =
    mount-flush_super found_disk formatted formatted-InRange formatted_valid refl

abbrev listing : List DirItem
listing =
    record { inode_id = 0; name = b'.' ∷ replicate 53 0 }
    ∷ record { inode_id = 4; name = b'a' ∷ replicate 53 0 }
    ∷ []

listing-AllEntries : AllEntries listing
listing-AllEntries = (omega arith, refl, (omega arith, refl, tt))

abbrev root_kernel : Kernel
root_kernel = record kernel {
  items =
      record { id = 0; node = root; dirty = true }
      ∷ record { id = 4; node = file; dirty = true }
      ∷ [];
}

root_cached : get 0 root_kernel ≡ some root_kernel
unfolding get
root_cached = refl

at_root : deref 0 root_kernel ≡ some root
unfolding deref
at_root = refl

root_entries : take 128 root.inline_data ≡ entries listing
unfolding entries encode_diritem
root_entries = refl

find_inode_by_name-lookup_entry_example :
    find_inode_by_name 0 (codes "a") root_kernel
    ≡ some (lookup_entry (codes "a") listing, root_kernel)
unfolding new_inode encode_diritem
find_inode_by_name-lookup_entry_example =
    find_inode_by_name-lookup_entry 0 (codes "a") root_kernel root root_cached at_root refl refl
      (omega arith) refl listing listing-AllEntries root_entries
