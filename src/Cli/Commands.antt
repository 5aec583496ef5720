-- ===== src/Cli/Commands.antt =====
-- The commands of include/CLI.hpp on paths and descriptors, each with the words behind its name.
use osep.Common.{
  ℕ, zero, suc, ◌^◌, ◌==◌, ltb, ◌>>=◌, Option, none, some, List, [], ◌∷◌, ◌++◌, if◌then◌else◌,
  length, take, drop, replicate, map,
}
use osep.Common.Bytes.{Buffer}
use osep.Common.Text.{codes}
use osep.FileSys.{FileSys, has_dir, has_file, open_file, close, read, write, seek}
use osep.FileSys.Names.{create_dir, create_file, remove_file, remove_dir, list_directory}
use osep.FileSys.Paths.{slash, path_join}
use osep.Cli.{
  Cli, open_failed, invalid_arguments, invalid_fd, empty_or_eof, usage, file_removed,
  file_not_removed, dir_removed, dir_not_removed, dir_not_found, file_not_found, content,
  file_content, descriptor, written, seeked, listing, str2unum, Reply, says,
}

unfoldable pub run_ls : List Buffer → Cli → Reply
run_ls [] c = do (lines, f) ← list_directory c.cur_path c.filesys; says (listing lines ∷ []) c f
run_ls (path ∷ []) c = do
  (lines, f) ← list_directory (path_join c.cur_path path) c.filesys
  says (listing lines ∷ []) c f
run_ls (path ∷ (arg ∷ args)) c = some ([], c)

unfoldable pub run_mkdir : List Buffer → Cli → Reply
run_mkdir (path ∷ []) c = do (_, f) ← create_dir (path_join c.cur_path path) c.filesys; says [] c f
run_mkdir _ c = some ([], c)

unfoldable pub run_touch : List Buffer → Cli → Reply
run_touch (path ∷ []) c = do (_, f) ← create_file (path_join c.cur_path path) c.filesys; says [] c f
run_touch _ c = some ([], c)

unfoldable pub run_rm : List Buffer → Cli → Reply
run_rm (path ∷ []) c = do
  (done, f) ← remove_file (path_join c.cur_path path) c.filesys
  says ((if done then file_removed path else file_not_removed path) ∷ []) c f
run_rm _ c = some (usage (codes "rm") ∷ [], c)

unfoldable pub run_rmdir : List Buffer → Cli → Reply
run_rmdir (path ∷ []) c = do
  (done, f) ← remove_dir (path_join c.cur_path path) c.filesys
  says ((if done then dir_removed path else dir_not_removed path) ∷ []) c f
run_rmdir _ c = some (usage (codes "rmdir") ∷ [], c)

unfoldable pub run_cd : List Buffer → Cli → Reply
run_cd [] c = some ([], record c { cur_path = slash ∷ [] })
run_cd (path ∷ []) c = do
  let new_path = path_join c.cur_path path
  (there, f) ← has_dir new_path c.filesys
  let c' : Cli = record c { filesys = f }
  some
      (if there then ([], record c' { cur_path = new_path }) else (dir_not_found new_path ∷ [], c'))
run_cd (path ∷ (arg ∷ args)) c = some ([], c)

-- The offset of `open`: only a third word that is a number counts.
abbrev pub offset_of : List Buffer → ℕ
offset_of (word ∷ []) = elim (str2unum word) [ none ↦ 0 | some n ↦ n ]
offset_of _ = 0

unfoldable pub run_open : List Buffer → Cli → Reply
run_open [] c = some (usage (codes "open") ∷ [], c)
run_open (name ∷ args) c = do
  let path = path_join c.cur_path name
  (there, f) ← has_file path c.filesys
  let opened = (do
    (fd?, f') ← open_file path (offset_of args) f
    says (elim fd? [ none ↦ open_failed | some fd ↦ descriptor fd ] ∷ []) c f')
  if there then opened else says (file_not_found path ∷ []) c f

unfoldable pub run_close : List Buffer → Cli → Reply
run_close (word ∷ []) c = elim (str2unum word) [
  | none ↦ some ([], c)
  | some fd ↦ says [] c (close fd c.filesys)
]
run_close _ c = some (usage (codes "close") ∷ [], c)

unfoldable pub run_seek : List Buffer → Cli → Reply
run_seek (word ∷ (word' ∷ [])) c = elim (str2unum word) [
  | none ↦ some (invalid_arguments ∷ [], c)
  | some fd ↦ elim (str2unum word') [
    | none ↦ some (invalid_arguments ∷ [], c)
    | some offset ↦ says (seeked fd offset ∷ []) c (seek fd offset c.filesys)
  ]
]
run_seek _ c = some (usage (codes "seek") ∷ [], c)

-- What `write` of the file system returns is not looked at.
unfoldable pub run_write : List Buffer → Cli → Reply
run_write (word ∷ (text ∷ [])) c = elim (str2unum word) [
  | none ↦ some (invalid_fd ∷ [], c)
  | some fd ↦ do (_, f) ← write fd text c.filesys; says (written (length text) ∷ []) c f
]
run_write _ c = some (usage (codes "write") ∷ [], c)

-- Zero bytes are shown as dots.
abbrev pub dotted : ℕ → ℕ
dotted b = if b == 0 then b'.' else b

-- A string of the first `n` bytes of a buffer, which it must have.
abbrev pub first_bytes : ℕ → Buffer → Option Buffer
first_bytes n buffer = if ltb (length buffer) n then none else some (take n buffer)

-- The memory for a buffer of any size is there.
unfoldable pub run_read : List Buffer → Cli → Reply
run_read (word ∷ (word' ∷ [])) c = elim (str2unum word) [
  | none ↦ some (invalid_arguments ∷ [], c)
  | some fd ↦ elim (str2unum word') [
    | none ↦ some (invalid_arguments ∷ [], c)
    | some size ↦ do
      ((n, buffer), f) ← read fd (replicate size 0) c.filesys
      out ← first_bytes n (map dotted buffer)
      says ((if ltb 0 n then content out else empty_or_eof) ∷ []) c f
  ]
]
run_read _ c = some (usage (codes "read") ∷ [], c)

-- The loop of `cat`, and all that it writes. The buffer is used again in each round.
unfoldable pub cat_loop : ℕ → ℕ → Buffer → FileSys → Option (Buffer × FileSys)
cat_loop zero fd buffer f = none
cat_loop (suc fuel) fd buffer f = do
  ((n, buffer'), f') ← read fd buffer f
  let more = (do
    out ← first_bytes n buffer'
    (rest, f'') ← cat_loop fuel fd (map dotted out ++ drop n buffer') f'
    some (map dotted out ++ rest, f''))
  if n == 0 then some ([], f') else more

-- A read of no byte ends the loop, and each other one moves the 64-bit offset on.
abbrev pub cat_fuel : ℕ
cat_fuel = 2 ^ 64

-- `cat` of a file that is there.
unfoldable pub show_file : ℕ → Buffer → Cli → FileSys → Reply
unfolding cat_loop
show_file fuel path c f = do
  (fd?, f1) ← open_file path 0 f
  elim fd? [
    | none ↦ says (open_failed ∷ []) c f1
    | some fd ↦ do
      (out, f2) ← cat_loop fuel fd (replicate 1024 0) f1
      says (file_content out ∷ []) c (close fd f2)
  ]

unfoldable pub run_cat : List Buffer → Cli → Reply
unfolding show_file
run_cat [] c = some (usage (codes "cat") ∷ [], c)
run_cat (name ∷ args) c = do
  let path = path_join c.cur_path name
  (there, f) ← has_file path c.filesys
  let shown = show_file cat_fuel path c f
  if there then shown else says (file_not_found path ∷ []) c f
