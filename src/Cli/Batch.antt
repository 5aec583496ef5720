-- ===== src/Cli/Batch.antt =====
-- The commands `mkdirn` and `touchn` of include/CLI.hpp.
use osep.Common.{
  ℕ, zero, suc, ◌+◌, ◌>>=◌, Option, none, some, List, [], ◌∷◌, ◌++◌, Bool, if◌then◌else◌,
}
use osep.Common.Bytes.{Buffer}
use osep.Common.Text.{codes, to_string}
use osep.FileSys.{FileSys}
use osep.FileSys.Names.{create_dir, create_file}
use osep.FileSys.Paths.{slash}
use osep.Cli.{
  Cli, Message, usage, invalid_number, dir_failed, file_failed, dirs_created, files_created,
  str2unum, Reply, says,
}

-- The loop over the numbers from `i` on, `n` of them: the messages, and how many were created
-- (an `int` in the source, which is taken not to overflow).
unfoldable pub create_each :
    (Buffer → FileSys → Option (Bool × FileSys))
    → (Buffer → Message)
    → ℕ
    → ℕ
    → Buffer
    → Buffer
    → FileSys
    → Option ((List Message × ℕ) × FileSys)
create_each create failed zero i cur_path prefix f = some (([], 0), f)
create_each create failed (suc n) i cur_path prefix f = do
  let name = prefix ++ to_string i
  (done, f1) ← create (cur_path ++ slash ∷ name) f
  ((out, count), f2) ← create_each create failed n (i + 1) cur_path prefix f1
  some (if done then (out, count + 1) else (failed name ∷ out, count), f2)

unfoldable pub run_batch :
    (Buffer → FileSys → Option (Bool × FileSys))
    → (Buffer → Message)
    → (ℕ → Message)
    → Buffer
    → List Buffer
    → Cli
    → Reply
unfolding create_each
run_batch create failed created cmd (prefix ∷ (word ∷ [])) c = elim (str2unum word) [
  | none ↦ some (invalid_number word ∷ [], c)
  | some n ↦ do
    ((out, count), f) ← create_each create failed n 0 c.cur_path prefix c.filesys
    says (out ++ created count ∷ []) c f
]
run_batch create failed created cmd _ c = some (usage cmd ∷ [], c)

unfoldable pub run_mkdirn : List Buffer → Cli → Reply
unfolding run_batch
run_mkdirn args c = run_batch create_dir dir_failed dirs_created (codes "mkdirn") args c

unfoldable pub run_touchn : List Buffer → Cli → Reply
unfolding run_batch
run_touchn args c = run_batch create_file file_failed files_created (codes "touchn") args c
