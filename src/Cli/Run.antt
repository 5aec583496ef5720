-- ===== src/Cli/Run.antt =====
-- The loop of `CLI::run` in include/CLI.hpp, over the lines of the standard input, each of which a
-- newline ends.
use osep.Common.{ℕ, zero, suc, ◌>>=◌, Option, some, List, [], ◌∷◌, ◌++◌, ◌||◌, if◌then◌else◌}
use osep.Common.Bytes.{Buffer}
use osep.Common.Text.{codes, str_eq, words}
use osep.FileSys.Format.{format, mount, new_filesys, close_down}
use osep.Disk.{Geometry}
use osep.Store.{Store}
use osep.FileSys.Paths.{slash}
use osep.Cli.{Cli, Message, help, disk_info, unknown_command, format_question, Reply}
use osep.Cli.Commands.{
  run_ls, run_mkdir, run_touch, run_rm, run_rmdir, run_cd, run_open, run_close, run_seek, run_write,
  run_read, run_cat,
}
use osep.Cli.Batch.{run_mkdirn, run_touchn}

-- The commands that read nothing more. What `df` prints are counters of the super block, and
-- changes nothing.
unfoldable pub dispatch : Buffer → List Buffer → Cli → Reply
dispatch cmd args c =
    if str_eq cmd (codes "help")
    then some (help ∷ [], c)
    else if str_eq cmd (codes "ls")
    then run_ls args c
    else if str_eq cmd (codes "df")
    then some (disk_info ∷ [], c)
    else if str_eq cmd (codes "mkdir")
    then run_mkdir args c
    else if str_eq cmd (codes "touch")
    then run_touch args c
    else if str_eq cmd (codes "rm")
    then run_rm args c
    else if str_eq cmd (codes "rmdir")
    then run_rmdir args c
    else if str_eq cmd (codes "cd")
    then run_cd args c
    else if str_eq cmd (codes "open")
    then run_open args c
    else if str_eq cmd (codes "close")
    then run_close args c
    else if str_eq cmd (codes "seek")
    then run_seek args c
    else if str_eq cmd (codes "write")
    then run_write args c
    else if str_eq cmd (codes "read")
    then run_read args c
    else if str_eq cmd (codes "cat")
    then run_cat args c
    else if str_eq cmd (codes "mkdirn")
    then run_mkdirn args c
    else if str_eq cmd (codes "touchn")
    then run_touchn args c
    else some (unknown_command cmd ∷ [], c)

-- `cin >> check`, and the rest of its line: the first word of the input, if there is one. When there
-- is none, the input has failed, and all later calls of `getline` leave the line `last` as it is.
unfoldable pub read_answer : Buffer → List Buffer → Buffer × List Buffer
read_answer last [] = ([], last ∷ [])
read_answer last (line ∷ lines) = elim (words line) [
  | [] ↦ read_answer last lines
  | word ∷ _ ↦ (word, lines)
]

unfoldable pub run_format : Buffer → Cli → Reply
run_format answer c =
    if str_eq answer (codes "Y") || str_eq answer (codes "y")
    then (do
      f ← format c.filesys
      some (format_question ∷ [], record { cur_path = slash ∷ []; filesys = f }))
    else some (format_question ∷ [], c)

-- Where a round of the loop leads.
pub data Round : Type 0 where
  leaves : Round
  goes_on : List Buffer → List Message → Cli → Round

-- A round for a line and its words, with the lines behind it.
unfoldable pub round_of : Buffer → List Buffer → List Buffer → Cli → Option Round
unfolding dispatch read_answer run_format
round_of line [] lines c = some (goes_on lines [] c)
round_of line (cmd ∷ args) lines c =
    if str_eq cmd (codes "exit")
    then some leaves
    else if str_eq cmd (codes "format")
    then (do
      let (answer, rest) = read_answer line lines
      (out, c') ← run_format answer c
      some (goes_on rest out c'))
    else (do (out, c') ← dispatch cmd args c; some (goes_on lines out c'))

-- At the end of the input `getline` leaves an empty line.
unfoldable pub round : List Buffer → Cli → Option Round
unfolding round_of
round [] c = round_of [] [] [] c
round (line ∷ lines) c = round_of line (words line) lines c

-- How the loop stands after so many rounds at most: it has returned, or it goes on.
pub data Outcome : Type 0 where
  returned : List Message → Cli → Outcome
  running : List Buffer → List Message → Cli → Outcome

unfoldable pub run : ℕ → List Buffer → List Message → Cli → Option Outcome
unfolding round
run zero lines out c = some (running lines out c)
run (suc n) lines out c = do
  next ← round lines c
  elim next [
    | leaves ↦ some (returned out c)
    | goes_on lines' out' c' ↦ run n lines' (out ++ out') c'
  ]

-- What is left of an outcome of the loop when `main` has ended: a loop that goes on has not ended.
unfoldable pub end_program : Outcome → Option Outcome
unfolding close_down
end_program (returned out c) = do
  f ← close_down c.filesys
  some (returned out (record c { filesys = f }))
end_program (running lines out c) = some (running lines out c)

-- `main` of src/cli.cpp on a disk that is open, for a number of rounds: the file system is formatted
-- once more before the command line starts, and flushed by its destructors behind it.
unfoldable pub run_program : ℕ → List Buffer → Geometry → Store → Option Outcome
unfolding run new_filesys end_program
run_program n lines disk store = do
  f1 ← mount (new_filesys disk store)
  f2 ← format f1
  o ← run n lines [] (record { cur_path = slash ∷ []; filesys = f2 })
  end_program o
