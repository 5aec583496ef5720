-- ===== src/Cli.antt =====
-- The command line of include/CLI.hpp: its state, what it prints, and numbers. `cur_path` and the
-- file system are the state; a line of output is a message with its values.
pub mod Commands
pub mod Batch
pub mod Run
pub mod Numbers
pub mod Stays
pub mod Show
pub mod Session
pub mod Idle
use osep.Common.{
  ℕ, ◌+◌, ◌*◌, ◌-◌, ltb, ◌||◌, Option, none, some, List, [], ◌∷◌, Bool, if◌then◌else◌, u64,
}
use osep.Common.Bytes.{Buffer}
use osep.FileSys.{FileSys}
use osep.FileSys.Names.{Listing}

pub record Cli : Type 0 where
  pub cur_path : Buffer
  pub filesys : FileSys

pub data Message : Type 0 where
  help disk_info open_failed invalid_arguments invalid_fd empty_or_eof format_question : Message
  usage unknown_command file_removed file_not_removed dir_removed dir_not_removed : Buffer → Message
  dir_not_found file_not_found invalid_number dir_failed file_failed : Buffer → Message
  content file_content : Buffer → Message
  descriptor written dirs_created files_created : ℕ → Message
  seeked : ℕ → ℕ → Message
  listing : List Listing → Message

-- The loop of `str2unum`: the sum is one of 64-bit words.
unfoldable pub str2unum_from : ℕ → Buffer → Option ℕ
str2unum_from rst [] = some rst
str2unum_from rst (c ∷ cs) =
    if ltb c b'0' || ltb b'9' c then none else str2unum_from (u64 (10 * rst + (c - b'0'))) cs

unfoldable pub str2unum : Buffer → Option ℕ
unfolding str2unum_from
str2unum str = str2unum_from 0 str

-- A command without a fault gives what it prints and the state after it.
abbrev pub Reply : Type 0
Reply = Option (List Message × Cli)

abbrev pub says : List Message → Cli → FileSys → Reply
says out c f = some (out, record c { filesys = f })
