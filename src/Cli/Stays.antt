-- ===== src/Cli/Stays.antt =====
-- The commands of include/CLI.hpp and the current directory.
use osep.Common.{
  ℕ, ◌≡◌, refl, ap, ◌∙◌, inl, inr, Option, some, List, [], ◌∷◌, Bool, true, false, if◌then◌else◌,
  arith, Option-cases,
}
use osep.Common.Bytes.{Buffer}
use osep.Common.Text.{codes}
use osep.FileSys.{FileSys, has_file, has_dir}
use osep.FileSys.Names.{create_dir, create_file}
use osep.FileSys.Paths.{is_rooted, lexically_normal, append_path, path_join}
use osep.FileSys.Paths.Normal.{is_rooted-append_path}
use osep.Cli.{
  Cli, Message, Reply, help, disk_info, unknown_command, dir_failed, file_failed, dirs_created,
  files_created,
}
use osep.Cli.Commands.{
  run_ls, run_mkdir, run_touch, run_rm, run_rmdir, run_cd, run_open, run_close, run_seek, run_write,
  run_read, run_cat, show_file, cat_fuel,
}
use osep.Cli.Batch.{run_batch, run_mkdirn, run_touchn}
use osep.Cli.Run.{dispatch, run_format}

-- The command stays in its directory.
abbrev Stays : Cli → Reply → Type 0
Stays c r = (out : List Message) (c' : Cli) → r ≡ some (out, c') → c'.cur_path ≡ c.cur_path

run_ls-Stays : (args : List Buffer) (c : Cli) → Stays c (run_ls args c)
unfolding run_ls
run_ls-Stays [] c out c' ran = ground arith
run_ls-Stays (path ∷ []) c out c' ran = ground arith
run_ls-Stays (path ∷ (arg ∷ args)) c out c' ran = ground arith

run_mkdir-Stays : (args : List Buffer) (c : Cli) → Stays c (run_mkdir args c)
unfolding run_mkdir
run_mkdir-Stays [] c out c' ran = ground arith
run_mkdir-Stays (path ∷ []) c out c' ran = ground arith
run_mkdir-Stays (path ∷ (arg ∷ args)) c out c' ran = ground arith

run_touch-Stays : (args : List Buffer) (c : Cli) → Stays c (run_touch args c)
unfolding run_touch
run_touch-Stays [] c out c' ran = ground arith
run_touch-Stays (path ∷ []) c out c' ran = ground arith
run_touch-Stays (path ∷ (arg ∷ args)) c out c' ran = ground arith

run_rm-Stays : (args : List Buffer) (c : Cli) → Stays c (run_rm args c)
unfolding run_rm
run_rm-Stays [] c out c' ran = ground arith
run_rm-Stays (path ∷ []) c out c' ran = ground arith
run_rm-Stays (path ∷ (arg ∷ args)) c out c' ran = ground arith

run_rmdir-Stays : (args : List Buffer) (c : Cli) → Stays c (run_rmdir args c)
unfolding run_rmdir
run_rmdir-Stays [] c out c' ran = ground arith
run_rmdir-Stays (path ∷ []) c out c' ran = ground arith
run_rmdir-Stays (path ∷ (arg ∷ args)) c out c' ran = ground arith

run_open-Stays : (args : List Buffer) (c : Cli) → Stays c (run_open args c)
unfolding run_open
run_open-Stays [] c out c' ran = ground arith
run_open-Stays (name ∷ args) c out c' ran = ground arith

run_close-Stays : (args : List Buffer) (c : Cli) → Stays c (run_close args c)
unfolding run_close
run_close-Stays [] c out c' ran = ground arith
run_close-Stays (path ∷ []) c out c' ran = ground arith
run_close-Stays (path ∷ (arg ∷ args)) c out c' ran = ground arith

run_seek-Stays : (args : List Buffer) (c : Cli) → Stays c (run_seek args c)
unfolding run_seek
run_seek-Stays [] c out c' ran = ground arith
run_seek-Stays (a ∷ []) c out c' ran = ground arith
run_seek-Stays (a ∷ (b ∷ [])) c out c' ran = ground arith
run_seek-Stays (a ∷ (b ∷ (d ∷ args))) c out c' ran = ground arith

run_write-Stays : (args : List Buffer) (c : Cli) → Stays c (run_write args c)
unfolding run_write
run_write-Stays [] c out c' ran = ground arith
run_write-Stays (a ∷ []) c out c' ran = ground arith
run_write-Stays (a ∷ (b ∷ [])) c out c' ran = ground arith
run_write-Stays (a ∷ (b ∷ (d ∷ args))) c out c' ran = ground arith

run_read-Stays : (args : List Buffer) (c : Cli) → Stays c (run_read args c)
unfolding run_read
run_read-Stays [] c out c' ran = ground arith
run_read-Stays (a ∷ []) c out c' ran = ground arith
run_read-Stays (a ∷ (b ∷ [])) c out c' ran = ground arith
run_read-Stays (a ∷ (b ∷ (d ∷ args))) c out c' ran = ground arith

show_file-Stays :
    (fuel : ℕ) (path : Buffer) (c : Cli) (f : FileSys) → Stays c (show_file fuel path c f)
unfolding show_file
show_file-Stays fuel path c f out c' ran = ground arith

run_cat-Stays : (args : List Buffer) (c : Cli) → Stays c (run_cat args c)
unfolding run_cat
run_cat-Stays [] c out c' ran = ground arith
run_cat-Stays (name ∷ args) c out c' ran =
    elim (Option-cases (has_file (path_join c.cur_path name) c.filesys)) [
      | inl e ↦ absurd (ground arith)
      | inr ((false, f), e) ↦ ground arith
      | inr ((true, f), e) ↦
          show_file-Stays cat_fuel (path_join c.cur_path name) c f out c' (rw e at ran)
    ]

run_batch-Stays :
    (create : Buffer → FileSys → Option (Bool × FileSys)) (failed : Buffer → Message)
    (created : ℕ → Message) (cmd : Buffer) (args : List Buffer) (c : Cli)
    → Stays c (run_batch create failed created cmd args c)
unfolding run_batch
run_batch-Stays create failed created cmd [] c out c' ran = ground arith
run_batch-Stays create failed created cmd (a ∷ []) c out c' ran = ground arith
run_batch-Stays create failed created cmd (a ∷ (b ∷ [])) c out c' ran = ground arith
run_batch-Stays create failed created cmd (a ∷ (b ∷ (d ∷ args))) c out c' ran = ground arith

run_mkdirn-Stays : (args : List Buffer) (c : Cli) → Stays c (run_mkdirn args c)
unfolding run_mkdirn
run_mkdirn-Stays args c = run_batch-Stays create_dir dir_failed dirs_created (codes "mkdirn") args c

run_touchn-Stays : (args : List Buffer) (c : Cli) → Stays c (run_touchn args c)
unfolding run_touchn
run_touchn-Stays args c =
    run_batch-Stays create_file file_failed files_created (codes "touchn") args c

lexically_normal-rooted : (p : Buffer) → is_rooted p ≡ true → is_rooted (lexically_normal p) ≡ true
unfolding is_rooted lexically_normal
lexically_normal-rooted [] r = absurd (ground arith)
lexically_normal-rooted (c ∷ cs) r = rw r refl

path_join-rooted :
    (cur path : Buffer) → is_rooted cur ≡ true → is_rooted (path_join cur path) ≡ true
unfolding path_join
path_join-rooted cur path r =
    lexically_normal-rooted (append_path cur path) (is_rooted-append_path cur path r)

run_cd-rooted :
    (args : List Buffer) (c c' : Cli) (out : List Message)
    → is_rooted c.cur_path ≡ true
    → run_cd args c ≡ some (out, c')
    → is_rooted c'.cur_path ≡ true
unfolding run_cd is_rooted
run_cd-rooted [] c c' out r ran = ground arith
run_cd-rooted (path ∷ []) c c' out r ran =
    let p = path_join c.cur_path path in
    elim (Option-cases (has_dir p c.filesys)) [
      | inl e ↦ absurd (ground arith)
      | inr ((true, f), e) ↦ ground (arith, path_join-rooted c.cur_path path r)
      | inr ((false, f), e) ↦ ground arith
    ]
run_cd-rooted (path ∷ (arg ∷ args)) c c' out r ran = ground arith

-- What a step of the session keeps.
pub run_format-rooted :
    (answer : Buffer) (c c' : Cli) (out : List Message)
    → is_rooted c.cur_path ≡ true
    → run_format answer c ≡ some (out, c')
    → is_rooted c'.cur_path ≡ true
unfolding run_format is_rooted
run_format-rooted answer c c' out r ran = ground arith

-- A reply leaves a session in a directory that is given from the root on.
abbrev Rooted : Reply → Type 0
Rooted reply =
    (out : List Message) (c' : Cli) → reply ≡ some (out, c') → is_rooted c'.cur_path ≡ true

same_directory :
    (c : Cli) (reply : Reply) → is_rooted c.cur_path ≡ true → Stays c reply → Rooted reply
same_directory c reply r stays out c' ran = ap is_rooted (stays out c' ran) ∙ r

either : (b : Bool) (x y : Reply) → Rooted x → Rooted y → Rooted (if b then x else y)
either true x y hx hy = hx
either false x y hx hy = hy

pub dispatch-Rooted :
    (cmd : Buffer) (args : List Buffer) (c : Cli)
    → is_rooted c.cur_path ≡ true
    → Rooted (dispatch cmd args c)
unfolding dispatch
dispatch-Rooted cmd args c r =
    let stays = λ (reply : Reply) (h : Stays c reply). same_directory c reply r h in
    let same = λ (message : Message). stays (some (message ∷ [], c)) (λ out c' ran. ground arith) in
    either _ _ _ (same help) (
      either _ _ _ (stays _ (run_ls-Stays args c)) (
        either _ _ _ (same disk_info) (
          either _ _ _ (stays _ (run_mkdir-Stays args c)) (
            either _ _ _ (stays _ (run_touch-Stays args c)) (
              either _ _ _ (stays _ (run_rm-Stays args c)) (
                either _ _ _ (stays _ (run_rmdir-Stays args c)) (
                  either _ _ _ (λ out c'. run_cd-rooted args c c' out r)
                    (either _ _ _ (stays _ (run_open-Stays args c)) (
                      either _ _ _ (stays _ (run_close-Stays args c)) (
                        either _ _ _ (stays _ (run_seek-Stays args c)) (
                          either _ _ _ (stays _ (run_write-Stays args c)) (
                            either _ _ _ (stays _ (run_read-Stays args c)) (
                              either _ _ _ (stays _ (run_cat-Stays args c)) (
                                either _ _ _ (stays _ (run_mkdirn-Stays args c)) (
                                  either _ _ _ (stays _ (run_touchn-Stays args c))
                                    (same (unknown_command cmd)))))))))))))))))
