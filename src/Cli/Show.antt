-- ===== src/Cli/Show.antt =====
-- The loop of `cat` in include/CLI.hpp: that it ends, and what it prints.
use osep.Common.{
  ℕ, zero, suc, ◌+◌, ◌-◌, ◌^◌, ◌<◌, ◌≤◌, ◌==◌, ◌≡◌, refl, ap, ◌∙◌, inl, inr, Option, some, List, [],
  ◌∷◌, ◌++◌, true, false, if◌then◌else◌, arith, Bool-cases, length, length-append, length-take,
  drop_end, slice_within, take-append-drop, length-drop, length-map, length-replicate, replicate,
  take, drop, min, u64, map, ltb,
}
use osep.Common.Bytes.{Buffer, length-copy_to, take_append, drop-drop}
use osep.Layout.Inode.{Inode, storage_inline}
use osep.Inodes.{Kernel, get, deref}
use osep.Inodes.Read.{read_size, read_bytes, read_data}
use osep.FileSys.{FileSys, FileHandle, find_handle, read, advance, has_file, open_file, close}
use osep.FileSys.Handles.{find_handle-set_handle}
use osep.Inodes.Inline.{copy_start, read_bytes-inline, read_data_run}
use native.Mathlib.Nat.{mod-eq_of_lt}
use mathlib.Core.Path.{subst, sym}
use mathlib.Core.List.{map-append}
use osep.FileSys.Paths.{path_join}
use osep.Cli.{Cli, says, file_content}
use osep.Cli.Commands.{cat_loop, dotted, show_file, run_cat, cat_fuel}

-- What the file holds, which can be read from any place of it up to its end.
abbrev Readable : Inode → Buffer → Kernel → Type 0
Readable node bytes k =
    (offset n : ℕ)
    → offset + n ≤ node.size
    → read_bytes node offset n k.store ≡ some (take n (drop offset bytes))

read_run :
    (fd n : ℕ) (buf out : Buffer) (f : FileSys) (h : FileHandle) (k' : Kernel)
    → find_handle fd f.fd_table ≡ some h
    → read_data h.inode_id h.offset buf f.kernel ≡ some ((n, out), k')
    → read fd buf f ≡ some ((n, out), advance fd h n (record f { kernel = k' }))
unfolding read
read_run fd n buf out f h k' e1 e2 = rw (e1, read) (rw (e2, read) refl)

length_shown :
    (n : ℕ) (buf rest : Buffer)
    → n ≤ length buf
    → length (map dotted (take n buf) ++ rest) ≡ n + length rest
length_shown n buf rest h = omega (
  arith,
  length-append (map dotted (take n buf)) rest,
  length-map (take n buf) dotted,
  length-take n buf,
)

length_again :
    (n : ℕ) (buf : Buffer)
    → n ≤ length buf
    → length (map dotted (take n buf) ++ drop n buf) ≡ length buf
length_again n buf h = omega (arith, length_shown n buf (drop n buf) h, length-drop n buf)

set_here :
    (fd : ℕ) (h : FileHandle) (other : Option FileHandle)
    → (if fd == fd then some h else other) ≡ some h
set_here fd h other = ground arith

cat_stop :
    (fuel fd n : ℕ) (buf buf' : Buffer) (f f' : FileSys)
    → read fd buf f ≡ some ((n, buf'), f')
    → (n == 0) ≡ true
    → cat_loop (suc fuel) fd buf f ≡ some ([], f')
unfolding cat_loop
cat_stop fuel fd n buf buf' f f' e stop = rw e (rw stop refl)

cat_go_on :
    (fuel fd n : ℕ) (buf buf' rest : Buffer) (f f' f'' : FileSys)
    → read fd buf f ≡ some ((n, buf'), f')
    → (n == 0) ≡ false
    → n ≤ length buf'
    → cat_loop fuel fd (map dotted (take n buf') ++ drop n buf') f' ≡ some (rest, f'')
    → cat_loop (suc fuel) fd buf f ≡ some (map dotted (take n buf') ++ rest, f'')
unfolding cat_loop
cat_go_on fuel fd n buf buf' rest f f' f'' e more fits e2 =
    let enough : ltb (length buf') n ≡ false = ground arith in
    rw e (rw more (rw enough (rw e2 refl)))

module _ (id : ℕ) (k : Kernel) (node : Inode) (cached : get id k ≡ some k)
    (at_node : deref id k ≡ some node) (in_range : node.size < 2 ^ 64) (all : Buffer)
    (same_size : length all ≡ node.size) (reads : Readable node all k) where
  -- What one read gives.
  read_step :
      (offset : ℕ) (buf : Buffer)
      → offset ≤ node.size
      → (out : Buffer) × (read_data id offset buf k
          ≡ some ((min (length buf) (node.size - offset), out), k))
        × (length out ≡ length buf)
        × (take (min (length buf) (node.size - offset)) out
            ≡ take (min (length buf) (node.size - offset)) (drop offset all))
  unfolding read_size
  read_step offset buf h =
      let n = min (length buf) (node.size - offset) in
      let size : read_size node offset (length buf) ≡ n = ground arith in
      let bytes = take n (drop offset all) in
      let len : length bytes ≡ n =
        omega (arith, length-take n (drop offset all), length-drop offset all, same_size) in
      let start = copy_start buf bytes (omega (arith, len)) in
      (
        bytes ++ drop (length bytes) buf,
        read_data_run id offset n buf bytes _ k k node cached at_node size
            (reads offset n (omega arith)) start,
        length-copy_to buf 0 bytes _ start,
        ap (λ m. take m (bytes ++ drop (length bytes) buf)) (sym len)
            ∙ take_append bytes (drop (length bytes) buf),
      )

  -- The descriptor of the file, and where it stands.
  abbrev AtFile : ℕ → ℕ → FileSys → Type 0
  AtFile fd offset f =
      (f.kernel ≡ k)
      × (find_handle fd f.fd_table ≡ some (record { inode_id = id; offset = offset }))

  read_at :
      (fd offset : ℕ) (buf : Buffer) (f : FileSys)
      → offset ≤ node.size
      → AtFile fd offset f
      → (out : Buffer) × (f' : FileSys) × (read fd buf f
          ≡ some ((min (length buf) (node.size - offset), out), f'))
        × (length out ≡ length buf)
        × (take (min (length buf) (node.size - offset)) out
            ≡ take (min (length buf) (node.size - offset)) (drop offset all))
        × AtFile fd (offset + min (length buf) (node.size - offset)) f'
  unfolding advance
  read_at fd offset buf f h (same, open_at) =
      let n = min (length buf) (node.size - offset) in
      let (out, e, len, shown) = read_step offset buf h in
      let next : FileHandle = record { inode_id = id; offset = u64 (offset + n) } in
      let sum : u64 (offset + n) ≡ offset + n = mod-eq_of_lt (omega arith) in
      (
        out,
        _,
        read_run fd n buf out f _ k open_at (rw same e),
        len,
        shown,
        (
          refl,
          find_handle-set_handle fd fd next f.fd_table
              ∙ set_here fd next (find_handle fd f.fd_table)
              ∙ ap (λ o. some (record { inode_id = id; offset = o })) sum,
        ),
      )

  -- From a place of the file on, with more rounds than bytes that are left.
  pub cat_rest :
      (fuel fd offset : ℕ) (buf : Buffer) (f : FileSys)
      → 0 < length buf
      → offset ≤ node.size
      → node.size - offset < fuel
      → AtFile fd offset f
      → (out : Buffer) × (f' : FileSys) × (cat_loop fuel fd buf f ≡ some (out, f'))
        × (out ≡ map dotted (drop offset all))
        × AtFile fd node.size f'
  cat_rest zero fd offset buf f l h enough at = absurd (omega arith)
  cat_rest (suc fuel) fd offset buf f l h enough at =
      let n = min (length buf) (node.size - offset) in
      let (buf', f', e, len, shown, at') = read_at fd offset buf f h at in
      let fits : n ≤ length buf' = omega (arith, len) in
      elim (Bool-cases (n == 0)) [
        | inl done ↦
            let end : offset + n ≡ node.size = ground arith in
            (
              [],
              f',
              cat_stop fuel fd n buf buf' f f' e done,
              sym (ap (map dotted) (drop_end offset all (ground arith))),
              subst (λ o. AtFile fd o f') end at',
            )
        | inr more ↦
            let again = length_again n buf' fits in
            let (rest, f'', e2, len2, at2) =
              cat_rest fuel fd (offset + n) (map dotted (take n buf') ++ drop n buf') f'
                (omega (arith, again, len)) (omega arith) (ground arith) at' in
            (
              map dotted (take n buf') ++ rest,
              f'',
              cat_go_on fuel fd n buf buf' rest f f' f'' e more fits e2,
              ap (λ b. map dotted b ++ rest) shown
                  ∙ ap (λ r. map dotted (take n (drop offset all)) ++ r)
                      (len2 ∙ ap (map dotted) (sym (drop-drop n offset all)))
                  ∙ sym (map-append dotted (take n (drop offset all)) (drop n (drop offset all)))
                  ∙ ap (map dotted) (take-append-drop n (drop offset all)),
              at2,
            )
      ]

  show_run :
      (fuel fd : ℕ) (path : Buffer) (c : Cli) (f f1 f2 : FileSys) (out : Buffer)
      → open_file path 0 f ≡ some (some fd, f1)
      → cat_loop fuel fd (replicate 1024 0) f1 ≡ some (out, f2)
      → show_file fuel path c f ≡ says (file_content out ∷ []) c (close fd f2)
  unfolding show_file
  show_run fuel fd path c f f1 f2 out e1 e2 = rw e1 (rw e2 refl)

  shown_by :
      (name : Buffer) (args : List Buffer) (c : Cli) (f : FileSys)
      → has_file (path_join c.cur_path name) c.filesys ≡ some (true, f)
      → run_cat (name ∷ args) c ≡ show_file cat_fuel (path_join c.cur_path name) c f
  unfolding run_cat
  shown_by name args c f e = rw e refl

  -- If a path leads to a file that `open` opens, whose inode is at the front of the cache with a
  -- 64-bit size, and whose bytes can be read from any place of it up to its end, then `cat` of
  -- it returns within its fuel: it prints all bytes of the file, the zero bytes as dots, closes
  -- the descriptor, and leaves the inodes and blocks as they were.
  pub run_cat-dotted :
      (fd : ℕ) (name : Buffer) (args : List Buffer) (c : Cli) (f f1 : FileSys)
      → has_file (path_join c.cur_path name) c.filesys ≡ some (true, f)
      → open_file (path_join c.cur_path name) 0 f ≡ some (some fd, f1)
      → f1.kernel ≡ k
      → find_handle fd f1.fd_table ≡ some (record { inode_id = id; offset = 0 })
      → (f2 : FileSys) × (run_cat (name ∷ args) c
          ≡ some (file_content (map dotted all) ∷ [], record c { filesys = close fd f2 }))
        × (f2.kernel ≡ k)
  run_cat-dotted fd name args c f f1 there opened same handle =
      let (out, f2, e, len, (kept, at)) =
        cat_rest cat_fuel fd 0 (replicate 1024 0) f1
          (omega (arith, length-replicate {A = ℕ} 1024 0)) (omega arith) (omega arith)
          (same, handle) in
      (
        f2,
        shown_by name args c f there
            ∙ show_run cat_fuel fd (path_join c.cur_path name) c f f1 f2 out opened e
            ∙ ap (λ b. some (file_content b ∷ [], record c { filesys = close fd f2 })) len,
        kept,
      )

pub inline-Readable :
    (node : Inode) (k : Kernel)
    → node.storage_type ≡ storage_inline
    → length node.inline_data ≡ 474
    → node.size ≤ 474
    → Readable node (take node.size node.inline_data) k
inline-Readable node k e full small offset n h =
    read_bytes-inline node offset n k.store e (omega arith)
    ∙ ap some (sym (slice_within offset n node.size node.inline_data h))
