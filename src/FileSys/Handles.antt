-- ===== src/FileSys/Handles.antt =====
-- The descriptors of include/FileSys.hpp: what each call does to each of them.
use osep.Common.{
  ℕ, ◌+◌, ◌<◌, ◌≤◌, ◌^◌, ◌==◌, ◌≡◌, refl, Option, none, some, List, [], ◌∷◌, Bool, true, false,
  ◌&&◌, if◌then◌else◌, u64, length, arith, Bool-cases, Option-cases, inl, inr, ap, sym, ◌∙◌, ◌⊎◌,
}
use osep.Common.Bytes.{Buffer}
use osep.FileSys.{
  FileHandle, FileSys, find_handle, erase_handle, set_handle, open_inode, close, advance, write,
  read, seek,
}

find_handle-erase_handle :
    (fd j : ℕ) (t : List (ℕ × FileHandle))
    → find_handle j (erase_handle fd t) ≡ (if fd == j then none else find_handle j t)
unfolding find_handle erase_handle
find_handle-erase_handle fd j [] = ground arith
find_handle-erase_handle fd j ((fd', h) ∷ t) =
    let ih = find_handle-erase_handle fd j t in
    elim (Bool-cases (fd' == fd)) [ inl e ↦ ground (arith, ih) | inr e ↦ ground (arith, ih) ]

pub find_handle-set_handle :
    (fd j : ℕ) (h : FileHandle) (t : List (ℕ × FileHandle))
    → find_handle j (set_handle fd h t) ≡ (if fd == j then some h else find_handle j t)
unfolding find_handle set_handle
find_handle-set_handle fd j h t = ground (arith, find_handle-erase_handle fd j t)

-- After `close fd` the descriptor is not open, and every other one is what it was.
pub close-find_handle :
    (fd j : ℕ) (f : FileSys)
    → find_handle j (close fd f).fd_table ≡ (if fd == j then none else find_handle j f.fd_table)
unfolding close
close-find_handle fd j f = find_handle-erase_handle fd j f.fd_table

-- Where the entry of an open descriptor is changed.
find_handle-set_open :
    (fd j : ℕ) (h h' : FileHandle) (t : List (ℕ × FileHandle))
    (m : Option FileHandle → Option FileHandle)
    → find_handle fd t ≡ some h
    → m (some h) ≡ some h'
    → find_handle j (set_handle fd h' t)
      ≡ (if fd == j then m (find_handle j t) else find_handle j t)
find_handle-set_open fd j h h' t m e q =
    let set = find_handle-set_handle fd j h' t in
    elim (Bool-cases (fd == j)) [
      | inl same ↦
          let eq : fd ≡ j = ground arith in
          let e' : find_handle j t ≡ some h = ap (λ x. find_handle x t) (sym eq) ∙ e in
          rw same (rw e' (rw q (rw same at set)))
      | inr other ↦ ground (arith, set)
    ]

-- A descriptor that is not open is none of the others.
closed_same :
    (fd j : ℕ) (t : List (ℕ × FileHandle)) (m : Option FileHandle → Option FileHandle)
    → find_handle fd t ≡ none
    → m none ≡ none
    → find_handle j t ≡ (if fd == j then m (find_handle j t) else find_handle j t)
closed_same fd j t m e q = elim (Bool-cases (fd == j)) [
  | inl same ↦
      let eq : fd ≡ j = ground arith in
      let e' : find_handle j t ≡ none = ap (λ x. find_handle x t) (sym eq) ∙ e in
      rw same (rw e' (sym q))
  | inr other ↦ rw other refl
]

-- The handle at another offset, if there is one.
abbrev pub at_offset : ℕ → Option FileHandle → Option FileHandle
at_offset offset none = none
at_offset offset (some h) = some (record h { offset = offset })

seek_table :
    (fd offset : ℕ) (f : FileSys) (h : FileHandle)
    → find_handle fd f.fd_table ≡ some h
    → (seek fd offset f).fd_table ≡ set_handle fd (record h { offset = offset }) f.fd_table
unfolding seek
seek_table fd offset f h e = ground arith

seek_closed :
    (fd offset : ℕ) (f : FileSys) → find_handle fd f.fd_table ≡ none → seek fd offset f ≡ f
unfolding seek
seek_closed fd offset f e = ground arith

-- After `seek fd offset` an open descriptor `fd` is at the offset, one that is not open still is
-- not, and every other one is what it was.
pub seek-find_handle :
    (fd j offset : ℕ) (f : FileSys)
    → find_handle j (seek fd offset f).fd_table
      ≡ (if fd == j then at_offset offset (find_handle j f.fd_table) else find_handle j f.fd_table)
seek-find_handle fd j offset f = elim (Option-cases (find_handle fd f.fd_table)) [
  | inl e ↦
      ap (λ g. find_handle j g.fd_table) (seek_closed fd offset f e)
      ∙ closed_same fd j f.fd_table (at_offset offset) e refl
  | inr (h, e) ↦
      ap (find_handle j) (seek_table fd offset f h e)
      ∙ find_handle-set_open fd j h _ f.fd_table (at_offset offset) e refl
]

-- The handle moved on by `n` bytes, as a 64-bit word, if there is one.
abbrev pub moved : ℕ → Option FileHandle → Option FileHandle
moved n none = none
moved n (some h) = some (record h { offset = u64 (h.offset + n) })

write_closed :
    (fd : ℕ) (bytes : Buffer) (f : FileSys) (ok : Bool) (f' : FileSys)
    → find_handle fd f.fd_table ≡ none
    → write fd bytes f ≡ some (ok, f')
    → (ok ≡ false) × (f' ≡ f)
unfolding write
write_closed fd bytes f ok f' e run = ground arith

write_table :
    (fd : ℕ) (bytes : Buffer) (f : FileSys) (ok : Bool) (f' : FileSys) (h : FileHandle)
    → find_handle fd f.fd_table ≡ some h
    → write fd bytes f ≡ some (ok, f')
    → f'.fd_table ≡ (
        if ok
        then set_handle fd (record h { offset = u64 (h.offset + length bytes) }) f.fd_table
        else f.fd_table)
unfolding write advance
write_table fd bytes f ok f' h e run = ground arith

closed_and : (fd j : ℕ) (o p : Option FileHandle) → o ≡ (if (fd == j) && false then p else o)
closed_and fd j o p = ground arith

write_moved :
    (fd j : ℕ) (bytes : Buffer) (f : FileSys) (ok : Bool) (h : FileHandle)
    → find_handle fd f.fd_table ≡ some h
    → find_handle j (
        if ok
        then set_handle fd (record h { offset = u64 (h.offset + length bytes) }) f.fd_table
        else f.fd_table)
      ≡ (if (fd == j) && ok
          then moved (length bytes) (find_handle j f.fd_table)
          else find_handle j f.fd_table)
write_moved fd j bytes f true h e =
    let p = find_handle-set_open fd j h _ f.fd_table (moved (length bytes)) e refl in
    ground (arith, p)
write_moved fd j bytes f false h e = ground arith

-- If `write` returns, then on success the descriptor has moved on by the number of bytes given,
-- on failure it is where it was; every other descriptor is what it was; and a descriptor that is
-- not open makes it fail with nothing changed.
pub write-find_handle :
    (fd j : ℕ) (bytes : Buffer) (f : FileSys) (ok : Bool) (f' : FileSys)
    → write fd bytes f ≡ some (ok, f')
    → (find_handle j f'.fd_table ≡ (
        if (fd == j) && ok
        then moved (length bytes) (find_handle j f.fd_table)
        else find_handle j f.fd_table))
      × (find_handle fd f.fd_table ≡ none → (ok ≡ false) × (f' ≡ f))
write-find_handle fd j bytes f ok f' run = elim (Option-cases (find_handle fd f.fd_table)) [
  | inl e ↦
      let (failed, same) = write_closed fd bytes f ok f' e run in
      (
        ap (λ g. find_handle j g.fd_table) same
            ∙ rw failed (closed_and fd j (find_handle j f.fd_table) _),
        λ c. (failed, same),
      )
  | inr (h, e) ↦ (
    ap (find_handle j) (write_table fd bytes f ok f' h e run) ∙ write_moved fd j bytes f ok h e,
    λ c. ground (arith, e),
  )
]

read_closed :
    (fd : ℕ) (buffer : Buffer) (f : FileSys) (size : ℕ) (buffer' : Buffer) (f' : FileSys)
    → find_handle fd f.fd_table ≡ none
    → read fd buffer f ≡ some ((size, buffer'), f')
    → (size ≡ 0) × (buffer' ≡ buffer) × (f' ≡ f)
unfolding read
read_closed fd buffer f size buffer' f' e run = ground arith

read_table :
    (fd : ℕ) (buffer : Buffer) (f : FileSys) (size : ℕ) (buffer' : Buffer) (f' : FileSys)
    (h : FileHandle)
    → find_handle fd f.fd_table ≡ some h
    → read fd buffer f ≡ some ((size, buffer'), f')
    → f'.fd_table ≡ set_handle fd (record h { offset = u64 (h.offset + size) }) f.fd_table
unfolding read advance
read_table fd buffer f size buffer' f' h e run = ground arith

-- If `read` returns, the descriptor has moved on by the number of bytes that it returned, and
-- every other one is what it was; with a descriptor that is not open it returns 0 bytes and
-- changes nothing.
pub read-find_handle :
    (fd j : ℕ) (buffer : Buffer) (f : FileSys) (size : ℕ) (buffer' : Buffer) (f' : FileSys)
    → read fd buffer f ≡ some ((size, buffer'), f')
    → (find_handle j f'.fd_table
        ≡ (if fd == j then moved size (find_handle j f.fd_table) else find_handle j f.fd_table))
      × (find_handle fd f.fd_table ≡ none → (size ≡ 0) × (buffer' ≡ buffer) × (f' ≡ f))
read-find_handle fd j buffer f size buffer' f' run =
    elim (Option-cases (find_handle fd f.fd_table)) [
      | inl e ↦
          let (n, b, same) = read_closed fd buffer f size buffer' f' e run in
          (
            ap (λ g. find_handle j g.fd_table) same
                ∙ closed_same fd j f.fd_table (moved size) e refl,
            λ c. (n, b, same),
          )
      | inr (h, e) ↦ (
        ap (find_handle j) (read_table fd buffer f size buffer' f' h e run)
            ∙ find_handle-set_open fd j h _ f.fd_table (moved size) e refl,
        λ c. ground (arith, e),
      )
    ]

-- No descriptor from the counter on is open.
unfoldable pub IsFresh : FileSys → Type 0
IsFresh f = (j : ℕ) → f.cur_fd ≤ j → find_handle j f.fd_table ≡ none

-- Whether a call gave this descriptor.
abbrev pub is_new : Option ℕ → ℕ → Bool
is_new none j = false
is_new (some fd) j = fd == j

abbrev pub new_handle : ℕ → ℕ → FileHandle
new_handle id offset = record { inode_id = id; offset = offset }

open_run :
    (id offset : ℕ) (f : FileSys) (fd? : Option ℕ) (f' : FileSys)
    → open_inode id offset f ≡ some (fd?, f')
    → ((fd? ≡ none) × (f'.cur_fd ≡ f.cur_fd) × (f'.fd_table ≡ f.fd_table))
      ⊎ ((fd? ≡ some f.cur_fd)
          × (f'.cur_fd ≡ u64 (f.cur_fd + 1))
          × (f'.fd_table ≡ set_handle f.cur_fd (new_handle id offset) f.fd_table))
unfolding open_inode
open_run id offset f fd? f' run = ground arith

-- While the counter does not wrap around, and no descriptor from the counter on is open, `open`
-- of an inode, if it returns, gives no descriptor and changes none, or gives one that was not
-- open, opens it at the offset, and leaves every other one as it was; afterwards too no
-- descriptor from the counter on is open.
pub open_inode-IsFresh :
    (id offset : ℕ) (f : FileSys) (fd? : Option ℕ) (f' : FileSys)
    → f.cur_fd + 1 < 2 ^ 64
    → IsFresh f
    → open_inode id offset f ≡ some (fd?, f')
    → IsFresh f'
      × ((j : ℕ)
          → find_handle j f'.fd_table
            ≡ (if is_new fd? j then some (new_handle id offset) else find_handle j f.fd_table))
      × ((j : ℕ) → is_new fd? j ≡ true → find_handle j f.fd_table ≡ none)
unfolding IsFresh
open_inode-IsFresh id offset f fd? f' nowrap fresh run = elim (open_run id offset f fd? f' run) [
  | inl (failed, cur, t) ↦ ground (arith, fresh)
  | inr (opened, cur, t) ↦ (
    λ j le.
        ground
          (arith, fresh j, find_handle-set_handle f.cur_fd j (new_handle id offset) f.fd_table),
    λ j. ground (arith, find_handle-set_handle f.cur_fd j (new_handle id offset) f.fd_table),
    λ j new. ground (arith, fresh j),
  )
]
