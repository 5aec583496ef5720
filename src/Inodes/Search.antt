-- ===== src/Inodes/Search.antt =====
-- `find_inode_by_name` of include/INodeTable.hpp in a directory that its inode keeps.
use osep.Common.{
  ℕ, zero, suc, ◌+◌, ◌-◌, ◌*◌, ◌<◌, ◌≤◌, ltb, ◌≡◌, refl, ap, sym, ◌∙◌, Option, none, some, List, [],
  ◌∷◌, ◌++◌, true, false, arith, length, length-append, length-take, length-replicate, take, drop,
  replicate, min,
}
use osep.Common.Bytes.{Buffer}
use osep.Layout.Inode.{Inode, DirItem, encode_diritem, storage_inline}
use osep.Inodes.{Kernel, get, deref}
use osep.Inodes.Read.{read_data}
use osep.Inodes.Inline.{inline_count, read_data-inline}
use osep.Inodes.Dirs.{find_entry, find_epochs, find_inode_by_name}
use osep.Inodes.Entries.{entries, AllEntries, lookup_entry, length-encode, find_entry-lookup_entry}

length-entries : (ds : List DirItem) → AllEntries ds → length (entries ds) ≡ 64 * length ds
unfolding entries
length-entries [] h = refl
length-entries (d ∷ ds) (id, name, h) = omega (
  arith,
  length-append (encode_diritem d) (entries ds),
  length-encode d name,
  length-entries ds h,
)

take_within : (n : ℕ) (xs rest : Buffer) → n ≤ length xs → take n (take n xs ++ rest) ≡ take n xs
take_within zero xs rest h = refl
take_within (suc n) [] rest h = absurd (omega arith)
take_within (suc n) (x ∷ xs) rest h = ap (λ l. x ∷ l) (take_within n xs rest (omega arith))

no_entries : (ds : List DirItem) (name : Buffer) → length ds ≡ 0 → lookup_entry name ds ≡ none
unfolding lookup_entry
no_entries [] name h = refl
no_entries (d ∷ ds) name h = absurd (omega arith)

module _ (dir : ℕ) (name : Buffer) (k : Kernel) (node : Inode) (again : get dir k ≡ some k)
    (at_node : deref dir k ≡ some node) (inline : node.storage_type ≡ storage_inline)
    (full : length node.inline_data ≡ 474) (small : node.size ≤ 474)
    (item_size : k.store.sb.diritem_size ≡ 64) where
  past_end :
      (fuel offset : ℕ) → node.size ≤ offset → find_epochs fuel offset dir name k ≡ some (none, k)
  unfolding find_epochs
  past_end zero offset h = refl
  past_end (suc fuel) offset h =
      let done : ltb offset node.size ≡ false = ground arith in rw at_node (rw done refl)

  -- The one read of the directory.
  read_all :
      (n : ℕ)
      → n ≡ node.size
      → read_data dir 0 (replicate n 0) k
        ≡ some ((n, take n node.inline_data ++ drop n (replicate n 0)), k)
  read_all n e =
      let len = length-replicate {A = ℕ} n 0 in
      let count : inline_count node 0 (length (replicate {A = ℕ} n 0)) ≡ n = ground (arith, len) in
      read_data-inline dir 0 k k node again at_node inline full (omega arith) (replicate n 0)
        (omega (arith, len))
      ∙ ap (λ c. some ((c, take c node.inline_data ++ drop c (replicate n 0)), k)) count

  epoch_run :
      (fuel : ℕ) (items buf : Buffer) (found : Option ℕ)
      → 0 < node.size
      → read_data dir 0 (replicate node.size 0) k ≡ some ((node.size, buf), k)
      → take node.size buf ≡ items
      → find_entry (length items) 64 name items ≡ found
      → find_epochs (suc fuel) 0 dir name k ≡ some (found, k)
  unfolding find_epochs
  epoch_run fuel items buf found pos e1 e2 e3 =
      let less : ltb 0 node.size ≡ true = ground arith in
      let once : min (1024 * k.store.sb.diritem_size) (node.size - 0) ≡ node.size =
        omega (arith, ap (λ n. 1024 * n) item_size) in
      rw at_node (
        rw less (
          rw once (
            rw e1 (
              ap
                (λ (its : Buffer).
                  ends (find_entry (length its) k.store.sb.diritem_size name its)
                    k.store.sb.diritem_size)
                e2
              ∙ ap (λ z. ends (find_entry (length items) z name items) z) item_size
              ∙ ap (λ o. ends o 64) e3
              ∙ after found))))
    where
      ends : Option ℕ → ℕ → Option (Option ℕ × Kernel)
      ends o z = elim o [
        | some id ↦ some (some id, k)
        | none ↦ find_epochs fuel (0 + 1024 * z) dir name k
      ]

      after : (o : Option ℕ) → ends o 64 ≡ some (o, k)
      after (some id) = refl
      after none = past_end fuel (0 + 1024 * 64) (omega arith)

  read_items :
      (n : ℕ)
      → n ≡ node.size
      → take n (take n node.inline_data ++ drop n (replicate n 0)) ≡ take n node.inline_data
  read_items n e = take_within n node.inline_data (drop n (replicate n 0)) (omega (arith, e))

  -- In a directory that is cached at the front and that its inode keeps in itself, with entries
  -- of 64 bytes that have 64-bit inode numbers and name fields of 54 bytes, `find_inode_by_name`
  -- returns the inode of the first entry with the name, or nothing if no entry has it, and
  -- changes nothing.
  pub find_inode_by_name-lookup_entry :
      (ds : List DirItem)
      → AllEntries ds
      → take node.size node.inline_data ≡ entries ds
      → find_inode_by_name dir name k ≡ some (lookup_entry name ds, k)
  unfolding find_inode_by_name
  find_inode_by_name-lookup_entry ds ok same = rw again (rw at_node (go node.size refl))
    where
      size : 64 * length ds ≡ node.size
      size = omega (
        arith,
        length-entries ds ok,
        ap (λ (b : Buffer). length b) same,
        length-take node.size node.inline_data,
      )

      go : (n : ℕ) → n ≡ node.size → find_epochs n 0 dir name k ≡ some (lookup_entry name ds, k)
      go zero e =
          past_end zero 0 (omega (arith, e))
          ∙ ap (λ (o : Option ℕ). some (o, k)) (sym (no_entries ds name (omega (arith, e, size))))
      go (suc fuel) e =
          epoch_run fuel (entries ds) _ (lookup_entry name ds) (omega (arith, e))
            (read_all node.size refl) (read_items node.size refl ∙ same)
            (find_entry-lookup_entry (length (entries ds)) name ds ok
              (omega (arith, length-entries ds ok)))
