-- ===== src/Tests/Tables.antt =====
-- The table of inodes, with its cache.
use osep.Common.{
  ℕ, ◌≡◌, ◌==◌, ◌++◌, some, [], ◌∷◌, true, if◌then◌else◌, arith, refl, replicate, Bool-cases, inl,
  inr, ap, sym,
}
use mathlib.Core.Path.{subst}
use osep.Common.Bytes.{Buffer, copy_to}
use osep.Layout.{SuperBlock, create_superblock}
use osep.Layout.Inode.{Inode, new_inode, encode_inode}
use osep.Layout.Inode.Roundtrip.{InRange}
use osep.Store.{Store, fetch, put}
use osep.Inodes.{
  InodeItem, Kernel, find_inode, get, deref, get_inode_from_disk, write_inode_to_disk, flush,
  set_node, mark_dirty,
}
use osep.Inodes.Write.{write_data}
use osep.Inodes.Inline.{grown}
use osep.Inodes.Table.{IsTable, get_inode_from_disk-write_inode_to_disk}
use osep.Inodes.Coherence.{IsCoherent, inode_at, IsNumber}
use osep.Inodes.Shows.{Shows, get-Shows, flush-durable}
use osep.Inodes.Saved.{write_data-flush}

abbrev super : SuperBlock
super = record (create_superblock 1) {
  inodes_per_block = 2;
  inode_block_start_lba = 2;
  inode_inline_data_size = 474;
  inode_size = 512;
}

abbrev store : Store
store = record { sb = super; limit = 64; blocks = λ j. replicate 1024 0 }

abbrev file : Inode
file = record (new_inode 4 0) { inline_data = replicate 10 7 ++ replicate 464 0; size = 10 }

file-InRange : InRange file
unfolding new_inode
file-InRange = record {
  id = omega arith;
  prev_inode_id = omega arith;
  block_lba = omega arith;
  link_cnt = omega arith;
  file_type = omega arith;
  storage_type = omega arith;
  inline_data = refl;
  size = omega arith;
}

store-IsTable : IsTable store
store-IsTable = record { some_per_block = omega arith; inode_size = refl }

in_table : (s : Store) × (write_inode_to_disk 5 file store ≡ some s)
unfolding write_inode_to_disk new_inode copy_to fetch encode_inode
in_table = (_, refl)

get_inode_from_disk-write_inode_to_disk_example :
    get_inode_from_disk 4 in_table.0 ≡ (if 5 == 4 then some file else get_inode_from_disk 4 store)
get_inode_from_disk-write_inode_to_disk_example =
    get_inode_from_disk-write_inode_to_disk store in_table.0 5 4 file store-IsTable file-InRange
      (omega arith) (omega arith) in_table.1

abbrev item : InodeItem
item = record { id = 4; node = file; dirty = true }

abbrev kernel : Kernel
kernel = record { store = store; max_cache_size = 2; items = item ∷ [] }

only_item : (j : ℕ) (x : InodeItem) → find_inode j kernel.items ≡ some x → (4 ≡ j) × (item ≡ x)
unfolding find_inode
only_item j x e = elim (Bool-cases (4 == j)) [
  | inl h ↦ ground arith
  | inr h ↦ absurd (ground arith)
]

kernel-IsCoherent : IsCoherent kernel.items store
unfolding find_inode
kernel-IsCoherent = record {
  table = store-IsTable;
  distinct = (refl, tt);
  numbers = λ j x e. subst (IsNumber store) (only_item j x e).0 (omega arith);
  fits = λ j x e d. subst InRange (ap (λ (y : InodeItem). y.node) (only_item j x e).1) file-InRange;
  clean = λ j x e d.
      let dirty : x.dirty ≡ true = ap (λ (y : InodeItem). y.dirty) (sym (only_item j x e).1) in
      absurd (ground arith);
}

got_four : (k : Kernel) × (get 4 kernel ≡ some k)
unfolding get
got_four = (_, refl)

get-Shows_example : Shows kernel got_four.0
get-Shows_example = get-Shows 4 kernel got_four.0 kernel-IsCoherent (omega arith) got_four.1

flushed : (k : Kernel) × (flush kernel ≡ some k)
unfolding flush write_inode_to_disk new_inode copy_to fetch encode_inode
flushed = (_, refl)

flush-durable_example :
    (flushed.0.items ≡ [])
    × ((j : ℕ)
        → IsNumber store j
        → get_inode_from_disk j flushed.0.store ≡ inode_at j kernel.items store)
flush-durable_example = flush-durable kernel flushed.0 kernel-IsCoherent flushed.1

abbrev bytes : Buffer
bytes = 5 ∷ 6 ∷ 7 ∷ []

at_file : deref 4 got_four.0 ≡ some file
unfolding deref got_four
at_file = refl

written : (k : Kernel) × (write_data 4 9 bytes kernel ≡ some (true, k))
unfolding write_data get deref new_inode copy_to fetch encode_inode
written = (_, refl)

written_out : (k : Kernel) × (flush written.0 ≡ some k)
unfolding flush write_inode_to_disk new_inode copy_to fetch encode_inode written set_node mark_dirty
    put
written_out = (_, refl)

write_data-flush_example :
    (field : Buffer) × (copy_to file.inline_data 9 bytes ≡ some field)
    × ((j : ℕ)
        → IsNumber store j
        → get_inode_from_disk j written_out.0.store
          ≡ (if 4 == j then some (grown file 9 bytes field) else inode_at j kernel.items store))
unfolding new_inode create_superblock got_four
write_data-flush_example =
    write_data-flush 4 9 bytes kernel got_four.0 written.0 written_out.0 file true kernel-IsCoherent
      (omega arith) got_four.1 at_file refl file-InRange (omega arith) refl (omega arith) written.1
      written_out.1
