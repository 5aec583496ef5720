-- ===== src/Tests/Blocks.antt =====
-- A disk of 1 GB that reads as zeros, and a context over it with one dirty block in its cache.
use osep.Common.{
  ℕ, ◌≡◌, ◌==◌, ◌∙◌, ap, some, [], ◌∷◌, true, if◌then◌else◌, arith, refl, length, replicate,
  length-replicate, sym,
}
use osep.Common.Bytes.{Buffer}
use osep.Layout.{SuperBlock, create_superblock}
use osep.Layout.SuperBytes
use osep.Layout.SuperBytes.{encode_superblock}
use osep.Disk.{Geometry, File, clear_disk, read_disk_block, write_disk_block}
use osep.Disk.Blocks.{read-write, write_disk_total, clear-read}
use osep.Cache.{Item, find_item}
use osep.Cache.Coherence.{IsCoherent, view, empty_IsCoherent}
use osep.Io.{
  IoContext, block_backend, read_block, acquire_block, write_acquired, read_super_block,
  flush_super_block, flush_all,
}
use osep.Io.View.{Cached, IsBlock, load_block-read}
use osep.Io.Blocks.{block, IsReady, Same}
use osep.Io.Durable.{read-flush_super_block, flush_all-durable}
use osep.Store.{Store, fetch, put}
use osep.Store.Refines.{Represents, read_block-fetch, acquire_block-put}

abbrev disk : Geometry
disk = record { disk_size_gb = 1; block_size = 16384 }

abbrev empty_file : File
empty_file = record { size = 0; byte = λ _. 0 }

abbrev ones : Buffer
ones = replicate 16384 1

abbrev dirty_block : Buffer → Item Buffer
dirty_block v = record { key = 5; val = v; dirty = true; users = 0 }

only_five :
    (v : Buffer) (k : ℕ) (x : Item Buffer)
    → find_item k (dirty_block v ∷ []) ≡ some x
    → (k ≡ 5) × (v ≡ x.val) × (x.dirty ≡ true)
unfolding find_item
only_five v k x h = ground arith

dirty_block-IsCoherent :
    (v : Buffer)
    → length v ≡ 16384
    → IsCoherent
        (block_backend disk 16384)
        (Cached disk)
        (IsBlock disk)
        (record { capacity = 64; items = dirty_block v ∷ [] })
        empty_file
unfolding find_item
dirty_block-IsCoherent v len = record {
  distinct = (refl, tt);
  stored = λ k x h. let (e, _, _) = only_five v k x h in (omega arith, omega arith);
  fits = λ k x h. let (_, e, _) = only_five v k x h in ap length (sym e) ∙ len;
  clean = λ k x h d. let (_, _, e) = only_five v k x h in absurd (ground arith);
}

abbrev context : IoContext
context = record {
  sb = create_superblock 1;
  cache = record { capacity = 64; items = dirty_block ones ∷ [] };
  disk = empty_file;
}

context-IsReady : IsReady disk context
unfolding create_superblock
context-IsReady = record {
  same_size = refl;
  coherent = dirty_block-IsCoherent ones (length-replicate 16384 (let z : ℕ = 1 in z));
}

wrote : (f : File) × (write_disk_block disk 5 ones empty_file ≡ some f)
wrote =
    write_disk_total disk 5 ones empty_file (omega arith)
      (length-replicate 16384 (let z : ℕ = 1 in z))

read-write_example :
    read_disk_block disk 6 wrote.0
    ≡ (if 5 == 6 then some ones else read_disk_block disk 6 empty_file)
read-write_example =
    read-write disk 5 6 ones empty_file wrote.0 (omega arith)
      (length-replicate 16384 (let z : ℕ = 1 in z)) wrote.1

super-InRange : SuperBytes.InRange (create_superblock 1)
unfolding create_superblock
super-InRange = omega arith

read-flush_super_block_example :
    (c' : IoContext) × (flush_super_block disk context ≡ some c')
    × ((sb : SuperBlock) → read_super_block disk (record c' { sb = sb }) ≡ some c')
read-flush_super_block_example =
    read-flush_super_block disk refl (omega arith) context super-InRange

flush_all-durable_example :
    (c' : IoContext) × (flush_all disk context ≡ some c')
    × Same disk context c'
    × (read_disk_block disk 0 c'.disk ≡ some (encode_superblock context.sb))
    × ((j : ℕ) → Cached disk j → read_disk_block disk j c'.disk ≡ block disk context j)
flush_all-durable_example = flush_all-durable disk refl (omega arith) context context-IsReady

-- A fresh context over a cleared disk, and the store that it represents.
abbrev fresh : IoContext
fresh = record {
  sb = create_superblock 1;
  cache = record { capacity = 64; items = [] };
  disk = clear_disk disk empty_file;
}

abbrev zeros : Store
zeros = record { sb = create_superblock 1; limit = 65536; blocks = λ _. replicate 16384 0 }

fresh_block : (j : ℕ) → Cached disk j → block disk fresh j ≡ some (replicate 16384 0)
unfolding block view find_item
fresh_block j st =
    load_block-read disk j (clear_disk disk empty_file) st ∙ clear-read disk j empty_file st.1

fresh-Represents : Represents disk fresh zeros
unfolding create_superblock
fresh-Represents = record {
  ready = record {
    same_size = refl;
    coherent = empty_IsCoherent (block_backend disk 16384) (Cached disk) (IsBlock disk) 64 _;
  };
  same_sb = refl;
  same_limit = refl;
  same_blocks = fresh_block;
}

fetched : fetch 5 zeros ≡ some (replicate 16384 0)
unfolding fetch
fetched = refl

read_block-fetch_example :
    (c' : IoContext) × (read_block disk 5 fresh ≡ some (replicate 16384 0, c'))
    × Represents disk c' zeros
read_block-fetch_example =
    read_block-fetch disk fresh zeros fresh-Represents 5 (replicate 16384 0) fetched

acquire_block-put_example :
    (c' : IoContext) × (acquire_block disk 5 fresh ≡ some (replicate 16384 0, c'))
    × Represents disk (write_acquired 5 ones c') (put 5 ones zeros)
acquire_block-put_example =
    acquire_block-put disk fresh zeros fresh-Represents 5 (replicate 16384 0) fetched ones
      (length-replicate 16384 (let z : ℕ = 1 in z))
