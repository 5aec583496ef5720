-- ===== src/Io/Durable.antt =====
-- What reaches the disk: `flush_all`, `clear`, and the super block at block 0.
use osep.Common.{ℕ, ◌≡◌, refl, ap, ◌∙◌, sym, some, ◌==◌, if◌then◌else◌, arith, replicate, [], false}
use osep.Common.Bytes.{Buffer}
use osep.Layout.{SuperBlock}
use osep.Layout.SuperBytes.{
  encode_superblock, InRange, decode-encode_superblock, length-encode_superblock,
}
use osep.Disk.{Geometry, File, clear_disk, read_disk_block, write_disk_block}
use osep.Disk.Blocks.{OnDisk, read-write, write_disk_total, clear-read}
use osep.Cache
use mathlib.Core.Path.{subst}
use osep.Cache.{LruCache}
use osep.Cache.Coherence.{IsCoherent, view_of_load, empty_IsCoherent}
use osep.Cache.Flush.{flush_all_lem, clear_lem}
use osep.Cache.Kept.{flush_all-keeps}
use osep.Io.{
  IoContext, block_backend, flush_all, flush_super_block, read_super_block, save_block, clear,
}
use osep.Io.View.{Cached, IsBlock, block_backend-IsBackend, load_block-read, load_block-others}
use osep.Io.Blocks.{block, IsReady, Same}

module _ (g : Geometry) (size : g.block_size ≡ 16384) (on : OnDisk g 0) where
  module _ (c : IoContext) where
    -- `flush_super_block` succeeds and leaves the bytes of the super block in block 0.
    flush_super_lem :
        (f : File) × (flush_super_block g c ≡ some (record c { disk = f }))
        × ((j : ℕ)
            → read_disk_block g j f
              ≡ (if 0 == j then some (encode_superblock c.sb) else read_disk_block g j c.disk))
    unfolding flush_super_block
    flush_super_lem =
        let fit = length-encode_superblock c.sb ∙ sym size in
        let (f, run) = write_disk_total g 0 (encode_superblock c.sb) c.disk on fit in
        (f, rw run refl, λ j. read-write g 0 j (encode_superblock c.sb) c.disk f on fit run)

    -- With blocks of 16384 bytes and a disk that has block 0, `flush_super_block` succeeds, and
    -- a super block within its members' ranges is read back the same by `read_super_block`,
    -- whatever super block the context held in between.
    pub read-flush_super_block :
        InRange c.sb
        → (c' : IoContext) × (flush_super_block g c ≡ some c')
          × ((sb : SuperBlock) → read_super_block g (record c' { sb = sb }) ≡ some c')
    unfolding read_super_block
    read-flush_super_block r =
        let (f, run, reads) = flush_super_lem in
        (
          record c { disk = f },
          run,
          λ sb.
              rw (reads 0)
                (ap some (λ i. record c { sb = decode-encode_superblock c.sb r i; disk = f })),
        )

    -- The save of a block that the cache may hold leaves block 0 of the disk alone.
    save_block-super :
        (k : ℕ) (v : Buffer) (h h' : File)
        → Cached g k
        → IsBlock g v
        → save_block g k v h ≡ some h'
        → read_disk_block g 0 h ≡ some (encode_superblock c.sb)
        → read_disk_block g 0 h' ≡ some (encode_superblock c.sb)
    unfolding save_block
    save_block-super k v h h' st fit e super =
        let pos : (k == 0) ≡ false = ground arith in
        let written : write_disk_block g k v h ≡ some h' = ground arith in
        ground (arith, read-write g k 0 v h h' st.1 fit written)

    flush_all_run :
        (n : ℕ) (f disk : File) (cache : LruCache Buffer)
        → n ≡ c.sb.block_size
        → flush_super_block g c ≡ some (record c { disk = f })
        → Cache.flush_all (block_backend g n) c.cache f ≡ some (cache, disk)
        → flush_all g c ≡ some (record c { cache = cache; disk = disk })
    unfolding flush_all
    flush_all_run n f disk cache e run done = rw run (
        rw (subst (λ k. Cache.flush_all (block_backend g k) c.cache f ≡ some (cache, disk)) e done)
          refl)

    -- With blocks of 16384 bytes and a disk that has block 0, `flush_all` of a ready context
    -- succeeds; then block 0 of the disk holds the bytes of the super block, every other block
    -- of the disk reads there as the context showed it, no block has changed for the context,
    -- and the context is ready.
    pub flush_all-durable :
        IsReady g c
        → (c' : IoContext) × (flush_all g c ≡ some c')
          × Same g c c'
          × (read_disk_block g 0 c'.disk ≡ some (encode_superblock c.sb))
          × ((j : ℕ) → Cached g j → read_disk_block g j c'.disk ≡ block g c j)
    unfolding block
    flush_all-durable ok =
        let backend = block_backend g g.block_size in
        let (f, run, reads) = flush_super_lem in
        let loads = load_block-others g c.disk f (λ j ne. ground (arith, reads j)) in
        let coherent : IsCoherent backend (Cached g) (IsBlock g) c.cache f = record {
          distinct = ok.coherent.distinct;
          stored = ok.coherent.stored;
          fits = ok.coherent.fits;
          clean = λ k x h d. loads k ∙ ok.coherent.clean k x h d;
        } in
        let views = view_of_load backend c.cache f c.disk loads in
        let (cache, disk, done, coherent', stored, same, clean, len) =
          flush_all_lem backend (Cached g) (IsBlock g) (block_backend-IsBackend g) c.cache f
            coherent in
        (
          record c { cache = cache; disk = disk },
          flush_all_run g.block_size f disk cache (sym ok.same_size) run done,
          record {
            ready = record { same_size = ok.same_size; coherent = coherent' };
            same_blocks = λ j. same j ∙ views j;
            same_sb = refl;
          },
          flush_all-keeps backend (Cached g) (IsBlock g)
              (λ h. read_disk_block g 0 h ≡ some (encode_superblock c.sb)) save_block-super c.cache
              cache f disk coherent done (reads 0),
          λ j st. sym (load_block-read g j disk st) ∙ stored j ∙ views j,
        )

    -- With blocks of 16384 bytes and a disk that has block 0, `clear` of a ready context
    -- succeeds: the cache is empty, the super block in memory is kept, the context is ready, and
    -- every block of the disk, block 0 too, reads as zeros.
    pub clear-zeros :
        IsReady g c
        → (c' : IoContext) × (clear g c ≡ some c')
          × IsReady g c'
          × (c'.cache.items ≡ [])
          × (c'.sb ≡ c.sb)
          × ((j : ℕ) → OnDisk g j → read_disk_block g j c'.disk ≡ some (replicate g.block_size 0))
    unfolding clear
    clear-zeros ok =
        let backend = block_backend g g.block_size in
        let (disk, done, stored) =
          clear_lem backend (Cached g) (IsBlock g) (block_backend-IsBackend g) c.cache c.disk
            ok.coherent in
        (
          record c { cache = record c.cache { items = [] }; disk = clear_disk g disk },
          rw ok.same_size (rw done refl),
          record {
            same_size = ok.same_size;
            coherent = empty_IsCoherent backend _ _ c.cache.capacity _;
          },
          refl,
          refl,
          λ j st. clear-read g j disk st,
        )
