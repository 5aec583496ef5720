-- ===== src/Io.antt =====
-- `BlockCacheBackend` and `IOContext` of include/IOContext.hpp: the cache of blocks before the disk,
-- and the super block. `none` is an exception or the use of the null pointer of block 0.
pub mod View
pub mod Blocks
pub mod Durable
use osep.Common.{ℕ, ◌≡◌, Option, none, some, ◌==◌, if◌then◌else◌, ◌>>=◌, ◌>>◌, replicate}
use osep.Common.Bytes.{Buffer, copy_to}
use osep.Layout.{SuperBlock}
use osep.Layout.SuperBytes.{encode_superblock, decode_superblock}
use osep.Disk.{Geometry, File, clear_disk, read_disk_block, write_disk_block}
use osep.Cache
use osep.Cache.{CacheBackend, LruCache}

-- `BlockCacheBackend::load`: a buffer of the super block's block size, filled from the disk.
unfoldable pub load_block : Geometry → ℕ → ℕ → File → Option Buffer
load_block g block_size lba f =
    if lba == 0
    then some (replicate block_size 0)
    else (do bytes ← read_disk_block g lba f; copy_to (replicate block_size 0) 0 bytes)

-- `BlockCacheBackend::save`
unfoldable pub save_block : Geometry → ℕ → Buffer → File → Option File
save_block g lba buffer f = if lba == 0 then some f else write_disk_block g lba buffer f

abbrev pub block_backend : Geometry → ℕ → CacheBackend Buffer File
block_backend g block_size = record { load = load_block g block_size; save = save_block g }

pub record IoContext : Type 0 where
  pub sb : SuperBlock
  pub disk : File
  pub cache : LruCache Buffer

module _ (g : Geometry) where
  -- `read_block` hands out a pointer to the block's bytes, and `acquire_block` one to write by.
  unfoldable pub read_block : ℕ → IoContext → Option (Buffer × IoContext)
  read_block lba c = if lba == 0 then none else (do
    (v, cache, disk) ← Cache.get (block_backend g c.sb.block_size) lba c.cache c.disk
    some (v, record c { cache = cache; disk = disk }))

  unfoldable pub acquire_block : ℕ → IoContext → Option (Buffer × IoContext)
  acquire_block lba c = if lba == 0 then none else (do
    (v, cache, disk) ← Cache.get_mut (block_backend g c.sb.block_size) lba c.cache c.disk
    some (v, record c { cache = cache; disk = disk }))

  unfoldable pub read_super_block : IoContext → Option IoContext
  read_super_block c = do
    bytes ← read_disk_block g 0 c.disk
    some (record c { sb = decode_superblock bytes })

  unfoldable pub flush_super_block : IoContext → Option IoContext
  flush_super_block c = do
    disk ← write_disk_block g 0 (encode_superblock c.sb) c.disk
    some (record c { disk = disk })

  unfoldable pub flush_all : IoContext → Option IoContext
  unfolding flush_super_block
  flush_all c = do
    c' ← flush_super_block c
    (cache, disk) ← Cache.flush_all (block_backend g c'.sb.block_size) c'.cache c'.disk
    some (record c' { cache = cache; disk = disk })

  unfoldable pub clear : IoContext → Option IoContext
  clear c = do
    (cache, disk) ← Cache.clear (block_backend g c.sb.block_size) c.cache c.disk
    some (record c { cache = cache; disk = clear_disk g disk })

-- What a caller writes through the pointer of `acquire_block`, and the end of its use.
unfoldable pub write_acquired : ℕ → Buffer → IoContext → IoContext
write_acquired lba bytes c = record c { cache = Cache.write_value lba bytes c.cache }

unfoldable pub release_block : ℕ → IoContext → IoContext
release_block lba c = record c { cache = Cache.release lba c.cache }
