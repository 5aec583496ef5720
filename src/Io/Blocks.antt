-- ===== src/Io/Blocks.antt =====
-- `read_block` and `acquire_block` of `IOContext` against the blocks that it stands for: its
-- clients see an array of blocks, whatever the cache holds.
use osep.Common.{ℕ, ◌≡◌, refl, Option, none, some, false, ◌==◌, if◌then◌else◌, arith}
use osep.Common.Bytes.{Buffer}
use osep.Disk.{Geometry}
use osep.Cache.Coherence.{view, IsCoherent}
use osep.Cache.Calls.{get-GotValue, get_mut-GotPointer, write_value_lem}
use osep.Io.{IoContext, block_backend, read_block, acquire_block, write_acquired}
use osep.Io.View.{Cached, IsBlock, block_backend-IsBackend}

module _ (g : Geometry) where
  -- The bytes of a block: those in the cache, or else those on the disk.
  unfoldable pub block : IoContext → ℕ → Option Buffer
  block c lba = view (block_backend g g.block_size) c.cache c.disk lba

  -- The super block agrees with the disk on the size of a block, and the cache is coherent.
  pub record IsReady (c : IoContext) : Type 0 where
    pub same_size : c.sb.block_size ≡ g.block_size
    pub coherent : IsCoherent (block_backend g g.block_size) (Cached g) (IsBlock g) c.cache c.disk

  pub record Same (c c' : IoContext) : Type 0 where
    pub ready : IsReady c'
    pub same_blocks : (j : ℕ) → block c' j ≡ block c j
    pub same_sb : c'.sb ≡ c.sb

  module _ (lba : ℕ) (c : IoContext) (ok : IsReady c) where
    -- In a ready context, `read_block` of a block of the disk other than block 0 succeeds and
    -- returns the block's bytes; no block changes, and the context is ready.
    pub read_block-block :
        Cached g lba
        → (v : Buffer) × (c' : IoContext) × (read_block g lba c ≡ some (v, c'))
          × (block c lba ≡ some v)
          × Same c c'
    unfolding read_block block
    read_block-block st =
        let backend = block_backend g g.block_size in
        let (v, cache, disk, run, got) =
          get-GotValue backend (Cached g) (IsBlock g) lba c.cache c.disk (block_backend-IsBackend g)
            st ok.coherent in
        let no : (lba == 0) ≡ false = ground arith in
        (
          v,
          record c { cache = cache; disk = disk },
          rw no (rw ok.same_size (rw run refl)),
          got.value,
          record {
            ready = record { same_size = ok.same_size; coherent = got.coherent };
            same_blocks = got.same_view;
            same_sb = refl;
          },
        )

    -- At block 0 both calls give the null pointer.
    pub null_block : lba ≡ 0 → (read_block g lba c ≡ none) × (acquire_block g lba c ≡ none)
    unfolding read_block acquire_block
    null_block z = (ground arith, ground arith)

    -- In a ready context, `acquire_block` of a block of the disk other than block 0 succeeds and
    -- returns the block's bytes; whatever block-sized bytes are then written through the pointer
    -- are the block's bytes, every other block and the super block stay the same, and the
    -- context is ready.
    pub acquire_block-write :
        Cached g lba
        → (w : Buffer) → IsBlock g w
        → (v : Buffer) × (c' : IoContext) × (acquire_block g lba c ≡ some (v, c'))
          × (block c lba ≡ some v)
          × IsReady (write_acquired lba w c')
          × ((j : ℕ) → block (write_acquired lba w c') j ≡ (if lba == j then some w else block c j))
          × (c'.sb ≡ c.sb)
    unfolding acquire_block write_acquired block
    acquire_block-write st w fw =
        let backend = block_backend g g.block_size in
        let (v, cache, disk, run, ptr) =
          get_mut-GotPointer backend (Cached g) (IsBlock g) lba c.cache c.disk
            (block_backend-IsBackend g) st ok.coherent in
        let (coherent, views) =
          write_value_lem backend (Cached g) (IsBlock g) lba w cache disk ptr.got.coherent ptr.item
            ptr.held ptr.dirty fw in
        let no : (lba == 0) ≡ false = ground arith in
        (
          v,
          record c { cache = cache; disk = disk },
          rw no (rw ok.same_size (rw run refl)),
          ptr.got.value,
          record { same_size = ok.same_size; coherent = coherent },
          λ j. rw (← ptr.got.same_view j) (views j),
          refl,
        )
