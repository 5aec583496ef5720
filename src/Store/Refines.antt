-- ===== src/Store/Refines.antt =====
-- An `IOContext` implements the array of blocks.
use mathlib.Core.Path.{subst}
use osep.Common.{ℕ, ◌/◌, ◌<◌, ◌≡◌, ◌∙◌, some, arith}
use osep.Common.Bytes.{Buffer}
use osep.Disk.{Geometry, expected_size_bytes}
use osep.Io.{IoContext, read_block, acquire_block, write_acquired}
use osep.Io.View.{Cached, IsBlock}
use osep.Io.Blocks.{block, IsReady, read_block-block, acquire_block-write}
use osep.Store.{Store, fetch, put}

module _ (g : Geometry) where
  -- The context is ready, and its super block and its blocks on the disk are the store's.
  pub record Represents (c : IoContext) (s : Store) : Type 0 where
    pub ready : IsReady g c
    pub same_sb : c.sb ≡ s.sb
    pub same_limit : s.limit ≡ expected_size_bytes g / g.block_size
    pub same_blocks : (j : ℕ) → Cached g j → block g c j ≡ some (s.blocks j)

  fetch_cached :
      (lba n : ℕ) (v : Buffer) (s : Store)
      → s.limit ≡ n
      → fetch lba s ≡ some v
      → (0 < lba) × (lba < n) × (v ≡ s.blocks lba)
  unfolding fetch
  fetch_cached lba n v s e h = ground arith

  module _ (c : IoContext) (s : Store) (rep : Represents c s) (lba : ℕ) (v : Buffer)
      (got : fetch lba s ≡ some v) where
    -- If a context represents a store, and the store hands out a block, then `read_block`
    -- returns the same bytes, and the context goes on to represent the store.
    pub read_block-fetch : (c' : IoContext) × (read_block g lba c ≡ some (v, c')) × Represents c' s
    read_block-fetch =
        let (pos, on, e) = fetch_cached lba _ v s rep.same_limit got in
        let (v', c', run, value, same) = read_block-block g lba c rep.ready (pos, on) in
        let w : v' ≡ v = ground (arith, rep.same_blocks lba (pos, on)) in
        (
          c',
          subst (λ b. read_block g lba c ≡ some (b, c')) w run,
          record {
            ready = same.ready;
            same_sb = same.same_sb ∙ rep.same_sb;
            same_limit = rep.same_limit;
            same_blocks = λ j st. same.same_blocks j ∙ rep.same_blocks j st;
          },
        )

    -- If a context represents a store, and the store hands out a block, then `acquire_block`
    -- returns the same bytes, and after a write of a block's bytes through its pointer the
    -- context represents the store with that block replaced.
    pub acquire_block-put :
        (w : Buffer)
        → IsBlock g w
        → (c' : IoContext) × (acquire_block g lba c ≡ some (v, c'))
          × Represents (write_acquired lba w c') (put lba w s)
    unfolding put write_acquired
    acquire_block-put w fw =
        let (pos, on, e) = fetch_cached lba _ v s rep.same_limit got in
        let (v', c', run, value, ready, wrote, sbs) =
          acquire_block-write g lba c rep.ready (pos, on) w fw in
        let q : v' ≡ v = ground (arith, rep.same_blocks lba (pos, on)) in
        (
          c',
          subst (λ b. acquire_block g lba c ≡ some (b, c')) q run,
          record {
            ready = ready;
            same_sb = sbs ∙ rep.same_sb;
            same_limit = rep.same_limit;
            same_blocks = λ j st. ground (arith, wrote j, rep.same_blocks j st);
          },
        )
