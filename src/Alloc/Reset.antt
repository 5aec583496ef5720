-- ===== src/Alloc/Reset.antt =====
-- What `reset_bitmap` writes.
use osep.Common.{
  ℕ, zero, suc, ◌+◌, ◌-◌, ◌/◌, ◌%◌, ◌^◌, ◌≤◌, ◌<◌, ◌≡◌, refl, ◌∙◌, false, ◌&&◌, ◌||◌, some, arith,
  ◌==◌, ltb, leb, if◌then◌else◌, u64, length, replicate, length-replicate,
}
use osep.Common.Bytes.{Buffer}
use osep.Store.{Store, fetch, put}
use osep.Alloc.{fill_blocks, partial_bytes, first_zero_block, reset_bitmap}
use osep.Alloc.Scan.{IsBitmap}

-- The blocks of a range are filled with one byte, and no other block.
record Filled (lo hi byte : ℕ) (s s' : Store) : Type 0 where
  blocks :
      (j : ℕ)
      → s'.blocks j
        ≡ (if leb lo j && ltb j hi then replicate (length (s.blocks j)) byte else s.blocks j)
  same_sb : s'.sb ≡ s.sb
  same_limit : s'.limit ≡ s.limit

fill_none : (i start byte : ℕ) (s : Store) → fill_blocks zero i start byte s ≡ some s
unfolding fill_blocks
fill_none i start byte s = refl

fill_step :
    (n i start byte : ℕ) (s s' : Store)
    → 0 < start
    → i + start < s.limit
    → s.limit ≤ 2 ^ 64
    → fill_blocks n
        (i + 1)
        start
        byte
        (put (i + start) (replicate (length (s.blocks (i + start))) byte) s)
      ≡ some s'
    → fill_blocks (suc n) i start byte s ≡ some s'
unfolding fill_blocks fetch
fill_step n i start byte s s' pos fit word run =
    let wrap : u64 (i + start) ≡ i + start = omega arith in
    let ok : ((i + start == 0) || leb s.limit (i + start)) ≡ false = ground arith in
    rw wrap (rw ok run)

fill_blocks-Filled :
    (n i start byte : ℕ) (s : Store)
    → 0 < start
    → i + n + start ≤ s.limit
    → s.limit ≤ 2 ^ 64
    → (s' : Store) × (fill_blocks n i start byte s ≡ some s')
      × Filled (i + start) (i + n + start) byte s s'
unfolding put
fill_blocks-Filled zero i start byte s pos fit word = (
  s,
  fill_none i start byte s,
  record { blocks = λ j. ground arith; same_sb = refl; same_limit = refl },
)
fill_blocks-Filled (suc n) i start byte s pos fit word =
    let s1 = put (i + start) (replicate (length (s.blocks (i + start))) byte) s in
    let (s', run, rest) = fill_blocks-Filled n (i + 1) start byte s1 pos (omega arith) word in
    (
      s',
      fill_step n i start byte s s' pos (omega arith) word run,
      record {
        blocks = λ j.
            ground (arith, rest.blocks j, length-replicate (length (s.blocks (i + start))) byte);
        same_sb = rest.same_sb;
        same_limit = rest.same_limit;
      },
    )

module _ (s : Store) (ok : IsBitmap s) where
  -- The blocks that the system itself uses fill so many bitmap blocks, and so many bits of one more.
  abbrev full_blocks : ℕ
  full_blocks = s.sb.basic_blocks_cnt / s.sb.bits_per_block

  abbrev rest_bits : ℕ
  rest_bits = s.sb.basic_blocks_cnt % s.sb.bits_per_block

  -- What `reset_bitmap` leaves in bitmap block `i`.
  abbrev pub reset_block : ℕ → Buffer
  reset_block i =
      if ltb i full_blocks
      then replicate s.sb.block_size 255
      else if (i == full_blocks) && ltb 0 rest_bits
      then s.blocks (i + s.sb.bitmap_block_start_lba)
      else replicate s.sb.block_size 0

  abbrev first : ℕ
  first = first_zero_block full_blocks (rest_bits / 8) (rest_bits % 8)

  first_lem : first ≡ full_blocks + (if ltb 0 rest_bits then 1 else 0)
  unfolding first_zero_block
  first_lem = ground arith

  module _
      (table : s.sb.bitmap_block_start_lba + s.sb.bitmap_blocks_cnt ≤ s.sb.inode_block_start_lba)
      (inside : s.sb.inode_block_start_lba + full_blocks < s.limit)
      (fits : full_blocks < s.sb.bitmap_blocks_cnt) where
    abbrev partial : ℕ
    partial = full_blocks + s.sb.inode_block_start_lba

    reset_run :
        (s1 s3 : Store)
        → s1.sb ≡ s.sb
        → s1.limit ≡ s.limit
        → fill_blocks full_blocks 0 s.sb.bitmap_block_start_lba 255 s ≡ some s1
        → fill_blocks
            (s.sb.bitmap_blocks_cnt - first)
            first
            s.sb.bitmap_block_start_lba
            0
            (put partial (partial_bytes (rest_bits / 8) (rest_bits % 8) (s1.blocks partial)) s1)
          ≡ some s3
        → reset_bitmap s ≡ some s3
    unfolding reset_bitmap fetch
    reset_run s1 s3 sb lim r1 r3 =
        let word = ok.limit_word in
        let start = ok.start_pos in
        let wrap : u64 partial ≡ partial = omega arith in
        let got : ((partial == 0) || leb s1.limit partial) ≡ false = ground arith in
        rw r1 (rw wrap (rw got r3))

    -- On a well-formed bitmap with the inode table behind it on the disk, and more bitmap blocks
    -- than the system's own blocks fill, `reset_bitmap` returns. It sets every bit of the bitmap
    -- blocks that the system's blocks fill and clears every bit of those beyond; but the one
    -- block that they fill in part is left as it was, and the bytes meant for it go to a block
    -- from the start of the inode table on.
    pub reset_bitmap-blocks :
        (s' : Store) × (reset_bitmap s ≡ some s')
        × (s'.sb ≡ s.sb)
        × ((i : ℕ)
            → i < s.sb.bitmap_blocks_cnt
            → s'.blocks (i + s.sb.bitmap_block_start_lba) ≡ reset_block i)
        × (s'.blocks partial ≡ partial_bytes (rest_bits / 8) (rest_bits % 8) (s.blocks partial))
    unfolding put
    reset_bitmap-blocks =
        let lim = ok.limit_word in
        let on_disk = ok.on_disk in
        let le : first ≤ s.sb.bitmap_blocks_cnt = ground (arith, first_lem) in
        let (s1, r1, f1) =
          fill_blocks-Filled full_blocks 0 s.sb.bitmap_block_start_lba 255 s ok.start_pos
            (omega arith) lim in
        let s2 =
          put partial (partial_bytes (rest_bits / 8) (rest_bits % 8) (s1.blocks partial)) s1 in
        let (s3, r3, f3) =
          fill_blocks-Filled (s.sb.bitmap_blocks_cnt - first) first s.sb.bitmap_block_start_lba 0 s2
            ok.start_pos (omega (arith, f1.same_limit)) (omega (arith, f1.same_limit)) in
        (
          s3,
          reset_run s1 s3 f1.same_sb f1.same_limit r1 r3,
          f3.same_sb ∙ f1.same_sb,
          λ i h. ground (
            arith,
            first_lem,
            ok.sizes i h,
            f1.blocks (i + s.sb.bitmap_block_start_lba),
            f3.blocks (i + s.sb.bitmap_block_start_lba),
          ),
          ground (arith, f1.blocks partial, f3.blocks partial),
        )
