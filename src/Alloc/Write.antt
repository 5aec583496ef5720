-- ===== src/Alloc/Write.antt =====
-- One byte of the bitmap is written: what that does to every bit.
use osep.Common.{
  ℕ, ◌+◌, ◌≤◌, ◌<◌, ◌≡◌, Bool, ◌&&◌, arith, ◌==◌, if◌then◌else◌, get_or, set, get_or-set,
  length-set,
}
use osep.Common.Bits.{bit_is_clear}
use osep.Store.{Store, put}
use osep.Alloc.{BitPos}
use osep.Alloc.Scan.{bit_at, IsBitmap, InBlocks}

-- The store with the byte of a position replaced, and two counters of the super block.
unfoldable pub written : Store → BitPos → ℕ → ℕ → ℕ → Store
unfolding put
written s p v free last =
    let lba = p.block + s.sb.bitmap_block_start_lba in
    record (put lba (set (s.blocks lba) p.byte v) s) {
      sb = record s.sb { free_blocks = free; last_alloc_bitmap_blk_idx = last };
    }

abbrev pub same_pos : BitPos → BitPos → Bool
same_pos p q = (p.block == q.block) && ((p.byte == q.byte) && (p.bit == q.bit))

-- The bit of one position has become `b`, and nothing else has changed but the two counters.
pub record Flipped (s s' : Store) (p : BitPos) (b : Bool) : Type 0 where
  pub bits :
      (q : BitPos)
      → InBlocks s 0 s.sb.bitmap_blocks_cnt q
      → bit_at s' q ≡ (if same_pos p q then b else bit_at s q)
  pub others : (j : ℕ) → (j ≡ p.block + s.sb.bitmap_block_start_lba → ⊥) → s'.blocks j ≡ s.blocks j
  pub bitmap : IsBitmap s'

module _ (s : Store) (ok : IsBitmap s) (p : BitPos) (r : InBlocks s 0 s.sb.bitmap_blocks_cnt p)
    (v free last : ℕ) where
  byte_after :
      (i j : ℕ)
      → get_or ((written s p v free last).blocks (i + s.sb.bitmap_block_start_lba)) j 0 ≡ (
          if p.block == i
          then (if p.byte == j then v else get_or (s.blocks (i + s.sb.bitmap_block_start_lba)) j 0)
          else get_or (s.blocks (i + s.sb.bitmap_block_start_lba)) j 0)
  unfolding written
  byte_after i j =
      let lba = p.block + s.sb.bitmap_block_start_lba in
      ground (
        arith,
        get_or-set (s.blocks lba) p.byte j v 0 (omega (arith, ok.sizes p.block r.to, r.byte)),
      )

  written-IsBitmap : v < 256 → last ≤ s.sb.bitmap_blocks_cnt → IsBitmap (written s p v free last)
  unfolding written
  written-IsBitmap small hl = record {
    bits = ok.bits;
    block_pos = ok.block_pos;
    start_pos = ok.start_pos;
    on_disk = ok.on_disk;
    limit_word = ok.limit_word;
    bits_word = ok.bits_word;
    last = hl;
    sizes = λ i h. ground (
      arith,
      ok.sizes i h,
      length-set (s.blocks (p.block + s.sb.bitmap_block_start_lba)) p.byte v,
    );
    bytes = λ i j h. ground (arith, byte_after i j, ok.bytes i j h);
  }

  -- The write of a byte whose bits are those of the old one, but for one bit.
  pub written-Flipped :
      (b : Bool)
      → v < 256
      → last ≤ s.sb.bitmap_blocks_cnt
      → ((k : ℕ)
          → k < 8
          → bit_is_clear v k ≡ (
              if p.bit == k
              then b
              else bit_is_clear
                  (get_or (s.blocks (p.block + s.sb.bitmap_block_start_lba)) p.byte 0)
                  k))
      → Flipped s (written s p v free last) p b
  unfolding written bit_at
  written-Flipped b small hl hv = record {
    bits = λ q rq. ground (arith, byte_after q.block q.byte, hv q.bit rq.bit);
    others = λ j ne. ground arith;
    bitmap = written-IsBitmap small hl;
  }
