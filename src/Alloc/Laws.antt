-- ===== src/Alloc/Laws.antt =====
-- `allocate_block` and `free_block` against the set of free blocks.
use osep.Common.{
  ℕ, ◌+◌, ◌*◌, ◌/◌, ◌%◌, ◌≤◌, ◌<◌, ◌≡◌, refl, ◌⊎◌, Bool, ◌&&◌, arith, ◌==◌, if◌then◌else◌,
}
use osep.Store.{Store}
use osep.Alloc.{BitPos, lba_of}
use osep.Alloc.Coords.{coords_join, coords_split, byte-lt, block-lt, number-lt}
use osep.Alloc.Scan.{bit_at, IsBitmap, InBlocks}
use osep.Alloc.Write.{same_pos, Flipped}

-- The position of a block's bit, as `free_block` computes it.
unfoldable pub pos_of : Store → ℕ → BitPos
pos_of s n = record {
  block = n / s.sb.bits_per_block;
  byte = n % s.sb.bits_per_block / 8;
  bit = n % 8;
}

-- Whether a block is free, and how many blocks the bitmap has bits for.
unfoldable pub is_free : Store → ℕ → Bool
unfolding pos_of
is_free s n = bit_at s (pos_of s n)

abbrev pub bit_count : Store → ℕ
bit_count s = s.sb.bitmap_blocks_cnt * s.sb.bits_per_block

abbrev pub All : Store → BitPos → Type 0
All s p = InBlocks s 0 s.sb.bitmap_blocks_cnt p

pos_of_eq :
    (s s' : Store) (n : ℕ) → s.sb.bits_per_block ≡ s'.sb.bits_per_block → pos_of s n ≡ pos_of s' n
unfolding pos_of
pos_of_eq s s' n e = rw e refl

same_parts :
    (bs n m : ℕ)
    → n / (bs * 8) * (bs * 8) + n % (bs * 8) / 8 * 8 + n % 8 ≡ n
    → m / (bs * 8) * (bs * 8) + m % (bs * 8) / 8 * 8 + m % 8 ≡ m
    → ((n / (bs * 8) == m / (bs * 8))
        && ((n % (bs * 8) / 8 == m % (bs * 8) / 8) && (n % 8 == m % 8)))
      ≡ (n == m)
same_parts bs n m jn jm = ground arith

module _ (s : Store) (ok : IsBitmap s) where
  pub pos_of-InBlocks : (n : ℕ) → n < bit_count s → All s (pos_of s n)
  unfolding pos_of
  pos_of-InBlocks n h = rw ok.bits (record {
    from = omega arith;
    to = block-lt s.sb.block_size n s.sb.bitmap_blocks_cnt (rw (← ok.bits) h);
    byte = byte-lt s.sb.block_size n ok.block_pos;
    bit = omega arith;
  })

  pub lba_of-pos : (n : ℕ) → n < bit_count s → lba_of s.sb.bits_per_block (pos_of s n) ≡ n
  unfolding lba_of pos_of
  lba_of-pos n h =
      let join = coords_join s.sb.block_size n in
      let h' : n < s.sb.bitmap_blocks_cnt * (s.sb.block_size * 8) = rw (← ok.bits) h in
      let word = ok.bits_word in rw ok.bits (rw join (omega arith))

  -- The number of a position is not wrapped.
  pub plain_lba :
      (p : BitPos)
      → All s p
      → (lba_of s.sb.bits_per_block p ≡ p.block * (s.sb.block_size * 8) + p.byte * 8 + p.bit)
        × (lba_of s.sb.bits_per_block p < bit_count s)
  unfolding lba_of
  plain_lba p r =
      let small =
        number-lt s.sb.block_size p.block p.byte p.bit r.byte r.bit s.sb.bitmap_blocks_cnt r.to in
      let word = ok.bits_word in rw ok.bits (omega arith, omega arith)

  pub pos_of-lba : (p : BitPos) → All s p → pos_of s (lba_of s.sb.bits_per_block p) ≡ p
  unfolding pos_of
  pos_of-lba p r =
      let (blk, byte, bit) = coords_split s.sb.block_size p.block p.byte p.bit r.byte r.bit in
      rw ((plain_lba p r).0)
        (rw ok.bits (λ i. record { block = blk i; byte = byte i; bit = bit i }))

  -- Two numbers name one position only if they are equal.
  same_pos_iff :
      (n m : ℕ) → n < bit_count s → m < bit_count s → same_pos (pos_of s n) (pos_of s m) ≡ (n == m)
  unfolding pos_of
  same_pos_iff n m hn hm =
      let jn = coords_join s.sb.block_size n in
      let jm = coords_join s.sb.block_size m in rw ok.bits (same_parts s.sb.block_size n m jn jm)

  -- Only the bit of block `lba` has changed: it is free now, or it is not.
  pub record OnlyBit (s' : Store) (lba : ℕ) (b : Bool) : Type 0 where
    pub bits : (n : ℕ) → n < bit_count s → is_free s' n ≡ (if lba == n then b else is_free s n)
    pub others :
        (j : ℕ)
        → (j < s.sb.bitmap_block_start_lba)
          ⊎ (s.sb.bitmap_block_start_lba + s.sb.bitmap_blocks_cnt ≤ j)
        → s'.blocks j ≡ s.blocks j
    pub bitmap : IsBitmap s'

  pub OnlyBit-Flipped :
      (s' : Store) (lba : ℕ) (b : Bool)
      → lba < bit_count s
      → s'.sb.bits_per_block ≡ s.sb.bits_per_block
      → Flipped s s' (pos_of s lba) b
      → OnlyBit s' lba b
  unfolding is_free
  OnlyBit-Flipped s' lba b h e f = record {
    bits = λ n hn. rw (← same_pos_iff lba n h hn) (same_bits n hn);
    others = λ j out. f.others j (λ q. absurd (out_of_range j out q));
    bitmap = f.bitmap;
  }
    where
      same_bits :
          (n : ℕ)
          → n < bit_count s
          → bit_at s' (pos_of s' n)
            ≡ (if same_pos (pos_of s lba) (pos_of s n) then b else bit_at s (pos_of s n))
      same_bits n hn = rw (pos_of_eq s' s n e) (f.bits (pos_of s n) (pos_of-InBlocks n hn))

      out_of_range :
          (j : ℕ)
          → (j < s.sb.bitmap_block_start_lba)
            ⊎ (s.sb.bitmap_block_start_lba + s.sb.bitmap_blocks_cnt ≤ j)
          → j ≡ (pos_of s lba).block + s.sb.bitmap_block_start_lba
          → ⊥
      out_of_range j out q = let r = pos_of-InBlocks lba h in let hi = r.to in omega arith
