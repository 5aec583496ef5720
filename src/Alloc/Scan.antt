-- ===== src/Alloc/Scan.antt =====
-- The bitmap that the blocks hold, and the search for a clear bit.
use osep.Common.{
  ℕ, zero, suc, ◌+◌, ◌*◌, ◌^◌, ◌≤◌, ◌<◌, ◌≡◌, ◌≢◌, inl, inr, Bool, true, false, Option, none, some,
  arith, ◌==◌, u64, get_or, length, Bool-cases, Option-cases, ==_iff,
}
use osep.Common.Bytes.{Buffer}
use osep.Common.Bits.{bit_is_clear, find_bit, find_bit_lem, bit_is_clear-full}
use osep.Store.{Store, fetch}
use osep.Alloc.{BitPos, find_byte, find_clear}

find_byte-none :
    (n i : ℕ) (buf : Buffer)
    → find_byte n i buf ≡ none
    → (j : ℕ) → i ≤ j
    → j < i + n
    → get_or buf j 0 ≡ 255
unfolding find_byte
find_byte-none zero i buf h j lo hi = absurd (omega arith)
find_byte-none (suc n) i buf h j lo hi = elim (Bool-cases (i == j)) [
  | inl e ↦ ground arith
  | inr e ↦ find_byte-none n (i + 1) buf (ground arith) j (ground arith) (omega arith)
]

find_byte-some :
    (n i : ℕ) (buf : Buffer) (b : ℕ)
    → find_byte n i buf ≡ some b
    → (b < i + n) × (get_or buf b 0 ≢ 255)
unfolding find_byte
find_byte-some zero i buf b h = cc
find_byte-some (suc n) i buf b h = ground (arith, find_byte-some n (i + 1) buf b)

-- The bit of a position: true if the block is free.
unfoldable pub bit_at : Store → BitPos → Bool
bit_at s p = bit_is_clear (get_or (s.blocks (p.block + s.sb.bitmap_block_start_lba)) p.byte 0) p.bit

-- The bitmap's blocks lie on the disk behind block 0, each of `block_size` bytes, and their bits
-- can be numbered by 64-bit words.
pub record IsBitmap (s : Store) : Type 0 where
  pub bits : s.sb.bits_per_block ≡ s.sb.block_size * 8
  pub block_pos : 0 < s.sb.block_size
  pub start_pos : 0 < s.sb.bitmap_block_start_lba
  pub on_disk : s.sb.bitmap_block_start_lba + s.sb.bitmap_blocks_cnt ≤ s.limit
  pub limit_word : s.limit ≤ 2 ^ 64
  pub bits_word : s.sb.bitmap_blocks_cnt * (s.sb.block_size * 8) ≤ 2 ^ 64
  pub last : s.sb.last_alloc_bitmap_blk_idx ≤ s.sb.bitmap_blocks_cnt
  pub sizes :
      (i : ℕ)
      → i < s.sb.bitmap_blocks_cnt
      → length (s.blocks (i + s.sb.bitmap_block_start_lba)) ≡ s.sb.block_size
  pub bytes :
      (i j : ℕ)
      → i < s.sb.bitmap_blocks_cnt
      → get_or (s.blocks (i + s.sb.bitmap_block_start_lba)) j 0 < 256

-- A position with block in a range, and byte and bit in theirs.
pub record InBlocks (s : Store) (lo hi : ℕ) (p : BitPos) : Type 0 where
  pub from : lo ≤ p.block
  pub to : p.block < hi
  pub byte : p.byte < s.sb.block_size
  pub bit : p.bit < 8

module _ (s : Store) (ok : IsBitmap s) where
  pub fetch_bitmap :
      (i : ℕ)
      → i < s.sb.bitmap_blocks_cnt
      → (u64 (i + s.sb.bitmap_block_start_lba) ≡ i + s.sb.bitmap_block_start_lba)
        × (fetch (i + s.sb.bitmap_block_start_lba) s
            ≡ some (s.blocks (i + s.sb.bitmap_block_start_lba)))
  unfolding fetch
  fetch_bitmap i h =
      let small : i + s.sb.bitmap_block_start_lba < 2 ^ 64 =
        omega (arith, ok.on_disk, ok.limit_word) in
      (omega arith, ground (arith, ok.on_disk, ok.start_pos))

  -- The search reports the first block with a clear bit in it, or that every bit is set.
  pub data Search (lo hi : ℕ) : Option (Option BitPos) → Type 0 where
    clear_at : (p : BitPos) → InBlocks s lo hi p → bit_at s p ≡ true → Search lo hi (some (some p))
    all_set : ((p : BitPos) → InBlocks s lo hi p → bit_at s p ≡ false) → Search lo hi (some none)

  full_byte :
      (p : BitPos) {idx : ℕ}
      → p.block ≡ idx
      → get_or (s.blocks (idx + s.sb.bitmap_block_start_lba)) p.byte 0 ≡ 255
      → p.bit < 8
      → bit_at s p ≡ false
  unfolding bit_at
  full_byte p here full small = rw here (rw full (bit_is_clear-full p.bit small))

  hit_free :
      (idx b : ℕ)
      → (let byte = get_or (s.blocks (idx + s.sb.bitmap_block_start_lba)) b 0 in
          bit_is_clear byte (find_bit 8 0 byte) ≡ true)
      → bit_at s (record {
        block = idx;
        byte = b;
        bit = find_bit 8 0 (get_or (s.blocks (idx + s.sb.bitmap_block_start_lba)) b 0);
      })
        ≡ true
  unfolding bit_at
  hit_free idx b h = h

  Search-none : (idx : ℕ) → Search idx (idx + 0) (find_clear 0 idx s)
  unfolding find_clear
  Search-none idx = all_set (λ p r. absurd (omega (arith, r.from, r.to)))

  module _ (n idx : ℕ) (h : idx < s.sb.bitmap_blocks_cnt) where
    step_hit :
        (b : ℕ)
        → find_byte s.sb.block_size 0 (s.blocks (idx + s.sb.bitmap_block_start_lba)) ≡ some b
        → find_clear (suc n) idx s
          ≡ some (
              some (record {
                block = idx;
                byte = b;
                bit = find_bit 8 0 (get_or (s.blocks (idx + s.sb.bitmap_block_start_lba)) b 0);
              }))
    unfolding find_clear
    step_hit b e = ground (arith, fetch_bitmap idx h)

    step_miss :
        find_byte s.sb.block_size 0 (s.blocks (idx + s.sb.bitmap_block_start_lba)) ≡ none
        → find_clear (suc n) idx s ≡ find_clear n (idx + 1) s
    unfolding find_clear
    step_miss e = ground (arith, fetch_bitmap idx h)

  Search-miss :
      (n idx : ℕ) (r : Option (Option BitPos))
      → find_byte s.sb.block_size 0 (s.blocks (idx + s.sb.bitmap_block_start_lba)) ≡ none
      → Search (idx + 1) (idx + 1 + n) r
      → Search idx (idx + suc n) r
  Search-miss n idx r e (clear_at p q free) =
      clear_at p
        (record {
          from = omega (arith, q.from);
          to = omega (arith, q.to);
          byte = q.byte;
          bit = q.bit;
        })
        free
  Search-miss n idx r e (all_set rest) = all_set (λ p q. elim (Bool-cases (p.block == idx)) [
    | inl here ↦ full_here p q ((==_iff p.block idx).0 here)
    | inr later ↦ rest p (record {
      from = ground (arith, q.from);
      to = omega (arith, q.to);
      byte = q.byte;
      bit = q.bit;
    })
  ])
    where
      full_here : (p : BitPos) → InBlocks s idx (idx + suc n) p → p.block ≡ idx → bit_at s p ≡ false
      full_here p q here =
          let full =
            find_byte-none s.sb.block_size 0 (s.blocks (idx + s.sb.bitmap_block_start_lba)) e p.byte
              (omega arith) (omega (arith, q.byte)) in
          full_byte p here full q.bit

  pub find_clear-Search :
      (n idx : ℕ) → idx + n ≤ s.sb.bitmap_blocks_cnt → Search idx (idx + n) (find_clear n idx s)
  find_clear-Search zero idx h = Search-none idx
  find_clear-Search (suc n) idx h =
      let buf = s.blocks (idx + s.sb.bitmap_block_start_lba) in
      elim (Option-cases (find_byte s.sb.block_size 0 buf)) [
        | inr (b, e) ↦
            let (hi, ne) = find_byte-some s.sb.block_size 0 buf b e in
            let (small, free) = find_bit_lem (get_or buf b 0) (ok.bytes idx b (omega arith)) ne in
            rw (step_hit n idx (omega arith) b e) (
              clear_at _
                (record { from = omega arith; to = omega arith; byte = omega arith; bit = small })
                (hit_free idx b free))
        | inl e ↦
            rw (step_miss n idx (omega arith) e)
              (Search-miss n idx _ e (find_clear-Search n (idx + 1) (omega arith)))
      ]
