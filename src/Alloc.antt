-- ===== src/Alloc.antt =====
-- `BlockAllocator` of include/BlockAllocator.hpp: the bitmap of used blocks. Log lines are left
-- out. A buffer has `block_size` bytes, so no index leaves it.
pub mod Coords
pub mod Scan
pub mod Write
pub mod Laws
pub mod Calls
pub mod Reset
use osep.Common.{
  ℕ, zero, suc, ◌+◌, ◌-◌, ◌*◌, ◌/◌, ◌%◌, ◌^◌, Option, none, some, ◌==◌, ltb, if◌then◌else◌, ◌>>=◌,
  u64, sub64, set, get_or, length, replicate,
}
use Prim.Native.Nat.{bit_or}
use osep.Common.Bytes.{Buffer}
use osep.Common.Bits.{set_bit, clear_bit, find_bit}
use osep.Store.{Store, fetch, put}

-- `for (byte_idx = i; byte_idx < i + n; byte_idx++) if (buf[byte_idx] != 0xff) break;`
unfoldable pub find_byte : ℕ → ℕ → Buffer → Option ℕ
find_byte zero i buf = none
find_byte (suc n) i buf =
    let rest = find_byte n (i + 1) buf in if get_or buf i 0 == 255 then rest else some i

-- A position in the bitmap: block, byte and bit.
pub record BitPos : Type 0 where
  pub block : ℕ
  pub byte : ℕ
  pub bit : ℕ

-- The loop over `n` bitmap blocks from `idx` on, up to the first clear bit.
unfoldable pub find_clear : ℕ → ℕ → Store → Option (Option BitPos)
unfolding find_byte
find_clear zero idx s = some none
find_clear (suc n) idx s =
    let rest = find_clear n (idx + 1) s in
    do
      buf ← fetch (u64 (idx + s.sb.bitmap_block_start_lba)) s
      elim (find_byte s.sb.block_size 0 buf) [
        | none ↦ rest
        | some byte ↦
            some
              (some (record { block = idx; byte = byte; bit = find_bit 8 0 (get_or buf byte 0) }))
      ]

-- The block that a position of the bitmap stands for.
unfoldable pub lba_of : ℕ → BitPos → ℕ
lba_of bits_per_block p = u64 (p.block * bits_per_block + p.byte * 8 + p.bit)

-- What `search_range` does with the position that it found.
unfoldable pub take_bit : BitPos → Store → Option (ℕ × Store)
unfolding lba_of
take_bit p s = do
  let lba = u64 (p.block + s.sb.bitmap_block_start_lba)
  buf ← fetch lba s
  let s' = put lba (set buf p.byte (set_bit (get_or buf p.byte 0) p.bit)) s
  some (
    lba_of s.sb.bits_per_block p,
    record s' {
      sb = record s.sb {
        free_blocks = sub64 s.sb.free_blocks 1;
        last_alloc_bitmap_blk_idx = p.block;
      };
    },
  )

-- The lambda `search_range`.
unfoldable pub search_range : ℕ → ℕ → Store → Option (Option ℕ × Store)
unfolding find_clear take_bit
search_range start_idx end_idx s = do
  found ← find_clear (end_idx - start_idx) start_idx s
  elim found [ none ↦ some (none, s) | some p ↦ do (lba, s') ← take_bit p s; some (some lba, s') ]

unfoldable pub allocate_block : Store → Option (Option ℕ × Store)
unfolding search_range
allocate_block s = do
  (res, s') ← search_range s.sb.last_alloc_bitmap_blk_idx s.sb.bitmap_blocks_cnt s
  elim res [
    | some lba ↦ some (some lba, s')
    | none ↦
        if ltb 0 s'.sb.last_alloc_bitmap_blk_idx
        then search_range 0 s'.sb.last_alloc_bitmap_blk_idx s'
        else some (none, s')
  ]

unfoldable pub free_block : ℕ → Store → Option Store
free_block lba s = do
  let bitmap_lba = u64 (lba / s.sb.bits_per_block + s.sb.bitmap_block_start_lba)
  let byte_idx = lba % s.sb.bits_per_block / 8
  let bit_idx = lba % 8
  buf ← fetch bitmap_lba s
  let s' = put bitmap_lba (set buf byte_idx (clear_bit (get_or buf byte_idx 0) bit_idx)) s
  some (record s' { sb = record s.sb { free_blocks = u64 (s.sb.free_blocks + 1) } })

-- `for (i = i0; i < i0 + n; i++)`, each block `i + start` filled with one byte.
unfoldable pub fill_blocks : ℕ → ℕ → ℕ → ℕ → Store → Option Store
fill_blocks zero i start byte s = some s
fill_blocks (suc n) i start byte s = do
  buf ← fetch (u64 (i + start)) s
  fill_blocks n (i + 1) start byte (put (u64 (i + start)) (replicate (length buf) byte) s)

-- `for (i = 0; i < n; i++) buf[i] = byte`
unfoldable pub fill_bytes : ℕ → ℕ → Buffer → Buffer
fill_bytes zero byte buf = buf
fill_bytes (suc n) byte buf = set (fill_bytes n byte buf) n byte

-- The bytes of the partly set block: its first bits become ones.
unfoldable pub partial_bytes : ℕ → ℕ → Buffer → Buffer
unfolding fill_bytes
partial_bytes remaining_bytes remaining_bits buf =
    let ones = fill_bytes remaining_bytes 255 buf in
    let last = bit_or (get_or ones remaining_bytes 0) (255 * 2 ^ (8 - remaining_bits) % 256) in
    if remaining_bits == 0 then ones else set ones remaining_bytes last

-- Where the all-zero blocks begin: `full + (bytes || bits)`.
unfoldable pub first_zero_block : ℕ → ℕ → ℕ → ℕ
first_zero_block full remaining_bytes remaining_bits =
    full + (if remaining_bytes == 0 then (if remaining_bits == 0 then 0 else 1) else 1)

unfoldable pub reset_bitmap : Store → Option Store
unfolding fill_blocks partial_bytes first_zero_block
reset_bitmap s = do
  let full_bitmap_blocks = s.sb.basic_blocks_cnt / s.sb.bits_per_block
  let remaining_blocks = s.sb.basic_blocks_cnt % s.sb.bits_per_block
  let remaining_bytes = remaining_blocks / 8
  let remaining_bits = remaining_blocks % 8
  s1 ← fill_blocks full_bitmap_blocks 0 s.sb.bitmap_block_start_lba 255 s
  let partial = u64 (full_bitmap_blocks + s.sb.inode_block_start_lba)
  buf ← fetch partial s1
  let s2 = put partial (partial_bytes remaining_bytes remaining_bits buf) s1
  let first = first_zero_block full_bitmap_blocks remaining_bytes remaining_bits
  fill_blocks (s.sb.bitmap_blocks_cnt - first) first s.sb.bitmap_block_start_lba 0 s2
