-- ===== src/Tests/Allocation.antt =====
-- A bitmap of two blocks of four bytes, the first one full, and what the calls do to it.
use osep.Common.{
  ℕ, zero, suc, ◌+◌, ◌≡◌, ◌<◌, ◌==◌, Option, some, [], ◌∷◌, true, if◌then◌else◌, arith, refl,
  get_or, Bool-cases, inl, inr,
}
use osep.Common.Bits.{find_bit, bit_is_clear, set_bit}
use osep.Common.Bytes.{Buffer}
use osep.Layout.{SuperBlock, create_superblock}
use osep.Store.{Store, fetch, put}
use osep.Alloc.{allocate_block, free_block, reset_bitmap, partial_bytes}
use osep.Alloc.Scan.{IsBitmap}
use osep.Alloc.Laws.{is_free, bit_count, OnlyBit}
use osep.Alloc.Calls.{Allocated, allocate_block-Allocated, free_block-OnlyBit, free-allocate_block}
use osep.Alloc.Reset.{reset_block, reset_bitmap-blocks}

abbrev super : SuperBlock
super = record (create_superblock 1) {
  block_size = 4;
  bits_per_block = 32;
  bitmap_block_start_lba = 1;
  bitmap_blocks_cnt = 2;
  inode_block_start_lba = 5;
  basic_blocks_cnt = 43;
  last_alloc_bitmap_blk_idx = 0;
  free_blocks = 21;
}

abbrev full_bytes : Buffer
full_bytes = 255 ∷ 255 ∷ 255 ∷ 255 ∷ []

abbrev part_bytes : Buffer
part_bytes = 255 ∷ 224 ∷ 0 ∷ 0 ∷ []

abbrev store : Store
store = record { sb = super; limit = 64; blocks = λ j. if j == 1 then full_bytes else part_bytes }

part_byte : (j : ℕ) → get_or part_bytes j 0 < 256
part_byte zero = omega arith
part_byte (suc zero) = omega arith
part_byte (suc (suc zero)) = omega arith
part_byte (suc (suc (suc zero))) = omega arith
part_byte (suc (suc (suc (suc j)))) = omega arith

full_byte : (j : ℕ) → get_or full_bytes j 0 < 256
full_byte zero = omega arith
full_byte (suc zero) = omega arith
full_byte (suc (suc zero)) = omega arith
full_byte (suc (suc (suc zero))) = omega arith
full_byte (suc (suc (suc (suc j)))) = omega arith

store-IsBitmap : IsBitmap store
store-IsBitmap = record {
  bits = refl;
  block_pos = omega arith;
  start_pos = omega arith;
  on_disk = omega arith;
  limit_word = omega arith;
  bits_word = omega arith;
  last = omega arith;
  sizes = λ i h. elim (Bool-cases (i + 1 == 1)) [ inl e ↦ rw e refl | inr e ↦ rw e refl ];
  bytes = λ i j h. elim (Bool-cases (i + 1 == 1)) [
    | inl e ↦ rw e (full_byte j)
    | inr e ↦ rw e (part_byte j)
  ];
}

allocate_block-Allocated_example :
    (r : Option ℕ × Store) × (allocate_block store ≡ some r) × Allocated store store-IsBitmap r
allocate_block-Allocated_example = allocate_block-Allocated store store-IsBitmap

free_block-OnlyBit_example :
    (s' : Store) × (free_block 17 store ≡ some s')
    × OnlyBit store store-IsBitmap s' 17 true
    × (s'.sb ≡ record super { free_blocks = 22 })
free_block-OnlyBit_example = free_block-OnlyBit store store-IsBitmap 17 (omega arith)

abbrev after_alloc : Store
after_alloc = record {
  sb = record super { free_blocks = 20; last_alloc_bitmap_blk_idx = 1 };
  limit = 64;
  blocks = λ j. if 2 == j then 255 ∷ 240 ∷ 0 ∷ 0 ∷ [] else store.blocks j;
}

allocated : allocate_block store ≡ some (some 43, after_alloc)
unfolding allocate_block fetch find_bit put bit_is_clear set_bit
allocated = refl

free-allocate_block_example :
    (s2 : Store) × (free_block 43 after_alloc ≡ some s2)
    × ((n : ℕ) → n < bit_count store → is_free s2 n ≡ is_free store n)
    × (s2.sb.free_blocks ≡ 21)
free-allocate_block_example =
    free-allocate_block store store-IsBitmap 43 after_alloc allocated (omega arith)

reset_bitmap-blocks_example :
    (s' : Store) × (reset_bitmap store ≡ some s')
    × (s'.sb ≡ store.sb)
    × ((i : ℕ) → i < 2 → s'.blocks (i + 1) ≡ reset_block store store-IsBitmap i)
    × (s'.blocks 6 ≡ partial_bytes 1 3 (store.blocks 6))
reset_bitmap-blocks_example =
    reset_bitmap-blocks store store-IsBitmap (omega arith) (omega arith) (omega arith)
