-- ===== src/Alloc/Calls.antt =====
-- The calls `allocate_block` and `free_block`, on every branch.
use mathlib.Core.Path.{subst}
use osep.Common.{
  ℕ, ◌+◌, ◌-◌, ◌*◌, ◌/◌, ◌^◌, ◌≤◌, ◌<◌, ◌≡◌, refl, inl, inr, true, false, Option, none, some, arith,
  ◌==◌, ltb, u64, sub64, get_or, Bool-cases, sym, ap, ltb→lt, ==_iff,
}
use osep.Common.Bits.{
  set_bit, clear_bit, set_bit-lt, clear_bit-lt, bit_is_clear-set_bit, bit_is_clear-clear_bit,
}
use osep.Layout.{SuperBlock}
use osep.Store.{Store, put}
use osep.Alloc.{BitPos, find_clear, take_bit, lba_of, search_range, allocate_block, free_block}
use osep.Alloc.Scan.{
  bit_at, IsBitmap, InBlocks, fetch_bitmap, Search, clear_at, all_set, find_clear-Search,
}
use osep.Alloc.Write.{written, Flipped, written-Flipped}
use osep.Alloc.Laws.{
  pos_of, is_free, bit_count, All, pos_of-InBlocks, plain_lba, pos_of-lba, OnlyBit, OnlyBit-Flipped,
}

module _ (s : Store) (ok : IsBitmap s) where
  byte_of : BitPos → ℕ
  byte_of p = get_or (s.blocks (p.block + s.sb.bitmap_block_start_lba)) p.byte 0

  byte_of-lt : (p : BitPos) → All s p → byte_of p < 256
  unfolding byte_of
  byte_of-lt p r = ok.bytes p.block p.byte r.to

  after_take : BitPos → Store
  after_take p = written s p (set_bit (byte_of p) p.bit) (sub64 s.sb.free_blocks 1) p.block

  take_bit-run :
      (p : BitPos) → All s p → take_bit p s ≡ some (lba_of s.sb.bits_per_block p, after_take p)
  unfolding take_bit after_take byte_of written put
  take_bit-run p r = let (wrap, got) = fetch_bitmap s ok p.block r.to in rw wrap (rw got refl)

  take_bit-Flipped : (p : BitPos) → All s p → Flipped s (after_take p) p false
  unfolding after_take byte_of
  take_bit-Flipped p r =
      written-Flipped s ok p r _ _ p.block false
        (set_bit-lt (byte_of p) p.bit 0 (byte_of-lt p r) r.bit (omega arith)) (omega (arith, r.to))
        (λ k hk. bit_is_clear-set_bit (byte_of p) p.bit k (byte_of-lt p r) r.bit hk)

  same_bpb : (p : BitPos) → (after_take p).sb.bits_per_block ≡ s.sb.bits_per_block
  unfolding after_take written
  same_bpb p = refl

  counters :
      (p : BitPos) (lba : ℕ)
      → pos_of s lba ≡ p
      → (after_take p).sb ≡ record s.sb {
        free_blocks = sub64 s.sb.free_blocks 1;
        last_alloc_bitmap_blk_idx = lba / s.sb.bits_per_block;
      }
  unfolding after_take written pos_of
  counters p lba at =
      let e : p.block ≡ lba / s.sb.bits_per_block = ap (λ (q : BitPos). q.block) (sym at) in
      λ i. record s.sb { free_blocks = sub64 s.sb.free_blocks 1; last_alloc_bitmap_blk_idx = e i }

  -- What `allocate_block` returns: a block that was free and is not any more, with the count of
  -- free blocks one less, or nothing, and then no block was free and nothing has changed.
  pub data Allocated : Option ℕ × Store → Type 0 where
    given :
        (lba : ℕ) (s' : Store)
        → lba < bit_count s
        → is_free s lba ≡ true
        → OnlyBit s ok s' lba false
        → s'.sb ≡ record s.sb {
          free_blocks = sub64 s.sb.free_blocks 1;
          last_alloc_bitmap_blk_idx = lba / s.sb.bits_per_block;
        }
        → Allocated (some lba, s')
    full : ((n : ℕ) → n < bit_count s → is_free s n ≡ false) → Allocated (none, s)

  Allocated-take :
      (p : BitPos)
      → All s p
      → bit_at s p ≡ true
      → Allocated (some (lba_of s.sb.bits_per_block p), after_take p)
  unfolding is_free
  Allocated-take p r free =
      let at = pos_of-lba s ok p r in
      let lba = lba_of s.sb.bits_per_block p in
      given lba (after_take p) (plain_lba s ok p r).1 (rw at free)
        (OnlyBit-Flipped s ok (after_take p) lba false (plain_lba s ok p r).1 (same_bpb p)
          (rw at (take_bit-Flipped p r)))
        (counters p lba at)

  -- What `search_range` returns on a range of bitmap blocks.
  data Ranged (lo hi : ℕ) : Option ℕ × Store → Type 0 where
    taken : (r : Option ℕ × Store) → Allocated r → (lba : ℕ) → r.0 ≡ some lba → Ranged lo hi r
    nothing : ((p : BitPos) → InBlocks s lo hi p → bit_at s p ≡ false) → Ranged lo hi (none, s)

  module _ (lo hi : ℕ) (h : hi ≤ s.sb.bitmap_blocks_cnt) (le : lo ≤ hi) where
    widen : (p : BitPos) → InBlocks s lo (lo + (hi - lo)) p → All s p
    widen p r = record { from = omega arith; to = omega (arith, r.to); byte = r.byte; bit = r.bit }

    Search-from :
        (f : Option (Option BitPos))
        → find_clear (hi - lo) lo s ≡ f
        → Search s ok lo (lo + (hi - lo)) f
        → (r : Option ℕ × Store) × (search_range lo hi s ≡ some r) × Ranged lo hi r
    unfolding search_range
    Search-from f e (clear_at p q free) =
        let run = take_bit-run p (widen p q) in
        (
          (some (lba_of s.sb.bits_per_block p), after_take p),
          rw e (rw run refl),
          taken _ (Allocated-take p (widen p q) free) (lba_of s.sb.bits_per_block p) refl,
        )
    Search-from f e (all_set none_left) = (
      (none, s),
      rw e refl,
      nothing (λ p r.
          none_left p
            (record { from = r.from; to = omega (arith, r.to); byte = r.byte; bit = r.bit })),
    )

    search_range-Ranged : (r : Option ℕ × Store) × (search_range lo hi s ≡ some r) × Ranged lo hi r
    search_range-Ranged = Search-from _ refl (find_clear-Search s ok (hi - lo) lo (omega arith))

  module _
      (first : (p : BitPos)
        → InBlocks s s.sb.last_alloc_bitmap_blk_idx s.sb.bitmap_blocks_cnt p
        → bit_at s p ≡ false)
      (e : search_range s.sb.last_alloc_bitmap_blk_idx s.sb.bitmap_blocks_cnt s
        ≡ some (none, s)) where
    none_free :
        ((p : BitPos) → InBlocks s 0 s.sb.last_alloc_bitmap_blk_idx p → bit_at s p ≡ false)
        → (n : ℕ) → n < bit_count s
        → is_free s n ≡ false
    unfolding is_free
    none_free second n h =
        let r = pos_of-InBlocks s ok n h in
        elim (Bool-cases (ltb (pos_of s n).block s.sb.last_alloc_bitmap_blk_idx)) [
          | inl low ↦
              second (pos_of s n)
                (record { from = omega arith; to = ltb→lt _ _ low; byte = r.byte; bit = r.bit })
          | inr high ↦
              first (pos_of s n)
                (record { from = ground arith; to = r.to; byte = r.byte; bit = r.bit })
        ]

    second_search :
        ltb 0 s.sb.last_alloc_bitmap_blk_idx ≡ true
        → (r : Option ℕ × Store) → search_range 0 s.sb.last_alloc_bitmap_blk_idx s ≡ some r
        → Ranged 0 s.sb.last_alloc_bitmap_blk_idx r
        → (r' : Option ℕ × Store) × (allocate_block s ≡ some r') × Allocated r'
    unfolding allocate_block
    second_search more r e' (taken r' got lba q) = (r', rw e (rw more e'), got)
    second_search more r e' (nothing second) =
        ((none, s), rw e (rw more e'), full (none_free second))

    no_second :
        ltb 0 s.sb.last_alloc_bitmap_blk_idx ≡ false
        → (r' : Option ℕ × Store) × (allocate_block s ≡ some r') × Allocated r'
    unfolding allocate_block
    no_second low =
        ((none, s), rw e (rw low refl), full (none_free (λ p r. absurd (ground (arith, r.to)))))

  first_search :
      (r : Option ℕ × Store)
      → search_range s.sb.last_alloc_bitmap_blk_idx s.sb.bitmap_blocks_cnt s ≡ some r
      → Ranged s.sb.last_alloc_bitmap_blk_idx s.sb.bitmap_blocks_cnt r
      → (r' : Option ℕ × Store) × (allocate_block s ≡ some r') × Allocated r'
  unfolding allocate_block
  first_search r e (taken r' (given lba s' a b c d) lba' q) =
      ((some lba, s'), rw e refl, given lba s' a b c d)
  first_search r e (taken r' (full f) lba q) = absurd (cc)
  first_search r e (nothing first) = elim (Bool-cases (ltb 0 s.sb.last_alloc_bitmap_blk_idx)) [
    | inl more ↦
        let (r', e', ranged) =
          search_range-Ranged 0 s.sb.last_alloc_bitmap_blk_idx (omega (arith, ok.last))
            (omega arith) in
        second_search first e more r' e' ranged
    | inr low ↦ no_second first e low
  ]

  -- On a well-formed bitmap `allocate_block` always returns. It returns a free block, and then
  -- that block alone is used from then on, the count of free blocks is one less (as a 64-bit
  -- word) and the next search starts at its bitmap block; or it returns nothing, no block of the
  -- bitmap is free, and nothing has changed.
  pub allocate_block-Allocated : (r : Option ℕ × Store) × (allocate_block s ≡ some r) × Allocated r
  allocate_block-Allocated =
      let (r, e, ranged) =
        search_range-Ranged s.sb.last_alloc_bitmap_blk_idx s.sb.bitmap_blocks_cnt (omega arith)
          ok.last in
      first_search r e ranged

  after_free : ℕ → Store
  unfolding byte_of
  after_free lba =
      let p = pos_of s lba in
      written s p (clear_bit (byte_of p) p.bit) (u64 (s.sb.free_blocks + 1))
        s.sb.last_alloc_bitmap_blk_idx

  free_block-run : (lba : ℕ) → lba < bit_count s → free_block lba s ≡ some (after_free lba)
  unfolding free_block after_free written pos_of put
  free_block-run lba h =
      let (wrap, got) = fetch_bitmap s ok (pos_of s lba).block (pos_of-InBlocks s ok lba h).to in
      rw wrap (rw got refl)

  free_block-Flipped :
      (lba : ℕ) → lba < bit_count s → Flipped s (after_free lba) (pos_of s lba) true
  unfolding after_free byte_of
  free_block-Flipped lba h =
      let r = pos_of-InBlocks s ok lba h in
      let p = pos_of s lba in
      written-Flipped s ok p r _ _ s.sb.last_alloc_bitmap_blk_idx true
        (clear_bit-lt (byte_of p) p.bit 0 (byte_of-lt p r) r.bit (omega arith)) ok.last
        (λ k hk. bit_is_clear-clear_bit (byte_of p) p.bit k (byte_of-lt p r) r.bit hk)

  after_free_sb :
      (lba : ℕ) → (after_free lba).sb ≡ record s.sb { free_blocks = u64 (s.sb.free_blocks + 1) }
  unfolding after_free written
  after_free_sb lba = refl

  -- On a well-formed bitmap, `free_block` of a block that the bitmap covers always returns; that
  -- block is free then, no other block's state has changed, and the count of free blocks is one
  -- more (as a 64-bit word).
  pub free_block-OnlyBit :
      (lba : ℕ)
      → lba < bit_count s
      → (s' : Store) × (free_block lba s ≡ some s')
        × OnlyBit s ok s' lba true
        × (s'.sb ≡ record s.sb { free_blocks = u64 (s.sb.free_blocks + 1) })
  free_block-OnlyBit lba h = (
    after_free lba,
    free_block-run lba h,
    OnlyBit-Flipped s ok (after_free lba) lba true h
        (ap (λ (b : SuperBlock). b.bits_per_block) (after_free_sb lba)) (free_block-Flipped lba h),
    after_free_sb lba,
  )

module _ (s : Store) (ok : IsBitmap s) where
  undo :
      (lba : ℕ) (s1 : Store)
      → Allocated s ok (some lba, s1)
      → s.sb.free_blocks < 2 ^ 64
      → (s2 : Store) × (free_block lba s1 ≡ some s2)
        × ((n : ℕ) → n < bit_count s → is_free s2 n ≡ is_free s n)
        × (s2.sb.free_blocks ≡ s.sb.free_blocks)
  undo lba s1 (given _ _ h free only sb) small =
      let same : bit_count s1 ≡ bit_count s =
        ap (λ (b : SuperBlock). b.bitmap_blocks_cnt * b.bits_per_block) sb in
      let (s2, run, only', sb') = free_block-OnlyBit s1 only.bitmap lba (rw same h) in
      let one = ap (λ (b : SuperBlock). b.free_blocks) sb in
      let two = ap (λ (b : SuperBlock). b.free_blocks) sb' in
      (
        s2,
        run,
        λ n hn. elim (Bool-cases (lba == n)) [
          | inl e ↦
              let q = (==_iff lba n).0 e in ground (arith, only'.bits n (rw same hn), rw q at free)
          | inr e ↦ ground (arith, only'.bits n (rw same hn), only.bits n hn)
        ],
        omega (arith, one, two),
      )

  -- If `allocate_block` returned a block of a well-formed bitmap whose count of free blocks is a
  -- 64-bit word, that block can be freed at once: then the same blocks are free as before, and
  -- the count of free blocks is what it was.
  pub free-allocate_block :
      (lba : ℕ) (s1 : Store)
      → allocate_block s ≡ some (some lba, s1)
      → s.sb.free_blocks < 2 ^ 64
      → (s2 : Store) × (free_block lba s1 ≡ some s2)
        × ((n : ℕ) → n < bit_count s → is_free s2 n ≡ is_free s n)
        × (s2.sb.free_blocks ≡ s.sb.free_blocks)
  free-allocate_block lba s1 run small =
      let (r, e, got) = allocate_block-Allocated s ok in
      let p : r ≡ (some lba, s1) = cc in undo lba s1 (subst (Allocated s ok) p got) small
