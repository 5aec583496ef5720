-- ===== src/Alloc/Coords.antt =====
-- Positions in a bitmap of blocks of `bs` bytes, and the numbers of the bits.
use native.Mathlib.Nat.{
  mul-add-div_right, div-eq_of_lt, div-add-mod', mul-add-mod_self_right, mod-eq_of_lt,
}
use osep.Common.{ℕ, ◌+◌, ◌*◌, ◌/◌, ◌%◌, ◌≤◌, ◌<◌, ◌≡◌, arith, ◌∙◌}

module _ (d blk r : ℕ) (h : r < d) where
  quotient : (blk * d + r) / d ≡ blk
  quotient =
      let q = mul-add-div_right {m = d} (omega arith) blk r in omega (arith, q, div-eq_of_lt h)

  remainder : (blk * d + r) % d ≡ r
  remainder = mul-add-mod_self_right blk d r ∙ mod-eq_of_lt h

module _ (bs n : ℕ) where
  -- The parts of a number lie in range and make it up.
  pub coords_join : n / (bs * 8) * (bs * 8) + n % (bs * 8) / 8 * 8 + n % 8 ≡ n
  coords_join = let whole = div-add-mod' n (bs * 8) in omega (arith, whole)

  pub byte-lt : 0 < bs → n % (bs * 8) / 8 < bs
  byte-lt pos = omega arith

  pub block-lt : (cnt : ℕ) → n < cnt * (bs * 8) → n / (bs * 8) < cnt
  block-lt cnt h = grind arith

module _ (bs blk byte bit : ℕ) (hb : byte < bs) (hk : bit < 8) where
  -- A position is read off its number.
  pub coords_split :
      ((blk * (bs * 8) + byte * 8 + bit) / (bs * 8) ≡ blk)
      × ((blk * (bs * 8) + byte * 8 + bit) % (bs * 8) / 8 ≡ byte)
      × ((blk * (bs * 8) + byte * 8 + bit) % 8 ≡ bit)
  coords_split =
      let small : byte * 8 + bit < bs * 8 = omega arith in
      let q = quotient (bs * 8) blk (byte * 8 + bit) small in
      let m = remainder (bs * 8) blk (byte * 8 + bit) small in
      let e : blk * (bs * 8) + byte * 8 + bit ≡ blk * (bs * 8) + (byte * 8 + bit) = omega arith in
      (rw e q, rw e (rw m (omega arith)), omega arith)

  pub number-lt : (cnt : ℕ) → blk < cnt → blk * (bs * 8) + byte * 8 + bit < cnt * (bs * 8)
  number-lt cnt h = let row : blk * (bs * 8) + bs * 8 ≤ cnt * (bs * 8) = grind arith in omega arith
