-- ===== src/Common/Bits.antt =====
-- The bits of a byte, numbered from the most significant one, as both bitmaps number them.
-- The laws are checked on all bytes by evaluation.
use Prim.Native.Nat.{bit_and, bit_or}
use osep.Common.{
  ℕ, zero, suc, ◌+◌, ◌-◌, ◌^◌, ◌<◌, ◌≡◌, ◌≢◌, refl, Bool, true, false, ◌&&◌, ◌||◌, not, arith, ◌==◌,
  ltb, if◌then◌else◌,
}

-- `1 << (7 - k)`
abbrev pub bit_mask : ℕ → ℕ
bit_mask k = 2 ^ (7 - k)

-- `~b & (1 << (7 - k))`, as a test
unfoldable pub bit_is_clear : ℕ → ℕ → Bool
bit_is_clear b k = not (bit_and (255 - b) (bit_mask k) == 0)

-- `b |= 1 << (7 - k)`
unfoldable pub set_bit : ℕ → ℕ → ℕ
set_bit b k = bit_or b (bit_mask k)

-- `b &= ~(1 << (7 - k))`
unfoldable pub clear_bit : ℕ → ℕ → ℕ
clear_bit b k = bit_and b (255 - bit_mask k)

-- `for (k = i; k < i + n; k++) if (~b & (1 << (7 - k))) break;`, and the final value of `k`
unfoldable pub find_bit : ℕ → ℕ → ℕ → ℕ
find_bit zero i b = i
find_bit (suc n) i b = let rest = find_bit n (i + 1) b in if bit_is_clear b i then i else rest

-- Whether a test passes for each number under a bound.
passes : (ℕ → Bool) → ℕ → Bool
passes test zero = true
passes test (suc bound) = if test bound then passes test bound else false

passes_at : (test : ℕ → Bool) (bound k : ℕ) → k < bound → passes test bound ≡ true → test k ≡ true
unfolding passes
passes_at test zero k under all = elim under [ ]
passes_at test (suc bound) k under all = ground (arith, passes_at test bound k)

Bool_eq : Bool → Bool → Bool
Bool_eq true b = b
Bool_eq false b = not b

Bool_eq_sound : (a b : Bool) → Bool_eq a b ≡ true → a ≡ b
unfolding Bool_eq
Bool_eq_sound true b h = ground arith
Bool_eq_sound false b h = ground arith

-- A law of a byte and two positions, as one test.
Law : (ℕ → ℕ → ℕ → Bool) → Type 0
Law p = passes (λ b. passes (λ k. passes (λ j. p b k j) 8) 8) 256 ≡ true

Law-at : (p : ℕ → ℕ → ℕ → Bool) → Law p → (b k j : ℕ) → b < 256 → k < 8 → j < 8 → p b k j ≡ true
unfolding Law
Law-at p h b k j hb hk hj =
    let at_b = passes_at (λ b. passes (λ k. passes (λ j. p b k j) 8) 8) 256 b hb h in
    passes_at (λ j. p b k j) 8 j hj (passes_at (λ k. passes (λ j. p b k j) 8) 8 k hk at_b)

abbrev set_law : ℕ → ℕ → ℕ → Bool
set_law b k j =
    ltb (set_bit b k) 256
    && Bool_eq (bit_is_clear (set_bit b k) j) (if k == j then false else bit_is_clear b j)

abbrev clear_law : ℕ → ℕ → ℕ → Bool
clear_law b k j =
    ltb (clear_bit b k) 256
    && Bool_eq (bit_is_clear (clear_bit b k) j) (if k == j then true else bit_is_clear b j)

abbrev find_law : ℕ → ℕ → ℕ → Bool
find_law b k j = (b == 255) || (ltb (find_bit 8 0 b) 8 && bit_is_clear b (find_bit 8 0 b))

abbrev full_law : ℕ → ℕ → ℕ → Bool
full_law b k j = not (b == 255) || not (bit_is_clear b k)

set_table : Law set_law
unfolding Law passes Bool_eq bit_is_clear set_bit
set_table = refl

clear_table : Law clear_law
unfolding Law passes Bool_eq bit_is_clear clear_bit
clear_table = refl

find_table : Law find_law
unfolding Law passes bit_is_clear find_bit
find_table = refl

full_table : Law full_law
unfolding Law passes bit_is_clear
full_table = refl

module _ (b k j : ℕ) (hb : b < 256) (hk : k < 8) (hj : j < 8) where
  set_facts : set_law b k j ≡ true
  set_facts = Law-at set_law set_table b k j hb hk hj

  clear_facts : clear_law b k j ≡ true
  clear_facts = Law-at clear_law clear_table b k j hb hk hj

  pub set_bit-lt : set_bit b k < 256
  set_bit-lt = ground (arith, set_facts)

  pub clear_bit-lt : clear_bit b k < 256
  clear_bit-lt = ground (arith, clear_facts)

  pub bit_is_clear-set_bit :
      bit_is_clear (set_bit b k) j ≡ (if k == j then false else bit_is_clear b j)
  bit_is_clear-set_bit = Bool_eq_sound _ _ (ground (arith, set_facts))

  pub bit_is_clear-clear_bit :
      bit_is_clear (clear_bit b k) j ≡ (if k == j then true else bit_is_clear b j)
  bit_is_clear-clear_bit = Bool_eq_sound _ _ (ground (arith, clear_facts))

-- A byte other than 0xff has a clear bit, and `find_bit` finds it.
pub find_bit_lem :
    (b : ℕ) → b < 256 → b ≢ 255 → (find_bit 8 0 b < 8) × (bit_is_clear b (find_bit 8 0 b) ≡ true)
find_bit_lem b hb ne =
    ground (arith, Law-at find_law find_table b 0 0 hb (omega arith) (omega arith))

-- 0xff has none.
pub bit_is_clear-full : (k : ℕ) → k < 8 → bit_is_clear 255 k ≡ false
bit_is_clear-full k hk =
    ground (arith, Law-at full_law full_table 255 k 0 (omega arith) hk (omega arith))
