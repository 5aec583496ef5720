-- ===== src/Layout/Codec.antt =====
-- The bytes of a struct in memory, as `memcpy` and the `reinterpret_cast`s of the source see them:
-- little-endian words at the offsets that a 64-bit ABI gives the members.
use osep.Common.{ℕ, zero, suc, ◌+◌, ◌*◌, ◌/◌, ◌%◌, ◌^◌, ◌<◌, ◌≡◌, [], ◌∷◌, ◌++◌, arith, drop}
use osep.Common.Bytes.{Buffer}

-- The low `w` bytes of a number.
unfoldable pub le_bytes : ℕ → ℕ → Buffer
le_bytes zero n = []
le_bytes (suc w) n = (n % 256) ∷ le_bytes w (n / 256)

-- The word of `w` bytes at the start of a buffer.
unfoldable pub le_value : ℕ → Buffer → ℕ
le_value zero xs = 0
le_value (suc w) [] = 0
le_value (suc w) (x ∷ xs) = x + 256 * le_value w xs

-- The word of `w` bytes at an offset.
unfoldable pub word_at : ℕ → ℕ → Buffer → ℕ
unfolding le_value
word_at off w buf = le_value w (drop off buf)

abbrev FitsIn : ℕ → ℕ → Type 0
FitsIn zero n = n ≡ 0
FitsIn (suc w) n = FitsIn w (n / 256)

value-bytes : (w n : ℕ) (rest : Buffer) → FitsIn w n → le_value w (le_bytes w n ++ rest) ≡ n
unfolding le_bytes le_value
value-bytes zero n rest h = omega arith
value-bytes (suc w) n rest h = omega (arith, value-bytes w (n / 256) rest h)

pub value-bytes_eight : (n : ℕ) (rest : Buffer) → n < 2 ^ 64 → le_value 8 (le_bytes 8 n ++ rest) ≡ n
value-bytes_eight n rest h = value-bytes 8 n rest (omega arith)

pub value-bytes_four : (n : ℕ) (rest : Buffer) → n < 2 ^ 32 → le_value 4 (le_bytes 4 n ++ rest) ≡ n
value-bytes_four n rest h = value-bytes 4 n rest (omega arith)

pub value-bytes_two : (n : ℕ) (rest : Buffer) → n < 2 ^ 16 → le_value 2 (le_bytes 2 n ++ rest) ≡ n
value-bytes_two n rest h = value-bytes 2 n rest (omega arith)

pub value-bytes_one : (n : ℕ) (rest : Buffer) → n < 256 → le_value 1 (le_bytes 1 n ++ rest) ≡ n
value-bytes_one n rest h = value-bytes 1 n rest (omega arith)
