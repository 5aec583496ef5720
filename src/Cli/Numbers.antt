-- ===== src/Cli/Numbers.antt =====
-- What `str2unum` of include/CLI.hpp computes.
use native.Mathlib.Nat.{add-mul-mod_self_right, div-add-mod', mod-eq_of_lt}
use osep.Common.{
  ℕ, zero, suc, ◌+◌, ◌*◌, ◌-◌, ◌/◌, ◌%◌, ◌^◌, ◌<◌, ◌==◌, ltb, ◌≡◌, refl, ap, sym, ◌∙◌, inl, inr,
  not, ◌&&◌, ◌||◌, none, some, [], ◌∷◌, Bool, true, if◌then◌else◌, arith, Bool-cases, length, u64,
}
use osep.Common.Bytes.{Buffer}
use osep.Common.Text.{digits, to_string}
use osep.Cli.{str2unum_from, str2unum}

-- The number that decimal digits stand for, each with its power of ten.
unfoldable pub decimal : Buffer → ℕ
decimal [] = 0
decimal (c ∷ cs) = (c - b'0') * 10 ^ length cs + decimal cs

unfoldable pub all_digits : Buffer → Bool
all_digits [] = true
all_digits (c ∷ cs) = not (ltb c b'0' || ltb b'9' c) && all_digits cs

-- A multiple of the word's size below a product makes no difference.
mod-mul-add : (a b c m : ℕ) → ((a % m) * b + c) % m ≡ (a * b + c) % m
mod-mul-add a b c m = sym (
    ap (λ n. n % m) (expand (a / m) (a % m) a (div-add-mod' a m))
    ∙ add-mul-mod_self_right ((a % m) * b + c) ((a / m) * b) m)
  where
    expand : (q r n : ℕ) → q * m + r ≡ n → n * b + c ≡ (r * b + c) + (q * b) * m
    expand q r n e = rw (sym e) (omega arith)

power_suc : (n : ℕ) → 10 ^ suc n ≡ 10 * 10 ^ n
power_suc n = omega arith

horner :
    (rst d power more : ℕ) → (10 * rst + d) * power + more ≡ rst * (10 * power) + (d * power + more)
horner rst d power more = omega arith

str2unum_from_lem :
    (rst : ℕ) (str : Buffer)
    → rst < 2 ^ 64
    → str2unum_from rst str
      ≡ (if all_digits str then some (u64 (rst * 10 ^ length str + decimal str)) else none)
unfolding str2unum_from all_digits decimal
str2unum_from_lem rst [] h = ap some (sym (mod-eq_of_lt (omega arith)) ∙ ap u64 (omega arith))
str2unum_from_lem rst (c ∷ cs) h = elim (Bool-cases (ltb c b'0' || ltb b'9' c)) [
  | inl bad ↦ rw bad refl
  | inr digit ↦ rw digit (
      str2unum_from_lem (u64 (10 * rst + (c - b'0'))) cs (omega arith)
      ∙ ap (λ (w : ℕ). if all_digits cs then some w else none)
          (mod-mul-add (10 * rst + (c - b'0')) (10 ^ length cs) (decimal cs) (2 ^ 64)
            ∙ ap u64 (
                horner rst (c - b'0') (10 ^ length cs) (decimal cs)
                ∙ ap (λ q. rst * q + ((c - b'0') * 10 ^ length cs + decimal cs))
                    (sym (power_suc (length cs))))))
]

digit_first : (n : ℕ) (out : Buffer) → all_digits ((b'0' + n % 10) ∷ out) ≡ all_digits out
unfolding all_digits
digit_first n out = ground arith

digit_value : (r : ℕ) → b'0' + r - b'0' ≡ r
digit_value r = omega arith

last_digits :
    (n power more : ℕ)
    → (n / 10) * (10 * power) + ((b'0' + n % 10 - b'0') * power + more) ≡ n * power + more
last_digits n power more = go (n / 10) (n % 10) n (div-add-mod' n 10)
  where
    go :
        (q r n : ℕ)
        → q * 10 + r ≡ n
        → q * (10 * power) + ((b'0' + r - b'0') * power + more) ≡ n * power + more
    go q r n e = rw (digit_value r) (rw (sym e) (omega arith))

no_digits : (n len more : ℕ) → n ≡ 0 → more ≡ n * 10 ^ len + more
no_digits n len more e = rw e (omega arith)

small_last : (n : ℕ) → (n / 10 == 0) ≡ true → n % 10 ≡ n
small_last n h = ground arith

digits_lem :
    (fuel n : ℕ) (out : Buffer)
    → n < 10 ^ fuel
    → (all_digits (digits fuel n out) ≡ all_digits out)
      × (decimal (digits fuel n out) ≡ n * 10 ^ length out + decimal out)
unfolding digits decimal
digits_lem zero n out h = (refl, no_digits n (length out) (decimal out) (omega arith))
digits_lem (suc fuel) n out h = elim (Bool-cases (n / 10 == 0)) [
  | inl last ↦ rw last (
    digit_first n out,
    ap (λ d. d * 10 ^ length out + decimal out) (digit_value (n % 10) ∙ small_last n last),
  )
  | inr more ↦
      let (same, sum) =
        digits_lem fuel (n / 10) ((b'0' + n % 10) ∷ out) (omega (arith, power_suc fuel)) in
      rw more (
        same ∙ digit_first n out,
        sum
            ∙ ap (λ q. (n / 10) * q + ((b'0' + n % 10 - b'0') * 10 ^ length out + decimal out))
                (power_suc (length out))
            ∙ last_digits n (10 ^ length out) (decimal out),
      )
]

-- `str2unum` returns nothing for a text with a byte in it that is not a digit, and otherwise the
-- number that the digits stand for, as a 64-bit word.
pub str2unum_lem :
    (str : Buffer) → str2unum str ≡ (if all_digits str then some (u64 (decimal str)) else none)
unfolding str2unum
str2unum_lem str =
    str2unum_from_lem 0 str (omega arith)
    ∙ ap (λ n. if all_digits str then some (u64 n) else none) (omega arith)

-- `str2unum` of the decimal digits of a 64-bit word is that word.
pub str2unum-to_string : (n : ℕ) → n < 2 ^ 64 → str2unum (to_string n) ≡ some n
unfolding to_string all_digits decimal
str2unum-to_string n h =
    let (all, value) = digits_lem 20 n [] (omega arith) in
    str2unum_lem (digits 20 n [])
    ∙ rw all (ap some (ap u64 (value ∙ (omega arith)) ∙ mod-eq_of_lt h))
