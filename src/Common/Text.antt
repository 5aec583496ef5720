-- ===== src/Common/Text.antt =====
-- Text literals as bytes, for ASCII, and the text functions of the standard library that the program
-- uses.
use Prim.Native.Char.{code}
use Prim.Native.String.{String}
use osep.Common.{
  ℕ, zero, suc, ◌+◌, ◌/◌, ◌%◌, ◌==◌, leb, ◌||◌, ◌&&◌, Bool, true, false, List, [], ◌∷◌, ◌++◌,
  if◌then◌else◌,
}
use osep.Common.Bytes.{Buffer}

abbrev pub codes : String → Buffer
codes String.[] = []
codes (String.◌∷◌ c s) = code c ∷ codes s

-- Equality of strings.
unfoldable pub str_eq : Buffer → Buffer → Bool
str_eq [] [] = true
str_eq [] (y ∷ ys) = false
str_eq (x ∷ xs) [] = false
str_eq (x ∷ xs) (y ∷ ys) = (x == y) && str_eq xs ys

-- `std::to_string` of a 64-bit word, which has 20 digits at most.
unfoldable pub digits : ℕ → ℕ → Buffer → Buffer
digits zero n out = out
digits (suc fuel) n out =
    let out' = (b'0' + n % 10) ∷ out in
    let rest = digits fuel (n / 10) out' in if n / 10 == 0 then out' else rest

unfoldable pub to_string : ℕ → Buffer
unfolding digits
to_string n = digits 20 n []

-- White space in the "C" locale: space, and tab to carriage return.
unfoldable pub is_space : ℕ → Bool
is_space c = (c == 32) || (leb 9 c && leb c 13)

-- `ss >> word` until it fails: the runs of other bytes.
unfoldable pub words_from : Buffer → Buffer → List Buffer
unfolding is_space
words_from [] [] = []
words_from (w ∷ ws) [] = (w ∷ ws) ∷ []
words_from [] (c ∷ cs) =
    let skip = words_from [] cs in
    let go_on = words_from (c ∷ []) cs in if is_space c then skip else go_on
words_from (w ∷ ws) (c ∷ cs) =
    let close = (w ∷ ws) ∷ words_from [] cs in
    let go_on = words_from ((w ∷ ws) ++ c ∷ []) cs in if is_space c then close else go_on

unfoldable pub words : Buffer → List Buffer
unfolding words_from
words line = words_from [] line
