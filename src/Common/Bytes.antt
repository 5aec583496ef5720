-- ===== src/Common/Bytes.antt =====
-- Byte buffers: `memcpy` and `memset`, with a copy past the end of a buffer as `none`, since the
-- source's behaviour is undefined there.
use osep.Common.{
  ℕ, ◌+◌, ◌≤◌, ◌≡◌, Option, none, some, List, ◌++◌, arith, leb, if◌then◌else◌, length, take, drop,
  refl, length-append, length-take, length-drop, [], ◌∷◌, zero, suc, Bool-cases, inl, inr, true, ap,
  sym, ◌∙◌, ◌-◌, ◌⊎◌,
}

abbrev pub Buffer : Type 0
Buffer = List ℕ

-- `memcpy(buf + off, bytes, n)` with `n` the number of bytes.
unfoldable pub copy_to : Buffer → ℕ → Buffer → Option Buffer
copy_to buf off bytes =
    if leb (off + length bytes) (length buf)
    then some (take off buf ++ (bytes ++ drop (off + length bytes) buf))
    else none

-- The `n` bytes at `buf + off`.
unfoldable pub copy_from : Buffer → ℕ → ℕ → Option Buffer
copy_from buf off n = if leb (off + n) (length buf) then some (take n (drop off buf)) else none

-- A copy keeps the length of the buffer.
pub length-copy_to :
    (buf : Buffer) (off : ℕ) (bytes out : Buffer)
    → copy_to buf off bytes ≡ some out
    → length out ≡ length buf
unfolding copy_to
length-copy_to buf off bytes out h = grind (
  arith,
  length-append (take off buf) (bytes ++ drop (off + length bytes) buf),
  length-append bytes (drop (off + length bytes) buf),
  length-take off buf,
  length-drop (off + length bytes) buf,
)

module _ {ℓ} {A : Type ℓ} where
  pub take_append : (xs ys : List A) → take (length xs) (xs ++ ys) ≡ xs
  take_append [] ys = refl
  take_append (x ∷ xs) ys = rw (take_append xs ys)

  pub drop_append : (xs ys : List A) → drop (length xs) (xs ++ ys) ≡ ys
  drop_append [] ys = refl
  drop_append (x ∷ xs) ys = drop_append xs ys

  pub drop-take_append :
      (off : ℕ) (xs ys : List A) → off ≤ length xs → drop off (take off xs ++ ys) ≡ ys
  drop-take_append zero xs ys h = refl
  drop-take_append (suc off) [] ys h = absurd (omega arith)
  drop-take_append (suc off) (x ∷ xs) ys h = drop-take_append off xs ys (omega arith)

-- What was copied in is read back.
pub copy_from-copy_to :
    (buf : Buffer) (off : ℕ) (bytes out : Buffer)
    → copy_to buf off bytes ≡ some out
    → copy_from out off (length bytes) ≡ some bytes
unfolding copy_to copy_from
copy_from-copy_to buf off bytes out h = elim (Bool-cases (leb (off + length bytes) (length buf))) [
  | inl e ↦
      let len = length-copy_to buf off bytes out h in
      let p : take off buf ++ (bytes ++ drop (off + length bytes) buf) ≡ out = ground arith in
      let fit : leb (off + length bytes) (length out) ≡ true = ground (arith, len) in
      rw fit (
        rw (← p) (
          rw (drop-take_append off buf (bytes ++ drop (off + length bytes) buf) (ground arith))
            (rw take_append refl)))
  | inr e ↦ ground arith
]

module _ {ℓ} {A : Type ℓ} where
  take_before :
      (n off : ℕ) (xs ys : List A)
      → n ≤ off
      → off ≤ length xs
      → take n (take off xs ++ ys) ≡ take n xs
  take_before zero off xs ys h l = refl
  take_before (suc n) zero xs ys h l = absurd (omega arith)
  take_before (suc n) (suc off) [] ys h l = absurd (omega arith)
  take_before (suc n) (suc off) (x ∷ xs) ys h l =
      ap (λ zs. x ∷ zs) (take_before n off xs ys (omega arith) (omega arith))

  slice_before :
      (m n off : ℕ) (xs ys : List A)
      → m + n ≤ off
      → off ≤ length xs
      → take n (drop m (take off xs ++ ys)) ≡ take n (drop m xs)
  slice_before zero n off xs ys h l = take_before n off xs ys (omega arith) l
  slice_before (suc m) n zero xs ys h l = absurd (omega arith)
  slice_before (suc m) n (suc off) [] ys h l = absurd (omega arith)
  slice_before (suc m) n (suc off) (x ∷ xs) ys h l =
      slice_before m n off xs ys (omega arith) (omega arith)

  drop_past : (m : ℕ) (xs ys : List A) → length xs ≤ m → drop m (xs ++ ys) ≡ drop (m - length xs) ys
  drop_past m [] ys h = ap (λ n. drop n ys) (omega arith)
  drop_past zero (x ∷ xs) ys h = absurd (omega arith)
  drop_past (suc m) (x ∷ xs) ys h =
      drop_past m xs ys (omega arith) ∙ ap (λ n. drop n ys) (omega arith)

  drop_nil : (m : ℕ) → drop {A = A} m [] ≡ []
  drop_nil zero = refl
  drop_nil (suc m) = refl

  pub drop-drop : (m n : ℕ) (xs : List A) → drop m (drop n xs) ≡ drop (n + m) xs
  drop-drop m zero xs = ap (λ k. drop k xs) (omega arith)
  drop-drop m (suc n) [] = drop_nil m ∙ sym (drop_nil (suc n + m))
  drop-drop m (suc n) (x ∷ xs) =
      let sum : suc (n + m) ≡ suc n + m = omega arith in
      drop-drop m n xs ∙ ap (λ k. drop k (x ∷ xs)) sum

  drop_after :
      (m off : ℕ) (xs ys : List A)
      → off + length ys ≤ m
      → off + length ys ≤ length xs
      → drop m (take off xs ++ (ys ++ drop (off + length ys) xs)) ≡ drop m xs
  drop_after m off xs ys h l =
      let len : length (take off xs) ≡ off = omega (arith, length-take off xs) in
      let rest = drop (off + length ys) xs in
      drop_past m (take off xs) (ys ++ rest) (omega (arith, len))
      ∙ drop_past (m - length (take off xs)) ys rest (omega (arith, len))
      ∙ drop-drop (m - length (take off xs) - length ys) (off + length ys) xs
      ∙ ap (λ k. drop k xs) (omega (arith, len))

-- A copy leaves what stands before it and behind it.
pub copy_from-copy_to_ne :
    (buf : Buffer) (off : ℕ) (bytes out : Buffer) (m n : ℕ)
    → copy_to buf off bytes ≡ some out
    → m + n ≤ off ⊎ (off + length bytes ≤ m)
    → copy_from out m n ≡ copy_from buf m n
unfolding copy_to copy_from
copy_from-copy_to_ne buf off bytes out m n h place =
    let len = length-copy_to buf off bytes out h in
    elim (Bool-cases (leb (off + length bytes) (length buf))) [
      | inr e ↦ absurd (ground arith)
      | inl e ↦
          let p : take off buf ++ (bytes ++ drop (off + length bytes) buf) ≡ out = ground arith in
          let slice : take n (drop m out) ≡ take n (drop m buf) =
            ap (λ o. take n (drop m o)) (sym p) ∙ elim place [
              | inl before ↦ slice_before m n off buf _ before (ground arith)
              | inr after ↦ ap (take n) (drop_after m off buf bytes after (ground arith))
            ] in
          ground (arith, len, slice)
    ]
