-- ===== src/FileSys/Paths/Normal.antt =====
-- What the parts of a normalised path are.
use osep.Common.{ℕ, ◌≡◌, refl, inl, inr, ◌||◌, List, [], ◌∷◌, ◌++◌, true, false, arith, Bool-cases}
use osep.Common.Bytes.{Buffer}
use osep.Common.Text.{str_eq}
use osep.FileSys.Paths.{
  slash, is_empty, is_rooted, has_slash, filename, add_char, split_parts, dot, dot_dot, resolve_up,
  resolve, resolve_all, reverse_onto, append_path,
}

abbrev pub AllNoSlash : List Buffer → Type 0
AllNoSlash [] = Unit {0}
AllNoSlash (p ∷ ps) = (has_slash p ≡ false) × AllNoSlash ps

-- A name that stands for an entry of a directory other than `.` and `..`.
pub record IsPlain (p : Buffer) : Type 0 where
  pub not_empty : is_empty p ≡ false
  pub no_slash : has_slash p ≡ false
  pub not_dot : str_eq p dot ≡ false
  pub not_dot_dot : str_eq p dot_dot ≡ false

abbrev pub AllPlain : List Buffer → Type 0
AllPlain [] = Unit {0}
AllPlain (p ∷ ps) = IsPlain p × AllPlain ps

add_char-AllNoSlash : (c : ℕ) (ps : List Buffer) → AllNoSlash ps → AllNoSlash (add_char c ps)
unfolding add_char has_slash
add_char-AllNoSlash c [] h = ground arith
add_char-AllNoSlash c (p ∷ ps) h = ground arith

pub split_parts-AllNoSlash : (p : Buffer) → AllNoSlash (split_parts p)
unfolding split_parts has_slash
split_parts-AllNoSlash [] = (refl, tt)
split_parts-AllNoSlash (c ∷ cs) = add_char-AllNoSlash c (split_parts cs) (split_parts-AllNoSlash cs)

resolve_up-AllPlain : (kept : List Buffer) → AllPlain kept → AllPlain (resolve_up true kept)
unfolding resolve_up
resolve_up-AllPlain [] h = tt
resolve_up-AllPlain (top ∷ rest) (ht, h) = rw ht.not_dot_dot h

pub resolve-AllPlain :
    (kept : List Buffer) (part : Buffer)
    → AllPlain kept
    → has_slash part ≡ false
    → AllPlain (resolve true kept part)
unfolding resolve
resolve-AllPlain kept part h s = elim (Bool-cases (is_empty part || str_eq part dot)) [
  | inl skip ↦ rw skip h
  | inr real ↦ elim (Bool-cases (str_eq part dot_dot)) [
    | inl up ↦ rw real (rw up (resolve_up-AllPlain kept h))
    | inr name ↦ rw real (
        rw name (
          record {
            not_empty = ground arith;
            no_slash = s;
            not_dot = ground arith;
            not_dot_dot = name;
          },
          h,
        ))
  ]
]

pub resolve_all-AllPlain :
    (kept parts : List Buffer)
    → AllPlain kept
    → AllNoSlash parts
    → AllPlain (resolve_all true kept parts)
unfolding resolve_all
resolve_all-AllPlain kept [] h s = h
resolve_all-AllPlain kept (part ∷ parts) h (sp, s) =
    resolve_all-AllPlain (resolve true kept part) parts (resolve-AllPlain kept part h sp) s

pub reverse_onto-AllPlain :
    (xs ys : List Buffer) → AllPlain xs → AllPlain ys → AllPlain (reverse_onto xs ys)
unfolding reverse_onto
reverse_onto-AllPlain [] ys hx hy = hy
reverse_onto-AllPlain (x ∷ xs) ys (p, hx) hy = reverse_onto-AllPlain xs (x ∷ ys) hx (p, hy)

rooted_append : (xs ys : Buffer) → is_rooted xs ≡ true → is_rooted (xs ++ ys) ≡ true
unfolding is_rooted
rooted_append [] ys h = absurd (ground arith)
rooted_append (x ∷ xs) ys h = h

pub is_rooted-append_path :
    (cur path : Buffer) → is_rooted cur ≡ true → is_rooted (append_path cur path) ≡ true
unfolding append_path
is_rooted-append_path cur path h = elim (Bool-cases (is_rooted path)) [
  | inl r ↦ rw r r
  | inr r ↦ elim (Bool-cases (is_empty (filename cur))) [
    | inl e ↦ rw r (rw e (rooted_append cur path h))
    | inr e ↦ rw r (rw e (rooted_append cur (slash ∷ path) h))
  ]
]
