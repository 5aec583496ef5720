-- ===== src/FileSys/Paths.antt =====
-- What include/FileSys.hpp and include/CLI.hpp use of `std::filesystem::path`, for POSIX paths: the
-- separator is `/`, and there are no root names.
pub mod Normal
pub mod Places
pub mod Agree
use osep.Common.{
  ℕ, zero, suc, ◌-◌, ◌==◌, ◌||◌, ◌&&◌, not, Option, none, some, List, [], ◌∷◌, ◌++◌, Bool, true,
  false, if◌then◌else◌, length, take,
}
use osep.Common.Bytes.{Buffer}
use osep.Common.Text.{str_eq}

abbrev pub slash : ℕ
slash = b'/'

unfoldable pub is_empty : Buffer → Bool
is_empty [] = true
is_empty (c ∷ cs) = false

unfoldable pub is_rooted : Buffer → Bool
is_rooted [] = false
is_rooted (c ∷ cs) = c == slash

unfoldable pub has_slash : Buffer → Bool
has_slash [] = false
has_slash (c ∷ cs) = (c == slash) || has_slash cs

-- `has_relative_path`: something stands behind the root directory.
unfoldable pub has_relative_path : Buffer → Bool
has_relative_path [] = false
has_relative_path (c ∷ cs) = not (c == slash) || has_relative_path cs

-- `filename`: what stands behind the last separator.
unfoldable pub filename : Buffer → Buffer
unfolding has_slash
filename [] = []
filename (c ∷ cs) =
    let behind = filename cs in if has_slash cs then behind else if c == slash then cs else c ∷ cs

-- A path without the separators at its end.
unfoldable pub strip_slashes : Buffer → Buffer
unfolding is_empty
strip_slashes [] = []
strip_slashes (c ∷ cs) =
    let rest = strip_slashes cs in if (c == slash) && is_empty rest then [] else c ∷ rest

-- `parent_path`
unfoldable pub parent_path : Buffer → Buffer
unfolding filename strip_slashes has_relative_path is_rooted is_empty
parent_path p =
    let before = strip_slashes (take (length p - length (filename p)) p) in
    if has_relative_path p
    then (if is_empty before && is_rooted p then slash ∷ [] else before)
    else p

-- The parts of a path between separators, the empty ones included.
unfoldable pub add_char : ℕ → List Buffer → List Buffer
add_char c [] = if c == slash then [] ∷ ([] ∷ []) else (c ∷ []) ∷ []
add_char c (part ∷ parts) = if c == slash then [] ∷ (part ∷ parts) else (c ∷ part) ∷ parts

unfoldable pub split_parts : Buffer → List Buffer
unfolding add_char
split_parts [] = [] ∷ []
split_parts (c ∷ cs) = add_char c (split_parts cs)

unfoldable pub join_parts : List Buffer → Buffer
join_parts [] = []
join_parts (p ∷ []) = p
join_parts (p ∷ (q ∷ ps)) = p ++ slash ∷ join_parts (q ∷ ps)

abbrev pub dot : Buffer
dot = b'.' ∷ []

abbrev pub dot_dot : Buffer
dot_dot = b'.' ∷ b'.' ∷ []

-- A round of `lexically_normal` on the parts kept so far, the last one first: a part is kept, left
-- out, or takes the one before it away.
unfoldable pub resolve_up : Bool → List Buffer → List Buffer
unfolding str_eq
resolve_up rooted [] = if rooted then [] else dot_dot ∷ []
resolve_up rooted (top ∷ rest) = if str_eq top dot_dot then dot_dot ∷ (top ∷ rest) else rest

unfoldable pub resolve : Bool → List Buffer → Buffer → List Buffer
unfolding is_empty str_eq resolve_up
resolve rooted kept part =
    if is_empty part || str_eq part dot
    then kept
    else if str_eq part dot_dot
    then resolve_up rooted kept
    else part ∷ kept

unfoldable pub resolve_all : Bool → List Buffer → List Buffer → List Buffer
unfolding resolve
resolve_all rooted kept [] = kept
resolve_all rooted kept (part ∷ parts) = resolve_all rooted (resolve rooted kept part) parts

-- Whether the last part names a directory by an empty name, a dot, or two dots.
unfoldable pub ends_open : List Buffer → Bool
unfolding is_empty str_eq
ends_open [] = false
ends_open (p ∷ []) = is_empty p || (str_eq p dot || str_eq p dot_dot)
ends_open (p ∷ (q ∷ ps)) = ends_open (q ∷ ps)

unfoldable pub reverse_onto : List Buffer → List Buffer → List Buffer
reverse_onto [] ys = ys
reverse_onto (x ∷ xs) ys = reverse_onto xs (x ∷ ys)

-- The parts put together again: a directory keeps a separator at its end, but for `..`.
unfoldable pub close_path : Bool → List Buffer → Buffer
unfolding str_eq reverse_onto join_parts
close_path open_end [] = []
close_path open_end (top ∷ rest) =
    join_parts (reverse_onto (top ∷ rest) [])
    ++ (if open_end && not (str_eq top dot_dot) then slash ∷ [] else [])

-- `lexically_normal`
unfoldable pub lexically_normal : Buffer → Buffer
unfolding split_parts resolve_all ends_open close_path is_rooted is_empty
lexically_normal [] = []
lexically_normal (c ∷ cs) =
    let rooted = c == slash in
    let parts = split_parts (c ∷ cs) in
    let body = close_path (ends_open parts) (resolve_all rooted [] parts) in
    if rooted then slash ∷ body else if is_empty body then dot else body

-- `p1 / p2`
unfoldable pub append_path : Buffer → Buffer → Buffer
unfolding filename is_rooted is_empty
append_path p1 p2 =
    if is_rooted p2 then p2 else if is_empty (filename p1) then p1 ++ p2 else p1 ++ slash ∷ p2

-- `path_join` of include/CLI.hpp
unfoldable pub path_join : Buffer → Buffer → Buffer
unfolding append_path lexically_normal
path_join path1 path2 = lexically_normal (append_path path1 path2)
