-- ===== src/FileSys/Paths/Places.antt =====
-- Where a path leads, told without the steps of `path_join`: the names between separators, taken
-- one by one from the root or from the current directory on.
use osep.Common.{
  ℕ, ◌≡◌, refl, ap, ◌∙◌, sym, inl, inr, ◌==◌, List, [], ◌∷◌, ◌++◌, true, if◌then◌else◌, arith,
  Bool-cases,
}
use mathlib.Core.List.{append_assoc, append-nil}
use osep.Common.Bytes.{Buffer}
use osep.Common.Text.{str_eq}
use osep.FileSys.Paths.{
  slash, is_empty, is_rooted, has_slash, filename, add_char, split_parts, dot, dot_dot, append_path,
}

-- A name that ends here, if it has a byte.
unfoldable pub end_name : Buffer → List Buffer → List Buffer
end_name [] names = names
end_name (c ∷ cs) names = (c ∷ cs) ∷ names

unfoldable pub names_from : Buffer → Buffer → List Buffer
unfolding end_name
names_from name [] = end_name name []
names_from name (c ∷ cs) =
    let behind = names_from [] cs in
    let longer = names_from (name ++ c ∷ []) cs in
    if c == slash then end_name name behind else longer

-- The names of a path, `.` and `..` among them.
unfoldable pub names_in : Buffer → List Buffer
unfolding names_from
names_in path = names_from [] path

-- The directory above; the root is above itself.
unfoldable pub above : List Buffer → List Buffer
above [] = []
above (n ∷ []) = []
above (n ∷ (m ∷ names)) = n ∷ above (m ∷ names)

unfoldable pub enter : List Buffer → Buffer → List Buffer
unfolding str_eq above
enter at name =
    if str_eq name dot then at else if str_eq name dot_dot then above at else at ++ name ∷ []

unfoldable pub enter_all : List Buffer → List Buffer → List Buffer
unfolding enter
enter_all at [] = at
enter_all at (name ∷ names) = enter_all (enter at name) names

-- The names from the root on of what a path leads to, seen from the directory `cur`.
unfoldable pub place_of : Buffer → Buffer → List Buffer
unfolding names_in enter_all is_rooted
place_of cur path =
    enter_all (if is_rooted path then [] else enter_all [] (names_in cur)) (names_in path)

enter_all-append :
    (at xs ys : List Buffer) → enter_all at (xs ++ ys) ≡ enter_all (enter_all at xs) ys
unfolding enter_all
enter_all-append at [] ys = refl
enter_all-append at (x ∷ xs) ys = enter_all-append (enter at x) xs ys

-- The parts that are not empty.
unfoldable pub full_parts : List Buffer → List Buffer
unfolding end_name
full_parts [] = []
full_parts (p ∷ ps) = end_name p (full_parts ps)

unfoldable pub put_front : Buffer → List Buffer → List Buffer
put_front name [] = name ∷ []
put_front name (p ∷ ps) = (name ++ p) ∷ ps

put_front-add_char :
    (name : Buffer) (c : ℕ) (parts : List Buffer)
    → full_parts (put_front name (add_char c parts)) ≡ (
        if c == slash
        then end_name name (full_parts (put_front [] parts))
        else full_parts (put_front (name ++ c ∷ []) parts))
unfolding add_char end_name put_front full_parts
put_front-add_char name c [] = elim (Bool-cases (c == slash)) [
  | inl e ↦ rw e (ap (λ n. end_name n []) (append-nil name))
  | inr e ↦ rw e refl
]
put_front-add_char name c (p ∷ ps) = elim (Bool-cases (c == slash)) [
  | inl e ↦ rw e (ap (λ n. end_name n (end_name p (full_parts ps))) (append-nil name))
  | inr e ↦ rw e (ap (λ n. end_name n (full_parts ps)) (sym (append_assoc name (c ∷ []) p)))
]

pub names_from-split_parts :
    (name path : Buffer) → names_from name path ≡ full_parts (put_front name (split_parts path))
unfolding names_from split_parts put_front full_parts
names_from-split_parts name [] = ap (λ n. end_name n []) (sym (append-nil name))
names_from-split_parts name (c ∷ cs) =
    rw (put_front-add_char name c (split_parts cs))
      (rw (names_from-split_parts [] cs) (rw (names_from-split_parts (name ++ c ∷ []) cs) refl))

end_name-append :
    (name : Buffer) (xs ys : List Buffer) → end_name name (xs ++ ys) ≡ end_name name xs ++ ys
unfolding end_name
end_name-append [] xs ys = refl
end_name-append (c ∷ cs) xs ys = refl

names_from-slash :
    (name p q : Buffer) → names_from name (p ++ slash ∷ q) ≡ names_from name p ++ names_from [] q
unfolding names_from
names_from-slash name [] q = end_name-append name [] (names_from [] q)
names_from-slash name (c ∷ cs) q = elim (Bool-cases (c == slash)) [
  | inl e ↦ rw e (
      ap (end_name name) (names_from-slash [] cs q)
      ∙ end_name-append name (names_from [] cs) (names_from [] q))
  | inr e ↦ rw e (names_from-slash (name ++ c ∷ []) cs q)
]

empty_end : (p : Buffer) → is_empty p ≡ true → p ≡ []
unfolding is_empty
empty_end [] h = refl
empty_end (c ∷ cs) h = absurd (ground arith)

-- Behind a separator at the end of a path a name starts.
names_from-closed :
    (name p q : Buffer)
    → has_slash p ≡ true
    → is_empty (filename p) ≡ true
    → names_from name (p ++ q) ≡ names_from name p ++ names_from [] q
unfolding names_from has_slash filename
names_from-closed name [] q s h = absurd (ground arith)
names_from-closed name (c ∷ cs) q s h = elim (Bool-cases (has_slash cs)) [
  | inl more ↦
      let last : is_empty (filename cs) ≡ true = rw more at h in
      elim (Bool-cases (c == slash)) [
        | inl e ↦ rw e (
            ap (end_name name) (names_from-closed [] cs q more last)
            ∙ end_name-append name (names_from [] cs) (names_from [] q))
        | inr e ↦ rw e (names_from-closed (name ++ c ∷ []) cs q more last)
      ]
  | inr none_left ↦ elim (Bool-cases (c == slash)) [
    | inl e ↦
        let nil : cs ≡ [] = empty_end cs (rw e at (rw none_left at h)) in
        rw e (rw nil (end_name-append name [] (names_from [] q)))
    | inr e ↦ absurd (ground arith)
  ]
]

has_slash-rooted : (p : Buffer) → is_rooted p ≡ true → has_slash p ≡ true
unfolding is_rooted has_slash
has_slash-rooted [] h = absurd (ground arith)
has_slash-rooted (c ∷ cs) h = rw h refl

pub names_in-append_path :
    (cur path : Buffer)
    → is_rooted cur ≡ true
    → enter_all [] (names_in (append_path cur path)) ≡ place_of cur path
unfolding append_path names_in place_of
names_in-append_path cur path r = elim (Bool-cases (is_rooted path)) [
  | inl e ↦ rw e refl
  | inr e ↦
      let after = enter_all-append [] (names_from [] cur) (names_from [] path) in
      elim (Bool-cases (is_empty (filename cur))) [
        | inl h ↦ rw e (
            rw h (
              ap (enter_all []) (names_from-closed [] cur path (has_slash-rooted cur r) h) ∙ after))
        | inr h ↦ rw e (rw h (ap (enter_all []) (names_from-slash [] cur path) ∙ after))
      ]
]
