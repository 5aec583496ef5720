-- ===== src/FileSys/Paths/Agree.antt =====
-- `lexically_normal` of include/FileSys.hpp's paths keeps the names of the place that a path leads to.
use osep.Common.{◌≡◌, refl, ap, ◌∙◌, sym, inl, inr, List, [], ◌∷◌, ◌++◌, true, false, Bool-cases}
use osep.Common.Bytes.{Buffer}
use osep.Common.Text.{str_eq}
use osep.FileSys.Paths.{
  is_empty, is_rooted, split_parts, dot, dot_dot, resolve_up, resolve, resolve_all, reverse_onto,
  append_path,
}
use osep.FileSys.Paths.Normal.{AllPlain, AllNoSlash, resolve-AllPlain, split_parts-AllNoSlash}
use osep.FileSys.Paths.Places.{
  end_name, names_in, above, enter, enter_all, place_of, full_parts, put_front,
  names_from-split_parts, names_in-append_path,
}

reverse_onto-append :
    (xs ys zs : List Buffer) → reverse_onto xs (ys ++ zs) ≡ reverse_onto xs ys ++ zs
unfolding reverse_onto
reverse_onto-append [] ys zs = refl
reverse_onto-append (x ∷ xs) ys zs = reverse_onto-append xs (x ∷ ys) zs

above-append : (xs : List Buffer) (y : Buffer) → above (xs ++ y ∷ []) ≡ xs
unfolding above
above-append [] y = refl
above-append (x ∷ []) y = refl
above-append (x ∷ (x' ∷ xs)) y = ap (λ l. x ∷ l) (above-append (x' ∷ xs) y)

reverse_onto-resolve_up :
    (kept : List Buffer)
    → AllPlain kept
    → reverse_onto (resolve_up true kept) [] ≡ above (reverse_onto kept [])
unfolding resolve_up reverse_onto above
reverse_onto-resolve_up [] h = refl
reverse_onto-resolve_up (top ∷ rest) (p, h) = rw p.not_dot_dot (
    sym
      (ap above (reverse_onto-append rest [] (top ∷ [])) ∙ above-append (reverse_onto rest []) top))

reverse_onto-resolve :
    (kept : List Buffer) (part : Buffer)
    → AllPlain kept
    → is_empty part ≡ false
    → reverse_onto (resolve true kept part) [] ≡ enter (reverse_onto kept []) part
unfolding resolve enter reverse_onto
reverse_onto-resolve kept part h full = elim (Bool-cases (str_eq part dot)) [
  | inl stay ↦ rw full (rw stay refl)
  | inr real ↦ elim (Bool-cases (str_eq part dot_dot)) [
    | inl up ↦ rw full (rw real (rw up (reverse_onto-resolve_up kept h)))
    | inr name ↦ rw full (rw real (rw name (reverse_onto-append kept [] (part ∷ []))))
  ]
]

reverse_onto-resolve_all :
    (kept parts : List Buffer)
    → AllPlain kept
    → AllNoSlash parts
    → reverse_onto (resolve_all true kept parts) []
      ≡ enter_all (reverse_onto kept []) (full_parts parts)
unfolding resolve_all enter_all full_parts end_name resolve is_empty
reverse_onto-resolve_all kept [] h s = refl
reverse_onto-resolve_all kept ([] ∷ parts) h (sp, s) = reverse_onto-resolve_all kept parts h s
reverse_onto-resolve_all kept ((c ∷ cs) ∷ parts) h (sp, s) =
    reverse_onto-resolve_all (resolve true kept (c ∷ cs)) parts
      (resolve-AllPlain kept (c ∷ cs) h sp) s
    ∙ ap (λ at. enter_all at (full_parts parts)) (reverse_onto-resolve kept (c ∷ cs) h refl)

put_front_nothing : (parts : List Buffer) → full_parts (put_front [] parts) ≡ full_parts parts
unfolding put_front full_parts end_name
put_front_nothing [] = refl
put_front_nothing (p ∷ ps) = refl

-- The names that `lexically_normal` of `p1 / p2` keeps are those of the place.
pub resolve_all-append_path :
    (cur path : Buffer)
    → is_rooted cur ≡ true
    → reverse_onto (resolve_all true [] (split_parts (append_path cur path))) [] ≡ place_of cur path
unfolding names_in reverse_onto
resolve_all-append_path cur path r =
    let parts = split_parts (append_path cur path) in
    reverse_onto-resolve_all [] parts tt (split_parts-AllNoSlash _)
    ∙ ap (enter_all [])
        (sym (names_from-split_parts [] (append_path cur path) ∙ put_front_nothing parts))
    ∙ names_in-append_path cur path r
