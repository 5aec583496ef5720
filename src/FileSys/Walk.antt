-- ===== src/FileSys/Walk.antt =====
-- `lookup_path` of include/FileSys.hpp against the names of its path.
use osep.Common.{
  ℕ, zero, suc, ◌≤◌, ◌<◌, ◌≡◌, refl, ap, ◌∙◌, inl, inr, not, ◌&&◌, ◌>>=◌, Option, none, some, List,
  [], ◌∷◌, ◌++◌, Bool, true, false, if◌then◌else◌, arith, Option-cases, length, length-append,
}
use mathlib.Core.Path.{subst}
use mathlib.Core.List.{append_assoc, append-nil}
use osep.Common.Bytes.{Buffer}
use osep.Common.Text.{str_eq}
use osep.Inodes.{Kernel}
use osep.Inodes.Dirs.{find_inode_by_name}
use osep.FileSys.{split_path, walk, lookup_path}
use osep.FileSys.Paths.{
  slash, is_empty, is_rooted, has_slash, join_parts, close_path, reverse_onto, resolve_all,
  split_parts, append_path, ends_open, lexically_normal, path_join, dot_dot,
}
use osep.FileSys.Paths.Normal.{
  AllPlain, split_parts-AllNoSlash, reverse_onto-AllPlain, resolve_all-AllPlain,
  is_rooted-append_path,
}
use osep.FileSys.Paths.Places.{place_of}
use osep.FileSys.Paths.Agree.{resolve_all-append_path}

-- The names in order, each looked up in the directory that the ones before it lead to.
unfoldable pub follow : List Buffer → ℕ → Kernel → Option (Option ℕ × Kernel)
follow [] id k = some (some id, k)
follow (name ∷ names) id k = do
  (optid, k') ← find_inode_by_name id name k
  elim optid [ none ↦ some (none, k') | some id' ↦ follow names id' k' ]

split_path_name : (p : Buffer) → has_slash p ≡ false → split_path p ≡ (p, [])
unfolding split_path has_slash
split_path_name [] h = refl
split_path_name (c ∷ cs) h = ground (arith, split_path_name cs)

split_path_front :
    (p rest : Buffer) → has_slash p ≡ false → split_path (p ++ slash ∷ rest) ≡ (p, rest)
unfolding split_path has_slash
split_path_front [] rest h = ground arith
split_path_front (c ∷ cs) rest h = ground (arith, split_path_front cs rest)

walk_step :
    (fuel id : ℕ) (path name rest : Buffer) (k : Kernel)
    → is_empty path ≡ false
    → split_path path ≡ (name, rest)
    → walk (suc fuel) path id k ≡ (
        find_inode_by_name id name k >>= λ (optid, k'). elim optid [
          | none ↦ some (none, k')
          | some id' ↦ walk fuel rest id' k'
        ])
unfolding walk is_empty
walk_step fuel id [] name rest k h e = absurd (ground arith)
walk_step fuel id (c ∷ cs) name rest k h e =
    ap
      (λ (p : Buffer × Buffer). find_inode_by_name id p.0 k >>= λ (optid, k'). elim optid [
        | none ↦ some (none, k')
        | some id' ↦ walk fuel p.1 id' k'
      ])
      e

-- Both go on alike behind a name.
same_after :
    (fuel id : ℕ) (name rest : Buffer) (names : List Buffer) (k : Kernel)
    → ((id' : ℕ) (k' : Kernel) → walk fuel rest id' k' ≡ follow names id' k')
    → (find_inode_by_name id name k >>= λ (optid, k'). elim optid [
      | none ↦ some (none, k')
      | some id' ↦ walk fuel rest id' k'
    ])
      ≡ follow (name ∷ names) id k
unfolding follow
same_after fuel id name rest names k same = elim (Option-cases (find_inode_by_name id name k)) [
  | inl e ↦ rw e refl
  | inr ((none, k'), e) ↦ rw e refl
  | inr ((some id', k'), e) ↦ rw e (same id' k')
]

-- What may stand behind the names: a separator at the end makes no difference.
abbrev tail_of : Bool → Buffer
tail_of open_end = if open_end then slash ∷ [] else []

is_empty-append : (p rest : Buffer) → is_empty p ≡ false → is_empty (p ++ rest) ≡ false
unfolding is_empty
is_empty-append [] rest h = absurd (ground arith)
is_empty-append (c ∷ cs) rest h = refl

length_pos : (p : Buffer) → is_empty p ≡ false → 0 < length p
unfolding is_empty
length_pos [] h = absurd (ground arith)
length_pos (c ∷ cs) h = omega arith

split_last :
    (open_end : Bool) (p : Buffer)
    → has_slash p ≡ false
    → split_path (p ++ tail_of open_end) ≡ (p, [])
split_last true p h = split_path_front p [] h
split_last false p h = rw (append-nil p) (split_path_name p h)

walk_done : (fuel id : ℕ) (k : Kernel) → walk fuel [] id k ≡ some (some id, k)
unfolding walk
walk_done zero id k = refl
walk_done (suc fuel) id k = refl

no_room : (p rest more : Buffer) → is_empty p ≡ false → length ((p ++ rest) ++ more) ≤ 0 → ⊥
no_room p rest more h fit =
    omega (arith, length-append (p ++ rest) more, length-append p rest, length_pos p h)

walk-join_parts :
    (fuel : ℕ) (open_end : Bool) (p : Buffer) (ps : List Buffer) (id : ℕ) (k : Kernel)
    → AllPlain (p ∷ ps)
    → length (join_parts (p ∷ ps) ++ tail_of open_end) ≤ fuel
    → walk fuel (join_parts (p ∷ ps) ++ tail_of open_end) id k ≡ follow (p ∷ ps) id k
unfolding join_parts follow
walk-join_parts zero open_end p [] id k (hp, h) fit =
    absurd (omega (arith, length-append p (tail_of open_end), length_pos p hp.not_empty))
walk-join_parts (suc fuel) open_end p [] id k (hp, h) fit =
    walk_step fuel id (p ++ tail_of open_end) p [] k (is_empty-append p _ hp.not_empty)
      (split_last open_end p hp.no_slash)
    ∙ same_after fuel id p [] [] k (λ id' k'. walk_done fuel id' k')
walk-join_parts zero open_end p (q ∷ ps) id k (hp, h) fit =
    absurd (no_room p (slash ∷ join_parts (q ∷ ps)) (tail_of open_end) hp.not_empty fit)
walk-join_parts (suc fuel) open_end p (q ∷ ps) id k (hp, h) fit =
    let rest = join_parts (q ∷ ps) ++ tail_of open_end in
    let assoc = append_assoc p (slash ∷ join_parts (q ∷ ps)) (tail_of open_end) in
    let len = length-append p (slash ∷ rest) in
    ap (λ path. walk (suc fuel) path id k) assoc
    ∙ walk_step fuel id (p ++ slash ∷ rest) p rest k (is_empty-append p _ hp.not_empty)
        (split_path_front p rest hp.no_slash)
    ∙ same_after fuel id p rest (q ∷ ps) k (λ id' k'.
      walk-join_parts fuel open_end q ps id' k' h
        (omega (arith, ap (λ (b : Buffer). length b) assoc, len, length_pos p hp.not_empty)))

reverse_onto-not_empty :
    (xs : List Buffer) (y : Buffer) (ys : List Buffer)
    → (p : Buffer) × (ps : List Buffer) × (reverse_onto xs (y ∷ ys) ≡ p ∷ ps)
unfolding reverse_onto
reverse_onto-not_empty [] y ys = (y, ys, refl)
reverse_onto-not_empty (x ∷ xs) y ys = reverse_onto-not_empty xs x (y ∷ ys)

walk_names :
    (open_end : Bool) (names : List Buffer) (p : Buffer) (ps : List Buffer) (id : ℕ) (k : Kernel)
    → names ≡ p ∷ ps
    → AllPlain names
    → walk
        (length (join_parts names ++ tail_of open_end))
        (join_parts names ++ tail_of open_end)
        id
        k
      ≡ follow names id k
walk_names open_end names p ps id k e h =
    rw e (walk-join_parts _ open_end p ps id k (subst (λ l. AllPlain l) e h) (omega arith))

walk-close_path :
    (open_end : Bool) (kept : List Buffer) (id : ℕ) (k : Kernel)
    → AllPlain (reverse_onto kept [])
    → walk (length (close_path open_end kept)) (close_path open_end kept) id k
      ≡ follow (reverse_onto kept []) id k
unfolding close_path reverse_onto follow
walk-close_path open_end [] id k h = walk_done 0 id k
walk-close_path open_end (top ∷ rest) id k h =
    let (p, ps, e) = reverse_onto-not_empty rest top [] in
    walk_names (open_end && not (str_eq top dot_dot)) (reverse_onto (top ∷ rest) []) p ps id k e h

lookup-normal :
    (path : Buffer) (k : Kernel)
    → is_rooted path ≡ true
    → AllPlain (reverse_onto (resolve_all true [] (split_parts path)) [])
    → lookup_path (lexically_normal path) k
      ≡ follow (reverse_onto (resolve_all true [] (split_parts path)) []) k.store.sb.root_inode_id k
unfolding lexically_normal is_rooted lookup_path
lookup-normal [] k r h = absurd (ground arith)
lookup-normal (c ∷ cs) k r h = rw r (
    walk-close_path (ends_open (split_parts (c ∷ cs))) (resolve_all true [] (split_parts (c ∷ cs)))
      k.store.sb.root_inode_id k h)

-- If the current directory is given from the root on, the lookup of a path joined to it is the
-- lookup, from the root inode on and one after the other, of the names of the place that the
-- path leads to: the path's names between separators are taken in turn, from the root if it
-- starts with a separator and from the current directory if not, where `.` stays and `..` goes
-- up, at the root not further. None of the names looked up is empty, `.` or `..` or has a
-- separator in it.
pub lookup_path-path_join :
    (cur path : Buffer) (k : Kernel)
    → is_rooted cur ≡ true
    → AllPlain (place_of cur path)
      × (lookup_path (path_join cur path) k ≡ follow (place_of cur path) k.store.sb.root_inode_id k)
unfolding path_join
lookup_path-path_join cur path k r =
    let parts = split_parts (append_path cur path) in
    let plain =
      reverse_onto-AllPlain _ []
        (resolve_all-AllPlain [] parts tt (split_parts-AllNoSlash (append_path cur path))) tt in
    let same = resolve_all-append_path cur path r in
    (
      subst AllPlain same plain,
      lookup-normal (append_path cur path) k (is_rooted-append_path cur path r) plain
          ∙ ap (λ names. follow names k.store.sb.root_inode_id k) same,
    )
