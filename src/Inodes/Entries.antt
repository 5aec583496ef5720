-- ===== src/Inodes/Entries.antt =====
-- The entries of a directory in its data: the loop of `find_inode_by_name` in
-- include/INodeTable.hpp against a list of entries.
use mathlib.Core.List.{append_assoc}
use osep.Common.{
  ℕ, zero, suc, ◌^◌, ◌<◌, ◌≤◌, ◌==◌, ◌≡◌, refl, ◌∙◌, ap, Option, none, some, List, [], ◌∷◌, ◌++◌,
  false, if◌then◌else◌, length, take, drop, arith, length-append,
}
use osep.Common.Bytes.{Buffer, take_append, drop_append}
use osep.Layout.Codec.{value-bytes_eight}
use osep.Layout.Inode.{DirItem, encode_diritem, decode_diritem, c_string}
use osep.Common.Text.{str_eq}
use osep.Inodes.Dirs.{find_entry}

-- The data of a directory.
unfoldable pub entries : List DirItem → Buffer
entries [] = []
entries (d ∷ ds) = encode_diritem d ++ entries ds

-- Entries as the program stores them.
abbrev pub AllEntries : List DirItem → Type 0
AllEntries [] = Unit {0}
AllEntries (d ∷ ds) = (d.inode_id < 2 ^ 64) × (length d.name ≡ 54) × AllEntries ds

-- The inode that a name leads to.
unfoldable pub lookup_entry : Buffer → List DirItem → Option ℕ
lookup_entry name [] = none
lookup_entry name (d ∷ ds) =
    if str_eq (c_string d.name) name then some d.inode_id else lookup_entry name ds

field_name : (xs ys zs : Buffer) → length xs ≡ 54 → take 54 ((xs ++ ys) ++ zs) ≡ xs
field_name xs ys zs h = ap (take 54) (append_assoc xs ys zs) ∙ (rw h at (take_append xs (ys ++ zs)))

behind : (xs zs : Buffer) → length xs ≡ 64 → drop 64 (xs ++ zs) ≡ zs
behind xs zs h = rw h at (drop_append xs zs)

pub length-encode : (d : DirItem) → length d.name ≡ 54 → length (encode_diritem d) ≡ 64
unfolding encode_diritem
length-encode d hn = omega (arith, length-append d.name (0 ∷ 0 ∷ []))

first_entry :
    (d : DirItem) (rest : Buffer)
    → d.inode_id < 2 ^ 64
    → length d.name ≡ 54
    → decode_diritem (encode_diritem d ++ rest) ≡ d
unfolding decode_diritem encode_diritem
first_entry d rest hi hn = λ i. record {
  inode_id = value-bytes_eight d.inode_id ((d.name ++ (0 ∷ 0 ∷ [])) ++ rest) hi i;
  name = field_name d.name (0 ∷ 0 ∷ []) rest hn i;
}

-- A round of the loop that has an entry before it.
find_step :
    (n : ℕ) (name : Buffer) (buf rest : Buffer)
    → (length buf == 0) ≡ false
    → drop 64 buf ≡ rest
    → find_entry (suc n) 64 name buf ≡ (
        if str_eq (c_string (decode_diritem buf).name) name
        then some (decode_diritem buf).inode_id
        else find_entry n 64 name rest)
unfolding find_entry
find_step n name buf rest some_left next = rw some_left (rw next refl)

-- The loop over the data of a directory, whose entries have 64-bit inode numbers and name fields
-- of 54 bytes, finds the inode of the first entry with the name, or nothing if no entry has it,
-- if it may take as many rounds as there are entries.
pub find_entry-lookup_entry :
    (n : ℕ) (name : Buffer) (ds : List DirItem)
    → AllEntries ds
    → length ds ≤ n
    → find_entry n 64 name (entries ds) ≡ lookup_entry name ds
unfolding find_entry entries lookup_entry
find_entry-lookup_entry zero name [] ok h = refl
find_entry-lookup_entry (suc n) name [] ok h = refl
find_entry-lookup_entry zero name (d ∷ ds) ok h = absurd (omega arith)
find_entry-lookup_entry (suc n) name (d ∷ ds) (hi, hn, ok) h =
    let ih = find_entry-lookup_entry n name ds ok (omega arith) in
    let len : (length (encode_diritem d ++ entries ds) == 0) ≡ false =
      ground (arith, length-append (encode_diritem d) (entries ds), length-encode d hn) in
    find_step n name (encode_diritem d ++ entries ds) (entries ds) len
      (behind (encode_diritem d) (entries ds) (length-encode d hn))
    ∙ ap
        (λ x.
          if str_eq (c_string x.name) name
          then some x.inode_id
          else find_entry n 64 name (entries ds))
        (first_entry d (entries ds) hi hn)
    ∙ rw ih refl
