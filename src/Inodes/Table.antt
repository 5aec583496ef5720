-- ===== src/Inodes/Table.antt =====
-- The table of inodes on the disk: `get_inode_from_disk` and `write_inode_to_disk` of
-- include/INodeTable.hpp.
use mathlib.Core.Path.{subst}
use native.Mathlib.Nat.{mod-eq_of_lt, div-add-mod'}
use osep.Common.{
  ℕ, ◌+◌, ◌-◌, ◌*◌, ◌/◌, ◌%◌, ◌^◌, ◌<◌, ◌≤◌, ◌==◌, ◌≡◌, refl, ap, sym, ◌∙◌, inl, inr, ◌⊎◌, ◌>>=◌,
  Option, some, true, false, ltb, if◌then◌else◌, arith, Bool-cases, Option-cases, u64,
}
use osep.Common.Bytes.{Buffer, copy_to, copy_from, copy_from-copy_to, copy_from-copy_to_ne}
use osep.Layout.Inode.{Inode, encode_inode, decode_inode}
use osep.Layout.Inode.Roundtrip.{InRange, decode-encode_inode, length-encode_inode}
use osep.Store.{Store, fetch, put}
use osep.Inodes.{get_inode_from_disk, write_inode_to_disk}

-- The block of an inode, and the place in it.
abbrev block_of : Store → ℕ → ℕ
block_of s id = u64 (id / s.sb.inodes_per_block + s.sb.inode_block_start_lba)

abbrev place_of : Store → ℕ → ℕ
place_of s id = id % s.sb.inodes_per_block * s.sb.inode_size

-- The table's blocks have 64-bit numbers, and an inode fills its place.
pub record IsTable (s : Store) : Type 0 where
  pub some_per_block : 0 < s.sb.inodes_per_block
  pub inode_size : s.sb.inode_size ≡ 512

next_room : (a d size : ℕ) → a * size + size ≤ (a + 1 + d) * size
next_room a d size = omega arith

next_fits : (a b size : ℕ) → a < b → a * size + size ≤ b * size
next_fits a b size h =
    let eq : a + 1 + (b - a - 1) ≡ b = omega arith in
    subst (λ n. a * size + size ≤ n * size) eq (next_room a (b - a - 1) size)

-- Inodes of one block stand at different places of it.
same_number : (m i j : ℕ) → i / m ≡ j / m → i % m ≡ j % m → i ≡ j
same_number m i j q r =
    sym (div-add-mod' i m)
    ∙ ap (λ n. n * m + i % m) q
    ∙ ap (λ n. j / m * m + n) r
    ∙ div-add-mod' j m

read_slot :
    (j : ℕ) (s : Store) (buf : Buffer)
    → fetch (block_of s j) s ≡ some buf
    → get_inode_from_disk j s
      ≡ (copy_from buf (place_of s j) s.sb.inode_size >>= λ bytes. some (decode_inode bytes))
unfolding get_inode_from_disk
read_slot j s buf e = rw e refl

apart : (a b size : ℕ) → (a ≡ b → ⊥) → (a * size + size ≤ b * size) ⊎ (b * size + size ≤ a * size)
apart a b size h = elim (Bool-cases (ltb a b)) [
  | inl l ↦ inl (next_fits a b size (ground arith))
  | inr l ↦ inr (next_fits b a size (ground arith))
]

written_slot :
    (id : ℕ) (node : Inode) (s s' : Store)
    → write_inode_to_disk id node s ≡ some s'
    → (buf : Buffer) × (buf' : Buffer) × (fetch (block_of s id) s ≡ some buf)
      × (copy_to buf (place_of s id) (encode_inode node) ≡ some buf')
      × (s' ≡ put (block_of s id) buf' s)
unfolding write_inode_to_disk
written_slot id node s s' run = elim (Option-cases (fetch (block_of s id) s)) [
  | inl e ↦ absurd (ground arith)
  | inr (buf, e) ↦ elim (Option-cases (copy_to buf (place_of s id) (encode_inode node))) [
    | inl e1 ↦ absurd (ground arith)
    | inr (buf', e1) ↦ (buf, buf', e, e1, ground arith)
  ]
]

fetch-put :
    (lba j : ℕ) (b buf : Buffer) (s : Store)
    → fetch lba s ≡ some buf
    → fetch j (put lba b s) ≡ (if lba == j then some b else fetch j s)
unfolding fetch put
fetch-put lba j b buf s h = ground arith

read_other :
    (j lba : ℕ) (b : Buffer) (s : Store)
    → fetch (block_of s j) (put lba b s) ≡ fetch (block_of s j) s
    → get_inode_from_disk j (put lba b s) ≡ get_inode_from_disk j s
unfolding get_inode_from_disk put
read_other j lba b s h =
    ap
      (λ (o : Option Buffer). do
        buf ← o
        bytes ← copy_from buf (place_of s j) s.sb.inode_size
        some (decode_inode bytes))
      h

-- What the place of an inode holds once another one, or itself, has been written.
module _ (s : Store) (id j : ℕ) (node : Inode) (buf buf' : Buffer) (size : s.sb.inode_size ≡ 512)
    (r : InRange node) (copied : copy_to buf (place_of s id) (encode_inode node) ≡ some buf') where
  place_same :
      id ≡ j
      → (copy_from buf' (place_of s j) s.sb.inode_size >>= λ bytes. some (decode_inode bytes))
        ≡ some node
  place_same q =
      let got : copy_from buf' (place_of s j) s.sb.inode_size ≡ some (encode_inode node) =
        ap (λ i. copy_from buf' (place_of s i) s.sb.inode_size) (sym q)
        ∙ ap (copy_from buf' (place_of s id)) (size ∙ sym (length-encode_inode node r))
        ∙ copy_from-copy_to buf (place_of s id) (encode_inode node) buf' copied in
      ap (λ (o : Option Buffer). o >>= λ bytes. some (decode_inode bytes)) got
      ∙ ap some (decode-encode_inode node r)

  place_other :
      (id % s.sb.inodes_per_block ≡ j % s.sb.inodes_per_block → ⊥)
      → copy_from buf' (place_of s j) s.sb.inode_size ≡ copy_from buf (place_of s j) s.sb.inode_size
  place_other ne =
      let len = size ∙ sym (length-encode_inode node r) in
      copy_from-copy_to_ne buf (place_of s id) (encode_inode node) buf' (place_of s j)
        s.sb.inode_size copied
        (elim (apart (id % s.sb.inodes_per_block) (j % s.sb.inodes_per_block) s.sb.inode_size ne) [
          | inl before ↦ inr (subst (λ n. place_of s id + n ≤ place_of s j) len before)
          | inr after ↦ inl after
        ])

module _ (s s' : Store) (id j : ℕ) (node : Inode) (table : IsTable s) (r : InRange node)
    (id_word : id / s.sb.inodes_per_block + s.sb.inode_block_start_lba < 2 ^ 64)
    (j_word : j / s.sb.inodes_per_block + s.sb.inode_block_start_lba < 2 ^ 64)
    (run : write_inode_to_disk id node s ≡ some s') where
  id_apart : (block_of s id == block_of s j) ≡ false → (id == j) ≡ false
  id_apart other = elim (Bool-cases (id == j)) [
    | inl e ↦
        let q : id ≡ j = ground arith in
        let self : (block_of s id == block_of s id) ≡ false =
          subst (λ i. (block_of s id == block_of s i) ≡ false) (sym q) other in
        absurd (ground arith)
    | inr e ↦ e
  ]

  other_place :
      (block_of s id == block_of s j) ≡ true
      → (id == j) ≡ false
      → id % s.sb.inodes_per_block ≡ j % s.sb.inodes_per_block
      → ⊥
  other_place same ne rem =
      let lba : block_of s id ≡ block_of s j = ground arith in
      let quot : id / s.sb.inodes_per_block ≡ j / s.sb.inodes_per_block =
        omega (arith, lba, mod-eq_of_lt id_word, mod-eq_of_lt j_word) in
      let eq : id ≡ j = same_number s.sb.inodes_per_block id j quot rem in ground arith

  -- If an inode within its members' ranges was written into a table of inodes of 512 bytes, at a
  -- number whose block has a 64-bit number, then that inode is read back at its number, and at
  -- every other such number what was read before.
  pub get_inode_from_disk-write_inode_to_disk :
      get_inode_from_disk j s' ≡ (if id == j then some node else get_inode_from_disk j s)
  unfolding put
  get_inode_from_disk-write_inode_to_disk =
      let (buf, buf', e, e1, e2) = written_slot id node s s' run in
      let s1 = put (block_of s id) buf' s in
      let here = fetch-put (block_of s id) (block_of s j) buf' buf s e in
      let size = length-encode_inode node r in
      ap (get_inode_from_disk j) e2 ∙ elim (Bool-cases (block_of s id == block_of s j)) [
        | inr other ↦ rw (id_apart other) (read_other j (block_of s id) buf' s (rw other at here))
        | inl same ↦
            let now : fetch (block_of s j) s1 ≡ some buf' = rw same at here in
            elim (Bool-cases (id == j)) [
              | inl eq ↦
                  let q : id ≡ j = ground arith in
                  rw eq (
                    read_slot j s1 buf' now
                    ∙ place_same s id j node buf buf' table.inode_size r e1 q)
              | inr ne ↦
                  let lba : block_of s id ≡ block_of s j = ground arith in
                  let apart_by = other_place same ne in
                  rw ne (
                    read_slot j s1 buf' now
                    ∙ ap (λ (o : Option Buffer). o >>= λ bytes. some (decode_inode bytes))
                        (place_other s id j node buf buf' table.inode_size r e1 apart_by)
                    ∙ sym (read_slot j s buf (ap (λ l. fetch l s) (sym lba) ∙ e)))
            ]
      ]

pub write_inode_to_disk-sb :
    (id : ℕ) (node : Inode) (s s' : Store) → write_inode_to_disk id node s ≡ some s' → s'.sb ≡ s.sb
unfolding put
write_inode_to_disk-sb id node s s' run =
    let (buf, buf', e, e1, e2) = written_slot id node s s' run in ap (λ (t : Store). t.sb) e2
