-- ===== src/Layout/Inode/Roundtrip.antt =====
-- What `write_inode_to_disk` stores is what `get_inode_from_disk` finds.
use mathlib.Core.Path.{subst}
use osep.Common.{length-append, ◌^◌, ◌<◌, ◌≡◌, ◌∙◌, [], ◌∷◌, ◌++◌, length, drop, take, arith, ap}
use osep.Common.Bytes.{Buffer, take_append, drop_append}
use osep.Layout.Codec.{le_bytes, le_value, value-bytes_eight, value-bytes_four, value-bytes_one}
use osep.Layout.Inode.{Inode, DirItem, encode_inode, decode_inode, encode_diritem, decode_diritem}

-- The ranges of the members' types.
pub record InRange (n : Inode) : Type 0 where
  pub id : n.id < 2 ^ 64
  pub prev_inode_id : n.prev_inode_id < 2 ^ 64
  pub block_lba : n.block_lba < 2 ^ 64
  pub link_cnt : n.link_cnt < 2 ^ 32
  pub file_type : n.file_type < 256
  pub storage_type : n.storage_type < 256
  pub inline_data : length n.inline_data ≡ 474
  pub size : n.size < 2 ^ 64

inline_lem : (xs ys : Buffer) → length xs ≡ 474 → take 474 (xs ++ ys) ≡ xs
inline_lem xs ys h = rw h at (take_append xs ys)

behind_lem : (xs ys : Buffer) → length xs ≡ 474 → drop 474 (xs ++ ys) ≡ ys
behind_lem xs ys h = rw h at (drop_append xs ys)

-- An inode within its members' ranges is the one that its bytes decode to.
pub decode-encode_inode : (n : Inode) → InRange n → decode_inode (encode_inode n) ≡ n
unfolding decode_inode encode_inode
decode-encode_inode n r =
    let r6 = n.inline_data ++ le_bytes 8 n.size in
    let r5 = le_bytes 1 n.storage_type ++ r6 in
    let r4 = le_bytes 1 n.file_type ++ r5 in
    let r3 = le_bytes 4 n.link_cnt ++ r4 in
    let r2 = le_bytes 8 n.block_lba ++ r3 in
    let r1 = le_bytes 8 n.prev_inode_id ++ r2 in
    λ i. record {
      id = value-bytes_eight n.id r1 r.id i;
      prev_inode_id = value-bytes_eight n.prev_inode_id r2 r.prev_inode_id i;
      block_lba = value-bytes_eight n.block_lba r3 r.block_lba i;
      link_cnt = value-bytes_four n.link_cnt r4 r.link_cnt i;
      file_type = value-bytes_one n.file_type r5 r.file_type i;
      storage_type = value-bytes_one n.storage_type r6 r.storage_type i;
      inline_data = inline_lem n.inline_data (le_bytes 8 n.size) r.inline_data i;
      size =
          (ap (le_value 8) (behind_lem n.inline_data (le_bytes 8 n.size) r.inline_data)
              ∙ value-bytes_eight n.size [] r.size)
            i;
    }

-- An inode takes 512 bytes.
pub length-encode_inode : (n : Inode) → InRange n → length (encode_inode n) ≡ 512
unfolding encode_inode
length-encode_inode n r =
    omega (arith, length-append n.inline_data (le_bytes 8 n.size), r.inline_data)

-- A directory entry with a 64-bit inode number and a name field of 54 bytes is the one that its
-- bytes decode to, and they are 64 bytes.
pub decode-encode_diritem :
    (d : DirItem)
    → d.inode_id < 2 ^ 64
    → length d.name ≡ 54
    → (decode_diritem (encode_diritem d) ≡ d) × (length (encode_diritem d) ≡ 64)
unfolding decode_diritem encode_diritem
decode-encode_diritem d hi hn = (
  λ i. record {
    inode_id = value-bytes_eight d.inode_id (d.name ++ (0 ∷ 0 ∷ [])) hi i;
    name =
        (subst (λ k. take k (d.name ++ (0 ∷ 0 ∷ [])) ≡ d.name) hn (take_append d.name (0 ∷ 0 ∷ [])))
          i;
  },
  omega (arith, length-append d.name (0 ∷ 0 ∷ [])),
)
