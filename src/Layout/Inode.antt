-- ===== src/Layout/Inode.antt =====
-- `INode` of include/INode.hpp and `DirItem` of include/INodeTable.hpp, with their bytes.
pub mod Roundtrip
use osep.Common.{
  ℕ, ◌+◌, ◌-◌, ◌*◌, ◌<◌, ◌≡◌, List, [], ◌∷◌, ◌++◌, length, drop, take, replicate, ◌==◌,
  if◌then◌else◌,
}
use osep.Common.Bytes.{Buffer}
use osep.Layout.Codec.{le_bytes, word_at}

-- `FileType` and `StorageType` are uint8_t: the constants are 0 and 1, and 0, 1 and 2. A byte read
-- from the disk may hold any value.
abbrev pub type_file : ℕ
type_file = 0

abbrev pub type_directory : ℕ
type_directory = 1

abbrev pub storage_inline : ℕ
storage_inline = 0

abbrev pub storage_direct : ℕ
storage_direct = 1

abbrev pub storage_index : ℕ
storage_index = 2

pub record Inode : Type 0 where
  pub id : ℕ
  pub prev_inode_id : ℕ
  pub block_lba : ℕ
  pub link_cnt : ℕ
  pub file_type : ℕ
  pub storage_type : ℕ
  pub inline_data : Buffer
  pub size : ℕ

-- The constructor: all bytes zero, but for the two identifiers.
unfoldable pub new_inode : ℕ → ℕ → Inode
new_inode id prev_inode_id = record {
  id = id;
  prev_inode_id = prev_inode_id;
  block_lba = 0;
  link_cnt = 0;
  file_type = type_file;
  storage_type = storage_inline;
  inline_data = replicate 474 0;
  size = 0;
}

unfoldable pub encode_inode : Inode → Buffer
unfolding le_bytes
encode_inode n =
    le_bytes 8 n.id
    ++ (le_bytes 8 n.prev_inode_id
        ++ (le_bytes 8 n.block_lba
            ++ (le_bytes 4 n.link_cnt
                ++ (le_bytes 1 n.file_type
                    ++ (le_bytes 1 n.storage_type ++ (n.inline_data ++ le_bytes 8 n.size))))))

unfoldable pub decode_inode : Buffer → Inode
unfolding word_at
decode_inode buf = record {
  id = word_at 0 8 buf;
  prev_inode_id = word_at 8 8 buf;
  block_lba = word_at 16 8 buf;
  link_cnt = word_at 24 4 buf;
  file_type = word_at 28 1 buf;
  storage_type = word_at 29 1 buf;
  inline_data = take 474 (drop 30 buf);
  size = word_at 504 8 buf;
}

pub record DirItem : Type 0 where
  pub inode_id : ℕ
  pub name : Buffer

-- The 8 bytes of the identifier, the 54 of the name, and 2 of padding.
unfoldable pub encode_diritem : DirItem → Buffer
unfolding le_bytes
encode_diritem d = le_bytes 8 d.inode_id ++ (d.name ++ (0 ∷ 0 ∷ []))

unfoldable pub decode_diritem : Buffer → DirItem
unfolding word_at
decode_diritem buf = record { inode_id = word_at 0 8 buf; name = take 54 (drop 8 buf) }

-- A character array read as a string: the bytes before the first zero.
unfoldable pub c_string : Buffer → Buffer
c_string [] = []
c_string (c ∷ cs) = if c == 0 then [] else c ∷ c_string cs
