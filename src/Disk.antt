-- ===== src/Disk.antt =====
-- The virtual disk: `IDisk` of include/IDisk.hpp and `FileDisk` of include/FileDisk.hpp. The open
-- file stream is the file's size and bytes, and no operation of the stream fails; `none` is a
-- thrown `out_of_range` or undefined behaviour.
pub mod Blocks
use osep.Common.{
  ℕ, zero, suc, ◌+◌, ◌-◌, ◌*◌, ◌/◌, ◌^◌, ◌≡◌, ◌==◌, Option, none, some, List, [], ◌∷◌, ◌++◌, ◌&&◌,
  leb, ltb, min, max, if◌then◌else◌, u64, length, replicate, get_or,
}
use osep.Common.Bytes.{Buffer}

-- The fields of `IDisk`.
pub record Geometry : Type 0 where
  pub disk_size_gb : ℕ
  pub block_size : ℕ

pub record File : Type 0 where
  pub size : ℕ
  pub byte : ℕ → ℕ

abbrev pub expected_size_bytes : Geometry → ℕ
expected_size_bytes g = u64 (g.disk_size_gb * 2 ^ 30)

-- `n` bytes of the file from an offset on.
pub bytes_from : (ℕ → ℕ) → ℕ → ℕ → Buffer
bytes_from byte off zero = []
bytes_from byte off (suc n) = byte off ∷ bytes_from byte (off + 1) n

-- `clear`: the file is truncated to nothing and extended with zeros.
unfoldable pub clear_disk : Geometry → File → File
clear_disk g f = record { size = expected_size_bytes g; byte = λ _. 0 }

-- The constructor of `FileDisk`, with the host file if there is one: a missing file is created, and a
-- file of another size is emptied and filled.
unfoldable pub open_disk : Geometry → Option File → File
unfolding clear_disk
open_disk g none = clear_disk g (record { size = 0; byte = λ _. 0 })
open_disk g (some f) = if f.size == expected_size_bytes g then f else clear_disk g f

-- `FileDisk::read_block`: what the file does not hold reads as zeros.
unfoldable pub read_disk_block : Geometry → ℕ → File → Option Buffer
unfolding bytes_from
read_disk_block g lba f =
    if leb (expected_size_bytes g / g.block_size) lba
    then none
    else let offset = u64 (lba * g.block_size) in
      let gcount = min g.block_size (f.size - offset) in
      some (bytes_from f.byte offset gcount ++ replicate (g.block_size - gcount) 0)

-- The file's bytes after a write of `n` bytes at an offset; a gap before it is filled with zeros.
abbrev pub write_bytes : File → ℕ → ℕ → Buffer → ℕ → ℕ
write_bytes f offset n bytes p =
    if leb offset p && ltb p (offset + n)
    then get_or bytes (p - offset) 0
    else if ltb p f.size
    then f.byte p
    else 0

-- `FileDisk::write_block`, which reads a block's bytes at the given pointer.
unfoldable pub write_disk_block : Geometry → ℕ → Buffer → File → Option File
write_disk_block g lba bytes f =
    if leb (expected_size_bytes g / g.block_size) lba
    then none
    else if ltb (length bytes) g.block_size
    then none
    else let offset = u64 (lba * g.block_size) in
      some (record {
        size = max f.size (offset + g.block_size);
        byte = write_bytes f offset g.block_size bytes;
      })
