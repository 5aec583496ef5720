-- ===== src/Tests/Layout.antt =====
-- The layout of a small disk, and the bytes of a record of each kind.
use osep.Common.{◌∷◌, replicate, arith}
use osep.Layout.{create_superblock}
use osep.Layout.Regions.{IsLayout, create_superblock-IsLayout}
use osep.Layout.Inode.{DirItem}

create_superblock-IsLayout_example : IsLayout (create_superblock 4)
create_superblock-IsLayout_example = create_superblock-IsLayout 4 (omega arith) (omega arith)

abbrev entry : DirItem
entry = record { inode_id = 9; name = b'a' ∷ replicate 53 0 }
