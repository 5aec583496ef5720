-- ===== src/FileSys/Mount.antt =====
-- The constructor of `FileSys` in include/FileSys.hpp on a disk that has a super block.
use osep.Common.{◌≡◌, refl, ap, ◌∙◌, true, some}
use osep.Layout.{SuperBlock, valid}
use osep.Layout.SuperBytes.{InRange, decode_superblock, decode-encode_superblock}
use osep.Store.{Store, flush_super, read_super}
use osep.FileSys.{FileSys}
use osep.FileSys.Format.{mount}

read_super-flush_super :
    (s t : Store)
    → InRange s.sb
    → t.blocks 0 ≡ (flush_super s).blocks 0
    → read_super t ≡ record t { sb = s.sb }
unfolding flush_super read_super
read_super-flush_super s t r e =
    ap (λ (sb : SuperBlock). record t { sb = sb })
      (ap decode_superblock e ∙ decode-encode_superblock s.sb r)

-- The file system with a super block in memory.
abbrev pub with_super : SuperBlock → FileSys → FileSys
with_super sb f = record f {
  kernel = record f.kernel { store = record f.kernel.store { sb = sb } };
}

mount-valid :
    (f : FileSys)
    → valid (read_super f.kernel.store).sb ≡ true
    → mount f ≡ some (record f { kernel = record f.kernel { store = read_super f.kernel.store } })
unfolding mount
mount-valid f ok = rw ok refl

-- If block 0 of the disk is what `flush_super` writes of a valid super block within its members'
-- ranges, the constructor of `FileSys` returns with that super block in memory and everything
-- else, the blocks of the disk among it, as it was.
pub mount-flush_super :
    (f : FileSys) (s : Store)
    → InRange s.sb
    → valid s.sb ≡ true
    → f.kernel.store.blocks 0 ≡ (flush_super s).blocks 0
    → mount f ≡ some (with_super s.sb f)
mount-flush_super f s r ok e =
    let q = read_super-flush_super s f.kernel.store r e in
    mount-valid f (ap (λ (t : Store). valid t.sb) q ∙ ok)
    ∙ ap (λ (t : Store). some (record f { kernel = record f.kernel { store = t } })) q
