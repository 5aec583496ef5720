-- ===== src/Io/View.antt =====
-- The blocks that an `IOContext` stands for, and what its calls do to them.
use osep.Common.{
  ℕ, ◌+◌, ◌<◌, ◌≡◌, refl, ap, ◌∙◌, some, true, false, inl, inr, ◌==◌, ◌++◌, [], length, replicate,
  drop, sym, ◌∷◌, arith, Bool-cases, leb, length-replicate,
}
use osep.Common.Bytes.{Buffer, copy_to}
use mathlib.Core.List.{append-nil}
use osep.Disk.{Geometry, File, read_disk_block, write_disk_block}
use osep.Disk.Blocks.{OnDisk, read-write, read_disk_total, write_disk_total}
use osep.Cache.Coherence.{IsBackend}
use osep.Io.{load_block, save_block, block_backend}

-- The blocks that the cache may hold: those of the disk but block 0, the super block.
abbrev pub Cached : Geometry → ℕ → Type 0
Cached g lba = (0 < lba) × OnDisk g lba

-- Buffers of the size of a block.
abbrev pub IsBlock : Geometry → Buffer → Type 0
IsBlock g b = length b ≡ g.block_size

drop_all : (xs : Buffer) → drop (length xs) xs ≡ []
drop_all [] = refl
drop_all (x ∷ xs) = drop_all xs

-- A whole buffer is overwritten by as many bytes.
pub copy_whole : (buf bytes : Buffer) → length buf ≡ length bytes → copy_to buf 0 bytes ≡ some bytes
unfolding copy_to
copy_whole buf bytes h =
    let fit : leb (0 + length bytes) (length buf) ≡ true = ground arith in
    let e : 0 + length bytes ≡ length buf = omega arith in
    rw fit (ap some (rw e (ap (λ t. bytes ++ t) (drop_all buf) ∙ append-nil bytes)))

-- Over every disk, loads and saves of blocks of the disk but block 0 meet the laws of a backend:
-- they succeed, and a save changes what is loaded of its block alone.
pub block_backend-IsBackend :
    (g : Geometry) → IsBackend (block_backend g g.block_size) (Cached g) (IsBlock g)
unfolding load_block save_block
block_backend-IsBackend g = record {
  load_stored = λ k s st.
      let (b, e, fit) = read_disk_total g k s st.1 in
      let no : (k == 0) ≡ false = ground arith in
      let pad = length-replicate g.block_size (let z : ℕ = 0 in z) in
      (b, rw no (rw e (copy_whole (replicate g.block_size 0) b (pad ∙ sym fit))), fit);
  save_stored = λ k v s st fit.
      let (s', e) = write_disk_total g k v s st.1 fit in
      let no : (k == 0) ≡ false = ground arith in (s', rw no e);
  load-save = λ k j v s s' st fit h.
      let no : (k == 0) ≡ false = ground arith in
      let e : write_disk_block g k v s ≡ some s' = ground arith in
      let raw = read-write g k j v s s' st.1 fit e in
      let pad = length-replicate g.block_size (let z : ℕ = 0 in z) in
      let whole = copy_whole (replicate g.block_size 0) v (pad ∙ sym fit) in
      elim (Bool-cases (k == j)) [
        | inl same ↦ ground (arith, raw, whole)
        | inr other ↦ elim (Bool-cases (j == 0)) [
          | inl z ↦ rw z (rw other refl)
          | inr nz ↦ rw nz (rw other (rw raw (rw other refl)))
        ]
      ];
}

-- A block that the cache may hold is loaded as it stands on the disk.
pub load_block-read :
    (g : Geometry) (k : ℕ) (f : File)
    → Cached g k
    → load_block g g.block_size k f ≡ read_disk_block g k f
unfolding load_block
load_block-read g k f st =
    let (b, e, fit) = read_disk_total g k f st.1 in
    let no : (k == 0) ≡ false = ground arith in
    let pad = length-replicate g.block_size (let z : ℕ = 0 in z) in
    rw no (rw e (copy_whole (replicate g.block_size 0) b (pad ∙ sym fit)))

-- Block 0 is loaded as zeros, whatever the disk holds there.
pub load_block-others :
    (g : Geometry) (f f' : File)
    → ((j : ℕ) → (0 == j) ≡ false → read_disk_block g j f' ≡ read_disk_block g j f)
    → (j : ℕ) → load_block g g.block_size j f' ≡ load_block g g.block_size j f
unfolding load_block
load_block-others g f f' same j = elim (Bool-cases (j == 0)) [
  | inl z ↦ rw z refl
  | inr nz ↦ rw nz (rw (same j (ground arith)) refl)
]
