-- ===== src/Disk/Blocks.antt =====
-- The file as an array of blocks: what a write changes, and what a read returns.
use mathlib.Core.Path.{subst, ap₂}
use osep.Common.{
  ℕ, zero, suc, ◌+◌, ◌-◌, ◌*◌, ◌/◌, ◌≤◌, ◌<◌, ◌≡◌, refl, ap, ◌∙◌, true, false, none, some, [], ◌∷◌,
  ◌++◌, leb, ltb, ◌==◌, ◌&&◌, min, max, if◌then◌else◌, u64, length, replicate, get_or, arith,
  Bool-cases, ◌⊎◌, inl, inr, ==_iff, ltb→lt,
}
use osep.Common.Bytes.{Buffer}
use osep.Disk.{
  Geometry, File, expected_size_bytes, bytes_from, clear_disk, read_disk_block, write_disk_block,
  write_bytes,
}

-- The blocks that the disk has.
abbrev pub OnDisk : Geometry → ℕ → Type 0
OnDisk g lba = lba < expected_size_bytes g / g.block_size

-- What reads at an offset: zero from the file's end on.
content : File → ℕ → ℕ
content f p = if ltb p f.size then f.byte p else 0

block_end : (e bs lba : ℕ) → lba < e / bs → lba * bs + bs ≤ e
block_end e bs lba h = grind arith

length-bytes_from : (byte : ℕ → ℕ) (off n : ℕ) → length (bytes_from byte off n) ≡ n
unfolding bytes_from
length-bytes_from byte off zero = refl
length-bytes_from byte off (suc n) = ap suc (length-bytes_from byte (off + 1) n)

bytes_eq :
    (f h : ℕ → ℕ) (off n : ℕ)
    → ((p : ℕ) → off ≤ p → p < off + n → f p ≡ h p)
    → bytes_from f off n ≡ bytes_from h off n
unfolding bytes_from
bytes_eq f h off zero e = refl
bytes_eq f h off (suc n) e =
    ap₂ ◌∷◌ (e off (omega arith) (omega arith))
      (bytes_eq f h (off + 1) n (λ p lo hi. e p (omega arith) (omega arith)))

zeros_past_end :
    (f : File) (off n : ℕ) → f.size ≤ off → replicate n 0 ≡ bytes_from (content f) off n
unfolding bytes_from content
zeros_past_end f off zero h = refl
zeros_past_end f off (suc n) h = ap₂ ◌∷◌ (ground arith) (zeros_past_end f (off + 1) n (omega arith))

padded :
    (f : File) (off m n : ℕ)
    → (m + off ≤ f.size) ⊎ (m ≡ 0)
    → (n ≡ 0) ⊎ (f.size ≤ m + off)
    → bytes_from f.byte off m ++ replicate n 0 ≡ bytes_from (content f) off (m + n)
unfolding bytes_from content
padded f off zero zero lo hi = refl
padded f off zero (suc n) lo hi =
    let e : 0 + suc n ≡ suc n = omega arith in rw e (zeros_past_end f off (suc n) (omega arith))
padded f off (suc m) n lo hi =
    let e : suc m + n ≡ suc (m + n) = omega arith in
    rw e (ap₂ ◌∷◌ (ground arith) (padded f (off + 1) m n (omega arith) (omega arith)))

read-OnDisk :
    (g : Geometry) (lba : ℕ) (f : File)
    → OnDisk g lba
    → read_disk_block g lba f ≡ some (bytes_from (content f) (lba * g.block_size) g.block_size)
unfolding read_disk_block
read-OnDisk g lba f on =
    let end = block_end (expected_size_bytes g) g.block_size lba on in
    let off : u64 (lba * g.block_size) ≡ lba * g.block_size = omega arith in
    let here : leb (expected_size_bytes g / g.block_size) lba ≡ false = ground arith in
    let gcount = min g.block_size (f.size - lba * g.block_size) in
    let sum : gcount + (g.block_size - gcount) ≡ g.block_size = omega arith in
    rw (here, read_disk_block)
      (rw off (
        ap some (
          subst
            (λ k.
              bytes_from f.byte (lba * g.block_size) gcount ++ replicate (g.block_size - gcount) 0
              ≡ bytes_from (content f) (lba * g.block_size) k)
            sum
            (padded f (lba * g.block_size) gcount (g.block_size - gcount) (omega arith)
              (omega arith)))))

-- Reading back a list that was written byte by byte.
bytes_of_list :
    (xs : Buffer) (base n : ℕ)
    → length xs ≡ n
    → bytes_from (λ p. get_or xs (p - base) 0) base n ≡ xs
unfolding bytes_from
bytes_of_list [] base n h = let e : n ≡ 0 = omega arith in rw e refl
bytes_of_list (x ∷ xs) base zero h = absurd (omega arith)
bytes_of_list (x ∷ xs) base (suc n) h =
    let e : base - base ≡ 0 = omega arith in
    ap₂ ◌∷◌ (rw e refl) (
      bytes_eq _ _ (base + 1) n
        (λ p lo hi. let q : p - base ≡ suc (p - (base + 1)) = omega arith in rw q refl)
      ∙ bytes_of_list xs (base + 1) n (omega arith))

rows_apart : (bs i j : ℕ) → i < j → i * bs + bs ≤ j * bs
rows_apart bs i j h = grind arith

-- An address of one block lies in no other.
apart :
    (bs i j p : ℕ)
    → (i == j) ≡ false
    → j * bs ≤ p
    → p < j * bs + bs
    → i * bs ≤ p
    → p < i * bs + bs
    → ⊥
apart bs i j p ne lo hi lo' hi' = elim (Bool-cases (ltb i j)) [
  | inl less ↦ omega (arith, rows_apart bs i j (ltb→lt i j less))
  | inr more ↦ let less : j < i = ground arith in omega (arith, rows_apart bs j i less)
]

module _ (g : Geometry) (lba j : ℕ) (bytes : Buffer) (f f' : File) (on : OnDisk g lba)
    (fit : length bytes ≡ g.block_size) (run : write_disk_block g lba bytes f ≡ some f') where
  wrote :
      (p : ℕ)
      → content f' p ≡ (
          if leb (lba * g.block_size) p && ltb p (lba * g.block_size + g.block_size)
          then get_or bytes (p - lba * g.block_size) 0
          else content f p)
  unfolding write_disk_block content
  wrote p =
      let end = block_end (expected_size_bytes g) g.block_size lba on in
      let off : u64 (lba * g.block_size) ≡ lba * g.block_size = omega arith in ground (arith, off)

  off_disk :
      (h : File)
      → leb (expected_size_bytes g / g.block_size) j ≡ true
      → read_disk_block g j h ≡ none
  unfolding read_disk_block
  off_disk h e = rw e refl

  -- If a block's bytes were written to a block of the disk, that block reads as those bytes, and
  -- every other one, on the disk or not, reads as before.
  pub read-write : read_disk_block g j f' ≡ (if lba == j then some bytes else read_disk_block g j f)
  read-write = elim (Bool-cases (leb (expected_size_bytes g / g.block_size) j)) [
    | inl off ↦ rw (off_disk f' off, off_disk f off) (ground arith)
    | inr off ↦
        let there : OnDisk g j = ground arith in
        let end_j = block_end (expected_size_bytes g) g.block_size j there in
        let end = block_end (expected_size_bytes g) g.block_size lba on in
        rw (read-OnDisk g j f' there, read-OnDisk g j f there)
          (elim (Bool-cases (lba == j)) [
            | inl same ↦
                let e : lba ≡ j = (==_iff lba j).0 same in
                rw same (
                  ap some (
                    rw (← e) (
                      bytes_eq _ _ (lba * g.block_size) g.block_size
                        (λ p lo hi. ground (arith, wrote p))
                      ∙ bytes_of_list bytes (lba * g.block_size) g.block_size fit)))
            | inr other ↦ rw other (
                ap some (
                  bytes_eq _ _ (j * g.block_size) g.block_size
                    (λ p lo hi. ground (arith, wrote p, apart g.block_size lba j p))))
          ])
  ]

-- A block of the disk can be read, and has the size of a block.
pub read_disk_total :
    (g : Geometry) (lba : ℕ) (f : File)
    → OnDisk g lba
    → (b : Buffer) × (read_disk_block g lba f ≡ some b) × (length b ≡ g.block_size)
read_disk_total g lba f on =
    (_, read-OnDisk g lba f on, length-bytes_from (content f) (lba * g.block_size) g.block_size)

-- A block of the disk can be written.
pub write_disk_total :
    (g : Geometry) (lba : ℕ) (b : Buffer) (f : File)
    → OnDisk g lba
    → length b ≡ g.block_size
    → (f' : File) × (write_disk_block g lba b f ≡ some f')
unfolding write_disk_block
write_disk_total g lba b f on fit =
    let here : leb (expected_size_bytes g / g.block_size) lba ≡ false = ground arith in
    let long : ltb (length b) g.block_size ≡ false = ground arith in
    (
      record {
        size = max f.size (u64 (lba * g.block_size) + g.block_size);
        byte = write_bytes f (u64 (lba * g.block_size)) g.block_size b;
      },
      rw here (rw long refl),
    )

zeros_read : (off n : ℕ) → bytes_from (λ p. 0) off n ≡ replicate n 0
unfolding bytes_from
zeros_read off zero = refl
zeros_read off (suc n) = ap (◌∷◌ 0) (zeros_read (off + 1) n)

zero_content : (g : Geometry) (f : File) (p : ℕ) → content (clear_disk g f) p ≡ 0
unfolding clear_disk content
zero_content g f p = ground arith

-- After `clear` every block of the disk reads as zeros.
pub clear-read :
    (g : Geometry) (lba : ℕ) (f : File)
    → OnDisk g lba
    → read_disk_block g lba (clear_disk g f) ≡ some (replicate g.block_size 0)
unfolding clear_disk
clear-read g lba f on =
    read-OnDisk g lba (clear_disk g f) on
    ∙ ap some (
        bytes_eq _ (λ p. 0) (lba * g.block_size) g.block_size (λ p lo hi. zero_content g f p)
        ∙ zeros_read (lba * g.block_size) g.block_size)
