-- ===== src/Simplefs/Contents.antt =====
-- The sizes and byte counts of `sfs_read` and `sfs_write`.
use riscv64_embedded_os.Prelude.{
  ℕ, ◌+◌, ◌-◌, ◌^◌, ◌≤◌, ◌<◌, ◌≡◌, ◌≢◌, inl, inr, ◌∙◌, ap, sym, ltb, leb, false, arith, ==_ne,
  ==_refl, if◌then◌else◌, Bool-cases,
}
use riscv64_embedded_os.Prelude.Int.{u32, as_int, as_int_pos, pos}
use riscv64_embedded_os.Simplefs.{Sfs, Inode, max_files, read, write, no_inode, put_inode}

abbrev pub size_of : Sfs → ℕ → ℕ
size_of s ino = (s.inodes (ino - 1)).size

abbrev pub file_max : ℕ → ℕ → ℕ
file_max a b = if leb a b then b else a

abbrev pub file_min : ℕ → ℕ → ℕ
file_min a b = if leb a b then a else b

-- `ino` is the number of an inode in use.
abbrev pub IsFile : Sfs → ℕ → Type 0
IsFile s ino = (1 ≤ ino) × (ino ≤ max_files) × ((s.inodes (ino - 1)).ino ≡ ino)

no_inode-IsFile : (s : Sfs) (ino : ℕ) → IsFile s ino → no_inode s ino ≡ false
no_inode-IsFile s ino (a, b, e) = rw (e, ==_refl ino) (ground arith)

u32_id : (n : ℕ) → n < 2 ^ 32 → u32 n ≡ n
u32_id n h = omega arith

write_file :
    (s : Sfs) (ino offset size : ℕ)
    → IsFile s ino
    → write s ino offset size ≡ (
      as_int size,
      if ltb (size_of s ino) (u32 (offset + size))
          then put_inode s (ino - 1) (record (s.inodes (ino - 1)) { size = u32 (offset + size) })
          else s,
    )
unfolding write
write_file s ino offset size file = rw (no_inode-IsFile s ino file)

read_file :
    (s : Sfs) (ino from wanted : ℕ)
    → IsFile s ino
    → wanted < 2 ^ 31
    → from + wanted < 2 ^ 32
    → read s ino from wanted ≡ pos (file_min wanted (size_of s ino - from))
unfolding read
read_file s ino from wanted file a b =
    rw (no_inode-IsFile s ino file, u32_id (from + wanted) b) (ground arith)

-- the state with inode `ino` at least as long as `end`
abbrev grown : Sfs → ℕ → ℕ → Sfs
grown s ino end =
    if ltb (size_of s ino) end
    then put_inode s (ino - 1) (record (s.inodes (ino - 1)) { size = end })
    else s

put-same : (s : Sfs) (k : ℕ) (v : Inode) → (put_inode s k v).inodes k ≡ v
put-same s k v = rw (==_refl k)

put-size : (s : Sfs) (ino : ℕ) (v : Inode) → size_of (put_inode s (ino - 1) v) ino ≡ v.size
put-size s ino v = ap (λ (i : Inode). i.size) (put-same s (ino - 1) v)

grown-size : (s : Sfs) (ino end : ℕ) → size_of (grown s ino end) ino ≡ file_max (size_of s ino) end
grown-size s ino end = elim (Bool-cases (ltb (size_of s ino) end)) [
  | inl h ↦
      let less : size_of s ino < end = ground arith in
      rw h (put-size s ino (record (s.inodes (ino - 1)) { size = end }) ∙ ground (arith, less))
  | inr h ↦ let more : end ≤ size_of s ino = ground arith in rw h (ground arith)
]

grown-IsFile : (s : Sfs) (ino end : ℕ) → IsFile s ino → IsFile (grown s ino end) ino
grown-IsFile s ino end (a, b, e) = elim (Bool-cases (ltb (size_of s ino) end)) [
  | inl h ↦ (a, b, rw (h, ==_refl (ino - 1)) e)
  | inr h ↦ (a, b, rw h e)
]

grown_else : (s : Sfs) (ino end k : ℕ) → k ≢ ino - 1 → (grown s ino end).inodes k ≡ s.inodes k
grown_else s ino end k ne = elim (Bool-cases (ltb (size_of s ino) end)) [
  | inl h ↦ rw (h, ==_ne (ino - 1) k (λ e. ne (sym e)))
  | inr h ↦ rw h
]

grown-superblock : (s : Sfs) (ino end : ℕ) → (grown s ino end).superblock ≡ s.superblock
grown-superblock s ino end = elim (Bool-cases (ltb (size_of s ino) end)) [
  | inl h ↦ rw h
  | inr h ↦ rw h
]

-- For the number of an inode in use: a `sfs_write` of `size` bytes at `offset`, in which no sum
-- wraps and the size fits an `int`, succeeds and makes the file as long as its longest write; no
-- other inode and no superblock field changes. A `sfs_read` behind it, of a count and an offset
-- that do not wrap either, returns the number of bytes between that offset and the new end, at
-- most the number asked for.
pub sfs_write-read :
    (s : Sfs) (ino offset size from wanted : ℕ)
    → IsFile s ino
    → size < 2 ^ 31
    → offset + size < 2 ^ 32
    → wanted < 2 ^ 31
    → from + wanted < 2 ^ 32
    → let (n, t) = write s ino offset size in
      (n ≡ pos size)
      × (size_of t ino ≡ file_max (size_of s ino) (offset + size))
      × ((k : ℕ) → k ≢ ino - 1 → t.inodes k ≡ s.inodes k)
      × (t.superblock ≡ s.superblock)
      × (read t ino from wanted
          ≡ pos (file_min wanted (file_max (size_of s ino) (offset + size) - from)))
sfs_write-read s ino offset size from wanted file a b c d =
    let file' = grown-IsFile s ino (offset + size) file in
    rw (write_file s ino offset size file, u32_id (offset + size) b)
      (
        as_int_pos size a,
        grown-size s ino (offset + size),
        grown_else s ino (offset + size),
        grown-superblock s ino (offset + size),
        read_file (grown s ino (offset + size)) ino from wanted file' c d
            ∙ ap (λ n. pos (file_min wanted (n - from))) (grown-size s ino (offset + size)),
      )

-- For the number of an inode in use: a `sfs_write` whose end wraps around, of a size that fits
-- an `int`, reports that all bytes are written, and nothing changes when the file's size is at
-- least what is left of the sum.
pub write_wraps :
    (s : Sfs) (ino offset size : ℕ)
    → IsFile s ino
    → size < 2 ^ 31
    → offset < 2 ^ 32
    → 2 ^ 32 ≤ offset + size
    → offset + size ≤ size_of s ino + 2 ^ 32
    → write s ino offset size ≡ (pos size, s)
write_wraps s ino offset size file a b c d =
    let small : ltb (size_of s ino) (u32 (offset + size)) ≡ false = ground arith in
    rw (write_file s ino offset size file, small, as_int_pos size a)
