-- ===== src/Simplefs/Start.antt =====
-- The file system that `sfs_init` and `sfs_format` leave.
use riscv64_embedded_os.Prelude.{
  ℕ, zero, suc, ◌+◌, ◌<◌, ◌≡◌, refl, ◌*◌, ◌∙◌, sym, ap, List, Bool, false, not, ◌&&◌, arith, ◌==◌,
  ltb, leb, if◌then◌else◌, length, none, Bool-cases, inl, inr,
}
use mathlib.Core.Bool.{false≢true}
use riscv64_embedded_os.Prelude.Int.{u32}
use riscv64_embedded_os.Names.{match_from}
use riscv64_embedded_os.Mm
use riscv64_embedded_os.Mm.{Mm, null}
use riscv64_embedded_os.Simplefs.{
  Sfs, Inode, max_files, max_filename, init_from, init, format, find_inode, put_inode,
}
use riscv64_embedded_os.Simplefs.Find.{in_use, used, Inv, Unique, find_inode_missing}

init_from-inodes :
    (left i : ℕ) (s : Sfs) (k : ℕ)
    → (init_from left i s).inodes k ≡ (
        if leb i k && ltb k (i + left)
        then record (s.inodes k) { ino = 0; file_type = 0; size = 0 }
        else s.inodes k)
unfolding init_from
init_from-inodes zero i s k = ground arith
init_from-inodes (suc left) i s k = ground (
  arith,
  init_from-inodes left (i + 1)
      (put_inode s i (record (s.inodes i) { ino = 0; file_type = 0; size = 0 })) k,
)

init-inode :
    (s : Sfs) (k : ℕ)
    → k < max_files
    → (init s).inodes k ≡ record (s.inodes k) { ino = 0; file_type = 0; size = 0 }
unfolding init
init-inode s k h = init_from-inodes max_files 0 s k ∙ ground arith

none_used : (n : ℕ) (s : Sfs) → ((k : ℕ) → k < n → in_use s k ≡ false) → used n s ≡ 0
none_used zero s out = refl
none_used (suc n) s out =
    rw (out n (omega arith)) (omega (arith, none_used n s (λ k h. out k (omega arith))))

format-inodes :
    (heap_end : ℕ) (mm : Mm) (s : Sfs) (blocks : ℕ)
    → ((format heap_end mm s blocks).1.inodes ≡ s.inodes)
      × ((format heap_end mm s blocks).1.superblock.num_free_inodes ≡ max_files)
unfolding format
format-inodes heap_end mm s blocks =
    elim (Bool-cases ((Mm.kmalloc heap_end mm (u32 (blocks * 4096))).0 == null)) [
      | inl e ↦ rw (e, format) (refl, refl)
      | inr e ↦ rw (e, format) (refl, refl)
    ]

-- `sfs_format` behind `sfs_init`, whether it gets its blocks or not, leaves a well-formed directory
-- in which no name leads anywhere, if the arrays of the names have their length.
pub format-Inv :
    (heap_end : ℕ) (mm : Mm) (s : Sfs) (blocks : ℕ)
    → ((i : ℕ) → i < max_files → length (s.inodes i).name ≡ max_filename)
    → let (n, t, mm') = format heap_end mm (init s) blocks in
      Inv t × Unique t × ((name : List ℕ) → find_inode t name ≡ none)
format-Inv heap_end mm s blocks arrays = (
  record {
    numbered = λ k h. inl (ap (λ (v : Inode). v.ino) (cleared k h));
    arrays = λ k h. ap (λ (v : Inode). length v.name) (cleared k h) ∙ arrays k h;
    named = λ k h u. absurd (false≢true (sym (unused k h) ∙ u));
    counted =
        omega (arith, (format-inodes heap_end mm (init s) blocks).1, none_used max_files t unused);
  },
  (λ i j a b u v e. absurd (false≢true (sym (unused i a) ∙ u))),
  (λ name. find_inode_missing t name (λ k h.
      ap (λ (b : Bool). b && match_from max_filename 0 (t.inodes k).name name) (unused k h))),
)
  where
    t : Sfs
    t = (format heap_end mm (init s) blocks).1

    cleared :
        (k : ℕ)
        → k < max_files
        → t.inodes k ≡ record (s.inodes k) { ino = 0; file_type = 0; size = 0 }
    cleared k h =
        ap (λ (f : ℕ → Inode). f k) (format-inodes heap_end mm (init s) blocks).0 ∙ init-inode s k h

    unused : (k : ℕ) → k < max_files → in_use t k ≡ false
    unused k h = ap (λ (v : Inode). not (v.ino == 0)) (cleared k h)
