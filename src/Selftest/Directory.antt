-- ===== src/Selftest/Directory.antt =====
-- The test of the file system leaves the directory as it finds it.
use riscv64_embedded_os.Prelude.{
  Bool-cases, Option-cases, ==_ne, ◌<◌, ℕ, ◌+◌, ◌≡◌, ◌≢◌, ◌∙◌, sym, List, none, some, inl, inr,
  arith, length, refl,
}
use riscv64_embedded_os.Prelude.Int.{ℤ, minus_one}
use riscv64_embedded_os.Names.Text.{IsName, same_text, same_text_iff}
use mathlib.Core.Bool.{false≢true}
use riscv64_embedded_os.Simplefs.{max_filename, Sfs, find_inode, create, delete}
use riscv64_embedded_os.Simplefs.Find.{Inv, Unique}
use riscv64_embedded_os.Simplefs.Created
use riscv64_embedded_os.Simplefs.Created.{CreatesFile, create-Outcome}
use riscv64_embedded_os.Simplefs.Deleted
use riscv64_embedded_os.Simplefs.Deleted.{DeletesFile, delete-Outcome}
use riscv64_embedded_os.Selftest.{testfile, vfs_file, delete_created, test_filesystem}

-- Every name leads to what it led to, and the directory is well formed.
pub record Kept (s t : Sfs) : Type 0 where
  pub inv : Inv t
  pub unique : Unique t
  pub names : (name : List ℕ) → IsName name → find_inode t name ≡ find_inode s name

testfile-IsName : IsName testfile
testfile-IsName = (
  omega arith,
  (
    omega arith,
    (omega arith, (omega arith, (omega arith, (omega arith, (omega arith, (omega arith, tt)))))),
  ),
)

deleted-Kept :
    (s t : Sfs) (i : ℕ) (r : ℤ × Sfs)
    → Unique s
    → find_inode s testfile ≡ none
    → CreatesFile s testfile i t
    → Deleted.Outcome t testfile (some i) r
    → Kept s r.1
deleted-Kept s t i (m, u) unique new made (e, gone) = record {
  inv = gone.inv;
  unique = gone.unique;
  names = λ name is. elim (Bool-cases (same_text name testfile)) [
    | inl same ↦ rw ((same_text_iff name testfile).0 same) (gone.gone_name ∙ sym new)
    | inr other ↦
        let apart : name ≢ testfile =
          λ e. false≢true (sym other ∙ (same_text_iff name testfile).1 e) in
        gone.others name is apart ∙ made.others name is (λ e. apart (sym e))
  ];
}

created-Kept :
    (s : Sfs) (r : ℤ × Sfs)
    → Inv s
    → Unique s
    → find_inode s testfile ≡ none
    → Created.Outcome s testfile r
    → Kept s (delete_created r)
created-Kept s (n, t) inv unique new (inr (e, same)) =
    rw (e, same) record { inv = inv; unique = unique; names = λ name is. refl }
created-Kept s (n, t) inv unique new (inl (i, e, below, made)) =
    let short : length testfile < max_filename = omega arith in
    let outcome = delete-Outcome t testfile made.inv (made.unique short unique) testfile-IsName in
    let there = made.found short in
    rw (e, ==_ne (i + 1) 0 (omega arith))
      (deleted-Kept s t i (delete t testfile) unique new made (rw there at outcome))

-- A file of that name is left alone.
create-exists :
    (s : Sfs) (i : ℕ) → find_inode s testfile ≡ some i → create s testfile vfs_file ≡ (minus_one, s)
unfolding create
create-exists s i e = rw (e, create)

-- With a well-formed directory in which no two files have one name, the test of the file system,
-- whether it creates and deletes its file, finds it there or finds no room for it, leaves a
-- well-formed directory of unique names, in which every name leads to what it led to before.
pub test_filesystem-Kept : (s : Sfs) → Inv s → Unique s → Kept s (test_filesystem s)
unfolding test_filesystem
test_filesystem-Kept s inv unique = elim (Option-cases (find_inode s testfile)) [
  | inl new ↦
      created-Kept s (create s testfile vfs_file) inv unique new
        (create-Outcome s testfile vfs_file inv testfile-IsName)
  | inr (i, e) ↦
      rw (create-exists s i e) record { inv = inv; unique = unique; names = λ name is. refl }
]
