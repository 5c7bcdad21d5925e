-- ===== src/Simplefs/Directory.antt =====
-- `sfs_create` and `sfs_delete` against the directory.
use riscv64_embedded_os.Prelude.{
  ℕ, zero, suc, ◌+◌, ◌-◌, ◌^◌, ◌<◌, ◌≡◌, refl, inl, inr, List, Bool, true, arith, ◌==◌, Option,
  none, some, Option-cases, first, first_below, NoneIn, IsFirst,
}
use riscv64_embedded_os.Prelude.Int.{u32, ℤ, pos, minus_one}
use riscv64_embedded_os.Simplefs.{
  Sfs, max_files, find_inode, create_from, create, created, put_inode,
}

-- the state with inode `i` given to a new file
abbrev pub with_file : Sfs → ℕ → List ℕ → ℕ → Sfs
with_file s i name file_type = record (put_inode s i (created i name file_type (s.inodes i))) {
  superblock = record s.superblock {
    num_free_inodes = u32 (s.superblock.num_free_inodes + 2 ^ 32 - 1);
  };
}

abbrev pub is_free : Sfs → ℕ → Bool
is_free s i = (s.inodes i).ino == 0

-- what `create_from` returns, given the first free inode
abbrev created_at : Sfs → List ℕ → ℕ → Option ℕ → ℤ × Sfs
created_at s name file_type none = (minus_one, s)
created_at s name file_type (some i) = (pos (i + 1), with_file s i name file_type)

create_from-first :
    (left i : ℕ) (s : Sfs) (name : List ℕ) (file_type : ℕ)
    → create_from left i s name file_type ≡ created_at s name file_type (first (is_free s) left i)
unfolding create_from first
create_from-first zero i s name file_type = refl
create_from-first (suc left) i s name file_type =
    ground (arith, create_from-first left (i + 1) s name file_type)

-- The outcomes of `sfs_create`.
pub data Creates (s : Sfs) (name : List ℕ) (file_type : ℕ) : ℤ → Sfs → Type 0 where
  exists : (i : ℕ) → find_inode s name ≡ some i → Creates s name file_type minus_one s
  fresh :
      (i : ℕ)
      → i < max_files
      → is_free s i ≡ true
      → find_inode s name ≡ none
      → Creates s name file_type (pos (i + 1)) (with_file s i name file_type)
  full :
      NoneIn (is_free s) 0 max_files
      → find_inode s name ≡ none
      → Creates s name file_type minus_one s

created_at-Creates :
    (s : Sfs) (name : List ℕ) (file_type : ℕ) (r : Option ℕ)
    → find_inode s name ≡ none
    → IsFirst (is_free s) 0 max_files r
    → let (n, t) = created_at s name file_type r in Creates s name file_type n t
created_at-Creates s name file_type r missing (inl (j, a, b, c, d, e)) = rw e (fresh j b c missing)
created_at-Creates s name file_type r missing (inr (d, e)) = rw e (full d missing)

-- `sfs_create` fails and changes nothing when `find_inode` knows the name or when no inode is
-- free; else it sets up a free inode and returns its number.
pub create-Creates :
    (s : Sfs) (name : List ℕ) (file_type : ℕ)
    → let (n, t) = create s name file_type in Creates s name file_type n t
unfolding create
create-Creates s name file_type = elim (Option-cases (find_inode s name)) [
  | inr (i, e) ↦ rw (e, create) (exists i e)
  | inl e ↦
      rw (e, create, create_from-first max_files 0 s name file_type)
        (created_at-Creates s name file_type _ e (first_below (is_free s) max_files))
]
