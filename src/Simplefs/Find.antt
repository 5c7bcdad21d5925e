-- ===== src/Simplefs/Find.antt =====
-- The directory that the inode table stands for: a name leads to the inode that `find_inode` finds.
use riscv64_embedded_os.Prelude.{
  ℕ, zero, suc, ◌+◌, ◌≤◌, ◌<◌, ◌≡◌, refl, ◌≢◌, ◌⊎◌, inl, inr, ◌↔◌, ◌∙◌, ap, sym, List, Bool, true,
  false, not, ◌&&◌, arith, ◌==◌, if◌then◌else◌, length, none, some, first, first_below, first-same,
  Bool-cases, IsFirst,
}
use riscv64_embedded_os.Names.{match_from}
use riscv64_embedded_os.Names.Text.{text, HasNul, IsName, match_from_iff}
use riscv64_embedded_os.Simplefs.{Sfs, Inode, max_files, max_filename, find_from, find_inode}

abbrev pub in_use : Sfs → ℕ → Bool
in_use s i = not ((s.inodes i).ino == 0)

-- how many of the first `n` inodes are in use
abbrev pub used : ℕ → Sfs → ℕ
used zero s = 0
used (suc n) s = (if in_use s n then 1 else 0) + used n s

-- Inode `i` has number `i + 1` or is free, holds a C string as its name, and the superblock counts
-- the free ones.
pub record Inv (s : Sfs) : Type 0 where
  pub numbered : (i : ℕ) → i < max_files → ((s.inodes i).ino ≡ 0) ⊎ ((s.inodes i).ino ≡ i + 1)
  pub arrays : (i : ℕ) → i < max_files → length (s.inodes i).name ≡ max_filename
  pub named : (i : ℕ) → i < max_files → in_use s i ≡ true → HasNul (s.inodes i).name
  pub counted : s.superblock.num_free_inodes + used max_files s ≡ max_files

-- No two files have one name.
abbrev pub Unique : Sfs → Type 0
Unique s =
    (i j : ℕ)
    → i < max_files
    → j < max_files
    → in_use s i ≡ true
    → in_use s j ≡ true
    → text (s.inodes i).name ≡ text (s.inodes j).name
    → i ≡ j

abbrev pub hit : Sfs → List ℕ → ℕ → Bool
hit s name i = in_use s i && match_from max_filename 0 (s.inodes i).name name

find_from-first :
    (left i : ℕ) (s : Sfs) (name : List ℕ) → find_from left i s name ≡ first (hit s name) left i
unfolding find_from first
find_from-first zero i s name = refl
find_from-first (suc left) i s name = rw (find_from-first left (i + 1) s name)

pub find_inode-first :
    (s : Sfs) (name : List ℕ) → find_inode s name ≡ first (hit s name) max_files 0
unfolding find_inode
find_inode-first s name = find_from-first max_files 0 s name

pub find_inode-IsFirst :
    (s : Sfs) (name : List ℕ) → IsFirst (hit s name) 0 max_files (find_inode s name)
find_inode-IsFirst s name = rw (find_inode-first s name) (first_below (hit s name) max_files)

pub hit_iff :
    (s : Sfs) (name : List ℕ) (i : ℕ)
    → Inv s
    → IsName name
    → i < max_files
    → (hit s name i ≡ true) ↔ ((in_use s i ≡ true) × (text (s.inodes i).name ≡ name))
hit_iff s name i inv is h = (there, back)
  where
    same :
        in_use s i ≡ true
        → (match_from max_filename 0 (s.inodes i).name name ≡ true)
          ↔ (text (s.inodes i).name ≡ name)
    same u =
        match_from_iff max_filename (s.inodes i).name name (inv.named i h u)
          (omega (arith, inv.arrays i h)) is

    there : hit s name i ≡ true → (in_use s i ≡ true) × (text (s.inodes i).name ≡ name)
    there e = let u : in_use s i ≡ true = ground arith in (u, (same u).0 (ground arith))

    back : (in_use s i ≡ true) × (text (s.inodes i).name ≡ name) → hit s name i ≡ true
    back (u, e) = rw (u, (same u).1 e)

-- A file that is alone with its name is the one that `find_inode` finds.
pub find_inode_unique :
    (s : Sfs) (name : List ℕ) (i : ℕ)
    → i < max_files
    → hit s name i ≡ true
    → ((k : ℕ) → k < max_files → hit s name k ≡ true → k ≡ i)
    → find_inode s name ≡ some i
find_inode_unique s name i h e alone = found (find_inode-IsFirst s name)
  where
    found : IsFirst (hit s name) 0 max_files (find_inode s name) → find_inode s name ≡ some i
    found (inl (j, a, b, c, d, r)) = r ∙ ap some (alone j b c)
    found (inr (d, r)) = absurd (ground (arith, d i (omega arith) h))

pub find_inode_missing :
    (s : Sfs) (name : List ℕ)
    → ((k : ℕ) → k < max_files → hit s name k ≡ false)
    → find_inode s name ≡ none
find_inode_missing s name out = missing (find_inode-IsFirst s name)
  where
    missing : IsFirst (hit s name) 0 max_files (find_inode s name) → find_inode s name ≡ none
    missing (inl (j, a, b, c, d, r)) = absurd (ground (arith, out j b))
    missing (inr (d, r)) = r

-- Two tables in which the same inodes have the name.
pub find_inode_same :
    (s t : Sfs) (name : List ℕ)
    → ((k : ℕ) → k < max_files → hit s name k ≡ hit t name k)
    → find_inode s name ≡ find_inode t name
find_inode_same s t name same =
    find_inode-first s name
    ∙ first-same (hit s name) (hit t name) max_files 0 max_files refl (λ k a b. same k b)
    ∙ sym (find_inode-first t name)

pub in_use-same : (s t : Sfs) (k : ℕ) → t.inodes k ≡ s.inodes k → in_use t k ≡ in_use s k
in_use-same s t k e = ap (λ (v : Inode). not (v.ino == 0)) e

pub hit-same :
    (s t : Sfs) (name : List ℕ) (k : ℕ) → t.inodes k ≡ s.inodes k → hit t name k ≡ hit s name k
hit-same s t name k e =
    ap (λ (v : Inode). not (v.ino == 0) && match_from max_filename 0 v.name name) e

-- From an equivalence, a test that fails.
pub fails : {P : Type 0} (b : Bool) → ((b ≡ true) ↔ P) → ¬ P → b ≡ false
fails b e n = elim (Bool-cases b) [ inl h ↦ absurd (n (e.0 h)) | inr h ↦ h ]

used-same : (n : ℕ) (s t : Sfs) → ((k : ℕ) → k < n → in_use t k ≡ in_use s k) → used n t ≡ used n s
used-same zero s t same = refl
used-same (suc n) s t same =
    rw (same n (omega arith), used-same n s t (λ k h. same k (omega arith))) refl

-- One inode is taken or freed.
pub used-update :
    (n i : ℕ) (s t : Sfs)
    → i < n
    → ((k : ℕ) → k < n → k ≢ i → in_use t k ≡ in_use s k)
    → used n t + (if in_use s i then 1 else 0) ≡ used n s + (if in_use t i then 1 else 0)
used-update zero i s t h same = absurd (omega arith)
used-update (suc n) i s t h same = elim (Bool-cases (i == n)) [
  | inl e ↦
      let last : i ≡ n = ground arith in
      rw last (omega (arith, used-same n s t (λ k b. same k (omega arith) (omega arith))))
  | inr ne ↦
      rw (same n (omega arith) (ground arith))
        (omega (arith, used-update n i s t (ground arith) (λ k b. same k (omega arith))))
]

pub used-le : (n : ℕ) (s : Sfs) → used n s ≤ n
used-le zero s = omega arith
used-le (suc n) s = ground (arith, used-le n s)
