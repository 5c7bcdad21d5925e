-- ===== src/Simplefs/Deleted.antt =====
-- `sfs_delete` against the directory.
use riscv64_embedded_os.Prelude.{
  ℕ, ◌+◌, ◌<◌, ◌≡◌, refl, ◌≢◌, inl, inr, ◌∙◌, ap, sym, List, true, false, arith, ==_ne, ==_refl,
  Option, none, some, Option-cases, IsFirst, ℕ_discrete,
}
use riscv64_embedded_os.Prelude.Int.{u32, ℤ, pos, minus_one}
use riscv64_embedded_os.Names.Text.{text, IsName}
use native.Mathlib.Nat.{add-zero}
use mathlib.Core.Bool.{false≢true}
use riscv64_embedded_os.Simplefs.{
  Sfs, Inode, max_files, find_inode, delete, put_inode, release_blocks,
}
use riscv64_embedded_os.Simplefs.Find.{
  in_use, in_use-same, hit-same, used, Inv, Unique, hit, hit_iff, find_inode-IsFirst,
  find_inode_missing, find_inode_same, used-update, used-le, fails,
}

-- the state with inode `i` given back
abbrev pub without : Sfs → ℕ → Sfs
without s i = record (put_inode s i (record (s.inodes i) { ino = 0; file_type = 0; size = 0 })) {
  superblock = record s.superblock {
    num_free_blocks = release_blocks (s.inodes i).blocks s.superblock.num_free_blocks;
    num_free_inodes = u32 (s.superblock.num_free_inodes + 1);
  };
}

module _ (s : Sfs) (i : ℕ) where
  abbrev t : Sfs
  t = without s i

  this-free : (t.inodes i).ino ≡ 0
  this-free = rw (==_refl i)

  this-name : (t.inodes i).name ≡ (s.inodes i).name
  this-name = rw (==_refl i)

  other-inode : (k : ℕ) → k ≢ i → t.inodes k ≡ s.inodes k
  other-inode k ne = rw (==_ne i k (λ e. ne (sym e)))

  gone : in_use t i ≡ false
  gone = rw this-free

  counted-deleted : i < max_files → in_use s i ≡ true → used max_files t + 1 ≡ used max_files s
  counted-deleted below taken =
      let change =
        used-update max_files i s t below (λ k h ne. in_use-same s t k (other-inode k ne)) in
      rw (gone, taken) at change ∙ add-zero (used max_files s)

  without-Inv : i < max_files → in_use s i ≡ true → Inv s → Inv t
  without-Inv below taken inv = record {
    numbered = λ k h. elim (ℕ_discrete k i) [
      | yes e ↦ rw e (inl this-free)
      | no ne ↦ rw (other-inode k ne) (inv.numbered k h)
    ];
    arrays = λ k h. elim (ℕ_discrete k i) [
      | yes e ↦ rw (e, this-name) (inv.arrays i below)
      | no ne ↦ rw (other-inode k ne) (inv.arrays k h)
    ];
    named = λ k h u. elim (ℕ_discrete k i) [
      | yes e ↦ rw (e, this-name) (inv.named i below taken)
      | no ne ↦
          rw (other-inode k ne) (inv.named k h (sym (in_use-same s t k (other-inode k ne)) ∙ u))
    ];
    counted = omega (arith, counted-deleted below taken, used-le max_files s, inv.counted);
  }

  hit-deleted : (other : List ℕ) → hit t other i ≡ false
  hit-deleted other = rw gone

  -- A name that is not that of inode `i` leads to what it led to.
  without_others :
      (other : List ℕ) → hit s other i ≡ false → find_inode t other ≡ find_inode s other
  without_others other ne = find_inode_same t s other λ k h. elim (ℕ_discrete k i) [
    | yes e ↦ rw e (hit-deleted other ∙ sym ne)
    | no out ↦ hit-same s t other k (other-inode k out)
  ]

  without_name :
      (name : List ℕ)
      → ((k : ℕ) → k < max_files → hit s name k ≡ true → k ≡ i)
      → find_inode t name ≡ none
  without_name name alone = find_inode_missing t name λ k h. elim (ℕ_discrete k i) [
    | yes e ↦ rw e (hit-deleted name)
    | no out ↦
        hit-same s t name k (other-inode k out)
        ∙ fails (hit s name k) ((λ e. e), (λ e. e)) (λ e. out (alone k h e))
  ]

-- What `sfs_delete` does to the directory when it finds the file at inode `i`.
pub record DeletesFile (s : Sfs) (name : List ℕ) (i : ℕ) (t : Sfs) : Type 0 where
  pub free : in_use t i ≡ false
  pub gone_name : find_inode t name ≡ none
  pub others :
      (other : List ℕ) → IsName other → other ≢ name → find_inode t other ≡ find_inode s other
  pub counted : t.superblock.num_free_inodes ≡ s.superblock.num_free_inodes + 1
  pub inv : Inv t
  pub unique : Unique t

abbrev pub Outcome : Sfs → List ℕ → Option ℕ → ℤ × Sfs → Type 0
Outcome s name none (n, t) = (n ≡ minus_one) × (t ≡ s)
Outcome s name (some i) (n, t) = (n ≡ pos 0) × DeletesFile s name i t

found_at :
    (s : Sfs) (name : List ℕ) (i : ℕ)
    → find_inode s name ≡ some i
    → (i < max_files) × (hit s name i ≡ true)
found_at s name i e = out (find_inode-IsFirst s name)
  where
    out :
        IsFirst (hit s name) 0 max_files (find_inode s name)
        → (i < max_files) × (hit s name i ≡ true)
    out (inl (j, a, b, c, d, r)) =
        let same : j ≡ i = ground (arith, sym r ∙ e) in (rw same at b, rw same at c)
    out (inr (d, r)) = absurd (ground (arith, sym r ∙ e))

without-Unique : (s : Sfs) (i : ℕ) → Unique s → Unique (without s i)
without-Unique s i unique j k a b u v e = elim (ℕ_discrete j i) [
  | yes x ↦ absurd (false≢true (sym (gone s i) ∙ rw x at u))
  | no x ↦ elim (ℕ_discrete k i) [
    | yes y ↦ absurd (false≢true (sym (gone s i) ∙ rw y at v))
    | no y ↦
        let p = other-inode s i j x in
        let q = other-inode s i k y in
        unique j k a b (sym (in_use-same s (without s i) j p) ∙ u)
          (sym (in_use-same s (without s i) k q) ∙ v)
          (ap (λ (v : Inode). text v.name) (sym p) ∙ e ∙ ap (λ (v : Inode). text v.name) q)
  ]
]

without-DeletesFile :
    (s : Sfs) (name : List ℕ) (i : ℕ)
    → Inv s
    → Unique s
    → IsName name
    → find_inode s name ≡ some i
    → DeletesFile s name i (without s i)
without-DeletesFile s name i inv unique is e =
    let (below, here) = found_at s name i e in
    let (taken, called) = (hit_iff s name i inv is below).0 here in
    record {
      free = gone s i;
      gone_name = without_name s i name λ k h there.
          let (u, same) = (hit_iff s name k inv is h).0 there in
          unique k i h below u taken (same ∙ sym called);
      others = λ other ok ne. without_others s i other (
          fails (hit s other i) ((λ h. h), (λ h. h))
            λ h. ne (sym ((hit_iff s other i inv ok below).0 h).1 ∙ called));
      counted = omega (arith, counted-deleted s i below taken, used-le max_files s, inv.counted);
      inv = without-Inv s i below taken inv;
      unique = without-Unique s i unique;
    }

-- Under the invariant of the inode table, with no two files of one name and for a C string as the
-- name: `sfs_delete` returns -1 and changes nothing when `find_inode` does not know the name; else
-- it returns 0, the inode is free, the name leads nowhere, every other name leads to what it led
-- to, one more inode counts as free, and the invariant and the uniqueness of names hold again.
pub delete-Outcome :
    (s : Sfs) (name : List ℕ)
    → Inv s
    → Unique s
    → IsName name
    → Outcome s name (find_inode s name) (delete s name)
unfolding delete
delete-Outcome s name inv unique is = elim (Option-cases (find_inode s name)) [
  | inl e ↦ rw (e, delete) (refl, refl)
  | inr (i, e) ↦ rw (e, delete) (refl, without-DeletesFile s name i inv unique is e)
]
