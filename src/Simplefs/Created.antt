-- ===== src/Simplefs/Created.antt =====
-- The file that `sfs_create` makes.
use riscv64_embedded_os.Prelude.{
  take_all, length-take-le, ℕ, ◌+◌, ◌-◌, ◌≤◌, ◌<◌, ◌≡◌, refl, ◌≢◌, ◌⊎◌, inl, inr, ◌↔◌, ◌∙◌, ap, sym,
  List, true, false, arith, ==_ne, ==_refl, length, take, none, some, IsFirst, ℕ_discrete,
}
use riscv64_embedded_os.Prelude.Int.{ℤ, pos, minus_one}
use riscv64_embedded_os.Names.Text.{
  text, IsName, text-copy_from, copy_from-HasNul, length-copy_from,
}
use mathlib.Core.Bool.{false≢true}
use native.Mathlib.Nat.{add-zero}
use riscv64_embedded_os.Simplefs.{created, Sfs, Inode, max_files, max_filename, find_inode, create}
use riscv64_embedded_os.Simplefs.Find.{
  in_use, in_use-same, hit-same, fails, used, Inv, Unique, hit, hit_iff, find_inode-IsFirst,
  find_inode_unique, find_inode_same, used-update, used-le,
}
use riscv64_embedded_os.Simplefs.Directory.{
  with_file, is_free, Creates, exists, fresh, full, create-Creates,
}

-- A name that `find_inode` does not find is that of no inode.
pub missing :
    (s : Sfs) (name : List ℕ)
    → find_inode s name ≡ none
    → (k : ℕ) → k < max_files
    → hit s name k ≡ false
missing s name e = out (find_inode-IsFirst s name)
  where
    out :
        IsFirst (hit s name) 0 max_files (find_inode s name)
        → (k : ℕ) → k < max_files
        → hit s name k ≡ false
    out (inl (j, a, b, c, d, r)) k h = absurd (ground (arith, e))
    out (inr (d, r)) k h = d k (omega arith) h

module _ (s : Sfs) (i : ℕ) (name : List ℕ) (file_type : ℕ) where
  abbrev t : Sfs
  t = with_file s i name file_type

  this-inode : t.inodes i ≡ created i name file_type (s.inodes i)
  this-inode = rw (==_refl i)

  other-inode : (k : ℕ) → k ≢ i → t.inodes k ≡ s.inodes k
  other-inode k ne = rw (==_ne i k (λ e. ne (sym e)))

  created_in_use : in_use t i ≡ true
  created_in_use = rw (this-inode, ==_ne (i + 1) 0 (omega arith))

  counted-created : i < max_files → is_free s i ≡ true → used max_files t ≡ used max_files s + 1
  counted-created below free =
      let change =
        used-update max_files i s t below (λ k h ne. in_use-same s t k (other-inode k ne)) in
      sym (add-zero (used max_files t)) ∙ rw (created_in_use, free) at change

module _ (s : Sfs) (i : ℕ) (name : List ℕ) (file_type : ℕ) (below : i < max_files) (inv : Inv s)
    (free : is_free s i ≡ true) (is : IsName name) where
  abbrev t' : Sfs
  t' = with_file s i name file_type

  fits : (max_filename - 1) < length (s.inodes i).name
  fits = omega (arith, inv.arrays i below)

  text-created : text (t'.inodes i).name ≡ take (max_filename - 1) name
  text-created =
      rw (this-inode s i name file_type)
        (text-copy_from (max_filename - 1) name (s.inodes i).name fits is)

  with_file-Inv : Inv t'
  with_file-Inv = record {
    numbered = λ k h. elim (ℕ_discrete k i) [
      | yes e ↦ rw e (inr (rw (this-inode s i name file_type)))
      | no ne ↦ rw (other-inode s i name file_type k ne) (inv.numbered k h)
    ];
    arrays = λ k h. elim (ℕ_discrete k i) [
      | yes e ↦
          rw (e, this-inode s i name file_type)
            (length-copy_from (max_filename - 1) 0 name (s.inodes i).name ∙ inv.arrays i below)
      | no ne ↦ rw (other-inode s i name file_type k ne) (inv.arrays k h)
    ];
    named = λ k h u. elim (ℕ_discrete k i) [
      | yes e ↦
          rw (e, this-inode s i name file_type)
            (copy_from-HasNul (max_filename - 1) name (s.inodes i).name fits)
      | no ne ↦
          rw (other-inode s i name file_type k ne)
            (inv.named k h (sym (in_use-same s t' k (other-inode s i name file_type k ne)) ∙ u))
    ];
    counted =
        omega
          (arith, counted-created s i name file_type below free, used-le max_files t', inv.counted);
  }

  -- The new file has the name `other` exactly if that is the name, cut off at 27 characters.
  hit-created :
      (other : List ℕ)
      → IsName other
      → (hit t' other i ≡ true) ↔ (take (max_filename - 1) name ≡ other)
  hit-created other ok = (
    (λ h. sym text-created ∙ ((hit_iff t' other i with_file-Inv ok below).0 h).1),
    (λ e.
        (hit_iff t' other i with_file-Inv ok below).1
          (created_in_use s i name file_type, text-created ∙ e)),
  )

  free-hit : (other : List ℕ) → hit s other i ≡ false
  free-hit other = rw free

  -- At another name the directory is as before.
  with_file_others :
      (other : List ℕ)
      → IsName other
      → take (max_filename - 1) name ≢ other
      → find_inode t' other ≡ find_inode s other
  with_file_others other ok ne = find_inode_same t' s other λ k h. elim (ℕ_discrete k i) [
    | yes e ↦ rw e (fails _ (hit-created other ok) ne ∙ sym (free-hit other))
    | no out ↦ hit-same s t' other k (other-inode s i name file_type k out)
  ]

  with_file_found :
      length name < max_filename → find_inode s name ≡ none → find_inode t' name ≡ some i
  with_file_found short new =
      find_inode_unique t' name i below
        ((hit-created name is).1 (take_all (max_filename - 1) name (omega arith)))
        λ k h e. elim (ℕ_discrete k i) [
          | yes here ↦ here
          | no out ↦ absurd (
              false≢true (
                sym (missing s name new k h)
                ∙ sym (hit-same s t' name k (other-inode s i name file_type k out))
                ∙ e))
        ]

  with_file_long : max_filename ≤ length name → find_inode s name ≡ none → find_inode t' name ≡ none
  with_file_long long new =
      with_file_others name is
        (λ e. absurd (omega (arith, ap length e, length-take-le (max_filename - 1) name)))
      ∙ new

  -- A file other than the new one does not have the new one's name.
  apart :
      length name < max_filename
      → find_inode s name ≡ none
      → (k : ℕ) → k < max_files
      → k ≢ i
      → in_use t' k ≡ true
      → text (t'.inodes k).name ≢ text (t'.inodes i).name
  apart short new k h out u e =
      let same = other-inode s i name file_type k out in
      let whole : text (t'.inodes i).name ≡ name =
        text-created ∙ take_all (max_filename - 1) name (omega arith) in
      false≢true (
        sym (missing s name new k h)
        ∙ (hit_iff s name k inv is h).1 (
          sym (in_use-same s t' k same) ∙ u,
          ap (λ (v : Inode). text v.name) (sym same) ∙ e ∙ whole,
        ))

  with_file-Unique : length name < max_filename → find_inode s name ≡ none → Unique s → Unique t'
  with_file-Unique short new unique j k a b u v e = elim (ℕ_discrete j i) [
    | yes x ↦ elim (ℕ_discrete k i) [
      | yes y ↦ x ∙ sym y
      | no y ↦ absurd (apart short new k b y v (sym (rw x at e)))
    ]
    | no x ↦ elim (ℕ_discrete k i) [
      | yes y ↦ absurd (apart short new j a x u (rw y at e))
      | no y ↦
          let p = other-inode s i name file_type j x in
          let q = other-inode s i name file_type k y in
          unique j k a b (sym (in_use-same s t' j p) ∙ u) (sym (in_use-same s t' k q) ∙ v)
            (ap (λ (v : Inode). text v.name) (sym p) ∙ e ∙ ap (λ (v : Inode). text v.name) q)
    ]
  ]

-- What a new file changes, with its inode's index: names of at most 27 characters are found, the
-- other names lead to the inodes they led to, and the table stays well-formed.
pub record CreatesFile (s : Sfs) (name : List ℕ) (i : ℕ) (t : Sfs) : Type 0 where
  pub found : length name < max_filename → find_inode t name ≡ some i
  pub lost : max_filename ≤ length name → find_inode t name ≡ none
  pub others :
      (other : List ℕ)
      → IsName other
      → take (max_filename - 1) name ≢ other
      → find_inode t other ≡ find_inode s other
  pub empty : (t.inodes i).size ≡ 0
  pub inv : Inv t
  pub unique : length name < max_filename → Unique s → Unique t

abbrev pub Outcome : Sfs → List ℕ → ℤ × Sfs → Type 0
Outcome s name (n, t) =
    ((i : ℕ) × (n ≡ pos (i + 1)) × (i < max_files) × CreatesFile s name i t)
    ⊎ ((n ≡ minus_one) × (t ≡ s))

-- Under the invariant of the inode table and for a C string as the name, `sfs_create` fails with
-- -1 and changes nothing, or returns the number of an inode: then `find_inode` finds the new file
-- if its name has fewer than 28 characters and finds nothing under a longer one, every other name
-- but the one cut off at 27 characters leads to what it led to, the file is empty, the
-- invariant holds again, and names that were unique are so again.
pub create-Outcome :
    (s : Sfs) (name : List ℕ) (file_type : ℕ)
    → Inv s
    → IsName name
    → Outcome s name (create s name file_type)
create-Outcome s name file_type inv is = out (create-Creates s name file_type)
  where
    out : {n : ℤ} {t : Sfs} → Creates s name file_type n t → Outcome s name (n, t)
    out (exists i e) = inr (refl, refl)
    out (full d e) = inr (refl, refl)
    out (fresh i below free new) = inl (
      i,
      refl,
      below,
      record {
        found = λ h. with_file_found s i name file_type below inv free is h new;
        lost = λ h. with_file_long s i name file_type below inv free is h new;
        others = with_file_others s i name file_type below inv free is;
        empty = rw (this-inode s i name file_type) refl;
        inv = with_file-Inv s i name file_type below inv free is;
        unique = λ h u. with_file-Unique s i name file_type below inv free is h new u;
      },
    )
