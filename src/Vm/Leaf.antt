-- ===== src/Vm/Leaf.antt =====
-- A write to the entry of a page in its last table, and what the tables translate then.
use riscv64_embedded_os.Prelude.{
  ℕ, zero, suc, ◌+◌, ◌*◌, ◌/◌, ◌≤◌, ◌<◌, ◌≡◌, ◌≢◌, ◌∙◌, ap, sym, List, some, arith, ◌==◌, ==_ne,
  ==_refl, if◌then◌else◌, length, Bool-cases, inl, inr,
}
use riscv64_embedded_os.Mm.{Mm, Mem}
use riscv64_embedded_os.Vm.{pte_valid, pte2pa, px, slot, store, max_va}
use riscv64_embedded_os.Vm.Entry.{px-lt, same_page, px_same}
use riscv64_embedded_os.Vm.Tables.{lookup_from, lookup, Owner, same_slot, same_path}
use riscv64_embedded_os.Vm.Space.{Space, AllFree-Apart, store-FreeList}
use riscv64_embedded_os.Vm.Walk.{
  path_at, path_at-suc, length-path_at, Reach, lookup-Reach, entry_value,
}

-- Addresses with the same indices are translated alike.
lookup-px :
    (mem : Mem) (table va va' : ℕ)
    → px 2 va ≡ px 2 va'
    → px 1 va ≡ px 1 va'
    → px 0 va ≡ px 0 va'
    → lookup mem table va ≡ lookup mem table va'
unfolding lookup lookup_from
lookup-px mem table va va' a b c = rw (a, b, c)

pub lookup-page :
    (mem : Mem) (table va va' : ℕ)
    → va / 4096 ≡ va' / 4096
    → lookup mem table va ≡ lookup mem table va'
lookup-page mem table va va' e =
    let (a, b, c) = px_same va va' e in lookup-px mem table va va' a b c

module _ (s : Mm) (pagetable : ℕ) (own : Owner) (xs : List ℕ) (space : Space s pagetable own xs)
    (va z v : ℕ) (last : own z ≡ some (path_at 0 va)) (reach : Reach 2 s.mem pagetable va z) where
  abbrev pub set_entry : Mm
  set_entry = store s (slot z 0 va) v

  entry_here : set_entry.mem (slot z 0 va) ≡ v
  entry_here = rw (==_refl (slot z 0 va))

  entry_else : (b : ℕ) → slot z 0 va ≢ b → set_entry.mem b ≡ s.mem b
  entry_else b ne = rw (==_ne (slot z 0 va) b ne)

  -- the table that another table's entry would have to be
  entry_table :
      (x k : ℕ) (p : List ℕ)
      → own x ≡ some p
      → k < 512
      → slot z 0 va ≡ x + k * 8
      → (z ≡ x) × (px 0 va ≡ k)
  entry_table x k p e h same =
      same_slot z x (px 0 va) k (space.tree.aligned z (path_at 0 va) last)
        (space.tree.aligned x p e) (px-lt 0 va) h same

  -- Upper tables are not written.
  upper_entry :
      (x k : ℕ) (p : List ℕ)
      → own x ≡ some p
      → length p < 2
      → k < 512
      → set_entry.mem (x + k * 8) ≡ s.mem (x + k * 8)
  upper_entry x k p e u h = entry_else (x + k * 8) λ same.
      let z_x = (entry_table x k p e h same).0 in
      absurd (omega (arith, ap length (same_path own last (ap own z_x ∙ e))))

  pub set_entry-Space : Space set_entry pagetable own xs
  set_entry-Space = record {
    free =
        store-FreeList s z (px 0 va) v xs space.free (space.tree.aligned z (path_at 0 va) last)
          (px-lt 0 va) (AllFree-Apart own z (path_at 0 va) xs last space.unowned);
    tree = record {
      root = space.tree.root;
      null_free = space.tree.null_free;
      aligned = space.tree.aligned;
      children = λ x p i e u h valid.
          let same = upper_entry x i p e u h in
          rw same (space.tree.children x p i e u h (rw same at valid));
    };
    unowned = space.unowned;
  }

  Reach-set_entry :
      (level x : ℕ)
      → level ≤ 2
      → own x ≡ some (path_at level va)
      → Reach level s.mem x va z
      → Reach level set_entry.mem x va z
  Reach-set_entry zero x h e r = r
  Reach-set_entry (suc level) x h e (valid, r) =
      let i = px (suc level) va in
      let p = path_at (suc level) va in
      let up : length p < 2 = omega (arith, length-path_at (suc level) va h) in
      let same = upper_entry x i p e up (px-lt (suc level) va) in
      let child =
        space.tree.children x p i e up (px-lt (suc level) va) valid
        ∙ ap some (path_at-suc level va (omega arith)) in
      (
        ap pte_valid same ∙ valid,
        rw same (Reach-set_entry level (pte2pa (s.mem (x + i * 8))) (omega arith) child r),
      )

  lookup-set_entry_self : lookup set_entry.mem pagetable va ≡ entry_value v
  lookup-set_entry_self =
      unfold lookup in
      lookup-Reach 2 set_entry.mem pagetable va z
        (Reach-set_entry 2 pagetable (omega arith) space.tree.root reach)
      ∙ ap entry_value entry_here

  lookup_from-set_entry_other :
      (level x va' : ℕ)
      → level ≤ 2
      → va < max_va
      → va' < max_va
      → va / 4096 ≢ va' / 4096
      → own x ≡ some (path_at level va')
      → lookup_from level set_entry.mem x va' ≡ lookup_from level s.mem x va'
  unfolding lookup_from
  lookup_from-set_entry_other zero x va' h a b ne e = rw (
      entry_else (slot x 0 va') λ same.
        let (z_x, k) = entry_table x (px 0 va') (path_at 0 va') e (px-lt 0 va') same in
        let paths = same_path own last (ap own z_x ∙ e) in
        ne (same_page va va' a b (ground (arith, paths)) (ground (arith, paths)) k))
  lookup_from-set_entry_other (suc level) x va' h a b ne e =
      let i = px (suc level) va' in
      let p = path_at (suc level) va' in
      let up : length p < 2 = omega (arith, length-path_at (suc level) va' h) in
      rw (upper_entry x i p e up (px-lt (suc level) va'))
        (elim (Bool-cases (pte_valid (s.mem (x + i * 8)))) [
          | inr invalid ↦ rw invalid
          | inl valid ↦ rw valid (
              lookup_from-set_entry_other level (pte2pa (s.mem (x + i * 8))) va' (omega arith) a b
                ne
                (space.tree.children x p i e up (px-lt (suc level) va') valid
                  ∙ ap some (path_at-suc level va' (omega arith))))
        ])

  -- The entry that is written translates its page, and no other page is translated otherwise.
  pub lookup-set_entry :
      (va' : ℕ)
      → va < max_va
      → va' < max_va
      → lookup set_entry.mem pagetable va'
        ≡ (if va' / 4096 == va / 4096 then entry_value v else lookup s.mem pagetable va')
  lookup-set_entry va' a b = elim (Bool-cases (va' / 4096 == va / 4096)) [
    | inl same ↦
        rw same (
          lookup-page set_entry.mem pagetable va' va (ground (arith, same)) ∙ lookup-set_entry_self)
    | inr other ↦ rw other (
        unfold lookup in
        lookup_from-set_entry_other 2 pagetable va' (omega arith) a b
          (λ e. ground (arith, other, sym e)) space.tree.root)
  ]
