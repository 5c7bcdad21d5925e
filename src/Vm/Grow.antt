-- ===== src/Vm/Grow.antt =====
-- A table page is added to the tree.
use riscv64_embedded_os.Prelude.{
  ℕ, zero, suc, ◌+◌, ◌*◌, ◌%◌, ◌<◌, ◌≡◌, ◌≢◌, ◌∙◌, ap, sym, true, false, List, [], ◌∷◌, none, some,
  arith, ◌==◌, ==_ne, ==_refl, if◌then◌else◌, length, Bool-cases, inl, inr, ℕ_discrete, ◌⊎◌,
}
use riscv64_embedded_os.Mm.{Mem, null, page_size}
use riscv64_embedded_os.Mm.FreeList.{in_page}
use riscv64_embedded_os.Vm.{pte_valid, pte2pa, px, slot}
use riscv64_embedded_os.Vm.Entry.{px-lt}
use riscv64_embedded_os.Vm.Tables.{
  lookup_from, Owner, IsTree, same_slot, not_owned, lookup-blank, apart_page, same_path,
}

-- the owner of the pages once the page `y` is reached by the path `q`
abbrev pub with_page : Owner → ℕ → List ℕ → Owner
with_page own y q z = if y == z then some q else own z

-- The page `y` was cleared, and its entry put at index `i` of the table `x`.
pub record Links (mem : Mem) (own : Owner) (x i y : ℕ) (p : List ℕ) (mem' : Mem) : Type 0 where
  pub parent : own x ≡ some p
  pub upper : length p < 2
  pub index : i < 512
  pub vacant : pte_valid (mem (x + i * 8)) ≡ false
  pub new : own y ≡ none
  pub real : y ≢ null
  pub aligned : y % page_size ≡ 0
  pub cleared : (k : ℕ) → k < 512 → mem' (y + k * 8) ≡ 0
  pub linked : pte_valid (mem' (x + i * 8)) ≡ true
  pub leads : pte2pa (mem' (x + i * 8)) ≡ y
  pub elsewhere : (b : ℕ) → b ≢ x + i * 8 → in_page y b ≡ false → mem' b ≡ mem b

module _ (mem : Mem) (pagetable : ℕ) (own : Owner) (x i y : ℕ) (p : List ℕ) (mem' : Mem)
    (tree : IsTree mem pagetable own) (l : Links mem own x i y p mem') where
  abbrev pub own' : Owner
  own' = with_page own y (i ∷ p)

  own'-other : (z : ℕ) → y ≢ z → own' z ≡ own z
  own'-other z ne = rw (==_ne y z ne)

  pub own'-keeps : (z : ℕ) (q : List ℕ) → own z ≡ some q → own' z ≡ some q
  own'-keeps z q e = own'-other z (λ h. not_owned own e l.new (sym h)) ∙ e

  outside : (z k : ℕ) (q : List ℕ) → own z ≡ some q → k < 512 → in_page y (z + k * 8) ≡ false
  outside z k q e h = apart_page y z k (tree.aligned z q e) l.aligned (not_owned own e l.new) h

  pub other-entry :
      (z k : ℕ) (q : List ℕ)
      → own z ≡ some q
      → k < 512
      → (z ≢ x) ⊎ (k ≢ i)
      → mem' (z + k * 8) ≡ mem (z + k * 8)
  other-entry z k q e h ne =
      l.elsewhere (z + k * 8) (λ s. elim ne [ inl a ↦ a (same s).0 | inr a ↦ a (same s).1 ])
        (outside z k q e h)
    where
      same : z + k * 8 ≡ x + i * 8 → (z ≡ x) × (k ≡ i)
      same s = same_slot z x k i (tree.aligned z q e) (tree.aligned x p l.parent) h l.index s

  child-path : (q : List ℕ) → own x ≡ some q → own' y ≡ some (i ∷ q)
  child-path q e = rw (==_refl y) (ap (λ r. some (i ∷ r)) (same_path own l.parent e))

  split : (z j : ℕ) → ((z ≡ x) × (j ≡ i)) ⊎ ((z ≢ x) ⊎ (j ≢ i))
  split z j = ground arith

  pub grown-IsTree : IsTree mem' pagetable own'
  grown-IsTree = record {
    root = own'-keeps pagetable [] tree.root;
    null_free = own'-other null l.real ∙ tree.null_free;
    aligned = λ z q e. elim (ℕ_discrete y z) [
      | yes s ↦ rw (← s) l.aligned
      | no ne ↦ tree.aligned z q (sym (own'-other z ne) ∙ e)
    ];
    children = λ z q j e u h valid. elim (ℕ_discrete y z) [
      | yes s ↦ absurd (ground (arith, rw (← s) at valid, l.cleared j h))
      | no ne ↦ old z q j (sym (own'-other z ne) ∙ e) u h valid (split z j)
    ];
  }
    where
      old :
          (z : ℕ) (q : List ℕ) (j : ℕ)
          → own z ≡ some q
          → length q < 2
          → j < 512
          → pte_valid (mem' (z + j * 8)) ≡ true
          → ((z ≡ x) × (j ≡ i)) ⊎ ((z ≢ x) ⊎ (j ≢ i))
          → own' (pte2pa (mem' (z + j * 8))) ≡ some (j ∷ q)
      old z q j e u h valid (inl (a, b)) = rw (a, b, l.leads) (child-path q (sym (ap own a) ∙ e))
      old z q j e u h valid (inr other) =
          let same = other-entry z j q e h other in
          rw same (
            own'-keeps (pte2pa (mem (z + j * 8))) (j ∷ q)
              (tree.children z q j e u h (rw same at valid)))

  -- The new page translates nothing.
  lookup-new : (level va : ℕ) → lookup_from level mem' y va ≡ none
  lookup-new level va = lookup-blank level mem' y va (rw (l.cleared (px level va) (px-lt level va)))

  lookup-linked :
      (level z va : ℕ) → z ≡ x → px (suc level) va ≡ i → lookup_from (suc level) mem' z va ≡ none
  unfolding lookup_from
  lookup-linked level z va a b = rw (a, b, l.linked, l.leads) (lookup-new level va)

  lookup-through :
      (level z va : ℕ)
      → z ≡ x
      → px (suc level) va ≡ i
      → lookup_from (suc level) mem' z va ≡ lookup_from (suc level) mem z va
  lookup-through level z va a b =
      lookup-linked level z va a b ∙ sym (lookup-blank (suc level) mem z va (rw (a, b) l.vacant))

  -- What the tables translate is as before.
  pub lookup-grown :
      (level z va : ℕ) (q : List ℕ)
      → own z ≡ some q
      → length q + level ≡ 2
      → lookup_from level mem' z va ≡ lookup_from level mem z va
  unfolding lookup_from
  lookup-grown zero z va q e d = rw (
      other-entry z (px 0 va) q e (px-lt 0 va) (
        inl λ s.
          absurd (omega (arith, l.upper, ap length (same_path own l.parent (sym (ap own s) ∙ e))))))
  lookup-grown (suc level) z va q e d = elim (split z (px (suc level) va)) [
    | inl (a, b) ↦ lookup-through level z va a b
    | inr other ↦
        rw (other-entry z (px (suc level) va) q e (px-lt (suc level) va) other)
          (elim (Bool-cases (pte_valid (mem (slot z (suc level) va)))) [
            | inr invalid ↦ rw invalid
            | inl valid ↦ rw valid (
                lookup-grown level (pte2pa (mem (slot z (suc level) va))) va (px (suc level) va ∷ q)
                  (tree.children z q (px (suc level) va) e (omega arith) (px-lt (suc level) va)
                    valid)
                  (omega arith))
          ])
  ]
