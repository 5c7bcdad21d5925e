-- ===== src/Vm/Space.antt =====
-- Page tables beside the free pages: a table page that is allocated and linked in.
use riscv64_embedded_os.Prelude.{
  ℕ, ◌+◌, ◌*◌, ◌%◌, ◌<◌, ◌≡◌, refl, ◌≢◌, ◌∙◌, ap, sym, true, false, List, [], ◌∷◌, none, some,
  arith, ==_ne, ==_refl, length, inl, inr, ℕ_discrete, ◌⊎◌, bit_or,
}
use mathlib.Core.Bool.{false≢true}
use riscv64_embedded_os.Mm.{Mm, page_size, write, null, alloc_page}
use riscv64_embedded_os.Mm.FreeList.{
  in_page, FreeList, IsPage, Apart, Chain-same, AllocatesPage, alloc_page-FreeList,
}
use riscv64_embedded_os.Vm.{pte_valid, pte2pa, pa2pte, px, store, descend}
use riscv64_embedded_os.Vm.Entry.{table_pte}
use riscv64_embedded_os.Vm.Tables.{Owner, IsTree, not_owned, apart_page, lookup}
use riscv64_embedded_os.Vm.Grow.{
  with_page, Links, own'-keeps, grown-IsTree, lookup-grown, other-entry,
}

abbrev pub AllFree : Owner → List ℕ → Type 0
AllFree own [] = Unit {0}
AllFree own (y ∷ ys) = (own y ≡ none) × AllFree own ys

-- The tables form a tree, and none of them is a free page.
pub record Space (s : Mm) (pagetable : ℕ) (own : Owner) (xs : List ℕ) : Type 0 where
  pub free : FreeList s xs
  pub tree : IsTree s.mem pagetable own
  pub unowned : AllFree own xs

-- Tables may have been added: what was one still is, valid entries above the last level are as
-- they were, and so is what the tables translate.
pub record Grows (s : Mm) (pagetable : ℕ) (own : Owner) (t : Mm) : Type 0 where
  pub owner : Owner
  pub left : List ℕ
  pub space : Space t pagetable owner left
  pub owned : (x : ℕ) (p : List ℕ) → own x ≡ some p → owner x ≡ some p
  pub keep :
      (x : ℕ) (p : List ℕ) (i : ℕ)
      → own x ≡ some p
      → length p < 2
      → i < 512
      → pte_valid (s.mem (x + i * 8)) ≡ true
      → t.mem (x + i * 8) ≡ s.mem (x + i * 8)
  pub same : (va : ℕ) → lookup t.mem pagetable va ≡ lookup s.mem pagetable va

pub Grows-refl :
    {s : Mm} {pagetable : ℕ} {own : Owner} {xs : List ℕ}
    → Space s pagetable own xs
    → Grows s pagetable own s
Grows-refl {s} {pagetable} {own} {xs} space = record {
  owner = own;
  left = xs;
  space = space;
  owned = λ x p e. e;
  keep = λ x p i a b c d. refl;
  same = λ va. refl;
}

pub left_refl :
    {s : Mm} {pagetable : ℕ} {own : Owner} {xs : List ℕ} (space : Space s pagetable own xs)
    → (Grows-refl space).left ≡ xs
unfolding Grows-refl
left_refl space = refl

pub Grows-trans :
    {s t u : Mm} {pagetable : ℕ} {own : Owner} (g : Grows s pagetable own t)
    → Grows t pagetable g.owner u
    → Grows s pagetable own u
Grows-trans {s} {t} {u} {pagetable} {own} g h = record {
  owner = h.owner;
  left = h.left;
  space = h.space;
  owned = λ x p e. h.owned x p (g.owned x p e);
  keep = λ x p i a b c d.
      let first = g.keep x p i a b c d in h.keep x p i (g.owned x p a) b c (rw first d) ∙ first;
  same = λ va. h.same va ∙ g.same va;
}

module _ {s t u : Mm} {pagetable : ℕ} {own : Owner} (g : Grows s pagetable own t)
    (h : Grows t pagetable g.owner u) where
  pub owner-Grows : (Grows-trans g h).owner ≡ h.owner
  unfolding Grows-trans
  owner-Grows = refl

  pub left-Grows : (Grows-trans g h).left ≡ h.left
  unfolding Grows-trans
  left-Grows = refl

pub AllFree-Apart :
    (own : Owner) (x : ℕ) (p : List ℕ) (xs : List ℕ) → own x ≡ some p → AllFree own xs → Apart x xs
AllFree-Apart own x p [] e a = tt
AllFree-Apart own x p (y ∷ ys) e a = (not_owned own e a.0, AllFree-Apart own x p ys e a.1)

-- A write to a page that is not free leaves the list of free pages alone.
pub store-FreeList :
    (s : Mm) (x k v : ℕ) (xs : List ℕ)
    → FreeList s xs
    → x % page_size ≡ 0
    → k < 512
    → Apart x xs
    → FreeList (store s (x + k * 8) v) xs
store-FreeList s x k v xs f a h out = record {
  chain =
      Chain-same s.mem (write s.mem (x + k * 8) v) x s.free_pages xs
        (λ b e ne. rw (==_ne (x + k * 8) b (omega arith))) out f.pages f.chain;
  pages = f.pages;
  distinct = f.distinct;
  number = f.number;
  few = f.few;
}

AllFree-with_page :
    (own : Owner) (y : ℕ) (q ys : List ℕ)
    → AllFree own ys
    → Apart y ys
    → AllFree (with_page own y q) ys
AllFree-with_page own y q [] a out = tt
AllFree-with_page own y q (z ∷ zs) a out =
    (rw (==_ne y z out.0) a.0, AllFree-with_page own y q zs a.1 out.1)

module _ (s : Mm) (pagetable : ℕ) (own : Owner) (y : ℕ) (ys : List ℕ)
    (space : Space s pagetable own (y ∷ ys)) (x i : ℕ) (p : List ℕ) (parent : own x ≡ some p)
    (upper : length p < 2) (index : i < 512) (vacant : pte_valid (s.mem (x + i * 8)) ≡ false) where
  -- the memory once the page is allocated, and once it is linked in
  abbrev got : Mm
  got = (alloc_page s).1

  abbrev pub linked : Mm
  linked = store got (x + i * 8) (bit_or (pa2pte y) 1)

  allocated : AllocatesPage s (y ∷ ys) (alloc_page s)
  allocated = alloc_page-FreeList s (y ∷ ys) space.free

  page : IsPage y
  page = space.free.pages.0

  entry_outside : in_page y (x + i * 8) ≡ false
  entry_outside =
      apart_page y x i (space.tree.aligned x p parent) page.1 (not_owned own parent space.unowned.0)
        index

  inside : (k : ℕ) → k < 512 → x + i * 8 ≢ y + k * 8
  inside k h e = ground (arith, entry_outside)

  written : linked.mem (x + i * 8) ≡ bit_or (pa2pte y) 1
  written = rw (==_refl (x + i * 8))

  unwritten : (b : ℕ) → x + i * 8 ≢ b → linked.mem b ≡ got.mem b
  unwritten b ne = rw (==_ne (x + i * 8) b ne)

  packed : (pte_valid (bit_or (pa2pte y) 1) ≡ true) × (pte2pa (bit_or (pa2pte y) 1) ≡ y)
  packed = table_pte y (omega (arith, page)) page.1

  pub linked-Links : Links s.mem own x i y p linked.mem
  linked-Links = record {
    parent = parent;
    upper = upper;
    index = index;
    vacant = vacant;
    new = space.unowned.0;
    real = page.0;
    aligned = page.1;
    cleared = λ k h. unwritten (y + k * 8) (inside k h) ∙ allocated.2 k h;
    linked = ap pte_valid written ∙ packed.0;
    leads = ap pte2pa written ∙ packed.1;
    elsewhere = λ b ne out. unwritten b (λ e. ne (sym e)) ∙ allocated.3 b out;
  }

  pub linked-Space : Space linked pagetable (with_page own y (i ∷ p)) ys
  linked-Space = record {
    free =
        store-FreeList got x i (bit_or (pa2pte y) 1) ys allocated.1 (space.tree.aligned x p parent)
          index (AllFree-Apart own x p ys parent space.unowned.1);
    tree = grown-IsTree s.mem pagetable own x i y p linked.mem space.tree linked-Links;
    unowned = AllFree-with_page own y (i ∷ p) ys space.unowned.1 space.free.distinct.0;
  }

  -- A table page is linked in at a vacant entry.
  pub linked-Grows : Grows s pagetable own linked
  linked-Grows = record {
    owner = with_page own y (i ∷ p);
    left = ys;
    space = linked-Space;
    owned =
        λ z q e. own'-keeps s.mem pagetable own x i y p linked.mem space.tree linked-Links z q e;
    keep = λ z q k e u h valid.
        other-entry s.mem pagetable own x i y p linked.mem space.tree linked-Links z k q e h
          (elsewhere z k valid);
    same =
        unfold lookup in
        λ va.
          lookup-grown s.mem pagetable own x i y p linked.mem space.tree linked-Links 2 pagetable va
            [] space.tree.root (omega arith);
  }
    where
      elsewhere : (z k : ℕ) → pte_valid (s.mem (z + k * 8)) ≡ true → (z ≢ x) ⊎ (k ≢ i)
      elsewhere z k valid = elim (ℕ_discrete z x) [
        | no ne ↦ inl ne
        | yes a ↦ inr λ b. false≢true (sym vacant ∙ rw (a, b) at valid)
      ]

  pub linked-descend :
      (level va : ℕ) → px level va ≡ i → descend s level x va true ≡ (some y, linked)
  unfolding descend
  linked-descend level va e = rw (e, vacant, allocated.0, ==_ne y null page.0)

  pub linked-owner : linked-Grows.owner y ≡ some (i ∷ p)
  unfolding linked-Grows
  linked-owner = rw (==_refl y)
