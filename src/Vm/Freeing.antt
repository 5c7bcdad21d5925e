-- ===== src/Vm/Freeing.antt =====
-- What `vm_free` of kernel/mm/vm.c gives back, and that it ends.
use riscv64_embedded_os.Prelude.{
  ℕ, zero, suc, ◌+◌, ◌*◌, ◌^◌, ◌≤◌, ◌<◌, ◌≡◌, refl, ◌≢◌, Option, ◌∙◌, ap, sym, subst, true, List,
  [], ◌∷◌, none, some, arith, length, Bool-cases, inl, inr,
}
use riscv64_embedded_os.Mm.{Mm, Mem, free_page}
use riscv64_embedded_os.Mm.FreeList.{FreeList, IsPage, Apart, free_page-FreeList}
use riscv64_embedded_os.Vm.{pte_valid, pte2pa}
use riscv64_embedded_os.Vm.Tables.{Owner, IsTree, not_owned, same_path}
use riscv64_embedded_os.Vm.Space.{Space, AllFree, AllFree-Apart}
use riscv64_embedded_os.Vm.Places.{
  span, start, place, start-child, place-child, loop_place, last_place, mul_next,
  free_entries-other, free_entries-table, push_tables-other, push_tables-table, is_table-valid,
  accessible_plain, pte2pa-lt,
}
use riscv64_embedded_os.Vm.Free.{accessible, is_table, once, free_entries, vm_free, push_tables}

-- Every valid entry of a table of the last level lets its page be read, written or executed.
abbrev pub Leaves : Mem → Owner → Type 0
Leaves mem own =
    (z : ℕ) (q : List ℕ) (i : ℕ)
    → own z ≡ some q
    → length q ≡ 2
    → i < 512
    → pte_valid (mem (z + i * 8)) ≡ true
    → accessible (mem (z + i * 8)) ≡ true

-- `vm_free` returns: the free pages are `ys` then, and no word but the first ones of tables changed.
pub data Frees (mem : Mem) (own : Owner) (ys : List ℕ) : Option Mm → Type 0 where
  frees :
      {t : Mm}
      → FreeList t ys
      → ((a : ℕ) → own a ≡ none → t.mem a ≡ mem a)
      → Frees mem own ys (some t)

module _ (mem : Mem) (pagetable : ℕ) (own : Owner) (n : ℕ) (tree : IsTree mem pagetable own)
    (leaves : Leaves mem own) (few : n + 262657 < 2 ^ 64) where
  -- The tables before the place `c` are done: those from there on are as they were, and are not
  -- among the free pages `ys`. Only first words of tables have been written.
  record Phase (c : ℕ) (s : Mm) (ys : List ℕ) : Type 0 where
    free : FreeList s ys
    number : length ys ≤ n + c
    intact :
        (z : ℕ) (q : List ℕ) (k : ℕ)
        → own z ≡ some q
        → c ≤ place q
        → k < 512
        → s.mem (z + k * 8) ≡ mem (z + k * 8)
    out : (z : ℕ) (q : List ℕ) → own z ≡ some q → c ≤ place q → Apart z ys
    others : (a : ℕ) → own a ≡ none → s.mem a ≡ mem a

  table-IsPage : (x : ℕ) (p : List ℕ) → own x ≡ some p → x < 2 ^ 64 → IsPage x
  table-IsPage x p e h =
      let a = tree.aligned x p e in (not_owned own e tree.null_free, a, omega (arith, a, h))

  Phase-later : (c d : ℕ) (s : Mm) (ys : List ℕ) → c ≤ d → Phase c s ys → Phase d s ys
  Phase-later c d s ys h f = record {
    free = f.free;
    number = omega (arith, f.number);
    intact = λ z q k e l. f.intact z q k e (omega arith);
    out = λ z q e l. f.out z q e (omega arith);
    others = f.others;
  }

  -- A table is given back.
  free_page-Phase :
      (s : Mm) (ys : List ℕ) (x : ℕ) (p : List ℕ)
      → own x ≡ some p
      → x < 2 ^ 64
      → place p < 262657
      → Phase (place p) s ys
      → Phase (place p + 1) (free_page s x) (x ∷ ys)
  free_page-Phase s ys x p e h last f =
      let r =
        free_page-FreeList s x ys f.free (table-IsPage x p e h) (f.out x p e (omega arith))
          (omega (arith, f.number)) in
      record {
        free = r.0;
        number = omega (arith, f.number);
        intact = λ z q k o l b.
            r.1 (z + k * 8) (λ same. other z q o l (table_entry z q k o b same))
            ∙ f.intact z q k o (omega arith) b;
        out = λ z q o l. (other z q o l, f.out z q o (omega arith));
        others = λ a o. r.1 a (λ same. not_owned own e o (sym same)) ∙ f.others a o;
      }
    where
      other : (z : ℕ) (q : List ℕ) → own z ≡ some q → place p + 1 ≤ place q → z ≢ x
      other z q o l same =
          absurd (omega (arith, l, ap place (same_path own (ap own (sym same) ∙ o) e)))

      table_entry : (z : ℕ) (q : List ℕ) (k : ℕ) → own z ≡ some q → k < 512 → z + k * 8 ≡ x → z ≡ x
      table_entry z q k o b same = omega (arith, tree.aligned z q o, tree.aligned x p e)

  -- A call returns, and the tables before the place `c` are done then.
  abbrev Ends : ℕ → List ℕ → Option Mm → Type 0
  Ends c ys none = ⊥
  Ends c ys (some t) = Phase c t ys

  once-Ends :
      (c d : ℕ) (ys zs : List ℕ) (r : Option Mm) (rest : Mm → Option Mm)
      → Ends c ys r
      → ((t : Mm) → Phase c t ys → Ends d zs (rest t))
      → Ends d zs (once r rest)
  once-Ends c d ys zs none rest e go = absurd e
  once-Ends c d ys zs (some t) rest e go = go t e

  -- how many places an entry of a table at this level takes
  abbrev width : ℕ → ℕ
  width zero = 0
  width (suc level) = span level

  none_below :
      (depth left i : ℕ) (s : Mm) (x : ℕ) (p : List ℕ) (ys : List ℕ)
      → i + left ≡ 512
      → own x ≡ some p
      → length p ≡ 2
      → Phase (place p) s ys
      → free_entries depth left i s x ≡ some s
  none_below zero zero i s x p ys n e l f = unfold free_entries in refl
  none_below (suc depth) zero i s x p ys n e l f = unfold free_entries in refl
  none_below depth (suc left) i s x p ys n e l f =
      let h : i < 512 = omega (arith, n) in
      let same = f.intact x p i e (omega arith) h in
      free_entries-other depth left i s x
        (ap is_table same ∙ accessible_plain (mem (x + i * 8)) (leaves x p i e l h))
      ∙ none_below depth left (i + 1) s x p ys (omega (arith, n)) e l f

  -- The loop returns, and has given back the tables below the rest of the entries.
  free_entries-Ends :
      (level depth left i : ℕ) (s : Mm) (ys : List ℕ) (x : ℕ) (p : List ℕ)
      → level ≤ depth
      → i + left ≡ 512
      → own x ≡ some p
      → length p + level ≡ 2
      → place p < 262657
      → Phase (start p + i * width level) s ys
      → Ends (place p) (push_tables level left i mem x ys) (free_entries depth left i s x)
  free_entries-Ends zero depth left i s ys x p d n e l b f =
      let done = subst (λ c. Phase c s ys) (last_place p (omega (arith, l)) i) f in
      unfold push_tables in
      subst (Ends (place p) ys) (sym (none_below depth left i s x p ys n e (omega (arith, l)) done))
        done
  free_entries-Ends (suc level) zero left i s ys x p d n e l b f = absurd (omega arith)
  free_entries-Ends (suc level) (suc depth) zero i s ys x p d n e l b f =
      unfold free_entries push_tables in
      Phase-later (start p + i * span level) (place p) s ys
        (loop_place level i p l (omega (arith, n))) f
  free_entries-Ends (suc level) (suc depth) (suc left) i s ys x p d n e l b f =
      elim (Bool-cases (is_table (mem (x + i * 8)))) [
        | inr plain ↦
            rw
              (
                free_entries-other (suc depth) left i s x (ap is_table here ∙ plain),
                push_tables-other level left i mem x ys plain,
              )
              (free_entries-Ends (suc level) (suc depth) left (i + 1) s ys x p d (omega (arith, n))
                e l b
                (Phase-later (start p + i * span level) (start p + (i + 1) * span level) s ys
                  (omega (arith, next)) f))
        | inl table ↦
            rw
              (
                free_entries-table depth left i s x y (ap is_table here ∙ table) (ap pte2pa here),
                push_tables-table level left i mem x y ys table refl,
              )
              (once-Ends (place (i ∷ p)) (place p) below
                (push_tables (suc level) left (i + 1) mem x (y ∷ below))
                (free_entries depth 512 0 s y)
                (λ t. free_entries (suc depth) left (i + 1) (free_page t y) x)
                (free_entries-Ends level depth 512 0 s ys y (i ∷ p) (omega arith) refl (child table)
                  (omega (arith, l)) (omega (arith, here_place, b)) first)
                λ t g.
                  free_entries-Ends (suc level) (suc depth) left (i + 1) (free_page t y) (y ∷ below)
                    x p d (omega (arith, n)) e l b
                    (subst (λ c. Phase c (free_page t y) (y ∷ below)) (place-child level i p l)
                      (free_page-Phase t below y (i ∷ p) (child table) (pte2pa-lt _)
                        (omega (arith, here_place, b)) g)))
      ]
    where
      h : i < 512
      h = omega (arith, n)

      here : s.mem (x + i * 8) ≡ mem (x + i * 8)
      here = f.intact x p i e (loop_place level i p l (omega (arith, n))) h

      y : ℕ
      y = pte2pa (mem (x + i * 8))

      below : List ℕ
      below = push_tables level 512 0 mem y ys

      child : is_table (mem (x + i * 8)) ≡ true → own y ≡ some (i ∷ p)
      child table =
          tree.children x p i e (omega (arith, l)) h (is_table-valid (mem (x + i * 8)) table)

      next : (i + 1) * span level ≡ i * span level + span level
      next = mul_next i (span level)

      here_place : place (i ∷ p) + 1 ≤ place p
      here_place =
          omega (arith, place-child level i p l, loop_place level (i + 1) p l (omega (arith, h)))

      first : Phase (start (i ∷ p) + 0 * width level) s ys
      first = subst (λ c. Phase c s ys) (sym (start-child level i p l) ∙ omega arith) f

  all_Phase :
      (s : Mm) (ys : List ℕ)
      → s.mem ≡ mem
      → FreeList s ys
      → AllFree own ys
      → length ys ≤ n
      → Phase 0 s ys
  all_Phase s ys same free unowned h = record {
    free = free;
    number = omega (arith, h);
    intact = λ z q k e l b. ap (λ (m : Mem). m (z + k * 8)) same;
    out = λ z q e l. AllFree-Apart own z q ys e unowned;
    others = λ a e. ap (λ (m : Mem). m a) same;
  }

  Ends-Frees : (c : ℕ) (ys : List ℕ) (r : Option Mm) → Ends c ys r → Frees mem own ys r
  Ends-Frees c ys none e = absurd e
  Ends-Frees c ys (some t) e = frees e.free e.others

  root_Frees :
      (depth : ℕ) (s : Mm) (xs : List ℕ)
      → 2 ≤ depth
      → pagetable < 2 ^ 64
      → Phase 0 s xs
      → Frees mem own (pagetable ∷ push_tables 2 512 0 mem pagetable xs) (vm_free depth s pagetable)
  unfolding vm_free
  root_Frees depth s xs d h f =
      let below = push_tables 2 512 0 mem pagetable xs in
      let rest : Mm → Option Mm = λ t. some (free_page t pagetable) in
      let loop = free_entries depth 512 0 s pagetable in
      Ends-Frees 262657 (pagetable ∷ below) (once loop rest) (
        once-Ends 262656 262657 below (pagetable ∷ below) loop rest
          (free_entries-Ends 2 depth 512 0 s xs pagetable [] d refl tree.root refl (omega arith) f)
          λ t g. free_page-Phase t below pagetable [] tree.root h (omega arith) g)

-- For page tables that form a tree beside the well-formed list of free pages, and with no entry of
-- a last table that is valid but neither readable, writable nor executable, `vm_free` returns, its
-- calls nested two deep at most below the first. It has given back the root and each table that
-- the entries lead to, every one exactly once and behind the tables below it, as the memory before
-- the call has them, and no word is written but the first words of tables. The free pages are fewer than 2 ^ 64 by as many tables as there can be.
pub vm_free-Frees :
    (depth : ℕ) (s : Mm) (pagetable : ℕ) (own : Owner) (xs : List ℕ)
    → 2 ≤ depth
    → pagetable < 2 ^ 64
    → Space s pagetable own xs
    → Leaves s.mem own
    → length xs + 262657 < 2 ^ 64
    → Frees s.mem own
        (pagetable ∷ push_tables 2 512 0 s.mem pagetable xs)
        (vm_free depth s pagetable)
vm_free-Frees depth s pagetable own xs d h space leaves few =
    root_Frees s.mem pagetable own (length xs) space.tree leaves few depth s xs d h (
      all_Phase s.mem pagetable own (length xs) space.tree leaves few s xs refl space.free
        space.unowned (omega arith))
