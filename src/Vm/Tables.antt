-- ===== src/Vm/Tables.antt =====
-- The tree of table pages, and what the tables translate.
use riscv64_embedded_os.Prelude.{
  ℕ, zero, suc, ◌+◌, ◌*◌, ◌%◌, ◌<◌, ◌≡◌, ◌≢◌, ap, true, false, List, [], ◌∷◌, Option, none, some,
  arith, if◌then◌else◌, length,
}
use riscv64_embedded_os.Mm.{Mem, null, page_size}
use riscv64_embedded_os.Mm.FreeList.{in_page}
use riscv64_embedded_os.Vm.{pte_valid, pte2pa, slot}

-- The valid entry that the tables below `table` at `level` hold for the page of `va`.
unfoldable pub lookup_from : ℕ → Mem → ℕ → ℕ → Option ℕ
lookup_from zero mem table va =
    let pte = mem (slot table 0 va) in if pte_valid pte then some pte else none
lookup_from (suc level) mem table va =
    let pte = mem (slot table (suc level) va) in
    let rest = lookup_from level mem (pte2pa pte) va in if pte_valid pte then rest else none

unfoldable pub lookup : Mem → ℕ → ℕ → Option ℕ
unfolding lookup_from
lookup mem pagetable va = lookup_from 2 mem pagetable va

-- Which pages are tables, and by which indices, the last one first, each is reached from the root.
abbrev pub Owner : Type 0
Owner = ℕ → Option (List ℕ)

-- The pages form a tree under `pagetable`: an entry of a table that is not at the last level leads
-- to the page that its index belongs to.
pub record IsTree (mem : Mem) (pagetable : ℕ) (own : Owner) : Type 0 where
  pub root : own pagetable ≡ some []
  pub null_free : own null ≡ none
  pub aligned : (x : ℕ) (p : List ℕ) → own x ≡ some p → x % page_size ≡ 0
  pub children :
      (x : ℕ) (p : List ℕ) (i : ℕ)
      → own x ≡ some p
      → length p < 2
      → i < 512
      → pte_valid (mem (x + i * 8)) ≡ true
      → own (pte2pa (mem (x + i * 8))) ≡ some (i ∷ p)

-- Entries of two pages at one address are the same entry.
pub same_slot :
    (x y i j : ℕ)
    → x % page_size ≡ 0
    → y % page_size ≡ 0
    → i < 512
    → j < 512
    → x + i * 8 ≡ y + j * 8
    → (x ≡ y) × (i ≡ j)
same_slot x y i j a b h k e = (omega arith, omega arith)

pub not_owned : (own : Owner) {x y : ℕ} {p : List ℕ} → own x ≡ some p → own y ≡ none → x ≢ y
not_owned own a b e = ground (arith, a, b, ap own e)

pub lookup-blank :
    (level : ℕ) (mem : Mem) (table va : ℕ)
    → pte_valid (mem (slot table level va)) ≡ false
    → lookup_from level mem table va ≡ none
unfolding lookup_from
lookup-blank zero mem table va e = rw e
lookup-blank (suc level) mem table va e = rw e

-- An entry of one page lies in no other.
pub apart_page :
    (y z k : ℕ)
    → z % page_size ≡ 0
    → y % page_size ≡ 0
    → z ≢ y
    → k < 512
    → in_page y (z + k * 8) ≡ false
apart_page y z k a b ne h = ground arith

pub same_path : (own : Owner) {x : ℕ} {p q : List ℕ} → own x ≡ some p → own x ≡ some q → p ≡ q
same_path own a b = ground (arith, a, b)
