-- ===== src/Vm/Translate.antt =====
-- `walkaddr` and `va2pa`: the translation of an address.
use riscv64_embedded_os.Prelude.{
  ℕ, ◌+◌, ◌%◌, ◌^◌, ◌≡◌, refl, ◌∙◌, ap, sym, false, Option, none, some, arith, leb, if◌then◌else◌,
  Bool-cases, inl, inr,
}
use riscv64_embedded_os.Mm.{Mm, page_size}
use riscv64_embedded_os.Vm.{pte_valid, pte2pa, walk, max_va, walkaddr, va2pa}
use riscv64_embedded_os.Vm.Tables.{lookup, Owner, IsTree}
use riscv64_embedded_os.Vm.Walk.{lookup-reached, entry_value}
use riscv64_embedded_os.Vm.Find.{Finds, missing, found, walk_from-Finds}
use riscv64_embedded_os.Vm.Mappages.{walk-outside, walk-inside}

-- what the tables hold for an address, and nothing beyond `MAXVA`
abbrev pub entry_at : Mm → ℕ → ℕ → Option ℕ
entry_at s pagetable va = if leb max_va va then none else lookup s.mem pagetable va

-- the physical address of the page, or 0
abbrev pub page_of : Option ℕ → ℕ
page_of none = 0
page_of (some pte) = pte2pa pte

-- the physical address, or 0
abbrev pub address_of : ℕ → Option ℕ → ℕ
address_of va none = 0
address_of va (some pte) = (pte2pa pte + va % 4096) % 2 ^ 64

-- what is read at the place that `walk` gives
abbrev pub read_at : Mm → Option ℕ → Option ℕ
read_at s none = none
read_at s (some pte) = entry_value (s.mem pte)

pub read_at-none : (s : Mm) (pte : ℕ) → read_at s (some pte) ≡ none → pte_valid (s.mem pte) ≡ false
read_at-none s pte e = elim (Bool-cases (pte_valid (s.mem pte))) [
  | inl valid ↦ absurd (grind (arith, rw valid at e))
  | inr invalid ↦ invalid
]

Finds-entry :
    {s : Mm} {own : Owner} {pagetable va : ℕ} {r : Option ℕ × Mm}
    → Finds s own 2 pagetable va r
    → (read_at s r.0 ≡ lookup s.mem pagetable va) × (r.1 ≡ s)
unfolding lookup
Finds-entry (missing e) = (sym e, refl)
Finds-entry {s} {own} {pagetable} {va} (found z o r) =
    (sym (lookup-reached s.mem pagetable va z r), refl)

pub walk-entry :
    (s : Mm) (pagetable : ℕ) (own : Owner) (va : ℕ)
    → IsTree s.mem pagetable own
    → (read_at s (walk s pagetable va false).0 ≡ entry_at s pagetable va)
      × ((walk s pagetable va false).1 ≡ s)
walk-entry s pagetable own va tree = elim (Bool-cases (leb max_va va)) [
  | inl out ↦ rw (walk-outside s pagetable va false out, out) (refl, refl)
  | inr inside ↦
      rw (walk-inside s pagetable va false inside, inside)
        (Finds-entry (walk_from-Finds 2 s pagetable own pagetable va (omega arith) tree tree.root))
]

-- the address for what was found
abbrev found_address : Mm → ℕ → Option ℕ → ℕ
found_address s va place = elim place [
  | none ↦ 0
  | some pte ↦ if pte_valid (s.mem pte) then (pte2pa (s.mem pte) + va % page_size) % 2 ^ 64 else 0
]

abbrev found_page : Mm → Option ℕ → ℕ
found_page s place = elim place [
  | none ↦ 0
  | some pte ↦ if pte_valid (s.mem pte) then pte2pa (s.mem pte) else 0
]

found_address_lem :
    (s : Mm) (va : ℕ) (r : Option ℕ) → found_address s va r ≡ address_of va (read_at s r)
found_address_lem s va none = refl
found_address_lem s va (some pte) = elim (Bool-cases (pte_valid (s.mem pte))) [
  | inl e ↦ rw e
  | inr e ↦ rw e
]

found_page_lem : (s : Mm) (r : Option ℕ) → found_page s r ≡ page_of (read_at s r)
found_page_lem s none = refl
found_page_lem s (some pte) = elim (Bool-cases (pte_valid (s.mem pte))) [
  | inl e ↦ rw e
  | inr e ↦ rw e
]

pub va2pa-entry :
    (s : Mm) (pagetable : ℕ) (own : Owner) (va : ℕ)
    → IsTree s.mem pagetable own
    → va2pa s pagetable va ≡ address_of va (entry_at s pagetable va)
unfolding va2pa
va2pa-entry s pagetable own va tree =
    found_address_lem s va (walk s pagetable va false).0
    ∙ ap (address_of va) (walk-entry s pagetable own va tree).0

pub walkaddr-entry :
    (s : Mm) (pagetable : ℕ) (own : Owner) (va : ℕ)
    → IsTree s.mem pagetable own
    → walkaddr s pagetable va ≡ page_of (entry_at s pagetable va)
unfolding walkaddr
walkaddr-entry s pagetable own va tree = elim (Bool-cases (leb max_va va)) [
  | inl out ↦ rw out
  | inr inside ↦ rw inside (
      found_page_lem s (walk s pagetable va false).0
      ∙ ap page_of (walk-entry s pagetable own va tree).0
      ∙ rw inside)
]

-- With well-formed tables `walkaddr` gives the start of the page that the tables translate an
-- address below `MAXVA` to, and `va2pa` the address within it; both give 0 for an address that
-- the tables do not translate or that is not below `MAXVA`.
pub translations :
    (s : Mm) (pagetable : ℕ) (own : Owner) (va : ℕ)
    → IsTree s.mem pagetable own
    → (walkaddr s pagetable va ≡ page_of (entry_at s pagetable va))
      × (va2pa s pagetable va ≡ address_of va (entry_at s pagetable va))
translations s pagetable own va tree =
    (walkaddr-entry s pagetable own va tree, va2pa-entry s pagetable own va tree)
