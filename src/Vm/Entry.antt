-- ===== src/Vm/Entry.antt =====
-- Page table entries and addresses: what packing and unpacking them gives.
use riscv64_embedded_os.Prelude.{
  ℕ, ◌+◌, ◌-◌, ◌*◌, ◌/◌, ◌%◌, ◌^◌, ◌<◌, ◌≡◌, ◌∙◌, true, arith, bit_or-fields, bit_or-one, bit_or,
}
use riscv64_embedded_os.Vm.{pte_valid, pa2pte, pte2pa, px, make_pte, max_va}

pub make_pte_sum :
    (pa perm : ℕ) → perm < 1024 → make_pte pa perm ≡ pa / 4096 * 1024 + perm + (1 - perm % 2)
unfolding make_pte pa2pte
make_pte_sum pa perm h =
    bit_or-one (bit_or (pa / 2 ^ 12 * 2 ^ 10) perm)
    ∙ omega (arith, bit_or-fields 10 (pa / 4096) perm h)

-- An entry for a page gives the page back, is valid, and has the permissions.
pub make_pte_lem :
    (pa perm : ℕ)
    → pa < 2 ^ 64
    → perm < 1024
    → (pte_valid (make_pte pa perm) ≡ true)
      × (pte2pa (make_pte pa perm) ≡ pa / 4096 * 4096)
      × (make_pte pa perm % 1024 / 2 ≡ perm / 2)
unfolding pte2pa
make_pte_lem pa perm h k = rw (make_pte_sum pa perm k) (ground arith, omega arith, omega arith)

-- So does the entry for a table.
pub table_pte :
    (page : ℕ)
    → page < 2 ^ 64
    → page % 4096 ≡ 0
    → (pte_valid (bit_or (pa2pte page) 1) ≡ true) × (pte2pa (bit_or (pa2pte page) 1) ≡ page)
unfolding pte2pa pa2pte
table_pte page h k = rw (bit_or-one (page / 2 ^ 12 * 2 ^ 10)) (ground arith, omega arith)

pub px-lt : (level va : ℕ) → px level va < 512
unfolding px
px-lt level va = omega arith

-- The three indices are the number of the page.
pub same_page :
    (va va' : ℕ)
    → va < max_va
    → va' < max_va
    → px 2 va ≡ px 2 va'
    → px 1 va ≡ px 1 va'
    → px 0 va ≡ px 0 va'
    → va / 4096 ≡ va' / 4096
unfolding px
same_page va va' h h' a b c = omega arith

pub px_same :
    (va va' : ℕ)
    → va / 4096 ≡ va' / 4096
    → (px 2 va ≡ px 2 va') × (px 1 va ≡ px 1 va') × (px 0 va ≡ px 0 va')
unfolding px
px_same va va' e = (omega arith, omega arith, omega arith)
