-- ===== src/Vm/Kernel.antt =====
-- The kernel's page table, and an empty one: `kvminit`, `kvminithart` and
-- `vm_create_user_pagetable` of kernel/mm/vm.c.
use riscv64_embedded_os.Prelude.{
  ℕ, ◌+◌, ◌-◌, ◌*◌, ◌/◌, ◌%◌, ◌^◌, ◌<◌, ◌≡◌, ◌≢◌, ap, List, [], ◌∷◌, none, some, arith, ◌==◌, ==_ne,
  ==_refl, if◌then◌else◌, bit_or, bit_or-fields, Bool-cases, inl, inr,
}
use riscv64_embedded_os.Prelude.Int.{pos, negsuc}
use riscv64_embedded_os.Mm.{Mm, null, alloc_page}
use riscv64_embedded_os.Mm.FreeList.{FreeList, Apart, AllocatesPage, alloc_page-FreeList, IsPage}
use riscv64_embedded_os.Vm.{Call, returns, panics, pte_r, pte_w, pte_x, mappages}
use riscv64_embedded_os.Vm.Entry.{px-lt}
use riscv64_embedded_os.Vm.Tables.{lookup, Owner, lookup-blank}
use riscv64_embedded_os.Vm.Space.{Space, AllFree}

-- `KERNBASE`
abbrev pub kernbase : ℕ
kernbase = 0x8000_0000

-- `PHYSTOP`
abbrev pub phystop : ℕ
phystop = kernbase + 128 * 1024 * 1024

-- `if (mappages(pagetable, va, size, va, perm) != 0) panic(…)`
unfoldable pub map_or_panic : Mm → ℕ → ℕ → ℕ → ℕ → Call (Unit {0}) × Mm
map_or_panic s pagetable va size perm =
    let (result, t) = mappages s pagetable va size va perm in
    elim result [
      | panics ↦ (panics, t)
      | returns code ↦ elim code [
        | pos n ↦ if n == 0 then (returns tt, t) else (panics, t)
        | negsuc n ↦ (panics, t)
      ]
    ]

-- the statements behind one that may not return
abbrev pub and_then : Call (Unit {0}) × Mm → (Mm → Call ℕ × Mm) → Call ℕ × Mm
and_then (returns u, s) rest = rest s
and_then (panics, s) rest = (panics, s)

-- the calls of `mappages` in `kvminit`
unfoldable pub map_devices : Mm → ℕ → Call ℕ × Mm
map_devices s pagetable =
    and_then
      (map_or_panic s pagetable kernbase (phystop - kernbase) (bit_or (bit_or pte_r pte_w) pte_x))
      λ s1. and_then (map_or_panic s1 pagetable 0x1000_0000 4096 (bit_or pte_r pte_w)) λ s2.
        and_then (map_or_panic s2 pagetable 0x0c00_0000 0x400_0000 (bit_or pte_r pte_w)) λ s3.
          and_then (map_or_panic s3 pagetable 0x0200_0000 0x1_0000 (bit_or pte_r pte_w))
            λ s4. (returns pagetable, s4)

-- `kvminit`, which returns what it leaves in `kernel_pagetable`
unfoldable pub kvminit : Mm → Call ℕ × Mm
kvminit s =
    let (pagetable, s0) = alloc_page s in
    if pagetable == null then (panics, s0) else map_devices s0 pagetable

-- the value that `kvminithart` writes to `satp`
unfoldable pub kernel_satp : ℕ → ℕ
kernel_satp pagetable = bit_or (8 * 2 ^ 60) (pagetable / 2 ^ 12)

-- `vm_create_user_pagetable`
unfoldable pub vm_create_user_pagetable : Mm → ℕ × Mm
vm_create_user_pagetable s =
    let (pagetable, t) = alloc_page s in if pagetable == null then (null, t) else (pagetable, t)

-- For a page below 2 ^ 56, what is written to `satp` selects Sv39 and gives the number of the page.
kernel_satp_lem :
    (pagetable : ℕ)
    → pagetable < 2 ^ 56
    → pagetable % 4096 ≡ 0
    → (kernel_satp pagetable / 2 ^ 60 ≡ 8) × (kernel_satp pagetable % 2 ^ 44 * 4096 ≡ pagetable)
unfolding kernel_satp
kernel_satp_lem pagetable h k =
    rw (bit_or-fields 60 8 (pagetable / 2 ^ 12) (omega arith)) (omega arith, omega arith)

abbrev pub only : ℕ → Owner
only y z = if y == z then some [] else none

only-some : (y z : ℕ) (p : List ℕ) → only y z ≡ some p → (y ≡ z) × (p ≡ [])
only-some y z p e = elim (Bool-cases (y == z)) [
  | inl h ↦ (ground (arith, h), grind (arith, rw h at e))
  | inr h ↦ absurd (grind (arith, rw h at e))
]

only-AllFree : (y : ℕ) (ys : List ℕ) → Apart y ys → AllFree (only y) ys
only-AllFree y [] a = tt
only-AllFree y (z ∷ zs) a = (rw (==_ne y z a.0), only-AllFree y zs a.1)

-- A page whose entries are all 0 is a page table that translates nothing.
pub cleared_root :
    (t : Mm) (y : ℕ) (ys : List ℕ)
    → FreeList t ys
    → IsPage y
    → Apart y ys
    → ((i : ℕ) → i < 512 → t.mem (y + i * 8) ≡ 0)
    → Space t y (only y) ys × ((va : ℕ) → lookup t.mem y va ≡ none)
unfolding lookup
cleared_root t y ys f page out cleared = (
  record {
    free = f;
    tree = record {
      root = rw (==_refl y);
      null_free = rw (==_ne y null page.0);
      aligned = λ x p e. rw (← (only-some y x p e).0) page.1;
      children = λ x p i e u h valid. absurd (
          ground (arith, valid, ap t.mem (ap (λ x. x + i * 8) (only-some y x p e).0), cleared i h));
    };
    unowned = only-AllFree y ys out;
  },
  λ va. lookup-blank 2 t.mem y va (rw (cleared _ (px-lt 2 va))),
)

-- The outcomes of a call that makes an empty page table: there is no page, or it translates nothing.
pub data Empty (s : Mm) : ℕ × Mm → Type 0 where
  no_page : FreeList s [] → Empty s (null, s)
  empty :
      {pagetable : ℕ} {t : Mm} (own : Owner) (left : List ℕ)
      → pagetable ≢ null
      → Space t pagetable own left
      → ((va : ℕ) → lookup t.mem pagetable va ≡ none)
      → Empty s (pagetable, t)

allocated-Empty :
    (s : Mm) (xs : List ℕ) (r : ℕ × Mm) → FreeList s xs → AllocatesPage s xs r → Empty s r
allocated-Empty s [] r f e = rw e (no_page f)
allocated-Empty s (y ∷ ys) (pagetable, t) f (e, free, cleared, same, heap) =
    let (space, nothing) = cleared_root t y ys free f.pages.0 f.distinct.0 cleared in
    rw e (empty (only y) ys f.pages.0.0 space nothing)

pub alloc_page-Empty : (s : Mm) (xs : List ℕ) → FreeList s xs → Empty s (alloc_page s)
alloc_page-Empty s xs f = allocated-Empty s xs (alloc_page s) f (alloc_page-FreeList s xs f)

Empty-tested : {s : Mm} {r : ℕ × Mm} → Empty s r → Empty s (if r.0 == null then (null, r.1) else r)
Empty-tested (no_page f) = no_page f
Empty-tested (empty {pagetable} {t} own left some_page space nothing) =
    rw (==_ne pagetable null some_page) (empty own left some_page space nothing)

-- With a well-formed list of free pages, `vm_create_user_pagetable` gives a page table that
-- translates nothing, or NULL, with nothing changed, when no page is free.
pub vm_create_user_pagetable-Empty :
    (s : Mm) (xs : List ℕ) → FreeList s xs → Empty s (vm_create_user_pagetable s)
unfolding vm_create_user_pagetable
vm_create_user_pagetable-Empty s xs f = Empty-tested (alloc_page-Empty s xs f)
