-- ===== src/Vm.antt =====
-- The three-level page tables of kernel/mm/vm.h and kernel/mm/vm.c, in the memory of the page
-- allocator. A `pagetable_t` and a `pte_t *` are addresses; shifts and masks are written as the
-- quotients and remainders that they are. A call that ends in `panic` never returns. Printing is
-- left out.
pub mod Entry
pub mod Tables
pub mod Grow
pub mod Space
pub mod Walk
pub mod Leaf
pub mod Map
pub mod Mappages
pub mod Rounds
pub mod Find
pub mod Translate
pub mod Mapping
pub mod Unmap
pub mod Unmapping
pub mod Kernel
pub mod Identity
pub mod Free
pub mod Places
pub mod Freeing
use riscv64_embedded_os.Prelude.{
  ℕ, zero, suc, ◌+◌, ◌-◌, ◌*◌, ◌/◌, ◌%◌, ◌^◌, Bool, true, false, not, ◌==◌, leb, if◌then◌else◌,
  ◌||◌, ◌&&◌, Option, none, some, bit_or,
}
use riscv64_embedded_os.Prelude.Int.{ℤ, pos, minus_one}
use riscv64_embedded_os.Mm.{Mm, null, page_size, write, alloc_page, free_page}

-- a call that returns, or that ends in `panic`
pub data Call (A : Type 0) : Type 0 where
  returns : A → Call A
  panics : Call A

-- `MAXVA`
abbrev pub max_va : ℕ
max_va = 2 ^ 38

abbrev pub pte_r : ℕ
pte_r = 2

abbrev pub pte_w : ℕ
pte_w = 4

abbrev pub pte_x : ℕ
pte_x = 8

-- `PTE_VALID`
abbrev pub pte_valid : ℕ → Bool
pte_valid pte = pte % 2 == 1

-- `PA2PTE`
unfoldable pub pa2pte : ℕ → ℕ
pa2pte pa = pa / 2 ^ 12 * 2 ^ 10

-- `PTE2PA`
unfoldable pub pte2pa : ℕ → ℕ
pte2pa pte = pte / 2 ^ 10 * 2 ^ 12 % 2 ^ 64

-- `PX`
unfoldable pub px : ℕ → ℕ → ℕ
px level va = va / 2 ^ (12 + 9 * level) % 512

-- `&pagetable[PX(level, va)]`
abbrev pub slot : ℕ → ℕ → ℕ → ℕ
slot pagetable level va = pagetable + px level va * 8

abbrev pub store : Mm → ℕ → ℕ → Mm
store s a v = record s { mem = write s.mem a v }

-- a round of the loop of `walk` at `level`: the table of the next level, if there is one
unfoldable pub descend : Mm → ℕ → ℕ → ℕ → Bool → Option ℕ × Mm
descend s level pagetable va alloc =
    let pte = slot pagetable level va in
    let (page, s') = alloc_page s in
    if pte_valid (s.mem pte)
    then (some (pte2pa (s.mem pte)), s)
    else if not alloc
    then (none, s)
    else if page == null
    then (none, s')
    else (some page, store s' pte (bit_or (pa2pte page) 1))

-- the loop of `walk` from `level` down to 1, and the entry behind it
unfoldable pub walk_from : ℕ → Mm → ℕ → ℕ → Bool → Option ℕ × Mm
walk_from zero s pagetable va alloc = (some (slot pagetable 0 va), s)
walk_from (suc level) s pagetable va alloc =
    let (next, s') = descend s (suc level) pagetable va alloc in
    elim next [ none ↦ (none, s') | some table ↦ walk_from level s' table va alloc ]

-- `walk`
unfoldable pub walk : Mm → ℕ → ℕ → Bool → Option ℕ × Mm
unfolding walk_from
walk s pagetable va alloc = if leb max_va va then (none, s) else walk_from 2 s pagetable va alloc

-- the entry that `mappages` writes
unfoldable pub make_pte : ℕ → ℕ → ℕ
make_pte pa perm = bit_or (bit_or (pa2pte pa) perm) 1

-- the loop of `mappages` at `a`, with `left` rounds to go behind this one
unfoldable pub map_from : ℕ → Mm → ℕ → ℕ → ℕ → ℕ → Call ℤ × Mm
map_from zero s pagetable a pa perm =
    let (found, s') = walk s pagetable a true in
    elim found [
      | none ↦ (returns minus_one, s')
      | some pte ↦
          if pte_valid (s'.mem pte)
          then (panics, s')
          else (returns (pos 0), store s' pte (make_pte pa perm))
    ]
map_from (suc left) s pagetable a pa perm =
    let (found, s') = walk s pagetable a true in
    elim found [
      | none ↦ (returns minus_one, s')
      | some pte ↦
          let rest =
            map_from left (store s' pte (make_pte pa perm)) pagetable ((a + page_size) % 2 ^ 64)
              ((pa + page_size) % 2 ^ 64) perm in
          if pte_valid (s'.mem pte) then (panics, s') else rest
    ]

abbrev pub round_down : ℕ → ℕ
round_down va = va / page_size * page_size

-- how many rounds follow the first one, from the page of `va` to that of its last byte
abbrev pub rounds : ℕ → ℕ → ℕ
rounds va size =
    (round_down ((va + size + 2 ^ 64 - 1) % 2 ^ 64) + 2 ^ 64 - round_down va) % 2 ^ 64 / page_size

-- `mappages`
unfoldable pub mappages : Mm → ℕ → ℕ → ℕ → ℕ → ℕ → Call ℤ × Mm
unfolding map_from
mappages s pagetable va size pa perm =
    if size == 0 then (panics, s) else map_from (rounds va size) s pagetable (round_down va) pa perm

-- the loop of `unmappages` at `a`, with `left` rounds to go behind this one
unfoldable pub unmap_from : ℕ → Mm → ℕ → ℕ → Call (Unit {0}) × Mm
unmap_from zero s pagetable a = elim (walk s pagetable a false).0 [
  | none ↦ (panics, s)
  | some pte ↦ if pte_valid (s.mem pte) then (returns tt, store s pte 0) else (panics, s)
]
unmap_from (suc left) s pagetable a = elim (walk s pagetable a false).0 [
  | none ↦ (panics, s)
  | some pte ↦
      let rest = unmap_from left (store s pte 0) pagetable ((a + page_size) % 2 ^ 64) in
      if pte_valid (s.mem pte) then rest else (panics, s)
]

-- `unmappages`
unfoldable pub unmappages : Mm → ℕ → ℕ → ℕ → Call (Unit {0}) × Mm
unfolding unmap_from
unmappages s pagetable va size =
    if size == 0 then (returns tt, s) else unmap_from (rounds va size) s pagetable (round_down va)

-- `walkaddr`
unfoldable pub walkaddr : Mm → ℕ → ℕ → ℕ
walkaddr s pagetable va =
    let found : ℕ = elim (walk s pagetable va false).0 [
      | none ↦ 0
      | some pte ↦ if pte_valid (s.mem pte) then pte2pa (s.mem pte) else 0
    ] in
    if leb max_va va then 0 else found

-- `va2pa`
unfoldable pub va2pa : Mm → ℕ → ℕ → ℕ
va2pa s pagetable va = elim (walk s pagetable va false).0 [
  | none ↦ 0
  | some pte ↦ if pte_valid (s.mem pte) then (pte2pa (s.mem pte) + va % page_size) % 2 ^ 64 else 0
]
