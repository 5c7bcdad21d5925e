-- ===== src/Vm/Free.antt =====
-- `vm_free` of kernel/mm/vm.c: the tables are given back from below.
use riscv64_embedded_os.Prelude.{
  ℕ, zero, suc, ◌+◌, ◌*◌, ◌/◌, ◌%◌, Bool, not, ◌&&◌, ◌==◌, if◌then◌else◌, List, ◌∷◌, Option, none,
  some,
}
use riscv64_embedded_os.Mm.{Mm, Mem, free_page}
use riscv64_embedded_os.Vm.{pte_valid, pte2pa}

-- `pte & (PTE_R | PTE_W | PTE_X)`
unfoldable pub accessible : ℕ → Bool
accessible pte = not (pte / 2 % 8 == 0)

-- the test of `vm_free` for an entry that points to another table
unfoldable pub is_table : ℕ → Bool
is_table pte = pte_valid pte && not (accessible pte)

-- what goes on when a call has returned
abbrev pub once : Option Mm → (Mm → Option Mm) → Option Mm
once none rest = none
once (some t) rest = rest t

-- the loop of `vm_free` at index `i`, with `left` rounds to go, where calls nest `depth` deep
unfoldable pub free_entries : ℕ → ℕ → ℕ → Mm → ℕ → Option Mm
free_entries depth zero i s pagetable = some s
free_entries zero (suc left) i s pagetable =
    let rest = free_entries zero left (i + 1) s pagetable in
    if is_table (s.mem (pagetable + i * 8)) then none else rest
free_entries (suc depth) (suc left) i s pagetable =
    let child = pte2pa (s.mem (pagetable + i * 8)) in
    let rest = free_entries (suc depth) left (i + 1) s pagetable in
    let inner =
      once (free_entries depth 512 0 s child)
        λ t. free_entries (suc depth) left (i + 1) (free_page t child) pagetable in
    if is_table (s.mem (pagetable + i * 8)) then inner else rest

-- `vm_free`, where calls nest `depth` deep
unfoldable pub vm_free : ℕ → Mm → ℕ → Option Mm
unfolding free_entries
vm_free depth s pagetable =
    once (free_entries depth 512 0 s pagetable) λ t. some (free_page t pagetable)

-- The tables below `pagetable`, read off the memory as it is at first: each one comes in front of
-- those below it and of those of earlier entries.
unfoldable pub push_tables : ℕ → ℕ → ℕ → Mem → ℕ → List ℕ → List ℕ
push_tables zero left i mem pagetable ys = ys
push_tables (suc level) zero i mem pagetable ys = ys
push_tables (suc level) (suc left) i mem pagetable ys =
    let child = pte2pa (mem (pagetable + i * 8)) in
    push_tables (suc level) left (i + 1) mem pagetable (
      if is_table (mem (pagetable + i * 8))
      then child ∷ push_tables level 512 0 mem child ys
      else ys)
