-- ===== src/Tests/Paging.antt =====
-- Page tables at concrete inputs.
use riscv64_embedded_os.Prelude.{
  Bool, true, none, some, ◌+◌, ◌-◌, ◌*◌, ◌/◌, ◌%◌, ◌^◌, ◌≡◌, refl, ap, suc, [], ◌∷◌, false, arith,
  ◌==◌, if◌then◌else◌,
}
use riscv64_embedded_os.Prelude.Int.{ℤ, pos}
use riscv64_embedded_os.Mm.{Mm, alloc_page, clear_from}
use riscv64_embedded_os.Mm.FreeList.{FreeList}
use riscv64_embedded_os.Vm.{
  Call, returns, mappages, unmappages, va2pa, walkaddr, walk, walk_from, map_from, descend, rounds,
  pte2pa, pa2pte, px, make_pte,
}
use riscv64_embedded_os.Vm.Space.{Space, linked, linked-Space}
use riscv64_embedded_os.Vm.Grow.{with_page}
use riscv64_embedded_os.Vm.Free.{push_tables, vm_free}
use riscv64_embedded_os.Vm.Freeing.{Leaves, Frees, vm_free-Frees}
use riscv64_embedded_os.Vm.Map.{in_run}
use riscv64_embedded_os.Vm.Mapping.{MapsPages, mappages-Maps, mappages-va2pa}
use riscv64_embedded_os.Vm.Unmapping.{UnmapsPages, unmappages-Unmaps}
use riscv64_embedded_os.Vm.Translate.{entry_at, address_of, page_of, translations}
use riscv64_embedded_os.Vm.Kernel.{kvminit, only, cleared_root}
use riscv64_embedded_os.Vm.Identity.{KernelTable, kvminit-KernelTable}

-- an empty page table at 4096, and two free pages
abbrev pub empty_table : Mm
empty_table = record {
  mem = λ a. if a == 8192 then 12288 else 0;
  free_pages = 8192;
  num_free_pages = 2;
  heap_current = 1000;
}

pub empty_table-FreeList : FreeList empty_table (8192 ∷ 12288 ∷ [])
empty_table-FreeList = record {
  chain = (refl, (refl, refl));
  pages = ((omega arith, refl, omega arith), ((omega arith, refl, omega arith), tt));
  distinct = ((omega arith, tt), (tt, tt));
  number = refl;
  few = omega arith;
}

empty_table-Space : Space empty_table 4096 (only 4096) (8192 ∷ 12288 ∷ [])
empty_table-Space =
    (cleared_root empty_table 4096 (8192 ∷ 12288 ∷ []) empty_table-FreeList
      (omega arith, refl, omega arith) (omega arith, (omega arith, tt))
      λ i h. let other : 4096 + i * 8 == 8192 ≡ false = ground arith in rw other).0

abbrev mapped : Call ℤ × Mm
mapped = mappages empty_table 4096 0x5123 8192 0x9000 6

mapped_returns : mapped.0 ≡ returns (pos 0)
unfolding mappages map_from walk walk_from descend alloc_page clear_from px pte2pa pa2pte make_pte
mapped_returns = refl

mappages-Maps_example : MapsPages empty_table 4096 0x5123 8192 0x9000 6 mapped
mappages-Maps_example =
    mappages-Maps empty_table 4096 (only 4096) (8192 ∷ 12288 ∷ []) 0x5123 8192 0x9000 6
      empty_table-Space (omega arith) (omega arith) (omega arith)

mappages-va2pa_example : va2pa mapped.1 4096 0x6042 ≡ (
    if in_run (0x5123 / 4096) (suc (rounds 0x5123 8192)) 0x6042
    then (0x9000 / 4096 * 4096 + (0x6042 - 0x5123 / 4096 * 4096)) % 2 ^ 64
    else va2pa empty_table 4096 0x6042)
mappages-va2pa_example =
    mappages-va2pa empty_table mapped.1 4096 (only 4096) (8192 ∷ 12288 ∷ []) 0x5123 8192 0x9000 6
      empty_table-Space (omega arith) (omega arith) (omega arith)
      (ap (λ r. (r, mapped.1)) mapped_returns) 0x6042 (omega arith)

unmappages-Unmaps_example :
    UnmapsPages empty_table 4096
      (only 4096)
      (8192 ∷ 12288 ∷ [])
      0x5123
      8192
      (unmappages empty_table 4096 0x5123 8192)
unmappages-Unmaps_example =
    unmappages-Unmaps empty_table 4096 (only 4096) (8192 ∷ 12288 ∷ []) 0x5123 8192 empty_table-Space
      (omega arith)

kvminit-KernelTable_example : KernelTable (kvminit empty_table)
kvminit-KernelTable_example =
    kvminit-KernelTable empty_table (8192 ∷ 12288 ∷ []) empty_table-FreeList

translations_example :
    (walkaddr empty_table 4096 0x5123 ≡ page_of (entry_at empty_table 4096 0x5123))
    × (va2pa empty_table 4096 0x5123 ≡ address_of 0x5123 (entry_at empty_table 4096 0x5123))
translations_example = translations empty_table 4096 (only 4096) 0x5123 empty_table-Space.tree

-- the table page 8192 linked in at index 3 of the table 4096
abbrev two_tables : Mm
two_tables =
    linked empty_table 4096 (only 4096) 8192 (12288 ∷ []) empty_table-Space 4096 3 [] refl
      (omega arith) (omega arith) refl

two_tables-Space : Space two_tables 4096 (with_page (only 4096) 8192 (3 ∷ [])) (12288 ∷ [])
two_tables-Space =
    linked-Space empty_table 4096 (only 4096) 8192 (12288 ∷ []) empty_table-Space 4096 3 [] refl
      (omega arith) (omega arith) refl

two_tables-Leaves : Leaves two_tables.mem (with_page (only 4096) 8192 (3 ∷ []))
two_tables-Leaves z q i e l h valid = absurd (short (8192 == z) (4096 == z) e)
  where
    short : (a b : Bool) → (if a then some (3 ∷ []) else if b then some [] else none) ≡ some q → ⊥
    short true b f = ground (arith, l, f)
    short false true f = ground (arith, l, f)
    short false false f = ground (arith, f)

vm_free-Frees_example :
    Frees two_tables.mem
      (with_page (only 4096) 8192 (3 ∷ []))
      (4096 ∷ push_tables 2 512 0 two_tables.mem 4096 (12288 ∷ []))
      (vm_free 2 two_tables 4096)
vm_free-Frees_example =
    vm_free-Frees 2 two_tables 4096 (with_page (only 4096) 8192 (3 ∷ [])) (12288 ∷ []) (omega arith)
      (omega arith) two_tables-Space two_tables-Leaves (omega arith)
