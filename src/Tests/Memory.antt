-- ===== src/Tests/Memory.antt =====
-- The page allocator and the heap at concrete inputs.
use riscv64_embedded_os.Prelude.{
  ℕ, ◌+◌, ◌-◌, ◌/◌, ◌≤◌, ◌<◌, ◌≡◌, refl, ◌≢◌, [], ◌∷◌, arith, ◌==◌, if◌then◌else◌,
}
use riscv64_embedded_os.Mm.{page_size, Mm, init, alloc_page, free_page, align_up, mem_end}
use riscv64_embedded_os.Mm.FreeList.{
  FreeList, AllocatesPage, alloc_page-FreeList, free_page-FreeList,
}
use riscv64_embedded_os.Mm.Init.{page_range, init-FreeList}
use riscv64_embedded_os.Mm.Heap.{kmallocs, InOrder, kmallocs-InOrder}

-- two free pages, the higher one first
abbrev two_pages : Mm
two_pages = record {
  mem = λ a. if a == 8192 then 4096 else if a == 4096 then 0 else 77;
  free_pages = 8192;
  num_free_pages = 2;
  heap_current = 1000;
}

two_pages-FreeList : FreeList two_pages (8192 ∷ 4096 ∷ [])
two_pages-FreeList = record {
  chain = (refl, (refl, refl));
  pages = ((omega arith, refl, omega arith), ((omega arith, refl, omega arith), tt));
  distinct = ((omega arith, tt), (tt, tt));
  number = refl;
  few = omega arith;
}

alloc_page-FreeList_example : AllocatesPage two_pages (8192 ∷ 4096 ∷ []) (alloc_page two_pages)
alloc_page-FreeList_example = alloc_page-FreeList two_pages (8192 ∷ 4096 ∷ []) two_pages-FreeList

free_page-FreeList_example :
    FreeList (free_page two_pages 12288) (12288 ∷ 8192 ∷ 4096 ∷ [])
    × ((a : ℕ) → a ≢ 12288 → (free_page two_pages 12288).mem a ≡ two_pages.mem a)
free_page-FreeList_example =
    free_page-FreeList two_pages 12288 (8192 ∷ 4096 ∷ []) two_pages-FreeList
      (omega arith, refl, omega arith) (omega arith, (omega arith, tt)) (omega arith)

init-FreeList_example :
    FreeList (init 0x8700_0000 0x87f0_0001 two_pages) (
      page_range
        (align_up page_size 0x87f0_0001)
        ((mem_end - align_up page_size 0x87f0_0001) / page_size))
    × (0x87f0_0001 ≤ align_up page_size 0x87f0_0001)
    × (align_up page_size 0x87f0_0001 < 0x87f0_0001 + page_size)
    × ((init 0x8700_0000 0x87f0_0001 two_pages).heap_current ≡ 0x8700_0000)
init-FreeList_example = init-FreeList 0x8700_0000 0x87f0_0001 two_pages (omega arith) (omega arith)

kmallocs-InOrder_example : InOrder 1000 4096 (kmallocs 4096 two_pages (13 ∷ 5000 ∷ 24 ∷ []))
kmallocs-InOrder_example =
    kmallocs-InOrder 4096 two_pages (13 ∷ 5000 ∷ 24 ∷ []) (omega arith) (omega arith)
