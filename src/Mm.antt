-- ===== src/Mm.antt =====
-- The page allocator and the heap of kernel/mm/mm.c. `mem` maps the address of each 8-byte word to
-- the word that it holds; the code reads and writes whole words at multiples of 8 only. The
-- linker symbols `__heap_start` and `__heap_end` are arguments. Printing is left out.
pub mod FreeList
pub mod Init
pub mod Heap
use riscv64_embedded_os.Prelude.{
  ℕ, zero, suc, ◌+◌, ◌-◌, ◌*◌, ◌/◌, ◌%◌, ◌^◌, Bool, ◌==◌, ltb, if◌then◌else◌, ◌||◌,
}

abbrev pub null : ℕ
null = 0

abbrev pub page_size : ℕ
page_size = 4096

abbrev pub Mem : Type 0
Mem = ℕ → ℕ

-- `*a = v`
abbrev pub write : Mem → ℕ → ℕ → Mem
write mem a v b = if a == b then v else mem b

-- the `static` variables, and the memory
pub record Mm : Type 0 where
  pub mem : Mem
  pub free_pages : ℕ
  pub num_free_pages : ℕ
  pub heap_current : ℕ

-- the end of the RAM, `0x80000000 + 128 * 1024 * 1024`
abbrev pub mem_end : ℕ
mem_end = 0x8800_0000

-- `(x + n - 1) & ~(n - 1)` for a power of two `n`, in 64 bits
abbrev pub align_up : ℕ → ℕ → ℕ
align_up n x = (x + n - 1) % 2 ^ 64 / n * n

-- the loop of `mm_init` at index `i`, with `left` rounds to go
unfoldable pub link_from : ℕ → ℕ → ℕ → ℕ → Mem → Mem
link_from zero i start n mem = mem
link_from (suc left) i start n mem = link_from left (i + 1) start n (
    write mem ((start + i * page_size) % 2 ^ 64)
      (if ltb (i + 1) n then (start + (i + 1) * page_size) % 2 ^ 64 else 0))

-- `mm_init`
unfoldable pub init : ℕ → ℕ → Mm → Mm
init heap_start heap_end s =
    let start = align_up page_size heap_end in
    let n = (mem_end + 2 ^ 64 - start) % 2 ^ 64 / page_size in
    record {
      mem = link_from n 0 start n s.mem;
      free_pages = start;
      num_free_pages = n;
      heap_current = heap_start;
    }

-- the loop of `alloc_page` at index `i`, with `left` rounds to go
unfoldable pub clear_from : ℕ → ℕ → ℕ → Mem → Mem
clear_from zero i page mem = mem
clear_from (suc left) i page mem = clear_from left (i + 1) page (write mem (page + i * 8) 0)

-- `alloc_page`
unfoldable pub alloc_page : Mm → ℕ × Mm
alloc_page s = if (s.free_pages == null) || (s.num_free_pages == 0) then (null, s) else (
  s.free_pages,
  record s {
    mem = clear_from (page_size / 8) 0 s.free_pages s.mem;
    free_pages = s.mem s.free_pages;
    num_free_pages = s.num_free_pages - 1;
  },
)

-- `free_page`
unfoldable pub free_page : Mm → ℕ → Mm
free_page s page = if page == null then s else record s {
  mem = write s.mem page s.free_pages;
  free_pages = page;
  num_free_pages = (s.num_free_pages + 1) % 2 ^ 64;
}

-- `kmalloc`
unfoldable pub kmalloc : ℕ → Mm → ℕ → ℕ × Mm
kmalloc heap_end s size =
    let aligned = (size + 7) % 2 ^ 64 / 8 * 8 in
    let top = (s.heap_current + aligned) % 2 ^ 64 in
    if size == 0
    then (null, s)
    else if ltb heap_end top
    then (null, s)
    else (s.heap_current, record s { heap_current = top })

-- `kfree` does nothing.
unfoldable pub kfree : Mm → ℕ → Mm
kfree s ptr = s
