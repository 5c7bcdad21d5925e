-- ===== src/Mm/Init.antt =====
-- `mm_init`: every page from the end of the heap to the end of the RAM becomes free.
use riscv64_embedded_os.Prelude.{
  ℕ, zero, suc, ◌+◌, ◌-◌, ◌*◌, ◌/◌, ◌%◌, ◌^◌, ◌≤◌, ◌<◌, ◌≡◌, refl, ◌≢◌, ap, sym, List, [], ◌∷◌,
  arith, ltb, if◌then◌else◌, ◌&&◌, leb, length, subst, lt→ltb,
}
use riscv64_embedded_os.Mm.{null, page_size, Mem, write, Mm, mem_end, align_up, link_from, init}
use riscv64_embedded_os.Mm.FreeList.{Chain, AllPages, Apart, Distinct, FreeList}

-- the `n` pages from `start` on
unfoldable pub page_range : ℕ → ℕ → List ℕ
page_range start zero = []
page_range start (suc n) = start ∷ page_range (start + page_size) n

length-page_range : (start n : ℕ) → length (page_range start n) ≡ n
unfolding page_range
length-page_range start zero = refl
length-page_range start (suc n) = ap suc (length-page_range (start + page_size) n)

page_range-AllPages :
    (start n : ℕ)
    → start ≢ null
    → start % page_size ≡ 0
    → start + n * page_size ≤ 2 ^ 64
    → AllPages (page_range start n)
unfolding page_range
page_range-AllPages start zero a b c = tt
page_range-AllPages start (suc n) a b c = (
  (a, b, omega arith),
  page_range-AllPages (start + page_size) n (omega arith) (omega arith) (omega arith),
)

page_range-Apart : (x start n : ℕ) → x < start → Apart x (page_range start n)
unfolding page_range
page_range-Apart x start zero h = tt
page_range-Apart x start (suc n) h =
    (omega arith, page_range-Apart x (start + page_size) n (omega arith))

page_range-Distinct : (start n : ℕ) → Distinct (page_range start n)
unfolding page_range
page_range-Distinct start zero = tt
page_range-Distinct start (suc n) = (
  page_range-Apart start (start + page_size) n (omega arith),
  page_range-Distinct (start + page_size) n,
)

-- where the first word of page `k` points to
abbrev link : ℕ → ℕ → ℕ → ℕ
link start n k = if ltb k n then start + k * page_size else 0

link_from-read :
    (left i start n : ℕ) (mem : Mem) (k : ℕ)
    → i + left ≡ n
    → start + n * page_size ≤ 2 ^ 64
    → link_from left i start n mem (start + k * page_size)
      ≡ (if leb i k && ltb k n then link start n (k + 1) else mem (start + k * page_size))
unfolding link_from
link_from-read zero i start n mem k e h = ground arith
link_from-read (suc left) i start n mem k e h =
    rw (at, next)
      (ground (
        arith,
        link_from-read left (i + 1) start n
            (write mem (start + i * page_size)
              (if ltb (i + 1) n then start + (i + 1) * page_size else 0))
            k (omega arith) h,
      ))
  where
    at : (start + i * page_size) % 2 ^ 64 ≡ start + i * page_size
    at = omega arith

    next :
        (if ltb (i + 1) n then (start + (i + 1) * page_size) % 2 ^ 64 else 0)
        ≡ (if ltb (i + 1) n then start + (i + 1) * page_size else 0)
    next = ground arith

Chain-page_range :
    (m k start n : ℕ) (mem : Mem)
    → ((j : ℕ) → j < n → mem (start + j * page_size) ≡ link start n (j + 1))
    → k + m ≡ n
    → Chain mem (link start n k) (page_range (start + k * page_size) m)
unfolding page_range
Chain-page_range zero k start n mem links e = ground arith
Chain-page_range (suc m) k start n mem links e = (
  rw (lt→ltb k n (omega arith)) refl,
  subst (λ (p : ℕ). Chain mem p (page_range (start + k * page_size + page_size) m))
      (sym (links k (omega arith)))
      (subst (λ (q : ℕ). Chain mem (link start n (k + 1)) (page_range q m)) next_page
        (Chain-page_range m (k + 1) start n mem links (omega arith))),
)
  where
    next_page : start + (k + 1) * page_size ≡ start + k * page_size + page_size
    next_page = omega arith

-- the state that `mm_init` sets up
abbrev set_up : ℕ → ℕ → ℕ → Mm → Mm
set_up heap_start start n s = record {
  mem = link_from n 0 start n s.mem;
  free_pages = start;
  num_free_pages = n;
  heap_current = heap_start;
}

set_up-FreeList :
    (heap_start start n : ℕ) (s : Mm)
    → start ≢ null
    → start % page_size ≡ 0
    → 0 < n
    → start + n * page_size ≤ mem_end
    → FreeList (set_up heap_start start n s) (page_range start n)
set_up-FreeList heap_start start n s ne page pos fits = record {
  chain =
      subst (λ (p : ℕ). Chain mem p (page_range start n)) first
        (subst (λ (q : ℕ). Chain mem (link start n 0) (page_range q n)) (omega arith)
          (Chain-page_range n 0 start n mem
            (λ j h. ground (arith, link_from-read n 0 start n s.mem j (omega arith) (omega arith)))
            (omega arith)));
  pages = page_range-AllPages start n ne page (omega arith);
  distinct = page_range-Distinct start n;
  number = sym (length-page_range start n);
  few = omega (arith, length-page_range start n);
}
  where
    mem : Mem
    mem = link_from n 0 start n s.mem

    first : link start n 0 ≡ start
    first = ground arith

-- For a heap that ends at least a page below the end of the RAM, and not at 0: after `mm_init`
-- the free pages are all those from the end of the heap, rounded up to a page, to the end of the
-- RAM, in the order of their addresses; the heap starts at its start.
pub init-FreeList :
    (heap_start heap_end : ℕ) (s : Mm)
    → 0 < heap_end
    → heap_end + page_size ≤ mem_end
    → let t = init heap_start heap_end s in
      let start = align_up page_size heap_end in
      FreeList t (page_range start ((mem_end - start) / page_size))
      × (heap_end ≤ start)
      × (start < heap_end + page_size)
      × (t.heap_current ≡ heap_start)
unfolding init
init-FreeList heap_start heap_end s pos fits = (
  rw count (
      set_up-FreeList heap_start start ((mem_end - start) / page_size) s (omega arith) (omega arith)
        (omega arith) (omega arith)),
  omega arith,
  omega arith,
  refl,
)
  where
    start : ℕ
    start = align_up page_size heap_end

    count : (mem_end + 2 ^ 64 - start) % 2 ^ 64 / page_size ≡ (mem_end - start) / page_size
    count = omega arith
