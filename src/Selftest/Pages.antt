-- ===== src/Selftest/Pages.antt =====
-- The test of the memory gives back the pages that it takes.
use riscv64_embedded_os.Prelude.{
  ℕ, ◌+◌, ◌*◌, ◌/◌, ◌%◌, ◌^◌, ◌≡◌, refl, sym, List, [], ◌∷◌, arith, ◌==◌, ltb, Bool-cases, inl, inr,
}
use riscv64_embedded_os.Mm.{Mm, null, alloc_page, free_page, kmalloc}
use riscv64_embedded_os.Mm.FreeList.{
  FreeList, alloc_page-FreeList, free_page-FreeList, AllocatesPage,
}
use riscv64_embedded_os.Selftest.{test_memory}

-- the free pages with the first two exchanged
unfoldable pub exchanged : List ℕ → List ℕ
exchanged [] = []
exchanged (x ∷ []) = x ∷ []
exchanged (x ∷ y ∷ xs) = y ∷ x ∷ xs

-- The heap does not matter to the free pages.
kmalloc-FreeList :
    (heap_end : ℕ) (s : Mm) (size : ℕ) (xs : List ℕ)
    → FreeList s xs
    → FreeList (kmalloc heap_end s size).1 xs × ((kmalloc heap_end s size).1.mem ≡ s.mem)
unfolding kmalloc
kmalloc-FreeList heap_end s size xs f = elim (Bool-cases (size == 0)) [
  | inl e ↦ rw e (f, refl)
  | inr e ↦ rw e (elim (Bool-cases (ltb heap_end (top s))) [
    | inl l ↦ rw l (f, refl)
    | inr l ↦ rw l (
      record {
        chain = f.chain;
        pages = f.pages;
        distinct = f.distinct;
        number = f.number;
        few = f.few;
      },
      refl,
    )
  ])
]
  where
    top : Mm → ℕ
    top m = (m.heap_current + (size + 7) % 2 ^ 64 / 8 * 8) % 2 ^ 64

free_null : (s : Mm) → free_page s null ≡ s
unfolding free_page
free_null s = refl

-- the statements behind the two allocations
abbrev rest : ℕ → ℕ → ℕ → Mm → Mm
rest heap_end page1 page2 s =
    free_page (free_page (kmalloc heap_end (kmalloc heap_end s 256).1 512).1 page1) page2

-- behind the first allocation
abbrev second : ℕ → ℕ × Mm → Mm
second heap_end (page1, s1) = let (page2, s2) = alloc_page s1 in rest heap_end page1 page2 s2

kmallocs-FreeList :
    (heap_end : ℕ) (s : Mm) (xs : List ℕ)
    → FreeList s xs
    → FreeList (kmalloc heap_end (kmalloc heap_end s 256).1 512).1 xs
kmallocs-FreeList heap_end s xs f =
    (kmalloc-FreeList heap_end (kmalloc heap_end s 256).1 512 xs
      (kmalloc-FreeList heap_end s 256 xs f).0).0

-- Both calls got a page, or the first one only, or none.
two_pages :
    (heap_end x y : ℕ) (xs : List ℕ) (s s1 : Mm) (r : ℕ × Mm)
    → FreeList s (x ∷ y ∷ xs)
    → AllocatesPage s1 (y ∷ xs) r
    → FreeList (rest heap_end x r.0 r.1) (y ∷ x ∷ xs)
two_pages heap_end x y xs s s1 (page2, s2) f e =
    let after = (kmalloc heap_end (kmalloc heap_end s2 256).1 512).1 in
    let (first, outside) =
      free_page-FreeList after x xs (kmallocs-FreeList heap_end s2 xs e.1) f.pages.0 f.distinct.0.1
        (omega (arith, f.few)) in
    rw e.0
      (free_page-FreeList (free_page after x) y (x ∷ xs) first f.pages.1.0
        ((λ z. f.distinct.0.0 (sym z)), f.distinct.1.0) (omega (arith, f.few))).0

one_page :
    (heap_end x : ℕ) (s s1 : Mm) (r : ℕ × Mm)
    → FreeList s (x ∷ [])
    → FreeList s1 []
    → AllocatesPage s1 [] r
    → FreeList (rest heap_end x r.0 r.1) (x ∷ [])
one_page heap_end x s s1 r f f1 e =
    let after = (kmalloc heap_end (kmalloc heap_end s1 256).1 512).1 in
    rw (e, free_null (free_page after x))
      (free_page-FreeList after x [] (kmallocs-FreeList heap_end s1 [] f1) f.pages.0 tt
        (omega arith)).0

no_page : (heap_end : ℕ) (s : Mm) → FreeList s [] → FreeList (second heap_end (null, s)) []
no_page heap_end s f =
    let after = (kmalloc heap_end (kmalloc heap_end s 256).1 512).1 in
    rw (alloc_page-FreeList s [] f, free_null after, free_null after)
      (kmallocs-FreeList heap_end s [] f)

behind_first :
    (heap_end : ℕ) (s : Mm) (xs : List ℕ) (r : ℕ × Mm)
    → FreeList s xs
    → AllocatesPage s xs r
    → FreeList (second heap_end r) (exchanged xs)
unfolding exchanged
behind_first heap_end s [] r f e = rw e (no_page heap_end s f)
behind_first heap_end s (x ∷ []) (page1, s1) f e =
    rw e.0 (one_page heap_end x s s1 (alloc_page s1) f e.1 (alloc_page-FreeList s1 [] e.1))
behind_first heap_end s (x ∷ y ∷ xs) (page1, s1) f e =
    rw e.0 (two_pages heap_end x y xs s s1 (alloc_page s1) f (alloc_page-FreeList s1 (y ∷ xs) e.1))

-- `test_memory` gives back the pages that it takes: with a well-formed list of free pages, the same
-- pages are free behind it, the first two exchanged when there are two.
pub test_memory-FreeList :
    (heap_end : ℕ) (s : Mm) (xs : List ℕ)
    → FreeList s xs
    → FreeList (test_memory heap_end s) (exchanged xs)
unfolding test_memory
test_memory-FreeList heap_end s xs f =
    behind_first heap_end s xs (alloc_page s) f (alloc_page-FreeList s xs f)
