-- ===== src/Mm/Heap.antt =====
-- `kmalloc`: blocks of the heap that never overlap, and the sizes at which it goes wrong.
use riscv64_embedded_os.Prelude.{
  ℕ, ◌+◌, ◌^◌, ◌≤◌, ◌<◌, ◌≡◌, ◌⊎◌, inl, inr, List, [], ◌∷◌, arith, ◌==◌, if◌then◌else◌, Bool-cases,
}
use riscv64_embedded_os.Mm.{null, Mm, kmalloc}

-- A call that hands out the block of `size` bytes at `ptr`, or fails and changes nothing.
abbrev pub Allocates : ℕ → Mm → ℕ → ℕ × Mm → Type 0
Allocates heap_end s size (ptr, t) =
    ((ptr ≡ s.heap_current)
      × (0 < size)
      × (ptr + size ≤ t.heap_current)
      × (t.heap_current ≤ heap_end)
      × (t.heap_current < ptr + size + 8)
      × (t ≡ record s { heap_current = t.heap_current }))
    ⊎ ((ptr ≡ null) × (t ≡ s) × ((size ≡ 0) ⊎ (heap_end < s.heap_current + size + 7)))

-- For a size that does not make the sums of `kmalloc` wrap: it hands out the next free bytes of
-- the heap, at least `size` and fewer than 8 more; or it returns NULL and changes nothing, for the
-- size 0 and when the heap does not hold the rounded size any more.
pub kmalloc-Allocates :
    (heap_end : ℕ) (s : Mm) (size : ℕ)
    → s.heap_current + size + 8 ≤ 2 ^ 64
    → Allocates heap_end s size (kmalloc heap_end s size)
unfolding kmalloc
kmalloc-Allocates heap_end s size h = ground arith

-- For the seven largest sizes the rounding wraps to 0: with the heap pointer inside the heap the
-- call returns it and changes nothing, so the next call hands out the same block.
pub kmalloc_wraps :
    (heap_end : ℕ) (s : Mm) (size : ℕ)
    → 2 ^ 64 < size + 8
    → size < 2 ^ 64
    → s.heap_current ≤ heap_end
    → heap_end < 2 ^ 64
    → kmalloc heap_end s size ≡ (s.heap_current, s)
unfolding kmalloc
kmalloc_wraps heap_end s size a b c d = ground arith

-- a run of requests, with the blocks that they get: address and size
unfoldable pub kmallocs : ℕ → Mm → List ℕ → List (ℕ × ℕ)
kmallocs heap_end s [] = []
kmallocs heap_end s (n ∷ ns) =
    let (ptr, t) = kmalloc heap_end s n in
    let rest = kmallocs heap_end t ns in if ptr == null then rest else (ptr, n) ∷ rest

abbrev pub total : List ℕ → ℕ
total [] = 0
total (n ∷ ns) = n + total ns

-- Every block lies in front of those behind it in the list, between two addresses.
abbrev pub InOrder : ℕ → ℕ → List (ℕ × ℕ) → Type 0
InOrder lo hi [] = Unit {0}
InOrder lo hi ((ptr, n) ∷ blocks) = (lo ≤ ptr) × (ptr + n ≤ hi) × InOrder (ptr + n) hi blocks

InOrder-mono :
    (lo lo' hi : ℕ) (blocks : List (ℕ × ℕ))
    → lo ≤ lo'
    → InOrder lo' hi blocks
    → InOrder lo hi blocks
InOrder-mono lo lo' hi [] h o = tt
InOrder-mono lo lo' hi ((ptr, n) ∷ blocks) h o = (omega arith, o.1, o.2)

kmalloc-InOrder :
    (heap_end : ℕ) (s : Mm) (n ptr : ℕ) (t : Mm) (rest : List (ℕ × ℕ))
    → s.heap_current ≤ heap_end
    → Allocates heap_end s n (ptr, t)
    → InOrder t.heap_current heap_end rest
    → InOrder s.heap_current heap_end (if ptr == null then rest else (ptr, n) ∷ rest)
kmalloc-InOrder heap_end s n ptr t rest h (inl (a, b, c, d, e, f)) o =
    elim (Bool-cases (ptr == null)) [
      | inl z ↦ rw z (InOrder-mono s.heap_current t.heap_current heap_end rest (omega arith) o)
      | inr z ↦
          rw z (omega arith, omega arith, InOrder-mono (ptr + n) t.heap_current heap_end rest c o)
    ]
kmalloc-InOrder heap_end s n ptr t rest h (inr (a, same, why)) o =
    rw (a, ← same) (InOrder-mono t.heap_current t.heap_current heap_end rest (omega arith) o)

Allocates-le :
    (heap_end : ℕ) (s : Mm) (n ptr : ℕ) (t : Mm)
    → s.heap_current ≤ heap_end
    → Allocates heap_end s n (ptr, t)
    → t.heap_current ≤ heap_end
Allocates-le heap_end s n ptr t h (inl (a, b, c, d, e, f)) = d
Allocates-le heap_end s n ptr t h (inr (a, same, why)) = rw same h

-- With the heap pointer inside the heap, blocks handed out one after the other do not overlap,
-- lie in the heap, and hold the bytes asked for, as long as the end of the heap and the requests
-- together stay in the address space.
pub kmallocs-InOrder :
    (heap_end : ℕ) (s : Mm) (sizes : List ℕ)
    → s.heap_current ≤ heap_end
    → heap_end + 8 + total sizes ≤ 2 ^ 64
    → InOrder s.heap_current heap_end (kmallocs heap_end s sizes)
unfolding kmallocs
kmallocs-InOrder heap_end s [] h fits = tt
kmallocs-InOrder heap_end s (n ∷ ns) h fits =
    kmalloc-InOrder heap_end s n (kmalloc heap_end s n).0 (kmalloc heap_end s n).1
      (kmallocs heap_end (kmalloc heap_end s n).1 ns) h allocates
      (kmallocs-InOrder heap_end (kmalloc heap_end s n).1 ns
        (Allocates-le heap_end s n _ _ h allocates) (omega arith))
  where
    allocates : Allocates heap_end s n (kmalloc heap_end s n)
    allocates = kmalloc-Allocates heap_end s n (omega arith)
