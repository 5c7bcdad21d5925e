-- ===== src/Mm/FreeList.antt =====
-- The list of free pages that runs through the pages themselves.
use riscv64_embedded_os.Prelude.{
  ℕ, zero, suc, ◌+◌, ◌-◌, ◌*◌, ◌/◌, ◌%◌, ◌^◌, ◌≤◌, ◌<◌, ◌≡◌, refl, ◌≢◌, ◌∙◌, ap, sym, Bool, false,
  List, [], ◌∷◌, arith, ◌==◌, ltb, if◌then◌else◌, ◌&&◌, leb, length, ==_ne, ==_refl,
}
use riscv64_embedded_os.Mm.{null, page_size, Mem, write, Mm, clear_from, alloc_page, free_page}

-- From `p` the first words of the pages lead through `xs` to NULL.
abbrev pub Chain : Mem → ℕ → List ℕ → Type 0
Chain mem p [] = p ≡ null
Chain mem p (x ∷ xs) = (p ≡ x) × Chain mem (mem x) xs

abbrev pub IsPage : ℕ → Type 0
IsPage x = (x ≢ null) × (x % page_size ≡ 0) × (x + page_size ≤ 2 ^ 64)

abbrev pub AllPages : List ℕ → Type 0
AllPages [] = Unit {0}
AllPages (x ∷ xs) = IsPage x × AllPages xs

abbrev pub Apart : ℕ → List ℕ → Type 0
Apart x [] = Unit {0}
Apart x (y ∷ ys) = (x ≢ y) × Apart x ys

abbrev pub Distinct : List ℕ → Type 0
Distinct [] = Unit {0}
Distinct (x ∷ xs) = Apart x xs × Distinct xs

-- The free pages are `xs`, the next one to be handed out first.
pub record FreeList (s : Mm) (xs : List ℕ) : Type 0 where
  pub chain : Chain s.mem s.free_pages xs
  pub pages : AllPages xs
  pub distinct : Distinct xs
  pub number : s.num_free_pages ≡ length xs
  pub few : length xs < 2 ^ 64

abbrev pub in_page : ℕ → ℕ → Bool
in_page x a = leb x a && ltb a (x + page_size)

-- The word at `a` is one of those that the loop clears.
clear_from-read :
    (left i page : ℕ) (mem : Mem) (a : ℕ)
    → clear_from left i page mem a ≡ (
        if leb (page + i * 8) a && ltb a (page + (i + left) * 8) && ((a - page) % 8 == 0)
        then 0
        else mem a)
unfolding clear_from
clear_from-read zero i page mem a = ground arith
clear_from-read (suc left) i page mem a =
    ground (arith, clear_from-read left (i + 1) page (write mem (page + i * 8) 0) a)

pub Chain-same :
    (mem mem' : Mem) (x p : ℕ) (xs : List ℕ)
    → ((a : ℕ) → a % page_size ≡ 0 → a ≢ x → mem' a ≡ mem a)
    → Apart x xs
    → AllPages xs
    → Chain mem p xs
    → Chain mem' p xs
Chain-same mem mem' x p [] same out pages c = c
Chain-same mem mem' x p (y ∷ ys) same out pages c = (
  c.0,
  rw (same y pages.0.1 (λ e. out.0 (sym e)))
      (Chain-same mem mem' x (mem y) ys same out.1 pages.1 c.1),
)

-- the state once the page `x` is handed out
abbrev without : Mm → ℕ → Mm
without s x = record s {
  mem = clear_from (page_size / 8) 0 x s.mem;
  free_pages = s.mem x;
  num_free_pages = s.num_free_pages - 1;
}

alloc_page-without :
    (s : Mm) (x : ℕ)
    → s.free_pages ≡ x
    → x ≢ null
    → s.num_free_pages ≢ 0
    → alloc_page s ≡ (x, without s x)
unfolding alloc_page
alloc_page-without s x e ne some_free =
    rw (==_ne s.free_pages null (λ z. ne (sym e ∙ z)), ==_ne s.num_free_pages 0 some_free)
      (ap (λ y. (y, without s y)) e)

-- Clearing a page changes no word outside of it.
clear-outside :
    (x a : ℕ) (mem : Mem) → in_page x a ≡ false → clear_from (page_size / 8) 0 x mem a ≡ mem a
clear-outside x a mem out = ground (arith, clear_from-read (page_size / 8) 0 x mem a)

other-page : (x a : ℕ) → x % page_size ≡ 0 → a % page_size ≡ 0 → a ≢ x → in_page x a ≡ false
other-page x a p q ne = ground arith

alloc_page_first :
    (s : Mm) (x : ℕ) (xs : List ℕ)
    → FreeList s (x ∷ xs)
    → let (p, t) = alloc_page s in
      (p ≡ x)
      × FreeList t xs
      × ((i : ℕ) → i < 512 → t.mem (x + i * 8) ≡ 0)
      × ((a : ℕ) → in_page x a ≡ false → t.mem a ≡ s.mem a)
      × (t.heap_current ≡ s.heap_current)
alloc_page_first s x xs f =
    rw (alloc_page-without s x f.chain.0 f.pages.0.0 (omega (arith, f.number))) (
      refl,
      record {
        chain =
            Chain-same s.mem (without s x).mem x (s.mem x) xs
              (λ a p ne. clear-outside x a s.mem (other-page x a f.pages.0.1 p ne)) f.distinct.0
              f.pages.1 f.chain.1;
        pages = f.pages.1;
        distinct = f.distinct.1;
        number = omega (arith, f.number);
        few = omega (arith, f.few);
      },
      (λ i h. ground (arith, clear_from-read (page_size / 8) 0 x s.mem (x + i * 8))),
      (λ a out. clear-outside x a s.mem out),
      refl,
    )

alloc_page_empty : (s : Mm) → FreeList s [] → alloc_page s ≡ (null, s)
unfolding alloc_page
alloc_page_empty s f = ground (arith, f.chain)

-- what `alloc_page` gives out of the free pages
abbrev pub AllocatesPage : Mm → List ℕ → ℕ × Mm → Type 0
AllocatesPage s [] r = r ≡ (null, s)
AllocatesPage s (x ∷ xs) (p, t) =
    (p ≡ x)
    × FreeList t xs
    × ((i : ℕ) → i < 512 → t.mem (x + i * 8) ≡ 0)
    × ((a : ℕ) → in_page x a ≡ false → t.mem a ≡ s.mem a)
    × (t.heap_current ≡ s.heap_current)

-- With a well-formed list of free pages, `alloc_page` hands out the first one, all its words
-- cleared: the others stay free in their order, no word of another page changes, and the heap
-- stays as it is. With no free page it returns NULL and changes nothing.
pub alloc_page-FreeList : (s : Mm) (xs : List ℕ) → FreeList s xs → AllocatesPage s xs (alloc_page s)
alloc_page-FreeList s [] f = alloc_page_empty s f
alloc_page-FreeList s (x ∷ xs) f = alloc_page_first s x xs f

free_page-with :
    (s : Mm) (x : ℕ)
    → x ≢ null
    → free_page s x ≡ record s {
      mem = write s.mem x s.free_pages;
      free_pages = x;
      num_free_pages = (s.num_free_pages + 1) % 2 ^ 64;
    }
unfolding free_page
free_page-with s x ne = rw (==_ne x null ne)

-- `free_page` of an aligned page that is not NULL and not among the well-formed list of free
-- pages puts it in front of the others, and writes only to its first word. The list stays
-- shorter than 2 ^ 64.
pub free_page-FreeList :
    (s : Mm) (x : ℕ) (xs : List ℕ)
    → FreeList s xs
    → IsPage x
    → Apart x xs
    → length xs + 1 < 2 ^ 64
    → let t = free_page s x in FreeList t (x ∷ xs) × ((a : ℕ) → a ≢ x → t.mem a ≡ s.mem a)
free_page-FreeList s x xs f page out few = rw (free_page-with s x page.0) (
  record {
    chain = (
      refl,
      rw (==_refl x) (
          Chain-same s.mem (write s.mem x s.free_pages) x s.free_pages xs (λ a p ne. ground arith)
            out f.pages f.chain),
    );
    pages = (page, f.pages);
    distinct = (out, f.distinct);
    number = omega (arith, f.number);
    few = omega arith;
  },
  λ a ne. ground arith,
)
