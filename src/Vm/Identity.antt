-- ===== src/Vm/Identity.antt =====
-- What `kvminit` maps: the RAM and the devices of the board, each page to itself.
use riscv64_embedded_os.Prelude.{
  ℕ, suc, ◌+◌, ◌*◌, ◌/◌, ◌%◌, ◌≤◌, ◌<◌, ◌≡◌, refl, ◌∙◌, ap, subst, sym, Bool, true, false, List, [],
  Option, none, some, arith, ◌==◌, ==_ne, leb, ◌||◌, if◌then◌else◌, Bool-cases, inl, inr, ◌⊎◌,
}
use riscv64_embedded_os.Prelude.Int.{ℤ, pos, negsuc}
use riscv64_embedded_os.Mm.{Mm, null}
use riscv64_embedded_os.Mm.FreeList.{FreeList}
use riscv64_embedded_os.Vm.{
  Call, returns, panics, make_pte, mappages, max_va, rounds, round_down, va2pa,
}
use riscv64_embedded_os.Vm.Entry.{make_pte_lem}
use riscv64_embedded_os.Vm.Tables.{lookup, Owner}
use riscv64_embedded_os.Vm.Space.{Space}
use riscv64_embedded_os.Vm.Map.{Mapped, Maps, done, failed, remap, in_run, entry_for}
use riscv64_embedded_os.Vm.Mapping.{mappages-Maps}
use riscv64_embedded_os.Vm.Rounds.{rounds_plain}
use riscv64_embedded_os.Vm.Translate.{address_of, va2pa-entry}
use riscv64_embedded_os.Vm.Kernel.{
  map_or_panic, and_then, map_devices, kvminit, Empty, no_page, empty, alloc_page-Empty,
}

-- The tables are well formed and hold the entries `f`.
pub record Holds (s : Mm) (pagetable : ℕ) (f : ℕ → Option ℕ) : Type 0 where
  pub owner : Owner
  pub left : List ℕ
  pub space : Space s pagetable owner left
  pub entries : (va : ℕ) → va < max_va → lookup s.mem pagetable va ≡ f va

-- `f`, and the pages from `va` on mapped to themselves
abbrev pub also : ℕ → ℕ → ℕ → (ℕ → Option ℕ) → ℕ → Option ℕ
also va size perm f x =
    if in_run (va / 4096) (size / 4096) x then some (make_pte (x / 4096 * 4096) perm) else f x

-- The outcomes of mapping one more range: it is mapped, or no page is left for a table.
data Ranges (pagetable : ℕ) (f : ℕ → Option ℕ) : Call (Unit {0}) × Mm → Type 0 where
  more : {t : Mm} → Holds t pagetable f → Ranges pagetable f (returns tt, t)
  stuck : {t : Mm} → FreeList t [] → Ranges pagetable f (panics, t)

-- what `map_or_panic` does with the outcome of `mappages`
abbrev checked : Call ℤ × Mm → Call (Unit {0}) × Mm
checked (result, t) = elim result [
  | panics ↦ (panics, t)
  | returns code ↦ elim code [
    | pos n ↦ if n == 0 then (returns tt, t) else (panics, t)
    | negsuc n ↦ (panics, t)
  ]
]

module _ (s : Mm) (pagetable va size perm : ℕ) (f : ℕ → Option ℕ) (h : Holds s pagetable f)
    (va_page : va % 4096 ≡ 0) (size_page : size % 4096 ≡ 0) (some_size : 0 < size)
    (inside : va + size < max_va) (bits : perm < 1024)
    (free : (x : ℕ) → in_run (va / 4096) (size / 4096) x ≡ true → f x ≡ none) where
  pages : suc (rounds va size) ≡ size / 4096
  pages = omega (arith, rounds_plain va size some_size (omega arith))

  first : round_down va ≡ va
  first = omega arith

  entry_self :
      (x : ℕ)
      → va / 4096 ≤ x / 4096
      → x < max_va
      → entry_for (va / 4096) va perm x ≡ make_pte (x / 4096 * 4096) perm
  entry_self x k b = ap (λ q. make_pte q perm) (omega arith)

  Mapped-Holds :
      {t : Mm}
      → Mapped s pagetable va va perm (size / 4096) t
      → Holds t pagetable (also va size perm f)
  Mapped-Holds m = record {
    owner = m.owner;
    left = m.left;
    space = m.space;
    entries = λ x b. m.translates x b ∙ elim (Bool-cases (in_run (va / 4096) (size / 4096) x)) [
      | inl r ↦ rw r (ap some (entry_self x (ground (arith, r)) b))
      | inr r ↦ rw r (h.entries x b)
    ];
  }

  Maps-Ranges :
      {r : Call ℤ} {t : Mm}
      → Maps s pagetable va va perm (rounds va size) r t
      → Ranges pagetable (also va size perm f) (checked (r, t))
  Maps-Ranges {r} {t} (done k m) = more (Mapped-Holds (rw pages at m))
  Maps-Ranges (failed n k m (inl beyond)) = absurd (omega (arith, pages))
  Maps-Ranges {r} {t} (failed n k m (inr e)) = stuck (let fr = m.space.free in rw e at fr)
  Maps-Ranges (remap n e k b m found) = absurd (
      grind (
        arith,
        sym found
            ∙ h.entries (va + n * 4096) b
            ∙ free (va + n * 4096) (let p = pages in ground arith),
      ))

  map_or_panic-Ranges :
      Ranges pagetable (also va size perm f) (map_or_panic s pagetable va size perm)
  unfolding map_or_panic
  map_or_panic-Ranges =
      let outcome =
        mappages-Maps s pagetable h.owner h.left va size va perm h.space some_size (omega arith)
          bits in
      let (r, t) = mappages s pagetable va size va perm in
      Maps-Ranges (subst (λ a. Maps s pagetable a va perm (rounds va size) r t) first outcome)

-- the entry of an address: the RAM may be read, written and executed, the UART, the PLIC and the
-- CLINT read and written
abbrev pub kernel_entry : ℕ → Option ℕ
kernel_entry = also 0x0200_0000 0x1_0000 6 (
    also 0x0c00_0000 0x400_0000 6
      (also 0x1000_0000 4096 6 (also 0x8000_0000 0x800_0000 14 (λ x. none))))

abbrev pub kernel_maps : ℕ → Bool
kernel_maps va =
    in_run 0x2000 16 va
    || in_run 0xc000 0x4000 va
    || in_run 0x1_0000 1 va
    || in_run 0x8_0000 0x8000 va

self_address :
    (va perm : ℕ)
    → va < max_va
    → perm < 1024
    → address_of va (some (make_pte (va / 4096 * 4096) perm)) ≡ va
self_address va perm h bits =
    rw ((make_pte_lem (va / 4096 * 4096) perm (omega arith) bits).1) (omega arith)

kernel_address :
    (va : ℕ) → va < max_va → address_of va (kernel_entry va) ≡ (if kernel_maps va then va else 0)
kernel_address va h = elim (Bool-cases (in_run 0x2000 16 va)) [
  | inl a ↦ rw a (self_address va 6 h (omega arith))
  | inr a ↦ rw a (elim (Bool-cases (in_run 0xc000 0x4000 va)) [
    | inl b ↦ rw b (self_address va 6 h (omega arith))
    | inr b ↦ rw b (elim (Bool-cases (in_run 0x1_0000 1 va)) [
      | inl c ↦ rw c (self_address va 6 h (omega arith))
      | inr c ↦ rw c (elim (Bool-cases (in_run 0x8_0000 0x8000 va)) [
        | inl d ↦ rw d (self_address va 14 h (omega arith))
        | inr d ↦ rw d
      ])
    ])
  ])
]

pub kernel-va2pa :
    (t : Mm) (pagetable va : ℕ)
    → Holds t pagetable kernel_entry
    → va < max_va
    → va2pa t pagetable va ≡ (if kernel_maps va then va else 0)
kernel-va2pa t pagetable va h below =
    let inside : leb max_va va ≡ false = ground arith in
    va2pa-entry t pagetable h.owner va h.space.tree
    ∙ rw (inside, h.entries va below) (kernel_address va below)

-- Pages of one range are in no other.
outside_run :
    (f n g m va : ℕ) → in_run f n va ≡ true → (f + n ≤ g) ⊎ (g + m ≤ f) → in_run g m va ≡ false
outside_run f n g m va r apart = ground (arith, r, apart)

-- The outcomes of `kvminit`: the kernel's table, or a panic because no page was left.
pub data KernelTable : Call ℕ × Mm → Type 0 where
  ready :
      {pagetable : ℕ} {t : Mm}
      → Holds t pagetable kernel_entry
      → ((va : ℕ) → va < max_va → va2pa t pagetable va ≡ (if kernel_maps va then va else 0))
      → KernelTable (returns pagetable, t)
  out_of_pages : {t : Mm} → FreeList t [] → KernelTable (panics, t)

-- the statements behind a range that was mapped
Ranges-then :
    {pagetable : ℕ} {f : ℕ → Option ℕ} {r : Call (Unit {0}) × Mm} {rest : Mm → Call ℕ × Mm}
    → Ranges pagetable f r
    → ((t : Mm) → Holds t pagetable f → KernelTable (rest t))
    → KernelTable (and_then r rest)
Ranges-then (more {t} h) go = go t h
Ranges-then (stuck e) go = out_of_pages e

map_devices-KernelTable :
    (s : Mm) (pagetable : ℕ) → Holds s pagetable (λ x. none) → KernelTable (map_devices s pagetable)
unfolding map_devices
map_devices-KernelTable s pagetable h =
    Ranges-then
      (map_or_panic-Ranges s pagetable 0x8000_0000 0x800_0000 14 (λ x. none) h refl refl
        (omega arith) (omega arith) (omega arith) (λ x r. refl))
      λ s1 h1.
        Ranges-then
          (map_or_panic-Ranges s1 pagetable 0x1000_0000 4096 6 _ h1 refl refl (omega arith)
            (omega arith) (omega arith)
            λ x r. rw (outside_run 0x1_0000 1 0x8_0000 0x8000 x r (inl (omega arith))))
          λ s2 h2.
            Ranges-then
              (map_or_panic-Ranges s2 pagetable 0x0c00_0000 0x400_0000 6 _ h2 refl refl
                (omega arith) (omega arith) (omega arith)
                λ x r. rw (
                  outside_run 0xc000 0x4000 0x1_0000 1 x r (inl (omega arith)),
                  outside_run 0xc000 0x4000 0x8_0000 0x8000 x r (inl (omega arith)),
                ))
              λ s3 h3.
                Ranges-then
                  (map_or_panic-Ranges s3 pagetable 0x0200_0000 0x1_0000 6 _ h3 refl refl
                    (omega arith) (omega arith) (omega arith)
                    λ x r. rw (
                      outside_run 0x2000 16 0xc000 0x4000 x r (inl (omega arith)),
                      outside_run 0x2000 16 0x1_0000 1 x r (inl (omega arith)),
                      outside_run 0x2000 16 0x8_0000 0x8000 x r (inl (omega arith)),
                    ))
                  λ s4 h4. ready h4 λ va. kernel-va2pa s4 pagetable va h4

-- With a well-formed list of free pages, `kvminit` leaves well-formed tables that hold
-- `kernel_entry` for every address below `MAXVA`, so that `va2pa` gives each address of the RAM, the
-- UART, the PLIC and the CLINT itself and all others 0; or it panics because no page is left.
pub kvminit-KernelTable : (s : Mm) (xs : List ℕ) → FreeList s xs → KernelTable (kvminit s)
unfolding kvminit
kvminit-KernelTable s xs f = go (alloc_page-Empty s xs f)
  where
    go :
        {r : ℕ × Mm}
        → Empty s r
        → KernelTable (if r.0 == null then (panics, r.1) else map_devices r.1 r.0)
    go (no_page e) = out_of_pages e
    go (empty {pagetable} {t} own left some_page space nothing) =
        rw (==_ne pagetable null some_page) (
          map_devices-KernelTable t pagetable
            record { owner = own; left = left; space = space; entries = λ va b. nothing va })
