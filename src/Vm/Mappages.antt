-- ===== src/Vm/Mappages.antt =====
-- The loop of `mappages`, and `mappages`: every outcome.
use riscv64_embedded_os.Prelude.{
  ℕ, zero, suc, ◌+◌, ◌*◌, ◌%◌, ◌^◌, ◌≤◌, ◌<◌, ◌≡◌, refl, ◌∙◌, sym, Bool, true, false, List, [],
  Option, none, some, arith, leb, if◌then◌else◌, Bool-cases, inl, inr, ◌⊎◌,
}
use riscv64_embedded_os.Prelude.Int.{ℤ, pos, minus_one}
use riscv64_embedded_os.Mm.{Mm, page_size}
use riscv64_embedded_os.Vm.{
  Call, returns, panics, pte_valid, slot, store, walk, walk_from, make_pte, map_from, max_va,
}
use riscv64_embedded_os.Vm.Tables.{Owner}
use riscv64_embedded_os.Vm.Space.{Space, Grows, Grows-refl}
use riscv64_embedded_os.Vm.Walk.{path_at, Reach, Walks, exhausted, reached, walk_from-Out}
use riscv64_embedded_os.Vm.Leaf.{set_entry-Space}
use riscv64_embedded_os.Vm.Map.{
  Maps, done, failed, remap, Mapped-none, left-Mapped-none, entered, was, Mapped-one, Mapped-cons,
  left-Mapped-cons, lookup-behind,
}

-- what `map_from` does with the outcome of the walk
abbrev map_on : ℕ → ℕ → ℕ → ℕ → ℕ → Option ℕ × Mm → Call ℤ × Mm
map_on zero pagetable a pa perm (found, t) = elim found [
  | none ↦ (returns minus_one, t)
  | some pte ↦
      if pte_valid (t.mem pte)
      then (panics, t)
      else (returns (pos 0), store t pte (make_pte pa perm))
]
map_on (suc left) pagetable a pa perm (found, t) = elim found [
  | none ↦ (returns minus_one, t)
  | some pte ↦
      let rest =
        map_from left (store t pte (make_pte pa perm)) pagetable ((a + page_size) % 2 ^ 64)
          ((pa + page_size) % 2 ^ 64) perm in
      if pte_valid (t.mem pte) then (panics, t) else rest
]

map_from-map_on :
    (left : ℕ) (s : Mm) (pagetable a pa perm : ℕ)
    → map_from left s pagetable a pa perm
      ≡ map_on left pagetable a pa perm (walk s pagetable a true)
unfolding map_from
map_from-map_on zero s pagetable a pa perm = refl
map_from-map_on (suc left) s pagetable a pa perm = refl

pub walk-outside :
    (s : Mm) (pagetable va : ℕ) (alloc : Bool)
    → leb max_va va ≡ true
    → walk s pagetable va alloc ≡ (none, s)
unfolding walk
walk-outside s pagetable va alloc e = rw e

pub walk-inside :
    (s : Mm) (pagetable va : ℕ) (alloc : Bool)
    → leb max_va va ≡ false
    → walk s pagetable va alloc ≡ walk_from 2 s pagetable va alloc
unfolding walk
walk-inside s pagetable va alloc e = rw e

abbrev Ends : Mm → ℕ → ℕ → ℕ → ℕ → ℕ → Call ℤ × Mm → Type 0
Ends s pagetable a pa perm left (r, t) = Maps s pagetable a pa perm left r t

map_on-none :
    (left : ℕ) (t : Mm) (pagetable a pa perm : ℕ)
    → map_on left pagetable a pa perm (none, t) ≡ (returns minus_one, t)
map_on-none zero t pagetable a pa perm = refl
map_on-none (suc left) t pagetable a pa perm = refl

map_on-remap :
    (left : ℕ) (t : Mm) (pagetable a pa perm pte : ℕ)
    → pte_valid (t.mem pte) ≡ true
    → map_on left pagetable a pa perm (some pte, t) ≡ (panics, t)
map_on-remap zero t pagetable a pa perm pte e = rw e
map_on-remap (suc left) t pagetable a pa perm pte e = rw e

none-Ends :
    {s t : Mm} {own : Owner} (left pagetable a pa perm : ℕ) (g : Grows s pagetable own t)
    → (max_va ≤ a) ⊎ (g.left ≡ [])
    → Ends s pagetable a pa perm left (map_on left pagetable a pa perm (none, t))
none-Ends {s} {t} left pagetable a pa perm g why = rw (map_on-none left t pagetable a pa perm) (
    failed 0 (omega arith) (Mapped-none a pa perm g)
      (elim why [ inl h ↦ inl (omega arith) | inr e ↦ inr (left-Mapped-none a pa perm g ∙ e) ]))

remap-Ends :
    {s t : Mm} {own : Owner} (left pagetable a pa perm z : ℕ) (g : Grows s pagetable own t)
    → Reach 2 t.mem pagetable a z
    → g.owner z ≡ some (path_at 0 a)
    → a % 4096 ≡ 0
    → a < max_va
    → pa < 2 ^ 64
    → perm < 1024
    → pte_valid (t.mem (slot z 0 a)) ≡ true
    → Ends s pagetable a pa perm left (map_on left pagetable a pa perm (some (slot z 0 a), t))
remap-Ends {s} {t} {own} left pagetable a pa perm z g reach last aligned below address bits valid =
    let here : a + 0 * 4096 ≡ a = omega arith in
    rw (map_on-remap left t pagetable a pa perm (slot z 0 a) valid) (
      remap 0 (t.mem (slot z 0 a)) (omega arith) (omega arith) (Mapped-none a pa perm g) (
        rw here
          (was s t pagetable own a pa perm z g last reach aligned below address bits ∙ rw valid)))

module _ (s t : Mm) (pagetable : ℕ) (own : Owner) (a pa perm z : ℕ) (g : Grows s pagetable own t)
    (last : g.owner z ≡ some (path_at 0 a)) (reach : Reach 2 t.mem pagetable a z)
    (aligned : a % 4096 ≡ 0) (below : a < max_va) (address : pa < 2 ^ 64) (bits : perm < 1024)
    (vacant : pte_valid (t.mem (slot z 0 a)) ≡ false) where
  abbrev next : Mm
  next = entered s t pagetable own a pa perm z g last reach aligned below address bits

  Ends-shift :
      (left : ℕ) (r : Call ℤ) (u : Mm)
      → Maps next pagetable ((a + 4096) % 2 ^ 64) ((pa + 4096) % 2 ^ 64) perm left r u
      → Maps s pagetable a pa perm (suc left) r u
  Ends-shift left r u (done h m) = done (omega arith) (
      Mapped-cons s t pagetable own a pa perm z g last reach aligned below address bits vacant
        (suc left) u m)
  Ends-shift left r u (failed n h m why) =
      failed (suc n) (omega arith)
        (Mapped-cons s t pagetable own a pa perm z g last reach aligned below address bits vacant n
          u m)
        (elim why [
          | inl k ↦ inl (omega arith)
          | inr e ↦ inr (
              left-Mapped-cons s t pagetable own a pa perm z g last reach aligned below address bits
                vacant n u m
              ∙ e)
        ])
  Ends-shift left r u (remap n e h k m found) =
      let on : (a + 4096) % 2 ^ 64 + n * 4096 ≡ a + 4096 + n * 4096 = omega arith in
      let same : a + suc n * 4096 ≡ a + 4096 + n * 4096 = omega arith in
      remap (suc n) e (omega arith) (omega arith)
        (Mapped-cons s t pagetable own a pa perm z g last reach aligned below address bits vacant n
          u m)
        (rw same (
          sym (
            lookup-behind s t pagetable own a pa perm z g last reach aligned below address bits
              vacant n u m (n * 4096) (omega arith))
          ∙ rw on at found))

  abbrev Later : ℕ → Type 0
  Later zero = Unit {0}
  Later (suc left) =
      Ends next pagetable ((a + 4096) % 2 ^ 64) ((pa + 4096) % 2 ^ 64) perm left
        (map_from left next pagetable ((a + 4096) % 2 ^ 64) ((pa + 4096) % 2 ^ 64) perm)

  entered-Ends :
      (left : ℕ)
      → Later left
      → Ends s pagetable a pa perm left (map_on left pagetable a pa perm (some (slot z 0 a), t))
  entered-Ends zero later = rw vacant (
      done (omega arith)
        (Mapped-one s t pagetable own a pa perm z g last reach aligned below address bits vacant))
  entered-Ends (suc left) later =
      let (r, u) = map_from left next pagetable ((a + 4096) % 2 ^ 64) ((pa + 4096) % 2 ^ 64) perm in
      rw vacant (Ends-shift left _ _ later)

-- what the rounds behind this one do
abbrev Behind : ℕ → Type 0
Behind zero = Unit {0}
Behind (suc left) =
    (s : Mm) (pagetable : ℕ) (own : Owner) (xs : List ℕ) (a pa perm : ℕ)
    → Space s pagetable own xs
    → a % 4096 ≡ 0
    → pa < 2 ^ 64
    → perm < 1024
    → Ends s pagetable a pa perm left (map_from left s pagetable a pa perm)

module _ (s : Mm) (pagetable : ℕ) (own : Owner) (xs : List ℕ) (a pa perm : ℕ)
    (space : Space s pagetable own xs) (aligned : a % 4096 ≡ 0) (address : pa < 2 ^ 64)
    (bits : perm < 1024) where
  walked-Ends :
      (left : ℕ) {r : Option ℕ} {t : Mm}
      → Behind left
      → a < max_va
      → Walks s pagetable own 2 pagetable a r t
      → Ends s pagetable a pa perm left (map_on left pagetable a pa perm (r, t))
  walked-Ends left behind below (exhausted g e) = none-Ends left pagetable a pa perm g (inr e)
  walked-Ends left {r} {t} behind below (reached z g last reach) =
      elim (Bool-cases (pte_valid (t.mem (slot z 0 a)))) [
        | inl valid ↦
            remap-Ends left pagetable a pa perm z g reach last aligned below address bits valid
        | inr vacant ↦
            entered-Ends s t pagetable own a pa perm z g last reach aligned below address bits
              vacant left (later vacant left behind)
      ]
    where
      later :
          (vacant : pte_valid (t.mem (slot z 0 a)) ≡ false) (left : ℕ)
          → Behind left
          → Later s t pagetable own a pa perm z g last reach aligned below address bits vacant left
      later vacant zero behind = tt
      later vacant (suc n) behind =
          behind (entered s t pagetable own a pa perm z g last reach aligned below address bits)
            pagetable g.owner g.left ((a + 4096) % 2 ^ 64) ((pa + 4096) % 2 ^ 64) perm
            (set_entry-Space t pagetable g.owner g.left g.space a z (make_pte pa perm) last reach)
            (omega arith) (omega arith) bits

  round-Ends :
      (left : ℕ)
      → Behind left
      → Ends s pagetable a pa perm left (map_from left s pagetable a pa perm)
  round-Ends left behind =
      rw (map_from-map_on left s pagetable a pa perm) (elim (Bool-cases (leb max_va a)) [
        | inl out ↦
            rw (walk-outside s pagetable a true out)
              (none-Ends left pagetable a pa perm (Grows-refl space) (inl (ground (arith, out))))
        | inr inside ↦ rw (walk-inside s pagetable a true inside) (
            walked-Ends left behind (ground (arith, inside))
              (walk_from-Out 2 s pagetable own xs pagetable a (omega arith) space space.tree.root))
      ])

pub map_from-Maps :
    (left : ℕ) (s : Mm) (pagetable : ℕ) (own : Owner) (xs : List ℕ) (a pa perm : ℕ)
    → Space s pagetable own xs
    → a % 4096 ≡ 0
    → pa < 2 ^ 64
    → perm < 1024
    → Ends s pagetable a pa perm left (map_from left s pagetable a pa perm)
map_from-Maps zero s pagetable own xs a pa perm space aligned address bits =
    round-Ends s pagetable own xs a pa perm space aligned address bits zero tt
map_from-Maps (suc left) s pagetable own xs a pa perm space aligned address bits =
    round-Ends s pagetable own xs a pa perm space aligned address bits (suc left)
      (map_from-Maps left)
