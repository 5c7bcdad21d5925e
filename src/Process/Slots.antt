-- ===== src/Process/Slots.antt =====
-- What allocation and release do to the table.
use riscv64_embedded_os.Prelude.{
  ℕ, zero, suc, ◌+◌, ◌≤◌, ◌<◌, ◌≡◌, refl, ◌≢◌, ◌⊎◌, inl, inr, Bool, true, false, arith, ◌==◌,
  Bool-cases,
}
use riscv64_embedded_os.Mlfq.{null, max_processes}
use riscv64_embedded_os.Process.{
  Table, unused, proc_ptr, inc64, is_unused, put, init_from, init, filled, alloc_from, alloc, free,
}

abbrev pub slot_free : Table → ℕ → Bool
slot_free t i = is_unused (t.procs (proc_ptr i)).state

-- The slots from `i` on, up to `j`, are taken.
abbrev pub Taken : Table → ℕ → ℕ → Type 0
Taken t i j = (k : ℕ) → i ≤ k → k < j → slot_free t k ≡ false

-- An allocation: the first free slot of the table is filled under a new pid, and no other slot
-- changes; or there is no free slot, and nothing changes.
abbrev pub Allocates : Table → ℕ → ℕ → ℕ × Table → Type 0
Allocates t i n (p, t') =
    ((j : ℕ) × (i ≤ j)
      × (j < n)
      × (p ≡ proc_ptr j)
      × (slot_free t j ≡ true)
      × Taken t i j
      × (t' ≡ record (put t p (filled t (t.procs p))) { next_pid = inc64 t.next_pid }))
    ⊎ ((p ≡ null) × (t' ≡ t) × Taken t i n)

alloc_from-Allocates :
    (left i : ℕ) (n : ℕ) (t : Table) → i + left ≡ n → Allocates t i n (alloc_from left i t)
unfolding alloc_from
alloc_from-Allocates zero i n t e = inr (refl, refl, λ k p q. absurd (omega arith))
alloc_from-Allocates (suc left) i n t e = elim (Bool-cases (slot_free t i)) [
  | inl f ↦
      rw (f, alloc_from)
        (inl (i, omega arith, omega arith, refl, f, (λ k p q. absurd (omega arith)), refl))
  | inr f ↦ rw (f, alloc_from) (later f (alloc_from-Allocates left (i + 1) n t (omega arith)))
]
  where
    here :
        slot_free t i ≡ false
        → (k : ℕ) → i ≤ k
        → (i + 1 ≤ k → slot_free t k ≡ false)
        → slot_free t k ≡ false
    here f k p h = elim (Bool-cases (i == k)) [
      | inl e ↦ let same : i ≡ k = ground arith in rw (← same) f
      | inr ne ↦ h (ground arith)
    ]

    later :
        slot_free t i ≡ false
        → Allocates t (i + 1) n (alloc_from left (i + 1) t)
        → Allocates t i n (alloc_from left (i + 1) t)
    later f (inl (j, a, b, c, d, taken, g)) =
        inl (j, omega arith, b, c, d, (λ k p q. here f k p (λ r. taken k r q)), g)
    later f (inr (a, b, taken)) = inr (a, b, λ k p q. here f k p (λ r. taken k r q))

-- `process_alloc` fills the first unused slot under the next pid and changes no other slot; it
-- returns NULL, with the table as it was, exactly when all slots are taken.
pub alloc-Allocates : (t : Table) → Allocates t 0 max_processes (alloc t)
unfolding alloc
alloc-Allocates t = alloc_from-Allocates max_processes 0 max_processes t refl

-- After a release the slot can be allocated again, and the other slots are as they were.
pub free-slot_free :
    (t : Table) (i : ℕ)
    → (slot_free (free t (proc_ptr i)) i ≡ true)
      × ((q : ℕ) → q ≢ proc_ptr i → (free t (proc_ptr i)).procs q ≡ t.procs q)
unfolding free
free-slot_free t i = (ground arith, λ q ne. ground arith)

init_from_outside :
    (left i : ℕ) (t : Table) (q : ℕ)
    → (q < i + 1) ⊎ (i + left < q)
    → (init_from left i t).procs q ≡ t.procs q
unfolding init_from
init_from_outside zero i t q h = refl
init_from_outside (suc left) i t q h = ground (
  arith,
  init_from_outside left (i + 1)
      (put t (proc_ptr i) (record (t.procs (proc_ptr i)) { state = unused; pid = 0 })) q,
)

init_from-slot_free :
    (left i : ℕ) (t : Table) (j : ℕ)
    → i ≤ j
    → j < i + left
    → slot_free (init_from left i t) j ≡ true
unfolding init_from
init_from-slot_free zero i t j p q = absurd (omega arith)
init_from-slot_free (suc left) i t j p q = elim (Bool-cases (i == j)) [
  | inl e ↦ ground (arith, init_from_outside left (i + 1) cleared (proc_ptr j))
  | inr ne ↦ init_from-slot_free left (i + 1) cleared j (ground arith) (omega arith)
]
  where
    cleared : Table
    cleared = put t (proc_ptr i) (record (t.procs (proc_ptr i)) { state = unused; pid = 0 })

pub init-slot_free : (t : Table) (i : ℕ) → i < max_processes → slot_free (init t) i ≡ true
unfolding init
init-slot_free t i h = init_from-slot_free max_processes 0 t i (omega arith) h

first-slot :
    (t : Table) (r : ℕ × Table)
    → slot_free t 0 ≡ true
    → Allocates t 0 max_processes r
    → r.0 ≡ proc_ptr 0
first-slot t r f (inl (zero, a, b, p, c, taken, g)) = p
first-slot t r f (inl (suc j, a, b, p, c, taken, g)) =
    absurd (ground (arith, taken 0 (omega arith) (omega arith)))
first-slot t r f (inr (p, same, taken)) =
    absurd (ground (arith, taken 0 (omega arith) (omega arith)))

-- After `process_init` every slot is free, and `process_alloc` returns the first one.
pub init-alloc :
    (t : Table)
    → ((i : ℕ) → i < max_processes → slot_free (init t) i ≡ true)
      × ((alloc (init t)).0 ≡ proc_ptr 0)
init-alloc t = (
  init-slot_free t,
  first-slot (init t) (alloc (init t)) (init-slot_free t 0 (omega arith))
      (alloc-Allocates (init t)),
)
