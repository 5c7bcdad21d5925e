-- ===== src/Vm/Places.antt =====
-- The order in which `vm_free` of kernel/mm/vm.c gives the tables back, and a round of its loop.
use riscv64_embedded_os.Prelude.{
  ℕ, zero, suc, ◌+◌, ◌*◌, ◌^◌, ◌≤◌, ◌<◌, ◌≡◌, true, false, List, [], ◌∷◌, arith, length, Bool-cases,
  inl, inr,
}
use riscv64_embedded_os.Mm.{Mm, Mem, free_page}
use riscv64_embedded_os.Vm.{pte_valid, pte2pa}
use riscv64_embedded_os.Vm.Free.{accessible, is_table, once, free_entries, push_tables}

-- how many tables there are at most below an entry whose table is at `level`, with that table
abbrev pub span : ℕ → ℕ
span zero = 1
span (suc level) = 512 * span level + 1

-- in the order in which tables are given back, the number of the first one under a path
abbrev pub start : List ℕ → ℕ
start [] = 0
start (a ∷ []) = a * 513
start (b ∷ a ∷ p) = a * 513 + b

-- and the number of the table itself
abbrev pub place : List ℕ → ℕ
place [] = 262656
place (a ∷ []) = a * 513 + 512
place (b ∷ a ∷ p) = a * 513 + b

pub start-child :
    (level i : ℕ) (p : List ℕ) → length p + suc level ≡ 2 → start (i ∷ p) ≡ start p + i * span level
start-child zero i [] e = absurd (omega (arith, e))
start-child zero i (a ∷ []) e = omega arith
start-child zero i (b ∷ a ∷ p) e = absurd (omega (arith, e))
start-child (suc zero) i [] e = omega arith
start-child (suc zero) i (a ∷ p) e = absurd (omega (arith, e))
start-child (suc (suc level)) i p e = absurd (omega (arith, e))

pub place-start :
    (level : ℕ) (p : List ℕ) → length p + level ≡ 2 → place p + 1 ≡ start p + span level
place-start zero [] e = absurd (omega (arith, e))
place-start zero (a ∷ []) e = absurd (omega (arith, e))
place-start zero (b ∷ a ∷ p) e = omega arith
place-start (suc zero) [] e = absurd (omega (arith, e))
place-start (suc zero) (a ∷ []) e = omega arith
place-start (suc zero) (b ∷ a ∷ p) e = absurd (omega (arith, e))
place-start (suc (suc zero)) [] e = omega arith
place-start (suc (suc zero)) (a ∷ p) e = absurd (omega (arith, e))
place-start (suc (suc (suc level))) p e = absurd (omega (arith, e))

pub mul_next : (i w : ℕ) → (i + 1) * w ≡ i * w + w
mul_next i w = omega arith

-- the place that the loop has come to at index `i`
pub loop_place :
    (level i : ℕ) (p : List ℕ)
    → length p + suc level ≡ 2
    → i ≤ 512
    → start p + i * span level ≤ place p
loop_place zero i [] e h = absurd (omega (arith, e))
loop_place zero i (a ∷ []) e h = omega (arith, h)
loop_place zero i (b ∷ a ∷ p) e h = absurd (omega (arith, e))
loop_place (suc zero) i [] e h = omega (arith, h)
loop_place (suc zero) i (a ∷ p) e h = absurd (omega (arith, e))
loop_place (suc (suc level)) i p e h = absurd (omega (arith, e))

pub place-child :
    (level i : ℕ) (p : List ℕ)
    → length p + suc level ≡ 2
    → place (i ∷ p) + 1 ≡ start p + (i + 1) * span level
place-child zero i [] e = absurd (omega (arith, e))
place-child zero i (a ∷ []) e = omega arith
place-child zero i (b ∷ a ∷ p) e = absurd (omega (arith, e))
place-child (suc zero) i [] e = omega arith
place-child (suc zero) i (a ∷ p) e = absurd (omega (arith, e))
place-child (suc (suc level)) i p e = absurd (omega (arith, e))

pub last_place : (p : List ℕ) → length p ≡ 2 → (i : ℕ) → start p + i * 0 ≡ place p
last_place [] e i = absurd (omega (arith, e))
last_place (a ∷ []) e i = absurd (omega (arith, e))
last_place (b ∷ a ∷ p) e i = omega arith

-- a round of the loop at an entry that leads to no table, and at one that does
pub free_entries-other :
    (depth left i : ℕ) (s : Mm) (x : ℕ)
    → is_table (s.mem (x + i * 8)) ≡ false
    → free_entries depth (suc left) i s x ≡ free_entries depth left (i + 1) s x
unfolding free_entries
free_entries-other zero left i s x e = rw e
free_entries-other (suc depth) left i s x e = rw e

pub free_entries-table :
    (depth left i : ℕ) (s : Mm) (x y : ℕ)
    → is_table (s.mem (x + i * 8)) ≡ true
    → pte2pa (s.mem (x + i * 8)) ≡ y
    → free_entries (suc depth) (suc left) i s x
      ≡ once
          (free_entries depth 512 0 s y)
          λ t. free_entries (suc depth) left (i + 1) (free_page t y) x
unfolding free_entries
free_entries-table depth left i s x y e h = rw (e, h)

pub push_tables-other :
    (level left i : ℕ) (mem : Mem) (x : ℕ) (ys : List ℕ)
    → is_table (mem (x + i * 8)) ≡ false
    → push_tables (suc level) (suc left) i mem x ys ≡ push_tables (suc level) left (i + 1) mem x ys
unfolding push_tables
push_tables-other level left i mem x ys e = rw e

pub push_tables-table :
    (level left i : ℕ) (mem : Mem) (x y : ℕ) (ys : List ℕ)
    → is_table (mem (x + i * 8)) ≡ true
    → pte2pa (mem (x + i * 8)) ≡ y
    → push_tables (suc level) (suc left) i mem x ys
      ≡ push_tables (suc level) left (i + 1) mem x (y ∷ push_tables level 512 0 mem y ys)
unfolding push_tables
push_tables-table level left i mem x y ys e h = rw (e, h)

pub is_table-valid : (pte : ℕ) → is_table pte ≡ true → pte_valid pte ≡ true
unfolding is_table
is_table-valid pte e = ground (arith, e)

pub accessible_plain :
    (pte : ℕ) → (pte_valid pte ≡ true → accessible pte ≡ true) → is_table pte ≡ false
unfolding is_table
accessible_plain pte h = elim (Bool-cases (pte_valid pte)) [ inl e ↦ rw (e, h e) | inr e ↦ rw e ]

pub pte2pa-lt : (pte : ℕ) → pte2pa pte < 2 ^ 64
unfolding pte2pa
pte2pa-lt pte = omega arith
