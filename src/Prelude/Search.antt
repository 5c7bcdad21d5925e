-- ===== src/Prelude/Search.antt =====
-- The first index that passes a test: what the linear searches over arrays compute.
use Prim.Native.Nat.{ℕ, zero, suc, ◌+◌, ◌≤◌, ◌<◌}
use mathlib.Core.Path.{◌≡◌, refl}
use mathlib.Core.Logic.{◌⊎◌, inl, inr}
use mathlib.Core.Bool.{Bool, true, false}
use mathlib.Core.Option.{Option, none, some}
use native.Mathlib.Omega.{arith}
use riscv64_embedded_os.Prelude.Tests.{◌==◌, if◌then◌else◌, Bool-cases}

module _ (p : ℕ → Bool) where
  -- from index `i` on, with `left` to go
  unfoldable pub first : ℕ → ℕ → Option ℕ
  first zero i = none
  first (suc left) i = let rest = first left (i + 1) in if p i then some i else rest

  abbrev pub NoneIn : ℕ → ℕ → Type 0
  NoneIn i n = (k : ℕ) → i ≤ k → k < n → p k ≡ false

  abbrev pub IsFirst : ℕ → ℕ → Option ℕ → Type 0
  IsFirst i n r =
      ((j : ℕ) × (i ≤ j) × (j < n) × (p j ≡ true) × NoneIn i j × (r ≡ some j))
      ⊎ (NoneIn i n × (r ≡ none))

  NoneIn-cons : (i n : ℕ) → p i ≡ false → NoneIn (i + 1) n → NoneIn i n
  NoneIn-cons i n e h k a b = elim (Bool-cases (i == k)) [
    | inl same ↦ ground arith
    | inr ne ↦ h k (ground arith) b
  ]

  first-IsFirst : (left i n : ℕ) → i + left ≡ n → IsFirst i n (first left i)
  unfolding first
  first-IsFirst zero i n e = inr ((λ k a b. absurd (omega arith)), refl)
  first-IsFirst (suc left) i n e = elim (Bool-cases (p i)) [
    | inl hit ↦
        rw (hit, first)
          (inl (i, omega arith, omega arith, hit, (λ k a b. absurd (omega arith)), refl))
    | inr miss ↦ rw (miss, first) (later miss (first-IsFirst left (i + 1) n (omega arith)))
  ]
    where
      later :
          p i ≡ false → IsFirst (i + 1) n (first left (i + 1)) → IsFirst i n (first left (i + 1))
      later miss (inl (j, a, b, c, d, e')) = inl (j, omega arith, b, c, NoneIn-cons i j miss d, e')
      later miss (inr (d, e')) = inr (NoneIn-cons i n miss d, e')

  -- A search of the indices below `n`.
  pub first_below : (n : ℕ) → IsFirst 0 n (first n 0)
  first_below n = first-IsFirst n 0 n (omega arith)

pub first-same :
    (p q : ℕ → Bool) (left i n : ℕ)
    → i + left ≡ n
    → ((k : ℕ) → i ≤ k → k < n → p k ≡ q k)
    → first p left i ≡ first q left i
unfolding first
first-same p q zero i n e same = refl
first-same p q (suc left) i n e same = rw (
  same i (omega arith) (omega arith),
  first-same p q left (i + 1) n (omega arith) (λ k a b. same k (omega arith) b),
)
