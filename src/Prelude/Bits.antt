-- ===== src/Prelude/Bits.antt =====
-- `|` of disjoint fields and of the lowest bit, as arithmetic.
use Prim.Native.Nat.{
  ℕ, zero, suc, ◌+◌, ◌-◌, ◌*◌, ◌/◌, ◌%◌, ◌^◌, ◌≤◌, ◌<◌, max, bit_or, bit_or-bitwise, digits,
}
use mathlib.Core.Path.{◌≡◌, refl, ap, ◌∙◌}
use native.Mathlib.Nat.{pow-suc}
use native.Mathlib.Omega.{arith}

-- the recursion that `bit_or` stands for, with fuel `n`
abbrev or_digits : ℕ → ℕ → ℕ → ℕ
or_digits n a b = digits (λ y. y) max n a b

or_digits_zero : (n a : ℕ) → a ≤ n → or_digits n a 0 ≡ a
or_digits_zero zero a h = omega arith
or_digits_zero (suc n) zero h = refl
or_digits_zero (suc n) (suc a) h = omega (arith, or_digits_zero n (suc a / 2) (omega arith))

mul_two_pow : (q k : ℕ) → q * 2 ^ suc k ≡ 2 * (q * 2 ^ k)
mul_two_pow q k = omega (arith, ap (λ (t : ℕ). q * t) (pow-suc 2 k))

or_digits_fields : (n k q a r : ℕ) → a ≤ n → a ≡ q * 2 ^ k → r < 2 ^ k → or_digits n a r ≡ a + r
or_digits_fields n zero q a r h e fits =
    let none_set : r ≡ 0 = omega arith in rw none_set (or_digits_zero n a h ∙ omega arith)
or_digits_fields zero (suc k) q zero r h e fits = omega arith
or_digits_fields zero (suc k) q (suc a) r h e fits = absurd (omega arith)
or_digits_fields (suc n) (suc k) q zero r h e fits = omega arith
or_digits_fields (suc n) (suc k) q (suc a) r h e fits = omega (
  arith,
  mul_two_pow q k,
  or_digits_fields n k q (suc a / 2) (r / 2) (omega arith) (omega (arith, mul_two_pow q k))
      (omega (arith, pow-suc 2 k)),
)

-- `(q << k) | r` is a sum when `r` fits `k` bits.
pub bit_or-fields : (k q r : ℕ) → r < 2 ^ k → bit_or (q * 2 ^ k) r ≡ q * 2 ^ k + r
bit_or-fields k q r fits =
    bit_or-bitwise (q * 2 ^ k) r
    ∙ or_digits_fields (q * 2 ^ k) k q (q * 2 ^ k) r (omega arith) refl fits

or_digits_one : (n a : ℕ) → a ≤ n → or_digits n a 1 ≡ a + (1 - a % 2)
or_digits_one zero zero h = refl
or_digits_one zero (suc a) h = absurd (omega arith)
or_digits_one (suc n) zero h = refl
or_digits_one (suc n) (suc a) h = omega (arith, or_digits_zero n (suc a / 2) (omega arith))

-- `n | 1`
pub bit_or-one : (n : ℕ) → bit_or n 1 ≡ n + (1 - n % 2)
bit_or-one n = bit_or-bitwise n 1 ∙ or_digits_one n n (omega arith)
