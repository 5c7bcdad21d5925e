-- ===== src/Prelude/BitTests.antt =====
-- Single bits of a number, and what `|`, `&` and the complement do to them.
use Prim.Native.Nat.{
  ℕ, zero, suc, ◌+◌, ◌-◌, ◌*◌, ◌/◌, ◌%◌, ◌^◌, ◌≤◌, ◌<◌, min, max, bit_or, bit_or-bitwise, bit_and,
  bit_and-bitwise, digits,
}
use mathlib.Core.Path.{◌≡◌, refl, ap, ◌∙◌}
use mathlib.Core.Bool.{Bool, false, not, ◌&&◌, ◌||◌}
use native.Mathlib.Nat.{pow-suc}
use native.Mathlib.Omega.{arith}
use riscv64_embedded_os.Prelude.Tests.{◌==◌}

-- the bit `k`
unfoldable pub bit : ℕ → ℕ → Bool
bit zero n = n % 2 == 1
bit (suc k) n = bit k (n / 2)

bit_zero : (k : ℕ) → bit k 0 ≡ false
unfolding bit
bit_zero zero = refl
bit_zero (suc k) = bit_zero k

-- a digit joined to the digits above it
bit-low : (x d : ℕ) → d ≤ 1 → bit 0 (x * 2 + d) ≡ (d == 1)
unfolding bit
bit-low x d h = ground arith

bit-high : (k x d : ℕ) → d ≤ 1 → bit (suc k) (x * 2 + d) ≡ bit k x
unfolding bit
bit-high k x d h = ap (bit k) (omega arith)

max_bits :
    (a b : ℕ) → (max (a % 2) (b % 2) ≤ 1) × ((max (a % 2) (b % 2) == 1) ≡ (bit 0 a || bit 0 b))
unfolding bit
max_bits a b = (omega arith, ground arith)

min_bits :
    (a b : ℕ) → (min (a % 2) (b % 2) ≤ 1) × ((min (a % 2) (b % 2) == 1) ≡ (bit 0 a && bit 0 b))
unfolding bit
min_bits a b = (omega arith, ground arith)

bit-digits_or : (n k a b : ℕ) → a ≤ n → bit k (digits (λ y. y) max n a b) ≡ (bit k a || bit k b)
bit-digits_or zero k zero b h = rw (bit_zero k) refl
bit-digits_or zero k (suc a) b h = absurd (omega arith)
bit-digits_or (suc n) k zero b h = rw (bit_zero k) refl
bit-digits_or (suc n) zero (suc a) b h = let m = max_bits (suc a) b in bit-low _ _ m.0 ∙ m.1
bit-digits_or (suc n) (suc k) (suc a) b h =
    bit-high k _ _ (max_bits (suc a) b).0
    ∙ bit-digits_or n k (suc a / 2) (b / 2) (omega arith)
    ∙ unfold bit in refl

bit-digits_and : (n k a b : ℕ) → a ≤ n → bit k (digits (λ y. zero) min n a b) ≡ (bit k a && bit k b)
bit-digits_and zero k zero b h = rw (bit_zero k) refl
bit-digits_and zero k (suc a) b h = absurd (omega arith)
bit-digits_and (suc n) k zero b h = rw (bit_zero k) refl
bit-digits_and (suc n) zero (suc a) b h = let m = min_bits (suc a) b in bit-low _ _ m.0 ∙ m.1
bit-digits_and (suc n) (suc k) (suc a) b h =
    bit-high k _ _ (min_bits (suc a) b).0
    ∙ bit-digits_and n k (suc a / 2) (b / 2) (omega arith)
    ∙ unfold bit in refl

pub bit-bit_or : (k a b : ℕ) → bit k (bit_or a b) ≡ (bit k a || bit k b)
bit-bit_or k a b = ap (bit k) (bit_or-bitwise a b) ∙ bit-digits_or a k a b (omega arith)

pub bit-bit_and : (k a b : ℕ) → bit k (bit_and a b) ≡ (bit k a && bit k b)
bit-bit_and k a b = ap (bit k) (bit_and-bitwise a b) ∙ bit-digits_and a k a b (omega arith)

-- `1 << m`
pub bit_power : (k m : ℕ) → bit k (2 ^ m) ≡ (k == m)
unfolding bit
bit_power zero zero = refl
bit_power zero (suc m) = ground (arith, pow-suc 2 m)
bit_power (suc k) zero = bit_zero k ∙ ground arith
bit_power (suc k) (suc m) = ap (bit k) (omega (arith, pow-suc 2 m)) ∙ bit_power k m ∙ ground arith

-- `~n` of `w` bits
pub bit_complement : (k w n : ℕ) → k < w → n < 2 ^ w → bit k (2 ^ w - 1 - n) ≡ not (bit k n)
unfolding bit
bit_complement k zero n h l = absurd (omega arith)
bit_complement zero (suc w) n h l = ground (arith, pow-suc 2 w)
bit_complement (suc k) (suc w) n h l =
    ap (bit k) (omega (arith, pow-suc 2 w))
    ∙ bit_complement k w (n / 2) (omega arith) (omega (arith, pow-suc 2 w))
