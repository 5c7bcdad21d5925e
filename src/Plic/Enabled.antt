-- ===== src/Plic/Enabled.antt =====
-- Which interrupts the controller lets through.
use riscv64_embedded_os.Prelude.{
  Bool-cases, inl, inr, ℕ, suc, ◌-◌, ◌/◌, ◌%◌, ◌^◌, ◌<◌, ◌≡◌, ◌∙◌, Bool, not, ◌&&◌, ◌||◌, ltb,
  arith, ◌==◌, bit, bit_or, bit_and, bit-bit_or, bit-bit_and, bit_power, bit_complement, ℕ_discrete,
  if◌then◌else◌,
}
use native.Mathlib.Nat.{pow-suc, one-le-pow, pow-le-pow_right}
use riscv64_embedded_os.Mm.{Mem}
use riscv64_embedded_os.Plic.{enable, disable, init, enable_word, plic_priority, plic_threshold}

-- An interrupt is let through when its bit is set and its priority is above the threshold.
unfoldable pub is_enabled : Mem → ℕ → Bool
is_enabled regs k = bit (k % 32) (regs (enable_word k))

unfoldable pub delivers : Mem → ℕ → Bool
delivers regs k = is_enabled regs k && ltb (regs plic_threshold) (regs (plic_priority k))

two_pow-lt : (m w : ℕ) → m < w → 2 ^ m < 2 ^ w
two_pow-lt m w h = omega (
  arith,
  pow-suc 2 m,
  one-le-pow m 2 (omega arith),
  pow-le-pow_right {n = 2} (omega arith) {i = suc m} {j = w} (omega arith),
)

-- the words behind a call
enable-word :
    (regs : Mem) (irq k : ℕ)
    → irq < 1024
    → k < 1024
    → enable regs irq (enable_word k) ≡ (
        if k / 32 == irq / 32
        then bit_or (regs (enable_word k)) (2 ^ (irq % 32))
        else regs (enable_word k))
unfolding enable
enable-word regs irq k h l = elim (ℕ_discrete (k / 32) (irq / 32)) [
  | yes e ↦ ground (arith, e)
  | no ne ↦ ground (arith, ne)
]

disable-word :
    (regs : Mem) (irq k : ℕ)
    → disable regs irq (enable_word k) ≡ (
        if k / 32 == irq / 32
        then bit_and (regs (enable_word k)) (2 ^ 32 - 1 - 2 ^ (irq % 32))
        else regs (enable_word k))
unfolding disable
disable-word regs irq k = ground arith

enable-priority :
    (regs : Mem) (irq k : ℕ)
    → irq < 1024
    → k < 1024
    → enable regs irq (plic_priority k) ≡ (if k == irq then 1 else regs (plic_priority k))
unfolding enable
enable-priority regs irq k h l = ground arith

enable-is_enabled :
    (regs : Mem) (irq k : ℕ)
    → irq < 1024
    → k < 1024
    → is_enabled (enable regs irq) k ≡ (is_enabled regs k || (k == irq))
unfolding is_enabled
enable-is_enabled regs irq k h l = elim (Bool-cases (k / 32 == irq / 32)) [
  | inl e ↦
      rw (enable-word regs irq k h l, e)
        (bit-bit_or (k % 32) (regs (enable_word k)) (2 ^ (irq % 32))
          ∙ rw (bit_power (k % 32) (irq % 32)) (ground (arith, e)))
  | inr e ↦ rw (enable-word regs irq k h l, e) (ground (arith, e))
]

disable-is_enabled :
    (regs : Mem) (irq k : ℕ)
    → is_enabled (disable regs irq) k ≡ (is_enabled regs k && not (k == irq))
unfolding is_enabled
disable-is_enabled regs irq k = elim (Bool-cases (k / 32 == irq / 32)) [
  | inl e ↦
      rw (disable-word regs irq k, e)
        (bit-bit_and (k % 32) (regs (enable_word k)) (2 ^ 32 - 1 - 2 ^ (irq % 32))
          ∙ rw
              (
                bit_complement (k % 32) 32 (2 ^ (irq % 32)) (omega arith)
                    (two_pow-lt (irq % 32) 32 (omega arith)),
                bit_power (k % 32) (irq % 32),
              )
              (ground (arith, e)))
  | inr e ↦ rw (disable-word regs irq k, e) (ground (arith, e))
]

disable-priority :
    (regs : Mem) (irq k : ℕ)
    → irq < 1024
    → k < 1024
    → disable regs irq (plic_priority k) ≡ regs (plic_priority k)
unfolding disable
disable-priority regs irq k h l = ground arith

thresholds :
    (regs : Mem) (irq : ℕ)
    → irq < 1024
    → (init regs plic_threshold ≡ 0)
      × (enable regs irq plic_threshold ≡ regs plic_threshold)
      × (disable regs irq plic_threshold ≡ regs plic_threshold)
unfolding init enable disable
thresholds regs irq h = (ground arith, ground arith, ground arith)

-- For the 1024 interrupts of the controller, the threshold 0, which is what `plic_init` sets:
-- `plic_enable` lets the interrupt through and `plic_disable` stops it, and any other one is let
-- through behind the call exactly when it was before. The threshold stays as it is.
pub enable-delivers :
    (regs : Mem) (irq k : ℕ)
    → irq < 1024
    → k < 1024
    → regs plic_threshold ≡ init regs plic_threshold
    → (delivers (enable regs irq) k ≡ (delivers regs k || (k == irq)))
      × (delivers (disable regs irq) k ≡ (delivers regs k && not (k == irq)))
      × (enable regs irq plic_threshold ≡ 0)
      × (disable regs irq plic_threshold ≡ 0)
unfolding delivers
enable-delivers regs irq k h l e =
    let (zero_is, kept, kept') = thresholds regs irq h in
    let none_above = e ∙ zero_is in
    (
      rw (enable-is_enabled regs irq k h l, enable-priority regs irq k h l, kept, none_above)
          (elim (Bool-cases (k == irq)) [
            | inl s ↦ rw s (ground arith)
            | inr s ↦ rw s (ground arith)
          ]),
      rw (disable-is_enabled regs irq k, disable-priority regs irq k h l, kept', none_above)
          (ground arith),
      kept ∙ none_above,
      kept' ∙ none_above,
    )
