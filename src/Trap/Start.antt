-- ===== src/Trap/Start.antt =====
-- The control registers behind `trap_init` of kernel/trap/trap.c.
use riscv64_embedded_os.Prelude.{
  ℕ, ◌^◌, ◌≡◌, refl, ◌∙◌, ap, Bool, ◌||◌, ◌==◌, bit_or, bit, bit-bit_or, bit_power,
}
use riscv64_embedded_os.Machine.{
  Csrs, sstatus_sie, sie_ssie, sie_stie, sie_seie, r_sstatus, w_sstatus, r_sie, w_sie, w_stvec,
}

-- `trap_init`, with the address of `trap_entry`
unfoldable pub init : ℕ → Csrs → Csrs
init trap_entry c =
    let c1 = w_stvec c trap_entry in
    let c2 = w_sie c1 (bit_or (bit_or (bit_or (r_sie c1) sie_seie) sie_stie) sie_ssie) in
    w_sstatus c2 (bit_or (r_sstatus c2) sstatus_sie)

bit-set : (k n m : ℕ) → bit k (bit_or n (2 ^ m)) ≡ (bit k n || (k == m))
bit-set k n m = bit-bit_or k n (2 ^ m) ∙ ap (λ (b : Bool). bit k n || b) (bit_power k m)

-- Behind `trap_init` traps enter at `trap_entry`; software, timer and external interrupts, the bits
-- 1, 5 and 9, are enabled, and so is the supervisor's taking of interrupts, bit 1 of `sstatus`. All
-- other bits of these registers are as before, and so is `satp`.
pub init-Enables :
    (trap_entry : ℕ) (c : Csrs)
    → let d = init trap_entry c in
      (d.stvec ≡ trap_entry)
      × ((k : ℕ) → bit k d.sie ≡ (((bit k c.sie || (k == 9)) || (k == 5)) || (k == 1)))
      × ((k : ℕ) → bit k d.sstatus ≡ (bit k c.sstatus || (k == 1)))
      × (d.satp ≡ c.satp)
unfolding init
init-Enables trap_entry c = (
  refl,
  (λ k.
      bit-set k (bit_or (bit_or c.sie (2 ^ 9)) (2 ^ 5)) 1
      ∙ ap (λ (b : Bool). b || (k == 1))
          (bit-set k (bit_or c.sie (2 ^ 9)) 5
            ∙ ap (λ (b : Bool). b || (k == 5)) (bit-set k c.sie 9))),
  (λ k. bit-set k c.sstatus 1),
  refl,
)
