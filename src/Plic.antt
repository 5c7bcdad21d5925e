-- ===== src/Plic.antt =====
-- The interrupt controller as drivers/plic/plic.c sets it up: the words of its registers by their
-- addresses. A read gives what stands there, for `plic_claim` what the device has put there.
pub mod Enabled
use riscv64_embedded_os.Prelude.{ℕ, ◌+◌, ◌-◌, ◌*◌, ◌/◌, ◌%◌, ◌^◌, bit_and, bit_or}
use riscv64_embedded_os.Mm.{Mem, write}

-- `PLIC_BASE`
abbrev pub plic_base : ℕ
plic_base = 0x0c00_0000

-- `PLIC_PRIORITY`, with its product of 32 bits
abbrev pub plic_priority : ℕ → ℕ
plic_priority id = plic_base + id * 4 % 2 ^ 32

-- `PLIC_ENABLE(0)`
abbrev pub plic_enable_base : ℕ
plic_enable_base = plic_base + 0x2000

-- `PLIC_THRESHOLD(0)`
abbrev pub plic_threshold : ℕ
plic_threshold = plic_base + 0x20_0000

-- `PLIC_CLAIM(0)`
abbrev pub plic_claim_base : ℕ
plic_claim_base = plic_base + 0x20_0004

-- `&enable[irq / 32]`
abbrev pub enable_word : ℕ → ℕ
enable_word irq = plic_enable_base + irq / 32 * 4

unfoldable pub init : Mem → Mem
init regs = write regs plic_threshold 0

unfoldable pub enable : Mem → ℕ → Mem
enable regs irq =
    let regs' = write regs (plic_priority irq) 1 in
    write regs' (enable_word irq) (bit_or (regs' (enable_word irq)) (2 ^ (irq % 32)))

unfoldable pub disable : Mem → ℕ → Mem
disable regs irq =
    write regs (enable_word irq) (bit_and (regs (enable_word irq)) (2 ^ 32 - 1 - 2 ^ (irq % 32)))

unfoldable pub claim : Mem → ℕ
claim regs = regs plic_claim_base

unfoldable pub complete : Mem → ℕ → Mem
complete regs irq = write regs plic_claim_base irq
