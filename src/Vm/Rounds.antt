-- ===== src/Vm/Rounds.antt =====
-- How many rounds the loops of `mappages` and `unmappages` take.
use riscv64_embedded_os.Prelude.{ℕ, ◌+◌, ◌-◌, ◌*◌, ◌/◌, ◌%◌, ◌^◌, ◌≤◌, ◌<◌, ◌≡◌, arith, ◌↔◌}
use riscv64_embedded_os.Vm.{rounds, round_down}

-- `last`
abbrev pub last_page : ℕ → ℕ → ℕ
last_page va size = round_down ((va + size + 2 ^ 64 - 1) % 2 ^ 64)

-- Started at the page of a 64-bit `va`, the loop meets its condition `a == last` behind `rounds`
-- steps of a page, also when `va + size` wraps around, and at none of the steps before.
pub rounds-last :
    (va size i : ℕ)
    → va < 2 ^ 64
    → size < 2 ^ 64
    → i ≤ rounds va size
    → ((round_down va + i * 4096) % 2 ^ 64 ≡ last_page va size) ↔ (i ≡ rounds va size)
rounds-last va size i h k b = (λ e. omega arith, λ e. omega arith)

pub rounds_plain :
    (va size : ℕ)
    → 0 < size
    → va + size ≤ 2 ^ 64
    → rounds va size ≡ (va + size - 1) / 4096 - va / 4096
rounds_plain va size h k = omega arith
