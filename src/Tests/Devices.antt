-- ===== src/Tests/Devices.antt =====
-- The test device and the ELF loader at concrete inputs.
use riscv64_embedded_os.Prelude.{ℕ, ◌+◌, ◌≡◌, [], ◌∷◌, ◌⊎◌, some, none, get_or}
use riscv64_embedded_os.Prelude.Int.{pos, minus_one}
use riscv64_embedded_os.Testdev.{Testdev}
use riscv64_embedded_os.Elf.{load, read_ehdr}
use riscv64_embedded_os.Elf.Accepts.{Loadable, load-Loadable}

-- five bytes of data in front of other memory
abbrev device : Testdev
device = record { buffer = λ i. i + 40; len = 5 }

-- the header of an executable without segments
abbrev program : ℕ → ℕ
program i =
    get_or
      (0x7f ∷ 69 ∷ 76 ∷ 70 ∷ 2 ∷ 1 ∷ 1 ∷ 0 ∷ 0 ∷ 0 ∷ 0 ∷ 0 ∷ 0 ∷ 0 ∷ 0 ∷ 0 ∷ 2 ∷ 0 ∷ 243 ∷ 0 ∷ []) i
      0

load-Loadable_example :
    ((load program ≡ (pos 0, some (read_ehdr program).e_entry)) × Loadable program)
    ⊎ ((load program ≡ (minus_one, none)) × ¬ Loadable program)
load-Loadable_example = load-Loadable program
