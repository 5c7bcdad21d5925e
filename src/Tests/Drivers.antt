-- ===== src/Tests/Drivers.antt =====
-- The UART and the interrupt controller at concrete inputs.
use riscv64_embedded_os.Prelude.{ℕ, false, ◌+◌, ◌≡◌, refl, ◌&&◌, ◌||◌, not, ◌==◌, [], ◌∷◌, arith}
use riscv64_embedded_os.Mm.{Mem}
use riscv64_embedded_os.Plic.{enable, disable, init, plic_threshold}
use riscv64_embedded_os.Plic.Enabled.{delivers, enable-delivers}
use riscv64_embedded_os.Uart.{Uart, puts, getc}
use riscv64_embedded_os.Uart.Polling.{Sends, Receives, with_returns, puts-Sends}

abbrev registers : Mem
registers a = 0

enable-delivers_example :
    (delivers (enable registers 10) 42 ≡ (delivers registers 42 || (42 == 10)))
    × (delivers (disable registers 10) 42 ≡ (delivers registers 42 && not (42 == 10)))
    × (enable registers 10 plic_threshold ≡ 0)
    × (disable registers 10 plic_threshold ≡ 0)
unfolding init
enable-delivers_example = enable-delivers registers 10 42 (omega arith) (omega arith) refl

-- the transmitter is always idle, and there is always a character
abbrev status : ℕ → ℕ
status r = 33

abbrev letters : ℕ → ℕ
letters i = 97 + i

abbrev quiet : Uart
quiet = record { polls = 0; received = 0; sent = 62 ∷ []; takes = false; has = false }

puts-Sends_example :
    Sends quiet (with_returns (72 ∷ 10 ∷ [])) (puts status letters 0 1 quiet (72 ∷ 10 ∷ []))
    × Receives quiet 97 (getc status letters 0 1 quiet)
puts-Sends_example =
    puts-Sends status letters 0 1 1 quiet (72 ∷ 10 ∷ []) (λ r. (0, omega arith, refl))
      (λ r. (0, omega arith, refl))
