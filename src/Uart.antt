-- ===== src/Uart.antt =====
-- The polling driver of drivers/uart/uart.c. What the device shows is given: `lsr` and `rbr` are the
-- values of its status and its receive register, by how often each has been read before, and `stale`
-- is what the receive register gives when no character is there. The device takes a character that
-- is written, and hands one out, only when the last read of the status has shown that it is ready
-- for that, and then once: else what is written is lost. A string is the list of its characters
-- before the NUL. `uart_init` does nothing.
pub mod Polling
use riscv64_embedded_os.Prelude.{
  ℕ, zero, suc, ◌+◌, ◌^◌, ◌==◌, if◌then◌else◌, Bool, false, not, List, [], ◌∷◌, ◌++◌, Option, none,
  some, bit_and,
}

-- how often the registers were read, what was sent, and whether the device is known to take a
-- character and to have one
pub record Uart : Type 0 where
  pub polls : ℕ
  pub received : ℕ
  pub sent : List ℕ
  pub takes : Bool
  pub has : Bool

-- `UART_LSR_TX_IDLE`
abbrev pub tx_idle : ℕ
tx_idle = 2 ^ 5

-- `UART_LSR_RX_READY`
abbrev pub rx_ready : ℕ
rx_ready = 2 ^ 0

-- `READ_REG(UART_LSR)`, which has given `status`
abbrev pub polled : ℕ → Uart → Uart
polled status u = record u {
  polls = u.polls + 1;
  takes = not (bit_and status tx_idle == 0);
  has = not (bit_and status rx_ready == 0);
}

module _ (lsr rbr : ℕ → ℕ) (stale : ℕ) where
  -- the loop that waits for a bit of the status, of as many rounds at most
  unfoldable pub wait : ℕ → ℕ → Uart → Option Uart
  wait zero mask u = none
  wait (suc rounds) mask u =
      let next = polled (lsr u.polls) u in
      let rest = wait rounds mask next in
      if bit_and (lsr u.polls) mask == 0 then rest else some next

  -- `WRITE_REG(UART_THR, c)`, once the loop has ended
  abbrev pub transmit : ℕ → Option Uart → Option Uart
  transmit c none = none
  transmit c (some u) =
      some (record u { sent = if u.takes then u.sent ++ c ∷ [] else u.sent; takes = false })

  -- `uart_putc`
  unfoldable pub putc : ℕ → Uart → ℕ → Option Uart
  putc rounds u c = transmit c (wait rounds tx_idle u)

  -- `uart_putc` behind another call
  abbrev pub then_putc : ℕ → Option Uart → ℕ → Option Uart
  then_putc rounds none c = none
  then_putc rounds (some u) c = putc rounds u c

  -- the loop of `uart_puts`, behind the calls before
  unfoldable pub puts_from : ℕ → Option Uart → List ℕ → Option Uart
  puts_from rounds r [] = r
  puts_from rounds r (c ∷ s) =
      puts_from rounds (then_putc rounds (if c == 10 then then_putc rounds r 13 else r) c) s

  -- `uart_puts`
  unfoldable pub puts : ℕ → Uart → List ℕ → Option Uart
  unfolding puts_from
  puts rounds u s = puts_from rounds (some u) s

  -- `READ_REG(UART_RBR)`, once the loop has ended
  abbrev pub receive : Option Uart → Option (ℕ × Uart)
  receive none = none
  receive (some u) = some (
      if u.has
      then (rbr u.received, record u { received = u.received + 1; has = false })
      else (stale, u))

  -- `uart_getc`
  unfoldable pub getc : ℕ → Uart → Option (ℕ × Uart)
  getc rounds u = receive (wait rounds rx_ready u)

  -- `uart_has_char`
  unfoldable pub has_char : Uart → Bool × Uart
  has_char u = (not (bit_and (lsr u.polls) rx_ready == 0), polled (lsr u.polls) u)
