-- ===== src/Uart/Polling.antt =====
-- That the driver's loops end when the device gets ready, and what is sent and received then.
use riscv64_embedded_os.Prelude.{
  ℕ, zero, suc, ◌+◌, ◌<◌, ◌≡◌, refl, ◌∙◌, ap, sym, false, ◌==◌, if◌then◌else◌, List, [], ◌∷◌, ◌++◌,
  Option, none, some, not, bit_and, arith, Bool-cases, inl, inr,
}
use mathlib.Core.List.{append_assoc, append-nil}
use riscv64_embedded_os.Uart.{
  Uart, tx_idle, rx_ready, polled, wait, transmit, putc, puts_from, puts, receive, getc, then_putc,
}

-- Of any `n` reads of the status that follow each other, one has the bit.
abbrev pub GetsReady : (ℕ → ℕ) → ℕ → ℕ → Type 0
GetsReady lsr mask n = (r : ℕ) → (k : ℕ) × (k < n) × ((bit_and (lsr (r + k)) mask == 0) ≡ false)

-- The call ends, and has sent this much.
abbrev pub Sends : Uart → List ℕ → Option Uart → Type 0
Sends u xs none = ⊥
Sends u xs (some v) = (v.sent ≡ u.sent ++ xs) × (v.received ≡ u.received)

-- The call ends with this character, and has sent nothing.
abbrev pub Receives : Uart → ℕ → Option (ℕ × Uart) → Type 0
Receives u c none = ⊥
Receives u c (some (d, v)) = (d ≡ c) × (v.received ≡ u.received + 1) × (v.sent ≡ u.sent)

-- a string with a carriage return in front of each newline
unfoldable pub with_returns : List ℕ → List ℕ
with_returns [] = []
with_returns (c ∷ s) = if c == 10 then 13 ∷ c ∷ with_returns s else c ∷ with_returns s

together :
    (xs : List ℕ) (c : ℕ) (s : List ℕ)
    → ((if c == 10 then xs ++ 13 ∷ [] else xs) ++ c ∷ []) ++ with_returns s
      ≡ xs ++ with_returns (c ∷ s)
unfolding with_returns
together xs c s = elim (Bool-cases (c == 10)) [
  | inl newline ↦ rw newline (
      append_assoc (xs ++ 13 ∷ []) (c ∷ []) (with_returns s)
      ∙ append_assoc xs (13 ∷ []) (c ∷ with_returns s))
  | inr other ↦ rw other (append_assoc xs (c ∷ []) (with_returns s))
]

-- The loop has ended: the status last read has the bit, and nothing was sent or received.
abbrev Waits : ℕ → Uart → Option Uart → Type 0
Waits mask u none = ⊥
Waits mask u (some v) =
    (v.sent ≡ u.sent)
    × (v.received ≡ u.received)
    × ((status : ℕ) × ((bit_and status mask == 0) ≡ false)
        × (v.takes ≡ not (bit_and status tx_idle == 0))
        × (v.has ≡ not (bit_and status rx_ready == 0)))

module _ (lsr rbr : ℕ → ℕ) (stale : ℕ) where
  wait-Waits :
      (n mask k : ℕ) (u : Uart)
      → k < n
      → (bit_and (lsr (u.polls + k)) mask == 0) ≡ false
      → Waits mask u (wait lsr rbr stale n mask u)
  unfolding wait
  wait-Waits zero mask k u h e = absurd (omega arith)
  wait-Waits (suc n) mask zero u h e =
      let same : u.polls + 0 ≡ u.polls = omega arith in
      let now = rw same at e in rw now (refl, refl, (lsr u.polls, now, refl, refl))
  wait-Waits (suc n) mask (suc k) u h e = elim (Bool-cases (bit_and (lsr u.polls) mask == 0)) [
    | inl busy ↦
        let same : u.polls + suc k ≡ u.polls + 1 + k = omega arith in
        rw busy (wait-Waits n mask k (polled (lsr u.polls) u) (omega arith) (rw same at e))
    | inr ready ↦ rw ready (refl, refl, (lsr u.polls, ready, refl, refl))
  ]

  -- A character that is written behind the loop is sent.
  transmit-Sends :
      (u : Uart) (c : ℕ) (r : Option Uart)
      → Waits tx_idle u r
      → Sends u (c ∷ []) (transmit lsr rbr stale c r)
  transmit-Sends u c none e = e
  transmit-Sends u c (some v) (e, f, (status, ready, takes, has)) =
      rw (takes, ready) (ap (λ xs. xs ++ c ∷ []) e, f)

  Sends-then :
      (u v : Uart) (xs ys : List ℕ) (r : Option Uart)
      → Sends u xs (some v)
      → Sends v ys r
      → Sends u (xs ++ ys) r
  Sends-then u v xs ys none a e = e
  Sends-then u v xs ys (some w) (a, b) (c, d) =
      (c ∙ ap (λ zs. zs ++ ys) a ∙ append_assoc u.sent xs ys, d ∙ b)

  -- A character that is read behind the loop is the next one.
  receive-Receives :
      (u : Uart) (r : Option Uart)
      → Waits rx_ready u r
      → Receives u (rbr u.received) (receive lsr rbr stale r)
  receive-Receives u none e = e
  receive-Receives u (some v) (e, f, (status, ready, takes, has)) =
      rw (has, ready) (ap rbr f, ap (λ i. i + 1) f, e)

  module _ (n : ℕ) (idles : GetsReady lsr tx_idle n) where
    putc-Sends : (u : Uart) (c : ℕ) → Sends u (c ∷ []) (putc lsr rbr stale n u c)
    unfolding putc
    putc-Sends u c =
        let (k, h, e) = idles u.polls in
        transmit-Sends u c (wait lsr rbr stale n tx_idle u) (wait-Waits n tx_idle k u h e)

    then_putc-Sends :
        (u : Uart) (xs : List ℕ) (c : ℕ) (r : Option Uart)
        → Sends u xs r
        → Sends u (xs ++ c ∷ []) (then_putc lsr rbr stale n r c)
    then_putc-Sends u xs c none e = e
    then_putc-Sends u xs c (some v) e =
        Sends-then u v xs (c ∷ []) (putc lsr rbr stale n v c) e (putc-Sends v c)

    with_return :
        (u : Uart) (xs : List ℕ) (c : ℕ) (r : Option Uart)
        → Sends u xs r
        → Sends u
            (if c == 10 then xs ++ 13 ∷ [] else xs)
            (if c == 10 then then_putc lsr rbr stale n r 13 else r)
    with_return u xs c r e = elim (Bool-cases (c == 10)) [
      | inl newline ↦ rw newline (then_putc-Sends u xs 13 r e)
      | inr other ↦ rw other e
    ]

    puts_from-Sends :
        (u : Uart) (xs s : List ℕ) (r : Option Uart)
        → Sends u xs r
        → Sends u (xs ++ with_returns s) (puts_from lsr rbr stale n r s)
    unfolding puts_from with_returns
    puts_from-Sends u xs [] r e = rw (append-nil xs) e
    puts_from-Sends u xs (c ∷ s) r e = rw (← together xs c s) (
        puts_from-Sends u ((if c == 10 then xs ++ 13 ∷ [] else xs) ++ c ∷ []) s
          (then_putc lsr rbr stale n (if c == 10 then then_putc lsr rbr stale n r 13 else r) c)
          (then_putc-Sends u (if c == 10 then xs ++ 13 ∷ [] else xs) c
            (if c == 10 then then_putc lsr rbr stale n r 13 else r) (with_return u xs c r e)))

  -- If of any `n` reads of the status that follow each other one shows that the transmitter is idle,
  -- and of any `m` one that there is a character, then `uart_puts`, whose loops wait for `n` rounds at
  -- most, ends and has sent the characters of the string, each newline behind a carriage return; and
  -- `uart_getc` ends within `m` rounds, and returns the next character.
  pub puts-Sends :
      (n m : ℕ) (u : Uart) (s : List ℕ)
      → GetsReady lsr tx_idle n
      → GetsReady lsr rx_ready m
      → Sends u (with_returns s) (puts lsr rbr stale n u s)
        × Receives u (rbr u.received) (getc lsr rbr stale m u)
  unfolding puts getc
  puts-Sends n m u s idles ready =
      let (k, h, e) = ready u.polls in
      (
        puts_from-Sends n idles u [] s (some u) (sym (append-nil u.sent), refl),
        receive-Receives u (wait lsr rbr stale m rx_ready u) (wait-Waits m rx_ready k u h e),
      )
