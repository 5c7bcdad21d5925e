-- ===== src/Printf.antt =====
-- `printf` of kernel/printf.c and `uart_puts` of drivers/uart/uart.c, as the characters that they
-- send. A `va_list` is the list of the 64-bit words that are passed. The text that a `char *` leads
-- to is an argument of the model. `none` stands for what C leaves undefined: a write behind `buf`,
-- an argument that was not passed, a
-- width that no `int` holds, a format that is read behind its end.
pub mod Number
pub mod Shown
pub mod Items
use riscv64_embedded_os.Prelude.{
  ℕ, zero, suc, ◌+◌, ◌-◌, ◌*◌, ◌/◌, ◌%◌, ◌^◌, Bool, not, ◌==◌, ltb, leb, ◌&&◌, ◌||◌, if◌then◌else◌,
  Option, none, some, List, [], ◌∷◌, ◌++◌, length, replicate,
}

-- characters
abbrev pub space : ℕ
space = 32

abbrev pub percent : ℕ
percent = 37

abbrev pub minus_sign : ℕ
minus_sign = 45

abbrev pub char_0 : ℕ
char_0 = 48

-- `sizeof buf`
abbrev pub buf_size : ℕ
buf_size = 32

-- `digits[d]`
abbrev pub digit : ℕ → ℕ
digit d = if ltb d 10 then char_0 + d else 87 + d

-- the loop over the digits, with `left` rounds at most
unfoldable pub digits_from : ℕ → ℕ → ℕ → List ℕ
digits_from zero num base = []
digits_from (suc left) num base =
    let rest = digits_from left (num / base) base in
    if num == 0 then [] else digit (num % base) ∷ rest

-- `buf` behind the digits: 64 rounds are enough for 64 bits
unfoldable pub digits : ℕ → ℕ → List ℕ
digits num base = if num == 0 then char_0 ∷ [] else digits_from 64 num base

-- `buf` behind the padding
unfoldable pub padded : ℕ → ℕ → List ℕ → List ℕ
padded width pad buf = buf ++ replicate (width - length buf) pad

abbrev pub reversed : List ℕ → List ℕ
reversed [] = []
reversed (c ∷ cs) = reversed cs ++ (c ∷ [])

-- `print_num`
unfoldable pub print_num : ℕ → ℕ → ℕ → ℕ → Option (List ℕ)
print_num num base width pad =
    let buf = padded width pad (digits num base) in
    if leb (length buf) buf_size then some (reversed buf) else none

-- `uart_puts`
unfoldable pub puts : List ℕ → List ℕ
puts [] = []
puts (c ∷ cs) = if c == 10 then 13 ∷ 10 ∷ puts cs else c ∷ puts cs

-- where the loop of `printf` stands: in the text, behind a `%`, or in a width
pub data Mode : Type 0 where
  text : Mode
  start : Mode
  field : ℕ → ℕ → Mode

-- what a character sends, and what is left of the arguments
abbrev pub Sent : Type 0
Sent = Option (List ℕ × List ℕ)

abbrev pub beside : List ℕ → Option (List ℕ) → Sent
beside args none = none
beside args (some out) = some (out, args)

abbrev pub behind : List ℕ → Option (List ℕ) → Option (List ℕ)
behind out none = none
behind out (some more) = some (out ++ more)

module _ (string_at : ℕ → List ℕ) where
  -- `case 'd'`
  unfoldable pub signed : ℕ → ℕ → ℕ → Option (List ℕ)
  signed num width pad =
      if leb (2 ^ 63) num
      then behind (minus_sign ∷ []) (print_num (2 ^ 64 - num) 10 width pad)
      else print_num num 10 width pad

  -- a conversion that takes the argument `num`
  unfoldable pub convert_arg : ℕ → ℕ → ℕ → ℕ → Option (List ℕ)
  convert_arg c num width pad =
      if c == 100
      then signed num width pad
      else if c == 117
      then print_num num 10 width pad
      else if c == 120
      then print_num num 16 width pad
      else if c == 112
      then behind (puts (48 ∷ 120 ∷ [])) (print_num num 16 16 char_0)
      else if c == 115
      then some (puts (if num == 0 then 40 ∷ 110 ∷ 117 ∷ 108 ∷ 108 ∷ 41 ∷ [] else string_at num))
      else some (num % 256 ∷ [])

  -- whether a conversion takes an argument
  abbrev pub takes_arg : ℕ → Bool
  takes_arg c = c == 100 || c == 117 || c == 120 || c == 112 || c == 115 || c == 99

  -- the `switch` on the conversion
  unfoldable pub convert : ℕ → ℕ → ℕ → List ℕ → Sent
  convert c width pad [] =
      if takes_arg c
      then none
      else if c == percent
      then some (percent ∷ [], [])
      else some (percent ∷ c ∷ [], [])
  convert c width pad (num ∷ args) =
      if takes_arg c
      then beside args (convert_arg c num width pad)
      else if c == percent
      then some (percent ∷ [], num ∷ args)
      else some (percent ∷ c ∷ [], num ∷ args)

  abbrev pub and_mode : Mode → Sent → Option (List ℕ × List ℕ × Mode)
  and_mode m none = none
  and_mode m (some (out, args)) = some (out, args, m)

  -- a character in a width, or the conversion behind it
  unfoldable pub field_step : ℕ → ℕ → ℕ → List ℕ → Option (List ℕ × List ℕ × Mode)
  field_step width pad c args =
      let wider = width * 10 + (c - char_0) in
      if not (leb char_0 c && leb c 57)
      then and_mode text (convert c width pad args)
      else if ltb wider (2 ^ 31)
      then some ([], args, field wider pad)
      else none

  -- a character of the format
  unfoldable pub step : Mode → ℕ → List ℕ → Option (List ℕ × List ℕ × Mode)
  step text c args =
      if c == percent
      then some ([], args, start)
      else if c == 10
      then some (13 ∷ 10 ∷ [], args, text)
      else some (c ∷ [], args, text)
  step start c args =
      if c == char_0 then some ([], args, field 0 char_0) else field_step 0 space c args
  step (field width pad) c args = field_step width pad c args

  -- the loop of `printf` over what is left of the format
  unfoldable pub format_from : List ℕ → Mode → List ℕ → Option (List ℕ)
  format_from [] text args = some []
  format_from [] start args = none
  format_from [] (field width pad) args = none
  format_from (c ∷ cs) m args = elim (step m c args) [
    | none ↦ none
    | some r ↦ behind r.0 (format_from cs r.2 r.1)
  ]

  -- `printf`
  unfoldable pub printf : List ℕ → List ℕ → Option (List ℕ)
  printf fmt args = format_from fmt text args
