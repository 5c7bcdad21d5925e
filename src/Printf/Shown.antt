-- ===== src/Printf/Shown.antt =====
-- What a conversion of `printf` in kernel/printf.c shows, without the code's buffer: numerals with
-- their highest digit first, filled on the left up to the width, and at most 32 characters of them.
use riscv64_embedded_os.Prelude.{
  ℕ, zero, suc, ◌+◌, ◌-◌, ◌/◌, ◌%◌, ◌^◌, ◌≡◌, refl, ◌∙◌, ap, sym, Bool, true, false, ◌==◌, ltb, leb,
  ◌||◌, if◌then◌else◌, Option, none, some, List, [], ◌∷◌, ◌++◌, length, replicate, arith,
  length-append, length-replicate, Bool-cases, inl, inr,
}
use mathlib.Core.List.{append_assoc, append-nil}
use riscv64_embedded_os.Printf.Number.{length-reversed}
use riscv64_embedded_os.Printf.{
  Sent, beside, behind, digit, digits_from, digits, padded, reversed, print_num, puts, signed,
  convert_arg, convert, takes_arg,
}

-- "0" to "9", then "a" to "z"
abbrev pub symbol : ℕ → ℕ
symbol d = if ltb 9 d then 97 + (d - 10) else 48 + d

-- the digits of a number that is not 0, of at most `n` digits
unfoldable pub significant : ℕ → ℕ → ℕ → List ℕ
significant zero base num = []
significant (suc n) base num =
    let higher = significant n base (num / base) in
    if num == 0 then [] else higher ++ symbol (num % base) ∷ []

-- a number of 64 bits
unfoldable pub numeral : ℕ → ℕ → List ℕ
numeral base num = if num == 0 then 48 ∷ [] else significant 64 base num

-- a text filled on the left, unless that takes more than 32 characters
unfoldable pub filled : ℕ → ℕ → List ℕ → Option (List ℕ)
filled width pad xs =
    if ltb 32 (length xs) || ltb 32 width
    then none
    else some (replicate (width - length xs) pad ++ xs)

-- the characters of a text, each line feed behind a carriage return
unfoldable pub with_returns : List ℕ → List ℕ
with_returns [] = []
with_returns (c ∷ s) = (if c == 10 then 13 ∷ [] else []) ++ c ∷ with_returns s

digit-symbol : (d : ℕ) → digit d ≡ symbol d
digit-symbol d = ground arith

reversed-append : (xs ys : List ℕ) → reversed (xs ++ ys) ≡ reversed ys ++ reversed xs
reversed-append [] ys = sym (append-nil (reversed ys))
reversed-append (x ∷ xs) ys =
    ap (λ zs. zs ++ x ∷ []) (reversed-append xs ys)
    ∙ append_assoc (reversed ys) (reversed xs) (x ∷ [])

replicate-last : (n c : ℕ) → replicate n c ++ c ∷ [] ≡ c ∷ replicate n c
replicate-last zero c = refl
replicate-last (suc n) c = ap (◌∷◌ c) (replicate-last n c)

reversed-replicate : (n c : ℕ) → reversed (replicate n c) ≡ replicate n c
reversed-replicate zero c = refl
reversed-replicate (suc n) c = ap (λ zs. zs ++ c ∷ []) (reversed-replicate n c) ∙ replicate-last n c

reversed-digits_from : (n num base : ℕ) → reversed (digits_from n num base) ≡ significant n base num
unfolding digits_from significant
reversed-digits_from zero num base = refl
reversed-digits_from (suc n) num base = elim (Bool-cases (num == 0)) [
  | inl e ↦ rw e refl
  | inr e ↦ rw (e, reversed-digits_from n (num / base) base, digit-symbol (num % base)) refl
]

reversed-digits : (num base : ℕ) → reversed (digits num base) ≡ numeral base num
unfolding digits numeral
reversed-digits num base = elim (Bool-cases (num == 0)) [
  | inl e ↦ rw e refl
  | inr e ↦ rw e (reversed-digits_from 64 num base)
]

-- `print_num` prints the numeral, filled.
pub print_num-filled :
    (num base width pad : ℕ) → print_num num base width pad ≡ filled width pad (numeral base num)
unfolding print_num padded filled
print_num-filled num base width pad =
    let ds = digits num base in
    let same : length (numeral base num) ≡ length ds =
      sym (ap length (reversed-digits num base)) ∙ length-reversed ds in
    let text : reversed (ds ++ replicate (width - length ds) pad)
        ≡ replicate (width - length ds) pad ++ numeral base num =
      reversed-append ds (replicate (width - length ds) pad)
      ∙ rw (reversed-replicate (width - length ds) pad, reversed-digits num base) refl in
    let long : length (ds ++ replicate (width - length ds) pad) ≡ length ds + (width - length ds) =
      omega (
        arith,
        length-append ds (replicate (width - length ds) pad),
        length-replicate (width - length ds) pad,
      ) in
    rw (same, text, long)
      (elim (Bool-cases (ltb 32 (length ds) || ltb 32 width)) [
        | inl e ↦
            let over : leb (length ds + (width - length ds)) 32 ≡ false = ground (arith, e) in
            rw (e, over) refl
        | inr e ↦
            let fits : leb (length ds + (width - length ds)) 32 ≡ true = ground (arith, e) in
            rw (e, fits) refl
      ])

pub puts-with_returns : (s : List ℕ) → puts s ≡ with_returns s
unfolding puts with_returns
puts-with_returns [] = refl
puts-with_returns (c ∷ s) = elim (Bool-cases (c == 10)) [
  | inl e ↦ rw (e, puts-with_returns s) (ap (λ d. 13 ∷ d ∷ with_returns s) (ground (arith, e)))
  | inr e ↦ rw (e, puts-with_returns s) refl
]

-- "(null)"
abbrev null_text : List ℕ
null_text = 40 ∷ 110 ∷ 117 ∷ 108 ∷ 108 ∷ 41 ∷ []

-- whether a letter is one of "cdpsux"
abbrev pub is_letter : ℕ → Bool
is_letter c = c == 99 || c == 100 || c == 112 || c == 115 || c == 117 || c == 120

module _ (string_at : ℕ → List ℕ) where
  -- what a letter shows of its argument: a signed number in two's complement, one without a sign, a
  -- hexadecimal one, an address of 16 digits, a text, or else the character
  unfoldable pub argument_text : ℕ → ℕ → ℕ → ℕ → Option (List ℕ)
  argument_text c width pad num =
      if c == 100
      then (if ltb num (2 ^ 63)
          then filled width pad (numeral 10 num)
          else behind (45 ∷ []) (filled width pad (numeral 10 (2 ^ 64 - num))))
      else if c == 117
      then filled width pad (numeral 10 num)
      else if c == 120
      then filled width pad (numeral 16 num)
      else if c == 112
      then behind (48 ∷ 120 ∷ []) (filled 16 48 (numeral 16 num))
      else if c == 115
      then some (with_returns (if num == 0 then null_text else string_at num))
      else some (num % 256 ∷ [])

  -- what a conversion shows: a letter takes an argument, which has to be there; `%` shows itself; any
  -- other character is shown behind a `%`
  unfoldable pub conversion_text : ℕ → ℕ → ℕ → List ℕ → Sent
  conversion_text c width pad [] =
      if is_letter c then none else some (if c == 37 then 37 ∷ [] else 37 ∷ c ∷ [], [])
  conversion_text c width pad (num ∷ args) =
      if is_letter c
      then beside args (argument_text c width pad num)
      else some (if c == 37 then 37 ∷ [] else 37 ∷ c ∷ [], num ∷ args)

  signed-text :
      (num width pad : ℕ)
      → signed string_at num width pad ≡ (
          if ltb num (2 ^ 63)
          then filled width pad (numeral 10 num)
          else behind (45 ∷ []) (filled width pad (numeral 10 (2 ^ 64 - num))))
  unfolding signed
  signed-text num width pad =
      rw (print_num-filled num 10 width pad, print_num-filled (2 ^ 64 - num) 10 width pad)
        (elim (Bool-cases (ltb num (2 ^ 63))) [
          | inl e ↦ let small : leb (2 ^ 63) num ≡ false = ground (arith, e) in rw (e, small) refl
          | inr e ↦ let large : leb (2 ^ 63) num ≡ true = ground (arith, e) in rw (e, large) refl
        ])

  convert_arg-text :
      (c width pad num : ℕ) → convert_arg string_at c num width pad ≡ argument_text c width pad num
  unfolding convert_arg argument_text puts
  convert_arg-text c width pad num =
      rw
        (
          signed-text num width pad,
          print_num-filled num 10 width pad,
          print_num-filled num 16 width pad,
          print_num-filled num 16 16 48,
          puts-with_returns (if num == 0 then null_text else string_at num),
        )
        refl

  takes_arg-letter : (c : ℕ) → takes_arg string_at c ≡ is_letter c
  takes_arg-letter c = ground arith

  pub convert-text :
      (c width pad : ℕ) (args : List ℕ)
      → convert string_at c width pad args ≡ conversion_text c width pad args
  unfolding convert conversion_text
  convert-text c width pad [] = rw (takes_arg-letter c) (elim (Bool-cases (is_letter c)) [
    | inl e ↦ rw e refl
    | inr e ↦ rw e (elim (Bool-cases (c == 37)) [ inl p ↦ rw p refl | inr p ↦ rw p refl ])
  ])
  convert-text c width pad (num ∷ args) =
      rw (takes_arg-letter c, convert_arg-text c width pad num)
        (elim (Bool-cases (is_letter c)) [
          | inl e ↦ rw e refl
          | inr e ↦ rw e (elim (Bool-cases (c == 37)) [ inl p ↦ rw p refl | inr p ↦ rw p refl ])
        ])
