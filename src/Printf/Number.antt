-- ===== src/Printf/Number.antt =====
-- `print_num`: what it prints denotes the number, and stays within its buffer.
use riscv64_embedded_os.Prelude.{
  ℕ, zero, suc, ◌+◌, ◌-◌, ◌*◌, ◌/◌, ◌%◌, ◌^◌, ◌≤◌, ◌<◌, ◌≡◌, refl, ◌∙◌, true, false, ◌==◌, ltb, leb,
  if◌then◌else◌, none, some, List, [], ◌∷◌, ◌++◌, length, replicate, arith, ◌⊎◌, inl, inr,
  length-append, length-replicate, Bool-cases,
}
use native.Mathlib.Nat.{pow-suc}
use riscv64_embedded_os.Printf.{
  digit, digits_from, digits, padded, reversed, print_num, space, char_0, buf_size,
}

-- the value of a digit
abbrev pub value_of : ℕ → ℕ
value_of c = if ltb c 58 then c - 48 else c - 87

-- the number that a text denotes: blanks are passed over
abbrev pub read : ℕ → ℕ → List ℕ → ℕ
read base acc [] = acc
read base acc (c ∷ cs) =
    if c == space then read base acc cs else read base (acc * base + value_of c) cs

-- the bases that `printf` uses
abbrev pub IsBase : ℕ → Type 0
IsBase base = (base ≡ 10) ⊎ (base ≡ 16)

-- the number of a buffer that holds the last digit first
value : ℕ → List ℕ → ℕ
value base [] = 0
value base (c ∷ cs) = if c == space then value base cs else value base cs * base + value_of c

read-append :
    (base acc : ℕ) (xs : List ℕ) (c : ℕ)
    → read base acc (xs ++ (c ∷ []))
      ≡ (if c == space then read base acc xs else read base acc xs * base + value_of c)
read-append base acc [] c = refl
read-append base acc (x ∷ xs) c = elim (Bool-cases (x == space)) [
  | inl e ↦ rw e (read-append base acc xs c)
  | inr e ↦ rw e (read-append base (acc * base + value_of x) xs c)
]

read-reversed : (base : ℕ) (buf : List ℕ) → read base 0 (reversed buf) ≡ value base buf
unfolding value
read-reversed base [] = refl
read-reversed base (c ∷ cs) = read-append base 0 (reversed cs) c ∙ rw (read-reversed base cs)

digit_lem : (d : ℕ) → d < 16 → (value_of (digit d) ≡ d) × (digit d == space ≡ false)
digit_lem d h = (ground arith, ground arith)

digit_value :
    (base num : ℕ)
    → IsBase base
    → (value_of (digit (num % base)) ≡ num % base) × (digit (num % base) == space ≡ false)
digit_value base num b =
    digit_lem (num % base) (elim b [ inl e ↦ rw e (omega arith) | inr e ↦ rw e (omega arith) ])

shorter : (left num base : ℕ) → IsBase base → num < 2 ^ suc left → num / base < 2 ^ left
shorter left num base b h = elim b [
  | inl e ↦ rw e (omega (arith, pow-suc 2 left))
  | inr e ↦ rw e (omega (arith, pow-suc 2 left))
]

recombined : (num base : ℕ) → IsBase base → num / base * base + num % base ≡ num
recombined num base b = elim b [ inl e ↦ rw e (omega arith) | inr e ↦ rw e (omega arith) ]

value-digits_from :
    (left num base : ℕ)
    → IsBase base
    → num < 2 ^ left
    → value base (digits_from left num base) ≡ num
unfolding value digits_from
value-digits_from zero num base b h = omega arith
value-digits_from (suc left) num base b h = elim (Bool-cases (num == 0)) [
  | inl e ↦ rw e (ground (arith, e))
  | inr e ↦
      let (same, printable) = digit_value base num b in
      rw
        (e, printable, same, value-digits_from left (num / base) base b (shorter left num base b h))
        (recombined num base b)
]

value-digits : (num base : ℕ) → IsBase base → num < 2 ^ 64 → value base (digits num base) ≡ num
unfolding digits value
value-digits num base b h = elim (Bool-cases (num == 0)) [
  | inl e ↦ rw e (ground (arith, e))
  | inr e ↦ rw e (value-digits_from 64 num base b h)
]

value-zeros : (base n pad : ℕ) → (pad ≡ space) ⊎ (pad ≡ char_0) → value base (replicate n pad) ≡ 0
unfolding value
value-zeros base zero pad p = refl
value-zeros base (suc n) pad p = elim p [
  | inl e ↦ rw e (value-zeros base n space (inl refl))
  | inr e ↦ rw e (rw (value-zeros base n char_0 (inr refl)) (omega arith))
]

value-padded :
    (base : ℕ) (buf : List ℕ) (n pad : ℕ)
    → (pad ≡ space) ⊎ (pad ≡ char_0)
    → value base (buf ++ replicate n pad) ≡ value base buf
unfolding value
value-padded base [] n pad p = value-zeros base n pad p
value-padded base (c ∷ cs) n pad p = rw (value-padded base cs n pad p)

length-digits_from :
    (left num base n : ℕ) → IsBase base → num < 10 ^ n → length (digits_from left num base) ≤ n
unfolding digits_from
length-digits_from zero num base n b h = omega arith
length-digits_from (suc left) num base zero b h =
    let none_left : num == 0 ≡ true = ground arith in rw none_left (omega arith)
length-digits_from (suc left) num base (suc n) b h = elim (Bool-cases (num == 0)) [
  | inl e ↦ rw e (omega arith)
  | inr e ↦ rw e (
      omega (
        arith,
        length-digits_from left (num / base) base n b (elim b [
          | inl t ↦ rw t (omega (arith, pow-suc 10 n))
          | inr t ↦ rw t (omega (arith, pow-suc 10 n))
        ]),
      ))
]

pub length-digits : (num base : ℕ) → IsBase base → num < 2 ^ 64 → length (digits num base) ≤ 20
unfolding digits
length-digits num base b h = elim (Bool-cases (num == 0)) [
  | inl e ↦ rw e (omega arith)
  | inr e ↦ rw e (length-digits_from 64 num base 20 b (omega arith))
]

pub length-reversed : (xs : List ℕ) → length (reversed xs) ≡ length xs
length-reversed [] = refl
length-reversed (x ∷ xs) = omega (arith, length-append (reversed xs) (x ∷ []), length-reversed xs)

-- the larger number
abbrev pub at_least : ℕ → ℕ → ℕ
at_least m n = if leb m n then n else m

pub length-padded :
    (width pad : ℕ) (buf : List ℕ) → length (padded width pad buf) ≡ at_least width (length buf)
unfolding padded
length-padded width pad buf = ground (
  arith,
  length-append buf (replicate (width - length buf) pad),
  length-replicate (width - length buf) pad,
)

-- what `print_num` prints for a number
pub record Prints (num base width pad : ℕ) : Type 0 where
  pub out : List ℕ
  pub prints : print_num num base width pad ≡ some out
  pub denotes : read base 0 out ≡ num
  pub long : length out ≡ at_least width (length (digits num base))

-- For a number of 64 bits, base 10 or 16, and a width of at most 32, filled with blanks or zeros,
-- `print_num` stays within its buffer, and prints a text as long as the width asks for, or longer
-- if the digits are more, which read from left to right denotes the number.
pub print_num-Prints :
    (num base width pad : ℕ)
    → num < 2 ^ 64
    → IsBase base
    → width ≤ 32
    → (pad ≡ space) ⊎ (pad ≡ char_0)
    → Prints num base width pad
unfolding print_num padded
print_num-Prints num base width pad h b w p =
    let buf = padded width pad (digits num base) in
    let long = length-padded width pad (digits num base) in
    let fits : leb (length buf) buf_size ≡ true =
      ground (arith, long, length-digits num base b h) in
    record {
      out = reversed buf;
      prints = rw fits;
      denotes =
          read-reversed base buf
          ∙ value-padded base (digits num base) (width - length (digits num base)) pad p
          ∙ value-digits num base b h;
      long = length-reversed buf ∙ long;
    }

-- A width of more than 32 makes `print_num` write behind its buffer, whatever the number.
pub print_num_overflows :
    (num base width pad : ℕ) → 32 < width → print_num num base width pad ≡ none
unfolding print_num
print_num_overflows num base width pad h =
    let over : leb (length (padded width pad (digits num base))) buf_size ≡ false =
      ground (arith, length-padded width pad (digits num base)) in
    rw over
