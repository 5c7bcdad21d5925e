-- ===== src/Printf/Items.antt =====
-- `printf`: the format as the text of a list of items, each of them printed in turn.
use riscv64_embedded_os.Prelude.{
  ℕ, ◌+◌, ◌-◌, ◌*◌, ◌^◌, ◌<◌, ◌≡◌, refl, ◌≢◌, ◌∙◌, ap, sym, Bool, true, false, not, ◌==◌, ==_ne,
  ltb, leb, ◌&&◌, if◌then◌else◌, Option, none, some, List, [], ◌∷◌, ◌++◌, arith, Bool-cases, inl,
  inr,
}
use riscv64_embedded_os.Printf.Shown.{conversion_text, convert-text}
use riscv64_embedded_os.Printf.{
  space, percent, char_0, Mode, text, start, field, Sent, behind, convert, and_mode, field_step,
  step, format_from, printf,
}

-- a character of the text, or a conversion with its flag for zeros, the digits of its width, and
-- its letter
pub data Item : Type 0 where
  char : ℕ → Item
  conversion : Bool → List ℕ → ℕ → Item

-- the text of an item in a format
abbrev pub written : Item → List ℕ
written (char c) = c ∷ []
written (conversion zeros ds c) =
    percent ∷ ((if zeros then char_0 ∷ [] else []) ++ (ds ++ (c ∷ [])))

abbrev pub format : List Item → List ℕ
format [] = []
format (i ∷ is) = written i ++ format is

-- the width that digits behind `acc` give
abbrev pub width_of : ℕ → List ℕ → ℕ
width_of acc [] = acc
width_of acc (d ∷ ds) = width_of (acc * 10 + (d - char_0)) ds

abbrev pub is_digit : ℕ → Bool
is_digit c = leb char_0 c && leb c 57

-- Digits whose number, read on behind `acc`, an `int` holds.
abbrev pub AreDigits : ℕ → List ℕ → Type 0
AreDigits acc [] = Unit {0}
AreDigits acc (d ∷ ds) =
    (is_digit d ≡ true)
    × (acc * 10 + (d - char_0) < 2 ^ 31)
    × AreDigits (acc * 10 + (d - char_0)) ds

abbrev pub no_zero : List ℕ → Bool
no_zero [] = true
no_zero (d ∷ ds) = not (d == char_0)

-- What a list of items has to be for its text to be read as these items.
abbrev pub IsItem : Item → Type 0
IsItem (char c) = c ≢ percent
IsItem (conversion zeros ds c) =
    AreDigits 0 ds × (is_digit c ≡ false) × ((if zeros then true else no_zero ds) ≡ true)

abbrev pub AreItems : List Item → Type 0
AreItems [] = Unit {0}
AreItems (i ∷ is) = IsItem i × AreItems is

abbrev joined : (List ℕ → Option (List ℕ)) → Sent → Option (List ℕ)
joined rest none = none
joined rest (some (out, args)) = behind out (rest args)

module _ (string_at : ℕ → List ℕ) where
  -- what the items print, in turn, each conversion with the arguments that are left
  unfoldable pub printed : List Item → List ℕ → Option (List ℕ)
  printed [] args = some []
  printed (char c ∷ is) args = behind (if c == 10 then 13 ∷ 10 ∷ [] else c ∷ []) (printed is args)
  printed (conversion zeros ds c ∷ is) args =
      elim (conversion_text string_at c (width_of 0 ds) (if zeros then 48 else 32) args) [
        | none ↦ none
        | some r ↦ behind r.0 (printed is r.1)
      ]

  behind_nothing : (r : Option (List ℕ)) → behind [] r ≡ r
  behind_nothing none = refl
  behind_nothing (some out) = refl

  -- what the loop does with the outcome of a character
  abbrev go_on : List ℕ → Option (List ℕ × List ℕ × Mode) → Option (List ℕ)
  go_on cs r = elim r [ none ↦ none | some r ↦ behind r.0 (format_from string_at cs r.2 r.1) ]

  format_from-go_on :
      (c : ℕ) (cs : List ℕ) (m : Mode) (args : List ℕ)
      → format_from string_at (c ∷ cs) m args ≡ go_on cs (step string_at m c args)
  unfolding format_from
  format_from-go_on c cs m args = refl

  go_on-and_mode :
      (cs : List ℕ) (r : Sent)
      → go_on cs (and_mode string_at text r) ≡ joined (format_from string_at cs text) r
  go_on-and_mode cs none = refl
  go_on-and_mode cs (some r) = refl

  -- digits of a width, and the letter behind them
  format_from-field :
      (ds : List ℕ) (c acc pad : ℕ) (cs args : List ℕ)
      → AreDigits acc ds
      → is_digit c ≡ false
      → format_from string_at (ds ++ (c ∷ cs)) (field acc pad) args
        ≡ joined (format_from string_at cs text) (convert string_at c (width_of acc ds) pad args)
  unfolding step field_step
  format_from-field [] c acc pad cs args a e =
      format_from-go_on c cs (field acc pad) args
      ∙ rw e (go_on-and_mode cs (convert string_at c acc pad args))
  format_from-field (d ∷ ds) c acc pad cs args (is, small, more) e =
      let fits : ltb (acc * 10 + (d - char_0)) (2 ^ 31) ≡ true = ground arith in
      format_from-go_on d (ds ++ (c ∷ cs)) (field acc pad) args
      ∙ rw (is, fits)
          (behind_nothing _ ∙ format_from-field ds c (acc * 10 + (d - char_0)) pad cs args more e)

  format_from-start :
      (c : ℕ) (cs args : List ℕ)
      → c == char_0 ≡ false
      → format_from string_at (c ∷ cs) start args
        ≡ format_from string_at (c ∷ cs) (field 0 space) args
  unfolding step
  format_from-start c cs args e =
      format_from-go_on c cs start args ∙ rw e (sym (format_from-go_on c cs (field 0 space) args))

  letter_next : (ds : List ℕ) (c : ℕ) (cs : List ℕ) → (ds ++ (c ∷ [])) ++ cs ≡ ds ++ (c ∷ cs)
  letter_next [] c cs = refl
  letter_next (d ∷ ds) c cs = ap (◌∷◌ d) (letter_next ds c cs)

  -- a conversion, its `%` included
  format_from-conversion :
      (zeros : Bool) (ds : List ℕ) (c : ℕ) (cs args : List ℕ)
      → IsItem (conversion zeros ds c)
      → format_from string_at (written (conversion zeros ds c) ++ cs) text args
        ≡ joined
            (format_from string_at cs text)
            (convert string_at c (width_of 0 ds) (if zeros then char_0 else space) args)
  unfolding step
  format_from-conversion true ds c cs args (a, e, z) =
      format_from-go_on percent (char_0 ∷ ((ds ++ (c ∷ [])) ++ cs)) text args
      ∙ behind_nothing _
      ∙ format_from-go_on char_0 ((ds ++ (c ∷ [])) ++ cs) start args
      ∙ behind_nothing _
      ∙ rw (letter_next ds c cs) (format_from-field ds c 0 char_0 cs args a e)
  format_from-conversion false [] c cs args (a, e, z) =
      format_from-go_on percent (c ∷ cs) text args
      ∙ behind_nothing _
      ∙ format_from-start c cs args (ground (arith, e))
      ∙ format_from-field [] c 0 space cs args a e
  format_from-conversion false (d ∷ ds) c cs args (a, e, z) =
      format_from-go_on percent (d ∷ ((ds ++ (c ∷ [])) ++ cs)) text args
      ∙ behind_nothing _
      ∙ format_from-start d ((ds ++ (c ∷ [])) ++ cs) args (ground (arith, z))
      ∙ rw (letter_next ds c cs) (format_from-field (d ∷ ds) c 0 space cs args a e)

  joined-printed :
      (is : List Item) (r : Sent)
      → ((args : List ℕ) → format_from string_at (format is) text args ≡ printed is args)
      → joined (format_from string_at (format is) text) r
        ≡ elim r [ none ↦ none | some r ↦ behind r.0 (printed is r.1) ]
  joined-printed is none ih = refl
  joined-printed is (some (out, args)) ih = ap (behind out) (ih args)

  format_from-printed :
      (is : List Item) (args : List ℕ)
      → AreItems is
      → format_from string_at (format is) text args ≡ printed is args
  unfolding printed step
  format_from-printed [] args a = unfold format_from in refl
  format_from-printed (char c ∷ is) args (i, a) =
      format_from-go_on c (format is) text args ∙ elim (Bool-cases (c == 10)) [
        | inl e ↦
            rw (==_ne c percent i, e) (ap (behind (13 ∷ 10 ∷ [])) (format_from-printed is args a))
        | inr e ↦ rw (==_ne c percent i, e) (ap (behind (c ∷ [])) (format_from-printed is args a))
      ]
  format_from-printed (conversion zeros ds c ∷ is) args (i, a) =
      format_from-conversion zeros ds c (format is) args i
      ∙ ap (joined (format_from string_at (format is) text))
          (convert-text string_at c (width_of 0 ds) (if zeros then char_0 else space) args)
      ∙ joined-printed is
          (conversion_text string_at c (width_of 0 ds) (if zeros then char_0 else space) args)
          λ rest. format_from-printed is rest a

  -- On the text of a list of items, whose widths an `int` holds, `printf` prints the items in
  -- turn: characters as they are, a line feed behind a carriage return, and conversions, each with
  -- the arguments that the conversions before it have left. Numbers are written in decimal, a minus
  -- sign in front of negative ones, or hexadecimal, with the highest digit first, and filled on the
  -- left up to the width with zeros or blanks as the flag says; an address has 16 digits behind "0x".
  -- It is undefined exactly when an argument is missing, or a number takes more than 32 characters.
  pub printf-printed :
      (is : List Item) (args : List ℕ)
      → AreItems is
      → printf string_at (format is) args ≡ printed is args
  unfolding printf
  printf-printed is args a = format_from-printed is args a
