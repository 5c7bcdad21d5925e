-- ===== src/Shell/Editing.antt =====
-- The line editor keeps to its buffer, which holds what was typed.
use riscv64_embedded_os.Prelude.{
  ℕ, suc, ◌+◌, ◌≤◌, ◌<◌, ◌≡◌, refl, ◌∙◌, ap, sym, true, false, ◌==◌, ==_ne, ==_refl, ltb,
  if◌then◌else◌, Option, none, some, List, [], ◌∷◌, ◌++◌, arith, Bool-cases, inl, inr, length,
}
use riscv64_embedded_os.Shell.{Line, buffer_size, put_char, ends, erases, printable, key, read_line}

-- the text behind a key, its last character first: an erasing key takes that one away, a printable
-- character is added unless the text has 127 already
abbrev pub typed : List ℕ → ℕ → List ℕ
typed [] c = if erases c then [] else if printable c then c ∷ [] else []
typed (x ∷ xs) c =
    if erases c
    then xs
    else if printable c
    then (if ltb (length (x ∷ xs)) 127 then c ∷ x ∷ xs else x ∷ xs)
    else x ∷ xs

abbrev pub typed_all : List ℕ → List ℕ → List ℕ
typed_all xs [] = xs
typed_all xs (c ∷ cs) = typed_all (typed xs c) cs

-- The buffer holds a text, its last character first.
abbrev pub Text : (ℕ → ℕ) → List ℕ → Type 0
Text buffer [] = Unit {0}
Text buffer (x ∷ xs) = (buffer (length xs) ≡ x) × Text buffer xs

-- The line is a text that leaves room for its NUL, and nothing behind the buffer has changed.
pub record Edited (old : ℕ → ℕ) (l : Line) (xs : List ℕ) : Type 0 where
  pub at : l.pos ≡ length xs
  pub fits : length xs < buffer_size
  pub holds : Text l.buffer xs
  pub outside : (i : ℕ) → buffer_size ≤ i → l.buffer i ≡ old i

abbrev write_at : (ℕ → ℕ) → ℕ → ℕ → ℕ → ℕ
write_at buffer p c i = if p == i then c else buffer i

Text-write :
    (buffer : ℕ → ℕ) (p c : ℕ) (xs : List ℕ)
    → length xs ≤ p
    → Text buffer xs
    → Text (write_at buffer p c) xs
Text-write buffer p c [] h t = tt
Text-write buffer p c (x ∷ xs) h (e, t) =
    (rw (==_ne p (length xs) (omega arith)) e, Text-write buffer p c xs (omega arith) t)

written-Edited :
    {old : ℕ → ℕ} {l : Line} {xs : List ℕ} (c : ℕ)
    → Edited old l xs
    → length xs < 127
    → Edited old (record (put_char l c) { pos = l.pos + 1 }) (c ∷ xs)
written-Edited {old} {l} {xs} c e h = record {
  at = omega (arith, e.at);
  fits = omega arith;
  holds = (
    ap (λ i. write_at l.buffer l.pos c i) (sym e.at) ∙ rw (==_refl l.pos),
    Text-write l.buffer l.pos c xs (omega (arith, e.at)) e.holds,
  );
  outside = λ i b. rw (==_ne l.pos i (omega (arith, e.at))) (e.outside i b);
}

key-Edited :
    {old : ℕ → ℕ} {l : Line} (xs : List ℕ) (c : ℕ)
    → Edited old l xs
    → Edited old (key l c).0 (typed xs c)
unfolding key
key-Edited {old} {l} [] c e =
    let empty : ltb 0 l.pos ≡ false = ground (arith, e.at) in
    let room : ltb l.pos 127 ≡ true = ground (arith, e.at) in
    elim (Bool-cases (erases c)) [
      | inl a ↦ rw (a, empty) e
      | inr a ↦ elim (Bool-cases (printable c)) [
        | inl b ↦ rw (a, b, room) (written-Edited c e (omega arith))
        | inr b ↦ rw (a, b) e
      ]
    ]
key-Edited {old} {l} (x ∷ xs) c e =
    let some_text : ltb 0 l.pos ≡ true = ground (arith, e.at) in
    elim (Bool-cases (erases c)) [
      | inl a ↦
          rw (a, some_text)
            record {
              at = omega (arith, e.at);
              fits = omega (arith, e.fits);
              holds = e.holds.1;
              outside = e.outside;
            }
      | inr a ↦ elim (Bool-cases (printable c)) [
        | inl b ↦ elim (Bool-cases (ltb (suc (length xs)) 127)) [
          | inl d ↦
              let room : ltb l.pos 127 ≡ true = ground (arith, e.at, d) in
              rw (a, b, d, room) (written-Edited c e (ground (arith, d)))
          | inr d ↦
              let room : ltb l.pos 127 ≡ false = ground (arith, e.at, d) in rw (a, b, d, room) e
        ]
        | inr b ↦ rw (a, b) e
      ]
    ]

-- the line that is handed on, which a NUL ends
pub record Entered (old : ℕ → ℕ) (xs : List ℕ) (l : Line) : Type 0 where
  pub edited : Edited old l xs
  pub ended : l.buffer l.pos ≡ 0

Edited-Entered :
    {old : ℕ → ℕ} {l : Line} {xs : List ℕ} → Edited old l xs → Entered old xs (put_char l 0)
Edited-Entered {old} {l} {xs} e = record {
  edited = record {
    at = e.at;
    fits = e.fits;
    holds = Text-write l.buffer l.pos 0 xs (omega (arith, e.at)) e.holds;
    outside = λ i b. rw (==_ne l.pos i (omega (arith, e.at, e.fits))) (e.outside i b);
  };
  ended = rw (==_refl l.pos);
}

-- None of the keys ends the line.
abbrev pub NoEnd : List ℕ → Type 0
NoEnd [] = Unit {0}
NoEnd (c ∷ cs) = (ends c ≡ false) × NoEnd cs

-- the outcome of reading a line that `xs` is typed in
abbrev pub ReadsLine : (ℕ → ℕ) → List ℕ → List ℕ → Option (Line × List ℕ × List ℕ) → Type 0
ReadsLine old xs rest r =
    (l : Line) × (echo : List ℕ) × (r ≡ some (l, echo, rest)) × Entered old xs l

-- what `read_line` does with the outcome of the keys behind one
abbrev on_rest : List ℕ → Option (Line × List ℕ × List ℕ) → Option (Line × List ℕ × List ℕ)
on_rest echo r = elim r [ none ↦ none | some r ↦ some (r.0, echo ++ r.1, r.2) ]

ReadsLine-echo :
    {old : ℕ → ℕ} {xs rest : List ℕ} (echo : List ℕ) (r : Option (Line × List ℕ × List ℕ))
    → ReadsLine old xs rest r
    → ReadsLine old xs rest (on_rest echo r)
ReadsLine-echo echo r (l, more, e, entered) = (l, echo ++ more, ap (on_rest echo) e, entered)

read_line-from :
    (old : ℕ → ℕ) (l : Line) (xs keys rest : List ℕ) (c : ℕ)
    → Edited old l xs
    → NoEnd keys
    → ends c ≡ true
    → ReadsLine old (typed_all xs keys) rest (read_line (keys ++ (c ∷ rest)) l)
unfolding read_line
read_line-from old l xs [] rest c e no_end e_c =
    rw e_c (put_char l 0, 13 ∷ 10 ∷ [], refl, Edited-Entered e)
read_line-from old l xs (k ∷ keys) rest c e (goes_on, no_end) e_c = rw goes_on (
    ReadsLine-echo (key l k).1 (read_line (keys ++ (c ∷ rest)) (key l k).0)
      (read_line-from old (key l k).0 (typed xs k) keys rest c (key-Edited xs k e) no_end e_c))

-- When a carriage return or a line feed comes, whatever keys came before it, the shell has a line:
-- at the start of the buffer stands the text that the keys typed, of at most 127 characters, with a
-- NUL behind it, and no byte behind the 128 of the buffer has changed.
pub read_line-Entered :
    (old : ℕ → ℕ) (keys rest : List ℕ) (c : ℕ)
    → NoEnd keys
    → ends c ≡ true
    → ReadsLine old
        (typed_all [] keys)
        rest
        (read_line (keys ++ (c ∷ rest)) record { buffer = old; pos = 0 })
read_line-Entered old keys rest c no_end e =
    read_line-from old record { buffer = old; pos = 0 } [] keys rest c
      record { at = refl; fits = omega arith; holds = tt; outside = λ i b. refl } no_end e
