-- ===== src/Shell/Commands.antt =====
-- A command is recognised by its text alone.
use riscv64_embedded_os.Prelude.{
  ℕ, suc, ◌+◌, ◌≤◌, ◌≡◌, refl, ◌≢◌, ◌∙◌, ap, sym, Bool, true, false, ◌==◌, ==_ne, ltb, ◌&&◌,
  if◌then◌else◌, List, [], ◌∷◌, ◌++◌, arith, Bool-cases, inl, inr, length,
}
use riscv64_embedded_os.Shell.{
  Line, Command, nothing, help, ps, sched, info, testdev, test, echo, reboot, unknown, begins,
  command, later_command, erases, printable,
}
use riscv64_embedded_os.Shell.Editing.{Text, Entered, typed, typed_all}

abbrev pub same : List ℕ → List ℕ → Bool
same [] [] = true
same [] (d ∷ ds) = false
same (c ∷ cs) [] = false
same (c ∷ cs) (d ∷ ds) = c == d && same cs ds

-- whether a text begins with a word
abbrev pub prefix : List ℕ → List ℕ → Bool
prefix cs [] = true
prefix [] (d ∷ ds) = false
prefix (c ∷ cs) (d ∷ ds) = c == d && prefix cs ds

-- the command that a text is
abbrev pub command_of : List ℕ → Command
command_of text =
    if same text []
    then nothing
    else if same text (104 ∷ 101 ∷ 108 ∷ 112 ∷ [])
    then help
    else if same text (112 ∷ 115 ∷ [])
    then ps
    else if same text (115 ∷ 99 ∷ 104 ∷ 101 ∷ 100 ∷ [])
    then sched
    else if same text (105 ∷ 110 ∷ 102 ∷ 111 ∷ [])
    then info
    else if same text (116 ∷ 101 ∷ 115 ∷ 116 ∷ 100 ∷ 101 ∷ 118 ∷ [])
    then testdev
    else if same text (116 ∷ 101 ∷ 115 ∷ 116 ∷ [])
    then test
    else if prefix text (101 ∷ 99 ∷ 104 ∷ 111 ∷ 32 ∷ [])
    then echo 5
    else if same text (114 ∷ 101 ∷ 98 ∷ 111 ∷ 111 ∷ 116 ∷ [])
    then reboot
    else unknown

abbrev pub NoNul : List ℕ → Type 0
NoNul [] = Unit {0}
NoNul (c ∷ cs) = (c ≢ 0) × NoNul cs

-- a text that is held last character first, in its order, in front of `acc`
abbrev pub onto : List ℕ → List ℕ → List ℕ
onto [] acc = acc
onto (x ∷ xs) acc = onto xs (x ∷ acc)

-- From index `i` the buffer holds a text and its NUL.
abbrev Forward : (ℕ → ℕ) → ℕ → List ℕ → Type 0
Forward buffer i [] = buffer i ≡ 0
Forward buffer i (c ∷ cs) = (buffer i ≡ c) × (c ≢ 0) × Forward buffer (i + 1) cs

onto-Forward :
    (buffer : ℕ → ℕ) (xs acc : List ℕ)
    → Text buffer xs
    → NoNul xs
    → Forward buffer (length xs) acc
    → Forward buffer 0 (onto xs acc)
onto-Forward buffer [] acc t n f = f
onto-Forward buffer (x ∷ xs) acc (e, t) (ne, n) f =
    let next : suc (length xs) ≡ length xs + 1 = omega arith in
    onto-Forward buffer xs (x ∷ acc) t n (e, ne, rw next at f)

length-onto : (xs acc : List ℕ) → length (onto xs acc) ≡ length xs + length acc
length-onto [] acc = omega arith
length-onto (x ∷ xs) acc = omega (arith, length-onto xs (x ∷ acc))

begins-same :
    (buffer : ℕ → ℕ) (i : ℕ) (cs word : List ℕ)
    → Forward buffer i cs
    → NoNul word
    → begins buffer i (word ++ (0 ∷ [])) ≡ same cs word
begins-same buffer i [] [] f n = rw f
begins-same buffer i [] (d ∷ ds) f (ne, n) = rw (f, ==_ne 0 d (λ e. ne (sym e)))
begins-same buffer i (c ∷ cs) [] (e, ne, f) n = rw (e, ==_ne c 0 ne)
begins-same buffer i (c ∷ cs) (d ∷ ds) (e, ne, f) (me, n) =
    rw (e, begins-same buffer (i + 1) cs ds f n)

begins-prefix :
    (buffer : ℕ → ℕ) (i : ℕ) (cs word : List ℕ)
    → Forward buffer i cs
    → NoNul word
    → begins buffer i word ≡ prefix cs word
begins-prefix buffer i cs [] f n = refl
begins-prefix buffer i [] (d ∷ ds) f (ne, n) = rw (f, ==_ne 0 d (λ e. ne (sym e)))
begins-prefix buffer i (c ∷ cs) (d ∷ ds) (e, ne, f) (me, n) =
    rw (e, begins-prefix buffer (i + 1) cs ds f n)

prefix-length : (cs word : List ℕ) → prefix cs word ≡ true → length word ≤ length cs
prefix-length cs [] e = omega arith
prefix-length [] (d ∷ ds) e = absurd (grind (arith, e))
prefix-length (c ∷ cs) (d ∷ ds) e = elim (Bool-cases (c == d)) [
  | inl a ↦ omega (arith, prefix-length cs ds (rw a at e))
  | inr a ↦ absurd (grind (arith, rw a at e))
]

no_nul : List ℕ → Bool
no_nul [] = true
no_nul (c ∷ cs) = ltb 0 c && no_nul cs

no_nul-NoNul : (cs : List ℕ) → no_nul cs ≡ true → NoNul cs
unfolding no_nul
no_nul-NoNul [] e = tt
no_nul-NoNul (c ∷ cs) e = elim (Bool-cases (ltb 0 c)) [
  | inl a ↦ (ground (arith, a), no_nul-NoNul cs (rw a at e))
  | inr a ↦ absurd (grind (arith, rw a at e))
]

tested_last :
    (a b c d s t : Bool)
    → (((a && (b && (c && (d && true)))) && t) && s)
      ≡ ((a && (b && (c && (d && (s && true))))) && t)
tested_last false b c d s t = refl
tested_last true false c d s t = refl
tested_last true true false d s t = refl
tested_last true true true false s t = refl
tested_last true true true true false false = refl
tested_last true true true true false true = refl
tested_last true true true true true false = refl
tested_last true true true true true true = refl

-- the condition of the command `echo`
echo_condition :
    (buffer : ℕ → ℕ) (pos : ℕ) (cs : List ℕ)
    → Forward buffer 0 cs
    → pos ≡ length cs
    → (begins buffer 0 (101 ∷ 99 ∷ 104 ∷ 111 ∷ []) && ltb 4 pos && buffer 4 == 32)
      ≡ prefix cs (101 ∷ 99 ∷ 104 ∷ 111 ∷ 32 ∷ [])
unfolding no_nul
echo_condition buffer pos cs f e =
    let word : List ℕ = 101 ∷ 99 ∷ 104 ∷ 111 ∷ 32 ∷ [] in
    tested_last (buffer 0 == 101) (buffer 1 == 99) (buffer 2 == 104) (buffer 3 == 111)
      (buffer 4 == 32) (ltb 4 pos)
    ∙ ap (λ b. b && ltb 4 pos) (begins-prefix buffer 0 cs word f (no_nul-NoNul word refl))
    ∙ elim (Bool-cases (prefix cs word)) [
      | inl p ↦
          let long : ltb 4 pos ≡ true = ground (arith, prefix-length cs word p) in rw (p, long)
      | inr p ↦ rw p
    ]

same-nothing : (cs : List ℕ) → length cs == 0 ≡ same cs []
same-nothing [] = refl
same-nothing (c ∷ cs) = ground arith

command-command_of :
    (l : Line) (cs : List ℕ) → Forward l.buffer 0 cs → l.pos ≡ length cs → command l ≡ command_of cs
unfolding command later_command no_nul
command-command_of l cs f e =
    let word : (w : List ℕ) → no_nul w ≡ true → begins l.buffer 0 (w ++ (0 ∷ [])) ≡ same cs w =
      λ w n. begins-same l.buffer 0 cs w f (no_nul-NoNul w n) in
    rw (
      ap (λ n. n == 0) e ∙ same-nothing cs,
      word (104 ∷ 101 ∷ 108 ∷ 112 ∷ []) refl,
      word (112 ∷ 115 ∷ []) refl,
      word (115 ∷ 99 ∷ 104 ∷ 101 ∷ 100 ∷ []) refl,
      word (105 ∷ 110 ∷ 102 ∷ 111 ∷ []) refl,
      word (116 ∷ 101 ∷ 115 ∷ 116 ∷ 100 ∷ 101 ∷ 118 ∷ []) refl,
      word (116 ∷ 101 ∷ 115 ∷ 116 ∷ []) refl,
      echo_condition l.buffer l.pos cs f e,
      word (114 ∷ 101 ∷ 98 ∷ 111 ∷ 111 ∷ 116 ∷ []) refl,
    )

-- Typing adds printable characters only, which are not NUL.
typed-NoNul : (xs : List ℕ) (c : ℕ) → NoNul xs → NoNul (typed xs c)
typed-NoNul [] c n = elim (Bool-cases (erases c)) [
  | inl a ↦ rw a tt
  | inr a ↦ elim (Bool-cases (printable c)) [
    | inl b ↦ rw (a, b) (ground (arith, b), tt)
    | inr b ↦ rw (a, b) tt
  ]
]
typed-NoNul (x ∷ xs) c n = elim (Bool-cases (erases c)) [
  | inl a ↦ rw a n.1
  | inr a ↦ elim (Bool-cases (printable c)) [
    | inl b ↦ elim (Bool-cases (ltb (length (x ∷ xs)) 127)) [
      | inl d ↦ rw (a, b, d) (ground (arith, b), n)
      | inr d ↦ rw (a, b, d) n
    ]
    | inr b ↦ rw (a, b) n
  ]
]

typed_all-NoNul : (xs keys : List ℕ) → NoNul xs → NoNul (typed_all xs keys)
typed_all-NoNul xs [] n = n
typed_all-NoNul xs (c ∷ cs) n = typed_all-NoNul (typed xs c) cs (typed-NoNul xs c n)

-- A line that was read asks for the command that its text is, whatever the buffer held before: the
-- empty text for nothing, the names of commands for these, a text that begins with `echo` and a
-- blank for `echo`, and all others are unknown.
pub command-text :
    (old : ℕ → ℕ) (keys : List ℕ) (l : Line)
    → Entered old (typed_all [] keys) l
    → command l ≡ command_of (onto (typed_all [] keys) [])
command-text old keys l e =
    let xs = typed_all [] keys in
    let nul : l.buffer (length xs) ≡ 0 = ap l.buffer (sym e.edited.at) ∙ e.ended in
    command-command_of l (onto xs [])
      (onto-Forward l.buffer xs [] e.edited.holds (typed_all-NoNul [] keys tt) nul)
      (e.edited.at ∙ omega (arith, length-onto xs []))
