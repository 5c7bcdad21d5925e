-- ===== src/Tests/Typing.antt =====
-- The line editor of the shell at concrete inputs.
use riscv64_embedded_os.Prelude.{
  ℕ, ◌≡◌, refl, List, [], ◌∷◌, ◌++◌, arith, ◌==◌, ==_ne, if◌then◌else◌,
}
use riscv64_embedded_os.Shell.{Line, command, read_line}
use riscv64_embedded_os.Shell.Editing.{ReadsLine, Entered, typed_all, read_line-Entered}
use riscv64_embedded_os.Shell.Commands.{command-text, command_of, onto}

-- what is in the buffer before
abbrev stale : ℕ → ℕ
stale i = 101

-- `pq`, a backspace, `s`
abbrev keys : List ℕ
keys = 112 ∷ 113 ∷ 8 ∷ 115 ∷ []

read_line-Entered_example :
    ReadsLine stale
      (typed_all [] keys)
      (33 ∷ [])
      (read_line (keys ++ (13 ∷ 33 ∷ [])) record { buffer = stale; pos = 0 })
read_line-Entered_example =
    read_line-Entered stale keys (33 ∷ []) 13 (refl, (refl, (refl, (refl, tt)))) refl

-- `ps` and its NUL
abbrev line : Line
line = record {
  buffer = λ i. if i == 0 then 112 else if i == 1 then 115 else if i == 2 then 0 else 101;
  pos = 2;
}

line-Entered : Entered stale (typed_all [] keys) line
line-Entered = record {
  edited = record {
    at = refl;
    fits = omega arith;
    holds = (refl, (refl, tt));
    outside = λ i b. rw (==_ne i 0 (omega arith), ==_ne i 1 (omega arith), ==_ne i 2 (omega arith));
  };
  ended = refl;
}

command-text_example : command line ≡ command_of (onto (typed_all [] keys) [])
command-text_example = command-text stale keys line line-Entered
