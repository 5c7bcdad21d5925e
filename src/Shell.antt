-- ===== src/Shell.antt =====
-- The line editor of `run_shell` in kernel/main.c, and how it recognises a command. `buffer` is the
-- memory from the array of 128 characters on, what stands behind it included. `input` is what the
-- UART is going to receive.
pub mod Editing
pub mod Commands
pub mod Device
use riscv64_embedded_os.Prelude.{
  ℕ, zero, suc, ◌+◌, ◌-◌, Bool, true, ◌==◌, ltb, leb, ◌&&◌, ◌||◌, if◌then◌else◌, Option, none, some,
  List, [], ◌∷◌, ◌++◌,
}

-- `SHELL_BUFFER_SIZE`
abbrev pub buffer_size : ℕ
buffer_size = 128

pub record Line : Type 0 where
  pub buffer : ℕ → ℕ
  pub pos : ℕ

abbrev pub put_char : Line → ℕ → Line
put_char l c = record l { buffer = λ i. if l.pos == i then c else l.buffer i }

abbrev pub ends : ℕ → Bool
ends c = c == 13 || c == 10

abbrev pub erases : ℕ → Bool
erases c = c == 8 || c == 127

abbrev pub printable : ℕ → Bool
printable c = leb 32 c && ltb c 127

-- a character that does not end the line: the line behind it, and what is echoed
unfoldable pub key : Line → ℕ → Line × List ℕ
key l c =
    let longer = record (put_char l c) { pos = l.pos + 1 } in
    if erases c
    then (if ltb 0 l.pos then (record l { pos = l.pos - 1 }, 8 ∷ 32 ∷ 8 ∷ []) else (l, []))
    else if printable c
    then (if ltb l.pos (buffer_size - 1) then (longer, c ∷ []) else (l, []))
    else (l, [])

-- the loop that reads a line, from the line so far: the line, the echo, and the input that is left;
-- `none` when it waits for a character that never comes
unfoldable pub read_line : List ℕ → Line → Option (Line × List ℕ × List ℕ)
read_line [] l = none
read_line (c ∷ input) l =
    let (l', echo) = key l c in
    let rest = read_line input l' in
    if ends c
    then some (put_char l 0, 13 ∷ 10 ∷ [], input)
    else elim rest [ none ↦ none | some r ↦ some (r.0, echo ++ r.1, r.2) ]

-- what a line asks for; `echo` with the index of its text
pub data Command : Type 0 where
  nothing : Command
  help : Command
  ps : Command
  sched : Command
  info : Command
  testdev : Command
  test : Command
  echo : ℕ → Command
  reboot : Command
  unknown : Command

-- `buffer[i] == w[0] && buffer[i + 1] == w[1] && …`
abbrev pub begins : (ℕ → ℕ) → ℕ → List ℕ → Bool
begins buffer i [] = true
begins buffer i (c ∷ cs) = (buffer i == c) && begins buffer (i + 1) cs

-- the conditions of the command parser behind that of `testdev`
unfoldable pub later_command : Line → Command
later_command l =
    if begins l.buffer 0 (116 ∷ 101 ∷ 115 ∷ 116 ∷ 0 ∷ [])
    then test
    else if begins l.buffer 0 (101 ∷ 99 ∷ 104 ∷ 111 ∷ []) && ltb 4 l.pos && l.buffer 4 == 32
    then echo 5
    else if begins l.buffer 0 (114 ∷ 101 ∷ 98 ∷ 111 ∷ 111 ∷ 116 ∷ 0 ∷ [])
    then reboot
    else unknown

-- the conditions of the command parser, in their order
unfoldable pub command : Line → Command
command l =
    if l.pos == 0
    then nothing
    else if begins l.buffer 0 (104 ∷ 101 ∷ 108 ∷ 112 ∷ 0 ∷ [])
    then help
    else if begins l.buffer 0 (112 ∷ 115 ∷ 0 ∷ [])
    then ps
    else if begins l.buffer 0 (115 ∷ 99 ∷ 104 ∷ 101 ∷ 100 ∷ 0 ∷ [])
    then sched
    else if begins l.buffer 0 (105 ∷ 110 ∷ 102 ∷ 111 ∷ 0 ∷ [])
    then info
    else if begins l.buffer 0 (116 ∷ 101 ∷ 115 ∷ 116 ∷ 100 ∷ 101 ∷ 118 ∷ 0 ∷ [])
    then testdev
    else later_command l
