-- ===== src/Syscall/Reading.antt =====
-- `SYS_READ`: what it delivers, and when it returns.
use riscv64_embedded_os.Prelude.{
  ℕ, zero, suc, ◌+◌, ◌^◌, ◌≤◌, ◌<◌, ◌≡◌, refl, ◌≢◌, ◌⊎◌, ◌∙◌, ap, ap₂, subst, sym, Bool, true,
  false, ◌==◌, ==_ne, ==_refl, Option, some, List, [], ◌∷◌, ◌++◌, arith, Bool-cases, inl, inr,
  length,
}
use riscv64_embedded_os.Syscall.{Kernel, at_index, text_at, receive, read_from, syscall_handler}
use riscv64_embedded_os.Vfs.Files.{FileOps}

-- No character but the last one is a line feed.
abbrev pub OneLine : List ℕ → Type 0
OneLine [] = Unit {0}
OneLine (c ∷ []) = Unit {0}
OneLine (c ∷ d ∷ cs) = (c ≢ 10) × OneLine (d ∷ cs)

abbrev pub ends_line : List ℕ → Bool
ends_line [] = false
ends_line (c ∷ []) = c == 10
ends_line (c ∷ d ∷ cs) = ends_line (d ∷ cs)

-- the number of the characters is the result, they stand in the buffer, and no other byte changes
pub record Received {D : Type 0} (k t : Kernel D) (i buf : ℕ) (line rest : List ℕ) : Type 0 where
  pub here : text_at (length line) i t.bytes buf ≡ line
  pub elsewhere :
      (a : ℕ) → ((j : ℕ) → i ≤ j → j < i + length line → at_index buf j ≢ a) → t.bytes a ≡ k.bytes a
  pub left : t.input ≡ rest
  pub same : (t.sched ≡ k.sched) × (t.files ≡ k.files) × (t.output ≡ k.output)

Received-none :
    {D : Type 0} (k : Kernel D) (i buf : ℕ) (rest : List ℕ)
    → k.input ≡ rest
    → Received k k i buf [] rest
Received-none k i buf rest e = record {
  here = refl;
  elsewhere = λ a out. refl;
  left = e;
  same = (refl, refl, refl);
}

-- Places of the buffer differ.
apart : (buf i j : ℕ) → i < j → j < 2 ^ 64 → at_index buf j ≢ at_index buf i
apart buf i j h b = omega arith

Received-cons :
    {D : Type 0} (k t : Kernel D) (i buf c : ℕ) (cs more rest : List ℕ)
    → i + 1 + length cs < 2 ^ 64
    → Received (receive k (at_index buf i) c more) t (i + 1) buf cs rest
    → Received k t i buf (c ∷ cs) rest
Received-cons k t i buf c cs more rest bound r = record {
  here = ap₂ ◌∷◌ first r.here;
  elsewhere = λ a out.
      r.elsewhere a (λ j h b. out j (omega arith) (omega arith))
      ∙ rw (==_ne (at_index buf i) a (out i (omega arith) (omega arith)));
  left = r.left;
  same = r.same;
}
  where
    first : t.bytes (at_index buf i) ≡ c
    first =
        r.elsewhere (at_index buf i) (λ j h b. apart buf i j (omega arith) (omega arith))
        ∙ rw (==_refl (at_index buf i))

-- the outcome of the loop
abbrev pub Reads :
    {D : Type 0} → Kernel D → ℕ → ℕ → List ℕ → List ℕ → Option (ℕ × Kernel D) → Type 0
Reads {D} k i buf line rest r =
    (t : Kernel D) × (r ≡ some (i + length line, t)) × Received k t i buf line rest

module _ {D : Type 0} where
  read_from-Reads :
      (left i : ℕ) (k : Kernel D) (buf : ℕ) (line rest : List ℕ)
      → k.input ≡ line ++ rest
      → OneLine line
      → length line ≤ left
      → ((length line ≡ left) ⊎ (ends_line line ≡ true))
      → i + left < 2 ^ 64
      → Reads k i buf line rest (read_from left i k (line ++ rest) buf)
  unfolding read_from
  read_from-Reads zero i k buf [] rest e o h w b =
      (k, ap (λ n. some (n, k)) (omega arith), Received-none k i buf rest e)
  read_from-Reads zero i k buf (c ∷ cs) rest e o h w b = absurd (omega arith)
  read_from-Reads (suc left) i k buf [] rest e o h w b = absurd (ground (arith, w))
  read_from-Reads (suc left) i k buf (c ∷ []) rest e o h w b =
      let k' = receive k (at_index buf i) c rest in
      let r =
        Received-cons k k' i buf c [] rest rest (omega arith)
          (Received-none k' (i + 1) buf rest refl) in
      elim (Bool-cases (c == 10)) [
        | inl f ↦ rw f (k', refl, r)
        | inr f ↦ let last : left ≡ 0 = ground (arith, w, f) in rw (f, last) (k', refl, r)
      ]
  read_from-Reads (suc left) i k buf (c ∷ d ∷ cs) rest e o h w b =
      let k' = receive k (at_index buf i) c (d ∷ cs ++ rest) in
      let (t, result, r) =
        read_from-Reads left (i + 1) k' buf (d ∷ cs) rest refl o.1 (omega arith)
          (elim w [ inl a ↦ inl (omega arith) | inr a ↦ inr a ]) (omega arith) in
      (
        t,
        rw (==_ne c 10 o.0) (result ∙ ap (λ n. some (n, t)) (omega arith)),
        Received-cons k t i buf c (d ∷ cs) (d ∷ cs ++ rest) rest (omega arith) r,
      )

  -- When the input begins with a line of at most `len` characters that a line feed ends, or with
  -- `len` characters of which at most the last one is a line feed, `SYS_READ` returns their number:
  -- they stand in the buffer in their order, they alone are taken from the input, and nothing else
  -- changes.
  pub sys_read-Reads :
      (table : ℕ → FileOps D) (heap_end : ℕ) (k : Kernel D) (buf len : ℕ) (line rest : List ℕ)
      → k.input ≡ line ++ rest
      → OneLine line
      → length line ≤ len
      → ((length line ≡ len) ⊎ (ends_line line ≡ true))
      → len < 2 ^ 64
      → Reads k 0 buf line rest (syscall_handler table heap_end k 0 buf len)
  unfolding syscall_handler
  sys_read-Reads table heap_end k buf len line rest e o h w b =
      subst (λ cs. Reads k 0 buf line rest (read_from len 0 k cs buf)) (sym e)
        (read_from-Reads len 0 k buf line rest e o h w (omega arith))
