-- ===== src/Elf/Accepts.antt =====
-- Which binaries the ELF loader accepts.
use riscv64_embedded_os.Prelude.{
  ℕ, zero, suc, ◌+◌, ◌*◌, ◌%◌, ◌^◌, ◌≤◌, ◌<◌, ◌≡◌, refl, ◌⊎◌, inl, inr, Bool, true, false, ◌==◌,
  Option, some, none, arith, ◌&&◌, first, first_below, NoneIn, IsFirst, ◌∙◌, ap,
}
use riscv64_embedded_os.Prelude.Int.{pos, minus_one}
use riscv64_embedded_os.Elf.{
  Ehdr, Phdr, read_ehdr, read_phdr, validate, max_va, out_of_range, check_from, load,
}

-- a 64-bit little-endian executable for RISC-V
abbrev pub IsExecutable : Ehdr → Type 0
IsExecutable h =
    (h.e_ident 0 ≡ 0x7f)
    × (h.e_ident 1 ≡ 69)
    × (h.e_ident 2 ≡ 76)
    × (h.e_ident 3 ≡ 70)
    × (h.e_ident 4 ≡ 2)
    × (h.e_ident 5 ≡ 1)
    × (h.e_machine ≡ 243)
    × (h.e_type ≡ 2)

abbrev pub segment : (ℕ → ℕ) → ℕ → Phdr
segment binary i = read_phdr binary ((read_ehdr binary).e_phoff + 56 * i)

-- The program headers that the loader reads give no loadable segment whose end, modulo 2 ^ 64, is
-- above `MAXVA`.
abbrev pub InRange : (ℕ → ℕ) → Type 0
InRange binary =
    (i : ℕ)
    → i < (read_ehdr binary).e_phnum
    → (segment binary i).p_type ≡ 1
    → ((segment binary i).p_vaddr + (segment binary i).p_memsz) % 2 ^ 64 ≤ max_va

validate_accepts : (h : Ehdr) → IsExecutable h → validate h ≡ pos 0
unfolding validate
validate_accepts h is = ground arith

validate_rejects : (h : Ehdr) → (validate h ≡ pos 0) ⊎ ((validate h ≡ minus_one) × ¬ IsExecutable h)
unfolding validate
validate_rejects h = ground arith

validate_only : (h : Ehdr) → validate h ≡ pos 0 → IsExecutable h
unfolding validate
validate_only h e = ground arith

-- program header `i` makes the loop fail
abbrev bad : (ℕ → ℕ) → ℕ → ℕ → Bool
bad binary phoff i = let p = read_phdr binary (phoff + 56 * i) in (p.p_type == 1) && out_of_range p

abbrev is_none : Option ℕ → Bool
is_none none = true
is_none (some i) = false

check_from-first :
    (left i : ℕ) (binary : ℕ → ℕ) (phoff : ℕ)
    → check_from left i binary phoff ≡ is_none (first (bad binary phoff) left i)
unfolding check_from first
check_from-first zero i binary phoff = refl
check_from-first (suc left) i binary phoff =
    ground (arith, check_from-first left (i + 1) binary phoff)

-- The loop's answer, by its first bad header.
check-cases :
    (n : ℕ) (binary : ℕ → ℕ) (phoff : ℕ)
    → ((check_from n 0 binary phoff ≡ true) × NoneIn (bad binary phoff) 0 n)
      ⊎ ((check_from n 0 binary phoff ≡ false) × ((i : ℕ) × (i < n) × (bad binary phoff i ≡ true)))
check-cases n binary phoff = out (first_below (bad binary phoff) n)
  where
    by_first :
        (r : Option ℕ) → first (bad binary phoff) n 0 ≡ r → check_from n 0 binary phoff ≡ is_none r
    by_first r e = check_from-first n 0 binary phoff ∙ ap is_none e

    out :
        IsFirst (bad binary phoff) 0 n (first (bad binary phoff) n 0)
        → ((check_from n 0 binary phoff ≡ true) × NoneIn (bad binary phoff) 0 n)
          ⊎ ((check_from n 0 binary phoff ≡ false)
              × ((i : ℕ) × (i < n) × (bad binary phoff i ≡ true)))
    out (inl (j, a, b, c, d, e)) = inr (by_first (some j) e, (j, b, c))
    out (inr (d, e)) = inl (by_first none e, d)

-- what `elf_load` accepts
abbrev pub Loadable : (ℕ → ℕ) → Type 0
Loadable binary = IsExecutable (read_ehdr binary) × InRange binary

good :
    (p : Phdr)
    → (p.p_type == 1) && out_of_range p ≡ false
    → p.p_type ≡ 1
    → (p.p_vaddr + p.p_memsz) % 2 ^ 64 ≤ max_va
good p e t = ground arith

not_good :
    (p : Phdr)
    → (p.p_type == 1) && out_of_range p ≡ true
    → (p.p_type ≡ 1) × (max_va < (p.p_vaddr + p.p_memsz) % 2 ^ 64)
not_good p e = ground arith

-- `elf_load` returns 0 and sets the entry point of the header if the binary has the header of a
-- 64-bit little-endian RISC-V executable and all of its loadable segments pass the address check;
-- else it returns -1 and sets nothing.
pub load-Loadable :
    (binary : ℕ → ℕ)
    → ((load binary ≡ (pos 0, some (read_ehdr binary).e_entry)) × Loadable binary)
      ⊎ ((load binary ≡ (minus_one, none)) × ¬ Loadable binary)
unfolding load
load-Loadable binary = elim (validate_rejects (read_ehdr binary)) [
  | inr (e, bad_header) ↦ inr (rw (e, load), λ l. bad_header l.0)
  | inl e ↦ elim (check-cases (read_ehdr binary).e_phnum binary (read_ehdr binary).e_phoff) [
    | inl (c, all) ↦ inl (
      rw (e, c, load),
      (
        validate_only (read_ehdr binary) e,
        λ i h t. good (segment binary i) (all i (omega arith) h) t,
      ),
    )
    | inr (c, (i, h, b)) ↦ inr (
      rw (e, c, load),
      λ l. let (t, above) = not_good (segment binary i) b in absurd (omega (arith, l.1 i h t)),
    )
  ]
]

-- A loadable segment whose end wraps around passes the address check wherever it begins.
pub out_of_range_wraps :
    (p : Phdr)
    → 2 ^ 64 ≤ p.p_vaddr + p.p_memsz
    → p.p_vaddr + p.p_memsz ≤ 2 ^ 64 + max_va
    → out_of_range p ≡ false
out_of_range_wraps p a b = ground arith
