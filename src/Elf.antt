-- ===== src/Elf.antt =====
-- The ELF checks of kernel/process/elf.h and kernel/process/elf.c. `binary` is the memory from the
-- pointer on, byte by byte; the fields of the packed headers are read from it in the order of
-- bytes of the machine, which is little-endian. Printing is left out.
pub mod Accepts
pub mod Permissions
use riscv64_embedded_os.Prelude.{
  ℕ, zero, suc, ◌+◌, ◌*◌, ◌%◌, ◌^◌, Bool, true, false, not, ◌==◌, ◌&&◌, ◌||◌, ltb, if◌then◌else◌,
  Option, some, none, bit_and, bit_or,
}
use riscv64_embedded_os.Prelude.Int.{ℤ, pos, minus_one, is_zero}

-- a field of `n` bytes at index `at`
unfoldable pub field : ℕ → (ℕ → ℕ) → ℕ → ℕ
field zero binary at = 0
field (suc n) binary at = binary at + 256 * field n binary (at + 1)

-- the fields of `Elf64_Ehdr` that are read
pub record Ehdr : Type 0 where
  pub e_ident : ℕ → ℕ
  pub e_type : ℕ
  pub e_machine : ℕ
  pub e_entry : ℕ
  pub e_phoff : ℕ
  pub e_phnum : ℕ

unfoldable pub read_ehdr : (ℕ → ℕ) → Ehdr
unfolding field
read_ehdr binary = record {
  e_ident = binary;
  e_type = field 2 binary 16;
  e_machine = field 2 binary 18;
  e_entry = field 8 binary 24;
  e_phoff = field 8 binary 32;
  e_phnum = field 2 binary 56;
}

-- the fields of `Elf64_Phdr` that are read
pub record Phdr : Type 0 where
  pub p_type : ℕ
  pub p_flags : ℕ
  pub p_vaddr : ℕ
  pub p_memsz : ℕ

unfoldable pub read_phdr : (ℕ → ℕ) → ℕ → Phdr
unfolding field
read_phdr binary at = record {
  p_type = field 4 binary at;
  p_flags = field 4 binary (at + 4);
  p_vaddr = field 8 binary (at + 16);
  p_memsz = field 8 binary (at + 40);
}

-- `elf_validate`
unfoldable pub validate : Ehdr → ℤ
validate h =
    if not (h.e_ident 0 == 0x7f)
      || not (h.e_ident 1 == 69)
      || not (h.e_ident 2 == 76)
      || not (h.e_ident 3 == 70)
    then minus_one
    else if not (h.e_ident 4 == 2)
    then minus_one
    else if not (h.e_ident 5 == 1)
    then minus_one
    else if not (h.e_machine == 243)
    then minus_one
    else if not (h.e_type == 2)
    then minus_one
    else pos 0

-- `MAXVA`
abbrev pub max_va : ℕ
max_va = 2 ^ 38

-- the address check of `elf_load` on a segment: it fails on this one
abbrev pub out_of_range : Phdr → Bool
out_of_range p = ltb max_va ((p.p_vaddr + p.p_memsz) % 2 ^ 64)

-- the loop of `elf_load` at program header `i`, with `left` to go
unfoldable pub check_from : ℕ → ℕ → (ℕ → ℕ) → ℕ → Bool
check_from zero i binary phoff = true
check_from (suc left) i binary phoff =
    let rest = check_from left (i + 1) binary phoff in
    let p = read_phdr binary (phoff + 56 * i) in
    if not (p.p_type == 1) then rest else if out_of_range p then false else rest

-- `elf_load`: its result and the entry point, if it sets one
unfoldable pub load : (ℕ → ℕ) → ℤ × Option ℕ
unfolding validate read_ehdr check_from
load binary =
    let h = read_ehdr binary in
    if is_zero (validate h)
    then (if check_from h.e_phnum 0 binary h.e_phoff
        then (pos 0, some h.e_entry)
        else (minus_one, none))
    else (minus_one, none)
