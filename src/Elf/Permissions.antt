-- ===== src/Elf/Permissions.antt =====
-- The permissions that `elf_load` of kernel/process/elf.c computes for a segment, and uses for
-- nothing yet.
use riscv64_embedded_os.Prelude.{
  ℕ, ◌^◌, ◌≡◌, refl, Bool, true, false, not, ◌==◌, if◌then◌else◌, bit, bit_and, bit_or,
}
use riscv64_embedded_os.Elf.{Phdr}

-- `PF_X`, `PF_W` and `PF_R`
abbrev pub pf_x : ℕ
pf_x = 1

abbrev pub pf_w : ℕ
pf_w = 2

abbrev pub pf_r : ℕ
pf_r = 4

-- whether `flags & flag`
abbrev pub has : ℕ → ℕ → Bool
has flags flag = not (bit_and flags flag == 0)

-- `perm` behind the four statements, given the three conditions
abbrev pub perm_of : Bool → Bool → Bool → ℕ
perm_of r w x =
    let perm1 = if r then bit_or 0 (2 ^ 1) else 0 in
    let perm2 = if w then bit_or perm1 (2 ^ 2) else perm1 in
    let perm3 = if x then bit_or perm2 (2 ^ 3) else perm2 in bit_or perm3 (2 ^ 4)

unfoldable pub segment_perm : Phdr → ℕ
segment_perm p = perm_of (has p.p_flags pf_r) (has p.p_flags pf_w) (has p.p_flags pf_x)

perm_of-bits :
    (r w x : Bool)
    → (bit 0 (perm_of r w x) ≡ false)
      × (bit 1 (perm_of r w x) ≡ r)
      × (bit 2 (perm_of r w x) ≡ w)
      × (bit 3 (perm_of r w x) ≡ x)
      × (bit 4 (perm_of r w x) ≡ true)
unfolding bit
perm_of-bits true true true = (refl, refl, refl, refl, refl)
perm_of-bits true true false = (refl, refl, refl, refl, refl)
perm_of-bits true false true = (refl, refl, refl, refl, refl)
perm_of-bits true false false = (refl, refl, refl, refl, refl)
perm_of-bits false true true = (refl, refl, refl, refl, refl)
perm_of-bits false true false = (refl, refl, refl, refl, refl)
perm_of-bits false false true = (refl, refl, refl, refl, refl)
perm_of-bits false false false = (refl, refl, refl, refl, refl)

-- The flags of a segment say which of reading, writing and executing its entries allow; they are
-- always open to the user, and not marked valid.
segment_perm-bits :
    (p : Phdr)
    → (bit 0 (segment_perm p) ≡ false)
      × (bit 1 (segment_perm p) ≡ has p.p_flags pf_r)
      × (bit 2 (segment_perm p) ≡ has p.p_flags pf_w)
      × (bit 3 (segment_perm p) ≡ has p.p_flags pf_x)
      × (bit 4 (segment_perm p) ≡ true)
unfolding segment_perm
segment_perm-bits p = perm_of-bits (has p.p_flags pf_r) (has p.p_flags pf_w) (has p.p_flags pf_x)
