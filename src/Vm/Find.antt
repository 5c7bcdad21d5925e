-- ===== src/Vm/Find.antt =====
-- `walk` without `alloc`: the entry that it finds, if the tables lead to one.
use riscv64_embedded_os.Prelude.{
  ℕ, zero, suc, ◌≤◌, ◌<◌, ◌≡◌, refl, ◌∙◌, ap, true, false, Option, none, some, arith, Bool-cases,
  inl, inr, length,
}
use riscv64_embedded_os.Mm.{Mm}
use riscv64_embedded_os.Vm.{pte_valid, pte2pa, px, slot, descend, walk_from}
use riscv64_embedded_os.Vm.Entry.{px-lt}
use riscv64_embedded_os.Vm.Tables.{lookup_from, Owner, IsTree}
use riscv64_embedded_os.Vm.Walk.{
  path_at, path_at-suc, length-path_at, Reach, descend_valid, walk_from-step, walk_from-stop,
}

-- The outcomes of a walk that adds no tables, which leaves the memory as it was.
pub data Finds (s : Mm) (own : Owner) (level table va : ℕ) : Option ℕ × Mm → Type 0 where
  missing : lookup_from level s.mem table va ≡ none → Finds s own level table va (none, s)
  found :
      (z : ℕ)
      → own z ≡ some (path_at 0 va)
      → Reach level s.mem table va z
      → Finds s own level table va (some (slot z 0 va), s)

descend_stops :
    (s : Mm) (level table va : ℕ)
    → pte_valid (s.mem (slot table level va)) ≡ false
    → descend s level table va false ≡ (none, s)
unfolding descend
descend_stops s level table va invalid = rw invalid

pub walk_from-Finds :
    (level : ℕ) (s : Mm) (pagetable : ℕ) (own : Owner) (table va : ℕ)
    → level ≤ 2
    → IsTree s.mem pagetable own
    → own table ≡ some (path_at level va)
    → Finds s own level table va (walk_from level s table va false)
unfolding lookup_from
walk_from-Finds zero s pagetable own table va h tree e = unfold walk_from in found table e refl
walk_from-Finds (suc level) s pagetable own table va h tree e =
    elim (Bool-cases (pte_valid (s.mem (slot table (suc level) va)))) [
      | inr invalid ↦
          rw
            (walk_from-stop level s s table va false (descend_stops s (suc level) table va invalid))
            (missing (rw invalid))
      | inl valid ↦
          let up : length (path_at (suc level) va) < 2 =
            omega (arith, length-path_at (suc level) va h) in
          let child =
            tree.children table (path_at (suc level) va) (px (suc level) va) e up
              (px-lt (suc level) va) valid
            ∙ ap some (path_at-suc level va (omega arith)) in
          rw
            (walk_from-step level s s table (pte2pa (s.mem (slot table (suc level) va))) va false
              (descend_valid s (suc level) table va false valid))
            (further valid (
              walk_from-Finds level s pagetable own (pte2pa (s.mem (slot table (suc level) va))) va
                (omega arith) tree child))
    ]
  where
    further :
        {r : Option ℕ × Mm}
        → pte_valid (s.mem (slot table (suc level) va)) ≡ true
        → Finds s own level (pte2pa (s.mem (slot table (suc level) va))) va r
        → Finds s own (suc level) table va r
    further valid (missing none_here) = missing (rw (valid, none_here))
    further valid (found z o r) = found z o (valid, r)
