-- ===== src/Vm/Mapping.antt =====
-- `mappages`, and `va2pa` and `walkaddr` behind it.
use riscv64_embedded_os.Prelude.{
  ℕ, suc, ◌+◌, ◌-◌, ◌*◌, ◌/◌, ◌%◌, ◌^◌, ◌≤◌, ◌<◌, ◌≡◌, refl, false, List, some, arith, ◌==◌, leb,
  if◌then◌else◌, Bool-cases, inl, inr,
}
use riscv64_embedded_os.Prelude.Int.{ℤ, pos}
use riscv64_embedded_os.Mm.{Mm}
use riscv64_embedded_os.Vm.{Call, returns, max_va, mappages, rounds, round_down, va2pa}
use riscv64_embedded_os.Vm.Entry.{make_pte_lem}
use riscv64_embedded_os.Vm.Tables.{lookup, Owner}
use riscv64_embedded_os.Vm.Space.{Space}
use riscv64_embedded_os.Vm.Map.{Mapped, Maps, done, failed, remap, in_run, entry_for}
use riscv64_embedded_os.Vm.Mappages.{map_from-Maps}
use riscv64_embedded_os.Vm.Translate.{address_of, va2pa-entry}

-- the outcome of `mappages`
abbrev pub MapsPages : Mm → ℕ → ℕ → ℕ → ℕ → ℕ → Call ℤ × Mm → Type 0
MapsPages s pagetable va size pa perm (r, t) =
    Maps s pagetable (round_down va) pa perm (rounds va size) r t

-- With well-formed tables, a 64-bit `pa` and permissions within the ten bits of flags, `mappages`
-- of a size that is not 0 returns 0 with all pages from that of `va` to the last one mapped, in
-- order, to the pages from `pa` on; or it returns -1, having mapped the first of them, because the
-- next one is not below `MAXVA` or no page is left for a table; or it panics, having mapped the
-- first of them, at a page that was mapped before. In each case no other page is translated
-- otherwise, and the tables stay well formed.
pub mappages-Maps :
    (s : Mm) (pagetable : ℕ) (own : Owner) (xs : List ℕ) (va size pa perm : ℕ)
    → Space s pagetable own xs
    → 0 < size
    → pa < 2 ^ 64
    → perm < 1024
    → MapsPages s pagetable va size pa perm (mappages s pagetable va size pa perm)
unfolding mappages
mappages-Maps s pagetable own xs va size pa perm space some_size address bits =
    let sized : size == 0 ≡ false = ground arith in
    rw sized (
      map_from-Maps (rounds va size) s pagetable own xs (round_down va) pa perm space (omega arith)
        address bits)

Maps-done :
    {s : Mm} {pagetable a pa perm left : ℕ} {r : Call ℤ} {t : Mm}
    → Maps s pagetable a pa perm left r t
    → r ≡ returns (pos 0)
    → Mapped s pagetable a pa perm (suc left) t
Maps-done (done h m) e = m
Maps-done (failed n h m why) e = absurd (grind (arith, e))
Maps-done (remap n x h k m found) e = absurd (grind (arith, e))

mapped_address :
    (a pa perm va : ℕ)
    → a / 4096 ≤ va / 4096
    → perm < 1024
    → address_of va (some (entry_for (a / 4096) pa perm va))
      ≡ (pa / 4096 * 4096 + (va - a / 4096 * 4096)) % 2 ^ 64
mapped_address a pa perm va h bits =
    rw ((make_pte_lem ((pa + (va / 4096 - a / 4096) * 4096) % 2 ^ 64) perm (omega arith) bits).1)
      (omega arith)

-- When `mappages` returned 0 for well-formed tables, a size that is not 0, a 64-bit `pa` and
-- permissions within the ten bits of flags, `va2pa` gives for an address below `MAXVA` in one of
-- the pages that it mapped the address as far behind the start of the page of `pa` as it is behind
-- that of `va`, in 64 bits; and for one in any other page what it gave before.
pub mappages-va2pa :
    (s t : Mm) (pagetable : ℕ) (own : Owner) (xs : List ℕ) (va size pa perm : ℕ)
    → Space s pagetable own xs
    → 0 < size
    → pa < 2 ^ 64
    → perm < 1024
    → mappages s pagetable va size pa perm ≡ (returns (pos 0), t)
    → (x : ℕ) → x < max_va
    → va2pa t pagetable x ≡ (
        if in_run (va / 4096) (suc (rounds va size)) x
        then (pa / 4096 * 4096 + (x - va / 4096 * 4096)) % 2 ^ 64
        else va2pa s pagetable x)
mappages-va2pa s t pagetable own xs va size pa perm space some_size address bits e x below =
    rw
      (
        va2pa-entry s pagetable own x space.tree,
        va2pa-entry t pagetable m.owner x m.space.tree,
        inside,
        translated,
      )
      (elim (Bool-cases (in_run (va / 4096) (suc (rounds va size)) x)) [
        | inl r ↦ rw r (mapped_address va pa perm x (ground (arith, r)) bits)
        | inr r ↦ rw r
      ])
  where
    m : Mapped s pagetable (round_down va) pa perm (suc (rounds va size)) t
    m =
        let outcome =
          mappages-Maps s pagetable own xs va size pa perm space some_size address bits in
        Maps-done (rw e at outcome) refl

    inside : leb max_va x ≡ false
    inside = ground arith

    first : round_down va / 4096 ≡ va / 4096
    first = omega arith

    translated : lookup t.mem pagetable x ≡ (
        if in_run (va / 4096) (suc (rounds va size)) x
        then some (entry_for (va / 4096) pa perm x)
        else lookup s.mem pagetable x)
    translated = rw first at m.translates x below
