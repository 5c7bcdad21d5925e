-- ===== src/Vm/Unmapping.antt =====
-- The loop of `unmappages`, and `unmappages`: every outcome.
use riscv64_embedded_os.Prelude.{
  ℕ, zero, suc, ◌+◌, ◌%◌, ◌^◌, ◌<◌, ◌≡◌, refl, ◌∙◌, true, false, List, Option, none, some, arith,
  ◌==◌, leb, Bool-cases, inl, inr,
}
use riscv64_embedded_os.Mm.{Mm}
use riscv64_embedded_os.Vm.{
  Call, pte_valid, slot, unmap_from, max_va, unmappages, rounds, round_down,
}
use riscv64_embedded_os.Vm.Tables.{lookup, Owner}
use riscv64_embedded_os.Vm.Space.{Space}
use riscv64_embedded_os.Vm.Walk.{lookup-reached}
use riscv64_embedded_os.Vm.Mappages.{walk-outside, walk-inside}
use riscv64_embedded_os.Vm.Find.{Finds, missing, found, walk_from-Finds}
use riscv64_embedded_os.Vm.Unmap.{
  Unmaps, Ends, unmap_on, unmap_from-unmap_on, vacant-Ends, cleared, cleared-Space, Later,
  cleared-Ends,
}

-- what the rounds behind this one do
abbrev Behind : ℕ → ℕ → Owner → List ℕ → Type 0
Behind zero pagetable own xs = Unit {0}
Behind (suc left) pagetable own xs =
    (s : Mm) (a : ℕ)
    → Space s pagetable own xs
    → a % 4096 ≡ 0
    → Ends s pagetable own xs a left (unmap_from left s pagetable a)

module _ (s : Mm) (pagetable : ℕ) (own : Owner) (xs : List ℕ) (space : Space s pagetable own xs)
    (a : ℕ) (aligned : a % 4096 ≡ 0) where
  found-Ends :
      (left : ℕ) {r : Option ℕ × Mm}
      → Behind left pagetable own xs
      → leb max_va a ≡ false
      → Finds s own 2 pagetable a r
      → Ends s pagetable own xs a left (unmap_on left s pagetable a r.0)
  found-Ends left behind inside (missing e) =
      vacant-Ends s pagetable own xs space a left none refl (rw inside (unfold lookup in e))
  found-Ends left behind inside (found z last reach) =
      let below : a < max_va = ground (arith, inside) in
      elim (Bool-cases (pte_valid (s.mem (slot z 0 a)))) [
        | inl valid ↦
            cleared-Ends s pagetable own xs space a z last reach aligned below valid left
              (later left behind below valid)
        | inr invalid ↦
            vacant-Ends s pagetable own xs space a left (some (slot z 0 a)) (rw invalid)
              (rw inside (lookup-reached s.mem pagetable a z reach ∙ rw invalid))
      ]
    where
      later :
          (left : ℕ)
          → Behind left pagetable own xs
          → (below : a < max_va) → (valid : pte_valid (s.mem (slot z 0 a)) ≡ true)
          → Later s pagetable own xs space a z last reach aligned below valid left
      later zero behind below valid = tt
      later (suc left) behind below valid =
          behind (cleared s pagetable own xs space a z last reach aligned below valid)
            ((a + 4096) % 2 ^ 64)
            (cleared-Space s pagetable own xs space a z last reach aligned below valid)
            (omega arith)

  round-Ends :
      (left : ℕ)
      → Behind left pagetable own xs
      → Ends s pagetable own xs a left (unmap_from left s pagetable a)
  round-Ends left behind =
      rw (unmap_from-unmap_on left s pagetable a) (elim (Bool-cases (leb max_va a)) [
        | inl out ↦
            rw (walk-outside s pagetable a false out)
              (vacant-Ends s pagetable own xs space a left none refl (rw out))
        | inr inside ↦ rw (walk-inside s pagetable a false inside) (
            found-Ends left behind inside (
              walk_from-Finds 2 s pagetable own pagetable a (omega arith) space.tree
                space.tree.root))
      ])

pub unmap_from-Unmaps :
    (left : ℕ) (s : Mm) (pagetable : ℕ) (own : Owner) (xs : List ℕ) (a : ℕ)
    → Space s pagetable own xs
    → a % 4096 ≡ 0
    → Ends s pagetable own xs a left (unmap_from left s pagetable a)
unmap_from-Unmaps zero s pagetable own xs a space aligned =
    round-Ends s pagetable own xs space a aligned zero tt
unmap_from-Unmaps (suc left) s pagetable own xs a space aligned =
    round-Ends s pagetable own xs space a aligned (suc left)
      λ t b. unmap_from-Unmaps left t pagetable own xs b

-- the outcome of `unmappages`
abbrev pub UnmapsPages : Mm → ℕ → Owner → List ℕ → ℕ → ℕ → Call (Unit {0}) × Mm → Type 0
UnmapsPages s pagetable own xs va size (r, t) =
    Unmaps s pagetable own xs (round_down va) (rounds va size) r t

-- With well-formed tables, `unmappages` of a size that is not 0 returns with all pages from that of
-- `va` to the last one, each of which was mapped, no longer mapped; or it panics, having unmapped
-- the first of them, at a page that was not mapped. In both cases no other page is translated
-- otherwise, and the tables are well formed, the same, and beside the same free pages.
pub unmappages-Unmaps :
    (s : Mm) (pagetable : ℕ) (own : Owner) (xs : List ℕ) (va size : ℕ)
    → Space s pagetable own xs
    → 0 < size
    → UnmapsPages s pagetable own xs va size (unmappages s pagetable va size)
unfolding unmappages
unmappages-Unmaps s pagetable own xs va size space some_size =
    let sized : size == 0 ≡ false = ground arith in
    rw sized
      (unmap_from-Unmaps (rounds va size) s pagetable own xs (round_down va) space (omega arith))
