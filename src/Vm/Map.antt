-- ===== src/Vm/Map.antt =====
-- `mappages`: the pages that it maps, whether it completes or not.
use riscv64_embedded_os.Prelude.{
  ℕ, suc, ◌+◌, ◌-◌, ◌*◌, ◌/◌, ◌%◌, ◌^◌, ◌≤◌, ◌<◌, ◌≡◌, refl, ◌≢◌, ◌∙◌, ap, sym, Bool, true, false,
  List, [], none, some, arith, ◌==◌, leb, ltb, ◌&&◌, if◌then◌else◌, Bool-cases, inl, inr, ◌⊎◌,
}
use riscv64_embedded_os.Prelude.Int.{ℤ, pos, minus_one}
use riscv64_embedded_os.Mm.{Mm}
use riscv64_embedded_os.Vm.{Call, returns, panics, pte_valid, slot, make_pte, max_va}
use riscv64_embedded_os.Vm.Entry.{make_pte_lem}
use riscv64_embedded_os.Vm.Tables.{lookup, Owner}
use riscv64_embedded_os.Vm.Space.{Space, Grows}
use riscv64_embedded_os.Vm.Walk.{path_at, Reach, lookup-reached, entry_value}
use riscv64_embedded_os.Vm.Leaf.{set_entry, set_entry-Space, lookup-set_entry, lookup-page}

-- `va` lies in one of the `n` pages from the page number `first` on.
abbrev pub in_run : ℕ → ℕ → ℕ → Bool
in_run first n va = leb first (va / 4096) && ltb (va / 4096) (first + n)

-- the entry for the page of `va` when the page number `first` is mapped to `pa`
abbrev pub entry_for : ℕ → ℕ → ℕ → ℕ → ℕ
entry_for first pa perm va = make_pte ((pa + (va / 4096 - first) * 4096) % 2 ^ 64) perm

-- The `n` pages from `a` on, none of them mapped before, are mapped to those from `pa` on; no other
-- page is translated otherwise, and the tables are well formed.
pub record Mapped (s : Mm) (pagetable a pa perm n : ℕ) (t : Mm) : Type 0 where
  pub owner : Owner
  pub left : List ℕ
  pub space : Space t pagetable owner left
  pub fresh :
      (va : ℕ) → va < max_va → in_run (a / 4096) n va ≡ true → lookup s.mem pagetable va ≡ none
  pub translates :
      (va : ℕ)
      → va < max_va
      → lookup t.mem pagetable va ≡ (
          if in_run (a / 4096) n va
          then some (entry_for (a / 4096) pa perm va)
          else lookup s.mem pagetable va)

-- The outcomes of the loop with `left` rounds behind the first one: all pages are mapped; or some,
-- because the addresses or the memory end; or some, because the next one was mapped before.
pub data Maps (s : Mm) (pagetable a pa perm left : ℕ) : Call ℤ → Mm → Type 0 where
  done :
      {t : Mm}
      → a + left * 4096 < max_va
      → Mapped s pagetable a pa perm (suc left) t
      → Maps s pagetable a pa perm left (returns (pos 0)) t
  failed :
      {t : Mm} (n : ℕ)
      → n ≤ left
      → (m : Mapped s pagetable a pa perm n t) → (max_va ≤ a + n * 4096) ⊎ (m.left ≡ [])
      → Maps s pagetable a pa perm left (returns minus_one) t
  remap :
      {t : Mm} (n e : ℕ)
      → n ≤ left
      → a + n * 4096 < max_va
      → Mapped s pagetable a pa perm n t
      → lookup s.mem pagetable (a + n * 4096) ≡ some e
      → Maps s pagetable a pa perm left panics t

pub Mapped-none :
    {s t : Mm} {pagetable : ℕ} {own : Owner} (a pa perm : ℕ)
    → Grows s pagetable own t
    → Mapped s pagetable a pa perm 0 t
Mapped-none a pa perm g = record {
  owner = g.owner;
  left = g.left;
  space = g.space;
  fresh = λ va h e. absurd (ground (arith, e));
  translates =
      λ va h. let out : in_run (a / 4096) 0 va ≡ false = ground arith in rw out (g.same va);
}

pub left-Mapped-none :
    {s t : Mm} {pagetable : ℕ} {own : Owner} (a pa perm : ℕ) (g : Grows s pagetable own t)
    → (Mapped-none a pa perm g).left ≡ g.left
unfolding Mapped-none
left-Mapped-none a pa perm g = refl

pub next_page : (a : ℕ) → a % 4096 ≡ 0 → a < max_va → (a + 4096) % 2 ^ 64 / 4096 ≡ a / 4096 + 1
next_page a e h = omega arith

pub in_run_first : (f n va : ℕ) → va / 4096 ≡ f → in_run f (suc n) va ≡ true
in_run_first f n va e = ground arith

pub in_run_passed : (f n va : ℕ) → va / 4096 ≡ f → in_run (f + 1) n va ≡ false
in_run_passed f n va e = ground arith

pub in_run_later : (f n va : ℕ) → va / 4096 ≢ f → in_run f (suc n) va ≡ in_run (f + 1) n va
in_run_later f n va ne = ground arith

entry_for_first :
    (f pa perm va : ℕ) → pa < 2 ^ 64 → va / 4096 ≡ f → entry_for f pa perm va ≡ make_pte pa perm
entry_for_first f pa perm va h e =
    let address : (pa + (va / 4096 - f) * 4096) % 2 ^ 64 ≡ pa = omega arith in rw address

entry_for_later :
    (f n pa perm va : ℕ)
    → in_run (f + 1) n va ≡ true
    → entry_for (f + 1) ((pa + 4096) % 2 ^ 64) perm va ≡ entry_for f pa perm va
entry_for_later f n pa perm va h =
    let behind : f < va / 4096 = ground arith in ap (λ q. make_pte q perm) (omega arith)

module _ (s t : Mm) (pagetable : ℕ) (own : Owner) (a pa perm z : ℕ) (g : Grows s pagetable own t)
    (last : g.owner z ≡ some (path_at 0 a)) (reach : Reach 2 t.mem pagetable a z)
    (aligned : a % 4096 ≡ 0) (below : a < max_va) (address : pa < 2 ^ 64) (bits : perm < 1024) where
  abbrev pub entered : Mm
  entered = set_entry t pagetable g.owner g.left g.space a z (make_pte pa perm) last reach

  pub was : lookup s.mem pagetable a ≡ entry_value (t.mem (slot z 0 a))
  was = sym (g.same a) ∙ lookup-reached t.mem pagetable a z reach

  lookup-entered :
      (va : ℕ)
      → va < max_va
      → lookup entered.mem pagetable va
        ≡ (if va / 4096 == a / 4096 then some (make_pte pa perm) else lookup s.mem pagetable va)
  lookup-entered va h =
      lookup-set_entry t pagetable g.owner g.left g.space a z (make_pte pa perm) last reach va below
        h
      ∙ rw ((make_pte_lem pa perm address bits).0, g.same va)

  module _ (vacant : pte_valid (t.mem (slot z 0 a)) ≡ false) where
    was_none : (va : ℕ) → va / 4096 ≡ a / 4096 → lookup s.mem pagetable va ≡ none
    was_none va e = lookup-page s.mem pagetable va a e ∙ was ∙ rw vacant

    pub Mapped-one : Mapped s pagetable a pa perm 1 entered
    Mapped-one = record {
      owner = g.owner;
      left = g.left;
      space = set_entry-Space t pagetable g.owner g.left g.space a z (make_pte pa perm) last reach;
      fresh = λ va h e. was_none va (ground (arith, e));
      translates = λ va h. elim (Bool-cases (va / 4096 == a / 4096)) [
        | inl e ↦
            let same : va / 4096 ≡ a / 4096 = ground arith in
            rw
              (
                in_run_first (a / 4096) 0 va same,
                entry_for_first (a / 4096) pa perm va address same,
              )
              (lookup-entered va h ∙ rw e)
        | inr e ↦
            let other : in_run (a / 4096) 1 va ≡ false = ground arith in
            rw other (lookup-entered va h ∙ rw e)
      ];
    }

    module _ (n : ℕ) (u : Mm)
        (m : Mapped entered pagetable ((a + 4096) % 2 ^ 64) ((pa + 4096) % 2 ^ 64) perm n u) where
      abbrev run : ℕ → Bool
      run va = in_run (a / 4096 + 1) n va

      later :
          (va : ℕ)
          → va < max_va
          → lookup u.mem pagetable va ≡ (
              if run va
              then some (entry_for (a / 4096 + 1) ((pa + 4096) % 2 ^ 64) perm va)
              else lookup entered.mem pagetable va)
      later va h = rw (next_page a aligned below) at m.translates va h

      Mapped-cons-translates :
          (va : ℕ)
          → va < max_va
          → lookup u.mem pagetable va ≡ (
              if in_run (a / 4096) (suc n) va
              then some (entry_for (a / 4096) pa perm va)
              else lookup s.mem pagetable va)
      Mapped-cons-translates va h = elim (Bool-cases (va / 4096 == a / 4096)) [
        | inl e ↦
            let same : va / 4096 ≡ a / 4096 = ground arith in
            rw
              (
                in_run_first (a / 4096) n va same,
                entry_for_first (a / 4096) pa perm va address same,
              )
              (later va h ∙ rw (in_run_passed (a / 4096) n va same) (lookup-entered va h ∙ rw e))
        | inr e ↦
            let other : va / 4096 ≢ a / 4096 = ground arith in
            rw (in_run_later (a / 4096) n va other) (elim (Bool-cases (run va)) [
              | inl r ↦
                  rw r (later va h ∙ rw r (ap some (entry_for_later (a / 4096) n pa perm va r)))
              | inr r ↦ rw r (later va h ∙ rw r (lookup-entered va h ∙ rw e))
            ])
      ]

      pub Mapped-cons : Mapped s pagetable a pa perm (suc n) u
      Mapped-cons = record {
        owner = m.owner;
        left = m.left;
        space = m.space;
        fresh = λ va h r. elim (Bool-cases (va / 4096 == a / 4096)) [
          | inl e ↦ was_none va (ground arith)
          | inr e ↦
              let other : va / 4096 ≢ a / 4096 = ground arith in
              let inside = sym (in_run_later (a / 4096) n va other) ∙ r in
              sym (lookup-entered va h ∙ rw e)
              ∙ m.fresh va h (ap (λ f. in_run f n va) (next_page a aligned below) ∙ inside)
        ];
        translates = Mapped-cons-translates;
      }

      pub left-Mapped-cons : Mapped-cons.left ≡ m.left
      unfolding Mapped-cons
      left-Mapped-cons = refl

      -- A page further on is translated as it was before the first one was mapped.
      pub lookup-behind :
          (k : ℕ)
          → a + 4096 + k < max_va
          → lookup entered.mem pagetable (a + 4096 + k) ≡ lookup s.mem pagetable (a + 4096 + k)
      lookup-behind k h =
          let other : (a + 4096 + k) / 4096 == a / 4096 ≡ false = ground arith in
          lookup-entered (a + 4096 + k) h ∙ rw other
