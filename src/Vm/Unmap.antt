-- ===== src/Vm/Unmap.antt =====
-- `unmappages`: the pages that it unmaps, and the first one that was not mapped.
use riscv64_embedded_os.Prelude.{
  ℕ, zero, suc, ◌+◌, ◌*◌, ◌/◌, ◌%◌, ◌^◌, ◌≤◌, ◌<◌, ◌≡◌, refl, ◌≢◌, ◌∙◌, ap, sym, true, false, List,
  Option, none, some, arith, ◌==◌, leb, if◌then◌else◌, Bool-cases, inl, inr,
}
use riscv64_embedded_os.Mm.{Mm, page_size}
use riscv64_embedded_os.Vm.{Call, returns, panics, pte_valid, slot, store, walk, unmap_from, max_va}
use riscv64_embedded_os.Vm.Tables.{lookup, Owner}
use riscv64_embedded_os.Vm.Space.{Space}
use riscv64_embedded_os.Vm.Walk.{path_at, Reach, lookup-reached}
use riscv64_embedded_os.Vm.Leaf.{set_entry, set_entry-Space, lookup-set_entry, lookup-page}
use riscv64_embedded_os.Vm.Map.{in_run, next_page, in_run_first, in_run_passed, in_run_later}
use riscv64_embedded_os.Vm.Translate.{entry_at, read_at, read_at-none}

-- The `n` pages from `a` on, all of them mapped before, are not mapped; no other page is translated
-- otherwise, and the tables are those that there were.
pub record Unmapped (s : Mm) (pagetable : ℕ) (own : Owner) (xs : List ℕ) (a n : ℕ) (t : Mm)
    : Type 0 where
  pub space : Space t pagetable own xs
  pub before :
      (va : ℕ) → va < max_va → in_run (a / 4096) n va ≡ true → lookup s.mem pagetable va ≢ none
  pub translates :
      (va : ℕ)
      → va < max_va
      → lookup t.mem pagetable va
        ≡ (if in_run (a / 4096) n va then none else lookup s.mem pagetable va)

-- The outcomes of the loop with `left` rounds behind the first one: all pages are unmapped; or
-- some, because the next one was not mapped.
pub data Unmaps (s : Mm) (pagetable : ℕ) (own : Owner) (xs : List ℕ) (a left : ℕ)
    : Call (Unit {0}) → Mm → Type 0 where
  done :
      {t : Mm}
      → a + left * 4096 < max_va
      → Unmapped s pagetable own xs a (suc left) t
      → Unmaps s pagetable own xs a left (returns tt) t
  unmapped :
      {t : Mm} (n : ℕ)
      → n ≤ left
      → Unmapped s pagetable own xs a n t
      → entry_at s pagetable (a + n * 4096) ≡ none
      → Unmaps s pagetable own xs a left panics t

-- what `unmap_from` does with the place that the walk gave
abbrev pub unmap_on : ℕ → Mm → ℕ → ℕ → Option ℕ → Call (Unit {0}) × Mm
unmap_on zero s pagetable a place = elim place [
  | none ↦ (panics, s)
  | some pte ↦ if pte_valid (s.mem pte) then (returns tt, store s pte 0) else (panics, s)
]
unmap_on (suc left) s pagetable a place = elim place [
  | none ↦ (panics, s)
  | some pte ↦
      let rest = unmap_from left (store s pte 0) pagetable ((a + page_size) % 2 ^ 64) in
      if pte_valid (s.mem pte) then rest else (panics, s)
]

pub unmap_from-unmap_on :
    (left : ℕ) (s : Mm) (pagetable a : ℕ)
    → unmap_from left s pagetable a ≡ unmap_on left s pagetable a (walk s pagetable a false).0
unfolding unmap_from
unmap_from-unmap_on zero s pagetable a = refl
unmap_from-unmap_on (suc left) s pagetable a = refl

unmap_on-vacant :
    (left : ℕ) (s : Mm) (pagetable a : ℕ) (place : Option ℕ)
    → read_at s place ≡ none
    → unmap_on left s pagetable a place ≡ (panics, s)
unmap_on-vacant zero s pagetable a none e = refl
unmap_on-vacant (suc left) s pagetable a none e = refl
unmap_on-vacant zero s pagetable a (some pte) e = let v = read_at-none s pte e in rw v
unmap_on-vacant (suc left) s pagetable a (some pte) e = let v = read_at-none s pte e in rw v

abbrev pub Ends : Mm → ℕ → Owner → List ℕ → ℕ → ℕ → Call (Unit {0}) × Mm → Type 0
Ends s pagetable own xs a left (r, t) = Unmaps s pagetable own xs a left r t

Unmapped-none :
    {s : Mm} {pagetable : ℕ} {own : Owner} {xs : List ℕ} (a : ℕ)
    → Space s pagetable own xs
    → Unmapped s pagetable own xs a 0 s
Unmapped-none a space = record {
  space = space;
  before = λ va h e. absurd (ground (arith, e));
  translates = λ va h. let out : in_run (a / 4096) 0 va ≡ false = ground arith in rw out;
}

module _ (s : Mm) (pagetable : ℕ) (own : Owner) (xs : List ℕ) (space : Space s pagetable own xs)
    (a : ℕ) where
  pub vacant-Ends :
      (left : ℕ) (place : Option ℕ)
      → read_at s place ≡ none
      → entry_at s pagetable a ≡ none
      → Ends s pagetable own xs a left (unmap_on left s pagetable a place)
  vacant-Ends left place e f =
      let here : a + 0 * 4096 ≡ a = omega arith in
      rw (unmap_on-vacant left s pagetable a place e)
        (unmapped 0 (omega arith) (Unmapped-none a space) (rw here f))

  module _ (z : ℕ) (last : own z ≡ some (path_at 0 a)) (reach : Reach 2 s.mem pagetable a z)
      (aligned : a % 4096 ≡ 0) (below : a < max_va)
      (valid : pte_valid (s.mem (slot z 0 a)) ≡ true) where
    abbrev pub cleared : Mm
    cleared = set_entry s pagetable own xs space a z 0 last reach

    pub cleared-Space : Space cleared pagetable own xs
    cleared-Space = set_entry-Space s pagetable own xs space a z 0 last reach

    lookup-cleared :
        (va : ℕ)
        → va < max_va
        → lookup cleared.mem pagetable va
          ≡ (if va / 4096 == a / 4096 then none else lookup s.mem pagetable va)
    lookup-cleared va h = lookup-set_entry s pagetable own xs space a z 0 last reach va below h

    was_some :
        (va : ℕ) → va / 4096 ≡ a / 4096 → lookup s.mem pagetable va ≡ some (s.mem (slot z 0 a))
    was_some va e =
        lookup-page s.mem pagetable va a e ∙ lookup-reached s.mem pagetable a z reach ∙ rw valid

    module _ (n : ℕ) (t : Mm)
        (m : Unmapped cleared pagetable own xs ((a + 4096) % 2 ^ 64) n t) where
      later :
          (va : ℕ)
          → va < max_va
          → lookup t.mem pagetable va
            ≡ (if in_run (a / 4096 + 1) n va then none else lookup cleared.mem pagetable va)
      later va h = let r = m.translates va h in rw (next_page a aligned below) at r

      Unmapped-cons : Unmapped s pagetable own xs a (suc n) t
      Unmapped-cons = record {
        space = m.space;
        before = λ va h r. elim (Bool-cases (va / 4096 == a / 4096)) [
          | inl e ↦ λ gone. absurd (grind (arith, sym gone ∙ was_some va (ground (arith, e))))
          | inr e ↦
              let other : va / 4096 ≢ a / 4096 = ground arith in
              let inside = sym (in_run_later (a / 4096) n va other) ∙ r in
              λ gone.
                m.before va h (ap (λ f. in_run f n va) (next_page a aligned below) ∙ inside)
                  (lookup-cleared va h ∙ rw e gone)
        ];
        translates = λ va h. elim (Bool-cases (va / 4096 == a / 4096)) [
          | inl e ↦
              let same : va / 4096 ≡ a / 4096 = ground arith in
              rw (in_run_first (a / 4096) n va same)
                (later va h ∙ rw (in_run_passed (a / 4096) n va same) (lookup-cleared va h ∙ rw e))
          | inr e ↦
              let other : va / 4096 ≢ a / 4096 = ground arith in
              rw (in_run_later (a / 4096) n va other) (
                later va h
                ∙ ap (λ r. if in_run (a / 4096 + 1) n va then none else r)
                    (lookup-cleared va h ∙ rw e))
        ];
      }

    Unmapped-one : Unmapped s pagetable own xs a 1 cleared
    Unmapped-one = Unmapped-cons 0 cleared (Unmapped-none ((a + 4096) % 2 ^ 64) cleared-Space)

    entry_behind :
        (k : ℕ) → entry_at cleared pagetable (a + 4096 + k) ≡ entry_at s pagetable (a + 4096 + k)
    entry_behind k = elim (Bool-cases (leb max_va (a + 4096 + k))) [
      | inl e ↦ rw e
      | inr e ↦
          let other : (a + 4096 + k) / 4096 == a / 4096 ≡ false = ground arith in
          rw e (lookup-cleared (a + 4096 + k) (ground (arith, e)) ∙ rw other)
    ]

    Ends-shift :
        (left : ℕ) (r : Call (Unit {0})) (t : Mm)
        → Unmaps cleared pagetable own xs ((a + 4096) % 2 ^ 64) left r t
        → Unmaps s pagetable own xs a (suc left) r t
    Ends-shift left r t (done h m) = done (omega arith) (Unmapped-cons (suc left) t m)
    Ends-shift left r t (unmapped n h m e) =
        let on : (a + 4096) % 2 ^ 64 + n * 4096 ≡ a + 4096 + n * 4096 = omega arith in
        let same : a + suc n * 4096 ≡ a + 4096 + n * 4096 = omega arith in
        unmapped (suc n) (omega arith) (Unmapped-cons n t m)
          (rw same (sym (entry_behind (n * 4096)) ∙ rw on at e))

    abbrev pub Later : ℕ → Type 0
    Later zero = Unit {0}
    Later (suc left) =
        Ends cleared pagetable own xs ((a + 4096) % 2 ^ 64) left
          (unmap_from left cleared pagetable ((a + 4096) % 2 ^ 64))

    pub cleared-Ends :
        (left : ℕ)
        → Later left
        → Ends s pagetable own xs a left (unmap_on left s pagetable a (some (slot z 0 a)))
    cleared-Ends zero later = rw valid (done (omega arith) Unmapped-one)
    cleared-Ends (suc left) later = rw valid (Ends-shift left _ _ later)
