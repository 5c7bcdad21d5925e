-- ===== src/Vm/Walk.antt =====
-- `walk`: the entry that it finds, and the tables that it adds on the way.
use riscv64_embedded_os.Prelude.{
  ℕ, zero, suc, ◌+◌, ◌≤◌, ◌<◌, ◌≡◌, refl, ◌∙◌, ap, Bool, true, false, List, [], ◌∷◌, Option, none,
  some, arith, if◌then◌else◌, length, Bool-cases, inl, inr,
}
use riscv64_embedded_os.Mm.{Mm, Mem}
use riscv64_embedded_os.Mm.FreeList.{FreeList, alloc_page-FreeList}
use riscv64_embedded_os.Vm.{pte_valid, pte2pa, px, slot, descend, walk_from}
use riscv64_embedded_os.Vm.Entry.{px-lt}
use riscv64_embedded_os.Vm.Tables.{lookup_from, lookup, Owner}
use riscv64_embedded_os.Vm.Space.{
  Space, Grows, Grows-refl, Grows-trans, linked, linked-Grows, linked-descend, linked-owner,
  linked-Links, owner-Grows, left-Grows, left_refl,
}

-- the indices that lead from the root to the table of `level`
abbrev pub path_at : ℕ → ℕ → List ℕ
path_at zero va = px 1 va ∷ px 2 va ∷ []
path_at (suc zero) va = px 2 va ∷ []
path_at (suc (suc level)) va = []

pub path_at-suc :
    (level va : ℕ) → level < 2 → px (suc level) va ∷ path_at (suc level) va ≡ path_at level va
path_at-suc zero va h = refl
path_at-suc (suc zero) va h = refl
path_at-suc (suc (suc level)) va h = absurd (omega arith)

pub length-path_at : (level va : ℕ) → level ≤ 2 → length (path_at level va) + level ≡ 2
length-path_at zero va h = omega arith
length-path_at (suc zero) va h = omega arith
length-path_at (suc (suc zero)) va h = omega arith
length-path_at (suc (suc (suc level))) va h = absurd (omega arith)

-- Valid entries lead from `table` at `level` to the last table for `va`, which is `z`.
abbrev pub Reach : ℕ → Mem → ℕ → ℕ → ℕ → Type 0
Reach zero mem table va z = table ≡ z
Reach (suc level) mem table va z =
    (pte_valid (mem (slot table (suc level) va)) ≡ true)
    × Reach level mem (pte2pa (mem (slot table (suc level) va))) va z

-- the entry that was found
abbrev pub entry_value : ℕ → Option ℕ
entry_value pte = if pte_valid pte then some pte else none

pub lookup-Reach :
    (level : ℕ) (mem : Mem) (table va z : ℕ)
    → Reach level mem table va z
    → lookup_from level mem table va ≡ entry_value (mem (slot z 0 va))
unfolding lookup_from
lookup-Reach zero mem table va z r = rw r
lookup-Reach (suc level) mem table va z (valid, r) =
    rw valid (lookup-Reach level mem (pte2pa (mem (slot table (suc level) va))) va z r)

pub lookup-reached :
    (mem : Mem) (table va z : ℕ)
    → Reach 2 mem table va z
    → lookup mem table va ≡ entry_value (mem (slot z 0 va))
unfolding lookup
lookup-reached mem table va z r = lookup-Reach 2 mem table va z r

-- The outcomes of a walk that may add tables: memory has run out, or the entry in the last table.
pub data Walks (s : Mm) (pagetable : ℕ) (own : Owner) (level table va : ℕ)
    : Option ℕ → Mm → Type 0 where
  exhausted :
      {t : Mm} (g : Grows s pagetable own t)
      → g.left ≡ []
      → Walks s pagetable own level table va none t
  reached :
      {t : Mm} (z : ℕ) (g : Grows s pagetable own t)
      → g.owner z ≡ some (path_at 0 va)
      → Reach level t.mem table va z
      → Walks s pagetable own level table va (some (slot z 0 va)) t

-- A walk goes on from a table that `g` has.
Walks-then :
    {s t u : Mm} {pagetable : ℕ} {own : Owner} (level table next va : ℕ) (p : List ℕ) {r : Option ℕ}
    (g : Grows s pagetable own t)
    → g.owner table ≡ some p
    → length p < 2
    → pte_valid (t.mem (slot table (suc level) va)) ≡ true
    → pte2pa (t.mem (slot table (suc level) va)) ≡ next
    → Walks t pagetable g.owner level next va r u
    → Walks s pagetable own (suc level) table va r u
Walks-then level table next va p g o up valid leads (exhausted h e) =
    exhausted (Grows-trans g h) (left-Grows g h ∙ e)
Walks-then level table next va p g o up valid leads (reached z h e r) =
    let kept = h.keep table p (px (suc level) va) o up (px-lt (suc level) va) valid in
    reached z (Grows-trans g h) (ap (λ (f : Owner). f z) (owner-Grows g h) ∙ e)
      (ap pte_valid kept ∙ valid, rw (kept, leads) r)

pub descend_valid :
    (s : Mm) (level table va : ℕ) (alloc : Bool)
    → pte_valid (s.mem (slot table level va)) ≡ true
    → descend s level table va alloc ≡ (some (pte2pa (s.mem (slot table level va))), s)
unfolding descend
descend_valid s level table va alloc valid = rw valid

descend_exhausted :
    (s : Mm) (level table va : ℕ)
    → pte_valid (s.mem (slot table level va)) ≡ false
    → FreeList s []
    → descend s level table va true ≡ (none, s)
unfolding descend
descend_exhausted s level table va invalid f = rw (invalid, alloc_page-FreeList s [] f)

-- what `walk_from` does with the outcome of a round
abbrev go_on : ℕ → ℕ → Bool → Option ℕ × Mm → Option ℕ × Mm
go_on level va alloc (r, t) = elim r [
  | none ↦ (none, t)
  | some next ↦ walk_from level t next va alloc
]

pub walk_from-step :
    (level : ℕ) (s t : Mm) (table next va : ℕ) (alloc : Bool)
    → descend s (suc level) table va alloc ≡ (some next, t)
    → walk_from (suc level) s table va alloc ≡ walk_from level t next va alloc
unfolding walk_from
walk_from-step level s t table next va alloc e = ap (go_on level va alloc) e

pub walk_from-stop :
    (level : ℕ) (s t : Mm) (table va : ℕ) (alloc : Bool)
    → descend s (suc level) table va alloc ≡ (none, t)
    → walk_from (suc level) s table va alloc ≡ (none, t)
unfolding walk_from
walk_from-stop level s t table va alloc e = ap (go_on level va alloc) e

abbrev pub Out : Mm → ℕ → Owner → ℕ → ℕ → ℕ → Option ℕ × Mm → Type 0
Out s pagetable own level table va (r, t) = Walks s pagetable own level table va r t

pub walk_from-Out :
    (level : ℕ) (s : Mm) (pagetable : ℕ) (own : Owner) (xs : List ℕ) (table va : ℕ)
    → level ≤ 2
    → Space s pagetable own xs
    → own table ≡ some (path_at level va)
    → Out s pagetable own level table va (walk_from level s table va true)
walk_from-Out zero s pagetable own xs table va h space e =
    unfold walk_from in
    reached table (Grows-refl space) ((Grows-refl space).owned table (path_at 0 va) e) refl
walk_from-Out (suc level) s pagetable own xs table va h space e =
    elim (Bool-cases (pte_valid (s.mem (slot table (suc level) va)))) [
      | inl valid ↦
          found valid
            (λ own' ys next. walk_from-Out level s pagetable own' ys next va (omega arith))
      | inr invalid ↦
          vacant xs space invalid
            (λ t own' ys next. walk_from-Out level t pagetable own' ys next va (omega arith))
    ]
  where
    up : length (path_at (suc level) va) < 2
    up = omega (arith, length-path_at (suc level) va h)

    i : ℕ
    i = px (suc level) va

    found :
        (valid : pte_valid (s.mem (slot table (suc level) va)) ≡ true)
        → ((own' : Owner) (ys : List ℕ) (next : ℕ)
            → Space s pagetable own' ys
            → own' next ≡ some (path_at level va)
            → Out s pagetable own' level next va (walk_from level s next va true))
        → Out s pagetable own (suc level) table va (walk_from (suc level) s table va true)
    found valid ih =
        let g = Grows-refl space in
        let next = pte2pa (s.mem (slot table (suc level) va)) in
        let o = g.owned table (path_at (suc level) va) e in
        let child =
          space.tree.children table (path_at (suc level) va) i e up (px-lt (suc level) va) valid
          ∙ ap some (path_at-suc level va (omega arith)) in
        rw
          (walk_from-step level s s table next va true
            (descend_valid s (suc level) table va true valid))
          (Walks-then level table next va (path_at (suc level) va) g o up valid refl
            (ih g.owner g.left next g.space (g.owned next (path_at level va) child)))

    vacant :
        (ys : List ℕ)
        → Space s pagetable own ys
        → pte_valid (s.mem (slot table (suc level) va)) ≡ false
        → ((t : Mm) (own' : Owner) (zs : List ℕ) (next : ℕ)
            → Space t pagetable own' zs
            → own' next ≡ some (path_at level va)
            → Out t pagetable own' level next va (walk_from level t next va true))
        → Out s pagetable own (suc level) table va (walk_from (suc level) s table va true)
    vacant [] sp invalid ih =
        rw
          (walk_from-stop level s s table va true
            (descend_exhausted s (suc level) table va invalid sp.free))
          (exhausted (Grows-refl sp) (left_refl sp))
    vacant (y ∷ ys) sp invalid ih =
        let p = path_at (suc level) va in
        let lt = px-lt (suc level) va in
        let t = linked s pagetable own y ys sp table i p e up lt invalid in
        let g = linked-Grows s pagetable own y ys sp table i p e up lt invalid in
        let l = linked-Links s pagetable own y ys sp table i p e up lt invalid in
        let child =
          linked-owner s pagetable own y ys sp table i p e up lt invalid
          ∙ ap some (path_at-suc level va (omega arith)) in
        rw
          (walk_from-step level s t table y va true
            (linked-descend s pagetable own y ys sp table i p e up lt invalid (suc level) va refl))
          (Walks-then level table y va p g (g.owned table p e) up l.linked l.leads
            (ih t g.owner g.left y g.space child))
