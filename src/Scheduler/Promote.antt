-- ===== src/Scheduler/Promote.antt =====
-- One round of the boost of a level.
use riscv64_embedded_os.Prelude.{
  ℕ, ◌+◌, ◌<◌, ◌≡◌, refl, ◌≢◌, false, List, [], ◌∷◌, ◌++◌, arith, ◌==◌, if◌then◌else◌, length,
  ==_ne, ◌∙◌, ap, fun_ext, sym, Bool-cases, inl, inr,
}
use mathlib.Core.List.{append-nil}
use riscv64_embedded_os.Mlfq
use riscv64_embedded_os.Mlfq.{Mlfq, null, max_processes}
use riscv64_embedded_os.Mlfq.Ring
use riscv64_embedded_os.Process.{Policy}
use riscv64_embedded_os.Scheduler.{Sched, num_queue_levels}
use riscv64_embedded_os.Scheduler.Invariant.{at_level}
use riscv64_embedded_os.Scheduler.Tick.{boost_one, is_normal}

-- the processes of normal policy
unfoldable pub keep : (ℕ → Policy) → List ℕ → List ℕ
keep policy [] = []
keep policy (x ∷ xs) = let rest = keep policy xs in if is_normal (policy x) then x ∷ rest else rest

abbrev pub policies : Sched → ℕ → Policy
policies s p = (s.procs p).policy

abbrev pub Valid : Sched → Type 0
Valid s = (k : ℕ) → k < num_queue_levels → Ring.IsValid (s.ready k)

-- one round of the loop at a level that holds `p ∷ xs`
abbrev pub Moved : Sched → ℕ → ℕ → List ℕ → Sched → Type 0
Moved s level p xs t =
    (at_level t level ≡ xs)
    × (at_level t 0 ≡ at_level s 0 ++ keep (policies s) (p ∷ []))
    × ((k : ℕ) → k ≢ 0 → k ≢ level → t.ready k ≡ s.ready k)
    × (t.rt ≡ s.rt)
    × (policies t ≡ policies s)
    × Valid t

pub boost_one-Moved :
    (s : Sched) (level p : ℕ) (xs : List ℕ)
    → Valid s
    → level ≢ 0
    → level < num_queue_levels
    → at_level s level ≡ p ∷ xs
    → p ≢ null
    → (s.ready 0).size < max_processes
    → Moved s level p xs (boost_one level s)
unfolding boost_one keep
boost_one-Moved s level p xs valid pos h e ne room =
    elim (Bool-cases (is_normal (policies s d.0))) [
      | inl n ↦
          rw (real, n, boost_one, ==_ne level 0 pos)
            (
              ground (arith, front),
              rw (same, n) entered.0,
              (λ k a b. ground arith),
              refl,
              fun_ext (λ q. ground arith),
              (λ k b.
                  ground (arith, valid k, Ring.enqueue-IsValid d.0 (valid 0 (omega arith)), left)),
            )
      | inr n ↦
          rw (real, n, boost_one, ==_ne level 0 pos)
            (
              ground (arith, front),
              rw (same, n) (sym (append-nil (at_level s 0))),
              (λ k a b. ground arith),
              refl,
              refl,
              (λ k b. ground (arith, valid k, left)),
            )
    ]
  where
    d : ℕ × Mlfq
    d = Mlfq.dequeue (s.ready level)

    front : p ∷ xs ≡ d.0 ∷ Ring.contents d.1
    front =
        sym e
        ∙ (Ring.dequeue_some (s.ready level)
            (omega (arith, ap length e, Ring.length-contents (s.ready level)))).0

    same : p ≡ d.0
    same = ground (arith, front)

    real : (d.0 == null) ≡ false
    real = ==_ne d.0 null (λ z. ne (ground (arith, front)))

    left : Ring.IsValid d.1
    left = Ring.dequeue-IsValid (valid level h)

    entered :
        (Ring.contents (Mlfq.enqueue (s.ready 0) d.0) ≡ at_level s 0 ++ d.0 ∷ [])
        × ((Mlfq.enqueue (s.ready 0) d.0).size ≡ (s.ready 0).size + 1)
    entered = Ring.enqueue_room d.0 (valid 0 (omega arith)) (λ z. ne (ground (arith, front))) room
