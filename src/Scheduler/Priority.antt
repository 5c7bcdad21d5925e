-- ===== src/Scheduler/Priority.antt =====
-- `sched_set_priority`: range, queue level and policy.
use riscv64_embedded_os.Prelude.{
  ℕ, ◌+◌, ◌*◌, ◌≤◌, ◌<◌, ◌≡◌, refl, ◌≢◌, ◌⊎◌, arith, inl, inr, Bool-cases, leb, ==_ne, ==_refl, sym,
  ◌-◌, ◌/◌,
}
use riscv64_embedded_os.Prelude.Int.{ℤ, pos, negsuc}
use riscv64_embedded_os.Mlfq.{null}
use riscv64_embedded_os.Process.{Process, rr}
use riscv64_embedded_os.Scheduler.{
  Sched, set_priority, clamp_priority, clamp_level, num_queue_levels,
}

clamp_priority-le : (priority : ℤ) → clamp_priority priority ≤ 139
clamp_priority-le (pos n) = ground arith
clamp_priority-le (negsuc n) = omega arith

-- the process with another priority: a real-time one, or one at its level of ten priorities
abbrev pub Prioritised : ℕ → Process → Process → Type 0
Prioritised k p v =
    ((k ≤ 99) × (v ≡ record p { priority = k; dynamic_priority = k; policy = rr }))
    ⊎ ((level : ℕ) × (100 + 10 * level ≤ k)
        × (k < 110 + 10 * level)
        × (level < 4)
        × (v ≡ record p { priority = k; dynamic_priority = k; queue_level = level }))

-- `sched_set_priority` on a process that is not NULL sets the priority, clamped to 0 … 139, in
-- both fields. Up to 99 it makes the process a real-time round-robin one; from 100 on it puts it
-- at one of four queue levels, ten priorities to each, and leaves the policy. No other process
-- changes.
pub set_priority-Prioritised :
    (s : Sched) (p : ℕ) (priority : ℤ)
    → p ≢ null
    → let t = set_priority s p priority in
      (clamp_priority priority ≤ 139)
      × Prioritised (clamp_priority priority) (s.procs p) (t.procs p)
      × ((q : ℕ) → q ≢ p → t.procs q ≡ s.procs q)
unfolding set_priority
set_priority-Prioritised s p priority ne = elim (Bool-cases (leb k 99)) [
  | inl e ↦
      rw (==_ne p null ne, e, ==_refl p)
        (bounded, inl (ground arith, refl), λ q other. rw (==_ne p q (λ x. other (sym x))) refl)
  | inr e ↦
      rw (==_ne p null ne, e, ==_refl p)
        (
          bounded,
          inr (level, ground arith, ground arith, ground arith, refl),
          λ q other. rw (==_ne p q (λ x. other (sym x))) refl,
        )
]
  where
    k : ℕ
    k = clamp_priority priority

    level : ℕ
    level = clamp_level ((k - 100) * num_queue_levels / (139 - 100 + 1))

    bounded : clamp_priority priority ≤ 139
    bounded = clamp_priority-le priority

-- A process, not NULL, that was given a priority of at most 99 stays a round-robin one, whatever
-- priority from 0 on it is given afterwards.
pub set_priority_keeps_rr :
    (s : Sched) (p : ℕ) (k n : ℕ)
    → p ≢ null
    → k ≤ 99
    → ((set_priority (set_priority s p (pos k)) p (pos n)).procs p).policy ≡ rr
unfolding set_priority
set_priority_keeps_rr s p k n ne h = ground arith
