-- ===== src/Scheduler/Next.antt =====
-- `sched_next`: which process runs next.
use riscv64_embedded_os.Prelude.{
  ℕ, zero, suc, ◌+◌, ◌≤◌, ◌<◌, ◌≡◌, refl, ◌≢◌, true, false, List, [], ◌∷◌, arith, ◌==◌, ==_ne,
  count, ap, ltb, Bool-cases, inl, inr,
}
use riscv64_embedded_os.Mlfq
use riscv64_embedded_os.Mlfq.{Mlfq, null, max_processes}
use riscv64_embedded_os.Mlfq.Ring
use riscv64_embedded_os.RtQueue
use riscv64_embedded_os.RtQueue.{RtQueue}
use riscv64_embedded_os.RtQueue.Sorted
use riscv64_embedded_os.RtQueue.Order
use riscv64_embedded_os.Scheduler.{
  Sched, num_queue_levels, queue_time_slices, set_ready, put_proc, next_level, next,
}
use riscv64_embedded_os.Scheduler.Invariant.{at_level, real_time, occurs, Inv, occurs-set_ready}

-- the process at the front of a level, with the time slice of the level
abbrev pub picked : Sched → ℕ → ℕ → Mlfq → Sched
picked s level p q =
    set_ready (put_proc s p (record (s.procs p) { time_slice = queue_time_slices level })) level q

-- The process that runs next, and the state with it taken out of its queue.
pub data Picks (s : Sched) (p : ℕ) : Sched → Type 0 where
  -- the first real-time process
  real_time_first :
      (q : RtQueue)
      → Sorted.IsValid q
      → real_time s ≡ p ∷ Sorted.contents q
      → Picks s p (record s { rt = q })
  -- with no real-time process, the oldest one of the highest level that is not empty
  oldest_of_level :
      (level : ℕ) (q : Mlfq)
      → level < num_queue_levels
      → Ring.IsValid q
      → real_time s ≡ []
      → ((k : ℕ) → k < level → at_level s k ≡ [])
      → at_level s level ≡ p ∷ Ring.contents q
      → Picks s p (picked s level p q)
  -- the idle process, only when nothing else is ready
  nothing_ready :
      p ≡ s.idle_proc
      → real_time s ≡ []
      → ((k : ℕ) → k < num_queue_levels → at_level s k ≡ [])
      → Picks s p s

empty_of_size : (s : Sched) (level : ℕ) → (s.ready level).size ≡ 0 → at_level s level ≡ []
empty_of_size s level e = rw e

count_head : (p : ℕ) (xs : List ℕ) → 1 ≤ count p (p ∷ xs)
count_head p xs = ground arith

count-level-le :
    (s : Sched) (level a : ℕ) → level < num_queue_levels → count a (at_level s level) ≤ occurs a s
count-level-le s level a h =
    omega (arith, occurs-set_ready a level s (record (s.ready level) { size = 0 }) h)

-- What a level that is not empty has in front is a process.
front_ne_null :
    (s : Sched) (level p : ℕ) (xs : List ℕ)
    → Inv s
    → level < num_queue_levels
    → at_level s level ≡ p ∷ xs
    → p ≢ null
front_ne_null s level p xs inv h e z = omega (
  arith,
  count-level-le s level null h,
  inv.no_null,
  ap (count null) e,
  ap (λ (n : ℕ). count null (n ∷ xs)) z,
  count_head null xs,
)

next_level-Picks :
    (left level : ℕ) (s : Sched)
    → Inv s
    → left + level ≡ num_queue_levels
    → real_time s ≡ []
    → ((k : ℕ) → k < level → at_level s k ≡ [])
    → let (p, t) = next_level left level s in Picks s p t
unfolding next_level
next_level-Picks zero level s inv e r higher = nothing_ready refl r (λ k h. higher k (omega arith))
next_level-Picks (suc left) level s inv e r higher =
    elim (Bool-cases (ltb 0 (s.ready level).size)) [
      | inl some_ready ↦
          rw (some_ready, ==_ne p null (ne some_ready), next_level)
            (oldest_of_level level q (omega arith)
              (Ring.dequeue-IsValid (inv.levels level (omega arith))) r higher (front some_ready))
      | inr none_ready ↦
          rw (none_ready, next_level)
            (next_level-Picks left (level + 1) s inv (omega arith) r (up none_ready))
    ]
  where
    p : ℕ
    p = (Mlfq.dequeue (s.ready level)).0

    q : Mlfq
    q = (Mlfq.dequeue (s.ready level)).1

    front : ltb 0 (s.ready level).size ≡ true → at_level s level ≡ p ∷ Ring.contents q
    front h = (Ring.dequeue_some (s.ready level) (ground arith)).0

    ne : ltb 0 (s.ready level).size ≡ true → p ≢ null
    ne h = front_ne_null s level p (Ring.contents q) inv (omega arith) (front h)

    up : ltb 0 (s.ready level).size ≡ false → (k : ℕ) → k < level + 1 → at_level s k ≡ []
    up none k h = elim (Bool-cases (k == level)) [
      | inl same ↦
          let k_level : k ≡ level = ground arith in
          rw k_level (empty_of_size s level (ground arith))
      | inr other ↦ higher k (ground arith)
    ]

-- With well-formed queues, `sched_next` takes the first real-time process if there is one, else
-- the oldest process of the highest level that is not empty, which gets the time slice of that
-- level; the idle process is the answer exactly when all queues are empty. Nothing else changes.
pub next-Picks : (s : Sched) → Inv s → let (p, t) = next s in Picks s p t
unfolding next
next-Picks s inv = elim (Bool-cases (ltb 0 s.rt.size)) [
  | inl some_ready ↦
      rw (some_ready, ==_ne p null (ne some_ready), next)
        (real_time_first q (Order.dequeue-IsValid inv.rt_valid) (front some_ready))
  | inr none_ready ↦
      rw (none_ready, next)
        (next_level-Picks num_queue_levels 0 s inv refl (nothing none_ready)
          (λ k h. absurd (omega arith)))
]
  where
    p : ℕ
    p = (RtQueue.dequeue s.rt).0

    q : RtQueue
    q = (RtQueue.dequeue s.rt).1

    front : ltb 0 s.rt.size ≡ true → real_time s ≡ p ∷ Sorted.contents q
    front h = (Order.dequeue_some inv.rt_valid (ground arith)).0

    count-real_time-le : (a : ℕ) → count a (real_time s) ≤ occurs a s
    count-real_time-le a = unfold occurs in omega arith

    ne : ltb 0 s.rt.size ≡ true → p ≢ null
    ne h z = omega (
      arith,
      count-real_time-le null,
      inv.no_null,
      ap (count null) (front h),
      ap (λ (n : ℕ). count null (n ∷ Sorted.contents q)) z,
      count_head null (Sorted.contents q),
    )

    nothing : ltb 0 s.rt.size ≡ false → real_time s ≡ []
    nothing h = let z : s.rt.size ≡ 0 = ground arith in rw z
