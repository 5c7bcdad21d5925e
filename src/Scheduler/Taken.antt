-- ===== src/Scheduler/Taken.antt =====
-- What `sched_next` leaves of the queues and of the table.
use riscv64_embedded_os.Prelude.{
  ℕ, ◌+◌, ◌<◌, ◌≡◌, refl, ◌≢◌, ◌∷◌, arith, ◌==◌, if◌then◌else◌, count, length, ap, inl, inr, ◌⊎◌,
}
use riscv64_embedded_os.Mlfq.{Mlfq, null}
use riscv64_embedded_os.Mlfq.Ring
use riscv64_embedded_os.RtQueue.{RtQueue}
use riscv64_embedded_os.RtQueue.Sorted
use riscv64_embedded_os.Process.{put, Table}
use riscv64_embedded_os.Scheduler.{Sched, num_queue_levels, queue_time_slices}
use riscv64_embedded_os.Scheduler.Invariant.{
  at_level, real_time, occurs, queued, Inv, occurs-set_ready, queued-set_ready, levels-set_ready,
  occurs_beside, queued_beside,
}
use riscv64_embedded_os.Scheduler.Next.{
  Picks, real_time_first, oldest_of_level, nothing_ready, picked,
}

-- What is left once a process is picked is well formed, and holds that process once less.
pub record Taken (s : Sched) (p : ℕ) (t : Sched) : Type 0 where
  pub inv : Inv t
  pub not_null : p ≢ null
  pub occurs_less : (a : ℕ) → occurs a s ≡ (if a == p then 1 else 0) + occurs a t
  pub queued_less : queued s ≡ queued t + 1

-- A picked process is a real one, and what is left holds no NULL.
Taken-from :
    {s t : Sched} {p : ℕ}
    → Inv s
    → ((k : ℕ) → k < num_queue_levels → Ring.IsValid (t.ready k))
    → Sorted.IsValid t.rt
    → ((a : ℕ) → occurs a s ≡ (if a == p then 1 else 0) + occurs a t)
    → queued s ≡ queued t + 1
    → Taken s p t
Taken-from inv levels rt_valid less fewer = record {
  inv = record {
    levels = levels;
    rt_valid = rt_valid;
    no_null = omega (arith, less null, inv.no_null);
  };
  not_null = λ e. ground (arith, less null, inv.no_null);
  occurs_less = less;
  queued_less = fewer;
}

rt-Taken :
    (s : Sched) (p : ℕ) (q : RtQueue)
    → Inv s
    → Sorted.IsValid q
    → real_time s ≡ p ∷ Sorted.contents q
    → Taken s p (record s { rt = q })
unfolding occurs queued
rt-Taken s p q inv v e =
    Taken-from inv inv.levels v (λ a. omega (arith, ap (count a) e))
      (omega (arith, ap length e, Sorted.length-contents v, Sorted.length-contents inv.rt_valid))

level-Taken :
    (s : Sched) (p level : ℕ) (q : Mlfq)
    → Inv s
    → level < num_queue_levels
    → Ring.IsValid q
    → at_level s level ≡ p ∷ Ring.contents q
    → Taken s p (picked s level p q)
level-Taken s p level q inv h v e =
    Taken-from inv (levels-set_ready marked level q inv.levels v) inv.rt_valid
      (λ a.
        omega (
          arith,
          ap (count a) e,
          occurs-set_ready a level marked q h,
          occurs_beside s table s.cpu a,
        ))
      (omega (
        arith,
        ap length e,
        Ring.length-contents q,
        Ring.length-contents (s.ready level),
        queued-set_ready level marked q h,
        queued_beside s table s.cpu,
      ))
  where
    table : Table
    table = put s.table p (record (s.procs p) { time_slice = queue_time_slices level })

    marked : Sched
    marked = record s { table = table; cpu = s.cpu }

pub Picks-Taken :
    {s : Sched} {p : ℕ} {t : Sched}
    → Inv s
    → Picks s p t
    → Taken s p t ⊎ ((p ≡ s.idle_proc) × (t ≡ s) × (queued s ≡ 0))
Picks-Taken {s} {p} inv (real_time_first q v e) = inl (rt-Taken s p q inv v e)
Picks-Taken {s} {p} inv (oldest_of_level level q h v r higher e) =
    inl (level-Taken s p level q inv h v e)
Picks-Taken {s} inv (nothing_ready i r all) =
    unfold queued in
    inr (
      i,
      refl,
      omega (
        arith,
        ap length r,
        Sorted.length-contents inv.rt_valid,
        ap length (all 0 (omega arith)),
        Ring.length-contents (s.ready 0),
        ap length (all 1 (omega arith)),
        Ring.length-contents (s.ready 1),
        ap length (all 2 (omega arith)),
        Ring.length-contents (s.ready 2),
        ap length (all 3 (omega arith)),
        Ring.length-contents (s.ready 3),
      ),
    )

-- Only the time slice of the picked process changes beside the queues.
pub record Frame (s : Sched) (p : ℕ) (t : Sched) : Type 0 where
  pub cpu : t.cpu ≡ s.cpu
  pub global_ticks : t.global_ticks ≡ s.global_ticks
  pub others : (q : ℕ) → q ≢ p → t.procs q ≡ s.procs q
  pub policies : (q : ℕ) → (t.procs q).policy ≡ (s.procs q).policy

pub Picks-Frame : {s : Sched} {p : ℕ} {t : Sched} → Picks s p t → Frame s p t
Picks-Frame (real_time_first q v e) = record {
  cpu = refl;
  global_ticks = refl;
  others = λ q ne. refl;
  policies = λ q. refl;
}
Picks-Frame (oldest_of_level level q h v r higher e) = record {
  cpu = refl;
  global_ticks = refl;
  others = λ q ne. ground arith;
  policies = λ q. ground arith;
}
Picks-Frame (nothing_ready i r all) = record {
  cpu = refl;
  global_ticks = refl;
  others = λ q ne. refl;
  policies = λ q. refl;
}
