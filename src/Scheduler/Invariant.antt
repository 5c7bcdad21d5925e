-- ===== src/Scheduler/Invariant.antt =====
-- What the run queues hold together, and what stays true of them.
use riscv64_embedded_os.Prelude.{
  ℕ, zero, suc, ◌+◌, ◌≤◌, ◌<◌, ◌≡◌, refl, List, arith, ◌==◌, if◌then◌else◌, count,
}
use riscv64_embedded_os.Mlfq.{Mlfq, null}
use riscv64_embedded_os.Mlfq.Ring
use riscv64_embedded_os.RtQueue.Sorted
use riscv64_embedded_os.Process.{Table}
use riscv64_embedded_os.Scheduler.{Sched, Cpu, num_queue_levels, set_ready}

-- the processes at a level, and the real-time ones, next to run first
abbrev pub at_level : Sched → ℕ → List ℕ
at_level s level = Ring.contents (s.ready level)

abbrev pub real_time : Sched → List ℕ
real_time s = Sorted.contents s.rt

-- how often a process stands in the run queues
unfoldable pub occurs : ℕ → Sched → ℕ
occurs a s =
    count a (real_time s)
    + count a (at_level s 0)
    + count a (at_level s 1)
    + count a (at_level s 2)
    + count a (at_level s 3)

-- how many processes stand in the run queues
unfoldable pub queued : Sched → ℕ
queued s = s.rt.size + (s.ready 0).size + (s.ready 1).size + (s.ready 2).size + (s.ready 3).size

-- The queues are well formed and hold no NULL.
pub record Inv (s : Sched) : Type 0 where
  pub levels : (level : ℕ) → level < num_queue_levels → Ring.IsValid (s.ready level)
  pub rt_valid : Sorted.IsValid s.rt
  pub no_null : occurs null s ≡ 0

-- One copy of `p` more is queued.
pub record Queues (p : ℕ) (s t : Sched) : Type 0 where
  pub inv : Inv t
  pub occurs_more : (a : ℕ) → occurs a t ≡ (if a == p then 1 else 0) + occurs a s
  pub queued_more : queued t ≡ queued s + 1

level-cases :
    (P : ℕ → Type 0) (level : ℕ) → level < num_queue_levels → P 0 → P 1 → P 2 → P 3 → P level
level-cases P zero h a b c d = a
level-cases P (suc zero) h a b c d = b
level-cases P (suc (suc zero)) h a b c d = c
level-cases P (suc (suc (suc zero))) h a b c d = d
level-cases P (suc (suc (suc (suc n)))) h a b c d = absurd (omega arith)

-- A queue is exchanged at one level: what it holds more or less shows in the totals.
pub occurs-set_ready :
    (a level : ℕ) (s : Sched) (q : Mlfq)
    → level < num_queue_levels
    → occurs a (set_ready s level q) + count a (at_level s level)
      ≡ occurs a s + count a (Ring.contents q)
unfolding occurs
occurs-set_ready a level s q h =
    level-cases
      (λ l.
        occurs a (set_ready s l q) + count a (at_level s l)
        ≡ occurs a s + count a (Ring.contents q))
      level h (omega arith) (omega arith) (omega arith) (omega arith)

pub queued-set_ready :
    (level : ℕ) (s : Sched) (q : Mlfq)
    → level < num_queue_levels
    → queued (set_ready s level q) + (s.ready level).size ≡ queued s + q.size
unfolding queued
queued-set_ready level s q h =
    level-cases (λ l. queued (set_ready s l q) + (s.ready l).size ≡ queued s + q.size) level h
      (omega arith) (omega arith) (omega arith) (omega arith)

pub levels-set_ready :
    (s : Sched) (level : ℕ) (q : Mlfq)
    → ((k : ℕ) → k < num_queue_levels → Ring.IsValid (s.ready k))
    → Ring.IsValid q
    → (k : ℕ) → k < num_queue_levels
    → Ring.IsValid ((set_ready s level q).ready k)
levels-set_ready s level q v w k h = ground (arith, v k h)

pub size-le-queued :
    (level : ℕ) (s : Sched) → level < num_queue_levels → (s.ready level).size ≤ queued s
unfolding queued
size-le-queued level s h =
    level-cases (λ l. (s.ready l).size ≤ queued s) level h (omega arith) (omega arith) (omega arith)
      (omega arith)

-- The queues do not hold the processes, only pointers: other state may change beside them.
module _ (s : Sched) (t : Table) (c : Cpu) where
  pub occurs_beside : (a : ℕ) → occurs a (record s { table = t; cpu = c }) ≡ occurs a s
  unfolding occurs
  occurs_beside a = refl

  pub queued_beside : queued (record s { table = t; cpu = c }) ≡ queued s
  unfolding queued
  queued_beside = refl

  pub beside-Inv : Inv s → Inv (record s { table = t; cpu = c })
  unfolding occurs
  beside-Inv inv = record { levels = inv.levels; rt_valid = inv.rt_valid; no_null = inv.no_null }

  pub beside-Queues :
      {p : ℕ} (u : Sched) → Queues p (record s { table = t; cpu = c }) u → Queues p s u
  unfolding occurs queued
  beside-Queues u q = record {
    inv = q.inv;
    occurs_more = q.occurs_more;
    queued_more = q.queued_more;
  }
