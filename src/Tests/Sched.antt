-- ===== src/Tests/Sched.antt =====
-- The scheduler at concrete inputs.
use riscv64_embedded_os.Prelude.{
  ℕ, ◌≤◌, ◌<◌, ◌≡◌, refl, ◌≢◌, [], ◌++◌, arith, replicate, set, ◌==◌, if◌then◌else◌,
}
use riscv64_embedded_os.Prelude.Int.{pos}
use riscv64_embedded_os.Process
use riscv64_embedded_os.Process.{
  Process, Policy, normal, fifo, idle, unused, running, in_yield, alloc, proc_ptr,
}
use riscv64_embedded_os.Process.Pids
use riscv64_embedded_os.Scheduler.{Sched, add, next, yield_to}
use riscv64_embedded_os.Scheduler.Invariant.{Inv, Queues, occurs, queued, at_level}
use riscv64_embedded_os.Scheduler.Ready.{add-Queues}
use riscv64_embedded_os.Scheduler.Next.{Picks, next-Picks}
use riscv64_embedded_os.Scheduler.Switch.{Gives, yield_to-Yields}
use riscv64_embedded_os.Scheduler.Losses.{Lost, yield_to-Lost, IsIdle, run_ticks, run_ticks-IsIdle}
use riscv64_embedded_os.Scheduler.Aging.{boost-raised}
use riscv64_embedded_os.Scheduler.Promote.{keep, policies}
use riscv64_embedded_os.Scheduler.Tick.{boost}

abbrev process : Policy → Process
process policy = record {
  pid = 1;
  state = running;
  pagetable = 0;
  context = in_yield;
  name = replicate 32 0;
  priority = 100;
  dynamic_priority = 100;
  policy = policy;
  queue_level = 0;
  time_slice = 3;
  cpu_affinity = 1;
  cpu_id = pos 0;
  stats = record { cpu_time = 0; context_switches = 0; start_time = 0; last_run = 0 };
}

-- Process 1 is a normal one, 2 a first-in first-out one, the others are idle ones.
abbrev policy_of : ℕ → Policy
policy_of p = if p == 1 then normal else if p == 2 then fifo else idle

-- the state with `current` on the CPU and nothing queued
abbrev pub machine : ℕ → Sched
machine current = record {
  table = record { procs = λ p. process (policy_of p); next_pid = 3; global_ticks = 7 };
  ready = λ level. record { queue = replicate 64 0; head = 0; tail = 0; size = 0 };
  rt = record { queue = replicate 64 0; size = 0 };
  cpu = record { current = current; idle_proc = 65; ticks = 7; idle_ticks = 0; satp = 0 };
}

pub machine-Inv : (current : ℕ) → Inv (machine current)
unfolding occurs
machine-Inv current = record {
  levels = λ level h. record {
    array = refl;
    head_in = omega arith;
    size_in = omega arith;
    tail_at = refl;
  };
  rt_valid = record { array = refl; size_in = omega arith };
  no_null = refl;
}

pub machine-occurs : (current a : ℕ) → occurs a (machine current) ≡ 0
unfolding occurs
machine-occurs current a = refl

pub machine-queued : (current : ℕ) → queued (machine current) < 64
unfolding queued
machine-queued current = omega arith

-- process 2 runs, and process 1 is queued
abbrev busy : Sched
busy = add (machine 2) 1

busy-Queues : Queues 1 (machine 2) busy
busy-Queues =
    add-Queues (machine 2) 1 (machine-Inv 2) (omega arith) (ground arith) (machine-queued 2)

add-Queues_example : Queues 1 (machine 2) (add (machine 2) 1)
add-Queues_example =
    add-Queues (machine 2) 1 (machine-Inv 2) (omega arith) (ground arith) (machine-queued 2)

next-Picks_example : Picks busy (next busy).0 (next busy).1
next-Picks_example = next-Picks busy busy-Queues.inv

yield_to-Yields_example : Gives (machine 1) 1 (yield_to in_yield (machine 1))
yield_to-Yields_example =
    yield_to-Yields in_yield (machine 1)
      (record { not_null = omega arith; not_idle = omega arith; runs = refl; policy = refl })
      (machine-Inv 1) (machine-occurs 1 1) (machine-queued 1) (omega arith)

yield_to-Lost_example : Lost 2 (yield_to in_yield (machine 2)).0
yield_to-Lost_example =
    yield_to-Lost in_yield (machine 2) refl (omega arith) (omega arith) (omega arith)
      (machine-Inv 2) (machine-occurs 2 2)

-- a tick at which the processes 1 and 2 stand at level 1
abbrev aged : Sched
aged = record (machine 65) {
  ready = λ level. record {
    queue = set (set (replicate 64 0) 0 1) 1 2;
    head = 0;
    tail = if level == 1 then 2 else 0;
    size = if level == 1 then 2 else 0;
  };
}

aged-Inv : Inv aged
unfolding occurs
aged-Inv = record {
  levels = λ level h. record {
    array = refl;
    head_in = omega arith;
    size_in = ground arith;
    tail_at = ground arith;
  };
  rt_valid = record { array = refl; size_in = omega arith };
  no_null = refl;
}

aged-queued : queued aged ≤ 64
unfolding queued
aged-queued = omega arith

boost-raised_example :
    (at_level (boost aged) 0
      ≡ ((at_level aged 0 ++ keep (policies aged) (at_level aged 1))
          ++ keep (policies aged) (at_level aged 2))
        ++ keep (policies aged) (at_level aged 3))
    × ((k : ℕ) → k ≢ 0 → k < 4 → at_level (boost aged) k ≡ [])
    × ((boost aged).rt ≡ aged.rt)
boost-raised_example = boost-raised aged aged-Inv aged-queued

run_ticks-IsIdle_example : IsIdle (run_ticks 1000 aged)
run_ticks-IsIdle_example =
    run_ticks-IsIdle 1000 aged (record { current = refl; not_null = omega arith; policy = refl })

-- process 1 in use, the other slots free
abbrev one_used : Process.Table
one_used = record (machine 1).table {
  procs = λ p. record (process normal) { pid = p; state = if p == 1 then running else unused };
  next_pid = 66;
}

one_used-Numbered : Pids.Numbered one_used
one_used-Numbered = record {
  below = λ k h used. omega arith;
  apart = λ j k hj hk uj uk e. omega (arith, e);
}

alloc-Outcome_example : Pids.Outcome one_used (alloc one_used)
alloc-Outcome_example = Pids.alloc-Outcome one_used one_used-Numbered (omega arith)
