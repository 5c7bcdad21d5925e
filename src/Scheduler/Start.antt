-- ===== src/Scheduler/Start.antt =====
-- The state that `scheduler_init` leaves.
use riscv64_embedded_os.Prelude.{ℕ, ◌<◌, ◌≡◌, refl, arith, length, lt→ltb}
use riscv64_embedded_os.Mlfq
use riscv64_embedded_os.Mlfq.{null, max_processes}
use riscv64_embedded_os.Mlfq.Ring
use riscv64_embedded_os.Process.{idle, idle_ptr}
use riscv64_embedded_os.Scheduler.{Sched, num_queue_levels, next, next_level}
use riscv64_embedded_os.Scheduler.Invariant.{Inv, occurs, queued}
use riscv64_embedded_os.Scheduler.Tick.{init, init_idle_process}

-- The arrays of the queues have their length.
abbrev pub HasArrays : Sched → Type 0
HasArrays s =
    ((level : ℕ) → level < num_queue_levels → length (s.ready level).queue ≡ max_processes)
    × (length s.rt.queue ≡ max_processes)

-- `scheduler_init` leaves well-formed, empty queues, nothing on the CPU and an idle process of
-- idle policy, which `sched_next` returns.
pub init-Inv :
    (s : Sched)
    → HasArrays s
    → let t = init s in
      Inv t
      × (queued t ≡ 0)
      × (t.current ≡ null)
      × (t.idle_proc ≡ idle_ptr)
      × ((t.procs t.idle_proc).policy ≡ idle)
      × ((next t).0 ≡ idle_ptr)
unfolding init init_idle_process occurs queued Mlfq.init next next_level
init-Inv s (levels, rt) = (inv, refl, refl, refl, refl, refl)
  where
    inv : Inv (init s)
    inv = record {
      levels = λ level h.
          rw (lt→ltb level num_queue_levels h) (Ring.init-IsValid (s.ready level) (levels level h));
      rt_valid = record { array = rt; size_in = omega arith };
      no_null = refl;
    }
