-- ===== src/Scheduler/Ready.antt =====
-- `sched_add`: where a process that becomes ready is put.
use riscv64_embedded_os.Prelude.{
  ==_ne, ℕ, ◌+◌, ◌<◌, ◌≡◌, refl, ◌≢◌, [], ◌∷◌, ◌++◌, arith, ◌==◌, if◌then◌else◌, count,
  count-append, ap,
}
use riscv64_embedded_os.Mlfq
use riscv64_embedded_os.Mlfq.{Mlfq, null, max_processes}
use riscv64_embedded_os.Mlfq.Ring
use riscv64_embedded_os.RtQueue
use riscv64_embedded_os.RtQueue.{RtQueue}
use riscv64_embedded_os.RtQueue.Sorted
use riscv64_embedded_os.Process.{Policy, normal, fifo, rr, idle, runnable, Table, put}
use riscv64_embedded_os.Scheduler.{
  Sched, num_queue_levels, set_ready, priority_of, clamp_level, route, add,
}
use riscv64_embedded_os.Scheduler.Invariant.{
  at_level, real_time, occurs, queued, Inv, Queues, occurs-set_ready, queued-set_ready,
  levels-set_ready, size-le-queued, beside-Inv, beside-Queues, queued_beside,
}

clamp_level-lt : (level : ℕ) → clamp_level level < num_queue_levels
clamp_level-lt level = ground arith

-- Entering a level that has room.
enqueue-Queues :
    (s : Sched) (level p : ℕ)
    → Inv s
    → level < num_queue_levels
    → p ≢ null
    → queued s < max_processes
    → Queues p s (set_ready s level (Mlfq.enqueue (s.ready level) p))
enqueue-Queues s level p inv h ne room = record {
  inv = record {
    levels = levels-set_ready s level _ inv.levels (Ring.enqueue-IsValid p valid);
    rt_valid = inv.rt_valid;
    no_null = ground (arith, more null, inv.no_null);
  };
  occurs_more = more;
  queued_more =
      omega (arith, entered.1, queued-set_ready level s (Mlfq.enqueue (s.ready level) p) h);
}
  where
    valid : Ring.IsValid (s.ready level)
    valid = inv.levels level h

    entered :
        (Ring.contents (Mlfq.enqueue (s.ready level) p) ≡ at_level s level ++ p ∷ [])
        × ((Mlfq.enqueue (s.ready level) p).size ≡ (s.ready level).size + 1)
    entered = Ring.enqueue_room p valid ne (omega (arith, size-le-queued level s h))

    more :
        (a : ℕ)
        → occurs a (set_ready s level (Mlfq.enqueue (s.ready level) p))
          ≡ (if a == p then 1 else 0) + occurs a s
    more a = omega (
      arith,
      occurs-set_ready a level s (Mlfq.enqueue (s.ready level) p) h,
      ap (count a) entered.0,
      count-append a (at_level s level) (p ∷ []),
    )

-- Entering the real-time queue.
rt_enqueue-Queues :
    (s : Sched) (p : ℕ)
    → Inv s
    → p ≢ null
    → queued s < max_processes
    → Queues p s (record s { rt = RtQueue.enqueue (priority_of s) s.rt p })
unfolding occurs queued
rt_enqueue-Queues s p inv ne room = record {
  inv = record {
    levels = inv.levels;
    rt_valid = Sorted.enqueue-IsValid (priority_of s) p inv.rt_valid;
    no_null = ground (arith, entered null, inv.no_null);
  };
  occurs_more = λ a. omega (arith, (entered a).0);
  queued_more = omega (arith, (entered null).1);
}
  where
    entered :
        (a : ℕ)
        → (count a (Sorted.contents (RtQueue.enqueue (priority_of s) s.rt p))
            ≡ count a (p ∷ real_time s))
          × ((RtQueue.enqueue (priority_of s) s.rt p).size ≡ s.rt.size + 1)
    entered a = Sorted.enqueue_room (priority_of s) p a inv.rt_valid ne (omega arith)

route-Queues :
    (policy : Policy) (s : Sched) (p : ℕ)
    → (s.procs p).policy ≡ policy
    → policy ≢ idle
    → Inv s
    → p ≢ null
    → queued s < max_processes
    → Queues p s (route s p)
unfolding route
route-Queues normal s p e ni inv ne room =
    rw (e, route)
      (enqueue-Queues s (clamp_level (s.procs p).queue_level) p inv
        (clamp_level-lt (s.procs p).queue_level) ne room)
route-Queues fifo s p e ni inv ne room = rw (e, route) (rt_enqueue-Queues s p inv ne room)
route-Queues rr s p e ni inv ne room = rw (e, route) (rt_enqueue-Queues s p inv ne room)
route-Queues idle s p e ni inv ne room = absurd (ni refl)

-- `sched_add` of a process that is neither NULL nor of idle policy, with well-formed queues that
-- hold fewer processes than the table has: it stands in the queues once more, all others as
-- often as before, and the queues stay well formed.
pub add-Queues :
    (s : Sched) (p : ℕ)
    → Inv s
    → p ≢ null
    → (s.procs p).policy ≢ idle
    → queued s < max_processes
    → Queues p s (add s p)
unfolding add
add-Queues s p inv ne ni room =
    rw (==_ne p null ne, add)
      (beside-Queues s marked s.cpu _ (
        route-Queues (s.procs p).policy (record s { table = marked }) p (ground arith) ni
          (beside-Inv s marked s.cpu inv) ne (rw (queued_beside s marked s.cpu) room)))
  where
    marked : Table
    marked = put s.table p (record (s.procs p) { state = runnable })
