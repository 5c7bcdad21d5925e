-- ===== src/Scheduler/Tick.antt =====
-- `sched_tick`, `sched_yield`, the main loop and the set-up of kernel/process/scheduler.c.
-- `swtch` leaves the code that calls it, and that code goes on only when its process is switched
-- to again. So the rest of a `sched_tick` behind its `sched_yield` runs in the step that resumes
-- the process, and a step is all that runs from an event up to the code of some process.
use riscv64_embedded_os.Prelude.{
  ℕ, zero, suc, ◌+◌, ◌-◌, ◌*◌, ◌/◌, ◌%◌, ◌^◌, Option, none, some, Bool, true, false, List, ◌==◌,
  ltb, if◌then◌else◌, set,
}
use riscv64_embedded_os.Prelude.Int.{pos}
use riscv64_embedded_os.Mlfq
use riscv64_embedded_os.Mlfq.{Mlfq, null}
use riscv64_embedded_os.Process
use riscv64_embedded_os.Process.{
  Process, Policy, normal, fifo, rr, idle, Context, fresh, in_yield, in_tick, runnable, inc64, put,
  idle_ptr,
}
use riscv64_embedded_os.Scheduler.{
  Sched, num_queue_levels, queue_time_slices, set_ready, put_proc, next, context_switch, yield_to,
}

abbrev pub is_normal : Policy → Bool
is_normal normal = true
is_normal _ = false

-- the policies that the timer preempts
abbrev pub is_preempted : Policy → Bool
is_preempted normal = true
is_preempted rr = true
is_preempted _ = false

-- one round of the loop that boosts a level
unfoldable pub boost_one : ℕ → Sched → Sched
boost_one level s =
    let (p, q) = Mlfq.dequeue (s.ready level) in
    let s' = set_ready s level q in
    let v = record (s.procs p) { queue_level = 0; time_slice = queue_time_slices 0 } in
    if p == null
    then s'
    else if is_normal (s.procs p).policy
    then set_ready (put_proc s' p v) 0 (Mlfq.enqueue (s'.ready 0) p)
    else s'

-- `while (ready_queues[level].size > 0)`: each round takes one process, so as many rounds as the
-- level holds processes are enough
unfoldable pub boost_level : ℕ → ℕ → Sched → Sched
boost_level zero level s = s
boost_level (suc left) level s =
    let s' = boost_level left level (boost_one level s) in
    if ltb 0 (s.ready level).size then s' else s

-- `for (level = 1; level < NUM_QUEUE_LEVELS; level++)`
unfoldable pub boost : Sched → Sched
boost s =
    let s1 = boost_level (s.ready 1).size 1 s in
    let s2 = boost_level (s1.ready 2).size 2 s1 in boost_level (s2.ready 3).size 3 s2

-- the end of `sched_tick`
unfoldable pub age : Sched → Sched
age s = if s.global_ticks % 100 == 0 then boost s else s

-- what runs after a switch, before the process that is now current is in its own code
unfoldable pub resume : Sched → Sched
resume s = elim (s.procs s.current).context [ in_tick ↦ age s | fresh ↦ s | in_yield ↦ s ]

-- a call of `sched_yield` by a process
unfoldable pub yield : Sched → Sched
yield s = let (s', switched) = yield_to in_yield s in if switched then resume s' else s'

-- the counters of `sched_tick`
unfoldable pub count_tick : Sched → Sched
count_tick s = record s {
  table = Process.tick_increment s.table;
  cpu = record s.cpu { ticks = inc64 s.ticks };
}

-- `sched_tick` on the current process, up to the test of its time slice
unfoldable pub charge : Sched → Sched
charge s =
    let p = s.procs s.current in
    let idle_ticks = if s.current == s.idle_proc then inc64 s.idle_ticks else s.idle_ticks in
    record s {
      table = put s.table s.current (record p {
        time_slice = p.time_slice - 1;
        stats = record p.stats { cpu_time = inc64 p.stats.cpu_time };
      });
      cpu = record s.cpu { idle_ticks = idle_ticks };
    }

-- `sched_tick` from that test on
unfoldable pub preempt : Sched → Sched
preempt s =
    let p = s.procs s.current in
    let (s', switched) = yield_to in_tick s in
    if p.time_slice == 0
    then (if is_preempted p.policy then (if switched then resume s' else age s') else age s)
    else age s

-- `sched_tick`
unfoldable pub tick : Sched → Sched
tick s = let s' = count_tick s in if s.current == null then s' else preempt (charge s')

-- a round of the loop of `scheduler`: nothing is saved of the code that it leaves
unfoldable pub dispatch : Sched → Sched
dispatch s =
    let (p, s') = next s in
    let (s'', switched) = context_switch fresh s' null p in
    if p == null then s' else if switched then resume s'' else s''

-- the text "idle" in a `char name[32]`
abbrev pub idle_name : List ℕ → List ℕ
idle_name name = set (set (set (set (set name 0 0x69) 1 0x64) 2 0x6c) 3 0x65) 4 0

-- `init_idle_process(0)`
unfoldable pub init_idle_process : Sched → Sched
init_idle_process s =
    let p = s.procs idle_ptr in
    record s {
      table = put s.table idle_ptr (record p {
        pid = 2 ^ 64 - 1;
        state = runnable;
        priority = 139;
        policy = idle;
        queue_level = num_queue_levels - 1;
        cpu_id = pos 0;
        cpu_affinity = 1;
        name = idle_name p.name;
        stats = record {
          cpu_time = 0;
          context_switches = 0;
          start_time = s.global_ticks;
          last_run = 0;
        };
      });
      cpu = record s.cpu { idle_proc = idle_ptr };
    }

-- `scheduler_init`
unfoldable pub init : Sched → Sched
init s = init_idle_process (record s {
  ready = λ level. if ltb level num_queue_levels then Mlfq.init (s.ready level) else s.ready level;
  rt = record s.rt { size = 0 };
  cpu = record s.cpu { current = null; ticks = 0; idle_ticks = 0 };
})

-- the numbers that `sched_print_stats` computes: the CPU usage in percent, if there were ticks
unfoldable pub cpu_usage : Sched → Option ℕ
cpu_usage s =
    let busy = (s.ticks + 2 ^ 64 - s.idle_ticks) % 2 ^ 64 in
    if ltb 0 s.ticks then some (busy * 100 % 2 ^ 64 / s.ticks) else none
