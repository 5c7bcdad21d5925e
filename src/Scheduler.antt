-- ===== src/Scheduler.antt =====
-- The scheduler of kernel/process/scheduler.c, for the one CPU that it runs on: `num_cpus` is 1
-- and `current_cpu` is 0, and no code assigns either, so of each array over CPUs only entry 0 is
-- in use. Printing is left out.
pub mod Invariant
pub mod Ready
pub mod Next
pub mod Taken
pub mod Switch
pub mod Losses
pub mod Priority
pub mod Promote
pub mod Aging
pub mod Tick
pub mod Start
use riscv64_embedded_os.Prelude.{
  ℕ, zero, suc, ◌+◌, ◌-◌, ◌*◌, ◌/◌, ◌%◌, ◌^◌, Bool, true, false, List, ◌==◌, ltb, leb,
  if◌then◌else◌, not, ◌&&◌, ◌||◌, bit_or,
}
use riscv64_embedded_os.Prelude.Int.{ℤ, pos, negsuc}
use riscv64_embedded_os.Mlfq
use riscv64_embedded_os.Mlfq.{Mlfq, null}
use riscv64_embedded_os.RtQueue
use riscv64_embedded_os.RtQueue.{RtQueue}
use riscv64_embedded_os.Process
use riscv64_embedded_os.Process.{
  Process, Table, Policy, normal, fifo, rr, idle, Context, in_yield, in_tick, runnable, running,
  is_running, inc64, put, idle_ptr,
}

-- `cpu_sched_t`, without its `cpu_id`, which no code reads, and the register `satp`
pub record Cpu : Type 0 where
  pub current : ℕ
  pub idle_proc : ℕ
  pub ticks : ℕ
  pub idle_ticks : ℕ
  pub satp : ℕ

pub record Sched : Type 0 where
  pub table : Table
  pub open table use *
  pub ready : ℕ → Mlfq
  pub rt : RtQueue
  pub cpu : Cpu
  pub open cpu use *

abbrev pub num_queue_levels : ℕ
num_queue_levels = 4

-- `queue_time_slices`
abbrev pub queue_time_slices : ℕ → ℕ
queue_time_slices zero = 5
queue_time_slices (suc zero) = 10
queue_time_slices (suc (suc zero)) = 20
queue_time_slices (suc (suc (suc level))) = 40

abbrev pub set_ready : Sched → ℕ → Mlfq → Sched
set_ready s level q = record s { ready = λ k. if level == k then q else s.ready k }

abbrev pub put_proc : Sched → ℕ → Process → Sched
put_proc s p v = record s { table = put s.table p v }

abbrev pub priority_of : Sched → ℕ → ℕ
priority_of s p = (s.procs p).priority

-- the clamp of `sched_add`
abbrev pub clamp_level : ℕ → ℕ
clamp_level level = if leb num_queue_levels level then num_queue_levels - 1 else level

-- where `sched_add` puts a process that it has marked runnable
unfoldable pub route : Sched → ℕ → Sched
route s p = elim (s.procs p).policy [
  | fifo ↦ record s { rt = RtQueue.enqueue (priority_of s) s.rt p }
  | rr ↦ record s { rt = RtQueue.enqueue (priority_of s) s.rt p }
  | idle ↦ s
  | normal ↦
      let level = clamp_level (s.procs p).queue_level in
      set_ready s level (Mlfq.enqueue (s.ready level) p)
]

-- `sched_add`
unfoldable pub add : Sched → ℕ → Sched
add s p = if p == null then s else route (put_proc s p (record (s.procs p) { state = runnable })) p

-- the loop of `sched_next` over the levels, from `level` on with `left` rounds to go
unfoldable pub next_level : ℕ → ℕ → Sched → ℕ × Sched
next_level zero level s = (s.idle_proc, s)
next_level (suc left) level s =
    let (p, q) = Mlfq.dequeue (s.ready level) in
    let s' = set_ready s level q in
    let rest = next_level left (level + 1) s in
    let dropped = next_level left (level + 1) s' in
    if ltb 0 (s.ready level).size
    then (if p == null
        then dropped
        else (p, put_proc s' p (record (s.procs p) { time_slice = queue_time_slices level })))
    else rest

-- `sched_next`
unfoldable pub next : Sched → ℕ × Sched
next s =
    let (p, q) = RtQueue.dequeue s.rt in
    let s' = record s { rt = q } in
    if ltb 0 s.rt.size
    then (if p == null then next_level num_queue_levels 0 s' else (p, s'))
    else next_level num_queue_levels 0 s

-- the clamp of `sched_set_priority`
abbrev pub clamp_priority : ℤ → ℕ
clamp_priority (negsuc n) = 0
clamp_priority (pos n) = if ltb 139 n then 139 else n

-- `sched_set_priority`
unfoldable pub set_priority : Sched → ℕ → ℤ → Sched
set_priority s p priority =
    let k = clamp_priority priority in
    let v = record (s.procs p) { priority = k; dynamic_priority = k } in
    let level = (k - 100) * num_queue_levels / (139 - 100 + 1) in
    if p == null
    then s
    else put_proc s p (
        if leb k 99 then record v { policy = rr } else record v { queue_level = clamp_level level })

-- `sched_set_policy`
unfoldable pub set_policy : Sched → ℕ → Policy → Sched
set_policy s p policy =
    if p == null then s else put_proc s p (record (s.procs p) { policy = policy })

-- a process that is switched away from: it is counted, and
abbrev pub left : Process → Process
left p = record p { stats = record p.stats { context_switches = inc64 p.stats.context_switches } }

-- becomes ready again, and
abbrev pub left_ready : Process → Process
left_ready p = record (left p) { state = runnable }

-- one level further down if its time slice is used up
abbrev pub demoted : Process → Process
demoted p = record (left_ready p) {
  queue_level =
      if (p.time_slice == 0) && ltb p.queue_level (num_queue_levels - 1)
      then p.queue_level + 1
      else p.queue_level;
}

-- the part of `context_switch` for the process that is switched away from
unfoldable pub requeue : Sched → ℕ → Sched
requeue s old =
    let p = s.procs old in
    if (old == null) || not (is_running p.state)
    then s
    else if old == s.idle_proc
    then put_proc s old (left_ready p)
    else elim p.policy [
      | normal ↦ add (put_proc s old (demoted p)) old
      | rr ↦ add (put_proc s old (left_ready p)) old
      | fifo ↦ put_proc s old (left p)
      | idle ↦ put_proc s old (left p)
    ]

-- the part of `context_switch` for the process that is switched to, without `swtch`
unfoldable pub load : Sched → ℕ → Sched
load s new =
    let p = s.procs new in
    record s {
      table = put s.table new (record p {
        state = running;
        cpu_id = pos 0;
        stats = record p.stats {
          last_run = s.global_ticks;
          context_switches = inc64 p.stats.context_switches;
        };
      });
      cpu = record s.cpu {
        current = new;
        satp = if p.pagetable == 0 then s.satp else bit_or (8 * 2 ^ 60) (p.pagetable / 2 ^ 12);
      };
    }

-- `swtch`: the old process will go on at `k`. Which code runs next is up to the new one.
unfoldable pub swtch : Context → Sched → ℕ → Sched
swtch k s old = if old == null then s else put_proc s old (record (s.procs old) { context = k })

-- `context_switch`, up to and with `swtch`; false if it returns without a switch
unfoldable pub context_switch : Context → Sched → ℕ → ℕ → Sched × Bool
context_switch k s old new =
    if old == new
    then (s, false)
    else if new == null
    then (requeue s old, false)
    else (swtch k (load (requeue s old) new) old, true)

-- `sched_yield`, up to the switch
unfoldable pub yield_to : Context → Sched → Sched × Bool
yield_to k s =
    let (new, s') = next s in if new == null then (s', false) else context_switch k s' s.current new
