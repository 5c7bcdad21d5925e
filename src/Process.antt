-- ===== src/Process.antt =====
-- The process table of kernel/process/process.h and kernel/process/process.c.
-- A `process_t *` is a number: 0 is NULL, `proc_ptr i` is `&proc_table[i]`, and `idle_ptr` is
-- `&idle_processes[0]` of scheduler.c. `procs` is the memory behind these pointers.
-- `priority`, `dynamic_priority` and `queue_level` are `int` fields that the code only ever fills
-- with values from 0 on, so they are natural numbers. The 14 registers of `context_t` are saved
-- and restored by swtch.S and read by no C code; `context` keeps of them the point of the code at
-- which the process goes on.
pub mod Slots
pub mod Pids
use riscv64_embedded_os.Prelude.{
  ℕ, zero, suc, ◌+◌, ◌-◌, ◌*◌, ◌/◌, ◌%◌, ◌^◌, Bool, true, false, List, ◌==◌, if◌then◌else◌, set,
  ◌||◌, Option, none, some,
}
use riscv64_embedded_os.Prelude.Int.{ℤ, pos, minus_one}
use riscv64_embedded_os.Mlfq.{null, max_processes}

-- `proc_state_t`
pub data ProcState : Type 0 where
  unused runnable running sleeping zombie : ProcState

-- `sched_policy_t`
pub data Policy : Type 0 where
  normal fifo rr idle : Policy

-- in its own code, behind `swtch` in a plain `sched_yield`, or in that of a `sched_tick`
pub data Context : Type 0 where
  fresh in_yield in_tick : Context

-- `proc_stats_t`
pub record Stats : Type 0 where
  pub cpu_time : ℕ
  pub context_switches : ℕ
  pub start_time : ℕ
  pub last_run : ℕ

-- `process_t`, without `kernel_sp` and `user_sp`, which no code reads or writes
pub record Process : Type 0 where
  pub pid : ℕ
  pub state : ProcState
  pub pagetable : ℕ
  pub context : Context
  pub name : List ℕ
  pub priority : ℕ
  pub dynamic_priority : ℕ
  pub policy : Policy
  pub queue_level : ℕ
  pub time_slice : ℕ
  pub cpu_affinity : ℕ
  pub cpu_id : ℤ
  pub stats : Stats

-- the `static` variables of process.c
pub record Table : Type 0 where
  pub procs : ℕ → Process
  pub next_pid : ℕ
  pub global_ticks : ℕ

abbrev pub priority_default : ℕ
priority_default = 100

abbrev pub proc_ptr : ℕ → ℕ
proc_ptr i = i + 1

abbrev pub idle_ptr : ℕ
idle_ptr = max_processes + 1

-- `uint64_t n; n++`
abbrev pub inc64 : ℕ → ℕ
inc64 n = (n + 1) % 2 ^ 64

abbrev pub is_unused : ProcState → Bool
is_unused unused = true
is_unused _ = false

abbrev pub is_running : ProcState → Bool
is_running running = true
is_running _ = false

-- `*p = v`
abbrev pub store : (ℕ → Process) → ℕ → Process → ℕ → Process
store f p v q = if p == q then v else f q

abbrev pub put : Table → ℕ → Process → Table
put t p v = record t { procs = store t.procs p v }

-- `tick_increment`
unfoldable pub tick_increment : Table → Table
tick_increment t = record t { global_ticks = inc64 t.global_ticks }

-- the loop of `process_init`, at index `i` with `left` rounds to go
unfoldable pub init_from : ℕ → ℕ → Table → Table
init_from zero i t = t
init_from (suc left) i t =
    init_from left (i + 1)
      (put t (proc_ptr i) (record (t.procs (proc_ptr i)) { state = unused; pid = 0 }))

-- `process_init`
unfoldable pub init : Table → Table
unfolding init_from
init t = init_from max_processes 0 t

-- the slot as `process_alloc` fills it
unfoldable pub filled : Table → Process → Process
filled t p = record p {
  pid = t.next_pid;
  state = runnable;
  name = set p.name 0 0;
  priority = priority_default;
  dynamic_priority = priority_default;
  policy = normal;
  queue_level = 0;
  time_slice = 0;
  cpu_affinity = 2 ^ 64 - 1;
  cpu_id = minus_one;
  stats = record { cpu_time = 0; context_switches = 0; start_time = t.global_ticks; last_run = 0 };
}

-- the loop of `process_alloc`, at index `i` with `left` rounds to go
unfoldable pub alloc_from : ℕ → ℕ → Table → ℕ × Table
alloc_from zero i t = (null, t)
alloc_from (suc left) i t =
    let p = proc_ptr i in
    let rest = alloc_from left (i + 1) t in
    if is_unused (t.procs p).state
    then (p, record (put t p (filled t (t.procs p))) { next_pid = inc64 t.next_pid })
    else rest

-- `process_alloc`
unfoldable pub alloc : Table → ℕ × Table
unfolding alloc_from
alloc t = alloc_from max_processes 0 t

-- `process_free`
unfoldable pub free : Table → ℕ → Table
free t p =
    if p == null
    then t
    else put t p (record (t.procs p) {
      state = unused;
      pid = 0;
      priority = 0;
      dynamic_priority = 0;
      queue_level = 0;
      time_slice = 0;
      cpu_id = minus_one;
      stats = record (t.procs p).stats { cpu_time = 0; context_switches = 0 };
    })

-- `process_get_stats`, given a place for the result
unfoldable pub get_stats : Table → ℕ → Stats → Stats
get_stats t p out = if p == null then out else (t.procs p).stats

-- the numbers that `process_print_stats` computes: the uptime, and the CPU usage in percent if
-- there is an uptime (`uint64_t` arithmetic wraps); `none` where it prints nothing
unfoldable pub usage : Table → ℕ → Option (ℕ × Option ℕ)
usage t p =
    if (p == null) || is_unused (t.procs p).state
    then none
    else let stats = (t.procs p).stats in
      let uptime = (t.global_ticks + 2 ^ 64 - stats.start_time) % 2 ^ 64 in
      some (uptime, (if uptime == 0 then none else some (stats.cpu_time * 100 % 2 ^ 64 / uptime)))
