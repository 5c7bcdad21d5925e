-- ===== src/Trap/Timer.antt =====
-- The interrupt of the timer, from the trap to the code of the process that runs afterwards.
use riscv64_embedded_os.Prelude.{
  ℕ, ◌+◌, ◌-◌, ◌%◌, ◌^◌, ◌≤◌, ◌<◌, ◌≡◌, refl, ◌≢◌, inl, inr, ◌∙◌, ap, true, Bool-cases, arith,
  ==_ne, leb,
}
use riscv64_embedded_os.Mlfq.{null, max_processes}
use riscv64_embedded_os.Process.{Process, Context, in_tick, runnable, tick_increment}
use riscv64_embedded_os.Scheduler.{
  Sched, demoted, left_ready, next, put_proc, route, add, requeue, load, swtch, context_switch,
  yield_to,
}
use riscv64_embedded_os.Scheduler.Invariant.{occurs, queued, Inv, beside-Inv}
use riscv64_embedded_os.Scheduler.Next.{next-Picks}
use riscv64_embedded_os.Scheduler.Taken.{Picks-Frame}
use riscv64_embedded_os.Scheduler.Switch.{IsPreemptible, Yields, Gives, yield_to-Yields}
use riscv64_embedded_os.Scheduler.Tick.{
  is_preempted, age, resume, count_tick, charge, preempt, tick,
}
use riscv64_embedded_os.Trap.{interrupt, trap_handler}
use riscv64_embedded_os.Vm.{returns}

route-global_ticks : (s : Sched) (p : ℕ) → (route s p).global_ticks ≡ s.global_ticks
unfolding route
route-global_ticks s p = ground arith

add-global_ticks : (s : Sched) (p : ℕ) → (add s p).global_ticks ≡ s.global_ticks
unfolding add
add-global_ticks s p =
    let m = put_proc s p (record (s.procs p) { state = runnable }) in
    ground (arith, route-global_ticks m p)

requeue-global_ticks : (s : Sched) (p : ℕ) → (requeue s p).global_ticks ≡ s.global_ticks
unfolding requeue
requeue-global_ticks s p = ground (
  arith,
  add-global_ticks (put_proc s p (demoted (s.procs p))) p,
  add-global_ticks (put_proc s p (left_ready (s.procs p))) p,
)

switch-global_ticks :
    (k : Context) (s : Sched) (old new : ℕ)
    → (context_switch k s old new).0.global_ticks ≡ s.global_ticks
unfolding context_switch swtch load
switch-global_ticks k s old new = ground (arith, requeue-global_ticks s old)

yield_to-global_ticks :
    (k : Context) (s : Sched) → Inv s → (yield_to k s).0.global_ticks ≡ s.global_ticks
unfolding yield_to
yield_to-global_ticks k s inv = ground (
  arith,
  switch-global_ticks k (next s).1 s.current (next s).0,
  (Picks-Frame (next-Picks s inv)).global_ticks,
)

-- no aging is due
aged_not : (s : Sched) → s.global_ticks % 100 ≢ 0 → age s ≡ s
unfolding age
aged_not s h = rw (==_ne (s.global_ticks % 100) 0 h) refl

resume_not_aged : (s : Sched) → s.global_ticks % 100 ≢ 0 → resume s ≡ s
unfolding resume
resume_not_aged s h = ground (arith, aged_not s h)

-- what a tick makes of the process on the CPU
abbrev charged : Process → Process
charged p = record p {
  time_slice = p.time_slice - 1;
  stats = record p.stats { cpu_time = (p.stats.cpu_time + 1) % 2 ^ 64 };
}

-- A tick from `s` on: at the end of its time slice the process on the CPU gives way to another and
-- is queued; before that it goes on, with one tick less.
pub data Ticks (s t : Sched) : Type 0 where
  gives_way : (s.procs s.current).time_slice ≤ 1 → Yields s s.current t → Ticks s t
  goes_on :
      1 < (s.procs s.current).time_slice
      → t.current ≡ s.current
      → t.procs s.current ≡ charged (s.procs s.current)
      → ((q : ℕ) → q ≢ s.current → t.procs q ≡ s.procs q)
      → (t.ready ≡ s.ready) × (t.rt ≡ s.rt)
      → Ticks s t

-- the state in which the time slice is tested
abbrev counted : Sched → Sched
counted s = charge (count_tick s)

counted-Yields : (s t : Sched) → Yields (counted s) s.current t → Yields s s.current t
unfolding charge count_tick occurs
counted-Yields s t y = record {
  inv = y.inv;
  runs = y.runs;
  other = y.other;
  conserved = y.conserved;
}

counted-IsPreemptible :
    (s : Sched) → IsPreemptible s s.current → IsPreemptible (counted s) s.current
unfolding charge count_tick tick_increment
counted-IsPreemptible s ok = record {
  not_null = ok.not_null;
  not_idle = ok.not_idle;
  runs = ground (arith, ok.runs);
  policy = ground (arith, ok.policy);
}

counted-Inv : (s : Sched) → Inv s → Inv (counted s)
unfolding charge count_tick
counted-Inv s inv = beside-Inv s (counted s).table (counted s).cpu inv

tick_counted : (s : Sched) → s.current ≢ null → tick s ≡ preempt (counted s)
unfolding tick
tick_counted s h = rw (==_ne s.current null h) refl

counted-current : (s : Sched) → (counted s).procs s.current ≡ charged (s.procs s.current)
unfolding charge count_tick tick_increment
counted-current s = ground arith

counted-others : (s : Sched) (q : ℕ) → q ≢ s.current → (counted s).procs q ≡ s.procs q
unfolding charge count_tick tick_increment
counted-others s q ne = ground arith

counted-global_ticks : (s : Sched) → (counted s).global_ticks ≡ (s.global_ticks + 1) % 2 ^ 64
unfolding charge count_tick tick_increment
counted-global_ticks s = refl

module _ (c : Sched) (no_aging : c.global_ticks % 100 ≢ 0) where
  preempt_early : 0 < (c.procs c.current).time_slice → preempt c ≡ c
  unfolding preempt
  preempt_early h = ground (arith, aged_not c no_aging)

  preempt_expired :
      (c.procs c.current).time_slice ≡ 0
      → is_preempted (c.procs c.current).policy ≡ true
      → (yield_to in_tick c).1 ≡ true
      → (yield_to in_tick c).0.global_ticks ≡ c.global_ticks
      → preempt c ≡ (yield_to in_tick c).0
  unfolding preempt
  preempt_expired e p switches same = rw (e, p, switches) (resume_not_aged _ (rw same no_aging))

module _ (s : Sched) (ok : IsPreemptible s s.current) (inv : Inv s) (out : occurs s.current s ≡ 0)
    (room : queued s < max_processes) (has_idle : s.idle_proc ≢ null)
    (no_aging : (s.global_ticks + 1) % 2 ^ 64 % 100 ≢ 0) where
  no_aging_counted : (counted s).global_ticks % 100 ≢ 0
  no_aging_counted = rw (counted-global_ticks s) no_aging

  counted-Gives : Gives (counted s) s.current (yield_to in_tick (counted s))
  unfolding charge count_tick occurs queued
  counted-Gives =
      yield_to-Yields in_tick (counted s) (counted-IsPreemptible s ok) (counted-Inv s inv) out room
        has_idle

  expired :
      (s.procs s.current).time_slice ≤ 1 → preempt (counted s) ≡ (yield_to in_tick (counted s)).0
  unfolding charge count_tick
  expired h =
      preempt_expired (counted s) no_aging_counted
        (ap (λ p. p.time_slice) (counted-current s) ∙ omega arith)
        (counted-IsPreemptible s ok).policy counted-Gives.1
        (yield_to-global_ticks in_tick (counted s) (counted-Inv s inv))

  early : 1 < (s.procs s.current).time_slice → preempt (counted s) ≡ counted s
  unfolding charge count_tick
  early h =
      preempt_early (counted s) no_aging_counted
        (omega (arith, ap (λ (p : Process). p.time_slice) (counted-current s)))

  tick-expired :
      (s.procs s.current).time_slice ≤ 1
      → ((tick s).global_ticks ≡ (s.global_ticks + 1) % 2 ^ 64) × Ticks s (tick s)
  tick-expired h =
      rw (tick_counted s ok.not_null, expired h)
        (
          yield_to-global_ticks in_tick (counted s) (counted-Inv s inv) ∙ counted-global_ticks s,
          gives_way h (counted-Yields s _ counted-Gives.0),
        )

  tick-early :
      1 < (s.procs s.current).time_slice
      → ((tick s).global_ticks ≡ (s.global_ticks + 1) % 2 ^ 64) × Ticks s (tick s)
  unfolding charge count_tick
  tick-early h =
      rw (tick_counted s ok.not_null, early h)
        (counted-global_ticks s, goes_on h refl (counted-current s) (counted-others s) (refl, refl))

  tick-Ticks : ((tick s).global_ticks ≡ (s.global_ticks + 1) % 2 ^ 64) × Ticks s (tick s)
  tick-Ticks = elim (Bool-cases (leb (s.procs s.current).time_slice 1)) [
    | inl e ↦ tick-expired (ground (arith, e))
    | inr e ↦ tick-early (ground (arith, e))
  ]

-- For a process on the CPU that may be preempted, is not the idle one and is in no queue, with
-- well-formed queues that hold fewer processes than the table has, an idle process that is not NULL,
-- and a tick at which no aging is due: `trap_handler` returns from the interrupt of the timer, and
-- the ticks are one more. If the time slice of the process was 1 or 0, another process runs, every
-- process but the idle one is queued or running as often as before, the one that was preempted
-- included, and the queues are well formed. Else the process stays on the CPU, with its time
-- slice one less and its CPU time one more, and no other process and no queue changes.
pub trap_handler-Ticks :
    (s : Sched)
    → IsPreemptible s s.current
    → Inv s
    → occurs s.current s ≡ 0
    → queued s < max_processes
    → s.idle_proc ≢ null
    → (s.global_ticks + 1) % 2 ^ 64 % 100 ≢ 0
    → let r = trap_handler s (2 ^ 63 + 5) in
      (r.0 ≡ returns tt) × (r.1.global_ticks ≡ (s.global_ticks + 1) % 2 ^ 64) × Ticks s r.1
unfolding trap_handler interrupt
trap_handler-Ticks s ok inv out room has_idle no_aging =
    let ticked = tick-Ticks s ok inv out room has_idle no_aging in (refl, ticked.0, ticked.1)
