-- ===== src/Scheduler/Losses.antt =====
-- Two ways in which the scheduler stops serving processes.
use riscv64_embedded_os.Prelude.{ℕ, zero, suc, ◌≡◌, refl, ◌≢◌, arith, ◌∙◌, ==_ne, inl, inr, ◌⊎◌}
use riscv64_embedded_os.Mlfq.{null}
use riscv64_embedded_os.Process.{fifo, idle, Context, Table, tick_increment}
use riscv64_embedded_os.Scheduler.{Sched, Cpu, next, requeue, load, context_switch, yield_to}
use riscv64_embedded_os.Scheduler.Invariant.{occurs, queued, Inv, occurs_beside}
use riscv64_embedded_os.Scheduler.Next.{Picks, next-Picks}
use riscv64_embedded_os.Scheduler.Taken.{Taken, Picks-Taken, Frame, Picks-Frame}
use riscv64_embedded_os.Scheduler.Switch.{handed, switched}
use riscv64_embedded_os.Scheduler.Tick.{
  boost_one, boost_level, boost, age, count_tick, charge, preempt, tick,
}

requeue_fifo :
    (s : Sched) (old : ℕ)
    → (s.procs old).policy ≡ fifo
    → (a : ℕ) → occurs a (requeue s old) ≡ occurs a s
unfolding requeue occurs
requeue_fifo s old e a = ground arith

-- neither queued nor on the CPU
abbrev pub Lost : ℕ → Sched → Type 0
Lost p t = (occurs p t ≡ 0) × (t.current ≢ p)

handed-Lost :
    (k : Context) (r : Sched) (old p : ℕ) → old ≢ p → occurs old r ≡ 0 → Lost old (handed k r old p)
unfolding handed load
handed-Lost k r old p ne z = (occurs_beside r table cpu old ∙ z, λ e. ne (ground arith))
  where
    table : Table
    table = (handed k r old p).table

    cpu : Cpu
    cpu = (handed k r old p).cpu

switch-Lost :
    (k : Context) (t : Sched) (old p : ℕ)
    → old ≢ null
    → p ≢ null
    → old ≢ p
    → (t.procs old).policy ≡ fifo
    → occurs old t ≡ 0
    → Lost old (context_switch k t old p).0
switch-Lost k t old p a n ne f z =
    rw (switched k t old p a n ne)
      (handed-Lost k (requeue t old) old p ne (requeue_fifo t old f old ∙ z))

next-Lost :
    (k : Context) (s t : Sched) (old p : ℕ)
    → (s.procs old).policy ≡ fifo
    → old ≢ null
    → old ≢ s.idle_proc
    → s.idle_proc ≢ null
    → occurs old s ≡ 0
    → Frame s p t
    → Taken s p t ⊎ ((p ≡ s.idle_proc) × (t ≡ s) × (queued s ≡ 0))
    → (p ≢ null) × Lost old (context_switch k t old p).0
next-Lost k s t old p f a b i z frame (inl taken) = (
  taken.not_null,
  switch-Lost k t old p a taken.not_null ne (frame.policies old ∙ f)
      (omega (arith, taken.occurs_less old)),
)
  where
    ne : old ≢ p
    ne e = ground (arith, taken.occurs_less old)
next-Lost k s t old p f a b i z frame (inr (e, same, empty)) =
    (real, rw same (switch-Lost k s old p a real (λ c. b (c ∙ e)) f z))
  where
    real : p ≢ null
    real c = i (ground arith)

-- With well-formed queues: a process of FIFO policy that is on the CPU, in no queue and not the
-- idle one, is lost when it yields: afterwards it is neither in a queue nor on the CPU. The idle
-- process is not NULL.
pub yield_to-Lost :
    (k : Context) (s : Sched)
    → (s.procs s.current).policy ≡ fifo
    → s.current ≢ null
    → s.current ≢ s.idle_proc
    → s.idle_proc ≢ null
    → Inv s
    → occurs s.current s ≡ 0
    → Lost s.current (yield_to k s).0
unfolding yield_to
yield_to-Lost k s f a b i inv z = rw (==_ne (next s).0 null lost.0) lost.1
  where
    pick : Picks s (next s).0 (next s).1
    pick = next-Picks s inv

    lost : ((next s).0 ≢ null) × Lost s.current (context_switch k (next s).1 s.current (next s).0).0
    lost =
        next-Lost k s (next s).1 s.current (next s).0 f a b i z (Picks-Frame pick)
          (Picks-Taken inv pick)

-- Boosting changes neither the CPU nor a policy.
record Keeps (s t : Sched) : Type 0 where
  cpu : t.cpu ≡ s.cpu
  policies : (p : ℕ) → (t.procs p).policy ≡ (s.procs p).policy

Keeps-trans : {s t u : Sched} → Keeps s t → Keeps t u → Keeps s u
Keeps-trans a b = record { cpu = b.cpu ∙ a.cpu; policies = λ p. b.policies p ∙ a.policies p }

boost_one-Keeps : (level : ℕ) (s : Sched) → Keeps s (boost_one level s)
unfolding boost_one
boost_one-Keeps level s = record { cpu = ground arith; policies = λ p. ground arith }

boost_level-Keeps : (left level : ℕ) (s : Sched) → Keeps s (boost_level left level s)
unfolding boost_level
boost_level-Keeps zero level s = record { cpu = refl; policies = λ p. refl }
boost_level-Keeps (suc left) level s =
    let round =
      Keeps-trans (boost_one-Keeps level s) (boost_level-Keeps left level (boost_one level s)) in
    record { cpu = ground (arith, round.cpu); policies = λ p. ground (arith, round.policies p) }

boost-Keeps : (s : Sched) → Keeps s (boost s)
unfolding boost
boost-Keeps s =
    Keeps-trans (Keeps-trans (boost_level-Keeps _ 1 s) (boost_level-Keeps _ 2 _))
      (boost_level-Keeps _ 3 _)

age-Keeps : (s : Sched) → Keeps s (age s)
unfolding age
age-Keeps s = record {
  cpu = ground (arith, (boost-Keeps s).cpu);
  policies = λ p. ground (arith, (boost-Keeps s).policies p);
}

-- `n` timer interrupts
unfoldable pub run_ticks : ℕ → Sched → Sched
run_ticks zero s = s
run_ticks (suc n) s = run_ticks n (tick s)

-- the CPU runs the idle process
pub record IsIdle (s : Sched) : Type 0 where
  pub current : s.current ≡ s.idle_proc
  pub not_null : s.idle_proc ≢ null
  pub policy : (s.procs s.idle_proc).policy ≡ idle

charged-policy : (s : Sched) (p : ℕ) → ((charge (count_tick s)).procs p).policy ≡ (s.procs p).policy
unfolding charge count_tick tick_increment
charged-policy s p = ground arith

preempt_idle : (s : Sched) → (s.procs s.current).policy ≡ idle → preempt s ≡ age s
unfolding preempt
preempt_idle s e = ground arith

tick_idle : (s : Sched) → IsIdle s → tick s ≡ age (charge (count_tick s))
unfolding tick charge count_tick
tick_idle s h =
    rw (==_ne s.current null (λ e. h.not_null (ground (arith, h.current))))
      (preempt_idle (charge (count_tick s)) (charged-policy s s.current ∙ rw h.current h.policy))

charged-IsIdle : (s : Sched) → IsIdle s → IsIdle (charge (count_tick s))
unfolding charge count_tick
charged-IsIdle s h = record {
  current = h.current;
  not_null = h.not_null;
  policy = charged-policy s s.idle_proc ∙ h.policy;
}

IsIdle-Keeps : {s t : Sched} → Keeps s t → IsIdle s → IsIdle t
IsIdle-Keeps {t} k h = record {
  current = ground (arith, k.cpu, h.current);
  not_null = λ e. h.not_null (ground (arith, k.cpu));
  policy = k.policies t.idle_proc ∙ rw k.cpu h.policy;
}

-- Once the idle process, not NULL and of idle policy, is on the CPU, no timer interrupt takes it
-- off again, however many there are and whatever is ready to run.
pub run_ticks-IsIdle : (n : ℕ) (s : Sched) → IsIdle s → IsIdle (run_ticks n s)
unfolding run_ticks
run_ticks-IsIdle zero s h = h
run_ticks-IsIdle (suc n) s h =
    run_ticks-IsIdle n (tick s)
      (rw (tick_idle s h) (IsIdle-Keeps (age-Keeps _) (charged-IsIdle s h)))
