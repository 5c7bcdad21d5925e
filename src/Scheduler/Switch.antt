-- ===== src/Scheduler/Switch.antt =====
-- `context_switch` and `sched_yield`: what becomes of the process that gives the CPU up.
use riscv64_embedded_os.Prelude.{
  ℕ, ◌+◌, ◌<◌, ◌≡◌, refl, ◌≢◌, Bool, true, arith, ◌==◌, if◌then◌else◌, ==_ne, ◌∙◌, inl, inr,
}
use riscv64_embedded_os.Mlfq.{null, max_processes}
use riscv64_embedded_os.Process.{
  Process, Policy, normal, fifo, rr, idle, is_running, put, Table, Context,
}
use riscv64_embedded_os.Scheduler.{
  Sched, Cpu, put_proc, demoted, left_ready, next, add, requeue, load, swtch, context_switch,
  yield_to,
}
use riscv64_embedded_os.Scheduler.Invariant.{
  occurs, queued, Inv, Queues, occurs_beside, queued_beside, beside-Inv, beside-Queues,
}
use riscv64_embedded_os.Scheduler.Ready.{add-Queues}
use riscv64_embedded_os.Scheduler.Next.{Picks, next-Picks}
use riscv64_embedded_os.Scheduler.Taken.{Taken, Picks-Taken, Frame, Picks-Frame}
use riscv64_embedded_os.Scheduler.Tick.{is_preempted}

-- the process on the CPU may be preempted, and is a table entry rather than the idle process
pub record IsPreemptible (s : Sched) (p : ℕ) : Type 0 where
  pub not_null : p ≢ null
  pub not_idle : p ≢ s.idle_proc
  pub runs : is_running (s.procs p).state ≡ true
  pub policy : is_preempted (s.procs p).policy ≡ true

add_marked :
    (s : Sched) (p : ℕ) (v : Process)
    → Inv s
    → p ≢ null
    → v.policy ≢ idle
    → queued s < max_processes
    → Queues p s (add (put_proc s p v) p)
add_marked s p v inv ne ni room = beside-Queues s marked s.cpu _ (
    add-Queues (record s { table = marked }) p (beside-Inv s marked s.cpu inv) ne (ground arith)
      (rw (queued_beside s marked s.cpu) room))
  where
    marked : Table
    marked = put s.table p v

requeue-Queues :
    (policy : Policy) (s : Sched) (p : ℕ)
    → (s.procs p).policy ≡ policy
    → IsPreemptible s p
    → Inv s
    → queued s < max_processes
    → Queues p s (requeue s p)
unfolding requeue
requeue-Queues normal s p e ok inv room =
    rw (==_ne p null ok.not_null, ok.runs, ==_ne p s.idle_proc ok.not_idle, e, requeue)
      (add_marked s p (demoted (s.procs p)) inv ok.not_null (ground arith) room)
requeue-Queues rr s p e ok inv room =
    rw (==_ne p null ok.not_null, ok.runs, ==_ne p s.idle_proc ok.not_idle, e, requeue)
      (add_marked s p (left_ready (s.procs p)) inv ok.not_null (ground arith) room)
requeue-Queues fifo s p e ok inv room = absurd (ground (arith, ok.policy))
requeue-Queues idle s p e ok inv room = absurd (ground (arith, ok.policy))

-- the state in which `new` goes on, from the state `r` that `requeue` leaves
unfoldable pub handed : Context → Sched → ℕ → ℕ → Sched
unfolding load
handed k r old new = put_proc (load r new) old (record ((load r new).procs old) { context = k })

pub switched :
    (k : Context) (s : Sched) (old new : ℕ)
    → old ≢ null
    → new ≢ null
    → old ≢ new
    → context_switch k s old new ≡ (handed k (requeue s old) old new, true)
unfolding context_switch swtch handed
switched k s old new a b c = rw (==_ne old new c, ==_ne new null b, ==_ne old null a)

-- The CPU has gone to another process; all but the idle process is where it was, with `old` queued
-- again.
pub record Yields (s : Sched) (old : ℕ) (t : Sched) : Type 0 where
  pub inv : Inv t
  pub runs : is_running (t.procs t.current).state ≡ true
  pub other : t.current ≢ old
  pub conserved :
      (a : ℕ)
      → a ≢ s.idle_proc
      → occurs a t + (if a == t.current then 1 else 0) ≡ occurs a s + (if a == old then 1 else 0)

handed-Yields :
    (k : Context) (s r : Sched) (old new : ℕ)
    → old ≢ new
    → Inv r
    → ((a : ℕ)
        → a ≢ s.idle_proc
        → occurs a r + (if a == new then 1 else 0) ≡ occurs a s + (if a == old then 1 else 0))
    → Yields s old (handed k r old new)
unfolding handed
handed-Yields k s r old new ne inv less = record {
  inv = beside-Inv r table cpu inv;
  runs = ground arith;
  other = λ e. ne (ground arith);
  conserved = λ a p. omega (arith, less a p, occurs_beside r table cpu a);
}
  where
    table : Table
    table = (handed k r old new).table

    cpu : Cpu
    cpu = (handed k r old new).cpu

IsPreemptible-Frame :
    {s t : Sched} {p old : ℕ} → Frame s p t → old ≢ p → IsPreemptible s old → IsPreemptible t old
IsPreemptible-Frame {s} {t} {old} f ne ok = record {
  not_null = ok.not_null;
  not_idle = λ e. ok.not_idle (ground (arith, f.cpu));
  runs = rw (f.others old ne) ok.runs;
  policy = rw (f.policies old) ok.policy;
}

-- the outcome of a `sched_yield` that switches
abbrev pub Gives : Sched → ℕ → Sched × Bool → Type 0
Gives s old (t, switches) = Yields s old t × (switches ≡ true)

switched-Gives :
    (k : Context) (s u : Sched) (old new : ℕ)
    → old ≢ null
    → new ≢ null
    → old ≢ new
    → Queues old u (requeue u old)
    → ((a : ℕ) → a ≢ s.idle_proc → occurs a u + (if a == new then 1 else 0) ≡ occurs a s)
    → Gives s old (context_switch k u old new)
switched-Gives k s u old new a b c q less = rw (switched k u old new a b c) (
  handed-Yields k s (requeue u old) old new c q.inv
      (λ x p. omega (arith, less x p, q.occurs_more x)),
  refl,
)

module _ (k : Context) (s : Sched) (old : ℕ) (ok : IsPreemptible s old) (inv : Inv s)
    (out : occurs old s ≡ 0) (room : queued s < max_processes) (has_idle : s.idle_proc ≢ null) where
  Taken-Gives :
      (p : ℕ) (t : Sched)
      → Frame s p t
      → Taken s p t
      → (p ≢ null) × Gives s old (context_switch k t old p)
  Taken-Gives p t f taken = (
    taken.not_null,
    switched-Gives k s t old p ok.not_null taken.not_null ne
        (requeue-Queues (t.procs old).policy t old refl (IsPreemptible-Frame f ne ok) taken.inv
          (omega (arith, taken.queued_less)))
        (λ a _. omega (arith, taken.occurs_less a)),
  )
    where
      ne : old ≢ p
      ne e = ground (arith, taken.occurs_less old)

  idle-Gives :
      (p : ℕ) (t : Sched)
      → (p ≡ s.idle_proc) × (t ≡ s) × (queued s ≡ 0)
      → (p ≢ null) × Gives s old (context_switch k t old p)
  idle-Gives p t (e, same, empty) = (
    real,
    rw same (
        switched-Gives k s s old p ok.not_null real (λ c. ok.not_idle (c ∙ e))
          (requeue-Queues (s.procs old).policy s old refl ok inv room) (λ a h. ground arith)),
  )
    where
      real : p ≢ null
      real c = has_idle (ground arith)

  next-Gives :
      (p : ℕ) (t : Sched) → Picks s p t → (p ≢ null) × Gives s old (context_switch k t old p)
  next-Gives p t pick = elim (Picks-Taken inv pick) [
    | inl taken ↦ Taken-Gives p t (Picks-Frame pick) taken
    | inr none ↦ idle-Gives p t none
  ]

-- With well-formed queues that hold fewer processes than the table has and do not hold the
-- current process, and an idle process that is not NULL: a running normal or round-robin process
-- other than the idle one that gives up the CPU loses nobody. Another process runs, every
-- process but the idle one is queued or running as often as before, the one that yields
-- included, and the queues stay well formed.
pub yield_to-Yields :
    (k : Context) (s : Sched)
    → IsPreemptible s s.current
    → Inv s
    → occurs s.current s ≡ 0
    → queued s < max_processes
    → s.idle_proc ≢ null
    → Gives s s.current (yield_to k s)
unfolding yield_to
yield_to-Yields k s ok inv out room i = rw (==_ne (next s).0 null given.0) given.1
  where
    given :
        ((next s).0 ≢ null) × Gives s s.current (context_switch k (next s).1 s.current (next s).0)
    given = next-Gives k s s.current ok inv out room i (next s).0 (next s).1 (next-Picks s inv)
