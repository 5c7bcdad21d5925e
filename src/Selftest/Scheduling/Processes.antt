-- ===== src/Selftest/Scheduling/Processes.antt =====
-- A process that the test prepares, beside the queues.
use riscv64_embedded_os.Prelude.{
  ℕ, ◌≡◌, ◌≢◌, ◌∙◌, ap, sym, true, false, ◌==◌, ==_ne, ==_refl, List, arith, inl, inr, Bool-cases,
}
use mathlib.Core.Bool.{false≢true}
use riscv64_embedded_os.Prelude.Int.{ℤ}
use riscv64_embedded_os.Mlfq.{null, max_processes}
use riscv64_embedded_os.Process
use riscv64_embedded_os.Process.{
  Policy, normal, fifo, rr, idle, Process, Table, is_unused, filled, put, inc64,
}
use riscv64_embedded_os.Process.Slots.{Allocates, Taken, alloc-Allocates}
use riscv64_embedded_os.Scheduler.{Sched, put_proc, set_priority, set_policy, clamp_priority}
use riscv64_embedded_os.Scheduler.Invariant.{
  Inv, occurs, queued, occurs_beside, queued_beside, beside-Inv,
}
use riscv64_embedded_os.Scheduler.Priority.{Prioritised, set_priority-Prioritised}
use riscv64_embedded_os.Selftest.Scheduling.{allocated, prepared, write_name}

-- The queues are the same.
pub record Beside (s u : Sched) : Type 0 where
  pub inv : Inv s → Inv u
  pub occurs_same : (a : ℕ) → occurs a u ≡ occurs a s
  pub queued_same : queued u ≡ queued s

pub table-Beside : (s : Sched) (t : Table) → Beside s (record s { table = t })
table-Beside s t = record {
  inv = beside-Inv s t s.cpu;
  occurs_same = occurs_beside s t s.cpu;
  queued_same = queued_beside s t s.cpu;
}

pub Beside-trans : {s t u : Sched} → Beside s t → Beside t u → Beside s u
Beside-trans f g = record {
  inv = λ i. g.inv (f.inv i);
  occurs_same = λ a. g.occurs_same a ∙ f.occurs_same a;
  queued_same = g.queued_same ∙ f.queued_same;
}

set_priority-Beside : (s : Sched) (p : ℕ) (k : ℤ) → Beside s (set_priority s p k)
unfolding set_priority
set_priority-Beside s p k = elim (Bool-cases (p == null)) [
  | inl e ↦ rw e (table-Beside s s.table)
  | inr e ↦ rw e (table-Beside s _)
]

normal≢idle : normal ≢ idle
normal≢idle e = ground (arith, e)

fifo≢idle : fifo ≢ idle
fifo≢idle e = ground (arith, e)

rr≢idle : rr ≢ idle
rr≢idle e = ground (arith, e)

-- A slot that was unused holds a process that can be made ready, and no other slot changed.
pub record NewProcess (s u : Sched) (p : ℕ) : Type 0 where
  pub some_process : p ≢ null
  pub was_unused : is_unused (s.procs p).state ≡ true
  pub is_used : is_unused (u.procs p).state ≡ false
  pub not_idle : (u.procs p).policy ≢ idle
  pub others : (q : ℕ) → q ≢ p → u.procs q ≡ s.procs q
  pub beside : Beside s u

-- The outcomes of an allocation.
pub data Gets (s : Sched) : ℕ × Sched → Type 0 where
  none_free : Taken s.table 0 max_processes → Gets s (null, s)
  one : {p : ℕ} {u : Sched} → NewProcess s u p → Gets s (p, u)

-- the scheduler with the table that `process_alloc` leaves when it fills `p`
abbrev with_filled : Sched → ℕ → Sched
with_filled s p = record s {
  table = record (put s.table p (filled s.table (s.procs p))) { next_pid = inc64 s.next_pid };
}

filled-NewProcess :
    (s : Sched) (p : ℕ)
    → p ≢ null
    → is_unused (s.procs p).state ≡ true
    → NewProcess s (with_filled s p) p
unfolding filled
filled-NewProcess s p ne unused = record {
  some_process = ne;
  was_unused = unused;
  is_used = rw (==_refl p);
  not_idle = rw (==_refl p) (λ i. normal≢idle i);
  others = λ q other. rw (==_ne p q (λ z. other (sym z)));
  beside = table-Beside s (with_filled s p).table;
}

pub allocated-Gets : (s : Sched) → Gets s (allocated s)
allocated-Gets s = go (Process.alloc s.table) (alloc-Allocates s.table)
  where
    go :
        (r : ℕ × Table)
        → Allocates s.table 0 max_processes r
        → Gets s (r.0, record s { table = r.1 })
    go (p, t) (inr (e, same, taken)) = rw (e, same) (none_free taken)
    go (p, t) (inl (j, a, b, e, unused, taken, same)) =
        rw same (one (filled-NewProcess s p (λ z. absurd (omega (arith, e, z))) (rw e unused)))

idle_not : (v w : Process) (k : ℕ) → Prioritised k v w → v.policy ≢ idle → w.policy ≢ idle
idle_not v w k (inl (h, e)) ni i = rr≢idle (sym (ap (λ (u : Process). u.policy) e) ∙ i)
idle_not v w k (inr (level, a, b, c, e)) ni i = ni (sym (ap (λ (u : Process). u.policy) e) ∙ i)

state_same : (v w : Process) (k : ℕ) → Prioritised k v w → w.state ≡ v.state
state_same v w k (inl (h, e)) = ap (λ (u : Process). u.state) e
state_same v w k (inr (level, a, b, c, e)) = ap (λ (u : Process). u.state) e

-- A new process that gets a name and a priority.
pub prepared-NewProcess :
    (s u : Sched) (p : ℕ) (text : List ℕ) (priority : ℤ)
    → NewProcess s u p
    → NewProcess s (prepared u p text priority) p
prepared-NewProcess s u p text priority new =
    let v = record (u.procs p) { name = write_name (u.procs p).name 0 text } in
    let named = put_proc u p v in
    let this : named.procs p ≡ v = rw (==_refl p) in
    let (bounded, set_to, kept) = set_priority-Prioritised named p priority new.some_process in
    let done = set_priority named p priority in
    record {
      some_process = new.some_process;
      was_unused = new.was_unused;
      is_used =
          ap is_unused (state_same (named.procs p) (done.procs p) (clamp_priority priority) set_to)
          ∙ ap (λ (w : Process). is_unused w.state) this
          ∙ new.is_used;
      not_idle =
          idle_not (named.procs p) (done.procs p) (clamp_priority priority) set_to
            λ i. new.not_idle (sym (ap (λ (w : Process). w.policy) this) ∙ i);
      others = λ q ne. kept q ne ∙ rw (==_ne p q (λ z. ne (sym z))) (new.others q ne);
      beside =
          Beside-trans new.beside
            (Beside-trans (table-Beside u _) (set_priority-Beside named p priority));
    }

-- A new process that is made a first-in first-out one.
pub fifo-NewProcess :
    (s u : Sched) (p : ℕ) → NewProcess s u p → NewProcess s (set_policy u p fifo) p
unfolding set_policy
fifo-NewProcess s u p new = rw (==_ne p null new.some_process) record {
  some_process = new.some_process;
  was_unused = new.was_unused;
  is_used = rw (==_refl p) new.is_used;
  not_idle = rw (==_refl p) (λ i. fifo≢idle i);
  others = λ q ne. rw (==_ne p q (λ z. ne (sym z))) (new.others q ne);
  beside = Beside-trans new.beside (table-Beside u _);
}

-- Processes that are allocated one after the other are different.
pub NewProcess-apart : {s u w : Sched} {p q : ℕ} → NewProcess s u p → NewProcess u w q → p ≢ q
NewProcess-apart {s} {u} {w} {p} {q} first second e =
    false≢true (sym first.is_used ∙ ap (λ r. is_unused (u.procs r).state) e ∙ second.was_unused)
