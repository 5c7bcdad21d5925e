-- ===== src/Selftest/Scheduling/Readied.antt =====
-- What the test of the scheduler puts into the queues.
use riscv64_embedded_os.Prelude.{
  ℕ, ◌+◌, ◌≤◌, ◌≡◌, refl, ◌≢◌, ◌∙◌, ap, sym, ◌==◌, ==_ne, if◌then◌else◌, arith, inl, inr,
  Bool-cases,
}
use mathlib.Core.Bool.{false≢true}
use riscv64_embedded_os.Prelude.Int.{pos}
use riscv64_embedded_os.Mlfq.{null, max_processes}
use riscv64_embedded_os.Process.{
  Policy, normal, fifo, rr, idle, Process, is_unused, priority_default, runnable,
}
use riscv64_embedded_os.Process.Slots.{Taken}
use riscv64_embedded_os.Scheduler.{Sched, put_proc, set_policy, route, add}
use riscv64_embedded_os.Scheduler.Invariant.{Inv, occurs, queued}
use riscv64_embedded_os.Scheduler.Ready.{add-Queues}
use riscv64_embedded_os.Selftest.Scheduling.{
  allocated, rt_test, test1, test2, prepared, test_third, test_second, test_scheduler,
}
use riscv64_embedded_os.Selftest.Scheduling.Processes.{
  table-Beside, Beside, Beside-trans, NewProcess, Gets, none_free, one, allocated-Gets,
  prepared-NewProcess, fifo-NewProcess, NewProcess-apart,
}

route-table :
    (policy : Policy) (s : Sched) (p : ℕ)
    → (s.procs p).policy ≡ policy
    → (route s p).table ≡ s.table
unfolding route
route-table normal s p e = rw (e, route) refl
route-table fifo s p e = rw (e, route) refl
route-table rr s p e = rw (e, route) refl
route-table idle s p e = rw (e, route) refl

-- Making a process ready changes no policy.
add-policy : (s : Sched) (p q : ℕ) → ((add s p).procs q).policy ≡ (s.procs q).policy
unfolding add
add-policy s p q = elim (Bool-cases (p == null)) [
  | inl e ↦ rw e refl
  | inr e ↦ rw e (ap (λ t. (t.procs q).policy) (route-table _ marked p refl) ∙ policy_kept)
]
  where
    marked : Sched
    marked = put_proc s p (record (s.procs p) { state = runnable })

    policy_kept : (marked.procs q).policy ≡ (s.procs q).policy
    policy_kept = elim (Bool-cases (p == q)) [
      | inl e ↦ let same : p ≡ q = ground (arith, e) in rw (e, same)
      | inr e ↦ rw e refl
    ]

-- The outcomes of the test: all slots are taken, so that a process could not be allocated, and
-- nothing was made ready; or three different ones were made ready.
pub data Readies (s : Sched) : Sched → Type 0 where
  no_slot : {u : Sched} → Taken u.table 0 max_processes → Beside s u → Readies s u
  readied :
      {u : Sched} (p1 p2 p3 : ℕ)
      → p1 ≢ p2
      → p1 ≢ p3
      → p2 ≢ p3
      → Inv u
      → ((a : ℕ)
          → occurs a u
            ≡ occurs a s
              + (if a == p1 then 1 else 0)
              + (if a == p2 then 1 else 0)
              + (if a == p3 then 1 else 0))
      → queued u ≡ queued s + 3
      → Readies s u

-- Three processes are made ready one after the other.
added-Readies :
    (s u : Sched) (p1 p2 p3 : ℕ)
    → Beside s u
    → Inv s
    → queued s + 3 ≤ max_processes
    → (p1 ≢ null) × (p2 ≢ null) × (p3 ≢ null)
    → (p1 ≢ p2) × (p1 ≢ p3) × (p2 ≢ p3)
    → ((u.procs p1).policy ≢ idle) × ((u.procs p2).policy ≢ idle) × ((u.procs p3).policy ≢ idle)
    → Readies s (add (add (add u p1) p2) p3)
added-Readies s u p1 p2 p3 beside inv room some_process apart policies =
    let a =
      add-Queues u p1 (beside.inv inv) some_process.0 policies.0
        (omega (arith, beside.queued_same)) in
    let u1 = add u p1 in
    let b =
      add-Queues u1 p2 a.inv some_process.1 (λ i. policies.1 (sym (add-policy u p1 p2) ∙ i))
        (omega (arith, beside.queued_same, a.queued_more)) in
    let u2 = add u1 p2 in
    let c =
      add-Queues u2 p3 b.inv some_process.2
        (λ i. policies.2 (sym (add-policy u p1 p3) ∙ sym (add-policy u1 p2 p3) ∙ i))
        (omega (arith, beside.queued_same, a.queued_more, b.queued_more)) in
    readied p1 p2 p3 apart.0 apart.1 apart.2 c.inv
      (λ x. omega (arith, beside.occurs_same x, a.occurs_more x, b.occurs_more x, c.occurs_more x))
      (omega (arith, beside.queued_same, a.queued_more, b.queued_more, c.queued_more))

-- from the third allocation on, when the first two are known
third-Readies :
    (s u1 u2 : Sched) (p1 p2 : ℕ) (r : ℕ × Sched)
    → Inv s
    → queued s + 3 ≤ max_processes
    → NewProcess s u1 p1
    → NewProcess u1 u2 p2
    → Gets u2 r
    → Readies s (
        if r.0 == null
        then r.1
        else add (add (add (set_policy (prepared r.1 r.0 rt_test (pos 50)) r.0 fifo) p1) p2) r.0)
third-Readies s u1 u2 p1 p2 r inv room a b (none_free taken) =
    no_slot taken (Beside-trans a.beside b.beside)
third-Readies s u1 u2 p1 p2 r inv room a b (one {p} {u} new) =
    let apart = NewProcess-apart a b in
    let c =
      fifo-NewProcess u2 (prepared u p rt_test (pos 50)) p
        (prepared-NewProcess u2 u p rt_test (pos 50) new) in
    let u3 = set_policy (prepared u p rt_test (pos 50)) p fifo in
    let kept : u2.procs p1 ≡ u1.procs p1 = b.others p1 apart in
    let apart2 = NewProcess-apart b c in
    let apart1 : p1 ≢ p = λ e. false≢true (
      sym a.is_used
      ∙ ap (λ (v : Process). is_unused v.state) (sym kept)
      ∙ ap (λ q. is_unused (u2.procs q).state) e
      ∙ c.was_unused) in
    let second = c.others p2 apart2 in
    let first = c.others p1 apart1 ∙ kept in
    rw (==_ne p null new.some_process) (
      added-Readies s u3 p1 p2 p (Beside-trans a.beside (Beside-trans b.beside c.beside)) inv room
        (a.some_process, b.some_process, c.some_process) (apart, apart1, apart2)
        (
          (λ i. a.not_idle (sym (ap (λ (v : Process). v.policy) first) ∙ i)),
          (λ i. b.not_idle (sym (ap (λ (v : Process). v.policy) second) ∙ i)),
          c.not_idle,
        ))

second-Readies :
    (s u1 : Sched) (p1 : ℕ) (r : ℕ × Sched)
    → Inv s
    → queued s + 3 ≤ max_processes
    → NewProcess s u1 p1
    → Gets u1 r
    → Readies s (if r.0 == null then r.1 else test_third (prepared r.1 r.0 test2 (pos 110)) p1 r.0)
unfolding test_third
second-Readies s u1 p1 r inv room a (none_free taken) = no_slot taken a.beside
second-Readies s u1 p1 r inv room a (one {p} {u} new) =
    let u2 = prepared u p test2 (pos 110) in
    rw (==_ne p null new.some_process) (
      third-Readies s u1 u2 p1 p (allocated u2) inv room a
        (prepared-NewProcess u1 u p test2 (pos 110) new) (allocated-Gets u2))

first-Readies :
    (s : Sched) (r : ℕ × Sched)
    → Inv s
    → queued s + 3 ≤ max_processes
    → Gets s r
    → Readies s (
        if r.0 == null
        then r.1
        else test_second (prepared r.1 r.0 test1 (pos priority_default)) r.0)
unfolding test_second
first-Readies s r inv room (none_free taken) = no_slot taken (table-Beside s s.table)
first-Readies s r inv room (one {p} {u} new) =
    let u1 = prepared u p test1 (pos priority_default) in
    rw (==_ne p null new.some_process) (
      second-Readies s u1 p (allocated u1) inv room
        (prepared-NewProcess s u p test1 (pos priority_default) new) (allocated-Gets u1))

-- With well-formed queues that have room for three processes more, the test of the scheduler leaves
-- them as they are and ends with all slots of the table taken; or it makes three different
-- processes ready: each stands in the queues once more than before, all others as often as before,
-- and the queues stay well formed.
pub test_scheduler-Readies :
    (s : Sched) → Inv s → queued s + 3 ≤ max_processes → Readies s (test_scheduler s)
unfolding test_scheduler
test_scheduler-Readies s inv room = first-Readies s (allocated s) inv room (allocated-Gets s)
