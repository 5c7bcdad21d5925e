-- ===== src/Selftest/Scheduling.antt =====
-- The test of the scheduler, `test_scheduler` of kernel/main.c: three processes are allocated and
-- made ready. Printing is left out.
pub mod Processes
pub mod Readied
use riscv64_embedded_os.Prelude.{ℕ, ◌+◌, List, [], ◌∷◌, ◌==◌, if◌then◌else◌, set}
use riscv64_embedded_os.Prelude.Int.{ℤ, pos}
use riscv64_embedded_os.Mlfq.{null}
use riscv64_embedded_os.Process
use riscv64_embedded_os.Process.{fifo, priority_default}
use riscv64_embedded_os.Scheduler.{Sched, put_proc, set_priority, set_policy, add}

-- the loop that copies a text into `p->name`, and the NUL behind it
unfoldable pub write_name : List ℕ → ℕ → List ℕ → List ℕ
write_name name i [] = set name i 0
write_name name i (c ∷ text) = write_name (set name i c) (i + 1) text

-- `process_alloc` on the scheduler's table
abbrev pub allocated : Sched → ℕ × Sched
allocated s = let (p, table) = Process.alloc s.table in (p, record s { table = table })

-- the process with a name and a priority
abbrev pub prepared : Sched → ℕ → List ℕ → ℤ → Sched
prepared s p text priority =
    set_priority (put_proc s p (record (s.procs p) { name = write_name (s.procs p).name 0 text })) p
      priority

-- "test1", "test2" and "rt_test"
abbrev pub test1 : List ℕ
test1 = 116 ∷ 101 ∷ 115 ∷ 116 ∷ 49 ∷ []

abbrev pub test2 : List ℕ
test2 = 116 ∷ 101 ∷ 115 ∷ 116 ∷ 50 ∷ []

abbrev pub rt_test : List ℕ
rt_test = 114 ∷ 116 ∷ 95 ∷ 116 ∷ 101 ∷ 115 ∷ 116 ∷ []

-- `test_scheduler` from the third allocation on
unfoldable pub test_third : Sched → ℕ → ℕ → Sched
test_third s p1 p2 =
    let (p3, s') = allocated s in
    let ready = set_policy (prepared s' p3 rt_test (pos 50)) p3 fifo in
    if p3 == null then s' else add (add (add ready p1) p2) p3

-- from the second one on
unfoldable pub test_second : Sched → ℕ → Sched
test_second s p1 =
    let (p2, s') = allocated s in
    if p2 == null then s' else test_third (prepared s' p2 test2 (pos (100 + 10))) p1 p2

-- `test_scheduler`
unfoldable pub test_scheduler : Sched → Sched
test_scheduler s =
    let (p1, s') = allocated s in
    if p1 == null then s' else test_second (prepared s' p1 test1 (pos priority_default)) p1
