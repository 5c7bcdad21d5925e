-- ===== src/Mlfq.antt =====
-- The ring buffer `mlfq_t` of kernel/process/scheduler.c: one level of the feedback queue.
-- A `process_t *` is a number and 0 is NULL; `int` fields hold indices, which never go below 0.
pub mod Ring
use riscv64_embedded_os.Prelude.{
  ℕ, ◌+◌, ◌-◌, ◌%◌, Bool, List, ◌==◌, leb, if◌then◌else◌, get_or, set, ◌||◌,
}

abbrev pub null : ℕ
null = 0

-- `MAX_PROCESSES`
abbrev pub max_processes : ℕ
max_processes = 64

pub record Mlfq : Type 0 where
  pub queue : List ℕ
  pub head : ℕ
  pub tail : ℕ
  pub size : ℕ

-- `mlfq_init`: the array itself is left as it is.
unfoldable pub init : Mlfq → Mlfq
init q = record q { head = 0; tail = 0; size = 0 }

-- `mlfq_enqueue`
unfoldable pub enqueue : Mlfq → ℕ → Mlfq
enqueue q proc = if (proc == null) || leb max_processes q.size then q else record q {
  queue = set q.queue q.tail proc;
  tail = (q.tail + 1) % max_processes;
  size = q.size + 1;
}

-- `mlfq_dequeue`: the process, and the queue after the call
unfoldable pub dequeue : Mlfq → ℕ × Mlfq
dequeue q = if q.size == 0 then (null, q) else (
  get_or q.queue q.head null,
  record q { head = (q.head + 1) % max_processes; size = q.size - 1 },
)
