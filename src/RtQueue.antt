-- ===== src/RtQueue.antt =====
-- The priority-sorted array `rt_queue_t` of kernel/process/scheduler.c. `priority` reads the
-- field of that name through a `process_t *`.
pub mod Order
pub mod Sorted
use riscv64_embedded_os.Prelude.{
  ℕ, zero, suc, ◌+◌, ◌-◌, List, true, false, ◌==◌, leb, if◌then◌else◌, get_or, set, ◌||◌,
}
use riscv64_embedded_os.Mlfq.{null, max_processes}

pub record RtQueue : Type 0 where
  pub queue : List ℕ
  pub size : ℕ

module _ (priority : ℕ → ℕ) where
  -- `for (i = size; i > 0; i--)` of `rt_enqueue` and the write behind it
  unfoldable pub insert_at : ℕ → List ℕ → ℕ → List ℕ
  insert_at zero queue proc = set queue 0 proc
  insert_at (suc i) queue proc = elim (leb (priority (get_or queue i null)) (priority proc)) [
    | true ↦ set queue (suc i) proc
    | false ↦ insert_at i (set queue (suc i) (get_or queue i null)) proc
  ]

  -- `rt_enqueue`
  unfoldable pub enqueue : RtQueue → ℕ → RtQueue
  enqueue q proc =
      if (proc == null) || leb max_processes q.size
      then q
      else record q { queue = insert_at q.size q.queue proc; size = q.size + 1 }

-- `for (i = 0; i < size; i++) queue[i] = queue[i+1]`, at index `i` with `left` rounds to go
unfoldable pub shift : ℕ → ℕ → List ℕ → List ℕ
shift zero i queue = queue
shift (suc left) i queue = shift left (i + 1) (set queue i (get_or queue (i + 1) null))

-- `rt_dequeue`
unfoldable pub dequeue : RtQueue → ℕ × RtQueue
dequeue q = if q.size == 0 then (null, q) else (
  get_or q.queue 0 null,
  record q { queue = shift (q.size - 1) 0 q.queue; size = q.size - 1 },
)
