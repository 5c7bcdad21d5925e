-- ===== src/Tests/Queues.antt =====
-- The run queues and the process table at concrete inputs.
use riscv64_embedded_os.Prelude.{ℕ, ◌+◌, ◌%◌, ◌≡◌, refl, arith, replicate, set, if◌then◌else◌}
use riscv64_embedded_os.Mlfq
use riscv64_embedded_os.Mlfq.{Mlfq, null, max_processes}
use riscv64_embedded_os.Mlfq.Ring
use riscv64_embedded_os.RtQueue
use riscv64_embedded_os.RtQueue.{RtQueue}
use riscv64_embedded_os.RtQueue.Sorted
use riscv64_embedded_os.RtQueue.Order

-- two processes, the second of them behind the end of the array
abbrev two : Mlfq
two = record { queue = set (set (replicate 64 0) 63 5) 0 7; head = 63; tail = 1; size = 2 }

two-IsValid : Ring.IsValid two
two-IsValid = record { array = refl; head_in = omega arith; size_in = omega arith; tail_at = refl }

enqueue-fifo_push_example :
    let r = Mlfq.enqueue two 9 in
    Ring.IsValid r
    × (Ring.contents r ≡ Ring.fifo_push (Ring.contents two) 9)
    × (r.head ≡ 63)
    × (r.tail ≡ (63 + r.size) % max_processes)
    × (r.size ≡ (if Ring.refuses (Ring.contents two) 9 then 2 else 3))
    × (r ≡ (if Ring.refuses (Ring.contents two) 9 then two else r))
enqueue-fifo_push_example = Ring.enqueue-fifo_push {q = two} 9 two-IsValid

-- the priority of a process is its number
abbrev own : ℕ → ℕ
own p = p

abbrev waiting : RtQueue
waiting = record { queue = set (set (replicate 64 0) 0 3) 1 8; size = 2 }

waiting-IsValid : Sorted.IsValid waiting
waiting-IsValid = record { array = refl; size_in = omega arith }

enqueue-IsSorted_example :
    Sorted.IsSorted own (Sorted.contents (RtQueue.enqueue own waiting 5))
    × Order.Splits own 5 (Sorted.contents waiting) (Sorted.contents (RtQueue.enqueue own waiting 5))
enqueue-IsSorted_example =
    Order.enqueue-IsSorted own {q = waiting} 5 waiting-IsValid (omega arith) (omega arith)
      (omega arith, tt)

rt_dequeue-fifo_pop_example :
    ((RtQueue.dequeue waiting).0, Sorted.contents (RtQueue.dequeue waiting).1)
    ≡ Ring.fifo_pop (Sorted.contents waiting)
rt_dequeue-fifo_pop_example = Order.rt_dequeue-fifo_pop {q = waiting} waiting-IsValid
